-- ===== src/Invalidation.antt =====
-- task_execution.go, `Invalidate`: an event is noted on an execution and, as a change of a
-- dependency, on its dependents.
pub mod Frame
pub mod Spread
pub mod Contract
use taskrunner.Prelude.{
  ℕ, zero, suc, if◌then◌else◌, Bool, true, false, not, Option, none, some, List, [], ◌∷◌, ◌++◌, any,
}
use taskrunner.Task.{Task, InvalidationEvent, dependency_change, event_eq}
use taskrunner.TaskSet.{TaskExecution, TaskSet, is_invalid, update}

-- A write to the map `pendingInvalidations`.
unfoldable pub add_pending : InvalidationEvent → List InvalidationEvent → List InvalidationEvent
unfolding event_eq
add_pending event pending = if any (event_eq event) pending then pending else pending ++ event ∷ []

unfoldable pub refuses : Task → InvalidationEvent → Bool
refuses task event = elim task.should_invalidate [ none ↦ false | some f ↦ not (f event) ]

abbrev pub note : TaskSet → ℕ → TaskExecution → InvalidationEvent → TaskSet
note s t e event =
    update s t (record e { pending_invalidations = add_pending event e.pending_invalidations })

-- The loop over the dependents; `rec` is the recursive call.
unfoldable pub note_all :
    (ℕ → TaskSet → Option (TaskSet × Bool)) → List ℕ → TaskSet → Option (TaskSet × Bool)
note_all rec [] s = some (s, true)
note_all rec (d ∷ ds) s = elim (rec d s) [ none ↦ none | some (s', b) ↦ note_all rec ds s' ]

-- `Invalidate`: the new set, and whether the event was noted. The fuel bounds the depth of the
-- recursion. `none` is a nil execution, or that the fuel ran out.
unfoldable pub invalidate_event :
    (ℕ → Task) → ℕ → InvalidationEvent → ℕ → TaskSet → Option (TaskSet × Bool)
unfolding note_all
invalidate_event definition zero event t s = none
invalidate_event definition (suc fuel) event t s = elim (s t) [
  | none ↦ none
  | some e ↦
      let rest =
        note_all (invalidate_event definition fuel (dependency_change e.definition)) e.dependents
          (note s t e event) in
      if is_invalid e.state
      then some (s, false)
      else if refuses (definition t) event
      then some (s, false)
      else rest
]
