-- ===== src/Schedule/Reset.antt =====
-- What the invalidation of a task by a plan leaves of its execution.
use taskrunner.Prelude.{
  ℕ, ◌+◌, ◌≡◌, refl, sym, subst, ap, ◌∙◌, ◌≤◌, ◌==◌, ==_iff, inl, inr, ◌⊎◌, if◌then◌else◌, Bool,
  true, false, not, ◌&&◌, ◌||◌, Option, none, some, List, [], ◌∷◌, All, arith, Bool-cases,
}
use taskrunner.TaskSet.{invalid, TaskExecution, TaskSet, is_invalid, is_canceled, update}
use taskrunner.Executor.{Executor, next, wait, invalidate_end, root, cancel}
use taskrunner.Executor.Pass.{mem}

abbrev pub is_at_rest : TaskExecution → Bool
is_at_rest e = is_invalid e.state || is_canceled e.state

-- The plan need not wait for the task.
abbrev pub IsReadyFor : Option TaskExecution → Type 0
IsReadyFor none = ⊥
IsReadyFor (some e) = (is_at_rest e ≡ true) ⊎ (1 ≤ e.terminal_ch)

-- An execution that was reset: what it waits to run with.
pub record IsReset (e e' : TaskExecution) : Type 0 where
  pub state : is_invalid e'.state ≡ true
  pub empty : e'.terminal_ch ≡ 0
  pub nothing_pending : e'.pending_invalidations ≡ []
  pub definition : e'.definition ≡ e.definition
  pub dependencies : e'.dependencies ≡ e.dependencies
  pub dependents : e'.dependents ≡ e.dependents

-- An execution after a plan, which had it to invalidate or not.
abbrev pub AfterPlan : Bool → Option TaskExecution → Option TaskExecution → Type 0
AfterPlan here none o = o ≡ none
AfterPlan here (some e) o =
    if here && not (is_at_rest e)
    then ((e' : TaskExecution) × (o ≡ some e') × IsReset e e')
    else (o ≡ some e)

abbrev pub reset_entry : TaskExecution → Executor → TaskExecution
reset_entry e x = record e {
  state = invalid;
  ctx = x.next_ctx ∷ root;
  terminal_ch = 0;
  pending_invalidations = [];
}

-- The executor after the two steps that reset a task.
abbrev pub reset : ℕ → List ℕ → TaskExecution → Executor → Executor
reset t ts e x =
    invalidate_end t ts (record e { state = invalid; ctx = x.next_ctx ∷ root })
      (record x {
        tasks = update x.tasks t (record e { state = invalid; ctx = x.next_ctx ∷ root });
        cancelled = cancel e.ctx x.cancelled;
        next_ctx = x.next_ctx + 1;
        plan = wait t ts;
      })

pub reset-tasks :
    (t : ℕ) (ts : List ℕ) (e : TaskExecution) (x : Executor) (u : ℕ)
    → (reset t ts e x).tasks u ≡ (if u == t then some (reset_entry e x) else x.tasks u)
unfolding invalidate_end
reset-tasks t ts e x u = ground arith

if_false-to : (b : Bool) (P Q : Type 0) → b ≡ false → (if b then P else Q) → Q
if_false-to true P Q h p = absurd (ground arith)
if_false-to false P Q h q = q

if_false-back : (b : Bool) (P Q : Type 0) → b ≡ false → Q → if b then P else Q
if_false-back true P Q h q = absurd (ground arith)
if_false-back false P Q h q = q

if_true-back : (b : Bool) (P Q : Type 0) → b ≡ true → P → if b then P else Q
if_true-back true P Q h p = p
if_true-back false P Q h p = absurd (ground arith)

pub AfterPlan-rest-to :
    (here : Bool) (e : TaskExecution) (o : Option TaskExecution)
    → is_at_rest e ≡ true
    → AfterPlan here (some e) o
    → o ≡ some e
AfterPlan-rest-to here e o r a = if_false-to (here && not (is_at_rest e)) _ _ (ground arith) a

pub AfterPlan-rest-back :
    (here : Bool) (e : TaskExecution) (o : Option TaskExecution)
    → is_at_rest e ≡ true
    → o ≡ some e
    → AfterPlan here (some e) o
AfterPlan-rest-back here e o r a = if_false-back (here && not (is_at_rest e)) _ _ (ground arith) a

pub AfterPlan-none : (o : Option TaskExecution) → AfterPlan false o o
AfterPlan-none none = refl
AfterPlan-none (some e) = refl

pub plan-reset :
    (t : ℕ) (ts : List ℕ) (e : TaskExecution) (x : Executor) → (reset t ts e x).plan ≡ next ts
unfolding invalidate_end
plan-reset t ts e x = refl

pub awaited : (e : TaskExecution) → is_at_rest e ≡ false → IsReadyFor (some e) → 1 ≤ e.terminal_ch
awaited e r (inl h) = absurd (ground arith)
awaited e r (inr h) = h

-- A task that was reset is ready again, and the others are as they were.
pub ready_reset :
    (t : ℕ) (ts : List ℕ) (e : TaskExecution) (x : Executor) (us : List ℕ)
    → All (λ u. IsReadyFor (x.tasks u)) us
    → All (λ u. IsReadyFor ((reset t ts e x).tasks u)) us
ready_reset t ts e x [] h = tt
ready_reset t ts e x (u ∷ us) h = (
  elim (Bool-cases (u == t)) [
    | inl b ↦
        let k : (reset t ts e x).tasks u ≡ some (reset_entry e x) =
          reset-tasks t ts e x u ∙ rw b refl in
        subst IsReadyFor (sym k) (inl refl)
    | inr b ↦
        let k : (reset t ts e x).tasks u ≡ x.tasks u = reset-tasks t ts e x u ∙ rw b refl in
        subst IsReadyFor (sym k) h.0
  ],
  ready_reset t ts e x us h.1,
)

IsReset-reset_entry : (e : TaskExecution) (x : Executor) → IsReset e (reset_entry e x)
IsReset-reset_entry e x = record {
  state = refl;
  empty = refl;
  nothing_pending = refl;
  definition = refl;
  dependencies = refl;
  dependents = refl;
}

-- Of a task that a plan begins with, and the rest of the plan.
pub after_rest :
    (t : ℕ) (ts : List ℕ) (e : TaskExecution) (s s' : TaskSet)
    → s t ≡ some e
    → is_at_rest e ≡ true
    → (u : ℕ) → AfterPlan (mem u ts) (s u) (s' u)
    → AfterPlan (mem u (t ∷ ts)) (s u) (s' u)
after_rest t ts e s s' q r u a = elim (Bool-cases (t == u)) [
  | inl h ↦
      let k : s u ≡ some e = ap s (sym ((==_iff t u).0 h)) ∙ q in
      subst (λ o. AfterPlan (mem u (t ∷ ts)) o (s' u)) (sym k)
        (AfterPlan-rest-back (mem u (t ∷ ts)) e (s' u) r (
          AfterPlan-rest-to (mem u ts) e (s' u) r (subst (λ o. AfterPlan (mem u ts) o (s' u)) k a)))
  | inr h ↦ rw h a
]

pub after_reset :
    (t : ℕ) (ts : List ℕ) (e : TaskExecution) (x : Executor) (s' : TaskSet)
    → x.tasks t ≡ some e
    → is_at_rest e ≡ false
    → (u : ℕ) → AfterPlan (mem u ts) ((reset t ts e x).tasks u) (s' u)
    → AfterPlan (mem u (t ∷ ts)) (x.tasks u) (s' u)
after_reset t ts e x s' q r u a = elim (Bool-cases (t == u)) [
  | inl h ↦
      let same : u ≡ t = sym ((==_iff t u).0 h) in
      let k : x.tasks u ≡ some e = ap x.tasks same ∙ q in
      let k' : (reset t ts e x).tasks u ≡ some (reset_entry e x) =
        reset-tasks t ts e x u ∙ rw ((==_iff u t).1 same) refl in
      let done =
        AfterPlan-rest-to (mem u ts) (reset_entry e x) (s' u) refl
          (subst (λ o. AfterPlan (mem u ts) o (s' u)) k' a) in
      subst (λ o. AfterPlan (mem u (t ∷ ts)) o (s' u)) (sym k)
        (if_true-back (mem u (t ∷ ts) && not (is_at_rest e)) _ _ (rw (h, r) refl)
          (reset_entry e x, done, IsReset-reset_entry e x))
  | inr h ↦
      let k : (reset t ts e x).tasks u ≡ x.tasks u = reset-tasks t ts e x u ∙ ground arith in
      rw h (subst (λ o. AfterPlan (mem u ts) o (s' u)) k a)
]
