-- ===== src/TaskSet/Add.antt =====
-- `taskSet.add` as a whole: what it records, and that it returns where no task needs itself.
use taskrunner.Prelude.{
  ℕ, zero, suc, ◌+◌, ◌≡◌, refl, sym, subst, ◌∙◌, ◌<◌, ◌==◌, ◌⊎◌, inl, inr, Option, none, some, List,
  [], ◌∷◌, arith, Option-cases, Bool-cases, In, ==_iff, ==_refl,
}
use taskrunner.Task.{Task}
use taskrunner.TaskSet.{Context, TaskSet, Build, update, add_all, register, new_execution, add}
use taskrunner.TaskSet.Closure.{
  Needs, direct, via, recorded, IsComplete, Added, Gathered, GathersAll, AddsTask,
  add_all-GathersAll,
}

some_inj {ℓ} : {A : Type ℓ} {a b : A} → some a ≡ some b → a ≡ b
some_inj h = cc

module _ (definition : ℕ → Task) (t : ℕ) (ctx : Context) (deps : List ℕ) (s s' : TaskSet)
    (g : Gathered definition (definition t).dependencies [] deps s s') where
  abbrev after : TaskSet
  after = update s' t (new_execution t ctx deps)

  same_or_kept :
      (u : ℕ) → ((u ≡ t) × (recorded after u ≡ some deps)) ⊎ (recorded after u ≡ recorded s' u)
  same_or_kept u = elim (Bool-cases (u == t)) [
    | inl e ↦ inl ((==_iff u t).0 e, rw (e, recorded))
    | inr e ↦ inr (rw (e, recorded))
  ]

  Needs-of_mem : (d : ℕ) → In d deps → Needs definition d t
  Needs-of_mem d i = elim (g.sound d i) [
    | inl n ↦ absurd n
    | inr (x, j, inl e) ↦ direct (subst (λ y. In y (definition t).dependencies) (sym e) j)
    | inr (x, j, inr n) ↦ via j n
  ]

  mem_of_needs : (d : ℕ) → Needs definition d t → In d deps
  mem_of_needs d (direct i) = g.directs d i
  mem_of_needs d (via {x = x} i n) = g.nested x d i n

  extended :
      (u : ℕ) (l : List ℕ) → recorded s' u ≡ some l → (m : List ℕ) × (recorded after u ≡ some m)
  extended u l h = elim (same_or_kept u) [ inl (e, r) ↦ (deps, r) | inr r ↦ (l, r ∙ h) ]

  register-Added : Added definition t s after deps
  register-Added = record {
    complete = record {
      sound = λ u l h d i. elim (same_or_kept u) [
        | inl (e, r) ↦
            subst (Needs definition d) (sym e)
              (Needs-of_mem d (subst (In d) (some_inj (sym h ∙ r)) i))
        | inr r ↦ g.complete.sound u l (sym r ∙ h) d i
      ];
      complete = λ u l h d n. elim (same_or_kept u) [
        | inl (e, r) ↦
            subst (In d) (some_inj (sym r ∙ h)) (mem_of_needs d (subst (Needs definition d) e n))
        | inr r ↦ g.complete.complete u l (sym r ∙ h) d n
      ];
      registered = λ u l h d i. elim (same_or_kept u) [
        | inl (e, r) ↦
            let (m, q) = g.listed d (subst (λ v. In d (definition v).dependencies) e i) in
            extended d m q
        | inr r ↦ let (m, q) = g.complete.registered u l (sym r ∙ h) d i in extended d m q
      ];
    };
    extends = λ u l h. let (m, q) = g.extends u l h in extended u m q;
    found = elim (same_or_kept t) [ inl (e, r) ↦ r | inr r ↦ rw (==_refl t, recorded) ];
  }

register-AddsTask :
    (definition : ℕ → Task) (t : ℕ) (ctx : Context) (s : TaskSet) (o : Option (Build × List ℕ))
    → GathersAll definition (definition t).dependencies [] s o
    → AddsTask definition t s (register t ctx o)
register-AddsTask definition t ctx s none g = tt
register-AddsTask definition t ctx s (some (b, deps)) g =
    register-Added definition t ctx deps s b.tasks g

-- A task that is in the set already.
found-Added :
    (definition : ℕ → Task) (t : ℕ) (s : TaskSet) (l : List ℕ)
    → IsComplete definition s
    → recorded s t ≡ some l
    → Added definition t s s l
found-Added definition t s l c h = record { complete = c; extends = λ u m k. (m, k); found = h }

-- Where `add` returns, every task of the new set has recorded exactly the tasks that it needs, its
-- direct dependencies are in the set, no task has left it, and `task` is in it with the result.
pub add-AddsTask :
    (definition : ℕ → Task) (fuel : ℕ) (ctx : Context) (task : ℕ) (b : Build)
    → IsComplete definition b.tasks
    → AddsTask definition task b.tasks (add definition fuel ctx task b)
unfolding add
add-AddsTask definition zero ctx task b c = tt
add-AddsTask definition (suc fuel) ctx task b c = elim (Option-cases (b.tasks task)) [
  | inl e ↦
      rw (e, add)
        (register-AddsTask definition task (b.next_ctx ∷ ctx) b.tasks _ (
          add_all-GathersAll definition (add definition fuel) (add-AddsTask definition fuel)
            (b.next_ctx ∷ ctx) task (definition task).dependencies []
            (record b { next_ctx = b.next_ctx + 1 }) c))
  | inr (x, e) ↦ rw (e, add) (found-Added definition task b.tasks x.dependencies c (ground arith))
]

abbrev pub IsRanked : (ℕ → Task) → (ℕ → ℕ) → Type 0
IsRanked definition rank = (t d : ℕ) → In d (definition t).dependencies → rank d < rank t

abbrev pub Returns {ℓ} : {A : Type ℓ} → Option A → Type 0
Returns none = ⊥
Returns (some a) = Unit

add_all-Returns :
    (rec : Context → ℕ → Build → Option (Build × List ℕ)) (ctx : Context) (self : ℕ)
    (ds acc : List ℕ) (b : Build)
    → ((d : ℕ) → In d ds → (b : Build) → Returns (rec ctx d b))
    → Returns (add_all rec ctx self ds acc b)
unfolding add_all
add_all-Returns rec ctx self [] acc b h = tt
add_all-Returns rec ctx self (d ∷ ds) acc b h = elim (Option-cases (rec ctx d b)) [
  | inl e ↦ absurd (subst Returns e (h d (inl refl) b))
  | inr ((b₁, deps), e) ↦ rw (e, add_all) (add_all-Returns rec ctx self ds _ _ (λ x i. h x (inr i)))
]

register-Returns :
    (t : ℕ) (ctx : Context) (o : Option (Build × List ℕ)) → Returns o → Returns (register t ctx o)
register-Returns t ctx none h = h
register-Returns t ctx (some r) h = tt

-- Where the dependencies have no cycle, `add` returns on any fuel above the rank of the task.
pub add-Returns :
    (definition : ℕ → Task) (rank : ℕ → ℕ)
    → IsRanked definition rank
    → (fuel : ℕ) (ctx : Context) (task : ℕ) (b : Build) → rank task < fuel
    → Returns (add definition fuel ctx task b)
unfolding add
add-Returns definition rank ranked zero ctx task b h = elim h [ ]
add-Returns definition rank ranked (suc fuel) ctx task b h = elim (Option-cases (b.tasks task)) [
  | inl e ↦
      rw (e, add)
        (register-Returns task (b.next_ctx ∷ ctx) _ (
          add_all-Returns (add definition fuel) _ task (definition task).dependencies [] _
            (λ d i b'.
              add-Returns definition rank ranked fuel _ d b' (omega (arith, ranked task d i)))))
  | inr (x, e) ↦ rw (e, add) tt
]

Added-of :
    (definition : ℕ → Task) (t : ℕ) (s : TaskSet) (o : Option (Build × List ℕ))
    → Returns o
    → AddsTask definition t s o
    → (b' : Build) × (deps : List ℕ) × (o ≡ some (b', deps)) × Added definition t s b'.tasks deps
Added-of definition t s none r a = absurd r
Added-of definition t s (some (b', deps)) r a = (b', deps, refl, a)

-- On a set in which every task has recorded exactly the tasks that it needs, and where the
-- dependencies have no cycle, `add` returns on any fuel above the rank of the task. The set that it
-- leaves is again such a set, no task has left it, and it holds the task with the dependencies that
-- are the result.
pub add_lem :
    (definition : ℕ → Task) (rank : ℕ → ℕ)
    → IsRanked definition rank
    → (fuel : ℕ) (ctx : Context) (task : ℕ) (b : Build) → rank task < fuel
    → IsComplete definition b.tasks
    → (b' : Build) × (deps : List ℕ) × (add definition fuel ctx task b ≡ some (b', deps))
      × Added definition task b.tasks b'.tasks deps
add_lem definition rank ranked fuel ctx task b h c =
    Added-of definition task b.tasks _ (add-Returns definition rank ranked fuel ctx task b h)
      (add-AddsTask definition fuel ctx task b c)
