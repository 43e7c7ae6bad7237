-- ===== src/TaskSet/Closure.antt =====
-- The dependencies that `taskSet.add` records for a task are those that it needs, at any depth.
use taskrunner.Prelude.{
  ℕ, ◌≡◌, refl, sym, ap, ◌∙◌, subst, ◌⊎◌, inl, inr, Option, none, some, List, [], ◌∷◌, ◌++◌, arith,
  Option-cases, In, In-append, In-append_left, In-append_right,
}
use taskrunner.Task.{Task}
use taskrunner.TaskSet.{Context, TaskSet, Build, add_dependent, add_all}

-- `Needs definition d t`: task `t` depends on task `d`, directly or through others.
pub data Needs (definition : ℕ → Task) (d : ℕ) : ℕ → Type 0 where
  direct : {t : ℕ} → In d (definition t).dependencies → Needs definition d t
  via : {t x : ℕ} → In x (definition t).dependencies → Needs definition d x → Needs definition d t

-- The dependencies that the execution of a task has recorded.
abbrev pub recorded : TaskSet → ℕ → Option (List ℕ)
recorded s t = elim (s t) [ none ↦ none | some e ↦ some e.dependencies ]

pub record IsComplete (definition : ℕ → Task) (s : TaskSet) : Type 0 where
  pub sound : (t : ℕ) (l : List ℕ) → recorded s t ≡ some l → (d : ℕ) → In d l → Needs definition d t
  pub complete :
      (t : ℕ) (l : List ℕ) → recorded s t ≡ some l → (d : ℕ) → Needs definition d t → In d l
  pub registered :
      (t : ℕ) (l : List ℕ)
      → recorded s t ≡ some l
      → (d : ℕ) → In d (definition t).dependencies
      → (m : List ℕ) × (recorded s d ≡ some m)

abbrev pub Extends : TaskSet → TaskSet → Type 0
Extends s s' =
    (u : ℕ) (l : List ℕ) → recorded s u ≡ some l → (m : List ℕ) × (recorded s' u ≡ some m)

Extends-trans : (s s' s'' : TaskSet) → Extends s s' → Extends s' s'' → Extends s s''
Extends-trans s s' s'' p q u l h = let (m, e) = p u l h in q u m e

recorded-add_dependent :
    (self d u : ℕ) (s : TaskSet) → recorded (add_dependent self d s) u ≡ recorded s u
recorded-add_dependent self d u s = ground arith

-- Sets that record the same are complete alike.
pub IsComplete-of_recorded :
    (definition : ℕ → Task) (s s' : TaskSet)
    → ((u : ℕ) → recorded s' u ≡ recorded s u)
    → IsComplete definition s
    → IsComplete definition s'
IsComplete-of_recorded definition s s' same c = record {
  sound = λ t l h. c.sound t l (sym (same t) ∙ h);
  complete = λ t l h. c.complete t l (sym (same t) ∙ h);
  registered = λ t l h d i. let (m, e) = c.registered t l (sym (same t) ∙ h) d i in (m, same d ∙ e);
}

module _ (definition : ℕ → Task) where
  -- What a call of `add` for `t` achieves.
  pub record Added (t : ℕ) (s s' : TaskSet) (deps : List ℕ) : Type 0 where
    pub complete : IsComplete definition s'
    pub extends : Extends s s'
    pub found : recorded s' t ≡ some deps

  -- What the loop over `ds` achieves, from `acc` to `acc'`.
  pub record Gathered (ds acc acc' : List ℕ) (s s' : TaskSet) : Type 0 where
    pub complete : IsComplete definition s'
    pub extends : Extends s s'
    pub listed : (x : ℕ) → In x ds → (m : List ℕ) × (recorded s' x ≡ some m)
    pub sound :
        (d : ℕ) → In d acc' → In d acc ⊎ ((x : ℕ) × In x ds × ((d ≡ x) ⊎ Needs definition d x))
    pub keeps : (d : ℕ) → In d acc → In d acc'
    pub directs : (x : ℕ) → In x ds → In x acc'
    pub nested : (x d : ℕ) → In x ds → Needs definition d x → In d acc'

  Gathered-nil : (acc : List ℕ) (s : TaskSet) → IsComplete definition s → Gathered [] acc acc s s
  Gathered-nil acc s c = record {
    complete = c;
    extends = λ u l h. (l, h);
    listed = λ x i. absurd i;
    sound = λ d i. inl i;
    keeps = λ d i. i;
    directs = λ x i. absurd i;
    nested = λ x d i n. absurd i;
  }

  -- One round of the loop, and the rounds after it.
  module _ (d : ℕ) (ds acc deps acc' : List ℕ) (s s₁ s₂ s' : TaskSet) (a : Added d s s₁ deps)
      (same : (u : ℕ) → recorded s₂ u ≡ recorded s₁ u)
      (g : Gathered ds ((acc ++ deps) ++ d ∷ []) acc' s₂ s') where
    keeps_acc : (x : ℕ) → In x acc → In x acc'
    keeps_acc x i =
        g.keeps x (In-append_left x (acc ++ deps) (d ∷ []) (In-append_left x acc deps i))

    keeps_deps : (x : ℕ) → In x deps → In x acc'
    keeps_deps x i =
        g.keeps x (In-append_left x (acc ++ deps) (d ∷ []) (In-append_right x acc deps i))

    keeps_self : (x : ℕ) → x ≡ d → In x acc'
    keeps_self x e = g.keeps x (In-append_right x (acc ++ deps) (d ∷ []) (inl e))

    from_round :
        (x : ℕ) → In x ((acc ++ deps) ++ d ∷ []) → In x acc ⊎ ((x ≡ d) ⊎ Needs definition x d)
    from_round x i = elim (In-append x (acc ++ deps) (d ∷ []) i) [
      | inl j ↦ elim (In-append x acc deps j) [
        | inl k ↦ inl k
        | inr k ↦ inr (inr (a.complete.sound d deps a.found x k))
      ]
      | inr (inl e) ↦ inr (inl e)
      | inr (inr n) ↦ absurd n
    ]

    Gathered-cons : Gathered (d ∷ ds) acc acc' s s'
    Gathered-cons = record {
      complete = g.complete;
      extends = λ u l h. let (m, e) = a.extends u l h in g.extends u m (same u ∙ e);
      listed = λ x i. elim i [
        | inl e ↦ g.extends x deps (same x ∙ (ap (recorded s₁) e ∙ a.found))
        | inr j ↦ g.listed x j
      ];
      sound = λ x i. elim (g.sound x i) [
        | inl j ↦ elim (from_round x j) [ inl k ↦ inl k | inr k ↦ inr (d, inl refl, k) ]
        | inr (y, j, k) ↦ inr (y, inr j, k)
      ];
      keeps = keeps_acc;
      directs = λ x i. elim i [ inl e ↦ keeps_self x e | inr j ↦ g.directs x j ];
      nested = λ y x i n. elim i [
        | inl e ↦
            keeps_deps x (a.complete.complete d deps a.found x (subst (Needs definition x) e n))
        | inr j ↦ g.nested y x j n
      ];
    }

  abbrev pub GathersAll : List ℕ → List ℕ → TaskSet → Option (Build × List ℕ) → Type 0
  GathersAll ds acc s none = Unit
  GathersAll ds acc s (some (b', acc')) = Gathered ds acc acc' s b'.tasks

  abbrev pub AddsTask : ℕ → TaskSet → Option (Build × List ℕ) → Type 0
  AddsTask t s none = Unit
  AddsTask t s (some (b', deps)) = Added t s b'.tasks deps

  GathersAll-cons :
      (d : ℕ) (ds acc deps : List ℕ) (s s₁ s₂ : TaskSet)
      → Added d s s₁ deps
      → ((u : ℕ) → recorded s₂ u ≡ recorded s₁ u)
      → (o : Option (Build × List ℕ)) → GathersAll ds ((acc ++ deps) ++ d ∷ []) s₂ o
      → GathersAll (d ∷ ds) acc s o
  GathersAll-cons d ds acc deps s s₁ s₂ a same none g = tt
  GathersAll-cons d ds acc deps s s₁ s₂ a same (some (b', acc')) g =
      Gathered-cons d ds acc deps acc' s s₁ s₂ b'.tasks a same g

  pub add_all-GathersAll :
      (rec : Context → ℕ → Build → Option (Build × List ℕ))
      → ((ctx : Context) (t : ℕ) (b : Build)
          → IsComplete definition b.tasks
          → AddsTask t b.tasks (rec ctx t b))
      → (ctx : Context) (self : ℕ) (ds acc : List ℕ) (b : Build) → IsComplete definition b.tasks
      → GathersAll ds acc b.tasks (add_all rec ctx self ds acc b)
  unfolding add_all
  add_all-GathersAll rec adds ctx self [] acc b c = Gathered-nil acc b.tasks c
  add_all-GathersAll rec adds ctx self (d ∷ ds) acc b c = elim (Option-cases (rec ctx d b)) [
    | inl e ↦ rw (e, add_all) tt
    | inr ((b₁, deps), e) ↦
        let a : Added d b.tasks b₁.tasks deps = subst (AddsTask d b.tasks) e (adds ctx d b c) in
        let b₂ = record b₁ { tasks = add_dependent self d b₁.tasks } in
        let same = λ (u : ℕ). recorded-add_dependent self d u b₁.tasks in
        let rest =
          add_all-GathersAll rec adds ctx self ds ((acc ++ deps) ++ d ∷ []) b₂
            (IsComplete-of_recorded definition b₁.tasks b₂.tasks same a.complete) in
        rw (e, add_all)
          (GathersAll-cons d ds acc deps b.tasks b₁.tasks b₂.tasks a same
            (add_all rec ctx self ds ((acc ++ deps) ++ d ∷ []) b₂) rest)
  ]
