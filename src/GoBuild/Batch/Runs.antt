-- ===== src/GoBuild/Batch/Runs.antt =====
-- An invariant of the steps is one of the runs.
use taskrunner.Prelude.{◌≡◌, refl, subst, List, [], ◌∷◌}
use taskrunner.GoBuild.Batch.{
  GoBuilder, BuilderOutcome, went, blocked, panicked, builder_step, BuilderLabel, and_then,
  run_builder,
}

pub went_inj : {x y : GoBuilder} → went x ≡ went y → x ≡ y
went_inj h = cc

pub and_then-went :
    (o : BuilderOutcome) (f : GoBuilder → BuilderOutcome) (b : GoBuilder)
    → and_then o f ≡ went b
    → (x : GoBuilder) × (o ≡ went x) × (f x ≡ went b)
and_then-went (went x) f b h = (x, refl, h)
and_then-went blocked f b h = cc
and_then-went panicked f b h = cc

pub run_builder_inv :
    (P : GoBuilder → Type 0)
    → ((l : BuilderLabel) (b b' : GoBuilder) → P b → builder_step l b ≡ went b' → P b')
    → (labels : List BuilderLabel) (b b' : GoBuilder) → P b
    → run_builder labels b ≡ went b'
    → P b'
unfolding run_builder
run_builder_inv P keep [] b b' h e = subst P (went_inj e) h
run_builder_inv P keep (l ∷ labels) b b' h e =
    let (x, q, r) = and_then-went (builder_step l b) (run_builder labels) b' e in
    run_builder_inv P keep labels x b' (keep l b x h q) r
