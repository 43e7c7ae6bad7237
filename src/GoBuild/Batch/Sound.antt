-- ===== src/GoBuild/Batch/Sound.antt =====
-- Where a package is that a call of Build has sent, and that the send of a request keeps it there.
use taskrunner.Prelude.{
  ℕ, ◌≡◌, ◌⊎◌, refl, sym, ap, subst, ◌==◌, true, Option, none, some, List, [], ◌∷◌, ◌++◌, Text,
  text_eq, text_eq_iff, length, any, ltb, In, In-append_left, In-append_right, arith, inl, inr,
  Bool-cases,
}
use taskrunner.GoBuild.Batch.Runs.{went_inj}
use taskrunner.GoBuild.Batch.{
  Request, CallPhase, outside, sent, entered, waiting, returned, GoBuilder, went, set_phase,
  send_request, put_package,
}

-- The package that a call of Build has sent.
abbrev pub asked : CallPhase → Option Text
asked outside = none
asked (sent pkg) = some pkg
asked (entered pkg) = some pkg
asked (waiting pkg ch) = some pkg
asked (returned pkg err) = some pkg

abbrev pub queued : List Request → List Text
queued [] = []
queued (r ∷ requests) = r.pkg ∷ queued requests

-- A package that is in one of the commands.
abbrev pub Built : Text → List (List Text) → Type 0
Built pkg [] = ⊥
Built pkg (command ∷ commands) = In pkg command ⊎ Built pkg commands

abbrev pub Seen : Text → List Request → List Text → List (List Text) → Type 0
Seen pkg requests packages commands =
    In pkg (queued requests) ⊎ (In pkg packages ⊎ Built pkg commands)

pub record IsSound (b : GoBuilder) : Type 0 where
  pub kept :
      (c : ℕ) (pkg : Text)
      → asked (b.phase c) ≡ some pkg
      → Seen pkg b.requests b.packages b.commands
  pub under_way : b.building ≡ true → (pkg : Text) → In pkg b.packages → Built pkg b.commands

queued-append : (rs : List Request) (r : Request) → queued (rs ++ r ∷ []) ≡ queued rs ++ r.pkg ∷ []
queued-append [] r = refl
queued-append (q ∷ rs) r = ap (λ l. q.pkg ∷ l) (queued-append rs r)

In-any : (pkg : Text) (packages : List Text) → any (text_eq pkg) packages ≡ true → In pkg packages
In-any pkg [] h = absurd (ground arith)
In-any pkg (p ∷ packages) h = elim (Bool-cases (text_eq pkg p)) [
  | inl e ↦ inl ((text_eq_iff pkg p).0 e)
  | inr e ↦ inr (In-any pkg packages (ground arith))
]

pub put_package-self : (pkg : Text) (packages : List Text) → In pkg (put_package pkg packages)
unfolding put_package
put_package-self pkg packages = elim (Bool-cases (any (text_eq pkg) packages)) [
  | inl e ↦ rw e (In-any pkg packages e)
  | inr e ↦ rw e (inl refl)
]

pub put_package-old :
    (p pkg : Text) (packages : List Text) → In p packages → In p (put_package pkg packages)
unfolding put_package
put_package-old p pkg packages i = elim (Bool-cases (any (text_eq pkg) packages)) [
  | inl e ↦ rw e i
  | inr e ↦ rw e (inr i)
]

-- A call that goes on keeps its package.
pub asked-set_phase :
    (c d : ℕ) (p : CallPhase) (phase : ℕ → CallPhase)
    → asked p ≡ asked (phase c)
    → asked (set_phase c p phase d) ≡ asked (phase d)
asked-set_phase c d p phase h = elim (Bool-cases (d == c)) [
  | inl e ↦ let same : d ≡ c = ground arith in rw (e, same) h
  | inr e ↦ rw e refl
]

abbrev sent_state : ℕ → Text → ℕ → GoBuilder → GoBuilder
sent_state c pkg l b = record b {
  requests = b.requests ++ record { pkg = pkg; logger = l } ∷ [];
  phase = set_phase c (sent pkg) b.phase;
}

Seen-queued :
    (q pkg : Text) (l : ℕ) (b : GoBuilder)
    → In q (queued b.requests ++ pkg ∷ [])
    → Seen q (b.requests ++ record { pkg = pkg; logger = l } ∷ []) b.packages b.commands
Seen-queued q pkg l b i =
    inl (subst (In q) (sym (queued-append b.requests (record { pkg = pkg; logger = l }))) i)

sent_state-IsSound :
    (c : ℕ) (pkg : Text) (l : ℕ) (b : GoBuilder) → IsSound b → IsSound (sent_state c pkg l b)
sent_state-IsSound c pkg l b s = record { kept = still; under_way = s.under_way }
  where
    still :
        (d : ℕ) (q : Text)
        → asked (set_phase c (sent pkg) b.phase d) ≡ some q
        → Seen q (b.requests ++ record { pkg = pkg; logger = l } ∷ []) b.packages b.commands
    still d q a = elim (Bool-cases (d == c)) [
      | inl k ↦
          let this : q ≡ pkg = ground arith in
          Seen-queued q pkg l b (In-append_right q (queued b.requests) (pkg ∷ []) (inl this))
      | inr k ↦ elim (s.kept d q (ground arith)) [
        | inl i ↦ Seen-queued q pkg l b (In-append_left q (queued b.requests) (pkg ∷ []) i)
        | inr i ↦ inr i
      ]
    ]

pub send_request-IsSound :
    (c : ℕ) (pkg : Text) (l : ℕ) (p : CallPhase) (b b' : GoBuilder)
    → IsSound b
    → send_request c pkg l p b ≡ went b'
    → IsSound b'
unfolding send_request
send_request-IsSound c pkg l outside b b' s h = elim (Bool-cases (ltb (length b.requests) 128)) [
  | inl e ↦ subst IsSound (went_inj (ground arith)) (sent_state-IsSound c pkg l b s)
  | inr e ↦ absurd (ground arith)
]
send_request-IsSound c pkg l (sent q) b b' s h = cc
send_request-IsSound c pkg l (entered q) b b' s h = cc
send_request-IsSound c pkg l (waiting q ch) b b' s h = cc
send_request-IsSound c pkg l (returned q err) b b' s h = cc
