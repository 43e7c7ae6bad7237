-- ===== src/Config/Merge.antt =====
-- What a chain of configuration files comes to.
use taskrunner.Prelude.{
  ◌≡◌, sym, subst, ◌↔◌, ◌⊎◌, inl, inr, true, List, [], ◌∷◌, Text, text_eq, text_eq_iff, any, In,
  In-append, In-append_left, In-append_right, arith, Bool-cases,
}
use taskrunner.Config.{add_key, add_keys}

In_of_any : (t : Text) (ks : List Text) → any (λ k. text_eq k t) ks ≡ true → In t ks
In_of_any t [] h = absurd (ground arith)
In_of_any t (k ∷ ks) h = elim (Bool-cases (text_eq k t)) [
  | inl e ↦ inl (sym ((text_eq_iff k t).0 e))
  | inr e ↦ inr (In_of_any t ks (ground arith))
]

add_key_lem : (t x : Text) (ks : List Text) → In x (add_key t ks) ↔ ((x ≡ t) ⊎ In x ks)
unfolding add_key
add_key_lem t x ks = elim (Bool-cases (any (λ k. text_eq k t) ks)) [
  | inl e ↦ rw e (
    λ i. inr i,
    λ c. elim c [ inl q ↦ subst (λ y. In y ks) (sym q) (In_of_any t ks e) | inr i ↦ i ],
  )
  | inr e ↦ rw e (
    λ i. elim (In-append x ks (t ∷ []) i) [
      | inl j ↦ inr j
      | inr (inl q) ↦ inl q
      | inr (inr n) ↦ absurd n
    ],
    λ c. elim c [
      | inl q ↦ In-append_right x ks (t ∷ []) (inl q)
      | inr i ↦ In-append_left x ks (t ∷ []) i
    ],
  )
]

pub add_keys_lem :
    (ts : List Text) (x : Text) (ks : List Text) → In x (add_keys ts ks) ↔ (In x ts ⊎ In x ks)
unfolding add_keys
add_keys_lem [] x ks = (λ i. inr i, λ c. elim c [ inl n ↦ absurd n | inr i ↦ i ])
add_keys_lem (t ∷ ts) x ks =
    let (to, back) = add_keys_lem ts x (add_key t ks) in
    let (to', back') = add_key_lem t x ks in
    (
      λ i. elim (to i) [
        | inl j ↦ inl (inr j)
        | inr j ↦ elim (to' j) [ inl q ↦ inl (inl q) | inr k ↦ inr k ]
      ],
      λ c. elim c [
        | inl (inl q) ↦ back (inr (back' (inl q)))
        | inl (inr j) ↦ back (inl j)
        | inr k ↦ back (inr (back' (inr k)))
      ],
    )
