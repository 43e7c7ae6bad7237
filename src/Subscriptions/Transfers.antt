-- ===== src/Subscriptions/Transfers.antt =====
-- The sends and receives of a broadcast lose and double no event.
use taskrunner.Prelude.{
  ℕ, zero, suc, ◌+◌, ◌≤◌, ◌≡◌, refl, sym, ap, subst, ◌∙◌, ◌==◌, Bool, true, false, Option, none,
  some, List, [], ◌∷◌, ◌++◌, length, length-append, ltb, All, arith, inl, inr, Bool-cases,
}
use taskrunner.Events.{ExecutorEvent}
use taskrunner.Subscriptions.{
  Channel, fresh_channel, Publisher, Broadcast, went, set_channel, publisher_at, advance, capacity,
  send_next, receive_event, send_label, receive_label,
}
use taskrunner.Subscriptions.Counts.{
  count_by, count_by-append, IsSound, within-advance, outstanding-advance, tally, went_inj, Kept,
}

within-publisher_at :
    (n i : ℕ) (q : Publisher) (qs : List Publisher)
    → All (λ r. r.until ≤ n) qs
    → publisher_at i qs ≡ some q
    → q.until ≤ n
within-publisher_at n i q [] a h = absurd (ground arith)
within-publisher_at n zero q (r ∷ qs) a h = let same : r ≡ q = cc in rw (sym same) a.0
within-publisher_at n (suc i) q (r ∷ qs) a h = within-publisher_at n i q qs a.1 h

abbrev pub pushed : Publisher → Channel → Channel
pushed q ch = record ch { waiting = ch.waiting ++ q.event ∷ [] }

abbrev pub sent_state : ℕ → Publisher → Broadcast → Broadcast
sent_state i q b = record b {
  channel = set_channel q.next (pushed q (b.channel q.next)) b.channel;
  publishers = advance i b.publishers;
}

sent_state-Kept :
    (p : ExecutorEvent → Bool) (c i : ℕ) (q : Publisher) (b : Broadcast)
    → publisher_at i b.publishers ≡ some q
    → ltb q.next q.until ≡ true
    → ltb (length (b.channel q.next).waiting) capacity ≡ true
    → IsSound b
    → Kept p c (send_label i) b (sent_state i q b)
sent_state-Kept p c i q b e k room s = (
  record {
    unused = unused;
    within = within-advance b.channels i b.publishers s.within;
    bounded = bounded;
  },
  refl,
  counted,
)
  where
    unused :
        (d : ℕ)
        → b.channels ≤ d
        → set_channel q.next (pushed q (b.channel q.next)) b.channel d ≡ fresh_channel
    unused d h =
        let u = within-publisher_at b.channels i q b.publishers s.within e in
        let other : (d == q.next) ≡ false = ground arith in rw other (s.unused d h)

    bounded :
        (d : ℕ)
        → length (set_channel q.next (pushed q (b.channel q.next)) b.channel d).waiting ≤ capacity
    bounded d = elim (Bool-cases (d == q.next)) [
      | inl f ↦
          let grown = length-append (b.channel q.next).waiting (q.event ∷ []) in rw f (ground arith)
      | inr f ↦ rw f (s.bounded d)
    ]

    counted : tally p c (sent_state i q b) ≡ tally p c b + 0
    counted =
        let fewer = outstanding-advance p c i q b.publishers e k in
        let more = count_by-append p (b.channel q.next).waiting (q.event ∷ []) in
        elim (Bool-cases (c == q.next)) [
          | inl f ↦
              let same : c ≡ q.next = ground arith in
              let held = ap (λ x. count_by p (b.channel x).waiting) same in
              let got = ap (λ x. count_by p (b.channel x).received) same in rw f (ground arith)
          | inr f ↦ rw f (ground arith)
        ]

pub send_next-Kept :
    (p : ExecutorEvent → Bool) (c i : ℕ) (o : Option Publisher) (b b' : Broadcast)
    → publisher_at i b.publishers ≡ o
    → IsSound b
    → send_next i o b ≡ went b'
    → Kept p c (send_label i) b b'
unfolding send_next
send_next-Kept p c i none b b' e s h = absurd (ground arith)
send_next-Kept p c i (some q) b b' e s h = elim (Bool-cases (ltb q.next q.until)) [
  | inr k ↦ absurd (ground arith)
  | inl k ↦ elim (Bool-cases (b.channel q.next).closed) [
    | inl f ↦ absurd (ground arith)
    | inr f ↦ elim (Bool-cases (ltb (length (b.channel q.next).waiting) capacity)) [
      | inr r ↦ absurd (ground arith)
      | inl r ↦
          subst (Kept p c (send_label i) b) (went_inj (ground arith))
            (sent_state-Kept p c i q b e k r s)
    ]
  ]
]

abbrev pub taken : ExecutorEvent → List ExecutorEvent → Channel → Channel
taken e es ch = record ch { waiting = es; received = ch.received ++ e ∷ [] }

pub receive_event-Kept :
    (p : ExecutorEvent → Bool) (c d : ℕ) (es : List ExecutorEvent) (b b' : Broadcast)
    → (b.channel d).waiting ≡ es
    → IsSound b
    → receive_event d es b ≡ went b'
    → Kept p c (receive_label d) b b'
unfolding receive_event
receive_event-Kept p c d [] b b' w s h = absurd (ground arith)
receive_event-Kept p c d (e ∷ es) b b' w s h =
    subst (Kept p c (receive_label d) b) (went_inj h)
      (record { unused = unused; within = s.within; bounded = bounded }, refl, counted)
  where
    unused :
        (u : ℕ)
        → b.channels ≤ u
        → set_channel d (taken e es (b.channel d)) b.channel u ≡ fresh_channel
    unused u k =
        let empty = s.unused u k in
        elim (Bool-cases (u == d)) [
          | inl f ↦
              let same : u ≡ d = ground arith in
              let at : b.channel d ≡ fresh_channel =
                subst (λ x. b.channel x ≡ fresh_channel) same empty in
              let none_there : e ∷ es ≡ [] = sym w ∙ ap (λ ch. ch.waiting) at in
              absurd (ground arith)
          | inr f ↦ rw f empty
        ]

    bounded :
        (u : ℕ) → length (set_channel d (taken e es (b.channel d)) b.channel u).waiting ≤ capacity
    bounded u =
        let before = s.bounded u in
        elim (Bool-cases (u == d)) [
          | inl f ↦
              let same : u ≡ d = ground arith in
              let held = ap (λ x. length (b.channel x).waiting) same in
              let shorter = ap length w in rw f (ground arith)
          | inr f ↦ rw f before
        ]

    counted :
        tally p c (record b { channel = set_channel d (taken e es (b.channel d)) b.channel })
        ≡ tally p c b + 0
    counted =
        let more = count_by-append p (b.channel d).received (e ∷ []) in
        elim (Bool-cases (c == d)) [
          | inl f ↦
              let same : c ≡ d = ground arith in
              let held = ap (λ x. count_by p (b.channel x).waiting) same ∙ ap (count_by p) w in
              let got = ap (λ x. count_by p (b.channel x).received) same in rw f (ground arith)
          | inr f ↦ rw f (ground arith)
        ]
