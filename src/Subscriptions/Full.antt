-- ===== src/Subscriptions/Full.antt =====
-- A subscriber of an executor that stops to receive.
use taskrunner.Prelude.{
  ℕ, zero, suc, ◌≤◌, ◌<◌, not, ◌≡◌, refl, sym, ap, subst, ◌∙◌, ◌==◌, Bool, true, false, Option,
  none, some, List, [], ◌∷◌, ◌++◌, length, ltb, All, arith, inl, inr, Bool-cases,
}
use taskrunner.Events.{ExecutorEvent}
use taskrunner.Subscriptions.{
  Publisher, Broadcast, went, subscribe, begin_publish, publisher_at, advance, capacity, send_next,
  receive_event, any_closed, close_channels, BroadcastLabel, subscribe_label, close_label,
  publish_label, send_label, receive_label, broadcast_step, run_broadcast,
}
use taskrunner.Subscriptions.Counts.{went_inj}
use taskrunner.Subscriptions.Transfers.{sent_state}
use taskrunner.Subscriptions.Delivery.{and_then-went, shut, shut-keeps}

-- The subscriber of channel `c` receives nothing.
abbrev pub is_quiet : ℕ → BroadcastLabel → Bool
is_quiet c (receive_label d) = not (d == c)
is_quiet c _ = true

-- Publisher `i` is at a channel that is made and full.
pub record IsHeld (i : ℕ) (q : Publisher) (b : Broadcast) : Type 0 where
  pub here : publisher_at i b.publishers ≡ some q
  pub made : q.next < b.channels
  pub full : capacity ≤ length (b.channel q.next).waiting

publisher_at-append :
    (i : ℕ) (q : Publisher) (xs ys : List Publisher)
    → publisher_at i xs ≡ some q
    → publisher_at i (xs ++ ys) ≡ some q
publisher_at-append i q [] ys h = absurd (ground arith)
publisher_at-append zero q (x ∷ xs) ys h = h
publisher_at-append (suc i) q (x ∷ xs) ys h = publisher_at-append i q xs ys h

publisher_at-advance :
    (i j : ℕ) (q : Publisher) (xs : List Publisher)
    → (i == j) ≡ false
    → publisher_at i xs ≡ some q
    → publisher_at i (advance j xs) ≡ some q
publisher_at-advance i j q [] n h = h
publisher_at-advance zero zero q (x ∷ xs) n h = absurd (ground arith)
publisher_at-advance zero (suc j) q (x ∷ xs) n h = h
publisher_at-advance (suc i) zero q (x ∷ xs) n h = h
publisher_at-advance (suc i) (suc j) q (x ∷ xs) n h = publisher_at-advance i j q xs (ground arith) h

-- A publisher at a full channel does not send: another does, to another channel.
sent_state-IsHeld :
    (i j : ℕ) (q r : Publisher) (b : Broadcast)
    → publisher_at j b.publishers ≡ some r
    → ltb (length (b.channel r.next).waiting) capacity ≡ true
    → IsHeld i q b
    → IsHeld i q (sent_state j r b)
sent_state-IsHeld i j q r b e room s = record {
  here = still;
  made = s.made;
  full = rw elsewhere s.full;
}
  where
    elsewhere : (q.next == r.next) ≡ false
    elsewhere =
        let f = s.full in
        elim (Bool-cases (q.next == r.next)) [
          | inl k ↦
              let same : q.next ≡ r.next = ground arith in
              let held = ap (λ c. length (b.channel c).waiting) same in absurd (ground arith)
          | inr k ↦ k
        ]

    still : publisher_at i (advance j b.publishers) ≡ some q
    still = elim (Bool-cases (i == j)) [
      | inl k ↦
          let same : i ≡ j = ground arith in
          let h = s.here in
          let both : some q ≡ some r = sym h ∙ ap (λ m. publisher_at m b.publishers) same ∙ e in
          let one : q ≡ r = cc in let clash = ap (λ x. x.next) one in absurd (ground arith)
      | inr k ↦ publisher_at-advance i j q b.publishers k s.here
    ]

send_next-IsHeld :
    (i j : ℕ) (q : Publisher) (o : Option Publisher) (b b' : Broadcast)
    → publisher_at j b.publishers ≡ o
    → IsHeld i q b
    → send_next j o b ≡ went b'
    → IsHeld i q b'
unfolding send_next
send_next-IsHeld i j q none b b' e s h = absurd (ground arith)
send_next-IsHeld i j q (some r) b b' e s h = elim (Bool-cases (ltb r.next r.until)) [
  | inr k ↦ absurd (ground arith)
  | inl k ↦ elim (Bool-cases (b.channel r.next).closed) [
    | inl f ↦ absurd (ground arith)
    | inr f ↦ elim (Bool-cases (ltb (length (b.channel r.next).waiting) capacity)) [
      | inr m ↦ absurd (ground arith)
      | inl m ↦ subst (IsHeld i q) (went_inj (ground arith)) (sent_state-IsHeld i j q r b e m s)
    ]
  ]
]

receive_event-IsHeld :
    (i : ℕ) (q : Publisher) (d : ℕ) (es : List ExecutorEvent) (b b' : Broadcast)
    → (q.next == d) ≡ false
    → IsHeld i q b
    → receive_event d es b ≡ went b'
    → IsHeld i q b'
unfolding receive_event
receive_event-IsHeld i q d [] b b' k s h = absurd (ground arith)
receive_event-IsHeld i q d (e ∷ es) b b' k s h =
    subst (IsHeld i q) (went_inj h) (record { here = s.here; made = s.made; full = rw k s.full })

close_channels-IsHeld :
    (i : ℕ) (q : Publisher) (b b' : Broadcast)
    → IsHeld i q b
    → close_channels b ≡ went b'
    → IsHeld i q b'
unfolding close_channels
close_channels-IsHeld i q b b' s h = elim (Bool-cases (any_closed b.channels b.channel)) [
  | inl k ↦ absurd (ground arith)
  | inr k ↦ subst (IsHeld i q) (went_inj (ground arith)) closed
]
  where
    closed : IsHeld i q (record b { channel = λ d. shut b.channels d (b.channel d) })
    closed = record {
      here = s.here;
      made = s.made;
      full = rw (shut-keeps b.channels q.next (b.channel q.next)).0 s.full;
    }

broadcast_step-IsHeld :
    (i : ℕ) (q : Publisher) (l : BroadcastLabel) (b b' : Broadcast)
    → is_quiet q.next l ≡ true
    → IsHeld i q b
    → broadcast_step l b ≡ went b'
    → IsHeld i q b'
unfolding broadcast_step subscribe begin_publish
broadcast_step-IsHeld i q subscribe_label b b' k s h =
    let m = s.made in
    let other : (q.next == b.channels) ≡ false = ground arith in
    subst (IsHeld i q) (went_inj h)
      (record { here = s.here; made = omega (arith, m); full = rw other s.full })
broadcast_step-IsHeld i q close_label b b' k s h = close_channels-IsHeld i q b b' s h
broadcast_step-IsHeld i q (publish_label event) b b' k s h =
    let p : Publisher = record { event = event; next = 0; until = b.channels } in
    subst (IsHeld i q) (went_inj h) (record {
      here = publisher_at-append i q b.publishers (p ∷ []) s.here;
      made = s.made;
      full = s.full;
    })
broadcast_step-IsHeld i q (send_label j) b b' k s h =
    send_next-IsHeld i j q (publisher_at j b.publishers) b b' refl s h
broadcast_step-IsHeld i q (receive_label d) b b' k s h =
    let other : (q.next == d) ≡ false = ground arith in
    receive_event-IsHeld i q d (b.channel d).waiting b b' other s h

-- A publisher that is at a full channel does not go on in any steps in which the subscriber of that
-- channel receives nothing, whatever the other goroutines and subscribers do.
pub run_broadcast-IsHeld :
    (i : ℕ) (q : Publisher) (labels : List BroadcastLabel) (b b' : Broadcast)
    → All (λ l. is_quiet q.next l ≡ true) labels
    → IsHeld i q b
    → run_broadcast labels b ≡ went b'
    → IsHeld i q b'
unfolding run_broadcast
run_broadcast-IsHeld i q [] b b' k s h = subst (IsHeld i q) (went_inj h) s
run_broadcast-IsHeld i q (l ∷ labels) b b' k s h =
    let (x, step, rest) = and_then-went (broadcast_step l b) (run_broadcast labels) b' h in
    run_broadcast-IsHeld i q labels x b' k.1 (broadcast_step-IsHeld i q l b x k.0 s step) rest
