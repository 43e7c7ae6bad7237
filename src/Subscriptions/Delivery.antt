-- ===== src/Subscriptions/Delivery.antt =====
-- What the subscribers of an executor get.
use taskrunner.Prelude.{
  ℕ, ◌+◌, ◌≤◌, ◌≡◌, refl, sym, ap, subst, ◌∙◌, ◌==◌, if◌then◌else◌, Bool, true, false, List, [],
  ◌∷◌, length, ltb, All-append, All-map, arith, inl, inr, Bool-cases,
}
use taskrunner.Events.{ExecutorEvent}
use taskrunner.Subscriptions.{
  Channel, fresh_channel, Publisher, Broadcast, BroadcastOutcome, went, blocked, panicked,
  set_channel, subscribe, begin_publish, publisher_at, capacity, any_closed, close_channels,
  BroadcastLabel, subscribe_label, close_label, publish_label, send_label, receive_label,
  broadcast_step, run_broadcast, no_subscribers, and_then,
}
use taskrunner.Subscriptions.Counts.{
  count_by, count_by-append, outstanding, due, after, events_for, IsSound, outstanding-append,
  tally, went_inj, Kept,
}
use taskrunner.Subscriptions.Transfers.{send_next-Kept, receive_event-Kept}

-- A new channel is what stood there before.
make-same :
    (b : Broadcast)
    → IsSound b
    → (d : ℕ) → set_channel b.channels fresh_channel b.channel d ≡ b.channel d
make-same b s d = elim (Bool-cases (d == b.channels)) [
  | inl e ↦ let at_end : b.channels ≤ d = ground arith in rw e (sym (s.unused d at_end))
  | inr e ↦ rw e refl
]

subscribe-Kept :
    (p : ExecutorEvent → Bool) (c : ℕ) (b : Broadcast)
    → IsSound b
    → Kept p c subscribe_label b (subscribe b)
unfolding subscribe
subscribe-Kept p c b s = (
  record {
    unused = λ d h. make-same b s d ∙ s.unused d (omega (arith, h));
    within = All-map (λ q. q.until ≤ b.channels) (λ q h. omega (arith, h)) b.publishers s.within;
    bounded = λ d. rw (make-same b s d) (s.bounded d);
  },
  refl,
  rw (make-same b s c) (omega arith),
)

begin_publish-Kept :
    (p : ExecutorEvent → Bool) (c : ℕ) (event : ExecutorEvent) (b : Broadcast)
    → IsSound b
    → Kept p c (publish_label event) b (begin_publish event b)
unfolding begin_publish
begin_publish-Kept p c event b s =
    let q : Publisher = record { event = event; next = 0; until = b.channels } in
    let apart = outstanding-append c b.publishers (q ∷ []) in
    let counted = count_by-append p (outstanding c b.publishers) (outstanding c (q ∷ [])) in
    (
      record {
        unused = s.unused;
        within =
            All-append (λ q. q.until ≤ b.channels) b.publishers (q ∷ []) s.within (omega arith, tt);
        bounded = s.bounded;
      },
      refl,
      ground (arith, apart, counted),
    )

abbrev pub shut : ℕ → ℕ → Channel → Channel
shut n c ch = if ltb c n then record ch { closed = true } else ch

pub shut-keeps :
    (n c : ℕ) (ch : Channel)
    → ((shut n c ch).waiting ≡ ch.waiting) × ((shut n c ch).received ≡ ch.received)
shut-keeps n c ch = elim (Bool-cases (ltb c n)) [
  | inl e ↦ rw e (refl, refl)
  | inr e ↦ rw e (refl, refl)
]

close_channels-Kept :
    (p : ExecutorEvent → Bool) (c : ℕ) (b b' : Broadcast)
    → IsSound b
    → close_channels b ≡ went b'
    → Kept p c close_label b b'
unfolding close_channels
close_channels-Kept p c b b' s h = elim (Bool-cases (any_closed b.channels b.channel)) [
  | inl k ↦ absurd (ground arith)
  | inr k ↦ subst (Kept p c close_label b) (went_inj (ground arith)) closed
]
  where
    closed : Kept p c close_label b (record b { channel = λ d. shut b.channels d (b.channel d) })
    closed = (
      record {
        unused =
            λ d h. let beyond : ltb d b.channels ≡ false = ground arith in rw beyond (s.unused d h);
        within = s.within;
        bounded = λ d. rw (shut-keeps b.channels d (b.channel d)).0 (s.bounded d);
      },
      refl,
      rw ((shut-keeps b.channels c (b.channel c)).0, (shut-keeps b.channels c (b.channel c)).1)
          (omega arith),
    )

broadcast_step-Kept :
    (p : ExecutorEvent → Bool) (c : ℕ) (l : BroadcastLabel) (b b' : Broadcast)
    → IsSound b
    → broadcast_step l b ≡ went b'
    → Kept p c l b b'
unfolding broadcast_step
broadcast_step-Kept p c subscribe_label b b' s h =
    subst (Kept p c subscribe_label b) (went_inj h) (subscribe-Kept p c b s)
broadcast_step-Kept p c close_label b b' s h = close_channels-Kept p c b b' s h
broadcast_step-Kept p c (publish_label event) b b' s h =
    subst (Kept p c (publish_label event) b) (went_inj h) (begin_publish-Kept p c event b s)
broadcast_step-Kept p c (send_label i) b b' s h =
    send_next-Kept p c i (publisher_at i b.publishers) b b' refl s h
broadcast_step-Kept p c (receive_label d) b b' s h =
    receive_event-Kept p c d (b.channel d).waiting b b' refl s h

pub and_then-went :
    (o : BroadcastOutcome) (f : Broadcast → BroadcastOutcome) (b : Broadcast)
    → and_then o f ≡ went b
    → (x : Broadcast) × (o ≡ went x) × (f x ≡ went b)
and_then-went (went x) f b h = (x, refl, h)
and_then-went blocked f b h = cc
and_then-went panicked f b h = cc

run_broadcast-tally :
    (p : ExecutorEvent → Bool) (c : ℕ) (labels : List BroadcastLabel) (b b' : Broadcast)
    → IsSound b
    → run_broadcast labels b ≡ went b'
    → IsSound b' × (tally p c b' ≡ tally p c b + count_by p (events_for c b.channels labels))
unfolding run_broadcast
run_broadcast-tally p c [] b b' s h =
    subst (λ x. IsSound x × (tally p c x ≡ tally p c b + 0)) (went_inj h) (s, omega arith)
run_broadcast-tally p c (l ∷ labels) b b' s h =
    let (x, q, r) = and_then-went (broadcast_step l b) (run_broadcast labels) b' h in
    let (s', n, t) = broadcast_step-Kept p c l b x s q in
    let (s'', t') = run_broadcast-tally p c labels x b' s' r in
    let split = count_by-append p (due l c b.channels) (events_for c (after l b.channels) labels) in
    let same = ap (λ m. count_by p (events_for c m labels)) n in
    (s'', omega (arith, t, t', split, same))

-- After any steps from the start without a panic, no event is lost or doubled for a subscriber: the
-- events that it has received, those in its channel and those that publishers have yet to send to it are
-- as many as were published since it subscribed, of every kind of events that a test can tell. A
-- channel never holds more than 1024 events.
pub run_broadcast-tally_lem :
    (p : ExecutorEvent → Bool) (c : ℕ) (labels : List BroadcastLabel) (b : Broadcast)
    → run_broadcast labels no_subscribers ≡ went b
    → (tally p c b ≡ count_by p (events_for c 0 labels)) × (length (b.channel c).waiting ≤ capacity)
run_broadcast-tally_lem p c labels b h =
    let start : IsSound no_subscribers = record {
      unused = λ d k. refl;
      within = tt;
      bounded = λ d. omega arith;
    } in
    let (s, t) = run_broadcast-tally p c labels no_subscribers b start h in
    (omega (arith, t), s.bounded c)
