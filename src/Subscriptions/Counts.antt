-- ===== src/Subscriptions/Counts.antt =====
-- The events that are held, received and on their way, counted by any test, and what every step of
-- a broadcast keeps.
use taskrunner.Prelude.{
  ℕ, zero, suc, ◌+◌, ◌≤◌, ◌≡◌, refl, ap, ◌==◌, if◌then◌else◌, Bool, true, ◌&&◌, some, List, [], ◌∷◌,
  ◌++◌, length, ltb, leb, All, arith, inl, inr, Bool-cases,
}
use taskrunner.Events.{ExecutorEvent}
use taskrunner.Subscriptions.{
  fresh_channel, Publisher, Broadcast, went, publisher_at, advance, capacity, BroadcastLabel,
  subscribe_label, close_label, publish_label, send_label, receive_label,
}

abbrev pub count_by : (ExecutorEvent → Bool) → List ExecutorEvent → ℕ
count_by p [] = 0
count_by p (e ∷ es) = (if p e then 1 else 0) + count_by p es

pub count_by-append :
    (p : ExecutorEvent → Bool) (xs ys : List ExecutorEvent)
    → count_by p (xs ++ ys) ≡ count_by p xs + count_by p ys
count_by-append p [] ys = omega arith
count_by-append p (x ∷ xs) ys = omega (arith, count_by-append p xs ys)

-- The events that are on their way to channel `c`.
abbrev pub outstanding : ℕ → List Publisher → List ExecutorEvent
outstanding c [] = []
outstanding c (q ∷ qs) =
    let rest = outstanding c qs in if leb q.next c && ltb c q.until then q.event ∷ rest else rest

-- The events that are published once channel `c` is made, where `n` channels are.
abbrev pub due : BroadcastLabel → ℕ → ℕ → List ExecutorEvent
due subscribe_label c n = []
due close_label c n = []
due (publish_label event) c n = if ltb c n then event ∷ [] else []
due (send_label i) c n = []
due (receive_label d) c n = []

abbrev pub after : BroadcastLabel → ℕ → ℕ
after subscribe_label n = n + 1
after _ n = n

abbrev pub events_for : ℕ → ℕ → List BroadcastLabel → List ExecutorEvent
events_for c n [] = []
events_for c n (l ∷ labels) = due l c n ++ events_for c (after l n) labels

pub record IsSound (b : Broadcast) : Type 0 where
  pub unused : (c : ℕ) → b.channels ≤ c → b.channel c ≡ fresh_channel
  pub within : All (λ q. q.until ≤ b.channels) b.publishers
  pub bounded : (c : ℕ) → length (b.channel c).waiting ≤ capacity

pub outstanding-append :
    (c : ℕ) (xs ys : List Publisher)
    → outstanding c (xs ++ ys) ≡ outstanding c xs ++ outstanding c ys
outstanding-append c [] ys = refl
outstanding-append c (x ∷ xs) ys = elim (Bool-cases (leb x.next c && ltb c x.until)) [
  | inl e ↦ rw e (ap (λ l. x.event ∷ l) (outstanding-append c xs ys))
  | inr e ↦ rw e (outstanding-append c xs ys)
]

pub within-advance :
    (n i : ℕ) (qs : List Publisher)
    → All (λ q. q.until ≤ n) qs
    → All (λ q. q.until ≤ n) (advance i qs)
within-advance n i [] a = a
within-advance n zero (q ∷ qs) a = a
within-advance n (suc i) (q ∷ qs) a = (a.0, within-advance n i qs a.1)

-- A publisher that goes on has one event less for the channel that it leaves.
pub outstanding-advance :
    (p : ExecutorEvent → Bool) (c i : ℕ) (q : Publisher) (qs : List Publisher)
    → publisher_at i qs ≡ some q
    → ltb q.next q.until ≡ true
    → count_by p (outstanding c qs)
      ≡ count_by p (outstanding c (advance i qs)) + (if c == q.next && p q.event then 1 else 0)
outstanding-advance p c i q [] h k = absurd (ground arith)
outstanding-advance p c zero q (r ∷ qs) h k = let same : r ≡ q = cc in rw same (ground arith)
outstanding-advance p c (suc i) q (r ∷ qs) h k =
    let hyp = outstanding-advance p c i q qs h k in ground arith

abbrev pub tally : (ExecutorEvent → Bool) → ℕ → Broadcast → ℕ
tally p c b =
    count_by p (b.channel c).received
    + count_by p (b.channel c).waiting
    + count_by p (outstanding c b.publishers)

pub went_inj : {x y : Broadcast} → went x ≡ went y → x ≡ y
went_inj h = cc

-- What a step keeps, and what it adds for channel `c`.
abbrev pub Kept : (ExecutorEvent → Bool) → ℕ → BroadcastLabel → Broadcast → Broadcast → Type 0
Kept p c l b b' =
    IsSound b'
    × (b'.channels ≡ after l b.channels)
    × (tally p c b' ≡ tally p c b + count_by p (due l c b.channels))
