-- ===== src/Witnesses/Channels.antt =====
-- The theorems on the channels of events.
use taskrunner.Prelude.{
  ℕ, zero, suc, ◌≤◌, ◌≡◌, refl, Bool, true, false, List, [], ◌∷◌, length, arith,
}
use taskrunner.Events.{ExecutorEvent, executor_setup, task_started, task_completed}
use taskrunner.Subscriptions.{
  Publisher, Broadcast, BroadcastOutcome, went, no_subscribers, capacity, BroadcastLabel,
  subscribe_label, publish_label, send_label, receive_label, run_broadcast,
}
use taskrunner.Subscriptions.Counts.{tally, count_by, events_for}
use taskrunner.Subscriptions.Delivery.{run_broadcast-tally_lem}
use taskrunner.Subscriptions.Full.{IsHeld, run_broadcast-IsHeld}

abbrev reached : BroadcastOutcome → Broadcast
reached (went b) = b
reached _ = no_subscribers

-- Two publishers pass each other, and a subscriber comes late.
abbrev crossing : List BroadcastLabel
crossing =
    subscribe_label
    ∷ publish_label (task_started 3)
    ∷ subscribe_label
    ∷ publish_label (task_completed 4 5)
    ∷ send_label 1
    ∷ send_label 0
    ∷ receive_label 0
    ∷ []

abbrev crossed : Broadcast
crossed = reached (run_broadcast crossing no_subscribers)

crossing_lem : run_broadcast crossing no_subscribers ≡ went crossed
unfolding run_broadcast
crossing_lem = refl

abbrev is_start : ExecutorEvent → Bool
is_start (task_started t) = true
is_start _ = false

run_broadcast-tally_lem_example :
    (tally is_start 0 crossed ≡ count_by is_start (events_for 0 0 crossing))
    × (length (crossed.channel 0).waiting ≤ capacity)
unfolding run_broadcast
run_broadcast-tally_lem_example = run_broadcast-tally_lem is_start 0 crossing crossed crossing_lem

abbrev copies : ℕ → List ExecutorEvent
copies zero = []
copies (suc n) = executor_setup ∷ copies n

-- The first of two subscribers has let its channel fill.
abbrev held : Publisher
held = record { event = task_started 3; next = 0; until = 2 }

abbrev filled : Broadcast
filled = record {
  channels = 2;
  channel = λ c. elim c [
    | zero ↦ record { waiting = copies 1024; received = []; closed = false }
    | suc d ↦ record { waiting = []; received = []; closed = false }
  ];
  publishers = held ∷ record { event = task_started 4; next = 1; until = 2 } ∷ [];
}

filled-IsHeld : IsHeld 0 held filled
filled-IsHeld = record { here = refl; made = omega arith; full = omega arith }

-- The second subscriber is served.
abbrev others : List BroadcastLabel
others = send_label 1 ∷ receive_label 1 ∷ publish_label executor_setup ∷ []

abbrev served : Broadcast
served = reached (run_broadcast others filled)

others_lem : run_broadcast others filled ≡ went served
unfolding run_broadcast
others_lem = refl

run_broadcast-IsHeld_example : IsHeld 0 held served
unfolding run_broadcast
run_broadcast-IsHeld_example =
    run_broadcast-IsHeld 0 held others filled served (refl, (refl, (refl, tt))) filled-IsHeld
      others_lem
