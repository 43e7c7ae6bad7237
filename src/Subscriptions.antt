-- ===== src/Subscriptions.antt =====
-- The channels of events in executor.go: Subscribe, publishEvent, and the closing at the end of Run.
-- Goroutines publish at the same time: each of them is a publisher, and sends, receives, new
-- subscriptions and the closing are steps that interleave. A channel is its place in eventsChs.
pub mod Counts
pub mod Transfers
pub mod Delivery
pub mod Full
use taskrunner.Prelude.{
  ℕ, zero, suc, ◌+◌, ◌==◌, if◌then◌else◌, Bool, true, false, ◌||◌, Option, none, some, List, [],
  ◌∷◌, ◌++◌, length, ltb,
}
use taskrunner.Events.{ExecutorEvent}

-- A channel with the events that it holds, and those that its subscriber has received.
pub record Channel : Type 0 where
  pub waiting : List ExecutorEvent
  pub received : List ExecutorEvent
  pub closed : Bool

-- A call of `publishEvent`: the loop is at channel `next` and ends before `until`, the length of
-- the slice when the loop began.
pub record Publisher : Type 0 where
  pub event : ExecutorEvent
  pub next : ℕ
  pub until : ℕ

-- The channels from number `channels` on are not made yet.
pub record Broadcast : Type 0 where
  pub channels : ℕ
  pub channel : ℕ → Channel
  pub publishers : List Publisher

abbrev pub fresh_channel : Channel
fresh_channel = record { waiting = []; received = []; closed = false }

abbrev pub no_subscribers : Broadcast
no_subscribers = record { channels = 0; channel = λ c. fresh_channel; publishers = [] }

pub data BroadcastOutcome : Type 0 where
  went : Broadcast → BroadcastOutcome
  blocked panicked : BroadcastOutcome

abbrev pub set_channel : ℕ → Channel → (ℕ → Channel) → ℕ → Channel
set_channel c ch channel d = if d == c then ch else channel d

-- `Subscribe`
unfoldable pub subscribe : Broadcast → Broadcast
subscribe b = record b {
  channels = b.channels + 1;
  channel = set_channel b.channels fresh_channel b.channel;
}

-- `publishEvent` up to its first send.
unfoldable pub begin_publish : ExecutorEvent → Broadcast → Broadcast
begin_publish event b = record b {
  publishers = b.publishers ++ record { event = event; next = 0; until = b.channels } ∷ [];
}

abbrev pub publisher_at : ℕ → List Publisher → Option Publisher
publisher_at i [] = none
publisher_at zero (p ∷ ps) = some p
publisher_at (suc i) (p ∷ ps) = publisher_at i ps

abbrev pub advance : ℕ → List Publisher → List Publisher
advance i [] = []
advance zero (p ∷ ps) = record p { next = p.next + 1 } ∷ ps
advance (suc i) (p ∷ ps) = p ∷ advance i ps

-- The capacity of a channel of events.
abbrev pub capacity : ℕ
capacity = 1024

-- The send of publisher `i` to its next channel. A send to a closed channel is a panic, and a full
-- channel blocks.
unfoldable pub send_next : ℕ → Option Publisher → Broadcast → BroadcastOutcome
send_next i none b = blocked
send_next i (some p) b =
    if ltb p.next p.until
    then (if (b.channel p.next).closed
        then panicked
        else (if ltb (length (b.channel p.next).waiting) capacity
            then went (record b {
              channel =
                  set_channel p.next
                    (record (b.channel p.next) {
                      waiting = (b.channel p.next).waiting ++ p.event ∷ [];
                    })
                    b.channel;
              publishers = advance i b.publishers;
            })
            else blocked))
    else blocked

-- The subscriber of channel `c` receives.
unfoldable pub receive_event : ℕ → List ExecutorEvent → Broadcast → BroadcastOutcome
receive_event c [] b = blocked
receive_event c (event ∷ events) b = went (record b {
  channel =
      set_channel c
        (record (b.channel c) { waiting = events; received = (b.channel c).received ++ event ∷ [] })
        b.channel;
})

-- Whether one of the first channels is closed.
abbrev pub any_closed : ℕ → (ℕ → Channel) → Bool
any_closed zero channel = false
any_closed (suc n) channel = (channel n).closed || any_closed n channel

-- The end of `Run` closes the channels that there are. To close one twice is a panic.
unfoldable pub close_channels : Broadcast → BroadcastOutcome
close_channels b =
    if any_closed b.channels b.channel
    then panicked
    else went (record b {
      channel =
          λ c. if ltb c b.channels then record (b.channel c) { closed = true } else b.channel c;
    })

pub data BroadcastLabel : Type 0 where
  subscribe_label close_label : BroadcastLabel
  publish_label : ExecutorEvent → BroadcastLabel
  send_label : (publisher : ℕ) → BroadcastLabel
  receive_label : (channel : ℕ) → BroadcastLabel

unfoldable pub broadcast_step : BroadcastLabel → Broadcast → BroadcastOutcome
unfolding subscribe begin_publish send_next receive_event close_channels
broadcast_step subscribe_label b = went (subscribe b)
broadcast_step close_label b = close_channels b
broadcast_step (publish_label event) b = went (begin_publish event b)
broadcast_step (send_label i) b = send_next i (publisher_at i b.publishers) b
broadcast_step (receive_label c) b = receive_event c (b.channel c).waiting b

abbrev pub and_then : BroadcastOutcome → (Broadcast → BroadcastOutcome) → BroadcastOutcome
and_then (went b) f = f b
and_then blocked f = blocked
and_then panicked f = panicked

-- A run takes the steps of its labels. It is `blocked` where one of them cannot be taken.
unfoldable pub run_broadcast : List BroadcastLabel → Broadcast → BroadcastOutcome
unfolding broadcast_step
run_broadcast [] b = went b
run_broadcast (l ∷ labels) b = and_then (broadcast_step l b) (run_broadcast labels)
