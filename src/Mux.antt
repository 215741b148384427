-- ===== src/Mux.antt =====
-- mux.go: the subscriptions, the fan-out of the background reader, and its end. Each operation is
-- the part that holds the lock; the program's goroutines are sequences of operations.
pub mod Delivery
pub mod Subscriptions
pub mod Ends
pub mod Isolated
use canbus.Prelude.{
  ℕ, ◌+◌, ◌%◌, ◌^◌, ◌<◌, Bool, true, false, ◌&&◌, ◌||◌, Option, none, some, List, [], ◌∷◌, ◌++◌,
  length, ltb, ◌==◌, if◌then◌else◌, Error, Result, ok, err, closed,
}
use mathlib.Core.List.{map}
use canbus.Frame.{Frame}
use canbus.Filter.{FrameFilter, passes}

-- A subscriber and its channel. A channel is closed exactly when its subscriber is deleted from the
-- map, in the same critical section, so `live` says both; a closed channel keeps its frames.
pub record Subscriber : Type 0 where
  pub id : ℕ
  pub filter : FrameFilter
  pub buffer : ℕ
  pub queue : List Frame
  pub live : Bool

-- Where the reader's goroutine stands: before its look at `stop`, in `m.bus.Receive()`, or
-- returned.
pub data Phase : Type 0 where
  checking receiving ended : Phase

-- `Mux`. The map is the list of all subscribers that there were, the newest first.
pub record Mux : Type 0 where
  pub stopped : Bool
  pub phase : Phase
  pub next : ℕ
  pub subs : List Subscriber

-- `NewMux(bus)`, before the reader has run.
abbrev pub new_mux : Mux
new_mux = record { stopped = false; phase = checking; next = 0; subs = [] }

abbrev pub fresh : ℕ → FrameFilter → ℕ → Subscriber
fresh id filter buffer = record {
  id = id;
  filter = filter;
  buffer = buffer;
  queue = [];
  live = true;
}

-- `m.Subscribe(filter, buffer)`, for a buffer that is not negative: the identifier stands for the
-- channel and for the cancel function. `next` is a uint64.
unfoldable pub subscribe : Mux → FrameFilter → ℕ → Mux × ℕ
subscribe m filter buffer =
    (record m { next = (m.next + 1) % 2 ^ 64; subs = fresh m.next filter buffer ∷ m.subs }, m.next)

-- `close(s.ch); delete(m.subs, id)`
abbrev pub shut : Subscriber → Subscriber
shut s = record s { live = false }

-- The cancel function of a subscription.
unfoldable pub cancel : ℕ → Mux → Mux
cancel id m = record m { subs = map (λ s. if s.id == id then shut s else s) m.subs }

-- The loops that end all subscriptions, in Close and after an error of Receive.
unfoldable pub shut_all : Mux → Mux
shut_all m = record m { subs = map shut m.subs }

-- `m.Close()`
unfoldable pub close_mux : Mux → Mux
unfolding shut_all
close_mux m = if m.stopped then m else shut_all (record m { stopped = true })

-- Whether `s.ch <- f` can proceed at once: there is room, or a receiver waits at the empty channel.
abbrev pub has_room : Bool → Subscriber → Bool
has_room waiting s = ltb (length s.queue) s.buffer || (waiting && length s.queue == 0)

-- One round of `for _, s := range m.subs`; `waiting` says whether a receiver waits on the channel.
unfoldable pub offer : Bool → Frame → Subscriber → Subscriber
offer waiting f s =
    if s.live && (passes s.filter f && has_room waiting s)
    then record s { queue = s.queue ++ (f ∷ []) }
    else s

-- The fan-out of one frame; the receivers that wait are given by their subscriptions.
unfoldable pub fan_out : (ℕ → Bool) → Frame → Mux → Mux
unfolding offer
fan_out waiting f m = record m { subs = map (λ s. offer (waiting s.id) f s) m.subs }

-- The select on `m.stop` at the head of the loop of `m.run()`.
unfoldable pub check_stop : Mux → Mux
check_stop m = elim m.phase [
  | checking ↦ record m { phase = if m.stopped then ended else receiving }
  | _ ↦ m
]

-- The rest of the round, once Receive has returned.
unfoldable pub received : (ℕ → Bool) → Result Frame → Mux → Mux
unfolding fan_out shut_all
received waiting answer m = elim m.phase [
  | receiving ↦ elim answer [
    | ok f ↦ record (fan_out waiting f m) { phase = checking }
    | err e ↦ record (shut_all m) { phase = ended }
  ]
  | _ ↦ m
]

-- A receive from the channel of a subscription: the frame and the rest, or the end of a closed
-- channel; `none` is a receive that waits.
unfoldable pub take_frame : Subscriber → Option (Result (Frame × Subscriber))
take_frame s = elim s.queue [
  | f ∷ rest ↦ some (ok (f, record s { queue = rest }))
  | [] ↦ if s.live then none else some (err closed)
]

-- What the goroutines of the program do to a mux, one critical section after the other.
pub data Event : Type 0 where
  subscribes : FrameFilter → ℕ → Event
  cancels : ℕ → Event
  closes : Event
  checks : Event
  receives : (ℕ → Bool) → Result Frame → Event

unfoldable pub step : Mux → Event → Mux
unfolding subscribe cancel close_mux check_stop received
step m (subscribes filter buffer) = (subscribe m filter buffer).0
step m (cancels id) = cancel id m
step m closes = close_mux m
step m checks = check_stop m
step m (receives waiting answer) = received waiting answer m

unfoldable pub run : Mux → List Event → Mux
unfolding step
run m [] = m
run m (e ∷ events) = run (step m e) events
