-- ===== src/Message/Subscription.antt =====
-- SubscribeHeartbeats of canopen/heartbeat.go: the subscription at the mux, the goroutine that
-- parses its frames, and the channel of heartbeats, as steps that the goroutines of the program
-- make one after the other.
pub mod Order
pub mod Orderly
pub mod Ending
pub mod Stuck
use canbus.Prelude.{
  ℕ, ◌+◌, Bool, true, false, ◌&&◌, not, Option, none, some, List, [], ◌∷◌, ◌++◌, length, drop, ltb,
  if◌then◌else◌, Error, Result, ok, err,
}
use canbus.Frame.{Frame}
use canbus.Message.Heartbeat.{Heartbeat, parse_heartbeat, heartbeat_filter}
use canbus.Mux
use canbus.Mux.{Subscriber, fresh, shut, offer, take_frame}

-- The subscriber at the mux, the heartbeat that the goroutine stands with at `out <- ...`, the
-- channel `out` and whether it is closed, which is when the goroutine has returned, and what its
-- reader has got.
pub record Subscription : Type 0 where
  pub sub : Subscriber
  pub held : Option Heartbeat
  pub out : List Heartbeat
  pub out_buffer : ℕ
  pub is_done : Bool
  pub got : List Heartbeat

-- `SubscribeHeartbeats(mux, nodeFilter, buffer)`, for a buffer that is not negative: the mux and the
-- subscription.
unfoldable pub subscribe_heartbeats : Mux.Mux → Option ℕ → ℕ → Mux.Mux × Subscription
subscribe_heartbeats m node_filter buffer =
    let filter = some (heartbeat_filter node_filter) in
    let (m', id) = Mux.subscribe m filter buffer in
    (
      m',
      record {
        sub = fresh id filter buffer;
        held = none;
        out = [];
        out_buffer = buffer;
        is_done = false;
        got = [];
      },
    )

-- What the goroutine makes of a frame; after an error it goes on.
unfoldable pub parsed : Frame → Option Heartbeat
parsed f = elim (parse_heartbeat f) [
  | ok (node, state) ↦ some (record { node = node; state = state })
  | err e ↦ none
]

-- The goroutine waits for a frame.
abbrev pub is_idle : Subscription → Bool
is_idle s = not s.is_done && elim s.held [ none ↦ true | some h ↦ false ]

-- One step of the goroutine: it sends the heartbeat that it holds, where the channel has room, or
-- else it receives the next frame of its range loop, and closes `out` at the end of the frames.
unfoldable pub forward : Subscription → Subscription
unfolding parsed take_frame
forward s = if s.is_done then s else elim s.held [
  | some h ↦
      if ltb (length s.out) s.out_buffer
      then record s { held = none; out = s.out ++ (h ∷ []) }
      else s
  | none ↦ elim (take_frame s.sub) [
    | none ↦ s
    | some (ok (f, rest)) ↦ record s { sub = rest; held = parsed f }
    | some (err e) ↦ record s { is_done = true }
  ]
]

-- The caller, which is no code of the file, receives from `out`: the oldest heartbeat in the channel, or that of the goroutine
-- that stands at the empty channel. Where there is none it waits.
unfoldable pub read : Subscription → Subscription
read s = elim s.out [
  | h ∷ rest ↦ record s { out = rest; got = s.got ++ (h ∷ []) }
  | [] ↦ elim s.held [ some h ↦ record s { held = none; got = s.got ++ (h ∷ []) } | none ↦ s ]
]

-- The fan-out of a frame while the goroutine is at the channel or not yet, the end of the
-- subscription by its cancel function or by the mux, and the steps of the two goroutines.
pub data Event : Type 0 where
  offers : Bool → Frame → Event
  shuts advances reads : Event

unfoldable pub step : Subscription → Event → Subscription
unfolding forward read offer
step s (offers waiting f) = record s { sub = offer (waiting && is_idle s) f s.sub }
step s shuts = record s { sub = shut s.sub }
step s advances = forward s
step s reads = read s

unfoldable pub run : Subscription → List Event → Subscription
unfolding step
run s [] = s
run s (e ∷ events) = run (step s e) events
