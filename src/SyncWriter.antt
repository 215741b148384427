-- ===== src/SyncWriter.antt =====
-- The SYNCWriter of canopen/sync.go: Start, Stop, and the loops that they start and end. The bus
-- takes each frame or not, and its error is dropped; each loop keeps the frames that it gave to
-- Send.
pub mod Counting
use canbus.Prelude.{
  ℕ, zero, suc, ◌+◌, ◌%◌, bit_and, Bool, true, false, Option, none, some, List, [], ◌∷◌, ◌++◌,
  if◌then◌else◌,
}
use canbus.Frame.{Frame, zero_frame}
use canbus.Frame.Payload.{zeros}
use canbus.Cob.{cob_id, fc_sync}

-- One call of `w.run()`: its counter, the frames that it sent, the oldest first, and whether it has
-- not returned yet.
pub record Loop : Type 0 where
  pub counter : ℕ
  pub sent : List Frame
  pub running : Bool

-- `SYNCWriter`. `stop` is nil, or a channel that is closed or not. The ticker's interval is not
-- modelled: a tick may come at any time.
pub record SyncWriter : Type 0 where
  pub with_counter : Bool
  pub stop : Option Bool
  pub loops : List Loop

-- `NewSYNCWriter(bus, interval, withCounter)`
abbrev pub new_sync_writer : Bool → SyncWriter
new_sync_writer with_counter = record { with_counter = with_counter; stop = some false; loops = [] }

abbrev pub new_loop : Loop
new_loop = record { counter = 0; sent = []; running = true }

-- `w.Start()`
unfoldable pub start_writer : SyncWriter → SyncWriter
start_writer w = record w {
  stop = elim w.stop [ none ↦ some false | some is_closed ↦ some is_closed ];
  loops = w.loops ++ (new_loop ∷ []);
}

-- `w.Stop()`: nothing for a nil or a closed channel.
unfoldable pub stop_writer : SyncWriter → SyncWriter
stop_writer w = elim w.stop [ none ↦ w | some is_closed ↦ record w { stop = some true } ]

-- The frame of a tick.
unfoldable pub tick_frame : Bool → ℕ → Frame
tick_frame with_counter counter =
    let f = record zero_frame { id = cob_id fc_sync 0 } in
    if with_counter
    then record f { len = 1; payload = record zeros { b0 = bit_and counter 0x7F } }
    else f

-- The case of the ticker in the select of `run`.
unfoldable pub tick_loop : Bool → Loop → Loop
unfolding tick_frame
tick_loop with_counter l =
    if l.running
    then record l {
      counter = if with_counter then bit_and (l.counter + 1) 0x7F else l.counter;
      sent = l.sent ++ (tick_frame with_counter l.counter ∷ []);
    }
    else l

-- The case of `w.stop`, which is ready once the channel is closed. Where both cases are ready the
-- language leaves open which is taken.
unfoldable pub quit_loop : Option Bool → Loop → Loop
quit_loop stop l = elim stop [ some true ↦ record l { running = false } | _ ↦ l ]

abbrev pub at_loop : ℕ → (Loop → Loop) → List Loop → List Loop
at_loop k g [] = []
at_loop zero g (l ∷ loops) = g l ∷ loops
at_loop (suc k) g (l ∷ loops) = l ∷ at_loop k g loops

pub data Event : Type 0 where
  starts stops : Event
  ticks quits : ℕ → Event

unfoldable pub step : SyncWriter → Event → SyncWriter
unfolding start_writer stop_writer tick_loop quit_loop
step w starts = start_writer w
step w stops = stop_writer w
step w (ticks k) = record w { loops = at_loop k (tick_loop w.with_counter) w.loops }
step w (quits k) = record w { loops = at_loop k (quit_loop w.stop) w.loops }

unfoldable pub run : SyncWriter → List Event → SyncWriter
unfolding step
run w [] = w
run w (e ∷ events) = run (step w e) events
