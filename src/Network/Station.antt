-- ===== src/Network/Station.antt =====
-- A mux on an endpoint of a loopback bus: what its reader takes from the channel of the endpoint it
-- fans out to the subscriptions, while Sends of other endpoints go on.
pub mod Deliveries
pub mod EndToEnd
use canbus.Prelude.{
  ℕ, ◌≡◌, ◌==◌, Bool, true, false, not, Option, none, some, List, [], ◌∷◌, ◌++◌, Result, ok, err,
}
use mathlib.Core.Option
use canbus.Frame.{Frame}
use canbus.Loopback
use canbus.Loopback.{System}
use canbus.Loopback.Queues.{delivered_by, frame_for, got}
use canbus.Mux
use canbus.Mux.{Phase, checking, receiving, ended}

pub record Station : Type 0 where
  pub system : System
  pub mux : Mux.Mux

-- A step of the bus, a step of the mux, and the return of the reader's Receive, with the receivers
-- that wait on channels of subscriptions.
pub data Event : Type 0 where
  on_bus : Loopback.Event → Event
  on_mux : Mux.Event → Event
  reads : (ℕ → Bool) → Event

-- `f, err := m.bus.Receive()`, at the endpoint `i`, and the rest of the round.
abbrev pub after_read : (ℕ → Bool) → Station → Option (Result Frame × Loopback.Bus) → Station
after_read waiting s none = s
after_read waiting s (some (r, b)) = record {
  system = record s.system { bus = b };
  mux = Mux.received waiting r s.mux;
}

abbrev pub read_at : ℕ → (ℕ → Bool) → Station → Phase → Station
read_at i waiting s receiving = after_read waiting s (Loopback.receive i s.system.bus)
read_at i waiting s checking = s
read_at i waiting s ended = s

unfoldable pub step : ℕ → Station → Event → Option Station
step i s (on_bus e) = Option.map (λ t. record s { system = t }) (Loopback.step s.system e)
step i s (on_mux e) = some (record s { mux = Mux.step s.mux e })
step i s (reads waiting) = some (read_at i waiting s s.mux.phase)

unfoldable pub run : ℕ → Station → List Event → Option Station
unfolding step
run i s [] = some s
run i s (e ∷ events) = elim (step i s e) [ none ↦ none | some t ↦ run i t events ]

-- The frames that a step puts into the channel of the endpoint, and those that the reader gets.
abbrev pub puts : ℕ → Station → Event → List Frame
puts i s (on_bus e) = frame_for i (delivered_by s.system e)
puts i s (on_mux e) = []
puts i s (reads waiting) = []

abbrev pub got_at : ℕ → Station → Phase → List Frame
got_at i s receiving = got (Loopback.receive i s.system.bus)
got_at i s checking = []
got_at i s ended = []

abbrev pub gets : ℕ → Station → Event → List Frame
gets i s (on_bus e) = []
gets i s (on_mux e) = []
gets i s (reads waiting) = got_at i s s.mux.phase

-- The same of a run.
unfoldable pub all_puts : ℕ → Station → List Event → List Frame
all_puts i s [] = []
all_puts i s (e ∷ events) =
    puts i s e ++ elim (step i s e) [ none ↦ [] | some t ↦ all_puts i t events ]

unfoldable pub all_gets : ℕ → Station → List Event → List Frame
all_gets i s [] = []
all_gets i s (e ∷ events) =
    gets i s e ++ elim (step i s e) [ none ↦ [] | some t ↦ all_gets i t events ]

-- The mux alone receives at the endpoint, and neither it nor the subscription `id` is closed.
abbrev pub IsOwn : ℕ → ℕ → Event → Type 0
IsOwn i id (on_bus (Loopback.receives j)) = (i == j) ≡ false
IsOwn i id (on_bus e) = Unit {0}
IsOwn i id (on_mux (Mux.cancels j)) = (id == j) ≡ false
IsOwn i id (on_mux Mux.closes) = ⊥
IsOwn i id (on_mux (Mux.receives waiting answer)) = ⊥
IsOwn i id (on_mux e) = Unit {0}
IsOwn i id (reads waiting) = Unit {0}
