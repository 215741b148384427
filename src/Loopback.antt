-- ===== src/Loopback.antt =====
-- loopback.go: the bus, its endpoints, and the sends that are under way. A Send is not one step: it
-- looks at its endpoint, takes a snapshot of the others, and delivers to one after the other, and
-- other goroutines may run in between. A step that panics gives `none`.
pub mod Sound
pub mod Closing
pub mod Steps
pub mod Panics
pub mod Broadcast
pub mod Queues
pub mod History
pub mod Calls
pub mod Once
pub mod Validity
pub mod Lasts
pub mod Everyone
pub mod Arrivals
use canbus.Prelude.{
  ℕ, zero, suc, ◌+◌, Bool, true, false, not, ◌&&◌, ◌||◌, Option, none, some, List, [], ◌∷◌, ◌++◌,
  length, ltb, ◌==◌, if◌then◌else◌, Error, Result, ok, err, closed,
}
use mathlib.Core.Option
use canbus.Frame.{Frame, validate}

-- `loopEndpoint`: the frames in `ch` and whether it is closed, `dead`, and whether the channel
-- `closed` is closed.
pub record Endpoint : Type 0 where
  pub queue : List Frame
  pub sealed : Bool
  pub dead : Bool
  pub signalled : Bool

-- `LoopbackBus`. Endpoints are named by numbers, in the order of their opening; `attached` holds
-- the keys of the map `endpoints`, which is nil or empty alike.
pub record Bus : Type 0 where
  pub is_closed : Bool
  pub attached : List ℕ
  pub opened : ℕ
  pub ends : ℕ → Endpoint

-- `make(chan Frame, 64)`
abbrev pub capacity : ℕ
capacity = 64

abbrev pub new_endpoint : Endpoint
new_endpoint = record { queue = []; sealed = false; dead = false; signalled = false }

-- `NewLoopbackBus()`
abbrev pub new_loopback_bus : Bus
new_loopback_bus = record { is_closed = false; attached = []; opened = 0; ends = λ i. new_endpoint }

abbrev pub update : (ℕ → Endpoint) → ℕ → Endpoint → ℕ → Endpoint
update ends i ep j = if j == i then ep else ends j

-- `delete(endpoints, ep)`, and the loop of Send that leaves out the sender.
abbrev pub without : ℕ → List ℕ → List ℕ
without i [] = []
without i (j ∷ ids) = let rest = without i ids in if j == i then rest else j ∷ rest

-- `b.Open()`: the endpoint's number is `b.opened`.
unfoldable pub open_endpoint : Bus → Bus
open_endpoint b =
    if b.is_closed
    then record b {
      opened = b.opened + 1;
      ends = update b.ends b.opened (record new_endpoint { signalled = true });
    }
    else record b {
      opened = b.opened + 1;
      attached = b.opened ∷ b.attached;
      ends = update b.ends b.opened new_endpoint;
    }

-- `e.closeNoLock()`; to close a closed channel panics.
unfoldable pub close_no_lock : ℕ → Bus → Option Bus
close_no_lock i b =
    let ep = b.ends i in
    if ep.dead
    then some b
    else if ep.signalled || ep.sealed
    then none
    else some (record b {
      attached = without i b.attached;
      ends = update b.ends i (record ep { dead = true; signalled = true; sealed = true });
    })

-- `e.Close()`, under the lock of the bus.
abbrev pub close_endpoint : ℕ → Bus → Option Bus
close_endpoint i b = close_no_lock i b

-- `for ep := range b.endpoints { ep.closeNoLock() }`
unfoldable pub close_each : List ℕ → Bus → Option Bus
close_each [] b = some b
close_each (i ∷ ids) b = elim (close_no_lock i b) [ none ↦ none | some c ↦ close_each ids c ]

-- `b.Close()`
unfoldable pub close_bus : Bus → Option Bus
unfolding close_each
close_bus b =
    if b.is_closed
    then some b
    else Option.map (λ (c : Bus). record c { attached = [] })
        (close_each b.attached (record b { is_closed = true }))

-- `e.Receive()`; `none` is a receive that waits.
unfoldable pub receive : ℕ → Bus → Option (Result Frame × Bus)
receive i b =
    let ep = b.ends i in
    elim ep.queue [
      | f ∷ rest ↦ some (ok f, record b { ends = update b.ends i (record ep { queue = rest }) })
      | [] ↦ if ep.sealed then some (err closed, b) else none
    ]

-- Where a call of Send stands: behind the look at `e.dead`, in the loop over the targets that are
-- left, or returned.
pub data Flight : Type 0 where
  starting : ℕ → Frame → Flight
  delivering : Frame → List ℕ → Flight
  returned : Option Error → Flight

-- `e.Send(frame)` up to the snapshot.
unfoldable pub begin_send : ℕ → Frame → Bus → Flight
unfolding validate
begin_send i f b = elim (validate f) [
  | some e ↦ returned (some e)
  | none ↦ if (b.ends i).dead then returned (some closed) else starting i f
]

-- The snapshot of the other endpoints, under the lock of the bus.
unfoldable pub snapshot : ℕ → Frame → Bus → Flight
snapshot i f b = if b.is_closed then returned (some closed) else delivering f (without i b.attached)

-- What the select of Send comes to. A closed channel is ready for a send, which panics.
pub data Outcome : Type 0 where
  sent skipped blocked panics : Outcome

-- `pick` chooses between the two cases where both are ready, which the language leaves open.
unfoldable pub select_target : Bool → Endpoint → Outcome
select_target pick t =
    let ready = t.sealed || ltb (length t.queue) capacity in
    if ready && (pick || not t.signalled)
    then if t.sealed then panics else sent
    else if t.signalled
    then skipped
    else blocked

unfoldable pub push : Frame → ℕ → Bus → Bus
push f i b =
    let ep = b.ends i in
    record b { ends = update b.ends i (record ep { queue = ep.queue ++ (f ∷ []) }) }

-- The next step of a Send.
unfoldable pub advance : Bool → Flight → Bus → Option (Flight × Bus)
unfolding snapshot select_target push
advance pick (returned e) b = some (returned e, b)
advance pick (starting i f) b = some (snapshot i f b, b)
advance pick (delivering f []) b = some (returned none, b)
advance pick (delivering f (t ∷ targets)) b = elim (select_target pick (b.ends t)) [
  | sent ↦ some (delivering f targets, push f t b)
  | skipped ↦ some (delivering f targets, b)
  | blocked ↦ some (delivering f (t ∷ targets), b)
  | panics ↦ none
]

-- The bus and all calls of Send, the newest first.
pub record System : Type 0 where
  pub bus : Bus
  pub flights : List Flight

abbrev pub with_bus : System → Option Bus → Option System
with_bus s b = Option.map (λ (c : Bus). record s { bus = c }) b

-- One step of the call at position `k`.
unfoldable pub advance_at : ℕ → Bool → List Flight → Bus → Option (List Flight × Bus)
unfolding advance
advance_at k pick [] b = some ([], b)
advance_at zero pick (t ∷ flights) b =
    Option.map (λ (r : Flight × Bus). (r.0 ∷ flights, r.1)) (advance pick t b)
advance_at (suc k) pick (t ∷ flights) b =
    Option.map (λ (r : List Flight × Bus). (t ∷ r.0, r.1)) (advance_at k pick flights b)

pub data Event : Type 0 where
  opens : Event
  closes : ℕ → Event
  closes_bus : Event
  receives : ℕ → Event
  begins : ℕ → Frame → Event
  advances : ℕ → Bool → Event

-- A receive that waits changes nothing.
abbrev pub after_receive : System → Option (Result Frame × Bus) → System
after_receive s none = s
after_receive s (some (r, b)) = record s { bus = b }

unfoldable pub step : System → Event → Option System
unfolding open_endpoint close_no_lock close_bus receive begin_send advance_at
step s opens = some (record s { bus = open_endpoint s.bus })
step s (closes i) = with_bus s (close_endpoint i s.bus)
step s closes_bus = with_bus s (close_bus s.bus)
step s (receives i) = some (after_receive s (receive i s.bus))
step s (begins i f) = some (record s { flights = begin_send i f s.bus ∷ s.flights })
step s (advances k pick) =
    Option.map (λ (r : List Flight × Bus). record { bus = r.1; flights = r.0 })
      (advance_at k pick s.flights s.bus)

unfoldable pub run : System → List Event → Option System
unfolding step
run s [] = some s
run s (e ∷ events) = elim (step s e) [ none ↦ none | some r ↦ run r events ]

-- `NewLoopbackBus()`, with no Send under way.
abbrev pub new_system : System
new_system = record { bus = new_loopback_bus; flights = [] }
