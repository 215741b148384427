-- ===== src/Tests/Loopbacks.antt =====
-- Runs of loopback.go.
use canbus.Prelude.{
  ◌+◌, ◌≡◌, ◌↔◌, refl, arith, Bool, true, false, not, ◌&&◌, Option, none, some, List, [], ◌∷◌, ◌++◌,
  length, ◌==◌, ◌⊎◌, Result,
}
use mathlib.Core.Option
use canbus.Frame.{Frame, zero_frame, validate}
use canbus.Loopback.{
  Bus, System, Event, receives, opens, closes, closes_bus, begins, advances, step, run, new_system,
  new_loopback_bus, open_endpoint, receive, without, Flight, update, new_endpoint, returned,
  begin_send,
}
use canbus.Loopback.Sound.{IsSound, member}
use canbus.Loopback.Steps.{step-IsSound}
use canbus.Loopback.Panics.{Panics, step-Panics}
use canbus.Loopback.History.{put_in, taken_out, run-Balanced}
use canbus.Loopback.Arrivals.{arrivals, arrive_once, arrive_everywhere}
use canbus.Loopback.Validity.{WasSent, received_WasSent}
use canbus.Loopback.Broadcast.{rounds, IsBroadcast, send_broadcasts}

abbrev beat : Frame
beat = record zero_frame { id = 0x705; len = 1 }

-- Three endpoints on an open bus.
abbrev three : Bus
three = open_endpoint (open_endpoint (open_endpoint new_loopback_bus))

new_loopback_bus-IsSound : IsSound new_loopback_bus
new_loopback_bus-IsSound = record {
  wired = record {
    endpoints = λ i. ground arith;
    alive = λ i m. refl;
    known = λ i m. cc;
    distinct = tt;
  };
  detached = λ q. refl;
}

abbrev start : System
start = new_system

three-IsSound : IsSound three
unfolding step
three-IsSound =
    let b1 = open_endpoint new_loopback_bus in
    let b2 = open_endpoint b1 in
    let at = λ (b : Bus). record start { bus = b } in
    step-IsSound (at b2) (at three) opens
      (step-IsSound (at b1) (at b2) opens
        (step-IsSound start (at b1) opens new_loopback_bus-IsSound refl) refl)
      refl

-- The first endpoint sends, the second is closed behind the snapshot, and the delivery to it panics
-- where the select takes the send, and not where it takes the other case.
abbrev race : Bool → Option System
race pick =
    run start (opens ∷ opens ∷ begins 0 beat ∷ advances 0 true ∷ closes 1 ∷ advances 0 pick ∷ [])

race_panics : race true ≡ none
unfolding run
race_panics = refl

race_passes :
    Option.map (λ (s : System). s.flights) (race false) ≡ some (Flight.delivering beat [] ∷ [])
unfolding run
race_passes = refl

-- An endpoint opened after the bus was closed: Close panics, Receive waits.
late_close : run start (closes_bus ∷ opens ∷ closes 0 ∷ []) ≡ none
unfolding run
late_close = refl

late_receive :
    Option.map (λ (s : System). receive 0 s.bus) (run start (closes_bus ∷ opens ∷ [])) ≡ some none
unfolding run receive
late_receive = refl

-- The same race, as a state: the second of two endpoints is closed, and a Send is about to deliver
-- to it.
abbrev pub two : Bus
two = open_endpoint (open_endpoint new_loopback_bus)

abbrev racing : System
racing = record {
  bus = record two {
    attached = 0 ∷ [];
    ends = update two.ends 1 (record new_endpoint { dead = true; signalled = true; sealed = true });
  };
  flights = Flight.delivering beat (1 ∷ []) ∷ [];
}

pub two-IsSound : IsSound two
unfolding step
two-IsSound =
    let b1 = open_endpoint new_loopback_bus in
    let at = λ (b : Bus). record start { bus = b } in
    step-IsSound (at b1) (at two) opens
      (step-IsSound start (at b1) opens new_loopback_bus-IsSound refl) refl

racing-IsSound : IsSound racing.bus
unfolding step
racing-IsSound =
    step-IsSound (record start { bus = two }) (record start { bus = racing.bus }) (closes 1)
      two-IsSound refl

step-Panics_example : (step racing (advances 0 true) ≡ none) ↔ Panics racing (advances 0 true)
step-Panics_example = step-Panics racing (advances 0 true) racing-IsSound

send_broadcasts_example :
    (c : Bus) × (rounds (length (without 1 three.attached) + 2) true (begin_send 1 beat three) three
      ≡ some (returned none, c))
    × IsBroadcast (λ j. member three.attached j && not (j == 1)) beat three c
unfolding validate open_endpoint
send_broadcasts_example =
    send_broadcasts three 1 beat true three-IsSound refl refl refl (λ j m. ground arith)

-- The second of three endpoints sends; the first one receives, and is closed while the frame to the
-- third is still under way.
abbrev before : System
before = record { bus = three; flights = Flight.starting 1 beat ∷ [] }

abbrev events : List Event
events =
    advances 0 true
    ∷ advances 0 true
    ∷ receives 2
    ∷ begins 0 beat
    ∷ closes 2
    ∷ advances 1 true
    ∷ advances 1 true
    ∷ []

abbrev landed : Option System → System
landed none = start
landed (some r) = r

abbrev behind : System
behind = landed (run before events)

run-before : run before events ≡ some behind
unfolding run
run-before = refl

run-Balanced_example : [] ++ put_in 0 before events ≡ taken_out 0 before events ++ (beat ∷ [])
unfolding run open_endpoint
run-Balanced_example = run-Balanced 0 before behind events (ground arith) run-before

arrive_once_example :
    (arrivals 0 0 before events ≡ [])
    ⊎ ((arrivals 0 0 before events ≡ beat ∷ []) × ((0 == 1) ≡ false))
arrive_once_example = arrive_once 0 before behind events 1 beat 0 three-IsSound refl run-before

arrive_everywhere_example : arrivals 0 0 before events ≡ beat ∷ []
unfolding run open_endpoint
arrive_everywhere_example =
    arrive_everywhere 0 before behind events 1 beat 0 three-IsSound refl run-before refl refl refl
      refl

-- The endpoint that is closed behind the delivery has got it too, and the sender nothing.
two_reached : (arrivals 0 2 before events ≡ beat ∷ []) × (arrivals 0 1 before events ≡ [])
unfolding arrivals step open_endpoint
two_reached = (refl, refl)

-- Two endpoints open, the first sends, and the second receives.
abbrev sent_over : List Event
sent_over = opens ∷ opens ∷ begins 0 beat ∷ advances 0 true ∷ advances 0 true ∷ []

abbrev arrived : System
arrived = landed (run start sent_over)

abbrev bus_behind : Option (Result Frame × Bus) → Bus
bus_behind none = two
bus_behind (some (r, b)) = b

received_WasSent_example : (validate beat ≡ none) × WasSent sent_over beat
unfolding run receive
received_WasSent_example =
    received_WasSent arrived (bus_behind (receive 1 arrived.bus)) sent_over 1 beat refl refl
