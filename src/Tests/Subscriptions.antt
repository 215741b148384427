-- ===== src/Tests/Subscriptions.antt =====
-- Runs of SubscribeHeartbeats.
use canbus.Prelude.{ℕ, ◌≡◌, refl, arith, true, false, some, List, [], ◌∷◌, All}
use mathlib.Core.List.{map}
use canbus.Frame.{Frame, zero_frame}
use canbus.Frame.Payload.{zeros}
use canbus.Cob.{parse_cob_id, parse_range}
use canbus.Mux.{new_mux}
use canbus.Message.Heartbeat.{other_node, heartbeat_filter, parse_heartbeat}
use canbus.Message.Stream.{heartbeat_of}
use canbus.Message.Subscription.{
  Subscription, subscribe_heartbeats, Event, offers, shuts, advances, step, run,
}
use canbus.Message.Subscription.Order.{on_the_way, arrived, heartbeats_in_order}
use canbus.Message.Subscription.Ending.{steps_left, rounds, drained}
use canbus.Message.Subscription.Stuck.{IsStuck, goroutine_stays}

abbrev beat : ℕ → Frame
beat state = record zero_frame { id = 0x705; len = 1; payload = record zeros { b0 = state } }

-- Of four heartbeats of node 5 and one of node 6, two find room in the channel, whose buffer is 1.
abbrev busy_bus : List Event
busy_bus =
    offers false (beat 5)
    ∷ offers false (beat 4)
    ∷ advances
    ∷ offers false (record (beat 5) { id = 0x706 })
    ∷ offers false (beat 127)
    ∷ advances
    ∷ offers false (beat 0)
    ∷ []

abbrev subscription : Subscription
subscription = (subscribe_heartbeats new_mux (some 5) 1).1

arrivals :
    map heartbeat_of (arrived subscription busy_bus)
    ≡ record { node = 5; state = 5 } ∷ record { node = 5; state = 127 } ∷ []
unfolding subscribe_heartbeats arrived step heartbeat_filter parse_cob_id parse_range
    parse_heartbeat
arrivals = refl

heartbeats_in_order_example :
    (on_the_way (run subscription busy_bus) ≡ map heartbeat_of (arrived subscription busy_bus))
    × All (λ h. other_node (some 5) h.node ≡ false) (on_the_way (run subscription busy_bus))
heartbeats_in_order_example = heartbeats_in_order new_mux (some 5) 1 busy_bus

left_over : steps_left (run subscription busy_bus) ≡ 3
unfolding subscribe_heartbeats run heartbeat_filter parse_cob_id parse_range parse_heartbeat
left_over = refl

drained_example :
    let e = run (step (run subscription busy_bus) shuts) (rounds 4) in
    (e.is_done ≡ true) × (e.got ≡ on_the_way (run subscription busy_bus))
drained_example = drained new_mux (some 5) 1 busy_bus 4 (omega (arith, left_over))

-- One heartbeat is in the channel, the goroutine stands with the next, and the subscription is
-- cancelled.
abbrev crowded : List Event
crowded = offers false (beat 5) ∷ advances ∷ advances ∷ offers false (beat 4) ∷ advances ∷ []

goroutine_stays_example :
    IsStuck
      (record { node = 5; state = 4 })
      (run (run subscription crowded) (shuts ∷ advances ∷ advances ∷ []))
unfolding subscribe_heartbeats run heartbeat_filter parse_cob_id parse_range parse_heartbeat
goroutine_stays_example =
    goroutine_stays (record { node = 5; state = 4 }) (run subscription crowded)
      (shuts ∷ advances ∷ advances ∷ []) (refl, (refl, (refl, tt))) (refl, refl, omega arith)
