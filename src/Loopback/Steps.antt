-- ===== src/Loopback/Steps.antt =====
-- The steps of a loopback bus, against the invariant.
use canbus.Prelude.{ℕ, zero, suc, ◌<◌, ◌≡◌, refl, arith, Bool, some, List, [], ◌∷◌, length}
use mathlib.Core.Path.{subst}
use canbus.Loopback.{
  Endpoint, Bus, capacity, close_no_lock, close_bus, select_target, sent, skipped, blocked, panics,
  Outcome, Flight, starting, delivering, returned, advance, System, advance_at, Event, opens,
  closes, closes_bus, receives, begins, advances, step,
}
use canbus.Loopback.Sound.{IsSound, open_endpoint-IsSound, receive-IsSound, push-IsSound}
use canbus.Loopback.Closing.{IfSome, IfSome-map, close_no_lock-IsSound, close_bus-IsSound}

select_target-room :
    (pick : Bool) (t : Endpoint) → select_target pick t ≡ sent → length t.queue < capacity
unfolding select_target
select_target-room pick t e = ground arith

abbrev pub BusOf : {A : Type 0} → A × Bus → Type 0
BusOf r = IsSound r.1

pub advance-IsSound :
    (pick : Bool) (t : Flight) (b : Bus) → IsSound b → IfSome BusOf (advance pick t b)
unfolding advance
advance-IsSound pick (returned e) b h = h
advance-IsSound pick (starting i f) b h = h
advance-IsSound pick (delivering f []) b h = h
advance-IsSound pick (delivering f (t ∷ targets)) b h = go (select_target pick (b.ends t)) refl
  where
    go :
        (o : Outcome)
        → select_target pick (b.ends t) ≡ o
        → IfSome BusOf (advance pick (delivering f (t ∷ targets)) b)
    go sent e = rw (e, advance) (push-IsSound b f t h (select_target-room pick (b.ends t) e))
    go skipped e = rw (e, advance) h
    go blocked e = rw (e, advance) h
    go panics e = rw (e, advance) tt

advance_at-IsSound :
    (k : ℕ) (pick : Bool) (flights : List Flight) (b : Bus)
    → IsSound b
    → IfSome BusOf (advance_at k pick flights b)
unfolding advance_at
advance_at-IsSound k pick [] b h = h
advance_at-IsSound zero pick (t ∷ flights) b h =
    IfSome-map BusOf BusOf (λ (r : Flight × Bus). (r.0 ∷ flights, r.1)) (advance pick t b)
      (λ a q. q) (advance-IsSound pick t b h)
advance_at-IsSound (suc k) pick (t ∷ flights) b h =
    IfSome-map BusOf BusOf (λ (r : List Flight × Bus). (t ∷ r.0, r.1)) (advance_at k pick flights b)
      (λ a q. q) (advance_at-IsSound k pick flights b h)

pub step-keeps : (s : System) (e : Event) → IsSound s.bus → IfSome (λ r. IsSound r.bus) (step s e)
unfolding step
step-keeps s opens h = open_endpoint-IsSound s.bus h
step-keeps s (closes i) h =
    IfSome-map IsSound (λ (r : System). IsSound r.bus) (λ c. record s { bus = c })
      (close_no_lock i s.bus) (λ a q. q) (close_no_lock-IsSound s.bus i h)
step-keeps s closes_bus h =
    IfSome-map IsSound (λ (r : System). IsSound r.bus) (λ c. record s { bus = c }) (close_bus s.bus)
      (λ a q. q) (close_bus-IsSound s.bus h)
step-keeps s (receives i) h = receive-IsSound s i (s.bus.ends i).queue refl h
step-keeps s (begins i f) h = h
step-keeps s (advances k pick) h =
    IfSome-map BusOf (λ (r : System). IsSound r.bus)
      (λ (r : List Flight × Bus). record { bus = r.1; flights = r.0 })
      (advance_at k pick s.flights s.bus) (λ a q. q) (advance_at-IsSound k pick s.flights s.bus h)

-- Every step that does not panic keeps the invariant: no endpoint holds more than 64 frames, a
-- channel is closed exactly when its endpoint is dead, the map holds open endpoints, each once, and
-- a closed bus holds none.
pub step-IsSound : (s r : System) (e : Event) → IsSound s.bus → step s e ≡ some r → IsSound r.bus
step-IsSound s r e h p = subst (IfSome (λ (t : System). IsSound t.bus)) p (step-keeps s e h)
