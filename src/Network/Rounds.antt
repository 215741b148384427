-- ===== src/Network/Rounds.antt =====
-- One request of the SDO client and its answer, over a loopback bus.
use canbus.Prelude.{ℕ, ◌≡◌, refl, Bool, true, none, [], ◌∷◌}
use canbus.Frame.{Frame, validate}
use canbus.Loopback.{Bus}
use canbus.Sdo.Client.{Link}
use canbus.Sdo.Exchange.Response.{after}
use canbus.Sdo.Exchange.Ending.{SettledBy}
use canbus.Network.{loopback_link}
use canbus.Network.Hop.{IsPair, swapped, hop}

-- A round in which just the answer arrives.
pub round_settled :
    {W : Type 0} (link : Link W) (pass : Frame → Bool) (w w1 w2 : W) (req answer : Frame)
    → link.send w req ≡ (w1, none)
    → link.arrive w1 ≡ (w2, answer ∷ [])
    → pass answer ≡ true
    → SettledBy link pass w req answer × (after link w req ≡ w2)
round_settled link pass w w1 w2 req answer sent arrived s =
    ((rw sent refl, ([], rw (sent, arrived, s) refl)), rw (sent, arrived, after) refl)

module _ {D : Type 0} (respond : D → Frame → D × Frame) (i j : ℕ) where
  abbrev link : Link (Bus × D)
  link = loopback_link respond i j

  -- The device receives the request, and the client its answer.
  exchanged :
      (req : Frame) (b : Bus) (d : D)
      → IsPair i j b
      → validate req ≡ none
      → validate (respond d req).1 ≡ none
      → (b1 b2 : Bus) × (link.send (b, d) req ≡ ((b1, d), none))
        × (link.arrive (b1, d) ≡ ((b2, (respond d req).0), (respond d req).1 ∷ []))
        × IsPair i j b2
  exchanged req b d p valid answer_valid =
      let (c1, b1, sent, got, pair) = hop i j req b p valid in
      let (c2, b2, answered, read, back) =
        hop j i (respond d req).1 b1 (swapped i j b1 pair) answer_valid in
      (c1, b2, rw sent refl, rw (got, answered, read) refl, swapped j i b2 back)

  -- So it settles the wait, on a bus that is as before.
  pub round :
      (pass : Frame → Bool) (req : Frame) (b : Bus) (d : D)
      → IsPair i j b
      → validate req ≡ none
      → validate (respond d req).1 ≡ none
      → pass (respond d req).1 ≡ true
      → (b2 : Bus) × SettledBy link pass (b, d) req (respond d req).1
        × (after link (b, d) req ≡ (b2, (respond d req).0))
        × IsPair i j b2
  round pass req b d p valid answer_valid s =
      let (b1, b2, sent, arrived, back) = exchanged req b d p valid answer_valid in
      let (settled, next) =
        round_settled link pass (b, d) (b1, d) (b2, (respond d req).0) req (respond d req).1 sent
          arrived s in
      (b2, settled, next, back)
