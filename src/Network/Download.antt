-- ===== src/Network/Download.antt =====
-- Download from one endpoint of a loopback bus to a device on another.
use canbus.Prelude.{
  ℕ, ◌<◌, ◌≡◌, refl, sym, ap, ◌∙◌, true, none, List, [], ◌∷◌, All, IsU8, IsU16, ok,
}
use mathlib.Core.Path.{subst}
use canbus.Frame.{Frame, validate}
use canbus.Loopback.{Bus}
use canbus.Sdo.Client.{Client, Link}
use canbus.Sdo.Download.{download}
use canbus.Sdo.Download.Script.{acknowledges, settles, script}
use canbus.Sdo.Download.Sendable.{IsSendable, script-IsSendable}
use canbus.Sdo.Download.Acknowledged.{Acknowledged, after_all, download-Acknowledged}
use canbus.Network.{loopback_link}
use canbus.Network.Hop.{IsPair}
use canbus.Network.Rounds.{round}

module _ {D : Type 0} (respond : D → Frame → D × Frame) where
  -- The device answers each of the requests, in this order, by a valid frame that acknowledges it.
  abbrev pub Accepts : ℕ → D → List Frame → Type 0
  Accepts node d [] = Unit {0}
  Accepts node d (req ∷ reqs) =
      let (d1, answer) = respond d req in
      (validate answer ≡ none)
      × (settles node req answer ≡ true)
      × (acknowledges req answer ≡ true)
      × Accepts node d1 reqs

  -- The device behind the requests.
  abbrev pub served : D → List Frame → D
  served d [] = d
  served d (req ∷ reqs) = served (respond d req).0 reqs

  module _ (i j : ℕ) where
    abbrev link : Link (Bus × D)
    link = loopback_link respond i j

    -- All requests.
    accepted :
        (node : ℕ) (reqs : List Frame) (b : Bus) (d : D)
        → IsPair i j b
        → All IsSendable reqs
        → Accepts node d reqs
        → Acknowledged link node (b, d) reqs
          × ((b2 : Bus) × (after_all link (b, d) reqs ≡ (b2, served d reqs)) × IsPair i j b2)
    accepted node [] b d p valid h = (tt, (b, refl, p))
    accepted node (req ∷ reqs) b d p (v, valid) (answer_valid, s, a, h) =
        let (b2, settled, next, back) =
          round respond i j (settles node req) req b d p v.valid answer_valid s in
        let (more, (b3, world, pair)) = accepted node reqs b2 (respond d req).0 back valid h in
        (
          (
            (respond d req).1,
            settled,
            a,
            subst (λ w. Acknowledged link node w reqs) (sym next) more,
          ),
          (b3, ap (λ w. after_all link w reqs) next ∙ world, pair),
        )

    -- On an open loopback bus with the client and a device alone on it and both channels empty, and
    -- with nobody else running during a Send, Download of any bytes below 256 to a 16-bit index and
    -- an 8-bit subindex of a node below 128 succeeds if its requests can be made and the device
    -- answers them, in order, by valid frames that acknowledge them. The device is then where these
    -- requests take it, and the bus is again open with these two alone and empty channels.
    pub download-served :
        (c : Client) (index subindex : ℕ) (bytes : List ℕ) (reqs : List Frame) (b : Bus) (d : D)
        → IsPair i j b
        → c.node < 128
        → IsU16 index
        → IsU8 subindex
        → All IsU8 bytes
        → script link c index subindex bytes ≡ ok reqs
        → Accepts c.node d reqs
        → (b2 : Bus) × (download link c index subindex bytes (b, d) ≡ ((b2, served d reqs), ok tt))
          × IsPair i j b2
    download-served c index subindex bytes reqs b d p small fits s h made accepts =
        let valid = script-IsSendable link c index subindex bytes reqs small s h made in
        let (acked, (b2, world, pair)) = accepted c.node reqs b d p valid accepts in
        (
          b2,
          download-Acknowledged link c index subindex bytes reqs (b, d) small fits made acked
              ∙ ap (λ (w : Bus × D). (w, ok tt)) world,
          pair,
        )
