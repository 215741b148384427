-- ===== src/Network/Upload.antt =====
-- Upload at one endpoint of a loopback bus from a device on another.
use canbus.Prelude.{
  ℕ, ◌-◌, ◌++◌, bit_or, ◌<<<◌, Option-cases, ◌<◌, ◌≡◌, refl, sym, ap, ◌∙◌, arith, true, false, none,
  List, [], ◌∷◌, length, inl, inr, Result, ok,
}
use mathlib.Core.Path.{subst}
use canbus.Frame.{Frame, validate}
use canbus.Frame.Payload.{Bytes8}
use canbus.Cob.{validate_node, cob_id}
use canbus.Loopback.{Bus}
use canbus.Sdo.{sdo_ccs_upload_initiate}
use canbus.Sdo.Expedited.{head, request, sdo_expedited_upload_request}
use canbus.Sdo.Segmented.{upload_segment_request}
use canbus.Sdo.Client.{Client, Link}
use canbus.Sdo.Exchange.Response.{after}
use canbus.Sdo.Upload.{upload}
use canbus.Sdo.Upload.Chunks.{
  joined, object_settles, segment_settles, IsChunk, ServesOne, Serves, after_segments, next_toggle,
}
use canbus.Sdo.Upload.Served.{Announces, upload-served}
use canbus.Network.{loopback_link}
use canbus.Network.Hop.{IsPair}
use canbus.Network.Rounds.{round}

request_valid : (node : ℕ) (d : Bytes8) → node < 128 → validate (request node d) ≡ none
unfolding cob_id validate
request_valid node d small = ground arith

segment_request_valid :
    (node toggle : ℕ) → node < 128 → validate (upload_segment_request node toggle) ≡ none
unfolding upload_segment_request
segment_request_valid node toggle small = request_valid node _ small

object_request_valid :
    (node index subindex : ℕ) (req : Frame)
    → node < 128
    → sdo_expedited_upload_request node index subindex ≡ ok req
    → validate req ≡ none
unfolding sdo_expedited_upload_request
object_request_valid node index subindex req small made = elim (Option-cases (validate_node node)) [
  | inl e ↦
      let d : Bytes8 = head (bit_or 0 (sdo_ccs_upload_initiate <<< 5)) index subindex in
      let same : ◌≡◌ {A = Result Frame} (ok (request node d)) (ok req) =
        sym (rw (e, sdo_expedited_upload_request) refl) ∙ made in
      subst (λ (f : Frame). validate f ≡ none) (cc (same)) (request_valid node d small)
  | inr (x, e) ↦ absurd (ground (arith, e, made))
]

module _ {D : Type 0} (respond : D → Frame → D × Frame) where
  -- The device answers segment request after segment request by a valid frame with the next of the
  -- segments, and then by the last.
  abbrev pub Offers : ℕ → D → ℕ → List (List ℕ) → List ℕ → Type 0
  Offers node d toggle [] last =
      let answer = (respond d (upload_segment_request node toggle)).1 in
      (validate answer ≡ none)
      × (segment_settles node toggle answer ≡ true)
      × IsChunk node last toggle true answer
  Offers node d toggle (chunk ∷ chunks) last =
      let (d1, answer) = respond d (upload_segment_request node toggle) in
      (validate answer ≡ none)
      × (segment_settles node toggle answer ≡ true)
      × IsChunk node chunk toggle false answer
      × Offers node d1 (1 - toggle) chunks last

  -- The device behind the requests for all segments.
  abbrev pub emptied : ℕ → D → ℕ → List (List ℕ) → D
  emptied node d toggle [] = (respond d (upload_segment_request node toggle)).0
  emptied node d toggle (chunk ∷ chunks) =
      emptied node (respond d (upload_segment_request node toggle)).0 (1 - toggle) chunks

  module _ (i j : ℕ) where
    abbrev link : Link (Bus × D)
    link = loopback_link respond i j

    -- From the world `w` on, what the client needs of the link, and where it leaves the two.
    abbrev Supplied : ℕ → ℕ → List (List ℕ) → List ℕ → Bus × D → D → Type 0
    Supplied node toggle chunks last w out =
        Serves link node w toggle chunks
        × (let w1 = after_segments link node w toggle chunks in
            let t = next_toggle toggle chunks in
            ServesOne link node w1 t true last
            × ((b2 : Bus) × (after link w1 (upload_segment_request node t) ≡ (b2, out))
                × IsPair i j b2))

    offered :
        (node toggle : ℕ) (chunks : List (List ℕ)) (last : List ℕ) (b : Bus) (d : D)
        → IsPair i j b
        → node < 128
        → Offers node d toggle chunks last
        → Supplied node toggle chunks last (b, d) (emptied node d toggle chunks)
    offered node toggle [] last b d p small (answer_valid, s, shape) =
        let req = upload_segment_request node toggle in
        let (b2, settled, next, back) =
          round respond i j (segment_settles node toggle) req b d p
            (segment_request_valid node toggle small) answer_valid s in
        (tt, (((respond d req).1, settled, shape), (b2, next, back)))
    offered node toggle (chunk ∷ chunks) last b d p small (answer_valid, s, shape, h) =
        let req = upload_segment_request node toggle in
        let (b2, settled, next, back) =
          round respond i j (segment_settles node toggle) req b d p
            (segment_request_valid node toggle small) answer_valid s in
        let out = emptied node (respond d req).0 (1 - toggle) chunks in
        let (serves, end) =
          subst (λ (w : Bus × D). Supplied node (1 - toggle) chunks last w out) (sym next)
            (offered node (1 - toggle) chunks last b2 (respond d req).0 back small h) in
        ((((respond d req).1, settled, shape), serves), end)

    -- On an open loopback bus with the client and a device alone on it and both channels empty, and
    -- with nobody else running during a Send, Upload by a client that is not lenient from a node
    -- below 128 returns the bytes of the segments, in order, if its request can be made and the
    -- device answers it by a valid announcement, with no size or the right one, then each segment
    -- request by a valid frame with the next segment, and the last so. The device is then where
    -- these requests take it, and the bus is again open with these two alone and empty channels.
    pub upload-offered :
        (c : Client) (fuel index subindex : ℕ) (chunks : List (List ℕ)) (last : List ℕ)
        (req : Frame) (b : Bus) (d : D)
        → IsPair i j b
        → c.node < 128
        → c.lenient_upload_expedited_only ≡ false
        → length chunks < fuel
        → sdo_expedited_upload_request c.node index subindex ≡ ok req
        → let (d1, first) = respond d req in
          validate first ≡ none
          → object_settles c.node index subindex first ≡ true
          → Announces index subindex (length (joined chunks ++ last)) first
          → Offers c.node d1 0 chunks last
          → (b2 : Bus) × (upload link c fuel index subindex (b, d)
              ≡ ((b2, emptied c.node d1 0 chunks), ok (joined chunks ++ last)))
            × IsPair i j b2
    upload-offered c fuel index subindex chunks last req b d p small strict enough made first_valid
          s a h =
        let node = c.node in
        let (b1, settled, next, back) =
          round respond i j (object_settles node index subindex) req b d p
            (object_request_valid node index subindex req small made) first_valid s in
        let out = emptied node (respond d req).0 0 chunks in
        let (serves, (one, (b2, world, pair))) =
          subst (λ (w : Bus × D). Supplied node 0 chunks last w out) (sym next)
            (offered node 0 chunks last b1 (respond d req).0 back small h) in
        (
          b2,
          upload-served link c fuel index subindex chunks last req (respond d req).1 (b, d) small
                strict enough made settled a serves one
              ∙ ap (λ (w : Bus × D). (w, ok (joined chunks ++ last))) world,
          pair,
        )
