-- ===== src/Sdo/Download/Script.antt =====
-- Download as a list of requests, each put on the bus when the one before it is acknowledged.
use canbus.Prelude.{
  ℕ, ◌/◌, ◌<◌, ◌≤◌, ◌≡◌, refl, ap, ◌∙◌, arith, bit_and, ◌>>>◌, Bool, true, false, ◌&&◌, ◌||◌, List,
  [], ◌∷◌, length, ◌==◌, ◌!=◌, if◌then◌else◌, Result, ok, err, ◌>>=◌, leb, IsU16, zero, suc, take,
  drop, length-drop, bit_xor, u32, Result-cases, inl, inr,
}
use std.Path.{fun_ext}
use canbus.Prelude.Bits.{and_mask}
use canbus.Frame.{Frame}
use canbus.Sdo.{specifier, sdo_cmd, index_of, subindex_of}
use canbus.Sdo.Expedited.Names.{Names, Requests, spec-Requests, classic-Requests, Requests-Names}
use canbus.Sdo.Segmented.{
  sdo_server_filter_for_node, sdo_match_abort_for, sdo_match_download_initiate_ok,
  sdo_match_download_seg_ack, names, build_sdo_download_segment,
  build_sdo_download_initiate_segmented,
}
use canbus.Sdo.Acks.{expedited_ack, initiate_ack, segment_ack}
use canbus.Sdo.Client.{Client, ExpeditedMode, spec, classic, Link, Run, continue, lift, answered}
use canbus.Sdo.Client
use canbus.Sdo.Exchange.Response.{is_response}
use canbus.Sdo.Exchange.Ending.{server_filter}
use canbus.Sdo.Download.Wire.{
  planned, flip, planned-is_segment, length-seg, is_segment, seg_len, is_last,
}
use canbus.Sdo.Download.{
  expedited_request, download_expedited, download_segments, download_segmented, download,
}
use canbus.Sdo.Expedited.{sdo_expedited_download, sdo_expedited_download_classic}

-- The acknowledgement of a request: of an initiation it names the object, of a segment it repeats
-- the toggle.
abbrev pub acknowledges : Frame → Frame → Bool
acknowledges req rsp =
    if specifier req.payload.b0 == 1
    then specifier rsp.payload.b0 == 3
      && (index_of rsp == index_of req && subindex_of rsp == subindex_of req)
    else specifier rsp.payload.b0 == 1
      && bit_and (rsp.payload.b0 >>> 4) 1 == bit_and (req.payload.b0 >>> 4) 1

-- An abort that the client takes for an answer to the request: one that names the object of an
-- initiation, and any abort of a segment.
abbrev pub aborts : Frame → Frame → Bool
aborts req rsp =
    specifier rsp.payload.b0 == 4
    && (if specifier req.payload.b0 == 1
        then index_of rsp == index_of req && subindex_of rsp == subindex_of req
        else true)

-- What ends the wait behind a request.
abbrev pub settles : ℕ → Frame → Frame → Bool
settles node req rsp = is_response node rsp && (aborts req rsp || acknowledges req rsp)

init-Names :
    (node index subindex size : ℕ)
    → IsU16 index
    → Names index subindex (build_sdo_download_initiate_segmented node index subindex size)
unfolding build_sdo_download_initiate_segmented
init-Names node index subindex size fits = (refl, omega arith, refl)

initiate_ack-settles :
    (node index subindex : ℕ) (req f : Frame)
    → node < 128
    → Names index subindex req
    → initiate_ack node index subindex f ≡ settles node req f
unfolding initiate_ack sdo_cmd sdo_match_download_initiate_ok sdo_match_abort_for
initiate_ack-settles node index subindex req f small (s, i, x) =
    server_filter node _ f small ∙ (ground (arith, s, i, x))

expedited_ack-settles :
    (node index subindex : ℕ) (req f : Frame)
    → node < 128
    → Names index subindex req
    → expedited_ack node index subindex f ≡ settles node req f
unfolding expedited_ack sdo_cmd sdo_server_filter_for_node
expedited_ack-settles node index subindex req f small (s, i, x) =
    server_filter node
      (λ g.
        if sdo_cmd g == 4
        then names index subindex g
        else if sdo_cmd g != 3
        then false
        else names index subindex g)
      f small
    ∙ (ground (arith, s, i, x))

segment_ack-settles :
    (node toggle : ℕ) (seg f : Frame)
    → node < 128
    → toggle ≤ 1
    → is_segment node toggle seg ≡ true
    → segment_ack node toggle f ≡ settles node seg f
unfolding segment_ack sdo_cmd sdo_match_download_seg_ack
segment_ack-settles node toggle seg f small t s =
    server_filter node _ f small
    ∙ (ground (arith, and_mask 1 (seg.payload.b0 / 16), and_mask 1 toggle))

module _ {W : Type 0} (link : Link W) (c : Client) where
  -- The requests one after the other. The first that is not acknowledged ends the method.
  unfoldable pub send_each : List Frame → Run W (Unit {0})
  send_each [] = lift (ok tt)
  send_each (req ∷ reqs) =
      Client.◌>>=◌ (answered link c (settles c.node req) 1 req) (λ rsp. send_each reqs)

  segments-send_each :
      (fuel : ℕ) (bytes : List ℕ) (toggle : ℕ) (w : W)
      → c.node < 128
      → length bytes ≤ fuel
      → toggle ≤ 1
      → download_segments link c fuel bytes toggle w
        ≡ send_each (planned c.node fuel bytes toggle) w
  unfolding download_segments planned send_each
  segments-send_each fuel [] toggle w small enough t = refl
  segments-send_each zero (b ∷ bs) toggle w small enough t = absurd (omega arith)
  segments-send_each (suc fuel) (b ∷ bs) toggle w small enough t =
      let bytes : List ℕ = b ∷ bs in
      let n : ℕ = seg_len bytes in
      let d : List ℕ = take n bytes in
      let seg : Frame = build_sdo_download_segment c.node d toggle (is_last bytes) in
      let short : length d ≤ 7 = rw (length-seg bytes) (ground arith) in
      let shape = planned-is_segment c.node toggle d (is_last bytes) t short in
      let rest : List ℕ = drop n bytes in
      ap
        (λ (p : Frame → Bool).
          continue (λ (r : Frame). download_segments link c fuel rest (bit_xor toggle 1))
            (answered link c p 1 seg w))
        (fun_ext (λ f. segment_ack-settles c.node toggle seg f small t shape))
      ∙ ap
          (λ (k : Frame → Run W (Unit {0})).
            continue k (answered link c (settles c.node seg) 1 seg w))
          (fun_ext (λ (r : Frame). fun_ext (λ v.
            segments-send_each fuel rest (bit_xor toggle 1) v small
              (ground (arith, length-drop n bytes)) (rw (flip toggle t) (omega arith)))))

  pub expedited_request-Requests :
      (index subindex : ℕ) (bytes : List ℕ) (req : Frame)
      → expedited_request link c index subindex bytes ≡ ok req
      → Requests c.node index subindex bytes req
  unfolding expedited_request
  expedited_request-Requests index subindex bytes req = by_mode c.expedited_mode
    where
      by_mode :
          (mode : ExpeditedMode)
          → (elim mode [
            | classic ↦ sdo_expedited_download_classic c.node index subindex bytes
            | spec ↦ sdo_expedited_download c.node index subindex bytes
          ])
            ≡ ok req
          → Requests c.node index subindex bytes req
      by_mode classic e = classic-Requests c.node index subindex bytes req e
      by_mode spec e = spec-Requests c.node index subindex bytes req e

  -- The requests of a segmented download.
  abbrev pub requests : ℕ → ℕ → List ℕ → List Frame
  requests index subindex bytes =
      build_sdo_download_initiate_segmented c.node index subindex (u32 (length bytes))
      ∷ planned c.node (length bytes) bytes 0

  -- The requests of a download, in order, or the error for which none is made.
  unfoldable pub script : ℕ → ℕ → List ℕ → Result (List Frame)
  script index subindex bytes =
      if leb (length bytes) 4
      then expedited_request link c index subindex bytes >>= (λ req. ok (req ∷ []))
      else ok (requests index subindex bytes)

  abbrev pub run_script : Result (List Frame) → Run W (Unit {0})
  run_script (ok reqs) = send_each reqs
  run_script (err e) = lift (err e)

  expedited-script :
      (index subindex : ℕ) (bytes : List ℕ) (w : W)
      → c.node < 128
      → IsU16 index
      → download_expedited link c index subindex bytes w
        ≡ run_script (expedited_request link c index subindex bytes >>= (λ req. ok (req ∷ []))) w
  unfolding download_expedited send_each
  expedited-script index subindex bytes w small fits =
      elim (Result-cases (expedited_request link c index subindex bytes)) [
        | inl (req, e) ↦
            let named =
              Requests-Names c.node index subindex bytes req fits
                (expedited_request-Requests index subindex bytes req e) in
            rw (e, download_expedited)
              (ap
                (λ (p : Frame → Bool).
                  continue (λ (r : Frame). lift (ok tt)) (answered link c p 1 req w))
                (fun_ext (λ f. expedited_ack-settles c.node index subindex req f small named)))
        | inr (x, e) ↦ rw (e, download_expedited) refl
      ]

  segmented-script :
      (index subindex : ℕ) (bytes : List ℕ) (w : W)
      → c.node < 128
      → IsU16 index
      → download_segmented link c index subindex bytes w
        ≡ send_each (requests index subindex bytes) w
  unfolding download_segmented send_each
  segmented-script index subindex bytes w small fits =
      let n = length bytes in
      let init : Frame = build_sdo_download_initiate_segmented c.node index subindex (u32 n) in
      ap
        (λ (p : Frame → Bool).
          continue (λ (r : Frame). download_segments link c n bytes 0) (answered link c p 1 init w))
        (fun_ext (λ f.
          initiate_ack-settles c.node index subindex init f small
            (init-Names c.node index subindex (u32 n) fits)))
      ∙ ap
          (λ (k : Frame → Run W (Unit {0})).
            continue k (answered link c (settles c.node init) 1 init w))
          (fun_ext (λ (r : Frame).
            fun_ext (λ v. segments-send_each n bytes 0 v small (omega arith) (omega arith))))

  -- Download of any bytes to a 16-bit index of a node below 128, expedited in either encoding or
  -- segmented, does what sending the list of its requests does, one after the other: the waits of
  -- the three cases end with an acknowledgement or an abort that can be read off the request, and
  -- where the request of an expedited download cannot be made, nothing is sent.
  pub download-script :
      (index subindex : ℕ) (bytes : List ℕ) (w : W)
      → c.node < 128
      → IsU16 index
      → download link c index subindex bytes w ≡ run_script (script index subindex bytes) w
  unfolding download script
  download-script index subindex bytes w small fits = by_size (leb (length bytes) 4)
    where
      by_size :
          (short : Bool)
          → (if short
                then download_expedited link c index subindex bytes
                else download_segmented link c index subindex bytes)
              w
            ≡ run_script
                (if short
                  then expedited_request link c index subindex bytes >>= (λ req. ok (req ∷ []))
                  else ok (requests index subindex bytes))
                w
      by_size true = expedited-script index subindex bytes w small fits
      by_size false = segmented-script index subindex bytes w small fits
