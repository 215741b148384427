-- ===== src/Sdo/Upload/Chunks.antt =====
-- The segments of an upload, as a device serves them and as the client puts them together.
use canbus.Prelude.{
  ℕ, zero, suc, ◌+◌, ◌-◌, ◌/◌, ◌%◌, ◌<◌, ◌≤◌, ◌≡◌, refl, sym, ap, ◌∙◌, arith, bit_xor, Bool, true,
  false, ◌&&◌, ◌||◌, Option, List, [], ◌∷◌, ◌++◌, length, ◌==◌, if◌then◌else◌, ok,
}
use std.Path.{fun_ext}
use mathlib.Core.List.{append_assoc, append-nil}
use canbus.Prelude.Bits.{and_mask}
use canbus.Frame.{Frame}
use canbus.Sdo.{specifier, sdo_cmd, index_of, subindex_of}
use canbus.Sdo.Segmented.{
  sdo_match_abort_for, sdo_match_upload_initiate, sdo_match_upload_seg, build_sdo_download_segment,
  upload_segment_request, parse_sdo_upload_segment_data,
}
use canbus.Sdo.Segmented.RoundTrip.{parse-segment}
use canbus.Sdo.Acks.{upload_answer, upload_segment_answer}
use canbus.Sdo.Client.{Client, Link, answered}
use canbus.Sdo.Download.Wire.{flip, planned-is_segment}
use canbus.Sdo.Exchange.Response.{is_response, after}
use canbus.Sdo.Exchange.Ending.{
  SettledBy, Ending, refused, aborted, silent, Ends, ended, server_filter, answered-settled,
  answered-Ends,
}
use canbus.Sdo.Upload.{check_total, upload_segments}

-- The bytes of the segments, in order.
abbrev pub joined : List (List ℕ) → List ℕ
joined [] = []
joined (chunk ∷ chunks) = chunk ++ joined chunks

-- What ends the wait behind an upload request: any upload response, or an abort of the object.
abbrev pub object_settles : ℕ → ℕ → ℕ → Frame → Bool
object_settles node index subindex f =
    is_response node f
    && (specifier f.payload.b0 == 2
        || specifier f.payload.b0 == 4 && (index_of f == index && subindex_of f == subindex))

-- What ends the wait behind a segment request: a segment with its toggle, or any abort.
abbrev pub segment_settles : ℕ → ℕ → Frame → Bool
segment_settles node toggle f =
    is_response node f
    && (specifier f.payload.b0 == 0 && f.payload.b0 / 16 % 2 == toggle % 2
        || specifier f.payload.b0 == 4)

pub upload_answer-settles :
    (node index subindex : ℕ)
    → node < 128
    → upload_answer node index subindex ≡ object_settles node index subindex
unfolding upload_answer sdo_cmd sdo_match_upload_initiate sdo_match_abort_for
upload_answer-settles node index subindex small =
    fun_ext (λ f. server_filter node _ f small ∙ (ground arith))

segment_answer-settles :
    (node toggle : ℕ) → node < 128 → upload_segment_answer node toggle ≡ segment_settles node toggle
unfolding upload_segment_answer sdo_cmd sdo_match_upload_seg
segment_answer-settles node toggle small = fun_ext (λ f.
    server_filter node _ f small
    ∙ (ground (arith, and_mask 1 (f.payload.b0 / 16), and_mask 1 toggle)))

-- A segment of 7 bytes, or the last one, of at most 7, laid out as CiA 301 lays out segments of
-- either direction, whose server specifier is 0.
abbrev pub IsChunk : ℕ → List ℕ → ℕ → Bool → Frame → Type 0
IsChunk node chunk toggle last rsp =
    (rsp.payload ≡ (build_sdo_download_segment node chunk toggle last).payload)
    × (length chunk ≤ 7)
    × (last ≡ false → length chunk ≡ 7)

-- In the world `w` the device answers a segment request by the segment.
abbrev pub ServesOne : {W : Type 0} → Link W → ℕ → W → ℕ → Bool → List ℕ → Type 0
ServesOne link node w toggle last chunk =
    (rsp : Frame) × SettledBy link (segment_settles node toggle) w
      (upload_segment_request node toggle) rsp
    × IsChunk node chunk toggle last rsp

-- From the world `w` on, it answers segment request after segment request by a segment that is not
-- the last.
abbrev pub Serves : {W : Type 0} → Link W → ℕ → W → ℕ → List (List ℕ) → Type 0
Serves link node w toggle [] = Unit {0}
Serves link node w toggle (chunk ∷ chunks) =
    ServesOne link node w toggle false chunk
    × Serves link node (after link w (upload_segment_request node toggle)) (1 - toggle) chunks

abbrev pub after_segments : {W : Type 0} → Link W → ℕ → W → ℕ → List (List ℕ) → W
after_segments link node w toggle [] = w
after_segments link node w toggle (chunk ∷ chunks) =
    after_segments link node (after link w (upload_segment_request node toggle)) (1 - toggle) chunks

-- The toggle that is due behind the segments.
abbrev pub next_toggle : ℕ → List (List ℕ) → ℕ
next_toggle toggle [] = toggle
next_toggle toggle (chunk ∷ chunks) = next_toggle (1 - toggle) chunks

pub next_toggle_bit :
    (toggle : ℕ) (chunks : List (List ℕ)) → toggle ≤ 1 → next_toggle toggle chunks ≤ 1
next_toggle_bit toggle [] t = t
next_toggle_bit toggle (chunk ∷ chunks) t = next_toggle_bit (1 - toggle) chunks (omega arith)

-- What the client reads from a segment.
chunk_read :
    (node toggle : ℕ) (chunk : List ℕ) (last : Bool) (rsp : Frame)
    → toggle ≤ 1
    → IsChunk node chunk toggle last rsp
    → (parse_sdo_upload_segment_data rsp ≡ ok (chunk, last)) × (specifier rsp.payload.b0 ≡ 0)
unfolding parse_sdo_upload_segment_data
chunk_read node toggle chunk last rsp t (same, short, full) =
    let seg : Frame = build_sdo_download_segment node chunk toggle last in
    let shape = planned-is_segment node toggle chunk last t short in
    (rw same (parse-segment node chunk toggle last short full), rw same (ground arith))

module _ {W : Type 0} (link : Link W) (c : Client) where
  -- One round of the loop, given the answer and what is read from it.
  segment_step :
      (fuel : ℕ) (total : Option ℕ) (out : List ℕ) (toggle : ℕ) (w w1 : W) (rsp : Frame)
      (chunk : List ℕ) (last : Bool)
      → answered link c
          (upload_segment_answer c.node toggle)
          1
          (upload_segment_request c.node toggle)
          w
        ≡ (w1, ok rsp)
      → parse_sdo_upload_segment_data rsp ≡ ok (chunk, last)
      → upload_segments link c (suc fuel) total out toggle w ≡ (
          if last
          then (w1, check_total total (out ++ chunk))
          else upload_segments link c fuel total (out ++ chunk) (bit_xor toggle 1) w1)
  unfolding upload_segments
  segment_step fuel total out toggle w w1 rsp chunk true a p = rw (a, upload_segments) (rw p refl)
  segment_step fuel total out toggle w w1 rsp chunk false a p = rw (a, upload_segments) (rw p refl)

  pub segment_served :
      (fuel : ℕ) (total : Option ℕ) (out : List ℕ) (toggle : ℕ) (w : W) (chunk : List ℕ)
      (last : Bool)
      → c.node < 128
      → toggle ≤ 1
      → ServesOne link c.node w toggle last chunk
      → let w1 = after link w (upload_segment_request c.node toggle) in
        upload_segments link c (suc fuel) total out toggle w ≡ (
          if last
          then (w1, check_total total (out ++ chunk))
          else upload_segments link c fuel total (out ++ chunk) (1 - toggle) w1)
  segment_served fuel total out toggle w chunk last small t (rsp, settled, shape) =
      let req = upload_segment_request c.node toggle in
      let w1 = after link w req in
      let (parsed, s) = chunk_read c.node toggle chunk last rsp t shape in
      segment_step fuel total out toggle w w1 rsp chunk last
        (ap (λ (p : Frame → Bool). answered link c p 1 req w)
            (segment_answer-settles c.node toggle small)
          ∙ answered-settled link c (segment_settles c.node toggle) req w rsp settled
              (λ p. omega arith))
        parsed
      ∙ ap
          (λ (u : ℕ).
            if last
            then (w1, check_total total (out ++ chunk))
            else upload_segments link c fuel total (out ++ chunk) u w1)
          (flip toggle t)

  -- The segments before the last one.
  pub segments_served :
      (chunks : List (List ℕ)) (fuel more : ℕ) (total : Option ℕ) (out : List ℕ) (toggle : ℕ)
      (w : W)
      → c.node < 128
      → fuel ≡ length chunks + more
      → toggle ≤ 1
      → Serves link c.node w toggle chunks
      → upload_segments link c fuel total out toggle w
        ≡ upload_segments link c more total
            (out ++ joined chunks)
            (next_toggle toggle chunks)
            (after_segments link c.node w toggle chunks)
  segments_served [] fuel more total out toggle w small enough t h =
      ap (λ (n : ℕ). upload_segments link c n total out toggle w) (omega arith)
      ∙ ap (λ (l : List ℕ). upload_segments link c more total l toggle w) (sym (append-nil out))
  segments_served (chunk ∷ chunks) zero more total out toggle w small enough t h =
      absurd (omega arith)
  segments_served (chunk ∷ chunks) (suc fuel) more total out toggle w small enough t (one, rest) =
      let w1 = after link w (upload_segment_request c.node toggle) in
      segment_served fuel total out toggle w chunk false small t one
      ∙ segments_served chunks fuel more total (out ++ chunk) (1 - toggle) w1 small (omega arith)
          (omega arith) rest
      ∙ ap
          (λ (l : List ℕ).
            upload_segments link c more total l (next_toggle (1 - toggle) chunks)
              (after_segments link c.node w1 (1 - toggle) chunks))
          (append_assoc out chunk (joined chunks))

  pub segments_end :
      (fuel : ℕ) (total : Option ℕ) (out : List ℕ) (toggle : ℕ) (w : W) (ending : Ending)
      → c.node < 128
      → Ends link (segment_settles c.node toggle) w (upload_segment_request c.node toggle) ending
      → upload_segments link c (suc fuel) total out toggle w
        ≡ ended link c w (upload_segment_request c.node toggle) ending
  unfolding upload_segments
  segments_end fuel total out toggle w ending small h =
      let req = upload_segment_request c.node toggle in
      by_ending ending (
        ap (λ (p : Frame → Bool). answered link c p 1 req w)
          (segment_answer-settles c.node toggle small)
        ∙ answered-Ends link c (segment_settles c.node toggle) req w ending small
            (λ f p. ground arith) h)
    where
      by_ending :
          (ending : Ending)
          → answered link c
              (upload_segment_answer c.node toggle)
              1
              (upload_segment_request c.node toggle)
              w
            ≡ ended link c w (upload_segment_request c.node toggle) ending
          → upload_segments link c (suc fuel) total out toggle w
            ≡ ended link c w (upload_segment_request c.node toggle) ending
      by_ending (refused x) e = rw (e, upload_segments) refl
      by_ending (aborted rsp) e = rw (e, upload_segments) refl
      by_ending silent e = rw (e, upload_segments) refl
