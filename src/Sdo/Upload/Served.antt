-- ===== src/Sdo/Upload/Served.antt =====
-- Uploads from a device that serves them in segments.
use canbus.Prelude.{
  ℕ, suc, ◌+◌, ◌-◌, ◌++◌, Bool, true, Result, ◌/◌, ◌%◌, ◌^◌, ◌!=◌, ◌<◌, ◌≡◌, ap, ◌∙◌, arith,
  bit_and, false, Option, none, some, List, [], length, Result-cases, inl, inr, if◌then◌else◌,
  Error, ok, err, uint32,
}
use canbus.Prelude.Bits.{and_flag}
use canbus.Frame.{Frame}
use canbus.Cob.{parse_cob_id}
use canbus.Sdo.{specifier, index_of, subindex_of}
use canbus.Sdo.Expedited.{sdo_expedited_upload_request, parse_sdo_expedited_upload_response}
use canbus.Sdo.Segmented.{parse_sdo_abort, upload_segment_request}
use canbus.Sdo.Client.{Client, Link, continue, exchange}
use canbus.Sdo.Exchange.{exchange-first}
use canbus.Sdo.Exchange.Response.{after, no_abort}
use canbus.Sdo.Exchange.Ending.{SettledBy, Ending, Ends, ended}
use canbus.Sdo.Upload.{
  check_total, upload_segments, upload_segmented, upload_lenient, upload_parsed, upload_first,
  upload,
}
use canbus.Sdo.Upload.Chunks.{
  joined, object_settles, segment_settles, ServesOne, Serves, after_segments, next_toggle,
  next_toggle_bit, upload_answer-settles, segment_served, segments_served, segments_end,
}

-- The answer to an upload request that announces segments, in the bits that the client reads: of
-- the object, not expedited, and with the size, if it gives one.
pub record Announces (index subindex size : ℕ) (f : Frame) : Type 0 where
  pub responds : specifier f.payload.b0 ≡ 2
  pub segmented : f.payload.b0 / 8 % 2 ≡ 0
  pub for_index : index_of f ≡ index
  pub for_subindex : subindex_of f ≡ subindex
  pub of_size :
      f.payload.b0 / 4 % 2 ≡ 1 → uint32 f.payload.b4 f.payload.b5 f.payload.b6 f.payload.b7 ≡ size

not_expedited :
    (f : Frame)
    → f.payload.b0 / 8 % 2 ≡ 0
    → (e : Error) × (parse_sdo_expedited_upload_response f ≡ err e)
unfolding parse_sdo_expedited_upload_response
not_expedited f h = elim (Result-cases (parse_sdo_expedited_upload_response f)) [
  | inl (x, e) ↦ elim (Result-cases (parse_cob_id f.id)) [
    | inl ((fc, n), p) ↦ absurd (ground (arith, p, and_flag 3 f.payload.b0))
    | inr (y, p) ↦ absurd (ground (arith, p))
  ]
  | inr (x, e) ↦ (x, e)
]

-- The size that the client reads from the first answer.
abbrev indicated : Frame → Option ℕ
indicated f =
    if bit_and f.payload.b0 (2 ^ 2) != 0
    then some (uint32 f.payload.b4 f.payload.b5 f.payload.b6 f.payload.b7)
    else none

indicated_fits :
    (index subindex : ℕ) (f : Frame) (bytes : List ℕ)
    → Announces index subindex (length bytes) f
    → check_total (indicated f) bytes ≡ ok bytes
indicated_fits index subindex f bytes a = ground (arith, and_flag 2 f.payload.b0, a.of_size)

module _ {W : Type 0} (link : Link W) (c : Client) where
  segmented_starts :
      (fuel index subindex size : ℕ) (f : Frame) (w : W)
      → Announces index subindex size f
      → upload_segmented link c fuel index subindex f w
        ≡ upload_segments link c fuel (indicated f) [] 0 w
  unfolding upload_segmented
  segmented_starts fuel index subindex size f w a =
      ground (arith, a.responds, a.segmented, a.for_index, a.for_subindex, and_flag 3 f.payload.b0)

  lenient_skipped :
      (fuel index subindex : ℕ) (f : Frame) (w : W)
      → c.lenient_upload_expedited_only ≡ false
      → upload_lenient link c fuel index subindex f w
        ≡ upload_segmented link c fuel index subindex f w
  unfolding upload_lenient
  lenient_skipped fuel index subindex f w strict = ground (arith, strict)

  first_starts :
      (fuel index subindex size : ℕ) (f : Frame) (w : W)
      → c.lenient_upload_expedited_only ≡ false
      → Announces index subindex size f
      → upload_first link c fuel index subindex f (parse_sdo_abort f) w
        ≡ upload_segments link c fuel (indicated f) [] 0 w
  unfolding upload_first upload_parsed
  first_starts fuel index subindex size f w strict a =
      let (e, refused) = not_expedited f a.segmented in
      let quiet = no_abort f (λ p. ground (arith, a.responds)) in
      rw (quiet, upload_first)
        (rw (refused, upload_parsed)
          (lenient_skipped fuel index subindex f w strict
            ∙ segmented_starts fuel index subindex size f w a))

  -- The first exchange, and the segments before the last.
  upload-started :
      (fuel index subindex size more : ℕ) (chunks : List (List ℕ)) (req first : Frame) (w : W)
      → c.node < 128
      → c.lenient_upload_expedited_only ≡ false
      → fuel ≡ length chunks + more
      → sdo_expedited_upload_request c.node index subindex ≡ ok req
      → SettledBy link (object_settles c.node index subindex) w req first
      → Announces index subindex size first
      → Serves link c.node (after link w req) 0 chunks
      → upload link c fuel index subindex w
        ≡ upload_segments link c more
            (indicated first)
            (joined chunks)
            (next_toggle 0 chunks)
            (after_segments link c.node (after link w req) 0 chunks)
  unfolding upload
  upload-started fuel index subindex size more chunks req first w small strict enough made
        (sent, (rest, ans)) a h =
      rw (made, upload)
        (ap
            (continue
              (λ (f : Frame). upload_first link c fuel index subindex f (parse_sdo_abort f)))
            (ap (λ (p : Frame → Bool). exchange link c p 2 req w)
                (upload_answer-settles c.node index subindex small)
              ∙ exchange-first link c (object_settles c.node index subindex) 1 req w first rest sent
                  ans)
          ∙ first_starts fuel index subindex size first (after link w req) strict a
          ∙ segments_served link c chunks fuel more (indicated first) [] 0 (after link w req) small
              enough (omega arith) h)

  -- If the server of a node below 128 answers the request by an announcement of the object, with no
  -- size or the right one, then each segment request by the next of its segments, and the last one
  -- so, whatever other frames the bus carries, a client that is not lenient returns the bytes of
  -- the segments, in order, within as many rounds as there are segments.
  pub upload-served :
      (fuel index subindex : ℕ) (chunks : List (List ℕ)) (last : List ℕ) (req first : Frame) (w : W)
      → c.node < 128
      → c.lenient_upload_expedited_only ≡ false
      → length chunks < fuel
      → sdo_expedited_upload_request c.node index subindex ≡ ok req
      → SettledBy link (object_settles c.node index subindex) w req first
      → Announces index subindex (length (joined chunks ++ last)) first
      → Serves link c.node (after link w req) 0 chunks
      → let w1 = after_segments link c.node (after link w req) 0 chunks in
        ServesOne link c.node w1 (next_toggle 0 chunks) true last
        → upload link c fuel index subindex w ≡ (
          after link w1 (upload_segment_request c.node (next_toggle 0 chunks)),
          ok (joined chunks ++ last),
        )
  upload-served fuel index subindex chunks last req first w small strict enough made settled a h
        one =
      let more : ℕ = fuel - length chunks - 1 in
      let t : ℕ = next_toggle 0 chunks in
      let w1 = after_segments link c.node (after link w req) 0 chunks in
      upload-started fuel index subindex (length (joined chunks ++ last)) (suc more) chunks req
        first w small strict (omega arith) made settled a h
      ∙ segment_served link c more (indicated first) (joined chunks) t w1 last true small
          (next_toggle_bit 0 chunks (omega arith)) one
      ∙ ap (λ (r : Result (List ℕ)). (after link w1 (upload_segment_request c.node t), r))
          (indicated_fits index subindex first (joined chunks ++ last) a)

  -- The request behind some segments ends the upload.
  pub upload_segments-Ends :
      (fuel index subindex size : ℕ) (chunks : List (List ℕ)) (req first : Frame) (ending : Ending)
      (w : W)
      → c.node < 128
      → c.lenient_upload_expedited_only ≡ false
      → length chunks < fuel
      → sdo_expedited_upload_request c.node index subindex ≡ ok req
      → SettledBy link (object_settles c.node index subindex) w req first
      → Announces index subindex size first
      → Serves link c.node (after link w req) 0 chunks
      → let w1 = after_segments link c.node (after link w req) 0 chunks in
        let t = next_toggle 0 chunks in
        Ends link (segment_settles c.node t) w1 (upload_segment_request c.node t) ending
        → upload link c fuel index subindex w
          ≡ ended link c w1 (upload_segment_request c.node t) ending
  upload_segments-Ends fuel index subindex size chunks req first ending w small strict enough made
        settled a h ends =
      let more : ℕ = fuel - length chunks - 1 in
      let w1 = after_segments link c.node (after link w req) 0 chunks in
      upload-started fuel index subindex size (suc more) chunks req first w small strict
        (omega arith) made settled a h
      ∙ segments_end link c more (indicated first) (joined chunks) (next_toggle 0 chunks) w1 ending
          small ends
