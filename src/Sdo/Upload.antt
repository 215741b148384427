-- ===== src/Sdo/Upload.antt =====
-- Upload of canopen/sdo.go, expedited, lenient and segmented.
pub mod Chunks
pub mod Served
pub mod Immediate
pub mod Stages
use canbus.Prelude.{
  ℕ, zero, suc, bit_and, bit_xor, ◌<<<◌, true, false, not, ◌&&◌, Option, none, some, List, [], ◌++◌,
  length, drop, ◌==◌, ◌!=◌, if◌then◌else◌, uint32, Result, ok, err, refuse, abort, stuck,
  unexpected_response, unexpected_expedited, index_mismatch, size_mismatch,
}
use canbus.Frame.{Frame}
use canbus.Frame.Payload.{to_list}
use canbus.Sdo.{sdo_scs_upload_initiate, specifier}
use canbus.Sdo.Expedited.{
  Expedited, sdo_expedited_upload_request, parse_sdo_expedited_upload_response,
}
use canbus.Sdo.Segmented.{
  upload_segment_request, names, parse_sdo_upload_segment_data, SdoAbort, parse_sdo_abort,
}
use canbus.Sdo.Acks.{upload_answer, upload_segment_answer}
use canbus.Sdo.Client.{Client, Link, Run, ◌>>=◌, ◌>>◌, lift, exchange, answered}

-- The size that the first response indicated, against the bytes that were read.
abbrev pub check_total : Option ℕ → List ℕ → Result (List ℕ)
check_total none out = ok out
check_total (some total) out =
    if length out != total then err (size_mismatch (length out) total) else ok out

module _ {W : Type 0} (link : Link W) (c : Client) where
  -- The loop over the segments of an upload; `out` is what was read, `total` the size if indicated.
  unfoldable pub upload_segments : ℕ → Option ℕ → List ℕ → ℕ → Run W (List ℕ)
  upload_segments zero total out toggle = lift (err stuck)
  upload_segments (suc fuel) total out toggle = do
    rsp ←
        answered link c (upload_segment_answer c.node toggle) 1
          (upload_segment_request c.node toggle)
    (segment, last) ← lift (parse_sdo_upload_segment_data rsp)
    let all = out ++ segment
    let more = upload_segments fuel total all (bit_xor toggle 1)
    elim last [ true ↦ lift (check_total total all) | false ↦ more ]

  -- From the checks for a segmented transfer on.
  unfoldable pub upload_segmented : ℕ → ℕ → ℕ → Frame → Run W (List ℕ)
  upload_segmented fuel index subindex first =
      let cmd = first.payload.b0 in
      let size = uint32 first.payload.b4 first.payload.b5 first.payload.b6 first.payload.b7 in
      let total = if bit_and cmd (1 <<< 2) != 0 then some size else none in
      do
        lift (refuse (specifier cmd != sdo_scs_upload_initiate) (unexpected_response cmd))
        lift (refuse (bit_and cmd (1 <<< 3) != 0) unexpected_expedited)
        lift (refuse (not (names index subindex first)) index_mismatch)
        upload_segments fuel total [] 0

  -- The lenient mode takes bytes 4 to 7 of any upload response for the object.
  unfoldable pub upload_lenient : ℕ → ℕ → ℕ → Frame → Run W (List ℕ)
  unfolding upload_segmented
  upload_lenient fuel index subindex first =
      if c.lenient_upload_expedited_only
        && (specifier first.payload.b0 == sdo_scs_upload_initiate && names index subindex first)
      then lift (ok (drop 4 (to_list first.payload)))
      else upload_segmented fuel index subindex first

  -- What follows the expedited parse of the first response.
  unfoldable pub upload_parsed : ℕ → ℕ → ℕ → Frame → Result Expedited → Run W (List ℕ)
  unfolding upload_lenient
  upload_parsed fuel index subindex first (err e) = upload_lenient fuel index subindex first
  upload_parsed fuel index subindex first (ok x) =
      if x.index == index && x.subindex == subindex
      then lift (ok x.bytes)
      else upload_lenient fuel index subindex first

  -- What follows the look for an abort in the first response.
  unfoldable pub upload_first : ℕ → ℕ → ℕ → Frame → Option (ℕ × SdoAbort) → Run W (List ℕ)
  unfolding upload_parsed
  upload_first fuel index subindex first none =
      upload_parsed fuel index subindex first (parse_sdo_expedited_upload_response first)
  upload_first fuel index subindex first (some (node, ab)) =
      if ab.index == index && ab.subindex == subindex
      then lift (err (abort ab.index ab.subindex ab.code))
      else upload_parsed fuel index subindex first (parse_sdo_expedited_upload_response first)

  -- `c.Upload(index, subindex)`. The source bounds its loop by nothing but the device: `fuel`
  -- bounds the segments that the model reads.
  unfoldable pub upload : ℕ → ℕ → ℕ → Run W (List ℕ)
  unfolding upload_first upload_segments
  upload fuel index subindex = do
    req ← lift (sdo_expedited_upload_request c.node index subindex)
    first ← exchange link c (upload_answer c.node index subindex) 2 req
    upload_first fuel index subindex first (parse_sdo_abort first)
