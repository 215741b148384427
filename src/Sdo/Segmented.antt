-- ===== src/Sdo/Segmented.antt =====
-- canopen/sdo_segmented.go but for its waits, canopen/sdo_abort.go, and the segment request of
-- Upload.
pub mod RoundTrip
use canbus.Prelude.{
  ℕ, ◌+◌, ◌-◌, ◌*◌, ◌/◌, ◌^◌, ◌<◌, bit_and, bit_or, ◌<<<◌, ◌>>>◌, Bool, true, false, ◌&&◌, ◌||◌,
  Option, none, some, List, [], length, take, drop, ltb, ◌==◌, ◌!=◌, if◌then◌else◌, u8, uint16,
  uint32, byte_of, Error, Result, ok, err, ◌>>=◌, ◌>>◌, refuse, segment_len,
}
use canbus.Frame.{Frame, zero_frame}
use canbus.Frame.Payload.{Bytes8, zeros, to_list, copy_at}
use canbus.Cob.{cob_id, parse_cob_id, fc_sdo_rx, fc_sdo_tx}
use canbus.Sdo.{
  sdo_ccs_download_initiate, sdo_ccs_download_segment, sdo_scs_download_initiate,
  sdo_scs_download_segment, sdo_ccs_upload_segment, sdo_scs_upload_initiate, sdo_scs_upload_segment,
  sdo_scs_abort, specifier, sdo_cmd, index_of, subindex_of,
}
use canbus.Sdo.Expedited.{request}

-- `buildSDODownloadInitiateSegmented(node, index, subindex, total)`
unfoldable pub build_sdo_download_initiate_segmented : ℕ → ℕ → ℕ → ℕ → Frame
build_sdo_download_initiate_segmented node index subindex total = request node (record {
  b0 = bit_or (u8 (sdo_ccs_download_initiate <<< 5)) (1 <<< 2);
  b1 = byte_of index 0;
  b2 = byte_of index 1;
  b3 = subindex;
  b4 = byte_of total 0;
  b5 = byte_of total 1;
  b6 = byte_of total 2;
  b7 = byte_of total 3;
})

-- The command byte of a download segment of `size` bytes.
segment_command : ℕ → ℕ → Bool → ℕ
segment_command size toggle last =
    let cmd = u8 (sdo_ccs_download_segment <<< 5) in
    let cmd = if bit_and toggle 1 == 1 then bit_or cmd (1 <<< 4) else cmd in
    let n = u8 (7 - size) in if last then bit_or (bit_or cmd 1) (bit_and n 7 <<< 1) else cmd

-- `buildSDODownloadSegment(node, payload, toggle, last)`, for at most 7 bytes.
unfoldable pub build_sdo_download_segment : ℕ → List ℕ → ℕ → Bool → Frame
unfolding segment_command
build_sdo_download_segment node bytes toggle last =
    request node
      (copy_at 1 bytes (record zeros { b0 = segment_command (length bytes) toggle last }))

-- The segment request that Upload sends.
unfoldable pub upload_segment_request : ℕ → ℕ → Frame
upload_segment_request node toggle =
    let cmd = u8 (sdo_ccs_upload_segment <<< 5) in
    request node (record zeros { b0 = if bit_and toggle 1 == 1 then bit_or cmd (1 <<< 4) else cmd })

-- `sdoServerFilterForNode(node, match)`
unfoldable pub sdo_server_filter_for_node : ℕ → (Frame → Bool) → Frame → Bool
sdo_server_filter_for_node node match f = elim (parse_cob_id f.id) [
  | err e ↦ false
  | ok (fc, n) ↦ if fc != fc_sdo_tx || (n != node || f.len != 8) then false else match f
]

-- `idx == index && sub == subindex`
abbrev pub names : ℕ → ℕ → Frame → Bool
names index subindex f = index_of f == index && subindex_of f == subindex

-- `sdoMatchAbortFor(index, subindex)`
unfoldable pub sdo_match_abort_for : ℕ → ℕ → Frame → Bool
sdo_match_abort_for index subindex f =
    if sdo_cmd f != sdo_scs_abort then false else names index subindex f

-- `sdoMatchDownloadInitiateOK(index, subindex)`
unfoldable pub sdo_match_download_initiate_ok : ℕ → ℕ → Frame → Bool
sdo_match_download_initiate_ok index subindex f =
    if sdo_cmd f != sdo_scs_download_initiate then false else names index subindex f

-- `(f.Data[0] >> 4) & 0x1 == toggle & 0x1`
abbrev pub same_toggle : ℕ → Frame → Bool
same_toggle toggle f = bit_and (f.payload.b0 >>> 4) 1 == bit_and toggle 1

-- `sdoMatchDownloadSegAck(toggle)`
unfoldable pub sdo_match_download_seg_ack : ℕ → Frame → Bool
sdo_match_download_seg_ack toggle f =
    if sdo_cmd f != sdo_scs_download_segment then false else same_toggle toggle f

-- `sdoMatchUploadInitiate()`
unfoldable pub sdo_match_upload_initiate : Frame → Bool
sdo_match_upload_initiate f = sdo_cmd f == sdo_scs_upload_initiate

-- `sdoMatchUploadSeg(toggle)`
unfoldable pub sdo_match_upload_seg : ℕ → Frame → Bool
sdo_match_upload_seg toggle f =
    if sdo_cmd f != sdo_scs_upload_segment then false else same_toggle toggle f

-- `parseSDOUploadSegmentData(f)`: the bytes, and whether the segment is the last.
unfoldable pub parse_sdo_upload_segment_data : Frame → Result (List ℕ × Bool)
parse_sdo_upload_segment_data f =
    let c_flag = bit_and f.payload.b0 1 != 0 in
    let n = bit_and (f.payload.b0 >>> 1) 7 in
    let end = if c_flag then 8 - n else 8 in
    if ltb end 1 || ltb 8 end
    then err segment_len
    else ok (drop 1 (take end (to_list f.payload)), c_flag)

-- `SDOAbort`
pub record SdoAbort : Type 0 where
  pub index : ℕ
  pub subindex : ℕ
  pub code : ℕ

-- `parseSDOAbort(f)`, where `none` is the flag `false`.
unfoldable pub parse_sdo_abort : Frame → Option (ℕ × SdoAbort)
parse_sdo_abort f =
    let ab : SdoAbort = record {
      index = index_of f;
      subindex = subindex_of f;
      code = uint32 f.payload.b4 f.payload.b5 f.payload.b6 f.payload.b7;
    } in
    elim (parse_cob_id f.id) [
      | err e ↦ none
      | ok (fc, node) ↦
          if fc != fc_sdo_tx || f.len != 8
          then none
          else if specifier f.payload.b0 != sdo_scs_abort
          then none
          else some (node, ab)
    ]
