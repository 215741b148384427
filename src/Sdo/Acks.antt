-- ===== src/Sdo/Acks.antt =====
-- The filters that the SDOClient of canopen/sdo.go hands to the mux.
use canbus.Prelude.{ℕ, Bool, true, false, ◌||◌, ◌==◌, ◌!=◌, if◌then◌else◌, ok, err}
use canbus.Frame.{Frame}
use canbus.Cob.{parse_cob_id, fc_sdo_tx}
use canbus.Sdo.{sdo_scs_abort, sdo_scs_download_initiate, sdo_cmd}
use canbus.Sdo.Segmented.{
  names, sdo_server_filter_for_node, sdo_match_abort_for, sdo_match_download_initiate_ok,
  sdo_match_download_seg_ack, sdo_match_upload_initiate, sdo_match_upload_seg,
}

-- The filter of an expedited download.
unfoldable pub expedited_ack : ℕ → ℕ → ℕ → Frame → Bool
expedited_ack node index subindex f = elim (parse_cob_id f.id) [
  | err e ↦ false
  | ok (fc, n) ↦
      if fc != fc_sdo_tx || (n != node || f.len != 8)
      then false
      else if sdo_cmd f == sdo_scs_abort
      then names index subindex f
      else if sdo_cmd f != sdo_scs_download_initiate
      then false
      else names index subindex f
]

-- The filters of the segmented initiation, of its segments, and of the two phases of an upload.
unfoldable pub initiate_ack : ℕ → ℕ → ℕ → Frame → Bool
initiate_ack node index subindex = sdo_server_filter_for_node node λ f.
    if sdo_cmd f == sdo_scs_abort
    then sdo_match_abort_for index subindex f
    else sdo_match_download_initiate_ok index subindex f

unfoldable pub segment_ack : ℕ → ℕ → Frame → Bool
segment_ack node toggle =
    sdo_server_filter_for_node node
      λ f. if sdo_cmd f == sdo_scs_abort then true else sdo_match_download_seg_ack toggle f

unfoldable pub upload_answer : ℕ → ℕ → ℕ → Frame → Bool
upload_answer node index subindex = sdo_server_filter_for_node node λ f.
    if sdo_cmd f == sdo_scs_abort
    then sdo_match_abort_for index subindex f
    else sdo_match_upload_initiate f

unfoldable pub upload_segment_answer : ℕ → ℕ → Frame → Bool
upload_segment_answer node toggle =
    sdo_server_filter_for_node node
      λ f. if sdo_cmd f == sdo_scs_abort then true else sdo_match_upload_seg toggle f
