-- ===== src/Sdo/Expedited.antt =====
-- The expedited frames of canopen/sdo.go.
pub mod RoundTrip
pub mod Names
use canbus.Prelude.{
  ℕ, ◌+◌, ◌-◌, ◌*◌, ◌^◌, ◌<◌, bit_and, bit_or, ◌<<<◌, Bool, not, ◌&&◌, ◌||◌, List, [], length, take,
  drop, ltb, ◌==◌, ◌!=◌, u8, byte_of, Error, Result, ok, err, ◌>>=◌, ◌>>◌, refuse, check,
  expedited_size, classic_size, not_sdo, sdo_len, not_initiate, not_expedited, not_upload,
}
use canbus.Frame.{Frame, zero_frame}
use canbus.Frame.Payload.{Bytes8, zeros, to_list, copy_at}
use canbus.Cob.{cob_id, parse_cob_id, validate_node, fc_sdo_rx, fc_sdo_tx}
use canbus.Sdo.{
  sdo_ccs_download_initiate, sdo_ccs_upload_initiate, sdo_scs_upload_initiate, specifier, index_of,
  subindex_of,
}

-- Bytes 0 to 3 of a request or of a response that names an object.
abbrev pub head : ℕ → ℕ → ℕ → Bytes8
head cmd index subindex = record zeros {
  b0 = cmd;
  b1 = byte_of index 0;
  b2 = byte_of index 1;
  b3 = subindex;
}

-- A frame of 8 bytes from the client to the node.
abbrev pub request : ℕ → Bytes8 → Frame
request target payload = record zero_frame {
  id = cob_id fc_sdo_rx target;
  len = 8;
  payload = payload;
}

-- The command byte of sdoExpeditedDownload, for `size` bytes of data.
spec_command : ℕ → ℕ
spec_command size =
    let n = u8 (4 - size) in
    let cmd = bit_or (bit_or (bit_or 0 (sdo_ccs_download_initiate <<< 5)) (1 <<< 3)) (1 <<< 2) in
    bit_or cmd (bit_and n 3)

-- `sdoExpeditedDownload(target, index, subindex, data)`
unfoldable pub sdo_expedited_download : ℕ → ℕ → ℕ → List ℕ → Result Frame
unfolding spec_command
sdo_expedited_download target index subindex bytes = do
  check (validate_node target)
  refuse (ltb 4 (length bytes)) (expedited_size (length bytes))
  ok (request target (copy_at 4 bytes (head (spec_command (length bytes)) index subindex)))

-- The command byte of sdoExpeditedDownloadClassic.
classic_command : ℕ → ℕ
classic_command size = u8 (0x23 + ((4 - u8 size) <<< 2))

-- `sdoExpeditedDownloadClassic(target, index, subindex, data)`
unfoldable pub sdo_expedited_download_classic : ℕ → ℕ → ℕ → List ℕ → Result Frame
unfolding classic_command
sdo_expedited_download_classic target index subindex bytes = do
  check (validate_node target)
  refuse (length bytes == 0 || ltb 4 (length bytes)) (classic_size (length bytes))
  ok (request target (copy_at 4 bytes (head (classic_command (length bytes)) index subindex)))

-- The object and the bytes that an expedited frame names.
pub record Expedited : Type 0 where
  pub node : ℕ
  pub index : ℕ
  pub subindex : ℕ
  pub bytes : List ℕ

-- The end of both parsers: the e and s bits, the size and the bytes.
abbrev parse_body : ℕ → Frame → Result Expedited
parse_body node f =
    let cmd = f.payload.b0 in
    let expedited = bit_and cmd (1 <<< 3) != 0 in
    let size_indicated = bit_and cmd (1 <<< 2) != 0 in
    let size = 4 - bit_and cmd 3 in
    do
      refuse (not expedited || not size_indicated) (not_expedited cmd)
      ok (record {
        node = node;
        index = index_of f;
        subindex = subindex_of f;
        bytes = take size (drop 4 (to_list f.payload));
      })

-- `parseSDOExpeditedDownload(f)`; its test of `n` against 0 and 3 cannot fail.
unfoldable pub parse_sdo_expedited_download : Frame → Result Expedited
parse_sdo_expedited_download f = do
  (fc, node) ← parse_cob_id f.id
  refuse (fc != fc_sdo_rx) (not_sdo f.id)
  refuse (f.len != 8) (sdo_len f.len)
  refuse (specifier f.payload.b0 != sdo_ccs_download_initiate) (not_initiate f.payload.b0)
  parse_body node f

-- `sdoExpeditedUploadRequest(target, index, subindex)`
unfoldable pub sdo_expedited_upload_request : ℕ → ℕ → ℕ → Result Frame
sdo_expedited_upload_request target index subindex = do
  check (validate_node target)
  ok (request target (head (bit_or 0 (sdo_ccs_upload_initiate <<< 5)) index subindex))

-- `parseSDOExpeditedUploadResponse(f)`
unfoldable pub parse_sdo_expedited_upload_response : Frame → Result Expedited
parse_sdo_expedited_upload_response f = do
  (fc, node) ← parse_cob_id f.id
  refuse (fc != fc_sdo_tx) (not_sdo f.id)
  refuse (f.len != 8) (sdo_len f.len)
  refuse (specifier f.payload.b0 != sdo_scs_upload_initiate) (not_upload f.payload.b0)
  parse_body node f
