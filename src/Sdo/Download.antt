-- ===== src/Sdo/Download.antt =====
-- Download of canopen/sdo.go, expedited and segmented.
pub mod Wire
pub mod Total
pub mod Script
pub mod Acknowledged
pub mod Sendable
use canbus.Prelude.{
  ℕ, zero, suc, ◌-◌, ◌*◌, ◌/◌, ◌^◌, ◌<◌, bit_and, bit_xor, ◌<<<◌, ◌>>>◌, Bool, true, false, not,
  ◌&&◌, ◌||◌, Option, none, some, List, [], ◌∷◌, ◌++◌, length, take, drop, get_or, ltb, leb, ◌==◌,
  ◌!=◌, if◌then◌else◌, byte_of, u32, uint16, uint32, Error, Result, ok, err, refuse, closed, abort,
  forever, stuck, unexpected_response, unexpected_expedited, index_mismatch, size_mismatch,
  read_size,
}
use canbus.Frame.{Frame}
use canbus.Sdo.Expedited.{sdo_expedited_download, sdo_expedited_download_classic}
use canbus.Sdo.Segmented.{build_sdo_download_initiate_segmented, build_sdo_download_segment}
use canbus.Sdo.Acks.{expedited_ack, initiate_ack, segment_ack}
use canbus.Sdo.Client.{spec, classic, Client, Link, Run, ◌>>=◌, ◌>>◌, lift, answered}

module _ {W : Type 0} (link : Link W) (c : Client) where
  -- `Download` of at most 4 bytes.
  unfoldable pub expedited_request : ℕ → ℕ → List ℕ → Result Frame
  expedited_request index subindex bytes = elim c.expedited_mode [
    | classic ↦ sdo_expedited_download_classic c.node index subindex bytes
    | spec ↦ sdo_expedited_download c.node index subindex bytes
  ]

  unfoldable pub download_expedited : ℕ → ℕ → List ℕ → Run W (Unit {0})
  unfolding expedited_request
  download_expedited index subindex bytes = do
    req ← lift (expedited_request index subindex bytes)
    rsp ← answered link c (expedited_ack c.node index subindex) 1 req
    lift (ok tt)

  -- The loop over the segments: `bytes` is `data[sent:]`, and each round takes at least one byte
  -- off.
  unfoldable pub download_segments : ℕ → List ℕ → ℕ → Run W (Unit {0})
  download_segments fuel [] toggle = lift (ok tt)
  download_segments zero (b ∷ bs) toggle = lift (err stuck)
  download_segments (suc fuel) (b ∷ bs) toggle =
      let bytes = b ∷ bs in
      let seg_len = if ltb (length bytes) 7 then length bytes else 7 in
      let last = seg_len == length bytes in
      let seg = build_sdo_download_segment c.node (take seg_len bytes) toggle last in
      do
        rsp ← answered link c (segment_ack c.node toggle) 1 seg
        download_segments fuel (drop seg_len bytes) (bit_xor toggle 1)

  unfoldable pub download_segmented : ℕ → ℕ → List ℕ → Run W (Unit {0})
  unfolding download_segments
  download_segmented index subindex bytes = do
    let init = build_sdo_download_initiate_segmented c.node index subindex (u32 (length bytes))
    rsp ← answered link c (initiate_ack c.node index subindex) 1 init
    download_segments (length bytes) bytes 0

  -- `c.Download(index, subindex, data)`
  unfoldable pub download : ℕ → ℕ → List ℕ → Run W (Unit {0})
  unfolding download_expedited download_segmented
  download index subindex bytes =
      if leb (length bytes) 4
      then download_expedited index subindex bytes
      else download_segmented index subindex bytes
