-- ===== src/Sdo/Typed/Transfer.antt =====
-- A number written to a device and read back from it.
use canbus.Prelude.{
  ℕ, ◌<◌, ◌≤◌, ◌≡◌, refl, sym, ap, ◌∙◌, arith, true, none, [], ◌∷◌, length, IsU16, Result, ok,
  ◌>>=◌,
}
use canbus.Frame.{Frame}
use canbus.Cob.{validate_node}
use canbus.Cob.Laws.{validate_node_bounds}
use canbus.Sdo.Expedited.{
  Expedited, sdo_expedited_download, sdo_expedited_upload_request, parse_sdo_expedited_download,
}
use canbus.Sdo.Expedited.RoundTrip.{read_as, parse-download}
use canbus.Sdo.Client.{Client, Link, Run, spec}
use canbus.Sdo.Exchange.Response.{after}
use canbus.Sdo.Exchange.Ending.{SettledBy}
use canbus.Sdo.Download.{expedited_request, download}
use canbus.Sdo.Download.Script.{acknowledges, settles, script}
use canbus.Sdo.Download.Acknowledged.{download-Acknowledged}
use canbus.Sdo.Upload.Chunks.{object_settles}
use canbus.Sdo.Upload.Immediate.{Carries, upload-Carries}
use canbus.Sdo.Typed.{write_u8, write_u16, write_u32}
use canbus.Sdo.Typed.RoundTrip.{Width, w8, w16, w32, limit, bytes_of, write, read, read-write}

length-bytes_of : (width : Width) (v : ℕ) → length (bytes_of width v) ≤ 4
length-bytes_of w8 v = omega arith
length-bytes_of w16 v = omega arith
length-bytes_of w32 v = omega arith

read_as-bytes_of : (width : Width) (v : ℕ) → read_as (bytes_of width v) ≡ bytes_of width v
read_as-bytes_of w8 v = refl
read_as-bytes_of w16 v = refl
read_as-bytes_of w32 v = refl

-- What the device reads from the request, it carries in its answer to an upload.
abbrev pub GivesBack : Frame → Frame → Type 0
GivesBack req answer =
    (x : Expedited)
    → parse_sdo_expedited_download req ≡ ok x
    → Carries x.index x.subindex x.bytes answer

module _ {W : Type 0} (link : Link W) (c : Client) where
  request_read :
      (width : Width) (index subindex value : ℕ) (req : Frame)
      → validate_node c.node ≡ none
      → IsU16 index
      → c.expedited_mode ≡ spec
      → expedited_request link c index subindex (bytes_of width value) ≡ ok req
      → parse_sdo_expedited_download req
        ≡ ok (record {
          node = c.node;
          index = index;
          subindex = subindex;
          bytes = bytes_of width value;
        })
  unfolding expedited_request
  request_read width index subindex value req v fits mode made =
      let bytes = bytes_of width value in
      let e : sdo_expedited_download c.node index subindex bytes ≡ ok req =
        rw (mode, expedited_request) at made in
      ap (λ (r : Result Frame). r >>= parse_sdo_expedited_download) (sym e)
      ∙ parse-download c.node index subindex bytes v fits (length-bytes_of width value)
      ∙ rw (read_as-bytes_of width value) refl

  write-download :
      (width : Width) (index subindex value : ℕ)
      → write link c width index subindex value
        ≡ download link c index subindex (bytes_of width value)
  unfolding write_u8 write_u16 write_u32
  write-download w8 index subindex value = refl
  write-download w16 index subindex value = refl
  write-download w32 index subindex value = refl

  script-bytes_of :
      (width : Width) (index subindex value : ℕ) (req : Frame)
      → expedited_request link c index subindex (bytes_of width value) ≡ ok req
      → script link c index subindex (bytes_of width value) ≡ ok (req ∷ [])
  unfolding script
  script-bytes_of w8 index subindex value req e = rw e refl
  script-bytes_of w16 index subindex value req e = rw e refl
  script-bytes_of w32 index subindex value req e = rw e refl

  -- A number of 8, 16 or 32 bits that a client in the spec encoding writes to a device that
  -- acknowledges the request, and then carries in its answer to the upload what the package's own
  -- parser reads from that request, is the number that the read of the same width returns, for a
  -- lenient client and for any other, whatever other frames the bus carries.
  pub read-write_device :
      (width : Width) (fuel index subindex value : ℕ) (w : W) (req ack asked answer : Frame)
      → validate_node c.node ≡ none
      → IsU16 index
      → c.expedited_mode ≡ spec
      → value < limit width
      → expedited_request link c index subindex (bytes_of width value) ≡ ok req
      → SettledBy link (settles c.node req) w req ack
      → acknowledges req ack ≡ true
      → sdo_expedited_upload_request c.node index subindex ≡ ok asked
      → SettledBy link (object_settles c.node index subindex) (after link w req) asked answer
      → GivesBack req answer
      → let w1 = after link w req in
        (write link c width index subindex value w ≡ (w1, ok tt))
        × (read link c width fuel index subindex w1 ≡ (after link w1 asked, ok value))
  read-write_device width fuel index subindex value w req ack asked answer v fits mode small made
        settled acked made' settled' back =
      let node = validate_node_bounds c.node v in
      let w1 = after link w req in
      let bytes = bytes_of width value in
      let carried = back _ (request_read width index subindex value req v fits mode made) in
      (
        ap (λ (m : Run W (Unit {0})). m w) (write-download width index subindex value)
            ∙ download-Acknowledged link c index subindex bytes (req ∷ []) w (omega arith) fits
                (script-bytes_of width index subindex value req made) (ack, settled, acked, tt),
        (read-write link c width fuel index subindex value w1 (after link w1 asked) small (
            upload-Carries link c fuel index subindex bytes asked answer w1 (omega arith) made'
              settled' carried)).1,
      )
