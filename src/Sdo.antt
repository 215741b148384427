-- ===== src/Sdo.antt =====
-- canopen/sdo.go, sdo_segmented.go and sdo_abort.go: the frames of the SDO protocol. The children
-- are the expedited and the segmented frames, the aborts, the filters, and the client over a bus.
pub mod Expedited
pub mod Segmented
pub mod Acks
pub mod Abort
pub mod Client
pub mod Exchange
pub mod Download
pub mod Upload
pub mod Typed
use canbus.Prelude.{ℕ, ◌*◌, ◌/◌, ◌^◌, bit_and, ◌>>>◌, uint16}
use canbus.Frame.{Frame}

-- The command specifiers, of bits 7 to 5 of the command byte.
abbrev pub sdo_ccs_download_initiate : ℕ
sdo_ccs_download_initiate = 1

abbrev pub sdo_ccs_upload_initiate : ℕ
sdo_ccs_upload_initiate = 2

abbrev pub sdo_scs_download_initiate : ℕ
sdo_scs_download_initiate = 3

abbrev pub sdo_scs_upload_initiate : ℕ
sdo_scs_upload_initiate = 2

abbrev pub sdo_ccs_download_segment : ℕ
sdo_ccs_download_segment = 0

abbrev pub sdo_scs_download_segment : ℕ
sdo_scs_download_segment = 1

abbrev pub sdo_ccs_upload_segment : ℕ
sdo_ccs_upload_segment = 3

abbrev pub sdo_scs_upload_segment : ℕ
sdo_scs_upload_segment = 0

abbrev pub sdo_scs_abort : ℕ
sdo_scs_abort = 4

-- `(cmd >> 5) & 0x7` of a command byte, and `sdoCmd(f)`.
abbrev pub specifier : ℕ → ℕ
specifier cmd = bit_and (cmd >>> 5) 7

unfoldable pub sdo_cmd : Frame → ℕ
sdo_cmd f = specifier f.payload.b0

-- `binary.LittleEndian.Uint16(f.Data[1:3])`
abbrev pub index_of : Frame → ℕ
index_of f = uint16 f.payload.b1 f.payload.b2

-- `f.Data[3]`
abbrev pub subindex_of : Frame → ℕ
subindex_of f = f.payload.b3
