-- ===== src/Sdo/Typed.antt =====
-- The typed reads and writes of canopen/sdo.go.
pub mod RoundTrip
pub mod Transfer
use canbus.Prelude.{
  ℕ, Bool, List, [], ◌∷◌, length, get_or, ltb, ◌!=◌, if◌then◌else◌, byte_of, uint16, uint32, Result,
  ok, err, read_size,
}
use canbus.Sdo.Client.{Client, Link, Run, ◌>>=◌, lift}
use canbus.Sdo.Download.{download}
use canbus.Sdo.Upload.{upload}

module _ {W : Type 0} (link : Link W) (c : Client) where
  -- `WriteU8`, `WriteU16` and `WriteU32`.
  unfoldable pub write_u8 : ℕ → ℕ → ℕ → Run W (Unit {0})
  write_u8 index subindex value = download link c index subindex (value ∷ [])

  unfoldable pub write_u16 : ℕ → ℕ → ℕ → Run W (Unit {0})
  write_u16 index subindex value =
      download link c index subindex (byte_of value 0 ∷ byte_of value 1 ∷ [])

  unfoldable pub write_u32 : ℕ → ℕ → ℕ → Run W (Unit {0})
  write_u32 index subindex value =
      download link c index subindex
        (byte_of value 0 ∷ byte_of value 1 ∷ byte_of value 2 ∷ byte_of value 3 ∷ [])

  -- The number that `ReadU8`, `ReadU16` and `ReadU32` make of the bytes of an upload.
  abbrev pub number_u8 : List ℕ → Result ℕ
  number_u8 [] = err (read_size 0)
  number_u8 (b ∷ bs) = ok b

  abbrev pub wrong_size : ℕ → List ℕ → Bool
  wrong_size want bytes =
      if c.lenient_upload_expedited_only then ltb (length bytes) want else length bytes != want

  abbrev pub number_u16 : List ℕ → Result ℕ
  number_u16 bytes =
      if wrong_size 2 bytes
      then err (read_size (length bytes))
      else ok (uint16 (get_or bytes 0 0) (get_or bytes 1 0))

  abbrev pub number_u32 : List ℕ → Result ℕ
  number_u32 bytes =
      if wrong_size 4 bytes
      then err (read_size (length bytes))
      else ok (uint32 (get_or bytes 0 0) (get_or bytes 1 0) (get_or bytes 2 0) (get_or bytes 3 0))

  unfoldable pub read_u8 : ℕ → ℕ → ℕ → Run W ℕ
  read_u8 fuel index subindex = do bytes ← upload link c fuel index subindex; lift (number_u8 bytes)

  unfoldable pub read_u16 : ℕ → ℕ → ℕ → Run W ℕ
  read_u16 fuel index subindex = do
    bytes ← upload link c fuel index subindex
    lift (number_u16 bytes)

  unfoldable pub read_u32 : ℕ → ℕ → ℕ → Run W ℕ
  read_u32 fuel index subindex = do
    bytes ← upload link c fuel index subindex
    lift (number_u32 bytes)
