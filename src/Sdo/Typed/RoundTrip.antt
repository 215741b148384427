-- ===== src/Sdo/Typed/RoundTrip.antt =====
-- The bytes of the typed writes and of the typed reads.
use canbus.Prelude.{ℕ, ◌^◌, ◌<◌, ◌≡◌, refl, ap, ◌∙◌, arith, List, [], ◌∷◌, byte_of, Result, ok}
use canbus.Sdo.Client.{Client, Link, Run, continue, lift}
use canbus.Sdo.Download.{download}
use canbus.Sdo.Upload.{upload}
use canbus.Sdo.Typed.{
  write_u8, write_u16, write_u32, read_u8, read_u16, read_u32, number_u8, number_u16, number_u32,
}

-- The three widths of the typed methods.
pub data Width : Type 0 where
  w8 w16 w32 : Width

abbrev pub limit : Width → ℕ
limit w8 = 2 ^ 8
limit w16 = 2 ^ 16
limit w32 = 2 ^ 32

-- A number in little-endian bytes.
abbrev pub bytes_of : Width → ℕ → List ℕ
bytes_of w8 v = v ∷ []
bytes_of w16 v = byte_of v 0 ∷ byte_of v 1 ∷ []
bytes_of w32 v = byte_of v 0 ∷ byte_of v 1 ∷ byte_of v 2 ∷ byte_of v 3 ∷ []

module _ {W : Type 0} (link : Link W) (c : Client) where
  number_u16-byte_of :
      (v : ℕ) → v < 2 ^ 16 → number_u16 link c (byte_of v 0 ∷ byte_of v 1 ∷ []) ≡ ok v
  number_u16-byte_of v h = ground arith

  number_u32-byte_of :
      (v : ℕ)
      → v < 2 ^ 32
      → number_u32 link c (byte_of v 0 ∷ byte_of v 1 ∷ byte_of v 2 ∷ byte_of v 3 ∷ []) ≡ ok v
  number_u32-byte_of v h = ground arith

  abbrev pub write : Width → ℕ → ℕ → ℕ → Run W (Unit {0})
  write w8 = write_u8 link c
  write w16 = write_u16 link c
  write w32 = write_u32 link c

  abbrev pub read : Width → ℕ → ℕ → ℕ → Run W ℕ
  read w8 = read_u8 link c
  read w16 = read_u16 link c
  read w32 = read_u32 link c

  -- The write of a number of each width is the download of its bytes, the lowest first, and where
  -- an upload returns these bytes the read of that width returns the number, by a lenient client
  -- and by any other.
  pub read-write :
      (width : Width) (fuel index subindex value : ℕ) (w v : W)
      → value < limit width
      → upload link c fuel index subindex w ≡ (v, ok (bytes_of width value))
      → (write width index subindex value ≡ download link c index subindex (bytes_of width value))
        × (read width fuel index subindex w ≡ (v, ok value))
  unfolding write_u8 write_u16 write_u32 read_u8 read_u16 read_u32
  read-write w8 fuel index subindex value w v h e =
      (refl, ap (continue (λ (s : List ℕ). lift (number_u8 link c s))) e)
  read-write w16 fuel index subindex value w v h e = (
    refl,
    ap (continue (λ (s : List ℕ). lift (number_u16 link c s))) e
        ∙ ap (λ (r : Result ℕ). (v, r)) (number_u16-byte_of value h),
  )
  read-write w32 fuel index subindex value w v h e = (
    refl,
    ap (continue (λ (s : List ℕ). lift (number_u32 link c s))) e
        ∙ ap (λ (r : Result ℕ). (v, r)) (number_u32-byte_of value h),
  )
