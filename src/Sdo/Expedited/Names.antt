-- ===== src/Sdo/Expedited/Names.antt =====
-- The requests that name an object: the expedited downloads in both encodings.
use canbus.Prelude.{
  ℕ, zero, suc, ◌≤◌, ◌≡◌, refl, arith, Bool, true, false, ◌||◌, Option, none, some, List, length,
  ◌==◌, ltb, IsU8, IsU16, Error, Result, ok, ◌>>◌, check, refuse, expedited_size, classic_size,
}
use mathlib.Core.Path.{subst}
use canbus.Frame.{Frame}
use canbus.Frame.Payload.{copy_at}
use canbus.Cob.{validate_node}
use canbus.Sdo.{specifier, index_of, subindex_of}
use canbus.Sdo.Expedited.{
  head, request, spec_command, classic_command, sdo_expedited_download,
  sdo_expedited_download_classic,
}

-- The specifier of an initiation, and the object.
abbrev pub Names : ℕ → ℕ → Frame → Type 0
Names index subindex req =
    (specifier req.payload.b0 ≡ 1) × (index_of req ≡ index) × (subindex_of req ≡ subindex)

-- A command byte of an initiation.
abbrev pub IsCommand : ℕ → Type 0
IsCommand cmd = (specifier cmd ≡ 1) × IsU8 cmd

-- What a request that was made had passed.
made :
    (v : Option Error) (refused : Bool) (x : Error) (f req : Frame)
    → (check v >> (refuse refused x >> ok f)) ≡ ok req
    → (refused ≡ false) × (f ≡ req)
made none false x f req e =
    let same : ◌≡◌ {A = Result Frame} (ok f) (ok req) = e in (refl, cc (same))
made none true x f req e = absurd (ground arith)
made (some y) refused x f req e = absurd (ground arith)

spec_command-IsCommand : (size : ℕ) → size ≤ 4 → IsCommand (spec_command size)
unfolding spec_command
spec_command-IsCommand zero h = (refl, omega arith)
spec_command-IsCommand (suc zero) h = (refl, omega arith)
spec_command-IsCommand (suc (suc zero)) h = (refl, omega arith)
spec_command-IsCommand (suc (suc (suc zero))) h = (refl, omega arith)
spec_command-IsCommand (suc (suc (suc (suc zero)))) h = (refl, omega arith)
spec_command-IsCommand (suc (suc (suc (suc (suc n))))) h = absurd (omega arith)

classic_command-IsCommand : (size : ℕ) → size ≤ 4 → IsCommand (classic_command size)
unfolding classic_command
classic_command-IsCommand zero h = (refl, omega arith)
classic_command-IsCommand (suc zero) h = (refl, omega arith)
classic_command-IsCommand (suc (suc zero)) h = (refl, omega arith)
classic_command-IsCommand (suc (suc (suc zero))) h = (refl, omega arith)
classic_command-IsCommand (suc (suc (suc (suc zero)))) h = (refl, omega arith)
classic_command-IsCommand (suc (suc (suc (suc (suc n))))) h = absurd (omega arith)

-- An expedited download of the bytes to the object, under some command byte.
abbrev pub Requests : ℕ → ℕ → ℕ → List ℕ → Frame → Type 0
Requests node index subindex bytes req =
    (cmd : ℕ) × IsCommand cmd × (request node (copy_at 4 bytes (head cmd index subindex)) ≡ req)

pub spec-Requests :
    (node index subindex : ℕ) (bytes : List ℕ) (req : Frame)
    → sdo_expedited_download node index subindex bytes ≡ ok req
    → Requests node index subindex bytes req
unfolding sdo_expedited_download
spec-Requests node index subindex bytes req e =
    let n = length bytes in
    let cmd : ℕ = spec_command n in
    let f : Frame = request node (copy_at 4 bytes (head cmd index subindex)) in
    let (small, same) = made (validate_node node) (ltb 4 n) (expedited_size n) f req e in
    (cmd, spec_command-IsCommand n (ground arith), same)

pub classic-Requests :
    (node index subindex : ℕ) (bytes : List ℕ) (req : Frame)
    → sdo_expedited_download_classic node index subindex bytes ≡ ok req
    → Requests node index subindex bytes req
unfolding sdo_expedited_download_classic
classic-Requests node index subindex bytes req e =
    let n = length bytes in
    let cmd : ℕ = classic_command n in
    let f : Frame = request node (copy_at 4 bytes (head cmd index subindex)) in
    let (small, same) = made (validate_node node) (n == 0 || ltb 4 n) (classic_size n) f req e in
    (cmd, classic_command-IsCommand n (ground arith), same)

pub Requests-Names :
    (node index subindex : ℕ) (bytes : List ℕ) (req : Frame)
    → IsU16 index
    → Requests node index subindex bytes req
    → Names index subindex req
Requests-Names node index subindex bytes req fits (cmd, (s, small), same) =
    subst (Names index subindex) same (s, omega arith, refl)
