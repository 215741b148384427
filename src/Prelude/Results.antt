-- ===== src/Prelude/Results.antt =====
-- Go's errors as values. An `fmt.Errorf` error keeps the numbers that its text shows; the texts
-- are not modelled.
use mathlib.Core.Option.{Option, none, some}
use mathlib.Core.Bool.{Bool, true, false}
use Prim.Native.Nat.{ℕ}
use mathlib.Core.Path.{◌≡◌, refl}
use mathlib.Core.Logic.{◌⊎◌, inl, inr}

pub data Error : Type 0 where
  -- The sentinel errors of frame.go and bus.go.
  invalid_id invalid_len closed : Error
  -- frame.go
  short_buffer : ℕ → Error
  -- canopen/ids.go
  invalid_node not_standard not_in_ranges : ℕ → Error
  -- canopen/nmt.go, heartbeat.go, emcy.go, sync.go
  not_nmt nmt_short not_heartbeat heartbeat_short not_emcy emcy_short : ℕ → Error
  not_sync sync_len : ℕ → Error
  -- canopen/sdo.go and sdo_segmented.go
  expedited_size classic_size not_sdo sdo_len : ℕ → Error
  not_initiate not_expedited not_upload unexpected_response : ℕ → Error
  unexpected_expedited index_mismatch segment_len : Error
  size_mismatch : ℕ → ℕ → Error
  read_size : ℕ → Error
  -- An SDO abort: index, subindex and code.
  abort : ℕ → ℕ → ℕ → Error
  -- socketcan_linux.go and iface_linux.go: a `syscall.Errno`, and the errors of those files. An
  -- error with `%w` keeps the error that it wraps.
  errno : ℕ → Error
  short_write short_read bad_name : Error
  txqueuelen_failed can_failed needs_admin : Error → Error
  -- No Go values: a wait that never ends, and a loop that used up the fuel of the model.
  forever stuck : Error
  -- An error that the bus, the kernel or the log of the environment answers with.
  external : ℕ → Error

-- Go's (value, error) pair, where the value is not read beside an error.
pub data Result {ℓ} (A : Type ℓ) : Type ℓ where
  err : (e : Error) → Result A
  ok : (value : A) → Result A

infixl 5 ◌>>=◌ ◌>>◌
abbrev pub ◌>>=◌ {ℓ κ} : {A : Type ℓ} {B : Type κ} → Result A → (A → Result B) → Result B
err e >>= next = err e
ok value >>= next = next value

-- `if bad { return err }`
abbrev pub refuse : Bool → Error → Result (Unit {0})
refuse true e = err e
refuse false e = ok tt

-- `if err := check; err != nil { return err }`
abbrev pub check : Option Error → Result (Unit {0})
check none = ok tt
check (some e) = err e

abbrev pub ◌>>◌ {ℓ} : {B : Type ℓ} → Result (Unit {0}) → Result B → Result B
guard >> next = guard >>= λ u. next

-- To split on a computed result and keep the equation.
pub Result-cases {ℓ} :
    {A : Type ℓ} (r : Result A) → ((a : A) × (r ≡ ok a)) ⊎ ((e : Error) × (r ≡ err e))
Result-cases (ok a) = inl (a, refl)
Result-cases (err e) = inr (e, refl)
