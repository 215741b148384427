-- ===== src/Interface.antt =====
-- iface_linux.go: the flags of a network interface, and its configuration by the tool `ip`, on the
-- system calls of Kernel. A name is a list of bytes.
pub mod Names
pub mod Flags
pub mod Descriptors
pub mod Commands
use canbus.Prelude.{
  ℕ, zero, suc, ◌+◌, ◌-◌, bit_and, bit_or, Bool, true, false, ◌||◌, Option, none, some, List, [],
  ◌∷◌, ◌++◌, length, leb, ◌==◌, ◌!=◌, if◌then◌else◌, Error, Result, ok, err, refuse, errno,
  bad_name, txqueuelen_failed, can_failed, needs_admin,
}
use canbus.Prelude.Runs.{Run, continue, ◌>>=◌, ◌>>◌, lift}
use canbus.Prelude.Texts.{codes, decimal}
use canbus.Kernel.{Kernel}

abbrev pub if_name_size : ℕ
if_name_size = 16

abbrev pub iff_up : ℕ
iff_up = 0x1

-- AF_INET and SOCK_DGRAM.
abbrev pub af_inet : ℕ
af_inet = 2

abbrev pub sock_dgram : ℕ
sock_dgram = 2

abbrev pub eperm : ℕ
eperm = 1

-- `copy(ifr.Name[:], name)`, to a field of `size` zeros.
abbrev pub copy_name : ℕ → List ℕ → List ℕ
copy_name zero name = []
copy_name (suc size) [] = 0 ∷ copy_name size []
copy_name (suc size) (c ∷ name) = c ∷ copy_name size name

-- `len(name) == 0 || len(name) >= ifNameSize`
abbrev pub is_bad_name : List ℕ → Bool
is_bad_name name = length name == 0 || leb if_name_size (length name)

-- `flags &^ mask`
abbrev pub and_not : ℕ → ℕ → ℕ
and_not flags mask = flags - bit_and flags mask

module _ {W : Type 0} (k : Kernel W) where
  -- `defer syscall.Close(fd)`
  abbrev pub closing : {A : Type 0} → ℕ → W × Result A → W × Result A
  closing fd (w, r) = ((k.close fd w).0, r)

  -- `getInterfaceFlags(name)`
  unfoldable pub get_interface_flags : List ℕ → Run W ℕ
  get_interface_flags name = do
    lift (refuse (is_bad_name name) bad_name)
    fd ← k.socket af_inet sock_dgram 0
    λ w. closing fd (k.get_flags fd (copy_name if_name_size name) w)

  -- `setInterfaceFlags(name, flags)`
  unfoldable pub set_interface_flags : List ℕ → ℕ → Run W (Unit {0})
  set_interface_flags name flags = do
    lift (refuse (is_bad_name name) bad_name)
    fd ← k.socket af_inet sock_dgram 0
    λ w. closing fd (k.set_flags fd (copy_name if_name_size name) flags w)

  -- `IsInterfaceUp(name)`
  unfoldable pub is_interface_up : List ℕ → Run W Bool
  unfolding get_interface_flags
  is_interface_up name = do flags ← get_interface_flags name; lift (ok (bit_and flags iff_up != 0))

  -- `SetInterfaceUp(name)`
  unfoldable pub set_interface_up : List ℕ → Run W (Unit {0})
  unfolding get_interface_flags set_interface_flags
  set_interface_up name = do
    flags ← get_interface_flags name
    (if bit_and flags iff_up != 0
        then lift (ok tt)
        else set_interface_flags name (bit_or flags iff_up))

  -- `SetInterfaceDown(name)`
  unfoldable pub set_interface_down : List ℕ → Run W (Unit {0})
  unfolding get_interface_flags set_interface_flags
  set_interface_down name = do
    flags ← get_interface_flags name
    (if bit_and flags iff_up == 0
        then lift (ok tt)
        else set_interface_flags name (and_not flags iff_up))

-- `errors.Is(err, syscall.EPERM)`, through the errors that wrap one.
unfoldable pub is_perm : Error → Bool
is_perm (errno n) = n == eperm
is_perm (txqueuelen_failed e) = is_perm e
is_perm (can_failed e) = is_perm e
is_perm (needs_admin e) = is_perm e
is_perm _ = false

-- `RequireRootOrCapNetAdmin(err)`
unfoldable pub require_root_or_cap_net_admin : Option Error → Option Error
unfolding is_perm
require_root_or_cap_net_admin none = none
require_root_or_cap_net_admin (some e) = if is_perm e then some (needs_admin e) else some e

-- `int`, for a queue length.
pub data ℤ : Type 0 where
  pos : ℕ → ℤ
  -- -(n + 1)
  negsuc : ℕ → ℤ

-- `%d` of an int.
unfoldable pub decimal_int : ℤ → List ℕ
unfolding decimal
decimal_int (pos n) = decimal n
decimal_int (negsuc n) = b'-' ∷ decimal (suc n)

-- `LinuxCANInterfaceOptions`
pub record CanOptions : Type 0 where
  pub bitrate : Option ℕ
  pub restart_ms : Option ℕ
  pub tx_queue_len : Option ℤ

-- `args = append(args, flag, value)`, where the option is given.
unfoldable pub option_args : List ℕ → Option ℕ → List (List ℕ)
unfolding decimal
option_args flag none = []
option_args flag (some n) = flag ∷ decimal n ∷ []

-- `if out, err := cmd.CombinedOutput(); err != nil { return RequireRootOrCapNetAdmin(...) }`
unfoldable pub checked :
    {W : Type 0} → (Error → Error) → W × Result (Unit {0}) → W × Result (Unit {0})
unfolding require_root_or_cap_net_admin
checked wrap (w, ok u) = (w, ok tt)
checked wrap (w, err e) =
    (w, elim (require_root_or_cap_net_admin (some (wrap e))) [ none ↦ ok tt | some x ↦ err x ])

module _ {W : Type 0} (k : Kernel W) where
  -- The first step of ConfigureLinuxCANInterface.
  unfoldable pub set_queue_len : List ℕ → Option ℤ → Run W (Unit {0})
  unfolding decimal_int checked
  set_queue_len name none = lift (ok tt)
  set_queue_len name (some n) = λ w. checked txqueuelen_failed (
      k.exec
        (codes "ip"
          ∷ codes "link"
          ∷ codes "set"
          ∷ codes "dev"
          ∷ name
          ∷ codes "txqueuelen"
          ∷ decimal_int n
          ∷ [])
        w)

  -- The second step.
  unfoldable pub set_can : List ℕ → Option ℕ → Option ℕ → Run W (Unit {0})
  unfolding option_args checked
  set_can name none none = lift (ok tt)
  set_can name bitrate restart_ms = λ w. checked can_failed (
      k.exec
        ((codes "ip"
            ∷ codes "link"
            ∷ codes "set"
            ∷ codes "dev"
            ∷ name
            ∷ codes "type"
            ∷ codes "can"
            ∷ [])
          ++ (option_args (codes "bitrate") bitrate ++ option_args (codes "restart-ms") restart_ms))
        w)

  -- `ConfigureLinuxCANInterface(name, opts)`
  unfoldable pub configure_linux_can_interface : List ℕ → CanOptions → Run W (Unit {0})
  unfolding set_queue_len set_can
  configure_linux_can_interface name opts = do
    lift (refuse (is_bad_name name) bad_name)
    set_queue_len name opts.tx_queue_len
    set_can name opts.bitrate opts.restart_ms
