-- ===== src/Interface/Flags.antt =====
-- What the kernel documents of the flags of the interfaces, and what a change of them leaves.
pub mod Changes
use mathlib.Core.Path.{subst}
use canbus.Prelude.{
  ℕ, ◌%◌, ◌≡◌, ◌≢◌, refl, sym, ◌∙◌, ap, arith, bit_and, bit_or, Bool, true, false, List, ◌∷◌,
  length, ◌==◌, ◌!=◌, if◌then◌else◌, Error, Result, ok, err, Bool-cases, inl, inr,
}
use canbus.Prelude.Bits.{and_flag, or_flag}
use canbus.Prelude.Runs.{Run, continue, lift}
use canbus.Kernel.{Kernel}
use canbus.Interface.{
  if_name_size, iff_up, af_inet, sock_dgram, copy_name, is_bad_name, and_not, closing,
  get_interface_flags, set_interface_flags, is_interface_up, set_interface_up, set_interface_down,
}
use canbus.Interface.Names.{c_string, c_string-copy_name}

-- What the calls document of the flags of the interfaces; `flags` are those of a name.
pub record HasDevices {W : Type 0} (k : Kernel W) (flags : W → List ℕ → ℕ) : Type 0 where
  -- The flags of the interface that the request names.
  pub get_reads :
      (fd : ℕ) (request : List ℕ) (w v : W) (n : ℕ)
      → k.get_flags fd request w ≡ (v, ok n)
      → n ≡ flags w (c_string request)
  pub get_keeps : (fd : ℕ) (request : List ℕ) (w : W) → flags (k.get_flags fd request w).0 ≡ flags w
  -- The interface is then up or down as asked; the kernel may choose its other flags.
  pub set_sets :
      (fd : ℕ) (request : List ℕ) (asked : ℕ) (w v : W) (u : Unit {0})
      → k.set_flags fd request asked w ≡ (v, ok u)
      → flags v (c_string request) % 2 ≡ asked % 2
  pub set_others :
      (fd : ℕ) (request : List ℕ) (asked : ℕ) (w v : W) (u : Unit {0}) (other : List ℕ)
      → k.set_flags fd request asked w ≡ (v, ok u)
      → other ≢ c_string request
      → flags v other ≡ flags w other
  pub set_fails :
      (fd : ℕ) (request : List ℕ) (asked : ℕ) (w v : W) (e : Error)
      → k.set_flags fd request asked w ≡ (v, err e)
      → flags v ≡ flags w
  pub socket_keeps :
      (family type protocol : ℕ) (w : W) → flags (k.socket family type protocol w).0 ≡ flags w
  pub close_keeps : (fd : ℕ) (w : W) → flags (k.close fd w).0 ≡ flags w

-- What a change of the flag IFF_UP to `bit` leaves for the interface and for another.
abbrev pub Changed :
    {W A : Type 0} → (W → List ℕ → ℕ) → W → List ℕ → List ℕ → ℕ → W × Result A → Type 0
Changed flags w name other bit (v, ok u) =
    (flags v (c_string name) % 2 ≡ bit) × (flags v other ≡ flags w other)
Changed flags w name other bit (v, err e) = flags v ≡ flags w

-- What a reading of the flags leaves.
abbrev pub Answered : {W : Type 0} → (W → List ℕ → ℕ) → W → List ℕ → W × Result ℕ → Type 0
Answered flags w name (v, ok n) = (flags v ≡ flags w) × (n ≡ flags w (c_string name))
Answered flags w name (v, err e) = flags v ≡ flags w

-- SetInterfaceUp or SetInterfaceDown.
abbrev pub set_interface : {W : Type 0} → Kernel W → Bool → List ℕ → Run W (Unit {0})
set_interface k true name = set_interface_up k name
set_interface k false name = set_interface_down k name

abbrev pub bit_of : Bool → ℕ
bit_of up = if up then 1 else 0
