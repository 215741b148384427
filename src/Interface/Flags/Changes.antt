-- ===== src/Interface/Flags/Changes.antt =====
-- What the operations on the flags do to the interfaces and to the table of descriptors.
use mathlib.Core.Path.{subst}
use canbus.Prelude.{
  ℕ, ◌%◌, ◌≡◌, ◌≢◌, refl, sym, ◌∙◌, ap, arith, bit_and, bit_or, Bool, true, false, List, ◌∷◌,
  length, ◌==◌, ◌!=◌, if◌then◌else◌, Result, ok, err, Bool-cases, inl, inr,
}
use canbus.Prelude.Bits.{and_flag, or_flag}
use canbus.Prelude.Runs.{continue, lift}
use canbus.Kernel.{Kernel}
use canbus.Interface.{
  if_name_size, iff_up, af_inet, sock_dgram, copy_name, is_bad_name, and_not, closing,
  get_interface_flags, set_interface_flags, is_interface_up, set_interface_up, set_interface_down,
}
use canbus.Interface.Names.{c_string, c_string-copy_name}
use canbus.Interface.Flags.{HasDevices, Changed, Answered, set_interface, bit_of}

short_name :
    (name : List ℕ)
    → is_bad_name name ≡ false
    → c_string (copy_name if_name_size name) ≡ c_string name
short_name name e = c_string-copy_name 16 name (ground arith)

module _ {W : Type 0} (k : Kernel W) (flags : W → List ℕ → ℕ) (h : HasDevices k flags) where
  get-Answered : (name : List ℕ) (w : W) → Answered flags w name (get_interface_flags k name w)
  unfolding get_interface_flags
  get-Answered name w = elim (Bool-cases (is_bad_name name)) [
    | inl e ↦ rw (e) refl
    | inr e ↦
        rw (e) (opened e (k.socket af_inet sock_dgram 0 w) (h.socket_keeps af_inet sock_dgram 0 w))
  ]
    where
      called :
          (fd : ℕ) (v : W) (r : W × Result ℕ)
          → is_bad_name name ≡ false
          → flags v ≡ flags w
          → k.get_flags fd (copy_name if_name_size name) v ≡ r
          → flags r.0 ≡ flags v
          → Answered flags w name (closing k fd r)
      called fd v (u, ok n) e same q kept = (
        h.close_keeps fd u ∙ kept ∙ same,
        h.get_reads fd (copy_name if_name_size name) v u n q
            ∙ ap (flags v) (short_name name e)
            ∙ ap (λ (f : List ℕ → ℕ). f (c_string name)) same,
      )
      called fd v (u, err x) e same q kept = h.close_keeps fd u ∙ kept ∙ same

      opened :
          is_bad_name name ≡ false
          → (r : W × Result ℕ) → flags r.0 ≡ flags w
          → Answered flags w name
              (continue (λ fd v. closing k fd (k.get_flags fd (copy_name if_name_size name) v)) r)
      opened e (v, ok fd) same =
          called fd v (k.get_flags fd (copy_name if_name_size name) v) e same refl
            (h.get_keeps fd (copy_name if_name_size name) v)
      opened e (v, err x) same = same

  set-Changed :
      (name other : List ℕ) (ne : other ≢ c_string name) (asked : ℕ) (w : W)
      → Changed flags w name other (asked % 2) (set_interface_flags k name asked w)
  unfolding set_interface_flags
  set-Changed name other ne asked w = elim (Bool-cases (is_bad_name name)) [
    | inl e ↦ rw (e) refl
    | inr e ↦
        rw (e) (opened e (k.socket af_inet sock_dgram 0 w) (h.socket_keeps af_inet sock_dgram 0 w))
  ]
    where
      request : List ℕ
      request = copy_name if_name_size name

      called :
          (fd : ℕ) (v : W) (r : W × Result (Unit {0}))
          → is_bad_name name ≡ false
          → flags v ≡ flags w
          → k.set_flags fd request asked v ≡ r
          → Changed flags w name other (asked % 2) (closing k fd r)
      called fd v (u, ok n) e same q = (
        ap (λ (f : List ℕ → ℕ). f (c_string name) % 2) (h.close_keeps fd u)
            ∙ ap (λ (c : List ℕ). flags u c % 2) (sym (short_name name e))
            ∙ h.set_sets fd request asked v u n q,
        ap (λ (f : List ℕ → ℕ). f other) (h.close_keeps fd u)
            ∙ h.set_others fd request asked v u n other q (λ p. ne (p ∙ short_name name e))
            ∙ ap (λ (f : List ℕ → ℕ). f other) same,
      )
      called fd v (u, err x) e same q =
          h.close_keeps fd u ∙ h.set_fails fd request asked v u x q ∙ same

      opened :
          is_bad_name name ≡ false
          → (r : W × Result ℕ) → flags r.0 ≡ flags w
          → Changed flags w name other
              (asked % 2)
              (continue (λ fd v. closing k fd (k.set_flags fd request asked v)) r)
      opened e (v, ok fd) same = called fd v (k.set_flags fd request asked v) e same refl
      opened e (v, err x) same = same

  Changed-ap :
      (name other : List ℕ) (bit : ℕ) (w v : W) (r : W × Result (Unit {0}))
      → flags v ≡ flags w
      → Changed flags v name other bit r
      → Changed flags w name other bit r
  Changed-ap name other bit w v (u, ok x) same (now, others) =
      (now, others ∙ ap (λ (f : List ℕ → ℕ). f other) same)
  Changed-ap name other bit w v (u, err e) same kept = kept ∙ same

  -- To change the flags unless a test of them says that they are as they should be.
  unless-Changed :
      (name other : List ℕ) (ne : other ≢ c_string name) (bit : ℕ) (test : ℕ → Bool)
      (change : ℕ → ℕ) (w : W)
      → ((n : ℕ) → test n ≡ true → n % 2 ≡ bit)
      → ((n : ℕ) → test n ≡ false → change n % 2 ≡ bit)
      → Changed flags w name other bit (
          continue
            (λ n. if test n then lift (ok tt) else set_interface_flags k name (change n))
            (get_interface_flags k name w))
  unless-Changed name other ne bit test change w already changed =
      decided (get_interface_flags k name w) (get-Answered name w)
    where
      decided :
          (r : W × Result ℕ)
          → Answered flags w name r
          → Changed flags w name other bit (
              continue
                (λ n. if test n then lift (ok tt) else set_interface_flags k name (change n))
                r)
      decided (v, err e) kept = kept
      decided (v, ok n) (kept, now) = elim (Bool-cases (test n)) [
        | inl e ↦ rw e (
          ap (λ (f : List ℕ → ℕ). f (c_string name) % 2) kept
              ∙ ap (λ (m : ℕ). m % 2) (sym now)
              ∙ already n e,
          ap (λ (f : List ℕ → ℕ). f other) kept,
        )
        | inr e ↦ rw e (
            subst
              (λ (b : ℕ). Changed flags w name other b (set_interface_flags k name (change n) v))
              (changed n e)
              (Changed-ap name other _ w v (set_interface_flags k name (change n) v) kept
                (set-Changed name other ne (change n) v)))
      ]

  up-Changed :
      (name other : List ℕ) (ne : other ≢ c_string name) (w : W)
      → Changed flags w name other 1 (set_interface_up k name w)
  unfolding set_interface_up
  up-Changed name other ne w =
      unless-Changed name other ne 1 (λ n. bit_and n iff_up != 0) (λ n. bit_or n iff_up) w
        (λ n e. ground (arith, and_flag 0 n)) (λ n e. ground (arith, and_flag 0 n, or_flag 0 n))

  down-Changed :
      (name other : List ℕ) (ne : other ≢ c_string name) (w : W)
      → Changed flags w name other 0 (set_interface_down k name w)
  unfolding set_interface_down
  down-Changed name other ne w =
      unless-Changed name other ne 0 (λ n. bit_and n iff_up == 0) (λ n. and_not n iff_up) w
        (λ n e. ground (arith, and_flag 0 n)) (λ n e. ground (arith, and_flag 0 n))

  -- IsInterfaceUp answers by the flag of the interface.
  up-answers :
      (name : List ℕ) (w v : W) (b : Bool)
      → is_interface_up k name w ≡ (v, ok b)
      → (flags v ≡ flags w) × (b ≡ (flags w (c_string name) % 2 == 1))
  unfolding is_interface_up
  up-answers name w v b q = decided (get_interface_flags k name w) (get-Answered name w) q
    where
      decided :
          (r : W × Result ℕ)
          → Answered flags w name r
          → continue (λ n. lift (ok (bit_and n iff_up != 0))) r ≡ (v, ok b)
          → (flags v ≡ flags w) × (b ≡ (flags w (c_string name) % 2 == 1))
      decided (u, err e) kept q = absurd (cc (ap (λ (x : W × Result Bool). x.1) q))
      decided (u, ok n) (kept, now) q =
          let same : u ≡ v = ap (λ (x : W × Result Bool). x.0) q in
          let answer : ◌≡◌ {A = Result Bool} (ok (bit_and n iff_up != 0)) (ok b) =
            ap (λ (x : W × Result Bool). x.1) q in
          let by_flag : (bit_and n iff_up != 0) ≡ (n % 2 == 1) = ground (arith, and_flag 0 n) in
          let value : b ≡ (bit_and n iff_up != 0) = cc (answer) in
          (ap flags (sym same) ∙ kept, value ∙ by_flag ∙ ap (λ (m : ℕ). m % 2 == 1) now)

cons-ne : (c : ℕ) (cs : List ℕ) → c ∷ cs ≢ cs
cons-ne c cs e = omega (arith, ap length e)

bit_of_lem : (up : Bool) → (bit_of up == 1) ≡ up
bit_of_lem true = refl
bit_of_lem false = refl

-- Where the kernel's flags are as documented, SetInterfaceUp and SetInterfaceDown, if they succeed,
-- leave the named interface up or down and every other interface with the flags it had; if they
-- fail, in whatever call, all flags are as before. The interface is the one named by the bytes
-- before the first zero byte.
pub set_interface-Changed :
    {W : Type 0} (k : Kernel W) (flags : W → List ℕ → ℕ) (up : Bool) (name other : List ℕ) (w : W)
    → HasDevices k flags
    → other ≢ c_string name
    → Changed flags w name other (bit_of up) (set_interface k up name w)
set_interface-Changed k flags true name other w h ne = up-Changed k flags h name other ne w
set_interface-Changed k flags false name other w h ne = down-Changed k flags h name other ne w

-- Where the kernel's flags are as documented, an IsInterfaceUp that succeeds right after a
-- SetInterfaceUp or SetInterfaceDown of the same name that succeeded answers true or false
-- accordingly.
pub is_interface_up-set_interface :
    {W : Type 0} (k : Kernel W) (flags : W → List ℕ → ℕ) (up answer : Bool) (name : List ℕ)
    (w v u : W)
    → HasDevices k flags
    → set_interface k up name w ≡ (v, ok tt)
    → is_interface_up k name v ≡ (u, ok answer)
    → answer ≡ up
is_interface_up-set_interface k flags up answer name w v u h q a =
    let ne : b'x' ∷ c_string name ≢ c_string name = cons-ne b'x' (c_string name) in
    let (now, others) =
      subst (Changed flags w name (b'x' ∷ c_string name) (bit_of up)) q
        (set_interface-Changed k flags up name (b'x' ∷ c_string name) w h ne) in
    (up-answers k flags h name v u answer a).1 ∙ ap (λ (m : ℕ). m == 1) now ∙ bit_of_lem up
