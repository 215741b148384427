-- ===== src/Interface/Descriptors.antt =====
-- The descriptors of the operations on the flags.
use canbus.Prelude.{
  ℕ, ◌≡◌, refl, ◌∙◌, arith, Bool, true, false, ◌==◌, ◌!=◌, List, if◌then◌else◌, Result, ok, err,
  bit_and, bit_or, Bool-cases, inl, inr,
}
use canbus.Prelude.Runs.{Run, continue, lift}
use canbus.Kernel.{Kernel, KeepsOpen, HasDescriptors}
use canbus.Interface.{
  if_name_size, iff_up, af_inet, sock_dgram, copy_name, is_bad_name, and_not, closing,
  get_interface_flags, set_interface_flags, is_interface_up, set_interface_up, set_interface_down,
}
use canbus.Interface.Flags.{set_interface}

module _ {W : Type 0} (k : Kernel W) (is_open : W → ℕ → Bool) (h : HasDescriptors k is_open) where
  -- A call on a socket of its own.
  with_socket-KeepsOpen :
      {A : Type 0} (call : ℕ → Run W A)
      → ((fd : ℕ) → KeepsOpen is_open (call fd))
      → KeepsOpen is_open
          (λ w. continue (λ fd v. closing k fd (call fd v)) (k.socket af_inet sock_dgram 0 w))
  with_socket-KeepsOpen call keep w j = opened (k.socket af_inet sock_dgram 0 w) refl
    where
      opened :
          (r : W × Result ℕ)
          → k.socket af_inet sock_dgram 0 w ≡ r
          → is_open (continue (λ fd v. closing k fd (call fd v)) r).0 j ≡ is_open w j
      opened (v, err e) q = h.socket_fails af_inet sock_dgram 0 w v e j q
      opened (v, ok fd) q = ground (
        arith,
        h.close_closes fd (call fd v).0 j,
        keep fd v j,
        h.socket_opens af_inet sock_dgram 0 w v fd j q,
        h.socket_fresh af_inet sock_dgram 0 w v fd q,
      )

  get-KeepsOpen : (name : List ℕ) → KeepsOpen is_open (get_interface_flags k name)
  unfolding get_interface_flags
  get-KeepsOpen name w j = elim (Bool-cases (is_bad_name name)) [
    | inl e ↦ rw e refl
    | inr e ↦ rw e (
        with_socket-KeepsOpen (λ fd. k.get_flags fd (copy_name if_name_size name))
          (λ fd. h.get_keeps fd (copy_name if_name_size name)) w j)
  ]

  set-KeepsOpen : (name : List ℕ) (flags : ℕ) → KeepsOpen is_open (set_interface_flags k name flags)
  unfolding set_interface_flags
  set-KeepsOpen name flags w j = elim (Bool-cases (is_bad_name name)) [
    | inl e ↦ rw e refl
    | inr e ↦ rw e (
        with_socket-KeepsOpen (λ fd. k.set_flags fd (copy_name if_name_size name) flags)
          (λ fd. h.set_keeps fd (copy_name if_name_size name) flags) w j)
  ]

  continue-KeepsOpen :
      {A B : Type 0} (f : A → Run W B) (w : W) (j : ℕ) (r : W × Result A)
      → ((a : A) → KeepsOpen is_open (f a))
      → is_open r.0 j ≡ is_open w j
      → is_open (continue f r).0 j ≡ is_open w j
  continue-KeepsOpen f w j (v, ok a) keep same = keep a v j ∙ same
  continue-KeepsOpen f w j (v, err e) keep same = same

  unless-KeepsOpen :
      (name : List ℕ) (b : Bool) (flags : ℕ)
      → KeepsOpen is_open (if b then lift (ok tt) else set_interface_flags k name flags)
  unless-KeepsOpen name true flags w j = refl
  unless-KeepsOpen name false flags w j = set-KeepsOpen name flags w j

  set_interface-KeepsOpen :
      (up : Bool) (name : List ℕ) → KeepsOpen is_open (set_interface k up name)
  unfolding set_interface_up set_interface_down
  set_interface-KeepsOpen true name w j =
      continue-KeepsOpen
        (λ n.
          if bit_and n iff_up != 0
          then lift (ok tt)
          else set_interface_flags k name (bit_or n iff_up))
        w j (get_interface_flags k name w)
        (λ n. unless-KeepsOpen name (bit_and n iff_up != 0) (bit_or n iff_up))
        (get-KeepsOpen name w j)
  set_interface-KeepsOpen false name w j =
      continue-KeepsOpen
        (λ n.
          if bit_and n iff_up == 0
          then lift (ok tt)
          else set_interface_flags k name (and_not n iff_up))
        w j (get_interface_flags k name w)
        (λ n. unless-KeepsOpen name (bit_and n iff_up == 0) (and_not n iff_up))
        (get-KeepsOpen name w j)

-- Where the kernel keeps its table of descriptors as documented, IsInterfaceUp, SetInterfaceUp and
-- SetInterfaceDown leave every descriptor as it was, open or not, whether they succeed or fail and
-- in whatever call: the sockets that they open are closed.
pub no_descriptor_left :
    {W : Type 0} (k : Kernel W) (is_open : W → ℕ → Bool) (name : List ℕ) (w : W) (j : ℕ)
    → HasDescriptors k is_open
    → (is_open (is_interface_up k name w).0 j ≡ is_open w j)
      × (is_open (set_interface_up k name w).0 j ≡ is_open w j)
      × (is_open (set_interface_down k name w).0 j ≡ is_open w j)
unfolding is_interface_up
no_descriptor_left k is_open name w j h = (
  continue-KeepsOpen k is_open h (λ n. lift (ok (bit_and n iff_up != 0))) w j
      (get_interface_flags k name w) (λ n v i. refl) (get-KeepsOpen k is_open h name w j),
  set_interface-KeepsOpen k is_open h true name w j,
  set_interface-KeepsOpen k is_open h false name w j,
)
