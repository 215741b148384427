-- ===== src/SocketCan/Dial.antt =====
-- The descriptors of a dial.
use canbus.Prelude.{
  ℕ, ◌≡◌, refl, ◌∙◌, arith, Bool, true, false, ◌||◌, Option, none, some, List, ltb, ◌==◌,
  if◌then◌else◌, Result, ok, err, u32,
}
use canbus.Prelude.Runs.{Run, continue, ◌>>=◌, ◌>>◌, lift}
use canbus.Kernel.{Kernel, KeepsOpen, HasDescriptors}
use canbus.SocketCan.{
  Socket, Options, af_can, sock_raw, can_raw, sol_can_raw, can_raw_loopback, can_raw_recv_own_msgs,
  sol_socket, so_sndbuf, so_rcvbuf, or_close, set_flag, set_size, set_options,
  dial_socket_can_with_options,
}

-- What a step with the descriptor `fd`, which was not open in `w`, leaves open: on success that
-- descriptor besides those of `w`, and on failure those of `w`.
abbrev pub Holds : {W A : Type 0} → (W → ℕ → Bool) → W → ℕ → W × Result A → Type 0
Holds is_open w fd (v, ok a) = (j : ℕ) → is_open v j ≡ (is_open w j || j == fd)
Holds is_open w fd (v, err e) = (j : ℕ) → is_open v j ≡ is_open w j

-- What a dial leaves open: a new descriptor, that of the socket, or none.
abbrev pub Dialled : {W : Type 0} → (W → ℕ → Bool) → W → W × Result Socket → Type 0
Dialled is_open w (v, ok s) =
    (is_open w s.fd ≡ false)
    × ((j : ℕ) → is_open v j ≡ (is_open w j || j == s.fd))
    × (s.is_closed ≡ false)
Dialled is_open w (v, err e) = (j : ℕ) → is_open v j ≡ is_open w j

continue-Holds :
    {W A B : Type 0} (is_open : W → ℕ → Bool) (w : W) (fd : ℕ) (f : A → Run W B) (r : W × Result A)
    → Holds is_open w fd r
    → ((a : A) (v : W) → Holds is_open w fd (v, ok a) → Holds is_open w fd (f a v))
    → Holds is_open w fd (continue f r)
continue-Holds is_open w fd f (v, ok a) h k = k a v h
continue-Holds is_open w fd f (v, err e) h k = h

module _ {W : Type 0} (k : Kernel W) (is_open : W → ℕ → Bool) (h : HasDescriptors k is_open) (w : W)
    (fd : ℕ) (new : is_open w fd ≡ false) where
  or_close-Holds :
      {A : Type 0} (m : Run W A) (v : W)
      → KeepsOpen is_open m
      → ((j : ℕ) → is_open v j ≡ (is_open w j || j == fd))
      → Holds is_open w fd (or_close k fd (m v))
  unfolding or_close
  or_close-Holds {A} m v keep held = go (m v) (λ j. keep v j ∙ held j)
    where
      go :
          (r : W × Result A)
          → ((j : ℕ) → is_open r.0 j ≡ (is_open w j || j == fd))
          → Holds is_open w fd (or_close k fd r)
      go (u, ok a) s = s
      go (u, err e) s = λ j. ground (arith, h.close_closes fd u j, s j, new)

  set_flag-Holds :
      (option : ℕ) (b : Option Bool) (v : W)
      → ((j : ℕ) → is_open v j ≡ (is_open w j || j == fd))
      → Holds is_open w fd (set_flag k fd option b v)
  set_flag-Holds option none v s = s
  set_flag-Holds option (some b) v s =
      or_close-Holds (k.set_option fd sol_can_raw option (if b then 1 else 0)) v
        (h.option_keeps fd sol_can_raw option (if b then 1 else 0)) s

  set_size-Holds :
      (option n : ℕ) (v : W)
      → ((j : ℕ) → is_open v j ≡ (is_open w j || j == fd))
      → Holds is_open w fd (set_size k fd option n v)
  set_size-Holds option n v s = either (ltb 0 n)
    where
      either :
          (b : Bool)
          → Holds is_open w fd (
              (if b
                  then (λ u. or_close k fd (k.set_option fd sol_socket option n u))
                  else lift (ok tt))
                v)
      either true =
          or_close-Holds (k.set_option fd sol_socket option n) v
            (h.option_keeps fd sol_socket option n) s
      either false = s

  set_options-Holds :
      (opts : Option Options) (v : W)
      → ((j : ℕ) → is_open v j ≡ (is_open w j || j == fd))
      → Holds is_open w fd (set_options k fd opts v)
  unfolding set_options
  set_options-Holds none v s = s
  set_options-Holds (some opts) v s =
      continue-Holds is_open w fd _ _ (set_flag-Holds can_raw_loopback opts.loopback v s)
        λ a1 v1 s1.
          continue-Holds is_open w fd _ _
            (set_flag-Holds can_raw_recv_own_msgs opts.receive_own_messages v1 s1)
            λ a2 v2 s2.
              continue-Holds is_open w fd _ _
                (set_size-Holds so_sndbuf opts.send_buffer_bytes v2 s2)
                λ a3 v3 s3. set_size-Holds so_rcvbuf opts.receive_buffer_bytes v3 s3

continue-Dialled :
    {W A : Type 0} (is_open : W → ℕ → Bool) (w : W) (fd : ℕ) (f : A → Run W Socket)
    (r : W × Result A)
    → Holds is_open w fd r
    → ((a : A) (v : W) → Holds is_open w fd (v, ok a) → Dialled is_open w (f a v))
    → Dialled is_open w (continue f r)
continue-Dialled is_open w fd f (v, ok a) h k = k a v h
continue-Dialled is_open w fd f (v, err e) h k = h

-- Where the kernel keeps its table of descriptors as documented, a dial that succeeds has opened
-- one descriptor, which was not open before and is that of the socket, and a dial that fails, in
-- whatever call, has opened none: every other descriptor is as before.
pub dial-Dialled :
    {W : Type 0} (k : Kernel W) (is_open : W → ℕ → Bool) (iface : List ℕ) (opts : Option Options)
    (w : W)
    → HasDescriptors k is_open
    → Dialled is_open w (dial_socket_can_with_options k iface opts w)
unfolding dial_socket_can_with_options
dial-Dialled {W} k is_open iface opts w h = go (k.socket af_can sock_raw can_raw w) refl
  where
    rest : ℕ → Run W Socket
    rest fd = do
      set_options k fd opts
      index ← λ v. or_close k fd (k.interface_by_name iface v)
      λ v. or_close k fd (k.bind fd af_can (u32 index) v)
      λ v. or_close k fd (k.set_nonblock fd v)
      lift (ok (record { fd = fd; is_closed = false }))

    go :
        (r : W × Result ℕ)
        → k.socket af_can sock_raw can_raw w ≡ r
        → Dialled is_open w (continue rest r)
    go (v, err e) q = λ j. h.socket_fails af_can sock_raw can_raw w v e j q
    go (v, ok fd) q =
        let new = h.socket_fresh af_can sock_raw can_raw w v fd q in
        let held = λ (j : ℕ). h.socket_opens af_can sock_raw can_raw w v fd j q in
        continue-Dialled is_open w fd _ _ (set_options-Holds k is_open h w fd new opts v held)
          λ a1 v1 s1.
            continue-Dialled is_open w fd _ _
              (or_close-Holds k is_open h w fd new (k.interface_by_name iface) v1
                (h.name_keeps iface) s1)
              λ index v2 s2.
                continue-Dialled is_open w fd _ _
                  (or_close-Holds k is_open h w fd new (k.bind fd af_can (u32 index)) v2
                    (h.bind_keeps fd af_can (u32 index)) s2)
                  λ a3 v3 s3.
                    continue-Dialled is_open w fd
                      (λ _. lift (ok (record { fd = fd; is_closed = false }))) _
                      (or_close-Holds k is_open h w fd new (k.set_nonblock fd) v3
                        (h.nonblock_keeps fd) s3)
                      λ a4 v4 s4. (new, s4, refl)
