-- ===== src/SocketCan.antt =====
-- socketcan_linux.go: the bus over a raw CAN socket, on the system calls of Kernel.
pub mod Dial
pub mod Retry
pub mod Closing
pub mod Delivery
use canbus.Prelude.{
  ℕ, zero, suc, ◌%◌, ◌^◌, ◌/◌, ◌<◌, bit_or, ◌<<<◌, Bool, true, false, Option, none, some, List, [],
  ◌∷◌, length, ltb, ◌==◌, ◌!=◌, if◌then◌else◌, u32, Error, Result, ok, err, errno, short_write,
  short_read, stuck, check,
}
use canbus.Prelude.Runs.{Run, continue, ◌>>=◌, ◌>>◌, lift}
use canbus.Frame.{Frame, zero_frame, validate, marshal_binary, unmarshal_binary}
use canbus.Kernel.{Kernel}

-- `socketCAN`. The file closes the descriptor `fd`, and `closed` is the channel.
pub record Socket : Type 0 where
  pub fd : ℕ
  pub is_closed : Bool

-- `SocketCANOptions`; a size that is negative has the effect of 0.
pub record Options : Type 0 where
  pub loopback : Option Bool
  pub receive_own_messages : Option Bool
  pub send_buffer_bytes : ℕ
  pub receive_buffer_bytes : ℕ

-- AF_CAN, SOCK_RAW, CAN_RAW, and the levels and options of setsockopt.
abbrev pub af_can : ℕ
af_can = 29

abbrev pub sock_raw : ℕ
sock_raw = 3

abbrev pub can_raw : ℕ
can_raw = 1

abbrev pub sol_can_raw : ℕ
sol_can_raw = 101

abbrev pub can_raw_loopback : ℕ
can_raw_loopback = 3

abbrev pub can_raw_recv_own_msgs : ℕ
can_raw_recv_own_msgs = 4

abbrev pub sol_socket : ℕ
sol_socket = 1

abbrev pub so_sndbuf : ℕ
so_sndbuf = 7

abbrev pub so_rcvbuf : ℕ
so_rcvbuf = 8

-- EAGAIN and EWOULDBLOCK are one number on Linux.
abbrev pub eagain : ℕ
eagain = 11

abbrev pub is_again : Error → Bool
is_again (errno n) = n == eagain
is_again _ = false

-- What Receive makes of the bytes of a read.
unfoldable pub received : List ℕ → Result Frame
received bytes =
    let (f, e) = unmarshal_binary zero_frame bytes in
    if length bytes != 16 then err short_read else elim e [ none ↦ ok f | some x ↦ err x ]

module _ {W : Type 0} (k : Kernel W) where
  -- `if err := step; err != nil { syscall.Close(fd); return nil, err }`
  unfoldable pub or_close : {A : Type 0} → ℕ → W × Result A → W × Result A
  or_close fd (w, ok a) = (w, ok a)
  or_close fd (w, err e) = ((k.close fd w).0, err e)

  abbrev pub set_flag : ℕ → ℕ → Option Bool → Run W (Unit {0})
  set_flag fd option none = lift (ok tt)
  set_flag fd option (some b) =
      λ w. or_close fd (k.set_option fd sol_can_raw option (if b then 1 else 0) w)

  abbrev pub set_size : ℕ → ℕ → ℕ → Run W (Unit {0})
  set_size fd option n =
      if ltb 0 n then (λ w. or_close fd (k.set_option fd sol_socket option n w)) else lift (ok tt)

  -- The options, before the socket is bound.
  unfoldable pub set_options : ℕ → Option Options → Run W (Unit {0})
  unfolding or_close
  set_options fd none = lift (ok tt)
  set_options fd (some opts) = do
    set_flag fd can_raw_loopback opts.loopback
    set_flag fd can_raw_recv_own_msgs opts.receive_own_messages
    set_size fd so_sndbuf opts.send_buffer_bytes
    set_size fd so_rcvbuf opts.receive_buffer_bytes

  -- `DialSocketCANWithOptions(iface, opts)`. The index is an int32, as a bit pattern.
  unfoldable pub dial_socket_can_with_options : List ℕ → Option Options → Run W Socket
  unfolding set_options or_close
  dial_socket_can_with_options iface opts = do
    fd ← k.socket af_can sock_raw can_raw
    set_options fd opts
    index ← λ w. or_close fd (k.interface_by_name iface w)
    λ w. or_close fd (k.bind fd af_can (u32 index) w)
    λ w. or_close fd (k.set_nonblock fd w)
    lift (ok (record { fd = fd; is_closed = false }))

  -- `DialSocketCAN(iface)`
  unfoldable pub dial_socket_can : List ℕ → Run W Socket
  unfolding dial_socket_can_with_options
  dial_socket_can iface = dial_socket_can_with_options iface none

  -- `s.Close()`, where no other goroutine is in it.
  unfoldable pub close_socket : Socket → W → Socket × (W × Result (Unit {0}))
  close_socket s w =
      if s.is_closed then (s, (w, ok tt)) else (record s { is_closed = true }, k.close s.fd w)

  -- The loop of Send. The source bounds it by nothing but the kernel: `fuel` bounds its rounds.
  unfoldable pub write_loop : ℕ → ℕ → List ℕ → Run W (Unit {0})
  write_loop zero fd buf w = (w, err stuck)
  write_loop (suc fuel) fd buf w =
      let (v, r) = k.write fd buf w in
      let again = write_loop fuel fd buf (k.pause v) in
      elim r [
        | ok n ↦ (v, if n != length buf then err short_write else ok tt)
        | err e ↦ if is_again e then again else (v, err e)
      ]

  -- `s.Send(frame)`
  unfoldable pub send : ℕ → Socket → Frame → Run W (Unit {0})
  unfolding write_loop
  send fuel s f = do
    lift (check (validate f))
    buf ← lift (marshal_binary f)
    write_loop fuel s.fd buf

  -- `s.Receive()`, with a bound on the rounds.
  unfoldable pub receive : ℕ → Socket → Run W Frame
  unfolding received
  receive zero s w = (w, err stuck)
  receive (suc fuel) s w =
      let (v, r) = k.read s.fd 16 w in
      let again = receive fuel s (k.pause v) in
      elim r [ ok bytes ↦ (v, received bytes) | err e ↦ if is_again e then again else (v, err e) ]

-- `set.Bits[word] |= int64(1) << bit`, with the word as a bit pattern.
unfoldable pub set_bit : List ℕ → ℕ → ℕ → List ℕ
set_bit [] word bit = []
set_bit (b ∷ bits) zero bit = bit_or b (1 <<< bit) ∷ bits
set_bit (b ∷ bits) (suc word) bit = b ∷ set_bit bits word bit

-- `fdSetAdd(set, fd)`; `none` is the panic at an index that the set has no word for.
unfoldable pub fd_set_add : List ℕ → ℕ → Option (List ℕ)
unfolding set_bit
fd_set_add bits fd =
    if ltb (fd / 64) (length bits) then some (set_bit bits (fd / 64) (fd % 64)) else none
