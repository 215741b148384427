-- ===== src/SocketCan/Retry.antt =====
-- The rounds of Send and Receive while the kernel answers EAGAIN.
use canbus.Prelude.{
  ℕ, zero, suc, ◌<◌, ◌≡◌, refl, ◌∙◌, ap, arith, false, List, length, ◌!=◌, if◌then◌else◌, Result,
  ok, err, errno, short_write,
}
use canbus.Prelude.Runs.{Run}
use canbus.Frame.{Frame, marshal_binary}
use canbus.Frame.RoundTrip.{marshal_ok}
use canbus.Kernel.{Kernel}
use canbus.SocketCan.{Socket, eagain, is_again, write_loop, send, received, receive}

-- An answer that ends the loop.
abbrev pub IsFinal : {A : Type 0} → Result A → Type 0
IsFinal (ok a) = Unit {0}
IsFinal (err e) = is_again e ≡ false

-- What Send makes of the last answer, for that many bytes.
abbrev pub written : ℕ → Result ℕ → Result (Unit {0})
written size (ok n) = if n != size then err short_write else ok tt
written size (err e) = err e

-- What Receive makes of it.
abbrev pub read_frame : Result (List ℕ) → Result Frame
read_frame (ok bytes) = received bytes
read_frame (err e) = err e

module _ {W A : Type 0} (k : Kernel W) (call : Run W A) where
  -- The world when the call has been made and answered `n` times, with a pause after each.
  abbrev pub after : ℕ → W → W
  after zero w = w
  after (suc n) w = after n (k.pause (call w).0)

  -- The first `n` answers are EAGAIN.
  abbrev pub Busy : ℕ → W → Type 0
  Busy zero w = Unit {0}
  Busy (suc n) w = ((call w).1 ≡ err (errno eagain)) × Busy n (k.pause (call w).0)

module _ {W : Type 0} (k : Kernel W) where
  write_loop-ends :
      (n fuel fd : ℕ) (buf : List ℕ) (w : W)
      → Busy k (k.write fd buf) n w
      → IsFinal (k.write fd buf (after k (k.write fd buf) n w)).1
      → n < fuel
      → write_loop k fuel fd buf w ≡ (
        (k.write fd buf (after k (k.write fd buf) n w)).0,
        written (length buf) (k.write fd buf (after k (k.write fd buf) n w)).1,
      )
  unfolding write_loop
  write_loop-ends n zero fd buf w busy final h = absurd (omega arith)
  write_loop-ends zero (suc fuel) fd buf w busy final h = last (k.write fd buf w) final
    where
      last :
          (r : W × Result ℕ)
          → IsFinal r.1
          → (elim r.1 [
            | ok n ↦ (r.0, if n != length buf then err short_write else ok tt)
            | err e ↦ if is_again e then write_loop k fuel fd buf (k.pause r.0) else (r.0, err e)
          ])
            ≡ (r.0, written (length buf) r.1)
      last (v, ok n) h = refl
      last (v, err e) h = rw h refl
  write_loop-ends (suc n) (suc fuel) fd buf w (again, busy) final h =
      rw (again, write_loop)
        (write_loop-ends n fuel fd buf (k.pause (k.write fd buf w).0) busy final (omega arith))

  pub send-write_loop :
      (s : Socket) (f : Frame) (buf : List ℕ) (fuel : ℕ) (w : W)
      → marshal_binary f ≡ ok buf
      → send k fuel s f w ≡ write_loop k fuel s.fd buf w
  unfolding send
  send-write_loop s f buf fuel w m = rw ((marshal_ok f f buf m).0, m) refl

  -- Send of a valid frame, on a socket whose kernel answers `n` times that it would block, makes
  -- one more call and answers by it: success when it took all 16 bytes, an error when it took
  -- another number, and any other error as it is. The model's bound plays no part once it exceeds
  -- `n`.
  pub send_retries :
      (s : Socket) (f : Frame) (buf : List ℕ) (n fuel : ℕ) (w : W)
      → marshal_binary f ≡ ok buf
      → Busy k (k.write s.fd buf) n w
      → IsFinal (k.write s.fd buf (after k (k.write s.fd buf) n w)).1
      → n < fuel
      → let (v, answer) = k.write s.fd buf (after k (k.write s.fd buf) n w) in
        send k fuel s f w ≡ (v, written 16 answer)
  send_retries s f buf n fuel w m busy final h =
      send-write_loop s f buf fuel w m
      ∙ write_loop-ends n fuel s.fd buf w busy final h
      ∙ ap
          (λ (size : ℕ). (
            (k.write s.fd buf (after k (k.write s.fd buf) n w)).0,
            written size (k.write s.fd buf (after k (k.write s.fd buf) n w)).1,
          ))
          (marshal_ok f f buf m).1

  -- Receive, on a socket whose kernel answers `n` times that it would block, makes one more call
  -- and answers by it: what UnmarshalBinary makes of the 16 bytes, an error on another number of
  -- bytes, and any other error as it is.
  pub receive_retries :
      (s : Socket) (n fuel : ℕ) (w : W)
      → Busy k (k.read s.fd 16) n w
      → IsFinal (k.read s.fd 16 (after k (k.read s.fd 16) n w)).1
      → n < fuel
      → let (v, answer) = k.read s.fd 16 (after k (k.read s.fd 16) n w) in
        receive k fuel s w ≡ (v, read_frame answer)
  unfolding receive
  receive_retries s n zero w busy final h = absurd (omega arith)
  receive_retries s zero (suc fuel) w busy final h = last (k.read s.fd 16 w) final
    where
      last :
          (r : W × Result (List ℕ))
          → IsFinal r.1
          → (elim r.1 [
            | ok bytes ↦ (r.0, received bytes)
            | err e ↦ if is_again e then receive k fuel s (k.pause r.0) else (r.0, err e)
          ])
            ≡ (r.0, read_frame r.1)
      last (v, ok n) h = refl
      last (v, err e) h = rw h refl
  receive_retries s (suc n) (suc fuel) w (again, busy) final h =
      rw (again, receive)
        (receive_retries s n fuel (k.pause (k.read s.fd 16 w).0) busy final (omega arith))
