-- ===== src/SocketCan/Delivery.antt =====
-- Frames from one socket to another.
pub mod Queue
pub mod Order
pub mod Messages
use mathlib.Core.Path.{subst}
use mathlib.Core.List.{append-nil, append_assoc}
use canbus.Prelude.{
  ℕ, zero, suc, ◌≤◌, ◌<◌, ◌≡◌, ◌⊎◌, refl, sym, ◌∙◌, ap, arith, Bool, true, false, Option, List, [],
  ◌∷◌, ◌++◌, length, take, ◌!=◌, if◌then◌else◌, Error, Result, ok, err, short_write, Result-cases,
  inl, inr, length-take,
}
use canbus.Prelude.Runs.{Run, continue, lift, ◌>>=◌, ◌>>◌}
use canbus.Frame.{Frame, zero_frame, marshal_binary}
use canbus.Frame.RoundTrip.{marshal_ok, marshal_error}
use canbus.Kernel.{Kernel}
use canbus.SocketCan.{Socket, is_again, write_loop, send, received, receive}
use canbus.SocketCan.Retry.{send-write_loop}

-- What raw CAN sockets document of two descriptors on one interface, while nothing else writes to
-- the interface and nothing else reads from `to`: `queue` holds what waits to be read from `to`. A
-- write of 16 bytes is taken whole and queued, or it fails and queues nothing.
pub record Carries {W : Type 0} (k : Kernel W) (queue : W → List (List ℕ)) (from to : ℕ)
    : Type 0 where
  pub write_queues :
      (buf : List ℕ) (w v : W) (n : ℕ)
      → length buf ≡ 16
      → k.write from buf w ≡ (v, ok n)
      → (n ≡ 16) × (queue v ≡ queue w ++ (buf ∷ []))
  pub write_fails :
      (buf : List ℕ) (w v : W) (e : Error) → k.write from buf w ≡ (v, err e) → queue v ≡ queue w
  pub pause_keeps : (w : W) → queue (k.pause w) ≡ queue w
  pub read_takes :
      (w : W) (d : List ℕ) (rest : List (List ℕ))
      → queue w ≡ d ∷ rest
      → length d ≡ 16
      → ((k.read to 16 w).1 ≡ ok d) × (queue (k.read to 16 w).0 ≡ rest)

-- One Send after the other, up to the first that fails.
unfoldable pub send_all : {W : Type 0} → Kernel W → ℕ → Socket → List Frame → Run W (Unit {0})
send_all k fuel s [] = lift (ok tt)
send_all k fuel s (f ∷ fs) = do send k fuel s f; send_all k fuel s fs

-- That many calls of Receive.
unfoldable pub receive_all : {W : Type 0} → Kernel W → ℕ → Socket → ℕ → Run W (List Frame)
receive_all k fuel s zero = lift (ok [])
receive_all k fuel s (suc n) = do
  f ← receive k fuel s
  fs ← receive_all k fuel s n
  lift (ok (f ∷ fs))

-- How many of `size` frames were sent, by the result: all, or fewer.
abbrev pub Counted : ℕ → ℕ → Result (Unit {0}) → Type 0
Counted n size (ok u) = n ≡ size
Counted n size (err e) = n < size
