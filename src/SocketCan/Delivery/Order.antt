-- ===== src/SocketCan/Delivery/Order.antt =====
-- Frames that are sent by one socket and received by another.
use mathlib.Core.Path.{subst}
use mathlib.Core.List.{append-nil, append_assoc}
use canbus.Prelude.{
  ℕ, suc, ◌≤◌, ◌≡◌, ◌⊎◌, refl, sym, ap, arith, List, [], ◌∷◌, ◌++◌, length, take, Error, Result, ok,
  err, inl, inr, length-take,
}
use canbus.Prelude.Runs.{continue, lift}
use canbus.Frame.{Frame, marshal_binary}
use canbus.Kernel.{Kernel}
use canbus.SocketCan.{Socket, send, received, receive}
use canbus.SocketCan.Delivery.{Carries, send_all, receive_all, Counted}
use canbus.SocketCan.Delivery.Queue.{Queued, Queued-snoc, received-marshal, Sent, send-Sent}

Counted-suc : (n size : ℕ) (r : Result (Unit {0})) → Counted n size r → Counted (suc n) (suc size) r
Counted-suc n size (ok u) h = ap suc h
Counted-suc n size (err e) h = omega arith

-- The frames that were read, with nothing left to read.
abbrev Read : {W : Type 0} → (W → List (List ℕ)) → List Frame → W × Result (List Frame) → Type 0
Read queue fs r = (r.1 ≡ ok fs) × (queue r.0 ≡ [])

Read-cons :
    {W : Type 0} (queue : W → List (List ℕ)) (f : Frame) (fs : List Frame)
    (r : W × Result (List Frame))
    → Read queue fs r
    → Read queue (f ∷ fs) (continue (λ gs. lift (ok (f ∷ gs))) r)
Read-cons queue f fs (v, ok gs) (p, q) = (cc (p), q)
Read-cons queue f fs (v, err e) (p, q) = absurd (cc (p))

module _ {W : Type 0} (k : Kernel W) (queue : W → List (List ℕ)) (from to : Socket)
    (c : Carries k queue from.fd to.fd) where
  pub receive-Queued :
      (more : ℕ) (f : Frame) (d : List ℕ) (rest : List (List ℕ)) (w : W)
      → queue w ≡ d ∷ rest
      → length d ≡ 16
      → received d ≡ ok f
      → (receive k (suc more) to w ≡ ((k.read to.fd 16 w).0, ok f))
        × (queue (k.read to.fd 16 w).0 ≡ rest)
  unfolding receive
  receive-Queued more f d rest w q l r =
      let (answer, left) = c.read_takes w d rest q l in (rw (answer, receive, r) refl, left)

  receive_all-Queued :
      (more : ℕ) (fs : List Frame) (w : W)
      → Queued fs (queue w)
      → Read queue fs (receive_all k (suc more) to (length fs) w)
  unfolding receive_all
  receive_all-Queued more [] w q = (refl, q)
  receive_all-Queued more (f ∷ fs) w (d, rest, q, l, r, tail) =
      let (step, left) = receive-Queued more f d rest w q l r in
      let all =
        receive_all-Queued more fs (k.read to.fd 16 w).0 (subst (Queued fs) (sym left) tail) in
      rw step
        (Read-cons queue f fs (receive_all k (suc more) to (length fs) (k.read to.fd 16 w).0) all)

  -- How many of the frames were sent, and what waits to be read then.
  send_all-Queued :
      (fuel : ℕ) (fs before : List Frame) (w : W)
      → Queued before (queue w)
      → (n : ℕ) × (n ≤ length fs)
        × Counted n (length fs) (send_all k fuel from fs w).1
        × Queued (before ++ take n fs) (queue (send_all k fuel from fs w).0)
  unfolding send_all
  send_all-Queued fuel [] before w q = (
    0,
    omega arith,
    refl,
    subst (λ (x : List Frame). Queued x (queue w)) (sym (append-nil before)) q,
  )
  send_all-Queued fuel (f ∷ fs) before w q =
      first (send-Sent k queue from to c fuel f w) λ v b. send_all-Queued fuel fs b v
    where
      Rest : W × Result (Unit {0}) → Type 0
      Rest r =
          (n : ℕ) × (n ≤ suc (length fs))
          × Counted n (suc (length fs)) r.1
          × Queued (before ++ take n (f ∷ fs)) (queue r.0)

      failed : (v : W) (e : Error) → queue v ≡ queue w → Rest (v, err e)
      failed v e same = (
        0,
        omega arith,
        omega arith,
        subst (λ (x : List Frame). Queued x (queue v)) (sym (append-nil before))
            (subst (Queued before) (sym same) q),
      )

      then_ :
          (r : W × Result (Unit {0})) (buf : List ℕ)
          → marshal_binary f ≡ ok buf
          → length buf ≡ 16
          → Sent queue w buf r
          → ((v : W) (b : List Frame)
              → Queued b (queue v)
              → (n : ℕ) × (n ≤ length fs)
                × Counted n (length fs) (send_all k fuel from fs v).1
                × Queued (b ++ take n fs) (queue (send_all k fuel from fs v).0))
          → Rest (continue (λ _. send_all k fuel from fs) r)
      then_ (v, err e) buf m l sent ih = failed v e sent
      then_ (v, ok u) buf m l sent ih =
          let more : Queued (before ++ (f ∷ [])) (queue v) =
            subst (Queued (before ++ (f ∷ []))) (sym sent)
              (Queued-snoc before f (queue w) buf q l (received-marshal f buf m)) in
          let (n, le, all, rest) = ih v (before ++ (f ∷ [])) more in
          (
            suc n,
            omega arith,
            Counted-suc n (length fs) (send_all k fuel from fs v).1 all,
            subst (λ (x : List Frame). Queued x (queue (send_all k fuel from fs v).0))
                (append_assoc before (f ∷ []) (take n fs)) rest,
          )

      first :
          ((e : Error) × (send k fuel from f w ≡ (w, err e)))
            ⊎ ((buf : List ℕ) × (marshal_binary f ≡ ok buf)
                × (length buf ≡ 16)
                × Sent queue w buf (send k fuel from f w))
          → ((v : W) (b : List Frame)
              → Queued b (queue v)
              → (n : ℕ) × (n ≤ length fs)
                × Counted n (length fs) (send_all k fuel from fs v).1
                × Queued (b ++ take n fs) (queue (send_all k fuel from fs v).0))
          → Rest (continue (λ _. send_all k fuel from fs) (send k fuel from f w))
      first (inl (e, p)) ih = rw p (failed w e refl)
      first (inr (buf, m, l, sent)) ih = then_ (send k fuel from f w) buf m l sent ih

-- On two descriptors that carry datagrams as documented, from an empty queue, whatever is sent and
-- whatever fails: the sender has sent some first part of its frames, which is all of them where
-- every Send succeeded, and that many calls of Receive on the other socket return that part, in the
-- order sent and with nothing left over.
pub receive_all-send_all :
    {W : Type 0} (k : Kernel W) (queue : W → List (List ℕ)) (from to : Socket) (fuel more : ℕ)
    (fs : List Frame) (w : W)
    → Carries k queue from.fd to.fd
    → queue w ≡ []
    → let (v, r) = send_all k fuel from fs w in
      (n : ℕ) × (n ≤ length fs)
      × Counted n (length fs) r
      × ((receive_all k (suc more) to n v).1 ≡ ok (take n fs))
      × (queue (receive_all k (suc more) to n v).0 ≡ [])
receive_all-send_all k queue from to fuel more fs w c empty =
    let (n, le, all, q) = send_all-Queued k queue from to c fuel fs [] w empty in
    let (got, left) =
      receive_all-Queued k queue from to c more (take n fs) (send_all k fuel from fs w).0 q in
    let size : length (take n fs) ≡ n = omega (arith, length-take n fs) in
    let (same, none_left) =
      subst
        (λ (m : ℕ).
          Read queue (take n fs) (receive_all k (suc more) to m (send_all k fuel from fs w).0))
        size (got, left) in
    (n, le, all, same, none_left)
