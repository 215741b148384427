-- ===== src/SocketCan/Delivery/Queue.antt =====
-- What a Send leaves in the queue between two sockets.
use canbus.Prelude.{
  ℕ, zero, suc, ◌≡◌, ◌⊎◌, refl, ◌∙◌, ap, Bool, true, false, Option, List, [], ◌∷◌, ◌++◌, length,
  ◌!=◌, if◌then◌else◌, Error, Result, ok, err, short_write, Result-cases, inl, inr,
}
use canbus.Frame.{Frame, zero_frame, marshal_binary}
use canbus.Frame.RoundTrip.{marshal_ok, marshal_error}
use canbus.Kernel.{Kernel}
use canbus.SocketCan.{Socket, is_again, write_loop, send, received}
use canbus.SocketCan.Retry.{send-write_loop}
use canbus.SocketCan.Delivery.{Carries}

-- The datagrams that Receive reads as these frames.
abbrev pub Queued : List Frame → List (List ℕ) → Type 0
Queued [] ds = ds ≡ []
Queued (f ∷ fs) ds =
    (d : List ℕ) × (rest : List (List ℕ)) × (ds ≡ d ∷ rest)
    × (length d ≡ 16)
    × (received d ≡ ok f)
    × Queued fs rest

pub Queued-snoc :
    (fs : List Frame) (f : Frame) (ds : List (List ℕ)) (d : List ℕ)
    → Queued fs ds
    → length d ≡ 16
    → received d ≡ ok f
    → Queued (fs ++ (f ∷ [])) (ds ++ (d ∷ []))
Queued-snoc [] f ds d q l r = (d, [], ap (λ (x : List (List ℕ)). x ++ (d ∷ [])) q, l, r, refl)
Queued-snoc (g ∷ fs) f ds d (e, rest, q, l', r', tail) l r = (
  e,
  rest ++ (d ∷ []),
  ap (λ (x : List (List ℕ)). x ++ (d ∷ [])) q,
  l',
  r',
  Queued-snoc fs f rest d tail l r,
)

pub received-marshal : (f : Frame) (buf : List ℕ) → marshal_binary f ≡ ok buf → received buf ≡ ok f
unfolding received
received-marshal f buf m =
    let (v, l, u) = marshal_ok f zero_frame buf m in
    rw (u, l) (ap (λ (p : Frame × Option Error). ok p.0) u)

-- What a Send of these bytes leaves in the queue.
abbrev pub Sent : {W : Type 0} → (W → List (List ℕ)) → W → List ℕ → W × Result (Unit {0}) → Type 0
Sent queue w buf (v, ok a) = queue v ≡ queue w ++ (buf ∷ [])
Sent queue w buf (v, err e) = queue v ≡ queue w

Sent-ap :
    {W : Type 0} (queue : W → List (List ℕ)) (w u : W) (buf : List ℕ) (r : W × Result (Unit {0}))
    → queue u ≡ queue w
    → Sent queue u buf r
    → Sent queue w buf r
Sent-ap queue w u buf (v, ok a) q h = h ∙ ap (λ (x : List (List ℕ)). x ++ (buf ∷ [])) q
Sent-ap queue w u buf (v, err e) q h = h ∙ q

module _ {W : Type 0} (k : Kernel W) (queue : W → List (List ℕ)) (from to : Socket)
    (c : Carries k queue from.fd to.fd) where
  write_loop-Sent :
      (fuel : ℕ) (buf : List ℕ) (w : W)
      → length buf ≡ 16
      → Sent queue w buf (write_loop k fuel from.fd buf w)
  unfolding write_loop
  write_loop-Sent zero buf w l = refl
  write_loop-Sent (suc fuel) buf w l =
      round (k.write from.fd buf w) refl (λ v. write_loop-Sent fuel buf (k.pause v) l)
    where
      either :
          (v : W) (e : Error) (again : Bool)
          → queue v ≡ queue w
          → Sent queue (k.pause v) buf (write_loop k fuel from.fd buf (k.pause v))
          → Sent queue w buf
              (if again then write_loop k fuel from.fd buf (k.pause v) else (v, err e))
      either v e true q h =
          Sent-ap queue w (k.pause v) buf (write_loop k fuel from.fd buf (k.pause v))
            (c.pause_keeps v ∙ q) h
      either v e false q h = q

      round :
          (r : W × Result ℕ)
          → k.write from.fd buf w ≡ r
          → ((v : W) → Sent queue (k.pause v) buf (write_loop k fuel from.fd buf (k.pause v)))
          → Sent queue w buf (elim r.1 [
            | ok n ↦ (r.0, if n != length buf then err short_write else ok tt)
            | err e ↦
                if is_again e then write_loop k fuel from.fd buf (k.pause r.0) else (r.0, err e)
          ])
      round (v, ok n) q ih = let (m, more) = c.write_queues buf w v n l q in rw (m, l) more
      round (v, err e) q ih = either v e (is_again e) (c.write_fails buf w v e q) (ih v)

  pub send-Sent :
      (fuel : ℕ) (f : Frame) (w : W)
      → ((e : Error) × (send k fuel from f w ≡ (w, err e)))
        ⊎ ((buf : List ℕ) × (marshal_binary f ≡ ok buf)
            × (length buf ≡ 16)
            × Sent queue w buf (send k fuel from f w))
  unfolding send
  send-Sent fuel f w = elim (Result-cases (marshal_binary f)) [
    | inl (buf, m) ↦ inr (
      buf,
      m,
      (marshal_ok f f buf m).1,
      rw (send-write_loop k from f buf fuel w m)
          (write_loop-Sent fuel buf w (marshal_ok f f buf m).1),
    )
    | inr (e, m) ↦ inl (e, rw ((marshal_error f e).0 m) refl)
  ]
