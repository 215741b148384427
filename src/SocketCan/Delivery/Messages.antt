-- ===== src/SocketCan/Delivery/Messages.antt =====
-- CANopen messages from one socket to another.
use mathlib.Core.Path.{subst}
use canbus.Prelude.{
  ℕ, suc, ◌≡◌, sym, ◌∙◌, ap, Option, none, some, List, [], ◌∷◌, ◌++◌, Error, Result, ok, err, inl,
  inr,
}
use canbus.Prelude.Runs.{Run, continue, lift, ◌>>=◌}
use canbus.Frame.{Frame}
use canbus.Kernel.{Kernel}
use canbus.Message.{FrameCodec, IsLawful}
use canbus.SocketCan.{Socket, send, receive}
use canbus.SocketCan.Delivery.{Carries}
use canbus.SocketCan.Delivery.Queue.{received-marshal, Sent, send-Sent}
use canbus.SocketCan.Delivery.Order.{receive-Queued}

-- MarshalCANFrame and then Send.
abbrev pub send_message :
    {W T : Type 0} → Kernel W → FrameCodec T → ℕ → Socket → T → Run W (Unit {0})
send_message k c fuel s t = do f ← lift (c.marshal t); send k fuel s f

-- What UnmarshalCANFrame has made of a receiver, with its error.
abbrev pub unmarshalled : {T : Type 0} → T × Option Error → Result T
unmarshalled (t, none) = ok t
unmarshalled (t, some e) = err e

-- Receive and then UnmarshalCANFrame, into `r`.
abbrev pub receive_message : {W T : Type 0} → Kernel W → FrameCodec T → ℕ → Socket → T → Run W T
receive_message k c fuel s r = do f ← receive k fuel s; lift (unmarshalled (c.unmarshal r f))

-- Where two sockets carry datagrams as documented and none is waiting, a message that a lawful
-- codec can carry and that was sent without an error is the message that is received at the other
-- socket, whatever the receiver held, with nothing left over.
pub receive-send_message :
    {W T : Type 0} (k : Kernel W) (queue : W → List (List ℕ)) (from to : Socket) (c : FrameCodec T)
    (Good : T → Type 0) (fuel more : ℕ) (t r : T) (w v : W)
    → Carries k queue from.fd to.fd
    → IsLawful c Good
    → Good t
    → queue w ≡ []
    → send_message k c fuel from t w ≡ (v, ok tt)
    → ((receive_message k c (suc more) to r v).1 ≡ ok t)
      × (queue (receive_message k c (suc more) to r v).0 ≡ [])
receive-send_message {W} {T} k queue from to c Good fuel more t r w v carries lawful good empty
      sent =
    let (f, made, valid, reads) = lawful.carries t good in
    let went : send k fuel from f w ≡ (v, ok tt) =
      ap (λ (m : Result Frame). continue (send k fuel from) (w, m)) (sym made) ∙ sent in
    elim (send-Sent k queue from to carries fuel f w) [
      | inl (e, p) ↦ absurd (cc (ap (λ (x : W × Result (Unit {0})). x.1) (sym p ∙ went)))
      | inr (buf, m, l, s) ↦
          let waits : queue v ≡ buf ∷ [] =
            subst (Sent queue w buf) went s ∙ ap (λ (ds : List (List ℕ)). ds ++ (buf ∷ [])) empty in
          let (step, left) =
            receive-Queued k queue from to carries more f buf [] v waits l
              (received-marshal f buf m) in
          let whole : receive_message k c (suc more) to r v ≡ ((k.read to.fd 16 v).0, ok t) =
            ap (continue (λ (g : Frame). lift (unmarshalled (c.unmarshal r g)))) step
            ∙ ap (λ (x : T × Option Error). ((k.read to.fd 16 v).0, unmarshalled x)) (reads r) in
          (ap (λ (x : W × Result T). x.1) whole, ap (λ (x : W × Result T). queue x.0) whole ∙ left)
    ]
