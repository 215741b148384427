-- ===== src/Sdo/Exchange.antt =====
-- Laws of one exchange of the SDO client: which frame it takes, and what it puts on the bus.
pub mod Response
pub mod Ending
use canbus.Prelude.{
  ℕ, suc, ◌≡◌, refl, ap, ◌∙◌, Bool, true, false, none, some, List, [], ◌∷◌, ◌++◌, take, inl, inr,
  Option-cases, arith, Error, Result, ok, err, ◌>>=◌, abort, ltb, ◌||◌, if◌then◌else◌, closed,
  forever,
}
use canbus.Frame.{Frame}
use canbus.Mux.{Subscriber, fresh, take_frame}
use canbus.Mux.Delivery.{passed, delivered, offers-live}
use canbus.Sdo.Segmented.{SdoAbort, parse_sdo_abort}
use canbus.Sdo.Client
use canbus.Sdo.Client.{
  Client, Link, Run, continue, lift, refuse_parsed, refuse_abort, wait, channel, exchange, answered,
}

-- A link that also keeps the frames that were given to Send, the oldest first.
abbrev pub recorded : {W : Type 0} → Link W → Link (W × List Frame)
recorded link = record {
  send = λ s f. let (w, e) = link.send s.0 f in ((w, s.1 ++ (f ∷ [])), e);
  arrive = λ s. let (w, frames) = link.arrive s.0 in ((w, s.1), frames);
  closes = λ s. link.closes s.0;
}

take_frame-cons :
    (s : Subscriber) (f : Frame) (rest : List Frame)
    → s.queue ≡ f ∷ rest
    → take_frame s ≡ some (ok (f, record s { queue = rest }))
unfolding take_frame
take_frame-cons s f rest h = rw (h, take_frame)

module _ {W : Type 0} (link : Link W) (c : Client) (filter : Frame → Bool) where
  channel-queue :
      (buffer : ℕ) (frames : List Frame) (closes : Bool)
      → (channel link c filter buffer frames closes).queue
        ≡ take buffer (passed (some filter) frames)
  channel-queue buffer frames true = delivered frames 0 (some filter) buffer
  channel-queue buffer frames false = delivered frames 0 (some filter) buffer

  wait-first :
      (s : Subscriber) (f : Frame) (rest : List Frame)
      → s.queue ≡ f ∷ rest
      → wait link c (take_frame s) ≡ ok f
  unfolding wait
  wait-first s f rest h = rw (take_frame-cons s f rest h)

  wait-silent :
      (buffer : ℕ) (frames : List Frame) (closes : Bool)
      → passed (some filter) frames ≡ []
      → wait link c (take_frame (channel link c filter (suc buffer) frames closes))
        ≡ err (if ltb 0 c.timeout || closes then closed else forever)
  unfolding wait take_frame
  wait-silent buffer frames true quiet =
      let queue = channel-queue (suc buffer) frames true in ground (arith, queue, quiet)
  wait-silent buffer frames false quiet =
      let queue = channel-queue (suc buffer) frames false in
      ground (arith, queue, quiet, offers-live frames (fresh 0 (some filter) (suc buffer)))

  -- The answer is the first frame after the request that the filter passes.
  pub exchange-first :
      (buffer : ℕ) (req : Frame) (w : W) (f : Frame) (rest : List Frame)
      → let w1 = (link.send w req).0 in
        (link.send w req).1 ≡ none
        → passed (some filter) (link.arrive w1).1 ≡ f ∷ rest
        → exchange link c filter (suc buffer) req w ≡ ((link.arrive w1).0, ok f)
  unfolding exchange
  exchange-first buffer req w f rest sent first =
      let w1 = (link.send w req).0 in
      let frames = (link.arrive w1).1 in
      let s : Subscriber = channel link c filter (suc buffer) frames (link.closes w1) in
      let queue = channel-queue (suc buffer) frames (link.closes w1) in
      rw (sent, exchange, wait-first s f (take buffer rest) (queue ∙ rw first)) refl

  -- A refusal of the bus is the error.
  pub exchange-refused :
      (buffer : ℕ) (req : Frame) (w : W) (e : Error)
      → (link.send w req).1 ≡ some e
      → exchange link c filter buffer req w ≡ ((link.send w req).0, err e)
  unfolding exchange
  exchange-refused buffer req w e h = rw (h, exchange)

  -- Without an answer the wait ends with the timeout or with the channel, or never.
  pub exchange-silent :
      (buffer : ℕ) (req : Frame) (w : W)
      → let w1 = (link.send w req).0 in
        (link.send w req).1 ≡ none
        → passed (some filter) (link.arrive w1).1 ≡ []
        → exchange link c filter (suc buffer) req w ≡ (
          (link.arrive w1).0,
          err (if ltb 0 c.timeout || link.closes w1 then closed else forever),
        )
  unfolding exchange
  exchange-silent buffer req w sent quiet =
      let w1 = (link.send w req).0 in
      let frames = (link.arrive w1).1 in
      rw (sent, exchange)
        (ap (λ (r : Result Frame). ((link.arrive w1).0, r))
          (wait-silent buffer frames (link.closes w1) quiet))

  -- Whatever comes of it, an exchange puts its request on the bus, once, and nothing else.
  pub exchange-log :
      (buffer : ℕ) (req : Frame) (w : W) (log : List Frame)
      → (exchange (recorded link) c filter buffer req (w, log)).0.1 ≡ log ++ (req ∷ [])
  unfolding exchange
  exchange-log buffer req w log = elim (Option-cases (link.send w req).1) [
    | inl e ↦ rw (e, exchange)
    | inr (x, e) ↦ rw (e, exchange)
  ]

-- The look for an abort in an answer changes the result alone.
abbrev judge : {W : Type 0} → W × Result Frame → W × Result Frame
judge (w, ok f) = (w, (refuse_abort f) >>= (λ _. ok f))
judge (w, err e) = (w, err e)

judge-world : {W : Type 0} (r : W × Result Frame) → (judge r).0 ≡ r.0
judge-world (w, ok f) = refl
judge-world (w, err e) = refl

module _ {W : Type 0} (link : Link W) (c : Client) (filter : Frame → Bool) where
  answered-judge :
      (buffer : ℕ) (req : Frame) (w : W)
      → answered link c filter buffer req w ≡ judge (exchange link c filter buffer req w)
  answered-judge buffer req w = go (exchange link c filter buffer req w)
    where
      inner :
          (w : W) (f : Frame) (r : Result (Unit {0}))
          → continue (λ _. lift (ok f)) (w, r) ≡ (w, r >>= (λ _. ok f))
      inner w f (ok u) = refl
      inner w f (err e) = refl

      go :
          (r : W × Result Frame)
          → continue (λ rsp. Client.◌>>◌ (lift (refuse_abort rsp)) (lift (ok rsp))) r ≡ judge r
      go (w, ok f) = inner w f (refuse_abort f)
      go (w, err e) = refl

module _ {W : Type 0} (link : Link W) (c : Client) (filter : Frame → Bool) where
  -- So does an exchange with the look for an abort, whatever it finds.
  pub answered-log :
      (buffer : ℕ) (req : Frame) (w : W) (log : List Frame)
      → (answered (recorded link) c filter buffer req (w, log)).0.1 ≡ log ++ (req ∷ [])
  answered-log buffer req w log =
      let l = recorded link in
      ap (λ (r : (W × List Frame) × Result Frame). r.0.1)
        (answered-judge l c filter buffer req (w, log))
      ∙ ap (λ (s : W × List Frame). s.1) (judge-world (exchange l c filter buffer req (w, log)))
      ∙ exchange-log link c filter buffer req w log

  -- An answer that is no abort is the result.
  pub answered-first :
      (buffer : ℕ) (req : Frame) (w : W) (f : Frame) (rest : List Frame)
      → let w1 = (link.send w req).0 in
        (link.send w req).1 ≡ none
        → passed (some filter) (link.arrive w1).1 ≡ f ∷ rest
        → parse_sdo_abort f ≡ none
        → answered link c filter (suc buffer) req w ≡ ((link.arrive w1).0, ok f)
  unfolding refuse_abort
  answered-first buffer req w f rest sent first no_abort =
      answered-judge link c filter (suc buffer) req w
      ∙ ap judge (exchange-first link c filter buffer req w f rest sent first)
      ∙ rw (no_abort, refuse_abort)

  pub answered-refused :
      (buffer : ℕ) (req : Frame) (w : W) (e : Error)
      → (link.send w req).1 ≡ some e
      → answered link c filter buffer req w ≡ ((link.send w req).0, err e)
  answered-refused buffer req w e h =
      answered-judge link c filter buffer req w
      ∙ ap judge (exchange-refused link c filter buffer req w e h)

  pub answered-silent :
      (buffer : ℕ) (req : Frame) (w : W)
      → let w1 = (link.send w req).0 in
        (link.send w req).1 ≡ none
        → passed (some filter) (link.arrive w1).1 ≡ []
        → answered link c filter (suc buffer) req w ≡ (
          (link.arrive w1).0,
          err (if ltb 0 c.timeout || link.closes w1 then closed else forever),
        )
  answered-silent buffer req w sent quiet =
      answered-judge link c filter (suc buffer) req w
      ∙ ap judge (exchange-silent link c filter buffer req w sent quiet)

  -- An abort is the error, with the object and the code that the device gave.
  pub answered-abort :
      (buffer : ℕ) (req : Frame) (w : W) (f : Frame) (rest : List Frame) (node : ℕ) (ab : SdoAbort)
      → let w1 = (link.send w req).0 in
        (link.send w req).1 ≡ none
        → passed (some filter) (link.arrive w1).1 ≡ f ∷ rest
        → parse_sdo_abort f ≡ some (node, ab)
        → answered link c filter (suc buffer) req w
          ≡ ((link.arrive w1).0, err (abort ab.index ab.subindex ab.code))
  unfolding refuse_abort
  answered-abort buffer req w f rest node ab sent first found =
      answered-judge link c filter (suc buffer) req w
      ∙ ap judge (exchange-first link c filter buffer req w f rest sent first)
      ∙ rw (found, refuse_abort)

-- A method that succeeds has succeeded in its first step.
pub bind-ok :
    {W A B : Type 0} (m : Run W A) (f : A → Run W B) (w w' : W) (b : B)
    → Client.◌>>=◌ m f w ≡ (w', ok b)
    → (w1 : W) × (a : A) × (m w ≡ (w1, ok a)) × (f a w1 ≡ (w', ok b))
bind-ok {W} {A} {B} m f w w' b e = go (m w) refl e
  where
    go :
        (r : W × Result A)
        → m w ≡ r
        → continue f r ≡ (w', ok b)
        → (w1 : W) × (a : A) × (m w ≡ (w1, ok a)) × (f a w1 ≡ (w', ok b))
    go (w1, ok a) h e = (w1, a, h, e)
    go (w1, err x) h e = cc
