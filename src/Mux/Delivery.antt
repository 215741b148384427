-- ===== src/Mux/Delivery.antt =====
-- What one subscriber gets of the frames that the reader fans out.
use canbus.Prelude.{
  ℕ, zero, suc, ◌+◌, ◌<◌, ◌≤◌, ◌≡◌, refl, sym, ◌∙◌, arith, true, false, List, [], ◌∷◌, ◌++◌, take,
  take_all, length, length-append, if◌then◌else◌, Bool-cases, inl, inr,
}
use mathlib.Core.List.{append-nil, append_assoc}
use canbus.Frame.{Frame}
use canbus.Filter.{FrameFilter, passes}
use canbus.Mux.{Subscriber, fresh, offer}

-- All rounds of the fan-out for one subscriber, with no receiver waiting.
abbrev pub offers : List Frame → Subscriber → Subscriber
offers [] s = s
offers (f ∷ frames) s = offers frames (offer false f s)

-- The frames that a filter passes, in order.
abbrev pub passed : FrameFilter → List Frame → List Frame
passed filter [] = []
passed filter (f ∷ frames) =
    let rest = passed filter frames in if passes filter f then f ∷ rest else rest

offer_taken :
    (f : Frame) (s : Subscriber)
    → s.live ≡ true
    → passes s.filter f ≡ true
    → length s.queue < s.buffer
    → offer false f s ≡ record s { queue = s.queue ++ (f ∷ []) }
unfolding offer
offer_taken f s l p h = ground arith

offer_passed_over : (f : Frame) (s : Subscriber) → passes s.filter f ≡ false → offer false f s ≡ s
unfolding offer
offer_passed_over f s p = ground arith

offer_dropped : (f : Frame) (s : Subscriber) → s.buffer ≤ length s.queue → offer false f s ≡ s
unfolding offer
offer_dropped f s h = ground arith

offer-live : (f : Frame) (s : Subscriber) → (offer false f s).live ≡ s.live
unfolding offer
offer-live f s = ground arith

pub offers-live : (frames : List Frame) (s : Subscriber) → (offers frames s).live ≡ s.live
offers-live [] s = refl
offers-live (f ∷ frames) s = offers-live frames (offer false f s) ∙ offer-live f s

-- With room for `k` more frames, a live subscriber gets the first `k` that its filter passes.
offers_fill :
    (frames : List Frame) (s : Subscriber) (k : ℕ)
    → s.live ≡ true
    → s.buffer ≡ length s.queue + k
    → (offers frames s).queue ≡ s.queue ++ take k (passed s.filter frames)
offers_fill [] s zero l h = sym (append-nil s.queue)
offers_fill [] s (suc k) l h = sym (append-nil s.queue)
offers_fill (f ∷ frames) s zero l h =
    rw (offer_dropped f s (omega arith), offers) (offers_fill frames s zero l h)
offers_fill (f ∷ frames) s (suc k) l h = elim (Bool-cases (passes s.filter f)) [
  | inl p ↦
      let s' : Subscriber = record s { queue = s.queue ++ (f ∷ []) } in
      rw (offer_taken f s l p (omega arith), p, offers)
        (offers_fill frames s' k l (omega (arith, length-append s.queue (f ∷ [])))
          ∙ append_assoc s.queue (f ∷ []) (take k (passed s.filter frames)))
  | inr p ↦ rw (offer_passed_over f s p, p, offers) (offers_fill frames s (suc k) l h)
]

-- Nobody waiting, a new subscriber has in its channel the first frames that its filter passes, in
-- the order of their arrival, as many as its buffer holds; frames that do not fit are dropped.
pub delivered :
    (frames : List Frame) (id : ℕ) (filter : FrameFilter) (buffer : ℕ)
    → (offers frames (fresh id filter buffer)).queue ≡ take buffer (passed filter frames)
delivered frames id filter buffer =
    offers_fill frames (fresh id filter buffer) buffer refl (omega arith)

-- A buffer for all frames that the filter passes loses none.
pub delivered_all :
    (frames : List Frame) (id : ℕ) (filter : FrameFilter) (buffer : ℕ)
    → length (passed filter frames) ≤ buffer
    → (offers frames (fresh id filter buffer)).queue ≡ passed filter frames
delivered_all frames id filter buffer h =
    delivered frames id filter buffer ∙ take_all (passed filter frames) buffer h
