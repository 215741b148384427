-- ===== src/Message/Subscription/Orderly.antt =====
-- When the goroutine of a subscription has returned.
use canbus.Prelude.{
  ◌≡◌, refl, Bool, true, false, Option, none, some, List, [], ◌∷◌, ◌++◌, length, ltb, if◌then◌else◌,
}
use canbus.Frame.{Frame}
use canbus.Message.Heartbeat.{Heartbeat}
use canbus.Message.Subscription.{
  Subscription, forward, read, Event, offers, shuts, advances, reads, step, run,
}
use canbus.Mux.{Subscriber, offer, take_frame}

-- The goroutine returns only when nothing is left for it.
abbrev pub IsOrderly : Subscription → Type 0
IsOrderly s = s.is_done ≡ true → (s.sub.live ≡ false) × (s.sub.queue ≡ []) × (s.held ≡ none)

abbrev pub with_state :
    Subscriber → List Frame → Bool → Option Heartbeat → Bool → Subscription → Subscription
with_state sub queue live held done s = record s {
  sub = record sub { queue = queue; live = live };
  held = held;
  is_done = done;
}

take-IsOrderly :
    (queue : List Frame) (live : Bool) (s : Subscription)
    → IsOrderly (forward (with_state s.sub queue live none false s))
unfolding forward take_frame
take-IsOrderly [] true s = λ d. absurd (cc (d))
take-IsOrderly [] false s = λ d. (refl, refl, refl)
take-IsOrderly (f ∷ rest) live s = λ d. absurd (cc (d))

pub forward-IsOrderly : (s : Subscription) → IsOrderly s → IsOrderly (forward s)
unfolding forward
forward-IsOrderly s h = by_state s.is_done s.held h
  where
    put :
        (h : Heartbeat) (room : Bool)
        → let s' : Subscription = record s { held = some h; is_done = false } in
          IsOrderly (if room then record s' { held = none; out = s.out ++ (h ∷ []) } else s')
    put h true = λ d. absurd (cc (d))
    put h false = λ d. absurd (cc (d))

    by_state :
        (done : Bool) (held : Option Heartbeat)
        → let s' : Subscription = record s { held = held; is_done = done } in
          IsOrderly s' → IsOrderly (forward s')
    by_state true held h = h
    by_state false none h = take-IsOrderly s.sub.queue s.sub.live s
    by_state false (some x) h = put x (ltb (length s.out) s.out_buffer)

pub read-IsOrderly : (s : Subscription) → IsOrderly s → IsOrderly (read s)
unfolding read
read-IsOrderly s h = by_state s.out s.held h
  where
    by_state :
        (out : List Heartbeat) (held : Option Heartbeat)
        → let s' : Subscription = record s { out = out; held = held } in
          IsOrderly s' → IsOrderly (read s')
    by_state [] none h = h
    by_state [] (some x) h = λ d. let (closed, empty, none_) = h d in (closed, empty, refl)
    by_state (x ∷ rest) held h = h

pub step-IsOrderly : (s : Subscription) (e : Event) → IsOrderly s → IsOrderly (step s e)
unfolding step offer
step-IsOrderly s (offers waiting f) h =
    λ d. let (closed, empty, none_) = h d in rw closed (refl, empty, none_)
step-IsOrderly s shuts h = λ d. let (closed, empty, none_) = h d in (refl, empty, none_)
step-IsOrderly s advances h = forward-IsOrderly s h
step-IsOrderly s reads h = read-IsOrderly s h

pub run-IsOrderly :
    (s : Subscription) (events : List Event) → IsOrderly s → IsOrderly (run s events)
unfolding run
run-IsOrderly s [] h = h
run-IsOrderly s (e ∷ events) h = run-IsOrderly (step s e) events (step-IsOrderly s e h)
