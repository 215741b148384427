-- ===== src/Loopback/Queues.antt =====
-- What each step of a loopback bus does to the channel of an endpoint.
use canbus.Prelude.{
  ℕ, zero, suc, ◌<◌, ◌≡◌, refl, sym, ◌∙◌, arith, Bool, true, ◌||◌, Option, none, some, List, [],
  ◌∷◌, ◌++◌, ◌==◌, if◌then◌else◌, Bool-cases, inl, inr, Result, ok, err,
}
use mathlib.Core.Path.{subst}
use mathlib.Core.List.{append-nil}
use canbus.Frame.{Frame}
use canbus.Loopback.{
  Bus, open_endpoint, close_no_lock, close_each, close_bus, receive, push, select_target, sent,
  skipped, blocked, panics, Outcome, Flight, starting, delivering, returned, advance, System,
  after_receive, advance_at, Event, opens, closes, closes_bus, receives, begins, advances, step,
}
use canbus.Loopback.Closing.{IfSome, IfSome-map, IfSome-weaken}
use canbus.Loopback.Panics.{get_elem?}

-- The delivery that a step of a call makes: the target and the frame.
abbrev pub on_sent : Outcome → ℕ × Frame → Option (ℕ × Frame)
on_sent sent d = some d
on_sent skipped d = none
on_sent blocked d = none
on_sent panics d = none

abbrev pub delivery : Bool → Option Flight → Bus → Option (ℕ × Frame)
delivery pick (some (delivering f (t ∷ targets))) b = on_sent (select_target pick (b.ends t)) (t, f)
delivery pick (some (delivering f [])) b = none
delivery pick (some (starting i f)) b = none
delivery pick (some (returned e)) b = none
delivery pick none b = none

abbrev pub delivered_by : System → Event → Option (ℕ × Frame)
delivered_by s (advances k pick) = delivery pick (get_elem? s.flights k) s.bus
delivered_by s opens = none
delivered_by s (closes i) = none
delivered_by s closes_bus = none
delivered_by s (receives i) = none
delivered_by s (begins i f) = none

abbrev pub frame_for : ℕ → Option (ℕ × Frame) → List Frame
frame_for i none = []
frame_for i (some (t, f)) = if i == t then f ∷ [] else []

-- The frame that a Receive returns.
abbrev pub got : Option (Result Frame × Bus) → List Frame
got none = []
got (some (ok f, b)) = f ∷ []
got (some (err e, b)) = []

-- The frame that a Receive returns at an endpoint in a step.
abbrev pub taken_by : ℕ → System → Event → List Frame
taken_by i s (receives j) = if i == j then got (receive j s.bus) else []
taken_by i s opens = []
taken_by i s (closes j) = []
taken_by i s closes_bus = []
taken_by i s (begins j f) = []
taken_by i s (advances k pick) = []

-- The channel of an endpoint that is open before and behind the step: what is put in stands behind
-- what was there, and what is taken stood first.
abbrev pub Balanced : ℕ → Bus → List Frame → List Frame → Bus → Type 0
Balanced i b puts takes c = ((b.ends i).queue ++ puts ≡ takes ++ (c.ends i).queue) × (i < c.opened)

unchanged :
    (i : ℕ) (b c : Bus)
    → i < b.opened
    → (c.ends i).queue ≡ (b.ends i).queue
    → c.opened ≡ b.opened
    → Balanced i b [] [] c
unchanged i b c h q o = (append-nil (b.ends i).queue ∙ sym q, rw o h)

-- The bus behind a delivery.
abbrev pub delivered_to : Option (ℕ × Frame) → Bus → Bus
delivered_to none b = b
delivered_to (some (t, f)) b = push f t b

delivered_to-Balanced :
    (i : ℕ) (d : Option (ℕ × Frame)) (b : Bus)
    → i < b.opened
    → Balanced i b (frame_for i d) [] (delivered_to d b)
unfolding push
delivered_to-Balanced i none b h = unchanged i b b h refl refl
delivered_to-Balanced i (some (t, f)) b h = elim (Bool-cases (i == t)) [
  | inl e ↦ let same : i ≡ t = ground arith in (ground (arith, same), h)
  | inr e ↦ (ground (arith, append-nil (b.ends i).queue), h)
]

advance_bus :
    (pick : Bool) (t : Flight) (b : Bus)
    → IfSome
        (λ (r : Flight × Bus). r.1 ≡ delivered_to (delivery pick (some t) b) b)
        (advance pick t b)
unfolding advance
advance_bus pick (returned e) b = refl
advance_bus pick (starting i f) b = refl
advance_bus pick (delivering f []) b = refl
advance_bus pick (delivering f (t ∷ targets)) b = by_outcome (select_target pick (b.ends t)) refl
  where
    by_outcome :
        (o : Outcome)
        → select_target pick (b.ends t) ≡ o
        → IfSome
            (λ (r : Flight × Bus).
              r.1 ≡ delivered_to (on_sent (select_target pick (b.ends t)) (t, f)) b)
            (advance pick (delivering f (t ∷ targets)) b)
    by_outcome sent e = rw (e, advance) refl
    by_outcome skipped e = rw (e, advance) refl
    by_outcome blocked e = rw (e, advance) refl
    by_outcome panics e = rw (e, advance) tt

pub advance_at_bus :
    (k : ℕ) (pick : Bool) (flights : List Flight) (b : Bus)
    → IfSome
        (λ (r : List Flight × Bus). r.1 ≡ delivered_to (delivery pick (get_elem? flights k) b) b)
        (advance_at k pick flights b)
unfolding advance_at
advance_at_bus k pick [] b = refl
advance_at_bus zero pick (t ∷ flights) b =
    IfSome-map _ _ (λ (r : Flight × Bus). (r.0 ∷ flights, r.1)) (advance pick t b) (λ a q. q)
      (advance_bus pick t b)
advance_at_bus (suc k) pick (t ∷ flights) b =
    IfSome-map _ _ (λ (r : List Flight × Bus). (t ∷ r.0, r.1)) (advance_at k pick flights b)
      (λ a q. q) (advance_at_bus k pick flights b)

-- Closing leaves what is in the channels.
abbrev pub SameQueues : Bus → Bus → Type 0
SameQueues b c = ((j : ℕ) → (c.ends j).queue ≡ (b.ends j).queue) × (c.opened ≡ b.opened)

pub close_no_lock-SameQueues : (i : ℕ) (b : Bus) → IfSome (SameQueues b) (close_no_lock i b)
unfolding close_no_lock
close_no_lock-SameQueues i b = elim (Bool-cases (b.ends i).dead) [
  | inl e ↦ rw (e, close_no_lock) ((λ j. refl), refl)
  | inr e ↦ elim (Bool-cases ((b.ends i).signalled || (b.ends i).sealed)) [
    | inl p ↦ rw (e, p, close_no_lock) tt
    | inr p ↦ rw (e, p, close_no_lock) ((λ j. ground arith), refl)
  ]
]

close_each-SameQueues : (ids : List ℕ) (b : Bus) → IfSome (SameQueues b) (close_each ids b)
unfolding close_each
close_each-SameQueues [] b = ((λ j. refl), refl)
close_each-SameQueues (i ∷ ids) b =
    by_first (λ c. close_each-SameQueues ids c) (close_no_lock i b) refl
  where
    by_first :
        ((c : Bus) → IfSome (SameQueues c) (close_each ids c))
        → (o : Option Bus) → close_no_lock i b ≡ o
        → IfSome (SameQueues b) (close_each (i ∷ ids) b)
    by_first more none e = rw (e, close_each) tt
    by_first more (some c) e =
        let one : SameQueues b c = subst (IfSome (SameQueues b)) e (close_no_lock-SameQueues i b) in
        rw (e, close_each)
          (IfSome-weaken (close_each ids c) (λ d q. ((λ j. q.0 j ∙ one.0 j), q.1 ∙ one.1)) (more c))

pub close_bus-SameQueues : (b : Bus) → IfSome (SameQueues b) (close_bus b)
unfolding close_bus
close_bus-SameQueues b = elim (Bool-cases b.is_closed) [
  | inl e ↦ rw (e, close_bus) ((λ j. refl), refl)
  | inr e ↦
      rw (e, close_bus)
        (IfSome-map (SameQueues b) (SameQueues b) (λ (c : Bus). record c { attached = [] })
          (close_each b.attached (record b { is_closed = true })) (λ c q. q)
          (close_each-SameQueues b.attached (record b { is_closed = true })))
]

pub receive-Balanced :
    (i j : ℕ) (s : System)
    → i < s.bus.opened
    → Balanced i s.bus [] (taken_by i s (receives j)) (after_receive s (receive j s.bus)).bus
unfolding receive
receive-Balanced i j s h = by_queue (s.bus.ends j).queue refl
  where
    by_queue :
        (queue : List Frame)
        → (s.bus.ends j).queue ≡ queue
        → Balanced i s.bus [] (taken_by i s (receives j)) (after_receive s (receive j s.bus)).bus
    by_queue (f ∷ rest) e =
        let here = append-nil (s.bus.ends i).queue in
        elim (Bool-cases (i == j)) [
          | inl p ↦ let same : i ≡ j = ground arith in rw (e, p, receive) (here ∙ rw same e, h)
          | inr p ↦ rw (e, p, receive) (here, h)
        ]
    by_queue [] e =
        let here = append-nil (s.bus.ends i).queue in
        elim (Bool-cases (s.bus.ends j).sealed) [
          | inl p ↦ rw (e, p, receive) (ground (arith, here), h)
          | inr p ↦ rw (e, p, receive) (ground (arith, here), h)
        ]

-- A step that does not panic.
pub step-Balanced :
    (i : ℕ) (s : System) (e : Event)
    → i < s.bus.opened
    → IfSome
        (λ r. Balanced i s.bus (frame_for i (delivered_by s e)) (taken_by i s e) r.bus)
        (step s e)
unfolding step open_endpoint
step-Balanced i s opens h = elim (Bool-cases s.bus.is_closed) [
  | inl e ↦ (ground (arith, append-nil (s.bus.ends i).queue), ground arith)
  | inr e ↦ (ground (arith, append-nil (s.bus.ends i).queue), ground arith)
]
step-Balanced i s (closes j) h =
    IfSome-map (SameQueues s.bus) _ (λ c. record s { bus = c }) (close_no_lock j s.bus)
      (λ c q. unchanged i s.bus c h (q.0 i) q.1) (close_no_lock-SameQueues j s.bus)
step-Balanced i s closes_bus h =
    IfSome-map (SameQueues s.bus) _ (λ c. record s { bus = c }) (close_bus s.bus)
      (λ c q. unchanged i s.bus c h (q.0 i) q.1) (close_bus-SameQueues s.bus)
step-Balanced i s (receives j) h = receive-Balanced i j s h
step-Balanced i s (begins j f) h = unchanged i s.bus s.bus h refl refl
step-Balanced i s (advances k pick) h =
    let d = delivery pick (get_elem? s.flights k) s.bus in
    IfSome-map (λ (r : List Flight × Bus). r.1 ≡ delivered_to d s.bus) _
      (λ (r : List Flight × Bus). record { bus = r.1; flights = r.0 })
      (advance_at k pick s.flights s.bus)
      (λ r q.
        subst (Balanced i s.bus (frame_for i d) []) (sym q) (delivered_to-Balanced i d s.bus h))
      (advance_at_bus k pick s.flights s.bus)
