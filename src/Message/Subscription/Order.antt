-- ===== src/Message/Subscription/Order.antt =====
-- The order and the number of the heartbeats on their way through a subscription.
use canbus.Prelude.{
  ℕ, ◌≤◌, ◌≡◌, refl, sym, ◌∙◌, ap, arith, ◌⊎◌, inl, inr, Bool, true, false, ◌&&◌, Option, none,
  some, List, [], ◌∷◌, ◌++◌, length, drop, All, ltb, if◌then◌else◌, Result-cases, drop_all,
  drop-length,
}
use mathlib.Core.Path.{subst}
use mathlib.Core.List.{map, append-nil, append_assoc}
use canbus.Frame.{Frame}
use canbus.Message.Heartbeat.{Heartbeat, other_node, parse_heartbeat, heartbeats}
use canbus.Message.Stream.{heartbeat_of, heartbeats_delivered}
use canbus.Message.Subscription.{
  Subscription, subscribe_heartbeats, parsed, is_idle, forward, read, Event, offers, shuts,
  advances, reads, step, run,
}
use canbus.Mux
use canbus.Mux.{Subscriber, offer, take_frame, shut, has_room}
use canbus.Filter.{passes}

abbrev pub held_list : Option Heartbeat → List Heartbeat
held_list none = []
held_list (some h) = h ∷ []

-- What the reader has got, and what is on its way to it: in `out`, in the goroutine, and in the
-- channel of frames.
abbrev pub on_the_way : Subscription → List Heartbeat
on_the_way s = s.got ++ (s.out ++ (held_list s.held ++ heartbeats s.sub.queue))

-- The frames that the mux has put into the channel, in the order of the events.
unfoldable pub arrived : Subscription → List Event → List Frame
arrived s [] = []
arrived s (e ∷ events) = drop (length s.sub.queue) (step s e).sub.queue ++ arrived (step s e) events

heartbeats-cons :
    (f : Frame) (fs : List Frame) → heartbeats (f ∷ fs) ≡ held_list (parsed f) ++ heartbeats fs
unfolding heartbeats parsed
heartbeats-cons f fs = elim (Result-cases (parse_heartbeat f)) [
  | inl ((node, state), p) ↦ rw (p, heartbeats, parsed) refl
  | inr (e, p) ↦ rw (p, heartbeats, parsed) refl
]

heartbeats-append : (xs ys : List Frame) → heartbeats (xs ++ ys) ≡ heartbeats xs ++ heartbeats ys
heartbeats-append [] ys = unfold heartbeats in refl
heartbeats-append (f ∷ xs) ys =
    heartbeats-cons f (xs ++ ys)
    ∙ ap (λ (hs : List Heartbeat). held_list (parsed f) ++ hs) (heartbeats-append xs ys)
    ∙ sym (append_assoc (held_list (parsed f)) (heartbeats xs) (heartbeats ys))
    ∙ ap (λ (hs : List Heartbeat). hs ++ heartbeats ys) (sym (heartbeats-cons f xs))

-- What the mux adds to the channel goes behind what is there.
offer_or_drop :
    (waiting : Bool) (f : Frame) (s : Subscriber)
    → (offer waiting f s ≡ s)
      ⊎ ((offer waiting f s ≡ record s { queue = s.queue ++ (f ∷ []) })
          × (passes s.filter f ≡ true))
unfolding offer
offer_or_drop waiting f s = either s.live (passes s.filter f) (has_room waiting s)
  where
    either :
        (l p r : Bool)
        → ((if l && (p && r) then record s { queue = s.queue ++ (f ∷ []) } else s) ≡ s)
          ⊎ (((if l && (p && r) then record s { queue = s.queue ++ (f ∷ []) } else s)
                ≡ record s { queue = s.queue ++ (f ∷ []) })
              × (p ≡ true))
    either true true true = inr (refl, refl)
    either true true false = inl refl
    either true false r = inl refl
    either false p r = inl refl

-- The goroutine and the reader move heartbeats on, and keep their order.
abbrev pub Kept : Subscription → Subscription → Type 0
Kept s s' =
    (on_the_way s' ≡ on_the_way s)
    × (length s'.sub.queue ≤ length s.sub.queue)
    × (s'.sub.filter ≡ s.sub.filter)

take-Kept :
    (id buffer out_buffer : ℕ) (filter : Option (Frame → Bool)) (queue : List Frame) (live : Bool)
    (out got : List Heartbeat)
    → let s : Subscription = record {
      sub = record { id = id; filter = filter; buffer = buffer; queue = queue; live = live };
      held = none;
      out = out;
      out_buffer = out_buffer;
      is_done = false;
      got = got;
    } in
      Kept s (forward s)
unfolding forward take_frame
take-Kept id buffer out_buffer filter [] true out got = (refl, omega arith, refl)
take-Kept id buffer out_buffer filter [] false out got = (refl, omega arith, refl)
take-Kept id buffer out_buffer filter (f ∷ rest) live out got = (
  ap (λ (hs : List Heartbeat). got ++ (out ++ hs)) (sym (heartbeats-cons f rest)),
  omega arith,
  refl,
)

pub forward-Kept : (s : Subscription) → Kept s (forward s)
unfolding forward
forward-Kept s = by_state s.is_done s.held
  where
    put :
        (h : Heartbeat) (room : Bool)
        → let s' : Subscription = record s { held = some h; is_done = false } in
          Kept s' (if room then record s' { held = none; out = s.out ++ (h ∷ []) } else s')
    put h true = (
      ap (λ (hs : List Heartbeat). s.got ++ hs)
          (append_assoc s.out (h ∷ []) (heartbeats s.sub.queue)),
      omega arith,
      refl,
    )
    put h false = (refl, omega arith, refl)

    by_state :
        (done : Bool) (held : Option Heartbeat)
        → let s' : Subscription = record s { held = held; is_done = done } in Kept s' (forward s')
    by_state true held = (refl, omega arith, refl)
    by_state false none =
        take-Kept s.sub.id s.sub.buffer s.out_buffer s.sub.filter s.sub.queue s.sub.live s.out s.got
    by_state false (some h) = put h (ltb (length s.out) s.out_buffer)

pub read-Kept : (s : Subscription) → Kept s (read s)
unfolding read
read-Kept s = by_state s.out s.held
  where
    by_state :
        (out : List Heartbeat) (held : Option Heartbeat)
        → let s' : Subscription = record s { out = out; held = held } in Kept s' (read s')
    by_state [] none = (refl, omega arith, refl)
    by_state [] (some h) = (append_assoc s.got (h ∷ []) (heartbeats s.sub.queue), omega arith, refl)
    by_state (h ∷ rest) held = (
      append_assoc s.got (h ∷ []) (rest ++ (held_list held ++ heartbeats s.sub.queue)),
      omega arith,
      refl,
    )

-- A step after which `fs` have come to what is on its way.
abbrev Grown : Subscription → Subscription → List Frame → Type 0
Grown s s' fs =
    (on_the_way s' ≡ on_the_way s ++ heartbeats fs)
    × (s'.sub.filter ≡ s.sub.filter)
    × All (λ f. passes s.sub.filter f ≡ true) fs

Kept-Grown : (s s' : Subscription) → Kept s s' → Grown s s' (drop (length s.sub.queue) s'.sub.queue)
Kept-Grown s s' (same, short, filter) =
    subst (λ (fs : List Frame). Grown s s' fs)
      (sym (drop_all s'.sub.queue (length s.sub.queue) short))
      (same ∙ sym (append-nil (on_the_way s)) ∙ unfold heartbeats in refl, filter, tt)

snoc_on_the_way :
    (got out held : List Heartbeat) (queue : List Frame) (f : Frame)
    → got ++ (out ++ (held ++ heartbeats (queue ++ (f ∷ []))))
      ≡ (got ++ (out ++ (held ++ heartbeats queue))) ++ heartbeats (f ∷ [])
snoc_on_the_way got out held queue f =
    rw (heartbeats-append queue (f ∷ [])) (simp (append_assoc) refl)

step-Grown :
    (s : Subscription) (e : Event)
    → Grown s (step s e) (drop (length s.sub.queue) (step s e).sub.queue)
unfolding step
step-Grown s (offers waiting f) =
    let After = λ (sub : Subscriber).
      Grown s (record s { sub = sub }) (drop (length s.sub.queue) sub.queue) in
    elim (offer_or_drop (waiting && is_idle s) f s.sub) [
      | inl p ↦ subst After (sym p) (Kept-Grown s s (refl, omega arith, refl))
      | inr (p, passed) ↦ subst After (sym p) (
          subst
            (λ (fs : List Frame).
              Grown s (record s { sub = record s.sub { queue = s.sub.queue ++ (f ∷ []) } }) fs)
            (sym (drop-length s.sub.queue (f ∷ [])))
            (snoc_on_the_way s.got s.out (held_list s.held) s.sub.queue f, refl, (passed, tt)))
    ]
step-Grown s shuts = Kept-Grown s (record s { sub = shut s.sub }) (refl, omega arith, refl)
step-Grown s advances = Kept-Grown s (forward s) (forward-Kept s)
step-Grown s reads = Kept-Grown s (read s) (read-Kept s)

All-append : (P : Frame → Type 0) (xs ys : List Frame) → All P xs → All P ys → All P (xs ++ ys)
All-append P [] ys h k = k
All-append P (x ∷ xs) ys h k = (h.0, All-append P xs ys h.1 k)

run-Grown : (s : Subscription) (events : List Event) → Grown s (run s events) (arrived s events)
unfolding run arrived
run-Grown s [] = (sym (append-nil (on_the_way s)) ∙ unfold heartbeats in refl, refl, tt)
run-Grown s (e ∷ events) =
    let fs = drop (length s.sub.queue) (step s e).sub.queue in
    let gs = arrived (step s e) events in
    let (first, filter, passed) = step-Grown s e in
    let (rest, filter', passed') = run-Grown (step s e) events in
    (
      rest
          ∙ ap (λ (hs : List Heartbeat). hs ++ heartbeats gs) first
          ∙ append_assoc (on_the_way s) (heartbeats fs) (heartbeats gs)
          ∙ ap (λ (hs : List Heartbeat). on_the_way s ++ hs) (sym (heartbeats-append fs gs)),
      filter' ∙ filter,
      All-append (λ f. passes s.sub.filter f ≡ true) fs gs passed
          (subst (λ (p : Option (Frame → Bool)). All (λ f. passes p f ≡ true) gs) filter passed'),
    )

-- Whatever the mux, the goroutine and the reader do and in whatever order: what the reader has got,
-- followed by what is on its way to it, are the heartbeats of exactly the frames that the mux has
-- put into the channel, one for each and in their order, and all are of the wanted node, if one is
-- given.
pub heartbeats_in_order :
    (m : Mux.Mux) (node_filter : Option ℕ) (buffer : ℕ) (events : List Event)
    → let (m', s) = subscribe_heartbeats m node_filter buffer in
      (on_the_way (run s events) ≡ map heartbeat_of (arrived s events))
      × All (λ h. other_node node_filter h.node ≡ false) (on_the_way (run s events))
unfolding subscribe_heartbeats
heartbeats_in_order m node_filter buffer events =
    let (m', s) = subscribe_heartbeats m node_filter buffer in
    let (sum, filter, passed) = run-Grown s events in
    let (each, nodes) = heartbeats_delivered node_filter (arrived s events) passed in
    let whole : on_the_way (run s events) ≡ heartbeats (arrived s events) =
      sum ∙ unfold heartbeats in refl in
    (whole ∙ each, subst (All (λ h. other_node node_filter h.node ≡ false)) (sym whole) nodes)
