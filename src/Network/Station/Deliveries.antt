-- ===== src/Network/Station/Deliveries.antt =====
-- What a subscription gets of the frames that Sends put into the endpoint of its mux.
use canbus.Prelude.{
  ℕ, ◌+◌, ◌<◌, ◌≤◌, ◌≡◌, ◌≢◌, ◌⊎◌, refl, sym, ap, ◌∙◌, arith, Bool, true, Option, none, some, List,
  [], ◌∷◌, ◌++◌, length, Bool-cases, inl, inr, Result, ok, eq→==, err,
}
use mathlib.Core.Path.{subst}
use mathlib.Core.List.{append-nil}
use canbus.Frame.{Frame}
use canbus.Filter.{passes}
use canbus.Loopback
use canbus.Loopback.{System, after_receive}
use canbus.Loopback.Closing.{IfSome, IfSome-map}
use canbus.Loopback.Queues.{
  Balanced, got, taken_by, frame_for, delivered_by, step-Balanced, receive-Balanced,
}
use canbus.Mux
use canbus.Mux.{Subscriber, Phase, checking, receiving, ended, offer, shut}
use canbus.Mux.Delivery.{passed}
use canbus.Mux.Subscriptions.{find, find-step}
use canbus.Network.Station.{
  Station, Event, on_bus, on_mux, reads, after_read, read_at, step, puts, got_at, gets, IsOwn,
}

-- The subscription is there, and open while the reader runs.
pub record Held (id : ℕ) (s : Station) (sub : Subscriber) : Type 0 where
  pub found : find id s.mux.subs ≡ some sub
  pub named : sub.id ≡ id
  pub runs : (sub.live ≡ true) ⊎ (s.mux.phase ≡ ended)

-- A step in which the reader gets the frames `g`.
pub record Follows (i id : ℕ) (s t : Station) (sub after : Subscriber) (p g : List Frame)
    : Type 0 where
  pub held : Held id t after
  pub filled : after.queue ≡ sub.queue ++ passed sub.filter g
  pub filter_same : after.filter ≡ sub.filter
  pub buffer_same : after.buffer ≡ sub.buffer
  pub balanced : Balanced i s.system.bus p g t.system.bus

stays :
    (i id : ℕ) (s t : Station) (sub : Subscriber) (p g : List Frame)
    → Held id t sub
    → g ≡ []
    → Balanced i s.system.bus p g t.system.bus
    → Follows i id s t sub sub p g
stays i id s t sub p g held none_got balanced = record {
  held = held;
  filled = sym (append-nil sub.queue) ∙ ap (λ l. sub.queue ++ passed sub.filter l) (sym none_got);
  filter_same = refl;
  buffer_same = refl;
  balanced = balanced;
}

-- What the reader alone takes, nobody else takes.
not_taken :
    (i id : ℕ) (s : System) (e : Loopback.Event) → IsOwn i id (on_bus e) → taken_by i s e ≡ []
not_taken i id s Loopback.opens own = refl
not_taken i id s (Loopback.closes j) own = refl
not_taken i id s Loopback.closes_bus own = refl
not_taken i id s (Loopback.receives j) own = rw own refl
not_taken i id s (Loopback.begins j f) own = refl
not_taken i id s (Loopback.advances k pick) own = refl

on_mux-Held :
    (i id : ℕ) (s : Station) (e : Mux.Event) (sub : Subscriber)
    → IsOwn i id (on_mux e)
    → id ≢ s.mux.next
    → Held id s sub
    → Held id (record s { mux = Mux.step s.mux e }) sub
unfolding Mux.step
on_mux-Held i id s (Mux.subscribes filter buffer) sub own old h = record {
  found = find-step s.mux (Mux.subscribes filter buffer) id old ∙ rw h.found refl;
  named = h.named;
  runs = h.runs;
}
on_mux-Held i id s (Mux.cancels j) sub own old h = record {
  found = find-step s.mux (Mux.cancels j) id old ∙ rw h.found (rw h.named (rw own refl));
  named = h.named;
  runs = h.runs;
}
on_mux-Held i id s Mux.checks sub own old h = record {
  found = find-step s.mux Mux.checks id old ∙ rw h.found refl;
  named = h.named;
  runs = elim h.runs [ inl l ↦ inl l | inr e ↦ inr (ground (arith, e)) ];
}
on_mux-Held i id s Mux.closes sub own old h = absurd own
on_mux-Held i id s (Mux.receives waiting answer) sub own old h = absurd own

-- A frame for which there is room, if the filter passes it.
offer_fill :
    (waiting : Bool) (f : Frame) (sub : Subscriber)
    → sub.live ≡ true
    → length sub.queue + length (passed sub.filter (f ∷ [])) ≤ sub.buffer
    → ((offer waiting f sub).queue ≡ sub.queue ++ passed sub.filter (f ∷ []))
      × ((offer waiting f sub).filter ≡ sub.filter)
      × ((offer waiting f sub).buffer ≡ sub.buffer)
      × ((offer waiting f sub).id ≡ sub.id)
      × ((offer waiting f sub).live ≡ true)
unfolding offer
offer_fill waiting f sub live room = elim (Bool-cases (passes sub.filter f)) [
  | inl p ↦
      let r : length sub.queue + length (f ∷ []) ≤ sub.buffer = rw p at room in
      let e : offer waiting f sub ≡ record sub { queue = sub.queue ++ (f ∷ []) } = ground arith in
      rw (e, p) (refl, refl, refl, refl, live)
  | inr p ↦
      let e : offer waiting f sub ≡ sub = ground arith in
      rw (e, p) (sym (append-nil sub.queue), refl, refl, refl, live)
]

read-Balanced :
    (i : ℕ) (s : System)
    → i < s.bus.opened
    → Balanced i s.bus []
        (got (Loopback.receive i s.bus))
        (after_receive s (Loopback.receive i s.bus)).bus
read-Balanced i s h =
    subst
      (λ (g : List Frame). Balanced i s.bus [] g (after_receive s (Loopback.receive i s.bus)).bus)
      (rw (eq→== i i refl) refl) (receive-Balanced i i s h)

read-Follows :
    (i id : ℕ) (waiting : ℕ → Bool) (s : Station) (sub : Subscriber)
    (answer : Option (Result Frame × Loopback.Bus))
    → s.mux.phase ≡ receiving
    → id ≢ s.mux.next
    → Held id s sub
    → length sub.queue + length (passed sub.filter (got answer)) ≤ sub.buffer
    → Balanced i s.system.bus [] (got answer) (after_receive s.system answer).bus
    → (after : Subscriber) × Follows i id s (after_read waiting s answer) sub after [] (got answer)
unfolding Mux.step Mux.received
read-Follows i id waiting s sub none at_read old h room b = (sub, stays i id s s sub [] [] h refl b)
read-Follows i id waiting s sub (some (ok f, c)) at_read old h room b =
    let live : sub.live ≡ true = elim h.runs [ inl l ↦ l | inr e ↦ cc ] in
    let (queue, filter, buffer, name, open_still) = offer_fill (waiting sub.id) f sub live room in
    (
      offer (waiting sub.id) f sub,
      record {
        held = record {
          found = find-step s.mux (Mux.receives waiting (ok f)) id old ∙ rw (h.found, at_read) refl;
          named = name ∙ h.named;
          runs = inl open_still;
        };
        filled = queue;
        filter_same = filter;
        buffer_same = buffer;
        balanced = b;
      },
    )
read-Follows i id waiting s sub (some (err e, c)) at_read old h room b = (
  shut sub,
  record {
    held = record {
      found = find-step s.mux (Mux.receives waiting (err e)) id old ∙ rw (h.found, at_read) refl;
      named = h.named;
      runs = inr (rw (at_read, Mux.received) refl);
    };
    filled = sym (append-nil sub.queue);
    filter_same = refl;
    buffer_same = refl;
    balanced = b;
  },
)

read_at-Follows :
    (i id : ℕ) (waiting : ℕ → Bool) (s : Station) (sub : Subscriber) (p : Phase)
    → s.mux.phase ≡ p
    → i < s.system.bus.opened
    → id ≢ s.mux.next
    → Held id s sub
    → length sub.queue + length (passed sub.filter (got_at i s p)) ≤ sub.buffer
    → (after : Subscriber) × Follows i id s (read_at i waiting s p) sub after [] (got_at i s p)
read_at-Follows i id waiting s sub receiving at_read h old held room =
    read-Follows i id waiting s sub (Loopback.receive i s.system.bus) at_read old held room
      (read-Balanced i s.system h)
read_at-Follows i id waiting s sub checking at_read h old held room =
    (sub, stays i id s s sub [] [] held refl (append-nil (s.system.bus.ends i).queue, h))
read_at-Follows i id waiting s sub ended at_read h old held room =
    (sub, stays i id s s sub [] [] held refl (append-nil (s.system.bus.ends i).queue, h))

pub step-Follows :
    (i id : ℕ) (s : Station) (e : Event) (sub : Subscriber)
    → IsOwn i id e
    → i < s.system.bus.opened
    → id ≢ s.mux.next
    → Held id s sub
    → length sub.queue + length (passed sub.filter (gets i s e)) ≤ sub.buffer
    → IfSome
        (λ t. (after : Subscriber) × Follows i id s t sub after (puts i s e) (gets i s e))
        (step i s e)
unfolding step
step-Follows i id s (on_bus e) sub own h old held room =
    IfSome-map
      (λ t.
        Balanced i s.system.bus (frame_for i (delivered_by s.system e)) (taken_by i s.system e)
          t.bus)
      _ (λ (t : System). record s { system = t }) (Loopback.step s.system e)
      (λ t b.
        let none_taken = not_taken i id s.system e own in
        let p = frame_for i (delivered_by s.system e) in
        (
          sub,
          stays i id s (record s { system = t }) sub p []
              (record { found = held.found; named = held.named; runs = held.runs }) refl
              (subst (λ (g : List Frame). Balanced i s.system.bus p g t.bus) none_taken b),
        ))
      (step-Balanced i s.system e h)
step-Follows i id s (on_mux e) sub own h old held room = (
  sub,
  stays i id s (record s { mux = Mux.step s.mux e }) sub [] []
      (on_mux-Held i id s e sub own old held) refl (append-nil (s.system.bus.ends i).queue, h),
)
step-Follows i id s (reads waiting) sub own h old held room =
    read_at-Follows i id waiting s sub s.mux.phase refl h old held room
