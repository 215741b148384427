-- ===== src/Loopback/Lasts.antt =====
-- What a step leaves of an endpoint that there is.
use canbus.Prelude.{
  ℕ, ◌<◌, ◌≡◌, refl, sym, ◌∙◌, arith, true, false, ◌||◌, Option, none, some, List, [], ◌∷◌,
  Bool-cases, inl, inr,
}
use mathlib.Core.Path.{subst}
use canbus.Frame.{Frame}
use canbus.Loopback.{
  Bus, open_endpoint, close_no_lock, close_bus, receive, push, Flight, System, after_receive,
  advance_at, Event, opens, closes, closes_bus, receives, begins, advances, step,
}
use canbus.Loopback.Sound.{member, IsSound, member-without}
use canbus.Loopback.Closing.{IfSome, IfSome-map, close_bus_lem, close_bus_again}
use canbus.Loopback.Panics.{get_elem?}
use canbus.Loopback.Queues.{
  SameQueues, close_bus-SameQueues, delivery, delivered_to, advance_at_bus,
}

-- What a step leaves of an endpoint that there is: it stays in the map until it is closed, and once
-- closed it stays so.
pub record Lasts (j : ℕ) (b c : Bus) : Type 0 where
  pub kept : member b.attached j ≡ true → (c.ends j).signalled ≡ false → member c.attached j ≡ true
  pub over : (b.ends j).signalled ≡ true → (c.ends j).signalled ≡ true
  pub there : j < c.opened

unmoved :
    (j : ℕ) (b c : Bus)
    → j < b.opened
    → c.attached ≡ b.attached
    → (c.ends j).signalled ≡ (b.ends j).signalled
    → c.opened ≡ b.opened
    → Lasts j b c
unmoved j b c h attached signalled opened = record {
  kept = λ m s. rw attached m;
  over = λ s. signalled ∙ s;
  there = rw opened h;
}

open-Lasts : (j : ℕ) (b : Bus) → j < b.opened → Lasts j b (open_endpoint b)
unfolding open_endpoint
open-Lasts j b h = record {
  kept = λ m s. ground (arith, m);
  over = λ s. ground (arith, s);
  there = ground arith;
}

close-Lasts : (j i : ℕ) (b : Bus) → j < b.opened → IfSome (Lasts j b) (close_no_lock i b)
unfolding close_no_lock
close-Lasts j i b h = elim (Bool-cases (b.ends i).dead) [
  | inl e ↦ rw (e, close_no_lock) (unmoved j b b h refl refl refl)
  | inr e ↦ elim (Bool-cases ((b.ends i).signalled || (b.ends i).sealed)) [
    | inl p ↦ rw (e, p, close_no_lock) tt
    | inr p ↦
        rw (e, p, close_no_lock)
          (record {
            kept = λ m s. ground (arith, m, s, member-without i j b.attached);
            over = λ s. ground (arith, s);
            there = h;
          })
  ]
]

close_bus-Lasts : (j : ℕ) (b : Bus) → IsSound b → j < b.opened → IfSome (Lasts j b) (close_bus b)
close_bus-Lasts j b sound h = elim (Bool-cases b.is_closed) [
  | inl p ↦ rw (close_bus_again b p) (unmoved j b b h refl refl refl)
  | inr p ↦
      let (c, e, kept_sound, shut, empty, behind) = close_bus_lem b sound p in
      let same : SameQueues b c = subst (IfSome (SameQueues b)) e (close_bus-SameQueues b) in
      rw e (record {
        kept = λ m s. ground (arith, behind j, m, s);
        over = λ s. ground (arith, behind j, s);
        there = rw (same.1) h;
      })
]

receive-Lasts :
    (j i : ℕ) (s : System)
    → j < s.bus.opened
    → Lasts j s.bus (after_receive s (receive i s.bus)).bus
unfolding receive
receive-Lasts j i s h = by_queue (s.bus.ends i).queue refl
  where
    by_queue :
        (queue : List Frame)
        → (s.bus.ends i).queue ≡ queue
        → Lasts j s.bus (after_receive s (receive i s.bus)).bus
    by_queue (f ∷ rest) e =
        rw (e, receive) (record { kept = λ m x. m; over = λ x. ground (arith, x); there = h })
    by_queue [] e = elim (Bool-cases (s.bus.ends i).sealed) [
      | inl p ↦ rw (e, p, receive) (unmoved j s.bus s.bus h refl refl refl)
      | inr p ↦ rw (e, p, receive) (unmoved j s.bus s.bus h refl refl refl)
    ]

delivered_to-Lasts :
    (j : ℕ) (d : Option (ℕ × Frame)) (b : Bus) → j < b.opened → Lasts j b (delivered_to d b)
unfolding push
delivered_to-Lasts j none b h = unmoved j b b h refl refl refl
delivered_to-Lasts j (some (t, f)) b h = record {
  kept = λ m x. m;
  over = λ x. ground (arith, x);
  there = h;
}

pub step-Lasts :
    (j : ℕ) (s : System) (e : Event)
    → IsSound s.bus
    → j < s.bus.opened
    → IfSome (λ r. Lasts j s.bus r.bus) (step s e)
unfolding step
step-Lasts j s opens sound h = open-Lasts j s.bus h
step-Lasts j s (closes i) sound h =
    IfSome-map (Lasts j s.bus) _ (λ c. record s { bus = c }) (close_no_lock i s.bus) (λ c q. q)
      (close-Lasts j i s.bus h)
step-Lasts j s closes_bus sound h =
    IfSome-map (Lasts j s.bus) _ (λ c. record s { bus = c }) (close_bus s.bus) (λ c q. q)
      (close_bus-Lasts j s.bus sound h)
step-Lasts j s (receives i) sound h = receive-Lasts j i s h
step-Lasts j s (begins i f) sound h = unmoved j s.bus s.bus h refl refl refl
step-Lasts j s (advances k pick) sound h =
    let d = delivery pick (get_elem? s.flights k) s.bus in
    IfSome-map (λ (r : List Flight × Bus). r.1 ≡ delivered_to d s.bus) _
      (λ (r : List Flight × Bus). record { bus = r.1; flights = r.0 })
      (advance_at k pick s.flights s.bus)
      (λ r q. subst (Lasts j s.bus) (sym q) (delivered_to-Lasts j d s.bus h))
      (advance_at_bus k pick s.flights s.bus)
