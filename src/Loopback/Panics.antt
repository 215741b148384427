-- ===== src/Loopback/Panics.antt =====
-- Which steps of a loopback bus panic.
use canbus.Prelude.{
  ℕ, zero, suc, ◌≡◌, ◌≢◌, ◌↔◌, refl, arith, Bool, true, false, Option, none, some, List, [], ◌∷◌,
  Bool-cases, inl, inr,
}
use mathlib.Core.Option
use canbus.Frame.{Frame}
use canbus.Loopback.{
  Endpoint, Bus, close_no_lock, close_bus, select_target, sent, skipped, blocked, panics, Outcome,
  Flight, starting, delivering, returned, advance, System, advance_at, Event, opens, closes,
  closes_bus, receives, begins, advances, step,
}
use canbus.Loopback.Sound.{IsEndpoint, IsSound}
use canbus.Loopback.Closing.{close_bus_lem, close_bus_again}

abbrev pub get_elem? : List Flight → ℕ → Option Flight
get_elem? [] i = none
get_elem? (t ∷ flights) zero = some t
get_elem? (t ∷ flights) (suc i) = get_elem? flights i

-- The next target of a call of Send.
abbrev pub next_target : Option Flight → Option ℕ
next_target (some (delivering f (t ∷ targets))) = some t
next_target (some (delivering f [])) = none
next_target (some (starting i f)) = none
next_target (some (returned e)) = none
next_target none = none

-- An endpoint that was told of its end when it was opened, and was never closed.
abbrev pub IsStillborn : Endpoint → Type 0
IsStillborn ep = (ep.dead ≡ false) × (ep.signalled ≡ true)

-- The two panics: Close of an endpoint that was opened on a closed bus, and a delivery to an
-- endpoint that was closed behind the snapshot, where the select takes the send.
abbrev pub Panics : System → Event → Type 0
Panics s (closes i) = IsStillborn (s.bus.ends i)
Panics s (advances k pick) =
    (t : ℕ) × (next_target (get_elem? s.flights k) ≡ some t)
    × ((s.bus.ends t).dead ≡ true)
    × (pick ≡ true)
Panics s opens = ⊥
Panics s closes_bus = ⊥
Panics s (receives i) = ⊥
Panics s (begins i f) = ⊥

close_panics :
    (b : Bus) (i : ℕ) → IsEndpoint (b.ends i) → (close_no_lock i b ≡ none) ↔ IsStillborn (b.ends i)
unfolding close_no_lock
close_panics b i e = ground (arith, e.sealed_dead)

select_panics :
    (pick : Bool) (t : Endpoint)
    → IsEndpoint t
    → (select_target pick t ≡ panics) ↔ ((t.dead ≡ true) × (pick ≡ true))
unfolding select_target
select_panics pick t e = ground (arith, e.sealed_dead, e.told)

map-eq-none : {A B : Type 0} (g : A → B) (o : Option A) → (Option.map g o ≡ none) ↔ (o ≡ none)
map-eq-none g none = ((λ p. refl), λ p. refl)
map-eq-none g (some a) = ((λ p. cc), λ p. cc)

advance_select :
    (pick : Bool) (f : Frame) (t : ℕ) (targets : List ℕ) (b : Bus)
    → (advance pick (delivering f (t ∷ targets)) b ≡ none)
      ↔ (select_target pick (b.ends t) ≡ panics)
unfolding advance
advance_select pick f t targets b = go (select_target pick (b.ends t)) refl
  where
    go :
        (o : Outcome)
        → select_target pick (b.ends t) ≡ o
        → (advance pick (delivering f (t ∷ targets)) b ≡ none)
          ↔ (select_target pick (b.ends t) ≡ panics)
    go sent e = rw (e, advance) ((λ p. cc), λ p. cc)
    go skipped e = rw (e, advance) ((λ p. cc), λ p. cc)
    go blocked e = rw (e, advance) ((λ p. cc), λ p. cc)
    go panics e = rw (e, advance) ((λ p. refl), λ p. refl)

advance_panics :
    (pick : Bool) (t : Flight) (b : Bus)
    → IsSound b
    → (advance pick t b ≡ none)
      ↔ ((i : ℕ) × (next_target (some t) ≡ some i) × ((b.ends i).dead ≡ true) × (pick ≡ true))
unfolding advance
advance_panics pick (returned e) b h = ((λ p. cc), λ p. cc)
advance_panics pick (starting i f) b h = ((λ p. cc), λ p. cc)
advance_panics pick (delivering f []) b h = ((λ p. cc), λ p. cc)
advance_panics pick (delivering f (t ∷ targets)) b h =
    let select = advance_select pick f t targets b in
    let here = select_panics pick (b.ends t) (h.wired.endpoints t) in
    (
      (λ p. let (d, q) = here.0 (select.0 p) in (t, refl, d, q)),
      λ p. let (i, e, d, q) = p in let same : t ≡ i = cc in select.1 (here.1 (rw same d, q)),
    )

advance_at_panics :
    (k : ℕ) (pick : Bool) (flights : List Flight) (b : Bus)
    → IsSound b
    → (advance_at k pick flights b ≡ none) ↔ (
        (i : ℕ) × (next_target (get_elem? flights k) ≡ some i)
        × ((b.ends i).dead ≡ true)
        × (pick ≡ true))
unfolding advance_at
advance_at_panics k pick [] b h = ((λ p. cc), λ p. cc)
advance_at_panics zero pick (t ∷ flights) b h =
    let inner = advance_panics pick t b h in
    let outer = map-eq-none (λ (r : Flight × Bus). (r.0 ∷ flights, r.1)) (advance pick t b) in
    ((λ p. inner.0 (outer.0 p)), λ p. outer.1 (inner.1 p))
advance_at_panics (suc k) pick (t ∷ flights) b h =
    let inner = advance_at_panics k pick flights b h in
    let outer =
      map-eq-none (λ (r : List Flight × Bus). (t ∷ r.0, r.1)) (advance_at k pick flights b) in
    ((λ p. inner.0 (outer.0 p)), λ p. outer.1 (inner.1 p))

close_bus_runs : (b : Bus) → IsSound b → close_bus b ≢ none
close_bus_runs b h e = elim (Bool-cases b.is_closed) [
  | inl p ↦ let q = close_bus_again b p in cc
  | inr p ↦ let (c, q, sound, shut, empty, ends) = close_bus_lem b h p in cc
]

-- On a sound bus a step panics exactly in two cases: Close of an endpoint that was opened after the
-- bus was closed, and a delivery of Send to an endpoint that was closed since the snapshot, where
-- the select takes the send. Open, Receive, Close of the bus and the start of a Send never panic.
pub step-Panics : (s : System) (e : Event) → IsSound s.bus → (step s e ≡ none) ↔ Panics s e
unfolding step
step-Panics s opens h = ((λ p. cc), λ p. absurd p)
step-Panics s (closes i) h =
    let inner = close_panics s.bus i (h.wired.endpoints i) in
    let outer = map-eq-none (λ (c : Bus). record s { bus = c }) (close_no_lock i s.bus) in
    ((λ p. inner.0 (outer.0 p)), λ p. outer.1 (inner.1 p))
step-Panics s closes_bus h =
    let outer = map-eq-none (λ (c : Bus). record s { bus = c }) (close_bus s.bus) in
    ((λ p. close_bus_runs s.bus h (outer.0 p)), λ p. absurd p)
step-Panics s (receives i) h = ((λ p. cc), λ p. absurd p)
step-Panics s (begins i f) h = ((λ p. cc), λ p. absurd p)
step-Panics s (advances k pick) h =
    let inner = advance_at_panics k pick s.flights s.bus h in
    let outer =
      map-eq-none (λ (r : List Flight × Bus). record { bus = r.1; flights = r.0 })
        (advance_at k pick s.flights s.bus) in
    ((λ p. inner.0 (outer.0 p)), λ p. outer.1 (inner.1 p))
