-- ===== src/Loopback/Calls.antt =====
-- One call of Send among the others: which endpoints it delivers to in the course of a run.
use canbus.Prelude.{
  ℕ, zero, suc, ◌≡◌, refl, arith, Bool, true, false, Option, none, some, List, [], ◌∷◌, ◌==◌,
  if◌then◌else◌, Result,
}
use mathlib.Core.Path.{subst}
use canbus.Frame.{Frame}
use canbus.Loopback.{
  Endpoint, Bus, close_no_lock, close_bus, receive, after_receive, snapshot, select_target, sent,
  skipped, blocked, panics, Outcome, Flight, starting, delivering, returned, advance, System,
  advance_at, Event, opens, closes, closes_bus, receives, begins, advances, step,
}
use canbus.Loopback.Closing.{IfSome, IfSome-map, IfSome-any}
use canbus.Loopback.Panics.{get_elem?}
use canbus.Loopback.Queues.{on_sent, delivery}

-- Where a call stands behind an event: a call that begins is put in front of the others.
abbrev pub shift : Event → ℕ → ℕ
shift (begins i f) k = suc k
shift opens k = k
shift (closes i) k = k
shift closes_bus k = k
shift (receives i) k = k
shift (advances j pick) k = k

-- The delivery that the call at position `k` makes by an event.
abbrev pub call_delivery : ℕ → System → Event → Option (ℕ × Frame)
call_delivery k s (advances j pick) =
    if j == k then delivery pick (get_elem? s.flights k) s.bus else none
call_delivery k s opens = none
call_delivery k s (closes i) = none
call_delivery k s closes_bus = none
call_delivery k s (receives i) = none
call_delivery k s (begins i f) = none

-- What one event does to a call, and the delivery that it makes.
pub data Next (b : Bus) : Flight → Flight → Option (ℕ × Frame) → Type 0 where
  stays : {t : Flight} → Next b t t none
  snaps : {i : ℕ} {f : Frame} → Next b (starting i f) (snapshot i f b) none
  ends : {f : Frame} → Next b (delivering f []) (returned none) none
  sends :
      {f : Frame} {t : ℕ} {targets : List ℕ}
      → Next b (delivering f (t ∷ targets)) (delivering f targets) (some (t, f))
  skips :
      {f : Frame} {t : ℕ} {targets : List ℕ}
      → (b.ends t).signalled ≡ true
      → Next b (delivering f (t ∷ targets)) (delivering f targets) none

skipped_signalled :
    (pick : Bool) (t : Endpoint) → select_target pick t ≡ skipped → t.signalled ≡ true
unfolding select_target
skipped_signalled pick t e = ground arith

advance-Next :
    (pick : Bool) (t : Flight) (b : Bus)
    → IfSome (λ (r : Flight × Bus). Next b t r.0 (delivery pick (some t) b)) (advance pick t b)
unfolding advance
advance-Next pick (returned e) b = stays
advance-Next pick (starting i f) b = snaps
advance-Next pick (delivering f []) b = ends
advance-Next pick (delivering f (t ∷ targets)) b = by_outcome (select_target pick (b.ends t)) refl
  where
    by_outcome :
        (o : Outcome)
        → select_target pick (b.ends t) ≡ o
        → IfSome
            (λ (r : Flight × Bus).
              Next b
                (delivering f (t ∷ targets))
                r.0
                (on_sent (select_target pick (b.ends t)) (t, f)))
            (advance pick (delivering f (t ∷ targets)) b)
    by_outcome sent e = rw (e, advance) sends
    by_outcome skipped e = rw (e, advance) (skips (skipped_signalled pick (b.ends t) e))
    by_outcome blocked e = rw (e, advance) stays
    by_outcome panics e = rw (e, advance) tt

other : (k : ℕ) → (0 == suc k) ≡ false
other k = ground arith

other' : (j : ℕ) → (suc j == 0) ≡ false
other' j = ground arith

both : (j k : ℕ) → (suc j == suc k) ≡ (j == k)
both j k = ground arith

-- The call at position `k` behind the step of the call at position `j`.
advance_at-Next :
    (j k : ℕ) (pick : Bool) (flights : List Flight) (b : Bus) (t : Flight)
    → get_elem? flights k ≡ some t
    → IfSome
        (λ (r : List Flight × Bus).
          (u : Flight) × (get_elem? r.0 k ≡ some u)
          × Next b t u (if j == k then delivery pick (get_elem? flights k) b else none))
        (advance_at j pick flights b)
unfolding advance_at
advance_at-Next j k pick [] b t h = cc
advance_at-Next zero zero pick (t' ∷ flights) b t h =
    let same : ◌≡◌ {A = Option Flight} (some t') (some t) = h in
    IfSome-map _ _ (λ (r : Flight × Bus). (r.0 ∷ flights, r.1)) (advance pick t' b)
      (λ r n. (r.0, refl, subst (λ (x : Flight). Next b x r.0 (delivery pick (some t') b)) (cc) n))
      (advance-Next pick t' b)
advance_at-Next zero (suc k) pick (t' ∷ flights) b t h =
    IfSome-map (λ r. Unit {0}) _ (λ (r : Flight × Bus). (r.0 ∷ flights, r.1)) (advance pick t' b)
      (λ r n. (t, h, rw (other k) stays)) (IfSome-any (advance pick t' b))
advance_at-Next (suc j) zero pick (t' ∷ flights) b t h =
    IfSome-map (λ r. Unit {0}) _ (λ (r : List Flight × Bus). (t' ∷ r.0, r.1))
      (advance_at j pick flights b) (λ r n. (t, h, rw (other' j) stays))
      (IfSome-any (advance_at j pick flights b))
advance_at-Next (suc j) (suc k) pick (t' ∷ flights) b t h =
    IfSome-map _ _ (λ (r : List Flight × Bus). (t' ∷ r.0, r.1)) (advance_at j pick flights b)
      (λ r n. rw (both j k) n) (advance_at-Next j k pick flights b t h)

pub step-Next :
    (k : ℕ) (s : System) (e : Event) (t : Flight)
    → get_elem? s.flights k ≡ some t
    → IfSome
        (λ (q : System).
          (u : Flight) × (get_elem? q.flights (shift e k) ≡ some u)
          × Next s.bus t u (call_delivery k s e))
        (step s e)
unfolding step
step-Next k s opens t h = (t, h, stays)
step-Next k s (closes i) t h =
    IfSome-map (λ c. Unit {0}) _ (λ (c : Bus). record s { bus = c }) (close_no_lock i s.bus)
      (λ c n. (t, h, stays)) (IfSome-any (close_no_lock i s.bus))
step-Next k s closes_bus t h =
    IfSome-map (λ c. Unit {0}) _ (λ (c : Bus). record s { bus = c }) (close_bus s.bus)
      (λ c n. (t, h, stays)) (IfSome-any (close_bus s.bus))
step-Next k s (receives i) t h = received (receive i s.bus)
  where
    received :
        (o : Option (Result Frame × Bus))
        → (u : Flight) × (get_elem? (after_receive s o).flights k ≡ some u) × Next s.bus t u none
    received none = (t, h, stays)
    received (some (r, c)) = (t, h, stays)
step-Next k s (begins i f) t h = (t, h, stays)
step-Next k s (advances j pick) t h =
    IfSome-map _ _ (λ (r : List Flight × Bus). record { bus = r.1; flights = r.0 })
      (advance_at j pick s.flights s.bus) (λ r n. n) (advance_at-Next j k pick s.flights s.bus t h)
