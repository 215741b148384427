-- ===== src/Loopback/Everyone.antt =====
-- Which endpoints a call of Send that returns without an error has reached.
use canbus.Prelude.{
  ℕ, ◌<◌, ◌≡◌, refl, sym, ◌∙◌, arith, true, false, not, ◌&&◌, Option, none, some, List, [], ◌∷◌,
  ◌++◌, ◌==◌, Bool-cases, inl, inr,
}
use mathlib.Core.Path.{subst}
use canbus.Frame.{Frame}
use canbus.Loopback.{
  Bus, snapshot, Flight, starting, delivering, returned, System, Event, step, run,
}
use canbus.Loopback.Sound.{member, IsSound, member-without}
use canbus.Loopback.Closing.{IfSome}
use canbus.Loopback.Steps.{step-IsSound}
use canbus.Loopback.Panics.{get_elem?}
use canbus.Loopback.Lasts.{Lasts, step-Lasts}
use canbus.Loopback.Calls.{shift, call_delivery, Next, stays, snaps, ends, sends, skips, step-Next}
use canbus.Loopback.Once.{listed, deliveries, targets_of}

-- That a call still has to deliver to an endpoint.
abbrev Due : ℕ → Bus → Flight → Type 0
Due j b (starting i f) = (member b.attached j && not (j == i)) ≡ true
Due j b (delivering f targets) = member targets j ≡ true
Due j b (returned none) = true ≡ false
Due j b (returned (some e)) = Unit {0}

Due-stays :
    (j : ℕ) (b c : Bus) (t : Flight)
    → Lasts j b c
    → (c.ends j).signalled ≡ false
    → Due j b t
    → Due j c t
Due-stays j b c (starting i f) l quiet h = ground (arith, l.kept, quiet, h)
Due-stays j b c (delivering f targets) l quiet h = h
Due-stays j b c (returned none) l quiet h = h
Due-stays j b c (returned (some e)) l quiet h = h

Due-snapshot :
    (j i : ℕ) (f : Frame) (b c : Bus)
    → (member b.attached j && not (j == i)) ≡ true
    → Due j c (snapshot i f b)
unfolding snapshot
Due-snapshot j i f b c h = elim (Bool-cases b.is_closed) [
  | inl p ↦ rw (p, snapshot) tt
  | inr p ↦ rw (p, snapshot) (member-without i j b.attached ∙ h)
]

Due-back :
    {b c : Bus} {t u : Flight} {d : Option (ℕ × Frame)} (j : ℕ) (ds : List (ℕ × Frame))
    → Lasts j b c
    → (b.ends j).signalled ≡ false
    → (c.ends j).signalled ≡ false
    → Next b t u d
    → (Due j c u → member (targets_of ds) j ≡ true)
    → Due j b t
    → member (targets_of (listed d ++ ds)) j ≡ true
Due-back {b} {c} j ds l open_before quiet (stays {t}) more due =
    more (Due-stays j b c t l quiet due)
Due-back {b} {c} j ds l open_before quiet (snaps {i} {f}) more due =
    more (Due-snapshot j i f b c due)
Due-back j ds l open_before quiet ends more due = cc
Due-back j ds l open_before quiet (sends {f} {t} {targets}) more due = elim (Bool-cases (j == t)) [
  | inl e ↦ ground (arith, e)
  | inr e ↦ ground (arith, e, more, due)
]
Due-back {b} j ds l open_before quiet (skips {f} {t} {targets} signalled) more due =
    elim (Bool-cases (j == t)) [
      | inl e ↦ let same : j ≡ t = ground arith in cc
      | inr e ↦ ground (arith, e, more, due)
    ]

-- Where a call stands at the end of a run.
abbrev pub shifted : List Event → ℕ → ℕ
shifted [] k = k
shifted (e ∷ events) k = shifted events (shift e k)

-- Along a run to an end at which the call has returned without an error and the endpoint is open.
run-Due :
    (k j : ℕ) (s r : System) (events : List Event) (t : Flight)
    → IsSound s.bus
    → j < s.bus.opened
    → get_elem? s.flights k ≡ some t
    → run s events ≡ some r
    → get_elem? r.flights (shifted events k) ≡ some (returned none)
    → (r.bus.ends j).signalled ≡ false
    → ((s.bus.ends j).signalled ≡ false)
      × (Due j s.bus t → member (targets_of (deliveries k s events)) j ≡ true)
unfolding run deliveries
run-Due k j s r [] t sound h here p back quiet =
    let same : ◌≡◌ {A = Option System} (some s) (some r) = p in
    let end : s ≡ r = cc (same) in (rw end quiet, by_flight t here (rw end back))
  where
    by_flight :
        (t : Flight)
        → get_elem? s.flights k ≡ some t
        → get_elem? s.flights k ≡ some (returned none)
        → Due j s.bus t
        → false ≡ true
    by_flight (starting i f) here back due = cc
    by_flight (delivering f targets) here back due = cc
    by_flight (returned none) here back due = sym due
    by_flight (returned (some e)) here back due = cc
run-Due k j s r (e ∷ events) t sound h here p back quiet =
    by_step (λ q u. run-Due (shift e k) j q r events u) (step s e) refl p
  where
    by_step :
        ((q : System) (u : Flight)
          → IsSound q.bus
          → j < q.bus.opened
          → get_elem? q.flights (shift e k) ≡ some u
          → run q events ≡ some r
          → get_elem? r.flights (shifted events (shift e k)) ≡ some (returned none)
          → (r.bus.ends j).signalled ≡ false
          → ((q.bus.ends j).signalled ≡ false)
            × (Due j q.bus u → member (targets_of (deliveries (shift e k) q events)) j ≡ true))
        → (o : Option System) → step s e ≡ o
        → (elim o [ none ↦ none | some q ↦ run q events ]) ≡ some r
        → ((s.bus.ends j).signalled ≡ false)
          × (Due j s.bus t → member (targets_of (deliveries k s (e ∷ events))) j ≡ true)
    by_step more none z p = cc
    by_step more (some q) z p =
        let (u, there, next) =
          subst
            (IfSome (λ (q : System).
              (u : Flight) × (get_elem? q.flights (shift e k) ≡ some u)
              × Next s.bus t u (call_delivery k s e)))
            z (step-Next k s e t here) in
        let l : Lasts j s.bus q.bus =
          subst (IfSome (λ (q : System). Lasts j s.bus q.bus)) z (step-Lasts j s e sound h) in
        let (open_behind, found) =
          more q u (step-IsSound s q e sound z) l.there there p back quiet in
        let open_before : (s.bus.ends j).signalled ≡ false = ground (arith, l.over, open_behind) in
        (
          open_before,
          λ due. rw z (
              Due-back j (deliveries (shift e k) q events) l open_before open_behind next found
                due),
        )

-- In a run that does not panic from a sound bus, whatever the other goroutines do in it: where a
-- call of Send that stands before its snapshot at the start has returned without an error at the
-- end, a select of it has come to a send to each endpoint, other than its sender, that was in the map at the start
-- and is not closed at the end.
pub deliveries-everyone :
    (k : ℕ) (s r : System) (events : List Event) (i : ℕ) (f : Frame) (j : ℕ)
    → IsSound s.bus
    → get_elem? s.flights k ≡ some (starting i f)
    → run s events ≡ some r
    → get_elem? r.flights (shifted events k) ≡ some (returned none)
    → member s.bus.attached j ≡ true
    → (j == i) ≡ false
    → (r.bus.ends j).signalled ≡ false
    → member (targets_of (deliveries k s events)) j ≡ true
deliveries-everyone k s r events i f j sound here p back attached other quiet =
    (run-Due k j s r events (starting i f) sound (sound.wired.known j attached) here p back quiet).1
      (ground (arith, attached, other))
