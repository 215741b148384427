-- ===== src/Loopback/Arrivals.antt =====
-- What a call of Send puts into the channels, seen at the channels, in a run of the whole bus.
use canbus.Prelude.{
  ℕ, ◌≡◌, refl, sym, ap, ◌∙◌, arith, true, false, Option, none, some, List, [], ◌∷◌, ◌++◌, length,
  drop, ◌==◌, if◌then◌else◌, All, Bool-cases, inl, inr, ◌⊎◌, ==→eq,
}
use mathlib.Core.Path.{subst}
use canbus.Frame.{Frame}
use canbus.Loopback.{
  Bus, push, close_no_lock, close_bus, Flight, starting, returned, System, advance_at, Event, opens,
  closes, closes_bus, receives, begins, advances, step, run,
}
use canbus.Loopback.Sound.{member, AllDistinct, IsSound}
use canbus.Loopback.Closing.{IfSome, IfSome-map, IfSome-any}
use canbus.Loopback.Panics.{get_elem?}
use canbus.Loopback.Queues.{delivery, frame_for, delivered_to, advance_at_bus}
use canbus.Loopback.Calls.{shift, call_delivery}
use canbus.Loopback.Once.{listed, deliveries, targets_of, deliveries-OnceEach}
use canbus.Loopback.Everyone.{shifted, deliveries-everyone}

-- What has come into the channel of an endpoint, behind what was there.
abbrev pub added : ℕ → Bus → Bus → List Frame
added j b c = drop (length (b.ends j).queue) (c.ends j).queue

-- The frames that come into the channel of the endpoint `j` in the steps of the call at position
-- `k`, in the course of a run.
abbrev pub added_by : ℕ → ℕ → System → Event → System → List Frame
added_by k j s (advances k' pick) q = if k' == k then added j s.bus q.bus else []
added_by k j s opens q = []
added_by k j s (closes i) q = []
added_by k j s closes_bus q = []
added_by k j s (receives i) q = []
added_by k j s (begins i f) q = []

unfoldable pub arrivals : ℕ → ℕ → System → List Event → List Frame
arrivals k j s [] = []
arrivals k j s (e ∷ events) = elim (step s e) [
  | none ↦ []
  | some q ↦ added_by k j s e q ++ arrivals (shift e k) j q events
]

drop_self : (fs : List Frame) → drop (length fs) fs ≡ []
drop_self [] = refl
drop_self (f ∷ fs) = drop_self fs

drop_front : (fs gs : List Frame) → drop (length fs) (fs ++ gs) ≡ gs
drop_front [] gs = refl
drop_front (f ∷ fs) gs = drop_front fs gs

added-delivered_to :
    (j : ℕ) (d : Option (ℕ × Frame)) (b : Bus) → added j b (delivered_to d b) ≡ frame_for j d
unfolding push
added-delivered_to j none b = drop_self (b.ends j).queue
added-delivered_to j (some (t, f)) b = elim (Bool-cases (j == t)) [
  | inl e ↦ let same : j ≡ t = ==→eq j t e in rw e (rw same (drop_front (b.ends t).queue (f ∷ [])))
  | inr e ↦ rw e (drop_self (b.ends j).queue)
]

-- A step adds what the call delivers in it.
step-added :
    (k j : ℕ) (s : System) (e : Event)
    → IfSome (λ q. added_by k j s e q ≡ frame_for j (call_delivery k s e)) (step s e)
unfolding step
step-added k j s opens = refl
step-added k j s (closes i) =
    IfSome-map (λ c. Unit {0}) _ (λ (c : Bus). record s { bus = c }) (close_no_lock i s.bus)
      (λ c u. refl) (IfSome-any (close_no_lock i s.bus))
step-added k j s closes_bus =
    IfSome-map (λ c. Unit {0}) _ (λ (c : Bus). record s { bus = c }) (close_bus s.bus) (λ c u. refl)
      (IfSome-any (close_bus s.bus))
step-added k j s (receives i) = refl
step-added k j s (begins i f) = refl
step-added k j s (advances k' pick) =
    IfSome-map
      (λ (r : List Flight × Bus).
        r.1 ≡ delivered_to (delivery pick (get_elem? s.flights k') s.bus) s.bus)
      _ (λ (r : List Flight × Bus). record { bus = r.1; flights = r.0 })
      (advance_at k' pick s.flights s.bus)
      (λ r q. elim (Bool-cases (k' == k)) [
        | inl e ↦
            let same : k' ≡ k = ==→eq k' k e in
            rw e (
              ap (added j s.bus) q
              ∙ added-delivered_to j (delivery pick (get_elem? s.flights k') s.bus) s.bus
              ∙ ap (λ (n : ℕ). frame_for j (delivery pick (get_elem? s.flights n) s.bus)) same)
        | inr e ↦ rw e refl
      ])
      (advance_at_bus k' pick s.flights s.bus)

-- The frames of deliveries to one endpoint.
abbrev for_end : ℕ → List (ℕ × Frame) → List Frame
for_end j [] = []
for_end j (d ∷ ds) = frame_for j (some d) ++ for_end j ds

for_end-listed :
    (j : ℕ) (d : Option (ℕ × Frame)) (ds : List (ℕ × Frame))
    → for_end j (listed d ++ ds) ≡ frame_for j d ++ for_end j ds
for_end-listed j none ds = refl
for_end-listed j (some d) ds = refl

arrivals-deliveries :
    (k j : ℕ) (s r : System) (events : List Event)
    → run s events ≡ some r
    → arrivals k j s events ≡ for_end j (deliveries k s events)
unfolding run arrivals deliveries
arrivals-deliveries k j s r [] p = refl
arrivals-deliveries k j s r (e ∷ events) p =
    by_step (λ q. arrivals-deliveries (shift e k) j q r events) (step s e) refl p
  where
    by_step :
        ((q : System)
          → run q events ≡ some r
          → arrivals (shift e k) j q events ≡ for_end j (deliveries (shift e k) q events))
        → (o : Option System) → step s e ≡ o
        → (elim o [ none ↦ none | some q ↦ run q events ]) ≡ some r
        → arrivals k j s (e ∷ events) ≡ for_end j (deliveries k s (e ∷ events))
    by_step more none z p = cc
    by_step more (some q) z p =
        let now =
          subst (IfSome (λ (q : System). added_by k j s e q ≡ frame_for j (call_delivery k s e))) z
            (step-added k j s e) in
        rw (z, arrivals)
          (ap (λ (fs : List Frame). fs ++ arrivals (shift e k) j q events) now
            ∙ ap (λ (fs : List Frame). frame_for j (call_delivery k s e) ++ fs) (more q p)
            ∙ sym (for_end-listed j (call_delivery k s e) (deliveries (shift e k) q events)))

for_end-absent :
    (j : ℕ) (ds : List (ℕ × Frame)) → member (targets_of ds) j ≡ false → for_end j ds ≡ []
for_end-absent j [] h = refl
for_end-absent j ((t, g) ∷ ds) h =
    let apart : (j == t) ≡ false = ground (arith, h) in
    let rest : member (targets_of ds) j ≡ false = ground (arith, h) in
    rw apart (for_end-absent j ds rest)

for_end-present :
    (j : ℕ) (f : Frame) (ds : List (ℕ × Frame))
    → AllDistinct (targets_of ds)
    → All (λ (d : ℕ × Frame). d.1 ≡ f) ds
    → member (targets_of ds) j ≡ true
    → for_end j ds ≡ f ∷ []
for_end-present j f [] h same m = cc
for_end-present j f ((t, g) ∷ ds) (apart, h) (here, same) m = elim (Bool-cases (j == t)) [
  | inl e ↦
      let same_end : j ≡ t = ==→eq j t e in
      rw e (
        ap (λ (g : Frame). g ∷ for_end j ds) here
        ∙ ap (λ (fs : List Frame). f ∷ fs)
            (for_end-absent j ds (ap (member (targets_of ds)) same_end ∙ apart)))
  | inr e ↦
      let rest : member (targets_of ds) j ≡ true = ground (arith, e, m) in
      rw e (for_end-present j f ds h same rest)
]

-- In every run that does not panic from a sound bus, whatever the other goroutines do in it: what a
-- call of Send that stands before its snapshot puts into the channel of an endpoint, behind what is
-- there at the time, is nothing, or once its own frame, and the latter not at its sender.
pub arrive_once :
    (k : ℕ) (s r : System) (events : List Event) (i : ℕ) (f : Frame) (j : ℕ)
    → IsSound s.bus
    → get_elem? s.flights k ≡ some (starting i f)
    → run s events ≡ some r
    → (arrivals k j s events ≡ []) ⊎ ((arrivals k j s events ≡ f ∷ []) × ((j == i) ≡ false))
arrive_once k s r events i f j sound here p =
    let once = deliveries-OnceEach k s r events i f sound here p in
    let ds = deliveries k s events in
    elim (Bool-cases (member (targets_of ds) j)) [
      | inl m ↦ inr (
        arrivals-deliveries k j s r events p ∙ for_end-present j f ds once.distinct once.all_same m,
        elim (Bool-cases (j == i)) [
          | inl e ↦
              let back : member (targets_of ds) j ≡ false =
                ap (member (targets_of ds)) (==→eq j i e) ∙ once.not_back in
              cc (m, back)
          | inr e ↦ e
        ],
      )
      | inr m ↦ inl (arrivals-deliveries k j s r events p ∙ for_end-absent j ds m)
    ]

-- In such a run, where the call has returned without an error at the end: what it has put into the
-- channel of each endpoint, other than its sender, that was in the map at the start and is not
-- closed at the end, is its frame, once.
pub arrive_everywhere :
    (k : ℕ) (s r : System) (events : List Event) (i : ℕ) (f : Frame) (j : ℕ)
    → IsSound s.bus
    → get_elem? s.flights k ≡ some (starting i f)
    → run s events ≡ some r
    → get_elem? r.flights (shifted events k) ≡ some (returned none)
    → member s.bus.attached j ≡ true
    → (j == i) ≡ false
    → (r.bus.ends j).signalled ≡ false
    → arrivals k j s events ≡ f ∷ []
arrive_everywhere k s r events i f j sound here p back attached other quiet =
    let once = deliveries-OnceEach k s r events i f sound here p in
    let m = deliveries-everyone k s r events i f j sound here p back attached other quiet in
    arrivals-deliveries k j s r events p
    ∙ for_end-present j f (deliveries k s events) once.distinct once.all_same m
