-- ===== src/Loopback/Once.antt =====
-- The sends that the selects of one call of Send come to: to whom, how often, and with which frame.
use canbus.Prelude.{
  ℕ, ◌≡◌, refl, sym, arith, Bool, true, false, Option, none, some, List, [], ◌∷◌, ◌++◌,
  if◌then◌else◌, closed, All,
}
use mathlib.Core.Path.{subst}
use canbus.Frame.{Frame}
use canbus.Loopback.{
  Bus, without, snapshot, Flight, starting, delivering, returned, System, Event, step, run,
}
use canbus.Loopback.Sound.{member, AllDistinct, IsSound, member-without, without-AllDistinct}
use canbus.Loopback.Closing.{IfSome}
use canbus.Loopback.Steps.{step-IsSound}
use canbus.Loopback.Panics.{get_elem?}
use canbus.Loopback.Calls.{shift, call_delivery, Next, stays, snaps, ends, sends, skips, step-Next}

-- The deliveries of the call at position `k` in the course of a run, in order.
abbrev pub listed : Option (ℕ × Frame) → List (ℕ × Frame)
listed none = []
listed (some d) = d ∷ []

unfoldable pub deliveries : ℕ → System → List Event → List (ℕ × Frame)
deliveries k s [] = []
deliveries k s (e ∷ events) =
    listed (call_delivery k s e)
    ++ elim (step s e) [ none ↦ [] | some r ↦ deliveries (shift e k) r events ]

-- Some of the targets, in their order, each with the frame.
pub data Delivers (f : Frame) : List ℕ → List (ℕ × Frame) → Type 0 where
  none_left : {targets : List ℕ} → Delivers f targets []
  delivers :
      {t : ℕ} {targets : List ℕ} {ds : List (ℕ × Frame)}
      → Delivers f targets ds
      → Delivers f (t ∷ targets) ((t, f) ∷ ds)
  passes_by :
      {t : ℕ} {targets : List ℕ} {ds : List (ℕ × Frame)}
      → Delivers f targets ds
      → Delivers f (t ∷ targets) ds

abbrev pub targets_of : List (ℕ × Frame) → List ℕ
targets_of [] = []
targets_of ((t, f) ∷ ds) = t ∷ targets_of ds

-- Each at most once, the sender never, and all with the frame.
pub record OnceEach (i : ℕ) (f : Frame) (ds : List (ℕ × Frame)) : Type 0 where
  pub distinct : AllDistinct (targets_of ds)
  pub not_back : member (targets_of ds) i ≡ false
  pub all_same : All (λ (d : ℕ × Frame). d.1 ≡ f) ds

-- What the deliveries of a call can be, by where it stands.
abbrev Fine : Flight → List (ℕ × Frame) → Type 0
Fine (returned e) ds = ds ≡ []
Fine (delivering f targets) ds = Delivers f targets ds
Fine (starting i f) ds = OnceEach i f ds

Delivers-member :
    {f : Frame} {targets : List ℕ} {ds : List (ℕ × Frame)} (j : ℕ)
    → Delivers f targets ds
    → member targets j ≡ false
    → member (targets_of ds) j ≡ false
Delivers-member j none_left h = refl
Delivers-member j (delivers p) h = ground (arith, Delivers-member j p)
Delivers-member j (passes_by p) h = ground (arith, Delivers-member j p)

Delivers-AllDistinct :
    {f : Frame} {targets : List ℕ} {ds : List (ℕ × Frame)}
    → Delivers f targets ds
    → AllDistinct targets
    → AllDistinct (targets_of ds)
Delivers-AllDistinct none_left h = tt
Delivers-AllDistinct (delivers {t} p) (a, h) = (Delivers-member t p a, Delivers-AllDistinct p h)
Delivers-AllDistinct (passes_by p) (a, h) = Delivers-AllDistinct p h

Delivers-same :
    {f : Frame} {targets : List ℕ} {ds : List (ℕ × Frame)}
    → Delivers f targets ds
    → All (λ (d : ℕ × Frame). d.1 ≡ f) ds
Delivers-same none_left = tt
Delivers-same (delivers p) = (refl, Delivers-same p)
Delivers-same (passes_by p) = Delivers-same p

settled : (t : Flight) → Fine t []
settled (returned e) = refl
settled (delivering f targets) = none_left
settled (starting i f) = record { distinct = tt; not_back = refl; all_same = tt }

snapshot-Fine :
    (i : ℕ) (f : Frame) (b : Bus) (ds : List (ℕ × Frame))
    → IsSound b
    → Fine (snapshot i f b) ds
    → OnceEach i f ds
unfolding snapshot
snapshot-Fine i f b ds sound h = by_closed b.is_closed h
  where
    by_closed :
        (is_closed : Bool)
        → Fine
            (if is_closed then returned (some closed) else delivering f (without i b.attached))
            ds
        → OnceEach i f ds
    by_closed true h = subst (OnceEach i f) (sym h) (settled (starting i f))
    by_closed false p = record {
      distinct = Delivers-AllDistinct p (without-AllDistinct i b.attached sound.wired.distinct);
      not_back = Delivers-member i p (ground (arith, member-without i i b.attached));
      all_same = Delivers-same p;
    }

Fine-back :
    {b : Bus} {t u : Flight} {d : Option (ℕ × Frame)} (ds : List (ℕ × Frame))
    → IsSound b
    → Next b t u d
    → Fine u ds
    → Fine t (listed d ++ ds)
Fine-back ds sound stays h = h
Fine-back {b} ds sound (snaps {i} {f}) h = snapshot-Fine i f b ds sound h
Fine-back ds sound (ends {f}) h = subst (Delivers f []) (sym h) none_left
Fine-back ds sound sends h = delivers h
Fine-back ds sound (skips signalled) h = passes_by h

run-Fine :
    (k : ℕ) (s r : System) (events : List Event) (t : Flight)
    → IsSound s.bus
    → get_elem? s.flights k ≡ some t
    → run s events ≡ some r
    → Fine t (deliveries k s events)
unfolding run deliveries
run-Fine k s r [] t sound here p = settled t
run-Fine k s r (e ∷ events) t sound here p =
    by_step (λ q u. run-Fine (shift e k) q r events u) (step s e) refl p
  where
    by_step :
        ((q : System) (u : Flight)
          → IsSound q.bus
          → get_elem? q.flights (shift e k) ≡ some u
          → run q events ≡ some r
          → Fine u (deliveries (shift e k) q events))
        → (o : Option System) → step s e ≡ o
        → (elim o [ none ↦ none | some q ↦ run q events ]) ≡ some r
        → Fine t (deliveries k s (e ∷ events))
    by_step more none z p = cc
    by_step more (some q) z p =
        let (u, there, next) =
          subst
            (IfSome (λ (q : System).
              (u : Flight) × (get_elem? q.flights (shift e k) ≡ some u)
              × Next s.bus t u (call_delivery k s e)))
            z (step-Next k s e t here) in
        rw z (
          Fine-back (deliveries (shift e k) q events) sound next
            (more q u (step-IsSound s q e sound z) there p))

-- In every run that does not panic from a sound bus, whatever the other goroutines do in it, the
-- sends that the selects of a call of Send come to, where the call stands before its snapshot, are at
-- most one for each endpoint, none for the endpoint that sends, and all with its frame.
pub deliveries-OnceEach :
    (k : ℕ) (s r : System) (events : List Event) (i : ℕ) (f : Frame)
    → IsSound s.bus
    → get_elem? s.flights k ≡ some (starting i f)
    → run s events ≡ some r
    → OnceEach i f (deliveries k s events)
deliveries-OnceEach k s r events i f sound here p =
    run-Fine k s r events (starting i f) sound here p
