-- ===== src/Mux/Ends.antt =====
-- How subscriptions end.
use canbus.Prelude.{
  ℕ, ◌+◌, ◌^◌, ◌<◌, ◌≤◌, ◌≡◌, ◌≢◌, refl, sym, ap, ◌∙◌, arith, Bool, true, false, none, some, List,
  [], ◌∷◌, All, length, Error, err, ne→==, eq→==,
}
use mathlib.Core.List.{map}
use canbus.Filter.{FrameFilter}
use canbus.Mux.{
  Subscriber, Mux, Phase, checking, receiving, ended, Event, subscribes, cancels, closes, checks,
  receives, shut, fresh, offer, close_mux, received, subscribe, step, run, take_frame,
}
use canbus.Mux.Subscriptions.{find, effect, find-step}

-- The identifiers that Subscribe gives do not come round within the events.
abbrev pub IsOld : Mux → List Event → ℕ → Type 0
IsOld m events id = (id < m.next) × (m.next + length events < 2 ^ 64)

pub next-step :
    (m : Mux) (e : Event)
    → m.next + 1 < 2 ^ 64
    → (m.next ≤ (step m e).next) × ((step m e).next ≤ m.next + 1)
unfolding step
next-step m (subscribes filter buffer) h = omega arith
next-step m (cancels id) h = omega arith
next-step m closes h = ground arith
next-step m checks h = ground arith
next-step m (receives waiting answer) h = ground arith

IsOld-step :
    (m : Mux) (e : Event) (events : List Event) (id : ℕ)
    → IsOld m (e ∷ events) id
    → IsOld (step m e) events id
IsOld-step m e events id h = omega (arith, next-step m e (omega arith))

-- A statement of each event and the mux that it meets.
abbrev AllSteps : (Mux → Event → Type 0) → Mux → List Event → Type 0
AllSteps K m [] = Unit {0}
AllSteps K m (e ∷ events) = K m e × AllSteps K (step m e) events

-- What keeps a subscription as it is through each event keeps it through all.
run_keeps :
    (Keeps : Mux → Event → Type 0) (id : ℕ) (s : Subscriber)
    → ((m : Mux) (e : Event) → Keeps m e → effect m e id s ≡ s)
    → (events : List Event) (m : Mux) → IsOld m events id
    → find id m.subs ≡ some s
    → AllSteps Keeps m events
    → find id (run m events).subs ≡ some s
unfolding run
run_keeps Keeps id s keep [] m old here h = here
run_keeps Keeps id s keep (e ∷ events) m old here (k, h) =
    run_keeps Keeps id s keep events (step m e) (IsOld-step m e events id old)
      (find-step m e id (λ p. absurd (omega arith)) ∙ rw here (ap some (keep m e k))) h

effect_shut : (m : Mux) (e : Event) (id : ℕ) (s : Subscriber) → s.live ≡ false → effect m e id s ≡ s
unfolding offer
effect_shut m (subscribes filter buffer) id s h = refl
effect_shut m (cancels j) id s h = ground arith
effect_shut m closes id s h = ground arith
effect_shut m checks id s h = refl
effect_shut m (receives waiting answer) id s h = ground arith

all_steps :
    (K : Mux → Event → Type 0)
    → ((m : Mux) (e : Event) → K m e)
    → (m : Mux) (events : List Event) → AllSteps K m events
all_steps K k m [] = tt
all_steps K k m (e ∷ events) = (k m e, all_steps K k (step m e) events)

-- A closed channel stays closed and gets no frame, whatever happens to the mux, in fewer events
-- than it takes for the 64 bits of the identifiers to come round.
pub closed_stays :
    (m : Mux) (events : List Event) (id : ℕ) (s : Subscriber)
    → IsOld m events id
    → find id m.subs ≡ some s
    → s.live ≡ false
    → find id (run m events).subs ≡ some s
closed_stays m events id s old here dead =
    run_keeps (λ m e. Unit {0}) id s (λ m e _. effect_shut m e id s dead) events m old here
      (all_steps (λ m e. Unit {0}) (λ m e. tt) m events)

abbrev pub AllShut : List Subscriber → Type 0
AllShut = All (λ s. s.live ≡ false)

map-shut-AllShut : (subs : List Subscriber) → AllShut (map shut subs)
map-shut-AllShut [] = tt
map-shut-AllShut (s ∷ subs) = (refl, map-shut-AllShut subs)

error_ends :
    (m : Mux) (waiting : ℕ → Bool) (e : Error) (p : Phase)
    → p ≡ receiving
    → let m' = received waiting (err e) (record m { phase = p }) in
      AllShut m'.subs × (m'.phase ≡ ended)
unfolding received
error_ends m waiting e receiving h = (map-shut-AllShut m.subs, refl)
error_ends m waiting e checking h = cc
error_ends m waiting e ended h = cc

-- The two ends of a mux that is not stopped and whose reader is in Receive: Close closes every
-- channel there is, and so does an error of Receive, with which the reader returns.
pub mux_ends :
    (m : Mux) (waiting : ℕ → Bool) (e : Error)
    → m.stopped ≡ false
    → m.phase ≡ receiving
    → AllShut (step m closes).subs
      × ((step m closes).stopped ≡ true)
      × AllShut (step m (receives waiting (err e))).subs
      × ((step m (receives waiting (err e))).phase ≡ ended)
unfolding step
mux_ends m waiting e h p =
    let (shut_now, gone) = error_ends m waiting e m.phase p in
    let (shut_all_now, stopped_now) : AllShut (close_mux m).subs × ((close_mux m).stopped ≡ true) =
      rw (h, close_mux) (map-shut-AllShut m.subs, refl) in
    (shut_all_now, stopped_now, shut_now, gone)

-- A mux that was closed and whose reader has returned.
abbrev pub IsOver : Mux → Type 0
IsOver m = (m.stopped ≡ true) × (m.phase ≡ ended)

IsOver-step : (m : Mux) (e : Event) → IsOver m → IsOver (step m e)
unfolding step
IsOver-step m (subscribes filter buffer) h = h
IsOver-step m (cancels id) h = h
IsOver-step m closes h = ground arith
IsOver-step m checks h = ground arith
IsOver-step m (receives waiting answer) h = ground arith

abbrev Spares : ℕ → Mux → Event → Type 0
Spares id m e = IsOver m × (e ≢ cancels id)

over_keeps :
    (id : ℕ) (s : Subscriber)
    → s.id ≡ id
    → (m : Mux) (e : Event) → Spares id m e
    → effect m e id s ≡ s
over_keeps id s here m (subscribes filter buffer) h = refl
over_keeps id s here m (cancels j) (over, spared) =
    rw (ne→== s.id j (λ e. spared (ap cancels (sym e ∙ here)))) refl
over_keeps id s here m closes h = ground arith
over_keeps id s here m checks h = refl
over_keeps id s here m (receives waiting answer) h = ground arith

All-spared :
    (id : ℕ) (m : Mux) (events : List Event)
    → IsOver m
    → All (λ e. e ≢ cancels id) events
    → AllSteps (Spares id) m events
All-spared id m [] over h = tt
All-spared id m (e ∷ events) over (spared, h) =
    ((over, spared), All-spared id (step m e) events (IsOver-step m e over) h)

-- A subscription made after Close, once the reader has returned, is open and empty until its own
-- cancel function is called: no other event closes its channel, and a receive from it waits; in
-- fewer events than it takes for the 64 bits of the identifiers to come round.
pub late_subscription :
    (m : Mux) (filter : FrameFilter) (buffer : ℕ) (events : List Event)
    → IsOver m
    → m.next + length events + 1 < 2 ^ 64
    → All (λ e. e ≢ cancels m.next) events
    → (find m.next (run (subscribe m filter buffer).0 events).subs
        ≡ some (fresh m.next filter buffer))
      × (take_frame (fresh m.next filter buffer) ≡ none)
unfolding take_frame subscribe
late_subscription m filter buffer events over small spared =
    let m' : Mux = (subscribe m filter buffer).0 in
    let id : ℕ = m.next in
    let s : Subscriber = fresh id filter buffer in
    (
      run_keeps (Spares id) id s (over_keeps id s refl) events m' (omega arith)
          (rw (eq→== id id refl)) (All-spared id m' events over spared),
      refl,
    )
