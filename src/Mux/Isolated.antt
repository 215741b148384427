-- ===== src/Mux/Isolated.antt =====
-- A subscription of mux.go among others, against the same subscription on a mux of its own.
use canbus.Prelude.{
  ℕ, ◌+◌, ◌^◌, ◌<◌, ◌≡◌, ◌≢◌, refl, sym, ap, ◌∙◌, arith, Bool, true, false, Option, some, List, [],
  ◌∷◌, length, ◌==◌, if◌then◌else◌, Bool-cases, Option-cases, inl, inr, Result, ok, err, ==→eq,
  eq→==,
}
use std.Path.{fun_ext}
use mathlib.Core.Option
use mathlib.Core.Path.{subst}
use canbus.Frame.{Frame}
use canbus.Filter.{FrameFilter}
use canbus.Mux.{
  Subscriber, Mux, Phase, checking, receiving, ended, Event, subscribes, cancels, closes, checks,
  receives, fresh, subscribe, close_mux, check_stop, received, step, run,
}
use canbus.Mux.Subscriptions.{find, effect, find-step}
use canbus.Mux.Ends.{next-step}

-- The events that are left where nobody else uses the mux: no other subscription comes or goes.
abbrev pub own : ℕ → List Event → List Event
own id [] = []
own id (subscribes filter buffer ∷ events) = own id events
own id (cancels j ∷ events) = if j == id then cancels j ∷ own id events else own id events
own id (closes ∷ events) = closes ∷ own id events
own id (checks ∷ events) = checks ∷ own id events
own id (receives waiting answer ∷ events) = receives waiting answer ∷ own id events

-- The mux `m` and the mux `a` are alike as far as the subscription `id` is concerned.
record Alike (id : ℕ) (m a : Mux) : Type 0 where
  same_stop : m.stopped ≡ a.stopped
  same_phase : m.phase ≡ a.phase
  same : find id m.subs ≡ find id a.subs
  old : id < m.next
  other : id ≢ a.next

-- An event that is no subscription.
abbrev Shared : Event → Type 0
Shared (subscribes filter buffer) = ⊥
Shared e = Unit {0}

step-next : (m : Mux) (e : Event) → Shared e → (step m e).next ≡ m.next
unfolding step
step-next m (subscribes filter buffer) h = absurd h
step-next m (cancels j) h = refl
step-next m closes h = ground arith
step-next m checks h = ground arith
step-next m (receives waiting answer) h = ground arith

abbrev control : Mux → Bool × Phase
control m = (m.stopped, m.phase)

control-checks :
    (m a : Mux) (p : Phase)
    → m.stopped ≡ a.stopped
    → m.phase ≡ p
    → a.phase ≡ p
    → control (check_stop m) ≡ control (check_stop a)
unfolding check_stop
control-checks m a checking s e f = rw (e, f, s, check_stop) refl
control-checks m a receiving s e f = rw (e, f, check_stop) (cc)
control-checks m a ended s e f = rw (e, f, check_stop) (cc)

control-receives :
    (waiting : ℕ → Bool) (answer : Result Frame) (m a : Mux) (p : Phase)
    → m.stopped ≡ a.stopped
    → m.phase ≡ p
    → a.phase ≡ p
    → control (received waiting answer m) ≡ control (received waiting answer a)
unfolding received
control-receives waiting (ok f) m a receiving s e q = rw (e, q, received) (cc)
control-receives waiting (err x) m a receiving s e q = rw (e, q, received) (cc)
control-receives waiting answer m a checking s e q = rw (e, q, received) (cc)
control-receives waiting answer m a ended s e q = rw (e, q, received) (cc)

control-step :
    (m a : Mux) (e : Event)
    → m.stopped ≡ a.stopped
    → m.phase ≡ a.phase
    → control (step m e) ≡ control (step a e)
unfolding step
control-step m a (subscribes filter buffer) s p = cc
control-step m a (cancels j) s p = cc
control-step m a closes s p = elim (Bool-cases a.stopped) [
  | inl e ↦ rw (s ∙ e, e, close_mux) (cc)
  | inr e ↦ rw (s ∙ e, e, close_mux) (cc)
]
control-step m a checks s p = control-checks m a a.phase s p refl
control-step m a (receives waiting answer) s p =
    control-receives waiting answer m a a.phase s p refl

effect-same :
    (m a : Mux) (e : Event) (id : ℕ) (x : Subscriber)
    → m.stopped ≡ a.stopped
    → m.phase ≡ a.phase
    → effect m e id x ≡ effect a e id x
effect-same m a (subscribes filter buffer) id x s p = refl
effect-same m a (cancels j) id x s p = refl
effect-same m a closes id x s p = rw s refl
effect-same m a checks id x s p = refl
effect-same m a (receives waiting answer) id x s p = rw p refl

find-named : (id : ℕ) (subs : List Subscriber) (x : Subscriber) → find id subs ≡ some x → x.id ≡ id
find-named id [] x h = cc
find-named id (y ∷ subs) x h = by_test (find-named id subs x) (y.id == id) refl h
  where
    by_test :
        (find id subs ≡ some x → x.id ≡ id)
        → (b : Bool) → (y.id == id) ≡ b
        → (if b then some y else find id subs) ≡ some x
        → x.id ≡ id
    by_test rest true e h =
        let here : ◌≡◌ {A = Option Subscriber} (some y) (some x) = h in
        let same : y ≡ x = cc (here) in subst (λ (z : Subscriber). z.id ≡ id) same (==→eq y.id id e)
    by_test rest false e h = rest h

-- An event that both muxes meet.
step-Alike :
    (id : ℕ) (m a : Mux) (e : Event)
    → m.next + 1 < 2 ^ 64
    → Shared e
    → Alike id m a
    → Alike id (step m e) (step a e)
step-Alike id m a e small shared h =
    let c = control-step m a e h.same_stop h.same_phase in
    record {
      same_stop = ap (λ (c : Bool × Phase). c.0) c;
      same_phase = ap (λ (c : Bool × Phase). c.1) c;
      same =
          find-step m e id (λ p. absurd (omega (arith, h.old, p)))
          ∙ ap (λ (g : Subscriber → Subscriber). Option.map g (find id m.subs))
              (fun_ext (λ x. effect-same m a e id x h.same_stop h.same_phase))
          ∙ ap (Option.map (effect a e id)) h.same
          ∙ sym (find-step a e id h.other);
      old = omega (arith, next-step m e small, h.old);
      other = λ p. h.other (p ∙ step-next a e shared);
    }

-- An event of other subscriptions, which only the first mux meets.
passed_over :
    (id : ℕ) (m a : Mux) (e : Event)
    → m.next + 1 < 2 ^ 64
    → (step m e).stopped ≡ m.stopped
    → (step m e).phase ≡ m.phase
    → ((x : Subscriber) → x.id ≡ id → effect m e id x ≡ x)
    → Alike id m a
    → Alike id (step m e) a
passed_over id m a e small stop phase nothing h = record {
  same_stop = stop ∙ h.same_stop;
  same_phase = phase ∙ h.same_phase;
  same =
      find-step m e id (λ p. absurd (omega (arith, h.old, p)))
      ∙ (elim (Option-cases (find id m.subs)) [
        | inl e ↦ rw e refl
        | inr (x, e) ↦ rw e (ap some (nothing x (find-named id m.subs x e)))
      ])
      ∙ h.same;
  old = omega (arith, next-step m e small, h.old);
  other = h.other;
}

run-Alike :
    (id : ℕ) (events : List Event) (m a : Mux)
    → m.next + length events < 2 ^ 64
    → Alike id m a
    → find id (run m events).subs ≡ find id (run a (own id events)).subs
unfolding run step
run-Alike id [] m a small h = h.same
run-Alike id (subscribes filter buffer ∷ events) m a small h =
    run-Alike id events (step m (subscribes filter buffer)) a
      (omega (arith, next-step m (subscribes filter buffer) (omega arith)))
      (passed_over id m a (subscribes filter buffer) (omega arith) refl refl (λ x named. refl) h)
run-Alike id (cancels j ∷ events) m a small h = elim (Bool-cases (j == id)) [
  | inl e ↦ rw e (
      run-Alike id events (step m (cancels j)) (step a (cancels j)) (omega arith)
        (step-Alike id m a (cancels j) (omega arith) tt h))
  | inr e ↦ rw e (
      run-Alike id events (step m (cancels j)) a (omega arith) (
        passed_over id m a (cancels j) (omega arith) refl refl (λ x named. ground (arith, named, e))
          h))
]
run-Alike id (closes ∷ events) m a small h =
    run-Alike id events (step m closes) (step a closes)
      (omega (arith, next-step m closes (omega arith)))
      (step-Alike id m a closes (omega arith) tt h)
run-Alike id (checks ∷ events) m a small h =
    run-Alike id events (step m checks) (step a checks)
      (omega (arith, next-step m checks (omega arith)))
      (step-Alike id m a checks (omega arith) tt h)
run-Alike id (receives waiting answer ∷ events) m a small h =
    run-Alike id events (step m (receives waiting answer)) (step a (receives waiting answer))
      (omega (arith, next-step m (receives waiting answer) (omega arith)))
      (step-Alike id m a (receives waiting answer) (omega arith) tt h)

-- A subscription that is made on any mux, and what comes of it in any run behind that, whatever
-- other subscriptions come, go, filter or do not read in between: at the end it is what it would be
-- on a mux of its own, in the run that is left when the other subscriptions and their cancel
-- functions are taken out; in fewer events than it takes for the 64 bits of the identifiers to come
-- round.
pub subscribe_isolated :
    (m : Mux) (filter : FrameFilter) (buffer : ℕ) (events : List Event)
    → m.next + length events + 1 < 2 ^ 64
    → let m' = (subscribe m filter buffer).0 in
      let id = (subscribe m filter buffer).1 in
      let alone = record m' { subs = fresh id filter buffer ∷ [] } in
      find id (run m' events).subs ≡ find id (run alone (own id events)).subs
unfolding subscribe
subscribe_isolated m filter buffer events small =
    let m' = (subscribe m filter buffer).0 in
    run-Alike m.next events m' (record m' { subs = fresh m.next filter buffer ∷ [] }) (omega arith)
      (record {
        same_stop = refl;
        same_phase = refl;
        same = rw (eq→== m.next m.next refl) refl;
        old = omega arith;
        other = omega arith;
      })
