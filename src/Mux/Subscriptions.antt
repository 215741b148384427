-- ===== src/Mux/Subscriptions.antt =====
-- The subscriptions of a mux, one by one.
use canbus.Prelude.{
  ℕ, ◌≡◌, ◌≢◌, refl, sym, arith, Bool, Option, none, some, List, [], ◌∷◌, ◌==◌, ne→==,
  if◌then◌else◌, Bool-cases, Option-cases, inl, inr, Result, ok, err,
}
use mathlib.Core.Option
use mathlib.Core.List.{map}
use canbus.Frame.{Frame}
use canbus.Mux.{
  Subscriber, Mux, Phase, checking, receiving, ended, Event, subscribes, cancels, closes, checks,
  receives, shut, offer, close_mux, check_stop, received, step,
}

-- The subscription with an identifier, live or not.
abbrev pub find : ℕ → List Subscriber → Option Subscriber
find id [] = none
find id (s ∷ subs) = if s.id == id then some s else find id subs

-- What an event does to the subscription `id`, given where the reader stands and whether the mux
-- was stopped.
abbrev pub effect : Mux → Event → ℕ → Subscriber → Subscriber
effect m (subscribes filter buffer) id s = s
effect m (cancels j) id s = if s.id == j then shut s else s
effect m closes id s = if m.stopped then s else shut s
effect m checks id s = s
effect m (receives waiting answer) id s = elim m.phase [
  | receiving ↦ elim answer [ ok f ↦ offer (waiting s.id) f s | err e ↦ shut s ]
  | _ ↦ s
]

find-map :
    (g : Subscriber → Subscriber) (id : ℕ) (subs : List Subscriber)
    → ((s : Subscriber) → (g s).id ≡ s.id)
    → find id (map g subs) ≡ Option.map g (find id subs)
find-map g id [] h = refl
find-map g id (s ∷ subs) h = elim (Bool-cases (s.id == id)) [
  | inl e ↦ simp (h s, e)
  | inr e ↦ simp (h s, e) (find-map g id subs h)
]

find-map_id : (id : ℕ) (subs : List Subscriber) → find id subs ≡ Option.map (λ s. s) (find id subs)
find-map_id id subs = elim (Option-cases (find id subs)) [ inl e ↦ rw e | inr (s, e) ↦ rw e ]

offer-id : (waiting : Bool) (f : Frame) (s : Subscriber) → (offer waiting f s).id ≡ s.id
unfolding offer
offer-id waiting f s = ground arith

find-checks :
    (m : Mux) (id : ℕ) (p : Phase)
    → find id (check_stop (record m { phase = p })).subs ≡ Option.map (λ s. s) (find id m.subs)
unfolding check_stop
find-checks m id checking = find-map_id id m.subs
find-checks m id receiving = find-map_id id m.subs
find-checks m id ended = find-map_id id m.subs

find-receives :
    (m : Mux) (waiting : ℕ → Bool) (answer : Result Frame) (id : ℕ) (p : Phase)
    → let m' = record m { phase = p } in
      find id (received waiting answer m').subs
      ≡ Option.map (effect m' (receives waiting answer) id) (find id m.subs)
unfolding received
find-receives m waiting (ok f) id receiving =
    find-map (λ s. offer (waiting s.id) f s) id m.subs (λ s. offer-id (waiting s.id) f s)
find-receives m waiting (err e) id receiving = find-map shut id m.subs (λ s. refl)
find-receives m waiting answer id checking = find-map_id id m.subs
find-receives m waiting answer id ended = find-map_id id m.subs

-- An event does to each subscription what it does to that one alone: no filter, buffer or slow
-- reader of another subscription plays a part. Only the identifier that Subscribe gives next is
-- left out.
pub find-step :
    (m : Mux) (e : Event) (id : ℕ)
    → id ≢ m.next
    → find id (step m e).subs ≡ Option.map (effect m e id) (find id m.subs)
unfolding step
find-step m (subscribes filter buffer) id h =
    rw (ne→== m.next id (λ e. h (sym e))) (find-map_id id m.subs)
find-step m (cancels j) id h =
    find-map (λ s. if s.id == j then shut s else s) id m.subs (λ s. ground arith)
find-step m closes id h = elim (Bool-cases m.stopped) [
  | inl e ↦ rw (e, close_mux) (find-map_id id m.subs)
  | inr e ↦ rw (e, close_mux) (find-map shut id m.subs (λ s. refl))
]
find-step m checks id h = find-checks m id m.phase
find-step m (receives waiting answer) id h = find-receives m waiting answer id m.phase
