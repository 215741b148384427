-- ===== src/Message/Subscription/Ending.antt =====
-- The end of a subscription: what the reader still gets, when the channel is closed, and when it
-- never is.
use canbus.Prelude.{
  ℕ, zero, suc, ◌+◌, ◌*◌, ◌≤◌, ◌<◌, ◌≡◌, ◌⊎◌, refl, sym, ◌∙◌, ap, arith, Bool, true, false, Option,
  none, some, List, [], ◌∷◌, ◌++◌, length, length-append, ltb, if◌then◌else◌, inl, inr,
}
use canbus.Frame.{Frame}
use canbus.Message.Heartbeat.{Heartbeat, heartbeats}
use canbus.Message.Subscription.Order.{on_the_way, held_list, forward-Kept, read-Kept}
use mathlib.Core.List.{append-nil}
use canbus.Message.Subscription.{
  Subscription, parsed, forward, read, Event, shuts, advances, reads, step, run,
  subscribe_heartbeats,
}
use canbus.Mux
use canbus.Mux.{Subscriber, offer, take_frame, shut, has_room}
use canbus.Message.Subscription.Orderly.{
  IsOrderly, with_state, forward-IsOrderly, read-IsOrderly, step-IsOrderly, run-IsOrderly,
}

abbrev pub count : Option Heartbeat → ℕ
count none = 0
count (some h) = 1

-- The steps that are left at most, once no more frames come.
abbrev pub steps_left : Subscription → ℕ
steps_left s = 2 * length s.sub.queue + count s.held + length s.out

-- The reader receives and the goroutine goes on, again and again.
abbrev pub rounds : ℕ → List Event
rounds zero = []
rounds (suc k) = reads ∷ advances ∷ rounds k

-- After a round on a subscription that is shut there is less to do, or all is done.
abbrev Nearer : Subscription → Subscription → Type 0
Nearer s s' =
    (s'.sub.live ≡ false)
    × ((steps_left s' < steps_left s) ⊎ ((steps_left s' ≡ 0) × (s'.is_done ≡ true)))

take_lem :
    (queue : List Frame) (s : Subscription)
    → let s' = with_state s.sub queue false none false s in
      ((forward s').sub.live ≡ false)
      × ((steps_left (forward s') < steps_left s')
          ⊎ ((steps_left (forward s') ≡ steps_left s')
              × (queue ≡ [])
              × ((forward s').is_done ≡ true)))
unfolding forward take_frame
take_lem [] s = (refl, inr (refl, refl, refl))
take_lem (f ∷ rest) s = (refl, inl (lighter (parsed f)))
  where
    lighter :
        (held : Option Heartbeat)
        → 2 * length rest + count held + length s.out < 2 * suc (length rest) + 0 + length s.out
    lighter none = omega arith
    lighter (some h) = omega arith

forward_lem :
    (s : Subscription)
    → s.sub.live ≡ false
    → ((forward s).sub.live ≡ false) × (steps_left (forward s) ≤ steps_left s)
unfolding forward
forward_lem s shut_ = by_state s.sub.live s.is_done s.held shut_
  where
    put :
        (h : Heartbeat) (room : Bool)
        → let s' : Subscription = record s {
          sub = record s.sub { live = false };
          held = some h;
          is_done = false;
        } in
          let s'' = if room then record s' { held = none; out = s.out ++ (h ∷ []) } else s' in
          (s''.sub.live ≡ false) × (steps_left s'' ≤ steps_left s')
    put h true = (refl, omega (arith, length-append s.out (h ∷ [])))
    put h false = (refl, omega arith)

    by_state :
        (live done : Bool) (held : Option Heartbeat)
        → live ≡ false
        → let s' = with_state s.sub s.sub.queue live held done s in
          ((forward s').sub.live ≡ false) × (steps_left (forward s') ≤ steps_left s')
    by_state true done held e = absurd (cc (e))
    by_state false true held e = (refl, omega arith)
    by_state false false none e =
        let (live, left) = take_lem s.sub.queue s in
        (live, elim left [ inl less ↦ omega arith | inr (same, empty, done) ↦ omega (arith, same) ])
    by_state false false (some h) e = put h (ltb (length s.out) s.out_buffer)

round-Nearer : (s : Subscription) → s.sub.live ≡ false → IsOrderly s → Nearer s (forward (read s))
unfolding read
round-Nearer s shut_ h = by_state s.sub.live s.sub.queue s.is_done s.out s.held shut_ h
  where
    by_state :
        (live : Bool) (queue : List Frame) (done : Bool) (out : List Heartbeat)
        (held : Option Heartbeat)
        → live ≡ false
        → let s' = with_state s.sub queue live held done (record s { out = out }) in
          IsOrderly s' → Nearer s' (forward (read s'))
    by_state true queue done out held e h = absurd (cc (e))
    by_state false queue false [] none e h =
        let (live, left) = take_lem queue (record s { out = [] }) in
        (
          live,
          elim left [
            | inl less ↦ inl less
            | inr (same, empty, done) ↦ inr (omega (arith, same, ap length empty), done)
          ],
        )
    by_state false queue true [] none e h =
        let (closed, empty, none_) = h refl in
        unfold forward in (refl, inr (omega (arith, ap length empty), refl))
    by_state false queue done [] (some x) e h =
        let s1 =
          with_state s.sub queue false none done (record s { out = []; got = s.got ++ (x ∷ []) }) in
        let (live, less) = forward_lem s1 refl in (live, inl (omega (arith, less)))
    by_state false queue done (x ∷ rest) held e h =
        let s1 =
          with_state s.sub queue false held done
            (record s { out = rest; got = s.got ++ (x ∷ []) }) in
        let (live, less) = forward_lem s1 refl in (live, inl (omega (arith, less)))

rounds_end :
    (k : ℕ) (s : Subscription)
    → s.sub.live ≡ false
    → IsOrderly s
    → steps_left s < k
    → let e = run s (rounds k) in (e.is_done ≡ true) × (steps_left e ≡ 0)
unfolding run step
rounds_end zero s shut_ h less = absurd (omega arith)
rounds_end (suc zero) s shut_ h less = elim (round-Nearer s shut_ h).1 [
  | inl fewer ↦ absurd (omega (arith, fewer))
  | inr (none_left, done) ↦ (done, none_left)
]
rounds_end (suc (suc k)) s shut_ h less =
    let s1 = forward (read s) in
    let (live, nearer) = round-Nearer s shut_ h in
    let fewer : steps_left s1 < suc k = elim nearer [
      | inl f ↦ omega (arith, f)
      | inr (none_left, done) ↦ omega (arith, none_left)
    ] in
    rounds_end (suc k) s1 live (forward-IsOrderly (read s) (read-IsOrderly s h)) fewer

rounds_keep : (k : ℕ) (s : Subscription) → on_the_way (run s (rounds k)) ≡ on_the_way s
unfolding run step
rounds_keep zero s = refl
rounds_keep (suc k) s =
    rounds_keep k (forward (read s)) ∙ (forward-Kept (read s)).0 ∙ (read-Kept s).0

nothing_left : (s : Subscription) → steps_left s ≡ 0 → on_the_way s ≡ s.got
nothing_left s h = by_state s.out s.held s.sub.queue h
  where
    by_state :
        (out : List Heartbeat) (held : Option Heartbeat) (queue : List Frame)
        → 2 * length queue + count held + length out ≡ 0
        → s.got ++ (out ++ (held_list held ++ heartbeats queue)) ≡ s.got
    by_state [] none [] h = unfold heartbeats in append-nil s.got
    by_state [] none (f ∷ queue) h = absurd (omega (arith, h))
    by_state [] (some x) queue h = absurd (omega (arith, h))
    by_state (x ∷ out) held queue h = absurd (omega (arith, h))

-- Where a subscription is ended, by its cancel function or by the mux, and a reader goes on to
-- receive: after more rounds than twice the frames in the channel and once the heartbeats behind
-- it, the channel of heartbeats is closed, and the reader has got every heartbeat that was on its
-- way.
pub drained :
    (m : Mux.Mux) (node_filter : Option ℕ) (buffer : ℕ) (events : List Event) (k : ℕ)
    → steps_left (run (subscribe_heartbeats m node_filter buffer).1 events) < k
    → let s = run (subscribe_heartbeats m node_filter buffer).1 events in
      let e = run (step s shuts) (rounds k) in (e.is_done ≡ true) × (e.got ≡ on_the_way s)
drained m node_filter buffer events k less =
    let s0 = (subscribe_heartbeats m node_filter buffer).1 in
    let s = run s0 events in
    let orderly : IsOrderly s =
      run-IsOrderly s0 events (unfold subscribe_heartbeats in λ d. absurd (cc (d))) in
    let (done, none_left) =
      rounds_end k (step s shuts) (unfold step in refl) (step-IsOrderly s shuts orderly)
        (unfold step in less) in
    (
      done,
      sym (nothing_left (run (step s shuts) (rounds k)) none_left)
          ∙ rounds_keep k (step s shuts)
          ∙ unfold step in refl,
    )
