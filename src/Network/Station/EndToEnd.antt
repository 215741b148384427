-- ===== src/Network/Station/EndToEnd.antt =====
-- From the Sends on a loopback bus to the subscriptions of a mux, over whole runs.
use canbus.Prelude.{
  ℕ, ◌+◌, ◌^◌, ◌<◌, ◌≤◌, ◌≡◌, refl, sym, ap, ◌∙◌, arith, Option, none, some, List, [], ◌∷◌, ◌++◌,
  length, length-append, All, Result, Bool-cases, inl, inr,
}
use mathlib.Core.Path.{subst}
use mathlib.Core.List.{append-nil, append_assoc}
use canbus.Frame.{Frame}
use canbus.Filter.{FrameFilter, passes}
use canbus.Loopback
use canbus.Loopback.{Endpoint, System}
use canbus.Loopback.Closing.{IfSome, IfSome-map, IfSome-any}
use canbus.Loopback.History.{balance_both}
use canbus.Mux
use canbus.Mux.{Subscriber, Phase, checking, receiving, ended}
use canbus.Mux.Ends
use canbus.Mux.Delivery.{passed}
use canbus.Mux.Subscriptions.{find}
use canbus.Network.Station.{
  Station, Event, on_bus, on_mux, reads, after_read, read_at, step, run, puts, gets, all_puts,
  all_gets, IsOwn,
}
use canbus.Network.Station.Deliveries.{Held, Follows, step-Follows}

passed-append :
    (filter : FrameFilter) (xs ys : List Frame)
    → passed filter (xs ++ ys) ≡ passed filter xs ++ passed filter ys
passed-append filter [] ys = refl
passed-append filter (f ∷ xs) ys = elim (Bool-cases (passes filter f)) [
  | inl e ↦ rw e (ap (◌∷◌ f) (passed-append filter xs ys))
  | inr e ↦ rw e (passed-append filter xs ys)
]

-- The identifiers that Subscribe gives do not come round within the events.
abbrev pub IsOld : Station → List Event → ℕ → Type 0
IsOld s events id = (id < s.mux.next) × (s.mux.next + length events < 2 ^ 64)

-- What a run comes to for a subscription and for the endpoint of its mux.
pub record Delivers (i id : ℕ) (s t : Station) (sub : Subscriber) (events : List Event)
    : Type 0 where
  pub after : Subscriber
  pub found : find id t.mux.subs ≡ some after
  pub filled : after.queue ≡ sub.queue ++ passed sub.filter (all_gets i s events)
  pub balanced :
      (s.system.bus.ends i).queue ++ all_puts i s events
      ≡ all_gets i s events ++ (t.system.bus.ends i).queue

next-step :
    (i : ℕ) (s : Station) (e : Event)
    → s.mux.next + 1 < 2 ^ 64
    → IfSome
        (λ (t : Station). (s.mux.next ≤ t.mux.next) × (t.mux.next ≤ s.mux.next + 1))
        (step i s e)
unfolding step Mux.received Mux.step
next-step i s (on_bus e) h =
    IfSome-map (λ t. Unit {0}) _ (λ (t : System). record s { system = t })
      (Loopback.step s.system e) (λ t u. (omega arith, omega arith))
      (IfSome-any (Loopback.step s.system e))
next-step i s (on_mux e) h = Ends.next-step s.mux e h
next-step i s (reads waiting) h = at_phase s.mux.phase
  where
    answered :
        (o : Option (Result Frame × Loopback.Bus))
        → let t = after_read waiting s o in
          (s.mux.next ≤ t.mux.next) × (t.mux.next ≤ s.mux.next + 1)
    answered none = (omega arith, omega arith)
    answered (some (r, b)) = Ends.next-step s.mux (Mux.receives waiting r) h

    at_phase :
        (p : Phase)
        → let t = read_at i waiting s p in (s.mux.next ≤ t.mux.next) × (t.mux.next ≤ s.mux.next + 1)
    at_phase receiving = answered (Loopback.receive i s.system.bus)
    at_phase checking = (omega arith, omega arith)
    at_phase ended = (omega arith, omega arith)

-- One step, and a run behind it.
one_more :
    (i id : ℕ) (s q t : Station) (sub after : Subscriber) (e : Event) (events : List Event)
    → step i s e ≡ some q
    → Follows i id s q sub after (puts i s e) (gets i s e)
    → Delivers i id q t after events
    → Delivers i id s t sub (e ∷ events)
unfolding all_puts all_gets
one_more i id s q t sub after e events z f d = record {
  after = d.after;
  found = d.found;
  filled = rw z (
      d.filled
      ∙ ap (λ (x : FrameFilter). after.queue ++ passed x (all_gets i q events)) f.filter_same
      ∙ ap (λ (l : List Frame). l ++ passed sub.filter (all_gets i q events)) f.filled
      ∙ append_assoc sub.queue (passed sub.filter (gets i s e))
          (passed sub.filter (all_gets i q events))
      ∙ ap (λ (l : List Frame). sub.queue ++ l)
          (sym (passed-append sub.filter (gets i s e) (all_gets i q events))));
  balanced = rw z (
      balance_both (s.system.bus.ends i).queue (puts i s e) (all_puts i q events) (gets i s e)
        (all_gets i q events) (q.system.bus.ends i).queue (t.system.bus.ends i).queue f.balanced.0
        d.balanced);
}

-- The room that is left behind a step.
room_left :
    (filter filter' : FrameFilter) (queue queue' g rest : List Frame) (buffer buffer' : ℕ)
    → length queue + length (passed filter (g ++ rest)) ≤ buffer
    → queue' ≡ queue ++ passed filter g
    → filter' ≡ filter
    → buffer' ≡ buffer
    → (length queue + length (passed filter g) ≤ buffer)
      × (length queue' + length (passed filter' rest) ≤ buffer')
room_left filter filter' queue queue' g rest buffer buffer' room filled same_filter same_buffer =
    let whole = ap length (passed-append filter g rest) in
    let parts = length-append (passed filter g) (passed filter rest) in
    (
      omega (arith, whole, parts),
      rw (filled, same_filter, same_buffer)
          (omega (arith, whole, parts, length-append queue (passed filter g))),
    )

-- A mux on an endpoint of a loopback bus that was opened before, in any run that does not panic,
-- with Sends and Closes of all endpoints, with other subscriptions that come and go and with the
-- reader anywhere between, in which nobody else receives at the endpoint, the mux is not closed,
-- its 64-bit identifiers do not come round, and this subscription, open at the start (or the reader
-- has returned), is not cancelled: what Sends put into the endpoint, behind what was there, is what
-- the reader gets, followed by what is still there; and of what the reader gets, the subscription
-- has in its channel, behind what was there, exactly the frames that its filter passes, each once
-- and in their order, if they fit its buffer.
pub run-Delivers :
    (i id : ℕ) (s t : Station) (sub : Subscriber) (events : List Event)
    → All (IsOwn i id) events
    → i < s.system.bus.opened
    → IsOld s events id
    → Held id s sub
    → length sub.queue + length (passed sub.filter (all_gets i s events)) ≤ sub.buffer
    → run i s events ≡ some t
    → Delivers i id s t sub events
unfolding run all_puts all_gets
run-Delivers i id s t sub [] own h old held room p =
    subst (IfSome (λ (t : Station). Delivers i id s t sub [])) p (record {
      after = sub;
      found = held.found;
      filled = sym (append-nil sub.queue);
      balanced = append-nil (s.system.bus.ends i).queue;
    })
run-Delivers i id s t sub (e ∷ events) own h old held room p =
    by_step (λ q after. run-Delivers i id q t after events own.1) (step i s e) refl room p
  where
    by_step :
        ((q : Station) (after : Subscriber)
          → i < q.system.bus.opened
          → IsOld q events id
          → Held id q after
          → length after.queue + length (passed after.filter (all_gets i q events)) ≤ after.buffer
          → run i q events ≡ some t
          → Delivers i id q t after events)
        → (o : Option Station) → step i s e ≡ o
        → length sub.queue
            + length (
                passed sub.filter
                  (gets i s e ++ elim o [ none ↦ [] | some q ↦ all_gets i q events ]))
          ≤ sub.buffer
        → (elim o [ none ↦ none | some q ↦ run i q events ]) ≡ some t
        → Delivers i id s t sub (e ∷ events)
    by_step more none z room p = cc
    by_step more (some q) z room p =
        let rest = all_gets i q events in
        let now =
          (room_left sub.filter sub.filter sub.queue _ (gets i s e) rest sub.buffer sub.buffer room
            refl refl refl).0 in
        let (after, f) =
          subst
            (IfSome (λ (q : Station).
              (after : Subscriber) × Follows i id s q sub after (puts i s e) (gets i s e)))
            z (step-Follows i id s e sub own.0 h (λ x. absurd (omega arith)) held now) in
        let bounds =
          subst
            (IfSome (λ (q : Station). (s.mux.next ≤ q.mux.next) × (q.mux.next ≤ s.mux.next + 1))) z
            (next-step i s e (omega arith)) in
        let later =
          (room_left sub.filter after.filter sub.queue after.queue (gets i s e) rest sub.buffer
            after.buffer room f.filled f.filter_same f.buffer_same).1 in
        one_more i id s q t sub after e events z f
          (more q after f.balanced.1 (omega arith) f.held later p)
