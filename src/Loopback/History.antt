-- ===== src/Loopback/History.antt =====
-- What runs of a loopback bus put into the channel of an endpoint and take out of it, whatever the
-- order of the steps.
use canbus.Prelude.{ℕ, ◌<◌, ◌≡◌, refl, sym, ap, ◌∙◌, Option, none, some, List, [], ◌∷◌, ◌++◌}
use mathlib.Core.Path.{subst}
use mathlib.Core.List.{append-nil, append_assoc}
use canbus.Frame.{Frame}
use canbus.Loopback.{System, Event, step, run}
use canbus.Loopback.Closing.{IfSome}
use canbus.Loopback.Queues.{delivered_by, frame_for, taken_by, Balanced, step-Balanced}

-- The frames that Sends deliver to an endpoint in the course of a run, in order, and those that its
-- Receives return.
unfoldable pub put_in : ℕ → System → List Event → List Frame
put_in i s [] = []
put_in i s (e ∷ events) =
    frame_for i (delivered_by s e) ++ elim (step s e) [ none ↦ [] | some r ↦ put_in i r events ]

unfoldable pub taken_out : ℕ → System → List Event → List Frame
taken_out i s [] = []
taken_out i s (e ∷ events) =
    taken_by i s e ++ elim (step s e) [ none ↦ [] | some r ↦ taken_out i r events ]

-- Two balances, one behind the other.
pub balance_both :
    (q p1 p2 t1 t2 q1 q2 : List Frame)
    → q ++ p1 ≡ t1 ++ q1
    → q1 ++ p2 ≡ t2 ++ q2
    → q ++ (p1 ++ p2) ≡ (t1 ++ t2) ++ q2
balance_both q p1 p2 t1 t2 q1 q2 a b =
    sym (append_assoc q p1 p2)
    ∙ ap (λ (l : List Frame). l ++ p2) a
    ∙ append_assoc t1 q1 p2
    ∙ ap (λ (l : List Frame). t1 ++ l) b
    ∙ sym (append_assoc t1 t2 q2)

-- In every run that does not panic, whatever the goroutines do in it, the frames in the channel of
-- an endpoint that was opened before it, followed by those that Sends deliver to it, are those that
-- its Receives return, followed by those left in its channel: no frame is lost, doubled or out of
-- order, the end of the endpoint and of the bus included.
pub run-Balanced :
    (i : ℕ) (s r : System) (events : List Event)
    → i < s.bus.opened
    → run s events ≡ some r
    → (s.bus.ends i).queue ++ put_in i s events ≡ taken_out i s events ++ (r.bus.ends i).queue
unfolding run put_in taken_out
run-Balanced i s r [] h e =
    let same : ◌≡◌ {A = Option System} (some s) (some r) = e in
    append-nil (s.bus.ends i).queue ∙ ap (λ (o : Option System). (from s o)) same
  where
    from : System → Option System → List Frame
    from s none = (s.bus.ends i).queue
    from s (some r) = (r.bus.ends i).queue
run-Balanced i s r (e ∷ events) h p =
    by_step (λ q l z. run-Balanced i q r events l z) (step s e) refl p
  where
    by_step :
        ((q : System)
          → i < q.bus.opened
          → run q events ≡ some r
          → (q.bus.ends i).queue ++ put_in i q events
            ≡ taken_out i q events ++ (r.bus.ends i).queue)
        → (o : Option System) → step s e ≡ o
        → (elim o [ none ↦ none | some q ↦ run q events ]) ≡ some r
        → (s.bus.ends i).queue ++ put_in i s (e ∷ events)
          ≡ taken_out i s (e ∷ events) ++ (r.bus.ends i).queue
    by_step more none z p = cc
    by_step more (some q) z p =
        let (now, l) =
          subst
            (IfSome (λ (t : System).
              Balanced i s.bus (frame_for i (delivered_by s e)) (taken_by i s e) t.bus))
            z (step-Balanced i s e h) in
        rw z (
          balance_both (s.bus.ends i).queue (frame_for i (delivered_by s e)) (put_in i q events)
            (taken_by i s e) (taken_out i q events) (q.bus.ends i).queue (r.bus.ends i).queue now
            (more q l p))
