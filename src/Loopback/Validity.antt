-- ===== src/Loopback/Validity.antt =====
-- What is on its way through a loopback bus was sent there and has passed Validate.
use canbus.Prelude.{
  ℕ, zero, suc, ◌≡◌, refl, sym, Bool, true, false, Option, none, some, List, [], ◌∷◌, ◌+◌, ◌++◌,
  ◌==◌, if◌then◌else◌, All, Bool-cases, Option-cases, inl, inr, ◌⊎◌, Result, ok,
}
use mathlib.Core.Path.{subst}
use canbus.Frame.{Frame, validate}
use canbus.Loopback.{
  Endpoint, Bus, new_endpoint, update, open_endpoint, close_no_lock, close_bus, receive, push,
  begin_send, snapshot, select_target, sent, skipped, blocked, panics, Outcome, Flight, starting,
  delivering, returned, advance, System, after_receive, advance_at, Event, opens, closes,
  closes_bus, receives, begins, advances, step, run, new_system,
}
use canbus.Loopback.Closing.{IfSome, IfSome-map}
use canbus.Loopback.Queues.{SameQueues, close_no_lock-SameQueues, close_bus-SameQueues}

module _ (Passes : Frame → Type 0) where
  abbrev Bears : Flight → Type 0
  Bears (starting i f) = Passes f
  Bears (delivering f targets) = Passes f
  Bears (returned e) = Unit {0}

  abbrev AllPass : Bus → Type 0
  AllPass b = (i : ℕ) → All Passes (b.ends i).queue

  -- The frames in the channels and those that a call of Send delivers.
  pub record IsClean (s : System) : Type 0 where
    pub queued : (i : ℕ) → All Passes (s.bus.ends i).queue
    pub carried : All Bears s.flights

  update-AllPass :
      (ends : ℕ → Endpoint) (i : ℕ) (ep : Endpoint)
      → ((j : ℕ) → All Passes (ends j).queue)
      → All Passes ep.queue
      → (j : ℕ) → All Passes (update ends i ep j).queue
  update-AllPass ends i ep h e j = elim (Bool-cases (j == i)) [
    | inl p ↦ rw p e
    | inr p ↦ rw p (h j)
  ]

  open-AllPass : (b : Bus) → AllPass b → AllPass (open_endpoint b)
  unfolding open_endpoint
  open-AllPass b h = by_closed b.is_closed
    where
      by_closed :
          (c : Bool)
          → AllPass (
              if c
              then record b {
                opened = b.opened + 1;
                ends = update b.ends b.opened (record new_endpoint { signalled = true });
              }
              else record b {
                opened = b.opened + 1;
                attached = b.opened ∷ b.attached;
                ends = update b.ends b.opened new_endpoint;
              })
      by_closed true =
          update-AllPass b.ends b.opened (record new_endpoint { signalled = true }) h tt
      by_closed false = update-AllPass b.ends b.opened new_endpoint h tt

  SameQueues-AllPass : (b c : Bus) → AllPass b → SameQueues b c → AllPass c
  SameQueues-AllPass b c h same i = subst (All Passes) (sym (same.0 i)) (h i)

  -- A Receive returns a frame that had passed.
  pub receive-Passes :
      (b : Bus) (i : ℕ)
      → AllPass b
      → IfSome
          (λ (r : Result Frame × Bus). AllPass r.1 × ((f : Frame) → r.0 ≡ ok f → Passes f))
          (receive i b)
  unfolding receive
  receive-Passes b i h = by_queue (b.ends i).queue refl
    where
      by_queue :
          (queue : List Frame)
          → (b.ends i).queue ≡ queue
          → IfSome
              (λ (r : Result Frame × Bus). AllPass r.1 × ((f : Frame) → r.0 ≡ ok f → Passes f))
              (receive i b)
      by_queue (f ∷ rest) e =
          let (first, others) : All Passes (f ∷ rest) = subst (All Passes) e (h i) in
          rw (e, receive)
            (
              update-AllPass b.ends i (record (b.ends i) { queue = rest }) h others,
              λ g p.
                  let same : ◌≡◌ {A = Result Frame} (ok f) (ok g) = p in
                  subst Passes (cc (same)) first,
            )
      by_queue [] e = elim (Bool-cases (b.ends i).sealed) [
        | inl p ↦ rw (e, p, receive) (h, λ g q. cc)
        | inr p ↦ rw (e, p, receive) tt
      ]

  All-snoc : (fs : List Frame) (f : Frame) → All Passes fs → Passes f → All Passes (fs ++ (f ∷ []))
  All-snoc [] f h p = (p, tt)
  All-snoc (g ∷ fs) f h p = (h.0, All-snoc fs f h.1 p)

  push-AllPass : (f : Frame) (i : ℕ) (b : Bus) → AllPass b → Passes f → AllPass (push f i b)
  unfolding push
  push-AllPass f i b h p =
      update-AllPass b.ends i (record (b.ends i) { queue = (b.ends i).queue ++ (f ∷ []) }) h
        (All-snoc (b.ends i).queue f (h i) p)

  begin-Bears :
      (i : ℕ) (f : Frame) (b : Bus) → (validate f ≡ none → Passes f) → Bears (begin_send i f b)
  unfolding begin_send
  begin-Bears i f b vouched = elim (Option-cases (validate f)) [
    | inl v ↦ elim (Bool-cases (b.ends i).dead) [
      | inl d ↦ rw (v, d, begin_send) tt
      | inr d ↦ rw (v, d, begin_send) (vouched v)
    ]
    | inr (e, v) ↦ rw (v, begin_send) tt
  ]

  snapshot-Bears : (i : ℕ) (f : Frame) (b : Bus) → Passes f → Bears (snapshot i f b)
  unfolding snapshot
  snapshot-Bears i f b p = elim (Bool-cases b.is_closed) [
    | inl c ↦ rw (c, snapshot) tt
    | inr c ↦ rw (c, snapshot) p
  ]

  abbrev Good : Flight × Bus → Type 0
  Good r = Bears r.0 × AllPass r.1

  advance-Good :
      (pick : Bool) (t : Flight) (b : Bus) → Bears t → AllPass b → IfSome Good (advance pick t b)
  unfolding advance
  advance-Good pick (returned e) b p h = (tt, h)
  advance-Good pick (starting i f) b p h = (snapshot-Bears i f b p, h)
  advance-Good pick (delivering f []) b p h = (tt, h)
  advance-Good pick (delivering f (t ∷ targets)) b p h =
      by_outcome (select_target pick (b.ends t)) refl
    where
      by_outcome :
          (o : Outcome)
          → select_target pick (b.ends t) ≡ o
          → IfSome Good (advance pick (delivering f (t ∷ targets)) b)
      by_outcome sent e = rw (e, advance) (p, push-AllPass f t b h p)
      by_outcome skipped e = rw (e, advance) (p, h)
      by_outcome blocked e = rw (e, advance) (p, h)
      by_outcome panics e = rw (e, advance) tt

  abbrev AllGood : List Flight × Bus → Type 0
  AllGood r = All Bears r.0 × AllPass r.1

  advance_at-AllGood :
      (k : ℕ) (pick : Bool) (flights : List Flight) (b : Bus)
      → All Bears flights
      → AllPass b
      → IfSome AllGood (advance_at k pick flights b)
  unfolding advance_at
  advance_at-AllGood k pick [] b p h = (tt, h)
  advance_at-AllGood zero pick (t ∷ flights) b (p, ps) h =
      IfSome-map Good AllGood (λ (r : Flight × Bus). (r.0 ∷ flights, r.1)) (advance pick t b)
        (λ r g. ((g.0, ps), g.1)) (advance-Good pick t b p h)
  advance_at-AllGood (suc k) pick (t ∷ flights) b (p, ps) h =
      IfSome-map AllGood AllGood (λ (r : List Flight × Bus). (t ∷ r.0, r.1))
        (advance_at k pick flights b) (λ r g. ((p, g.0), g.1))
        (advance_at-AllGood k pick flights b ps h)

  -- A frame that is sent and passes Validate is one of them.
  abbrev Vouched : Event → Type 0
  Vouched (begins i f) = validate f ≡ none → Passes f
  Vouched e = Unit {0}

  step-IsClean : (s : System) (e : Event) → Vouched e → IsClean s → IfSome IsClean (step s e)
  unfolding step
  step-IsClean s opens v h = record { queued = open-AllPass s.bus h.queued; carried = h.carried }
  step-IsClean s (closes i) v h =
      IfSome-map (SameQueues s.bus) IsClean (λ c. record s { bus = c }) (close_no_lock i s.bus)
        (λ c same. record {
          queued = SameQueues-AllPass s.bus c h.queued same;
          carried = h.carried;
        })
        (close_no_lock-SameQueues i s.bus)
  step-IsClean s closes_bus v h =
      IfSome-map (SameQueues s.bus) IsClean (λ c. record s { bus = c }) (close_bus s.bus)
        (λ c same. record {
          queued = SameQueues-AllPass s.bus c h.queued same;
          carried = h.carried;
        })
        (close_bus-SameQueues s.bus)
  step-IsClean s (receives i) v h = by_answer (receive i s.bus) (receive-Passes s.bus i h.queued)
    where
      by_answer :
          (o : Option (Result Frame × Bus))
          → IfSome
              (λ (r : Result Frame × Bus). AllPass r.1 × ((f : Frame) → r.0 ≡ ok f → Passes f))
              o
          → IsClean (after_receive s o)
      by_answer none q = h
      by_answer (some (r, b)) q = record { queued = q.0; carried = h.carried }
  step-IsClean s (begins i f) v h = record {
    queued = h.queued;
    carried = (begin-Bears i f s.bus v, h.carried);
  }
  step-IsClean s (advances k pick) v h =
      IfSome-map AllGood IsClean (λ (r : List Flight × Bus). record { bus = r.1; flights = r.0 })
        (advance_at k pick s.flights s.bus) (λ r g. record { queued = g.1; carried = g.0 })
        (advance_at-AllGood k pick s.flights s.bus h.carried h.queued)

  run-IsClean :
      (s r : System) (events : List Event)
      → All Vouched events
      → IsClean s
      → run s events ≡ some r
      → IsClean r
  unfolding run
  run-IsClean s r [] v h p = subst (IfSome IsClean) p h
  run-IsClean s r (e ∷ events) (v, vs) h p =
      by_step (λ q. run-IsClean q r events vs) (step s e) (step-IsClean s e v h) p
    where
      by_step :
          ((q : System) → IsClean q → run q events ≡ some r → IsClean r)
          → (o : Option System) → IfSome IsClean o
          → (elim o [ none ↦ none | some q ↦ run q events ]) ≡ some r
          → IsClean r
      by_step more none h p = cc
      by_step more (some q) h p = more q h p

-- That a Send of the frame is called in a run.
abbrev pub Begins : Event → Frame → Type 0
Begins (begins i g) f = g ≡ f
Begins opens f = ⊥
Begins (closes i) f = ⊥
Begins closes_bus f = ⊥
Begins (receives i) f = ⊥
Begins (advances k pick) f = ⊥

abbrev pub WasSent : List Event → Frame → Type 0
WasSent [] f = ⊥
WasSent (e ∷ events) f = Begins e f ⊎ WasSent events f

abbrev FromSend : List Event → Frame → Type 0
FromSend events f = (validate f ≡ none) × WasSent events f

step-Vouched :
    (all events : List Event) (e : Event)
    → ((f : Frame) → WasSent (e ∷ events) f → WasSent all f)
    → Vouched (FromSend all) e
step-Vouched all events (begins i f) h = λ v. (v, h f (inl refl))
step-Vouched all events opens h = tt
step-Vouched all events (closes i) h = tt
step-Vouched all events closes_bus h = tt
step-Vouched all events (receives i) h = tt
step-Vouched all events (advances k pick) h = tt

run-Vouched :
    (all events : List Event)
    → ((f : Frame) → WasSent events f → WasSent all f)
    → All (Vouched (FromSend all)) events
run-Vouched all [] h = tt
run-Vouched all (e ∷ events) h =
    (step-Vouched all events e h, run-Vouched all events (λ f w. h f (inr w)))

-- Whatever is sent, received, opened and closed on a new loopback bus, and in whatever order, a
-- frame that Receive returns has passed Validate, and a Send of it was called before: no frame is
-- made up or changed on the way, and an invalid one never arrives.
pub received_WasSent :
    (s : System) (b : Bus) (events : List Event) (i : ℕ) (f : Frame)
    → run new_system events ≡ some s
    → receive i s.bus ≡ some (ok f, b)
    → (validate f ≡ none) × WasSent events f
received_WasSent s b events i f p got =
    let P = FromSend events in
    let clean =
      run-IsClean P new_system s events (run-Vouched events events (λ f w. w))
        (record { queued = λ i. tt; carried = tt }) p in
    (subst (IfSome (λ (r : Result Frame × Bus). AllPass P r.1 × ((f : Frame) → r.0 ≡ ok f → P f)))
        got (receive-Passes P s.bus i clean.queued)).1
      f refl
