-- ===== src/SocketCan/Closing/Twice.antt =====
-- Two goroutines in Close of socketcan_linux.go that both found the channel open.
use canbus.Prelude.{
  ℕ, zero, suc, ◌<◌, ◌≡◌, ◌≢◌, refl, sym, ◌∙◌, ap, arith, Bool, true, false, List, [], ◌∷◌, length,
  get_or, ◌==◌, ◌||◌, ==→eq, Bool-cases, inl, inr, ◌⊎◌,
}
use canbus.SocketCan.Closing.{
  Closer, Closing, calling, past_select, closing_file, returned, panicked, step_closer, step_nth,
  step, run,
}

-- Where goroutine `i` is.
abbrev pub at : ℕ → List Closer → Closer
at i cs = get_or cs i returned

step_nth-at :
    (i : ℕ) (b : Bool) (cs : List Closer)
    → i < length cs
    → ((step_nth i b cs).0 ≡ (step_closer b (at i cs)).0)
      × (at i (step_nth i b cs).2 ≡ (step_closer b (at i cs)).2)
      × (length (step_nth i b cs).2 ≡ length cs)
unfolding step_nth
step_nth-at i b [] h = absurd (omega arith)
step_nth-at zero b (c ∷ cs) h = (refl, refl, refl)
step_nth-at (suc i) b (c ∷ cs) h =
    let (channel, here, size) = step_nth-at i b cs (omega arith) in (channel, here, ap suc size)

step_nth-other :
    (i j : ℕ) (b : Bool) (cs : List Closer) → i ≢ j → at j (step_nth i b cs).2 ≡ at j cs
unfolding step_nth
step_nth-other i j b [] ne = refl
step_nth-other zero zero b (c ∷ cs) ne = absurd (ne refl)
step_nth-other zero (suc j) b (c ∷ cs) ne = refl
step_nth-other (suc i) zero b (c ∷ cs) ne = refl
step_nth-other (suc i) (suc j) b (c ∷ cs) ne = step_nth-other i j b cs (λ e. ne (ap suc e))

-- Whether a goroutine makes a step in a schedule.
abbrev pub moves : ℕ → List ℕ → Bool
moves i [] = false
moves i (k ∷ is) = k == i || moves i is

-- A goroutine that does not move stays where it is, and one that does makes its own step.
record Turn (i k : ℕ) (s : Closing) : Type 0 where
  moved : k ≡ i → at i (step k s).closers ≡ (step_closer s.is_closed (at i s.closers)).2
  stayed : k ≢ i → at i (step k s).closers ≡ at i s.closers
  size : length (step k s).closers ≡ length s.closers
  channel : s.is_closed ≡ true → (step k s).is_closed ≡ true

step_closer-closed : (c : Closer) → (step_closer true c).0 ≡ true
unfolding step_closer
step_closer-closed calling = refl
step_closer-closed past_select = refl
step_closer-closed closing_file = refl
step_closer-closed returned = refl
step_closer-closed panicked = refl

step_nth-closed : (k : ℕ) (cs : List Closer) → (step_nth k true cs).0 ≡ true
unfolding step_nth
step_nth-closed k [] = refl
step_nth-closed zero (c ∷ cs) = step_closer-closed c
step_nth-closed (suc k) (c ∷ cs) = step_nth-closed k cs

length-step_nth : (k : ℕ) (b : Bool) (cs : List Closer) → length (step_nth k b cs).2 ≡ length cs
unfolding step_nth
length-step_nth k b [] = refl
length-step_nth zero b (c ∷ cs) = refl
length-step_nth (suc k) b (c ∷ cs) = ap suc (length-step_nth k b cs)

step-Turn : (i k : ℕ) (s : Closing) → i < length s.closers → Turn i k s
unfolding step
step-Turn i k s h = record {
  moved = λ e. rw e ((step_nth-at i s.is_closed s.closers h).1);
  stayed = λ ne. step_nth-other k i s.is_closed s.closers ne;
  size = length-step_nth k s.is_closed s.closers;
  channel = λ e. rw e (step_nth-closed k s.closers);
}

==→ne : (k i : ℕ) → (k == i) ≡ false → k ≢ i
==→ne k i e p = ground arith

run-panicked :
    (i : ℕ) (is : List ℕ) (s : Closing)
    → i < length s.closers
    → at i s.closers ≡ panicked
    → at i (run is s).closers ≡ panicked
unfolding run step_closer
run-panicked i [] s h p = p
run-panicked i (k ∷ is) s h p =
    let t = step-Turn i k s h in
    run-panicked i is (step k s) (omega (arith, t.size)) (elim (Bool-cases (k == i)) [
      | inl e ↦ t.moved (==→eq k i e) ∙ rw p refl
      | inr e ↦ t.stayed (==→ne k i e) ∙ p
    ])

-- Past the select, with the channel closed, the next step panics.
run-doomed :
    (i : ℕ) (is : List ℕ) (s : Closing)
    → i < length s.closers
    → s.is_closed ≡ true
    → at i s.closers ≡ past_select
    → moves i is ≡ true
    → at i (run is s).closers ≡ panicked
unfolding run step_closer
run-doomed i [] s h c p m = cc
run-doomed i (k ∷ is) s h c p m =
    let t = step-Turn i k s h in
    elim (Bool-cases (k == i)) [
      | inl e ↦
          run-panicked i is (step k s) (omega (arith, t.size))
            (t.moved (==→eq k i e) ∙ rw (c, p) refl)
      | inr e ↦
          run-doomed i is (step k s) (omega (arith, t.size)) (t.channel c)
            (t.stayed (==→ne k i e) ∙ p) (ground (arith, e, m))
    ]

-- One of two that are past the select closes the channel, and the other one is doomed.
second :
    (i j k : ℕ) (is : List ℕ) (s : Closing)
    → i < length s.closers
    → j < length s.closers
    → i ≢ j
    → k ≡ j
    → s.is_closed ≡ false
    → at j s.closers ≡ past_select
    → at i s.closers ≡ past_select
    → moves i (k ∷ is) ≡ true
    → at i (run (k ∷ is) s).closers ≡ panicked
unfolding run step step_closer
second i j k is s hi hj ne same c pj pi m =
    let t = step-Turn i k s hi in
    let other : k ≢ i = λ e. ne (sym e ∙ same) in
    let shut : (step_nth k s.is_closed s.closers).0 ≡ true =
      rw same ((step_nth-at j s.is_closed s.closers hj).0 ∙ rw (c, pj) refl) in
    run-doomed i is (step k s) (omega (arith, t.size)) shut (t.stayed other ∙ pi)
      (ground (arith, other, m))

-- Wherever two goroutines are both past the select, in whatever state the channel and the other
-- goroutines are: in every schedule in which both of them go on, however all the others step in
-- between, one of the two panics, for the second of them to get there closes a closed channel.
pub two_closers_panic :
    (i j : ℕ) (is : List ℕ) (s : Closing)
    → i < length s.closers
    → j < length s.closers
    → i ≢ j
    → at i s.closers ≡ past_select
    → at j s.closers ≡ past_select
    → moves i is ≡ true
    → moves j is ≡ true
    → (at i (run is s).closers ≡ panicked) ⊎ (at j (run is s).closers ≡ panicked)
unfolding run step_closer
two_closers_panic i j [] s hi hj ne pi pj mi mj = cc
two_closers_panic i j (k ∷ is) s hi hj ne pi pj mi mj = elim (Bool-cases s.is_closed) [
  | inl c ↦ inl (run-doomed i (k ∷ is) s hi c pi mi)
  | inr c ↦ elim (Bool-cases (k == i)) [
    | inl e ↦ inr (second j i k is s hj hi (λ q. ne (sym q)) (==→eq k i e) c pi pj mj)
    | inr e ↦ elim (Bool-cases (k == j)) [
      | inl d ↦ inl (second i j k is s hi hj ne (==→eq k j d) c pj pi mi)
      | inr d ↦
          let ti = step-Turn i k s hi in
          let tj = step-Turn j k s hj in
          two_closers_panic i j is (step k s) (omega (arith, ti.size)) (omega (arith, tj.size)) ne
            (ti.stayed (==→ne k i e) ∙ pi) (tj.stayed (==→ne k j d) ∙ pj) (ground (arith, e, mi))
            (ground (arith, d, mj))
    ]
  ]
]
