-- ===== src/Loopback/Broadcast.antt =====
-- What a Send delivers, where nothing else runs in between.
use canbus.Prelude.{
  ℕ, zero, suc, ◌+◌, ◌<◌, ◌≡◌, refl, ◌∙◌, arith, Bool, true, false, not, ◌&&◌, Option, none, some,
  List, [], ◌∷◌, ◌++◌, length, ◌==◌, if◌then◌else◌,
}
use canbus.Frame.{Frame, validate}
use canbus.Loopback.{
  Endpoint, Bus, capacity, without, push, select_target, sent, Flight, starting, delivering,
  returned, advance, begin_send, snapshot,
}
use canbus.Loopback.Sound.{member, AllDistinct, IsSound, member-without, without-AllDistinct}

-- The rounds of one call of Send.
unfoldable pub rounds : ℕ → Bool → Flight → Bus → Option (Flight × Bus)
rounds zero pick t b = some (t, b)
rounds (suc n) pick t b = elim (advance pick t b) [ none ↦ none | some (u, c) ↦ rounds n pick u c ]

abbrev pub with_frame : Frame → Endpoint → Endpoint
with_frame f ep = record ep { queue = ep.queue ++ (f ∷ []) }

-- An endpoint that takes a frame at once.
pub record IsReady (ep : Endpoint) : Type 0 where
  pub quiet : ep.signalled ≡ false
  pub unsealed : ep.sealed ≡ false
  pub room : length ep.queue < capacity

-- The bus after a broadcast: only the endpoints for which `reached` holds have changed.
pub record IsBroadcast (reached : ℕ → Bool) (f : Frame) (b c : Bus) : Type 0 where
  pub is_closed_same : c.is_closed ≡ b.is_closed
  pub attached_same : c.attached ≡ b.attached
  pub opened_same : c.opened ≡ b.opened
  pub delivered : (j : ℕ) → c.ends j ≡ (if reached j then with_frame f (b.ends j) else b.ends j)

advance_sent :
    (pick : Bool) (f : Frame) (t : ℕ) (targets : List ℕ) (b : Bus)
    → IsReady (b.ends t)
    → advance pick (delivering f (t ∷ targets)) b ≡ some (delivering f targets, push f t b)
unfolding advance select_target
advance_sent pick f t targets b r =
    let e : select_target pick (b.ends t) ≡ sent = ground (arith, r.quiet, r.unsealed, r.room) in
    rw (e, advance)

advance_end :
    (pick : Bool) (f : Frame) (b : Bus) → advance pick (delivering f []) b ≡ some (returned none, b)
unfolding advance
advance_end pick f b = refl

deliver_all :
    (targets : List ℕ) (pick : Bool) (f : Frame) (b : Bus)
    → AllDistinct targets
    → ((j : ℕ) → member targets j ≡ true → IsReady (b.ends j))
    → (c : Bus) × (rounds (suc (length targets)) pick (delivering f targets) b
        ≡ some (returned none, c))
      × IsBroadcast (member targets) f b c
unfolding rounds push
deliver_all [] pick f b d r = (
  b,
  rw (advance_end pick f b, rounds),
  record { is_closed_same = refl; attached_same = refl; opened_same = refl; delivered = λ j. refl },
)
deliver_all (t ∷ targets) pick f b d r =
    let b1 = push f t b in
    let (c, e, h) = deliver_all targets pick f b1 d.1 (λ j m. ground (arith, r j, d.0)) in
    (
      c,
      rw (advance_sent pick f t targets b (r t (ground arith)), rounds) e,
      record {
        is_closed_same = h.is_closed_same;
        attached_same = h.attached_same;
        opened_same = h.opened_same;
        delivered = λ j. h.delivered j ∙ (ground (arith, d.0));
      },
    )

begin_starting :
    (b : Bus) (i : ℕ) (f : Frame)
    → validate f ≡ none
    → (b.ends i).dead ≡ false
    → begin_send i f b ≡ starting i f
unfolding begin_send
begin_starting b i f valid live = rw (valid, live, begin_send)

advance_start :
    (pick : Bool) (i : ℕ) (f : Frame) (b : Bus)
    → b.is_closed ≡ false
    → advance pick (starting i f) b ≡ some (delivering f (without i b.attached), b)
unfolding advance snapshot
advance_start pick i f b e = ground (arith, e)

two_more : (n : ℕ) → n + 2 ≡ suc (suc n)
two_more n = omega arith

-- A Send of a valid frame by an endpoint that is not dead on an open bus, with no other goroutine
-- in between and room in the channel of every other endpoint in the map, returns no error within as
-- many steps as there are targets, and two, and has put the frame once behind the others in the
-- channel of each of these endpoints; it has changed nothing else, the sender's channel included.
pub send_broadcasts :
    (b : Bus) (i : ℕ) (f : Frame) (pick : Bool)
    → IsSound b
    → b.is_closed ≡ false
    → validate f ≡ none
    → (b.ends i).dead ≡ false
    → ((j : ℕ) → member (without i b.attached) j ≡ true → length (b.ends j).queue < capacity)
    → (c : Bus) × (rounds (length (without i b.attached) + 2) pick (begin_send i f b) b
        ≡ some (returned none, c))
      × IsBroadcast (λ j. member b.attached j && not (j == i)) f b c
unfolding rounds
send_broadcasts b i f pick h open_bus valid live room =
    let targets = without i b.attached in
    let w = h.wired in
    let (c, e, done) =
      deliver_all targets pick f b (without-AllDistinct i b.attached w.distinct) (λ j m.
        let x = w.endpoints j in
        ground
          (arith, member-without i j b.attached, w.alive j, x.sealed_dead, x.told, room j m)) in
    (
      c,
      rw (begin_starting b i f valid live)
          (rw (two_more (length targets)) (rw (advance_start pick i f b open_bus, rounds) e)),
      record {
        is_closed_same = done.is_closed_same;
        attached_same = done.attached_same;
        opened_same = done.opened_same;
        delivered = λ j. done.delivered j ∙ (ground (arith, member-without i j b.attached));
      },
    )
