-- ===== src/Network/Hop.antt =====
-- A frame from one of two endpoints of a loopback bus to the other.
use canbus.Prelude.{
  ℕ, zero, suc, ◌+◌, ◌<◌, ◌≡◌, refl, ◌∙◌, arith, Bool, true, false, not, ◌&&◌, ◌||◌, Option, none,
  some, [], ◌∷◌, length, ◌==◌, ok, Result,
}
use mathlib.Core.Path.{subst}
use canbus.Frame.{Frame, validate}
use canbus.Loopback.{
  Bus, capacity, without, update, receive, Flight, returned, advance, begin_send, new_system,
  after_receive,
}
use canbus.Loopback.Sound.{member, IsSound, member-without, receive-IsSound}
use canbus.Loopback.Closing.{IfSome}
use canbus.Loopback.Steps.{BusOf, advance-IsSound}
use canbus.Loopback.Broadcast.{rounds, IsBroadcast, with_frame, send_broadcasts}
use canbus.Network.{send_now}

-- Two endpoints of an open bus, alone on it, with nothing in their channels.
pub record IsPair (i j : ℕ) (b : Bus) : Type 0 where
  pub sound : IsSound b
  pub is_open : b.is_closed ≡ false
  pub apart : (i == j) ≡ false
  pub first_in : member b.attached i ≡ true
  pub second_in : member b.attached j ≡ true
  pub alone : (k : ℕ) → member b.attached k ≡ true → (k == i || k == j) ≡ true
  pub first_empty : (b.ends i).queue ≡ []
  pub second_empty : (b.ends j).queue ≡ []

pub swapped : (i j : ℕ) (b : Bus) → IsPair i j b → IsPair j i b
swapped i j b p = record {
  sound = p.sound;
  is_open = p.is_open;
  apart = ground (arith, p.apart);
  first_in = p.second_in;
  second_in = p.first_in;
  alone = λ k m. ground (arith, p.alone k m);
  first_empty = p.second_empty;
  second_empty = p.first_empty;
}

rounds-IsSound :
    (n : ℕ) (pick : Bool) (t : Flight) (b : Bus) → IsSound b → IfSome BusOf (rounds n pick t b)
unfolding rounds
rounds-IsSound zero pick t b h = h
rounds-IsSound (suc n) pick t b h =
    by_advance (λ u c. rounds-IsSound n pick u c) (advance pick t b) refl
  where
    by_advance :
        ((u : Flight) (c : Bus) → IsSound c → IfSome BusOf (rounds n pick u c))
        → (o : Option (Flight × Bus)) → advance pick t b ≡ o
        → IfSome BusOf (rounds (suc n) pick t b)
    by_advance more none e = rw (e, rounds) tt
    by_advance more (some (u, c)) e =
        rw (e, rounds) (more u c (subst (IfSome BusOf) e (advance-IsSound pick t b h)))

alive : (i j : ℕ) (b : Bus) → IsPair i j b → (b.ends i).dead ≡ false
alive i j b p =
    let e = p.sound.wired.endpoints i in ground (arith, p.sound.wired.alive i p.first_in, e.told)

-- The second takes the frame out of its channel, and the two are as they were before the Send.
taken :
    (i j : ℕ) (f : Frame) (b c : Bus)
    → IsPair i j b
    → IsSound c
    → IsBroadcast (λ k. member b.attached k && not (k == i)) f b c
    → (d : Bus) × (receive j c ≡ some (ok f, d)) × IsPair i j d
unfolding receive
taken i j f b c p sound done =
    let s = record new_system { bus = c } in
    let here : c.ends j ≡ with_frame f (b.ends j) =
      done.delivered j ∙ (ground (arith, p.apart, p.second_in)) in
    let queue : (c.ends j).queue ≡ f ∷ [] = rw (here, p.second_empty) refl in
    let there : c.ends i ≡ b.ends i = done.delivered i ∙ (ground arith) in
    let d : Bus = record c { ends = update c.ends j (record (c.ends j) { queue = [] }) } in
    let got : receive j c ≡ some (ok f, d) = rw (queue, receive) refl in
    (
      d,
      got,
      record {
        sound =
            subst (λ (o : Option (Result Frame × Bus)). IsSound (after_receive s o).bus) got
              (receive-IsSound s j (f ∷ []) queue sound);
        is_open = done.is_closed_same ∙ p.is_open;
        apart = p.apart;
        first_in = rw done.attached_same p.first_in;
        second_in = rw done.attached_same p.second_in;
        alone = rw done.attached_same p.alone;
        first_empty = rw (p.apart, there) p.first_empty;
        second_empty = ground arith;
      },
    )

-- An undisturbed Send by the first, and a Receive by the second, which gets the frame.
pub hop :
    (i j : ℕ) (f : Frame) (b : Bus)
    → IsPair i j b
    → validate f ≡ none
    → (c : Bus) × (d : Bus) × (send_now i f b ≡ (c, none))
      × (receive j c ≡ some (ok f, d))
      × IsPair i j d
unfolding send_now
hop i j f b p valid =
    let room : (k : ℕ)
        → member (without i b.attached) k ≡ true
        → length (b.ends k).queue < capacity =
      λ k m.
        let other : k ≡ j = ground (arith, member-without i k b.attached, p.alone k) in
        rw (other, p.second_empty) (omega arith) in
    let (c, e, done) = send_broadcasts b i f false p.sound p.is_open valid (alive i j b p) room in
    let n = length (without i b.attached) + 2 in
    let sound : IsSound c =
      subst (IfSome BusOf) {y = some (returned none, c)} e
        (rounds-IsSound n false (begin_send i f b) b p.sound) in
    let (d, got, after) = taken i j f b c p sound done in (c, d, rw e refl, got, after)
