-- ===== src/Loopback/Sound.antt =====
-- The invariant of a loopback bus.
use canbus.Prelude.{
  ℕ, ◌≤◌, ◌<◌, ◌≡◌, refl, arith, Bool, true, false, not, ◌&&◌, ◌||◌, List, [], ◌∷◌, ◌++◌, length,
  length-append, ◌==◌, Bool-cases, inl, inr,
}
use mathlib.Core.Path.{subst}
use canbus.Frame.{Frame}
use canbus.Loopback.{
  Endpoint, Bus, capacity, new_endpoint, update, without, open_endpoint, receive, push, System,
  after_receive,
}

abbrev pub member : List ℕ → ℕ → Bool
member [] i = false
member (j ∷ ids) i = j == i || member ids i

abbrev pub AllDistinct : List ℕ → Type 0
AllDistinct [] = Unit {0}
AllDistinct (i ∷ ids) = (member ids i ≡ false) × AllDistinct ids

-- The flags of an endpoint: its frames fit, its channel is closed exactly when it is dead, and then
-- those that wait on `closed` were told.
pub record IsEndpoint (ep : Endpoint) : Type 0 where
  pub fits : length ep.queue ≤ capacity
  pub sealed_dead : ep.sealed ≡ ep.dead
  pub told : ep.dead ≡ true → ep.signalled ≡ true

pub record IsWired (b : Bus) : Type 0 where
  pub endpoints : (i : ℕ) → IsEndpoint (b.ends i)
  -- What is in the map is open.
  pub alive : (i : ℕ) → member b.attached i ≡ true → (b.ends i).signalled ≡ false
  pub known : (i : ℕ) → member b.attached i ≡ true → i < b.opened
  pub distinct : AllDistinct b.attached

-- Within Close the map still holds what is not closed yet; else it is empty on a closed bus.
pub record IsSound (b : Bus) : Type 0 where
  pub wired : IsWired b
  pub detached : b.is_closed ≡ true → b.attached ≡ []

pub member-without :
    (i j : ℕ) (ids : List ℕ) → member (without i ids) j ≡ (member ids j && not (j == i))
member-without i j [] = refl
member-without i j (k ∷ ids) = ground (arith, member-without i j ids)

pub without-AllDistinct : (i : ℕ) (ids : List ℕ) → AllDistinct ids → AllDistinct (without i ids)
without-AllDistinct i [] h = tt
without-AllDistinct i (k ∷ ids) h = elim (Bool-cases (k == i)) [
  | inl e ↦ rw e (without-AllDistinct i ids h.1)
  | inr e ↦ rw e (rw (member-without i k ids, h.0) refl, without-AllDistinct i ids h.1)
]

pub update-IsEndpoint :
    (ends : ℕ → Endpoint) (i : ℕ) (ep : Endpoint)
    → ((j : ℕ) → IsEndpoint (ends j))
    → IsEndpoint ep
    → (j : ℕ) → IsEndpoint (update ends i ep j)
update-IsEndpoint ends i ep h e j = elim (Bool-cases (j == i)) [
  | inl p ↦ rw p e
  | inr p ↦ rw p (h j)
]

pub open_endpoint-IsSound : (b : Bus) → IsSound b → IsSound (open_endpoint b)
unfolding open_endpoint
open_endpoint-IsSound b h =
    let w = h.wired in
    elim (Bool-cases b.is_closed) [
      | inl p ↦
          let empty = h.detached p in
          rw (p, open_endpoint)
            (record {
              wired = record {
                endpoints =
                    update-IsEndpoint b.ends b.opened (record new_endpoint { signalled = true })
                      w.endpoints (ground arith);
                alive = λ j m. ground (arith, empty);
                known = λ j m. ground (arith, empty);
                distinct = w.distinct;
              };
              detached = λ q. empty;
            })
      | inr p ↦
          rw (p, open_endpoint)
            (record {
              wired = record {
                endpoints =
                    update-IsEndpoint b.ends b.opened new_endpoint w.endpoints (ground arith);
                alive = λ j m. ground (arith, w.alive j);
                known = λ j m. ground (arith, w.known j);
                distinct = (ground (arith, w.known b.opened), w.distinct);
              };
              detached = λ q. ground arith;
            })
    ]

-- An endpoint may change in any way that keeps it open.
update-IsSound :
    (b : Bus) (i : ℕ) (ep : Endpoint)
    → IsSound b
    → IsEndpoint ep
    → ep.signalled ≡ (b.ends i).signalled
    → IsSound (record b { ends = update b.ends i ep })
update-IsSound b i ep h e same =
    let w = h.wired in
    record {
      wired = record {
        endpoints = update-IsEndpoint b.ends i ep w.endpoints e;
        alive = λ j m. ground (arith, w.alive j);
        known = w.known;
        distinct = w.distinct;
      };
      detached = h.detached;
    }

pub receive-IsSound :
    (s : System) (i : ℕ) (queue : List Frame)
    → (s.bus.ends i).queue ≡ queue
    → IsSound s.bus
    → IsSound (after_receive s (receive i s.bus)).bus
unfolding receive
receive-IsSound s i (f ∷ rest) q h =
    let ep = s.bus.ends i in
    let e = h.wired.endpoints i in
    let l : length (f ∷ rest) ≤ capacity =
      subst (λ (z : List Frame). length z ≤ capacity) q e.fits in
    rw (q, receive)
      (update-IsSound s.bus i (record ep { queue = rest }) h
        (record { fits = omega arith; sealed_dead = e.sealed_dead; told = e.told }) refl)
receive-IsSound s i [] q h = elim (Bool-cases (s.bus.ends i).sealed) [
  | inl e ↦ rw (q, e, receive) h
  | inr e ↦ rw (q, e, receive) h
]

pub push-IsSound :
    (b : Bus) (f : Frame) (i : ℕ)
    → IsSound b
    → length (b.ends i).queue < capacity
    → IsSound (push f i b)
unfolding push
push-IsSound b f i h room =
    let ep = b.ends i in
    let e = h.wired.endpoints i in
    update-IsSound b i (record ep { queue = ep.queue ++ (f ∷ []) }) h
      (record {
        fits = omega (arith, length-append ep.queue (f ∷ []));
        sealed_dead = e.sealed_dead;
        told = e.told;
      })
      refl
