-- ===== src/Loopback/Closing.antt =====
-- Close of an endpoint and of the bus, against the invariant.
use canbus.Prelude.{
  ℕ, ◌≡◌, refl, ap, ◌∙◌, arith, true, false, ◌||◌, Option, none, some, List, [], ◌∷◌, if◌then◌else◌,
  Bool-cases, inl, inr,
}
use mathlib.Core.Option
use canbus.Loopback.{Endpoint, Bus, update, without, close_no_lock, close_each, close_bus}
use canbus.Loopback.Sound.{
  member, AllDistinct, IsWired, IsSound, member-without, without-AllDistinct, update-IsEndpoint,
}

-- What a step that does not panic must establish.
abbrev pub IfSome : {A : Type 0} → (A → Type 0) → Option A → Type 0
IfSome P none = Unit {0}
IfSome P (some a) = P a

pub IfSome-map :
    {A B : Type 0} (P : A → Type 0) (Q : B → Type 0) (g : A → B) (o : Option A)
    → ((a : A) → P a → Q (g a))
    → IfSome P o
    → IfSome Q (Option.map g o)
IfSome-map P Q g none k h = tt
IfSome-map P Q g (some a) k h = k a h

pub IfSome-weaken :
    {A : Type 0} {P Q : A → Type 0} (o : Option A) → ((a : A) → P a → Q a) → IfSome P o → IfSome Q o
IfSome-weaken none k h = tt
IfSome-weaken (some a) k h = k a h

pub IfSome-any : {A : Type 0} (o : Option A) → IfSome (λ a. Unit {0}) o
IfSome-any none = tt
IfSome-any (some a) = tt

abbrev pub shut_end : Endpoint → Endpoint
shut_end ep = record ep { dead = true; signalled = true; sealed = true }

abbrev shut_at : ℕ → Bus → Bus
shut_at i b = record b {
  attached = without i b.attached;
  ends = update b.ends i (shut_end (b.ends i));
}

shut_at-IsWired : (b : Bus) (i : ℕ) → IsWired b → IsWired (shut_at i b)
shut_at-IsWired b i w = record {
  endpoints =
      update-IsEndpoint b.ends i (shut_end (b.ends i)) w.endpoints
        (record { fits = (w.endpoints i).fits; sealed_dead = refl; told = λ q. refl });
  alive = λ j m. ground (arith, member-without i j b.attached, w.alive j);
  known = λ j m. ground (arith, member-without i j b.attached, w.known j);
  distinct = without-AllDistinct i b.attached w.distinct;
}

pub close_no_lock-IsSound : (b : Bus) (i : ℕ) → IsSound b → IfSome IsSound (close_no_lock i b)
unfolding close_no_lock
close_no_lock-IsSound b i h = elim (Bool-cases (b.ends i).dead) [
  | inl e ↦ rw (e, close_no_lock) h
  | inr e ↦ elim (Bool-cases ((b.ends i).signalled || (b.ends i).sealed)) [
    | inl p ↦ rw (e, p, close_no_lock) tt
    | inr p ↦
        rw (e, p, close_no_lock)
          (record {
            wired = shut_at-IsWired b i h.wired;
            detached = λ q. ap (without i) (h.detached q);
          })
  ]
]

-- What is in the map is closed without a panic.
close_attached :
    (b : Bus) (i : ℕ)
    → IsWired b
    → member b.attached i ≡ true
    → close_no_lock i b ≡ some (shut_at i b)
unfolding close_no_lock
close_attached b i w m = let e = w.endpoints i in ground (arith, w.alive i m, e.sealed_dead, e.told)

-- The loop of Close, over endpoints that are all in the map.
pub close_each_lem :
    (ids : List ℕ) (b : Bus)
    → IsWired b
    → AllDistinct ids
    → ((j : ℕ) → member ids j ≡ true → member b.attached j ≡ true)
    → (c : Bus) × (close_each ids b ≡ some c)
      × IsWired c
      × (c.is_closed ≡ b.is_closed)
      × ((j : ℕ) → c.ends j ≡ (if member ids j then shut_end (b.ends j) else b.ends j))
unfolding close_each
close_each_lem [] b w d m = (b, refl, w, refl, λ j. refl)
close_each_lem (i ∷ ids) b w d m =
    let rest =
      close_each_lem ids (shut_at i b) (shut_at-IsWired b i w) d.1
        (λ j p. ground (arith, member-without i j b.attached, m j, d.0)) in
    let (c, e, wired, same, ends) = rest in
    (
      c,
      rw (close_attached b i w (m i (ground arith)), close_each) e,
      wired,
      same,
      λ j. ends j ∙ (ground (arith, d.0)),
    )

-- Closing the bus closes what is in the map, and nothing else; it does not panic.
pub close_bus_lem :
    (b : Bus)
    → IsSound b
    → b.is_closed ≡ false
    → (c : Bus) × (close_bus b ≡ some c)
      × IsSound c
      × (c.is_closed ≡ true)
      × (c.attached ≡ [])
      × ((j : ℕ) → c.ends j ≡ (if member b.attached j then shut_end (b.ends j) else b.ends j))
unfolding close_bus
close_bus_lem b h open_bus =
    let w = h.wired in
    let closing : Bus = record b { is_closed = true } in
    let wired : IsWired closing = record {
      endpoints = w.endpoints;
      alive = w.alive;
      known = w.known;
      distinct = w.distinct;
    } in
    let (c, e, done, same, ends) = close_each_lem b.attached closing wired w.distinct (λ j p. p) in
    let d : Bus = record c { attached = [] } in
    let sound : IsSound d = record {
      wired = record {
        endpoints = done.endpoints;
        alive = λ j m. ground arith;
        known = λ j m. ground arith;
        distinct = tt;
      };
      detached = λ q. refl;
    } in
    (d, rw (open_bus, e, close_bus), sound, same, refl, ends)

-- A second Close does nothing.
pub close_bus_again : (b : Bus) → b.is_closed ≡ true → close_bus b ≡ some b
unfolding close_bus
close_bus_again b p = ground (arith, p)

pub close_bus-IsSound : (b : Bus) → IsSound b → IfSome IsSound (close_bus b)
close_bus-IsSound b h = elim (Bool-cases b.is_closed) [
  | inl p ↦ rw (close_bus_again b p) h
  | inr p ↦ let (c, e, sound, shut, empty, ends) = close_bus_lem b h p in rw e sound
]
