-- ===== src/Frame/Payload.antt =====
-- The `[8]byte` of a frame, and Go's `copy` into it.
use canbus.Prelude.{
  ℕ, zero, suc, ◌-◌, ◌≡◌, refl, arith, List, [], ◌∷◌, leb, if◌then◌else◌, get_or, All, IsU8,
  Bool-cases, inl, inr,
}

pub record Bytes8 : Type 0 where
  pub b0 : ℕ
  pub b1 : ℕ
  pub b2 : ℕ
  pub b3 : ℕ
  pub b4 : ℕ
  pub b5 : ℕ
  pub b6 : ℕ
  pub b7 : ℕ

pub record IsBytes8 (d : Bytes8) : Type 0 where
  pub b0_fits : IsU8 d.b0
  pub b1_fits : IsU8 d.b1
  pub b2_fits : IsU8 d.b2
  pub b3_fits : IsU8 d.b3
  pub b4_fits : IsU8 d.b4
  pub b5_fits : IsU8 d.b5
  pub b6_fits : IsU8 d.b6
  pub b7_fits : IsU8 d.b7

abbrev pub zeros : Bytes8
zeros = record { b0 = 0; b1 = 0; b2 = 0; b3 = 0; b4 = 0; b5 = 0; b6 = 0; b7 = 0 }

abbrev pub to_list : Bytes8 → List ℕ
to_list d = d.b0 ∷ d.b1 ∷ d.b2 ∷ d.b3 ∷ d.b4 ∷ d.b5 ∷ d.b6 ∷ d.b7 ∷ []

-- Byte `i` after `copy(d[off:], bytes)`, where it was `old`.
abbrev pub pick : ℕ → List ℕ → ℕ → ℕ → ℕ
pick off bytes i old = if leb off i then get_or bytes (i - off) old else old

-- `copy(d[off:], bytes)`: bytes past the end of `d` are dropped.
abbrev pub copy_at : ℕ → List ℕ → Bytes8 → Bytes8
copy_at off bytes d = record {
  b0 = pick off bytes 0 d.b0;
  b1 = pick off bytes 1 d.b1;
  b2 = pick off bytes 2 d.b2;
  b3 = pick off bytes 3 d.b3;
  b4 = pick off bytes 4 d.b4;
  b5 = pick off bytes 5 d.b5;
  b6 = pick off bytes 6 d.b6;
  b7 = pick off bytes 7 d.b7;
}

pub copy_at-to_list : (d e : Bytes8) → copy_at 0 (to_list d) e ≡ d
copy_at-to_list d e = refl

pub get_or-IsU8 :
    (bytes : List ℕ) (i old : ℕ) → All IsU8 bytes → IsU8 old → IsU8 (get_or bytes i old)
get_or-IsU8 [] i old h o = o
get_or-IsU8 (x ∷ xs) zero old h o = h.0
get_or-IsU8 (x ∷ xs) (suc i) old h o = get_or-IsU8 xs i old h.1 o

pick-IsU8 :
    (off : ℕ) (bytes : List ℕ) (i old : ℕ) → All IsU8 bytes → IsU8 old → IsU8 (pick off bytes i old)
pick-IsU8 off bytes i old h o = elim (Bool-cases (leb off i)) [
  | inl e ↦ rw e (get_or-IsU8 bytes (i - off) old h o)
  | inr e ↦ rw e o
]

pub copy_at-IsBytes8 :
    (off : ℕ) (bytes : List ℕ) (d : Bytes8)
    → All IsU8 bytes
    → IsBytes8 d
    → IsBytes8 (copy_at off bytes d)
copy_at-IsBytes8 off bytes d h fits = record {
  b0_fits = pick-IsU8 off bytes 0 d.b0 h fits.b0_fits;
  b1_fits = pick-IsU8 off bytes 1 d.b1 h fits.b1_fits;
  b2_fits = pick-IsU8 off bytes 2 d.b2 h fits.b2_fits;
  b3_fits = pick-IsU8 off bytes 3 d.b3 h fits.b3_fits;
  b4_fits = pick-IsU8 off bytes 4 d.b4 h fits.b4_fits;
  b5_fits = pick-IsU8 off bytes 5 d.b5 h fits.b5_fits;
  b6_fits = pick-IsU8 off bytes 6 d.b6 h fits.b6_fits;
  b7_fits = pick-IsU8 off bytes 7 d.b7 h fits.b7_fits;
}

-- A payload whose last four bytes are zero.
pub front-IsBytes8 :
    (b0 b1 b2 b3 : ℕ)
    → IsU8 b0
    → IsU8 b1
    → IsU8 b2
    → IsU8 b3
    → IsBytes8 (record zeros { b0 = b0; b1 = b1; b2 = b2; b3 = b3 })
front-IsBytes8 b0 b1 b2 b3 h0 h1 h2 h3 = record {
  b0_fits = h0;
  b1_fits = h1;
  b2_fits = h2;
  b3_fits = h3;
  b4_fits = omega arith;
  b5_fits = omega arith;
  b6_fits = omega arith;
  b7_fits = omega arith;
}
