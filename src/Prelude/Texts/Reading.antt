-- ===== src/Prelude/Texts/Reading.antt =====
-- Numbers read back from their digits.
use Prim.Native.Nat.{ℕ, zero, suc, ◌+◌, ◌-◌, ◌*◌, ◌/◌, ◌%◌, ◌^◌, ◌≤◌, ◌<◌}
use native.Mathlib.Nat.{pow-suc, pow-zero, mul_comm, div-lt_iff_lt-mul, div-add-mod', mod-lt}
use native.Mathlib.Omega.{arith}
use mathlib.Core.Path.{◌≡◌, refl, ap, ◌∙◌}
use mathlib.Core.Logic.{inl, inr}
use mathlib.Core.Bool.{true, false}
use mathlib.Core.List.{List, [], ◌∷◌, ◌++◌}
use canbus.Prelude.Lists.{length, length-append, All}
use canbus.Prelude.Tests.{ltb, ◌==◌, if◌then◌else◌, Bool-cases}
use canbus.Prelude.Texts.{digit, digits, replicate, hex}

abbrev pub digit_value : ℕ → ℕ
digit_value c = if ltb c 65 then c - 48 else c - 55

-- A reader of digits.
unfoldable pub read_from : ℕ → ℕ → List ℕ → ℕ
read_from base n [] = n
read_from base n (c ∷ cs) = read_from base (n * base + digit_value c) cs

-- The text before the first space.
unfoldable pub first_word : List ℕ → List ℕ
first_word [] = []
first_word (c ∷ cs) = let rest = first_word cs in if c == b' ' then [] else c ∷ rest

read_from-append :
    (base n : ℕ) (cs : List ℕ) (c : ℕ)
    → read_from base n (cs ++ (c ∷ [])) ≡ read_from base n cs * base + digit_value c
unfolding read_from
read_from-append base n [] c = refl
read_from-append base n (a ∷ cs) c = read_from-append base (n * base + digit_value a) cs c

pub digit_value-digit : (d : ℕ) → d < 16 → digit_value (digit d) ≡ d
digit_value-digit d h = ground arith

pow_one : (base : ℕ) → base ^ 1 ≡ base
pow_one base = omega (arith, pow-suc base 0, ap (λ (n : ℕ). n * base) (pow-zero base))

pow_step : (base fuel n : ℕ) → 0 < base → n < base ^ suc fuel → n / base < base ^ fuel
pow_step base fuel n pos h =
    (div-lt_iff_lt-mul pos).1 (omega (arith, h, pow-suc base fuel, mul_comm base (base ^ fuel)))

pub read_from-digits :
    (base fuel n : ℕ)
    → 0 < base
    → base ≤ 16
    → n < base ^ suc fuel
    → read_from base 0 (digits base (suc fuel) n) ≡ n
unfolding digits read_from
read_from-digits base zero n pos small h =
    let lt : n < base = omega (arith, pow_one base) in
    let e : ltb n base ≡ true = ground arith in
    rw (e, digits) (omega (arith, digit_value-digit n (omega arith)))
read_from-digits base (suc fuel) n pos small h = elim (Bool-cases (ltb n base)) [
  | inl e ↦ rw (e, digits) (omega (arith, digit_value-digit n (ground arith)))
  | inr e ↦
      rw (e, digits)
        (read_from-append base 0 (digits base (suc fuel) (n / base)) (digit (n % base))
          ∙ cc (
            read_from-digits base fuel (n / base) pos small (pow_step base (suc fuel) n pos h),
            digit_value-digit (n % base) (omega (arith, mod-lt n pos)),
            div-add-mod' n base,
          ))
]

read_from-replicate :
    (base k : ℕ) (cs : List ℕ) → read_from base 0 (replicate k b'0' ++ cs) ≡ read_from base 0 cs
unfolding replicate read_from
read_from-replicate base zero cs = refl
read_from-replicate base (suc k) cs =
    ap (λ (m : ℕ). read_from base m (replicate k b'0' ++ cs)) (omega arith)
    ∙ read_from-replicate base k cs

length-replicate : (k c : ℕ) → length (replicate k c) ≡ k
unfolding replicate
length-replicate zero c = refl
length-replicate (suc k) c = omega (arith, length-replicate k c)

length-digits : (fuel w n : ℕ) → n < 16 ^ suc w → length (digits 16 fuel n) ≤ suc w
unfolding digits
length-digits zero w n h = omega arith
length-digits (suc fuel) zero n h = ground arith
length-digits (suc fuel) (suc w) n h = ground (
  arith,
  length-digits fuel w (n / 16) (pow_step 16 (suc w) n (omega arith) h),
  length-append (digits 16 fuel (n / 16)) (digit (n % 16) ∷ []),
)

-- No digit is a space.
abbrev pub IsInk : ℕ → Type 0
IsInk c = (c == b' ') ≡ false

All-append : (xs ys : List ℕ) → All IsInk xs → All IsInk ys → All IsInk (xs ++ ys)
All-append [] ys h k = k
All-append (x ∷ xs) ys h k = (h.0, All-append xs ys h.1 k)

digit-IsInk : (d : ℕ) → d < 16 → IsInk (digit d)
digit-IsInk d h = ground arith

digits-IsInk : (fuel n : ℕ) → All IsInk (digits 16 fuel n)
unfolding digits
digits-IsInk zero n = tt
digits-IsInk (suc fuel) n = elim (Bool-cases (ltb n 16)) [
  | inl e ↦ rw (e, digits) (digit-IsInk n (ground arith), tt)
  | inr e ↦
      rw (e, digits)
        (All-append (digits 16 fuel (n / 16)) (digit (n % 16) ∷ []) (digits-IsInk fuel (n / 16))
          (digit-IsInk (n % 16) (omega arith), tt))
]

replicate-IsInk : (k : ℕ) → All IsInk (replicate k b'0')
unfolding replicate
replicate-IsInk zero = tt
replicate-IsInk (suc k) = (refl, replicate-IsInk k)

pub first_word-append :
    (word rest : List ℕ) → All IsInk word → first_word (word ++ (b' ' ∷ rest)) ≡ word
unfolding first_word
first_word-append [] rest h = refl
first_word-append (c ∷ word) rest (e, h) =
    rw (e, first_word) (ap (λ (w : List ℕ). c ∷ w) (first_word-append word rest h))

-- A number of at most `suc w` digits is padded to that width, and read back.
pub hex_reads :
    (w n : ℕ)
    → n < 16 ^ suc w
    → n < 16 ^ 8
    → (read_from 16 0 (hex (suc w) n) ≡ n)
      × (length (hex (suc w) n) ≡ suc w)
      × All IsInk (hex (suc w) n)
unfolding hex
hex_reads w n h small =
    let text = digits 16 8 n in
    let pad = suc w - length text in
    (
      read_from-replicate 16 pad text ∙ read_from-digits 16 7 n (omega arith) (omega arith) small,
      omega (
        arith,
        length-append (replicate pad b'0') text,
        length-replicate pad b'0',
        length-digits 8 w n h,
      ),
      All-append (replicate pad b'0') text (replicate-IsInk pad) (digits-IsInk 8 n),
    )
