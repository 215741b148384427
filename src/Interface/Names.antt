-- ===== src/Interface/Names.antt =====
-- The name of an interface in a request to the kernel.
use canbus.Prelude.{
  ℕ, zero, suc, ◌<◌, ◌≡◌, refl, ap, arith, List, [], ◌∷◌, length, ◌==◌, if◌then◌else◌, Bool-cases,
  inl, inr,
}
use canbus.Interface.{copy_name}

-- The name that the kernel reads from the field: up to the first zero.
abbrev pub c_string : List ℕ → List ℕ
c_string [] = []
c_string (c ∷ cs) = let rest = c_string cs in if c == 0 then [] else c ∷ rest

-- A name that leaves room for the zero at the end is read from the field as it is read from the
-- argument.
pub c_string-copy_name :
    (size : ℕ) (name : List ℕ) → length name < size → c_string (copy_name size name) ≡ c_string name
c_string-copy_name zero name h = absurd (omega arith)
c_string-copy_name (suc size) [] h = refl
c_string-copy_name (suc size) (c ∷ name) h = elim (Bool-cases (c == 0)) [
  | inl e ↦ rw (e, c_string) refl
  | inr e ↦ rw (e, c_string) (ap (◌∷◌ c) (c_string-copy_name size name (omega arith)))
]
