-- ===== src/Prelude/Texts.antt =====
-- Texts as lists of bytes, and the verbs `%d`, `%0*X` and `%02X` of fmt.
pub mod Reading
use Prim.Native.Char.{code}
use Prim.Native.String.{String}
use Prim.Native.Nat.{ℕ, zero, suc, ◌+◌, ◌-◌, ◌/◌, ◌%◌}
use mathlib.Core.Bool.{Bool, true, false}
use mathlib.Core.List.{List, [], ◌∷◌, ◌++◌}
use canbus.Prelude.Lists.{length}
use canbus.Prelude.Tests.{ltb, if◌then◌else◌}

-- The bytes of a literal in ASCII.
abbrev pub codes : String → List ℕ
codes String.[] = []
codes (String.◌∷◌ c text) = code c ∷ codes text

-- A digit, in upper case.
abbrev pub digit : ℕ → ℕ
digit d = if ltb d 10 then d + 48 else d + 55

-- The digits of a number, the highest first, with no leading zero; `fuel` bounds their number.
unfoldable pub digits : ℕ → ℕ → ℕ → List ℕ
digits base zero n = []
digits base (suc fuel) n =
    let higher = digits base fuel (n / base) in
    if ltb n base then digit n ∷ [] else higher ++ (digit (n % base) ∷ [])

unfoldable pub replicate : ℕ → ℕ → List ℕ
replicate zero c = []
replicate (suc n) c = c ∷ replicate n c

-- `%0*X` of a uint32, which has at most 8 digits.
unfoldable pub hex : ℕ → ℕ → List ℕ
unfolding digits replicate
hex width n = let text = digits 16 8 n in replicate (width - length text) b'0' ++ text

-- `%d` of a number below 10^20.
unfoldable pub decimal : ℕ → List ℕ
unfolding digits
decimal n = digits 10 20 n
