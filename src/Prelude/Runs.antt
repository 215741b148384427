-- ===== src/Prelude/Runs.antt =====
-- Methods that read and change the world: the bus, the kernel, the device behind them.
use canbus.Prelude.Results.{Result, ok, err}

-- A method: the world afterwards, and its result.
abbrev pub Run : Type 0 → Type 0 → Type 0
Run W A = W → W × Result A

abbrev pub continue : {W A B : Type 0} → (A → Run W B) → W × Result A → W × Result B
continue f (w, ok a) = f a w
continue f (w, err e) = (w, err e)

infixl 5 ◌>>=◌ ◌>>◌
abbrev pub ◌>>=◌ : {W A B : Type 0} → Run W A → (A → Run W B) → Run W B
◌>>=◌ m f w = continue f (m w)

abbrev pub ◌>>◌ : {W B : Type 0} → Run W (Unit {0}) → Run W B → Run W B
m >> k = m >>= λ _. k

-- A step that does not touch the world.
abbrev pub lift : {W A : Type 0} → Result A → Run W A
lift r w = (w, r)
