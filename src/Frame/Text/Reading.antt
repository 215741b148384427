-- ===== src/Frame/Text/Reading.antt =====
-- The frame that can be read back from its text.
use canbus.Prelude.{ℕ, ◌≡◌, Bool, true, false, List, [], ◌∷◌, if◌then◌else◌, ◌==◌}
use canbus.Frame.{Frame}
use canbus.Prelude.Texts.{codes}
use canbus.Prelude.Texts.Reading.{read_from}

abbrev pub width_of : Bool → ℕ
width_of extended = if extended then 8 else 3

-- A reader of bytes in two digits, each behind a space.
unfoldable pub read_bytes : List ℕ → List ℕ
read_bytes (space ∷ high ∷ low ∷ rest) =
    let more = read_bytes rest in
    if space == b' ' then read_from 16 0 (high ∷ low ∷ []) ∷ more else []
read_bytes (space ∷ high ∷ []) = []
read_bytes (space ∷ []) = []
read_bytes [] = []

-- What the text of a frame has behind the length: its bytes, or the word for a remote frame.
abbrev pub Ends : Bool → List ℕ → List ℕ → Type 0
Ends true bytes text = text ≡ codes " RTR"
Ends false bytes text = read_bytes text ≡ bytes
