-- ===== src/Frame/Text.antt =====
-- String of frame.go, the text of a frame as candump prints it, in bytes. The verbs `%0*X`, `%d`
-- and `%02X` of fmt are written out.
pub mod Reading
use canbus.Prelude.{
  ℕ, zero, suc, ◌+◌, ◌-◌, ◌/◌, ◌%◌, ◌<◌, Bool, true, false, Option, none, some, List, [], ◌∷◌, ◌++◌,
  length, take, ltb, ◌==◌, if◌then◌else◌,
}
use mathlib.Core.Option
use canbus.Prelude.Texts.{digits, hex}
use canbus.Frame.{Frame}
use canbus.Frame.Payload.{to_list}

-- The data bytes, with a space between them.
unfoldable pub spaced : List ℕ → List ℕ
unfolding hex
spaced [] = []
spaced (b ∷ bytes) = b' ' ∷ (hex 2 b ++ spaced bytes)

-- What follows the identifier and a space; `none` is the panic at the index `f.Data[i]` for a
-- length above 8.
unfoldable pub behind_id : Frame → Option (List ℕ)
unfolding digits spaced
behind_id f =
    let len_text = b'[' ∷ (digits 10 3 f.len ++ (b']' ∷ [])) in
    if f.rtr
    then some (len_text ++ (b' ' ∷ b'R' ∷ b'T' ∷ b'R' ∷ []))
    else if ltb 8 f.len
    then none
    else some (len_text ++ spaced (take f.len (to_list f.payload)))

-- `f.String()`
unfoldable pub string : Frame → Option (List ℕ)
unfolding hex behind_id
string f =
    let width = if f.extended then 8 else 3 in
    Option.map (λ rest. hex width f.id ++ (b' ' ∷ rest)) (behind_id f)
