-- ===== src/Tests/Frames.antt =====
-- Runs of frame.go.
use canbus.Prelude.{ℕ, ◌≡◌, refl, true, none, some, List, [], ◌∷◌, length, ok, invalid_len}
use canbus.Frame.{Frame, zero_frame, validate, marshal_binary, unmarshal_binary}
use canbus.Frame.Payload.{Bytes8, zeros}
use canbus.Frame.Text.{string}
use canbus.Frame.RoundTrip.{unmarshal-marshal}

-- An extended remote frame.
abbrev remote : Frame
remote = record zero_frame { id = 0x1ABCDEFF; extended = true; rtr = true; len = 2 }

remote_bytes :
    marshal_binary remote
    ≡ ok (0xFF ∷ 0xDE ∷ 0xBC ∷ 0xDA ∷ 2 ∷ 0 ∷ 0 ∷ 0 ∷ 0 ∷ 0 ∷ 0 ∷ 0 ∷ 0 ∷ 0 ∷ 0 ∷ 0 ∷ [])
unfolding marshal_binary validate
remote_bytes = refl

too_long : validate (record zero_frame { len = 9; id = 0x800 }) ≡ some invalid_len
unfolding validate
too_long = refl

unmarshal-marshal_example :
    (bytes : List ℕ) × (marshal_binary remote ≡ ok bytes)
    × (length bytes ≡ 16)
    × (unmarshal_binary zero_frame bytes ≡ (remote, none))
unfolding validate
unmarshal-marshal_example = unmarshal-marshal remote zero_frame refl

abbrev eight : Bytes8
eight = record { b0 = 1; b1 = 2; b2 = 3; b3 = 4; b4 = 5; b5 = 6; b6 = 7; b7 = 8 }

abbrev two_bytes : Frame
two_bytes = record zero_frame { id = 0x123; len = 2; payload = record zeros { b0 = 7; b1 = 9 } }

remote_text :
    string remote
    ≡ some (
        b'1' ∷ b'A' ∷ b'B' ∷ b'C' ∷ b'D' ∷ b'E' ∷ b'F' ∷ b'F' ∷ b' ' ∷ b'[' ∷ b'2' ∷ b']' ∷ b' '
        ∷ b'R' ∷ b'T' ∷ b'R' ∷ [])
unfolding string
remote_text = refl

-- 705 [2] 05 A0
abbrev beat : Frame
beat = record zero_frame { id = 0x705; len = 2; payload = record zeros { b0 = 5; b1 = 0xA0 } }
