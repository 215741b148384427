-- ===== src/Sdo/Segmented/RoundTrip.antt =====
-- Segments, encoded and parsed. Download and upload segments have one layout.
use canbus.Prelude.{
  ℕ, ◌+◌, ◌-◌, ◌*◌, ◌/◌, ◌%◌, ◌≤◌, ◌≡◌, refl, arith, Bool, true, false, List, [], ◌∷◌, length, take,
  drop, if◌then◌else◌, IsU8, ok, ap, ◌∙◌,
}
use canbus.Prelude.Bits.{and_mask, or_low, or_split}
use canbus.Frame.{Frame}
use canbus.Frame.Payload.{Bytes8, zeros, to_list, copy_at}
use canbus.Cob.{cob_id, fc_sdo_rx}
use canbus.Sdo.Segmented.{
  segment_command, build_sdo_download_segment, parse_sdo_upload_segment_data,
}

segment_command_sum :
    (size toggle : ℕ) (last : Bool)
    → size ≤ 7
    → segment_command size toggle last ≡ toggle % 2 * 16 + (if last then (7 - size) * 2 + 1 else 0)
unfolding segment_command
segment_command_sum size toggle last h = ground (
  arith,
  and_mask 1 toggle,
  and_mask 3 ((7 - size) % 256),
  or_split 17 ((7 - size) * 2),
  or_split 1 ((7 - size) * 2),
  or_low 3 1 (7 - size),
  or_low 3 0 (7 - size),
)

-- The command byte is a byte.
pub segment_command-IsU8 :
    (node : ℕ) (bytes : List ℕ) (toggle : ℕ) (last : Bool)
    → length bytes ≤ 7
    → IsU8 (build_sdo_download_segment node bytes toggle last).payload.b0
unfolding build_sdo_download_segment
segment_command-IsU8 node bytes toggle last h =
    ground (arith, segment_command_sum (length bytes) toggle last h)

-- The data bytes of a filled segment.
segment_bytes :
    (bytes : List ℕ) (d : Bytes8)
    → length bytes ≤ 7
    → drop 1 (take (8 - (7 - length bytes)) (to_list (copy_at 1 bytes d))) ≡ bytes
segment_bytes [] d h = refl
segment_bytes (a ∷ []) d h = refl
segment_bytes (a ∷ b ∷ []) d h = refl
segment_bytes (a ∷ b ∷ c ∷ []) d h = refl
segment_bytes (a ∷ b ∷ c ∷ e ∷ []) d h = refl
segment_bytes (a ∷ b ∷ c ∷ e ∷ f ∷ []) d h = refl
segment_bytes (a ∷ b ∷ c ∷ e ∷ f ∷ g ∷ []) d h = refl
segment_bytes (a ∷ b ∷ c ∷ e ∷ f ∷ g ∷ i ∷ []) d h = refl
segment_bytes (a ∷ b ∷ c ∷ e ∷ f ∷ g ∷ i ∷ j ∷ rest) d h = absurd (omega arith)

segment_bytes_full :
    (bytes : List ℕ) (d : Bytes8)
    → length bytes ≡ 7
    → drop 1 (take 8 (to_list (copy_at 1 bytes d))) ≡ bytes
segment_bytes_full bytes d e =
    let whole : 8 - (7 - length bytes) ≡ 8 = omega arith in
    rw whole at (segment_bytes bytes d (omega arith))

-- The parser on a segment whose command byte says that it is the last, of `size` bytes, or not.
parse_last :
    (f : Frame) (size : ℕ)
    → size ≤ 7
    → f.payload.b0 % 16 ≡ (7 - size) * 2 + 1
    → parse_sdo_upload_segment_data f
      ≡ ok (drop 1 (take (8 - (7 - size)) (to_list f.payload)), true)
unfolding parse_sdo_upload_segment_data
parse_last f size h e = ground (arith, and_mask 1 f.payload.b0, and_mask 3 (f.payload.b0 / 2))

parse_inner :
    (f : Frame)
    → f.payload.b0 % 2 ≡ 0
    → parse_sdo_upload_segment_data f ≡ ok (drop 1 (take 8 (to_list f.payload)), false)
unfolding parse_sdo_upload_segment_data
parse_inner f e = ground (arith, and_mask 1 f.payload.b0)

-- A segment of at most 7 bytes that is the last, or of exactly 7 bytes that is not, is parsed to
-- its bytes and its last flag, for either toggle.
pub parse-segment :
    (node : ℕ) (bytes : List ℕ) (toggle : ℕ) (last : Bool)
    → length bytes ≤ 7
    → (last ≡ false → length bytes ≡ 7)
    → parse_sdo_upload_segment_data (build_sdo_download_segment node bytes toggle last)
      ≡ ok (bytes, last)
unfolding build_sdo_download_segment
parse-segment node bytes toggle true h full =
    let f : Frame = build_sdo_download_segment node bytes toggle true in
    parse_last f (length bytes) h (omega (arith, segment_command_sum (length bytes) toggle true h))
    ∙ ap (λ (d : List ℕ). ok (d, true)) (segment_bytes bytes _ h)
parse-segment node bytes toggle false h full =
    let f : Frame = build_sdo_download_segment node bytes toggle false in
    let d : Bytes8 = record zeros { b0 = segment_command (length bytes) toggle false } in
    parse_inner f (omega (arith, segment_command_sum (length bytes) toggle false h))
    ∙ ap (λ (d : List ℕ). ok (d, false)) (segment_bytes_full bytes d (full refl))

-- The COB-ID, the length and the command byte of a download segment.
pub segment_head :
    (node : ℕ) (bytes : List ℕ) (toggle : ℕ) (last : Bool)
    → length bytes ≤ 7
    → let f = build_sdo_download_segment node bytes toggle last in
      (f.id ≡ cob_id fc_sdo_rx node)
      × (f.len ≡ 8)
      × (f.payload.b0 ≡ toggle % 2 * 16 + (if last then (7 - length bytes) * 2 + 1 else 0))
unfolding build_sdo_download_segment
segment_head node bytes toggle last h =
    (refl, refl, segment_command_sum (length bytes) toggle last h)
