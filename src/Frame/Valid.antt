-- ===== src/Frame/Valid.antt =====
-- What Validate accepts, and what MustFrame builds.
use canbus.Prelude.{
  ℕ, ◌≤◌, ◌<◌, ◌≡◌, refl, arith, ◌↔◌, ◌⊎◌, Bool, true, false, none, some, List, [], ◌∷◌, length,
  take, All, IsU8, u8, Error, ok, invalid_id, invalid_len,
}
use canbus.Frame.{Frame, IsFrame, max_std_id, max_ext_id, validate, filled, must_frame}
use canbus.Frame.Payload.{zeros, to_list, copy_at, copy_at-IsBytes8, front-IsBytes8}

-- The identifiers that a frame of either format may carry.
abbrev pub id_limit : Bool → ℕ
id_limit true = max_ext_id
id_limit false = max_std_id

abbrev pub IsValid : Frame → Type 0
IsValid f = (f.len ≤ 8) × (f.id ≤ id_limit f.extended)

-- Validate accepts a frame exactly when its length is at most 8 and its identifier fits the 29
-- bits of an extended or the 11 bits of a standard frame.
pub validate-IsValid : (f : Frame) → (validate f ≡ none) ↔ IsValid f
unfolding validate
validate-IsValid f = ground arith

-- A length above 8 is the error whatever the identifier is; otherwise the error is the
-- identifier's.
pub validate_error :
    (f : Frame) (e : Error)
    → validate f ≡ some e
    → ((e ≡ invalid_len) × (8 < f.len))
      ⊎ ((e ≡ invalid_id) × (f.len ≤ 8) × (id_limit f.extended < f.id))
unfolding validate
validate_error f e h = ground arith

take-copy_at :
    (bytes : List ℕ)
    → length bytes ≤ 8
    → take (length bytes) (to_list (copy_at 0 bytes zeros)) ≡ bytes
take-copy_at [] h = refl
take-copy_at (x ∷ []) h = refl
take-copy_at (x ∷ y ∷ []) h = refl
take-copy_at (x ∷ y ∷ z ∷ []) h = refl
take-copy_at (x ∷ y ∷ z ∷ u ∷ []) h = refl
take-copy_at (x ∷ y ∷ z ∷ u ∷ v ∷ []) h = refl
take-copy_at (x ∷ y ∷ z ∷ u ∷ v ∷ w ∷ []) h = refl
take-copy_at (x ∷ y ∷ z ∷ u ∷ v ∷ w ∷ r ∷ []) h = refl
take-copy_at (x ∷ y ∷ z ∷ u ∷ v ∷ w ∷ r ∷ s ∷ []) h = refl
take-copy_at (x ∷ y ∷ z ∷ u ∷ v ∷ w ∷ r ∷ s ∷ t ∷ rest) h = absurd (omega arith)

must_frame_limits :
    (id : ℕ) (bytes : List ℕ) (f : Frame)
    → must_frame id bytes ≡ ok f
    → (length bytes ≤ 8) × (id ≤ max_ext_id)
unfolding must_frame validate
must_frame_limits id bytes f e = ground arith

must_frame_is :
    (id : ℕ) (bytes : List ℕ) (f : Frame) → must_frame id bytes ≡ ok f → filled id bytes ≡ f
unfolding must_frame
must_frame_is id bytes f e = ground arith

filled_builds :
    (id : ℕ) (bytes : List ℕ)
    → All IsU8 bytes
    → length bytes ≤ 8
    → id ≤ max_ext_id
    → let f = filled id bytes in
      IsFrame f
      × IsValid f
      × (f.id ≡ id)
      × (f.rtr ≡ false)
      × ((f.extended ≡ true) ↔ (max_std_id < id))
      × (take f.len (to_list f.payload) ≡ bytes)
filled_builds id bytes h l m =
    let e : u8 (length bytes) ≡ length bytes = omega arith in
    (
      record {
        id_fits = omega arith;
        len_fits = omega arith;
        bytes_fit =
            copy_at-IsBytes8 0 bytes zeros h
              (front-IsBytes8 0 0 0 0 (omega arith) (omega arith) (omega arith) (omega arith));
      },
      ground arith,
      refl,
      refl,
      ground arith,
      rw e (take-copy_at bytes l),
    )

-- MustFrame succeeds exactly on at most 8 bytes and an identifier of at most 29 bits.
pub must_frame_iff :
    (id : ℕ) (bytes : List ℕ)
    → ((f : Frame) × (must_frame id bytes ≡ ok f)) ↔ ((length bytes ≤ 8) × (id ≤ max_ext_id))
unfolding must_frame validate
must_frame_iff id bytes =
    ((λ p. must_frame_limits id bytes p.0 p.1), λ h. (filled id bytes, ground arith))

-- A frame that MustFrame builds from bytes is valid, has the given identifier, is extended exactly
-- when that exceeds 11 bits, is no remote frame, and carries exactly the given bytes.
pub must_frame_builds :
    (id : ℕ) (bytes : List ℕ) (f : Frame)
    → All IsU8 bytes
    → must_frame id bytes ≡ ok f
    → IsFrame f
      × IsValid f
      × (f.id ≡ id)
      × (f.rtr ≡ false)
      × ((f.extended ≡ true) ↔ (max_std_id < id))
      × (take f.len (to_list f.payload) ≡ bytes)
unfolding must_frame validate
must_frame_builds id bytes f h e =
    let (l, m) = must_frame_limits id bytes f e in
    rw (← must_frame_is id bytes f e) (filled_builds id bytes h l m)
