-- ===== src/Frame/RoundTrip.antt =====
-- MarshalBinary and UnmarshalBinary against each other.
use canbus.Prelude.{
  sym, ℕ, ◌+◌, ◌/◌, ◌%◌, ◌^◌, ◌≤◌, ◌<◌, ◌≡◌, refl, arith, ◌↔◌, ◌⊎◌, Bool, Option, none, some, List,
  ◌∷◌, if◌then◌else◌, length, get_or, IsU8, IsU32, Error, ok, err, short_buffer, invalid_len, ap,
  ◌∙◌, byte_of, uint32, uint32-byte_of, u8-eq_of_lt, u8-eq_of_lt,
}
use canbus.Prelude.Bits.{and_flag, and_mask, or_flag}
use canbus.Frame.{
  Frame, max_ext_id, validate, can_id, layout, decode, marshal_binary, unmarshal_binary,
}
use canbus.Frame.Payload.{Bytes8, to_list}
use canbus.Frame.Valid.{IsValid, validate-IsValid}

-- The flags are bits 31 and 30, above any identifier.
flag_sum : Bool → Bool → ℕ
flag_sum extended rtr = (if extended then 0x8000_0000 else 0) + (if rtr then 0x4000_0000 else 0)

can_id_sum : (f : Frame) → f.id ≤ max_ext_id → can_id f ≡ f.id + flag_sum f.extended f.rtr
unfolding can_id flag_sum
can_id_sum f h = ground (arith, or_flag 31 f.id, or_flag 30 f.id, or_flag 30 (f.id + 0x8000_0000))

decode_sum :
    (f g : Frame)
    → IsValid f
    → decode (f.id + flag_sum f.extended f.rtr) f.len (to_list f.payload) g ≡ f
unfolding decode flag_sum
decode_sum f g v =
    let x : ℕ = f.id + flag_sum f.extended f.rtr in
    ground (arith, and_flag 31 x, and_flag 30 x, and_mask 29 x, and_mask 11 x)

flag_sum-lt : (f : Frame) → IsValid f → f.id + flag_sum f.extended f.rtr < 2 ^ 32
unfolding flag_sum
flag_sum-lt f v = ground arith

-- UnmarshalBinary reads the three parts of a layout.
unmarshal-layout : (f g : Frame) → IsValid f → unmarshal_binary g (layout f) ≡ (f, validate f)
unfolding unmarshal_binary layout
unmarshal-layout f g v =
    let x : ℕ = f.id + flag_sum f.extended f.rtr in
    rw
      (
        can_id_sum f (ground arith),
        uint32-byte_of x (flag_sum-lt f v),
        u8-eq_of_lt f.len (omega arith),
      )
      (ap (λ (h : Frame). (h, validate h)) (decode_sum f g v))

-- A valid frame is marshalled to 16 bytes, from which any receiver is overwritten with that frame.
pub unmarshal-marshal :
    (f g : Frame)
    → validate f ≡ none
    → (bytes : List ℕ) × (marshal_binary f ≡ ok bytes)
      × (length bytes ≡ 16)
      × (unmarshal_binary g bytes ≡ (f, none))
unfolding marshal_binary
unmarshal-marshal f g h = (
  layout f,
  rw h,
  unfold layout in refl,
  unmarshal-layout f g ((validate-IsValid f).0 h) ∙ ap (λ (e : Option Error). (f, e)) h,
)

-- Marshalling reports the error of Validate, and nothing else.
pub marshal_error : (f : Frame) (e : Error) → (marshal_binary f ≡ err e) ↔ (validate f ≡ some e)
unfolding marshal_binary
marshal_error f e = ground arith

-- Unmarshalling fails on fewer than 16 bytes, where the receiver stays as it was, and on a length
-- byte above 8; the masks leave no other error.
pub unmarshal_outcome :
    (g : Frame) (bytes : List ℕ)
    → let (f, e) = unmarshal_binary g bytes in
      ((length bytes < 16) × (e ≡ some (short_buffer (length bytes))) × (f ≡ g))
      ⊎ ((16 ≤ length bytes) × (8 < get_or bytes 4 0 % 256) × (e ≡ some invalid_len))
      ⊎ ((16 ≤ length bytes) × (get_or bytes 4 0 % 256 ≤ 8) × (e ≡ none) × IsValid f)
unfolding unmarshal_binary validate
unmarshal_outcome g bytes =
    let x : ℕ =
      uint32 (get_or bytes 0 0) (get_or bytes 1 0) (get_or bytes 2 0) (get_or bytes 3 0) in
    ground (arith, and_mask 29 x, and_mask 11 x)

-- The bits that UnmarshalBinary drops are zero: bit 29, and bits 11 to 28 of a standard identifier.
abbrev pub IsCanonical : ℕ → Type 0
IsCanonical x = (x / 2 ^ 29 % 2 ≡ 0) × (x < 2 ^ 31 → x % 2 ^ 29 < 2 ^ 11)

decode-flag_sum :
    (g : Frame) (x len : ℕ) (rest : List ℕ)
    → IsU32 x
    → IsCanonical x
    → let f = decode x len rest g in (f.id + flag_sum f.extended f.rtr ≡ x) × (f.id ≤ max_ext_id)
unfolding decode flag_sum
decode-flag_sum g x len rest h (clear, std) =
    ground (arith, and_flag 31 x, and_flag 30 x, and_mask 29 x, and_mask 11 x)

decode-can_id :
    (g : Frame) (x len : ℕ) (rest : List ℕ)
    → IsU32 x
    → IsCanonical x
    → can_id (decode x len rest g) ≡ x
decode-can_id g x len rest h c =
    let (sum, small) = decode-flag_sum g x len rest h c in
    can_id_sum (decode x len rest g) small ∙ sum

decode-IsValid :
    (g : Frame) (x len : ℕ) (rest : List ℕ) → len ≤ 8 → validate (decode x len rest g) ≡ none
unfolding decode validate
decode-IsValid g x len rest h = ground (arith, and_mask 29 x, and_mask 11 x)

bytes-uint32 :
    (i0 i1 i2 i3 : ℕ) (rest : List ℕ)
    → IsU8 i0
    → IsU8 i1
    → IsU8 i2
    → IsU8 i3
    → let x = uint32 i0 i1 i2 i3 in
      byte_of x 0 ∷ byte_of x 1 ∷ byte_of x 2 ∷ byte_of x 3 ∷ rest ≡ i0 ∷ i1 ∷ i2 ∷ i3 ∷ rest
bytes-uint32 i0 i1 i2 i3 rest h0 h1 h2 h3 = ground arith

-- Where the bits and the padding that UnmarshalBinary drops are zero, and the length is at most 8,
-- the bytes that were unmarshalled are the bytes to which the result is marshalled.
pub marshal-unmarshal :
    (g : Frame) (i0 i1 i2 i3 len : ℕ) (d : Bytes8)
    → IsU8 i0
    → IsU8 i1
    → IsU8 i2
    → IsU8 i3
    → len ≤ 8
    → IsCanonical (uint32 i0 i1 i2 i3)
    → let bytes = i0 ∷ i1 ∷ i2 ∷ i3 ∷ len ∷ 0 ∷ 0 ∷ 0 ∷ to_list d in
      marshal_binary (unmarshal_binary g bytes).0 ≡ ok bytes
unfolding marshal_binary unmarshal_binary layout
marshal-unmarshal g i0 i1 i2 i3 len d h0 h1 h2 h3 hl c =
    let x : ℕ = uint32 i0 i1 i2 i3 in
    let bytes : List ℕ = to_list d in
    rw
      (
        u8-eq_of_lt len (omega arith),
        decode-IsValid g x len bytes hl,
        decode-can_id g x len bytes (omega arith) c,
      )
      (ap ok (bytes-uint32 i0 i1 i2 i3 (len ∷ 0 ∷ 0 ∷ 0 ∷ bytes) h0 h1 h2 h3))

-- What was marshalled: the bytes of a valid frame, from which it is read back.
pub marshal_ok :
    (f g : Frame) (bytes : List ℕ)
    → marshal_binary f ≡ ok bytes
    → (validate f ≡ none) × (length bytes ≡ 16) × (unmarshal_binary g bytes ≡ (f, none))
unfolding marshal_binary
marshal_ok f g bytes m = valid (validate f) refl
  where
    valid :
        (e : Option Error)
        → validate f ≡ e
        → (validate f ≡ none) × (length bytes ≡ 16) × (unmarshal_binary g bytes ≡ (f, none))
    valid none v =
        let (b, n, l, u) = unmarshal-marshal f g v in
        let same : b ≡ bytes = cc (m, n) in
        (v, ap length (sym same) ∙ l, ap (unmarshal_binary g) (sym same) ∙ u)
    valid (some e) v =
        let n : marshal_binary f ≡ err e = (marshal_error f e).1 v in absurd (cc (m, n))
