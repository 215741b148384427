-- ===== src/Frame.antt =====
-- frame.go: the frame, its validation, MustFrame and the SocketCAN layout of 16 bytes.
pub mod Payload
pub mod Valid
pub mod RoundTrip
pub mod Text
use canbus.Prelude.{
  ℕ, ◌+◌, ◌<◌, bit_and, bit_or, ◌≡◌, Bool, true, false, Option, none, some, List, [], ◌∷◌, ◌++◌,
  ltb, ◌!=◌, if◌then◌else◌, length, get_or, take, drop, IsU8, IsU32, u8, uint32, byte_of, Error,
  Result, ok, ◌>>=◌, ◌>>◌, refuse, check, invalid_id, invalid_len, short_buffer,
}
use Payload.{Bytes8, IsBytes8, zeros, to_list, copy_at}

-- `Frame`. The identifier is a uint32, the length a uint8.
pub record Frame : Type 0 where
  pub id : ℕ
  pub extended : Bool
  pub rtr : Bool
  pub len : ℕ
  pub payload : Bytes8

-- What Go's types say of a frame.
pub record IsFrame (f : Frame) : Type 0 where
  pub id_fits : IsU32 f.id
  pub len_fits : IsU8 f.len
  pub bytes_fit : IsBytes8 f.payload

-- `var f Frame`
abbrev pub zero_frame : Frame
zero_frame = record { id = 0; extended = false; rtr = false; len = 0; payload = zeros }

abbrev pub max_std_id : ℕ
max_std_id = 0x7FF

abbrev pub max_ext_id : ℕ
max_ext_id = 0x1FFF_FFFF

-- `f.Validate()`
unfoldable pub validate : Frame → Option Error
validate f =
    if ltb 8 f.len
    then some invalid_len
    else if f.extended
    then (if ltb max_ext_id f.id then some invalid_id else none)
    else (if ltb max_std_id f.id then some invalid_id else none)

-- The frame that MustFrame fills in before it validates it.
abbrev pub filled : ℕ → List ℕ → Frame
filled id bytes = record {
  id = id;
  extended = ltb max_std_id id;
  rtr = false;
  len = u8 (length bytes);
  payload = copy_at 0 bytes zeros;
}

-- `MustFrame(id, data)`; a panic is the error that it panics with.
unfoldable pub must_frame : ℕ → List ℕ → Result Frame
must_frame id bytes = do
  refuse (ltb 8 (length bytes)) invalid_len
  check (validate (filled id bytes))
  ok (filled id bytes)

abbrev pub can_eff_flag : ℕ
can_eff_flag = 0x8000_0000

abbrev pub can_rtr_flag : ℕ
can_rtr_flag = 0x4000_0000

-- The identifier with its flags.
can_id : Frame → ℕ
can_id f =
    let id = if f.extended then bit_or f.id can_eff_flag else f.id in
    if f.rtr then bit_or id can_rtr_flag else id

-- The 16 bytes: the identifier, the length, three zeros of padding and the data.
layout : Frame → List ℕ
layout f =
    byte_of (can_id f) 0
    ∷ byte_of (can_id f) 1
    ∷ byte_of (can_id f) 2
    ∷ byte_of (can_id f) 3
    ∷ f.len
    ∷ 0
    ∷ 0
    ∷ 0
    ∷ to_list f.payload

-- `f.MarshalBinary()`
unfoldable pub marshal_binary : Frame → Result (List ℕ)
unfolding can_id layout
marshal_binary f = do check (validate f); ok (layout f)

-- The fields that UnmarshalBinary reads from the four bytes of the identifier and from the rest.
decode : ℕ → ℕ → List ℕ → Frame → Frame
decode id len rest f =
    let extended = bit_and id can_eff_flag != 0 in
    record {
      id = if extended then bit_and id 0x1FFF_FFFF else bit_and id 0x7FF;
      extended = extended;
      rtr = bit_and id can_rtr_flag != 0;
      len = len;
      payload = copy_at 0 rest f.payload;
    }

-- `f.UnmarshalBinary(data)`: the receiver afterwards, and the error.
unfoldable pub unmarshal_binary : Frame → List ℕ → Frame × Option Error
unfolding decode
unmarshal_binary f bytes =
    let id = uint32 (get_or bytes 0 0) (get_or bytes 1 0) (get_or bytes 2 0) (get_or bytes 3 0) in
    let g = decode id (u8 (get_or bytes 4 0)) (take 8 (drop 8 bytes)) f in
    if ltb (length bytes) 16 then (f, some (short_buffer (length bytes))) else (g, validate g)
