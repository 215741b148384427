-- ===== src/Sdo/Expedited/RoundTrip.antt =====
-- Expedited download requests, encoded and parsed.
use canbus.Prelude.{
  ℕ, ◌+◌, ◌-◌, ◌*◌, ◌/◌, ◌%◌, ◌<◌, ◌≤◌, ◌≡◌, refl, arith, none, List, [], ◌∷◌, length, take, drop,
  ◌==◌, if◌then◌else◌, IsU16, Result, ok, err, ◌>>=◌, classic_size, uint16-byte_of, not_expedited,
}
use canbus.Prelude.Bits.{and_mask, and_flag, or_low}
use canbus.Frame.Payload.{Bytes8, to_list, copy_at}
use canbus.Cob.{validate_node, fc_sdo_rx}
use canbus.Cob.Laws.{parse-cob_id}
use canbus.Sdo.Expedited.{
  Expedited, head, request, spec_command, sdo_expedited_download, sdo_expedited_download_classic,
  parse_sdo_expedited_download,
}

-- The spec command byte is 0x2C with the number of unused bytes in its two lowest bits.
spec_command_sum : (size : ℕ) → size ≤ 4 → spec_command size ≡ 0x2C + (4 - size) % 4
unfolding spec_command
spec_command_sum size h =
    ground (arith, and_mask 2 ((4 - size) % 256), or_low 2 11 ((4 - size) % 4))

-- The data bytes of a filled request.
data_bytes :
    (bytes : List ℕ) (d : Bytes8)
    → length bytes ≤ 4
    → take (length bytes) (drop 4 (to_list (copy_at 4 bytes d))) ≡ bytes
data_bytes [] d h = refl
data_bytes (x ∷ []) d h = refl
data_bytes (x ∷ y ∷ []) d h = refl
data_bytes (x ∷ y ∷ z ∷ []) d h = refl
data_bytes (x ∷ y ∷ z ∷ u ∷ []) d h = refl
data_bytes (x ∷ y ∷ z ∷ u ∷ v ∷ rest) d h = absurd (omega arith)

-- A parse of a request whose command byte has the specifier, the e and the s bit of an expedited
-- download of `size` bytes.
parse-request :
    (target cmd index subindex : ℕ) (bytes : List ℕ)
    → validate_node target ≡ none
    → IsU16 index
    → 0x2C ≤ cmd
    → cmd < 0x30
    → parse_sdo_expedited_download (request target (copy_at 4 bytes (head cmd index subindex)))
      ≡ ok (record {
        node = target;
        index = index;
        subindex = subindex;
        bytes = take (0x30 - cmd) (drop 4 (to_list (copy_at 4 bytes (head cmd index subindex))));
      })
unfolding parse_sdo_expedited_download
parse-request target cmd index subindex bytes v i lo hi =
    rw (parse-cob_id fc_sdo_rx target refl v) (
      ground (
        arith,
        and_mask 3 (cmd / 32),
        and_flag 3 cmd,
        and_flag 2 cmd,
        and_mask 2 cmd,
        uint16-byte_of index i,
      ))

download_ok :
    (target index subindex : ℕ) (bytes : List ℕ)
    → validate_node target ≡ none
    → length bytes ≤ 4
    → sdo_expedited_download target index subindex bytes
      ≡ ok (request target (copy_at 4 bytes (head (0x2C + (4 - length bytes) % 4) index subindex)))
unfolding sdo_expedited_download
download_ok target index subindex bytes v l = ground (arith, spec_command_sum (length bytes) l)

parse_some :
    (target index subindex : ℕ) (bytes : List ℕ)
    → validate_node target ≡ none
    → IsU16 index
    → 1 ≤ length bytes
    → length bytes ≤ 4
    → (sdo_expedited_download target index subindex bytes >>= parse_sdo_expedited_download)
      ≡ ok (record { node = target; index = index; subindex = subindex; bytes = bytes })
parse_some target index subindex bytes v i lo hi =
    let cmd : ℕ = 0x2C + (4 - length bytes) % 4 in
    let unused : 0x30 - cmd ≡ length bytes = omega arith in
    rw
      (
        download_ok target index subindex bytes v hi,
        parse-request target cmd index subindex bytes v i (omega arith) (omega arith),
        unused,
        data_bytes bytes (head cmd index subindex) hi,
      )
      refl

parse_none :
    (target index subindex : ℕ)
    → validate_node target ≡ none
    → IsU16 index
    → (sdo_expedited_download target index subindex [] >>= parse_sdo_expedited_download)
      ≡ ok
          (record { node = target; index = index; subindex = subindex; bytes = 0 ∷ 0 ∷ 0 ∷ 0 ∷ [] })
parse_none target index subindex v i =
    rw (download_ok target index subindex [] v (omega arith))
      (parse-request target 0x2C index subindex [] v i (omega arith) (omega arith))

-- No bytes at all come out as four zero bytes.
abbrev pub read_as : List ℕ → List ℕ
read_as [] = 0 ∷ 0 ∷ 0 ∷ 0 ∷ []
read_as (x ∷ bytes) = x ∷ bytes

pub parse-download :
    (target index subindex : ℕ) (bytes : List ℕ)
    → validate_node target ≡ none
    → IsU16 index
    → length bytes ≤ 4
    → (sdo_expedited_download target index subindex bytes >>= parse_sdo_expedited_download)
      ≡ ok (record { node = target; index = index; subindex = subindex; bytes = read_as bytes })
parse-download target index subindex [] v i h = parse_none target index subindex v i
parse-download target index subindex (x ∷ bytes) v i h =
    parse_some target index subindex (x ∷ bytes) v i (omega arith) h

-- What the parser makes of a request in the classic encoding.
abbrev pub read_classic : ℕ → ℕ → ℕ → List ℕ → Result Expedited
read_classic target index subindex bytes =
    if length bytes == 0
    then err (classic_size 0)
    else if length bytes == 1
    then ok (record { node = target; index = index; subindex = subindex; bytes = bytes })
    else err (not_expedited (0x33 - 4 * length bytes))

parse-classic :
    (target index subindex : ℕ) (bytes : List ℕ)
    → validate_node target ≡ none
    → IsU16 index
    → length bytes ≤ 4
    → (sdo_expedited_download_classic target index subindex bytes >>= parse_sdo_expedited_download)
      ≡ read_classic target index subindex bytes
unfolding sdo_expedited_download_classic parse_sdo_expedited_download
parse-classic target index subindex [] v i hi = rw v refl
parse-classic target index subindex (x ∷ []) v i hi =
    rw v (parse-request target 0x2F index subindex (x ∷ []) v i (omega arith) (omega arith))
parse-classic target index subindex (x ∷ y ∷ []) v i hi =
    rw (v, parse-cob_id fc_sdo_rx target refl v)
parse-classic target index subindex (x ∷ y ∷ z ∷ []) v i hi =
    rw (v, parse-cob_id fc_sdo_rx target refl v)
parse-classic target index subindex (x ∷ y ∷ z ∷ u ∷ []) v i hi =
    rw (v, parse-cob_id fc_sdo_rx target refl v)
parse-classic target index subindex (x ∷ y ∷ z ∷ u ∷ w ∷ rest) v i hi = absurd (omega arith)

-- What an expedited download of at most four bytes to a node from 1 to 127 encodes is parsed back,
-- with the node, the index, the subindex and the bytes, but for a download of no bytes, which is
-- parsed as one of four zero bytes: the number of unused bytes is cut to two bits. In the classic
-- encoding a download of no bytes is refused, one of one byte is read back, and for two to four
-- bytes the parser refuses the command byte, since it looks for the e and the s bit elsewhere.
pub parse-expedited :
    (target index subindex : ℕ) (bytes : List ℕ)
    → validate_node target ≡ none
    → IsU16 index
    → length bytes ≤ 4
    → ((sdo_expedited_download target index subindex bytes >>= parse_sdo_expedited_download)
        ≡ ok (record { node = target; index = index; subindex = subindex; bytes = read_as bytes }))
      × ((sdo_expedited_download_classic target index subindex bytes
            >>= parse_sdo_expedited_download)
          ≡ read_classic target index subindex bytes)
parse-expedited target index subindex bytes v i h = (
  parse-download target index subindex bytes v i h,
  parse-classic target index subindex bytes v i h,
)
