-- ===== src/Sdo/Download/Wire.antt =====
-- What a download puts on the bus, and what a device makes of it.
use canbus.Prelude.{
  ℕ, zero, suc, ◌-◌, ◌/◌, ◌%◌, ◌^◌, ◌<◌, ◌≤◌, ◌≡◌, refl, sym, ap, ◌∙◌, arith, bit_xor, Bool, true,
  false, ◌&&◌, Option, none, some, List, [], ◌∷◌, ◌++◌, take_all, drop_all, length, Bool-cases, inl,
  inr, take, drop, length-take, length-drop, take-append-drop, ltb, ◌==◌, if◌then◌else◌, Result, ok,
  err, u32, uint32, IsU16, leb,
}
use mathlib.Core.Option
use mathlib.Core.List.{append-nil, append_assoc}
use canbus.Prelude.Bits.{and_mask}
use canbus.Frame.{Frame}
use canbus.Cob.{cob_id, fc_sdo_rx}
use canbus.Sdo.{specifier, index_of, subindex_of}
use canbus.Sdo.Segmented.{
  build_sdo_download_initiate_segmented, build_sdo_download_segment, parse_sdo_upload_segment_data,
}
use canbus.Sdo.Segmented.RoundTrip.{parse-segment, segment_head}
use canbus.Sdo.Acks.{segment_ack, initiate_ack}
use canbus.Sdo.Client.{Client, Link, answered}
use canbus.Sdo.Exchange.{recorded, answered-log, bind-ok}
use canbus.Sdo.Download.{download_segments, download_segmented, download}

-- The size of the next segment, and whether it is the last.
abbrev pub seg_len : List ℕ → ℕ
seg_len bytes = if ltb (length bytes) 7 then length bytes else 7

abbrev pub is_last : List ℕ → Bool
is_last bytes = seg_len bytes == length bytes

-- The segments of a download, in their order.
unfoldable pub planned : ℕ → ℕ → List ℕ → ℕ → List Frame
planned node fuel [] toggle = []
planned node zero (b ∷ bs) toggle = []
planned node (suc fuel) (b ∷ bs) toggle =
    let bytes = b ∷ bs in
    build_sdo_download_segment node (take (seg_len bytes) bytes) toggle (is_last bytes)
    ∷ planned node fuel (drop (seg_len bytes) bytes) (bit_xor toggle 1)

-- A segment on the COB-ID of the node's requests, with 8 bytes, the specifier of a download segment
-- and the toggle that is due.
abbrev pub is_segment : ℕ → ℕ → Frame → Bool
is_segment node toggle f =
    f.id == cob_id fc_sdo_rx node
    && (f.len == 8 && (specifier f.payload.b0 == 0 && f.payload.b0 / 16 % 2 == toggle))

abbrev add_segment : Result (List ℕ × Bool) → List Frame → Option (List ℕ) → Option (List ℕ)
add_segment (ok (bytes, true)) [] rest = some bytes
add_segment (ok (bytes, true)) (f ∷ frames) rest = none
add_segment (ok (bytes, false)) frames rest = Option.map (λ more. bytes ++ more) rest
add_segment (err e) frames rest = none

-- A device that puts the segments together. It wants alternating toggles and nothing behind the
-- segment that says that it is the last.
pub receive : ℕ → ℕ → List Frame → Option (List ℕ)
receive node toggle [] = none
receive node toggle (f ∷ frames) =
    let rest = receive node (1 - toggle) frames in
    if is_segment node toggle f
    then add_segment (parse_sdo_upload_segment_data f) frames rest
    else none

pub planned-is_segment :
    (node toggle : ℕ) (bytes : List ℕ) (last : Bool)
    → toggle ≤ 1
    → length bytes ≤ 7
    → is_segment node toggle (build_sdo_download_segment node bytes toggle last) ≡ true
planned-is_segment node toggle bytes last t h =
    let f : Frame = build_sdo_download_segment node bytes toggle last in
    ground (arith, segment_head node bytes toggle last h, and_mask 3 (f.payload.b0 / 32))

pub flip : (toggle : ℕ) → toggle ≤ 1 → bit_xor toggle 1 ≡ 1 - toggle
flip zero h = refl
flip (suc zero) h = refl
flip (suc (suc t)) h = absurd (omega arith)

pub length-seg : (bytes : List ℕ) → length (take (seg_len bytes) bytes) ≡ seg_len bytes
length-seg bytes = ground (arith, length-take (seg_len bytes) bytes)

receive-last :
    (node toggle : ℕ) (f : Frame) (bytes : List ℕ)
    → is_segment node toggle f ≡ true
    → parse_sdo_upload_segment_data f ≡ ok (bytes, true)
    → receive node toggle (f ∷ []) ≡ some bytes
unfolding receive
receive-last node toggle f bytes s p = rw (s, p, receive)

receive-inner :
    (node toggle : ℕ) (f : Frame) (frames : List Frame) (bytes more : List ℕ)
    → is_segment node toggle f ≡ true
    → parse_sdo_upload_segment_data f ≡ ok (bytes, false)
    → receive node (1 - toggle) frames ≡ some more
    → receive node toggle (f ∷ frames) ≡ some (bytes ++ more)
unfolding receive
receive-inner node toggle f frames bytes more s p r = rw (s, p, r, receive)

-- The device puts the planned segments together to the data of the download.
receive-planned :
    (node fuel : ℕ) (bytes : List ℕ) (toggle : ℕ)
    → 0 < length bytes
    → length bytes ≤ fuel
    → toggle ≤ 1
    → receive node toggle (planned node fuel bytes toggle) ≡ some bytes
unfolding planned
receive-planned node fuel [] toggle pos h t = absurd (omega arith)
receive-planned node zero (b ∷ bs) toggle pos h t = absurd (omega arith)
receive-planned node (suc fuel) (b ∷ bs) toggle pos h t =
    let bytes : List ℕ = b ∷ bs in
    let n : ℕ = seg_len bytes in
    let d : List ℕ = take n bytes in
    let last : Bool = is_last bytes in
    let f : Frame = build_sdo_download_segment node d toggle last in
    let small : length d ≤ 7 = rw (length-seg bytes) (ground arith) in
    let segment = planned-is_segment node toggle d last t small in
    let parsed =
      parse-segment node d toggle last small (λ e. rw (length-seg bytes) (ground arith)) in
    elim (Bool-cases last) [
      | inl e ↦
          let all : length bytes ≤ n = ground arith in
          ap (λ (R : List Frame). receive node toggle (f ∷ R))
            (ap (λ (r : List ℕ). planned node fuel r (bit_xor toggle 1)) (drop_all bytes n all))
          ∙ receive-last node toggle f d segment (parsed ∙ ap (λ (l : Bool). ok (d, l)) e)
          ∙ ap some (take_all bytes n all)
      | inr e ↦
          let more : (n ≡ 7) × (7 < length bytes) = ground arith in
          let rest : List ℕ = drop n bytes in
          let ih =
            receive-planned node fuel rest (1 - toggle) (omega (arith, length-drop n bytes))
              (omega (arith, length-drop n bytes)) (omega arith) in
          ap (λ (u : ℕ). receive node toggle (f ∷ planned node fuel rest u)) (flip toggle t)
          ∙ receive-inner node toggle f (planned node fuel rest (1 - toggle)) d rest segment
              (parsed ∙ ap (λ (l : Bool). ok (d, l)) e) ih
          ∙ ap some (take-append-drop n bytes)
    ]

-- A frame by which the client announces a segmented download of `size` bytes to an object.
pub record IsInitiate (node index subindex size : ℕ) (f : Frame) : Type 0 where
  pub to_node : f.id ≡ cob_id fc_sdo_rx node
  pub whole : f.len ≡ 8
  pub initiates : specifier f.payload.b0 ≡ 1
  pub segmented : f.payload.b0 % 16 ≡ 4
  pub for_index : index_of f ≡ index
  pub for_subindex : subindex_of f ≡ subindex
  pub of_size : uint32 f.payload.b4 f.payload.b5 f.payload.b6 f.payload.b7 ≡ size

build_sdo_download_initiate_segmented-IsInitiate :
    (node index subindex size : ℕ)
    → IsU16 index
    → size < 2 ^ 32
    → IsInitiate node index subindex size
        (build_sdo_download_initiate_segmented node index subindex (u32 size))
unfolding build_sdo_download_initiate_segmented
build_sdo_download_initiate_segmented-IsInitiate node index subindex size fits small = record {
  to_node = refl;
  whole = refl;
  initiates = refl;
  segmented = refl;
  for_index = omega arith;
  for_subindex = refl;
  of_size = omega arith;
}

-- More than 4 bytes are downloaded in segments.
pub download-segmented :
    {W : Type 0} (link : Link W) (c : Client) (index subindex : ℕ) (bytes : List ℕ) (w : W)
    → 4 < length bytes
    → download link c index subindex bytes w ≡ download_segmented link c index subindex bytes w
unfolding download
download-segmented link c index subindex bytes w big = elim (Bool-cases (leb (length bytes) 4)) [
  | inl e ↦ absurd (ground arith)
  | inr e ↦ rw (e, download)
]

module _ {W : Type 0} (link : Link W) (c : Client) where
  -- If the loop succeeds, it has put the planned segments on the bus, and nothing else.
  segments-log :
      (fuel : ℕ) (bytes : List ℕ) (toggle : ℕ) (w w' : W) (log log' : List Frame)
      → download_segments (recorded link) c fuel bytes toggle (w, log) ≡ ((w', log'), ok tt)
      → log' ≡ log ++ planned c.node fuel bytes toggle
  unfolding download_segments planned
  segments-log fuel [] toggle w w' log log' e = (cc) ∙ sym (append-nil log)
  segments-log zero (b ∷ bs) toggle w w' log log' e = cc
  segments-log (suc fuel) (b ∷ bs) toggle w w' log log' e =
      let bytes : List ℕ = b ∷ bs in
      let seg : Frame =
        build_sdo_download_segment c.node (take (seg_len bytes) bytes) toggle (is_last bytes) in
      let rest : List ℕ = drop (seg_len bytes) bytes in
      let round = answered (recorded link) c (segment_ack c.node toggle) 1 seg in
      let next =
        λ (rsp : Frame). download_segments (recorded link) c fuel rest (bit_xor toggle 1) in
      let ((w1, log1), rsp, sent, done) = bind-ok round next (w, log) (w', log') tt e in
      segments-log fuel rest (bit_xor toggle 1) w1 w' log1 log' done
      ∙ ap (λ (l : List Frame). l ++ planned c.node fuel rest (bit_xor toggle 1))
          (ap (λ (r : (W × List Frame) × Result Frame). r.0.1) (sym sent)
            ∙ answered-log link c (segment_ack c.node toggle) 1 seg w log)
      ∙ append_assoc log (seg ∷ []) (planned c.node fuel rest (bit_xor toggle 1))

  -- A download of more than 4 bytes, and fewer than 2 ^ 32, to a 16-bit index that succeeds has put
  -- on the bus, in this order, an initiation that names the object and the size of the data, and
  -- segments that a device with alternating toggles puts together to the data.
  pub download-receive :
      (index subindex : ℕ) (bytes : List ℕ) (w w' : W) (log : List Frame)
      → IsU16 index
      → 4 < length bytes
      → length bytes < 2 ^ 32
      → download (recorded link) c index subindex bytes (w, []) ≡ ((w', log), ok tt)
      → (init : Frame) × (segments : List Frame) × (log ≡ init ∷ segments)
        × IsInitiate c.node index subindex (length bytes) init
        × (receive c.node 0 segments ≡ some bytes)
  unfolding download_segmented
  download-receive index subindex bytes w w' log fits big small e =
      let init : Frame =
        build_sdo_download_initiate_segmented c.node index subindex (u32 (length bytes)) in
      let round = answered (recorded link) c (initiate_ack c.node index subindex) 1 init in
      let next = λ (rsp : Frame). download_segments (recorded link) c (length bytes) bytes 0 in
      let ((w1, log1), rsp, sent, done) =
        bind-ok round next (w, []) (w', log) tt
          (sym (download-segmented (recorded link) c index subindex bytes (w, []) big) ∙ e) in
      (
        init,
        planned c.node (length bytes) bytes 0,
        segments-log (length bytes) bytes 0 w1 w' log1 log done
            ∙ ap (λ (l : List Frame). l ++ planned c.node (length bytes) bytes 0)
                (ap (λ (r : (W × List Frame) × Result Frame). r.0.1) (sym sent)
                  ∙ answered-log link c (initiate_ack c.node index subindex) 1 init w []),
        build_sdo_download_initiate_segmented-IsInitiate c.node index subindex (length bytes) fits
            small,
        receive-planned c.node (length bytes) bytes 0 (omega arith) (omega arith) (omega arith),
      )
