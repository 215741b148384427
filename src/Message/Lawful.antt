-- ===== src/Message/Lawful.antt =====
-- The four messages as codecs, and the way of a message through the binary layout of its frame.
use canbus.Prelude.{
  ℕ, ◌≤◌, ◌≡◌, refl, arith, Option, none, some, List, IsU16, uint16-byte_of, ok, ◌>>=◌,
}
use canbus.Frame.{Frame, validate, marshal_binary, unmarshal_binary}
use canbus.Frame.RoundTrip.{unmarshal-marshal}
use canbus.Cob.{validate_node, cob_id, parse_cob_id, fc_emcy, fc_nmt_errctrl}
use canbus.Cob.Laws.{IsNodeCode, NodeCode_bounds, parse-cob_id, cob_id-eq-add, validate_node_bounds}
use canbus.Message.{FrameCodec, IsLawful}
use canbus.Message.Nmt
use canbus.Message.Nmt.{Nmt, build_nmt}
use canbus.Message.Heartbeat
use canbus.Message.Heartbeat.{Heartbeat, heartbeat_frame}
use canbus.Message.Emcy
use canbus.Message.Emcy.{Emergency, emcy_frame}
use canbus.Message.Sync
use canbus.Message.Sync.{Sync, sync_frame}

abbrev pub nmt_codec : FrameCodec Nmt
nmt_codec = record { marshal = Nmt.marshal; unmarshal = Nmt.unmarshal }

abbrev pub heartbeat_codec : FrameCodec Heartbeat
heartbeat_codec = record { marshal = Heartbeat.marshal; unmarshal = Heartbeat.unmarshal }

abbrev pub emcy_codec : FrameCodec Emergency
emcy_codec = record { marshal = Emcy.marshal; unmarshal = Emcy.unmarshal }

abbrev pub sync_codec : FrameCodec Sync
sync_codec = record { marshal = Sync.marshal; unmarshal = Sync.unmarshal }

nmt-IsLawful : IsLawful nmt_codec (λ n. Unit {0})
unfolding Nmt.marshal Nmt.unmarshal validate cob_id
nmt-IsLawful = record {
  carries = λ n _. (build_nmt n.command n.node, refl, refl, λ r. refl);
  keeps = λ r f e h. ground arith;
}

node_frame_valid :
    (fc node : ℕ) → IsNodeCode fc → validate_node node ≡ none → cob_id fc node ≤ 0x7FF
node_frame_valid fc node c h =
    let n = validate_node_bounds node h in
    let b = NodeCode_bounds fc c in omega (arith, cob_id-eq-add fc node c (omega arith))

heartbeat_reads :
    (h r : Heartbeat)
    → validate_node h.node ≡ none
    → (validate (heartbeat_frame h.node h.state) ≡ none)
      × (Heartbeat.unmarshal r (heartbeat_frame h.node h.state) ≡ (h, none))
unfolding Heartbeat.unmarshal validate
heartbeat_reads h r v = ground (
  arith,
  node_frame_valid fc_nmt_errctrl h.node refl v,
  parse-cob_id fc_nmt_errctrl h.node refl v,
)

pub heartbeat-IsLawful : IsLawful heartbeat_codec (λ h. validate_node h.node ≡ none)
unfolding Heartbeat.marshal Heartbeat.unmarshal
heartbeat-IsLawful = record {
  carries = λ h v. (
    heartbeat_frame h.node h.state,
    rw v,
    (heartbeat_reads h h v).0,
    λ r. (heartbeat_reads h r v).1,
  );
  keeps = λ r f e h. ground arith;
}

emcy_reads :
    (e r : Emergency)
    → validate_node e.node ≡ none
    → IsU16 e.error_code
    → (validate (emcy_frame e.node (record e { node = 0 })) ≡ none)
      × (Emcy.unmarshal r (emcy_frame e.node (record e { node = 0 })) ≡ (e, none))
unfolding Emcy.unmarshal validate
emcy_reads e r v w = ground (
  arith,
  node_frame_valid fc_emcy e.node refl v,
  parse-cob_id fc_emcy e.node refl v,
  uint16-byte_of e.error_code w,
)

emcy-IsLawful : IsLawful emcy_codec (λ e. (validate_node e.node ≡ none) × IsU16 e.error_code)
unfolding Emcy.marshal Emcy.unmarshal
emcy-IsLawful = record {
  carries = λ e v. (
    emcy_frame e.node (record e { node = 0 }),
    rw v.0,
    (emcy_reads e e v.0 v.1).0,
    λ r. (emcy_reads e r v.0 v.1).1,
  );
  keeps = λ r f e h. ground arith;
}

sync_reads :
    (c : Option ℕ) (r : Sync)
    → (validate (sync_frame c) ≡ none)
      × (Sync.unmarshal r (sync_frame c) ≡ (record { counter = c }, none))
unfolding Sync.unmarshal sync_frame validate cob_id parse_cob_id
sync_reads none r = (refl, refl)
sync_reads (some c) r = (refl, refl)

sync-IsLawful : IsLawful sync_codec (λ s. Unit {0})
unfolding Sync.marshal Sync.unmarshal
sync-IsLawful = record {
  carries = λ s _.
      (sync_frame s.counter, refl, (sync_reads s.counter s).0, λ r. (sync_reads s.counter r).1);
  keeps = λ r f e h. ground arith;
}

-- Every NMT command, every heartbeat of a node from 1 to 127, every emergency of such a node with
-- an error code of 16 bits, and every SYNC message, with or without a counter, is marshalled to a
-- valid frame, from which any receiver reads it back; a frame that is refused leaves the receiver
-- as it was.
pub messages-IsLawful :
    IsLawful nmt_codec (λ n. Unit {0})
    × IsLawful heartbeat_codec (λ h. validate_node h.node ≡ none)
    × IsLawful emcy_codec (λ e. (validate_node e.node ≡ none) × IsU16 e.error_code)
    × IsLawful sync_codec (λ s. Unit {0})
messages-IsLawful = (nmt-IsLawful, heartbeat-IsLawful, emcy-IsLawful, sync-IsLawful)

-- A message that a lawful codec marshals goes through the 16 bytes of its frame, and any receiver
-- of the frame and of the message, to the same message.
pub message_through_bytes :
    {T : Type 0} (c : FrameCodec T) (Good : T → Type 0) (t r : T) (g : Frame)
    → IsLawful c Good
    → Good t
    → (bytes : List ℕ) × ((c.marshal t >>= marshal_binary) ≡ ok bytes)
      × (c.unmarshal r (unmarshal_binary g bytes).0 ≡ (t, none))
message_through_bytes c Good t r g l good =
    let (f, made, valid, reads) = l.carries t good in
    let (bytes, written, size, back) = unmarshal-marshal f g valid in
    (bytes, rw made written, rw back (reads r))
