-- ===== src/Message/Accepts.antt =====
-- Which frames the four messages are read from.
use canbus.Prelude.{◌<◌, ◌≤◌, ◌≡◌, refl, ◌↔◌, arith, none, Result-cases, inl, inr}
use canbus.Frame.{Frame}
use canbus.Cob.{cob_id, parse_cob_id, fc_sync, fc_emcy, fc_nmt_errctrl}
use canbus.Cob.Laws.{parse_inside, parse_outside}
use canbus.Message.Nmt
use canbus.Message.Nmt.{Nmt}
use canbus.Message.Heartbeat
use canbus.Message.Heartbeat.{Heartbeat}
use canbus.Message.Emcy
use canbus.Message.Emcy.{Emergency}
use canbus.Message.Sync
use canbus.Message.Sync.{Sync}

nmt_accepts : (n : Nmt) (f : Frame) → ((Nmt.unmarshal n f).1 ≡ none) ↔ ((f.id ≡ 0) × (2 ≤ f.len))
unfolding Nmt.unmarshal cob_id
nmt_accepts n f = ground arith

heartbeat_accepted :
    (h : Heartbeat) (f : Frame)
    → (Heartbeat.unmarshal h f).1 ≡ none
    → (0x700 ≤ f.id) × (f.id < 0x780) × (1 ≤ f.len)
unfolding Heartbeat.unmarshal
heartbeat_accepted h f e = elim (Result-cases (parse_cob_id f.id)) [
  | inl ((fc, node), p) ↦ ground (arith, p, parse_outside f.id fc node p)
  | inr (x, p) ↦ ground (arith, p)
]

heartbeat_accepts :
    (h : Heartbeat) (f : Frame)
    → ((Heartbeat.unmarshal h f).1 ≡ none) ↔ ((0x700 ≤ f.id) × (f.id < 0x780) × (1 ≤ f.len))
unfolding Heartbeat.unmarshal
heartbeat_accepts h f =
    (heartbeat_accepted h f, λ e. ground (arith, parse_inside f.id fc_nmt_errctrl refl))

emcy_accepted :
    (x : Emergency) (f : Frame)
    → (Emcy.unmarshal x f).1 ≡ none
    → (0x80 ≤ f.id) × (f.id < 0x100) × (8 ≤ f.len)
unfolding Emcy.unmarshal
emcy_accepted x f e = elim (Result-cases (parse_cob_id f.id)) [
  | inl ((fc, node), p) ↦ ground (arith, p, parse_outside f.id fc node p)
  | inr (y, p) ↦ ground (arith, p)
]

emcy_accepts :
    (x : Emergency) (f : Frame)
    → ((Emcy.unmarshal x f).1 ≡ none) ↔ ((0x80 ≤ f.id) × (f.id < 0x100) × (8 ≤ f.len))
unfolding Emcy.unmarshal
emcy_accepts x f = (emcy_accepted x f, λ e. ground (arith, parse_inside f.id fc_emcy refl))

sync_accepted :
    (s : Sync) (f : Frame)
    → (Sync.unmarshal s f).1 ≡ none
    → (0x80 ≤ f.id) × (f.id < 0x100) × (f.len ≤ 1)
unfolding Sync.unmarshal
sync_accepted s f e = elim (Result-cases (parse_cob_id f.id)) [
  | inl ((fc, node), p) ↦ ground (arith, p, parse_outside f.id fc node p)
  | inr (x, p) ↦ ground (arith, p)
]

sync_accepts :
    (s : Sync) (f : Frame)
    → ((Sync.unmarshal s f).1 ≡ none) ↔ ((0x80 ≤ f.id) × (f.id < 0x100) × (f.len ≤ 1))
unfolding Sync.unmarshal
sync_accepts s f = (sync_accepted s f, λ e. ground (arith, parse_inside f.id fc_sync refl))

-- Which frames the messages are read from, whatever their format and their RTR flag. An NMT
-- command: identifier 0 and at least 2 bytes. A heartbeat: identifiers 0x700 to 0x77F and at least
-- one byte. An emergency: 0x80 to 0xFF and at least 8 bytes, so also the identifier of SYNC. A
-- SYNC: 0x80 to 0xFF and at most one byte, so also the identifiers of all emergencies, for FC_SYNC
-- and FC_EMCY are one number.
pub messages_accept :
    (n : Nmt) (h : Heartbeat) (x : Emergency) (s : Sync) (f : Frame)
    → (((Nmt.unmarshal n f).1 ≡ none) ↔ ((f.id ≡ 0) × (2 ≤ f.len)))
      × (((Heartbeat.unmarshal h f).1 ≡ none) ↔ ((0x700 ≤ f.id) × (f.id < 0x780) × (1 ≤ f.len)))
      × (((Emcy.unmarshal x f).1 ≡ none) ↔ ((0x80 ≤ f.id) × (f.id < 0x100) × (8 ≤ f.len)))
      × (((Sync.unmarshal s f).1 ≡ none) ↔ ((0x80 ≤ f.id) × (f.id < 0x100) × (f.len ≤ 1)))
messages_accept n h x s f =
    (nmt_accepts n f, heartbeat_accepts h f, emcy_accepts x f, sync_accepts s f)
