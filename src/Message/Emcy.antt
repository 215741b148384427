-- ===== src/Message/Emcy.antt =====
-- canopen/emcy.go: emergencies.
use canbus.Prelude.{
  ℕ, Option, none, some, ltb, ◌!=◌, uint16, byte_of, Error, Result, ok, err, ◌>>=◌, ◌>>◌, refuse,
  check, not_emcy, emcy_short,
}
use canbus.Frame.{Frame, zero_frame}
use canbus.Frame.Payload.{Bytes8}
use canbus.Cob.{cob_id, parse_cob_id, validate_node, fc_emcy}

-- `[5]byte`
pub record Bytes5 : Type 0 where
  pub m0 : ℕ
  pub m1 : ℕ
  pub m2 : ℕ
  pub m3 : ℕ
  pub m4 : ℕ

-- `Emergency`
pub record Emergency : Type 0 where
  pub node : ℕ
  pub error_code : ℕ
  pub error_register : ℕ
  pub manufacturer : Bytes5

-- The frame that buildEMCY fills in.
abbrev pub emcy_frame : ℕ → Emergency → Frame
emcy_frame node e = record zero_frame {
  id = cob_id fc_emcy node;
  len = 8;
  payload = record {
    b0 = byte_of e.error_code 0;
    b1 = byte_of e.error_code 1;
    b2 = e.error_register;
    b3 = e.manufacturer.m0;
    b4 = e.manufacturer.m1;
    b5 = e.manufacturer.m2;
    b6 = e.manufacturer.m3;
    b7 = e.manufacturer.m4;
  };
}

-- `buildEMCY(node, e)`; it reads the node from its first argument.
unfoldable pub build_emcy : ℕ → Emergency → Result Frame
build_emcy node e = do check (validate_node node); ok (emcy_frame node e)

-- The payload that parseEMCY reads; its node stays 0.
emergency_of : Bytes8 → Emergency
emergency_of d = record {
  node = 0;
  error_code = uint16 d.b0 d.b1;
  error_register = d.b2;
  manufacturer = record { m0 = d.b3; m1 = d.b4; m2 = d.b5; m3 = d.b6; m4 = d.b7 };
}

-- `parseEMCY(f)`
unfoldable pub parse_emcy : Frame → Result (ℕ × Emergency)
unfolding emergency_of
parse_emcy f = do
  refuse (ltb f.len 8) (emcy_short f.len)
  (fc, node) ← parse_cob_id f.id
  refuse (fc != fc_emcy) (not_emcy f.id)
  ok (node, emergency_of f.payload)

-- `e.MarshalCANFrame()`
unfoldable pub marshal : Emergency → Result Frame
unfolding build_emcy
marshal e = build_emcy e.node (record e { node = 0 })

-- `e.UnmarshalCANFrame(f)`
unfoldable pub unmarshal : Emergency → Frame → Emergency × Option Error
unfolding parse_emcy
unmarshal e f = elim (parse_emcy f) [
  | ok (node, p) ↦ (record p { node = node }, none)
  | err x ↦ (e, some x)
]
