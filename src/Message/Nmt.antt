-- ===== src/Message/Nmt.antt =====
-- canopen/nmt.go: NMT commands.
use canbus.Prelude.{
  ℕ, Option, none, some, ltb, ◌!=◌, Error, Result, ok, err, ◌>>◌, refuse, not_nmt, nmt_short,
}
use canbus.Frame.{Frame, zero_frame}
use canbus.Frame.Payload.{zeros}
use canbus.Cob.{cob_id, fc_nmt}

-- `NMTCommand` is a uint8; these are its named values.
abbrev pub nmt_start : ℕ
nmt_start = 0x01

abbrev pub nmt_stop : ℕ
nmt_stop = 0x02

abbrev pub nmt_enter_pre_operational : ℕ
nmt_enter_pre_operational = 0x80

abbrev pub nmt_reset_node : ℕ
nmt_reset_node = 0x81

abbrev pub nmt_reset_communication : ℕ
nmt_reset_communication = 0x82

-- `NMT`
pub record Nmt : Type 0 where
  pub command : ℕ
  pub node : ℕ

-- `buildNMT(cmd, node)`
unfoldable pub build_nmt : ℕ → ℕ → Frame
build_nmt cmd node = record zero_frame {
  id = cob_id fc_nmt 0;
  len = 2;
  payload = record zeros { b0 = cmd; b1 = node };
}

-- `parseNMT(f)`
unfoldable pub parse_nmt : Frame → Result (ℕ × ℕ)
parse_nmt f = do
  refuse (f.id != cob_id fc_nmt 0) (not_nmt f.id)
  refuse (ltb f.len 2) (nmt_short f.len)
  ok (f.payload.b0, f.payload.b1)

-- `n.MarshalCANFrame()`
unfoldable pub marshal : Nmt → Result Frame
unfolding build_nmt
marshal n = ok (build_nmt n.command n.node)

-- `n.UnmarshalCANFrame(f)`
unfoldable pub unmarshal : Nmt → Frame → Nmt × Option Error
unfolding parse_nmt
unmarshal n f = elim (parse_nmt f) [
  | ok (cmd, node) ↦ (record { command = cmd; node = node }, none)
  | err e ↦ (n, some e)
]
