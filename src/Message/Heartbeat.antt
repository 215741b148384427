-- ===== src/Message/Heartbeat.antt =====
-- canopen/heartbeat.go: heartbeats, and the filter of SubscribeHeartbeats.
use canbus.Prelude.{
  ℕ, Bool, false, ◌&&◌, ◌||◌, not, Option, none, some, List, [], ◌∷◌, ltb, ◌!=◌, Error, Result, ok,
  err, ◌>>=◌, ◌>>◌, refuse, check, not_heartbeat, heartbeat_short,
}
use canbus.Frame.{Frame, zero_frame}
use canbus.Frame.Payload.{zeros}
use canbus.Cob.{cob_id, parse_cob_id, validate_node, fc_nmt_errctrl}

-- `NMTState` is a uint8; these are its named values.
abbrev pub state_bootup : ℕ
state_bootup = 0x00

abbrev pub state_stopped : ℕ
state_stopped = 0x04

abbrev pub state_operational : ℕ
state_operational = 0x05

abbrev pub state_pre_operational : ℕ
state_pre_operational = 0x7F

-- `Heartbeat`
pub record Heartbeat : Type 0 where
  pub node : ℕ
  pub state : ℕ

-- The frame that buildHeartbeat fills in.
abbrev pub heartbeat_frame : ℕ → ℕ → Frame
heartbeat_frame node state = record zero_frame {
  id = cob_id fc_nmt_errctrl node;
  len = 1;
  payload = record zeros { b0 = state };
}

-- `buildHeartbeat(node, state)`
unfoldable pub build_heartbeat : ℕ → ℕ → Result Frame
build_heartbeat node state = do check (validate_node node); ok (heartbeat_frame node state)

-- `parseHeartbeat(f)`
unfoldable pub parse_heartbeat : Frame → Result (ℕ × ℕ)
parse_heartbeat f = do
  refuse (ltb f.len 1) (heartbeat_short f.len)
  (fc, node) ← parse_cob_id f.id
  refuse (fc != fc_nmt_errctrl) (not_heartbeat f.id)
  ok (node, f.payload.b0)

-- `h.MarshalCANFrame()`
unfoldable pub marshal : Heartbeat → Result Frame
unfolding build_heartbeat
marshal h = build_heartbeat h.node h.state

-- `h.UnmarshalCANFrame(f)`
unfoldable pub unmarshal : Heartbeat → Frame → Heartbeat × Option Error
unfolding parse_heartbeat
unmarshal h f = elim (parse_heartbeat f) [
  | ok (node, state) ↦ (record { node = node; state = state }, none)
  | err e ↦ (h, some e)
]

-- `nodeFilter != nil && node != *nodeFilter`
abbrev pub other_node : Option ℕ → ℕ → Bool
other_node none node = false
other_node (some wanted) node = node != wanted

-- The filter that SubscribeHeartbeats hands to the mux.
unfoldable pub heartbeat_filter : Option ℕ → Frame → Bool
heartbeat_filter node_filter f = elim (parse_cob_id f.id) [
  | err e ↦ false
  | ok (fc, node) ↦ not (fc != fc_nmt_errctrl || ltb f.len 1) && not (other_node node_filter node)
]

-- The goroutine of SubscribeHeartbeats: the heartbeats that it sends on for the frames of its
-- channel.
unfoldable pub heartbeats : List Frame → List Heartbeat
heartbeats [] = []
heartbeats (f ∷ frames) =
    let rest = heartbeats frames in
    elim (parse_heartbeat f) [
      | ok (node, state) ↦ record { node = node; state = state } ∷ rest
      | err e ↦ rest
    ]
