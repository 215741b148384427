-- ===== src/Service.antt =====
-- canopen/filters.go: the filters of the CANopen services, by COB-ID range and by node.
pub mod Matching
use canbus.Prelude.{ℕ}
use canbus.Filter.{FrameFilter, and_filter, standard_only, by_id, by_mask}
use canbus.Cob.{
  FunctionCode, cob_id, fc_sync, fc_time, fc_tpdo1, fc_rpdo1, fc_tpdo2, fc_rpdo2, fc_tpdo3,
  fc_rpdo3, fc_tpdo4, fc_rpdo4, fc_sdo_tx, fc_sdo_rx, fc_nmt, fc_nmt_errctrl, fc_emcy,
}

unfoldable pub canopen_nmt : FrameFilter
canopen_nmt = and_filter standard_only (by_id fc_nmt)

unfoldable pub canopen_sync : FrameFilter
canopen_sync = and_filter standard_only (by_id fc_sync)

unfoldable pub canopen_time : FrameFilter
canopen_time = and_filter standard_only (by_id fc_time)

unfoldable pub canopen_heartbeat_any : FrameFilter
canopen_heartbeat_any = and_filter standard_only (by_mask fc_nmt_errctrl 0x780)

unfoldable pub canopen_heartbeat : ℕ → FrameFilter
canopen_heartbeat node = and_filter standard_only (by_id (cob_id fc_nmt_errctrl node))

unfoldable pub canopen_emcy_any : FrameFilter
canopen_emcy_any = and_filter standard_only (by_mask fc_emcy 0x780)

unfoldable pub canopen_emcy : ℕ → FrameFilter
canopen_emcy node = and_filter standard_only (by_id (cob_id fc_emcy node))

unfoldable pub canopen_sdo_request_any : FrameFilter
canopen_sdo_request_any = and_filter standard_only (by_mask fc_sdo_rx 0x780)

unfoldable pub canopen_sdo_request : ℕ → FrameFilter
canopen_sdo_request node = and_filter standard_only (by_id (cob_id fc_sdo_rx node))

unfoldable pub canopen_sdo_response_any : FrameFilter
canopen_sdo_response_any = and_filter standard_only (by_mask fc_sdo_tx 0x780)

unfoldable pub canopen_sdo_response : ℕ → FrameFilter
canopen_sdo_response node = and_filter standard_only (by_id (cob_id fc_sdo_tx node))

unfoldable pub canopen_tpdo1_any : FrameFilter
canopen_tpdo1_any = and_filter standard_only (by_mask fc_tpdo1 0x780)

unfoldable pub canopen_tpdo1 : ℕ → FrameFilter
canopen_tpdo1 node = and_filter standard_only (by_id (cob_id fc_tpdo1 node))

unfoldable pub canopen_tpdo2_any : FrameFilter
canopen_tpdo2_any = and_filter standard_only (by_mask fc_tpdo2 0x780)

unfoldable pub canopen_tpdo2 : ℕ → FrameFilter
canopen_tpdo2 node = and_filter standard_only (by_id (cob_id fc_tpdo2 node))

unfoldable pub canopen_tpdo3_any : FrameFilter
canopen_tpdo3_any = and_filter standard_only (by_mask fc_tpdo3 0x780)

unfoldable pub canopen_tpdo3 : ℕ → FrameFilter
canopen_tpdo3 node = and_filter standard_only (by_id (cob_id fc_tpdo3 node))

unfoldable pub canopen_tpdo4_any : FrameFilter
canopen_tpdo4_any = and_filter standard_only (by_mask fc_tpdo4 0x780)

unfoldable pub canopen_tpdo4 : ℕ → FrameFilter
canopen_tpdo4 node = and_filter standard_only (by_id (cob_id fc_tpdo4 node))

unfoldable pub canopen_rpdo1_any : FrameFilter
canopen_rpdo1_any = and_filter standard_only (by_mask fc_rpdo1 0x780)

unfoldable pub canopen_rpdo1 : ℕ → FrameFilter
canopen_rpdo1 node = and_filter standard_only (by_id (cob_id fc_rpdo1 node))

unfoldable pub canopen_rpdo2_any : FrameFilter
canopen_rpdo2_any = and_filter standard_only (by_mask fc_rpdo2 0x780)

unfoldable pub canopen_rpdo2 : ℕ → FrameFilter
canopen_rpdo2 node = and_filter standard_only (by_id (cob_id fc_rpdo2 node))

unfoldable pub canopen_rpdo3_any : FrameFilter
canopen_rpdo3_any = and_filter standard_only (by_mask fc_rpdo3 0x780)

unfoldable pub canopen_rpdo3 : ℕ → FrameFilter
canopen_rpdo3 node = and_filter standard_only (by_id (cob_id fc_rpdo3 node))

unfoldable pub canopen_rpdo4_any : FrameFilter
canopen_rpdo4_any = and_filter standard_only (by_mask fc_rpdo4 0x780)

unfoldable pub canopen_rpdo4 : ℕ → FrameFilter
canopen_rpdo4 node = and_filter standard_only (by_id (cob_id fc_rpdo4 node))

-- The services that have a filter for their range and one for a node.
pub data Service : Type 0 where
  heartbeat emcy sdo_request sdo_response tpdo1 tpdo2 tpdo3 tpdo4 rpdo1 rpdo2 rpdo3 rpdo4 : Service

abbrev pub code : Service → FunctionCode
code heartbeat = fc_nmt_errctrl
code emcy = fc_emcy
code sdo_request = fc_sdo_rx
code sdo_response = fc_sdo_tx
code tpdo1 = fc_tpdo1
code tpdo2 = fc_tpdo2
code tpdo3 = fc_tpdo3
code tpdo4 = fc_tpdo4
code rpdo1 = fc_rpdo1
code rpdo2 = fc_rpdo2
code rpdo3 = fc_rpdo3
code rpdo4 = fc_rpdo4

unfoldable pub any_filter : Service → FrameFilter
unfolding canopen_heartbeat_any canopen_emcy_any canopen_sdo_request_any canopen_sdo_response_any
    canopen_tpdo1_any canopen_tpdo2_any canopen_tpdo3_any canopen_tpdo4_any canopen_rpdo1_any
    canopen_rpdo2_any canopen_rpdo3_any canopen_rpdo4_any
any_filter heartbeat = canopen_heartbeat_any
any_filter emcy = canopen_emcy_any
any_filter sdo_request = canopen_sdo_request_any
any_filter sdo_response = canopen_sdo_response_any
any_filter tpdo1 = canopen_tpdo1_any
any_filter tpdo2 = canopen_tpdo2_any
any_filter tpdo3 = canopen_tpdo3_any
any_filter tpdo4 = canopen_tpdo4_any
any_filter rpdo1 = canopen_rpdo1_any
any_filter rpdo2 = canopen_rpdo2_any
any_filter rpdo3 = canopen_rpdo3_any
any_filter rpdo4 = canopen_rpdo4_any

unfoldable pub node_filter : Service → ℕ → FrameFilter
unfolding canopen_heartbeat canopen_emcy canopen_sdo_request canopen_sdo_response canopen_tpdo1
    canopen_tpdo2 canopen_tpdo3 canopen_tpdo4 canopen_rpdo1 canopen_rpdo2 canopen_rpdo3
    canopen_rpdo4
node_filter heartbeat node = canopen_heartbeat node
node_filter emcy node = canopen_emcy node
node_filter sdo_request node = canopen_sdo_request node
node_filter sdo_response node = canopen_sdo_response node
node_filter tpdo1 node = canopen_tpdo1 node
node_filter tpdo2 node = canopen_tpdo2 node
node_filter tpdo3 node = canopen_tpdo3 node
node_filter tpdo4 node = canopen_tpdo4 node
node_filter rpdo1 node = canopen_rpdo1 node
node_filter rpdo2 node = canopen_rpdo2 node
node_filter rpdo3 node = canopen_rpdo3 node
node_filter rpdo4 node = canopen_rpdo4 node
