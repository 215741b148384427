-- ===== src/Cob.antt =====
-- canopen/ids.go: node identifiers, function codes and COB-IDs.
pub mod Laws
use canbus.Prelude.{
  ℕ, ◌+◌, ◌-◌, List, [], ◌∷◌, Option, none, some, ◌&&◌, ◌||◌, ltb, leb, ◌==◌, if◌then◌else◌, u8,
  u16, Error, Result, ok, err, invalid_node, not_standard, not_in_ranges,
}

-- `n.Validate()` of a NodeID, a uint8.
unfoldable pub validate_node : ℕ → Option Error
validate_node n = if ltb n 1 || ltb 127 n then some (invalid_node n) else none

-- `FunctionCode`, a uint16. FC_SYNC and FC_EMCY are one number.
abbrev pub FunctionCode : Type 0
FunctionCode = ℕ

abbrev pub fc_sync : FunctionCode
fc_sync = 0x080

abbrev pub fc_time : FunctionCode
fc_time = 0x100

abbrev pub fc_tpdo1 : FunctionCode
fc_tpdo1 = 0x180

abbrev pub fc_rpdo1 : FunctionCode
fc_rpdo1 = 0x200

abbrev pub fc_tpdo2 : FunctionCode
fc_tpdo2 = 0x280

abbrev pub fc_rpdo2 : FunctionCode
fc_rpdo2 = 0x300

abbrev pub fc_tpdo3 : FunctionCode
fc_tpdo3 = 0x380

abbrev pub fc_rpdo3 : FunctionCode
fc_rpdo3 = 0x400

abbrev pub fc_tpdo4 : FunctionCode
fc_tpdo4 = 0x480

abbrev pub fc_rpdo4 : FunctionCode
fc_rpdo4 = 0x500

abbrev pub fc_sdo_tx : FunctionCode
fc_sdo_tx = 0x580

abbrev pub fc_sdo_rx : FunctionCode
fc_sdo_rx = 0x600

abbrev pub fc_nmt : FunctionCode
fc_nmt = 0x000

abbrev pub fc_nmt_errctrl : FunctionCode
fc_nmt_errctrl = 0x700

abbrev pub fc_emcy : FunctionCode
fc_emcy = 0x080

-- `COBID(fc, node)`; the sum is a uint16.
unfoldable pub cob_id : FunctionCode → ℕ → ℕ
cob_id fc node = if fc == fc_nmt || fc == fc_time then fc else u16 (fc + node)

-- The ranges of the second switch of ParseCOBID, in the order of its cases.
abbrev pub range_bases : List FunctionCode
range_bases =
    fc_emcy ∷ fc_tpdo1 ∷ fc_rpdo1 ∷ fc_tpdo2 ∷ fc_rpdo2 ∷ fc_tpdo3 ∷ fc_rpdo3 ∷ fc_tpdo4 ∷ fc_rpdo4
    ∷ fc_sdo_tx ∷ fc_sdo_rx ∷ fc_nmt_errctrl ∷ []

-- The switch: `case u >= base && u <= base+0x7F: return base, NodeID(u - base), nil` for each base,
-- and the error as its default.
unfoldable pub parse_range : List FunctionCode → ℕ → Result (FunctionCode × ℕ)
parse_range [] u = err (not_in_ranges u)
parse_range (base ∷ bases) u =
    let rest = parse_range bases u in
    if leb base u && leb u (base + 0x7F) then ok (base, u8 (u - base)) else rest

-- `ParseCOBID(id)`
unfoldable pub parse_cob_id : ℕ → Result (FunctionCode × ℕ)
parse_cob_id id =
    let u = u16 id in
    if ltb 0x7FF id
    then err (not_standard id)
    else if u == fc_nmt
    then ok (fc_nmt, 0)
    else if u == fc_sync
    then ok (fc_sync, 0)
    else if u == fc_time
    then ok (fc_time, 0)
    else parse_range range_bases u
