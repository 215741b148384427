-- ===== src/Service/Matching.antt =====
-- The CANopen filters against ParseCOBID.
use canbus.Prelude.{
  ℕ, ◌*◌, ◌/◌, ◌%◌, ◌≤◌, ◌≡◌, refl, ◌↔◌, arith, true, false, not, ◌&&◌, ◌==◌, bit_and, none, ok,
}
use canbus.Prelude.Bits.{and_shifted, and_mask}
use canbus.Frame.{Frame}
use canbus.Filter.{passes, and_filter, standard_only, by_id, by_mask}
use canbus.Cob.{FunctionCode, validate_node, cob_id, parse_cob_id}
use canbus.Cob.Laws.{
  IsNodeCode, NodeCode_bounds, validate_node_bounds, cob_id-eq-add, parse_cob_id_iff,
}
use canbus.Service.{Service, heartbeat, code, any_filter, node_filter}

-- An 11-bit identifier under the mask 0x780.
and_0x780 : (id : ℕ) → id ≤ 0x7FF → bit_and id 0x780 ≡ id / 128 * 128
and_0x780 id h = ground (arith, and_shifted 7 id 15, and_mask 4 (id / 128))

code-IsNodeCode : (s : Service) → IsNodeCode (code s)
code-IsNodeCode heartbeat = refl
code-IsNodeCode _ = refl

any_filter_lem : (s : Service) → any_filter s ≡ and_filter standard_only (by_mask (code s) 0x780)
unfolding any_filter
any_filter_lem heartbeat = refl
any_filter_lem _ = refl

node_filter_lem :
    (s : Service) (node : ℕ)
    → node_filter s node ≡ and_filter standard_only (by_id (cob_id (code s) node))
unfolding node_filter
node_filter_lem heartbeat node = refl
node_filter_lem _ node = refl

range_passes :
    (fc : FunctionCode) (f : Frame)
    → IsNodeCode fc
    → f.id ≤ 0x7FF
    → passes (and_filter standard_only (by_mask fc 0x780)) f
      ≡ (not f.extended && (f.id / 128 * 128 == fc))
unfolding and_filter standard_only by_mask
range_passes fc f c h =
    let b = NodeCode_bounds fc c in ground (arith, and_0x780 f.id h, and_0x780 fc)

node_passes :
    (fc : FunctionCode) (node : ℕ) (f : Frame)
    → passes (and_filter standard_only (by_id (cob_id fc node))) f
      ≡ (not f.extended && (f.id == cob_id fc node))
unfolding and_filter standard_only by_id
node_passes fc node f = refl

passes_any :
    (s : Service) (f : Frame)
    → f.id ≤ 0x7FF
    → passes (any_filter s) f ≡ (not f.extended && (f.id / 128 * 128 == code s))
passes_any s f h = rw any_filter_lem (range_passes (code s) f (code-IsNodeCode s) h)

passes_node :
    (s : Service) (node : ℕ) (f : Frame)
    → passes (node_filter s node) f ≡ (not f.extended && (f.id == cob_id (code s) node))
passes_node s node f = rw node_filter_lem (node_passes (code s) node f)

-- The range filter of a service passes a frame with an 11-bit identifier exactly when the frame is
-- standard and ParseCOBID reads the service's function code from it, for some node.
pub any_filter_iff :
    (s : Service) (f : Frame)
    → f.id ≤ 0x7FF
    → (passes (any_filter s) f ≡ true)
      ↔ ((f.extended ≡ false) × ((node : ℕ) × (parse_cob_id f.id ≡ ok (code s, node))))
any_filter_iff s f h = (
  λ p. (
    ground (arith, passes_any s f h),
    (
      f.id % 128,
      (parse_cob_id_iff f.id (code s) (f.id % 128) (code-IsNodeCode s)).1
          (ground (arith, passes_any s f h)),
    ),
  ),
  λ q. ground (
    arith,
    passes_any s f h,
    (parse_cob_id_iff f.id (code s) q.1.0 (code-IsNodeCode s)).0 q.1.1,
    NodeCode_bounds (code s) (code-IsNodeCode s),
  ),
)

-- The filter of a service for a node from 1 to 127 passes a frame exactly when the frame is
-- standard and ParseCOBID reads that service's function code and that node from it.
pub node_filter_iff :
    (s : Service) (node : ℕ) (f : Frame)
    → validate_node node ≡ none
    → (passes (node_filter s node) f ≡ true)
      ↔ ((f.extended ≡ false) × (parse_cob_id f.id ≡ ok (code s, node)))
node_filter_iff s node f h =
    let bounds = validate_node_bounds node h in
    let sum = cob_id-eq-add (code s) node (code-IsNodeCode s) (omega arith) in
    let parses = parse_cob_id_iff f.id (code s) node (code-IsNodeCode s) in
    (
      λ p. (ground (arith, passes_node s node f), parses.1 (ground (arith, passes_node s node f))),
      λ q. ground (arith, passes_node s node f, parses.0 q.1),
    )
