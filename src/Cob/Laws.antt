-- ===== src/Cob/Laws.antt =====
-- COB-IDs, composed and taken apart.
use canbus.Prelude.{
  ℕ, ◌+◌, ◌-◌, ◌%◌, ◌≤◌, ◌<◌, ◌≡◌, ◌≢◌, ◌↔◌, inl, inr, arith, Bool, true, false, ◌||◌, ◌==◌,
  Bool-cases, ◌⊎◌, List, [], ◌∷◌, All, none, ok,
}
use canbus.Cob.{FunctionCode, range_bases, parse_range, validate_node, cob_id, parse_cob_id}

abbrev pub listed : List FunctionCode → FunctionCode → Bool
listed [] fc = false
listed (b ∷ bs) fc = b == fc || listed bs fc

-- The function codes to which a node identifier is added: all of ids.go but NMT and TIME.
abbrev pub IsNodeCode : FunctionCode → Type 0
IsNodeCode fc = listed range_bases fc ≡ true

abbrev pub IsAligned : FunctionCode → Type 0
IsAligned b = b % 0x80 ≡ 0

listed-IsAligned :
    (bs : List FunctionCode) (fc : FunctionCode)
    → All IsAligned bs
    → listed bs fc ≡ true
    → IsAligned fc
listed-IsAligned [] fc al l = cc
listed-IsAligned (b ∷ bs) fc (a, al) l = ground (arith, listed-IsAligned bs fc al)

parse_range-hit :
    (bs : List FunctionCode) (fc node : ℕ)
    → All IsAligned bs
    → listed bs fc ≡ true
    → node < 0x80
    → parse_range bs (fc + node) ≡ ok (fc, node)
unfolding parse_range
parse_range-hit [] fc node al l h = cc
parse_range-hit (b ∷ bs) fc node (a, al) l h = elim (Bool-cases (b == fc)) [
  | inl e ↦ ground arith
  | inr e ↦ ground (arith, listed-IsAligned bs fc al, parse_range-hit bs fc node al)
]

parse_range-inv :
    (bs : List FunctionCode) (u fc node : ℕ)
    → parse_range bs u ≡ ok (fc, node)
    → (listed bs fc ≡ true) × (u ≡ fc + node) × (node < 0x80)
unfolding parse_range
parse_range-inv [] u fc node h = cc
parse_range-inv (b ∷ bs) u fc node h = ground (arith, parse_range-inv bs u fc node)

pub NodeCode_bounds :
    (fc : FunctionCode) → IsNodeCode fc → (0x80 ≤ fc) × (fc ≤ 0x700) × (fc ≢ 0x100) × IsAligned fc
NodeCode_bounds fc c = ground arith

pub cob_id-eq-add :
    (fc : FunctionCode) (node : ℕ) → IsNodeCode fc → node < 0x100 → cob_id fc node ≡ fc + node
unfolding cob_id
cob_id-eq-add fc node c h = let b = NodeCode_bounds fc c in ground arith

pub validate_node_bounds : (node : ℕ) → validate_node node ≡ none → (1 ≤ node) × (node ≤ 127)
unfolding validate_node
validate_node_bounds node h = ground arith

bases-IsAligned : All IsAligned range_bases
bases-IsAligned = omega arith

parse_cob_id-add :
    (fc : FunctionCode) (node : ℕ)
    → IsNodeCode fc
    → node < 128
    → parse_cob_id (fc + node) ≡ ok (fc, node)
unfolding parse_cob_id
parse_cob_id-add fc node c lt =
    let b = NodeCode_bounds fc c in
    ground (arith, parse_range-hit range_bases fc node bases-IsAligned c (omega arith))

pub parse-cob_id :
    (fc : FunctionCode) (node : ℕ)
    → IsNodeCode fc
    → validate_node node ≡ none
    → parse_cob_id (cob_id fc node) ≡ ok (fc, node)
parse-cob_id fc node c h =
    let (lo, hi) = validate_node_bounds node h in
    rw (cob_id-eq-add fc node c (omega arith)) (parse_cob_id-add fc node c (omega arith))

pub cob_id-parse :
    (id : ℕ) (fc : FunctionCode) (node : ℕ)
    → parse_cob_id id ≡ ok (fc, node)
    → (cob_id fc node ≡ id) × (node < 128) × (id ≤ 0x7FF)
unfolding parse_cob_id cob_id
cob_id-parse id fc node h =
    ground (arith, parse_range-inv range_bases id fc node, NodeCode_bounds fc)

-- For a code that takes a node, ParseCOBID answers it exactly on the 128 identifiers of its range.
pub parse_cob_id_iff :
    (id fc node : ℕ)
    → IsNodeCode fc
    → (parse_cob_id id ≡ ok (fc, node)) ↔ ((id ≡ fc + node) × (node < 128))
parse_cob_id_iff id fc node c = (
  λ e. let (sum, lt, le) = cob_id-parse id fc node e in ground (arith, cob_id-eq-add fc node c),
  λ h. rw h.0 (parse_cob_id-add fc node c h.1),
)

-- The codes to which a node is added, by their numbers: the multiples of 0x80 up to 0x600 and
-- 0x700, but not NMT and TIME.
pub record TakesNode (fc : FunctionCode) : Type 0 where
  pub aligned : fc % 0x80 ≡ 0
  pub not_nmt : fc ≢ 0
  pub not_time : fc ≢ 0x100
  pub in_use : (fc ≤ 0x600) ⊎ (fc ≡ 0x700)

TakesNode-IsNodeCode : (fc : FunctionCode) → TakesNode fc → IsNodeCode fc
TakesNode-IsNodeCode fc t = ground (arith, t.aligned, t.not_nmt, t.not_time, t.in_use)

-- For each of the twelve codes that take a node (the multiples of 0x80 up to 0x600 and 0x700, but
-- not NMT and TIME), ParseCOBID answers an identifier by the code and a node exactly where COBID
-- composes the identifier from them and the node is below 128.
pub parse_cob_id-cob_id :
    (id fc node : ℕ)
    → TakesNode fc
    → (parse_cob_id id ≡ ok (fc, node)) ↔ ((cob_id fc node ≡ id) × (node < 128))
parse_cob_id-cob_id id fc node t =
    let c = TakesNode-IsNodeCode fc t in
    (
      λ e. let (sum, lt, le) = cob_id-parse id fc node e in (sum, lt),
      λ h. (parse_cob_id_iff id fc node c).1 (ground (arith, cob_id-eq-add fc node c)),
    )

pub parse_inside :
    (id fc : ℕ) → IsNodeCode fc → fc ≤ id → id < fc + 128 → parse_cob_id id ≡ ok (fc, id - fc)
parse_inside id fc c lo hi = (parse_cob_id_iff id fc (id - fc) c).1 (omega arith)

pub parse_outside :
    (id fc node : ℕ) → parse_cob_id id ≡ ok (fc, node) → IsNodeCode fc → (fc ≤ id) × (id < fc + 128)
parse_outside id fc node e c = omega (arith, (parse_cob_id_iff id fc node c).0 e)
