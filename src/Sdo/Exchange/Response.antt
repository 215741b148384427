-- ===== src/Sdo/Exchange/Response.antt =====
-- The answers of a node's SDO server among the frames that arrive, and an exchange that takes one.
use canbus.Prelude.{
  ℕ, ◌+◌, ◌<◌, ◌≡◌, ◌≢◌, refl, ap, ◌∙◌, arith, Bool, true, ◌&&◌, none, some, List, [], ◌∷◌,
  Bool-cases, Result-cases, inl, inr, ◌==◌, ok,
}
use canbus.Frame.{Frame}
use canbus.Cob.{parse_cob_id, fc_sdo_tx}
use canbus.Cob.Laws.{parse_cob_id_iff}
use canbus.Mux.Delivery.{passed}
use canbus.Sdo.{specifier}
use canbus.Sdo.Segmented.{sdo_server_filter_for_node, parse_sdo_abort}
use canbus.Sdo.Client.{Client, Link, answered}
use canbus.Sdo.Exchange.{answered-first}

-- An answer of a node's SDO server: its COB-ID, and 8 bytes.
abbrev pub is_response : ℕ → Frame → Bool
is_response node f = f.id == fc_sdo_tx + node && f.len == 8

-- The world after a request, when the wait for its answer ends.
abbrev pub after : {W : Type 0} → Link W → W → Frame → W
after link w req = (link.arrive (link.send w req).0).0

-- A narrower filter passes the same frames of those that the wider one passes.
pub passed-passed :
    (p q : Frame → Bool) (frames : List Frame)
    → ((f : Frame) → p f ≡ true → q f ≡ true)
    → passed (some p) frames ≡ passed (some p) (passed (some q) frames)
passed-passed p q [] h = refl
passed-passed p q (f ∷ frames) h = elim (Bool-cases (p f)) [
  | inl e ↦ rw (e, h f e, e) (ap (λ (r : List Frame). f ∷ r) (passed-passed p q frames h))
  | inr e ↦ elim (Bool-cases (q f)) [
    | inl x ↦ rw (e, x, e) (passed-passed p q frames h)
    | inr x ↦ rw (e, x) (passed-passed p q frames h)
  ]
]

module _ (node : ℕ) (match : Frame → Bool) (f : Frame) where
  pub server_passes :
      node < 128 → is_response node f ≡ true → sdo_server_filter_for_node node match f ≡ match f
  unfolding sdo_server_filter_for_node
  server_passes small h =
      let e : parse_cob_id f.id ≡ ok (fc_sdo_tx, node) =
        (parse_cob_id_iff f.id fc_sdo_tx node refl).1 (ground arith) in
      ground (arith, e)

  pub server_only : sdo_server_filter_for_node node match f ≡ true → is_response node f ≡ true
  unfolding sdo_server_filter_for_node
  server_only h = elim (Result-cases (parse_cob_id f.id)) [
    | inl ((fc, n), e) ↦
        let (code, same, whole) : (fc ≡ fc_sdo_tx) × (n ≡ node) × (f.len ≡ 8) = ground (arith, e) in
        let read : parse_cob_id f.id ≡ ok (fc_sdo_tx, node) = rw (← code, ← same) e in
        let sum = (parse_cob_id_iff f.id fc_sdo_tx node refl).0 read in ground arith
    | inr (x, e) ↦ absurd (ground (arith, e))
  ]

pub no_abort : (f : Frame) → specifier f.payload.b0 ≢ 4 → parse_sdo_abort f ≡ none
unfolding parse_sdo_abort
no_abort f h = elim (Result-cases (parse_cob_id f.id)) [
  | inl ((fc, n), e) ↦ ground (arith, e)
  | inr (x, e) ↦ ground (arith, e)
]

pub passed-first :
    (q : Frame → Bool) (frames rest : List Frame) (f : Frame)
    → passed (some q) frames ≡ f ∷ rest
    → q f ≡ true
passed-first q [] rest f e = cc
passed-first q (g ∷ frames) rest f e = elim (Bool-cases (q g)) [
  | inl p ↦ ground (arith, p, e)
  | inr p ↦ passed-first q frames rest f (ground (arith, p, e))
]

module _ {W : Type 0} (link : Link W) (c : Client) where
  pub round_ok :
      (filter : Frame → Bool) (req : Frame) (w : W) (rsp : Frame) (rest : List Frame)
      → ((f : Frame) → filter f ≡ true → is_response c.node f ≡ true)
      → (link.send w req).1 ≡ none
      → passed (some (is_response c.node)) (link.arrive (link.send w req).0).1 ≡ rsp ∷ rest
      → filter rsp ≡ true
      → specifier rsp.payload.b0 ≢ 4
      → answered link c filter 1 req w ≡ (after link w req, ok rsp)
  round_ok filter req w rsp rest only sent first takes fine =
      let frames = (link.arrive (link.send w req).0).1 in
      answered-first link c filter 0 req w rsp (passed (some filter) rest) sent
        (passed-passed filter (is_response c.node) frames only
          ∙ ap (passed (some filter)) first
          ∙ rw takes)
        (no_abort rsp fine)
