-- ===== src/Sdo/Exchange/Ending.antt =====
-- How an exchange ends: by the first frame that its filter passes, or by an error.
use canbus.Prelude.{
  ℕ, ◌<◌, ◌≡◌, ◌≢◌, refl, ap, ◌∙◌, arith, Bool, true, ◌&&◌, ◌||◌, none, some, List, [], ◌∷◌,
  Bool-cases, inl, inr, ltb, if◌then◌else◌, Error, Result, ok, err, closed, forever, abort, uint32,
}
use canbus.Frame.{Frame}
use canbus.Cob.{parse_cob_id, fc_sdo_tx}
use canbus.Cob.Laws.{parse_cob_id_iff}
use canbus.Mux.Delivery.{passed}
use canbus.Sdo.{specifier, index_of, subindex_of}
use canbus.Sdo.Segmented.{parse_sdo_abort, sdo_server_filter_for_node}
use canbus.Sdo.Client
use canbus.Sdo.Client.{Client, Link, Run, continue, answered}
use canbus.Sdo.Exchange.{answered-first, answered-abort, answered-refused, answered-silent}
use canbus.Sdo.Exchange.Response.{
  is_response, after, no_abort, passed-first, server_passes, server_only,
}

-- The first frame behind a request, sent without an error, that the filter passes.
abbrev pub SettledBy : {W : Type 0} → Link W → (Frame → Bool) → W → Frame → Frame → Type 0
SettledBy link pass w req rsp =
    ((link.send w req).1 ≡ none)
    × ((rest : List Frame) × (passed (some pass) (link.arrive (link.send w req).0).1 ≡ rsp ∷ rest))

-- What can come of a request but the answer that it wants: the bus refuses it, the device aborts, or no
-- answer arrives while the client waits.
pub data Ending : Type 0 where
  refused : Error → Ending
  aborted : Frame → Ending
  silent : Ending

abbrev pub Ends : {W : Type 0} → Link W → (Frame → Bool) → W → Frame → Ending → Type 0
Ends link pass w req (refused e) = (link.send w req).1 ≡ some e
Ends link pass w req (aborted rsp) = SettledBy link pass w req rsp × (specifier rsp.payload.b0 ≡ 4)
Ends link pass w req silent =
    ((link.send w req).1 ≡ none) × (passed (some (pass)) (link.arrive (link.send w req).0).1 ≡ [])

-- The abort that a frame carries.
abbrev pub carried : Frame → Error
carried f =
    abort (index_of f) (subindex_of f) (uint32 f.payload.b4 f.payload.b5 f.payload.b6 f.payload.b7)

-- The world and the result with which the method ends. Without a timeout, and while the channel is
-- open, it waits for ever.
abbrev pub ended : {W A : Type 0} → Link W → Client → W → Frame → Ending → W × Result A
ended link c w req (refused e) = ((link.send w req).0, err e)
ended link c w req (aborted rsp) = (after link w req, err (carried rsp))
ended link c w req silent = (
  after link w req,
  err (if ltb 0 c.timeout || link.closes (link.send w req).0 then closed else forever),
)

pub server_filter :
    (node : ℕ) (match : Frame → Bool) (f : Frame)
    → node < 128
    → sdo_server_filter_for_node node match f ≡ (is_response node f && match f)
server_filter node match f small = elim (Bool-cases (is_response node f)) [
  | inl e ↦ server_passes node match f small e ∙ rw e refl
  | inr e ↦ elim (Bool-cases (sdo_server_filter_for_node node match f)) [
    | inl p ↦ absurd (ground (arith, server_only node match f p, e))
    | inr p ↦ p ∙ rw e refl
  ]
]

pub abort_found :
    (node : ℕ) (f : Frame)
    → node < 128
    → is_response node f ≡ true
    → specifier f.payload.b0 ≡ 4
    → parse_sdo_abort f
      ≡ some (
        node,
        record {
          index = index_of f;
          subindex = subindex_of f;
          code = uint32 f.payload.b4 f.payload.b5 f.payload.b6 f.payload.b7;
        },
      )
unfolding parse_sdo_abort
abort_found node f small r s =
    let e : parse_cob_id f.id ≡ ok (fc_sdo_tx, node) =
      (parse_cob_id_iff f.id fc_sdo_tx node refl).1 (ground arith) in
    ground (arith, e, s)

continue-ended :
    {W A B : Type 0} (link : Link W) (c : Client) (k : A → Run W B) (w : W) (req : Frame)
    (ending : Ending)
    → continue k (ended link c w req ending) ≡ ended link c w req ending
continue-ended link c k w req (refused e) = refl
continue-ended link c k w req (aborted rsp) = refl
continue-ended link c k w req silent = refl

pub bind-Ends :
    {W A B : Type 0} (link : Link W) (c : Client) (m : Run W A) (k : A → Run W B) (w : W)
    (req : Frame) (ending : Ending)
    → m w ≡ ended link c w req ending
    → Client.◌>>=◌ m k w ≡ ended link c w req ending
bind-Ends link c m k w req ending h = ap (continue k) h ∙ continue-ended link c k w req ending

module _ {W : Type 0} (link : Link W) (c : Client) (pass : Frame → Bool) (req : Frame) (w : W) where
  pub answered-settled :
      (rsp : Frame)
      → SettledBy link pass w req rsp
      → specifier rsp.payload.b0 ≢ 4
      → answered link c pass 1 req w ≡ (after link w req, ok rsp)
  answered-settled rsp (sent, (rest, first)) fine =
      answered-first link c pass 0 req w rsp rest sent first (no_abort rsp fine)

  pub answered-Ends :
      (ending : Ending)
      → c.node < 128
      → ((f : Frame) → pass f ≡ true → is_response c.node f ≡ true)
      → Ends link pass w req ending
      → answered link c pass 1 req w ≡ ended link c w req ending
  answered-Ends (refused e) small only h = answered-refused link c pass 1 req w e h
  answered-Ends (aborted rsp) small only ((sent, (rest, first)), is_abort) =
      answered-abort link c pass 0 req w rsp rest c.node _ sent first
        (abort_found c.node rsp small (only rsp (passed-first pass _ rest rsp first)) is_abort)
  answered-Ends silent small only (sent, quiet) = answered-silent link c pass 0 req w sent quiet
