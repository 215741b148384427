-- ===== src/Sdo/Client.antt =====
-- The SDOClient of canopen/sdo.go, what it is connected to, and its exchanges: one subscription,
-- one request and the wait for its answer.
use canbus.Prelude.{
  ℕ, Bool, true, false, Option, none, some, List, ltb, if◌then◌else◌, Error, Result, ok, err,
  closed, abort, forever,
}
pub use canbus.Prelude.Runs.{Run, continue, ◌>>=◌, ◌>>◌, lift}
use canbus.Frame.{Frame}
use canbus.Mux.{Subscriber, fresh, shut, take_frame}
use canbus.Mux.Delivery.{offers}
use canbus.Sdo.Segmented.{SdoAbort, parse_sdo_abort}

-- `ExpeditedMode`
pub data ExpeditedMode : Type 0 where
  spec classic : ExpeditedMode

-- `SDOClient` without its bus and mux. A timeout of 0 waits indefinitely.
pub record Client : Type 0 where
  pub node : ℕ
  pub timeout : ℕ
  pub expedited_mode : ExpeditedMode
  pub lenient_upload_expedited_only : Bool

-- `NewSDOClient(bus, node, mux)` with no option, and the options.
abbrev pub new_sdo_client : ℕ → Client
new_sdo_client node = record {
  node = node;
  timeout = 0;
  expedited_mode = spec;
  lenient_upload_expedited_only = false;
}

abbrev pub with_timeout : ℕ → Client → Client
with_timeout d c = record c { timeout = d }

abbrev pub with_expedited_mode : ExpeditedMode → Client → Client
with_expedited_mode m c = record c { expedited_mode = m }

abbrev pub with_lenient_upload : Client → Client
with_lenient_upload c = record c { lenient_upload_expedited_only = true }

-- The bus and what is behind it. After a request was sent, `arrive` says which frames the mux
-- receives before the client's wait ends, by a frame, by its timeout or by the end of the channel,
-- and `closes` whether the channel is closed by then.
pub record Link (W : Type 0) : Type 0 where
  pub send : W → Frame → W × Option Error
  pub arrive : W → W × List Frame
  pub closes : W → Bool

-- `if _, ab, ok := parseSDOAbort(rsp); ok { return *ab }`
abbrev pub refuse_parsed : Option (ℕ × SdoAbort) → Result (Unit {0})
refuse_parsed none = ok tt
refuse_parsed (some (node, ab)) = err (abort ab.index ab.subindex ab.code)

unfoldable pub refuse_abort : Frame → Result (Unit {0})
refuse_abort f = refuse_parsed (parse_sdo_abort f)

module _ {W : Type 0} (link : Link W) (c : Client) where
  -- `waitWithTimeout(ch, timeout)`, on what the channel has when the wait ends.
  unfoldable pub wait : Option (Result (Frame × Subscriber)) → Result Frame
  wait (some (ok (f, s))) = ok f
  wait (some (err e)) = err e
  wait none = if ltb 0 c.timeout then err closed else err forever

  -- The subscriber's channel when the wait ends.
  abbrev pub channel : (Frame → Bool) → ℕ → List Frame → Bool → Subscriber
  channel filter buffer frames closes =
      let s = offers frames (fresh 0 (some filter) buffer) in if closes then shut s else s

  -- Subscribe, send the request, and wait for the first frame that the filter passes.
  unfoldable pub exchange : (Frame → Bool) → ℕ → Frame → Run W Frame
  exchange filter buffer req w =
      let (w1, e) = link.send w req in
      let (w2, frames) = link.arrive w1 in
      elim e [
        | some x ↦ (w1, err x)
        | none ↦ (w2, wait (take_frame (channel filter buffer frames (link.closes w1))))
      ]

  -- The end of a round: `_, ab, ok := parseSDOAbort(rsp)`, with the frame passed on.
  abbrev pub answered : (Frame → Bool) → ℕ → Frame → Run W Frame
  answered filter buffer req = do
    rsp ← exchange filter buffer req
    lift (refuse_abort rsp)
    lift (ok rsp)
