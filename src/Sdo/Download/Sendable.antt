-- ===== src/Sdo/Download/Sendable.antt =====
-- The requests of Download against Go's types and Validate.
use canbus.Prelude.{
  ℕ, zero, suc, ◌<◌, ◌≤◌, ◌≡◌, refl, arith, bit_xor, Bool, none, List, [], ◌∷◌, length, take, drop,
  All, All-take, All-drop, IsU8, IsU16, sym, ◌++◌, byte_of, u32, leb, Result, ok, err, ◌>>=◌, true,
  false, if◌then◌else◌,
}
use mathlib.Core.Path.{subst}
use canbus.Frame.{Frame, IsFrame, validate}
use canbus.Frame.Payload.{Bytes8, IsBytes8, copy_at, copy_at-IsBytes8, front-IsBytes8}
use canbus.Cob.{cob_id}
use canbus.Sdo.Expedited.{head, request}
use canbus.Sdo.Expedited.Names.{Requests}
use canbus.Sdo.Segmented.{build_sdo_download_initiate_segmented, build_sdo_download_segment}
use canbus.Sdo.Segmented.RoundTrip.{segment_command-IsU8}
use canbus.Sdo.Client.{Client, Link, Run, continue, answered}
use canbus.Sdo.Exchange.{recorded, answered-log}
use canbus.Sdo.Download.{expedited_request, download}
use canbus.Sdo.Download.Wire.{planned, seg_len, is_last, length-seg}
use canbus.Sdo.Download.Script.{
  settles, send_each, run_script, download-script, script, requests, expedited_request-Requests,
}

-- A frame of Go's types that Validate accepts.
pub record IsSendable (f : Frame) : Type 0 where
  pub typed : IsFrame f
  pub valid : validate f ≡ none

request-IsSendable : (node : ℕ) (d : Bytes8) → node < 128 → IsBytes8 d → IsSendable (request node d)
unfolding cob_id validate
request-IsSendable node d small h = record {
  typed = record { id_fits = ground arith; len_fits = omega arith; bytes_fit = h };
  valid = ground arith;
}

expedited-IsSendable :
    (node index subindex : ℕ) (bytes : List ℕ) (req : Frame)
    → node < 128
    → IsU8 subindex
    → All IsU8 bytes
    → Requests node index subindex bytes req
    → IsSendable req
expedited-IsSendable node index subindex bytes req small s h (cmd, (spec, c), same) =
    subst IsSendable same (
      request-IsSendable node (copy_at 4 bytes (head cmd index subindex)) small (
        copy_at-IsBytes8 4 bytes (head cmd index subindex) h (
          front-IsBytes8 cmd (byte_of index 0) (byte_of index 1) subindex c (omega arith)
            (omega arith) s)))

initiate-IsSendable :
    (node index subindex size : ℕ)
    → node < 128
    → IsU8 subindex
    → IsSendable (build_sdo_download_initiate_segmented node index subindex size)
unfolding build_sdo_download_initiate_segmented
initiate-IsSendable node index subindex size small s = request-IsSendable node _ small (record {
  b0_fits = omega arith;
  b1_fits = omega arith;
  b2_fits = omega arith;
  b3_fits = s;
  b4_fits = omega arith;
  b5_fits = omega arith;
  b6_fits = omega arith;
  b7_fits = omega arith;
})

segment-IsSendable :
    (node : ℕ) (bytes : List ℕ) (toggle : ℕ) (last : Bool)
    → node < 128
    → length bytes ≤ 7
    → All IsU8 bytes
    → IsSendable (build_sdo_download_segment node bytes toggle last)
unfolding build_sdo_download_segment
segment-IsSendable node bytes toggle last small short h =
    let cmd = segment_command-IsU8 node bytes toggle last short in
    request-IsSendable node _ small (
      copy_at-IsBytes8 1 bytes _ h
        (front-IsBytes8 _ 0 0 0 cmd (omega arith) (omega arith) (omega arith)))

planned-IsSendable :
    (node fuel : ℕ) (bytes : List ℕ) (toggle : ℕ)
    → node < 128
    → All IsU8 bytes
    → All IsSendable (planned node fuel bytes toggle)
unfolding planned
planned-IsSendable node fuel [] toggle small h = tt
planned-IsSendable node zero (b ∷ bs) toggle small h = tt
planned-IsSendable node (suc fuel) (b ∷ bs) toggle small h =
    let bytes : List ℕ = b ∷ bs in
    let n : ℕ = seg_len bytes in
    (
      segment-IsSendable node (take n bytes) toggle (is_last bytes) small
          (rw (length-seg bytes) (ground arith)) (All-take IsU8 n bytes h),
      planned-IsSendable node fuel (drop n bytes) (bit_xor toggle 1) small
          (All-drop IsU8 n bytes h),
    )

abbrev IfOk : {A : Type 0} → (A → Type 0) → Result A → Type 0
IfOk P (ok a) = P a
IfOk P (err e) = Unit {0}

script-IfOk :
    {W : Type 0} (link : Link W) (c : Client) (index subindex : ℕ) (bytes : List ℕ)
    → c.node < 128
    → IsU8 subindex
    → All IsU8 bytes
    → IfOk (All IsSendable) (script link c index subindex bytes)
unfolding script
script-IfOk link c index subindex bytes small s h = by_size (leb (length bytes) 4)
  where
    expedited :
        (r : Result Frame)
        → expedited_request link c index subindex bytes ≡ r
        → IfOk (All IsSendable) (r >>= (λ req. ok (req ∷ [])))
    expedited (ok req) e = (
      expedited-IsSendable c.node index subindex bytes req small s h
          (expedited_request-Requests link c index subindex bytes req e),
      tt,
    )
    expedited (err x) e = tt

    by_size :
        (short : Bool)
        → IfOk (All IsSendable) (
            if short
            then expedited_request link c index subindex bytes >>= (λ req. ok (req ∷ []))
            else ok (requests link c index subindex bytes))
    by_size true = expedited (expedited_request link c index subindex bytes) refl
    by_size false = (
      initiate-IsSendable c.node index subindex (u32 (length bytes)) small s,
      planned-IsSendable c.node (length bytes) bytes 0 small h,
    )

-- Every request of the list is sendable.
pub script-IsSendable :
    {W : Type 0} (link : Link W) (c : Client) (index subindex : ℕ) (bytes : List ℕ)
    (reqs : List Frame)
    → c.node < 128
    → IsU8 subindex
    → All IsU8 bytes
    → script link c index subindex bytes ≡ ok reqs
    → All IsSendable reqs
script-IsSendable link c index subindex bytes reqs small s h e =
    subst (IfOk (All IsSendable)) e (script-IfOk link c index subindex bytes small s h)

module _ {W : Type 0} (link : Link W) (c : Client) where
  -- What a run has put on the bus.
  abbrev log_of : {A : Type 0} → (W × List Frame) × Result A → List Frame
  log_of r = r.0.1

  All-snoc :
      (log : List Frame) (f : Frame)
      → All IsSendable log
      → IsSendable f
      → All IsSendable (log ++ (f ∷ []))
  All-snoc [] f h s = (s, tt)
  All-snoc (g ∷ log) f (g_ok, h) s = (g_ok, All-snoc log f h s)

  -- A step that may go on leaves a log of sendable frames.
  continue-IsSendable :
      (k : Frame → Run (W × List Frame) (Unit {0})) (r : (W × List Frame) × Result Frame)
      → All IsSendable (log_of r)
      → ((rsp : Frame) (s : W × List Frame)
          → All IsSendable s.1
          → All IsSendable (log_of (k rsp s)))
      → All IsSendable (log_of (continue k r))
  continue-IsSendable k (s, ok rsp) h more = more rsp s h
  continue-IsSendable k (s, err e) h more = h

  send_each-IsSendable :
      (reqs : List Frame) (s : W × List Frame)
      → All IsSendable reqs
      → All IsSendable s.1
      → All IsSendable (log_of (send_each (recorded link) c reqs s))
  unfolding send_each
  send_each-IsSendable [] s valid h = h
  send_each-IsSendable (req ∷ reqs) (w, log) (v, valid) h =
      let round = answered (recorded link) c (settles c.node req) 1 req (w, log) in
      continue-IsSendable (λ rsp. send_each (recorded link) c reqs) round
        (subst (All IsSendable) (sym (answered-log link c (settles c.node req) 1 req w log))
          (All-snoc log req h v))
        (λ rsp t. send_each-IsSendable reqs t valid)

  -- Whatever comes of a download of bytes below 256 to a node below 128, a 16-bit index and an 8-bit
  -- subindex, in either encoding and of any length, and whatever arrives in between: every frame
  -- that it gives to Send is a frame of Go's types that Validate accepts.
  pub download-IsSendable :
      (index subindex : ℕ) (bytes : List ℕ) (w : W)
      → c.node < 128
      → IsU16 index
      → IsU8 subindex
      → All IsU8 bytes
      → All IsSendable (download (recorded link) c index subindex bytes (w, [])).0.1
  download-IsSendable index subindex bytes w small fits s h =
      let l = recorded link in
      subst (λ (r : (W × List Frame) × Result (Unit {0})). All IsSendable (log_of r))
        (sym (download-script l c index subindex bytes (w, []) small fits))
        (by_script (script l c index subindex bytes)
          (script-IfOk l c index subindex bytes small s h))
    where
      by_script :
          (r : Result (List Frame))
          → IfOk (All IsSendable) r
          → All IsSendable (log_of (run_script (recorded link) c r (w, [])))
      by_script (ok reqs) valid = send_each-IsSendable reqs (w, []) valid tt
      by_script (err e) valid = tt
