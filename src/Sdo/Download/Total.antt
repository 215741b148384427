-- ===== src/Sdo/Download/Total.antt =====
-- The fuel of Download, and how its exchanges end.
use canbus.Prelude.{
  ℕ, zero, suc, ◌≤◌, ◌≢◌, arith, bit_xor, Bool, true, false, Option, none, some, List, [], ◌∷◌,
  length, length-drop, take, drop, u32, Option-cases, inl, inr, Result, ok, err, stuck, leb,
  if◌then◌else◌,
}
use canbus.Frame.{Frame}
use canbus.Mux.{Subscriber, take_frame}
use canbus.Cob.{validate_node}
use canbus.Sdo.Expedited.{sdo_expedited_download, sdo_expedited_download_classic}
use canbus.Sdo.Segmented.{SdoAbort, parse_sdo_abort}
use canbus.Sdo.Client.{
  ExpeditedMode, spec, classic, Client, Link, Run, continue, lift, wait, channel, exchange,
  answered, refuse_parsed, refuse_abort,
}
use canbus.Sdo.Client
use canbus.Sdo.Acks.{expedited_ack, initiate_ack, segment_ack}
use canbus.Sdo.Segmented.{build_sdo_download_initiate_segmented, build_sdo_download_segment}
use canbus.Sdo.Download.{
  expedited_request, download_expedited, download_segments, download_segmented, download,
}
use canbus.Sdo.Download.Wire.{seg_len, is_last}

-- A method that did not run out of fuel.
abbrev pub IsSettled : {W A : Type 0} → W × Result A → Type 0
IsSettled r = r.1 ≢ err stuck

continue-IsSettled :
    {W A B : Type 0} (f : A → Run W B) (r : W × Result A)
    → IsSettled r
    → ((a : A) (w : W) → IsSettled (f a w))
    → IsSettled (continue f r)
continue-IsSettled f (w, ok a) h k = k a w
continue-IsSettled f (w, err e) h k = λ p. h (cc)

-- The errors of the environment are not the model's `stuck`.
abbrev pub IsReal : {W : Type 0} → Link W → Type 0
IsReal {W} link = (w : W) (f : Frame) → (link.send w f).1 ≢ some stuck

refuse_abort-ne-stuck : (f : Frame) → refuse_abort f ≢ err stuck
unfolding refuse_abort
refuse_abort-ne-stuck f = go (parse_sdo_abort f)
  where
    go : (o : Option (ℕ × SdoAbort)) → refuse_parsed o ≢ err stuck
    go none = λ p. cc
    go (some (node, ab)) = λ p. cc

module _ {W : Type 0} (link : Link W) (c : Client) where
  wait-ne-stuck : (s : Subscriber) → wait link c (take_frame s) ≢ err stuck
  unfolding wait take_frame
  wait-ne-stuck s = ground arith

  exchange-IsSettled :
      (filter : Frame → Bool) (buffer : ℕ) (req : Frame) (w : W)
      → IsReal link
      → IsSettled (exchange link c filter buffer req w)
  unfolding exchange
  exchange-IsSettled filter buffer req w real = elim (Option-cases (link.send w req).1) [
    | inl e ↦ rw (e, exchange) (wait-ne-stuck _)
    | inr (x, e) ↦ rw (e, exchange) (λ p. real w req (cc))
  ]

  answered-IsSettled :
      (filter : Frame → Bool) (buffer : ℕ) (req : Frame) (w : W)
      → IsReal link
      → IsSettled (answered link c filter buffer req w)
  answered-IsSettled filter buffer req w real =
      continue-IsSettled (λ (rsp : Frame). Client.◌>>◌ (lift (refuse_abort rsp)) (lift (ok rsp)))
        (exchange link c filter buffer req w) (exchange-IsSettled filter buffer req w real)
        (λ (rsp : Frame) (v : W).
          continue-IsSettled (λ u. lift (ok rsp)) (v, refuse_abort rsp) (refuse_abort-ne-stuck rsp)
            (λ u x p. cc))

  segments-IsSettled :
      (fuel : ℕ) (bytes : List ℕ) (toggle : ℕ) (w : W)
      → IsReal link
      → length bytes ≤ fuel
      → IsSettled (download_segments link c fuel bytes toggle w)
  unfolding download_segments
  segments-IsSettled fuel [] toggle w real enough = λ p. cc
  segments-IsSettled zero (b ∷ bs) toggle w real enough = absurd (omega arith)
  segments-IsSettled (suc fuel) (b ∷ bs) toggle w real enough =
      let bytes : List ℕ = b ∷ bs in
      let seg : Frame =
        build_sdo_download_segment c.node (take (seg_len bytes) bytes) toggle (is_last bytes) in
      let rest : List ℕ = drop (seg_len bytes) bytes in
      continue-IsSettled (λ (rsp : Frame). download_segments link c fuel rest (bit_xor toggle 1))
        (answered link c (segment_ack c.node toggle) 1 seg w)
        (answered-IsSettled (segment_ack c.node toggle) 1 seg w real)
        (λ (rsp : Frame) (v : W).
          segments-IsSettled fuel rest (bit_xor toggle 1) v real
            (ground (arith, length-drop (seg_len bytes) bytes)))

  request-ne-stuck :
      (index subindex : ℕ) (bytes : List ℕ)
      → expedited_request link c index subindex bytes ≢ err stuck
  unfolding expedited_request sdo_expedited_download sdo_expedited_download_classic validate_node
  request-ne-stuck index subindex bytes = go c.expedited_mode
    where
      go :
          (mode : ExpeditedMode)
          → expedited_request link (record c { expedited_mode = mode }) index subindex bytes
            ≢ err stuck
      go spec = ground arith
      go classic = ground arith

  download_expedited-IsSettled :
      (index subindex : ℕ) (bytes : List ℕ) (w : W)
      → IsReal link
      → IsSettled (download_expedited link c index subindex bytes w)
  unfolding download_expedited
  download_expedited-IsSettled index subindex bytes w real =
      continue-IsSettled
        (λ (req : Frame).
          Client.◌>>=◌ (answered link c (expedited_ack c.node index subindex) 1 req)
            (λ rsp. lift (ok tt)))
        (w, expedited_request link c index subindex bytes) (request-ne-stuck index subindex bytes)
        (λ (req : Frame) (v : W).
          continue-IsSettled (λ rsp. lift (ok tt))
            (answered link c (expedited_ack c.node index subindex) 1 req v)
            (answered-IsSettled (expedited_ack c.node index subindex) 1 req v real) (λ rsp x p. cc))

  download_segmented-IsSettled :
      (index subindex : ℕ) (bytes : List ℕ) (w : W)
      → IsReal link
      → IsSettled (download_segmented link c index subindex bytes w)
  unfolding download_segmented
  download_segmented-IsSettled index subindex bytes w real =
      let init : Frame =
        build_sdo_download_initiate_segmented c.node index subindex (u32 (length bytes)) in
      continue-IsSettled (λ (rsp : Frame). download_segments link c (length bytes) bytes 0)
        (answered link c (initiate_ack c.node index subindex) 1 init w)
        (answered-IsSettled (initiate_ack c.node index subindex) 1 init w real)
        (λ (rsp : Frame) (v : W). segments-IsSettled (length bytes) bytes 0 v real (omega arith))

  -- For any data, device and other traffic, Download does not run out of the fuel of the model: it
  -- succeeds, fails by an error of the source, or waits for an answer for ever. The errors of the
  -- bus are taken not to be the one by which the model says that the fuel ran out.
  pub download-IsSettled :
      (index subindex : ℕ) (bytes : List ℕ) (w : W)
      → IsReal link
      → IsSettled (download link c index subindex bytes w)
  unfolding download
  download-IsSettled index subindex bytes w real = either (leb (length bytes) 4)
    where
      either :
          (small : Bool)
          → IsSettled (
              (if small
                  then download_expedited link c index subindex bytes
                  else download_segmented link c index subindex bytes)
                w)
      either true = download_expedited-IsSettled index subindex bytes w real
      either false = download_segmented-IsSettled index subindex bytes w real
