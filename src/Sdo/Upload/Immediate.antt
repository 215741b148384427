-- ===== src/Sdo/Upload/Immediate.antt =====
-- Uploads that end with the first answer.
use canbus.Prelude.{
  ℕ, ◌-◌, ◌/◌, ◌%◌, ◌<◌, ◌≡◌, refl, ap, ◌∙◌, arith, Bool, true, List, take, drop, ok, err,
}
use canbus.Prelude.Bits.{and_mask, and_flag}
use canbus.Frame.{Frame}
use canbus.Frame.Payload.{to_list}
use canbus.Cob.{parse_cob_id, fc_sdo_tx}
use canbus.Cob.Laws.{parse_cob_id_iff}
use canbus.Sdo.{specifier, index_of, subindex_of}
use canbus.Sdo.Expedited.{sdo_expedited_upload_request, parse_sdo_expedited_upload_response}
use canbus.Sdo.Segmented.{parse_sdo_abort}
use canbus.Sdo.Client.{Client, Link, Run, continue, exchange}
use canbus.Sdo.Exchange.{exchange-first, exchange-refused, exchange-silent}
use canbus.Sdo.Exchange.Response.{is_response, after, no_abort, passed-first}
use canbus.Sdo.Exchange.Ending.{
  SettledBy, Ending, refused, aborted, silent, Ends, carried, ended, abort_found,
}
use canbus.Sdo.Upload.{upload_parsed, upload_first, upload}
use canbus.Sdo.Upload.Chunks.{object_settles, upload_answer-settles}

-- An upload response that carries the bytes itself, as the client reads it: of the object, with the
-- e and the s bit, and the number of unused bytes in its two lowest bits.
pub record Carries (index subindex : ℕ) (bytes : List ℕ) (f : Frame) : Type 0 where
  pub responds : specifier f.payload.b0 ≡ 2
  pub flagged : f.payload.b0 / 4 % 4 ≡ 3
  pub for_index : index_of f ≡ index
  pub for_subindex : subindex_of f ≡ subindex
  pub holds : take (4 - f.payload.b0 % 4) (drop 4 (to_list f.payload)) ≡ bytes

parse_carried :
    (node index subindex : ℕ) (bytes : List ℕ) (f : Frame)
    → node < 128
    → is_response node f ≡ true
    → Carries index subindex bytes f
    → parse_sdo_expedited_upload_response f
      ≡ ok (record { node = node; index = index; subindex = subindex; bytes = bytes })
unfolding parse_sdo_expedited_upload_response
parse_carried node index subindex bytes f small r h =
    let e : parse_cob_id f.id ≡ ok (fc_sdo_tx, node) =
      (parse_cob_id_iff f.id fc_sdo_tx node refl).1 (ground arith) in
    rw (e, ← h.holds, ← h.for_index, ← h.for_subindex)
      (ground (
        arith,
        h.responds,
        h.flagged,
        and_mask 2 f.payload.b0,
        and_flag 3 f.payload.b0,
        and_flag 2 f.payload.b0,
      ))

module _ {W : Type 0} (link : Link W) (c : Client) where
  first_carried :
      (fuel index subindex : ℕ) (bytes : List ℕ) (f : Frame) (w : W)
      → c.node < 128
      → is_response c.node f ≡ true
      → Carries index subindex bytes f
      → upload_first link c fuel index subindex f (parse_sdo_abort f) w ≡ (w, ok bytes)
  unfolding upload_first upload_parsed
  first_carried fuel index subindex bytes f w small r h =
      let quiet = no_abort f (λ p. ground (arith, h.responds)) in
      rw (quiet, upload_first)
        (rw (parse_carried c.node index subindex bytes f small r h, upload_parsed) (ground arith))

  -- If the first answer to the request carries the bytes, every client returns them after this one
  -- exchange.
  pub upload-Carries :
      (fuel index subindex : ℕ) (bytes : List ℕ) (req f : Frame) (w : W)
      → c.node < 128
      → sdo_expedited_upload_request c.node index subindex ≡ ok req
      → SettledBy link (object_settles c.node index subindex) w req f
      → Carries index subindex bytes f
      → upload link c fuel index subindex w ≡ (after link w req, ok bytes)
  unfolding upload
  upload-Carries fuel index subindex bytes req f w small made (sent, (rest, first)) h =
      let pass = object_settles c.node index subindex in
      let settled = passed-first pass _ rest f first in
      rw (made, upload)
        (ap
            (continue
              (λ (g : Frame). upload_first link c fuel index subindex g (parse_sdo_abort g)))
            (ap (λ (p : Frame → Bool). exchange link c p 2 req w)
                (upload_answer-settles c.node index subindex small)
              ∙ exchange-first link c pass 1 req w f rest sent first)
          ∙ first_carried fuel index subindex bytes f (after link w req) small (ground arith) h)

  first_aborted :
      (fuel index subindex : ℕ) (f : Frame) (w : W)
      → c.node < 128
      → object_settles c.node index subindex f ≡ true
      → specifier f.payload.b0 ≡ 4
      → upload_first link c fuel index subindex f (parse_sdo_abort f) w ≡ (w, err (carried f))
  unfolding upload_first
  first_aborted fuel index subindex f w small s a =
      rw (abort_found c.node f small (ground arith) a, upload_first) (ground arith)

  -- The first request ends the upload.
  pub upload_request-Ends :
      (fuel index subindex : ℕ) (req : Frame) (ending : Ending) (w : W)
      → c.node < 128
      → sdo_expedited_upload_request c.node index subindex ≡ ok req
      → Ends link (object_settles c.node index subindex) w req ending
      → upload link c fuel index subindex w ≡ ended link c w req ending
  unfolding upload
  upload_request-Ends fuel index subindex req ending w small made ends =
      rw (made, upload)
        (ap (λ (p : Frame → Bool). continue next (exchange link c p 2 req w))
            (upload_answer-settles c.node index subindex small)
          ∙ by_ending ending ends)
    where
      pass : Frame → Bool
      pass = object_settles c.node index subindex

      next : Frame → Run W (List ℕ)
      next f = upload_first link c fuel index subindex f (parse_sdo_abort f)

      by_ending :
          (ending : Ending)
          → Ends link pass w req ending
          → continue next (exchange link c pass 2 req w) ≡ ended link c w req ending
      by_ending (refused e) h = ap (continue next) (exchange-refused link c pass 2 req w e h)
      by_ending (aborted f) ((sent, (rest, first)), a) =
          ap (continue next) (exchange-first link c pass 1 req w f rest sent first)
          ∙ first_aborted fuel index subindex f (after link w req) small
              (passed-first pass _ rest f first) a
      by_ending silent (sent, quiet) =
          ap (continue next) (exchange-silent link c pass 1 req w sent quiet)
