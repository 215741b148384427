-- ===== src/Tests/Numbers.antt =====
-- A number written to a device and read back.
use canbus.Prelude.{ℕ, zero, suc, ◌≡◌, refl, arith, false, none, List, [], ◌∷◌, Result, ok}
use mathlib.Core.Path.{subst}
use canbus.Frame.{Frame, zero_frame}
use canbus.Frame.Payload.{zeros}
use canbus.Cob.{cob_id, validate_node, parse_cob_id, parse_range}
use canbus.Sdo.Expedited.{
  Expedited, sdo_expedited_download, sdo_expedited_upload_request, parse_sdo_expedited_download,
}
use canbus.Sdo.Client.{Link, new_sdo_client}
use canbus.Sdo.Download.{expedited_request}
use canbus.Sdo.Typed.{write_u16, read_u16}
use canbus.Sdo.Typed.RoundTrip.{w16}
use canbus.Sdo.Typed.Transfer.{GivesBack, read-write_device}
use canbus.Sdo.Upload.Immediate.{Carries}

abbrev from_device : ℕ → ℕ → ℕ → Frame
from_device b0 b4 b5 = record zero_frame {
  id = 0x585;
  len = 8;
  payload = record zeros { b0 = b0; b2 = 0x20; b3 = 1; b4 = b4; b5 = b5 };
}

-- A device that acknowledges the first request and answers each later one by two bytes.
abbrev turns : ℕ → ℕ × List Frame
turns zero = (1, from_device 0x60 0 0 ∷ [])
turns (suc n) = (suc n, from_device 0x4E 0x34 0x12 ∷ [])

abbrev storing : Link ℕ
storing = record { send = λ w f. (w, none); arrive = turns; closes = λ w. false }

abbrev to_device : ℕ → ℕ → ℕ → Frame
to_device b0 b4 b5 = record (from_device b0 b4 b5) { id = 0x605 }

abbrev kept : Expedited
kept = record { node = 5; index = 0x2000; subindex = 1; bytes = 0x34 ∷ 0x12 ∷ [] }

gives_back : GivesBack (to_device 0x2E 0x34 0x12) (from_device 0x4E 0x34 0x12)
unfolding parse_sdo_expedited_download parse_cob_id parse_range
gives_back x e =
    let same : ◌≡◌ {A = Result Expedited} (ok kept) (ok x) = e in
    subst (λ (x : Expedited). Carries x.index x.subindex x.bytes (from_device 0x4E 0x34 0x12))
      {x = kept} {y = x} (cc (same))
      (record {
        responds = refl;
        flagged = refl;
        for_index = refl;
        for_subindex = refl;
        holds = refl;
      })

read-write_device_example :
    (write_u16 storing (new_sdo_client 5) 0x2000 1 0x1234 0 ≡ (1, ok tt))
    × (read_u16 storing (new_sdo_client 5) 0 0x2000 1 1 ≡ (1, ok 0x1234))
unfolding expedited_request sdo_expedited_download sdo_expedited_upload_request validate_node cob_id
read-write_device_example =
    read-write_device storing (new_sdo_client 5) w16 0 0x2000 1 0x1234 0 (to_device 0x2E 0x34 0x12)
      (from_device 0x60 0 0) (to_device 0x40 0 0) (from_device 0x4E 0x34 0x12) refl (omega arith)
      refl (omega arith) refl (refl, ([], refl)) refl refl (refl, ([], refl)) gives_back
