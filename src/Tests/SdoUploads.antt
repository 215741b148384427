-- ===== src/Tests/SdoUploads.antt =====
-- Runs of Upload of the SDO client.
use canbus.Prelude.{ℕ, ◌≡◌, refl, arith, Bool, true, false, List, [], ◌∷◌, ok, err, abort, closed}
use canbus.Frame.{Frame, zero_frame}
use canbus.Frame.Payload.{zeros}
use canbus.Cob.{cob_id, validate_node}
use canbus.Sdo.Expedited.{sdo_expedited_upload_request}
use canbus.Sdo.Segmented.{build_sdo_download_segment, upload_segment_request}
use canbus.Sdo.Client.{new_sdo_client, with_timeout}
use canbus.Sdo.Exchange.Ending.{aborted, silent}
use canbus.Sdo.Upload.{upload}
use canbus.Sdo.Upload.Served.{Announces, upload-served}
use canbus.Sdo.Upload.Stages.{requesting, reading, upload-Ends}
use canbus.Sdo.Upload.Immediate.{upload-Carries}
use canbus.Tests.SdoClients.{scripted, nine, out_of_memory}

-- The device announces nine bytes of the object, and serves them in two segments.
abbrev announced : Frame
announced = record zero_frame {
  id = 0x585;
  len = 8;
  payload = record zeros { b0 = 0x44; b2 = 0x20; b3 = 1; b4 = 9 };
}

abbrev served : ℕ → List ℕ → Bool → Frame
served toggle chunk last = record announced {
  payload = (build_sdo_download_segment 5 chunk toggle last).payload;
}

abbrev upload_request : Frame
upload_request = record announced {
  id = 0x605;
  payload = record zeros { b0 = 0x40; b2 = 0x20; b3 = 1 };
}

abbrev answers : List (List Frame)
answers =
    (announced ∷ [])
    ∷ (served 0 (1 ∷ 2 ∷ 3 ∷ 4 ∷ 5 ∷ 6 ∷ 7 ∷ []) false ∷ [])
    ∷ (served 1 (8 ∷ 9 ∷ []) true ∷ [])
    ∷ []

announces : Announces 0x2000 1 9 announced
announces = record {
  responds = refl;
  segmented = refl;
  for_index = refl;
  for_subindex = refl;
  of_size = λ p. refl;
}

upload-served_example : upload scripted (new_sdo_client 5) 2 0x2000 1 answers ≡ ([], ok nine)
unfolding build_sdo_download_segment sdo_expedited_upload_request validate_node cob_id
    upload_segment_request
upload-served_example =
    upload-served scripted (new_sdo_client 5) 2 0x2000 1 ((1 ∷ 2 ∷ 3 ∷ 4 ∷ 5 ∷ 6 ∷ 7 ∷ []) ∷ [])
      (8 ∷ 9 ∷ []) upload_request announced answers (omega arith) refl (omega arith) refl
      (refl, ([], refl)) announces
      (
        (
          served 0 (1 ∷ 2 ∷ 3 ∷ 4 ∷ 5 ∷ 6 ∷ 7 ∷ []) false,
          (refl, ([], refl)),
          (refl, omega arith, λ p. refl),
        ),
        tt,
      )
      (served 1 (8 ∷ 9 ∷ []) true, (refl, ([], refl)), (refl, omega arith, λ p. cc))

-- The device serves the first segment, and is silent then.
upload-Ends_example :
    upload scripted
      (with_timeout 10 (new_sdo_client 5))
      2
      0x2000
      1
      ((announced ∷ []) ∷ (served 0 (1 ∷ 2 ∷ 3 ∷ 4 ∷ 5 ∷ 6 ∷ 7 ∷ []) false ∷ []) ∷ [])
    ≡ ([], err closed)
unfolding build_sdo_download_segment sdo_expedited_upload_request validate_node cob_id
    upload_segment_request
upload-Ends_example =
    upload-Ends scripted (with_timeout 10 (new_sdo_client 5)) 2 0x2000 1 upload_request
      (reading announced ((1 ∷ 2 ∷ 3 ∷ 4 ∷ 5 ∷ 6 ∷ 7 ∷ []) ∷ [])) silent
      ((announced ∷ []) ∷ (served 0 (1 ∷ 2 ∷ 3 ∷ 4 ∷ 5 ∷ 6 ∷ 7 ∷ []) false ∷ []) ∷ []) (omega arith)
      refl
      (
        refl,
        omega arith,
        (refl, ([], refl)),
        (9, announces),
        (
          (
            served 0 (1 ∷ 2 ∷ 3 ∷ 4 ∷ 5 ∷ 6 ∷ 7 ∷ []) false,
            (refl, ([], refl)),
            (refl, omega arith, λ p. refl),
          ),
          tt,
        ),
      )
      (refl, refl)

-- The device refuses the first request.
refused_upload :
    upload scripted (new_sdo_client 5) 0 0x2000 1 ((out_of_memory ∷ []) ∷ [])
    ≡ ([], err (abort 0x2000 1 0x05040005))
unfolding sdo_expedited_upload_request validate_node cob_id
refused_upload =
    upload-Ends scripted (new_sdo_client 5) 0 0x2000 1 upload_request requesting
      (aborted out_of_memory) ((out_of_memory ∷ []) ∷ []) (omega arith) refl tt
      ((refl, ([], refl)), refl)

abbrev two_bytes : Frame
two_bytes = record announced {
  payload = record zeros { b0 = 0x4E; b2 = 0x20; b3 = 1; b4 = 7; b5 = 8 };
}

two_uploaded :
    upload scripted (new_sdo_client 5) 0 0x2000 1 ((two_bytes ∷ []) ∷ []) ≡ ([], ok (7 ∷ 8 ∷ []))
unfolding sdo_expedited_upload_request validate_node cob_id
two_uploaded =
    upload-Carries scripted (new_sdo_client 5) 0 0x2000 1 (7 ∷ 8 ∷ []) upload_request two_bytes
      ((two_bytes ∷ []) ∷ []) (omega arith) refl (refl, ([], refl))
      (record {
        responds = refl;
        flagged = refl;
        for_index = refl;
        for_subindex = refl;
        holds = refl;
      })
