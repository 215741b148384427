-- ===== src/Tests/SdoClients.antt =====
-- Runs of the SDO client.
use canbus.Prelude.{
  ℕ, ◌≡◌, refl, arith, All, true, false, none, some, List, [], ◌∷◌, ok, err, abort,
}
use canbus.Frame.{Frame, zero_frame}
use canbus.Frame.Payload.{zeros}
use canbus.Mux.{offer, take_frame}
use canbus.Cob.{parse_cob_id, parse_range}
use canbus.Sdo.{sdo_cmd}
use canbus.Sdo.Segmented.{
  build_sdo_download_initiate_segmented, build_sdo_download_segment, sdo_server_filter_for_node,
  sdo_match_abort_for, sdo_match_download_initiate_ok, sdo_match_download_seg_ack, parse_sdo_abort,
}
use canbus.Sdo.Acks.{initiate_ack, segment_ack}
use canbus.Sdo.Client.{Link, new_sdo_client, wait, exchange, refuse_abort}
use canbus.Sdo.Exchange.{recorded}
use canbus.Sdo.Exchange.Ending.{aborted}
use canbus.Sdo.Download.{download}
use canbus.Sdo.Download.Wire.{planned, IsInitiate, receive, download-receive}
use canbus.Sdo.Download.Script
use canbus.Sdo.Download.Script.{run_script, download-script}
use canbus.Sdo.Download.Acknowledged.{after_all, download-Acknowledged, download-Ends}
use canbus.Sdo.Download.Sendable.{IsSendable, download-IsSendable}
use canbus.Sdo.Download.Total.{IsSettled, download-IsSettled}

-- A bus that takes every frame, and whose device answers as the script says.
abbrev answer : List (List Frame) → List (List Frame) × List Frame
answer [] = ([], [])
answer (frames ∷ later) = (later, frames)

abbrev pub scripted : Link (List (List Frame))
scripted = record { send = λ w f. (w, none); arrive = answer; closes = λ w. false }

abbrev reply : ℕ → ℕ → ℕ → ℕ → Frame
reply b0 b1 b2 b3 = record zero_frame {
  id = 0x585;
  len = 8;
  payload = record zeros { b0 = b0; b1 = b1; b2 = b2; b3 = b3 };
}

-- A foreign heartbeat comes first; then the device acknowledges the initiation and two segments.
abbrev acks : List (List Frame)
acks =
    (record zero_frame { id = 0x701; len = 1 } ∷ reply 0x60 0x00 0x20 1 ∷ [])
    ∷ (reply 0x20 0 0 0 ∷ [])
    ∷ (reply 0x30 0 0 0 ∷ [])
    ∷ []

abbrev pub nine : List ℕ
nine = 1 ∷ 2 ∷ 3 ∷ 4 ∷ 5 ∷ 6 ∷ 7 ∷ 8 ∷ 9 ∷ []

abbrev sent : List Frame
sent =
    build_sdo_download_initiate_segmented 5 0x2000 1 9
    ∷ build_sdo_download_segment 5 (1 ∷ 2 ∷ 3 ∷ 4 ∷ 5 ∷ 6 ∷ 7 ∷ []) 0 false
    ∷ build_sdo_download_segment 5 (8 ∷ 9 ∷ []) 1 true
    ∷ []

nine_downloaded :
    download (recorded scripted) (new_sdo_client 5) 0x2000 1 nine (acks, []) ≡ (([], sent), ok tt)
unfolding download exchange wait take_frame offer initiate_ack segment_ack
    sdo_server_filter_for_node parse_cob_id parse_range sdo_cmd sdo_match_download_initiate_ok
    sdo_match_abort_for sdo_match_download_seg_ack refuse_abort parse_sdo_abort
nine_downloaded = refl

download-receive_example :
    (init : Frame) × (segments : List Frame) × (sent ≡ init ∷ segments)
    × IsInitiate 5 0x2000 1 9 init
    × (receive 5 0 segments ≡ some nine)
download-receive_example =
    download-receive scripted (new_sdo_client 5) 0x2000 1 nine acks [] sent (omega arith)
      (omega arith) (omega arith) nine_downloaded

-- Its requests, and the first of its two segments.
script-nine : Script.script scripted (new_sdo_client 5) 0x2000 1 nine ≡ ok sent
unfolding Script.script planned
script-nine = refl

download-Acknowledged_example :
    download scripted (new_sdo_client 5) 0x2000 1 nine acks ≡ (after_all scripted acks sent, ok tt)
unfolding build_sdo_download_initiate_segmented build_sdo_download_segment
download-Acknowledged_example =
    download-Acknowledged scripted (new_sdo_client 5) 0x2000 1 nine sent acks (omega arith)
      (omega arith) script-nine
      (
        reply 0x60 0x00 0x20 1,
        (refl, ([], refl)),
        refl,
        (
          reply 0x20 0 0 0,
          (refl, ([], refl)),
          refl,
          (reply 0x30 0 0 0, (refl, ([], refl)), refl, tt),
        ),
      )

download-script_example :
    download scripted (new_sdo_client 5) 0x2000 1 nine acks
    ≡ run_script scripted
        (new_sdo_client 5)
        (Script.script scripted (new_sdo_client 5) 0x2000 1 nine)
        acks
download-script_example =
    download-script scripted (new_sdo_client 5) 0x2000 1 nine acks (omega arith) (omega arith)

-- The device acknowledges the initiation, and aborts the first segment.
abbrev pub out_of_memory : Frame
out_of_memory = record zero_frame {
  id = 0x585;
  len = 8;
  payload = record zeros { b0 = 0x80; b2 = 0x20; b3 = 1; b4 = 0x05; b6 = 0x04; b7 = 0x05 };
}

abbrev aborting : List (List Frame)
aborting = (reply 0x60 0x00 0x20 1 ∷ []) ∷ (reply 0x60 0 0 0 ∷ out_of_memory ∷ []) ∷ []

download-Ends_example :
    download scripted (new_sdo_client 5) 0x2000 1 nine aborting
    ≡ ([], err (abort 0x2000 1 0x05040005))
unfolding build_sdo_download_initiate_segmented build_sdo_download_segment
download-Ends_example =
    download-Ends scripted (new_sdo_client 5) 0x2000 1 nine
      (build_sdo_download_initiate_segmented 5 0x2000 1 9 ∷ [])
      (build_sdo_download_segment 5 (8 ∷ 9 ∷ []) 1 true ∷ [])
      (build_sdo_download_segment 5 (1 ∷ 2 ∷ 3 ∷ 4 ∷ 5 ∷ 6 ∷ 7 ∷ []) 0 false)
      (aborted out_of_memory) aborting (omega arith) (omega arith) script-nine
      (reply 0x60 0x00 0x20 1, (refl, ([], refl)), refl, tt) ((refl, ([], refl)), refl)

download-IsSettled_example : IsSettled (download scripted (new_sdo_client 5) 0x2000 1 nine acks)
download-IsSettled_example =
    download-IsSettled scripted (new_sdo_client 5) 0x2000 1 nine acks (λ w f p. cc)

download-IsSendable_example :
    All IsSendable (download (recorded scripted) (new_sdo_client 5) 0x2000 1 nine (acks, [])).0.1
download-IsSendable_example =
    download-IsSendable scripted (new_sdo_client 5) 0x2000 1 nine acks (omega arith) (omega arith)
      (omega arith) (omega arith)
