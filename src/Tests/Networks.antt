-- ===== src/Tests/Networks.antt =====
-- Transfers over a loopback bus, and a mux on one.
use canbus.Prelude.{
  ℕ, Bool, Option, none, some, inl, ◌≡◌, refl, arith, true, false, List, [], ◌∷◌, ok,
}
use canbus.Frame.{Frame, zero_frame, validate}
use canbus.Frame.Payload.{zeros}
use canbus.Loopback
use canbus.Mux
use canbus.Network.Station
use canbus.Network.Station.{Station, on_bus, on_mux, reads, all_gets}
use canbus.Network.Station.EndToEnd.{Delivers, run-Delivers}
use canbus.Loopback.{Bus, open_endpoint}
use canbus.Sdo.Segmented.{build_sdo_download_initiate_segmented, build_sdo_download_segment}
use canbus.Sdo.Client.{new_sdo_client}
use canbus.Sdo.Download.{download}
use canbus.Sdo.Download.Wire.{planned}
use canbus.Sdo.Download.Script.{script}
use canbus.Network.{loopback_link}
use canbus.Network.Hop.{IsPair}
use canbus.Network.Download.{download-served}
use canbus.Network.Upload.{upload-offered}
use canbus.Sdo.Upload.{upload}
use canbus.Sdo.Expedited.{sdo_expedited_upload_request}
use canbus.Sdo.Segmented.{upload_segment_request}
use canbus.Cob.{validate_node, cob_id}
use canbus.Tests.Loopbacks.{two, two-IsSound}

-- A device that gives the answers that it was told.
abbrev told : List Frame → Frame → List Frame × Frame
told [] f = ([], zero_frame)
told (answer ∷ answers) f = (answers, answer)

abbrev ack : ℕ → ℕ → ℕ → ℕ → Frame
ack b0 b1 b2 b3 = record zero_frame {
  id = 0x585;
  len = 8;
  payload = record zeros { b0 = b0; b1 = b1; b2 = b2; b3 = b3 };
}

abbrev acks : List Frame
acks = ack 0x60 0x00 0x20 1 ∷ ack 0x20 0 0 0 ∷ []

abbrev five : List ℕ
five = 1 ∷ 2 ∷ 3 ∷ 4 ∷ 5 ∷ []

abbrev requests : List Frame
requests =
    build_sdo_download_initiate_segmented 5 0x2000 1 5
    ∷ build_sdo_download_segment 5 five 0 true
    ∷ []

two-IsPair : IsPair 0 1 two
unfolding open_endpoint
two-IsPair = record {
  sound = two-IsSound;
  is_open = refl;
  apart = refl;
  first_in = refl;
  second_in = refl;
  alone = λ k m. ground arith;
  first_empty = refl;
  second_empty = refl;
}

five_scripted : script (loopback_link told 0 1) (new_sdo_client 5) 0x2000 1 five ≡ ok requests
unfolding script planned
five_scripted = refl

download-served_example :
    (b : Bus) × (download (loopback_link told 0 1) (new_sdo_client 5) 0x2000 1 five (two, acks)
      ≡ ((b, []), ok tt))
    × IsPair 0 1 b
unfolding validate build_sdo_download_initiate_segmented build_sdo_download_segment
download-served_example =
    download-served told 0 1 (new_sdo_client 5) 0x2000 1 five requests two acks two-IsPair
      (omega arith) (omega arith) (omega arith) (omega arith) five_scripted
      (refl, refl, refl, (refl, refl, refl, tt))

-- A device that announces nine bytes and serves them in two segments.
abbrev served : ℕ → List ℕ → Bool → Frame
served toggle chunk last = record zero_frame {
  id = 0x585;
  len = 8;
  payload = (build_sdo_download_segment 5 chunk toggle last).payload;
}

abbrev seven : List ℕ
seven = 1 ∷ 2 ∷ 3 ∷ 4 ∷ 5 ∷ 6 ∷ 7 ∷ []

abbrev announced : Frame
announced = record zero_frame {
  id = 0x585;
  len = 8;
  payload = record zeros { b0 = 0x44; b2 = 0x20; b3 = 1; b4 = 9 };
}

abbrev object : List Frame
object = announced ∷ served 0 seven false ∷ served 1 (8 ∷ 9 ∷ []) true ∷ []

abbrev object_request : Frame
object_request = record zero_frame {
  id = 0x605;
  len = 8;
  payload = record zeros { b0 = 0x40; b2 = 0x20; b3 = 1 };
}

upload-offered_example :
    (b : Bus) × (upload (loopback_link told 0 1) (new_sdo_client 5) 2 0x2000 1 (two, object)
      ≡ ((b, []), ok (1 ∷ 2 ∷ 3 ∷ 4 ∷ 5 ∷ 6 ∷ 7 ∷ 8 ∷ 9 ∷ [])))
    × IsPair 0 1 b
unfolding validate build_sdo_download_segment sdo_expedited_upload_request validate_node cob_id
    upload_segment_request
upload-offered_example =
    upload-offered told 0 1 (new_sdo_client 5) 2 0x2000 1 (seven ∷ []) (8 ∷ 9 ∷ []) object_request
      two object two-IsPair (omega arith) refl (omega arith) refl refl refl
      (record {
        responds = refl;
        segmented = refl;
        for_index = refl;
        for_subindex = refl;
        of_size = λ p. refl;
      })
      (refl, refl, (refl, omega arith, λ p. refl), (refl, refl, (refl, omega arith, λ p. cc)))

-- An endpoint sends to the mux on the other, which has one subscription.
abbrev beat : Frame
beat = record zero_frame { id = 0x705; len = 1 }

abbrev listener : Mux.Subscriber
listener = Mux.fresh 0 none 4

abbrev station : Station
station = record {
  system = record { bus = two; flights = Loopback.starting 0 beat ∷ [] };
  mux = record { stopped = false; phase = Mux.receiving; next = 1; subs = listener ∷ [] };
}

abbrev happenings : List Station.Event
happenings =
    on_bus (Loopback.advances 0 true)
    ∷ on_bus (Loopback.advances 0 true)
    ∷ on_mux (Mux.subscribes none 2)
    ∷ reads (λ id. false)
    ∷ []

abbrev later : Option Station → Station
later none = station
later (some t) = t

abbrev behind : Station
behind = later (Station.run 1 station happenings)

run-station : Station.run 1 station happenings ≡ some behind
unfolding Station.run Loopback.step
run-station = refl

gets-station : all_gets 1 station happenings ≡ beat ∷ []
unfolding all_gets Station.step Loopback.step open_endpoint Mux.step
gets-station = refl

run-Delivers_example : Delivers 1 0 station behind listener happenings
unfolding open_endpoint
run-Delivers_example =
    run-Delivers 1 0 station behind listener happenings (tt, (tt, (tt, (tt, tt)))) (ground arith)
      (omega arith, omega arith) (record { found = refl; named = refl; runs = inl refl })
      (rw gets-station (ground arith)) run-station
