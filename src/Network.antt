-- ===== src/Network.antt =====
-- The parts together: the SDO client of canopen/sdo.go on one endpoint of the bus of loopback.go, and
-- a device on another. The device is no code of the repository; it is a parameter.
pub mod Hop
pub mod Rounds
pub mod Download
pub mod Upload
pub mod Station
use canbus.Prelude.{
  ℕ, ◌+◌, false, Option, none, some, List, [], ◌∷◌, length, Error, Result, ok, err, stuck,
}
use canbus.Frame.{Frame}
use canbus.Loopback.{Bus, without, receive, Flight, starting, delivering, returned, begin_send}
use canbus.Loopback.Broadcast.{rounds}
use canbus.Sdo.Client.{Link}

-- What a Send that nobody disturbs has come to.
abbrev finished : Bus → Option (Flight × Bus) → Bus × Option Error
finished b none = (b, some stuck)
finished b (some (returned e, c)) = (c, e)
finished b (some (starting i f, c)) = (c, some stuck)
finished b (some (delivering f targets, c)) = (c, some stuck)

-- A Send by endpoint `i`, from its start to its end.
unfoldable pub send_now : ℕ → Frame → Bus → Bus × Option Error
send_now i f b = finished b (rounds (length (without i b.attached) + 2) false (begin_send i f b) b)

module _ {D : Type 0} (respond : D → Frame → D × Frame) where
  -- What the reader of the mux receives at endpoint `i`, if a frame is there.
  abbrev pub read_at : D → Bus → Option (Result Frame × Bus) → (Bus × D) × List Frame
  read_at d b (some (ok f, c)) = ((c, d), f ∷ [])
  read_at d b (some (err e, c)) = ((c, d), [])
  read_at d b none = ((b, d), [])

  -- The device at endpoint `j` receives a frame and answers it, and the reader at `i` receives.
  abbrev pub answer_at : ℕ → ℕ → D → Bus → Option (Result Frame × Bus) → (Bus × D) × List Frame
  answer_at i j d b (some (ok f, c)) =
      let (d1, answer) = respond d f in
      let (b1, e) = send_now j answer c in read_at d1 b1 (receive i b1)
  answer_at i j d b (some (err e, c)) = ((c, d), [])
  answer_at i j d b none = ((b, d), [])

  -- The link of a client at endpoint `i` to a device at endpoint `j`.
  abbrev pub loopback_link : ℕ → ℕ → Link (Bus × D)
  loopback_link i j = record {
    send = λ w f. let (b, e) = send_now i f w.0 in ((b, w.1), e);
    arrive = λ w. answer_at i j w.1 w.0 (receive j w.0);
    closes = λ w. false;
  }
