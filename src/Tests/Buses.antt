-- ===== src/Tests/Buses.antt =====
-- Runs of logged.go over a bus of stored frames.
use canbus.Prelude.{
  ◌≤◌, ◌≡◌, refl, arith, Option, none, some, List, [], ◌∷◌, Error, Result, ok, err, closed,
  invalid_len, if◌then◌else◌, leb,
}
use canbus.Frame.{Frame, zero_frame, validate}
use canbus.Bus.{Bus}
use canbus.Bus.Logged.{
  Logged, Entry, sent, received, send_error, new_logged_bus, log_all, logged_bus, logged_send,
  logged_receive,
}
use canbus.Bus.Logged.Transparent.{Refines, logged_bus-Refines}

-- A bus that checks what it sends, drops it, and gives the stored frames of at most 8 bytes.
abbrev stored_receive : List Frame → Option (List Frame × Result Frame)
stored_receive [] = some ([], err closed)
stored_receive (f ∷ frames) = some (frames, if leb f.len 8 then ok f else err invalid_len)

abbrev stored : Bus (List Frame)
stored = record {
  send = λ f w. some (w, validate f);
  receive = stored_receive;
  close = λ w. some ([], none);
}

abbrev beat : Frame
beat = record zero_frame { id = 0x705; len = 1 }

abbrev long : Frame
long = record beat { len = 9 }

abbrev noisy : Logged
noisy = new_logged_bus 4 log_all

receive_logged :
    logged_receive noisy stored (beat ∷ [], []) ≡ some (([], received 4 beat ∷ []), ok beat)
unfolding logged_receive
receive_logged = refl

-- An identifier that is too large is logged as sent and then as an error.
send_logged :
    logged_send noisy stored (record beat { id = 0x800 }) ([], [])
    ≡ some (
      ([], sent 4 (record beat { id = 0x800 }) ∷ send_error 0x800 Error.invalid_id ∷ []),
      some Error.invalid_id,
    )
unfolding logged_send validate
send_logged = refl

logged_bus-Refines_example :
    Refines (logged_bus noisy stored) stored (λ (t : List Frame × List Entry). t.0)
logged_bus-Refines_example = logged_bus-Refines noisy stored bounded
  where
    bounded : (w v : List Frame) (f : Frame) → stored_receive w ≡ some (v, ok f) → f.len ≤ 8
    bounded [] v f e = cc
    bounded (g ∷ w) v f e = ground (arith, e)
