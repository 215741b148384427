-- ===== src/Tests/Sockets.antt =====
-- Runs of the SocketCAN bus on a small kernel.
use canbus.Prelude.{
  ℕ, ◌≤◌, ◌≡◌, refl, arith, true, false, none, some, List, [], ◌∷◌, length, take, ok, err, errno,
  ◌⊎◌,
}
use canbus.Prelude.Texts.{codes}
use canbus.Frame.{Frame, zero_frame, validate, marshal_binary}
use canbus.Frame.Payload.{zeros}
use canbus.SocketCan.{Socket, Options, dial_socket_can_with_options, close_socket, send, fd_set_add}
use canbus.SocketCan.Dial.{Dialled, dial-Dialled}
use canbus.SocketCan.Retry.{send_retries}
use canbus.SocketCan.Delivery.{Counted, send_all, receive_all}
use canbus.SocketCan.Delivery.Order.{receive_all-send_all}
use canbus.Cob.{validate_node, cob_id}
use canbus.Message.Heartbeat
use canbus.Message.Heartbeat.{Heartbeat}
use canbus.Message.Lawful.{heartbeat_codec, heartbeat-IsLawful}
use canbus.SocketCan.Delivery.Messages.{receive_message, receive-send_message}
use canbus.SocketCan.Closing.{Closing, start, run, panicked}
use canbus.SocketCan.Closing.Twice.{at, two_closers_panic}
use canbus.Tests.Kernels.{
  Desk, desk, small_kernel, is_open, waiting, small_kernel-HasDescriptors, small_kernel-Carries,
}

abbrev big_buffer : Options
big_buffer = record {
  loopback = some true;
  receive_own_messages = none;
  send_buffer_bytes = 4096;
  receive_buffer_bytes = 0;
}

-- The kernel refuses the option, and the dial with it.
dial_refused :
    (dial_socket_can_with_options small_kernel (codes "can0") (some big_buffer) (desk 0)).1
    ≡ err (errno 22)
unfolding dial_socket_can_with_options
dial_refused = refl

dial-Dialled_example :
    Dialled is_open
      (desk 0)
      (dial_socket_can_with_options small_kernel (codes "can0") (some big_buffer) (desk 0))
dial-Dialled_example =
    dial-Dialled small_kernel is_open (codes "can0") (some big_buffer) (desk 0)
      small_kernel-HasDescriptors

abbrev from : Socket
from = record { fd = 3; is_closed = false }

abbrev to : Socket
to = record { fd = 4; is_closed = false }

abbrev beat : Frame
beat = record zero_frame { id = 0x705; len = 1; payload = record zeros { b0 = 5 } }

abbrev beat_bytes : List ℕ
beat_bytes = 0x05 ∷ 0x07 ∷ 0 ∷ 0 ∷ 1 ∷ 0 ∷ 0 ∷ 0 ∷ 5 ∷ 0 ∷ 0 ∷ 0 ∷ 0 ∷ 0 ∷ 0 ∷ 0 ∷ []

send_retries_example :
    send small_kernel 5 from beat (desk 2) ≡ (record (desk 0) { queue = beat_bytes ∷ [] }, ok tt)
unfolding marshal_binary validate
send_retries_example =
    send_retries small_kernel from beat beat_bytes 2 5 (desk 2) refl (refl, (refl, tt)) tt
      (omega arith)

abbrev frames : List Frame
frames = beat ∷ record zero_frame { id = 0x12345; extended = true; rtr = true } ∷ []

receive_all-send_all_example :
    let (v, r) = send_all small_kernel 3 from frames (desk 1) in
    (n : ℕ) × (n ≤ length frames)
    × Counted n (length frames) r
    × ((receive_all small_kernel 1 to n v).1 ≡ ok (take n frames))
    × (waiting (receive_all small_kernel 1 to n v).0 ≡ [])
receive_all-send_all_example =
    receive_all-send_all small_kernel waiting from to 3 0 frames (desk 1) small_kernel-Carries refl

abbrev running : Heartbeat
running = record { node = 5; state = 5 }

abbrev unknown : Heartbeat
unknown = record { node = 1; state = 0 }

receive-send_message_example :
    let v : Desk = record (desk 0) { queue = beat_bytes ∷ [] } in
    ((receive_message small_kernel heartbeat_codec 1 to unknown v).1 ≡ ok running)
    × (waiting (receive_message small_kernel heartbeat_codec 1 to unknown v).0 ≡ [])
unfolding validate_node validate marshal_binary send Heartbeat.marshal cob_id
receive-send_message_example =
    receive-send_message small_kernel waiting from to heartbeat_codec
      (λ h. validate_node h.node ≡ none) 3 0 running unknown (desk 1)
      (record (desk 0) { queue = beat_bytes ∷ [] }) small_kernel-Carries heartbeat-IsLawful refl
      refl refl

-- One Close after the other: the second does nothing.
close_twice :
    let (s, (d, r)) = close_socket small_kernel from (desk 0) in
    close_socket small_kernel s d ≡ (s, (d, ok tt))
unfolding close_socket
close_twice = refl

-- Two of three goroutines are past the select; the third calls Close before one of them goes on.
abbrev past_both : Closing
past_both = run (0 ∷ 2 ∷ []) (start 3)

two_closers_panic_example :
    let is : List ℕ = 1 ∷ 2 ∷ 1 ∷ 2 ∷ 0 ∷ [] in
    (at 0 (run is past_both).closers ≡ panicked) ⊎ (at 2 (run is past_both).closers ≡ panicked)
unfolding run
two_closers_panic_example =
    two_closers_panic 0 2 (1 ∷ 2 ∷ 1 ∷ 2 ∷ 0 ∷ []) past_both (omega arith) (omega arith)
      (omega arith) refl refl refl refl

-- Descriptor 65 is bit 1 of the second word; a descriptor beyond the words is an index out of
-- range.
fd_set_runs :
    (fd_set_add (0 ∷ 0 ∷ []) 65 ≡ some (0 ∷ 2 ∷ [])) × (fd_set_add (0 ∷ 0 ∷ []) 128 ≡ none)
unfolding fd_set_add
fd_set_runs = (refl, refl)
