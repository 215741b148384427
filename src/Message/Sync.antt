-- ===== src/Message/Sync.antt =====
-- canopen/sync.go: SYNC messages.
use canbus.Prelude.{
  ℕ, Option, none, some, ◌==◌, ◌!=◌, if◌then◌else◌, Error, Result, ok, err, ◌>>=◌, ◌>>◌, refuse,
  not_sync, sync_len,
}
use canbus.Frame.{Frame, zero_frame}
use canbus.Frame.Payload.{zeros}
use canbus.Cob.{cob_id, parse_cob_id, fc_sync}

-- `SYNC`; the counter is an optional uint8.
pub record Sync : Type 0 where
  pub counter : Option ℕ

-- The frame of a SYNC with an optional counter.
unfoldable pub sync_frame : Option ℕ → Frame
sync_frame none = record zero_frame { id = cob_id fc_sync 0; len = 0 }
sync_frame (some c) = record zero_frame {
  id = cob_id fc_sync 0;
  len = 1;
  payload = record zeros { b0 = c };
}

-- `s.MarshalCANFrame()`
unfoldable pub marshal : Sync → Result Frame
unfolding sync_frame
marshal s = ok (sync_frame s.counter)

-- The receiver's new counter, or the error.
parse_sync : Frame → Result (Option ℕ)
parse_sync f = do
  (fc, node) ← parse_cob_id f.id
  refuse (fc != fc_sync) (not_sync f.id)
  if f.len == 0
      then ok none
      else if f.len == 1
      then ok (some f.payload.b0)
      else err (sync_len f.len)

-- `s.UnmarshalCANFrame(f)`
unfoldable pub unmarshal : Sync → Frame → Sync × Option Error
unfolding parse_sync
unmarshal s f = elim (parse_sync f) [ ok c ↦ (record { counter = c }, none) | err e ↦ (s, some e) ]
