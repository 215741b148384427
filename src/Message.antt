-- ===== src/Message.antt =====
-- canopen/marshal.go: the interface of the typed CANopen messages, its laws, and what they give a
-- client. The children are the messages of nmt.go, heartbeat.go, emcy.go and sync.go.
pub mod Nmt
pub mod Heartbeat
pub mod Emcy
pub mod Sync
pub mod Lawful
pub mod Accepts
pub mod Stream
pub mod Subscription
use canbus.Prelude.{◌≡◌, Option, none, some, Error, Result, ok}
use canbus.Frame.{Frame, validate}

-- `FrameCodec`. UnmarshalCANFrame writes to its receiver, so it takes the receiver and returns it
-- beside the error.
pub record FrameCodec (T : Type 0) : Type 0 where
  pub marshal : T → Result Frame
  pub unmarshal : T → Frame → T × Option Error

-- The values that a codec must carry are those of `Good`.
pub record IsLawful {T : Type 0} (c : FrameCodec T) (Good : T → Type 0) : Type 0 where
  -- A good value has a valid frame, from which every receiver reads that value.
  pub carries :
      (t : T)
      → Good t
      → (f : Frame) × (c.marshal t ≡ ok f)
        × (validate f ≡ none)
        × ((r : T) → c.unmarshal r f ≡ (t, none))
  -- A frame that is refused leaves the receiver as it was.
  pub keeps :
      (r : T) (f : Frame) (e : Error) → (c.unmarshal r f).1 ≡ some e → (c.unmarshal r f).0 ≡ r
