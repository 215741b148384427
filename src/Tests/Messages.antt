-- ===== src/Tests/Messages.antt =====
-- Runs of the CANopen messages.
use canbus.Prelude.{ℕ, ◌≤◌, ◌<◌, ◌≡◌, ◌↔◌, none}
use canbus.Frame.{Frame, zero_frame}
use canbus.Message.Nmt
use canbus.Message.Nmt.{Nmt}
use canbus.Message.Heartbeat
use canbus.Message.Heartbeat.{Heartbeat}
use canbus.Message.Emcy
use canbus.Message.Emcy.{Emergency}
use canbus.Message.Sync
use canbus.Message.Sync.{Sync}
use canbus.Message.Accepts.{messages_accept}

abbrev unknown : Heartbeat
unknown = record { node = 0; state = 0 }

abbrev no_command : Nmt
no_command = record { command = 0; node = 0 }

abbrev no_emergency : Emergency
no_emergency = record {
  node = 1;
  error_code = 0;
  error_register = 0;
  manufacturer = record { m0 = 0; m1 = 0; m2 = 0; m3 = 0; m4 = 0 };
}

abbrev no_sync : Sync
no_sync = record { counter = none }

-- The identifier of an emergency of node 5, with no data.
abbrev short_emergency : Frame
short_emergency = record zero_frame { id = 0x85 }

messages_accept_example :
    (((Nmt.unmarshal no_command short_emergency).1 ≡ none) ↔ ((◌≡◌ {A = ℕ} 0x85 0) × (2 ≤ 0)))
    × (((Heartbeat.unmarshal unknown short_emergency).1 ≡ none)
        ↔ ((0x700 ≤ 0x85) × (0x85 < 0x780) × (1 ≤ 0)))
    × (((Emcy.unmarshal no_emergency short_emergency).1 ≡ none)
        ↔ ((0x80 ≤ 0x85) × (0x85 < 0x100) × (8 ≤ 0)))
    × (((Sync.unmarshal no_sync short_emergency).1 ≡ none)
        ↔ ((0x80 ≤ 0x85) × (0x85 < 0x100) × (0 ≤ 1)))
messages_accept_example = messages_accept no_command unknown no_emergency no_sync short_emergency
