-- ===== src/Bus.antt =====
-- bus.go: what a CAN bus offers, and logged.go, which puts a log around one.
pub mod Logged
use canbus.Prelude.{Option, Error, Result}
use canbus.Frame.{Frame}

-- `Bus`, over the state `W` of the bus and of what is behind it; `none` is a panic.
pub record Bus (W : Type 0) : Type 0 where
  pub send : Frame → W → Option (W × Option Error)
  pub receive : W → Option (W × Result Frame)
  pub close : W → Option (W × Option Error)
