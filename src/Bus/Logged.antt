-- ===== src/Bus/Logged.antt =====
-- logged.go: the decorator that logs what goes through a bus. What the logger does with a record is
-- not modelled; the log is the list of the records that it was given, the oldest first.
pub mod Transparent
use canbus.Prelude.{
  ℕ, ◌<◌, ◌^◌, bit_and, bit_or, ◌<<<◌, Bool, true, false, ◌&&◌, ◌||◌, Option, none, some, List, [],
  ◌∷◌, ◌++◌, ltb, ◌==◌, ◌!=◌, if◌then◌else◌, Error, Result, ok, err,
}
use mathlib.Core.Option
use canbus.Frame.{Frame}
use canbus.Filter.{FrameFilter, passes}
use canbus.Bus.{Bus}

-- `LogOption`, where `1 << iota` starts at the second constant.
abbrev pub log_none : ℕ
log_none = 0

abbrev pub log_read : ℕ
log_read = 1 <<< 1

abbrev pub log_write : ℕ
log_write = 1 <<< 2

abbrev pub log_all : ℕ
log_all = bit_or log_read log_write

-- `loggedBus` without its inner bus and its logger.
pub record Logged : Type 0 where
  pub level : ℕ
  pub opts : ℕ
  pub filter : FrameFilter

-- `NewLoggedBus` and `NewLoggedBusWithFilter`
abbrev pub new_logged_bus : ℕ → ℕ → Logged
new_logged_bus level opts = record { level = level; opts = opts; filter = none }

abbrev pub new_logged_bus_with_filter : ℕ → ℕ → FrameFilter → Logged
new_logged_bus_with_filter level opts filter = record {
  level = level;
  opts = opts;
  filter = filter;
}

-- The records; errors are logged at the level of errors, whatever the level of the bus is.
pub data Entry : Type 0 where
  sent received : ℕ → Frame → Entry
  send_error : ℕ → Error → Entry
  receive_error : Error → Entry

-- `l.opts&option != 0`
abbrev pub enabled : Logged → ℕ → Bool
enabled l option = bit_and l.opts option != 0

-- A call of the logger with a frame; `frame.Data[:frame.Len]` panics for a length above 8.
abbrev pub entry_of : (ℕ → Frame → Entry) → Logged → Frame → Option (List Entry)
entry_of kind l f = if ltb 8 f.len then none else some (kind l.level f ∷ [])

-- What is logged of a frame, if the option is set and the filter wants it.
unfoldable pub log_frame : (ℕ → Frame → Entry) → ℕ → Logged → Frame → Option (List Entry)
log_frame kind option l f =
    if enabled l option && passes l.filter f then entry_of kind l f else some []

-- What is logged of an error of Send.
unfoldable pub log_send_error : Logged → Frame → Option Error → List Entry
log_send_error l f none = []
log_send_error l f (some e) = if enabled l log_write then send_error f.id e ∷ [] else []

-- `l.Receive()` behind the call of the inner bus.
unfoldable pub log_receive : Logged → Result Frame → Option (List Entry)
unfolding log_frame
log_receive l (err e) = some (if enabled l log_read then receive_error e ∷ [] else [])
log_receive l (ok f) = log_frame received log_read l f

infixl 5 ◌>>=◌
abbrev ◌>>=◌ : {A B : Type 0} → Option A → (A → Option B) → Option B
none >>= f = none
some a >>= f = f a

module _ {W : Type 0} (l : Logged) (inner : Bus W) where
  -- `l.Send(frame)`
  unfoldable pub logged_send : Frame → W × List Entry → Option ((W × List Entry) × Option Error)
  unfolding log_frame log_send_error
  logged_send f s = do
    entries ← log_frame sent log_write l f
    (w, e) ← inner.send f s.0
    some ((w, s.1 ++ (entries ++ log_send_error l f e)), e)

  -- `l.Receive()`
  unfoldable pub logged_receive : W × List Entry → Option ((W × List Entry) × Result Frame)
  unfolding log_receive
  logged_receive s = do
    (w, r) ← inner.receive s.0
    entries ← log_receive l r
    some ((w, s.1 ++ entries), r)

  -- `l.Close()`
  unfoldable pub logged_close : W × List Entry → Option ((W × List Entry) × Option Error)
  logged_close s = do (w, e) ← inner.close s.0; some ((w, s.1), e)

  -- The decorated bus.
  abbrev pub logged_bus : Bus (W × List Entry)
  logged_bus = record { send = logged_send; receive = logged_receive; close = logged_close }
