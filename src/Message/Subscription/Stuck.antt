-- ===== src/Message/Subscription/Stuck.antt =====
-- What happens to the goroutine of a subscription where nobody reads.
use canbus.Prelude.{◌≤◌, ◌≡◌, arith, Bool, true, false, some, List, [], ◌∷◌, length, All}
use canbus.Message.Heartbeat.{Heartbeat}
use canbus.Message.Subscription.{
  Subscription, forward, Event, offers, shuts, advances, reads, step, run,
}

-- The goroutine stands at a full channel.
abbrev pub IsStuck : Heartbeat → Subscription → Type 0
IsStuck h s = (s.held ≡ some h) × (s.is_done ≡ false) × (s.out_buffer ≤ length s.out)

abbrev pub is_read : Event → Bool
is_read reads = true
is_read (offers waiting f) = false
is_read shuts = false
is_read advances = false

step-IsStuck :
    (h : Heartbeat) (s : Subscription) (e : Event)
    → is_read e ≡ false
    → IsStuck h s
    → IsStuck h (step s e)
unfolding step forward
step-IsStuck h s (offers waiting f) r stuck = stuck
step-IsStuck h s shuts r stuck = stuck
step-IsStuck h s advances r (held, open_, full) = ground (arith, held)
step-IsStuck h s reads r stuck = absurd (cc (r))

-- Once the goroutine stands at a full channel and the reader has left, it stands there for ever,
-- with the channel of heartbeats never closed, whatever else happens, the cancel function and the
-- end of the mux included.
pub goroutine_stays :
    (h : Heartbeat) (s : Subscription) (events : List Event)
    → All (λ e. is_read e ≡ false) events
    → IsStuck h s
    → IsStuck h (run s events)
unfolding run
goroutine_stays h s [] others stuck = stuck
goroutine_stays h s (e ∷ events) (other, others) stuck =
    goroutine_stays h (step s e) events others (step-IsStuck h s e other stuck)
