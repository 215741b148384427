-- ===== src/Tests/Muxes.antt =====
-- Runs of mux.go.
use canbus.Prelude.{ℕ, ◌≡◌, refl, arith, Bool, false, none, some, [], ◌∷◌, length, ok}
use mathlib.Core.Option
use canbus.Frame.{Frame, zero_frame}
use canbus.Filter.{standard_only}
use canbus.Mux.{
  Subscriber, Mux, subscribes, cancels, closes, checks, receives, new_mux, fresh, subscribe, run,
  take_frame,
}
use canbus.Mux.Subscriptions.{find}
use canbus.Mux.Isolated.{subscribe_isolated}
use canbus.Mux.Ends.{late_subscription}

abbrev beat : Frame
beat = record zero_frame { id = 0x705; len = 1 }

abbrev nobody : ℕ → Bool
nobody id = false

-- Two subscriptions; the second has one place and is slow.
abbrev two : Mux
two = run new_mux (subscribes none 4 ∷ subscribes none 1 ∷ [])

slow_reader :
    Option.map
      (λ (s : Subscriber). length s.queue)
      (find 1
        (run two
          (checks ∷ receives nobody (ok beat) ∷ checks ∷ receives nobody (ok beat) ∷ [])).subs)
    ≡ some 1
unfolding run
slow_reader = refl

-- The third subscription, of standard frames, on the mux with the slow one; a fourth comes and the
-- second goes before the frame is read.
subscribe_isolated_example :
    (find 2
      (run (subscribe two standard_only 1).0 (
        subscribes none 4
        ∷ cancels 1
        ∷ checks
        ∷ receives nobody (ok beat)
        ∷ cancels 3
        ∷ closes
        ∷ [])).subs)
    ≡ find 2
        (run
          (record (subscribe two standard_only 1).0 { subs = fresh 2 standard_only 1 ∷ [] })
          (checks ∷ receives nobody (ok beat) ∷ closes ∷ [])).subs
unfolding run
subscribe_isolated_example =
    subscribe_isolated two standard_only 1
      (subscribes none 4 ∷ cancels 1 ∷ checks ∷ receives nobody (ok beat) ∷ cancels 3 ∷ closes ∷ [])
      (omega arith)

-- At the end its channel is closed and holds the frame.
third_got :
    find 2
      (run
        (subscribe two standard_only 1).0
        (checks ∷ receives nobody (ok beat) ∷ closes ∷ [])).subs
    ≡ some (record (fresh 2 standard_only 1) { queue = beat ∷ []; live = false })
unfolding run standard_only
third_got = refl

-- The first of the two was cancelled.
abbrev cancelled : Mux
cancelled = run two (cancels 0 ∷ [])

-- The reader waits for a frame.
abbrev waits : Mux
waits = run two (checks ∷ [])

abbrev over : Mux
over = run two (closes ∷ checks ∷ [])

late_subscription_example :
    (find 2 (run (subscribe over standard_only 1).0 (closes ∷ cancels 1 ∷ [])).subs
      ≡ some (fresh 2 standard_only 1))
    × (take_frame (fresh 2 standard_only 1) ≡ none)
unfolding run
late_subscription_example =
    late_subscription over standard_only 1 (closes ∷ cancels 1 ∷ []) (refl, refl) (omega arith)
      ((λ e. cc), ((λ e. ground (arith, e)), tt))
