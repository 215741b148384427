-- ===== src/Tests/SyncWriters.antt =====
-- Runs of the SYNCWriter of canopen/sync.go.
use canbus.Prelude.{ℕ, ◌≡◌, refl, true, List, [], ◌∷◌}
use canbus.Frame.{Frame}
use mathlib.Core.List.{map}
use canbus.SyncWriter.{Loop, SyncWriter, new_sync_writer, Event, starts, stops, ticks, quits, run}
use canbus.SyncWriter.Counting.{AllCounted, loops_count}

-- Start twice, three ticks, Stop, one more tick, and the end of the first loop.
abbrev busy : List Event
busy = starts ∷ starts ∷ ticks 0 ∷ ticks 1 ∷ ticks 0 ∷ stops ∷ ticks 1 ∷ quits 0 ∷ []

abbrev counters : Loop → List ℕ
counters l = map (λ (f : Frame). f.payload.b0) l.sent

busy-counters :
    map counters (run (new_sync_writer true) busy).loops ≡ (0 ∷ 1 ∷ []) ∷ (0 ∷ 1 ∷ []) ∷ []
unfolding run
busy-counters = refl

loops_count_example : AllCounted (run (new_sync_writer true) busy)
loops_count_example = loops_count true busy

abbrev started : SyncWriter
started = run (new_sync_writer true) (starts ∷ ticks 0 ∷ [])
