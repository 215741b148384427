-- ===== src/SyncWriter/Counting.antt =====
-- What the loops of a SYNCWriter send, and what Start and Stop do to them.
use canbus.Prelude.{
  ℕ, zero, suc, ◌+◌, ◌%◌, ◌≡◌, refl, ap, sym, ◌∙◌, arith, bit_and, Bool, true, false, Option, none,
  some, List, [], ◌∷◌, ◌++◌, All, length, length-append, if◌then◌else◌,
}
use canbus.Prelude.Bits.{and_mask}
use canbus.Frame.{Frame}
use canbus.Message.Sync.{sync_frame}
use canbus.SyncWriter.{
  Loop, SyncWriter, new_sync_writer, new_loop, start_writer, stop_writer, tick_frame, tick_loop,
  quit_loop, at_loop, Event, starts, stops, ticks, quits, step, run,
}

-- The counter of the frame at position `i` of a loop.
abbrev pub counter_at : Bool → ℕ → Option ℕ
counter_at true i = some (i % 128)
counter_at false i = none

-- The first `n` frames of a loop: SYNC messages that count from 0 and wrap at 128, or have no
-- counter.
abbrev pub expected : Bool → ℕ → List Frame
expected with_counter zero = []
expected with_counter (suc n) =
    expected with_counter n ++ (sync_frame (counter_at with_counter n) ∷ [])

pub record IsCounted (with_counter : Bool) (l : Loop) : Type 0 where
  pub sent_expected : l.sent ≡ expected with_counter (length l.sent)
  pub counts : with_counter ≡ true → l.counter ≡ length l.sent % 128

tick_frame-sync_frame :
    (with_counter : Bool) (counter i : ℕ)
    → (with_counter ≡ true → counter ≡ i % 128)
    → tick_frame with_counter counter ≡ sync_frame (counter_at with_counter i)
unfolding tick_frame sync_frame
tick_frame-sync_frame true counter i h = ground (arith, h refl, and_mask 7 counter)
tick_frame-sync_frame false counter i h = refl

length-snoc : (frames : List Frame) (f : Frame) → length (frames ++ (f ∷ [])) ≡ suc (length frames)
length-snoc frames f = omega (arith, length-append frames (f ∷ []))

abbrev ticked : Bool → Loop → Loop
ticked with_counter l = record l {
  counter = if with_counter then bit_and (l.counter + 1) 0x7F else l.counter;
  sent = l.sent ++ (tick_frame with_counter l.counter ∷ []);
}

ticked-IsCounted :
    (with_counter : Bool) (l : Loop)
    → IsCounted with_counter l
    → IsCounted with_counter (ticked with_counter l)
ticked-IsCounted with_counter l h =
    let n : ℕ = length l.sent in
    let f : Frame = tick_frame with_counter l.counter in
    record {
      sent_expected =
          ap (λ (g : Frame). l.sent ++ (g ∷ []))
            (tick_frame-sync_frame with_counter l.counter n h.counts)
          ∙ ap (λ (s : List Frame). s ++ (sync_frame (counter_at with_counter n) ∷ []))
              h.sent_expected
          ∙ ap (expected with_counter) (sym (length-snoc l.sent f));
      counts = λ e. ground (arith, h.counts e, length-snoc l.sent f, and_mask 7 (l.counter + 1));
    }

tick_loop-IsCounted :
    (with_counter : Bool) (l : Loop)
    → IsCounted with_counter l
    → IsCounted with_counter (tick_loop with_counter l)
unfolding tick_loop
tick_loop-IsCounted with_counter l h = either l.running
  where
    either :
        (running : Bool) → IsCounted with_counter (if running then ticked with_counter l else l)
    either true = ticked-IsCounted with_counter l h
    either false = h

quit_loop-IsCounted :
    (with_counter : Bool) (stop : Option Bool) (l : Loop)
    → IsCounted with_counter l
    → IsCounted with_counter (quit_loop stop l)
unfolding quit_loop
quit_loop-IsCounted with_counter none l h = h
quit_loop-IsCounted with_counter (some true) l h = record {
  sent_expected = h.sent_expected;
  counts = h.counts;
}
quit_loop-IsCounted with_counter (some false) l h = h

module _ (P : Loop → Type 0) where
  All-at_loop :
      (k : ℕ) (g : Loop → Loop) (loops : List Loop)
      → ((l : Loop) → P l → P (g l))
      → All P loops
      → All P (at_loop k g loops)
  All-at_loop k g [] keep h = tt
  All-at_loop zero g (l ∷ loops) keep h = (keep l h.0, h.1)
  All-at_loop (suc k) g (l ∷ loops) keep h = (h.0, All-at_loop k g loops keep h.1)

  All-snoc : (loops : List Loop) (l : Loop) → All P loops → P l → All P (loops ++ (l ∷ []))
  All-snoc [] l h p = (p, tt)
  All-snoc (m ∷ loops) l h p = (h.0, All-snoc loops l h.1 p)

abbrev pub AllCounted : SyncWriter → Type 0
AllCounted w = All (IsCounted w.with_counter) w.loops

stop_writer-AllCounted :
    (w : SyncWriter) (stop : Option Bool)
    → w.stop ≡ stop
    → AllCounted w
    → AllCounted (stop_writer w)
unfolding stop_writer
stop_writer-AllCounted w none e h = rw (e, stop_writer) h
stop_writer-AllCounted w (some is_closed) e h = rw (e, stop_writer) h

step-AllCounted : (w : SyncWriter) (e : Event) → AllCounted w → AllCounted (step w e)
unfolding step start_writer
step-AllCounted w starts h =
    All-snoc (IsCounted w.with_counter) w.loops new_loop h
      (record { sent_expected = refl; counts = λ e. refl })
step-AllCounted w stops h = stop_writer-AllCounted w w.stop refl h
step-AllCounted w (ticks k) h =
    All-at_loop (IsCounted w.with_counter) k (tick_loop w.with_counter) w.loops
      (tick_loop-IsCounted w.with_counter) h
step-AllCounted w (quits k) h =
    All-at_loop (IsCounted w.with_counter) k (quit_loop w.stop) w.loops
      (quit_loop-IsCounted w.with_counter w.stop) h

run-AllCounted : (w : SyncWriter) (events : List Event) → AllCounted w → AllCounted (run w events)
unfolding run
run-AllCounted w [] h = h
run-AllCounted w (e ∷ events) h = run-AllCounted (step w e) events (step-AllCounted w e h)

-- Whatever is started, stopped and interleaved, the frames of each loop of a new writer are SYNC
-- messages that count 0, 1, 2, and so on, with the counter wrapping at 128, or that carry no
-- counter.
pub loops_count :
    (with_counter : Bool) (events : List Event)
    → AllCounted (run (new_sync_writer with_counter) events)
loops_count with_counter events = run-AllCounted (new_sync_writer with_counter) events tt

-- The loops that have not returned.
abbrev pub count_running : List Loop → ℕ
count_running [] = 0
count_running (l ∷ loops) = (if l.running then 1 else 0) + count_running loops

count_running-snoc :
    (loops : List Loop) (l : Loop)
    → count_running (loops ++ (l ∷ [])) ≡ count_running loops + count_running (l ∷ [])
count_running-snoc [] l = omega arith
count_running-snoc (m ∷ loops) l = omega (arith, count_running-snoc loops l)

stop_writer-loops :
    (w : SyncWriter) (stop : Option Bool)
    → w.stop ≡ stop
    → ((stop_writer w).loops ≡ w.loops) × ((stop_writer w).with_counter ≡ w.with_counter)
unfolding stop_writer
stop_writer-loops w none e = rw (e, stop_writer) (refl, refl)
stop_writer-loops w (some is_closed) e = rw (e, stop_writer) (refl, refl)

-- Each call of Start starts one more loop, also on a writer that runs; Stop returns with all its
-- loops still running, and a tick that comes then is sent as if Stop had not been called.
pub start_and_stop :
    (w : SyncWriter) (k : ℕ)
    → (count_running (start_writer w).loops ≡ count_running w.loops + 1)
      × (count_running (stop_writer w).loops ≡ count_running w.loops)
      × ((step (stop_writer w) (ticks k)).loops ≡ (step w (ticks k)).loops)
unfolding start_writer step
start_and_stop w k =
    let (same, counter) = stop_writer-loops w w.stop refl in
    (count_running-snoc w.loops new_loop, ap count_running same, cc)
