-- ===== src/SocketCan/Closing.antt =====
-- Close of socketcan_linux.go where several goroutines are in it: the select on the channel, the
-- close of the channel and the close of the file are steps of their own.
pub mod Twice
use canbus.Prelude.{
  ℕ, zero, suc, ◌+◌, ◌≤◌, ◌<◌, ◌≡◌, ◌≢◌, refl, sym, ◌∙◌, ap, arith, Bool, true, false, List, [],
  ◌∷◌, length, get_or, if◌then◌else◌, ◌==◌, ◌||◌, ==→eq, Bool-cases, inl, inr, ◌⊎◌,
}

-- Where a goroutine is that called Close.
pub data Closer : Type 0 where
  calling past_select closing_file returned panicked : Closer

-- `s.closed`, how often the file was closed, and the goroutines.
pub record Closing : Type 0 where
  pub is_closed : Bool
  pub file_closes : ℕ
  pub closers : List Closer

-- One step of a goroutine, by whether the channel is closed: whether it is closed then, how often
-- the file was closed in the step, and where the goroutine is.
unfoldable pub step_closer : Bool → Closer → Bool × ℕ × Closer
step_closer true calling = (true, 0, returned)
step_closer false calling = (false, 0, past_select)
step_closer true past_select = (true, 0, panicked)
step_closer false past_select = (true, 0, closing_file)
step_closer b closing_file = (b, 1, returned)
step_closer b returned = (b, 0, returned)
step_closer b panicked = (b, 0, panicked)

unfoldable pub step_nth : ℕ → Bool → List Closer → Bool × ℕ × List Closer
unfolding step_closer
step_nth i b [] = (b, 0, [])
step_nth zero b (c ∷ cs) = let (b', n, c') = step_closer b c in (b', n, c' ∷ cs)
step_nth (suc i) b (c ∷ cs) = let (b', n, cs') = step_nth i b cs in (b', n, c ∷ cs')

-- Goroutine `i` makes a step.
unfoldable pub step : ℕ → Closing → Closing
unfolding step_nth
step i s =
    let (b, n, cs) = step_nth i s.is_closed s.closers in
    record { is_closed = b; file_closes = s.file_closes + n; closers = cs }

unfoldable pub run : List ℕ → Closing → Closing
unfolding step
run [] s = s
run (i ∷ is) s = run is (step i s)

-- That many goroutines call Close on an open socket.
abbrev pub callers : ℕ → List Closer
callers zero = []
callers (suc n) = calling ∷ callers n

abbrev pub start : ℕ → Closing
start n = record { is_closed = false; file_closes = 0; closers = callers n }

abbrev weight : Closer → ℕ
weight closing_file = 1
weight _ = 0

-- How many are about to close the file.
abbrev pub closings : List Closer → ℕ
closings [] = 0
closings (c ∷ cs) = weight c + closings cs

abbrev pub bit : Bool → ℕ
bit b = if b then 1 else 0

step_closer-count :
    (b : Bool) (c : Closer)
    → let (b', n, c') = step_closer b c in weight c' + n + bit b ≡ weight c + bit b'
unfolding step_closer
step_closer-count true calling = refl
step_closer-count false calling = refl
step_closer-count true past_select = refl
step_closer-count false past_select = refl
step_closer-count b closing_file = omega arith
step_closer-count b returned = omega arith
step_closer-count b panicked = omega arith

step_nth-count :
    (i : ℕ) (b : Bool) (cs : List Closer)
    → let (b', n, cs') = step_nth i b cs in closings cs' + n + bit b ≡ closings cs + bit b'
unfolding step_nth
step_nth-count i b [] = omega arith
step_nth-count zero b (c ∷ cs) = omega (arith, step_closer-count b c)
step_nth-count (suc i) b (c ∷ cs) = omega (arith, step_nth-count i b cs)

-- What holds all along.
abbrev pub IsOnce : Closing → Type 0
IsOnce s = closings s.closers + s.file_closes ≡ bit s.is_closed

run-IsOnce : (is : List ℕ) (s : Closing) → IsOnce s → IsOnce (run is s)
unfolding run step
run-IsOnce [] s h = h
run-IsOnce (i ∷ is) s h =
    run-IsOnce is (step i s) (omega (arith, step_nth-count i s.is_closed s.closers))

callers-closings : (n : ℕ) → closings (callers n) ≡ 0
callers-closings zero = refl
callers-closings (suc n) = omega (arith, callers-closings n)

-- However many goroutines call Close at once and however their steps interleave: no more than one
-- of them ever closes the file, and one is about to or has done so exactly where the channel is
-- closed.
pub closed_once :
    (n : ℕ) (is : List ℕ)
    → let s = run is (start n) in
      (s.file_closes ≤ 1) × (closings s.closers + s.file_closes ≡ bit s.is_closed)
closed_once n is =
    let once = run-IsOnce is (start n) (omega (arith, callers-closings n)) in
    (ground (arith, once), once)
