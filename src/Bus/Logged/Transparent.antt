-- ===== src/Bus/Logged/Transparent.antt =====
-- What a logged bus shows of its inner bus.
use canbus.Prelude.{
  ℕ, ◌<◌, ◌≤◌, ◌≡◌, ◌≢◌, ◌↔◌, refl, ap, ◌∙◌, arith, true, Option, none, some, List, Result, ok, err,
  Option-cases, inl, inr,
}
use mathlib.Core.Option
use canbus.Frame.{Frame}
use canbus.Filter.{passes}
use canbus.Bus.{Bus}
use canbus.Bus.Logged.{
  Logged, Entry, sent, received, log_read, log_write, enabled, log_frame, log_receive, logged_send,
  logged_receive, logged_close, logged_bus,
}

-- An answer seen through a view of the state.
abbrev pub seen : {V W A : Type 0} → (V → W) → Option (V × A) → Option (W × A)
seen view r = Option.map (λ p. (view p.0, p.1)) r

-- One bus behaves as another of which it holds the state, for frames of at most 8 bytes.
pub record Refines {V W : Type 0} (outer : Bus V) (inner : Bus W) (view : V → W) : Type 0 where
  pub sends : (f : Frame) (s : V) → f.len ≤ 8 → seen view (outer.send f s) ≡ inner.send f (view s)
  pub receives : (s : V) → seen view (outer.receive s) ≡ inner.receive (view s)
  pub closes : (s : V) → seen view (outer.close s) ≡ inner.close (view s)

-- A bus from which no frame of more than 8 bytes comes.
abbrev pub IsBounded : {W : Type 0} → Bus W → Type 0
IsBounded {W} bus = (w v : W) (f : Frame) → bus.receive w ≡ some (v, ok f) → f.len ≤ 8

log_frame_fits :
    (kind : ℕ → Frame → Entry) (option : ℕ) (l : Logged) (f : Frame)
    → f.len ≤ 8
    → (entries : List Entry) × (log_frame kind option l f ≡ some entries)
unfolding log_frame
log_frame_fits kind option l f h = elim (Option-cases (log_frame kind option l f)) [
  | inl e ↦ absurd (ground arith)
  | inr (entries, e) ↦ (entries, e)
]

module _ {W : Type 0} (l : Logged) (inner : Bus W) where
  send_seen :
      (f : Frame) (s : W × List Entry)
      → f.len ≤ 8
      → seen (λ (t : W × List Entry). t.0) (logged_send l inner f s) ≡ inner.send f s.0
  unfolding logged_send
  send_seen f s h =
      let (entries, e) = log_frame_fits sent log_write l f h in
      elim (Option-cases (inner.send f s.0)) [
        | inl p ↦ rw (e, p, logged_send)
        | inr (r, p) ↦ rw (e, p, logged_send)
      ]

  log_receive_fits :
      (r : Result Frame)
      → ((f : Frame) → r ≡ ok f → f.len ≤ 8)
      → (entries : List Entry) × (log_receive l r ≡ some entries)
  unfolding log_receive
  log_receive_fits (ok f) h = log_frame_fits received log_read l f (h f refl)
  log_receive_fits (err e) h = (_, refl)

  receive_seen :
      (s : W × List Entry)
      → IsBounded inner
      → seen (λ (t : W × List Entry). t.0) (logged_receive l inner s) ≡ inner.receive s.0
  unfolding logged_receive
  receive_seen s h = elim (Option-cases (inner.receive s.0)) [
    | inl p ↦ rw (p, logged_receive)
    | inr ((v, r), p) ↦
        let (entries, e) =
          log_receive_fits r (λ f q. h s.0 v f (p ∙ ap (λ (a : Result Frame). some (v, a)) q)) in
        rw (p, e, logged_receive)
  ]

  close_seen :
      (s : W × List Entry)
      → seen (λ (t : W × List Entry). t.0) (logged_close l inner s) ≡ inner.close s.0
  unfolding logged_close
  close_seen s = elim (Option-cases (inner.close s.0)) [
    | inl p ↦ rw (p, logged_close)
    | inr (r, p) ↦ rw (p, logged_close)
  ]

  -- Whatever is logged, a logged bus sends, receives and closes as its inner bus does, with the
  -- same results, errors included: for frames of at most 8 bytes, and an inner bus that receives no
  -- others.
  pub logged_bus-Refines :
      IsBounded inner → Refines (logged_bus l inner) inner (λ (t : W × List Entry). t.0)
  logged_bus-Refines h = record {
    sends = send_seen;
    receives = λ s. receive_seen s h;
    closes = close_seen;
  }

  -- Where the inner Send would not panic, the logged one does exactly on a frame that is to be
  -- logged and says that it has more than 8 bytes, which the inner bus may refuse with an error.
  pub logged_send_panics :
      (f : Frame) (s : W × List Entry)
      → inner.send f s.0 ≢ none
      → (logged_send l inner f s ≡ none)
        ↔ ((enabled l log_write ≡ true) × (passes l.filter f ≡ true) × (8 < f.len))
  unfolding logged_send log_frame
  logged_send_panics f s h = elim (Option-cases (inner.send f s.0)) [
    | inl p ↦ absurd (h p)
    | inr (r, p) ↦ ground (arith, p)
  ]
