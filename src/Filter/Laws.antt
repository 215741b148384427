-- ===== src/Filter/Laws.antt =====
-- What the filters match.
use canbus.Prelude.{
  ℕ, ◌≤◌, ◌≡◌, refl, ap, ◌↔◌, ◌⊎◌, arith, Bool, true, false, ◌&&◌, ◌||◌, none, some, List, [], ◌∷◌,
  ◌==◌,
}
use mathlib.Core.Path.{fun_ext}
use canbus.Frame.{Frame}
use canbus.Filter.{
  FrameFilter, passes, contains, put, put_all, by_ids, by_range, and_filter, or_filter, not_filter,
}

-- Membership as a Boolean, of the list that the caller gives.
abbrev pub listed : List ℕ → ℕ → Bool
listed [] id = false
listed (x ∷ xs) id = x == id || listed xs id

contains-put : (m : List ℕ) (a id : ℕ) → contains (put m a) id ≡ (a == id || contains m id)
unfolding contains put
contains-put m a id = ground arith

contains-put_all :
    (m ids : List ℕ) (id : ℕ) → contains (put_all m ids) id ≡ (listed ids id || contains m id)
unfolding put_all
contains-put_all m [] id = refl
contains-put_all m (a ∷ ids) id =
    ground (arith, contains-put_all (put m a) ids id, contains-put m a id)

-- ByIDs matches exactly the frames whose identifier is among those given, whatever their order
-- and however often they are given; no identifiers match nothing.
pub passes-by_ids : (ids : List ℕ) (f : Frame) → passes (by_ids ids) f ≡ listed ids f.id
unfolding by_ids contains
passes-by_ids ids f = ground (arith, contains-put_all [] ids f.id)

-- ByRange matches the frames with an identifier between its bounds, both included, in whichever
-- order the bounds are given.
pub passes-by_range :
    (a b : ℕ) (f : Frame)
    → (passes (by_range a b) f ≡ true) ↔ (((a ≤ f.id) × (f.id ≤ b)) ⊎ ((b ≤ f.id) × (f.id ≤ a)))
unfolding by_range
passes-by_range a b f = ground arith

-- And passes what both pass, with nil as the filter that passes everything.
pub passes-and_filter :
    (a b : FrameFilter) (f : Frame) → passes (and_filter a b) f ≡ (passes a f && passes b f)
unfolding and_filter
passes-and_filter none b f = refl
passes-and_filter (some p) none f = ground arith
passes-and_filter (some p) (some q) f = refl

-- Double negation, and De Morgan's law in both forms, as equations between filters that are not
-- nil.
pub not_filter_laws :
    (p q : Frame → Bool)
    → (not_filter (not_filter (some p)) ≡ some p)
      × (not_filter (and_filter (some p) (some q))
          ≡ or_filter (not_filter (some p)) (not_filter (some q)))
      × (not_filter (or_filter (some p) (some q))
          ≡ and_filter (not_filter (some p)) (not_filter (some q)))
unfolding not_filter and_filter or_filter
not_filter_laws p q = (
  ap some (fun_ext (λ f. ground arith)),
  ap some (fun_ext (λ f. ground arith)),
  ap some (fun_ext (λ f. ground arith)),
)
