-- ===== src/Filter.antt =====
-- filters.go: FrameFilter and its combinators. A nil filter is `none`.
pub mod Laws
use canbus.Prelude.{
  ℕ, bit_and, Bool, true, false, not, ◌&&◌, ◌||◌, Option, none, some, List, [], ◌∷◌, ltb, leb, ◌==◌,
  if◌then◌else◌,
}
use canbus.Frame.{Frame}

-- `FrameFilter`; filters that are called are never nil.
abbrev pub FrameFilter : Type 0
FrameFilter = Option (Frame → Bool)

-- `s.filter == nil || s.filter(f)`, which is how Mux and loggedBus ask a filter.
abbrev pub passes : FrameFilter → Frame → Bool
passes none f = true
passes (some p) f = p f

-- `ByID(id)`
unfoldable pub by_id : ℕ → FrameFilter
by_id id = some (λ f. f.id == id)

-- The set of identifiers that ByIDs builds: `_, ok := m[id]` and `m[id] = struct{}{}`.
unfoldable pub contains : List ℕ → ℕ → Bool
contains [] id = false
contains (x ∷ m) id = x == id || contains m id

unfoldable pub put : List ℕ → ℕ → List ℕ
put m id = if contains m id then m else id ∷ m

unfoldable pub put_all : List ℕ → List ℕ → List ℕ
put_all m [] = m
put_all m (id ∷ ids) = put_all (put m id) ids

-- `ByIDs(ids...)`
unfoldable pub by_ids : List ℕ → FrameFilter
by_ids ids = let m = put_all [] ids in some (λ f. contains m f.id)

-- `ByRange(minID, maxID)`
unfoldable pub by_range : ℕ → ℕ → FrameFilter
by_range min_id max_id =
    let lo = if ltb max_id min_id then max_id else min_id in
    let hi = if ltb max_id min_id then min_id else max_id in some (λ f. leb lo f.id && leb f.id hi)

-- `ByMask(id, mask)`
unfoldable pub by_mask : ℕ → ℕ → FrameFilter
by_mask id mask = let want = bit_and id mask in some (λ f. bit_and f.id mask == want)

unfoldable pub standard_only : FrameFilter
standard_only = some (λ f. not f.extended)

unfoldable pub extended_only : FrameFilter
extended_only = some (λ f. f.extended)

unfoldable pub data_only : FrameFilter
data_only = some (λ f. not f.rtr)

unfoldable pub rtr_only : FrameFilter
rtr_only = some (λ f. f.rtr)

unfoldable pub len_at_most : ℕ → FrameFilter
len_at_most n = some (λ f. leb f.len n)

unfoldable pub len_exactly : ℕ → FrameFilter
len_exactly n = some (λ f. f.len == n)

-- `And(a, b)`
unfoldable pub and_filter : FrameFilter → FrameFilter → FrameFilter
and_filter none b = b
and_filter (some p) none = some p
and_filter (some p) (some q) = some (λ f. p f && q f)

-- `Or(a, b)`
unfoldable pub or_filter : FrameFilter → FrameFilter → FrameFilter
or_filter none b = b
or_filter (some p) none = some p
or_filter (some p) (some q) = some (λ f. p f || q f)

-- `Not(a)`
unfoldable pub not_filter : FrameFilter → FrameFilter
not_filter none = some (λ f. true)
not_filter (some p) = some (λ f. not (p f))
