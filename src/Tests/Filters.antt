-- ===== src/Tests/Filters.antt =====
-- Runs of filters.go and canopen/filters.go.
use canbus.Prelude.{ℕ, ◌≡◌, ◌↔◌, arith, true, false, ok}
use canbus.Frame.{Frame, zero_frame}
use canbus.Filter.{passes}
use canbus.Cob.{parse_cob_id}
use canbus.Service.{heartbeat, any_filter}
use canbus.Service.Matching.{any_filter_iff}

abbrev alive : Frame
alive = record zero_frame { id = 0x705; len = 1 }

any_filter_iff_example :
    (passes (any_filter heartbeat) alive ≡ true)
    ↔ ((false ≡ false) × ((node : ℕ) × (parse_cob_id 0x705 ≡ ok (0x700, node))))
any_filter_iff_example = any_filter_iff heartbeat alive (omega arith)
