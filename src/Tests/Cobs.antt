-- ===== src/Tests/Cobs.antt =====
-- Runs of canopen/ids.go.
use canbus.Prelude.{◌<◌, arith, inl, ◌≡◌, ◌↔◌, refl, ok, err, not_in_ranges}
use canbus.Cob.{cob_id, parse_range, parse_cob_id, fc_sdo_tx}
use canbus.Cob.Laws.{parse_cob_id-cob_id}

-- The unassigned range.
no_service : parse_cob_id 0x6A0 ≡ err (not_in_ranges 0x6A0)
unfolding parse_cob_id parse_range
no_service = refl

-- An emergency of node 5 and a SYNC have one function code.
emergency_or_sync : parse_cob_id 0x85 ≡ ok (0x80, 5)
unfolding parse_cob_id parse_range
emergency_or_sync = refl

parse_cob_id-cob_id_example :
    (parse_cob_id 0x5FF ≡ ok (fc_sdo_tx, 127)) ↔ ((cob_id fc_sdo_tx 127 ≡ 0x5FF) × (127 < 128))
parse_cob_id-cob_id_example = parse_cob_id-cob_id 0x5FF fc_sdo_tx 127 (record {
  aligned = refl;
  not_nmt = omega arith;
  not_time = omega arith;
  in_use = inl (omega arith);
})
