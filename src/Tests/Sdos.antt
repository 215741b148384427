-- ===== src/Tests/Sdos.antt =====
-- Runs of the SDO frames and of the client.
use canbus.Prelude.{◌≡◌, refl, arith, [], ◌∷◌, ok, err, ◌>>=◌, not_expedited}
use canbus.Cob.{validate_node}
use canbus.Sdo.Expedited.{
  sdo_expedited_download, sdo_expedited_download_classic, parse_sdo_expedited_download,
}
use canbus.Sdo.Expedited.RoundTrip.{parse-expedited}
use canbus.Sdo.Abort.{error_text}
use canbus.Prelude.Texts.{codes}

parse-expedited_example :
    ((sdo_expedited_download 5 0x2000 1 (7 ∷ 8 ∷ []) >>= parse_sdo_expedited_download)
      ≡ ok (record { node = 5; index = 0x2000; subindex = 1; bytes = 7 ∷ 8 ∷ [] }))
    × ((sdo_expedited_download_classic 5 0x2000 1 (7 ∷ 8 ∷ []) >>= parse_sdo_expedited_download)
        ≡ err (not_expedited 0x2B))
unfolding validate_node
parse-expedited_example = parse-expedited 5 0x2000 1 (7 ∷ 8 ∷ []) refl (omega arith) (omega arith)

abort_text :
    error_text 0x1018 4 0x06090011
    ≡ codes "canopen: sdo abort 0x06090011 @ 1018:04: sub-index does not exist"
unfolding error_text
abort_text = refl
