-- ===== src/Message/Stream.antt =====
-- SubscribeHeartbeats: its filter, and the heartbeats that its goroutine makes of the frames that
-- the filter passed.
use canbus.Prelude.{
  ℕ, ◌-◌, ◌≡◌, refl, ap, arith, true, false, Option, List, [], ◌∷◌, All, ok, inl, inr, Result-cases,
}
use mathlib.Core.List.{map}
use canbus.Frame.{Frame}
use canbus.Cob.{parse_cob_id, fc_nmt_errctrl}
use canbus.Cob.Laws.{parse_inside, parse_outside}
use canbus.Message.Heartbeat.{Heartbeat, other_node, parse_heartbeat, heartbeat_filter, heartbeats}

-- The heartbeat that a frame of the right range carries.
abbrev pub heartbeat_of : Frame → Heartbeat
heartbeat_of f = record { node = f.id - 0x700; state = f.payload.b0 }

-- The filter passes what the goroutine can parse, and the node is the wanted one.
filter_passed :
    (node_filter : Option ℕ) (f : Frame)
    → heartbeat_filter node_filter f ≡ true
    → (parse_heartbeat f ≡ ok ((heartbeat_of f).node, (heartbeat_of f).state))
      × (other_node node_filter (heartbeat_of f).node ≡ false)
unfolding heartbeat_filter parse_heartbeat
filter_passed node_filter f e = elim (Result-cases (parse_cob_id f.id)) [
  | inl ((fc, node), p) ↦
      ground (arith, p, parse_outside f.id fc node p, parse_inside f.id fc_nmt_errctrl refl)
  | inr (x, p) ↦ ground (arith, p)
]

-- Of the frames that the filter passed none is dropped or reordered: the heartbeats that are sent
-- on are those that the frames carry, one each, and all come from the wanted node, if one is given.
pub heartbeats_delivered :
    (node_filter : Option ℕ) (frames : List Frame)
    → All (λ f. heartbeat_filter node_filter f ≡ true) frames
    → (heartbeats frames ≡ map heartbeat_of frames)
      × All (λ h. other_node node_filter h.node ≡ false) (heartbeats frames)
unfolding heartbeats
heartbeats_delivered node_filter [] h = (refl, tt)
heartbeats_delivered node_filter (f ∷ frames) (e, h) =
    let (parsed, wanted) = filter_passed node_filter f e in
    let (rest, nodes) = heartbeats_delivered node_filter frames h in
    rw (parsed, heartbeats) (ap (◌∷◌ (heartbeat_of f)) rest, (wanted, nodes))
