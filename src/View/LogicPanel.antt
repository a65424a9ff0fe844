-- ===== src/View/LogicPanel.antt =====
-- viewer/crates/btelem-viewer/src/view_state.rs: the methods of `LogicAnalyserPanel`.
use btelem.Prelude.{
  Bool, true, false, not, List, [], ◌∷◌, ◌++◌, Text, ◌==◌, if◌then◌else◌, any, retain,
}
use btelem.Store.{ChannelId, ChannelInfo}
use btelem.View.Panels.{
  LabelRadix, hex, LaneMode, LogicLane, LogicAnalyserPanel, accepts_logic, default_lane_mode,
}

unfoldable pub new : Text → LogicAnalyserPanel
new title = record { title = title; lanes = [] }

unfoldable pub add : LogicAnalyserPanel → ChannelInfo → LogicAnalyserPanel × Bool
unfolding accepts_logic default_lane_mode
add p ch =
    if not (accepts_logic ch)
    then (p, false)
    else if any (λ l. l.ch == ch.id) p.lanes
    then (p, false)
    else (
      record p {
        lanes =
            p.lanes
            ++ (record {
              ch = ch.id;
              mode = default_lane_mode ch.kind ch.integer_storage;
              radix = hex;
            }
                ∷ []);
      },
      true,
    )

unfoldable pub remove : LogicAnalyserPanel → ChannelId → LogicAnalyserPanel
remove p id = record p { lanes = retain (λ l. not (l.ch == id)) p.lanes }

-- An assignment through `iter_mut().find(|l| l.ch == id)`: the first lane of the channel.
abbrev pub at_lane : ChannelId → (LogicLane → LogicLane) → List LogicLane → List LogicLane
at_lane id f [] = []
at_lane id f (l ∷ ls) = if l.ch == id then f l ∷ ls else l ∷ at_lane id f ls

-- `*radix_for_mut(id) = radix` and `*mode_for_mut(id) = mode`, where the lane is there.
unfoldable pub set_radix : LogicAnalyserPanel → ChannelId → LabelRadix → LogicAnalyserPanel
set_radix p id radix = record p { lanes = at_lane id (λ l. record l { radix = radix }) p.lanes }

unfoldable pub set_mode : LogicAnalyserPanel → ChannelId → LaneMode → LogicAnalyserPanel
set_mode p id mode = record p { lanes = at_lane id (λ l. record l { mode = mode }) p.lanes }
