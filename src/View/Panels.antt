-- ===== src/View/Panels.antt =====
-- viewer/crates/btelem-viewer/src/view_state.rs: the panels and what they accept. A `HashMap` is an
-- association list, a `HashSet` the list of its members.
use btelem.Prelude.{ℕ, Bool, true, false, ◌||◌, ◌&&◌, List, Text, ◌==◌, any}
use btelem.Store.{ChannelId, ChannelKind, ChannelInfo, scalar, state, text}

pub data LabelRadix : Type 0 where
  dec hex bin : LabelRadix

pub data LaneMode : Type 0 where
  named numeric : LaneMode

unfoldable pub requires_labels : LaneMode → Bool
requires_labels named = true
requires_labels numeric = false

abbrev pub is_scalar : ChannelKind → Bool
is_scalar scalar = true
is_scalar _ = false

abbrev pub is_state : ChannelKind → Bool
is_state (state labels) = true
is_state _ = false

unfoldable pub channel_has_labels : ChannelInfo → Bool
channel_has_labels ch = is_state ch.kind

pub data LineStyle : Type 0 where
  line step points points_line : LineStyle

pub data LineWidth : Type 0 where
  thin medium thick : LineWidth

pub record SignalStyle : Type 0 where
  pub line : LineStyle
  pub width : LineWidth
  pub envelope : Bool

abbrev pub default_style : SignalStyle
default_style = record { line = step; width = medium; envelope = false }

pub record ScalarPanel : Type 0 where
  pub title : Text
  pub channels : List ChannelId
  pub styles : List (ChannelId × SignalStyle)
  pub selected_signals : List ChannelId

pub record LogicLane : Type 0 where
  pub ch : ChannelId
  pub mode : LaneMode
  pub radix : LabelRadix

pub record LogicAnalyserPanel : Type 0 where
  pub title : Text
  pub lanes : List LogicLane

abbrev pub contains : List ChannelId → ChannelId → Bool
contains xs id = any (λ x. x == id) xs

-- `accepts_logic`
unfoldable pub accepts_logic : ChannelInfo → Bool
accepts_logic ch = is_state ch.kind || (is_scalar ch.kind && ch.integer_storage)

unfoldable pub default_lane_mode : ChannelKind → Bool → LaneMode
default_lane_mode (state labels) integer_storage = named
default_lane_mode scalar integer_storage = numeric
default_lane_mode text integer_storage = numeric

-- The threshold between labelled and heat-map rendering of a state lane.
abbrev pub state_label_text_limit : ℕ
state_label_text_limit = 16
