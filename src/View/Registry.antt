-- ===== src/View/Registry.antt =====
-- viewer/crates/btelem-viewer/src/view_state.rs: the plots, their registry, the tint of a drop zone
-- and the move of a channel between plots.
pub mod Moves
use btelem.Prelude.{
  ℕ, ◌+◌, ◌%◌, ◌^◌, Bool, true, false, not, List, [], ◌∷◌, Option, none, some, Text, ◌==◌,
  if◌then◌else◌, any, map_get, map_insert, map_remove, length, map, ltb,
}
use btelem.Store.{ChannelId, ChannelInfo}
use btelem.View.Panels.{
  LabelRadix, ScalarPanel, LogicAnalyserPanel, is_scalar, accepts_logic, state_label_text_limit,
}
use btelem.View.ScalarPanel as ScalarMethods
use btelem.View.LogicPanel
use btelem.View.Filter.{ColumnFilter}

pub record LogViewPanel (F : Type 0) : Type 0 where
  pub title : Text
  pub group : Text
  pub columns : List ChannelId
  pub visible : List ℕ
  pub filters : List (ChannelId × ColumnFilter F)
  pub color_by : Option ChannelId
  pub priority_by : Option ChannelId
  pub max_rows : ℕ

abbrev pub log_view_default_max_rows : ℕ
log_view_default_max_rows = 1000

unfoldable pub new_log_view : {F : Type 0} → Text → Text → LogViewPanel F
new_log_view title group = record {
  title = title;
  group = group;
  columns = [];
  visible = [];
  filters = [];
  color_by = none;
  priority_by = none;
  max_rows = log_view_default_max_rows;
}

pub record XyPlot : Type 0 where
  pub title : Text
  pub x : ChannelId
  pub y : ChannelId
  pub trail_ns : Option ℕ

pub data PlotKind (F : Type 0) : Type 0 where
  scalar_plot : ScalarPanel → PlotKind F
  logic_analyser : LogicAnalyserPanel → PlotKind F
  log_view : LogViewPanel F → PlotKind F
  xy : XyPlot → PlotKind F

abbrev pub PlotId : Type 0
PlotId = ℕ

module _ {F : Type 0} where
  unfoldable pub title : PlotKind F → Text
  title (scalar_plot p) = p.title
  title (logic_analyser p) = p.title
  title (log_view p) = p.title
  title (xy p) = p.title

  -- An assignment through `title_mut`.
  unfoldable pub set_title : Text → PlotKind F → PlotKind F
  set_title t (scalar_plot p) = scalar_plot (record p { title = t })
  set_title t (logic_analyser p) = logic_analyser (record p { title = t })
  set_title t (log_view p) = log_view (record p { title = t })
  set_title t (xy p) = xy (record p { title = t })

  unfoldable pub accepts : PlotKind F → ChannelInfo → Bool
  unfolding accepts_logic
  accepts (scalar_plot p) ch = is_scalar ch.kind
  accepts (logic_analyser p) ch = accepts_logic ch
  accepts (log_view p) ch = false
  accepts (xy p) ch = is_scalar ch.kind

pub record PlotRegistry (F : Type 0) : Type 0 where
  pub plots : List (PlotId × PlotKind F)
  pub next_id : ℕ

module _ {F : Type 0} where
  abbrev pub new_registry : PlotRegistry F
  new_registry = record { plots = []; next_id = 0 }

  unfoldable pub insert : PlotRegistry F → PlotKind F → PlotRegistry F × PlotId
  insert r kind =
      (record { plots = map_insert r.next_id kind r.plots; next_id = r.next_id + 1 }, r.next_id)

  unfoldable pub remove : PlotRegistry F → PlotId → PlotRegistry F × Option (PlotKind F)
  remove r id = (record r { plots = map_remove id r.plots }, map_get id r.plots)

  unfoldable pub get : PlotRegistry F → PlotId → Option (PlotKind F)
  get r id = map_get id r.plots

  -- A change through `get_mut`, where the plot is there.
  unfoldable pub update : PlotRegistry F → PlotId → (PlotKind F → PlotKind F) → PlotRegistry F
  update r id f = elim (map_get id r.plots) [
    | none ↦ r
    | some plot ↦ record r { plots = map_insert id (f plot) r.plots }
  ]

  unfoldable pub len : PlotRegistry F → ℕ
  len r = length r.plots

  unfoldable pub iter_ids : PlotRegistry F → List PlotId
  iter_ids r = map (λ e. e.0) r.plots

pub data DragPayload : Type 0 where
  channel : ChannelId → DragPayload
  channels : List ChannelId → DragPayload
  group : Text → List ChannelId → DragPayload
  xy_seed : ChannelId → DragPayload

pub data DropTint : Type 0 where
  accept reject : DropTint

abbrev pub set_radix_if : Option LabelRadix → ChannelId → LogicAnalyserPanel → LogicAnalyserPanel
set_radix_if none ch p = p
set_radix_if (some r) ch p = LogicPanel.set_radix p ch r

module _ {F : Type 0} where
  -- `by_id.get(c).is_some_and(|i| plot.accepts(i))`
  abbrev pub known_accepts : PlotKind F → List (ChannelId × ChannelInfo) → ChannelId → Bool
  known_accepts plot by_id c = elim (map_get c by_id) [ none ↦ false | some i ↦ accepts plot i ]

  unfoldable pub tint_for_drop :
      DragPayload → PlotKind F → List (ChannelId × ChannelInfo) → Option DropTint
  unfolding accepts
  tint_for_drop (channel ch) plot by_id = elim (map_get ch by_id) [
    | none ↦ none
    | some info ↦ some (if accepts plot info then accept else reject)
  ]
  tint_for_drop (channels chs) plot by_id =
      some (if any (known_accepts plot by_id) chs then accept else reject)
  tint_for_drop (group name chs) plot by_id = none
  tint_for_drop (xy_seed ch) plot by_id = none

  -- What the target and the source of a move do.
  unfoldable pub receive : ChannelId → ChannelInfo → Option LabelRadix → PlotKind F → PlotKind F
  receive ch info radix (scalar_plot p) = scalar_plot (ScalarMethods.add p info).0
  receive ch info radix (logic_analyser p) =
      logic_analyser (set_radix_if radix ch (LogicPanel.add p info).0)
  receive ch info radix (log_view p) = log_view p
  receive ch info radix (xy p) = xy p

  unfoldable pub give_up : ChannelId → PlotKind F → PlotKind F
  give_up ch (scalar_plot p) = scalar_plot (ScalarMethods.remove p ch)
  give_up ch (logic_analyser p) = logic_analyser (LogicPanel.remove p ch)
  give_up ch (log_view p) = log_view p
  give_up ch (xy p) = xy p

  unfoldable pub try_move_channel :
      PlotRegistry F
      → PlotId
      → PlotId
      → ChannelId
      → ChannelInfo
      → Option LabelRadix
      → PlotRegistry F × Bool
  unfolding get update receive give_up accepts
  try_move_channel plots from to ch info radix =
      if from == to
      then (plots, false)
      else if elim (get plots to) [ none ↦ false | some k ↦ accepts k info ]
      then (update (update plots to (receive ch info radix)) from (give_up ch), true)
      else (plots, false)

pub data StateLaneMode : Type 0 where
  labels heatmap : StateLaneMode

unfoldable pub state_lane_mode : ℕ → StateLaneMode
state_lane_mode distinct = if ltb state_label_text_limit distinct then heatmap else labels
