-- ===== src/View/Layout/Resolve.antt =====
-- viewer/crates/btelem-viewer/src/layout.rs: the parts of `apply` that fill one plot. The channels are
-- found by their paths.
use btelem.Prelude.{
  ℕ, zero, suc, Bool, true, false, not, ◌||◌, ◌&&◌, max, List, [], ◌∷◌, ◌++◌, Option, none, some,
  Text, codes, ◌==◌, map, filter_map, retain, length, text_eq, text_get, text_insert, set_has,
  if◌then◌else◌, map_insert,
}
use btelem.Store.{ChannelId, ChannelInfo}
use btelem.View.Panels.{
  LaneMode, named, numeric, ScalarPanel, LogicAnalyserPanel, is_scalar, is_state, default_lane_mode,
}
use btelem.View.ScalarPanel as ScalarMethods
use btelem.View.LogicPanel
use btelem.View.Registry.{LogViewPanel, new_log_view}
use btelem.View.Filter.{ColumnFilter, starts_with}
use btelem.View.Layout.{FilterSpec, to_filter, LogicLaneSpec, Styles, ApplyReport, add_missing}

abbrev pub ByPath : Type 0
ByPath = List (Text × ChannelInfo)

-- `channels.iter().map(|c| (c.path.as_str(), c)).collect()`
unfoldable pub index_paths : List ChannelInfo → ByPath → ByPath
index_paths [] by_path = by_path
index_paths (c ∷ channels) by_path = index_paths channels (text_insert c.path c by_path)

-- The loops that add the channels of a scalar plot.
unfoldable pub add_scalars :
    ByPath → List Text → ScalarPanel → ApplyReport → ScalarPanel × ApplyReport
unfolding ScalarMethods.add add_missing
add_scalars by_path [] p report = (p, report)
add_scalars by_path (path ∷ paths) p report = elim (text_get path by_path) [
  | none ↦ add_scalars by_path paths p (add_missing report path)
  | some info ↦
      if is_scalar info.kind
      then add_scalars by_path paths (ScalarMethods.add p info).0 report
      else add_scalars by_path paths p (add_missing report path)
]

-- The loops over the styles; that of a legacy plot looks at scalar channels only.
unfoldable pub add_styles : ByPath → Bool → Styles → ScalarPanel → ScalarPanel
unfolding ScalarMethods.style_for_mut
add_styles by_path legacy [] p = p
add_styles by_path legacy ((path, style) ∷ styles) p =
    add_styles by_path legacy styles (elim (text_get path by_path) [
      | none ↦ p
      | some info ↦
          if not legacy || is_scalar info.kind
          then ScalarMethods.style_for_mut p info.id (λ old. style)
          else p
    ])

-- The loops over the state channels of legacy plots; the last result is `had_any`.
unfoldable pub add_states :
    ByPath
    → List Text
    → LogicAnalyserPanel
    → Bool
    → ApplyReport
    → LogicAnalyserPanel × Bool × ApplyReport
unfolding LogicPanel.add add_missing
add_states by_path [] p had_any report = (p, had_any, report)
add_states by_path (path ∷ paths) p had_any report = elim (text_get path by_path) [
  | none ↦ add_states by_path paths p had_any (add_missing report path)
  | some info ↦
      if is_state info.kind
      then add_states by_path paths (LogicPanel.add p info).0 true report
      else add_states by_path paths p had_any (add_missing report path)
]

abbrev pub is_named : LaneMode → Bool
is_named named = true
is_named numeric = false

abbrev pub restored_mode : LaneMode → ChannelInfo → LaneMode
restored_mode mode info =
    if is_named mode && not (is_state info.kind)
    then default_lane_mode info.kind info.integer_storage
    else mode

-- What happens to a lane that `add` took.
abbrev pub set_lane : LogicLaneSpec → ChannelInfo → LogicAnalyserPanel → LogicAnalyserPanel
set_lane ls info p =
    LogicPanel.set_mode (LogicPanel.set_radix p info.id ls.radix) info.id
      (restored_mode ls.mode info)

unfoldable pub add_lane : LogicLaneSpec → ChannelInfo → LogicAnalyserPanel → LogicAnalyserPanel
unfolding LogicPanel.add LogicPanel.set_radix LogicPanel.set_mode default_lane_mode
add_lane ls info p =
    let (p', added) = LogicPanel.add p info in if added then set_lane ls info p' else p'

unfoldable pub add_lanes :
    ByPath
    → List LogicLaneSpec
    → LogicAnalyserPanel
    → ApplyReport
    → LogicAnalyserPanel × ApplyReport
unfolding add_lane add_missing
add_lanes by_path [] p report = (p, report)
add_lanes by_path (ls ∷ lanes) p report = elim (text_get ls.ch_path by_path) [
  | none ↦ add_lanes by_path lanes p (add_missing report ls.ch_path)
  | some info ↦
      if is_state info.kind || info.integer_storage
      then add_lanes by_path lanes (add_lane ls info p) report
      else add_lanes by_path lanes p (add_missing report ls.ch_path)
]

-- `c.path == *group || c.path.starts_with(&format!("{group}."))`
unfoldable pub in_group : Text → ChannelInfo → Bool
unfolding starts_with
in_group group c = text_eq c.path group || starts_with c.path (group ++ codes ".")

abbrev pub group_columns : List ChannelInfo → Text → List ChannelId
group_columns channels group = map (λ c. c.id) (retain (in_group group) channels)

-- `iter().position(|id| *id == x)`
abbrev pub position : List ChannelId → ChannelId → Option ℕ
position [] x = none
position (y ∷ ys) x =
    if y == x then some 0 else elim (position ys x) [ none ↦ none | some i ↦ some (suc i) ]

-- `(i..i + n).collect()`
abbrev pub range_from : ℕ → ℕ → List ℕ
range_from i zero = []
range_from i (suc n) = i ∷ range_from (suc i) n

abbrev pub visible_column : ByPath → List ChannelId → Text → Option ℕ
visible_column by_path columns path = elim (text_get path by_path) [
  | none ↦ none
  | some info ↦ position columns info.id
]

abbrev pub restored_visible : ByPath → List ChannelId → List Text → List ℕ
restored_visible by_path columns [] = range_from 0 (length columns)
restored_visible by_path columns (path ∷ paths) =
    filter_map (visible_column by_path columns) (path ∷ paths)

-- A channel that is among the columns.
abbrev pub column_of : ByPath → List ChannelId → Text → Option ChannelId
column_of by_path columns path = elim (text_get path by_path) [
  | none ↦ none
  | some info ↦ if set_has columns info.id then some info.id else none
]

abbrev pub and_column_of : ByPath → List ChannelId → Option Text → Option ChannelId
and_column_of by_path columns none = none
and_column_of by_path columns (some path) = column_of by_path columns path

abbrev pub or_default_rows : Option ℕ → ℕ → ℕ
or_default_rows none d = d
or_default_rows (some m) d = max m 1

module _ {F : Type 0} where
  unfoldable pub add_filters :
      ByPath
      → List ChannelId
      → List (Text × FilterSpec F)
      → List (ChannelId × ColumnFilter F)
      → List (ChannelId × ColumnFilter F)
  unfolding to_filter
  add_filters by_path columns [] filters = filters
  add_filters by_path columns ((path, spec) ∷ specs) filters =
      add_filters by_path columns specs (elim (column_of by_path columns path) [
        | none ↦ filters
        | some id ↦ map_insert id (to_filter spec) filters
      ])

  unfoldable pub restore_log_view :
      ByPath
      → List ChannelInfo
      → Text
      → Text
      → List Text
      → List (Text × FilterSpec F)
      → Option Text
      → Option Text
      → Option ℕ
      → LogViewPanel F
  unfolding new_log_view in_group add_filters
  restore_log_view by_path channels title group visible filters color_by priority_by max_rows =
      let p = new_log_view title group in
      let columns = group_columns channels group in
      record p {
        columns = columns;
        visible = restored_visible by_path columns visible;
        filters = add_filters by_path columns filters [];
        color_by = and_column_of by_path columns color_by;
        priority_by = and_column_of by_path columns priority_by;
        max_rows = or_default_rows max_rows p.max_rows;
      }
