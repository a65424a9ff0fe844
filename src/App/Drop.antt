-- ===== src/App/Drop.antt =====
-- viewer/crates/btelem-viewer/src/app.rs: `add_logic_lane`, `log_view_from_group` and what a plot does
-- with a payload that is dropped on it. The channels of a `HashMap` come in the order of the list that
-- stands for it.
pub mod LogViews
use btelem.Prelude.{
  ℕ, zero, suc, Bool, true, false, List, [], ◌∷◌, ◌++◌, Option, none, some, Text, codes,
  if◌then◌else◌, map, retain, map_get, length, text_eq,
}
use btelem.Store.{ChannelId, ChannelKind, ChannelInfo}
use btelem.Store.Mock.{Inner, bits_for_word}
use btelem.View.Panels.{ScalarPanel, LogicAnalyserPanel}
use btelem.View.ScalarPanel as ScalarMethods
use btelem.View.LogicPanel
use btelem.View.Registry.{
  LogViewPanel, new_log_view, XyPlot, PlotKind, scalar_plot, logic_analyser, log_view, xy,
  PlotRegistry, PlotId, accepts, get, update, DragPayload, channel, channels, group, xy_seed,
}
use btelem.View.Names.{channel_group, XyDragAccumulator, feed}
use btelem.Render.Labels.{short_name}
use btelem.App.Selection.{position}

abbrev pub ById : Type 0
ById = List (ChannelId × ChannelInfo)

-- `0..n`
abbrev pub up_to : ℕ → ℕ → List ℕ
up_to from zero = []
up_to from (suc n) = from ∷ up_to (suc from) n

unfoldable pub add_bits : ById → LogicAnalyserPanel → List ChannelId → LogicAnalyserPanel
add_bits by_id panel [] = panel
add_bits by_id panel (bit ∷ bits) =
    add_bits by_id
      (elim (map_get bit by_id) [ none ↦ panel | some bi ↦ (LogicPanel.add panel bi).0 ]) bits

-- The ids of the channels of a group.
abbrev pub group_channels : ById → Text → List ChannelId
group_channels by_id name =
    map (λ e. e.1.id) (retain (λ e. text_eq (channel_group e.1.path) name) by_id)

abbrev pub shown_first : List ChannelId → Option ℕ → List ℕ
shown_first columns (some idx) = idx ∷ []
shown_first columns none = up_to 0 (length columns)

abbrev pub is_text : ChannelKind → Bool
is_text ChannelKind.text = true
is_text _ = false

abbrev pub path_or_unknown : ById → ChannelId → Text
path_or_unknown by_id ch = elim (map_get ch by_id) [ none ↦ codes "?" | some i ↦ i.path ]

module _ {F : Type 0} where
  unfoldable pub log_view_from_group : Text → Text → List ChannelId → PlotKind F
  unfolding new_log_view
  log_view_from_group title name chs =
      log_view (record (new_log_view title name) { columns = chs; visible = up_to 0 (length chs) })

  -- A bitfield word becomes the lanes of its bits.
  unfoldable pub add_logic_lane :
      Inner F → ById → LogicAnalyserPanel → ChannelId → ChannelInfo → LogicAnalyserPanel
  unfolding bits_for_word add_bits
  add_logic_lane g by_id panel ch info = elim (bits_for_word g ch) [
    | none ↦ (LogicPanel.add panel info).0
    | some bits ↦ add_bits by_id panel bits
  ]

  -- The plot that takes a channel which it accepts.
  unfoldable pub take_channel : Inner F → ById → ChannelId → ChannelInfo → PlotKind F → PlotKind F
  unfolding add_logic_lane
  take_channel g by_id ch info (scalar_plot p) = scalar_plot (ScalarMethods.add p info).0
  take_channel g by_id ch info (logic_analyser p) =
      logic_analyser (add_logic_lane g by_id p ch info)
  take_channel g by_id ch info (log_view p) = log_view p
  take_channel g by_id ch info (xy p) = xy p

  -- The log view for a text channel, with only this channel visible.
  unfoldable pub text_log_view : ById → ChannelId → ChannelInfo → LogViewPanel F
  unfolding new_log_view
  text_log_view by_id ch info =
      let name = channel_group info.path in
      let columns = group_channels by_id name in
      record (new_log_view name name) {
        columns = columns;
        visible = shown_first columns (position columns ch);
      }

  -- A scalar plot and a logic analyser take each of several channels that they accept.
  unfoldable pub take_channels : Inner F → ById → List ChannelId → PlotKind F → PlotKind F
  unfolding take_channel
  take_channels g by_id [] plot = plot
  take_channels g by_id (ch ∷ chs) plot =
      take_channels g by_id chs
        (elim (map_get ch by_id) [ none ↦ plot | some info ↦ take_channel g by_id ch info plot ])

  unfoldable pub xy_plot : ById → ChannelId × ChannelId → PlotKind F
  unfolding short_name
  xy_plot by_id (x, y) = xy (record {
    title =
        codes "XY "
        ++ short_name (path_or_unknown by_id x)
        ++ codes " vs "
        ++ short_name (path_or_unknown by_id y);
    x = x;
    y = y;
    trail_ns = none;
  })

-- What a drop changes: the plots, the plots to be opened, and the first half of an XY pair.
pub record Viewer (F : Type 0) : Type 0 where
  pub plots : PlotRegistry F
  pub new_plots : List (PlotKind F)
  pub xy_drag : XyDragAccumulator

module _ {F : Type 0} where
  abbrev pub open_plot : Viewer F → PlotKind F → Viewer F
  open_plot v kind = record v { new_plots = v.new_plots ++ (kind ∷ []) }

  -- A known channel on a registered plot.
  unfoldable pub drop_channel :
      Inner F → ById → Viewer F → PlotId → ChannelId → ChannelInfo → PlotKind F → Viewer F
  unfolding accepts update take_channel text_log_view
  drop_channel g by_id v pid ch info plot =
      if accepts plot info
      then record v { plots = update v.plots pid (take_channel g by_id ch info) }
      else if is_text info.kind
      then open_plot v (log_view (text_log_view by_id ch info))
      else v

  unfoldable pub on_drop : Inner F → ById → Viewer F → PlotId → DragPayload → Viewer F
  unfolding get update drop_channel take_channels log_view_from_group feed xy_plot
  on_drop g by_id v pid (channel ch) = elim (map_get ch by_id) [
    | none ↦ v
    | some info ↦ elim (get v.plots pid) [
      | none ↦ v
      | some plot ↦ drop_channel g by_id v pid ch info plot
    ]
  ]
  on_drop g by_id v pid (channels chs) = record v {
    plots = update v.plots pid (take_channels g by_id chs);
  }
  on_drop g by_id v pid (group name chs) = open_plot v (log_view_from_group name name chs)
  on_drop g by_id v pid (xy_seed ch) =
      let fed = feed v.xy_drag ch in
      let next = record v { xy_drag = fed.0 } in
      elim fed.1 [ none ↦ next | some pair ↦ open_plot next (xy_plot by_id pair) ]
