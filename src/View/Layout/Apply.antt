-- ===== src/View/Layout/Apply.antt =====
-- viewer/crates/btelem-viewer/src/layout.rs: `apply` and `build_dock`, which rebuild the plots and the
-- dock from a layout.
use btelem.Prelude.{
  ℕ, ◌+◌, Bool, true, false, List, [], ◌∷◌, ◌++◌, Option, none, some, Text, codes, filter_map,
  text_get, get_elem?, set_has, if◌then◌else◌,
}
use btelem.Store.{ChannelId, ChannelInfo}
use btelem.View.Panels.{LogicAnalyserPanel, is_scalar}
use btelem.View.ScalarPanel as ScalarMethods
use btelem.View.LogicPanel
use btelem.View.Registry.{
  PlotKind, scalar_plot, logic_analyser, log_view, xy, PlotId, PlotRegistry, new_registry, insert,
}
use btelem.View.Layout.{PlotSpec, Layout, ApplyReport, no_report, add_missing}
use btelem.View.Layout.Dock.{DockLib}
use btelem.View.Layout.Resolve.{
  ByPath, index_paths, add_scalars, add_styles, add_states, add_lanes, restore_log_view,
}

-- The state of the loop over the plots of a layout.
pub record Applying (F : Type 0) : Type 0 where
  pub registry : PlotRegistry F
  pub new_ids : List (Option PlotId)
  pub companions : List (PlotId × PlotId)
  pub report : ApplyReport

abbrev pub missing_if_none : Option ChannelInfo → Text → ApplyReport → ApplyReport
missing_if_none none path report = add_missing report path
missing_if_none (some info) path report = report

abbrev pub is_scalar_channel : Option ChannelInfo → Option ChannelId
is_scalar_channel none = none
is_scalar_channel (some info) = if is_scalar info.kind then some info.id else none

module _ {F : Type 0} where
  -- A plot that is the primary one of its spec.
  abbrev pub push_plot : Applying F → PlotKind F → ApplyReport → Applying F
  push_plot st kind report =
      let (registry, id) = insert st.registry kind in
      record st { registry = registry; new_ids = st.new_ids ++ (some id ∷ []); report = report }

  -- The legacy plot: a scalar plot, and a companion for its states if it has any.
  abbrev pub push_states :
      PlotId → Applying F → LogicAnalyserPanel × Bool × ApplyReport → Applying F
  push_states scalar_id st (chart, had_any, report) =
      if had_any
      then (let (registry, state_id) = insert st.registry (logic_analyser chart) in
          record st {
            registry = registry;
            companions = st.companions ++ ((scalar_id, state_id) ∷ []);
            report = report;
          })
      else record st { report = report }

  abbrev pub drop_plot :
      Applying F → Text → Option ChannelInfo → Text → Option ChannelInfo → Applying F
  drop_plot st x xi y yi =
      let report = missing_if_none yi y (missing_if_none xi x st.report) in
      record st {
        new_ids = st.new_ids ++ (none ∷ []);
        report = record report { dropped_plots = report.dropped_plots + 1 };
      }

  abbrev pub push_xy :
      Applying F
      → Text
      → Text
      → Option ChannelInfo
      → Text
      → Option ChannelInfo
      → Option ℕ
      → Applying F
  push_xy st title x xi y yi trail_ns = elim (is_scalar_channel xi) [
    | none ↦ drop_plot st x xi y yi
    | some xid ↦ elim (is_scalar_channel yi) [
      | none ↦ drop_plot st x xi y yi
      | some yid ↦
          push_plot st (xy (record { title = title; x = xid; y = yid; trail_ns = trail_ns }))
            st.report
    ]
  ]

  -- The body of the loop: one spec.
  unfoldable pub apply_spec : ByPath → List ChannelInfo → PlotSpec F → Applying F → Applying F
  unfolding ScalarMethods.new LogicPanel.new add_scalars add_styles add_states add_lanes
      restore_log_view insert add_missing
  apply_spec by_path channels (PlotSpec.time_series title scalars states styles) st =
      let (p, report) = add_scalars by_path scalars (ScalarMethods.new title) st.report in
      let st' = push_plot st (scalar_plot (add_styles by_path true styles p)) report in
      elim states [
        | [] ↦ st'
        | path ∷ paths ↦ push_states st.registry.next_id st' (
            add_states by_path (path ∷ paths) (LogicPanel.new (title ++ codes " (states)")) false
              report)
      ]
  apply_spec by_path channels (PlotSpec.scalar title paths styles) st =
      let (p, report) = add_scalars by_path paths (ScalarMethods.new title) st.report in
      push_plot st (scalar_plot (add_styles by_path false styles p)) report
  apply_spec by_path channels (PlotSpec.state_chart title lanes) st =
      let (p, had_any, report) = add_states by_path lanes (LogicPanel.new title) false st.report in
      push_plot st (logic_analyser p) report
  apply_spec by_path channels (PlotSpec.logic_analyser title lanes) st =
      let (p, report) = add_lanes by_path lanes (LogicPanel.new title) st.report in
      push_plot st (logic_analyser p) report
  apply_spec by_path channels
        (PlotSpec.log_view title group visible filters color_by priority_by max_rows) st =
      push_plot st
        (log_view (
          restore_log_view by_path channels title group visible filters color_by priority_by
            max_rows))
        st.report
  apply_spec by_path channels (PlotSpec.xy title x y trail_ns) st =
      push_xy st title x (text_get x by_path) y (text_get y by_path) trail_ns

  unfoldable pub apply_specs :
      ByPath → List ChannelInfo → List (PlotSpec F) → Applying F → Applying F
  unfolding apply_spec
  apply_specs by_path channels [] st = st
  apply_specs by_path channels (spec ∷ specs) st =
      apply_specs by_path channels specs (apply_spec by_path channels spec st)

  abbrev pub nothing_applied : Applying F
  nothing_applied = record {
    registry = new_registry;
    new_ids = [];
    companions = [];
    report = no_report;
  }

-- The surviving plots, and the sentinel of a dock without any.
abbrev pub or_sentinel : List PlotId → List PlotId
or_sentinel [] = 0 ∷ []
or_sentinel (id ∷ ids) = id ∷ ids

abbrev pub surviving : List (Option PlotId) → List PlotId
surviving = filter_map (λ id. id)

-- `new_ids.get(*i).copied().flatten()`
abbrev pub new_id : List (Option PlotId) → ℕ → Option PlotId
new_id new_ids i = elim (get_elem? new_ids i) [ none ↦ none | some id ↦ id ]

-- The loop over the leaves: the first with the anchor takes the extra tab.
unfoldable pub push_beside : PlotId → PlotId → List (List PlotId) → Option (List (List PlotId))
push_beside anchor extra [] = none
push_beside anchor extra (tabs ∷ leaves) =
    if set_has tabs anchor
    then some ((tabs ++ (extra ∷ [])) ∷ leaves)
    else elim (push_beside anchor extra leaves) [
      | none ↦ none
      | some leaves' ↦ some (tabs ∷ leaves')
    ]

module _ {D J : Type 0} (lib : DockLib D J) where
  abbrev pub dock_fallback : List (Option PlotId) → D
  dock_fallback new_ids = lib.fresh (or_sentinel (surviving new_ids))

  abbrev pub unless_empty : List (Option PlotId) → D → List PlotId → D
  unless_empty new_ids mapped [] = dock_fallback new_ids
  unless_empty new_ids mapped (tab ∷ tabs) = mapped

  unfoldable pub build_dock : J → List (Option PlotId) → D
  build_dock value new_ids = elim (lib.from_value value) [
    | none ↦ dock_fallback new_ids
    | some dock ↦
        let mapped = lib.filter_map_tabs (new_id new_ids) dock in
        unless_empty new_ids mapped (lib.iter_all_tabs mapped)
  ]

  unfoldable pub insert_next_to : D → PlotId → PlotId → D × Bool
  unfolding push_beside
  insert_next_to dock anchor extra = elim (push_beside anchor extra (lib.leaves dock)) [
    | none ↦ (dock, false)
    | some leaves ↦ (lib.with_leaves leaves dock, true)
  ]

  unfoldable pub place_companions : List (PlotId × PlotId) → D → D
  unfolding insert_next_to
  place_companions [] dock = dock
  place_companions ((primary, companion) ∷ companions) dock =
      let (dock', placed) = insert_next_to dock primary companion in
      place_companions companions
        (if placed then dock' else lib.push_to_focused_leaf companion dock')

module _ {F G J D : Type 0} (lib : DockLib D J) where
  unfoldable pub apply : Layout F G J → List ChannelInfo → PlotRegistry F × D × ApplyReport
  unfolding index_paths apply_specs build_dock place_companions
  apply layout channels =
      let st = apply_specs (index_paths channels []) channels layout.plots nothing_applied in
      (
        st.registry,
        place_companions lib st.companions (build_dock lib layout.dock st.new_ids),
        st.report,
      )
