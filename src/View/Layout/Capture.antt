-- ===== src/View/Layout/Capture.antt =====
-- viewer/crates/btelem-viewer/src/layout.rs: `capture` and `spec_from_kind`, which turn the plots, the
-- dock and the markers of the viewer into a layout.
use btelem.Prelude.{
  ℕ, suc, not, List, [], ◌∷◌, ◌++◌, Option, none, some, Text, ◌==◌, map, filter_map, map_get,
  map_insert, text_insert, get_elem?, set_extend,
}
use btelem.Store.{ChannelId, ChannelInfo, u64_max}
use btelem.View.Panels.{LogicLane}
use btelem.View.Registry.{
  PlotKind, scalar_plot, logic_analyser, log_view, xy, PlotId, PlotRegistry, get, iter_ids,
}
use btelem.View.Markers.{Marker, Link, MarkerSet}
use btelem.View.Layout.{
  schema_version, MarkerSpec, LinkSpec, from_filter, LogicLaneSpec, PlotSpec, Layout,
}
use btelem.View.Layout.Dock.{DockLib}

abbrev pub ById : Type 0
ById = List (ChannelId × ChannelInfo)

-- `by_id.get(&id).map(|c| c.path.clone())`
abbrev pub path_of : ById → ChannelId → Option Text
path_of by_id id = elim (map_get id by_id) [ none ↦ none | some c ↦ some c.path ]

abbrev pub and_path_of : ById → Option ChannelId → Option Text
and_path_of by_id none = none
and_path_of by_id (some id) = path_of by_id id

abbrev pub path_or_default : ById → ChannelId → Text
path_or_default by_id id = elim (path_of by_id id) [ none ↦ [] | some path ↦ path ]

-- The loop over `styles_iter`, and the collection of the filters into a `HashMap` by path.
unfoldable pub save_entries :
    {V W : Type 0} → ById → (V → W) → List (ChannelId × V) → List (Text × W) → List (Text × W)
save_entries by_id f [] saved = saved
save_entries by_id f ((id, v) ∷ rest) saved =
    save_entries by_id f rest
      (elim (path_of by_id id) [ none ↦ saved | some path ↦ text_insert path (f v) saved ])

abbrev pub save_lane : ById → LogicLane → Option LogicLaneSpec
save_lane by_id l = elim (path_of by_id l.ch) [
  | none ↦ none
  | some path ↦ some (record { ch_path = path; radix = l.radix; mode = l.mode })
]

module _ {F : Type 0} where
  unfoldable pub spec_from_kind : ById → PlotKind F → PlotSpec F
  unfolding save_entries from_filter
  spec_from_kind by_id (scalar_plot p) =
      PlotSpec.scalar p.title (filter_map (path_of by_id) p.channels)
        (save_entries by_id (λ st. st) p.styles [])
  spec_from_kind by_id (logic_analyser p) =
      PlotSpec.logic_analyser p.title (filter_map (save_lane by_id) p.lanes)
  spec_from_kind by_id (log_view p) =
      PlotSpec.log_view p.title p.group
        (filter_map (path_of by_id) (filter_map (get_elem? p.columns) p.visible))
        (save_entries by_id from_filter p.filters []) (and_path_of by_id p.color_by)
        (and_path_of by_id p.priority_by) (some p.max_rows)
  spec_from_kind by_id (xy p) =
      PlotSpec.xy p.title (path_or_default by_id p.x) (path_or_default by_id p.y) p.trail_ns

  -- The loop over `order.iter().enumerate()` from `i` on: the index of each plot, and the specs.
  unfoldable pub capture_specs :
      PlotRegistry F
      → ById
      → ℕ
      → List PlotId
      → List (PlotId × ℕ)
      → List (PlotSpec F)
      → List (PlotId × ℕ) × List (PlotSpec F)
  unfolding get
  capture_specs plots by_id i [] idx_of specs = (idx_of, specs)
  capture_specs plots by_id i (pid ∷ order) idx_of specs = elim (get plots pid) [
    | none ↦ capture_specs plots by_id (suc i) order idx_of specs
    | some kind ↦
        capture_specs plots by_id (suc i) order (map_insert pid i idx_of)
          (specs ++ (spec_from_kind by_id kind ∷ []))
  ]

-- `idx_of.get(pid).unwrap_or(&usize::MAX)`
abbrev pub index_or_max : List (PlotId × ℕ) → PlotId → ℕ
index_or_max idx_of pid = elim (map_get pid idx_of) [ none ↦ u64_max | some i ↦ i ]

-- Collecting the ids of the markers, from the one at `i` on, into a `HashMap`.
unfoldable pub marker_indices : ℕ → List Marker → List (ℕ × ℕ) → List (ℕ × ℕ)
marker_indices i [] idx = idx
marker_indices i (m ∷ ms) idx = marker_indices (suc i) ms (map_insert m.id i idx)

abbrev pub save_marker : Marker → MarkerSpec
save_marker m = record { t_ns = m.t_ns; label = m.label; color = m.color; chain = none }

abbrev pub save_link : {G : Type 0} → ById → List (ℕ × ℕ) → Link G → Option (LinkSpec G)
save_link by_id idx l = elim (map_get l.a idx) [
  | none ↦ none
  | some a ↦ elim (map_get l.b idx) [
    | none ↦ none
    | some b ↦ some (record {
      a_index = a;
      b_index = b;
      y_frac = l.y_frac;
      signal_paths = filter_map (path_of by_id) l.signals;
    })
  ]
]

module _ {F J D : Type 0} (lib : DockLib D J) where
  -- `seen.insert(pid)` tells whether the plot is in `order` already.
  unfoldable pub capture_order : PlotRegistry F → D → List PlotId
  unfolding iter_ids
  capture_order plots dock = set_extend (set_extend [] (lib.iter_all_tabs dock)) (iter_ids plots)

module _ {F G J D : Type 0} (lib : DockLib D J) where
  unfoldable pub capture : Text → PlotRegistry F → D → ById → MarkerSet G → Layout F G J
  unfolding capture_order capture_specs marker_indices
  capture name plots dock by_id markers =
      let (idx_of, specs) = capture_specs plots by_id 0 (capture_order lib plots dock) [] [] in
      let dock_usize = lib.map_tabs (index_or_max idx_of) dock in
      let marker_idx = marker_indices 0 markers.markers [] in
      record {
        version = schema_version;
        name = name;
        dock = lib.to_value (lib.filter_tabs (λ i. not (i == u64_max)) dock_usize);
        plots = specs;
        markers = map save_marker markers.markers;
        links = filter_map (save_link by_id marker_idx) markers.links;
      }
