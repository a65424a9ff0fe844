-- ===== src/View/Layout/RoundTrip.antt =====
-- viewer/crates/btelem-viewer/src/layout.rs: a workspace that is saved by `capture` and restored by
-- `apply`.
use mathlib.Core.Path.{fun_ext}
use btelem.View.Markers.{MarkerSet}
use btelem.View.Layout.Restored.Indices.{
  IsRegistered, capture_specs-map, capture_specs-index, slot, order-Distinct, order-IsRegistered,
  order-tab, order-plot, slots-lt-length,
}
use btelem.View.Layout.Restored.Tabs.{slots_kept, tabs-build_dock}
use btelem.View.Layout.Restored.Order.{
  position-member, length-filter_map_total, get_elem?-filter_map_total,
}
use btelem.Prelude.{
  ℕ, zero, suc, ◌+◌, ◌≡◌, ◌≢◌, refl, ◌∙◌, ap, sym, Bool, true, not, List, [], ◌∷◌, Option, some,
  map, Text, ◌==◌, set_has, Distinct, length, get_elem?, map_get, filter_map, All, retain, inl, inr,
  Option-cases, zero-add, ◌≤◌, some-injective, length-map,
}
use btelem.Store.{ChannelId, ChannelInfo, u64_max}
use btelem.View.Registry.{
  PlotKind, PlotId, PlotRegistry, scalar_plot, logic_analyser, log_view, xy, get, len,
}
use btelem.View.Layout.{no_report}
use btelem.View.Layout.Dock.{DockLib, IsDockLib}
use btelem.View.Layout.Capture.{
  ById, spec_from_kind, capture_specs, index_or_max, capture_order, capture,
}
use btelem.View.Layout.Resolve.{position, range_from, index_paths}
use btelem.View.Layout.Apply.{
  Applying, push_plot, apply_spec, apply_specs, nothing_applied, new_id, build_dock,
  place_companions, apply,
}
use btelem.View.Layout.Renaming.{Reopening, Separates}
use btelem.View.Layout.Restored.Scalar.{IsScalarSaved, restored_scalar, apply_spec-scalar}
use btelem.View.Layout.Restored.Lanes.{IsLogicSaved, restored_logic, apply_spec-logic}
use btelem.View.Layout.Restored.Columns.{IsLogSaved, restored_log, apply_spec-log_view}
use btelem.View.Layout.Restored.Xy.{IsXySaved, restored_xy, apply_spec-xy}
use btelem.View.Layout.Restored.Built.{
  number, built, push_all, push_all-built, map_get-number, length-number,
}

module _ {F : Type 0} (r : Reopening) (channels : List ChannelInfo) where
  -- What a plot must be for its layout to hold it, and the plot as it is restored.
  abbrev pub IsSaved : PlotKind F → Type 0
  IsSaved (scalar_plot p) = IsScalarSaved r p
  IsSaved (logic_analyser p) = IsLogicSaved r p
  IsSaved (log_view p) = IsLogSaved r channels p
  IsSaved (xy p) = IsXySaved r p

abbrev pub restored : {F : Type 0} → Reopening → PlotKind F → PlotKind F
restored r (scalar_plot p) = scalar_plot (restored_scalar r p)
restored r (logic_analyser p) = logic_analyser (restored_logic r p)
restored r (log_view p) = log_view (restored_log r p)
restored r (xy p) = xy (restored_xy r p)

module _ {F : Type 0} (r : Reopening) (channels : List ChannelInfo) (sep : Separates r) where
  apply_spec-restored :
      (k : PlotKind F) (st : Applying F)
      → IsSaved r channels k
      → apply_spec r.by_path channels (spec_from_kind r.by_id k) st
        ≡ push_plot st (restored r k) st.report
  apply_spec-restored (scalar_plot p) st saved = apply_spec-scalar r channels p st sep saved
  apply_spec-restored (logic_analyser p) st saved = apply_spec-logic r channels p st sep saved
  apply_spec-restored (log_view p) st saved = apply_spec-log_view r channels p st sep saved
  apply_spec-restored (xy p) st saved = apply_spec-xy r channels p st saved

  apply_specs-restored :
      (ks : List (PlotKind F)) (st : Applying F)
      → All (IsSaved r channels) ks
      → apply_specs r.by_path channels (map (spec_from_kind r.by_id) ks) st
        ≡ push_all (map (restored r) ks) st
  unfolding apply_specs
  apply_specs-restored [] st saved = refl
  apply_specs-restored (k ∷ ks) st saved =
      ap (apply_specs r.by_path channels (map (spec_from_kind r.by_id) ks))
        (apply_spec-restored k st saved.0)
      ∙ apply_specs-restored ks (push_plot st (restored r k) st.report) saved.1

get_elem?-map :
    {A B : Type 0} (f : A → B) (xs : List A) (k : ℕ) {a : A}
    → get_elem? xs k ≡ some a
    → get_elem? (map f xs) k ≡ some (f a)
get_elem?-map f [] k h = absurd (cc h)
get_elem?-map f (x ∷ xs) zero h = ap (λ a. some (f a)) (some-injective h)
get_elem?-map f (x ∷ xs) (suc k) h = get_elem?-map f xs k h

module _ {F : Type 0} (plots : PlotRegistry F) (order : List PlotId)
    (reg : All (IsRegistered plots) order) where
  abbrev kinds : List (PlotKind F)
  kinds = filter_map (get plots) order

  get-built :
      (f : PlotKind F → PlotKind F) (pid : PlotId) {kind : PlotKind F}
      → set_has order pid ≡ true
      → get plots pid ≡ some kind
      → map_get (slot order pid) (number 0 (map f kinds)) ≡ some (f kind)
  get-built f pid h e =
      let (k, p, l) = position-member order pid h in
      let there = get_elem?-filter_map_total (get plots) order pid k reg p ∙ e in
      let at : slot order pid ≡ 0 + k = rw (p, slot) (sym (zero-add k)) in
      ap (λ (j : ℕ). map_get j (number 0 (map f kinds))) at
      ∙ map_get-number 0 k (map f kinds)
      ∙ get_elem?-map f kinds k there

-- What is the same when a workspace is restored: each plot, as a layout keeps it (a scalar plot without
-- its selection, a log view without a visible column with all of them), at the place where it was saved;
-- each tab, for the plot that it stood for; and there are no other plots.
pub record IsRestored {F D J : Type 0} (lib : DockLib D J) (r : Reopening) (plots : PlotRegistry F)
    (dock : D) (plots' : PlotRegistry F) (dock' : D) : Type 0 where
  pub plot :
      (pid : PlotId) (kind : PlotKind F)
      → get plots pid ≡ some kind
      → get plots' (slot (capture_order lib plots dock) pid) ≡ some (restored r kind)
  pub tabs :
      lib.iter_all_tabs dock' ≡ map (slot (capture_order lib plots dock)) (lib.iter_all_tabs dock)
  pub count : len plots' ≡ length (capture_order lib plots dock)

All-filter_map :
    {A B : Type 0} (P : B → Type 0) (f : A → Option B) (xs : List A)
    → ((x : A) (y : B) → f x ≡ some y → P y)
    → All P (filter_map f xs)
All-filter_map P f [] h = tt
All-filter_map P f (x ∷ xs) h = elim (Option-cases (f x)) [
  | inl e ↦ rw (e, filter_map) (All-filter_map P f xs h)
  | inr (y, e) ↦ rw (e, filter_map) (h x y e, All-filter_map P f xs h)
]

apply_specs-capture_specs :
    {F : Type 0} (r : Reopening) (channels : List ChannelInfo) (plots : PlotRegistry F)
    (order : List PlotId)
    → Separates r
    → ((pid : PlotId) (kind : PlotKind F) → get plots pid ≡ some kind → IsSaved r channels kind)
    → apply_specs r.by_path channels (capture_specs plots r.by_id 0 order [] []).1 nothing_applied
      ≡ built (map (restored r) (filter_map (get plots) order))
apply_specs-capture_specs r channels plots order sep saved =
    let kinds = filter_map (get plots) order in
    ap (λ specs. apply_specs r.by_path channels specs nothing_applied)
      (capture_specs-map plots r.by_id 0 order [] [])
    ∙ apply_specs-restored r channels sep kinds nothing_applied
        (All-filter_map (IsSaved r channels) (get plots) order saved)
    ∙ push_all-built [] (map (restored r) kinds)

map-eq-nil : {A B : Type 0} (f : A → B) (xs : List A) → map f xs ≡ [] → xs ≡ []
map-eq-nil f [] h = refl
map-eq-nil f (x ∷ xs) h = absurd (cc h)

-- The channels by id when the layout is saved, the channels when it is restored, and their new ids.
abbrev pub reopening : ById → List ChannelInfo → (ChannelId → ChannelId) → Reopening
reopening by_id channels ren = record {
  by_id = by_id;
  by_path = index_paths channels [];
  ren = ren;
}

index-slot :
    {F : Type 0} (plots : PlotRegistry F) (by_id : ById) (order : List PlotId) (pid : PlotId)
    → All (IsRegistered plots) order
    → Distinct order
    → index_or_max (capture_specs plots by_id 0 order [] []).0 pid ≡ slot order pid
index-slot plots by_id order pid reg d =
    rw (capture_specs-index plots by_id 0 order [] [] pid reg d, index_or_max)
      (elim (Option-cases (position order pid)) [
        | inl e ↦ rw (e, slot) refl
        | inr (k, e) ↦ rw (e, slot) (zero-add k)
      ])

module _ {F G J D : Type 0} (lib : DockLib D J) (laws : IsDockLib lib) (name : Text)
    (plots : PlotRegistry F) (dock : D) (by_id : ById) (markers : MarkerSet G)
    (channels : List ChannelInfo) (ren : ChannelId → ChannelId) where
  apply-capture_lem :
      Separates (reopening by_id channels ren)
      → ((pid : PlotId) (kind : PlotKind F)
          → get plots pid ≡ some kind
          → IsSaved (reopening by_id channels ren) channels kind)
      → apply lib (capture lib name plots dock by_id markers) channels ≡ (
          let order = capture_order lib plots dock in
          let st =
            built (map (restored (reopening by_id channels ren)) (filter_map (get plots) order)) in
          (
            st.registry,
            build_dock lib
                (lib.to_value (
                  lib.filter_tabs
                    (λ i. not (i == u64_max))
                    (lib.map_tabs (index_or_max (capture_specs plots by_id 0 order [] []).0) dock)))
                st.new_ids,
            no_report,
          ))
  unfolding apply capture place_companions
  apply-capture_lem sep saved =
      rw
        (apply_specs-capture_specs (reopening by_id channels ren) channels plots
          (capture_order lib plots dock) sep saved)
        refl

  tabs_left :
      All (IsRegistered plots) (lib.iter_all_tabs dock)
      → length (capture_order lib plots dock) ≤ u64_max
      → filter_map (new_id (map some (range_from 0 (length (capture_order lib plots dock))))) (
          lib.iter_all_tabs (
            lib.filter_tabs
              (λ i. not (i == u64_max))
              (lib.map_tabs
                (index_or_max (capture_specs plots by_id 0 (capture_order lib plots dock) [] []).0)
                dock)))
        ≡ map (slot (capture_order lib plots dock)) (lib.iter_all_tabs dock)
  tabs_left tabs few =
      let order = capture_order lib plots dock in
      let reg = order-IsRegistered lib plots dock tabs in
      let d = order-Distinct lib plots dock tabs in
      let index = index_or_max (capture_specs plots by_id 0 order [] []).0 in
      let keep : ℕ → Bool = λ i. not (i == u64_max) in
      ap (filter_map (new_id (map some (range_from 0 (length order))))) (
        laws.tabs-filter_tabs keep (lib.map_tabs index dock)
        ∙ ap (retain keep) (
            laws.tabs-map_tabs index dock
            ∙ ap (λ f. map f (lib.iter_all_tabs dock))
                (fun_ext (λ pid. index-slot plots by_id order pid reg d))))
      ∙ slots_kept (length order) (lib.iter_all_tabs dock) (slot order)
          (slots-lt-length lib plots dock tabs (lib.iter_all_tabs dock)
            (order-tab lib plots dock tabs))
          few

  -- A workspace that is saved and restored: if every tab is a plot of the registry, there is a tab,
  -- every plot can be saved whole, and the channels are found again by their paths, each under the
  -- id that `ren` gives it, then the restored registry holds each plot, under the new ids of its
  -- channels, at the index at which it was saved, and no other plot. Two things of a plot are not
  -- restored: the selected signals of a scalar plot, which come back as none, and the visible columns of
  -- a log view that shows no column, which comes back with every column visible. The tabs of the dock
  -- are those of the saved one, each for the plot that it stood for; and nothing is reported as missing.
  pub apply-capture :
      Separates (reopening by_id channels ren)
      → ((pid : PlotId) (kind : PlotKind F)
          → get plots pid ≡ some kind
          → IsSaved (reopening by_id channels ren) channels kind)
      → All (IsRegistered plots) (lib.iter_all_tabs dock)
      → lib.iter_all_tabs dock ≢ []
      → length (capture_order lib plots dock) ≤ u64_max
      → let (plots', dock', report) =
          apply lib (capture lib name plots dock by_id markers) channels in
        IsRestored lib (reopening by_id channels ren) plots dock plots' dock' × (report ≡ no_report)
  unfolding get len
  apply-capture sep saved tabs some_tab few =
      let order = capture_order lib plots dock in
      let reg = order-IsRegistered lib plots dock tabs in
      let f = restored (reopening by_id channels ren) in
      let kinds : List (PlotKind F) = filter_map (get plots) order in
      let count : length (map f kinds) ≡ length order =
        length-map kinds f ∙ length-filter_map_total (get plots) order reg in
      let left = tabs_left tabs few in
      let index = index_or_max (capture_specs plots by_id 0 order [] []).0 in
      let saved_dock = lib.filter_tabs (λ i. not (i == u64_max)) (lib.map_tabs index dock) in
      let not_nil = λ (e : map (slot order) (lib.iter_all_tabs dock) ≡ []).
        some_tab (map-eq-nil (slot order) (lib.iter_all_tabs dock) e) in
      rw (apply-capture_lem sep saved, count)
        (
          record {
            plot = λ pid kind e.
                get-built plots order reg f pid (order-plot lib plots dock tabs pid e) e;
            tabs =
                tabs-build_dock lib laws (map some (range_from 0 (length order))) saved_dock
                  (λ e. not_nil (sym left ∙ e))
                ∙ left;
            count = length-number 0 (map f kinds) ∙ count;
          },
          refl,
        )
