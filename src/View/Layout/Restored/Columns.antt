-- ===== src/View/Layout/Restored/Columns.antt =====
-- viewer/crates/btelem-viewer/src/layout.rs: a log view that is saved and restored.
use btelem.Prelude.{
  ℕ, zero, suc, ◌<◌, ◌≤◌, ◌≡◌, refl, ◌∙◌, ap, true, false, List, [], ◌∷◌, ◌++◌, Option, none, some,
  map, ◌==◌, ==_refl, arith, filter_map, filter_map-some, All, set_has, Distinct, append_assoc,
  append-nil, length, length-map, get_elem?, max, set_extend-Distinct,
}
use mathlib.Core.List.{map-append}
use btelem.Store.{ChannelId, ChannelInfo}
use btelem.View.Registry.{LogViewPanel, log_view, new_log_view}
use btelem.View.Filter.{ColumnFilter}
use btelem.View.Layout.{from_filter, to_filter}
use btelem.View.Layout.Capture.{path_of, and_path_of, spec_from_kind}
use btelem.View.Layout.Resolve.{
  position, range_from, visible_column, restored_visible, column_of, and_column_of, group_columns,
  add_filters,
}
use btelem.View.Layout.Apply.{Applying, push_plot, apply_spec}
use btelem.View.Layout.Renaming.{
  Reopening, IsKnown, Separates, AllKnown, IsPart, IsPart-next, IsPart-ren_new, IsPart-start,
  path_of-IsKnown, ren-eq, set_has-map_ren,
}
use btelem.View.Layout.Restored.Entries.{
  keys, map_insert-new, keys-append, saved_entry, restored_entry, keys-restored,
  path_or_default-IsKnown, save_entries-saved,
}

module _ {r : Reopening} where
  column_at :
      (columns : List ChannelId) (i : ℕ)
      → Separates r
      → AllKnown r columns
      → Distinct columns
      → i < length columns
      → (id : ChannelId) × (get_elem? columns i ≡ some id)
        × IsKnown r id
        × (set_has columns id ≡ true)
        × (position (map r.ren columns) (r.ren id) ≡ some i)
  column_at [] i sep ks d h = elim h [ ]
  column_at (c ∷ columns) zero sep ks d h =
      (c, refl, ks.0, rw (==_refl c) refl, rw (==_refl (r.ren c)) refl)
  column_at (c ∷ columns) (suc i) sep ks d h =
      let (id, e, k, m, p) = column_at columns i sep ks.1 d.1 (omega arith) in
      let apart : (c == id) ≡ false = ground (arith, d.0, m) in
      (id, e, k, ground (arith, m), rw (ren-eq sep ks.0 k, apart, p) refl)

  -- The paths of the visible columns lead back to their positions.
  visible-restored :
      (columns : List ChannelId) (visible : List ℕ)
      → Separates r
      → AllKnown r columns
      → Distinct columns
      → All (λ i. i < length columns) visible
      → filter_map
          (visible_column r.by_path (map r.ren columns))
          (filter_map (path_of r.by_id) (filter_map (get_elem? columns) visible))
        ≡ visible
  visible-restored columns [] sep ks d h = refl
  visible-restored columns (i ∷ visible) sep ks d h =
      let (id, e, k, m, p) = column_at columns i sep ks d h.0 in
      let found : visible_column r.by_path (map r.ren columns) k.before.path ≡ some i =
        rw (k.found, visible_column) (rw k.same.id_eq p) in
      rw
        (
          filter_map-some (get_elem? columns) i visible e,
          filter_map-some (path_of r.by_id) id (filter_map (get_elem? columns) visible)
              (path_of-IsKnown k),
          filter_map-some (visible_column r.by_path (map r.ren columns)) k.before.path
              (filter_map (path_of r.by_id) (filter_map (get_elem? columns) visible)) found,
        )
        (ap (◌∷◌ i) (visible-restored columns visible sep ks d h.1))

-- A log view that shows no column shows all of them when it is restored.
abbrev pub shown : ℕ → List ℕ → List ℕ
shown n [] = range_from 0 n
shown n (i ∷ visible) = i ∷ visible

restored_visible-shown :
    (r : Reopening) (columns : List ChannelId) (visible : List ℕ)
    → Separates r
    → AllKnown r columns
    → Distinct columns
    → All (λ i. i < length columns) visible
    → restored_visible r.by_path
        (map r.ren columns)
        (filter_map (path_of r.by_id) (filter_map (get_elem? columns) visible))
      ≡ shown (length columns) visible
restored_visible-shown r columns [] sep ks d h = rw (length-map columns r.ren) refl
restored_visible-shown r columns (i ∷ visible) sep ks d h =
    let (id, e, k, m, p) = column_at columns i sep ks d h.0 in
    let ids = filter_map (get_elem? columns) visible in
    let paths : filter_map (path_of r.by_id) (filter_map (get_elem? columns) (i ∷ visible))
        ≡ k.before.path ∷ filter_map (path_of r.by_id) ids =
      rw (filter_map-some (get_elem? columns) i visible e)
        (filter_map-some (path_of r.by_id) id ids (path_of-IsKnown k)) in
    rw paths (rw paths at (visible-restored columns (i ∷ visible) sep ks d h))

-- A filter as it is held: a set of values has no value twice.
abbrev pub IsHeld : {F : Type 0} → ColumnFilter F → Type 0
IsHeld (ColumnFilter.text needle case_sensitive) = Unit
IsHeld (ColumnFilter.range min max) = Unit
IsHeld (ColumnFilter.enum_set allowed) = Distinct allowed

pub to_filter-from_filter :
    {F : Type 0} (f : ColumnFilter F) → IsHeld f → to_filter (from_filter f) ≡ f
unfolding to_filter from_filter
to_filter-from_filter (ColumnFilter.text needle case_sensitive) h = refl
to_filter-from_filter (ColumnFilter.range min max) h = refl
to_filter-from_filter (ColumnFilter.enum_set allowed) h =
    ap ColumnFilter.enum_set (set_extend-Distinct [] allowed h)

-- A column that is known and among the columns of its view.
abbrev pub KnownColumn : Reopening → List ChannelId → ChannelId → Type 0
KnownColumn r columns id = IsKnown r id × (set_has columns id ≡ true)

abbrev pub KnownColumn? : Reopening → List ChannelId → Option ChannelId → Type 0
KnownColumn? r columns none = Unit
KnownColumn? r columns (some id) = KnownColumn r columns id

-- What a log view must be for its layout to hold it: its columns are those of its group.
pub record IsLogSaved {F : Type 0} (r : Reopening) (channels : List ChannelInfo)
    (p : LogViewPanel F) : Type 0 where
  pub group : group_columns channels p.group ≡ map r.ren p.columns
  pub known : AllKnown r p.columns
  pub distinct : Distinct p.columns
  pub visible : All (λ i. i < length p.columns) p.visible
  pub filters : All (λ e. KnownColumn r p.columns e.0 × IsHeld e.1) p.filters
  pub filters_distinct : Distinct (keys p.filters)
  pub color_by : KnownColumn? r p.columns p.color_by
  pub priority_by : KnownColumn? r p.columns p.priority_by
  pub max_rows : 1 ≤ p.max_rows

abbrev pub rename? : Reopening → Option ChannelId → Option ChannelId
rename? r none = none
rename? r (some id) = some (r.ren id)

abbrev pub restored_log : {F : Type 0} → Reopening → LogViewPanel F → LogViewPanel F
restored_log r p = record p {
  columns = map r.ren p.columns;
  visible = shown (length p.columns) p.visible;
  filters = map (restored_entry r) p.filters;
  color_by = rename? r p.color_by;
  priority_by = rename? r p.priority_by;
}

module _ {r : Reopening} (columns : List ChannelId) (sep : Separates r)
    (ks : AllKnown r columns) where
  column_of-restored :
      (id : ChannelId) (k : KnownColumn r columns id)
      → column_of r.by_path (map r.ren columns) k.0.before.path ≡ some (r.ren id)
  column_of-restored id k =
      rw (k.0.found, column_of)
        (rw (k.0.same.id_eq, set_has-map_ren columns id sep ks k.0, k.1) refl)

  and_column_of-restored :
      (o : Option ChannelId)
      → KnownColumn? r columns o
      → and_column_of r.by_path (map r.ren columns) (and_path_of r.by_id o) ≡ rename? r o
  and_column_of-restored none k = refl
  and_column_of-restored (some id) k =
      rw (path_of-IsKnown k.0, and_column_of) (column_of-restored id k)

  add_filters-restored :
      {F : Type 0} (done rest : List (ChannelId × ColumnFilter F))
      → All (λ e. KnownColumn r columns e.0 × IsHeld e.1) rest
      → IsPart r (keys done) (keys rest)
      → add_filters r.by_path
          (map r.ren columns)
          (map (saved_entry r from_filter) rest)
          (map (restored_entry r) done)
        ≡ map (restored_entry r) (done ++ rest)
  unfolding add_filters
  add_filters-restored done [] fs p = rw append-nil refl
  add_filters-restored done ((id, f) ∷ rest) fs p =
      let k = fs.0.0 in
      let next : IsPart r (keys (done ++ ((id, f) ∷ []))) (keys rest) =
        rw (keys-append done ((id, f) ∷ [])) (IsPart-next p) in
      let fresh : set_has (keys (map (restored_entry r) done)) (r.ren id) ≡ false =
        rw (keys-restored r done) (IsPart-ren_new p) in
      let held : set_has (map r.ren columns) k.0.after.id ≡ true =
        rw k.0.same.id_eq (set_has-map_ren columns id sep ks k.0 ∙ k.1) in
      rw
        (
          path_or_default-IsKnown k.0,
          k.0.found,
          held,
          k.0.same.id_eq,
          to_filter-from_filter f fs.0.1,
          map_insert-new (r.ren id) f (map (restored_entry r) done) fresh,
          ← map-append (restored_entry r) done ((id, f) ∷ []),
        )
        (add_filters-restored (done ++ ((id, f) ∷ [])) rest fs.1 next
          ∙ ap (map (restored_entry r)) (append_assoc done ((id, f) ∷ []) rest))

filters_known :
    {F : Type 0} (r : Reopening) (columns : List ChannelId)
    (filters : List (ChannelId × ColumnFilter F))
    → All (λ e. KnownColumn r columns e.0 × IsHeld e.1) filters
    → AllKnown r (keys filters)
filters_known r columns [] fs = tt
filters_known r columns (e ∷ filters) fs = (fs.0.0.0, filters_known r columns filters fs.1)

-- The log view is restored with its columns, filters and settings; if it showed no column, all of
-- them are shown.
pub apply_spec-log_view :
    {F : Type 0} (r : Reopening) (channels : List ChannelInfo) (p : LogViewPanel F)
    (st : Applying F)
    → Separates r
    → IsLogSaved r channels p
    → apply_spec r.by_path channels (spec_from_kind r.by_id (log_view p)) st
      ≡ push_plot st (log_view (restored_log r p)) st.report
unfolding apply_spec spec_from_kind new_log_view
apply_spec-log_view r channels p st sep saved =
    let known = filters_known r p.columns p.filters saved.filters in
    let part : IsPart r [] (keys p.filters) = IsPart-start sep known saved.filters_distinct in
    let rows : max p.max_rows 1 ≡ p.max_rows = omega (arith, saved.max_rows) in
    rw
      (
        saved.group,
        restored_visible-shown r p.columns p.visible sep saved.known saved.distinct saved.visible,
        save_entries-saved from_filter [] p.filters part,
        add_filters-restored p.columns sep saved.known [] p.filters saved.filters part,
        and_column_of-restored p.columns sep saved.known p.color_by saved.color_by,
        and_column_of-restored p.columns sep saved.known p.priority_by saved.priority_by,
        rows,
      )
      refl
