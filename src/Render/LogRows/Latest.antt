-- ===== src/Render/LogRows/Latest.antt =====
-- viewer/crates/btelem-viewer/src/plot_renderers.rs: the cells of a text or scalar column.
use btelem.Prelude.{
  ◌≡◌, refl, sym, ◌∙◌, ap, true, List, [], ◌∷◌, Option, none, some, Text, arith, Bool-cases, inl,
  inr, ◌⊎◌, ◌≤◌, ◌<◌, All, map, retain, length, length-map, get_elem?, map_get, set_has,
  some-injective,
}
use mathlib.Core.Option.{none-ne-some}
use btelem.Float.{Float}
use btelem.Store.{ChannelId, Timestamp, ChannelKind, scalar, state}
use btelem.Store.Mock.{Inner}
use btelem.Store.Query.{query_raw, query_text, opt_map}
use btelem.Store.Query.Window.{IsSorted, in_window, query_raw-window, query_text-window}
use btelem.Render.LogRows.{
  LogCell, ColSource, ById, value_of, source_of, kind_of, add_sources, anchor_of, anchor_ts,
  cell_at, row_cells, anchored_rows, build_log_rows, log_scan_max,
}
use btelem.Render.LogRows.Cells.{All-map, row_cell}
use btelem.Render.LogRows.Carried.{
  latest, scalar_entry, text_entry, scalar_values-latest, text_values-latest,
}

module _ {A B : Type 0} (entry : Timestamp × A → Timestamp × B)
    (same : (s : Timestamp × A) → (entry s).0 ≡ s.0) where
  map-retain_window :
      (t0 t1 : Timestamp) (xs : List (Timestamp × A))
      → map entry (retain (in_window t0 t1) xs) ≡ retain (in_window t0 t1) (map entry xs)
  map-retain_window t0 t1 [] = refl
  map-retain_window t0 t1 (x ∷ xs) =
      let rest = map-retain_window t0 t1 xs in
      let here : in_window t0 t1 (entry x) ≡ in_window t0 t1 x = rw (same x) refl in
      elim (Bool-cases (in_window t0 t1 x)) [
        | inl e ↦ rw (retain, here, e) (ap (◌∷◌ (entry x)) rest)
        | inr e ↦ rw (retain, here, e) rest
      ]

  IsSorted-of_map :
      (now : Timestamp) (xs : List (Timestamp × A)) → IsSorted now (map entry xs) → IsSorted now xs
  IsSorted-of_map now [] h = tt
  IsSorted-of_map now (x ∷ xs) h =
      let (first, rest) = rw (same x) at h in (first, IsSorted-of_map x.0 xs rest)

-- The samples that the store holds of a text or scalar channel, as cells.
abbrev pub stored_cells :
    {F : Type 0}
    → (F → Text)
    → Inner F
    → ChannelId
    → ChannelKind
    → Option (List (Timestamp × LogCell F))
stored_cells format_scalar_value g ch scalar =
    opt_map (map (scalar_entry format_scalar_value)) (get_elem? g.scalars ch)
stored_cells format_scalar_value g ch ChannelKind.text =
    opt_map (map text_entry) (get_elem? g.texts ch)
stored_cells format_scalar_value g ch (state labels) = none

-- The latest of the cells in `[t0, t1)` that is not after `t`.
abbrev pub carried :
    {F : Type 0}
    → Timestamp
    → Timestamp
    → List (Timestamp × LogCell F)
    → Timestamp
    → Option (LogCell F)
carried t0 t1 cells t = value_of (latest t none (retain (in_window t0 t1) cells))

module _ {F : Type 0} (fl : Float F) (format_scalar_value : F → Text) (g : Inner F)
    (t0 t1 : Timestamp) where
  -- A query that is not thinned finds the cells of the window.
  found-carried :
      {A : Type 0} (entry : Timestamp × A → Timestamp × LogCell F)
      → ((s : Timestamp × A) → (entry s).0 ≡ s.0)
      → (stored : Option (List (Timestamp × A))) (cells : List (Timestamp × LogCell F))
        (found : List (Timestamp × A))
      → opt_map (map entry) stored ≡ some cells
      → IsSorted 0 cells
      → length (retain (in_window t0 t1) cells) ≤ log_scan_max
      → ((samples : List (Timestamp × A))
          → stored ≡ some samples
          → IsSorted 0 samples
          → (found ≡ retain (in_window t0 t1) samples)
            ⊎ (log_scan_max < length (retain (in_window t0 t1) samples)))
      → map entry found ≡ retain (in_window t0 t1) cells
  found-carried entry same none cells found held sorted few query = absurd (none-ne-some cells held)
  found-carried entry same (some samples) cells found held sorted few query =
      let is : map entry samples ≡ cells = some-injective held in
      let kept = map-retain_window entry same t0 t1 samples in
      elim (query samples refl (IsSorted-of_map entry same 0 samples (rw (sym is) at sorted))) [
        | inl e ↦ ap (map entry) e ∙ kept ∙ ap (retain (in_window t0 t1)) is
        | inr over ↦ absurd (
            omega (
              arith,
              over,
              few,
              ap length (kept ∙ ap (retain (in_window t0 t1)) is),
              length-map (retain (in_window t0 t1) samples) entry,
            ))
      ]

  cell_at-carried :
      (ch : ChannelId) (kind : ChannelKind) (cells : List (Timestamp × LogCell F)) (t : Timestamp)
      → stored_cells format_scalar_value g ch kind ≡ some cells
      → IsSorted 0 cells
      → length (retain (in_window t0 t1) cells) ≤ log_scan_max
      → t0 < t1
      → cell_at fl (some (source_of format_scalar_value g t0 t1 ch kind)) t ≡ carried t0 t1 cells t
  unfolding cell_at source_of
  cell_at-carried ch scalar cells t held sorted few h =
      let found = query_raw g ch t0 t1 log_scan_max in
      ap value_of (
        scalar_values-latest format_scalar_value t found [] tt
        ∙ ap (latest t none) (
            found-carried (scalar_entry format_scalar_value) (λ s. refl) (get_elem? g.scalars ch)
              cells found held sorted few
              λ samples e s.
                (query_raw-window g ch t0 t1 log_scan_max samples e s h (omega arith)).2))
  cell_at-carried ch ChannelKind.text cells t held sorted few h =
      let found = query_text g ch t0 t1 log_scan_max in
      ap value_of (
        text_values-latest t found [] tt
        ∙ ap (latest t none) (
            found-carried text_entry (λ s. refl) (get_elem? g.texts ch) cells found held sorted few
              λ samples e s. query_text-window g ch t0 t1 log_scan_max samples e s h (omega arith)))
  cell_at-carried ch (state labels) cells t held sorted few h = absurd (none-ne-some cells held)

  -- For a column that is a text or scalar channel, whose samples the store holds in time order and with
  -- no more than `log_scan_max`, 200000, of them in the window: in each row of the log view, its cell
  -- holds the latest of the stored samples of the window that is not after the time of the row, and there
  -- is no cell before the first of them. The samples before the window are not carried into it.
  pub build_log_rows-carried :
      (by_id : ById) (columns : List ChannelId) (ch : ChannelId) (kind : ChannelKind)
      (cells : List (Timestamp × LogCell F))
      → set_has columns ch ≡ true
      → kind_of by_id ch ≡ some kind
      → stored_cells format_scalar_value g ch kind ≡ some cells
      → IsSorted 0 cells
      → length (retain (in_window t0 t1) cells) ≤ log_scan_max
      → t0 < t1
      → All
          (λ row. map_get ch row.cells ≡ carried t0 t1 cells row.t)
          (build_log_rows fl format_scalar_value g by_id columns t0 t1)
  unfolding build_log_rows
  build_log_rows-carried by_id columns ch kind cells has k held sorted few h =
      rows (anchor_of by_id columns)
    where
      sources : List (ChannelId × ColSource F)
      sources = add_sources format_scalar_value g t0 t1 by_id columns []

      rows :
          (anchor : Option ChannelId)
          → All
              (λ row. map_get ch row.cells ≡ carried t0 t1 cells row.t)
              (anchored_rows fl sources columns anchor)
      rows none = tt
      rows (some anchor) =
          All-map (λ row. map_get ch row.cells ≡ carried t0 t1 cells row.t)
            (λ t. record { t = t; cells = row_cells fl sources t columns [] })
            (anchor_ts (map_get anchor sources))
            (λ t.
              row_cell fl format_scalar_value g t0 t1 by_id columns ch kind t has k
              ∙ cell_at-carried ch kind cells t held sorted few h)
