-- ===== src/Render/LogRows/Cells.antt =====
-- viewer/crates/btelem-viewer/src/plot_renderers.rs: the rows of `build_log_rows`.
use btelem.Prelude.{
  ◌≡◌, ◌≢◌, refl, sym, ◌∙◌, ap, subst, Bool, true, List, [], ◌∷◌, Option, none, some, Text, arith,
  Bool-cases, Option-cases, inl, inr, All, map, find, map_get, set_has, some-injective,
}
use mathlib.Core.Option.{none-ne-some}
use btelem.Float.{Float}
use btelem.Store.{ChannelId, Timestamp, ChannelKind, scalar, state}
use btelem.Store.Mock.{Inner}
use btelem.Store.Query.{query_raw, query_text, first?}
use btelem.Render.LogRows.{
  LogCell, LogRow, ColSource, ById, values, last_up_to, value_of, source_of, kind_of, is_text,
  add_sources, anchor_of, anchor_ts, tree_insert, cell_at, row_cells, anchored_rows, build_log_rows,
  log_scan_max, scalar_values, text_values,
}
use btelem.Render.LogRows.Tree.{IsTree, tree_insert-IsTree, last_up_to_self}
use btelem.Render.LogRows.Carried.{
  or_else, scalar_entry, text_entry, add_sources-get, row_cells-get,
}

pub All-map {ℓ κ} :
    {A : Type ℓ} {B : Type κ} (P : B → Type 0) (f : A → B) (xs : List A)
    → ((x : A) → P (f x))
    → All P (map f xs)
All-map P f [] h = tt
All-map P f (x ∷ xs) h = (h x, All-map P f xs h)

module _ {F : Type 0} (fl : Float F) (format_scalar_value : F → Text) (g : Inner F)
    (t0 t1 : Timestamp) where
  -- The cell of a column in the row at `t` comes from the source of its channel.
  pub row_cell :
      (by_id : ById) (columns : List ChannelId) (ch : ChannelId) (kind : ChannelKind)
      (t : Timestamp)
      → set_has columns ch ≡ true
      → kind_of by_id ch ≡ some kind
      → map_get ch
          (row_cells fl (add_sources format_scalar_value g t0 t1 by_id columns []) t columns [])
        ≡ cell_at fl (some (source_of format_scalar_value g t0 t1 ch kind)) t
  row_cell by_id columns ch kind t has k =
      let sources = add_sources format_scalar_value g t0 t1 by_id columns [] in
      let source =
        rw has at (add_sources-get format_scalar_value g t0 t1 by_id ch columns [] kind k) in
      let cell = rw has at (row_cells-get fl sources t ch columns []) in
      cell ∙ or_else-none (cell_at fl (map_get ch sources) t) ∙ ap (λ s. cell_at fl s t) source
    where
      or_else-none : {A : Type 0} (o : Option A) → or_else o none ≡ o
      or_else-none none = refl
      or_else-none (some a) = refl

-- The kinds of channel that are sampled.
abbrev pub IsSampled : ChannelKind → Type 0
IsSampled (state labels) = ⊥
IsSampled _ = Unit {0}

find-has :
    (p : ChannelId → Bool) (xs : List ChannelId) (a : ChannelId)
    → find p xs ≡ some a
    → set_has xs a ≡ true
find-has p [] a h = absurd (none-ne-some a h)
find-has p (x ∷ xs) a h = elim (Bool-cases (p x)) [
  | inl e ↦ ground (arith, rw e at h)
  | inr e ↦ ground (arith, find-has p xs a (rw e at h))
]

first?-has : (xs : List ChannelId) (a : ChannelId) → first? xs ≡ some a → set_has xs a ≡ true
first?-has [] a h = absurd (none-ne-some a h)
first?-has (x ∷ xs) a h = ground (arith, some-injective h)

anchor_of-has :
    (by_id : ById) (columns : List ChannelId) (a : ChannelId)
    → anchor_of by_id columns ≡ some a
    → set_has columns a ≡ true
unfolding anchor_of
anchor_of-has by_id columns a h =
    elim (Option-cases (find (λ ch. is_text (kind_of by_id ch)) columns)) [
      | inl n ↦ first?-has columns a (rw n at h)
      | inr (b, s) ↦ find-has (λ ch. is_text (kind_of by_id ch)) columns a (s ∙ (rw s at h))
    ]

scalar_values-IsTree :
    {F : Type 0} (f : F → Text) (samples : List (Timestamp × F)) (m : List (Timestamp × LogCell F))
    → IsTree m
    → IsTree (scalar_values f samples m)
scalar_values-IsTree f [] m h = h
scalar_values-IsTree f (s ∷ samples) m h =
    let cell = (scalar_entry f s).1 in
    scalar_values-IsTree f samples (tree_insert s.0 cell m) (tree_insert-IsTree s.0 cell m h)

text_values-IsTree :
    {F : Type 0} (samples : List (Timestamp × Text)) (m : List (Timestamp × LogCell F))
    → IsTree m
    → IsTree (text_values samples m)
text_values-IsTree [] m h = h
text_values-IsTree (s ∷ samples) m h =
    let cell = (text_entry s).1 in
    text_values-IsTree samples (tree_insert s.0 cell m) (tree_insert-IsTree s.0 cell m h)

module _ {F : Type 0} (fl : Float F) (format_scalar_value : F → Text) (g : Inner F)
    (t0 t1 : Timestamp) where
  source_of-values :
      (ch : ChannelId) (kind : ChannelKind)
      → IsSampled kind
      → (m : List (Timestamp × LogCell F)) × IsTree m
        × (source_of format_scalar_value g t0 t1 ch kind ≡ values m)
  unfolding source_of
  source_of-values ch scalar h =
      let samples = query_raw g ch t0 t1 log_scan_max in
      (
        scalar_values format_scalar_value samples [],
        scalar_values-IsTree format_scalar_value samples [] tt,
        refl,
      )
  source_of-values ch ChannelKind.text h =
      let samples = query_text g ch t0 t1 log_scan_max in
      (text_values samples [], text_values-IsTree samples [] tt, refl)
  source_of-values ch (state labels) h = absurd h

  -- When the anchor of a log view, the first text column or else the first column, is a text or scalar
  -- channel, no row has an empty cell in its column.
  pub build_log_rows-anchored :
      (by_id : ById) (columns : List ChannelId) (anchor : ChannelId) (kind : ChannelKind)
      → anchor_of by_id columns ≡ some anchor
      → kind_of by_id anchor ≡ some kind
      → IsSampled kind
      → All
          (λ row. map_get anchor row.cells ≢ none)
          (build_log_rows fl format_scalar_value g by_id columns t0 t1)
  unfolding build_log_rows cell_at
  build_log_rows-anchored by_id columns anchor kind a k sampled =
      subst (λ o. All Filled (anchored_rows fl sources columns o)) (sym a)
        (subst (λ o. All Filled (map row (anchor_ts o))) (sym source) (rows m found))
    where
      sources : List (ChannelId × ColSource F)
      sources = add_sources format_scalar_value g t0 t1 by_id columns []

      row : Timestamp → LogRow F
      row t = record { t = t; cells = row_cells fl sources t columns [] }

      Filled : LogRow F → Type 0
      Filled r = map_get anchor r.cells ≢ none

      has : set_has columns anchor ≡ true
      has = anchor_of-has by_id columns anchor a

      m : List (Timestamp × LogCell F)
      m = (source_of-values anchor kind sampled).0

      found : All (λ e. last_up_to e.0 m ≡ some e) m
      found = last_up_to_self m (source_of-values anchor kind sampled).1

      source : map_get anchor sources ≡ some (values m)
      source =
          (rw has at (add_sources-get format_scalar_value g t0 t1 by_id anchor columns [] kind k))
          ∙ ap (λ (s : ColSource F). some s) (source_of-values anchor kind sampled).2

      cell :
          (t : Timestamp) (e : Timestamp × LogCell F)
          → last_up_to t m ≡ some e
          → map_get anchor (row t).cells ≡ some e.1
      cell t e h =
          (rw has at (row_cells-get fl sources t anchor columns []))
          ∙ ap (λ s. or_else (cell_at fl s t) none) source
          ∙ ap (λ o. or_else (value_of o) none) h

      rows :
          (es : List (Timestamp × LogCell F))
          → All (λ e. last_up_to e.0 m ≡ some e) es
          → All Filled (map row (map (λ e. e.0) es))
      rows [] h = tt
      rows (e ∷ es) h = (λ n. none-ne-some e.1 (sym n ∙ cell e.0 e h.0), rows es h.1)
