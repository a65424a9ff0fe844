-- ===== src/Render/LogRows.antt =====
-- viewer/crates/btelem-viewer/src/plot_renderers.rs: the rows of a log view. The queries of the store
-- are those of `MockStore`; the text of a number is a parameter.
pub mod Tree
pub mod Carried
pub mod Cells
pub mod Latest
pub mod States
use btelem.Prelude.{
  ℕ, ◌<◌, Bool, true, false, not, ◌||◌, ◌&&◌, zero, suc, List, [], ◌∷◌, ◌++◌, Option, none, some,
  Text, ltb, leb, ◌==◌, map, find, map_get, map_insert, get_elem?, decimal, if◌then◌else◌,
}
use btelem.Float.{Float}
use btelem.Store.{ChannelId, Timestamp, ChannelKind, ChannelInfo, StateRun, u64_max, scalar, state}
use btelem.Store.Mock.{Inner}
use btelem.Store.Query.{query_raw, query_text, query_state, partition_point, first?}
use btelem.View.Filter.{FilterValue, ColumnFilter, is_active, accepts}

pub data FilterKind : Type 0 where
  text numeric : FilterKind
  enum : List Text → FilterKind

unfoldable pub from_channel : ChannelKind → FilterKind
from_channel ChannelKind.text = FilterKind.text
from_channel scalar = numeric
from_channel (state labels) = enum labels

pub record LogCell (F : Type 0) : Type 0 where
  pub display : Text
  pub raw : Option F

pub record LogRow (F : Type 0) : Type 0 where
  pub t : Timestamp
  pub cells : List (ChannelId × LogCell F)

abbrev pub log_scan_max : ℕ
log_scan_max = 200000

-- A `BTreeMap` by time is the list of its entries in the order of their keys.
pub data ColSource (F : Type 0) : Type 0 where
  values : List (Timestamp × LogCell F) → ColSource F
  states : List StateRun → List Text → ColSource F

abbrev pub tree_insert : {V : Type 0} → ℕ → V → List (ℕ × V) → List (ℕ × V)
tree_insert k v [] = (k, v) ∷ []
tree_insert k v ((j, w) ∷ m) =
    if k == j
    then (k, v) ∷ m
    else if ltb k j
    then (k, v) ∷ (j, w) ∷ m
    else (j, w) ∷ tree_insert k v m

-- `m.range(..=t).next_back()`
abbrev pub last_up_to : {V : Type 0} → ℕ → List (ℕ × V) → Option (ℕ × V)
last_up_to t [] = none
last_up_to t ((j, w) ∷ m) =
    if leb j t then elim (last_up_to t m) [ none ↦ some (j, w) | some e ↦ some e ] else none

-- `if let Some((_, cell))`
abbrev pub value_of : {V : Type 0} → Option (ℕ × V) → Option V
value_of none = none
value_of (some e) = some e.1

unfoldable pub state_value_text : ℕ → List Text → Text
state_value_text value labels = elim (get_elem? labels value) [
  | none ↦ decimal value
  | some label ↦ label
]

-- `&runs[idx - 1]`, with the run before the first that starts after `t`.
abbrev pub run_value : Timestamp → Option StateRun → Option ℕ
run_value t none = none
run_value t (some run) = if ltb t run.t_end || run.t_end == u64_max then some run.value else none

abbrev pub before : {A : Type 0} → List A → ℕ → Option A
before runs zero = none
before runs (suc i) = get_elem? runs i

unfoldable pub state_value_at : List StateRun → Timestamp → Option ℕ
unfolding partition_point
state_value_at runs t = run_value t (before runs (partition_point (λ r. leb r.t_start t) runs))

abbrev pub ById : Type 0
ById = List (ChannelId × ChannelInfo)

abbrev pub kind_of : ById → ChannelId → Option ChannelKind
kind_of by_id ch = elim (map_get ch by_id) [ none ↦ none | some info ↦ some info.kind ]

abbrev pub is_text : Option ChannelKind → Bool
is_text (some ChannelKind.text) = true
is_text _ = false

abbrev pub or_first : Option ChannelId → List ChannelId → Option ChannelId
or_first (some ch) columns = some ch
or_first none columns = first? columns

-- The first text column, else the first column.
unfoldable pub anchor_of : ById → List ChannelId → Option ChannelId
anchor_of by_id columns = or_first (find (λ ch. is_text (kind_of by_id ch)) columns) columns

module _ {F : Type 0} where
  abbrev pub text_values :
      List (Timestamp × Text) → List (Timestamp × LogCell F) → List (Timestamp × LogCell F)
  text_values [] m = m
  text_values ((t, s) ∷ samples) m =
      text_values samples (tree_insert t (record { display = s; raw = none }) m)

  abbrev pub anchor_ts : Option (ColSource F) → List Timestamp
  anchor_ts none = []
  anchor_ts (some (values m)) = map (λ e. e.0) m
  anchor_ts (some (states runs labels)) = map (λ r. r.t_start) runs

module _ {F : Type 0} (format_scalar_value : F → Text) where
  abbrev pub scalar_values :
      List (Timestamp × F) → List (Timestamp × LogCell F) → List (Timestamp × LogCell F)
  scalar_values [] m = m
  scalar_values ((t, v) ∷ samples) m =
      scalar_values samples
        (tree_insert t (record { display = format_scalar_value v; raw = some v }) m)

  module _ (g : Inner F) (t0 t1 : Timestamp) where
    -- The body of the match on the kind of a column.
    unfoldable pub source_of : ChannelId → ChannelKind → ColSource F
    source_of ch scalar = values (scalar_values (query_raw g ch t0 t1 log_scan_max) [])
    source_of ch ChannelKind.text = values (text_values (query_text g ch t0 t1 log_scan_max) [])
    source_of ch (state labels) = states (query_state g ch t0 t1) labels

    unfoldable pub add_sources :
        ById → List ChannelId → List (ChannelId × ColSource F) → List (ChannelId × ColSource F)
    unfolding source_of
    add_sources by_id [] sources = sources
    add_sources by_id (ch ∷ columns) sources = add_sources by_id columns (elim (kind_of by_id ch) [
      | none ↦ sources
      | some kind ↦ map_insert ch (source_of ch kind) sources
    ])

module _ {F : Type 0} (fl : Float F) where
  -- The cell of a column at `t`.
  unfoldable pub cell_at : Option (ColSource F) → Timestamp → Option (LogCell F)
  unfolding state_value_at state_value_text
  cell_at none t = none
  cell_at (some (values m)) t = value_of (last_up_to t m)
  cell_at (some (states runs labels)) t = elim (state_value_at runs t) [
    | none ↦ none
    | some value ↦
        some (record { display = state_value_text value labels; raw = some (fl.of_u64 value) })
  ]

  unfoldable pub row_cells :
      List (ChannelId × ColSource F)
      → Timestamp
      → List ChannelId
      → List (ChannelId × LogCell F)
      → List (ChannelId × LogCell F)
  unfolding cell_at
  row_cells sources t [] cells = cells
  row_cells sources t (ch ∷ columns) cells =
      row_cells sources t columns (elim (cell_at (map_get ch sources) t) [
        | none ↦ cells
        | some cell ↦ map_insert ch cell cells
      ])

  -- The rows, one for each sample of the anchor.
  abbrev pub anchored_rows :
      List (ChannelId × ColSource F) → List ChannelId → Option ChannelId → List (LogRow F)
  anchored_rows sources columns none = []
  anchored_rows sources columns (some anchor) =
      map (λ t. record { t = t; cells = row_cells sources t columns [] })
        (anchor_ts (map_get anchor sources))

  unfoldable pub build_log_rows :
      (F → Text) → Inner F → ById → List ChannelId → Timestamp → Timestamp → List (LogRow F)
  unfolding anchor_of add_sources row_cells
  build_log_rows format_scalar_value g by_id columns t0 t1 =
      anchored_rows (add_sources format_scalar_value g t0 t1 by_id columns []) columns
        (anchor_of by_id columns)

module _ {F : Type 0} (fl : Float F) where
  abbrev pub filter_value : Option (LogCell F) → Option (FilterValue F)
  filter_value none = none
  filter_value (some c) = elim c.raw [
    | some n ↦ some (FilterValue.num n)
    | none ↦ some (FilterValue.text c.display)
  ]

  unfoldable pub row_passes_filters : LogRow F → List (ChannelId × ColumnFilter F) → Bool
  unfolding is_active accepts
  row_passes_filters row [] = true
  row_passes_filters row ((ch, f) ∷ filters) =
      (if is_active f then accepts fl f (filter_value (map_get ch row.cells)) else true)
      && row_passes_filters row filters
