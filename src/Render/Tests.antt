-- ===== src/Render/Tests.antt =====
-- Small log views.
use btelem.Prelude.{
  ℕ, ◌≡◌, ◌≢◌, refl, true, false, List, [], ◌∷◌, none, some, Text, codes, All, arith, map_get,
  get_elem?,
}
use btelem.Prelude.Int.{ℤ, pos}
use mathlib.Core.List.{Mem, Memᴰ}
use btelem.Float.{whole}
use btelem.Store.{ChannelKind, scalar, state}
use btelem.Store.Mock.{Inner}
use btelem.Render.LogRows.{
  LogCell, LogRow, ById, build_log_rows, anchor_of, add_sources, source_of, row_cells, cell_at,
  state_value_at, state_value_text,
}
use btelem.Render.LogRows.Cells.{build_log_rows-anchored}
use btelem.Render.LogRows.Latest.{carried, build_log_rows-carried}
use btelem.Render.LogRows.States.{state_cell, build_log_rows-observed}
use btelem.Render.Labels.{collapse_groups}
use btelem.Render.Labels.Groups.{expand, IsCollapsed, expand-collapse_groups}
use btelem.Store.Mock.{push_run}
use btelem.Store.Query.{
  query_text, query_state, runs_between, held_runs, partition_point, in_range, thin,
}
use btelem.Store.Sample.Runs.{observe, latest}
use btelem.View.Names.{sort_by}
use btelem.Render.Truncate.{truncate_rows, score_of, sample_even_over_time}
use btelem.Render.Truncate.Shown.{IsShown, truncate_rows-IsShown, truncate_rows-priority}

abbrev row_of : ℕ → ℕ → LogRow ℤ
row_of t level = record {
  t = t;
  cells = (1, record { display = codes "level"; raw = some (pos level) }) ∷ [];
}

abbrev message : ℕ → LogRow ℤ
message t = record { t = t; cells = (0, record { display = codes "boot"; raw = none }) ∷ [] }

abbrev five_rows : List (LogRow ℤ)
five_rows = row_of 10 2 ∷ row_of 20 1 ∷ message 30 ∷ row_of 40 2 ∷ row_of 50 1 ∷ []

-- The two rows of level 2, and one of the two of level 1.
truncated :
    truncate_rows (λ x. x) five_rows (some 1) 3 ≡ (row_of 10 2 ∷ row_of 20 1 ∷ row_of 40 2 ∷ [], 5)
unfolding truncate_rows sort_by sample_even_over_time
truncated = refl

truncate_rows-IsShown_example : IsShown five_rows 3 (truncate_rows (λ x. x) five_rows (some 1) 3)
truncate_rows-IsShown_example =
    truncate_rows-IsShown (λ x. x) five_rows (some 1) 3
      (omega arith, (omega arith, (omega arith, (omega arith, (omega arith, tt))))) (omega arith)

truncate_rows-priority_example : Mem (row_of 40 2) (truncate_rows (λ x. x) five_rows (some 1) 3).0
unfolding truncate_rows score_of sort_by sample_even_over_time
truncate_rows-priority_example =
    truncate_rows-priority (λ x. x) five_rows 1 3 (row_of 20 1) (row_of 40 2)
      ∣ Memᴰ.tail (Memᴰ.head refl) ∣₁ ∣ Memᴰ.tail (Memᴰ.tail (Memᴰ.tail (Memᴰ.head refl))) ∣₁ refl

-- A text channel and a scalar.
abbrev log_store : Inner ℤ
log_store = record {
  channels =
      record { id = 0; path = codes "log.text"; kind = ChannelKind.text; integer_storage = false }
      ∷ record { id = 1; path = codes "log.level"; kind = scalar; integer_storage = true }
      ∷ [];
  scalars = [] ∷ ((5, pos 1) ∷ (25, pos 3) ∷ []) ∷ [];
  states = [] ∷ [] ∷ [];
  texts = ((10, codes "boot") ∷ (20, codes "ready") ∷ (30, codes "fault") ∷ []) ∷ [] ∷ [];
  revision = 5;
  word_to_bits = [];
}

abbrev log_channels : ById
log_channels =
    (
      0,
      record { id = 0; path = codes "log.text"; kind = ChannelKind.text; integer_storage = false },
    )
    ∷ (1, record { id = 1; path = codes "log.level"; kind = scalar; integer_storage = true })
    ∷ []

abbrev shown_as : ℤ → Text
shown_as x = codes "n"

abbrev level_cells : List (ℕ × LogCell ℤ)
level_cells =
    (5, record { display = codes "n"; raw = some (pos 1) })
    ∷ (25, record { display = codes "n"; raw = some (pos 3) })
    ∷ []

build_log_rows-carried_example :
    All
      (λ row. map_get 1 row.cells ≡ carried 6 100 level_cells row.t)
      (build_log_rows whole shown_as log_store log_channels (1 ∷ 0 ∷ []) 6 100)
build_log_rows-carried_example =
    build_log_rows-carried whole shown_as log_store 6 100 log_channels (1 ∷ 0 ∷ []) 1 scalar
      level_cells refl refl refl (omega arith, (omega arith, tt)) (omega arith) (omega arith)

-- The sample at 5 lies before the window.
carried_in_window :
    (carried 6 100 level_cells 20 ≡ none)
    × (carried 6 100 level_cells 30 ≡ some (record { display = codes "n"; raw = some (pos 3) }))
carried_in_window = (refl, refl)

build_log_rows-anchored_example :
    All
      (λ row. map_get 0 row.cells ≢ none)
      (build_log_rows whole shown_as log_store log_channels (1 ∷ 0 ∷ []) 0 100)
unfolding anchor_of
build_log_rows-anchored_example =
    build_log_rows-anchored whole shown_as log_store 0 100 log_channels (1 ∷ 0 ∷ []) 0
      ChannelKind.text refl refl tt

abbrev lane_order : List (ℕ × Text)
lane_order = (2, codes "imu") ∷ (0, codes "imu") ∷ (1, codes "motor") ∷ []

expand-collapse_groups_example :
    (expand (collapse_groups lane_order) ≡ lane_order) × IsCollapsed (collapse_groups lane_order)
expand-collapse_groups_example = expand-collapse_groups lane_order

-- Off at 5, on from 12.
abbrev seen : List (ℕ × ℕ)
seen = (5, 0) ∷ (12, 1) ∷ []

abbrev on_off : List Text
on_off = codes "off" ∷ codes "on" ∷ []

-- A text channel and a state.
abbrev state_store : Inner ℤ
state_store = record {
  channels =
      record { id = 0; path = codes "log.text"; kind = ChannelKind.text; integer_storage = false }
      ∷ record { id = 1; path = codes "log.on"; kind = state on_off; integer_storage = true }
      ∷ [];
  scalars = [] ∷ [] ∷ [];
  states = [] ∷ observe [] seen ∷ [];
  texts = ((11, codes "boot") ∷ (20, codes "ready") ∷ []) ∷ [] ∷ [];
  revision = 6;
  word_to_bits = [];
}

abbrev state_channels : ById
state_channels =
    (
      0,
      record { id = 0; path = codes "log.text"; kind = ChannelKind.text; integer_storage = false },
    )
    ∷ (1, record { id = 1; path = codes "log.on"; kind = state on_off; integer_storage = true })
    ∷ []

-- The row at 11: the state was observed before the window from 10 on.
abbrev boot_row : LogRow ℤ
boot_row = record {
  t = 11;
  cells =
      (0, record { display = codes "boot"; raw = none })
      ∷ (1, record { display = codes "off"; raw = some (pos 0) })
      ∷ [];
}

boot_row_is :
    get_elem? (build_log_rows whole shown_as state_store state_channels (0 ∷ 1 ∷ []) 10 100) 0
    ≡ some boot_row
unfolding build_log_rows anchor_of add_sources source_of row_cells cell_at state_value_at
    state_value_text query_text query_state runs_between held_runs partition_point in_range thin
    push_run observe whole
boot_row_is = refl

build_log_rows-observed_example :
    map_get 1 boot_row.cells ≡ state_cell whole on_off (latest none seen 11)
build_log_rows-observed_example =
    build_log_rows-observed whole shown_as state_store 10 100 state_channels (0 ∷ 1 ∷ []) 1 on_off
      seen 0 boot_row refl refl refl (omega arith, (omega arith, tt)) boot_row_is (omega arith)
      (omega arith) (omega arith)
