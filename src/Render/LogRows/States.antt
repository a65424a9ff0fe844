-- ===== src/Render/LogRows/States.antt =====
-- viewer/crates/btelem-viewer/src/plot_renderers.rs: the cells of a state column.
use btelem.Prelude.{
  ℕ, zero, suc, ◌≤◌, ◌<◌, ◌≡◌, refl, sym, ◌∙◌, ap, subst, true, List, [], ◌∷◌, Option, none, some,
  Text, arith, ltb, leb, leb→le, leb-false, if◌then◌else◌, Bool-cases, inl, inr, map, map_get,
  set_has, get_elem?, ltb-false, ◌⊎◌, decimal, some-injective,
}
use mathlib.Core.Option.{none-ne-some}
use btelem.Float.{Float}
use btelem.Store.{ChannelId, Timestamp, StateRun, state, u64_max}
use btelem.Store.Mock.{Inner}
use btelem.Store.Query.{partition_point, held_runs, runs_between, query_state}
use btelem.Store.Sample.Runs.{
  IsChain, InOrder, held_at, run_at-held_at, run_at-observe, runs_between_step, latest, observe,
  observe-IsChain,
}
use btelem.Render.LogRows.{
  LogCell, LogRow, ColSource, ById, run_value, state_value_text, state_value_at, source_of, kind_of,
  add_sources, anchor_of, anchor_ts, cell_at, row_cells, anchored_rows, build_log_rows,
}
use btelem.Render.LogRows.Cells.{row_cell}

state_value_at_nil : (t : Timestamp) → state_value_at [] t ≡ none
unfolding state_value_at partition_point
state_value_at_nil t = refl

state_value_at_one :
    (r : StateRun) (t : Timestamp)
    → state_value_at (r ∷ []) t ≡ (if leb r.t_start t then run_value t (some r) else none)
unfolding state_value_at partition_point
state_value_at_one r t = elim (Bool-cases (leb r.t_start t)) [
  | inl e ↦ rw e refl
  | inr e ↦ rw e refl
]

state_value_at_step :
    (r r' : StateRun) (rs : List StateRun) (t : Timestamp)
    → r.t_start ≤ r'.t_start
    → state_value_at (r ∷ r' ∷ rs) t ≡ (
        if leb r'.t_start t
        then state_value_at (r' ∷ rs) t
        else if leb r.t_start t
        then run_value t (some r)
        else none)
unfolding state_value_at partition_point
state_value_at_step r r' rs t h = elim (Bool-cases (leb r'.t_start t)) [
  | inl e ↦ let here : leb r.t_start t ≡ true = ground (arith, e, h) in rw (e, here) refl
  | inr e ↦ elim (Bool-cases (leb r.t_start t)) [ inl f ↦ rw (e, f) refl | inr f ↦ rw (e, f) refl ]
]

-- A query that starts with `r` starts with a run from the same time, when that lies before its end.
held_runs-head :
    (r : StateRun) (rs : List StateRun) (t1 : Timestamp)
    → ((held_runs t1 (r ∷ rs) ≡ []) × (t1 ≤ r.t_start))
      ⊎ ((r' : StateRun) × (rest : List StateRun) × (held_runs t1 (r ∷ rs) ≡ r' ∷ rest)
          × (r'.t_start ≡ r.t_start))
unfolding held_runs
held_runs-head r [] t1 = elim (Bool-cases (ltb r.t_start t1)) [
  | inl e ↦ rw e (inr (_, [], refl, refl))
  | inr e ↦ rw e (inl (refl, ltb-false r.t_start t1 e))
]
held_runs-head r (r' ∷ rs) t1 = elim (Bool-cases (ltb r.t_start t1)) [
  | inl e ↦ rw e (inr (r, _, refl, refl))
  | inr e ↦ rw e (inl (refl, ltb-false r.t_start t1 e))
]

next_run :
    (r r' r'' : StateRun) (rs : List StateRun) (t : Timestamp) (x : Option ℕ)
    → x ≡ held_at (r' ∷ rs) t
    → r''.t_start ≡ r'.t_start
    → r'.t_start ≤ r.t_end
    → t < u64_max
    → (if leb r''.t_start t then x else if leb r.t_start t then run_value t (some r) else none)
      ≡ held_at (r ∷ r' ∷ rs) t
next_run r r' r'' rs t x there start end m = elim (Bool-cases (leb r'.t_start t)) [
  | inl e ↦ rw (start, e) there
  | inr e ↦ rw (start, e) (ground (arith, leb-false r'.t_start t e, end, m))
]

-- The runs of a query, searched at a time of its range.
state_value_at-held_runs :
    (rs : List StateRun) (now t t1 : Timestamp)
    → IsChain rs now
    → t < t1
    → t < u64_max
    → state_value_at (held_runs t1 rs) t ≡ held_at rs t
unfolding held_runs
state_value_at-held_runs [] now t t1 c h m = state_value_at_nil t
state_value_at-held_runs (r ∷ []) now t t1 c h m = elim (Bool-cases (ltb r.t_start t1)) [
  | inl e ↦ rw (e, state_value_at_one) (ground (arith, m))
  | inr e ↦ rw (e, state_value_at_nil t) (ground (arith, e, h))
]
state_value_at-held_runs (r ∷ r' ∷ rs) now t t1 c h m =
    let rest = state_value_at-held_runs (r' ∷ rs) now t t1 c.3 h m in
    elim (Bool-cases (ltb r.t_start t1)) [
      | inr e ↦ rw (e, state_value_at_nil t) (ground (arith, ltb-false r.t_start t1 e, h, c.0, c.1))
      | inl e ↦ elim (held_runs-head r' rs t1) [
        | inl (none_left, late) ↦
            rw (e, none_left, state_value_at_one) (ground (arith, c.0, c.1, late, h))
        | inr (r'', tail, found, start) ↦
            let step = state_value_at_step r r'' tail t (omega (arith, c.0, c.1, start)) in
            let there = ap (λ x. state_value_at x t) (sym found) ∙ rest in
            rw (e, found) (step ∙ next_run r r' r'' rs t _ there start (omega (arith, c.1)) m)
      ]
    ]

state_value_at-runs_between :
    (rs : List StateRun) (now t t0 t1 : Timestamp)
    → IsChain rs now
    → t0 ≤ t
    → t < t1
    → t < u64_max
    → state_value_at (runs_between rs t0 t1) t ≡ held_at rs t
unfolding runs_between partition_point
state_value_at-runs_between [] now t t0 t1 c l h m = unfold state_value_at held_runs in refl
state_value_at-runs_between (r ∷ []) now t t0 t1 c l h m =
    state_value_at-held_runs (r ∷ []) now t t1 c h m
state_value_at-runs_between (r ∷ r' ∷ rs) now t t0 t1 c l h m = elim (Bool-cases (leb r.t_end t0)) [
  | inl past ↦
      rw (runs_between_step r r' rs t0 t1, past)
        (state_value_at-runs_between (r' ∷ rs) now t t0 t1 c.3 l h m
          ∙ later (omega (arith, leb→le r.t_end t0 past, c.1)))
  | inr here ↦
      rw (runs_between_step r r' rs t0 t1, here)
        (state_value_at-held_runs (r ∷ r' ∷ rs) now t t1 c h m)
]
  where
    later : r'.t_start ≤ t → held_at (r' ∷ rs) t ≡ held_at (r ∷ r' ∷ rs) t
    later e = ground arith

at-map :
    {A B : Type 0} (P : B → Type 0) (f : A → B)
    → ((x : A) → P (f x))
    → (xs : List A) (i : ℕ) (y : B) → get_elem? (map f xs) i ≡ some y
    → P y
at-map P f h [] i y e = absurd (none-ne-some y e)
at-map P f h (x ∷ xs) zero y e = subst P (some-injective e) (h x)
at-map P f h (x ∷ xs) (suc i) y e = at-map P f h xs i y e

-- The cell that shows a state: its label, or its number where the schema has no label.
abbrev pub state_cell : {F : Type 0} → Float F → List Text → Option ℕ → Option (LogCell F)
state_cell fl labels none = none
state_cell fl labels (some value) = some (record {
  display = elim (get_elem? labels value) [ none ↦ decimal value | some label ↦ label ];
  raw = some (fl.of_u64 value);
})

module _ {F : Type 0} (fl : Float F) (format_scalar_value : F → Text) (g : Inner F)
    (t0 t1 : Timestamp) where
  cell_at-observed :
      (ch : ChannelId) (labels : List Text) (obs : List (Timestamp × ℕ)) (t : Timestamp)
      → get_elem? g.states ch ≡ some (observe [] obs)
      → InOrder 0 obs
      → t0 ≤ t
      → t < t1
      → t < u64_max
      → cell_at fl (some (source_of format_scalar_value g t0 t1 ch (state labels))) t
        ≡ state_cell fl labels (latest none obs t)
  unfolding cell_at source_of query_state state_value_text
  cell_at-observed ch labels obs t held o l h m =
      let (end, c) = observe-IsChain [] obs 0 tt o in
      let found : state_value_at (query_state g ch t0 t1) t ≡ latest none obs t =
        rw (held, query_state)
          (state_value_at-runs_between (observe [] obs) end t t0 t1 c l h m
            ∙ sym (run_at-held_at (observe [] obs) end t c m)
            ∙ run_at-observe obs t o m) in
      shows (state_value_at (query_state g ch t0 t1) t) ∙ ap (state_cell fl labels) found
    where
      shows :
          (o : Option ℕ)
          → (elim o as (λ _. Option (LogCell F)) [
            | none ↦ none
            | some value ↦
                some
                  (record { display = state_value_text value labels; raw = some (fl.of_u64 value) })
          ])
            ≡ state_cell fl labels o
      shows none = refl
      shows (some value) = refl

  -- For a column that is a state channel, whose runs in the store come from observations in time order:
  -- in each row of the log view with a time in the window, and before the last instant of `u64`, its cell
  -- shows the label of the value observed last at or before the time of the row, also when that
  -- observation lies before the window, or the number of a value without a label; before the first
  -- observation there is no cell.
  pub build_log_rows-observed :
      (by_id : ById) (columns : List ChannelId) (ch : ChannelId) (labels : List Text)
      (obs : List (Timestamp × ℕ)) (i : ℕ) (row : LogRow F)
      → set_has columns ch ≡ true
      → kind_of by_id ch ≡ some (state labels)
      → get_elem? g.states ch ≡ some (observe [] obs)
      → InOrder 0 obs
      → get_elem? (build_log_rows fl format_scalar_value g by_id columns t0 t1) i ≡ some row
      → t0 ≤ row.t
      → row.t < t1
      → row.t < u64_max
      → map_get ch row.cells ≡ state_cell fl labels (latest none obs row.t)
  unfolding build_log_rows
  build_log_rows-observed by_id columns ch labels obs i row has k held o at l h m =
      rows (anchor_of by_id columns) at l h m
    where
      sources : List (ChannelId × ColSource F)
      sources = add_sources format_scalar_value g t0 t1 by_id columns []

      Shows : LogRow F → Type 0
      Shows row =
          t0 ≤ row.t
          → row.t < t1
          → row.t < u64_max
          → map_get ch row.cells ≡ state_cell fl labels (latest none obs row.t)

      rows :
          (anchor : Option ChannelId)
          → get_elem? (anchored_rows fl sources columns anchor) i ≡ some row
          → Shows row
      rows none e = absurd (none-ne-some row e)
      rows (some anchor) e =
          at-map Shows (λ t. record { t = t; cells = row_cells fl sources t columns [] })
            (λ t l h m.
              row_cell fl format_scalar_value g t0 t1 by_id columns ch (state labels) t has k
              ∙ cell_at-observed ch labels obs t held o l h m)
            (anchor_ts (map_get anchor sources)) i row e
