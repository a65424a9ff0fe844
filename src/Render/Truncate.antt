-- ===== src/Render/Truncate.antt =====
-- viewer/crates/btelem-viewer/src/plot_renderers.rs: how many rows of a log view are shown.
pub mod Sampled
pub mod Tiers
pub mod Priority
pub mod Shown
use btelem.Prelude.{
  ℕ, zero, suc, ◌+◌, ◌-◌, ◌*◌, ◌/◌, ◌%◌, ◌^◌, Bool, List, [], ◌∷◌, ◌++◌, Option, none, some, ltb,
  leb, ◌==◌, if◌then◌else◌, map_get, length, take, max,
}
use btelem.Prelude.Int.{ℤ, negsuc, ltb_ℤ}
use btelem.Store.{ChannelId, Timestamp, u64_max}
use btelem.Store.Query.{step_by, first?, last?, eq_ℤ}
use btelem.View.Names.{sort_by}
use btelem.Render.LogRows.{LogCell, LogRow}

-- The bucket of a time among `n` over `span`: `as usize` of a quotient of 128-bit numbers.
unfoldable pub bucket_of : Timestamp → ℕ → ℕ → Timestamp → ℕ
bucket_of t_first n span t = ((t - t_first) * n / span) % 2 ^ 64

module _ {F : Type 0} where
  abbrev pub time_of : Option (LogRow F) → Timestamp
  time_of none = 0
  time_of (some r) = r.t

  -- The loop over the rows, the last bucket kept.
  unfoldable pub one_per_bucket : Timestamp → ℕ → ℕ → ℕ → List (LogRow F) → List (LogRow F)
  unfolding bucket_of
  one_per_bucket t_first n span last_bucket [] = []
  one_per_bucket t_first n span last_bucket (r ∷ rows) =
      let bucket = bucket_of t_first n span r.t in
      let kept = one_per_bucket t_first n span bucket rows in
      let passed = one_per_bucket t_first n span last_bucket rows in
      if bucket == last_bucket then passed else r ∷ kept

  unfoldable pub sample_even_over_time : List (LogRow F) → ℕ → List (LogRow F)
  unfolding one_per_bucket step_by
  sample_even_over_time rows n =
      let t_first = time_of (first? rows) in
      let t_last = time_of (last? rows) in
      if n == 0
      then []
      else if leb (length rows) n
      then rows
      else if t_last == t_first
      then take n (step_by (max ((length rows + n - 1) / n) 1) 0 rows)
      else one_per_bucket t_first n (t_last - t_first + 1) u64_max rows

  -- A `BTreeMap` from scores is the list of its entries from the greatest score down, in the order of
  -- `into_iter().rev()`: `tiers.entry(score).or_default().push(r)`.
  unfoldable pub tier_push : ℤ → LogRow F → List (ℤ × List (LogRow F)) → List (ℤ × List (LogRow F))
  tier_push score r [] = (score, r ∷ []) ∷ []
  tier_push score r ((s, rows) ∷ tiers) =
      if eq_ℤ score s
      then (s, rows ++ (r ∷ [])) ∷ tiers
      else if ltb_ℤ s score
      then (score, r ∷ []) ∷ (s, rows) ∷ tiers
      else (s, rows) ∷ tier_push score r tiers

  -- The loop over the tiers.
  unfoldable pub fill_tiers : ℕ → List (LogRow F) → List (ℤ × List (LogRow F)) → List (LogRow F)
  fill_tiers max_rows out [] = out
  fill_tiers max_rows out ((score, tier_rows) ∷ tiers) =
      let remaining = max_rows - length out in
      let rest = fill_tiers max_rows (out ++ tier_rows) tiers in
      if remaining == 0
      then out
      else if leb (length tier_rows) remaining
      then rest
      else out ++ sample_even_over_time tier_rows remaining

  abbrev pub row_le : LogRow F → LogRow F → Bool
  row_le a b = leb a.t b.t

module _ {F : Type 0} (to_i64 : F → ℤ) where
  -- `row.cells.get(&pch).and_then(|c| c.raw).map(|n| n as i64).unwrap_or(i64::MIN)`
  unfoldable pub score_of : ChannelId → LogRow F → ℤ
  score_of pch r = elim (map_get pch r.cells) [
    | none ↦ negsuc (2 ^ 63 - 1)
    | some c ↦ elim c.raw [ none ↦ negsuc (2 ^ 63 - 1) | some n ↦ to_i64 n ]
  ]

  unfoldable pub group_tiers :
      ChannelId → List (LogRow F) → List (ℤ × List (LogRow F)) → List (ℤ × List (LogRow F))
  unfolding score_of tier_push
  group_tiers pch [] tiers = tiers
  group_tiers pch (r ∷ rows) tiers = group_tiers pch rows (tier_push (score_of pch r) r tiers)

  unfoldable pub truncate_rows : List (LogRow F) → Option ChannelId → ℕ → List (LogRow F) × ℕ
  unfolding group_tiers fill_tiers
  truncate_rows rows priority_by max_rows =
      if leb (length rows) max_rows then (rows, length rows) else elim priority_by [
        | none ↦ (sample_even_over_time rows max_rows, length rows)
        | some pch ↦
            (sort_by row_le (fill_tiers max_rows [] (group_tiers pch rows [])), length rows)
      ]
