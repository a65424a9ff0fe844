-- ===== src/Render/Truncate/Shown.antt =====
-- viewer/crates/btelem-viewer/src/plot_renderers.rs: what `truncate_rows` shows of the rows of a log view.
use btelem.Prelude.{
  ℕ, suc, ◌≤◌, ◌≡◌, refl, ap, subst, append-nil, ◌∙◌, true, List, [], ◌∷◌, ◌++◌, Option, none, some,
  leb, length, arith, Bool-cases, inl, inr, All, All-weaken, All-append, leb→le, leb-false,
}
use btelem.Prelude.Int.{ℤ, ltb_ℤ}
use mathlib.Core.Logic.{∥∥₁_map, ∥∥₁_map₂}
use mathlib.Core.List.{Mem, Memᴰ, Perm, Subperm, Sublist, perm_middle, exists_perm_sublist}
use mathlib.Core.List.Memᴰ
use mathlib.Core.List.Perm
use btelem.Store.{ChannelId, Timestamp, u64_max}
use btelem.Store.Query.{eq_ℤ}
use btelem.View.Names.{sort_by, insert_sorted}
use btelem.Render.LogRows.{LogRow}
use btelem.Render.Truncate.{
  tier_push, fill_tiers, sample_even_over_time, score_of, group_tiers, row_le, truncate_rows,
}
use btelem.Render.Truncate.Sampled.{
  Ascending, sample_even_over_time-Sublistᴰ, length-sample_even_over_time, Ascending-sublist,
}
use btelem.Render.Truncate.Tiers.{flat_rows, tier_push-perm, fill_tiers-Sublistᴰ, length-fill_tiers}
use btelem.Render.Truncate.Priority.{IsGrouped, tier_push-IsGrouped, fill_tiers-priority}

module _ {F : Type 0} where
  insert_sorted-perm :
      (x : LogRow F) (ys : List (LogRow F)) → Perm (insert_sorted row_le x ys) (x ∷ ys)
  unfolding insert_sorted
  insert_sorted-perm x [] = Perm.refl (x ∷ [])
  insert_sorted-perm x (y ∷ ys) = elim (Bool-cases (row_le x y)) [
    | inl e ↦ rw e (Perm.refl (x ∷ y ∷ ys))
    | inr e ↦ rw e (Perm.trans (Perm.cons y (insert_sorted-perm x ys)) (Perm.swap x y ys))
  ]

  sort_by-perm : (xs : List (LogRow F)) → Perm (sort_by row_le xs) xs
  unfolding sort_by
  sort_by-perm [] = Perm.nil
  sort_by-perm (x ∷ xs) =
      Perm.trans (insert_sorted-perm x (sort_by row_le xs)) (Perm.cons x (sort_by-perm xs))

  length-insert_sorted :
      (x : LogRow F) (ys : List (LogRow F)) → length (insert_sorted row_le x ys) ≡ suc (length ys)
  unfolding insert_sorted
  length-insert_sorted x [] = refl
  length-insert_sorted x (y ∷ ys) = ground (arith, length-insert_sorted x ys)

  length-sort_by : (xs : List (LogRow F)) → length (sort_by row_le xs) ≡ length xs
  unfolding sort_by
  length-sort_by [] = refl
  length-sort_by (x ∷ xs) = length-insert_sorted x (sort_by row_le xs) ∙ ap suc (length-sort_by xs)

  insert_sorted-Ascending :
      (b : Timestamp) (x : LogRow F) (ys : List (LogRow F))
      → b ≤ x.t
      → Ascending b ys
      → Ascending b (insert_sorted row_le x ys)
  unfolding insert_sorted
  insert_sorted-Ascending b x [] h s = (h, tt)
  insert_sorted-Ascending b x (y ∷ ys) h s = elim (Bool-cases (row_le x y)) [
    | inl e ↦ rw e (h, (leb→le x.t y.t e, s.1))
    | inr e ↦ rw e (s.0, insert_sorted-Ascending y.t x ys (omega (arith, leb-false x.t y.t e)) s.1)
  ]

  sort_by-Ascending : (xs : List (LogRow F)) → Ascending 0 (sort_by row_le xs)
  unfolding sort_by
  sort_by-Ascending [] = tt
  sort_by-Ascending (x ∷ xs) =
      insert_sorted-Ascending 0 x (sort_by row_le xs) (omega arith) (sort_by-Ascending xs)

  Ascending-append :
      (b : Timestamp) (rows : List (LogRow F)) (r : LogRow F)
      → b ≤ r.t
      → All (λ x. x.t ≤ r.t) rows
      → Ascending b rows
      → Ascending b (rows ++ (r ∷ []))
  Ascending-append b [] r h below s = (h, tt)
  Ascending-append b (x ∷ rows) r h below s = (s.0, Ascending-append x.t rows r below.0 below.1 s.1)

  -- The rows of each tier are sorted, and none is later than `t`.
  abbrev IsUpTo : Timestamp → List (ℤ × List (LogRow F)) → Type 0
  IsUpTo t = All (λ e. Ascending 0 e.1 × All (λ x. x.t ≤ t) e.1)

  IsUpTo-later :
      (t u : Timestamp) (tiers : List (ℤ × List (LogRow F)))
      → t ≤ u
      → IsUpTo t tiers
      → IsUpTo u tiers
  IsUpTo-later t u tiers h =
      All-weaken (λ e. Ascending 0 e.1 × All (λ x. x.t ≤ t) e.1) tiers
        (λ e w. (w.0, All-weaken (λ x. x.t ≤ t) e.1 (λ x k. omega (arith, k, h)) w.1))

  tier_push-IsUpTo :
      (s : ℤ) (r : LogRow F) (tiers : List (ℤ × List (LogRow F)))
      → IsUpTo r.t tiers
      → IsUpTo r.t (tier_push s r tiers)
  unfolding tier_push
  tier_push-IsUpTo s r [] w = (((omega arith, tt), (omega arith, tt)), tt)
  tier_push-IsUpTo s r ((u, rows) ∷ tiers) w = elim (Bool-cases (eq_ℤ s u)) [
    | inl e ↦ rw e (
      (
        Ascending-append 0 rows r (omega arith) w.0.1 w.0.0,
        All-append (λ x. x.t ≤ r.t) rows r w.0.1 (omega arith),
      ),
      w.1,
    )
    | inr e ↦ elim (Bool-cases (ltb_ℤ u s)) [
      | inl k ↦ rw (e, k) (((omega arith, tt), (omega arith, tt)), w)
      | inr k ↦ rw (e, k) (w.0, tier_push-IsUpTo s r tiers w.1)
    ]
  ]

module _ {F : Type 0} (to_i64 : F → ℤ) (pch : ChannelId) where
  group_tiers-perm :
      (rows : List (LogRow F)) (tiers : List (ℤ × List (LogRow F)))
      → Perm (flat_rows (group_tiers to_i64 pch rows tiers)) (rows ++ flat_rows tiers)
  unfolding group_tiers
  group_tiers-perm [] tiers = Perm.refl (flat_rows tiers)
  group_tiers-perm (r ∷ rows) tiers =
      let s = score_of to_i64 pch r in
      Perm.trans (group_tiers-perm rows (tier_push s r tiers)) (
        Perm.trans (Perm.append_left rows (tier_push-perm s r tiers))
          (perm_middle rows (flat_rows tiers)))

  group_tiers-IsGrouped :
      (rows : List (LogRow F)) (tiers : List (ℤ × List (LogRow F)))
      → IsGrouped (score_of to_i64 pch) tiers
      → IsGrouped (score_of to_i64 pch) (group_tiers to_i64 pch rows tiers)
  unfolding group_tiers
  group_tiers-IsGrouped [] tiers g = g
  group_tiers-IsGrouped (r ∷ rows) tiers g =
      group_tiers-IsGrouped rows (tier_push (score_of to_i64 pch r) r tiers)
        (tier_push-IsGrouped (score_of to_i64 pch) r tiers g)

  group_tiers-Ascending :
      (rows : List (LogRow F)) (t : Timestamp) (tiers : List (ℤ × List (LogRow F)))
      → Ascending t rows
      → IsUpTo t tiers
      → All (λ e. Ascending 0 e.1) (group_tiers to_i64 pch rows tiers)
  unfolding group_tiers
  group_tiers-Ascending [] t tiers s w =
      All-weaken (λ e. Ascending 0 e.1 × All (λ x. x.t ≤ t) e.1) tiers (λ e v. v.0) w
  group_tiers-Ascending (r ∷ rows) t tiers s w =
      let score = score_of to_i64 pch r in
      group_tiers-Ascending rows r.t (tier_push score r tiers) s.1
        (tier_push-IsUpTo score r tiers (IsUpTo-later t r.t tiers s.0 w))

  abbrev tiers_of : List (LogRow F) → List (ℤ × List (LogRow F))
  tiers_of rows = group_tiers to_i64 pch rows []

  tiers_of-perm : (rows : List (LogRow F)) → Perm (flat_rows (tiers_of rows)) rows
  tiers_of-perm rows =
      subst (Perm (flat_rows (tiers_of rows))) (append-nil rows) (group_tiers-perm rows [])

-- At most `max_rows` rows, sorted by time, all of them rows of the input and none more often than
-- there, with the number of all rows.
abbrev pub IsShown : {F : Type 0} → List (LogRow F) → ℕ → List (LogRow F) × ℕ → Type 0
IsShown rows max_rows (out, total) =
    (length out ≤ max_rows) × Ascending 0 out × Subperm out rows × (total ≡ length rows)

module _ {F : Type 0} (to_i64 : F → ℤ) where
  sampled-IsShown :
      (rows : List (LogRow F)) (max_rows : ℕ)
      → Ascending 0 rows
      → max_rows ≤ u64_max
      → IsShown rows max_rows (sample_even_over_time rows max_rows, length rows)
  sampled-IsShown rows max_rows sorted small =
      let part = sample_even_over_time-Sublistᴰ rows max_rows in
      (
        length-sample_even_over_time rows max_rows 0 small sorted,
        Ascending-sublist part 0 sorted,
        ∣ (sample_even_over_time rows max_rows, Perm.refl _, ∣ part ∣₁) ∣₁,
        refl,
      )

  tiered-IsShown :
      (pch : ChannelId) (rows : List (LogRow F)) (max_rows : ℕ)
      → Ascending 0 rows
      → max_rows ≤ u64_max
      → IsShown rows max_rows
          (sort_by row_le (fill_tiers max_rows [] (tiers_of to_i64 pch rows)), length rows)
  tiered-IsShown pch rows max_rows sorted small =
      let tiers = tiers_of to_i64 pch rows in
      let filled = fill_tiers max_rows [] tiers in
      let ascending = group_tiers-Ascending to_i64 pch rows 0 [] sorted tt in
      let below = length-fill_tiers max_rows [] tiers small (omega arith) ascending in
      let part =
        exists_perm_sublist ∣ fill_tiers-Sublistᴰ max_rows [] tiers ∣₁
          (tiers_of-perm to_i64 pch rows) in
      (
        omega (arith, length-sort_by filled, below),
        sort_by-Ascending filled,
        ∥∥₁_map {B = (l : List (LogRow F)) × Perm l (sort_by row_le filled) × Sublist l rows} part
            (λ w. (w.0, Perm.trans w.1 (Perm.symm (sort_by-perm filled)), w.2)),
        refl,
      )

  -- For rows sorted by time and a `max_rows` that is a `usize`, truncate_rows gives at most `max_rows`
  -- rows; they are sorted by time, they are rows of the input, none more often than there, and the
  -- count that comes with them is the number of all rows.
  pub truncate_rows-IsShown :
      (rows : List (LogRow F)) (priority_by : Option ChannelId) (max_rows : ℕ)
      → Ascending 0 rows
      → max_rows ≤ u64_max
      → IsShown rows max_rows (truncate_rows to_i64 rows priority_by max_rows)
  unfolding truncate_rows
  truncate_rows-IsShown rows none max_rows sorted small =
      elim (Bool-cases (leb (length rows) max_rows)) [
        | inl e ↦
            rw e (leb→le (length rows) max_rows e, sorted, Perm.subperm (Perm.refl rows), refl)
        | inr e ↦ rw e (sampled-IsShown rows max_rows sorted small)
      ]
  truncate_rows-IsShown rows (some pch) max_rows sorted small =
      elim (Bool-cases (leb (length rows) max_rows)) [
        | inl e ↦
            rw e (leb→le (length rows) max_rows e, sorted, Perm.subperm (Perm.refl rows), refl)
        | inr e ↦ rw e (tiered-IsShown pch rows max_rows sorted small)
      ]

  -- With a priority column, a row of a greater score than a row that is shown is shown too.
  pub truncate_rows-priority :
      (rows : List (LogRow F)) (pch : ChannelId) (max_rows : ℕ) (r r' : LogRow F)
      → Mem r (truncate_rows to_i64 rows (some pch) max_rows).0
      → Mem r' rows
      → ltb_ℤ (score_of to_i64 pch r) (score_of to_i64 pch r') ≡ true
      → Mem r' (truncate_rows to_i64 rows (some pch) max_rows).0
  unfolding truncate_rows
  truncate_rows-priority rows pch max_rows r r' kept m' higher =
      let tiers = tiers_of to_i64 pch rows in
      let filled = fill_tiers max_rows [] tiers in
      elim (Bool-cases (leb (length rows) max_rows)) [
        | inl e ↦ rw e m'
        | inr e ↦
            let taken : Mem r filled = (Perm.mem_iff (sort_by-perm filled)).0 (rw e at kept) in
            let grouped : Mem r' (flat_rows tiers) =
              (Perm.mem_iff (tiers_of-perm to_i64 pch rows)).1 m' in
            rw e (
              (Perm.mem_iff (sort_by-perm filled)).1 (
                ∥∥₁_map₂ {C = Memᴰ r' filled} taken grouped (
                  fill_tiers-priority (score_of to_i64 pch) max_rows r r' higher [] tiers
                    (group_tiers-IsGrouped to_i64 pch rows [] tt)
                    (λ x m. absurd (Memᴰ.not-nil m)))))
      ]
