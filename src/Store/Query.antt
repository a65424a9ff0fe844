-- ===== src/Store/Query.antt =====
-- viewer/crates/btelem-store/src/mock.rs: `time_bounds` and the range queries, and `value_bounds`
-- of lib.rs. `partition_point` is the number of leading items that pass: that is the standard
-- library's promise on a list that the test partitions, and samples are pushed in time order.
pub mod Window
pub mod Buckets
use btelem.Prelude.{
  ℕ, zero, suc, ◌+◌, ◌-◌, ◌/◌, ◌≤◌, ◌<◌, Bool, true, false, ◌||◌, List, [], ◌∷◌, ◌++◌, Option, none,
  some, Text, ltb, leb, ◌==◌, if◌then◌else◌, length, get_elem?, drop, take, map, min, max,
}
use btelem.Prelude.Int.{ℤ, pos, negsuc}
use btelem.Float.{Float}
use btelem.Store.Types.{ChannelId, Timestamp, Bucket, StateRun, u64_max}
use btelem.Store.Mock.{Inner}

module _ {ℓ} {A : Type ℓ} where
  unfoldable pub partition_point : (A → Bool) → List A → ℕ
  partition_point p [] = 0
  partition_point p (x ∷ xs) = if p x then suc (partition_point p xs) else 0

  abbrev pub first? : List A → Option A
  first? [] = none
  first? (x ∷ xs) = some x

  abbrev pub last? : List A → Option A
  last? [] = none
  last? (x ∷ []) = some x
  last? (x ∷ y ∷ xs) = last? (y ∷ xs)

  -- `iter().step_by(stride)`: `wait` items are still to be skipped.
  unfoldable pub step_by : ℕ → ℕ → List A → List A
  step_by stride wait [] = []
  step_by stride zero (x ∷ xs) = x ∷ step_by stride (stride - 1) xs
  step_by stride (suc wait) (x ∷ xs) = step_by stride wait xs

  -- The tail of `query_raw` and of `query_text`.
  unfoldable pub thin : List A → ℕ → List A
  unfolding step_by
  thin found max_samples =
      if leb (length found) max_samples
      then found
      else step_by (max ((length found + max_samples - 1) / max_samples) 1) 0 found

-- `samples[lo..hi]` between the partition points of a range of time.
unfoldable pub in_range {ℓ} :
    {A : Type ℓ} → List (Timestamp × A) → Timestamp → Timestamp → List (Timestamp × A)
unfolding partition_point
in_range samples t0 t1 =
    let lo = partition_point (λ s. ltb s.0 t0) samples in
    let hi = partition_point (λ s. ltb s.0 t1) samples in drop lo (take hi samples)

-- One step of the loops of `time_bounds`, on a channel's first and last timestamp.
abbrev pub TimeSpan : Type 0
TimeSpan = Option Timestamp × Option Timestamp

unfoldable pub widen : TimeSpan → Option Timestamp → Option Timestamp → TimeSpan
widen (lo, hi) (some first) (some last) = (
  some (elim lo [ none ↦ first | some m ↦ min m first ]),
  some (elim hi [ none ↦ last | some m ↦ max m last ]),
)
widen bounds _ _ = bounds

-- `Some((min?, max?))`
abbrev pub both_ends : TimeSpan → Option (Timestamp × Timestamp)
both_ends (some lo, some hi) = some (lo, hi)
both_ends _ = none

abbrev pub opt_map {ℓ κ} : {A : Type ℓ} {B : Type κ} → (A → B) → Option A → Option B
opt_map f none = none
opt_map f (some x) = some (f x)

module _ {A : Type 0} (start finish : A → Timestamp) where
  unfoldable pub widen_all : TimeSpan → List (List A) → TimeSpan
  unfolding widen
  widen_all bounds [] = bounds
  widen_all bounds (s ∷ ss) =
      widen_all (widen bounds (opt_map start (first? s)) (opt_map finish (last? s))) ss

module _ {F : Type 0} where
  unfoldable pub time_bounds : Inner F → Option (Timestamp × Timestamp)
  unfolding widen_all
  time_bounds g =
      let b1 =
        widen_all (λ (s : Timestamp × F). s.0) (λ (s : Timestamp × F). s.0) (none, none)
          g.scalars in
      let b2 = widen_all (λ (r : StateRun). r.t_start) (λ (r : StateRun). r.t_end) b1 g.states in
      let b3 =
        widen_all (λ (s : Timestamp × Text). s.0) (λ (s : Timestamp × Text). s.0) b2 g.texts in
      both_ends b3

  unfoldable pub query_raw : Inner F → ChannelId → Timestamp → Timestamp → ℕ → List (Timestamp × F)
  unfolding in_range thin
  query_raw g ch t0 t1 max_samples =
      if max_samples == 0 || leb t1 t0 then [] else elim (get_elem? g.scalars ch) [
        | none ↦ []
        | some samples ↦ thin (in_range samples t0 t1) max_samples
      ]

  unfoldable pub query_text :
      Inner F → ChannelId → Timestamp → Timestamp → ℕ → List (Timestamp × Text)
  unfolding in_range thin
  query_text g ch t0 t1 max_samples =
      if max_samples == 0 || leb t1 t0 then [] else elim (get_elem? g.texts ch) [
        | none ↦ []
        | some samples ↦ thin (in_range samples t0 t1) max_samples
      ]

-- `runs[start..]` as `query_state` returns it: cut at the first run that starts at `t1` or later,
-- with the last run of the channel held to the end of time.
unfoldable pub held_runs : Timestamp → List StateRun → List StateRun
held_runs t1 [] = []
held_runs t1 (r ∷ []) = if ltb r.t_start t1 then record r { t_end = u64_max } ∷ [] else []
held_runs t1 (r ∷ r' ∷ runs) = if ltb r.t_start t1 then r ∷ held_runs t1 (r' ∷ runs) else []

unfoldable pub runs_between : List StateRun → Timestamp → Timestamp → List StateRun
unfolding partition_point held_runs
runs_between runs t0 t1 =
    let last_idx = length runs - 1 in
    let start = partition_point (λ r. leb r.t_end t0) (take last_idx runs) in
    held_runs t1 (drop start runs)

module _ {F : Type 0} where
  unfoldable pub query_state : Inner F → ChannelId → Timestamp → Timestamp → List StateRun
  unfolding runs_between
  query_state g ch t0 t1 = elim (get_elem? g.states ch) [
    | none ↦ []
    | some runs ↦ runs_between runs t0 t1
  ]

abbrev pub eq_ℤ : ℤ → ℤ → Bool
eq_ℤ (pos a) (pos b) = a == b
eq_ℤ (negsuc a) (negsuc b) = a == b
eq_ℤ _ _ = false

abbrev pub is_pos : ℤ → Bool
is_pos (pos n) = true
is_pos (negsuc n) = false

module _ {F : Type 0} (fl : Float F) where
  -- `(((t - t0) as f64) / bw).floor() as i64`
  abbrev pub bucket_index : Timestamp → F → Timestamp → ℤ
  bucket_index t0 bw t = fl.floor (fl.div (fl.of_u64 (t - t0)) bw)

  -- The loop of `query_scalar` over the samples that are left; the result is what it still pushes.
  unfoldable pub down_sample : Timestamp → F → ℤ → Bucket F → List (Timestamp × F) → List (Bucket F)
  down_sample t0 bw cur_idx cur [] = if is_pos cur_idx then cur ∷ [] else []
  down_sample t0 bw cur_idx cur ((t, v) ∷ xs) =
      let idx = bucket_index t0 bw t in
      let fresh = down_sample t0 bw idx (record { t = t; min = v; max = v }) xs in
      let merged =
        down_sample t0 bw cur_idx (record cur { min = fl.fmin cur.min v; max = fl.fmax cur.max v })
          xs in
      if eq_ℤ idx cur_idx then merged else if is_pos cur_idx then cur ∷ fresh else fresh

  unfoldable pub scalar_buckets : List (Timestamp × F) → Timestamp → Timestamp → ℕ → List (Bucket F)
  unfolding down_sample
  scalar_buckets found t0 t1 max_buckets =
      if leb (length found) max_buckets
      then map (λ s. record { t = s.0; min = s.1; max = s.1 }) found
      else down_sample t0 (fl.div (fl.of_u64 (t1 - t0)) (fl.of_u64 max_buckets)) (negsuc 0)
          (record { t = 0; min = fl.infinity; max = fl.neg_infinity }) found

  unfoldable pub query_scalar : Inner F → ChannelId → Timestamp → Timestamp → ℕ → List (Bucket F)
  unfolding in_range scalar_buckets
  query_scalar g ch t0 t1 max_buckets =
      if max_buckets == 0 || leb t1 t0 then [] else elim (get_elem? g.scalars ch) [
        | none ↦ []
        | some samples ↦ scalar_buckets (in_range samples t0 t1) t0 t1 max_buckets
      ]

  -- The fold over the runs in `value_bounds`.
  unfoldable pub run_bounds : ℕ → ℕ → List StateRun → ℕ × ℕ
  run_bounds lo hi [] = (lo, hi)
  run_bounds lo hi (r ∷ runs) = run_bounds (min lo r.value) (max hi r.value) runs

  unfoldable pub value_bounds : Inner F → ChannelId → Option (F × F)
  unfolding time_bounds query_scalar query_state run_bounds
  value_bounds g ch = elim (time_bounds g) [
    | none ↦ none
    | some (t0, t1) ↦
        let end = min (t1 + 1) u64_max in
        elim (query_scalar g ch t0 end 1) [
          | b ∷ bs ↦ some (b.min, b.max)
          | [] ↦ elim (query_state g ch t0 end) [
            | [] ↦ none
            | r ∷ runs ↦
                let (lo, hi) = run_bounds 0xffff_ffff 0 (r ∷ runs) in
                some (fl.of_u64 lo, fl.of_u64 hi)
          ]
        ]
  ]
