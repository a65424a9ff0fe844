-- ===== src/Store/Sample.antt =====
-- viewer/crates/btelem-store/src/mock.rs: `sample_at`. `binary_search_by_key` finds the first of
-- the samples at `t`; the standard library promises any one of them.
pub mod Runs
pub mod Channel
use btelem.Prelude.{
  ℕ, zero, suc, ◌+◌, ◌-◌, Bool, List, [], ◌∷◌, Option, none, some, ltb, leb, ◌==◌, if◌then◌else◌,
  length, get_elem?, get_or, ok, err, Result,
}
use btelem.Float.{Float}
use btelem.Store.Types.{ChannelId, Timestamp, StateRun, u64_max, scalar, state, text}
use btelem.Store.Mock.{Inner}
use btelem.Store.Query.{partition_point, opt_map}

-- `Ok(i)` with an item at `t`, or `Err(i)` with the place where one would stand.
unfoldable pub search_time {ℓ} : {A : Type ℓ} → List (Timestamp × A) → Timestamp → Result ℕ ℕ
unfolding partition_point
search_time s t =
    let i = partition_point (λ e. ltb e.0 t) s in
    elim (get_elem? s i) [ none ↦ err i | some e ↦ if e.0 == t then ok i else err i ]

-- The run that holds at `t`: the last one that starts at or before `t`, if `t` is before its end.
unfoldable pub run_at : List StateRun → Timestamp → Option ℕ
unfolding partition_point
run_at runs t =
    let last_idx = length runs - 1 in
    elim (partition_point (λ r. leb r.t_start t) runs) [
      | zero ↦ none
      | suc i ↦ elim (get_elem? runs i) [
        | none ↦ none
        | some r ↦
            let effective_end = if i == last_idx then u64_max else r.t_end in
            if ltb t effective_end then some r.value else none
      ]
    ]

module _ {F : Type 0} (fl : Float F) where
  -- Between the samples `i - 1` and `i`.
  unfoldable pub interpolate : List (Timestamp × F) → Timestamp → ℕ → Option F
  interpolate s t zero = none
  interpolate s t (suc j) = elim (get_elem? s j) [
    | none ↦ none
    | some (t_a, v_a) ↦ elim (get_elem? s (suc j)) [
      | none ↦ none
      | some (t_b, v_b) ↦
          let frac = fl.div (fl.of_u64 (t - t_a)) (fl.of_u64 (t_b - t_a)) in
          some (fl.add v_a (fl.mul frac (fl.sub v_b v_a)))
    ]
  ]

  unfoldable pub scalar_at : List (Timestamp × F) → Timestamp → Option F
  unfolding search_time interpolate
  scalar_at s t = elim (search_time s t) [
    | ok i ↦ elim (get_elem? s i) [ none ↦ none | some e ↦ some e.1 ]
    | err i ↦ if i == length s then none else interpolate s t i
  ]

  unfoldable pub sample_at : Inner F → ChannelId → Timestamp → Option F
  unfolding scalar_at run_at
  sample_at g ch t = elim (get_elem? g.channels ch) [
    | none ↦ none
    | some info ↦ elim info.kind [
      | scalar ↦ scalar_at (get_or g.scalars ch []) t
      | state labels ↦ opt_map fl.of_u64 (run_at (get_or g.states ch []) t)
      | text ↦ none
    ]
  ]
