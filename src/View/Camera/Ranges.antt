-- ===== src/View/Camera/Ranges.antt =====
-- viewer/crates/btelem-viewer/src/view_state.rs: the range that `compute_view` gives.
use btelem.Prelude.{ℕ, ◌-◌, ◌≤◌, ◌<◌, ◌≡◌, refl, Option, none, some, arith, min, max}
use btelem.Float.{Float}
use btelem.Store.{u64_max}
use btelem.View.Camera.{TimeBase, follow, pan, Camera, next, nanoseconds, free_view, compute_view}

-- The lower bound of a panned camera lies below the last instant of `u64`.
abbrev pub BelowEnd : {F : Type 0} → Float F → Option (F × F) → Type 0
BelowEnd fl none = Unit {0}
BelowEnd fl (some (a, b)) = nanoseconds fl a < u64_max

module _ {F : Type 0} (fl : Float F) where
  range_next : (lo hi : ℕ) → lo < u64_max → min lo hi < max hi (next fl lo)
  range_next lo hi l = ground arith

  range_from : (lo hi : ℕ) → lo < u64_max → lo < max hi (next fl lo)
  range_from lo hi l = ground arith

  -- With data, and the lower bound of the camera where it has one, before the last instant of
  -- `u64`, the range that is shown is not empty: when following and when panning, and for bounds
  -- in either order.
  pub compute_view-lt :
      (cam : Camera F) (earliest latest : ℕ)
      → earliest ≤ latest
      → latest < u64_max
      → BelowEnd fl cam.free_bounds_s
      → (v : ℕ × ℕ) × (compute_view fl cam (some (earliest, latest)) ≡ some v) × (v.0 < v.1)
  unfolding compute_view
  compute_view-lt cam earliest latest o h below =
      (_, refl, of_mode cam.mode cam.free_bounds_s below)
    where
      shown : TimeBase → Option (F × F) → ℕ × ℕ
      shown m b = elim m [
        | follow ↦ (latest - cam.window_ns, max latest (next fl (latest - cam.window_ns)))
        | pan ↦ free_view fl b earliest latest
      ]

      of_mode : (m : TimeBase) (b : Option (F × F)) → BelowEnd fl b → (shown m b).0 < (shown m b).1
      of_mode follow b w = range_from (latest - cam.window_ns) latest (omega (arith, h))
      of_mode pan none w = range_from earliest latest (omega (arith, h, o))
      of_mode pan (some (a, b)) w = range_next (nanoseconds fl a) (nanoseconds fl b) w
