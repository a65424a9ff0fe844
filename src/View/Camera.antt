-- ===== src/View/Camera.antt =====
-- viewer/crates/btelem-viewer/src/view_state.rs: `TimeBase`, `Camera`, `compute_view` and the rate
-- estimator. A literal such as 1e-6 is the quotient of two whole numbers, which `f64` rounds once,
-- as the literal is.
pub mod Ranges
use btelem.Prelude.{
  ℕ, zero, suc, ◌+◌, ◌-◌, ◌^◌, Bool, true, false, List, [], ◌∷◌, ◌++◌, Option, none, some, ltb,
  ◌==◌, if◌then◌else◌, min, max, length,
}
use btelem.Float.{Float}
use btelem.Store.{u64_max}

pub data TimeBase : Type 0 where
  follow pan : TimeBase

unfoldable pub toggle : TimeBase → TimeBase
toggle follow = pan
toggle pan = follow

pub record Camera (F : Type 0) : Type 0 where
  pub mode : TimeBase
  pub window_ns : ℕ
  pub free_bounds_s : Option (F × F)

abbrev pub default_camera : {F : Type 0} → Camera F
default_camera = record { mode = follow; window_ns = 10_000_000_000; free_bounds_s = none }

abbrev pub or_else : {A : Type 0} → Option A → A → A
or_else none d = d
or_else (some x) d = x

module _ {F : Type 0} (fl : Float F) where
  abbrev ratio : ℕ → ℕ → F
  ratio a b = fl.div (fl.of_u64 a) (fl.of_u64 b)

  -- `1e-6` and `0.5`
  abbrev pub min_span_s : F
  min_span_s = ratio 1 1_000_000

  abbrev pub half : F
  half = ratio 1 2

  -- `t as f64 / 1e9`
  abbrev pub seconds : ℕ → F
  seconds t = ratio t 1_000_000_000

  unfoldable pub pan_x : Camera F → F → F × F → Camera F
  pan_x cam delta_s fallback_bounds =
      let (lo, hi) = or_else cam.free_bounds_s fallback_bounds in
      record cam { mode = pan; free_bounds_s = some (fl.add lo delta_s, fl.add hi delta_s) }

  -- The new bounds of `zoom_x`, with the span kept above the minimum.
  abbrev pub clamp_span : F → F → F × F
  clamp_span new_lo new_hi =
      let mid = fl.mul (fl.add new_lo new_hi) half in
      if fl.lt (fl.sub new_hi new_lo) min_span_s
      then (fl.sub mid (fl.mul min_span_s half), fl.add mid (fl.mul min_span_s half))
      else (new_lo, new_hi)

  unfoldable pub zoom_x : Camera F → F → F → F × F → Camera F
  zoom_x cam factor pivot_s fallback_bounds =
      let (lo, hi) = or_else cam.free_bounds_s fallback_bounds in
      let new_lo = fl.add pivot_s (fl.mul (fl.sub lo pivot_s) factor) in
      let new_hi = fl.add pivot_s (fl.mul (fl.sub hi pivot_s) factor) in
      record cam { mode = pan; free_bounds_s = some (clamp_span new_lo new_hi) }

  unfoldable pub zoom_in_at : Camera F → F → F → F × F → Camera F
  unfolding zoom_x
  zoom_in_at = zoom_x

  unfoldable pub reset : Camera F → Camera F
  reset cam = record cam { mode = follow; free_bounds_s = none }

  unfoldable pub view_all : Camera F → Option (ℕ × ℕ) → Camera F
  view_all cam none = cam
  view_all cam (some (lo, hi)) =
      let s_lo = seconds lo in
      record cam {
        mode = pan;
        free_bounds_s = some (s_lo, fl.fmax (seconds hi) (fl.add s_lo (ratio 1 1_000_000_000)));
      }

  unfoldable pub jump_to : Camera F → ℕ → F × F → Camera F
  jump_to cam t_ns fallback_bounds =
      let (lo, hi) = or_else cam.free_bounds_s fallback_bounds in
      let h = fl.fmax (fl.mul (fl.sub hi lo) half) (ratio 1 1000) in
      let centre = seconds t_ns in
      record cam { mode = pan; free_bounds_s = some (fl.sub centre h, fl.add centre h) }

  -- `x.clamp(lo, hi)`
  abbrev pub clamp : F → F → F → F
  clamp x lo hi = if fl.lt x lo then lo else if fl.lt hi x then hi else x

  unfoldable pub zoom_window : Camera F → F → Option ℕ → Camera F
  zoom_window cam factor max_ns =
      let abs_max = fl.of_u64 3_600_000_000_000 in
      let floor = fl.of_u64 1_000_000 in
      let upper : F = elim max_ns [ none ↦ abs_max | some m ↦ clamp (fl.of_u64 m) floor abs_max ] in
      let new = fl.to_u64 (clamp (fl.mul (fl.of_u64 cam.window_ns) factor) floor upper) in
      record cam { window_ns = max new 1 }

  -- `(a.max(0.0) * 1e9) as u64`
  abbrev pub nanoseconds : F → ℕ
  nanoseconds a = fl.to_u64 (fl.mul (fl.fmax a (fl.of_u64 0)) (fl.of_u64 1_000_000_000))

  -- `+ 1` on `u64` wraps.
  abbrev pub next : ℕ → ℕ
  next t = if t == u64_max then 0 else t + 1

  abbrev pub free_view : Option (F × F) → ℕ → ℕ → ℕ × ℕ
  free_view none earliest latest = (earliest, max latest (next earliest))
  free_view (some (a, b)) earliest latest =
      let lo = nanoseconds a in let hi = nanoseconds b in (min lo hi, max hi (next lo))

  unfoldable pub compute_view : Camera F → Option (ℕ × ℕ) → Option (ℕ × ℕ)
  compute_view cam none = none
  compute_view cam (some (earliest, latest)) = some (elim cam.mode [
    | follow ↦ let left = latest - cam.window_ns in (left, max latest (next left))
    | pan ↦ free_view cam.free_bounds_s earliest latest
  ])

-- `RateEstimator`: instants and the width of the window are in nanoseconds; `secs` is
-- `duration_since(..).as_secs_f64()` of a number of them.
pub record RateEstimator : Type 0 where
  pub window : List (ℕ × ℕ)
  pub window_ns : ℕ

-- The loop of `push` that drops what has left the window.
unfoldable pub expire : ℕ → ℕ → List (ℕ × ℕ) → List (ℕ × ℕ)
expire now window_ns [] = []
expire now window_ns ((t, c) ∷ es) =
    let rest = expire now window_ns es in if ltb window_ns (now - t) then rest else (t, c) ∷ es

unfoldable pub push_rate : RateEstimator → ℕ → ℕ → RateEstimator
unfolding expire
push_rate r now count = record r {
  window = expire now r.window_ns (r.window ++ ((now, count) ∷ []));
}
