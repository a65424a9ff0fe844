-- ===== src/Render/Curves.antt =====
-- viewer/crates/btelem-viewer/src/plot_renderers.rs: the staircase of a signal, and what lies under the
-- pointer. The screen positions that egui_plot computes are parameters.
pub mod Staircase
use btelem.Prelude.{
  ℕ, zero, suc, ◌-◌, Bool, true, false, not, ◌||◌, ◌&&◌, List, [], ◌∷◌, ◌++◌, Option, none, some,
  Text, if◌then◌else◌, min, length, get_elem?,
}
use btelem.Float.{Float}
use btelem.Store.{ChannelId, Timestamp}
use btelem.Store.Query.{partition_point}
use btelem.View.Panels.{SignalStyle}
use btelem.Render.Labels.{Color32}
use btelem.View.Markers.{Marker, Link, MarkerSet, link_pairs}

-- A bucket of a signal: its time, and the least and the greatest value.
pub record Point (F : Type 0) : Type 0 where
  pub t : F
  pub lo : F
  pub hi : F

pub record SignalData (F : Type 0) : Type 0 where
  pub ch : ChannelId
  pub name : Text
  pub colour : Color32
  pub points : List (Point F)
  pub style : SignalStyle
  pub selected : Bool

module _ {F : Type 0} (fl : Float F) (half : F) where
  abbrev pub midpoint : Point F → F
  midpoint p = fl.mul (fl.add p.lo p.hi) half

  -- The loop over the points after the first.
  unfoldable pub steps : F → List (Point F) → List (F × F)
  steps prev_v [] = []
  steps prev_v (p ∷ points) = (p.t, prev_v) ∷ (p.t, midpoint p) ∷ steps (midpoint p) points

  unfoldable pub step_polyline : List (Point F) → List (F × F)
  unfolding steps
  step_polyline [] = []
  step_polyline (p ∷ points) = (p.t, midpoint p) ∷ steps (midpoint p) points

-- The best candidate so far, with its distance: a later one wins only when it is closer.
abbrev pub closer : {F : Type 0} → Float F → Option (ℕ × F) → ℕ → F → Option (ℕ × F)
closer fl none id d = some (id, d)
closer fl (some (best, b)) id d = if fl.lt d b then some (id, d) else some (best, b)

abbrev pub id_of : {F : Type 0} → Option (ℕ × F) → Option ℕ
id_of none = none
id_of (some (id, d)) = some id

module _ {F : Type 0} (fl : Float F) (half : F) (abs : F → F) where
  abbrev pub signal_step : F → F → Option (ℕ × F) → SignalData F → Option (ℕ × F)
  signal_step t y best sig =
      let idx = min (partition_point (λ p. fl.lt p.t t) sig.points) (length sig.points - 1) in
      elim (get_elem? sig.points idx) [
        | none ↦ best
        | some p ↦ closer fl best sig.ch (abs (fl.sub (midpoint fl half p) y))
      ]

  unfoldable pub nearest_from : F → F → Option (ℕ × F) → List (SignalData F) → Option (ℕ × F)
  unfolding partition_point
  nearest_from t y best [] = best
  nearest_from t y best (sig ∷ signals) = nearest_from t y (signal_step t y best sig) signals

  unfoldable pub nearest_signal : List (SignalData F) → F → F → Option ChannelId
  unfolding nearest_from
  nearest_signal signals t y = id_of (nearest_from t y none signals)

-- Over the screen's coordinates, which are `f32` and not NaN.
module _ {F : Type 0} (fl : Float F) (abs : F → F) (x_of : Timestamp → F) where
  -- The loop of `hit_marker`; `reach` is 8 pixels.
  unfoldable pub hit_markers_from : F → F → Option (ℕ × F) → List Marker → Option (ℕ × F)
  hit_markers_from reach pointer_x best [] = best
  hit_markers_from reach pointer_x best (m ∷ ms) =
      let dx = abs (fl.sub (x_of m.t_ns) pointer_x) in
      let next = if fl.lt reach dx then best else closer fl best m.id dx in
      hit_markers_from reach pointer_x next ms

  module _ {G : Type 0} where
    unfoldable pub hit_marker : F → MarkerSet G → F → Option ℕ
    unfolding hit_markers_from
    hit_marker reach markers pointer_x =
        id_of (hit_markers_from reach pointer_x none markers.markers)

-- The loop of `hit_delta_line`: `threshold` is 6 pixels, and `as_f64` reads the height of a link.
module _ {F G : Type 0} (fl : Float F) (abs : F → F) (as_f64 : G → F) (x_of : Timestamp → F)
    (y_of : F → F) where
  abbrev pub link_step :
      F → F × F → F × F → Option (ℕ × F) → Marker × Marker × Link G → Option (ℕ × F)
  link_step threshold (x, y) (ylo, yhi) best (a, b, link) =
      let xa = x_of a.t_ns in
      let xb = x_of b.t_ns in
      let xmin = if fl.lt xa xb then xa else xb in
      let xmax = if fl.lt xa xb then xb else xa in
      let y_plot = fl.add ylo (fl.mul (as_f64 link.y_frac) (fl.sub yhi ylo)) in
      let dy = abs (fl.sub (y_of y_plot) y) in
      if fl.lt x (fl.sub xmin threshold) || fl.lt (fl.add xmax threshold) x
      then best
      else if fl.lt threshold dy
      then best
      else closer fl best link.id dy

  unfoldable pub hit_links_from :
      F → F × F → F × F → Option (ℕ × F) → List (Marker × Marker × Link G) → Option (ℕ × F)
  hit_links_from threshold pointer ys best [] = best
  hit_links_from threshold pointer ys best (p ∷ ps) =
      hit_links_from threshold pointer ys (link_step threshold pointer ys best p) ps

  unfoldable pub hit_delta_line : F → MarkerSet G → F × F → F × F → Option ℕ
  unfolding link_pairs hit_links_from
  hit_delta_line threshold markers pointer ys =
      id_of (hit_links_from threshold pointer ys none (link_pairs markers))
