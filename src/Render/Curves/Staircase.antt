-- ===== src/Render/Curves/Staircase.antt =====
-- viewer/crates/btelem-viewer/src/plot_renderers.rs: the vertices of `step_polyline`.
use btelem.Prelude.{
  ℕ, zero, suc, ◌+◌, ◌*◌, ◌≡◌, refl, List, [], ◌∷◌, Option, none, some, get_elem?, arith,
}
use btelem.Float.{Float}
use btelem.Store.Query.{opt_map}
use btelem.Render.Curves.{Point, midpoint, step_polyline}

module _ {F : Type 0} (fl : Float F) (half : F) where
  abbrev pub vertex : Point F → F × F
  vertex p = (p.t, midpoint fl half p)

  -- The corner between two points: the time of the later one at the value of the earlier one.
  abbrev pub corner : Option (Point F) → Option (Point F) → Option (F × F)
  corner (some p) (some q) = some (q.t, midpoint fl half p)
  corner _ _ = none

  -- The vertices of the staircase in even places are the points at the middle of their values, and each
  -- vertex between two of them has the time of the second at the value of the first; there are no
  -- others.
  pub step_polyline-vertices :
      (ps : List (Point F)) (i : ℕ)
      → (get_elem? (step_polyline fl half ps) (i * 2) ≡ opt_map vertex (get_elem? ps i))
        × (get_elem? (step_polyline fl half ps) (i * 2 + 1)
            ≡ corner (get_elem? ps i) (get_elem? ps (suc i)))
  unfolding step_polyline
  step_polyline-vertices [] i = (refl, refl)
  step_polyline-vertices (p ∷ []) zero = (refl, refl)
  step_polyline-vertices (p ∷ q ∷ ps) zero = (refl, refl)
  step_polyline-vertices (p ∷ []) (suc i) =
      let even : suc i * 2 ≡ suc (i * 2 + 1) = omega arith in
      let odd : suc i * 2 + 1 ≡ suc (i * 2 + 2) = omega arith in (rw even refl, rw odd refl)
  step_polyline-vertices (p ∷ q ∷ ps) (suc i) =
      let even : suc i * 2 ≡ suc (suc (i * 2)) = omega arith in
      let odd : suc i * 2 + 1 ≡ suc (suc (i * 2 + 1)) = omega arith in
      let rest = step_polyline-vertices (q ∷ ps) i in (rw even rest.0, rw odd rest.1)
