-- ===== src/View/Layout/Restored/Tabs.antt =====
-- viewer/crates/btelem-viewer/src/layout.rs: the tabs of the dock that `build_dock` makes of a saved one.
use btelem.Prelude.{
  ℕ, ◌<◌, ◌≤◌, ◌≡◌, ◌≢◌, refl, ◌∙◌, ap, false, not, List, [], ◌∷◌, Option, some, map, ◌==◌, arith,
  filter_map, filter_map-some, All, retain, zero-add,
}
use btelem.Store.{u64_max}
use btelem.View.Registry.{PlotId}
use btelem.View.Layout.Dock.{DockLib, IsDockLib}
use btelem.View.Layout.Resolve.{range_from}
use btelem.View.Layout.Apply.{new_id, build_dock, unless_empty}
use btelem.View.Layout.Restored.Built.{new_id-range_from}

-- The tabs of the restored dock, when each saved tab has its plot.
pub slots_kept :
    (n : ℕ) (tabs : List ℕ) (f : ℕ → ℕ)
    → All (λ pid. f pid < n) tabs
    → n ≤ u64_max
    → filter_map
        (new_id (map some (range_from 0 n)))
        (retain (λ i. not (i == u64_max)) (map f tabs))
      ≡ map f tabs
slots_kept n [] f h l = refl
slots_kept n (pid ∷ tabs) f h l =
    let kept : (f pid == u64_max) ≡ false = ground (arith, h.0, l) in
    let id : new_id (map some (range_from 0 n)) (f pid) ≡ some (f pid) =
      new_id-range_from 0 n (f pid) h.0 ∙ ap some (zero-add (f pid)) in
    rw kept (
      filter_map-some (new_id (map some (range_from 0 n))) (f pid)
        (retain (λ i. not (i == u64_max)) (map f tabs)) id
      ∙ ap (◌∷◌ (f pid)) (slots_kept n tabs f h.1 l))

module _ {D J : Type 0} (lib : DockLib D J) (laws : IsDockLib lib) where
  tabs-unless_empty :
      (new_ids : List (Option PlotId)) (mapped : D) (tabs : List PlotId)
      → lib.iter_all_tabs mapped ≡ tabs
      → tabs ≢ []
      → lib.iter_all_tabs (unless_empty lib new_ids mapped tabs) ≡ tabs
  tabs-unless_empty new_ids mapped [] e h = absurd (h refl)
  tabs-unless_empty new_ids mapped (tab ∷ tabs) e h = e

  pub tabs-build_dock :
      (new_ids : List (Option PlotId)) (dock : D)
      → filter_map (new_id new_ids) (lib.iter_all_tabs dock) ≢ []
      → lib.iter_all_tabs (build_dock lib (lib.to_value dock) new_ids)
        ≡ filter_map (new_id new_ids) (lib.iter_all_tabs dock)
  unfolding build_dock
  tabs-build_dock new_ids dock h =
      rw (laws.from_value-to_value dock, build_dock)
        (let mapped = lib.filter_map_tabs (new_id new_ids) dock in
          let e = laws.tabs-filter_map_tabs (new_id new_ids) dock in
          ap (λ ts. lib.iter_all_tabs (unless_empty lib new_ids mapped ts)) e
          ∙ tabs-unless_empty new_ids mapped (filter_map (new_id new_ids) (lib.iter_all_tabs dock))
              e h)
