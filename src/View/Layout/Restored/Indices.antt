-- ===== src/View/Layout/Restored/Indices.antt =====
-- viewer/crates/btelem-viewer/src/layout.rs: which index `capture` gives to a plot.
use btelem.View.Layout.Restored.Order.{
  Distinct-set_extend, set_has-set_extend, All-set_extend, All-of_has, map_get-key, key-of_get,
  position-member,
}
use btelem.Prelude.{
  ℕ, suc, ◌+◌, ◌<◌, ◌≡◌, refl, ◌∙◌, sym, true, false, List, [], ◌∷◌, ◌++◌, Option, none, some, map,
  ◌==◌, arith, set_has, set_extend, Distinct, append_assoc, append-nil, length, map_get, map_insert,
  map_get-map_insert, filter_map, All, Bool-cases, inl, inr, Option-cases,
}
use btelem.Store.{u64_max}
use btelem.View.Registry.{PlotKind, PlotId, PlotRegistry, get, iter_ids}
use btelem.View.Layout.{PlotSpec}
use btelem.View.Layout.Dock.{DockLib}
use btelem.View.Layout.Capture.{ById, spec_from_kind, capture_specs, capture_order}
use btelem.View.Layout.Resolve.{position}

abbrev pub IsRegistered : {F : Type 0} → PlotRegistry F → PlotId → Type 0
IsRegistered {F} plots pid = (kind : PlotKind F) × (get plots pid ≡ some kind)

position-absent : (xs : List ℕ) (x : ℕ) → set_has xs x ≡ false → position xs x ≡ none
position-absent [] x h = refl
position-absent (y ∷ xs) x h = ground (arith, position-absent xs x)

abbrev pub shifted : ℕ → Option ℕ → Option ℕ → Option ℕ
shifted i none old = old
shifted i (some k) old = some (i + k)

shifted-next :
    (i p : ℕ) (order : List PlotId) (pid : PlotId) (idx : List (PlotId × ℕ))
    → set_has order p ≡ false
    → shifted (suc i) (position order pid) (map_get pid (map_insert p i idx))
      ≡ shifted i (position (p ∷ order) pid) (map_get pid idx)
shifted-next i p order pid idx h = elim (Bool-cases (p == pid)) [
  | inl e ↦
      let same : p ≡ pid = ground (arith, e) in
      let absent : position order pid ≡ none = position-absent order pid (rw same at h) in
      rw (absent, map_get-map_insert p pid i idx, e) (ground arith)
  | inr e ↦ elim (Option-cases (position order pid)) [
    | inl n ↦ rw (n, map_get-map_insert p pid i idx, e) refl
    | inr (k, n) ↦ rw (n, e) (ground arith)
  ]
]

module _ {F : Type 0} (plots : PlotRegistry F) (by_id : ById) where
  pub capture_specs-map :
      (i : ℕ) (order : List PlotId) (idx : List (PlotId × ℕ)) (specs : List (PlotSpec F))
      → (capture_specs plots by_id i order idx specs).1
        ≡ specs ++ map (spec_from_kind by_id) (filter_map (get plots) order)
  unfolding capture_specs
  capture_specs-map i [] idx specs = sym (append-nil specs)
  capture_specs-map i (pid ∷ order) idx specs = elim (Option-cases (get plots pid)) [
    | inl e ↦ rw (e, capture_specs, filter_map) (capture_specs-map (suc i) order idx specs)
    | inr (kind, e) ↦
        rw (e, capture_specs, filter_map)
          (capture_specs-map (suc i) order (map_insert pid i idx)
              (specs ++ (spec_from_kind by_id kind ∷ []))
            ∙ append_assoc specs (spec_from_kind by_id kind ∷ [])
                (map (spec_from_kind by_id) (filter_map (get plots) order)))
  ]

  pub capture_specs-index :
      (i : ℕ) (order : List PlotId) (idx : List (PlotId × ℕ)) (specs : List (PlotSpec F))
      (pid : PlotId)
      → All (IsRegistered plots) order
      → Distinct order
      → map_get pid (capture_specs plots by_id i order idx specs).0
        ≡ shifted i (position order pid) (map_get pid idx)
  unfolding capture_specs
  capture_specs-index i [] idx specs pid reg d = refl
  capture_specs-index i (p ∷ order) idx specs pid reg d =
      let (kind, e) = reg.0 in
      let rest =
        capture_specs-index (suc i) order (map_insert p i idx)
          (specs ++ (spec_from_kind by_id kind ∷ [])) pid reg.1 d.1 in
      rw (e, capture_specs) (rest ∙ shifted-next i p order pid idx d.0)

-- The place of a plot among the saved ones.
abbrev pub slot : List PlotId → PlotId → ℕ
slot order pid = elim (position order pid) [ none ↦ u64_max | some k ↦ k ]

pub slot-member :
    (order : List PlotId) (pid : PlotId) → set_has order pid ≡ true → slot order pid < length order
slot-member order pid h = let (k, p, l) = position-member order pid h in rw (p, slot) l

module _ {F J D : Type 0} (lib : DockLib D J) (plots : PlotRegistry F) (dock : D)
    (tabs : All (IsRegistered plots) (lib.iter_all_tabs dock)) where
  pub order-Distinct : Distinct (capture_order lib plots dock)
  unfolding capture_order
  order-Distinct =
      Distinct-set_extend (set_extend [] (lib.iter_all_tabs dock)) (iter_ids plots)
        (Distinct-set_extend [] (lib.iter_all_tabs dock) tt)

  pub order-IsRegistered : All (IsRegistered plots) (capture_order lib plots dock)
  unfolding capture_order iter_ids get
  order-IsRegistered =
      All-set_extend (IsRegistered plots) (set_extend [] (lib.iter_all_tabs dock)) (iter_ids plots)
        (All-set_extend (IsRegistered plots) [] (lib.iter_all_tabs dock) tt tabs)
        (All-of_has (IsRegistered plots) (iter_ids plots) (λ pid h. map_get-key plots.plots pid h))

  pub order-tab :
      (pid : PlotId)
      → set_has (lib.iter_all_tabs dock) pid ≡ true
      → set_has (capture_order lib plots dock) pid ≡ true
  unfolding capture_order
  order-tab pid h =
      rw
        (
          set_has-set_extend (set_extend [] (lib.iter_all_tabs dock)) (iter_ids plots) pid,
          set_has-set_extend [] (lib.iter_all_tabs dock) pid,
          h,
        )
        refl

  pub order-plot :
      (pid : PlotId) {kind : PlotKind F}
      → get plots pid ≡ some kind
      → set_has (capture_order lib plots dock) pid ≡ true
  unfolding capture_order iter_ids get
  order-plot pid e =
      rw
        (
          set_has-set_extend (set_extend [] (lib.iter_all_tabs dock)) (iter_ids plots) pid,
          key-of_get plots.plots pid e,
        )
        (ground arith)

  pub slots-lt-length :
      (pids : List PlotId)
      → ((pid : PlotId)
          → set_has pids pid ≡ true
          → set_has (capture_order lib plots dock) pid ≡ true)
      → All
          (λ pid. slot (capture_order lib plots dock) pid < length (capture_order lib plots dock))
          pids
  slots-lt-length pids sub =
      All-of_has
        (λ pid. slot (capture_order lib plots dock) pid < length (capture_order lib plots dock))
        pids (λ pid h. slot-member (capture_order lib plots dock) pid (sub pid h))
