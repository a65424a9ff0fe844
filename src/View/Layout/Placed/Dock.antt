-- ===== src/View/Layout/Placed/Dock.antt =====
-- viewer/crates/btelem-viewer/src/layout.rs: the tabs of the dock that `apply` returns.
use btelem.Prelude.{
  ℕ, ◌<◌, ◌≡◌, refl, ◌∙◌, ap, sym, ◌⊎◌, inl, inr, true, ◌||◌, List, [], ◌∷◌, ◌++◌, Option, none,
  some, ◌==◌, arith, set_has, set_has-append, filter_map, All, Bool-cases, Option-cases, zero, suc,
  some-injective, if◌then◌else◌,
}
use btelem.Store.{ChannelInfo}
use btelem.View.Registry.{PlotId, PlotKind, PlotRegistry, get}
use btelem.View.Layout.{Layout}
use btelem.View.Layout.Dock.{DockLib, IsDockLib, concat}
use btelem.View.Layout.Resolve.{index_paths}
use btelem.View.Layout.Apply.{
  Applying, nothing_applied, apply_specs, new_id, surviving, or_sentinel, dock_fallback,
  unless_empty, build_dock, push_beside, insert_next_to, place_companions, apply,
}
use btelem.View.Layout.Restored.Order.{map_get-key}
use btelem.View.Layout.Placed.Specs.{IsNumbered, apply_specs-IsNumbered, nothing_applied-IsNumbered}

-- A tab that `n` plots allow: one of the ids below `n`, or the sentinel if there is no plot.
abbrev Allowed : ℕ → PlotId → Type 0
Allowed n t = (t < n) ⊎ ((n ≡ 0) × (t ≡ 0))

surviving-new_id :
    (n i : ℕ) (ids : List (Option PlotId)) {t : PlotId}
    → All (λ t. t < n) (surviving ids)
    → new_id ids i ≡ some t
    → t < n
surviving-new_id n i [] h e = absurd (cc e)
surviving-new_id n zero (none ∷ ids) h e = absurd (cc e)
surviving-new_id n zero (some t ∷ ids) h e = rw (some-injective e) at h.0
surviving-new_id n (suc i) (none ∷ ids) h e = surviving-new_id n i ids h e
surviving-new_id n (suc i) (some s ∷ ids) h e = surviving-new_id n i ids h.1 e

mapped_lt :
    (n : ℕ) (ids : List (Option PlotId)) (tabs : List ℕ) (t : PlotId)
    → All (λ t. t < n) (surviving ids)
    → set_has (filter_map (new_id ids) tabs) t ≡ true
    → t < n
mapped_lt n ids [] t h e = absurd (cc e)
mapped_lt n ids (i ∷ tabs) t h e = elim (Option-cases (new_id ids i)) [
  | inl k ↦ mapped_lt n ids tabs t h (rw (k, filter_map) at e)
  | inr (s, k) ↦
      let e' : (s == t || set_has (filter_map (new_id ids) tabs) t) ≡ true =
        rw (k, filter_map) at e in
      elim (Bool-cases (s == t)) [
        | inl q ↦ let same : s ≡ t = ground (arith, q) in rw same at (surviving-new_id n i ids h k)
        | inr q ↦ mapped_lt n ids tabs t h (ground (arith, e', q))
      ]
]

has_lt : (n : ℕ) (xs : List ℕ) (t : ℕ) → All (λ t. t < n) xs → set_has xs t ≡ true → t < n
has_lt n [] t h e = absurd (cc e)
has_lt n (x ∷ xs) t h e = ground (arith, has_lt n xs t h.1, h.0, e)

or_sentinel-Allowed :
    (n : ℕ) (ids : List PlotId) (t : PlotId)
    → All (λ t. t < n) ids
    → (ids ≡ [] → n ≡ 0)
    → set_has (or_sentinel ids) t ≡ true
    → Allowed n t
or_sentinel-Allowed n [] t h z e = inr (z refl, ground (arith, e))
or_sentinel-Allowed n (id ∷ ids) t h z e = inl (has_lt n (id ∷ ids) t h e)

set_has-concat_beside :
    (anchor extra : PlotId) (leaves leaves' : List (List PlotId)) (t : PlotId)
    → push_beside anchor extra leaves ≡ some leaves'
    → set_has (concat leaves') t ≡ (set_has (concat leaves) t || extra == t)
unfolding push_beside
set_has-concat_beside anchor extra [] leaves' t e = absurd (cc e)
set_has-concat_beside anchor extra (tabs ∷ leaves) leaves' t e =
    elim (Bool-cases (set_has tabs anchor)) [
      | inl k ↦
          let made : (tabs ++ (extra ∷ [])) ∷ leaves ≡ leaves' =
            some-injective (rw (k, push_beside) at e) in
          rw
            (
              ← made,
              set_has-append (tabs ++ (extra ∷ [])) (concat leaves) t,
              set_has-append tabs (extra ∷ []) t,
              set_has-append tabs (concat leaves) t,
            )
            (ground arith)
      | inr k ↦ elim (Option-cases (push_beside anchor extra leaves)) [
        | inl q ↦
            let step = rw (k, push_beside) at e in
            let bad : ◌≡◌ {A = Option (List (List PlotId))} none (some leaves') = rw q at step in
            absurd (cc bad)
        | inr (rest, q) ↦
            let step = rw (k, push_beside) at e in
            let made : tabs ∷ rest ≡ leaves' = some-injective (rw q at step) in
            rw
              (
                ← made,
                set_has-append tabs (concat rest) t,
                set_has-append tabs (concat leaves) t,
                set_has-concat_beside anchor extra leaves rest t q,
              )
              (ground arith)
      ]
    ]

module _ {D J : Type 0} (lib : DockLib D J) (laws : IsDockLib lib) where
  dock_fallback-Allowed :
      (n : ℕ) (ids : List (Option PlotId)) (t : PlotId)
      → All (λ t. t < n) (surviving ids)
      → (surviving ids ≡ [] → n ≡ 0)
      → set_has (lib.iter_all_tabs (dock_fallback lib ids)) t ≡ true
      → Allowed n t
  dock_fallback-Allowed n ids t h z e =
      or_sentinel-Allowed n (surviving ids) t h z
        (ap (λ xs. set_has xs t) (sym (laws.tabs-fresh (or_sentinel (surviving ids)))) ∙ e)

  unless_empty-Allowed :
      (n : ℕ) (ids : List (Option PlotId)) (mapped : D) (tabs : List PlotId) (t : PlotId)
      → All (λ t. t < n) (surviving ids)
      → (surviving ids ≡ [] → n ≡ 0)
      → (set_has (lib.iter_all_tabs mapped) t ≡ true → t < n)
      → set_has (lib.iter_all_tabs (unless_empty lib ids mapped tabs)) t ≡ true
      → Allowed n t
  unless_empty-Allowed n ids mapped [] t h z m e = dock_fallback-Allowed n ids t h z e
  unless_empty-Allowed n ids mapped (tab ∷ tabs) t h z m e = inl (m e)

  build_dock-Allowed :
      (n : ℕ) (value : J) (ids : List (Option PlotId)) (t : PlotId)
      → All (λ t. t < n) (surviving ids)
      → (surviving ids ≡ [] → n ≡ 0)
      → set_has (lib.iter_all_tabs (build_dock lib value ids)) t ≡ true
      → Allowed n t
  unfolding build_dock
  build_dock-Allowed n value ids t h z e = elim (Option-cases (lib.from_value value)) [
    | inl q ↦ dock_fallback-Allowed n ids t h z (rw (q, build_dock) at e)
    | inr (dock, q) ↦
        let mapped = lib.filter_map_tabs (new_id ids) dock in
        unless_empty-Allowed n ids mapped (lib.iter_all_tabs mapped) t h z
          (λ k.
            mapped_lt n ids (lib.iter_all_tabs dock) t h
              (ap (λ xs. set_has xs t) (sym (laws.tabs-filter_map_tabs (new_id ids) dock)) ∙ k))
          (rw (q, build_dock) at e)
  ]

  -- A companion adds its own tab and no other.
  placed-tabs :
      (primary companion : PlotId) (dock : D) (t : PlotId)
      → let (dock', placed) = insert_next_to lib dock primary companion in
        set_has
          (lib.iter_all_tabs (if placed then dock' else lib.push_to_focused_leaf companion dock'))
          t
        ≡ (set_has (lib.iter_all_tabs dock) t || companion == t)
  unfolding insert_next_to
  placed-tabs primary companion dock t =
      elim (Option-cases (push_beside primary companion (lib.leaves dock))) [
        | inl q ↦
            rw (q, insert_next_to) (laws.tabs-push_to_focused_leaf companion dock t ∙ ground arith)
        | inr (leaves, q) ↦
            rw (q, insert_next_to)
              (ap (λ xs. set_has xs t) (laws.tabs-leaves (lib.with_leaves leaves dock))
                ∙ ap (λ ls. set_has (concat ls) t) (laws.leaves-with_leaves leaves dock)
                ∙ set_has-concat_beside primary companion (lib.leaves dock) leaves t q
                ∙ ap (λ xs. set_has xs t || companion == t) (sym (laws.tabs-leaves dock)))
      ]

  place_companions-Allowed :
      (n : ℕ) (companions : List (PlotId × PlotId)) (dock : D) (t : PlotId)
      → All (λ c. c.1 < n) companions
      → (set_has (lib.iter_all_tabs dock) t ≡ true → Allowed n t)
      → set_has (lib.iter_all_tabs (place_companions lib companions dock)) t ≡ true
      → Allowed n t
  unfolding place_companions
  place_companions-Allowed n [] dock t h m e = m e
  place_companions-Allowed n ((primary, companion) ∷ companions) dock t h m e =
      let (dock', placed) = insert_next_to lib dock primary companion in
      let next : D = if placed then dock' else lib.push_to_focused_leaf companion dock' in
      place_companions-Allowed n companions next t h.1
        (λ k.
          let either : (set_has (lib.iter_all_tabs dock) t || companion == t) ≡ true =
            sym (placed-tabs primary companion dock t) ∙ k in
          elim (Bool-cases (companion == t)) [
            | inl q ↦ let same : companion ≡ t = ground (arith, q) in inl (rw same at h.0)
            | inr q ↦ m (ground (arith, either, q))
          ])
        e

-- A tab that has its plot in the registry, or the sentinel of a registry without plots.
abbrev pub IsPlaced : {F : Type 0} → PlotRegistry F → PlotId → Type 0
IsPlaced {F} plots t =
    ((kind : PlotKind F) × (get plots t ≡ some kind)) ⊎ ((plots.next_id ≡ 0) × (t ≡ 0))

-- Whatever the layout holds, its dock included, each tab of the dock that `apply` returns is the id
-- of a plot in the registry that it returns; only if there is no plot at all, the tab is the
-- sentinel 0.
pub apply-IsPlaced :
    {F G J D : Type 0} (lib : DockLib D J) (layout : Layout F G J) (channels : List ChannelInfo)
    → IsDockLib lib
    → (t : PlotId) → set_has (lib.iter_all_tabs (apply lib layout channels).1) t ≡ true
    → IsPlaced (apply lib layout channels).0 t
unfolding apply get
apply-IsPlaced {F} lib layout channels laws t e =
    let st : Applying F =
      apply_specs (index_paths channels []) channels layout.plots nothing_applied in
    let n : IsNumbered st =
      apply_specs-IsNumbered (index_paths channels []) channels layout.plots nothing_applied
        nothing_applied-IsNumbered in
    let next = st.registry.next_id in
    let allowed : Allowed next t =
      place_companions-Allowed lib laws next st.companions (build_dock lib layout.dock st.new_ids) t
        n.companions
        (build_dock-Allowed lib laws next layout.dock st.new_ids t n.primary n.some_primary) e in
    elim allowed [ inl l ↦ inl (map_get-key st.registry.plots t (n.has t l)) | inr z ↦ inr z ]
