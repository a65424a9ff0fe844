-- ===== src/View/Markers/Pairs.antt =====
-- viewer/crates/btelem-viewer/src/view_state.rs: the pairs of markers that the links name.
use btelem.Prelude.{
  ℕ, ◌≤◌, ◌≡◌, refl, ap, ◌⊎◌, inl, inr, List, [], ◌∷◌, some, arith, All, find, Bool-cases, ◌==◌,
  ==_iff, map, leb, leb→le, leb-false,
}
use btelem.View.Markers.{
  Marker, Link, MarkerSet, get, resolve, link_pairs, time_ordered_pairs, in_time_order,
}
use btelem.View.Markers.Consistent.{Exists, LinkExists}
use btelem.View.Markers.Invariant.{Reach, Reach-IsConsistent}

module _ {F : Type 0} where
  Exists-get :
      (s : MarkerSet F) (i : ℕ)
      → Exists s.markers i
      → (m : Marker) × (get s i ≡ some m) × (m.id ≡ i)
  unfolding get
  Exists-get s i h = find_marker s.markers h
    where
      find_marker :
          (ms : List Marker)
          → Exists ms i
          → (m : Marker) × (find (λ m. m.id == i) ms ≡ some m) × (m.id ≡ i)
      find_marker [] h = absurd (cc h)
      find_marker (m ∷ ms) h = elim (Bool-cases (m.id == i)) [
        | inl e ↦ rw (e, find) (m, refl, (==_iff m.id i).0 e)
        | inr e ↦ rw (e, find) (find_marker ms (rw e at h))
      ]

  -- The two markers of a pair are the ends of its link, the earlier one first.
  pub record IsPair (p : Marker × Marker × Link F) : Type 0 where
    pub in_order : p.0.t_ns ≤ p.1.t_ns
    pub ends : ((p.0.id ≡ p.2.a) × (p.1.id ≡ p.2.b)) ⊎ ((p.0.id ≡ p.2.b) × (p.1.id ≡ p.2.a))

  in_time_order-IsPair :
      (a b : Marker) (l : Link F)
      → a.id ≡ l.a
      → b.id ≡ l.b
      → IsPair (in_time_order (a, b, l)) × ((in_time_order (a, b, l)).2 ≡ l)
  in_time_order-IsPair a b l ea eb = elim (Bool-cases (leb a.t_ns b.t_ns)) [
    | inl e ↦ rw e (record { in_order = leb→le a.t_ns b.t_ns e; ends = inl (ea, eb) }, refl)
    | inr e ↦
        rw e (
          record { in_order = omega (arith, leb-false a.t_ns b.t_ns e); ends = inr (eb, ea) },
          refl,
        )
  ]

  resolve-All :
      (s : MarkerSet F) (ls : List (Link F))
      → All (LinkExists s.markers) ls
      → All IsPair (map in_time_order (resolve s ls))
        × (map (λ p. p.2) (map in_time_order (resolve s ls)) ≡ ls)
  unfolding resolve
  resolve-All s [] h = (tt, refl)
  resolve-All s (l ∷ ls) h =
      let (a, ga, ea) = Exists-get s l.a h.0.0 in
      let (b, gb, eb) = Exists-get s l.b h.0.1 in
      let (p, e) = in_time_order-IsPair a b l ea eb in
      let (ps, es) = resolve-All s ls h.1 in rw (ga, gb, resolve) ((p, ps), rw e (ap (◌∷◌ l) es))

  -- In every state of the marker set that its methods lead to, `time_ordered_pairs` lists each
  -- link once, in the order of the links, with the two markers that the link names, the earlier
  -- one first.
  pub time_ordered_pairs-IsPair :
      {half : F} {s : MarkerSet F}
      → Reach half s
      → All IsPair (time_ordered_pairs s) × (map (λ p. p.2) (time_ordered_pairs s) ≡ s.links)
  unfolding time_ordered_pairs link_pairs
  time_ordered_pairs-IsPair {s} r = resolve-All s s.links (Reach-IsConsistent r).links
