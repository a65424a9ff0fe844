-- ===== src/Render/LogRows/Tree.antt =====
-- viewer/crates/btelem-viewer/src/plot_renderers.rs: the `BTreeMap` of a column, searched up to a time.
use btelem.Prelude.{
  ℕ, ◌<◌, ◌≡◌, refl, ◌∙◌, Bool, true, ◌&&◌, List, [], ◌∷◌, Option, none, some, ltb, leb, ◌==◌,
  if◌then◌else◌, arith, subst, some-injective, Bool-cases, Option-cases, inl, inr, All, All-weaken,
  ltb→lt, leb_yes,
}
use mathlib.Core.Option.{none-ne-some}
use btelem.Render.LogRows.{tree_insert, last_up_to}

module _ {V : Type 0} where
  -- The keys go up.
  abbrev pub IsTree : List (ℕ × V) → Type 0
  IsTree [] = Unit
  IsTree ((j, w) ∷ m) = All (λ e. j < e.0) m × IsTree m

  tree_insert-All :
      (P : ℕ → Type 0) (k : ℕ) (v : V) (m : List (ℕ × V))
      → P k
      → All (λ e. P e.0) m
      → All (λ e. P e.0) (tree_insert k v m)
  tree_insert-All P k v [] p h = (p, tt)
  tree_insert-All P k v ((j, w) ∷ m) p h = elim (Bool-cases (k == j)) [
    | inl e ↦ rw e (p, h.1)
    | inr e ↦ elim (Bool-cases (ltb k j)) [
      | inl l ↦ rw (e, l) (p, h)
      | inr l ↦ rw (e, l) (h.0, tree_insert-All P k v m p h.1)
    ]
  ]

  pub tree_insert-IsTree :
      (k : ℕ) (v : V) (m : List (ℕ × V)) → IsTree m → IsTree (tree_insert k v m)
  tree_insert-IsTree k v [] t = (tt, tt)
  tree_insert-IsTree k v ((j, w) ∷ m) t = elim (Bool-cases (k == j)) [
    | inl e ↦ rw e (All-weaken (λ x. j < x.0) m (λ x h. ground (arith, h, e)) t.0, t.1)
    | inr e ↦ elim (Bool-cases (ltb k j)) [
      | inl l ↦
          rw (e, l)
            (
              (
                ltb→lt k j l,
                All-weaken (λ x. j < x.0) m (λ x h. omega (arith, h, ltb→lt k j l)) t.0,
              ),
              t,
            )
      | inr l ↦
          rw (e, l)
            (
              tree_insert-All (λ i. j < i) k v m (ground (arith, e, l)) t.0,
              tree_insert-IsTree k v m t.1,
            )
    ]
  ]

  last_up_to-above :
      (j t : ℕ) (m : List (ℕ × V)) (e : ℕ × V)
      → All (λ x. j < x.0) m
      → last_up_to t m ≡ some e
      → j < e.0
  last_up_to-above j t [] e h = λ found. absurd (none-ne-some e found)
  last_up_to-above j t ((i, w) ∷ m) e h = elim (Bool-cases (leb i t)) [
    | inr k ↦ rw k (λ found. absurd (none-ne-some e found))
    | inl k ↦ elim (Option-cases (last_up_to t m)) [
      | inl n ↦ rw (k, n) (λ found. subst (λ x. j < x.0) (some-injective found) h.0)
      | inr (x, s) ↦ rw (k, s) (λ found. last_up_to-above j t m e h.1 (s ∙ found))
    ]
  ]

  -- The newer of two entries, the second of which counts when it is not after `t`.
  abbrev pub newer : ℕ → Option (ℕ × V) → Bool
  newer k none = true
  newer k (some e) = leb e.0 k

  abbrev pub pick : ℕ → ℕ × V → Option (ℕ × V) → Option (ℕ × V)
  pick t (k, v) acc = if leb k t && newer k acc then some (k, v) else acc

  pub last_up_to-tree_insert :
      (t k : ℕ) (v : V) (m : List (ℕ × V))
      → IsTree m
      → last_up_to t (tree_insert k v m) ≡ pick t (k, v) (last_up_to t m)
  last_up_to-tree_insert t k v [] h = ground arith
  last_up_to-tree_insert t k v ((j, w) ∷ m) h = elim (Option-cases (last_up_to t m)) [
    | inl n ↦ let rest = last_up_to-tree_insert t k v m h.1 in ground (arith, n, rest)
    | inr (e, s) ↦
        let rest = last_up_to-tree_insert t k v m h.1 in
        let above = last_up_to-above j t m e h.0 s in ground (arith, s, rest, above)
  ]

  last_up_to-none : (t : ℕ) (m : List (ℕ × V)) → All (λ e. t < e.0) m → last_up_to t m ≡ none
  last_up_to-none t [] h = refl
  last_up_to-none t ((j, w) ∷ m) h = ground (arith, h.0)

  -- Each entry is the one found at its own key.
  pub last_up_to_self : (m : List (ℕ × V)) → IsTree m → All (λ e. last_up_to e.0 m ≡ some e) m
  last_up_to_self [] h = tt
  last_up_to_self ((j, w) ∷ m) h = (
    rw (leb_yes j j (omega arith), last_up_to-none j m h.0) refl,
    later m h.0 (last_up_to_self m h.1),
  )
    where
      later :
          (xs : List (ℕ × V))
          → All (λ e. j < e.0) xs
          → All (λ e. last_up_to e.0 m ≡ some e) xs
          → All (λ e. last_up_to e.0 ((j, w) ∷ m) ≡ some e) xs
      later [] above found = tt
      later (e ∷ xs) above found =
          (rw (leb_yes j e.0 (omega (arith, above.0)), found.0) refl, later xs above.1 found.1)
