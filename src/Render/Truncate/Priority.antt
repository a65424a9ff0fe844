-- ===== src/Render/Truncate/Priority.antt =====
-- viewer/crates/btelem-viewer/src/plot_renderers.rs: the order in which `truncate_rows` takes its tiers.
use btelem.Prelude.{
  ℕ, ◌-◌, ◌≡◌, refl, sym, subst, true, false, List, [], ◌∷◌, ◌++◌, leb, ◌==◌, length, arith,
  Bool-cases, inl, inr, All, All-weaken, All-append, Bool,
}
use btelem.Prelude.Int.{ℤ, ltb_ℤ}
use mathlib.Core.List.{Memᴰ}
use mathlib.Core.List.Memᴰ
use btelem.Store.Query.{eq_ℤ}
use btelem.Render.LogRows.{LogRow}
use btelem.Render.Truncate.{tier_push, fill_tiers}
use btelem.Render.Truncate.Sampled.{Memᴰ-sublist, sample_even_over_time-Sublistᴰ}
use btelem.Render.Truncate.Tiers.{
  flat_rows, fill_tiers-keeps, eq_ℤ→eq, ltb_ℤ-else, ltb_ℤ_trans, ltb_ℤ_irrefl,
}

ltb_ℤ_asymm : (a b : ℤ) → ltb_ℤ a b ≡ true → ltb_ℤ b a ≡ false
ltb_ℤ_asymm a b h = ground arith

false≢true {ℓ} : {A : Type ℓ} {b : Bool} → b ≡ false → b ≡ true → A
false≢true h k = ground (arith, h, k)

All-Memᴰ {ℓ} : {A : Type ℓ} (P : A → Type 0) {x : A} {xs : List A} → All P xs → Memᴰ x xs → P x
All-Memᴰ P h (Memᴰ.head e) = subst P (sym e) h.0
All-Memᴰ P h (Memᴰ.tail m) = All-Memᴰ P h.1 m

module _ {F : Type 0} (score : LogRow F → ℤ) where
  -- Each tier holds rows of its own score, and the scores go down.
  abbrev pub IsGrouped : List (ℤ × List (LogRow F)) → Type 0
  IsGrouped [] = Unit
  IsGrouped ((s, rows) ∷ tiers) =
      All (λ r. score r ≡ s) rows × All (λ e. ltb_ℤ e.0 s ≡ true) tiers × IsGrouped tiers

  tier_push-All :
      (P : ℤ → Type 0) (s : ℤ) (r : LogRow F) (tiers : List (ℤ × List (LogRow F)))
      → P s
      → All (λ e. P e.0) tiers
      → All (λ e. P e.0) (tier_push s r tiers)
  unfolding tier_push
  tier_push-All P s r [] p h = (p, tt)
  tier_push-All P s r ((u, rows) ∷ tiers) p h = elim (Bool-cases (eq_ℤ s u)) [
    | inl e ↦ rw e h
    | inr e ↦ elim (Bool-cases (ltb_ℤ u s)) [
      | inl k ↦ rw (e, k) (p, h)
      | inr k ↦ rw (e, k) (h.0, tier_push-All P s r tiers p h.1)
    ]
  ]

  pub tier_push-IsGrouped :
      (r : LogRow F) (tiers : List (ℤ × List (LogRow F)))
      → IsGrouped tiers
      → IsGrouped (tier_push (score r) r tiers)
  unfolding tier_push
  tier_push-IsGrouped r [] h = ((refl, tt), tt, tt)
  tier_push-IsGrouped r ((u, rows) ∷ tiers) h = elim (Bool-cases (eq_ℤ (score r) u)) [
    | inl e ↦ rw e (All-append (λ x. score x ≡ u) rows r h.0 (eq_ℤ→eq (score r) u e), h.1, h.2)
    | inr e ↦ elim (Bool-cases (ltb_ℤ u (score r))) [
      | inl k ↦
          let below =
            All-weaken (λ e. ltb_ℤ e.0 u ≡ true) tiers (λ e lt. ltb_ℤ_trans e.0 u (score r) lt k)
              h.1 in
          rw (e, k) ((refl, tt), (k, below), h)
      | inr k ↦
          let lower = ltb_ℤ-else (score r) u e k in
          rw (e, k)
            (
              h.0,
              tier_push-All (λ s. ltb_ℤ s u ≡ true) (score r) r tiers lower h.1,
              tier_push-IsGrouped r tiers h.2,
            )
    ]
  ]

  flat_rows-score :
      (P : ℤ → Type 0) {x : LogRow F} (tiers : List (ℤ × List (LogRow F)))
      → IsGrouped tiers
      → All (λ e. P e.0) tiers
      → Memᴰ x (flat_rows tiers)
      → P (score x)
  flat_rows-score P [] g h m = absurd (Memᴰ.not-nil m)
  flat_rows-score P {x} ((s, rows) ∷ tiers) g h m = elim (Memᴰ.append_cases rows m) [
    | inl here ↦ subst P (sym (All-Memᴰ (λ r. score r ≡ s) g.0 here)) h.0
    | inr there ↦ flat_rows-score P tiers g.2 h.1 there
  ]

  -- No tier from this one on has a score above its rows.
  tier-top :
      (s : ℤ) (rows : List (LogRow F)) (tiers : List (ℤ × List (LogRow F))) (x : LogRow F)
      → IsGrouped ((s, rows) ∷ tiers)
      → Memᴰ x rows
      → All (λ e. ltb_ℤ (score x) e.0 ≡ false) ((s, rows) ∷ tiers)
  tier-top s rows tiers x g m =
      let same = All-Memᴰ (λ y. score y ≡ s) g.0 m in
      subst (λ u. All (λ e. ltb_ℤ u e.0 ≡ false) ((s, rows) ∷ tiers)) (sym same)
        (
          ltb_ℤ_irrefl s,
          All-weaken (λ e. ltb_ℤ e.0 s ≡ true) tiers (λ e lt. ltb_ℤ_asymm e.0 s lt) g.1,
        )

  module _ (max_rows : ℕ) (r r' : LogRow F) (higher : ltb_ℤ (score r) (score r') ≡ true) where
    -- No tier that is left has a score above a row taken so far.
    abbrev Above : List (LogRow F) → List (ℤ × List (LogRow F)) → Type 0
    Above out tiers = (x : LogRow F) → Memᴰ x out → All (λ e. ltb_ℤ (score x) e.0 ≡ false) tiers

    not_left {ℓ} :
        {A : Type ℓ} (tiers : List (ℤ × List (LogRow F)))
        → IsGrouped tiers
        → All (λ e. ltb_ℤ (score r) e.0 ≡ false) tiers
        → Memᴰ r' (flat_rows tiers)
        → A
    not_left tiers g above m' =
        false≢true (flat_rows-score (λ s. ltb_ℤ (score r) s ≡ false) tiers g above m') higher

    Above-next :
        (out : List (LogRow F)) (s : ℤ) (rows : List (LogRow F))
        (tiers : List (ℤ × List (LogRow F)))
        → IsGrouped ((s, rows) ∷ tiers)
        → Above out ((s, rows) ∷ tiers)
        → Above (out ++ rows) tiers
    Above-next out s rows tiers g above x m = elim (Memᴰ.append_cases out m) [
      | inl before ↦ (above x before).1
      | inr here ↦ (tier-top s rows tiers x g here).1
    ]

    -- A row of a greater score than one that is taken is taken.
    pub fill_tiers-priority :
        (out : List (LogRow F)) (tiers : List (ℤ × List (LogRow F)))
        → IsGrouped tiers
        → Above out tiers
        → Memᴰ r (fill_tiers max_rows out tiers)
        → Memᴰ r' (flat_rows tiers)
        → Memᴰ r' (fill_tiers max_rows out tiers)
    unfolding fill_tiers
    fill_tiers-priority out [] g above m m' = absurd (Memᴰ.not-nil m')
    fill_tiers-priority out ((s, rows) ∷ tiers) g above m m' =
        let remaining = max_rows - length out in
        let all = ((s, rows) ∷ tiers) in
        elim (Bool-cases (remaining == 0)) [
          | inl e ↦ not_left all g (above r (rw e at m)) m'
          | inr e ↦ elim (Bool-cases (leb (length rows) remaining)) [
            | inl h ↦
                rw (e, h)
                  (elim (Memᴰ.append_cases rows m') [
                    | inl here ↦
                        fill_tiers-keeps max_rows (out ++ rows) tiers r'
                          (Memᴰ.append_right out here)
                    | inr there ↦
                        fill_tiers-priority (out ++ rows) tiers g.2
                          (Above-next out s rows tiers g above) (rw (e, h) at m) there
                  ])
            | inr h ↦ elim (Memᴰ.append_cases out (rw (e, h) at m)) [
              | inl before ↦ not_left all g (above r before) m'
              | inr part ↦
                  let here = Memᴰ-sublist (sample_even_over_time-Sublistᴰ rows remaining) part in
                  not_left all g (tier-top s rows tiers r g here) m'
            ]
          ]
        ]
