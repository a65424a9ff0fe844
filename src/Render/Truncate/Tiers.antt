-- ===== src/Render/Truncate/Tiers.antt =====
-- viewer/crates/btelem-viewer/src/plot_renderers.rs: the tiers of `truncate_rows`, which rows they hold
-- and which of them are shown.
use btelem.Prelude.{
  ℕ, ◌-◌, ◌≤◌, ◌≡◌, refl, subst, true, false, List, [], ◌∷◌, ◌++◌, append_assoc, leb, ◌==◌, length,
  arith, Bool-cases, inl, inr, All, leb→le, length-append,
}
use btelem.Prelude.Int.{ℤ, pos, negsuc, ltb_ℤ}
use mathlib.Core.List.{Memᴰ, Perm, Sublistᴰ, perm_middle}
use mathlib.Core.List.Memᴰ
use mathlib.Core.List.Perm
use mathlib.Core.List.Sublistᴰ
use btelem.Store.{u64_max}
use btelem.Store.Query.{eq_ℤ}
use btelem.Render.LogRows.{LogRow}
use btelem.Render.Truncate.{tier_push, fill_tiers, sample_even_over_time}
use btelem.Render.Truncate.Sampled.{
  Ascending, sample_even_over_time-Sublistᴰ, length-sample_even_over_time,
}

pub eq_ℤ→eq : (a b : ℤ) → eq_ℤ a b ≡ true → a ≡ b
eq_ℤ→eq (pos a) (pos b) h = ground arith
eq_ℤ→eq (negsuc a) (negsuc b) h = ground arith
eq_ℤ→eq (pos a) (negsuc b) h = ground arith
eq_ℤ→eq (negsuc a) (pos b) h = ground arith

-- Of two scores neither of which is the greater, nor equal, none are.
pub ltb_ℤ-else : (a b : ℤ) → eq_ℤ a b ≡ false → ltb_ℤ b a ≡ false → ltb_ℤ a b ≡ true
ltb_ℤ-else (pos a) (pos b) e h = ground arith
ltb_ℤ-else (negsuc a) (negsuc b) e h = ground arith
ltb_ℤ-else (pos a) (negsuc b) e h = ground arith
ltb_ℤ-else (negsuc a) (pos b) e h = ground arith

pub ltb_ℤ_trans : (a b c : ℤ) → ltb_ℤ a b ≡ true → ltb_ℤ b c ≡ true → ltb_ℤ a c ≡ true
ltb_ℤ_trans a b c h k = ground arith

pub ltb_ℤ_irrefl : (a : ℤ) → ltb_ℤ a a ≡ false
ltb_ℤ_irrefl a = ground arith

Sublistᴰ-prefix {ℓ} : {A : Type ℓ} (xs ys : List A) → Sublistᴰ xs (xs ++ ys)
Sublistᴰ-prefix [] ys = Sublistᴰ.nil-sublist ys
Sublistᴰ-prefix (x ∷ xs) ys = Sublistᴰ.cons-cons refl (Sublistᴰ-prefix xs ys)

module _ {F : Type 0} where
  -- The rows of all tiers.
  abbrev pub flat_rows : List (ℤ × List (LogRow F)) → List (LogRow F)
  flat_rows [] = []
  flat_rows ((s, rows) ∷ tiers) = rows ++ flat_rows tiers

  pub tier_push-perm :
      (score : ℤ) (r : LogRow F) (tiers : List (ℤ × List (LogRow F)))
      → Perm (flat_rows (tier_push score r tiers)) (r ∷ flat_rows tiers)
  unfolding tier_push
  tier_push-perm score r [] = Perm.refl (r ∷ [])
  tier_push-perm score r ((s, rows) ∷ tiers) = elim (Bool-cases (eq_ℤ score s)) [
    | inl e ↦ rw (e, append_assoc) (perm_middle rows (flat_rows tiers))
    | inr e ↦ elim (Bool-cases (ltb_ℤ s score)) [
      | inl h ↦ rw (e, h) (Perm.refl (r ∷ (rows ++ flat_rows tiers)))
      | inr h ↦
          rw (e, h)
            (Perm.trans (Perm.append_left rows (tier_push-perm score r tiers))
              (perm_middle rows (flat_rows tiers)))
    ]
  ]

  pub fill_tiers-Sublistᴰ :
      (max_rows : ℕ) (out : List (LogRow F)) (tiers : List (ℤ × List (LogRow F)))
      → Sublistᴰ (fill_tiers max_rows out tiers) (out ++ flat_rows tiers)
  unfolding fill_tiers
  fill_tiers-Sublistᴰ max_rows out [] = Sublistᴰ-prefix out []
  fill_tiers-Sublistᴰ max_rows out ((s, rows) ∷ tiers) =
      let remaining = max_rows - length out in
      elim (Bool-cases (remaining == 0)) [
        | inl e ↦ rw e (Sublistᴰ-prefix out (rows ++ flat_rows tiers))
        | inr e ↦ elim (Bool-cases (leb (length rows) remaining)) [
          | inl h ↦
              rw (e, h)
                (subst (Sublistᴰ (fill_tiers max_rows (out ++ rows) tiers))
                  (append_assoc out rows (flat_rows tiers))
                  (fill_tiers-Sublistᴰ max_rows (out ++ rows) tiers))
          | inr h ↦
              rw (e, h)
                (Sublistᴰ.append (Sublistᴰ.refl out) (
                  Sublistᴰ.trans (sample_even_over_time-Sublistᴰ rows remaining)
                    (Sublistᴰ-prefix rows (flat_rows tiers))))
        ]
      ]

  -- What has been taken stays.
  pub fill_tiers-keeps :
      (max_rows : ℕ) (out : List (LogRow F)) (tiers : List (ℤ × List (LogRow F))) (x : LogRow F)
      → Memᴰ x out
      → Memᴰ x (fill_tiers max_rows out tiers)
  unfolding fill_tiers
  fill_tiers-keeps max_rows out [] x m = m
  fill_tiers-keeps max_rows out ((s, rows) ∷ tiers) x m =
      let remaining = max_rows - length out in
      elim (Bool-cases (remaining == 0)) [
        | inl e ↦ rw e m
        | inr e ↦ elim (Bool-cases (leb (length rows) remaining)) [
          | inl h ↦
              rw (e, h) (fill_tiers-keeps max_rows (out ++ rows) tiers x (Memᴰ.append_left rows m))
          | inr h ↦ rw (e, h) (Memᴰ.append_left (sample_even_over_time rows remaining) m)
        ]
      ]

  pub length-fill_tiers :
      (max_rows : ℕ) (out : List (LogRow F)) (tiers : List (ℤ × List (LogRow F)))
      → max_rows ≤ u64_max
      → length out ≤ max_rows
      → All (λ e. Ascending 0 e.1) tiers
      → length (fill_tiers max_rows out tiers) ≤ max_rows
  unfolding fill_tiers
  length-fill_tiers max_rows out [] small h sorted = h
  length-fill_tiers max_rows out ((s, rows) ∷ tiers) small h sorted =
      let remaining = max_rows - length out in
      elim (Bool-cases (remaining == 0)) [
        | inl e ↦ rw e h
        | inr e ↦ elim (Bool-cases (leb (length rows) remaining)) [
          | inl k ↦
              rw (e, k)
                (length-fill_tiers max_rows (out ++ rows) tiers small
                  (omega (arith, length-append out rows, leb→le (length rows) remaining k, h))
                  sorted.1)
          | inr k ↦
              let part = sample_even_over_time rows remaining in
              let part_le : length part ≤ remaining =
                length-sample_even_over_time rows remaining 0 (omega (arith, small)) sorted.0 in
              rw (e, k) (omega (arith, length-append out part, part_le, h))
        ]
      ]
