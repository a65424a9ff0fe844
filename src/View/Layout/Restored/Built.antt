-- ===== src/View/Layout/Restored/Built.antt =====
-- viewer/crates/btelem-viewer/src/layout.rs: the registry that the loop of `apply` builds when every
-- spec gives one plot.
use btelem.Prelude.{
  ℕ, zero, suc, ◌+◌, ◌<◌, ◌≡◌, refl, ◌∙◌, ap, sym, false, List, [], ◌∷◌, ◌++◌, Option, some, map,
  ◌==◌, arith, set_has, append_assoc, append-nil, length, length-append, get_elem?, map_get,
  zero-add, map_insert,
}
use btelem.View.Registry.{PlotKind, PlotId, insert}
use btelem.View.Layout.{no_report}
use btelem.View.Layout.Resolve.{range_from}
use btelem.View.Layout.Apply.{Applying, push_plot, new_id}
use btelem.View.Layout.Restored.Entries.{keys, map_insert-new}

range_from-last :
    (i n : ℕ)
    → map {B = Option ℕ} some (range_from i (suc n))
      ≡ map some (range_from i n) ++ (some (i + n) ∷ [])
range_from-last i zero = let e : i ≡ i + 0 = omega arith in ap (λ (j : ℕ). some j ∷ []) e
range_from-last i (suc n) =
    let e : suc i + n ≡ i + suc n = omega arith in
    ap (◌∷◌ (some i)) (
      range_from-last (suc i) n
      ∙ ap (λ (j : ℕ). map some (range_from (suc i) n) ++ (some j ∷ [])) e)

module _ {F : Type 0} where
  -- Plots numbered from `i` on.
  abbrev pub number : ℕ → List (PlotKind F) → List (PlotId × PlotKind F)
  number i [] = []
  number i (k ∷ ks) = (i, k) ∷ number (suc i) ks

  abbrev pub built : List (PlotKind F) → Applying F
  built ks = record {
    registry = record { plots = number 0 ks; next_id = length ks };
    new_ids = map some (range_from 0 (length ks));
    companions = [];
    report = no_report;
  }

  abbrev pub push_all : List (PlotKind F) → Applying F → Applying F
  push_all [] st = st
  push_all (k ∷ ks) st = push_all ks (push_plot st k st.report)

  number-last :
      (i : ℕ) (ks : List (PlotKind F)) (k : PlotKind F)
      → number i (ks ++ (k ∷ [])) ≡ number i ks ++ ((i + length ks, k) ∷ [])
  number-last i [] k = let e : i ≡ i + 0 = omega arith in ap (λ (j : ℕ). (j, k) ∷ []) e
  number-last i (m ∷ ks) k =
      let e : suc i + length ks ≡ i + suc (length ks) = omega arith in
      ap (◌∷◌ (i, m))
        (number-last (suc i) ks k ∙ ap (λ (j : ℕ). number (suc i) ks ++ ((j, k) ∷ [])) e)

  number-new :
      (i j : ℕ) (ks : List (PlotKind F))
      → i + length ks < suc j
      → set_has (keys (number i ks)) j ≡ false
  number-new i j [] h = refl
  number-new i j (k ∷ ks) h = ground (arith, number-new (suc i) j ks)

  push_plot-built :
      (done : List (PlotKind F)) (k : PlotKind F)
      → push_plot (built done) k no_report ≡ built (done ++ (k ∷ []))
  unfolding insert
  push_plot-built done k =
      let plots : map_insert (length done) k (number 0 done) ≡ number 0 (done ++ (k ∷ [])) =
        map_insert-new (length done) k (number 0 done)
          (number-new 0 (length done) done (omega arith))
        ∙ sym (
            number-last 0 done k
            ∙ ap (λ (j : ℕ). number 0 done ++ ((j, k) ∷ [])) (zero-add (length done))) in
      let next : length done + 1 ≡ length (done ++ (k ∷ [])) = sym (length-append done (k ∷ [])) in
      let ids : map some (range_from 0 (length done)) ++ (some (length done) ∷ [])
          ≡ map some (range_from 0 (length (done ++ (k ∷ [])))) =
        ap (λ (j : ℕ). map some (range_from 0 (length done)) ++ (some j ∷ []))
          (sym (zero-add (length done)))
        ∙ sym (range_from-last 0 (length done))
        ∙ (let e : suc (length done) ≡ length (done ++ (k ∷ [])) =
              omega (arith, length-append done (k ∷ [])) in
            ap (λ (n : ℕ). map some (range_from 0 n)) e) in
      rw (plots, next, ids) refl

  pub push_all-built : (done ks : List (PlotKind F)) → push_all ks (built done) ≡ built (done ++ ks)
  push_all-built done [] = ap built (sym (append-nil done))
  push_all-built done (k ∷ ks) =
      ap (push_all ks) (push_plot-built done k)
      ∙ push_all-built (done ++ (k ∷ [])) ks
      ∙ ap built (append_assoc done (k ∷ []) ks)

  pub map_get-number :
      (i k : ℕ) (ks : List (PlotKind F)) → map_get (i + k) (number i ks) ≡ get_elem? ks k
  map_get-number i k [] = refl
  map_get-number i zero (m ∷ ks) = ground arith
  map_get-number i (suc k) (m ∷ ks) =
      let e : i + suc k ≡ suc i + k = omega arith in
      let apart : (i == i + suc k) ≡ false = ground arith in
      rw apart (ap (λ (j : ℕ). map_get j (number (suc i) ks)) e ∙ map_get-number (suc i) k ks)

  pub length-number : (i : ℕ) (ks : List (PlotKind F)) → length (number i ks) ≡ length ks
  length-number i [] = refl
  length-number i (k ∷ ks) = ap suc (length-number (suc i) ks)

-- What `apply` knows of the new ids.
pub new_id-range_from : (i n k : ℕ) → k < n → new_id (map some (range_from i n)) k ≡ some (i + k)
new_id-range_from i zero k h = elim h [ ]
new_id-range_from i (suc n) zero h = let e : i ≡ i + 0 = omega arith in ap some e
new_id-range_from i (suc n) (suc k) h =
    let e : suc i + k ≡ i + suc k = omega arith in
    new_id-range_from (suc i) n k (omega arith) ∙ ap some e
