-- ===== src/Store/Query/Window.antt =====
-- viewer/crates/btelem-store/src/mock.rs: the range queries on samples that were pushed in time
-- order.
use btelem.Prelude.{
  ℕ, zero, suc, ◌+◌, ◌-◌, ◌*◌, ◌/◌, ◌≤◌, ◌<◌, ◌≡◌, refl, ◌∙◌, Bool, ◌&&◌, ◌||◌, true, false, List,
  [], ◌∷◌, some, arith, length, ltb, leb, ◌==◌, ltb-false, leb→le, leb-false, ◌⊎◌, Bool-cases, inl,
  inr, get_elem?, take, retain, max, Text,
}
use native.Mathlib.Decide.{dec_le}
use native.Mathlib.Nat.{mul-le-mul_right, div-add-mod, mod-lt}
use btelem.Store.Types.{ChannelId, Timestamp}
use btelem.Store.Mock.{Inner}
use btelem.Store.Query.{partition_point, step_by, in_range, thin, query_raw, query_text}

few : (l m n stride : ℕ) → l * stride ≤ n + stride - 1 → n ≤ m * stride → 0 < stride → l ≤ m
few l m n stride h k p = elim (dec_le l m) [
  | yes le ↦ le
  | no gt ↦ absurd (grind (arith, mul-le-mul_right stride (the_gt gt)))
]
  where
    the_gt : ¬ (l ≤ m) → m + 1 ≤ l
    the_gt g = omega arith

stride_covers : (n m : ℕ) → 0 < m → n ≤ m * max ((n + m - 1) / m) 1
stride_covers n m h = grind (arith, div-add-mod (n + m - 1) m, mod-lt (n + m - 1) h)

module _ {A : Type 0} where
  -- No sample is earlier than the one before it, nor than `now`.
  abbrev pub IsSorted : Timestamp → List (Timestamp × A) → Type 0
  IsSorted now [] = Unit {0}
  IsSorted now (s ∷ ss) = (now ≤ s.0) × IsSorted s.0 ss

  abbrev pub in_window : Timestamp → Timestamp → Timestamp × A → Bool
  in_window t0 t1 s = leb t0 s.0 && ltb s.0 t1

  beyond :
      (t0 t1 : Timestamp) (now : Timestamp) (ss : List (Timestamp × A))
      → IsSorted now ss
      → t1 ≤ now
      → retain (in_window t0 t1) ss ≡ []
  beyond t0 t1 now [] s h = refl
  beyond t0 t1 now (x ∷ ss) s h = ground (arith, beyond t0 t1 x.0 ss s.1)

  from_start :
      (t0 t1 : Timestamp) (now : Timestamp) (ss : List (Timestamp × A))
      → IsSorted now ss
      → t0 ≤ now
      → take (partition_point (λ s. ltb s.0 t1) ss) ss ≡ retain (in_window t0 t1) ss
  unfolding partition_point
  from_start t0 t1 now [] s h = refl
  from_start t0 t1 now (x ∷ ss) s h =
      ground (arith, from_start t0 t1 x.0 ss s.1, beyond t0 t1 x.0 ss s.1)

  -- On sorted samples the slice between the two partition points is the filter by time.
  in_range-retain :
      (t0 t1 : Timestamp) (now : Timestamp) (ss : List (Timestamp × A))
      → IsSorted now ss
      → t0 < t1
      → in_range ss t0 t1 ≡ retain (in_window t0 t1) ss
  unfolding in_range partition_point
  in_range-retain t0 t1 now [] s h = refl
  in_range-retain t0 t1 now (x ∷ ss) s h = elim (Bool-cases (ltb x.0 t0)) [
    | inl early ↦
        let before : ltb x.0 t1 ≡ true = ground arith in
        rw (in_range, partition_point, early, before)
          (in_range-retain t0 t1 x.0 ss s.1 h ∙ ground arith)
    | inr e ↦
        rw (in_range, partition_point, e)
          (from_start t0 t1 t0 (x ∷ ss) (ltb-false x.0 t0 e, s.1) (omega arith))
  ]

  length-step_by :
      (stride wait : ℕ) (xs : List A)
      → 0 < stride
      → wait < stride
      → length (step_by stride wait xs) * stride ≤ length xs + stride - 1 - wait
  unfolding step_by
  length-step_by stride wait [] h w = omega arith
  length-step_by stride zero (x ∷ xs) h w =
      omega (arith, length-step_by stride (stride - 1) xs h (omega arith))
  length-step_by stride (suc wait) (x ∷ xs) h w =
      omega (arith, length-step_by stride wait xs h (omega arith))

  -- Thinning keeps to the budget.
  length-thin : (found : List A) (m : ℕ) → 0 < m → length (thin found m) ≤ m
  unfolding thin
  length-thin found m h = elim (Bool-cases (leb (length found) m)) [
    | inl e ↦ rw (e, thin) (leb→le (length found) m e)
    | inr e ↦
        let stride = max ((length found + m - 1) / m) 1 in
        rw (e, thin)
          (few (length (step_by stride 0 found)) m (length found) stride
            (omega (arith, length-step_by stride 0 found (omega arith) (omega arith)))
            (stride_covers (length found) m h) (omega arith))
  ]

-- The items of the second list, in order, with others left out.
pub data Sub {A : Type 0} : List A → List A → Type 0 where
  nothing : (ys : List A) → Sub [] ys
  keep : (x : A) {xs ys : List A} → Sub xs ys → Sub (x ∷ xs) (x ∷ ys)
  skip : (y : A) {xs ys : List A} → Sub xs ys → Sub xs (y ∷ ys)

module _ {A : Type 0} where
  Sub-refl : (xs : List A) → Sub xs xs
  Sub-refl [] = nothing []
  Sub-refl (x ∷ xs) = keep x (Sub-refl xs)

  step_by-Sub : (stride wait : ℕ) (xs : List A) → Sub (step_by stride wait xs) xs
  unfolding step_by
  step_by-Sub stride wait [] = nothing []
  step_by-Sub stride zero (x ∷ xs) = keep x (step_by-Sub stride (stride - 1) xs)
  step_by-Sub stride (suc wait) (x ∷ xs) = skip x (step_by-Sub stride wait xs)

  thin-Sub : (found : List A) (m : ℕ) → Sub (thin found m) found
  unfolding thin
  thin-Sub found m = elim (Bool-cases (leb (length found) m)) [
    | inl e ↦ rw (e, thin) (Sub-refl found)
    | inr e ↦ rw (e, thin) (step_by-Sub _ 0 found)
  ]

thin_all : {A : Type 0} (found : List A) (m : ℕ) → (thin found m ≡ found) ⊎ (m < length found)
unfolding thin
thin_all found m = elim (Bool-cases (leb (length found) m)) [
  | inl e ↦ inl (rw e)
  | inr e ↦ inr (leb-false (length found) m e)
]

-- On a channel whose samples were pushed in time order, for a range and a `max` that are not
-- empty, `query_raw` returns at most `max` samples, all of them samples of the channel with a
-- time in `[t0, t1)` and in their order; and it returns every one of those where they are no
-- more than `max`.
pub query_raw-window :
    {F : Type 0} (g : Inner F) (ch : ChannelId) (t0 t1 : Timestamp) (m : ℕ)
    (samples : List (Timestamp × F))
    → get_elem? g.scalars ch ≡ some samples
    → IsSorted 0 samples
    → t0 < t1
    → 0 < m
    → (length (query_raw g ch t0 t1 m) ≤ m)
      × Sub (query_raw g ch t0 t1 m) (retain (in_window t0 t1) samples)
      × ((query_raw g ch t0 t1 m ≡ retain (in_window t0 t1) samples)
          ⊎ (m < length (retain (in_window t0 t1) samples)))
unfolding query_raw
query_raw-window g ch t0 t1 m samples e s h p =
    let go : (m == 0 || leb t1 t0) ≡ false = ground arith in
    let found = in_range-retain t0 t1 0 samples s h in
    rw (go, query_raw, e, found) (length-thin _ m p, thin-Sub _ m, thin_all _ m)

-- The same of `query_text`.
pub query_text-window :
    {F : Type 0} (g : Inner F) (ch : ChannelId) (t0 t1 : Timestamp) (m : ℕ)
    (samples : List (Timestamp × Text))
    → get_elem? g.texts ch ≡ some samples
    → IsSorted 0 samples
    → t0 < t1
    → 0 < m
    → (query_text g ch t0 t1 m ≡ retain (in_window t0 t1) samples)
      ⊎ (m < length (retain (in_window t0 t1) samples))
unfolding query_text
query_text-window g ch t0 t1 m samples e s h p =
    let go : (m == 0 || leb t1 t0) ≡ false = ground arith in
    let found = in_range-retain t0 t1 0 samples s h in rw (go, query_text, e, found) (thin_all _ m)
