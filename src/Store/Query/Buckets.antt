-- ===== src/Store/Query/Buckets.antt =====
-- viewer/crates/btelem-store/src/mock.rs: the down-sampling of `query_scalar`. The laws of `f64`
-- that the envelope rests on are hypotheses: `min` and `max` bound their arguments (no sample is
-- NaN), and the index of a bucket is not negative and, for the number of buckets, does not fall
-- with time and stays below `max_buckets`.
use btelem.Prelude.{
  ℕ, ◌+◌, ◌-◌, ◌≤◌, ◌<◌, ◌≡◌, ◌≢◌, refl, ◌⊎◌, inl, inr, true, false, List, [], ◌∷◌, arith, length,
  leb, Bool-cases, map, leb→le, length-map,
}
use btelem.Prelude.Int.{ℤ, pos, negsuc, pos_part}
use btelem.Float.{Float}
use btelem.Store.Types.{Timestamp, Bucket}
use btelem.Store.Query.{eq_ℤ, is_pos, bucket_index, down_sample, scalar_buckets}
use btelem.Store.Query.Window.{IsSorted}

-- The order of the values, as `min` and `max` respect it.
pub record OrderLaws {F : Type 0} (fl : Float F) : Type 1 where
  pub Le : F → F → Type 0
  pub le_refl : (a : F) → Le a a
  pub le_trans : (a b c : F) → Le a b → Le b c → Le a c
  pub fmin_left : (a b : F) → Le (fl.fmin a b) a
  pub fmin_right : (a b : F) → Le (fl.fmin a b) b
  pub fmax_left : (a b : F) → Le a (fl.fmax a b)
  pub fmax_right : (a b : F) → Le b (fl.fmax a b)

fresh_index : (i : ℤ) → is_pos i ≡ true → eq_ℤ i (negsuc 0) ≡ false
fresh_index (pos n) p = refl
fresh_index (negsuc n) p = absurd (cc p)

module _ {F : Type 0} (fl : Float F) (laws : OrderLaws fl) where
  open laws use {Le, le_refl, le_trans, fmin_left, fmin_right, fmax_left, fmax_right}

  -- Some bucket spans the values from `lo` to `hi`.
  abbrev pub Covered : F → F → List (Bucket F) → Type 0
  Covered lo hi [] = ⊥
  Covered lo hi (b ∷ bs) = (Le b.min lo × Le hi b.max) ⊎ Covered lo hi bs

  abbrev pub AllCovered : List (Timestamp × F) → List (Bucket F) → Type 0
  AllCovered [] bs = Unit {0}
  AllCovered ((t, v) ∷ xs) bs = Covered v v bs × AllCovered xs bs

  Covered-wider :
      (lo hi lo' hi' : F) (bs : List (Bucket F))
      → Le lo lo'
      → Le hi' hi
      → Covered lo hi bs
      → Covered lo' hi' bs
  Covered-wider lo hi lo' hi' [] p q c = c
  Covered-wider lo hi lo' hi' (b ∷ bs) p q (inl (x, y)) =
      inl (le_trans b.min lo lo' x p, le_trans hi' hi b.max q y)
  Covered-wider lo hi lo' hi' (b ∷ bs) p q (inr c) = inr (Covered-wider lo hi lo' hi' bs p q c)

  AllCovered-more :
      (b : Bucket F) (xs : List (Timestamp × F)) (bs : List (Bucket F))
      → AllCovered xs bs
      → AllCovered xs (b ∷ bs)
  AllCovered-more b [] bs c = tt
  AllCovered-more b ((t, v) ∷ xs) bs (c, cs) = (inr c, AllCovered-more b xs bs cs)

  module _ (t0 : Timestamp) (bw : F)
      (nonneg : (t : Timestamp) → is_pos (bucket_index fl t0 bw t) ≡ true) where
    down_sample-Covered :
        (idx : ℤ) (cur : Bucket F) (xs : List (Timestamp × F))
        → is_pos idx ≡ true
        → Covered cur.min cur.max (down_sample fl t0 bw idx cur xs)
          × AllCovered xs (down_sample fl t0 bw idx cur xs)
    unfolding down_sample
    down_sample-Covered idx cur [] p = rw p (inl (le_refl cur.min, le_refl cur.max), tt)
    down_sample-Covered idx cur ((t, v) ∷ xs) p =
        elim (Bool-cases (eq_ℤ (bucket_index fl t0 bw t) idx)) [
          | inl same ↦
              let (c, cs) =
                down_sample-Covered idx
                  (record cur { min = fl.fmin cur.min v; max = fl.fmax cur.max v }) xs p in
              rw same (
                Covered-wider _ _ cur.min cur.max _ (fmin_left cur.min v) (fmax_left cur.max v) c,
                (Covered-wider _ _ v v _ (fmin_right cur.min v) (fmax_right cur.max v) c, cs),
              )
          | inr other ↦
              let (c, cs) =
                down_sample-Covered (bucket_index fl t0 bw t) (record { t = t; min = v; max = v })
                  xs (nonneg t) in
              rw (other, p)
                (inl (le_refl cur.min, le_refl cur.max), (inr c, AllCovered-more cur xs _ cs))
        ]

  single_Covered :
      (xs : List (Timestamp × F))
      → AllCovered xs (map (λ s. record { t = s.0; min = s.1; max = s.1 }) xs)
  single_Covered [] = tt
  single_Covered ((t, v) ∷ xs) =
      (inl (le_refl v, le_refl v), AllCovered-more _ xs _ (single_Covered xs))

  -- Nothing of a signal is lost by down-sampling, for an order of the values that `min` and
  -- `max` bound and bucket indices that are not negative: the value of every sample in the range
  -- lies between the minimum and the maximum of some bucket that is returned.
  pub scalar_buckets-AllCovered :
      (found : List (Timestamp × F)) (t0 t1 : Timestamp) (m : ℕ)
      → ((t : Timestamp)
          → is_pos (bucket_index fl t0 (fl.div (fl.of_u64 (t1 - t0)) (fl.of_u64 m)) t) ≡ true)
      → AllCovered found (scalar_buckets fl found t0 t1 m)
  unfolding scalar_buckets
  scalar_buckets-AllCovered found t0 t1 m nonneg = elim (Bool-cases (leb (length found) m)) [
    | inl e ↦ rw (e, scalar_buckets) (single_Covered found)
    | inr e ↦ rw (e, scalar_buckets) (down found)
  ]
    where
      bw : F
      bw = fl.div (fl.of_u64 (t1 - t0)) (fl.of_u64 m)

      start : Bucket F
      start = record { t = 0; min = fl.infinity; max = fl.neg_infinity }

      down : (xs : List (Timestamp × F)) → AllCovered xs (down_sample fl t0 bw (negsuc 0) start xs)
      down [] = tt
      down ((t, v) ∷ xs) =
          let idx = bucket_index fl t0 bw t in
          let (c, cs) =
            down_sample-Covered t0 bw nonneg idx (record { t = t; min = v; max = v }) xs
              (nonneg t) in
          rw (fresh_index idx (nonneg t), down_sample) (c, cs)

-- All samples are earlier than `t1`.
abbrev pub Before : {F : Type 0} → Timestamp → List (Timestamp × F) → Type 0
Before t1 [] = Unit {0}
Before t1 (s ∷ ss) = (s.0 < t1) × Before t1 ss

-- The laws of the division into buckets that the number of buckets rests on.
pub record IndexLaws (index : Timestamp → ℤ) (t1 : Timestamp) (m : ℕ) : Type 0 where
  pub nonneg : (t : Timestamp) → is_pos (index t) ≡ true
  pub mono : (s t : Timestamp) → s ≤ t → pos_part (index s) ≤ pos_part (index t)
  pub below : (t : Timestamp) → t < t1 → pos_part (index t) < m

eq_ℤ-pos_part :
    (a b : ℤ) → is_pos a ≡ true → is_pos b ≡ true → eq_ℤ a b ≡ false → pos_part a ≢ pos_part b
eq_ℤ-pos_part (pos a) (pos b) p q e = ground arith
eq_ℤ-pos_part (pos a) (negsuc b) p q e = absurd (cc q)
eq_ℤ-pos_part (negsuc a) b p q e = absurd (cc p)

IsSorted-weaken :
    {F : Type 0} (now t : Timestamp) (xs : List (Timestamp × F))
    → now ≤ t
    → IsSorted t xs
    → IsSorted now xs
IsSorted-weaken now t [] h s = tt
IsSorted-weaken now t (x ∷ xs) h s = (omega (arith, s.0), s.1)

module _ {F : Type 0} (fl : Float F) (t0 t1 : Timestamp) (m : ℕ) (bw : F)
    (laws : IndexLaws (bucket_index fl t0 bw) t1 m) where
  length-down_sample :
      (now : Timestamp) (cur : Bucket F) (xs : List (Timestamp × F))
      → now < t1
      → IsSorted now xs
      → Before t1 xs
      → length (down_sample fl t0 bw (bucket_index fl t0 bw now) cur xs)
          + pos_part (bucket_index fl t0 bw now)
        ≤ m
  unfolding down_sample
  length-down_sample now cur [] h s b =
      rw (laws.nonneg now, down_sample) (omega (arith, laws.below now h))
  length-down_sample now cur ((t, v) ∷ xs) h s b =
      elim (Bool-cases (eq_ℤ (bucket_index fl t0 bw t) (bucket_index fl t0 bw now))) [
        | inl same ↦
            rw (same, down_sample)
              (length-down_sample now _ xs h (IsSorted-weaken now t xs s.0 s.1) b.1)
        | inr other ↦
            let apart =
              eq_ℤ-pos_part (bucket_index fl t0 bw t) (bucket_index fl t0 bw now) (laws.nonneg t)
                (laws.nonneg now) other in
            rw (other, laws.nonneg now, down_sample)
              (omega (arith, length-down_sample t _ xs b.0 s.1 b.1, laws.mono now t s.0))
      ]

  -- The loop from its start, with no bucket open.
  length-down_sample_new :
      (cur : Bucket F) (xs : List (Timestamp × F))
      → IsSorted 0 xs
      → Before t1 xs
      → length (down_sample fl t0 bw (negsuc 0) cur xs) ≤ m
  unfolding down_sample
  length-down_sample_new cur [] s b = omega arith
  length-down_sample_new cur ((t, v) ∷ xs) s b =
      rw (fresh_index (bucket_index fl t0 bw t) (laws.nonneg t), down_sample)
        (omega (arith, length-down_sample t _ xs b.0 s.1 b.1))

-- `query_scalar` returns no more than `max_buckets` buckets, for samples in the range and in
-- time order, if the index of a bucket is not negative, does not fall with time, and is below
-- `max_buckets` for every time before the end of the range.
pub length-scalar_buckets :
    {F : Type 0} (fl : Float F) (found : List (Timestamp × F)) (t0 t1 : Timestamp) (m : ℕ)
    → IndexLaws (bucket_index fl t0 (fl.div (fl.of_u64 (t1 - t0)) (fl.of_u64 m))) t1 m
    → IsSorted 0 found
    → Before t1 found
    → length (scalar_buckets fl found t0 t1 m) ≤ m
unfolding scalar_buckets
length-scalar_buckets {F} fl found t0 t1 m laws s b = elim (Bool-cases (leb (length found) m)) [
  | inl e ↦
      rw (e, scalar_buckets)
        (omega (
          arith,
          leb→le (length found) m e,
          length-map {B = Bucket F} found (λ s. record { t = s.0; min = s.1; max = s.1 }),
        ))
  | inr e ↦ rw (e, scalar_buckets) (length-down_sample_new fl t0 t1 m _ laws _ found s b)
]
