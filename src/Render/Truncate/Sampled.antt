-- ===== src/Render/Truncate/Sampled.antt =====
-- viewer/crates/btelem-viewer/src/plot_renderers.rs: the rows that `sample_even_over_time` keeps.
use btelem.Prelude.{
  ℕ, zero, suc, ◌+◌, ◌-◌, ◌*◌, ◌/◌, ◌≤◌, ◌<◌, ◌≡◌, refl, sym, ◌∙◌, subst, List, [], ◌∷◌, leb, ◌==◌,
  length, take, max, false, All-weaken, arith, Bool-cases, inl, inr, All, length-take, leb→le,
  ==_iff,
}
use mathlib.Core.List.{Memᴰ, Sublistᴰ}
use mathlib.Core.List.Sublistᴰ
use native.Mathlib.Nat.{
  div-lt_iff_lt-mul, le-div_iff_mul-le, div-mul-le_self, mul-le-mul_right, mul-lt-mul_of_pos_right,
  mul_comm,
}
use btelem.Store.{Timestamp, u64_max}
use btelem.Store.Query.{step_by, first?, last?}
use btelem.Render.LogRows.{LogRow}
use btelem.Render.Truncate.{time_of, bucket_of, one_per_bucket, sample_even_over_time}

module _ {ℓ} {A : Type ℓ} where
  pub Memᴰ-sublist : {x : A} {xs ys : List A} → Sublistᴰ xs ys → Memᴰ x xs → Memᴰ x ys
  Memᴰ-sublist Sublistᴰ.slnil m = m
  Memᴰ-sublist (Sublistᴰ.cons s) m = Memᴰ.tail (Memᴰ-sublist s m)
  Memᴰ-sublist (Sublistᴰ.cons-cons e s) (Memᴰ.head e') = Memᴰ.head (e' ∙ e)
  Memᴰ-sublist (Sublistᴰ.cons-cons e s) (Memᴰ.tail m) = Memᴰ.tail (Memᴰ-sublist s m)

  take-Sublistᴰ : (n : ℕ) (xs : List A) → Sublistᴰ (take n xs) xs
  take-Sublistᴰ zero xs = Sublistᴰ.nil-sublist xs
  take-Sublistᴰ (suc n) [] = Sublistᴰ.slnil
  take-Sublistᴰ (suc n) (x ∷ xs) = Sublistᴰ.cons-cons refl (take-Sublistᴰ n xs)

  step_by-Sublistᴰ : (stride wait : ℕ) (xs : List A) → Sublistᴰ (step_by stride wait xs) xs
  unfolding step_by
  step_by-Sublistᴰ stride wait [] = Sublistᴰ.slnil
  step_by-Sublistᴰ stride zero (x ∷ xs) =
      Sublistᴰ.cons-cons refl (step_by-Sublistᴰ stride (stride - 1) xs)
  step_by-Sublistᴰ stride (suc wait) (x ∷ xs) = Sublistᴰ.cons (step_by-Sublistᴰ stride wait xs)

module _ {F : Type 0} where
  -- The rows are sorted by time, from `b` on.
  abbrev pub Ascending : Timestamp → List (LogRow F) → Type 0
  Ascending b [] = Unit
  Ascending b (r ∷ rows) = (b ≤ r.t) × Ascending r.t rows

  pub Ascending-lower :
      {a b : Timestamp} (rows : List (LogRow F)) → a ≤ b → Ascending b rows → Ascending a rows
  Ascending-lower [] h s = tt
  Ascending-lower (r ∷ rows) h s = (omega (arith, s.0), s.1)

  pub Ascending-sublist :
      {xs ys : List (LogRow F)} → Sublistᴰ xs ys → (b : Timestamp) → Ascending b ys → Ascending b xs
  Ascending-sublist Sublistᴰ.slnil b h = tt
  Ascending-sublist (Sublistᴰ.cons {a = y} {l₁ = xs} s) b h =
      Ascending-lower xs h.0 (Ascending-sublist s y.t h.1)
  Ascending-sublist (Sublistᴰ.cons-cons {b = y} {l₁ = xs} e s) b h =
      subst (λ r. (b ≤ r.t) × Ascending r.t xs) (sym e) (h.0, Ascending-sublist s y.t h.1)

  one_per_bucket-Sublistᴰ :
      (t_first n span last_bucket : ℕ) (rows : List (LogRow F))
      → Sublistᴰ (one_per_bucket t_first n span last_bucket rows) rows
  unfolding one_per_bucket
  one_per_bucket-Sublistᴰ t_first n span lb [] = Sublistᴰ.slnil
  one_per_bucket-Sublistᴰ t_first n span lb (r ∷ rows) =
      elim (Bool-cases (bucket_of t_first n span r.t == lb)) [
        | inl e ↦ rw e (Sublistᴰ.cons (one_per_bucket-Sublistᴰ t_first n span lb rows))
        | inr e ↦ rw e (
            Sublistᴰ.cons-cons refl
              (one_per_bucket-Sublistᴰ t_first n span (bucket_of t_first n span r.t) rows))
      ]

  pub sample_even_over_time-Sublistᴰ :
      (rows : List (LogRow F)) (n : ℕ) → Sublistᴰ (sample_even_over_time rows n) rows
  unfolding sample_even_over_time
  sample_even_over_time-Sublistᴰ rows n = elim (Bool-cases (n == 0)) [
    | inl e ↦ rw e (Sublistᴰ.nil-sublist rows)
    | inr e ↦ elim (Bool-cases (leb (length rows) n)) [
      | inl h ↦ rw (e, h) (Sublistᴰ.refl rows)
      | inr h ↦ elim (Bool-cases (time_of (last? rows) == time_of (first? rows))) [
        | inl d ↦
            let stride = max ((length rows + n - 1) / n) 1 in
            rw (e, h, d)
              (Sublistᴰ.trans (take-Sublistᴰ n (step_by stride 0 rows))
                (step_by-Sublistᴰ stride 0 rows))
        | inr d ↦
            rw (e, h, d)
              (one_per_bucket-Sublistᴰ (time_of (first? rows)) n
                (time_of (last? rows) - time_of (first? rows) + 1) u64_max rows)
      ]
    ]
  ]

-- A later time is in no earlier bucket, and each time up to the last is in one of the `n`.
module _ (t_first n span : ℕ) (small : n ≤ u64_max) where
  quotient-lt : (d : ℕ) → 0 < n → d < span → d * n / span < n
  quotient-lt d pos h =
      let span_pos : 0 < span = omega (arith, h) in
      (div-lt_iff_lt-mul {k = span} span_pos).1
        (subst (λ m. d * n < m) (mul_comm span n) (mul-lt-mul_of_pos_right h pos))

  bucket_of-lt : (t : Timestamp) → 0 < n → t - t_first < span → bucket_of t_first n span t < n
  unfolding bucket_of
  bucket_of-lt t pos h = omega (arith, quotient-lt (t - t_first) pos h, small)

  bucket_of_mono :
      (a b : Timestamp)
      → 0 < n
      → a ≤ b
      → b - t_first < span
      → bucket_of t_first n span a ≤ bucket_of t_first n span b
  unfolding bucket_of
  bucket_of_mono a b pos h below =
      let span_pos : 0 < span = omega (arith, below) in
      let a_below : a - t_first < span = omega (arith, h, below) in
      let scaled : (a - t_first) * n ≤ (b - t_first) * n = mul-le-mul_right n (omega (arith, h)) in
      let quotients : (a - t_first) * n / span ≤ (b - t_first) * n / span =
        (le-div_iff_mul-le {k = span} span_pos).1
          (omega (arith, scaled, div-mul-le_self ((a - t_first) * n) span)) in
      omega (
        arith,
        quotients,
        quotient-lt (a - t_first) pos a_below,
        quotient-lt (b - t_first) pos below,
        small,
      )

  module _ {F : Type 0} (pos : 0 < n) where
    -- The buckets after the one of `t` bound what is still kept.
    length-one_per_bucket_after :
        (rows : List (LogRow F)) (t : Timestamp) (lb : ℕ)
        → Ascending t rows
        → All (λ r. r.t - t_first < span) rows
        → lb ≡ bucket_of t_first n span t
        → length (one_per_bucket t_first n span lb rows) ≤ n - 1 - lb
    unfolding one_per_bucket
    length-one_per_bucket_after [] t lb sorted below e = omega arith
    length-one_per_bucket_after (r ∷ rows) t lb sorted below e =
        let b = bucket_of t_first n span r.t in
        let later = bucket_of_mono t r.t pos sorted.0 below.0 in
        let inside = bucket_of-lt r.t pos below.0 in
        elim (Bool-cases (b == lb)) [
          | inl d ↦
              rw d
                (length-one_per_bucket_after rows r.t lb sorted.1 below.1 (sym ((==_iff b lb).0 d)))
          | inr d ↦
              let rest = length-one_per_bucket_after rows r.t b sorted.1 below.1 refl in
              rw d (ground (arith, rest, later, inside, e, d))
        ]

    -- No bucket has the number that stands for none.
    length-one_per_bucket :
        (rows : List (LogRow F)) (t : Timestamp)
        → Ascending t rows
        → All (λ r. r.t - t_first < span) rows
        → length (one_per_bucket t_first n span u64_max rows) ≤ n
    unfolding one_per_bucket
    length-one_per_bucket [] t sorted below = omega arith
    length-one_per_bucket (r ∷ rows) t sorted below =
        let b = bucket_of t_first n span r.t in
        let inside = bucket_of-lt r.t pos below.0 in
        let rest = length-one_per_bucket_after rows r.t b sorted.1 below.1 refl in
        let other : (b == u64_max) ≡ false = ground (arith, inside, small) in
        rw other (omega (arith, rest, inside))

module _ {F : Type 0} where
  Ascending-last :
      (rows : List (LogRow F)) (b : Timestamp)
      → Ascending b rows
      → All (λ r. r.t ≤ time_of (last? rows)) rows
  Ascending-last [] b h = tt
  Ascending-last (r ∷ []) b h = (omega arith, tt)
  Ascending-last (r ∷ r' ∷ rows) b h =
      let rest = Ascending-last (r' ∷ rows) r.t h.1 in (omega (arith, h.1.0, rest.0), rest)

  pub length-sample_even_over_time :
      (rows : List (LogRow F)) (n : ℕ) (b : Timestamp)
      → n ≤ u64_max
      → Ascending b rows
      → length (sample_even_over_time rows n) ≤ n
  unfolding sample_even_over_time
  length-sample_even_over_time rows n b small sorted = elim (Bool-cases (n == 0)) [
    | inl e ↦ rw e (omega arith)
    | inr e ↦ elim (Bool-cases (leb (length rows) n)) [
      | inl h ↦ rw (e, h) (leb→le (length rows) n h)
      | inr h ↦ elim (Bool-cases (time_of (last? rows) == time_of (first? rows))) [
        | inl d ↦
            let stride = max ((length rows + n - 1) / n) 1 in
            rw (e, h, d) (omega (arith, length-take n (step_by stride 0 rows)))
        | inr d ↦
            let t_first = time_of (first? rows) in
            let span = time_of (last? rows) - t_first + 1 in
            rw (e, h, d)
              (length-one_per_bucket t_first n span small (ground (arith, e)) rows b sorted (
                All-weaken (λ r. r.t ≤ time_of (last? rows)) rows (λ r below. omega (arith, below))
                  (Ascending-last rows b sorted)))
      ]
    ]
  ]
