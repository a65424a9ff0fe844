-- ===== src/View/Layout/Restored/Order.antt =====
-- viewer/crates/btelem-viewer/src/layout.rs: the order in which `capture` takes the plots, as a list
-- without repetition.
use btelem.Prelude.{
  ℕ, suc, ◌<◌, ◌≡◌, refl, ◌∙◌, ap, sym, true, false, ◌||◌, List, [], ◌∷◌, ◌++◌, Option, some, ◌==◌,
  ==_refl, arith, set_has, set_has-append, set_extend, set_insert, Distinct, length, get_elem?,
  map_get, filter_map, All, All-append, Bool-cases, inl, inr, Option-cases, some-injective,
}
use btelem.View.Layout.Resolve.{position}
use btelem.View.Layout.Restored.Entries.{keys}

Distinct-append : (s : List ℕ) (x : ℕ) → set_has s x ≡ false → Distinct s → Distinct (s ++ (x ∷ []))
Distinct-append [] x h d = (refl, tt)
Distinct-append (y ∷ s) x h d = (
  ground (arith, set_has-append s (x ∷ []) y, d.0, h),
  Distinct-append s x (ground (arith, h)) d.1,
)

Distinct-set_insert : (s : List ℕ) (x : ℕ) → Distinct s → Distinct (set_insert s x)
Distinct-set_insert s x d = elim (Bool-cases (set_has s x)) [
  | inl e ↦ rw (e, set_insert) d
  | inr e ↦ rw (e, set_insert) (Distinct-append s x e d)
]

pub Distinct-set_extend : (s xs : List ℕ) → Distinct s → Distinct (set_extend s xs)
Distinct-set_extend s [] d = d
Distinct-set_extend s (x ∷ xs) d =
    Distinct-set_extend (set_insert s x) xs (Distinct-set_insert s x d)

set_has-set_insert : (s : List ℕ) (x y : ℕ) → set_has (set_insert s x) y ≡ (set_has s y || x == y)
set_has-set_insert s x y = elim (Bool-cases (set_has s x)) [
  | inl e ↦
      rw (e, set_insert)
        (elim (Bool-cases (x == y)) [
          | inl k ↦
              let same : x ≡ y = ground (arith, k) in
              rw k (let h : set_has s y ≡ true = rw same at e in rw h refl)
          | inr k ↦ rw k (ground arith)
        ])
  | inr e ↦ rw (e, set_insert) (ground (arith, set_has-append s (x ∷ []) y))
]

pub set_has-set_extend :
    (s xs : List ℕ) (y : ℕ) → set_has (set_extend s xs) y ≡ (set_has s y || set_has xs y)
set_has-set_extend s [] y = ground arith
set_has-set_extend s (x ∷ xs) y =
    ground (arith, set_has-set_extend (set_insert s x) xs y, set_has-set_insert s x y)

module _ (P : ℕ → Type 0) where
  All-set_insert : (s : List ℕ) (x : ℕ) → All P s → P x → All P (set_insert s x)
  All-set_insert s x h p = elim (Bool-cases (set_has s x)) [
    | inl e ↦ rw (e, set_insert) h
    | inr e ↦ rw (e, set_insert) (All-append P s x h p)
  ]

  pub All-set_extend : (s xs : List ℕ) → All P s → All P xs → All P (set_extend s xs)
  All-set_extend s [] h k = h
  All-set_extend s (x ∷ xs) h k = All-set_extend (set_insert s x) xs (All-set_insert s x h k.0) k.1

  pub All-of_has : (xs : List ℕ) → ((x : ℕ) → set_has xs x ≡ true → P x) → All P xs
  All-of_has [] h = tt
  All-of_has (x ∷ xs) h =
      (h x (rw (==_refl x) refl), All-of_has xs (λ y e. h y (ground (arith, e))))

  pub All-has : (xs : List ℕ) (x : ℕ) → All P xs → set_has xs x ≡ true → P x
  All-has [] x h e = absurd (cc e)
  All-has (y ∷ xs) x h e = elim (Bool-cases (y == x)) [
    | inl k ↦ let same : y ≡ x = ground (arith, k) in rw same at h.0
    | inr k ↦ All-has xs x h.1 (ground (arith, e, k))
  ]

-- A key of a map has a value, and what has a value is a key.
pub map_get-key :
    {V : Type 0} (m : List (ℕ × V)) (k : ℕ)
    → set_has (keys m) k ≡ true
    → (v : V) × (map_get k m ≡ some v)
map_get-key [] k h = absurd (cc h)
map_get-key ((j, w) ∷ m) k h = elim (Bool-cases (j == k)) [
  | inl e ↦ (w, rw e refl)
  | inr e ↦ let (v, found) = map_get-key m k (ground (arith, h, e)) in (v, rw e found)
]

pub key-of_get :
    {V : Type 0} (m : List (ℕ × V)) (k : ℕ) {v : V}
    → map_get k m ≡ some v
    → set_has (keys m) k ≡ true
key-of_get [] k h = absurd (cc h)
key-of_get ((j, w) ∷ m) k h = elim (Bool-cases (j == k)) [
  | inl e ↦ rw e refl
  | inr e ↦ rw e (key-of_get m k (rw e at h))
]

-- The place of a member, and what a list of values has there.
pub position-member :
    (xs : List ℕ) (x : ℕ)
    → set_has xs x ≡ true
    → (k : ℕ) × (position xs x ≡ some k) × (k < length xs)
position-member [] x h = absurd (cc h)
position-member (y ∷ xs) x h = elim (Bool-cases (y == x)) [
  | inl e ↦ (0, rw e refl, omega arith)
  | inr e ↦
      let (k, p, l) = position-member xs x (ground (arith, h, e)) in
      (suc k, rw (e, p) refl, omega arith)
]

module _ {V : Type 0} (f : ℕ → Option V) where
  pub length-filter_map_total :
      (xs : List ℕ) → All (λ x. (v : V) × (f x ≡ some v)) xs → length (filter_map f xs) ≡ length xs
  length-filter_map_total [] h = refl
  length-filter_map_total (x ∷ xs) h =
      rw (h.0.1, filter_map) (ap suc (length-filter_map_total xs h.1))

  pub get_elem?-filter_map_total :
      (xs : List ℕ) (x k : ℕ)
      → All (λ x. (v : V) × (f x ≡ some v)) xs
      → position xs x ≡ some k
      → get_elem? (filter_map f xs) k ≡ f x
  get_elem?-filter_map_total [] x k h p = absurd (cc p)
  get_elem?-filter_map_total (y ∷ xs) x k h p = elim (Bool-cases (y == x)) [
    | inl e ↦
        let same : y ≡ x = ground (arith, e) in
        let zero_k : 0 ≡ k = some-injective (rw e at p) in
        rw (h.0.1, ← zero_k, filter_map) (sym h.0.1 ∙ ap f same)
    | inr e ↦ elim (Option-cases (position xs x)) [
      | inl n ↦ absurd (ground (arith, e, n, p))
      | inr (j, n) ↦
          let suc_k : suc j ≡ k = ground (arith, e, n, p) in
          rw (h.0.1, ← suc_k, filter_map) (get_elem?-filter_map_total xs x j h.1 n)
    ]
  ]
