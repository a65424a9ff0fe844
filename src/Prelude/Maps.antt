-- ===== src/Prelude/Maps.antt =====
-- Searches in lists, and a `HashMap` as an association list in which a key stands once.
use Prim.Native.Nat.{ℕ}
use mathlib.Core.Path.{◌≡◌, refl, ◌∙◌}
use mathlib.Core.List.{List, [], ◌∷◌, ◌++◌, append_assoc, append-nil}
use mathlib.Core.Option.{Option, none, some}
use mathlib.Core.Bool.{Bool, false, not, ◌||◌}
use native.Mathlib.Omega.{arith}
use btelem.Prelude.Tests.{◌==◌, if◌then◌else◌}

module _ {ℓ} {A : Type ℓ} where
  -- `iter().find(p)`
  abbrev pub find : (A → Bool) → List A → Option A
  find p [] = none
  find p (x ∷ xs) = if p x then some x else find p xs

  -- `iter().any(p)`
  abbrev pub any : (A → Bool) → List A → Bool
  any p [] = false
  any p (x ∷ xs) = p x || any p xs

  -- `retain(p)`
  abbrev pub retain : (A → Bool) → List A → List A
  retain p [] = []
  retain p (x ∷ xs) = if p x then x ∷ retain p xs else retain p xs

module _ {ℓ} {V : Type ℓ} where
  -- `map.get(&k)`
  abbrev pub map_get : ℕ → List (ℕ × V) → Option V
  map_get k [] = none
  map_get k ((j, v) ∷ m) = if j == k then some v else map_get k m

  -- `map.insert(k, v)`
  abbrev pub map_insert : ℕ → V → List (ℕ × V) → List (ℕ × V)
  map_insert k v [] = (k, v) ∷ []
  map_insert k v ((j, w) ∷ m) = if j == k then (k, v) ∷ m else (j, w) ∷ map_insert k v m

  -- `map.remove(&k)`
  abbrev pub map_remove : ℕ → List (ℕ × V) → List (ℕ × V)
  map_remove k = retain (λ e. not (e.0 == k))

  pub map_get-map_insert :
      (k j : ℕ) (v : V) (m : List (ℕ × V))
      → map_get j (map_insert k v m) ≡ (if k == j then some v else map_get j m)
  map_get-map_insert k j v [] = refl
  map_get-map_insert k j v ((i, w) ∷ m) = ground (arith, map_get-map_insert k j v m)

  pub map_get-map_remove :
      (k j : ℕ) (m : List (ℕ × V))
      → map_get j (map_remove k m) ≡ (if k == j then none else map_get j m)
  map_get-map_remove k j [] = ground arith
  map_get-map_remove k j ((i, w) ∷ m) = ground (arith, map_get-map_remove k j m)

-- `iter().filter_map(f).collect()`
abbrev pub filter_map {ℓ κ} : {A : Type ℓ} {B : Type κ} → (A → Option B) → List A → List B
filter_map f [] = []
filter_map f (x ∷ xs) = elim (f x) [ none ↦ filter_map f xs | some y ↦ y ∷ filter_map f xs ]

pub filter_map-some {ℓ κ} :
    {A : Type ℓ} {B : Type κ} (f : A → Option B) (x : A) (xs : List A) {y : B}
    → f x ≡ some y
    → filter_map f (x ∷ xs) ≡ y ∷ filter_map f xs
filter_map-some f x xs h = rw (h, filter_map) refl

-- `set.contains(&x)`, `set.insert(x)` and `set.extend(xs)` of a `HashSet` of numbers.
abbrev pub set_has : List ℕ → ℕ → Bool
set_has s x = any (λ y. y == x) s

abbrev pub set_insert : List ℕ → ℕ → List ℕ
set_insert s x = if set_has s x then s else s ++ (x ∷ [])

abbrev pub set_extend : List ℕ → List ℕ → List ℕ
set_extend s [] = s
set_extend s (x ∷ xs) = set_extend (set_insert s x) xs

-- No number stands twice.
abbrev pub Distinct : List ℕ → Type 0
Distinct [] = Unit
Distinct (x ∷ xs) = (set_has xs x ≡ false) × Distinct xs

pub set_has-append :
    (xs ys : List ℕ) (x : ℕ) → set_has (xs ++ ys) x ≡ (set_has xs x || set_has ys x)
set_has-append [] ys x = refl
set_has-append (y ∷ xs) ys x = ground (arith, set_has-append xs ys x)

-- What follows in a list without repetition is not in front.
pub Distinct-front :
    (xs : List ℕ) (x : ℕ) (ys : List ℕ) → Distinct (xs ++ (x ∷ ys)) → set_has xs x ≡ false
Distinct-front [] x ys d = refl
Distinct-front (y ∷ xs) x ys d =
    ground (arith, Distinct-front xs x ys d.1, set_has-append xs (x ∷ ys) y, d.0)

pub set_extend-Distinct : (xs ys : List ℕ) → Distinct (xs ++ ys) → set_extend xs ys ≡ xs ++ ys
set_extend-Distinct xs [] d = rw append-nil
set_extend-Distinct xs (y ∷ ys) d =
    let d' : Distinct ((xs ++ (y ∷ [])) ++ ys) = rw (append_assoc) d in
    rw (Distinct-front xs y ys d)
      (set_extend-Distinct (xs ++ (y ∷ [])) ys d' ∙ append_assoc xs (y ∷ []) ys)
