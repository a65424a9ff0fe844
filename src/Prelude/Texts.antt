-- ===== src/Prelude/Texts.antt =====
-- Equality of texts, and a `HashMap<String, V>` as an association list in which a key stands once.
use mathlib.Core.Path.{◌≡◌, refl}
use mathlib.Core.Logic.{◌↔◌}
use mathlib.Core.List.{List, [], ◌∷◌}
use mathlib.Core.Option.{Option, none, some}
use mathlib.Core.Bool.{Bool, true, false}
use native.Mathlib.Omega.{arith}
use btelem.Prelude.Tests.{◌==◌, ==_refl, if◌then◌else◌}
use btelem.Prelude.Bytes.{Text}

abbrev pub text_eq : Text → Text → Bool
text_eq [] [] = true
text_eq (c ∷ s) (d ∷ t) = if c == d then text_eq s t else false
text_eq _ _ = false

pub text_eq_refl : (s : Text) → text_eq s s ≡ true
text_eq_refl [] = refl
text_eq_refl (c ∷ s) = rw (==_refl c) (text_eq_refl s)

pub text_eq→eq : (s t : Text) → text_eq s t ≡ true → s ≡ t
text_eq→eq [] [] h = refl
text_eq→eq [] (d ∷ t) h = cc
text_eq→eq (c ∷ s) [] h = cc
text_eq→eq (c ∷ s) (d ∷ t) h = ground (arith, text_eq→eq s t)

pub text_eq_iff : (s t : Text) → (text_eq s t ≡ true) ↔ (s ≡ t)
text_eq_iff s t = (text_eq→eq s t, λ e. rw e (text_eq_refl t))

module _ {ℓ} {V : Type ℓ} where
  -- `map.get(s)`
  abbrev pub text_get : Text → List (Text × V) → Option V
  text_get k [] = none
  text_get k ((j, v) ∷ m) = if text_eq j k then some v else text_get k m

  -- `map.insert(s, v)`
  abbrev pub text_insert : Text → V → List (Text × V) → List (Text × V)
  text_insert k v [] = (k, v) ∷ []
  text_insert k v ((j, w) ∷ m) = if text_eq j k then (k, v) ∷ m else (j, w) ∷ text_insert k v m

  pub text_get-text_insert :
      (k j : Text) (v : V) (m : List (Text × V))
      → text_get j (text_insert k v m) ≡ (if text_eq k j then some v else text_get j m)
  text_get-text_insert k j v [] = refl
  text_get-text_insert k j v ((i, w) ∷ m) =
      ground
        (arith, text_get-text_insert k j v m, text_eq_iff i k, text_eq_iff i j, text_eq_iff k j)
