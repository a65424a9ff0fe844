-- ===== src/Prelude/Bytes.antt =====
-- Byte strings: a byte is a number below 256, a slice is a list of bytes.
-- Little-endian words, slices, and the predicate that a piece stands at an offset.
use Prim.Native.Nat.{ℕ, zero, suc, ◌+◌, ◌*◌, ◌/◌, ◌%◌, ◌^◌, ◌≤◌, ◌<◌}
use Prim.Native.Char.{code}
use Prim.Native.String.{String}
use mathlib.Core.Path.{◌≡◌, refl, ap, sym, ◌∙◌, subst}
use mathlib.Core.List.{List, [], ◌∷◌, ◌++◌, append_assoc, append-nil}
use native.Mathlib.Omega.{arith}
use native.Mathlib.Nat.{pow-suc, zero-add, suc-add}
use mathlib.Core.Logic.{inl, inr}
use mathlib.Core.Bool.{Bool}
use btelem.Prelude.Tests.{Bool-cases}
use btelem.Prelude.Maps.{retain}
use btelem.Prelude.Lists.{length, take, drop, length-append, length-drop, get_or}

-- A Rust `String` or `&str`, as its bytes.
abbrev pub Text : Type 0
Text = List ℕ

-- The bytes of an ASCII literal.
abbrev pub codes : String → Text
codes String.[] = []
codes (String.◌∷◌ c s) = code c ∷ codes s

abbrev pub All {ℓ} : {A : Type ℓ} → (A → Type 0) → List A → Type 0
All P [] = Unit {0}
All P (x ∷ xs) = P x × All P xs

module _ {ℓ} {A : Type ℓ} (P : A → Type 0) where
  pub All-append : (xs : List A) (y : A) → All P xs → P y → All P (xs ++ (y ∷ []))
  All-append [] y h p = (p, tt)
  All-append (x ∷ xs) y h p = (h.0, All-append xs y h.1 p)

  pub All-weaken : {Q : A → Type 0} (xs : List A) → ((x : A) → P x → Q x) → All P xs → All Q xs
  All-weaken [] f h = tt
  All-weaken (x ∷ xs) f h = (f x h.0, All-weaken xs f h.1)

  pub All-retain : (p : A → Bool) (xs : List A) → All P xs → All P (retain p xs)
  All-retain p [] h = tt
  All-retain p (x ∷ xs) h = elim (Bool-cases (p x)) [
    | inl e ↦ rw (e, retain) (h.0, All-retain p xs h.1)
    | inr e ↦ rw (e, retain) (All-retain p xs h.1)
  ]

abbrev pub IsByte : ℕ → Type 0
IsByte b = b < 256

-- `uN::from_le_bytes`.
abbrev pub from_le : List ℕ → ℕ
from_le [] = 0
from_le (b ∷ bs) = b + 256 * from_le bs

-- `v.to_le_bytes()` of a word of `n` bytes.
abbrev pub to_le : ℕ → ℕ → List ℕ
to_le zero v = []
to_le (suc n) v = v % 256 ∷ to_le n (v / 256)

pub length-to_le : (n v : ℕ) → length (to_le n v) ≡ n
length-to_le zero v = refl
length-to_le (suc n) v = ap suc (length-to_le n (v / 256))

pub to_le-IsByte : (n v : ℕ) → All IsByte (to_le n v)
to_le-IsByte zero v = tt
to_le-IsByte (suc n) v = (omega arith, to_le-IsByte n (v / 256))

-- A word that fits is read back.
pub from_le-to_le : (n v : ℕ) → v < 256 ^ n → from_le (to_le n v) ≡ v
from_le-to_le zero v h = omega arith
from_le-to_le (suc n) v h = omega (arith, from_le-to_le n (v / 256) fits)
  where
    fits : v / 256 < 256 ^ n
    fits = omega (arith, pow-suc 256 n)

pub from_le-lt : (bs : List ℕ) → All IsByte bs → from_le bs < 256 ^ length bs
from_le-lt [] h = omega arith
from_le-lt (b ∷ bs) h = omega (arith, pow-suc 256 (length bs), from_le-lt bs h.1)

module _ {ℓ} {A : Type ℓ} where
  -- `&buf[off..off + n]`, for a range within the buffer.
  abbrev pub slice : List A → ℕ → ℕ → List A
  slice buf off n = take n (drop off buf)

  -- `x` stands in `buf` at `off`.
  pub record At (buf : List A) (off : ℕ) (x : List A) : Type ℓ where
    pub rest : List A
    pub here : drop off buf ≡ x ++ rest

  pub take-append : (x y : List A) → take (length x) (x ++ y) ≡ x
  take-append [] y = refl
  take-append (a ∷ x) y = ap (◌∷◌ a) (take-append x y)

  pub drop-append : (x y : List A) → drop (length x) (x ++ y) ≡ y
  drop-append [] y = refl
  drop-append (a ∷ x) y = drop-append x y

  pub drop-nil : (n : ℕ) → drop {A = A} n [] ≡ []
  drop-nil zero = refl
  drop-nil (suc n) = refl

  pub drop-add : (m n : ℕ) (xs : List A) → drop (m + n) xs ≡ drop n (drop m xs)
  drop-add zero n xs = rw zero-add
  drop-add (suc m) n [] = drop-nil (suc m + n) ∙ sym (drop-nil n)
  drop-add (suc m) n (x ∷ xs) = rw suc-add (drop-add m n xs)

  pub slice-At :
      {buf : List A} {off : ℕ} {x : List A} (n : ℕ)
      → length x ≡ n
      → At buf off x
      → slice buf off n ≡ x
  slice-At {x} n e a = rw (a.here, ← e) (take-append x a.rest)

  pub At-head : {buf : List A} {off : ℕ} (x y : List A) → At buf off (x ++ y) → At buf off x
  At-head x y a = record { rest = y ++ a.rest; here = a.here ∙ append_assoc x y a.rest }

  pub At-tail :
      {buf : List A} {off : ℕ} (x y : List A) → At buf off (x ++ y) → At buf (off + length x) y
  At-tail {buf} {off} x y a = record {
    rest = a.rest;
    here =
        drop-add off (length x) buf
        ∙ ap (drop (length x)) (a.here ∙ append_assoc x y a.rest)
        ∙ drop-append x (y ++ a.rest);
  }

  pub At-fits :
      {buf : List A} {off : ℕ} {x : List A}
      → At buf off x
      → 0 < length x
      → off + length x ≤ length buf
  At-fits {buf} {off} {x} a h =
      omega (arith, ap length a.here, length-append x a.rest, length-drop off buf)

  pub get_or-drop :
      (buf : List A) (off k : ℕ) (d : A) → get_or buf (off + k) d ≡ get_or (drop off buf) k d
  get_or-drop buf zero k d = rw zero-add
  get_or-drop [] (suc off) k d = refl
  get_or-drop (x ∷ buf) (suc off) k d = rw suc-add (get_or-drop buf off k d)

  pub At-move :
      {buf : List A} {off off' : ℕ} {x : List A} → off ≡ off' → At buf off x → At buf off' x
  At-move {buf} {x} e a = subst (λ k. At buf k x) e a

  pub At-whole : (x : List A) → At x 0 x
  At-whole x = record { rest = []; here = sym (append-nil x) }

  -- The two parts of a concatenation, the second at an offset that is written in another way.
  pub At-split :
      {buf : List A} {off : ℕ} (x y : List A) (off' : ℕ)
      → At buf off (x ++ y)
      → off + length x ≡ off'
      → At buf off x × At buf off' y
  At-split x y off' a e = (At-head x y a, At-move e (At-tail x y a))

-- The encodings of the items, one after the other.
abbrev pub flat {ℓ} : {A : Type ℓ} → (A → List ℕ) → List A → List ℕ
flat enc [] = []
flat enc (x ∷ xs) = enc x ++ flat enc xs

-- Items of one size fill that many times their number.
pub length-flat :
    {A : Type 0} (enc : A → List ℕ) (P : A → Type 0) (size : ℕ)
    → ((x : A) → P x → length (enc x) ≡ size)
    → (xs : List A) → All P xs
    → length (flat enc xs) ≡ length xs * size
length-flat enc P size each [] ps = omega arith
length-flat enc P size each (x ∷ xs) ps =
    grind
      (arith, length-append (enc x) (flat enc xs), each x ps.0, length-flat enc P size each xs ps.1)
