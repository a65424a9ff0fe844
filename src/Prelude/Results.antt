-- ===== src/Prelude/Results.antt =====
-- Rust's `Result<T, E>` with the `?` operator as a bind, and the bind of `Option`.
use mathlib.Core.Path.{◌≡◌, refl, ap}
use mathlib.Core.Logic.{◌⊎◌, inl, inr}

pub data Result (E A : Type 0) : Type 0 where
  ok : A → Result E A
  err : E → Result E A

infixl 5 ◌>>=◌ ◌>>◌
abbrev pub ◌>>=◌ : {E A B : Type 0} → Result E A → (A → Result E B) → Result E B
ok a >>= f = f a
err e >>= f = err e

abbrev pub ◌>>◌ : {E B : Type 0} → Result E (Unit {0}) → Result E B → Result E B
m >> k = m >>= λ _. k

-- Inversion of a successful bind: the value of the first part is a variable of what follows.
pub of_bind {ℓ} :
    {E A B : Type 0} {P : Type ℓ} (m : Result E A) {f : A → Result E B} {b : B}
    → (m >>= f) ≡ ok b
    → ((a : A) → m ≡ ok a → f a ≡ ok b → P)
    → P
of_bind (ok a) h k = k a refl h
of_bind (err e) h k = absurd (cc h)

-- A bind over a computed result.
pub >>=_ok :
    {E A B : Type 0} {m : Result E A} (f : A → Result E B) {a : A} → m ≡ ok a → (m >>= f) ≡ f a
>>=_ok f h = rw h

-- A Rust panic, which ends the thread.
pub data Panic : Type 0 where
  index_out_of_bounds : Panic

-- A computation that may panic.
abbrev pub Checked : Type 0 → Type 0
Checked A = Result Panic A

abbrev from_ok : {E A : Type 0} → A → Result E A → A
from_ok d (ok a) = a
from_ok d (err e) = d

pub ok-injective : {E A : Type 0} {a b : A} → ◌≡◌ {A = Result E A} (ok a) (ok b) → a ≡ b
ok-injective {a} h = ap (from_ok a) h

pub Result-cases :
    {E A : Type 0} (r : Result E A) → ((a : A) × (r ≡ ok a)) ⊎ ((e : E) × (r ≡ err e))
Result-cases (ok a) = inl (a, refl)
Result-cases (err e) = inr (e, refl)
