-- ===== src/Float.antt =====
-- `f64` as the viewer uses it. Its carrier and operations are a parameter of the model: no
-- property rests on how a particular sum is rounded, and the ones that need a law of the order
-- or of a conversion take it as a hypothesis.
use btelem.Prelude.{ℕ, ◌*◌, ◌+◌, ◌-◌, ◌^◌, ◌/◌, Bool, ltb, if◌then◌else◌}
use btelem.Prelude.Int.{ℤ, pos, negsuc, sub_ℕ, pos_part, neg_part, ◌+ℤ◌, ◌-ℤ◌, ◌*ℤ◌}

pub record Float (F : Type 0) : Type 0 where
  -- `x as f64` of an unsigned and of a signed integer
  pub of_u64 : ℕ → F
  pub of_i64 : ℤ → F
  -- `f32::from_le_bytes(..) as f64` and `f64::from_le_bytes(..)` of the word that was read
  pub of_f32_bits : ℕ → F
  pub of_f64_bits : ℕ → F
  pub infinity : F
  pub neg_infinity : F
  pub add : F → F → F
  pub sub : F → F → F
  pub mul : F → F → F
  pub div : F → F → F
  pub fmin : F → F → F
  pub fmax : F → F → F
  pub lt : F → F → Bool
  -- `x.floor() as i64` and `x as u64`
  pub floor : F → ℤ
  pub to_u64 : F → ℕ
  pub to_u32 : F → ℕ

-- The two's complement value of a word of which the top bit weighs `half`.
abbrev pub signed : ℕ → ℕ → ℤ
signed half x = if ltb x half then pos x else negsuc (2 * half - x - 1)

abbrev lt_ℤ : ℤ → ℤ → Bool
lt_ℤ a b = ltb (pos_part a + neg_part b) (pos_part b + neg_part a)

abbrev int_div : ℤ → ℤ → ℤ
int_div a b = sub_ℕ (pos_part a / pos_part b) (neg_part a / pos_part b)

-- Whole numbers, with which the tests run.
unfoldable pub whole : Float ℤ
unfolding ◌+ℤ◌ ◌-ℤ◌ ◌*ℤ◌
whole = record {
  of_u64 = pos;
  of_i64 = λ x. x;
  of_f32_bits = λ x. pos x;
  of_f64_bits = λ x. pos x;
  infinity = pos (2 ^ 64);
  neg_infinity = negsuc (2 ^ 64);
  add = ◌+ℤ◌;
  sub = ◌-ℤ◌;
  mul = ◌*ℤ◌;
  div = int_div;
  fmin = λ a b. if lt_ℤ b a then b else a;
  fmax = λ a b. if lt_ℤ a b then b else a;
  lt = lt_ℤ;
  floor = λ x. x;
  to_u64 = pos_part;
  to_u32 = pos_part;
}
