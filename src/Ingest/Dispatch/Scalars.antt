-- ===== src/Ingest/Dispatch/Scalars.antt =====
-- viewer/crates/btelem-ingest/src/mapper.rs: what `read_scalar` gives for a number that stands in the
-- payload, and when it panics.
use btelem.Prelude.{
  ℕ, ◌+◌, ◌-◌, ◌*◌, ◌%◌, ◌^◌, ◌≤◌, ◌<◌, ◌≡◌, refl, ap, ◌∙◌, ◌↔◌, inl, inr, Bool, true, false, List,
  [], ◌∷◌, Option, some, ok, err, index_out_of_bounds, Checked, arith, ltb, ltb-false, ltb_no,
  lt→ltb, Bool-cases, length, length-take, length-drop, length-append, slice, slice-At, At, to_le,
  length-to_le, from_le, from_le-to_le, drop,
}
use btelem.Prelude.Int.{ℤ, pos, negsuc}
use btelem.Float.{Float, signed}
use btelem.Wire.Schema.{FieldType}
use btelem.Ingest.Dispatch.{scalar_of, read_scalar}

-- The types that are read by an index into the slice.
abbrev pub is_byte : FieldType → Bool
is_byte FieldType.u8 = true
is_byte FieldType.i8 = true
is_byte _ = false

-- The integer types, with their number of bytes.
pub data IsUnsigned : FieldType → ℕ → Type 0 where
  u8 : IsUnsigned FieldType.u8 1
  u16 : IsUnsigned FieldType.u16 2
  u32 : IsUnsigned FieldType.u32 4
  u64 : IsUnsigned FieldType.u64 8

pub data IsSigned : FieldType → ℕ → Type 0 where
  i8 : IsSigned FieldType.i8 1
  i16 : IsSigned FieldType.i16 2
  i32 : IsSigned FieldType.i32 4
  i64 : IsSigned FieldType.i64 8

-- Two's complement in `n` bytes.
abbrev pub complement : ℕ → ℤ → ℕ
complement n (pos k) = k
complement n (negsuc k) = 256 ^ n - 1 - k

-- A number that `n` bytes can hold with a sign.
abbrev pub InRange : ℕ → ℤ → Type 0
InRange n (pos k) = 2 * k < 256 ^ n
InRange n (negsuc k) = 2 * k < 256 ^ n

signed-complement :
    (n half : ℕ) → 2 * half ≡ 256 ^ n → (z : ℤ) → InRange n z → signed half (complement n z) ≡ z
signed-complement n half e (pos k) h = rw (lt→ltb k half (omega (arith, e, h)))
signed-complement n half e (negsuc k) h =
    rw (ltb_no (256 ^ n - 1 - k) half (omega (arith, e, h))) (ap negsuc (omega (arith, e, h)))

complement-lt : (n : ℕ) (z : ℤ) → InRange n z → complement n z < 256 ^ n
complement-lt n (pos k) h = omega arith
complement-lt n (negsuc k) h = omega arith

unsigned_pos : {ty : FieldType} {n : ℕ} → IsUnsigned ty n → 0 < n
unsigned_pos u8 = omega arith
unsigned_pos u16 = omega arith
unsigned_pos u32 = omega arith
unsigned_pos u64 = omega arith

signed_pos : {ty : FieldType} {n : ℕ} → IsSigned ty n → 0 < n
signed_pos i8 = omega arith
signed_pos i16 = omega arith
signed_pos i32 = omega arith
signed_pos i64 = omega arith

module _ {F : Type 0} (fl : Float F) where
  signed_word :
      (n half : ℕ)
      → 2 * half ≡ 256 ^ n
      → (z : ℤ) → InRange n z
      → ◌≡◌ {A = Checked (Option F)}
          (ok (some (fl.of_i64 (signed half (from_le (to_le n (complement n z)))))))
          (ok (some (fl.of_i64 z)))
  signed_word n half e z h =
      ap (λ x. ok (some (fl.of_i64 x)))
        (ap (signed half) (from_le-to_le n (complement n z) (complement-lt n z h))
          ∙ signed-complement n half e z h)

  read_scalar-inside :
      (ty : FieldType) (payload x : List ℕ) (offset n : ℕ)
      → At payload offset x
      → length x ≡ n
      → 0 < n
      → read_scalar fl ty payload offset n ≡ scalar_of fl ty x
  unfolding read_scalar
  read_scalar-inside ty payload x offset n a e h =
      rw
        (
          ltb_no (length payload) (offset + n) (
              omega
                (arith, e, ap length a.here, length-append x a.rest, length-drop offset payload)),
          read_scalar,
          slice-At n e a,
        )
        refl

  scalar_of-unsigned :
      {ty : FieldType} {n : ℕ}
      → IsUnsigned ty n
      → (v : ℕ) → v < 256 ^ n
      → scalar_of fl ty (to_le n v) ≡ ok (some (fl.of_u64 v))
  unfolding scalar_of
  scalar_of-unsigned u8 v h = ap (λ k. ok (some (fl.of_u64 k))) (omega arith)
  scalar_of-unsigned u16 v h = ap (λ k. ok (some (fl.of_u64 k))) (from_le-to_le 2 v h)
  scalar_of-unsigned u32 v h = ap (λ k. ok (some (fl.of_u64 k))) (from_le-to_le 4 v h)
  scalar_of-unsigned u64 v h = ap (λ k. ok (some (fl.of_u64 k))) (from_le-to_le 8 v h)

  scalar_of-signed :
      {ty : FieldType} {n : ℕ}
      → IsSigned ty n
      → (z : ℤ) → InRange n z
      → scalar_of fl ty (to_le n (complement n z)) ≡ ok (some (fl.of_i64 z))
  unfolding scalar_of
  scalar_of-signed i8 z h =
      let c = complement 1 z in
      let e : c % 256 ≡ from_le (to_le 1 c) = omega arith in
      ap (λ k. ok (some (fl.of_i64 (signed (2 ^ 7) k)))) e ∙ signed_word 1 (2 ^ 7) refl z h
  scalar_of-signed i16 z h = signed_word 2 (2 ^ 15) refl z h
  scalar_of-signed i32 z h = signed_word 4 (2 ^ 31) refl z h
  scalar_of-signed i64 z h = signed_word 8 (2 ^ 63) refl z h

  -- An unsigned integer that stands in the payload at the offset of its field is read as that number.
  pub read_scalar-unsigned :
      {ty : FieldType} {n : ℕ}
      → IsUnsigned ty n
      → (v : ℕ) → v < 256 ^ n
      → (payload : List ℕ) (offset : ℕ) → At payload offset (to_le n v)
      → read_scalar fl ty payload offset n ≡ ok (some (fl.of_u64 v))
  read_scalar-unsigned {ty} {n} k v h payload offset a =
      read_scalar-inside ty payload (to_le n v) offset n a (length-to_le n v) (unsigned_pos k)
      ∙ scalar_of-unsigned k v h

  -- A signed integer in two's complement that stands in the payload at the offset of its field is
  -- read as that number, negative ones included.
  pub read_scalar-signed :
      {ty : FieldType} {n : ℕ}
      → IsSigned ty n
      → (z : ℤ) → InRange n z
      → (payload : List ℕ) (offset : ℕ) → At payload offset (to_le n (complement n z))
      → read_scalar fl ty payload offset n ≡ ok (some (fl.of_i64 z))
  read_scalar-signed {ty} {n} k z h payload offset a =
      read_scalar-inside ty payload (to_le n (complement n z)) offset n a
        (length-to_le n (complement n z)) (signed_pos k)
      ∙ scalar_of-signed k z h

  scalar_of-panic :
      (ty : FieldType) (s : List ℕ)
      → scalar_of fl ty s ≡ err index_out_of_bounds
      → (is_byte ty ≡ true) × (length s ≡ 0)
  unfolding scalar_of
  scalar_of-panic FieldType.u8 [] e = (refl, refl)
  scalar_of-panic FieldType.u8 (b ∷ s) e = absurd (cc e)
  scalar_of-panic FieldType.i8 [] e = (refl, refl)
  scalar_of-panic FieldType.i8 (b ∷ s) e = absurd (cc e)
  scalar_of-panic _ s e = absurd (cc e)

  scalar_of-nil :
      (ty : FieldType) → is_byte ty ≡ true → scalar_of fl ty [] ≡ err index_out_of_bounds
  unfolding scalar_of
  scalar_of-nil FieldType.u8 h = refl
  scalar_of-nil FieldType.i8 h = refl
  scalar_of-nil _ h = absurd (cc h)

  -- `read_scalar` panics exactly for a field of type `u8` or `i8` whose size in the schema is zero and
  -- whose offset is not beyond the payload.
  pub read_scalar-panic :
      (ty : FieldType) (payload : List ℕ) (offset size : ℕ)
      → (read_scalar fl ty payload offset size ≡ err index_out_of_bounds)
        ↔ ((is_byte ty ≡ true) × (size ≡ 0) × (offset ≤ length payload))
  unfolding read_scalar
  read_scalar-panic ty payload offset size = (forward, backward)
    where
      forward :
          read_scalar fl ty payload offset size ≡ err index_out_of_bounds
          → (is_byte ty ≡ true) × (size ≡ 0) × (offset ≤ length payload)
      forward e = elim (Bool-cases (ltb (length payload) (offset + size))) [
        | inl h ↦ absurd (cc (rw (h, read_scalar) at e))
        | inr h ↦
            let (b, n) =
              scalar_of-panic ty (slice payload offset size) (rw (h, read_scalar) at e) in
            let fits = ltb-false (length payload) (offset + size) h in
            (
              b,
              omega (
                arith,
                n,
                fits,
                length-take size (drop offset payload),
                length-drop offset payload,
              ),
              omega (arith, fits),
            )
      ]

      backward :
          (is_byte ty ≡ true) × (size ≡ 0) × (offset ≤ length payload)
          → read_scalar fl ty payload offset size ≡ err index_out_of_bounds
      backward (b, z, h) =
          rw (z, read_scalar, ltb_no (length payload) (offset + 0) (omega (arith, h)))
            (scalar_of-nil ty b)
