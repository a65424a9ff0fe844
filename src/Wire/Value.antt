-- ===== src/Wire/Value.antt =====
-- viewer/crates/btelem-wire/src/value.rs: a field of a payload as a number or as text. An index
-- beyond a slice is Rust's panic.
pub mod Strings
use btelem.Prelude.{
  ℕ, ◌+◌, ◌^◌, Bool, true, false, List, [], ◌∷◌, Option, none, some, Text, ok, err, ◌>>=◌, Checked,
  index_out_of_bounds, ltb, ◌==◌, if◌then◌else◌, length, slice, take, from_le,
}
use btelem.Float.{Float, signed}
use btelem.Wire.{nul_position}
use btelem.Wire.Utf8.{from_utf8_lossy}
use btelem.Wire.Schema.{FieldType, FieldDef}

-- `s[0]`
abbrev pub first_byte : List ℕ → Checked ℕ
first_byte [] = err index_out_of_bounds
first_byte (b ∷ bs) = ok b

-- `uN::from_le_bytes(s.try_into().ok()?)` for a word of `n` bytes.
abbrev pub word : ℕ → List ℕ → Option ℕ
word n s = if length s == n then some (from_le s) else none

module _ {F : Type 0} (fl : Float F) where
  -- The conversion of a word that may be missing.
  abbrev pub word_as : ℕ → (ℕ → F) → List ℕ → Checked (Option F)
  word_as n f s = ok (elim (word n s) [ none ↦ none | some w ↦ some (f w) ])

  abbrev pub byte_as : (ℕ → F) → List ℕ → Checked (Option F)
  byte_as f s = do b ← first_byte s; ok (some (f b))

  -- The `match` of `field_as_f64`.
  unfoldable pub value_of : FieldType → List ℕ → Checked (Option F)
  value_of FieldType.u8 s = byte_as fl.of_u64 s
  value_of FieldType.u16 s = word_as 2 fl.of_u64 s
  value_of FieldType.u32 s = word_as 4 fl.of_u64 s
  value_of FieldType.u64 s = word_as 8 fl.of_u64 s
  value_of FieldType.i8 s = byte_as (λ b. fl.of_i64 (signed (2 ^ 7) b)) s
  value_of FieldType.i16 s = word_as 2 (λ w. fl.of_i64 (signed (2 ^ 15) w)) s
  value_of FieldType.i32 s = word_as 4 (λ w. fl.of_i64 (signed (2 ^ 31) w)) s
  value_of FieldType.i64 s = word_as 8 (λ w. fl.of_i64 (signed (2 ^ 63) w)) s
  value_of FieldType.f32 s = word_as 4 fl.of_f32_bits s
  value_of FieldType.f64 s = word_as 8 fl.of_f64_bits s
  value_of FieldType.bool s = byte_as (λ b. fl.of_u64 (if b == 0 then 0 else 1)) s
  value_of FieldType.bytes s = ok none
  value_of FieldType.enum s = byte_as fl.of_u64 s
  value_of FieldType.bitfield s = ok none
  value_of FieldType.string s = ok none

  unfoldable pub field_as_f64 : FieldDef → List ℕ → Checked (Option F)
  unfolding value_of
  field_as_f64 field payload =
      if field.count == 1
      then if ltb (length payload) (field.offset + field.size)
        then ok none
        else value_of field.ty (slice payload field.offset field.size)
      else ok none

abbrev pub is_string : FieldType → Bool
is_string FieldType.string = true
is_string _ = false

unfoldable pub field_as_string : FieldDef → List ℕ → Option Text
field_as_string field payload =
    let raw = slice payload field.offset field.size in
    if is_string field.ty
    then if ltb (length payload) (field.offset + field.size)
      then none
      else some (from_utf8_lossy (take (nul_position raw) raw))
    else none
