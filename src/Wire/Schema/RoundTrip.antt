-- ===== src/Wire/Schema/RoundTrip.antt =====
-- viewer/crates/btelem-wire/src/schema.rs: the decoders on what was laid out.
use btelem.Prelude.{
  flat, length-flat, ℕ, suc, ◌+◌, ◌*◌, ◌^◌, ◌<◌, ◌≡◌, refl, ap, ◌∙◌, List, [], ◌∷◌, ◌++◌, ok, arith,
  length, map, min, to_le, All, At, At-split, At-head, At-whole, At-fits, At-move, get_or,
  get_or-drop, sym, add-zero, ltb_no, leb_yes,
}
use btelem.Wire.{WireResult, read_cstr}
use btelem.Wire.Read.{
  padded_name, IsName, length-padded_name, need_fits, read_u8-At, read_u16-At, read_cstr-At,
}
use btelem.Wire.Schema.{
  FieldType, FieldDef, SchemaEntry, EnumDef, BitDef, BitfieldDef, Schema, from_u8, collect,
  decode_field, decode_schema_entry, decode_enum, decode_bit, decode_bitfield, decode_section,
  decode,
}
use btelem.Wire.Schema.Layout.{
  type_code, field_bytes, entry_bytes, enum_bytes, bit_names, names_table, starts_table,
  bitfield_bytes, section_bytes, schema_bytes, FieldFits, EntryFits, EnumFits, BitfieldFits,
  SchemaFits, length-field_bytes, length-entry_bytes, length-label, length-enum_bytes,
  length-names_table, length-starts_table, length-bitfield_bytes,
}

from_u8-type_code : (ty : FieldType) → from_u8 (type_code ty) ≡ ok ty
unfolding from_u8
from_u8-type_code = elim [
  | FieldType.u8 ↦ refl
  | FieldType.u16 ↦ refl
  | FieldType.u32 ↦ refl
  | FieldType.u64 ↦ refl
  | FieldType.i8 ↦ refl
  | FieldType.i16 ↦ refl
  | FieldType.i32 ↦ refl
  | FieldType.i64 ↦ refl
  | FieldType.f32 ↦ refl
  | FieldType.f64 ↦ refl
  | FieldType.bool ↦ refl
  | FieldType.bytes ↦ refl
  | FieldType.enum ↦ refl
  | FieldType.bitfield ↦ refl
  | FieldType.string ↦ refl
]

module _ {buf : List ℕ} where
  -- A loop over items of one size reads all of them.
  pub collect-At :
      {A : Type 0} (item : ℕ → WireResult A) (enc : A → List ℕ) (P : A → Type 0) (size pos : ℕ)
      → ((i : ℕ) (x : A) → P x → At buf (pos + i * size) (enc x) → item i ≡ ok x)
      → ((x : A) → P x → length (enc x) ≡ size)
      → (i : ℕ) (xs : List A) → All P xs
      → At buf (pos + i * size) (flat enc xs)
      → collect item i (length xs) ≡ ok xs
  unfolding collect
  collect-At item enc P size pos reads len i [] ps a = refl
  collect-At item enc P size pos reads len i (x ∷ xs) ps a =
      let (a1, a2) =
        At-split (enc x) (flat enc xs) (pos + suc i * size) a (grind (arith, len x ps.0)) in
      rw (reads i x ps.0 a1, collect-At item enc P size pos reads len (suc i) xs ps.1 a2)

  decode_field-At :
      (fpos i : ℕ) (f : FieldDef)
      → FieldFits f
      → At buf (fpos + i * 70) (field_bytes f)
      → decode_field buf fpos i ≡ ok f
  unfolding decode_field
  decode_field-At fpos i f h a =
      let off = fpos + i * 70 in
      let (a1, b1) =
        At-split (padded_name 64 f.name) _ (off + 64) a
          (ap (λ n. off + n) (length-padded_name 64 f.name h.name.0)) in
      let (a2, b2) = At-split (to_le 2 f.offset) _ (off + 64 + 2) b1 refl in
      let (a3, b3) = At-split (to_le 2 f.size) _ (off + 64 + 4) b2 (omega arith) in
      let (a4, a5) =
        At-split (type_code f.ty ∷ []) (f.count ∷ []) (off + 64 + 5) b3 (omega arith) in
      rw (
        read_cstr-At 64 f.name (omega arith) h.name a1,
        read_u16-At f.offset h.offset a2,
        read_u16-At f.size h.size a3,
        read_u8-At (type_code f.ty) a4,
        from_u8-type_code f.ty,
        read_u8-At f.count a5,
      )

  decode_schema_entry-At :
      (pos : ℕ) (e : SchemaEntry)
      → EntryFits e
      → At buf pos (entry_bytes e)
      → decode_schema_entry buf pos ≡ ok e
  unfolding decode_schema_entry
  decode_schema_entry-At pos e h a =
      let (a1, b1) = At-split (to_le 2 e.id) _ (pos + 2) a refl in
      let (a2, b2) = At-split (to_le 2 e.payload_size) _ (pos + 4) b1 (omega arith) in
      let (a3, b3) = At-split (to_le 2 (length e.fields)) _ (pos + 6) b2 (omega arith) in
      let (a4, b4) =
        At-split (padded_name 64 e.name) _ (pos + 6 + 64) b3
          (ap (λ n. pos + 6 + n) (length-padded_name 64 e.name h.name.0)) in
      let (a5, b5) =
        At-split (padded_name 128 e.description) _ (pos + 198) b4
          (omega (arith, length-padded_name 128 e.description h.description.0)) in
      let fields =
        collect-At (decode_field buf (pos + 198)) field_bytes FieldFits 70 (pos + 198)
          (decode_field-At (pos + 198)) length-field_bytes 0 e.fields h.fields
          (At-move (omega arith) (At-head (flat field_bytes e.fields) _ b5)) in
      rw
        (
          read_u16-At e.id h.id a1,
          read_u16-At e.payload_size h.payload_size a2,
          read_u16-At (length e.fields) (omega (arith, h.count)) a3,
        )
        (rw (ltb_no 16 (length e.fields) h.count) (
          rw (
            read_cstr-At 64 e.name (omega arith) h.name a4,
            read_cstr-At 128 e.description (omega arith) h.description a5,
            fields,
          )))

  decode_enum-At :
      (pos : ℕ) (d : EnumDef) → EnumFits d → At buf pos (enum_bytes d) → decode_enum buf pos ≡ ok d
  unfolding decode_enum
  decode_enum-At pos d h a =
      let n = length d.labels in
      let fits = At-fits a (omega (arith, length-enum_bytes d h)) in
      let (a1, b1) = At-split (to_le 2 d.schema_id) _ (pos + 2) a refl in
      let (a2, b2) = At-split (to_le 2 d.field_index) _ (pos + 4) b1 (omega arith) in
      let (a3, b3) = At-split (n ∷ []) _ (pos + 5) b2 (omega arith) in
      let all : min n 64 ≡ n = omega (arith, h.count) in
      let labels =
        collect-At (λ i. read_cstr buf (pos + 5 + i * 32) 32) (padded_name 32) (IsName 32) 32
          (pos + 5) (λ i l q. read_cstr-At 32 l (omega arith) q) length-label 0 d.labels h.labels
          (At-move (omega arith) (At-head (flat (padded_name 32) d.labels) _ b3)) in
      rw
        (
          read_u16-At d.schema_id h.schema_id a1,
          read_u16-At d.field_index h.field_index a2,
          read_u8-At n a3,
          need_fits buf (pos + 5 + 2048) (omega (arith, length-enum_bytes d h)),
        )
        (rw all (rw labels))

  -- One byte of a table.
  get_or-At : {off : ℕ} (b : ℕ) (rest : List ℕ) → At buf off (b ∷ rest) → get_or buf off 0 ≡ b
  get_or-At {off} b rest a =
      ap (λ k. get_or buf k 0) (sym (add-zero off))
      ∙ get_or-drop buf off 0 0
      ∙ ap (λ l. get_or l 0 0) a.here

  bits-At :
      (pos i : ℕ) (bits : List BitDef) (s w : List ℕ)
      → All (λ b. IsName 32 b.name) bits
      → At buf (pos + i * 32) (bit_names bits)
      → At buf (pos + 1024 + i) (map (λ b. b.start) bits ++ s)
      → At buf (pos + 1024 + 32 + i) (map (λ b. b.width) bits ++ w)
      → collect (decode_bit buf pos) i (length bits) ≡ ok bits
  unfolding collect decode_bit
  bits-At pos i [] s w h a b c = refl
  bits-At pos i (x ∷ bits) s w h a b c =
      let (a1, a2) =
        At-split (padded_name 32 x.name) _ (pos + suc i * 32) a
          (omega (arith, length-label x.name h.0)) in
      let (b1, b2) =
        At-split (x.start ∷ []) (map (λ b. b.start) bits ++ s) (pos + 1024 + suc i) b
          (omega arith) in
      let (c1, c2) =
        At-split (x.width ∷ []) (map (λ b. b.width) bits ++ w) (pos + 1024 + 32 + suc i) c
          (omega arith) in
      rw (
        read_cstr-At 32 x.name (omega arith) h.0 a1,
        get_or-At x.start [] b1,
        get_or-At x.width [] c1,
        bits-At pos (suc i) bits s w h.1 a2 b2 c2,
      )

  decode_bitfield-At :
      (pos : ℕ) (d : BitfieldDef)
      → BitfieldFits d
      → At buf pos (bitfield_bytes d)
      → decode_bitfield buf pos ≡ ok d
  unfolding decode_bitfield
  decode_bitfield-At pos d h a =
      let n = length d.bits in
      let total = length-bitfield_bytes d h in
      let fits = At-fits a (omega (arith, total)) in
      let (a1, b1) = At-split (to_le 2 d.schema_id) _ (pos + 2) a refl in
      let (a2, b2) = At-split (to_le 2 d.field_index) _ (pos + 4) b1 (omega arith) in
      let (a3, b3) = At-split (n ∷ []) _ (pos + 5) b2 (omega arith) in
      let (a4, b4) =
        At-split (names_table d.bits) _ (pos + 5 + 1024 + 0) b3
          (omega (arith, length-names_table d.bits h.count h.bits)) in
      let (a5, a6) =
        At-split (starts_table d.bits) _ (pos + 5 + 1024 + 32 + 0) b4
          (omega (arith, length-starts_table d.bits h.count)) in
      let all : min n 32 ≡ n = omega (arith, h.count) in
      let bits =
        bits-At (pos + 5) 0 d.bits _ _ h.bits
          (At-move (omega arith) (At-head (bit_names d.bits) _ a4)) a5 a6 in
      rw
        (
          read_u16-At d.schema_id h.schema_id a1,
          read_u16-At d.field_index h.field_index a2,
          read_u8-At n a3,
          need_fits buf (pos + 5 + 1024 + 32 + 32) (omega (arith, total)),
        )
        (rw all (rw bits))

  decode_section-At :
      {A : Type 0} (item : List ℕ → ℕ → WireResult A) (enc : A → List ℕ) (P : A → Type 0)
      (size pos : ℕ)
      → ((p : ℕ) (x : A) → P x → At buf p (enc x) → item buf p ≡ ok x)
      → ((x : A) → P x → length (enc x) ≡ size)
      → (xs : List A) → All P xs
      → length xs < 2 ^ 16
      → At buf pos (section_bytes enc xs)
      → decode_section item size buf pos ≡ ok (xs, pos + 2 + length xs * size)
  unfolding decode_section
  decode_section-At item enc P size pos reads len xs ps small a =
      let fits = At-fits a (omega arith) in
      let (a1, a2) =
        At-split (to_le 2 (length xs)) (flat enc xs) (pos + 2 + 0 * size) a (omega arith) in
      let items =
        collect-At (λ i. item buf (pos + 2 + i * size)) enc P size (pos + 2)
          (λ i x. reads (pos + 2 + i * size) x) len 0 xs ps a2 in
      rw (leb_yes (pos + 2) (length buf) (omega arith))
        (rw (read_u16-At (length xs) small a1, items))

-- A schema that is laid out as the header file says is decoded to itself: every entry with its
-- fields, every enum with its labels and every bitfield with its bits, in order.
pub decode-schema_bytes : (s : Schema) → SchemaFits s → decode (schema_bytes s) ≡ ok s
unfolding decode
decode-schema_bytes s h =
    let buf = schema_bytes s in
    let n = length s.entries in
    let (a0, b0) = At-split (0 ∷ to_le 2 n) _ (3 + 0 * 1318) (At-whole buf) refl in
    let (e0, e1) = At-split (0 ∷ []) (to_le 2 n) 1 a0 refl in
    let (a1, b1) = At-split (flat entry_bytes s.entries) _ (3 + n * 1318) b0 (
      omega
        (arith, length-flat entry_bytes EntryFits 1318 length-entry_bytes s.entries h.entries)) in
    let (a2, a3) =
      At-split (section_bytes enum_bytes s.enums) _ (3 + n * 1318 + 2 + length s.enums * 2053) b1
        (omega (arith, length-flat enum_bytes EnumFits 2053 length-enum_bytes s.enums h.enums)) in
    let entries =
      collect-At (λ i. decode_schema_entry buf (3 + i * 1318)) entry_bytes EntryFits 1318 3
        (λ i. decode_schema_entry-At (3 + i * 1318)) length-entry_bytes 0 s.entries h.entries a1 in
    let enums =
      decode_section-At decode_enum enum_bytes EnumFits 2053 (3 + n * 1318) decode_enum-At
        length-enum_bytes s.enums h.enums h.enum_count a2 in
    let bitfields =
      decode_section-At decode_bitfield bitfield_bytes BitfieldFits 1093
        (3 + n * 1318 + 2 + length s.enums * 2053) decode_bitfield-At length-bitfield_bytes
        s.bitfields h.bitfields h.bitfield_count a3 in
    rw (read_u8-At 0 e0, read_u16-At n (omega (arith, h.entry_count)) e1)
      (rw (ltb_no 512 n h.entry_count) (rw (entries, enums, bitfields)))
