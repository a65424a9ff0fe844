-- ===== src/Wire/Schema/Layout.antt =====
-- viewer/crates/btelem-wire/src/schema.rs: the layout of the schema blob, as
-- include/btelem/btelem_types.h describes it.
use btelem.Prelude.{
  ℕ, ◌*◌, ◌-◌, ◌^◌, ◌≤◌, ◌<◌, ◌≡◌, List, [], ◌∷◌, ◌++◌, Text, arith, length, map, length-append,
  length-replicate, length-map, flat, length-flat, to_le, replicate, All,
}
use btelem.Wire.Read.{padded_name, IsName, length-padded_name}
use btelem.Wire.Schema.{FieldType, FieldDef, SchemaEntry, EnumDef, BitDef, BitfieldDef, Schema}

-- The number of a type in `enum btelem_type`.
abbrev pub type_code : FieldType → ℕ
type_code FieldType.u8 = 0
type_code FieldType.u16 = 1
type_code FieldType.u32 = 2
type_code FieldType.u64 = 3
type_code FieldType.i8 = 4
type_code FieldType.i16 = 5
type_code FieldType.i32 = 6
type_code FieldType.i64 = 7
type_code FieldType.f32 = 8
type_code FieldType.f64 = 9
type_code FieldType.bool = 10
type_code FieldType.bytes = 11
type_code FieldType.enum = 12
type_code FieldType.bitfield = 13
type_code FieldType.string = 14

abbrev pub zeros : ℕ → List ℕ
zeros n = replicate n 0

abbrev pub field_bytes : FieldDef → List ℕ
field_bytes f =
    padded_name 64 f.name
    ++ (to_le 2 f.offset ++ (to_le 2 f.size ++ (type_code f.ty ∷ f.count ∷ [])))

abbrev pub entry_bytes : SchemaEntry → List ℕ
entry_bytes e =
    to_le 2 e.id
    ++ (to_le 2 e.payload_size
        ++ (to_le 2 (length e.fields)
            ++ (padded_name 64 e.name
                ++ (padded_name 128 e.description
                    ++ (flat field_bytes e.fields ++ zeros ((16 - length e.fields) * 70))))))

abbrev pub enum_bytes : EnumDef → List ℕ
enum_bytes d =
    to_le 2 d.schema_id
    ++ (to_le 2 d.field_index
        ++ ((length d.labels ∷ [])
            ++ (flat (padded_name 32) d.labels ++ zeros ((64 - length d.labels) * 32))))

abbrev pub bit_names : List BitDef → List ℕ
bit_names bits = flat (λ b. padded_name 32 b.name) bits

-- The tables of a bitfield have 32 places, whatever the number of bits.
abbrev pub names_table : List BitDef → List ℕ
names_table bits = bit_names bits ++ zeros ((32 - length bits) * 32)

abbrev pub starts_table : List BitDef → List ℕ
starts_table bits = map (λ b. b.start) bits ++ zeros (32 - length bits)

abbrev pub widths_table : List BitDef → List ℕ
widths_table bits = map (λ b. b.width) bits ++ zeros (32 - length bits)

abbrev pub bitfield_bytes : BitfieldDef → List ℕ
bitfield_bytes d =
    to_le 2 d.schema_id
    ++ (to_le 2 d.field_index
        ++ ((length d.bits ∷ [])
            ++ (names_table d.bits ++ (starts_table d.bits ++ widths_table d.bits))))

abbrev pub section_bytes {ℓ} : {A : Type ℓ} → (A → List ℕ) → List A → List ℕ
section_bytes enc xs = to_le 2 (length xs) ++ flat enc xs

abbrev pub schema_bytes : Schema → List ℕ
schema_bytes s =
    (0 ∷ to_le 2 (length s.entries))
    ++ (flat entry_bytes s.entries
        ++ (section_bytes enum_bytes s.enums ++ section_bytes bitfield_bytes s.bitfields))

pub record FieldFits (f : FieldDef) : Type 0 where
  pub name : IsName 64 f.name
  pub offset : f.offset < 2 ^ 16
  pub size : f.size < 2 ^ 16

pub record EntryFits (e : SchemaEntry) : Type 0 where
  pub id : e.id < 2 ^ 16
  pub payload_size : e.payload_size < 2 ^ 16
  pub name : IsName 64 e.name
  pub description : IsName 128 e.description
  pub count : length e.fields ≤ 16
  pub fields : All FieldFits e.fields

pub record EnumFits (d : EnumDef) : Type 0 where
  pub schema_id : d.schema_id < 2 ^ 16
  pub field_index : d.field_index < 2 ^ 16
  pub count : length d.labels ≤ 64
  pub labels : All (IsName 32) d.labels

pub record BitfieldFits (d : BitfieldDef) : Type 0 where
  pub schema_id : d.schema_id < 2 ^ 16
  pub field_index : d.field_index < 2 ^ 16
  pub count : length d.bits ≤ 32
  pub bits : All (λ b. IsName 32 b.name) d.bits

pub record SchemaFits (s : Schema) : Type 0 where
  pub entry_count : length s.entries ≤ 512
  pub enum_count : length s.enums < 2 ^ 16
  pub bitfield_count : length s.bitfields < 2 ^ 16
  pub entries : All EntryFits s.entries
  pub enums : All EnumFits s.enums
  pub bitfields : All BitfieldFits s.bitfields

pub length-field_bytes : (f : FieldDef) → FieldFits f → length (field_bytes f) ≡ 70
length-field_bytes f h = omega (
  arith,
  length-append (padded_name 64 f.name)
      (to_le 2 f.offset ++ (to_le 2 f.size ++ (type_code f.ty ∷ f.count ∷ []))),
  length-padded_name 64 f.name h.name.0,
)

pub length-entry_bytes : (e : SchemaEntry) → EntryFits e → length (entry_bytes e) ≡ 1318
length-entry_bytes e h =
    let pad = zeros ((16 - length e.fields) * 70) in
    omega (
      arith,
      length-append (padded_name 64 e.name)
          (padded_name 128 e.description ++ (flat field_bytes e.fields ++ pad)),
      length-append (padded_name 128 e.description) (flat field_bytes e.fields ++ pad),
      length-append (flat field_bytes e.fields) pad,
      length-padded_name 64 e.name h.name.0,
      length-padded_name 128 e.description h.description.0,
      length-flat field_bytes FieldFits 70 length-field_bytes e.fields h.fields,
      length-replicate ((16 - length e.fields) * 70) (let z : ℕ = 0 in z),
      h.count,
    )

pub length-label : (l : Text) → IsName 32 l → length (padded_name 32 l) ≡ 32
length-label l h = length-padded_name 32 l h.0

pub length-enum_bytes : (d : EnumDef) → EnumFits d → length (enum_bytes d) ≡ 2053
length-enum_bytes d h =
    let pad = zeros ((64 - length d.labels) * 32) in
    omega (
      arith,
      length-append (flat (padded_name 32) d.labels) pad,
      length-flat (padded_name 32) (IsName 32) 32 length-label d.labels h.labels,
      length-replicate ((64 - length d.labels) * 32) (let z : ℕ = 0 in z),
      h.count,
    )

pub length-bit_names :
    (bits : List BitDef)
    → All (λ b. IsName 32 b.name) bits
    → length (bit_names bits) ≡ length bits * 32
length-bit_names bits h =
    length-flat (λ b. padded_name 32 b.name) (λ b. IsName 32 b.name) 32
      (λ b n. length-label b.name n) bits h

pub length-names_table :
    (bits : List BitDef)
    → length bits ≤ 32
    → All (λ b. IsName 32 b.name) bits
    → length (names_table bits) ≡ 1024
length-names_table bits n h = omega (
  arith,
  length-append (bit_names bits) (zeros ((32 - length bits) * 32)),
  length-bit_names bits h,
  length-replicate ((32 - length bits) * 32) (let z : ℕ = 0 in z),
)

pub length-starts_table : (bits : List BitDef) → length bits ≤ 32 → length (starts_table bits) ≡ 32
length-starts_table bits n = omega (
  arith,
  length-append (map (λ b. b.start) bits) (zeros (32 - length bits)),
  length-map bits (λ b. b.start),
  length-replicate (32 - length bits) (let z : ℕ = 0 in z),
)

pub length-widths_table : (bits : List BitDef) → length bits ≤ 32 → length (widths_table bits) ≡ 32
length-widths_table bits n = omega (
  arith,
  length-append (map (λ b. b.width) bits) (zeros (32 - length bits)),
  length-map bits (λ b. b.width),
  length-replicate (32 - length bits) (let z : ℕ = 0 in z),
)

pub length-bitfield_bytes : (d : BitfieldDef) → BitfieldFits d → length (bitfield_bytes d) ≡ 1093
length-bitfield_bytes d h = omega (
  arith,
  length-append (names_table d.bits) (starts_table d.bits ++ widths_table d.bits),
  length-append (starts_table d.bits) (widths_table d.bits),
  length-names_table d.bits h.count h.bits,
  length-starts_table d.bits h.count,
  length-widths_table d.bits h.count,
)
