-- ===== src/Wire/Schema.antt =====
-- viewer/crates/btelem-wire/src/schema.rs: `Schema::decode` and the lookups. Strings are the
-- bytes of valid UTF-8 that `read_cstr` returns.
pub mod Layout
pub mod RoundTrip
use btelem.Prelude.{
  ℕ, zero, suc, ◌+◌, ◌*◌, ◌≤◌, Bool, ◌&&◌, List, [], ◌∷◌, Option, none, some, Text, ok, err, ◌>>=◌,
  ◌>>◌, ltb, leb, ◌==◌, if◌then◌else◌, get_or, min, length, find,
}
use mathlib.Core.Option
use btelem.Wire.{
  WireResult, bad_endian, too_many_entries, too_many_fields, unknown_type, name_max, desc_max,
  max_fields, max_schema_entries, enum_label_max, enum_max_values, bitfield_max_bits, bit_name_max,
  schema_header_size, field_wire_size, schema_wire_header_size, schema_wire_size, enum_wire_size,
  bitfield_wire_size, need, read_u8, read_u16, read_cstr,
}

pub data FieldType : Type 0 where
  u8 u16 u32 u64 i8 i16 i32 i64 f32 f64 bool bytes enum bitfield string : FieldType

unfoldable pub from_u8 : ℕ → WireResult FieldType
from_u8 zero = ok u8
from_u8 (suc zero) = ok u16
from_u8 (suc (suc zero)) = ok u32
from_u8 (suc (suc (suc zero))) = ok u64
from_u8 (suc (suc (suc (suc zero)))) = ok i8
from_u8 (suc (suc (suc (suc (suc zero))))) = ok i16
from_u8 (suc (suc (suc (suc (suc (suc zero)))))) = ok i32
from_u8 (suc (suc (suc (suc (suc (suc (suc b))))))) = from_7 b
  where
    from_7 : ℕ → WireResult FieldType
    from_7 zero = ok i64
    from_7 (suc zero) = ok f32
    from_7 (suc (suc zero)) = ok f64
    from_7 (suc (suc (suc zero))) = ok bool
    from_7 (suc (suc (suc (suc zero)))) = ok bytes
    from_7 (suc (suc (suc (suc (suc zero))))) = ok enum
    from_7 (suc (suc (suc (suc (suc (suc zero)))))) = ok bitfield
    from_7 (suc (suc (suc (suc (suc (suc (suc zero))))))) = ok string
    from_7 (suc (suc (suc (suc (suc (suc (suc (suc b)))))))) = err (unknown_type (15 + b))

pub record FieldDef : Type 0 where
  pub name : Text
  pub offset : ℕ
  pub size : ℕ
  pub ty : FieldType
  pub count : ℕ

pub record SchemaEntry : Type 0 where
  pub id : ℕ
  pub name : Text
  pub description : Text
  pub payload_size : ℕ
  pub fields : List FieldDef

pub record EnumDef : Type 0 where
  pub schema_id : ℕ
  pub field_index : ℕ
  pub labels : List Text

pub record BitDef : Type 0 where
  pub name : Text
  pub start : ℕ
  pub width : ℕ

pub record BitfieldDef : Type 0 where
  pub schema_id : ℕ
  pub field_index : ℕ
  pub bits : List BitDef

pub record Schema : Type 0 where
  pub entries : List SchemaEntry
  pub enums : List EnumDef
  pub bitfields : List BitfieldDef

-- A loop that decodes one item in each round and stops at the first error. `n` rounds are left,
-- round `i` is next.
unfoldable pub collect : {A : Type 0} → (ℕ → WireResult A) → ℕ → ℕ → WireResult (List A)
collect item i zero = ok []
collect item i (suc n) = do x ← item i; rest ← collect item (suc i) n; ok (x ∷ rest)

unfoldable pub decode_field : List ℕ → ℕ → ℕ → WireResult FieldDef
decode_field buf fpos i = do
  let off = fpos + i * field_wire_size
  fname ← read_cstr buf off name_max
  foff ← read_u16 buf (off + name_max)
  fsize ← read_u16 buf (off + name_max + 2)
  b ← read_u8 buf (off + name_max + 4)
  fty ← from_u8 b
  fcount ← read_u8 buf (off + name_max + 5)
  ok (record { name = fname; offset = foff; size = fsize; ty = fty; count = fcount })

unfoldable pub decode_schema_entry : List ℕ → ℕ → WireResult SchemaEntry
decode_schema_entry buf pos = do
  id ← read_u16 buf pos
  payload_size ← read_u16 buf (pos + 2)
  field_count ← read_u16 buf (pos + 4)
  if ltb max_fields field_count then err (too_many_fields field_count) else do
    name ← read_cstr buf (pos + 6) name_max
    description ← read_cstr buf (pos + 6 + name_max) desc_max
    fields ← collect (decode_field buf (pos + schema_wire_header_size)) 0 field_count
    ok (record {
      id = id;
      name = name;
      description = description;
      payload_size = payload_size;
      fields = fields;
    })

unfoldable pub decode_enum : List ℕ → ℕ → WireResult EnumDef
decode_enum buf pos = do
  schema_id ← read_u16 buf pos
  field_index ← read_u16 buf (pos + 2)
  label_count ← read_u8 buf (pos + 4)
  let labels_pos = pos + 5
  need buf (labels_pos + enum_max_values * enum_label_max)
  labels ←
      collect (λ i. read_cstr buf (labels_pos + i * enum_label_max) enum_label_max) 0
        (min label_count enum_max_values)
  ok (record { schema_id = schema_id; field_index = field_index; labels = labels })

unfoldable pub decode_bit : List ℕ → ℕ → ℕ → WireResult BitDef
decode_bit buf names_pos i = do
  let starts_pos = names_pos + bitfield_max_bits * bit_name_max
  let widths_pos = starts_pos + bitfield_max_bits
  name ← read_cstr buf (names_pos + i * bit_name_max) bit_name_max
  ok (record {
    name = name;
    start = get_or buf (starts_pos + i) 0;
    width = get_or buf (widths_pos + i) 0;
  })

unfoldable pub decode_bitfield : List ℕ → ℕ → WireResult BitfieldDef
decode_bitfield buf pos = do
  schema_id ← read_u16 buf pos
  field_index ← read_u16 buf (pos + 2)
  bit_count ← read_u8 buf (pos + 4)
  let names_pos = pos + 5
  let starts_pos = names_pos + bitfield_max_bits * bit_name_max
  let widths_pos = starts_pos + bitfield_max_bits
  need buf (widths_pos + bitfield_max_bits)
  bits ← collect (decode_bit buf names_pos) 0 (min bit_count bitfield_max_bits)
  ok (record { schema_id = schema_id; field_index = field_index; bits = bits })

-- The optional enum and bitfield sections: a count, and as many items of one size. The result
-- holds the position behind the section.
unfoldable pub decode_section :
    {A : Type 0} → (List ℕ → ℕ → WireResult A) → ℕ → List ℕ → ℕ → WireResult (List A × ℕ)
decode_section item item_size buf pos =
    if leb (pos + 2) (length buf)
    then (do
      n ← read_u16 buf pos
      items ← collect (λ i. item buf (pos + 2 + i * item_size)) 0 n
      ok (items, pos + 2 + n * item_size))
    else ok ([], pos)

unfoldable pub decode : List ℕ → WireResult Schema
decode buf = do
  endian ← read_u8 buf 0
  if endian == 0
      then (do
        entry_count ← read_u16 buf 1
        if ltb max_schema_entries entry_count then err (too_many_entries entry_count) else do
          entries ←
              collect (λ i. decode_schema_entry buf (schema_header_size + i * schema_wire_size)) 0
                entry_count
          (enums, pos) ←
              decode_section decode_enum enum_wire_size buf
                (schema_header_size + entry_count * schema_wire_size)
          (bitfields, _) ← decode_section decode_bitfield bitfield_wire_size buf pos
          ok (record { entries = entries; enums = enums; bitfields = bitfields }))
      else err (bad_endian endian)

-- `Schema::entry`
unfoldable pub entry : Schema → ℕ → Option SchemaEntry
entry s id = find (λ e. e.id == id) s.entries

-- `Schema::enum_labels`
unfoldable pub enum_labels : Schema → ℕ → ℕ → Option (List Text)
enum_labels s schema_id field_index =
    Option.map (λ e. e.labels)
      (find (λ e. e.schema_id == schema_id && e.field_index == field_index) s.enums)

-- `Schema::bitfield`
unfoldable pub bitfield_of : Schema → ℕ → ℕ → Option BitfieldDef
bitfield_of s schema_id field_index =
    find (λ b. b.schema_id == schema_id && b.field_index == field_index) s.bitfields
