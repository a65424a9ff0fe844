-- ===== src/Ingest/Mapper.antt =====
-- viewer/crates/btelem-ingest/src/mapper.rs: `ChannelMap::build`, which registers a channel for
-- each field of a schema.
pub mod Complete
use btelem.Prelude.{
  ℕ, zero, suc, ◌+◌, ◌-◌, ◌/◌, ◌%◌, ◌^◌, ◌<◌, Bool, true, false, List, [], ◌∷◌, ◌++◌, map, Option,
  none, some, Text, codes, Result, ok, err, ◌>>=◌, ltb, ◌==◌, if◌then◌else◌, map_get, map_insert,
  decimal,
}
use btelem.Wire.Schema.{
  FieldType, FieldDef, BitDef, BitfieldDef, SchemaEntry, Schema, entry, enum_labels, bitfield_of,
}
use btelem.Store.{ChannelId}
use btelem.Store.Mock.{Inner, add_scalar, add_scalar_int, add_state, add_text, register_word_bits}

pub data MapError : Type 0 where
  duplicate_schema : ℕ → MapError

pub data FieldKind : Type 0 where
  scalar : ChannelId → FieldType → ℕ → ℕ → FieldKind
  scalar_array : FieldType → ℕ → ℕ → List ChannelId → FieldKind
  state : ChannelId → ℕ → FieldKind
  bitfield : ℕ → ℕ → Option ChannelId → List (BitDef × ChannelId) → FieldKind
  text : ChannelId → FieldDef → FieldKind
  ignored : FieldKind

-- `ChannelMap`, with `EntryMap` as the list of its fields.
abbrev pub ChannelMap : Type 0
ChannelMap = List (ℕ × List FieldKind)

abbrev pub is_float : FieldType → Bool
is_float FieldType.f32 = true
is_float FieldType.f64 = true
is_float _ = false

abbrev pub is_integer : FieldType → Bool
is_integer FieldType.u8 = true
is_integer FieldType.u16 = true
is_integer FieldType.u32 = true
is_integer FieldType.u64 = true
is_integer FieldType.i8 = true
is_integer FieldType.i16 = true
is_integer FieldType.i32 = true
is_integer FieldType.i64 = true
is_integer _ = false

abbrev pub is_numeric : FieldType → Bool
is_numeric ty = if is_float ty then true else is_integer ty

-- `schema.entry(id).map(|e| e.name).unwrap_or("?")`
abbrev pub entry_name : Schema → ℕ → Text
entry_name schema id = elim (entry schema id) [ none ↦ codes "?" | some e ↦ e.name ]

-- The closure `path`: `{entry_name}.{name}{suffix}`.
abbrev pub path : Text → Text → Text → Text
path owner name suffix = owner ++ (b'.' ∷ (name ++ suffix))

abbrev pub elem_size : FieldDef → ℕ
elem_size f = if ltb 0 f.count then f.size / f.count else f.size

-- The storage widths for which the whole word gets a channel.
abbrev pub is_word_size : ℕ → Bool
is_word_size n = if n == 1 then true else if n == 2 then true else if n == 4 then true else n == 8

module _ {F : Type 0} where
  -- The closure `add`.
  abbrev pub add_numeric : FieldType → Inner F → Text → Inner F × ChannelId
  add_numeric ty store p = if is_integer ty then add_scalar_int store p else add_scalar store p

  -- The channels of an array: `n` elements are left, element `i` is next.
  unfoldable pub add_elements : FieldType → Text → Text → ℕ → ℕ → Inner F → Inner F × List ChannelId
  add_elements ty owner name i zero store = (store, [])
  add_elements ty owner name i (suc n) store =
      let (store', ch) =
        add_numeric ty store (path owner name (b'[' ∷ (decimal i ++ (b']' ∷ [])))) in
      let (store'', chs) = add_elements ty owner name (suc i) n store' in (store'', ch ∷ chs)

  unfoldable pub add_bits :
      Text → Text → List BitDef → Inner F → Inner F × List (BitDef × ChannelId)
  add_bits owner name [] store = (store, [])
  add_bits owner name (b ∷ bs) store =
      let (store', ch) = add_scalar_int store (path owner name (b'.' ∷ b.name)) in
      let (store'', rest) = add_bits owner name bs store' in (store'', (b, ch) ∷ rest)

  unfoldable pub add_word : Text → FieldDef → Inner F → Inner F × Option ChannelId
  add_word owner f store =
      if is_word_size f.size
      then (let (store', ch) = add_scalar_int store (path owner f.name []) in (store', some ch))
      else (store, none)

  unfoldable pub build_bitfield : Text → FieldDef → BitfieldDef → Inner F → Inner F × FieldKind
  unfolding add_bits add_word
  build_bitfield owner f bf store =
      let (store1, word) = add_word owner f store in
      let (store2, bits) = add_bits owner f.name bf.bits store1 in
      let store3 : Inner F = elim word [
        | none ↦ store2
        | some w ↦ register_word_bits store2 w (map (λ b. b.1) bits)
      ] in
      (store3, bitfield f.offset f.size word bits)

  -- The `match` at the end of `build_field`, for a field of one element that is not a number.
  unfoldable pub build_other : FieldType → ℕ → ℕ → FieldDef → Schema → Inner F → Inner F × FieldKind
  unfolding build_bitfield
  build_other FieldType.bool schema_id field_index f schema store =
      let (store', ch) =
        add_state store (path (entry_name schema schema_id) f.name [])
          (codes "false" ∷ codes "true" ∷ []) in
      (store', state ch f.offset)
  build_other FieldType.enum schema_id field_index f schema store =
      let labels : List Text = elim (enum_labels schema schema_id field_index) [
        | none ↦ []
        | some v ↦ v
      ] in
      let (store', ch) = add_state store (path (entry_name schema schema_id) f.name []) labels in
      (store', state ch f.offset)
  build_other FieldType.bitfield schema_id field_index f schema store =
      elim (bitfield_of schema schema_id field_index) [
        | none ↦ (store, ignored)
        | some bf ↦ build_bitfield (entry_name schema schema_id) f bf store
      ]
  build_other FieldType.string schema_id field_index f schema store =
      let (store', ch) = add_text store (path (entry_name schema schema_id) f.name []) in
      (store', text ch f)
  build_other _ schema_id field_index f schema store = (store, ignored)

  unfoldable pub build_numeric : Text → FieldDef → Inner F → Inner F × FieldKind
  unfolding add_elements
  build_numeric owner f store =
      if f.count == 1
      then (let (store', ch) = add_numeric f.ty store (path owner f.name []) in
          (store', scalar ch f.ty f.offset (elem_size f)))
      else (let (store', chs) = add_elements f.ty owner f.name 0 f.count store in
          (store', scalar_array f.ty f.offset (elem_size f) chs))

  unfoldable pub build_field : ℕ → ℕ → FieldDef → Schema → Inner F → Inner F × FieldKind
  unfolding build_numeric build_other
  build_field schema_id field_index f schema store =
      if is_numeric f.ty
      then build_numeric (entry_name schema schema_id) f store
      else if f.count == 1
      then build_other f.ty schema_id field_index f schema store
      else (store, ignored)

  -- `build_entry`: the fields that are left, the next of them with index `fi`.
  unfoldable pub build_fields : ℕ → ℕ → List FieldDef → Schema → Inner F → Inner F × List FieldKind
  unfolding build_field
  build_fields id fi [] schema store = (store, [])
  build_fields id fi (f ∷ fs) schema store =
      let (store', k) = build_field id (fi % 2 ^ 16) f schema store in
      let (store'', ks) = build_fields id (suc fi) fs schema store' in (store'', k ∷ ks)

  -- The store keeps the channels that were registered before a duplicate is met.
  unfoldable pub build_entries :
      List SchemaEntry → Schema → ChannelMap → Inner F → Inner F × Result MapError ChannelMap
  unfolding build_fields
  build_entries [] schema m store = (store, ok m)
  build_entries (e ∷ es) schema m store = elim (map_get e.id m) [
    | some fields ↦ (store, err (duplicate_schema e.id))
    | none ↦
        let (store', fields) = build_fields e.id 0 e.fields schema store in
        build_entries es schema (map_insert e.id fields m) store'
  ]

  -- `ChannelMap::build`
  unfoldable pub build : Schema → Inner F → Inner F × Result MapError ChannelMap
  unfolding build_entries
  build schema store = build_entries schema.entries schema [] store
