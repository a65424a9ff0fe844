-- ===== src/Ingest/Dispatch.antt =====
-- viewer/crates/btelem-ingest/src/mapper.rs: `ChannelMap::dispatch`, which pushes the fields of one
-- log entry into the store. Integer arithmetic wraps, as in the release profile, where a shift
-- takes its amount modulo the width; an index beyond a slice panics in every profile.
pub mod Scalars
use Prim.Native.Nat.{bit_and, bit_or}
use btelem.Prelude.{
  ℕ, zero, suc, ◌+◌, ◌-◌, ◌*◌, ◌/◌, ◌%◌, ◌^◌, List, [], ◌∷◌, Option, none, some, Result, ok, err,
  Checked, Panic, ltb, ◌==◌, if◌then◌else◌, length, slice, get_or, map_get,
}
use btelem.Float.{Float, signed}
use btelem.Wire.Schema.{FieldType, FieldDef, BitDef}
use btelem.Wire.Value.{byte_as, word_as, field_as_string}
use btelem.Store.{ChannelId, Timestamp}
use btelem.Store.Mock.{Inner, push_scalar, push_state, push_text}
use btelem.Ingest.Mapper.{
  FieldKind, ChannelMap, scalar, scalar_array, state, bitfield, text, ignored,
}

-- `x << k` and `x >> k` on `u64`.
abbrev pub shl64 : ℕ → ℕ → ℕ
shl64 x k = x * 2 ^ (k % 64) % 2 ^ 64

abbrev pub shr64 : ℕ → ℕ → ℕ
shr64 x k = x / 2 ^ (k % 64)

-- `((1u64 << width) - 1) << start`
unfoldable pub bit_mask : ℕ → ℕ → ℕ
bit_mask start width = shl64 ((shl64 1 width + 2 ^ 64 - 1) % 2 ^ 64) start

-- `(raw & mask) >> bit.start`
unfoldable pub bit_value : ℕ → ℕ → ℕ → ℕ
unfolding bit_mask
bit_value raw start width = shr64 (bit_and raw (bit_mask start width)) start

-- The storage word: the bytes that are left are or-ed in from position `i` on.
unfoldable pub storage_word : ℕ → ℕ → List ℕ → ℕ
storage_word raw i [] = raw
storage_word raw i (b ∷ bs) = storage_word (bit_or raw (shl64 b (i * 8))) (suc i) bs

-- The store after a call, with the panic that ended the call, if any: what was pushed before it stays.
abbrev pub Pushing : Type 0 → Type 0
Pushing F = Inner F × Option Panic

module _ {F : Type 0} (fl : Float F) where
  -- The `match` of `read_scalar`.
  unfoldable pub scalar_of : FieldType → List ℕ → Checked (Option F)
  scalar_of FieldType.u8 s = byte_as fl fl.of_u64 s
  scalar_of FieldType.u16 s = word_as fl 2 fl.of_u64 s
  scalar_of FieldType.u32 s = word_as fl 4 fl.of_u64 s
  scalar_of FieldType.u64 s = word_as fl 8 fl.of_u64 s
  scalar_of FieldType.i8 s = byte_as fl (λ b. fl.of_i64 (signed (2 ^ 7) b)) s
  scalar_of FieldType.i16 s = word_as fl 2 (λ w. fl.of_i64 (signed (2 ^ 15) w)) s
  scalar_of FieldType.i32 s = word_as fl 4 (λ w. fl.of_i64 (signed (2 ^ 31) w)) s
  scalar_of FieldType.i64 s = word_as fl 8 (λ w. fl.of_i64 (signed (2 ^ 63) w)) s
  scalar_of FieldType.f32 s = word_as fl 4 fl.of_f32_bits s
  scalar_of FieldType.f64 s = word_as fl 8 fl.of_f64_bits s
  scalar_of _ s = ok none

  unfoldable pub read_scalar : FieldType → List ℕ → ℕ → ℕ → Checked (Option F)
  unfolding scalar_of
  read_scalar ty payload offset size =
      if ltb (length payload) (offset + size)
      then ok none
      else scalar_of ty (slice payload offset size)

  -- `if let Some(v) = read_scalar(..) { store.push_scalar(ch, t, v) }`
  unfoldable pub push_field :
      FieldType → List ℕ → ℕ → ℕ → ChannelId → Timestamp → Inner F → Pushing F
  push_field ty payload offset size ch t store = elim (read_scalar ty payload offset size) [
    | err p ↦ (store, some p)
    | ok value ↦ (elim value [ none ↦ store | some v ↦ push_scalar store ch t v ], none)
  ]

  -- The channels of an array that are left; the next element has index `i`.
  unfoldable pub push_elements :
      FieldType → List ℕ → ℕ → ℕ → ℕ → List ChannelId → Timestamp → Inner F → Pushing F
  unfolding push_field
  push_elements ty payload base size i [] t store = (store, none)
  push_elements ty payload base size i (ch ∷ chs) t store =
      let off = (base + (i % 2 ^ 16 * size) % 2 ^ 16) % 2 ^ 16 in
      let pushed = push_field ty payload off size ch t store in
      let rest = push_elements ty payload base size (suc i) chs t pushed.0 in
      elim pushed.1 [ none ↦ rest | some p ↦ (pushed.0, some p) ]

  unfoldable pub push_bits : ℕ → List (BitDef × ChannelId) → Timestamp → Inner F → Inner F
  push_bits raw [] t store = store
  push_bits raw ((bit, ch) ∷ bits) t store =
      push_bits raw bits t (push_scalar store ch t (fl.of_u64 (bit_value raw bit.start bit.width)))

  unfoldable pub push_bitfield :
      ℕ → ℕ → Option ChannelId → List (BitDef × ChannelId) → List ℕ → Timestamp → Inner F → Inner F
  unfolding push_bits
  push_bitfield off n word bits payload t store =
      let raw = storage_word 0 0 (slice payload off n) in
      let store' : Inner F = elim word [
        | none ↦ store
        | some ch ↦ push_scalar store ch t (fl.of_u64 raw)
      ] in
      if ltb (length payload) (off + n) then store else push_bits raw bits t store'

  -- The body of the loop over the fields.
  unfoldable pub dispatch_field : FieldKind → Timestamp → List ℕ → Inner F → Pushing F
  unfolding push_field push_elements push_bitfield
  dispatch_field (scalar ch ty offset size) t payload store =
      push_field ty payload offset size ch t store
  dispatch_field (scalar_array ty base size channels) t payload store =
      push_elements ty payload base size 0 channels t store
  dispatch_field (state ch offset) t payload store = (
    if ltb offset (length payload) then push_state store ch t (get_or payload offset 0) else store,
    none,
  )
  dispatch_field (bitfield offset n word bits) t payload store =
      (push_bitfield offset n word bits payload t store, none)
  dispatch_field (text ch field_def) t payload store = (
    elim (field_as_string field_def payload) [
      | none ↦ store
      | some value ↦ push_text store ch t value
    ],
    none,
  )
  dispatch_field ignored t payload store = (store, none)

  unfoldable pub dispatch_fields : List FieldKind → Timestamp → List ℕ → Inner F → Pushing F
  unfolding dispatch_field
  dispatch_fields [] t payload store = (store, none)
  dispatch_fields (fk ∷ fks) t payload store =
      let pushed = dispatch_field fk t payload store in
      let rest = dispatch_fields fks t payload pushed.0 in
      elim pushed.1 [ none ↦ rest | some p ↦ (pushed.0, some p) ]

  -- `ChannelMap::dispatch`
  unfoldable pub dispatch : ChannelMap → ℕ → Timestamp → List ℕ → Inner F → Pushing F
  unfolding dispatch_fields
  dispatch m schema_id t payload store = elim (map_get schema_id m) [
    | none ↦ (store, none)
    | some fields ↦ dispatch_fields fields t payload store
  ]
