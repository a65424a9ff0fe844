-- ===== src/Wire.antt =====
-- viewer/crates/btelem-wire/src/lib.rs: the errors, the constants of the wire format and the
-- little-endian readers. A `&[u8]` is a list of bytes; `usize` sums stay far below 2^64, since
-- every term is a 32-bit count or a constant.
pub mod Utf8
pub mod Read
pub mod Packet
pub mod Schema
pub mod Value
mod Tests
use btelem.Prelude.{
  ℕ, zero, suc, ◌+◌, ◌*◌, ◌<◌, ◌≤◌, Bool, List, Text, Result, ok, err, ◌>>=◌, ◌>>◌, ltb,
  if◌then◌else◌, length, get_or, take, slice, from_le, [], ◌∷◌, ◌==◌, ◌≡◌, refl,
}
use btelem.Wire.Utf8.{is_utf8}

pub data WireError : Type 0 where
  short : ℕ → ℕ → WireError
  bad_endian : ℕ → WireError
  bad_name : WireError
  too_many_entries : ℕ → WireError
  too_many_fields : ℕ → WireError
  payload_oob : ℕ → ℕ → ℕ → WireError
  unknown_type : ℕ → WireError

abbrev pub WireResult : Type 0 → Type 0
WireResult A = Result WireError A

abbrev pub name_max : ℕ
name_max = 64

abbrev pub desc_max : ℕ
desc_max = 128

abbrev pub max_fields : ℕ
max_fields = 16

abbrev pub max_schema_entries : ℕ
max_schema_entries = 512

abbrev pub enum_label_max : ℕ
enum_label_max = 32

abbrev pub enum_max_values : ℕ
enum_max_values = 64

abbrev pub bitfield_max_bits : ℕ
bitfield_max_bits = 32

abbrev pub bit_name_max : ℕ
bit_name_max = 32

abbrev pub schema_header_size : ℕ
schema_header_size = 3

abbrev pub field_wire_size : ℕ
field_wire_size = name_max + 2 + 2 + 1 + 1

abbrev pub schema_wire_header_size : ℕ
schema_wire_header_size = 2 + 2 + 2 + name_max + desc_max

abbrev pub schema_wire_size : ℕ
schema_wire_size = schema_wire_header_size + max_fields * field_wire_size

abbrev pub enum_wire_size : ℕ
enum_wire_size = 2 + 2 + 1 + enum_max_values * enum_label_max

abbrev pub bitfield_wire_size : ℕ
bitfield_wire_size =
    2 + 2 + 1 + bitfield_max_bits * bit_name_max + bitfield_max_bits + bitfield_max_bits

abbrev pub packet_header_size : ℕ
packet_header_size = 16

abbrev pub entry_header_size : ℕ
entry_header_size = 16

unfoldable pub need : List ℕ → ℕ → WireResult (Unit {0})
need buf n = if ltb (length buf) n then err (short n (length buf)) else ok tt

unfoldable pub read_u8 : List ℕ → ℕ → WireResult ℕ
read_u8 buf off = do need buf (off + 1); ok (get_or buf off 0)

unfoldable pub read_u16 : List ℕ → ℕ → WireResult ℕ
read_u16 buf off = do
  need buf (off + 2)
  ok (from_le (get_or buf off 0 ∷ get_or buf (off + 1) 0 ∷ []))

unfoldable pub read_u32 : List ℕ → ℕ → WireResult ℕ
read_u32 buf off = do
  need buf (off + 4)
  ok (
      from_le (
        get_or buf off 0
        ∷ get_or buf (off + 1) 0
        ∷ get_or buf (off + 2) 0
        ∷ get_or buf (off + 3) 0
        ∷ []))

unfoldable pub read_u64 : List ℕ → ℕ → WireResult ℕ
read_u64 buf off = do need buf (off + 8); ok (from_le (slice buf off 8))

-- `iter().position(|&b| b == 0).unwrap_or(len)`.
unfoldable pub nul_position : List ℕ → ℕ
nul_position [] = 0
nul_position (b ∷ bs) = let rest = nul_position bs in if b == 0 then 0 else suc rest

unfoldable pub read_cstr : List ℕ → ℕ → ℕ → WireResult Text
read_cstr buf off max = do
  need buf (off + max)
  let text = slice buf off max
  let name = take (nul_position text) text
  if is_utf8 name then ok name else err bad_name
