-- ===== src/Wire/Packet.antt =====
-- viewer/crates/btelem-wire/src/packet.rs: `decode_packet`.
pub mod Layout
pub mod Bounds
use btelem.Prelude.{
  ℕ, zero, suc, ◌+◌, ◌*◌, List, [], ◌∷◌, ◌++◌, ok, err, ◌>>=◌, ◌>>◌, ltb, if◌then◌else◌, slice,
}
use btelem.Wire.{
  WireResult, payload_oob, packet_header_size, entry_header_size, need, read_u16, read_u32,
  read_u64,
}

pub record PacketHeader : Type 0 where
  pub entry_count : ℕ
  pub flags : ℕ
  pub payload_size : ℕ
  pub dropped : ℕ

pub record DecodedEntry : Type 0 where
  pub id : ℕ
  pub timestamp : ℕ
  pub payload : List ℕ

pub record Packet : Type 0 where
  pub header : PacketHeader
  pub entries : List DecodedEntry

abbrev pub table_off : ℕ
table_off = packet_header_size

-- One round of the loop over the entry table.
unfoldable pub decode_entry : List ℕ → ℕ → ℕ → ℕ → WireResult DecodedEntry
decode_entry buf payload_base payload_size i = do
  let off = table_off + i * entry_header_size
  id ← read_u16 buf off
  psize ← read_u16 buf (off + 2)
  poff ← read_u32 buf (off + 4)
  ts ← read_u64 buf (off + 8)
  if ltb payload_size (poff + psize)
      then err (payload_oob poff psize payload_size)
      else ok (record { id = id; timestamp = ts; payload = slice buf (payload_base + poff) psize })

-- The loop from round `i` on, with `n` rounds left.
unfoldable pub decode_entries : List ℕ → ℕ → ℕ → ℕ → ℕ → WireResult (List DecodedEntry)
decode_entries buf payload_base payload_size i zero = ok []
decode_entries buf payload_base payload_size i (suc n) = do
  e ← decode_entry buf payload_base payload_size i
  rest ← decode_entries buf payload_base payload_size (suc i) n
  ok (e ∷ rest)

unfoldable pub decode_packet : List ℕ → WireResult Packet
decode_packet buf = do
  need buf packet_header_size
  entry_count ← read_u16 buf 0
  flags ← read_u16 buf 2
  payload_size ← read_u32 buf 4
  dropped ← read_u32 buf 8
  let payload_base = table_off + entry_count * entry_header_size
  need buf payload_base
  need buf (payload_base + payload_size)
  entries ← decode_entries buf payload_base payload_size 0 entry_count
  ok (record {
    header = record {
      entry_count = entry_count;
      flags = flags;
      payload_size = payload_size;
      dropped = dropped;
    };
    entries = entries;
  })
