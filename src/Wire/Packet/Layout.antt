-- ===== src/Wire/Packet/Layout.antt =====
-- viewer/crates/btelem-wire/src/packet.rs: `decode_packet` against a description of the layout of
-- a packet (include/btelem/btelem_types.h: the header, the entry table, the payloads in order).
use btelem.Prelude.{
  ℕ, suc, ◌+◌, ◌*◌, ◌^◌, ◌≤◌, ◌<◌, ◌≡◌, refl, List, [], ◌∷◌, ◌++◌, ok, arith, length, length-append,
  to_le, All, At, At-split, At-whole, slice-At,
}
use btelem.Wire.Read.{need_fits, read_u16-At, read_u32-At, read_u64-At}
use btelem.Wire.Packet.{
  DecodedEntry, Packet, PacketHeader, decode_entry, decode_entries, decode_packet,
}

-- An entry header, for a payload at offset `o` of the payload buffer.
abbrev pub row : ℕ → DecodedEntry → List ℕ
row o e = to_le 2 e.id ++ (to_le 2 (length e.payload) ++ (to_le 4 o ++ to_le 8 e.timestamp))

abbrev pub table : ℕ → List DecodedEntry → List ℕ
table o [] = []
table o (e ∷ es) = row o e ++ table (o + length e.payload) es

abbrev pub payloads : List DecodedEntry → List ℕ
payloads [] = []
payloads (e ∷ es) = e.payload ++ payloads es

-- The header, with the reserved word behind the drop counter.
abbrev pub header_bytes : PacketHeader → ℕ → List ℕ
header_bytes h reserved =
    to_le 2 h.entry_count
    ++ (to_le 2 h.flags ++ (to_le 4 h.payload_size ++ (to_le 4 h.dropped ++ to_le 4 reserved)))

abbrev pub packet_bytes : Packet → ℕ → List ℕ
packet_bytes p reserved =
    header_bytes p.header reserved ++ (table 0 p.entries ++ payloads p.entries)

pub record EntryFits (e : DecodedEntry) : Type 0 where
  pub id : e.id < 2 ^ 16
  pub timestamp : e.timestamp < 2 ^ 64
  pub payload : length e.payload < 2 ^ 16

-- The header tells the truth about the entries, and every field fits its width.
pub record PacketFits (p : Packet) : Type 0 where
  pub count : p.header.entry_count ≡ length p.entries
  pub size : p.header.payload_size ≡ length (payloads p.entries)
  pub entry_count : p.header.entry_count < 2 ^ 16
  pub flags : p.header.flags < 2 ^ 16
  pub payload_size : p.header.payload_size < 2 ^ 32
  pub dropped : p.header.dropped < 2 ^ 32
  pub entries : All EntryFits p.entries

length-row : (o : ℕ) (e : DecodedEntry) → length (row o e) ≡ 16
length-row o e = refl

length-table : (o : ℕ) (es : List DecodedEntry) → length (table o es) ≡ 16 * length es
length-table o [] = refl
length-table o (e ∷ es) = omega (arith, length-table (o + length e.payload) es)

module _ {buf : List ℕ} (base total : ℕ) where
  decode_entry-At :
      (i o : ℕ) (e : DecodedEntry)
      → At buf (16 + i * 16) (row o e)
      → At buf (base + o) e.payload
      → EntryFits e
      → o + length e.payload ≤ total
      → total < 2 ^ 32
      → decode_entry buf base total i ≡ ok e
  unfolding decode_entry
  decode_entry-At i o e a p f within small =
      let off = 16 + i * 16 in
      let (a1, b1) = At-split (to_le 2 e.id) _ (off + 2) a refl in
      let (a2, b2) = At-split (to_le 2 (length e.payload)) _ (off + 4) b1 (omega arith) in
      let (a3, a4) = At-split (to_le 4 o) _ (off + 8) b2 (omega arith) in
      rw
        (
          read_u16-At e.id f.id a1,
          read_u16-At (length e.payload) f.payload a2,
          read_u32-At o (omega arith) a3,
          read_u64-At e.timestamp f.timestamp a4,
          slice-At (length e.payload) refl p,
        )
        (ground arith)

  decode_entries-At :
      (i o : ℕ) (es : List DecodedEntry)
      → At buf (16 + i * 16) (table o es)
      → At buf (base + o) (payloads es)
      → All EntryFits es
      → o + length (payloads es) ≤ total
      → total < 2 ^ 32
      → decode_entries buf base total i (length es) ≡ ok es
  unfolding decode_entries
  decode_entries-At i o [] a p f within small = refl
  decode_entries-At i o (e ∷ es) a p f within small =
      let (a1, a2) = At-split (row o e) _ (16 + suc i * 16) a (omega arith) in
      let (p1, p2) = At-split e.payload _ (base + (o + length e.payload)) p (omega arith) in
      let len = length-append e.payload (payloads es) in
      rw (
        decode_entry-At i o e a1 p1 f.0 (omega (arith, len)) small,
        decode_entries-At (suc i) (o + length e.payload) es a2 p2 f.1 (omega (arith, len)) small,
      )

length-packet_bytes :
    (p : Packet) (reserved : ℕ)
    → length (packet_bytes p reserved) ≡ 16 + 16 * length p.entries + length (payloads p.entries)
length-packet_bytes p reserved =
    omega (arith, length-table 0 p.entries, length-append (table 0 p.entries) (payloads p.entries))

-- Decoding a packet that is laid out as the header file says gives back the packet: the header
-- and every entry with its id, its timestamp and its payload, whatever the reserved word is.
pub decode_packet-packet_bytes :
    (p : Packet) (reserved : ℕ) → PacketFits p → decode_packet (packet_bytes p reserved) ≡ ok p
unfolding decode_packet
decode_packet-packet_bytes p reserved f =
    let buf = packet_bytes p reserved in
    let h = p.header in
    let len = length-packet_bytes p reserved in
    let base = 16 + h.entry_count * 16 in
    let (a0, body) = At-split (header_bytes h reserved) _ 16 (At-whole buf) refl in
    let (a1, b1) = At-split (to_le 2 h.entry_count) _ 2 a0 refl in
    let (a2, b2) = At-split (to_le 2 h.flags) _ 4 b1 refl in
    let (a3, b3) = At-split (to_le 4 h.payload_size) _ 8 b2 refl in
    let (a4, b4) = At-split (to_le 4 h.dropped) _ 12 b3 refl in
    let (a5, a6) =
      At-split (table 0 p.entries) (payloads p.entries) (base + 0) body
        (omega (arith, length-table 0 p.entries, f.count)) in
    let entries = rw (← f.count) at (
      decode_entries-At base h.payload_size 0 0 p.entries a5 a6 f.entries (omega (arith, f.size))
        f.payload_size) in
    rw (
      need_fits buf 16 (omega (arith, len)),
      read_u16-At h.entry_count f.entry_count a1,
      read_u16-At h.flags f.flags a2,
      read_u32-At h.payload_size f.payload_size a3,
      read_u32-At h.dropped f.dropped a4,
      need_fits buf base (omega (arith, len, f.count)),
      need_fits buf (base + h.payload_size) (omega (arith, len, f.count, f.size)),
      entries,
    )
