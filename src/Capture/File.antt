-- ===== src/Capture/File.antt =====
-- viewer/crates/btelem-capture/src/lib.rs: `write_btlm_inner`, `save_btlm` and `read_btlm`. A file
-- is the list of its bytes and a writer the bytes that it was given, so `stream_position` is their
-- number. That the system refuses to create, write or read a file is not modelled.
pub mod Layout
pub mod RoundTrip
use btelem.Prelude.{
  ℕ, zero, suc, ◌+◌, ◌-◌, ◌*◌, ◌^◌, List, [], ◌∷◌, ◌++◌, Option, none, some, Result, ok, err, ◌>>=◌,
  ◌>>◌, ltb, leb, ◌==◌, if◌then◌else◌, length, get_or, slice, from_le, to_le, codes,
}
use btelem.Capture.Ring.{
  CaptureError, IoError, io, unexpected_eof, invalid_input, no_schema, bad_magic,
  unsupported_version, truncated, PacketMeta, Held, Inner, bytes_eq,
}

abbrev pub magic : List ℕ
magic = codes "BTLM"

abbrev pub version : ℕ
version = 1

abbrev pub index_magic : ℕ
index_magic = 0x494c5442

-- The loop over the packets: the writer, and the offsets with the metadata.
unfoldable pub write_packets : List ℕ → List Held → List ℕ × List (ℕ × PacketMeta)
write_packets w [] = (w, [])
write_packets w ((pkt, meta) ∷ ps) =
    let (w', offsets) = write_packets (w ++ pkt) ps in (w', (length w, meta) ∷ offsets)

unfoldable pub write_index : List ℕ → List (ℕ × PacketMeta) → List ℕ
write_index w [] = w
write_index w ((off, meta) ∷ rest) =
    write_index
      ((((w ++ to_le 8 off) ++ to_le 8 meta.ts_min) ++ to_le 8 meta.ts_max)
        ++ to_le 4 meta.entry_count)
      rest

unfoldable pub write_btlm_inner : List ℕ → List Held → List ℕ
unfolding write_packets write_index
write_btlm_inner schema packets =
    let w1 = ((magic ++ to_le 2 version) ++ to_le 4 (length schema)) ++ schema in
    let (w2, offsets) = write_packets w1 packets in
    let index_offset = length w2 in
    let w3 = write_index w2 offsets in
    ((w3 ++ to_le 8 index_offset) ++ to_le 4 (length offsets)) ++ to_le 4 index_magic

pub record SaveReport : Type 0 where
  pub packets : ℕ
  pub bytes : ℕ
  pub schema_bytes : ℕ

-- The contents of the file, and the report.
unfoldable pub save_btlm : Inner → Result CaptureError (List ℕ × SaveReport)
unfolding write_btlm_inner
save_btlm g = elim g.schema [
  | none ↦ err no_schema
  | some schema ↦
      let file = write_btlm_inner schema g.packets in
      ok (
        file,
        record { packets = length g.packets; bytes = length file; schema_bytes = length schema },
      )
]

pub record LoadedCapture : Type 0 where
  pub schema : List ℕ
  pub packets : List (List ℕ)

-- `seek(SeekFrom::Start(off))`: the system takes offsets below 2^63, beyond the end too.
unfoldable pub seek : ℕ → Result CaptureError (Unit {0})
seek off = if ltb off (2 ^ 63) then ok tt else err (io invalid_input)

-- `read_exact` of `n` bytes at position `pos`.
unfoldable pub read_exact : List ℕ → ℕ → ℕ → Result CaptureError (List ℕ)
read_exact file pos n =
    if leb n (length file - pos) then ok (slice file pos n) else err (io unexpected_eof)

-- The loop over the index entries: the offsets.
unfoldable pub read_offsets : List ℕ → ℕ → ℕ → Result CaptureError (List ℕ)
unfolding read_exact
read_offsets file pos zero = ok []
read_offsets file pos (suc n) = do
  buf ← read_exact file pos 28
  rest ← read_offsets file (pos + 28) n
  ok (from_le (slice buf 0 8) ∷ rest)

-- `offsets.get(i + 1).copied().unwrap_or(index_offset)`
unfoldable pub packet_end : ℕ → List ℕ → ℕ
packet_end index_offset [] = index_offset
packet_end index_offset (next ∷ more) = next

-- The loop over the packets: each ends where the next one starts, the last at the index.
unfoldable pub read_packets : List ℕ → ℕ → List ℕ → Result CaptureError (List (List ℕ))
unfolding packet_end read_exact seek
read_packets file index_offset [] = ok []
read_packets file index_offset (start ∷ offs) = do
  let end = packet_end index_offset offs
  if ltb end start then err truncated else do
    seek start
    buf ← read_exact file start (end - start)
    rest ← read_packets file index_offset offs
    ok (buf ∷ rest)

unfoldable pub read_btlm : List ℕ → Result CaptureError LoadedCapture
unfolding read_offsets read_packets
read_btlm file = do
  found ← read_exact file 0 4
  if bytes_eq found magic
      then (do
        ver ← read_exact file 4 2
        if from_le ver == version
            then (do
              slen ← read_exact file 6 4
              schema ← read_exact file 10 (from_le slen)
              if ltb (length file) 16 then err truncated else do
                footer ← read_exact file (length file - 16) 16
                let index_offset = from_le (slice footer 0 8)
                let count = from_le (slice footer 8 4)
                if from_le (slice footer 12 4) == index_magic
                    then (do
                      seek index_offset
                      offsets ← read_offsets file index_offset count
                      packets ← read_packets file index_offset offsets
                      ok (record { schema = schema; packets = packets }))
                    else err bad_magic)
            else err (unsupported_version (from_le ver)))
      else err bad_magic
