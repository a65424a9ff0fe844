-- ===== src/Capture/File/RoundTrip.antt =====
-- viewer/crates/btelem-capture/src/lib.rs: what `read_btlm` gives for a file that
-- `write_btlm_inner` wrote.
use btelem.Prelude.{
  ℕ, ◌+◌, ◌-◌, ◌*◌, ◌^◌, ◌≤◌, ◌<◌, ◌≡◌, refl, sym, ap, List, [], ◌∷◌, ◌++◌, some, ok, arith, map,
  lt→ltb, leb_yes, ltb_no, length, length-append, length-drop, slice, slice-At, from_le, to_le,
  from_le-to_le, flat, At, At-whole, At-split, At-move, All,
}
use btelem.Capture.Ring.{PacketMeta, Held, Inner}
use btelem.Capture.File.{
  magic, version, packet_end, write_btlm_inner, seek, read_exact, read_offsets, read_packets,
  read_btlm, save_btlm, SaveReport,
}
use btelem.Capture.File.Layout.{
  offsets_from, body_bytes, index_bytes, trailer, index_start, file_bytes, length-offsets_from,
  write_btlm_inner_lem,
}

-- A packet ends where the next one starts, or at the index.
packet_end_lem :
    (pos : ℕ) (p : Held) (ps : List Held)
    → packet_end
        (pos + length (body_bytes (p ∷ ps)))
        (map (λ e. e.0) (offsets_from (pos + length p.0) ps))
      ≡ pos + length p.0
unfolding packet_end
packet_end_lem pos p [] = omega (arith, length-append p.0 [])
packet_end_lem pos p (q ∷ ps) = refl

module _ {file : List ℕ} where
  read_exact-At :
      {pos : ℕ} {x : List ℕ} (n : ℕ) → length x ≡ n → At file pos x → read_exact file pos n ≡ ok x
  unfolding read_exact
  read_exact-At {pos} {x} n e a = rw (
    leb_yes n (length file - pos)
        (omega (arith, e, ap length a.here, length-append x a.rest, length-drop pos file)),
    slice-At n e a,
  )

  read_offsets-At :
      (pos : ℕ) (os : List (ℕ × PacketMeta))
      → All (λ e. e.0 < 2 ^ 64) os
      → At file pos (flat index_bytes os)
      → read_offsets file pos (length os) ≡ ok (map (λ e. e.0) os)
  unfolding read_offsets
  read_offsets-At pos [] h a = refl
  read_offsets-At pos (o ∷ os) h a =
      let (a1, a2) = At-split (index_bytes o) (flat index_bytes os) (pos + 28) a refl in
      rw (read_exact-At 28 refl a1, read_offsets-At (pos + 28) os h.1 a2)
        (ap (λ v. ok (v ∷ map (λ e. e.0) os)) (from_le-to_le 8 o.0 (omega (arith, h.0))))

  read_packets-At :
      (pos : ℕ) (ps : List Held)
      → pos + length (body_bytes ps) < 2 ^ 63
      → At file pos (body_bytes ps)
      → read_packets file (pos + length (body_bytes ps)) (map (λ e. e.0) (offsets_from pos ps))
        ≡ ok (map (λ p. p.0) ps)
  unfolding read_packets seek
  read_packets-At pos [] h a = refl
  read_packets-At pos (p ∷ ps) h a =
      let (a1, a2) = At-split p.0 (body_bytes ps) (pos + length p.0) a refl in
      let n : length (body_bytes (p ∷ ps)) ≡ length p.0 + length (body_bytes ps) =
        length-append p.0 (body_bytes ps) in
      let e : pos + length (body_bytes (p ∷ ps)) ≡ pos + length p.0 + length (body_bytes ps) =
        omega (arith, n) in
      rw
        (
          packet_end_lem pos p ps,
          ltb_no (pos + length p.0) pos (omega arith),
          lt→ltb pos (2 ^ 63) (omega arith),
          read_exact-At {x = p.0} (pos + length p.0 - pos) (omega arith) a1,
          ap (λ k. read_packets file k (map (λ e. e.0) (offsets_from (pos + length p.0) ps))) e,
          read_packets-At (pos + length p.0) ps (omega (arith, n)) a2,
        )
        refl

-- The offsets are words.
offsets_fit :
    (pos : ℕ) (ps : List Held)
    → pos + length (body_bytes ps) < 2 ^ 63
    → All (λ e. e.0 < 2 ^ 64) (offsets_from pos ps)
offsets_fit pos [] h = tt
offsets_fit pos (p ∷ ps) h = (
  omega arith,
  offsets_fit (pos + length p.0) ps (omega (arith, length-append p.0 (body_bytes ps))),
)

length-index : (os : List (ℕ × PacketMeta)) → length (flat index_bytes os) ≡ length os * 28
length-index [] = refl
length-index (o ∷ os) =
    omega (arith, length-append (index_bytes o) (flat index_bytes os), length-index os)

trailer_words :
    (start n : ℕ)
    → start < 2 ^ 64
    → n < 2 ^ 32
    → (from_le (slice (trailer start n) 0 8) ≡ start) × (from_le (slice (trailer start n) 8 4) ≡ n)
trailer_words start n h k = (from_le-to_le 8 start (omega arith), from_le-to_le 4 n (omega arith))

-- The reader on any file whose parts stand where they should.
module _ (file schema : List ℕ) (ps : List Held) where
  read_btlm-At :
      length schema < 2 ^ 32
      → length ps < 2 ^ 32
      → index_start schema ps < 2 ^ 63
      → 16 ≤ length file
      → At file 0 magic
      → At file 4 (to_le 2 version)
      → At file 6 (to_le 4 (length schema))
      → At file 10 schema
      → At file (10 + length schema) (body_bytes ps)
      → At file (index_start schema ps) (flat index_bytes (offsets_from (10 + length schema) ps))
      → At file (length file - 16) (trailer (index_start schema ps) (length ps))
      → read_btlm file ≡ ok (record { schema = schema; packets = map (λ p. p.0) ps })
  unfolding read_btlm seek
  read_btlm-At hs hp hi len a0 a1 a2 a3 a4 a5 a7 =
      let (w1, w2) = trailer_words (index_start schema ps) (length ps) (omega arith) hp in
      rw
        (
          read_exact-At 4 refl a0,
          read_exact-At 2 refl a1,
          read_exact-At 4 refl a2,
          from_le-to_le 4 (length schema) (omega arith),
          read_exact-At (length schema) refl a3,
          ltb_no (length file) 16 len,
          read_exact-At 16 refl a7,
          w1,
          w2,
          lt→ltb (index_start schema ps) (2 ^ 63) hi,
          ap (read_offsets file (index_start schema ps))
              (sym (length-offsets_from (10 + length schema) ps)),
          read_offsets-At (index_start schema ps) (offsets_from (10 + length schema) ps)
              (offsets_fit (10 + length schema) ps hi) a5,
          read_packets-At (10 + length schema) ps hi a4,
        )
        refl

read_btlm-write_btlm_inner :
    (schema : List ℕ) (ps : List Held)
    → length schema < 2 ^ 32
    → length ps < 2 ^ 32
    → index_start schema ps < 2 ^ 63
    → read_btlm (write_btlm_inner schema ps)
      ≡ ok (record { schema = schema; packets = map (λ p. p.0) ps })
read_btlm-write_btlm_inner schema ps hs hp hi =
    let file = file_bytes schema ps in
    let n = length ps in
    let start = index_start schema ps in
    let index = flat index_bytes (offsets_from (10 + length schema) ps) in
    let (a0, b0) = At-split magic _ 4 (At-whole file) refl in
    let (a1, b1) = At-split (to_le 2 version) _ 6 b0 refl in
    let (a2, b2) = At-split (to_le 4 (length schema)) _ 10 b1 refl in
    let (a3, b3) = At-split schema _ (10 + length schema) b2 refl in
    let (a4, b4) = At-split (body_bytes ps) _ start b3 refl in
    let ni : length index ≡ n * 28 = omega (
      arith,
      length-index (offsets_from (10 + length schema) ps),
      length-offsets_from (10 + length schema) ps,
    ) in
    let (a5, a6) = At-split index _ (start + n * 28) b4 (omega (arith, ni)) in
    let len : length file ≡ start + n * 28 + 16 = omega (
      arith,
      ni,
      length-append schema (body_bytes ps ++ (index ++ trailer start n)),
      length-append (body_bytes ps) (index ++ trailer start n),
      length-append index (trailer start n),
    ) in
    let a7 = At-move {off' = length file - 16} (omega arith) a6 in
    rw (write_btlm_inner_lem schema ps)
      (read_btlm-At file schema ps hs hp hi (omega (arith, len)) a0 a1 a2 a3 a4 a5 a7)

-- A capture with a schema is saved, and reading the file gives back its schema and its packets,
-- in order, when their sizes fit the words of the format.
pub read_btlm-save_btlm :
    (g : Inner) (schema : List ℕ)
    → g.schema ≡ some schema
    → length schema < 2 ^ 32
    → length g.packets < 2 ^ 32
    → index_start schema g.packets < 2 ^ 63
    → (saved : List ℕ × SaveReport) × (save_btlm g ≡ ok saved)
      × (read_btlm saved.0 ≡ ok (record { schema = schema; packets = map (λ p. p.0) g.packets }))
unfolding save_btlm
read_btlm-save_btlm g schema e hs hp hi =
    rw (e, save_btlm) (_, refl, read_btlm-write_btlm_inner schema g.packets hs hp hi)
