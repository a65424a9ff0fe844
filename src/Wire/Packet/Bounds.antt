-- ===== src/Wire/Packet/Bounds.antt =====
-- viewer/crates/btelem-wire/src/packet.rs: `decode_packet` on any buffer.
use btelem.Prelude.{
  ℕ, zero, suc, ◌+◌, ◌*◌, ◌≤◌, ◌≡◌, refl, List, [], ◌∷◌, ok, err, arith, length, All, slice,
  of_bind, subst, ◌∙◌, ok-injective, ap, drop, length-take, length-drop, ltb, if◌then◌else◌,
  Bool-cases, inl, inr, ltb-false,
}
use btelem.Wire.{WireResult, payload_oob, need, read_u16, read_u32, read_u64}
use btelem.Wire.Packet.{DecodedEntry, Packet, decode_entry, decode_entries, decode_packet}

-- The payload of `e` is a range of the payload buffer, which starts at `base` and has `size` bytes.
pub record InPayload (buf : List ℕ) (base size : ℕ) (e : DecodedEntry) : Type 0 where
  pub from : ℕ
  pub within : from + length e.payload ≤ size
  pub bytes : e.payload ≡ slice buf (base + from) (length e.payload)

need-ok : (buf : List ℕ) (n : ℕ) {u : Unit {0}} → need buf n ≡ ok u → n ≤ length buf
unfolding need
need-ok buf n e = ground arith

slice_fits : (buf : List ℕ) (off n : ℕ) → off + n ≤ length buf → length (slice buf off n) ≡ n
slice_fits buf off n h = omega (arith, length-take n (drop off buf), length-drop off buf)

module _ (buf : List ℕ) (base size : ℕ) (room : base + size ≤ length buf) where
  checked :
      (id psize poff ts : ℕ) (e : DecodedEntry)
      → (if ltb size (poff + psize)
          then err (payload_oob poff psize size)
          else ok (record { id = id; timestamp = ts; payload = slice buf (base + poff) psize }))
        ≡ ok e
      → InPayload buf base size e
  checked id psize poff ts e h = elim (Bool-cases (ltb size (poff + psize))) [
    | inl long ↦ absurd (cc (rw long at h))
    | inr fits ↦
        let whole : length (slice buf (base + poff) psize) ≡ psize =
          slice_fits buf (base + poff) psize (omega (arith, ltb-false size (poff + psize) fits)) in
        let same : slice buf (base + poff) psize ≡ e.payload = ground arith in
        record {
          from = poff;
          within = omega (arith, ltb-false size (poff + psize) fits, ap length same);
          bytes = rw (← same, whole);
        }
  ]

  decode_entry-InPayload :
      (i : ℕ) (e : DecodedEntry) → decode_entry buf base size i ≡ ok e → InPayload buf base size e
  unfolding decode_entry
  decode_entry-InPayload i e h = of_bind (read_u16 buf (16 + i * 16)) h λ id _ h1.
      of_bind (read_u16 buf (16 + i * 16 + 2)) h1 λ psize _ h2.
        of_bind (read_u32 buf (16 + i * 16 + 4)) h2 λ poff _ h3.
          of_bind (read_u64 buf (16 + i * 16 + 8)) h3 λ ts _ h4. checked id psize poff ts e h4

  decode_entries-InPayload :
      (i n : ℕ) (es : List DecodedEntry)
      → decode_entries buf base size i n ≡ ok es
      → (length es ≡ n) × All (InPayload buf base size) es
  unfolding decode_entries
  decode_entries-InPayload i zero [] h = (refl, tt)
  decode_entries-InPayload i zero (e ∷ es) h = absurd (cc h)
  decode_entries-InPayload i (suc n) [] h =
      of_bind (decode_entry buf base size i) h
        λ e _ h1. of_bind (decode_entries buf base size (suc i) n) h1 λ rest _ h2. absurd (cc h2)
  decode_entries-InPayload i (suc n) (e ∷ es) h =
      of_bind (decode_entry buf base size i) h λ e' first h1.
        of_bind (decode_entries buf base size (suc i) n) h1 λ rest more h2.
          let same : ◌≡◌ {A = WireResult DecodedEntry} (ok e') (ok e) = cc h2 in
          let tails : ◌≡◌ {A = WireResult (List DecodedEntry)} (ok rest) (ok es) = cc h2 in
          let (len, all) = decode_entries-InPayload (suc i) n es (more ∙ tails) in
          (ap suc len, (decode_entry-InPayload i e (first ∙ same), all))

-- The statement of the theorem below at one packet.
abbrev Guarantee : List ℕ → Packet → Type 0
Guarantee buf p =
    (16 + p.header.entry_count * 16 + p.header.payload_size ≤ length buf)
    × (length p.entries ≡ p.header.entry_count)
    × All (InPayload buf (16 + p.header.entry_count * 16) p.header.payload_size) p.entries

of_ok :
    (buf : List ℕ) (q p : Packet)
    → ◌≡◌ {A = WireResult Packet} (ok q) (ok p)
    → Guarantee buf q
    → Guarantee buf p
of_ok buf q p e g = subst (Guarantee buf) (ok-injective e) g

-- What a successful decoding guarantees of any buffer: the header, the entry table and the payload
-- buffer lie within it, there are as many entries as the header says, and the payload of each is a
-- range of the payload buffer.
pub decode_packet-InPayload :
    (buf : List ℕ) (p : Packet)
    → decode_packet buf ≡ ok p
    → (16 + p.header.entry_count * 16 + p.header.payload_size ≤ length buf)
      × (length p.entries ≡ p.header.entry_count)
      × All (InPayload buf (16 + p.header.entry_count * 16) p.header.payload_size) p.entries
unfolding decode_packet
decode_packet-InPayload buf p h0 = of_bind (need buf 16) h0 λ _ _ h1.
    of_bind (read_u16 buf 0) h1 λ count _ h2. of_bind (read_u16 buf 2) h2 λ flags _ h3.
      of_bind (read_u32 buf 4) h3 λ size _ h4. of_bind (read_u32 buf 8) h4 λ dropped _ h5.
        of_bind (need buf (16 + count * 16)) h5 λ _ _ h6.
          of_bind (need buf (16 + count * 16 + size)) h6 λ _ room h7.
            of_bind (decode_entries buf (16 + count * 16) size 0 count) h7 λ es got h8.
              let fits = need-ok buf (16 + count * 16 + size) room in
              let (len, all) =
                decode_entries-InPayload buf (16 + count * 16) size fits 0 count es got in
              of_ok buf _ p h8 (fits, len, all)
