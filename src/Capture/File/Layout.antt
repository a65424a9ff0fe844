-- ===== src/Capture/File/Layout.antt =====
-- viewer/crates/btelem-capture/src/lib.rs: the layout of a `.btlm` file.
use btelem.Prelude.{
  ℕ, suc, ◌+◌, ◌≡◌, refl, sym, ap, ◌∙◌, List, [], ◌∷◌, ◌++◌, arith, length, length-append,
  append_assoc, append-nil, to_le, flat,
}
use btelem.Capture.Ring.{PacketMeta, Held}
use btelem.Capture.File.{magic, version, index_magic, write_packets, write_index, write_btlm_inner}

-- Where each packet starts, the first one at `pos`.
abbrev pub offsets_from : ℕ → List Held → List (ℕ × PacketMeta)
offsets_from pos [] = []
offsets_from pos (p ∷ ps) = (pos, p.1) ∷ offsets_from (pos + length p.0) ps

abbrev pub body_bytes : List Held → List ℕ
body_bytes ps = flat (λ p. p.0) ps

abbrev pub index_bytes : ℕ × PacketMeta → List ℕ
index_bytes e =
    to_le 8 e.0 ++ (to_le 8 e.1.ts_min ++ (to_le 8 e.1.ts_max ++ to_le 4 e.1.entry_count))

abbrev pub trailer : ℕ → ℕ → List ℕ
trailer index_offset n = to_le 8 index_offset ++ (to_le 4 n ++ to_le 4 index_magic)

-- The offset of the index.
abbrev pub index_start : List ℕ → List Held → ℕ
index_start schema ps = 10 + length schema + length (body_bytes ps)

abbrev pub file_bytes : List ℕ → List Held → List ℕ
file_bytes schema ps =
    magic
    ++ (to_le 2 version
        ++ (to_le 4 (length schema)
            ++ (schema
                ++ (body_bytes ps
                    ++ (flat index_bytes (offsets_from (10 + length schema) ps)
                        ++ trailer (index_start schema ps) (length ps))))))

pub length-offsets_from : (pos : ℕ) (ps : List Held) → length (offsets_from pos ps) ≡ length ps
length-offsets_from pos [] = refl
length-offsets_from pos (p ∷ ps) = ap suc (length-offsets_from (pos + length p.0) ps)

write_packets_lem :
    (w : List ℕ) (ps : List Held)
    → write_packets w ps ≡ (w ++ body_bytes ps, offsets_from (length w) ps)
unfolding write_packets
write_packets_lem w [] = rw (append-nil w)
write_packets_lem w (p ∷ ps) =
    rw (write_packets_lem (w ++ p.0) ps, append_assoc w p.0 (body_bytes ps), length-append w p.0)

write_index_lem :
    (os : List (ℕ × PacketMeta)) (w : List ℕ) → write_index w os ≡ w ++ flat index_bytes os
unfolding write_index
write_index_lem [] w = sym (append-nil w)
write_index_lem (o ∷ os) w =
    write_index_lem os
      (((w ++ to_le 8 o.0) ++ to_le 8 o.1.ts_min) ++ to_le 8 o.1.ts_max ++ to_le 4 o.1.entry_count)
    ∙ assoc w (to_le 8 o.0) (to_le 8 o.1.ts_min) (to_le 8 o.1.ts_max) (to_le 4 o.1.entry_count)
        (flat index_bytes os)
  where
    assoc :
        (w a b c d r : List ℕ)
        → ((((w ++ a) ++ b) ++ c) ++ d) ++ r ≡ w ++ ((a ++ (b ++ (c ++ d))) ++ r)
    assoc w a b c d r = simp (append_assoc)

assoc_file :
    (w body index a b c : List ℕ)
    → ((((w ++ body) ++ index) ++ a) ++ b) ++ c ≡ w ++ (body ++ (index ++ (a ++ (b ++ c))))
assoc_file w body index a b c = simp (append_assoc)

-- The writer produces the layout.
pub write_btlm_inner_lem :
    (schema : List ℕ) (ps : List Held) → write_btlm_inner schema ps ≡ file_bytes schema ps
unfolding write_btlm_inner
write_btlm_inner_lem schema ps =
    let w1 : List ℕ = ((magic ++ to_le 2 version) ++ to_le 4 (length schema)) ++ schema in
    let n1 : length w1 ≡ 10 + length schema = omega arith in
    let n2 : length (w1 ++ body_bytes ps) ≡ index_start schema ps =
      omega (arith, length-append w1 (body_bytes ps)) in
    rw
      (
        write_packets_lem w1 ps,
        n1,
        write_index_lem (offsets_from (10 + length schema) ps) (w1 ++ body_bytes ps),
        n2,
        length-offsets_from (10 + length schema) ps,
      )
      (assoc_file w1 (body_bytes ps) (flat index_bytes (offsets_from (10 + length schema) ps))
        (to_le 8 (index_start schema ps)) (to_le 4 (length ps)) (to_le 4 index_magic))
