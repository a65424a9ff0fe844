-- ===== src/Capture/Ring/Invariant.antt =====
-- viewer/crates/btelem-capture/src/lib.rs: the counters of the ring for every sequence of calls, and
-- what eviction keeps.
use btelem.Prelude.{
  ℕ, zero, suc, ◌+◌, ◌-◌, ◌≤◌, ◌<◌, ◌≡◌, refl, ap, inl, inr, List, [], ◌∷◌, ◌++◌, ok, of_bind,
  ok-injective, arith, ltb, ltb-false, ltb→lt, Bool-cases, length, length-append, drop, subst, map,
  sym, ◌∙◌, append_assoc, length-map,
}
use mathlib.Core.List.{map-append}
use btelem.Capture.Ring.{
  PacketMeta, Held, Inner, with_capacity, clear, evict, evict_to_fit, extract_meta, set_schema,
  push_packet,
}

-- The bytes of the packets.
abbrev pub held_bytes : List Held → ℕ
held_bytes [] = 0
held_bytes (p ∷ ps) = length p.0 + held_bytes ps

held_bytes-append : (xs ys : List Held) → held_bytes (xs ++ ys) ≡ held_bytes xs + held_bytes ys
held_bytes-append [] ys = omega arith
held_bytes-append (x ∷ xs) ys = omega (arith, held_bytes-append xs ys)

-- `kept` is the longest end of `all` whose bytes fit: from any earlier packet on, they do not.
pub record IsLongestFit (cap : ℕ) (all kept : List Held) : Type 0 where
  pub dropped : List Held
  pub split : all ≡ dropped ++ kept
  pub fits : held_bytes kept ≤ cap
  pub longest : (k : ℕ) → k < length dropped → cap < held_bytes (drop k all)

pub record IsCounted (g : Inner) : Type 0 where
  pub bytes : g.bytes ≡ held_bytes g.packets
  pub bounded : g.bytes ≤ g.cap_bytes
  pub total : g.packets_total ≡ g.packets_dropped + length g.packets

-- The states of a ring of `cap` bytes, with the packets that it accepted since it was made or cleared
-- last, in order. A call that fails changes nothing.
pub data Reach (cap : ℕ) : List (List ℕ) → Inner → Type 0 where
  new : Reach cap [] (with_capacity cap)
  clears : {accepted : List (List ℕ)} {g : Inner} → Reach cap accepted g → Reach cap [] (clear g)
  sets_schema :
      {accepted : List (List ℕ)} {g : Inner} (now : ℕ) (blob : List ℕ)
      → Reach cap accepted g
      → Reach cap accepted (set_schema now blob g).0
  pushes :
      {accepted : List (List ℕ)} {g : Inner} (now : ℕ) (packet : List ℕ) (h : Inner)
      → Reach cap accepted g
      → push_packet now packet g ≡ ok h
      → Reach cap (accepted ++ (packet ∷ [])) h

abbrev Evicted : ℕ → ℕ → List Held → ℕ × ℕ × List Held → Type 0
Evicted cap dropped all left =
    (left.0 ≡ held_bytes left.2)
    × (left.1 + length left.2 ≡ dropped + length all)
    × IsLongestFit cap all left.2

longest_after :
    (cap : ℕ) (p : Held) (ps dropped : List Held)
    → cap < held_bytes (p ∷ ps)
    → ((k : ℕ) → k < length dropped → cap < held_bytes (drop k ps))
    → (k : ℕ) → k < suc (length dropped)
    → cap < held_bytes (drop k (p ∷ ps))
longest_after cap p ps dropped over l zero h = over
longest_after cap p ps dropped over l (suc k) h = l k (omega arith)

evict_lem :
    (cap bytes dropped : ℕ) (all : List Held)
    → bytes ≡ held_bytes all
    → Evicted cap dropped all (evict cap bytes dropped all)
unfolding evict
evict_lem cap bytes dropped [] e = (
  e,
  refl,
  record { dropped = []; split = refl; fits = omega arith; longest = λ k h. elim h [ ] },
)
evict_lem cap bytes dropped (p ∷ ps) e = elim (Bool-cases (ltb cap bytes)) [
  | inl over ↦
      let (b, c, l) = evict_lem cap (bytes - length p.0) (dropped + 1) ps (omega arith) in
      rw (over, evict)
        (
          b,
          omega (arith, c),
          record {
            dropped = p ∷ l.dropped;
            split = ap (◌∷◌ p) l.split;
            fits = l.fits;
            longest =
                longest_after cap p ps l.dropped (omega (arith, ltb→lt cap bytes over)) l.longest;
          },
        )
  | inr under ↦
      rw (under, evict)
        (
          e,
          refl,
          record {
            dropped = [];
            split = refl;
            fits = omega (arith, ltb-false cap bytes under);
            longest = λ k h. elim h [ ];
          },
        )
]

-- What a packet that is accepted leaves.
pub record Pushed (packet : List ℕ) (g h : Inner) : Type 0 where
  pub meta : PacketMeta
  pub accepted : extract_meta packet ≡ ok meta
  pub counted : IsCounted h
  pub kept : IsLongestFit g.cap_bytes (g.packets ++ ((packet, meta) ∷ [])) h.packets
  pub cap : h.cap_bytes ≡ g.cap_bytes
  pub schema : h.schema ≡ g.schema
  pub one_more : h.packets_total ≡ g.packets_total + 1

-- A packet that is accepted by a ring whose counters are right goes to the end of the queue, and
-- the ring then keeps the longest end of the queue that fits its capacity: the oldest packets go
-- first and no more of them than it takes; the counters are right again and one packet more is
-- counted, and the schema and the capacity stay.
pub push_packet-Pushed :
    (now : ℕ) (packet : List ℕ) (g h : Inner)
    → IsCounted g
    → push_packet now packet g ≡ ok h
    → Pushed packet g h
unfolding push_packet evict_to_fit
push_packet-Pushed now packet g h c e = of_bind (extract_meta packet) e λ meta em eh.
    let all : List Held = g.packets ++ ((packet, meta) ∷ []) in
    let (b, n, l) =
      evict_lem g.cap_bytes (g.bytes + length packet) g.packets_dropped all
        (omega (arith, c.bytes, held_bytes-append g.packets ((packet, meta) ∷ []))) in
    subst (Pushed packet g) (ok-injective eh) (record {
      meta = meta;
      accepted = em;
      kept = l;
      cap = refl;
      schema = refl;
      one_more = refl;
      counted = record {
        bytes = b;
        bounded = omega (arith, b, l.fits);
        total = omega (arith, n, c.total, length-append g.packets ((packet, meta) ∷ []));
      };
    })

-- What became of the packets that were accepted since the last clear.
pub record IsKept (cap : ℕ) (accepted : List (List ℕ)) (g : Inner) : Type 0 where
  pub counted : IsCounted g
  pub capacity : g.cap_bytes ≡ cap
  pub dropped : List (List ℕ)
  pub split : accepted ≡ dropped ++ map (λ p. p.0) g.packets
  pub drops : g.packets_dropped ≡ length dropped
  pub total : g.packets_total ≡ length accepted

Pushed-IsKept :
    {cap : ℕ} {accepted : List (List ℕ)} {packet : List ℕ} {g h : Inner}
    → IsKept cap accepted g
    → Pushed packet g h
    → IsKept cap (accepted ++ (packet ∷ [])) h
Pushed-IsKept {cap} {accepted} {packet} {g} {h} k p =
    let name = λ (x : Held). x.0 in
    let gone : List (List ℕ) = k.dropped ++ map name p.kept.dropped in
    let split : accepted ++ (packet ∷ []) ≡ gone ++ map name h.packets =
      ap (λ xs. xs ++ (packet ∷ [])) k.split
      ∙ append_assoc k.dropped (map name g.packets) (packet ∷ [])
      ∙ ap (λ xs. k.dropped ++ xs)
          (sym (map-append name g.packets ((packet, p.meta) ∷ []))
            ∙ ap (map name) p.kept.split
            ∙ map-append name p.kept.dropped h.packets)
      ∙ sym (append_assoc k.dropped (map name p.kept.dropped) (map name h.packets)) in
    let total : h.packets_total ≡ length (accepted ++ (packet ∷ [])) =
      omega (arith, p.one_more, k.total, length-append accepted (packet ∷ [])) in
    let same = ap length split in
    record {
      counted = p.counted;
      capacity = p.cap ∙ k.capacity;
      dropped = gone;
      split = split;
      drops = omega (
        arith,
        total,
        same,
        p.counted.total,
        length-append gone (map name h.packets),
        length-map h.packets name,
      );
      total = total;
    }

-- In every state of the ring, for the packets accepted since it was made or cleared last: the packets
-- held are the last of them, in order, and those before them are counted as dropped; the total counts
-- them all; the byte count is the sum of the packets held and is at most the capacity.
pub Reach-IsKept :
    {cap : ℕ} {accepted : List (List ℕ)} {g : Inner} → Reach cap accepted g → IsKept cap accepted g
unfolding with_capacity clear set_schema
Reach-IsKept new = record {
  counted = record { bytes = refl; bounded = omega arith; total = refl };
  capacity = refl;
  dropped = [];
  split = refl;
  drops = refl;
  total = refl;
}
Reach-IsKept (clears r) = record {
  counted = record { bytes = refl; bounded = omega arith; total = refl };
  capacity = (Reach-IsKept r).capacity;
  dropped = [];
  split = refl;
  drops = refl;
  total = refl;
}
Reach-IsKept (sets_schema now blob r) =
    let k = Reach-IsKept r in
    record {
      counted = record {
        bytes = k.counted.bytes;
        bounded = k.counted.bounded;
        total = k.counted.total;
      };
      capacity = k.capacity;
      dropped = k.dropped;
      split = k.split;
      drops = k.drops;
      total = k.total;
    }
Reach-IsKept (pushes {g = g} now packet h r e) =
    let k = Reach-IsKept r in Pushed-IsKept k (push_packet-Pushed now packet g h k.counted e)
