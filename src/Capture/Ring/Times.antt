-- ===== src/Capture/Ring/Times.antt =====
-- viewer/crates/btelem-capture/src/lib.rs: the time range that `extract_meta` reads off a packet.
use btelem.Prelude.{
  ℕ, zero, suc, ◌+◌, ◌*◌, ◌^◌, ◌≤◌, ◌<◌, ◌≡◌, refl, ap, ◌⊎◌, inl, inr, subst, false, List, [], ◌∷◌,
  ok, ok-injective, arith, ltb, ◌==◌, ==_iff, Bool-cases, length, slice, take, drop, from_le,
  get_or, min, max, leb, leb→le, leb-false, All, IsByte, length-take,
}
use native.Mathlib.Nat.{pow-suc}
use btelem.Capture.Ring.{PacketMeta, packet_header_size, entry_header_size, ts_range, extract_meta}

-- The time of entry `i`, as the table of the packet has it.
abbrev pub ts_at : List ℕ → ℕ → ℕ
ts_at buf i = from_le (slice buf (packet_header_size + i * entry_header_size + 8) 8)

take-All : (P : ℕ → Type 0) (n : ℕ) (xs : List ℕ) → All P xs → All P (take n xs)
take-All P zero xs h = tt
take-All P (suc n) [] h = tt
take-All P (suc n) (x ∷ xs) h = (h.0, take-All P n xs h.1)

drop-All : (P : ℕ → Type 0) (n : ℕ) (xs : List ℕ) → All P xs → All P (drop n xs)
drop-All P zero xs h = h
drop-All P (suc n) [] h = tt
drop-All P (suc n) (x ∷ xs) h = drop-All P n xs h.1

-- Some of `k` bytes are a word of `k` bytes.
from_le-le : (k : ℕ) (bs : List ℕ) → All IsByte bs → length bs ≤ k → from_le bs < 256 ^ k
from_le-le zero [] h l = omega arith
from_le-le zero (b ∷ bs) h l = elim l [ ]
from_le-le (suc k) [] h l = omega (arith, pow-suc 256 k, from_le-le k [] tt (omega arith))
from_le-le (suc k) (b ∷ bs) h l =
    omega (arith, pow-suc 256 k, from_le-le k bs h.1 (omega arith), h.0)

ts_at-lt : (buf : List ℕ) (i : ℕ) → All IsByte buf → ts_at buf i < 2 ^ 64
ts_at-lt buf i h =
    let off = packet_header_size + i * entry_header_size + 8 in
    from_le-le 8 (slice buf off 8) (take-All IsByte 8 (drop off buf) (drop-All IsByte off buf h))
      (omega (arith, length-take 8 (drop off buf)))

-- One step of a search for the bounds of `t`.
module _ (t : ℕ → ℕ) (i n : ℕ) where
  bounds_step :
      (a b : ℕ)
      → a ≤ t i
      → t i ≤ b
      → ((j : ℕ) → suc i ≤ j → j < suc i + n → (a ≤ t j) × (t j ≤ b))
      → (j : ℕ) → i ≤ j
      → j < i + suc n
      → (a ≤ t j) × (t j ≤ b)
  bounds_step a b l h f j p q = elim (Bool-cases (i == j)) [
    | inl e ↦ subst (λ j. (a ≤ t j) × (t j ≤ b)) ((==_iff i j).0 e) (l, h)
    | inr e ↦ f j (after e p) (omega (arith, q))
  ]
    where
      after : {i j : ℕ} → (i == j) ≡ false → i ≤ j → suc i ≤ j
      after e p = ground (arith, e, p)

  least_step :
      (a lo : ℕ)
      → (a ≡ min lo (t i)) ⊎ ((j : ℕ) × (j < suc i + n) × (t j ≡ a))
      → (a ≡ lo) ⊎ ((j : ℕ) × (j < i + suc n) × (t j ≡ a))
  least_step a lo (inr (j, l, e)) = inr (j, omega (arith, l), e)
  least_step a lo (inl e) = elim (Bool-cases (leb lo (t i))) [
    | inl h ↦ inl (omega (arith, e, leb→le lo (t i) h))
    | inr h ↦ inr (i, omega arith, omega (arith, e, leb-false lo (t i) h))
  ]

  greatest_step :
      (a hi : ℕ)
      → (a ≡ max hi (t i)) ⊎ ((j : ℕ) × (j < suc i + n) × (t j ≡ a))
      → (a ≡ hi) ⊎ ((j : ℕ) × (j < i + suc n) × (t j ≡ a))
  greatest_step a hi (inr (j, l, e)) = inr (j, omega (arith, l), e)
  greatest_step a hi (inl e) = elim (Bool-cases (leb (t i) hi)) [
    | inl h ↦ inl (omega (arith, e, leb→le (t i) hi h))
    | inr h ↦ inr (i, omega arith, omega (arith, e, leb-false (t i) hi h))
  ]

-- What the loop has found: bounds of the entries from `i` on, each of them reached or a start value.
record Found (buf : List ℕ) (lo hi i n : ℕ) (r : ℕ × ℕ) : Type 0 where
  low : r.0 ≤ lo
  high : hi ≤ r.1
  bounds : (j : ℕ) → i ≤ j → j < i + n → (r.0 ≤ ts_at buf j) × (ts_at buf j ≤ r.1)
  least : (r.0 ≡ lo) ⊎ ((j : ℕ) × (j < i + n) × (ts_at buf j ≡ r.0))
  greatest : (r.1 ≡ hi) ⊎ ((j : ℕ) × (j < i + n) × (ts_at buf j ≡ r.1))

ts_range-Found : (buf : List ℕ) (lo hi i n : ℕ) → Found buf lo hi i n (ts_range buf lo hi i n)
unfolding ts_range
ts_range-Found buf lo hi i zero = record {
  low = omega arith;
  high = omega arith;
  bounds = λ j a b. absurd (omega (arith, a, b));
  least = inl refl;
  greatest = inl refl;
}
ts_range-Found buf lo hi i (suc n) =
    let ts = ts_at buf i in
    let f = ts_range-Found buf (min lo ts) (max hi ts) (suc i) n in
    let r = ts_range buf (min lo ts) (max hi ts) (suc i) n in
    record {
      low = omega (arith, f.low);
      high = omega (arith, f.high);
      bounds =
          bounds_step (ts_at buf) i n r.0 r.1 (omega (arith, f.low)) (omega (arith, f.high))
            f.bounds;
      least = least_step (ts_at buf) i n r.0 lo f.least;
      greatest = greatest_step (ts_at buf) i n r.1 hi f.greatest;
    }

-- The range is that of the entries.
pub record IsTimeRange (buf : List ℕ) (m : PacketMeta) : Type 0 where
  pub bounds : (j : ℕ) → j < m.entry_count → (m.ts_min ≤ ts_at buf j) × (ts_at buf j ≤ m.ts_max)
  pub first : (j : ℕ) × (j < m.entry_count) × (ts_at buf j ≡ m.ts_min)
  pub last : (j : ℕ) × (j < m.entry_count) × (ts_at buf j ≡ m.ts_max)

-- The start values of the loop stand for no entry, unless the entries have these times.
time_range :
    (buf : List ℕ) (n : ℕ)
    → All IsByte buf
    → 0 < n
    → IsTimeRange buf (record {
      ts_min = (ts_range buf 0xffff_ffff_ffff_ffff 0 0 n).0;
      ts_max = (ts_range buf 0xffff_ffff_ffff_ffff 0 0 n).1;
      entry_count = n;
    })
time_range buf n bytes pos =
    let f = ts_range-Found buf 0xffff_ffff_ffff_ffff 0 0 n in
    let here = f.bounds 0 (omega arith) (omega (arith, pos)) in
    let word = ts_at-lt buf 0 bytes in
    record {
      bounds = λ j l. f.bounds j (omega arith) (omega (arith, l));
      first = elim f.least [
        | inl e ↦ (0, pos, omega (arith, e, here.0, word))
        | inr (j, l, e) ↦ (j, omega (arith, l), e)
      ];
      last = elim f.greatest [
        | inl e ↦ (0, pos, omega (arith, e, here.1))
        | inr (j, l, e) ↦ (j, omega (arith, l), e)
      ];
    }

-- The times that `extract_meta` gives for a packet that has entries are the least and the
-- greatest time in the table of its entries, and both stand there.
pub extract_meta-IsTimeRange :
    (buf : List ℕ) (m : PacketMeta)
    → All IsByte buf
    → extract_meta buf ≡ ok m
    → 0 < m.entry_count
    → IsTimeRange buf m
unfolding extract_meta
extract_meta-IsTimeRange buf m bytes e pos =
    let n = from_le (get_or buf 0 0 ∷ get_or buf 1 0 ∷ []) in
    elim (Bool-cases (ltb (length buf) packet_header_size)) [
      | inl h ↦ absurd (cc (rw (h, extract_meta) at e))
      | inr h ↦ elim (Bool-cases (ltb (length buf) (packet_header_size + n * entry_header_size))) [
        | inl k ↦ absurd (cc (rw (h, k, extract_meta) at e))
        | inr k ↦ elim (Bool-cases (n == 0)) [
          | inl z ↦ absurd (no_entries (ok-injective (rw (h, k, z, extract_meta) at e)) pos)
          | inr z ↦
              subst (IsTimeRange buf) (ok-injective (rw (h, k, z, extract_meta) at e))
                (time_range buf n bytes (positive n z))
        ]
      ]
    ]
  where
    positive : (n : ℕ) → (n == 0) ≡ false → 0 < n
    positive n z = ground (arith, z)

    no_entries :
        {m : PacketMeta}
        → ◌≡◌ {A = PacketMeta} (record { ts_min = 0; ts_max = 0; entry_count = 0 }) m
        → 0 < m.entry_count
        → ⊥
    no_entries e p = omega (arith, ap (λ m. m.entry_count) e, p)
