-- ===== src/Ingest/Tcp/Reading.antt =====
-- viewer/crates/btelem-ingest/src/tcp.rs: what `read_exact_or_eof` gives on a stream, however the
-- bytes are cut into reads.
use btelem.Prelude.{
  ℕ, zero, suc, ◌-◌, ◌≤◌, ◌<◌, ◌≡◌, refl, sym, ap, ◌∙◌, ◌≢◌, ◌⊎◌, inl, inr, Bool, true, false, List,
  [], ◌∷◌, ◌++◌, ok, arith, lt→ltb, ltb_no, ◌==◌, ==_iff, take-append, drop-append, length,
  length-append, length-drop, take, drop, take_past, drop_past, take_within, drop_within,
  append_assoc, append-nil,
}
use btelem.Ingest.Tcp.{
  ErrorKind, bytes, eof, fail, Stream, Reading, is_retry, read_more, read_exact_or_eof,
}

-- The bytes that a stream delivers.
abbrev pub content : Stream → List ℕ
content [] = []
content (bytes bs ∷ s) = bs ++ content s
content (eof ∷ s) = content s
content (fail k ∷ s) = content s

-- A stream of reads that deliver something, and of pauses of a kind that is allowed.
pub data Flows (may_pause : Bool) : Stream → Type 0 where
  ends : Flows may_pause []
  delivers :
      (b : ℕ) (bs : List ℕ) (s : Stream) → Flows may_pause s → Flows may_pause (bytes (b ∷ bs) ∷ s)
  pauses :
      (k : ErrorKind) (s : Stream)
      → may_pause ≡ true
      → is_retry k ≡ true
      → Flows may_pause s
      → Flows may_pause (fail k ∷ s)

-- A read took `n` bytes off the front.
pub record Took (may_pause : Bool) (n : ℕ) (filled due : List ℕ) (r : Reading (List ℕ))
    : Type 0 where
  pub left : Stream
  pub result : r ≡ (ok (filled ++ take n due), left)
  pub remaining : content left ≡ drop n due
  pub flows : Flows may_pause left

module _ {p : Bool} where
  rest-Flows : (l : List ℕ) (s : Stream) → 0 < length l → Flows p s → Flows p (bytes l ∷ s)
  rest-Flows [] s h f = elim h [ ]
  rest-Flows (b ∷ bs) s h f = delivers b bs s f

==_no : (a b : ℕ) → b < a → (a == b) ≡ false
==_no a b h = ground arith

lt_or_ge : (a b : ℕ) → (a < b) ⊎ ((a ≡ b) ⊎ (b < a))
lt_or_ge a b = ground arith

-- One read that does not fill the buffer, that fills it, and that has more than it takes.
module _ {p : Bool} (filled : List ℕ) (b : ℕ) (bs : List ℕ) (n : ℕ) (s : Stream) where
  after_short :
      length bs < n
      → Took p
          (n - length bs)
          (filled ++ (b ∷ bs))
          (content s)
          (read_more (filled ++ (b ∷ bs)) (n - length bs) s)
      → Took p
          (suc n)
          (filled)
          (b ∷ bs ++ content s)
          (read_more (filled) (suc n) (bytes (b ∷ bs) ∷ s))
  unfolding read_more
  after_short h t =
      rw (lt→ltb (length bs) n h, read_more)
        (record {
          left = t.left;
          flows = t.flows;
          result =
              t.result
              ∙ ap (λ l. (ok l, t.left))
                  (append_assoc filled (b ∷ bs) (take (n - length bs) (content s))
                    ∙ ap (λ l. filled ++ (b ∷ l)) (sym (take_past bs (content s) n (omega arith))));
          remaining = t.remaining ∙ sym (drop_past bs (content s) n (omega arith));
        })

  after_full :
      Flows p s
      → length bs ≡ n
      → Took p
          (suc n)
          (filled)
          (b ∷ bs ++ content s)
          (read_more (filled) (suc n) (bytes (b ∷ bs) ∷ s))
  unfolding read_more
  after_full w e =
      let rest : n - length bs ≡ 0 = omega arith in
      rw (ltb_no (length bs) n (omega arith), (==_iff (length bs) n).1 e, read_more)
        (record {
          left = s;
          flows = w;
          result =
              ap (λ l. (ok (filled ++ (b ∷ l)), s))
                (sym (
                  take_past bs (content s) n (omega arith)
                  ∙ ap (λ k. bs ++ take k (content s)) rest
                  ∙ append-nil bs));
          remaining =
              sym (drop_past bs (content s) n (omega arith) ∙ ap (λ k. drop k (content s)) rest);
        })

  after_long :
      Flows p s
      → n < length bs
      → Took p
          (suc n)
          (filled)
          (b ∷ bs ++ content s)
          (read_more (filled) (suc n) (bytes (b ∷ bs) ∷ s))
  unfolding read_more
  after_long w h =
      rw (ltb_no (length bs) n (omega arith), ==_no (length bs) n (omega arith), read_more)
        (record {
          left = bytes (drop n bs) ∷ s;
          flows = rest-Flows (drop n bs) s (omega (arith, length-drop n bs)) w;
          result =
              ap (λ l. (ok (filled ++ (b ∷ l)), bytes (drop n bs) ∷ s))
                (sym (take_within bs (content s) n (omega arith)));
          remaining = sym (drop_within bs (content s) n (omega arith));
        })

read_more-Took :
    {p : Bool} (s : Stream)
    → Flows p s
    → (f : ℕ) (filled : List ℕ) (n : ℕ) → n ≤ length (content s)
    → Took p n (f ∷ filled) (content s) (read_more (f ∷ filled) n s)
unfolding read_more
read_more-Took s w f filled zero h = record {
  left = s;
  result = ap (λ l. (ok l, s)) (sym (append-nil (f ∷ filled)));
  remaining = refl;
  flows = w;
}
read_more-Took [] w f filled (suc n) h = elim h [ ]
read_more-Took _ (delivers b bs s w) f filled (suc n) h = elim (lt_or_ge (length bs) n) [
  | inl l ↦ after_short (f ∷ filled) b bs n s l (
      read_more-Took s w f (filled ++ (b ∷ bs)) (n - length bs)
        (omega (arith, h, length-append bs (content s))))
  | inr (inl e) ↦ after_full (f ∷ filled) b bs n s w e
  | inr (inr g) ↦ after_long (f ∷ filled) b bs n s w g
]
read_more-Took _ (pauses k s e r w) f filled (suc n) h =
    rw (r, read_more) (read_more-Took s w f filled (suc n) h)

-- A read is ready when it does not meet a pause.
abbrev pub Ready : Stream → Type 0
Ready [] = Unit {0}
Ready (e ∷ s) = content (e ∷ []) ≢ []

-- A read of `n` bytes from a stream that delivers as many gives the next `n` bytes and leaves
-- the rest, however the bytes are cut into reads, and whatever pauses stand behind the first of
-- them; a pause before the first byte is excluded.
pub read_exact_or_eof-Took :
    {p : Bool} (s : Stream)
    → Flows p s
    → Ready s
    → (n : ℕ) → n ≤ length (content s)
    → Took p n [] (content s) (read_exact_or_eof n s)
unfolding read_exact_or_eof read_more
read_exact_or_eof-Took s w r zero h = record {
  left = s;
  result = refl;
  remaining = refl;
  flows = w;
}
read_exact_or_eof-Took [] w r (suc n) h = elim h [ ]
read_exact_or_eof-Took _ (delivers b bs s w) r (suc n) h = elim (lt_or_ge (length bs) n) [
  | inl l ↦
      after_short [] b bs n s l
        (read_more-Took s w b bs (n - length bs) (omega (arith, h, length-append bs (content s))))
  | inr (inl e) ↦ after_full [] b bs n s w e
  | inr (inr g) ↦ after_long [] b bs n s w g
]
read_exact_or_eof-Took _ (pauses k s e i w) r (suc n) h = absurd (r refl)

Ready-no_pause : (s : Stream) → Flows false s → Ready s
Ready-no_pause [] w = tt
Ready-no_pause _ (delivers b bs s w) = λ e. absurd (cc e)
Ready-no_pause _ (pauses k s e i w) = absurd (cc e)

-- The next `length x` bytes, when the stream is known to deliver `x` first.
pub read_next :
    (s : Stream) (x more : List ℕ)
    → Flows false s
    → content s ≡ x ++ more
    → (left : Stream) × (read_exact_or_eof (length x) s ≡ (ok x, left))
      × (content left ≡ more)
      × Flows false left
read_next s x more w e =
    let t =
      read_exact_or_eof-Took s w (Ready-no_pause s w) (length x)
        (omega (arith, ap length e, length-append x more)) in
    (
      t.left,
      t.result ∙ ap (λ l. (ok l, t.left)) (ap (take (length x)) e ∙ take-append x more),
      t.remaining ∙ ap (drop (length x)) e ∙ drop-append x more,
      t.flows,
    )
