-- ===== src/Wire/Utf8/Lossy.antt =====
-- `String::from_utf8_lossy` against `std::str::from_utf8`.
use btelem.Prelude.{
  ℕ, true, false, List, [], ◌∷◌, ◌++◌, Option, none, some, ◌≡◌, refl, ap, ◌∙◌, sym, ◌⊎◌, inl, inr,
  append_assoc,
}
use btelem.Wire.Utf8.{
  Utf8State, start, more, utf8_lead, utf8_step, utf8_from, is_utf8, replacement, lossy_from,
  from_utf8_lossy,
}

-- A step fails, ends a character, or leaves bytes due.
Outcome : Option Utf8State → Type 0
Outcome o =
    (o ≡ none) ⊎ ((o ≡ some start) ⊎ ((k : ℕ) × (lo : ℕ) × (hi : ℕ) × (o ≡ some (more k lo hi))))

outcome : (o : Option Utf8State) → Outcome o
unfolding Outcome
outcome none = inl refl
outcome (some start) = inr (inl refl)
outcome (some (more k lo hi)) = inr (inr (k, lo, hi, refl))

lead_step : (b : ℕ) → utf8_step start b ≡ utf8_lead b
unfolding utf8_step
lead_step b = refl

utf8_from-cons :
    (s s' : Utf8State) (b : ℕ) (bs : List ℕ)
    → utf8_step s b ≡ some s'
    → utf8_from s (b ∷ bs) ≡ utf8_from s' bs
unfolding utf8_from
utf8_from-cons start s' b bs e = rw (e, utf8_from)
utf8_from-cons (more k lo hi) s' b bs e = rw (e, utf8_from)

utf8_from-cons_none :
    (s : Utf8State) (b : ℕ) (bs : List ℕ) → utf8_step s b ≡ none → utf8_from s (b ∷ bs) ≡ false
unfolding utf8_from
utf8_from-cons_none start b bs e = rw (e, utf8_from)
utf8_from-cons_none (more k lo hi) b bs e = rw (e, utf8_from)

-- What was read of a character.
abbrev pending : Utf8State → List ℕ → List ℕ
pending start seen = []
pending (more k lo hi) seen = seen

-- Nothing is replaced where the rest is well formed.
lossy_valid :
    (s : Utf8State) (seen bs : List ℕ)
    → utf8_from s bs ≡ true
    → lossy_from s seen bs ≡ pending s seen ++ bs
unfolding lossy_from Outcome
lossy_valid start seen [] h = refl
lossy_valid (more k lo hi) seen [] h = unfold utf8_from in absurd (cc h)
lossy_valid start seen (b ∷ bs) h = elim (outcome (utf8_lead b)) [
  | inl e ↦ absurd (cc (h, utf8_from-cons_none start b bs (lead_step b ∙ e)))
  | inr (inl e) ↦
      rw (e, lossy_from)
        (ap (◌∷◌ b)
          (lossy_valid start [] bs (sym (utf8_from-cons start start b bs (lead_step b ∙ e)) ∙ h)))
  | inr (inr (k, lo, hi, e)) ↦
      rw (e, lossy_from)
        (lossy_valid (more k lo hi) (b ∷ []) bs
          (sym (utf8_from-cons start (more k lo hi) b bs (lead_step b ∙ e)) ∙ h))
]
lossy_valid (more k lo hi) seen (b ∷ bs) h = elim (outcome (utf8_step (more k lo hi) b)) [
  | inl e ↦ absurd (cc (h, utf8_from-cons_none (more k lo hi) b bs e))
  | inr (inl e) ↦
      rw (e, lossy_from)
        (ap (◌++◌ (seen ++ (b ∷ [])))
            (lossy_valid start [] bs (sym (utf8_from-cons (more k lo hi) start b bs e) ∙ h))
          ∙ append_assoc seen (b ∷ []) bs)
  | inr (inr (k', lo', hi', e)) ↦
      rw (e, lossy_from)
        (lossy_valid (more k' lo' hi') (seen ++ (b ∷ [])) bs
            (sym (utf8_from-cons (more k lo hi) (more k' lo' hi') b bs e) ∙ h)
          ∙ append_assoc seen (b ∷ []) bs)
]

-- A prefix that was read without an error.
data Reads : Utf8State → List ℕ → Utf8State → Type 0 where
  none_yet : {s : Utf8State} → Reads s [] s
  one_more :
      {s t u : Utf8State} {x : List ℕ} (b : ℕ)
      → Reads s x t
      → utf8_step t b ≡ some u
      → Reads s (x ++ (b ∷ [])) u

utf8_from-Reads :
    {s t : Utf8State} {x : List ℕ} (y : List ℕ) → Reads s x t → utf8_from s (x ++ y) ≡ utf8_from t y
utf8_from-Reads y none_yet = refl
utf8_from-Reads y (one_more {s} {t} {u} {x} b r e) =
    ap (utf8_from s) (append_assoc x (b ∷ []) y)
    ∙ utf8_from-Reads (b ∷ y) r
    ∙ utf8_from-cons t u b y e

-- Between characters nothing is pending.
abbrev Pending : Utf8State → List ℕ → Type 0
Pending start seen = Unit {0}
Pending (more k lo hi) seen = Reads start seen (more k lo hi)

replaced : (y : List ℕ) → utf8_from start (replacement ++ y) ≡ utf8_from start y
unfolding utf8_from utf8_step utf8_lead
replaced y = refl

valid_lossy :
    (s : Utf8State) (seen bs : List ℕ)
    → Pending s seen
    → utf8_from start (lossy_from s seen bs) ≡ true
unfolding lossy_from Outcome
valid_lossy start seen [] p = unfold utf8_from in refl
valid_lossy (more k lo hi) seen [] p = replaced [] ∙ (unfold utf8_from in refl)
valid_lossy start seen (b ∷ bs) p = elim (outcome (utf8_lead b)) [
  | inl e ↦ rw (e, lossy_from) (replaced _ ∙ valid_lossy start [] bs tt)
  | inr (inl e) ↦
      rw (e, lossy_from)
        (utf8_from-cons start start b _ (lead_step b ∙ e) ∙ valid_lossy start [] bs tt)
  | inr (inr (k, lo, hi, e)) ↦
      rw (e, lossy_from)
        (valid_lossy (more k lo hi) (b ∷ []) bs (one_more b none_yet (lead_step b ∙ e)))
]
valid_lossy (more k lo hi) seen (b ∷ bs) p = elim (outcome (utf8_step (more k lo hi) b)) [
  | inl e ↦
      rw (e, lossy_from)
        (replaced _ ∙ elim (outcome (utf8_lead b)) [
          | inl e' ↦ rw (e', lossy_from) (replaced _ ∙ valid_lossy start [] bs tt)
          | inr (inl e') ↦
              rw (e', lossy_from)
                (utf8_from-cons start start b _ (lead_step b ∙ e') ∙ valid_lossy start [] bs tt)
          | inr (inr (k', lo', hi', e')) ↦
              rw (e', lossy_from)
                (valid_lossy (more k' lo' hi') (b ∷ []) bs (one_more b none_yet (lead_step b ∙ e')))
        ])
  | inr (inl e) ↦
      rw (e, lossy_from) (utf8_from-Reads _ (one_more b p e) ∙ valid_lossy start [] bs tt)
  | inr (inr (k', lo', hi', e)) ↦
      rw (e, lossy_from) (valid_lossy (more k' lo' hi') (seen ++ (b ∷ [])) bs (one_more b p e))
]

-- The lossy decoding of any bytes is valid UTF-8.
pub is_utf8-from_utf8_lossy : (bs : List ℕ) → is_utf8 (from_utf8_lossy bs) ≡ true
unfolding is_utf8 from_utf8_lossy
is_utf8-from_utf8_lossy bs = valid_lossy start [] bs tt

-- The lossy decoding leaves bytes that are valid UTF-8 alone.
pub from_utf8_lossy_valid : (bs : List ℕ) → is_utf8 bs ≡ true → from_utf8_lossy bs ≡ bs
unfolding is_utf8 from_utf8_lossy
from_utf8_lossy_valid bs h = lossy_valid start [] bs h
