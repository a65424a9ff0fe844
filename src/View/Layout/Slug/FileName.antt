-- ===== src/View/Layout/Slug/FileName.antt =====
-- viewer/crates/btelem-viewer/src/layout.rs: what `slug` makes of a name.
use btelem.Prelude.{
  ℕ, ◌≡◌, ◌≢◌, refl, ap, Bool, true, false, ◌||◌, ◌==◌, [], ◌∷◌, Text, All, arith, Bool-cases, inl,
  inr,
}
use btelem.View.Filter.{to_lower}
use btelem.View.Layout.Slug.{
  is_lower, is_digit, is_kept, slug_chars, trim_start, push_front, trim_end, or_untitled, slug,
}

-- `[a-z0-9_-]`
abbrev pub is_name_char : ℕ → Bool
is_name_char c = is_lower c || (is_digit c || (c == b'_' || c == b'-'))

abbrev pub first_is_dash : Text → Bool
first_is_dash [] = false
first_is_dash (c ∷ cs) = c == b'-'

abbrev pub last_is_dash : Text → Bool
last_is_dash [] = false
last_is_dash (c ∷ []) = c == b'-'
last_is_dash (c ∷ d ∷ ds) = last_is_dash (d ∷ ds)

pub record IsSlug (s : Text) : Type 0 where
  pub named : s ≢ []
  pub chars : All (λ c. is_name_char c ≡ true) s
  pub first : first_is_dash s ≡ false
  pub last : last_is_dash s ≡ false

abbrev Chars : Text → Type 0
Chars s = All (λ c. is_name_char c ≡ true) s

to_lower-kept : (c : ℕ) → is_kept c ≡ true → is_name_char (to_lower c) ≡ true
unfolding is_kept
to_lower-kept c h = ground arith

slug_chars-Chars : (last_dash : Bool) (s : Text) → Chars (slug_chars last_dash s)
unfolding slug_chars
slug_chars-Chars b [] = tt
slug_chars-Chars b (c ∷ cs) = elim (Bool-cases (is_kept c)) [
  | inl h ↦ rw (h, slug_chars) (to_lower-kept c h, slug_chars-Chars false cs)
  | inr h ↦
      rw (h, slug_chars)
        (elim (Bool-cases b) [
          | inl e ↦ rw e (slug_chars-Chars true cs)
          | inr e ↦ rw e (refl, slug_chars-Chars true cs)
        ])
]

trim_start-Chars : (s : Text) → Chars s → Chars (trim_start s)
unfolding trim_start
trim_start-Chars [] h = tt
trim_start-Chars (c ∷ cs) h = ground (arith, trim_start-Chars cs h.1)

push_front-Chars : (c : ℕ) (s : Text) → is_name_char c ≡ true → Chars s → Chars (push_front c s)
push_front-Chars c [] h k = ground arith
push_front-Chars c (d ∷ ds) h k = (h, k)

trim_end-Chars : (s : Text) → Chars s → Chars (trim_end s)
unfolding trim_end
trim_end-Chars [] h = tt
trim_end-Chars (c ∷ cs) h = push_front-Chars c (trim_end cs) h.0 (trim_end-Chars cs h.1)

first_is_dash-trim_start : (s : Text) → first_is_dash (trim_start s) ≡ false
unfolding trim_start
first_is_dash-trim_start [] = refl
first_is_dash-trim_start (c ∷ cs) = ground (arith, first_is_dash-trim_start cs)

first_is_dash-push_front :
    (c : ℕ) (s : Text) → (c == b'-') ≡ false → first_is_dash (push_front c s) ≡ false
first_is_dash-push_front c [] h = ground arith
first_is_dash-push_front c (d ∷ ds) h = h

first_is_dash-trim_end : (s : Text) → first_is_dash s ≡ false → first_is_dash (trim_end s) ≡ false
unfolding trim_end
first_is_dash-trim_end [] h = refl
first_is_dash-trim_end (c ∷ cs) h = first_is_dash-push_front c (trim_end cs) h

last_is_dash-push_front :
    (c : ℕ) (s : Text) → last_is_dash s ≡ false → last_is_dash (push_front c s) ≡ false
last_is_dash-push_front c [] h = ground arith
last_is_dash-push_front c (d ∷ ds) h = h

last_is_dash-trim_end : (s : Text) → last_is_dash (trim_end s) ≡ false
unfolding trim_end
last_is_dash-trim_end [] = refl
last_is_dash-trim_end (c ∷ cs) = last_is_dash-push_front c (trim_end cs) (last_is_dash-trim_end cs)

or_untitled-IsSlug :
    (s : Text) → Chars s → first_is_dash s ≡ false → last_is_dash s ≡ false → IsSlug (or_untitled s)
or_untitled-IsSlug [] h f l = record {
  named = λ e. cc;
  chars = (refl, (refl, (refl, (refl, (refl, (refl, (refl, (refl, tt))))))));
  first = refl;
  last = refl;
}
or_untitled-IsSlug (c ∷ cs) h f l = record { named = λ e. cc; chars = h; first = f; last = l }

slug-IsSlug_lem : (name : Text) → IsSlug (slug name)
unfolding slug
slug-IsSlug_lem name =
    let s = trim_start (slug_chars false name) in
    or_untitled-IsSlug (trim_end s)
      (trim_end-Chars s (trim_start-Chars (slug_chars false name) (slug_chars-Chars false name)))
      (first_is_dash-trim_end s (first_is_dash-trim_start (slug_chars false name)))
      (last_is_dash-trim_end s)

name_char-kept : (c : ℕ) → is_name_char c ≡ true → is_kept c ≡ true
unfolding is_kept
name_char-kept c h = ground arith

name_char-to_lower : (c : ℕ) → is_name_char c ≡ true → to_lower c ≡ c
name_char-to_lower c h = ground arith

slug_chars_fixed : (b : Bool) (s : Text) → Chars s → slug_chars b s ≡ s
unfolding slug_chars
slug_chars_fixed b [] h = refl
slug_chars_fixed b (c ∷ cs) h =
    rw (name_char-kept c h.0, slug_chars)
      (rw (name_char-to_lower c h.0) (ap (◌∷◌ c) (slug_chars_fixed false cs h.1)))

trim_start_fixed : (s : Text) → first_is_dash s ≡ false → trim_start s ≡ s
unfolding trim_start
trim_start_fixed [] h = refl
trim_start_fixed (c ∷ cs) h = rw h

trim_end_fixed : (s : Text) → last_is_dash s ≡ false → trim_end s ≡ s
unfolding trim_end
trim_end_fixed [] h = refl
trim_end_fixed (c ∷ []) h = rw h
trim_end_fixed (c ∷ d ∷ ds) h = ap (push_front c) (trim_end_fixed (d ∷ ds) h)

or_untitled_fixed : (s : Text) → s ≢ [] → or_untitled s ≡ s
or_untitled_fixed [] h = absurd (h refl)
or_untitled_fixed (c ∷ cs) h = refl

-- A slug is its own slug.
pub slug_fixed : (s : Text) → IsSlug s → slug s ≡ s
unfolding slug
slug_fixed s h =
    rw (slug_chars_fixed false s h.chars, slug)
      (rw (trim_start_fixed s h.first) (rw (trim_end_fixed s h.last) (or_untitled_fixed s h.named)))

-- Whatever the name of a layout, its slug is not empty, consists of lower-case letters, digits,
-- underscores and dashes, neither begins nor ends with a dash, and is its own slug: two calls give
-- the file name that one gives.
pub slug-IsSlug : (name : Text) → IsSlug (slug name) × (slug (slug name) ≡ slug name)
slug-IsSlug name = (slug-IsSlug_lem name, slug_fixed (slug name) (slug-IsSlug_lem name))
