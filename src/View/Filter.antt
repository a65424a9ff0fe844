-- ===== src/View/Filter.antt =====
-- viewer/crates/btelem-viewer/src/view_state.rs: `ColumnFilter`, `matches_query` and the text
-- operations below them. `trim` takes the white space of Unicode, in the UTF-8 of the needle.
use btelem.Prelude.{
  ℕ, zero, suc, ◌+◌, ◌-◌, ◌++◌, length, Bool, true, false, not, ◌||◌, ◌&&◌, List, [], ◌∷◌, Option,
  none, some, Text, leb, ◌==◌, if◌then◌else◌, any, map,
}
use btelem.Float.{Float}

abbrev pub to_lower : ℕ → ℕ
to_lower c = if leb b'A' c && leb c b'Z' then c + 32 else c

abbrev pub to_ascii_lowercase : Text → Text
to_ascii_lowercase = map to_lower

unfoldable pub starts_with : Text → Text → Bool
starts_with s [] = true
starts_with [] (c ∷ cs) = false
starts_with (d ∷ s) (c ∷ cs) = if d == c then starts_with s cs else false

-- The characters that `char::is_whitespace` holds of, in UTF-8.
abbrev pub white_space : List Text
white_space =
    map (λ c. c ∷ []) (0x20 ∷ 9 ∷ 10 ∷ 11 ∷ 12 ∷ 13 ∷ [])
    ++ map (λ c. 0xc2 ∷ c ∷ []) (0x85 ∷ 0xa0 ∷ [])
    ++ ((0xe1 ∷ 0x9a ∷ 0x80 ∷ [])
        ∷ (0xe2 ∷ 0x81 ∷ 0x9f ∷ [])
        ∷ (0xe3 ∷ 0x80 ∷ 0x80 ∷ [])
        ∷ map (λ c. 0xe2 ∷ 0x80 ∷ c ∷ [])
            (0x80 ∷ 0x81 ∷ 0x82 ∷ 0x83 ∷ 0x84 ∷ 0x85 ∷ 0x86 ∷ 0x87 ∷ 0x88 ∷ 0x89 ∷ 0x8a ∷ 0xa8
              ∷ 0xa9 ∷ 0xaf ∷ []))

-- The bytes of the white space that the text starts with, 0 when it starts with none.
abbrev pub space_width : List Text → Text → ℕ
space_width [] s = 0
space_width (w ∷ ws) s = if starts_with s w then length w else space_width ws s

-- All that follows the next `skip` bytes is white space.
abbrev pub blank_behind : ℕ → Text → Bool
blank_behind skip [] = true
blank_behind (suc skip) (c ∷ cs) = blank_behind skip cs
blank_behind zero (c ∷ cs) =
    let width = space_width white_space (c ∷ cs) in
    let rest = blank_behind (width - 1) cs in if width == 0 then false else rest

-- `needle.trim().is_empty()`
unfoldable pub is_blank : Text → Bool
unfolding starts_with
is_blank needle = blank_behind 0 needle

-- `s.contains(needle)`
unfoldable pub contains_text : Text → Text → Bool
unfolding starts_with
contains_text [] needle = starts_with [] needle
contains_text (c ∷ s) needle = if starts_with (c ∷ s) needle then true else contains_text s needle

unfoldable pub matches_query : Text → Text → Bool
unfolding contains_text
matches_query path [] = true
matches_query path (c ∷ query) =
    contains_text (to_ascii_lowercase path) (to_ascii_lowercase (c ∷ query))

pub data FilterValue (F : Type 0) : Type 0 where
  text : Text → FilterValue F
  num : F → FilterValue F

pub data ColumnFilter (F : Type 0) : Type 0 where
  text : Text → Bool → ColumnFilter F
  range : Option F → Option F → ColumnFilter F
  enum_set : List ℕ → ColumnFilter F

module _ {F : Type 0} (fl : Float F) where
  -- `if n < *lo { return false; }` and `if n > *hi { return false; }`
  abbrev pub above : Option F → F → Bool
  above none n = true
  above (some lo) n = not (fl.lt n lo)

  abbrev pub below : Option F → F → Bool
  below none n = true
  below (some hi) n = not (fl.lt hi n)

  unfoldable pub accepts_text : Text → Bool → Option (FilterValue F) → Bool
  unfolding contains_text
  accepts_text needle case_sensitive (some (FilterValue.text s)) =
      if case_sensitive
      then contains_text s needle
      else contains_text (to_ascii_lowercase s) (to_ascii_lowercase needle)
  accepts_text needle case_sensitive _ = false

  abbrev pub number_of : Option (FilterValue F) → Option F
  number_of (some (FilterValue.num n)) = some n
  number_of _ = none

  unfoldable pub accepts : ColumnFilter F → Option (FilterValue F) → Bool
  unfolding is_blank accepts_text
  accepts (ColumnFilter.text needle case_sensitive) value =
      if is_blank needle then true else accepts_text needle case_sensitive value
  accepts (range min max) value = elim (number_of value) [
    | none ↦ false
    | some n ↦ above min n && below max n
  ]
  accepts (enum_set allowed) value = elim (number_of value) [
    | none ↦ false
    | some n ↦ any (λ v. v == fl.to_u32 n) allowed
  ]

abbrev is_some {ℓ} : {A : Type ℓ} → Option A → Bool
is_some none = false
is_some (some a) = true

unfoldable pub is_active : {F : Type 0} → ColumnFilter F → Bool
unfolding is_blank
is_active (ColumnFilter.text needle case_sensitive) = not (is_blank needle)
is_active (range min max) = is_some min || is_some max
is_active (enum_set allowed) = true
