-- ===== src/View/Layout/Slug.antt =====
-- viewer/crates/btelem-viewer/src/layout.rs: `slug`, the file name of a layout. The loop runs over
-- characters; one beyond ASCII is not kept, nor are its bytes, and a run of either gives one dash.
pub mod FileName
use btelem.Prelude.{
  ℕ, Bool, true, false, ◌&&◌, ◌||◌, leb, ◌==◌, List, [], ◌∷◌, ◌++◌, Text, if◌then◌else◌, codes,
}
use btelem.View.Filter.{to_lower}

abbrev pub is_lower : ℕ → Bool
is_lower c = leb b'a' c && leb c b'z'

abbrev pub is_upper : ℕ → Bool
is_upper c = leb b'A' c && leb c b'Z'

abbrev pub is_digit : ℕ → Bool
is_digit c = leb b'0' c && leb c b'9'

-- `c.is_ascii_alphanumeric() || c == '_' || c == '-'`
unfoldable pub is_kept : ℕ → Bool
is_kept c = is_lower c || (is_upper c || (is_digit c || (c == b'_' || c == b'-')))

-- The loop over the characters, with `last_dash`: what it pushes onto `out`.
unfoldable pub slug_chars : Bool → Text → Text
unfolding is_kept
slug_chars last_dash [] = []
slug_chars last_dash (c ∷ cs) =
    let kept = to_lower c ∷ slug_chars false cs in
    let dash = b'-' ∷ slug_chars true cs in
    let dropped = slug_chars last_dash cs in
    if is_kept c then kept else if last_dash then dropped else dash

-- `trim_start_matches('-')` and `trim_end_matches('-')`
unfoldable pub trim_start : Text → Text
trim_start [] = []
trim_start (c ∷ cs) = if c == b'-' then trim_start cs else c ∷ cs

-- A dash stays if something stays behind it.
abbrev pub push_front : ℕ → Text → Text
push_front c [] = if c == b'-' then [] else c ∷ []
push_front c (d ∷ ds) = c ∷ d ∷ ds

unfoldable pub trim_end : Text → Text
trim_end [] = []
trim_end (c ∷ cs) = push_front c (trim_end cs)

abbrev pub or_untitled : Text → Text
or_untitled [] = codes "untitled"
or_untitled (c ∷ cs) = c ∷ cs

unfoldable pub slug : Text → Text
unfolding slug_chars trim_start trim_end
slug name = or_untitled (trim_end (trim_start (slug_chars false name)))
