-- ===== src/View/Names.antt =====
-- viewer/crates/btelem-viewer/src/view_state.rs: paths and groups of channels, the truncation of a
-- label, and the collection of two channels for an XY plot.
pub mod Labels
use btelem.Prelude.{
  ℕ, zero, suc, ◌+◌, ◌-◌, Bool, true, false, List, [], ◌∷◌, ◌++◌, map, Option, none, some, Text,
  ltb, leb, ◌==◌, if◌then◌else◌, length, take, drop, text_eq,
}
use btelem.Store.{ChannelId}

-- `path.find('.')`
unfoldable pub find_dot : Text → Option ℕ
find_dot [] = none
find_dot (c ∷ cs) =
    if c == b'.' then some 0 else elim (find_dot cs) [ none ↦ none | some i ↦ some (suc i) ]

unfoldable pub channel_group : Text → Text
unfolding find_dot
channel_group path = elim (find_dot path) [ none ↦ path | some i ↦ take i path ]

unfoldable pub strip_group_prefix : Text → Text
unfolding find_dot
strip_group_prefix path = elim (find_dot path) [ none ↦ path | some i ↦ drop (i + 1) path ]

-- The byte order of strings.
abbrev pub text_le : Text → Text → Bool
text_le [] t = true
text_le (c ∷ s) [] = false
text_le (c ∷ s) (d ∷ t) = if ltb c d then true else if c == d then text_le s t else false

abbrev pub is_empty : Text → Bool
is_empty [] = true
is_empty (c ∷ s) = false

-- `a.is_empty().cmp(&b.is_empty()).then_with(|| a.cmp(b))` is not `Greater`.
abbrev pub group_le : Text → Text → Bool
group_le a b = if is_empty a then is_empty b else if is_empty b then true else text_le a b

-- `sort_by` is stable: the items are inserted from the last one on, each before those that are not
-- less.
module _ {A : Type 0} (le : A → A → Bool) where
  unfoldable pub insert_sorted : A → List A → List A
  insert_sorted x [] = x ∷ []
  insert_sorted x (y ∷ ys) = if le x y then x ∷ y ∷ ys else y ∷ insert_sorted x ys

  unfoldable pub sort_by : List A → List A
  unfolding insert_sorted
  sort_by [] = []
  sort_by (x ∷ xs) = insert_sorted x (sort_by xs)

-- `enumerate` from `i` on.
abbrev pub enumerate : {A : Type 0} → ℕ → List A → List (ℕ × A)
enumerate i [] = []
enumerate i (x ∷ xs) = (i, x) ∷ enumerate (suc i) xs

abbrev pub or_empty : Option Text → Text
or_empty none = []
or_empty (some g) = g

unfoldable pub group_order : List (Option Text) → List (ℕ × Text)
unfolding sort_by
group_order groups = sort_by (λ a b. group_le a.1 b.1) (enumerate 0 (map or_empty groups))

abbrev pub group_name_le : Text × Text → Text × Text → Bool
group_name_le (g, p) (h, q) = if text_eq g h then text_le p q else group_le g h

unfoldable pub group_then_name_order : List (Option Text × Text) → List (ℕ × Text)
unfolding sort_by
group_then_name_order resolved =
    map (λ e. (e.0, e.1.0))
      (sort_by (λ a b. group_name_le a.1 b.1)
        (enumerate 0 (map (λ r. (or_empty r.0, r.1)) resolved)))

pub record XyDragAccumulator : Type 0 where
  pub first : Option ChannelId

unfoldable pub feed :
    XyDragAccumulator → ChannelId → XyDragAccumulator × Option (ChannelId × ChannelId)
feed acc ch = elim acc.first [
  | none ↦ (record { first = some ch }, none)
  | some prev ↦
      if prev == ch
      then (record { first = some prev }, none)
      else (record { first = none }, some (prev, ch))
]

unfoldable pub cancel : XyDragAccumulator → XyDragAccumulator
cancel acc = record { first = none }

-- The code point of the ellipsis. A label is the list of its `char`s here.
abbrev pub ellipsis : ℕ
ellipsis = 0x2026

unfoldable pub fit_label : List ℕ → ℕ → List ℕ
fit_label label available_chars =
    if available_chars == 0
    then []
    else if leb (length label) available_chars
    then label
    else if ltb available_chars 2
    then []
    else take (available_chars - 1) label ++ (ellipsis ∷ [])
