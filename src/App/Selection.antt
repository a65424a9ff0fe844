-- ===== src/App/Selection.antt =====
-- viewer/crates/btelem-viewer/src/app.rs: `update_selection`. A `HashSet` is the list of its members.
pub mod Members
use btelem.Prelude.{
  ℕ, suc, ◌+◌, ◌-◌, Bool, true, false, not, List, [], ◌∷◌, Option, none, some, leb, ◌==◌,
  if◌then◌else◌, take, drop, retain, set_has, set_insert, set_extend,
}
use btelem.Store.{ChannelId}

-- `iter().position(|id| *id == a)`
abbrev pub position : List ChannelId → ChannelId → Option ℕ
position [] a = none
position (x ∷ xs) a =
    if x == a then some 0 else elim (position xs a) [ none ↦ none | some i ↦ some (suc i) ]

abbrev pub or_clicked : Option ChannelId → ChannelId → ChannelId
or_clicked none clicked = clicked
or_clicked (some a) clicked = a

abbrev pub in_order : ℕ → ℕ → ℕ × ℕ
in_order ia ib = if leb ia ib then (ia, ib) else (ib, ia)

-- The range between two rows that are both visible.
abbrev pub range : Option ℕ → Option ℕ → Option (ℕ × ℕ)
range (some ia) (some ib) = some (in_order ia ib)
range _ _ = none

-- `visible[lo..=hi]`
abbrev pub slice_to : List ChannelId → ℕ → ℕ → List ChannelId
slice_to visible lo hi = take (suc hi - lo) (drop lo visible)

-- `if !selection.remove(&clicked) { selection.insert(clicked); }`
abbrev pub toggle : List ChannelId → ChannelId → List ChannelId
toggle selection clicked =
    if set_has selection clicked
    then retain (λ x. not (x == clicked)) selection
    else set_insert selection clicked

-- The selection and the anchor after a click, with the range that a click with shift spans.
abbrev pub select_rows :
    List ChannelId
    → Option ChannelId
    → List ChannelId
    → ChannelId
    → Bool
    → Option (ℕ × ℕ)
    → List ChannelId × Option ChannelId
select_rows selection anchor visible clicked ctrl (some (lo, hi)) =
    (set_extend [] (slice_to visible lo hi), some (or_clicked anchor clicked))
select_rows selection anchor visible clicked ctrl none =
    if ctrl then (toggle selection clicked, some clicked) else (set_insert [] clicked, some clicked)

abbrev pub shift_range : Option ChannelId → List ChannelId → ChannelId → Bool → Option (ℕ × ℕ)
shift_range anchor visible clicked false = none
shift_range anchor visible clicked true =
    range (position visible (or_clicked anchor clicked)) (position visible clicked)

unfoldable pub update_selection :
    List ChannelId
    → Option ChannelId
    → List ChannelId
    → ChannelId
    → Bool
    → Bool
    → List ChannelId × Option ChannelId
update_selection selection anchor visible clicked ctrl shift =
    select_rows selection anchor visible clicked ctrl (shift_range anchor visible clicked shift)
