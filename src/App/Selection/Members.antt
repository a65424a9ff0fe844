-- ===== src/App/Selection/Members.antt =====
-- viewer/crates/btelem-viewer/src/app.rs: which channels `update_selection` selects.
use btelem.Prelude.{
  ℕ, zero, suc, ◌+◌, ◌-◌, ◌≡◌, refl, subst, ◌∙◌, Bool, true, false, not, ◌&&◌, ◌||◌, List, [], ◌∷◌,
  Option, none, some, ap, leb→le, leb-false, leb, ltb, ◌≤◌, ◌==◌, if◌then◌else◌, take, drop, retain,
  set_has, set_insert, set_extend, Distinct, arith, Bool-cases, Option-cases, inl, inr,
  set_has-append, ==_iff, min, max,
}
use btelem.Store.{ChannelId}
use btelem.App.Selection.{
  position, or_clicked, in_order, range, slice_to, toggle, select_rows, shift_range,
  update_selection,
}

-- A position between two others.
abbrev pub within : ℕ → ℕ → Option ℕ → Bool
within lo hi none = false
within lo hi (some i) = leb lo i && leb i hi

position-none :
    (xs : List ChannelId) (id : ChannelId) → set_has xs id ≡ false → position xs id ≡ none
position-none [] id h = refl
position-none (x ∷ xs) id h = ground (arith, position-none xs id)

-- A position among the `n` from `lo` on.
abbrev among : ℕ → ℕ → Option ℕ → Bool
among lo n none = false
among lo n (some i) = leb lo i && ltb i (lo + n)

take-among :
    (xs : List ChannelId) (n : ℕ) (id : ChannelId)
    → set_has (take n xs) id ≡ among 0 n (position xs id)
take-among [] zero id = refl
take-among [] (suc n) id = refl
take-among (x ∷ xs) zero id = elim (Option-cases (position (x ∷ xs) id)) [
  | inl e ↦ rw e refl
  | inr (i, e) ↦ rw e (ground arith)
]
take-among (x ∷ xs) (suc n) id = elim (Option-cases (position xs id)) [
  | inl e ↦ ground (arith, take-among xs n id, e)
  | inr (i, e) ↦ ground (arith, take-among xs n id, e)
]

drop-among :
    (xs : List ChannelId) (lo n : ℕ) (id : ChannelId)
    → Distinct xs
    → set_has (take n (drop lo xs)) id ≡ among lo n (position xs id)
drop-among xs zero n id d = take-among xs n id
drop-among [] (suc lo) n id d = take-among [] n id
drop-among (x ∷ xs) (suc lo) n id d =
    let rest = drop-among xs lo n id d.1 in
    elim (Bool-cases (x == id)) [
      | inl e ↦
          let gone =
            position-none xs id (subst (λ y. set_has xs y ≡ false) ((==_iff x id).0 e) d.0) in
          rw e ((rw gone at rest) ∙ ground arith)
      | inr e ↦ elim (Option-cases (position xs id)) [
        | inl q ↦ ground (arith, rest, e, q)
        | inr (i, q) ↦ ground (arith, rest, e, q)
      ]
    ]

slice_to-within :
    (xs : List ChannelId) (lo hi : ℕ) (id : ChannelId)
    → Distinct xs
    → lo ≤ hi
    → set_has (slice_to xs lo hi) id ≡ within lo hi (position xs id)
slice_to-within xs lo hi id d h =
    let whole = drop-among xs lo (suc hi - lo) id d in
    elim (Option-cases (position xs id)) [
      | inl e ↦ rw e (rw e at whole)
      | inr (i, e) ↦ rw e ((rw e at whole) ∙ ground arith)
    ]

set_has-set_insert :
    (s : List ChannelId) (x id : ChannelId)
    → set_has (set_insert s x) id ≡ (x == id || set_has s id)
set_has-set_insert s x id = elim (Bool-cases (set_has s x)) [
  | inl e ↦ elim (Bool-cases (x == id)) [
    | inl q ↦
        let same = subst (λ y. set_has s y ≡ true) ((==_iff x id).0 q) e in
        rw e (ground (arith, same, q))
    | inr q ↦ rw e (ground (arith, q))
  ]
  | inr e ↦ rw e (ground (arith, set_has-append s (x ∷ []) id))
]

set_has-set_extend :
    (s xs : List ChannelId) (id : ChannelId)
    → set_has (set_extend s xs) id ≡ (set_has xs id || set_has s id)
set_has-set_extend s [] id = refl
set_has-set_extend s (x ∷ xs) id =
    ground (arith, set_has-set_extend (set_insert s x) xs id, set_has-set_insert s x id)

set_has-retain :
    (s : List ChannelId) (c id : ChannelId)
    → set_has (retain (λ x. not (x == c)) s) id ≡ (not (c == id) && set_has s id)
set_has-retain [] c id = ground arith
set_has-retain (x ∷ s) c id = ground (arith, set_has-retain s c id)

toggle-has :
    (s : List ChannelId) (clicked id : ChannelId)
    → set_has (toggle s clicked) id ≡ (if clicked == id then not (set_has s id) else set_has s id)
toggle-has s clicked id = elim (Bool-cases (clicked == id)) [
  | inr q ↦ elim (Bool-cases (set_has s clicked)) [
    | inl e ↦ rw (e, q) (set_has-retain s clicked id ∙ ground (arith, q))
    | inr e ↦ rw (e, q) ((rw e at (set_has-set_insert s clicked id)) ∙ ground (arith, q))
  ]
  | inl q ↦
      let same : set_has s clicked ≡ set_has s id = ap (set_has s) ((==_iff clicked id).0 q) in
      elim (Bool-cases (set_has s clicked)) [
        | inl e ↦ rw (e, q) (set_has-retain s clicked id ∙ ground (arith, q, same, e))
        | inr e ↦
            rw (e, q) ((rw e at (set_has-set_insert s clicked id)) ∙ ground (arith, q, same, e))
      ]
]

-- What a click selects: with shift the rows between the anchor and the click, when both are visible;
-- else with ctrl what was selected, with the click toggled; else the click alone.
abbrev pub selects_rows :
    List ChannelId → List ChannelId → ChannelId → Bool → ChannelId → Option (ℕ × ℕ) → Bool
selects_rows selection visible clicked ctrl id (some (lo, hi)) = within lo hi (position visible id)
selects_rows selection visible clicked ctrl id none =
    if ctrl
    then (if clicked == id then not (set_has selection id) else set_has selection id)
    else clicked == id

in_order-le : (ia ib : ℕ) → (in_order ia ib).0 ≤ (in_order ia ib).1
in_order-le ia ib = elim (Bool-cases (leb ia ib)) [
  | inl e ↦ rw e (leb→le ia ib e)
  | inr e ↦ rw e (omega (arith, leb-false ia ib e))
]

abbrev IsOrdered : Option (ℕ × ℕ) → Type 0
IsOrdered none = Unit
IsOrdered (some bounds) = bounds.0 ≤ bounds.1

shift_range-IsOrdered :
    (anchor : Option ChannelId) (visible : List ChannelId) (clicked : ChannelId) (shift : Bool)
    → IsOrdered (shift_range anchor visible clicked shift)
shift_range-IsOrdered anchor visible clicked false = tt
shift_range-IsOrdered anchor visible clicked true =
    ordered (position visible (or_clicked anchor clicked)) (position visible clicked)
  where
    ordered : (a b : Option ℕ) → IsOrdered (range a b)
    ordered none b = tt
    ordered (some ia) none = tt
    ordered (some ia) (some ib) = in_order-le ia ib

select_rows-has :
    (selection : List ChannelId) (anchor : Option ChannelId) (visible : List ChannelId)
    (clicked : ChannelId) (ctrl : Bool) (id : ChannelId) (rows : Option (ℕ × ℕ))
    → Distinct visible
    → IsOrdered rows
    → set_has (select_rows selection anchor visible clicked ctrl rows).0 id
      ≡ selects_rows selection visible clicked ctrl id rows
select_rows-has selection anchor visible clicked true id none d h = toggle-has selection clicked id
select_rows-has selection anchor visible clicked false id none d h = ground arith
select_rows-has selection anchor visible clicked ctrl id (some (lo, hi)) d h =
    set_has-set_extend [] (slice_to visible lo hi) id
    ∙ or_false (set_has (slice_to visible lo hi) id)
    ∙ slice_to-within visible lo hi id d h
  where
    or_false : (x : Bool) → (x || false) ≡ x
    or_false true = refl
    or_false false = refl

-- The rows between two that are both visible, in either order.
abbrev pub between : Option ℕ → Option ℕ → Option (ℕ × ℕ)
between none j = none
between (some i) none = none
between (some i) (some j) = some (min i j, max i j)

-- The rows that a click spans: with shift those from the anchor to the click, and without an anchor the
-- click.
abbrev pub spanned : Bool → Option ChannelId → List ChannelId → ChannelId → Option (ℕ × ℕ)
spanned false anchor visible clicked = none
spanned true none visible clicked = between (position visible clicked) (position visible clicked)
spanned true (some a) visible clicked = between (position visible a) (position visible clicked)

-- The anchor behind a click: one that spans rows keeps the anchor that was there.
abbrev pub next_anchor : Option ChannelId → ChannelId → Option (ℕ × ℕ) → ChannelId
next_anchor (some a) clicked (some rows) = a
next_anchor anchor clicked rows = clicked

in_order-min : (i j : ℕ) → in_order i j ≡ (min i j, max i j)
in_order-min i j = elim (Bool-cases (leb i j)) [
  | inl e ↦
      let l = leb→le i j e in
      let lo : i ≡ min i j = omega (arith, l) in
      let hi : j ≡ max i j = omega (arith, l) in rw e (cc (lo, hi))
  | inr e ↦
      let l = leb-false i j e in
      let lo : j ≡ min i j = omega (arith, l) in
      let hi : i ≡ max i j = omega (arith, l) in rw e (cc (lo, hi))
]

range-between : (a b : Option ℕ) → range a b ≡ between a b
range-between none b = refl
range-between (some i) none = refl
range-between (some i) (some j) = ap (λ (r : ℕ × ℕ). some r) (in_order-min i j)

shift_range-spanned :
    (anchor : Option ChannelId) (visible : List ChannelId) (clicked : ChannelId) (shift : Bool)
    → shift_range anchor visible clicked shift ≡ spanned shift anchor visible clicked
shift_range-spanned anchor visible clicked false = refl
shift_range-spanned none visible clicked true =
    range-between (position visible clicked) (position visible clicked)
shift_range-spanned (some a) visible clicked true =
    range-between (position visible a) (position visible clicked)

select_rows-anchor :
    (selection : List ChannelId) (anchor : Option ChannelId) (visible : List ChannelId)
    (clicked : ChannelId) (ctrl : Bool) (rows : Option (ℕ × ℕ))
    → (select_rows selection anchor visible clicked ctrl rows).1
      ≡ some (next_anchor anchor clicked rows)
select_rows-anchor selection none visible clicked ctrl (some rows) = refl
select_rows-anchor selection (some a) visible clicked ctrl (some rows) = refl
select_rows-anchor selection none visible clicked true none = refl
select_rows-anchor selection none visible clicked false none = refl
select_rows-anchor selection (some a) visible clicked true none = refl
select_rows-anchor selection (some a) visible clicked false none = refl

-- When no channel is visible twice, a click with shift selects exactly the rows from the anchor to the
-- click, in whichever order they stand, if both are visible, and only the click when there is no anchor;
-- any other click with ctrl toggles the clicked channel and leaves the rest, and one without selects the
-- clicked channel alone. A click that selects rows keeps the anchor that is there; any other makes the
-- clicked channel the anchor.
pub update_selection-selects :
    (selection : List ChannelId) (anchor : Option ChannelId) (visible : List ChannelId)
    (clicked : ChannelId) (ctrl shift : Bool) (id : ChannelId)
    → Distinct visible
    → (set_has (update_selection selection anchor visible clicked ctrl shift).0 id
        ≡ selects_rows selection visible clicked ctrl id (spanned shift anchor visible clicked))
      × ((update_selection selection anchor visible clicked ctrl shift).1
          ≡ some (next_anchor anchor clicked (spanned shift anchor visible clicked)))
unfolding update_selection
update_selection-selects selection anchor visible clicked ctrl shift id d =
    let rows = shift_range anchor visible clicked shift in
    let same = shift_range-spanned anchor visible clicked shift in
    (
      select_rows-has selection anchor visible clicked ctrl id rows d
            (shift_range-IsOrdered anchor visible clicked shift)
          ∙ ap (selects_rows selection visible clicked ctrl id) same,
      select_rows-anchor selection anchor visible clicked ctrl rows
          ∙ ap (λ r. some (next_anchor anchor clicked r)) same,
    )
