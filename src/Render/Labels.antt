-- ===== src/Render/Labels.antt =====
-- viewer/crates/btelem-viewer/src/plot_renderers.rs: the texts, colours and menus of the plots. A text
-- is the list of its bytes; a `char` is one byte where the code looks at it.
pub mod Groups
use btelem.Prelude.{
  ℕ, zero, suc, ◌+◌, ◌-◌, ◌*◌, ◌/◌, ◌%◌, ◌^◌, Bool, true, false, not, ◌||◌, ◌&&◌, List, [], ◌∷◌,
  ◌++◌, Option, none, some, Text, codes, leb, ltb, ◌==◌, if◌then◌else◌, any, filter_map, get_elem?,
  decimal, text_eq,
}
use btelem.Prelude.Int.{ℤ, pos, negsuc}
use btelem.Store.{ChannelId, ChannelInfo}
use btelem.View.Panels.{LabelRadix, dec, hex, bin}
use btelem.View.Registry.{PlotRegistry, PlotId, PlotKind, accepts, title}
use btelem.View.Names.{sort_by, fit_label, strip_group_prefix}

-- `p.rsplit('.').next()`: what stands behind the last dot.
unfoldable pub after_last_dot : Text → Option Text
after_last_dot [] = none
after_last_dot (c ∷ cs) = elim (after_last_dot cs) [
  | some rest ↦ some rest
  | none ↦ if c == b'.' then some cs else none
]

unfoldable pub short_name : Text → Text
unfolding after_last_dot
short_name p = elim (after_last_dot p) [ none ↦ p | some rest ↦ rest ]

abbrev pub Color32 : Type 0
Color32 = ℕ × ℕ × ℕ

abbrev pub palette_colours : List Color32
palette_colours =
    (76, 114, 176)
    ∷ (221, 132, 82)
    ∷ (85, 168, 104)
    ∷ (196, 78, 82)
    ∷ (129, 114, 179)
    ∷ (147, 120, 96)
    ∷ (218, 139, 195)
    ∷ (140, 140, 140)
    ∷ (204, 185, 116)
    ∷ (100, 182, 205)
    ∷ []

-- The index is below the length of the list.
unfoldable pub palette : ℕ → Color32
palette i = elim (get_elem? palette_colours (i % 10)) [ none ↦ (0, 0, 0) | some c ↦ c ]

-- `h ^= b` of a word and a byte: the low byte of the word changes.
abbrev pub bit_of : ℕ → ℕ → ℕ
bit_of x i = x / 2 ^ i % 2

abbrev pub xor_bits : ℕ → ℕ → ℕ → ℕ
xor_bits x y zero = 0
xor_bits x y (suc i) = (bit_of x i + bit_of y i) % 2 * 2 ^ i + xor_bits x y i

abbrev pub fnv_step : ℕ → ℕ → ℕ
fnv_step h b = (h / 256 * 256 + xor_bits (h % 256) b 8) * 1099511628211 % 2 ^ 64

unfoldable pub fnv : ℕ → Text → ℕ
fnv h [] = h
fnv h (b ∷ bs) = fnv (fnv_step h b) bs

unfoldable pub name_seed : Text → ℕ
unfolding strip_group_prefix fnv
name_seed path = fnv 1469598103934665603 (strip_group_prefix path)

unfoldable pub palette_for_name : Text → Color32
unfolding name_seed palette
palette_for_name path = palette (name_seed path % 10)

unfoldable pub state_colour : ℕ → ℕ → Color32
state_colour channel_idx value =
    let h = (channel_idx % 2 ^ 32 * 2654435761 + value * 40503) % 2 ^ 32 in
    ((h / 2 ^ 16 % 256 + 96) / 2, (h / 2 ^ 8 % 256 + 96) / 2, (h % 256 + 96) / 2)

-- `{:X}` and `{:b}`, the digits from the last on; `fuel` digits hold the number.
abbrev pub digit : ℕ → ℕ
digit d = if ltb d 10 then b'0' + d else b'A' + (d - 10)

unfoldable pub digits_in : ℕ → ℕ → ℕ → Text → Text
digits_in base zero n acc = acc
digits_in base (suc fuel) n acc =
    let rest = digits_in base fuel (n / base) (digit (n % base) ∷ acc) in
    if ltb n base then digit n ∷ acc else rest

-- An `i64` and its radix. A negative number is shown by its absolute value.
unfoldable pub format_logic_value : ℤ → LabelRadix → Text
unfolding digits_in
format_logic_value (pos n) dec = decimal n
format_logic_value (negsuc n) dec = codes "-" ++ decimal (suc n)
format_logic_value (pos n) hex = codes "0x" ++ digits_in 16 64 n []
format_logic_value (negsuc n) hex = codes "-0x" ++ digits_in 16 64 (suc n) []
format_logic_value (pos n) bin = codes "0b" ++ digits_in 2 64 n []
format_logic_value (negsuc n) bin = codes "-0b" ++ digits_in 2 64 (suc n) []

-- `format_scalar_value` after the number is printed with six decimals: the zeros at its end go, and
-- then the point.
abbrev pub has_dot : Text → Bool
has_dot s = any (λ c. c == b'.') s

unfoldable pub pop_zeros : Text → Text
pop_zeros [] = []
pop_zeros (c ∷ cs) = elim (pop_zeros cs) [
  | [] ↦ if c == b'0' then [] else c ∷ []
  | ◌∷◌ d ds ↦ c ∷ d ∷ ds
]

abbrev pub pop_dot : Text → Text
pop_dot [] = []
pop_dot (c ∷ []) = if c == b'.' then [] else c ∷ []
pop_dot (c ∷ d ∷ cs) = c ∷ pop_dot (d ∷ cs)

unfoldable pub trim_decimals : Text → Text
unfolding pop_zeros
trim_decimals s = pop_dot (if has_dot s then pop_zeros s else s)

-- The plots that "Move to plot…" offers.
abbrev pub move_menu_title_chars : ℕ
move_menu_title_chars = 24

module _ {F : Type 0} where
  unfoldable pub move_targets : PlotRegistry F → PlotId → ChannelInfo → List (PlotId × List ℕ)
  unfolding accepts title fit_label sort_by
  move_targets plots self_id info =
      sort_by (λ a b. leb a.0 b.0)
        (filter_map
          (λ e.
            if e.0 == self_id || not (accepts e.1 info)
            then none
            else some (e.0, fit_label (title e.1) move_menu_title_chars))
          plots.plots)

-- Consecutive lanes of one group, gathered; the last group is the one that grows.
unfoldable pub push_lane : List (Text × List ℕ) → ℕ → Text → List (Text × List ℕ)
push_lane [] idx key = (key, idx ∷ []) ∷ []
push_lane ((k, lanes) ∷ []) idx key =
    if text_eq k key then (k, lanes ++ (idx ∷ [])) ∷ [] else (k, lanes) ∷ (key, idx ∷ []) ∷ []
push_lane (g ∷ g' ∷ gs) idx key = g ∷ push_lane (g' ∷ gs) idx key

unfoldable pub collapse_into : List (Text × List ℕ) → List (ℕ × Text) → List (Text × List ℕ)
unfolding push_lane
collapse_into out [] = out
collapse_into out ((idx, key) ∷ order) = collapse_into (push_lane out idx key) order

unfoldable pub collapse_groups : List (ℕ × Text) → List (Text × List ℕ)
unfolding collapse_into
collapse_groups order = collapse_into [] order
