-- ===== src/Wire/Utf8.antt =====
-- `std::str::from_utf8` and `String::from_utf8_lossy`, which btelem-wire uses on names and text
-- fields: the table of well-formed byte sequences of the Unicode standard as an automaton.
pub mod Lossy
use btelem.Prelude.{
  ℕ, zero, suc, ◌+◌, Bool, true, false, ◌&&◌, List, [], ◌∷◌, ◌++◌, Option, none, some, ltb, leb,
  ◌==◌, if◌then◌else◌, ◌≡◌, refl, Text, arith,
}

-- `more k lo hi`: `k + 1` bytes are still due, the next one in the range `lo ..= hi`.
pub data Utf8State : Type 0 where
  start : Utf8State
  more : ℕ → ℕ → ℕ → Utf8State

unfoldable pub utf8_lead : ℕ → Option Utf8State
utf8_lead b =
    if ltb b 0x80
    then some start
    else if ltb b 0xc2
    then none
    else if ltb b 0xe0
    then some (more 0 0x80 0xbf)
    else if b == 0xe0
    then some (more 1 0xa0 0xbf)
    else if b == 0xed
    then some (more 1 0x80 0x9f)
    else if ltb b 0xf0
    then some (more 1 0x80 0xbf)
    else if b == 0xf0
    then some (more 2 0x90 0xbf)
    else if ltb b 0xf4
    then some (more 2 0x80 0xbf)
    else if b == 0xf4
    then some (more 2 0x80 0x8f)
    else none

unfoldable pub utf8_step : Utf8State → ℕ → Option Utf8State
utf8_step start b = utf8_lead b
utf8_step (more zero lo hi) b = if leb lo b && leb b hi then some start else none
utf8_step (more (suc k) lo hi) b = if leb lo b && leb b hi then some (more k 0x80 0xbf) else none

unfoldable pub utf8_from : Utf8State → List ℕ → Bool
utf8_from start [] = true
utf8_from (more k lo hi) [] = false
utf8_from s (b ∷ bs) = elim (utf8_step s b) [ none ↦ false | some s' ↦ utf8_from s' bs ]

-- `from_utf8(bytes).is_ok()`
unfoldable pub is_utf8 : List ℕ → Bool
unfolding utf8_from
is_utf8 = utf8_from start

-- U+FFFD in UTF-8.
abbrev pub replacement : List ℕ
replacement = 0xef ∷ 0xbf ∷ 0xbd ∷ []

-- `seen` is the part of a character that has been read. A byte that does not continue it ends an
-- ill-formed sequence, which becomes one U+FFFD, and is read again as a lead byte.
unfoldable pub lossy_from : Utf8State → List ℕ → List ℕ → Text
lossy_from start seen [] = []
lossy_from (more k lo hi) seen [] = replacement
lossy_from start seen (b ∷ bs) = elim (utf8_lead b) [
  | none ↦ replacement ++ lossy_from start [] bs
  | some start ↦ b ∷ lossy_from start [] bs
  | some (more k lo hi) ↦ lossy_from (more k lo hi) (b ∷ []) bs
]
lossy_from (more k lo hi) seen (b ∷ bs) = elim (utf8_step (more k lo hi) b) [
  | some start ↦ (seen ++ (b ∷ [])) ++ lossy_from start [] bs
  | some (more k' lo' hi') ↦ lossy_from (more k' lo' hi') (seen ++ (b ∷ [])) bs
  | none ↦ replacement ++ elim (utf8_lead b) [
    | none ↦ replacement ++ lossy_from start [] bs
    | some start ↦ b ∷ lossy_from start [] bs
    | some (more k' lo' hi') ↦ lossy_from (more k' lo' hi') (b ∷ []) bs
  ]
]

unfoldable pub from_utf8_lossy : List ℕ → Text
unfolding lossy_from
from_utf8_lossy = lossy_from start []
