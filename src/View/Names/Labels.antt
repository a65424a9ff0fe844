-- ===== src/View/Names/Labels.antt =====
-- viewer/crates/btelem-viewer/src/view_state.rs: the parts of a path, and fitted labels.
use btelem.Prelude.{
  ℕ, suc, ◌+◌, ◌-◌, ◌≤◌, ◌<◌, ◌≡◌, ◌≢◌, refl, sym, ap, ◌∙◌, subst, some-injective, ◌⊎◌, inl, inr,
  List, [], ◌∷◌, ◌++◌, none, some, Text, arith, ltb, ltb-false, ltb→lt, leb, leb→le, leb-false,
  ◌==◌, ==_iff, length, length-append, length-take, take, drop, All, Bool-cases, Option-cases,
}
use btelem.View.Names.{find_dot, channel_group, strip_group_prefix, ellipsis, fit_label}

-- No dot in the text.
abbrev pub NoDot : Text → Type 0
NoDot s = All (λ c. c ≢ b'.') s

find_dot-none : (s : Text) → find_dot s ≡ none → NoDot s
unfolding find_dot
find_dot-none [] h = tt
find_dot-none (c ∷ s) h = elim (Bool-cases (c == b'.')) [
  | inl e ↦ absurd (cc (rw (e, find_dot) at h))
  | inr e ↦ elim (Option-cases (find_dot s)) [
    | inl n ↦ ((λ x. absurd (cc (sym e ∙ (==_iff c b'.').1 x))), find_dot-none s n)
    | inr (i, n) ↦ absurd (cc (rw (e, find_dot, n) at h))
  ]
]

-- The text with a dot at index `i`, the first one.
abbrev Split : Text → ℕ → Type 0
Split s i = NoDot (take i s) × (s ≡ take i s ++ (b'.' ∷ drop (i + 1) s))

split_cons :
    (c : ℕ) (s : Text) (j : ℕ)
    → s ≡ take j s ++ (b'.' ∷ drop (j + 1) s)
    → c ∷ s ≡ take (suc j) (c ∷ s) ++ (b'.' ∷ drop (suc j + 1) (c ∷ s))
split_cons c s j e = let n : suc j + 1 ≡ suc (j + 1) = omega arith in rw n (ap (◌∷◌ c) e)

find_dot-some : (s : Text) (i : ℕ) → find_dot s ≡ some i → Split s i
unfolding find_dot
find_dot-some [] i h = absurd (cc h)
find_dot-some (c ∷ s) i h = elim (Bool-cases (c == b'.')) [
  | inl e ↦
      subst (Split (c ∷ s)) (some-injective (rw (e, find_dot) at h))
        (tt, ap (λ x. x ∷ s) ((==_iff c b'.').0 e))
  | inr e ↦ elim (Option-cases (find_dot s)) [
    | inl n ↦ absurd (cc (rw (e, find_dot, n) at h))
    | inr (j, n) ↦
        let (nd, eq) = find_dot-some s j n in
        subst (Split (c ∷ s)) (some-injective (rw (e, find_dot, n) at h))
          (((λ x. absurd (cc (sym e ∙ (==_iff c b'.').1 x))), nd), split_cons c s j eq)
  ]
]

-- A path is its group, a dot and the rest, where the group has no dot; a path without a dot is its
-- own group and its own rest.
pub channel_group-strip_group_prefix :
    (path : Text)
    → NoDot (channel_group path)
      × ((path ≡ channel_group path ++ (b'.' ∷ strip_group_prefix path))
          ⊎ ((channel_group path ≡ path) × (strip_group_prefix path ≡ path)))
unfolding channel_group strip_group_prefix
channel_group-strip_group_prefix path = elim (Option-cases (find_dot path)) [
  | inl h ↦ rw (h, channel_group, strip_group_prefix) (find_dot-none path h, inr (refl, refl))
  | inr (i, h) ↦
      let (n, e) = find_dot-some path i h in rw (h, channel_group, strip_group_prefix) (n, inl e)
]

-- A fitted label is no longer than the space; it is the whole label when that fits, and otherwise a
-- prefix of it with an ellipsis, or nothing when there is no space for a character of it.
pub fit_label_lem :
    (label : List ℕ) (n : ℕ)
    → (length (fit_label label n) ≤ n)
      × (((fit_label label n ≡ label) × (length label ≤ n))
          ⊎ (((n < length label)
                × (2 ≤ n)
                × (fit_label label n ≡ take (n - 1) label ++ (ellipsis ∷ [])))
              ⊎ ((n < 2) × (fit_label label n ≡ []))))
unfolding fit_label
fit_label_lem label n = elim (Bool-cases (n == 0)) [
  | inl z ↦ rw (z, fit_label) (omega arith, inr (inr (omega (arith, (==_iff n 0).0 z), refl)))
  | inr z ↦ elim (Bool-cases (leb (length label) n)) [
    | inl l ↦ let fits = leb→le (length label) n l in rw (z, l, fit_label) (fits, inl (refl, fits))
    | inr l ↦ elim (Bool-cases (ltb n 2)) [
      | inl k ↦ rw (z, l, k, fit_label) (omega arith, inr (inr (ltb→lt n 2 k, refl)))
      | inr k ↦
          let long = leb-false (length label) n l in
          let two = ltb-false n 2 k in
          rw (z, l, k, fit_label)
            (
              omega (
                arith,
                two,
                length-append (take (n - 1) label) (ellipsis ∷ []),
                length-take (n - 1) label,
              ),
              inr (inl (long, two, refl)),
            )
    ]
  ]
]
