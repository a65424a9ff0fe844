-- ===== src/Render/Labels/Groups.antt =====
-- viewer/crates/btelem-viewer/src/plot_renderers.rs: the groups of lanes.
use btelem.Prelude.{
  ℕ, ◌≡◌, refl, sym, ◌∙◌, ap, false, List, [], ◌∷◌, ◌++◌, Text, text_eq, append_assoc, append-nil,
  map, text_eq→eq, Bool-cases, inl, inr,
}
use btelem.Render.Labels.{push_lane, collapse_into, collapse_groups}

abbrev pub tagged : Text → List ℕ → List (ℕ × Text)
tagged k lanes = map (λ i. (i, k)) lanes

-- The lanes of the groups, each with its group.
abbrev pub expand : List (Text × List ℕ) → List (ℕ × Text)
expand [] = []
expand ((k, lanes) ∷ gs) = tagged k lanes ++ expand gs

-- Groups that follow each other have different names.
abbrev pub IsCollapsed : List (Text × List ℕ) → Type 0
IsCollapsed [] = Unit
IsCollapsed (g ∷ []) = Unit
IsCollapsed (g ∷ g' ∷ gs) = (text_eq g.0 g'.0 ≡ false) × IsCollapsed (g' ∷ gs)

map-append {ℓ κ} :
    {A : Type ℓ} {B : Type κ} (f : A → B) (xs ys : List A) → map f (xs ++ ys) ≡ map f xs ++ map f ys
map-append f [] ys = refl
map-append f (x ∷ xs) ys = ap (◌∷◌ (f x)) (map-append f xs ys)

expand-push_lane :
    (out : List (Text × List ℕ)) (idx : ℕ) (key : Text)
    → expand (push_lane out idx key) ≡ expand out ++ ((idx, key) ∷ [])
unfolding push_lane
expand-push_lane [] idx key = refl
expand-push_lane ((k, lanes) ∷ []) idx key = elim (Bool-cases (text_eq k key)) [
  | inl e ↦
      let same : tagged k lanes ++ ((idx, k) ∷ []) ≡ tagged k lanes ++ ((idx, key) ∷ []) =
        ap (λ x. tagged k lanes ++ ((idx, x) ∷ [])) (text_eq→eq k key e) in
      rw e (
        append-nil (tagged k (lanes ++ (idx ∷ [])))
        ∙ map-append (λ i. (i, k)) lanes (idx ∷ [])
        ∙ same
        ∙ ap (λ xs. xs ++ ((idx, key) ∷ [])) (sym (append-nil (tagged k lanes))))
  | inr e ↦ rw e (ap (λ xs. xs ++ ((idx, key) ∷ [])) (sym (append-nil (tagged k lanes))))
]
expand-push_lane ((k, lanes) ∷ g' ∷ gs) idx key =
    ap (◌++◌ (map (λ i. (i, k)) lanes)) (expand-push_lane (g' ∷ gs) idx key)
    ∙ sym (append_assoc (map (λ i. (i, k)) lanes) (expand (g' ∷ gs)) ((idx, key) ∷ []))

push_lane-IsCollapsed :
    (out : List (Text × List ℕ)) (idx : ℕ) (key : Text)
    → IsCollapsed out
    → IsCollapsed (push_lane out idx key)
unfolding push_lane
push_lane-IsCollapsed [] idx key h = tt
push_lane-IsCollapsed ((k, lanes) ∷ []) idx key h = elim (Bool-cases (text_eq k key)) [
  | inl e ↦ rw e tt
  | inr e ↦ rw e (e, tt)
]
push_lane-IsCollapsed ((k, lanes) ∷ (k', lanes') ∷ []) idx key h =
    elim (Bool-cases (text_eq k' key)) [ inl e ↦ rw e (h.0, tt) | inr e ↦ rw e (h.0, (e, tt)) ]
push_lane-IsCollapsed (g ∷ g' ∷ g'' ∷ gs) idx key h =
    (h.0, push_lane-IsCollapsed (g' ∷ g'' ∷ gs) idx key h.1)

collapse_into-expand :
    (out : List (Text × List ℕ)) (order : List (ℕ × Text))
    → IsCollapsed out
    → (expand (collapse_into out order) ≡ expand out ++ order)
      × IsCollapsed (collapse_into out order)
unfolding collapse_into
collapse_into-expand out [] h = (sym (append-nil (expand out)), h)
collapse_into-expand out ((idx, key) ∷ order) h =
    let rest =
      collapse_into-expand (push_lane out idx key) order (push_lane-IsCollapsed out idx key h) in
    (
      rest.0
          ∙ ap (λ xs. xs ++ order) (expand-push_lane out idx key)
          ∙ append_assoc (expand out) ((idx, key) ∷ []) order,
      rest.1,
    )

-- Collapsing the order of the lanes loses none of them and keeps their order and groups, and two groups
-- that follow each other have different names.
pub expand-collapse_groups :
    (order : List (ℕ × Text))
    → (expand (collapse_groups order) ≡ order) × IsCollapsed (collapse_groups order)
unfolding collapse_groups
expand-collapse_groups order = collapse_into-expand [] order tt
