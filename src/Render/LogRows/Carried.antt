-- ===== src/Render/LogRows/Carried.antt =====
-- viewer/crates/btelem-viewer/src/plot_renderers.rs: what stands in the cells of the rows of a log view.
use btelem.Prelude.{
  ◌≡◌, refl, sym, subst, ==_iff, ◌∙◌, ap, Bool, true, false, ◌||◌, List, [], ◌∷◌, Option, none,
  some, Text, ◌==◌, if◌then◌else◌, arith, Bool-cases, Option-cases, inl, inr, map, map_get,
  map_insert, map_get-map_insert, set_has,
}
use btelem.Float.{Float}
use btelem.Store.{ChannelId, Timestamp, ChannelKind}
use btelem.Store.Mock.{Inner}
use btelem.Render.LogRows.{
  LogCell, ColSource, ById, tree_insert, last_up_to, scalar_values, text_values, source_of, kind_of,
  add_sources, cell_at, row_cells,
}
use btelem.Render.LogRows.Tree.{IsTree, tree_insert-IsTree, pick, last_up_to-tree_insert}

-- The latest entry not after `t`, the later one in the list of two at the same time.
abbrev pub latest :
    {V : Type 0}
    → Timestamp
    → Option (Timestamp × V)
    → List (Timestamp × V)
    → Option (Timestamp × V)
latest t acc [] = acc
latest t acc (e ∷ es) = latest t (pick t e acc) es

abbrev pub or_else : {A : Type 0} → Option A → Option A → Option A
or_else none b = b
or_else (some a) b = some a

module _ {A : Type 0} where
  if_or :
      (has here : Bool) (x y z : A)
      → y ≡ (if here then x else z)
      → (if has then x else y) ≡ (if here || has then x else z)
  if_or true here x y z e = ground arith
  if_or false here x y z e = ground (arith, e)

  or_else_or :
      (has here : Bool) (x y z : Option A)
      → y ≡ (if here then or_else x z else z)
      → (if has then or_else x y else y) ≡ (if here || has then or_else x z else z)
  or_else_or has here none y z e = ground (arith, e)
  or_else_or has here (some x) y z e = ground (arith, e)

module _ {F : Type 0} (format_scalar_value : F → Text) where
  abbrev pub scalar_entry : Timestamp × F → Timestamp × LogCell F
  scalar_entry s = (s.0, record { display = format_scalar_value s.1; raw = some s.1 })

  pub scalar_values-latest :
      (t : Timestamp) (samples : List (Timestamp × F)) (m : List (Timestamp × LogCell F))
      → IsTree m
      → last_up_to t (scalar_values format_scalar_value samples m)
        ≡ latest t (last_up_to t m) (map scalar_entry samples)
  scalar_values-latest t [] m h = refl
  scalar_values-latest t (s ∷ samples) m h =
      let cell = (scalar_entry s).1 in
      scalar_values-latest t samples (tree_insert s.0 cell m) (tree_insert-IsTree s.0 cell m h)
      ∙ ap (λ acc. latest t acc (map scalar_entry samples)) (last_up_to-tree_insert t s.0 cell m h)

module _ {F : Type 0} where
  abbrev pub text_entry : Timestamp × Text → Timestamp × LogCell F
  text_entry s = (s.0, record { display = s.1; raw = none })

  pub text_values-latest :
      (t : Timestamp) (samples : List (Timestamp × Text)) (m : List (Timestamp × LogCell F))
      → IsTree m
      → last_up_to t (text_values samples m) ≡ latest t (last_up_to t m) (map text_entry samples)
  text_values-latest t [] m h = refl
  text_values-latest t (s ∷ samples) m h =
      let cell = (text_entry s).1 in
      text_values-latest t samples (tree_insert s.0 cell m) (tree_insert-IsTree s.0 cell m h)
      ∙ ap (λ acc. latest t acc (map text_entry samples)) (last_up_to-tree_insert t s.0 cell m h)

  -- One round of the loop over the columns.
  abbrev next_sources :
      (F → Text)
      → Inner F
      → Timestamp
      → Timestamp
      → ChannelId
      → List (ChannelId × ColSource F)
      → Option ChannelKind
      → List (ChannelId × ColSource F)
  next_sources f g t0 t1 c sources kind = elim kind [
    | none ↦ sources
    | some kind ↦ map_insert c (source_of f g t0 t1 c kind) sources
  ]

  next_sources-get :
      (f : F → Text) (g : Inner F) (t0 t1 : Timestamp) (by_id : ById) (ch c : ChannelId)
      (sources : List (ChannelId × ColSource F)) (kind : ChannelKind)
      → kind_of by_id ch ≡ some kind
      → map_get ch (next_sources f g t0 t1 c sources (kind_of by_id c))
        ≡ (if c == ch then some (source_of f g t0 t1 ch kind) else map_get ch sources)
  next_sources-get f g t0 t1 by_id ch c sources kind k = elim (Bool-cases (c == ch)) [
    | inl e ↦
        let same : map_get ch (next_sources f g t0 t1 ch sources (kind_of by_id ch))
            ≡ some (source_of f g t0 t1 ch kind) =
          rw k (map_get-map_insert ch ch (source_of f g t0 t1 ch kind) sources ∙ ground arith) in
        rw e (
          subst
            (λ x.
              map_get ch (next_sources f g t0 t1 x sources (kind_of by_id x))
              ≡ some (source_of f g t0 t1 ch kind))
            (sym ((==_iff c ch).0 e)) same)
    | inr e ↦ elim (Option-cases (kind_of by_id c)) [
      | inl n ↦ rw (n, e) refl
      | inr (other, o) ↦
          rw (o, e) (rw e at (map_get-map_insert c ch (source_of f g t0 t1 c other) sources))
    ]
  ]

  pub add_sources-get :
      (f : F → Text) (g : Inner F) (t0 t1 : Timestamp) (by_id : ById) (ch : ChannelId)
      (columns : List ChannelId) (sources : List (ChannelId × ColSource F)) (kind : ChannelKind)
      → kind_of by_id ch ≡ some kind
      → map_get ch (add_sources f g t0 t1 by_id columns sources)
        ≡ (if set_has columns ch then some (source_of f g t0 t1 ch kind) else map_get ch sources)
  unfolding add_sources
  add_sources-get f g t0 t1 by_id ch [] sources kind k = refl
  add_sources-get f g t0 t1 by_id ch (c ∷ columns) sources kind k =
      let after = next_sources f g t0 t1 c sources (kind_of by_id c) in
      let rest = add_sources-get f g t0 t1 by_id ch columns after kind k in
      let first = next_sources-get f g t0 t1 by_id ch c sources kind k in
      rest
      ∙ if_or (set_has columns ch) (c == ch) (some (source_of f g t0 t1 ch kind)) (map_get ch after)
          (map_get ch sources) first

  module _ (fl : Float F) where
    abbrev next_cells :
        ChannelId → Option (LogCell F) → List (ChannelId × LogCell F) → List (ChannelId × LogCell F)
    next_cells c cell cells = elim cell [ none ↦ cells | some cell ↦ map_insert c cell cells ]

    next_cells-get :
        (sources : List (ChannelId × ColSource F)) (t : Timestamp) (ch c : ChannelId)
        (cells : List (ChannelId × LogCell F))
        → map_get ch (next_cells c (cell_at fl (map_get c sources) t) cells) ≡ (
            if c == ch
            then or_else (cell_at fl (map_get ch sources) t) (map_get ch cells)
            else map_get ch cells)
    next_cells-get sources t ch c cells = elim (Bool-cases (c == ch)) [
      | inl e ↦ rw e (
          subst
            (λ x.
              map_get ch (next_cells x (cell_at fl (map_get x sources) t) cells)
              ≡ or_else (cell_at fl (map_get ch sources) t) (map_get ch cells))
            (sym ((==_iff c ch).0 e)) (inserted (cell_at fl (map_get ch sources) t)))
      | inr e ↦ elim (Option-cases (cell_at fl (map_get c sources) t)) [
        | inl n ↦ rw (n, e) refl
        | inr (cell, o) ↦ rw (o, e) (rw e at (map_get-map_insert c ch cell cells))
      ]
    ]
      where
        inserted :
            (cell : Option (LogCell F))
            → map_get ch (next_cells ch cell cells) ≡ or_else cell (map_get ch cells)
        inserted none = refl
        inserted (some cell) = map_get-map_insert ch ch cell cells ∙ ground arith

    pub row_cells-get :
        (sources : List (ChannelId × ColSource F)) (t : Timestamp) (ch : ChannelId)
        (columns : List ChannelId) (cells : List (ChannelId × LogCell F))
        → map_get ch (row_cells fl sources t columns cells) ≡ (
            if set_has columns ch
            then or_else (cell_at fl (map_get ch sources) t) (map_get ch cells)
            else map_get ch cells)
    unfolding row_cells
    row_cells-get sources t ch [] cells = refl
    row_cells-get sources t ch (c ∷ columns) cells =
        let after = next_cells c (cell_at fl (map_get c sources) t) cells in
        let rest = row_cells-get sources t ch columns after in
        rest
        ∙ or_else_or (set_has columns ch) (c == ch) (cell_at fl (map_get ch sources) t)
            (map_get ch after) (map_get ch cells) (next_cells-get sources t ch c cells)
