-- ===== src/View/Layout/Dock.antt =====
-- What viewer/crates/btelem-viewer/src/layout.rs uses of egui_dock and of serde_json: a dock is a tree
-- of leaves with tabs, of which the code sees the tabs. `DockState<PlotId>` and `DockState<usize>`
-- are both docks of numbers.
use btelem.Prelude.{
  ℕ, ◌≡◌, Bool, List, [], ◌∷◌, ◌++◌, Option, some, map, retain, filter_map, set_has, append-nil,
  refl, ap,
}

pub record DockLib (D J : Type 0) : Type 0 where
  -- `DockState::new`
  pub fresh : List ℕ → D
  pub iter_all_tabs : D → List ℕ
  pub map_tabs : (ℕ → ℕ) → D → D
  pub filter_tabs : (ℕ → Bool) → D → D
  pub filter_map_tabs : (ℕ → Option ℕ) → D → D
  pub push_to_focused_leaf : ℕ → D → D
  -- The tabs of the leaves in the order of `iter_all_nodes_mut`, and what is left when they have been
  -- changed through it.
  pub leaves : D → List (List ℕ)
  pub with_leaves : List (List ℕ) → D → D
  -- `serde_json::to_value(..).unwrap_or(Null)` and `serde_json::from_value`
  pub to_value : D → J
  pub from_value : J → Option D

abbrev pub concat : List (List ℕ) → List ℕ
concat [] = []
concat (xs ∷ xss) = xs ++ concat xss

-- The documented behaviour: the operations work on the tabs as on a list, and a dock is read back
-- from its JSON value.
pub record IsDockLib {D J : Type 0} (lib : DockLib D J) : Type 0 where
  pub tabs-fresh : (tabs : List ℕ) → lib.iter_all_tabs (lib.fresh tabs) ≡ tabs
  pub tabs-map_tabs :
      (f : ℕ → ℕ) (dock : D)
      → lib.iter_all_tabs (lib.map_tabs f dock) ≡ map f (lib.iter_all_tabs dock)
  pub tabs-filter_tabs :
      (p : ℕ → Bool) (dock : D)
      → lib.iter_all_tabs (lib.filter_tabs p dock) ≡ retain p (lib.iter_all_tabs dock)
  pub tabs-filter_map_tabs :
      (f : ℕ → Option ℕ) (dock : D)
      → lib.iter_all_tabs (lib.filter_map_tabs f dock) ≡ filter_map f (lib.iter_all_tabs dock)
  pub tabs-push_to_focused_leaf :
      (tab : ℕ) (dock : D) (t : ℕ)
      → set_has (lib.iter_all_tabs (lib.push_to_focused_leaf tab dock)) t
        ≡ set_has (tab ∷ lib.iter_all_tabs dock) t
  pub tabs-leaves : (dock : D) → lib.iter_all_tabs dock ≡ concat (lib.leaves dock)
  pub leaves-with_leaves :
      (leaves : List (List ℕ)) (dock : D) → lib.leaves (lib.with_leaves leaves dock) ≡ leaves
  pub from_value-to_value : (dock : D) → lib.from_value (lib.to_value dock) ≡ some dock

-- A dock of one leaf, with which the tests run.
abbrev pub one_leaf : DockLib (List (List ℕ)) (Option (List (List ℕ)))
one_leaf = record {
  fresh = λ tabs. tabs ∷ [];
  iter_all_tabs = concat;
  map_tabs = λ f dock. map f (concat dock) ∷ [];
  filter_tabs = λ p dock. retain p (concat dock) ∷ [];
  filter_map_tabs = λ f dock. filter_map f (concat dock) ∷ [];
  push_to_focused_leaf = λ tab dock. (tab ∷ concat dock) ∷ [];
  leaves = λ dock. dock;
  with_leaves = λ leaves dock. leaves;
  to_value = λ dock. some dock;
  from_value = λ value. value;
}

pub one_leaf-IsDockLib : IsDockLib one_leaf
one_leaf-IsDockLib = record {
  tabs-fresh = λ tabs. append-nil tabs;
  tabs-map_tabs = λ f dock. append-nil (map f (concat dock));
  tabs-filter_tabs = λ p dock. append-nil (retain p (concat dock));
  tabs-filter_map_tabs = λ f dock. append-nil (filter_map f (concat dock));
  tabs-push_to_focused_leaf =
      λ tab dock t. ap (λ xs. set_has xs t) (append-nil (tab ∷ concat dock));
  tabs-leaves = λ dock. refl;
  leaves-with_leaves = λ leaves dock. refl;
  from_value-to_value = λ dock. refl;
}
