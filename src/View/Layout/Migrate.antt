-- ===== src/View/Layout/Migrate.antt =====
-- viewer/crates/btelem-viewer/src/layout.rs: `migrate_chains_to_links`, which turns the chains of a
-- version 4 layout into links. The `HashMap` of the chains is walked in the order in which they
-- first occur; the order of the links is of no consequence.
pub mod Chains
use btelem.Prelude.{ℕ, suc, List, [], ◌∷◌, ◌++◌, Option, none, some, leb, map_get, map_insert}
use btelem.View.Names.{sort_by}
use btelem.View.Layout.{MarkerSpec, LinkSpec}

abbrev pub or_default : Option (List ℕ) → List ℕ
or_default none = []
or_default (some xs) = xs

-- `chains.entry(cid).or_default().push(i)`
unfoldable pub chain_push : ℕ → ℕ → List (ℕ × List ℕ) → List (ℕ × List ℕ)
chain_push cid i chains = map_insert cid (or_default (map_get cid chains) ++ (i ∷ [])) chains

-- The first loop, from the marker at `i` on.
unfoldable pub collect_chains : ℕ → List MarkerSpec → List (ℕ × List ℕ) → List (ℕ × List ℕ)
collect_chains i [] chains = chains
collect_chains i (m ∷ ms) chains =
    collect_chains (suc i) ms (elim m.chain [ none ↦ chains | some cid ↦ chain_push cid i chains ])

module _ {G : Type 0} (half : G) where
  -- `for w in sorted.windows(2)`
  unfoldable pub window_links : List ℕ → List (LinkSpec G)
  window_links [] = []
  window_links (a ∷ []) = []
  window_links (a ∷ b ∷ rest) =
      record { a_index = a; b_index = b; y_frac = half; signal_paths = [] }
      ∷ window_links (b ∷ rest)

  unfoldable pub chain_links : List (ℕ × List ℕ) → List (LinkSpec G)
  unfolding window_links
  chain_links [] = []
  chain_links ((cid, indices) ∷ chains) = window_links (sort_by leb indices) ++ chain_links chains

  unfoldable pub migrate_chains_to_links : List MarkerSpec → List (LinkSpec G)
  unfolding collect_chains chain_links
  migrate_chains_to_links markers = chain_links (collect_chains 0 markers [])
