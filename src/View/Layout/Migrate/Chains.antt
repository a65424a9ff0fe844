-- ===== src/View/Layout/Migrate/Chains.antt =====
-- viewer/crates/btelem-viewer/src/layout.rs: which markers `migrate_chains_to_links` links.
use btelem.Prelude.{
  ℕ, zero, suc, ◌+◌, ◌≤◌, ◌<◌, ◌≡◌, refl, ◌∙◌, ap, Bool, false, ◌||◌, ◌&&◌, leb, ◌==◌, List, [],
  ◌∷◌, ◌++◌, Option, none, some, any, All, All-weaken, arith, if◌then◌else◌, map_get, map_insert,
  get_elem?, take, leb_yes, Bool-cases, Option-cases, inl, inr,
}
use mathlib.Core.Path.{fun_ext}
use btelem.View.Names.{sort_by, insert_sorted}
use btelem.View.Layout.{MarkerSpec, LinkSpec}
use btelem.View.Layout.Migrate.{
  or_default, chain_push, collect_chains, window_links, chain_links, migrate_chains_to_links,
}

-- A link from the marker at `a` to the one at `b`.
abbrev pub linked : {G : Type 0} → List (LinkSpec G) → ℕ → ℕ → Bool
linked links a b = any (λ l. l.a_index == a && l.b_index == b) links

abbrev is : Option ℕ → ℕ → Bool
is none a = false
is (some x) a = x == a

abbrev last : List ℕ → Option ℕ
last [] = none
last (x ∷ []) = some x
last (x ∷ y ∷ ys) = last (y ∷ ys)

-- The last marker of a chain, counted from `i` on; `before` is the one in front of them.
abbrev pub last_index : ℕ → Option ℕ → ℕ → List MarkerSpec → Option ℕ
last_index cid before i [] = before
last_index cid before i (m ∷ ms) =
    last_index cid (elim m.chain [ none ↦ before | some c ↦ if c == cid then some i else before ])
      (suc i) ms

abbrev pub chain_at : List MarkerSpec → ℕ → Option ℕ
chain_at markers b = elim (get_elem? markers b) [ none ↦ none | some m ↦ m.chain ]

abbrev is_last : Option ℕ → (ℕ → Option ℕ) → ℕ → Bool
is_last none before a = false
is_last (some cid) before a = is (before cid) a

-- The marker at `b` is in a chain, and the last one before it in this chain is the one at `a`.
unfoldable pub is_next : List MarkerSpec → ℕ → ℕ → Bool
is_next markers a b = is_last (chain_at markers b) (λ cid. last_index cid none 0 (take b markers)) a

abbrev pair_in : ℕ → ℕ → List ℕ → Bool
pair_in a b [] = false
pair_in a b (x ∷ []) = false
pair_in a b (x ∷ y ∷ ys) = (x == a && y == b) || pair_in a b (y ∷ ys)

pair_in-append :
    (a b : ℕ) (xs : List ℕ) (i : ℕ)
    → pair_in a b (xs ++ (i ∷ [])) ≡ (pair_in a b xs || (is (last xs) a && i == b))
pair_in-append a b [] i = refl
pair_in-append a b (x ∷ []) i = ground arith
pair_in-append a b (x ∷ y ∷ ys) i = ground (arith, pair_in-append a b (y ∷ ys) i)

last-append : (xs : List ℕ) (i : ℕ) → last (xs ++ (i ∷ [])) ≡ some i
last-append [] i = refl
last-append (x ∷ []) i = refl
last-append (x ∷ y ∷ ys) i = last-append (y ∷ ys) i

insert_sorted-append :
    (x : ℕ) (ys : List ℕ) (i : ℕ)
    → x ≤ i
    → insert_sorted leb x (ys ++ (i ∷ [])) ≡ insert_sorted leb x ys ++ (i ∷ [])
unfolding insert_sorted
insert_sorted-append x [] i h = rw (leb_yes x i h)
insert_sorted-append x (y ∷ ys) i h = ground (arith, insert_sorted-append x ys i h)

sort_by-append :
    (xs : List ℕ) (i : ℕ)
    → All (λ x. x ≤ i) xs
    → sort_by leb (xs ++ (i ∷ [])) ≡ sort_by leb xs ++ (i ∷ [])
unfolding sort_by
sort_by-append [] i h = refl
sort_by-append (x ∷ xs) i h =
    ap (insert_sorted leb x) (sort_by-append xs i h.1)
    ∙ insert_sorted-append x (sort_by leb xs) i h.0

-- The pairs and the last markers of the chains that were collected.
abbrev pair_in_chains : ℕ → ℕ → List (ℕ × List ℕ) → Bool
pair_in_chains a b chains = any (λ e. pair_in a b (sort_by leb e.1)) chains

abbrev last_of : ℕ → List (ℕ × List ℕ) → Option ℕ
last_of cid chains = last (sort_by leb (or_default (map_get cid chains)))

abbrev Below : ℕ → List (ℕ × List ℕ) → Type 0
Below i chains = All (λ e. All (λ x. x ≤ i) e.1) chains

pair_in_chains-chain_push :
    (a b cid i : ℕ) (chains : List (ℕ × List ℕ))
    → Below i chains
    → pair_in_chains a b (chain_push cid i chains)
      ≡ (pair_in_chains a b chains || (is (last_of cid chains) a && i == b))
unfolding chain_push sort_by insert_sorted
pair_in_chains-chain_push a b cid i [] h = refl
pair_in_chains-chain_push a b cid i ((c, xs) ∷ chains) h = ground (
  arith,
  pair_in_chains-chain_push a b cid i chains h.1,
  sort_by-append xs i h.0,
  pair_in-append a b (sort_by leb xs) i,
)

last_of-chain_push :
    (c cid i : ℕ) (chains : List (ℕ × List ℕ))
    → Below i chains
    → last_of c (chain_push cid i chains) ≡ (if cid == c then some i else last_of c chains)
unfolding chain_push sort_by insert_sorted
last_of-chain_push c cid i [] h = ground arith
last_of-chain_push c cid i ((d, xs) ∷ chains) h = ground (
  arith,
  last_of-chain_push c cid i chains h.1,
  sort_by-append xs i h.0,
  last-append (sort_by leb xs) i,
)

Below-weaken : (i : ℕ) (chains : List (ℕ × List ℕ)) → Below i chains → Below (suc i) chains
Below-weaken i [] h = tt
Below-weaken i ((c, xs) ∷ chains) h =
    (All-weaken (λ x. x ≤ i) xs (λ x k. omega arith) h.0, Below-weaken i chains h.1)

All-le-append : (xs : List ℕ) (i : ℕ) → All (λ x. x ≤ i) xs → All (λ x. x ≤ i) (xs ++ (i ∷ []))
All-le-append [] i h = (omega arith, tt)
All-le-append (x ∷ xs) i h = (h.0, All-le-append xs i h.1)

Below-map_get :
    (cid i : ℕ) (chains : List (ℕ × List ℕ))
    → Below i chains
    → All (λ x. x ≤ i) (or_default (map_get cid chains))
Below-map_get cid i [] h = tt
Below-map_get cid i ((c, xs) ∷ chains) h = elim (Bool-cases (c == cid)) [
  | inl e ↦ rw e h.0
  | inr e ↦ rw e (Below-map_get cid i chains h.1)
]

Below-map_insert :
    (cid i : ℕ) (ys : List ℕ) (chains : List (ℕ × List ℕ))
    → All (λ x. x ≤ i) ys
    → Below i chains
    → Below i (map_insert cid ys chains)
Below-map_insert cid i ys [] h k = (h, tt)
Below-map_insert cid i ys ((c, xs) ∷ chains) h k = elim (Bool-cases (c == cid)) [
  | inl e ↦ rw e (h, k.1)
  | inr e ↦ rw e (k.0, Below-map_insert cid i ys chains h k.1)
]

Below-chain_push :
    (cid i : ℕ) (chains : List (ℕ × List ℕ)) → Below i chains → Below i (chain_push cid i chains)
unfolding chain_push
Below-chain_push cid i chains h =
    let old = or_default (map_get cid chains) in
    Below-map_insert cid i (old ++ (i ∷ [])) chains
      (All-le-append old i (Below-map_get cid i chains h)) h

-- The pairs that the markers from `i` on add to the chains collected so far.
abbrev next_in : (ℕ → Option ℕ) → ℕ → List MarkerSpec → ℕ → ℕ → Bool
next_in before i [] a b = false
next_in before i (m ∷ ms) a b = elim m.chain [
  | none ↦ next_in before (suc i) ms a b
  | some cid ↦
      (is (before cid) a && i == b)
      || next_in (λ c. if cid == c then some i else before c) (suc i) ms a b
]

linked-append :
    {G : Type 0} (xs ys : List (LinkSpec G)) (a b : ℕ)
    → linked (xs ++ ys) a b ≡ (linked xs a b || linked ys a b)
linked-append [] ys a b = refl
linked-append (x ∷ xs) ys a b = ground (arith, linked-append xs ys a b)

linked-window_links :
    {G : Type 0} (half : G) (a b : ℕ) (xs : List ℕ)
    → linked (window_links half xs) a b ≡ pair_in a b xs
unfolding window_links
linked-window_links half a b [] = refl
linked-window_links half a b (x ∷ []) = refl
linked-window_links half a b (x ∷ y ∷ ys) =
    ap (λ t. (x == a && y == b) || t) (linked-window_links half a b (y ∷ ys))

linked-chain_links :
    {G : Type 0} (half : G) (a b : ℕ) (chains : List (ℕ × List ℕ))
    → linked (chain_links half chains) a b ≡ pair_in_chains a b chains
unfolding chain_links
linked-chain_links half a b [] = refl
linked-chain_links half a b ((c, xs) ∷ chains) =
    linked-append (window_links half (sort_by leb xs)) (chain_links half chains) a b
    ∙ rw (linked-window_links half a b (sort_by leb xs), linked-chain_links half a b chains)

next_in-past :
    (before : ℕ → Option ℕ) (i : ℕ) (ms : List MarkerSpec) (a b : ℕ)
    → b < i
    → next_in before i ms a b ≡ false
next_in-past before i [] a b h = refl
next_in-past before i (m ∷ ms) a b h = elim (Option-cases m.chain) [
  | inl e ↦ rw e (next_in-past before (suc i) ms a b (omega arith))
  | inr (cid, e) ↦
      rw e
        (ground (arith, next_in-past (λ c. if cid == c then some i else before c) (suc i) ms a b))
]

-- The pair, told by the chain of its second marker.
next_in_lem :
    (before : ℕ → Option ℕ) (i : ℕ) (ms : List MarkerSpec) (a k : ℕ)
    → next_in before i ms a (i + k)
      ≡ is_last (chain_at ms k) (λ cid. last_index cid (before cid) i (take k ms)) a
next_in_lem before i [] a k = refl
next_in_lem before i (m ∷ ms) a zero = elim (Option-cases m.chain) [
  | inl e ↦ rw e (next_in-past before (suc i) ms a (i + 0) (omega arith))
  | inr (cid, e) ↦
      rw
        (
          e,
          next_in-past (λ c. if cid == c then some i else before c) (suc i) ms a (i + 0)
              (omega arith),
        )
        (ground arith)
]
next_in_lem before i (m ∷ ms) a (suc k) =
    let eq : i + suc k ≡ suc i + k = omega arith in
    elim (Option-cases m.chain) [
      | inl e ↦ rw (e, eq) (next_in_lem before (suc i) ms a k)
      | inr (cid, e) ↦
          let apart : (i == suc i + k) ≡ false = ground arith in
          rw (e, eq)
            (ground (arith, apart)
              ∙ next_in_lem (λ c. if cid == c then some i else before c) (suc i) ms a k)
    ]

pair_in_chains-collect_chains :
    (a b i : ℕ) (ms : List MarkerSpec) (chains : List (ℕ × List ℕ))
    → Below i chains
    → pair_in_chains a b (collect_chains i ms chains)
      ≡ (pair_in_chains a b chains || next_in (λ c. last_of c chains) i ms a b)
unfolding collect_chains
pair_in_chains-collect_chains a b i [] chains h = ground arith
pair_in_chains-collect_chains a b i (m ∷ ms) chains h = elim (Option-cases m.chain) [
  | inl e ↦
      rw (e, collect_chains)
        (pair_in_chains-collect_chains a b (suc i) ms chains (Below-weaken i chains h))
  | inr (cid, e) ↦
      let pushed = chain_push cid i chains in
      let below : Below (suc i) pushed = Below-weaken i pushed (Below-chain_push cid i chains h) in
      rw (e, collect_chains)
        (pair_in_chains-collect_chains a b (suc i) ms pushed below
          ∙ rw
              (
                pair_in_chains-chain_push a b cid i chains h,
                fun_ext (λ c. last_of-chain_push c cid i chains h),
              )
              (ground arith))
]

-- A version 4 layout keeps the pairs of its chains: the migrated layout has a link from the marker at
-- `a` to the marker at `b` exactly if the marker at `b` is in a chain and the last marker before it
-- in the same chain is the one at `a`.
pub linked-migrate_chains_to_links :
    {G : Type 0} (half : G) (markers : List MarkerSpec) (a b : ℕ)
    → linked (migrate_chains_to_links half markers) a b ≡ is_next markers a b
unfolding migrate_chains_to_links is_next sort_by
linked-migrate_chains_to_links half markers a b =
    linked-chain_links half a b (collect_chains 0 markers [])
    ∙ pair_in_chains-collect_chains a b 0 markers [] tt
    ∙ (let eq : b ≡ 0 + b = omega arith in
        ap (λ k. next_in (λ c. none) 0 markers a k) eq ∙ next_in_lem (λ c. none) 0 markers a b)
