-- ===== src/View/Markers/Consistent.antt =====
-- viewer/crates/btelem-viewer/src/view_state.rs: what a consistent `MarkerSet` is, and what adding and
-- removing keeps of it.
use btelem.Prelude.{
  ℕ, zero, suc, ◌+◌, ◌≤◌, ◌≡◌, subst, inl, inr, Bool, true, false, not, ◌&&◌, List, [], ◌∷◌, ◌++◌,
  Option, none, some, arith, All, All-append, All-weaken, any, retain, find, get_elem?, Bool-cases,
  ◌==◌, if◌then◌else◌,
}
use btelem.View.Markers.{Marker, Link, MarkerSet}

-- Ids in the order of creation, from `lo` on and below `hi`: no two are equal.
abbrev pub Ids {ℓ} : {A : Type ℓ} → (A → ℕ) → ℕ → ℕ → List A → Type 0
Ids id lo hi [] = lo ≤ hi
Ids id lo hi (x ∷ xs) = (lo ≤ id x) × Ids id (suc (id x)) hi xs

abbrev pub Exists : List Marker → ℕ → Type 0
Exists ms i = any (λ m. m.id == i) ms ≡ true

abbrev pub LinkExists : {F : Type 0} → List Marker → Link F → Type 0
LinkExists ms l = Exists ms l.a × Exists ms l.b

abbrev pub SelectedExists : List Marker → Option ℕ → Type 0
SelectedExists ms none = Unit {0}
SelectedExists ms (some i) = Exists ms i

-- Markers and links have ids of their own, that the counters never give out again; a link has
-- both its ends, and the selected marker exists.
pub record IsConsistent {F : Type 0} (s : MarkerSet F) : Type 0 where
  pub markers : Ids (λ m. m.id) 1 s.next_id s.markers
  pub link_ids : Ids (λ l. l.id) 1 s.next_link_id s.links
  pub links : All (LinkExists s.markers) s.links
  pub selected : SelectedExists s.markers s.selected

module _ {ℓ} {A : Type ℓ} (id : A → ℕ) where
  Ids-le : (lo lo' hi : ℕ) (xs : List A) → lo' ≤ lo → Ids id lo hi xs → Ids id lo' hi xs
  Ids-le lo lo' hi [] h i = omega arith
  Ids-le lo lo' hi (x ∷ xs) h i = (omega (arith, i.0), i.1)

  Ids-append :
      (lo hi : ℕ) (xs : List A) (x : A)
      → id x ≡ hi
      → Ids id lo hi xs
      → Ids id lo (hi + 1) (xs ++ (x ∷ []))
  Ids-append lo hi [] x e i = (omega arith, omega arith)
  Ids-append lo hi (y ∷ xs) x e i = (i.0, Ids-append (suc (id y)) hi xs x e i.1)

  Ids-bound : (lo hi : ℕ) (xs : List A) → Ids id lo hi xs → lo ≤ hi
  Ids-bound lo hi [] i = i
  Ids-bound lo hi (x ∷ xs) i = omega (arith, i.0, Ids-bound (suc (id x)) hi xs i.1)

  pub Ids-retain :
      (p : A → Bool) (lo hi : ℕ) (xs : List A) → Ids id lo hi xs → Ids id lo hi (retain p xs)
  Ids-retain p lo hi [] i = i
  Ids-retain p lo hi (x ∷ xs) i = elim (Bool-cases (p x)) [
    | inl e ↦ rw (e, retain) (i.0, Ids-retain p (suc (id x)) hi xs i.1)
    | inr e ↦
        rw (e, retain)
          (Ids-le (suc (id x)) lo hi (retain p xs) (omega (arith, i.0))
            (Ids-retain p (suc (id x)) hi xs i.1))
  ]

pub any-append :
    (p : Marker → Bool) (xs ys : List Marker) → any p xs ≡ true → any p (xs ++ ys) ≡ true
any-append p [] ys h = absurd (cc h)
any-append p (x ∷ xs) ys h = elim (Bool-cases (p x)) [
  | inl e ↦ rw (e, any)
  | inr e ↦ rw (e, any) (any-append p xs ys (rw e at h))
]

pub any_here :
    (p : Marker → Bool) (xs : List Marker) (y : Marker) → p y ≡ true → any p (xs ++ (y ∷ [])) ≡ true
any_here p [] y h = rw h
any_here p (x ∷ xs) y h = elim (Bool-cases (p x)) [
  | inl e ↦ rw (e, any)
  | inr e ↦ rw (e, any) (any_here p xs y h)
]

-- A marker with another id survives a removal.
Exists-remove :
    (ms : List Marker) (i id : ℕ)
    → (i == id) ≡ false
    → Exists ms i
    → Exists (retain (λ m. not (m.id == id)) ms) i
Exists-remove [] i id ne h = absurd (cc h)
Exists-remove (m ∷ ms) i id ne h = ground (arith, Exists-remove ms i id ne)

SelectedExists-append :
    (ms ns : List Marker) (o : Option ℕ) → SelectedExists ms o → SelectedExists (ms ++ ns) o
SelectedExists-append ms ns none h = tt
SelectedExists-append ms ns (some i) h = any-append _ ms ns h

pub get_elem?-Exists :
    (ms : List Marker) (ids : List ℕ) (i a : ℕ)
    → All (Exists ms) ids
    → get_elem? ids i ≡ some a
    → Exists ms a
get_elem?-Exists ms [] i a h e = absurd (cc e)
get_elem?-Exists ms (x ∷ ids) zero a h e = subst (Exists ms) (cc e) h.0
get_elem?-Exists ms (x ∷ ids) (suc i) a h e = get_elem?-Exists ms ids i a h.1 e

pub remove-SelectedExists :
    (ms : List Marker) (id : ℕ) (o : Option ℕ)
    → SelectedExists ms o
    → SelectedExists
        (retain (λ m. not (m.id == id)) ms)
        (elim o [ none ↦ none | some i ↦ if i == id then none else some i ])
remove-SelectedExists ms id none h = tt
remove-SelectedExists ms id (some i) h = elim (Bool-cases (i == id)) [
  | inl e ↦ rw e tt
  | inr e ↦ rw e (Exists-remove ms i id e h)
]

pub get-Exists :
    (ms : List Marker) (i : ℕ) (m : Marker) → find (λ m. m.id == i) ms ≡ some m → Exists ms i
get-Exists [] i m e = absurd (cc e)
get-Exists (n ∷ ms) i m e = elim (Bool-cases (n.id == i)) [
  | inl h ↦ rw (h, any)
  | inr h ↦ rw (h, any) (get-Exists ms i m (rw h at e))
]

module _ {F : Type 0} where
  LinkExists-append :
      (ms ns : List Marker) (ls : List (Link F))
      → All (LinkExists ms) ls
      → All (LinkExists (ms ++ ns)) ls
  LinkExists-append ms ns ls h =
      All-weaken (LinkExists ms) ls (λ l e. (any-append _ ms ns e.0, any-append _ ms ns e.1)) h

  pub LinkExists-remove :
      (ms : List Marker) (id : ℕ) (ls : List (Link F))
      → All (LinkExists ms) ls
      → All
          (LinkExists (retain (λ m. not (m.id == id)) ms))
          (retain (λ l. not (l.a == id) && not (l.b == id)) ls)
  LinkExists-remove ms id [] h = tt
  LinkExists-remove ms id (l ∷ ls) h = elim (Bool-cases (l.a == id)) [
    | inl ea ↦ rw (ea, retain) (LinkExists-remove ms id ls h.1)
    | inr ea ↦ elim (Bool-cases (l.b == id)) [
      | inl eb ↦ rw (ea, eb, retain) (LinkExists-remove ms id ls h.1)
      | inr eb ↦
          rw (ea, eb, retain)
            (
              (Exists-remove ms l.a id ea h.0.0, Exists-remove ms l.b id eb h.0.1),
              LinkExists-remove ms id ls h.1,
            )
    ]
  ]

  -- A new marker.
  pub with_marker :
      (s : MarkerSet F) (m : Marker)
      → m.id ≡ s.next_id
      → IsConsistent s
      → IsConsistent (record s { next_id = s.next_id + 1; markers = s.markers ++ (m ∷ []) })
  with_marker s m e c = record {
    markers = Ids-append (λ m. m.id) 1 s.next_id s.markers m e c.markers;
    link_ids = c.link_ids;
    links = LinkExists-append s.markers (m ∷ []) s.links c.links;
    selected = SelectedExists-append s.markers (m ∷ []) s.selected c.selected;
  }

  -- A new link.
  pub with_link :
      (s : MarkerSet F) (l : Link F)
      → l.id ≡ s.next_link_id
      → LinkExists s.markers l
      → IsConsistent s
      → IsConsistent (record s { next_link_id = s.next_link_id + 1; links = s.links ++ (l ∷ []) })
  with_link s l e x c = record {
    markers = c.markers;
    link_ids = Ids-append (λ l. l.id) 1 s.next_link_id s.links l e c.link_ids;
    links = All-append (LinkExists s.markers) s.links l c.links x;
    selected = c.selected;
  }
