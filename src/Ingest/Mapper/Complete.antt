-- ===== src/Ingest/Mapper/Complete.antt =====
-- viewer/crates/btelem-ingest/src/mapper.rs: which schemas `ChannelMap::build` takes, and what the map
-- then holds.
use btelem.Prelude.{
  ℕ, suc, ◌%◌, ◌^◌, ◌≡◌, refl, sym, ap, ◌∙◌, ◌↔◌, inl, inr, false, List, [], ◌∷◌, none, some, ok,
  ok-injective, arith, ◌==◌, ==_iff, ==_refl, any, map_get, map_insert, map_get-map_insert,
  Bool-cases, Option-cases, length, All,
}
use btelem.Wire.Schema.{FieldDef, SchemaEntry, Schema}
use btelem.Store.Mock.{Inner}
use btelem.Ingest.Mapper.{FieldKind, ChannelMap, build_field, build_fields, build_entries, build}

-- No later entry has the id of an earlier one.
abbrev pub IdsDistinct : List SchemaEntry → Type 0
IdsDistinct [] = Unit {0}
IdsDistinct (e ∷ es) = (any (λ x. x.id == e.id) es ≡ false) × IdsDistinct es

-- The map has a handler for each field of the entry.
abbrev pub IsMapped : ChannelMap → SchemaEntry → Type 0
IsMapped m e = (fks : List FieldKind) × (map_get e.id m ≡ some fks) × (length fks ≡ length e.fields)

-- The ids of the entries are not in the map.
abbrev Fresh : ChannelMap → List SchemaEntry → Type 0
Fresh m es = All (λ e. map_get e.id m ≡ none) es

inserted : (k : ℕ) (v : List FieldKind) (m : ChannelMap) → map_get k (map_insert k v m) ≡ some v
inserted k v m = rw (map_get-map_insert k k v m, ==_refl k)

insert_keeps :
    (k j : ℕ) (v w : List FieldKind) (m : ChannelMap)
    → map_get k m ≡ none
    → map_get j m ≡ some w
    → map_get j (map_insert k v m) ≡ some w
insert_keeps k j v w m n g = rw (map_get-map_insert k j v m) (elim (Bool-cases (k == j)) [
  | inl e ↦ absurd (cc (sym n ∙ ap (λ x. map_get x m) ((==_iff k j).0 e) ∙ g))
  | inr e ↦ rw e g
])

==_comm : (a b : ℕ) → (a == b) ≡ (b == a)
==_comm a b = ground arith

insert-Fresh :
    (k : ℕ) (v : List FieldKind) (m : ChannelMap) (es : List SchemaEntry)
    → any (λ x. x.id == k) es ≡ false
    → Fresh m es
    → Fresh (map_insert k v m) es
insert-Fresh k v m [] a f = tt
insert-Fresh k v m (e ∷ es) a f = elim (Bool-cases (e.id == k)) [
  | inl h ↦ absurd (cc (rw (h, any) at a))
  | inr h ↦ (
    rw (map_get-map_insert k e.id v m, ==_comm k e.id, h) f.0,
    insert-Fresh k v m es (rw (h, any) at a) f.1,
  )
]

Fresh-insert :
    (k : ℕ) (v : List FieldKind) (m : ChannelMap) (es : List SchemaEntry)
    → Fresh (map_insert k v m) es
    → (any (λ x. x.id == k) es ≡ false) × Fresh m es
Fresh-insert k v m [] f = (refl, tt)
Fresh-insert k v m (e ∷ es) f = elim (Bool-cases (e.id == k)) [
  | inl h ↦ absurd (
      cc (
        sym (inserted k v m)
        ∙ ap (λ x. map_get x (map_insert k v m)) (sym ((==_iff e.id k).0 h))
        ∙ f.0))
  | inr h ↦
      let (a, g) = Fresh-insert k v m es f.1 in
      (rw (h, any) a, (rw (map_get-map_insert k e.id v m, ==_comm k e.id, h) at f.0, g))
]

all-Fresh : (es : List SchemaEntry) → Fresh [] es
all-Fresh [] = tt
all-Fresh (e ∷ es) = (refl, all-Fresh es)

module _ {F : Type 0} where
  length-build_fields :
      (id fi : ℕ) (fs : List FieldDef) (schema : Schema) (store : Inner F)
      → length (build_fields id fi fs schema store).1 ≡ length fs
  unfolding build_fields
  length-build_fields id fi [] schema store = refl
  length-build_fields id fi (f ∷ fs) schema store =
      ap suc
        (length-build_fields id (suc fi) fs schema (build_field id (fi % 2 ^ 16) f schema store).0)

  -- What is in the map stays, and what is put there has a handler for each field.
  build_entries-IsMapped :
      (es : List SchemaEntry) (schema : Schema) (m : ChannelMap) (store : Inner F)
      (after : ChannelMap)
      → (build_entries es schema m store).1 ≡ ok after
      → All (IsMapped after) es
        × ((id : ℕ) (fks : List FieldKind) → map_get id m ≡ some fks → map_get id after ≡ some fks)
  unfolding build_entries
  build_entries-IsMapped [] schema m store after h =
      (tt, λ id fks g. ap (map_get id) (sym (ok-injective h)) ∙ g)
  build_entries-IsMapped (e ∷ es) schema m store after h = elim (Option-cases (map_get e.id m)) [
    | inr (x, n) ↦ absurd (cc (rw (n, build_entries) at h))
    | inl n ↦
        let built = build_fields e.id 0 e.fields schema store in
        let (mapped, stays) =
          build_entries-IsMapped es schema (map_insert e.id built.1 m) built.0 after
            (rw (n, build_entries) at h) in
        (
          (
            (
              built.1,
              stays e.id built.1 (inserted e.id built.1 m),
              length-build_fields e.id 0 e.fields schema store,
            ),
            mapped,
          ),
          λ id fks g. stays id fks (insert_keeps e.id id built.1 fks m n g),
        )
  ]

  -- Success means distinct ids, none of them in the map before.
  build_entries-distinct :
      (es : List SchemaEntry) (schema : Schema) (m : ChannelMap) (store : Inner F)
      (after : ChannelMap)
      → (build_entries es schema m store).1 ≡ ok after
      → Fresh m es × IdsDistinct es
  unfolding build_entries
  build_entries-distinct [] schema m store after h = (tt, tt)
  build_entries-distinct (e ∷ es) schema m store after h = elim (Option-cases (map_get e.id m)) [
    | inr (x, n) ↦ absurd (cc (rw (n, build_entries) at h))
    | inl n ↦
        let built = build_fields e.id 0 e.fields schema store in
        let (fresh, distinct) =
          build_entries-distinct es schema (map_insert e.id built.1 m) built.0 after
            (rw (n, build_entries) at h) in
        let (others, old) = Fresh-insert e.id built.1 m es fresh in ((n, old), (others, distinct))
  ]

  -- Distinct ids that are not in the map are enough.
  build_entries-ok :
      (es : List SchemaEntry) (schema : Schema) (m : ChannelMap) (store : Inner F)
      → Fresh m es
      → IdsDistinct es
      → (after : ChannelMap) × ((build_entries es schema m store).1 ≡ ok after)
  unfolding build_entries
  build_entries-ok [] schema m store f d = (m, refl)
  build_entries-ok (e ∷ es) schema m store f d =
      let built = build_fields e.id 0 e.fields schema store in
      rw (f.0, build_entries)
        (build_entries-ok es schema (map_insert e.id built.1 m) built.0
          (insert-Fresh e.id built.1 m es d.0 f.1) d.1)

  -- Building the channel map succeeds exactly when no two entries of the schema have the same id, and
  -- the map then holds for each entry a handler for each of its fields.
  pub build-IsMapped :
      (schema : Schema) (store : Inner F)
      → IdsDistinct schema.entries
        ↔ ((m : ChannelMap) × ((build schema store).1 ≡ ok m) × All (IsMapped m) schema.entries)
  unfolding build
  build-IsMapped schema store = (
    (λ d.
        let (m, e) = build_entries-ok schema.entries schema [] store (all-Fresh schema.entries) d in
        (m, e, (build_entries-IsMapped schema.entries schema [] store m e).0)),
    λ r. (build_entries-distinct schema.entries schema [] store r.0 r.1).1,
  )
