-- ===== src/View/Layout/Renaming.antt =====
-- viewer/crates/btelem-viewer/src/layout.rs: what it means that the channels of a saved layout are
-- found again, perhaps under other ids, when it is restored.
use btelem.Prelude.{
  ◌≡◌, refl, ◌∙◌, ap, sym, false, List, [], ◌∷◌, ◌++◌, some, ◌==◌, map, map_get, text_get, text_eq,
  text_eq_iff, set_has, Distinct, All, arith, Bool-cases, inl, inr, some-injective, All-append,
  Distinct-front, append_assoc,
}
use btelem.Store.{ChannelId, ChannelInfo}
use btelem.View.Layout.Capture.{ById, path_of}
use btelem.View.Layout.Resolve.{ByPath}

-- `c'` is the channel `c` under the id `id`.
pub record IsSame (c : ChannelInfo) (id : ChannelId) (c' : ChannelInfo) : Type 0 where
  pub id_eq : c'.id ≡ id
  pub kind : c'.kind ≡ c.kind
  pub storage : c'.integer_storage ≡ c.integer_storage

-- The channels by id when a layout is saved, the channels by path when it is restored, and the id
-- that each channel has then.
pub record Reopening : Type 0 where
  pub by_id : ById
  pub by_path : ByPath
  pub ren : ChannelId → ChannelId

-- A channel of the saved session, and the one that its path names when the layout is restored.
pub record IsKnown (r : Reopening) (id : ChannelId) : Type 0 where
  pub before : ChannelInfo
  pub after : ChannelInfo
  pub known : map_get id r.by_id ≡ some before
  pub found : text_get before.path r.by_path ≡ some after
  pub same : IsSame before (r.ren id) after

-- Two channels do not become one.
abbrev pub Separates : Reopening → Type 0
Separates r = (i j : ChannelId) → IsKnown r i → IsKnown r j → r.ren i ≡ r.ren j → i ≡ j

abbrev pub AllKnown : Reopening → List ChannelId → Type 0
AllKnown r ids = All (IsKnown r) ids

module _ {r : Reopening} where
  pub path_of-IsKnown :
      {id : ChannelId} (k : IsKnown r id) → path_of r.by_id id ≡ some k.before.path
  path_of-IsKnown k = rw (k.known, path_of) refl

  pub ren-eq :
      {i j : ChannelId} → Separates r → IsKnown r i → IsKnown r j → (r.ren i == r.ren j) ≡ (i == j)
  ren-eq {i} {j} sep ki kj = ground (arith, sep i j ki kj, ap r.ren {x = i} {y = j})

  -- Two known channels with the same path are one channel.
  pub path-ren :
      {i j : ChannelId} (ki : IsKnown r i) (kj : IsKnown r j)
      → ki.before.path ≡ kj.before.path
      → r.ren i ≡ r.ren j
  path-ren ki kj e =
      let same : some ki.after ≡ some kj.after = sym ki.found ∙ rw e kj.found in
      sym ki.same.id_eq ∙ ap (λ c. c.id) (some-injective same) ∙ kj.same.id_eq

  pub path-eq :
      {i j : ChannelId}
      → Separates r
      → (ki : IsKnown r i) (kj : IsKnown r j) → (i == j) ≡ false
      → text_eq ki.before.path kj.before.path ≡ false
  path-eq {i} {j} sep ki kj h = elim (Bool-cases (text_eq ki.before.path kj.before.path)) [
    | inl e ↦
        let one : i ≡ j =
          sep i j ki kj (path-ren ki kj ((text_eq_iff ki.before.path kj.before.path).0 e)) in
        absurd (ground (arith, one, h))
    | inr e ↦ e
  ]

  pub set_has-map_ren :
      (ids : List ChannelId) (i : ChannelId)
      → Separates r
      → AllKnown r ids
      → IsKnown r i
      → set_has (map r.ren ids) (r.ren i) ≡ set_has ids i
  set_has-map_ren [] i sep ks k = refl
  set_has-map_ren (j ∷ ids) i sep ks k =
      rw (ren-eq sep ks.0 k, set_has-map_ren ids i sep ks.1 k) refl

  pub Distinct-map_ren :
      (ids : List ChannelId)
      → Separates r
      → AllKnown r ids
      → Distinct ids
      → Distinct (map r.ren ids)
  Distinct-map_ren [] sep ks d = tt
  Distinct-map_ren (i ∷ ids) sep ks d =
      (set_has-map_ren ids i sep ks.1 ks.0 ∙ d.0, Distinct-map_ren ids sep ks.1 d.1)

-- The channels that a loop has passed and those that it has not reached: all are known, none comes
-- twice.
pub record IsPart (r : Reopening) (passed ahead : List ChannelId) : Type 0 where
  pub separates : Separates r
  pub passed_known : AllKnown r passed
  pub ahead_known : AllKnown r ahead
  pub distinct : Distinct (passed ++ ahead)

module _ {r : Reopening} {passed : List ChannelId} {id : ChannelId} {ahead : List ChannelId} where
  pub IsPart-next : IsPart r passed (id ∷ ahead) → IsPart r (passed ++ (id ∷ [])) ahead
  IsPart-next p = record {
    separates = p.separates;
    passed_known = All-append (IsKnown r) passed id p.passed_known p.ahead_known.0;
    ahead_known = p.ahead_known.1;
    distinct = rw (append_assoc passed (id ∷ []) ahead) p.distinct;
  }

  pub IsPart-new : IsPart r passed (id ∷ ahead) → set_has passed id ≡ false
  IsPart-new p = Distinct-front passed id ahead p.distinct

  pub IsPart-ren_new : IsPart r passed (id ∷ ahead) → set_has (map r.ren passed) (r.ren id) ≡ false
  IsPart-ren_new p =
      set_has-map_ren passed id p.separates p.passed_known p.ahead_known.0
      ∙ Distinct-front passed id ahead p.distinct

pub IsPart-start :
    {r : Reopening} {ids : List ChannelId}
    → Separates r
    → AllKnown r ids
    → Distinct ids
    → IsPart r [] ids
IsPart-start sep ks d = record {
  separates = sep;
  passed_known = tt;
  ahead_known = ks;
  distinct = d;
}
