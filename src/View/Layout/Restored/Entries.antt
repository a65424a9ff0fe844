-- ===== src/View/Layout/Restored/Entries.antt =====
-- viewer/crates/btelem-viewer/src/layout.rs: the maps that are saved by path and restored by id.
use btelem.Prelude.{
  ℕ, ◌≡◌, refl, ◌∙◌, ap, false, List, [], ◌∷◌, ◌++◌, Text, ◌==◌, map, map_insert, text_insert,
  text_eq, set_has, arith, append_assoc, append-nil,
}
use btelem.Store.{ChannelId}
use btelem.View.Layout.Capture.{path_or_default, save_entries}
use btelem.View.Layout.Renaming.{
  Reopening, IsKnown, Separates, AllKnown, path_of-IsKnown, path-eq, IsPart, IsPart-next,
  IsPart-new,
}

module _ {V : Type 0} where
  abbrev pub keys : List (ℕ × V) → List ℕ
  keys = map (λ e. e.0)

  pub map_insert-new :
      (k : ℕ) (v : V) (m : List (ℕ × V))
      → set_has (keys m) k ≡ false
      → map_insert k v m ≡ m ++ ((k, v) ∷ [])
  map_insert-new k v [] h = refl
  map_insert-new k v ((j, w) ∷ m) h = ground (arith, map_insert-new k v m)

  pub keys-append : (m n : List (ℕ × V)) → keys (m ++ n) ≡ keys m ++ keys n
  keys-append [] n = refl
  keys-append (e ∷ m) n = ap (◌∷◌ e.0) (keys-append m n)

module _ (r : Reopening) {V W : Type 0} where
  -- An entry as it is saved, and as it is restored.
  abbrev pub saved_entry : (V → W) → ChannelId × V → Text × W
  saved_entry f (id, v) = (path_or_default r.by_id id, f v)

abbrev pub restored_entry : {V : Type 0} → Reopening → ChannelId × V → ChannelId × V
restored_entry r (id, v) = (r.ren id, v)

pub keys-restored :
    {V : Type 0} (r : Reopening) (m : List (ChannelId × V))
    → keys (map (restored_entry r) m) ≡ map r.ren (keys m)
keys-restored r [] = refl
keys-restored r (e ∷ m) = ap (◌∷◌ (r.ren e.0)) (keys-restored r m)

module _ {r : Reopening} where
  pub path_or_default-IsKnown :
      {id : ChannelId} (k : IsKnown r id) → path_or_default r.by_id id ≡ k.before.path
  path_or_default-IsKnown k = rw (path_of-IsKnown k, path_or_default) refl

  text_insert-saved :
      {V W : Type 0} (f : V → W) (id : ChannelId) (v : V) (done : List (ChannelId × V))
      → Separates r
      → AllKnown r (keys done)
      → IsKnown r id
      → set_has (keys done) id ≡ false
      → text_insert (path_or_default r.by_id id) (f v) (map (saved_entry r f) done)
        ≡ map (saved_entry r f) (done ++ ((id, v) ∷ []))
  text_insert-saved f id v [] sep ks k h = refl
  text_insert-saved f id v ((j, w) ∷ done) sep ks k h =
      let apart : (j == id) ≡ false = ground (arith, h) in
      let rest : set_has (keys done) id ≡ false = ground (arith, h) in
      let differ : text_eq (path_or_default r.by_id j) (path_or_default r.by_id id) ≡ false =
        rw (path_or_default-IsKnown ks.0, path_or_default-IsKnown k) (path-eq sep ks.0 k apart) in
      rw differ
        (ap (◌∷◌ (path_or_default r.by_id j, f w)) (text_insert-saved f id v done sep ks.1 k rest))

  pub save_entries-saved :
      {V W : Type 0} (f : V → W) (done rest : List (ChannelId × V))
      → IsPart r (keys done) (keys rest)
      → save_entries r.by_id f rest (map (saved_entry r f) done)
        ≡ map (saved_entry r f) (done ++ rest)
  unfolding save_entries
  save_entries-saved f done [] p = rw append-nil refl
  save_entries-saved f done ((id, v) ∷ rest) p =
      let next : IsPart r (keys (done ++ ((id, v) ∷ []))) (keys rest) =
        rw (keys-append done ((id, v) ∷ [])) (IsPart-next p) in
      let inserted =
        text_insert-saved f id v done p.separates p.passed_known p.ahead_known.0 (IsPart-new p) in
      rw (path_of-IsKnown p.ahead_known.0, ← path_or_default-IsKnown p.ahead_known.0, inserted)
        (save_entries-saved f (done ++ ((id, v) ∷ [])) rest next
          ∙ ap (map (saved_entry r f)) (append_assoc done ((id, v) ∷ []) rest))
