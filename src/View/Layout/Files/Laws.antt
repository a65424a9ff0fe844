-- ===== src/View/Layout/Files/Laws.antt =====
-- viewer/crates/btelem-viewer/src/layout.rs: what `load` finds after `save` and `delete`.
use mathlib.Core.List.{append_cancel_right}
use btelem.Prelude.{
  ℕ, ◌≡◌, refl, ◌∙◌, sym, List, [], ◌∷◌, ◌++◌, some, Text, ok, err, of_bind, if◌then◌else◌, text_eq,
  text_eq_iff, text_eq_refl, Bool-cases, inl, inr, codes, ==_refl, ok-injective,
}
use btelem.View.Layout.{Layout, schema_version, version_supported}
use btelem.View.Layout.Slug.{slug}
use btelem.View.Layout.Files.{
  not_found, Io, FileSystem, Json, deleted, layouts_dir, path_for, check_version, load, save,
  delete, invalid_data, other,
}

-- What the code relies on: a file that was written is read back, one that was removed is not there,
-- and the other files are left alone.
pub record IsLawful {S : Type 0} (fs : FileSystem S) : Type 0 where
  pub read-write :
      (s : S) (p q : Text) (bytes : List ℕ) (s' : S)
      → fs.write s p bytes ≡ ok s'
      → fs.read s' q ≡ (if text_eq p q then ok bytes else fs.read s q)
  pub read-create_dir_all :
      (s : S) (p q : Text) (s' : S) → fs.create_dir_all s p ≡ ok s' → fs.read s' q ≡ fs.read s q
  pub read-remove_file :
      (s : S) (p q : Text) (s' : S)
      → fs.remove_file s p ≡ ok s'
      → fs.read s' q ≡ (if text_eq p q then err not_found else fs.read s q)
  pub read-of_missing :
      (s : S) (p : Text) → fs.remove_file s p ≡ err not_found → fs.read s p ≡ err not_found

text_eq-prefix : (p s t : Text) → text_eq (p ++ s) (p ++ t) ≡ text_eq s t
text_eq-prefix [] s t = refl
text_eq-prefix (c ∷ p) s t = rw (==_refl c) (text_eq-prefix p s t)

text_eq-suffix : (s t p : Text) → text_eq (s ++ p) (t ++ p) ≡ text_eq s t
text_eq-suffix s t p = elim (Bool-cases (text_eq s t)) [
  | inl e ↦ rw e (rw ((text_eq_iff s t).0 e) (text_eq_refl (t ++ p)))
  | inr e ↦ elim (Bool-cases (text_eq (s ++ p) (t ++ p))) [
    | inl k ↦
        let same : s ≡ t = append_cancel_right s t p ((text_eq_iff (s ++ p) (t ++ p)).0 k) in
        k ∙ sym ((text_eq_iff s t).1 same)
    | inr k ↦ k ∙ sym e
  ]
]

read-deleted :
    {S : Type 0} (fs : FileSystem S)
    → IsLawful fs
    → (s : S) (p q : Text) (s' : S) (r : Io S) → fs.remove_file s p ≡ r
    → deleted s r ≡ ok s'
    → fs.read s' q ≡ (if text_eq p q then err not_found else fs.read s q)
read-deleted fs laws s p q s' (ok t) e h = rw (ok-injective h) at (laws.read-remove_file s p q t e)
read-deleted fs laws s p q s' (err not_found) e h =
    rw (← ok-injective h) (elim (Bool-cases (text_eq p q)) [
      | inl k ↦ rw k (rw ((text_eq_iff p q).0 k) at (laws.read-of_missing s p e))
      | inr k ↦ rw k refl
    ])
read-deleted fs laws s p q s' (err invalid_data) e h = absurd (cc h)
read-deleted fs laws s p q s' (err other) e h = absurd (cc h)

module _ {F G J S : Type 0} (fs : FileSystem S) (json : Json (Layout F G J)) (half : G) where
  text_eq-path_for :
      (a b : Text)
      → text_eq (path_for fs json half a) (path_for fs json half b) ≡ text_eq (slug a) (slug b)
  unfolding path_for
  text_eq-path_for a b =
      text_eq-prefix (layouts_dir fs json half) (b'/' ∷ slug a ++ codes ".json")
        (b'/' ∷ slug b ++ codes ".json")
      ∙ text_eq-suffix (slug a) (slug b) (codes ".json")

  -- A layout that was saved is what `load` finds, by its own name and by every name with the same
  -- slug, if serde_json reads back what it wrote: unchanged if it has the current version, as every
  -- captured layout has. A load by a name with another slug gives what it gave before the save.
  pub load-save :
      IsLawful fs
      → (s : S) (layout : Layout F G J) (bytes : List ℕ) (s' : S) (name : Text)
      → layout.version ≡ schema_version
      → json.to_vec_pretty layout ≡ some bytes
      → json.from_slice bytes ≡ some layout
      → save fs json half s layout ≡ ok s'
      → load fs json half s' name
        ≡ (if text_eq (slug layout.name) (slug name) then ok layout else load fs json half s name)
  unfolding save load check_version version_supported
  load-save laws s layout bytes s' name v w r h =
      of_bind (fs.create_dir_all s (layouts_dir fs json half)) h λ s1 e1 h1.
        let h2 : fs.write s1 (path_for fs json half layout.name) bytes ≡ ok s' = rw w at h1 in
        let found =
          laws.read-write s1 (path_for fs json half layout.name) (path_for fs json half name) bytes
            s' h2 in
        let kept =
          laws.read-create_dir_all s (layouts_dir fs json half) (path_for fs json half name) s1
            e1 in
        rw (found, text_eq-path_for layout.name name, kept)
          (elim (Bool-cases (text_eq (slug layout.name) (slug name))) [
            | inl e ↦ rw (e, r) (rw v refl)
            | inr e ↦ rw e refl
          ])

  -- After a delete there is nothing to load under the name, whether or not there was a file; a load
  -- by a name with another slug gives what it gave before.
  pub load-delete :
      IsLawful fs
      → (s : S) (deleted_name : Text) (s' : S) (name : Text)
      → delete fs json half s deleted_name ≡ ok s'
      → load fs json half s' name ≡ (
          if text_eq (slug deleted_name) (slug name)
          then err not_found
          else load fs json half s name)
  unfolding delete load
  load-delete laws s deleted_name s' name h =
      let p = path_for fs json half deleted_name in
      let q = path_for fs json half name in
      let found = read-deleted fs laws s p q s' (fs.remove_file s p) refl h in
      rw (found, text_eq-path_for deleted_name name)
        (elim (Bool-cases (text_eq (slug deleted_name) (slug name))) [
          | inl e ↦ rw e refl
          | inr e ↦ rw e refl
        ])
