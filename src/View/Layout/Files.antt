-- ===== src/View/Layout/Files.antt =====
-- viewer/crates/btelem-viewer/src/layout.rs: the layouts on disk. The file system and serde_json are
-- parameters: a path is a text, a file the list of its bytes, and a call of the file system gives
-- its result or the kind of its error.
pub mod Laws
pub mod Memory
use btelem.Prelude.{
  ℕ, Bool, true, false, not, ◌&&◌, ◌==◌, List, [], ◌∷◌, ◌++◌, Option, none, some, Text, codes,
  Result, ok, err, ◌>>=◌, if◌then◌else◌, text_eq,
}
use btelem.View.Names.{text_le, sort_by}
use btelem.View.Layout.{Layout, schema_version, version_supported}
use btelem.View.Layout.Slug.{slug}
use btelem.View.Layout.Migrate.{migrate_chains_to_links}

-- `io::ErrorKind`, as far as the code tells the kinds apart.
pub data IoError : Type 0 where
  not_found invalid_data other : IoError

abbrev pub Io : Type 0 → Type 0
Io = Result IoError

-- What the code calls of `std::fs` and `dirs`, over the state `S` of a file system.
pub record FileSystem (S : Type 0) : Type 0 where
  pub config_dir : Option Text
  pub read : S → Text → Io (List ℕ)
  pub write : S → Text → List ℕ → Io S
  pub create_dir_all : S → Text → Io S
  pub remove_file : S → Text → Io S
  -- The names of the entries of a directory that can be read.
  pub read_dir : S → Text → Io (List Text)

-- What it calls of serde_json.
pub record Json (A : Type 0) : Type 0 where
  pub to_vec_pretty : A → Option (List ℕ)
  pub from_slice : List ℕ → Option A

abbrev pub join : Text → Text → Text
join base name = base ++ (b'/' ∷ name)

abbrev or_here : Option Text → Text
or_here none = codes "."
or_here (some dir) = dir

-- `p.extension()` is `json`.
abbrev pub after_dot : Text → Option Text
after_dot [] = none
after_dot (c ∷ cs) = elim (after_dot cs) [
  | some ext ↦ some ext
  | none ↦ if c == b'.' then some cs else none
]

abbrev pub is_json : Text → Bool
is_json [] = false
is_json (c ∷ cs) = elim (after_dot cs) [ none ↦ false | some ext ↦ text_eq ext (codes "json") ]

abbrev is_nil : {A : Type 0} → List A → Bool
is_nil [] = true
is_nil (x ∷ xs) = false

abbrev pub or_invalid : {A : Type 0} → Option A → Io A
or_invalid none = err invalid_data
or_invalid (some a) = ok a

-- A file that is not there counts as deleted.
abbrev pub deleted : {S : Type 0} → S → Io S → Io S
deleted s (ok s') = ok s'
deleted s (err not_found) = ok s
deleted s (err e) = err e

module _ {F G J S : Type 0} (fs : FileSystem S) (json : Json (Layout F G J)) (half : G) where
  unfoldable pub layouts_dir : Text
  layouts_dir = join (join (or_here fs.config_dir) (codes "btelem-viewer")) (codes "layouts")

  unfoldable pub path_for : Text → Text
  unfolding layouts_dir
  path_for name = join layouts_dir (slug name ++ codes ".json")

  -- The body of the loop of `list`.
  abbrev pub push_name : Option (Layout F G J) → List Text → List Text
  push_name none names = names
  push_name (some layout) names =
      if version_supported layout.version then names ++ (layout.name ∷ []) else names

  abbrev pub parse_file : Io (List ℕ) → Option (Layout F G J)
  parse_file (ok bytes) = json.from_slice bytes
  parse_file (err e) = none

  unfoldable pub list_entries : S → List Text → List Text → List Text
  list_entries s [] names = names
  list_entries s (entry ∷ entries) names = list_entries s entries (
      if is_json entry
      then push_name (parse_file (fs.read s (join layouts_dir entry))) names
      else names)

  abbrev pub list_found : S → Io (List Text) → Io (List Text)
  list_found s (ok entries) = ok (sort_by text_le (list_entries s entries []))
  list_found s (err not_found) = ok []
  list_found s (err e) = err e

  unfoldable pub list : S → Io (List Text)
  list s = list_found s (fs.read_dir s layouts_dir)

  -- The end of `load`: the version check and the migration of a version 4 file without links.
  unfoldable pub check_version : Layout F G J → Io (Layout F G J)
  unfolding version_supported
  check_version layout =
      if not (version_supported layout.version)
      then err invalid_data
      else if layout.version == 4 && is_nil layout.links
      then ok (record layout {
        links = migrate_chains_to_links half layout.markers;
        version = schema_version;
      })
      else ok layout

  unfoldable pub load : S → Text → Io (Layout F G J)
  unfolding check_version
  load s name = do
    bytes ← fs.read s (path_for name)
    layout ← or_invalid (json.from_slice bytes)
    check_version layout

  unfoldable pub save : S → Layout F G J → Io S
  save s layout = do
    s' ← fs.create_dir_all s layouts_dir
    bytes ← or_invalid (json.to_vec_pretty layout)
    fs.write s' (path_for layout.name) bytes

  unfoldable pub delete : S → Text → Io S
  delete s name = deleted s (fs.remove_file s (path_for name))
