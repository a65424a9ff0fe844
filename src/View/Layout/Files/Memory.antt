-- ===== src/View/Layout/Files/Memory.antt =====
-- A file system in memory, which meets what the layouts rely on: the files by path, all directories
-- exist.
use btelem.Prelude.{
  ◌≡◌, refl, ℕ, not, List, [], ◌∷◌, none, some, Text, Option, ok, err, ok-injective, arith,
  if◌then◌else◌, text_eq, text_get, text_insert, text_get-text_insert, text_eq_iff, retain, map,
}
use btelem.View.Layout.Files.{Io, not_found, FileSystem}
use btelem.View.Layout.Files.Laws.{IsLawful}

abbrev pub Disk : Type 0
Disk = List (Text × List ℕ)

abbrev found : Option (List ℕ) → Io (List ℕ)
found none = err not_found
found (some bytes) = ok bytes

abbrev text_remove : Text → Disk → Disk
text_remove k = retain (λ e. not (text_eq e.0 k))

abbrev removed : Disk → Text → Option (List ℕ) → Io Disk
removed disk p none = err not_found
removed disk p (some bytes) = ok (text_remove p disk)

abbrev pub memory : FileSystem Disk
memory = record {
  config_dir = none;
  read = λ disk p. found (text_get p disk);
  write = λ disk p bytes. ok (text_insert p bytes disk);
  create_dir_all = λ disk p. ok disk;
  remove_file = λ disk p. removed disk p (text_get p disk);
  read_dir = λ disk p. ok (map (λ e. e.0) disk);
}

text_get-text_remove :
    (k j : Text) (disk : Disk)
    → text_get j (text_remove k disk) ≡ (if text_eq k j then none else text_get j disk)
text_get-text_remove k j [] = ground arith
text_get-text_remove k j ((i, bytes) ∷ disk) =
    ground (arith, text_get-text_remove k j disk, text_eq_iff i k, text_eq_iff i j, text_eq_iff k j)

read-memory_write :
    (disk : Disk) (p q : Text) (bytes : List ℕ) (disk' : Disk)
    → memory.write disk p bytes ≡ ok disk'
    → memory.read disk' q ≡ (if text_eq p q then ok bytes else memory.read disk q)
read-memory_write disk p q bytes disk' h =
    rw (← ok-injective h) (rw (text_get-text_insert p q bytes disk) (ground arith))

read-memory_removed :
    (disk : Disk) (p q : Text) (disk' : Disk) (o : Option (List ℕ))
    → removed disk p o ≡ ok disk'
    → memory.read disk' q ≡ (if text_eq p q then err not_found else memory.read disk q)
read-memory_removed disk p q disk' none h = absurd (cc h)
read-memory_removed disk p q disk' (some bytes) h =
    rw (← ok-injective h) (rw (text_get-text_remove p q disk) (ground arith))

read-memory_missing :
    (o : Option (List ℕ)) (disk : Disk) (p : Text)
    → removed disk p o ≡ err not_found
    → found o ≡ err not_found
read-memory_missing none disk p h = refl
read-memory_missing (some bytes) disk p h = absurd (cc h)

pub memory-IsLawful : IsLawful memory
memory-IsLawful = record {
  read-write = read-memory_write;
  read-create_dir_all = λ disk p q disk' h. rw (← ok-injective h) refl;
  read-remove_file = λ disk p q disk' h. read-memory_removed disk p q disk' (text_get p disk) h;
  read-of_missing = λ disk p h. read-memory_missing (text_get p disk) disk p h;
}
