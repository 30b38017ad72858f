-- ===== src/Filesys/Directory.antt =====
-- The class Directory of filesys/directory.cc.
-- A name is the list of its characters, without the zero at its end. The -1 of FindIndex and Find is
-- `none`. List and Print, and the reading and writing of a directory on disk, are left out.
pub mod Entries
pub mod Lookup
pub mod Names
mod Tests
use cmps.Prelude.{
  ℕ, zero, suc, Bool, true, false, not, ◌&&◌, List, [], ◌∷◌, Option, none, some, get_elem?, set,
  ◌==◌, if◌then◌else◌, ◌>>=◌,
}

abbrev pub file_name_max_len : ℕ
file_name_max_len = 9

pub record DirectoryEntry : Type 0 where
  pub in_use : Bool
  pub sector : ℕ
  pub name : List ℕ

abbrev pub Table : Type 0
Table = List DirectoryEntry

-- What strncpy takes of a name.
abbrev pub prefix : ℕ → List ℕ → List ℕ
prefix zero cs = []
prefix (suc n) [] = []
prefix (suc n) (c ∷ cs) = c ∷ prefix n cs

-- `!strncmp(a, b, n)`
abbrev pub same_name : ℕ → List ℕ → List ℕ → Bool
same_name zero cs ds = true
same_name (suc n) [] [] = true
same_name (suc n) [] (d ∷ ds) = false
same_name (suc n) (c ∷ cs) [] = false
same_name (suc n) (c ∷ cs) (d ∷ ds) = (c == d) && same_name n cs ds

-- The constructor, with what the new table holds.
abbrev pub clear_table : Table → Table
clear_table [] = []
clear_table (e ∷ es) = record e { in_use = false } ∷ clear_table es

abbrev pub hit : List ℕ → DirectoryEntry → Bool
hit name e = e.in_use && same_name file_name_max_len e.name name

unfoldable pub find_index : List ℕ → Table → Option ℕ
find_index name [] = none
find_index name (e ∷ es) = if hit name e then some 0 else (find_index name es >>= λ i. some (suc i))

unfoldable pub find : List ℕ → Table → Option ℕ
find name t = find_index name t >>= λ i. get_elem? t i >>= λ e. some e.sector

-- The loop of Add.
unfoldable pub free_index : Table → Option ℕ
free_index [] = none
free_index (e ∷ es) = if not e.in_use then some 0 else (free_index es >>= λ i. some (suc i))

abbrev pub new_entry : List ℕ → ℕ → DirectoryEntry
new_entry name sector = record {
  in_use = true;
  sector = sector;
  name = prefix file_name_max_len name;
}

unfoldable pub add : List ℕ → ℕ → Table → Bool × Table
add name new_sector t = elim (find_index name t) [
  | some _ ↦ (false, t)
  | none ↦ elim (free_index t) [
    | none ↦ (false, t)
    | some i ↦ (true, set t i (new_entry name new_sector))
  ]
]

-- `table[i].inUse = FALSE`
unfoldable pub release_entry : Table → ℕ → Table
release_entry t i = elim (get_elem? t i) [
  | none ↦ t
  | some e ↦ set t i (record e { in_use = false })
]

unfoldable pub remove : List ℕ → Table → Bool × Table
remove name t = elim (find_index name t) [ none ↦ (false, t) | some i ↦ (true, release_entry t i) ]
