-- ===== src/Filesys/Directory/Tests.antt =====
-- A directory of filesys/directory.cc with three entries.
use cmps.Prelude.{ℕ, ◌≡◌, refl, Bool, true, false, List, [], ◌∷◌, some}
use cmps.Filesys.Directory.{DirectoryEntry, Table, find_index, find}

abbrev file : Bool → List ℕ → ℕ → DirectoryEntry
file in_use name sector = record { in_use = in_use; sector = sector; name = name }

-- The second entry is free.
abbrev table : Table
table = file true (97 ∷ []) 7 ∷ file false (98 ∷ []) 8 ∷ file true (99 ∷ []) 9 ∷ []

find_runs : find (99 ∷ []) table ≡ some 9
unfolding find find_index
find_runs = refl
