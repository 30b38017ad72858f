-- ===== src/Filesys/FileSystem/Tests.antt =====
-- A small volume of filesys/filesys.cc: file "ab" has its header in sector 2 and its data in sector 3.
use cmps.Prelude.{
  ℕ, zero, suc, ◌≡◌, ◌<◌, refl, ap, subst, ◌∙◌, true, false, List, [], ◌∷◌, some, get_elem?, arith,
  ◌⊎◌, inl, inr,
}
use cmps.Userprog.BitMap.{is_set}
use cmps.Userprog.BitMap.Search.{clear_count}
use cmps.Filesys.FileHeader.{FileHeader}
use cmps.Filesys.FileHeader.Loops.{among}
use cmps.Filesys.Directory.{DirectoryEntry, find, find_index, free_index}
use cmps.Filesys.OpenFile.{OpenFile}
use cmps.Filesys.FileSystem.{Volume, create, open_file, remove}
use cmps.Filesys.FileSystem.Owners.{Consistent, owns, Once}
use cmps.Filesys.FileSystem.Keeps.{create-Consistent}
use cmps.Filesys.FileSystem.Remove.{Removed, remove-Consistent}
use cmps.Filesys.FileSystem.RoundTrip.{remove-create}

abbrev blank : FileHeader
blank = record { num_bytes = 0; num_sectors = 0; data_sectors = λ i. 0 }

abbrev letter : FileHeader
letter = record { num_bytes = 200; num_sectors = 1; data_sectors = λ i. 3 }

abbrev used : DirectoryEntry
used = record { in_use = true; sector = 2; name = 97 ∷ 98 ∷ [] }

abbrev unused : DirectoryEntry
unused = record { in_use = false; sector = 0; name = [] }

abbrev volume : Volume
volume = record {
  directory = used ∷ unused ∷ [];
  free_map = record { num_bits = 40; num_words = 2; words = 15 ∷ 0 ∷ [] };
  headers = λ s. letter;
}

two_sectors : (x : ℕ) → owns volume.headers used x ≡ true → (2 ≡ x) ⊎ (3 ≡ x)
unfolding among
two_sectors x own = ground (arith, own)

two_used : (x : ℕ) → (2 ≡ x) ⊎ (3 ≡ x) → (x < 40) × (is_set volume.free_map x ≡ true)
unfolding is_set
two_used x (inl e) = (omega (arith, e), subst (λ z. is_set volume.free_map z ≡ true) e refl)
two_used x (inr e) = (omega (arith, e), subst (λ z. is_set volume.free_map z ≡ true) e refl)

-- Only the first entry is in use.
first_only :
    (i : ℕ) (e : DirectoryEntry)
    → get_elem? volume.directory i ≡ some e
    → e.in_use ≡ true
    → (i ≡ 0) × (used ≡ e)
first_only zero e at busy = (refl, ground (arith, at))
first_only (suc zero) e at busy = absurd (ground (arith, at, busy))
first_only (suc (suc i)) e at busy = absurd (ground (arith, at))

volume-Consistent : Consistent volume
unfolding among
volume-Consistent = record {
  valid = omega arith;
  marked = λ i e x at own.
      let (first, same) = first_only i e at (ground (arith, own)) in
      two_used x (two_sectors x (ap (λ z. owns volume.headers z x) same ∙ own));
  apart = λ i j e e' x at at' own own'. omega (
    arith,
    (first_only i e at (ground (arith, own))).0,
    (first_only j e' at' (ground (arith, own'))).0,
  );
  once = λ i e at busy.
      subst (λ z. Once letter z.sector) (first_only i e at busy).1 ((tt, tt), refl, omega arith);
}

-- Create of a file "c" with 600 bytes.
new_file : (v' : Volume) × (create blank (99 ∷ []) 600 volume ≡ some (true, v'))
unfolding find find_index free_index is_set clear_count
new_file =
    let w =
      remove-create blank (99 ∷ []) 600 volume 1 volume-Consistent refl refl (omega arith)
        (omega arith) in
    (w.0, w.3)

create-Consistent_example : Consistent new_file.0
create-Consistent_example =
    create-Consistent blank (99 ∷ []) 600 volume new_file.0 true volume-Consistent new_file.1

remove-Consistent_example :
    (v' : Volume) × (remove (97 ∷ 98 ∷ []) volume ≡ some (true, v'))
    × Consistent v'
    × Removed (97 ∷ 98 ∷ []) volume v'
unfolding find find_index
remove-Consistent_example = remove-Consistent (97 ∷ 98 ∷ []) volume 2 volume-Consistent refl

remove-create_example :
    (v' v'' : Volume) × (f : OpenFile) × (create blank (99 ∷ []) 600 volume ≡ some (true, v'))
    × (open_file (99 ∷ []) v' ≡ some f)
    × (f.hdr.num_bytes ≡ 600)
    × (remove (99 ∷ []) v' ≡ some (true, v''))
    × ((other : List ℕ) → find other v''.directory ≡ find other volume.directory)
    × ((x : ℕ) → is_set v''.free_map x ≡ is_set volume.free_map x)
unfolding find find_index free_index is_set clear_count
remove-create_example =
    remove-create blank (99 ∷ []) 600 volume 1 volume-Consistent refl refl (omega arith)
      (omega arith)
