-- ===== src/Filesys/FileSystem.antt =====
-- The class FileSystem of filesys/filesys.cc: Create, Open and Remove.
-- What FetchFrom and WriteBack of a header, of the directory and of the bitmap move between the disk and
-- memory is one step here: a volume is what the disk holds of the three. NULL is `none`, and so is a failed
-- ASSERT. List, Print and the constructor are left out.
pub mod Owners
pub mod Create
pub mod Keeps
pub mod Remove
pub mod RoundTrip
mod Tests
use cmps.Prelude.{
  ℕ, zero, suc, ◌+◌, Bool, true, false, not, List, Option, none, some, ◌==◌, if◌then◌else◌, ◌>>=◌,
}
use cmps.Userprog.BitMap.{BitMap, clear, find as find_clear}
use cmps.Filesys.FileHeader.{FileHeader, allocate, deallocate}
use cmps.Filesys.Directory.{Table, find, add, remove as remove_entry}
use cmps.Filesys.OpenFile.{OpenFile}

-- The contents of directoryFile, those of freeMapFile, and the header in each sector.
pub record Volume : Type 0 where
  pub directory : Table
  pub free_map : BitMap
  pub headers : ℕ → FileHeader

-- WriteBack of a header.
abbrev pub write_header : ℕ → FileHeader → (ℕ → FileHeader) → ℕ → FileHeader
write_header sector hdr headers = λ s. if sector == s then hdr else headers s

-- Create from Add on, with a sector for the header. `blank` is what `new` gives.
unfoldable pub create_at : FileHeader → List ℕ → ℕ → Volume → ℕ → BitMap → Option (Bool × Volume)
create_at blank name initial_size v sector free_map =
    let (added, directory) = add name sector v.directory in
    if not added then some (false, v) else (do
      (success, hdr, free_map') ← allocate initial_size blank free_map
      some (
          if success
          then (
            true,
            record {
              directory = directory;
              free_map = free_map';
              headers = write_header sector hdr v.headers;
            },
          )
          else (false, v)))

unfoldable pub create : FileHeader → List ℕ → ℕ → Volume → Option (Bool × Volume)
create blank name initial_size v = elim (find name v.directory) [
  | some _ ↦ some (false, v)
  | none ↦ (do
    (sector, free_map) ← find_clear v.free_map
    elim sector [
      | none ↦ some (false, v)
      | some s ↦ create_at blank name initial_size v s free_map
    ])
]

unfoldable pub open_file : List ℕ → Volume → Option OpenFile
open_file name v = do
  sector ← find name v.directory
  some (record { hdr = v.headers sector; seek_position = 0 })

unfoldable pub remove : List ℕ → Volume → Option (Bool × Volume)
remove name v = elim (find name v.directory) [
  | none ↦ some (false, v)
  | some sector ↦ (do
    free_map ← deallocate (v.headers sector) v.free_map
    free_map' ← clear sector free_map
    some (true, record v { free_map = free_map'; directory = (remove_entry name v.directory).1 }))
]
