-- ===== src/Filesys/FileSystem/Owners.antt =====
-- Which sectors belong to which entry of the directory, in filesys/filesys.cc.
use cmps.Prelude.{
  ℕ, zero, suc, ◌+◌, ◌≤◌, ◌<◌, ◌≡◌, refl, ap, Bool, true, false, ◌&&◌, ◌||◌, some, List, [], ◌∷◌,
  get_elem?, ◌==◌, length,
}
use cmps.Userprog.BitMap.{IsValid, is_set}
use cmps.Threads.LinkedList.Chain.{NoDup}
use cmps.Filesys.FileHeader.{FileHeader}
use cmps.Filesys.FileHeader.Loops.{among, Holds}
use cmps.Filesys.Directory.{DirectoryEntry}
use cmps.Filesys.FileSystem.{Volume}

-- `n` sectors of the table, from index `i` on.
abbrev pub listed : (ℕ → ℕ) → (i n : ℕ) → List ℕ
listed d i zero = []
listed d i (suc n) = d i ∷ listed d (i + 1) n

abbrev pub data_of : FileHeader → List ℕ
data_of hdr = listed hdr.data_sectors 0 hdr.num_sectors

-- The sector is that of the header, or one of the data.
abbrev pub owns : (ℕ → FileHeader) → DirectoryEntry → ℕ → Bool
owns headers e x = e.in_use && ((e.sector == x) || among x (data_of (headers e.sector)))

-- The data of a header in `sector` are different sectors, and that table is long enough.
abbrev pub Once : FileHeader → ℕ → Type 0
Once hdr sector =
    NoDup (data_of hdr) × (among sector (data_of hdr) ≡ false) × (hdr.num_sectors ≤ 62)

-- The sectors of the files are in use, and no sector is used twice.
pub record Consistent (v : Volume) : Type 0 where
  pub valid : IsValid v.free_map
  pub marked :
      (i : ℕ) (e : DirectoryEntry) (x : ℕ)
      → get_elem? v.directory i ≡ some e
      → owns v.headers e x ≡ true
      → (x < v.free_map.num_bits) × (is_set v.free_map x ≡ true)
  pub apart :
      (i j : ℕ) (e e' : DirectoryEntry) (x : ℕ)
      → get_elem? v.directory i ≡ some e
      → get_elem? v.directory j ≡ some e'
      → owns v.headers e x ≡ true
      → owns v.headers e' x ≡ true
      → i ≡ j
  pub once :
      (i : ℕ) (e : DirectoryEntry)
      → get_elem? v.directory i ≡ some e
      → e.in_use ≡ true
      → Once (v.headers e.sector) e.sector

pub listed-Holds : (d : ℕ → ℕ) (i : ℕ) (xs : List ℕ) → Holds d i xs → listed d i (length xs) ≡ xs
listed-Holds d i [] h = refl
listed-Holds d i (x ∷ xs) h = rw (h.0, listed-Holds d (i + 1) xs h.1) refl

pub Holds-listed : (d : ℕ → ℕ) (i n : ℕ) → Holds d i (listed d i n)
Holds-listed d i zero = tt
Holds-listed d i (suc n) = (refl, Holds-listed d (i + 1) n)

pub length-listed : (d : ℕ → ℕ) (i n : ℕ) → length (listed d i n) ≡ n
length-listed d i zero = refl
length-listed d i (suc n) = ap suc (length-listed d (i + 1) n)
