-- ===== src/Filesys/FileHeader.antt =====
-- The class FileHeader of filesys/filehdr.cc, over the bitmap of the free sectors.
-- A failed ASSERT is `none`, and so is an index outside dataSectors. Print, and the reading and writing of
-- a header on disk, are left out.
pub mod Loops
pub mod Allocate
mod Tests
use cmps.Prelude.{
  ℕ, zero, suc, ◌+◌, ◌-◌, ◌/◌, ◌^◌, Bool, true, false, Option, none, some, ltb, ◌==◌, if◌then◌else◌,
  ◌>>=◌, ◌>>◌, assert,
}
use cmps.Userprog.BitMap.{BitMap, div_round_up, num_clear, find, test, clear}

abbrev pub sector_size : ℕ
sector_size = 256

-- `(SectorSize - 2 * sizeof(int)) / sizeof(int)`
abbrev pub num_direct : ℕ
num_direct = 62

pub record FileHeader : Type 0 where
  pub num_bytes : ℕ
  pub num_sectors : ℕ
  pub data_sectors : ℕ → ℕ

-- `dataSectors[i] = value`
abbrev pub set_sector : ℕ → ℕ → FileHeader → FileHeader
set_sector i value f = record f { data_sectors = λ j. if i == j then value else f.data_sectors j }

-- The pattern of the int that Find returns.
abbrev pub int_of : Option ℕ → ℕ
int_of none = 2 ^ 32 - 1
int_of (some k) = k

-- The loop of Allocate: `n` rounds from `i` on.
unfoldable pub allocate_from : ℕ → ℕ → FileHeader → BitMap → Option (FileHeader × BitMap)
allocate_from zero i f free_map = some (f, free_map)
allocate_from (suc n) i f free_map = do
  (k, free_map') ← find free_map
  assert (ltb i num_direct)
  allocate_from n (i + 1) (set_sector i (int_of k) f) free_map'

unfoldable pub allocate : ℕ → FileHeader → BitMap → Option (Bool × FileHeader × BitMap)
allocate file_size f free_map = do
  let f' = record f { num_bytes = file_size; num_sectors = div_round_up file_size sector_size }
  clear_bits ← num_clear free_map
  if ltb clear_bits f'.num_sectors then some (false, f', free_map) else (do
    (f'', free_map') ← allocate_from f'.num_sectors 0 f' free_map
    some (true, f'', free_map'))

-- The loop of Deallocate: `n` rounds from `i` on.
unfoldable pub deallocate_from : ℕ → ℕ → FileHeader → BitMap → Option BitMap
deallocate_from zero i f free_map = some free_map
deallocate_from (suc n) i f free_map = do
  assert (ltb i num_direct)
  used ← test (f.data_sectors i) free_map
  assert used
  free_map' ← clear (f.data_sectors i) free_map
  deallocate_from n (i + 1) f free_map'

unfoldable pub deallocate : FileHeader → BitMap → Option BitMap
deallocate f free_map = deallocate_from f.num_sectors 0 f free_map

unfoldable pub byte_to_sector : ℕ → FileHeader → Option ℕ
byte_to_sector offset f = do
  assert (ltb (offset / sector_size) num_direct)
  some (f.data_sectors (offset / sector_size))
