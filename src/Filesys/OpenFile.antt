-- ===== src/Filesys/OpenFile.antt =====
-- The class OpenFile of filesys/openfile.cc, with the requests of machine/disk.cc to one sector.
-- A buffer and a sector are functions from an index to the byte there. numBytes and position are not
-- negative here, and their sums not above the largest int. A failed ASSERT is `none`.
pub mod Buffers
pub mod Read
pub mod Sectors
pub mod Ends
pub mod Write
mod Tests
use cmps.Prelude.{
  ℕ, zero, suc, ◌+◌, ◌-◌, ◌*◌, ◌/◌, ◌<◌, ◌≤◌, Bool, true, false, not, ◌&&◌, ◌||◌, Option, none,
  some, ltb, leb, ◌==◌, if◌then◌else◌, ◌>>=◌, ◌>>◌, assert,
}
use cmps.Filesys.FileHeader.{FileHeader, sector_size, byte_to_sector}

abbrev pub Buffer : Type 0
Buffer = ℕ → ℕ

abbrev pub Disk : Type 0
Disk = ℕ → Buffer

abbrev pub sectors_of_disk : ℕ
sectors_of_disk = 1024

-- `bcopy(&source[from], &target[at], n)`
abbrev pub copy : (n from : ℕ) → Buffer → (at : ℕ) → Buffer → Buffer
copy n from source at target =
    λ x. if leb at x && ltb x (at + n) then source (from + (x - at)) else target x

-- ReadSector, into `&buf[at]`.
abbrev pub read_sector : ℕ → Disk → ℕ → Buffer → Option Buffer
read_sector sector d at buf = do
  assert (ltb sector sectors_of_disk)
  some (copy sector_size 0 (d sector) at buf)

-- WriteSector, from `&buf[from]`.
abbrev pub write_sector : ℕ → Buffer → ℕ → Disk → Option Disk
write_sector sector buf from d = do
  assert (ltb sector sectors_of_disk)
  some (λ s. if sector == s then copy sector_size from buf 0 (d s) else d s)

-- The loop of ReadAt: `n` rounds from `i` on.
unfoldable pub read_sectors : (n i first_sector : ℕ) → FileHeader → Disk → Buffer → Option Buffer
read_sectors zero i first_sector hdr d buf = some buf
read_sectors (suc n) i first_sector hdr d buf = do
  sector ← byte_to_sector (i * sector_size) hdr
  buf' ← read_sector sector d ((i - first_sector) * sector_size) buf
  read_sectors n (i + 1) first_sector hdr d buf'

-- The loop of WriteAt.
unfoldable pub write_sectors : (n i first_sector : ℕ) → FileHeader → Buffer → Disk → Option Disk
write_sectors zero i first_sector hdr buf d = some d
write_sectors (suc n) i first_sector hdr buf d = do
  sector ← byte_to_sector (i * sector_size) hdr
  d' ← write_sector sector buf ((i - first_sector) * sector_size) d
  write_sectors n (i + 1) first_sector hdr buf d'

-- The number of bytes, cut off at the end of the file.
abbrev pub request : (num_bytes position file_length : ℕ) → ℕ
request num_bytes position file_length =
    if ltb file_length (position + num_bytes) then file_length - position else num_bytes

abbrev pub last_sector : (num_bytes position : ℕ) → ℕ
last_sector num_bytes position = (position + num_bytes - 1) / sector_size

-- ReadAt behind the test of the request. `fresh` is what the new buffer holds.
unfoldable pub read_request :
    (num_bytes position : ℕ) → FileHeader → Disk → Buffer → (at : ℕ) → Buffer → Option Buffer
read_request num_bytes position hdr d fresh at into = do
  let first = position / sector_size
  buf ← read_sectors (1 + last_sector num_bytes position - first) first first hdr d fresh
  some (copy num_bytes (position - first * sector_size) buf at into)

-- ReadAt, into `&into[at]`: the bytes read, and the buffer.
unfoldable pub read_at :
    (num_bytes position : ℕ) → FileHeader → Disk → Buffer → (at : ℕ) → Buffer → Option (ℕ × Buffer)
read_at num_bytes position hdr d fresh at into =
    if (num_bytes == 0) || leb hdr.num_bytes position then some (0, into) else (do
      let n = request num_bytes position hdr.num_bytes
      into' ← read_request n position hdr d fresh at into
      some (n, into'))

-- What WriteAt reads of the first and of the last sector, where it changes them in part.
abbrev pub first_aligned : (position : ℕ) → Bool
first_aligned position = position == position / sector_size * sector_size

abbrev pub last_aligned : (num_bytes position : ℕ) → Bool
last_aligned num_bytes position =
    position + num_bytes == (last_sector num_bytes position + 1) * sector_size

unfoldable pub read_first : (position : ℕ) → FileHeader → Disk → (ℕ → Buffer) → Option Buffer
read_first position hdr d fresh =
    if not (first_aligned position)
    then (read_at sector_size (position / sector_size * sector_size) hdr d (fresh 1) 0 (fresh 0)
        >>= λ r. some r.1)
    else some (fresh 0)

abbrev pub reads_last : (num_bytes position : ℕ) → Bool
reads_last num_bytes position =
    not (last_aligned num_bytes position)
    && (not (position / sector_size == last_sector num_bytes position) || first_aligned position)

unfoldable pub read_last :
    (num_bytes position : ℕ) → FileHeader → Disk → (ℕ → Buffer) → Buffer → Option Buffer
read_last num_bytes position hdr d fresh buf =
    let last = last_sector num_bytes position in
    if reads_last num_bytes position
    then (read_at sector_size (last * sector_size) hdr d (fresh 2)
          ((last - position / sector_size) * sector_size) buf
        >>= λ r. some r.1)
    else some buf

unfoldable pub write_request :
    (num_bytes position : ℕ) → FileHeader → Buffer → Disk → (ℕ → Buffer) → Option Disk
write_request num_bytes position hdr from d fresh = do
  let first = position / sector_size
  buf ← read_first position hdr d fresh
  buf' ← read_last num_bytes position hdr d fresh buf
  write_sectors (1 + last_sector num_bytes position - first) first first hdr
      (copy num_bytes 0 from (position - first * sector_size) buf') d

unfoldable pub write_at :
    (num_bytes position : ℕ) → FileHeader → Buffer → Disk → (ℕ → Buffer) → Option (ℕ × Disk)
write_at num_bytes position hdr from d fresh =
    if (num_bytes == 0) || leb hdr.num_bytes position then some (0, d) else (do
      let n = request num_bytes position hdr.num_bytes
      d' ← write_request n position hdr from d fresh
      some (n, d'))

pub record OpenFile : Type 0 where
  pub hdr : FileHeader
  pub seek_position : ℕ

unfoldable pub read : ℕ → OpenFile → Disk → Buffer → Buffer → Option (ℕ × Buffer × OpenFile)
read num_bytes f d fresh into = do
  (result, into') ← read_at num_bytes f.seek_position f.hdr d fresh 0 into
  some (result, into', record f { seek_position = f.seek_position + result })

unfoldable pub write : ℕ → OpenFile → Buffer → Disk → (ℕ → Buffer) → Option (ℕ × Disk × OpenFile)
write num_bytes f from d fresh = do
  (result, d') ← write_at num_bytes f.seek_position f.hdr from d fresh
  some (result, d', record f { seek_position = f.seek_position + result })

abbrev pub seek : ℕ → OpenFile → OpenFile
seek position f = record f { seek_position = position }
