-- ===== src/Filesys/OpenFile/Read.antt =====
-- ReadAt and Read of filesys/openfile.cc.
use cmps.Prelude.{
  ℕ, zero, suc, ◌+◌, ◌-◌, ◌*◌, ◌/◌, ◌<◌, ◌≤◌, ◌≡◌, some, ltb, leb, ◌==◌, arith, ap, sym, ◌∙◌,
  Bool-cases, inl, inr, ◌||◌, if◌then◌else◌, ltb-of_lt,
}
use cmps.Filesys.FileHeader.{FileHeader, sector_size}
use cmps.Filesys.OpenFile.{
  Buffer, Disk, copy, read_sectors, read_request, read_at, read_sector, last_sector, request,
  sectors_of_disk,
}
use cmps.Filesys.OpenFile.Buffers.{
  IsFile, content, copy_none, copy_of, copy_twice, copy_sector, byte_to_sector_lem,
}

read_sector_lem :
    (hdr : FileHeader) (d : Disk) (i at : ℕ) (buf : Buffer)
    → hdr.data_sectors i < sectors_of_disk
    → read_sector (hdr.data_sectors i) d at buf
      ≡ some (copy sector_size (i * sector_size) (content hdr d) at buf)
read_sector_lem hdr d i at buf h =
    rw (ltb-of_lt (hdr.data_sectors i) sectors_of_disk h) (ap some (copy_sector hdr d i at buf))

pub read_sectors_lem :
    (n i first : ℕ) (hdr : FileHeader) (d : Disk) (buf : Buffer)
    → IsFile hdr
    → first ≤ i
    → i + n ≤ hdr.num_sectors
    → read_sectors n i first hdr d buf
      ≡ some
          (copy (n * sector_size) (i * sector_size) (content hdr d) ((i - first) * sector_size) buf)
unfolding read_sectors
read_sectors_lem zero i first hdr d buf file le fits =
    ap some (sym (copy_none (i * sector_size) ((i - first) * sector_size) (content hdr d) buf))
read_sectors_lem (suc n) i first hdr d buf file le fits =
    let next : (i + 1) * sector_size ≡ i * sector_size + sector_size = omega arith in
    let next_at : (i + 1 - first) * sector_size ≡ (i - first) * sector_size + sector_size =
      omega (arith, le) in
    let size : suc n * sector_size ≡ sector_size + n * sector_size = omega arith in
    rw
      (
        byte_to_sector_lem hdr i (omega (arith, file.table, fits)),
        read_sector_lem hdr d i ((i - first) * sector_size) buf
            (file.on_disk i (omega (arith, fits))),
        read_sectors_lem n (i + 1) first hdr d
            (copy sector_size (i * sector_size) (content hdr d) ((i - first) * sector_size) buf)
            file (omega (arith, le)) (omega (arith, fits)),
        next,
        next_at,
        size,
      )
      (ap some (
        copy_twice sector_size (n * sector_size) (i * sector_size) ((i - first) * sector_size)
          (content hdr d) buf))

-- The sectors of a request lie in the file.
pub request_sectors :
    (n position : ℕ) (hdr : FileHeader)
    → IsFile hdr
    → 0 < n
    → position + n ≤ hdr.num_bytes
    → (position / sector_size ≤ last_sector n position) × (last_sector n position < hdr.num_sectors)
request_sectors n position hdr file some_bytes fits =
    (omega (arith, some_bytes), omega (arith, some_bytes, fits, file.room))

pub read_request_lem :
    (n position : ℕ) (hdr : FileHeader) (d : Disk) (fresh : Buffer) (at : ℕ) (into : Buffer)
    → IsFile hdr
    → 0 < n
    → position + n ≤ hdr.num_bytes
    → read_request n position hdr d fresh at into ≡ some (copy n position (content hdr d) at into)
unfolding read_request
read_request_lem n position hdr d fresh at into file some_bytes fits =
    let first = position / sector_size in
    let count = 1 + last_sector n position - first in
    let (order, inside) = request_sectors n position hdr file some_bytes fits in
    let same : first * sector_size
          + (position - first * sector_size - (first - first) * sector_size)
        ≡ position =
      omega arith in
    rw
      (read_sectors_lem count first first hdr d fresh file (omega arith)
        (omega (arith, order, inside)))
      (ap some (
        copy_of n (position - first * sector_size) (count * sector_size) (first * sector_size)
          ((first - first) * sector_size) at (content hdr d) fresh into (omega arith)
          (omega (arith, some_bytes, order))
        ∙ ap (λ z. copy n z (content hdr d) at into) same))

-- The bytes of a request that the file has.
abbrev pub available : (num_bytes position file_length : ℕ) → ℕ
available num_bytes position file_length =
    if ltb (file_length - position) num_bytes then file_length - position else num_bytes

-- For a file whose sectors hold its bytes and are on the disk: ReadAt fails no assertion, puts the
-- bytes of the file from the position on into the buffer, as many as asked for or as lie before the
-- end of the file where these are fewer, changes no other byte of the buffer, and returns their
-- number.
pub read_at_lem :
    (num_bytes position : ℕ) (hdr : FileHeader) (d : Disk) (fresh : Buffer) (at : ℕ) (into : Buffer)
    → IsFile hdr
    → (let n = available num_bytes position hdr.num_bytes in
        read_at num_bytes position hdr d fresh at into
        ≡ some (n, copy n position (content hdr d) at into))
unfolding read_at
read_at_lem num_bytes position hdr d fresh at into file =
    elim (Bool-cases ((num_bytes == 0) || leb hdr.num_bytes position)) [
      | inl nothing ↦
          let none_left : available num_bytes position hdr.num_bytes ≡ 0 =
            ground (arith, nothing) in
          rw (nothing, none_left)
            (ap (λ z. some (0, z)) (sym (copy_none position at (content hdr d) into)))
      | inr bytes ↦
          let n = request num_bytes position hdr.num_bytes in
          let same : n ≡ available num_bytes position hdr.num_bytes = ground (arith, bytes) in
          rw
            (
              bytes,
              read_request_lem n position hdr d fresh at into file (ground (arith, bytes))
                  (ground (arith, bytes)),
            )
            (ap (λ z. some (z, copy z position (content hdr d) at into)) same)
    ]
