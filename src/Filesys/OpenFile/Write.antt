-- ===== src/Filesys/OpenFile/Write.antt =====
-- WriteAt, Write and Seek of filesys/openfile.cc.
use cmps.Prelude.{
  ℕ, ◌+◌, ◌-◌, ◌*◌, ◌/◌, ◌<◌, ◌≤◌, ◌≡◌, ◌⊎◌, false, Option, some, ltb, leb, ◌==◌, arith, ap, sym,
  ◌∙◌, refl, Bool-cases, inl, inr, ◌>>=◌, ◌&&◌, ◌||◌, if◌then◌else◌, ltb→lt,
}
use cmps.Filesys.FileHeader.{FileHeader, sector_size}
use cmps.Filesys.OpenFile.{
  Buffer, Disk, OpenFile, copy, first_aligned, reads_last, write_request, write_at, last_sector,
  request,
}
use cmps.Filesys.OpenFile.Buffers.{IsFile, content, copy_none}
use cmps.Filesys.OpenFile.Read.{available, read_at_lem, request_sectors}
use cmps.Filesys.OpenFile.Sectors.{IsSeparate, Foreign, write_sectors_lem}
use cmps.Filesys.OpenFile.Ends.{read_first_lem, read_last_lem, ends_lem}
use cmps.Filesys.OpenFile.{read, write, seek}

-- The disk after a write of `n` bytes at `position`, and what WriteAt returns.
pub record Patched (hdr : FileHeader) (n position : ℕ) (from : Buffer) (d : Disk)
    (result : Option (ℕ × Disk)) : Type 0 where
  pub disk : Disk
  pub returned : result ≡ some (n, disk)
  pub bytes :
      (x : ℕ) → x < hdr.num_bytes → content hdr disk x ≡ copy n 0 from position (content hdr d) x
  pub others : (s : ℕ) → Foreign hdr s → disk s ≡ d s

outside_cases : (p q x : ℕ) → (leb p x && ltb x q) ≡ false → (x < p) ⊎ (q ≤ x)
outside_cases p q x h = elim (Bool-cases (ltb x p)) [
  | inl before ↦ inl (ltb→lt x p before)
  | inr behind ↦ inr (ground (arith, behind, h))
]

whole_bytes :
    (n position first size x : ℕ) (from buf c : Buffer)
    → first ≤ position
    → position + n ≤ first + size
    → (first ≤ x → x < first + size → (x < position) ⊎ (position + n ≤ x) → buf (x - first) ≡ c x)
    → copy size 0 (copy n 0 from (position - first) buf) first c x ≡ copy n 0 from position c x
whole_bytes n position first size x from buf c low high around =
    elim (Bool-cases (leb position x && ltb x (position + n))) [
      | inl inside ↦
          let same : 0 + (x - first - (position - first)) ≡ 0 + (x - position) =
            ground (arith, inside, low) in
          ground (arith, inside, low, high, ap from same)
      | inr outside ↦ elim (Bool-cases (leb first x && ltb x (first + size))) [
        | inl within ↦
            let near : buf (x - first) ≡ c x =
              around (ground (arith, within)) (ground (arith, within))
                (outside_cases position (position + n) x outside) in
            let same : 0 + (x - first) ≡ x - first = omega arith in
            rw (within, outside, same) (ground (arith, outside, within, low, near))
        | inr beyond ↦ rw (beyond, outside) refl
      ]
    ]

module _ (n position : ℕ) (hdr : FileHeader) (from : Buffer) (d : Disk) (fresh : ℕ → Buffer) where
  write_request_lem :
      IsFile hdr
      → IsSeparate hdr
      → 0 < n
      → position + n ≤ hdr.num_bytes
      → Patched hdr n position from d
          (write_request n position hdr from d fresh >>= λ d'. some (n, d'))
  unfolding write_request
  write_request_lem file apart some_bytes fits =
      let first = position / sector_size in
      let last = last_sector n position in
      let k =
        if first_aligned position
        then 0
        else available sector_size (first * sector_size) hdr.num_bytes in
      let m =
        if reads_last n position
        then available sector_size (last * sector_size) hdr.num_bytes
        else 0 in
      let buf = copy k (first * sector_size) (content hdr d) 0 (fresh 0) in
      let buf' = copy m (last * sector_size) (content hdr d) ((last - first) * sector_size) buf in
      let same_sector : (first - first) * sector_size ≡ 0 = omega arith in
      let (order, inside) = request_sectors n position hdr file some_bytes fits in
      let written =
        write_sectors_lem (1 + last - first) first first hdr
          (copy n 0 from (position - first * sector_size) buf') d file apart (omega arith)
          (omega (arith, order, inside)) in
      record {
        disk = written.disk;
        returned =
            rw
              (
                read_first_lem position hdr d fresh file,
                read_last_lem n position hdr d fresh buf file,
                written.returned,
              )
              refl;
        bytes = λ x short.
            written.bytes x (omega (arith, short, file.room))
            ∙ rw same_sector (
                whole_bytes n position (first * sector_size) ((1 + last - first) * sector_size) x
                  from buf' (content hdr d) (omega arith) (omega (arith, some_bytes, order))
                  (λ low high outside.
                    ends_lem n position hdr d (fresh 0) some_bytes fits x low short
                      (omega (arith, high, order)) outside));
        others = written.others;
      }

copied_back :
    (n position len : ℕ) (from c c' into : Buffer)
    → n ≤ len - position
    → ((x : ℕ) → x < len → c' x ≡ copy n 0 from position c x)
    → (x : ℕ) → copy n position c' 0 into x ≡ copy n 0 from 0 into x
copied_back n position len from c c' into fits bytes x = elim (Bool-cases (ltb x n)) [
  | inl inside ↦
      let same : 0 + (position + (x - 0) - position) ≡ 0 + (x - 0) = omega arith in
      ground
        (arith, inside, bytes (position + (x - 0)) (ground (arith, inside, fits)), ap from same)
  | inr outside ↦ ground (arith, outside)
]

module _ (num_bytes position : ℕ) (hdr : FileHeader) (from : Buffer) (d : Disk)
    (fresh : ℕ → Buffer) where
  -- For a file whose sectors hold its bytes, are on the disk, and are all different: WriteAt fails no
  -- assertion and returns the number of bytes asked for, or of those from the position to the end of
  -- the file where these are fewer. The file then has these bytes at the position and its other bytes
  -- as before, and no other sector of the disk changes.
  pub write_at_lem :
      IsFile hdr
      → IsSeparate hdr
      → Patched hdr
          (available num_bytes position hdr.num_bytes)
          position
          from
          d
          (write_at num_bytes position hdr from d fresh)
  unfolding write_at
  write_at_lem file apart = elim (Bool-cases ((num_bytes == 0) || leb hdr.num_bytes position)) [
    | inl nothing ↦
        let none_left : available num_bytes position hdr.num_bytes ≡ 0 = ground (arith, nothing) in
        record {
          disk = d;
          returned = rw (nothing, none_left) refl;
          bytes =
              λ x l. rw none_left (sym (ap (λ z. z x) (copy_none 0 position from (content hdr d))));
          others = λ s f. refl;
        }
    | inr bytes ↦
        let n = request num_bytes position hdr.num_bytes in
        let same : n ≡ available num_bytes position hdr.num_bytes = ground (arith, bytes) in
        rw (bytes, sym same)
          (write_request_lem n position hdr from d fresh file apart (ground (arith, bytes))
            (ground (arith, bytes)))
  ]

  -- A read of the same bytes gives what was written.
  read_back :
      (into : Buffer) {result : Option (ℕ × Disk)}
      → (w : Patched hdr (available num_bytes position hdr.num_bytes) position from d result)
      → (let n = available num_bytes position hdr.num_bytes in
          copy n position (content hdr w.disk) 0 into ≡ copy n 0 from 0 into)
  read_back into w i x =
      copied_back (available num_bytes position hdr.num_bytes) position hdr.num_bytes from
        (content hdr d) (content hdr w.disk) into (ground arith) w.bytes x i

-- For an open file whose sectors hold its bytes, are on the disk, and are all different: Write fails
-- no assertion. A Seek back and a Read of as many bytes then give the bytes written, as many as lie
-- before the end of the file, and the position behind them.
pub read-seek-write :
    (num_bytes : ℕ) (f : OpenFile) (from : Buffer) (d : Disk) (fresh : ℕ → Buffer)
    (fresh' into : Buffer)
    → IsFile f.hdr
    → IsSeparate f.hdr
    → (let n = available num_bytes f.seek_position f.hdr.num_bytes in
        (write num_bytes f from d fresh >>= λ w.
        read num_bytes (seek f.seek_position w.2) w.1 fresh' into)
        ≡ some (n, copy n 0 from 0 into, seek (f.seek_position + n) f))
unfolding write read
read-seek-write num_bytes f from d fresh fresh' into file apart =
    let n = available num_bytes f.seek_position f.hdr.num_bytes in
    let w = write_at_lem num_bytes f.seek_position f.hdr from d fresh file apart in
    rw (w.returned, read_at_lem num_bytes f.seek_position f.hdr w.disk fresh' 0 into file)
      (ap (λ z. some (n, z, seek (f.seek_position + n) f))
        (read_back num_bytes f.seek_position f.hdr from d fresh into w))
