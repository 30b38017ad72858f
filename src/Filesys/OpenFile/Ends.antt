-- ===== src/Filesys/OpenFile/Ends.antt =====
-- What WriteAt of filesys/openfile.cc reads of the sectors that it changes in part.
use cmps.Prelude.{
  ℕ, ◌+◌, ◌-◌, ◌*◌, ◌/◌, ◌<◌, ◌≤◌, ◌≡◌, ◌⊎◌, some, ltb, leb, arith, ap, sym, refl, Bool-cases, inl,
  inr, ◌&&◌, if◌then◌else◌,
}
use cmps.Filesys.FileHeader.{FileHeader, sector_size}
use cmps.Filesys.OpenFile.{
  Buffer, Disk, copy, read_first, read_last, first_aligned, reads_last, last_sector,
}
use cmps.Filesys.OpenFile.Buffers.{IsFile, content, copy_none}
use cmps.Filesys.OpenFile.Read.{available, read_at_lem}

pub read_first_lem :
    (position : ℕ) (hdr : FileHeader) (d : Disk) (fresh : ℕ → Buffer)
    → IsFile hdr
    → (let first = position / sector_size in
        let n =
          if first_aligned position
          then 0
          else available sector_size (first * sector_size) hdr.num_bytes in
        read_first position hdr d fresh
        ≡ some (copy n (first * sector_size) (content hdr d) 0 (fresh 0)))
unfolding read_first
read_first_lem position hdr d fresh file = elim (Bool-cases (first_aligned position)) [
  | inl aligned ↦
      rw aligned (
        ap some
          (sym (copy_none (position / sector_size * sector_size) 0 (content hdr d) (fresh 0))))
  | inr not_aligned ↦
      rw
        (
          not_aligned,
          read_at_lem sector_size (position / sector_size * sector_size) hdr d (fresh 1) 0 (fresh 0)
              file,
        )
        refl
]

pub read_last_lem :
    (num_bytes position : ℕ) (hdr : FileHeader) (d : Disk) (fresh : ℕ → Buffer) (buf : Buffer)
    → IsFile hdr
    → (let last = last_sector num_bytes position in
        let n =
          if reads_last num_bytes position
          then available sector_size (last * sector_size) hdr.num_bytes
          else 0 in
        read_last num_bytes position hdr d fresh buf
        ≡ some (
            copy n
              (last * sector_size)
              (content hdr d)
              ((last - position / sector_size) * sector_size)
              buf))
unfolding read_last
read_last_lem num_bytes position hdr d fresh buf file =
    let last = last_sector num_bytes position in
    let at = (last - position / sector_size) * sector_size in
    elim (Bool-cases (reads_last num_bytes position)) [
      | inl reads ↦
          rw (reads, read_at_lem sector_size (last * sector_size) hdr d (fresh 2) at buf file) refl
      | inr reads ↦ rw reads (ap some (sym (copy_none (last * sector_size) at (content hdr d) buf)))
    ]

covered :
    (c fresh : Buffer) (k m first last x : ℕ)
    → first ≤ x
    → first ≤ last
    → (x < first + k) ⊎ ((last ≤ x) × (x < last + m))
    → copy m last c (last - first) (copy k first c 0 fresh) (x - first) ≡ c x
covered c fresh k m first last x low order where_from =
    let of_first : first + (x - first - 0) ≡ x = omega (arith, low) in
    elim (Bool-cases (leb (last - first) (x - first) && ltb (x - first) (last - first + m))) [
      | inl second ↦
          let of_last : last + (x - first - (last - first)) ≡ x =
            ground (arith, second, low, order) in
          rw (second, of_last) refl
      | inr only ↦ rw (only, of_first) (ground (arith, only, low, order, where_from))
    ]

ends_covered :
    (n position len x : ℕ)
    → 0 < n
    → position + n ≤ len
    → (let first = position / sector_size in
        let last = last_sector n position in
        first * sector_size ≤ x
        → x < len
        → x < (last + 1) * sector_size
        → (x < position) ⊎ (position + n ≤ x)
        → (x
            < first * sector_size
              + (if first_aligned position
                  then 0
                  else available sector_size (first * sector_size) len))
          ⊎ ((last * sector_size ≤ x)
              × (x
                  < last * sector_size
                    + (if reads_last n position
                        then available sector_size (last * sector_size) len
                        else 0))))
ends_covered n position len x some_bytes fits low short high (inl before) =
    inl (ground (arith, low, short, high, before))
ends_covered n position len x some_bytes fits low short high (inr behind) =
    elim (Bool-cases (reads_last n position)) [
      | inl reads ↦ inr (
        omega (arith, some_bytes, behind),
        ground (arith, reads, some_bytes, fits, low, short, high, behind),
      )
      | inr reads ↦ inl (ground (arith, reads, some_bytes, fits, low, short, high, behind))
    ]

-- What the buffer of WriteAt holds of the file around the bytes that change.
pub ends_lem :
    (n position : ℕ) (hdr : FileHeader) (d : Disk) (fresh : Buffer)
    → 0 < n
    → position + n ≤ hdr.num_bytes
    → (let first = position / sector_size in
        let last = last_sector n position in
        let k =
          if first_aligned position
          then 0
          else available sector_size (first * sector_size) hdr.num_bytes in
        let m =
          if reads_last n position
          then available sector_size (last * sector_size) hdr.num_bytes
          else 0 in
        (x : ℕ)
        → first * sector_size ≤ x
        → x < hdr.num_bytes
        → x < (last + 1) * sector_size
        → (x < position) ⊎ (position + n ≤ x)
        → copy m
            (last * sector_size)
            (content hdr d)
            ((last - first) * sector_size)
            (copy k (first * sector_size) (content hdr d) 0 fresh)
            (x - first * sector_size)
          ≡ content hdr d x)
ends_lem n position hdr d fresh some_bytes fits x low short high outside =
    let first = position / sector_size in
    let last = last_sector n position in
    let k =
      if first_aligned position
      then 0
      else available sector_size (first * sector_size) hdr.num_bytes in
    let m =
      if reads_last n position
      then available sector_size (last * sector_size) hdr.num_bytes
      else 0 in
    let order : first ≤ last = omega (arith, some_bytes) in
    let at : (last - first) * sector_size ≡ last * sector_size - first * sector_size =
      omega (arith, order) in
    rw at (
      covered (content hdr d) fresh k m (first * sector_size) (last * sector_size) x low
        (omega (arith, order))
        (ends_covered n position hdr.num_bytes x some_bytes fits low short high outside))
