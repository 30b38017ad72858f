-- ===== src/Filesys/OpenFile/Buffers.antt =====
-- Buffers and the bytes of a file of filesys/openfile.cc.
use cmps.Prelude.{
  ℕ, ◌+◌, ◌-◌, ◌*◌, ◌/◌, ◌%◌, ◌<◌, ◌≤◌, ◌≡◌, some, ltb, leb, arith, ap, refl, ◌&&◌, Bool-cases, inl,
  inr,
}
use cmps.Filesys.FileHeader.{FileHeader, sector_size, byte_to_sector, num_direct}
use cmps.Filesys.OpenFile.{Buffer, Disk, copy, sectors_of_disk}

-- The bytes of a file on a disk.
abbrev pub content : FileHeader → Disk → Buffer
content hdr d = λ x. d (hdr.data_sectors (x / sector_size)) (x % sector_size)

-- The header of a file: its sectors hold its bytes, and are on the disk.
pub record IsFile (hdr : FileHeader) : Type 0 where
  pub room : hdr.num_bytes ≤ hdr.num_sectors * sector_size
  pub table : hdr.num_sectors ≤ num_direct
  pub on_disk : (i : ℕ) → i < hdr.num_sectors → hdr.data_sectors i < sectors_of_disk

copy_none_at :
    (from at : ℕ) (source target : Buffer) (x : ℕ) → copy 0 from source at target x ≡ target x
copy_none_at from at source target x = ground arith

pub copy_none : (from at : ℕ) (source target : Buffer) → copy 0 from source at target ≡ target
copy_none from at source target i x = copy_none_at from at source target x i

pub copy_twice_at :
    (m n from at : ℕ) (source target : Buffer) (x : ℕ)
    → copy n (from + m) source (at + m) (copy m from source at target) x
      ≡ copy (m + n) from source at target x
copy_twice_at m n from at source target x = elim (Bool-cases (ltb x (at + m))) [
  | inl before ↦ ground (arith, before)
  | inr behind ↦
      let same : from + m + (x - (at + m)) ≡ from + (x - at) = ground (arith, behind) in
      ground (arith, behind, ap source same)
]

-- A copy of bytes that continues another one.
pub copy_twice :
    (m n from at : ℕ) (source target : Buffer)
    → copy n (from + m) source (at + m) (copy m from source at target)
      ≡ copy (m + n) from source at target
copy_twice m n from at source target i x = copy_twice_at m n from at source target x i

copy_of_at :
    (n f m g a at : ℕ) (source middle target : Buffer)
    → a ≤ f
    → f + n ≤ a + m
    → (x : ℕ)
    → copy n f (copy m g source a middle) at target x ≡ copy n (g + (f - a)) source at target x
copy_of_at n f m g a at source middle target le fits x =
    elim (Bool-cases (leb at x && ltb x (at + n))) [
      | inl inside ↦
          let same : g + (f + (x - at) - a) ≡ g + (f - a) + (x - at) = ground (arith, inside, le) in
          ground (arith, inside, le, fits, ap source same)
      | inr outside ↦ rw outside refl
    ]

-- A copy out of what was copied before.
pub copy_of :
    (n f m g a at : ℕ) (source middle target : Buffer)
    → a ≤ f
    → f + n ≤ a + m
    → copy n f (copy m g source a middle) at target ≡ copy n (g + (f - a)) source at target
copy_of n f m g a at source middle target le fits i x =
    copy_of_at n f m g a at source middle target le fits x i

div_sector : (i y : ℕ) → y < sector_size → (i * sector_size + y) / sector_size ≡ i
div_sector i y h = omega (arith, h)

mod_sector : (i y : ℕ) → y < sector_size → (i * sector_size + y) % sector_size ≡ y
mod_sector i y h = omega (arith, h)

pub byte_to_sector_lem :
    (hdr : FileHeader) (i : ℕ)
    → i < num_direct
    → byte_to_sector (i * sector_size) hdr ≡ some (hdr.data_sectors i)
unfolding byte_to_sector
byte_to_sector_lem hdr i h =
    let same : i * sector_size / sector_size ≡ i = omega arith in rw same (ground (arith, h))

copy_sector_at :
    (hdr : FileHeader) (d : Disk) (i at : ℕ) (target : Buffer) (x : ℕ)
    → copy sector_size 0 (d (hdr.data_sectors i)) at target x
      ≡ copy sector_size (i * sector_size) (content hdr d) at target x
copy_sector_at hdr d i at target x = elim (Bool-cases (leb at x && ltb x (at + sector_size))) [
  | inl inside ↦
      let short : x - at < sector_size = ground (arith, inside) in
      rw (inside, div_sector i (x - at) short, mod_sector i (x - at) short)
        (ap (d (hdr.data_sectors i)) (omega arith))
  | inr outside ↦ rw outside refl
]

-- What the loops copy for one sector.
pub copy_sector :
    (hdr : FileHeader) (d : Disk) (i at : ℕ) (target : Buffer)
    → copy sector_size 0 (d (hdr.data_sectors i)) at target
      ≡ copy sector_size (i * sector_size) (content hdr d) at target
copy_sector hdr d i at target k x = copy_sector_at hdr d i at target x k
