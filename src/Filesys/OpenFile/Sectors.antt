-- ===== src/Filesys/OpenFile/Sectors.antt =====
-- The loop of WriteAt of filesys/openfile.cc.
use cmps.Prelude.{
  ℕ, zero, suc, ◌+◌, ◌-◌, ◌*◌, ◌/◌, ◌%◌, ◌<◌, ◌≤◌, ◌≡◌, ◌≢◌, Option, some, ◌==◌, arith, ap, ◌∙◌,
  refl, if◌then◌else◌, ltb-of_lt, ==-of_eq, ==-of_ne,
}
use native.Mathlib.Decide.{ℕ_discrete}
use cmps.Filesys.FileHeader.{FileHeader, sector_size}
use cmps.Filesys.OpenFile.{Buffer, Disk, copy, write_sector, write_sectors, sectors_of_disk}
use cmps.Filesys.OpenFile.Buffers.{IsFile, content, copy_twice_at, byte_to_sector_lem}

-- No sector is in the table twice.
abbrev pub IsSeparate : FileHeader → Type 0
IsSeparate hdr =
    (i j : ℕ)
    → i < hdr.num_sectors
    → j < hdr.num_sectors
    → hdr.data_sectors i ≡ hdr.data_sectors j
    → i ≡ j

abbrev pub Foreign : FileHeader → ℕ → Type 0
Foreign hdr s = (j : ℕ) → j < hdr.num_sectors → hdr.data_sectors j ≢ s

abbrev pub with_sector : ℕ → Buffer → ℕ → Disk → Disk
with_sector sector buf from d = λ s. if sector == s then copy sector_size from buf 0 (d s) else d s

copy_target :
    (n from at : ℕ) (source target target' : Buffer) (x : ℕ)
    → target x ≡ target' x
    → copy n from source at target x ≡ copy n from source at target' x
copy_target n from at source target target' x e = ground (arith, e)

write_sector_lem :
    (sector : ℕ) (buf : Buffer) (from : ℕ) (d : Disk)
    → sector < sectors_of_disk
    → write_sector sector buf from d ≡ some (with_sector sector buf from d)
write_sector_lem sector buf from d h = rw (ltb-of_lt sector sectors_of_disk h) refl

content_one :
    (hdr : FileHeader) (i from : ℕ) (buf : Buffer) (d : Disk)
    → IsSeparate hdr
    → i < hdr.num_sectors
    → (x : ℕ) → x < hdr.num_sectors * sector_size
    → content hdr (with_sector (hdr.data_sectors i) buf from d) x
      ≡ copy sector_size from buf (i * sector_size) (content hdr d) x
content_one hdr i from buf d apart h x l = elim (ℕ_discrete i (x / sector_size)) [
  | yes here ↦
      let same : from + (x % sector_size - 0) ≡ from + (x - i * sector_size) =
        omega (arith, here) in
      rw
        (==-of_eq (hdr.data_sectors i) (hdr.data_sectors (x / sector_size))
          (ap (λ z. hdr.data_sectors z) here))
        (ground (arith, here, ap buf same))
  | no away ↦
      rw
        (==-of_ne (hdr.data_sectors i) (hdr.data_sectors (x / sector_size))
          (λ e. away (apart i (x / sector_size) h (omega (arith, l)) e)))
        (ground (arith, away))
]

pub record Written (hdr : FileHeader) (n from at : ℕ) (buf : Buffer) (d : Disk)
    (written : Option Disk) : Type 0 where
  pub disk : Disk
  pub returned : written ≡ some disk
  pub bytes :
      (x : ℕ)
      → x < hdr.num_sectors * sector_size
      → content hdr disk x ≡ copy n from buf at (content hdr d) x
  pub others : (s : ℕ) → Foreign hdr s → disk s ≡ d s

pub write_sectors_lem :
    (n i first : ℕ) (hdr : FileHeader) (buf : Buffer) (d : Disk)
    → IsFile hdr
    → IsSeparate hdr
    → first ≤ i
    → i + n ≤ hdr.num_sectors
    → Written hdr
        (n * sector_size)
        ((i - first) * sector_size)
        (i * sector_size)
        buf
        d
        (write_sectors n i first hdr buf d)
unfolding write_sectors
write_sectors_lem zero i first hdr buf d file apart le fits = record {
  disk = d;
  returned = refl;
  bytes = λ x l. ground arith;
  others = λ s f. refl;
}
write_sectors_lem (suc n) i first hdr buf d file apart le fits =
    let from = (i - first) * sector_size in
    let d' = with_sector (hdr.data_sectors i) buf from d in
    let rest =
      write_sectors_lem n (i + 1) first hdr buf d' file apart (omega (arith, le))
        (omega (arith, fits)) in
    let next : (i + 1) * sector_size ≡ i * sector_size + sector_size = omega arith in
    let next_from : (i + 1 - first) * sector_size ≡ from + sector_size = omega (arith, le) in
    let size : suc n * sector_size ≡ sector_size + n * sector_size = omega arith in
    record {
      disk = rest.disk;
      returned =
          rw
            (
              byte_to_sector_lem hdr i (omega (arith, file.table, fits)),
              write_sector_lem (hdr.data_sectors i) buf from d
                  (file.on_disk i (omega (arith, fits))),
            )
            rest.returned;
      bytes = λ x l.
          rest.bytes x l
          ∙ copy_target (n * sector_size) ((i + 1 - first) * sector_size) ((i + 1) * sector_size)
              buf (content hdr d') (copy sector_size from buf (i * sector_size) (content hdr d)) x
              (content_one hdr i from buf d apart (omega (arith, fits)) x l)
          ∙ rw (next, next_from, size)
              (copy_twice_at sector_size (n * sector_size) from (i * sector_size) buf
                (content hdr d) x);
      others = λ s f.
          rest.others s f ∙ rw (==-of_ne (hdr.data_sectors i) s (f i (omega (arith, fits)))) refl;
    }
