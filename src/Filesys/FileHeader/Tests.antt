-- ===== src/Filesys/FileHeader/Tests.antt =====
-- Files of filesys/filehdr.cc on a disk of 40 sectors.
use cmps.Prelude.{◌≡◌, refl, [], ◌∷◌, some, arith, ◌==◌, if◌then◌else◌}
use cmps.Userprog.BitMap.{BitMap, IsValid}
use cmps.Filesys.FileHeader.{FileHeader, allocate, byte_to_sector}
use cmps.Filesys.FileHeader.Allocate.{Allocation, allocate-Allocation}

-- Sectors 0, 1 and 35 are in use.
abbrev disk : BitMap
disk = record { num_bits = 40; num_words = 2; words = 3 ∷ 8 ∷ [] }

disk-IsValid : IsValid disk
disk-IsValid = omega arith

abbrev blank : FileHeader
blank = record { num_bytes = 0; num_sectors = 0; data_sectors = λ i. 0 }

-- A file of 600 bytes has three sectors.
abbrev stored : FileHeader
stored = record {
  num_bytes = 600;
  num_sectors = 3;
  data_sectors = λ i. if 2 == i then 4 else if 1 == i then 3 else if 0 == i then 2 else 0;
}

byte_to_sector_runs : byte_to_sector 300 stored ≡ some 3
unfolding byte_to_sector
byte_to_sector_runs = refl

allocate-Allocation_example : Allocation 600 blank disk (allocate 600 blank disk)
allocate-Allocation_example = allocate-Allocation 600 blank disk disk-IsValid
