-- ===== src/Filesys/OpenFile/Tests.antt =====
-- A file of filesys/openfile.cc of 600 bytes in sectors 4, 2 and 3.
use cmps.Prelude.{◌≡◌, some, arith, ◌==◌, if◌then◌else◌, ◌+◌, ◌%◌, ◌>>=◌}
use cmps.Filesys.FileHeader.{FileHeader}
use cmps.Filesys.OpenFile.{Buffer, Disk, OpenFile, copy, write_at, read, write, seek}
use cmps.Filesys.OpenFile.Buffers.{IsFile}
use cmps.Filesys.OpenFile.Sectors.{IsSeparate}
use cmps.Filesys.OpenFile.Write.{Patched, write_at_lem, read-seek-write}

abbrev letter : FileHeader
letter = record {
  num_bytes = 600;
  num_sectors = 3;
  data_sectors = λ i. if i == 0 then 4 else if i == 1 then 2 else if i == 2 then 3 else 0;
}

letter-IsFile : IsFile letter
letter-IsFile = record {
  room = omega arith;
  table = omega arith;
  on_disk = λ i h. ground (arith, h);
}

letter-IsSeparate : IsSeparate letter
letter-IsSeparate i j h k e = ground (arith, h, k, e)

abbrev disk : Disk
disk = λ s x. (s + x) % 256

abbrev blank : Buffer
blank = λ x. 0

abbrev text : Buffer
text = λ x. 65 + x

write_at_lem_example :
    Patched letter 300 250 text disk (write_at 300 250 letter text disk (λ i. blank))
write_at_lem_example =
    write_at_lem 300 250 letter text disk (λ i. blank) letter-IsFile letter-IsSeparate

abbrev opened : OpenFile
opened = record { hdr = letter; seek_position = 250 }

read-seek-write_example :
    (write 300 opened text disk (λ i. blank) >>= λ w. read 300 (seek 250 w.2) w.1 blank blank)
    ≡ some (300, copy 300 0 text 0 blank, seek 550 opened)
read-seek-write_example =
    read-seek-write 300 opened text disk (λ i. blank) blank blank letter-IsFile letter-IsSeparate
