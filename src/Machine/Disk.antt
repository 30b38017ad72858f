-- ===== src/Machine/Disk.antt =====
-- The class Disk of machine/disk.cc: how long a request takes, and the requests and their interrupts.
-- The disk is the world of the Interrupt of Machine/Interrupt, whose clock it reads. `x - y` of times is 0 for
-- y > x: where the source has a negative number there, it divides it and asks whether the quotient is above a
-- number that is not negative, which it is not. A failed ASSERT is `none`.
pub mod Latency
pub mod Requests
mod Tests
use cmps.Prelude.{
  ℕ, ◌+◌, ◌-◌, ◌*◌, ◌/◌, ◌%◌, Bool, true, false, not, ◌&&◌, List, [], ◌∷◌, ◌≡◌, Option, none, some,
  ltb, ◌==◌, if◌then◌else◌, ◌>>=◌, ◌>>◌, assert,
}
use cmps.Machine.Interrupt.{Interrupt, IntType, PendingInterrupt, disk_int, schedule}
use cmps.Threads.Sequence.{Entry}

abbrev pub sectors_per_track : ℕ
sectors_per_track = 32

abbrev pub num_sectors : ℕ
num_sectors = 1024

-- The time to rotate past one sector, and the time to seek past one track.
abbrev pub rotation_time : ℕ
rotation_time = 500

abbrev pub seek_time : ℕ
seek_time = 500

-- `sectors` is what the UNIX file has; the counts of reads and writes are those of machine/stats.h.
pub record Disk : Type 0 where
  pub sectors : ℕ → ℕ → ℕ
  pub active : Bool
  pub last_sector : ℕ
  pub buffer_init : ℕ
  pub num_disk_reads : ℕ
  pub num_disk_writes : ℕ

abbrev pub abs : ℕ → ℕ → ℕ
abs a b = if ltb a b then b - a else a - b

-- The disk head at the start, over a UNIX file.
abbrev pub new_disk : (ℕ → ℕ → ℕ) → Disk
new_disk file = record {
  sectors = file;
  active = false;
  last_sector = 0;
  buffer_init = 0;
  num_disk_reads = 0;
  num_disk_writes = 0;
}

abbrev pub seek_of : Disk → ℕ → ℕ
seek_of d new_sector =
    abs (new_sector / sectors_per_track) (d.last_sector / sectors_per_track) * seek_time

-- The time to seek, and the time from there to the next border of a sector.
pub time_to_seek : Disk → (now new_sector : ℕ) → ℕ × ℕ
time_to_seek d now new_sector =
    let seek = seek_of d new_sector in
    let over = (now + seek) % rotation_time in
    (seek, if ltb 0 over then rotation_time - over else 0)

pub modulo_diff : (to from : ℕ) → ℕ
modulo_diff to from =
    (to % sectors_per_track + sectors_per_track - from % sectors_per_track) % sectors_per_track

pub compute_latency : Disk → (now new_sector : ℕ) → Bool → ℕ
unfolding time_to_seek modulo_diff
compute_latency d now new_sector writing =
    let (seek, rotation) = time_to_seek d now new_sector in
    let time_after = now + seek + rotation in
    if not writing
      && seek == 0
      && ltb (modulo_diff new_sector (d.buffer_init / rotation_time))
          ((time_after - d.buffer_init) / rotation_time)
    then rotation_time
    else seek
      + (rotation + modulo_diff new_sector (time_after / rotation_time) * rotation_time)
      + rotation_time

pub update_last : (now new_sector : ℕ) → Disk → Disk
unfolding time_to_seek
update_last now new_sector d =
    let (seek, rotate) = time_to_seek d now new_sector in
    record d {
      buffer_init = if seek == 0 then d.buffer_init else now + seek + rotate;
      last_sector = new_sector;
    }

abbrev pub store : ℕ → (ℕ → ℕ) → (ℕ → ℕ → ℕ) → ℕ → ℕ → ℕ
store sector bytes file s = if s == sector then bytes else file s

-- The address of DiskDone.
abbrev pub disk_done : ℕ
disk_done = 7

pub read_request : ℕ → Interrupt Disk → Option ((ℕ → ℕ) × Interrupt Disk)
unfolding compute_latency update_last
read_request sector k = do
  let ticks = compute_latency k.world k.total_ticks sector false
  assert (not k.world.active)
  assert (ltb sector num_sectors)
  let started = update_last k.total_ticks sector (record k.world { active = true })
  k' ←
      schedule disk_done 0 ticks disk_int
        (record k { world = record started { num_disk_reads = started.num_disk_reads + 1 } })
  some (k.world.sectors sector, k')

pub write_request : ℕ → (ℕ → ℕ) → Interrupt Disk → Option (Interrupt Disk)
unfolding compute_latency update_last
write_request sector bytes k = do
  let ticks = compute_latency k.world k.total_ticks sector true
  assert (not k.world.active)
  assert (ltb sector num_sectors)
  let written = record k.world { sectors = store sector bytes k.world.sectors; active = true }
  let started = update_last k.total_ticks sector written
  schedule disk_done 0 ticks disk_int
      (record k { world = record started { num_disk_writes = started.num_disk_writes + 1 } })

-- `done` is the handler that the disk was made with.
pub handle_interrupt :
    (Interrupt Disk → Option (Interrupt Disk)) → Interrupt Disk → Option (Interrupt Disk)
handle_interrupt done k = done (record k { world = record k.world { active = false } })

abbrev pub is_disk : IntType → Bool
is_disk disk_int = true
is_disk _ = false

-- The number of pending disk interrupts.
pub disk_ints : List (Entry PendingInterrupt) → ℕ
disk_ints [] = 0
disk_ints (e ∷ es) = (if is_disk e.item.kind then 1 else 0) + disk_ints es

-- The states that a disk over a UNIX file is in, each with what was written so far: requests that return, the
-- interrupts of the disk, and what leaves the disk and its interrupts alone.
pub data Reach (file : ℕ → ℕ → ℕ) : Interrupt Disk → (ℕ → ℕ → ℕ) → Type 0 where
  start :
      (k : Interrupt Disk) → k.world ≡ new_disk file → disk_ints k.pending ≡ 0 → Reach file k file
  other :
      (k k' : Interrupt Disk) (held : ℕ → ℕ → ℕ)
      → Reach file k held
      → k'.world ≡ k.world
      → disk_ints k'.pending ≡ disk_ints k.pending
      → Reach file k' held
  reads :
      (sector : ℕ) (got : ℕ → ℕ) (k k' : Interrupt Disk) (held : ℕ → ℕ → ℕ)
      → Reach file k held
      → read_request sector k ≡ some (got, k')
      → Reach file k' held
  writes :
      (sector : ℕ) (bytes : ℕ → ℕ) (k k' : Interrupt Disk) (held : ℕ → ℕ → ℕ)
      → Reach file k held
      → write_request sector bytes k ≡ some k'
      → Reach file k' (store sector bytes held)
  handled :
      (e : Entry PendingInterrupt) (rest : List (Entry PendingInterrupt)) (k k' : Interrupt Disk)
      (held : ℕ → ℕ → ℕ)
      → Reach file k held
      → k.pending ≡ e ∷ rest
      → e.item.kind ≡ disk_int
      → handle_interrupt (λ k. some k) (record k { pending = rest }) ≡ some k'
      → Reach file k' held
