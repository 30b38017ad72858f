-- ===== src/Machine/Disk/Tests.antt =====
-- Requests to the disk of machine/disk.cc.
use cmps.Prelude.{ℕ, ◌+◌, ◌*◌, ◌≡◌, ◌⊎◌, refl, Bool, true, false, List, [], ◌∷◌, none, some, arith}
use cmps.Threads.Sequence.{Entry, insert}
use cmps.Machine.Interrupt.{Interrupt, PendingInterrupt, disk_int, int_off, system_mode, schedule}
use cmps.Machine.Disk.{
  Disk, new_disk, store, time_to_seek, modulo_diff, compute_latency, update_last, read_request,
  write_request, handle_interrupt, disk_ints, Reach, start, writes, handled, disk_done,
}
use cmps.Machine.Disk.Latency.{Latency, compute_latency_lem}
use cmps.Machine.Disk.Requests.{Reach-reads}

abbrev file : ℕ → ℕ → ℕ
file s x = 0

abbrev line : ℕ → ℕ
line x = x + x

-- At time 1234, sector 35 is one track away, and 3 sectors and a part of one after the seek.
latency_value : compute_latency (new_disk file) 1234 35 true ≡ 500 + 266 + 31 * 500 + 500
unfolding compute_latency time_to_seek modulo_diff
latency_value = refl

compute_latency_lem_example :
    Latency (new_disk file) 1234 35 true (compute_latency (new_disk file) 1234 35 true)
compute_latency_lem_example = compute_latency_lem (new_disk file) 1234 35 true refl

abbrev kernel : Disk → List (Entry PendingInterrupt) → Interrupt Disk
kernel d pending = record {
  level = int_off;
  pending = pending;
  in_handler = false;
  yield_on_return = false;
  status = system_mode;
  total_ticks = 1234;
  idle_ticks = 0;
  system_ticks = 0;
  user_ticks = 0;
  world = d;
}

abbrev disk : Bool → Disk
disk active = record {
  sectors = store 35 line file;
  active = active;
  last_sector = 35;
  buffer_init = 2000;
  num_disk_reads = 0;
  num_disk_writes = 1;
}

abbrev interrupt : Entry PendingInterrupt
interrupt = record {
  key = 18000;
  item = record { handler = disk_done; arg = 0; when = 18000; kind = disk_int };
}

written : Reach file (kernel (disk true) (interrupt ∷ [])) (store 35 line file)
unfolding write_request compute_latency time_to_seek modulo_diff update_last schedule insert
    disk_ints
written = writes 35 line (kernel (new_disk file) []) _ file (start _ refl refl) refl

finished : Reach file (kernel (disk false) []) (store 35 line file)
unfolding handle_interrupt
finished = handled interrupt [] (kernel (disk true) (interrupt ∷ [])) _ _ written refl refl refl

-- After the interrupt of a write to sector 35.
Reach-reads_example :
    (false ≡ true)
      × (disk_ints [] ≡ 1)
      × (read_request 35 (kernel (disk false) []) ≡ none)
      × ((bytes : ℕ → ℕ) → write_request 35 bytes (kernel (disk false) []) ≡ none)
    ⊎ (false ≡ false)
      × (disk_ints [] ≡ 0)
      × ((k' : Interrupt Disk) × (read_request 35 (kernel (disk false) []) ≡ some (line, k'))
          × Reach file k' (store 35 line file))
unfolding disk_ints
Reach-reads_example =
    Reach-reads file (store 35 line file) (kernel (disk false) []) 35 finished (omega arith)
