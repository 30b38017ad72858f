-- ===== src/Userprog/Syscalls/Processes/Tests.antt =====
-- A parent and its child in the process list of userprog/exception.cc.
use cmps.Prelude.{ℕ, ◌+◌, ◌≡◌, inr, refl, true, [], ◌∷◌, some, ◌==◌, if◌then◌else◌, arith}
use cmps.Threads.Kernel.{set_semaphore, v}
use cmps.Threads.Kernel.Steps.{boot}
use cmps.Userprog.ProcessList.{Heap, ok, fault}
use cmps.Userprog.ProcessList.Links.{IsList}
use cmps.Userprog.Syscalls.Processes.{
  System, join_start, waits_on, cleanup_exit, added, exec_process,
}
use cmps.Userprog.Syscalls.Processes.Forked.{Forked}
use cmps.Userprog.Syscalls.Processes.Match.{cleanup_exit-orphan, join_start-cleanup_exit}
use cmps.Userprog.Syscalls.Processes.Create.{exec_process-join_start}

-- Element 1 is process 1, which has no parent, and element 2 process 2.
abbrev heap : ℕ → Heap
heap parent a = record {
  next = if a == 1 then some 2 else some a;
  previous = if a == 2 then some 1 else some a;
  current_thread = a;
  pid = a;
  valid = true;
  parent_pid = if a == 2 then parent else 0;
  semaphore = 10 + a;
}

abbrev system : ℕ → ℕ → System
system parent running = record {
  heap = heap parent;
  pcb = record { head = some 1; tail = some 2 };
  kernel = boot (λ s. 1);
  pid_of = λ t. running;
  num_process = 2;
}

system-IsList : (parent running : ℕ) → IsList (heap parent) (system parent running).pcb (1 ∷ 2 ∷ [])
system-IsList parent running = record {
  at_head = refl;
  at_tail = refl;
  links = (refl, refl, tt);
  ended = λ t e. inr (let same : 2 ≡ t = ground (arith, e) in rw (← same) refl);
  distinct = ((omega arith, tt), (omega arith, tt), (tt, tt, tt));
}

join_start-cleanup_exit_example :
    (join_start 5 2 (system 1 2) ≡ ok (waits_on 11))
    × (s' : System) × (cleanup_exit 5 0 (system 1 2) ≡ ok s')
    × (s'.kernel ≡ v 11 (boot (λ s. 1)))
    × IsList s'.heap s'.pcb (1 ∷ [])
unfolding boot
join_start-cleanup_exit_example =
    join_start-cleanup_exit 5 0 (system 1 2) 2 (1 ∷ []) [] (system-IsList 1 2) (omega arith) refl
      (omega arith) 1 refl (omega arith) refl

-- The parent of process 2 is process 7, which is gone.
cleanup_exit-orphan_example : cleanup_exit 5 0 (system 7 2) ≡ fault
unfolding boot
cleanup_exit-orphan_example =
    cleanup_exit-orphan 5 0 (system 7 2) 2 (1 ∷ []) [] (system-IsList 7 2) (omega arith) refl
      (omega arith) refl

exec_process-join_start_example :
    (s' : System) × (exec_process 0 true 3 13 4 3 (system 1 2) ≡ ok (added s'))
    × IsList s'.heap s'.pcb (1 ∷ 2 ∷ 3 ∷ [])
    × Forked 0 1 4 (set_semaphore 13 (record { value = 0; queue = [] }) (boot (λ s. 1))) s'.kernel
    × (s'.num_process ≡ 3)
    × (join_start 5 3 s' ≡ ok (waits_on 12))
unfolding boot
exec_process-join_start_example =
    exec_process-join_start 5 0 3 13 4 3 2 (system 1 2) (1 ∷ 2 ∷ []) (system-IsList 1 2)
      (omega arith, (omega arith, tt)) (omega arith, (omega arith, tt)) (omega arith) refl
      (omega arith) (λ same. omega (arith, same))
