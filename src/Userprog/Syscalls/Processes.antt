-- ===== src/Userprog/Syscalls/Processes.antt =====
-- The system calls of userprog/exception.cc that create processes, wait for them and end them, with what
-- the destructor of userprog/addrspace.cc does to the process list.
-- Threads and semaphores are those of the kernel. `fuel` bounds the elements of the process list that a
-- search visits. A field of NULL is a `fault`.
pub mod Fields
pub mod Match
pub mod Forked
pub mod Create
pub mod Counters
mod Tests
use cmps.Prelude.{
  ℕ, ◌+◌, ◌-◌, ◌%◌, ◌^◌, ◌≡◌, Bool, true, false, not, Option, none, some, [], ◌==◌, if◌then◌else◌,
}
use cmps.Machine.{Machine, set_register}
use cmps.Machine.Reg
use cmps.Threads.Kernel.{Kernel, set_semaphore, p, v, fork}
use cmps.Userprog.ProcessList.{
  ProcessElement, Heap, ProcessList, Result, ok, fault, ◌>>=◌, deref, find, append, remove, update,
}

-- What a system call works on. `pid_of` are the PIDs of the threads.
pub record System : Type 0 where
  pub heap : Heap
  pub pcb : ProcessList
  pub kernel : Kernel
  pub pid_of : ℕ → ℕ
  pub num_process : ℕ

-- PCB->Return(pid), and a field taken of it.
abbrev pub element : ℕ → System → ℕ → Result ℕ
element fuel s pid = find fuel s.heap s.pcb pid >>= λ r. deref r

unfoldable pub advance_pc : Machine → Machine
advance_pc m =
    let m₁ = set_register Reg.prev_pc (m.registers Reg.pc) m in
    let m₂ = set_register Reg.pc (m₁.registers Reg.next_pc) m₁ in
    set_register Reg.next_pc ((m₂.registers Reg.next_pc + 4) % 2 ^ 32) m₂

-- What Join comes to: a call of P on a semaphore, or no wait.
pub data Joined : Type 0 where
  waits_on : ℕ → Joined
  no_memory gone : Joined

-- Join up to the call of P. `child` is the argument.
unfoldable pub join_start : ℕ → ℕ → System → Result Joined
join_start fuel child s = find fuel s.heap s.pcb child >>= λ r. elim r [
  | none ↦ ok gone
  | some c ↦
      if (s.heap c).valid
      then (element fuel s (s.heap c).parent_pid >>= λ q. ok (waits_on (s.heap q).semaphore))
      else ok no_memory
]

-- Join after P has returned, and where it does not wait.
unfoldable pub join_end : Joined → Machine → Machine
unfolding advance_pc
join_end (waits_on _) m = advance_pc (set_register 2 0 m)
join_end no_memory m = advance_pc m
join_end gone m = advance_pc (set_register 2 (2 ^ 32 - 1) m)

-- The end of Exec for the process `pid`. Where the file cannot be opened, nothing is returned.
unfoldable pub exec_end : Bool → ℕ → Machine → Machine
unfolding advance_pc
exec_end opened pid m = advance_pc (if opened then set_register 2 pid m else m)

-- AddrSpace::CleanupExit. `garbage` is the ParentPID of a new element, which is not set.
unfoldable pub cleanup_exit : ℕ → ℕ → System → Result System
cleanup_exit fuel garbage s = do
  let pid = s.pid_of s.kernel.current
  r ← find fuel s.heap s.pcb pid
  (s', parent) ← elim r [
    | none ↦ ok (s, garbage)
    | some e ↦ do
      (h', l') ← remove s.heap s.pcb e
      ok (record s { heap = h'; pcb = l' }, (h' e).parent_pid)
  ]
  if parent == 0 then ok s' else (do
    q ← element fuel s' parent
    ok (record s' { kernel = v (s'.heap q).semaphore s'.kernel }))

-- What Exec comes to: it waits in the P of MutexNumProc, or it has added the process.
pub data Execed : Type 0 where
  waiting : System → Execed
  added : System → Execed

-- The part of Exec behind the P of MutexNumProc, or behind the address space where there is none.
pub exec_rest : ℕ → Bool → ℕ → ℕ → System → Result System
exec_rest mutex space_found e t s = do
  let s' =
      if space_found
      then record s { kernel = fork t (v mutex s.kernel); num_process = s.num_process + 1 }
      else s
  (h', l') ← append s'.heap s'.pcb e
  ok (record s' { heap = h'; pcb = l' })

-- The part of Exec behind the address space: the new element `e`, with the semaphore `sem`, for the
-- thread `t` with `pid`. `space_found` is the field of the address space, and `mutex` is MutexNumProc. A
-- thread that waits for it goes on with `exec_rest` when P returns.
pub exec_process : ℕ → Bool → ℕ → ℕ → ℕ → ℕ → System → Result Execed
unfolding exec_rest
exec_process mutex space_found e sem t pid s = do
  let h = update s.heap e (record {
    next = some e;
    previous = some e;
    current_thread = t;
    pid = pid;
    valid = space_found;
    parent_pid = s.pid_of s.kernel.current;
    semaphore = sem;
  })
  let kernel = set_semaphore sem (record { value = 0; queue = [] }) s.kernel
  if not space_found
      then (exec_rest mutex false e t (record s { heap = h; kernel = kernel }) >>= λ s'.
          ok (added s'))
      else if (kernel.semaphores mutex).value == 0
      then ok (waiting (record s { heap = h; kernel = p mutex kernel }))
      else (exec_rest mutex true e t (record s { heap = h; kernel = p mutex kernel }) >>= λ s'.
          ok (added s'))
