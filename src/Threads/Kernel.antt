-- ===== src/Threads/Kernel.antt =====
-- Threads, the scheduler and semaphores: threads/thread.cc, threads/scheduler.cc and threads/synch.cc.
-- The ready list and the queue of a semaphore are the sequences that threads/list.cc keeps. A thread is
-- a number. What SWITCH saves of a thread is where it goes on when it runs again: inside the loop of
-- Semaphore::P, or outside. Every function runs with interrupts off, as in the source, so another thread
-- runs only where a function calls Scheduler::Run, and a handler only while the machine idles or the
-- current thread is outside these functions. User registers, stacks and names are left out.
pub mod Order
pub mod Steps
pub mod Inv
pub mod Moves
pub mod Wakes
pub mod Balance
mod Tests
use cmps.Prelude.{
  ℕ, suc, zero, ◌+◌, ◌-◌, ◌≡◌, Bool, true, false, not, List, [], ◌∷◌, ◌++◌, Option, none, some,
  ◌==◌, if◌then◌else◌,
}

pub data ThreadStatus : Type 0 where
  just_created running ready blocked : ThreadStatus

pub data Place : Type 0 where
  outside : Place
  in_p : ℕ → Place

pub record Thread : Type 0 where
  pub status : ThreadStatus
  pub place : Place
  pub started : Bool

pub record Semaphore : Type 0 where
  pub value : ℕ
  pub queue : List ℕ

-- `idling` is set in the loop of Thread::Sleep while there is no thread to run.
pub record Kernel : Type 0 where
  pub threads : ℕ → Thread
  pub semaphores : ℕ → Semaphore
  pub current : ℕ
  pub ready_list : List ℕ
  pub idling : Bool
  pub to_be_destroyed : Option ℕ

abbrev pub put {ℓ} : {A : Type ℓ} → ℕ → A → (ℕ → A) → ℕ → A
put i a f j = if i == j then a else f j

abbrev pub set_thread : ℕ → Thread → Kernel → Kernel
set_thread t new k = record k { threads = put t new k.threads }

abbrev pub set_status : ℕ → ThreadStatus → Kernel → Kernel
set_status t s k = set_thread t (record (k.threads t) { status = s }) k

abbrev pub set_place : ℕ → Place → Kernel → Kernel
set_place t p k = set_thread t (record (k.threads t) { place = p }) k

abbrev pub set_semaphore : ℕ → Semaphore → Kernel → Kernel
set_semaphore s new k = record k { semaphores = put s new k.semaphores }

abbrev pub ready_to_run : ℕ → Kernel → Kernel
ready_to_run t k =
    let k' = set_status t ready k in record k' { ready_list = k.ready_list ++ t ∷ [] }

-- A thread that has run before goes on behind SWITCH and deletes the thread that has finished; a new
-- one starts at its own function.
abbrev pub run : ℕ → Kernel → Kernel
run next k =
    let k' = set_thread next (record (k.threads next) { status = running; started = true }) k in
    record k' {
      current = next;
      idling = false;
      to_be_destroyed = if (k.threads next).started then none else k.to_be_destroyed;
    }

-- FindNextToRun, and Run of the thread that it gives; with none the machine idles.
abbrev pub dispatch : Kernel → Kernel
dispatch k = elim k.ready_list [
  | [] ↦ record k { idling = true }
  | next ∷ rest ↦ run next (record k { ready_list = rest })
]

-- Thread::Fork of a new thread. It begins outside P.
unfoldable pub fork : ℕ → Kernel → Kernel
fork t k = ready_to_run t k

-- Thread::Yield.
unfoldable pub yield : Kernel → Kernel
yield k = elim k.ready_list [
  | [] ↦ k
  | next ∷ rest ↦ run next (ready_to_run k.current (record k { ready_list = rest }))
]

-- Thread::Sleep of the current thread, up to where it is switched away from.
abbrev pub sleep : Kernel → Kernel
sleep k = dispatch (set_status k.current blocked k)

-- Thread::Finish.
unfoldable pub finish : Kernel → Kernel
finish k = sleep (record k { to_be_destroyed = some k.current })

-- One round of the loop of Semaphore::P, with what follows the loop.
unfoldable pub p : ℕ → Kernel → Kernel
p s k =
    let sem = k.semaphores s in
    if sem.value == 0
    then sleep (
        set_place k.current (in_p s)
          (set_semaphore s (record sem { queue = sem.queue ++ k.current ∷ [] }) k))
    else set_place k.current outside (set_semaphore s (record sem { value = sem.value - 1 }) k)

-- Semaphore::V.
unfoldable pub v : ℕ → Kernel → Kernel
v s k =
    let sem = k.semaphores s in
    elim sem.queue [
      | [] ↦ set_semaphore s (record { value = sem.value + 1; queue = [] }) k
      | t ∷ rest ↦
          set_semaphore s (record { value = sem.value + 1; queue = rest }) (ready_to_run t k)
    ]

-- The current thread is outside these functions.
pub record Free (k : Kernel) : Type 0 where
  pub awake : k.idling ≡ false
  pub place : (k.threads k.current).place ≡ outside

pub data Event : Type 0 where
  passed posted : ℕ → Event
  other : Event

-- What may happen next.
pub data Step (k : Kernel) : Event → Kernel → Type 0 where
  enter_pass : (s : ℕ) (n : ℕ) → Free k → (k.semaphores s).value ≡ suc n → Step k (passed s) (p s k)
  enter_wait : (s : ℕ) → Free k → (k.semaphores s).value ≡ 0 → Step k other (p s k)
  again_pass :
      (s : ℕ) (n : ℕ)
      → k.idling ≡ false
      → (k.threads k.current).place ≡ in_p s
      → (k.semaphores s).value ≡ suc n
      → Step k (passed s) (p s k)
  again_wait :
      (s : ℕ)
      → k.idling ≡ false
      → (k.threads k.current).place ≡ in_p s
      → (k.semaphores s).value ≡ 0
      → Step k other (p s k)
  post : (s : ℕ) → Free k → Step k (posted s) (v s k)
  handler_post : (s : ℕ) → k.idling ≡ true → Step k (posted s) (v s k)
  give_way : Free k → Step k other (yield k)
  start :
      (t : ℕ)
      → Free k
      → (k.threads t).status ≡ just_created
      → (k.threads t).place ≡ outside
      → Step k other (fork t k)
  end : Free k → Step k other (finish k)
  wake : k.idling ≡ true → Step k other (dispatch k)
