-- ===== src/Threads/Kernel/Inv.antt =====
-- What always holds of the threads, the ready list and the semaphores of threads/thread.cc,
-- threads/scheduler.cc and threads/synch.cc.
use cmps.Prelude.{ℕ, ◌+◌, ◌≤◌, ◌≡◌, Option, none, some, if◌then◌else◌}
use cmps.Threads.LinkedList.Chain.{NoDup}
use cmps.Threads.Kernel.{Kernel, outside, in_p, running, ready, blocked}
use cmps.Threads.Kernel.Order.{In, one_if, is_in_p, retrying}

-- The thread that has the processor, if one has, may be about to try the test of P again.
abbrev pub retrying_on : ℕ → Option ℕ → Kernel → ℕ
retrying_on s none k = 0
retrying_on s (some t) k = one_if (is_in_p s (k.threads t).place)

-- `on` is the thread that has the processor.
pub record Inv (on : Option ℕ) (k : Kernel) : Type 0 where
  pub runs : (t : ℕ) → on ≡ some t → (k.threads t).status ≡ running
  pub only : (t : ℕ) → (k.threads t).status ≡ running → on ≡ some t
  pub ready_status : (t : ℕ) → In t k.ready_list → (k.threads t).status ≡ ready
  pub ready_all : (t : ℕ) → (k.threads t).status ≡ ready → In t k.ready_list
  pub ready_once : NoDup k.ready_list
  pub queue_status :
      (s t : ℕ)
      → In t (k.semaphores s).queue
      → ((k.threads t).status ≡ blocked) × ((k.threads t).place ≡ in_p s)
  pub queue_all :
      (s t : ℕ)
      → (k.threads t).status ≡ blocked
      → (k.threads t).place ≡ in_p s
      → In t (k.semaphores s).queue
  pub queue_once : (s : ℕ) → NoDup (k.semaphores s).queue
  -- While a thread waits, each unit of the value belongs to a thread that has been woken.
  pub no_lost :
      (s t : ℕ)
      → In t (k.semaphores s).queue
      → (k.semaphores s).value ≤ retrying s k.threads k.ready_list + retrying_on s on k
  pub ended :
      (t : ℕ)
      → k.to_be_destroyed ≡ some t
      → ((k.threads t).status ≡ blocked) × ((k.threads t).place ≡ outside)

abbrev pub running_thread : Kernel → Option ℕ
running_thread k = if k.idling then none else some k.current

-- The invariant of a kernel.
abbrev pub IsSound : Kernel → Type 0
IsSound k = Inv (running_thread k) k
