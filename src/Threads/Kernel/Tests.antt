-- ===== src/Threads/Kernel/Tests.antt =====
-- A run of threads/thread.cc, threads/scheduler.cc and threads/synch.cc: two threads and a semaphore.
use cmps.Prelude.{ℕ, ◌≡◌, ◌+◌, ◌⊎◌, inl, refl, List, [], ◌∷◌, arith, some}
use cmps.Threads.Kernel.{
  Kernel, in_p, fork, p, v, Event, passed, posted, other, enter_pass, enter_wait, post, start,
}
use cmps.Threads.Kernel.Order.{In}
use cmps.Threads.Kernel.Inv.{IsSound, running_thread}
use cmps.Threads.Kernel.Steps.{Run, nothing, next, boot, Run-IsSound}
use cmps.Threads.Kernel.Balance.{Run-balance, waits-another_retries}

-- The value of semaphore 0 is one at first.
abbrev one : ℕ → ℕ
one s = 1

-- Thread 0 forks threads 1 and 2, passes P, and waits at its second call. Thread 1 waits as well, and
-- thread 2 calls V.
abbrev forked : Kernel
forked = fork 2 (fork 1 (boot one))

abbrev passed_once : Kernel
passed_once = p 0 forked

abbrev main_waits : Kernel
main_waits = p 0 passed_once

abbrev first_waits : Kernel
first_waits = p 0 main_waits

abbrev called_v : Kernel
called_v = v 0 first_waits

abbrev history : List Event
history = posted 0 ∷ other ∷ other ∷ passed 0 ∷ other ∷ other ∷ []

Run-of_v : Run (boot one) history called_v
unfolding boot fork p v
Run-of_v =
    next
      (next
        (next
          (next
            (next (next nothing (start 1 (record { awake = refl; place = refl }) refl refl))
              (start 2 (record { awake = refl; place = refl }) refl refl))
            (enter_pass 0 0 (record { awake = refl; place = refl }) refl))
          (enter_wait 0 (record { awake = refl; place = refl }) refl))
        (enter_wait 0 (record { awake = refl; place = refl }) refl))
      (post 0 (record { awake = refl; place = refl }))

Run-IsSound_example : IsSound called_v
Run-IsSound_example = Run-IsSound one history called_v Run-of_v

Run-balance_example : (called_v.semaphores 0).value + 1 ≡ 2
Run-balance_example = Run-balance one 0 history called_v Run-of_v

waits-another_retries_example :
    (u : ℕ) × ((called_v.threads u).place ≡ in_p 0)
    × (In u called_v.ready_list ⊎ (running_thread called_v ≡ some u))
unfolding boot fork p v
waits-another_retries_example =
    waits-another_retries one 0 1 history called_v Run-of_v (inl refl) (omega arith)
