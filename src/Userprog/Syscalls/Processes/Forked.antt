-- ===== src/Userprog/Syscalls/Processes/Forked.antt =====
-- What the P, the V and the Fork of Exec in userprog/exception.cc do to the kernel.
use cmps.Prelude.{ℕ, ◌+◌, ◌<◌, ◌≡◌, ◌≢◌, refl, ◌∙◌, false, List, [], ◌∷◌, ◌++◌, arith, ◌==◌}
use cmps.Threads.Kernel.{Kernel, ready, p, v, fork}

-- The thread `t` is ready, the last of the ready list, the semaphore `mutex` has `value`, and the current
-- thread and the other semaphores are as before.
pub record Forked (mutex value t : ℕ) (k k' : Kernel) : Type 0 where
  pub counted : (k'.semaphores mutex).value ≡ value
  pub others : (s : ℕ) → mutex ≢ s → k'.semaphores s ≡ k.semaphores s
  pub status : (k'.threads t).status ≡ ready
  pub current : k'.current ≡ k.current
  pub before : List ℕ
  pub last : k'.ready_list ≡ before ++ t ∷ []

posted :
    (mutex t : ℕ) (k : Kernel) (queue : List ℕ)
    → (k.semaphores mutex).queue ≡ queue
    → Forked mutex ((k.semaphores mutex).value + 1) t k (fork t (v mutex k))
unfolding fork v
posted mutex t k [] none_waits =
    rw (none_waits, v)
      (record {
        counted = ground arith;
        others = λ s away. ground (arith, away);
        status = ground arith;
        current = refl;
        before = k.ready_list;
        last = refl;
      })
posted mutex t k (x ∷ rest) waits =
    rw (waits, v)
      (record {
        counted = ground arith;
        others = λ s away. ground (arith, away);
        status = ground arith;
        current = refl;
        before = k.ready_list ++ x ∷ [];
        last = refl;
      })

pub fork-v-p :
    (mutex t : ℕ) (k : Kernel)
    → 0 < (k.semaphores mutex).value
    → Forked mutex (k.semaphores mutex).value t k (fork t (v mutex (p mutex k)))
unfolding p
fork-v-p mutex t k free =
    let more : ((k.semaphores mutex).value == 0) ≡ false = ground (arith, free) in
    let f = posted mutex t (p mutex k) _ refl in
    record {
      counted = f.counted ∙ rw more (ground (arith, free));
      others = λ s away. f.others s away ∙ rw more (ground (arith, away));
      status = f.status;
      current = f.current ∙ rw more refl;
      before = f.before;
      last = f.last;
    }
