-- ===== src/Threads/Kernel/Steps.antt =====
-- The steps of threads/thread.cc, threads/scheduler.cc and threads/synch.cc, and sequences of them.
use cmps.Prelude.{
  ℕ, suc, ◌≡◌, ◌⊎◌, inl, inr, refl, ap, sym, subst, true, false, List, [], ◌∷◌, ◌++◌, none, some,
  arith, ◌==◌, if◌then◌else◌,
}
use cmps.Threads.Kernel.{
  Kernel, outside, in_p, running, ready_to_run, dispatch, fork, yield, finish, p, v, Event, Step,
  enter_pass, enter_wait, again_pass, again_wait, post, handler_post, give_way, start, end, wake,
  just_created,
}
use cmps.Threads.Kernel.Inv.{Inv, IsSound, running_thread}
use cmps.Threads.Kernel.Moves.{passing, ready_to_run-Inv, wait-Inv, pass-Inv, finish-Inv}
use cmps.Threads.Kernel.Wakes.{run-Inv, v-Inv, fork-Inv}

idle-Inv : (k : Kernel) → Inv none k → Inv none (record k { idling = true })
idle-Inv k i = record {
  runs = i.runs;
  only = i.only;
  ready_status = i.ready_status;
  ready_all = i.ready_all;
  ready_once = i.ready_once;
  queue_status = i.queue_status;
  queue_all = i.queue_all;
  queue_once = i.queue_once;
  no_lost = i.no_lost;
  ended = i.ended;
}

-- After FindNextToRun and Run the invariant holds again.
pub dispatch-IsSound : (k : Kernel) → Inv none k → IsSound (dispatch k)
dispatch-IsSound k i = by_list k.ready_list refl
  where
    by_list : (ts : List ℕ) → k.ready_list ≡ ts → IsSound (dispatch k)
    by_list [] e = subst IsSound (ground (arith, e)) (idle-Inv k i)
    by_list (next ∷ rest) e = subst IsSound (ground (arith, e)) (run-Inv k next rest i e)

awake-Inv : (k : Kernel) → IsSound k → k.idling ≡ false → Inv (some k.current) k
awake-Inv k i e = subst (λ o. Inv o k) (ground (arith, e)) i

asleep-Inv : (k : Kernel) → IsSound k → k.idling ≡ true → Inv none k
asleep-Inv k i e = subst (λ o. Inv o k) (ground (arith, e)) i

module _ (k : Kernel) (i : IsSound k) (awake : k.idling ≡ false) (s : ℕ) where
  p-passes :
      (n : ℕ)
      → (k.semaphores s).value ≡ suc n
      → ((k.threads k.current).place ≡ outside) ⊎ ((k.threads k.current).place ≡ in_p s)
      → IsSound (p s k)
  unfolding p
  p-passes n some_left place = subst IsSound (ground (arith, some_left)) (
      subst (λ o. Inv o (passing k k.current (awake-Inv k i awake) s n some_left place))
        (ground (arith, awake)) (pass-Inv k k.current (awake-Inv k i awake) s n some_left place))

  p-waits :
      (k.semaphores s).value ≡ 0
      → ((k.threads k.current).place ≡ outside) ⊎ ((k.threads k.current).place ≡ in_p s)
      → IsSound (p s k)
  unfolding p
  p-waits none_left place =
      subst IsSound (ground (arith, none_left))
        (dispatch-IsSound _ (wait-Inv k k.current (awake-Inv k i awake) s none_left place))

yield-IsSound : (k : Kernel) → IsSound k → k.idling ≡ false → IsSound (yield k)
unfolding yield
yield-IsSound k i awake = by_list k.ready_list refl
  where
    by_list : (ts : List ℕ) → k.ready_list ≡ ts → IsSound (yield k)
    by_list [] e = subst IsSound (unfold yield in ground (arith, e)) i
    by_list (next ∷ rest) e = subst IsSound (unfold yield in ground (arith, e)) (
        run-Inv (ready_to_run k.current k) next (rest ++ k.current ∷ [])
          (ready_to_run-Inv k k.current (awake-Inv k i awake)) (ap (λ ts. ts ++ k.current ∷ []) e))

v-IsSound : (k : Kernel) (s : ℕ) → IsSound k → IsSound (v s k)
v-IsSound k s i = subst (λ o. Inv o (v s k)) (sym same) (v-Inv k (running_thread k) i s)
  where
    same : running_thread (v s k) ≡ running_thread k
    same = unfold v in ground arith

-- Every step keeps the invariant.
pub Step-IsSound : (k k' : Kernel) (e : Event) → Step k e k' → IsSound k → IsSound k'
unfolding fork finish
Step-IsSound k k' e (enter_pass s n f o) i = p-passes k i f.awake s n o (inl f.place)
Step-IsSound k k' e (enter_wait s f o) i = p-waits k i f.awake s o (inl f.place)
Step-IsSound k k' e (again_pass s n a q o) i = p-passes k i a s n o (inr q)
Step-IsSound k k' e (again_wait s a q o) i = p-waits k i a s o (inr q)
Step-IsSound k k' e (post s f) i = v-IsSound k s i
Step-IsSound k k' e (handler_post s a) i = v-IsSound k s i
Step-IsSound k k' e (give_way f) i = yield-IsSound k i f.awake
Step-IsSound k k' e (start t f fresh q) i = fork-Inv k _ i t fresh q
Step-IsSound k k' e (end f) i =
    dispatch-IsSound _ (finish-Inv k k.current (awake-Inv k i f.awake) f.place)
Step-IsSound k k' e (wake a) i = dispatch-IsSound k (asleep-Inv k i a)

-- A sequence of steps, with what happened in it, the last first.
pub data Run (k : Kernel) : List Event → Kernel → Type 0 where
  nothing : Run k [] k
  next :
      {es : List Event} {k' : Kernel} {e : Event} {k'' : Kernel}
      → Run k es k'
      → Step k' e k''
      → Run k (e ∷ es) k''

-- The kernel at its start: the main thread runs, each semaphore has its first value, and nothing else has begun.
unfoldable pub boot : (ℕ → ℕ) → Kernel
boot values = record {
  threads = λ t. record {
    status = if t == 0 then running else just_created;
    place = outside;
    started = t == 0;
  };
  semaphores = λ s. record { value = values s; queue = [] };
  current = 0;
  ready_list = [];
  idling = false;
  to_be_destroyed = none;
}

pub boot-IsSound : (values : ℕ → ℕ) → IsSound (boot values)
unfolding boot
boot-IsSound values = record {
  runs = λ t e. ground (arith, e);
  only = λ t e. ground (arith, e);
  ready_status = λ t m. absurd m;
  ready_all = λ t e. absurd (ground (arith, e));
  ready_once = tt;
  queue_status = λ s t m. absurd m;
  queue_all = λ s t e q. absurd (ground (arith, e));
  queue_once = λ s. tt;
  no_lost = λ s t m. absurd m;
  ended = λ t e. absurd (ground (arith, e));
}

-- In any run of the kernel from its start, whatever its threads and handlers call: the thread that has
-- the processor, if one has, and no other, is RUNNING; the ready list holds the READY threads, each
-- once; the queue of a semaphore holds the threads that are BLOCKED inside P of it, each once; while a
-- thread waits there, the value is at most the number of threads that are on their way to test it
-- again; and a thread that is to be deleted is BLOCKED and in no call of P.
pub Run-IsSound :
    (values : ℕ → ℕ) (es : List Event) (k : Kernel) → Run (boot values) es k → IsSound k
Run-IsSound values es k nothing = boot-IsSound values
Run-IsSound values es k (next r s) = Step-IsSound _ k _ s (Run-IsSound values _ _ r)
