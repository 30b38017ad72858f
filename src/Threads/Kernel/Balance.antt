-- ===== src/Threads/Kernel/Balance.antt =====
-- What P and V of threads/synch.cc do together, over any sequence of steps.
use cmps.Prelude.{
  ℕ, suc, ◌+◌, ◌≤◌, ◌≡◌, ◌⊎◌, inl, inr, refl, ap, List, [], ◌∷◌, Option, none, some, arith, ◌==◌,
}
use native.Mathlib.Decide.{ℕ_discrete}
use cmps.Threads.Kernel.{
  Kernel, Semaphore, in_p, blocked, set_status, dispatch, fork, yield, finish, p, v, Event, passed,
  posted, other, Step, enter_pass, enter_wait, again_pass, again_wait, post, handler_post, give_way,
  start, end, wake,
}
use cmps.Threads.Kernel.Order.{In, is_in_p-place, one_if, retrying, retrying-found}
use cmps.Threads.Kernel.Inv.{IsSound, running_thread, retrying_on}
use cmps.Threads.Kernel.Steps.{Run, nothing, next, boot, Run-IsSound}

-- The calls of P that have returned.
abbrev pub passes : ℕ → List Event → ℕ
passes s [] = 0
passes s (passed r ∷ es) = one_if (s == r) + passes s es
passes s (posted r ∷ es) = passes s es
passes s (other ∷ es) = passes s es

-- The calls of V.
abbrev pub posts : ℕ → List Event → ℕ
posts s [] = 0
posts s (passed r ∷ es) = posts s es
posts s (posted r ∷ es) = one_if (s == r) + posts s es
posts s (other ∷ es) = posts s es

dispatch-semaphores : (k : Kernel) → (dispatch k).semaphores ≡ k.semaphores
dispatch-semaphores k = ground arith

yield-semaphores : (k : Kernel) → (yield k).semaphores ≡ k.semaphores
unfolding yield
yield-semaphores k = ground arith

p-value_pass :
    (k : Kernel) (s n r : ℕ)
    → (k.semaphores s).value ≡ suc n
    → ((p s k).semaphores r).value + one_if (r == s) ≡ (k.semaphores r).value
unfolding p
p-value_pass k s n r e = ground (arith, e)

p-value_wait :
    (k : Kernel) (s r : ℕ)
    → (k.semaphores s).value ≡ 0
    → ((p s k).semaphores r).value ≡ (k.semaphores r).value
unfolding p
p-value_wait k s r e = ground (arith, e)

v-value :
    (k : Kernel) (s r : ℕ) → ((v s k).semaphores r).value ≡ (k.semaphores r).value + one_if (r == s)
unfolding v
v-value k s r = ground arith

Step-value :
    (s : ℕ) (k k' : Kernel) (e : Event)
    → Step k e k'
    → (k'.semaphores s).value + passes s (e ∷ []) ≡ (k.semaphores s).value + posts s (e ∷ [])
unfolding fork finish
Step-value s k k' e (enter_pass r n f o) = omega (arith, p-value_pass k r n s o)
Step-value s k k' e (enter_wait r f o) = omega (arith, p-value_wait k r s o)
Step-value s k k' e (again_pass r n a q o) = omega (arith, p-value_pass k r n s o)
Step-value s k k' e (again_wait r a q o) = omega (arith, p-value_wait k r s o)
Step-value s k k' e (post r f) = omega (arith, v-value k r s)
Step-value s k k' e (handler_post r a) = omega (arith, v-value k r s)
Step-value s k k' e (give_way f) = ap (λ (z : ℕ → Semaphore). (z s).value + 0) (yield-semaphores k)
Step-value s k k' e (start t f fresh q) = refl
Step-value s k k' e (end f) =
    ap (λ (z : ℕ → Semaphore). (z s).value + 0)
      (dispatch-semaphores
        (set_status k.current blocked (record k { to_be_destroyed = some k.current })))
Step-value s k k' e (wake a) = ap (λ (z : ℕ → Semaphore). (z s).value + 0) (dispatch-semaphores k)

passes-cons :
    (s : ℕ) (e : Event) (es : List Event) → passes s (e ∷ es) ≡ passes s (e ∷ []) + passes s es
passes-cons s (passed r) es = omega arith
passes-cons s (posted r) es = omega arith
passes-cons s other es = omega arith

posts-cons :
    (s : ℕ) (e : Event) (es : List Event) → posts s (e ∷ es) ≡ posts s (e ∷ []) + posts s es
posts-cons s (passed r) es = omega arith
posts-cons s (posted r) es = omega arith
posts-cons s other es = omega arith

-- In any run of the kernel from its start, the value of a semaphore and the number of calls of P on it
-- that have returned are together its first value and the number of calls of V on it.
pub Run-balance :
    (values : ℕ → ℕ) (s : ℕ) (es : List Event) (k : Kernel)
    → Run (boot values) es k
    → (k.semaphores s).value + passes s es ≡ values s + posts s es
unfolding boot
Run-balance values s es k nothing = refl
Run-balance values s es k (next {es = es'} {k' = k'} {e = e} r step) = omega (
  arith,
  Step-value s k' k e step,
  Run-balance values s es' k' r,
  passes-cons s e es',
  posts-cons s e es',
)

-- In any run of the kernel from its start, while a thread waits in the queue of a semaphore whose
-- value is not 0, another thread is inside P of this semaphore and on its way to test the value again:
-- it is on the ready list, or it runs.
pub waits-another_retries :
    (values : ℕ → ℕ) (s t : ℕ) (es : List Event) (k : Kernel)
    → Run (boot values) es k
    → In t (k.semaphores s).queue
    → 1 ≤ (k.semaphores s).value
    → (u : ℕ) × ((k.threads u).place ≡ in_p s) × (In u k.ready_list ⊎ (running_thread k ≡ some u))
waits-another_retries values s t es k r m h =
    let i : IsSound k = Run-IsSound values es k r in
    elim (ℕ_discrete (retrying s k.threads k.ready_list) 0) [
      | yes none_ready ↦ on_cpu (running_thread k) refl (omega (arith, i.no_lost s t m, none_ready))
      | no some_ready ↦
          let (u, m', q) = retrying-found s k.threads k.ready_list (omega (arith, some_ready)) in
          (u, q, inl m')
    ]
  where
    on_cpu :
        (on : Option ℕ)
        → running_thread k ≡ on
        → 1 ≤ retrying_on s (running_thread k) k
        → (u : ℕ) × ((k.threads u).place ≡ in_p s)
          × (In u k.ready_list ⊎ (running_thread k ≡ some u))
    on_cpu none e h' = absurd (ground (arith, e, h'))
    on_cpu (some u) e h' = (u, is_in_p-place s (k.threads u).place (ground (arith, e, h')), inr e)
