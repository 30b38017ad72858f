-- ===== src/Threads/Kernel/Moves.antt =====
-- How the functions of threads/thread.cc, threads/scheduler.cc and threads/synch.cc change the
-- threads, the ready list and the semaphores.
use cmps.Prelude.{
  ℕ, suc, ◌-◌, ◌≡◌, ◌≢◌, ◌⊎◌, inl, inr, refl, sym, subst, List, [], ◌∷◌, ◌++◌, none, some, arith,
}
use native.Mathlib.Decide.{ℕ_discrete}
use cmps.Threads.LinkedList.Chain.{NoDup, NoDup-snoc}
use cmps.Threads.Kernel.{
  Kernel, Thread, Semaphore, ThreadStatus, outside, in_p, ready, blocked, put, set_status,
  set_place, set_semaphore, ready_to_run,
}
use cmps.Threads.Kernel.Order.{
  In, In-snoc, snoc_old, snoc_last, Absent-of_In, retrying, retrying-snoc, retrying-same, put_here,
  put_away,
}
use cmps.Threads.Kernel.Inv.{Inv}

-- A thread that does not stand in the list keeps the number of those that try again.
retrying-put :
    (s c : ℕ) (new : Thread) (threads : ℕ → Thread) (ts : List ℕ)
    → ((t : ℕ) → In t ts → t ≢ c)
    → retrying s (put c new threads) ts ≡ retrying s threads ts
retrying-put s c new threads ts away =
    retrying-same s threads (put c new threads) ts (λ t m. ground (arith, away t m))

-- Nor does a change of a status.
pub retrying-status :
    (s c : ℕ) (st : ThreadStatus) (k : Kernel) (ts : List ℕ)
    → retrying s (set_status c st k).threads ts ≡ retrying s k.threads ts
retrying-status s c st k ts =
    retrying-same s k.threads (set_status c st k).threads ts (λ t m. ground arith)

module _ (k : Kernel) (c : ℕ) (i : Inv (some c) k) where
  -- The thread that runs is not ready, and waits for nothing.
  not_ready : (t : ℕ) → In t k.ready_list → t ≢ c
  not_ready t m e = ground (arith, i.ready_status t m, i.runs c refl)

  not_queued : (s t : ℕ) → In t (k.semaphores s).queue → t ≢ c
  not_queued s t m e = ground (arith, (i.queue_status s t m).0, i.runs c refl)

  not_ended : (t : ℕ) → k.to_be_destroyed ≡ some t → t ≢ c
  not_ended t d e = ground (arith, (i.ended t d).0, i.runs c refl)

  -- It gives up the processor and is ready.
  pub ready_to_run-Inv : Inv none (ready_to_run c k)
  ready_to_run-Inv = record {
    runs = λ t e. absurd (ground (arith, e));
    only = λ t e. absurd (ground (arith, e, i.only t));
    ready_status = λ t m. elim (In-snoc t c k.ready_list m) [
      | inl old ↦ ground (arith, i.ready_status t old)
      | inr e ↦ ground (arith, e)
    ];
    ready_all = λ t e. elim (ℕ_discrete t c) [
      | yes here ↦ snoc_last t c k.ready_list here
      | no away ↦ snoc_old t c k.ready_list (i.ready_all t (ground (arith, e, away)))
    ];
    ready_once = NoDup-snoc c k.ready_list i.ready_once (Absent-of_In c k.ready_list not_ready);
    queue_status = λ s t m. ground (arith, i.queue_status s t m, not_queued s t m);
    queue_all = λ s t b p. i.queue_all s t (ground (arith, b)) (ground (arith, p));
    queue_once = i.queue_once;
    no_lost = λ s t m. omega (
      arith,
      i.no_lost s t m,
      retrying-status s c ready k (k.ready_list ++ c ∷ []),
      retrying-snoc s k.threads c k.ready_list,
    );
    ended = λ t d. ground (arith, i.ended t d, not_ended t d);
  }

  -- The test of P fails: the thread waits on the semaphore.
  module _ (s : ℕ) (none_left : (k.semaphores s).value ≡ 0)
      (place : ((k.threads c).place ≡ outside) ⊎ ((k.threads c).place ≡ in_p s)) where
    abbrev queued : Semaphore
    queued = record (k.semaphores s) { queue = (k.semaphores s).queue ++ c ∷ [] }

    abbrev waiting : Kernel
    waiting = set_status c blocked (set_place c (in_p s) (set_semaphore s queued k))

    waiting-retrying :
        (r : ℕ) → retrying r waiting.threads k.ready_list ≡ retrying r k.threads k.ready_list
    waiting-retrying r =
        retrying-same r k.threads waiting.threads k.ready_list
          (λ t m. ground (arith, not_ready t m))

    pub wait-Inv : Inv none waiting
    wait-Inv = record {
      runs = λ t e. absurd (ground (arith, e));
      only = λ t e. absurd (ground (arith, e, i.only t));
      ready_status = λ t m. ground (arith, i.ready_status t m, not_ready t m);
      ready_all = λ t e. i.ready_all t (ground (arith, e));
      ready_once = i.ready_once;
      queue_status = λ r t m. elim (ℕ_discrete s r) [
        | yes here ↦
            elim (In-snoc t c (k.semaphores s).queue
              (subst (λ (z : Semaphore). In t z.queue) (put_here s r queued k.semaphores here) m)) [
                | inl old ↦ ground (arith, here, i.queue_status s t old, not_queued s t old)
                | inr e ↦ ground (arith, here, e)
              ]
        | no away ↦
            let old : In t (k.semaphores r).queue =
              subst (λ (z : Semaphore). In t z.queue) (put_away s r queued k.semaphores away) m in
            ground (arith, i.queue_status r t old, not_queued r t old)
      ];
      queue_all = λ r t b p. elim (ℕ_discrete s r) [
        | yes here ↦
            subst (λ (z : Semaphore). In t z.queue) (sym (put_here s r queued k.semaphores here))
              (elim (ℕ_discrete t c) [
                | yes e ↦ snoc_last t c (k.semaphores s).queue e
                | no other ↦
                    snoc_old t c (k.semaphores s).queue
                      (i.queue_all s t (ground (arith, b, other)) (ground (arith, p, other, here)))
              ])
        | no away ↦
            subst (λ (z : Semaphore). In t z.queue) (sym (put_away s r queued k.semaphores away))
              (i.queue_all r t (ground (arith, b, p, away)) (ground (arith, p, away)))
      ];
      queue_once = λ r. elim (ℕ_discrete s r) [
        | yes here ↦
            subst (λ (z : Semaphore). NoDup z.queue) (sym (put_here s r queued k.semaphores here))
              (NoDup-snoc c (k.semaphores s).queue (i.queue_once s)
                (Absent-of_In c (k.semaphores s).queue (not_queued s)))
        | no away ↦
            subst (λ (z : Semaphore). NoDup z.queue) (sym (put_away s r queued k.semaphores away))
              (i.queue_once r)
      ];
      no_lost = λ r t m. elim (ℕ_discrete s r) [
        | yes here ↦ ground (arith, here, none_left)
        | no away ↦
            let old : In t (k.semaphores r).queue =
              subst (λ (z : Semaphore). In t z.queue) (put_away s r queued k.semaphores away) m in
            ground (arith, away, i.no_lost r t old, waiting-retrying r, place)
      ];
      ended = λ t d. ground (arith, i.ended t d, not_ended t d);
    }

  -- The test of P succeeds.
  module _ (s n : ℕ) (some_left : (k.semaphores s).value ≡ suc n)
      (place : ((k.threads c).place ≡ outside) ⊎ ((k.threads c).place ≡ in_p s)) where
    abbrev taken : Semaphore
    taken = record (k.semaphores s) { value = (k.semaphores s).value - 1 }

    abbrev pub passing : Kernel
    passing = set_place c outside (set_semaphore s taken k)

    passing-queue : (r : ℕ) → (passing.semaphores r).queue ≡ (k.semaphores r).queue
    passing-queue r = ground arith

    passing-retrying :
        (r : ℕ) → retrying r passing.threads k.ready_list ≡ retrying r k.threads k.ready_list
    passing-retrying r =
        retrying-same r k.threads passing.threads k.ready_list
          (λ t m. ground (arith, not_ready t m))

    pub pass-Inv : Inv (some c) passing
    pass-Inv = record {
      runs = λ t e. ground (arith, e, i.runs t);
      only = λ t e. i.only t (ground (arith, e));
      ready_status = λ t m. ground (arith, i.ready_status t m);
      ready_all = λ t e. i.ready_all t (ground (arith, e));
      ready_once = i.ready_once;
      queue_status = λ r t m.
          let old : In t (k.semaphores r).queue = subst (In t) (passing-queue r) m in
          ground (arith, i.queue_status r t old, not_queued r t old);
      queue_all = λ r t b p.
          subst (In t) (sym (passing-queue r))
            (i.queue_all r t (ground (arith, b)) (ground (arith, p)));
      queue_once = λ r. subst NoDup (sym (passing-queue r)) (i.queue_once r);
      no_lost = λ r t m. ground (
        arith,
        i.no_lost r t (subst (In t) (passing-queue r) m),
        passing-retrying r,
        place,
        some_left,
      );
      ended = λ t d. ground (arith, i.ended t d, not_ended t d);
    }

  -- The thread ends.
  pub finish-Inv :
      (k.threads c).place ≡ outside
      → Inv none (set_status c blocked (record k { to_be_destroyed = some c }))
  finish-Inv place = record {
    runs = λ t e. absurd (ground (arith, e));
    only = λ t e. absurd (ground (arith, e, i.only t));
    ready_status = λ t m. ground (arith, i.ready_status t m, not_ready t m);
    ready_all = λ t e. i.ready_all t (ground (arith, e));
    ready_once = i.ready_once;
    queue_status = λ s t m. ground (arith, i.queue_status s t m);
    queue_all = λ s t b p. i.queue_all s t (ground (arith, b, p, place)) (ground (arith, p));
    queue_once = i.queue_once;
    no_lost =
        λ s t m. ground (arith, i.no_lost s t m, retrying-status s c blocked k k.ready_list, place);
    ended = λ t d. ground (arith, d, place);
  }
