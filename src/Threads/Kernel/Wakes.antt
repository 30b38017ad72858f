-- ===== src/Threads/Kernel/Wakes.antt =====
-- The threads that threads/scheduler.cc and threads/synch.cc make ready, and the one that gets the
-- processor.
use cmps.Prelude.{
  ℕ, ◌+◌, ◌≡◌, ◌≢◌, inl, inr, refl, ap, sym, subst, ◌∙◌, List, [], ◌∷◌, ◌++◌, Option, none, some,
  arith, Absent, Option-cases,
}
use native.Mathlib.Decide.{ℕ_discrete}
use cmps.Threads.LinkedList.Chain.{NoDup, NoDup-snoc}
use cmps.Threads.Kernel.{
  Kernel, Semaphore, outside, in_p, just_created, ready, blocked, set_semaphore, ready_to_run, run,
  v,
}
use cmps.Threads.Kernel.Order.{
  In, In-snoc, snoc_old, snoc_last, Absent-of_In, In-Absent, is_in_p, one_if, retrying,
  retrying-snoc, retrying-cons, retrying-same, put_here, put_away,
}
use cmps.Threads.Kernel.Inv.{Inv, retrying_on}
use cmps.Threads.Kernel.Moves.{retrying-status}

In-tail : (t c : ℕ) (xs : List ℕ) → In t (c ∷ xs) → t ≢ c → In t xs
In-tail t c xs (inl e) ne = absurd (ne e)
In-tail t c xs (inr m) ne = m

-- The first ready thread gets the processor.
module _ (k : Kernel) (next : ℕ) (rest : List ℕ) (i : Inv none k)
    (same : k.ready_list ≡ next ∷ rest) where
  old : (t : ℕ) → In t rest → In t k.ready_list
  old t m = subst (In t) (sym same) (inr m)

  next_ready : (k.threads next).status ≡ ready
  next_ready = i.ready_status next (subst (In next) (sym same) (inl refl))

  once : Absent next rest × NoDup rest
  once = subst NoDup same i.ready_once

  abbrev started : Kernel
  started = run next (record k { ready_list = rest })

  started-retrying : (s : ℕ) → retrying s started.threads rest ≡ retrying s k.threads rest
  started-retrying s = retrying-same s k.threads started.threads rest (λ t m. ground arith)

  split :
      (s : ℕ)
      → retrying s k.threads k.ready_list
        ≡ one_if (is_in_p s (k.threads next).place) + retrying s k.threads rest
  split s = ap (retrying s k.threads) same ∙ retrying-cons s k.threads next rest

  pub run-Inv : Inv (some next) (run next (record k { ready_list = rest }))
  run-Inv = record {
    runs = λ t e. ground (arith, e);
    only = λ t e. elim (ℕ_discrete next t) [
      | yes here ↦ ground (arith, here)
      | no away ↦ absurd (ground (arith, i.only t (ground (arith, e, away))))
    ];
    ready_status =
        λ t m. ground (arith, i.ready_status t (old t m), In-Absent t next rest once.0 m);
    ready_all = λ t e. elim (ℕ_discrete t next) [
      | yes here ↦ absurd (ground (arith, e, here))
      | no away ↦
          In-tail t next rest (subst (In t) same (i.ready_all t (ground (arith, e, away)))) away
    ];
    ready_once = once.1;
    queue_status = λ s t m. ground (arith, i.queue_status s t m, next_ready);
    queue_all = λ s t b p. i.queue_all s t (ground (arith, b)) (ground (arith, p));
    queue_once = i.queue_once;
    no_lost = λ s t m. ground (arith, i.no_lost s t m, split s, started-retrying s);
    ended = λ t d. ground (arith, i.ended t, d, next_ready);
  }

-- V, whether a thread runs or the machine idles.
module _ (k : Kernel) (on : Option ℕ) (i : Inv on k) (s : ℕ) where
  -- No thread waits.
  abbrev raised : Kernel
  raised = set_semaphore s (record { value = (k.semaphores s).value + 1; queue = [] }) k

  raised-queue :
      (k.semaphores s).queue ≡ [] → (r : ℕ) → (raised.semaphores r).queue ≡ (k.semaphores r).queue
  raised-queue nobody r = ground (arith, nobody)

  raised-Inv : (k.semaphores s).queue ≡ [] → Inv on raised
  raised-Inv nobody = record {
    runs = i.runs;
    only = i.only;
    ready_status = i.ready_status;
    ready_all = i.ready_all;
    ready_once = i.ready_once;
    queue_status = λ r t m. i.queue_status r t (subst (In t) (raised-queue nobody r) m);
    queue_all = λ r t b p. subst (In t) (sym (raised-queue nobody r)) (i.queue_all r t b p);
    queue_once = λ r. subst NoDup (sym (raised-queue nobody r)) (i.queue_once r);
    no_lost = λ r t m. elim (ℕ_discrete s r) [
      | yes here ↦ absurd (
          subst (In t)
            (ap (λ (z : Semaphore). z.queue)
              (put_here s r (record { value = (k.semaphores s).value + 1; queue = [] }) k.semaphores
                here))
            m)
      | no away ↦
          ground (arith, away, i.no_lost r t (subst (In t) (raised-queue nobody r) m), keeps r)
    ];
    ended = i.ended;
  }
    where
      keeps : (r : ℕ) → retrying_on r on raised ≡ retrying_on r on k
      keeps r = elim (Option-cases on) [
        | inl e ↦ ground (arith, e)
        | inr (t, e) ↦ ground (arith, e)
      ]

  -- The first thread that waits is woken.
  module _ (first : ℕ) (rest : List ℕ) (waits : (k.semaphores s).queue ≡ first ∷ rest) where
    abbrev popped : Semaphore
    popped = record { value = (k.semaphores s).value + 1; queue = rest }

    abbrev woken : Kernel
    woken = set_semaphore s popped (ready_to_run first k)

    first_waits : ((k.threads first).status ≡ blocked) × ((k.threads first).place ≡ in_p s)
    first_waits = i.queue_status s first (subst (In first) (sym waits) (inl refl))

    queue_rest : Absent first rest × NoDup rest
    queue_rest = subst NoDup waits (i.queue_once s)

    In-woken_before :
        (r t : ℕ) → In t (woken.semaphores r).queue → In t (k.semaphores r).queue × (t ≢ first)
    In-woken_before r t m = elim (ℕ_discrete s r) [
      | yes here ↦
          let m' : In t rest =
            subst (λ (z : Semaphore). In t z.queue) (put_here s r popped k.semaphores here) m in
          (
            subst (λ z. In t (k.semaphores z).queue) here (subst (In t) (sym waits) (inr m')),
            In-Absent t first rest queue_rest.0 m',
          )
      | no away ↦
          let m' : In t (k.semaphores r).queue =
            subst (λ (z : Semaphore). In t z.queue) (put_away s r popped k.semaphores away) m in
          (m', λ e. ground (arith, (i.queue_status r t m').1, first_waits.1, e, away))
    ]

    In-woken_after :
        (r t : ℕ) → In t (k.semaphores r).queue → t ≢ first → In t (woken.semaphores r).queue
    In-woken_after r t m ne = elim (ℕ_discrete s r) [
      | yes here ↦
          subst (λ (z : Semaphore). In t z.queue) (sym (put_here s r popped k.semaphores here))
            (In-tail t first rest
              (subst (In t) waits (subst (λ z. In t (k.semaphores z).queue) (sym here) m)) ne)
      | no away ↦
          subst (λ (z : Semaphore). In t z.queue) (sym (put_away s r popped k.semaphores away)) m
    ]

    woken-retrying :
        (r : ℕ)
        → retrying r woken.threads (k.ready_list ++ first ∷ [])
          ≡ retrying r k.threads k.ready_list + one_if (is_in_p r (k.threads first).place)
    woken-retrying r =
        retrying-status r first ready k (k.ready_list ++ first ∷ [])
        ∙ retrying-snoc r k.threads first k.ready_list

    woken-on : (r : ℕ) → retrying_on r on woken ≡ retrying_on r on k
    woken-on r = elim (Option-cases on) [
      | inl e ↦ ground (arith, e)
      | inr (t, e) ↦ ground (arith, e)
    ]

    woken-Inv : Inv on woken
    woken-Inv = record {
      runs = λ t e. ground (arith, i.runs t e, first_waits.0);
      only = λ t e. i.only t (ground (arith, e));
      ready_status = λ t m. elim (In-snoc t first k.ready_list m) [
        | inl old ↦ ground (arith, i.ready_status t old)
        | inr e ↦ ground (arith, e)
      ];
      ready_all = λ t e. elim (ℕ_discrete t first) [
        | yes here ↦ snoc_last t first k.ready_list here
        | no away ↦ snoc_old t first k.ready_list (i.ready_all t (ground (arith, e, away)))
      ];
      ready_once = NoDup-snoc first k.ready_list i.ready_once (
          Absent-of_In first k.ready_list
            (λ t m e. ground (arith, i.ready_status t m, first_waits.0, e)));
      queue_status = λ r t m.
          ground (arith, i.queue_status r t (In-woken_before r t m).0, (In-woken_before r t m).1);
      queue_all = λ r t b p.
          In-woken_after r t (i.queue_all r t (ground (arith, b)) (ground (arith, p)))
            (λ e. ground (arith, b, e));
      queue_once = λ r. elim (ℕ_discrete s r) [
        | yes here ↦
            subst (λ (z : Semaphore). NoDup z.queue) (sym (put_here s r popped k.semaphores here))
              queue_rest.1
        | no away ↦
            subst (λ (z : Semaphore). NoDup z.queue) (sym (put_away s r popped k.semaphores away))
              (i.queue_once r)
      ];
      no_lost = λ r t m. elim (ℕ_discrete s r) [
        | yes here ↦ ground (
          arith,
          here,
          i.no_lost r t (In-woken_before r t m).0,
          woken-retrying r,
          woken-on r,
          first_waits.1,
        )
        | no away ↦
            ground
              (arith, away, i.no_lost r t (In-woken_before r t m).0, woken-retrying r, woken-on r)
      ];
      ended = λ t d. ground (arith, i.ended t d, first_waits.1);
    }

  pub v-Inv : Inv on (v s k)
  unfolding v
  v-Inv = by_queue (k.semaphores s).queue refl
    where
      by_queue : (q : List ℕ) → (k.semaphores s).queue ≡ q → Inv on (v s k)
      by_queue [] e = subst (Inv on) (unfold v in ground (arith, e)) (raised-Inv e)
      by_queue (first ∷ rest) e =
          subst (Inv on) (unfold v in ground (arith, e)) (woken-Inv first rest e)

-- A new thread is ready.
pub fork-Inv :
    (k : Kernel) (on : Option ℕ) (i : Inv on k) (new : ℕ)
    → (k.threads new).status ≡ just_created
    → (k.threads new).place ≡ outside
    → Inv on (ready_to_run new k)
fork-Inv k on i new fresh place = record {
  runs = λ t e. ground (arith, i.runs t e, fresh);
  only = λ t e. i.only t (ground (arith, e));
  ready_status = λ t m. elim (In-snoc t new k.ready_list m) [
    | inl old ↦ ground (arith, i.ready_status t old)
    | inr e ↦ ground (arith, e)
  ];
  ready_all = λ t e. elim (ℕ_discrete t new) [
    | yes here ↦ snoc_last t new k.ready_list here
    | no away ↦ snoc_old t new k.ready_list (i.ready_all t (ground (arith, e, away)))
  ];
  ready_once =
      NoDup-snoc new k.ready_list i.ready_once
        (Absent-of_In new k.ready_list (λ t m e. ground (arith, i.ready_status t m, fresh, e)));
  queue_status = λ s t m. ground (arith, i.queue_status s t m, fresh);
  queue_all = λ s t b p. i.queue_all s t (ground (arith, b)) (ground (arith, p));
  queue_once = i.queue_once;
  no_lost = λ s t m. ground (arith, i.no_lost s t m, counted s, keeps s);
  ended = λ t d. ground (arith, i.ended t d, fresh);
}
  where
    counted :
        (s : ℕ)
        → retrying s (ready_to_run new k).threads (k.ready_list ++ new ∷ [])
          ≡ retrying s k.threads k.ready_list
    counted s =
        retrying-status s new ready k (k.ready_list ++ new ∷ [])
        ∙ retrying-snoc s k.threads new k.ready_list
        ∙ ground (arith, place)

    keeps : (s : ℕ) → retrying_on s on (ready_to_run new k) ≡ retrying_on s on k
    keeps s = elim (Option-cases on) [ inl e ↦ ground (arith, e) | inr (t, e) ↦ ground (arith, e) ]
