-- ===== src/Userprog/Syscalls/Processes/Create.antt =====
-- The process that Exec of userprog/exception.cc adds to the process list.
use cmps.Prelude.{
  ℕ, ◌+◌, ◌<◌, ◌≡◌, ◌≢◌, refl, sym, ap, subst, ◌∙◌, true, false, List, [], ◌∷◌, ◌++◌, none, some,
  ◌==◌, arith, Bool-cases, inl, inr, ◌⊎◌, length, Absent, last_of_list, Absent-last_of_list,
  length-append,
}
use mathlib.Core.List.{append-nil}
use cmps.Threads.Kernel.{Kernel, set_semaphore, p, v, fork}
use cmps.Userprog.ProcessList.{
  ProcessElement, Heap, ProcessList, ok, ◌>>=◌, deref, find, append, update,
}
use cmps.Userprog.ProcessList.Links.{IsList, Links, Distinct, Unseen}
use cmps.Userprog.ProcessList.Lookup.{element_of}
use cmps.Userprog.ProcessList.Update.{append_lem}
use cmps.Userprog.Syscalls.Processes.{System, join_start, waits_on, added, exec_rest, exec_process}
use cmps.Userprog.Syscalls.Processes.Forked.{Forked, fork-v-p}
use cmps.Userprog.Syscalls.Processes.Fields.{
  Same, append-Same, find-deref, find-element, element_of-same,
}
use cmps.Userprog.Syscalls.Processes.Match.{element_of-own, element_of-other}

-- No process in the list has the PID.
abbrev pub Unused : Heap → ℕ → List ℕ → Type 0
Unused h pid [] = Unit {0}
Unused h pid (x ∷ xs) = (pid ≢ (h x).pid) × Unused h pid xs

module _ (h : Heap) (e : ℕ) (new : ProcessElement) where
  abbrev h' : Heap
  h' = update h e new

  kept : (x : ℕ) → e ≢ x → h' x ≡ h x
  kept x ne = ground (arith, ne)

  Unseen-update : (x : ℕ) (xs : List ℕ) → e ≢ x → Absent e xs → Unseen h x xs → Unseen h' x xs
  Unseen-update x [] ne a u = tt
  Unseen-update x (y ∷ ys) ne a u =
      (ground (arith, kept x ne, kept y a.0, u.0), Unseen-update x ys ne a.1 u.1)

  Distinct-update : (xs : List ℕ) → Absent e xs → Distinct h xs → Distinct h' xs
  Distinct-update [] a d = tt
  Distinct-update (x ∷ xs) a d = (d.0, Unseen-update x xs a.0 a.1 d.1, Distinct-update xs a.1 d.2)

  Links-update : (xs : List ℕ) → Absent e xs → Links h xs → Links h' xs
  Links-update [] a l = tt
  Links-update (x ∷ []) a l = tt
  Links-update (x ∷ y ∷ r) a l = (
    ap (λ (z : ProcessElement). z.next) (kept x a.0) ∙ l.0,
    ap (λ (z : ProcessElement). z.previous) (kept y a.1.0) ∙ l.1,
    Links-update (y ∷ r) a.1 l.2,
  )

  ended_kept :
      (xs : List ℕ) (t : ℕ)
      → Absent e xs
      → last_of_list xs ≡ some t
      → ((h t).next ≡ none) ⊎ ((h t).next ≡ some t)
      → ((h' t).next ≡ none) ⊎ ((h' t).next ≡ some t)
  ended_kept [] t a last end = absurd (ground (arith, last))
  ended_kept (x ∷ xs) t a last end =
      subst (λ (z : ProcessElement). (z.next ≡ none) ⊎ (z.next ≡ some t))
        (sym (kept t (Absent-last_of_list e x t xs a last))) end

  pub IsList-update : (l : ProcessList) (xs : List ℕ) → IsList h l xs → Absent e xs → IsList h' l xs
  IsList-update l xs i a = record {
    at_head = i.at_head;
    at_tail = i.at_tail;
    links = Links-update xs a i.links;
    ended = λ t last. ended_kept xs t a last (i.ended t last);
    distinct = Distinct-update xs a i.distinct;
  }

  pub Unseen-new : (xs : List ℕ) → Absent e xs → Unused h new.pid xs → Unseen h' e xs
  Unseen-new [] a u = tt
  Unseen-new (x ∷ xs) a u = (ground (arith, kept x a.0, u.0), Unseen-new xs a.1 u.1)

  pub element_of-update :
      (pid : ℕ) (xs : List ℕ) → Absent e xs → element_of h' pid xs ≡ element_of h pid xs
  element_of-update pid [] a = refl
  element_of-update pid (x ∷ xs) a = rw (kept x a.0, element_of-update pid xs a.1)

  pub Absent-element :
      (pid q : ℕ) (xs : List ℕ) → Absent e xs → element_of h pid xs ≡ some q → e ≢ q
  Absent-element pid q [] a found = absurd (ground (arith, found))
  Absent-element pid q (x ∷ xs) a found = elim (Bool-cases ((h x).pid == pid)) [
    | inl here ↦ λ same. a.0 (same ∙ ground (arith, found, here))
    | inr later ↦ Absent-element pid q xs a.1 (ground (arith, found, later))
  ]

pub Unused-parent :
    (h : Heap) (pid parent q : ℕ) (xs : List ℕ)
    → Unused h pid xs
    → element_of h parent xs ≡ some q
    → pid ≢ parent
Unused-parent h pid parent q [] u found = absurd (ground (arith, found))
Unused-parent h pid parent q (x ∷ xs) u found = elim (Bool-cases ((h x).pid == parent)) [
  | inl here ↦ ground (arith, u.0, here)
  | inr later ↦ Unused-parent h pid parent q xs u.1 (ground (arith, found, later))
]

module _ (fuel mutex e sem t pid q : ℕ) (s : System) (xs : List ℕ)
    (is_list : IsList s.heap s.pcb xs) (fresh : Absent e xs) (unused : Unused s.heap pid xs)
    (enough : length xs + 1 < fuel)
    (parent : element_of s.heap (s.pid_of s.kernel.current) xs ≡ some q) where
  abbrev new : ProcessElement
  new = record {
    next = some e;
    previous = some e;
    current_thread = t;
    pid = pid;
    valid = true;
    parent_pid = s.pid_of s.kernel.current;
    semaphore = sem;
  }

  abbrev h₁ : Heap
  h₁ = update s.heap e new

  new_here : h₁ e ≡ new
  new_here = ground arith

  module _ (h₂ : Heap) (l : ProcessList) (run : append h₁ s.pcb e ≡ ok (h₂, l))
      (after : IsList h₂ l (xs ++ e ∷ [])) where
    same : (x : ℕ) → Same h₁ h₂ x
    same x = append-Same h₁ h₂ s.pcb l e x run

    same_new :
        ((h₂ e).pid ≡ pid) × ((h₂ e).valid ≡ true) × ((h₂ e).parent_pid ≡ s.pid_of s.kernel.current)
    same_new = (
      (same e).pid ∙ ap (λ (z : ProcessElement). z.pid) new_here,
      (same e).valid ∙ ap (λ (z : ProcessElement). z.valid) new_here,
      (same e).parent_pid ∙ ap (λ (z : ProcessElement). z.parent_pid) new_here,
    )

    enough_after : length (xs ++ e ∷ []) < fuel
    enough_after = omega (arith, enough, length-append xs (e ∷ []))

    child_found : find fuel h₂ l pid ≡ ok (some e)
    child_found = find-element h₂ l (xs ++ e ∷ []) pid fuel e after enough_after (
        subst (λ z. element_of h₂ z (xs ++ e ∷ []) ≡ some e) same_new.0
          (element_of-own h₂ e xs [] after.distinct))

    parent_found : (find fuel h₂ l (s.pid_of s.kernel.current) >>= λ r. deref r) ≡ ok q
    parent_found =
        find-deref h₂ l (xs ++ e ∷ []) (s.pid_of s.kernel.current) fuel after enough_after
        ∙ ap deref (
            element_of-other h₂ e (s.pid_of s.kernel.current) xs [] (λ own.
              Unused-parent s.heap pid (s.pid_of s.kernel.current) q xs unused parent
                (sym same_new.0 ∙ own))
            ∙ ap (element_of h₂ (s.pid_of s.kernel.current)) (append-nil xs)
            ∙ element_of-same h₁ h₂ (s.pid_of s.kernel.current) xs same
            ∙ element_of-update s.heap e new (s.pid_of s.kernel.current) xs fresh
            ∙ parent)

    parent_semaphore : (h₂ q).semaphore ≡ (s.heap q).semaphore
    parent_semaphore =
        (same q).semaphore
        ∙ ap (λ (z : ProcessElement). z.semaphore)
            (kept s.heap e new q
              (Absent-element s.heap e new (s.pid_of s.kernel.current) q xs fresh parent))

  abbrev with_semaphore : Kernel
  with_semaphore = set_semaphore sem (record { value = 0; queue = [] }) s.kernel

  -- Where Exec has found an address space, and the process list is well-formed, has the calling
  -- process, and neither the new element nor the new PID, and the value of MutexNumProc, which is not
  -- the new semaphore, is not 0: Exec does not wait. It adds the element at the end of the list, which
  -- stays well-formed, and one to NumProcess. MutexNumProc has its value again, no other semaphore but
  -- the new one has changed, the calling thread is still the current one, and the new thread is ready,
  -- the last of the ready list. A Join of the new PID then calls P on the semaphore in the element of
  -- the calling process.
  pub exec_process-join_start :
      0 < (s.kernel.semaphores mutex).value
      → sem ≢ mutex
      → (s' : System) × (exec_process mutex true e sem t pid s ≡ ok (added s'))
        × IsList s'.heap s'.pcb (xs ++ e ∷ [])
        × Forked mutex (s.kernel.semaphores mutex).value t with_semaphore s'.kernel
        × (s'.num_process ≡ s.num_process + 1)
        × (join_start fuel pid s' ≡ ok (waits_on (s.heap q).semaphore))
  unfolding exec_process join_start
  exec_process-join_start free apart =
      let (h₂, l, run, after) =
        append_lem h₁ s.pcb xs e (IsList-update s.heap e new s.pcb xs is_list fresh) fresh
          (Unseen-new s.heap e new xs fresh unused)
          (ap (λ (z : ProcessElement). z.next) new_here) in
      let same_value : (with_semaphore.semaphores mutex).value ≡ (s.kernel.semaphores mutex).value =
        ground (arith, apart) in
      let passes : ((with_semaphore.semaphores mutex).value == 0) ≡ false =
        ground (arith, free, same_value) in
      (
        record s {
          heap = h₂;
          pcb = l;
          kernel = fork t (v mutex (p mutex with_semaphore));
          num_process = s.num_process + 1;
        },
        rw (passes, exec_rest, run),
        after,
        subst (λ z. Forked mutex z t with_semaphore (fork t (v mutex (p mutex with_semaphore))))
            same_value (fork-v-p mutex t with_semaphore (omega (arith, free, same_value))),
        refl,
        rw (
          child_found h₂ l run after,
          (same_new h₂ l run after).1,
          (same_new h₂ l run after).2,
          parent_found h₂ l run after,
          parent_semaphore h₂ l run after,
        ),
      )
