-- ===== src/Userprog/Syscalls/Processes/Match.antt =====
-- Join of userprog/exception.cc and the end of a process in userprog/addrspace.cc: the semaphore of the
-- one is that of the other.
use cmps.Prelude.{
  ℕ, ◌<◌, ◌≡◌, ◌≢◌, refl, sym, ap, ◌∙◌, true, List, [], ◌∷◌, ◌++◌, none, some, ◌==◌, if◌then◌else◌,
  arith, length, ==-of_ne, ==-of_eq,
}
use cmps.Threads.Kernel.{v}
use cmps.Userprog.ProcessList.{Heap, ProcessList, Result, ok, fault, ◌>>=◌, deref, find, remove}
use cmps.Userprog.ProcessList.Links.{IsList, Distinct, Unseen}
use cmps.Userprog.ProcessList.Lookup.{element_of}
use cmps.Userprog.ProcessList.Update.{remove_lem}
use cmps.Userprog.Syscalls.Processes.{System, element, join_start, waits_on, cleanup_exit}
use cmps.Userprog.Syscalls.Processes.Fields.{remove-Same, find-deref, find-element, element_of-same}

Unseen-middle :
    (h : Heap) (x c : ℕ) (xs ys : List ℕ) → Unseen h x (xs ++ c ∷ ys) → (h x).pid ≢ (h c).pid
Unseen-middle h x c [] ys u = u.0
Unseen-middle h x c (z ∷ xs) ys u = Unseen-middle h x c xs ys u.1

pub element_of-own :
    (h : Heap) (c : ℕ) (xs ys : List ℕ)
    → Distinct h (xs ++ c ∷ ys)
    → element_of h (h c).pid (xs ++ c ∷ ys) ≡ some c
element_of-own h c [] ys d = rw (==-of_eq (h c).pid (h c).pid refl)
element_of-own h c (x ∷ xs) ys d =
    rw (==-of_ne (h x).pid (h c).pid (Unseen-middle h x c xs ys d.1)) (element_of-own h c xs ys d.2)

pub element_of-other :
    (h : Heap) (c pid : ℕ) (xs ys : List ℕ)
    → (h c).pid ≢ pid
    → element_of h pid (xs ++ c ∷ ys) ≡ element_of h pid (xs ++ ys)
element_of-other h c pid [] ys ne = rw (==-of_ne (h c).pid pid ne)
element_of-other h c pid (x ∷ xs) ys ne =
    ap (λ z. if (h x).pid == pid then some x else z) (element_of-other h c pid xs ys ne)

length-middle : (c : ℕ) (xs ys : List ℕ) → length (xs ++ ys) < length (xs ++ c ∷ ys)
length-middle c [] ys = omega arith
length-middle c (x ∷ xs) ys = omega (arith, length-middle c xs ys)

-- The process of element `c` is in the list, and its parent's element is looked up among the others.
module _ (fuel garbage : ℕ) (s : System) (c : ℕ) (xs ys : List ℕ)
    (is_list : IsList s.heap s.pcb (xs ++ c ∷ ys)) (enough : length (xs ++ c ∷ ys) < fuel)
    (child : (s.heap c).pid ≡ s.pid_of s.kernel.current)
    (has_parent : (s.heap c).parent_pid ≢ 0) where
  found : find fuel s.heap s.pcb (s.heap c).pid ≡ ok (some c)
  found =
      find-element s.heap s.pcb (xs ++ c ∷ ys) (s.heap c).pid fuel c is_list enough
        (element_of-own s.heap c xs ys is_list.distinct)

  -- CleanupExit after the element is off the list.
  abbrev posted : System → Result System
  posted s' = element fuel s' (s.heap c).parent_pid >>= λ q.
      ok (record s' { kernel = v (s'.heap q).semaphore s'.kernel })

  cleanup_exit-removed :
      (h' : Heap) (l' : ProcessList)
      → remove s.heap s.pcb c ≡ ok (h', l')
      → cleanup_exit fuel garbage s ≡ posted (record s { heap = h'; pcb = l' })
  unfolding cleanup_exit
  cleanup_exit-removed h' l' e = rw (
    sym child,
    found,
    e,
    (remove-Same s.heap h' s.pcb l' c c e).parent_pid,
    ==-of_ne (s.heap c).parent_pid 0 has_parent,
  )

  element-removed :
      (h' : Heap) (l' : ProcessList)
      → remove s.heap s.pcb c ≡ ok (h', l')
      → IsList h' l' (xs ++ ys)
      → element fuel (record s { heap = h'; pcb = l' }) (s.heap c).parent_pid
        ≡ deref (element_of s.heap (s.heap c).parent_pid (xs ++ ys))
  element-removed h' l' e v =
      find-deref h' l' (xs ++ ys) (s.heap c).parent_pid fuel v
        (omega (arith, enough, length-middle c xs ys))
      ∙ ap deref (
          element_of-same s.heap h' (s.heap c).parent_pid (xs ++ ys)
            (λ q. remove-Same s.heap h' s.pcb l' c q e))

  -- Where the process of element `c` is the running one and in a well-formed process list, and has a
  -- parent whose PID no other element has: CleanupExit takes a field of NULL.
  pub cleanup_exit-orphan :
      element_of s.heap (s.heap c).parent_pid (xs ++ ys) ≡ none
      → cleanup_exit fuel garbage s ≡ fault
  cleanup_exit-orphan nobody =
      let (h', l', e, left) = remove_lem s.heap s.pcb xs ys c is_list in
      cleanup_exit-removed h' l' e
      ∙ ap
          (λ z.
            z >>= λ q. ok (record s { heap = h'; pcb = l'; kernel = v (h' q).semaphore s.kernel }))
          (element-removed h' l' e left ∙ ap deref nobody)

  -- Where the process of element `c` is the running one and in a well-formed process list, has a
  -- parent of another PID among the other elements, and its address space was found: a Join of it
  -- calls P on the semaphore in its parent's element, and CleanupExit calls V once, on the same
  -- semaphore, and takes `c` and nothing else off the list. Neither takes a field of NULL.
  pub join_start-cleanup_exit :
      (q : ℕ)
      → element_of s.heap (s.heap c).parent_pid (xs ++ ys) ≡ some q
      → (s.heap c).parent_pid ≢ (s.heap c).pid
      → (s.heap c).valid ≡ true
      → (join_start fuel (s.heap c).pid s ≡ ok (waits_on (s.heap q).semaphore))
        × (s' : System) × (cleanup_exit fuel garbage s ≡ ok s')
        × (s'.kernel ≡ v (s.heap q).semaphore s.kernel)
        × IsList s'.heap s'.pcb (xs ++ ys)
  unfolding join_start
  join_start-cleanup_exit q parent other valid =
      let (h', l', e, left) = remove_lem s.heap s.pcb xs ys c is_list in
      let looked_up : element fuel s (s.heap c).parent_pid ≡ ok q =
        find-deref s.heap s.pcb (xs ++ c ∷ ys) (s.heap c).parent_pid fuel is_list enough
        ∙ ap deref (
            element_of-other s.heap c (s.heap c).parent_pid xs ys (λ same. other (sym same))
            ∙ parent) in
      (
        rw (found, valid, looked_up),
        record s { heap = h'; pcb = l'; kernel = v (h' q).semaphore s.kernel },
        cleanup_exit-removed h' l' e
            ∙ ap
                (λ z. z >>= λ r.
                  ok (record s { heap = h'; pcb = l'; kernel = v (h' r).semaphore s.kernel }))
                (element-removed h' l' e left ∙ ap deref parent),
        ap (λ z. v z s.kernel) (remove-Same s.heap h' s.pcb l' c q e).semaphore,
        left,
      )
