-- ===== src/Userprog/ProcessList/Tests.antt =====
-- Runs of the process list of userprog/exception.cc, and the theorems about it at such inputs.
use cmps.Prelude.{◌≡◌, inr, refl, true, [], ◌∷◌, some, arith, ◌==◌, if◌then◌else◌}
use cmps.Userprog.ProcessList.{Heap, ProcessList, ok, fault, ◌>>=◌, remove, find, search}
use cmps.Userprog.ProcessList.Links.{IsList}
use cmps.Userprog.ProcessList.Update.{remove_lem, remove-find_faults}

-- The element at address `a` has PID `a`, and points at itself, as the kernel makes it.
abbrev fresh : Heap
fresh a = record {
  next = some a;
  previous = some a;
  current_thread = a;
  pid = a;
  valid = true;
  parent_pid = 0;
  semaphore = a;
}

-- The elements 1 and 2, in this order.
abbrev pair_heap : Heap
pair_heap a =
    if a == 1 then record (fresh 1) { next = some 2 } else record (fresh a) { previous = some 1 }

abbrev pair_list : ProcessList
pair_list = record { head = some 1; tail = some 2 }

pair-IsList : IsList pair_heap pair_list (1 ∷ 2 ∷ [])
pair-IsList = record {
  at_head = refl;
  at_tail = refl;
  links = (refl, refl, tt);
  ended = λ t e. inr (let same : 2 ≡ t = ground arith in rw (← same) refl);
  distinct = ((omega arith, tt), (omega arith, tt), (tt, tt, tt));
}

find_runs : find 3 pair_heap pair_list 2 ≡ ok (some 2)
unfolding find search
find_runs = refl

remove_lem_example :
    (h' : Heap) × (l' : ProcessList) × (remove pair_heap pair_list 2 ≡ ok (h', l'))
    × IsList h' l' (1 ∷ [])
remove_lem_example = remove_lem pair_heap pair_list (1 ∷ []) [] 2 pair-IsList

remove-find_faults_example : (remove pair_heap pair_list 2 >>= λ out. find 3 out.0 out.1 2) ≡ fault
remove-find_faults_example =
    remove-find_faults pair_heap pair_list 1 2 2 3 pair-IsList (omega arith) (omega arith)
