-- ===== src/Threads/LinkedList/Tests.antt =====
-- Runs of threads/list.cc on a list of two elements, and the theorems about it there.
use cmps.Prelude.{ℕ, ◌≡◌, refl, List, [], ◌∷◌, none, some, arith, ◌==◌, if◌then◌else◌}
use cmps.Threads.Sequence.{Entry, insert}
use cmps.Threads.LinkedList.{
  Heap, LinkedList, sorted_insert, sorted_remove, walk, new_element, set_next,
}
use cmps.Threads.LinkedList.Chain.{Holds, Gained}
use cmps.Threads.LinkedList.Ends.{new_entry}
use cmps.Threads.LinkedList.Insert.{sorted_insert-Gained}

-- Element 10 with item 7 and key 3 stands before element 11 with item 8 and key 5.
abbrev heap : Heap
heap p =
    if p == 10
    then record { next = some 11; key = 3; item = 7 }
    else record { next = none; key = 5; item = 8 }

abbrev two : LinkedList
two = record { first = some 10; last = some 11 }

abbrev entries : List (Entry ℕ)
entries = new_entry 7 3 ∷ new_entry 8 5 ∷ []

two-Holds : Holds heap two (10 ∷ 11 ∷ []) entries
two-Holds = record {
  is_list = record {
    chain = (refl, (refl, refl));
    at_last = refl;
    no_dup = ((omega arith, tt), (tt, tt));
  };
  entries = refl;
}

sorted_insert_runs :
    sorted_insert 3 12 9 4 heap two
    ≡ some (set_next (set_next (new_element 12 9 4 heap) 12 (some 11)) 10 (some 12), two)
unfolding sorted_insert walk
sorted_insert_runs = refl

sorted_remove_runs : sorted_remove heap two ≡ some (some (7, 3), record two { first = some 11 })
unfolding sorted_remove
sorted_remove_runs = refl

sorted_insert-Gained_example :
    (h' : Heap) × (l' : LinkedList) × (xs' : List ℕ) × (sorted_insert 3 12 9 4 heap two
      ≡ some (h', l'))
    × Gained heap 12 (10 ∷ 11 ∷ []) xs' (insert (new_entry 9 4) entries) h' l'
sorted_insert-Gained_example =
    sorted_insert-Gained 3 heap two (10 ∷ 11 ∷ []) entries 12 9 4 two-Holds
      (omega arith, (omega arith, tt)) (omega arith)
