-- ===== src/Threads/LinkedList.antt =====
-- The class List of threads/list.cc: a singly linked list of elements, each with an item and a key.
-- An element is an address in a heap. `new` gives an address that the caller names, and the address
-- that `delete` frees is not used again. A field of NULL is a fault, `none`. The loop of SortedInsert
-- runs on fuel.
pub mod Chain
pub mod Ends
pub mod Insert
mod Tests
use cmps.Prelude.{
  ℕ, zero, suc, ◌<◌, Bool, true, false, List, Option, none, some, ltb, ◌==◌, if◌then◌else◌, ◌>>=◌,
}

pub record ListElement : Type 0 where
  pub next : Option ℕ
  pub key : ℕ
  pub item : ℕ

abbrev pub Heap : Type 0
Heap = ℕ → ListElement

pub record LinkedList : Type 0 where
  pub first : Option ℕ
  pub last : Option ℕ

abbrev pub update : Heap → ℕ → ListElement → Heap
update h p e q = if p == q then e else h q

abbrev pub set_next : Heap → ℕ → Option ℕ → Heap
set_next h p n = update h p (record (h p) { next = n })

-- The constructor of ListElement, at the address `p`.
abbrev pub new_element : ℕ → ℕ → ℕ → Heap → Heap
new_element p item key h = update h p (record { next = none; key = key; item = item })

abbrev pub empty : LinkedList
empty = record { first = none; last = none }

abbrev pub is_empty : LinkedList → Bool
is_empty l = elim l.first [ none ↦ true | some _ ↦ false ]

abbrev pub singleton : ℕ → LinkedList
singleton p = record { first = some p; last = some p }

-- Equality of two pointers.
abbrev pub same : Option ℕ → Option ℕ → Bool
same none none = true
same none (some q) = false
same (some p) none = false
same (some p) (some q) = p == q

pub append : ℕ → ℕ → Heap → LinkedList → Option (Heap × LinkedList)
append element item h l =
    let h₁ = new_element element item 0 h in
    if is_empty l then some (h₁, singleton element) else (do
      last ← l.last
      some (set_next h₁ last (some element), record l { last = some element }))

pub prepend : ℕ → ℕ → Heap → LinkedList → Option (Heap × LinkedList)
prepend element item h l =
    let h₁ = new_element element item 0 h in
    if is_empty l
    then some (h₁, singleton element)
    else some (set_next h₁ element l.first, record l { first = some element })

-- The loop from element `ptr` on: the heap where it has put the element in, or `none` at its end.
pub walk : ℕ → ℕ → ℕ → Heap → ℕ → Option (Option Heap)
walk zero element key h ptr = none
walk (suc fuel) element key h ptr = elim (h ptr).next [
  | none ↦ some none
  | some n ↦ elim (ltb key (h n).key) [
    | true ↦ some (some (set_next (set_next h element (some n)) ptr (some element)))
    | false ↦ walk fuel element key h n
  ]
]

pub sorted_insert : ℕ → ℕ → ℕ → ℕ → Heap → LinkedList → Option (Heap × LinkedList)
sorted_insert fuel element item key h l =
    let h₁ = new_element element item key h in
    elim l.first [
      | none ↦ some (h₁, singleton element)
      | some first ↦
          if ltb key (h₁ first).key
          then some (set_next h₁ element (some first), record l { first = some element })
          else (do
            found ← walk fuel element key h₁ first
            elim found [
              | some h₂ ↦ some (h₂, l)
              | none ↦ do
                last ← l.last
                some (set_next h₁ last (some element), record l { last = some element })
            ])
    ]

-- The result is the item and the key, which the source stores at keyPtr, or `none` for NULL.
pub sorted_remove : Heap → LinkedList → Option (Option (ℕ × ℕ) × LinkedList)
sorted_remove h l = elim l.first [
  | none ↦ some (none, l)
  | some element ↦ some (
    some ((h element).item, (h element).key),
    if same l.first l.last then empty else record l { first = (h element).next },
  )
]

pub remove : Heap → LinkedList → Option (Option ℕ × LinkedList)
unfolding sorted_remove
remove h l = do
  (thing, l') ← sorted_remove h l
  some (elim thing [ none ↦ none | some t ↦ some t.0 ], l')
