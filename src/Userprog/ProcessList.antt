-- ===== src/Userprog/ProcessList.antt =====
-- The class ProcessList of userprog/exception.cc, declared in threads/system.h: the process control
-- block, a doubly linked list of ProcessElements.
-- An element is an address in a heap. No element is ever deleted, so every pointer but NULL (`none`)
-- is valid, and the only failure is a field of NULL, a `fault`. The elements that Append and Return
-- allocate and never use are left out.
pub mod Links
pub mod Lookup
pub mod Update
mod Tests
use cmps.Prelude.{
  ℕ, zero, suc, ◌≡◌, Bool, true, false, ◌&&◌, List, [], ◌∷◌, Option, none, some, ◌==◌,
  if◌then◌else◌,
}

pub record ProcessElement : Type 0 where
  pub next : Option ℕ
  pub previous : Option ℕ
  pub current_thread : ℕ
  pub pid : ℕ
  pub valid : Bool
  pub parent_pid : ℕ
  pub semaphore : ℕ

abbrev pub Heap : Type 0
Heap = ℕ → ProcessElement

abbrev pub update : Heap → ℕ → ProcessElement → Heap
update h p e q = if p == q then e else h q

abbrev pub set_next : Heap → ℕ → Option ℕ → Heap
set_next h p n = update h p (record (h p) { next = n })

abbrev pub set_previous : Heap → ℕ → Option ℕ → Heap
set_previous h p n = update h p (record (h p) { previous = n })

pub record ProcessList : Type 0 where
  pub head : Option ℕ
  pub tail : Option ℕ

-- What a method gives: a value, the access of a field of NULL, or no end within the fuel.
pub data Result {ℓ} (A : Type ℓ) : Type ℓ where
  ok : A → Result A
  fault : Result A
  out_of_fuel : Result A

infixl 5 ◌>>=◌
abbrev pub ◌>>=◌ {ℓ κ} : {A : Type ℓ} {B : Type κ} → Result A → (A → Result B) → Result B
ok a >>= f = f a
fault >>= f = fault
out_of_fuel >>= f = out_of_fuel

-- A pointer whose field is taken.
abbrev pub deref : Option ℕ → Result ℕ
deref none = fault
deref (some p) = ok p

abbrev pub empty : ProcessList
empty = record { head = none; tail = none }

abbrev pub is_empty : ProcessList → Bool
is_empty l = elim l.head [ none ↦ true | some _ ↦ false ]

-- `p == q` for pointers, the second of which may be NULL.
abbrev pub is_at : ℕ → Option ℕ → Bool
is_at p none = false
is_at p (some q) = p == q

unfoldable pub append : Heap → ProcessList → ℕ → Result (Heap × ProcessList)
append h l current =
    if is_empty l then ok (h, record { head = some current; tail = some current }) else (do
      old ← deref l.tail
      let h' = set_next h old (some current)
      ok (set_previous h' current (some old), record l { tail = some current }))

unfoldable pub remove : Heap → ProcessList → ℕ → Result (Heap × ProcessList)
remove h l current =
    if is_empty l
    then ok (h, l)
    else if is_at current l.head && is_at current l.tail
    then ok (h, empty)
    else if is_at current l.head
    then (do n ← deref (h current).next; ok (set_previous h n none, record l { head = some n }))
    else if is_at current l.tail
    then (do p ← deref (h current).previous; ok (set_next h p none, record l { tail = some p }))
    else (do
      p ← deref (h current).previous
      let h' = set_next h p (h current).next
      n ← deref (h' current).next
      ok (set_previous h' n (h' current).previous, l))

-- The do-while loop of Return at element `node`. It ends at the element with the tail's PID, which
-- is then checked; it returns earlier where it meets the PID.
search : Heap → ℕ → ℕ → ℕ → ℕ → Result (Option ℕ)
search h pid tail zero node = out_of_fuel
search h pid tail (suc fuel) node = if (h node).pid == pid then ok (some node) else (do
  n ← deref (h node).next
  elim ((h n).pid == (h tail).pid) [
    | true ↦ ok (if (h n).pid == pid then some n else none)
    | false ↦ search h pid tail fuel n
  ])

-- `fuel` bounds the elements that are visited.
pub find : ℕ → Heap → ProcessList → ℕ → Result (Option ℕ)
find fuel h l pid = elim l.head [
  | none ↦ ok none
  | some first ↦ deref l.tail >>= λ last. search h pid last fuel first
]
