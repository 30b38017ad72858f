-- ===== src/Userprog/Placement.antt =====
-- AddrSpace::MemoryAllocation, FirstFit, BestFit and WorstFit of userprog/addrspace.cc.
-- The local variables of a search are a record; `best_chunk` is bestChunk or worstChunk. `n` is
-- NumPhysPages. A loop out of fuel, like a failed ASSERT of BitMap::Test, gives `none`; the theorems
-- of the child modules show that neither happens.
pub mod Scan
pub mod First
pub mod Best
pub mod Worst
mod Tests
use cmps.Prelude.{
  ℕ, zero, suc, ◌+◌, ◌*◌, Bool, true, false, not, ◌&&◌, Option, none, some, ltb, leb, ◌==◌,
  if◌then◌else◌, ◌>>=◌,
}
use cmps.Userprog.BitMap.{BitMap, test}
use cmps.Userprog.Space.{AddrSpace, num_phys_pages}

pub record Search : Type 0 where
  pub chunk : ℕ
  pub best_chunk : ℕ
  pub index : ℕ
  pub starting_address : ℕ
  pub end_of_mem : Bool
  pub start_here : ℕ

-- One free frame: it starts a chunk or extends one, and the index moves on; past the last frame it
-- goes to 0 and the end of memory is noted.
unfoldable pub advance : ℕ → Search → Search
advance n s = record s {
  chunk = s.chunk + 1;
  starting_address = if s.chunk == 0 then s.index else s.starting_address;
  index = if leb n (s.index + 1) then 0 else s.index + 1;
  end_of_mem = if leb n (s.index + 1) then true else s.end_of_mem;
}

-- BestFit remembers a chunk that is large enough and smaller than the one remembered.
pub choose_best : ℕ → Search → Search
choose_best num_pages s =
    if leb num_pages s.chunk
    then (if s.best_chunk == 0
        then record s { best_chunk = s.chunk; start_here = s.starting_address }
        else if ltb s.chunk s.best_chunk
        then record s { best_chunk = s.chunk; start_here = s.starting_address }
        else s)
    else s

-- WorstFit remembers one that is larger.
pub choose_worst : ℕ → Search → Search
choose_worst num_pages s =
    if leb num_pages s.chunk
    then (if s.best_chunk == 0
        then record s { best_chunk = s.chunk; start_here = s.starting_address }
        else if ltb s.best_chunk s.chunk
        then record s { best_chunk = s.chunk; start_here = s.starting_address }
        else s)
    else s

-- The inner loop: `step` for each free frame, up to a used one or the end of memory.
unfoldable pub scan : (Search → Search) → ℕ → BitMap → Search → Option Search
scan step zero frames s = none
scan step (suc fuel) frames s = do
  used ← test s.index frames
  elim (not used && not s.end_of_mem) [ true ↦ scan step fuel frames (step s) | false ↦ some s ]

-- The outer loop, with the result of its early return, or of its end.
unfoldable pub search :
    (Search → Search) → (Search → Bool) → ℕ → ℕ → BitMap → Search → Option (Bool × Search)
search step done n zero frames s = none
search step done n (suc fuel) frames s = elim (ltb s.index n) [
  | false ↦ some (false, s)
  | true ↦ do
    s' ← scan step (n + 1) frames s
    elim (done s') [
      | true ↦ some (true, s')
      | false ↦ search step done n fuel frames (record s' { chunk = 0; index = s'.index + 1 })
    ]
]

-- The local variables at the start.
abbrev pub start : AddrSpace → Search
start a = record {
  chunk = 0;
  best_chunk = 0;
  index = 0;
  starting_address = 0;
  end_of_mem = false;
  start_here = a.start_here;
}

-- Enough rounds for every frame, and for those that the loop visits again after the end.
abbrev pub rounds : ℕ → ℕ
rounds n = n + n + 2

unfoldable pub first_done : ℕ → Search → Bool
first_done num_pages s = leb num_pages s.chunk

-- StartHere is set where a chunk is found, by the early return or after the loop.
unfoldable pub first_fit : BitMap → AddrSpace → Option AddrSpace
first_fit frames a = do
  (found, s) ←
      search (advance num_phys_pages) (first_done a.num_pages) num_phys_pages
        (rounds num_phys_pages) frames (start a)
  some (
      if found
      then record a { space_found = true; start_here = s.starting_address }
      else if leb a.num_pages s.chunk
      then record a { space_found = true; start_here = s.starting_address }
      else record a { space_found = false })

pub best_done : ℕ → Search → Bool
best_done num_pages s = leb num_pages s.best_chunk && s.end_of_mem

pub best_fit : BitMap → AddrSpace → Option AddrSpace
best_fit frames a = do
  (found, s) ←
      search (λ s. choose_best a.num_pages (advance num_phys_pages s)) (best_done a.num_pages)
        num_phys_pages (rounds num_phys_pages) frames (start a)
  some (record a { space_found = found; start_here = s.start_here })

pub worst_fit : BitMap → AddrSpace → Option AddrSpace
worst_fit frames a = do
  (found, s) ←
      search (λ s. choose_worst a.num_pages (advance num_phys_pages s)) (best_done a.num_pages)
        num_phys_pages (rounds num_phys_pages) frames (start a)
  some (record a { space_found = found; start_here = s.start_here })

-- Another selector leaves the space as it is.
unfoldable pub memory_allocation : ℕ → BitMap → AddrSpace → Option AddrSpace
memory_allocation i frames a =
    if i == 0
    then first_fit frames a
    else if i == 1
    then best_fit frames a
    else if i == 2
    then worst_fit frames a
    else some a
