-- ===== src/Userprog/BitMap/Tests.antt =====
-- Runs of userprog/bitmap.cc on small bitmaps, and the theorems about it at such inputs.
use cmps.Prelude.{◌≡◌, refl, [], ◌∷◌, some, arith}
use cmps.Userprog.BitMap.{
  BitMap, IsValid, set_bit, clear_bit, is_set, mark, clear, test, find, num_clear, find_from,
  num_clear_from,
}
use cmps.Userprog.BitMap.Search.{FindResult, find-FindResult}

-- 40 bits in two words: bits 0, 1 and 35 are set.
abbrev sample : BitMap
sample = record { num_bits = 40; num_words = 2; words = 3 ∷ 8 ∷ [] }

sample-IsValid : IsValid sample
sample-IsValid = omega arith

mark_runs : mark 33 sample ≡ some (record sample { words = 3 ∷ 10 ∷ [] })
unfolding mark set_bit
mark_runs = refl

clear_runs : clear 35 sample ≡ some (record sample { words = 3 ∷ 0 ∷ [] })
unfolding clear clear_bit
clear_runs = refl

find_runs : find sample ≡ some (some 2, record sample { words = 7 ∷ 8 ∷ [] })
unfolding find find_from test mark is_set set_bit
find_runs = refl

num_clear_runs : num_clear sample ≡ some 37
unfolding num_clear num_clear_from test is_set
num_clear_runs = refl

find-FindResult_example : FindResult 0 sample (find sample)
find-FindResult_example = find-FindResult sample
