-- ===== src/Userprog/BitMap.antt =====
-- The class BitMap of userprog/bitmap.cc: an array of bits in unsigned words of 32 bits.
-- A method that fails an ASSERT gives `none`. Bit numbers are natural numbers: no caller passes a
-- negative one. The -1 that Find returns is the inner `none`.
pub mod Bits
pub mod Search
mod Tests
use Prim.Native.Nat.{bit_and, bit_or}
use cmps.Prelude.{
  ℕ, zero, suc, ◌+◌, ◌-◌, ◌*◌, ◌/◌, ◌%◌, ◌^◌, ◌≤◌, ◌<◌, ◌≡◌, Bool, true, false, not, List, Option,
  none, some, length, get_or, set, ltb, ◌==◌, if◌then◌else◌, ◌>>=◌, ◌>>◌, assert,
}
use cmps.Prelude.Bits.{all_but}

abbrev pub bits_in_word : ℕ
bits_in_word = 32

-- The macro divRoundUp of threads/utility.h.
abbrev pub div_round_up : ℕ → ℕ → ℕ
div_round_up n s = n / s + (if ltb 0 (n % s) then 1 else 0)

-- The field `map` is `words`.
pub record BitMap : Type 0 where
  pub num_bits : ℕ
  pub num_words : ℕ
  pub words : List ℕ

abbrev in_range : ℕ → BitMap → Bool
in_range which b = ltb which b.num_bits

abbrev mask : ℕ → ℕ
mask which = 2 ^ (which % bits_in_word)

abbrev pub word_of : ℕ → BitMap → ℕ
word_of which b = get_or b.words (which / bits_in_word) 0

-- `map[which / BitsInWord] |= 1 << (which % BitsInWord)`
unfoldable pub set_bit : ℕ → BitMap → BitMap
set_bit which b = record b {
  words = set b.words (which / bits_in_word) (bit_or (word_of which b) (mask which));
}

-- `map[which / BitsInWord] &= ~(1 << (which % BitsInWord))`
unfoldable pub clear_bit : ℕ → BitMap → BitMap
clear_bit which b = record b {
  words =
      set b.words (which / bits_in_word)
        (bit_and (word_of which b) (all_but (which % bits_in_word)));
}

-- `map[which / BitsInWord] & (1 << (which % BitsInWord))` is not zero
unfoldable pub is_set : BitMap → ℕ → Bool
is_set b which = not (bit_and (word_of which b) (mask which) == 0)

unfoldable pub mark : ℕ → BitMap → Option BitMap
mark which b = do assert (in_range which b); some (set_bit which b)

unfoldable pub clear : ℕ → BitMap → Option BitMap
clear which b = do assert (in_range which b); some (clear_bit which b)

unfoldable pub test : ℕ → BitMap → Option Bool
test which b = do assert (in_range which b); some (is_set b which)

-- The loop of the constructor: `n` rounds from `i` on.
clear_all : ℕ → ℕ → BitMap → Option BitMap
clear_all zero i b = some b
clear_all (suc n) i b = do b' ← clear i b; clear_all n (i + 1) b'

-- `new unsigned int[numWords]` is not initialised: `garbage` is what it holds.
pub create : List ℕ → ℕ → Option BitMap
create garbage nitems =
    clear_all nitems 0
      (record { num_bits = nitems; num_words = div_round_up nitems bits_in_word; words = garbage })

find_from : ℕ → ℕ → BitMap → Option (Option ℕ × BitMap)
find_from zero i b = some (none, b)
find_from (suc n) i b = do
  used ← test i b
  elim used [ true ↦ find_from n (i + 1) b | false ↦ mark i b >>= λ b'. some (some i, b') ]

pub find : BitMap → Option (Option ℕ × BitMap)
find b = find_from b.num_bits 0 b

num_clear_from : ℕ → ℕ → ℕ → BitMap → Option ℕ
num_clear_from zero i count b = some count
num_clear_from (suc n) i count b = do
  used ← test i b
  num_clear_from n (i + 1) (if used then count else count + 1) b

pub num_clear : BitMap → Option ℕ
num_clear b = num_clear_from b.num_bits 0 0 b

-- `new` gives the words, and the methods keep their number.
pub record IsValid (b : BitMap) : Type 0 where
  pub words_fit : length b.words ≡ b.num_words
  pub words_enough : b.num_words ≡ div_round_up b.num_bits bits_in_word
