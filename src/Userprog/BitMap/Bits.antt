-- ===== src/Userprog/BitMap/Bits.antt =====
-- What Mark, Clear and Test of userprog/bitmap.cc do to each bit.
use Prim.Native.Nat.{bit_and, bit_or}
use cmps.Prelude.{
  ℕ, zero, suc, ◌+◌, ◌*◌, ◌/◌, ◌%◌, ◌^◌, ◌≤◌, ◌<◌, ◌≡◌, ◌≢◌, refl, ap, ◌∙◌, true, false, not, List,
  none, some, arith, length, get_or, set, ltb, ◌==◌, if◌then◌else◌, ◌>>=◌, length-set,
  get_or-set_self, get_or-set_ne,
}
use cmps.Prelude.Bits.{
  bit, bit-le, bit-bit_and, bit-bit_or, bit-pow_self, bit-pow_ne, bit_and-pow, bit-all_but_self,
  bit-all_but_ne, all_but,
}
use native.Mathlib.Nat.{one-le-pow}
use native.Mathlib.Decide.{ℕ_discrete}
use cmps.Userprog.BitMap.{
  BitMap, IsValid, bits_in_word, word_of, set_bit, clear_bit, is_set, mark, clear, test, clear_all,
  create, div_round_up,
}

pow_pos : (k : ℕ) → 0 < 2 ^ k
pow_pos k = one-le-pow k 2 (omega arith)

-- The test reads bit `which % 32` of its word.
is_set-bit : (b : BitMap) (i : ℕ) → is_set b i ≡ (bit (i % 32) (word_of i b) == 1)
unfolding is_set
is_set-bit b i =
    rw (bit_and-pow (i % 32) (word_of i b))
      (cases (bit (i % 32) (word_of i b)) (bit-le (i % 32) (word_of i b)))
  where
    cases : (x : ℕ) → x ≤ 1 → not (x * 2 ^ (i % 32) == 0) ≡ (x == 1)
    cases zero p = ground arith
    cases (suc zero) p = ground (arith, pow_pos (i % 32))
    cases (suc (suc x)) p = absurd (omega arith)

word_in : (b : BitMap) (i : ℕ) → IsValid b → i < b.num_bits → i / 32 < length b.words
word_in b i v h = ground arith

abbrev write_word : BitMap → ℕ → ℕ → BitMap
write_word b i w = record b { words = set b.words (i / 32) w }

-- Writing a word that differs from the old one in bit `i % 32` only.
module _ (b : BitMap) (i j : ℕ) (v : IsValid b) (h : i < b.num_bits) (w : ℕ) (r : ℕ)
    (self : bit (i % 32) w ≡ r)
    (others : (k : ℕ) → k < 32 → k ≢ i % 32 → bit k w ≡ bit k (word_of i b)) where
  written_same :
      i / 32 ≡ j / 32
      → bit (j % 32) (word_of j (write_word b i w))
        ≡ (if i == j then r else bit (j % 32) (word_of j b))
  written_same e = elim (ℕ_discrete i j) [
    | yes same ↦ ground (
      arith,
      self,
      read,
      ap (λ (t : ℕ). bit (t % 32) (word_of j (write_word b i w))) same,
      ap (λ (t : ℕ). bit (i % 32) t) read,
    )
    | no differ ↦ ground (
      arith,
      others (j % 32),
      ap (λ (t : ℕ). bit (j % 32) t) read,
      ap (λ (t : ℕ). bit (j % 32) (get_or b.words t 0)) e,
    )
  ]
    where
      read : word_of j (write_word b i w) ≡ w
      read = rw (← e) (get_or-set_self b.words (i / 32) w 0 (word_in b i v h))

  written_bit :
      bit (j % 32) (word_of j (write_word b i w))
      ≡ (if i == j then r else bit (j % 32) (word_of j b))
  written_bit = elim (ℕ_discrete (i / 32) (j / 32)) [
    | yes e ↦ written_same e
    | no ne ↦
        ground
          (arith, ap (λ (t : ℕ). bit (j % 32) t) (get_or-set_ne b.words (i / 32) (j / 32) w 0 ne))
  ]

module _ (b : BitMap) (i j : ℕ) (v : IsValid b) (h : i < b.num_bits) where
  -- Mark sets its bit and no other.
  pub is_set-set_bit : is_set (set_bit i b) j ≡ (if i == j then true else is_set b j)
  unfolding set_bit
  is_set-set_bit =
      rw (is_set-bit, is_set-bit)
        (ground (
          arith,
          written_bit b i j v h (bit_or (word_of i b) (2 ^ (i % 32))) 1
              (omega (
                arith,
                bit-bit_or (i % 32) (word_of i b) (2 ^ (i % 32)),
                bit-pow_self (i % 32),
                bit-le (i % 32) (word_of i b),
              ))
              (λ k hk ne.
                omega (arith, bit-bit_or k (word_of i b) (2 ^ (i % 32)), bit-pow_ne k (i % 32) ne)),
        ))

  -- Clear resets its bit and no other.
  pub is_set-clear_bit : is_set (clear_bit i b) j ≡ (if i == j then false else is_set b j)
  unfolding clear_bit
  is_set-clear_bit =
      rw (is_set-bit, is_set-bit)
        (ground (
          arith,
          written_bit b i j v h (bit_and (word_of i b) (all_but (i % 32))) 0
              (omega (
                arith,
                bit-bit_and (i % 32) (word_of i b) (all_but (i % 32)),
                bit-all_but_self (i % 32) (omega arith),
              ))
              (λ k hk ne. omega (
                arith,
                bit-bit_and k (word_of i b) (all_but (i % 32)),
                bit-all_but_ne k (i % 32) (omega arith) hk ne,
                bit-le k (word_of i b),
              )),
        ))

pub set_bit-IsValid : (b : BitMap) (i : ℕ) → IsValid b → IsValid (set_bit i b)
unfolding set_bit
set_bit-IsValid b i v =
    ground (arith, length-set b.words (i / 32) (bit_or (word_of i b) (2 ^ (i % 32))))

pub clear_bit-IsValid : (b : BitMap) (i : ℕ) → IsValid b → IsValid (clear_bit i b)
unfolding clear_bit
clear_bit-IsValid b i v =
    ground (arith, length-set b.words (i / 32) (bit_and (word_of i b) (all_but (i % 32))))

pub num_bits-set_bit : (b : BitMap) (i : ℕ) → (set_bit i b).num_bits ≡ b.num_bits
unfolding set_bit
num_bits-set_bit b i = refl

pub num_bits-clear_bit : (b : BitMap) (i : ℕ) → (clear_bit i b).num_bits ≡ b.num_bits
unfolding clear_bit
num_bits-clear_bit b i = refl

pub test_lem : (b : BitMap) (j : ℕ) → j < b.num_bits → test j b ≡ some (is_set b j)
unfolding test
test_lem b j h = ground arith

pub mark_lem : (b : BitMap) (j : ℕ) → j < b.num_bits → mark j b ≡ some (set_bit j b)
unfolding mark
mark_lem b j h = ground arith

pub clear_lem : (b : BitMap) (j : ℕ) → j < b.num_bits → clear j b ≡ some (clear_bit j b)
unfolding clear
clear_lem b j h = ground arith

-- In a valid bitmap, a Test after a Mark of a bit in range finds that bit set and every other bit
-- in range as it was, and a Mark out of range fails its assertion.
test-mark :
    (b : BitMap) (i j : ℕ)
    → IsValid b
    → j < b.num_bits
    → (mark i b >>= test j)
      ≡ (if ltb i b.num_bits then (if i == j then some true else test j b) else none)
unfolding mark
test-mark b i j v h =
    ground (
      arith,
      test_lem b j h,
      test_lem (set_bit i b) j,
      num_bits-set_bit b i,
      is_set-set_bit b i j v,
    )

-- In a valid bitmap, a Test after a Clear of a bit in range finds that bit clear and every other
-- bit in range as it was, and a Clear out of range fails its assertion.
test-clear :
    (b : BitMap) (i j : ℕ)
    → IsValid b
    → j < b.num_bits
    → (clear i b >>= test j)
      ≡ (if ltb i b.num_bits then (if i == j then some false else test j b) else none)
unfolding clear
test-clear b i j v h = ground (
  arith,
  test_lem b j h,
  test_lem (clear_bit i b) j,
  num_bits-clear_bit b i,
  is_set-clear_bit b i j v,
)

-- What the loop of the constructor gives: a bitmap of the same length, clear from `i` on.
pub record Cleared (i : ℕ) (b b' : BitMap) : Type 0 where
  pub valid : IsValid b'
  pub size : b'.num_bits ≡ b.num_bits
  pub clear_after : (j : ℕ) → i ≤ j → j < b.num_bits → is_set b' j ≡ false
  pub same_before : (j : ℕ) → j < i → is_set b' j ≡ is_set b j

clear_all_lem :
    (n i : ℕ) (b : BitMap)
    → IsValid b
    → i + n ≡ b.num_bits
    → (b' : BitMap) × (clear_all n i b ≡ some b') × Cleared i b b'
unfolding clear_all
clear_all_lem zero i b v e = (
  b,
  refl,
  record {
    valid = v;
    size = refl;
    clear_after = λ j p q. absurd (omega arith);
    same_before = λ j p. refl;
  },
)
clear_all_lem (suc n) i b v e =
    let (b', run, c) =
      clear_all_lem n (i + 1) (clear_bit i b) (clear_bit-IsValid b i v)
        (omega (arith, num_bits-clear_bit b i)) in
    (
      b',
      rw (clear_lem b i (omega arith)) run,
      record {
        valid = c.valid;
        size = c.size ∙ num_bits-clear_bit b i;
        clear_after = λ j p q. ground (
          arith,
          c.clear_after j,
          c.same_before j,
          num_bits-clear_bit b i,
          is_set-clear_bit b i j v (omega arith),
        );
        same_before =
            λ j p. ground (arith, c.same_before j, is_set-clear_bit b i j v (omega arith));
      },
    )

-- Whatever the memory for the words held, the constructor gives a valid bitmap of `n` bits, each of
-- which tests as clear.
create-test :
    (garbage : List ℕ) (n : ℕ)
    → length garbage ≡ div_round_up n bits_in_word
    → (b : BitMap) × (create garbage n ≡ some b)
      × IsValid b
      × (b.num_bits ≡ n)
      × ((j : ℕ) → j < n → test j b ≡ some false)
unfolding create
create-test garbage n e =
    let (b, run, c) =
      clear_all_lem n 0 _ (record { words_fit = e; words_enough = refl }) (omega arith) in
    (b, run, c.valid, c.size, λ j h. ground (arith, c.size, test_lem b j, c.clear_after j))
