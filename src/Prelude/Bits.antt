-- ===== src/Prelude/Bits.antt =====
-- The bits of a machine word, and what `&` and `|` with masks of one bit do to each of them.
use Prim.Native.Nat.{
  ℕ, zero, suc, ◌+◌, ◌-◌, ◌*◌, ◌/◌, ◌%◌, ◌^◌, ◌≤◌, ◌<◌, min, max, bit_and, bit_or, bit_xor, differ,
  digits, bit_and-bitwise, bit_or-bitwise, bit_xor-bitwise,
}
use mathlib.Core.Path.{◌≡◌, refl, sym, ap, ◌∙◌}
use mathlib.Core.Logic.{◌≢◌}
use mathlib.Core.Bool.{Bool, true, ◌&&◌}
use native.Mathlib.Nat.{pow-suc}
use native.Mathlib.Omega.{arith}
use native.Mathlib.Decide.{ℕ_discrete}
use cmps.Prelude.Tests.{◌==◌, if◌then◌else◌}

-- Both operations go through the digits of `a`, with `leaf` on what is left of `b` at the end.
module _ (leaf : ℕ → ℕ) (op : ℕ → ℕ → ℕ) where
  enough_digits : (n k a b : ℕ) → a ≤ n → digits leaf op (n + k) a b ≡ digits leaf op n a b
  enough_digits n k zero b h = at_zero n
    where
      at_zero : (n : ℕ) → digits leaf op (n + k) zero b ≡ digits leaf op n zero b
      at_zero n = rounds (n + k) ∙ sym (rounds n)
        where
          rounds : (m : ℕ) → digits leaf op m zero b ≡ leaf b
          rounds zero = refl
          rounds (suc m) = refl
  enough_digits zero k (suc a) b h = absurd (omega arith)
  enough_digits (suc n) k (suc a) b h =
      let e : suc n + k ≡ suc (n + k) = omega arith in
      rw e (
        ap (λ (t : ℕ). t * 2 + op (suc a % 2) (b % 2))
          (enough_digits n k (suc a / 2) (b / 2) (omega arith)))

  -- The lowest digit, split off.
  split_digit :
      (a b : ℕ)
      → leaf b ≡ leaf (b / 2) * 2 + op 0 (b % 2)
      → digits leaf op a a b ≡ digits leaf op (a / 2) (a / 2) (b / 2) * 2 + op (a % 2) (b % 2)
  split_digit zero b e = e
  split_digit (suc a) b e =
      let gap : a ≡ suc a / 2 + (a - suc a / 2) = omega arith in
      ap (λ (t : ℕ). t * 2 + op (suc a % 2) (b % 2))
        (ap (λ (t : ℕ). digits leaf op t (suc a / 2) (b / 2)) gap
          ∙ enough_digits (suc a / 2) (a - suc a / 2) (suc a / 2) (b / 2) (omega arith))

bit_and-split : (a b : ℕ) → bit_and a b ≡ bit_and (a / 2) (b / 2) * 2 + min (a % 2) (b % 2)
bit_and-split a b =
    bit_and-bitwise a b
    ∙ split_digit (λ _. 0) min a b (omega arith)
    ∙ ap (λ (t : ℕ). t * 2 + min (a % 2) (b % 2)) (sym (bit_and-bitwise (a / 2) (b / 2)))

bit_or-split : (a b : ℕ) → bit_or a b ≡ bit_or (a / 2) (b / 2) * 2 + max (a % 2) (b % 2)
bit_or-split a b =
    bit_or-bitwise a b
    ∙ split_digit (λ t. t) max a b (omega arith)
    ∙ ap (λ (t : ℕ). t * 2 + max (a % 2) (b % 2)) (sym (bit_or-bitwise (a / 2) (b / 2)))

digit-differ : (x y : ℕ) → x ≤ 1 → y ≤ 1 → differ x y ≡ (x + y) % 2
digit-differ zero zero p q = refl
digit-differ zero (suc zero) p q = refl
digit-differ (suc zero) zero p q = refl
digit-differ (suc zero) (suc zero) p q = refl
digit-differ zero (suc (suc y)) p q = absurd (omega arith)
digit-differ (suc zero) (suc (suc y)) p q = absurd (omega arith)
digit-differ (suc (suc x)) y p q = absurd (omega arith)

bit_xor-split : (a b : ℕ) → bit_xor a b ≡ bit_xor (a / 2) (b / 2) * 2 + (a % 2 + b % 2) % 2
bit_xor-split a b =
    bit_xor-bitwise a b
    ∙ split_digit (λ t. t) differ a b
        (omega (arith, digit-differ 0 (b % 2) (omega arith) (omega arith)))
    ∙ ap (λ (t : ℕ). t * 2 + differ (a % 2) (b % 2)) (sym (bit_xor-bitwise (a / 2) (b / 2)))
    ∙ ap (λ t. bit_xor (a / 2) (b / 2) * 2 + t)
        (digit-differ (a % 2) (b % 2) (omega arith) (omega arith))

-- Bit k of a word, 0 or 1.
pub bit : ℕ → ℕ → ℕ
bit zero w = w % 2
bit (suc k) w = bit k (w / 2)

pub bit-le : (k w : ℕ) → bit k w ≤ 1
unfolding bit
bit-le zero w = omega arith
bit-le (suc k) w = bit-le k (w / 2)

pub bit-bit_and : (k a b : ℕ) → bit k (bit_and a b) ≡ min (bit k a) (bit k b)
unfolding bit
bit-bit_and zero a b = omega (arith, bit_and-split a b)
bit-bit_and (suc k) a b =
    let e : bit_and a b / 2 ≡ bit_and (a / 2) (b / 2) = omega (arith, bit_and-split a b) in
    rw e (bit-bit_and k (a / 2) (b / 2))

pub bit-bit_or : (k a b : ℕ) → bit k (bit_or a b) ≡ max (bit k a) (bit k b)
unfolding bit
bit-bit_or zero a b = omega (arith, bit_or-split a b)
bit-bit_or (suc k) a b =
    let e : bit_or a b / 2 ≡ bit_or (a / 2) (b / 2) = omega (arith, bit_or-split a b) in
    rw e (bit-bit_or k (a / 2) (b / 2))

pub bit-bit_xor : (k a b : ℕ) → bit k (bit_xor a b) ≡ (bit k a + bit k b) % 2
unfolding bit
bit-bit_xor zero a b = omega (arith, bit_xor-split a b)
bit-bit_xor (suc k) a b =
    let e : bit_xor a b / 2 ≡ bit_xor (a / 2) (b / 2) = omega (arith, bit_xor-split a b) in
    rw e (bit-bit_xor k (a / 2) (b / 2))

bit-zero : (k : ℕ) → bit k 0 ≡ 0
unfolding bit
bit-zero zero = refl
bit-zero (suc k) = bit-zero k

half_pow : (k : ℕ) → (2 ^ suc k / 2 ≡ 2 ^ k) × (2 ^ suc k % 2 ≡ 0)
half_pow k = omega (arith, pow-suc 2 k)

pub bit-pow_self : (k : ℕ) → bit k (2 ^ k) ≡ 1
unfolding bit
bit-pow_self zero = refl
bit-pow_self (suc k) = rw ((half_pow k).0) (bit-pow_self k)

pub bit-pow_ne : (j k : ℕ) → j ≢ k → bit j (2 ^ k) ≡ 0
unfolding bit
bit-pow_ne zero zero h = absurd (h refl)
bit-pow_ne zero (suc k) h = (half_pow k).1
bit-pow_ne (suc j) zero h = bit-zero j
bit-pow_ne (suc j) (suc k) h = rw ((half_pow k).0) (bit-pow_ne j k (omega arith))

bit_and-zero : (n a : ℕ) → a < n → bit_and a 0 ≡ 0
bit_and-zero zero a h = absurd (omega arith)
bit_and-zero (suc n) a h = elim (ℕ_discrete a 0) [
  | yes e ↦ rw (e, bit_and-bitwise 0 0)
  | no ne ↦ omega (arith, bit_and-split a 0, bit_and-zero n (a / 2) (omega arith))
]

-- A mask of one bit picks that bit.
pub bit_and-pow : (k w : ℕ) → bit_and w (2 ^ k) ≡ bit k w * 2 ^ k
unfolding bit
bit_and-pow zero w =
    omega (arith, bit_and-split w 1, bit_and-zero (w / 2 + 1) (w / 2) (omega arith))
bit_and-pow (suc k) w = omega (
  arith,
  bit_and-split w (2 ^ suc k),
  half_pow k,
  ap_and,
  bit_and-pow k (w / 2),
  pow-suc 2 k,
  assoc,
)
  where
    ap_and : bit_and (w / 2) (2 ^ suc k / 2) ≡ bit_and (w / 2) (2 ^ k)
    ap_and = rw ((half_pow k).0)

    assoc : bit k (w / 2) * 2 ^ suc k ≡ bit k (w / 2) * 2 ^ k * 2
    assoc = rw (pow-suc 2 k) (omega arith)

-- `~(1 << k)` as a 32-bit mask.
abbrev pub all_but : ℕ → ℕ
all_but k = 2 ^ 32 - 1 - 2 ^ k

-- Row k of the table of these masks, its first `n` bits: bit k is 0 and the others are 1.
row_holds : ℕ → ℕ → Bool
row_holds k zero = true
row_holds k (suc j) = row_holds k j && (bit j (all_but k) == (if j == k then 0 else 1))

table_holds : ℕ → Bool
table_holds zero = true
table_holds (suc k) = row_holds k 32 && table_holds k

masks_table : table_holds 32 ≡ true
unfolding table_holds row_holds bit
masks_table = refl

mask_row : (n k : ℕ) → table_holds n ≡ true → k < n → row_holds k 32 ≡ true
unfolding table_holds
mask_row zero k h lt = absurd (omega arith)
mask_row (suc n) k h lt = elim (ℕ_discrete n k) [
  | yes e ↦ rw (← e) (ground arith)
  | no ne ↦ mask_row n k (ground arith) (omega arith)
]

mask_cell :
    (n k j : ℕ) → row_holds k n ≡ true → j < n → bit j (all_but k) ≡ (if j == k then 0 else 1)
unfolding row_holds
mask_cell zero k j h lt = absurd (omega arith)
mask_cell (suc n) k j h lt = elim (ℕ_discrete n j) [
  | yes e ↦ rw (← e) (ground arith)
  | no ne ↦ mask_cell n k j (ground arith) (omega arith)
]

pub bit-all_but_self : (k : ℕ) → k < 32 → bit k (all_but k) ≡ 0
bit-all_but_self k h = ground (arith, mask_cell 32 k k (mask_row 32 k masks_table h) h)

pub bit-all_but_ne : (j k : ℕ) → k < 32 → j < 32 → j ≢ k → bit j (all_but k) ≡ 1
bit-all_but_ne j k hk hj ne = ground (arith, mask_cell 32 k j (mask_row 32 k masks_table hk) hj)

-- The top bit of a word of 32 bits.
pub bit-top : (w : ℕ) → bit 31 w ≡ w / 2 ^ 31 % 2
unfolding bit
bit-top w = omega arith
