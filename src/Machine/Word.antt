-- ===== src/Machine/Word.antt =====
-- The arithmetic of C on `int` and `unsigned int`, on 32-bit patterns: numbers below 2 ^ 32. A
-- pattern from 2 ^ 31 on stands for itself less 2 ^ 32.
use Prim.Native.Nat.{bit_and, bit_xor}
use cmps.Prelude.{
  ℕ, ◌+◌, ◌-◌, ◌*◌, ◌/◌, ◌%◌, ◌^◌, Bool, true, false, not, ◌&&◌, ◌||◌, Option, some, ltb, leb, ◌==◌,
  if◌then◌else◌, ◌>>◌, assert,
}

abbrev pub is_negative : ℕ → Bool
is_negative a = leb (2 ^ 31) a

unfoldable pub add : ℕ → ℕ → ℕ
add a b = (a + b) % 2 ^ 32

unfoldable pub sub : ℕ → ℕ → ℕ
sub a b = (a + (2 ^ 32 - b)) % 2 ^ 32

unfoldable pub negate : ℕ → ℕ
negate a = (2 ^ 32 - a) % 2 ^ 32

abbrev pub complement : ℕ → ℕ
complement a = 2 ^ 32 - 1 - a

-- `((a ^ b) & SIGN_BIT) != 0`
abbrev pub signs_differ : ℕ → ℕ → Bool
signs_differ a b = not (bit_and (bit_xor a b) (2 ^ 31) == 0)

-- `a < b` on ints
abbrev pub signed_less : ℕ → ℕ → Bool
signed_less a b =
    if is_negative a
    then (if is_negative b then ltb a b else true)
    else if is_negative b
    then false
    else ltb a b

abbrev pub magnitude : ℕ → ℕ
magnitude a = if is_negative a then 2 ^ 32 - a else a

-- `a / b` on ints, which cuts towards 0. The host faults on the one quotient that does not fit.
unfoldable pub signed_div : ℕ → ℕ → Option ℕ
signed_div a b = do
  assert (not (b == 0))
  assert (not (a == 2 ^ 31 && b == 2 ^ 32 - 1))
  let quotient = magnitude a / magnitude b
  some (
      if (is_negative a && not (is_negative b)) || (not (is_negative a) && is_negative b)
      then negate quotient
      else quotient)

-- `a % b` on ints, with the sign of `a`
unfoldable pub signed_mod : ℕ → ℕ → Option ℕ
signed_mod a b = do
  assert (not (b == 0))
  assert (not (a == 2 ^ 31 && b == 2 ^ 32 - 1))
  let remainder = magnitude a % magnitude b
  some (if is_negative a then negate remainder else remainder)

unfoldable pub shift_left : ℕ → ℕ → ℕ
shift_left a n = a * 2 ^ n % 2 ^ 32

-- `a >> n` on an int, which copies the sign into the bits that come in
unfoldable pub shift_right : ℕ → ℕ → ℕ
shift_right a n = if is_negative a then a / 2 ^ n + (2 ^ 32 - 2 ^ 32 / 2 ^ n) else a / 2 ^ n

abbrev pub of_bool : Bool → ℕ
of_bool b = if b then 1 else 0

-- `x | mask` where `mask` has ones above the lowest `2 ^ k` that `x` uses, or `x & (2 ^ k - 1)`
unfoldable pub extend : Bool → ℕ → ℕ → ℕ
extend signed k x =
    if signed && leb (2 ^ (k - 1)) (x % 2 ^ k) then x % 2 ^ k + (2 ^ 32 - 2 ^ k) else x % 2 ^ k
