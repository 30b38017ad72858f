-- ===== src/Machine/Mult.antt =====
-- Mult of machine/mipssim.cc: the 64-bit product of two words by shifts and additions.
pub mod Value
mod Tests
use cmps.Prelude.{
  ℕ, zero, suc, ◌+◌, ◌-◌, ◌*◌, ◌/◌, ◌%◌, ◌^◌, Bool, true, false, not, ◌&&◌, ◌||◌, ltb, leb, ◌==◌,
  if◌then◌else◌,
}
use cmps.Machine.Word.{add, negate, is_negative, complement, magnitude, shift_right}

-- The variables of the loop.
pub record Product : Type 0 where
  pub a : ℕ
  pub b_hi : ℕ
  pub b_lo : ℕ
  pub hi : ℕ
  pub lo : ℕ

-- `lo += bLo`, with the carry, and `hi += bHi`.
unfoldable pub accumulate : Product → Product
unfolding add
accumulate s =
    let lo = add s.lo s.b_lo in
    record s { lo = lo; hi = add (if ltb lo s.b_lo then add s.hi 1 else s.hi) s.b_hi }

unfoldable pub shift : Product → Product
unfolding shift_right
shift s = record s {
  b_hi = s.b_hi * 2 % 2 ^ 32 + (if leb (2 ^ 31) s.b_lo then 1 else 0);
  b_lo = s.b_lo * 2 % 2 ^ 32;
  a = shift_right s.a 1;
}

-- The rounds of the loop that are left.
pub rounds : ℕ → Product → Product
unfolding accumulate shift
rounds zero s = s
rounds (suc n) s =
    let odd = accumulate s in
    let rest_odd = rounds n (shift odd) in
    let rest_even = rounds n (shift s) in
    if s.a % 2 == 1 then (if s.a / 2 == 0 then odd else rest_odd) else rest_even

unfoldable pub negate_pair : ℕ × ℕ → ℕ × ℕ
unfolding add
negate_pair (hi, lo) =
    let lo' = add (complement lo) 1 in
    (if lo' == 0 then add (complement hi) 1 else complement hi, lo')

-- The result is what Mult stores at hiPtr and loPtr.
unfoldable pub mult : ℕ → ℕ → Bool → ℕ × ℕ
unfolding negate_pair
mult a b signed =
    let x = if signed then magnitude a else a in
    let y = if signed then magnitude b else b in
    let s = rounds 32 (record { a = x; b_hi = 0; b_lo = y; hi = 0; lo = 0 }) in
    let negative =
      signed
      && ((is_negative a && not (is_negative b)) || (not (is_negative a) && is_negative b)) in
    if a == 0 || b == 0 then (0, 0) else if negative then negate_pair (s.hi, s.lo) else (s.hi, s.lo)
