-- ===== src/Machine/Cpu/Arith.antt =====
-- The instructions of machine/mipssim.cc that trap on overflow, against the sum and the difference of
-- the numbers that the registers stand for.
use Prim.Native.Nat.{bit_and, bit_xor}
use cmps.Prelude.{
  ℕ, ◌+◌, ◌*◌, ◌/◌, ◌%◌, ◌^◌, ◌<◌, ◌≡◌, ◌≢◌, ◌⊎◌, inl, inr, refl, ap, Bool, true, false, not, ◌&&◌,
  Option, arith, if◌then◌else◌,
}
use native.Mathlib.Decide.{ℕ_discrete}
use cmps.Prelude.Bits.{bit-bit_xor, bit_and-pow, bit-top}
use cmps.Machine.{Machine, ExceptionType, overflow_exception}
use cmps.Machine.Word.{add, sub, signs_differ}
use cmps.Machine.Decode.{Instruction}
use cmps.Machine.Cpu.{Outcome, add_overflow, addi_overflow, sub_overflow, result, trap}

-- The number that a pattern stands for, plus 2 ^ 31.
abbrev pub excess : ℕ → ℕ
excess a = (a + 2 ^ 31) % 2 ^ 32

sign_bit :
    (a b : ℕ) → bit_and (bit_xor a b) (2 ^ 31) ≡ (a / 2 ^ 31 % 2 + b / 2 ^ 31 % 2) % 2 * 2 ^ 31
sign_bit a b = omega (arith, bit_and-pow 31 (bit_xor a b), bit-bit_xor 31 a b, bit-top a, bit-top b)

signs_same :
    (a b : ℕ) → a < 2 ^ 32 → b < 2 ^ 32 → a / 2 ^ 31 ≡ b / 2 ^ 31 → signs_differ a b ≡ false
signs_same a b p q e = ground (arith, sign_bit a b)

signs_apart :
    (a b : ℕ) → a < 2 ^ 32 → b < 2 ^ 32 → a / 2 ^ 31 ≢ b / 2 ^ 31 → signs_differ a b ≡ true
signs_apart a b p q e = ground (arith, sign_bit a b)

-- The instruction stores the word `v` with `excess v + x ≡ y`, and traps if there is none.
pub data Checked (raise : ExceptionType → ℕ → Machine → Option Machine) (m : Machine)
    (after target x y : ℕ) (out : Option Outcome) : Type 0 where
  stores :
      (v : ℕ)
      → v < 2 ^ 32
      → excess v + x ≡ y
      → out ≡ result after target v m
      → Checked raise m after target x y out
  overflows :
      ((v : ℕ) → v < 2 ^ 32 → excess v + x ≢ y)
      → out ≡ trap raise overflow_exception 0 m
      → Checked raise m after target x y out

module _ (a b : ℕ) (p : a < 2 ^ 32) (q : b < 2 ^ 32) where
  -- The test of ADD and ADDI, with `c` either operand.
  add_test :
      (c : ℕ)
      → (c ≡ a) ⊎ (c ≡ b)
      → ((excess (add a b) + 2 ^ 31 ≡ excess a + excess b)
          × (not (signs_differ a b) && signs_differ c (add a b) ≡ false))
        ⊎ (((v : ℕ) → v < 2 ^ 32 → excess v + 2 ^ 31 ≢ excess a + excess b)
            × (not (signs_differ a b) && signs_differ c (add a b) ≡ true))
  unfolding add
  add_test c or = elim (ℕ_discrete (a / 2 ^ 31) (b / 2 ^ 31)) [
    | no apart ↦
        inl (omega arith, ap (λ z. not z && signs_differ c (add a b)) (signs_apart a b p q apart))
    | yes same ↦ elim (ℕ_discrete (c / 2 ^ 31) (add a b / 2 ^ 31)) [
      | yes kept ↦
          inl (omega arith, ground (arith, signs_same c (add a b) (omega arith) (omega arith) kept))
      | no lost ↦ inr (
        λ v r e. omega arith,
        ground (
          arith,
          signs_same a b p q same,
          signs_apart c (add a b) (omega arith) (omega arith) lost,
        ),
      )
    ]
  ]

  sub_test :
      ((excess (sub a b) + excess b ≡ excess a + 2 ^ 31)
        × (signs_differ a b && signs_differ a (sub a b) ≡ false))
      ⊎ (((v : ℕ) → v < 2 ^ 32 → excess v + excess b ≢ excess a + 2 ^ 31)
          × (signs_differ a b && signs_differ a (sub a b) ≡ true))
  unfolding sub
  sub_test = elim (ℕ_discrete (a / 2 ^ 31) (b / 2 ^ 31)) [
    | yes same ↦
        inl (omega arith, ap (λ z. z && signs_differ a (sub a b)) (signs_same a b p q same))
    | no apart ↦ elim (ℕ_discrete (a / 2 ^ 31) (sub a b / 2 ^ 31)) [
      | yes kept ↦ inl (omega arith, ground (arith, signs_same a (sub a b) p (omega arith) kept))
      | no lost ↦ inr (
        λ v r e. omega arith,
        ground (arith, signs_apart a b p q apart, signs_apart a (sub a b) p (omega arith) lost),
      )
    ]
  ]

-- ADD, ADDI and SUB, on words: each stores the word that stands for the sum, or the difference, of
-- the numbers that its operands stand for, and raises an OverflowException if no word stands for it.
pub arithmetic-Checked :
    (raise : ExceptionType → ℕ → Machine → Option Machine) (i : Instruction) (m : Machine)
    (after : ℕ)
    → m.registers i.rs < 2 ^ 32
    → m.registers i.rt < 2 ^ 32
    → i.extra < 2 ^ 32
    → Checked raise m after i.rd
        (2 ^ 31)
        (excess (m.registers i.rs) + excess (m.registers i.rt))
        (add_overflow raise i m after)
      × Checked raise m after i.rt
          (2 ^ 31)
          (excess (m.registers i.rs) + excess i.extra)
          (addi_overflow raise i m after)
      × Checked raise m after i.rd
          (excess (m.registers i.rt))
          (excess (m.registers i.rs) + 2 ^ 31)
          (sub_overflow raise i m after)
unfolding add_overflow addi_overflow sub_overflow
arithmetic-Checked raise i m after p q r = (
  elim (add_test a b p q a (inl refl)) [
    | inl (e, t) ↦ stores (add a b) (small a b) e (ap choose t)
    | inr (none_fits, t) ↦ overflows none_fits (ap choose t)
  ],
  elim (add_test a i.extra p r i.extra (inr refl)) [
    | inl (e, t) ↦ stores (add a i.extra) (small a i.extra) e (ap choose_immediate t)
    | inr (none_fits, t) ↦ overflows none_fits (ap choose_immediate t)
  ],
  elim (sub_test a b p q) [
    | inl (e, t) ↦ stores (sub a b) (small_sub a b) e (ap choose_sub t)
    | inr (none_fits, t) ↦ overflows none_fits (ap choose_sub t)
  ],
)
  where
    a : ℕ
    a = m.registers i.rs

    b : ℕ
    b = m.registers i.rt

    small : (x y : ℕ) → add x y < 2 ^ 32
    small x y = unfold add in omega arith

    small_sub : (x y : ℕ) → sub x y < 2 ^ 32
    small_sub x y = unfold sub in omega arith

    choose : Bool → Option Outcome
    choose t = if t then trap raise overflow_exception 0 m else result after i.rd (add a b) m

    choose_immediate : Bool → Option Outcome
    choose_immediate t =
        if t then trap raise overflow_exception 0 m else result after i.rt (add a i.extra) m

    choose_sub : Bool → Option Outcome
    choose_sub t = if t then trap raise overflow_exception 0 m else result after i.rd (sub a b) m
