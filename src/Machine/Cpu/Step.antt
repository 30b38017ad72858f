-- ===== src/Machine/Cpu/Step.antt =====
-- Machine::OneInstruction of machine/mipssim.cc: register 0, the delayed load and the program
-- counters, for every instruction.
use cmps.Prelude.{
  subst, ℕ, ◌≤◌, ◌<◌, ◌≡◌, inl, inr, ap, ◌∙◌, Bool, Option, some, arith, Option-cases,
}
use cmps.Machine.{Machine, ExceptionType, set_register}
use mathlib.Core.Option.{some-injective}
use cmps.Machine.Memory.{read_mem, write_mem}
use cmps.Machine.Memory.Registers.{Raised, kept, failed, read_mem-Read, write_mem-Written}
use cmps.Machine.Decode.{Instruction}
use cmps.Machine.Cpu.{
  Outcome, trapped, completed, result, branch, link, hi_lo, trap, reading, writing,
}

-- The registers that are not general purpose registers, hi or lo are the same.
abbrev pub Above : Machine → Machine → Type 0
Above m m' = (r : ℕ) → 34 ≤ r → m'.registers r ≡ m.registers r

pub link-Above : (r : ℕ) (m : Machine) → r < 34 → Above m (link r m)
unfolding link
link-Above r m small q above = ground arith

module _ (raise : ExceptionType → ℕ → Machine → Option Machine) where
  abbrev pub Ends : Machine → Outcome → Type 0
  Ends m (trapped m') = Raised raise m'
  Ends m (completed after load_reg load_value m') = (load_reg < 32) × Above m m'

  abbrev pub Kept : Machine → Option Outcome → Type 0
  Kept m out = (o : Outcome) → out ≡ some o → Ends m o

  pub some-Kept : (m : Machine) (o : Outcome) → Ends m o → Kept m (some o)
  some-Kept m o ends o' e = subst (Ends m) (some-injective o o' e) ends

  pub result-Kept : (m : Machine) (after r v : ℕ) → r < 34 → Kept m (result after r v m)
  result-Kept m after r v small =
      some-Kept m (completed after 0 0 (set_register r v m)) (omega arith, λ q above. ground arith)

  pub branch-Kept :
      (m n : Machine) (after : ℕ) (i : Instruction) (taken : Bool)
      → Above m n
      → Kept m (branch after i taken n)
  unfolding branch
  branch-Kept m n after i taken above = some-Kept m _ (omega arith, above)

  pub hi_lo-Kept : (m : Machine) (after : ℕ) (p : ℕ × ℕ) → Kept m (hi_lo after p m)
  hi_lo-Kept m after (hi, lo) = some-Kept m _ (omega arith, λ q above. ground arith)

  pub trap-Kept : (m n : Machine) (e : ExceptionType) (a : ℕ) → Kept m (trap raise e a n)
  unfolding trap
  trap-Kept m n e a o run = elim (Option-cases (raise e a n)) [
    | inl dead ↦ absurd (ground (arith, dead, run))
    | inr (n', back) ↦ some-Kept m (trapped n') (e, a, n, back) o (ground (arith, back, run))
  ]

  pub reading-Kept :
      (m : Machine) (addr size : ℕ) (then_do : ℕ → Machine → Option Outcome)
      → ((v : ℕ) (n : Machine) → Above m n → Kept m (then_do v n))
      → Kept m (reading raise addr size m then_do)
  unfolding reading
  reading-Kept m addr size then_do next o e = elim (Option-cases (read_mem raise m addr size)) [
    | inl dead ↦ absurd (ground (arith, dead, e))
    | inr ((v, n), run) ↦ elim (read_mem-Read raise m addr size v n run) [
      | kept value is same ↦
          next value n (λ q above. ap (λ f. f q) same) o (ground (arith, run, is, e))
      | failed is (x, a, n', back) ↦
          some-Kept m (trapped n) (x, a, n', back) o (ground (arith, run, is, e))
    ]
  ]

  pub writing-Kept :
      (m n : Machine) (after addr size value : ℕ)
      → Above m n
      → Kept m (writing raise after addr size value n)
  unfolding writing
  writing-Kept m n after addr size value above o e =
      elim (Option-cases (write_mem raise n addr size value)) [
        | inl dead ↦ absurd (ground (arith, dead, e))
        | inr ((ok, n'), run) ↦ elim (write_mem-Written raise n addr size value ok n' run) [
          | kept is same ↦
              some-Kept m (completed after 0 0 n')
                (omega arith, λ q r. ap (λ f. f q) same ∙ above q r) o (ground (arith, run, is, e))
          | failed is (x, a, n'', back) ↦
              some-Kept m (trapped n') (x, a, n'', back) o (ground (arith, run, is, e))
        ]
      ]
