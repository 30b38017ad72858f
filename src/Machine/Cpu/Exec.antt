-- ===== src/Machine/Cpu/Exec.antt =====
-- Every case of Machine::OneInstruction of machine/mipssim.cc, and what follows the switch.
use cmps.Prelude.{
  ℕ, ◌<◌, refl, Bool, true, false, Option, none, some, arith, if◌then◌else◌, ◌>>=◌, ◌>>◌, assert,
}
use cmps.Machine.{Machine, ExceptionType}
use cmps.Machine.Decode.{
  OpCode, Instruction, op_add, op_addi, op_addiu, op_addu, op_and, op_andi, op_beq, op_bgez,
  op_bgezal, op_bgtz, op_blez, op_bltz, op_bltzal, op_bne, op_div, op_divu, op_j, op_jal, op_jalr,
  op_jr, op_lb, op_lbu, op_lh, op_lhu, op_lui, op_lw, op_lwl, op_lwr, op_mfhi, op_mflo, op_mthi,
  op_mtlo, op_mult, op_multu, op_nor, op_or, op_ori, op_rfe, op_sb, op_sh, op_sll, op_sllv, op_slt,
  op_slti, op_sltiu, op_sltu, op_sra, op_srav, op_srl, op_srlv, op_sub, op_subu, op_sw, op_swl,
  op_swr, op_xor, op_xori, op_syscall, op_unimp, op_res, special, bcond,
}
use cmps.Machine.Cpu.{
  Outcome, completed, result, hi_lo, trap, reading, load_byte, load_half, load_word, load_left,
  load_right, store_left, store_right, add_overflow, addi_overflow, sub_overflow, exec_last,
  exec_move, exec_load, exec,
}
use cmps.Machine.Cpu.Step.{
  Above, Kept, some-Kept, result-Kept, branch-Kept, link-Above, hi_lo-Kept, trap-Kept, reading-Kept,
  writing-Kept,
}

abbrev pub self : (m : Machine) → Above m m
self m q above = refl

module _ (raise : ExceptionType → ℕ → Machine → Option Machine) (i : Instruction)
    (rs_small : i.rs < 32) (rt_small : i.rt < 32) (rd_small : i.rd < 32) (m : Machine)
    (after : ℕ) where
  abbrev load_Kept :
      (n : Machine) (v : ℕ) → Above m n → Kept raise m (some (completed after i.rt v n))
  load_Kept n v above = some-Kept raise m (completed after i.rt v n) (rt_small, above)

  to_rt : (v : ℕ) → Kept raise m (result after i.rt v m)
  to_rt v = result-Kept raise m after i.rt v (omega arith)

  to_rd : (v : ℕ) → Kept raise m (result after i.rd v m)
  to_rd v = result-Kept raise m after i.rd v (omega arith)

  trap_if :
      (test : Bool) (e : ExceptionType) (a : ℕ) (out : Option Outcome)
      → Kept raise m out
      → Kept raise m (if test then trap raise e a m else out)
  trap_if true e a out k = trap-Kept raise m m e a
  trap_if false e a out k = k

  unless_trap :
      (test : Bool) (e : ExceptionType) (a : ℕ) (out : Option Outcome)
      → Kept raise m out
      → Kept raise m (if test then out else trap raise e a m)
  unless_trap true e a out k = k
  unless_trap false e a out k = trap-Kept raise m m e a

  asserted :
      (test : Bool) (out : Option Outcome) → Kept raise m out → Kept raise m (assert test >> out)
  asserted true out k = k
  asserted false out k = λ o e. absurd (ground (arith, e))

  divided :
      (test : Bool) (q r : Option ℕ)
      → Kept raise m (
          if test
          then hi_lo after (0, 0) m
          else q >>= λ quotient. r >>= λ remainder. hi_lo after (remainder, quotient) m)
  divided true q r = hi_lo-Kept raise m after (0, 0)
  divided false none r = λ o e. absurd (ground (arith, e))
  divided false (some x) none = λ o e. absurd (ground (arith, e))
  divided false (some x) (some y) = hi_lo-Kept raise m after (y, x)

  words_read :
      (addr : ℕ) (then_do : ℕ → Machine → Option Outcome)
      → ((v : ℕ) (n : Machine) → Above m n → Kept raise m (then_do v n))
      → Kept raise m (reading raise addr 4 m then_do)
  words_read addr then_do = reading-Kept raise m addr 4 then_do

  pub exec-Kept : (op : OpCode) → Kept raise m (exec raise op i m after)
  unfolding exec exec_load exec_move exec_last load_byte load_half load_word load_left load_right
      store_left store_right add_overflow addi_overflow sub_overflow
  exec-Kept op_add = trap_if _ _ _ _ (to_rd _)
  exec-Kept op_addi = trap_if _ _ _ _ (to_rt _)
  exec-Kept op_addiu = to_rt _
  exec-Kept op_addu = to_rd _
  exec-Kept op_and = to_rd _
  exec-Kept op_andi = to_rt _
  exec-Kept op_beq = branch-Kept raise m m after i _ (self m)
  exec-Kept op_bgez = branch-Kept raise m m after i _ (self m)
  exec-Kept op_bgezal = branch-Kept raise m _ after i _ (link-Above 31 m (omega arith))
  exec-Kept op_bgtz = branch-Kept raise m m after i _ (self m)
  exec-Kept op_blez = branch-Kept raise m m after i _ (self m)
  exec-Kept op_bltz = branch-Kept raise m m after i _ (self m)
  exec-Kept op_bltzal = branch-Kept raise m _ after i _ (link-Above 31 m (omega arith))
  exec-Kept op_bne = branch-Kept raise m m after i _ (self m)
  exec-Kept op_div = divided _ _ _
  exec-Kept op_divu = hi_lo-Kept raise m after _
  exec-Kept op_j = some-Kept raise m _ (omega arith, self m)
  exec-Kept op_jal = some-Kept raise m _ (omega arith, link-Above 31 m (omega arith))
  exec-Kept op_jalr = some-Kept raise m _ (omega arith, link-Above i.rd m (omega arith))
  exec-Kept op_jr = some-Kept raise m _ (omega arith, self m)
  exec-Kept op_lb = reading-Kept raise m _ 1 _ (λ v n above. load_Kept n _ above)
  exec-Kept op_lbu = reading-Kept raise m _ 1 _ (λ v n above. load_Kept n _ above)
  exec-Kept op_lh = trap_if _ _ _ _ (reading-Kept raise m _ 2 _ (λ v n above. load_Kept n _ above))
  exec-Kept op_lhu = trap_if _ _ _ _ (reading-Kept raise m _ 2 _ (λ v n above. load_Kept n _ above))
  exec-Kept op_lui = to_rt _
  exec-Kept op_lw = unless_trap _ _ _ _ (words_read _ _ (λ v n above. load_Kept n _ above))
  exec-Kept op_lwl = asserted _ _ (words_read _ _ (λ v n above. load_Kept n _ above))
  exec-Kept op_lwr = asserted _ _ (words_read _ _ (λ v n above. load_Kept n _ above))
  exec-Kept op_mfhi = to_rd _
  exec-Kept op_mflo = to_rd _
  exec-Kept op_mthi = result-Kept raise m after 32 _ (omega arith)
  exec-Kept op_mtlo = result-Kept raise m after 33 _ (omega arith)
  exec-Kept op_mult = hi_lo-Kept raise m after _
  exec-Kept op_multu = hi_lo-Kept raise m after _
  exec-Kept op_nor = to_rd _
  exec-Kept op_or = to_rd _
  exec-Kept op_ori = to_rt _
  exec-Kept op_rfe = λ o e. absurd (ground (arith, e))
  exec-Kept op_sb = writing-Kept raise m m after _ _ _ (self m)
  exec-Kept op_sh = writing-Kept raise m m after _ _ _ (self m)
  exec-Kept op_sll = to_rd _
  exec-Kept op_sllv = to_rd _
  exec-Kept op_slt = to_rd _
  exec-Kept op_slti = to_rt _
  exec-Kept op_sltiu = to_rt _
  exec-Kept op_sltu = to_rd _
  exec-Kept op_sra = to_rd _
  exec-Kept op_srav = to_rd _
  exec-Kept op_srl = to_rd _
  exec-Kept op_srlv = to_rd _
  exec-Kept op_sub = trap_if _ _ _ _ (to_rd _)
  exec-Kept op_subu = to_rd _
  exec-Kept op_sw = writing-Kept raise m m after _ _ _ (self m)
  exec-Kept op_swl =
      asserted _ _ (words_read _ _ (λ v n above. writing-Kept raise m n after _ _ _ above))
  exec-Kept op_swr =
      asserted _ _ (words_read _ _ (λ v n above. writing-Kept raise m n after _ _ _ above))
  exec-Kept op_xor = to_rd _
  exec-Kept op_xori = to_rt _
  exec-Kept op_syscall = trap-Kept raise m m _ _
  exec-Kept op_unimp = trap-Kept raise m m _ _
  exec-Kept op_res = trap-Kept raise m m _ _
  exec-Kept special = λ o e. absurd (ground (arith, e))
  exec-Kept bcond = λ o e. absurd (ground (arith, e))
