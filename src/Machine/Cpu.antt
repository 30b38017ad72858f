-- ===== src/Machine/Cpu.antt =====
-- Machine::OneInstruction of machine/mipssim.cc. The switch is cut at some of its cases into
-- functions that follow each other; a case that the pieces do not name is the next piece's.
pub mod Arith
pub mod Step
pub mod Exec
pub mod Advance
mod Tests
use Prim.Native.Nat.{bit_and, bit_or, bit_xor}
use cmps.Prelude.{
  ℕ, ◌+◌, ◌-◌, ◌*◌, ◌/◌, ◌%◌, ◌^◌, Bool, true, false, not, ◌&&◌, ◌||◌, Option, none, some, ltb, leb,
  ◌==◌, if◌then◌else◌, ◌>>=◌, ◌>>◌, assert,
}
use cmps.Machine.{
  Machine, ExceptionType, syscall_exception, address_error_exception, overflow_exception,
  illegal_instr_exception, set_register, delayed_load,
}
use cmps.Machine.Memory.{read_mem, write_mem}
use cmps.Machine.Word.{
  add, sub, complement, is_negative, signs_differ, signed_less, signed_div, signed_mod, shift_left,
  shift_right, of_bool, extend,
}
use cmps.Machine.Decode.{
  OpCode, Instruction, decode, op_add, op_addi, op_addiu, op_addu, op_and, op_andi, op_beq, op_bgez,
  op_bgezal, op_bgtz, op_blez, op_bltz, op_bltzal, op_bne, op_div, op_divu, op_j, op_jal, op_jalr,
  op_jr, op_lb, op_lbu, op_lh, op_lhu, op_lui, op_lw, op_lwl, op_lwr, op_mfhi, op_mflo, op_mthi,
  op_mtlo, op_mult, op_multu, op_nor, op_or, op_ori, op_sb, op_sh, op_sll, op_sllv, op_slt, op_slti,
  op_sltiu, op_sltu, op_sra, op_srav, op_srl, op_srlv, op_sub, op_subu, op_sw, op_swl, op_swr,
  op_xor, op_xori, op_syscall, op_unimp, op_res,
}
use cmps.Machine.Mult.{mult}
use cmps.Machine.Reg

-- `trapped` is a return from the switch, after an exception; otherwise the machine goes on, with
-- pcAfter and the load to be delayed.
pub data Outcome : Type 0 where
  trapped : Machine → Outcome
  completed : (after : ℕ) (load_reg : ℕ) (load_value : ℕ) → Machine → Outcome

abbrev pub result : ℕ → ℕ → ℕ → Machine → Option Outcome
result after r v m = some (completed after 0 0 (set_register r v m))

abbrev pub branch : ℕ → Instruction → Bool → Machine → Option Outcome
unfolding add shift_left
branch after i taken m = some (
    completed (if taken then add (m.registers Reg.next_pc) (shift_left i.extra 2) else after) 0 0 m)

abbrev pub link : ℕ → Machine → Machine
unfolding add
link r m = set_register r (add (m.registers Reg.next_pc) 4) m

abbrev pub hi_lo : ℕ → ℕ × ℕ → Machine → Option Outcome
hi_lo after (hi, lo) m =
    some (completed after 0 0 (set_register Reg.lo lo (set_register Reg.hi hi m)))

pub advance_pc : ℕ → Machine → Machine
advance_pc after m =
    let m₁ = set_register Reg.prev_pc (m.registers Reg.pc) m in
    let m₂ = set_register Reg.pc (m₁.registers Reg.next_pc) m₁ in set_register Reg.next_pc after m₂

pub finish : Outcome → Machine
unfolding delayed_load
finish (trapped m) = m
finish (completed after load_reg load_value m) =
    advance_pc after (delayed_load load_reg load_value m)

module _ (raise : ExceptionType → ℕ → Machine → Option Machine) where
  pub trap : ExceptionType → ℕ → Machine → Option Outcome
  trap e addr m = raise e addr m >>= λ m'. some (trapped m')

  -- `if (!ReadMem(addr, size, &value)) return;`, and then what is done with the value.
  pub reading : ℕ → ℕ → Machine → (ℕ → Machine → Option Outcome) → Option Outcome
  reading addr size m then_do = do
    (v, m') ← read_mem raise m addr size
    elim v [ none ↦ some (trapped m') | some value ↦ then_do value m' ]

  pub writing : ℕ → ℕ → ℕ → ℕ → Machine → Option Outcome
  writing after addr size value m = do
    (written, m') ← write_mem raise m addr size value
    some (if written then completed after 0 0 m' else trapped m')

  pub load_byte : Bool → Instruction → Machine → ℕ → Option Outcome
  unfolding add extend
  load_byte signed i m after =
      reading (add (m.registers i.rs) i.extra) 1 m
        (λ value m'. some (completed after i.rt (extend signed 8 value) m'))

  pub load_half : Bool → Instruction → Machine → ℕ → Option Outcome
  unfolding add extend
  load_half signed i m after =
      let addr = add (m.registers i.rs) i.extra in
      if addr % 2 == 1
      then trap address_error_exception addr m
      else reading addr 2 m (λ value m'. some (completed after i.rt (extend signed 16 value) m'))

  pub load_word : Instruction → Machine → ℕ → Option Outcome
  unfolding add
  load_word i m after =
      let addr = add (m.registers i.rs) i.extra in
      if addr % 4 == 0
      then reading addr 4 m (λ value m'. some (completed after i.rt value m'))
      else trap address_error_exception addr m

  -- After the assertion only case 0 of the inner switch is left, here and in the three below.
  pub load_left : Instruction → Machine → ℕ → Option Outcome
  unfolding add
  load_left i m after = do
    let addr = add (m.registers i.rs) i.extra
    assert (addr % 4 == 0)
    reading addr 4 m (λ value m'. some (completed after i.rt value m'))

  pub load_right : Instruction → Machine → ℕ → Option Outcome
  unfolding add
  load_right i m after = do
    let addr = add (m.registers i.rs) i.extra
    assert (addr % 4 == 0)
    reading addr 4 m (λ value m'.
        let old =
          if m'.registers Reg.load == i.rt
          then m'.registers Reg.load_value
          else m'.registers i.rt in
        some (completed after i.rt (old / 2 ^ 8 * 2 ^ 8 + value / 2 ^ 24) m'))

  pub store_left : Instruction → Machine → ℕ → Option Outcome
  unfolding add
  store_left i m after = do
    let addr = add (m.registers i.rs) i.extra
    assert (addr % 4 == 0)
    reading addr 4 m (λ value m'. writing after addr 4 (m'.registers i.rt) m')

  pub store_right : Instruction → Machine → ℕ → Option Outcome
  unfolding add
  store_right i m after = do
    let addr = add (m.registers i.rs) i.extra
    assert (addr % 4 == 0)
    reading addr 4 m
        (λ value m'. writing after addr 4 (value % 2 ^ 24 + m'.registers i.rt * 2 ^ 24 % 2 ^ 32) m')

  pub add_overflow : Instruction → Machine → ℕ → Option Outcome
  unfolding add
  add_overflow i m after =
      let a = m.registers i.rs in
      let b = m.registers i.rt in
      let sum = add a b in
      if not (signs_differ a b) && signs_differ a sum
      then trap overflow_exception 0 m
      else result after i.rd sum m

  pub addi_overflow : Instruction → Machine → ℕ → Option Outcome
  unfolding add
  addi_overflow i m after =
      let a = m.registers i.rs in
      let sum = add a i.extra in
      if not (signs_differ a i.extra) && signs_differ i.extra sum
      then trap overflow_exception 0 m
      else result after i.rt sum m

  pub sub_overflow : Instruction → Machine → ℕ → Option Outcome
  unfolding sub
  sub_overflow i m after =
      let a = m.registers i.rs in
      let b = m.registers i.rt in
      let diff = sub a b in
      if signs_differ a b && signs_differ a diff
      then trap overflow_exception 0 m
      else result after i.rd diff m

  -- OP_SLT to the end; the default fails an assertion.
  pub exec_last : OpCode → Instruction → Machine → ℕ → Option Outcome
  unfolding add sub shift_left shift_right
  exec_last op_slt i m after =
      result after i.rd (of_bool (signed_less (m.registers i.rs) (m.registers i.rt))) m
  exec_last op_slti i m after =
      result after i.rt (of_bool (signed_less (m.registers i.rs) i.extra)) m
  exec_last op_sltiu i m after = result after i.rt (of_bool (ltb (m.registers i.rs) i.extra)) m
  exec_last op_sltu i m after =
      result after i.rd (of_bool (ltb (m.registers i.rs) (m.registers i.rt))) m
  exec_last op_sra i m after = result after i.rd (shift_right (m.registers i.rt) i.extra) m
  exec_last op_srav i m after =
      result after i.rd (shift_right (m.registers i.rt) (m.registers i.rs % 2 ^ 5)) m
  exec_last op_srl i m after = result after i.rd (shift_right (m.registers i.rt) i.extra) m
  exec_last op_srlv i m after =
      result after i.rd (shift_right (m.registers i.rt) (m.registers i.rs % 2 ^ 5)) m
  exec_last op_sub i m after = sub_overflow i m after
  exec_last op_subu i m after = result after i.rd (sub (m.registers i.rs) (m.registers i.rt)) m
  exec_last op_sw i m after = writing after (add (m.registers i.rs) i.extra) 4 (m.registers i.rt) m
  exec_last op_swl i m after = store_left i m after
  exec_last op_swr i m after = store_right i m after
  exec_last op_syscall i m after = trap syscall_exception 0 m
  exec_last op_xor i m after = result after i.rd (bit_xor (m.registers i.rs) (m.registers i.rt)) m
  exec_last op_xori i m after = result after i.rt (bit_xor (m.registers i.rs) (i.extra % 2 ^ 16)) m
  exec_last op_res i m after = trap illegal_instr_exception 0 m
  exec_last op_unimp i m after = trap illegal_instr_exception 0 m
  exec_last op i m after = none

  -- OP_MFHI to OP_SLLV.
  pub exec_move : OpCode → Instruction → Machine → ℕ → Option Outcome
  unfolding exec_last mult add shift_left
  exec_move op_mfhi i m after = result after i.rd (m.registers Reg.hi) m
  exec_move op_mflo i m after = result after i.rd (m.registers Reg.lo) m
  exec_move op_mthi i m after = result after Reg.hi (m.registers i.rs) m
  exec_move op_mtlo i m after = result after Reg.lo (m.registers i.rs) m
  exec_move op_mult i m after = hi_lo after (mult (m.registers i.rs) (m.registers i.rt) true) m
  exec_move op_multu i m after = hi_lo after (mult (m.registers i.rs) (m.registers i.rt) false) m
  exec_move op_nor i m after =
      result after i.rd (complement (bit_or (m.registers i.rs) (m.registers i.rt))) m
  exec_move op_or i m after = result after i.rd (bit_or (m.registers i.rs) (m.registers i.rs)) m
  exec_move op_ori i m after = result after i.rt (bit_or (m.registers i.rs) (i.extra % 2 ^ 16)) m
  exec_move op_sb i m after = writing after (add (m.registers i.rs) i.extra) 1 (m.registers i.rt) m
  exec_move op_sh i m after = writing after (add (m.registers i.rs) i.extra) 2 (m.registers i.rt) m
  exec_move op_sll i m after = result after i.rd (shift_left (m.registers i.rt) i.extra) m
  exec_move op_sllv i m after =
      result after i.rd (shift_left (m.registers i.rt) (m.registers i.rs % 2 ^ 5)) m
  exec_move op i m after = exec_last op i m after

  -- OP_DIV to OP_LWR.
  pub exec_load : OpCode → Instruction → Machine → ℕ → Option Outcome
  unfolding exec_move signed_div signed_mod shift_left
  exec_load op_div i m after =
      let a = m.registers i.rs in
      let b = m.registers i.rt in
      if b == 0 then hi_lo after (0, 0) m else (do
        quotient ← signed_div a b
        -- `registers[LoReg]` is written before the remainder is taken; rs and rt are below 32.
        remainder ← signed_mod a b
        hi_lo after (remainder, quotient) m)
  exec_load op_divu i m after =
      let a = m.registers i.rs in
      let b = m.registers i.rt in hi_lo after (if b == 0 then (0, 0) else (a % b, a / b)) m
  exec_load op_jal i m after =
      some (completed (after / 2 ^ 28 * 2 ^ 28 + shift_left i.extra 2) 0 0 (link Reg.r31 m))
  exec_load op_j i m after = some (completed (after / 2 ^ 28 * 2 ^ 28 + shift_left i.extra 2) 0 0 m)
  exec_load op_jalr i m after =
      let linked = link i.rd m in some (completed (linked.registers i.rs) 0 0 linked)
  exec_load op_jr i m after = some (completed (m.registers i.rs) 0 0 m)
  exec_load op_lb i m after = load_byte true i m after
  exec_load op_lbu i m after = load_byte false i m after
  exec_load op_lh i m after = load_half true i m after
  exec_load op_lhu i m after = load_half false i m after
  exec_load op_lui i m after = result after i.rt (shift_left i.extra 16) m
  exec_load op_lw i m after = load_word i m after
  exec_load op_lwl i m after = load_left i m after
  exec_load op_lwr i m after = load_right i m after
  exec_load op i m after = exec_move op i m after

  -- OP_ADD to OP_BNE.
  pub exec : OpCode → Instruction → Machine → ℕ → Option Outcome
  unfolding exec_load add shift_left
  exec op_add i m after = add_overflow i m after
  exec op_addi i m after = addi_overflow i m after
  exec op_addiu i m after = result after i.rt (add (m.registers i.rs) i.extra) m
  exec op_addu i m after = result after i.rd (add (m.registers i.rs) (m.registers i.rt)) m
  exec op_and i m after = result after i.rd (bit_and (m.registers i.rs) (m.registers i.rt)) m
  exec op_andi i m after = result after i.rt (bit_and (m.registers i.rs) (i.extra % 2 ^ 16)) m
  exec op_beq i m after = branch after i (m.registers i.rs == m.registers i.rt) m
  exec op_bgezal i m after =
      let linked = link Reg.r31 m in
      branch after i (not (is_negative (linked.registers i.rs))) linked
  exec op_bgez i m after = branch after i (not (is_negative (m.registers i.rs))) m
  exec op_bgtz i m after = branch after i (signed_less 0 (m.registers i.rs)) m
  exec op_blez i m after = branch after i (not (signed_less 0 (m.registers i.rs))) m
  exec op_bltzal i m after =
      let linked = link Reg.r31 m in branch after i (is_negative (linked.registers i.rs)) linked
  exec op_bltz i m after = branch after i (is_negative (m.registers i.rs)) m
  exec op_bne i m after = branch after i (not (m.registers i.rs == m.registers i.rt)) m
  exec op i m after = exec_load op i m after

  pub one_instruction : Machine → Option Machine
  unfolding add exec finish
  one_instruction m = do
    (raw, m') ← read_mem raise m (m.registers Reg.pc) 4
    elim raw [
      | none ↦ some m'
      | some value ↦ do
        i ← decode value
        outcome ← exec i.op_code i m' (add (m'.registers Reg.next_pc) 4)
        some (finish outcome)
    ]
