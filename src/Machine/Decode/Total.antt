-- ===== src/Machine/Decode/Total.antt =====
-- Instruction::Decode of machine/mipssim.cc, with the tables of machine/mipssim.h, on every word.
use cmps.Prelude.{
  ℕ, zero, suc, ◌%◌, ◌^◌, ◌≡◌, refl, Bool, true, false, ◌&&◌, List, [], ◌∷◌, some, arith, length,
  get_elem?, get_elem?-of_lt,
}
use cmps.Machine.Decode.{
  OpCode, op_rfe, special, bcond, op_add, op_addi, op_addiu, op_addu, op_and, op_andi, op_beq,
  op_bgez, op_bgezal, op_bgtz, op_blez, op_bltz, op_bltzal, op_bne, op_div, op_divu, op_j, op_jal,
  op_jalr, op_jr, op_lb, op_lbu, op_lh, op_lhu, op_lui, op_lw, op_lwl, op_lwr, op_mfhi, op_mflo,
  op_mthi, op_mtlo, op_mult, op_multu, op_nor, op_or, op_ori, op_sb, op_sh, op_sll, op_sllv, op_slt,
  op_slti, op_sltiu, op_sltu, op_sra, op_srav, op_srl, op_srlv, op_sub, op_subu, op_sw, op_swl,
  op_swr, op_xor, op_xori, op_syscall, op_unimp, op_res, OpInfo, Instruction, decode, op_table,
  special_table, second_code, bcond_code, field, extra_of,
}

-- The switch of OneInstruction has a case for the operation.
abbrev pub has_case : OpCode → Bool
has_case op_rfe = false
has_case special = false
has_case bcond = false
has_case op = true

-- The operation has a case, or stands for a second table.
abbrev decodes : OpCode → Bool
decodes op_rfe = false
decodes op = true

module _ {ℓ} {A : Type ℓ} where
  abbrev all : (A → Bool) → List A → Bool
  all p [] = true
  all p (x ∷ xs) = p x && all p xs

  get_elem?-all :
      (p : A → Bool) (xs : List A) (i : ℕ) (x : A)
      → all p xs ≡ true
      → get_elem? xs i ≡ some x
      → p x ≡ true
  get_elem?-all p [] i x every found = absurd (ground (arith, found))
  get_elem?-all p (y ∷ ys) zero x every found = ground (arith, every, found)
  get_elem?-all p (y ∷ ys) (suc i) x every found =
      get_elem?-all p ys i x (ground (arith, every)) found

first_table : (length op_table ≡ 64) × (all (λ info. decodes info.op_code) op_table ≡ true)
unfolding op_table
first_table = (refl, refl)

second_table : (length special_table ≡ 64) × (all has_case special_table ≡ true)
unfolding special_table
second_table = (refl, refl)

bcond_code_lem : (i : ℕ) → has_case (bcond_code i) ≡ true
unfolding bcond_code
bcond_code_lem i = ground arith

second_code_lem :
    (op : OpCode) (value : ℕ)
    → decodes op ≡ true
    → (op' : OpCode) × (second_code op value ≡ some op') × (has_case op' ≡ true)
unfolding second_code
second_code_lem op_rfe value ok = absurd (ground (arith, ok))
second_code_lem special value ok =
    let (op, found) =
      get_elem?-of_lt special_table (value % 2 ^ 6) (omega (arith, second_table.0)) in
    (op, found, get_elem?-all has_case special_table (value % 2 ^ 6) op second_table.1 found)
second_code_lem bcond value ok =
    (bcond_code (field value 16 5), refl, bcond_code_lem (field value 16 5))
second_code_lem op_add value ok = (op_add, refl, refl)
second_code_lem op_addi value ok = (op_addi, refl, refl)
second_code_lem op_addiu value ok = (op_addiu, refl, refl)
second_code_lem op_addu value ok = (op_addu, refl, refl)
second_code_lem op_and value ok = (op_and, refl, refl)
second_code_lem op_andi value ok = (op_andi, refl, refl)
second_code_lem op_beq value ok = (op_beq, refl, refl)
second_code_lem op_bgez value ok = (op_bgez, refl, refl)
second_code_lem op_bgezal value ok = (op_bgezal, refl, refl)
second_code_lem op_bgtz value ok = (op_bgtz, refl, refl)
second_code_lem op_blez value ok = (op_blez, refl, refl)
second_code_lem op_bltz value ok = (op_bltz, refl, refl)
second_code_lem op_bltzal value ok = (op_bltzal, refl, refl)
second_code_lem op_bne value ok = (op_bne, refl, refl)
second_code_lem op_div value ok = (op_div, refl, refl)
second_code_lem op_divu value ok = (op_divu, refl, refl)
second_code_lem op_j value ok = (op_j, refl, refl)
second_code_lem op_jal value ok = (op_jal, refl, refl)
second_code_lem op_jalr value ok = (op_jalr, refl, refl)
second_code_lem op_jr value ok = (op_jr, refl, refl)
second_code_lem op_lb value ok = (op_lb, refl, refl)
second_code_lem op_lbu value ok = (op_lbu, refl, refl)
second_code_lem op_lh value ok = (op_lh, refl, refl)
second_code_lem op_lhu value ok = (op_lhu, refl, refl)
second_code_lem op_lui value ok = (op_lui, refl, refl)
second_code_lem op_lw value ok = (op_lw, refl, refl)
second_code_lem op_lwl value ok = (op_lwl, refl, refl)
second_code_lem op_lwr value ok = (op_lwr, refl, refl)
second_code_lem op_mfhi value ok = (op_mfhi, refl, refl)
second_code_lem op_mflo value ok = (op_mflo, refl, refl)
second_code_lem op_mthi value ok = (op_mthi, refl, refl)
second_code_lem op_mtlo value ok = (op_mtlo, refl, refl)
second_code_lem op_mult value ok = (op_mult, refl, refl)
second_code_lem op_multu value ok = (op_multu, refl, refl)
second_code_lem op_nor value ok = (op_nor, refl, refl)
second_code_lem op_or value ok = (op_or, refl, refl)
second_code_lem op_ori value ok = (op_ori, refl, refl)
second_code_lem op_sb value ok = (op_sb, refl, refl)
second_code_lem op_sh value ok = (op_sh, refl, refl)
second_code_lem op_sll value ok = (op_sll, refl, refl)
second_code_lem op_sllv value ok = (op_sllv, refl, refl)
second_code_lem op_slt value ok = (op_slt, refl, refl)
second_code_lem op_slti value ok = (op_slti, refl, refl)
second_code_lem op_sltiu value ok = (op_sltiu, refl, refl)
second_code_lem op_sltu value ok = (op_sltu, refl, refl)
second_code_lem op_sra value ok = (op_sra, refl, refl)
second_code_lem op_srav value ok = (op_srav, refl, refl)
second_code_lem op_srl value ok = (op_srl, refl, refl)
second_code_lem op_srlv value ok = (op_srlv, refl, refl)
second_code_lem op_sub value ok = (op_sub, refl, refl)
second_code_lem op_subu value ok = (op_subu, refl, refl)
second_code_lem op_sw value ok = (op_sw, refl, refl)
second_code_lem op_swl value ok = (op_swl, refl, refl)
second_code_lem op_swr value ok = (op_swr, refl, refl)
second_code_lem op_xor value ok = (op_xor, refl, refl)
second_code_lem op_xori value ok = (op_xori, refl, refl)
second_code_lem op_syscall value ok = (op_syscall, refl, refl)
second_code_lem op_unimp value ok = (op_unimp, refl, refl)
second_code_lem op_res value ok = (op_res, refl, refl)

-- Every word is decoded, to an operation other than RFE and the two marks for a second table, which
-- are those that the switch of OneInstruction has no case for.
decode-has_case :
    (value : ℕ) → (i : Instruction) × (decode value ≡ some i) × (has_case i.op_code ≡ true)
unfolding decode
decode-has_case value =
    let j = field value 26 6 in
    let (info, found) = get_elem?-of_lt op_table j (omega (arith, first_table.0)) in
    let ok =
      get_elem?-all (λ (info : OpInfo). decodes info.op_code) op_table j info first_table.1 found in
    let (op, second, case) = second_code_lem info.op_code value ok in
    (
      record {
        op_code = op;
        rs = field value 21 5;
        rt = field value 16 5;
        rd = field value 11 5;
        extra = extra_of info.format value;
      },
      rw (found, second),
      case,
    )
