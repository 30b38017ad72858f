-- ===== src/Machine/Decode.antt =====
-- Instruction::Decode of machine/mipssim.cc, with the tables of machine/mipssim.h.
pub mod Fields
pub mod Total
mod Tests
use cmps.Prelude.{
  ℕ, ◌+◌, ◌-◌, ◌*◌, ◌/◌, ◌%◌, ◌^◌, Bool, true, List, [], ◌∷◌, Option, none, some, get_elem?, ◌==◌,
  if◌then◌else◌, ◌>>=◌,
}
use cmps.Machine.Word.{extend}

-- The entries `special` and `bcond` of the first table stand for a second one.
pub data OpCode : Type 0 where
  op_add op_addi op_addiu op_addu op_and op_andi op_beq op_bgez op_bgezal op_bgtz : OpCode
  op_blez op_bltz op_bltzal op_bne op_div op_divu op_j op_jal op_jalr op_jr op_lb : OpCode
  op_lbu op_lh op_lhu op_lui op_lw op_lwl op_lwr op_mfhi op_mflo op_mthi op_mtlo : OpCode
  op_mult op_multu op_nor op_or op_ori op_rfe op_sb op_sh op_sll op_sllv op_slt : OpCode
  op_slti op_sltiu op_sltu op_sra op_srav op_srl op_srlv op_sub op_subu op_sw : OpCode
  op_swl op_swr op_xor op_xori op_syscall op_unimp op_res special bcond : OpCode

pub data Format : Type 0 where
  ifmt jfmt rfmt : Format

pub record OpInfo : Type 0 where
  pub op_code : OpCode
  pub format : Format

abbrev info : Format → OpCode → OpInfo
info f op = record { op_code = op; format = f }

abbrev ops : List OpCode → List OpInfo → List OpInfo
ops [] rest = rest
ops (op ∷ more) rest = info ifmt op ∷ ops more rest

unfoldable pub op_table : List OpInfo
op_table =
    info rfmt special
    ∷ info ifmt bcond
    ∷ info jfmt op_j
    ∷ info jfmt op_jal
    ∷ ops
        (op_beq ∷ op_bne ∷ op_blez ∷ op_bgtz ∷ op_addi ∷ op_addiu ∷ op_slti ∷ op_sltiu ∷ op_andi
          ∷ op_ori ∷ op_xori ∷ op_lui ∷ op_unimp ∷ op_unimp ∷ op_unimp ∷ op_unimp ∷ op_res ∷ op_res
          ∷ op_res ∷ op_res ∷ op_res ∷ op_res ∷ op_res ∷ op_res ∷ op_res ∷ op_res ∷ op_res ∷ op_res
          ∷ op_lb ∷ op_lh ∷ op_lwl ∷ op_lw ∷ op_lbu ∷ op_lhu ∷ op_lwr ∷ op_res ∷ op_sb ∷ op_sh
          ∷ op_swl ∷ op_sw ∷ op_res ∷ op_res ∷ op_swr ∷ op_res ∷ op_unimp ∷ op_unimp ∷ op_unimp
          ∷ op_unimp ∷ op_res ∷ op_res ∷ op_res ∷ op_res ∷ op_unimp ∷ op_unimp ∷ op_unimp ∷ op_unimp
          ∷ op_res ∷ op_res ∷ op_res ∷ op_res ∷ [])
        []

unfoldable pub special_table : List OpCode
special_table =
    op_sll ∷ op_res ∷ op_srl ∷ op_sra ∷ op_sllv ∷ op_res ∷ op_srlv ∷ op_srav ∷ op_jr ∷ op_jalr
    ∷ op_res ∷ op_res ∷ op_syscall ∷ op_unimp ∷ op_res ∷ op_res ∷ op_mfhi ∷ op_mthi ∷ op_mflo
    ∷ op_mtlo ∷ op_res ∷ op_res ∷ op_res ∷ op_res ∷ op_mult ∷ op_multu ∷ op_div ∷ op_divu ∷ op_res
    ∷ op_res ∷ op_res ∷ op_res ∷ op_add ∷ op_addu ∷ op_sub ∷ op_subu ∷ op_and ∷ op_or ∷ op_xor
    ∷ op_nor ∷ op_res ∷ op_res ∷ op_slt ∷ op_sltu ∷ op_res ∷ op_res ∷ op_res ∷ op_res ∷ op_res
    ∷ op_res ∷ op_res ∷ op_res ∷ op_res ∷ op_res ∷ op_res ∷ op_res ∷ op_res ∷ op_res ∷ op_res
    ∷ op_res ∷ op_res ∷ op_res ∷ op_res ∷ op_res ∷ []

pub record Instruction : Type 0 where
  pub op_code : OpCode
  pub rs : ℕ
  pub rt : ℕ
  pub rd : ℕ
  pub extra : ℕ

-- `(value >> low) & (2^width - 1)`
abbrev pub field : ℕ → ℕ → ℕ → ℕ
field value low width = value / 2 ^ low % 2 ^ width

unfoldable pub extra_of : Format → ℕ → ℕ
unfolding extend
extra_of ifmt value = extend true 16 value
extra_of rfmt value = field value 6 5
extra_of jfmt value = value % 2 ^ 26

pub bcond_code : ℕ → OpCode
bcond_code i =
    if i == 0
    then op_bltz
    else if i == 1
    then op_bgez
    else if i == 16
    then op_bltzal
    else if i == 17
    then op_bgezal
    else op_unimp

unfoldable pub second_code : OpCode → ℕ → Option OpCode
second_code special value = get_elem? special_table (value % 2 ^ 6)
second_code bcond value = some (bcond_code (field value 16 5))
second_code op value = some op

unfoldable pub decode : ℕ → Option Instruction
unfolding op_table special_table
decode value = do
  info ← get_elem? op_table (field value 26 6)
  op ← second_code info.op_code value
  some (record {
    op_code = op;
    rs = field value 21 5;
    rt = field value 16 5;
    rd = field value 11 5;
    extra = extra_of info.format value;
  })
