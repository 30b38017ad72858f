-- ===== src/Machine/Decode/Fields.antt =====
-- Instruction::Decode of machine/mipssim.cc: the register numbers are those of general purpose
-- registers.
use cmps.Prelude.{ℕ, ◌<◌, ◌≡◌, inl, inr, some, arith, get_elem?, Option-cases}
use cmps.Machine.Decode.{Instruction, decode, op_table, second_code, field}

-- The three register numbers are below 32.
pub record InRange (i : Instruction) : Type 0 where
  pub rs_small : i.rs < 32
  pub rt_small : i.rt < 32
  pub rd_small : i.rd < 32

pub decode-InRange : (value : ℕ) (i : Instruction) → decode value ≡ some i → InRange i
unfolding decode
decode-InRange value i e = elim (Option-cases (get_elem? op_table (field value 26 6))) [
  | inl beyond ↦ absurd (ground (arith, beyond, e))
  | inr (info, found) ↦ elim (Option-cases (second_code info.op_code value)) [
    | inl unknown ↦ absurd (ground (arith, found, unknown, e))
    | inr (op, second) ↦ record {
      rs_small = ground (arith, found, second, e);
      rt_small = ground (arith, found, second, e);
      rd_small = ground (arith, found, second, e);
    }
  ]
]
