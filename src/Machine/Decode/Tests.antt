-- ===== src/Machine/Decode/Tests.antt =====
-- Instruction::Decode of machine/mipssim.cc on one word, and the theorem about it there.
use cmps.Prelude.{◌≡◌, refl, some}
use cmps.Machine.Word.{extend}
use cmps.Machine.Decode.{op_addiu, decode, op_table, second_code, extra_of}

-- ADDIU r29, r29, -24
decode_runs :
    decode 0x27bdffe8
    ≡ some (record { op_code = op_addiu; rs = 29; rt = 29; rd = 31; extra = 0xffffffe8 })
unfolding decode op_table second_code extra_of extend
decode_runs = refl
