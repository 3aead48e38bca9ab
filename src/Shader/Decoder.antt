-- ===== src/Shader/Decoder.antt =====
-- gpu/shader/MaxwellDecoder.h and MaxwellDecoder.cpp: one instruction from its two raw words. The fields of `DecodedInst::Field` that the
-- decoder neither sets nor reads (immediates, constant buffer, attribute) are left out.
pub mod Branch
use m1switch.Base.{
  ℕ, ◌+◌, ◌-◌, ◌*◌, ◌/◌, ◌%◌, ◌^◌, Bool, true, false, ◌&&◌, ◌||◌, not, ◌==◌, leb, ltb,
  if◌then◌else◌, bit_or,
}
use m1switch.Base.Bits.{u32_mod}
use m1switch.Shader.Ir.{
  ShaderOpcode, nop, exit, bra, ssy, sync, call, mufu, tex, texs, tlds, tld4, s2r, is_opcode,
  MemorySpace, generic, global, shared, local, constant, DataType, f32, u32, Value, nothing,
  ShaderOperand, operand, gpr_operand, special_operand, texture_operand, label_operand,
  ShaderInstruction,
}
use m1switch.Shader.Opcode.{
  MaxwellFormat, unknown, alu_3in, alu_2in, alu_1in, i_setp, f_setp, memory_load, memory_store,
  texture_op, special_read, predicate_reg, branch, sync_op, exit_op, header, decode_opcode,
}

-- `Bits(v, hi, lo)` for fields of fewer than 32 bits: `(v >> lo) & (2^n - 1)`.
unfoldable pub bits : ℕ → ℕ → ℕ → ℕ
bits v hi lo = v / 2 ^ lo % 2 ^ (hi - lo + 1)

unfoldable pub bit_at : ℕ → ℕ → Bool
bit_at v b = v / 2 ^ b % 2 == 1

-- `SignExtend`, with an `s32` as its two's complement on 32 bits.
unfoldable pub sign_extend : ℕ → ℕ → ℕ
sign_extend val n = if val / 2 ^ (n - 1) % 2 == 1 then bit_or val (u32_mod - 2 ^ n) else val

pub record Field : Type 0 where
  pub gpr_dest : ℕ
  pub gpr_src0 : ℕ
  pub gpr_src1 : ℕ
  pub gpr_src2 : ℕ
  pub pred_src : ℕ
  pub pred_dest : ℕ
  pub tex_index : ℕ
  pub sampler_idx : ℕ
  pub mem_offset : ℕ
  pub branch_target : ℕ
  pub src_count : ℕ
  pub neg_src0 : Bool
  pub neg_src1 : Bool
  pub abs_src0 : Bool
  pub abs_src1 : Bool
  pub saturate : Bool
  pub sets_cc : Bool
  pub is_float : Bool
  pub mufu_op : ℕ
  pub mem_space : MemorySpace

unfoldable pub zero_field : Field
zero_field = record {
  gpr_dest = 0;
  gpr_src0 = 0;
  gpr_src1 = 0;
  gpr_src2 = 0;
  pred_src = 0;
  pred_dest = 0;
  tex_index = 0;
  sampler_idx = 0;
  mem_offset = 0;
  branch_target = 0;
  src_count = 0;
  neg_src0 = false;
  neg_src1 = false;
  abs_src0 = false;
  abs_src1 = false;
  saturate = false;
  sets_cc = false;
  is_float = false;
  mufu_op = 0;
  mem_space = generic;
}

pub record DecodedInst : Type 0 where
  pub raw0 : ℕ
  pub raw1 : ℕ
  pub pc : ℕ
  pub size : ℕ
  pub fmt : MaxwellFormat
  pub opcode : ShaderOpcode
  pub field : Field

-- A decoded instruction as it is declared, before anything but `pc` is set.
unfoldable pub empty_inst : ℕ → DecodedInst
unfolding zero_field
empty_inst pc = record {
  raw0 = 0;
  raw1 = 0;
  pc = pc;
  size = 8;
  fmt = unknown;
  opcode = nop;
  field = zero_field;
}

unfoldable pub opcode_id : ℕ → ℕ
unfolding bits
opcode_id raw0 = bits raw0 12 5

-- The `switch` of `DecodeAluFormat`, on the opcode that was decoded.
unfoldable pub alu_field : MaxwellFormat → ShaderOpcode → ℕ → Field
unfolding zero_field bits bit_at is_opcode
alu_field alu_3in op raw0 = record zero_field {
  gpr_src0 = bits raw0 19 13;
  gpr_src1 = bits raw0 26 20;
  gpr_src2 = bits raw0 33 27;
  gpr_dest = bits raw0 44 39;
  neg_src0 = bit_at raw0 45;
  neg_src1 = bit_at raw0 46;
  abs_src0 = bit_at raw0 47;
  abs_src1 = bit_at raw0 48;
  saturate = bit_at raw0 49;
  src_count = 3;
  is_float = true;
}
alu_field alu_2in op raw0 = record zero_field {
  gpr_src0 = bits raw0 19 13;
  gpr_src1 = bits raw0 26 20;
  gpr_dest = bits raw0 44 39;
  neg_src0 = bit_at raw0 45;
  neg_src1 = bit_at raw0 46;
  abs_src0 = bit_at raw0 47;
  saturate = bit_at raw0 49;
  src_count = 2;
  is_float = true;
}
alu_field alu_1in op raw0 = record zero_field {
  gpr_src0 = bits raw0 19 13;
  gpr_dest = bits raw0 44 39;
  src_count = 1;
  mufu_op = if is_opcode op mufu then bits raw0 54 51 else 0;
  is_float = true;
}
alu_field i_setp op raw0 = record zero_field {
  gpr_src0 = bits raw0 19 13;
  gpr_src1 = bits raw0 26 20;
  pred_dest = bits raw0 42 40;
  pred_src = bits raw0 35 33;
  neg_src0 = bit_at raw0 45;
  neg_src1 = bit_at raw0 46;
  src_count = 2;
  sets_cc = true;
}
alu_field f_setp op raw0 = record zero_field {
  gpr_src0 = bits raw0 19 13;
  gpr_src1 = bits raw0 26 20;
  pred_dest = bits raw0 42 40;
  pred_src = bits raw0 35 33;
  neg_src0 = bit_at raw0 45;
  neg_src1 = bit_at raw0 46;
  src_count = 2;
  sets_cc = true;
  is_float = true;
}
alu_field unknown op raw0 = zero_field
alu_field fmt op raw0 = zero_field

unfoldable pub decode_alu_format : ℕ → ℕ → ℕ → MaxwellFormat → DecodedInst
unfolding alu_field opcode_id decode_opcode
decode_alu_format raw0 raw1 pc fmt = record {
  raw0 = raw0;
  raw1 = raw1;
  pc = pc;
  size = 8;
  fmt = fmt;
  opcode = decode_opcode (opcode_id raw0) fmt;
  field = alu_field fmt (decode_opcode (opcode_id raw0) fmt) raw0;
}

unfoldable pub memory_space_of : ℕ → MemorySpace
memory_space_of mem_type =
    if mem_type == 0
    then global
    else if mem_type == 1
    then shared
    else if mem_type == 2
    then local
    else if mem_type == 3
    then constant
    else generic

unfoldable pub decode_memory_format : ℕ → ℕ → ℕ → DecodedInst
unfolding zero_field opcode_id decode_opcode memory_space_of bits
decode_memory_format raw0 raw1 pc =
    let fmt' : MaxwellFormat = if leb 0x50 (opcode_id raw0) then memory_store else memory_load in
    record {
      raw0 = raw0;
      raw1 = raw1;
      pc = pc;
      size = 16;
      fmt = fmt';
      opcode = decode_opcode (opcode_id raw0) fmt';
      field = record zero_field {
        gpr_dest = bits raw0 19 13;
        mem_offset = bits raw0 34 27;
        gpr_src0 = bits raw0 44 39;
        mem_space = memory_space_of (bits raw1 47 45);
        src_count = 1;
      };
    }

unfoldable pub decode_texture_format : ℕ → ℕ → ℕ → DecodedInst
unfolding zero_field opcode_id decode_opcode bits
decode_texture_format raw0 raw1 pc = record {
  raw0 = raw0;
  raw1 = raw1;
  pc = pc;
  size = 16;
  fmt = texture_op;
  opcode = decode_opcode (opcode_id raw0) texture_op;
  field = record zero_field {
    gpr_dest = bits raw0 19 13;
    tex_index = bits raw0 44 39;
    sampler_idx = bits raw1 49 44;
    gpr_src0 = bits raw0 33 27;
    src_count = 1;
  };
}

-- `pc + 8 + offset * 8` on `u32`.
unfoldable pub branch_target_of : ℕ → ℕ → ℕ
unfolding bits sign_extend
branch_target_of raw0 pc = (pc + 8 + sign_extend (bits raw0 26 13) 14 * 8) % u32_mod

unfoldable pub decode_branch_format : ℕ → ℕ → ℕ → MaxwellFormat → DecodedInst
unfolding zero_field opcode_id decode_opcode bits branch_target_of
decode_branch_format raw0 raw1 pc fmt = record {
  raw0 = raw0;
  raw1 = raw1;
  pc = pc;
  size = 8;
  fmt = fmt;
  opcode = decode_opcode (opcode_id raw0) fmt;
  field = record zero_field {
    branch_target = branch_target_of raw0 pc;
    pred_src = bits raw0 35 33;
  };
}

unfoldable pub decode_s2r_format : ℕ → ℕ → DecodedInst
unfolding zero_field bits
decode_s2r_format raw0 pc = record {
  raw0 = raw0;
  raw1 = 0;
  pc = pc;
  size = 8;
  fmt = special_read;
  opcode = s2r;
  field = record zero_field { gpr_dest = bits raw0 19 13; gpr_src0 = bits raw0 44 39 };
}

unfoldable pub decode_exit_format : ℕ → ℕ → DecodedInst
unfolding zero_field opcode_id decode_opcode
decode_exit_format raw0 pc = record {
  raw0 = raw0;
  raw1 = 0;
  pc = pc;
  size = 8;
  fmt = exit_op;
  opcode = decode_opcode (opcode_id raw0) exit_op;
  field = zero_field;
}

-- The `switch` of `DecodeOne` that calls the format's decoder.
unfoldable pub decode_format : MaxwellFormat → ℕ → ℕ → ℕ → DecodedInst
unfolding decode_alu_format decode_memory_format decode_texture_format decode_branch_format
    decode_s2r_format decode_exit_format empty_inst opcode_id decode_opcode
decode_format alu_3in raw0 raw1 pc = decode_alu_format raw0 raw1 pc alu_3in
decode_format alu_2in raw0 raw1 pc = decode_alu_format raw0 raw1 pc alu_2in
decode_format alu_1in raw0 raw1 pc = decode_alu_format raw0 raw1 pc alu_1in
decode_format i_setp raw0 raw1 pc = decode_alu_format raw0 raw1 pc i_setp
decode_format f_setp raw0 raw1 pc = decode_alu_format raw0 raw1 pc f_setp
decode_format memory_load raw0 raw1 pc = decode_memory_format raw0 raw1 pc
decode_format memory_store raw0 raw1 pc = decode_memory_format raw0 raw1 pc
decode_format texture_op raw0 raw1 pc = decode_texture_format raw0 raw1 pc
decode_format branch raw0 raw1 pc = decode_branch_format raw0 raw1 pc branch
decode_format sync_op raw0 raw1 pc = decode_branch_format raw0 raw1 pc sync_op
decode_format special_read raw0 raw1 pc = decode_s2r_format raw0 pc
decode_format exit_op raw0 raw1 pc = decode_exit_format raw0 pc
decode_format predicate_reg raw0 raw1 pc = record (decode_s2r_format raw0 pc) {
  fmt = predicate_reg;
  opcode = decode_opcode (opcode_id raw0) predicate_reg;
}
decode_format unknown raw0 raw1 pc = empty_inst pc
decode_format header raw0 raw1 pc = empty_inst pc
