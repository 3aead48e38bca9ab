-- ===== src/Shader/Convert.antt =====
-- gpu/shader/MaxwellDecoder.cpp: `DecodedInst::ToIr`, one function per member of the instruction,
-- with the assignment that comes last in the source tested first.
use m1switch.Base.{ℕ, ◌/◌, Bool, false, ◌||◌, not, ◌==◌, leb, ltb, if◌then◌else◌}
use m1switch.Shader.Ir.{
  ShaderOpcode, exit, bra, ssy, sync, call, mufu, tex, texs, tlds, tld4, s2r, is_opcode, DataType,
  f32, u32, nothing, ShaderOperand, operand, gpr_operand, special_operand, texture_operand,
  label_operand, ShaderInstruction,
}
use m1switch.Shader.Decoder.{Field, DecodedInst}

ir_data_type : Field → DataType
ir_data_type f = if f.is_float then f32 else u32

-- The opcodes of "Texture info".
unfoldable pub ir_is_texture : ShaderOpcode → Bool
unfolding is_opcode
ir_is_texture op = is_opcode op tex || is_opcode op texs || is_opcode op tlds || is_opcode op tld4

-- The opcodes of "Branch target".
unfoldable pub ir_is_branch : ShaderOpcode → Bool
unfolding is_opcode
ir_is_branch op = is_opcode op bra || is_opcode op call || is_opcode op ssy || is_opcode op sync

-- The destination register is set under this test.
unfoldable pub ir_writes_dest : ShaderOpcode → Field → Bool
unfolding is_opcode
ir_writes_dest op f = is_opcode op exit || ltb 0 f.src_count || not (f.gpr_dest == 0)

unfoldable pub ir_dest : ShaderOpcode → Field → ShaderOperand
unfolding ir_data_type ir_is_texture ir_writes_dest is_opcode gpr_operand operand
ir_dest op f =
    if is_opcode op s2r || ir_is_texture op
    then gpr_operand f.gpr_dest
    else if ir_writes_dest op f
    then record (gpr_operand f.gpr_dest) { data_type = ir_data_type f; saturate = f.saturate }
    else operand nothing f32

ir_source : ℕ → Bool → Bool → Field → ShaderOperand
unfolding ir_data_type gpr_operand
ir_source reg neg abs f = record (gpr_operand reg) {
  data_type = ir_data_type f;
  negate = neg;
  absolute = abs;
}

unfoldable pub ir_src0 : ShaderOpcode → Field → ShaderOperand
unfolding ir_source ir_is_texture ir_is_branch is_opcode gpr_operand operand special_operand
    label_operand
ir_src0 op f =
    let source : ShaderOperand = ir_source f.gpr_src0 f.neg_src0 f.abs_src0 f in
    if is_opcode op s2r
    then special_operand f.gpr_src0
    else if ir_is_texture op
    then gpr_operand f.gpr_src0
    else if ir_is_branch op
    then label_operand (f.branch_target / 8)
    else if leb 1 f.src_count
    then (if is_opcode op mufu then record source { mufu_op = f.mufu_op } else source)
    else operand nothing f32

unfoldable pub ir_src1 : ShaderOpcode → Field → ShaderOperand
unfolding ir_source ir_is_texture operand texture_operand
ir_src1 op f =
    if ir_is_texture op
    then texture_operand f.tex_index f.sampler_idx
    else if leb 2 f.src_count
    then ir_source f.gpr_src1 f.neg_src1 f.abs_src1 f
    else operand nothing f32

unfoldable pub ir_src2 : Field → ShaderOperand
unfolding ir_source operand
ir_src2 f = if leb 3 f.src_count then ir_source f.gpr_src2 false false f else operand nothing f32

unfoldable pub ir_src_count : ShaderOpcode → Field → ℕ
unfolding ir_is_texture ir_is_branch is_opcode
ir_src_count op f =
    if is_opcode op s2r
    then 1
    else if ir_is_texture op
    then 2
    else if ir_is_branch op
    then 1
    else f.src_count

-- `mem_offset` is not copied.
unfoldable pub to_ir : DecodedInst → ShaderInstruction
unfolding ir_dest ir_src0 ir_src1 ir_src2 ir_src_count
to_ir d = record {
  opcode = d.opcode;
  dest = ir_dest d.opcode d.field;
  src0 = ir_src0 d.opcode d.field;
  src1 = ir_src1 d.opcode d.field;
  src2 = ir_src2 d.field;
  src_count = ir_src_count d.opcode d.field;
  pc = d.pc;
  pred_guard = not (d.field.pred_src == 0);
  pred_guard_index = d.field.pred_src;
  pred_guard_negate = false;
  sets_cc = false;
  is_delayed = false;
  mem_space = d.field.mem_space;
  mem_offset = 0;
}
