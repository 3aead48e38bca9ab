-- ===== src/Shader/Opcode.antt =====
-- gpu/shader/MaxwellDecoder.h and MaxwellDecoder.cpp: formats and opcodes of the 8-bit opcode ids.
pub mod Ids
use m1switch.Base.{ℕ, Bool, ◌==◌, if◌then◌else◌, List, [], ◌∷◌}
use m1switch.Shader.Ir.{
  ShaderOpcode, nop, exit, bra, ssy, sync, call, ret, kil, cont, break, fmad, fadd, fmul, fmax,
  fmin, fsat, frcp, frsq, fsqrt, fex2, flg2, fsin, fcos, mufu, iadd, imul, imad, isub, iabs, ineg,
  isetp, i2f, i2i, iadd3, imnmx, lea, popc, flo, shl, shr, f2f, f2i, f2f_c, fsetp, fset, ld, ldc,
  lds, ll, lg, st, sts, stg, stl, tex, texs, tlds, tld4, txq, s2r, r2p, p2r, prmt, bfe, bfi,
}

-- `MaxwellFormat`.
pub data MaxwellFormat : Type 0 where
  unknown alu_3in alu_2in alu_1in i_setp f_setp memory_load memory_store texture_op : MaxwellFormat
  special_read predicate_reg branch sync_op exit_op header : MaxwellFormat

-- A `switch`: the row of the first label that is the number, or the default.
unfoldable pub case_of {ℓ} : {A : Type ℓ} → ℕ → List (ℕ × A) → A → A
case_of n [] default = default
case_of n ((label, a) ∷ rows) default = if n == label then a else case_of n rows default

abbrev pub format_table : List (ℕ × MaxwellFormat)
format_table =
    (0x00, alu_3in)
    ∷ (0x01, alu_2in)
    ∷ (0x02, alu_2in)
    ∷ (0x03, alu_2in)
    ∷ (0x04, alu_2in)
    ∷ (0x05, alu_2in)
    ∷ (0x06, alu_1in)
    ∷ (0x07, alu_1in)
    ∷ (0x08, alu_1in)
    ∷ (0x09, alu_1in)
    ∷ (0x0A, alu_1in)
    ∷ (0x0B, alu_1in)
    ∷ (0x0C, alu_1in)
    ∷ (0x0D, alu_1in)
    ∷ (0x10, alu_3in)
    ∷ (0x11, alu_3in)
    ∷ (0x12, alu_2in)
    ∷ (0x13, alu_2in)
    ∷ (0x14, alu_2in)
    ∷ (0x15, alu_2in)
    ∷ (0x16, alu_2in)
    ∷ (0x17, i_setp)
    ∷ (0x18, alu_2in)
    ∷ (0x19, alu_2in)
    ∷ (0x1A, alu_2in)
    ∷ (0x1B, alu_2in)
    ∷ (0x1C, alu_1in)
    ∷ (0x1D, alu_1in)
    ∷ (0x1E, alu_1in)
    ∷ (0x1F, alu_1in)
    ∷ (0x20, alu_2in)
    ∷ (0x21, alu_2in)
    ∷ (0x22, alu_2in)
    ∷ (0x30, f_setp)
    ∷ (0x31, alu_2in)
    ∷ (0x40, memory_load)
    ∷ (0x41, memory_load)
    ∷ (0x42, memory_load)
    ∷ (0x43, memory_load)
    ∷ (0x44, memory_load)
    ∷ (0x50, memory_store)
    ∷ (0x51, memory_store)
    ∷ (0x52, memory_store)
    ∷ (0x53, memory_store)
    ∷ (0x60, texture_op)
    ∷ (0x61, texture_op)
    ∷ (0x62, texture_op)
    ∷ (0x63, texture_op)
    ∷ (0x64, texture_op)
    ∷ (0x70, special_read)
    ∷ (0x71, predicate_reg)
    ∷ (0x72, predicate_reg)
    ∷ (0x73, alu_3in)
    ∷ (0x74, alu_3in)
    ∷ (0x75, alu_3in)
    ∷ (0x80, exit_op)
    ∷ (0x81, branch)
    ∷ (0x82, branch)
    ∷ (0x83, sync_op)
    ∷ (0x84, sync_op)
    ∷ (0x85, exit_op)
    ∷ (0x86, exit_op)
    ∷ (0x87, exit_op)
    ∷ (0x88, exit_op)
    ∷ []

-- The raw word that the function also takes is not used.
unfoldable pub detect_format : ℕ → MaxwellFormat
unfolding case_of
detect_format opcode_id = case_of opcode_id format_table unknown

unfoldable pub decode_opcode : ℕ → MaxwellFormat → ShaderOpcode
unfolding case_of
decode_opcode id alu_3in =
    case_of id
      ((0x00, fmad) ∷ (0x10, iadd3) ∷ (0x11, imad) ∷ (0x73, prmt) ∷ (0x74, bfe) ∷ (0x75, bfi) ∷ [])
      fmad
decode_opcode id alu_2in =
    case_of id
      ((0x01, fadd)
        ∷ (0x02, fmul)
        ∷ (0x03, fmax)
        ∷ (0x04, fmin)
        ∷ (0x05, fsat)
        ∷ (0x12, iadd)
        ∷ (0x13, isub)
        ∷ (0x14, imul)
        ∷ (0x15, iabs)
        ∷ (0x16, ineg)
        ∷ (0x18, i2f)
        ∷ (0x19, i2i)
        ∷ (0x1A, imnmx)
        ∷ (0x1B, lea)
        ∷ (0x20, f2f)
        ∷ (0x21, f2i)
        ∷ (0x22, f2f_c)
        ∷ (0x31, fset)
        ∷ [])
      fadd
decode_opcode id alu_1in =
    case_of id
      ((0x06, mufu)
        ∷ (0x07, frcp)
        ∷ (0x08, frsq)
        ∷ (0x09, fsqrt)
        ∷ (0x0A, fex2)
        ∷ (0x0B, flg2)
        ∷ (0x0C, fsin)
        ∷ (0x0D, fcos)
        ∷ (0x1C, popc)
        ∷ (0x1D, flo)
        ∷ (0x1E, shl)
        ∷ (0x1F, shr)
        ∷ [])
      mufu
decode_opcode id i_setp = isetp
decode_opcode id f_setp = fsetp
decode_opcode id memory_load =
    case_of id ((0x40, ld) ∷ (0x41, lg) ∷ (0x42, ll) ∷ (0x43, lds) ∷ (0x44, ldc) ∷ []) ld
decode_opcode id memory_store =
    case_of id ((0x50, st) ∷ (0x51, stg) ∷ (0x52, stl) ∷ (0x53, sts) ∷ []) st
decode_opcode id texture_op =
    case_of id ((0x60, tex) ∷ (0x61, texs) ∷ (0x62, tlds) ∷ (0x63, tld4) ∷ (0x64, txq) ∷ []) tex
decode_opcode id special_read = s2r
decode_opcode id predicate_reg = case_of id ((0x71, r2p) ∷ (0x72, p2r) ∷ []) r2p
decode_opcode id branch = case_of id ((0x81, bra) ∷ (0x82, call) ∷ []) bra
decode_opcode id sync_op = case_of id ((0x83, ssy) ∷ (0x84, sync) ∷ []) ssy
decode_opcode id exit_op =
    case_of id ((0x85, ret) ∷ (0x86, kil) ∷ (0x87, cont) ∷ (0x88, break) ∷ []) exit
decode_opcode id unknown = nop
decode_opcode id header = nop
