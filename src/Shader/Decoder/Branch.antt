-- ===== src/Shader/Decoder/Branch.antt =====
-- Branch targets: MaxwellDecoder.cpp, `SignExtend` and `DecodeBranchFormat`, and their label in
-- `DecodedInst::ToIr`.
use m1switch.Base.{
  ℕ, ◌+◌, ◌-◌, ◌*◌, ◌/◌, ◌%◌, ◌^◌, ◌≤◌, ◌<◌, true, false, ◌==◌, ◌≡◌, refl, ap, ◌∙◌, ◌⊎◌, inl, inr,
  view-if, if◌then◌else◌, bit_or, arith,
}
use m1switch.Base.Bits.{u32_mod, bit_or_fields}
use m1switch.Shader.Ir.{
  ShaderOpcode, bra, call, ssy, sync, s2r, label_operand, is_opcode, opcode_code,
}
use m1switch.Shader.Opcode.{branch, sync_op, decode_opcode, case_of}
use m1switch.Shader.Decoder.{
  Field, bits, sign_extend, branch_target_of, decode_format, decode_branch_format, opcode_id,
}
use m1switch.Shader.Convert.{to_ir, ir_src0, ir_is_texture, ir_is_branch}

-- A negative 14-bit number keeps its value modulo 2^32.
sign_extend-value :
    (k : ℕ)
    → k < 2 ^ 14
    → ((k < 2 ^ 13) × (sign_extend k 14 ≡ k))
      ⊎ ((2 ^ 13 ≤ k) × (sign_extend k 14 + 2 ^ 14 ≡ k + u32_mod))
unfolding sign_extend
sign_extend-value k h =
    let wide : bit_or k (0x3FFFF * 2 ^ 14) ≡ 0x3FFFF * 2 ^ 14 + k = bit_or_fields 14 k 0x3FFFF h in
    ground (arith, wide)

target_lem :
    (k pc target s : ℕ)
    → pc + 8 < u32_mod
    → target < u32_mod
    → (target + 2 ^ 16) % 8 ≡ (pc + 8) % 8
    → pc + 8 ≤ target + 2 ^ 16
    → target < pc + 8 + 2 ^ 16
    → k ≡ (target + 2 ^ 17 - (pc + 8)) / 8 % 2 ^ 14
    → ((k < 2 ^ 13) × (s ≡ k)) ⊎ ((2 ^ 13 ≤ k) × (s + 2 ^ 14 ≡ k + u32_mod))
    → (pc + 8 + s * 8) % u32_mod ≡ target
target_lem k pc target s h1 h2 h3 h4 h5 h6 (inl (a, b)) = omega arith
target_lem k pc target s h1 h2 h3 h4 h5 h6 (inr (a, b)) = omega arith

label_lem :
    (op : ShaderOpcode) (f : Field)
    → is_opcode op s2r ≡ false
    → ir_is_texture op ≡ false
    → ir_is_branch op ≡ true
    → ir_src0 op f ≡ label_operand (f.branch_target / 8)
unfolding ir_src0
label_lem op f a b c = rw (a, b, c) refl

branch-label :
    (f : Field) (id : ℕ) → ir_src0 (decode_opcode id branch) f ≡ label_operand (f.branch_target / 8)
unfolding decode_opcode case_of is_opcode opcode_code ir_is_texture ir_is_branch
branch-label f id =
    view-if (λ op. ir_src0 op f) (id == 0x81) bra (if id == 0x82 then call else bra) _
      (label_lem bra f refl refl refl)
      (view-if (λ op. ir_src0 op f) (id == 0x82) call bra _ (label_lem call f refl refl refl)
        (label_lem bra f refl refl refl))

sync-label :
    (f : Field) (id : ℕ)
    → ir_src0 (decode_opcode id sync_op) f ≡ label_operand (f.branch_target / 8)
unfolding decode_opcode case_of is_opcode opcode_code ir_is_texture ir_is_branch
sync-label f id =
    view-if (λ op. ir_src0 op f) (id == 0x83) ssy (if id == 0x84 then sync else ssy) _
      (label_lem ssy f refl refl refl)
      (view-if (λ op. ir_src0 op f) (id == 0x84) sync ssy _ (label_lem sync f refl refl refl)
        (label_lem ssy f refl refl refl))

-- Bits 26..13 of a branch or a synchronisation hold the distance from the next instruction to a
-- target less than 2^16 bytes ahead of it or at most 2^16 behind, in units of 8 bytes modulo 2^14:
-- then the first source of the converted instruction is the label of that target, forwards and
-- backwards, for every opcode of the two formats. The next instruction and the target stand below
-- 2^32 and are equal modulo 8.
pub decode_format-label :
    (raw0 raw1 pc target : ℕ)
    → pc + 8 < u32_mod
    → target < u32_mod
    → (target + 2 ^ 16) % 8 ≡ (pc + 8) % 8
    → pc + 8 ≤ target + 2 ^ 16
    → target < pc + 8 + 2 ^ 16
    → bits raw0 26 13 ≡ (target + 2 ^ 17 - (pc + 8)) / 8 % 2 ^ 14
    → ((to_ir (decode_format branch raw0 raw1 pc)).src0 ≡ label_operand (target / 8))
      × ((to_ir (decode_format sync_op raw0 raw1 pc)).src0 ≡ label_operand (target / 8))
unfolding to_ir decode_format decode_branch_format branch_target_of
decode_format-label raw0 raw1 pc target h1 h2 h3 h4 h5 h6 =
    let k : ℕ = bits raw0 26 13 in
    let reach : branch_target_of raw0 pc ≡ target =
      target_lem k pc target (sign_extend k 14) h1 h2 h3 h4 h5 h6
        (sign_extend-value k (omega (arith, h6))) in
    (
      branch-label (decode_branch_format raw0 raw1 pc branch).field (opcode_id raw0)
          ∙ ap (λ t. label_operand (t / 8)) reach,
      sync-label (decode_branch_format raw0 raw1 pc sync_op).field (opcode_id raw0)
          ∙ ap (λ t. label_operand (t / 8)) reach,
    )
