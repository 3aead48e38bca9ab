-- ===== src/Shader/Program.antt =====
-- gpu/shader/MaxwellDecoder.h and MaxwellDecoder.cpp: the decoder's context, one instruction of a
-- binary, the loop over a program, and the extraction of a program from the guest's memory.
pub mod Rounds
pub mod Listing
pub mod Layout
use m1switch.Base.{
  ℕ, zero, suc, ◌+◌, ◌-◌, ◌*◌, ◌/◌, ◌%◌, ◌^◌, min, Bool, true, false, ◌&&◌, ◌||◌, not, ◌==◌, leb,
  ltb, if◌then◌else◌, List, [], ◌∷◌, ◌++◌, Option, none, some, get_or, modify, replicate, take,
  drop, length,
}
use m1switch.Base.Bits.{u32_mod}
use m1switch.Shader.Ir.{
  ShaderOpcode, exit, tex, texs, tlds, ld, lg, ll, lds, st, stg, stl, sts, is_opcode, ShaderStage,
  ShaderInstruction, ShaderProgram, calculate_hash,
}
use m1switch.Shader.Opcode.{
  MaxwellFormat, unknown, memory_load, memory_store, texture_op, detect_format,
}
use m1switch.Shader.Decoder.{Field, DecodedInst, empty_inst, opcode_id, decode_format}
use m1switch.Shader.Convert.{to_ir}

-- `memcpy` of eight bytes into a `u64`, on a little-endian host.
pub read_bytes : ℕ → List ℕ → ℕ
read_bytes zero bytes = 0
read_bytes (suc n) [] = 0
read_bytes (suc n) (b ∷ bytes) = b + 256 * read_bytes n bytes

unfoldable pub read_u64 : List ℕ → ℕ → ℕ
unfolding read_bytes
read_u64 data_bytes pc = read_bytes 8 (drop pc data_bytes)

-- What `LogError` is called with.
pub data DecodeError : Type 0 where
  truncated : ℕ → DecodeError
  unknown_instruction : ℕ → ℕ → DecodeError

-- `offset` is a parameter of the loop; `label_map` is never used. `errors` is never added to.
pub record DecoderContext : Type 0 where
  pub gpr_used : List Bool
  pub pred_used : List Bool
  pub errors : List DecodeError

unfoldable pub empty_context : DecoderContext
empty_context = record {
  gpr_used = replicate 256 false;
  pred_used = replicate 8 false;
  errors = [];
}

-- `UseGpr` and `UsePred`: outside the array nothing is set.
mark : List Bool → ℕ → List Bool
mark used index = modify used index (λ _. true)

unfoldable pub count_used : List Bool → ℕ
count_used [] = 0
count_used (true ∷ used) = suc (count_used used)
count_used (false ∷ used) = count_used used

-- "Track register usage".
track : Field → DecoderContext → DecoderContext
unfolding mark
track f ctx = record ctx {
  gpr_used = mark (mark (mark (mark ctx.gpr_used f.gpr_dest) f.gpr_src0) f.gpr_src1) f.gpr_src2;
  pred_used = mark (mark ctx.pred_used f.pred_src) f.pred_dest;
}

-- The formats that read a second word.
two_words : MaxwellFormat → Bool
two_words memory_load = true
two_words memory_store = true
two_words texture_op = true
two_words unknown = false
two_words fmt = false

is_unknown : MaxwellFormat → Bool
is_unknown unknown = true
is_unknown memory_load = false
is_unknown fmt = false

raw1_at : List ℕ → ℕ → ℕ → MaxwellFormat → ℕ
unfolding two_words read_u64
raw1_at bytes size pc fmt =
    if leb ((pc + 16) % u32_mod) size && two_words fmt then read_u64 bytes (pc + 8) else 0

-- `DecodeOne` past its first guard.
unfoldable pub decode_at : List ℕ → ℕ → ℕ → DecodedInst
unfolding read_u64 opcode_id detect_format decode_format raw1_at
decode_at bytes size pc =
    let raw0 : ℕ = read_u64 bytes pc in
    let fmt : MaxwellFormat = detect_format (opcode_id raw0) in
    decode_format fmt raw0 (raw1_at bytes size pc fmt) pc

-- `DecodeOne` with a context, on what `errors_` and the context hold; `pc + 8` is taken on `u32`.
unfoldable pub decode_one :
    List ℕ
    → ℕ
    → ℕ
    → List DecodeError
    → DecoderContext
    → DecodedInst × List DecodeError × DecoderContext
unfolding decode_at track is_unknown empty_inst
decode_one bytes size pc errors ctx =
    let inst : DecodedInst = decode_at bytes size pc in
    if ltb size ((pc + 8) % u32_mod)
    then (empty_inst pc, errors ++ truncated pc ∷ [], ctx)
    else if is_unknown inst.fmt
    then (inst, errors ++ unknown_instruction pc (read_u64 bytes pc) ∷ [], track inst.field ctx)
    else (inst, errors, track inst.field ctx)

-- How the loop of `Decode` goes on after an instruction.
pub data Round : Type 0 where
  skip last next : Round

unfoldable pub round_of : DecodedInst → Round
unfolding is_unknown is_opcode
round_of inst =
    if is_unknown inst.fmt then skip else if is_opcode inst.opcode exit then last else next

abbrev pub Decoded : Type 0
Decoded = List ShaderInstruction × List DecodeError × DecoderContext

unfoldable pub prepend : ShaderInstruction → Option Decoded → Option Decoded
prepend i none = none
prepend i (some (is, errors, ctx)) = some (i ∷ is, errors, ctx)

-- The loop of `Decode` from an offset on, on `u32`; `none`: out of fuel.
unfoldable pub decode_from : ℕ → List ℕ → ℕ → ℕ → List DecodeError → DecoderContext → Option Decoded
decode_from zero bytes size offset errors ctx = none
decode_from (suc fuel) bytes size offset errors ctx = elim (ltb offset size) [
  | false ↦ some ([], errors, ctx)
  | true ↦
      let (inst, errors', ctx') = decode_one bytes size offset errors ctx in
      elim (round_of inst) [
        | skip ↦ decode_from fuel bytes size ((offset + 8) % u32_mod) errors' ctx'
        | last ↦ some (to_ir inst ∷ [], errors', ctx')
        | next ↦
            prepend (to_ir inst)
              (decode_from fuel bytes size ((offset + inst.size) % u32_mod) errors' ctx')
      ]
]

any_of : List ShaderOpcode → ShaderOpcode → Bool
unfolding is_opcode
any_of [] op = false
any_of (o ∷ os) op = is_opcode op o || any_of os op

unfoldable pub uses : List ShaderOpcode → List ShaderInstruction → Bool
unfolding any_of
uses ops [] = false
uses ops (i ∷ is) = any_of ops i.opcode || uses ops is

-- What `Decode` makes of the loop's result, with `errors_` after it.
unfoldable pub finish : List ℕ → ℕ → ShaderStage → Decoded → ShaderProgram × List DecodeError
unfolding calculate_hash count_used uses
finish bytes size stage (is, errors, ctx) = (
  record {
    stage = stage;
    instructions = is;
    program_offset = 0;
    program_size = size;
    hash = calculate_hash (take size bytes);
    num_gprs_used = count_used ctx.gpr_used;
    num_preds_used = count_used ctx.pred_used;
    uses_varyings = uses (ld ∷ lg ∷ ll ∷ lds ∷ st ∷ stg ∷ stl ∷ sts ∷ []) is;
    uses_textures = uses (tex ∷ texs ∷ tlds ∷ []) is;
  },
  ctx.errors,
)

-- `Decode`: the program, and what `errors_` holds after it. A round takes 8 bytes or more.
unfoldable pub decode :
    List ℕ → ℕ → ShaderStage → List DecodeError → Option (ShaderProgram × List DecodeError)
unfolding decode_from finish empty_context
decode bytes size stage errors =
    elim (decode_from (suc (size / 8 + 2)) bytes size 0 errors empty_context) [
      | none ↦ none
      | some decoded ↦ some (finish bytes size stage decoded)
    ]
