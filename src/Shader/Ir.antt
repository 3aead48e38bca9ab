-- ===== src/Shader/Ir.antt =====
-- gpu/shader/ShaderIr.h: the intermediate representation of a shader program.
use m1switch.Base.{ℕ, ◌*◌, ◌%◌, Bool, false, ◌==◌, List, [], ◌∷◌, bit_xor}
use m1switch.Base.Bits.{u64_mod}

-- `ShaderOpcode`, with the numbers of the enum in `opcode_code`.
pub data ShaderOpcode : Type 0 where
  nop exit bra ssy sync call ret kil cont break : ShaderOpcode
  fmad fadd fmul fmax fmin fsat fneg fabs frcp frsq : ShaderOpcode
  fsqrt fex2 flg2 fsin fcos mufu iadd imul imad isub : ShaderOpcode
  iabs ineg isetp i2f i2i iadd3 imnmx lea popc flo : ShaderOpcode
  shl shr f2f f2i f2f_c fsetp fset ld ldc lds : ShaderOpcode
  ll lg lea_load st sts stg stl tex texs tlds : ShaderOpcode
  tld4 txq s2r r2p p2r prmt bfe bfi atom bar : ShaderOpcode
  depbar vote yield membar : ShaderOpcode

unfoldable pub opcode_code : ShaderOpcode → ℕ
opcode_code nop = 0x0
opcode_code exit = 0x1
opcode_code bra = 0x2
opcode_code ssy = 0x3
opcode_code sync = 0x4
opcode_code call = 0x5
opcode_code ret = 0x6
opcode_code kil = 0x7
opcode_code cont = 0x8
opcode_code break = 0x9
opcode_code fmad = 0x100
opcode_code fadd = 0x101
opcode_code fmul = 0x102
opcode_code fmax = 0x103
opcode_code fmin = 0x104
opcode_code fsat = 0x105
opcode_code fneg = 0x106
opcode_code fabs = 0x107
opcode_code frcp = 0x108
opcode_code frsq = 0x109
opcode_code fsqrt = 0x10A
opcode_code fex2 = 0x10B
opcode_code flg2 = 0x10C
opcode_code fsin = 0x10D
opcode_code fcos = 0x10E
opcode_code mufu = 0x10F
opcode_code iadd = 0x200
opcode_code imul = 0x201
opcode_code imad = 0x202
opcode_code isub = 0x203
opcode_code iabs = 0x204
opcode_code ineg = 0x205
opcode_code isetp = 0x206
opcode_code i2f = 0x207
opcode_code i2i = 0x208
opcode_code iadd3 = 0x209
opcode_code imnmx = 0x20A
opcode_code lea = 0x20B
opcode_code popc = 0x20C
opcode_code flo = 0x20D
opcode_code shl = 0x20E
opcode_code shr = 0x20F
opcode_code f2f = 0x300
opcode_code f2i = 0x301
opcode_code f2f_c = 0x302
opcode_code fsetp = 0x400
opcode_code fset = 0x401
opcode_code ld = 0x500
opcode_code ldc = 0x501
opcode_code lds = 0x502
opcode_code ll = 0x503
opcode_code lg = 0x504
opcode_code lea_load = 0x505
opcode_code st = 0x600
opcode_code sts = 0x601
opcode_code stg = 0x602
opcode_code stl = 0x603
opcode_code tex = 0x700
opcode_code texs = 0x701
opcode_code tlds = 0x702
opcode_code tld4 = 0x703
opcode_code txq = 0x704
opcode_code s2r = 0x800
opcode_code r2p = 0x801
opcode_code p2r = 0x802
opcode_code prmt = 0x803
opcode_code bfe = 0x804
opcode_code bfi = 0x805
opcode_code atom = 0x806
opcode_code bar = 0x807
opcode_code depbar = 0x808
opcode_code vote = 0x809
opcode_code yield = 0x80A
opcode_code membar = 0x80B

unfoldable pub is_opcode : ShaderOpcode → ShaderOpcode → Bool
unfolding opcode_code
is_opcode a b = opcode_code a == opcode_code b

-- `ShaderStage`.
pub data ShaderStage : Type 0 where
  vertex_a vertex_b tess_control tess_eval geometry fragment compute : ShaderStage

-- `MemorySpace`.
pub data MemorySpace : Type 0 where
  generic global shared local constant uniform : MemorySpace

-- `DataType`.
pub data DataType : Type 0 where
  f32 f64 f16 u32 s32 u16 s16 u8 s8 b32 b64 b128 : DataType

-- `OperandType` with the member of the union that goes with it; a float is its bit pattern.
pub data Value : Type 0 where
  nothing : Value
  gpr : ℕ → Value
  predicate : ℕ → Bool → Value
  float_imm int_imm : ℕ → Value
  cbuf attribute varying : ℕ → ℕ → Value
  special_reg : ℕ → Value
  texture : ℕ → ℕ → Value
  label : ℕ → Value

-- `mufu_op` is the number of the `MufuOp`, which a cast may put outside the enum.
pub record ShaderOperand : Type 0 where
  pub value : Value
  pub data_type : DataType
  pub negate : Bool
  pub absolute : Bool
  pub saturate : Bool
  pub mufu_op : ℕ
  pub mem_space : MemorySpace

-- An operand with the default modifiers; `SIN` is 1.
unfoldable pub operand : Value → DataType → ShaderOperand
operand v t = record {
  value = v;
  data_type = t;
  negate = false;
  absolute = false;
  saturate = false;
  mufu_op = 1;
  mem_space = generic;
}

-- The factory methods that the decoder calls; a register index is a `u8`.
unfoldable pub gpr_operand : ℕ → ShaderOperand
unfolding operand
gpr_operand index = operand (gpr (index % 256)) f32

unfoldable pub special_operand : ℕ → ShaderOperand
unfolding operand
special_operand reg = operand (special_reg reg) f32

unfoldable pub texture_operand : ℕ → ℕ → ShaderOperand
unfolding operand
texture_operand tex_idx sampler_idx = operand (texture tex_idx sampler_idx) f32

unfoldable pub label_operand : ℕ → ShaderOperand
unfolding operand
label_operand lbl = operand (label lbl) f32

pub record ShaderInstruction : Type 0 where
  pub opcode : ShaderOpcode
  pub dest : ShaderOperand
  pub src0 : ShaderOperand
  pub src1 : ShaderOperand
  pub src2 : ShaderOperand
  pub src_count : ℕ
  pub pc : ℕ
  pub pred_guard : Bool
  pub pred_guard_index : ℕ
  pub pred_guard_negate : Bool
  pub sets_cc : Bool
  pub is_delayed : Bool
  pub mem_space : MemorySpace
  pub mem_offset : ℕ

pub record ShaderProgram : Type 0 where
  pub stage : ShaderStage
  pub instructions : List ShaderInstruction
  pub program_offset : ℕ
  pub program_size : ℕ
  pub hash : ℕ
  pub num_gprs_used : ℕ
  pub num_preds_used : ℕ
  pub uses_varyings : Bool
  pub uses_textures : Bool

-- The loop of `CalculateHash` (FNV-1a) over the bytes that are left.
unfoldable pub hash_from : ℕ → List ℕ → ℕ
hash_from hash [] = hash
hash_from hash (byte ∷ bytes) = hash_from (bit_xor hash byte * 0x100000001B3 % u64_mod) bytes

unfoldable pub calculate_hash : List ℕ → ℕ
unfolding hash_from
calculate_hash bytes = hash_from 0xCBF29CE484222325 bytes
