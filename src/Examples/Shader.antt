-- ===== src/Examples/Shader.antt =====
-- Runs of the shader decoder's model on small binaries.
use m1switch.Base.{
  ℕ, ◌+◌, ◌-◌, ◌*◌, ◌/◌, ◌%◌, ◌≤◌, min, ◌≡◌, refl, List, [], ◌∷◌, ◌++◌, map, Option, none, some,
  take, drop, length, arith,
}
use m1switch.Shader.Ir.{ShaderProgram, vertex_b, label_operand, ShaderInstruction}
use m1switch.Shader.Opcode.{branch, sync_op, detect_format}
use m1switch.Shader.Opcode.Ids.{is_known, opcode_of-injective}
use m1switch.Shader.Decoder.{bits, decode_format}
use m1switch.Shader.Decoder.Branch.{decode_format-label}
use m1switch.Shader.Convert.{to_ir}
use m1switch.Shader.Program.{decode, decode_one, round_of, prepend, DecodeError}
use m1switch.Shader.Program.Listing.{DecodesTo, decode-Listing}
use m1switch.Shader.Program.Layout.{Spaced, decode-Spaced}
use m1switch.Shader.Extract.{extract_shader}
use m1switch.Shader.Extract.Cut.{Cut, extract_shader-Cut}

-- FADD, a word of no format, a load of two words with `0x80` in the second, EXIT.
abbrev fadd_bytes : List ℕ
fadd_bytes = 0x20 ∷ 0 ∷ 0 ∷ 0 ∷ 0 ∷ 0 ∷ 0 ∷ 0 ∷ []

abbrev bad_bytes : List ℕ
bad_bytes = 0xE0 ∷ 0x1F ∷ 0 ∷ 0 ∷ 0 ∷ 0 ∷ 0 ∷ 0 ∷ []

abbrev exit_bytes : List ℕ
exit_bytes = 0x00 ∷ 0x10 ∷ 0 ∷ 0 ∷ 0 ∷ 0 ∷ 0 ∷ 0 ∷ []

abbrev load_bytes : List ℕ
load_bytes = 0x20 ∷ 0x08 ∷ 0 ∷ 0 ∷ 0 ∷ 0 ∷ 0 ∷ 0 ∷ exit_bytes

abbrev binary : List ℕ
binary = fadd_bytes ++ bad_bytes ++ load_bytes ++ exit_bytes

pcs : Option (ShaderProgram × List DecodeError) → List ℕ
pcs none = []
pcs (some (p, errors)) = map (λ (i : ShaderInstruction). i.pc) p.instructions

decode_run : pcs (decode binary 40 vertex_b []) ≡ 0 ∷ 16 ∷ 32 ∷ []
unfolding pcs decode decode_one round_of prepend to_ir
decode_run = refl

-- The second word of the load ends the extraction.
extract_run : extract_shader (some (load_bytes ++ exit_bytes)) 24 0 4096 ≡ some load_bytes
unfolding extract_shader
extract_run = refl

decode-Listing_example : DecodesTo binary 40 vertex_b (decode binary 40 vertex_b [])
decode-Listing_example = decode-Listing binary 40 vertex_b [] (omega arith)

decode-Spaced_example :
    (p : ShaderProgram) × (decode binary 40 vertex_b [] ≡ some (p, []))
    × Spaced 40 0 p.instructions
    × (length p.instructions ≤ 40 / 8)
decode-Spaced_example = decode-Spaced binary 40 vertex_b [] (omega arith)

extract_shader-Cut_example :
    (e : ℕ) × (extract_shader (some binary) 40 8 4096 ≡ some (take e (drop 8 binary)))
    × (length (take e (drop 8 binary)) ≡ e)
    × Cut (drop 8 binary) (min (40 - 8) 4096) 0 e
extract_shader-Cut_example =
    extract_shader-Cut binary 40 8 4096 (omega arith) (omega arith) (omega arith)

-- BRA at 16, back to 8.
abbrev bra_word : ℕ
bra_word = 16382 * 8192 + 0x81 * 32

bra_bits : bits bra_word 26 13 ≡ (8 + 131072 - (16 + 8)) / 8 % 16384
unfolding bits
bra_bits = refl

decode_format-label_example :
    ((to_ir (decode_format branch bra_word 0 16)).src0 ≡ label_operand (8 / 8))
    × ((to_ir (decode_format sync_op bra_word 0 16)).src0 ≡ label_operand (8 / 8))
decode_format-label_example =
    decode_format-label bra_word 0 16 8 (omega arith) (omega arith) refl (omega arith) (omega arith)
      bra_bits

opcode_of-injective_example : ◌≡◌ {A = ℕ} 0x41 0x41
unfolding detect_format is_known
opcode_of-injective_example =
    opcode_of-injective 0x41 0x41 (omega arith) (omega arith) refl refl refl
