-- ===== src/Shader/Extract.antt =====
-- gpu/shader/MaxwellDecoder.cpp: `ShaderExtract::ExtractShader`, which copies a program out of the
-- guest's program region up to its first EXIT word.
pub mod Cut
use m1switch.Base.{
  ℕ, zero, suc, ◌+◌, ◌-◌, ◌/◌, ◌%◌, ◌^◌, min, Bool, true, false, ◌==◌, leb, if◌then◌else◌, List, [],
  ◌∷◌, Option, none, some, take, drop,
}
use m1switch.Base.Bits.{u32_mod}
use m1switch.Shader.Program.{read_u64}

-- The test of the scan: `((raw >> 5) & 0xFF) == 0x80` for the word at an offset.
unfoldable pub exit_word : List ℕ → ℕ → Bool
unfolding read_u64
exit_word code i = read_u64 code i / 2 ^ 5 % 256 == 0x80

-- The loop from `i` on: `end_offset` after it; `none`: out of fuel.
unfoldable pub end_from : ℕ → List ℕ → ℕ → ℕ → Option ℕ
unfolding exit_word
end_from zero code available i = none
end_from (suc fuel) code available i = elim (leb ((i + 8) % u32_mod) available) [
  | false ↦ some available
  | true ↦ elim (exit_word code i) [
    | true ↦ some (i + 8)
    | false ↦ end_from fuel code available ((i + 8) % u32_mod)
  ]
]

abbrev pub available_at : ℕ → ℕ → ℕ → ℕ
available_at region_size shader_offset max_size =
    min (region_size - shader_offset) max_size % u32_mod

-- `resize` and `memcpy`.
unfoldable pub copy_to : List ℕ → Option ℕ → Option (List ℕ)
copy_to code none = none
copy_to code (some end_offset) = some (take end_offset code)

-- `ExtractShader`; a null region is `none`.
unfoldable pub extract_shader : Option (List ℕ) → ℕ → ℕ → ℕ → Option (List ℕ)
unfolding end_from copy_to
extract_shader none region_size shader_offset max_size = some []
extract_shader (some region) region_size shader_offset max_size =
    if region_size == 0
    then some []
    else if leb region_size shader_offset
    then some []
    else copy_to (drop shader_offset region) (
        end_from (suc (available_at region_size shader_offset max_size / 8))
          (drop shader_offset region) (available_at region_size shader_offset max_size) 0)
