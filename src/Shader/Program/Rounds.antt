-- ===== src/Shader/Program/Rounds.antt =====
-- The rounds of the decoding loop: MaxwellDecoder.cpp, `DecodeOne` and the body of `Decode`.
use m1switch.Base.{
  ℕ, suc, ◌+◌, ◌%◌, true, false, ltb, Bool-cases, view-if, ◌≡◌, refl, ◌⊎◌, inl, inr, List, [], ◌∷◌,
  some,
}
use m1switch.Base.Bits.{u32_mod}
use m1switch.Shader.Opcode.{
  MaxwellFormat, unknown, alu_3in, alu_2in, alu_1in, i_setp, f_setp, memory_load, memory_store,
  texture_op, special_read, predicate_reg, branch, sync_op, exit_op, header, detect_format,
}
use m1switch.Shader.Decoder.{
  DecodedInst, opcode_id, decode_format, empty_inst, decode_alu_format, decode_memory_format,
  decode_texture_format, decode_branch_format, decode_s2r_format, decode_exit_format,
}
use m1switch.Shader.Convert.{to_ir}
use m1switch.Shader.Program.{
  DecodeError, DecoderContext, skip, last, next, round_of, prepend, decode_at, decode_one,
  decode_from, track, is_unknown, read_u64, raw1_at,
}

-- What `DecodeOne` leaves alone or sets from its arguments.
record At (pc : ℕ) (d : DecodedInst) : Type 0 where
  at_pc : d.pc ≡ pc
  size_8_16 : (d.size ≡ 8) ⊎ (d.size ≡ 16)

decode_format-At : (f : MaxwellFormat) (raw0 raw1 pc : ℕ) → At pc (decode_format f raw0 raw1 pc)
unfolding decode_format decode_alu_format decode_memory_format decode_texture_format
    decode_branch_format decode_s2r_format decode_exit_format empty_inst
decode_format-At alu_3in raw0 raw1 pc = record { at_pc = refl; size_8_16 = inl refl }
decode_format-At alu_2in raw0 raw1 pc = record { at_pc = refl; size_8_16 = inl refl }
decode_format-At alu_1in raw0 raw1 pc = record { at_pc = refl; size_8_16 = inl refl }
decode_format-At i_setp raw0 raw1 pc = record { at_pc = refl; size_8_16 = inl refl }
decode_format-At f_setp raw0 raw1 pc = record { at_pc = refl; size_8_16 = inl refl }
decode_format-At memory_load raw0 raw1 pc = record { at_pc = refl; size_8_16 = inr refl }
decode_format-At memory_store raw0 raw1 pc = record { at_pc = refl; size_8_16 = inr refl }
decode_format-At texture_op raw0 raw1 pc = record { at_pc = refl; size_8_16 = inr refl }
decode_format-At branch raw0 raw1 pc = record { at_pc = refl; size_8_16 = inl refl }
decode_format-At sync_op raw0 raw1 pc = record { at_pc = refl; size_8_16 = inl refl }
decode_format-At special_read raw0 raw1 pc = record { at_pc = refl; size_8_16 = inl refl }
decode_format-At exit_op raw0 raw1 pc = record { at_pc = refl; size_8_16 = inl refl }
decode_format-At predicate_reg raw0 raw1 pc = record { at_pc = refl; size_8_16 = inl refl }
decode_format-At unknown raw0 raw1 pc = record { at_pc = refl; size_8_16 = inl refl }
decode_format-At header raw0 raw1 pc = record { at_pc = refl; size_8_16 = inl refl }

decode_at-At : (bytes : List ℕ) (size pc : ℕ) → At pc (decode_at bytes size pc)
unfolding decode_at
decode_at-At bytes size pc =
    let raw0 : ℕ = read_u64 bytes pc in
    let fmt : MaxwellFormat = detect_format (opcode_id raw0) in
    decode_format-At fmt raw0 (raw1_at bytes size pc fmt) pc

pub decode_at-pc : (bytes : List ℕ) (size pc : ℕ) → (decode_at bytes size pc).pc ≡ pc
decode_at-pc bytes size pc = (decode_at-At bytes size pc).at_pc

pub decode_at-size :
    (bytes : List ℕ) (size pc : ℕ)
    → ((decode_at bytes size pc).size ≡ 8) ⊎ ((decode_at bytes size pc).size ≡ 16)
decode_at-size bytes size pc = (decode_at-At bytes size pc).size_8_16

abbrev One : Type 0
One = DecodedInst × List DecodeError × DecoderContext

module _ (bytes : List ℕ) (size pc : ℕ) (errors : List DecodeError) (ctx : DecoderContext) where
  pub decode_one-truncated :
      ltb size ((pc + 8) % u32_mod) ≡ true → (decode_one bytes size pc errors ctx).0 ≡ empty_inst pc
  unfolding decode_one
  decode_one-truncated h = rw (h) refl

  pub decode_one-whole :
      ltb size ((pc + 8) % u32_mod) ≡ false
      → (decode_one bytes size pc errors ctx).0 ≡ decode_at bytes size pc
  unfolding decode_one
  decode_one-whole h = rw (h) (view-if (λ (r : One). r.0) _ _ _ _ refl refl)

  pub decode_one-errors : (decode_one bytes size pc errors ctx).2.errors ≡ ctx.errors
  unfolding decode_one track
  decode_one-errors = elim (Bool-cases (ltb size ((pc + 8) % u32_mod))) [
    | inl cut ↦ rw (cut) refl
    | inr whole ↦ elim (Bool-cases (is_unknown (decode_at bytes size pc).fmt)) [
      | inl u ↦ rw (whole, u) refl
      | inr k ↦ rw (whole, k) refl
    ]
  ]

pub round_of-empty_inst : (pc : ℕ) → round_of (empty_inst pc) ≡ skip
unfolding round_of empty_inst is_unknown
round_of-empty_inst pc = refl

module _ (bytes : List ℕ) (size offset : ℕ) (errors : List DecodeError) (ctx : DecoderContext) where
  pub decode_from-end :
      (fuel : ℕ)
      → ltb offset size ≡ false
      → decode_from (suc fuel) bytes size offset errors ctx ≡ some ([], errors, ctx)
  unfolding decode_from
  decode_from-end fuel h = rw (h, decode_from) refl

  abbrev pub one_at : One
  one_at = decode_one bytes size offset errors ctx

  module _ (in_code : ltb offset size ≡ true) where
    pub decode_from-skip :
        (fuel : ℕ)
        → round_of one_at.0 ≡ skip
        → decode_from (suc fuel) bytes size offset errors ctx
          ≡ decode_from fuel bytes size ((offset + 8) % u32_mod) one_at.1 one_at.2
    unfolding decode_from
    decode_from-skip fuel h = rw (in_code, h, decode_from) refl

    pub decode_from-last :
        (fuel : ℕ)
        → round_of one_at.0 ≡ last
        → decode_from (suc fuel) bytes size offset errors ctx
          ≡ some (to_ir one_at.0 ∷ [], one_at.1, one_at.2)
    unfolding decode_from
    decode_from-last fuel h = rw (in_code, h, decode_from) refl

    pub decode_from-next :
        (fuel : ℕ)
        → round_of one_at.0 ≡ next
        → decode_from (suc fuel) bytes size offset errors ctx
          ≡ prepend
              (to_ir one_at.0)
              (decode_from fuel bytes size ((offset + one_at.0.size) % u32_mod) one_at.1 one_at.2)
    unfolding decode_from
    decode_from-next fuel h = rw (in_code, h, decode_from) refl
