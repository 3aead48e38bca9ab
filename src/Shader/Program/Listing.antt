-- ===== src/Shader/Program/Listing.antt =====
-- The decoding loop against its specification: which instructions a binary holds.
use m1switch.Base.{
  ℕ, zero, suc, ◌+◌, ◌*◌, ◌/◌, ◌%◌, ◌≤◌, ◌<◌, true, false, ltb, Bool-cases, ltb→lt, ltb-false, ◌≡◌,
  refl, sym, ap, subst, ◌∙◌, ◌⊎◌, inl, inr, List, [], ◌∷◌, Option, some, arith,
}
use m1switch.Base.Bits.{u32_mod}
use m1switch.Shader.Ir.{ShaderInstruction, ShaderStage, ShaderProgram}
use m1switch.Shader.Decoder.{DecodedInst}
use m1switch.Shader.Convert.{to_ir}
use m1switch.Shader.Program.{
  DecodeError, DecoderContext, Round, skip, last, next, round_of, Decoded, prepend, decode_at,
  decode_from, decode, finish, empty_context,
}
use m1switch.Shader.Program.Rounds.{
  decode_at-size, decode_one-truncated, decode_one-whole, decode_one-errors, round_of-empty_inst,
  decode_from-end, decode_from-skip, decode_from-last, decode_from-next, one_at,
}

-- The instructions of `bytes[offset .. size]`: a word of no known format, or one cut off by the
-- end, is passed over by 8 bytes, any other makes one instruction, and EXIT ends the program.
pub data Listing (bytes : List ℕ) (size : ℕ) : ℕ → List ShaderInstruction → Type 0 where
  at_end : {offset : ℕ} → size ≤ offset → Listing bytes size offset []
  cut_off :
      {offset : ℕ} {is : List ShaderInstruction}
      → offset < size
      → size < offset + 8
      → Listing bytes size (offset + 8) is
      → Listing bytes size offset is
  no_format :
      {offset : ℕ} {is : List ShaderInstruction}
      → offset + 8 ≤ size
      → round_of (decode_at bytes size offset) ≡ skip
      → Listing bytes size (offset + 8) is
      → Listing bytes size offset is
  exits :
      {offset : ℕ}
      → offset + 8 ≤ size
      → round_of (decode_at bytes size offset) ≡ last
      → Listing bytes size offset (to_ir (decode_at bytes size offset) ∷ [])
  goes_on :
      {offset : ℕ} {is : List ShaderInstruction}
      → offset + 8 ≤ size
      → round_of (decode_at bytes size offset) ≡ next
      → Listing bytes size (offset + (decode_at bytes size offset).size) is
      → Listing bytes size offset (to_ir (decode_at bytes size offset) ∷ is)

record Found (bytes : List ℕ) (size offset : ℕ) (ctx : DecoderContext) (result : Option Decoded)
    : Type 0 where
  decoded : Decoded
  returns : result ≡ some decoded
  listing : Listing bytes size offset decoded.0
  errors_kept : decoded.2.errors ≡ ctx.errors

Round-cases : (r : Round) → (r ≡ skip) ⊎ (r ≡ last) ⊎ (r ≡ next)
Round-cases skip = inl refl
Round-cases last = inr (inl refl)
Round-cases next = inr (inr refl)

small-mod : (a : ℕ) → a < u32_mod → a % u32_mod ≡ a
small-mod a h = omega arith

module _ (bytes : List ℕ) (size : ℕ) (fits : size + 16 ≤ u32_mod) where
  -- The list of a round that is followed by another.
  prepend-Found :
      (offset : ℕ) (ctx : DecoderContext) (i : ShaderInstruction) (o : ℕ) (ctx' : DecoderContext)
      (r : Option Decoded)
      → Found bytes size o ctx' r
      → ctx'.errors ≡ ctx.errors
      → ((is : List ShaderInstruction)
          → Listing bytes size o is
          → Listing bytes size offset (i ∷ is))
      → Found bytes size offset ctx (prepend i r)
  unfolding prepend
  prepend-Found offset ctx i o ctx' r found e onto = record {
    decoded = (i ∷ found.decoded.0, found.decoded.1, found.decoded.2);
    returns = ap (prepend i) found.returns;
    listing = onto found.decoded.0 found.listing;
    errors_kept = found.errors_kept ∙ e;
  }

  passed-Found :
      (offset : ℕ) (ctx ctx' : DecoderContext) (r : Option Decoded)
      → Found bytes size (offset + 8) ctx' r
      → ctx'.errors ≡ ctx.errors
      → ((is : List ShaderInstruction)
          → Listing bytes size (offset + 8) is
          → Listing bytes size offset is)
      → Found bytes size offset ctx r
  passed-Found offset ctx ctx' r found e onto = record {
    decoded = found.decoded;
    returns = found.returns;
    listing = onto found.decoded.0 found.listing;
    errors_kept = found.errors_kept ∙ e;
  }

  Rest : ℕ → Type 0
  Rest fuel =
      (offset : ℕ) (errors : List DecodeError) (ctx : DecoderContext)
      → offset < size + 16
      → size + 16 ≤ offset + 8 * fuel
      → Found bytes size offset ctx (decode_from fuel bytes size offset errors ctx)

  module _ (fuel offset : ℕ) (errors : List DecodeError) (ctx : DecoderContext) (rest : Rest fuel)
      (enough : size + 16 ≤ offset + 8 * suc fuel) (in_code : ltb offset size ≡ true) where
    one : DecodedInst × List DecodeError × DecoderContext
    one = one_at bytes size offset errors ctx

    below : offset < size
    below = ltb→lt offset size in_code

    result : Option Decoded
    result = decode_from (suc fuel) bytes size offset errors ctx

    skip-Found :
        round_of one.0 ≡ skip
        → ((is : List ShaderInstruction)
            → Listing bytes size (offset + 8) is
            → Listing bytes size offset is)
        → Found bytes size offset ctx result
    unfolding Rest one result
    skip-Found s onto =
        subst (Found bytes size offset ctx)
          (sym (decode_from-skip bytes size offset errors ctx in_code fuel s))
          (subst
            (λ (o : ℕ). Found bytes size offset ctx (decode_from fuel bytes size o one.1 one.2))
            (sym (small-mod (offset + 8) (omega (arith, below, fits))))
            (passed-Found offset ctx one.2 (decode_from fuel bytes size (offset + 8) one.1 one.2)
              (rest (offset + 8) one.1 one.2 (omega (arith, below)) (omega (arith, enough)))
              (decode_one-errors bytes size offset errors ctx) onto))

    cut-Found : ltb size ((offset + 8) % u32_mod) ≡ true → Found bytes size offset ctx result
    unfolding one
    cut-Found cut =
        skip-Found
          (ap round_of (decode_one-truncated bytes size offset errors ctx cut)
            ∙ round_of-empty_inst offset)
          (λ is. cut_off below (
            omega (
              arith,
              ltb→lt size ((offset + 8) % u32_mod) cut,
              small-mod (offset + 8),
              below,
              fits,
            )))

    module _ (whole : ltb size ((offset + 8) % u32_mod) ≡ false) where
      same : one.0 ≡ decode_at bytes size offset
      unfolding one
      same = decode_one-whole bytes size offset errors ctx whole

      inside : offset + 8 ≤ size
      inside = omega (
        arith,
        ltb-false size ((offset + 8) % u32_mod) whole,
        small-mod (offset + 8),
        below,
        fits,
      )

      whole-round : (r : Round) → round_of one.0 ≡ r → round_of (decode_at bytes size offset) ≡ r
      whole-round r h = ap round_of (sym same) ∙ h

      last-Found : round_of one.0 ≡ last → Found bytes size offset ctx result
      unfolding one result
      last-Found l = record {
        decoded = (to_ir one.0 ∷ [], one.1, one.2);
        returns = decode_from-last bytes size offset errors ctx in_code fuel l;
        listing =
            subst (λ d. Listing bytes size offset (to_ir d ∷ [])) (sym same)
              (exits inside (whole-round last l));
        errors_kept = decode_one-errors bytes size offset errors ctx;
      }

      next-Found : round_of one.0 ≡ next → Found bytes size offset ctx result
      unfolding Rest one result
      next-Found n =
          let d : DecodedInst = decode_at bytes size offset in
          let size_cases : (d.size ≡ 8) ⊎ (d.size ≡ 16) = decode_at-size bytes size offset in
          subst (Found bytes size offset ctx)
            (sym (decode_from-next bytes size offset errors ctx in_code fuel n))
            (subst
              (λ (x : DecodedInst). Found bytes size offset ctx (
                prepend (to_ir x)
                  (decode_from fuel bytes size ((offset + x.size) % u32_mod) one.1 one.2)))
              (sym same)
              (subst
                (λ (o : ℕ).
                  Found bytes size offset ctx
                    (prepend (to_ir d) (decode_from fuel bytes size o one.1 one.2)))
                (sym (small-mod (offset + d.size) (ground (arith, size_cases, below, fits))))
                (prepend-Found offset ctx (to_ir d) (offset + d.size) one.2
                  (decode_from fuel bytes size (offset + d.size) one.1 one.2)
                  (rest (offset + d.size) one.1 one.2 (ground (arith, size_cases, below))
                    (ground (arith, size_cases, enough)))
                  (decode_one-errors bytes size offset errors ctx)
                  (λ is. goes_on inside (whole-round next n)))))

  step-Found :
      (fuel offset : ℕ) (errors : List DecodeError) (ctx : DecoderContext)
      → Rest fuel
      → size + 16 ≤ offset + 8 * suc fuel
      → Found bytes size offset ctx (decode_from (suc fuel) bytes size offset errors ctx)
  unfolding one result
  step-Found fuel offset errors ctx rest enough = elim (Bool-cases (ltb offset size)) [
    | inr out ↦ record {
      decoded = ([], errors, ctx);
      returns = decode_from-end bytes size offset errors ctx fuel out;
      listing = at_end (ltb-false offset size out);
      errors_kept = refl;
    }
    | inl in_code ↦ elim (Bool-cases (ltb size ((offset + 8) % u32_mod))) [
      | inl cut ↦ cut-Found fuel offset errors ctx rest enough in_code cut
      | inr whole ↦ elim (Round-cases (round_of (one_at bytes size offset errors ctx).0)) [
        | inl s ↦ skip-Found fuel offset errors ctx rest enough in_code s (λ is.
            no_format (inside fuel offset errors ctx rest enough in_code whole)
              (whole-round fuel offset errors ctx rest enough in_code whole skip s))
        | inr (inl l) ↦ last-Found fuel offset errors ctx rest enough in_code whole l
        | inr (inr n) ↦ next-Found fuel offset errors ctx rest enough in_code whole n
      ]
    ]
  ]

  decode_from-Found : (fuel : ℕ) → Rest fuel
  unfolding Rest
  decode_from-Found zero offset errors ctx h1 h2 = absurd (omega arith)
  decode_from-Found (suc fuel) offset errors ctx h1 h2 =
      step-Found fuel offset errors ctx (decode_from-Found fuel) h2

  abbrev program_fuel : ℕ
  program_fuel = suc (size / 8 + 2)

  run-Found :
      (errors : List DecodeError)
      → Found bytes size 0 empty_context
          (decode_from program_fuel bytes size 0 errors empty_context)
  unfolding Rest
  run-Found errors =
      decode_from-Found program_fuel 0 errors empty_context (omega arith) (omega arith)

-- What the decoder returns for a program: a listing of the binary, and no errors.
pub record DecodesTo (bytes : List ℕ) (size : ℕ) (stage : ShaderStage)
    (result : Option (ShaderProgram × List DecodeError)) : Type 0 where
  pub program : ShaderProgram
  pub returns : result ≡ some (program, [])
  pub listing : Listing bytes size 0 program.instructions
  pub stage_kept : program.stage ≡ stage
  pub size_kept : program.program_size ≡ size

-- For every binary whose size leaves 16 bytes below 2^32, `Decode` terminates; the instructions
-- are those of the specification `Listing`, the stage and the size are the given ones, and the
-- decoder holds no errors afterwards, whatever it held before and whatever it met.
pub decode-Listing :
    (bytes : List ℕ) (size : ℕ) (stage : ShaderStage) (errors : List DecodeError)
    → size + 16 ≤ u32_mod
    → DecodesTo bytes size stage (decode bytes size stage errors)
unfolding decode finish empty_context
decode-Listing bytes size stage errors fits =
    let found : Found bytes size 0 empty_context
        (decode_from (suc (size / 8 + 2)) bytes size 0 errors empty_context) =
      run-Found bytes size fits errors in
    record {
      program = (finish bytes size stage found.decoded).0;
      returns =
          rw (found.returns, decode)
            (ap (λ e. some ((finish bytes size stage found.decoded).0, e)) found.errors_kept);
      listing = found.listing;
      stage_kept = refl;
      size_kept = refl;
    }
