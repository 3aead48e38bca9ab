-- ===== src/Shader/Program/Layout.antt =====
-- What the specification of the decoding loop says of the program counters.
use m1switch.Base.{
  true-false, ℕ, ◌+◌, ◌*◌, ◌/◌, ◌%◌, ◌≤◌, Bool, true, false, ◌≡◌, refl, sym, subst, ◌⊎◌,
  if◌then◌else◌, length, List, [], ◌∷◌, some, arith,
}
use m1switch.Base.Bits.{u32_mod}
use m1switch.Shader.Ir.{ShaderInstruction, ShaderStage, ShaderProgram, exit, is_opcode}
use m1switch.Shader.Decoder.{DecodedInst}
use m1switch.Shader.Convert.{to_ir}
use m1switch.Shader.Program.{DecodeError, skip, last, next, round_of, decode_at, decode, is_unknown}
use m1switch.Shader.Program.Rounds.{decode_at-pc, decode_at-size}
use m1switch.Shader.Program.Listing.{
  Listing, at_end, cut_off, no_format, exits, goes_on, DecodesTo, decode-Listing,
}

-- Each instruction stands at a multiple of 8 from `from` on, 8 bytes or more after the one before
-- it and ends inside the binary; nothing follows an EXIT.
pub data Spaced (size : ℕ) : ℕ → List ShaderInstruction → Type 0 where
  none_left : {from : ℕ} → Spaced size from []
  stands :
      {from : ℕ} {i : ShaderInstruction} {is : List ShaderInstruction}
      → from ≤ i.pc
      → i.pc % 8 ≡ 0
      → i.pc + 8 ≤ size
      → (is_opcode i.opcode exit ≡ true → is ≡ [])
      → Spaced size (i.pc + 8) is
      → Spaced size from (i ∷ is)

Spaced-later :
    (size a b : ℕ) (is : List ShaderInstruction) → a ≤ b → Spaced size b is → Spaced size a is
Spaced-later size a b [] h none_left = none_left
Spaced-later size a b (i ∷ is) h (stands p q r e rest) = stands (omega arith) q r e rest

next-not_exit : (u e : Bool) → (if u then skip else if e then last else next) ≡ next → e ≡ false
next-not_exit true e h = cc
next-not_exit false true h = cc
next-not_exit false false h = refl

next-opcode : (d : DecodedInst) → round_of d ≡ next → is_opcode d.opcode exit ≡ false
unfolding round_of
next-opcode d h = next-not_exit (is_unknown d.fmt) (is_opcode d.opcode exit) h

module _ (bytes : List ℕ) (size : ℕ) where
  inst : ℕ → DecodedInst
  inst offset = decode_at bytes size offset

  item-Spaced :
      (offset : ℕ) (is : List ShaderInstruction)
      → offset % 8 ≡ 0
      → offset + 8 ≤ size
      → (is_opcode (inst offset).opcode exit ≡ true → is ≡ [])
      → Spaced size (offset + 8) is
      → Spaced size offset (to_ir (inst offset) ∷ is)
  unfolding inst to_ir
  item-Spaced offset is h k e rest =
      let at : (inst offset).pc ≡ offset = decode_at-pc bytes size offset in
      stands (omega (arith, at)) (omega (arith, at, h)) (omega (arith, at, k)) e
        (subst (λ (o : ℕ). Spaced size (o + 8) is) (sym at) rest)

  Listing-Spaced :
      (offset : ℕ) (is : List ShaderInstruction)
      → offset % 8 ≡ 0
      → Listing bytes size offset is
      → Spaced size offset is
  unfolding inst
  Listing-Spaced offset is h (at_end e) = none_left
  Listing-Spaced offset is h (cut_off p q l) =
      Spaced-later size offset (offset + 8) is (omega arith)
        (Listing-Spaced (offset + 8) is (omega (arith, h)) l)
  Listing-Spaced offset is h (no_format p q l) =
      Spaced-later size offset (offset + 8) is (omega arith)
        (Listing-Spaced (offset + 8) is (omega (arith, h)) l)
  Listing-Spaced offset is h (exits p q) = item-Spaced offset [] h p (λ x. refl) none_left
  Listing-Spaced offset is h (goes_on {is = is'} p q l) =
      let size_cases : ((inst offset).size ≡ 8) ⊎ ((inst offset).size ≡ 16) =
        decode_at-size bytes size offset in
      item-Spaced offset is' h p (λ x. true-false _ x (next-opcode (inst offset) q))
        (Spaced-later size (offset + 8) (offset + (inst offset).size) is'
          (ground (arith, size_cases))
          (Listing-Spaced (offset + (inst offset).size) is' (ground (arith, size_cases, h)) l))

Spaced-length :
    (size from : ℕ) (is : List ShaderInstruction)
    → from ≤ size
    → Spaced size from is
    → from + 8 * length is ≤ size
Spaced-length size from [] h s = omega arith
Spaced-length size from (i ∷ is) h (stands p q r e rest) =
    omega (arith, Spaced-length size (i.pc + 8) is r rest)

-- For every binary whose size leaves 16 bytes below 2^32, `Decode` returns a program whose
-- instructions stand at increasing multiples of 8 inside the binary, with nothing after an EXIT,
-- and there are at most a number of `size / 8` of them.
pub decode-Spaced :
    (bytes : List ℕ) (size : ℕ) (stage : ShaderStage) (errors : List DecodeError)
    → size + 16 ≤ u32_mod
    → (p : ShaderProgram) × (decode bytes size stage errors ≡ some (p, []))
      × Spaced size 0 p.instructions
      × (length p.instructions ≤ size / 8)
decode-Spaced bytes size stage errors fits =
    let d : DecodesTo bytes size stage (decode bytes size stage errors) =
      decode-Listing bytes size stage errors fits in
    let s : Spaced size 0 d.program.instructions =
      Listing-Spaced bytes size 0 d.program.instructions refl d.listing in
    (
      d.program,
      d.returns,
      s,
      omega (arith, Spaced-length size 0 d.program.instructions (omega arith) s),
    )
