-- ===== src/Shader/Opcode/Ids.antt =====
-- The opcode ids: MaxwellDecoder.cpp, `DetectFormat` and `DecodeOpcode` one after the other.
use m1switch.Base.{
  ℕ, zero, suc, ◌<◌, Bool, true, false, ◌&&◌, not, ℕ_discrete, subst, ◌==◌, ◌≡◌, refl, sym, ap, ◌∙◌,
  arith, List, [], ◌∷◌, if◌then◌else◌, ==_iff,
}
use m1switch.Shader.Ir.{ShaderOpcode, opcode_code}
use m1switch.Shader.Opcode.{MaxwellFormat, unknown, header, detect_format, decode_opcode}

-- The opcode of an id, as `DecodeOne` computes it.
pub opcode_of : ℕ → ShaderOpcode
opcode_of id = decode_opcode id (detect_format id)

-- The first id below a bound that has an opcode's number, looked for from the bound down.
id_below : ℕ → ℕ → ℕ
id_below zero code = 256
id_below (suc n) code = if opcode_code (opcode_of n) == code then n else id_below n code

unfoldable pub is_known : MaxwellFormat → Bool
is_known unknown = false
is_known header = true
is_known f = true

is_lost : ℕ → Bool
is_lost n = is_known (detect_format n) && not (id_below 256 (opcode_code (opcode_of n)) == n)

-- The ids below a bound that are not found again from their opcode.
lost : ℕ → List ℕ
lost zero = []
lost (suc n) = if is_lost n then n ∷ lost n else lost n

lost_none : lost 256 ≡ []
unfolding lost is_lost id_below opcode_of is_known detect_format decode_opcode opcode_code
lost_none = refl

lost-here :
    (b : Bool) (n : ℕ) (ns : List ℕ) → (if b then n ∷ ns else ns) ≡ [] → (b ≡ false) × (ns ≡ [])
lost-here true n ns h = cc
lost-here false n ns h = (refl, h)

not_lost : (n x : ℕ) → lost n ≡ [] → x < n → is_lost x ≡ false
unfolding lost
not_lost zero x h lt = absurd (omega arith)
not_lost (suc n) x h lt =
    let here : (is_lost n ≡ false) × (lost n ≡ []) = lost-here (is_lost n) n (lost n) h in
    elim (ℕ_discrete x n) [
      | yes e ↦ subst (λ m. is_lost m ≡ false) (sym e) here.0
      | no ne ↦ not_lost n x here.1 (omega arith)
    ]

and-not : (a b : Bool) → (a && not b) ≡ false → a ≡ true → b ≡ true
and-not true true h k = refl
and-not true false h k = sym h
and-not false b h k = cc

found_again :
    (id : ℕ)
    → id < 256
    → is_known (detect_format id) ≡ true
    → id_below 256 (opcode_code (opcode_of id)) ≡ id
unfolding is_lost
found_again id h k = (==_iff _ id).0 (and-not _ _ (not_lost 256 id lost_none h) k)

-- Two ids of eight bits that both have a format, and the same opcode, are the same id: the
-- two switches agree on every id of the instruction set and no opcode has two encodings.
pub opcode_of-injective :
    (a b : ℕ)
    → a < 256
    → b < 256
    → is_known (detect_format a) ≡ true
    → is_known (detect_format b) ≡ true
    → opcode_of a ≡ opcode_of b
    → a ≡ b
opcode_of-injective a b ha hb ka kb e =
    sym (found_again a ha ka) ∙ ap (λ op. id_below 256 (opcode_code op)) e ∙ found_again b hb kb
