-- ===== src/Gpu/Engine/Routing.antt =====
-- Where `HandleMethod` sends a method number.
use m1switch.Base.{
  ◌⊎◌, ◌≢◌, inl, inr, ap, ◌∙◌, Bool-cases, ==_iff, ℕ, ◌≡◌, refl, ◌↔◌, true, arith, List, [], ◌∷◌,
  Option, none, some, ◌==◌,
}
use m1switch.Gpu.State.{GpuState3d}
use m1switch.Gpu.Engine.{
  Target, Range, range, first_range, ranges, register, shader, route, switch, triggers_draw,
  handle_method,
}
use m1switch.Gpu.Engine.Registers.{
  rt_control, Register, draw_arrays_count, draw_elements_count, set_program, register_table,
  find_register, code_of,
}

-- Every entry of the table carries the number of its register.
abbrev Coded : List (ℕ × Register) → Type 0
Coded [] = Unit {0}
Coded ((code, r) ∷ rest) = (code ≡ code_of r) × Coded rest

find_register-code_of :
    (m : ℕ) (table : List (ℕ × Register)) (r : Register)
    → Coded table
    → find_register m table ≡ some r
    → m ≡ code_of r
unfolding find_register
find_register-code_of m [] r c e = cc
find_register-code_of m ((code, q) ∷ rest) r c e = elim (Bool-cases (m == code)) [
  | inl hit ↦
      (let same : some q ≡ some r = rw hit at e in (==_iff m code).0 hit ∙ c.0 ∙ ap code_of (cc))
  | inr miss ↦ find_register-code_of m rest r c.1 (rw miss at e)
]

register_table-Coded : Coded register_table
unfolding register_table code_of
register_table-Coded = omega arith

-- The range tests send nothing to a single register.
abbrev IsArray : Target → Type 0
IsArray (register r) = ⊥
IsArray t = Unit {0}

abbrev AllArrays : List Range → Type 0
AllArrays [] = Unit {0}
AllArrays (range test target ∷ rest) = IsArray target × AllArrays rest

IsArray-ne : (t : Target) (r : Register) → IsArray t → t ≢ register r
IsArray-ne (register q) r a = absurd a
IsArray-ne t r a = λ e. cc

first_range-register :
    (l : List Range) (t : Target) (r : Register)
    → AllArrays l
    → first_range l t ≡ register r
    → t ≡ register r
unfolding first_range
first_range-register [] t r a e = e
first_range-register (range test target ∷ rest) t r a e = elim (Bool-cases test) [
  | inl h ↦ absurd (IsArray-ne target r a.0 (rw h at e))
  | inr h ↦ first_range-register rest t r a.1 (rw h at e)
]

ranges-AllArrays : (m : ℕ) → AllArrays (ranges m)
unfolding ranges
ranges-AllArrays m = omega arith

switch-register : (o : Option Register) (r : Register) → switch o ≡ register r → o ≡ some r
unfolding switch
switch-register none r e = cc
switch-register (some q) r e = cc

route-register : (m : ℕ) (r : Register) → route m ≡ register r → m ≡ code_of r
unfolding route
route-register m r e =
    find_register-code_of m register_table r register_table-Coded
      (switch-register _ r (first_range-register (ranges m) _ r (ranges-AllArrays m) e))

-- The range of the shaders takes the number of SetProgram.
pub route-set_program : route (code_of set_program) ≡ shader 0
unfolding route first_range ranges code_of
route-set_program = refl

pub route-code_of : (r : Register) → r ≢ set_program → route (code_of r) ≡ register r
unfolding route first_range ranges switch find_register register_table code_of
route-code_of set_program ne = absurd (ne refl)
route-code_of rt_control ne = refl
route-code_of r ne = refl

route-ne : (m : ℕ) (r : Register) → route m ≡ register r → r ≢ set_program
route-ne m r e same =
    let taken : route m ≡ shader 0 =
      ap route (route-register m r e ∙ ap code_of same) ∙ route-set_program in
    cc

-- The `switch` reaches each single register but SetProgram under its own method number, and under no
-- other: no range test before it and no case above it takes that number away. It reaches SetProgram
-- under no number, since a range test before it takes 0x800.
pub route-register_iff :
    (m : ℕ) (r : Register) → (route m ≡ register r) ↔ ((m ≡ code_of r) × (r ≢ set_program))
route-register_iff m r =
    (λ e. (route-register m r e, route-ne m r e), λ h. rw h.0 (route-code_of r h.1))

triggers_draw_cases :
    (t : Target)
    → triggers_draw t ≡ true
    → (t ≡ register draw_arrays_count) ⊎ (t ≡ register draw_elements_count)
unfolding triggers_draw
triggers_draw_cases (register draw_arrays_count) e = inl refl
triggers_draw_cases (register draw_elements_count) e = inr refl
triggers_draw_cases t e = cc

-- Exactly the two count registers raise `is_draw`.
pub draws_iff :
    (m v : ℕ) (s : GpuState3d) → ((handle_method m v s).1 ≡ true) ↔ ((m ≡ 0x35E) ⊎ (m ≡ 0x5F8))
unfolding handle_method code_of triggers_draw
draws_iff m v s = (onto, from)
  where
    onto : triggers_draw (route m) ≡ true → (m ≡ 0x35E) ⊎ (m ≡ 0x5F8)
    onto e = elim (triggers_draw_cases (route m) e) [
      | inl h ↦ inl (route-register m draw_arrays_count h)
      | inr h ↦ inr (route-register m draw_elements_count h)
    ]

    from : (m ≡ 0x35E) ⊎ (m ≡ 0x5F8) → triggers_draw (route m) ≡ true
    from (inl h) = rw (h, route-code_of draw_arrays_count (λ e. cc))
    from (inr h) = rw (h, route-code_of draw_elements_count (λ e. cc))
