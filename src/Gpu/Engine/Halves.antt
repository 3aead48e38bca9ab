-- ===== src/Gpu/Engine/Halves.antt =====
-- 64-bit registers are written in halves, or only in part.
use m1switch.Base.{ℕ, ◌+◌, ◌*◌, ◌/◌, ◌^◌, ◌<◌, ◌≡◌, refl, ap, ◌∙◌, arith, leb, ◌==◌, view-if}
use m1switch.Base.Bits.{u32_mod}
use m1switch.Gpu.State.{GpuState3d}
use m1switch.Gpu.Engine.{
  Target, viewport, scissor, register, handle_render_target, handle_viewport, handle_scissor,
  handle_vertex_array, handle_vertex_attrib, handle_blend, route, write_target, handle_method,
}
use m1switch.Gpu.Engine.Registers.{
  handle_shader, set_program, set_tex_header_pool, set_tex_sampler_pool, depth_target_addr,
  Register, set_program_region, set_program_region_high, index_array_start, index_array_start_high,
  index_array_limit, index_array_limit_high, write_register, set_low, set_high, code_of,
}
use m1switch.Gpu.Engine.Routing.{route-code_of, route-set_program}

-- A write under the number of a single register.
handle_method-code_of :
    (r : Register) (v : ℕ) (s : GpuState3d)
    → (handle_method (code_of r) v s).0 ≡ write_register r v s
unfolding handle_method write_target write_register
handle_method-code_of set_program v s = rw (route-set_program) refl
handle_method-code_of r v s = rw (route-code_of r (λ e. cc)) refl

set_high-set_low :
    (old low high : ℕ) → low < u32_mod → set_high (set_low old low) high ≡ high * 2 ^ 32 + low
unfolding set_low set_high
set_high-set_low old low high h = omega arith

set_low-set_high :
    (old low high : ℕ) → low < u32_mod → set_low (set_high old high) low ≡ high * 2 ^ 32 + low
unfolding set_low set_high
set_low-set_high old low high h = omega arith

-- Two method writes, one after the other.
abbrev pub write2 : ℕ → ℕ → ℕ → ℕ → GpuState3d → GpuState3d
write2 m v n w s = (handle_method n w (handle_method m v s).0).0

write2-code_of :
    (q r : Register) (v w : ℕ) (s : GpuState3d)
    → write2 (code_of q) v (code_of r) w s ≡ write_register r w (write_register q v s)
write2-code_of q r v w s =
    ap (λ (t : GpuState3d). (handle_method (code_of r) w t).0) (handle_method-code_of q v s)
    ∙ handle_method-code_of r w (write_register q v s)

-- Whatever the register held, its two halves, written in either order, make up the 64-bit value:
-- for the program region, the start of the index array and its limit.
pub write2-halves :
    (low high : ℕ) (s : GpuState3d)
    → low < u32_mod
    → ((write2 0x582 low 0x583 high s).program_region ≡ high * 2 ^ 32 + low)
      × ((write2 0x583 high 0x582 low s).program_region ≡ high * 2 ^ 32 + low)
      × ((write2 0x5F2 low 0x5F3 high s).index_buffer.address ≡ high * 2 ^ 32 + low)
      × ((write2 0x5F3 high 0x5F2 low s).index_buffer.address ≡ high * 2 ^ 32 + low)
      × ((write2 0x5F4 low 0x5F5 high s).index_buffer.limit ≡ high * 2 ^ 32 + low)
      × ((write2 0x5F5 high 0x5F4 low s).index_buffer.limit ≡ high * 2 ^ 32 + low)
unfolding write_register code_of
write2-halves low high s h = (
  ap (λ (q : GpuState3d). q.program_region)
        (write2-code_of set_program_region set_program_region_high low high s)
      ∙ set_high-set_low s.program_region low high h,
  ap (λ (q : GpuState3d). q.program_region)
        (write2-code_of set_program_region_high set_program_region high low s)
      ∙ set_low-set_high s.program_region low high h,
  ap (λ (q : GpuState3d). q.index_buffer.address)
        (write2-code_of index_array_start index_array_start_high low high s)
      ∙ set_high-set_low s.index_buffer.address low high h,
  ap (λ (q : GpuState3d). q.index_buffer.address)
        (write2-code_of index_array_start_high index_array_start high low s)
      ∙ set_low-set_high s.index_buffer.address low high h,
  ap (λ (q : GpuState3d). q.index_buffer.limit)
        (write2-code_of index_array_limit index_array_limit_high low high s)
      ∙ set_high-set_low s.index_buffer.limit low high h,
  ap (λ (q : GpuState3d). q.index_buffer.limit)
        (write2-code_of index_array_limit_high index_array_limit high low s)
      ∙ set_low-set_high s.index_buffer.limit low high h,
)

-- The upper halves of the pool and depth target addresses.
abbrev pub upper_halves : GpuState3d → ℕ × ℕ × ℕ
upper_halves s =
    (s.tex_header_pool / 2 ^ 32, s.tex_sampler_pool / 2 ^ 32, s.depth_target.address / 2 ^ 32)

write_register-upper_halves :
    (r : Register) (v : ℕ) (s : GpuState3d)
    → v < u32_mod
    → upper_halves (write_register r v s) ≡ upper_halves s
unfolding write_register set_low
write_register-upper_halves set_tex_header_pool v s h = ground arith
write_register-upper_halves set_tex_sampler_pool v s h = ground arith
write_register-upper_halves depth_target_addr v s h = ground arith
write_register-upper_halves r v s h = refl

write_target-upper_halves :
    (t : Target) (v : ℕ) (s : GpuState3d)
    → v < u32_mod
    → upper_halves (write_target t v s) ≡ upper_halves s
unfolding write_target handle_render_target handle_viewport handle_scissor handle_vertex_array
    handle_vertex_attrib handle_blend handle_shader
write_target-upper_halves (viewport i) v s h = view-if upper_halves (leb 16 (i / 8)) s _ _ refl refl
write_target-upper_halves (scissor i) v s h = view-if upper_halves (i / 16 == 0) _ s _ refl refl
write_target-upper_halves (register r) v s h = write_register-upper_halves r v s h
write_target-upper_halves t v s h = refl

-- No method write reaches the upper half of the texture header pool, of the sampler pool or of the
-- depth target's address.
pub handle_method-upper_halves :
    (m v : ℕ) (s : GpuState3d) → v < u32_mod → upper_halves (handle_method m v s).0 ≡ upper_halves s
unfolding handle_method
handle_method-upper_halves m v s h = write_target-upper_halves (route m) v s h
