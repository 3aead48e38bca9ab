-- ===== src/Gpu/Engine/Registers.antt =====
-- gpu/maxwell/MethodDefs.h and the `switch` of gpu/engine/Engine3D.cpp: the registers that are no
-- array, each with its method number. The two halves of a 64-bit register are two registers.
use m1switch.Base.{
  ℕ, ◌+◌, ◌*◌, ◌/◌, ◌%◌, ◌^◌, Bool, not, ◌==◌, if◌then◌else◌, List, [], ◌∷◌, Option, none, some,
  modify,
}
use m1switch.Gpu.State.{GpuState3d, ShaderState}

pub data Register : Type 0 where
  rt_control draw_arrays_first draw_arrays_count draw_elements_first draw_elements_count
        screen_scissor_horizontal screen_scissor_vertical index_array_start index_array_start_high
        index_array_limit index_array_limit_high index_array_format set_program set_program_region
        set_program_region_high set_tex_header_pool set_tex_header_max set_tex_sampler_pool
        set_tex_sampler_max depth_target_addr depth_target_format depth_target_horizontal
        depth_target_vertical depth_target_array_mode depth_target_enable depth_test_enable
        depth_write_enable depth_test_func stencil_enable stencil_front_func stencil_front_op_fail
        stencil_front_op_zfail stencil_front_op_zpass stencil_two_side_enable stencil_back_func
        stencil_back_func_ref stencil_back_mask stencil_back_op_fail stencil_back_op_zfail
        stencil_back_op_zpass depth_bounds_enable depth_bounds_near depth_bounds_far
        independent_blend_enable blend_constant rasterizer_enable set_front_face set_cull_face
        cull_face_enable set_polygon_mode_front set_polygon_mode_back polygon_offset_point_enable
        polygon_offset_line_enable polygon_offset_fill_enable polygon_offset_factor
        polygon_offset_units polygon_offset_clamp alpha_test_enable alpha_test_ref alpha_test_func
        color_logic_op_enable color_logic_op_type vertex_begin_gl clear_color clear_depth
        clear_stencil clear_buffers multisample_enable multisample_control viewport_transform_enable
        view_volume_clip_control primitive_restart_enable primitive_restart_index no_operation
        pipe_nop wait_for_idle invalidate_shader_caches invalidate_texture_data_cache
        invalidate_texture_data_cache_no_wfi fragment_barrier :
      Register

-- `value != 0`, and `((value >> n) & 1) != 0`.
abbrev pub nonzero : ℕ → Bool
nonzero v = not (v == 0)

abbrev pub bit : ℕ → ℕ → Bool
bit v n = v / 2 ^ n % 2 == 1

-- `(old & ~0xFFFFFFFFULL) | value` and `(old & 0xFFFFFFFFULL) | ((u64)value << 32)`, for a 32-bit
-- value: the fields are disjoint, so `|` is a sum.
unfoldable pub set_low : ℕ → ℕ → ℕ
set_low old v = old / 2 ^ 32 * 2 ^ 32 + v

unfoldable pub set_high : ℕ → ℕ → ℕ
set_high old v = old % 2 ^ 32 + v * 2 ^ 32

-- The `case` labels.
unfoldable pub register_table : List (ℕ × Register)
register_table =
    (0x487, rt_control)
    ∷ (0x35D, draw_arrays_first)
    ∷ (0x35E, draw_arrays_count)
    ∷ (0x5F7, draw_elements_first)
    ∷ (0x5F8, draw_elements_count)
    ∷ (0x3FD, screen_scissor_horizontal)
    ∷ (0x3FE, screen_scissor_vertical)
    ∷ (0x5F2, index_array_start)
    ∷ (0x5F3, index_array_start_high)
    ∷ (0x5F4, index_array_limit)
    ∷ (0x5F5, index_array_limit_high)
    ∷ (0x5F6, index_array_format)
    ∷ (0x800, set_program)
    ∷ (0x582, set_program_region)
    ∷ (0x583, set_program_region_high)
    ∷ (0x55D, set_tex_header_pool)
    ∷ (0x55F, set_tex_header_max)
    ∷ (0x557, set_tex_sampler_pool)
    ∷ (0x559, set_tex_sampler_max)
    ∷ (0x3F8, depth_target_addr)
    ∷ (0x3FA, depth_target_format)
    ∷ (0x48A, depth_target_horizontal)
    ∷ (0x48B, depth_target_vertical)
    ∷ (0x48C, depth_target_array_mode)
    ∷ (0x54E, depth_target_enable)
    ∷ (0x4B3, depth_test_enable)
    ∷ (0x4BA, depth_write_enable)
    ∷ (0x4C3, depth_test_func)
    ∷ (0x4E0, stencil_enable)
    ∷ (0x4E4, stencil_front_func)
    ∷ (0x4E1, stencil_front_op_fail)
    ∷ (0x4E2, stencil_front_op_zfail)
    ∷ (0x4E3, stencil_front_op_zpass)
    ∷ (0x565, stencil_two_side_enable)
    ∷ (0x569, stencil_back_func)
    ∷ (0x3D5, stencil_back_func_ref)
    ∷ (0x3D6, stencil_back_mask)
    ∷ (0x566, stencil_back_op_fail)
    ∷ (0x567, stencil_back_op_zfail)
    ∷ (0x568, stencil_back_op_zpass)
    ∷ (0x66F, depth_bounds_enable)
    ∷ (0x3E7, depth_bounds_near)
    ∷ (0x3E8, depth_bounds_far)
    ∷ (0x4B9, independent_blend_enable)
    ∷ (0x4C7, blend_constant)
    ∷ (0xDF, rasterizer_enable)
    ∷ (0x647, set_front_face)
    ∷ (0x648, set_cull_face)
    ∷ (0x646, cull_face_enable)
    ∷ (0x36B, set_polygon_mode_front)
    ∷ (0x36C, set_polygon_mode_back)
    ∷ (0x370, polygon_offset_point_enable)
    ∷ (0x371, polygon_offset_line_enable)
    ∷ (0x372, polygon_offset_fill_enable)
    ∷ (0x55B, polygon_offset_factor)
    ∷ (0x56F, polygon_offset_units)
    ∷ (0x61F, polygon_offset_clamp)
    ∷ (0x4BB, alpha_test_enable)
    ∷ (0x4C4, alpha_test_ref)
    ∷ (0x4C5, alpha_test_func)
    ∷ (0x671, color_logic_op_enable)
    ∷ (0x672, color_logic_op_type)
    ∷ (0x586, vertex_begin_gl)
    ∷ (0x360, clear_color)
    ∷ (0x364, clear_depth)
    ∷ (0x368, clear_stencil)
    ∷ (0x674, clear_buffers)
    ∷ (0x54D, multisample_enable)
    ∷ (0x54F, multisample_control)
    ∷ (0x64B, viewport_transform_enable)
    ∷ (0x64F, view_volume_clip_control)
    ∷ (0x591, primitive_restart_enable)
    ∷ (0x592, primitive_restart_index)
    ∷ (0x40, no_operation)
    ∷ (0x68B, pipe_nop)
    ∷ (0x44, wait_for_idle)
    ∷ (0x369, invalidate_shader_caches)
    ∷ (0x3DD, invalidate_texture_data_cache)
    ∷ (0x4A2, invalidate_texture_data_cache_no_wfi)
    ∷ (0x378, fragment_barrier)
    ∷ []

unfoldable pub find_register : ℕ → List (ℕ × Register) → Option Register
find_register m [] = none
find_register m ((code, r) ∷ rest) = if m == code then some r else find_register m rest

set_shader : ℕ → ℕ → ShaderState → ShaderState
set_shader sub v h =
    if sub == 0
    then record h { enabled = bit v 0; stage_id = v / 2 ^ 4 % 2 ^ 3 }
    else if sub == 1
    then record h { offset = set_low h.offset v }
    else h

unfoldable pub handle_shader : ℕ → ℕ → GpuState3d → GpuState3d
unfolding set_shader
handle_shader index v s = record s {
  shaders = modify s.shaders (index % 6) (set_shader (index / 6) v);
}

-- What a case of the `switch` does to the state.
unfoldable pub write_register : Register → ℕ → GpuState3d → GpuState3d
unfolding handle_shader
write_register rt_control v s = record s { rt_control = v }
write_register draw_arrays_first v s = record s { draw_arrays_first = v }
write_register draw_arrays_count v s = record s { draw_arrays_count = v }
write_register draw_elements_first v s = record s { draw_elements_first = v }
write_register draw_elements_count v s = record s { draw_elements_count = v }
write_register screen_scissor_horizontal v s = s
write_register screen_scissor_vertical v s = s
write_register index_array_start v s = record s {
  index_buffer = record s.index_buffer { address = set_low s.index_buffer.address v };
}
write_register index_array_start_high v s = record s {
  index_buffer = record s.index_buffer { address = set_high s.index_buffer.address v };
}
write_register index_array_limit v s = record s {
  index_buffer = record s.index_buffer { limit = set_low s.index_buffer.limit v };
}
write_register index_array_limit_high v s = record s {
  index_buffer = record s.index_buffer { limit = set_high s.index_buffer.limit v };
}
write_register index_array_format v s = record s {
  index_buffer = record s.index_buffer { format = v };
}
write_register set_program v s = handle_shader 0 v s
write_register set_program_region v s = record s { program_region = set_low s.program_region v }
write_register set_program_region_high v s = record s {
  program_region = set_high s.program_region v;
}
write_register set_tex_header_pool v s = record s { tex_header_pool = set_low s.tex_header_pool v }
write_register set_tex_header_max v s = record s { tex_header_max_idx = v }
write_register set_tex_sampler_pool v s = record s {
  tex_sampler_pool = set_low s.tex_sampler_pool v;
}
write_register set_tex_sampler_max v s = record s { tex_sampler_max_idx = v }
write_register depth_target_addr v s = record s {
  depth_target = record s.depth_target { address = set_low s.depth_target.address v };
}
write_register depth_target_format v s = record s {
  depth_target = record s.depth_target { format = v };
}
write_register depth_target_horizontal v s = record s {
  depth_target = record s.depth_target { width = v };
}
write_register depth_target_vertical v s = record s {
  depth_target = record s.depth_target { height = v };
}
write_register depth_target_array_mode v s = record s {
  depth_target = record s.depth_target { tile_mode = v };
}
write_register depth_target_enable v s = record s {
  depth_target = record s.depth_target { enabled = nonzero v };
}
write_register depth_test_enable v s = record s {
  depth_stencil = record s.depth_stencil { depth_enabled = nonzero v };
}
write_register depth_write_enable v s = record s {
  depth_stencil = record s.depth_stencil { depth_write = nonzero v };
}
write_register depth_test_func v s = record s {
  depth_stencil = record s.depth_stencil { depth_func = v };
}
write_register stencil_enable v s = record s {
  depth_stencil = record s.depth_stencil { stencil_enable = nonzero v };
}
write_register stencil_front_func v s = record s {
  depth_stencil = record s.depth_stencil {
    stencil_front_func = v % 16;
    stencil_front_ref = v / 2 ^ 16 % 256;
  };
}
write_register stencil_front_op_fail v s = record s {
  depth_stencil = record s.depth_stencil { stencil_front_fail = v % 16 };
}
write_register stencil_front_op_zfail v s = record s {
  depth_stencil = record s.depth_stencil { stencil_front_zfail = v % 16 };
}
write_register stencil_front_op_zpass v s = record s {
  depth_stencil = record s.depth_stencil { stencil_front_zpass = v % 16 };
}
write_register stencil_two_side_enable v s = record s {
  depth_stencil = record s.depth_stencil { stencil_two_side = nonzero v };
}
write_register stencil_back_func v s = record s {
  depth_stencil = record s.depth_stencil { stencil_back_func = v % 16 };
}
write_register stencil_back_func_ref v s = record s {
  depth_stencil = record s.depth_stencil { stencil_back_ref = v % 256 };
}
write_register stencil_back_mask v s = record s {
  depth_stencil = record s.depth_stencil { stencil_back_mask = v % 256 };
}
write_register stencil_back_op_fail v s = record s {
  depth_stencil = record s.depth_stencil { stencil_back_fail = v % 16 };
}
write_register stencil_back_op_zfail v s = record s {
  depth_stencil = record s.depth_stencil { stencil_back_zfail = v % 16 };
}
write_register stencil_back_op_zpass v s = record s {
  depth_stencil = record s.depth_stencil { stencil_back_zpass = v % 16 };
}
write_register depth_bounds_enable v s = record s {
  depth_stencil = record s.depth_stencil { depth_bounds_enable = nonzero v };
}
write_register depth_bounds_near v s = record s {
  depth_stencil = record s.depth_stencil { depth_bounds_near = v };
}
write_register depth_bounds_far v s = record s {
  depth_stencil = record s.depth_stencil { depth_bounds_far = v };
}
write_register independent_blend_enable v s = record s { independent_blend = nonzero v }
write_register blend_constant v s = record s { blend_const = modify s.blend_const 0 (λ _. v) }
write_register rasterizer_enable v s = record s { rasterizer_enable = nonzero v }
write_register set_front_face v s = record s { front_face = v }
write_register set_cull_face v s = record s { cull_face = v }
write_register cull_face_enable v s = record s { cull_enable = nonzero v }
write_register set_polygon_mode_front v s = record s { polygon_mode_front = v }
write_register set_polygon_mode_back v s = record s { polygon_mode_back = v }
write_register polygon_offset_point_enable v s = record s { polygon_offset_point = nonzero v }
write_register polygon_offset_line_enable v s = record s { polygon_offset_line = nonzero v }
write_register polygon_offset_fill_enable v s = record s { polygon_offset_fill = nonzero v }
write_register polygon_offset_factor v s = record s { polygon_offset_factor = v }
write_register polygon_offset_units v s = record s { polygon_offset_units = v }
write_register polygon_offset_clamp v s = record s { polygon_offset_clamp = v }
write_register alpha_test_enable v s = record s { alpha_test_enable = nonzero v }
write_register alpha_test_ref v s = record s { alpha_test_ref = v }
write_register alpha_test_func v s = record s { alpha_test_func = v }
write_register color_logic_op_enable v s = record s { logic_op_enable = nonzero v }
write_register color_logic_op_type v s = record s { logic_op = v }
write_register vertex_begin_gl v s = record s { primitive_type = v % 16 }
write_register clear_color v s = record s {
  clear = record s.clear { color = modify s.clear.color 0 (λ _. v) };
}
write_register clear_depth v s = record s { clear = record s.clear { depth = v } }
write_register clear_stencil v s = record s { clear = record s.clear { stencil = v } }
write_register clear_buffers v s = record s { clear = record s.clear { buffers = v } }
write_register multisample_enable v s = record s {
  multisample = record s.multisample { enable = nonzero v };
}
write_register multisample_control v s = record s {
  multisample = record s.multisample { alpha_to_coverage = bit v 0; alpha_to_one = bit v 4 };
}
write_register viewport_transform_enable v s = record s { viewport_transform_enable = nonzero v }
write_register view_volume_clip_control v s = record s { depth_clamp = bit v 3 }
write_register primitive_restart_enable v s = record s { primitive_restart = nonzero v }
write_register primitive_restart_index v s = record s { primitive_restart_index = v }
write_register no_operation v s = s
write_register pipe_nop v s = s
write_register wait_for_idle v s = s
write_register invalidate_shader_caches v s = s
write_register invalidate_texture_data_cache v s = s
write_register invalidate_texture_data_cache_no_wfi v s = s
write_register fragment_barrier v s = s

-- The method number of a register.
unfoldable pub code_of : Register → ℕ
code_of rt_control = 0x487
code_of draw_arrays_first = 0x35D
code_of draw_arrays_count = 0x35E
code_of draw_elements_first = 0x5F7
code_of draw_elements_count = 0x5F8
code_of screen_scissor_horizontal = 0x3FD
code_of screen_scissor_vertical = 0x3FE
code_of index_array_start = 0x5F2
code_of index_array_start_high = 0x5F3
code_of index_array_limit = 0x5F4
code_of index_array_limit_high = 0x5F5
code_of index_array_format = 0x5F6
code_of set_program = 0x800
code_of set_program_region = 0x582
code_of set_program_region_high = 0x583
code_of set_tex_header_pool = 0x55D
code_of set_tex_header_max = 0x55F
code_of set_tex_sampler_pool = 0x557
code_of set_tex_sampler_max = 0x559
code_of depth_target_addr = 0x3F8
code_of depth_target_format = 0x3FA
code_of depth_target_horizontal = 0x48A
code_of depth_target_vertical = 0x48B
code_of depth_target_array_mode = 0x48C
code_of depth_target_enable = 0x54E
code_of depth_test_enable = 0x4B3
code_of depth_write_enable = 0x4BA
code_of depth_test_func = 0x4C3
code_of stencil_enable = 0x4E0
code_of stencil_front_func = 0x4E4
code_of stencil_front_op_fail = 0x4E1
code_of stencil_front_op_zfail = 0x4E2
code_of stencil_front_op_zpass = 0x4E3
code_of stencil_two_side_enable = 0x565
code_of stencil_back_func = 0x569
code_of stencil_back_func_ref = 0x3D5
code_of stencil_back_mask = 0x3D6
code_of stencil_back_op_fail = 0x566
code_of stencil_back_op_zfail = 0x567
code_of stencil_back_op_zpass = 0x568
code_of depth_bounds_enable = 0x66F
code_of depth_bounds_near = 0x3E7
code_of depth_bounds_far = 0x3E8
code_of independent_blend_enable = 0x4B9
code_of blend_constant = 0x4C7
code_of rasterizer_enable = 0xDF
code_of set_front_face = 0x647
code_of set_cull_face = 0x648
code_of cull_face_enable = 0x646
code_of set_polygon_mode_front = 0x36B
code_of set_polygon_mode_back = 0x36C
code_of polygon_offset_point_enable = 0x370
code_of polygon_offset_line_enable = 0x371
code_of polygon_offset_fill_enable = 0x372
code_of polygon_offset_factor = 0x55B
code_of polygon_offset_units = 0x56F
code_of polygon_offset_clamp = 0x61F
code_of alpha_test_enable = 0x4BB
code_of alpha_test_ref = 0x4C4
code_of alpha_test_func = 0x4C5
code_of color_logic_op_enable = 0x671
code_of color_logic_op_type = 0x672
code_of vertex_begin_gl = 0x586
code_of clear_color = 0x360
code_of clear_depth = 0x364
code_of clear_stencil = 0x368
code_of clear_buffers = 0x674
code_of multisample_enable = 0x54D
code_of multisample_control = 0x54F
code_of viewport_transform_enable = 0x64B
code_of view_volume_clip_control = 0x64F
code_of primitive_restart_enable = 0x591
code_of primitive_restart_index = 0x592
code_of no_operation = 0x40
code_of pipe_nop = 0x68B
code_of wait_for_idle = 0x44
code_of invalidate_shader_caches = 0x369
code_of invalidate_texture_data_cache = 0x3DD
code_of invalidate_texture_data_cache_no_wfi = 0x4A2
code_of fragment_barrier = 0x378
