-- ===== src/Gpu/Engine.antt =====
-- gpu/engine/Engine3D.h and Engine3D.cpp: method writes update the register state. A method is
-- first routed to a register array by its range, then to a single register by the `switch`.
pub mod Registers
pub mod Routing
pub mod Frame
pub mod Halves
use m1switch.Base.{
  ℕ, ◌+◌, ◌-◌, ◌*◌, ◌/◌, ◌%◌, ◌^◌, Bool, true, false, ◌==◌, leb, in_range, if◌then◌else◌, List, [],
  ◌∷◌, Option, none, some, modify,
}
use m1switch.Gpu.State.{
  GpuState3d, RtState, ViewportState, ScissorState, VertexArrayState, VertexAttribState, BlendState,
  ShaderState, zero_state,
}
use Registers.{
  Register, draw_arrays_count, draw_elements_count, nonzero, bit, set_low, register_table,
  find_register, write_register, handle_shader,
}

-- `Reset`: all zero, but for these.
unfoldable pub reset : GpuState3d
reset = record zero_state {
  rasterizer_enable = true;
  polygon_mode_front = 0x1B02;
  polygon_mode_back = 0x1B02;
  front_face = 0x901;
  cull_face = 0x405;
  depth_stencil = record zero_state.depth_stencil { depth_func = 2; depth_write = true };
  multisample = record zero_state.multisample { sample_mask = 0xFFFFFFFF };
}

unfoldable pub set_render_target : ℕ → ℕ → RtState → RtState
set_render_target sub v r =
    if sub == 0
    then record r { address = set_low r.address v }
    else if sub == 1
    then record r { width = v }
    else if sub == 2
    then record r { height = v }
    else if sub == 3
    then record r { format = v }
    else if sub == 4
    then record r { tile_mode = v }
    else if sub == 5
    then record r { array_mode = v }
    else if sub == 6
    then record r { layer_stride = v }
    else if sub == 7
    then record r { base_layer = v }
    else r

unfoldable pub handle_render_target : ℕ → ℕ → GpuState3d → GpuState3d
unfolding set_render_target
handle_render_target index v s = record s {
  rt = modify s.rt (index % 8) (set_render_target (index / 8) v);
}

unfoldable pub set_viewport : ℕ → ℕ → ViewportState → ViewportState
set_viewport sub v p =
    if sub == 0
    then record p { scale_x = v }
    else if sub == 1
    then record p { scale_y = v }
    else if sub == 2
    then record p { scale_z = v }
    else if sub == 3
    then record p { translate_x = v }
    else if sub == 4
    then record p { translate_y = v }
    else if sub == 5
    then record p { translate_z = v }
    else if sub == 6
    then record p { swizzle = v }
    else p

unfoldable pub handle_viewport : ℕ → ℕ → GpuState3d → GpuState3d
unfolding set_viewport
handle_viewport index v s =
    if leb 16 (index / 8)
    then s
    else record s { viewports = modify s.viewports (index / 8) (set_viewport (index % 8) v) }

set_scissor : ℕ → ScissorState → ScissorState
set_scissor v c = record c { enabled = bit v 0 }

unfoldable pub handle_scissor : ℕ → ℕ → GpuState3d → GpuState3d
unfolding set_scissor
handle_scissor index v s =
    if index / 16 == 0
    then record s { scissors = modify s.scissors (index % 16) (set_scissor v) }
    else s

set_vertex_array : ℕ → ℕ → VertexArrayState → VertexArrayState
set_vertex_array sub v a =
    if sub == 0
    then record a { stride = v % 2 ^ 12; enabled = bit v 12 }
    else if sub == 1
    then record a { address = set_low a.address v }
    else if sub == 3
    then record a { divisor = v }
    else a

unfoldable pub handle_vertex_array : ℕ → ℕ → GpuState3d → GpuState3d
unfolding set_vertex_array
handle_vertex_array index v s = record s {
  vertex_arrays = modify s.vertex_arrays (index / 4 % 16) (set_vertex_array (index % 4) v);
}

set_vertex_attrib : ℕ → VertexAttribState → VertexAttribState
set_vertex_attrib v a = record a {
  buffer_index = v % 2 ^ 5;
  is_fixed = bit v 6;
  offset = v / 2 ^ 7 % 2 ^ 14;
  size = v / 2 ^ 21 % 2 ^ 6;
  type = v / 2 ^ 27 % 2 ^ 3;
  is_bgra = bit v 31;
}

unfoldable pub handle_vertex_attrib : ℕ → ℕ → GpuState3d → GpuState3d
unfolding set_vertex_attrib
handle_vertex_attrib index v s = record s {
  vertex_attribs = modify s.vertex_attribs (index % 32) (set_vertex_attrib v);
}

set_blend : ℕ → ℕ → BlendState → BlendState
set_blend sub v b =
    if sub == 0
    then record b { enabled = bit v 0 }
    else if sub == 1
    then record b { color_op = v }
    else if sub == 2
    then record b { src_color = v }
    else if sub == 3
    then record b { dst_color = v }
    else if sub == 4
    then record b { alpha_op = v }
    else if sub == 5
    then record b { src_alpha = v }
    else if sub == 6
    then record b { dst_alpha = v }
    else b

unfoldable pub handle_blend : ℕ → ℕ → GpuState3d → GpuState3d
unfolding set_blend
handle_blend index v s = record s { blend = modify s.blend (index % 8) (set_blend (index / 8) v) }

-- Where a method goes: the array handlers with the index that they are called with, the three
-- stencil registers that precede the `switch`, a case of the `switch`, or its `default`.
pub data Target : Type 0 where
  render_target viewport scissor vertex_attrib blend_enable : ℕ → Target
  color_write_mask vertex_array blend shader per_instance : ℕ → Target
  front_func_ref front_func_mask front_mask vertex_array_limit : Target
  register : Register → Target
  unhandled : Target

unfoldable pub switch : Option Register → Target
switch none = unhandled
switch (some r) = register r

-- A range test, and where it sends the method.
pub data Range : Type 0 where
  range : Bool → Target → Range

unfoldable pub first_range : List Range → Target → Target
first_range [] t = t
first_range (range test target ∷ rest) t = if test then target else first_range rest t

-- The range tests in the order of `HandleMethod`. The case `SetProgram` of the `switch` is never
-- reached: its number is in the range of the shaders.
unfoldable pub ranges : ℕ → List Range
ranges m =
    range (in_range m 0x200 64) (render_target ((m - 0x200) / 8))
    ∷ range (in_range m 0x280 96) (viewport (m - 0x280))
    ∷ range (in_range m 0x380 16) (scissor (m - 0x380))
    ∷ range (in_range m 0x458 32) (vertex_attrib (m - 0x458))
    ∷ range (in_range m 0x4D8 8) (blend_enable (m - 0x4D8))
    ∷ range (m == 0x4E5) front_func_ref
    ∷ range (m == 0x4E6) front_func_mask
    ∷ range (m == 0x4E7) front_mask
    ∷ range (in_range m 0x680 8) (color_write_mask (m - 0x680))
    ∷ range (in_range m 0x700 64) (vertex_array (m - 0x700))
    ∷ range (in_range m 0x780 56) (blend (m - 0x780))
    ∷ range (in_range m 0x7C0 16) vertex_array_limit
    ∷ range (in_range m 0x800 12) (shader (m - 0x800))
    ∷ range (in_range m 0x620 16) (per_instance (m - 0x620))
    ∷ []

unfoldable pub route : ℕ → Target
route m = first_range (ranges m) (switch (find_register m register_table))

unfoldable pub write_target : Target → ℕ → GpuState3d → GpuState3d
unfolding handle_render_target handle_viewport handle_scissor handle_vertex_attrib
    handle_vertex_array handle_blend handle_shader write_register
write_target (render_target index) v s = handle_render_target index v s
write_target (viewport index) v s = handle_viewport index v s
write_target (scissor index) v s = handle_scissor index v s
write_target (vertex_attrib index) v s = handle_vertex_attrib index v s
write_target (blend_enable i) v s = record s {
  blend = modify s.blend i (λ b. record b { enabled = nonzero v });
}
write_target (color_write_mask i) v s = record s {
  blend = modify s.blend i (λ b. record b { color_mask = v % 2 ^ 4 });
}
write_target (vertex_array index) v s = handle_vertex_array index v s
write_target (blend index) v s = handle_blend index v s
write_target (shader index) v s = handle_shader index v s
write_target (per_instance i) v s = record s {
  vertex_arrays = modify s.vertex_arrays i (λ a. record a { divisor = if nonzero v then 1 else 0 });
}
write_target front_func_ref v s = record s {
  depth_stencil = record s.depth_stencil { stencil_front_ref = v % 2 ^ 8 };
}
write_target front_func_mask v s = record s {
  depth_stencil = record s.depth_stencil { stencil_front_mask = v % 2 ^ 8 };
}
write_target front_mask v s = record s {
  depth_stencil = record s.depth_stencil { stencil_front_writemask = v % 2 ^ 8 };
}
write_target vertex_array_limit v s = s
write_target (register r) v s = write_register r v s
write_target unhandled v s = s

unfoldable pub triggers_draw : Target → Bool
triggers_draw (register draw_arrays_count) = true
triggers_draw (register draw_elements_count) = true
triggers_draw t = false

-- `HandleMethod`: the new state, and `is_draw`.
unfoldable pub handle_method : ℕ → ℕ → GpuState3d → GpuState3d × Bool
handle_method m v s = (write_target (route m) v s, triggers_draw (route m))
