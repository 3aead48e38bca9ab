-- ===== src/Gpu/State.antt =====
-- gpu/maxwell/GpuState.h: the register state of the 3D engine.
mod Parts
pub use Parts.*
use m1switch.Base.{ℕ, Bool, false, List, replicate}

-- All mutable register state of the 3D engine.
pub record GpuState3d : Type 0 where
  pub rt : List RtState
  pub rt_control : ℕ
  pub viewports : List ViewportState
  pub viewport_transform_enable : Bool
  pub scissors : List ScissorState
  pub vertex_arrays : List VertexArrayState
  pub vertex_attribs : List VertexAttribState
  pub index_buffer : IndexBufferState
  pub depth_target : DepthTargetState
  pub blend : List BlendState
  pub independent_blend : Bool
  pub blend_const : List ℕ
  pub depth_stencil : DepthStencilState
  pub clear : ClearState
  pub shaders : List ShaderState
  pub rasterizer_enable : Bool
  pub primitive_type : ℕ
  pub polygon_mode_front : ℕ
  pub polygon_mode_back : ℕ
  pub cull_face : ℕ
  pub front_face : ℕ
  pub cull_enable : Bool
  pub line_width : ℕ
  pub point_size : ℕ
  pub primitive_restart : Bool
  pub primitive_restart_index : ℕ
  pub depth_clamp : Bool
  pub rasterizer_discard : Bool
  pub polygon_offset_point : Bool
  pub polygon_offset_line : Bool
  pub polygon_offset_fill : Bool
  pub polygon_offset_factor : ℕ
  pub polygon_offset_units : ℕ
  pub polygon_offset_clamp : ℕ
  pub alpha_test_enable : Bool
  pub alpha_test_func : ℕ
  pub alpha_test_ref : ℕ
  pub logic_op_enable : Bool
  pub logic_op : ℕ
  pub multisample : MultisampleState
  pub draw_arrays_first : ℕ
  pub draw_arrays_count : ℕ
  pub draw_elements_first : ℕ
  pub draw_elements_count : ℕ
  pub vertex_id_base : ℕ
  pub instance_count : ℕ
  pub num_instances : ℕ
  pub prim_restart_draw_arrays : Bool
  pub tex_header_pool : ℕ
  pub tex_header_max_idx : ℕ
  pub tex_sampler_pool : ℕ
  pub tex_sampler_max_idx : ℕ
  pub program_region : ℕ
  pub uniform_buffer_state : ℕ

-- What `memset(&state_, 0, ...)` leaves.
abbrev pub zero_state : GpuState3d
zero_state = record {
  rt = replicate 8 zero_rt_state;
  rt_control = 0;
  viewports = replicate 16 zero_viewport_state;
  viewport_transform_enable = false;
  scissors = replicate 16 zero_scissor_state;
  vertex_arrays = replicate 16 zero_vertex_array_state;
  vertex_attribs = replicate 32 zero_vertex_attrib_state;
  index_buffer = zero_index_buffer_state;
  depth_target = zero_depth_target_state;
  blend = replicate 8 zero_blend_state;
  independent_blend = false;
  blend_const = replicate 4 0;
  depth_stencil = zero_depth_stencil_state;
  clear = zero_clear_state;
  shaders = replicate 6 zero_shader_state;
  rasterizer_enable = false;
  primitive_type = 0;
  polygon_mode_front = 0;
  polygon_mode_back = 0;
  cull_face = 0;
  front_face = 0;
  cull_enable = false;
  line_width = 0;
  point_size = 0;
  primitive_restart = false;
  primitive_restart_index = 0;
  depth_clamp = false;
  rasterizer_discard = false;
  polygon_offset_point = false;
  polygon_offset_line = false;
  polygon_offset_fill = false;
  polygon_offset_factor = 0;
  polygon_offset_units = 0;
  polygon_offset_clamp = 0;
  alpha_test_enable = false;
  alpha_test_func = 0;
  alpha_test_ref = 0;
  logic_op_enable = false;
  logic_op = 0;
  multisample = zero_multisample_state;
  draw_arrays_first = 0;
  draw_arrays_count = 0;
  draw_elements_first = 0;
  draw_elements_count = 0;
  vertex_id_base = 0;
  instance_count = 0;
  num_instances = 0;
  prim_restart_draw_arrays = false;
  tex_header_pool = 0;
  tex_header_max_idx = 0;
  tex_sampler_pool = 0;
  tex_sampler_max_idx = 0;
  program_region = 0;
  uniform_buffer_state = 0;
}
