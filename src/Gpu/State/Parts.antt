-- ===== src/Gpu/State/Parts.antt =====
-- gpu/maxwell/GpuState.h: the parts of the register state. An enum field holds the number that
-- `static_cast` puts there, a float field its bit pattern, an array is a list of its length.
use m1switch.Base.{ℕ, Bool, false, List, replicate}

-- Render target registers (0x200).
pub record RtState : Type 0 where
  pub address : ℕ
  pub width : ℕ
  pub height : ℕ
  pub format : ℕ
  pub tile_mode : ℕ
  pub array_mode : ℕ
  pub layer_stride : ℕ
  pub base_layer : ℕ

-- Viewport transform (0x280). Floats are their bit patterns.
pub record ViewportState : Type 0 where
  pub scale_x : ℕ
  pub scale_y : ℕ
  pub scale_z : ℕ
  pub translate_x : ℕ
  pub translate_y : ℕ
  pub translate_z : ℕ
  pub swizzle : ℕ

pub record ScissorState : Type 0 where
  pub enabled : Bool
  pub min_x : ℕ
  pub max_x : ℕ
  pub min_y : ℕ
  pub max_y : ℕ

pub record VertexArrayState : Type 0 where
  pub address : ℕ
  pub stride : ℕ
  pub divisor : ℕ
  pub enabled : Bool

pub record VertexAttribState : Type 0 where
  pub buffer_index : ℕ
  pub offset : ℕ
  pub size : ℕ
  pub type : ℕ
  pub is_fixed : Bool
  pub is_bgra : Bool

pub record IndexBufferState : Type 0 where
  pub address : ℕ
  pub limit : ℕ
  pub first : ℕ
  pub count : ℕ
  pub format : ℕ

pub record DepthTargetState : Type 0 where
  pub address : ℕ
  pub format : ℕ
  pub width : ℕ
  pub height : ℕ
  pub tile_mode : ℕ
  pub layer_stride : ℕ
  pub enabled : Bool

pub record BlendState : Type 0 where
  pub enabled : Bool
  pub color_op : ℕ
  pub src_color : ℕ
  pub dst_color : ℕ
  pub alpha_op : ℕ
  pub src_alpha : ℕ
  pub dst_alpha : ℕ
  pub color_mask : ℕ

pub record DepthStencilState : Type 0 where
  pub depth_enabled : Bool
  pub depth_write : Bool
  pub depth_func : ℕ
  pub stencil_enable : Bool
  pub stencil_front_func : ℕ
  pub stencil_front_ref : ℕ
  pub stencil_front_mask : ℕ
  pub stencil_front_writemask : ℕ
  pub stencil_front_fail : ℕ
  pub stencil_front_zfail : ℕ
  pub stencil_front_zpass : ℕ
  pub stencil_two_side : Bool
  pub stencil_back_func : ℕ
  pub stencil_back_ref : ℕ
  pub stencil_back_mask : ℕ
  pub stencil_back_writemask : ℕ
  pub stencil_back_fail : ℕ
  pub stencil_back_zfail : ℕ
  pub stencil_back_zpass : ℕ
  pub depth_bounds_enable : Bool
  pub depth_bounds_near : ℕ
  pub depth_bounds_far : ℕ

pub record ClearState : Type 0 where
  pub color : List ℕ
  pub depth : ℕ
  pub stencil : ℕ
  pub buffers : ℕ

pub record ShaderState : Type 0 where
  pub offset : ℕ
  pub num_registers : ℕ
  pub enabled : Bool
  pub stage_id : ℕ

pub record MultisampleState : Type 0 where
  pub enable : Bool
  pub samples : ℕ
  pub sample_mask : ℕ
  pub coverage_to_color : ℕ
  pub alpha_to_coverage : Bool
  pub alpha_to_one : Bool

abbrev pub zero_rt_state : RtState
zero_rt_state = record {
  address = 0;
  width = 0;
  height = 0;
  format = 0;
  tile_mode = 0;
  array_mode = 0;
  layer_stride = 0;
  base_layer = 0;
}

abbrev pub zero_viewport_state : ViewportState
zero_viewport_state = record {
  scale_x = 0;
  scale_y = 0;
  scale_z = 0;
  translate_x = 0;
  translate_y = 0;
  translate_z = 0;
  swizzle = 0;
}

abbrev pub zero_scissor_state : ScissorState
zero_scissor_state = record { enabled = false; min_x = 0; max_x = 0; min_y = 0; max_y = 0 }

abbrev pub zero_vertex_array_state : VertexArrayState
zero_vertex_array_state = record { address = 0; stride = 0; divisor = 0; enabled = false }

abbrev pub zero_vertex_attrib_state : VertexAttribState
zero_vertex_attrib_state = record {
  buffer_index = 0;
  offset = 0;
  size = 0;
  type = 0;
  is_fixed = false;
  is_bgra = false;
}

abbrev pub zero_index_buffer_state : IndexBufferState
zero_index_buffer_state = record { address = 0; limit = 0; first = 0; count = 0; format = 0 }

abbrev pub zero_depth_target_state : DepthTargetState
zero_depth_target_state = record {
  address = 0;
  format = 0;
  width = 0;
  height = 0;
  tile_mode = 0;
  layer_stride = 0;
  enabled = false;
}

abbrev pub zero_blend_state : BlendState
zero_blend_state = record {
  enabled = false;
  color_op = 0;
  src_color = 0;
  dst_color = 0;
  alpha_op = 0;
  src_alpha = 0;
  dst_alpha = 0;
  color_mask = 0;
}

abbrev pub zero_depth_stencil_state : DepthStencilState
zero_depth_stencil_state = record {
  depth_enabled = false;
  depth_write = false;
  depth_func = 0;
  stencil_enable = false;
  stencil_front_func = 0;
  stencil_front_ref = 0;
  stencil_front_mask = 0;
  stencil_front_writemask = 0;
  stencil_front_fail = 0;
  stencil_front_zfail = 0;
  stencil_front_zpass = 0;
  stencil_two_side = false;
  stencil_back_func = 0;
  stencil_back_ref = 0;
  stencil_back_mask = 0;
  stencil_back_writemask = 0;
  stencil_back_fail = 0;
  stencil_back_zfail = 0;
  stencil_back_zpass = 0;
  depth_bounds_enable = false;
  depth_bounds_near = 0;
  depth_bounds_far = 0;
}

abbrev pub zero_clear_state : ClearState
zero_clear_state = record { color = replicate 4 0; depth = 0; stencil = 0; buffers = 0 }

abbrev pub zero_shader_state : ShaderState
zero_shader_state = record { offset = 0; num_registers = 0; enabled = false; stage_id = 0 }

abbrev pub zero_multisample_state : MultisampleState
zero_multisample_state = record {
  enable = false;
  samples = 0;
  sample_mask = 0;
  coverage_to_color = 0;
  alpha_to_coverage = false;
  alpha_to_one = false;
}
