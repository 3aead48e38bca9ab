-- ===== src/Gpu/Tracker.antt =====
-- gpu/StateTracker.h and StateTracker.cpp: the parser drives the 3D engine, and draws are queued.
-- `none` is a left shift by 64 or more, which C++ does not define.
pub mod Key
pub mod Queue
use m1switch.Base.{
  ℕ, suc, ◌+◌, ◌*◌, ◌%◌, ◌^◌, Bool, true, false, not, ◌&&◌, ◌==◌, ltb, if◌then◌else◌, List, [], ◌∷◌,
  ◌++◌, Option, none, some, get_or, bit_xor, ◌>>=◌,
}
use m1switch.Base.Bits.{u64_mod}
use m1switch.Gpu.Fifo.{
  EngineType, engine_3d, engine_2d, engine_dma, engine_inline, engine_compute, subch_engines,
  get_engine, Call, process,
}
use m1switch.Gpu.State.{
  GpuState3d, RtState, BlendState, DepthStencilState, DepthTargetState, zero_blend_state,
  zero_shader_state,
}
use m1switch.Gpu.Engine.{reset, handle_method}

pub record PendingDraw : Type 0 where
  pub primitive_type : ℕ
  pub arrays_first : ℕ
  pub arrays_count : ℕ
  pub elements_first : ℕ
  pub elements_count : ℕ
  pub index_addr : ℕ
  pub index_format : ℕ
  pub index_count : ℕ
  pub pipeline_key : ℕ

-- `memory_` and `subch_engine_map_`, which no code of the class reads, are left out.
pub record Tracker : Type 0 where
  pub engines : List EngineType
  pub state : GpuState3d
  pub dirty_flags : ℕ
  pub draw_queue : List PendingDraw

pub init : Tracker
unfolding reset
init = record { engines = subch_engines; state = reset; dirty_flags = 0; draw_queue = [] }

-- `x << n` on u64, for n < 64.
shl64 : ℕ → ℕ → ℕ
shl64 x n = x * 2 ^ n % u64_mod

flag : Bool → ℕ
flag true = 1
flag false = 0

unfoldable pub is_active : RtState → Bool
is_active r = not (r.address == 0) && ltb 0 r.width

-- The round for render target `i` shifts its format by `i * 4 + 40`.
rt_step : ℕ → RtState → ℕ → Option ℕ
unfolding shl64 is_active
rt_step i r key =
    if is_active r
    then (if ltb (i * 4 + 40) 64 then some (bit_xor key (shl64 r.format (i * 4 + 40))) else none)
    else some key

pub rt_key : ℕ → List RtState → ℕ → Option ℕ
rt_key i [] key = some key
rt_key i (r ∷ rs) key = rt_step i r key >>= rt_key (suc i) rs

pub depth_target_key : DepthTargetState → ℕ → ℕ
unfolding shl64
depth_target_key d key = if d.enabled then bit_xor key (shl64 d.format 56) else key

blend_bits : BlendState → ℕ
unfolding shl64
blend_bits b =
    bit_xor
      (bit_xor
        (bit_xor
          (bit_xor (bit_xor (shl64 b.color_op 16) (shl64 b.src_color 20)) (shl64 b.dst_color 24))
          (shl64 b.alpha_op 28))
        (shl64 b.src_alpha 32))
      (shl64 b.dst_alpha 36)

pub blend_key : BlendState → ℕ → ℕ
unfolding shl64 blend_bits
blend_key b key =
    let key' : ℕ = if b.enabled then bit_xor key (blend_bits b) else key in
    bit_xor key' (shl64 b.color_mask 48)

pub depth_stencil_key : DepthStencilState → ℕ → ℕ
unfolding shl64 flag
depth_stencil_key d key =
    if d.depth_enabled
    then bit_xor (bit_xor key (shl64 d.depth_func 38)) (shl64 (flag d.depth_write) 42)
    else key

pub program_key : GpuState3d → ℕ
unfolding shl64
program_key s =
    bit_xor
      (bit_xor (bit_xor s.program_region (shl64 (get_or s.shaders 0 zero_shader_state).offset 12))
        (shl64 (get_or s.shaders 5 zero_shader_state).offset 24))
      (shl64 s.primitive_type 8)

pub compute_pipeline_key : GpuState3d → Option ℕ
compute_pipeline_key s = do
  key ← rt_key 0 s.rt (program_key s)
  some (
      depth_stencil_key s.depth_stencil
        (blend_key (get_or s.blend 0 zero_blend_state) (depth_target_key s.depth_target key)))

pub snapshot : GpuState3d → ℕ → PendingDraw
snapshot s key = record {
  primitive_type = s.primitive_type;
  arrays_first = s.draw_arrays_first;
  arrays_count = s.draw_arrays_count;
  elements_first = s.draw_elements_first;
  elements_count = s.draw_elements_count;
  index_addr = s.index_buffer.address;
  index_format = s.index_buffer.format;
  index_count = s.draw_elements_count;
  pipeline_key = key;
}

-- "Reset live draw counts so they don't repeat".
pub clear_counts : GpuState3d → GpuState3d
clear_counts s = record s {
  draw_arrays_count = 0;
  draw_elements_count = 0;
  index_buffer = record s.index_buffer { count = 0 };
}

-- What follows `HandleMethod`.
pub enqueue : Bool → GpuState3d → Tracker → Option Tracker
enqueue false s t = some (record t { state = s; dirty_flags = 1 })
enqueue true s t = do
  key ← compute_pipeline_key s
  some (record t {
    state = clear_counts s;
    dirty_flags = 1;
    draw_queue = t.draw_queue ++ snapshot s key ∷ [];
  })

pub on_engine : EngineType → Call → Tracker → Option Tracker
on_engine engine_3d c t =
    let (s, is_draw) = handle_method c.method c.value t.state in enqueue is_draw s t
on_engine engine_2d c t = some t
on_engine engine_dma c t = some t
on_engine engine_inline c t = some t
on_engine engine_compute c t = some t

pub on_method : Call → Tracker → Option Tracker
on_method c t = on_engine (get_engine t.engines c.subch) c t

-- The callback over the method writes of a pushbuffer.
pub run_calls : List Call → Tracker → Option Tracker
run_calls [] t = some t
run_calls (c ∷ cs) t = on_method c t >>= run_calls cs

-- `PushBuffer`: the words consumed, and the new state.
pub push_buffer : List ℕ → Tracker → Option (ℕ × Tracker)
push_buffer words t = do (pos, calls) ← process words; t' ← run_calls calls t; some (pos, t')

-- `ConsumeDraws` moves the queue out; `ClearDirty` drops it.
pub consume_draws : Tracker → List PendingDraw × Tracker
consume_draws t = (t.draw_queue, record t { draw_queue = [] })

pub clear_dirty : Tracker → Tracker
clear_dirty t = record t { dirty_flags = 0; draw_queue = [] }
