-- ===== src/Examples/Gpu.antt =====
-- The GPU command path at concrete inputs.
use mathlib.Core.Option
use m1switch.Base.{
  ℕ, ◌≤◌, ◌<◌, ◌≡◌, ◌≢◌, refl, ◌↔◌, ◌⊎◌, true, List, [], ◌∷◌, ◌++◌, map, some, arith, length,
}
use m1switch.Base.Bits.{u32_mod}
use m1switch.Gpu.Fifo.{
  Call, make_header, get_mode, get_method, get_arg, get_subchannel, handle, process,
}
use m1switch.Gpu.Fifo.Header.{get-make_header}
use m1switch.Gpu.Fifo.Progress.{process_total}
use m1switch.Gpu.Fifo.Stream.{
  Command, increase, repeat, immediate, once, encode, header_of, writes, AllValid, process-encode,
  process-encode_cut,
}
use m1switch.Gpu.Fifo.Host.{later, process-host}
use m1switch.Gpu.Engine.{
  register, reset, route, first_range, ranges, switch, write_target, handle_render_target,
  handle_method,
}
use m1switch.Gpu.Engine.Registers.{
  clear_buffers, set_program, code_of, find_register, register_table, write_register,
}
use m1switch.Gpu.Engine.Routing.{route-register_iff, draws_iff}
use m1switch.Gpu.Engine.Frame.{layout, viewport_at, handle_method-layout, handle_method-viewport_at}
use m1switch.Gpu.Engine.Halves.{write2, write2-halves, upper_halves, handle_method-upper_halves}
use m1switch.Gpu.Tracker.{init, compute_pipeline_key}
use m1switch.Gpu.Tracker.Key.{beside_targets, run_writes, compute_pipeline_key-run_writes}
use m1switch.Gpu.Tracker.Queue.{Pushed, init-IsValid, push_buffer-Pushed}

-- A draw of three vertices: first, count, and the topology as inline data.
abbrev commands : List Command
commands = increase 0 0x35D (0 ∷ 3 ∷ []) ∷ immediate 0 0x586 4 ∷ once 0 0x582 0x1000 ∷ []

commands-AllValid : AllValid commands
unfolding handle
commands-AllValid = (
  (omega arith, omega arith, omega arith, refl),
  (
    (omega arith, omega arith, omega arith, refl),
    ((omega arith, omega arith, omega arith, refl), tt),
  ),
)

abbrev words : List ℕ
unfolding header_of make_header
words = encode commands

get-make_header_example :
    let h = make_header 1 0x35D 2 0 in
    (get_mode h ≡ 1)
    × (get_method h ≡ 0x35D)
    × (get_arg h ≡ 2)
    × (get_subchannel h ≡ 0)
    × (h < u32_mod)
get-make_header_example = get-make_header 1 0x35D 2 0

process_total_example :
    (p : ℕ) × (calls : List Call) × (process (0xFFFFFFFF ∷ 7 ∷ []) ≡ some (p, calls))
    × (p ≤ 2)
    × (length calls ≤ p)
process_total_example = process_total (0xFFFFFFFF ∷ 7 ∷ [])

process-encode_example :
    process (encode commands) ≡ some (length (encode commands), writes commands)
process-encode_example = process-encode commands commands-AllValid

process-encode_cut_example :
    process (encode commands ++ header_of (repeat 0 0x8E4 (1 ∷ 2 ∷ [])) ∷ 1 ∷ [])
    ≡ some (length (encode commands), writes commands)
unfolding handle
process-encode_cut_example =
    process-encode_cut commands (repeat 0 0x8E4 (1 ∷ 2 ∷ [])) (1 ∷ []) commands-AllValid
      (omega arith, omega arith, omega arith, refl) (omega arith)

process-host_example :
    process (make_header 1 0x1D 1 0 ∷ 0xA000_0000 ∷ [])
    ≡ Option.map later (process (0xA000_0000 ∷ []))
unfolding handle
process-host_example = process-host 1 0x1D 1 (0xA000_0000 ∷ []) refl

route-register_iff_example :
    (route 0x674 ≡ register clear_buffers)
    ↔ ((0x674 ≡ code_of clear_buffers) × (clear_buffers ≢ set_program))
route-register_iff_example = route-register_iff 0x674 clear_buffers

draws_iff_example :
    ((handle_method 0x35E 3 reset).1 ≡ true)
    ↔ ((◌≡◌ {A = ℕ} 0x35E 0x35E) ⊎ (◌≡◌ {A = ℕ} 0x35E 0x5F8))
draws_iff_example = draws_iff 0x35E 3 reset

handle_method-layout_example :
    map layout (handle_method 0x201 1280 reset).0.rt ≡ map layout reset.rt
handle_method-layout_example = handle_method-layout 0x201 1280 reset

handle_method-viewport_at_example :
    viewport_at 13 (handle_method 0x2E8 7 reset).0 ≡ viewport_at 13 reset
handle_method-viewport_at_example = handle_method-viewport_at 0x2E8 7 13 reset (omega arith)

write2-halves_example :
    ((write2 0x582 5 0x583 1 reset).program_region ≡ 0x1_0000_0005)
    × ((write2 0x583 1 0x582 5 reset).program_region ≡ 0x1_0000_0005)
    × ((write2 0x5F2 5 0x5F3 1 reset).index_buffer.address ≡ 0x1_0000_0005)
    × ((write2 0x5F3 1 0x5F2 5 reset).index_buffer.address ≡ 0x1_0000_0005)
    × ((write2 0x5F4 5 0x5F5 1 reset).index_buffer.limit ≡ 0x1_0000_0005)
    × ((write2 0x5F5 1 0x5F4 5 reset).index_buffer.limit ≡ 0x1_0000_0005)
write2-halves_example = write2-halves 5 1 reset (omega arith)

handle_method-upper_halves_example :
    upper_halves (handle_method 0x55D 0x8000 reset).0 ≡ upper_halves reset
handle_method-upper_halves_example = handle_method-upper_halves 0x55D 0x8000 reset (omega arith)

-- An address for the first render target, and the topology.
abbrev with_target : List (ℕ × ℕ)
with_target = (0x200, 0x8000) ∷ (0x586, 4) ∷ []

abbrev without_target : List (ℕ × ℕ)
without_target = (0x586, 4) ∷ []

same_beside :
    beside_targets (run_writes with_target reset) ≡ beside_targets (run_writes without_target reset)
unfolding run_writes reset handle_method route first_range ranges switch find_register
    register_table write_target handle_render_target write_register
same_beside = refl

compute_pipeline_key-run_writes_example :
    (key : ℕ) × (compute_pipeline_key (run_writes with_target reset) ≡ some key)
    × (compute_pipeline_key (run_writes without_target reset) ≡ some key)
compute_pipeline_key-run_writes_example =
    compute_pipeline_key-run_writes with_target without_target same_beside

push_buffer-Pushed_example : Pushed init words
push_buffer-Pushed_example = push_buffer-Pushed words init init-IsValid

-- The three commands are six words, and four method writes.
process_run :
    process words
    ≡ some (
      6,
      record { subch = 0; method = 0x35D; value = 0 }
          ∷ record { subch = 0; method = 0x35E; value = 3 }
          ∷ record { subch = 0; method = 0x586; value = 4 }
          ∷ record { subch = 0; method = 0x582; value = 0x1000 }
          ∷ [],
    )
unfolding process header_of make_header
process_run = refl
