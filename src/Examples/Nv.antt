-- ===== src/Examples/Nv.antt =====
-- The driver services at concrete inputs, over a host whose calls succeed.
use m1switch.Base.{
  ℕ, zero, suc, ◌+◌, ◌-◌, ◌*◌, ◌%◌, ◌/◌, ◌≤◌, ◌<◌, ◌≡◌, refl, true, List, [], ◌∷◌, Option, some,
  arith, length, get_or, replicate,
}
use m1switch.Base.Bits.{u32_mod}
use m1switch.Base.Bytes.{of_bytes, u32_at}
use m1switch.Base.Dict.{lookup, insert}
use m1switch.Memory.{Mach, Memory, page_size}
use m1switch.Memory as Mem
use m1switch.Gpu.Fifo.{make_header, handle}
use m1switch.Gpu.Fifo.Stream.{Command, increase, immediate, encode, header_of, writes, AllValid}
use m1switch.Gpu.Tracker.{Tracker, init, run_calls}
use m1switch.Gpu.Tracker.Queue.{init-IsValid, count_draws}
use m1switch.Service.{reply_u64, reply_u32}
use m1switch.Nv.{NvMap, new_map, carveout_base, carveout_size}
use m1switch.Nv.Map.{arg, handle_alloc}
use m1switch.Nv.Channel.{
  Syncpoints, new_syncpoints, handle_submit_gpfifo, handle_syncpt_read, handle_syncpt_read_ex,
}
use m1switch.Nv.Carveout.{Separate, entry}
use m1switch.Nv.Carveout.Commands.{NvCall, command, api_alloc, run_nvmap, run-Separate}
use m1switch.Nv.Carveout.Progress.{asked, handle_alloc-placed}
use m1switch.Nv.Handles.RoundTrip.{Created, run-Created}
use m1switch.Nv.Submit.{Holds, submit-encode}
use m1switch.Nv.Syncpoints.{GpuCall, control, submit, run_gpu, run-idle}

abbrev granting : Mach ℕ
granting = record {
  vm_deallocate = λ addr size n. (true, suc n);
  vm_map = λ addr size n. (true, suc n);
  vm_protect = λ addr size prot n. (true, suc n);
  copy_in = λ addr bytes n. n;
}

abbrev guest : Memory ℕ
guest = Mem.init 0

-- A Create of 0x1800 bytes, and an Alloc of its handle at 64 KiB.
abbrev create_input : List ℕ
create_input = 0 ∷ 0x18 ∷ 0 ∷ 0 ∷ []

abbrev alloc_input : List ℕ
alloc_input = 1 ∷ 0 ∷ 0xFE ∷ 0xCA ∷ 0 ∷ 0 ∷ 0 ∷ 0 ∷ 0 ∷ 0 ∷ 0 ∷ 0 ∷ 0 ∷ 0 ∷ 1 ∷ 0 ∷ replicate 16 0

abbrev nv_calls : List NvCall
nv_calls =
    command 0xC010_0001 create_input 4
    ∷ command 0xC020_0004 alloc_input 4
    ∷ api_alloc 0x100 0
    ∷ command 0xC018_0005 (1 ∷ 0 ∷ 0xFE ∷ 0xCA ∷ []) 4
    ∷ command 0xC020_0004 alloc_input 4
    ∷ []

run-Separate_example : Separate (run_nvmap granting nv_calls (new_map (some guest)))
run-Separate_example = run-Separate granting nv_calls (some guest)

run-Created_example : Created create_input 4 (run_nvmap granting nv_calls (new_map (some guest)))
run-Created_example = run-Created granting nv_calls (some guest) create_input 4 (omega arith)

abbrev created : NvMap ℕ
created = run_nvmap granting (command 0xC010_0001 create_input 4 ∷ []) (new_map (some guest))

known_run : lookup (u32_at 0 alloc_input) created.handle_index ≡ some 0
unfolding lookup insert u32_at run_nvmap new_map
known_run = refl

free_run : (entry 0 created).addr ≡ 0
unfolding run_nvmap new_map entry
free_run = refl

set_run : created.memory ≡ some guest
unfolding run_nvmap new_map
set_run = refl

aligned_run : u32_at 12 alloc_input % page_size ≡ 0
unfolding u32_at
aligned_run = refl

fits_run :
    created.carveout_offset + ((entry 0 created).size + asked (u32_at 12 alloc_input))
    ≤ carveout_size
unfolding run_nvmap new_map entry u32_at asked
fits_run = omega arith

one_run : 0 < length created.entries
unfolding run_nvmap new_map
one_run = omega arith

handle_alloc-placed_example :
    ((entry 0 (handle_alloc granting alloc_input 4 created).1).addr
      ≡ carveout_base + created.carveout_offset)
    × ((entry 0 (handle_alloc granting alloc_input 4 created).1).iova
        ≡ carveout_base + created.carveout_offset)
    × ((handle_alloc granting alloc_input 4 created).1.carveout_offset
        < created.carveout_offset + ((entry 0 created).size + asked (u32_at 12 alloc_input)))
handle_alloc-placed_example =
    handle_alloc-placed granting alloc_input 4 0 guest created (λ addr n h. refl)
      (run-Separate granting (command 0xC010_0001 create_input 4 ∷ []) (some guest)) (omega arith)
      known_run one_run set_run free_run aligned_run fits_run

-- The draw of three vertices as the guest's memory holds it at 0x1000.
abbrev drawing : List Command
drawing = increase 0 0x35D (0 ∷ 3 ∷ []) ∷ immediate 0 0x586 4 ∷ []

abbrev held_words : List ℕ
unfolding header_of make_header
held_words = encode drawing

abbrev load_word : ℕ → ℕ → ℕ
load_word addr h = get_or held_words ((addr - 0x3_0000_1000) / 4) 0

drawing-AllValid : AllValid drawing
unfolding handle
drawing-AllValid = (
  (omega arith, omega arith, omega arith, refl),
  ((omega arith, omega arith, omega arith, refl), tt),
)

-- The address 0x1000, and 4 words.
abbrev submit_input : List ℕ
submit_input = 0 ∷ 0x10 ∷ 0 ∷ 0 ∷ 0 ∷ 0 ∷ 0 ∷ 0 ∷ 4 ∷ 0 ∷ 0 ∷ 0 ∷ 0 ∷ 0 ∷ 0 ∷ 0 ∷ []

Holds-run : Holds load_word (of_bytes 8 submit_input) (encode drawing) guest
unfolding Holds of_bytes Mem.init header_of make_header
Holds-run zero h = refl
Holds-run (suc zero) h = refl
Holds-run (suc (suc zero)) h = refl
Holds-run (suc (suc (suc zero))) h = refl
Holds-run (suc (suc (suc (suc j)))) h = absurd (omega arith)

encoded_run : encode drawing ≡ held_words
unfolding header_of make_header
encoded_run = refl

submit-encode_example :
    (t' : Tracker) × (run_calls (writes drawing) init ≡ some t')
    × (handle_submit_gpfifo load_word submit_input 8 (some guest) (some init) new_syncpoints
        ≡ some (
          reply_u64 8 (new_syncpoints.counter * u32_mod),
          some t',
          record new_syncpoints { counter = (new_syncpoints.counter + 1) % u32_mod },
        ))
    × (length t'.draw_queue ≡ length init.draw_queue + count_draws init.engines (writes drawing))
unfolding of_bytes u32_at
submit-encode_example =
    submit-encode load_word submit_input 8 guest init new_syncpoints drawing (omega arith) refl
      (omega arith) (omega arith) (omega arith) Holds-run drawing-AllValid init-IsValid
      (omega arith)

abbrev gpu_calls : List (GpuCall load_word)
gpu_calls =
    control 0x400C_0001 [] 4
    ∷ submit submit_input 8 (some guest)
    ∷ control 0x8008_0004 (0 ∷ 0 ∷ 0 ∷ 0 ∷ []) 4
    ∷ []

run-idle_example :
    (t : Option Tracker) × (s : Syncpoints) × (run_gpu load_word gpu_calls
        (some init, new_syncpoints)
      ≡ some (t, s))
    × ((inp : List ℕ) (room : ℕ) → handle_syncpt_read inp room s ≡ some (reply_u32 room 0))
    × ((inp : List ℕ) (room : ℕ)
        → handle_syncpt_read_ex inp room s ≡ some (reply_u64 room (arg 4 0 inp * u32_mod)))
run-idle_example = run-idle load_word gpu_calls
