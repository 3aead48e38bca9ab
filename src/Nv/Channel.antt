-- ===== src/Nv/Channel.antt =====
-- services/Nv.cpp, NvDrvService, NvGpuService and NvHostCtrlService: devices, the command channel and
-- the sync points.
use m1switch.Base.{
  ℕ, suc, zero, ◌+◌, ◌-◌, ◌*◌, ◌%◌, true, false, ◌==◌, ltb, leb, if◌then◌else◌, List, [], ◌∷◌,
  Option, none, some, length, get_elem?, replace_at, ◌>>=◌, replicate,
}
use m1switch.Base.Bits.{u32_mod, u64_mod}
use m1switch.Base.Bytes.{of_bytes, u32_at}
use m1switch.Memory.{Memory}
use m1switch.Memory.Access.{read_u32}
use m1switch.Gpu.Tracker.{Tracker, push_buffer}
use m1switch.Service.{Reply, empty_reply, reply_u32, reply_u64}
use m1switch.Nv.Map.{arg}

-- The commands of `NvDrvService`; `next_fd` is a local static. The path is only logged.
unfoldable pub drv_command : ℕ → ℕ → ℕ → Reply × ℕ
unfolding empty_reply reply_u32
drv_command cmd room next_fd =
    if cmd == 1 then (reply_u32 room next_fd, (next_fd + 1) % u32_mod) else (empty_reply, next_fd)

-- The members of `NvGpuService` that its code sets.
pub record Channel : Type 0 where
  pub as_handle : ℕ
  pub channel_fd : ℕ
  pub gpfifo_entries : ℕ

abbrev pub max_syncpt : ℕ
max_syncpt = 24

-- `g_syncpt_counter` and `g_syncpt_value`.
pub record Syncpoints : Type 0 where
  pub counter : ℕ
  pub value : List ℕ

unfoldable pub new_syncpoints : Syncpoints
new_syncpoints = record { counter = 0; value = replicate max_syncpt 0 }

unfoldable pub fetch_add : Syncpoints → ℕ × Syncpoints
fetch_add s = (s.counter, record s { counter = (s.counter + 1) % u32_mod })

unfoldable pub handle_alloc_as : ℕ → Channel → Reply × Channel
unfolding reply_u64
handle_alloc_as room c = (reply_u64 room 0x1000, record c { as_handle = 0x1000 })

-- Four bytes of the descriptor and four zeros.
unfoldable pub handle_alloc_obj_ctx : ℕ → Channel → Reply × Channel
unfolding reply_u64
handle_alloc_obj_ctx room c = (reply_u64 room 0x1001, record c { channel_fd = 0x1001 })

unfoldable pub handle_alloc_gpfifo : List ℕ → ℕ → Channel → Reply × Channel
unfolding reply_u32 u32_at
handle_alloc_gpfifo inp room c =
    let n : ℕ = if leb 4 (length inp) then u32_at 0 inp else 0x400 in
    (reply_u32 room n, record c { gpfifo_entries = n })

unfoldable pub handle_get_error_notifier : ℕ → Reply
unfolding reply_u64
handle_get_error_notifier room = reply_u64 room 0

unfoldable pub param_value : ℕ → ℕ
param_value param =
    if param == 0
    then 0xF
    else if param == 1
    then 0x200
    else if param == 2
    then 0x200
    else if param == 4
    then 0x28
    else if param == 5
    then 0x14
    else if param == 7
    then 1
    else if param == 13
    then 1
    else if param == 24
    then 0xFFFF
    else 0

unfoldable pub handle_get_param : List ℕ → ℕ → Reply
unfolding reply_u32 param_value arg
handle_get_param inp room = reply_u32 room (param_value (arg 4 0 inp))

-- `SyncptAlloc`: ids past the last are the last; `none` is a store outside the array.
unfoldable pub handle_syncpt_alloc : ℕ → Syncpoints → Option (Reply × Syncpoints)
unfolding fetch_add reply_u32
handle_syncpt_alloc room s =
    let (n, s') = fetch_add s in
    let id : ℕ = if leb max_syncpt n then max_syncpt - 1 else n in
    do value ← replace_at s'.value id 0; some (reply_u32 room id, record s' { value = value })

-- `none` is a load outside the array.
unfoldable pub syncpt_value : ℕ → Syncpoints → Option ℕ
syncpt_value id s = if ltb id max_syncpt then get_elem? s.value id else some 0

unfoldable pub handle_syncpt_read : List ℕ → ℕ → Syncpoints → Option Reply
unfolding reply_u32 syncpt_value arg
handle_syncpt_read inp room s = do value ← syncpt_value (arg 4 0 inp) s; some (reply_u32 room value)

-- The value and the id.
unfoldable pub handle_syncpt_read_ex : List ℕ → ℕ → Syncpoints → Option Reply
unfolding reply_u64 syncpt_value arg
handle_syncpt_read_ex inp room s = do
  value ← syncpt_value (arg 4 0 inp) s
  some (reply_u64 room (value + arg 4 0 inp * u32_mod))

-- A command that leaves the sync points as they are.
unfoldable pub answer_read : Option Reply → Syncpoints → Option (Reply × Syncpoints)
answer_read o s = o >>= λ reply. some (reply, s)

-- `NvHostCtrlService::HandleCommand`
unfoldable pub ctrl_command : ℕ → List ℕ → ℕ → Syncpoints → Option (Reply × Syncpoints)
unfolding handle_syncpt_alloc handle_syncpt_read handle_syncpt_read_ex answer_read empty_reply
ctrl_command cmd inp room s =
    if cmd == 0x400C_0001
    then handle_syncpt_alloc room s
    else if cmd == 0x8008_0004
    then answer_read (handle_syncpt_read inp room s) s
    else if cmd == 0xC008_0005
    then answer_read (handle_syncpt_read_ex inp room s) s
    else some (empty_reply, s)

module _ {ℓ} {Host : Type ℓ} (load : ℕ → Host → ℕ) where
  -- The loop of `HandleSubmitGpfifo`, `n` words from word `i`: after a read that fails the rest of
  -- the vector stays 0.
  unfoldable pub read_words : ℕ → ℕ → ℕ → Memory Host → List ℕ
  unfolding read_u32
  read_words pb_addr i zero m = []
  read_words pb_addr i (suc n) m = elim (read_u32 load ((pb_addr + i * 4) % u64_mod) m) [
    | none ↦ replicate (suc n) 0
    | some w ↦ w ∷ read_words pb_addr (suc i) n m
  ]

  -- What the command does once the memory, the tracker and a word are there; `none` as in
  -- `push_buffer`.
  unfoldable pub submit_words :
      ℕ → ℕ → ℕ → Memory Host → Tracker → Syncpoints → Option (Reply × Tracker × Syncpoints)
  unfolding read_words fetch_add reply_u64
  submit_words pb_addr num_words room m t s =
      elim (push_buffer (read_words pb_addr 0 (if ltb 65536 num_words then 65536 else num_words) m)
        t) [
          | none ↦ none
          | some (consumed, t') ↦
              let (fence, s') = fetch_add s in
              some (
                if leb 8 room
                then (reply_u64 room (fence * u32_mod), t', s')
                else (record { handled = true; out = []; out_sz = room }, t', s))
        ]

  -- `HandleSubmitGpfifo`, with `g_nv_memory` and `g_nv_tracker`.
  unfoldable pub handle_submit_gpfifo :
      List ℕ
      → ℕ
      → Option (Memory Host)
      → Option Tracker
      → Syncpoints
      → Option (Reply × Option Tracker × Syncpoints)
  unfolding submit_words of_bytes u32_at empty_reply
  handle_submit_gpfifo inp room memory tracker s =
      if ltb (length inp) 16
      then some (record { handled = false; out = []; out_sz = room }, tracker, s)
      else elim memory [
        | none ↦ some (empty_reply, tracker, s)
        | some m ↦ elim tracker [
          | none ↦ some (empty_reply, none, s)
          | some t ↦
              if u32_at 8 inp == 0
              then some (empty_reply, some t, s)
              else elim (submit_words (of_bytes 8 inp) (u32_at 8 inp) room m t s) [
                | none ↦ none
                | some (reply, t', s') ↦ some (reply, some t', s')
              ]
        ]
      ]

  -- `NvGpuService::HandleCommand`
  unfoldable pub gpu_command :
      ℕ
      → List ℕ
      → ℕ
      → Option (Memory Host)
      → Channel
      → Option Tracker
      → Syncpoints
      → Option (Reply × Channel × Option Tracker × Syncpoints)
  unfolding handle_alloc_as handle_alloc_obj_ctx handle_alloc_gpfifo handle_get_error_notifier
      handle_get_param handle_submit_gpfifo empty_reply
  gpu_command cmd inp room memory c t s =
      if cmd == 0x8008_0003
      then (let (reply, c') = handle_alloc_as room c in some (reply, c', t, s))
      else if cmd == 0xC010_000F
      then (let (reply, c') = handle_alloc_obj_ctx room c in some (reply, c', t, s))
      else if cmd == 0xC048_0012
      then (elim (handle_submit_gpfifo inp room memory t s) [
        | none ↦ none
        | some (reply, t', s') ↦ some (reply, c, t', s')
      ])
      else if cmd == 0xC010_0014
      then (let (reply, c') = handle_alloc_gpfifo inp room c in some (reply, c', t, s))
      else if cmd == 0xC010_0018
      then some (handle_get_error_notifier room, c, t, s)
      else if cmd == 0xC008_001A
      then some (handle_get_param inp room, c, t, s)
      else some (empty_reply, c, t, s)
