-- ===== src/Nv/Map.antt =====
-- services/Nv.cpp, NvMapService: the handlers of the nvmap commands.
use m1switch.Base.{
  ℕ, ◌+◌, ◌%◌, ◌/◌, ◌^◌, true, false, ◌||◌, not, ◌==◌, ltb, leb, if◌then◌else◌, List, [], ◌∷◌, ◌++◌,
  Option, none, some, length, get_or, modify,
}
use m1switch.Base.Bits.{u32_mod, u64_mod}
use m1switch.Base.Bytes.{u8_at, u32_at}
use m1switch.Base.Dict.{lookup, insert}
use m1switch.Memory.{failed, perm_rw, Mach, Memory, map_physical}
use m1switch.Service.{Reply, empty_reply, reply_u32}
use m1switch.Nv.{
  align_up_to, carveout_base, carveout_size, handle_of, NvMapEntry, zero_entry, NvMap,
}

-- `if (in_sz >= n) memcpy(&value, in + off, 4)`, the value being 0 before.
unfoldable pub arg : ℕ → ℕ → List ℕ → ℕ
unfolding u32_at
arg n off inp = if leb n (length inp) then u32_at off inp else 0

unfoldable pub new_entry : ℕ → ℕ → ℕ → NvMapEntry
unfolding handle_of
new_entry id size align = record {
  handle = handle_of id;
  id = id;
  size = size;
  align = align;
  addr = 0;
  iova = 0;
  flags = 0;
  cached = true;
  mapped = false;
}

-- The fields that an Alloc sets before it looks for memory.
unfoldable pub request : ℕ → ℕ → ℕ → NvMapEntry → NvMapEntry
request flags align kind e = record e {
  align = if ltb 0 align then align else 0x1000;
  flags = flags;
  cached = kind == 0 || kind == 1;
}

unfoldable pub place_at : ℕ → NvMapEntry → NvMapEntry
place_at addr e = record e { addr = addr; iova = addr; mapped = true }

unfoldable pub release : NvMapEntry → NvMapEntry
release e = record e { addr = 0; mapped = false }

unfoldable pub param_of : ℕ → NvMapEntry → ℕ
param_of param e =
    if param == 0
    then e.size % u32_mod
    else if param == 1
    then e.align % u32_mod
    else if param == 2
    then (if e.cached then 1 else 0)
    else if param == 3
    then e.iova % u32_mod
    else if param == 4
    then e.iova / u32_mod % u32_mod
    else 0

-- The size that Alloc takes for an entry.
unfoldable pub alloc_size_of : NvMapEntry → ℕ
unfolding align_up_to
alloc_size_of e = align_up_to e.size (if not (e.align == 0) then e.align else 0x1000)

-- The search of `HandleFromId`.
unfoldable pub find_id : ℕ → List NvMapEntry → Option NvMapEntry
find_id id [] = none
find_id id (e ∷ es) = if e.id == id then some e else find_id id es

unfoldable pub handle_get_handle : List ℕ → ℕ → Reply
unfolding reply_u32 arg handle_of
handle_get_handle inp room = reply_u32 room (handle_of (arg 4 0 inp))

module _ {ℓ} {Host : Type ℓ} where
  -- The new entry of `HandleCreate` and `NvMap_Alloc`: its handle, and the table with it.
  unfoldable pub add_entry : ℕ → ℕ → NvMap Host → ℕ × NvMap Host
  unfolding new_entry
  add_entry size align nv =
      let e : NvMapEntry = new_entry nv.next_id size align in
      (
        e.handle,
        record nv {
          entries = nv.entries ++ e ∷ [];
          handle_index = insert e.handle (length nv.entries) nv.handle_index;
          next_id = (nv.next_id + 1) % u32_mod;
        },
      )

  unfoldable pub handle_create : List ℕ → ℕ → NvMap Host → Reply × NvMap Host
  unfolding add_entry reply_u32 arg
  handle_create inp room nv =
      let (h, nv') = add_entry (arg 4 0 inp) 0x1000 nv in (reply_u32 room h, nv')

  unfoldable pub handle_from_id : List ℕ → ℕ → NvMap Host → Reply
  unfolding reply_u32 arg find_id handle_of
  handle_from_id inp room nv =
      let id : ℕ = arg 4 0 inp in
      elim (find_id id nv.entries) [
        | some e ↦ reply_u32 room e.handle
        | none ↦ reply_u32 room (handle_of id)
      ]

  -- The carveout holds all allocations one after the other.
  unfoldable pub place : Mach Host → ℕ → Memory Host → NvMap Host → NvMap Host
  unfolding alloc_size_of map_physical failed place_at
  place mach i m nv =
      let e : NvMapEntry = get_or nv.entries i zero_entry in
      let alloc_size : ℕ = alloc_size_of e in
      if ltb carveout_size ((nv.carveout_offset + alloc_size) % u64_mod)
      then nv
      else let addr : ℕ = (carveout_base + nv.carveout_offset) % u64_mod in
        let (r, m') = map_physical mach addr alloc_size perm_rw none m in
        if failed r then record nv { memory = some m' } else record nv {
          entries = modify nv.entries i (place_at addr);
          carveout_offset = (nv.carveout_offset + alloc_size) % u64_mod;
          memory = some m';
        }

  unfoldable pub alloc_entry : Mach Host → ℕ → ℕ → ℕ → ℕ → NvMap Host → NvMap Host
  unfolding request place
  alloc_entry mach i flags align kind nv =
      let nv' : NvMap Host = record nv {
        entries = modify nv.entries i (request flags align kind);
      } in
      if (get_or nv'.entries i zero_entry).addr == 0
      then (elim nv'.memory [ none ↦ nv' | some m ↦ place mach i m nv' ])
      else nv'

  unfoldable pub handle_alloc : Mach Host → List ℕ → ℕ → NvMap Host → Reply × NvMap Host
  unfolding reply_u32 u8_at u32_at alloc_entry
  handle_alloc mach inp room nv =
      if ltb (length inp) 0x20
      then (reply_u32 room 0, nv)
      else elim (lookup (u32_at 0 inp) nv.handle_index) [
        | none ↦ (reply_u32 room 0, nv)
        | some i ↦
            (reply_u32 room 0, alloc_entry mach i (u32_at 8 inp) (u32_at 12 inp) (u8_at 16 inp) nv)
      ]

  unfoldable pub handle_free : List ℕ → ℕ → NvMap Host → Reply × NvMap Host
  unfolding reply_u32 arg release
  handle_free inp room nv = elim (lookup (arg 4 0 inp) nv.handle_index) [
    | none ↦ (reply_u32 room 0, nv)
    | some i ↦ (reply_u32 room 0, record nv { entries = modify nv.entries i release })
  ]

  unfoldable pub handle_param : List ℕ → ℕ → NvMap Host → Reply
  unfolding reply_u32 arg param_of
  handle_param inp room nv = elim (lookup (arg 8 0 inp) nv.handle_index) [
    | none ↦ reply_u32 room 0
    | some i ↦ reply_u32 room (param_of (arg 8 4 inp) (get_or nv.entries i zero_entry))
  ]

  unfoldable pub handle_get_id : List ℕ → ℕ → NvMap Host → Reply
  unfolding reply_u32 arg
  handle_get_id inp room nv =
      let h : ℕ = arg 4 0 inp in
      elim (lookup h nv.handle_index) [
        | some i ↦ reply_u32 room (get_or nv.entries i zero_entry).id
        | none ↦ reply_u32 room (h % 2 ^ 16)
      ]

  -- `NvMapService::HandleCommand`
  unfoldable pub handle_command : Mach Host → ℕ → List ℕ → ℕ → NvMap Host → Reply × NvMap Host
  unfolding empty_reply handle_create handle_from_id handle_alloc handle_free handle_param
      handle_get_id handle_get_handle
  handle_command mach cmd inp room nv =
      if cmd == 0xC010_0001
      then handle_create inp room nv
      else if cmd == 0xC008_0002
      then (handle_from_id inp room nv, nv)
      else if cmd == 0xC020_0004
      then handle_alloc mach inp room nv
      else if cmd == 0xC018_0005
      then handle_free inp room nv
      else if cmd == 0xC00C_0007
      then (handle_param inp room nv, nv)
      else if cmd == 0xC008_000E
      then (handle_get_id inp room nv, nv)
      else if cmd == 0xC008_000F
      then (handle_get_handle inp room, nv)
      else (empty_reply, nv)

  -- `NvMap_LookupByHandle`, `NvMap_GetIOVA` and `NvMap_Alloc`.
  unfoldable pub lookup_by_handle : ℕ → NvMap Host → Option NvMapEntry
  lookup_by_handle h nv = elim (lookup h nv.handle_index) [
    | none ↦ none
    | some i ↦ if ltb i (length nv.entries) then some (get_or nv.entries i zero_entry) else none
  ]

  unfoldable pub get_iova : ℕ → NvMap Host → ℕ
  unfolding lookup_by_handle
  get_iova h nv = elim (lookup_by_handle h nv) [ none ↦ 0 | some e ↦ e.iova ]

  unfoldable pub nvmap_alloc : ℕ → ℕ → NvMap Host → ℕ × NvMap Host
  unfolding add_entry
  nvmap_alloc size align nv = add_entry size (if ltb 0 align then align else 0x1000) nv

  -- `ServiceNv_Init`: the first part of the GPU's address space; a failure is only logged.
  unfoldable pub service_nv_init : Mach Host → Option (Memory Host) → Option (Memory Host)
  unfolding map_physical
  service_nv_init mach none = none
  service_nv_init mach (some m) = some (map_physical mach 0x2000_0000 0x400_0000 perm_rw none m).1
