-- ===== src/Memory.antt =====
-- memory/Memory.h and Memory.cpp: the guest's address space, with the alignment helpers of
-- common/Types.h. The host's virtual memory calls are a parameter.
pub mod Query
pub mod Access
pub mod Pages
pub mod Heap
pub mod Invariant
use m1switch.Base.{
  ℕ, ◌+◌, ◌-◌, ◌*◌, ◌/◌, ◌%◌, min, Bool, true, false, ◌&&◌, ◌||◌, not, ◌==◌, ltb, leb,
  if◌then◌else◌, List, [], ◌∷◌, Option, none, some,
}
use m1switch.Base.Bits.{u64_mod}

-- `Result`, the members that this class returns.
pub data Result : Type 0 where
  success invalid_argument out_of_memory : Result

unfoldable pub failed : Result → Bool
failed success = false
failed invalid_argument = true
failed out_of_memory = true

abbrev pub page_size : ℕ
page_size = 0x1000

abbrev pub addr_space_size : ℕ
addr_space_size = 0x1_0000_0000

abbrev pub heap_base : ℕ
heap_base = 0x8000_0000

abbrev pub stack_base : ℕ
stack_base = 0xC000_0000

abbrev pub heap_limit : ℕ
heap_limit = 0x4000_0000

-- `AlignUp` and `IsAligned` at `PAGE_SIZE` on `u64`: the mask of the alignment is a power of two
-- less one.
unfoldable pub align_up : ℕ → ℕ
align_up value = (value + page_size - 1) % u64_mod / page_size * page_size

unfoldable pub is_aligned : ℕ → Bool
is_aligned value = value % page_size == 0

-- `Memory::Permission`, and its bits R, W and X.
pub data Permission : Type 0 where
  perm_none perm_r perm_w perm_rw perm_x perm_rx perm_rwx : Permission

pub perm_code : Permission → ℕ
perm_code perm_none = 0
perm_code perm_r = 1
perm_code perm_w = 2
perm_code perm_rw = 3
perm_code perm_x = 4
perm_code perm_rx = 5
perm_code perm_rwx = 7

-- A protection of the host: `VM_PROT_READ`, `VM_PROT_WRITE`, `VM_PROT_EXECUTE`.
pub record Prot : Type 0 where
  pub read : Bool
  pub write : Bool
  pub execute : Bool

pub prot_of : Permission → Prot
prot_of perm_none = record { read = false; write = false; execute = false }
prot_of perm_r = record { read = true; write = false; execute = false }
prot_of perm_w = record { read = false; write = true; execute = false }
prot_of perm_rw = record { read = true; write = true; execute = false }
prot_of perm_x = record { read = false; write = false; execute = true }
prot_of perm_rx = record { read = true; write = false; execute = true }
prot_of perm_rwx = record { read = true; write = true; execute = true }

-- The calls of the host on its own state: an address and a size, and whether the call succeeded.
-- A mapping is at the fixed address that was asked for.
pub record Mach {ℓ} (Host : Type ℓ) : Type ℓ where
  pub vm_deallocate : ℕ → ℕ → Host → Bool × Host
  pub vm_map : ℕ → ℕ → Host → Bool × Host
  pub vm_protect : ℕ → ℕ → Prot → Host → Bool × Host
  pub copy_in : ℕ → List ℕ → Host → Host

pub record PageInfo : Type 0 where
  pub size : ℕ
  pub flags : ℕ

-- `pages_` is an association list without a second entry for a key. The lock and the write
-- callback are left out.
pub record Memory {ℓ} (Host : Type ℓ) : Type ℓ where
  pub base_addr : ℕ
  pub heap_size : ℕ
  pub heap_addr : ℕ
  pub stack_size : ℕ
  pub stack_top : ℕ
  pub pages : List (ℕ × PageInfo)
  pub host : Host

unfoldable pub init {ℓ} : {Host : Type ℓ} → Host → Memory Host
init h = record {
  base_addr = 0x3_0000_0000;
  heap_size = 0;
  heap_addr = heap_base;
  stack_size = 0;
  stack_top = 0;
  pages = [];
  host = h;
}

unfoldable pub erase : ℕ → List (ℕ × PageInfo) → List (ℕ × PageInfo)
erase key [] = []
erase key ((k, info) ∷ pages) =
    let rest : List (ℕ × PageInfo) = erase key pages in if k == key then rest else (k, info) ∷ rest

unfoldable pub find_page : ℕ → List (ℕ × PageInfo) → Option PageInfo
find_page key [] = none
find_page key ((k, info) ∷ pages) = if k == key then some info else find_page key pages

-- `pages_[address] = {size, perm}`.
unfoldable pub track_page : ℕ → ℕ → Permission → List (ℕ × PageInfo) → List (ℕ × PageInfo)
unfolding erase perm_code
track_page address size perm pages =
    (address, record { size = size; flags = perm_code perm }) ∷ erase address pages

abbrev host_page : ℕ
host_page = 0x4000

module _ {ℓ} {Host : Type ℓ} (mach : Mach Host) where
  copy_data : ℕ → Option (List ℕ) → Host → Host
  copy_data addr none h = h
  copy_data addr (some bytes) h = mach.copy_in addr bytes h

  -- "Set final protection"; a failure is only logged.
  final_protection : ℕ → ℕ → Prot → Host → Host
  final_protection addr size prot h =
      if prot.read && prot.write then h else (mach.vm_protect addr size prot h).1

  -- `MapPhysical` past its guards: two releases, the mapping, the data, the protection.
  pub map_host : ℕ → ℕ → Permission → Option (List ℕ) → Host → Bool × Host
  unfolding copy_data final_protection prot_of
  map_host abs_addr size perm bytes h =
      let page_off : ℕ = abs_addr % host_page in
      let map_addr : ℕ = abs_addr / host_page * host_page in
      let map_size : ℕ = (size + page_off + host_page - 1) % u64_mod / host_page * host_page in
      let h1 : Host = (mach.vm_deallocate map_addr map_size h).1 in
      let h2 : Host = (mach.vm_deallocate map_addr map_size h1).1 in
      let (ok, h3) = mach.vm_map map_addr map_size h2 in
      if ok
      then (
        true,
        final_protection (map_addr + page_off) size (prot_of perm)
            (copy_data (map_addr + page_off) bytes h3),
      )
      else (false, h3)

  unfoldable pub map_physical :
      ℕ → ℕ → Permission → Option (List ℕ) → Memory Host → Result × Memory Host
  unfolding is_aligned map_host track_page
  map_physical address size perm bytes m =
      if not (is_aligned address) || not (is_aligned size)
      then (invalid_argument, m)
      else if ltb addr_space_size ((address + size) % u64_mod)
      then (invalid_argument, m)
      else let (ok, h) = map_host ((m.base_addr + address) % u64_mod) size perm bytes m.host in
        if ok
        then (success, record m { pages = track_page address size perm m.pages; host = h })
        else (out_of_memory, record m { host = h })

  unfoldable pub unmap_physical : ℕ → ℕ → Memory Host → Result × Memory Host
  unfolding is_aligned erase
  unmap_physical address size m =
      if not (is_aligned address)
      then (invalid_argument, m)
      else let (ok, h) = mach.vm_deallocate ((m.base_addr + address) % u64_mod) size m.host in
        if ok
        then (success, record m { pages = erase address m.pages; host = h })
        else (invalid_argument, record m { host = h })

  unfoldable pub protect : ℕ → ℕ → Permission → Memory Host → Result × Memory Host
  protect address size perm m =
      let (ok, h) =
        mach.vm_protect ((m.base_addr + address) % u64_mod) size (prot_of perm) m.host in
      (if ok then success else invalid_argument, record m { host = h })

  -- The old heap is unmapped only if there is one.
  pub drop_heap : Memory Host → Memory Host
  unfolding unmap_physical
  drop_heap m = if ltb 0 m.heap_size then (unmap_physical heap_base m.heap_size m).1 else m

  -- A mapping that failed is undone by mapping the old heap again, whatever becomes of it.
  pub restore_heap : Memory Host → Memory Host
  unfolding map_physical
  restore_heap m =
      if ltb 0 m.heap_size then (map_physical heap_base m.heap_size perm_rw none m).1 else m

  pub set_heap : ℕ → Memory Host → Memory Host
  set_heap aligned m = record m { heap_addr = heap_base; heap_size = aligned }

  pub grow_heap : ℕ → Memory Host → Result × Memory Host
  unfolding drop_heap restore_heap set_heap map_physical failed
  grow_heap aligned m =
      let (r, m') = map_physical heap_base aligned perm_rw none (drop_heap m) in
      if failed r then (r, restore_heap m') else (success, set_heap aligned m')

  unfoldable pub set_heap_size : ℕ → Memory Host → Result × Memory Host
  unfolding align_up grow_heap set_heap unmap_physical
  set_heap_size size m =
      let aligned : ℕ = align_up size in
      if ltb heap_limit aligned
      then (out_of_memory, m)
      else if aligned == m.heap_size
      then (success, m)
      else if ltb m.heap_size aligned
      then grow_heap aligned m
      else (
        success,
        set_heap aligned (unmap_physical (heap_base + aligned) (m.heap_size - aligned) m).1,
      )

  unfoldable pub setup_stack : ℕ → Memory Host → Result × Memory Host
  unfolding align_up map_physical failed
  setup_stack size m =
      let aligned : ℕ = min (align_up size) 0x10_0000 in
      let (r, m') = map_physical (stack_base - aligned) aligned perm_rw none m in
      if failed r
      then (r, m')
      else (success, record m' { stack_size = aligned; stack_top = stack_base })

unfoldable pub is_valid : ℕ → Bool
is_valid address = ltb address addr_space_size

-- The loop of `QueryRegion`: the first page that holds the address.
unfoldable pub page_of : ℕ → List (ℕ × PageInfo) → Option (ℕ × PageInfo)
page_of address [] = none
page_of address ((k, info) ∷ pages) =
    if leb k address && ltb address ((k + info.size) % u64_mod)
    then some (k, info)
    else page_of address pages

-- A bit of the flags.
has_bit : ℕ → ℕ → Bool
has_bit flags n = flags / n % 2 == 1

-- The number of a region's type: unmapped is 3, the heap 4, the stack 5.
unfoldable pub region_type : ℕ → ℕ → ℕ
unfolding has_bit
region_type base flags =
    if leb (stack_base - 0x100_0000) base && ltb base stack_base
    then 5
    else if leb heap_base base && ltb base (heap_base + 0x4000_0000)
    then 4
    else if has_bit flags 4
    then 0
    else if has_bit flags 2
    then 1
    else if has_bit flags 1
    then 2
    else 3

-- `QueryRegion`: the base, the size and the type.
unfoldable pub query_region : ℕ → List (ℕ × PageInfo) → ℕ × ℕ × ℕ
unfolding page_of region_type
query_region address pages = elim (page_of address pages) [
  | none ↦ (address, 0x1000, 3)
  | some (base, info) ↦ (base, info.size, region_type base info.flags)
]
