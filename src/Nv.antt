-- ===== src/Nv.antt =====
-- services/Nv.cpp: the state of the driver services, and the replies of their commands.
pub mod Map
pub mod Channel
pub mod Carveout
pub mod Handles
pub mod Submit
pub mod Syncpoints
use m1switch.Base.{
  ℕ, ◌+◌, ◌-◌, ◌%◌, bit_and, bit_or, Bool, true, false, leb, if◌then◌else◌, List, [], Option,
}
use m1switch.Base.Bits.{u64_mod}
use m1switch.Base.Bytes.{to_bytes}
use m1switch.Base.Dict.{Dict}
use m1switch.Memory.{Memory}

-- `AlignUp` on u64, for an alignment that is not 0: `x & ~m` is `x - (x & m)`.
unfoldable pub align_up_to : ℕ → ℕ → ℕ
align_up_to value alignment =
    let x : ℕ = (value + alignment - 1) % u64_mod in x - bit_and x (alignment - 1)

abbrev pub carveout_base : ℕ
carveout_base = 0xD000_0000

abbrev pub carveout_size : ℕ
carveout_size = 0x1000_0000

-- `id | 0xCAFE0000`
unfoldable pub handle_of : ℕ → ℕ
handle_of id = bit_or id 0xCAFE_0000

pub record NvMapEntry : Type 0 where
  pub handle : ℕ
  pub id : ℕ
  pub size : ℕ
  pub align : ℕ
  pub addr : ℕ
  pub iova : ℕ
  pub flags : ℕ
  pub cached : Bool
  pub mapped : Bool

abbrev pub zero_entry : NvMapEntry
zero_entry = record {
  handle = 0;
  id = 0;
  size = 0;
  align = 0;
  addr = 0;
  iova = 0;
  flags = 0;
  cached = false;
  mapped = false;
}

-- The globals of the nvmap service with the guest memory, which may not be set. The lock is left
-- out.
pub record NvMap {ℓ} (Host : Type ℓ) : Type ℓ where
  pub entries : List NvMapEntry
  pub handle_index : Dict ℕ
  pub next_id : ℕ
  pub carveout_offset : ℕ
  pub memory : Option (Memory Host)

unfoldable pub new_map {ℓ} : {Host : Type ℓ} → Option (Memory Host) → NvMap Host
new_map memory = record {
  entries = [];
  handle_index = [];
  next_id = 1;
  carveout_offset = 0;
  memory = memory;
}
