-- ===== src/Memory/Access.antt =====
-- memory/Memory.h: reading a u32 of the guest's memory. What the host's memory holds is a parameter.
use m1switch.Base.{ℕ, ◌+◌, ◌%◌, not, ◌||◌, ltb, if◌then◌else◌, Option, none, some}
use m1switch.Base.Bits.{u32_mod, u64_mod}
use m1switch.Memory.{Memory, addr_space_size, is_valid}

module _ {ℓ} {Host : Type ℓ} (load : ℕ → Host → ℕ) where
  -- `Read<u32>`; `none` is `Result::InvalidArgument`. The u32 at a host address is `load`'s, modulo
  -- 2^32.
  unfoldable pub read_u32 : ℕ → Memory Host → Option ℕ
  unfolding is_valid
  read_u32 address m =
      if not (is_valid address) || ltb addr_space_size ((address + 4) % u64_mod)
      then none
      else some (load ((m.base_addr + address) % u64_mod) m.host % u32_mod)
