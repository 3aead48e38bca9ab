-- ===== src/Gpu/Fifo/Header.antt =====
-- The header word: its four fields survive packing.
use m1switch.Base.{ℕ, ◌+◌, ◌*◌, ◌%◌, ◌^◌, ◌<◌, ◌≡◌, arith}
use m1switch.Base.Bits.{bit_or_fields, u32_mod}
use m1switch.Gpu.Fifo.{make_header, get_method, get_subchannel, get_arg, get_mode}

-- The `|` of the four fields is their sum.
make_header-sum :
    (mode method arg subch : ℕ)
    → make_header mode method arg subch
      ≡ method % 2 ^ 13 + subch % 8 * 2 ^ 13 + arg % 2 ^ 13 * 2 ^ 16 + mode % 8 * 2 ^ 29
unfolding make_header
make_header-sum mode method arg subch =
    rw
      (
        bit_or_fields 13 (method % 2 ^ 13) (subch % 8) (omega arith),
        bit_or_fields 16 (subch % 8 * 2 ^ 13 + method % 2 ^ 13) (arg % 2 ^ 13) (omega arith),
        bit_or_fields 29 (arg % 2 ^ 13 * 2 ^ 16 + (subch % 8 * 2 ^ 13 + method % 2 ^ 13)) (mode % 8)
            (omega arith),
      )
      (omega arith)

-- Packing a header keeps each field, cut to its width, and gives a 32-bit word.
pub get-make_header :
    (mode method arg subch : ℕ)
    → let h = make_header mode method arg subch in
      (get_mode h ≡ mode % 8)
      × (get_method h ≡ method % 2 ^ 13)
      × (get_arg h ≡ arg % 2 ^ 13)
      × (get_subchannel h ≡ subch % 8)
      × (h < u32_mod)
unfolding get_mode get_method get_arg get_subchannel
get-make_header mode method arg subch = omega (arith, make_header-sum mode method arg subch)
