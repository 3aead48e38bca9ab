-- ===== src/Ipc/Message.antt =====
-- services/Ipc.cpp: the hipc header of a message, and the offsets in a request.
pub mod Header
use m1switch.Base.{
  ℕ, zero, suc, ◌+◌, ◌-◌, ◌*◌, ◌/◌, ◌%◌, ◌^◌, Bool, true, false, ◌==◌, ltb, leb, if◌then◌else◌,
  List, [], ◌∷◌, Option, none, some, ◌>>=◌, length, ◌&&◌,
}
use m1switch.Base.Bits.{u32_mod}
use m1switch.Base.Bytes.{of_bytes, to_bytes}
use m1switch.Base.Buffers.{read}

-- `n` bits of a word from bit `lo`.
abbrev pub field : ℕ → ℕ → ℕ → ℕ
field word lo n = word / 2 ^ lo % 2 ^ n

pub record HipcHeader : Type 0 where
  pub type : ℕ
  pub num_send_statics : ℕ
  pub num_send_buffers : ℕ
  pub num_recv_buffers : ℕ
  pub num_exch_buffers : ℕ
  pub num_data_words : ℕ
  pub recv_static_mode : ℕ
  pub padding : ℕ
  pub recv_list_offset : ℕ
  pub has_special_header : ℕ

unfoldable pub zero_header : HipcHeader
zero_header = record {
  type = 0;
  num_send_statics = 0;
  num_send_buffers = 0;
  num_recv_buffers = 0;
  num_exch_buffers = 0;
  num_data_words = 0;
  recv_static_mode = 0;
  padding = 0;
  recv_list_offset = 0;
  has_special_header = 0;
}

-- The bit fields of the two words of a packed header, lowest bits first.
unfoldable pub parse_header : List ℕ → HipcHeader
unfolding of_bytes
parse_header bytes =
    let w : ℕ = of_bytes 8 bytes in
    record {
      type = field w 0 16;
      num_send_statics = field w 16 4;
      num_send_buffers = field w 20 4;
      num_recv_buffers = field w 24 4;
      num_exch_buffers = field w 28 4;
      num_data_words = field w 32 10;
      recv_static_mode = field w 42 4;
      padding = field w 46 6;
      recv_list_offset = field w 52 11;
      has_special_header = field w 63 1;
    }

-- Fields are cut to their widths.
unfoldable pub header_word : HipcHeader → ℕ
header_word h =
    h.type % 2 ^ 16
    + h.num_send_statics % 2 ^ 4 * 2 ^ 16
    + h.num_send_buffers % 2 ^ 4 * 2 ^ 20
    + h.num_recv_buffers % 2 ^ 4 * 2 ^ 24
    + h.num_exch_buffers % 2 ^ 4 * 2 ^ 28
    + h.num_data_words % 2 ^ 10 * 2 ^ 32
    + h.recv_static_mode % 2 ^ 4 * 2 ^ 42
    + h.padding % 2 ^ 6 * 2 ^ 46
    + h.recv_list_offset % 2 ^ 11 * 2 ^ 52
    + h.has_special_header % 2 * 2 ^ 63

unfoldable pub header_bytes : HipcHeader → List ℕ
unfolding header_word to_bytes
header_bytes h = to_bytes 8 (header_word h)

-- `HipcSpecialHeader`: the bytes that it and its handles take.
unfoldable pub special_size : ℕ → ℕ
special_size w = 4 + (if field w 0 1 == 1 then 8 else 0) + field w 1 4 * 4 + field w 5 4 * 4

-- The static and the buffer descriptors.
unfoldable pub descriptors_size : HipcHeader → ℕ
descriptors_size h =
    h.num_send_statics * 8 + (h.num_send_buffers + h.num_recv_buffers + h.num_exch_buffers) * 16

unfoldable pub inside : ℕ → ℕ → ℕ
inside off size = if ltb off size then off else 0

-- Behind the header, the special header with its handles, and the descriptors.
unfoldable pub offset_with : HipcHeader → List ℕ → ℕ
unfolding special_size descriptors_size inside of_bytes read
offset_with h data_bytes =
    if h.has_special_header == 1
    then (elim (read 8 4 data_bytes) [
      | none ↦ 0
      | some sh ↦ inside (8 + special_size (of_bytes 4 sh) + descriptors_size h) (length data_bytes)
    ])
    else inside (8 + descriptors_size h) (length data_bytes)

unfoldable pub calc_data_words_offset : List ℕ → ℕ
unfolding parse_header offset_with
calc_data_words_offset data_bytes =
    if ltb (length data_bytes) 8 then 0 else offset_with (parse_header data_bytes) data_bytes

-- `CalcCmifAlign`
unfoldable pub calc_cmif_align : ℕ → ℕ
calc_cmif_align off = (off + 15) / 16 * 16

unfoldable pub recv_entries : HipcHeader → ℕ
recv_entries h =
    if h.recv_static_mode == 2
    then 8
    else if ltb 2 h.recv_static_mode
    then h.recv_static_mode - 2
    else 0

unfoldable pub recv_offset : HipcHeader → ℕ → ℕ
recv_offset h dw_off =
    if ltb 0 h.recv_list_offset then h.recv_list_offset * 4 else dw_off + h.num_data_words * 4

-- The loop of `ParseRecvList`, over the entries from `off`; `none` is a read past the message.
unfoldable pub recv_list_from : ℕ → ℕ → List ℕ → Option (List (ℕ × ℕ))
unfolding read of_bytes
recv_list_from zero off data_bytes = some []
recv_list_from (suc n) off data_bytes = do
  entry ← read off 8 data_bytes
  rest ← recv_list_from n (off + 8) data_bytes
  let w : ℕ = of_bytes 8 entry in
      some (if ltb 0 (field w 48 16) then (field w 0 48, field w 48 16) ∷ rest else rest)

-- Address and size of each output buffer, at most 8 of them.
unfoldable pub parse_recv_list : List ℕ → HipcHeader → ℕ → Option (List (ℕ × ℕ))
unfolding recv_entries recv_offset recv_list_from
parse_recv_list data_bytes h dw_off =
    let n : ℕ = recv_entries h in
    recv_list_from (if ltb n 8 then n else 8) (recv_offset h dw_off) data_bytes
