-- ===== src/Ipc/Response.antt =====
-- services/Ipc.cpp, HandleRequest: the response to a handled command.
pub mod Layout
use m1switch.Base.{
  ℕ, zero, suc, ◌+◌, ◌-◌, ◌*◌, ◌/◌, ◌%◌, ◌^◌, Bool, true, false, ◌==◌, ltb, leb, if◌then◌else◌,
  List, [], ◌∷◌, ◌++◌, Option, none, some, ◌>>=◌, length,
}
use m1switch.Base.Bytes.{to_bytes}
use m1switch.Base.Buffers.{read, write}
use m1switch.Ipc.Message.{HipcHeader, zero_header, header_bytes, calc_cmif_align}

abbrev pub cmif_out_magic : ℕ
cmif_out_magic = 0x4F43_4653

-- What stands before the data words: where they start, and the special header with its handles.
pub record Reserved : Type 0 where
  pub raw_off : ℕ
  pub special : Bool
  pub num_copy_handles : ℕ
  pub num_move_handles : ℕ

-- `CmifOutHeader`: magic, version, result, token.
unfoldable pub cmif_out_header : ℕ → List ℕ
unfolding to_bytes
cmif_out_header token =
    to_bytes 4 cmif_out_magic ++ (to_bytes 4 0 ++ (to_bytes 4 0 ++ to_bytes 4 token))

-- `CmifDomainOutHeader`: the number of objects, and padding.
unfoldable pub domain_out_header : ℕ → List ℕ
unfolding to_bytes
domain_out_header count = to_bytes 4 count ++ to_bytes 12 0

unfoldable pub special_header : Reserved → List ℕ
unfolding to_bytes
special_header r = to_bytes 4 (r.num_copy_handles % 2 ^ 4 * 2 + r.num_move_handles % 2 ^ 4 * 2 ^ 5)

unfoldable pub response_header : Reserved → ℕ → HipcHeader
unfolding zero_header
response_header r data_size = record zero_header {
  num_data_words = (data_size + 3) / 4;
  has_special_header = if r.special then 1 else 0;
}

unfoldable pub object_bytes : List ℕ → List ℕ
unfolding to_bytes
object_bytes [] = []
object_bytes (id ∷ ids) = to_bytes 4 id ++ object_bytes ids

unfoldable pub move_data : ℕ → ℕ → ℕ → List ℕ → Option (List ℕ)
unfolding read write
move_data src dest n response =
    if ltb 0 n then (read src n response >>= λ bytes. write dest bytes response) else some response

-- The header of a domain's response, and the ids behind the data.
unfoldable pub write_domain : Bool → ℕ → ℕ → List ℕ → List ℕ → Option (List ℕ)
unfolding write domain_out_header object_bytes
write_domain false at ids_at objects response = some response
write_domain true at ids_at objects response = do
  headed ← write at (domain_out_header (length objects)) response
  write ids_at (object_bytes objects) headed

unfoldable pub write_special : Reserved → List ℕ → Option (List ℕ)
unfolding write special_header
write_special r response = if r.special then write 8 (special_header r) response else some response

-- Where the `CmifOutHeader` stands.
unfoldable pub cmif_at : Bool → Reserved → ℕ
unfolding calc_cmif_align
cmif_at is_domain r = calc_cmif_align r.raw_off + (if is_domain then 16 else 0)

unfoldable pub data_end : Bool → Reserved → ℕ → List ℕ → ℕ
unfolding cmif_at
data_end is_domain r n objects =
    cmif_at is_domain r + 16 + n + (if is_domain then length objects * 4 else 0)

-- The headers over a buffer that holds the data, and the size of the response.
unfoldable pub finish_response : Reserved → ℕ → ℕ → ℕ → List ℕ → Option (List ℕ × ℕ)
unfolding cmif_out_header write_special response_header header_bytes write
finish_response r at token size response = do
  headed ← write at (cmif_out_header token) response
  special ← write_special r headed
  done ← write 0 (header_bytes (response_header r size)) special
  some (done, r.raw_off + size)

-- The response with the `CmifOutHeader` at `at` and its end at `stop`.
unfoldable pub build_at : Bool → Reserved → ℕ → ℕ → ℕ → List ℕ → ℕ → List ℕ → Option (List ℕ × ℕ)
unfolding calc_cmif_align move_data write_domain finish_response
build_at is_domain r at stop n objects token response = do
  moved ← move_data r.raw_off (at + 16) n response
  listed ← write_domain is_domain (calc_cmif_align r.raw_off) (at + 16 + n) objects moved
  finish_response r at token (stop - r.raw_off) listed

-- The response over what the buffer held, with the service's `n` bytes at `raw_off`, and its size;
-- `none` is a write past the buffer.
unfoldable pub build_response : Bool → Reserved → ℕ → List ℕ → ℕ → List ℕ → Option (List ℕ × ℕ)
unfolding cmif_at data_end build_at
build_response is_domain r n objects token response =
    build_at is_domain r (cmif_at is_domain r) (data_end is_domain r n objects) n objects token
      response
