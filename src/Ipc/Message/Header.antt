-- ===== src/Ipc/Message/Header.antt =====
-- services/Ipc.cpp, HipcHeader: packing and unpacking of the bit fields.
use m1switch.Base.{ℕ, ◌+◌, ◌*◌, ◌^◌, ◌<◌, ◌≡◌, ap, ◌∙◌, List, ◌++◌, arith}
use m1switch.Base.Bytes.{of_bytes, to_bytes, of_bytes-to_bytes}
use m1switch.Ipc.Message.{HipcHeader, field, parse_header, header_word, header_bytes}

-- Every field fits its width.
pub record Fits (h : HipcHeader) : Type 0 where
  pub f0 : h.type < 2 ^ 16
  pub f1 : h.num_send_statics < 2 ^ 4
  pub f2 : h.num_send_buffers < 2 ^ 4
  pub f3 : h.num_recv_buffers < 2 ^ 4
  pub f4 : h.num_exch_buffers < 2 ^ 4
  pub f5 : h.num_data_words < 2 ^ 10
  pub f6 : h.recv_static_mode < 2 ^ 4
  pub f7 : h.padding < 2 ^ 6
  pub f8 : h.recv_list_offset < 2 ^ 11
  pub f9 : h.has_special_header < 2

-- The word without the cuts, which do nothing.
word-flat :
    (h : HipcHeader)
    → Fits h
    → header_word h
      ≡ h.type
        + h.num_send_statics * 2 ^ 16
        + h.num_send_buffers * 2 ^ 20
        + h.num_recv_buffers * 2 ^ 24
        + h.num_exch_buffers * 2 ^ 28
        + h.num_data_words * 2 ^ 32
        + h.recv_static_mode * 2 ^ 42
        + h.padding * 2 ^ 46
        + h.recv_list_offset * 2 ^ 52
        + h.has_special_header * 2 ^ 63
unfolding header_word
word-flat h v = omega (arith, v.f0, v.f1, v.f2, v.f3, v.f4, v.f5, v.f6, v.f7, v.f8, v.f9)

field-0 : (h : HipcHeader) → Fits h → field (header_word h) 0 16 ≡ h.type
field-0 h v =
    omega (arith, word-flat h v, v.f0, v.f1, v.f2, v.f3, v.f4, v.f5, v.f6, v.f7, v.f8, v.f9)

field-1 : (h : HipcHeader) → Fits h → field (header_word h) 16 4 ≡ h.num_send_statics
field-1 h v =
    omega (arith, word-flat h v, v.f0, v.f1, v.f2, v.f3, v.f4, v.f5, v.f6, v.f7, v.f8, v.f9)

field-2 : (h : HipcHeader) → Fits h → field (header_word h) 20 4 ≡ h.num_send_buffers
field-2 h v =
    omega (arith, word-flat h v, v.f0, v.f1, v.f2, v.f3, v.f4, v.f5, v.f6, v.f7, v.f8, v.f9)

field-3 : (h : HipcHeader) → Fits h → field (header_word h) 24 4 ≡ h.num_recv_buffers
field-3 h v =
    omega (arith, word-flat h v, v.f0, v.f1, v.f2, v.f3, v.f4, v.f5, v.f6, v.f7, v.f8, v.f9)

field-4 : (h : HipcHeader) → Fits h → field (header_word h) 28 4 ≡ h.num_exch_buffers
field-4 h v =
    omega (arith, word-flat h v, v.f0, v.f1, v.f2, v.f3, v.f4, v.f5, v.f6, v.f7, v.f8, v.f9)

field-5 : (h : HipcHeader) → Fits h → field (header_word h) 32 10 ≡ h.num_data_words
field-5 h v =
    omega (arith, word-flat h v, v.f0, v.f1, v.f2, v.f3, v.f4, v.f5, v.f6, v.f7, v.f8, v.f9)

field-6 : (h : HipcHeader) → Fits h → field (header_word h) 42 4 ≡ h.recv_static_mode
field-6 h v =
    omega (arith, word-flat h v, v.f0, v.f1, v.f2, v.f3, v.f4, v.f5, v.f6, v.f7, v.f8, v.f9)

field-7 : (h : HipcHeader) → Fits h → field (header_word h) 46 6 ≡ h.padding
field-7 h v =
    omega (arith, word-flat h v, v.f0, v.f1, v.f2, v.f3, v.f4, v.f5, v.f6, v.f7, v.f8, v.f9)

field-8 : (h : HipcHeader) → Fits h → field (header_word h) 52 11 ≡ h.recv_list_offset
field-8 h v =
    omega (arith, word-flat h v, v.f0, v.f1, v.f2, v.f3, v.f4, v.f5, v.f6, v.f7, v.f8, v.f9)

field-9 : (h : HipcHeader) → Fits h → field (header_word h) 63 1 ≡ h.has_special_header
field-9 h v =
    omega (arith, word-flat h v, v.f0, v.f1, v.f2, v.f3, v.f4, v.f5, v.f6, v.f7, v.f8, v.f9)

word-lt : (h : HipcHeader) → header_word h < 256 ^ 8
unfolding header_word
word-lt h = omega arith

-- A packed header whose fields fit their widths reads back, whatever follows it.
pub parse_header-header_bytes :
    (h : HipcHeader) (rest : List ℕ) → Fits h → parse_header (header_bytes h ++ rest) ≡ h
unfolding parse_header header_bytes
parse_header-header_bytes h rest v =
    let e : of_bytes 8 (to_bytes 8 (header_word h) ++ rest) ≡ header_word h =
      of_bytes-to_bytes 8 (header_word h) rest (word-lt h) in
    λ i. record {
      type = (ap (λ w. field w 0 16) e ∙ field-0 h v) i;
      num_send_statics = (ap (λ w. field w 16 4) e ∙ field-1 h v) i;
      num_send_buffers = (ap (λ w. field w 20 4) e ∙ field-2 h v) i;
      num_recv_buffers = (ap (λ w. field w 24 4) e ∙ field-3 h v) i;
      num_exch_buffers = (ap (λ w. field w 28 4) e ∙ field-4 h v) i;
      num_data_words = (ap (λ w. field w 32 10) e ∙ field-5 h v) i;
      recv_static_mode = (ap (λ w. field w 42 4) e ∙ field-6 h v) i;
      padding = (ap (λ w. field w 46 6) e ∙ field-7 h v) i;
      recv_list_offset = (ap (λ w. field w 52 11) e ∙ field-8 h v) i;
      has_special_header = (ap (λ w. field w 63 1) e ∙ field-9 h v) i;
    }
