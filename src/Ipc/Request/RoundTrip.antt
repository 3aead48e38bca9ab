-- ===== src/Ipc/Request/RoundTrip.antt =====
-- services/Ipc.cpp: a CMIF request as a client lays it out, and what HandleRequest reads of it.
use m1switch.Base.{
  ℕ, ◌+◌, ◌-◌, ◌*◌, ◌^◌, ◌<◌, true, false, ◌==◌, ltb, ltb-lt, ltb-ge, leb-le, ltb-false, Bool-cases,
  inl, inr, if◌then◌else◌, ◌≡◌, refl, sym, ap, ◌∙◌, List, [], ◌∷◌, ◌++◌, Option, some, ◌>>=◌,
  length, drop, arith,
}
use m1switch.Base.Bits.{u32_mod}
use m1switch.Base.Bytes.{of_bytes, to_bytes, of_bytes-to_bytes}
use m1switch.Base.Buffers.{read, take-all}
use m1switch.Ipc.Message.{
  HipcHeader, zero_header, parse_header, header_bytes, calc_data_words_offset, offset_with,
  calc_cmif_align,
}
use m1switch.Ipc.Message.Header.{Fits, parse_header-header_bytes}
use m1switch.Ipc.Request.{
  cmif_in_magic, Parsed, u32_in, is_recycled, parse_with, parse_message, IpcCommand, domain_object,
  cmif_command, raw_command, data_command, parse_command,
}

-- The header of an ordinary request with `k` words of input: 2 words of padding and 4 of the
-- `CmifInHeader` stand before them.
unfoldable pub request_header : ℕ → HipcHeader
unfolding zero_header
request_header k = record zero_header { type = 4; num_data_words = 6 + k }

unfoldable pub cmif_in_header : ℕ → ℕ → List ℕ
unfolding to_bytes
cmif_in_header cmd token =
    to_bytes 4 cmif_in_magic ++ (to_bytes 4 0 ++ (to_bytes 4 cmd ++ to_bytes 4 token))

unfoldable pub request_message : ℕ → ℕ → ℕ → List ℕ → List ℕ
unfolding request_header header_bytes cmif_in_header to_bytes
request_message cmd token k payload =
    header_bytes (request_header k) ++ (to_bytes 8 0 ++ (cmif_in_header cmd token ++ payload))

request-Fits : (k : ℕ) → k + 6 < 2 ^ 10 → Fits (request_header k)
unfolding request_header
request-Fits k h = record {
  f0 = omega arith;
  f1 = omega arith;
  f2 = omega arith;
  f3 = omega arith;
  f4 = omega arith;
  f5 = omega arith;
  f6 = omega arith;
  f7 = omega arith;
  f8 = omega arith;
  f9 = omega arith;
}

empty-list : (xs : List ℕ) → length xs ≡ 0 → xs ≡ []
empty-list [] h = refl
empty-list (x ∷ xs) h = absurd (omega arith)

-- What the client sent.
unfoldable pub sent : ℕ → ℕ → List ℕ → IpcCommand
sent cmd token payload = record { cmd_id = cmd; raw_in = payload; token = token; object_id = 0 }

module _ (cmd token k : ℕ) (payload : List ℕ) (sized : length payload ≡ k * 4) where
  abbrev pub message : List ℕ
  unfolding request_message
  message = request_message cmd token k payload

  pub length-message : length message ≡ 32 + k * 4
  unfolding message
  length-message = omega (arith, sized)

  parse_header-message : k + 6 < 2 ^ 10 → parse_header message ≡ request_header k
  unfolding message
  parse_header-message h =
      parse_header-header_bytes (request_header k)
        (to_bytes 8 0 ++ (cmif_in_header cmd token ++ payload)) (request-Fits k h)

  read-cmif : read 16 16 message ≡ some (cmif_in_header cmd token)
  unfolding message read
  read-cmif = rw (leb-le 32 (length message) (omega (arith, length-message))) refl

  read-payload : read 32 (k * 4) message ≡ some payload
  unfolding message read
  read-payload =
      rw
        (
          leb-le (32 + k * 4) (length message) (omega (arith, length-message)),
          take-all (k * 4) payload (omega (arith, sized)),
        )
        refl

  offset_with-request : offset_with (request_header k) message ≡ 8
  unfolding offset_with request_header
  offset_with-request = rw (ltb-lt 8 (length message) (omega (arith, length-message))) refl

  offset-message : k + 6 < 2 ^ 10 → calc_data_words_offset message ≡ 8
  unfolding calc_data_words_offset
  offset-message h =
      rw (ltb-ge (length message) 8 (omega (arith, length-message)), calc_data_words_offset)
        (ap (λ t. offset_with t message) (parse_header-message h) ∙ offset_with-request)

  magic : u32_in 16 message ≡ some cmif_in_magic
  unfolding u32_in message read of_bytes
  magic = rw (leb-le 20 (length message) (omega (arith, length-message))) refl

  fresh : is_recycled message (request_header k) 8 ≡ false
  unfolding is_recycled request_header calc_cmif_align
  fresh = rw (ltb-lt 0 (6 + k) (omega arith), magic) refl

  parse_with-fresh :
      parse_with message (request_header k) 8 ≡ record { header = request_header k; dw_off = 8 }
  unfolding parse_with
  parse_with-fresh = rw (fresh, parse_with) refl

  pub parse_message-message :
      k + 6 < 2 ^ 10 → parse_message message ≡ record { header = request_header k; dw_off = 8 }
  unfolding parse_message
  parse_message-message h =
      ap (λ t. parse_with message t (calc_data_words_offset message)) (parse_header-message h)
      ∙ ap (λ (off : ℕ). parse_with message (request_header k) off) (offset-message h)
      ∙ parse_with-fresh

  raw_input :
      (if ltb 32 (8 + (6 + k) * 4) then read 32 (8 + (6 + k) * 4 - 32) message else some [])
      ≡ some payload
  raw_input = elim (Bool-cases (ltb 32 (8 + (6 + k) * 4))) [
    | inl some_words ↦
        rw (some_words) (ap (λ (n : ℕ). read 32 n message) (omega arith) ∙ read-payload)
    | inr no_words ↦ rw (no_words) (
        ap some (
          sym (empty-list payload (omega (arith, sized, ltb-false 32 (8 + (6 + k) * 4) no_words)))))
  ]

  cmd_back : cmd < u32_mod → of_bytes 4 (drop 8 (cmif_in_header cmd token)) ≡ cmd
  unfolding cmif_in_header
  cmd_back h = of_bytes-to_bytes 4 cmd (to_bytes 4 token) h

  token_back : token < u32_mod → of_bytes 4 (drop 12 (cmif_in_header cmd token)) ≡ token
  unfolding cmif_in_header
  token_back h = of_bytes-to_bytes 4 token [] h

  command-message :
      cmd < u32_mod
      → token < u32_mod
      → cmif_command
          (record { header = request_header k; dw_off = 8 })
          16
          0
          (cmif_in_header cmd token)
          message
        ≡ some (sent cmd token payload)
  unfolding cmif_command sent request_header
  command-message hc ht =
      ap
        (λ (o : Option (List ℕ)). o >>= λ raw_in. some (record {
          cmd_id = of_bytes 4 (drop 8 (cmif_in_header cmd token));
          raw_in = raw_in;
          token = of_bytes 4 (drop 12 (cmif_in_header cmd token));
          object_id = 0;
        }))
        raw_input
      ∙ (λ i. some (record {
        cmd_id = cmd_back hc i;
        raw_in = payload;
        token = token_back ht i;
        object_id = 0;
      }))

  magic_back : (of_bytes 4 (cmif_in_header cmd token) == cmif_in_magic) ≡ true
  unfolding cmif_in_header of_bytes
  magic_back = refl

  data_command-message :
      cmd < u32_mod
      → token < u32_mod
      → data_command false (record { header = request_header k; dw_off = 8 }) 16 message
        ≡ some (sent cmd token payload)
  unfolding data_command domain_object
  data_command-message hc ht =
      let p : Parsed = record { header = request_header k; dw_off = 8 } in
      let after : List ℕ → Option IpcCommand = λ h.
        (if of_bytes 4 h == cmif_in_magic
          then cmif_command p 16 0 h message
          else raw_command p 0 message) in
      ap (λ (o : Option (List ℕ)). o >>= after) read-cmif ∙ rw (magic_back) (command-message hc ht)

-- A request of a client outside a domain, laid out as it writes it: header, padding to 16 bytes,
-- `CmifInHeader`, `k` words of input. For `k` below 1018 and a command and token of 32 bits the
-- message is not taken for a response, and command, token and all of the input are read back.
pub parse_command-request_message :
    (cmd token k : ℕ) (payload : List ℕ)
    → length payload ≡ k * 4
    → k + 6 < 2 ^ 10
    → cmd < u32_mod
    → token < u32_mod
    → parse_command false
        (parse_message (request_message cmd token k payload))
        (request_message cmd token k payload)
      ≡ some (sent cmd token payload)
unfolding parse_command request_header calc_cmif_align request_message message
parse_command-request_message cmd token k payload sized few hc ht =
    let msg : List ℕ = request_message cmd token k payload in
    ap (λ p. parse_command false p msg) (parse_message-message cmd token k payload sized few)
    ∙ rw (ltb-lt 0 (6 + k) (omega arith)) (data_command-message cmd token k payload sized hc ht)
