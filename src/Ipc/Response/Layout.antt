-- ===== src/Ipc/Response/Layout.antt =====
-- services/Ipc.cpp: what the client finds in a response.
use m1switch.Base.{
  ℕ, zero, suc, ◌+◌, ◌-◌, ◌≤◌, ◌<◌, true, false, ltb-lt, leb-le, Bool-cases, ◌≡◌, refl, sym, ap,
  ◌∙◌, ◌⊎◌, inl, inr, List, [], ◌∷◌, Option, none, some, ◌>>=◌, length, arith,
}
use m1switch.Base.Bytes.{to_bytes}
use m1switch.Base.Buffers.{read, Written, write-Written, write-none}
use m1switch.Ipc.Message.{header_bytes, calc_cmif_align}
use m1switch.Ipc.Response.{
  Reserved, cmif_out_header, special_header, response_header, move_data, write_domain,
  write_special, cmif_at, data_end, finish_response, build_at, build_response,
}

-- The special header as it was written, or nothing to write.
record SpecialKept (r : Reserved) (buffer : List ℕ) : Type 0 where
  after : List ℕ
  wrote : write_special r buffer ≡ some after
  same_length : length after ≡ length buffer
  reads : r.special ≡ true → read 8 4 after ≡ some (special_header r)
  behind : (off n : ℕ) → 12 ≤ off → read off n after ≡ read off n buffer

write_special-SpecialKept :
    (r : Reserved) (buffer : List ℕ) → 12 ≤ length buffer → SpecialKept r buffer
unfolding write_special special_header to_bytes
write_special-SpecialKept r buffer h = elim (Bool-cases r.special) [
  | inl e ↦
      let w : Written 8 (special_header r) buffer = write-Written 8 (special_header r) buffer h in
      record {
        after = w.after;
        wrote = rw (e, write_special) w.wrote;
        same_length = w.same_length;
        reads = λ _. w.reads;
        behind = λ off n k. w.behind off n k;
      }
  | inr e ↦ record {
    after = buffer;
    wrote = rw (e, write_special) refl;
    same_length = refl;
    reads = λ t. cc (t, e);
    behind = λ off n k. refl;
  }
]

-- The headers over a buffer that holds the data already, the `CmifOutHeader` at `at`.
record Headed (r : Reserved) (at token size : ℕ) (buffer : List ℕ) : Type 0 where
  done : List ℕ
  made : finish_response r at token size buffer ≡ some (done, r.raw_off + size)
  header : read 0 8 done ≡ some (header_bytes (response_header r size))
  special : r.special ≡ true → read 8 4 done ≡ some (special_header r)
  cmif : read at 16 done ≡ some (cmif_out_header token)
  kept : (off n : ℕ) → at + 16 ≤ off → read off n done ≡ read off n buffer
  between : (off n : ℕ) → 12 ≤ off → off + n ≤ at → read off n done ≡ read off n buffer

all-Headed :
    (r : Reserved) (at token size : ℕ) (buffer : List ℕ)
    → 16 ≤ at
    → at + 16 ≤ length buffer
    → Headed r at token size buffer
unfolding finish_response header_bytes cmif_out_header to_bytes
all-Headed r at token size buffer low fits =
    let a : Written at (cmif_out_header token) buffer =
      write-Written at (cmif_out_header token) buffer fits in
    let b : SpecialKept r a.after =
      write_special-SpecialKept r a.after (omega (arith, a.same_length)) in
    let head : List ℕ = header_bytes (response_header r size) in
    let c : Written 0 head b.after =
      write-Written 0 head b.after (omega (arith, a.same_length, b.same_length)) in
    record {
      done = c.after;
      made = rw (a.wrote, finish_response, b.wrote, c.wrote) refl;
      header = c.reads;
      special = λ e. c.behind 8 4 (omega arith) ∙ b.reads e;
      cmif = c.behind at 16 (omega arith) ∙ b.behind at 16 (omega arith) ∙ a.reads;
      kept =
          λ off n k. c.behind off n (omega arith) ∙ b.behind off n (omega arith) ∙ a.behind off n k;
      between = λ off n k l. c.behind off n (omega arith) ∙ b.behind off n k ∙ a.before off n l;
    }

-- The data moved from `src` to `dest`, or nothing to move.
record Moved (src dest n : ℕ) (out buffer : List ℕ) : Type 0 where
  after : List ℕ
  moved : move_data src dest n buffer ≡ some after
  same_length : length after ≡ length buffer
  reads : read dest n after ≡ some out

move_data-Moved :
    (src dest n : ℕ) (out buffer : List ℕ)
    → read src n buffer ≡ some out
    → length out ≡ n
    → dest + n ≤ length buffer
    → Moved src dest n out buffer
unfolding move_data read
move_data-Moved src dest zero [] buffer got len fits = record {
  after = buffer;
  moved = refl;
  same_length = refl;
  reads = rw (leb-le (dest + 0) (length buffer) fits) refl;
}
move_data-Moved src dest zero (x ∷ out) buffer got len fits = absurd (omega arith)
move_data-Moved src dest (suc n) out buffer got len fits =
    let w : Written dest out buffer = write-Written dest out buffer (omega arith) in
    record {
      after = w.after;
      moved = rw (ltb-lt 0 (suc n) (omega arith), move_data, got) w.wrote;
      same_length = w.same_length;
      reads = ap (λ (k : ℕ). read dest k w.after) (sym len) ∙ w.reads;
    }

-- The reserved space: nothing, or the special header with one handle.
unfoldable pub Standard : Reserved → Type 0
Standard r = (r.raw_off ≡ 8) ⊎ (r.raw_off ≡ 16)

aligned : (r : Reserved) → Standard r → calc_cmif_align r.raw_off ≡ 16
unfolding Standard calc_cmif_align
aligned r (inl e) = omega (arith, e)
aligned r (inr e) = omega (arith, e)

plain_at : (r : Reserved) → Standard r → cmif_at false r ≡ 16
unfolding cmif_at
plain_at r std = omega (arith, aligned r std)

plain_end : (r : Reserved) (n : ℕ) → Standard r → data_end false r n [] ≡ 32 + n
unfolding data_end
plain_end r n std = omega (arith, plain_at r std)

plain_size : (r : Reserved) (n : ℕ) → Standard r → r.raw_off + (32 + n - r.raw_off) ≡ 32 + n
unfolding Standard
plain_size r n (inl e) = omega (arith, e)
plain_size r n (inr e) = omega (arith, e)

build_at-moved :
    (r : Reserved) (at stop n token : ℕ) (after buffer : List ℕ)
    → move_data r.raw_off (at + 16) n buffer ≡ some after
    → build_at false r at stop n [] token buffer
      ≡ finish_response r at token (stop - r.raw_off) after
unfolding build_at write_domain
build_at-moved r at stop n token after buffer moved =
    ap
      (λ (o : Option (List ℕ)).
        o >>= λ listed. finish_response r at token (stop - r.raw_off) listed)
      moved

-- A plain response as the client reads it.
pub record Plain (r : Reserved) (n token : ℕ) (out buffer : List ℕ) : Type 0 where
  pub done : List ℕ
  pub built : build_response false r n [] token buffer ≡ some (done, 32 + n)
  pub header : read 0 8 done ≡ some (header_bytes (response_header r (32 + n - r.raw_off)))
  pub special : r.special ≡ true → read 8 4 done ≡ some (special_header r)
  pub cmif : read 16 16 done ≡ some (cmif_out_header token)
  pub data_kept : read 32 n done ≡ some out

-- A response outside a domain, in a buffer with room for 32 bytes and the service's output: the
-- client finds the message header at 0 with the number of data words, the special header at 8 if
-- there is one, the `CmifOutHeader` with the request's token at 16, and at 32 the bytes that the
-- service wrote; the size reported is 32 and the output's.
pub build_response-Plain :
    (r : Reserved) (n token : ℕ) (out buffer : List ℕ)
    → Standard r
    → read r.raw_off n buffer ≡ some out
    → length out ≡ n
    → 32 + n ≤ length buffer
    → Plain r n token out buffer
unfolding build_response
build_response-Plain r n token out buffer std got len fits =
    let m : Moved r.raw_off 32 n out buffer =
      move_data-Moved r.raw_off 32 n out buffer got len fits in
    let h : Headed r 16 token (32 + n - r.raw_off) m.after =
      all-Headed r 16 token (32 + n - r.raw_off) m.after (omega arith)
        (omega (arith, m.same_length)) in
    record {
      done = h.done;
      built =
          ap (λ (at : ℕ). build_at false r at (data_end false r n []) n [] token buffer)
            (plain_at r std)
          ∙ ap (λ (stop : ℕ). build_at false r 16 stop n [] token buffer) (plain_end r n std)
          ∙ build_at-moved r 16 (32 + n) n token m.after buffer m.moved
          ∙ h.made
          ∙ ap (λ (k : ℕ). some (h.done, k)) (plain_size r n std);
      header = h.header;
      special = h.special;
      cmif = h.cmif;
      data_kept = h.kept 32 n (omega arith) ∙ m.reads;
    }

move_data-none :
    (src dest n : ℕ) (out buffer : List ℕ)
    → 0 < n
    → read src n buffer ≡ some out
    → length out ≡ n
    → length buffer < dest + n
    → move_data src dest n buffer ≡ none
unfolding move_data
move_data-none src dest n out buffer pos got len h =
    rw (ltb-lt 0 n pos, move_data, got) (write-none dest out buffer (omega arith))

build_at-none :
    (r : Reserved) (at stop n token : ℕ) (buffer : List ℕ)
    → move_data r.raw_off (at + 16) n buffer ≡ none
    → build_at false r at stop n [] token buffer ≡ none
unfolding build_at write_domain
build_at-none r at stop n token buffer none_moved =
    ap
      (λ (o : Option (List ℕ)). o >>= λ moved.
        some moved >>= λ listed. finish_response r at token (stop - r.raw_off) listed)
      none_moved

-- A service may fill all the room that it is offered, up to the end of the buffer; outside a domain
-- the response to a command whose output is not empty and leaves less than 32 bytes of the buffer
-- over is written past the buffer's end.
pub build_response-overflow :
    (r : Reserved) (n token : ℕ) (out buffer : List ℕ)
    → Standard r
    → 0 < n
    → read r.raw_off n buffer ≡ some out
    → length out ≡ n
    → length buffer < 32 + n
    → build_response false r n [] token buffer ≡ none
unfolding build_response
build_response-overflow r n token out buffer std pos got len h =
    ap (λ (at : ℕ). build_at false r at (data_end false r n []) n [] token buffer) (plain_at r std)
    ∙ build_at-none r 16 (data_end false r n []) n token buffer
        (move_data-none r.raw_off 32 n out buffer pos got len h)
