-- ===== src/Nv/Submit.antt =====
-- services/Nv.cpp, HandleSubmitGpfifo with gpu/StateTracker.cpp: from the guest's memory to the queue of
-- draws.
use m1switch.Base.{
  ℕ, suc, ◌+◌, ◌*◌, ◌%◌, ◌≤◌, ◌<◌, ltb, ltb-lt, ltb-ge, leb-le, ==_ne, if◌then◌else◌, ◌≢◌, ◌≡◌,
  refl, ap, ◌∙◌, List, [], ◌∷◌, some, length, get_or, arith,
}
use m1switch.Base.Bits.{u32_mod, u64_mod}
use m1switch.Base.Bytes.{of_bytes, u32_at}
use m1switch.Memory.{Memory, addr_space_size, is_valid}
use m1switch.Memory.Access.{read_u32}
use m1switch.Gpu.Fifo.Stream.{Command, AllValid, encode, writes, process-encode}
use m1switch.Gpu.Tracker.{Tracker, push_buffer, run_calls}
use m1switch.Gpu.Tracker.Queue.{IsValid, count_draws, Pushed, push_buffer-Pushed, push_buffer-run}
use m1switch.Service.{Reply, reply_u64}
use m1switch.Nv.Channel.{Syncpoints, read_words, submit_words, handle_submit_gpfifo}

module _ {ℓ} {Host : Type ℓ} (load : ℕ → Host → ℕ) where
  -- The guest's memory holds the words at an address.
  unfoldable pub Holds : ℕ → List ℕ → Memory Host → Type 0
  Holds addr words m =
      (j : ℕ)
      → j < length words
      → load ((m.base_addr + (addr + j * 4)) % u64_mod) m.host % u32_mod ≡ get_or words j 0

  read_u32-inside :
      (addr : ℕ) (m : Memory Host)
      → addr + 4 ≤ addr_space_size
      → read_u32 load (addr % u64_mod) m
        ≡ some (load ((m.base_addr + addr) % u64_mod) m.host % u32_mod)
  unfolding read_u32 is_valid
  read_u32-inside addr m h =
      let flat : addr % u64_mod ≡ addr = omega arith in
      rw
        (
          flat,
          ltb-lt addr addr_space_size (omega arith),
          ltb-ge addr_space_size ((addr + 4) % u64_mod) (omega arith),
        )
        refl

  -- The loop reads the words that the memory holds.
  read_words-Holds :
      (words : List ℕ) (addr i : ℕ) (m : Memory Host)
      → addr + (i + length words) * 4 ≤ addr_space_size
      → ((j : ℕ)
          → j < length words
          → load ((m.base_addr + (addr + (i + j) * 4)) % u64_mod) m.host % u32_mod
            ≡ get_or words j 0)
      → read_words load addr i (length words) m ≡ words
  unfolding read_words
  read_words-Holds [] addr i m h held = refl
  read_words-Holds (w ∷ words) addr i m h held =
      let first : load ((m.base_addr + (addr + i * 4)) % u64_mod) m.host % u32_mod ≡ w =
        ap (λ (t : ℕ). load ((m.base_addr + (addr + t * 4)) % u64_mod) m.host % u32_mod)
          (omega arith)
        ∙ held 0 (omega arith) in
      let rest : read_words load addr (suc i) (length words) m ≡ words =
        read_words-Holds words addr (suc i) m (omega arith) (λ j below.
          ap (λ (t : ℕ). load ((m.base_addr + (addr + t * 4)) % u64_mod) m.host % u32_mod)
            (omega arith)
          ∙ held (suc j) (omega arith)) in
      rw (read_u32-inside (addr + i * 4) m (omega arith), read_words, first, rest) refl

  submit_words-push :
      (addr n room pos : ℕ) (m : Memory Host) (t t' : Tracker) (s : Syncpoints) (words : List ℕ)
      → read_words load addr 0 (if ltb 65536 n then 65536 else n) m ≡ words
      → push_buffer words t ≡ some (pos, t')
      → 8 ≤ room
      → submit_words load addr n room m t s
        ≡ some (
          reply_u64 room (s.counter * u32_mod),
          t',
          record s { counter = (s.counter + 1) % u32_mod },
        )
  unfolding submit_words
  submit_words-push addr n room pos m t t' s words read pushed h =
      rw (read, pushed, submit_words, leb-le 8 room h) refl

  -- What `HandleSubmitGpfifo` does with a full request.
  submit-full :
      (inp : List ℕ) (room : ℕ) (m : Memory Host) (t t' : Tracker) (s s' : Syncpoints)
      (reply : Reply)
      → 16 ≤ length inp
      → u32_at 8 inp ≢ 0
      → submit_words load (of_bytes 8 inp) (u32_at 8 inp) room m t s ≡ some (reply, t', s')
      → handle_submit_gpfifo load inp room (some m) (some t) s ≡ some (reply, some t', s')
  unfolding handle_submit_gpfifo
  submit-full inp room m t t' s s' reply long some_words done =
      rw
        (ltb-ge (length inp) 16 long, handle_submit_gpfifo, ==_ne (u32_at 8 inp) 0 some_words, done)
        refl

  -- A submission of whole commands that the guest's memory holds: at most 65536 words, inside the
  -- address space, whose fields fit and none of which is a host-channel method on subchannel 0. From
  -- a valid tracker exactly the commands' method writes are executed, in order; one draw is queued
  -- for each write of a count register to the 3D engine; the answer holds sync point 0 and the value
  -- of the counter, which goes up by one.
  pub submit-encode :
      (inp : List ℕ) (room : ℕ) (m : Memory Host) (t : Tracker) (s : Syncpoints) (cs : List Command)
      → 16 ≤ length inp
      → u32_at 8 inp ≡ length (encode cs)
      → 0 < length (encode cs)
      → length (encode cs) ≤ 65536
      → of_bytes 8 inp + length (encode cs) * 4 ≤ addr_space_size
      → Holds (of_bytes 8 inp) (encode cs) m
      → AllValid cs
      → IsValid t
      → 8 ≤ room
      → (t' : Tracker) × (run_calls (writes cs) t ≡ some t')
        × (handle_submit_gpfifo load inp room (some m) (some t) s
            ≡ some (
              reply_u64 room (s.counter * u32_mod),
              some t',
              record s { counter = (s.counter + 1) % u32_mod },
            ))
        × (length t'.draw_queue ≡ length t.draw_queue + count_draws t.engines (writes cs))
  unfolding Holds
  submit-encode inp room m t s cs long counted nonzero few inside held v ok h =
      let p : Pushed t (encode cs) = push_buffer-Pushed (encode cs) t ok in
      let same : (p.pos ≡ length (encode cs)) × (p.calls ≡ writes cs) =
        (cc (p.parsed, process-encode cs v), cc (p.parsed, process-encode cs v)) in
      let cap : (if ltb 65536 (u32_at 8 inp) then 65536 else u32_at 8 inp) ≡ length (encode cs) =
        rw (ltb-ge 65536 (u32_at 8 inp) (omega (arith, counted))) counted in
      let read : read_words load (of_bytes 8 inp) 0
            (if ltb 65536 (u32_at 8 inp) then 65536 else u32_at 8 inp) m
          ≡ encode cs =
        ap (λ (n : ℕ). read_words load (of_bytes 8 inp) 0 n m) cap
        ∙ read_words-Holds (encode cs) (of_bytes 8 inp) 0 m (omega arith) (λ j below.
          ap (λ (k : ℕ). load ((m.base_addr + (of_bytes 8 inp + k * 4)) % u64_mod) m.host % u32_mod)
            (omega arith)
          ∙ held j below) in
      (
        p.after,
        push_buffer-run (encode cs) t p.after (length (encode cs)) p.pos (writes cs)
            (process-encode cs v) p.pushed,
        submit-full inp room m t p.after s (record s { counter = (s.counter + 1) % u32_mod })
            (reply_u64 room (s.counter * u32_mod)) long (λ z. omega (arith, z, counted))
            (submit_words-push (of_bytes 8 inp) (u32_at 8 inp) room p.pos m t p.after s (encode cs)
              read p.pushed h),
        p.counted ∙ ap (λ c. length t.draw_queue + count_draws t.engines c) same.1,
      )
