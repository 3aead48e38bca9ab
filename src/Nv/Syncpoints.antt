-- ===== src/Nv/Syncpoints.antt =====
-- Sync points of services/Nv.cpp: NvHostCtrlService and the fences of HandleSubmitGpfifo.
use m1switch.Base.{
  ℕ, ◌+◌, ◌*◌, ◌-◌, ◌<◌, replicate, true, false, ◌==◌, ltb, leb, ltb-true, Bool-cases, if_all,
  if◌then◌else◌, ◌≡◌, refl, ap, subst, ◌∙◌, inl, inr, List, [], ◌∷◌, Option, none, some,
  some-injective, ◌>>=◌, length, arith, get_elem?, get_elem?-replicate, replace_at,
  replace_at-replicate,
}
use m1switch.Base.Bits.{u32_mod}
use m1switch.Base.Bytes.{of_bytes, u32_at}
use m1switch.Memory.{Memory}
use m1switch.Gpu.Tracker.{Tracker, init}
use m1switch.Gpu.Tracker.Queue.{IsValid, init-IsValid, Pushed, push_buffer-Pushed}
use m1switch.Service.{Reply, reply_u32, reply_u64}
use m1switch.Nv.Map.{arg}
use m1switch.Nv.Channel.{
  Syncpoints, new_syncpoints, max_syncpt, syncpt_value, handle_syncpt_alloc, handle_syncpt_read,
  handle_syncpt_read_ex, answer_read, fetch_add, ctrl_command, read_words, submit_words,
  handle_submit_gpfifo,
}

-- The array has its 24 values, and each of them is 0.
unfoldable Idle : Syncpoints → Type 0
Idle s = s.value ≡ replicate max_syncpt 0

module _ {ℓ} {Host : Type ℓ} (load : ℕ → Host → ℕ) where
  -- A call of nvhost-ctrl, or a submission with the guest memory as it then is.
  pub data GpuCall : Type ℓ where
    control : (cmd : ℕ) (inp : List ℕ) (room : ℕ) → GpuCall
    submit : (inp : List ℕ) (room : ℕ) → Option (Memory Host) → GpuCall

  unfoldable pub perform_gpu :
      GpuCall → Option Tracker × Syncpoints → Option (Option Tracker × Syncpoints)
  unfolding ctrl_command handle_submit_gpfifo
  perform_gpu (control cmd inp room) (t, s) = elim (ctrl_command cmd inp room s) [
    | none ↦ none
    | some (reply, s') ↦ some (t, s')
  ]
  perform_gpu (submit inp room memory) (t, s) =
      elim (handle_submit_gpfifo load inp room memory t s) [
        | none ↦ none
        | some (reply, t', s') ↦ some (t', s')
      ]

  unfoldable pub run_gpu :
      List GpuCall → Option Tracker × Syncpoints → Option (Option Tracker × Syncpoints)
  unfolding perform_gpu
  run_gpu [] state = some state
  run_gpu (c ∷ cs) state = elim (perform_gpu c state) [ none ↦ none | some next ↦ run_gpu cs next ]

-- A tracker that is set is valid, and the sync points are idle.
unfoldable Fine : Option Tracker × Syncpoints → Type 0
Fine (t, s) = ((u : Tracker) → t ≡ some u → IsValid u) × Idle s

clamped : (n : ℕ) → (if leb max_syncpt n then max_syncpt - 1 else n) < max_syncpt
clamped n = ground arith

-- A command that is defined, and leaves idle sync points.
unfoldable RanControl : Option (Reply × Syncpoints) → Type 0
RanControl none = false ≡ true
RanControl (some (reply, s)) = Idle s

stored-Idle :
    (s : Syncpoints) (id : ℕ)
    → id < max_syncpt
    → Idle s
    → replace_at s.value id 0 ≡ some (replicate max_syncpt 0)
unfolding Idle
stored-Idle s id h idle =
    ap (λ (v : List ℕ). replace_at v id 0) idle ∙ replace_at-replicate max_syncpt id 0 h

alloc-RanControl : (room : ℕ) (s : Syncpoints) → Idle s → RanControl (handle_syncpt_alloc room s)
unfolding RanControl handle_syncpt_alloc fetch_add Idle
alloc-RanControl room s idle =
    rw
      (stored-Idle s (if leb max_syncpt s.counter then max_syncpt - 1 else s.counter)
        (clamped s.counter) idle)
      refl

value-Idle : (id : ℕ) (s : Syncpoints) → Idle s → syncpt_value id s ≡ some 0
unfolding syncpt_value Idle
value-Idle id s idle = elim (Bool-cases (ltb id max_syncpt)) [
  | inl h ↦ rw (h) (
      ap (λ (v : List ℕ). get_elem? v id) idle
      ∙ get_elem?-replicate max_syncpt id 0 (ltb-true id max_syncpt h))
  | inr h ↦ rw (h) refl
]

read-Idle :
    (inp : List ℕ) (room : ℕ) (s : Syncpoints)
    → Idle s
    → handle_syncpt_read inp room s ≡ some (reply_u32 room 0)
unfolding handle_syncpt_read
read-Idle inp room s idle =
    ap (λ (o : Option ℕ). o >>= λ value. some (reply_u32 room value))
      (value-Idle (arg 4 0 inp) s idle)

read_ex-Idle :
    (inp : List ℕ) (room : ℕ) (s : Syncpoints)
    → Idle s
    → handle_syncpt_read_ex inp room s ≡ some (reply_u64 room (arg 4 0 inp * u32_mod))
unfolding handle_syncpt_read_ex
read_ex-Idle inp room s idle =
    ap (λ (o : Option ℕ). o >>= λ value. some (reply_u64 room (value + arg 4 0 inp * u32_mod)))
      (value-Idle (arg 4 0 inp) s idle)
    ∙ ap (λ (v : ℕ). some (reply_u64 room v)) (omega arith)

answer-RanControl :
    (o : Option Reply) (reply : Reply) (s : Syncpoints)
    → o ≡ some reply
    → Idle s
    → RanControl (answer_read o s)
unfolding answer_read RanControl
answer-RanControl o reply s e idle = rw (e) idle

control-RanControl :
    (cmd : ℕ) (inp : List ℕ) (room : ℕ) (s : Syncpoints)
    → Idle s
    → RanControl (ctrl_command cmd inp room s)
unfolding ctrl_command RanControl
control-RanControl cmd inp room s h =
    if_all RanControl (cmd == 0x400C_0001) (alloc-RanControl room s h) (
      if_all RanControl (cmd == 0x8008_0004)
        (answer-RanControl _ (reply_u32 room 0) s (read-Idle inp room s h) h)
        (if_all RanControl (cmd == 0xC008_0005)
          (answer-RanControl _ (reply_u64 room (arg 4 0 inp * u32_mod)) s
            (read_ex-Idle inp room s h) h)
          h))

-- An outcome that is defined, and fine.
unfoldable Ran : Option (Reply × Option Tracker × Syncpoints) → Type 0
Ran none = false ≡ true
Ran (some (reply, t, s)) = Fine (t, s)

unfoldable RanWords : Option (Reply × Tracker × Syncpoints) → Type 0
RanWords none = false ≡ true
RanWords (some (reply, t, s)) = IsValid t × Idle s

Fine-some : (t : Tracker) (s : Syncpoints) → IsValid t → Idle s → Fine (some t, s)
unfolding Fine
Fine-some t s ok h = (λ u e. subst IsValid (some-injective t u e) ok, h)

RanWords-Ran :
    (r : Option (Reply × Tracker × Syncpoints))
    → RanWords r
    → Ran (elim r [ none ↦ none | some (reply, t, s) ↦ some (reply, some t, s) ])
unfolding RanWords Ran
RanWords-Ran none bad = bad
RanWords-Ran (some (reply, t, s)) (ok, idle) = Fine-some t s ok idle

-- What is left after calls, which is defined and fine.
unfoldable Kept : Option (Option Tracker × Syncpoints) → Type 0
Kept none = false ≡ true
Kept (some state) = Fine state

Ran-Kept :
    (r : Option (Reply × Option Tracker × Syncpoints))
    → Ran r
    → Kept (elim r [ none ↦ none | some (reply, t, s) ↦ some (t, s) ])
unfolding Ran Kept
Ran-Kept none bad = bad
Ran-Kept (some (reply, t, s)) fine = fine

Kept-then :
    (r : Option (Option Tracker × Syncpoints))
    (f : Option Tracker × Syncpoints → Option (Option Tracker × Syncpoints))
    → Kept r
    → ((state : Option Tracker × Syncpoints) → Fine state → Kept (f state))
    → Kept (elim r [ none ↦ none | some state ↦ f state ])
unfolding Kept
Kept-then none f bad next = bad
Kept-then (some state) f fine next = next state fine

Kept-some :
    (r : Option (Option Tracker × Syncpoints))
    → Kept r
    → (t : Option Tracker) × (s : Syncpoints) × (r ≡ some (t, s)) × Idle s
unfolding Kept Fine
Kept-some none bad = cc
Kept-some (some (t, s)) (ok, idle) = (t, s, refl, idle)

RanControl-Kept :
    (t : Option Tracker) (r : Option (Reply × Syncpoints))
    → ((u : Tracker) → t ≡ some u → IsValid u)
    → RanControl r
    → Kept (elim r [ none ↦ none | some (reply, s) ↦ some (t, s) ])
unfolding RanControl Kept Fine
RanControl-Kept t none ok bad = bad
RanControl-Kept t (some (reply, s)) ok idle = (ok, idle)

module _ {ℓ} {Host : Type ℓ} (load : ℕ → Host → ℕ) where
  submit_words-Ran :
      (addr n room : ℕ) (m : Memory Host) (t : Tracker) (s : Syncpoints)
      → IsValid t
      → Idle s
      → RanWords (submit_words load addr n room m t s)
  unfolding RanWords submit_words Idle
  submit_words-Ran addr n room m t s ok h =
      let words : List ℕ = read_words load addr 0 (if ltb 65536 n then 65536 else n) m in
      let p : Pushed t words = push_buffer-Pushed words t ok in
      let P : Reply × Tracker × Syncpoints → Type 0 = λ r. RanWords (some r) in
      rw (p.pushed, submit_words) (if_all P (leb 8 room) (p.valid, h) (p.valid, h))

  submit-Ran :
      (inp : List ℕ) (room : ℕ) (memory : Option (Memory Host)) (t : Option Tracker)
      (s : Syncpoints)
      → Fine (t, s)
      → Ran (handle_submit_gpfifo load inp room memory t s)
  unfolding handle_submit_gpfifo Ran Fine
  submit-Ran inp room none t s h = if_all Ran (ltb (length inp) 16) h h
  submit-Ran inp room (some m) none s h = if_all Ran (ltb (length inp) 16) h h
  submit-Ran inp room (some m) (some t) s h = if_all Ran (ltb (length inp) 16) h (
      if_all Ran (u32_at 8 inp == 0) h (
        RanWords-Ran (submit_words load (of_bytes 8 inp) (u32_at 8 inp) room m t s)
          (submit_words-Ran (of_bytes 8 inp) (u32_at 8 inp) room m t s (h.0 t refl) h.1)))

  perform-Kept :
      (c : GpuCall load) (state : Option Tracker × Syncpoints)
      → Fine state
      → Kept (perform_gpu load c state)
  unfolding perform_gpu Kept Fine
  perform-Kept (control cmd inp room) (t, s) h =
      RanControl-Kept t (ctrl_command cmd inp room s) h.0 (control-RanControl cmd inp room s h.1)
  perform-Kept (submit inp room memory) (t, s) h =
      Ran-Kept (handle_submit_gpfifo load inp room memory t s) (submit-Ran inp room memory t s h)

  run-Kept :
      (cs : List (GpuCall load)) (state : Option Tracker × Syncpoints)
      → Fine state
      → Kept (run_gpu load cs state)
  unfolding run_gpu Kept
  run-Kept [] state h = h
  run-Kept (c ∷ cs) state h =
      Kept-then (perform_gpu load c state) (run_gpu load cs) (perform-Kept c state h)
        (λ next fine. run-Kept cs next fine)

  -- Any sequence of nvhost-ctrl commands and pushbuffer submissions from the start, with any input
  -- and any guest memory, stays inside the array of sync points and is defined, and afterwards
  -- SyncptRead of any id answers 0, and SyncptReadEx the value 0 and the id.
  pub run-idle :
      (cs : List (GpuCall load))
      → (t : Option Tracker) × (s : Syncpoints) × (run_gpu load cs (some init, new_syncpoints)
          ≡ some (t, s))
        × ((inp : List ℕ) (room : ℕ) → handle_syncpt_read inp room s ≡ some (reply_u32 room 0))
        × ((inp : List ℕ) (room : ℕ)
            → handle_syncpt_read_ex inp room s ≡ some (reply_u64 room (arg 4 0 inp * u32_mod)))
  unfolding new_syncpoints Fine Idle
  run-idle cs =
      let (t, s, ran, idle) = Kept-some (run_gpu load cs (some init, new_syncpoints)) (
        run-Kept cs (some init, new_syncpoints)
          (Fine-some init new_syncpoints init-IsValid refl)) in
      (
        t,
        s,
        ran,
        (λ inp room. read-Idle inp room s idle),
        (λ inp room. read_ex-Idle inp room s idle),
      )
