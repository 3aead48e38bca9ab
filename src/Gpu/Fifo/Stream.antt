-- ===== src/Gpu/Fifo/Stream.antt =====
-- What a pushbuffer of commands means: the parser against an encoder of commands.
use mathlib.Core.List.{append-nil, append_assoc}
use native.Mathlib.Nat.{zero-add, add-zero}
use m1switch.Base.{
  ℕ, suc, ◌+◌, ◌-◌, ◌^◌, ◌≤◌, ◌<◌, ◌≡◌, refl, ap, ◌∙◌, false, ◌&&◌, ◌==◌, if◌then◌else◌, List, [],
  ◌∷◌, ◌++◌, Option, none, some, arith, length, length-append, take-length_append,
  drop-length_append,
}
use m1switch.Gpu.Fifo.{
  mode_of, make_header, get_method, get_subchannel, get_arg, get_mode, handle, Call, stop, advance,
  increasing_calls, non_increasing_calls, by_mode, decode_step, after, process_from, process,
}
use m1switch.Gpu.Fifo.Header.{get-make_header}

-- A command as a driver writes it.
pub data Command : Type 0 where
  increase : ℕ → ℕ → List ℕ → Command
  repeat : ℕ → ℕ → List ℕ → Command
  immediate : ℕ → ℕ → ℕ → Command
  once : ℕ → ℕ → ℕ → Command

unfoldable pub header_of : Command → ℕ
header_of (increase s m args) = make_header 1 m (length args) s
header_of (repeat s m args) = make_header 3 m (length args) s
header_of (immediate s m v) = make_header 4 m v s
header_of (once s m v) = make_header 5 m 1 s

abbrev pub payload : Command → List ℕ
payload (increase s m args) = args
payload (repeat s m args) = args
payload (immediate s m v) = []
payload (once s m v) = v ∷ []

abbrev pub encode : List Command → List ℕ
encode [] = []
encode (c ∷ cs) = header_of c ∷ (payload c ++ encode cs)

abbrev pub writes_of : Command → List Call
writes_of (increase s m args) = increasing_calls s m args
writes_of (repeat s m args) = non_increasing_calls s m args
writes_of (immediate s m v) = record { subch = s; method = m; value = v } ∷ []
writes_of (once s m v) = record { subch = s; method = m; value = v } ∷ []

abbrev pub writes : List Command → List Call
writes [] = []
writes (c ∷ cs) = writes_of c ++ writes cs

-- The fields fit the header, and the command is not one of the host channel.
abbrev pub Fits : ℕ → ℕ → ℕ → Type 0
Fits s m a = (s < 8) × (m < 2 ^ 13) × (a < 2 ^ 13) × ((s == 0 && handle m) ≡ false)

abbrev pub IsValid : Command → Type 0
IsValid (increase s m args) = Fits s m (length args)
IsValid (repeat s m args) = Fits s m (length args)
IsValid (immediate s m v) = Fits s m v
IsValid (once s m v) = Fits s m 1

abbrev pub AllValid : List Command → Type 0
AllValid [] = Unit {0}
AllValid (c ∷ cs) = IsValid c × AllValid cs

-- A header whose fields fit gives them back, so the round follows them.
decode_step-make_header :
    (mode s m a size pos : ℕ) (rest : List ℕ)
    → mode < 8
    → s < 8
    → m < 2 ^ 13
    → a < 2 ^ 13
    → decode_step size pos (make_header mode m a s) rest
      ≡ (if s == 0 && handle m then advance 0 [] else by_mode (mode_of mode) size pos s m a rest)
unfolding decode_step
decode_step-make_header mode s m a size pos rest hmode hs hm ha =
    rw (method, mode', arg, subch, decode_step)
  where
    h : ℕ
    h = make_header mode m a s

    method : get_method h ≡ m
    method = omega (arith, get-make_header mode m a s)

    mode' : get_mode h ≡ mode
    mode' = omega (arith, get-make_header mode m a s)

    arg : get_arg h ≡ a
    arg = omega (arith, get-make_header mode m a s)

    subch : get_subchannel h ≡ s
    subch = omega (arith, get-make_header mode m a s)

-- Reading a whole command gives its writes, and skips its payload.
decode_step-header_of :
    (c : Command) (size pos : ℕ) (tail : List ℕ)
    → IsValid c
    → pos + 1 + length (payload c) ≤ size
    → decode_step size pos (header_of c) (payload c ++ tail)
      ≡ advance (length (payload c)) (writes_of c)
unfolding header_of by_mode mode_of
decode_step-header_of (increase s m args) size pos tail (hs, hm, ha, own) h =
    rw
      (
        decode_step-make_header 1 s m (length args) size pos (args ++ tail) (omega arith) hs hm ha,
        own,
        take-length_append args tail,
      )
      (ground arith)
decode_step-header_of (repeat s m args) size pos tail (hs, hm, ha, own) h =
    rw
      (
        decode_step-make_header 3 s m (length args) size pos (args ++ tail) (omega arith) hs hm ha,
        own,
        take-length_append args tail,
      )
      (ground arith)
decode_step-header_of (immediate s m x) size pos tail (hs, hm, ha, own) h =
    rw (decode_step-make_header 4 s m x size pos tail (omega arith) hs hm ha, own)
decode_step-header_of (once s m x) size pos tail (hs, hm, ha, own) h =
    rw (decode_step-make_header 5 s m 1 size pos (x ∷ tail) (omega arith) hs hm ha, own)
      (ground arith)

-- One whole command takes one round.
process_from-header_of :
    (c : Command) (fuel size pos : ℕ) (tail : List ℕ)
    → IsValid c
    → pos + 1 + length (payload c) ≤ size
    → process_from (suc fuel) size pos (header_of c ∷ (payload c ++ tail))
      ≡ after (writes_of c) (process_from fuel size (pos + 1 + length (payload c)) tail)
unfolding process_from
process_from-header_of c fuel size pos tail v h =
    rw
      (decode_step-header_of c size pos tail v h, process_from, drop-length_append (payload c) tail)

pub after-nil : (r : Option (ℕ × List Call)) → r ≡ after [] r
unfolding after
after-nil none = refl
after-nil (some (p, zs)) = refl

after-after :
    (xs ys : List Call) (r : Option (ℕ × List Call)) → after xs (after ys r) ≡ after (xs ++ ys) r
unfolding after
after-after xs ys none = refl
after-after xs ys (some (p, zs)) = rw append_assoc

-- A stream of whole commands is read command by command, up to what follows it.
process_from-encode :
    (cs : List Command) (fuel size pos : ℕ) (tail : List ℕ)
    → AllValid cs
    → size ≡ pos + length (encode cs ++ tail)
    → process_from (length cs + fuel) size pos (encode cs ++ tail)
      ≡ after (writes cs) (process_from fuel size (pos + length (encode cs)) tail)
process_from-encode [] fuel size pos tail v e =
    rw (zero-add fuel, add-zero pos) (after-nil (process_from fuel size pos tail))
process_from-encode (c ∷ cs) fuel size pos tail v e = rw (
  one_more,
  append_assoc (payload c) (encode cs) tail,
  process_from-header_of c (length cs + fuel) size pos (encode cs ++ tail) v.0 room,
  process_from-encode cs fuel size (pos + 1 + length (payload c)) tail v.1 reached,
  after-after (writes_of c) (writes cs) _,
  landed,
)
  where
    one_more : suc (length cs) + fuel ≡ suc (length cs + fuel)
    one_more = omega arith

    room : pos + 1 + length (payload c) ≤ size
    room =
        omega (
          arith,
          length-append (payload c ++ encode cs) tail,
          length-append (payload c) (encode cs),
        )

    reached : size ≡ pos + 1 + length (payload c) + length (encode cs ++ tail)
    reached = omega (
      arith,
      length-append (payload c ++ encode cs) tail,
      length-append (payload c) (encode cs),
      length-append (encode cs) tail,
    )

    landed :
        pos + 1 + length (payload c) + length (encode cs)
        ≡ pos + suc (length (payload c ++ encode cs))
    landed = omega (arith, length-append (payload c) (encode cs))

-- More commands than words cannot stand in a stream.
length-encode-ge : (cs : List Command) → length cs ≤ length (encode cs)
length-encode-ge [] = omega arith
length-encode-ge (c ∷ cs) =
    omega (arith, length-append (payload c) (encode cs), length-encode-ge cs)

-- `Process` on whole commands and a tail goes on at the tail, with fuel left for it.
process-encode_append :
    (cs : List Command) (tail : List ℕ)
    → AllValid cs
    → process (encode cs ++ tail)
      ≡ after (writes cs) (
          process_from
            (suc (length (encode cs ++ tail) - length cs))
            (length (encode cs ++ tail))
            (length (encode cs))
            tail)
unfolding process
process-encode_append cs tail v =
    ap (λ (n : ℕ). process_from n (length (encode cs ++ tail)) 0 (encode cs ++ tail)) fuel
    ∙ process_from-encode cs _ (length (encode cs ++ tail)) 0 tail v (omega arith)
    ∙ rw (zero-add (length (encode cs)))
  where
    fuel :
        suc (length (encode cs ++ tail)) ≡ length cs + suc (length (encode cs ++ tail) - length cs)
    fuel = omega (arith, length-append (encode cs) tail, length-encode-ge cs)

-- `Process` on a buffer of whole commands, whose fields fit and none of which is a host-channel
-- method on subchannel 0, consumes it all and makes exactly the method writes of the commands, in
-- order.
pub process-encode :
    (cs : List Command) → AllValid cs → process (encode cs) ≡ some (length (encode cs), writes cs)
unfolding process_from after
process-encode cs v =
    rw (append-nil (encode cs), append-nil (writes cs)) at (process-encode_append cs [] v)

decode_step-cut :
    (c : Command) (size pos : ℕ) (part : List ℕ)
    → IsValid c
    → length part < length (payload c)
    → size ≡ pos + 1 + length part
    → decode_step size pos (header_of c) part ≡ stop
unfolding header_of by_mode mode_of
decode_step-cut (increase s m args) size pos part (hs, hm, ha, own) h e =
    rw (decode_step-make_header 1 s m (length args) size pos part (omega arith) hs hm ha, own)
      (ground arith)
decode_step-cut (repeat s m args) size pos part (hs, hm, ha, own) h e =
    rw (decode_step-make_header 3 s m (length args) size pos part (omega arith) hs hm ha, own)
      (ground arith)
decode_step-cut (immediate s m x) size pos part v h e = elim h [ ]
decode_step-cut (once s m x) size pos part (hs, hm, ha, own) h e =
    rw (decode_step-make_header 5 s m 1 size pos part (omega arith) hs hm ha, own) (ground arith)

-- After whole commands a command that is cut off stops the parse at its header: the writes before
-- it are made, none of its own is, and the position returned is that of its header.
pub process-encode_cut :
    (cs : List Command) (c : Command) (part : List ℕ)
    → AllValid cs
    → IsValid c
    → length part < length (payload c)
    → process (encode cs ++ header_of c ∷ part) ≡ some (length (encode cs), writes cs)
unfolding process_from after
process-encode_cut cs c part v w h =
    process-encode_append cs (header_of c ∷ part) v
    ∙ rw (
      decode_step-cut c (length (encode cs ++ header_of c ∷ part)) (length (encode cs)) part w h
          (omega (arith, length-append (encode cs) (header_of c ∷ part))),
      process_from,
      append-nil (writes cs),
    )
