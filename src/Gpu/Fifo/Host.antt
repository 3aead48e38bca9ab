-- ===== src/Gpu/Fifo/Host.antt =====
-- Host-channel methods, which `GpfifoHandler::Handle` takes out of the stream.
use mathlib.Core.Option
use m1switch.Base.{
  ℕ, zero, suc, ◌+◌, ◌%◌, ◌^◌, ◌≡◌, refl, sym, ◌∙◌, true, List, [], ◌∷◌, Option, none, some, arith,
  length, drop,
}
use m1switch.Gpu.Fifo.{
  make_header, get_method, get_subchannel, handle, Call, Step, stop, advance, by_mode, decode_step,
  after, process_from, process,
}
use m1switch.Gpu.Fifo.Header.{get-make_header}
use m1switch.Gpu.Fifo.Stream.{after-nil}

-- One word more in front moves every position on by one.
abbrev pub later : ℕ × List Call → ℕ × List Call
later (p, calls) = (suc p, calls)

decode_step-later :
    (size pos header : ℕ) (rest : List ℕ)
    → decode_step (suc size) (suc pos) header rest ≡ decode_step size pos header rest
unfolding decode_step by_mode
decode_step-later size pos header rest = ground arith

later-after :
    (calls : List Call) (r : Option (ℕ × List Call))
    → after calls (Option.map later r) ≡ Option.map later (after calls r)
unfolding after
later-after calls none = refl
later-after calls (some (p, more)) = refl

process_from-later :
    (fuel size pos : ℕ) (words : List ℕ)
    → process_from fuel (suc size) (suc pos) words
      ≡ Option.map later (process_from fuel size pos words)
unfolding process_from
process_from-later zero size pos words = refl
process_from-later (suc fuel) size pos [] = refl
process_from-later (suc fuel) size pos (header ∷ rest) =
    go (decode_step size pos header rest) refl
      λ n. process_from-later fuel size (pos + 1 + n) (drop n rest)
  where
    go :
        (st : Step)
        → decode_step size pos header rest ≡ st
        → ((n : ℕ)
            → process_from fuel (suc size) (suc (pos + 1 + n)) (drop n rest)
              ≡ Option.map later (process_from fuel size (pos + 1 + n) (drop n rest)))
        → process_from (suc fuel) (suc size) (suc pos) (header ∷ rest)
          ≡ Option.map later (process_from (suc fuel) size pos (header ∷ rest))
    go stop e ih = rw (decode_step-later size pos header rest, e, process_from)
    go (advance n calls) e ih =
        let ahead : suc pos + 1 + n ≡ suc (pos + 1 + n) = omega arith in
        rw (decode_step-later size pos header rest, e, process_from, ahead, ih n)
          (later-after calls (process_from fuel size (pos + 1 + n) (drop n rest)))

decode_step-host :
    (mode method arg size pos : ℕ) (rest : List ℕ)
    → handle (method % 2 ^ 13) ≡ true
    → decode_step size pos (make_header mode method arg 0) rest ≡ advance 0 []
unfolding decode_step
decode_step-host mode method arg size pos rest h = rw (own_method, own_subch, h, decode_step)
  where
    own_method : get_method (make_header mode method arg 0) ≡ method % 2 ^ 13
    own_method = omega (arith, get-make_header mode method arg 0)

    own_subch : get_subchannel (make_header mode method arg 0) ≡ 0
    own_subch = omega (arith, get-make_header mode method arg 0)

-- A host-channel method on subchannel 0 takes its header only, in every mode: the words behind
-- it, which its count announces as arguments, are read as headers.
pub process-host :
    (mode method arg : ℕ) (rest : List ℕ)
    → handle (method % 2 ^ 13) ≡ true
    → process (make_header mode method arg 0 ∷ rest) ≡ Option.map later (process rest)
unfolding process_from process
process-host mode method arg rest h =
    rw (decode_step-host mode method arg (suc (length rest)) 0 rest h, process_from)
      (sym (after-nil _) ∙ process_from-later (suc (length rest)) (length rest) 0 rest)
