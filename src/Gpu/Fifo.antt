-- ===== src/Gpu/Fifo.antt =====
-- gpu/engine/GPFifo.h and GPFifo.cpp: the pushbuffer parser. The calls of `callback_` are logged
-- in order, since the parser never reads what the callback changes.
pub mod Header
pub mod Progress
pub mod Stream
pub mod Host
use m1switch.Base.{
  ℕ, zero, suc, ◌+◌, ◌*◌, ◌/◌, ◌%◌, ◌^◌, Bool, true, false, ◌&&◌, ◌||◌, ◌==◌, ltb, if◌then◌else◌,
  List, [], ◌∷◌, ◌++◌, Option, none, some, length, take, drop, get_or, modify, bit_or,
}

-- `GPFifo::Mode`; the numbers that no case names go to `unknown`.
pub data Mode : Type 0 where
  increasing non_increasing inline increase_once unknown : Mode

pub mode_of : ℕ → Mode
mode_of n =
    if n == 1
    then increasing
    else if n == 3
    then non_increasing
    else if n == 4
    then inline
    else if n == 5
    then increase_once
    else unknown

pub mode_code : Mode → ℕ
mode_code increasing = 1
mode_code non_increasing = 3
mode_code inline = 4
mode_code increase_once = 5
mode_code unknown = 0

-- `x & (2^n - 1)` is `x % 2^n`; the four fields are disjoint.
unfoldable pub make_header : ℕ → ℕ → ℕ → ℕ → ℕ
make_header mode method arg subch =
    bit_or (bit_or (bit_or (method % 2 ^ 13) (subch % 8 * 2 ^ 13)) (arg % 2 ^ 13 * 2 ^ 16))
      (mode % 8 * 2 ^ 29)

pub get_method : ℕ → ℕ
get_method header = header % 2 ^ 13

pub get_subchannel : ℕ → ℕ
get_subchannel header = header / 2 ^ 13 % 8

pub get_arg : ℕ → ℕ
get_arg header = header / 2 ^ 16 % 2 ^ 13

pub get_mode : ℕ → ℕ
get_mode header = header / 2 ^ 29 % 8

-- `GPFifo::EngineType`; the five engines of the enum.
pub data EngineType : Type 0 where
  engine_3d engine_2d engine_dma engine_inline engine_compute : EngineType

-- `subch_engines_`, as the class initialises it.
abbrev pub subch_engines : List EngineType
subch_engines =
    engine_3d ∷ engine_2d ∷ engine_dma ∷ engine_inline ∷ engine_compute ∷ engine_3d ∷ engine_3d
    ∷ engine_3d ∷ []

unfoldable pub get_engine : List EngineType → ℕ → EngineType
get_engine engines subch = if ltb subch 8 then get_or engines subch engine_3d else engine_3d

pub set_engine : List EngineType → ℕ → EngineType → List EngineType
set_engine engines subch type = if ltb subch 8 then modify engines subch (λ _. type) else engines

-- `GpfifoHandler::Handle`: the methods of the host channel.
unfoldable pub handle : ℕ → Bool
handle method =
    method == 0x4
    || method == 0x6
    || method == 0x7
    || method == 0x14
    || method == 0x1C
    || method == 0x1D

pub record Call : Type 0 where
  pub subch : ℕ
  pub method : ℕ
  pub value : ℕ

-- The loop of `Increasing` over its argument words. `method + i` stays far below 2^32.
pub increasing_calls : ℕ → ℕ → List ℕ → List Call
increasing_calls subch method [] = []
increasing_calls subch method (w ∷ ws) =
    record { subch = subch; method = method; value = w } ∷ increasing_calls subch (method + 1) ws

pub non_increasing_calls : ℕ → ℕ → List ℕ → List Call
non_increasing_calls subch method [] = []
non_increasing_calls subch method (w ∷ ws) =
    record { subch = subch; method = method; value = w } ∷ non_increasing_calls subch method ws

-- One round of the loop: return `pos`, or skip the header and `n` more words.
pub data Step : Type 0 where
  stop : Step
  advance : ℕ → List Call → Step

-- The list is `words[pos + 1 ..]`.
pub by_mode : Mode → ℕ → ℕ → ℕ → ℕ → ℕ → List ℕ → Step
by_mode increasing size pos subch method arg rest =
    if ltb size (pos + 1 + arg)
    then stop
    else advance arg (increasing_calls subch method (take arg rest))
by_mode non_increasing size pos subch method arg rest =
    if ltb size (pos + 1 + arg)
    then stop
    else advance arg (non_increasing_calls subch method (take arg rest))
by_mode inline size pos subch method arg rest =
    advance 0 (record { subch = subch; method = method; value = arg } ∷ [])
by_mode increase_once size pos subch method arg rest =
    if ltb size (pos + 2)
    then stop
    else advance 1 (record { subch = subch; method = method; value = get_or rest 0 0 } ∷ [])
by_mode unknown size pos subch method arg rest = advance 0 []

pub decode_step : ℕ → ℕ → ℕ → List ℕ → Step
decode_step size pos header rest =
    if get_subchannel header == 0 && handle (get_method header)
    then advance 0 []
    else by_mode (mode_of (get_mode header)) size pos (get_subchannel header) (get_method header)
        (get_arg header) rest

pub after : List Call → Option (ℕ × List Call) → Option (ℕ × List Call)
after calls none = none
after calls (some (pos, more)) = some (pos, calls ++ more)

-- The loop of `Process` from `pos` on, with the words that are left; `none`: out of fuel.
pub process_from : ℕ → ℕ → ℕ → List ℕ → Option (ℕ × List Call)
process_from zero size pos words = none
process_from (suc fuel) size pos [] = some (pos, [])
process_from (suc fuel) size pos (header ∷ rest) = elim (decode_step size pos header rest) [
  | stop ↦ some (pos, [])
  | advance n calls ↦ after calls (process_from fuel size (pos + 1 + n) (drop n rest))
]

-- `GPFifo::Process`: the words consumed, and the method writes.
unfoldable pub process : List ℕ → Option (ℕ × List Call)
unfolding process_from after decode_step by_mode increasing_calls non_increasing_calls mode_of
    get_method get_subchannel get_arg get_mode handle
process words = process_from (suc (length words)) (length words) 0 words

-- `ProcessEntry` treats the pair as an inline command on subchannel 0.
pub process_entry : ℕ → ℕ → List Call
process_entry method arg = record { subch = 0; method = method; value = arg } ∷ []
