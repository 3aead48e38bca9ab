-- ===== src/Gpu/Fifo/Progress.antt =====
-- The parse loop always ends, inside the buffer, with no more method writes than words.
use m1switch.Base.{
  ℕ, zero, suc, ◌+◌, ◌-◌, ◌≤◌, ◌<◌, ◌≡◌, refl, List, [], ◌∷◌, Option, none, some, arith, length,
  length-append, take, drop, length-take, length-drop,
}
use m1switch.Gpu.Fifo.{
  Mode, increasing, non_increasing, inline, increase_once, unknown, Call, Step, stop, advance,
  increasing_calls, non_increasing_calls, by_mode, decode_step, after, process_from, process,
}
use m1switch.Gpu.Fifo

pub length-increasing_calls : (s m : ℕ) (ws : List ℕ) → length (increasing_calls s m ws) ≡ length ws
unfolding increasing_calls
length-increasing_calls s m [] = refl
length-increasing_calls s m (w ∷ ws) = omega (arith, length-increasing_calls s (m + 1) ws)

pub length-non_increasing_calls :
    (s m : ℕ) (ws : List ℕ) → length (non_increasing_calls s m ws) ≡ length ws
unfolding non_increasing_calls
length-non_increasing_calls s m [] = refl
length-non_increasing_calls s m (w ∷ ws) = omega (arith, length-non_increasing_calls s m ws)

-- What a round may do with `n` words left behind its header.
abbrev pub IsBounded : ℕ → Step → Type 0
IsBounded n stop = Unit {0}
IsBounded n (advance k calls) = (k ≤ n) × (length calls ≤ k + 1)

by_mode-IsBounded :
    (mode : Mode) (size pos s m arg : ℕ) (rest : List ℕ)
    → size ≡ pos + 1 + length rest
    → IsBounded (length rest) (by_mode mode size pos s m arg rest)
unfolding by_mode
by_mode-IsBounded increasing size pos s m arg rest e =
    ground (arith, length-increasing_calls s m (take arg rest), length-take arg rest)
by_mode-IsBounded non_increasing size pos s m arg rest e =
    ground (arith, length-non_increasing_calls s m (take arg rest), length-take arg rest)
by_mode-IsBounded increase_once size pos s m arg rest e = ground arith
by_mode-IsBounded _ size pos s m arg rest e = omega arith

pub decode_step-IsBounded :
    (size pos header : ℕ) (rest : List ℕ)
    → size ≡ pos + 1 + length rest
    → IsBounded (length rest) (decode_step size pos header rest)
unfolding decode_step
decode_step-IsBounded size pos header rest e = ground (
  arith,
  by_mode-IsBounded (Fifo.mode_of (Fifo.get_mode header)) size pos (Fifo.get_subchannel header)
      (Fifo.get_method header) (Fifo.get_arg header) rest e,
)

-- The parse ends at `p`, from `pos` with `n` words left.
abbrev pub Ends : ℕ → ℕ → Option (ℕ × List Call) → Type 0
Ends pos n none = ⊥
Ends pos n (some (p, calls)) = (pos ≤ p) × (p ≤ pos + n) × (length calls ≤ p - pos)

after-Ends :
    (pos n k : ℕ) (calls : List Call) (r : Option (ℕ × List Call))
    → k ≤ n
    → length calls ≤ k + 1
    → Ends (pos + 1 + k) (n - k) r
    → Ends pos (suc n) (after calls r)
unfolding after
after-Ends pos n k calls none hk hc e = e
after-Ends pos n k calls (some (p, more)) hk hc e = omega (arith, length-append calls more)

-- One round, given its step.
round-Ends :
    (fuel size pos header : ℕ) (rest : List ℕ) (st : Step)
    → decode_step size pos header rest ≡ st
    → IsBounded (length rest) st
    → ((k : ℕ)
        → k ≤ length rest
        → Ends (pos + 1 + k) (length rest - k) (process_from fuel size (pos + 1 + k) (drop k rest)))
    → Ends pos (suc (length rest)) (process_from (suc fuel) size pos (header ∷ rest))
unfolding process_from
round-Ends fuel size pos header rest stop e b ih = rw (e, process_from) (omega arith)
round-Ends fuel size pos header rest (advance k calls) e b ih =
    rw (e, process_from) (after-Ends pos (length rest) k calls _ b.0 b.1 (ih k b.0))

pub process_from-Ends :
    (fuel size pos : ℕ) (words : List ℕ)
    → size ≡ pos + length words
    → length words < fuel
    → Ends pos (length words) (process_from fuel size pos words)
unfolding process_from
process_from-Ends zero size pos words e h = absurd (omega arith)
process_from-Ends (suc fuel) size pos [] e h = omega arith
process_from-Ends (suc fuel) size pos (header ∷ rest) e h =
    round-Ends fuel size pos header rest _ refl
      (decode_step-IsBounded size pos header rest (omega arith))
      λ k b. rw (← length-drop k rest) (
        process_from-Ends fuel size (pos + 1 + k) (drop k rest) (omega (arith, length-drop k rest))
          (omega (arith, length-drop k rest)))

Ends-some :
    (n : ℕ) (r : Option (ℕ × List Call))
    → Ends 0 n r
    → (p : ℕ) × (calls : List Call) × (r ≡ some (p, calls)) × (p ≤ n) × (length calls ≤ p)
Ends-some n none e = absurd e
Ends-some n (some (p, calls)) e = (p, calls, refl, omega arith, omega arith)

-- With one round of fuel for each word, and one more, `Process` returns a position inside the
-- buffer, and makes at most one method write for each word that it consumed.
pub process_total :
    (words : List ℕ)
    → (p : ℕ) × (calls : List Call) × (process words ≡ some (p, calls))
      × (p ≤ length words)
      × (length calls ≤ p)
unfolding process
process_total words =
    Ends-some (length words) _
      (process_from-Ends (suc (length words)) (length words) 0 words (omega arith) (omega arith))
