-- ===== src/Base/Buffers.antt =====
-- Reads and writes inside a byte buffer; `none` is an access past its end.
use Prim.Native.Nat.{ℕ, zero, suc, ◌+◌, ◌≤◌, ◌<◌}
use mathlib.Core.Path.{◌≡◌, refl, ap}
use mathlib.Core.Option.{Option, none, some}
use mathlib.Core.List.{List, [], ◌∷◌, ◌++◌}
use native.Mathlib.Omega.{arith}
use m1switch.Base.Tests.{leb, leb-le, if◌then◌else◌}
use m1switch.Base.Lists.{length, take, drop, length-append, length-drop, take-length_append}

-- `memcpy` of `n` bytes from an offset.
unfoldable pub read : ℕ → ℕ → List ℕ → Option (List ℕ)
read off n buffer = if leb (off + n) (length buffer) then some (take n (drop off buffer)) else none

abbrev overlay : ℕ → List ℕ → List ℕ → List ℕ
overlay zero bytes buffer = bytes ++ drop (length bytes) buffer
overlay (suc off) bytes [] = []
overlay (suc off) bytes (x ∷ buffer) = x ∷ overlay off bytes buffer

-- `memcpy` of bytes to an offset.
unfoldable pub write : ℕ → List ℕ → List ℕ → Option (List ℕ)
write off bytes buffer =
    if leb (off + length bytes) (length buffer) then some (overlay off bytes buffer) else none

pub take-all : (n : ℕ) (xs : List ℕ) → length xs ≤ n → take n xs ≡ xs
take-all zero [] h = refl
take-all zero (x ∷ xs) h = absurd (omega arith)
take-all (suc n) [] h = refl
take-all (suc n) (x ∷ xs) h = ap (◌∷◌ x) (take-all n xs (omega arith))

-- A slice of an overlay that ends before it, starts behind it, or is it.
slice-before :
    (off n at : ℕ) (bytes buffer : List ℕ)
    → off + n ≤ at
    → at + length bytes ≤ length buffer
    → take n (drop off (overlay at bytes buffer)) ≡ take n (drop off buffer)
slice-before zero zero at bytes buffer h k = refl
slice-before zero (suc n) zero bytes buffer h k = absurd (omega arith)
slice-before zero (suc n) (suc at) bytes [] h k = absurd (omega arith)
slice-before zero (suc n) (suc at) bytes (x ∷ buffer) h k =
    ap (◌∷◌ x) (slice-before zero n at bytes buffer (omega arith) (omega arith))
slice-before (suc off) n zero bytes buffer h k = absurd (omega arith)
slice-before (suc off) n (suc at) bytes [] h k = absurd (omega arith)
slice-before (suc off) n (suc at) bytes (x ∷ buffer) h k =
    slice-before off n at bytes buffer (omega arith) (omega arith)

slice_self :
    (at : ℕ) (bytes buffer : List ℕ)
    → at + length bytes ≤ length buffer
    → take (length bytes) (drop at (overlay at bytes buffer)) ≡ bytes
slice_self zero bytes buffer h = take-length_append bytes (drop (length bytes) buffer)
slice_self (suc at) bytes [] h = absurd (omega arith)
slice_self (suc at) bytes (x ∷ buffer) h = slice_self at bytes buffer (omega arith)

drop-past :
    (bytes buffer : List ℕ) (off : ℕ)
    → length bytes ≤ off
    → length bytes ≤ length buffer
    → drop off (bytes ++ drop (length bytes) buffer) ≡ drop off buffer
drop-past [] buffer off h k = refl
drop-past (b ∷ bytes) buffer zero h k = absurd (omega arith)
drop-past (b ∷ bytes) [] (suc off) h k = absurd (omega arith)
drop-past (b ∷ bytes) (x ∷ buffer) (suc off) h k =
    drop-past bytes buffer off (omega arith) (omega arith)

slice-after :
    (at off : ℕ) (bytes buffer : List ℕ)
    → at + length bytes ≤ off
    → at + length bytes ≤ length buffer
    → drop off (overlay at bytes buffer) ≡ drop off buffer
slice-after zero off bytes buffer h k = drop-past bytes buffer off (omega arith) (omega arith)
slice-after (suc at) zero bytes buffer h k = absurd (omega arith)
slice-after (suc at) (suc off) bytes [] h k = absurd (omega arith)
slice-after (suc at) (suc off) bytes (x ∷ buffer) h k =
    slice-after at off bytes buffer (omega arith) (omega arith)

length-overlay :
    (at : ℕ) (bytes buffer : List ℕ)
    → at + length bytes ≤ length buffer
    → length (overlay at bytes buffer) ≡ length buffer
length-overlay zero bytes buffer h =
    omega
      (arith, length-append bytes (drop (length bytes) buffer), length-drop (length bytes) buffer)
length-overlay (suc at) bytes [] h = absurd (omega arith)
length-overlay (suc at) bytes (x ∷ buffer) h = ap suc (length-overlay at bytes buffer (omega arith))

-- A write that fits: it keeps the length, reads back, and leaves what lies before and behind it.
pub record Written (at : ℕ) (bytes buffer : List ℕ) : Type 0 where
  pub after : List ℕ
  pub wrote : write at bytes buffer ≡ some after
  pub same_length : length after ≡ length buffer
  pub reads : read at (length bytes) after ≡ some bytes
  pub before : (off n : ℕ) → off + n ≤ at → read off n after ≡ read off n buffer
  pub behind : (off n : ℕ) → at + length bytes ≤ off → read off n after ≡ read off n buffer

pub write-Written :
    (at : ℕ) (bytes buffer : List ℕ) → at + length bytes ≤ length buffer → Written at bytes buffer
unfolding write read
write-Written at bytes buffer h =
    let e : length (overlay at bytes buffer) ≡ length buffer = length-overlay at bytes buffer h in
    record {
      after = overlay at bytes buffer;
      wrote = rw (leb-le (at + length bytes) (length buffer) h) refl;
      same_length = e;
      reads =
          rw
            (
              leb-le (at + length bytes) (length (overlay at bytes buffer)) (omega (arith, e)),
              slice_self at bytes buffer h,
            )
            refl;
      before = λ off n k. rw (e, slice-before off n at bytes buffer k h) refl;
      behind = λ off n k. rw (e, slice-after at off bytes buffer k h) refl;
    }

pub write-none :
    (at : ℕ) (bytes buffer : List ℕ)
    → length buffer < at + length bytes
    → write at bytes buffer ≡ none
unfolding write
write-none at bytes buffer h = ground (arith, h)
