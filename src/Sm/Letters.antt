-- ===== src/Sm/Letters.antt =====
-- services/Sm.cpp: the name as a text, one character for each byte.
use Prim.Native.Nat.{compare, Ordering}
use Prim.Native.Nat.compare as Compare
use Prim.Native.Char.{char, IsScalar}
use Prim.Native.String.{String, ◌∷◌ as ◌∷ˢ◌}
use m1switch.Base.{ℕ, zero, suc, ◌%◌, ◌<◌, ◌≡◌, ◌∙◌, List, [], ◌∷◌, arith}

pub compare-below : (m n : ℕ) → m < n → compare m n ≡ Ordering.lt
compare-below zero zero h = absurd (omega arith)
compare-below zero (suc n) h = λ i. Compare.zero-suc n i
compare-below (suc m) zero h = absurd (omega arith)
compare-below (suc m) (suc n) h = (λ i. Compare.suc-suc m n i) ∙ compare-below m n (omega arith)

pub byte-IsScalar : (b : ℕ) → IsScalar (b % 256)
byte-IsScalar b = rw (compare-below (b % 256) 55296 (omega arith)) tt

-- The `std::string` of the bytes.
unfoldable pub string_of : List ℕ → String
string_of [] = ""
string_of (b ∷ bytes) = char (b % 256) (byte-IsScalar b) ∷ˢ string_of bytes
