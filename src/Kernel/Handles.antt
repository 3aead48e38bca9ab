-- ===== src/Kernel/Handles.antt =====
-- Looking handles up, adding and erasing them: kernel/Kernel.h, `KHandleTable`.
use mathlib.Core.List.{Memᴰ}
use m1switch.Base.{
  ==_ne, ℕ, ◌≤◌, ◌<◌, Bool, true, false, ◌==◌, ==_iff, if◌then◌else◌, Bool-cases, ◌≡◌, refl, sym,
  ap, ◌∙◌, ◌≢◌, inl, inr, List, [], ◌∷◌, none, some, arith,
}
use m1switch.Kernel.{KObject, erase_handle, find_object, put_object}

-- Every handle of the list is below a bound.
unfoldable pub Below : ℕ → List (ℕ × KObject) → Type 0
Below bound objects = (q : ℕ × KObject) → Memᴰ q objects → q.0 < bound

pub find_object-Below :
    (bound handle : ℕ) (objects : List (ℕ × KObject))
    → Below bound objects
    → bound ≤ handle
    → find_object handle objects ≡ none
unfolding Below find_object
find_object-Below bound handle [] b h = refl
find_object-Below bound handle ((k, obj) ∷ objects) b h =
    rw (apart k handle (omega (arith, b (k, obj) (Memᴰ.head refl), h)))
      (find_object-Below bound handle objects (λ q m. b q (Memᴰ.tail m)) h)
  where
    apart : (a b : ℕ) → a < b → (a == b) ≡ false
    apart a b h = ground arith

pub found-Below :
    (bound handle : ℕ) (objects : List (ℕ × KObject)) (obj : KObject)
    → Below bound objects
    → find_object handle objects ≡ some obj
    → handle < bound
unfolding Below find_object
found-Below bound handle [] obj b e = cc
found-Below bound handle ((k, o) ∷ objects) obj b e = elim (Bool-cases (k == handle)) [
  | inl t ↦ omega (arith, (==_iff k handle).0 t, b (k, o) (Memᴰ.head refl))
  | inr f ↦
      found-Below bound handle objects obj (λ q m. b q (Memᴰ.tail m))
        (sym (skip_first k handle f o objects) ∙ e)
]
  where
    skip_first :
        (k handle : ℕ)
        → (k == handle) ≡ false
        → (o : KObject) (objects : List (ℕ × KObject))
        → find_object handle ((k, o) ∷ objects) ≡ find_object handle objects
    skip_first k handle f o objects = rw (f) refl

pub mem-erase_handle :
    (handle : ℕ) (objects : List (ℕ × KObject)) (q : ℕ × KObject)
    → Memᴰ q (erase_handle handle objects)
    → Memᴰ q objects
unfolding erase_handle
mem-erase_handle handle [] q m = m
mem-erase_handle handle ((k, obj) ∷ objects) q m =
    by_test (k == handle) (mem-erase_handle handle objects q) m
  where
    by_test :
        (b : Bool)
        → (Memᴰ q (erase_handle handle objects) → Memᴰ q objects)
        → Memᴰ q (if b then erase_handle handle objects else (k, obj) ∷ erase_handle handle objects)
        → Memᴰ q ((k, obj) ∷ objects)
    by_test true later n = Memᴰ.tail (later n)
    by_test false later (Memᴰ.head e) = Memᴰ.head e
    by_test false later (Memᴰ.tail n) = Memᴰ.tail (later n)

pub Below-put_object :
    (bound handle : ℕ) (obj : KObject) (objects : List (ℕ × KObject))
    → handle < bound
    → Below bound objects
    → Below bound (put_object handle obj objects)
unfolding Below put_object
Below-put_object bound handle obj objects h b q (Memᴰ.head e) =
    omega (arith, ap (λ (p : ℕ × KObject). p.0) e, h)
Below-put_object bound handle obj objects h b q (Memᴰ.tail m) =
    b q (mem-erase_handle handle objects q m)

pub find_object-erase_ne :
    (handle other : ℕ) (objects : List (ℕ × KObject))
    → handle ≢ other
    → find_object handle (erase_handle other objects) ≡ find_object handle objects
unfolding find_object erase_handle
find_object-erase_ne handle other [] ne = refl
find_object-erase_ne handle other ((k, obj) ∷ objects) ne = elim (Bool-cases (k == other)) [
  | inl e ↦
      rw (e, ==_ne k handle (λ q. ne (sym q ∙ (==_iff k other).0 e)))
        (find_object-erase_ne handle other objects ne)
  | inr e ↦ elim (Bool-cases (k == handle)) [
    | inl f ↦ rw (e, f) refl
    | inr f ↦ rw (e, f) (find_object-erase_ne handle other objects ne)
  ]
]
