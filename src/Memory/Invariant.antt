-- ===== src/Memory/Invariant.antt =====
-- The page table's invariant over all operations of memory/Memory.cpp.
use mathlib.Core.List.{Memᴰ}
use mathlib.Core.List.Memᴰ
use m1switch.Base.{
  ltb-false, ℕ, if◌then◌else◌, ◌+◌, ◌-◌, ◌%◌, ◌≤◌, ◌<◌, min, Bool, true, false, ◌==◌, ltb,
  Bool-cases, ◌≡◌, sym, subst, inl, inr, List, [], ◌∷◌, Option, none, arith,
}
use m1switch.Base.Bits.{u64_mod}
use m1switch.Memory.{
  Result, failed, page_size, addr_space_size, heap_base, stack_base, heap_limit, align_up,
  is_aligned, Permission, perm_rw, Mach, PageInfo, Memory, init, erase, track_page, map_physical,
  unmap_physical, protect, set_heap_size, setup_stack, drop_heap, restore_heap, set_heap, grow_heap,
}
use m1switch.Memory.Pages.{Guarded, Mapped, map_physical-Mapped}

-- A page starts and ends at a multiple of the page size, inside the address space.
pub Inside : ℕ × PageInfo → Type 0
Inside (k, info) =
    (k % page_size ≡ 0) × (info.size % page_size ≡ 0) × (k + info.size ≤ addr_space_size)

pub AllInside : List (ℕ × PageInfo) → Type 0
AllInside pages = (q : ℕ × PageInfo) → Memᴰ q pages → Inside q

mem-erase :
    (key : ℕ) (pages : List (ℕ × PageInfo)) (q : ℕ × PageInfo)
    → Memᴰ q (erase key pages)
    → Memᴰ q pages
unfolding erase
mem-erase key [] q m = m
mem-erase key ((k, info) ∷ pages) q m = by_test (k == key) (mem-erase key pages q) m
  where
    by_test :
        (b : Bool)
        → (Memᴰ q (erase key pages) → Memᴰ q pages)
        → Memᴰ q (if b then erase key pages else (k, info) ∷ erase key pages)
        → Memᴰ q ((k, info) ∷ pages)
    by_test true later n = Memᴰ.tail (later n)
    by_test false later (Memᴰ.head e) = Memᴰ.head e
    by_test false later (Memᴰ.tail n) = Memᴰ.tail (later n)

AllInside-erase :
    (key : ℕ) (pages : List (ℕ × PageInfo)) → AllInside pages → AllInside (erase key pages)
unfolding AllInside
AllInside-erase key pages h q m = h q (mem-erase key pages q m)

AllInside-track :
    (address size : ℕ) (perm : Permission) (pages : List (ℕ × PageInfo))
    → address + size < u64_mod
    → Guarded address size
    → AllInside pages
    → AllInside (track_page address size perm pages)
unfolding AllInside track_page Inside Guarded
AllInside-track address size perm pages fits g h q (Memᴰ.head e) =
    subst Inside (sym e) (g.0, g.1, omega (arith, g.2))
AllInside-track address size perm pages fits g h q (Memᴰ.tail m) = h q (mem-erase address pages q m)

pub record IsValid {ℓ} {Host : Type ℓ} (m : Memory Host) : Type ℓ where
  pub heap_bounded : m.heap_size ≤ heap_limit
  pub pages_inside : AllInside m.pages

module _ {ℓ} {Host : Type ℓ} (mach : Mach Host) where
  map_physical-IsValid :
      (address size : ℕ) (perm : Permission) (bytes : Option (List ℕ)) (m : Memory Host)
      → address + size < u64_mod
      → IsValid m
      → IsValid (map_physical mach address size perm bytes m).1
  map_physical-IsValid address size perm bytes m fits v =
      let mapped : Mapped address size perm m (map_physical mach address size perm bytes m) =
        map_physical-Mapped mach address size perm bytes m in
      record {
        heap_bounded = omega (arith, mapped.heap_kept, v.heap_bounded);
        pages_inside = elim mapped.outcome [
          | inl (f, same) ↦ subst AllInside (sym same) v.pages_inside
          | inr (s, page, g) ↦
              subst AllInside (sym page)
                (AllInside-track address size perm m.pages fits g v.pages_inside)
        ];
      }

  unmap_physical-IsValid :
      (address size : ℕ) (m : Memory Host)
      → IsValid m
      → IsValid (unmap_physical mach address size m).1
  unfolding unmap_physical
  unmap_physical-IsValid address size m v = elim (Bool-cases (is_aligned address)) [
    | inr e ↦ rw (e) v
    | inl e ↦
        elim (Bool-cases (mach.vm_deallocate ((m.base_addr + address) % u64_mod) size m.host).0) [
          | inl ok ↦
              rw (e, ok)
                (record {
                  heap_bounded = v.heap_bounded;
                  pages_inside = AllInside-erase address m.pages v.pages_inside;
                })
          | inr bad ↦
              rw (e, bad) (record { heap_bounded = v.heap_bounded; pages_inside = v.pages_inside })
        ]
  ]

  drop_heap-IsValid : (m : Memory Host) → IsValid m → IsValid (drop_heap mach m)
  unfolding drop_heap
  drop_heap-IsValid m v = elim (Bool-cases (ltb 0 m.heap_size)) [
    | inl e ↦ rw (e) (unmap_physical-IsValid heap_base m.heap_size m v)
    | inr e ↦ rw (e) v
  ]

  restore_heap-IsValid : (m : Memory Host) → IsValid m → IsValid (restore_heap mach m)
  unfolding restore_heap
  restore_heap-IsValid m v = elim (Bool-cases (ltb 0 m.heap_size)) [
    | inl e ↦ rw (e) (
        map_physical-IsValid heap_base m.heap_size perm_rw none m (omega (arith, v.heap_bounded)) v)
    | inr e ↦ rw (e) v
  ]

  set_heap-IsValid :
      (aligned : ℕ) (m : Memory Host)
      → aligned ≤ heap_limit
      → IsValid m
      → IsValid (set_heap mach aligned m)
  unfolding set_heap
  set_heap-IsValid aligned m h v = record { heap_bounded = h; pages_inside = v.pages_inside }

  grow_heap-IsValid :
      (aligned : ℕ) (m : Memory Host)
      → aligned ≤ heap_limit
      → IsValid m
      → IsValid (grow_heap mach aligned m).1
  unfolding grow_heap
  grow_heap-IsValid aligned m h v =
      let tried : Result × Memory Host =
        map_physical mach heap_base aligned perm_rw none (drop_heap mach m) in
      let fine : IsValid tried.1 =
        map_physical-IsValid heap_base aligned perm_rw none (drop_heap mach m) (omega (arith, h))
          (drop_heap-IsValid m v) in
      elim (Bool-cases (failed tried.0)) [
        | inl f ↦ rw (f) (restore_heap-IsValid tried.1 fine)
        | inr s ↦ rw (s) (set_heap-IsValid aligned tried.1 h fine)
      ]

  set_heap_size-IsValid :
      (size : ℕ) (m : Memory Host) → IsValid m → IsValid (set_heap_size mach size m).1
  unfolding set_heap_size
  set_heap_size-IsValid size m v = elim (Bool-cases (ltb heap_limit (align_up size))) [
    | inl e ↦ rw (e) v
    | inr a ↦
        let h : align_up size ≤ heap_limit = ltb-false heap_limit (align_up size) a in
        elim (Bool-cases (align_up size == m.heap_size)) [
          | inl e ↦ rw (a, e) v
          | inr b ↦ elim (Bool-cases (ltb m.heap_size (align_up size))) [
            | inl e ↦ rw (a, b, e) (grow_heap-IsValid (align_up size) m h v)
            | inr c ↦
                rw (a, b, c)
                  (set_heap-IsValid (align_up size)
                    (unmap_physical mach (heap_base + align_up size) (m.heap_size - align_up size)
                      m).1
                    h
                    (unmap_physical-IsValid (heap_base + align_up size)
                      (m.heap_size - align_up size) m v))
          ]
        ]
  ]

  setup_stack-IsValid :
      (size : ℕ) (m : Memory Host) → IsValid m → IsValid (setup_stack mach size m).1
  unfolding setup_stack
  setup_stack-IsValid size m v =
      let aligned : ℕ = min (align_up size) 0x10_0000 in
      let tried : Result × Memory Host =
        map_physical mach (stack_base - aligned) aligned perm_rw none m in
      let fine : IsValid tried.1 =
        map_physical-IsValid (stack_base - aligned) aligned perm_rw none m (omega arith) v in
      elim (Bool-cases (failed tried.0)) [
        | inl f ↦ rw (f) fine
        | inr s ↦
            rw (s) (record { heap_bounded = fine.heap_bounded; pages_inside = fine.pages_inside })
      ]

-- A call of one of the operations; a mapping whose end does not pass 2^64.
pub data Operation : Type 0 where
  map_call :
      (address size : ℕ) → Permission → Option (List ℕ) → address + size < u64_mod → Operation
  unmap_call : (address size : ℕ) → Operation
  protect_call : (address size : ℕ) → Permission → Operation
  heap_call : (size : ℕ) → Operation
  stack_call : (size : ℕ) → Operation

module _ {ℓ} {Host : Type ℓ} (mach : Mach Host) where
  -- The memory after one call, and after a list of them.
  perform : Operation → Memory Host → Memory Host
  perform (map_call address size perm bytes fits) m =
      (map_physical mach address size perm bytes m).1
  perform (unmap_call address size) m = (unmap_physical mach address size m).1
  perform (protect_call address size perm) m = (protect mach address size perm m).1
  perform (heap_call size) m = (set_heap_size mach size m).1
  perform (stack_call size) m = (setup_stack mach size m).1

  unfoldable pub run : List Operation → Memory Host → Memory Host
  unfolding perform
  run [] m = m
  run (c ∷ cs) m = run cs (perform c m)

  perform-IsValid : (c : Operation) (m : Memory Host) → IsValid m → IsValid (perform c m)
  unfolding perform protect
  perform-IsValid (map_call address size perm bytes fits) m v =
      map_physical-IsValid mach address size perm bytes m fits v
  perform-IsValid (unmap_call address size) m v = unmap_physical-IsValid mach address size m v
  perform-IsValid (protect_call address size perm) m v = record {
    heap_bounded = v.heap_bounded;
    pages_inside = v.pages_inside;
  }
  perform-IsValid (heap_call size) m v = set_heap_size-IsValid mach size m v
  perform-IsValid (stack_call size) m v = setup_stack-IsValid mach size m v

  run-kept : (cs : List Operation) (m : Memory Host) → IsValid m → IsValid (run cs m)
  unfolding run
  run-kept [] m v = v
  run-kept (c ∷ cs) m v = run-kept cs (perform c m) (perform-IsValid c m v)

  -- After any sequence of operations on a new guest memory, whatever the host's calls answer, every
  -- page of the table starts and ends at a multiple of the page size inside the 4 GiB, and the heap
  -- is at most 1 GiB; a mapping of the sequence must not pass 2^64.
  pub run-IsValid : (cs : List Operation) (h : Host) → IsValid (run cs (init h))
  unfolding init AllInside
  run-IsValid cs h =
      run-kept cs (init h)
        (record { heap_bounded = omega arith; pages_inside = λ q m. absurd (Memᴰ.not-nil m) })
