-- ===== src/Examples/Memory.antt =====
-- The guest memory's model over a host whose calls succeed and are counted.
use mathlib.Core.List.{Memᴰ}
use mathlib.Core.List.Memᴰ
use m1switch.Base.{
  ℕ, suc, ◌+◌, ◌%◌, ◌≤◌, ◌<◌, ◌≡◌, refl, ◌⊎◌, sym, subst, true, List, [], ◌∷◌, some, none, arith,
}
use m1switch.Base.Bits.{u64_mod}
use m1switch.Memory.{
  Mach, PageInfo, Memory, init, success, failed, page_size, heap_base, heap_limit, align_up,
  perm_rx, find_page, set_heap_size, query_region, region_type,
}
use m1switch.Memory.Heap.{set_heap_size-Sized, set_heap_size-grown, set_heap_size-shrunk}
use m1switch.Memory.Query.{Holds, Bounded, query_region-held, query_region-not_held}
use m1switch.Memory.Invariant.{
  Operation, map_call, heap_call, stack_call, unmap_call, IsValid, run, run-IsValid,
}

abbrev willing : Mach ℕ
willing = record {
  vm_deallocate = λ addr size n. (true, suc n);
  vm_map = λ addr size n. (true, suc n);
  vm_protect = λ addr size prot n. (true, suc n);
  copy_in = λ addr bytes n. n;
}

-- A heap of 0x3000 bytes.
abbrev with_heap : Memory ℕ
with_heap = record {
  base_addr = 0x3_0000_0000;
  heap_size = 0x3000;
  heap_addr = 0x8000_0000;
  stack_size = 0;
  stack_top = 0;
  pages = (0x8000_0000, record { size = 0x3000; flags = 3 }) ∷ [];
  host = 0;
}

-- The rounded size wraps around to 0, and the call succeeds.
heap_wrap_run : (set_heap_size willing 0xFFFF_FFFF_FFFF_FFFF with_heap).0 ≡ success
unfolding set_heap_size
heap_wrap_run = refl

set_heap_size-Sized_example :
    (((set_heap_size willing 0x1800 with_heap).0 ≡ success)
      × ((set_heap_size willing 0x1800 with_heap).1.heap_size % page_size ≡ 0)
      × (0x1800 ≤ (set_heap_size willing 0x1800 with_heap).1.heap_size)
      × ((set_heap_size willing 0x1800 with_heap).1.heap_size < 0x1800 + page_size)
      × ((set_heap_size willing 0x1800 with_heap).1.heap_size ≤ heap_limit))
    ⊎ ((failed (set_heap_size willing 0x1800 with_heap).0 ≡ true)
        × ((set_heap_size willing 0x1800 with_heap).1.heap_size ≡ with_heap.heap_size))
set_heap_size-Sized_example = set_heap_size-Sized willing 0x1800 with_heap (omega arith)

rounded : align_up 0x1800 ≡ 0x2000
unfolding align_up
rounded = refl

rounded_more : align_up 0x4800 ≡ 0x5000
unfolding align_up
rounded_more = refl

grown : (set_heap_size willing 0x4800 with_heap).0 ≡ success
unfolding set_heap_size
grown = refl

set_heap_size-grown_example :
    find_page heap_base (set_heap_size willing 0x4800 with_heap).1.pages
    ≡ some (record { size = align_up 0x4800; flags = 3 })
set_heap_size-grown_example =
    set_heap_size-grown willing 0x4800 with_heap (omega (arith, rounded_more)) grown

set_heap_size-shrunk_example :
    ((set_heap_size willing 0x1800 with_heap).1.heap_size ≡ align_up 0x1800)
    × (find_page heap_base (set_heap_size willing 0x1800 with_heap).1.pages
        ≡ find_page heap_base with_heap.pages)
set_heap_size-shrunk_example =
    set_heap_size-shrunk willing 0x1800 with_heap (omega (arith, rounded)) (omega (arith, rounded))
      (omega arith)

abbrev operations : List Operation
operations =
    map_call 0x4000_0000 0x2000 perm_rx none (omega arith)
    ∷ heap_call 0x1800
    ∷ stack_call 0x10_0000
    ∷ unmap_call 0x4000_0000 0x2000
    ∷ []

run-IsValid_example : IsValid (run willing operations (init 0))
run-IsValid_example = run-IsValid willing operations 0

abbrev heap_page : ℕ × PageInfo
heap_page = (0x8000_0000, record { size = 0x3000; flags = 3 })

one_page :
    (P : ℕ × PageInfo → Type 0) (q : ℕ × PageInfo) → P heap_page → Memᴰ q (heap_page ∷ []) → P q
one_page P q p (Memᴰ.head e) = subst P (sym e) p
one_page P q p (Memᴰ.tail n) = absurd (Memᴰ.not-nil n)

held : Holds 0x8000_1234 heap_page
unfolding Holds
held = (omega arith, omega arith)

outside : ¬ Holds 0x1000 heap_page
unfolding Holds
outside h = omega (arith, h.0)

bounded : Bounded (heap_page ∷ [])
unfolding Bounded
bounded q m = one_page (λ q. q.0 + q.1.size < u64_mod) q (omega arith) m

query_region-held_example :
    query_region 0x8000_1234 (heap_page ∷ []) ≡ (0x8000_0000, 0x3000, region_type 0x8000_0000 3)
query_region-held_example =
    query_region-held 0x8000_1234 (heap_page ∷ []) heap_page bounded
      (λ q m h. one_page (λ q. q ≡ heap_page) q refl m) (Memᴰ.head refl) held

query_region-not_held_example : query_region 0x1000 (heap_page ∷ []) ≡ (0x1000, 0x1000, 3)
query_region-not_held_example =
    query_region-not_held 0x1000 (heap_page ∷ []) bounded
      (λ q m. one_page (λ q. ¬ Holds 0x1000 q) q outside m)
