-- ===== src/Memory/Heap.antt =====
-- The heap: memory/Memory.cpp, `SetHeapSize` over `MapPhysical` and `UnmapPhysical`.
use m1switch.Base.{
  ltb-false, ℕ, ◌+◌, ◌-◌, ◌%◌, ◌≤◌, ◌<◌, true, false, ◌==◌, ltb, Bool-cases, ==_iff, ◌≡◌, refl, sym,
  ap, ◌∙◌, ◌⊎◌, inl, inr, none, some, arith,
}
use m1switch.Base.Bits.{u64_mod}
use m1switch.Memory.Pages.{
  failed-success, find_page-track_page, Mapped, map_physical-Mapped, unmap_physical-heap_size,
  unmap_physical-find_page,
}
use m1switch.Memory.{
  Result, success, out_of_memory, failed, page_size, heap_base, heap_limit, align_up, perm_rw,
  perm_code, Mach, Memory, find_page, map_physical, unmap_physical, set_heap_size, drop_heap,
  restore_heap, set_heap, grow_heap,
}

leb-not : (a b : ℕ) → b ≤ a → ltb a b ≡ false
leb-not a b h = ground arith

lt-ltb : (a b : ℕ) → a < b → ltb a b ≡ true
lt-ltb a b h = ground arith

lt-not_eq : (a b : ℕ) → a < b → (b == a) ≡ false
lt-not_eq a b h = ground arith

gt-not_eq : (a b : ℕ) → b < a → (b == a) ≡ false
gt-not_eq a b h = ground arith

gt-ltb : (a b : ℕ) → b < a → ltb a b ≡ false
gt-ltb a b h = ground arith

align_up-least :
    (size : ℕ)
    → size + page_size ≤ u64_mod
    → (align_up size % page_size ≡ 0) × (size ≤ align_up size) × (align_up size < size + page_size)
unfolding align_up
align_up-least size h = (omega arith, omega arith, omega arith)

module _ {ℓ} {Host : Type ℓ} (mach : Mach Host) where
  drop_heap-heap_size : (m : Memory Host) → (drop_heap mach m).heap_size ≡ m.heap_size
  unfolding drop_heap
  drop_heap-heap_size m = elim (Bool-cases (ltb 0 m.heap_size)) [
    | inl e ↦ rw (e) (unmap_physical-heap_size mach heap_base m.heap_size m)
    | inr e ↦ rw (e) refl
  ]

  restore_heap-heap_size : (m : Memory Host) → (restore_heap mach m).heap_size ≡ m.heap_size
  unfolding restore_heap
  restore_heap-heap_size m = elim (Bool-cases (ltb 0 m.heap_size)) [
    | inl e ↦ rw (e) (map_physical-Mapped mach heap_base m.heap_size perm_rw none m).heap_kept
    | inr e ↦ rw (e) refl
  ]

  -- Success sets the heap's size, and a failure of any kind keeps it.
  Outcome : ℕ → Memory Host → Result × Memory Host → Type 0
  Outcome aligned m r =
      ((r.0 ≡ success) × (r.1.heap_size ≡ aligned))
      ⊎ ((failed r.0 ≡ true) × (r.1.heap_size ≡ m.heap_size))

  grow_heap-pages :
      (aligned : ℕ) (m : Memory Host)
      → (map_physical mach heap_base aligned perm_rw none (drop_heap mach m)).0 ≡ success
      → (grow_heap mach aligned m).1.pages
        ≡ (map_physical mach heap_base aligned perm_rw none (drop_heap mach m)).1.pages
  unfolding grow_heap set_heap failed
  grow_heap-pages aligned m s = rw (s) refl

  grow_heap-Outcome : (aligned : ℕ) (m : Memory Host) → Outcome aligned m (grow_heap mach aligned m)
  unfolding Outcome grow_heap set_heap failed
  grow_heap-Outcome aligned m =
      let tried : Result × Memory Host =
        map_physical mach heap_base aligned perm_rw none (drop_heap mach m) in
      let mapped : Mapped heap_base aligned perm_rw (drop_heap mach m) tried =
        map_physical-Mapped mach heap_base aligned perm_rw none (drop_heap mach m) in
      elim mapped.outcome [
        | inl (f, same) ↦
            rw (f)
              (inr (f, restore_heap-heap_size tried.1 ∙ mapped.heap_kept ∙ drop_heap-heap_size m))
        | inr (s, page, guard) ↦ rw (s) (inl (refl, refl))
      ]

  grow_heap-failed :
      (aligned : ℕ) (m : Memory Host)
      → failed (map_physical mach heap_base aligned perm_rw none (drop_heap mach m)).0 ≡ true
      → (grow_heap mach aligned m).0
        ≡ (map_physical mach heap_base aligned perm_rw none (drop_heap mach m)).0
  unfolding grow_heap
  grow_heap-failed aligned m f = rw (f) refl

  grow_heap-page :
      (aligned : ℕ) (m : Memory Host)
      → (grow_heap mach aligned m).0 ≡ success
      → find_page heap_base (grow_heap mach aligned m).1.pages
        ≡ some (record { size = aligned; flags = 3 })
  unfolding perm_code
  grow_heap-page aligned m h =
      let tried : Result × Memory Host =
        map_physical mach heap_base aligned perm_rw none (drop_heap mach m) in
      elim (map_physical-Mapped mach heap_base aligned perm_rw none (drop_heap mach m)).outcome [
        | inl (f, same) ↦ failed-success tried.0 f (sym (grow_heap-failed aligned m f) ∙ h)
        | inr (s, page, guard) ↦
            ap (find_page heap_base) (grow_heap-pages aligned m s ∙ page)
            ∙ find_page-track_page heap_base aligned perm_rw (drop_heap mach m).pages
      ]

  set_heap_size-Outcome :
      (size : ℕ) (m : Memory Host) → Outcome (align_up size) m (set_heap_size mach size m)
  unfolding Outcome set_heap_size set_heap failed
  set_heap_size-Outcome size m = elim (Bool-cases (ltb heap_limit (align_up size))) [
    | inl e ↦ rw (e) (inr (refl, refl))
    | inr a ↦ elim (Bool-cases (align_up size == m.heap_size)) [
      | inl e ↦ rw (a, e) (inl (refl, sym ((==_iff (align_up size) m.heap_size).0 e)))
      | inr b ↦ elim (Bool-cases (ltb m.heap_size (align_up size))) [
        | inl e ↦ rw (a, b, e) (grow_heap-Outcome (align_up size) m)
        | inr c ↦ rw (a, b, c) (inl (refl, refl))
      ]
    ]
  ]

  too_large :
      (size : ℕ) (m : Memory Host)
      → ltb heap_limit (align_up size) ≡ true
      → (set_heap_size mach size m).0 ≡ out_of_memory
  unfolding set_heap_size
  too_large size m e = rw (e) refl

  set_heap_size-limit :
      (size : ℕ) (m : Memory Host)
      → (set_heap_size mach size m).0 ≡ success
      → align_up size ≤ heap_limit
  unfolding failed
  set_heap_size-limit size m h = elim (Bool-cases (ltb heap_limit (align_up size))) [
    | inl e ↦ failed-success out_of_memory refl (sym (too_large size m e) ∙ h)
    | inr e ↦ ltb-false heap_limit (align_up size) e
  ]

  -- After SetHeapSize either the result is success and the heap is the size asked for, rounded up
  -- to a whole number of pages and at most 1 GiB, or the result is an error and the heap keeps its
  -- size, whatever the host's calls answer; this for sizes that leave a page below 2^64.
  pub set_heap_size-Sized :
      (size : ℕ) (m : Memory Host)
      → size + page_size ≤ u64_mod
      → (((set_heap_size mach size m).0 ≡ success)
          × ((set_heap_size mach size m).1.heap_size % page_size ≡ 0)
          × (size ≤ (set_heap_size mach size m).1.heap_size)
          × ((set_heap_size mach size m).1.heap_size < size + page_size)
          × ((set_heap_size mach size m).1.heap_size ≤ heap_limit))
        ⊎ ((failed (set_heap_size mach size m).0 ≡ true)
            × ((set_heap_size mach size m).1.heap_size ≡ m.heap_size))
  unfolding Outcome
  set_heap_size-Sized size m fits = elim (set_heap_size-Outcome size m) [
    | inr kept ↦ inr kept
    | inl (s, e) ↦
        let limit : align_up size ≤ heap_limit = set_heap_size-limit size m s in
        let (multiple, above, near) = align_up-least size fits in
        inl (
          s,
          ap (λ (n : ℕ). n % page_size) e ∙ multiple,
          omega (arith, e, above),
          omega (arith, e, near),
          omega (arith, e, limit),
        )
  ]

  grows :
      (size : ℕ) (m : Memory Host)
      → align_up size ≤ heap_limit
      → m.heap_size < align_up size
      → set_heap_size mach size m ≡ grow_heap mach (align_up size) m
  unfolding set_heap_size
  grows size m fits more =
      rw
        (
          leb-not heap_limit (align_up size) fits,
          lt-not_eq m.heap_size (align_up size) more,
          lt-ltb m.heap_size (align_up size) more,
        )
        refl

  -- After a SetHeapSize that succeeds and grows the heap, the page table has an entry for the
  -- heap's base with the new size and the permission to read and write.
  pub set_heap_size-grown :
      (size : ℕ) (m : Memory Host)
      → m.heap_size < align_up size
      → (set_heap_size mach size m).0 ≡ success
      → find_page heap_base (set_heap_size mach size m).1.pages
        ≡ some (record { size = align_up size; flags = 3 })
  set_heap_size-grown size m more s =
      let g : set_heap_size mach size m ≡ grow_heap mach (align_up size) m =
        grows size m (set_heap_size-limit size m s) more in
      ap (λ (r : Result × Memory Host). find_page heap_base r.1.pages) g
      ∙ grow_heap-page (align_up size) m (sym (ap (λ (r : Result × Memory Host). r.0) g) ∙ s)

  shrinks :
      (size : ℕ) (m : Memory Host)
      → m.heap_size ≤ heap_limit
      → align_up size < m.heap_size
      → (set_heap_size mach size m).1.pages
        ≡ (unmap_physical mach (heap_base + align_up size) (m.heap_size - align_up size) m).1.pages
  unfolding set_heap_size set_heap
  shrinks size m fits less =
      rw
        (
          leb-not heap_limit (align_up size) (omega (arith, fits, less)),
          gt-not_eq m.heap_size (align_up size) less,
          gt-ltb m.heap_size (align_up size) less,
        )
        refl

  shrunk_size :
      (size : ℕ) (m : Memory Host)
      → m.heap_size ≤ heap_limit
      → align_up size < m.heap_size
      → (set_heap_size mach size m).1.heap_size ≡ align_up size
  unfolding set_heap_size set_heap
  shrunk_size size m fits less =
      rw
        (
          leb-not heap_limit (align_up size) (omega (arith, fits, less)),
          gt-not_eq m.heap_size (align_up size) less,
          gt-ltb m.heap_size (align_up size) less,
        )
        refl

  -- After a SetHeapSize that shrinks the heap to a size above 0, the page table still holds for the
  -- heap's base the entry from before, with the old size. The heap was at most 1 GiB.
  pub set_heap_size-shrunk :
      (size : ℕ) (m : Memory Host)
      → 0 < align_up size
      → align_up size < m.heap_size
      → m.heap_size ≤ heap_limit
      → ((set_heap_size mach size m).1.heap_size ≡ align_up size)
        × (find_page heap_base (set_heap_size mach size m).1.pages ≡ find_page heap_base m.pages)
  set_heap_size-shrunk size m some_left less fits = (
    shrunk_size size m fits less,
    ap (find_page heap_base) (shrinks size m fits less)
        ∙ unmap_physical-find_page mach (heap_base + align_up size) (m.heap_size - align_up size)
            heap_base m (omega arith),
  )
