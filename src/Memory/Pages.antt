-- ===== src/Memory/Pages.antt =====
-- The page table: memory/Memory.cpp, `MapPhysical` and `UnmapPhysical`.
use m1switch.Base.{
  ltb-false, ltb-ge, ==_ne, ℕ, ◌+◌, ◌%◌, ◌≤◌, Bool, true, false, not, ◌||◌, ◌==◌, ltb, Bool-cases,
  ==_iff, ◌≢◌, ◌≡◌, refl, sym, ◌∙◌, ◌⊎◌, inl, inr, List, [], ◌∷◌, Option, some, true-false,
}
use m1switch.Base.Bits.{u64_mod}
use m1switch.Memory.{
  Result, success, invalid_argument, out_of_memory, failed, page_size, addr_space_size, is_aligned,
  Permission, perm_code, Mach, PageInfo, Memory, erase, find_page, track_page, map_host,
  map_physical, unmap_physical,
}

pub failed-success {κ} : {P : Type κ} (r : Result) → failed r ≡ true → r ≡ success → P
unfolding failed
failed-success success f s = cc
failed-success invalid_argument f s = cc
failed-success out_of_memory f s = cc

pub find_page-track_page :
    (key size : ℕ) (perm : Permission) (pages : List (ℕ × PageInfo))
    → find_page key (track_page key size perm pages)
      ≡ some (record { size = size; flags = perm_code perm })
unfolding find_page track_page
find_page-track_page key size perm pages = rw ((==_iff key key).1 refl) refl

pub find_page-erase_ne :
    (key other : ℕ) (pages : List (ℕ × PageInfo))
    → other ≢ key
    → find_page key (erase other pages) ≡ find_page key pages
unfolding find_page erase
find_page-erase_ne key other [] ne = refl
find_page-erase_ne key other ((k, info) ∷ pages) ne = elim (Bool-cases (k == other)) [
  | inl e ↦
      let at : k ≡ other = (==_iff k other).0 e in
      rw (e, ==_ne k key (λ q. ne (sym at ∙ q))) (find_page-erase_ne key other pages ne)
  | inr e ↦ elim (Bool-cases (k == key)) [
    | inl f ↦ rw (e, f) refl
    | inr f ↦ rw (e, f) (find_page-erase_ne key other pages ne)
  ]
]

-- What the guards of `MapPhysical` leave.
unfoldable pub Guarded : ℕ → ℕ → Type 0
Guarded address size =
    (address % page_size ≡ 0)
    × (size % page_size ≡ 0)
    × ((address + size) % u64_mod ≤ addr_space_size)

both_true : (a b : Bool) → (not a || not b) ≡ false → (a ≡ true) × (b ≡ true)
both_true true true h = (refl, refl)
both_true true false h = cc
both_true false b h = cc

guarded :
    (address size : ℕ)
    → (not (is_aligned address) || not (is_aligned size)) ≡ false
    → ltb addr_space_size ((address + size) % u64_mod) ≡ false
    → Guarded address size
unfolding is_aligned Guarded
guarded address size h k =
    let (a, b) = both_true (is_aligned address) (is_aligned size) h in
    (
      (==_iff (address % page_size) 0).0 a,
      (==_iff (size % page_size) 0).0 b,
      ltb-false addr_space_size ((address + size) % u64_mod) k,
    )

-- What `MapPhysical` did: it refused, the host refused, or the page is tracked.
pub record Mapped {ℓ} {Host : Type ℓ} (address size : ℕ) (perm : Permission) (m : Memory Host)
    (r : Result × Memory Host) : Type ℓ where
  pub heap_kept : r.1.heap_size ≡ m.heap_size
  pub outcome :
      ((failed r.0 ≡ true) × (r.1.pages ≡ m.pages))
      ⊎ ((r.0 ≡ success)
          × (r.1.pages ≡ track_page address size perm m.pages)
          × Guarded address size)

module _ {ℓ} {Host : Type ℓ} where
  pub Mapped-failed :
      (address size : ℕ) (perm : Permission) (m : Memory Host) (r : Result × Memory Host)
      → Mapped address size perm m r
      → failed r.0 ≡ true
      → r.1.pages ≡ m.pages
  Mapped-failed address size perm m r mapped bad = elim mapped.outcome [
    | inl (f, same) ↦ same
    | inr (s, page, g) ↦ failed-success r.0 bad s
  ]

  pub Mapped-success :
      (address size : ℕ) (perm : Permission) (m : Memory Host) (r : Result × Memory Host)
      → Mapped address size perm m r
      → failed r.0 ≡ false
      → r.1.pages ≡ track_page address size perm m.pages
  Mapped-success address size perm m r mapped fine = elim mapped.outcome [
    | inl (f, same) ↦ true-false (failed r.0) f fine
    | inr (s, page, g) ↦ page
  ]

  pub Mapped-size :
      (address size : ℕ) (perm : Permission) (m : Memory Host) (r : Result × Memory Host)
      → Mapped address size perm m r
      → failed r.0 ≡ false
      → size % page_size ≡ 0
  unfolding Guarded
  Mapped-size address size perm m r mapped fine = elim mapped.outcome [
    | inl (f, same) ↦ true-false (failed r.0) f fine
    | inr (s, page, g) ↦ g.1
  ]

module _ {ℓ} {Host : Type ℓ} (mach : Mach Host) where
  pub unmap_physical-heap_size :
      (address size : ℕ) (m : Memory Host)
      → (unmap_physical mach address size m).1.heap_size ≡ m.heap_size
  unfolding unmap_physical
  unmap_physical-heap_size address size m = elim (Bool-cases (is_aligned address)) [
    | inr e ↦ rw (e) refl
    | inl e ↦
        elim (Bool-cases (mach.vm_deallocate ((m.base_addr + address) % u64_mod) size m.host).0) [
          | inl ok ↦ rw (e, ok) refl
          | inr bad ↦ rw (e, bad) refl
        ]
  ]

  pub map_physical-Mapped :
      (address size : ℕ) (perm : Permission) (bytes : Option (List ℕ)) (m : Memory Host)
      → Mapped address size perm m (map_physical mach address size perm bytes m)
  unfolding map_physical failed
  map_physical-Mapped address size perm bytes m =
      elim (Bool-cases (not (is_aligned address) || not (is_aligned size))) [
        | inl e ↦ rw (e) (record { heap_kept = refl; outcome = inl (refl, refl) })
        | inr a ↦ elim (Bool-cases (ltb addr_space_size ((address + size) % u64_mod))) [
          | inl e ↦ rw (a, e) (record { heap_kept = refl; outcome = inl (refl, refl) })
          | inr b ↦
              elim (Bool-cases
                (map_host mach ((m.base_addr + address) % u64_mod) size perm bytes m.host).0) [
                  | inl ok ↦
                      rw (a, b, ok)
                        (record {
                          heap_kept = refl;
                          outcome = inr (refl, refl, guarded address size a b);
                        })
                  | inr bad ↦
                      rw (a, b, bad) (record { heap_kept = refl; outcome = inl (refl, refl) })
                ]
        ]
      ]

  pub unmap_physical-find_page :
      (address size key : ℕ) (m : Memory Host)
      → address ≢ key
      → find_page key (unmap_physical mach address size m).1.pages ≡ find_page key m.pages
  unfolding unmap_physical
  unmap_physical-find_page address size key m ne = elim (Bool-cases (is_aligned address)) [
    | inr e ↦ rw (e) refl
    | inl e ↦
        elim (Bool-cases (mach.vm_deallocate ((m.base_addr + address) % u64_mod) size m.host).0) [
          | inl ok ↦ rw (e, ok) (find_page-erase_ne key address m.pages ne)
          | inr bad ↦ rw (e, bad) refl
        ]
  ]

  -- A mapping of whole pages inside the address space succeeds where the host grants it.
  pub map_physical-granted :
      (address size : ℕ) (perm : Permission) (bytes : Option (List ℕ)) (m : Memory Host)
      → ((addr n : ℕ) (h : Host) → (mach.vm_map addr n h).0 ≡ true)
      → Guarded address size
      → failed (map_physical mach address size perm bytes m).0 ≡ false
  unfolding map_physical map_host is_aligned Guarded failed
  map_physical-granted address size perm bytes m grants (a, s, f) =
      let whole : (address % page_size == 0) ≡ true = (==_iff (address % page_size) 0).1 a in
      let pages : (size % page_size == 0) ≡ true = (==_iff (size % page_size) 0).1 s in
      rw
        (
          whole,
          pages,
          ltb-ge addr_space_size ((address + size) % u64_mod) f,
          map_host,
          grants _ _ _,
        )
        refl
