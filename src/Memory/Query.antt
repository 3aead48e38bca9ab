-- ===== src/Memory/Query.antt =====
-- memory/Memory.cpp: `QueryRegion` and the order in which the page table is walked.
use mathlib.Core.List.{Memᴰ}
use mathlib.Core.List.Memᴰ
use m1switch.Base.{
  ℕ, ◌+◌, ◌%◌, ◌≤◌, ◌<◌, Bool, true, false, ◌&&◌, ltb, leb, Bool-cases, ◌≡◌, refl, sym, ap, subst,
  ◌∙◌, inl, inr, List, [], ◌∷◌, none, some, arith,
}
use m1switch.Base.Bits.{u64_mod}
use m1switch.Memory.{PageInfo, page_of, region_type, query_region}

-- A page holds an address.
unfoldable pub Holds : ℕ → ℕ × PageInfo → Type 0
Holds address (k, info) = (k ≤ address) × (address < k + info.size)

test-true :
    (address k size : ℕ)
    → k + size < u64_mod
    → (leb k address && ltb address ((k + size) % u64_mod)) ≡ true
    → (k ≤ address) × (address < k + size)
test-true address k size h t = ground arith

test-held :
    (address k size : ℕ)
    → k + size < u64_mod
    → k ≤ address
    → address < k + size
    → (leb k address && ltb address ((k + size) % u64_mod)) ≡ true
test-held address k size h a b = ground arith

-- No page of the table reaches 2^64.
unfoldable pub Bounded : List (ℕ × PageInfo) → Type 0
Bounded pages = (q : ℕ × PageInfo) → Memᴰ q pages → q.0 + q.1.size < u64_mod

module _ (address : ℕ) where
  page_test : ℕ → PageInfo → Bool
  page_test k info = leb k address && ltb address ((k + info.size) % u64_mod)

  held-true :
      {P : Type 0} (q : ℕ × PageInfo)
      → q.0 + q.1.size < u64_mod
      → Holds address q
      → page_test q.0 q.1 ≡ false
      → P
  unfolding Holds page_test
  held-true (k, info) fits h t = differ (sym t ∙ test-held address k info.size fits h.0 h.1)
    where
      differ : {P : Type 0} → false ≡ true → P
      differ e = cc

  page_of-held :
      (pages : List (ℕ × PageInfo)) (p : ℕ × PageInfo)
      → Bounded pages
      → ((q : ℕ × PageInfo) → Memᴰ q pages → Holds address q → q ≡ p)
      → Memᴰ p pages
      → Holds address p
      → page_of address pages ≡ some p
  unfolding page_of Bounded page_test Holds
  page_of-held [] p fits only m h = absurd (Memᴰ.not-nil m)
  page_of-held ((k, info) ∷ pages) p fits only m h = elim (Bool-cases (page_test k info)) [
    | inl t ↦ rw (t) (
        ap some (
          only (k, info) (Memᴰ.head refl)
            (test-true address k info.size (fits (k, info) (Memᴰ.head refl)) t)))
    | inr t ↦ rw (t) (
        page_of-held pages p (λ q n. fits q (Memᴰ.tail n)) (λ q n. only q (Memᴰ.tail n)) (later m t)
          h)
  ]
    where
      later : Memᴰ p ((k, info) ∷ pages) → page_test k info ≡ false → Memᴰ p pages
      later (Memᴰ.tail n) t = n
      later (Memᴰ.head e) t =
          held-true (k, info) (fits (k, info) (Memᴰ.head refl)) (subst (Holds address) e h) t

  page_of-not_held :
      (pages : List (ℕ × PageInfo))
      → Bounded pages
      → ((q : ℕ × PageInfo) → Memᴰ q pages → ¬ Holds address q)
      → page_of address pages ≡ none
  unfolding page_of Bounded page_test Holds
  page_of-not_held [] fits out = refl
  page_of-not_held ((k, info) ∷ pages) fits out = elim (Bool-cases (page_test k info)) [
    | inl t ↦ absurd (
        out (k, info) (Memᴰ.head refl)
          (test-true address k info.size (fits (k, info) (Memᴰ.head refl)) t))
    | inr t ↦
        rw (t) (page_of-not_held pages (λ q n. fits q (Memᴰ.tail n)) (λ q n. out q (Memᴰ.tail n)))
  ]

  -- When exactly one page of the table holds the address, in whatever order the table is walked,
  -- QueryRegion returns that page's base, its size and its type; no page may reach 2^64.
  pub query_region-held :
      (pages : List (ℕ × PageInfo)) (p : ℕ × PageInfo)
      → Bounded pages
      → ((q : ℕ × PageInfo) → Memᴰ q pages → Holds address q → q ≡ p)
      → Memᴰ p pages
      → Holds address p
      → query_region address pages ≡ (p.0, p.1.size, region_type p.0 p.1.flags)
  unfolding query_region
  query_region-held pages p fits only m h =
      rw (page_of-held pages p fits only m h, query_region) refl

  -- When no page of the table holds the address, QueryRegion returns a page at the address itself
  -- with the type of unmapped memory; no page may reach 2^64.
  pub query_region-not_held :
      (pages : List (ℕ × PageInfo))
      → Bounded pages
      → ((q : ℕ × PageInfo) → Memᴰ q pages → ¬ Holds address q)
      → query_region address pages ≡ (address, 0x1000, 3)
  unfolding query_region
  query_region-not_held pages fits out = rw (page_of-not_held pages fits out, query_region) refl
