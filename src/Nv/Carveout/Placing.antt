-- ===== src/Nv/Carveout/Placing.antt =====
-- services/Nv.cpp, HandleAlloc: a new allocation stands behind all the others.
use m1switch.Base.{
  ℕ, ◌+◌, ◌%◌, ◌≤◌, ◌==◌, Bool-cases, ==_iff, ◌≢◌, ◌≡◌, refl, sym, ap, subst, ◌∙◌, ◌⊎◌, inl, inr,
  List, some, modify, get_or-modify, true-false, arith,
}
use m1switch.Memory.{page_size, PageInfo, Memory, find_page, track_page, perm_rw, perm_code}
use m1switch.Memory.Pages.{find_page-track_page, find_page-erase_ne}
use m1switch.Nv.{carveout_base, carveout_size, NvMapEntry, zero_entry, NvMap}
use m1switch.Nv.Map.{place_at}
use m1switch.Nv.Carveout.{pages_of, Placed, Apart, Small, entry, Separate}

-- The page that holds an entry is still tracked after the next allocation: only an empty entry can
-- stand where that one starts.
keep_tracked :
    (addr size key wide : ℕ) (pages : List (ℕ × PageInfo))
    → key + wide ≤ addr
    → (info : PageInfo) × (find_page key pages ≡ some info) × (wide ≤ info.size)
    → (info : PageInfo) × (find_page key (track_page addr size perm_rw pages) ≡ some info)
      × (wide ≤ info.size)
unfolding find_page track_page
keep_tracked addr size key wide pages h t = elim (Bool-cases (addr == key)) [
  | inl e ↦
      let at : addr ≡ key = (==_iff addr key).0 e in
      rw (e) ((record { size = size; flags = perm_code perm_rw }), refl, omega arith)
  | inr e ↦ rw (e) (
    t.0,
    find_page-erase_ne key addr pages (λ q. true-false (addr == key) ((==_iff addr key).1 q) e)
        ∙ t.1,
    t.2,
  )
]

keep-Placed :
    (off a : ℕ) (pages : List (ℕ × PageInfo)) (e : NvMapEntry)
    → Placed off pages e
    → Placed (off + a) (track_page (carveout_base + off) a perm_rw pages) e
keep-Placed off a pages e p = record {
  low = p.low;
  high = omega (arith, p.high);
  flagged = p.flagged;
  same_iova = p.same_iova;
  tracked = keep_tracked (carveout_base + off) a e.addr e.size pages p.high p.tracked;
}

new-Placed :
    (off a : ℕ) (pages : List (ℕ × PageInfo)) (e : NvMapEntry)
    → e.size ≤ a
    → Placed
        (off + a)
        (track_page (carveout_base + off) a perm_rw pages)
        (place_at (carveout_base + off) e)
unfolding place_at
new-Placed off a pages e h = record {
  low = omega arith;
  high = omega arith;
  flagged = refl;
  same_iova = refl;
  tracked = (
    (record { size = a; flags = perm_code perm_rw }),
    find_page-track_page (carveout_base + off) a perm_rw pages,
    h,
  );
}

module _ {ℓ} {Host : Type ℓ} where
  -- The table with entry `i` at the end of the carveout's used part.
  unfoldable pub placed_map : ℕ → ℕ → Memory Host → NvMap Host → NvMap Host
  placed_map i a m nv = record nv {
    entries = modify nv.entries i (place_at (carveout_base + nv.carveout_offset));
    carveout_offset = nv.carveout_offset + a;
    memory = some m;
  }

  entry-placed_map :
      (i a : ℕ) (m : Memory Host) (nv : NvMap Host) (j : ℕ)
      → ((i ≡ j)
          × (entry j (placed_map i a m nv)
              ≡ place_at (carveout_base + nv.carveout_offset) (entry j nv)))
        ⊎ (entry j (placed_map i a m nv) ≡ entry j nv)
  unfolding placed_map entry
  entry-placed_map i a m nv j =
      get_or-modify nv.entries i j (place_at (carveout_base + nv.carveout_offset)) zero_entry

  -- An entry of before ends where the new allocation starts.
  behind :
      (nv : NvMap Host) (j k : ℕ)
      → Separate nv
      → (entry k nv).addr ≢ 0
      → Apart (place_at (carveout_base + nv.carveout_offset) (entry j nv)) (entry k nv)
        × Apart (entry k nv) (place_at (carveout_base + nv.carveout_offset) (entry j nv))
  unfolding Apart place_at
  behind nv j k s live = (inr (s.placed k live).high, inl (s.placed k live).high)

  place-Apart :
      (i a : ℕ) (m : Memory Host) (nv : NvMap Host)
      → Separate nv
      → (j k : ℕ) → j ≢ k
      → (entry j (placed_map i a m nv)).addr ≢ 0
      → (entry k (placed_map i a m nv)).addr ≢ 0
      → Apart (entry j (placed_map i a m nv)) (entry k (placed_map i a m nv))
  place-Apart i a m nv s j k ne lj lk = elim (entry-placed_map i a m nv j) [
    | inl (ij, cj) ↦ elim (entry-placed_map i a m nv k) [
      | inl (ik, ck) ↦ absurd (ne (sym ij ∙ ik))
      | inr ck ↦ subst (Apart (entry j (placed_map i a m nv))) (sym ck) (
          subst (λ e. Apart e (entry k nv)) (sym cj)
            (behind nv j k s (λ z. lk (ap (λ (e : NvMapEntry). e.addr) ck ∙ z))).0)
    ]
    | inr cj ↦ elim (entry-placed_map i a m nv k) [
      | inl (ik, ck) ↦ subst (Apart (entry j (placed_map i a m nv))) (sym ck) (
          subst (λ e. Apart e (place_at (carveout_base + nv.carveout_offset) (entry k nv))) (sym cj)
            (behind nv k j s (λ z. lj (ap (λ (e : NvMapEntry). e.addr) cj ∙ z))).1)
      | inr ck ↦ subst (Apart (entry j (placed_map i a m nv))) (sym ck) (
          subst (λ e. Apart e (entry k nv)) (sym cj)
            (s.apart j k ne (λ z. lj (ap (λ (e : NvMapEntry). e.addr) cj ∙ z))
              (λ z. lk (ap (λ (e : NvMapEntry). e.addr) ck ∙ z))))
    ]
  ]

  place-Placed :
      (i a : ℕ) (m : Memory Host) (nv : NvMap Host)
      → m.pages ≡ track_page (carveout_base + nv.carveout_offset) a perm_rw (pages_of nv.memory)
      → (entry i nv).size ≤ a
      → Separate nv
      → (j : ℕ) → (entry j (placed_map i a m nv)).addr ≢ 0
      → Placed (nv.carveout_offset + a) m.pages (entry j (placed_map i a m nv))
  place-Placed i a m nv page wide s j live = elim (entry-placed_map i a m nv j) [
    | inl (at, changed) ↦ subst (Placed (nv.carveout_offset + a) m.pages) (sym changed) (
        subst
          (λ t.
            Placed (nv.carveout_offset + a) t
              (place_at (carveout_base + nv.carveout_offset) (entry j nv)))
          (sym page)
          (new-Placed nv.carveout_offset a (pages_of nv.memory) (entry j nv)
            (subst (λ (t : ℕ). (entry t nv).size ≤ a) at wide)))
    | inr same ↦ subst (Placed (nv.carveout_offset + a) m.pages) (sym same) (
        subst (λ t. Placed (nv.carveout_offset + a) t (entry j nv)) (sym page)
          (keep-Placed nv.carveout_offset a (pages_of nv.memory) (entry j nv)
            (s.placed j (λ z. live (ap (λ (e : NvMapEntry). e.addr) same ∙ z)))))
  ]

  place-Small :
      (i a : ℕ) (m : Memory Host) (nv : NvMap Host)
      → Separate nv
      → (j : ℕ) → Small (entry j (placed_map i a m nv))
  unfolding Small place_at
  place-Small i a m nv s j = elim (entry-placed_map i a m nv j) [
    | inl (at, changed) ↦ subst Small (sym changed) (s.small j)
    | inr same ↦ subst Small (sym same) (s.small j)
  ]

  pub placed_map-Separate :
      (i a : ℕ) (m : Memory Host) (nv : NvMap Host)
      → m.pages ≡ track_page (carveout_base + nv.carveout_offset) a perm_rw (pages_of nv.memory)
      → (entry i nv).size ≤ a
      → nv.carveout_offset + a ≤ carveout_size
      → a % page_size ≡ 0
      → Separate nv
      → Separate (placed_map i a m nv)
  unfolding placed_map pages_of
  placed_map-Separate i a m nv page wide fits pages s = record {
    bounded = fits;
    whole = omega (arith, s.whole, pages);
    small = place-Small i a m nv s;
    placed = place-Placed i a m nv page wide s;
    apart = place-Apart i a m nv s;
  }
