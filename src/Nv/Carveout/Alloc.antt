-- ===== src/Nv/Carveout/Alloc.antt =====
-- services/Nv.cpp, HandleAlloc: what becomes of an entry without memory.
use m1switch.Base.{
  ℕ, ◌+◌, ◌%◌, ◌≤◌, ◌<◌, true, false, ◌==◌, ltb, Bool-cases, Option-cases, ltb-false, ltb→lt, ◌≡◌,
  refl, sym, ap, subst, ◌∙◌, ◌⊎◌, inl, inr, none, some, get_or, modify, arith,
}
use m1switch.Base.Bits.{u32_mod, u64_mod}
use m1switch.Memory.{Result, failed, page_size, Memory, Mach, track_page, perm_rw, map_physical}
use m1switch.Memory.Pages.{Mapped, map_physical-Mapped, Mapped-failed, Mapped-success, Mapped-size}
use m1switch.Nv.{carveout_base, carveout_size, NvMapEntry, zero_entry, NvMap}
use m1switch.Nv.Map.{alloc_size_of, place, alloc_entry, request}
use m1switch.Nv.Carveout.{
  align_up_to-ge, align_up_to-lt, pages_of, Placed, Small, entry, Separate, modify-Separate,
  Calm-request,
}
use m1switch.Nv.Carveout.Placing.{placed_map, placed_map-Separate}

pub alloc_size_of-bounds :
    (e : NvMapEntry) → Small e → (e.size ≤ alloc_size_of e) × (alloc_size_of e < 0x2_0000_0000)
unfolding alloc_size_of Small
alloc_size_of-bounds e sm = elim (Bool-cases (e.align == 0)) [
  | inl z ↦ rw (z) (
    align_up_to-ge e.size 0x1000 (omega arith) (omega (arith, sm.0)),
    omega (arith, sm.0, align_up_to-lt e.size 0x1000 (omega arith) (omega (arith, sm.0))),
  )
  | inr z ↦
      let pos : 0 < e.align = ground (arith, z) in
      rw (z) (
        align_up_to-ge e.size e.align pos (omega (arith, sm.0, sm.1)),
        omega (arith, sm.0, sm.1, align_up_to-lt e.size e.align pos (omega (arith, sm.0, sm.1))),
      )
]

module _ {ℓ} {Host : Type ℓ} (mach : Mach Host) where
  -- The mapping that Alloc asks for.
  unfoldable pub mapping : ℕ → Memory Host → NvMap Host → Result × Memory Host
  unfolding entry
  mapping i m nv =
      map_physical mach (carveout_base + nv.carveout_offset) (alloc_size_of (entry i nv)) perm_rw
        none m

  -- An entry is placed at the end of the used part, or stays without memory: the carveout is full,
  -- or the mapping failed.
  pub record Tried (i : ℕ) (m : Memory Host) (nv after : NvMap Host) : Type ℓ where
    pub outcome :
        ((carveout_size < nv.carveout_offset + alloc_size_of (entry i nv)) × (after ≡ nv))
        ⊎ ((nv.carveout_offset + alloc_size_of (entry i nv) ≤ carveout_size)
            × (failed (mapping i m nv).0 ≡ true)
            × ((mapping i m nv).1.pages ≡ m.pages)
            × (after ≡ record nv { memory = some (mapping i m nv).1 }))
        ⊎ ((nv.carveout_offset + alloc_size_of (entry i nv) ≤ carveout_size)
            × (failed (mapping i m nv).0 ≡ false)
            × ((mapping i m nv).1.pages
                ≡ track_page
                    (carveout_base + nv.carveout_offset)
                    (alloc_size_of (entry i nv))
                    perm_rw
                    m.pages)
            × (alloc_size_of (entry i nv) % page_size ≡ 0)
            × (after ≡ placed_map i (alloc_size_of (entry i nv)) (mapping i m nv).1 nv))

  pub place-Tried :
      (i : ℕ) (m : Memory Host) (nv : NvMap Host) → Separate nv → Tried i m nv (place mach i m nv)
  unfolding place placed_map entry mapping
  place-Tried i m nv s =
      let a : ℕ = alloc_size_of (entry i nv) in
      let b : (nv.carveout_offset ≤ carveout_size) × (a < 0x2_0000_0000) =
        (s.bounded, (alloc_size_of-bounds (entry i nv) (s.small i)).1) in
      let flat : (nv.carveout_offset + a) % u64_mod ≡ nv.carveout_offset + a = omega arith in
      let base : (carveout_base + nv.carveout_offset) % u64_mod
          ≡ carveout_base + nv.carveout_offset =
        omega arith in
      let got : Mapped (carveout_base + nv.carveout_offset) a perm_rw m (mapping i m nv) =
        map_physical-Mapped mach (carveout_base + nv.carveout_offset) a perm_rw none m in
      elim (Bool-cases (ltb carveout_size (nv.carveout_offset + a))) [
        | inl full ↦ record {
          outcome = inl (ltb→lt carveout_size (nv.carveout_offset + a) full, rw (flat, full) refl);
        }
        | inr room ↦ elim (Bool-cases (failed (mapping i m nv).0)) [
          | inl bad ↦ record {
            outcome = inr (
                inl (
                  ltb-false carveout_size (nv.carveout_offset + a) room,
                  bad,
                  Mapped-failed (carveout_base + nv.carveout_offset) a perm_rw m (mapping i m nv)
                      got bad,
                  rw (flat, room, base, bad) refl,
                ));
          }
          | inr fine ↦ record {
            outcome = inr (
                inr (
                  ltb-false carveout_size (nv.carveout_offset + a) room,
                  fine,
                  Mapped-success (carveout_base + nv.carveout_offset) a perm_rw m (mapping i m nv)
                      got fine,
                  Mapped-size (carveout_base + nv.carveout_offset) a perm_rw m (mapping i m nv) got
                      fine,
                  rw (flat, room, base, fine) refl,
                ));
          }
        ]
      ]

  same_pages :
      (nv : NvMap Host) (m m' : Memory Host)
      → nv.memory ≡ some m
      → m'.pages ≡ m.pages
      → Separate nv
      → Separate (record nv { memory = some m' })
  unfolding pages_of entry
  same_pages nv m m' at same s = record {
    bounded = s.bounded;
    whole = s.whole;
    small = s.small;
    placed = λ i live.
        subst (λ t. Placed nv.carveout_offset t (entry i nv)) (ap pages_of at ∙ sym same)
          (s.placed i live);
    apart = s.apart;
  }

  pub place-Separate :
      (i : ℕ) (m : Memory Host) (nv : NvMap Host)
      → nv.memory ≡ some m
      → Separate nv
      → Separate (place mach i m nv)
  unfolding pages_of
  place-Separate i m nv at s =
      let tried : Tried i m nv (place mach i m nv) = place-Tried i m nv s in
      elim tried.outcome [
        | inl (full, kept) ↦ subst Separate (sym kept) s
        | inr (inl (room, bad, same, after)) ↦
            subst Separate (sym after) (same_pages nv m (mapping i m nv).1 at same s)
        | inr (inr (room, fine, page, pages, after)) ↦ subst Separate (sym after) (
            placed_map-Separate i (alloc_size_of (entry i nv)) (mapping i m nv).1 nv
              (page
                ∙ ap
                    (track_page (carveout_base + nv.carveout_offset) (alloc_size_of (entry i nv))
                      perm_rw)
                    (sym (ap pages_of at)))
              (alloc_size_of-bounds (entry i nv) (s.small i)).0 room pages s)
      ]

  pub alloc_entry-Separate :
      (i flags align kind : ℕ) (nv : NvMap Host)
      → align < u32_mod
      → Separate nv
      → Separate (alloc_entry mach i flags align kind nv)
  unfolding alloc_entry
  alloc_entry-Separate i flags align kind nv h s =
      let nv' : NvMap Host = record nv {
        entries = modify nv.entries i (request flags align kind);
      } in
      let s' : Separate nv' =
        modify-Separate nv i (request flags align kind)
          (λ e sm. Calm-request flags align kind e h sm) s in
      elim (Bool-cases ((get_or nv'.entries i zero_entry).addr == 0)) [
        | inr live ↦ rw (live) s'
        | inl free ↦ elim (Option-cases nv.memory) [
          | inl unset ↦ rw (free, unset) s'
          | inr (m, at) ↦ rw (free, at) (place-Separate i m nv' at s')
        ]
      ]
