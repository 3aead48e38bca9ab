-- ===== src/Nv/Carveout/Progress.antt =====
-- services/Nv.cpp, HandleAlloc: when an entry gets its memory.
use m1switch.Base.{
  ℕ, ◌+◌, ◌-◌, ◌%◌, ◌≤◌, ◌<◌, true, false, ltb, if_all, ==_ne, length-modify, ltb-ge, true-false,
  if◌then◌else◌, ◌≡◌, refl, sym, ap, subst, ◌∙◌, inl, inr, List, Option, none, some, length, get_or,
  modify, get_or-modify_self, arith,
}
use m1switch.Base.Bits.{u32_mod, u64_mod, bit_and-low}
use m1switch.Base.Bytes.{u8_at, u32_at, u32_at-lt}
use m1switch.Base.Dict.{lookup}
use m1switch.Memory.{failed, page_size, Memory, Mach, perm_rw}
use m1switch.Memory.Pages.{Guarded, map_physical-granted}
use m1switch.Nv.{align_up_to, carveout_base, carveout_size, NvMapEntry, zero_entry, NvMap}
use m1switch.Nv.Map.{alloc_size_of, place, place_at, alloc_entry, handle_alloc, request}
use m1switch.Nv.Carveout.{align_up_to-lt, entry, Small, Separate, modify-Separate, Calm-request}
use m1switch.Nv.Carveout.Placing.{placed_map}
use m1switch.Nv.Carveout.Alloc.{mapping, place-Tried}

-- A multiple of the page size as the alignment gives whole pages.
align_up_to-pages : (value a : ℕ) → 0 < a → a % page_size ≡ 0 → align_up_to value a % page_size ≡ 0
unfolding align_up_to
align_up_to-pages value a pos h =
    omega (arith, bit_and-low 12 ((value + a - 1) % u64_mod) (a - 1) (omega arith))

-- The alignment that a request sets.
unfoldable pub asked : ℕ → ℕ
asked align = if ltb 0 align then align else 0x1000

asked-pages :
    (align : ℕ) → align % page_size ≡ 0 → (0 < asked align) × (asked align % page_size ≡ 0)
unfolding asked
asked-pages align h = ground (arith, h)

-- Any requested alignment of whole pages gives an allocation of whole pages.
request-size :
    (flags align kind : ℕ) (e : NvMapEntry)
    → Small e
    → align < u32_mod
    → align % page_size ≡ 0
    → (alloc_size_of (request flags align kind e) % page_size ≡ 0)
      × (alloc_size_of (request flags align kind e) < e.size + asked align)
unfolding alloc_size_of request asked Small
request-size flags align kind e sm h pages =
    let a : ℕ = asked align in
    let good : (0 < a) × (a % page_size ≡ 0) = asked-pages align pages in
    let small : a < u32_mod = if_all (λ (t : ℕ). t < u32_mod) (ltb 0 align) h (omega arith) in
    rw (==_ne a 0 (λ z. omega (arith, z, good.0))) (
      align_up_to-pages e.size a good.0 good.1,
      align_up_to-lt e.size a good.0 (omega (arith, sm.0, small)),
    )

module _ {ℓ} {Host : Type ℓ} (mach : Mach Host) where
  place-granted :
      (i : ℕ) (m : Memory Host) (nv : NvMap Host)
      → ((addr n : ℕ) (h : Host) → (mach.vm_map addr n h).0 ≡ true)
      → Separate nv
      → alloc_size_of (entry i nv) % page_size ≡ 0
      → nv.carveout_offset + alloc_size_of (entry i nv) ≤ carveout_size
      → place mach i m nv ≡ placed_map i (alloc_size_of (entry i nv)) (mapping mach i m nv).1 nv
  unfolding mapping Guarded
  place-granted i m nv grants s pages room =
      let fine : failed (mapping mach i m nv).0 ≡ false =
        map_physical-granted mach (carveout_base + nv.carveout_offset) (alloc_size_of (entry i nv))
          perm_rw none m grants (omega (arith, s.whole), pages, omega (arith, room)) in
      elim (place-Tried mach i m nv s).outcome [
        | inl (full, kept) ↦ absurd (omega (arith, full, room))
        | inr (inl (fits, bad, same, after)) ↦ true-false (failed (mapping mach i m nv).0) bad fine
        | inr (inr (fits, good, page, whole, after)) ↦ after
      ]

  handle_alloc-known :
      (inp : List ℕ) (room i : ℕ) (nv : NvMap Host)
      → 0x20 ≤ length inp
      → lookup (u32_at 0 inp) nv.handle_index ≡ some i
      → (handle_alloc mach inp room nv).1
        ≡ alloc_entry mach i (u32_at 8 inp) (u32_at 12 inp) (u8_at 16 inp) nv
  unfolding handle_alloc
  handle_alloc-known inp room i nv long there =
      rw (ltb-ge (length inp) 0x20 long, handle_alloc, there) refl

  alloc_entry-free :
      (i flags align kind : ℕ) (m : Memory Host) (nv : NvMap Host)
      → nv.memory ≡ some m
      → (get_or (modify nv.entries i (request flags align kind)) i zero_entry).addr ≡ 0
      → alloc_entry mach i flags align kind nv
        ≡ place mach i m (record nv { entries = modify nv.entries i (request flags align kind) })
  unfolding alloc_entry
  alloc_entry-free i flags align kind m nv set free =
      let nv' : NvMap Host = record nv {
        entries = modify nv.entries i (request flags align kind);
      } in
      rw (free, alloc_entry)
        (ap (λ (o : Option (Memory Host)). elim o [ none ↦ nv' | some m ↦ place mach i m nv' ]) set)

  placed_at :
      (i a bound : ℕ) (m : Memory Host) (nv : NvMap Host)
      → i < length nv.entries
      → a < bound
      → ((entry i (placed_map i a m nv)).addr ≡ carveout_base + nv.carveout_offset)
        × ((entry i (placed_map i a m nv)).iova ≡ carveout_base + nv.carveout_offset)
        × ((placed_map i a m nv).carveout_offset < nv.carveout_offset + bound)
  unfolding entry placed_map place_at
  placed_at i a bound m nv below h =
      let addr : ℕ = carveout_base + nv.carveout_offset in
      let here : get_or (modify nv.entries i (place_at addr)) i zero_entry
          ≡ place_at addr (entry i nv) =
        get_or-modify_self nv.entries i (place_at addr) zero_entry below in
      (ap (λ (e : NvMapEntry). e.addr) here, ap (λ (e : NvMapEntry). e.iova) here, omega (arith, h))

  -- An Alloc of 32 bytes or more for a known handle, whose entry has no address, with an alignment
  -- that is 0 or a multiple of the page size: if the guest memory is set, the host grants every
  -- mapping, and the size with its alignment fits in what is left of the carveout, then the entry
  -- is placed at the end of the used part, its IOVA being that address, and the used part grows by
  -- at most the size and the alignment.
  pub handle_alloc-placed :
      (inp : List ℕ) (room i : ℕ) (m : Memory Host) (nv : NvMap Host)
      → ((addr n : ℕ) (h : Host) → (mach.vm_map addr n h).0 ≡ true)
      → Separate nv
      → 0x20 ≤ length inp
      → lookup (u32_at 0 inp) nv.handle_index ≡ some i
      → i < length nv.entries
      → nv.memory ≡ some m
      → (entry i nv).addr ≡ 0
      → u32_at 12 inp % page_size ≡ 0
      → nv.carveout_offset + ((entry i nv).size + asked (u32_at 12 inp)) ≤ carveout_size
      → ((entry i (handle_alloc mach inp room nv).1).addr ≡ carveout_base + nv.carveout_offset)
        × ((entry i (handle_alloc mach inp room nv).1).iova ≡ carveout_base + nv.carveout_offset)
        × ((handle_alloc mach inp room nv).1.carveout_offset
            < nv.carveout_offset + ((entry i nv).size + asked (u32_at 12 inp)))
  unfolding entry request Small
  handle_alloc-placed inp room i m nv grants s long there below set free pages fits =
      let f : NvMapEntry → NvMapEntry = request (u32_at 8 inp) (u32_at 12 inp) (u8_at 16 inp) in
      let nv' : NvMap Host = record nv { entries = modify nv.entries i f } in
      let s' : Separate nv' =
        modify-Separate nv i f
          (λ e sm.
            Calm-request (u32_at 8 inp) (u32_at 12 inp) (u8_at 16 inp) e (u32_at-lt 12 inp) sm)
          s in
      let e' : entry i nv' ≡ f (entry i nv) = get_or-modify_self nv.entries i f zero_entry below in
      let size : (alloc_size_of (entry i nv') % page_size ≡ 0)
          × (alloc_size_of (entry i nv') < (entry i nv).size + asked (u32_at 12 inp)) =
        subst
          (λ e.
            (alloc_size_of e % page_size ≡ 0)
            × (alloc_size_of e < (entry i nv).size + asked (u32_at 12 inp)))
          (sym e')
          (request-size (u32_at 8 inp) (u32_at 12 inp) (u8_at 16 inp) (entry i nv) (s.small i)
            (u32_at-lt 12 inp) pages) in
      let done : (handle_alloc mach inp room nv).1
          ≡ placed_map i (alloc_size_of (entry i nv')) (mapping mach i m nv').1 nv' =
        handle_alloc-known inp room i nv long there
        ∙ alloc_entry-free i (u32_at 8 inp) (u32_at 12 inp) (u8_at 16 inp) m nv set
            (ap (λ (e : NvMapEntry). e.addr) e' ∙ free)
        ∙ place-granted i m nv' grants s' size.0 (omega (arith, size.1, fits)) in
      subst
        (λ after.
          ((entry i after).addr ≡ carveout_base + nv.carveout_offset)
          × ((entry i after).iova ≡ carveout_base + nv.carveout_offset)
          × (after.carveout_offset
              < nv.carveout_offset + ((entry i nv).size + asked (u32_at 12 inp))))
        (sym done)
        (placed_at i (alloc_size_of (entry i nv')) ((entry i nv).size + asked (u32_at 12 inp))
          (mapping mach i m nv').1 nv' (omega (arith, below, length-modify nv.entries i f))
          (omega (arith, size.1)))
