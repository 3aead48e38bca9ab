-- ===== src/Nv/Handles/Create.antt =====
-- Handles and ids of services/Nv.cpp, after any sequence of commands.
use m1switch.Base.{
  ℕ, suc, ◌+◌, ◌%◌, ◌^◌, ◌<◌, ◌==◌, ltb, Bool-cases, Option-cases, if_all, if◌then◌else◌, refl,
  subst, inl, inr, List, [], ◌∷◌, Option, none, some, length, get_or, modify, arith,
}
use m1switch.Base.Bits.{u32_mod, u64_mod}
use m1switch.Base.Bytes.{u8_at, u32_at}
use m1switch.Base.Dict.{lookup}
use m1switch.Memory.{Memory, Mach, map_physical, failed, perm_rw}
use m1switch.Service.{Reply}
use m1switch.Nv.{NvMapEntry, NvMap, new_map, zero_entry, carveout_base, carveout_size}
use m1switch.Nv.Map.{
  arg, request, place_at, release, alloc_size_of, place, alloc_entry, handle_create, handle_alloc,
  handle_free, handle_command, nvmap_alloc,
}
use m1switch.Nv.Carveout.{entry}
use m1switch.Nv.Carveout.Commands.{NvCall, command, api_alloc, perform, run_nvmap}
use m1switch.Nv.Handles.{Indexed, modify-Indexed, more-Indexed, add-Indexed}

module _ {ℓ} {Host : Type ℓ} (mach : Mach Host) where
  memory-Indexed :
      (n : ℕ) (nv : NvMap Host) (offset : ℕ) (memory : Option (Memory Host))
      → Indexed n nv
      → Indexed n (record nv { carveout_offset = offset; memory = memory })
  unfolding entry
  memory-Indexed n nv offset memory v = record {
    at_most = v.at_most;
    next = v.next;
    numbered = v.numbered;
    known = v.known;
    found = v.found;
  }

  place-Indexed :
      (n i : ℕ) (m : Memory Host) (nv : NvMap Host) → Indexed n nv → Indexed n (place mach i m nv)
  unfolding place place_at
  place-Indexed n i m nv v =
      let a : ℕ = alloc_size_of (get_or nv.entries i zero_entry) in
      let addr : ℕ = (carveout_base + nv.carveout_offset) % u64_mod in
      if_all (Indexed n) (ltb carveout_size ((nv.carveout_offset + a) % u64_mod)) v (
        if_all (Indexed n) (failed (map_physical mach addr a perm_rw none m).0)
          (memory-Indexed n nv nv.carveout_offset (some (map_physical mach addr a perm_rw none m).1)
            v)
          (memory-Indexed n (record nv { entries = modify nv.entries i (place_at addr) })
            ((nv.carveout_offset + a) % u64_mod) (some (map_physical mach addr a perm_rw none m).1)
            (modify-Indexed n i (place_at addr) nv (λ e. (refl, refl)) v)))

  alloc-Indexed :
      (n : ℕ) (inp : List ℕ) (room : ℕ) (nv : NvMap Host)
      → Indexed n nv
      → Indexed n (handle_alloc mach inp room nv).1
  unfolding handle_alloc alloc_entry request
  alloc-Indexed n inp room nv v = elim (Bool-cases (ltb (length inp) 0x20)) [
    | inl short ↦ rw (short) v
    | inr long ↦ elim (Option-cases (lookup (u32_at 0 inp) nv.handle_index)) [
      | inl unknown ↦ rw (long, unknown) v
      | inr (i, at) ↦
          let f : NvMapEntry → NvMapEntry = request (u32_at 8 inp) (u32_at 12 inp) (u8_at 16 inp) in
          let nv' : NvMap Host = record nv { entries = modify nv.entries i f } in
          let v' : Indexed n nv' = modify-Indexed n i f nv (λ e. (refl, refl)) v in
          rw (long, at)
            (if_all (Indexed n) ((get_or nv'.entries i zero_entry).addr == 0)
              (elim (Option-cases nv.memory) [
                | inl unset ↦ rw (unset) v'
                | inr (m, set) ↦ rw (set) (place-Indexed n i m nv' v')
              ])
              v')
    ]
  ]

  free-Indexed :
      (n : ℕ) (inp : List ℕ) (room : ℕ) (nv : NvMap Host)
      → Indexed n nv
      → Indexed n (handle_free inp room nv).1
  unfolding handle_free release
  free-Indexed n inp room nv v = elim (Option-cases (lookup (arg 4 0 inp) nv.handle_index)) [
    | inl unknown ↦ rw (unknown, handle_free) v
    | inr (i, at) ↦ rw (at, handle_free) (modify-Indexed n i release nv (λ e. (refl, refl)) v)
  ]

  perform-Indexed :
      (n : ℕ) (c : NvCall) (nv : NvMap Host)
      → suc n < 2 ^ 16
      → Indexed n nv
      → Indexed (suc n) (perform mach c nv)
  unfolding perform handle_command handle_create nvmap_alloc
  perform-Indexed n (command cmd inp room) nv h v =
      let P : Reply × NvMap Host → Type ℓ = λ r. Indexed (suc n) r.1 in
      let w : Indexed (suc n) nv = more-Indexed n nv v in
      if_all P (cmd == 0xC010_0001) (add-Indexed n (arg 4 0 inp) 0x1000 nv h v) (
        if_all P (cmd == 0xC008_0002) w (
          if_all P (cmd == 0xC020_0004) (alloc-Indexed (suc n) inp room nv w) (
            if_all P (cmd == 0xC018_0005) (free-Indexed (suc n) inp room nv w) (
              if_all P (cmd == 0xC00C_0007) w
                (if_all P (cmd == 0xC008_000E) w (if_all P (cmd == 0xC008_000F) w w))))))
  perform-Indexed n (api_alloc size align) nv h v =
      add-Indexed n (size % u32_mod) (if ltb 0 (align % u32_mod) then align % u32_mod else 0x1000)
        nv h v

  run-kept :
      (n : ℕ) (cs : List NvCall) (nv : NvMap Host)
      → n + length cs < 2 ^ 16
      → Indexed n nv
      → Indexed (n + length cs) (run_nvmap mach cs nv)
  unfolding run_nvmap
  run-kept n [] nv h v = subst (λ k. Indexed k nv) (omega arith) v
  run-kept n (c ∷ cs) nv h v =
      subst (λ k. Indexed k (run_nvmap mach cs (perform mach c nv))) (omega arith)
        (run-kept (suc n) cs (perform mach c nv) (omega arith)
          (perform-Indexed n c nv (omega arith) v))

  pub run-Indexed :
      (cs : List NvCall) (memory : Option (Memory Host))
      → length cs < 2 ^ 16
      → Indexed (length cs) (run_nvmap mach cs (new_map memory))
  unfolding new_map lookup
  run-Indexed cs memory h =
      subst (λ k. Indexed k (run_nvmap mach cs (new_map memory))) (omega arith)
        (run-kept 0 cs (new_map memory) (omega arith) (record {
          at_most = omega arith;
          next = refl;
          numbered = λ i below. absurd (omega arith);
          known = λ g i at. cc;
          found = λ i below. absurd (omega arith);
        }))
