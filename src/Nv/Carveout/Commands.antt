-- ===== src/Nv/Carveout/Commands.antt =====
-- services/Nv.cpp, NvMapService::HandleCommand: all the commands on the table of allocations.
use m1switch.Base.{
  ℕ, ◌%◌, ◌<◌, ◌==◌, ltb, leb, Bool-cases, Option-cases, if_all, refl, inl, inr, List, [], ◌∷◌,
  Option, length, arith,
}
use m1switch.Base.Bits.{u32_mod}
use m1switch.Base.Bytes.{u8_at, u32_at, u32_at-lt}
use m1switch.Base.Dict.{lookup}
use m1switch.Memory.{Memory, Mach}
use m1switch.Service.{Reply}
use m1switch.Nv.{NvMap, new_map}
use m1switch.Nv.Map.{
  arg, release, handle_create, handle_alloc, handle_free, handle_command, nvmap_alloc,
}
use m1switch.Nv.Carveout.{Small, Separate, Calm-release, modify-Separate, add_entry-Separate, entry}
use m1switch.Nv.Carveout.Alloc.{alloc_entry-Separate}

arg-lt : (n off : ℕ) (inp : List ℕ) → arg n off inp < u32_mod
unfolding arg
arg-lt n off inp = elim (Bool-cases (leb n (length inp))) [
  | inl e ↦ rw (e) (u32_at-lt off inp)
  | inr e ↦ rw (e) (omega arith)
]

-- A call of the service: a command with its input and the room for the answer, or `NvMap_Alloc`,
-- whose arguments are u32.
pub data NvCall : Type 0 where
  command : (cmd : ℕ) (inp : List ℕ) (room : ℕ) → NvCall
  api_alloc : (size align : ℕ) → NvCall

module _ {ℓ} {Host : Type ℓ} (mach : Mach Host) where
  unfoldable pub perform : NvCall → NvMap Host → NvMap Host
  unfolding handle_command nvmap_alloc
  perform (command cmd inp room) nv = (handle_command mach cmd inp room nv).1
  perform (api_alloc size align) nv = (nvmap_alloc (size % u32_mod) (align % u32_mod) nv).1

  unfoldable pub run_nvmap : List NvCall → NvMap Host → NvMap Host
  unfolding perform
  run_nvmap [] nv = nv
  run_nvmap (c ∷ cs) nv = run_nvmap cs (perform c nv)

  alloc-Separate :
      (inp : List ℕ) (room : ℕ) (nv : NvMap Host)
      → Separate nv
      → Separate (handle_alloc mach inp room nv).1
  unfolding handle_alloc
  alloc-Separate inp room nv s = elim (Bool-cases (ltb (length inp) 0x20)) [
    | inl short ↦ rw (short) s
    | inr long ↦ elim (Option-cases (lookup (u32_at 0 inp) nv.handle_index)) [
      | inl unknown ↦ rw (long, unknown) s
      | inr (i, at) ↦
          rw (long, at)
            (alloc_entry-Separate mach i (u32_at 8 inp) (u32_at 12 inp) (u8_at 16 inp) nv
              (u32_at-lt 12 inp) s)
    ]
  ]

  free-Separate :
      (inp : List ℕ) (room : ℕ) (nv : NvMap Host)
      → Separate nv
      → Separate (handle_free inp room nv).1
  unfolding handle_free
  free-Separate inp room nv s = elim (Option-cases (lookup (arg 4 0 inp) nv.handle_index)) [
    | inl unknown ↦ rw (unknown, handle_free) s
    | inr (i, at) ↦ rw (at, handle_free) (modify-Separate nv i release Calm-release s)
  ]

  -- One of the commands that change the table, or one that does not.
  command-Separate :
      (cmd : ℕ) (inp : List ℕ) (room : ℕ) (nv : NvMap Host)
      → Separate nv
      → Separate (handle_command mach cmd inp room nv).1
  unfolding handle_command handle_create
  command-Separate cmd inp room nv s =
      let P : Reply × NvMap Host → Type ℓ = λ r. Separate r.1 in
      if_all P (cmd == 0xC010_0001)
        (add_entry-Separate (arg 4 0 inp) 0x1000 nv (arg-lt 4 0 inp) (omega arith) s)
        (if_all P (cmd == 0xC008_0002) s (
          if_all P (cmd == 0xC020_0004) (alloc-Separate inp room nv s) (
            if_all P (cmd == 0xC018_0005) (free-Separate inp room nv s) (
              if_all P (cmd == 0xC00C_0007) s
                (if_all P (cmd == 0xC008_000E) s (if_all P (cmd == 0xC008_000F) s s))))))

  perform-Separate : (c : NvCall) (nv : NvMap Host) → Separate nv → Separate (perform c nv)
  unfolding perform nvmap_alloc
  perform-Separate (command cmd inp room) nv s = command-Separate cmd inp room nv s
  perform-Separate (api_alloc size align) nv s = elim (Bool-cases (ltb 0 (align % u32_mod))) [
    | inl e ↦
        rw (e)
          (add_entry-Separate (size % u32_mod) (align % u32_mod) nv (omega arith) (omega arith) s)
    | inr e ↦ rw (e) (add_entry-Separate (size % u32_mod) 0x1000 nv (omega arith) (omega arith) s)
  ]

  run-kept : (cs : List NvCall) (nv : NvMap Host) → Separate nv → Separate (run_nvmap cs nv)
  unfolding run_nvmap
  run-kept [] nv s = s
  run-kept (c ∷ cs) nv s = run-kept cs (perform c nv) (perform-Separate c nv s)

  -- After any sequence of nvmap commands with any input, from a new table, whatever the host's
  -- mapping calls answer: every entry with an address is mapped, has that address as its IOVA, lies
  -- inside the used part of the 256 MiB carveout and in a page that the guest memory tracks, and
  -- two different entries with addresses do not overlap.
  pub run-Separate :
      (cs : List NvCall) (memory : Option (Memory Host)) → Separate (run_nvmap cs (new_map memory))
  unfolding new_map entry Small
  run-Separate cs memory = run-kept cs (new_map memory) (record {
    bounded = omega arith;
    whole = refl;
    small = λ i. (omega arith, omega arith);
    placed = λ i live. absurd (live refl);
    apart = λ i j ne live other. absurd (live refl);
  })
