-- ===== src/Nv/Carveout.antt =====
-- The carveout of services/Nv.cpp: where Alloc places the entries of the table.
pub mod Placing
pub mod Alloc
pub mod Commands
pub mod Progress
use m1switch.Base.{
  ℕ, ◌+◌, ◌-◌, ◌%◌, ◌≤◌, ◌<◌, bit_and, Bool, true, false, not, ◌||◌, ◌==◌, ltb, Bool-cases,
  Option-cases, ==_iff, ==_ne, ltb-false, if◌then◌else◌, ◌≢◌, ◌≡◌, refl, sym, ap, subst, ◌∙◌, ◌⊎◌,
  inl, inr, List, [], ◌∷◌, ◌++◌, Option, none, some, length, get_or, modify, get_or-modify,
  get_or-append_one, true-false, arith,
}
use m1switch.Base.Bits.{u32_mod, u64_mod, bit_and-le}
use m1switch.Base.Bytes.{u32_at, u32_at-lt}
use m1switch.Base.Dict.{lookup}
use m1switch.Memory.{
  Result, success, failed, page_size, PageInfo, Memory, Mach, find_page, track_page, perm_rw,
  map_physical, erase,
}
use m1switch.Memory.Pages.{
  Mapped, map_physical-Mapped, failed-success, find_page-track_page, find_page-erase_ne,
}
use m1switch.Nv.{align_up_to, carveout_base, carveout_size, NvMapEntry, zero_entry, NvMap, new_map}
use m1switch.Nv.Map.{
  arg, new_entry, request, place_at, release, add_entry, place, alloc_entry, handle_create,
  handle_alloc, handle_free, handle_command, nvmap_alloc,
}

pub align_up_to-ge : (value a : ℕ) → 0 < a → value + a < u64_mod → value ≤ align_up_to value a
unfolding align_up_to
align_up_to-ge value a pos h = omega (arith, bit_and-le ((value + a - 1) % u64_mod) (a - 1))

pub align_up_to-lt : (value a : ℕ) → 0 < a → value + a < u64_mod → align_up_to value a < value + a
unfolding align_up_to
align_up_to-lt value a pos h = omega arith

-- The page table of a guest memory that may not be set.
unfoldable pub pages_of {ℓ} : {Host : Type ℓ} → Option (Memory Host) → List (ℕ × PageInfo)
pages_of none = []
pages_of (some m) = m.pages

-- Where an entry that has an address stands, below the offset `off` of the carveout.
pub record Placed (off : ℕ) (pages : List (ℕ × PageInfo)) (e : NvMapEntry) : Type 0 where
  pub low : carveout_base ≤ e.addr
  pub high : e.addr + e.size ≤ carveout_base + off
  pub flagged : e.mapped ≡ true
  pub same_iova : e.iova ≡ e.addr
  pub tracked : (info : PageInfo) × (find_page e.addr pages ≡ some info) × (e.size ≤ info.size)

unfoldable pub Apart : NvMapEntry → NvMapEntry → Type 0
Apart e f = (e.addr + e.size ≤ f.addr) ⊎ (f.addr + f.size ≤ e.addr)

unfoldable pub Small : NvMapEntry → Type 0
Small e = (e.size < u32_mod) × (e.align < u32_mod)

module _ {ℓ} {Host : Type ℓ} where
  unfoldable pub entry : ℕ → NvMap Host → NvMapEntry
  entry i nv = get_or nv.entries i zero_entry

  pub record Separate (nv : NvMap Host) : Type ℓ where
    pub bounded : nv.carveout_offset ≤ carveout_size
    pub whole : nv.carveout_offset % page_size ≡ 0
    pub small : (i : ℕ) → Small (entry i nv)
    pub placed :
        (i : ℕ)
        → (entry i nv).addr ≢ 0
        → Placed nv.carveout_offset (pages_of nv.memory) (entry i nv)
    pub apart :
        (i j : ℕ)
        → i ≢ j
        → (entry i nv).addr ≢ 0
        → (entry j nv).addr ≢ 0
        → Apart (entry i nv) (entry j nv)

-- A change that leaves the place of an entry, or gives it up.
unfoldable pub Calm : NvMapEntry → NvMapEntry → Type 0
Calm e f =
    Small f
    × ((f.addr ≡ 0)
        ⊎ ((f.addr ≡ e.addr) × (f.size ≡ e.size) × (f.iova ≡ e.iova) × (f.mapped ≡ e.mapped)))

Calm-Placed :
    (off : ℕ) (pages : List (ℕ × PageInfo)) (e f : NvMapEntry)
    → Calm e f
    → f.addr ≢ 0
    → (e.addr ≢ 0 → Placed off pages e)
    → Placed off pages f
unfolding Calm
Calm-Placed off pages e f (sm, inl gone) live p = absurd (live gone)
Calm-Placed off pages e f (sm, inr (a, s, v, m)) live p =
    let q : Placed off pages e = p (λ z. live (a ∙ z)) in
    record {
      low = omega (arith, a, q.low);
      high = omega (arith, a, s, q.high);
      flagged = m ∙ q.flagged;
      same_iova = v ∙ q.same_iova ∙ sym a;
      tracked = (
        q.tracked.0,
        ap (λ (t : ℕ). find_page t pages) a ∙ q.tracked.1,
        omega (arith, s, q.tracked.2),
      );
    }

Calm-live : (e f : NvMapEntry) → Calm e f → f.addr ≢ 0 → e.addr ≢ 0
unfolding Calm
Calm-live e f (sm, inl gone) live z = live gone
Calm-live e f (sm, inr (a, s, v, m)) live z = live (a ∙ z)

Calm-end : (e f : NvMapEntry) → Calm e f → f.addr ≢ 0 → (f.addr ≡ e.addr) × (f.size ≡ e.size)
unfolding Calm
Calm-end e f (sm, inl gone) live = absurd (live gone)
Calm-end e f (sm, inr (a, s, v, m)) live = (a, s)

Calm-Apart :
    (e e' f f' : NvMapEntry)
    → Calm e e'
    → Calm f f'
    → e'.addr ≢ 0
    → f'.addr ≢ 0
    → (e.addr ≢ 0 → f.addr ≢ 0 → Apart e f)
    → Apart e' f'
unfolding Apart
Calm-Apart e e' f f' ce cf le lf h =
    let (ae, se) = Calm-end e e' ce le in
    let (af, sf) = Calm-end f f' cf lf in
    elim (h (Calm-live e e' ce le) (Calm-live f f' cf lf)) [
      | inl before ↦ inl (omega arith)
      | inr after ↦ inr (omega arith)
    ]

Calm-same : (e : NvMapEntry) → Small e → Calm e e
unfolding Calm
Calm-same e sm = (sm, inr (refl, refl, refl, refl))

pub Calm-request :
    (flags align kind : ℕ) (e : NvMapEntry)
    → align < u32_mod
    → Small e
    → Calm e (request flags align kind e)
unfolding Calm request Small
Calm-request flags align kind e h sm = elim (Bool-cases (ltb 0 align)) [
  | inl t ↦ rw (t) ((sm.0, h), inr (refl, refl, refl, refl))
  | inr t ↦ rw (t) ((sm.0, omega arith), inr (refl, refl, refl, refl))
]

pub Calm-release : (e : NvMapEntry) → Small e → Calm e (release e)
unfolding Calm release Small
Calm-release e sm = (sm, inl refl)

module _ {ℓ} {Host : Type ℓ} where
  Calm-Separate :
      (nv : NvMap Host) (entries : List NvMapEntry)
      → ((i : ℕ) → Calm (entry i nv) (get_or entries i zero_entry))
      → Separate nv
      → Separate (record nv { entries = entries })
  unfolding entry Calm
  Calm-Separate nv entries c s = record {
    bounded = s.bounded;
    whole = s.whole;
    small = λ i. (c i).0;
    placed = λ i live.
        Calm-Placed nv.carveout_offset (pages_of nv.memory) (entry i nv)
          (get_or entries i zero_entry) (c i) live (s.placed i);
    apart = λ i j ne li lj.
        Calm-Apart (entry i nv) (get_or entries i zero_entry) (entry j nv)
          (get_or entries j zero_entry) (c i) (c j) li lj (s.apart i j ne);
  }

  pub modify-Separate :
      (nv : NvMap Host) (i : ℕ) (f : NvMapEntry → NvMapEntry)
      → ((e : NvMapEntry) → Small e → Calm e (f e))
      → Separate nv
      → Separate (record nv { entries = modify nv.entries i f })
  unfolding entry
  modify-Separate nv i f c s =
      Calm-Separate nv (modify nv.entries i f)
        (λ j. elim (get_or-modify nv.entries i j f zero_entry) [
          | inl (e, changed) ↦ subst (Calm (entry j nv)) (sym changed) (c (entry j nv) (s.small j))
          | inr same ↦ subst (Calm (entry j nv)) (sym same) (Calm-same (entry j nv) (s.small j))
        ])
        s

  pub add_entry-Separate :
      (size align : ℕ) (nv : NvMap Host)
      → size < u32_mod
      → align < u32_mod
      → Separate nv
      → Separate (add_entry size align nv).1
  unfolding add_entry new_entry entry Calm Small
  add_entry-Separate size align nv hs ha s =
      let e : NvMapEntry = new_entry nv.next_id size align in
      let t : Separate (record nv { entries = nv.entries ++ e ∷ [] }) =
        Calm-Separate nv (nv.entries ++ e ∷ [])
          (λ j. elim (get_or-append_one nv.entries e j zero_entry) [
            | inl (at, new) ↦ subst (Calm (entry j nv)) (sym new) ((hs, ha), inl refl)
            | inr same ↦ subst (Calm (entry j nv)) (sym same) (Calm-same (entry j nv) (s.small j))
          ])
          s in
      record {
        bounded = t.bounded;
        whole = t.whole;
        small = t.small;
        placed = t.placed;
        apart = t.apart;
      }
