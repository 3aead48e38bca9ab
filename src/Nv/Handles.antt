-- ===== src/Nv/Handles.antt =====
-- Handles and ids of services/Nv.cpp: the entry that each of them finds.
pub mod Create
pub mod RoundTrip
use m1switch.Base.{
  ℕ, suc, ◌+◌, ◌*◌, ◌%◌, ◌^◌, ◌≤◌, ◌<◌, Bool, true, false, ◌==◌, ltb, leb, Bool-cases, Option-cases,
  if_all, ==_iff, ==_ne, if◌then◌else◌, ◌≢◌, ◌≡◌, refl, sym, ap, subst, ◌∙◌, inl, inr, List, [],
  ◌∷◌, ◌++◌, Option, none, some, length, length-append, length-modify, get_or, modify,
  get_or-modify, get_or-append_last, get_or-append_front, true-false, arith,
}
use m1switch.Base.Bits.{u32_mod, bit_or_fields}
use m1switch.Base.Dict.{lookup, insert, lookup-insert_self, lookup-insert_ne, lookup-insert_cases}
use m1switch.Memory.{Memory, Mach, map_physical}
use m1switch.Service.{Reply}
use m1switch.Nv.{handle_of, NvMapEntry, NvMap, new_map, zero_entry}
use m1switch.Nv.Map.{
  arg, new_entry, request, place_at, release, add_entry, place, alloc_entry, handle_create,
  handle_alloc, handle_free, handle_command, nvmap_alloc,
}
use m1switch.Nv.Carveout.{entry}
use m1switch.Nv.Carveout.Commands.{NvCall, command, api_alloc, perform, run_nvmap}

-- For an id of 16 bits the tag is added.
pub handle_of-sum : (id : ℕ) → id < 2 ^ 16 → handle_of id ≡ 0xCAFE_0000 + id
unfolding handle_of
handle_of-sum id h = bit_or_fields 16 id 0xCAFE h

pub handle_of-ne :
    (i j : ℕ) → suc i < 2 ^ 16 → suc j < 2 ^ 16 → i ≢ j → handle_of (suc i) ≢ handle_of (suc j)
handle_of-ne i j hi hj ne e =
    ne (omega (arith, e, handle_of-sum (suc i) hi, handle_of-sum (suc j) hj))

module _ {ℓ} {Host : Type ℓ} where
  -- At most `n` entries, the ids 1, 2, ... in order, and the index finds exactly their handles.
  pub record Indexed (n : ℕ) (nv : NvMap Host) : Type ℓ where
    pub at_most : length nv.entries ≤ n
    pub next : nv.next_id ≡ suc (length nv.entries)
    pub numbered :
        (i : ℕ)
        → i < length nv.entries
        → ((entry i nv).id ≡ suc i) × ((entry i nv).handle ≡ handle_of (suc i))
    pub known :
        (h i : ℕ)
        → lookup h nv.handle_index ≡ some i
        → (i < length nv.entries) × (h ≡ handle_of (suc i))
    pub found :
        (i : ℕ) → i < length nv.entries → lookup (handle_of (suc i)) nv.handle_index ≡ some i

  -- A change of one entry that keeps its id and its handle.
  pub modify-Indexed :
      (n i : ℕ) (f : NvMapEntry → NvMapEntry) (nv : NvMap Host)
      → ((e : NvMapEntry) → ((f e).id ≡ e.id) × ((f e).handle ≡ e.handle))
      → Indexed n nv
      → Indexed n (record nv { entries = modify nv.entries i f })
  unfolding entry
  modify-Indexed n i f nv keeps v =
      let same : length (modify nv.entries i f) ≡ length nv.entries =
        length-modify nv.entries i f in
      record {
        at_most = omega (arith, same, v.at_most);
        next = v.next ∙ ap suc (sym same);
        numbered = λ j below.
            let old : ((entry j nv).id ≡ suc j) × ((entry j nv).handle ≡ handle_of (suc j)) =
              v.numbered j (omega (arith, same)) in
            elim (get_or-modify nv.entries i j f zero_entry) [
              | inl (at, changed) ↦ (
                ap (λ (e : NvMapEntry). e.id) changed ∙ (keeps (entry j nv)).0 ∙ old.0,
                ap (λ (e : NvMapEntry). e.handle) changed ∙ (keeps (entry j nv)).1 ∙ old.1,
              )
              | inr kept ↦ (
                ap (λ (e : NvMapEntry). e.id) kept ∙ old.0,
                ap (λ (e : NvMapEntry). e.handle) kept ∙ old.1,
              )
            ];
        known = λ h j at. (omega (arith, same, (v.known h j at).0), (v.known h j at).1);
        found = λ j below. v.found j (omega (arith, same));
      }

  pub more-Indexed : (n : ℕ) (nv : NvMap Host) → Indexed n nv → Indexed (suc n) nv
  more-Indexed n nv v = record {
    at_most = omega (arith, v.at_most);
    next = v.next;
    numbered = v.numbered;
    known = v.known;
    found = v.found;
  }

  append-numbered :
      (nv : NvMap Host) (n size align j : ℕ)
      → Indexed n nv
      → j < suc (length nv.entries)
      → ((get_or (nv.entries ++ new_entry nv.next_id size align ∷ []) j zero_entry).id ≡ suc j)
        × ((get_or (nv.entries ++ new_entry nv.next_id size align ∷ []) j zero_entry).handle
            ≡ handle_of (suc j))
  unfolding new_entry entry
  append-numbered nv n size align j v below = elim (Bool-cases (j == length nv.entries)) [
    | inl last ↦
        let new : NvMapEntry = new_entry nv.next_id size align in
        let at : j ≡ length nv.entries = (==_iff j (length nv.entries)).0 last in
        let got : get_or (nv.entries ++ new ∷ []) j zero_entry ≡ new =
          ap (λ (t : ℕ). get_or (nv.entries ++ new ∷ []) t zero_entry) at
          ∙ get_or-append_last nv.entries new zero_entry in
        let tag : nv.next_id ≡ suc j = v.next ∙ ap suc (sym at) in
        (
          ap (λ (e : NvMapEntry). e.id) got ∙ tag,
          ap (λ (e : NvMapEntry). e.handle) got ∙ ap handle_of tag,
        )
    | inr other ↦
        let new : NvMapEntry = new_entry nv.next_id size align in
        let inside : j < length nv.entries = ground (arith, other, below) in
        let got : get_or (nv.entries ++ new ∷ []) j zero_entry ≡ get_or nv.entries j zero_entry =
          get_or-append_front nv.entries (new ∷ []) j zero_entry inside in
        let old : ((entry j nv).id ≡ suc j) × ((entry j nv).handle ≡ handle_of (suc j)) =
          v.numbered j inside in
        (ap (λ (e : NvMapEntry). e.id) got ∙ old.0, ap (λ (e : NvMapEntry). e.handle) got ∙ old.1)
  ]

  pub add-Indexed :
      (n size align : ℕ) (nv : NvMap Host)
      → suc n < 2 ^ 16
      → Indexed n nv
      → Indexed (suc n) (add_entry size align nv).1
  unfolding add_entry entry new_entry
  add-Indexed n size align nv h v =
      let new : NvMapEntry = new_entry nv.next_id size align in
      let grown : length (nv.entries ++ new ∷ []) ≡ suc (length nv.entries) =
        omega (arith, length-append nv.entries (new ∷ [])) in
      let tag : handle_of nv.next_id ≡ handle_of (suc (length nv.entries)) = ap handle_of v.next in
      record {
        at_most = omega (arith, grown, v.at_most);
        next = omega (arith, grown, v.next, v.at_most);
        numbered = λ j below. append-numbered nv n size align j v (omega (arith, grown));
        known = λ g j at.
            elim (lookup-insert_cases g (handle_of nv.next_id) (length nv.entries) j nv.handle_index
              at) [
                | inl (named, here) ↦ (
                  omega (arith, grown, here),
                  named ∙ tag ∙ ap (λ (t : ℕ). handle_of (suc t)) here,
                )
                | inr old ↦ (omega (arith, grown, (v.known g j old).0), (v.known g j old).1)
              ];
        found = λ j below. elim (Bool-cases (j == length nv.entries)) [
          | inl last ↦
              let at : j ≡ length nv.entries = (==_iff j (length nv.entries)).0 last in
              ap
                (λ (t : ℕ).
                  lookup t (insert (handle_of nv.next_id) (length nv.entries) nv.handle_index))
                (ap (λ (t : ℕ). handle_of (suc t)) at ∙ sym tag)
              ∙ lookup-insert_self (handle_of nv.next_id) (length nv.entries) nv.handle_index
              ∙ ap some (sym at)
          | inr other ↦
              let inside : j < length nv.entries = ground (arith, other, below, grown) in
              lookup-insert_ne (handle_of (suc j)) (handle_of nv.next_id) (length nv.entries)
                nv.handle_index
                (λ e.
                  handle_of-ne j (length nv.entries) (omega (arith, inside, v.at_most))
                    (omega (arith, v.at_most)) (omega (arith, inside)) (e ∙ tag))
              ∙ v.found j inside
        ];
      }
