-- ===== src/Nv/Handles/RoundTrip.antt =====
-- services/Nv.cpp: what Create gives out is what the other commands find.
use m1switch.Base.{
  ℕ, suc, ◌+◌, ◌^◌, ◌<◌, ltb-lt, Option-cases, ==_iff, ==_ne, ◌≢◌, ◌≡◌, refl, sym, ap, ◌∙◌, inl,
  inr, List, [], ◌∷◌, ◌++◌, Option, none, some, length, length-append, get_or, get_or-append_last,
  get_or-append_front, arith,
}
use m1switch.Base.Bits.{u32_mod}
use m1switch.Base.Bytes.{to_bytes, of_bytes-to_bytes, u32_at}
use m1switch.Base.Dict.{lookup, insert, lookup-insert_self, lookup-insert_ne}
use m1switch.Memory.{Memory, Mach}
use m1switch.Service.{reply_u32}
use m1switch.Nv.{handle_of, NvMapEntry, NvMap, new_map, zero_entry}
use m1switch.Nv.Map.{
  arg, new_entry, add_entry, handle_create, handle_get_id, handle_from_id, handle_get_handle,
  find_id, lookup_by_handle,
}
use m1switch.Nv.Carveout.{entry}
use m1switch.Nv.Carveout.Commands.{NvCall, run_nvmap}
use m1switch.Nv.Handles.{handle_of-sum, handle_of-ne, Indexed}
use m1switch.Nv.Handles.Create.{run-Indexed}

arg-to_bytes : (v : ℕ) → v < u32_mod → arg 4 0 (to_bytes 4 v) ≡ v
unfolding arg u32_at to_bytes
arg-to_bytes v h = of_bytes-to_bytes 4 v [] h

-- The search by id passes over entries with other ids.
find_id-append :
    (id : ℕ) (xs : List NvMapEntry) (e : NvMapEntry)
    → ((i : ℕ) → i < length xs → (get_or xs i zero_entry).id ≢ id)
    → e.id ≡ id
    → find_id id (xs ++ e ∷ []) ≡ some e
unfolding find_id
find_id-append id [] e other at = rw ((==_iff e.id id).1 at) refl
find_id-append id (x ∷ xs) e other at =
    rw (==_ne x.id id (other 0 (omega arith)))
      (find_id-append id xs e (λ i h. other (suc i) (omega arith)) at)

module _ {ℓ} {Host : Type ℓ} where
  -- A Create with input `inp` in the state `nv`: its handle and id are new, and find the new entry.
  pub record Created (inp : List ℕ) (room : ℕ) (nv : NvMap Host) : Type ℓ where
    pub h : ℕ
    pub id : ℕ
    pub replied : (handle_create inp room nv).0 ≡ reply_u32 room h
    pub fresh : lookup_by_handle h nv ≡ none
    pub finds :
        lookup_by_handle h (handle_create inp room nv).1 ≡ some (new_entry id (arg 4 0 inp) 0x1000)
    pub to_id : handle_get_id (to_bytes 4 h) room (handle_create inp room nv).1 ≡ reply_u32 room id
    pub from_id :
        handle_from_id (to_bytes 4 id) room (handle_create inp room nv).1 ≡ reply_u32 room h
    pub to_handle : handle_get_handle (to_bytes 4 id) room ≡ reply_u32 room h
    pub others :
        (g : ℕ) → g ≢ h → lookup_by_handle g (handle_create inp room nv).1 ≡ lookup_by_handle g nv

  lookup_absent :
      (g : ℕ) (nv : NvMap Host) → lookup g nv.handle_index ≡ none → lookup_by_handle g nv ≡ none
  unfolding lookup_by_handle
  lookup_absent g nv gone = rw (gone, lookup_by_handle) refl

  lookup_at :
      (g i : ℕ) (nv : NvMap Host)
      → lookup g nv.handle_index ≡ some i
      → i < length nv.entries
      → lookup_by_handle g nv ≡ some (get_or nv.entries i zero_entry)
  unfolding lookup_by_handle
  lookup_at g i nv there below =
      rw (there, lookup_by_handle, ltb-lt i (length nv.entries) below) refl

  get_id_at :
      (g i : ℕ) (inp : List ℕ) (room : ℕ) (nv : NvMap Host)
      → arg 4 0 inp ≡ g
      → lookup g nv.handle_index ≡ some i
      → handle_get_id inp room nv ≡ reply_u32 room (get_or nv.entries i zero_entry).id
  unfolding handle_get_id
  get_id_at g i inp room nv asked there = rw (asked, handle_get_id, there) refl

  from_id_at :
      (id : ℕ) (e : NvMapEntry) (inp : List ℕ) (room : ℕ) (nv : NvMap Host)
      → arg 4 0 inp ≡ id
      → find_id id nv.entries ≡ some e
      → handle_from_id inp room nv ≡ reply_u32 room e.handle
  unfolding handle_from_id
  from_id_at id e inp room nv asked there =
      rw (ap (λ (t : ℕ). find_id t nv.entries) asked ∙ there, handle_from_id) refl

  -- A handle that is not that of the new entry finds what it found.
  others_kept :
      (n g size align : ℕ) (nv : NvMap Host)
      → Indexed n nv
      → g ≢ handle_of nv.next_id
      → lookup_by_handle g (add_entry size align nv).1 ≡ lookup_by_handle g nv
  unfolding add_entry new_entry
  others_kept n g size align nv v ne =
      let new : NvMapEntry = new_entry nv.next_id size align in
      let after : NvMap Host = (add_entry size align nv).1 in
      let same : lookup g after.handle_index ≡ lookup g nv.handle_index =
        lookup-insert_ne g (handle_of nv.next_id) (length nv.entries) nv.handle_index ne in
      elim (Option-cases (lookup g nv.handle_index)) [
        | inl gone ↦ lookup_absent g after (same ∙ gone) ∙ sym (lookup_absent g nv gone)
        | inr (i, there) ↦
            let below : i < length nv.entries = (v.known g i there).0 in
            lookup_at g i after (same ∙ there)
              (omega (arith, below, length-append nv.entries (new ∷ [])))
            ∙ ap some (get_or-append_front nv.entries (new ∷ []) i zero_entry below)
            ∙ sym (lookup_at g i nv there below)
      ]

  absent :
      (n : ℕ) (nv : NvMap Host)
      → suc n < 2 ^ 16
      → Indexed n nv
      → lookup (handle_of (suc (length nv.entries))) nv.handle_index ≡ none
  absent n nv h v =
      elim (Option-cases (lookup (handle_of (suc (length nv.entries))) nv.handle_index)) [
        | inl none_yet ↦ none_yet
        | inr (i, at) ↦
            let old : (i < length nv.entries)
                × (handle_of (suc (length nv.entries)) ≡ handle_of (suc i)) =
              v.known (handle_of (suc (length nv.entries))) i at in
            absurd (
              handle_of-ne (length nv.entries) i (omega (arith, v.at_most))
                (omega (arith, v.at_most, old.0)) (omega (arith, old.0)) old.1)
      ]

  pub create-Created :
      (n : ℕ) (inp : List ℕ) (room : ℕ) (nv : NvMap Host)
      → suc n < 2 ^ 16
      → Indexed n nv
      → Created inp room nv
  unfolding handle_create add_entry new_entry handle_get_handle entry
  create-Created n inp room nv bound v =
      let id : ℕ = nv.next_id in
      let h : ℕ = handle_of id in
      let new : NvMapEntry = new_entry id (arg 4 0 inp) 0x1000 in
      let at : id ≡ suc (length nv.entries) = v.next in
      let sum : h ≡ 0xCAFE_0000 + id = handle_of-sum id (omega (arith, at, v.at_most)) in
      let back : arg 4 0 (to_bytes 4 h) ≡ h = arg-to_bytes h (omega (arith, sum, at, v.at_most)) in
      let back_id : arg 4 0 (to_bytes 4 id) ≡ id = arg-to_bytes id (omega (arith, at, v.at_most)) in
      let gone : lookup h nv.handle_index ≡ none =
        ap (λ (t : ℕ). lookup (handle_of t) nv.handle_index) at ∙ absent n nv bound v in
      let there : lookup h (insert h (length nv.entries) nv.handle_index)
          ≡ some (length nv.entries) =
        lookup-insert_self h (length nv.entries) nv.handle_index in
      let last : get_or (nv.entries ++ new ∷ []) (length nv.entries) zero_entry ≡ new =
        get_or-append_last nv.entries new zero_entry in
      let after : NvMap Host = (handle_create inp room nv).1 in
      record {
        h = h;
        id = id;
        replied = refl;
        fresh = lookup_absent h nv gone;
        finds =
            lookup_at h (length nv.entries) after there
              (omega (arith, length-append nv.entries (new ∷ [])))
            ∙ ap some last;
        to_id =
            get_id_at h (length nv.entries) (to_bytes 4 h) room after back there
            ∙ ap (λ (e : NvMapEntry). reply_u32 room e.id) last;
        from_id = from_id_at id new (to_bytes 4 id) room after back_id (
            find_id-append id nv.entries new
              (λ i below e. omega (arith, below, sym (v.numbered i below).0 ∙ e, at)) refl);
        to_handle = rw (back_id, handle_get_handle) refl;
        others = λ g ne. others_kept n g (arg 4 0 inp) 0x1000 nv v ne;
      }

-- After any sequence of fewer than 2^16 - 1 nvmap commands from a new table, a Create gives out a
-- handle that no entry had; it finds the new entry, of the size asked for; GetId of the handle gives
-- its id, FromId and GetHandle of that id give the handle back; every other handle finds what it
-- found before.
pub run-Created {ℓ} :
    {Host : Type ℓ} (mach : Mach Host) (cs : List NvCall) (memory : Option (Memory Host))
    (inp : List ℕ) (room : ℕ)
    → suc (length cs) < 2 ^ 16
    → Created inp room (run_nvmap mach cs (new_map memory))
run-Created mach cs memory inp room h =
    create-Created (length cs) inp room (run_nvmap mach cs (new_map memory)) h
      (run-Indexed mach cs memory (omega arith))
