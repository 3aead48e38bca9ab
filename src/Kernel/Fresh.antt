-- ===== src/Kernel/Fresh.antt =====
-- The handles that the kernel gives out: kernel/Kernel.h, `KHandleTable`, under the system calls of
-- kernel/SvcHandlers.cpp.
use mathlib.Core.List.Memᴰ
use m1switch.Base.{
  ==_ne, ℕ, suc, ◌+◌, ◌%◌, ◌≤◌, ◌<◌, Bool, true, false, ==_iff, Option-cases, ◌≡◌, refl, sym, subst,
  ◌∙◌, ◌≢◌, ◌⊎◌, inl, inr, List, [], ◌∷◌, Option, none, some, arith, length,
}
use m1switch.Base.Bits.{u32_mod}
use m1switch.Kernel.{
  KObject, thread, event, transfer_memory, shared_memory, session, port, code_memory,
  interrupt_event, device_address_space, resource_limit, HandleTable, empty_table, handle_base,
  find_object, put_object, create, get, close, set_object, Registers, set_event, svc_signal_event,
  svc_clear_event, svc_create_event, svc_create_transfer_memory, svc_create_interrupt_event,
  svc_create_device_address_space, svc_close_handle,
}
use m1switch.Kernel.Handles.{
  Below, find_object-Below, found-Below, mem-erase_handle, Below-put_object, find_object-erase_ne,
}

-- Every live handle has been given out, at most as many as the calls so far.
pub record IsValid (given : ℕ) (t : HandleTable) : Type 0 where
  pub index : t.next_index ≤ suc given
  pub below : Below (handle_base + t.next_index) t.objects

-- The system calls on the table.
pub data Svc : Type 0 where
  signal_event clear_event create_event create_transfer_memory create_interrupt_event : Svc
  create_device_address_space close_handle : Svc

unfoldable pub perform : Svc → Registers → HandleTable → Registers × HandleTable
perform signal_event r t = svc_signal_event r t
perform clear_event r t = svc_clear_event r t
perform create_event r t = svc_create_event r t
perform create_transfer_memory r t = svc_create_transfer_memory r t
perform create_interrupt_event r t = svc_create_interrupt_event r t
perform create_device_address_space r t = svc_create_device_address_space r t
perform close_handle r t = svc_close_handle r t

unfoldable pub run : List (Svc × Registers) → HandleTable → HandleTable
unfolding perform
run [] t = t
run ((svc, r) ∷ calls) t = run calls (perform svc r t).1

-- The table before and after a call that gives out no handle.
kept-IsValid : (given : ℕ) (t : HandleTable) → IsValid given t → IsValid (suc given) t
kept-IsValid given t v = record { index = omega (arith, v.index); below = v.below }

create-IsValid :
    (given : ℕ) (obj : KObject) (t : HandleTable)
    → given + 0xD002 < u32_mod
    → IsValid given t
    → IsValid (suc given) (create obj t).1
unfolding create Below
create-IsValid given obj t h v =
    let next : (t.next_index + 1) % u32_mod ≡ t.next_index + 1 = omega (arith, v.index, h) in
    let handle : (handle_base + t.next_index) % u32_mod ≡ handle_base + t.next_index =
      omega (arith, v.index, h) in
    record {
      index = omega (arith, next, v.index);
      below =
          Below-put_object (handle_base + (t.next_index + 1) % u32_mod)
            ((handle_base + t.next_index) % u32_mod) obj t.objects (omega (arith, next, handle))
            (λ q m. omega (arith, next, v.below q m));
    }

set_event-cases :
    (b : Bool) (o : Option KObject) (handle : ℕ) (t : HandleTable)
    → (set_event b o handle t ≡ none)
      ⊎ ((s : Bool) × (o ≡ some (event s))
          × (set_event b o handle t ≡ some (set_object handle (event b) t)))
unfolding set_event
set_event-cases b none handle t = inl refl
set_event-cases b (some (event s)) handle t = inr (s, refl, refl)
set_event-cases b (some (thread i f)) handle t = inl refl
set_event-cases b (some (transfer_memory x y z)) handle t = inl refl
set_event-cases b (some (shared_memory x y z)) handle t = inl refl
set_event-cases b (some (session x y)) handle t = inl refl
set_event-cases b (some (port x y)) handle t = inl refl
set_event-cases b (some (code_memory x y)) handle t = inl refl
set_event-cases b (some (interrupt_event s)) handle t = inl refl
set_event-cases b (some device_address_space) handle t = inl refl
set_event-cases b (some resource_limit) handle t = inl refl

event-IsValid :
    (given : ℕ) (b s : Bool) (handle : ℕ) (t : HandleTable)
    → get handle t ≡ some (event s)
    → IsValid given t
    → IsValid (suc given) (set_object handle (event b) t)
unfolding set_object get
event-IsValid given b s handle t e v = record {
  index = omega (arith, v.index);
  below =
      Below-put_object (handle_base + t.next_index) handle (event b) t.objects
        (found-Below (handle_base + t.next_index) handle t.objects (event s) v.below e) v.below;
}

set_signaled-IsValid :
    (given : ℕ) (b : Bool) (handle : ℕ) (t t' : HandleTable)
    → set_event b (get handle t) handle t ≡ some t'
    → IsValid given t
    → IsValid (suc given) t'
set_signaled-IsValid given b handle t t' e v = elim (set_event-cases b (get handle t) handle t) [
  | inl no_event ↦ none-some no_event e
  | inr (s, found, set) ↦
      subst (IsValid (suc given)) (some-injective (sym set ∙ e))
        (event-IsValid given b s handle t found v)
]
  where
    none-some : {P : Type 0} {o : Option HandleTable} {x : HandleTable} → o ≡ none → o ≡ some x → P
    none-some a b = cc

    some-injective : {x y : HandleTable} → some x ≡ some y → x ≡ y
    some-injective e = cc

signal_event-IsValid :
    (given : ℕ) (r : Registers) (t : HandleTable)
    → IsValid given t
    → IsValid (suc given) (svc_signal_event r t).1
unfolding svc_signal_event
signal_event-IsValid given r t v =
    elim (Option-cases (set_event true (get (r.x0 % u32_mod) t) (r.x0 % u32_mod) t)) [
      | inl e ↦ rw (e, svc_signal_event) (kept-IsValid given t v)
      | inr (t', e) ↦
          rw (e, svc_signal_event) (set_signaled-IsValid given true (r.x0 % u32_mod) t t' e v)
    ]

clear_event-IsValid :
    (given : ℕ) (r : Registers) (t : HandleTable)
    → IsValid given t
    → IsValid (suc given) (svc_clear_event r t).1
unfolding svc_clear_event
clear_event-IsValid given r t v =
    elim (Option-cases (set_event false (get (r.x0 % u32_mod) t) (r.x0 % u32_mod) t)) [
      | inl e ↦ rw (e, svc_clear_event) (kept-IsValid given t v)
      | inr (t', e) ↦
          rw (e, svc_clear_event) (set_signaled-IsValid given false (r.x0 % u32_mod) t t' e v)
    ]

perform-IsValid :
    (given : ℕ) (svc : Svc) (r : Registers) (t : HandleTable)
    → given + 0xD002 < u32_mod
    → IsValid given t
    → IsValid (suc given) (perform svc r t).1
unfolding perform svc_create_event svc_create_transfer_memory svc_create_interrupt_event
    svc_create_device_address_space svc_close_handle close Below
perform-IsValid given signal_event r t h v = signal_event-IsValid given r t v
perform-IsValid given clear_event r t h v = clear_event-IsValid given r t v
perform-IsValid given create_event r t h v = create-IsValid given (event false) t h v
perform-IsValid given create_transfer_memory r t h v =
    create-IsValid given (transfer_memory r.x0 r.x1 (r.x2 % u32_mod % 8)) t h v
perform-IsValid given create_interrupt_event r t h v =
    create-IsValid given (interrupt_event false) t h v
perform-IsValid given create_device_address_space r t h v =
    create-IsValid given device_address_space t h v
perform-IsValid given close_handle r t h v = record {
  index = omega (arith, v.index);
  below = λ q m. v.below q (mem-erase_handle (r.x0 % u32_mod) t.objects q m);
}

run-IsValid_from :
    (given : ℕ) (calls : List (Svc × Registers)) (t : HandleTable)
    → given + length calls + 0xD002 < u32_mod
    → IsValid given t
    → IsValid (given + length calls) (run calls t)
unfolding run
run-IsValid_from given [] t h v = record { index = omega (arith, v.index); below = v.below }
run-IsValid_from given ((svc, r) ∷ calls) t h v =
    subst (λ (n : ℕ). IsValid n (run calls (perform svc r t).1)) (show_sum given (length calls))
      (run-IsValid_from (suc given) calls (perform svc r t).1 (omega arith)
        (perform-IsValid given svc r t (omega arith) v))
  where
    show_sum : (a b : ℕ) → suc a + b ≡ a + suc b
    show_sum a b = omega arith

create_fresh :
    (given : ℕ) (t : HandleTable) (obj : KObject)
    → given + 0xD002 < u32_mod
    → IsValid given t
    → (get (create obj t).0 t ≡ none)
      × (get (create obj t).0 (create obj t).1 ≡ some obj)
      × ((handle : ℕ) → handle ≢ (create obj t).0 → get handle (create obj t).1 ≡ get handle t)
unfolding create get put_object find_object
create_fresh given t obj h v =
    let new : ℕ = (handle_base + t.next_index) % u32_mod in
    (
      find_object-Below (handle_base + t.next_index) new t.objects v.below
          (omega (arith, v.index, h)),
      rw ((==_iff new new).1 refl) refl,
      λ handle ne.
          rw (==_ne new handle (λ q. ne (sym q))) (find_object-erase_ne handle new t.objects ne),
    )

-- After any sequence of these system calls, of which there are fewer than 2^32 - 0xD002, the handle
-- given to a new object was not live, the object is found under it, and every other handle finds what it found
-- before.
pub run-create_fresh :
    (calls : List (Svc × Registers)) (obj : KObject)
    → length calls + 0xD002 < u32_mod
    → (get (create obj (run calls empty_table)).0 (run calls empty_table) ≡ none)
      × (get (create obj (run calls empty_table)).0 (create obj (run calls empty_table)).1
          ≡ some obj)
      × ((handle : ℕ)
          → handle ≢ (create obj (run calls empty_table)).0
          → get handle (create obj (run calls empty_table)).1 ≡ get handle (run calls empty_table))
unfolding empty_table Below
run-create_fresh calls obj h =
    create_fresh (0 + length calls) (run calls empty_table) obj (omega (arith, h)) (
      run-IsValid_from 0 calls empty_table (omega (arith, h))
        (record { index = omega arith; below = λ q m. absurd (Memᴰ.not-nil m) }))
