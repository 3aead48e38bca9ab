-- ===== src/Kernel.antt =====
-- kernel/Kernel.h: kernel objects and the handle table; kernel/SvcHandlers.cpp: the system calls
-- that create, signal, close and wait for them. An object is its value under its handle, since
-- each object is created for one handle. Locks and host threads are left out.
pub mod Handles
pub mod Fresh
pub mod Wait
use m1switch.Base.{
  ℕ, suc, ◌+◌, ◌%◌, Bool, true, false, ◌||◌, ◌==◌, if◌then◌else◌, List, [], ◌∷◌, Option, none, some,
}
use m1switch.Base.Bits.{u32_mod}

-- The classes of `KObjectType` with the members that the system calls below read: a thread's id
-- and whether it has finished, whether an event is signaled, address, size and permission.
pub data KObject : Type 0 where
  thread : ℕ → Bool → KObject
  event : Bool → KObject
  transfer_memory shared_memory : ℕ → ℕ → ℕ → KObject
  session port code_memory : ℕ → ℕ → KObject
  interrupt_event : Bool → KObject
  device_address_space resource_limit : KObject

-- `IsSignaled`: only threads and events override it.
unfoldable pub is_signaled : KObject → Bool
is_signaled (thread id finished) = finished
is_signaled (event signaled) = signaled
is_signaled (transfer_memory a s p) = false
is_signaled (shared_memory a s p) = false
is_signaled (session c s) = false
is_signaled (port c s) = false
is_signaled (code_memory a s) = false
is_signaled (interrupt_event signaled) = false
is_signaled device_address_space = false
is_signaled resource_limit = false

-- `objects_` is an association list without a second entry for a handle.
pub record HandleTable : Type 0 where
  pub objects : List (ℕ × KObject)
  pub next_index : ℕ

pub empty_table : HandleTable
empty_table = record { objects = []; next_index = 1 }

abbrev pub handle_base : ℕ
handle_base = 0xD000

unfoldable pub erase_handle : ℕ → List (ℕ × KObject) → List (ℕ × KObject)
erase_handle handle [] = []
erase_handle handle ((h, obj) ∷ objects) =
    let rest : List (ℕ × KObject) = erase_handle handle objects in
    if h == handle then rest else (h, obj) ∷ rest

unfoldable pub find_object : ℕ → List (ℕ × KObject) → Option KObject
find_object handle [] = none
find_object handle ((h, obj) ∷ objects) =
    if h == handle then some obj else find_object handle objects

-- `objects_[handle] = obj`.
unfoldable pub put_object : ℕ → KObject → List (ℕ × KObject) → List (ℕ × KObject)
unfolding erase_handle
put_object handle obj objects = (handle, obj) ∷ erase_handle handle objects

-- The handle and its index are `u32`.
unfoldable pub create : KObject → HandleTable → ℕ × HandleTable
unfolding put_object
create obj t = (
  (handle_base + t.next_index) % u32_mod,
  record {
    objects = put_object ((handle_base + t.next_index) % u32_mod) obj t.objects;
    next_index = (t.next_index + 1) % u32_mod;
  },
)

unfoldable pub get : ℕ → HandleTable → Option KObject
unfolding find_object
get handle t = find_object handle t.objects

unfoldable pub close : ℕ → HandleTable → HandleTable
unfolding erase_handle
close handle t = record t { objects = erase_handle handle t.objects }

-- An object changes in place.
unfoldable pub set_object : ℕ → KObject → HandleTable → HandleTable
unfolding put_object
set_object handle obj t = record t { objects = put_object handle obj t.objects }

pub record Registers : Type 0 where
  pub x0 : ℕ
  pub x1 : ℕ
  pub x2 : ℕ

abbrev pub invalid_handle : ℕ
invalid_handle = 0x2001

abbrev pub timed_out : ℕ
timed_out = 0x2002

ret : ℕ → Registers → Registers
ret v r = record r { x0 = v }

ret_handle : ℕ → Registers → Registers
ret_handle handle r = record r { x0 = 0; x1 = handle }

-- `Get<KEvent>` and `Signal` or `Clear`.
pub set_event : Bool → Option KObject → ℕ → HandleTable → Option HandleTable
unfolding set_object
set_event b (some (event signaled)) handle t = some (set_object handle (event b) t)
set_event b none handle t = none
set_event b (some other) handle t = none

unfoldable pub svc_signal_event : Registers → HandleTable → Registers × HandleTable
unfolding set_event get ret
svc_signal_event r t = elim (set_event true (get (r.x0 % u32_mod) t) (r.x0 % u32_mod) t) [
  | some t' ↦ (ret 0 r, t')
  | none ↦ (ret invalid_handle r, t)
]

-- `SvcClearEvent`, and `SvcResetSignal` with the same body.
unfoldable pub svc_clear_event : Registers → HandleTable → Registers × HandleTable
unfolding set_event get ret
svc_clear_event r t = elim (set_event false (get (r.x0 % u32_mod) t) (r.x0 % u32_mod) t) [
  | some t' ↦ (ret 0 r, t')
  | none ↦ (ret 0 r, t)
]

create_into : KObject → Registers → HandleTable → Registers × HandleTable
unfolding create ret_handle
create_into obj r t = let (handle, t') = create obj t in (ret_handle handle r, t')

unfoldable pub svc_create_event : Registers → HandleTable → Registers × HandleTable
unfolding create_into
svc_create_event r t = create_into (event false) r t

unfoldable pub svc_create_transfer_memory : Registers → HandleTable → Registers × HandleTable
unfolding create_into
svc_create_transfer_memory r t = create_into (transfer_memory r.x0 r.x1 (r.x2 % u32_mod % 8)) r t

unfoldable pub svc_create_interrupt_event : Registers → HandleTable → Registers × HandleTable
unfolding create_into
svc_create_interrupt_event r t = create_into (interrupt_event false) r t

unfoldable pub svc_create_device_address_space : Registers → HandleTable → Registers × HandleTable
unfolding create_into
svc_create_device_address_space r t = create_into device_address_space r t

unfoldable pub svc_close_handle : Registers → HandleTable → Registers × HandleTable
unfolding close ret
svc_close_handle r t = (ret 0 r, close (r.x0 % u32_mod) t)

-- The first index of the list at which the test holds.
unfoldable pub first_index : (ℕ → Bool) → ℕ → List ℕ → Option ℕ
first_index p i [] = none
first_index p i (h ∷ handles) = if p h then some i else first_index p (suc i) handles

-- The handles that are answered at once.
unfoldable pub auto_signaled : ℕ → Bool
auto_signaled h = h == 0xE000_0001 || h == 0

unfoldable pub handle_signaled : HandleTable → ℕ → Bool
unfolding get is_signaled
handle_signaled t h = elim (get h t) [ none ↦ false | some obj ↦ is_signaled obj ]

pub data Waited : Type 0 where
  answered : Registers → Waited
  blocked : Waited

unfoldable pub answer : ℕ → ℕ → Registers → Waited
answer result index r = answered (record r { x0 = result; x1 = index })

-- `SvcWaitSynchronization` on the handles read from the guest, up to the point where it blocks;
-- `poll` is a timeout of 0.
unfoldable pub svc_wait_synchronization : List ℕ → Bool → Registers → HandleTable → Waited
unfolding answer first_index auto_signaled handle_signaled
svc_wait_synchronization [] poll r t = answer 0 0 r
svc_wait_synchronization (h ∷ handles) poll r t = elim (first_index auto_signaled 0 (h ∷ handles)) [
  | some i ↦ answer 0 i r
  | none ↦ elim (first_index (handle_signaled t) 0 (h ∷ handles)) [
    | some i ↦ answer 0 i r
    | none ↦ if poll then answer timed_out 0 r else blocked
  ]
]
