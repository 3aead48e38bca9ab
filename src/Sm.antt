-- ===== src/Sm.antt =====
-- services/Sm.cpp: the service manager, which starts a service when its name is first asked for.
pub mod Letters
pub mod Names
pub mod Once
use Prim.Native.String.{String}
use m1switch.Base.{
  ℕ, ◌+◌, ◌%◌, Bool, true, false, ◌&&◌, ◌||◌, ◌==◌, ltb, leb, if◌then◌else◌, List, [], ◌∷◌, ◌++◌,
  Option, none, some, length,
}
use m1switch.Base.Bytes.{to_bytes}
use m1switch.Service.{Reply, empty_reply}
use m1switch.Ipc.{Manager, connect, register_service}
use m1switch.Sm.Letters.{string_of}
use text.Mathlib.Text

-- The services that have one Initialize function in common.
pub data ServiceGroup : Type 0 where
  vi nv fs hid set apm time audio am ns ldr spl acc pcv : ServiceGroup

-- The Initialize functions of the other services: what they do to the manager and the rest.
abbrev pub Initializers {ℓ} : Type ℓ → Type ℓ
Initializers World = ServiceGroup → Manager → World → Manager × World

-- The static flags of EnsureService, with the manager and the rest of the state.
pub record SmState {ℓ} (World : Type ℓ) : Type ℓ where
  pub started : ServiceGroup → Bool
  pub manager : Manager
  pub world : World

unfoldable pub number_of : ServiceGroup → ℕ
number_of vi = 0
number_of nv = 1
number_of fs = 2
number_of hid = 3
number_of set = 4
number_of apm = 5
number_of time = 6
number_of audio = 7
number_of am = 8
number_of ns = 9
number_of ldr = 10
number_of spl = 11
number_of acc = 12
number_of pcv = 13

unfoldable pub one_of : String → List String → Bool
one_of name [] = false
one_of name (key ∷ keys) = Text.◌==◌ name key || one_of name keys

-- The names, in the order of the tests.
unfoldable pub group_of : String → Option ServiceGroup
unfolding one_of
group_of name =
    if one_of name ("vi:" ∷ "vi:m" ∷ "vi:u" ∷ [])
    then some vi
    else if one_of name ("nvdrv:" ∷ "nvdrv#" ∷ "nvmap:" ∷ "nvhost-ctrl:" ∷ [])
    then some nv
    else if one_of name ("fsp-srv:" ∷ "fs:" ∷ [])
    then some fs
    else if one_of name ("hid:" ∷ [])
    then some hid
    else if one_of name ("set:" ∷ "set:sys" ∷ [])
    then some set
    else if one_of name ("apm:" ∷ "apm:sys" ∷ [])
    then some apm
    else if one_of name ("time:" ∷ "time:a" ∷ "time:u" ∷ [])
    then some time
    else if one_of name ("audout:" ∷ "audren:" ∷ [])
    then some audio
    else if one_of name ("appletOE:" ∷ "appletAE:" ∷ "applet" ∷ [])
    then some am
    else if one_of name ("ns:" ∷ "ns:dev" ∷ "ns:am2" ∷ [])
    then some ns
    else if one_of name ("ldr:" ∷ "ldr:pm" ∷ [])
    then some ldr
    else if one_of name ("spl:" ∷ "spl:mig" ∷ "spl:fs" ∷ [])
    then some spl
    else if one_of name ("acc:u0" ∷ "acc:u1" ∷ "acc:su" ∷ [])
    then some acc
    else if one_of name ("pcv:" ∷ [])
    then some pcv
    else none

-- A byte of a name that may stand at its end.
unfoldable pub printable : ℕ → Bool
printable b = leb 0x20 b && leb b 0x7E

-- The bytes before the first null byte.
unfoldable pub until_null : List ℕ → List ℕ
until_null [] = []
until_null (b ∷ bytes) = if b == 0 then [] else b ∷ until_null bytes

-- The byte in front of what is left of the bytes behind it.
unfoldable pub trim_with : ℕ → List ℕ → List ℕ
unfolding printable
trim_with b [] = if printable b then b ∷ [] else []
trim_with b (x ∷ xs) = b ∷ x ∷ xs

unfoldable pub trim_end : List ℕ → List ℕ
unfolding trim_with
trim_end [] = []
trim_end (b ∷ bytes) = trim_with b (trim_end bytes)

unfoldable pub clean_name : List ℕ → List ℕ
unfolding until_null trim_end
clean_name bytes = trim_end (until_null bytes)

-- The constructor of the service, which is `p`.
unfoldable pub new_sm : ℕ → Manager → Manager
unfolding register_service
new_sm p m = register_service "sm:m:" p (register_service "sm:" p m)

module _ {ℓ} {World : Type ℓ} (init : Initializers World) where
  unfoldable pub start : ServiceGroup → SmState World → SmState World
  unfolding number_of
  start g st =
      let r : Manager × World = init g st.manager st.world in
      record {
        started = λ h. if number_of h == number_of g then true else st.started h;
        manager = r.0;
        world = r.1;
      }

  unfoldable pub ensure_group : Option ServiceGroup → SmState World → SmState World
  unfolding start
  ensure_group none st = st
  ensure_group (some g) st = if st.started g then st else start g st

  unfoldable pub ensure_service : String → SmState World → SmState World
  unfolding group_of ensure_group
  ensure_service name st = ensure_group (group_of name) st

  -- The session's number in 8 bytes, where `*out_sz` leaves room for them.
  unfoldable pub session_reply : ℕ → ℕ → Reply
  unfolding to_bytes
  session_reply room session =
      if leb 8 room
      then record { handled = true; out = to_bytes 4 session ++ to_bytes 4 0; out_sz = 8 }
      else record { handled = true; out = []; out_sz = room }

  unfoldable pub get_named : String → ℕ → SmState World → Reply × SmState World
  unfolding ensure_service connect session_reply
  get_named name room st =
      let ready : SmState World = ensure_service name st in
      let opened : ℕ × Manager = connect name ready.manager in
      (session_reply room opened.0, record ready { manager = opened.1 })

  unfoldable pub handle_get_service : List ℕ → ℕ → SmState World → Reply × SmState World
  unfolding clean_name string_of get_named
  handle_get_service input room st =
      if ltb (length input) 1
      then (record { handled = false; out = []; out_sz = room }, st)
      else get_named (string_of (clean_name input)) room st

  -- Initialize, GetService and RegisterService.
  unfoldable pub sm_command : ℕ → List ℕ → ℕ → SmState World → Reply × SmState World
  unfolding empty_reply handle_get_service
  sm_command cmd input room st =
      if cmd == 0
      then (empty_reply, st)
      else if cmd == 1
      then handle_get_service input room st
      else if cmd == 3
      then (empty_reply, st)
      else (record { handled = false; out = []; out_sz = room }, st)
