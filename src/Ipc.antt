-- ===== src/Ipc.antt =====
-- services/Ipc.h and Ipc.cpp: the IPC manager's services and sessions. A service is named by its
-- pointer, a number.
pub mod Message
pub mod Request
pub mod Handle
pub mod Exchange
pub mod Sessions
pub mod Response
use Prim.Native.String.{String, ◌++◌ as ◌<>◌}
use m1switch.Base.{
  ℕ, ◌+◌, ◌%◌, Bool, true, false, ◌==◌, if◌then◌else◌, List, [], ◌∷◌, ◌++◌, Option, none, some,
}
use m1switch.Base.Bits.{u32_mod}
use m1switch.Base.Dict.{Dict}
use m1switch.Service.{Reply}
use text.Mathlib.Text

-- `IpcManager::Session`; a null pointer is `none`.
pub record Session : Type 0 where
  pub id : ℕ
  pub service_name : String
  pub service : Option ℕ
  pub is_domain : Bool
  pub owns_service : Bool
  pub next_object_id : ℕ
  pub domain_objects : Dict ℕ

-- `IpcManager`, with the services that were deleted, in order. The lock is left out.
pub record Manager : Type 0 where
  pub services : List (String × ℕ)
  pub sessions : List Session
  pub next_session : ℕ
  pub deleted : List ℕ

unfoldable pub new_manager : Manager
new_manager = record { services = []; sessions = []; next_session = 0x1000; deleted = [] }

-- `services_[name] = service`
unfoldable pub put_service : String → ℕ → List (String × ℕ) → List (String × ℕ)
put_service name service [] = (name, service) ∷ []
put_service name service ((key, old) ∷ rest) =
    let later : List (String × ℕ) = put_service name service rest in
    if Text.◌==◌ name key then (name, service) ∷ rest else (key, old) ∷ later

-- `services_.find`
unfoldable pub find_service : String → List (String × ℕ) → Option ℕ
find_service name [] = none
find_service name ((key, service) ∷ rest) =
    if Text.◌==◌ name key then some service else find_service name rest

unfoldable pub register_service : String → ℕ → Manager → Manager
unfolding put_service
register_service name service m = record m { services = put_service name service m.services }

unfoldable pub new_session : ℕ → String → Option ℕ → Bool → Session
new_session id name service owns = record {
  id = id;
  service_name = name;
  service = service;
  is_domain = false;
  owns_service = owns;
  next_object_id = 1;
  domain_objects = [];
}

-- `next_session_++` and `sessions_.push_back`.
unfoldable pub push_session : String → Option ℕ → Bool → Manager → ℕ × Manager
unfolding new_session
push_session name service owns m = (
  m.next_session,
  record m {
    sessions = m.sessions ++ new_session m.next_session name service owns ∷ [];
    next_session = (m.next_session + 1) % u32_mod;
  },
)

-- The name, or the name with a colon.
unfoldable pub connect : String → Manager → ℕ × Manager
unfolding find_service push_session
connect name m = elim (find_service name m.services) [
  | some service ↦ push_session name (some service) false m
  | none ↦ push_session name (find_service (name <> ":") m.services) false m
]

unfoldable pub create_session : ℕ → Manager → ℕ × Manager
unfolding push_session
create_session service m = push_session "(anonymous)" (some service) true m

-- 0 for a service that is not registered.
unfoldable pub open_session_for : String → Manager → ℕ × Manager
unfolding find_service create_session
open_session_for name m = elim (find_service name m.services) [
  | none ↦ (0, m)
  | some service ↦ create_session service m
]

-- The first session with the id, as all the loops over `sessions_` find it.
unfoldable pub find_session : ℕ → List Session → Option Session
find_session id [] = none
find_session id (s ∷ rest) = if s.id == id then some s else find_session id rest

unfoldable pub get_service_by_session : ℕ → Manager → Option ℕ
unfolding find_session
get_service_by_session id m = elim (find_session id m.sessions) [ none ↦ none | some s ↦ s.service ]

-- The service that the session owns, and nothing otherwise.
unfoldable pub owned : Session → List ℕ
owned s = if s.owns_service then (elim s.service [ none ↦ [] | some p ↦ p ∷ [] ]) else []

unfoldable pub remove_session : ℕ → List Session → List Session
remove_session id [] = []
remove_session id (s ∷ rest) =
    let later : List Session = remove_session id rest in if s.id == id then rest else s ∷ later

unfoldable pub close_session : ℕ → Manager → Manager
unfolding find_session owned remove_session
close_session id m = elim (find_session id m.sessions) [
  | none ↦ m
  | some s ↦ record m { sessions = remove_session id m.sessions; deleted = m.deleted ++ owned s }
]

-- A change of the session that `find_session` finds.
unfoldable pub update_session : ℕ → (Session → Session) → List Session → List Session
update_session id f [] = []
update_session id f (s ∷ rest) =
    let later : List Session = update_session id f rest in
    if s.id == id then f s ∷ rest else s ∷ later

-- The services that pointers name, over a state of type `World`: `Name`, and `HandleCommand` given
-- the command, its input and the room for the answer. A handler may call the manager.
pub record Services {ℓ} (World : Type ℓ) : Type ℓ where
  pub name : ℕ → String
  pub handle_command : ℕ → ℕ → List ℕ → ℕ → Manager → World → Reply × Manager × World
