-- ===== src/Examples/Sm.antt =====
-- The service manager at concrete inputs, over services that register one name when they start.
use m1switch.Base.{ℕ, suc, ◌≡◌, refl, false, List, [], ◌∷◌, ◌++◌, some, arith}
use m1switch.Ipc.{new_manager, register_service}
use m1switch.Ipc.Sessions.{IsValid, AllBelow}
use m1switch.Sm.{
  set, Initializers, SmState, new_sm, one_of, group_of, start, ensure_group, ensure_service,
  printable, handle_get_service,
}
use m1switch.Sm.Letters.{string_of}
use m1switch.Sm.Names.{AllPrintable, Got, handle_get_service-Got}
use m1switch.Sm.Once.{ensure_all, ensure_all_once}

-- Each start counts in the rest of the state.
abbrev one_service : Initializers ℕ
one_service g m w = (register_service "hid:" 7 m, suc w)

abbrev first_state : SmState ℕ
first_state = record { started = λ g. false; manager = new_sm 1 new_manager; world = 0 }

-- The bytes of "hid:".
abbrev hid_name : List ℕ
hid_name = 0x68 ∷ 0x69 ∷ 0x64 ∷ 0x3A ∷ []

name_printable : AllPrintable hid_name
unfolding AllPrintable printable
name_printable = (refl, (refl, (refl, (refl, tt))))

started-IsValid : IsValid 0 (ensure_service one_service (string_of hid_name) first_state).manager
unfolding ensure_service ensure_group group_of one_of string_of start new_sm register_service
    new_manager AllBelow
started-IsValid = record { next = omega arith; below = refl }

handle_get_service-Got_example :
    Got one_service
      (string_of hid_name)
      first_state
      (handle_get_service one_service (hid_name ++ 0 ∷ 9 ∷ 0 ∷ []) 24 first_state)
handle_get_service-Got_example =
    handle_get_service-Got one_service 0 hid_name (9 ∷ 0 ∷ []) 24 first_state name_printable
      (omega arith) started-IsValid

set_group : group_of "set:" ≡ some set
unfolding group_of one_of
set_group = refl

set_sys_group : group_of "set:sys" ≡ some set
unfolding group_of one_of
set_sys_group = refl

ensure_all_once_example :
    ensure_service one_service "set:sys"
      (ensure_all one_service ("hid:" ∷ []) (ensure_service one_service "set:" first_state))
    ≡ ensure_all one_service ("hid:" ∷ []) (ensure_service one_service "set:" first_state)
ensure_all_once_example =
    ensure_all_once one_service "set:" "set:sys" ("hid:" ∷ []) set first_state set_group
      set_sys_group
