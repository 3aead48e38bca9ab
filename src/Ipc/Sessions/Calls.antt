-- ===== src/Ipc/Sessions/Calls.antt =====
-- services/Ipc.cpp: what a session finds and leaves, after any sequence of calls.
use Prim.Native.String.{String, ◌++◌ as ◌<>◌}
use m1switch.Base.{
  ℕ, suc, ◌+◌, ◌<◌, Bool, true, false, Option-cases, ◌≢◌, ◌≡◌, refl, sym, ap, subst, ◌∙◌, inl, inr,
  List, [], ◌∷◌, ◌++◌, Option, none, some, length, arith,
}
use m1switch.Base.Bits.{u32_mod}
use m1switch.Ipc.{
  Session, Manager, new_manager, new_session, push_session, register_service, connect,
  create_session, open_session_for, find_service, find_session, owned, close_session,
}
use m1switch.Ipc.Sessions.{
  AllBelow, IsValid, push_session-IsValid, connect-IsValid, open-IsValid, close-IsValid,
  find_session-AllBelow, find_session-append_same, find_session-append_other, remove_session-append,
}

-- A call of the manager; HandleRequest is not among them.
pub data IpcCall : Type 0 where
  register_call : String → ℕ → IpcCall
  connect_call : String → IpcCall
  create_call : ℕ → IpcCall
  open_call : String → IpcCall
  close_call : ℕ → IpcCall

perform : IpcCall → Manager → Manager
unfolding register_service connect create_session open_session_for close_session
perform (register_call name service) m = register_service name service m
perform (connect_call name) m = (connect name m).1
perform (create_call service) m = (create_session service m).1
perform (open_call name) m = (open_session_for name m).1
perform (close_call id) m = close_session id m

unfoldable pub run_manager : List IpcCall → Manager → Manager
unfolding perform
run_manager [] m = m
run_manager (c ∷ cs) m = run_manager cs (perform c m)

perform-IsValid :
    (given : ℕ) (c : IpcCall) (m : Manager)
    → suc given + 0x1000 < u32_mod
    → IsValid given m
    → IsValid (suc given) (perform c m)
unfolding perform register_service create_session
perform-IsValid given (register_call name service) m h v = record {
  next = omega (arith, v.next);
  below = v.below;
}
perform-IsValid given (connect_call name) m h v = connect-IsValid given name m h v
perform-IsValid given (create_call service) m h v =
    push_session-IsValid given "(anonymous)" (some service) true m h v
perform-IsValid given (open_call name) m h v = open-IsValid given name m h v
perform-IsValid given (close_call id) m h v = close-IsValid given id m v

run-kept :
    (given : ℕ) (cs : List IpcCall) (m : Manager)
    → given + length cs + 0x1000 < u32_mod
    → IsValid given m
    → IsValid (given + length cs) (run_manager cs m)
unfolding run_manager
run-kept given [] m h v = subst (λ k. IsValid k m) (omega arith) v
run-kept given (c ∷ cs) m h v =
    subst (λ k. IsValid k (run_manager cs (perform c m))) (omega arith)
      (run-kept (suc given) cs (perform c m) (omega arith)
        (perform-IsValid given c m (omega arith) v))

run-IsValid :
    (cs : List IpcCall)
    → length cs + 0x1000 < u32_mod
    → IsValid (length cs) (run_manager cs new_manager)
unfolding new_manager AllBelow
run-IsValid cs h =
    subst (λ k. IsValid k (run_manager cs new_manager)) (omega arith)
      (run-kept 0 cs new_manager (omega arith) (record { next = omega arith; below = refl }))

-- A new session: its id was not live, names it alone, and closing it leaves what was there.
pub record Opened (name : String) (service : Option ℕ) (owns : Bool) (m : Manager) (r : ℕ × Manager)
    : Type 0 where
  pub fresh : find_session r.0 m.sessions ≡ none
  pub finds : find_session r.0 r.1.sessions ≡ some (new_session r.0 name service owns)
  pub others : (id : ℕ) → id ≢ r.0 → find_session id r.1.sessions ≡ find_session id m.sessions
  pub closes : (close_session r.0 r.1).sessions ≡ m.sessions
  pub deletes :
      (close_session r.0 r.1).deleted ≡ m.deleted ++ owned (new_session r.0 name service owns)

push_session-Opened :
    (given : ℕ) (name : String) (service : Option ℕ) (owns : Bool) (m : Manager)
    → IsValid given m
    → Opened name service owns m (push_session name service owns m)
unfolding push_session new_session close_session
push_session-Opened given name service owns m v =
    let new : Session = new_session m.next_session name service owns in
    let gone : find_session m.next_session m.sessions ≡ none =
      find_session-AllBelow m.next_session m.next_session m.sessions v.below (omega arith) in
    let there : find_session m.next_session (m.sessions ++ new ∷ []) ≡ some new =
      find_session-append_same m.next_session m.sessions new gone refl in
    record {
      fresh = gone;
      finds = there;
      others = λ id ne. find_session-append_other id m.sessions new (λ e. ne (sym e));
      closes =
          rw (there, close_session) (remove_session-append m.next_session m.sessions new gone refl);
      deletes = rw (there, close_session) refl;
    }

-- The service that Connect finds: under the name, or under the name with a colon.
unfoldable pub service_of : String → Manager → Option ℕ
unfolding find_service
service_of name m = elim (find_service name m.services) [
  | some service ↦ some service
  | none ↦ find_service (name <> ":") m.services
]

pub connect-Opened :
    (given : ℕ) (name : String) (m : Manager)
    → IsValid given m
    → Opened name (service_of name m) false m (connect name m)
unfolding connect service_of
connect-Opened given name m v = elim (Option-cases (find_service name m.services)) [
  | inl absent ↦
      rw (absent, connect, service_of)
        (push_session-Opened given name (find_service (name <> ":") m.services) false m v)
  | inr (p, there) ↦
      rw (there, connect, service_of) (push_session-Opened given name (some p) false m v)
]

-- After any sequence of fewer than 2^32 - 0x1000 RegisterService, Connect, CreateSession,
-- OpenSessionFor and CloseSession calls of a new manager, a Connect opens a session whose id was not
-- live, on the service registered under its name or under the name with a colon, and every other id
-- finds what it found; closing it brings the sessions back as they were and deletes no service.
pub run-connect :
    (cs : List IpcCall) (name : String)
    → length cs + 0x1000 < u32_mod
    → Opened name
        (service_of name (run_manager cs new_manager))
        false
        (run_manager cs new_manager)
        (connect name (run_manager cs new_manager))
run-connect cs name h =
    connect-Opened (length cs) name (run_manager cs new_manager) (run-IsValid cs h)

open-push :
    (name : String) (p : ℕ) (m : Manager)
    → find_service name m.services ≡ some p
    → open_session_for name m ≡ push_session "(anonymous)" (some p) true m
unfolding open_session_for create_session
open-push name p m there = rw (there, open_session_for) refl

push-services :
    (name : String) (service : Option ℕ) (owns : Bool) (m : Manager)
    → (push_session name service owns m).1.services ≡ m.services
unfolding push_session
push-services name service owns m = refl

closed-services : (id : ℕ) (m : Manager) → (close_session id m).services ≡ m.services
unfolding close_session
closed-services id m = elim (Option-cases (find_session id m.sessions)) [
  | inl absent ↦ rw (absent, close_session) refl
  | inr (s, there) ↦ rw (there, close_session) refl
]

-- After any sequence of fewer than 2^32 - 0x1000 RegisterService, Connect, CreateSession,
-- OpenSessionFor and CloseSession calls of a new manager, a session that OpenSessionFor opens on a
-- registered service deletes that service when it is closed, while the service stays registered
-- under its name.
pub run-open_deletes :
    (cs : List IpcCall) (name : String) (p : ℕ)
    → length cs + 0x1000 < u32_mod
    → find_service name (run_manager cs new_manager).services ≡ some p
    → let m = run_manager cs new_manager in
      let (id, opened) = open_session_for name m in
      ((close_session id opened).deleted ≡ m.deleted ++ p ∷ [])
      × (find_service name (close_session id opened).services ≡ some p)
unfolding owned new_session
run-open_deletes cs name p h there =
    let m : Manager = run_manager cs new_manager in
    let pushed : ℕ × Manager = push_session "(anonymous)" (some p) true m in
    let o : Opened "(anonymous)" (some p) true m pushed =
      push_session-Opened (length cs) "(anonymous)" (some p) true m (run-IsValid cs h) in
    subst
      (λ r.
        ((close_session r.0 r.1).deleted ≡ m.deleted ++ p ∷ [])
        × (find_service name (close_session r.0 r.1).services ≡ some p))
      (sym (open-push name p m there))
      (
        o.deletes,
        ap (find_service name)
              (closed-services pushed.0 pushed.1 ∙ push-services "(anonymous)" (some p) true m)
            ∙ there,
      )
