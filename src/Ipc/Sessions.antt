-- ===== src/Ipc/Sessions.antt =====
-- services/Ipc.cpp: the sessions after any sequence of calls of the manager.
pub mod Calls
use Prim.Native.String.{String, ◌++◌ as ◌<>◌}
use m1switch.Base.{
  ℕ, zero, suc, ◌+◌, ◌%◌, ◌≤◌, ◌<◌, Bool, true, false, ◌==◌, Bool-cases, Option-cases, ==_iff,
  ==_ne, if◌then◌else◌, ◌≢◌, ◌≡◌, refl, sym, ap, subst, ◌∙◌, inl, inr, List, [], ◌∷◌, ◌++◌, Option,
  none, some, length, arith,
}
use m1switch.Base.Bits.{u32_mod}
use m1switch.Ipc.{
  Session, Manager, new_manager, new_session, push_session, register_service, connect,
  create_session, open_session_for, find_service, find_session, owned, remove_session,
  close_session,
}

-- Every session's id is below `n`.
unfoldable pub AllBelow : ℕ → List Session → Type 0
AllBelow n [] = n ≡ n
AllBelow n (s ∷ rest) = (s.id < n) × AllBelow n rest

AllBelow-more : (n k : ℕ) (ss : List Session) → n ≤ k → AllBelow n ss → AllBelow k ss
unfolding AllBelow
AllBelow-more n k [] h v = refl
AllBelow-more n k (s ∷ rest) h v = (omega (arith, v.0), AllBelow-more n k rest h v.1)

AllBelow-append :
    (n : ℕ) (ss : List Session) (s : Session) → AllBelow n ss → s.id < n → AllBelow n (ss ++ s ∷ [])
unfolding AllBelow
AllBelow-append n [] s v h = (h, refl)
AllBelow-append n (t ∷ rest) s v h = (v.0, AllBelow-append n rest s v.1 h)

AllBelow-remove_session :
    (n id : ℕ) (ss : List Session) → AllBelow n ss → AllBelow n (remove_session id ss)
unfolding AllBelow remove_session
AllBelow-remove_session n id [] v = v
AllBelow-remove_session n id (s ∷ rest) v = elim (Bool-cases (s.id == id)) [
  | inl e ↦ rw (e) v.1
  | inr e ↦ rw (e) (v.0, AllBelow-remove_session n id rest v.1)
]

pub find_session-AllBelow :
    (n id : ℕ) (ss : List Session) → AllBelow n ss → n ≤ id → find_session id ss ≡ none
unfolding AllBelow find_session
find_session-AllBelow n id [] v h = refl
find_session-AllBelow n id (s ∷ rest) v h =
    rw (==_ne s.id id (λ e. omega (arith, e, v.0))) (find_session-AllBelow n id rest v.1 h)

pub find_session-append_same :
    (id : ℕ) (ss : List Session) (s : Session)
    → find_session id ss ≡ none
    → s.id ≡ id
    → find_session id (ss ++ s ∷ []) ≡ some s
unfolding find_session
find_session-append_same id [] s h e = rw ((==_iff s.id id).1 e) refl
find_session-append_same id (t ∷ rest) s h e = elim (Bool-cases (t.id == id)) [
  | inl q ↦ cc (rw (q, find_session) at h)
  | inr q ↦ rw (q) (find_session-append_same id rest s (rw (q, find_session) at h) e)
]

pub find_session-append_other :
    (id : ℕ) (ss : List Session) (s : Session)
    → s.id ≢ id
    → find_session id (ss ++ s ∷ []) ≡ find_session id ss
unfolding find_session
find_session-append_other id [] s ne = rw (==_ne s.id id ne) refl
find_session-append_other id (t ∷ rest) s ne = elim (Bool-cases (t.id == id)) [
  | inl q ↦ rw (q) refl
  | inr q ↦ rw (q) (find_session-append_other id rest s ne)
]

pub remove_session-append :
    (id : ℕ) (ss : List Session) (s : Session)
    → find_session id ss ≡ none
    → s.id ≡ id
    → remove_session id (ss ++ s ∷ []) ≡ ss
unfolding find_session remove_session
remove_session-append id [] s h e = rw ((==_iff s.id id).1 e) refl
remove_session-append id (t ∷ rest) s h e = elim (Bool-cases (t.id == id)) [
  | inl q ↦ cc (rw (q, find_session) at h)
  | inr q ↦ rw (q) (ap (◌∷◌ t) (remove_session-append id rest s (rw (q, find_session) at h) e))
]

pub record IsValid (given : ℕ) (m : Manager) : Type 0 where
  pub next : m.next_session ≤ 0x1000 + given
  pub below : AllBelow m.next_session m.sessions

pub push_session-IsValid :
    (given : ℕ) (name : String) (service : Option ℕ) (owns : Bool) (m : Manager)
    → suc given + 0x1000 < u32_mod
    → IsValid given m
    → IsValid (suc given) (push_session name service owns m).1
unfolding push_session new_session
push_session-IsValid given name service owns m h v =
    let flat : (m.next_session + 1) % u32_mod ≡ m.next_session + 1 = omega (arith, v.next) in
    record {
      next = omega (arith, v.next);
      below =
          subst
            (λ (n : ℕ).
              AllBelow n (m.sessions ++ new_session m.next_session name service owns ∷ []))
            (sym flat)
            (AllBelow-append (m.next_session + 1) m.sessions
              (new_session m.next_session name service owns)
              (AllBelow-more m.next_session (m.next_session + 1) m.sessions (omega arith) v.below)
              (omega arith));
    }

pub more-IsValid : (given : ℕ) (m : Manager) → IsValid given m → IsValid (suc given) m
more-IsValid given m v = record { next = omega (arith, v.next); below = v.below }

pub connect-IsValid :
    (given : ℕ) (name : String) (m : Manager)
    → suc given + 0x1000 < u32_mod
    → IsValid given m
    → IsValid (suc given) (connect name m).1
unfolding connect
connect-IsValid given name m h v = elim (Option-cases (find_service name m.services)) [
  | inl absent ↦
      rw (absent, connect)
        (push_session-IsValid given name (find_service (name <> ":") m.services) false m h v)
  | inr (p, there) ↦ rw (there, connect) (push_session-IsValid given name (some p) false m h v)
]

pub open-IsValid :
    (given : ℕ) (name : String) (m : Manager)
    → suc given + 0x1000 < u32_mod
    → IsValid given m
    → IsValid (suc given) (open_session_for name m).1
unfolding open_session_for create_session
open-IsValid given name m h v = elim (Option-cases (find_service name m.services)) [
  | inl absent ↦ rw (absent, open_session_for) (more-IsValid given m v)
  | inr (p, there) ↦
      rw (there, open_session_for) (push_session-IsValid given "(anonymous)" (some p) true m h v)
]

pub close-IsValid :
    (given id : ℕ) (m : Manager) → IsValid given m → IsValid (suc given) (close_session id m)
unfolding close_session
close-IsValid given id m v = elim (Option-cases (find_session id m.sessions)) [
  | inl absent ↦ rw (absent, close_session) (more-IsValid given m v)
  | inr (s, there) ↦
      rw (there, close_session)
        (record {
          next = omega (arith, v.next);
          below = AllBelow-remove_session m.next_session id m.sessions v.below;
        })
]
