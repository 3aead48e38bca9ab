-- ===== src/Sm/Once.antt =====
-- services/Sm.cpp, EnsureService: a service is started once.
use Prim.Native.String.{String}
use m1switch.Base.{
  ℕ, true, ◌==◌, ==_iff, Bool-cases, inl, inr, ◌≡◌, refl, List, [], ◌∷◌, Option, none, some,
}
use m1switch.Sm.{
  ServiceGroup, Initializers, SmState, number_of, group_of, start, ensure_group, ensure_service,
}

same_number : (n : ℕ) → (n == n) ≡ true
same_number n = (==_iff n n).1 refl

module _ {ℓ} {World : Type ℓ} (init : Initializers World) where
  unfoldable pub ensure_all : List String → SmState World → SmState World
  unfolding ensure_service
  ensure_all [] st = st
  ensure_all (name ∷ names) st = ensure_all names (ensure_service init name st)

  start-started : (g : ServiceGroup) (st : SmState World) → (start init g st).started g ≡ true
  unfolding start
  start-started g st = rw (same_number (number_of g)) refl

  start-kept :
      (g h : ServiceGroup) (st : SmState World)
      → st.started g ≡ true
      → (start init h st).started g ≡ true
  unfolding start
  start-kept g h st on = elim (Bool-cases (number_of g == number_of h)) [
    | inl e ↦ rw (e) refl
    | inr e ↦ rw (e) on
  ]

  ensure-started :
      (name : String) (g : ServiceGroup) (st : SmState World)
      → group_of name ≡ some g
      → (ensure_service init name st).started g ≡ true
  unfolding ensure_service ensure_group
  ensure-started name g st e = elim (Bool-cases (st.started g)) [
    | inl on ↦ rw (e, ensure_service, on) on
    | inr off ↦ rw (e, ensure_service, off) (start-started g st)
  ]

  ensure-kept :
      (o : Option ServiceGroup) (g : ServiceGroup) (st : SmState World)
      → st.started g ≡ true
      → (ensure_group init o st).started g ≡ true
  unfolding ensure_group
  ensure-kept none g st on = on
  ensure-kept (some h) g st on = elim (Bool-cases (st.started h)) [
    | inl e ↦ rw (e) on
    | inr e ↦ rw (e) (start-kept g h st on)
  ]

  all-kept :
      (names : List String) (g : ServiceGroup) (st : SmState World)
      → st.started g ≡ true
      → (ensure_all names st).started g ≡ true
  unfolding ensure_all ensure_service
  all-kept [] g st on = on
  all-kept (name ∷ names) g st on =
      all-kept names g (ensure_service init name st) (ensure-kept (group_of name) g st on)

  ensure-done :
      (name : String) (g : ServiceGroup) (st : SmState World)
      → group_of name ≡ some g
      → st.started g ≡ true
      → ensure_service init name st ≡ st
  unfolding ensure_service ensure_group
  ensure-done name g st e on = rw (e, ensure_service, on) refl

  -- Once a name has been ensured, and after any names that are ensured behind it, ensuring another
  -- name of the same services leaves everything as it is: they are started at most once.
  pub ensure_all_once :
      (name other : String) (names : List String) (g : ServiceGroup) (st : SmState World)
      → group_of name ≡ some g
      → group_of other ≡ some g
      → ensure_service init other (ensure_all names (ensure_service init name st))
        ≡ ensure_all names (ensure_service init name st)
  ensure_all_once name other names g st e f =
      ensure-done other g (ensure_all names (ensure_service init name st)) f
        (all-kept names g (ensure_service init name st) (ensure-started name g st e))
