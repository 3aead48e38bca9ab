-- ===== src/Sm/Names.antt =====
-- services/Sm.cpp: GetService, from the bytes of a name to the session.
use Prim.Native.String.{String}
use m1switch.Base.{
  ℕ, zero, suc, subst, ◌≤◌, true, false, ltb, ltb-ge, leb-le, ◌==◌, ==_ne, ◌≡◌, refl, sym, ap, ◌∙◌,
  List, [], ◌∷◌, ◌++◌, length, arith,
}
use m1switch.Base.Bytes.{to_bytes}
use m1switch.Service.{Reply}
use m1switch.Ipc.{connect}
use m1switch.Ipc.Sessions.{IsValid}
use m1switch.Ipc.Sessions.Calls.{Opened, service_of, connect-Opened}
use m1switch.Sm.{
  Initializers, SmState, printable, until_null, trim_with, trim_end, clean_name, ensure_service,
  session_reply, get_named, handle_get_service,
}
use m1switch.Sm.Letters.{string_of}

-- Every byte is printable.
unfoldable pub AllPrintable : List ℕ → Type 0
AllPrintable [] = Unit
AllPrintable (b ∷ bytes) = (printable b ≡ true) × AllPrintable bytes

printable-ne : (b : ℕ) → printable b ≡ true → (b == 0) ≡ false
unfolding printable
printable-ne zero p = absurd (cc p)
printable-ne (suc b) p = ==_ne (suc b) 0 (λ e. omega (arith, e))

until_null-padded : (name rest : List ℕ) → AllPrintable name → until_null (name ++ 0 ∷ rest) ≡ name
unfolding until_null AllPrintable
until_null-padded [] rest p = refl
until_null-padded (b ∷ name) rest p =
    rw (printable-ne b p.0) (ap (◌∷◌ b) (until_null-padded name rest p.1))

trim-printable : (b : ℕ) (name : List ℕ) → printable b ≡ true → trim_with b name ≡ b ∷ name
unfolding trim_with
trim-printable b [] p = rw (p, trim_with) refl
trim-printable b (x ∷ name) p = refl

trim_end-printable : (name : List ℕ) → AllPrintable name → trim_end name ≡ name
unfolding trim_end AllPrintable
trim_end-printable [] p = refl
trim_end-printable (b ∷ name) p =
    ap (trim_with b) (trim_end-printable name p.1) ∙ trim-printable b name p.0

clean_name-padded : (name rest : List ℕ) → AllPrintable name → clean_name (name ++ 0 ∷ rest) ≡ name
unfolding clean_name
clean_name-padded name rest p =
    ap trim_end (until_null-padded name rest p) ∙ trim_end-printable name p

module _ {ℓ} {World : Type ℓ} (init : Initializers World) where
  -- A GetService that found its session: the session is opened on what is registered under the name
  -- once the name's services are started, and the client reads its number.
  pub record Got (name : String) (st : SmState World) (r : Reply × SmState World) : Type ℓ where
    pub opens :
        Opened name
          (service_of name (ensure_service init name st).manager)
          false
          (ensure_service init name st).manager
          (connect name (ensure_service init name st).manager)
    pub leaves : r.1.manager ≡ (connect name (ensure_service init name st).manager).1
    pub handled : r.0.handled ≡ true
    pub sized : r.0.out_sz ≡ 8
    pub writes :
        r.0.out ≡ to_bytes 4 (connect name (ensure_service init name st).manager).0 ++ to_bytes 4 0

  get_named-Got :
      (given : ℕ) (name : String) (room : ℕ) (st : SmState World)
      → 8 ≤ room
      → IsValid given (ensure_service init name st).manager
      → Got name st (get_named init name room st)
  unfolding get_named session_reply
  get_named-Got given name room st wide v = record {
    opens = connect-Opened given name (ensure_service init name st).manager v;
    leaves = refl;
    handled = rw (leb-le 8 room wide) refl;
    sized = rw (leb-le 8 room wide) refl;
    writes = rw (leb-le 8 room wide) refl;
  }

  handle_get_service-named :
      (name rest : List ℕ) (room : ℕ) (st : SmState World)
      → AllPrintable name
      → handle_get_service init (name ++ 0 ∷ rest) room st ≡ get_named init (string_of name) room st
  unfolding handle_get_service
  handle_get_service-named name rest room st p =
      rw (some_input name, handle_get_service)
        (ap (λ (bytes : List ℕ). get_named init (string_of bytes) room st)
          (clean_name-padded name rest p))
    where
      some_input : (xs : List ℕ) → ltb (length (xs ++ 0 ∷ rest)) 1 ≡ false
      some_input [] = ltb-ge (length (0 ∷ rest)) 1 (omega arith)
      some_input (x ∷ xs) = ltb-ge (length (x ∷ xs ++ 0 ∷ rest)) 1 (omega arith)

  -- A GetService of printable bytes, a null byte and anything behind it, with room for 8 bytes: the
  -- name is those bytes, its services are started if they have to be, and if every session of the
  -- manager then has a number below the next one, a session is opened on what is registered under the
  -- name, or under the name with a colon, whose number is new and is what the client reads, with four
  -- bytes of zero behind it.
  pub handle_get_service-Got :
      (given : ℕ) (name rest : List ℕ) (room : ℕ) (st : SmState World)
      → AllPrintable name
      → 8 ≤ room
      → IsValid given (ensure_service init (string_of name) st).manager
      → Got (string_of name) st (handle_get_service init (name ++ 0 ∷ rest) room st)
  handle_get_service-Got given name rest room st p wide v =
      subst (Got (string_of name) st) (sym (handle_get_service-named name rest room st p))
        (get_named-Got given (string_of name) room st wide v)
