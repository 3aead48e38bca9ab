-- ===== src/Kernel/Wait.antt =====
-- Which handle a wait answers with: kernel/SvcHandlers.cpp, `SvcWaitSynchronization`.
use m1switch.Base.{
  true-false, ℕ, zero, suc, ◌+◌, ◌<◌, Bool, true, false, if◌then◌else◌, Bool-cases, ◌≡◌, refl, ap,
  ◌∙◌, ◌⊎◌, inl, inr, List, [], ◌∷◌, none, some, arith, length, get_or,
}
use m1switch.Kernel.{
  HandleTable, Registers, blocked, answer, timed_out, first_index, auto_signaled, handle_signaled,
  svc_wait_synchronization,
}

-- The test holds at an index of the list and at none before it.
pub record FirstAt (p : ℕ → Bool) (handles : List ℕ) (j : ℕ) : Type 0 where
  pub in_list : j < length handles
  pub holds : p (get_or handles j 0) ≡ true
  pub not_before : (l : ℕ) → l < j → p (get_or handles l 0) ≡ false

-- The test holds nowhere in the list.
unfoldable pub Nowhere : (ℕ → Bool) → List ℕ → Type 0
Nowhere p handles = (l : ℕ) → l < length handles → p (get_or handles l 0) ≡ false

module _ (p : ℕ → Bool) where
  Answer : ℕ → List ℕ → Type 0
  Answer i handles =
      ((j : ℕ) × (first_index p i handles ≡ some (i + j)) × FirstAt p handles j)
      ⊎ ((first_index p i handles ≡ none) × Nowhere p handles)

  first_index-Answer : (i : ℕ) (handles : List ℕ) → Answer i handles
  unfolding Answer first_index Nowhere
  first_index-Answer i [] = inr (refl, λ l h. absurd (omega arith))
  first_index-Answer i (h ∷ handles) = elim (Bool-cases (p h)) [
    | inl t ↦ inl (
      0,
      rw (t) (ap some (show_zero i)),
      record { in_list = omega arith; holds = t; not_before = λ l lt. absurd (omega arith) },
    )
    | inr f ↦ elim (first_index-Answer (suc i) handles) [
      | inl (j, e, at) ↦ inl (
        suc j,
        rw (f) (e ∙ ap some (show_suc i j)),
        record {
          in_list = omega (arith, at.in_list);
          holds = at.holds;
          not_before = later j f at.not_before;
        },
      )
      | inr (e, no_one) ↦ inr (rw (f) e, all_false f no_one)
    ]
  ]
    where
      show_zero : (i : ℕ) → i ≡ i + 0
      show_zero i = omega arith

      show_suc : (i j : ℕ) → suc i + j ≡ i + suc j
      show_suc i j = omega arith

      later :
          (j : ℕ)
          → p h ≡ false
          → ((l : ℕ) → l < j → p (get_or handles l 0) ≡ false)
          → (l : ℕ) → l < suc j
          → p (get_or (h ∷ handles) l 0) ≡ false
      later j f before zero lt = f
      later j f before (suc l) lt = before l (omega arith)

      all_false :
          p h ≡ false
          → ((l : ℕ) → l < length handles → p (get_or handles l 0) ≡ false)
          → (l : ℕ) → l < suc (length handles)
          → p (get_or (h ∷ handles) l 0) ≡ false
      all_false f rest zero lt = f
      all_false f rest (suc l) lt = rest l (omega arith)

wait_some :
    (h : ℕ) (handles : List ℕ) (poll : Bool) (r : Registers) (t : HandleTable)
    → first_index auto_signaled 0 (h ∷ handles) ≡ none
    → (j : ℕ) → first_index (handle_signaled t) 0 (h ∷ handles) ≡ some j
    → svc_wait_synchronization (h ∷ handles) poll r t ≡ answer 0 j r
unfolding svc_wait_synchronization
wait_some h handles poll r t a j b = rw (a, b, svc_wait_synchronization) refl

wait_none :
    (h : ℕ) (handles : List ℕ) (poll : Bool) (r : Registers) (t : HandleTable)
    → first_index auto_signaled 0 (h ∷ handles) ≡ none
    → first_index (handle_signaled t) 0 (h ∷ handles) ≡ none
    → svc_wait_synchronization (h ∷ handles) poll r t
      ≡ (if poll then answer timed_out 0 r else blocked)
unfolding svc_wait_synchronization
wait_none h handles poll r t a b = rw (a, b, svc_wait_synchronization) refl

quiet_none :
    (h : ℕ) (handles : List ℕ)
    → Nowhere auto_signaled (h ∷ handles)
    → first_index auto_signaled 0 (h ∷ handles) ≡ none
unfolding Answer Nowhere
quiet_none h handles quiet = elim (first_index-Answer auto_signaled 0 (h ∷ handles)) [
  | inl (j, e, at) ↦ true-false _ at.holds (quiet j at.in_list)
  | inr (e, no_one) ↦ e
]

-- A wait on handles none of which is answered by itself returns success with the least index of a
-- signaled object; if no object is signaled, it returns a timeout when it polls, and blocks
-- otherwise.
pub svc_wait_synchronization-FirstAt :
    (h : ℕ) (handles : List ℕ) (poll : Bool) (r : Registers) (t : HandleTable)
    → Nowhere auto_signaled (h ∷ handles)
    → ((j : ℕ) × FirstAt (handle_signaled t) (h ∷ handles) j
        × (svc_wait_synchronization (h ∷ handles) poll r t ≡ answer 0 j r))
      ⊎ (Nowhere (handle_signaled t) (h ∷ handles)
          × (svc_wait_synchronization (h ∷ handles) poll r t
              ≡ (if poll then answer timed_out 0 r else blocked)))
unfolding Answer
svc_wait_synchronization-FirstAt h handles poll r t quiet =
    let none_auto : first_index auto_signaled 0 (h ∷ handles) ≡ none = quiet_none h handles quiet in
    elim (first_index-Answer (handle_signaled t) 0 (h ∷ handles)) [
      | inl (j, e, at) ↦
          inl (j, at, wait_some h handles poll r t none_auto j (e ∙ ap some (zero_add j)))
      | inr (e, no_one) ↦ inr (no_one, wait_none h handles poll r t none_auto e)
    ]
  where
    zero_add : (j : ℕ) → 0 + j ≡ j
    zero_add j = omega arith
