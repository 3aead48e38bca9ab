-- ===== src/Shader/Extract/Cut.antt =====
-- Where the scan of `ExtractShader` (MaxwellDecoder.cpp) ends.
use m1switch.Base.{
  leb-false, ℕ, zero, suc, ◌+◌, ◌-◌, ◌*◌, ◌/◌, ◌%◌, ◌≤◌, ◌<◌, min, true, false, ◌==◌, leb,
  Bool-cases, ◌≡◌, refl, sym, ap, subst, ◌∙◌, ◌⊎◌, inl, inr, List, Option, some, arith, take, drop,
  length, length-take, length-drop, ℕ_discrete, leb→le,
}
use m1switch.Base.Bits.{u32_mod}
use m1switch.Shader.Extract.{exit_word, end_from, available_at, copy_to, extract_shader}

-- The code from `i` on ends at `e`: no EXIT word stands at a multiple of 8 before the last word,
-- and either that word is an EXIT, or all that is available was taken and holds none.
pub record Cut (code : List ℕ) (available i e : ℕ) : Type 0 where
  pub bounded : e ≤ available
  pub no_exit_before : (j : ℕ) → i ≤ j → j % 8 ≡ 0 → j + 8 < e → exit_word code j ≡ false
  pub ends :
      ((m : ℕ) × (e ≡ m + 8) × (m % 8 ≡ 0) × (exit_word code m ≡ true))
      ⊎ ((e ≡ available)
          × ((j : ℕ) → i ≤ j → j % 8 ≡ 0 → j + 8 ≤ available → exit_word code j ≡ false))

module _ (code : List ℕ) (available : ℕ) (fits : available + 8 < u32_mod) where
  Ends : ℕ → Option ℕ → Type 0
  Ends i r = (e : ℕ) × (r ≡ some e) × Cut code available i e

  end_from-out :
      (fuel i : ℕ)
      → leb ((i + 8) % u32_mod) available ≡ false
      → end_from (suc fuel) code available i ≡ some available
  unfolding end_from
  end_from-out fuel i h = rw (h, end_from) refl

  end_from-exit :
      (fuel i : ℕ)
      → leb ((i + 8) % u32_mod) available ≡ true
      → exit_word code i ≡ true
      → end_from (suc fuel) code available i ≡ some (i + 8)
  unfolding end_from
  end_from-exit fuel i h x = rw (h, x, end_from) refl

  end_from-on :
      (fuel i : ℕ)
      → leb ((i + 8) % u32_mod) available ≡ true
      → exit_word code i ≡ false
      → end_from (suc fuel) code available i ≡ end_from fuel code available ((i + 8) % u32_mod)
  unfolding end_from
  end_from-on fuel i h x = rw (h, x, end_from) refl

  out-Cut : (i : ℕ) → i ≤ available → available < i + 8 → Cut code available i available
  out-Cut i h out = record {
    bounded = omega arith;
    no_exit_before = λ j a b c. absurd (omega arith);
    ends = inr (refl, λ j a b c. absurd (omega arith));
  }

  exit-Cut :
      (i : ℕ)
      → i % 8 ≡ 0
      → i + 8 ≤ available
      → exit_word code i ≡ true
      → Cut code available i (i + 8)
  exit-Cut i h k x = record {
    bounded = k;
    no_exit_before = λ j a b c. absurd (omega arith);
    ends = inl (i, refl, h, x);
  }

  -- A word without an EXIT goes in front of what is cut after it.
  passed :
      (i limit : ℕ)
      → i % 8 ≡ 0
      → exit_word code i ≡ false
      → ((j : ℕ) → i + 8 ≤ j → j % 8 ≡ 0 → j + 8 < limit → exit_word code j ≡ false)
      → (j : ℕ) → i ≤ j
      → j % 8 ≡ 0
      → j + 8 < limit
      → exit_word code j ≡ false
  passed i limit h x later j a b c = elim (ℕ_discrete j i) [
    | yes e ↦ subst (λ (n : ℕ). exit_word code n ≡ false) (sym e) x
    | no ne ↦ later j (omega arith) b c
  ]

  on-Cut :
      (i e : ℕ)
      → i % 8 ≡ 0
      → exit_word code i ≡ false
      → Cut code available (i + 8) e
      → Cut code available i e
  on-Cut i e h x c = record {
    bounded = c.bounded;
    no_exit_before = passed i e h x c.no_exit_before;
    ends = elim c.ends [
      | inl found ↦ inl found
      | inr (all, none_found) ↦ inr (
        all,
        λ j a b k.
            passed i (suc available) h x (λ n p q r. none_found n p q (omega arith)) j a b
              (omega arith),
      )
    ];
  }

  step-Ends :
      (fuel i : ℕ)
      → ((i + 8) % 8 ≡ 0
          → i + 8 ≤ available
          → available < i + 8 + 8 * fuel
          → Ends (i + 8) (end_from fuel code available (i + 8)))
      → i % 8 ≡ 0
      → i ≤ available
      → available < i + 8 * suc fuel
      → Ends i (end_from (suc fuel) code available i)
  unfolding Ends
  step-Ends fuel i later h1 h2 h3 = elim (Bool-cases (leb ((i + 8) % u32_mod) available)) [
    | inr out ↦ (
      available,
      end_from-out fuel i out,
      out-Cut i h2 (omega (arith, leb-false ((i + 8) % u32_mod) available out)),
    )
    | inl fine ↦
        let room : i + 8 ≤ available = omega (arith, leb→le ((i + 8) % u32_mod) available fine) in
        elim (Bool-cases (exit_word code i)) [
          | inl x ↦ (i + 8, end_from-exit fuel i fine x, exit-Cut i h1 room x)
          | inr x ↦
              let r : Ends (i + 8) (end_from fuel code available (i + 8)) =
                later (omega (arith, h1)) room (omega (arith, h3)) in
              (
                r.0,
                end_from-on fuel i fine x
                    ∙ ap (end_from fuel code available) (show_mod i room)
                    ∙ r.1,
                on-Cut i r.0 h1 x r.2,
              )
        ]
  ]
    where
      show_mod : (i : ℕ) → i + 8 ≤ available → (i + 8) % u32_mod ≡ i + 8
      show_mod i h = omega (arith, fits)

  end_from-Ends :
      (fuel i : ℕ)
      → i % 8 ≡ 0
      → i ≤ available
      → available < i + 8 * fuel
      → Ends i (end_from fuel code available i)
  end_from-Ends zero i h1 h2 h3 = absurd (omega arith)
  end_from-Ends (suc fuel) i h1 h2 h3 = step-Ends fuel i (end_from-Ends fuel (i + 8)) h1 h2 h3

nonzero-test : (n k : ℕ) → k < n → (n == 0) ≡ false
nonzero-test n k h = ground arith

inside-test : (n k : ℕ) → k < n → leb n k ≡ false
inside-test n k h = ground arith

extract_shader-scan :
    (region : List ℕ) (region_size shader_offset max_size : ℕ)
    → shader_offset < region_size
    → (available : ℕ) → available_at region_size shader_offset max_size ≡ available
    → extract_shader (some region) region_size shader_offset max_size
      ≡ copy_to
          (drop shader_offset region)
          (end_from (suc (available / 8)) (drop shader_offset region) available 0)
unfolding extract_shader
extract_shader-scan region region_size shader_offset max_size inside available e =
    rw (nonzero-test region_size shader_offset inside, inside-test region_size shader_offset inside)
      (ap
        (λ (n : ℕ).
          copy_to (drop shader_offset region)
            (end_from (suc (n / 8)) (drop shader_offset region) n 0))
        e)

-- For an offset inside a region of the size given, `ExtractShader` returns the code from that
-- offset up to its first EXIT word, or all of it that the region and `max_size` allow when no word
-- is an EXIT; it never returns more than these two allow. `max_size` leaves more than 8 below 2^32.
pub extract_shader-Cut :
    (region : List ℕ) (region_size shader_offset max_size : ℕ)
    → region_size ≤ length region
    → shader_offset < region_size
    → max_size + 8 < u32_mod
    → (e : ℕ) × (extract_shader (some region) region_size shader_offset max_size
        ≡ some (take e (drop shader_offset region)))
      × (length (take e (drop shader_offset region)) ≡ e)
      × Cut (drop shader_offset region) (min (region_size - shader_offset) max_size) 0 e
unfolding copy_to Ends
extract_shader-Cut region region_size shader_offset max_size long inside fits =
    let code : List ℕ = drop shader_offset region in
    let available : ℕ = min (region_size - shader_offset) max_size in
    let r : Ends code available (omega arith) 0 (end_from (suc (available / 8)) code available 0) =
      end_from-Ends code available (omega arith) (suc (available / 8)) 0 refl (omega arith)
        (omega arith) in
    (
      r.0,
      extract_shader-scan region region_size shader_offset max_size inside available (omega arith)
          ∙ ap (copy_to code) r.1,
      omega (arith, length-take r.0 code, length-drop shader_offset region, r.2.bounded),
      r.2,
    )
