-- ===== src/Core/Muldiv/Division.antt =====
-- The signed division of src/core/core.c is the division of the magnitudes, with the signs and the
-- two special cases of RISC-V.
use native.Mathlib.Nat.{mod-eq_of_lt, div-add-mod', div-le_self, mod-le, mod-lt}
use riscv_em.Base.{
  ℕ, ◌+◌, ◌-◌, ◌*◌, ◌/◌, ◌%◌, ◌^◌, ◌≤◌, ◌<◌, ◌≡◌, ◌≢◌, ◌⊎◌, refl, sym, subst, ap, ap₂, ◌∙◌, not,
  true, false, arith, Bool-cases, ==-cases, inl, inr,
}
use riscv_em.Base.Words.{pow-pos}
use riscv_em.Core.Words.{same_sign, is_negative, magnitude, negate, div_signed, rem_signed}
use riscv_em.Core.Muldiv.{div_result, rem_result}
use riscv_em.Core.Muldiv.Recompose.{
  pow-half, magnitude_cases, rem_cases, negate_cases, remainder_small, recompose_result,
}

twice_le : (q b a r : ℕ) → q * b + r ≡ a → 2 ≤ b → 2 * q ≤ a
twice_le q b a r e h =
    let split : b ≡ 2 + (b - 2) = omega arith in grind (arith, ap (λ n. q * n) split)

-- The quotient is below `half` unless it is that of `half` by 1.
quotient_lt : (half a b : ℕ) → 0 < half → 1 ≤ b → a ≤ half → ¬ ((a ≡ half) × (b ≡ 1)) → a / b < half
quotient_lt half a b p h l fits = elim (==-cases b 1) [
  | inl one ↦ rw one (grind arith)
  | inr more ↦ omega (arith, twice_le (a / b) b a (a % b) (div-add-mod' a b) (grind arith))
]

div_cases :
    (w a b : ℕ)
    → ((same_sign w a b ≡ true) × (div_signed w a b ≡ (magnitude w a / magnitude w b) % 2 ^ w))
      ⊎ ((same_sign w a b ≡ false) × (div_signed w a b ≡ negate w (magnitude w a / magnitude w b)))
unfolding div_signed
div_cases w a b = elim (Bool-cases (same_sign w a b)) [
  | inl n ↦ inl (n, rw n refl)
  | inr n ↦ inr (n, rw n refl)
]

-- A division whose quotient fits, in magnitudes and signs
module _ (w rs rs2 : ℕ) (pos : 1 ≤ w) (h : rs < 2 ^ w) (k : rs2 < 2 ^ w) (ne : rs2 ≢ 0) where
  rem_magnitude : magnitude w (rem_signed w rs rs2) ≡ magnitude w rs % magnitude w rs2
  rem_magnitude =
      let r = magnitude w rs % magnitude w rs2 in
      let divisor_pos : 0 < magnitude w rs2 = grind (arith, magnitude_cases w rs2) in
      ground (
        arith,
        mod-lt (magnitude w rs) divisor_pos,
        mod-le (magnitude w rs) (magnitude w rs2),
        pow-half w pos,
        magnitude_cases w rs,
        magnitude_cases w rs2,
        magnitude_cases w (rem_signed w rs rs2),
        rem_cases w rs rs2,
        negate_cases w r,
      )

  rem_sign : (rem_signed w rs rs2 ≡ 0) ⊎ (is_negative w (rem_signed w rs rs2) ≡ is_negative w rs)
  rem_sign =
      let r = magnitude w rs % magnitude w rs2 in
      let divisor_pos : 0 < magnitude w rs2 = grind (arith, magnitude_cases w rs2) in
      ground (
        arith,
        mod-lt (magnitude w rs) divisor_pos,
        mod-le (magnitude w rs) (magnitude w rs2),
        pow-half w pos,
        magnitude_cases w rs,
        magnitude_cases w rs2,
        rem_cases w rs rs2,
        negate_cases w r,
      )

  -- The quotient of the magnitudes, by the signs
  small_quotient :
      ¬ ((rs ≡ 2 ^ (w - 1)) × (rs2 ≡ 2 ^ w - 1))
      → same_sign w rs rs2 ≡ true
      → magnitude w rs / magnitude w rs2 < 2 ^ (w - 1)
  small_quotient fits same =
      quotient_lt (2 ^ (w - 1)) (magnitude w rs) (magnitude w rs2) (pow-pos (w - 1))
        (grind (arith, magnitude_cases w rs2)) (ground (arith, pow-half w pos))
        (λ (x, y). fits (ground (arith, pow-half w pos), ground (arith, pow-half w pos)))

  quotient_le : magnitude w rs / magnitude w rs2 ≤ 2 ^ (w - 1)
  quotient_le =
      ground (
        arith,
        pow-half w pos,
        div-le_self (magnitude w rs) (magnitude w rs2),
        magnitude_cases w rs,
      )

  div_magnitude :
      ¬ ((rs ≡ 2 ^ (w - 1)) × (rs2 ≡ 2 ^ w - 1))
      → magnitude w (div_signed w rs rs2) ≡ magnitude w rs / magnitude w rs2
  div_magnitude fits =
      let q = magnitude w rs / magnitude w rs2 in
      ground (
        arith,
        pow-half w pos,
        quotient_le,
        small_quotient fits,
        mod-eq_of_lt {n = q} {m = 2 ^ w},
        magnitude_cases w (div_signed w rs rs2),
        div_cases w rs rs2,
        negate_cases w q,
        pow-pos (w - 1),
      )

  div_sign :
      ¬ ((rs ≡ 2 ^ (w - 1)) × (rs2 ≡ 2 ^ w - 1))
      → (div_signed w rs rs2 ≡ 0) ⊎ (is_negative w (div_signed w rs rs2) ≡ not (same_sign w rs rs2))
  div_sign fits =
      let q = magnitude w rs / magnitude w rs2 in
      ground (
        arith,
        pow-half w pos,
        quotient_le,
        small_quotient fits,
        mod-eq_of_lt {n = q} {m = 2 ^ w},
        div_cases w rs rs2,
        negate_cases w q,
        pow-pos (w - 1),
      )

-- What a division by a number that is not zero gives: in magnitudes it is the division of natural
-- numbers; the remainder has the sign of the dividend, and the quotient is negative where the signs
-- differ, but for the one quotient that does not fit.
pub record IsQuotient (w rs rs2 q r : ℕ) : Type 0 where
  pub divisor : rs2 ≢ 0
  pub whole : magnitude w q * magnitude w rs2 + magnitude w r ≡ magnitude w rs
  pub bound : magnitude w r < magnitude w rs2
  pub remainder_sign : (r ≡ 0) ⊎ (is_negative w r ≡ is_negative w rs)
  pub quotient_sign :
      (q ≡ 0)
      ⊎ (is_negative w q ≡ not (same_sign w rs rs2))
      ⊎ ((rs ≡ 2 ^ (w - 1)) × (rs2 ≡ 2 ^ w - 1))

module _ (w rs rs2 : ℕ) (pos : 1 ≤ w) (h : rs < 2 ^ w) (k : rs2 < 2 ^ w) (ne : rs2 ≢ 0) where
  overflow-IsQuotient : rs ≡ 2 ^ (w - 1) → rs2 ≡ 2 ^ w - 1 → IsQuotient w rs rs2 (2 ^ (w - 1)) 0
  overflow-IsQuotient e f = record {
    divisor = ne;
    whole = grind (arith, pow-half w pos, pow-pos (w - 1));
    bound = grind (arith, magnitude_cases w rs2, magnitude_cases w 0, pow-pos (w - 1));
    remainder_sign = inl refl;
    quotient_sign = inr (inr (e, f));
  }

  fitting-IsQuotient :
      ¬ ((rs ≡ 2 ^ (w - 1)) × (rs2 ≡ 2 ^ w - 1))
      → IsQuotient w rs rs2 (div_signed w rs rs2) (rem_signed w rs rs2)
  fitting-IsQuotient fits = record {
    divisor = ne;
    whole =
        ap₂ (λ x y. x * magnitude w rs2 + y) (div_magnitude w rs rs2 pos h k ne fits)
          (rem_magnitude w rs rs2 pos h k ne)
        ∙ div-add-mod' (magnitude w rs) (magnitude w rs2);
    bound = remainder_small w rs rs2 pos h k ne;
    remainder_sign = rem_sign w rs rs2 pos h k ne;
    quotient_sign = elim (div_sign w rs rs2 pos h k ne fits) [
      | inl z ↦ inl z
      | inr s ↦ inr (inl s)
    ];
  }

  results :
      {q r : ℕ}
      → div_result w rs rs2 ≡ q
      → rem_result w rs rs2 ≡ r
      → IsQuotient w rs rs2 q r
      → IsQuotient w rs rs2 (div_result w rs rs2) (rem_result w rs rs2)
  results e f d =
      subst (λ x. IsQuotient w rs rs2 x (rem_result w rs rs2)) (sym e)
        (subst (IsQuotient w rs rs2 _) (sym f) d)

  result-IsQuotient : IsQuotient w rs rs2 (div_result w rs rs2) (rem_result w rs rs2)
  unfolding div_result rem_result
  result-IsQuotient = elim (==-cases rs (2 ^ (w - 1))) [
    | inl e ↦ elim (==-cases rs2 (2 ^ w - 1)) [
      | inl f ↦ results (grind arith) (grind arith) (overflow-IsQuotient e f)
      | inr d ↦ results (grind arith) (grind arith) (fitting-IsQuotient λ (x, y). d y)
    ]
    | inr d ↦ results (grind arith) (grind arith) (fitting-IsQuotient λ (x, y). d x)
  ]

-- For any two words, the signed quotient and remainder recompose the dividend, modulo 2 ^ w. Either
-- the divisor is zero, the quotient is all ones and the remainder is the dividend; or it is not zero
-- and they are the division of the magnitudes: quotient times divisor plus remainder is the dividend
-- in magnitudes, the remainder is below the divisor in magnitude and is zero or has the sign of the
-- dividend, and the quotient is zero or negative exactly where the signs differ, but for the least
-- word divided by -1, whose quotient has the magnitude of the least word.
pub signed_div_rem :
    (w rs rs2 : ℕ)
    → 1 ≤ w
    → rs < 2 ^ w
    → rs2 < 2 ^ w
    → let q = div_result w rs rs2 in
      let r = rem_result w rs rs2 in
      ((q * rs2 + r) % 2 ^ w ≡ rs)
      × (((rs2 ≡ 0) × (q ≡ 2 ^ w - 1) × (r ≡ rs)) ⊎ IsQuotient w rs rs2 q r)
unfolding div_result rem_result
signed_div_rem w rs rs2 pos h k = (
  recompose_result w rs rs2 pos h k,
  elim (==-cases rs2 0) [
    | inl e ↦ inl (e, ground arith, ground arith)
    | inr ne ↦ inr (result-IsQuotient w rs rs2 pos h k (grind (arith, ne)))
  ],
)
