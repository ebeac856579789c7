-- ===== src/Core/Muldiv/Recompose.antt =====
-- The quotients and remainders of src/core/core.c recompose the dividend.
use native.Mathlib.Nat.{
  add-mul-mod_self_left, mod-eq_of_lt, div-add-mod', div-le_self, mod-le, mod-lt, pow-suc,
}
use riscv_em.Base.{
  ℕ, zero, suc, ◌+◌, ◌-◌, ◌*◌, ◌/◌, ◌%◌, ◌^◌, ◌≤◌, ◌<◌, ◌≡◌, ◌≢◌, ◌⊎◌, refl, sym, ap, ap₂, ◌∙◌, ltb,
  ◌==◌, not, true, false, arith, Bool-cases, ==-cases, inl, inr,
}
use riscv_em.Base.Words.{bit_of, pow-pos}
use riscv_em.Core.Words.{is_negative, magnitude, negate, div_signed, rem_signed}
use riscv_em.Core.Muldiv.{div_result, rem_result, divu_result, remu_result}

-- The unsigned quotient and remainder recompose the dividend, division by zero included; the
-- remainder is below the divisor exactly when the divisor is not zero.
unsigned_div_rem :
    (w rs rs2 : ℕ)
    → rs < 2 ^ w
    → (divu_result w rs rs2 * rs2 + remu_result rs rs2 ≡ rs)
      × (ltb (remu_result rs rs2) rs2 ≡ not (rs2 == 0))
unfolding divu_result remu_result
unsigned_div_rem w rs rs2 h = grind arith

pub pow-half : (w : ℕ) → 1 ≤ w → 2 ^ w ≡ 2 * 2 ^ (w - 1)
pow-half zero h = absurd (omega arith)
pow-half (suc w) h = ground (arith, pow-suc 2 w)

pub magnitude_cases :
    (w v : ℕ)
    → ((2 ^ (w - 1) ≤ v) × (magnitude w v ≡ 2 ^ w - v)) ⊎ ((v < 2 ^ (w - 1)) × (magnitude w v ≡ v))
magnitude_cases w v = ground arith

pub rem_cases :
    (w a b : ℕ)
    → ((2 ^ (w - 1) ≤ a) × (rem_signed w a b ≡ negate w (magnitude w a % magnitude w b)))
      ⊎ ((a < 2 ^ (w - 1)) × (rem_signed w a b ≡ magnitude w a % magnitude w b))
unfolding rem_signed
rem_cases w a b = elim (Bool-cases (is_negative w a)) [
  | inl n ↦ inl (ground arith, ground arith)
  | inr n ↦ inr (ground arith, ground arith)
]

pub negate_cases :
    (w r : ℕ) → ((r ≡ 0) × (negate w r ≡ 0)) ⊎ ((1 ≤ r) × (r ≤ 2 ^ w → negate w r ≡ 2 ^ w - r))
negate_cases w r = elim (==-cases r 0) [
  | inl e ↦ inl (e, ground (arith, e, add-mul-mod_self_left 0 (2 ^ w) 1, pow-pos w))
  | inr ne ↦ inr (grind arith, λ l. mod-eq_of_lt (grind (arith, pow-pos w)) ∙ omega arith)
]

congruent : (m k l x y : ℕ) → x + m * k ≡ y + m * l → x % m ≡ y % m
congruent m k l x y e =
    sym (add-mul-mod_self_left x m k) ∙ ap (λ n. n % m) e ∙ add-mul-mod_self_left y m l

negate-sum : (w q : ℕ) → q ≤ 2 ^ w → negate w q + q ≡ 2 ^ w * bit_of (not (q == 0))
negate-sum w q h = grind (arith, pow-pos w)

expand : (q q' b b' : ℕ) → q' * b' + ((b' + b) * q + (q' + q) * b) ≡ q * b + (q' + q) * (b' + b)
expand q q' b b' = ground arith

-- A positive dividend and a negative divisor.
signs_pn : (m q q' b b' r s : ℕ) → q' + q ≡ m * s → b' + b ≡ m → (q' * b' + r) % m ≡ (q * b + r) % m
signs_pn m q q' b b' r s e f =
    congruent m (s * b + q) (s * m) (q' * b' + r) (q * b + r) (
      ground
        (arith, expand q q' b b', ap (λ n. n * b) e, ap (λ n. n * q) f, ap₂ (λ x y. x * y) e f))

-- A negative dividend and a positive divisor.
signs_np :
    (m q q' b r r' s t x : ℕ)
    → q' + q ≡ m * s
    → r' + r ≡ m * t
    → x + (q * b + r) ≡ m
    → (q' * b + r') % m ≡ x % m
signs_np m q q' b r r' s t x e f g =
    congruent m 1 (s * b + t) (q' * b + r') x (ground (arith, ap (λ n. n * b) e))

-- Both negative.
signs_nn :
    (m q b b' r r' t x : ℕ)
    → b' + b ≡ m
    → r' + r ≡ m * t
    → x + (q * b + r) ≡ m
    → (q * b' + r') % m ≡ x % m
signs_nn m q b b' r r' t x e f g =
    congruent m 1 (q + t) (q * b' + r') x (ground (arith, ap (λ n. n * q) e))

module _ (w rs rs2 : ℕ) (pos : 1 ≤ w) (h : rs < 2 ^ w) (k : rs2 < 2 ^ w) (ne : rs2 ≢ 0) where
  both_negative :
      is_negative w rs ≡ true
      → is_negative w rs2 ≡ true
      → (div_signed w rs rs2 * rs2 + rem_signed w rs rs2) % 2 ^ w ≡ rs
  unfolding div_signed rem_signed
  both_negative n1 n2 =
      let a = 2 ^ w - rs in
      let b = 2 ^ w - rs2 in
      let small = div-le_self a b in
      let rest = mod-le a b in
      let whole = div-add-mod' a b in
      let half_pos = pow-pos (w - 1) in
      let in_range : a / b < 2 ^ w = ground (arith, n1, small, half_pos) in
      let e =
        signs_nn (2 ^ w) (a / b) b rs2 (a % b) (negate w (a % b)) (bit_of (not (a % b == 0))) rs
          (omega arith) (negate-sum w (a % b) (omega (arith, rest))) (omega (arith, whole)) in
      ground (arith, n1, n2, e, mod-eq_of_lt h, mod-eq_of_lt in_range)

  first_negative :
      is_negative w rs ≡ true
      → is_negative w rs2 ≡ false
      → (div_signed w rs rs2 * rs2 + rem_signed w rs rs2) % 2 ^ w ≡ rs
  unfolding div_signed rem_signed
  first_negative n1 n2 =
      let a = 2 ^ w - rs in
      let b = rs2 in
      let small = div-le_self a b in
      let rest = mod-le a b in
      let whole = div-add-mod' a b in
      let half_pos = pow-pos (w - 1) in
      let in_range : a / b < 2 ^ w = ground (arith, n1, small, half_pos) in
      let e =
        signs_np (2 ^ w) (a / b) (negate w (a / b)) b (a % b) (negate w (a % b))
          (bit_of (not (a / b == 0))) (bit_of (not (a % b == 0))) rs
          (negate-sum w (a / b) (omega (arith, in_range)))
          (negate-sum w (a % b) (omega (arith, rest))) (omega (arith, whole)) in
      ground (arith, n1, n2, e, mod-eq_of_lt h, mod-eq_of_lt in_range)

  second_negative :
      is_negative w rs ≡ false
      → is_negative w rs2 ≡ true
      → (div_signed w rs rs2 * rs2 + rem_signed w rs rs2) % 2 ^ w ≡ rs
  unfolding div_signed rem_signed
  second_negative n1 n2 =
      let a = rs in
      let b = 2 ^ w - rs2 in
      let small = div-le_self a b in
      let rest = mod-le a b in
      let whole = div-add-mod' a b in
      let half_pos = pow-pos (w - 1) in
      let in_range : a / b < 2 ^ w = ground (arith, n1, small, half_pos) in
      let e =
        signs_pn (2 ^ w) (a / b) (negate w (a / b)) b rs2 (a % b) (bit_of (not (a / b == 0)))
          (negate-sum w (a / b) (omega (arith, in_range))) (omega arith) in
      ground (arith, n1, n2, e, mod-eq_of_lt h, mod-eq_of_lt in_range)

  none_negative :
      is_negative w rs ≡ false
      → is_negative w rs2 ≡ false
      → (div_signed w rs rs2 * rs2 + rem_signed w rs rs2) % 2 ^ w ≡ rs
  unfolding div_signed rem_signed
  none_negative n1 n2 =
      let a = rs in
      let b = rs2 in
      let small = div-le_self a b in
      let rest = mod-le a b in
      let whole = div-add-mod' a b in
      let half_pos = pow-pos (w - 1) in
      let in_range : a / b < 2 ^ w = ground (arith, n1, small, half_pos) in
      let e = whole in ground (arith, n1, n2, e, mod-eq_of_lt h, mod-eq_of_lt in_range)

  recompose : (div_signed w rs rs2 * rs2 + rem_signed w rs rs2) % 2 ^ w ≡ rs
  recompose = elim (Bool-cases (is_negative w rs)) [
    | inl n1 ↦ elim (Bool-cases (is_negative w rs2)) [
      | inl n2 ↦ both_negative n1 n2
      | inr n2 ↦ first_negative n1 n2
    ]
    | inr n1 ↦ elim (Bool-cases (is_negative w rs2)) [
      | inl n2 ↦ second_negative n1 n2
      | inr n2 ↦ none_negative n1 n2
    ]
  ]

  pub remainder_small : magnitude w (rem_signed w rs rs2) < magnitude w rs2
  unfolding rem_signed
  remainder_small =
      let r = magnitude w rs % magnitude w rs2 in
      let divisor_pos : 0 < magnitude w rs2 = grind (arith, magnitude_cases w rs2) in
      let bound = mod-lt (magnitude w rs) divisor_pos in
      ground (
        arith,
        bound,
        mod-le (magnitude w rs) (magnitude w rs2),
        pow-half w pos,
        magnitude_cases w rs,
        magnitude_cases w (rem_signed w rs rs2),
        rem_cases w rs rs2,
        negate_cases w r,
      )

overflow : (m : ℕ) → 0 < m → m * (2 * m - 1) % (2 * m) ≡ m % (2 * m)
overflow m h = congruent (2 * m) 1 m (m * (2 * m - 1)) m (overflow_sum m h)
  where
    overflow_sum : (n : ℕ) → 0 < n → n * (2 * n - 1) + 2 * n * 1 ≡ n + 2 * n * n
    overflow_sum n k =
        let e : 2 * n - 1 + 1 ≡ 2 * n = omega arith in ground (arith, ap (λ t. n * t) e)

pub recompose_result :
    (w rs rs2 : ℕ)
    → 1 ≤ w
    → rs < 2 ^ w
    → rs2 < 2 ^ w
    → (div_result w rs rs2 * rs2 + rem_result w rs rs2) % 2 ^ w ≡ rs
unfolding div_result rem_result
recompose_result w rs rs2 pos h k = ground (
  arith,
  recompose w rs rs2 pos h k,
  overflow (2 ^ (w - 1)) (pow-pos (w - 1)),
  pow-half w pos,
  congruent (2 ^ w) 0 0 rs rs refl,
  mod-eq_of_lt h,
  pow-pos (w - 1),
)
