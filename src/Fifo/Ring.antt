-- ===== src/Fifo/Ring.antt =====
-- The ring of src/helpers/fifo.c read as a list, at positions modulo a power of two.
use native.Mathlib.Nat.{
  mod-add-mod, mod-lt, mod-eq_of_lt, mod-eq-sub-mod, add-mul-mod_self_left, pow-suc,
}
use riscv_em.Base.{
  ℕ, zero, suc, ◌+◌, ◌-◌, ◌*◌, ◌/◌, ◌%◌, ◌^◌, ◌≤◌, ◌<◌, ◌≡◌, ◌≢◌, refl, sym, ap, ap₂, ◌∙◌, List, [],
  ◌∷◌, ◌++◌, get_or, set, length, get_or-set_ne, arith,
}
use riscv_em.Base.Words.{wrap}

add-zero : (x : ℕ) → x + 0 ≡ x
add-zero x = omega arith

step : (x j : ℕ) → x + suc j ≡ x + 1 + j
step x j = omega arith

-- Two positions less than a lap apart differ.
pub positions_apart : (m x d : ℕ) → 0 < d → d < m → x % m ≢ (x + d) % m
positions_apart m x d h l = grind (
  arith,
  mod-add-mod x m d,
  mod-lt x {m = m} (omega (arith, l)),
  small_mod (x % m + d) m,
  over m (x % m + d),
  small_mod (x % m + d - m) m,
)
  where
    small_mod : (y m : ℕ) → y < m → y % m ≡ y
    small_mod y m k = mod-eq_of_lt k

    over : (m y : ℕ) → m ≤ y → y % m ≡ (y - m) % m
    over m y k = mod-eq-sub-mod k

-- The `n` elements from position `at` on.
abbrev pub elements : ℕ → List ℕ → ℕ → ℕ → List ℕ
elements k bytes at zero = []
elements k bytes at (suc n) = get_or bytes (at % 2 ^ k) 0 ∷ elements k bytes (at + 1) n

pub elements-set :
    (k : ℕ) (bytes : List ℕ) (at n i v : ℕ)
    → ((j : ℕ) → j < n → (at + j) % 2 ^ k ≢ i)
    → elements k (set bytes i v) at n ≡ elements k bytes at n
elements-set k bytes at zero i v h = refl
elements-set k bytes at (suc n) i v h =
    ap₂ (λ x xs. x ∷ xs)
      (get_or-set_ne bytes i (at % 2 ^ k) v 0 (λ e. h 0 (omega arith) (rw add-zero (sym e))))
      (elements-set k bytes (at + 1) n i v
        (λ j l e. h (suc j) (omega arith) (ap (λ x. x % 2 ^ k) (step at j) ∙ e)))

pub elements-append :
    (k : ℕ) (bytes : List ℕ) (at n : ℕ)
    → elements k bytes at (suc n)
      ≡ elements k bytes at n ++ (get_or bytes ((at + n) % 2 ^ k) 0 ∷ [])
elements-append k bytes at zero = ap (λ x. get_or bytes (x % 2 ^ k) 0 ∷ []) (sym (add-zero at))
elements-append k bytes at (suc n) =
    ap (λ xs. get_or bytes (at % 2 ^ k) 0 ∷ xs)
      (elements-append k bytes (at + 1) n
        ∙ ap (λ x. elements k bytes (at + 1) n ++ (get_or bytes (x % 2 ^ k) 0 ∷ []))
            (sym (step at n)))

pub length-elements : (k : ℕ) (bytes : List ℕ) (at n : ℕ) → length (elements k bytes at n) ≡ n
length-elements k bytes at zero = refl
length-elements k bytes at (suc n) = ap suc (length-elements k bytes (at + 1) n)

-- Only the position modulo the lap counts.
pub elements-lap :
    (k : ℕ) (bytes : List ℕ) (at at' n : ℕ)
    → at % 2 ^ k ≡ at' % 2 ^ k
    → elements k bytes at n ≡ elements k bytes at' n
elements-lap k bytes at at' zero e = refl
elements-lap k bytes at at' (suc n) e =
    ap₂ (λ x xs. x ∷ xs) (ap (λ x. get_or bytes x 0) e)
      (elements-lap k bytes (at + 1) (at' + 1) n
        (sym (mod-add-mod at (2 ^ k) 1) ∙ ap (λ x. (x + 1) % 2 ^ k) e ∙ mod-add-mod at' (2 ^ k) 1))

pow_sum : (m n : ℕ) → 2 ^ (m + n) ≡ 2 ^ m * 2 ^ n
pow_sum m zero = ap (λ x. 2 ^ x) (add-zero m) ∙ omega arith
pow_sum m (suc n) =
    ap (λ x. 2 ^ x) (step_out m n)
    ∙ ground (arith, pow-suc 2 (m + n), ap (λ t. 2 ^ m * t) (pow-suc 2 n), pow_sum m n)
  where
    step_out : (m n : ℕ) → m + suc n ≡ suc (m + n)
    step_out m n = omega arith

-- The counters of 32 bits keep the position.
pub wrap-lap : (k x : ℕ) → k ≤ 32 → wrap 32 x % 2 ^ k ≡ x % 2 ^ k
wrap-lap k x h =
    sym (add-mul-mod_self_left (wrap 32 x) (2 ^ k) (2 ^ (32 - k) * (x / 2 ^ 32)))
    ∙ ap (λ n. n % 2 ^ k) whole
  where
    laps : 2 ^ k * 2 ^ (32 - k) ≡ 2 ^ 32
    laps =
        let total : k + (32 - k) ≡ 32 = omega (arith, h) in
        sym (pow_sum k (32 - k)) ∙ ap (λ n. 2 ^ n) total

    whole : wrap 32 x + 2 ^ k * (2 ^ (32 - k) * (x / 2 ^ 32)) ≡ x
    whole = grind (arith, ap (λ n. n * (x / 2 ^ 32)) laps)
