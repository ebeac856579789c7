-- ===== src/Pmp/Napot.antt =====
-- The regions that the address registers encode (src/core/pmp/pmp.c), without machine words.
use native.Mathlib.Numerals.{towards_suc}
use native.Mathlib.Nat.{pow-suc}
use riscv_em.Base.{
  ℕ, zero, suc, ◌+◌, ◌-◌, ◌*◌, ◌/◌, ◌%◌, ◌^◌, ◌≤◌, ◌<◌, ◌≡◌, ap, some, get_or, arith,
}
use riscv_em.Base.Words.{complement, pow-pos}
use riscv_em.Types.{Arch, rv32, rv64, xlen, xlen_bounds}
use riscv_em.Pmp.Csr.{Pmp}
use riscv_em.Pmp.Check.{find_first_bit_set, region, get_pmp_napot_addr_from_pmpaddr}

-- `k` ones below a zero.
abbrev pub ones : ℕ → ℕ → ℕ
ones hi k = hi * 2 ^ suc k + (2 ^ k - 1)

-- The first clear bit of `k` ones below a zero is bit `k`.
find_first_clear :
    (w hi k : ℕ) → k < w → ones hi k < 2 ^ w → find_first_bit_set w (2 ^ w - 1 - ones hi k) ≡ k + 1
unfolding find_first_bit_set
find_first_clear zero hi k h f = absurd (omega arith)
find_first_clear (suc w) hi zero h f = ground (arith, pow-suc 2 w)
find_first_clear (suc w) hi (suc k) h f = ground (
  arith,
  half_complement,
  odd,
  find_first_clear w hi k (omega arith) (omega (arith, half_ones, pow-suc 2 w)),
)
  where
    half_ones : ones hi (suc k) ≡ 2 * ones hi k + 1
    half_ones = omega (
      arith,
      pow-suc 2 k,
      pow-pos k,
      ap (λ (t : ℕ). hi * t) (pow-suc 2 (suc k)),
      ap (λ (t : ℕ). hi * t) (pow-suc 2 k),
    )

    half_complement : (2 ^ suc w - 1 - ones hi (suc k)) / 2 ≡ 2 ^ w - 1 - ones hi k
    half_complement = omega (arith, half_ones, pow-suc 2 w)

    odd : (2 ^ suc w - 1 - ones hi (suc k)) % 2 ≡ 0
    odd = omega (arith, half_ones, pow-suc 2 w)

-- The bytes from `lo` up to `hi`, that not included, are the region of entry `count`, by the
-- matching mode of its configuration byte.
pub data Covers (a : Arch) (pmp : Pmp) : (mode count lo hi : ℕ) → Type 0 where
  tor_first :
      {lo hi : ℕ} → lo ≡ 0 → hi ≡ get_or pmp.addr 0 0 * 4 → hi < 2 ^ xlen a → Covers a pmp 1 0 lo hi
  tor :
      {count lo hi : ℕ}
      → lo ≡ get_or pmp.addr count 0 * 4
      → hi ≡ get_or pmp.addr (suc count) 0 * 4
      → lo ≤ hi
      → hi < 2 ^ xlen a
      → Covers a pmp 1 (suc count) lo hi
  na4 :
      {count lo hi : ℕ}
      → lo ≡ get_or pmp.addr count 0 * 4
      → hi ≡ lo + 4
      → hi < 2 ^ xlen a
      → Covers a pmp 2 count lo hi
  napot :
      {count lo hi : ℕ} (base k : ℕ)
      → get_or pmp.addr count 0 ≡ ones base k
      → k + 3 < 31
      → lo ≡ base * 2 ^ (k + 3)
      → hi ≡ lo + 2 ^ (k + 3)
      → hi < 2 ^ xlen a
      → Covers a pmp 3 count lo hi

pow_three : (k : ℕ) → 2 ^ (k + 3) ≡ 8 * 2 ^ k
pow_three k =
    simp towards_suc (omega (arith, pow-suc 2 k, pow-suc 2 (suc k), pow-suc 2 (suc (suc k))))

-- The quantities of a power-of-two region, as multiples of `2 ^ k` and of `base * 2 ^ k`.
times_two : (base k : ℕ) → base * 2 ^ suc k ≡ 2 * (base * 2 ^ k)
times_two base k = omega (arith, ap (λ (t : ℕ). base * t) (pow-suc 2 k))

times_eight : (base k : ℕ) → base * 2 ^ (k + 3) ≡ 8 * (base * 2 ^ k)
times_eight base k = omega (arith, ap (λ (t : ℕ). base * t) (pow_three k))

module _ (base k here hi : ℕ) (e : here ≡ ones base k)
    (q : hi ≡ base * 2 ^ (k + 3) + 2 ^ (k + 3)) where
  napot_start :
      (a : Arch)
      → hi < 2 ^ xlen a
      → get_pmp_napot_addr_from_pmpaddr a here (2 ^ (k + 3)) ≡ base * 2 ^ (k + 3)
  napot_start rv32 h =
      omega (arith, e, q, pow-pos k, pow_three k, times_two base k, times_eight base k)
  napot_start rv64 h =
      omega (arith, e, q, pow-pos k, pow_three k, times_two base k, times_eight base k)

  napot_small : (w : ℕ) → hi < 2 ^ w → suc here < 2 ^ w
  napot_small w h =
      omega (arith, e, q, pow-pos k, pow_three k, times_two base k, times_eight base k)

  napot_shift : (w : ℕ) → hi < 2 ^ w → k < w → find_first_bit_set w (complement w here) + 2 ≡ k + 3
  napot_shift w h l =
      rw e (omega (arith, find_first_clear w base k l (omega (arith, e, napot_small w h))))

-- The code computes the region that the mode encodes.
pub region_of_Covers :
    (a : Arch) (pmp : Pmp) {mode count lo hi : ℕ}
    → Covers a pmp mode count lo hi
    → region a pmp mode count ≡ some (lo, hi - lo)
unfolding region
region_of_Covers rv32 pmp (tor_first p q h) = ground arith
region_of_Covers rv64 pmp (tor_first p q h) = ground arith
region_of_Covers rv32 pmp (tor p q l h) = ground arith
region_of_Covers rv64 pmp (tor p q l h) = ground arith
region_of_Covers rv32 pmp (na4 p q h) = ground arith
region_of_Covers rv64 pmp (na4 p q h) = ground arith
region_of_Covers a pmp {count = count} {hi = hi} (napot base k e l p q h) =
    let here = get_or pmp.addr count 0 in
    let top : hi ≡ base * 2 ^ (k + 3) + 2 ^ (k + 3) = omega (arith, p, q) in
    rw (napot_shift base k here hi e top (xlen a) h (omega (arith, xlen_bounds a))) (
      ground (
        arith,
        napot_start base k here hi e top a h,
        napot_small base k here hi e top (xlen a) h,
        p,
        q,
      ))
