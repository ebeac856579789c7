-- ===== src/Base/Words.antt =====
-- The machine word of the two builds, and the operations of C on words of a given width.
use Prim.Native.Nat.{ℕ, suc, ◌+◌, ◌-◌, ◌%◌, ◌^◌, ◌≤◌, ◌<◌}
use mathlib.Core.Path.{◌≡◌}
use mathlib.Core.Bool.{Bool, false}
use native.Mathlib.Omega.{arith}
use native.Mathlib.Nat.{one-le-pow, mod-lt, mod-eq_of_lt, pow-suc, pow-le-pow_right}
use riscv_em.Base.Tests.{if◌then◌else◌}
use riscv_em.Base.Bits.{test_bit, test_bit-mod, test_bit_ext}

-- The conversion to an unsigned type of `w` bits.
abbrev pub wrap : ℕ → ℕ → ℕ
wrap w x = x % 2 ^ w

-- `a - b` in an unsigned type of `w` bits.
abbrev pub sub_word : ℕ → ℕ → ℕ → ℕ
sub_word w a b = (a + 2 ^ w - b) % 2 ^ w

-- `~x` in an unsigned type of `w` bits.
abbrev pub complement : ℕ → ℕ → ℕ
complement w x = 2 ^ w - 1 - x

abbrev pub bit_of : Bool → ℕ
bit_of b = if b then 1 else 0

pub pow-pos : (k : ℕ) → 0 < 2 ^ k
pow-pos k = one-le-pow k 2 (omega arith)

pub wrap-lt : (w x : ℕ) → wrap w x < 2 ^ w
wrap-lt w x = mod-lt x (pow-pos w)

pub pow-lt_of_lt : (k w : ℕ) → k < w → 2 ^ k < 2 ^ w
pow-lt_of_lt k w h =
    omega
      (arith, pow-suc 2 k, pow-pos k, pow-le-pow_right {n = 2} (omega arith) {i = suc k} {j = w} h)

pub test_bit-wrap_low : (w x i : ℕ) → i < w → test_bit (wrap w x) i ≡ test_bit x i
test_bit-wrap_low w x i h = ground (arith, test_bit-mod x w i)

pub wrap_of_lt : (w x : ℕ) → x < 2 ^ w → wrap w x ≡ x
wrap_of_lt w x h = mod-eq_of_lt h

-- A number with no digit from `w` on fits `w` bits.
pub lt_of_test_bit : (w x : ℕ) → ((i : ℕ) → w ≤ i → test_bit x i ≡ false) → x < 2 ^ w
lt_of_test_bit w x h =
    let low : x ≡ wrap w x =
      test_bit_ext x (wrap w x) (λ i. ground (arith, h i, test_bit-mod x w i)) in
    omega (arith, low, wrap-lt w x)
