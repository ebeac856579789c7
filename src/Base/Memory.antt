-- ===== src/Base/Memory.antt =====
-- `memcpy` into and out of an array of bytes, and arrays of words seen as bytes.
use riscv_em.Base.Lists.{length, get_or, take, drop}
use riscv_em.Base.Tests.{ltb, leb, if◌then◌else◌}
use Prim.Native.Nat.{ℕ, zero, suc, ◌+◌, ◌-◌, ◌*◌, ◌/◌, ◌%◌, ◌≤◌}
use mathlib.Core.Path.{◌≡◌, refl, ap}
use mathlib.Core.Bool.{◌&&◌}
use mathlib.Core.Option.{Option, none, some}
use mathlib.Core.List.{List, [], ◌∷◌}
use native.Mathlib.Omega.{arith}

-- `memcpy(&mem[off], src, n)` for the `n` bytes of `src`, inside the array.
abbrev pub splice : List ℕ → ℕ → List ℕ → List ℕ
splice [] off src = []
splice (m ∷ ms) zero [] = m ∷ ms
splice (m ∷ ms) zero (s ∷ ss) = s ∷ splice ms zero ss
splice (m ∷ ms) (suc off) src = m ∷ splice ms off src

-- The same, or nothing where it would leave the array.
abbrev pub write_bytes : List ℕ → ℕ → List ℕ → Option (List ℕ)
write_bytes mem off src =
    if leb (off + length src) (length mem) then some (splice mem off src) else none

-- `memcpy(dst, &mem[off], len)`, or nothing where it would leave the array.
abbrev pub read_bytes : List ℕ → ℕ → ℕ → Option (List ℕ)
read_bytes mem off len =
    if leb (off + len) (length mem) then some (take len (drop off mem)) else none

pub length-splice :
    (mem : List ℕ) (off : ℕ) (src : List ℕ) → length (splice mem off src) ≡ length mem
length-splice [] off src = refl
length-splice (m ∷ ms) zero [] = refl
length-splice (m ∷ ms) zero (s ∷ ss) = ap suc (length-splice ms zero ss)
length-splice (m ∷ ms) (suc off) src = ap suc (length-splice ms off src)

pub get_or-splice :
    (mem : List ℕ) (off : ℕ) (src : List ℕ) (k : ℕ)
    → off + length src ≤ length mem
    → get_or (splice mem off src) k 0
      ≡ (if leb off k && ltb k (off + length src) then get_or src (k - off) 0 else get_or mem k 0)
get_or-splice [] off src k h = ground arith
get_or-splice (m ∷ ms) zero [] k h = ground arith
get_or-splice (m ∷ ms) zero (s ∷ ss) zero h = ground arith
get_or-splice (m ∷ ms) zero (s ∷ ss) (suc k) h =
    ground (arith, get_or-splice ms zero ss k (omega arith))
get_or-splice (m ∷ ms) (suc off) src zero h = ground arith
get_or-splice (m ∷ ms) (suc off) src (suc k) h =
    ground (arith, get_or-splice ms off src k (omega arith))

-- What was copied in is copied out.
pub take-drop-splice :
    (mem : List ℕ) (off : ℕ) (src : List ℕ)
    → off + length src ≤ length mem
    → take (length src) (drop off (splice mem off src)) ≡ src
take-drop-splice [] zero [] h = refl
take-drop-splice [] (suc off) src h = absurd (omega arith)
take-drop-splice [] zero (s ∷ ss) h = absurd (omega arith)
take-drop-splice (m ∷ ms) zero [] h = refl
take-drop-splice (m ∷ ms) zero (s ∷ ss) h =
    ap (λ t. s ∷ t) (take-drop-splice ms zero ss (omega arith))
take-drop-splice (m ∷ ms) (suc off) src h = take-drop-splice ms off src (omega arith)

-- A range that the copy does not meet reads as before.
pub take-drop-splice_apart :
    (mem : List ℕ) (off : ℕ) (src : List ℕ) (at len : ℕ)
    → at + len ≤ off
    → take len (drop at (splice mem off src)) ≡ take len (drop at mem)
take-drop-splice_apart mem off src at zero h = refl
take-drop-splice_apart [] off src at (suc len) h = refl
take-drop-splice_apart (m ∷ ms) zero src at (suc len) h = absurd (omega arith)
take-drop-splice_apart (m ∷ ms) (suc off) src zero (suc len) h =
    ap (λ t. m ∷ t) (take-drop-splice_apart ms off src zero len (omega arith))
take-drop-splice_apart (m ∷ ms) (suc off) src (suc at) (suc len) h =
    take-drop-splice_apart ms off src at (suc len) (omega arith)

pub drop-splice_above :
    (mem : List ℕ) (off : ℕ) (src : List ℕ) (at : ℕ)
    → off + length src ≤ at
    → drop at (splice mem off src) ≡ drop at mem
drop-splice_above [] off src at h = refl
drop-splice_above (m ∷ ms) zero [] at h = refl
drop-splice_above (m ∷ ms) zero (s ∷ ss) zero h = absurd (omega arith)
drop-splice_above (m ∷ ms) zero (s ∷ ss) (suc at) h = drop-splice_above ms zero ss at (omega arith)
drop-splice_above (m ∷ ms) (suc off) src zero h = absurd (omega arith)
drop-splice_above (m ∷ ms) (suc off) src (suc at) h = drop-splice_above ms off src at (omega arith)

-- An array of 32-bit words as its bytes, and back.
abbrev pub words_to_bytes : List ℕ → List ℕ
words_to_bytes [] = []
words_to_bytes (w ∷ ws) =
    w % 256 ∷ (w / 256 % 256) ∷ (w / 65536 % 256) ∷ (w / 16777216 % 256) ∷ words_to_bytes ws

abbrev pub bytes_to_words : List ℕ → List ℕ
bytes_to_words (b0 ∷ (b1 ∷ (b2 ∷ (b3 ∷ bs)))) =
    (b0 + 256 * b1 + 65536 * b2 + 16777216 * b3) ∷ bytes_to_words bs
bytes_to_words _ = []
