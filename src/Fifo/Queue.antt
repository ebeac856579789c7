-- ===== src/Fifo/Queue.antt =====
-- The operations of src/helpers/fifo.c on one byte are those of a bounded queue.
use native.Mathlib.Nat.{pow-le-pow_right, mod-lt}
use riscv_em.Base.{
  ℕ, suc, ◌+◌, ◌-◌, ◌%◌, ◌^◌, ◌≤◌, ◌<◌, ◌≡◌, ◌≢◌, refl, sym, ap, ap₂, ◌∙◌, bit_and, Bool, true,
  false, not, ltb, ◌==◌, if◌then◌else◌, List, [], ◌∷◌, ◌++◌, get_or, set, length, length-set,
  get_or-set_self, arith,
}
use riscv_em.Base.Words.{wrap, sub_word, pow-pos, wrap-lt}
use riscv_em.Fifo.{Fifo, fifo_len, fifo_is_full, fifo_is_empty, fifo_put, fifo_get}
use riscv_em.Helper.Laws.{mask-eq-mod}
use riscv_em.Fifo.Ring.{
  elements, elements-set, elements-append, length-elements, elements-lap, wrap-lap, positions_apart,
}

-- The number of elements between the counters.
abbrev pub used : Fifo → ℕ
used f = sub_word 32 f.inn f.out

-- A ring of 2 ^ k bytes.
pub record IsFifo (k : ℕ) (f : Fifo) : Type 0 where
  pub width : k ≤ 31
  pub mask_is : f.mask ≡ 2 ^ k - 1
  pub room : length f.data_arr ≡ 2 ^ k
  pub inn_fits : f.inn < 2 ^ 32
  pub out_fits : f.out < 2 ^ 32
  pub used_fits : used f ≤ 2 ^ k

-- The queue, the oldest byte first.
abbrev pub contents : ℕ → Fifo → List ℕ
contents k f = elements k f.data_arr f.out (used f)

pub pow-le : (k : ℕ) → k ≤ 31 → 2 ^ k ≤ 2 ^ 31
pow-le k h = pow-le-pow_right {n = 2} (omega arith) {i = k} {j = 31} h

put_used :
    (i o : ℕ)
    → i < 2 ^ 32
    → o < 2 ^ 32
    → sub_word 32 i o < 2 ^ 31
    → sub_word 32 (wrap 32 (i + 1)) o ≡ suc (sub_word 32 i o)
put_used i o h k l = omega arith

get_used :
    (i o : ℕ)
    → i < 2 ^ 32
    → o < 2 ^ 32
    → i ≢ o
    → sub_word 32 i o ≡ suc (sub_word 32 i (wrap 32 (o + 1)))
get_used i o h k ne = omega arith

write_position :
    (k i o : ℕ) → k ≤ 31 → i < 2 ^ 32 → o < 2 ^ 32 → i % 2 ^ k ≡ (o + sub_word 32 i o) % 2 ^ k
write_position k i o h hi ho =
    ap (λ x. x % 2 ^ k) around ∙ wrap-lap k (o + sub_word 32 i o) (omega (arith, h))
  where
    around : i ≡ wrap 32 (o + sub_word 32 i o)
    around = omega (arith, hi, ho)

-- The ring after a byte went in, and after one was taken.
abbrev stored : Fifo → ℕ → Fifo
stored f val = record f {
  data_arr = set f.data_arr (bit_and f.inn f.mask) val;
  inn = wrap 32 (f.inn + 1);
}

abbrev taken : Fifo → Fifo
taken f = record f { out = wrap 32 (f.out + 1) }

none_used : (i o : ℕ) → o < 2 ^ 32 → i ≡ o → sub_word 32 i o ≡ 0
none_used i o h e = omega arith

==_true→eq : (x y : ℕ) → (x == y) ≡ true → x ≡ y
==_true→eq x y h = ground arith

ltb_false→le : (x y : ℕ) → ltb x y ≡ false → y ≤ x
ltb_false→le x y h = ground arith

==_false→ne : (x y : ℕ) → (x == y) ≡ false → x ≢ y
==_false→ne x y h e = ground arith

module _ (k : ℕ) (f : Fifo) (wf : IsFifo k f) (val : ℕ) (space : used f < 2 ^ k) where
  position : bit_and f.inn f.mask ≡ f.inn % 2 ^ k
  position = ap (λ m. bit_and f.inn m) wf.mask_is ∙ mask-eq-mod f.inn k

  one_more : used (stored f val) ≡ suc (used f)
  one_more = put_used f.inn f.out wf.inn_fits wf.out_fits (omega (arith, pow-le k wf.width, space))

  stored-contents : contents k (stored f val) ≡ contents k f ++ (val ∷ [])
  stored-contents =
      ap (elements k (stored f val).data_arr f.out) one_more
      ∙ elements-append k (stored f val).data_arr f.out (used f)
      ∙ ap₂ (λ xs x. xs ++ (x ∷ []))
          (elements-set k f.data_arr f.out (used f) (bit_and f.inn f.mask) val apart)
          (ap (λ i. get_or (stored f val).data_arr i 0) (sym last)
            ∙ get_or-set_self f.data_arr (bit_and f.inn f.mask) val 0 inside)
    where
      last : bit_and f.inn f.mask ≡ (f.out + used f) % 2 ^ k
      last = position ∙ write_position k f.inn f.out wf.width wf.inn_fits wf.out_fits

      inside : bit_and f.inn f.mask < length f.data_arr
      inside = omega (arith, position, wf.room, mod-lt f.inn {m = 2 ^ k} (pow-pos k))

      apart : (j : ℕ) → j < used f → (f.out + j) % 2 ^ k ≢ bit_and f.inn f.mask
      apart j l e =
          positions_apart (2 ^ k) (f.out + j) (used f - j) (omega (arith, l)) (omega (arith, space))
            (e ∙ last ∙ ap (λ x. x % 2 ^ k) (omega (arith, l)))

  stored-IsFifo : IsFifo k (stored f val)
  stored-IsFifo = record {
    width = wf.width;
    mask_is = wf.mask_is;
    room = length-set f.data_arr (bit_and f.inn f.mask) val ∙ wf.room;
    inn_fits = wrap-lt 32 (f.inn + 1);
    out_fits = wf.out_fits;
    used_fits = omega (arith, one_more, space);
  }

module _ (k : ℕ) (f : Fifo) (wf : IsFifo k f) (some_used : f.inn ≢ f.out) where
  one_less : used f ≡ suc (used (taken f))
  one_less = get_used f.inn f.out wf.inn_fits wf.out_fits some_used

  taken-contents : contents k f ≡ get_or f.data_arr (bit_and f.out f.mask) 0 ∷ contents k (taken f)
  taken-contents =
      ap (elements k f.data_arr f.out) one_less
      ∙ ap₂ (λ x xs. x ∷ xs)
          (ap (λ i. get_or f.data_arr i 0)
            (sym (ap (λ m. bit_and f.out m) wf.mask_is ∙ mask-eq-mod f.out k)))
          (elements-lap k f.data_arr (f.out + 1) (wrap 32 (f.out + 1)) (used (taken f))
            (sym (wrap-lap k (f.out + 1) (omega (arith, wf.width)))))

  taken-IsFifo : IsFifo k (taken f)
  taken-IsFifo = record {
    width = wf.width;
    mask_is = wf.mask_is;
    room = wf.room;
    inn_fits = wf.inn_fits;
    out_fits = wrap-lt 32 (f.out + 1);
    used_fits = omega (arith, one_less, wf.used_fits);
  }

-- Putting a byte succeeds exactly if the queue has fewer than 2 ^ k bytes, and then appends it;
-- else the contents stay. The ring stays well-formed.
pub fifo_put_lem :
    (k : ℕ) (f : Fifo) (val : ℕ)
    → IsFifo k f
    → let (ret, f') = fifo_put f val in
      (ret ≡ ltb (length (contents k f)) (2 ^ k))
      × (contents k f' ≡ (if ret then contents k f ++ (val ∷ []) else contents k f))
      × IsFifo k f'
unfolding fifo_put fifo_is_full fifo_len
fifo_put_lem k f val wf =
    let (shown, rest) =
      by_full (ltb f.mask (used f))
        λ e. omega (arith, ltb_false→le f.mask (used f) e, wf.mask_is, pow-pos k) in
    (
      ground (arith, wf.mask_is, pow-pos k, length-elements k f.data_arr f.out (used f)),
      shown,
      rest,
    )
  where
    by_full :
        (full : Bool)
        → (full ≡ false → used f < 2 ^ k)
        → let f' = if not full then stored f val else f in
          (contents k f' ≡ (if not full then contents k f ++ (val ∷ []) else contents k f))
          × IsFifo k f'
    by_full true space = (refl, wf)
    by_full false space =
        (stored-contents k f wf val (space refl), stored-IsFifo k f wf val (space refl))

-- Taking a byte succeeds exactly if the queue is not empty, and then gives and removes the oldest.
-- The ring stays well-formed.
pub fifo_get_lem :
    (k : ℕ) (f : Fifo) (old : ℕ)
    → IsFifo k f
    → let (ret, val, f') = fifo_get f old in
      (ret ≡ not (length (contents k f) == 0))
      × (contents k f ≡ (if ret then val ∷ contents k f' else []))
      × IsFifo k f'
unfolding fifo_get fifo_is_empty
fifo_get_lem k f old wf =
    let (shown, rest) =
      by_empty (f.inn == f.out) (==_false→ne f.inn f.out) (==_true→eq f.inn f.out) in
    (
      ground (
        arith,
        length-elements k f.data_arr f.out (used f),
        none_used f.inn f.out wf.out_fits,
        get_used f.inn f.out wf.inn_fits wf.out_fits,
      ),
      shown,
      rest,
    )
  where
    by_empty :
        (empty : Bool)
        → (empty ≡ false → f.inn ≢ f.out)
        → (empty ≡ true → f.inn ≡ f.out)
        → let val = if not empty then get_or f.data_arr (bit_and f.out f.mask) 0 else old in
          let f' : Fifo = if not empty then record f { out = wrap 32 (f.out + 1) } else f in
          (contents k f ≡ (if not empty then val ∷ contents k f' else [])) × IsFifo k f'
    by_empty true ne same = (
      ap (elements k f.data_arr f.out) {y = 0} (none_used f.inn f.out wf.out_fits (same refl)),
      wf,
    )
    by_empty false ne same = (taken-contents k f wf (ne refl), taken-IsFifo k f wf (ne refl))
