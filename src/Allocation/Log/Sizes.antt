-- ===== src/Allocation/Log/Sizes.antt =====
-- Cells that are cut and extended again, and the other way round.
use seec.Common.{
  ℕ, zero, suc, ◌+◌, ◌-◌, ◌≤◌, ◌≡◌, refl, sym, ap, ◌∙◌, List, [], ◌∷◌, ◌++◌, arith, length, take,
  length-take, append-nil, take-append_exact,
}
use seec.Common.Slices.{read, write, length-write}
use package.seec.Allocation.Log.{Cell, blanks, resize_cells, length-resize_cells}

take-short : (n : ℕ) (cs : List Cell) → length cs ≤ n → take n cs ≡ cs
take-short zero [] h = refl
take-short zero (c ∷ cs) h = absurd (omega arith)
take-short (suc n) [] h = refl
take-short (suc n) (c ∷ cs) h = ap (◌∷◌ c) (take-short n cs (omega arith))

take-write : (n : ℕ) (ys cs : List Cell) → take n (write n ys cs) ≡ take n cs
take-write zero ys cs = refl
take-write (suc n) ys [] = refl
take-write (suc n) ys (c ∷ cs) = ap (◌∷◌ c) (take-write n ys cs)

cut : (n : ℕ) (cs : List Cell) → n ≤ length cs → resize_cells n cs ≡ take n cs
cut n cs h = let e : n - length cs ≡ 0 = omega arith in rw e (append-nil (take n cs))

extend : (n : ℕ) (cs : List Cell) → length cs ≤ n → resize_cells n cs ≡ cs ++ blanks (n - length cs)
extend n cs h = ap (λ xs. xs ++ blanks (n - length cs)) (take-short n cs h)

fill : (k : ℕ) (cs : List Cell) → k ≡ length cs → write 0 (read 0 k cs) (blanks k) ≡ cs
fill zero [] h = refl
fill zero (c ∷ cs) h = absurd (omega arith)
fill (suc k) [] h = absurd (omega arith)
fill (suc k) (c ∷ cs) h = ap (◌∷◌ c) (fill k cs (omega arith))

refill :
    (n k : ℕ) (cs : List Cell)
    → n + k ≡ length cs
    → write n (read n k cs) (take n cs ++ blanks k) ≡ cs
refill zero k cs h = fill k cs (omega arith)
refill (suc n) k [] h = absurd (omega arith)
refill (suc n) k (c ∷ cs) h = ap (◌∷◌ c) (refill n k cs (omega arith))

-- A range that was saved, blanked and cut off comes back when the cells are extended again and the
-- saved cells are put back.
pub shrink_grow :
    (n size : ℕ) (cs : List Cell)
    → length cs ≡ size
    → n ≤ size
    → write n
        (read n (size - n) cs)
        (resize_cells size (resize_cells n (write n (blanks (size - n)) cs)))
      ≡ cs
shrink_grow n size cs e h =
    rw
      (
        cut n (write n (blanks (size - n)) cs)
            (omega (arith, length-write n (blanks (size - n)) cs)),
        take-write n (blanks (size - n)) cs,
        extend size (take n cs) (omega (arith, length-take n cs)),
      )
      (ap (λ k. write n (read n (size - n) cs) (take n cs ++ blanks k)) short
        ∙ refill n (size - n) cs (omega arith))
  where
    short : size - length (take n cs) ≡ size - n
    short = omega (arith, length-take n cs)

-- Cells that were added go when the size is set back.
pub grow_shrink :
    (n size : ℕ) (cs : List Cell)
    → length cs ≡ size
    → size ≤ n
    → resize_cells size (resize_cells n cs) ≡ cs
grow_shrink n size cs e h =
    cut size (resize_cells n cs) (omega (arith, length-resize_cells n cs))
    ∙ ap (take size) (extend n cs (omega arith))
    ∙ ap (λ k. take k (cs ++ blanks (n - length cs))) (sym e)
    ∙ take-append_exact cs (blanks (n - length cs))
