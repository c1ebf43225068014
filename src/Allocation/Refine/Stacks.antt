-- ===== src/Allocation/Refine/Stacks.antt =====
-- How the stacks of types, bytes and initialization bytes hold the saved ranges of a log.
use seec.Common.{
  ℕ, zero, suc, ◌-◌, ◌≡◌, refl, ap, true, some, List, [], ◌∷◌, ◌++◌, arith, length, replicate,
  take-append_exact, drop-append_exact, length-append,
}
use seec.Common.Slices.{zip_with}
use seec.Allocation.{
  PreviousAreaType, uninitialized, partial, complete, full, back, pop_back, last_n, erase_last_n,
  all_clear, all_complete,
}
use seec.Allocation.Log.{Cell, cell, blanks}

-- The bytes and initialization bytes that one saved range takes on the stacks.
abbrev pub Entry : PreviousAreaType → List ℕ → List ℕ → List Cell → Type 0
Entry uninitialized d i cs = (d ≡ []) × (i ≡ []) × (cs ≡ blanks (length cs))
Entry partial d i cs = (length d ≡ length cs) × (length i ≡ length cs) × (cs ≡ zip_with cell d i)
Entry complete d i cs =
    (length d ≡ length cs) × (i ≡ []) × (cs ≡ zip_with cell d (replicate (length cs) full))

abbrev pub Saved : List (ℕ × List Cell) → List PreviousAreaType → List ℕ → List ℕ → Type 0
Saved [] ts ds is = (ts ≡ []) × (ds ≡ []) × (is ≡ [])
Saved ((off, cs) ∷ h) ts ds is =
    (t : PreviousAreaType) × (ts' : List PreviousAreaType) × (d : List ℕ) × (ds' : List ℕ)
    × (i : List ℕ) × (is' : List ℕ) × (ts ≡ ts' ++ (t ∷ []))
    × (ds ≡ ds' ++ d)
    × (is ≡ is' ++ i)
    × Entry t d i cs
    × Saved h ts' ds' is'

module _ {ℓ} {A : Type ℓ} where
  pub back-append : (xs : List A) (x : A) → back (xs ++ (x ∷ [])) ≡ some x
  back-append [] x = refl
  back-append (y ∷ []) x = refl
  back-append (y ∷ z ∷ ys) x = back-append (z ∷ ys) x

  pub pop_back-append : (xs : List A) (x : A) → pop_back (xs ++ (x ∷ [])) ≡ xs
  pop_back-append [] x = refl
  pop_back-append (y ∷ []) x = refl
  pop_back-append (y ∷ z ∷ ys) x = ap (◌∷◌ y) (pop_back-append (z ∷ ys) x)

  pub last_n-append : (n : ℕ) (xs ys : List A) → length ys ≡ n → last_n n (xs ++ ys) ≡ ys
  last_n-append n xs ys h =
      let e : length (xs ++ ys) - n ≡ length xs = omega (arith, length-append xs ys) in
      rw e (drop-append_exact xs ys)

  pub erase_last_n-append :
      (n : ℕ) (xs ys : List A) → length ys ≡ n → erase_last_n n (xs ++ ys) ≡ xs
  erase_last_n-append n xs ys h =
      let e : length (xs ++ ys) - n ≡ length xs = omega (arith, length-append xs ys) in
      rw e (take-append_exact xs ys)

pub zip_with-all_clear :
    (ds is : List ℕ)
    → length ds ≡ length is
    → all_clear is ≡ true
    → zip_with cell ds is ≡ blanks (length is)
zip_with-all_clear [] [] h c = refl
zip_with-all_clear [] (i ∷ is) h c = absurd (omega arith)
zip_with-all_clear (d ∷ ds) [] h c = absurd (omega arith)
zip_with-all_clear (d ∷ ds) (i ∷ is) h c = ground (arith, zip_with-all_clear ds is)

pub all_clear-replicate : (n : ℕ) → all_clear (replicate n 0) ≡ true
all_clear-replicate zero = refl
all_clear-replicate (suc n) = all_clear-replicate n

pub all_complete-eq : (is : List ℕ) → all_complete is ≡ true → is ≡ replicate (length is) full
all_complete-eq [] h = refl
all_complete-eq (i ∷ is) h = ground (arith, all_complete-eq is)
