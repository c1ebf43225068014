-- ===== src/Common/Slices.antt =====
-- Reading and overwriting a range of a vector, as `std::copy`, `std::fill_n` and `memcpy` do.
use Prim.Native.Nat.{ℕ, zero, suc, ◌+◌, ◌≤◌}
use mathlib.Core.Path.{◌≡◌, refl, ap}
use mathlib.Core.List.{List, [], ◌∷◌, ◌++◌}
use native.Mathlib.Omega.{arith}
use package.seec.Common.Lists.{length, take, replicate}

module _ {ℓ} {A : Type ℓ} where
  -- The `n` elements from `off` on; fewer where the vector ends before.
  abbrev pub read : ℕ → ℕ → List A → List A
  read off n [] = []
  read zero zero (x ∷ xs) = []
  read zero (suc n) (x ∷ xs) = x ∷ read zero n xs
  read (suc off) n (x ∷ xs) = read off n xs

  -- The vector with `ys` at `off`; a write past the end is dropped.
  abbrev pub write : ℕ → List A → List A → List A
  write off ys [] = []
  write zero [] (x ∷ xs) = x ∷ xs
  write zero (y ∷ ys) (x ∷ xs) = y ∷ write zero ys xs
  write (suc off) ys (x ∷ xs) = x ∷ write off ys xs

  pub length-read : (off n : ℕ) (xs : List A) → off + n ≤ length xs → length (read off n xs) ≡ n
  length-read off n [] h = omega arith
  length-read zero zero (x ∷ xs) h = refl
  length-read zero (suc n) (x ∷ xs) h = ap suc (length-read zero n xs (omega arith))
  length-read (suc off) n (x ∷ xs) h = length-read off n xs (omega arith)

  pub length-write : (off : ℕ) (ys xs : List A) → length (write off ys xs) ≡ length xs
  length-write off ys [] = refl
  length-write zero [] (x ∷ xs) = refl
  length-write zero (y ∷ ys) (x ∷ xs) = ap suc (length-write zero ys xs)
  length-write (suc off) ys (x ∷ xs) = ap suc (length-write off ys xs)

  pub write-nil : (off : ℕ) (xs : List A) → write off [] xs ≡ xs
  write-nil off [] = refl
  write-nil zero (x ∷ xs) = refl
  write-nil (suc off) (x ∷ xs) = ap (◌∷◌ x) (write-nil off xs)

  pub write-read : (off n : ℕ) (xs : List A) → write off (read off n xs) xs ≡ xs
  write-read off n [] = refl
  write-read zero zero (x ∷ xs) = refl
  write-read zero (suc n) (x ∷ xs) = ap (◌∷◌ x) (write-read zero n xs)
  write-read (suc off) n (x ∷ xs) = ap (◌∷◌ x) (write-read off n xs)

  pub write-write :
      (off : ℕ) (ys zs xs : List A)
      → length ys ≡ length zs
      → write off ys (write off zs xs) ≡ write off ys xs
  write-write off ys zs [] h = refl
  write-write zero [] [] (x ∷ xs) h = refl
  write-write zero [] (z ∷ zs) (x ∷ xs) h = absurd (omega arith)
  write-write zero (y ∷ ys) [] (x ∷ xs) h = absurd (omega arith)
  write-write zero (y ∷ ys) (z ∷ zs) (x ∷ xs) h =
      ap (◌∷◌ y) (write-write zero ys zs xs (omega arith))
  write-write (suc off) ys zs (x ∷ xs) h = ap (◌∷◌ x) (write-write off ys zs xs h)

  pub read-write :
      (off n : ℕ) (ys xs : List A)
      → length ys ≡ n
      → off + n ≤ length xs
      → read off n (write off ys xs) ≡ ys
  read-write off n [] [] h b = refl
  read-write off n (y ∷ ys) [] h b = absurd (omega arith)
  read-write zero zero [] (x ∷ xs) h b = refl
  read-write zero (suc n) [] (x ∷ xs) h b = absurd (omega arith)
  read-write zero zero (y ∷ ys) (x ∷ xs) h b = absurd (omega arith)
  read-write zero (suc n) (y ∷ ys) (x ∷ xs) h b =
      ap (◌∷◌ y) (read-write zero n ys xs (omega arith) (omega arith))
  read-write (suc off) n ys (x ∷ xs) h b = read-write off n ys xs h (omega arith)

  -- What lies before or behind the written range is as it was.
  pub read-write_before :
      (i n off : ℕ) (ys xs : List A) → i + n ≤ off → read i n (write off ys xs) ≡ read i n xs
  read-write_before i n off ys [] h = refl
  read-write_before zero zero zero [] (x ∷ xs) h = refl
  read-write_before zero zero zero (y ∷ ys) (x ∷ xs) h = refl
  read-write_before zero (suc n) zero ys (x ∷ xs) h = absurd (omega arith)
  read-write_before (suc i) n zero ys (x ∷ xs) h = absurd (omega arith)
  read-write_before zero zero (suc off) ys (x ∷ xs) h = refl
  read-write_before zero (suc n) (suc off) ys (x ∷ xs) h =
      ap (◌∷◌ x) (read-write_before zero n off ys xs (omega arith))
  read-write_before (suc i) n (suc off) ys (x ∷ xs) h =
      read-write_before i n off ys xs (omega arith)

  pub read-write_behind :
      (i n off : ℕ) (ys xs : List A)
      → off + length ys ≤ i
      → read i n (write off ys xs) ≡ read i n xs
  read-write_behind i n off ys [] h = refl
  read-write_behind i n zero [] (x ∷ xs) h = refl
  read-write_behind zero n zero (y ∷ ys) (x ∷ xs) h = absurd (omega arith)
  read-write_behind (suc i) n zero (y ∷ ys) (x ∷ xs) h =
      read-write_behind i n zero ys xs (omega arith)
  read-write_behind zero n (suc off) ys (x ∷ xs) h = absurd (omega arith)
  read-write_behind (suc i) n (suc off) ys (x ∷ xs) h =
      read-write_behind i n off ys xs (omega arith)

-- Two vectors of one length, element by element.
module _ {ℓ κ μ} {A : Type ℓ} {B : Type κ} {C : Type μ} (f : A → B → C) where
  abbrev pub zip_with : List A → List B → List C
  zip_with [] vs = []
  zip_with (a ∷ us) [] = []
  zip_with (a ∷ us) (b ∷ vs) = f a b ∷ zip_with us vs

module _ {ℓ κ μ} {A : Type ℓ} {B : Type κ} {C : Type μ} (f : A → B → C) where
  pub length-zip_with :
      (us : List A) (vs : List B) → length us ≡ length vs → length (zip_with f us vs) ≡ length us
  length-zip_with [] vs h = refl
  length-zip_with (a ∷ us) [] h = absurd (omega arith)
  length-zip_with (a ∷ us) (b ∷ vs) h = ap suc (length-zip_with us vs (omega arith))

  pub read-zip_with :
      (off n : ℕ) (us : List A) (vs : List B)
      → read off n (zip_with f us vs) ≡ zip_with f (read off n us) (read off n vs)
  read-zip_with off n [] vs = refl
  read-zip_with off n (a ∷ us) [] = zip_nil (read off n (a ∷ us))
    where
      zip_nil : (xs : List A) → [] ≡ zip_with f xs []
      zip_nil [] = refl
      zip_nil (x ∷ xs) = refl
  read-zip_with zero zero (a ∷ us) (b ∷ vs) = refl
  read-zip_with zero (suc n) (a ∷ us) (b ∷ vs) = ap (◌∷◌ (f a b)) (read-zip_with zero n us vs)
  read-zip_with (suc off) n (a ∷ us) (b ∷ vs) = read-zip_with off n us vs

  pub write-zip_with :
      (off : ℕ) (ys us : List A) (zs vs : List B)
      → length ys ≡ length zs
      → length us ≡ length vs
      → zip_with f (write off ys us) (write off zs vs)
        ≡ write off (zip_with f ys zs) (zip_with f us vs)
  write-zip_with off ys [] zs vs h k = refl
  write-zip_with off ys (a ∷ us) zs [] h k = absurd (omega arith)
  write-zip_with zero [] (a ∷ us) [] (b ∷ vs) h k = refl
  write-zip_with zero [] (a ∷ us) (z ∷ zs) (b ∷ vs) h k = absurd (omega arith)
  write-zip_with zero (y ∷ ys) (a ∷ us) [] (b ∷ vs) h k = absurd (omega arith)
  write-zip_with zero (y ∷ ys) (a ∷ us) (z ∷ zs) (b ∷ vs) h k =
      ap (◌∷◌ (f y z)) (write-zip_with zero ys us zs vs (omega arith) (omega arith))
  write-zip_with (suc off) ys (a ∷ us) zs (b ∷ vs) h k =
      ap (◌∷◌ (f a b)) (write-zip_with off ys us zs vs h (omega arith))

  pub take-zip_with :
      (n : ℕ) (us : List A) (vs : List B)
      → take n (zip_with f us vs) ≡ zip_with f (take n us) (take n vs)
  take-zip_with zero us vs = refl
  take-zip_with (suc n) [] vs = refl
  take-zip_with (suc n) (u ∷ us) [] = refl
  take-zip_with (suc n) (u ∷ us) (v ∷ vs) = ap (◌∷◌ (f u v)) (take-zip_with n us vs)

  pub append-zip_with :
      (us ys : List A) (vs zs : List B)
      → length us ≡ length vs
      → zip_with f (us ++ ys) (vs ++ zs) ≡ zip_with f us vs ++ zip_with f ys zs
  append-zip_with [] ys [] zs h = refl
  append-zip_with [] ys (v ∷ vs) zs h = absurd (omega arith)
  append-zip_with (u ∷ us) ys [] zs h = absurd (omega arith)
  append-zip_with (u ∷ us) ys (v ∷ vs) zs h =
      ap (◌∷◌ (f u v)) (append-zip_with us ys vs zs (omega arith))

  pub replicate-zip_with :
      (n : ℕ) (u : A) (v : B) → zip_with f (replicate n u) (replicate n v) ≡ replicate n (f u v)
  replicate-zip_with zero u v = refl
  replicate-zip_with (suc n) u v = ap (◌∷◌ (f u v)) (replicate-zip_with n u v)
