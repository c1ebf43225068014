-- ===== src/StdMap/Floor.antt =====
-- The entry before an upper bound: it is in the map, and no key lies between.
use seec.Common.{ℕ, suc, ◌≤◌, ◌<◌, ◌≡◌, true, none, some, [], ◌∷◌, arith, inl, inr, Option-cases}
use seec.StdMap.{Map, find, has, floor, assign, Above}

module _ {ℓ} {V : Type ℓ} where
  pub floor-find :
      (k lo : ℕ) (m : Map V) (j : ℕ) (v : V)
      → Above lo m
      → floor k m ≡ some (j, v)
      → (find j m ≡ some v) × (j ≤ k) × (lo ≤ j)
  floor-find k lo [] j v a h = ground arith
  floor-find k lo ((i, w) ∷ m) j v a h = elim (Option-cases (floor k m)) [
    | inl e ↦ ground (arith, e)
    | inr ((i', w'), e) ↦ ground (arith, e, floor-find k (suc i) m i' w' a.1 e)
  ]

  pub has-le : (i lo : ℕ) (m : Map V) → Above lo m → has i m ≡ true → lo ≤ i
  has-le i lo [] a h = ground arith
  has-le i lo ((j, v) ∷ m) a h = ground (arith, has-le i (suc j) m a.1)

  pub floor-none :
      (k : ℕ) (m : Map V) (i lo : ℕ) → Above lo m → floor k m ≡ none → has i m ≡ true → k < i
  floor-none k [] i lo a f h = ground arith
  floor-none k ((j, v) ∷ m) i lo a f h = elim (Option-cases (floor k m)) [
    | inl e ↦ ground (arith, e, floor-none k m i (suc j) a.1 e, has-le i (suc j) m a.1)
    | inr ((j', w'), e) ↦ ground (arith, e, has-le i (suc j) m a.1)
  ]

  -- No key of the map lies between the key that is found and the one looked for.
  pub floor-greatest :
      (k : ℕ) (m : Map V) (lo j i : ℕ) (v : V)
      → Above lo m
      → floor k m ≡ some (j, v)
      → has i m ≡ true
      → i ≤ k
      → i ≤ j
  floor-greatest k [] lo j i v a f h b = ground arith
  floor-greatest k ((i', w) ∷ m) lo j i v a f h b = elim (Option-cases (floor k m)) [
    | inl e ↦ ground (arith, e, floor-none k m i (suc i') a.1 e)
    | inr ((j', w'), e) ↦
        ground
          (arith, e, floor-greatest k m (suc i') j' i w' a.1 e, floor-find k (suc i') m j' w' a.1 e)
  ]

  pub floor-assign :
      (k j lo : ℕ) (v w : V) (m : Map V)
      → Above lo m
      → floor k m ≡ some (j, v)
      → floor k (assign j w m) ≡ some (j, w)
  floor-assign k j lo v w [] a f = ground arith
  floor-assign k j lo v w ((i, u) ∷ m) a f = elim (Option-cases (floor k m)) [
    | inl e ↦ ground (arith, e)
    | inr ((j', w'), e) ↦
        ground
          (arith, e, floor-find k (suc i) m j' w' a.1 e, floor-assign k j' (suc i) w' w m a.1 e)
  ]
