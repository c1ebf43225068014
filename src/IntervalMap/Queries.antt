-- ===== src/IntervalMap/Queries.antt =====
-- What the lookups of an ordered vector find.
use seec.Common.{
  ℕ, zero, suc, ◌-◌, ◌≤◌, ◌<◌, ◌≡◌, refl, Bool, true, false, some, List, [], ◌∷◌, ◌&&◌, ltb, leb,
  if◌then◌else◌, length, get_elem?, any_of, arith, Bool-cases, Option-cases, ◌⊎◌, inl, inr,
}
use package.seec.IntervalMap.{IntervalMapItem, upper_bound, reaches_before, find, count, ApartFrom}

module _ {ℓ} {V : Type ℓ} where
  abbrev pub covers : ℕ → IntervalMapItem V → Bool
  covers key x = leb x.begin key && leb key x.end

  pub upper_bound-le : (key : ℕ) (xs : List (IntervalMapItem V)) → upper_bound key xs ≤ length xs
  unfolding upper_bound
  upper_bound-le key [] = omega arith
  upper_bound-le key (x ∷ xs) = ground (arith, upper_bound-le key xs)

  -- Nothing that starts after the key covers it.
  above-covers :
      (key low : ℕ) (xs : List (IntervalMapItem V))
      → key < low
      → ApartFrom low xs
      → any_of (covers key) xs ≡ false
  above-covers key low [] h a = refl
  above-covers key low (x ∷ xs) h a =
      ground (arith, above-covers key (suc x.end) xs (omega (arith, a)) a.2)

  above-upper_bound :
      (key low : ℕ) (xs : List (IntervalMapItem V))
      → key < low
      → ApartFrom low xs
      → upper_bound key xs ≡ 0
  unfolding upper_bound
  above-upper_bound key low [] h a = refl
  above-upper_bound key low (x ∷ xs) h a = ground (arith, a)

  reached :
      (key : ℕ) (x : IntervalMapItem V) (xs : List (IntervalMapItem V)) (u : ℕ)
      → x.begin ≤ key
      → ApartFrom (suc x.end) xs
      → upper_bound key xs ≡ u
      → reaches_before key xs u ≡ any_of (covers key) xs
      → reaches_before key (x ∷ xs) (suc u) ≡ any_of (covers key) (x ∷ xs)
  reached key x xs zero lo a e ih = ground (arith, ih)
  reached key x xs (suc j) lo a e ih = elim (Bool-cases (leb key x.end)) [
    | inl inside ↦ absurd (ground (arith, e, above-upper_bound key (suc x.end) xs (ground arith) a))
    | inr past ↦ ground (arith, ih, past)
  ]

  -- The item before the upper bound reaches the key where some item covers it, and only there.
  pub reaches_before-any_of :
      (key low : ℕ) (xs : List (IntervalMapItem V))
      → ApartFrom low xs
      → reaches_before key xs (upper_bound key xs) ≡ any_of (covers key) xs
  unfolding upper_bound
  reaches_before-any_of key low [] a = refl
  reaches_before-any_of key low (x ∷ xs) a = elim (Bool-cases (ltb key x.begin)) [
    | inl before ↦ rw before (
        ground (
          arith,
          above-covers key (suc x.end) xs (omega (arith, a, before_lt key x.begin before)) a.2,
        ))
    | inr reach ↦ rw reach (
        reached key x xs (upper_bound key xs) (ground arith) a.2 refl
          (reaches_before-any_of key (suc x.end) xs a.2))
  ]
    where
      before_lt : (a b : ℕ) → ltb a b ≡ true → a < b
      before_lt a b h = ground arith

  bound_begin :
      (key : ℕ) (xs : List (IntervalMapItem V)) (j : ℕ) (x : IntervalMapItem V)
      → get_elem? xs j ≡ some x
      → j < upper_bound key xs
      → x.begin ≤ key
  unfolding upper_bound
  bound_begin key [] j x e h = absurd (cc e)
  bound_begin key (y ∷ ys) zero x e h = ground (arith, e)
  bound_begin key (y ∷ ys) (suc j) x e h = ground (arith, bound_begin key ys j x e)

  before_covers :
      (key : ℕ) (xs : List (IntervalMapItem V)) (u : ℕ)
      → upper_bound key xs ≡ u
      → reaches_before key xs u ≡ true
      → (x : IntervalMapItem V) × (get_elem? xs (u - 1) ≡ some x) × (covers key x ≡ true)
  before_covers key xs zero e r = absurd (cc r)
  before_covers key xs (suc j) e r = elim (Option-cases (get_elem? xs j)) [
    | inl missing ↦ absurd (cc (rw (reaches_before, missing) at r))
    | inr (x, there) ↦
        let low = bound_begin key xs j x there (omega (arith, e)) in
        (x, rw (pred j) there, ground (arith, rw (reaches_before, there) at r))
  ]
    where
      pred : (j : ℕ) → suc j - 1 ≡ j
      pred j = omega arith

  -- In an ordered vector, `count` is 1 where an item covers the key, and 0 elsewhere. Where it
  -- is 1, `find` is the index of an item that covers the key.
  pub find-covers :
      (key low : ℕ) (xs : List (IntervalMapItem V))
      → ApartFrom low xs
      → (count key xs ≡ (if any_of (covers key) xs then 1 else 0))
        × ((count key xs ≡ 0)
            ⊎ ((x : IntervalMapItem V) × (get_elem? xs (find key xs) ≡ some x)
                × (covers key x ≡ true)))
  unfolding count find
  find-covers key low xs a =
      let same = reaches_before-any_of key low xs a in
      let le = upper_bound-le key xs in
      elim (Bool-cases (reaches_before key xs (upper_bound key xs))) [
        | inl found ↦
            let (x, there, c) = before_covers key xs (upper_bound key xs) refl found in
            let some_before : 0 < upper_bound key xs = positive (upper_bound key xs) found in
            (ground (arith, same, found), inr (rw found (x, there, c)))
        | inr missed ↦ (ground (arith, same, missed), inl (ground (arith, missed)))
      ]
    where
      positive : (i : ℕ) → reaches_before key xs i ≡ true → 0 < i
      positive zero h = absurd (cc h)
      positive (suc i) h = omega arith
