-- ===== src/IntervalMap/Insertion.antt =====
-- Insertion into an ordered vector, and erasing what was inserted.
use seec.Common.{
  ℕ, zero, suc, ◌-◌, ◌≤◌, ◌≡◌, refl, Bool, true, false, not, some, List, [], ◌∷◌, ◌==◌, ◌&&◌, ltb,
  leb, length, get_elem?, any_of, arith, Bool-cases, ◌⊎◌, inl, inr, ◌∙◌, sym, ap,
}
use package.seec.IntervalMap.{
  IntervalMapItem, make_interval_map_item, upper_bound, reaches_before, find, insert, insert_at,
  erase, erase_at, ApartFrom,
}
use package.seec.IntervalMap.Queries.{covers, reaches_before-any_of, upper_bound-le}

module _ {ℓ} {V : Type ℓ} (b e : ℕ) (v : V) where
  abbrev item : IntervalMapItem V
  item = make_interval_map_item b e v

  -- An item that starts inside the new one.
  abbrev pub starts_inside : IntervalMapItem V → Bool
  starts_inside x = leb b x.begin && leb x.begin e

  insert_at-upper_bound :
      (xs : List (IntervalMapItem V))
      → upper_bound b (insert_at (upper_bound b xs) item xs) ≡ suc (upper_bound b xs)
  unfolding upper_bound
  insert_at-upper_bound [] = ground arith
  insert_at-upper_bound (x ∷ xs) = ground (arith, insert_at-upper_bound xs)

  insert_at-get_elem? :
      (i : ℕ) (xs : List (IntervalMapItem V))
      → i ≤ length xs
      → (get_elem? (insert_at i item xs) i ≡ some item)
        × (erase_at i (insert_at i item xs) ≡ xs)
        × (length (insert_at i item xs) ≡ suc (length xs))
  insert_at-get_elem? zero xs h = (refl, refl, refl)
  insert_at-get_elem? (suc i) [] h = absurd (omega arith)
  insert_at-get_elem? (suc i) (x ∷ xs) h =
      let (g, er, l) = insert_at-get_elem? i xs (omega arith) in (g, ap (◌∷◌ x) er, ap suc l)

  -- Into a vector that is ordered and without overlaps, an interval that does not end before it
  -- starts is inserted exactly where no item covers its start, and erasing its start then gives back
  -- the vector.
  pub erase-insert :
      (xs : List (IntervalMapItem V))
      → b ≤ e
      → ApartFrom 0 xs
      → ((insert b e v xs).1 ≡ not (any_of (covers b) xs))
        × (((any_of (covers b) xs ≡ true) × ((insert b e v xs).2 ≡ xs))
            ⊎ (erase b (insert b e v xs).2 ≡ (1, xs)))
  unfolding insert erase find
  erase-insert xs h a =
      let same = reaches_before-any_of b 0 xs a in
      let le = upper_bound-le b xs in
      let (g, er, l) = insert_at-get_elem? (upper_bound b xs) xs le in
      let up = insert_at-upper_bound xs in
      elim (Bool-cases (reaches_before b xs (upper_bound b xs))) [
        | inl covered ↦ rw covered (ap not (sym covered ∙ same), inl (sym same ∙ covered, refl))
        | inr free ↦
            let below : leb b e ≡ true = ground arith in
            let inner : (upper_bound b xs == suc (length xs)) ≡ false = ground (arith, le) in
            let reached : reaches_before b (insert_at (upper_bound b xs) item xs)
                  (suc (upper_bound b xs))
                ≡ true =
              rw (reaches_before, g) below in
            let back : suc (upper_bound b xs) - 1 ≡ upper_bound b xs = omega arith in
            rw free (ap not (sym free ∙ same), inr (rw (up, reached, back, l, inner, er)))
      ]

  insert_at-ApartFrom :
      (low : ℕ) (xs : List (IntervalMapItem V))
      → b ≤ e
      → low ≤ b
      → ApartFrom low xs
      → any_of (covers b) xs ≡ false
      → any_of starts_inside xs ≡ false
      → ApartFrom low (insert_at (upper_bound b xs) item xs)
  unfolding upper_bound
  insert_at-ApartFrom low [] h l a c s = (l, h, tt)
  insert_at-ApartFrom low (x ∷ xs) h l a c s = elim (Bool-cases (ltb b x.begin)) [
    | inl before ↦ rw before (l, h, (ground (arith, a, before, s), a.1, a.2))
    | inr reach ↦ rw reach (
      a.0,
      a.1,
      insert_at-ApartFrom (suc x.end) xs h (ground (arith, reach, c)) a.2 (ground (arith, c))
          (ground (arith, s)),
    )
  ]

  -- An insertion of an interval in which no item starts leaves the vector ordered, and leaves
  -- no overlap.
  pub insert-ApartFrom :
      (xs : List (IntervalMapItem V))
      → b ≤ e
      → ApartFrom 0 xs
      → any_of starts_inside xs ≡ false
      → ApartFrom 0 (insert b e v xs).2
  unfolding insert
  insert-ApartFrom xs h a s =
      let same = reaches_before-any_of b 0 xs a in
      elim (Bool-cases (reaches_before b xs (upper_bound b xs))) [
        | inl covered ↦ rw covered a
        | inr free ↦ rw free (insert_at-ApartFrom 0 xs h (omega arith) a (sym same ∙ free) s)
      ]
