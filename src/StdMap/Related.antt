-- ===== src/StdMap/Related.antt =====
-- Two maps with the same keys and related values: every operation keeps them so.
use seec.Common.{
  true, ℕ, suc, ◌≡◌, refl, Option, none, some, [], ◌∷◌, ◌==◌, ltb, arith, Bool-cases, inl, inr, sym,
  subst,
}
use seec.StdMap.{Map, find, has, insert, erase, assign, floor, Above}

module _ {ℓ κ} {V : Type ℓ} {W : Type κ} (R : ℕ → V → W → Type 0) where
  abbrev pub Related : Map V → Map W → Type 0
  Related [] [] = Unit
  Related [] (e ∷ s) = ⊥
  Related (e ∷ m) [] = ⊥
  Related ((k, v) ∷ m) ((j, w) ∷ s) = (k ≡ j) × R k v w × Related m s

  abbrev pub RelatedOption : ℕ → Option V → Option W → Type 0
  RelatedOption k none none = Unit
  RelatedOption k none (some w) = ⊥
  RelatedOption k (some v) none = ⊥
  RelatedOption k (some v) (some w) = R k v w

  abbrev pub RelatedEntry : Option (ℕ × V) → Option (ℕ × W) → Type 0
  RelatedEntry none none = Unit
  RelatedEntry none (some e) = ⊥
  RelatedEntry (some e) none = ⊥
  RelatedEntry (some (k, v)) (some (j, w)) = (k ≡ j) × R k v w

same_key : (i k : ℕ) → (i == k) ≡ true → i ≡ k
same_key i k h = ground arith

module _ {ℓ κ} {V : Type ℓ} {W : Type κ} (R : ℕ → V → W → Type 0) where
  pub Related-find :
      (k : ℕ) (m : Map V) (s : Map W) → Related R m s → RelatedOption R k (find k m) (find k s)
  Related-find k [] [] r = tt
  Related-find k [] (e ∷ s) r = absurd r
  Related-find k (e ∷ m) [] r = absurd r
  Related-find k ((i, v) ∷ m) ((j, w) ∷ s) (e, p, r) = elim (Bool-cases (i == k)) [
    | inl hit ↦ rw (hit, ← e, hit) (subst (λ z. R z v w) (same_key i k hit) p)
    | inr miss ↦ rw (miss, ← e, miss) (Related-find k m s r)
  ]

  pub Related-has : (k : ℕ) (m : Map V) (s : Map W) → Related R m s → has k m ≡ has k s
  Related-has k [] [] r = refl
  Related-has k [] (e ∷ s) r = absurd r
  Related-has k (e ∷ m) [] r = absurd r
  Related-has k ((i, v) ∷ m) ((j, w) ∷ s) (e, p, r) = ground (arith, Related-has k m s r)

  pub Related-Above : (lo : ℕ) (m : Map V) (s : Map W) → Related R m s → Above lo m → Above lo s
  Related-Above lo [] [] r a = tt
  Related-Above lo [] (e ∷ s) r a = absurd r
  Related-Above lo (e ∷ m) [] r a = absurd r
  Related-Above lo ((i, v) ∷ m) ((j, w) ∷ s) (e, p, r) a =
      ground (arith, Related-Above (suc i) m s r a.1)

  pub Related-Above_back :
      (lo : ℕ) (m : Map V) (s : Map W) → Related R m s → Above lo s → Above lo m
  Related-Above_back lo [] [] r a = tt
  Related-Above_back lo [] (e ∷ s) r a = absurd r
  Related-Above_back lo (e ∷ m) [] r a = absurd r
  Related-Above_back lo ((i, v) ∷ m) ((j, w) ∷ s) (e, p, r) a =
      ground (arith, Related-Above_back (suc i) m s r (subst (λ x. Above (suc x) s) (sym e) a.1))

  pub Related-insert :
      (k : ℕ) (v : V) (w : W) (m : Map V) (s : Map W)
      → R k v w
      → Related R m s
      → Related R (insert k v m) (insert k w s)
  Related-insert k v w [] [] q r = (refl, q, tt)
  Related-insert k v w [] (e ∷ s) q r = absurd r
  Related-insert k v w (e ∷ m) [] q r = absurd r
  Related-insert k v w ((i, x) ∷ m) ((j, y) ∷ s) q (e, p, r) =
      ground (arith, Related-insert k v w m s q r)

  pub Related-erase :
      (k : ℕ) (m : Map V) (s : Map W) → Related R m s → Related R (erase k m) (erase k s)
  Related-erase k [] [] r = tt
  Related-erase k [] (e ∷ s) r = absurd r
  Related-erase k (e ∷ m) [] r = absurd r
  Related-erase k ((i, x) ∷ m) ((j, y) ∷ s) (e, p, r) = ground (arith, Related-erase k m s r)

  pub Related-assign :
      (k : ℕ) (v : V) (w : W) (m : Map V) (s : Map W)
      → R k v w
      → Related R m s
      → Related R (assign k v m) (assign k w s)
  Related-assign k v w [] [] q r = tt
  Related-assign k v w [] (e ∷ s) q r = absurd r
  Related-assign k v w (e ∷ m) [] q r = absurd r
  Related-assign k v w ((i, x) ∷ m) ((j, y) ∷ s) q (e, p, r) =
      ground (arith, Related-assign k v w m s q r)

  floor_step :
      (i j : ℕ) (x : V) (y : W) (fm : Option (ℕ × V)) (fs : Option (ℕ × W))
      → i ≡ j
      → R i x y
      → RelatedEntry R fm fs
      → RelatedEntry R
          (elim fm [ none ↦ some (i, x) | some e ↦ some e ])
          (elim fs [ none ↦ some (j, y) | some e ↦ some e ])
  floor_step i j x y none none e p r = (e, p)
  floor_step i j x y none (some d) e p r = absurd r
  floor_step i j x y (some d) none e p r = absurd r
  floor_step i j x y (some c) (some d) e p r = r

  pub Related-floor :
      (k : ℕ) (m : Map V) (s : Map W) → Related R m s → RelatedEntry R (floor k m) (floor k s)
  Related-floor k [] [] r = tt
  Related-floor k [] (e ∷ s) r = absurd r
  Related-floor k (e ∷ m) [] r = absurd r
  Related-floor k ((i, x) ∷ m) ((j, y) ∷ s) (e, p, r) = elim (Bool-cases (ltb k i)) [
    | inl past ↦ rw (past, ← e, past) tt
    | inr reached ↦
        rw (reached, ← e, reached)
          (floor_step i j x y (floor k m) (floor k s) e p (Related-floor k m s r))
  ]
