-- ===== src/StdMap/Laws.antt =====
-- Inserting, erasing and assigning: what each does to the others' results.
use seec.Common.{ℕ, suc, ◌≤◌, ◌<◌, ◌≡◌, refl, true, false, none, some, [], ◌∷◌, ◌==◌, arith}
use seec.StdMap.{Map, find, has, insert, erase, assign, Above}

module _ {ℓ} {V : Type ℓ} where
  pub has-find : (k : ℕ) (m : Map V) → has k m ≡ false → find k m ≡ none
  has-find k [] h = refl
  has-find k ((j, v) ∷ m) h = ground (arith, has-find k m)

  pub has-eq_true : (k : ℕ) (v : V) (m : Map V) → find k m ≡ some v → has k m ≡ true
  has-eq_true k v [] h = ground arith
  has-eq_true k v ((j, w) ∷ m) h = ground (arith, has-eq_true k v m)

  pub Above-mono : (lo hi : ℕ) (m : Map V) → lo ≤ hi → Above hi m → Above lo m
  Above-mono lo hi [] h a = tt
  Above-mono lo hi ((j, v) ∷ m) h a = (omega arith, a.1)

  pub has-Above : (k lo : ℕ) (m : Map V) → k < lo → Above lo m → has k m ≡ false
  has-Above k lo [] h a = refl
  has-Above k lo ((j, v) ∷ m) h a = ground (arith, has-Above k (suc j) m)

  pub insert-Above :
      (k : ℕ) (v : V) (lo : ℕ) (m : Map V) → lo ≤ k → Above lo m → Above lo (insert k v m)
  insert-Above k v lo [] h a = (h, tt)
  insert-Above k v lo ((j, w) ∷ m) h a = ground (arith, insert-Above k v (suc j) m)

  pub erase-Above : (k lo : ℕ) (m : Map V) → Above lo m → Above lo (erase k m)
  erase-Above k lo [] a = tt
  erase-Above k lo ((j, v) ∷ m) a =
      ground (arith, erase-Above k (suc j) m a.1, Above-mono lo (suc j) m)

  pub assign-Above : (k : ℕ) (v : V) (lo : ℕ) (m : Map V) → Above lo m → Above lo (assign k v m)
  assign-Above k v lo [] a = tt
  assign-Above k v lo ((j, w) ∷ m) a = ground (arith, assign-Above k v (suc j) m a.1)

  pub find-insert_self :
      (k : ℕ) (v : V) (m : Map V) → has k m ≡ false → find k (insert k v m) ≡ some v
  find-insert_self k v [] h = ground arith
  find-insert_self k v ((j, w) ∷ m) h = ground (arith, find-insert_self k v m)

  pub find-insert_ne :
      (k j : ℕ) (v : V) (m : Map V) → (k == j) ≡ false → find j (insert k v m) ≡ find j m
  find-insert_ne k j v [] h = ground arith
  find-insert_ne k j v ((i, w) ∷ m) h = ground (arith, find-insert_ne k j v m h)

  pub find-erase_self : (k lo : ℕ) (m : Map V) → Above lo m → has k (erase k m) ≡ false
  find-erase_self k lo [] a = refl
  find-erase_self k lo ((j, v) ∷ m) a =
      ground (arith, find-erase_self k (suc j) m a.1, has-Above k (suc j) m)

  pub find-erase_ne : (k j : ℕ) (m : Map V) → (k == j) ≡ false → find j (erase k m) ≡ find j m
  find-erase_ne k j [] h = refl
  find-erase_ne k j ((i, w) ∷ m) h = ground (arith, find-erase_ne k j m h)

  pub find-assign_self :
      (k : ℕ) (v w : V) (m : Map V) → find k m ≡ some w → find k (assign k v m) ≡ some v
  find-assign_self k v w [] h = ground arith
  find-assign_self k v w ((i, u) ∷ m) h = ground (arith, find-assign_self k v w m)

  pub find-assign_ne :
      (k j : ℕ) (v : V) (m : Map V) → (k == j) ≡ false → find j (assign k v m) ≡ find j m
  find-assign_ne k j v [] h = refl
  find-assign_ne k j v ((i, w) ∷ m) h = ground (arith, find-assign_ne k j v m h)

  -- Erasing a fresh entry gives back the map.
  pub erase-insert : (k : ℕ) (v : V) (m : Map V) → has k m ≡ false → erase k (insert k v m) ≡ m
  erase-insert k v [] h = ground arith
  erase-insert k v ((j, w) ∷ m) h = ground (arith, erase-insert k v m)

  -- Inserting what was erased gives back the map.
  pub insert-erase :
      (k : ℕ) (v : V) (lo : ℕ) (m : Map V)
      → Above lo m
      → find k m ≡ some v
      → insert k v (erase k m) ≡ m
  insert-erase k v lo [] a h = ground arith
  insert-erase k v lo ((j, w) ∷ []) a h = ground arith
  insert-erase k v lo ((j, w) ∷ (i, u) ∷ m) a h = ground (
    arith,
    insert-erase k v (suc j) ((i, u) ∷ m) a.1,
    has-Above k (suc j) ((i, u) ∷ m),
    has-eq_true k v ((i, u) ∷ m),
  )

  pub assign-assign : (k : ℕ) (v w : V) (m : Map V) → assign k v (assign k w m) ≡ assign k v m
  assign-assign k v w [] = refl
  assign-assign k v w ((i, u) ∷ m) = ground (arith, assign-assign k v w m)

  pub assign-find : (k : ℕ) (v : V) (m : Map V) → find k m ≡ some v → assign k v m ≡ m
  assign-find k v [] h = refl
  assign-find k v ((i, u) ∷ m) h = ground (arith, assign-find k v m)
