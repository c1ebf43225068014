-- ===== src/StdMap.antt =====
-- The operations of `std::map` (and, where no order is observed, `llvm::DenseMap`) that the
-- components use, on an association list in the order of the keys.
pub mod Laws
pub mod Floor
pub mod Related
use seec.Common.{
  ℕ, suc, ◌≤◌, ◌≡◌, Bool, true, false, Option, none, some, List, [], ◌∷◌, ◌==◌, ltb, leb,
  if◌then◌else◌,
}

abbrev pub Map {ℓ} : Type ℓ → Type ℓ
Map V = List (ℕ × V)

module _ {ℓ} {V : Type ℓ} where
  abbrev pub find : ℕ → Map V → Option V
  find k [] = none
  find k ((j, v) ∷ m) = if j == k then some v else find k m

  abbrev pub has : ℕ → Map V → Bool
  has k [] = false
  has k ((j, v) ∷ m) = if j == k then true else has k m

  -- `insert` and `emplace`: a key that is present keeps its value.
  abbrev pub insert : ℕ → V → Map V → Map V
  insert k v [] = (k, v) ∷ []
  insert k v ((j, w) ∷ m) =
      let rest = insert k v m in
      if j == k then (j, w) ∷ m else (if ltb k j then (k, v) ∷ (j, w) ∷ m else (j, w) ∷ rest)

  abbrev pub erase : ℕ → Map V → Map V
  erase k [] = []
  erase k ((j, v) ∷ m) = if j == k then m else (j, v) ∷ erase k m

  -- A write through the reference that a lookup returned.
  abbrev pub assign : ℕ → V → Map V → Map V
  assign k v [] = []
  assign k v ((j, w) ∷ m) = if j == k then (j, v) ∷ m else (j, w) ∷ assign k v m

  -- The entry before `upper_bound(k)`, if there is one.
  abbrev pub floor : ℕ → Map V → Option (ℕ × V)
  floor k [] = none
  floor k ((j, v) ∷ m) =
      let later = floor k m in
      if ltb k j then none else elim later [ none ↦ some (j, v) | some e ↦ some e ]

  -- The keys increase, from `lo` on.
  abbrev pub Above : ℕ → Map V → Type 0
  Above lo [] = Unit {0}
  Above lo ((j, v) ∷ m) = (lo ≤ j) × Above (suc j) m
