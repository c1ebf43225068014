-- ===== src/IntervalMap.antt =====
-- class IntervalMapVector of include/seec/DSA/IntervalMapVector.hpp, with native numbers as keys:
-- intervals with both ends included, in a vector that the operations keep in the order of their
-- starts. An iterator is an index, and `end()` is the size of the vector. Reading through `end()`
-- is `none`.
pub mod Queries
pub mod Insertion
mod Tests
use seec.Common.{
  ℕ, zero, suc, ◌-◌, ◌≤◌, ◌<◌, Bool, true, false, Option, none, some, List, [], ◌∷◌, ◌==◌, ◌&&◌,
  ltb, leb, if◌then◌else◌, ◌>>=◌, length, get_elem?,
}

pub record IntervalMapItem {ℓ} (V : Type ℓ) : Type ℓ where
  pub begin : ℕ
  pub end : ℕ
  pub value : V

module _ {ℓ} {V : Type ℓ} where
  abbrev pub make_interval_map_item : ℕ → ℕ → V → IntervalMapItem V
  make_interval_map_item b e v = record { begin = b; end = e; value = v }

  -- The first item that starts after the key.
  unfoldable pub upper_bound : ℕ → List (IntervalMapItem V) → ℕ
  upper_bound key [] = 0
  upper_bound key (x ∷ xs) =
      let rest = upper_bound key xs in if ltb key x.begin then 0 else suc rest

  -- Whether the item before index `i` reaches the key, which it does not start after.
  abbrev pub reaches_before : ℕ → List (IntervalMapItem V) → ℕ → Bool
  reaches_before key xs zero = false
  reaches_before key xs (suc i) = elim (get_elem? xs i) [ none ↦ false | some x ↦ leb key x.end ]

  unfoldable pub find : ℕ → List (IntervalMapItem V) → ℕ
  unfolding upper_bound
  find key xs = let i = upper_bound key xs in if reaches_before key xs i then i - 1 else length xs

  unfoldable pub count : ℕ → List (IntervalMapItem V) → ℕ
  unfolding find
  count key xs = if find key xs == length xs then 0 else 1

  unfoldable pub lower_bound : ℕ → List (IntervalMapItem V) → ℕ
  unfolding upper_bound
  lower_bound key xs = let i = upper_bound key xs in if reaches_before key xs i then i - 1 else i

  unfoldable pub equal_range : ℕ → List (IntervalMapItem V) → ℕ × ℕ
  unfolding lower_bound
  equal_range key xs =
      let i = lower_bound key xs in
      elim (get_elem? xs i) [
        | none ↦ (i, i)
        | some x ↦ if leb x.begin key && leb key x.end then (i, suc i) else (i, i)
      ]

  -- The loop of `count(range)` from an iterator on: the body reads the item before it tests for
  -- the end.
  abbrev pub count_from : ℕ → List (IntervalMapItem V) → Option ℕ
  count_from last [] = none
  count_from last (x ∷ []) = some (if leb x.begin last then 1 else 0)
  count_from last (x ∷ y ∷ ys) =
      let rest = count_from last (y ∷ ys) in
      if leb x.begin last then (rest >>= λ n. some (suc n)) else some 0

  abbrev pub items_from : ℕ → List (IntervalMapItem V) → List (IntervalMapItem V)
  items_from zero xs = xs
  items_from (suc i) [] = []
  items_from (suc i) (x ∷ xs) = items_from i xs

  unfoldable pub count_range : ℕ → ℕ → List (IntervalMapItem V) → Option ℕ
  unfolding upper_bound
  count_range first last xs =
      let i = upper_bound first xs in
      count_from last (items_from i xs) >>= λ n.
      some (if reaches_before first xs i then suc n else n)

  -- `Items.insert` and `Items.erase` at an index.
  abbrev pub insert_at : ℕ → IntervalMapItem V → List (IntervalMapItem V) → List (IntervalMapItem V)
  insert_at zero x xs = x ∷ xs
  insert_at (suc i) x [] = x ∷ []
  insert_at (suc i) x (y ∷ ys) = y ∷ insert_at i x ys

  abbrev pub erase_at : ℕ → List (IntervalMapItem V) → List (IntervalMapItem V)
  erase_at i [] = []
  erase_at zero (x ∷ xs) = xs
  erase_at (suc i) (x ∷ xs) = x ∷ erase_at i xs

  -- `erase(key)`: how many items it erased, and the vector after it.
  unfoldable pub erase : ℕ → List (IntervalMapItem V) → ℕ × List (IntervalMapItem V)
  unfolding find
  erase key xs = let i = find key xs in if i == length xs then (0, xs) else (1, erase_at i xs)

  -- `insert(Begin, End, Value)`: the iterator, whether it inserted, and the vector after it.
  unfoldable pub insert : ℕ → ℕ → V → List (IntervalMapItem V) → ℕ × Bool × List (IntervalMapItem V)
  unfolding upper_bound
  insert b e v xs =
      let i = upper_bound b xs in
      if reaches_before b xs i
      then (i - 1, false, xs)
      else (i, true, insert_at i (make_interval_map_item b e v) xs)

  -- `insert(first, last)`: the items that start inside one that is there are passed over.
  unfoldable pub insert_all :
      List (IntervalMapItem V) → List (IntervalMapItem V) → List (IntervalMapItem V)
  unfolding insert
  insert_all [] xs = xs
  insert_all (y ∷ ys) xs = insert_all ys (insert y.begin y.end y.value xs).2

  -- The items do not overlap, and are in order, from `low` on.
  abbrev pub ApartFrom : ℕ → List (IntervalMapItem V) → Type 0
  ApartFrom low [] = Unit {0}
  ApartFrom low (x ∷ xs) = (low ≤ x.begin) × (x.begin ≤ x.end) × ApartFrom (suc x.end) xs
