-- ===== src/Memory/Lookup.antt =====
-- What the lookups return in a memory that shows a log.
use seec.Common.{
  ℕ, ◌+◌, ◌≤◌, ◌<◌, ◌≡◌, refl, ◌∙◌, true, false, Option, none, some, [], ◌∷◌, arith, is_empty,
  length, subst, Bool-cases, inl, inr,
}
use seec.Interval.{MemoryArea, word, memory_area}
use seec.Interval.Bounds.{contains_interval_bounds, contains_interval_of_bounds}
use seec.StdMap.{Map, floor}
use seec.StdMap.Related.{RelatedEntry, Related-floor}
use seec.Allocation.{MemoryAllocation, is_inside}
use seec.Allocation.Log.{Log}
use package.seec.Memory.{MemoryState, get_allocation, check_inside}
use package.seec.Memory.View.{Shows, MemoryLog, ShowsMemory}

-- An allocation that shows a log contains exactly the areas between its ends.
module _ (k : ℕ) (v : MemoryAllocation) (l : Log) (h : Shows k v l) (a n : ℕ)
    (w : a + n < word) where
  pub Shows-is_inside :
      is_inside v (memory_area a n) ≡ true → (k ≤ a) × (a + n ≤ k + length l.cells)
  Shows-is_inside e =
      let bounds = contains_interval_bounds v.address v.size a n (rw h.here h.fits) w e in
      omega (arith, bounds, h.here, h.sized)

  pub Shows-is_inside_of : k ≤ a → a + n ≤ k + length l.cells → is_inside v (memory_area a n) ≡ true
  Shows-is_inside_of p q =
      contains_interval_of_bounds v.address v.size a n (rw h.here h.fits) w (omega (arith, h.here))
        (omega (arith, h.here, h.sized))

-- The entry below an address: the log's and the memory's are at the same key.
abbrev pub Below : MemoryState → MemoryLog → ℕ → ℕ → MemoryAllocation → Log → Type 0
Below m s a k v l =
    (floor a m.allocations ≡ some (k, v)) × (floor a s.blocks ≡ some (k, l)) × Shows k v l

pub entry_inv {ℓ} :
    {A : Type ℓ} {j k : ℕ} {u v : A}
    → ◌≡◌ {A = Option (ℕ × A)} (some (j, u)) (some (k, v))
    → (j ≡ k) × (u ≡ v)
entry_inv e = (cc, cc)

RelatedEntry-some :
    (o : Option (ℕ × MemoryAllocation)) (p : Option (ℕ × Log)) (k : ℕ) (v : MemoryAllocation)
    → o ≡ some (k, v)
    → RelatedEntry Shows o p
    → (l : Log) × (p ≡ some (k, l)) × Shows k v l
RelatedEntry-some none p k v e r = absurd (cc e)
RelatedEntry-some (some d) none k v e r = absurd r
RelatedEntry-some (some (j, u)) (some (i, l)) k v e (ji, r) =
    let (same_k, same_v) = entry_inv e in
    (l, ground arith, subst (λ z. Shows z v l) same_k (subst (λ z. Shows j z l) same_v r))

RelatedEntry-some_back :
    (o : Option (ℕ × MemoryAllocation)) (p : Option (ℕ × Log)) (k : ℕ) (l : Log)
    → p ≡ some (k, l)
    → RelatedEntry Shows o p
    → (v : MemoryAllocation) × (o ≡ some (k, v)) × Shows k v l
RelatedEntry-some_back none none k l e r = absurd (cc e)
RelatedEntry-some_back none (some d) k l e r = absurd r
RelatedEntry-some_back (some d) none k l e r = absurd r
RelatedEntry-some_back (some (j, u)) (some (i, w)) k l e (ji, r) =
    let (same_k, same_l) = entry_inv e in
    (u, ground arith, subst (λ z. Shows z u l) (ji ∙ same_k) (subst (λ z. Shows j u z) same_l r))

check_inside_inv :
    (area : MemoryArea) (o : Option (ℕ × MemoryAllocation)) (k : ℕ) (v : MemoryAllocation)
    → check_inside area o ≡ some (k, v)
    → (o ≡ some (k, v)) × (is_inside v area ≡ true)
check_inside_inv area none k v e = absurd (cc e)
check_inside_inv area (some (j, u)) k v e = elim (Bool-cases (is_inside u area)) [
  | inl inside ↦
      let (ej, eu) = entry_inv (rw inside at e) in
      (rw inside at e, subst (λ z. is_inside z area ≡ true) eu inside)
  | inr outside ↦ absurd (cc (rw outside at e))
]

pub get_allocation_inv :
    (m : MemoryState) (a n k : ℕ) (v : MemoryAllocation)
    → get_allocation m (memory_area a n) ≡ some (k, v)
    → (floor a m.allocations ≡ some (k, v)) × (is_inside v (memory_area a n) ≡ true)
unfolding get_allocation
get_allocation_inv m a n k v e = elim (Bool-cases (is_empty m.allocations)) [
  | inl nothing ↦ absurd (cc (rw nothing at e))
  | inr more ↦ check_inside_inv (memory_area a n) (floor a m.allocations) k v (rw more at e)
]

pub floor-nonempty :
    (a : ℕ) (m : Map MemoryAllocation) (k : ℕ) (v : MemoryAllocation)
    → floor a m ≡ some (k, v)
    → is_empty m ≡ false
floor-nonempty a [] k v e = absurd (cc e)
floor-nonempty a (d ∷ m) k v e = refl

get_allocation_of_floor :
    (m : MemoryState) (a n k : ℕ) (v : MemoryAllocation)
    → floor a m.allocations ≡ some (k, v)
    → is_inside v (memory_area a n) ≡ true
    → get_allocation m (memory_area a n) ≡ some (k, v)
unfolding get_allocation
get_allocation_of_floor m a n k v e i = rw (floor-nonempty a m.allocations k v e, e, i)

module _ (m : MemoryState) (s : MemoryLog) (sh : ShowsMemory m s) (a : ℕ) where
  -- What stands below an address in the memory stands there in the log, and the other way round.
  pub floor-Below :
      (k : ℕ) (v : MemoryAllocation)
      → floor a m.allocations ≡ some (k, v)
      → (l : Log) × Below m s a k v l
  floor-Below k v e =
      let (l, el, r) =
        RelatedEntry-some (floor a m.allocations) (floor a s.blocks) k v e
          (Related-floor Shows a m.allocations s.blocks sh.current) in
      (l, (e, el, r))

  pub floor-Below_back :
      (k : ℕ) (l : Log)
      → floor a s.blocks ≡ some (k, l)
      → (v : MemoryAllocation) × Below m s a k v l
  floor-Below_back k l e =
      let (v, ev, r) =
        RelatedEntry-some_back (floor a m.allocations) (floor a s.blocks) k l e
          (Related-floor Shows a m.allocations s.blocks sh.current) in
      (v, (ev, e, r))

  -- A successful `getAllocation` found the entry below the address, and the area is inside it.
  pub get_allocation-Below :
      (n k : ℕ) (v : MemoryAllocation)
      → a + n < word
      → get_allocation m (memory_area a n) ≡ some (k, v)
      → (l : Log) × Below m s a k v l × (k ≤ a) × (a + n ≤ k + length l.cells)
  unfolding get_allocation
  get_allocation-Below n k v w e =
      let (found, inside) = get_allocation_inv m a n k v e in
      let (l, b) = floor-Below k v found in
      let (lo, hi) = Shows-is_inside k v l b.2 a n w inside in (l, b, lo, hi)

  -- Where the log has an entry below the address that holds the area, `getAllocation` returns it.
  pub get_allocation_of_Below :
      (n k : ℕ) (l : Log)
      → a + n < word
      → floor a s.blocks ≡ some (k, l)
      → k ≤ a
      → a + n ≤ k + length l.cells
      → (v : MemoryAllocation) × (get_allocation m (memory_area a n) ≡ some (k, v))
        × Below m s a k v l
  unfolding get_allocation
  get_allocation_of_Below n k l w e lo hi =
      let (v, b) = floor-Below_back k l e in
      (v, get_allocation_of_floor m a n k v b.0 (Shows-is_inside_of k v l b.2 a n w lo hi), b)
