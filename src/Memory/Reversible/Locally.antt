-- ===== src/Memory/Reversible/Locally.antt =====
-- A mutation of the allocation that contains an area is undone where it is undone at the
-- allocation itself.
use seec.Common.{
  ℕ, ◌+◌, ◌≤◌, ◌<◌, ◌≡◌, refl, Option, some, >>=-eq-some, some-injective, length, subst,
}
use seec.Interval.{word, memory_area}
use seec.StdMap.{assign, floor}
use seec.StdMap.Laws.{assign-Above, assign-assign, assign-find}
use seec.StdMap.Floor.{floor-find, floor-assign}
use seec.StdMap.Related.{Related, Related-assign}
use seec.Allocation.{MemoryAllocation}
use seec.Allocation.Log.{Log}
use package.seec.Memory.{MemoryState, get_allocation, with_allocation}
use package.seec.Memory.View.{Shows, MemoryLog, ShowsMemory}
use package.seec.Memory.Lookup.{get_allocation-Below, get_allocation_of_Below}
use package.seec.Memory.Reversible.{Undoes, Reverses, UndoesAt}

-- Assigning a related allocation keeps the memory showing its log.
pub assign-ShowsMemory :
    (m : MemoryState) (s : MemoryLog) (k : ℕ) (v : MemoryAllocation) (l : Log)
    → Shows k v l
    → ShowsMemory m s
    → ShowsMemory
        (record m { allocations = assign k v m.allocations })
        (record s { blocks = assign k l s.blocks })
assign-ShowsMemory m s k v l r sh = record {
  sorted = assign-Above k l 0 s.blocks sh.sorted;
  current = Related-assign Shows k v l m.allocations s.blocks r sh.current;
  past = sh.past;
}

module _ (m : MemoryState) (s : MemoryLog) (sh : ShowsMemory m s) (a : ℕ) where
  -- An allocation changed at its key, and changed back, in whatever memory shows the result.
  pub changed_at :
      (n' k : ℕ) (l l' : Log) (v' : MemoryAllocation)
      (g : MemoryAllocation → Option MemoryAllocation)
      → a + n' < word
      → floor a s.blocks ≡ some (k, l)
      → k ≤ a
      → a + n' ≤ k + length l'.cells
      → Shows k v' l'
      → UndoesAt k l l' g
      → (s' : MemoryLog) × ShowsMemory (record m { allocations = assign k v' m.allocations }) s'
        × Undoes s s' (λ x. with_allocation x (memory_area a n') g)
  changed_at n' k l l' v' g w fl lo hi r undo = (
    record s { blocks = assign k l' s.blocks },
    assign-ShowsMemory m s k v' l' r sh,
    λ x shx.
        let (u, eu, b) =
          get_allocation_of_Below x (record s { blocks = assign k l' s.blocks }) shx a n' k l' w
            (floor-assign a k 0 l l' s.blocks sh.sorted fl) lo hi in
        let (z, ez, rz) = undo u b.2 in
        (
          record x { allocations = assign k z x.allocations },
          rw (eu, ez) refl,
          record {
            sorted = sh.sorted;
            current =
                subst (Related Shows (assign k z x.allocations)) back_again
                  (Related-assign Shows k z l x.allocations (assign k l' s.blocks) rz shx.current);
            past = shx.past;
          },
        ),
  )
    where
      back_again : assign k l (assign k l' s.blocks) ≡ s.blocks
      back_again =
          rw (assign-assign k l l' s.blocks)
            (assign-find k l s.blocks (floor-find a 0 s.blocks k l sh.sorted fl).0)

  -- `getAllocation(Area)` and a mutation `f`, undone by `getAllocation` and `g`.
  pub with_allocation-Reverses :
      (n n' : ℕ) (f g : MemoryAllocation → Option MemoryAllocation)
      → a + n < word
      → a + n' < word
      → ((k : ℕ) (v : MemoryAllocation) (l : Log)
          → Shows k v l
          → k ≤ a
          → a + n ≤ k + length l.cells
          → (v' : MemoryAllocation) → f v ≡ some v'
          → (l' : Log) × Shows k v' l' × (a + n' ≤ k + length l'.cells) × UndoesAt k l l' g)
      → Reverses s
          (with_allocation m (memory_area a n) f)
          (λ x. with_allocation x (memory_area a n') g)
  with_allocation-Reverses n n' f g w w' local m' e =
      let ((k, v), ge, e1) = >>=-eq-some (get_allocation m (memory_area a n)) _ e in
      let (v', fe, e2) = >>=-eq-some (f v) _ e1 in
      let (l, b, lo, hi) = get_allocation-Below m s sh a n k v w ge in
      let (l', r, hi', undo) = local k v l b.2 lo hi v' fe in
      let (s', sh', back) = changed_at n' k l l' v' g w' b.1 lo hi' r undo in
      (s', subst (λ x. ShowsMemory x s') (some-injective _ _ e2) sh', back)
