-- ===== src/TraceMemory/Allocating.antt =====
-- Allocations that the writer and the reader add and remove.
use seec.Common.{
  ℕ, zero, suc, ◌+◌, ◌<◌, ◌≡◌, refl, ap, false, not, some, ◌==◌, >>=-eq-some, some-injective, subst,
  arith, replicate, length-replicate, assert, ◌∷◌,
}
use seec.Interval.{word}
use seec.StdMap.{find, has, insert, erase}
use seec.StdMap.Related.{Related, Related-insert, Related-erase}
use seec.Allocation.{allocation}
use seec.Memory.{MemoryState, allocation_add, allocation_remove}
use package.seec.TraceMemory.{
  TraceMemoryState, trace_memory_allocation, add_allocation, remove_allocation, uninitialized_byte,
}
use package.seec.TraceMemory.Agreement.{Mirrors, initialization}

pub initialization-fresh : (n : ℕ) → replicate n 0 ≡ initialization (replicate n uninitialized_byte)
initialization-fresh zero = refl
initialization-fresh (suc n) = ap (◌∷◌ 0) (initialization-fresh n)

fresh-Mirrors : (a n : ℕ) → a + n < word → Mirrors a (trace_memory_allocation a n) (allocation a n)
fresh-Mirrors a n w = record {
  writer_here = refl;
  reader_here = refl;
  same_length = length-replicate n uninitialized_byte;
  fits = w;
  same_init = initialization-fresh n;
}

-- The writer's `addAllocation` and the reader's `allocationAdd` of the same area, which is not
-- empty, keep the two in agreement where both succeed.
pub add_allocation-allocation_add-Mirrors :
    (t t' : TraceMemoryState) (m m' : MemoryState) (a n : ℕ)
    → Related Mirrors t m.allocations
    → a + n < word
    → 0 < n
    → add_allocation t a n ≡ some t'
    → allocation_add m a n ≡ some m'
    → Related Mirrors t' m'.allocations
unfolding add_allocation allocation_add
add_allocation-allocation_add-Mirrors t t' m m' a n r w positive et em =
    let sized : (n == 0) ≡ false = ground (arith, positive) in
    let (_, _, e1) = >>=-eq-some (assert (not (has a t))) _ et in
    let (_, _, e2) = >>=-eq-some (assert (not (has a m.allocations))) _ (rw sized at em) in
    subst (λ x. Related Mirrors t' x) (ap (λ x. x.allocations) (some-injective _ _ e2))
      (subst (λ x. Related Mirrors x (insert a (allocation a n) m.allocations))
        (some-injective _ _ e1)
        (Related-insert Mirrors a (trace_memory_allocation a n) (allocation a n) t m.allocations
          (fresh-Mirrors a n w) r))

-- So do the writer's `removeAllocation` and the reader's `allocationRemove` of an area that is not
-- empty.
pub remove_allocation-allocation_remove-Mirrors :
    (t t' : TraceMemoryState) (m m' : MemoryState) (a n : ℕ)
    → Related Mirrors t m.allocations
    → 0 < n
    → remove_allocation t a ≡ some t'
    → allocation_remove m a n ≡ some m'
    → Related Mirrors t' m'.allocations
unfolding remove_allocation allocation_remove
remove_allocation-allocation_remove-Mirrors t t' m m' a n r positive et em =
    let sized : (n == 0) ≡ false = ground (arith, positive) in
    let (_, _, e1) = >>=-eq-some (assert (has a t)) _ et in
    let (_, _, e2) = >>=-eq-some (find a m.allocations) _ (rw sized at em) in
    subst (λ x. Related Mirrors t' x) (ap (λ x. x.allocations) (some-injective _ _ e2))
      (subst (λ x. Related Mirrors x (erase a m.allocations)) (some-injective _ _ e1)
        (Related-erase Mirrors a t m.allocations r))
