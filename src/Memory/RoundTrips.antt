-- ===== src/Memory/RoundTrips.antt =====
-- Each forward mutator of the memory, followed by its backward mutator.
use seec.Common.{ℕ, ◌+◌, ◌<◌, ◌≡◌, Option, some, List, length}
use seec.Interval.{word, memory_area}
use seec.Allocation.{mapped_memory_block}
use package.seec.Memory.{
  MemoryState, allocation_remove, allocation_unremove, add_block, remove_block, add_clear,
  remove_clear,
}
use package.seec.Memory.View.{MemoryLog, ShowsMemory}
use package.seec.Memory.Reversible.{Reverses}
use package.seec.Memory.Edits.{Edit, AllInRange, run_forward, run_backward, run_forward-Reverses}
use package.seec.Memory.Edits.Observed.{
  SameRegions, region_byte_initialization-agree, region_shown-agree,
}
use package.seec.Memory.Reversible.Allocating.{allocation_remove-Reverses}
use package.seec.Memory.Reversible.Writing.{add_block-Reverses}
use package.seec.Memory.Reversible.Clearing.{add_clear-Reverses}

-- The result shows the log `s` again, and every region of it is as in `m`.
abbrev pub Restored : MemoryState → MemoryLog → Option MemoryState → Type 0
Restored m s result = (n : MemoryState) × (result ≡ some n) × ShowsMemory n s × SameRegions n m

module _ (m : MemoryState) (s : MemoryLog) (sh : ShowsMemory m s) (m' : MemoryState) where
  pub restored :
      (o : Option MemoryState) (g : MemoryState → Option MemoryState)
      → Reverses s o g
      → o ≡ some m'
      → Restored m s (g m')
  restored o g r e =
      let (s', sh', back) = r m' e in
      let (n, en, shn) = back m' sh' in
      (
        n,
        en,
        shn,
        λ area. (
          region_byte_initialization-agree n m s shn sh area,
          region_shown-agree n m s shn sh area,
        ),
      )

  -- From a memory that shows a log, going forward through a sequence of changes that succeeds and
  -- whose areas end before the end of the address space, and then backward through it, succeeds:
  -- the result shows the same log, and every region of it has the initialization and the
  -- initialized bytes that it had at the start; bytes that are not initialized may differ.
  pub run_backward-run_forward :
      (es : List Edit)
      → AllInRange es
      → run_forward es m ≡ some m'
      → Restored m s (run_backward es m')
  run_backward-run_forward es w e =
      restored (run_forward es m) (run_backward es) (run_forward-Reverses es m s sh w) e

  -- A block that was added is removed by `removeBlock` of its area.
  pub remove_block-add_block :
      (a : ℕ) (ds : List ℕ)
      → a + length ds < word
      → add_block m (mapped_memory_block a ds) ≡ some m'
      → Restored m s (remove_block m' (memory_area a (length ds)))
  remove_block-add_block a ds w e =
      restored (add_block m (mapped_memory_block a ds))
        (λ x. remove_block x (memory_area a (length ds))) (add_block-Reverses m s sh a ds w) e

  -- A clear that succeeds is undone by `removeClear`, also where no allocation holds the area.
  pub remove_clear-add_clear :
      (a n : ℕ)
      → a + n < word
      → add_clear m (memory_area a n) ≡ some m'
      → Restored m s (remove_clear m' (memory_area a n))
  remove_clear-add_clear a n w e =
      restored (add_clear m (memory_area a n)) (λ x. remove_clear x (memory_area a n))
        (add_clear-Reverses m s sh a n w) e

  -- A removal of an allocation that succeeds is undone by `allocationUnremove`, which brings back
  -- its bytes, its initialization and its undo stacks.
  pub allocation_unremove-allocation_remove :
      (a n : ℕ) → allocation_remove m a n ≡ some m' → Restored m s (allocation_unremove m' a n)
  allocation_unremove-allocation_remove a n e =
      restored (allocation_remove m a n) (λ x. allocation_unremove x a n)
        (allocation_remove-Reverses m s sh a n) e
