-- ===== src/Memory/Tests.antt =====
-- Runs of the memory state, and the theorems at concrete inputs.
use seec.Common.{
  ℕ, ◌≡◌, refl, Option, none, some, List, [], ◌∷◌, true, false, arith, inl, replicate,
}
use seec.Interval.{memory_area}
use seec.Allocation.{MemoryAllocation, allocation, mapped_memory_block, full}
use seec.Allocation.Log.{empty_log}
use package.seec.Memory.{
  MemoryState, get_allocation, allocation_add, allocation_remove, allocation_resize, resize_forward,
  add_block, add_copy, add_clear, region_byte_values, region_byte_initialization,
  region_is_allocated, region_is_completely_initialized, region_is_partially_initialized,
  region_is_uninitialized,
}
use package.seec.Memory.View.{MemoryLog, ShowsMemory}
use package.seec.Memory.Edits.{
  Edit, AllInRange, adds, removes, clears, resizes, copies, blocks, run_forward, run_backward,
}
use package.seec.Memory.ReadBack.{add_block-region}
use package.seec.Memory.ReadBack.Copies.{add_copy-region}
use package.seec.Memory.RoundTrips.{Restored, run_backward-run_forward}

-- Eight bytes at address 16, not initialized.
abbrev fresh : MemoryState
fresh = record { allocations = (16, allocation 16 8) ∷ []; previous_allocations = [] }

abbrev fresh_log : MemoryLog
fresh_log = record { blocks = (16, empty_log 8) ∷ []; removed = [] }

fresh-ShowsMemory : ShowsMemory fresh fresh_log
fresh-ShowsMemory = record {
  sorted = (omega arith, tt);
  current = (
    refl,
    record {
      here = refl;
      sized = refl;
      fits = omega arith;
      shown = record {
        bytes_fill = refl;
        init_fill = refl;
        cells_shown = refl;
        undo_shown = (refl, refl, refl);
      };
    },
    tt,
  );
  past = tt;
}

abbrev the : Option MemoryState → MemoryState
the none = fresh
the (some m) = m

abbrev changes : List Edit
changes =
    blocks 16 (1 ∷ 2 ∷ 3 ∷ [])
    ∷ copies 16 19 3
    ∷ clears 17 2
    ∷ resizes 16 8 4
    ∷ adds 32 2
    ∷ removes 16 4
    ∷ []

in_range : AllInRange changes
in_range = (
  omega arith,
  (
    (omega arith, omega arith),
    (omega arith, ((omega arith, omega arith), (omega arith, (tt, tt)))),
  ),
)

run_backward-run_forward_example :
    Restored fresh fresh_log (run_backward changes (the (run_forward changes fresh)))
unfolding get_allocation add_block add_copy add_clear allocation_resize resize_forward
    allocation_add allocation_remove seec.Allocation.add_block seec.Allocation.get_area_data
    seec.Allocation.get_area_initialization seec.Allocation.add_area
run_backward-run_forward_example =
    run_backward-run_forward fresh fresh_log fresh-ShowsMemory (the (run_forward changes fresh))
      changes in_range refl

abbrev three : List ℕ
three = 1 ∷ 2 ∷ 3 ∷ []

abbrev filled : MemoryState
unfolding add_block get_allocation
filled = the (add_block fresh (mapped_memory_block 17 three))

add_block-region_example :
    (region_byte_values filled (memory_area 17 3) ≡ some three)
    × (region_byte_initialization filled (memory_area 17 3) ≡ some (replicate 3 full))
unfolding get_allocation add_block seec.Allocation.add_block
add_block-region_example =
    add_block-region fresh fresh_log 17 three filled fresh-ShowsMemory (omega arith) refl

add_copy-region_example :
    (region_byte_values (the (add_copy fresh 16 20 3)) (memory_area 20 3)
      ≡ region_byte_values fresh (memory_area 16 3))
    × (region_byte_initialization (the (add_copy fresh 16 20 3)) (memory_area 20 3)
        ≡ region_byte_initialization fresh (memory_area 16 3))
unfolding get_allocation add_copy seec.Allocation.get_area_data
    seec.Allocation.get_area_initialization seec.Allocation.add_area
add_copy-region_example =
    add_copy-region fresh fresh_log 16 20 3 (the (add_copy fresh 16 20 3)) fresh-ShowsMemory
      (omega arith) (omega arith) (inl (omega arith)) refl

-- A copy onto an area that overlaps its source is undefined behaviour.
add_copy_overlapping : add_copy filled 17 18 3 ≡ none
unfolding add_block get_allocation add_copy seec.Allocation.add_block seec.Allocation.get_area_data
    seec.Allocation.get_area_initialization seec.Allocation.add_area
add_copy_overlapping = refl

-- The bytes of a cleared area keep their values.
add_clear_keeps_values :
    region_byte_values (the (add_clear filled (memory_area 17 2))) (memory_area 17 3) ≡ some three
unfolding add_block get_allocation add_clear region_byte_values seec.Allocation.add_block
add_clear_keeps_values = refl

region_runs :
    (region_is_allocated filled (memory_area 20 5) ≡ false)
    × (region_is_completely_initialized filled (memory_area 17 3) ≡ some true)
    × (region_is_partially_initialized filled (memory_area 16 4) ≡ some true)
    × (region_is_uninitialized filled (memory_area 20 4) ≡ some true)
unfolding add_block get_allocation region_is_allocated region_is_completely_initialized
    region_is_partially_initialized region_is_uninitialized seec.Allocation.add_block
region_runs = (refl, refl, refl, refl)
