-- ===== src/TraceMemory/Tests.antt =====
-- Runs of the shadow memory, and the theorems at concrete inputs.
use seec.Common.{ℕ, ◌≡◌, refl, true, false, Option, none, some, List, [], ◌∷◌, arith}
use seec.Interval.{memory_area}
use seec.StdMap.Related.{Related}
use seec.Allocation.{allocation, mapped_memory_block}
use seec.Memory.{
  MemoryState, add_block, add_clear, allocation_add, allocation_remove,
  region_is_completely_initialized,
}
use package.seec.TraceMemory.{
  TraceMemoryState, trace_memory_allocation, add, clear, memmove, has_known_state,
  get_length_of_known_state, add_allocation, remove_allocation, resize_allocation,
  find_allocation_containing,
}
use package.seec.TraceMemory.Agreement.{Mirrors, add-add_block-Mirrors}
use package.seec.TraceMemory.Known.{has_known_state-region_is_completely_initialized}
use package.seec.TraceMemory.Clearing.{clear-add_clear-Mirrors}
use package.seec.TraceMemory.Allocating.{
  add_allocation-allocation_add-Mirrors, remove_allocation-allocation_remove-Mirrors,
}

abbrev written : TraceMemoryState
written = (16, trace_memory_allocation 16 4) ∷ []

abbrev read_back : MemoryState
read_back = record { allocations = (16, allocation 16 4) ∷ []; previous_allocations = [] }

agreed : Related Mirrors written read_back.allocations
agreed = (
  refl,
  record {
    writer_here = refl;
    reader_here = refl;
    same_length = refl;
    fits = omega arith;
    same_init = refl;
  },
  tt,
)

abbrev the_writer : Option TraceMemoryState → TraceMemoryState
the_writer none = written
the_writer (some t) = t

abbrev the_reader : Option MemoryState → MemoryState
the_reader none = read_back
the_reader (some m) = m

abbrev two : List ℕ
two = 7 ∷ 8 ∷ []

add-add_block-Mirrors_example :
    Related Mirrors
      (the_writer (add written 17 2))
      (the_reader (add_block read_back (mapped_memory_block 17 two))).allocations
unfolding add add_block seec.Allocation.add_block
add-add_block-Mirrors_example =
    add-add_block-Mirrors written (the_writer (add written 17 2)) read_back
      (the_reader (add_block read_back (mapped_memory_block 17 two))) 17 two agreed (omega arith)
      refl refl

has_known_state-region_is_completely_initialized_example :
    region_is_completely_initialized read_back (memory_area 17 2) ≡ some false
unfolding has_known_state
has_known_state-region_is_completely_initialized_example =
    has_known_state-region_is_completely_initialized written read_back 17 2 false agreed
      (omega arith) (omega arith) refl

add_allocation-allocation_add-Mirrors_example :
    Related Mirrors
      (the_writer (add_allocation written 32 2))
      (the_reader (allocation_add read_back 32 2)).allocations
unfolding add_allocation allocation_add
add_allocation-allocation_add-Mirrors_example =
    add_allocation-allocation_add-Mirrors written (the_writer (add_allocation written 32 2))
      read_back (the_reader (allocation_add read_back 32 2)) 32 2 agreed (omega arith) (omega arith)
      refl refl

remove_allocation-allocation_remove-Mirrors_example :
    Related Mirrors
      (the_writer (remove_allocation written 16))
      (the_reader (allocation_remove read_back 16 4)).allocations
unfolding remove_allocation allocation_remove
remove_allocation-allocation_remove-Mirrors_example =
    remove_allocation-allocation_remove-Mirrors written (the_writer (remove_allocation written 16))
      read_back (the_reader (allocation_remove read_back 16 4)) 16 4 agreed (omega arith) refl refl

-- A move onto an overlapping area keeps what is known of the common bytes.
shadow_runs :
    (has_known_state (the_writer (memmove (the_writer (add written 16 2)) 16 17 2)) 16 3
      ≡ some true)
    × (get_length_of_known_state (the_writer (clear (the_writer (add written 16 4)) 18 1)) 16 4
        ≡ some 2)
    × (find_allocation_containing (the_writer (resize_allocation written 16 2)) 18 ≡ none)
unfolding add memmove clear has_known_state get_length_of_known_state find_allocation_containing
    resize_allocation
shadow_runs = (refl, refl, refl)

clear-add_clear-Mirrors_example :
    Related Mirrors
      (the_writer (clear written 17 2))
      (the_reader (add_clear read_back (memory_area 17 2))).allocations
unfolding clear add_clear seec.Allocation.clear_area
clear-add_clear-Mirrors_example =
    clear-add_clear-Mirrors written (the_writer (clear written 17 2)) read_back
      (the_reader (add_clear read_back (memory_area 17 2))) 17 2 agreed (omega arith) refl refl
