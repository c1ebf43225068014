-- ===== src/Allocation/Tests.antt =====
-- Runs of an allocation, and the theorems at concrete inputs.
use seec.Common.{ℕ, refl, List, [], ◌∷◌, arith, replicate}
use seec.Common.Slices.{zip_with}
use seec.Interval.{memory_area}
use package.seec.Allocation.{
  MemoryAllocation, allocation, clear_area, add_block, resize, full, mapped_memory_block,
}
use package.seec.Allocation.Log.{cell, empty_log, erase_range, put_range, resize_log}
use package.seec.Allocation.Refine.{Represents}
use package.seec.Allocation.Refine.Change.{
  Inside, Becomes, clear_area-Represents, add_block-Represents, resize-Represents,
}

abbrev fresh : MemoryAllocation
fresh = allocation 16 8

fresh-Represents : Represents fresh (empty_log 8)
fresh-Represents = record {
  bytes_fill = refl;
  init_fill = refl;
  cells_shown = refl;
  undo_shown = (refl, refl, refl);
}

middle : Inside fresh 18 3
middle = record {
  nonempty = omega arith;
  from = omega arith;
  until = omega arith;
  no_wrap = omega arith;
}

clear_area-Represents_example :
    Becomes fresh (clear_area fresh (memory_area 18 3)) (erase_range 2 3 (empty_log 8))
clear_area-Represents_example =
    clear_area-Represents fresh 18 3 middle (empty_log 8) fresh-Represents

abbrev three : List ℕ
three = 1 ∷ 2 ∷ 3 ∷ []

add_block-Represents_example :
    Becomes fresh
      (add_block fresh (mapped_memory_block 18 three))
      (put_range 2 (zip_with cell three (replicate 3 full)) (empty_log 8))
add_block-Represents_example =
    add_block-Represents fresh 18 3 middle (empty_log 8) three refl fresh-Represents

resize-Represents_example : Represents (resize fresh 4) (resize_log 4 (empty_log 8))
resize-Represents_example = resize-Represents fresh 4 (empty_log 8) fresh-Represents
