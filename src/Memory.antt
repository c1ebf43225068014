-- ===== src/Memory.antt =====
-- class MemoryState and class MemoryStateRegion of include/seec/Trace/MemoryState.hpp and
-- lib/Trace/MemoryState.cpp: the allocations by start address, and the stack of those that were
-- removed, its top at the head of the list. An operation that asserts returns an option; a
-- `nullptr` of `findAllocation` is `none` too.
pub mod View
pub mod Lookup
pub mod Reversible
pub mod Edits
pub mod ReadBack
pub mod RoundTrips
mod Tests
use seec.Common.{
  leb, ◌||◌, ℕ, ◌+◌, ◌-◌, ◌%◌, Bool, true, false, not, Option, none, some, List, [], ◌∷◌, ◌==◌, ltb,
  if◌then◌else◌, assert, ◌>>=◌, ◌>>◌, is_empty, any_of,
}
use seec.Common.Slices.{read}
use seec.Interval.{word, MemoryArea, memory_area, address, area_length, contains, contains_interval}
use seec.StdMap.{Map, find, has, insert, erase, assign, floor}
use seec.Allocation
use seec.Allocation.{
  MemoryAllocation, allocation, own_area, is_inside, get_area_data, get_area_initialization,
  all_complete, all_clear, clear_area, rewind_area, add_area, resize, MappedMemoryBlock, ArrayRef,
}

pub record MemoryState : Type 0 where
  pub allocations : Map MemoryAllocation
  pub previous_allocations : List MemoryAllocation

abbrev pub empty_memory : MemoryState
empty_memory = record { allocations = []; previous_allocations = [] }

-- The assertion of both `getAllocation`s, on the entry before the upper bound.
abbrev pub check_inside : MemoryArea → Option (ℕ × MemoryAllocation) → Option (ℕ × MemoryAllocation)
check_inside area none = none
check_inside area (some (k, a)) = assert (is_inside a area) >> some (k, a)

-- `getAllocation`: the key and the value of the entry that it refers to.
unfoldable pub get_allocation : MemoryState → MemoryArea → Option (ℕ × MemoryAllocation)
get_allocation m area =
    assert (not (is_empty m.allocations)) >> check_inside area (floor (address area) m.allocations)

abbrev pub find_inside : ℕ → Option (ℕ × MemoryAllocation) → Option MemoryAllocation
find_inside at_address none = none
find_inside at_address (some (k, a)) =
    if contains (own_area a).range at_address then some a else none

unfoldable pub find_allocation : MemoryState → ℕ → Option MemoryAllocation
find_allocation m at_address =
    if is_empty m.allocations then none else find_inside at_address (floor at_address m.allocations)

unfoldable pub allocation_add : MemoryState → ℕ → ℕ → Option MemoryState
allocation_add m a n =
    if n == 0
    then some m
    else assert (not (has a m.allocations))
      >> some (record m { allocations = insert a (allocation a n) m.allocations })

unfoldable pub allocation_remove : MemoryState → ℕ → ℕ → Option MemoryState
allocation_remove m a n =
    if n == 0
    then some m
    else (find a m.allocations >>= λ v. some (record {
      allocations = erase a m.allocations;
      previous_allocations = v ∷ m.previous_allocations;
    }))

-- `getAllocation(Area)` followed by a mutation of the allocation that it refers to.
abbrev pub with_allocation :
    MemoryState → MemoryArea → (MemoryAllocation → Option MemoryAllocation) → Option MemoryState
with_allocation m area f = get_allocation m area >>= λ (k, v).
    f v >>= λ w. some (record m { allocations = assign k w m.allocations })

-- What `allocationResize` does to the allocation.
unfoldable pub resize_forward : ℕ → ℕ → ℕ → MemoryAllocation → Option MemoryAllocation
resize_forward a current new v =
    assert (v.size == current)
    >> ((if ltb new current
          then clear_area v (memory_area ((a + new) % word) (current - new))
          else some v)
        >>= λ w. some (resize w new))

unfoldable pub allocation_resize : MemoryState → ℕ → ℕ → ℕ → Option MemoryState
unfolding allocation_add allocation_remove
allocation_resize m a current new =
    if current == 0
    then allocation_add m a new
    else (if new == 0
        then allocation_remove m a current
        else with_allocation m (memory_area a current) (resize_forward a current new))

abbrev pub unremove_top : MemoryState → ℕ → List MemoryAllocation → Option MemoryState
unremove_top m a [] = none
unremove_top m a (top ∷ rest) =
    assert (top.address == a)
    >> (assert (not (has a m.allocations))
        >> some (record { allocations = insert a top m.allocations; previous_allocations = rest }))

unfoldable pub allocation_unremove : MemoryState → ℕ → ℕ → Option MemoryState
allocation_unremove m a n = if n == 0 then some m else unremove_top m a m.previous_allocations

unfoldable pub allocation_unadd : MemoryState → ℕ → ℕ → Option MemoryState
allocation_unadd m a n =
    if n == 0
    then some m
    else (find a m.allocations >>= λ v. some (record m { allocations = erase a m.allocations }))

-- What `allocationUnresize` does to the allocation.
unfoldable pub resize_backward : ℕ → ℕ → ℕ → MemoryAllocation → Option MemoryAllocation
resize_backward a current new v =
    assert (v.size == current)
    >> (if ltb current new
        then rewind_area (resize v new) (memory_area ((a + current) % word) (new - current))
        else some (resize v new))

unfoldable pub allocation_unresize : MemoryState → ℕ → ℕ → ℕ → Option MemoryState
unfolding allocation_unremove allocation_unadd
allocation_unresize m a current new =
    if current == 0
    then allocation_unremove m a new
    else (if new == 0
        then allocation_unadd m a current
        else with_allocation m (memory_area a current) (resize_backward a current new))

unfoldable pub add_block : MemoryState → MappedMemoryBlock → Option MemoryState
unfolding get_allocation
add_block m block = with_allocation m block.area (λ v. Allocation.add_block v block)

unfoldable pub remove_block : MemoryState → MemoryArea → Option MemoryState
unfolding get_allocation
remove_block m area = with_allocation m area (λ v. rewind_area v area)

-- The references into the source allocation. Where the destination is the same allocation
-- (the keys agree), they see what `addArea` has done to it.
abbrev pub source_ref :
    (MemoryAllocation → List ℕ) → Bool → MemoryAllocation → MemoryArea → ArrayRef
source_ref vector same source area = record {
  count = area_length area;
  view = λ changed.
      read (address area - source.address) (area_length area)
        (vector (if same then changed else source));
  apart = λ to.
      if same
      then leb (address area + area_length area) to || leb (to + area_length area) (address area)
      else true;
}

unfoldable pub add_copy : MemoryState → ℕ → ℕ → ℕ → Option MemoryState
unfolding get_allocation
add_copy m source destination n = do
  let area = memory_area source n
  (ks, sa) ← get_allocation m area
  (kd, da) ← get_allocation m (memory_area destination n)
  _ ← get_area_data sa area
  _ ← get_area_initialization sa area
  v ←
      add_area da destination (source_ref (λ c. c.bytes) (ks == kd) sa area)
        (source_ref (λ c. c.init) (ks == kd) sa area)
  some (record m { allocations = assign kd v m.allocations })

unfoldable pub remove_copy : MemoryState → ℕ → ℕ → ℕ → Option MemoryState
unfolding get_allocation
remove_copy m source destination n =
    with_allocation m (memory_area destination n) (λ v. rewind_area v (memory_area destination n))

-- The common part of `addClear` and `removeClear`: nothing happens to an area that no allocation
-- contains.
abbrev pub where_allocated :
    MemoryState
    → MemoryArea
    → (MemoryAllocation → Option MemoryAllocation)
    → Option (ℕ × MemoryAllocation)
    → Option MemoryState
where_allocated m area f none = some m
where_allocated m area f (some (k, v)) =
    if is_inside v area
    then (f v >>= λ w. some (record m { allocations = assign k w m.allocations }))
    else some m

unfoldable pub add_clear : MemoryState → MemoryArea → Option MemoryState
add_clear m area =
    if is_empty m.allocations
    then some m
    else where_allocated m area (λ v. clear_area v area) (floor (address area) m.allocations)

unfoldable pub remove_clear : MemoryState → MemoryArea → Option MemoryState
remove_clear m area =
    if is_empty m.allocations
    then some m
    else where_allocated m area (λ v. rewind_area v area) (floor (address area) m.allocations)

-- class MemoryStateRegion: a state and an area of it.
unfoldable pub region_is_allocated : MemoryState → MemoryArea → Bool
unfolding find_allocation
region_is_allocated m area = elim (find_allocation m (address area)) [
  | none ↦ false
  | some v ↦ is_inside v area
]

-- The bytes that `getByteInitialization` and `getByteValues` refer to: none where no allocation
-- contains the area.
unfoldable pub region_byte_initialization : MemoryState → MemoryArea → Option (List ℕ)
unfolding find_allocation get_area_initialization
region_byte_initialization m area = elim (find_allocation m (address area)) [
  | none ↦ some []
  | some v ↦ if is_inside v area then get_area_initialization v area else some []
]

unfoldable pub region_byte_values : MemoryState → MemoryArea → Option (List ℕ)
unfolding find_allocation get_area_data
region_byte_values m area = elim (find_allocation m (address area)) [
  | none ↦ some []
  | some v ↦ if is_inside v area then get_area_data v area else some []
]

unfoldable pub region_is_completely_initialized : MemoryState → MemoryArea → Option Bool
unfolding region_byte_initialization
region_is_completely_initialized m area = region_byte_initialization m area >>= λ is.
    some (if is_empty is then false else all_complete is)

unfoldable pub region_is_partially_initialized : MemoryState → MemoryArea → Option Bool
unfolding region_byte_initialization
region_is_partially_initialized m area = region_byte_initialization m area >>= λ is.
    some (if is_empty is then false else any_of (λ c. not (c == 0)) is)

unfoldable pub region_is_uninitialized : MemoryState → MemoryArea → Option Bool
unfolding region_byte_initialization
region_is_uninitialized m area = region_byte_initialization m area >>= λ is. some (all_clear is)
