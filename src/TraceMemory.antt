-- ===== src/TraceMemory.antt =====
-- class TraceMemoryAllocation and class TraceMemoryState of include/seec/Trace/TraceMemory.hpp and
-- lib/Trace/TraceMemory.cpp: the writer's shadow memory, which knows of each byte of the traced
-- program whether it is initialized. A shadow byte is 255 where its byte is not initialized
-- (`~0`) and 0 where it is. A failed assertion or a null pointer is `none`.
pub mod Agreement
pub mod Known
pub mod Allocating
pub mod Clearing
mod Tests
use seec.Common.{
  ℕ, zero, suc, ◌-◌, Bool, true, false, not, ◌&&◌, Option, none, some, List, [], ◌∷◌, ◌++◌, ◌==◌,
  leb, ltb, if◌then◌else◌, assert, ◌>>=◌, ◌>>◌, length, take, replicate, all_of,
}
use seec.Common.Slices.{read, write}
use seec.Interval.{MemoryArea, memory_area, contains, contains_interval}
use seec.StdMap.{Map, find, has, insert, erase, assign, floor}

abbrev pub uninitialized_byte : ℕ
uninitialized_byte = 255

abbrev pub initialized_byte : ℕ
initialized_byte = 0

pub record TraceMemoryAllocation : Type 0 where
  pub address : ℕ
  pub shadow : List ℕ

-- The constructor.
abbrev pub trace_memory_allocation : ℕ → ℕ → TraceMemoryAllocation
trace_memory_allocation a n = record { address = a; shadow = replicate n uninitialized_byte }

abbrev pub get_area : TraceMemoryAllocation → MemoryArea
get_area a = memory_area a.address (length a.shadow)

-- `getShadowAt`: the index that its pointer leads to.
unfoldable pub get_shadow_at : TraceMemoryAllocation → ℕ → Option ℕ
get_shadow_at a at_address =
    assert (leb a.address at_address)
    >> (assert (ltb (at_address - a.address) (length a.shadow)) >> some (at_address - a.address))

-- `resize` of one allocation.
unfoldable pub resize_shadow : TraceMemoryAllocation → ℕ → TraceMemoryAllocation
resize_shadow a n = record a {
  shadow = take n a.shadow ++ replicate (n - length a.shadow) uninitialized_byte;
}

abbrev pub TraceMemoryState : Type 0
TraceMemoryState = Map TraceMemoryAllocation

unfoldable pub get_allocation_at_or_preceding :
    TraceMemoryState → ℕ → Option (ℕ × TraceMemoryAllocation)
get_allocation_at_or_preceding m a = floor a m

abbrev pub check_containing :
    ℕ → ℕ → Option (ℕ × TraceMemoryAllocation) → Option (ℕ × TraceMemoryAllocation)
check_containing a n none = none
check_containing a n (some (k, v)) =
    assert (contains_interval (get_area v).range (memory_area a n).range) >> some (k, v)

unfoldable pub get_allocation_containing :
    TraceMemoryState → ℕ → ℕ → Option (ℕ × TraceMemoryAllocation)
unfolding get_allocation_at_or_preceding
get_allocation_containing m a n = check_containing a n (get_allocation_at_or_preceding m a)

-- `std::fill_n` from an address on, in the allocation that contains the area.
abbrev pub fill : TraceMemoryState → ℕ → ℕ → ℕ → Option TraceMemoryState
fill m a n byte = do
  (k, v) ← get_allocation_containing m a n
  i ← get_shadow_at v a
  some (assign k (record v { shadow = write i (replicate n byte) v.shadow }) m)

unfoldable pub add : TraceMemoryState → ℕ → ℕ → Option TraceMemoryState
unfolding get_allocation_containing get_shadow_at
add m a n = fill m a n initialized_byte

unfoldable pub clear : TraceMemoryState → ℕ → ℕ → Option TraceMemoryState
unfolding get_allocation_containing get_shadow_at
clear m a n = fill m a n uninitialized_byte

-- The `memcpy` of the shadow reads its source whole before it writes.
unfoldable pub memmove : TraceMemoryState → ℕ → ℕ → ℕ → Option TraceMemoryState
unfolding get_allocation_containing get_shadow_at
memmove m source destination n = do
  (ks, sa) ← get_allocation_containing m source n
  (kd, da) ← get_allocation_containing m destination n
  j ← get_shadow_at da destination
  i ← get_shadow_at sa source
  some (assign kd (record da { shadow = write j (read i n sa.shadow) da.shadow }) m)

unfoldable pub has_known_state : TraceMemoryState → ℕ → ℕ → Option Bool
unfolding get_allocation_containing get_shadow_at
has_known_state m a n = do
  (k, v) ← get_allocation_containing m a n
  i ← get_shadow_at v a
  some (all_of (λ c. c == initialized_byte) (read i n v.shadow))

-- The distance to the first byte that is not initialized, or to the end.
abbrev pub known_prefix : List ℕ → ℕ
known_prefix [] = 0
known_prefix (c ∷ cs) = let rest = known_prefix cs in if c == initialized_byte then suc rest else 0

unfoldable pub get_length_of_known_state : TraceMemoryState → ℕ → ℕ → Option ℕ
unfolding get_allocation_containing get_shadow_at
get_length_of_known_state m a max_length = do
  (k, v) ← get_allocation_containing m a max_length
  i ← get_shadow_at v a
  some (known_prefix (read i max_length v.shadow))

abbrev pub find_containing : ℕ → Option (ℕ × TraceMemoryAllocation) → Option TraceMemoryAllocation
find_containing a none = none
find_containing a (some (k, v)) = if contains (get_area v).range a then some v else none

unfoldable pub find_allocation_containing : TraceMemoryState → ℕ → Option TraceMemoryAllocation
unfolding get_allocation_at_or_preceding
find_allocation_containing m a = find_containing a (get_allocation_at_or_preceding m a)

unfoldable pub add_allocation : TraceMemoryState → ℕ → ℕ → Option TraceMemoryState
add_allocation m a n = assert (not (has a m)) >> some (insert a (trace_memory_allocation a n) m)

unfoldable pub remove_allocation : TraceMemoryState → ℕ → Option TraceMemoryState
remove_allocation m a = assert (has a m) >> some (erase a m)

unfoldable pub resize_allocation : TraceMemoryState → ℕ → ℕ → Option TraceMemoryState
unfolding resize_shadow
resize_allocation m a n = find a m >>= λ v. some (assign a (resize_shadow v n) m)
