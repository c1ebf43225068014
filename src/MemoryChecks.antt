-- ===== src/MemoryChecks.antt =====
-- class RuntimeErrorChecker and class CStdLibChecker of lib/Trace/TraceThreadMemCheck.cpp: the checks
-- of a memory access by the program that is traced. A check gives its answer and the errors that it
-- raises; a failed assertion is `none`. Notes and the name of the called function, which only decorate
-- errors, are left out.
pub mod Passing
pub mod CStrings
pub mod Parameters
pub mod StringReads
mod Tests
use seec.Common.{
  ℕ, zero, suc, ◌+◌, ◌-◌, min, ◌==◌, Bool, true, false, ◌&&◌, ◌||◌, Option, none, some, List, [],
  ◌∷◌, ltb, leb, if◌then◌else◌, ◌>>=◌,
}
use seec.Interval.{
  MemoryPermission, read_write, write_only, MemoryArea, memory_area, address, area_length, length,
  contains, contains_interval, with_start, with_length, intersection,
}
use seec.TraceMemory.{TraceMemoryState, has_known_state, get_length_of_known_state}

pub data MemoryAccess : Type 0 where
  reads writes copies : MemoryAccess

pub data RunError : Type 0 where
  -- Access, address, size.
  memory_unowned : MemoryAccess → ℕ → ℕ → RunError
  -- Access, address, size, and the address and length of the containing area.
  memory_overflow : MemoryAccess → ℕ → ℕ → ℕ → ℕ → RunError
  -- Address, size.
  memory_uninitialized : ℕ → ℕ → RunError
  -- The pointer's temporal ID and the current one.
  pointer_object_outdated : ℕ → ℕ → RunError
  -- The base of the pointer's object, and the address.
  pointer_object_mismatch : ℕ → ℕ → RunError
  -- Address, parameter.
  invalid_c_string : ℕ → ℕ → RunError
  -- Address, parameter.
  pass_pointer_to_unowned : ℕ → ℕ → RunError
  -- Parameter, address, size, the size that is left, and the address and length of the area.
  pass_pointer_to_insufficient : ℕ → ℕ → ℕ → ℕ → ℕ → ℕ → RunError
  -- Address, parameter.
  pass_pointer_to_uninitialized : ℕ → ℕ → RunError
  -- The start and the length of the overlap.
  overlapping_source_dest : ℕ → ℕ → RunError

-- The answer of a check and the errors that `raiseError` was called with.
abbrev pub Check : Type 0 → Type 0
Check A = A × List RunError

abbrev pub passes : Check Bool
passes = (true, [])

abbrev pub fails : RunError → Check Bool
fails error = (false, error ∷ [])

-- What the process listener answers: the area that contains an address, the temporal ID of the
-- region at a base, and the shadow memory.
pub record Process : Type 0 where
  pub containing_area : ℕ → Option MemoryArea
  pub temporal_id : ℕ → ℕ
  pub memory : TraceMemoryState

-- A PointerTarget that is set.
pub record PointerTarget : Type 0 where
  pub base : ℕ
  pub temporal_id : ℕ

abbrev pub size_from : ℕ → Option MemoryArea → Option ℕ
size_from a none = some 0
size_from a (some area) = with_start area.range a >>= λ r. some (length r)

unfoldable pub get_size_of_area_starting_at : Process → ℕ → Option ℕ
get_size_of_area_starting_at p a = size_from a (p.containing_area a)

abbrev pub is_writable : MemoryPermission → Bool
is_writable MemoryPermission.read_write = true
is_writable MemoryPermission.write_only = true
is_writable MemoryPermission.read_only = false
is_writable MemoryPermission.none_access = false

abbrev pub writable_size_from : ℕ → Option MemoryArea → Option ℕ
writable_size_from a none = some 0
writable_size_from a (some area) =
    if is_writable area.access then size_from a (some area) else some 0

unfoldable pub get_size_of_writable_area_starting_at : Process → ℕ → Option ℕ
get_size_of_writable_area_starting_at p a = writable_size_from a (p.containing_area a)

abbrev pub check_target : PointerTarget → ℕ → Option MemoryArea → Check Bool
check_target target a none = fails (pointer_object_outdated target.temporal_id target.temporal_id)
check_target target a (some area) =
    if contains area.range a then passes else fails (pointer_object_mismatch target.base a)

-- A pointer without an object passes.
abbrev pub check_pointer : Process → Option PointerTarget → ℕ → Check Bool
check_pointer p none a = passes
check_pointer p (some target) a =
    if p.temporal_id target.base == target.temporal_id
    then check_target target a (p.containing_area target.base)
    else fails (pointer_object_outdated target.temporal_id (p.temporal_id target.base))

abbrev pub check_known : Process → MemoryAccess → ℕ → ℕ → Option (Check Bool)
check_known p writes a n = some passes
check_known p copies a n = some passes
check_known p reads a n = has_known_state p.memory a n >>= λ known.
    some (if known then passes else fails (memory_uninitialized a n))

unfoldable pub check_memory_access :
    Process → ℕ → ℕ → MemoryAccess → MemoryArea → Option (Check Bool)
check_memory_access p a n access area =
    if contains_interval area.range ((memory_area a n).range)
    then check_known p access a n
    else some (fails (memory_overflow access a n (address area) (area_length area)))

-- `memoryExists`, and then the access in the area that it found.
abbrev pub check_in_area : Process → ℕ → ℕ → MemoryAccess → Option MemoryArea → Option (Check Bool)
check_in_area p a n access none = some (fails (memory_unowned access a n))
check_in_area p a n access (some area) = check_memory_access p a n access area

unfoldable pub check_memory_exists_and_accessible :
    Process → ℕ → ℕ → MemoryAccess → Option (Check Bool)
check_memory_exists_and_accessible p a n access = check_in_area p a n access (p.containing_area a)

-- The loop over the characters from `a + index` on, of which `left` remain in the area. `chars` is
-- what the memory of the traced program holds.
abbrev pub find_terminator : (ℕ → ℕ) → ℕ → ℕ → ℕ → Option MemoryArea
find_terminator chars a index zero = none
find_terminator chars a index (suc left) =
    let rest = find_terminator chars a (suc index) left in
    if chars (a + index) == 0 then some (memory_area a (index + 1)) else rest

unfoldable pub get_c_string_in_area : (ℕ → ℕ) → ℕ → MemoryArea → Option (Option MemoryArea)
get_c_string_in_area chars a area =
    with_start area.range a >>= λ r. some (find_terminator chars a 0 (length r))

abbrev pub limited : ℕ → ℕ → Option MemoryArea → MemoryArea
limited a limit none = memory_area a limit
limited a limit (some area) = with_length area (min (area_length area) limit)

unfoldable pub get_limited_c_string_in_area : (ℕ → ℕ) → ℕ → MemoryArea → ℕ → Option MemoryArea
get_limited_c_string_in_area chars a area limit =
    get_c_string_in_area chars a area >>= λ found. some (limited a limit found)

unfoldable pub check_c_string_is_valid : Process → ℕ → ℕ → Option MemoryArea → Option (Check Bool)
check_c_string_is_valid p a parameter none = some (fails (invalid_c_string a parameter))
check_c_string_is_valid p a parameter (some area) =
    get_length_of_known_state p.memory (address area) (area_length area) >>= λ initialized. some (
      if initialized == 0 || leb (area_length area) initialized
      then passes
      else fails (invalid_c_string a parameter))

unfoldable pub check_memory_does_not_overlap : MemoryArea → MemoryArea → Option (Check Bool)
check_memory_does_not_overlap one other = intersection one.range other.range >>= λ overlap. some (
    if length overlap == 0
    then passes
    else fails (overlapping_source_dest overlap.start (length overlap)))
