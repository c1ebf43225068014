-- ===== src/MemoryChecks/Parameters.antt =====
-- class CStdLibChecker of lib/Trace/TraceThreadMemCheck.cpp: the checks of the pointers and strings
-- that are passed to a function of the C library.
use seec.Common.{ℕ, zero, Bool, true, false, Option, none, some, ◌++◌, if◌then◌else◌, ◌>>=◌}
use seec.Interval.{
  MemoryArea, memory_area, address, area_length, length, contains_interval, with_start,
}
use seec.TraceMemory.{has_known_state}
use package.seec.MemoryChecks.{
  Process, PointerTarget, MemoryAccess, reads, writes, copies, pass_pointer_to_unowned,
  pass_pointer_to_insufficient, pass_pointer_to_uninitialized, Check, passes, fails, check_pointer,
  get_c_string_in_area, get_limited_c_string_in_area, check_c_string_is_valid,
}

-- A check that returns early where the first one fails.
abbrev pub require : Check Bool → Check Bool → Check Bool
require (false, errors) next = (false, errors)
require (true, errors) next = (next.0, errors ++ next.1)

abbrev pub exists_for_parameter : ℕ → ℕ → Option MemoryArea → Check Bool
exists_for_parameter parameter a none = fails (pass_pointer_to_unowned a parameter)
exists_for_parameter parameter a (some area) = passes

-- `is_call` is whether the instruction is a call, so that its operands have objects.
unfoldable pub memory_exists_for_parameter :
    Process → Bool → ℕ → ℕ → Option MemoryArea → Option PointerTarget → Check Bool
memory_exists_for_parameter p is_call parameter a area target =
    if is_call
    then require (check_pointer p target a) (exists_for_parameter parameter a area)
    else exists_for_parameter parameter a area

abbrev pub check_known_for_parameter : Process → ℕ → MemoryAccess → ℕ → ℕ → Option (Check Bool)
check_known_for_parameter p parameter writes a n = some passes
check_known_for_parameter p parameter copies a n = some passes
check_known_for_parameter p parameter reads a n = has_known_state p.memory a n >>= λ known.
    some (if known then passes else fails (pass_pointer_to_uninitialized a parameter))

unfoldable pub check_memory_access_for_parameter :
    Process → ℕ → ℕ → ℕ → MemoryAccess → MemoryArea → Option (Check Bool)
check_memory_access_for_parameter p parameter a n access area =
    if contains_interval area.range ((memory_area a n).range)
    then check_known_for_parameter p parameter access a n
    else with_start area.range a >>= λ rest. some (
        fails (
          pass_pointer_to_insufficient parameter a n (length rest) (address area)
            (area_length area)))

-- `return 0` where a check fails.
abbrev pub guarded : Check Bool → Option (Check ℕ) → Option (Check ℕ)
guarded (false, errors) next = some (zero, errors)
guarded (true, errors) next = next >>= λ rest. some (rest.0, errors ++ rest.1)

-- The length of the string that was found, with the errors of reading it. The answer of
-- `checkMemoryAccessForParameter` is not used.
abbrev pub read_string : Process → ℕ → ℕ → MemoryArea → Option (Check ℕ)
read_string p parameter a found =
    check_memory_access_for_parameter p parameter a (area_length found) reads found >>= λ check.
    some (area_length found, check.1)

abbrev pub read_found : Process → ℕ → ℕ → Option MemoryArea → Option (Check ℕ)
read_found p parameter a none = none
read_found p parameter a (some found) = read_string p parameter a found

abbrev pub read_in_area : Process → (ℕ → ℕ) → ℕ → ℕ → Option MemoryArea → Option (Check ℕ)
read_in_area p chars parameter a none = none
read_in_area p chars parameter a (some area) = get_c_string_in_area chars a area >>= λ found.
    check_c_string_is_valid p a parameter found >>= λ valid.
    guarded valid (read_found p parameter a found)

unfoldable pub check_c_string_read :
    Process → (ℕ → ℕ) → Bool → ℕ → ℕ → Option PointerTarget → Option (Check ℕ)
check_c_string_read p chars is_call parameter a target =
    guarded (memory_exists_for_parameter p is_call parameter a (p.containing_area a) target)
      (read_in_area p chars parameter a (p.containing_area a))

abbrev pub read_limited_in_area :
    Process → (ℕ → ℕ) → ℕ → ℕ → ℕ → Option MemoryArea → Option (Check ℕ)
read_limited_in_area p chars parameter a limit none = none
read_limited_in_area p chars parameter a limit (some area) =
    get_limited_c_string_in_area chars a area limit >>= λ found.
    check_c_string_is_valid p a parameter (some found) >>= λ valid.
    guarded valid (read_string p parameter a found)

unfoldable pub check_limited_c_string_read :
    Process → (ℕ → ℕ) → Bool → ℕ → ℕ → ℕ → Option PointerTarget → Option (Check ℕ)
check_limited_c_string_read p chars is_call parameter a limit target =
    guarded (memory_exists_for_parameter p is_call parameter a (p.containing_area a) target)
      (read_limited_in_area p chars parameter a limit (p.containing_area a))
