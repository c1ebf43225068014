-- ===== src/MemoryChecks/Tests.antt =====
-- Runs of the memory checks, and the theorems at concrete inputs.
use seec.Common.{
  ℕ, ◌+◌, ◌-◌, ◌<◌, ◌≡◌, ◌≢◌, refl, ◌⊎◌, true, Option, none, some, List, [], ◌∷◌, arith, ◌==◌, ltb,
  if◌then◌else◌, some-injective, ap,
}
use seec.Interval.{
  word, MemoryPermission, MemoryArea, memory_area, memory_area_with, intersection, with_start,
  with_start_end,
}
use seec.StdMap.Related.{Related}
use seec.Allocation
use seec.Allocation.{allocation, mapped_memory_block}
use seec.Memory.{MemoryState, add_block, region_is_completely_initialized}
use seec.TraceMemory.{
  TraceMemoryState, trace_memory_allocation, add, has_known_state, get_length_of_known_state,
}
use seec.TraceMemory.Agreement.{Mirrors, add-add_block-Mirrors}
use package.seec.MemoryChecks.{
  Process, reads, writes, memory_unowned, memory_overflow, memory_uninitialized,
  pointer_object_mismatch, overlapping_source_dest, pass_pointer_to_unowned,
  pass_pointer_to_uninitialized, passes, fails, check_pointer, check_memory_access,
  check_memory_exists_and_accessible, get_c_string_in_area, get_limited_c_string_in_area,
  check_c_string_is_valid, check_memory_does_not_overlap, get_size_of_writable_area_starting_at,
}
use package.seec.MemoryChecks.Parameters.{
  memory_exists_for_parameter, check_memory_access_for_parameter, check_c_string_read,
  check_limited_c_string_read,
}
use package.seec.MemoryChecks.StringReads.{check_c_string_read-reads}
use package.seec.MemoryChecks.CStrings.{FirstTerminator, get_c_string_in_area-cases}

abbrev written : TraceMemoryState
written = (16, trace_memory_allocation 16 4) ∷ []

abbrev read_back : MemoryState
read_back = record { allocations = (16, allocation 16 4) ∷ []; previous_allocations = [] }

agreed : Related Mirrors written read_back.allocations
agreed = (
  refl,
  record {
    writer_here = refl;
    reader_here = refl;
    same_length = refl;
    fits = omega arith;
    same_init = refl;
  },
  tt,
)

abbrev the : {A : Type 0} → A → Option A → A
the d none = d
the d (some a) = a

-- Four bytes at 16, of which those at 17 and 18 are set: an 'h' and a NUL.
abbrev two : List ℕ
two = 104 ∷ 0 ∷ []

abbrev process : Process
process = record {
  containing_area =
      λ a. if ltb a 16 then none else if ltb a 20 then some (memory_area 16 4) else none;
  temporal_id = λ a. 3;
  memory = the written (add written 17 2);
}

abbrev recreated : MemoryState
recreated = the read_back (add_block read_back (mapped_memory_block 17 two))

recreated-Mirrors : Related Mirrors process.memory recreated.allocations
unfolding add add_block seec.Allocation.add_block
recreated-Mirrors =
    add-add_block-Mirrors written process.memory read_back recreated 17 two agreed (omega arith)
      refl refl

abbrev chars : ℕ → ℕ
chars a = if a == 17 then 104 else if a == 18 then 0 else 65

read_ok : check_memory_exists_and_accessible process 17 2 reads ≡ some passes
unfolding check_memory_exists_and_accessible check_memory_access has_known_state add
read_ok = refl

read_uninitialized :
    check_memory_exists_and_accessible process 16 2 reads ≡ some (fails (memory_uninitialized 16 2))
unfolding check_memory_exists_and_accessible check_memory_access has_known_state add
read_uninitialized = refl

write_overflow :
    check_memory_exists_and_accessible process 18 4 writes
    ≡ some (fails (memory_overflow writes 18 4 16 4))
unfolding check_memory_exists_and_accessible check_memory_access
write_overflow = refl

read_unowned :
    check_memory_exists_and_accessible process 20 1 reads ≡ some (fails (memory_unowned reads 20 1))
unfolding check_memory_exists_and_accessible
read_unowned = refl

-- A size that wraps the end of the access passes: here all bytes from 17 on, and those before 16.
wrapped_write : check_memory_exists_and_accessible process 17 (word - 1) writes ≡ some passes
unfolding check_memory_exists_and_accessible check_memory_access
wrapped_write = refl

outside_target :
    check_pointer process (some (record { base = 16; temporal_id = 3 })) 20
    ≡ fails (pointer_object_mismatch 16 20)
outside_target = refl

limited_string :
    get_limited_c_string_in_area chars 17 (memory_area 16 4) 1 ≡ some (memory_area 17 1)
unfolding get_limited_c_string_in_area get_c_string_in_area with_start seec.Interval.with_length
limited_string = refl

string_valid : check_c_string_is_valid process 17 0 (some (memory_area 17 2)) ≡ some passes
unfolding check_c_string_is_valid get_length_of_known_state add
string_valid = refl

overlap :
    check_memory_does_not_overlap (memory_area 16 4) (memory_area 18 4)
    ≡ some (fails (overlapping_source_dest 18 2))
unfolding check_memory_does_not_overlap intersection
overlap = refl

writable_size : get_size_of_writable_area_starting_at process 18 ≡ some 2
unfolding get_size_of_writable_area_starting_at with_start
writable_size = refl

get_c_string_in_area-cases_example :
    ((i : ℕ) × (get_c_string_in_area chars 17 (memory_area 16 4)
        ≡ some (some (memory_area 17 (i + 1))))
      × FirstTerminator chars 17 0 (20 - 17) i)
    ⊎ ((get_c_string_in_area chars 17 (memory_area 16 4) ≡ some none)
        × ((j : ℕ) → j < 20 - 17 → chars (17 + j) ≢ 0))
get_c_string_in_area-cases_example =
    get_c_string_in_area-cases chars 17 (memory_area 16 4) (omega arith) (omega arith)

string_read : check_c_string_read process chars true 0 17 none ≡ some (2, [])
unfolding check_c_string_read memory_exists_for_parameter check_memory_access_for_parameter
    get_c_string_in_area with_start with_start_end check_c_string_is_valid get_length_of_known_state
    has_known_state add
string_read = refl

-- The string at 16 starts with a byte that was never written: its length is given with the error.
string_uninitialized :
    check_c_string_read process chars true 0 16 none
    ≡ some (3, pass_pointer_to_uninitialized 16 0 ∷ [])
unfolding check_c_string_read memory_exists_for_parameter check_memory_access_for_parameter
    get_c_string_in_area with_start with_start_end check_c_string_is_valid get_length_of_known_state
    has_known_state add
string_uninitialized = refl

string_unowned :
    check_c_string_read process chars true 0 20 none ≡ some (0, pass_pointer_to_unowned 20 0 ∷ [])
unfolding check_c_string_read memory_exists_for_parameter
string_unowned = refl

limited_read : check_limited_c_string_read process chars true 0 17 1 none ≡ some (1, [])
unfolding check_limited_c_string_read memory_exists_for_parameter check_memory_access_for_parameter
    get_limited_c_string_in_area get_c_string_in_area with_start with_start_end
    seec.Interval.with_length check_c_string_is_valid get_length_of_known_state has_known_state add
limited_read = refl

-- Without a NUL in the area, a limit past its end leads to a failed assertion in the shadow memory.
limited_past_area : check_limited_c_string_read process (λ a. 65) true 0 17 8 none ≡ none
unfolding check_limited_c_string_read memory_exists_for_parameter get_limited_c_string_in_area
    get_c_string_in_area with_start with_start_end check_c_string_is_valid get_length_of_known_state
    add
limited_past_area = refl

check_c_string_read-reads_example :
    (area : MemoryArea) × (process.containing_area 17 ≡ some area)
    × (i : ℕ) × FirstTerminator chars 17 0 (area.range.end - 17) i
    × (2 ≡ i + 1)
    × (region_is_completely_initialized recreated (memory_area 17 2) ≡ some true)
check_c_string_read-reads_example =
    check_c_string_read-reads process recreated chars true 0 17 2 none recreated-Mirrors
      (λ area e.
        let same : memory_area 16 4 ≡ area = some-injective _ _ e in
        let ends : 20 ≡ area.range.end = ap (λ (x : MemoryArea). x.range.end) same in
        (omega (arith, ends), omega (arith, ends)))
      (omega arith) string_read
