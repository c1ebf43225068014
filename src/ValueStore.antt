-- ===== src/ValueStore.antt =====
-- lib/Trace/BlockValueStore.cpp, include/seec/Trace/BlockValueStore.hpp and
-- lib/Trace/IsRecordableType.cpp: where the run-time values of the instructions of a basic block
-- lie, and the store that holds them. An operation that asserts, or reads outside of a vector,
-- returns an option.
pub mod Store
pub mod Layout
pub mod Offsets
pub mod Values
pub mod LittleEndian
mod Tests
use seec.Common.{
  ℕ, zero, suc, ◌+◌, ◌-◌, ◌%◌, ◌^◌, Bool, true, false, ◌&&◌, ◌||◌, Option, none, some, List, [],
  ◌∷◌, leb, ltb, if◌then◌else◌, assert, ◌>>=◌, ◌>>◌, length, get_elem?, modify,
}

-- The answers of an `llvm::Type` to the questions that the code asks. The width is that of an
-- `llvm::IntegerType`.
pub record LlvmType : Type 0 where
  pub bit_width : Option ℕ
  pub is_pointer : Bool
  pub is_float : Bool
  pub is_double : Bool
  pub is_x86_fp80 : Bool
  pub is_fp128 : Bool
  pub is_ppc_fp128 : Bool

abbrev pub is_recordable_other : LlvmType → Bool
is_recordable_other t =
    if t.is_pointer
    then true
    else if t.is_float
    then true
    else if t.is_double
    then true
    else if t.is_x86_fp80 || t.is_fp128 || t.is_ppc_fp128
    then true
    else false

abbrev pub is_recordable_by : Option ℕ → LlvmType → Bool
is_recordable_by (some width) t = leb width 64
is_recordable_by none t = is_recordable_other t

unfoldable pub is_recordable_type : LlvmType → Bool
is_recordable_type t = is_recordable_by t.bit_width t

unfoldable pub is_long_double : LlvmType → Bool
is_long_double t = t.is_x86_fp80 || t.is_fp128 || t.is_ppc_fp128

abbrev pub store_size_other : LlvmType → Option ℕ
store_size_other t =
    if t.is_pointer
    then some 8
    else if t.is_float
    then some 4
    else if t.is_double
    then some 8
    else none

abbrev pub store_size_by : Option ℕ → LlvmType → Option ℕ
store_size_by (some width) t = if leb width 64 then some 8 else none
store_size_by none t = store_size_other t

-- `sizeof` of `uint64_t`, `stateptr_ty`, `float` and `double`, in bytes.
unfoldable pub get_recreated_store_size_for_type : LlvmType → Option ℕ
get_recreated_store_size_for_type t = store_size_by t.bit_width t

pub record IndexOrOffsetRecord : Type 0 where
  pub is_apfloat_index : Bool
  pub is_data_offset : Bool
  pub value : ℕ

pub record BasicBlockInfo : Type 0 where
  pub instr_index_base : ℕ
  pub instr_count : ℕ
  pub long_double_instr_count : ℕ
  pub total_data_size : ℕ
  pub indices_and_offsets : List IndexOrOffsetRecord

-- The counters are `type_safe` integers, whose overflow is undefined, so they do not wrap here;
-- the value of a record has 30 bits.
abbrev pub mark_apfloat : ℕ → IndexOrOffsetRecord → IndexOrOffsetRecord
mark_apfloat index r = record r { is_apfloat_index = true; value = index % 2 ^ 30 }

abbrev pub mark_data : ℕ → IndexOrOffsetRecord → IndexOrOffsetRecord
mark_data offset r = record r { is_data_offset = true; value = offset % 2 ^ 30 }

abbrev pub count_instruction : BasicBlockInfo → BasicBlockInfo
count_instruction b = record b { instr_count = suc b.instr_count }

abbrev pub place_long_double : BasicBlockInfo → BasicBlockInfo
place_long_double b = record b {
  indices_and_offsets =
      modify b.instr_count (mark_apfloat b.long_double_instr_count) b.indices_and_offsets;
  long_double_instr_count = suc b.long_double_instr_count;
}

abbrev pub with_data : ℕ → BasicBlockInfo → BasicBlockInfo
with_data size b = record b {
  indices_and_offsets = modify b.instr_count (mark_data b.total_data_size) b.indices_and_offsets;
  total_data_size = b.total_data_size + size;
}

-- No size is the `llvm_unreachable`.
abbrev pub place_data : Option ℕ → BasicBlockInfo → Option BasicBlockInfo
place_data none b = none
place_data (some size) b = some (with_data size b)

-- One round of the constructor's loop.
unfoldable pub add_instruction : LlvmType → BasicBlockInfo → Option BasicBlockInfo
add_instruction t b =
    (if is_recordable_type t
      then (if is_long_double t
          then some (place_long_double b)
          else place_data (get_recreated_store_size_for_type t) b)
      else some b)
    >>= λ c. some (count_instruction c)

abbrev pub add_instructions : List LlvmType → BasicBlockInfo → Option BasicBlockInfo
add_instructions [] b = some b
add_instructions (t ∷ ts) b = add_instruction t b >>= λ c. add_instructions ts c

abbrev pub empty_info : ℕ → List IndexOrOffsetRecord → BasicBlockInfo
empty_info base records = record {
  instr_index_base = base;
  instr_count = 0;
  long_double_instr_count = 0;
  total_data_size = 0;
  indices_and_offsets = records;
}

-- The constructor. `fresh` is what `new IndexOrOffsetRecord[n]` leaves in the records, which it
-- does not initialize; `base` is the function-level index of the first instruction.
unfoldable pub basic_block_info :
    (ℕ → List IndexOrOffsetRecord) → ℕ → List LlvmType → Option BasicBlockInfo
basic_block_info fresh base [] = some (empty_info 0 [])
basic_block_info fresh base (t ∷ ts) =
    add_instructions (t ∷ ts) (empty_info base (fresh (length (t ∷ ts))))

unfoldable pub get_adjusted_index : BasicBlockInfo → ℕ → Option ℕ
get_adjusted_index info i =
    assert (leb info.instr_index_base i)
    >> assert (ltb (i - info.instr_index_base) info.instr_count)
    >> some (i - info.instr_index_base)

abbrev pub data_offset_of : IndexOrOffsetRecord → Option ℕ
data_offset_of r = if r.is_data_offset then some r.value else none

unfoldable pub get_data_offset : BasicBlockInfo → ℕ → Option (Option ℕ)
get_data_offset info i = get_adjusted_index info i >>= λ k.
    get_elem? info.indices_and_offsets k >>= λ r. some (data_offset_of r)

abbrev pub apfloat_index_of : IndexOrOffsetRecord → Option ℕ
apfloat_index_of r = if r.is_apfloat_index then some r.value else none

unfoldable pub get_apfloat_index : BasicBlockInfo → ℕ → Option (Option ℕ)
get_apfloat_index info i = get_adjusted_index info i >>= λ k.
    get_elem? info.indices_and_offsets k >>= λ r. some (apfloat_index_of r)
