-- ===== src/FunctionState/Tests.antt =====
-- Runs of a function's state, and the theorems at concrete inputs.
use seec.Common.{
  ℕ, suc, ◌*◌, ◌⊎◌, ◌-◌, ◌^◌, ◌≡◌, refl, ap, true, false, Option, none, some, List, [], ◌∷◌, arith,
  ltb, if◌then◌else◌, length, replicate,
}
use seec.Interval.{memory_area}
use seec.ValueStore.{
  IndexOrOffsetRecord, basic_block_info, add_instruction, is_recordable_type, is_long_double,
  get_recreated_store_size_for_type, get_data_offset, get_adjusted_index,
}
use seec.ValueStore.Store.{
  BasicBlockStore, set_value, get_value, set_has_value, has_value as store_has_value,
}
use seec.ValueStore.LittleEndian.{numbers}
use package.seec.FunctionState.{
  Instruction, Placement, LlvmFunction, FunctionState, AllocaState, ParamByValState, function_index,
  function_info, function_state, get_instruction, get_index_of_instruction,
  get_index_of_dbg_declare_for,
}
use package.seec.FunctionState.Blocks.{
  put, clear_jumped, get_active_instruction, activate_block, forwarding_to_instruction,
  rewinding_to_instruction, set_active_instruction_complete,
}
use package.seec.FunctionState.Forwarding.{forwarding_to_instruction-total}
use package.seec.FunctionState.Moving.{moved_to, rewinding_to_instruction-forwarding_to_instruction}
use package.seec.FunctionState.InstructionValues.{
  set_value_uint64, get_value_uint64, has_value, get_in_block, set_in_block, is_dominated_by_active,
}
use package.seec.FunctionState.Signed.{pos, negsuc, get_value_int64, get_value_int64_lem}
use package.seec.FunctionState.Areas.{
  get_containing_memory_area, add_by_val_area, add_runtime_error, get_runtime_errors_active,
  get_visible_allocas, get_alloca_containing,
}
use package.seec.FunctionState.AreaLookup.{
  get_containing_memory_area_lem, First, NoneOf, InAlloca, InParam,
}

abbrev i8 : Instruction
i8 = record {
  type = record {
    bit_width = some 8;
    is_pointer = false;
    is_float = false;
    is_double = false;
    is_x86_fp80 = false;
    is_fp128 = false;
    is_ppc_fp128 = false;
  };
  declares = none;
}

-- entry: 0 1; loop: 2 3; other: 4; latch: 5.
abbrev looping : LlvmFunction
looping = record {
  blocks = (i8 ∷ i8 ∷ []) ∷ (i8 ∷ i8 ∷ []) ∷ (i8 ∷ []) ∷ (i8 ∷ []) ∷ [];
  arg_size = 2;
}

abbrev fresh_records : ℕ → List IndexOrOffsetRecord
fresh_records n =
    replicate n (record { is_apfloat_index = false; is_data_offset = false; value = 0 })

abbrev fresh_bytes : ℕ → List ℕ
fresh_bytes n = replicate n 204

abbrev the : {A : Type 0} → A → Option A → A
the d none = d
the d (some a) = a

abbrev started : FunctionState ℕ ℕ
started = function_state 7 (function_index looping) (the [] (function_info fresh_records looping))

-- One step to an instruction that leaves a value.
abbrev step : ℕ → ℕ → FunctionState ℕ ℕ → FunctionState ℕ ℕ
step i v fs = the fs (
    set_value_uint64 numbers i v
      (set_active_instruction_complete i (the fs (forwarding_to_instruction fresh_bytes 0 i fs))))

-- Through the loop once, without the other block.
abbrev around : FunctionState ℕ ℕ
around = step 5 4 (step 2 200 (step 0 1 started))

around_value : get_value_uint64 numbers 2 around ≡ some (some 200)
unfolding get_in_block is_dominated_by_active set_in_block get_instruction forwarding_to_instruction
    function_index get_active_instruction activate_block function_info basic_block_info
    add_instruction is_recordable_type is_long_double get_recreated_store_size_for_type
    get_index_of_instruction set_value get_data_offset clear_jumped get_value store_has_value
    set_has_value get_adjusted_index has_value rewinding_to_instruction get_value_int64
around_value = refl

around_signed :
    get_value_int64 (λ w. 2 ^ (w - 1)) (λ w. 2 ^ w - 1) numbers 2 around ≡ some (some (negsuc 55))
unfolding get_in_block is_dominated_by_active set_in_block get_instruction forwarding_to_instruction
    function_index get_active_instruction activate_block function_info basic_block_info
    add_instruction is_recordable_type is_long_double get_recreated_store_size_for_type
    get_index_of_instruction set_value get_data_offset clear_jumped get_value store_has_value
    set_has_value get_adjusted_index has_value rewinding_to_instruction get_value_int64
around_signed = refl

around_not_reached : get_value_uint64 numbers 4 around ≡ some none
unfolding get_in_block is_dominated_by_active set_in_block get_instruction forwarding_to_instruction
    function_index get_active_instruction activate_block function_info basic_block_info
    add_instruction is_recordable_type is_long_double get_recreated_store_size_for_type
    get_index_of_instruction set_value get_data_offset clear_jumped get_value store_has_value
    set_has_value get_adjusted_index has_value rewinding_to_instruction get_value_int64
around_not_reached = refl

-- Back to the loop's first block: its values and those of the latch are gone, not those of entry.
abbrev again : FunctionState ℕ ℕ
again = the around (forwarding_to_instruction fresh_bytes 0 2 around)

again_cleared : has_value 2 (moved_to 2 true again) ≡ some false
unfolding get_in_block is_dominated_by_active set_in_block get_instruction forwarding_to_instruction
    function_index get_active_instruction activate_block function_info basic_block_info
    add_instruction is_recordable_type is_long_double get_recreated_store_size_for_type
    get_index_of_instruction set_value get_data_offset clear_jumped get_value store_has_value
    set_has_value get_adjusted_index has_value rewinding_to_instruction get_value_int64
again_cleared = refl

again_entry : get_value_uint64 numbers 0 (moved_to 2 true again) ≡ some (some 1)
unfolding get_in_block is_dominated_by_active set_in_block get_instruction forwarding_to_instruction
    function_index get_active_instruction activate_block function_info basic_block_info
    add_instruction is_recordable_type is_long_double get_recreated_store_size_for_type
    get_index_of_instruction set_value get_data_offset clear_jumped get_value store_has_value
    set_has_value get_adjusted_index has_value rewinding_to_instruction get_value_int64
again_entry = refl

-- A block that first becomes active after the jump stays active when the jump is rewound, with the
-- value that it has later.
abbrev other_way : FunctionState ℕ ℕ
other_way = step 5 4 (step 4 9 (step 2 201 around))

later_value_shown :
    get_value_uint64 numbers 4 (
      moved_to 5 true (
        the other_way (
          rewinding_to_instruction 5 (
            moved_to 2 true (
              the other_way (
                rewinding_to_instruction 2
                  (moved_to 4 true (the other_way (rewinding_to_instruction 4 other_way)))))))))
    ≡ some (some 9)
unfolding get_in_block is_dominated_by_active set_in_block get_instruction forwarding_to_instruction
    function_index get_active_instruction activate_block function_info basic_block_info
    add_instruction is_recordable_type is_long_double get_recreated_store_size_for_type
    get_index_of_instruction set_value get_data_offset clear_jumped get_value store_has_value
    set_has_value get_adjusted_index has_value rewinding_to_instruction get_value_int64
later_value_shown = refl

abbrev here : Placement
here = record { parent = 1; instruction = i8 }

abbrev latch : Placement
latch = record { parent = 3; instruction = i8 }

forwarding_to_instruction-total_example :
    (after : FunctionState ℕ ℕ) × (forwarding_to_instruction fresh_bytes 0 2 around ≡ some after)
unfolding get_in_block is_dominated_by_active set_in_block get_instruction forwarding_to_instruction
    function_index get_active_instruction activate_block function_info basic_block_info
    add_instruction is_recordable_type is_long_double get_recreated_store_size_for_type
    get_index_of_instruction set_value get_data_offset clear_jumped get_value store_has_value
    set_has_value get_adjusted_index
forwarding_to_instruction-total_example =
    forwarding_to_instruction-total fresh_bytes 0 looping around refl refl 2 here refl

-- At the latch, with values in the blocks of the loop.
abbrev two_bytes : BasicBlockStore ℕ
two_bytes = record { bytes = 1 ∷ 2 ∷ []; values_set = true ∷ true ∷ []; long_doubles = [] }

abbrev parked : FunctionState ℕ ℕ
parked = record started {
  active_instruction = some 5;
  active_blocks = put 1 two_bytes (put 3 two_bytes (λ b. none));
}

abbrev jumped : FunctionState ℕ ℕ
jumped = the parked (forwarding_to_instruction fresh_bytes 0 2 parked)

rewinding_to_instruction-forwarding_to_instruction_example :
    (activated : FunctionState ℕ ℕ) × (activate_block fresh_bytes 0 1 parked ≡ some activated)
    × (rewinding_to_instruction 5 (moved_to 2 true jumped) ≡ some (moved_to 2 true activated))
unfolding get_in_block is_dominated_by_active set_in_block get_instruction forwarding_to_instruction
    function_index get_active_instruction activate_block function_info basic_block_info
    add_instruction is_recordable_type is_long_double get_recreated_store_size_for_type
    get_index_of_instruction set_value get_data_offset clear_jumped get_value store_has_value
    set_has_value get_adjusted_index
rewinding_to_instruction-forwarding_to_instruction_example =
    rewinding_to_instruction-forwarding_to_instruction fresh_bytes 0 2 5 true here latch parked
      jumped refl refl refl refl

suc_pred : (k : ℕ) → suc k - 1 ≡ k
suc_pred k = omega arith

get_value_int64_lem_example :
    get_value_int64 (λ w. 2 ^ (w - 1)) (λ w. 2 ^ w - 1) numbers 2 around
    ≡ some (some (if ltb 200 (2 ^ 7) then pos 200 else negsuc (2 ^ 8 - 1 - 200)))
unfolding get_in_block is_dominated_by_active set_in_block get_instruction forwarding_to_instruction
    function_index get_active_instruction activate_block function_info basic_block_info
    add_instruction is_recordable_type is_long_double get_recreated_store_size_for_type
    get_index_of_instruction set_value get_data_offset clear_jumped get_value store_has_value
    set_has_value get_adjusted_index
get_value_int64_lem_example =
    get_value_int64_lem (λ w. 2 ^ (w - 1)) (λ w. 2 ^ w - 1) (λ k. ap (λ m. 2 ^ m) (suc_pred k))
      (λ w. refl) numbers 2 7 200 here around refl refl (omega arith) (omega arith) refl

-- Two allocas and a by-value parameter.
abbrev with_areas : FunctionState ℕ ℕ
with_areas = record around {
  allocas =
      record { instruction_index = 0; address = 64; element_size = 4; element_count = 2 }
      ∷ record { instruction_index = 1; address = 80; element_size = 1; element_count = 1 }
      ∷ [];
}

abbrev with_param : FunctionState ℕ ℕ
with_param = the with_areas (add_by_val_area 1 96 16 with_areas)

param_area : get_containing_memory_area 100 with_param ≡ some (memory_area 96 16)
unfolding get_in_block is_dominated_by_active set_in_block get_instruction forwarding_to_instruction
    function_index get_active_instruction activate_block function_info basic_block_info
    add_instruction is_recordable_type is_long_double get_recreated_store_size_for_type
    get_index_of_instruction set_value get_data_offset clear_jumped get_value store_has_value
    set_has_value get_adjusted_index get_containing_memory_area get_alloca_containing
    add_by_val_area add_runtime_error get_runtime_errors_active get_visible_allocas
    get_index_of_dbg_declare_for
param_area = refl

abbrev searched : FunctionState ℕ ℕ
searched = record with_areas {
  param_by_vals = record { argument = 1; area = memory_area 96 16 } ∷ [];
}

get_containing_memory_area_lem_example :
    ((a : AllocaState) × First (InAlloca 71) searched.allocas a
      × (get_containing_memory_area 71 searched
          ≡ some (memory_area a.address (a.element_size * a.element_count))))
    ⊎ (NoneOf (InAlloca 71) searched.allocas
        × (((p : ParamByValState) × First (InParam 71) searched.param_by_vals p
              × (get_containing_memory_area 71 searched ≡ some p.area))
            ⊎ (NoneOf (InParam 71) searched.param_by_vals
                × (get_containing_memory_area 71 searched ≡ none))))
get_containing_memory_area_lem_example =
    get_containing_memory_area_lem 71 searched (omega arith, (omega arith, tt))

-- An error that is recorded with another thread time is not active.
error_stale : get_runtime_errors_active 4 (the around (add_runtime_error 5 1 around)) ≡ []
unfolding get_in_block is_dominated_by_active set_in_block get_instruction forwarding_to_instruction
    function_index get_active_instruction activate_block function_info basic_block_info
    add_instruction is_recordable_type is_long_double get_recreated_store_size_for_type
    get_index_of_instruction set_value get_data_offset clear_jumped get_value store_has_value
    set_has_value get_adjusted_index get_containing_memory_area get_alloca_containing
    add_by_val_area add_runtime_error get_runtime_errors_active get_visible_allocas
    get_index_of_dbg_declare_for
error_stale = refl

visible_all : length (get_visible_allocas with_param) ≡ 2
unfolding get_in_block is_dominated_by_active set_in_block get_instruction forwarding_to_instruction
    function_index get_active_instruction activate_block function_info basic_block_info
    add_instruction is_recordable_type is_long_double get_recreated_store_size_for_type
    get_index_of_instruction set_value get_data_offset clear_jumped get_value store_has_value
    set_has_value get_adjusted_index get_containing_memory_area get_alloca_containing
    add_by_val_area add_runtime_error get_runtime_errors_active get_visible_allocas
    get_index_of_dbg_declare_for
visible_all = refl
