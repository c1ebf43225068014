-- ===== src/CallStack/Tests.antt =====
-- Runs of a thread's call stack, and the theorem at a concrete input.
use seec.Common.{ℕ, ◌≡◌, refl, true, false, Option, none, some, List, [], ◌∷◌, arith, replicate}
use seec.Memory.{empty_memory, allocation_add, allocation_remove, allocation_unremove}
use seec.Memory.View.{MemoryLog, ShowsMemory}
use seec.Memory.Edits.Observed.{SameRegions}
use seec.Allocation.Log.{empty_log, cell, put_range}
use seec.Memory.Edits.{blocks}
use seec.Allocation.{uninitialized}
use seec.Memory.{add_block, get_allocation}
use seec.Allocation
use seec.ValueStore.{BasicBlockInfo}
use seec.ValueStore.LittleEndian.{numbers}
use seec.FunctionState.{
  Instruction, LlvmFunction, FunctionState, Placement, AllocaState, RuntimeErrorState,
  function_index, function_state, get_instruction,
}
use seec.FunctionState.Blocks.{
  forwarding_to_instruction, get_active_instruction, activate_block, clear_jumped,
  rewinding_to_instruction,
}
use seec.FunctionState.Areas.{add_by_val_area, add_runtime_error, get_runtime_errors_active}
use package.seec.CallStack.{
  CallEvent, instruction, alloca, by_val_region_add, runtime_error, stack_restore, ThreadState,
}
use package.seec.CallStack.Steps.{
  add_event, add_events, function_start_forward, function_end_forward,
}
use package.seec.CallStack.Walk.{
  FunctionTrace, TraceEvent, own, add_trace, previous_allocas, function_end_backward,
}
use package.seec.CallStack.Activities.{Activity, done, does, changes, calls, events_of}
use package.seec.CallStack.Rewinding.{
  instruction_backward, stack_restore_backward, stack_restore_backward-add_event,
}
use package.seec.CallStack.Instructions.{instruction_backward-add_event}
use package.seec.CallStack.FunctionEnds.{function_end_backward-function_end_forward}

abbrev plain : Instruction
plain = record {
  type = record {
    bit_width = none;
    is_pointer = false;
    is_float = false;
    is_double = false;
    is_x86_fp80 = false;
    is_fp128 = false;
    is_ppc_fp128 = false;
  };
  declares = none;
}

abbrev called : LlvmFunction
called = record { blocks = (plain ∷ plain ∷ []) ∷ []; arg_size = 2 }

abbrev info : BasicBlockInfo
info = record {
  instr_index_base = 0;
  instr_count = 2;
  long_double_instr_count = 0;
  total_data_size = 0;
  indices_and_offsets =
      replicate 2 (record { is_apfloat_index = false; is_data_offset = false; value = 0 });
}

abbrev fresh_bytes : ℕ → List ℕ
fresh_bytes n = replicate n 204

abbrev the : {A : Type 0} → A → Option A → A
the d none = d
the d (some a) = a

abbrev top_of : List (FunctionState ℕ ℕ) → FunctionState ℕ ℕ
top_of [] = function_state 7 (function_index called) (info ∷ [])
top_of (f ∷ rest) = f

abbrev idle : ThreadState numbers ℕ
idle = record { memory = empty_memory; thread_time = 4; call_stack = [] }

abbrev entered : ThreadState numbers ℕ
entered = record idle {
  thread_time = 5;
  call_stack = function_state 7 (function_index called) (info ∷ []) ∷ [];
}

entered_by : function_start_forward (function_index called) (info ∷ []) 7 5 idle ≡ entered
unfolding function_index get_instruction forwarding_to_instruction get_active_instruction
    activate_block clear_jumped add_by_val_area add_runtime_error get_runtime_errors_active
    allocation_add allocation_remove allocation_unremove add_block get_allocation
    seec.Allocation.add_block function_start_forward function_end_forward function_end_backward
entered_by = refl

abbrev local : AllocaState
local = record { instruction_index = 0; address = 16; element_size = 4; element_count = 2 }

abbrev call_of : ℕ → ℕ → FunctionTrace
call_of index exited = record {
  lookup = function_index called;
  infos = info ∷ [];
  index = index;
  entered = 6;
  exited = exited;
  event_count = 0;
}

-- The call writes two bytes of its alloca and calls another function.
abbrev activity : Activity numbers ℕ
activity = does (instruction 0) (
    does (alloca local) (
      changes (blocks 16 (1 ∷ 2 ∷ [])) (
        calls (call_of 8 7) (does (instruction 0) (does (runtime_error true 3) done))
          (does (by_val_region_add 1 32 4) (does (instruction 1) done)))))

abbrev running : ThreadState numbers ℕ
running = the entered (add_trace fresh_bytes (events_of activity) entered)

abbrev left : ThreadState numbers ℕ
left = the running (function_end_forward 7 9 running)

abbrev running_log : MemoryLog
running_log = record {
  blocks = (16, put_range 0 (cell 1 255 ∷ cell 2 255 ∷ []) (empty_log 8)) ∷ (32, empty_log 4) ∷ [];
  removed = [];
}

running-ShowsMemory : ShowsMemory running.memory running_log
unfolding function_index get_instruction forwarding_to_instruction get_active_instruction
    activate_block clear_jumped add_by_val_area add_runtime_error get_runtime_errors_active
    allocation_add allocation_remove allocation_unremove add_block get_allocation
    seec.Allocation.add_block function_start_forward function_end_forward function_end_backward
running-ShowsMemory = record {
  sorted = (omega arith, (omega arith, tt));
  current = (
    refl,
    record {
      here = refl;
      sized = refl;
      fits = omega arith;
      shown = record {
        bytes_fill = refl;
        init_fill = refl;
        cells_shown = refl;
        undo_shown = (
          uninitialized,
          [],
          [],
          [],
          [],
          [],
          refl,
          refl,
          refl,
          (refl, refl, refl),
          (refl, refl, refl),
        );
      };
    },
    (
      refl,
      record {
        here = refl;
        sized = refl;
        fits = omega arith;
        shown = record {
          bytes_fill = refl;
          init_fill = refl;
          cells_shown = refl;
          undo_shown = (refl, refl, refl);
        };
      },
      tt,
    ),
  );
  past = tt;
}

-- An error is active in the call where it occurs, and no longer once the call was left and entered
-- again from its end: the events are restored with the thread time of the end.
abbrev erring : List (CallEvent numbers ℕ)
erring = instruction 0 ∷ runtime_error true 3 ∷ []

abbrev own_of : List (CallEvent numbers ℕ) → List (TraceEvent numbers ℕ)
own_of [] = []
own_of (e ∷ es) = own e ∷ own_of es

abbrev errors_of : List (RuntimeErrorState ℕ) → List ℕ
errors_of [] = []
errors_of (e ∷ rest) = e.error ∷ errors_of rest

abbrev errors_on_top : ThreadState numbers ℕ → List (FunctionState ℕ ℕ) → List ℕ
errors_on_top t [] = []
errors_on_top t (f ∷ rest) = errors_of (get_runtime_errors_active t.thread_time f)

abbrev failed : ThreadState numbers ℕ
failed = the entered (add_events fresh_bytes erring entered)

error_shown : errors_on_top failed failed.call_stack ≡ 3 ∷ []
unfolding function_index get_instruction forwarding_to_instruction get_active_instruction
    activate_block clear_jumped add_by_val_area add_runtime_error get_runtime_errors_active
    allocation_add allocation_remove allocation_unremove add_block get_allocation
    seec.Allocation.add_block function_start_forward function_end_forward function_end_backward
error_shown = refl

abbrev failed_again : ThreadState numbers ℕ
failed_again = the entered (
    function_end_backward fresh_bytes (call_of 7 7) (own_of erring)
      (the entered (function_end_forward 7 7 failed)))

error_lost : errors_on_top failed_again failed_again.call_stack ≡ []
unfolding function_index get_instruction forwarding_to_instruction get_active_instruction
    activate_block clear_jumped add_by_val_area add_runtime_error get_runtime_errors_active
    allocation_add allocation_remove allocation_unremove add_block get_allocation
    seec.Allocation.add_block function_start_forward function_end_forward function_end_backward
error_lost = refl

function_end_backward-function_end_forward_example :
    (w : ThreadState numbers ℕ) × (function_end_backward fresh_bytes
        (call_of 7 9)
        (events_of activity)
        left
      ≡ some w)
    × (w.call_stack ≡ running.call_stack)
    × ShowsMemory w.memory running_log
    × SameRegions w.memory running.memory
unfolding function_index get_instruction forwarding_to_instruction get_active_instruction
    activate_block clear_jumped add_by_val_area add_runtime_error get_runtime_errors_active
    allocation_add allocation_remove allocation_unremove add_block get_allocation
    seec.Allocation.add_block function_start_forward function_end_forward function_end_backward
function_end_backward-function_end_forward_example =
    function_end_backward-function_end_forward fresh_bytes (call_of 7 9) activity entered running
      left [] running_log refl (tt, (tt, (tt, (tt, tt)))) refl running-ShowsMemory refl

abbrev second : Placement
second = record { parent = 0; instruction = plain }

-- At the first instruction, and at the second.
abbrev at_first : ThreadState numbers ℕ
at_first = the entered (add_event fresh_bytes (instruction 0) entered)

abbrev first_call : FunctionState ℕ ℕ
first_call = top_of at_first.call_stack

abbrev at_second : ThreadState numbers ℕ
at_second = the entered (add_event fresh_bytes (instruction 1) at_first)

instruction_backward-add_event_example :
    (activated : FunctionState ℕ ℕ) × (activate_block fresh_bytes 0 0 first_call ≡ some activated)
    × (instruction_backward fresh_bytes
          (some (record { index = 0; is_pre_instruction = false; errors = [] }))
          at_second
        ≡ some (record at_first { call_stack = activated ∷ [] }))
unfolding function_index get_instruction forwarding_to_instruction get_active_instruction
    activate_block clear_jumped add_by_val_area add_runtime_error get_runtime_errors_active
    allocation_add allocation_remove allocation_unremove instruction_backward stack_restore_backward
    rewinding_to_instruction
instruction_backward-add_event_example =
    instruction_backward-add_event fresh_bytes true 1 0 false second second at_first at_second
      first_call [] refl (omega arith) refl refl refl refl refl

-- The error between two instructions is there twice after a step forward and back.
abbrev erring_step : ThreadState numbers ℕ
erring_step =
    the entered (add_events fresh_bytes (runtime_error true 3 ∷ instruction 1 ∷ []) at_first)

abbrev stepped_back : ThreadState numbers ℕ
stepped_back = the entered (
    instruction_backward fresh_bytes
      (some (record { index = 0; is_pre_instruction = false; errors = runtime_error true 3 ∷ [] }))
      erring_step)

error_twice : errors_of (top_of stepped_back.call_stack).runtime_errors ≡ 3 ∷ 3 ∷ []
unfolding function_index get_instruction forwarding_to_instruction get_active_instruction
    activate_block clear_jumped add_by_val_area add_runtime_error get_runtime_errors_active
    allocation_add allocation_remove allocation_unremove instruction_backward stack_restore_backward
    rewinding_to_instruction
error_twice = refl

-- Two allocas, of which a StackRestore keeps the first.
abbrev other_local : AllocaState
other_local = record { instruction_index = 1; address = 32; element_size = 4; element_count = 1 }

abbrev with_locals : Activity numbers ℕ
with_locals = does (instruction 0) (
    does (alloca local) (
      calls (call_of 8 7) (does (alloca other_local) done)
        (changes (blocks 16 (1 ∷ 2 ∷ [])) (does (alloca other_local) done))))

abbrev two_locals : ThreadState numbers ℕ
two_locals = the entered (add_trace fresh_bytes (events_of with_locals) entered)

abbrev one_local : ThreadState numbers ℕ
one_local = the entered (add_event fresh_bytes (stack_restore (local ∷ [])) two_locals)

one_local_left : one_local.memory ≡ the empty_memory (allocation_remove two_locals.memory 32 4)
unfolding function_index get_instruction forwarding_to_instruction get_active_instruction
    activate_block clear_jumped add_by_val_area add_runtime_error get_runtime_errors_active
    allocation_add allocation_remove allocation_unremove instruction_backward stack_restore_backward
    rewinding_to_instruction function_start_forward function_end_forward add_block get_allocation
    seec.Allocation.add_block
one_local_left = refl

-- Allocas after an earlier StackRestore, and in a call that has ended.
previous_found :
    previous_allocas
      (events_of (does (alloca other_local) (does (stack_restore (local ∷ [])) with_locals)))
    ≡ some (local ∷ local ∷ other_local ∷ [])
previous_found = refl

abbrev two_log : MemoryLog
two_log = record { blocks = running_log.blocks; removed = (32, empty_log 4) ∷ [] }

two_locals-ShowsMemory : ShowsMemory two_locals.memory two_log
unfolding function_index get_instruction forwarding_to_instruction get_active_instruction
    activate_block clear_jumped add_by_val_area add_runtime_error get_runtime_errors_active
    allocation_add allocation_remove allocation_unremove instruction_backward stack_restore_backward
    rewinding_to_instruction function_start_forward function_end_forward add_block get_allocation
    seec.Allocation.add_block
two_locals-ShowsMemory = record {
  sorted = running-ShowsMemory.sorted;
  current = running-ShowsMemory.current;
  past = (
    record {
      here = refl;
      sized = refl;
      fits = omega arith;
      shown = record {
        bytes_fill = refl;
        init_fill = refl;
        cells_shown = refl;
        undo_shown = (refl, refl, refl);
      };
    },
    tt,
  );
}

stack_restore_backward-add_event_example :
    (w : ThreadState numbers ℕ) × (stack_restore_backward (events_of with_locals) one_local
      ≡ some w)
    × (w.call_stack ≡ two_locals.call_stack)
    × ShowsMemory w.memory two_log
    × SameRegions w.memory two_locals.memory
unfolding function_index get_instruction forwarding_to_instruction get_active_instruction
    activate_block clear_jumped add_by_val_area add_runtime_error get_runtime_errors_active
    allocation_add allocation_remove allocation_unremove instruction_backward stack_restore_backward
    rewinding_to_instruction function_start_forward function_end_forward add_block get_allocation
    seec.Allocation.add_block
stack_restore_backward-add_event_example =
    stack_restore_backward-add_event fresh_bytes (call_of 7 9) with_locals (local ∷ []) entered
      two_locals one_local [] two_log refl refl two_locals-ShowsMemory refl
