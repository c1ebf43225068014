-- ===== src/CallStack.antt =====
-- `ThreadState::addEvent`, `readdEvent` and `removeEvent` of lib/Trace/ThreadState.cpp, for the events
-- that change the call stack. The call stack has the active function at the head of the list. An
-- event carries what the code looks up for it in the trace: the AllocaState that is built from an
-- Alloca and the InstructionWithPtr before it, those that a StackRestore leaves, a deserialized
-- error. `exited` and `entered` are the thread times of the FunctionStart.
pub mod Steps
pub mod Walk
pub mod Popping
pub mod Replay
pub mod Allocas
pub mod Activities
pub mod Searches
pub mod FunctionEnds
pub mod Rewinding
pub mod Instructions
mod Tests
use seec.Common.{
  ℕ, ◌+◌, ◌%◌, ◌==◌, ◌&&◌, Bool, Option, none, some, List, [], ◌∷◌, ◌++◌, if◌then◌else◌, assert,
  ◌>>=◌, ◌>>◌,
}
use seec.Interval.{word, address, area_length}
use seec.Memory.{MemoryState, allocation_remove, allocation_unremove}
use seec.ValueStore.Store.{Host}
use seec.FunctionState.{
  FunctionState, AllocaState, ParamByValState, get_instruction, get_total_size,
}
use seec.FunctionState.Blocks.{set_active_instruction_complete, set_active_instruction_incomplete}
use seec.FunctionState.InstructionValues.{
  HostFunction, set_value_uint64, set_value_ptr, set_value_float, set_value_double,
  set_value_apfloat,
}
use seec.FunctionState.Areas.{add_by_val_area}

pub data InstructionValue (host : Host) : Type 0 where
  uint64 ptr : ℕ → InstructionValue host
  float : host.Float → InstructionValue host
  double : host.Double → InstructionValue host
  long_double : host.ApFloat → InstructionValue host

-- An event of a function: Index; Value and Index; Argument, Address and Size; IsTopLevel.
pub data CallEvent (host : Host) (E : Type 0) : Type 0 where
  pre_instruction instruction : ℕ → CallEvent host E
  instruction_with : InstructionValue host → ℕ → CallEvent host E
  alloca : AllocaState → CallEvent host E
  stack_restore : List AllocaState → CallEvent host E
  by_val_region_add : ℕ → ℕ → ℕ → CallEvent host E
  runtime_error : Bool → E → CallEvent host E
  new_thread_time : CallEvent host E

-- `memory` is the parent process's.
pub record ThreadState (host : Host) (E : Type 0) : Type 0 where
  pub memory : MemoryState
  pub thread_time : ℕ
  pub call_stack : List (HostFunction host E)

abbrev pub alloca_eq : AllocaState → AllocaState → Bool
alloca_eq a b =
    a.instruction_index == b.instruction_index
    && a.address == b.address
    && a.element_size == b.element_size
    && a.element_count == b.element_count

-- `std::mismatch(Post.begin(), Post.end(), Pre.begin())`, and what `Pre` has from there on. Where
-- `Pre` ends first, it reads through end().
abbrev pub from_mismatch : List AllocaState → List AllocaState → Option (List AllocaState)
from_mismatch [] pre = some pre
from_mismatch (a ∷ post) [] = none
from_mismatch (a ∷ post) (b ∷ pre) =
    let rest = from_mismatch post pre in if alloca_eq a b then rest else some (b ∷ pre)

abbrev pub remove_allocas : List AllocaState → MemoryState → Option MemoryState
remove_allocas [] m = some m
remove_allocas (a ∷ rest) m =
    allocation_remove m a.address (get_total_size a) >>= remove_allocas rest

abbrev pub remove_by_vals : List ParamByValState → MemoryState → Option MemoryState
remove_by_vals [] m = some m
remove_by_vals (p ∷ rest) m =
    allocation_remove m (address p.area) (area_length p.area) >>= remove_by_vals rest

-- Over the vector in reverse order.
abbrev pub unremove_allocas : List AllocaState → MemoryState → Option MemoryState
unremove_allocas [] m = some m
unremove_allocas (a ∷ rest) m =
    unremove_allocas rest m >>= λ n. allocation_unremove n a.address (get_total_size a)

abbrev pub unremove_by_vals : List ParamByValState → MemoryState → Option MemoryState
unremove_by_vals [] m = some m
unremove_by_vals (p ∷ rest) m =
    unremove_by_vals rest m >>= λ n. allocation_unremove n (address p.area) (area_length p.area)

module _ {A E : Type 0} where
  abbrev pub push_alloca : AllocaState → FunctionState A E → FunctionState A E
  push_alloca a f = record f { allocas = f.allocas ++ (a ∷ []) }

  abbrev pub push_allocas : List AllocaState → FunctionState A E → FunctionState A E
  push_allocas [] f = f
  push_allocas (a ∷ rest) f = push_allocas rest (push_alloca a f)

  abbrev pub top_allocas : List (FunctionState A E) → List AllocaState
  top_allocas [] = []
  top_allocas (f ∷ rest) = f.allocas

-- A change of `*(CallStack.back())`.
abbrev pub change_top : {F : Type 0} → (F → Option F) → List F → Option (List F)
change_top change [] = none
change_top change (f ∷ rest) = change f >>= λ g. some (g ∷ rest)

module _ {host : Host} {E : Type 0} where
  -- The setter that the type of the event chooses; a long double that is not an x86_fp80 is the
  -- `llvm_unreachable`.
  abbrev pub set_event_value :
      InstructionValue host → ℕ → HostFunction host E → Option (HostFunction host E)
  set_event_value (uint64 v) i f = set_value_uint64 host i v f
  set_event_value (ptr v) i f = set_value_ptr host i v f
  set_event_value (float v) i f = set_value_float host i v f
  set_event_value (double v) i f = set_value_double host i v f
  set_event_value (long_double v) i f = get_instruction f.function_lookup i >>= λ at_i.
      assert at_i.instruction.type.is_x86_fp80 >> set_value_apfloat host i v f

  -- A RuntimeError has no `readdEvent`.
  abbrev pub readd_event : CallEvent host E → HostFunction host E → Option (HostFunction host E)
  readd_event (pre_instruction i) f = some (set_active_instruction_incomplete i f)
  readd_event (instruction i) f = some (set_active_instruction_complete i f)
  readd_event (instruction_with v i) f =
      set_event_value v i f >>= λ g. some (set_active_instruction_complete i g)
  readd_event (alloca a) f = some (push_alloca a f)
  readd_event (stack_restore restored) f = some (push_allocas restored (record f { allocas = [] }))
  readd_event (by_val_region_add argument a n) f = add_by_val_area argument a n f
  readd_event (runtime_error is_top_level error) f = none
  readd_event new_thread_time f = some f

  abbrev pub tick : ThreadState host E → ThreadState host E
  tick t = record t { thread_time = (t.thread_time + 1) % word }

  abbrev pub with_top :
      (HostFunction host E → Option (HostFunction host E))
      → ThreadState host E
      → Option (ThreadState host E)
  with_top change t =
      change_top change t.call_stack >>= λ stack. some (record t { call_stack = stack })

  abbrev pub with_memory :
      (MemoryState → Option MemoryState) → ThreadState host E → Option (ThreadState host E)
  with_memory change t = change t.memory >>= λ m. some (record t { memory = m })
