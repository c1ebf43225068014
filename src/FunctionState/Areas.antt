-- ===== src/FunctionState/Areas.antt =====
-- The areas and the run-time errors of include/seec/Trace/FunctionState.hpp and
-- lib/Trace/FunctionState.cpp.
use seec.Common.{
  ℕ, ◌+◌, ◌==◌, ltb, Bool, true, false, Option, none, some, List, [], ◌∷◌, ◌++◌, if◌then◌else◌,
  assert, ◌>>=◌, ◌>>◌,
}
use seec.Interval.{MemoryArea, memory_area, contains}
use seec.Allocation.{pop_back}
use package.seec.FunctionState.{
  FunctionState, AllocaState, ParamByValState, RuntimeErrorState, get_total_size,
  get_index_of_dbg_declare_for,
}

abbrev pub alloca_area : AllocaState → MemoryArea
alloca_area a = memory_area a.address (get_total_size a)

abbrev pub alloca_containing : ℕ → List AllocaState → Option AllocaState
alloca_containing address [] = none
alloca_containing address (a ∷ rest) =
    if contains (alloca_area a).range address then some a else alloca_containing address rest

abbrev pub param_containing : ℕ → List ParamByValState → Option MemoryArea
param_containing address [] = none
param_containing address (p ∷ rest) =
    if contains p.area.range address then some p.area else param_containing address rest

abbrev pub area_or_param : ℕ → List ParamByValState → Option AllocaState → Option MemoryArea
area_or_param address params (some a) = some (alloca_area a)
area_or_param address params none = param_containing address params

abbrev pub area_of_argument : ℕ → List ParamByValState → Option MemoryArea
area_of_argument argument [] = none
area_of_argument argument (p ∷ rest) =
    if p.argument == argument then some p.area else area_of_argument argument rest

-- `find_if` and `erase`.
abbrev pub erase_containing : ℕ → List ParamByValState → List ParamByValState
erase_containing address [] = []
erase_containing address (p ∷ rest) =
    if contains p.area.range address then rest else p ∷ erase_containing address rest

abbrev pub active_errors :
    {E : Type 0} → ℕ → List (RuntimeErrorState E) → List (RuntimeErrorState E)
active_errors now [] = []
active_errors now (e ∷ rest) = if e.thread_time == now then e ∷ rest else active_errors now rest

abbrev pub is_visible : ℕ → Option ℕ → Bool
is_visible active none = true
is_visible active (some declared) = if ltb (active + 1) declared then false else true

module _ {A E : Type 0} where
  unfoldable pub get_alloca_containing : ℕ → FunctionState A E → Option AllocaState
  get_alloca_containing address fs = alloca_containing address fs.allocas

  unfoldable pub get_containing_memory_area : ℕ → FunctionState A E → Option MemoryArea
  get_containing_memory_area address fs =
      area_or_param address fs.param_by_vals (get_alloca_containing address fs)

  abbrev pub visible_of : ℕ → FunctionState A E → List AllocaState → List AllocaState
  visible_of active fs [] = []
  visible_of active fs (a ∷ rest) =
      let others = visible_of active fs rest in
      if is_visible active (get_index_of_dbg_declare_for fs.function_lookup a.instruction_index)
      then a ∷ others
      else others

  abbrev pub visible_at : Option ℕ → FunctionState A E → List AllocaState
  visible_at none fs = []
  visible_at (some active) fs = visible_of active fs fs.allocas

  unfoldable pub get_visible_allocas : FunctionState A E → List AllocaState
  get_visible_allocas fs = visible_at fs.active_instruction fs

  -- The thread's time is that of the parent ThreadState.
  unfoldable pub get_runtime_errors_active : ℕ → FunctionState A E → List (RuntimeErrorState E)
  get_runtime_errors_active now fs = active_errors now fs.runtime_errors

  unfoldable pub add_runtime_error : ℕ → E → FunctionState A E → Option (FunctionState A E)
  add_runtime_error now error fs = fs.active_instruction >>= λ i. some (record fs {
    runtime_errors =
        fs.runtime_errors
        ++ (record { instruction_index = i; error = error; thread_time = now } ∷ []);
  })

  abbrev pub drop_last_error :
      List (RuntimeErrorState E) → FunctionState A E → Option (FunctionState A E)
  drop_last_error [] fs = none
  drop_last_error (e ∷ rest) fs = some (record fs { runtime_errors = pop_back (e ∷ rest) })

  unfoldable pub remove_last_runtime_error : FunctionState A E → Option (FunctionState A E)
  remove_last_runtime_error fs = drop_last_error fs.runtime_errors fs

  unfoldable pub get_param_by_val_area : ℕ → FunctionState A E → Option MemoryArea
  get_param_by_val_area argument fs = area_of_argument argument fs.param_by_vals

  unfoldable pub add_by_val_area : ℕ → ℕ → ℕ → FunctionState A E → Option (FunctionState A E)
  add_by_val_area argument address size fs =
      assert (ltb argument fs.function_lookup.arg_count)
      >> some (record fs {
        param_by_vals =
            fs.param_by_vals
            ++ (record { argument = argument; area = memory_area address size } ∷ []);
      })

  unfoldable pub remove_by_val_area : ℕ → FunctionState A E → FunctionState A E
  remove_by_val_area address fs = record fs {
    param_by_vals = erase_containing address fs.param_by_vals;
  }
