-- ===== src/CallStack/Steps.antt =====
-- Moving a thread over the events of its call stack, forward and backward.
use seec.Common.{
  ℕ, ◌+◌, ◌-◌, ◌%◌, ◌==◌, Bool, Option, none, some, List, [], ◌∷◌, if◌then◌else◌, assert, ◌>>=◌,
  ◌>>◌,
}
use seec.Interval.{word}
use seec.Memory.{allocation_add, allocation_unadd}
use seec.Allocation.{back, pop_back}
use seec.ValueStore.{BasicBlockInfo}
use seec.ValueStore.Store.{Host}
use seec.FunctionState.{FunctionIndex, function_state, get_total_size}
use seec.FunctionState.Blocks.{forwarding_to_instruction}
use seec.FunctionState.InstructionValues.{HostFunction}
use seec.FunctionState.Areas.{add_runtime_error, remove_last_runtime_error, remove_by_val_area}
use package.seec.CallStack.{
  CallEvent, pre_instruction, instruction, instruction_with, alloca, stack_restore,
  by_val_region_add, runtime_error, new_thread_time, ThreadState, from_mismatch, remove_allocas,
  remove_by_vals, readd_event, tick, with_top, with_memory, top_allocas,
}

module _ {host : Host} {E : Type 0} (fresh : ℕ → List ℕ) where
  abbrev pub run_instruction :
      ℕ → CallEvent host E → HostFunction host E → Option (HostFunction host E)
  run_instruction i e f =
      forwarding_to_instruction fresh host.zero_apfloat i f >>= readd_event {host = host} e

  -- `addEvent`.
  abbrev pub add_event : CallEvent host E → ThreadState host E → Option (ThreadState host E)
  add_event (pre_instruction i) t =
      with_top (run_instruction i (pre_instruction i)) t >>= λ u. some (tick u)
  add_event (instruction i) t =
      with_top (run_instruction i (instruction i)) t >>= λ u. some (tick u)
  add_event (instruction_with v i) t =
      with_top (run_instruction i (instruction_with v i)) t >>= λ u. some (tick u)
  add_event (alloca a) t =
      with_top (readd_event {host = host} (alloca a)) t
      >>= with_memory (λ m. allocation_add m a.address (get_total_size a))
  add_event (stack_restore restored) t =
      with_top (readd_event {host = host} (stack_restore restored)) t >>= λ u.
      from_mismatch (top_allocas u.call_stack) (top_allocas t.call_stack) >>= λ gone.
      with_memory (remove_allocas gone) u
  add_event (by_val_region_add argument a n) t =
      with_top (readd_event {host = host} (by_val_region_add argument a n)) t
      >>= with_memory (λ m. allocation_add m a n)
  add_event (runtime_error is_top_level error) t =
      if is_top_level then with_top (add_runtime_error t.thread_time error) t else some t
  add_event new_thread_time t = some (tick t)

  abbrev pub add_events : List (CallEvent host E) → ThreadState host E → Option (ThreadState host E)
  add_events [] t = some t
  add_events (e ∷ es) t = add_event e t >>= add_events es

  -- ThreadMovementDispatcher::restoreEventForwarder: an instruction is added, and another event is
  -- readded where it has a `readdEvent`.
  abbrev pub restore_event : CallEvent host E → ThreadState host E → Option (ThreadState host E)
  restore_event (pre_instruction i) t = add_event (pre_instruction i) t
  restore_event (instruction i) t = add_event (instruction i) t
  restore_event (instruction_with v i) t = add_event (instruction_with v i) t
  restore_event (alloca a) t = with_top (readd_event {host = host} (alloca a)) t
  restore_event (stack_restore restored) t =
      with_top (readd_event {host = host} (stack_restore restored)) t
  restore_event (by_val_region_add argument a n) t =
      with_top (readd_event {host = host} (by_val_region_add argument a n)) t
  restore_event (runtime_error is_top_level error) t =
      add_event (runtime_error is_top_level error) t
  restore_event new_thread_time t = some t

-- Popping a call that the two assertions of its handler admit.
abbrev pub pop_call : {F : Type 0} → (F → ℕ) → ℕ → List F → Option (F × List F)
pop_call index_of index [] = none
pop_call index_of index (f ∷ rest) = assert (index_of f == index) >> some (f, rest)

module _ {host : Host} {E : Type 0} where
  unfoldable pub function_start_forward :
      FunctionIndex → List BasicBlockInfo → ℕ → ℕ → ThreadState host E → ThreadState host E
  function_start_forward lookup infos index entered t = record t {
    call_stack = function_state index lookup infos ∷ t.call_stack;
    thread_time = entered;
  }

  unfoldable pub function_start_backward : ℕ → ℕ → ThreadState host E → Option (ThreadState host E)
  function_start_backward index entered t =
      pop_call (λ (f : HostFunction host E). f.index) index t.call_stack >>= λ (f, rest).
      some (record t { call_stack = rest; thread_time = (entered + word - 1) % word })

  unfoldable pub function_end_forward : ℕ → ℕ → ThreadState host E → Option (ThreadState host E)
  function_end_forward index exited t =
      pop_call (λ (f : HostFunction host E). f.index) index t.call_stack >>= λ (f, rest).
      remove_by_vals f.param_by_vals t.memory >>= remove_allocas f.allocas >>= λ m.
      some (record { memory = m; thread_time = exited; call_stack = rest })

  abbrev pub drop_alloca :
      List (HostFunction host E) → ThreadState host E → Option (ThreadState host E)
  drop_alloca [] t = none
  drop_alloca (f ∷ rest) t = back f.allocas >>= λ a.
      allocation_unadd t.memory a.address (get_total_size a) >>= λ m.
      some (record t { memory = m; call_stack = record f { allocas = pop_back f.allocas } ∷ rest })

  unfoldable pub alloca_backward : ThreadState host E → Option (ThreadState host E)
  alloca_backward t = drop_alloca t.call_stack t

  unfoldable pub by_val_region_add_backward :
      ℕ → ℕ → ThreadState host E → Option (ThreadState host E)
  by_val_region_add_backward a n t =
      with_top (λ f. some (remove_by_val_area a f)) t >>= with_memory (λ m. allocation_unadd m a n)

  unfoldable pub runtime_error_backward : Bool → ThreadState host E → Option (ThreadState host E)
  runtime_error_backward is_top_level t =
      if is_top_level then with_top remove_last_runtime_error t else some t

  abbrev pub new_thread_time_backward : ThreadState host E → ThreadState host E
  new_thread_time_backward t = record t { thread_time = (t.thread_time + word - 1) % word }
