-- ===== src/CallStack/Walk.antt =====
-- Walks over the trace of a thread in lib/Trace/ThreadState.cpp: moving forward over it, and the loop
-- of `removeEvent` of a FunctionEnd that restores the events of the call. An iterator is the list of
-- the events from it on, up to the event at which the loop ends.
use seec.Common.{
  ℕ, zero, suc, Bool, true, false, if◌then◌else◌, ◌+◌, ◌-◌, ◌%◌, Option, none, some, List, [], ◌∷◌,
  ◌++◌, ◌>>=◌,
}
use seec.Interval.{word}
use seec.Memory.Edits.{Edit, forward}
use seec.ValueStore.{BasicBlockInfo}
use seec.ValueStore.Store.{Host}
use seec.FunctionState.{FunctionIndex, AllocaState, function_state}
use seec.FunctionState.InstructionValues.{HostFunction}
use package.seec.CallStack.{
  CallEvent, pre_instruction, instruction, instruction_with, alloca, stack_restore,
  by_val_region_add, runtime_error, new_thread_time, ThreadState, unremove_allocas,
  unremove_by_vals, with_memory,
}
use package.seec.CallStack.Steps.{
  add_event, restore_event, function_start_forward, function_end_forward,
}

-- What FunctionTrace and the module tell of a call. `event_count` is the distance from the
-- FunctionStart to the FunctionEnd.
pub record FunctionTrace : Type 0 where
  pub lookup : FunctionIndex
  pub infos : List BasicBlockInfo
  pub index : ℕ
  pub entered : ℕ
  pub exited : ℕ
  pub event_count : ℕ

-- An event of a thread: one of a call, the start or the end of a call, or a change of the memory.
pub data TraceEvent (host : Host) (E : Type 0) : Type 0 where
  own : CallEvent host E → TraceEvent host E
  function_start function_end : FunctionTrace → TraceEvent host E
  memory_event : Edit → TraceEvent host E

module _ {host : Host} {E : Type 0} (fresh : ℕ → List ℕ) where
  abbrev pub add_trace_event : TraceEvent host E → ThreadState host E → Option (ThreadState host E)
  add_trace_event (own e) t = add_event fresh e t
  add_trace_event (function_start c) t =
      some (function_start_forward c.lookup c.infos c.index c.entered t)
  add_trace_event (function_end c) t = function_end_forward c.index c.exited t
  add_trace_event (memory_event e) t = with_memory (forward e) t

  abbrev pub add_trace : List (TraceEvent host E) → ThreadState host E → Option (ThreadState host E)
  add_trace [] t = some t
  add_trace (e ∷ es) t = add_trace_event e t >>= add_trace es

  -- The loop of `removeEvent`, which skips as many events as the first number says. A child that
  -- ends behind the last event is run past it.
  abbrev pub restore_trace :
      ℕ → List (TraceEvent host E) → ThreadState host E → Option (ThreadState host E)
  restore_trace zero [] t = some t
  restore_trace (suc skipped) [] t = none
  restore_trace (suc skipped) (e ∷ es) t = restore_trace skipped es t
  restore_trace zero (own e ∷ es) t = restore_event fresh e t >>= restore_trace zero es
  restore_trace zero (function_start c ∷ es) t =
      restore_trace c.event_count es (record t { thread_time = c.exited })
  restore_trace zero (function_end c ∷ es) t = restore_trace zero es t
  restore_trace zero (memory_event e ∷ es) t = restore_trace zero es t

module _ {host : Host} {E : Type 0} where
  -- Restoring the memory of the call on top, and the thread time.
  abbrev pub restore_memory :
      ℕ → ThreadState host E → List (HostFunction host E) → Option (ThreadState host E)
  restore_memory exited t [] = none
  restore_memory exited t (f ∷ rest) =
      unremove_allocas f.allocas t.memory >>= unremove_by_vals f.param_by_vals >>= λ m.
      some (record t { memory = m; thread_time = (exited + word - 1) % word })

  -- `events` are those from behind the FunctionStart of the call up to its FunctionEnd.
  unfoldable pub function_end_backward :
      (ℕ → List ℕ)
      → FunctionTrace
      → List (TraceEvent host E)
      → ThreadState host E
      → Option (ThreadState host E)
  function_end_backward fresh c events t =
      restore_trace fresh zero events
        (record t { call_stack = function_state c.index c.lookup c.infos ∷ t.call_stack })
      >>= λ u. restore_memory c.exited u u.call_stack

-- The search for what a StackRestore removed.
abbrev pub restored_by : {host : Host} {E : Type 0} → CallEvent host E → Option (List AllocaState)
restored_by (stack_restore restored) = some restored
restored_by (pre_instruction i) = none
restored_by (instruction i) = none
restored_by (instruction_with v i) = none
restored_by (alloca a) = none
restored_by (by_val_region_add argument a n) = none
restored_by (runtime_error is_top_level error) = none
restored_by new_thread_time = none

-- `readdEvent` of an Alloca, which appends it; other events are passed over.
abbrev pub readd_alloca :
    {host : Host} {E : Type 0} → CallEvent host E → List AllocaState → List AllocaState
readd_alloca (alloca a) allocas = allocas ++ (a ∷ [])
readd_alloca (stack_restore restored) allocas = allocas
readd_alloca (pre_instruction i) allocas = allocas
readd_alloca (instruction i) allocas = allocas
readd_alloca (instruction_with v i) allocas = allocas
readd_alloca (by_val_region_add argument a n) allocas = allocas
readd_alloca (runtime_error is_top_level error) allocas = allocas
readd_alloca new_thread_time allocas = allocas

abbrev pub reverse_onto : {X : Type 0} → List X → List X → List X
reverse_onto [] ys = ys
reverse_onto (x ∷ xs) ys = reverse_onto xs (x ∷ ys)

module _ {host : Host} {E : Type 0} where
  abbrev pub found_or :
      Option (List AllocaState)
      → List (TraceEvent host E)
      → Option (List AllocaState × List (TraceEvent host E))
      → Option (List AllocaState × List (TraceEvent host E))
  found_or (some restored) behind further = some (restored, behind)
  found_or none behind further = further

  -- `rfindInFunction` of a StackRestore, which skips as many events as the first number says: over
  -- the events of the call in reverse order, with those that were passed behind them. At the start
  -- of the call nothing was found.
  abbrev pub rfind_in_function :
      ℕ
      → List (TraceEvent host E)
      → List (TraceEvent host E)
      → Option (List AllocaState × List (TraceEvent host E))
  rfind_in_function skipped [] behind = none
  rfind_in_function (suc skipped) (e ∷ es) behind = rfind_in_function skipped es (e ∷ behind)
  rfind_in_function zero (own e ∷ es) behind =
      let further = rfind_in_function zero es (own e ∷ behind) in
      found_or (restored_by e) behind further
  rfind_in_function zero (function_end c ∷ es) behind =
      rfind_in_function c.event_count es (function_end c ∷ behind)
  rfind_in_function zero (function_start c ∷ es) behind = none
  rfind_in_function zero (memory_event e ∷ es) behind =
      rfind_in_function zero es (memory_event e ∷ behind)

  -- The loops that readd the allocas, which skip the events of children; the second one of the
  -- handler stops at a FunctionEnd. A child that ends behind the last event is run past it, which
  -- the first one asserts not to happen.
  abbrev pub readd_allocas :
      Bool → ℕ → List (TraceEvent host E) → List AllocaState → Option (List AllocaState)
  readd_allocas stops zero [] allocas = some allocas
  readd_allocas stops (suc skipped) [] allocas = none
  readd_allocas stops (suc skipped) (e ∷ es) allocas = readd_allocas stops skipped es allocas
  readd_allocas stops zero (own e ∷ es) allocas =
      readd_allocas stops zero es (readd_alloca e allocas)
  readd_allocas stops zero (function_start c ∷ es) allocas =
      readd_allocas stops c.event_count es allocas
  readd_allocas stops zero (function_end c ∷ es) allocas =
      let rest = readd_allocas stops zero es allocas in if stops then some allocas else rest
  readd_allocas stops zero (memory_event e ∷ es) allocas = readd_allocas stops zero es allocas

  abbrev pub readd_from :
      List (TraceEvent host E)
      → Option (List AllocaState × List (TraceEvent host E))
      → Option (List AllocaState)
  readd_from before (some (restored, behind)) = readd_allocas false zero behind restored
  readd_from before none = readd_allocas true zero before []

  -- The allocas before a StackRestore, from the events of the call before it.
  abbrev pub previous_allocas : List (TraceEvent host E) → Option (List AllocaState)
  previous_allocas before = readd_from before (rfind_in_function zero (reverse_onto before []) [])
