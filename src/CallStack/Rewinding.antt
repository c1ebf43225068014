-- ===== src/CallStack/Rewinding.antt =====
-- `removeEvent` of the instructions and of a StackRestore in lib/Trace/ThreadState.cpp. What the
-- first ones look for in the trace is a parameter: the previous instruction of the call, whether it
-- is a PreInstruction, and the errors between it and the event.
use seec.Common.{
  ℕ, ◌+◌, ◌-◌, ◌%◌, ◌≡◌, refl, sym, ap, ◌∙◌, Bool, true, false, Option, none, some, List, [], ◌∷◌,
  ◌>>=◌, >>=-eq-some, some-injective,
}
use seec.Interval.{word}
use seec.Memory.View.{MemoryLog, ShowsMemory}
use seec.Memory.Edits.Observed.{SameRegions}
use seec.ValueStore.Store.{Host}
use seec.FunctionState.{FunctionState, AllocaState, function_state}
use seec.FunctionState.Blocks.{
  rewinding_to_instruction, set_active_instruction_complete, set_active_instruction_incomplete,
  clear_active_instruction,
}
use seec.FunctionState.InstructionValues.{HostFunction}
use package.seec.CallStack.{
  CallEvent, stack_restore, ThreadState, from_mismatch, remove_allocas, unremove_allocas,
  readd_event, with_top, with_memory, top_allocas,
}
use package.seec.CallStack.Steps.{add_event, add_events}
use package.seec.CallStack.Replay.{with_top-applies}
use package.seec.CallStack.Walk.{FunctionTrace, TraceEvent, add_trace, previous_allocas}
use package.seec.CallStack.Allocas.{push_allocas_lem}
use package.seec.CallStack.Activities.{Activity, events_of, activity-on_top}
use package.seec.CallStack.Searches.{previous_allocas-allocas_of}
use package.seec.CallStack.FunctionEnds.{call_memory-Restored}

-- The previous instruction event of the call.
pub record PreviousInstruction (host : Host) (E : Type 0) : Type 0 where
  pub index : ℕ
  pub is_pre_instruction : Bool
  pub errors : List (CallEvent host E)

module _ {A E : Type 0} where
  abbrev pub set_previous : Bool → ℕ → FunctionState A E → FunctionState A E
  set_previous true i f = set_active_instruction_incomplete i f
  set_previous false i f = set_active_instruction_complete i f

module _ {host : Host} {E : Type 0} (fresh : ℕ → List ℕ) where
  abbrev pub make_previous_instruction_active :
      Option (PreviousInstruction host E) → ThreadState host E → Option (ThreadState host E)
  make_previous_instruction_active none t = with_top (λ f. some (clear_active_instruction f)) t
  make_previous_instruction_active (some p) t =
      with_top
        (λ f. rewinding_to_instruction p.index f >>= λ g.
          some (set_previous p.is_pre_instruction p.index g))
        t
      >>= add_events fresh p.errors

  unfoldable pub instruction_backward :
      Option (PreviousInstruction host E) → ThreadState host E → Option (ThreadState host E)
  instruction_backward previous t = make_previous_instruction_active previous t >>= λ u.
      some (record u { thread_time = (u.thread_time + word - 1) % word })

module _ {host : Host} {E : Type 0} where
  -- The allocas of the call become `pre`, and the areas of those that are new are unremoved.
  abbrev pub readd_previous : List AllocaState → ThreadState host E → Option (ThreadState host E)
  readd_previous pre t =
      with_top (λ (f : HostFunction host E). some (record f { allocas = pre })) t >>= λ u.
      from_mismatch (top_allocas t.call_stack) pre >>= λ gone. with_memory (unremove_allocas gone) u

  -- `before` are the events from behind the FunctionStart of the call up to the StackRestore.
  unfoldable pub stack_restore_backward :
      List (TraceEvent host E) → ThreadState host E → Option (ThreadState host E)
  stack_restore_backward before t = previous_allocas before >>= λ pre. readd_previous pre t

module _ {host : Host} {E : Type 0} (fresh : ℕ → List ℕ) where
  -- What adding a StackRestore does to the call on top and to the memory.
  stack_restore-inverts :
      (restored : List AllocaState) (t u : ThreadState host E) (f : HostFunction host E)
      (rest : List (HostFunction host E))
      → t.call_stack ≡ f ∷ rest
      → add_event fresh (stack_restore restored) t ≡ some u
      → (gone : List AllocaState) × (from_mismatch restored f.allocas ≡ some gone)
        × (remove_allocas gone t.memory ≡ some u.memory)
        × (u.call_stack ≡ record f { allocas = restored } ∷ rest)
  stack_restore-inverts restored t u f rest top e =
      let readds =
        with_top-applies (readd_event {host = host} (stack_restore restored)) t f
          (record f { allocas = restored }) rest top
          (ap some (push_allocas_lem restored (record f { allocas = [] }))) in
      let after : ThreadState host E = record t {
        call_stack = record f { allocas = restored } ∷ rest;
      } in
      let finish : ThreadState host E → Option (ThreadState host E) = λ x.
        (from_mismatch (top_allocas x.call_stack) (top_allocas t.call_stack) >>= λ gone.
        with_memory (remove_allocas gone) x) in
      let (gone, differs, removes) =
        >>=-eq-some (from_mismatch restored (top_allocas t.call_stack))
          (λ gone. with_memory (remove_allocas gone) after)
          (sym (ap (λ o. o >>= finish) readds) ∙ e) in
      let (m, removed, made) = >>=-eq-some (remove_allocas gone t.memory) _ removes in
      let is = some-injective _ _ made in
      (
        gone,
        sym (ap (λ s. from_mismatch restored (top_allocas s)) top) ∙ differs,
        removed ∙ ap (λ (x : ThreadState host E). some x.memory) is,
        ap (λ (x : ThreadState host E). x.call_stack) (sym is),
      )

  -- Readding the allocas that a call had undoes a StackRestore.
  readd_previous-add_event :
      (restored : List AllocaState) (t u : ThreadState host E) (f : HostFunction host E)
      (rest : List (HostFunction host E)) (s : MemoryLog)
      → t.call_stack ≡ f ∷ rest
      → ShowsMemory t.memory s
      → add_event fresh (stack_restore restored) t ≡ some u
      → (w : ThreadState host E) × (readd_previous f.allocas u ≡ some w)
        × (w.call_stack ≡ t.call_stack)
        × ShowsMemory w.memory s
        × SameRegions w.memory t.memory
  readd_previous-add_event restored t u f rest s top sh e =
      let (gone, differs, removed, on_top) = stack_restore-inverts restored t u f rest top e in
      let (n, back, shn, same) = call_memory-Restored gone [] t.memory u.memory s sh removed in
      let (m, unremoved, is) = >>=-eq-some (unremove_allocas gone u.memory) _ back in
      let readds =
        with_top-applies (λ (g : HostFunction host E). some (record g { allocas = f.allocas })) u
          (record f { allocas = restored }) f rest on_top refl in
      let finish : ThreadState host E → Option (ThreadState host E) = λ x.
        (from_mismatch (top_allocas u.call_stack) f.allocas >>= λ gone.
        with_memory (unremove_allocas gone) x) in
      let found = ap (λ q. from_mismatch (top_allocas q) f.allocas) on_top ∙ differs in
      let after : ThreadState host E = record u { call_stack = f ∷ rest } in
      (
        record after { memory = n },
        ap (λ o. o >>= finish) readds
            ∙ ap (λ o. o >>= λ gone. with_memory (unremove_allocas gone) after) found
            ∙ ap (λ o. o >>= λ x. some (record after { memory = x })) (unremoved ∙ is),
        sym top,
        shn,
        same,
      )

  -- A call starts with a new FunctionState, and moving forward over what it does succeeds: its own
  -- events, Allocas and other StackRestores among them, and in between changes of the memory and
  -- calls of other functions, each with its end. A StackRestore that then succeeds is undone by its
  -- `removeEvent`, which finds the allocas in the events of the call: the call stack is as before it,
  -- the memory shows the log that it showed before it, and every region has the initialization and
  -- the initialized bytes that it had; bytes that are not initialized may differ.
  pub stack_restore_backward-add_event :
      (c : FunctionTrace) (a : Activity host E) (restored : List AllocaState)
      (t u v : ThreadState host E) (rest : List (HostFunction host E)) (s : MemoryLog)
      → t.call_stack ≡ function_state c.index c.lookup c.infos ∷ rest
      → add_trace fresh (events_of a) t ≡ some u
      → ShowsMemory u.memory s
      → add_event fresh (stack_restore restored) u ≡ some v
      → (w : ThreadState host E) × (stack_restore_backward (events_of a) v ≡ some w)
        × (w.call_stack ≡ u.call_stack)
        × ShowsMemory w.memory s
        × SameRegions w.memory u.memory
  unfolding stack_restore_backward
  stack_restore_backward-add_event c a restored t u v rest s top ran sh e =
      let (f, stack, left) =
        activity-on_top fresh a t u (function_state c.index c.lookup c.infos) rest top ran in
      let (w, back, tops, shown, same) =
        readd_previous-add_event restored u v f rest s stack sh e in
      let found = previous_allocas-allocas_of a ∙ ap some (sym left) in
      (w, ap (λ o. o >>= λ pre. readd_previous pre v) found ∙ back, tops, shown, same)
