-- ===== src/CallStack/FunctionEnds.antt =====
-- `removeEvent` of a FunctionEnd after its `addEvent`: the call that it rebuilds.
use mathlib.Core.Path.{fun_ext}
use seec.Common.{
  ℕ, ◌+◌, ◌-◌, ◌%◌, ◌≡◌, refl, sym, ap, subst, ◌∙◌, Option, none, some, List, [], ◌∷◌, ◌++◌, ◌>>=◌,
}
use seec.Interval.{word, address, area_length}
use seec.Memory.{MemoryState, allocation_remove}
use seec.Memory.View.{MemoryLog, ShowsMemory}
use seec.Memory.Edits.{Edit, removes, AllInRange, backward, run_forward, run_backward}
use seec.Memory.Edits.Observed.{SameRegions}
use seec.Memory.RoundTrips.{Restored, run_backward-run_forward}
use seec.ValueStore.Store.{Host}
use seec.FunctionState.{AllocaState, ParamByValState, function_state, get_total_size}
use seec.FunctionState.InstructionValues.{HostFunction}
use package.seec.CallStack.{
  ThreadState, remove_allocas, remove_by_vals, unremove_allocas, unremove_by_vals,
}
use package.seec.CallStack.Steps.{function_end_forward}
use package.seec.CallStack.Walk.{FunctionTrace, add_trace, restore_memory, function_end_backward}
use package.seec.CallStack.Popping.{function_end_forward-inverts}
use package.seec.CallStack.Replay.{AllTimeless}
use package.seec.CallStack.Activities.{
  Activity, events_of, own_events, activity-replay, restore_trace-replay,
}

-- The memory's changes when a call ends, as edits.
abbrev pub alloca_edits : List AllocaState → List Edit
alloca_edits [] = []
alloca_edits (a ∷ rest) = removes a.address (get_total_size a) ∷ alloca_edits rest

abbrev pub by_val_edits : List ParamByValState → List Edit
by_val_edits [] = []
by_val_edits (p ∷ rest) = removes (address p.area) (area_length p.area) ∷ by_val_edits rest

alloca_edits-AllInRange : (xs : List AllocaState) → AllInRange (alloca_edits xs)
alloca_edits-AllInRange [] = tt
alloca_edits-AllInRange (a ∷ rest) = (tt, alloca_edits-AllInRange rest)

by_val_edits-AllInRange :
    (ps : List ParamByValState) (es : List Edit)
    → AllInRange es
    → AllInRange (by_val_edits ps ++ es)
by_val_edits-AllInRange [] es w = w
by_val_edits-AllInRange (p ∷ rest) es w = (tt, by_val_edits-AllInRange rest es w)

remove_allocas-run_forward :
    (xs : List AllocaState) (m : MemoryState)
    → remove_allocas xs m ≡ run_forward (alloca_edits xs) m
remove_allocas-run_forward [] m = refl
remove_allocas-run_forward (a ∷ rest) m =
    ap (λ g. allocation_remove m a.address (get_total_size a) >>= g)
      (fun_ext (remove_allocas-run_forward rest))

unremove_allocas-run_backward :
    (xs : List AllocaState) (m : MemoryState)
    → unremove_allocas xs m ≡ run_backward (alloca_edits xs) m
unremove_allocas-run_backward [] m = refl
unremove_allocas-run_backward (a ∷ rest) m =
    ap (λ o. o >>= backward (removes a.address (get_total_size a)))
      (unremove_allocas-run_backward rest m)

>>=-assoc :
    {X Y Z : Type 0} (o : Option X) (f : X → Option Y) (g : Y → Option Z)
    → (o >>= λ x. (f x >>= g)) ≡ (o >>= f >>= g)
>>=-assoc none f g = refl
>>=-assoc (some x) f g = refl

-- The by-value areas and then other edits.
remove_by_vals-run_forward :
    (ps : List ParamByValState) (es : List Edit) (m : MemoryState)
    → (remove_by_vals ps m >>= run_forward es) ≡ run_forward (by_val_edits ps ++ es) m
remove_by_vals-run_forward [] es m = refl
remove_by_vals-run_forward (p ∷ rest) es m =
    let removed = allocation_remove m (address p.area) (area_length p.area) in
    sym (>>=-assoc removed (remove_by_vals rest) (run_forward es))
    ∙ ap (λ g. removed >>= g) (fun_ext (remove_by_vals-run_forward rest es))

unremove_by_vals-run_backward :
    (ps : List ParamByValState) (es : List Edit) (m : MemoryState)
    → (run_backward es m >>= unremove_by_vals ps) ≡ run_backward (by_val_edits ps ++ es) m
unremove_by_vals-run_backward [] es m = bind_some (run_backward es m)
  where
    bind_some : (o : Option MemoryState) → (o >>= λ x. some x) ≡ o
    bind_some none = refl
    bind_some (some x) = refl
unremove_by_vals-run_backward (p ∷ rest) es m =
    let back = backward (removes (address p.area) (area_length p.area)) in
    >>=-assoc (run_backward es m) (unremove_by_vals rest) back
    ∙ ap (λ o. o >>= back) (unremove_by_vals-run_backward rest es m)

-- The memory of a call that has ended is unremoved in the reverse order.
pub call_memory-Restored :
    (xs : List AllocaState) (ps : List ParamByValState) (m m' : MemoryState) (s : MemoryLog)
    → ShowsMemory m s
    → (remove_by_vals ps m >>= remove_allocas xs) ≡ some m'
    → Restored m s (unremove_allocas xs m' >>= unremove_by_vals ps)
call_memory-Restored xs ps m m' s sh e =
    let allocas = ap (λ g. remove_by_vals ps m >>= g) (fun_ext (remove_allocas-run_forward xs)) in
    let gone = sym (allocas ∙ remove_by_vals-run_forward ps (alloca_edits xs) m) ∙ e in
    let in_range = by_val_edits-AllInRange ps (alloca_edits xs) (alloca_edits-AllInRange xs) in
    let back =
      run_backward-run_forward m s sh m' (by_val_edits ps ++ alloca_edits xs) in_range gone in
    let same =
      ap (λ o. o >>= unremove_by_vals ps) (unremove_allocas-run_backward xs m')
      ∙ unremove_by_vals-run_backward ps (alloca_edits xs) m' in
    subst (Restored m s) (sym same) back

module _ {host : Host} {E : Type 0} where
  restore_memory-applies :
      (exited : ℕ) (w : ThreadState host E) (g : HostFunction host E)
      (rest : List (HostFunction host E)) (n : MemoryState)
      → w.call_stack ≡ g ∷ rest
      → (unremove_allocas g.allocas w.memory >>= unremove_by_vals g.param_by_vals) ≡ some n
      → restore_memory exited w w.call_stack
        ≡ some (record w { memory = n; thread_time = (exited + word - 1) % word })
  restore_memory-applies exited w g rest n top e =
      ap (restore_memory exited w) top
      ∙ ap
          (λ o. o >>= λ m. some (record w { memory = m; thread_time = (exited + word - 1) % word }))
          e

  -- A call starts with a new FunctionState, and moving forward over what it does succeeds: its own
  -- events, none of them a run-time error, and in between changes of the memory and calls of other
  -- functions, each with its end. Then moving forward over its end, where that succeeds, and back
  -- again succeeds: the call stack is as before the end, with the same FunctionState on top, the
  -- memory shows the log that it showed before the end, with the areas of the call's allocas and
  -- by-value parameters, and every region has the initialization and the initialized bytes that it
  -- had; bytes that are not initialized may differ.
  pub function_end_backward-function_end_forward :
      (fresh : ℕ → List ℕ) (c : FunctionTrace) (a : Activity host E) (t u v : ThreadState host E)
      (rest : List (HostFunction host E)) (s : MemoryLog)
      → t.call_stack ≡ function_state c.index c.lookup c.infos ∷ rest
      → AllTimeless (own_events a)
      → add_trace fresh (events_of a) t ≡ some u
      → ShowsMemory u.memory s
      → function_end_forward c.index c.exited u ≡ some v
      → (w : ThreadState host E) × (function_end_backward fresh c (events_of a) v ≡ some w)
        × (w.call_stack ≡ u.call_stack)
        × ShowsMemory w.memory s
        × SameRegions w.memory u.memory
  unfolding function_end_backward
  function_end_backward-function_end_forward fresh c a t u v rest s top timeless ran sh e =
      let new = function_state c.index c.lookup c.infos in
      let (g, replays, stack) = activity-replay fresh a t u new rest timeless top ran in
      let (gone, below) = function_end_forward-inverts c.index c.exited u v g rest stack e in
      let (n, back, shn, same) =
        call_memory-Restored g.allocas g.param_by_vals u.memory v.memory s sh gone in
      let started : ThreadState host E = record v { call_stack = new ∷ v.call_stack } in
      let (w, restores, on_top, kept) =
        restore_trace-replay fresh a started new g rest (ap (λ x. new ∷ x) below) replays in
      let from_w =
        ap (λ m. unremove_allocas g.allocas m >>= unremove_by_vals g.param_by_vals) kept ∙ back in
      (
        record w { memory = n; thread_time = (c.exited + word - 1) % word },
        ap (λ o. o >>= λ x. restore_memory c.exited x x.call_stack) restores
            ∙ restore_memory-applies c.exited w g rest n on_top from_w,
        on_top ∙ sym stack,
        shn,
        same,
      )
