-- ===== src/CallStack/Activities.antt =====
-- What a call does: its own events, changes of the memory, and calls of its own, in their order.
use seec.Common.{
  ℕ, zero, suc, ◌≡◌, refl, sym, ap, ◌∙◌, true, false, some, List, [], ◌∷◌, ◌++◌, ◌>>=◌, >>=-eq-some,
  some-injective, length,
}
use seec.Memory.Edits.{Edit, forward}
use seec.ValueStore.Store.{Host}
use seec.FunctionState.{AllocaState, function_state}
use seec.FunctionState.Areas.{add_runtime_error}
use seec.FunctionState.InstructionValues.{HostFunction}
use package.seec.CallStack.{
  CallEvent, pre_instruction, instruction, instruction_with, alloca, stack_restore,
  by_val_region_add, runtime_error, new_thread_time, ThreadState, with_memory,
}
use package.seec.CallStack.Steps.{add_event, function_start_forward}
use package.seec.CallStack.Walk.{
  FunctionTrace, TraceEvent, own, function_start, function_end, memory_event, add_trace,
  add_trace_event, restore_trace,
}
use package.seec.CallStack.Replay.{
  IsTimeless, AllTimeless, effect, replay, with_top-inverts, with_memory_keeps, add_event-effect,
  restore_event-effect,
}
use package.seec.CallStack.Allocas.{allocas_after, effect-allocas, add_runtime_error-allocas}
use package.seec.CallStack.Popping.{function_end_forward-inverts}

pub data Activity (host : Host) (E : Type 0) : Type 0 where
  done : Activity host E
  does : CallEvent host E → Activity host E → Activity host E
  changes : Edit → Activity host E → Activity host E
  calls : FunctionTrace → Activity host E → Activity host E → Activity host E

module _ {host : Host} {E : Type 0} where
  -- The events of the trace, in which a start of a call tells the distance of its end.
  abbrev pub events_of : Activity host E → List (TraceEvent host E)
  events_of done = []
  events_of (does e rest) = own e ∷ events_of rest
  events_of (changes e rest) = memory_event e ∷ events_of rest
  events_of (calls c inner rest) =
      let within = events_of inner in
      let call = record c { event_count = suc (length within) } in
      function_start call ∷ within ++ (function_end call ∷ events_of rest)

  abbrev pub own_events : Activity host E → List (CallEvent host E)
  own_events done = []
  own_events (does e rest) = e ∷ own_events rest
  own_events (changes e rest) = own_events rest
  own_events (calls c inner rest) = own_events rest

  abbrev pub allocas_of : List (CallEvent host E) → List AllocaState → List AllocaState
  allocas_of [] allocas = allocas
  allocas_of (e ∷ es) allocas = allocas_of es (allocas_after e allocas)

module _ {host : Host} {E : Type 0} (fresh : ℕ → List ℕ) where
  add_trace-append :
      (xs ys : List (TraceEvent host E)) (t u : ThreadState host E)
      → add_trace fresh (xs ++ ys) t ≡ some u
      → (v : ThreadState host E) × (add_trace fresh xs t ≡ some v) × (add_trace fresh ys v ≡ some u)
  add_trace-append [] ys t u e = (t, refl, e)
  add_trace-append (x ∷ xs) ys t u e =
      let (v, first, others) = >>=-eq-some (add_trace_event fresh x t) _ e in
      let (w, all, last) = add_trace-append xs ys v u others in
      (w, ap (λ o. o >>= add_trace fresh xs) first ∙ all, last)

  skip-append :
      (xs ys : List (TraceEvent host E)) (e : TraceEvent host E) (t : ThreadState host E)
      → restore_trace fresh (suc (length xs)) (xs ++ (e ∷ ys)) t ≡ restore_trace fresh zero ys t
  skip-append [] ys e t = refl
  skip-append (x ∷ xs) ys e t = skip-append xs ys e t

  timeless-on_top :
      (e : CallEvent host E) (t u : ThreadState host E) (f : HostFunction host E)
      (rest : List (HostFunction host E))
      → IsTimeless e
      → t.call_stack ≡ f ∷ rest
      → add_event fresh e t ≡ some u
      → (g : HostFunction host E) × (u.call_stack ≡ g ∷ rest)
        × (g.allocas ≡ allocas_after e f.allocas)
  timeless-on_top e t u f rest w top ran =
      let (g, made, stack) = add_event-effect fresh e t u f rest w top ran in
      (g, stack, effect-allocas fresh e f g made)

  -- An event changes the call on top only, and its allocas as it says.
  add_event-on_top :
      (e : CallEvent host E) (t u : ThreadState host E) (f : HostFunction host E)
      (rest : List (HostFunction host E))
      → t.call_stack ≡ f ∷ rest
      → add_event fresh e t ≡ some u
      → (g : HostFunction host E) × (u.call_stack ≡ g ∷ rest)
        × (g.allocas ≡ allocas_after e f.allocas)
  add_event-on_top (runtime_error true error) t u f rest top e =
      let (g, made, stack) =
        with_top-inverts (add_runtime_error t.thread_time error) t u f rest top e in
      (g, stack, add_runtime_error-allocas t.thread_time error f g made)
  add_event-on_top (runtime_error false error) t u f rest top e =
      (f, ap (λ (x : ThreadState host E). x.call_stack) (sym (some-injective _ _ e)) ∙ top, refl)
  add_event-on_top (pre_instruction i) t u f rest top e =
      timeless-on_top (pre_instruction i) t u f rest tt top e
  add_event-on_top (instruction i) t u f rest top e =
      timeless-on_top (instruction i) t u f rest tt top e
  add_event-on_top (instruction_with v i) t u f rest top e =
      timeless-on_top (instruction_with v i) t u f rest tt top e
  add_event-on_top (alloca a) t u f rest top e = timeless-on_top (alloca a) t u f rest tt top e
  add_event-on_top (stack_restore restored) t u f rest top e =
      timeless-on_top (stack_restore restored) t u f rest tt top e
  add_event-on_top (by_val_region_add argument a n) t u f rest top e =
      timeless-on_top (by_val_region_add argument a n) t u f rest tt top e
  add_event-on_top new_thread_time t u f rest top e =
      timeless-on_top new_thread_time t u f rest tt top e

  -- The call stack when a call that was entered on top of `below` has been left.
  left_call :
      (c : FunctionTrace) (ys : List (TraceEvent host E)) (v u : ThreadState host E)
      (g : HostFunction host E) (below : List (HostFunction host E))
      → v.call_stack ≡ g ∷ below
      → add_trace fresh (function_end c ∷ ys) v ≡ some u
      → (w : ThreadState host E) × (w.call_stack ≡ below) × (add_trace fresh ys w ≡ some u)
  left_call c ys v u g below top e =
      let (w, ends, after) = >>=-eq-some (add_trace_event fresh (function_end c) v) _ e in
      let (_, stack) = function_end_forward-inverts c.index c.exited v w g below top ends in
      (w, stack, after)

  -- When an activity has ended, the calls below are as before, and the allocas of its call are those
  -- that its own events leave.
  pub activity-on_top :
      (a : Activity host E) (t u : ThreadState host E) (f : HostFunction host E)
      (rest : List (HostFunction host E))
      → t.call_stack ≡ f ∷ rest
      → add_trace fresh (events_of a) t ≡ some u
      → (g : HostFunction host E) × (u.call_stack ≡ g ∷ rest)
        × (g.allocas ≡ allocas_of (own_events a) f.allocas)
  unfolding function_start_forward
  activity-on_top done t u f rest top e =
      (f, ap (λ (x : ThreadState host E). x.call_stack) (sym (some-injective _ _ e)) ∙ top, refl)
  activity-on_top (does d a) t u f rest top e =
      let (v, first, others) = >>=-eq-some (add_event fresh d t) _ e in
      let (g, stack, here) = add_event-on_top d t v f rest top first in
      let (h, last, all) = activity-on_top a v u g rest stack others in
      (h, last, all ∙ ap (allocas_of (own_events a)) here)
  activity-on_top (changes d a) t u f rest top e =
      let (v, first, others) = >>=-eq-some (with_memory (forward d) t) _ e in
      activity-on_top a v u f rest (with_memory_keeps fresh (forward d) t v first ∙ top) others
  activity-on_top (calls c inner a) t u f rest top e =
      let call = record c { event_count = suc (length (events_of inner)) } in
      let in_call = function_start_forward call.lookup call.infos call.index call.entered t in
      let (v, ran, others) =
        add_trace-append (events_of inner) (function_end call ∷ events_of a) in_call u e in
      let new = function_state c.index c.lookup c.infos in
      let (g, stack, _) =
        activity-on_top inner in_call v new (f ∷ rest) (ap (λ x. new ∷ x) top) ran in
      let (w, left, after) = left_call call (events_of a) v u g (f ∷ rest) stack others in
      activity-on_top a w u f rest left after

  -- An activity does to its call what its own events do.
  pub activity-replay :
      (a : Activity host E) (t u : ThreadState host E) (f : HostFunction host E)
      (rest : List (HostFunction host E))
      → AllTimeless (own_events a)
      → t.call_stack ≡ f ∷ rest
      → add_trace fresh (events_of a) t ≡ some u
      → (g : HostFunction host E) × (replay fresh (own_events a) f ≡ some g)
        × (u.call_stack ≡ g ∷ rest)
  unfolding function_start_forward
  activity-replay done t u f rest w top e =
      (f, refl, ap (λ (x : ThreadState host E). x.call_stack) (sym (some-injective _ _ e)) ∙ top)
  activity-replay (does d a) t u f rest (w, ws) top e =
      let (v, first, others) = >>=-eq-some (add_event fresh d t) _ e in
      let (g, made, stack) = add_event-effect fresh d t v f rest w top first in
      let (h, all, last) = activity-replay a v u g rest ws stack others in
      (h, ap (λ o. o >>= replay fresh (own_events a)) made ∙ all, last)
  activity-replay (changes d a) t u f rest w top e =
      let (v, first, others) = >>=-eq-some (with_memory (forward d) t) _ e in
      activity-replay a v u f rest w (with_memory_keeps fresh (forward d) t v first ∙ top) others
  activity-replay (calls c inner a) t u f rest w top e =
      let call = record c { event_count = suc (length (events_of inner)) } in
      let in_call = function_start_forward call.lookup call.infos call.index call.entered t in
      let (v, ran, others) =
        add_trace-append (events_of inner) (function_end call ∷ events_of a) in_call u e in
      let new = function_state c.index c.lookup c.infos in
      let (g, stack, _) =
        activity-on_top inner in_call v new (f ∷ rest) (ap (λ x. new ∷ x) top) ran in
      let (x, left, after) = left_call call (events_of a) v u g (f ∷ rest) stack others in
      activity-replay a x u f rest w left after

  -- Restoring the events of an activity skips those of the calls in it.
  pub restore_trace-replay :
      (a : Activity host E) (t : ThreadState host E) (f g : HostFunction host E)
      (rest : List (HostFunction host E))
      → t.call_stack ≡ f ∷ rest
      → replay fresh (own_events a) f ≡ some g
      → (u : ThreadState host E) × (restore_trace fresh zero (events_of a) t ≡ some u)
        × (u.call_stack ≡ g ∷ rest)
        × (u.memory ≡ t.memory)
  restore_trace-replay done t f g rest top e =
      (t, refl, top ∙ ap (λ x. x ∷ rest) (some-injective _ _ e), refl)
  restore_trace-replay (does d a) t f g rest top e =
      let (h, made, others) = >>=-eq-some (effect fresh d f) _ e in
      let (v, first, stack, same) = restore_event-effect fresh d t f h rest top made in
      let (u, all, last, kept) = restore_trace-replay a v h g rest stack others in
      (u, ap (λ o. o >>= restore_trace fresh zero (events_of a)) first ∙ all, last, kept ∙ same)
  restore_trace-replay (changes d a) t f g rest top e = restore_trace-replay a t f g rest top e
  restore_trace-replay (calls c inner a) t f g rest top e =
      let call = record c { event_count = suc (length (events_of inner)) } in
      let later = record t { thread_time = c.exited } in
      let (u, all, last, kept) = restore_trace-replay a later f g rest top e in
      (u, skip-append (events_of inner) (events_of a) (function_end call) later ∙ all, last, kept)
