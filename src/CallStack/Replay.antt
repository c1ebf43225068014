-- ===== src/CallStack/Replay.antt =====
-- What the events of a call do to its FunctionState, when they are added and when they are restored.
use seec.Common.{
  ℕ, ◌≡◌, refl, sym, ap, ◌∙◌, Option, none, some, List, [], ◌∷◌, ◌>>=◌, >>=-eq-some, some-injective,
}
use seec.Memory.{MemoryState, allocation_add}
use seec.ValueStore.Store.{Host}
use seec.FunctionState.{get_total_size}
use seec.FunctionState.InstructionValues.{HostFunction}
use package.seec.CallStack.{
  CallEvent, pre_instruction, instruction, instruction_with, alloca, stack_restore,
  by_val_region_add, runtime_error, new_thread_time, ThreadState, change_top, readd_event, with_top,
  with_memory, tick, top_allocas, from_mismatch, remove_allocas,
}
use package.seec.CallStack.Steps.{run_instruction, add_event, restore_event}

-- An event whose effect on the call does not depend on the thread's time.
abbrev pub IsTimeless : {host : Host} {E : Type 0} → CallEvent host E → Type 0
IsTimeless (runtime_error is_top_level error) = ⊥
IsTimeless (pre_instruction i) = Unit {0}
IsTimeless (instruction i) = Unit {0}
IsTimeless (instruction_with v i) = Unit {0}
IsTimeless (alloca a) = Unit {0}
IsTimeless (stack_restore restored) = Unit {0}
IsTimeless (by_val_region_add argument a n) = Unit {0}
IsTimeless new_thread_time = Unit {0}

abbrev pub AllTimeless : {host : Host} {E : Type 0} → List (CallEvent host E) → Type 0
AllTimeless [] = Unit {0}
AllTimeless (e ∷ es) = IsTimeless e × AllTimeless es

module _ {host : Host} {E : Type 0} where
  pub with_top-inverts :
      (change : HostFunction host E → Option (HostFunction host E)) (t u : ThreadState host E)
      (f : HostFunction host E) (rest : List (HostFunction host E))
      → t.call_stack ≡ f ∷ rest
      → with_top change t ≡ some u
      → (g : HostFunction host E) × (change f ≡ some g) × (u.call_stack ≡ g ∷ rest)
  with_top-inverts change t u f rest top e =
      let (stack, changed, made) = >>=-eq-some (change_top change t.call_stack) _ e in
      let (g, done, built) =
        >>=-eq-some (change f) _ (sym (ap (change_top change) top) ∙ changed) in
      (
        g,
        done,
        ap (λ (x : ThreadState host E). x.call_stack) (sym (some-injective _ _ made))
            ∙ sym (some-injective _ _ built),
      )

  pub with_top-applies :
      (change : HostFunction host E → Option (HostFunction host E)) (t : ThreadState host E)
      (f g : HostFunction host E) (rest : List (HostFunction host E))
      → t.call_stack ≡ f ∷ rest
      → change f ≡ some g
      → with_top change t ≡ some (record t { call_stack = g ∷ rest })
  with_top-applies change t f g rest top done =
      ap (λ s. change_top change s >>= λ stack. some (record t { call_stack = stack })) top
      ∙ ap (λ o. o >>= (λ g. some (g ∷ rest)) >>= λ stack. some (record t { call_stack = stack }))
          done

module _ {host : Host} {E : Type 0} (fresh : ℕ → List ℕ) where
  -- The effect of an event on the FunctionState of its call.
  abbrev pub effect : CallEvent host E → HostFunction host E → Option (HostFunction host E)
  effect (pre_instruction i) f = run_instruction {host = host} fresh i (pre_instruction i) f
  effect (instruction i) f = run_instruction {host = host} fresh i (instruction i) f
  effect (instruction_with v i) f = run_instruction {host = host} fresh i (instruction_with v i) f
  effect (alloca a) f = readd_event {host = host} (alloca a) f
  effect (stack_restore restored) f = readd_event {host = host} (stack_restore restored) f
  effect (by_val_region_add argument a n) f =
      readd_event {host = host} (by_val_region_add argument a n) f
  effect (runtime_error is_top_level error) f = none
  effect new_thread_time f = some f

  abbrev pub replay : List (CallEvent host E) → HostFunction host E → Option (HostFunction host E)
  replay [] f = some f
  replay (e ∷ es) f = effect e f >>= replay es

  tops :
      (change : HostFunction host E → Option (HostFunction host E))
      (next : ThreadState host E → Option (ThreadState host E)) (t u : ThreadState host E)
      (f : HostFunction host E) (rest : List (HostFunction host E))
      → ((v w : ThreadState host E) → next v ≡ some w → w.call_stack ≡ v.call_stack)
      → t.call_stack ≡ f ∷ rest
      → (with_top change t >>= next) ≡ some u
      → (g : HostFunction host E) × (change f ≡ some g) × (u.call_stack ≡ g ∷ rest)
  tops change next t u f rest keeps top e =
      let (v, changed, after) = >>=-eq-some (with_top change t) _ e in
      let (g, done, stack) = with_top-inverts change t v f rest top changed in
      (g, done, keeps v u after ∙ stack)

  tick_keeps : (v w : ThreadState host E) → some (tick v) ≡ some w → w.call_stack ≡ v.call_stack
  tick_keeps v w e = ap (λ (x : ThreadState host E). x.call_stack) (sym (some-injective _ _ e))

  pub with_memory_keeps :
      (change : MemoryState → Option MemoryState) (v w : ThreadState host E)
      → with_memory change v ≡ some w
      → w.call_stack ≡ v.call_stack
  with_memory_keeps change v w e =
      let (m, _, made) = >>=-eq-some (change v.memory) _ e in
      ap (λ (x : ThreadState host E). x.call_stack) (sym (some-injective _ _ made))

  pub add_event-effect :
      (e : CallEvent host E) (t u : ThreadState host E) (f : HostFunction host E)
      (rest : List (HostFunction host E))
      → IsTimeless e
      → t.call_stack ≡ f ∷ rest
      → add_event fresh e t ≡ some u
      → (g : HostFunction host E) × (effect e f ≡ some g) × (u.call_stack ≡ g ∷ rest)
  add_event-effect (pre_instruction i) t u f rest w top e =
      tops _ (λ x. some (tick x)) t u f rest tick_keeps top e
  add_event-effect (instruction i) t u f rest w top e =
      tops _ (λ x. some (tick x)) t u f rest tick_keeps top e
  add_event-effect (instruction_with v i) t u f rest w top e =
      tops _ (λ x. some (tick x)) t u f rest tick_keeps top e
  add_event-effect (alloca a) t u f rest w top e =
      let adds = λ (m : MemoryState). allocation_add m a.address (get_total_size a) in
      tops (readd_event {host = host} (alloca a)) (with_memory adds) t u f rest
        (with_memory_keeps adds) top e
  add_event-effect (stack_restore restored) t u f rest w top e =
      let (v, first, then_mismatch) =
        >>=-eq-some (with_top (readd_event {host = host} (stack_restore restored)) t) _ e in
      let (gone, _, last) =
        >>=-eq-some (from_mismatch (top_allocas v.call_stack) (top_allocas t.call_stack)) _
          then_mismatch in
      let (g, done, stack) =
        with_top-inverts (readd_event {host = host} (stack_restore restored)) t v f rest top
          first in
      (g, done, with_memory_keeps (remove_allocas gone) v u last ∙ stack)
  add_event-effect (by_val_region_add argument a n) t u f rest w top e =
      let adds = λ (m : MemoryState). allocation_add m a n in
      tops (readd_event {host = host} (by_val_region_add argument a n)) (with_memory adds) t u f
        rest (with_memory_keeps adds) top e
  add_event-effect (runtime_error is_top_level error) t u f rest w top e = absurd w
  add_event-effect new_thread_time t u f rest w top e = (f, refl, tick_keeps t u e ∙ top)

  pub restore_event-effect :
      (e : CallEvent host E) (t : ThreadState host E) (f g : HostFunction host E)
      (rest : List (HostFunction host E))
      → t.call_stack ≡ f ∷ rest
      → effect e f ≡ some g
      → (u : ThreadState host E) × (restore_event fresh e t ≡ some u)
        × (u.call_stack ≡ g ∷ rest)
        × (u.memory ≡ t.memory)
  restore_event-effect (pre_instruction i) t f g rest top done =
      (_, ap (λ o. o >>= λ x. some (tick x)) (with_top-applies _ t f g rest top done), refl, refl)
  restore_event-effect (instruction i) t f g rest top done =
      (_, ap (λ o. o >>= λ x. some (tick x)) (with_top-applies _ t f g rest top done), refl, refl)
  restore_event-effect (instruction_with v i) t f g rest top done =
      (_, ap (λ o. o >>= λ x. some (tick x)) (with_top-applies _ t f g rest top done), refl, refl)
  restore_event-effect (alloca a) t f g rest top done =
      (_, with_top-applies (readd_event {host = host} (alloca a)) t f g rest top done, refl, refl)
  restore_event-effect (stack_restore restored) t f g rest top done = (
    _,
    with_top-applies (readd_event {host = host} (stack_restore restored)) t f g rest top done,
    refl,
    refl,
  )
  restore_event-effect (by_val_region_add argument a n) t f g rest top done = (
    _,
    with_top-applies (readd_event {host = host} (by_val_region_add argument a n)) t f g rest top
        done,
    refl,
    refl,
  )
  restore_event-effect (runtime_error is_top_level error) t f g rest top done = absurd (cc done)
  restore_event-effect new_thread_time t f g rest top done =
      (t, refl, top ∙ ap (λ x. x ∷ rest) (some-injective _ _ done), refl)
