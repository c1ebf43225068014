-- ===== src/CallStack/Searches.antt =====
-- What the search before a StackRestore finds in the events of a call.
use seec.Common.{
  ℕ, zero, suc, ◌+◌, ◌≡◌, refl, sym, ap, ◌∙◌, Bool, true, false, none, some, List, [], ◌∷◌, ◌++◌,
  ◌⊎◌, inl, inr, append_assoc, append-nil, length, arith,
}
use seec.ValueStore.Store.{Host}
use seec.FunctionState.{AllocaState}
use package.seec.CallStack.{
  CallEvent, pre_instruction, instruction, instruction_with, alloca, stack_restore,
  by_val_region_add, runtime_error, new_thread_time,
}
use package.seec.CallStack.Walk.{
  TraceEvent, FunctionTrace, own, function_start, function_end, memory_event, restored_by,
  readd_alloca, reverse_onto, rfind_in_function, readd_allocas, readd_from, previous_allocas,
}
use package.seec.CallStack.Allocas.{allocas_after}
use package.seec.CallStack.Activities.{
  Activity, done, does, changes, calls, events_of, own_events, allocas_of,
}

reverse_onto-append :
    {X : Type 0} (xs ys zs : List X)
    → reverse_onto (xs ++ ys) zs ≡ reverse_onto ys (reverse_onto xs zs)
reverse_onto-append [] ys zs = refl
reverse_onto-append (x ∷ xs) ys zs = reverse_onto-append xs ys (x ∷ zs)

module _ {host : Host} {E : Type 0} where
  -- Skipping a call backward and forward.
  rfind_in_function-skip :
      (xs ys behind : List (TraceEvent host E)) (k : ℕ)
      → rfind_in_function (length xs + k) (reverse_onto xs ys) behind
        ≡ rfind_in_function k ys (xs ++ behind)
  rfind_in_function-skip [] ys behind k = ap (λ n. rfind_in_function n ys behind) (omega arith)
  rfind_in_function-skip (x ∷ xs) ys behind k =
      let shifted : suc (length xs) + k ≡ length xs + suc k = omega arith in
      ap (λ n. rfind_in_function n (reverse_onto xs (x ∷ ys)) behind) shifted
      ∙ rfind_in_function-skip xs (x ∷ ys) behind (suc k)

  readd_allocas-skip :
      (stops : Bool) (xs ys : List (TraceEvent host E)) (e : TraceEvent host E)
      (allocas : List AllocaState)
      → readd_allocas stops (suc (length xs)) (xs ++ (e ∷ ys)) allocas
        ≡ readd_allocas stops zero ys allocas
  readd_allocas-skip stops [] ys e allocas = refl
  readd_allocas-skip stops (x ∷ xs) ys e allocas = readd_allocas-skip stops xs ys e allocas

  -- An activity without a StackRestore of its own.
  abbrev NoRestore : Activity host E → Type 0
  NoRestore done = Unit {0}
  NoRestore (does e a) = (restored_by e ≡ none) × NoRestore a
  NoRestore (changes e a) = NoRestore a
  NoRestore (calls c inner a) = NoRestore a

  readd_alloca-allocas_after :
      (e : CallEvent host E) (allocas : List AllocaState)
      → restored_by e ≡ none
      → readd_alloca e allocas ≡ allocas_after e allocas
  readd_alloca-allocas_after (alloca a) allocas w = refl
  readd_alloca-allocas_after (stack_restore restored) allocas w = absurd (cc w)
  readd_alloca-allocas_after (pre_instruction i) allocas w = refl
  readd_alloca-allocas_after (instruction i) allocas w = refl
  readd_alloca-allocas_after (instruction_with v i) allocas w = refl
  readd_alloca-allocas_after (by_val_region_add argument a n) allocas w = refl
  readd_alloca-allocas_after (runtime_error is_top_level error) allocas w = refl
  readd_alloca-allocas_after new_thread_time allocas w = refl

  readd_allocas-allocas_of :
      (stops : Bool) (a : Activity host E) (allocas : List AllocaState)
      → NoRestore a
      → readd_allocas stops zero (events_of a) allocas ≡ some (allocas_of (own_events a) allocas)
  readd_allocas-allocas_of stops done allocas w = refl
  readd_allocas-allocas_of stops (does e a) allocas (w, ws) =
      ap (readd_allocas stops zero (events_of a)) (readd_alloca-allocas_after e allocas w)
      ∙ readd_allocas-allocas_of stops a (allocas_after e allocas) ws
  readd_allocas-allocas_of stops (changes e a) allocas w =
      readd_allocas-allocas_of stops a allocas w
  readd_allocas-allocas_of stops (calls c inner a) allocas w =
      readd_allocas-skip stops (events_of inner) (events_of a) _ allocas
      ∙ readd_allocas-allocas_of stops a allocas w

  -- What the backward search finds in an activity: its last StackRestore, with what comes after it.
  abbrev Finds : Activity host E → Type 0
  Finds a =
      ((restored : List AllocaState) × (rest : Activity host E) × NoRestore rest
        × ((allocas : List AllocaState)
            → allocas_of (own_events a) allocas ≡ allocas_of (own_events rest) restored)
        × ((zs behind : List (TraceEvent host E))
            → rfind_in_function zero (reverse_onto (events_of a) zs) behind
              ≡ some (restored, events_of rest ++ behind)))
      ⊎ (NoRestore a
          × ((zs behind : List (TraceEvent host E))
              → rfind_in_function zero (reverse_onto (events_of a) zs) behind
                ≡ rfind_in_function zero zs (events_of a ++ behind)))

  restored_by-cases :
      (e : CallEvent host E)
      → ((restored : List AllocaState) × (e ≡ stack_restore restored)) ⊎ (restored_by e ≡ none)
  restored_by-cases (stack_restore restored) = inl (restored, refl)
  restored_by-cases (pre_instruction i) = inr refl
  restored_by-cases (instruction i) = inr refl
  restored_by-cases (instruction_with v i) = inr refl
  restored_by-cases (alloca a) = inr refl
  restored_by-cases (by_val_region_add argument a n) = inr refl
  restored_by-cases (runtime_error is_top_level error) = inr refl
  restored_by-cases new_thread_time = inr refl

  -- Over a call that has ended, the search goes to the events before it.
  past_call :
      (c : FunctionTrace) (inner a : Activity host E) (zs behind : List (TraceEvent host E))
      → rfind_in_function zero
          (function_end (record c { event_count = suc (length (events_of inner)) })
            ∷ reverse_onto
                (events_of inner)
                (function_start (record c { event_count = suc (length (events_of inner)) }) ∷ zs))
          (events_of a ++ behind)
        ≡ rfind_in_function zero zs (events_of (calls c inner a) ++ behind)
  past_call c inner a zs behind =
      let call = record c { event_count = suc (length (events_of inner)) } in
      let one : suc (length (events_of inner)) ≡ length (events_of inner) + suc zero =
        omega arith in
      ap
        (λ n.
          rfind_in_function n (reverse_onto (events_of inner) (function_start call ∷ zs))
            (function_end call ∷ (events_of a ++ behind)))
        one
      ∙ rfind_in_function-skip (events_of inner) (function_start call ∷ zs)
          (function_end call ∷ (events_of a ++ behind)) (suc zero)
      ∙ ap (λ es. rfind_in_function zero zs (function_start call ∷ es))
          (sym (append_assoc (events_of inner) (function_end call ∷ events_of a) behind))

  rfind_in_function-Finds : (a : Activity host E) → Finds a
  rfind_in_function-Finds done = inr (tt, λ zs behind. refl)
  rfind_in_function-Finds (does e a) = elim (rfind_in_function-Finds a) [
    | inl (restored, rest, w, same, found) ↦ inl (
      restored,
      rest,
      w,
      λ allocas. same (allocas_after e allocas),
      λ zs behind. found (own e ∷ zs) behind,
    )
    | inr (w, passes) ↦ elim (restored_by-cases e) [
      | inl (restored, is) ↦ inl (
        restored,
        a,
        w,
        λ allocas. ap (λ x. allocas_of (own_events a) (allocas_after x allocas)) is,
        λ zs behind.
            passes (own e ∷ zs) behind
            ∙ ap (λ x. rfind_in_function zero (own x ∷ zs) (events_of a ++ behind)) is,
      )
      | inr other ↦ inr ((other, w), λ zs behind. passes (own e ∷ zs) behind ∙ rw other refl)
    ]
  ]
  rfind_in_function-Finds (changes e a) = elim (rfind_in_function-Finds a) [
    | inl (restored, rest, w, same, found) ↦
        inl (restored, rest, w, same, λ zs behind. found (memory_event e ∷ zs) behind)
    | inr (w, passes) ↦ inr (w, λ zs behind. passes (memory_event e ∷ zs) behind)
  ]
  rfind_in_function-Finds (calls c inner a) =
      let call = record c { event_count = suc (length (events_of inner)) } in
      let before = λ (zs : List (TraceEvent host E)).
        function_end call ∷ reverse_onto (events_of inner) (function_start call ∷ zs) in
      let turned = λ (zs : List (TraceEvent host E)).
        reverse_onto-append (events_of inner) (function_end call ∷ events_of a)
          (function_start call ∷ zs) in
      elim (rfind_in_function-Finds a) [
        | inl (restored, rest, w, same, found) ↦ inl (
          restored,
          rest,
          w,
          same,
          λ zs behind.
              ap (λ es. rfind_in_function zero es behind) (turned zs) ∙ found (before zs) behind,
        )
        | inr (w, passes) ↦ inr (
          w,
          λ zs behind.
              ap (λ es. rfind_in_function zero es behind) (turned zs)
              ∙ passes (before zs) behind
              ∙ past_call c inner a zs behind,
        )
      ]

  -- The search gives the allocas that the events of the call have left.
  pub previous_allocas-allocas_of :
      (a : Activity host E) → previous_allocas (events_of a) ≡ some (allocas_of (own_events a) [])
  previous_allocas-allocas_of a = elim (rfind_in_function-Finds a) [
    | inl (restored, rest, w, same, found) ↦
        ap (readd_from (events_of a)) (found [] [])
        ∙ ap (λ es. readd_allocas false zero es restored) (append-nil (events_of rest))
        ∙ readd_allocas-allocas_of false rest restored w
        ∙ ap some (sym (same []))
    | inr (w, passes) ↦
        ap (readd_from (events_of a)) (passes [] []) ∙ readd_allocas-allocas_of true a [] w
  ]
