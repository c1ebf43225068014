-- ===== src/CallStack/Instructions.antt =====
-- `removeEvent` of an Instruction or a PreInstruction after its `addEvent`.
use seec.Common.{
  ℕ, ◌+◌, ◌-◌, ◌%◌, ◌<◌, ◌≡◌, refl, sym, ap, ap₂, ◌∙◌, inl, inr, Option-cases, Bool, true, false,
  not, Option, some, List, [], ◌∷◌, arith, ◌>>=◌, >>=-eq-some, some-injective, get_elem?,
}
use seec.Interval.{word}
use seec.ValueStore.Store.{Host}
use seec.FunctionState.{FunctionState, Placement, get_instruction}
use seec.FunctionState.Blocks.{activate_block, forwarding_to_instruction, rewinding_to_instruction}
use seec.FunctionState.Moving.{moved_to, rewinding_to_instruction-forwarding_to_instruction}
use seec.FunctionState.InstructionValues.{HostFunction}
use package.seec.CallStack.{CallEvent, pre_instruction, instruction, ThreadState, with_top, tick}
use package.seec.CallStack.Steps.{run_instruction, add_event, add_events}
use package.seec.CallStack.Replay.{with_top-applies, with_top-inverts}
use package.seec.CallStack.Rewinding.{PreviousInstruction, set_previous, instruction_backward}

set_previous_lem :
    {A E : Type 0} (is_pre : Bool) (a : ℕ) (f : FunctionState A E)
    → set_previous is_pre a f
      ≡ record f { active_instruction = some a; active_instruction_complete = not is_pre }
set_previous_lem true a f = refl
set_previous_lem false a f = refl

module _ {A E : Type 0} (fresh : ℕ → List ℕ) (initial : A) where
  activate_block-active :
      (b : ℕ) (f g : FunctionState A E)
      → activate_block fresh initial b f ≡ some g
      → (g.active_instruction ≡ f.active_instruction)
        × (g.active_instruction_complete ≡ f.active_instruction_complete)
  unfolding activate_block
  activate_block-active b f g e = elim (Option-cases (f.active_blocks b)) [
    | inr (st, there) ↦
        let is = some-injective _ _ (rw there at e) in
        (
          ap (λ (x : FunctionState A E). x.active_instruction) (sym is),
          ap (λ (x : FunctionState A E). x.active_instruction_complete) (sym is),
        )
    | inl absent ↦
        let (info, _, made) = >>=-eq-some (get_elem? f.value_store_info b) _ (rw absent at e) in
        let is = some-injective _ _ made in
        (
          ap (λ (x : FunctionState A E). x.active_instruction) (sym is),
          ap (λ (x : FunctionState A E). x.active_instruction_complete) (sym is),
        )
  ]

  run_instruction-inverts :
      (complete : Bool) (i : ℕ) (f g : FunctionState A E)
      → (forwarding_to_instruction fresh initial i f >>= λ x. some (moved_to i complete x)) ≡ some g
      → (after : FunctionState A E) × (forwarding_to_instruction fresh initial i f ≡ some after)
        × (g ≡ moved_to i complete after)
  run_instruction-inverts complete i f g e =
      let (after, moves, made) = >>=-eq-some (forwarding_to_instruction fresh initial i f) _ e in
      (after, moves, sym (some-injective _ _ made))

  previous_restored :
      (a : ℕ) (is_pre complete : Bool) (i : ℕ) (f activated : FunctionState A E) (b : ℕ)
      → f.active_instruction ≡ some a
      → f.active_instruction_complete ≡ not is_pre
      → activate_block fresh initial b f ≡ some activated
      → set_previous is_pre a (moved_to i complete activated) ≡ activated
  previous_restored a is_pre complete i f activated b active done e =
      let (same_active, same_complete) = activate_block-active b f activated e in
      set_previous_lem is_pre a (moved_to i complete activated)
      ∙ sym (
          ap₂ (λ x y. record activated { active_instruction = x; active_instruction_complete = y })
            (same_active ∙ active) (same_complete ∙ done))

module _ {host : Host} {E : Type 0} (fresh : ℕ → List ℕ) where
  -- An Instruction, or a PreInstruction where `complete` is false.
  abbrev pub instruction_event : Bool → ℕ → CallEvent host E
  instruction_event true i = instruction i
  instruction_event false i = pre_instruction i

  top_ticks :
      (change : HostFunction host E → Option (HostFunction host E)) (t u : ThreadState host E)
      (f : HostFunction host E) (rest : List (HostFunction host E))
      → t.call_stack ≡ f ∷ rest
      → (with_top change t >>= λ x. some (tick x)) ≡ some u
      → (g : HostFunction host E) × (change f ≡ some g)
        × (u ≡ tick (record t { call_stack = g ∷ rest }))
  top_ticks change t u f rest top e =
      let (v, changes, ticks) = >>=-eq-some (with_top change t) _ e in
      let (g, done, _) = with_top-inverts change t v f rest top changes in
      let is = some-injective _ _ (sym changes ∙ with_top-applies change t f g rest top done) in
      (g, done, sym (some-injective _ _ ticks) ∙ ap tick is)

  instruction_event-inverts :
      (complete : Bool) (i : ℕ) (t u : ThreadState host E) (f : HostFunction host E)
      (rest : List (HostFunction host E))
      → t.call_stack ≡ f ∷ rest
      → add_event fresh (instruction_event complete i) t ≡ some u
      → (after : HostFunction host E) × (forwarding_to_instruction fresh host.zero_apfloat i f
          ≡ some after)
        × (u ≡ tick (record t { call_stack = moved_to i complete after ∷ rest }))
  instruction_event-inverts true i t u f rest top e =
      let (g, done, ticked) =
        top_ticks (run_instruction {host = host} fresh i (instruction i)) t u f rest top e in
      let (after, moves, same) = run_instruction-inverts fresh host.zero_apfloat true i f g done in
      (
        after,
        moves,
        ticked ∙ ap (λ (x : HostFunction host E). tick (record t { call_stack = x ∷ rest })) same,
      )
  instruction_event-inverts false i t u f rest top e =
      let (g, done, ticked) =
        top_ticks (run_instruction {host = host} fresh i (pre_instruction i)) t u f rest top e in
      let (after, moves, same) = run_instruction-inverts fresh host.zero_apfloat false i f g done in
      (
        after,
        moves,
        ticked ∙ ap (λ (x : HostFunction host E). tick (record t { call_stack = x ∷ rest })) same,
      )

  -- Moving forward over an Instruction, or a PreInstruction, to an instruction of the call and back to
  -- the instruction event before it, where no run-time error lies between the two, succeeds: the
  -- memory and the thread's time are as before, and the call on top as well, but for the block of
  -- the instruction, which stays active.
  pub instruction_backward-add_event :
      (complete : Bool) (i a : ℕ) (is_pre : Bool) (to current : Placement)
      (t u : ThreadState host E) (f : HostFunction host E) (rest : List (HostFunction host E))
      → t.call_stack ≡ f ∷ rest
      → t.thread_time + 1 < word
      → f.active_instruction ≡ some a
      → f.active_instruction_complete ≡ not is_pre
      → get_instruction f.function_lookup a ≡ some current
      → get_instruction f.function_lookup i ≡ some to
      → add_event fresh (instruction_event complete i) t ≡ some u
      → (activated : HostFunction host E) × (activate_block fresh host.zero_apfloat to.parent f
          ≡ some activated)
        × (instruction_backward fresh
              (some (record { index = a; is_pre_instruction = is_pre; errors = [] }))
              u
            ≡ some (record t { call_stack = activated ∷ rest }))
  unfolding instruction_backward
  instruction_backward-add_event complete i a is_pre to current t u f rest top small active done
        at_a at_i e =
      let (after, moves, same) = instruction_event-inverts complete i t u f rest top e in
      let (activated, known, rewinds) =
        rewinding_to_instruction-forwarding_to_instruction fresh host.zero_apfloat i a complete to
          current f after active at_a at_i moves in
      let previous : PreviousInstruction host E = record {
        index = a;
        is_pre_instruction = is_pre;
        errors = [];
      } in
      let restores : (rewinding_to_instruction a (moved_to i complete after) >>= λ g.
      some (set_previous is_pre a g))
          ≡ some activated =
        ap (λ o. o >>= λ g. some (set_previous is_pre a g)) rewinds
        ∙ ap some (
            previous_restored fresh host.zero_apfloat a is_pre complete i f activated to.parent
              active done known) in
      let moved : ThreadState host E =
        tick (record t { call_stack = moved_to i complete after ∷ rest }) in
      let stepped =
        with_top-applies
          (λ (g : HostFunction host E).
            rewinding_to_instruction a g >>= λ h. some (set_previous is_pre a h))
          moved (moved_to i complete after) activated rest refl restores in
      let finish : ThreadState host E → Option (ThreadState host E) =
        λ x. some (record x { thread_time = (x.thread_time + word - 1) % word }) in
      let time : ((t.thread_time + 1) % word + word - 1) % word ≡ t.thread_time = omega arith in
      (
        activated,
        known,
        ap (instruction_backward fresh (some previous)) same
            ∙ ap (λ o. o >>= add_events fresh [] >>= finish) stepped
            ∙ ap (λ x. some (record t { call_stack = activated ∷ rest; thread_time = x })) time,
      )
