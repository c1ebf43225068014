-- ===== src/CallStack/Allocas.antt =====
-- The allocas of a call, which only an Alloca and a StackRestore change.
use seec.Common.{
  ℕ, ◌≡◌, sym, ap, ◌∙◌, Bool-cases, inl, inr, ltb, Option, none, some, List, [], ◌∷◌, ◌++◌,
  >>=-eq-some, some-injective, get_elem?, assert, ◌-◌, append-nil, append_assoc,
}
use seec.ValueStore.{BasicBlockInfo}
use seec.ValueStore.Store.{Host, BasicBlockStore}
use seec.FunctionState.{
  FunctionState, Placement, AllocaState, get_instruction, get_index_of_instruction,
}
use seec.FunctionState.Blocks.{
  leave, clear_jumped, clear_from, get_active_instruction, activate_unless, activate_block,
  forwarding_to_instruction,
}
use seec.FunctionState.InstructionValues.{HostFunction, set_in_block}
use seec.FunctionState.Areas.{add_by_val_area, add_runtime_error}
use package.seec.CallStack.{
  CallEvent, pre_instruction, instruction, instruction_with, alloca, stack_restore,
  by_val_region_add, runtime_error, new_thread_time, uint64, ptr, float, double, long_double,
  InstructionValue, set_event_value, readd_event, push_alloca, push_allocas,
}
use package.seec.CallStack.Steps.{run_instruction}
use package.seec.CallStack.Replay.{effect}

module _ {A E : Type 0} where
  unchanged : (f g : FunctionState A E) → some f ≡ some g → g.allocas ≡ f.allocas
  unchanged f g e = ap (λ (x : FunctionState A E). x.allocas) (sym (some-injective _ _ e))

  clear_jumped-allocas :
      (from target : ℕ) (f g : FunctionState A E)
      → clear_jumped from target f ≡ some g
      → g.allocas ≡ f.allocas
  unfolding clear_jumped
  clear_jumped-allocas from target f g e =
      let (x, _, made) =
        >>=-eq-some
          (clear_from (f.function_lookup.block_count - target) target from
            (record { active = f.active_blocks; cleared = f.cleared_blocks; clear_count = 0 }))
          _ e in
      ap (λ (x : FunctionState A E). x.allocas) (sym (some-injective _ _ made))

  leave-allocas :
      (current : Option Placement) (i target : ℕ) (f g : FunctionState A E)
      → leave current i target f ≡ some g
      → g.allocas ≡ f.allocas
  leave-allocas none i target f g e = unchanged f g e
  leave-allocas (some current) i target f g e =
      let (a, _, next) = >>=-eq-some f.active_instruction _ e in
      elim (Bool-cases (ltb i a)) [
        | inl jumped ↦ clear_jumped-allocas current.parent target f g (rw jumped at next)
        | inr onward ↦ unchanged f g (rw onward at next)
      ]

  module _ (fresh : ℕ → List ℕ) (initial : A) where
    activate_unless-allocas :
        (active : Option (BasicBlockStore A)) (b : ℕ) (f g : FunctionState A E)
        → activate_unless fresh initial active b f ≡ some g
        → g.allocas ≡ f.allocas
    activate_unless-allocas (some st) b f g e = unchanged f g e
    activate_unless-allocas none b f g e =
        let (info, _, made) = >>=-eq-some (get_elem? f.value_store_info b) _ e in
        ap (λ (x : FunctionState A E). x.allocas) (sym (some-injective _ _ made))

    pub forwarding_to_instruction-allocas :
        (i : ℕ) (f g : FunctionState A E)
        → forwarding_to_instruction fresh initial i f ≡ some g
        → g.allocas ≡ f.allocas
    unfolding forwarding_to_instruction activate_block
    forwarding_to_instruction-allocas i f g e =
        let (to, _, e1) = >>=-eq-some (get_instruction f.function_lookup i) _ e in
        let (h, left, active) = >>=-eq-some (leave (get_active_instruction f) i to.parent f) _ e1 in
        activate_unless-allocas (h.active_blocks to.parent) to.parent h g active
        ∙ leave-allocas (get_active_instruction f) i to.parent f h left

  set_in_block-allocas :
      (set : BasicBlockInfo → ℕ → BasicBlockStore A → Option (BasicBlockStore A)) (i : ℕ)
      (f g : FunctionState A E)
      → set_in_block set i f ≡ some g
      → g.allocas ≡ f.allocas
  unfolding set_in_block
  set_in_block-allocas set i f g e =
      let (at_i, _, e1) = >>=-eq-some (get_instruction f.function_lookup i) _ e in
      let (store, _, e2) = >>=-eq-some (f.active_blocks at_i.parent) _ e1 in
      let (index, _, e3) = >>=-eq-some (get_index_of_instruction f.function_lookup i) _ e2 in
      let (info, _, e4) = >>=-eq-some (get_elem? f.value_store_info at_i.parent) _ e3 in
      let (new, _, made) = >>=-eq-some (set info index store) _ e4 in
      ap (λ (x : FunctionState A E). x.allocas) (sym (some-injective _ _ made))

  pub add_by_val_area-allocas :
      (argument a n : ℕ) (f g : FunctionState A E)
      → add_by_val_area argument a n f ≡ some g
      → g.allocas ≡ f.allocas
  unfolding add_by_val_area
  add_by_val_area-allocas argument a n f g e =
      let (_, _, made) = >>=-eq-some (assert (ltb argument f.function_lookup.arg_count)) _ e in
      ap (λ (x : FunctionState A E). x.allocas) (sym (some-injective _ _ made))

  pub add_runtime_error-allocas :
      (time : ℕ) (error : E) (f g : FunctionState A E)
      → add_runtime_error time error f ≡ some g
      → g.allocas ≡ f.allocas
  unfolding add_runtime_error
  add_runtime_error-allocas time error f g e =
      let (i, _, made) = >>=-eq-some f.active_instruction _ e in
      ap (λ (x : FunctionState A E). x.allocas) (sym (some-injective _ _ made))

-- The allocas of a call after an event.
abbrev pub allocas_after :
    {host : Host} {E : Type 0} → CallEvent host E → List AllocaState → List AllocaState
allocas_after (alloca a) allocas = allocas ++ (a ∷ [])
allocas_after (stack_restore restored) allocas = restored
allocas_after (pre_instruction i) allocas = allocas
allocas_after (instruction i) allocas = allocas
allocas_after (instruction_with v i) allocas = allocas
allocas_after (by_val_region_add argument a n) allocas = allocas
allocas_after (runtime_error is_top_level error) allocas = allocas
allocas_after new_thread_time allocas = allocas

pub push_allocas_lem :
    {A E : Type 0} (xs : List AllocaState) (f : FunctionState A E)
    → push_allocas xs f ≡ record f { allocas = f.allocas ++ xs }
push_allocas_lem [] f = ap (λ ys. record f { allocas = ys }) (sym (append-nil f.allocas))
push_allocas_lem (a ∷ rest) f =
    push_allocas_lem rest (push_alloca a f)
    ∙ ap (λ ys. record f { allocas = ys }) (append_assoc f.allocas (a ∷ []) rest)

module _ {host : Host} {E : Type 0} (fresh : ℕ → List ℕ) where
  set_event_value-allocas :
      (v : InstructionValue host) (i : ℕ) (f g : HostFunction host E)
      → set_event_value v i f ≡ some g
      → g.allocas ≡ f.allocas
  set_event_value-allocas (uint64 v) i f g e = set_in_block-allocas _ i f g e
  set_event_value-allocas (ptr v) i f g e = set_in_block-allocas _ i f g e
  set_event_value-allocas (float v) i f g e = set_in_block-allocas _ i f g e
  set_event_value-allocas (double v) i f g e = set_in_block-allocas _ i f g e
  set_event_value-allocas (long_double v) i f g e =
      let (at_i, _, e1) = >>=-eq-some (get_instruction f.function_lookup i) _ e in
      let (_, _, e2) = >>=-eq-some (assert at_i.instruction.type.is_x86_fp80) _ e1 in
      set_in_block-allocas _ i f g e2

  -- Moving to an instruction, and then what its event does to the call.
  run_instruction-allocas :
      (i : ℕ) (e : CallEvent host E) (f g : HostFunction host E)
      → ((h k : HostFunction host E)
          → readd_event {host = host} e h ≡ some k
          → k.allocas ≡ h.allocas)
      → run_instruction {host = host} fresh i e f ≡ some g
      → g.allocas ≡ f.allocas
  run_instruction-allocas i e f g keeps ran =
      let (h, moved, after) =
        >>=-eq-some (forwarding_to_instruction fresh host.zero_apfloat i f) _ ran in
      keeps h g after ∙ forwarding_to_instruction-allocas fresh host.zero_apfloat i f h moved

  pub effect-allocas :
      (e : CallEvent host E) (f g : HostFunction host E)
      → effect fresh e f ≡ some g
      → g.allocas ≡ allocas_after e f.allocas
  effect-allocas (pre_instruction i) f g e =
      run_instruction-allocas i (pre_instruction i) f g (λ h k. unchanged _ k) e
  effect-allocas (instruction i) f g e =
      run_instruction-allocas i (instruction i) f g (λ h k. unchanged _ k) e
  effect-allocas (instruction_with v i) f g e =
      run_instruction-allocas i (instruction_with v i) f g
        (λ h k done.
          let (x, set, made) = >>=-eq-some (set_event_value v i h) _ done in
          unchanged _ k made ∙ set_event_value-allocas v i h x set)
        e
  effect-allocas (alloca a) f g e = unchanged _ g e
  effect-allocas (stack_restore restored) f g e =
      unchanged _ g e
      ∙ ap (λ (x : HostFunction host E). x.allocas)
          (push_allocas_lem restored (record f { allocas = [] }))
  effect-allocas (by_val_region_add argument a n) f g e = add_by_val_area-allocas argument a n f g e
  effect-allocas (runtime_error is_top_level error) f g e = absurd (cc e)
  effect-allocas new_thread_time f g e = unchanged f g e
