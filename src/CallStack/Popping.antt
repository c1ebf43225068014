-- ===== src/CallStack/Popping.antt =====
-- What leaving the call on top does.
use seec.Common.{
  ℕ, ◌==◌, ◌≡◌, sym, ap, ◌∙◌, Option, some, List, ◌∷◌, ◌>>=◌, >>=-eq-some, some-injective, assert,
}
use seec.ValueStore.Store.{Host}
use seec.FunctionState.{FunctionState}
use seec.FunctionState.InstructionValues.{HostFunction}
use package.seec.CallStack.{ThreadState, remove_allocas, remove_by_vals}
use package.seec.CallStack.Steps.{pop_call, function_end_forward}

abbrev index_of : {A E : Type 0} → FunctionState A E → ℕ
index_of f = f.index

module _ {host : Host} {E : Type 0} where
  -- What moving forward over the end of the call on top does.
  pub function_end_forward-inverts :
      (index exited : ℕ) (u v : ThreadState host E) (g : HostFunction host E)
      (rest : List (HostFunction host E))
      → u.call_stack ≡ g ∷ rest
      → function_end_forward index exited u ≡ some v
      → (remove_by_vals g.param_by_vals u.memory >>= remove_allocas g.allocas) ≡ some v.memory
        × (v.call_stack ≡ rest)
  unfolding function_end_forward
  function_end_forward-inverts index exited u v g rest top e =
      let finish : HostFunction host E × List (HostFunction host E) → Option (ThreadState host E) =
        λ p.
          (remove_by_vals p.0.param_by_vals u.memory >>= remove_allocas p.0.allocas >>= λ m.
          some (record { memory = m; thread_time = exited; call_stack = p.1 })) in
      let popped = sym (ap (λ s. pop_call index_of index s >>= finish) top) ∙ e in
      let (p, pops, ends) = >>=-eq-some (pop_call index_of index (g ∷ rest)) finish popped in
      let (_, _, same) = >>=-eq-some (assert (g.index == index)) _ pops in
      let ends_g = ap finish (some-injective _ _ same) ∙ ends in
      let (m, gone, made) =
        >>=-eq-some (remove_by_vals g.param_by_vals u.memory >>= remove_allocas g.allocas) _
          ends_g in
      let is = some-injective _ _ made in
      (
        gone ∙ ap (λ (x : ThreadState host E). some x.memory) is,
        sym (ap (λ (x : ThreadState host E). x.call_stack) is),
      )
