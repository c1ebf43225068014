-- ===== src/FunctionState/Forwarding.antt =====
-- FunctionState::forwardingToInstruction ends: its loop over the blocks meets the current one.
use seec.Common.{
  ℕ, ◌-◌, ◌≤◌, ◌<◌, ◌≡◌, refl, sym, ap, subst, ◌∙◌, inl, inr, some, Bool-cases, Option-cases, List,
  arith, ltb, ◌>>=◌, >>=-eq-some, length, get_elem?-below, if◌then◌else◌,
}
use seec.ValueStore.Store.{basic_block_store}
use package.seec.FunctionState.{
  LlvmFunction, Placement, FunctionState, function_index, get_instruction,
}
use package.seec.FunctionState.Blocks.{
  put, clear_jumped, with_cleared, leave, activate_block, forwarding_to_instruction,
  get_active_instruction,
}
use package.seec.FunctionState.Clearing.{clear_from-total}
use package.seec.FunctionState.Numbering.{FollowsBlocks, function_index-FollowsBlocks}

-- What happens to the blocks before the new one is made active.
pub leave_from :
    {A E : Type 0} (i target : ℕ) (fs : FunctionState A E) (a : ℕ)
    → fs.active_instruction ≡ some a
    → (current : Placement) → get_active_instruction fs ≡ some current
    → leave (get_active_instruction fs) i target fs
      ≡ (if ltb i a then clear_jumped current.parent target fs else some fs)
leave_from i target fs a active current found =
    let jump = λ (x : ℕ). if ltb i x then clear_jumped current.parent target fs else some fs in
    ap (λ o. leave o i target fs) found ∙ ap (λ o. o >>= jump) active

module _ {A E : Type 0} (fresh : ℕ → List ℕ) (initial : A) where
  activate_block-total :
      (b : ℕ) (fs : FunctionState A E)
      → b < length fs.value_store_info
      → (after : FunctionState A E) × (activate_block fresh initial b fs ≡ some after)
  unfolding activate_block
  activate_block-total b fs h = elim (Option-cases (fs.active_blocks b)) [
    | inr (st, there) ↦ (fs, rw there refl)
    | inl absent ↦
        let (info, e) = get_elem?-below fs.value_store_info b h in
        (
          record fs {
            active_blocks = put b (basic_block_store fresh initial info) fs.active_blocks;
          },
          rw (absent, e) refl,
        )
  ]

  -- The function that the state belongs to.
  module _ (f : LlvmFunction) (fs : FunctionState A E)
      (indexed : fs.function_lookup ≡ function_index f)
      (described : length fs.value_store_info ≡ length f.blocks) where
    follows : FollowsBlocks (length f.blocks) fs.function_lookup.instruction_ptr_by_idx
    follows =
        subst (λ x. FollowsBlocks (length f.blocks) x.instruction_ptr_by_idx) (sym indexed)
          (function_index-FollowsBlocks f).0

    blocks_counted : fs.function_lookup.block_count ≡ length f.blocks
    blocks_counted = ap (λ x. x.block_count) indexed ∙ (function_index-FollowsBlocks f).1

    clear_jumped-total :
        (from target : ℕ)
        → target ≤ from
        → from < length f.blocks
        → (left : FunctionState A E) × (clear_jumped from target fs ≡ some left)
          × (left.value_store_info ≡ fs.value_store_info)
    unfolding clear_jumped
    clear_jumped-total from target back inside =
        let (x, e) =
          clear_from-total (fs.function_lookup.block_count - target) target from
            (record { active = fs.active_blocks; cleared = fs.cleared_blocks; clear_count = 0 })
            back (omega (arith, blocks_counted)) in
        (with_cleared from fs x, rw e refl, refl)

    leave-total :
        (i : ℕ) (to : Placement)
        → get_instruction fs.function_lookup i ≡ some to
        → (left : FunctionState A E) × (leave (get_active_instruction fs) i to.parent fs
            ≡ some left)
          × (left.value_store_info ≡ fs.value_store_info)
    unfolding get_instruction get_active_instruction
    leave-total i to at_i =
        let jumps = leave_from i to.parent fs in
        elim (Option-cases (get_active_instruction fs)) [
          | inl nothing ↦ (fs, rw nothing refl, refl)
          | inr (current, found) ↦
              let (a, active, at_a) = >>=-eq-some fs.active_instruction _ found in
              elim (Bool-cases (ltb i a)) [
                | inl back ↦
                    let (left, e, same) =
                      clear_jumped-total current.parent to.parent
                        (follows.ordered i a to current (ground arith) at_i at_a)
                        (follows.below a current at_a) in
                    (left, jumps a active current found ∙ (rw back e), same)
                | inr on ↦ (fs, jumps a active current found ∙ (rw on refl), refl)
              ]
        ]

    -- For the index of a function and the basic block infos of all its blocks, moving forward to an
    -- instruction of the function succeeds from every state: the loop of a jump back ends at the
    -- current block and does not run behind the last one.
    pub forwarding_to_instruction-total :
        (i : ℕ) (to : Placement)
        → get_instruction fs.function_lookup i ≡ some to
        → (after : FunctionState A E) × (forwarding_to_instruction fresh initial i fs ≡ some after)
    unfolding forwarding_to_instruction get_instruction
    forwarding_to_instruction-total i to at_i =
        let (left, leaves, same) = leave-total i to at_i in
        let inside = follows.below i to at_i in
        let (after, enters) =
          activate_block-total to.parent left (omega (arith, described, ap length same)) in
        (after, rw (at_i, leaves) enters)
