-- ===== src/FunctionState/Moving.antt =====
-- Moving the active instruction forward and back again: which blocks have values, and the stacks.
use mathlib.Core.Path.{fun_ext}
use seec.Common.{
  ℕ, ◌-◌, ◌≡◌, refl, sym, ap, subst, ◌∙◌, inl, inr, ◌==◌, ltb, Bool, Bool-cases, true, false,
  Option-cases, none, some, List, arith, ◌>>=◌, >>=-eq-some, if◌then◌else◌, some-injective,
  get_elem?,
}
use seec.ValueStore.Store.{BasicBlockStore, basic_block_store}
use package.seec.FunctionState.{FunctionState, Placement, get_instruction}
use package.seec.FunctionState.Blocks.{
  BlockMap, Clearing, put, uncleared, clear_from, clear_jumped, with_cleared, leave, activate_block,
  forwarding_to_instruction, unclear_last, rewinding_to_instruction, get_active_instruction,
}
use package.seec.FunctionState.Forwarding.{leave_from}
use package.seec.FunctionState.Clearing.{Cell, clear_from-Undone}

module _ {A : Type 0} where
  module _ (m gone back : BlockMap A) (b : ℕ) where
    unactivated : ((c : ℕ) → Cell m gone gone back c) → back ≡ m
    unactivated cells = fun_ext (λ c. elim (cells c) [
      | inl (kept, same) ↦ same ∙ kept
      | inr (st, had, lost, got) ↦ got ∙ sym had
    ])

    activated_new :
        (new : BasicBlockStore A)
        → m b ≡ none
        → ((c : ℕ) → Cell m gone (put b new gone) back c)
        → back ≡ put b new m
    activated_new new empty cells = fun_ext (λ c. elim (cells c) [
      | inl (kept, same) ↦ elim (Bool-cases (c == b)) [
        | inl at_b ↦ rw at_b (rw at_b at same)
        | inr other ↦ rw other ((rw other at same) ∙ kept)
      ]
      | inr (st, had, lost, got) ↦ elim (Bool-cases (c == b)) [
        | inl at_b ↦ let here : c ≡ b = ground arith in absurd (cc (had, empty, here))
        | inr other ↦ rw other (got ∙ sym had)
      ]
    ])

    activated_over :
        (new st : BasicBlockStore A)
        → m b ≡ some st
        → gone b ≡ none
        → ((c : ℕ) → Cell m gone (put b new gone) back c)
        → back ≡ m
    activated_over new st had_b lost_b cells = fun_ext (λ c. elim (cells c) [
      | inl (kept, same) ↦ elim (Bool-cases (c == b)) [
        | inl at_b ↦ let here : c ≡ b = ground arith in absurd (cc (had_b, lost_b, here, kept))
        | inr other ↦ (rw other at same) ∙ kept
      ]
      | inr (su, had, lost, got) ↦ got ∙ sym had
    ])

module _ {A E : Type 0} where
  -- The state with another active instruction, as `setActiveInstructionComplete` and
  -- `setActiveInstructionIncomplete` leave it.
  abbrev pub moved_to : ℕ → Bool → FunctionState A E → FunctionState A E
  moved_to i complete fs = record fs {
    active_instruction = some i;
    active_instruction_complete = complete;
  }

  -- Restoring a jump's blocks, when the stacks are those that the jump left.
  unclear_jumped :
      (from target i : ℕ) (complete : Bool) (fs : FunctionState A E) (x : Clearing A)
      (later back : BlockMap A)
      → uncleared x.clear_count later x.cleared ≡ some (back, fs.cleared_blocks)
      → unclear_last from
          ((with_cleared from fs x).backwards_jumps)
          (moved_to i complete (record (with_cleared from fs x) { active_blocks = later }))
        ≡ some (moved_to i complete (record fs { active_blocks = back }))
  unclear_jumped from target i complete fs x later back e =
      let same : from == from ≡ true = ground arith in rw (same, e) refl

  restored_blocks :
      (from target : ℕ) (fs : FunctionState A E) (x : Clearing A)
      → clear_from
          (fs.function_lookup.block_count - target)
          target
          from
          (record { active = fs.active_blocks; cleared = fs.cleared_blocks; clear_count = 0 })
        ≡ some x
      → (later : BlockMap A)
      → (back : BlockMap A) × (uncleared x.clear_count later x.cleared
          ≡ some (back, fs.cleared_blocks))
        × ((c : ℕ) → Cell fs.active_blocks x.active later back c)
  restored_blocks from target fs x e later =
      let u = clear_from-Undone _ target from _ x e in
      let (back, same, cells) = u.restored later in
      let count : x.clear_count ≡ u.steps = omega (arith, u.counted) in (back, rw count same, cells)

  module _ (fresh : ℕ → List ℕ) (initial : A) where
    -- What rewinding does, once it is known which blocks it leaves active.
    rewound :
        (from target i : ℕ) (complete : Bool) (fs after : FunctionState A E) (x : Clearing A)
        (later back result : BlockMap A)
        → record (with_cleared from fs x) { active_blocks = later } ≡ after
        → uncleared x.clear_count later x.cleared ≡ some (back, fs.cleared_blocks)
        → back ≡ result
        → unclear_last from after.backwards_jumps (moved_to i complete after)
          ≡ some (moved_to i complete (record fs { active_blocks = result }))
    rewound from target i complete fs after x later back result made same agree =
        subst
          (λ s.
            unclear_last from s.backwards_jumps (moved_to i complete s)
            ≡ some (moved_to i complete (record fs { active_blocks = result })))
          made
          (unclear_jumped from target i complete fs x later back same
            ∙ ap (λ m. some (moved_to i complete (record fs { active_blocks = m }))) agree)

    jump_undone :
        (from target i : ℕ) (complete : Bool) (fs after : FunctionState A E) (x : Clearing A)
        → ((later : BlockMap A)
            → (back : BlockMap A) × (uncleared x.clear_count later x.cleared
                ≡ some (back, fs.cleared_blocks))
              × ((c : ℕ) → Cell fs.active_blocks x.active later back c))
        → activate_block fresh initial target (with_cleared from fs x) ≡ some after
        → (activated : FunctionState A E) × (activate_block fresh initial target fs
            ≡ some activated)
          × (unclear_last from after.backwards_jumps (moved_to i complete after)
              ≡ some (moved_to i complete activated))
    unfolding activate_block
    jump_undone from target i complete fs after x restores e =
        elim (Option-cases (x.active target)) [
          | inr (su, there) ↦
              let (back, same, cells) = restores x.active in
              let had : fs.active_blocks target ≡ some su = elim (cells target) [
                | inl (kept, _) ↦ sym kept ∙ there
                | inr (_, _, lost, _) ↦ absurd (cc (there, lost))
              ] in
              (
                fs,
                rw had refl,
                rewound from target i complete fs after x x.active back fs.active_blocks
                    (some-injective _ _ (rw there at e)) same
                    (unactivated fs.active_blocks x.active back target cells),
              )
          | inl gone ↦
              let (info, known, made) =
                >>=-eq-some (get_elem? fs.value_store_info target) _ (rw gone at e) in
              let new = basic_block_store fresh initial info in
              let (back, same, cells) = restores (put target new x.active) in
              elim (Option-cases (fs.active_blocks target)) [
                | inl empty ↦ (
                  record fs { active_blocks = put target new fs.active_blocks },
                  rw (empty, known) refl,
                  rewound from target i complete fs after x (put target new x.active) back _
                      (some-injective _ _ made) same
                      (activated_new fs.active_blocks x.active back target new empty cells),
                )
                | inr (st, had) ↦ (
                  fs,
                  rw had refl,
                  rewound from target i complete fs after x (put target new x.active) back _
                      (some-injective _ _ made) same
                      (activated_over fs.active_blocks x.active back target new st had gone cells),
                )
              ]
        ]

    activate_block-function_lookup :
        (b : ℕ) (fs after : FunctionState A E)
        → activate_block fresh initial b fs ≡ some after
        → after.function_lookup ≡ fs.function_lookup
    unfolding activate_block
    activate_block-function_lookup b fs after e = elim (Option-cases (fs.active_blocks b)) [
      | inr (st, there) ↦ ap (λ s. s.function_lookup) (sym (some-injective _ _ (rw there at e)))
      | inl none_there ↦
          let (info, _, made) =
            >>=-eq-some (get_elem? fs.value_store_info b) _ (rw none_there at e) in
          ap (λ s. s.function_lookup) (sym (some-injective _ _ made))
    ]

    rewinding_over_jump :
        (i a : ℕ) (complete : Bool) (current : Placement) (fs after : FunctionState A E)
        → ltb i a ≡ true
        → get_instruction after.function_lookup a ≡ some current
        → rewinding_to_instruction a (moved_to i complete after)
          ≡ unclear_last current.parent after.backwards_jumps (moved_to i complete after)
    unfolding rewinding_to_instruction
    rewinding_over_jump i a complete current fs after back at_a = rw (at_a, back) refl

    rewinding_no_jump :
        (i a : ℕ) (complete : Bool) (current : Placement) (after : FunctionState A E)
        → ltb i a ≡ false
        → get_instruction after.function_lookup a ≡ some current
        → rewinding_to_instruction a (moved_to i complete after) ≡ some (moved_to i complete after)
    unfolding rewinding_to_instruction
    rewinding_no_jump i a complete current after on at_a = rw (at_a, on) refl

    -- What `forwardingToInstruction` does before it makes the new block active.
    forwarding_splits :
        (i a : ℕ) (to current : Placement) (fs after : FunctionState A E)
        → fs.active_instruction ≡ some a
        → get_instruction fs.function_lookup a ≡ some current
        → get_instruction fs.function_lookup i ≡ some to
        → forwarding_to_instruction fresh initial i fs ≡ some after
        → ((if ltb i a then clear_jumped current.parent to.parent fs else some fs)
            >>= activate_block fresh initial to.parent)
          ≡ some after
    unfolding forwarding_to_instruction get_active_instruction
    forwarding_splits i a to current fs after active at_a at_i e =
        let enter = activate_block fresh initial to.parent in
        let found : get_active_instruction fs ≡ some current =
          ap (λ o. o >>= get_instruction fs.function_lookup) active ∙ at_a in
        let to_target =
          ap
            (λ o. o >>= λ t.
              (leave (get_active_instruction fs) i t.parent fs
                >>= activate_block fresh initial t.parent))
            at_i in
        let leaving = ap (λ o. o >>= enter) (leave_from i to.parent fs a active current found) in
        sym (to_target ∙ leaving) ∙ e

    jumped_back :
        (from target i : ℕ) (complete : Bool) (fs after : FunctionState A E)
        → (clear_jumped from target fs >>= activate_block fresh initial target) ≡ some after
        → (activated : FunctionState A E) × (activate_block fresh initial target fs
            ≡ some activated)
          × (unclear_last from after.backwards_jumps (moved_to i complete after)
              ≡ some (moved_to i complete activated))
          × (after.function_lookup ≡ fs.function_lookup)
    unfolding clear_jumped
    jumped_back from target i complete fs after e =
        let (left, jumped, entered) = >>=-eq-some (clear_jumped from target fs) _ e in
        let (x, cleared, made) = >>=-eq-some (clear_from _ target from _) _ jumped in
        let entered_x =
          subst (λ s. activate_block fresh initial target s ≡ some after)
            (sym (some-injective _ _ made)) entered in
        let (activated, known, back) =
          jump_undone from target i complete fs after x (restored_blocks from target fs x cleared)
            entered_x in
        (
          activated,
          known,
          back,
          activate_block-function_lookup target (with_cleared from fs x) after entered_x,
        )

    -- From a state with the active instruction `a`, moving forward to `i`, setting it as the active
    -- instruction and rewinding to `a` leaves the state from before, with `i` for its active
    -- instruction still, and with the block of `i` active: the values that a jump back cleared are
    -- back, and so are the stacks of the jumps and of the cleared blocks.
    pub rewinding_to_instruction-forwarding_to_instruction :
        (i a : ℕ) (complete : Bool) (to current : Placement) (fs after : FunctionState A E)
        → fs.active_instruction ≡ some a
        → get_instruction fs.function_lookup a ≡ some current
        → get_instruction fs.function_lookup i ≡ some to
        → forwarding_to_instruction fresh initial i fs ≡ some after
        → (activated : FunctionState A E) × (activate_block fresh initial to.parent fs
            ≡ some activated)
          × (rewinding_to_instruction a (moved_to i complete after)
              ≡ some (moved_to i complete activated))
    rewinding_to_instruction-forwarding_to_instruction i a complete to current fs after active at_a
          at_i e =
        let split = forwarding_splits i a to current fs after active at_a at_i e in
        elim (Bool-cases (ltb i a)) [
          | inl back ↦
              let (activated, known, restored, same) =
                jumped_back current.parent to.parent i complete fs after (rw back at split) in
              (
                activated,
                known,
                rewinding_over_jump i a complete current fs after back
                      (ap (λ x. get_instruction x a) same ∙ at_a)
                    ∙ restored,
              )
          | inr on ↦
              let entered = rw on at split in
              (
                after,
                entered,
                rewinding_no_jump i a complete current after on (
                    ap (λ x. get_instruction x a)
                      (activate_block-function_lookup to.parent fs after entered)
                    ∙ at_a),
              )
        ]
