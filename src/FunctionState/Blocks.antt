-- ===== src/FunctionState/Blocks.antt =====
-- FunctionState::forwardingToInstruction and rewindingToInstruction of lib/Trace/FunctionState.cpp:
-- which basic blocks have values, when the active instruction moves.
use seec.Common.{
  ℕ, zero, suc, ◌-◌, ◌==◌, ltb, true, false, Option, none, some, List, [], ◌∷◌, if◌then◌else◌,
  assert, ◌>>=◌, ◌>>◌, get_elem?,
}
use seec.ValueStore.Store.{BasicBlockStore, basic_block_store}
use package.seec.FunctionState.{
  Placement, FunctionState, BasicBlockBackwardsJumpRecord, get_instruction,
}

-- ActiveBlocks, an `llvm::DenseMap`.
abbrev pub BlockMap : Type 0 → Type 0
BlockMap A = ℕ → Option (BasicBlockStore A)

-- ActiveBlocks, ClearedBlocks and ClearCount.
pub record Clearing (A : Type 0) : Type 0 where
  pub active : BlockMap A
  pub cleared : List (ℕ × BasicBlockStore A)
  pub clear_count : ℕ

module _ {A : Type 0} where
  abbrev pub put : ℕ → BasicBlockStore A → BlockMap A → BlockMap A
  put b st m = λ c. if c == b then some st else m c

  abbrev pub remove : ℕ → BlockMap A → BlockMap A
  remove b m = λ c. if c == b then none else m c

  abbrev pub clear_found : ℕ → Option (BasicBlockStore A) → Clearing A → Clearing A
  clear_found b none x = x
  clear_found b (some st) x = record {
    active = remove b x.active;
    cleared = (b, st) ∷ x.cleared;
    clear_count = suc x.clear_count;
  }

  -- The loop from the block `b` to the block `last`. The fuel is the number of blocks from `b` on:
  -- behind them `getNextNode` is null.
  abbrev pub clear_from : ℕ → ℕ → ℕ → Clearing A → Option (Clearing A)
  clear_from zero b last x = none
  clear_from (suc fuel) b last x =
      let next = clear_found b (x.active b) x in
      let rest = clear_from fuel (suc b) last next in if b == last then some next else rest

  abbrev pub uncleared :
      ℕ
      → BlockMap A
      → List (ℕ × BasicBlockStore A)
      → Option (BlockMap A × List (ℕ × BasicBlockStore A))
  uncleared zero m cleared = some (m, cleared)
  uncleared (suc n) m [] = none
  uncleared (suc n) m ((b, st) ∷ cleared) = uncleared n (put b st m) cleared

module _ {A E : Type 0} where
  abbrev pub with_cleared : ℕ → FunctionState A E → Clearing A → FunctionState A E
  with_cleared from fs x = record fs {
    active_blocks = x.active;
    cleared_blocks = x.cleared;
    backwards_jumps =
        record { from_block = from; num_cleared = x.clear_count } ∷ fs.backwards_jumps;
  }

  -- The jump back from the block `from` to the block `target`.
  unfoldable pub clear_jumped : ℕ → ℕ → FunctionState A E → Option (FunctionState A E)
  clear_jumped from target fs =
      clear_from (fs.function_lookup.block_count - target) target from
        (record { active = fs.active_blocks; cleared = fs.cleared_blocks; clear_count = 0 })
      >>= λ x. some (with_cleared from fs x)

  unfoldable pub get_active_instruction : FunctionState A E → Option Placement
  get_active_instruction fs = fs.active_instruction >>= get_instruction fs.function_lookup

  abbrev pub leave : Option Placement → ℕ → ℕ → FunctionState A E → Option (FunctionState A E)
  leave none i target fs = some fs
  leave (some current) i target fs = fs.active_instruction >>= λ a.
      (if ltb i a then clear_jumped current.parent target fs else some fs)

  module _ (fresh : ℕ → List ℕ) (initial : A) where
    abbrev pub activate_unless :
        Option (BasicBlockStore A) → ℕ → FunctionState A E → Option (FunctionState A E)
    activate_unless (some st) b fs = some fs
    activate_unless none b fs = get_elem? fs.value_store_info b >>= λ info. some (record fs {
      active_blocks = put b (basic_block_store fresh initial info) fs.active_blocks;
    })

    -- Make the basic block of the new instruction active.
    unfoldable pub activate_block : ℕ → FunctionState A E → Option (FunctionState A E)
    activate_block b fs = activate_unless (fs.active_blocks b) b fs

    unfoldable pub forwarding_to_instruction : ℕ → FunctionState A E → Option (FunctionState A E)
    forwarding_to_instruction i fs = get_instruction fs.function_lookup i >>= λ to.
        leave (get_active_instruction fs) i to.parent fs >>= activate_block to.parent

  abbrev pub unclear_last :
      ℕ → List BasicBlockBackwardsJumpRecord → FunctionState A E → Option (FunctionState A E)
  unclear_last target [] fs = none
  unclear_last target (jump ∷ jumps) fs =
      assert (target == jump.from_block)
      >> uncleared jump.num_cleared fs.active_blocks fs.cleared_blocks
      >>= λ (active, cleared).
          some (record fs {
            active_blocks = active;
            cleared_blocks = cleared;
            backwards_jumps = jumps;
          })

  unfoldable pub rewinding_to_instruction : ℕ → FunctionState A E → Option (FunctionState A E)
  rewinding_to_instruction i fs = get_instruction fs.function_lookup i >>= λ to.
      fs.active_instruction >>= λ a.
      (if ltb a i then unclear_last to.parent fs.backwards_jumps fs else some fs)

  abbrev pub set_active_instruction_complete : ℕ → FunctionState A E → FunctionState A E
  set_active_instruction_complete i fs = record fs {
    active_instruction = some i;
    active_instruction_complete = true;
  }

  abbrev pub set_active_instruction_incomplete : ℕ → FunctionState A E → FunctionState A E
  set_active_instruction_incomplete i fs = record fs {
    active_instruction = some i;
    active_instruction_complete = false;
  }

  abbrev pub clear_active_instruction : FunctionState A E → FunctionState A E
  clear_active_instruction fs = record fs { active_instruction = none }
