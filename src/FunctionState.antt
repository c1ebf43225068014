-- ===== src/FunctionState.antt =====
-- class FunctionIndex of include/seec/Util/ModuleIndex.hpp, class FunctionInfo of
-- lib/Trace/BlockValueStore.cpp, and the state of include/seec/Trace/FunctionState.hpp. An
-- `llvm::BasicBlock *` is the block's number in the layout of its function, and an
-- `llvm::Instruction *` the instruction's number in it. The stacks BackwardsJumps and ClearedBlocks
-- have their top at the head of the list, the other vectors their first element.
pub mod Blocks
pub mod Numbering
pub mod Clearing
pub mod Forwarding
pub mod Moving
pub mod InstructionValues
pub mod Signed
pub mod Areas
pub mod AreaLookup
mod Tests
use seec.Common.{
  ℕ, zero, suc, ◌+◌, ◌%◌, ◌*◌, ◌==◌, ltb, Bool, true, false, Option, none, some, List, [], ◌∷◌,
  ◌++◌, if◌then◌else◌, assert, ◌>>=◌, ◌>>◌, length, get_elem?,
}
use seec.Interval.{word, MemoryArea, memory_area, contains}
use seec.Allocation.{pop_back}
use seec.ValueStore.{LlvmType, IndexOrOffsetRecord, BasicBlockInfo, basic_block_info}
use seec.ValueStore.Store.{BasicBlockStore}

-- An instruction, and the alloca that it declares where it is an `llvm::DbgDeclareInst` of one.
pub record Instruction : Type 0 where
  pub type : LlvmType
  pub declares : Option ℕ

pub record LlvmFunction : Type 0 where
  pub blocks : List (List Instruction)
  pub arg_size : ℕ

-- An instruction and its `getParent`.
pub record Placement : Type 0 where
  pub parent : ℕ
  pub instruction : Instruction

pub record FunctionIndex : Type 0 where
  pub instruction_ptr_by_idx : List Placement
  pub alloca_to_dbg_declare_idx : List (ℕ × ℕ)
  pub block_count : ℕ
  pub arg_count : ℕ

abbrev pub find_declare : List (ℕ × ℕ) → ℕ → Option ℕ
find_declare [] alloca = none
find_declare ((a, i) ∷ rest) alloca = if a == alloca then some i else find_declare rest alloca

-- `insert` keeps the entry that is there.
abbrev pub insert_declare : Option ℕ → ℕ → List (ℕ × ℕ) → List (ℕ × ℕ)
insert_declare none i m = m
insert_declare (some alloca) i m = m ++ ((alloca, i) ∷ [])

-- The constructor's loop over the instructions of one block.
abbrev pub index_block : ℕ → List Instruction → FunctionIndex → FunctionIndex
index_block b [] x = x
index_block b (ins ∷ rest) x = index_block b rest (record x {
  instruction_ptr_by_idx =
      x.instruction_ptr_by_idx ++ (record { parent = b; instruction = ins } ∷ []);
  alloca_to_dbg_declare_idx =
      insert_declare ins.declares (length x.instruction_ptr_by_idx) x.alloca_to_dbg_declare_idx;
})

abbrev pub index_blocks : List (List Instruction) → FunctionIndex → FunctionIndex
index_blocks [] x = x
index_blocks (block ∷ rest) x =
    index_blocks rest
      (record (index_block x.block_count block x) { block_count = suc x.block_count })

unfoldable pub function_index : LlvmFunction → FunctionIndex
function_index f = index_blocks f.blocks (record {
  instruction_ptr_by_idx = [];
  alloca_to_dbg_declare_idx = [];
  block_count = 0;
  arg_count = f.arg_size;
})

unfoldable pub get_instruction : FunctionIndex → ℕ → Option Placement
get_instruction x i = get_elem? x.instruction_ptr_by_idx i

-- An instruction of another function has no index.
unfoldable pub get_index_of_instruction : FunctionIndex → ℕ → Option ℕ
get_index_of_instruction x i = if ltb i (length x.instruction_ptr_by_idx) then some i else none

unfoldable pub get_index_of_dbg_declare_for : FunctionIndex → ℕ → Option ℕ
get_index_of_dbg_declare_for x alloca = find_declare x.alloca_to_dbg_declare_idx alloca

abbrev types_of : List Instruction → List LlvmType
types_of [] = []
types_of (ins ∷ rest) = ins.type ∷ types_of rest

-- The BasicBlockInfo of each block, by the block's number; `base` counts the instructions before.
abbrev pub block_infos :
    (ℕ → List IndexOrOffsetRecord) → ℕ → List (List Instruction) → Option (List BasicBlockInfo)
block_infos fresh base [] = some []
block_infos fresh base (block ∷ rest) = basic_block_info fresh base (types_of block) >>= λ info.
    block_infos fresh (base + length block) rest >>= λ infos. some (info ∷ infos)

unfoldable pub function_info :
    (ℕ → List IndexOrOffsetRecord) → LlvmFunction → Option (List BasicBlockInfo)
function_info fresh f = block_infos fresh 0 f.blocks

pub record AllocaState : Type 0 where
  pub instruction_index : ℕ
  pub address : ℕ
  pub element_size : ℕ
  pub element_count : ℕ

-- The product of two `std::size_t`.
abbrev pub get_total_size : AllocaState → ℕ
get_total_size a = a.element_size * a.element_count % word

pub record ParamByValState : Type 0 where
  pub argument : ℕ
  pub area : MemoryArea

pub record RuntimeErrorState (E : Type 0) : Type 0 where
  pub instruction_index : ℕ
  pub error : E
  pub thread_time : ℕ

pub record BasicBlockBackwardsJumpRecord : Type 0 where
  pub from_block : ℕ
  pub num_cleared : ℕ

-- `A` is `llvm::APFloat` and `E` the type of the run-time errors.
pub record FunctionState (A E : Type 0) : Type 0 where
  pub function_lookup : FunctionIndex
  pub value_store_info : List BasicBlockInfo
  pub index : ℕ
  pub active_instruction : Option ℕ
  pub active_instruction_complete : Bool
  pub allocas : List AllocaState
  pub param_by_vals : List ParamByValState
  pub runtime_errors : List (RuntimeErrorState E)
  pub active_blocks : ℕ → Option (BasicBlockStore A)
  pub backwards_jumps : List BasicBlockBackwardsJumpRecord
  pub cleared_blocks : List (ℕ × BasicBlockStore A)

-- The constructor.
abbrev pub function_state :
    {A E : Type 0} → ℕ → FunctionIndex → List BasicBlockInfo → FunctionState A E
function_state index lookup infos = record {
  function_lookup = lookup;
  value_store_info = infos;
  index = index;
  active_instruction = none;
  active_instruction_complete = false;
  allocas = [];
  param_by_vals = [];
  runtime_errors = [];
  active_blocks = λ b. none;
  backwards_jumps = [];
  cleared_blocks = [];
}
