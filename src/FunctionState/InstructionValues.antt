-- ===== src/FunctionState/InstructionValues.antt =====
-- The values of instructions in lib/Trace/FunctionState.cpp: `setValue*`, `hasValue`, `getValue*`.
use seec.Common.{
  ℕ, ◌==◌, ◌&&◌, ltb, Bool, true, false, not, Option, none, some, if◌then◌else◌, ◌>>=◌, get_elem?,
}
use seec.ValueStore.{BasicBlockInfo, is_recordable_type}
use seec.ValueStore.Store.{
  Host, BasicBlockStore, set_value, get_value, set_apfloat, get_apfloat,
  has_value as store_has_value,
}
use package.seec.FunctionState.{FunctionState, Placement, get_instruction, get_index_of_instruction}
use package.seec.FunctionState.Blocks.{put}

abbrev pub dominated_by : ℕ → Option ℕ → Bool → Bool
dominated_by active none complete = false
dominated_by active (some i) complete =
    if ltb active i then false else if active == i && not complete then false else true

abbrev pub dominated_if : Option ℕ → Option ℕ → Bool → Bool
dominated_if none index complete = false
dominated_if (some active) index complete = dominated_by active index complete

module _ {A E : Type 0} where
  -- What every setter does with the store of the instruction's block; a null Info asserts.
  unfoldable pub set_in_block :
      (BasicBlockInfo → ℕ → BasicBlockStore A → Option (BasicBlockStore A))
      → ℕ
      → FunctionState A E
      → Option (FunctionState A E)
  set_in_block set i fs = get_instruction fs.function_lookup i >>= λ at_i.
      fs.active_blocks at_i.parent >>= λ store.
      get_index_of_instruction fs.function_lookup i >>= λ index.
      get_elem? fs.value_store_info at_i.parent >>= λ info. set info index store >>= λ new.
      some (record fs { active_blocks = put at_i.parent new fs.active_blocks })

  unfoldable pub is_dominated_by_active : ℕ → FunctionState A E → Bool
  is_dominated_by_active i fs =
      dominated_if fs.active_instruction (get_index_of_instruction fs.function_lookup i)
        fs.active_instruction_complete

  -- What `hasValue` and the getters do where the instruction's block is active or is not.
  abbrev pub in_store :
      {X : Type 0}
      → X
      → ℕ
      → FunctionState A E
      → Placement
      → (BasicBlockInfo → ℕ → BasicBlockStore A → Option X)
      → Option (BasicBlockStore A)
      → Option X
  in_store absent i fs at_i get none = some absent
  in_store absent i fs at_i get (some store) =
      get_index_of_instruction fs.function_lookup i >>= λ index.
      get_elem? fs.value_store_info at_i.parent >>= λ info. get info index store

  unfoldable pub has_value : ℕ → FunctionState A E → Option Bool
  has_value i fs =
      if is_dominated_by_active i fs
      then (get_instruction fs.function_lookup i >>= λ at_i.
          (if is_recordable_type at_i.instruction.type
            then in_store false i fs at_i store_has_value (fs.active_blocks at_i.parent)
            else some false))
      else some false

  -- What every getter but `getValueInt64` does.
  unfoldable pub get_in_block :
      {X : Type 0}
      → (BasicBlockInfo → ℕ → BasicBlockStore A → Option (Option X))
      → ℕ
      → FunctionState A E
      → Option (Option X)
  get_in_block get i fs =
      if is_dominated_by_active i fs
      then (get_instruction fs.function_lookup i >>= λ at_i.
          in_store none i fs at_i get (fs.active_blocks at_i.parent))
      else some none

abbrev pub HostFunction : Host → Type 0 → Type 0
HostFunction host E = FunctionState host.ApFloat E

module _ (host : Host) {E : Type 0} where
  abbrev pub set_value_uint64 : ℕ → ℕ → HostFunction host E → Option (HostFunction host E)
  set_value_uint64 i v = set_in_block (λ info k. set_value host.uint64 info k v) i

  abbrev pub set_value_ptr : ℕ → ℕ → HostFunction host E → Option (HostFunction host E)
  set_value_ptr i v = set_in_block (λ info k. set_value host.ptr info k v) i

  abbrev pub set_value_float : ℕ → host.Float → HostFunction host E → Option (HostFunction host E)
  set_value_float i v = set_in_block (λ info k. set_value host.float info k v) i

  abbrev pub set_value_double : ℕ → host.Double → HostFunction host E → Option (HostFunction host E)
  set_value_double i v = set_in_block (λ info k. set_value host.double info k v) i

  abbrev pub set_value_apfloat :
      ℕ → host.ApFloat → HostFunction host E → Option (HostFunction host E)
  set_value_apfloat i v = set_in_block (λ info k. set_apfloat info k v) i

  abbrev pub get_value_uint64 : ℕ → HostFunction host E → Option (Option ℕ)
  get_value_uint64 = get_in_block (get_value host.uint64)

  abbrev pub get_value_ptr : ℕ → HostFunction host E → Option (Option ℕ)
  get_value_ptr = get_in_block (get_value host.ptr)

  abbrev pub get_value_float : ℕ → HostFunction host E → Option (Option host.Float)
  get_value_float = get_in_block (get_value host.float)

  abbrev pub get_value_double : ℕ → HostFunction host E → Option (Option host.Double)
  get_value_double = get_in_block (get_value host.double)

  abbrev pub get_value_apfloat : ℕ → HostFunction host E → Option (Option host.ApFloat)
  get_value_apfloat = get_in_block get_apfloat
