-- ===== src/ValueStore/Tests.antt =====
-- Runs of the value store, and the theorems at concrete inputs.
use seec.Common.{
  ℕ, ◌+◌, ◌≤◌, ◌≡◌, refl, ◌⊎◌, true, false, Option, none, some, List, [], ◌∷◌, arith, length,
  replicate, length-replicate,
}
use package.seec.ValueStore.{
  LlvmType, IndexOrOffsetRecord, BasicBlockInfo, basic_block_info, get_data_offset, empty_info,
  get_apfloat_index,
}
use package.seec.ValueStore.Store.{
  BasicBlockStore, basic_block_store, has_value, get_value, set_value, set_apfloat, get_apfloat,
}
use package.seec.ValueStore.Offsets.{
  IsLayout, basic_block_info-IsLayout, get_data_offset-Apart, constructed-IsLayout,
}
use package.seec.ValueStore.Values.{
  Fits, basic_block_store-Fits, get_value-set_value, get_value-set_value_other,
}
use package.seec.ValueStore.LittleEndian.{number}

abbrev other_type : LlvmType
other_type = record {
  bit_width = none;
  is_pointer = false;
  is_float = false;
  is_double = false;
  is_x86_fp80 = false;
  is_fp128 = false;
  is_ppc_fp128 = false;
}

abbrev i32 : LlvmType
i32 = record other_type { bit_width = some 32 }

abbrev float : LlvmType
float = record other_type { is_float = true }

abbrev x86_fp80 : LlvmType
x86_fp80 = record other_type { is_x86_fp80 = true }

-- %a = i32, a store, %b = float, %c = x86_fp80, %d = i32
abbrev types : List LlvmType
types = i32 ∷ other_type ∷ float ∷ x86_fp80 ∷ i32 ∷ []

abbrev fresh_records : ℕ → List IndexOrOffsetRecord
fresh_records n =
    replicate n (record { is_apfloat_index = false; is_data_offset = false; value = 0 })

length-fresh_records : (n : ℕ) → length (fresh_records n) ≡ n
length-fresh_records n = length-replicate n _

abbrev fresh_bytes : ℕ → List ℕ
fresh_bytes n = replicate n 204

abbrev the : {A : Type 0} → A → Option A → A
the d none = d
the d (some a) = a

abbrev info : BasicBlockInfo
info = the (empty_info 0 []) (basic_block_info fresh_records 10 types)

info_made : basic_block_info fresh_records 10 types ≡ some info
unfolding basic_block_info seec.ValueStore.add_instruction seec.ValueStore.is_recordable_type
    seec.ValueStore.is_long_double seec.ValueStore.get_recreated_store_size_for_type
info_made = refl

info_offset : get_data_offset info 14 ≡ some (some 12)
unfolding get_data_offset seec.ValueStore.get_adjusted_index basic_block_info
    seec.ValueStore.add_instruction seec.ValueStore.is_recordable_type
    seec.ValueStore.is_long_double seec.ValueStore.get_recreated_store_size_for_type
info_offset = refl

info_no_offset : get_data_offset info 11 ≡ some none
unfolding get_data_offset seec.ValueStore.get_adjusted_index basic_block_info
    seec.ValueStore.add_instruction seec.ValueStore.is_recordable_type
    seec.ValueStore.is_long_double seec.ValueStore.get_recreated_store_size_for_type
info_no_offset = refl

info_outside : get_data_offset info 15 ≡ none
unfolding get_data_offset seec.ValueStore.get_adjusted_index basic_block_info
    seec.ValueStore.add_instruction seec.ValueStore.is_recordable_type
    seec.ValueStore.is_long_double seec.ValueStore.get_recreated_store_size_for_type
info_outside = refl

info_apfloat : get_apfloat_index info 13 ≡ some (some 0)
unfolding get_apfloat_index seec.ValueStore.get_adjusted_index basic_block_info
    seec.ValueStore.add_instruction seec.ValueStore.is_recordable_type
    seec.ValueStore.is_long_double seec.ValueStore.get_recreated_store_size_for_type
info_apfloat = refl

abbrev store : BasicBlockStore ℕ
store = basic_block_store fresh_bytes 0 info

abbrev store_two : BasicBlockStore ℕ
store_two = the store (set_value (number 8) info 10 513 store)

-- The bits that the constructor does not write decide what `getDataOffset` answers.
unrecorded_offset :
    get_data_offset
      (the (empty_info 0 []) (
        basic_block_info
          (λ n. replicate n (record { is_apfloat_index = true; is_data_offset = true; value = 7 }))
          10
          types))
      11
    ≡ some (some 7)
unfolding get_data_offset seec.ValueStore.get_adjusted_index basic_block_info
    seec.ValueStore.add_instruction seec.ValueStore.is_recordable_type
    seec.ValueStore.is_long_double seec.ValueStore.get_recreated_store_size_for_type
unrecorded_offset = refl

apfloat_kept : set_apfloat info 13 5 store ≡ some (the store (set_apfloat info 13 5 store))
unfolding set_apfloat get_apfloat_index seec.ValueStore.get_adjusted_index basic_block_info
    seec.ValueStore.add_instruction seec.ValueStore.is_recordable_type
    seec.ValueStore.is_long_double seec.ValueStore.get_recreated_store_size_for_type
    seec.ValueStore.Store.set_has_value
apfloat_kept = refl

apfloat_back : get_apfloat info 13 (the store (set_apfloat info 13 5 store)) ≡ some (some 5)
unfolding get_apfloat has_value seec.ValueStore.get_adjusted_index basic_block_info
    seec.ValueStore.add_instruction seec.ValueStore.is_recordable_type
    seec.ValueStore.is_long_double seec.ValueStore.get_recreated_store_size_for_type set_apfloat
    get_apfloat_index seec.ValueStore.Store.set_has_value
apfloat_back = refl

store-Fits : Fits info store
store-Fits = basic_block_store-Fits fresh_bytes 0 info (λ n. length-replicate n 204)

info-IsLayout : IsLayout 10 types info
unfolding seec.ValueStore.Layout.data_size seec.ValueStore.is_recordable_type
    seec.ValueStore.is_long_double seec.ValueStore.get_recreated_store_size_for_type
info-IsLayout =
    constructed-IsLayout fresh_records length-fresh_records 10 types info (omega arith) info_made

basic_block_info-IsLayout_example :
    (made : BasicBlockInfo) × (basic_block_info fresh_records 10 types ≡ some made)
    × IsLayout 10 types made
unfolding seec.ValueStore.Layout.data_size seec.ValueStore.is_recordable_type
    seec.ValueStore.is_long_double seec.ValueStore.get_recreated_store_size_for_type
basic_block_info-IsLayout_example =
    basic_block_info-IsLayout fresh_records length-fresh_records 10 types (omega arith)

get_data_offset-Apart_example : (8 + 4 ≤ info.total_data_size) × ((8 + 4 ≤ 12) ⊎ (12 + 8 ≤ 8))
unfolding seec.ValueStore.Layout.data_size seec.ValueStore.is_recordable_type
    seec.ValueStore.is_long_double seec.ValueStore.get_recreated_store_size_for_type get_data_offset
    seec.ValueStore.get_adjusted_index basic_block_info seec.ValueStore.add_instruction
get_data_offset-Apart_example =
    get_data_offset-Apart fresh_records length-fresh_records 10 types info 2 4 4 8 8 12 float i32
      (omega arith) info_made (omega arith) refl refl refl refl refl refl

get_value-set_value_example :
    (after : BasicBlockStore ℕ) × (set_value (number 8) info (10 + 4) 513 store ≡ some after)
    × Fits info after
    × (get_value (number 8) info (10 + 4) after ≡ some (some 513))
unfolding seec.ValueStore.Layout.data_size seec.ValueStore.is_recordable_type
    seec.ValueStore.is_long_double seec.ValueStore.get_recreated_store_size_for_type has_value
    seec.ValueStore.get_adjusted_index basic_block_info seec.ValueStore.add_instruction
get_value-set_value_example =
    get_value-set_value 10 types info info-IsLayout store store-Fits (number 8) 4 i32 513 refl refl
      refl (omega arith)

get_value-set_value_other_example :
    get_value (number 4) info (10 + 2) store_two ≡ get_value (number 4) info (10 + 2) store
unfolding seec.ValueStore.Layout.data_size seec.ValueStore.is_recordable_type
    seec.ValueStore.is_long_double seec.ValueStore.get_recreated_store_size_for_type set_value
    get_data_offset seec.ValueStore.get_adjusted_index basic_block_info
    seec.ValueStore.add_instruction has_value seec.ValueStore.Store.set_has_value
get_value-set_value_other_example =
    get_value-set_value_other 10 types info info-IsLayout store store-Fits (number 8) 0 i32
      (number 4) 2 float 513 store_two (omega arith) refl refl refl refl refl

two-Fits : Fits info store_two
unfolding basic_block_info set_value seec.ValueStore.add_instruction get_data_offset
    seec.ValueStore.is_recordable_type seec.ValueStore.get_adjusted_index
    seec.ValueStore.is_long_double seec.ValueStore.get_recreated_store_size_for_type has_value
    seec.ValueStore.Store.set_has_value
two-Fits = record { flags = refl; filled = refl; long = refl }

agreeing_value : set_value (number 8) info (10 + 0) 513 store_two ≡ some store_two
unfolding seec.ValueStore.Layout.data_size seec.ValueStore.is_recordable_type
    seec.ValueStore.is_long_double seec.ValueStore.get_recreated_store_size_for_type has_value
    seec.ValueStore.get_adjusted_index basic_block_info seec.ValueStore.add_instruction set_value
    get_data_offset seec.ValueStore.Store.set_has_value get_value
agreeing_value = refl

other_value : set_value (number 8) info (10 + 0) 514 store_two ≡ none
unfolding seec.ValueStore.Layout.data_size seec.ValueStore.is_recordable_type
    seec.ValueStore.is_long_double seec.ValueStore.get_recreated_store_size_for_type has_value
    seec.ValueStore.get_adjusted_index basic_block_info seec.ValueStore.add_instruction set_value
    get_data_offset seec.ValueStore.Store.set_has_value get_value
other_value = refl
