-- ===== src/ValueStore/Offsets.antt =====
-- The layout that BasicBlockInfo's constructor gives a block, seen through its queries.
use seec.Common.{
  ℕ, zero, suc, ◌+◌, ◌-◌, ◌^◌, ◌≤◌, ◌<◌, ◌≡◌, refl, sym, ap, subst, ◌∙◌, ◌⊎◌, inl, inr, ◌≢◌, true,
  some, some-injective, List, [], ◌∷◌, arith, leb, ltb, length, get_elem?, get_elem?-below,
}
use package.seec.ValueStore.{
  LlvmType, IndexOrOffsetRecord, BasicBlockInfo, basic_block_info, empty_info, get_adjusted_index,
  get_data_offset, mark_data,
}
use package.seec.ValueStore.Layout.{
  data_size, size_or_zero, data_before, data_total, LaidOut, add_instructions-LaidOut,
}

-- What the constructor leaves for a block whose first instruction has the index `base`.
pub record IsLayout (base : ℕ) (ts : List LlvmType) (info : BasicBlockInfo) : Type 0 where
  pub counted : info.instr_count ≡ length ts
  pub sized : info.total_data_size ≡ data_total ts
  pub adjusted : (i : ℕ) → i < length ts → get_adjusted_index info (base + i) ≡ some i
  pub offset :
      (i s : ℕ) (t : LlvmType)
      → get_elem? ts i ≡ some t
      → data_size t ≡ some s
      → get_data_offset info (base + i) ≡ some (some (data_before ts i))

pub data_before-data_total :
    (ts : List LlvmType) (i s : ℕ) (t : LlvmType)
    → get_elem? ts i ≡ some t
    → data_size t ≡ some s
    → data_before ts i + s ≤ data_total ts
data_before-data_total [] i s t e size = absurd (cc e)
data_before-data_total (u ∷ ts) zero s t e size =
    let same : size_or_zero (data_size u) ≡ s = cc (some-injective _ _ e, size) in omega arith
data_before-data_total (u ∷ ts) (suc i) s t e size =
    omega (arith, data_before-data_total ts i s t e size)

pub data_before-data_before :
    (ts : List LlvmType) (i j s : ℕ) (t u : LlvmType)
    → i < j
    → get_elem? ts i ≡ some t
    → get_elem? ts j ≡ some u
    → data_size t ≡ some s
    → data_before ts i + s ≤ data_before ts j
data_before-data_before [] i j s t u h e f size = absurd (cc e)
data_before-data_before (v ∷ ts) i zero s t u h e f size = absurd (omega arith)
data_before-data_before (v ∷ ts) zero (suc j) s t u h e f size =
    let same : size_or_zero (data_size v) ≡ s = cc (some-injective _ _ e, size) in omega arith
data_before-data_before (v ∷ ts) (suc i) (suc j) s t u h e f size =
    omega (arith, data_before-data_before ts i j s t u (omega arith) e f size)

pub length-get_elem? {ℓ} :
    {A : Type ℓ} (xs : List A) (i : ℕ) {x : A} → get_elem? xs i ≡ some x → i < length xs
length-get_elem? [] i e = absurd (cc e)
length-get_elem? (x ∷ xs) zero e = omega arith
length-get_elem? (x ∷ xs) (suc i) e = omega (arith, length-get_elem? xs i e)

adjusted_within :
    (base i n : ℕ) (info : BasicBlockInfo)
    → info.instr_index_base ≡ base
    → info.instr_count ≡ n
    → i < n
    → get_adjusted_index info (base + i) ≡ some i
unfolding get_adjusted_index
adjusted_within base i n info at_base at_count h =
    let low : leb info.instr_index_base (base + i) ≡ true = ground arith in
    let high : ltb (base + i - info.instr_index_base) info.instr_count ≡ true = ground arith in
    let place : base + i - info.instr_index_base ≡ i = omega arith in rw (low, high, place) refl

offset_of_marked :
    (info : BasicBlockInfo) (k i offset : ℕ) (r : IndexOrOffsetRecord)
    → get_adjusted_index info k ≡ some i
    → get_elem? info.indices_and_offsets i ≡ some (mark_data offset r)
    → offset < 2 ^ 30
    → get_data_offset info k ≡ some (some offset)
unfolding get_data_offset
offset_of_marked info k i offset r adjusted marked small =
    rw (adjusted, marked) (ap (λ x. some (some x)) (omega arith))

LaidOut-IsLayout :
    (base : ℕ) (ts : List LlvmType) (records : List IndexOrOffsetRecord) (info : BasicBlockInfo)
    → length records ≡ length ts
    → data_total ts < 2 ^ 30
    → LaidOut ts (empty_info base records) info
    → IsLayout base ts info
LaidOut-IsLayout base ts records info enough small l = record {
  counted = omega (arith, l.counted);
  sized = omega (arith, l.sized);
  adjusted =
      λ i h. adjusted_within base i (length ts) info l.base_kept (omega (arith, l.counted)) h;
  offset = λ i s t e size.
      let within : i < length ts = length-get_elem? ts i e in
      let (r, old) = get_elem?-below records i (omega arith) in
      offset_of_marked info (base + i) i (data_before ts i) r
        (adjusted_within base i (length ts) info l.base_kept (omega (arith, l.counted)) within)
        (l.marked i s i (data_before ts i) t r (omega arith) (omega arith) e size old)
        (omega (arith, data_before-data_total ts i s t e size));
}

empty-IsLayout : (base : ℕ) → IsLayout base [] (empty_info 0 [])
empty-IsLayout base = record {
  counted = refl;
  sized = refl;
  adjusted = λ i h. absurd (omega arith);
  offset = λ i s t e. absurd (cc e);
}

lt_or_gt : (i j : ℕ) → i ≢ j → (i < j) ⊎ (j < i)
lt_or_gt i j h = grind arith

pub data_before-Apart :
    (ts : List LlvmType) (i j s r : ℕ) (t u : LlvmType)
    → i ≢ j
    → get_elem? ts i ≡ some t
    → get_elem? ts j ≡ some u
    → data_size t ≡ some s
    → data_size u ≡ some r
    → (data_before ts i + s ≤ data_before ts j) ⊎ (data_before ts j + r ≤ data_before ts i)
data_before-Apart ts i j s r t u distinct e f size_t size_u = elim (lt_or_gt i j distinct) [
  | inl h ↦ inl (data_before-data_before ts i j s t u h e f size_t)
  | inr h ↦ inr (data_before-data_before ts j i r u t h f e size_u)
]

the_offset : {o p : ℕ} → some (some o) ≡ some (some p) → o ≡ p
the_offset e = some-injective _ _ (some-injective _ _ e)

module _ (fresh : ℕ → List IndexOrOffsetRecord) (fresh_length : (n : ℕ) → length (fresh n) ≡ n)
    (base : ℕ) where
  -- For a block whose data take less than 2 ^ 30 bytes, the constructor does not reach its
  -- `llvm_unreachable`, whatever the new records hold: it counts the instructions, sums up the
  -- sizes, and gives each instruction with raw data the sum of the sizes before it as its offset.
  pub basic_block_info-IsLayout :
      (ts : List LlvmType)
      → data_total ts < 2 ^ 30
      → (info : BasicBlockInfo) × (basic_block_info fresh base ts ≡ some info)
        × IsLayout base ts info
  unfolding basic_block_info
  basic_block_info-IsLayout [] small = (empty_info 0 [], refl, empty-IsLayout base)
  basic_block_info-IsLayout (t ∷ ts) small =
      let records = fresh (length (t ∷ ts)) in
      let (info, e, l) = add_instructions-LaidOut (t ∷ ts) (empty_info base records) in
      (info, e, LaidOut-IsLayout base (t ∷ ts) records info (fresh_length _) small l)

  pub constructed-IsLayout :
      (ts : List LlvmType) (info : BasicBlockInfo)
      → data_total ts < 2 ^ 30
      → basic_block_info fresh base ts ≡ some info
      → IsLayout base ts info
  constructed-IsLayout ts info small made =
      let (built, e, lay) = basic_block_info-IsLayout ts small in
      subst (IsLayout base ts) (some-injective _ _ (sym e ∙ made)) lay

  -- In a block whose data take less than 2 ^ 30 bytes, the raw data of an instruction, at the offset
  -- that `getDataOffset` answers and with the size of its type, end within the block's data, and
  -- those of two instructions do not overlap.
  pub get_data_offset-Apart :
      (ts : List LlvmType) (info : BasicBlockInfo) (i j s r o p : ℕ) (t u : LlvmType)
      → data_total ts < 2 ^ 30
      → basic_block_info fresh base ts ≡ some info
      → i ≢ j
      → get_elem? ts i ≡ some t
      → get_elem? ts j ≡ some u
      → data_size t ≡ some s
      → data_size u ≡ some r
      → get_data_offset info (base + i) ≡ some (some o)
      → get_data_offset info (base + j) ≡ some (some p)
      → (o + s ≤ info.total_data_size) × ((o + s ≤ p) ⊎ (p + r ≤ o))
  get_data_offset-Apart ts info i j s r o p t u small made distinct e f size_t size_u at_o at_p =
      let lay = constructed-IsLayout ts info small made in
      let same_o = the_offset (sym at_o ∙ lay.offset i s t e size_t) in
      let same_p = the_offset (sym at_p ∙ lay.offset j r u f size_u) in
      (
        omega (arith, same_o, lay.sized, data_before-data_total ts i s t e size_t),
        rw (same_o, same_p) (data_before-Apart ts i j s r t u distinct e f size_t size_u),
      )
