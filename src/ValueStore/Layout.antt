-- ===== src/ValueStore/Layout.antt =====
-- BasicBlockInfo's constructor: where the values of a block's instructions lie.
use seec.Common.{
  ℕ, zero, suc, ◌+◌, ◌<◌, ◌≡◌, refl, ap, ◌∙◌, ◌≢◌, inl, inr, true, false, Option, none, some,
  some-injective, List, [], ◌∷◌, arith, if◌then◌else◌, Bool-cases, length, get_elem?, length-modify,
  get_elem?-modify, get_elem?-modify_other,
}
use package.seec.ValueStore.{
  is_recordable_by, is_recordable_other, store_size_by, store_size_other, count_instruction,
  place_long_double, LlvmType, IndexOrOffsetRecord, BasicBlockInfo, is_recordable_type,
  is_long_double, get_recreated_store_size_for_type, add_instruction, add_instructions, mark_data,
  with_data,
}

-- The bytes that a value of the type takes, where it is stored as raw data.
unfoldable pub data_size : LlvmType → Option ℕ
data_size t =
    if is_recordable_type t
    then if is_long_double t then none else get_recreated_store_size_for_type t
    else none

abbrev pub size_or_zero : Option ℕ → ℕ
size_or_zero none = 0
size_or_zero (some n) = n

-- The sum of the sizes of the first `i` instructions.
abbrev pub data_before : List LlvmType → ℕ → ℕ
data_before [] i = 0
data_before (t ∷ ts) zero = 0
data_before (t ∷ ts) (suc i) = size_or_zero (data_size t) + data_before ts i

abbrev pub data_total : List LlvmType → ℕ
data_total [] = 0
data_total (t ∷ ts) = size_or_zero (data_size t) + data_total ts

-- A recordable type that is no long double has a size.
store_size_other-total :
    (t : LlvmType)
    → is_recordable_other t ≡ true
    → is_long_double t ≡ false
    → (n : ℕ) × (store_size_other t ≡ some n)
unfolding is_long_double
store_size_other-total t r l = elim (Bool-cases t.is_pointer) [
  | inl p ↦ (8, ground arith)
  | inr p ↦ elim (Bool-cases t.is_float) [
    | inl f ↦ (4, ground arith)
    | inr f ↦ elim (Bool-cases t.is_double) [
      | inl d ↦ (8, ground arith)
      | inr d ↦ absurd (ground arith)
    ]
  ]
]

store_size_by-total :
    (w : Option ℕ) (t : LlvmType)
    → is_recordable_by w t ≡ true
    → is_long_double t ≡ false
    → (n : ℕ) × (store_size_by w t ≡ some n)
store_size_by-total (some w) t r l = (8, ground arith)
store_size_by-total none t r l = store_size_other-total t r l

recordable-sized :
    (t : LlvmType)
    → is_recordable_type t ≡ true
    → is_long_double t ≡ false
    → (n : ℕ) × (get_recreated_store_size_for_type t ≡ some n)
unfolding is_recordable_type get_recreated_store_size_for_type
recordable-sized t r l = store_size_by-total t.bit_width t r l

-- What one round of the loop does.
pub record Placed (t : LlvmType) (b c : BasicBlockInfo) : Type 0 where
  pub base_kept : c.instr_index_base ≡ b.instr_index_base
  pub counted : c.instr_count ≡ suc b.instr_count
  pub sized : c.total_data_size ≡ b.total_data_size + size_or_zero (data_size t)
  pub record_count : length c.indices_and_offsets ≡ length b.indices_and_offsets
  pub others :
      (j : ℕ)
      → j ≢ b.instr_count
      → get_elem? c.indices_and_offsets j ≡ get_elem? b.indices_and_offsets j
  pub marked :
      (s : ℕ) (r : IndexOrOffsetRecord)
      → data_size t ≡ some s
      → get_elem? b.indices_and_offsets b.instr_count ≡ some r
      → get_elem? c.indices_and_offsets b.instr_count ≡ some (mark_data b.total_data_size r)

skipped-Placed :
    (t : LlvmType) (b : BasicBlockInfo) → data_size t ≡ none → Placed t b (count_instruction b)
skipped-Placed t b none_size = record {
  base_kept = refl;
  counted = refl;
  sized = rw none_size (omega arith);
  record_count = refl;
  others = λ j h. refl;
  marked = λ s r e. absurd (cc (e, none_size));
}

long_double-Placed :
    (t : LlvmType) (b : BasicBlockInfo)
    → data_size t ≡ none
    → Placed t b (count_instruction (place_long_double b))
long_double-Placed t b none_size = record {
  base_kept = refl;
  counted = refl;
  sized = rw none_size (omega arith);
  record_count = length-modify _ _ b.indices_and_offsets;
  others = λ j h. get_elem?-modify_other _ j _ b.indices_and_offsets h;
  marked = λ s r e. absurd (cc (e, none_size));
}

data-Placed :
    (t : LlvmType) (b : BasicBlockInfo) (n : ℕ)
    → data_size t ≡ some n
    → Placed t b (count_instruction (with_data n b))
data-Placed t b n some_size = record {
  base_kept = refl;
  counted = refl;
  sized = rw some_size (omega arith);
  record_count = length-modify _ _ b.indices_and_offsets;
  others = λ j h. get_elem?-modify_other _ j _ b.indices_and_offsets h;
  marked = λ s r e h. get_elem?-modify _ _ b.indices_and_offsets h;
}

add_instruction-Placed :
    (t : LlvmType) (b : BasicBlockInfo)
    → (c : BasicBlockInfo) × (add_instruction t b ≡ some c) × Placed t b c
unfolding add_instruction data_size
add_instruction-Placed t b = elim (Bool-cases (is_recordable_type t)) [
  | inr n ↦ (count_instruction b, rw n refl, skipped-Placed t b (rw n refl))
  | inl r ↦ elim (Bool-cases (is_long_double t)) [
    | inl l ↦ (
      count_instruction (place_long_double b),
      rw (r, l) refl,
      long_double-Placed t b (rw (r, l) refl),
    )
    | inr l ↦
        let (n, e) = recordable-sized t r l in
        (
          count_instruction (with_data n b),
          rw (r, l, e) refl,
          data-Placed t b n (rw (r, l, e) refl),
        )
  ]
]

-- What the loop does over the instructions that are left.
pub record LaidOut (ts : List LlvmType) (b c : BasicBlockInfo) : Type 0 where
  pub base_kept : c.instr_index_base ≡ b.instr_index_base
  pub counted : c.instr_count ≡ b.instr_count + length ts
  pub sized : c.total_data_size ≡ b.total_data_size + data_total ts
  pub record_count : length c.indices_and_offsets ≡ length b.indices_and_offsets
  pub earlier :
      (j : ℕ)
      → j < b.instr_count
      → get_elem? c.indices_and_offsets j ≡ get_elem? b.indices_and_offsets j
  pub marked :
      (i s j offset : ℕ) (t : LlvmType) (r : IndexOrOffsetRecord)
      → j ≡ b.instr_count + i
      → offset ≡ b.total_data_size + data_before ts i
      → get_elem? ts i ≡ some t
      → data_size t ≡ some s
      → get_elem? b.indices_and_offsets j ≡ some r
      → get_elem? c.indices_and_offsets j ≡ some (mark_data offset r)

nil-LaidOut : (b : BasicBlockInfo) → LaidOut [] b b
nil-LaidOut b = record {
  base_kept = refl;
  counted = omega arith;
  sized = omega arith;
  record_count = refl;
  earlier = λ j h. refl;
  marked = λ i s j o t r at_j at_o e. absurd (cc e);
}

marked_cons :
    (t : LlvmType) (ts : List LlvmType) (b c d : BasicBlockInfo)
    → Placed t b c
    → LaidOut ts c d
    → (i s j offset : ℕ) (u : LlvmType) (r : IndexOrOffsetRecord) → j ≡ b.instr_count + i
    → offset ≡ b.total_data_size + data_before (t ∷ ts) i
    → get_elem? (t ∷ ts) i ≡ some u
    → data_size u ≡ some s
    → get_elem? b.indices_and_offsets j ≡ some r
    → get_elem? d.indices_and_offsets j ≡ some (mark_data offset r)
marked_cons t ts b c d p l zero s j offset u r at_j at_o e size old =
    let first : j ≡ b.instr_count = omega arith in
    let same : offset ≡ b.total_data_size = omega arith in
    let kept = l.earlier j (omega (arith, p.counted)) in
    let set = p.marked s r (ap data_size (some-injective _ _ e) ∙ size) (cc (old, first)) in
    cc (kept, set, first, same)
marked_cons t ts b c d p l (suc i) s j offset u r at_j at_o e size old =
    l.marked i s j offset u r (omega (arith, p.counted)) (omega (arith, p.sized)) e size
      (p.others j (omega arith) ∙ old)

cons-LaidOut :
    (t : LlvmType) (ts : List LlvmType) (b c d : BasicBlockInfo)
    → Placed t b c
    → LaidOut ts c d
    → LaidOut (t ∷ ts) b d
cons-LaidOut t ts b c d p l = record {
  base_kept = l.base_kept ∙ p.base_kept;
  counted = omega (arith, l.counted, p.counted);
  sized = omega (arith, l.sized, p.sized);
  record_count = l.record_count ∙ p.record_count;
  earlier = λ j h. l.earlier j (omega (arith, p.counted)) ∙ p.others j (omega arith);
  marked = marked_cons t ts b c d p l;
}

pub add_instructions-LaidOut :
    (ts : List LlvmType) (b : BasicBlockInfo)
    → (c : BasicBlockInfo) × (add_instructions ts b ≡ some c) × LaidOut ts b c
add_instructions-LaidOut [] b = (b, refl, nil-LaidOut b)
add_instructions-LaidOut (t ∷ ts) b =
    let (c, e, p) = add_instruction-Placed t b in
    let (d, f, l) = add_instructions-LaidOut ts c in (d, rw e f, cons-LaidOut t ts b c d p l)
