-- ===== src/ValueStore/Values.antt =====
-- BasicBlockStore over a block's layout: a value that is stored, and the others.
use seec.Common.{
  ℕ, ◌+◌, ◌-◌, ◌≤◌, ◌<◌, ◌≡◌, refl, sym, ap, ◌∙◌, ◌⊎◌, inl, inr, ◌≢◌, Bool, true, false, Bool-cases,
  Option, none, some, some-injective, List, arith, leb, ◌>>=◌, ◌>>◌, assert, length, get_elem?,
  modify, length-modify, get_elem?-modify, get_elem?-modify_other, get_elem?-below,
  length-replicate,
}
use seec.Common.Slices.{write, length-write, read-write, read-write_before, read-write_behind}
use package.seec.ValueStore.{LlvmType, BasicBlockInfo, get_adjusted_index, get_data_offset}
use package.seec.ValueStore.Layout.{data_size, data_before}
use package.seec.ValueStore.Offsets.{
  IsLayout, data_before-data_total, data_before-Apart, length-get_elem?,
}
use package.seec.ValueStore.Store.{
  Scalar, BasicBlockStore, basic_block_store, has_value, set_has_value, get_value, set_value,
  value_at, value_if, matches,
}

-- The store has room for what the block's layout says.
pub record Fits {A : Type 0} (info : BasicBlockInfo) (st : BasicBlockStore A) : Type 0 where
  pub flags : length st.values_set ≡ info.instr_count
  pub filled : length st.bytes ≡ info.total_data_size
  pub long : length st.long_doubles ≡ info.long_double_instr_count

pub basic_block_store-Fits :
    {A : Type 0} (fresh : ℕ → List ℕ) (initial : A) (info : BasicBlockInfo)
    → ((n : ℕ) → length (fresh n) ≡ n)
    → Fits info (basic_block_store fresh initial info)
basic_block_store-Fits fresh initial info fresh_length = record {
  flags = length-replicate info.instr_count false;
  filled = fresh_length info.total_data_size;
  long = length-replicate info.long_double_instr_count initial;
}

module _ {A V : Type 0} (t : Scalar V) where
  -- The store with the value at its offset, and its flag set.
  abbrev pub stored : ℕ → ℕ → V → BasicBlockStore A → BasicBlockStore A
  stored k offset v st = record st {
    bytes = write offset (t.encode v) st.bytes;
    values_set = modify k (λ _. true) st.values_set;
  }

  pub stored-Fits :
      (info : BasicBlockInfo) (k offset : ℕ) (v : V) (st : BasicBlockStore A)
      → Fits info st
      → Fits info (stored k offset v st)
  stored-Fits info k offset v st fits = record {
    flags = length-modify k _ st.values_set ∙ fits.flags;
    filled = length-write offset (t.encode v) st.bytes ∙ fits.filled;
    long = fits.long;
  }

  pub set_value-unset :
      (info : BasicBlockInfo) (i k offset : ℕ) (v : V) (st : BasicBlockStore A)
      → get_adjusted_index info i ≡ some k
      → get_data_offset info i ≡ some (some offset)
      → has_value info i st ≡ some false
      → set_value t info i v st ≡ some (stored k offset v st)
  unfolding set_value set_has_value
  set_value-unset info i k offset v st at_k at_o unset = rw (at_o, unset, at_k) refl

  pub has_value-stored :
      (info : BasicBlockInfo) (i k offset : ℕ) (v : V) (st : BasicBlockStore A)
      → get_adjusted_index info i ≡ some k
      → k < length st.values_set
      → has_value info i (stored k offset v st) ≡ some true
  unfolding has_value
  has_value-stored info i k offset v st at_k small =
      let (b, e) = get_elem?-below st.values_set k small in
      rw (at_k) (get_elem?-modify k (λ _. true) st.values_set e)

  pub get_value-stored :
      (info : BasicBlockInfo) (i k offset : ℕ) (v : V) (st : BasicBlockStore A)
      → get_adjusted_index info i ≡ some k
      → get_data_offset info i ≡ some (some offset)
      → Fits info st
      → k < info.instr_count
      → offset + t.size ≤ info.total_data_size
      → t.IsValue v
      → get_value t info i (stored k offset v st) ≡ some (some v)
  unfolding get_value
  get_value-stored info i k offset v st at_k at_o fits small room valid =
      let set = has_value-stored info i k offset v st at_k (omega (arith, fits.flags)) in
      let enough : leb t.size (info.total_data_size - offset) ≡ true = ground arith in
      let back =
        read-write offset t.size (t.encode v) st.bytes (t.length-encode v)
          (omega (arith, fits.filled)) in
      rw (set, at_o, enough, back, t.decode-encode v valid) refl

module _ {A V W : Type 0} (t : Scalar V) (u : Scalar W) where
  has_value-stored_other :
      (info : BasicBlockInfo) (j k l offset : ℕ) (v : V) (st : BasicBlockStore A)
      → get_adjusted_index info j ≡ some l
      → l ≢ k
      → has_value info j (stored t k offset v st) ≡ has_value info j st
  unfolding has_value
  has_value-stored_other info j k l offset v st at_l distinct =
      rw at_l (get_elem?-modify_other k l (λ _. true) st.values_set distinct)

  value_at-stored_other :
      (info : BasicBlockInfo) (k offset p : ℕ) (v : V) (st : BasicBlockStore A)
      → (offset + t.size ≤ p) ⊎ (p + u.size ≤ offset)
      → value_at u info (stored t k offset v st) (some p) ≡ value_at u info st (some p)
  value_at-stored_other info k offset p v st (inl h) =
      rw
        (read-write_behind p u.size offset (t.encode v) st.bytes (omega (arith, t.length-encode v)))
        refl
  value_at-stored_other info k offset p v st (inr h) =
      rw (read-write_before p u.size offset (t.encode v) st.bytes h) refl

  value_if-stored_other :
      (info : BasicBlockInfo) (j k offset p : ℕ) (v : V) (st : BasicBlockStore A) (b : Bool)
      → get_data_offset info j ≡ some (some p)
      → (offset + t.size ≤ p) ⊎ (p + u.size ≤ offset)
      → value_if u info j (stored t k offset v st) b ≡ value_if u info j st b
  value_if-stored_other info j k offset p v st false at_p h = refl
  value_if-stored_other info j k offset p v st true at_p h =
      rw at_p (value_at-stored_other info k offset p v st h)

  pub get_value-stored_other :
      (info : BasicBlockInfo) (j k l offset p : ℕ) (v : V) (st : BasicBlockStore A)
      → get_adjusted_index info j ≡ some l
      → l ≢ k
      → get_data_offset info j ≡ some (some p)
      → (offset + t.size ≤ p) ⊎ (p + u.size ≤ offset)
      → get_value u info j (stored t k offset v st) ≡ get_value u info j st
  unfolding get_value
  get_value-stored_other info j k l offset p v st at_l distinct at_p h =
      rw (has_value-stored_other info j k l offset v st at_l distinct) (
        ap (λ f. has_value info j st >>= f)
          (λ i b. value_if-stored_other info j k offset p v st b at_p h i))

assert_keeps :
    {X S : Type 0} (m : Option X) (g : X → Bool) (st after : S)
    → (m >>= λ x. assert (g x) >> some st) ≡ some after
    → after ≡ st
assert_keeps none g st after h = absurd (cc h)
assert_keeps (some x) g st after h = elim (Bool-cases (g x)) [
  | inl holds ↦ cc (h, holds)
  | inr fails ↦ absurd (cc (h, fails))
]

module _ {A V : Type 0} (t : Scalar V) where
  set_value-set :
      (info : BasicBlockInfo) (i offset : ℕ) (v : V) (st after : BasicBlockStore A)
      → get_data_offset info i ≡ some (some offset)
      → has_value info i st ≡ some true
      → set_value t info i v st ≡ some after
      → after ≡ st
  unfolding set_value
  set_value-set info i offset v st after at_o set done =
      assert_keeps (get_value t info i st) (λ got. matches t got v) st after
        (rw (at_o, set) at done)

has_value-some :
    {A : Type 0} (info : BasicBlockInfo) (i k : ℕ) (st : BasicBlockStore A)
    → get_adjusted_index info i ≡ some k
    → k < length st.values_set
    → (b : Bool) × (has_value info i st ≡ some b)
unfolding has_value
has_value-some info i k st at_k small = rw at_k (get_elem?-below st.values_set k small)

-- The block that a store belongs to, and its layout.
module _ {A : Type 0} (base : ℕ) (ts : List LlvmType) (info : BasicBlockInfo)
    (lay : IsLayout base ts info) (st : BasicBlockStore A) (fits : Fits info st) where
  module _ {V : Type 0} (t : Scalar V) (i : ℕ) (ty : LlvmType) where
    -- Storing a value for an instruction of the block that has none yet, with the size of its type,
    -- succeeds; the store fits the layout after it, and then answers that value.
    pub get_value-set_value :
        (v : V)
        → get_elem? ts i ≡ some ty
        → data_size ty ≡ some t.size
        → has_value info (base + i) st ≡ some false
        → t.IsValue v
        → (after : BasicBlockStore A) × (set_value t info (base + i) v st ≡ some after)
          × Fits info after
          × (get_value t info (base + i) after ≡ some (some v))
    get_value-set_value v e size unset valid =
        let within = length-get_elem? ts i e in
        let at_i = lay.adjusted i within in
        let at_o = lay.offset i t.size ty e size in
        (
          stored t i (data_before ts i) v st,
          set_value-unset t info (base + i) i (data_before ts i) v st at_i at_o unset,
          stored-Fits t info i (data_before ts i) v st fits,
          get_value-stored t info (base + i) i (data_before ts i) v st at_i at_o fits
              (omega (arith, lay.counted))
              (omega (arith, lay.sized, data_before-data_total ts i t.size ty e size)) valid,
        )

    -- Storing a value for an instruction of the block does not change what the store answers for
    -- another instruction of it, whatever the types of the two.
    pub get_value-set_value_other :
        {W : Type 0} (u : Scalar W) (j : ℕ) (ty_j : LlvmType) (v : V) (after : BasicBlockStore A)
        → i ≢ j
        → get_elem? ts i ≡ some ty
        → data_size ty ≡ some t.size
        → get_elem? ts j ≡ some ty_j
        → data_size ty_j ≡ some u.size
        → set_value t info (base + i) v st ≡ some after
        → get_value u info (base + j) after ≡ get_value u info (base + j) st
    get_value-set_value_other u j ty_j v after distinct e size_i f size_j done =
        let within = length-get_elem? ts i e in
        let at_i = lay.adjusted i within in
        let at_o = lay.offset i t.size ty e size_i in
        let at_p = lay.offset j u.size ty_j f size_j in
        let (b, has) =
          has_value-some info (base + i) i st at_i (omega (arith, fits.flags, lay.counted)) in
        elim (Bool-cases b) [
          | inl set ↦ ap (get_value u info (base + j)) (
              set_value-set t info (base + i) (data_before ts i) v st after at_o (has ∙ ap some set)
                done)
          | inr unset ↦
              let made =
                set_value-unset t info (base + i) i (data_before ts i) v st at_i at_o
                  (has ∙ ap some unset) in
              ap (get_value u info (base + j)) (some-injective _ _ (sym done ∙ made))
              ∙ get_value-stored_other t u info (base + j) i j (data_before ts i) (data_before ts j)
                  v st (lay.adjusted j (length-get_elem? ts j f)) (λ h. distinct (sym h)) at_p
                  (data_before-Apart ts i j t.size u.size ty ty_j distinct e f size_i size_j)
        ]
