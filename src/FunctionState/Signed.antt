-- ===== src/FunctionState/Signed.antt =====
-- FunctionState::getValueInt64 of lib/Trace/FunctionState.cpp: the signed reading of an integer that
-- is narrower than the 64 bits it is stored in.
use Prim.Native.Nat.{bit_and, bit_or, digits, bit_and-bitwise, bit_or-bitwise, max}
use native.Mathlib.Nat.{mul_assoc, mul-suc, one-le-pow}
use seec.Common.{
  ℕ, zero, suc, ◌+◌, ◌-◌, ◌*◌, ◌/◌, ◌%◌, ◌^◌, ◌≤◌, ◌<◌, min, ◌≡◌, refl, sym, ap, ◌∙◌, true, false,
  Bool-cases, inl, inr, Option, none, some, arith, ◌==◌, ltb, if◌then◌else◌, ◌>>=◌,
}
use seec.ValueStore.Store.{Host}
use package.seec.FunctionState.{Placement, get_instruction}
use package.seec.FunctionState.InstructionValues.{HostFunction, get_value_uint64}

-- `int64_t`.
pub data ℤ : Type 0 where
  pos negsuc : ℕ → ℤ

-- `static_cast<int64_t>` of a `uint64_t`.
abbrev pub int64 : ℕ → ℤ
int64 v = if ltb v (2 ^ 63) then pos v else negsuc (2 ^ 64 - 1 - v)

-- The body of `getValueInt64` for a value, with the type's sign bit and its bit mask.
abbrev pub sign_extend : ℕ → ℕ → ℕ → ℕ
sign_extend sign mask v = if bit_and v sign == 0 then v else bit_or v (2 ^ 64 - 1 - mask)

-- `getSignBit` and `getBitMask` of an `llvm::IntegerType` of the given width.
module _ (sign_bit bit_mask : ℕ → ℕ) where
  abbrev pub signed_value : Option ℕ → ℕ → Option (Option ℤ)
  signed_value none v = none
  signed_value (some w) v = some (some (int64 (sign_extend (sign_bit w) (bit_mask w) v)))

module _ (sign_bit bit_mask : ℕ → ℕ) (host : Host) {E : Type 0} where
  abbrev pub signed_if : ℕ → HostFunction host E → Option ℕ → Option (Option ℤ)
  signed_if i fs none = some none
  signed_if i fs (some v) = get_instruction fs.function_lookup i >>= λ at_i.
      signed_value sign_bit bit_mask at_i.instruction.type.bit_width v

  unfoldable pub get_value_int64 : ℕ → HostFunction host E → Option (Option ℤ)
  get_value_int64 i fs = get_value_uint64 host i fs >>= signed_if i fs

pow_suc : (k : ℕ) → 2 ^ suc k ≡ 2 * 2 ^ k
pow_suc k = omega arith

pow_add : (k n : ℕ) → 2 ^ (k + n) ≡ 2 ^ k * 2 ^ n
pow_add zero n = let nothing : 0 + n ≡ n = omega arith in ap (λ m. 2 ^ m) nothing ∙ omega arith
pow_add (suc k) n =
    let one_more : suc k + n ≡ suc (k + n) = omega arith in
    ap (λ m. 2 ^ m) one_more
    ∙ pow_suc (k + n)
    ∙ ap (λ x. 2 * x) (pow_add k n)
    ∙ sym (mul_assoc 2 (2 ^ k) (2 ^ n))
    ∙ ap (λ x. x * 2 ^ n) (sym (pow_suc k))

pow_le : (k d : ℕ) → 2 ^ k ≤ 2 ^ (k + d)
pow_le k zero = let nothing : k + 0 ≡ k = omega arith in omega (arith, ap (λ m. 2 ^ m) nothing)
pow_le k (suc d) =
    let one_more : k + suc d ≡ suc (k + d) = omega arith in
    omega (arith, ap (λ m. 2 ^ m) one_more, pow_suc (k + d), pow_le k d)

-- The digit count of the native operations may be any that is large enough.
digits_enough :
    (z : ℕ → ℕ) (f : ℕ → ℕ → ℕ) (n m a b : ℕ) → a ≤ n → a ≤ m → digits z f n a b ≡ digits z f m a b
digits_enough z f zero zero a b p q = refl
digits_enough z f zero (suc m) zero b p q = refl
digits_enough z f zero (suc m) (suc a) b p q = absurd (omega arith)
digits_enough z f (suc n) zero zero b p q = refl
digits_enough z f (suc n) zero (suc a) b p q = absurd (omega arith)
digits_enough z f (suc n) (suc m) zero b p q = refl
digits_enough z f (suc n) (suc m) (suc a) b p q =
    ap (λ x. x * 2 + f (suc a % 2) (b % 2))
      (digits_enough z f n m (suc a / 2) (b / 2) (omega arith) (omega arith))

zero-bit_and : (b : ℕ) → bit_and 0 b ≡ 0
zero-bit_and b = bit_and-bitwise 0 b

zero-bit_or : (b : ℕ) → bit_or 0 b ≡ b
zero-bit_or b = bit_or-bitwise 0 b

and_step : (a b : ℕ) → bit_and a b ≡ bit_and (a / 2) (b / 2) * 2 + min (a % 2) (b % 2)
and_step zero b = omega (arith, zero-bit_and b, zero-bit_and (b / 2))
and_step (suc a) b =
    let enough =
      digits_enough (λ b. zero) min a (suc a / 2) (suc a / 2) (b / 2) (omega arith) (omega arith) in
    omega (arith, bit_and-bitwise (suc a) b, bit_and-bitwise (suc a / 2) (b / 2), enough)

or_step : (a b : ℕ) → bit_or a b ≡ bit_or (a / 2) (b / 2) * 2 + max (a % 2) (b % 2)
or_step zero b = omega (arith, zero-bit_or b, zero-bit_or (b / 2))
or_step (suc a) b =
    let enough =
      digits_enough (λ b. b) max a (suc a / 2) (suc a / 2) (b / 2) (omega arith) (omega arith) in
    omega (arith, bit_or-bitwise (suc a) b, bit_or-bitwise (suc a / 2) (b / 2), enough)

-- The digit `k` of a number of `k + 1` digits, and high digits above a number of `k` digits.
top_digit_clear : (k v : ℕ) → v < 2 ^ k → bit_and v (2 ^ k) ≡ 0
top_digit_clear zero v h = let nothing : v ≡ 0 = omega arith in ap (λ x. bit_and x 1) nothing
top_digit_clear (suc k) v h =
    let half : 2 ^ suc k / 2 ≡ 2 ^ k = omega arith in
    let even : 2 ^ suc k % 2 ≡ 0 = omega arith in
    omega (
      arith,
      and_step v (2 ^ suc k),
      ap (bit_and (v / 2)) half,
      even,
      top_digit_clear k (v / 2) (omega arith),
    )

top_digit_set : (k v : ℕ) → 2 ^ k ≤ v → v < 2 ^ suc k → bit_and v (2 ^ k) ≡ 2 ^ k
top_digit_set zero v low high = let one : v ≡ 1 = omega arith in ap (λ x. bit_and x 1) one
top_digit_set (suc k) v low high =
    let half : 2 ^ suc k / 2 ≡ 2 ^ k = omega arith in
    let even : 2 ^ suc k % 2 ≡ 0 = omega arith in
    omega (
      arith,
      and_step v (2 ^ suc k),
      ap (bit_and (v / 2)) half,
      even,
      top_digit_set k (v / 2) (omega arith) (omega arith),
    )

high_digits : (k v h : ℕ) → v < 2 ^ k → bit_or v (2 ^ k * h) ≡ v + 2 ^ k * h
high_digits zero v h small =
    let nothing : v ≡ 0 = omega arith in
    omega (arith, ap (λ x. bit_or x (2 ^ zero * h)) nothing, zero-bit_or (2 ^ zero * h))
high_digits (suc k) v h small =
    let twice : 2 ^ suc k * h ≡ 2 * (2 ^ k * h) =
      ap (λ x. x * h) (pow_suc k) ∙ mul_assoc 2 (2 ^ k) h in
    let half : 2 ^ suc k * h / 2 ≡ 2 ^ k * h = omega arith in
    omega (
      arith,
      or_step v (2 ^ suc k * h),
      ap (bit_or (v / 2)) half,
      high_digits k (v / 2) h (omega arith),
    )

-- The digits that the complement of the mask sets.
complement : (w d : ℕ) → w + d ≡ 64 → 2 ^ 64 - 1 - (2 ^ w - 1) ≡ 2 ^ w * (2 ^ d - 1)
complement w d fills =
    let h = 2 ^ d - 1 in
    let more : 2 ^ d ≡ suc h = omega (arith, one-le-pow d 2 (omega arith)) in
    let all : 2 ^ 64 ≡ 2 ^ w * suc h =
      ap (λ m. 2 ^ m) (sym fills) ∙ pow_add w d ∙ ap (λ x. 2 ^ w * x) more in
    omega (arith, all, mul-suc (2 ^ w) h, one-le-pow w 2 (omega arith))

-- A width of `suc k` bits, of the 64.
sign_extend_lem :
    (k d v : ℕ)
    → suc k + d ≡ 64
    → v < 2 ^ suc k
    → int64 (sign_extend (2 ^ k) (2 ^ suc k - 1) v)
      ≡ (if ltb v (2 ^ k) then pos v else negsuc (2 ^ suc k - 1 - v))
sign_extend_lem k d v fills small =
    let width : k + d ≡ 63 = omega arith in
    let low_bound : 2 ^ k ≤ 2 ^ 63 = omega (arith, pow_le k d, ap (λ m. 2 ^ m) width) in
    let word_bound : 2 ^ suc k ≤ 2 ^ 64 = omega (arith, pow_suc k) in
    elim (Bool-cases (ltb v (2 ^ k))) [
      | inl low ↦
          let is_low : v < 2 ^ k = ground arith in
          let unset = top_digit_clear k v is_low in
          let kept : sign_extend (2 ^ k) (2 ^ suc k - 1) v ≡ v = rw unset refl in
          let plain : ltb v (2 ^ 63) ≡ true = ground arith in rw (kept, plain, low) refl
      | inr high ↦
          let is_high : 2 ^ k ≤ v = ground arith in
          let set = top_digit_set k v is_high small in
          let nonzero : 2 ^ k == 0 ≡ false = ground (arith, one-le-pow k 2 (omega arith)) in
          let mask = complement (suc k) d fills in
          let extended : sign_extend (2 ^ k) (2 ^ suc k - 1) v ≡ v + 2 ^ suc k * (2 ^ d - 1) =
            rw (set, nonzero, mask) (high_digits (suc k) v (2 ^ d - 1) small) in
          let negative : ltb (v + 2 ^ suc k * (2 ^ d - 1)) (2 ^ 63) ≡ false =
            ground (arith, mask, pow_suc k) in
          let rest : 2 ^ 64 - 1 - (v + 2 ^ suc k * (2 ^ d - 1)) ≡ 2 ^ suc k - 1 - v =
            omega (arith, mask) in
          rw (extended, negative, high, rest) refl
    ]

module _ (sign_bit bit_mask : ℕ → ℕ) (sign_is : (k : ℕ) → sign_bit (suc k) ≡ 2 ^ k)
    (mask_is : (w : ℕ) → bit_mask w ≡ 2 ^ w - 1) (host : Host) {E : Type 0} where
  -- For an integer instruction of 1 to 64 bits whose stored value has no higher bits, and for the
  -- sign bit and the bit mask that `llvm::IntegerType` documents, `getValueInt64` answers the two's
  -- complement reading of the value at the instruction's own width.
  pub get_value_int64_lem :
      (i k v : ℕ) (at_i : Placement) (fs : HostFunction host E)
      → get_instruction fs.function_lookup i ≡ some at_i
      → at_i.instruction.type.bit_width ≡ some (suc k)
      → suc k ≤ 64
      → v < 2 ^ suc k
      → get_value_uint64 host i fs ≡ some (some v)
      → get_value_int64 sign_bit bit_mask host i fs
        ≡ some (some (if ltb v (2 ^ k) then pos v else negsuc (2 ^ suc k - 1 - v)))
  unfolding get_value_int64
  get_value_int64_lem i k v at_i fs placed width fits small got =
      let extended = sign_extend_lem k (64 - suc k) v (omega arith) small in
      rw (got, placed, width, sign_is k, mask_is (suc k)) (ap (λ x. some (some x)) extended)
