-- ===== src/ValueStore/Store.antt =====
-- class BasicBlockStore of include/seec/Trace/BlockValueStore.hpp and
-- lib/Trace/BlockValueStore.cpp.
use seec.Common.{
  ℕ, ◌-◌, ◌≡◌, Bool, true, false, Option, none, some, List, leb, assert, ◌>>=◌, ◌>>◌, length,
  get_elem?, replicate, modify,
}
use seec.Common.Slices.{read, write}
use package.seec.ValueStore.{BasicBlockInfo, get_adjusted_index, get_data_offset, get_apfloat_index}

-- A C++ type that is read and written through `reinterpret_cast`: its size, its object
-- representation, its values, and its `==`, which a NaN does not satisfy with itself.
pub record Scalar (V : Type 0) : Type 1 where
  pub size : ℕ
  pub encode : V → List ℕ
  pub decode : List ℕ → V
  pub agrees : V → V → Bool
  pub IsValue : V → Type 0
  pub length-encode : (v : V) → length (encode v) ≡ size
  pub decode-encode : (v : V) → IsValue v → decode (encode v) ≡ v

-- The types of the host whose values are stored.
pub record Host : Type 1 where
  pub Float : Type 0
  pub Double : Type 0
  pub ApFloat : Type 0
  pub uint64 : Scalar ℕ
  pub ptr : Scalar ℕ
  pub float : Scalar Float
  pub double : Scalar Double
  pub zero_apfloat : ApFloat

pub record BasicBlockStore (A : Type 0) : Type 0 where
  pub bytes : List ℕ
  pub values_set : List Bool
  pub long_doubles : List A

-- The constructor; `fresh` is what `new char[n]` leaves in the bytes, and `initial` is `0.0f`.
abbrev pub basic_block_store : {A : Type 0} → (ℕ → List ℕ) → A → BasicBlockInfo → BasicBlockStore A
basic_block_store fresh initial info = record {
  bytes = fresh info.total_data_size;
  values_set = replicate info.instr_count false;
  long_doubles = replicate info.long_double_instr_count initial;
}

-- `*getX(Info, InstrIndex) == Value`; an empty optional has no value to compare.
abbrev pub matches : {V : Type 0} → Scalar V → Option V → V → Bool
matches t none v = false
matches t (some u) v = t.agrees u v

module _ {A : Type 0} where
  unfoldable pub has_value : BasicBlockInfo → ℕ → BasicBlockStore A → Option Bool
  has_value info i st = get_adjusted_index info i >>= λ k. get_elem? st.values_set k

  unfoldable pub set_has_value : BasicBlockInfo → ℕ → BasicBlockStore A → Option (BasicBlockStore A)
  set_has_value info i st = get_adjusted_index info i >>= λ k.
      some (record st { values_set = modify k (λ _. true) st.values_set })

  module _ {V : Type 0} (t : Scalar V) where
    abbrev pub value_at : BasicBlockInfo → BasicBlockStore A → Option ℕ → Option (Option V)
    value_at info st none = some none
    value_at info st (some offset) =
        assert (leb t.size (info.total_data_size - offset))
        >> some (some (t.decode (read offset t.size st.bytes)))

    abbrev pub value_if : BasicBlockInfo → ℕ → BasicBlockStore A → Bool → Option (Option V)
    value_if info i st false = some none
    value_if info i st true = get_data_offset info i >>= value_at info st

    -- The template `getValue`.
    unfoldable pub get_value : BasicBlockInfo → ℕ → BasicBlockStore A → Option (Option V)
    get_value info i st = has_value info i st >>= value_if info i st

    abbrev pub store_unless :
        BasicBlockInfo → ℕ → V → BasicBlockStore A → ℕ → Bool → Option (BasicBlockStore A)
    store_unless info i v st offset true =
        get_value info i st >>= λ got. assert (matches t got v) >> some st
    store_unless info i v st offset false =
        set_has_value info i (record st { bytes = write offset (t.encode v) st.bytes })

    abbrev pub store_at :
        BasicBlockInfo → ℕ → V → BasicBlockStore A → Option ℕ → Option (BasicBlockStore A)
    store_at info i v st none = some st
    store_at info i v st (some offset) = has_value info i st >>= store_unless info i v st offset

    -- The body that `setUInt64`, `setPtr`, `setFloat` and `setDouble` share.
    unfoldable pub set_value :
        BasicBlockInfo → ℕ → V → BasicBlockStore A → Option (BasicBlockStore A)
    set_value info i v st = get_data_offset info i >>= store_at info i v st

  abbrev pub put_apfloat :
      BasicBlockInfo → ℕ → A → BasicBlockStore A → Option ℕ → Option (BasicBlockStore A)
  put_apfloat info i v st none = some st
  put_apfloat info i v st (some index) =
      set_has_value info i (record st { long_doubles = modify index (λ _. v) st.long_doubles })

  unfoldable pub set_apfloat :
      BasicBlockInfo → ℕ → A → BasicBlockStore A → Option (BasicBlockStore A)
  set_apfloat info i v st = get_apfloat_index info i >>= put_apfloat info i v st

  abbrev pub apfloat_at : BasicBlockStore A → Option ℕ → Option (Option A)
  apfloat_at st none = some none
  apfloat_at st (some index) = get_elem? st.long_doubles index >>= λ v. some (some v)

  abbrev pub apfloat_if : BasicBlockInfo → ℕ → BasicBlockStore A → Bool → Option (Option A)
  apfloat_if info i st false = some none
  apfloat_if info i st true = get_apfloat_index info i >>= apfloat_at st

  unfoldable pub get_apfloat : BasicBlockInfo → ℕ → BasicBlockStore A → Option (Option A)
  get_apfloat info i st = has_value info i st >>= apfloat_if info i st

module _ (host : Host) where
  abbrev pub HostStore : Type 0
  HostStore = BasicBlockStore host.ApFloat

  abbrev pub set_uint64 : BasicBlockInfo → ℕ → ℕ → HostStore → Option HostStore
  set_uint64 = set_value host.uint64

  abbrev pub set_ptr : BasicBlockInfo → ℕ → ℕ → HostStore → Option HostStore
  set_ptr = set_value host.ptr

  abbrev pub set_float : BasicBlockInfo → ℕ → host.Float → HostStore → Option HostStore
  set_float = set_value host.float

  abbrev pub set_double : BasicBlockInfo → ℕ → host.Double → HostStore → Option HostStore
  set_double = set_value host.double

  abbrev pub get_uint64 : BasicBlockInfo → ℕ → HostStore → Option (Option ℕ)
  get_uint64 = get_value host.uint64

  abbrev pub get_ptr : BasicBlockInfo → ℕ → HostStore → Option (Option ℕ)
  get_ptr = get_value host.ptr

  abbrev pub get_float : BasicBlockInfo → ℕ → HostStore → Option (Option host.Float)
  get_float = get_value host.float

  abbrev pub get_double : BasicBlockInfo → ℕ → HostStore → Option (Option host.Double)
  get_double = get_value host.double
