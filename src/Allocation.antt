-- ===== src/Allocation.antt =====
-- class MemoryAllocation of include/seec/Trace/MemoryState.hpp and lib/Trace/MemoryState.cpp: one
-- recreated allocation, with the undo stacks that rewinding reads. A vector is a list in the
-- vector's order, so its back is the end of the list. An `unsigned char` of `init` is 0 for an
-- uninitialized byte and 255 for a completely initialized one. A mutator that asserts returns an
-- option; the debug output, which is compiled out, is left out.
pub mod Log
pub mod Refine
mod Tests
use seec.Common.{
  ℕ, ◌+◌, ◌-◌, Bool, true, false, not, Option, none, some, List, [], ◌∷◌, ◌++◌, ◌==◌, leb,
  if◌then◌else◌, assert, ◌>>=◌, ◌>>◌, length, all_of, any_of, is_empty, take, drop, replicate,
}
use seec.Common.Slices.{read, write}
use seec.Interval.{MemoryArea, memory_area, address, area_length, contains_interval}

-- EPreviousAreaType.
pub data PreviousAreaType : Type 0 where
  uninitialized partial complete : PreviousAreaType

pub record MemoryAllocation : Type 0 where
  pub address : ℕ
  pub size : ℕ
  pub bytes : List ℕ
  pub init : List ℕ
  pub previous_type : List PreviousAreaType
  pub previous_data : List ℕ
  pub previous_init : List ℕ

-- The constructor: `Data(Size)` and `Init(Size)` are zero-filled.
abbrev pub allocation : ℕ → ℕ → MemoryAllocation
allocation a n = record {
  address = a;
  size = n;
  bytes = replicate n 0;
  init = replicate n 0;
  previous_type = [];
  previous_data = [];
  previous_init = [];
}

-- std::numeric_limits<unsigned char>::max().
abbrev pub full : ℕ
full = 255

abbrev pub own_area : MemoryAllocation → MemoryArea
own_area a = memory_area a.address a.size

abbrev pub is_inside : MemoryAllocation → MemoryArea → Bool
is_inside a area = contains_interval (own_area a).range area.range

unfoldable pub get_area_data : MemoryAllocation → MemoryArea → Option (List ℕ)
get_area_data a area =
    assert (is_inside a area) >> some (read (address area - a.address) (area_length area) a.bytes)

unfoldable pub get_area_initialization : MemoryAllocation → MemoryArea → Option (List ℕ)
get_area_initialization a area =
    assert (is_inside a area) >> some (read (address area - a.address) (area_length area) a.init)

abbrev pub all_complete : List ℕ → Bool
all_complete = all_of (λ c. c == full)

abbrev pub all_clear : List ℕ → Bool
all_clear = all_of (λ c. c == 0)

unfoldable pub is_completely_initialized : MemoryAllocation → Bool
is_completely_initialized a = if is_empty a.init then false else all_complete a.init

unfoldable pub is_partially_initialized : MemoryAllocation → Bool
is_partially_initialized a = if is_empty a.init then false else any_of (λ c. not (c == 0)) a.init

unfoldable pub is_uninitialized : MemoryAllocation → Bool
is_uninitialized a = all_clear a.init

-- `back` of a vector, and `pop_back`.
abbrev pub back {ℓ} : {A : Type ℓ} → List A → Option A
back [] = none
back (x ∷ []) = some x
back (x ∷ y ∷ ys) = back (y ∷ ys)

abbrev pub pop_back {ℓ} : {A : Type ℓ} → List A → List A
pop_back [] = []
pop_back (x ∷ []) = []
pop_back (x ∷ y ∷ ys) = x ∷ pop_back (y ∷ ys)

-- The last `n` elements, and the vector with them erased.
abbrev pub last_n {ℓ} : {A : Type ℓ} → ℕ → List A → List A
last_n n xs = drop (length xs - n) xs

abbrev pub erase_last_n {ℓ} : {A : Type ℓ} → ℕ → List A → List A
erase_last_n n xs = take (length xs - n) xs

-- The type that `clearArea` gives to an area with these initialization bytes.
unfoldable pub area_type : List ℕ → PreviousAreaType
area_type is =
    if all_clear is then uninitialized else (if all_complete is then complete else partial)

-- What `clearArea` does once the type is known.
unfoldable pub clear_as : PreviousAreaType → ℕ → ℕ → MemoryAllocation → MemoryAllocation
clear_as uninitialized off n a = record a {
  previous_type = a.previous_type ++ (uninitialized ∷ []);
}
clear_as partial off n a = record a {
  previous_type = a.previous_type ++ (partial ∷ []);
  previous_init = a.previous_init ++ read off n a.init;
  previous_data = a.previous_data ++ read off n a.bytes;
  init = write off (replicate n 0) a.init;
}
clear_as complete off n a = record a {
  previous_type = a.previous_type ++ (complete ∷ []);
  previous_data = a.previous_data ++ read off n a.bytes;
  init = write off (replicate n 0) a.init;
}

unfoldable pub clear_area : MemoryAllocation → MemoryArea → Option MemoryAllocation
unfolding clear_as area_type
clear_area a area = do
  let off = address area - a.address
  let n = area_length area
  assert (is_inside a area)
  assert (not (n == 0))
  some (clear_as (area_type (read off n a.init)) off n a)

-- What `rewindArea` does once the type is popped, its assertions on the stacks' sizes included.
unfoldable pub rewind_as : PreviousAreaType → ℕ → ℕ → MemoryAllocation → Option MemoryAllocation
rewind_as uninitialized off n a = some (record a { init = write off (replicate n 0) a.init })
rewind_as partial off n a = do
  assert (leb n (length a.previous_init))
  assert (leb n (length a.previous_data))
  some (record a {
    init = write off (last_n n a.previous_init) a.init;
    previous_init = erase_last_n n a.previous_init;
    bytes = write off (last_n n a.previous_data) a.bytes;
    previous_data = erase_last_n n a.previous_data;
  })
rewind_as complete off n a = do
  assert (leb n (length a.previous_data))
  some (record a {
    init = write off (replicate n full) a.init;
    bytes = write off (last_n n a.previous_data) a.bytes;
    previous_data = erase_last_n n a.previous_data;
  })

unfoldable pub rewind_area : MemoryAllocation → MemoryArea → Option MemoryAllocation
unfolding rewind_as
rewind_area a area = do
  let off = address area - a.address
  let n = area_length area
  assert (is_inside a area)
  assert (not (n == 0))
  t ← back a.previous_type
  rewind_as t off n (record a { previous_type = pop_back a.previous_type })

-- class MappedMemoryBlock: an area and the bytes that its pointer leads to.
pub record MappedMemoryBlock : Type 0 where
  pub area : MemoryArea
  pub contents : List ℕ

-- `MappedMemoryBlock(Start, Length, Data)`, where `Data` leads to the bytes `ds`.
abbrev pub mapped_memory_block : ℕ → List ℕ → MappedMemoryBlock
mapped_memory_block a ds = record { area = memory_area a (length ds); contents = ds }

unfoldable pub add_block : MemoryAllocation → MappedMemoryBlock → Option MemoryAllocation
unfolding clear_area
add_block a block = do
  c ← clear_area a block.area
  let off = address block.area - c.address
  some (record c {
    bytes = write off block.contents c.bytes;
    init = write off (replicate (area_length block.area) full) c.init;
  })

-- llvm::ArrayRef, a length and a pointer. It may point into the vectors of the allocation that
-- `addArea` changes, so the elements that it leads to are a function of that allocation. `apart` is
-- whether they lie apart from the `count` elements of that vector from an address on.
pub record ArrayRef : Type 0 where
  pub count : ℕ
  pub view : MemoryAllocation → List ℕ
  pub apart : ℕ → Bool

-- The two `memcpy`s of `addArea`, whose behaviour is undefined, here `none`, where the ranges
-- overlap.
abbrev pub copy_data : ℕ → ArrayRef → MemoryAllocation → Option MemoryAllocation
copy_data at_address r a =
    assert (r.apart at_address)
    >> some (record a { bytes = write (at_address - a.address) (r.view a) a.bytes })

abbrev pub copy_init : ℕ → ArrayRef → MemoryAllocation → Option MemoryAllocation
copy_init at_address r a =
    assert (r.apart at_address)
    >> some (record a { init = write (at_address - a.address) (r.view a) a.init })

unfoldable pub add_area : MemoryAllocation → ℕ → ArrayRef → ArrayRef → Option MemoryAllocation
unfolding clear_area
add_area a at_address with_data with_init = do
  assert (with_data.count == with_init.count)
  c ← clear_area a (memory_area at_address with_data.count)
  d ← copy_data at_address with_data c
  copy_init at_address with_init d

-- `std::vector::resize`: cut, or extended by zeros.
abbrev pub resize_vector : ℕ → List ℕ → List ℕ
resize_vector n xs = take n xs ++ replicate (n - length xs) 0

unfoldable pub resize : MemoryAllocation → ℕ → MemoryAllocation
resize a n = record a { bytes = resize_vector n a.bytes; init = resize_vector n a.init; size = n }
