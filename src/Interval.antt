-- ===== src/Interval.antt =====
-- include/seec/DSA/Interval.hpp at its one instance, `Interval<uint64_t>`, and
-- include/seec/DSA/MemoryArea.hpp. An addition or subtraction wraps at 2 ^ 64. A function that
-- asserts returns an option.
pub mod Bounds
pub mod Sets
mod Tests
use seec.Common.{
  ℕ, ◌+◌, ◌-◌, ◌%◌, ◌^◌, max, min, Bool, ◌&&◌, ◌||◌, not, Option, some, leb, ltb, ◌==◌,
  if◌then◌else◌, assert, ◌>>=◌, ◌>>◌,
}

-- One more than the largest `uint64_t`.
abbrev pub word : ℕ
word = 2 ^ 64

pub record Interval : Type 0 where
  pub start : ℕ
  pub end : ℕ

abbrev pub interval : ℕ → ℕ → Interval
interval s e = record { start = s; end = e }

unfoldable pub with_start_end : ℕ → ℕ → Option Interval
with_start_end s e = assert (leb s e) >> some (interval s e)

abbrev pub with_start_length : ℕ → ℕ → Interval
with_start_length s n = interval s ((s + n) % word)

unfoldable pub set_start : Interval → ℕ → Option Interval
set_start i v = assert (leb v i.end) >> some (record i { start = v })

unfoldable pub set_end : Interval → ℕ → Option Interval
set_end i v = assert (leb i.start v) >> some (record i { end = v })

unfoldable pub set_start_end : Interval → ℕ → ℕ → Option Interval
set_start_end i s e = assert (leb s e) >> some (record i { start = s; end = e })

unfoldable pub with_start : Interval → ℕ → Option Interval
unfolding with_start_end
with_start i v = assert (leb v i.end) >> with_start_end v i.end

unfoldable pub with_end : Interval → ℕ → Option Interval
unfolding with_start_end
with_end i v = assert (leb i.start v) >> with_start_end i.start v

abbrev pub length : Interval → ℕ
length i = (i.end + word - i.start) % word

unfoldable pub last : Interval → ℕ
last i = if i.start == i.end then i.end else i.end - 1

abbrev pub contains : Interval → ℕ → Bool
contains i v = leb i.start v && ltb v i.end

abbrev pub contains_interval : Interval → Interval → Bool
contains_interval i o = leb i.start o.start && leb o.end i.end

abbrev pub intersects : Interval → Interval → Bool
intersects i o = ltb i.start o.end && ltb o.start i.end

unfoldable pub intersection : Interval → Interval → Option Interval
unfolding with_start_end
intersection i o =
    if intersects i o
    then with_start_end (max i.start o.start) (min i.end o.end)
    else with_start_end i.start i.start

abbrev pub eq : Interval → Interval → Bool
eq i o = (i.start == o.start) && (i.end == o.end)

abbrev pub ne : Interval → Interval → Bool
ne i o = not (i.start == o.start) || not (i.end == o.end)

pub data MemoryPermission : Type 0 where
  none_access read_only write_only read_write : MemoryPermission

pub record MemoryArea : Type 0 where
  pub range : Interval
  pub access : MemoryPermission

-- The constructors `MemoryArea(Address, Length)` and `MemoryArea(Address, Length, Access)`.
abbrev pub memory_area : ℕ → ℕ → MemoryArea
memory_area a n = record { range = with_start_length a n; access = read_write }

abbrev pub memory_area_with : ℕ → ℕ → MemoryPermission → MemoryArea
memory_area_with a n p = record { range = with_start_length a n; access = p }

abbrev pub address : MemoryArea → ℕ
address a = a.range.start

unfoldable pub last_address : MemoryArea → ℕ
unfolding last
last_address a = last a.range

abbrev pub area_length : MemoryArea → ℕ
area_length a = length a.range

-- `operator==` of MemoryArea, and its `operator!=`, which calls the `operator==` of Interval.
unfoldable pub area_eq : MemoryArea → MemoryArea → Bool
area_eq a b = eq a.range b.range

unfoldable pub area_ne : MemoryArea → MemoryArea → Bool
area_ne a b = eq a.range b.range

unfoldable pub with_length : MemoryArea → ℕ → MemoryArea
with_length a n = memory_area_with a.range.start n a.access
