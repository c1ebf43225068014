-- ===== src/Interval/Bounds.antt =====
-- Areas that do not reach past the end of the address space.
use seec.Common.{ℕ, ◌+◌, ◌≤◌, ◌<◌, ◌≡◌, true, arith}
use seec.Interval.{word, with_start_length, length, contains_interval}

pub length-with_start_length : (s n : ℕ) → s + n < word → length (with_start_length s n) ≡ n
length-with_start_length s n h = omega arith

-- An area inside another lies between its ends.
pub contains_interval_bounds :
    (a size b n : ℕ)
    → a + size < word
    → b + n < word
    → contains_interval (with_start_length a size) (with_start_length b n) ≡ true
    → (a ≤ b) × (b + n ≤ a + size)
contains_interval_bounds a size b n h k e = ground arith

pub contains_interval_of_bounds :
    (a size b n : ℕ)
    → a + size < word
    → b + n < word
    → a ≤ b
    → b + n ≤ a + size
    → contains_interval (with_start_length a size) (with_start_length b n) ≡ true
contains_interval_of_bounds a size b n h k l r = ground arith
