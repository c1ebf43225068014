-- ===== src/Interval/Tests.antt =====
-- Runs of the interval functions, and the theorems at concrete inputs.
use seec.Common.{ℕ, ◌≤◌, ◌≡◌, refl, ◌↔◌, true, ◌&&◌, none, some, not, ◌≢◌, arith}
use seec.Interval.{
  Interval, interval, contains, contains_interval, intersects, intersection, memory_area,
  area_length, area_eq, area_ne, last_address, with_length, set_start,
}
use seec.Interval.Sets.{intersection-contains, contains-intersects_iff, area_ne-ne-not-area_eq}

last_address_runs : last_address (memory_area 16 8) ≡ 23
unfolding last_address
last_address_runs = refl

with_length_runs : area_length (with_length (memory_area 16 8) 3) ≡ 3
unfolding with_length
with_length_runs = refl

set_start_runs : set_start (interval 4 9) 10 ≡ none
unfolding set_start
set_start_runs = refl

intersection-contains_example :
    (r : Interval) × (intersection (interval 2 6) (interval 4 9) ≡ some r)
    × (r.start ≤ r.end)
    × ((v : ℕ) → contains r v ≡ (contains (interval 2 6) v && contains (interval 4 9) v))
intersection-contains_example =
    intersection-contains (interval 2 6) (interval 4 9) (omega arith) (omega arith)

contains-intersects_iff_example :
    ((contains_interval (interval 2 9) (interval 4 6) ≡ true)
      ↔ ((v : ℕ) → contains (interval 4 6) v ≡ true → contains (interval 2 9) v ≡ true))
    × ((intersects (interval 2 9) (interval 4 6) ≡ true)
        ↔ ((v : ℕ) × (contains (interval 2 9) v ≡ true) × (contains (interval 4 6) v ≡ true)))
contains-intersects_iff_example =
    contains-intersects_iff (interval 2 9) (interval 4 6) (omega arith) (omega arith)

area_ne-ne-not-area_eq_example :
    area_ne (memory_area 16 8) (memory_area 16 8)
    ≢ not (area_eq (memory_area 16 8) (memory_area 16 8))
area_ne-ne-not-area_eq_example = area_ne-ne-not-area_eq (memory_area 16 8) (memory_area 16 8)
