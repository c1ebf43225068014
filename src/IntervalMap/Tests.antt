-- ===== src/IntervalMap/Tests.antt =====
-- Runs of the interval map, and the theorems at concrete inputs.
use seec.Common.{
  ℕ, ◌≡◌, refl, true, not, none, some, List, [], ◌∷◌, if◌then◌else◌, any_of, arith, get_elem?, ◌⊎◌,
}
use package.seec.IntervalMap.{
  IntervalMapItem, make_interval_map_item, find, count, count_range, lower_bound, equal_range,
  insert, insert_all, erase, ApartFrom,
}
use package.seec.IntervalMap.Queries.{covers, find-covers}
use package.seec.IntervalMap.Insertion.{erase-insert, insert-ApartFrom}

abbrev two : List (IntervalMapItem ℕ)
two = make_interval_map_item 2 5 10 ∷ make_interval_map_item 8 9 11 ∷ []

two-ApartFrom : ApartFrom 0 two
two-ApartFrom = (omega arith, omega arith, (omega arith, omega arith, tt))

find-covers_example :
    (count 9 two ≡ (if any_of (covers 9) two then 1 else 0))
    × ((count 9 two ≡ 0)
        ⊎ ((x : IntervalMapItem ℕ) × (get_elem? two (find 9 two) ≡ some x) × (covers 9 x ≡ true)))
find-covers_example = find-covers 9 0 two two-ApartFrom

erase-insert_example :
    ((insert 6 7 12 two).1 ≡ not (any_of (covers 6) two))
    × (((any_of (covers 6) two ≡ true) × ((insert 6 7 12 two).2 ≡ two))
        ⊎ (erase 6 (insert 6 7 12 two).2 ≡ (1, two)))
erase-insert_example = erase-insert 6 7 12 two (omega arith) two-ApartFrom

insert-ApartFrom_example : ApartFrom 0 (insert 6 7 12 two).2
insert-ApartFrom_example = insert-ApartFrom 6 7 12 two (omega arith) two-ApartFrom refl

-- Counting from behind the last start reads through `end()`.
count_range_runs : (count_range 3 8 two ≡ some 2) × (count_range 8 20 two ≡ none)
unfolding count_range
count_range_runs = (refl, refl)

bounds_run : (lower_bound 5 two ≡ 0) × (lower_bound 6 two ≡ 1) × (equal_range 8 two ≡ (1, 2))
unfolding lower_bound equal_range
bounds_run = (refl, refl, refl)

-- The end of a new interval is not compared with the next start.
insert_all_runs :
    insert_all (make_interval_map_item 6 8 12 ∷ make_interval_map_item 3 4 13 ∷ []) two
    ≡ make_interval_map_item 2 5 10
      ∷ make_interval_map_item 6 8 12
      ∷ make_interval_map_item 8 9 11
      ∷ []
unfolding insert_all
insert_all_runs = refl
