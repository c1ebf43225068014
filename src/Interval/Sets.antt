-- ===== src/Interval/Sets.antt =====
-- Intervals as the sets of their values.
use seec.Common.{
  ℕ, ◌≤◌, ◌<◌, ◌-◌, ◌≡◌, ◌≢◌, ◌↔◌, true, ◌&&◌, not, some, max, min, arith, Bool-cases, inl, inr,
}
use seec.Interval.{
  Interval, interval, contains, contains_interval, intersects, intersection, MemoryArea, area_eq,
  area_ne,
}

-- The assertion of `withStartEnd` holds on every well-formed interval, so `intersection` returns:
-- its result is well formed, and holds exactly the values that both intervals hold.
pub intersection-contains :
    (i o : Interval)
    → i.start ≤ i.end
    → o.start ≤ o.end
    → (r : Interval) × (intersection i o ≡ some r)
      × (r.start ≤ r.end)
      × ((v : ℕ) → contains r v ≡ (contains i v && contains o v))
unfolding intersection
intersection-contains i o h k = elim (Bool-cases (intersects i o)) [
  | inl meets ↦ (
    interval (max i.start o.start) (min i.end o.end),
    ground arith,
    ground arith,
    λ v. ground arith,
  )
  | inr apart ↦ (interval i.start i.start, ground arith, ground arith, λ v. ground arith)
]

-- Between intervals that are not empty, `contains` and `intersects` are inclusion of sets and
-- having a common value.
pub contains-intersects_iff :
    (i o : Interval)
    → i.start < i.end
    → o.start < o.end
    → ((contains_interval i o ≡ true) ↔ ((v : ℕ) → contains o v ≡ true → contains i v ≡ true))
      × ((intersects i o ≡ true) ↔ ((v : ℕ) × (contains i v ≡ true) × (contains o v ≡ true)))
contains-intersects_iff i o h k = (
  (λ e v c. ground arith, λ all. ground (arith, all o.start, all (o.end - 1))),
  (λ e. (max i.start o.start, ground arith, ground arith), λ (v, c, d). ground arith),
)

-- `operator!=` of MemoryArea is never the negation of its `operator==`.
pub area_ne-ne-not-area_eq : (a b : MemoryArea) → area_ne a b ≢ not (area_eq a b)
unfolding area_ne area_eq
area_ne-ne-not-area_eq a b = ground arith
