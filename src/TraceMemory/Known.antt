-- ===== src/TraceMemory/Known.antt =====
-- What the writer knows of an area, and what the reader's region tells of it.
use seec.Common.{
  ℕ, zero, suc, ◌+◌, ◌-◌, ◌<◌, ◌≡◌, refl, sym, ap, ap₂, ◌∙◌, Bool, true, false, Option, none, some,
  List, [], ◌∷◌, ◌==◌, >>=-eq-some, some-injective, length, subst, arith, all_of, is_empty,
  if◌then◌else◌,
}
use seec.Common.Slices.{read, length-read}
use seec.Interval.{word, memory_area, contains_interval}
use seec.Interval.Bounds.{contains_interval_bounds}
use seec.StdMap.{floor}
use seec.StdMap.Related.{Related, RelatedEntry, Related-floor}
use seec.Allocation.{MemoryAllocation, all_complete, full, is_inside}
use seec.Memory.{MemoryState, region_byte_initialization, region_is_completely_initialized}
use seec.Memory.Lookup.{entry_inv}
use seec.Memory.ReadBack.{region_initialization_of}
use package.seec.TraceMemory.{
  TraceMemoryState, TraceMemoryAllocation, has_known_state, get_allocation_containing,
  get_allocation_at_or_preceding, get_shadow_at, get_area,
}
use package.seec.TraceMemory.Agreement.{
  Mirrors, initialization, get_shadow_at-inv, check_containing-inv,
}

all_complete-initialization :
    (cs : List ℕ) → all_complete (initialization cs) ≡ all_of (λ c. c == 0) cs
all_complete-initialization [] = refl
all_complete-initialization (c ∷ cs) = ground (arith, all_complete-initialization cs)

read-initialization :
    (i n : ℕ) (cs : List ℕ) → read i n (initialization cs) ≡ initialization (read i n cs)
read-initialization i n [] = refl
read-initialization zero zero (c ∷ cs) = refl
read-initialization zero (suc n) (c ∷ cs) =
    ap (◌∷◌ (if c == 0 then full else 0)) (read-initialization zero n cs)
read-initialization (suc i) n (c ∷ cs) = read-initialization i n cs

nonempty-initialization :
    (cs : List ℕ) (n : ℕ) → length cs ≡ n → 0 < n → is_empty (initialization cs) ≡ false
nonempty-initialization [] n e h = absurd (omega (arith, e))
nonempty-initialization (c ∷ cs) n e h = refl

pub mirrored_of :
    (o : Option (ℕ × TraceMemoryAllocation)) (q : Option (ℕ × MemoryAllocation)) (j : ℕ)
    (u : TraceMemoryAllocation)
    → o ≡ some (j, u)
    → RelatedEntry Mirrors o q
    → (v : MemoryAllocation) × (q ≡ some (j, v)) × Mirrors j u v
mirrored_of none q j u e r = absurd (cc e)
mirrored_of (some d) none j u e r = absurd r
mirrored_of (some (x, y)) (some (x', y')) j u e (same, r) =
    let (ex, ey) = entry_inv e in
    (
      y',
      ap (λ z. some (z, y')) (sym same ∙ ex),
      subst (λ z. Mirrors z u y') ex (subst (λ z. Mirrors x z y') ey r),
    )

has_known_state-inv :
    (t : TraceMemoryState) (a n : ℕ) (b : Bool)
    → has_known_state t a n ≡ some b
    → (j : ℕ) × (u : TraceMemoryAllocation) × (floor a t ≡ some (j, u))
      × (contains_interval (get_area u).range (memory_area a n).range ≡ true)
      × (all_of (λ c. c == 0) (read (a - u.address) n u.shadow) ≡ b)
unfolding has_known_state get_allocation_containing get_allocation_at_or_preceding
has_known_state-inv t a n b e =
    let ((j, u), found, e1) = >>=-eq-some (get_allocation_containing t a n) _ e in
    let (i, at_i, e2) = >>=-eq-some (get_shadow_at u a) _ e1 in
    let (index, _) = get_shadow_at-inv u a i at_i in
    let (below, inside) = check_containing-inv a n (floor a t) j u found in
    (
      j,
      u,
      below,
      inside,
      ap (λ x. all_of (λ c. c == 0) (read x n u.shadow)) (sym index) ∙ some-injective _ _ e2,
    )

-- Where the writer's shadow memory and the reader's memory agree, and the writer finds that an area
-- which is not empty is or is not known, the reader's region gives the same answer.
pub has_known_state-region_is_completely_initialized :
    (t : TraceMemoryState) (m : MemoryState) (a n : ℕ) (b : Bool)
    → Related Mirrors t m.allocations
    → a + n < word
    → 0 < n
    → has_known_state t a n ≡ some b
    → region_is_completely_initialized m (memory_area a n) ≡ some b
unfolding region_is_completely_initialized
has_known_state-region_is_completely_initialized t m a n b r w positive e =
    let (j, u, below, inside, known) = has_known_state-inv t a n b e in
    let (v, below', mirror) =
      mirrored_of (floor a t) (floor a m.allocations) j u below
        (Related-floor Mirrors a t m.allocations r) in
    let place : v.address ≡ u.address = mirror.reader_here ∙ sym mirror.writer_here in
    let inside' : is_inside v (memory_area a n) ≡ true =
      ap₂ (λ x k. contains_interval (memory_area x k).range (memory_area a n).range) place
        (sym mirror.same_length)
      ∙ inside in
    let fits : v.address + v.size < word = omega (arith, mirror.reader_here, mirror.fits) in
    let (lo, hi) = contains_interval_bounds v.address v.size a n fits w inside' in
    let cells = read (a - u.address) n u.shadow in
    let seen : region_byte_initialization m (memory_area a n) ≡ some (initialization cells) =
      region_initialization_of m a n j v below' inside' fits w positive
      ∙ ap some (
          ap₂ (λ x i. read (a - x) n i) place mirror.same_init
          ∙ read-initialization (a - u.address) n u.shadow) in
    let long : length cells ≡ n =
      length-read (a - u.address) n u.shadow (omega (arith, lo, hi, place, mirror.same_length)) in
    rw (
      seen,
      nonempty-initialization cells n long positive,
      all_complete-initialization cells,
      known,
    )
