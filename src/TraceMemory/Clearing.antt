-- ===== src/TraceMemory/Clearing.antt =====
-- Areas that the writer and the reader clear.
use seec.Common.{
  ℕ, suc, ◌+◌, ◌-◌, ◌≤◌, ◌<◌, ◌≡◌, refl, sym, ap, ap₂, ◌∙◌, true, some, >>=-eq-some, some-injective,
  length, subst, arith, replicate, List, ◌∷◌, [],
}
use seec.Common.Slices.{write, length-write}
use seec.Interval.{word, memory_area, contains_interval}
use seec.Interval.Bounds.{contains_interval_bounds}
use seec.StdMap.{floor, assign}
use seec.StdMap.Related.{Related, Related-floor, Related-assign}
use seec.Allocation.{MemoryAllocation, clear_area, is_inside}
use seec.Allocation.Refine.Inversion.{Cleared, clear_area-Cleared}
use seec.Memory.{MemoryState, add_clear}
use seec.Memory.Lookup.{floor-nonempty}
use package.seec.TraceMemory.{
  TraceMemoryState, TraceMemoryAllocation, clear, get_allocation_containing,
  get_allocation_at_or_preceding, get_shadow_at, get_area, uninitialized_byte,
}
use package.seec.TraceMemory.Agreement.{
  Mirrors, initialization, get_shadow_at-inv, check_containing-inv, initialization-write,
}
use package.seec.TraceMemory.Known.{mirrored_of}
use package.seec.TraceMemory.Allocating.{initialization-fresh}

clear-inv :
    (t t' : TraceMemoryState) (a n : ℕ)
    → clear t a n ≡ some t'
    → (k : ℕ) × (u : TraceMemoryAllocation) × (floor a t ≡ some (k, u))
      × (contains_interval (get_area u).range (memory_area a n).range ≡ true)
      × (assign k
            (record u { shadow = write (a - u.address) (replicate n uninitialized_byte) u.shadow })
            t
          ≡ t')
unfolding clear get_allocation_containing get_allocation_at_or_preceding
clear-inv t t' a n e =
    let ((k, u), found, e1) = >>=-eq-some (get_allocation_containing t a n) _ e in
    let (i, at_i, e2) = >>=-eq-some (get_shadow_at u a) _ e1 in
    let (index, _) = get_shadow_at-inv u a i at_i in
    let (below, inside) = check_containing-inv a n (floor a t) k u found in
    (
      k,
      u,
      below,
      inside,
      ap (λ x. assign k (record u { shadow = write x (replicate n uninitialized_byte) u.shadow }) t)
            (sym index)
          ∙ some-injective _ _ e2,
    )

-- The reader's `addClear` where the allocation below the address holds the area.
add_clear-inv :
    (m m' : MemoryState) (a n k : ℕ) (v : MemoryAllocation)
    → floor a m.allocations ≡ some (k, v)
    → is_inside v (memory_area a n) ≡ true
    → add_clear m (memory_area a n) ≡ some m'
    → (w : MemoryAllocation) × (clear_area v (memory_area a n) ≡ some w)
      × (assign k w m.allocations ≡ m'.allocations)
unfolding add_clear
add_clear-inv m m' a n k v below inside e =
    let (w, ew, e1) =
      >>=-eq-some (clear_area v (memory_area a n)) _
        (rw (floor-nonempty a m.allocations k v below, below, inside) at e) in
    (w, ew, ap (λ x. x.allocations) (some-injective _ _ e1))

Cleared-Mirrors :
    (k a n : ℕ) (u : TraceMemoryAllocation) (v w : MemoryAllocation)
    → Mirrors k u v
    → Cleared v w (a - v.address) n
    → a - v.address + n ≤ v.size
    → length v.init ≡ v.size
    → Mirrors k
        (record u { shadow = write (a - u.address) (replicate n uninitialized_byte) u.shadow })
        w
Cleared-Mirrors k a n u v w r cl within filled = record {
  writer_here = r.writer_here;
  reader_here = cl.same_address ∙ r.reader_here;
  same_length =
      length-write (a - u.address) (replicate n uninitialized_byte) u.shadow
      ∙ r.same_length
      ∙ sym cl.same_size;
  fits = omega (arith, cl.same_size, r.fits);
  same_init =
      cl.cleared_init (omega (arith, within, filled))
      ∙ ap₂ (λ x i. write (a - x) (replicate n 0) i) (r.reader_here ∙ sym r.writer_here) r.same_init
      ∙ ap (λ x. write (a - u.address) x (initialization u.shadow)) (initialization-fresh n)
      ∙ sym (initialization-write (a - u.address) (replicate n uninitialized_byte) u.shadow);
}

length-initialization : (cs : List ℕ) → length (initialization cs) ≡ length cs
length-initialization [] = refl
length-initialization (c ∷ cs) = ap suc (length-initialization cs)

-- The writer's `clear` and the reader's `addClear` of the same area, where both succeed, keep the
-- shadow memory and the recreated memory in agreement.
pub clear-add_clear-Mirrors :
    (t t' : TraceMemoryState) (m m' : MemoryState) (a n : ℕ)
    → Related Mirrors t m.allocations
    → a + n < word
    → clear t a n ≡ some t'
    → add_clear m (memory_area a n) ≡ some m'
    → Related Mirrors t' m'.allocations
clear-add_clear-Mirrors t t' m m' a n r w et em =
    let (k, u, below, inside, same_t) = clear-inv t t' a n et in
    let (v, below', mirror) =
      mirrored_of (floor a t) (floor a m.allocations) k u below
        (Related-floor Mirrors a t m.allocations r) in
    let inside' : is_inside v (memory_area a n) ≡ true =
      ap₂ (λ x j. contains_interval (memory_area x j).range (memory_area a n).range)
        (mirror.reader_here ∙ sym mirror.writer_here) (sym mirror.same_length)
      ∙ inside in
    let fits : v.address + v.size < word = omega (arith, mirror.reader_here, mirror.fits) in
    let (lo, hi) = contains_interval_bounds v.address v.size a n fits w inside' in
    let (c, ce, same_m) = add_clear-inv m m' a n k v below' inside' em in
    let (_, _, cl) = clear_area-Cleared v a n c w ce in
    let filled : length v.init ≡ v.size =
      ap length mirror.same_init ∙ length-initialization u.shadow ∙ mirror.same_length in
    let after = Cleared-Mirrors k a n u v c mirror cl (omega (arith, lo, hi)) filled in
    subst (λ x. Related Mirrors t' x) same_m
      (subst (λ x. Related Mirrors x (assign k c m.allocations)) same_t
        (Related-assign Mirrors k
          (record u { shadow = write (a - u.address) (replicate n uninitialized_byte) u.shadow }) c
          t m.allocations after r))
