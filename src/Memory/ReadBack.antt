-- ===== src/Memory/ReadBack.antt =====
-- What a region gives after its bytes were written.
pub mod Copies
use seec.Common.{
  ℕ, zero, suc, ◌+◌, ◌-◌, ◌≤◌, ◌<◌, ◌≡◌, refl, sym, ap, ap₂, ◌∙◌, Bool, true, false, not, Option,
  none, some, List, ◌==◌, ◌>>=◌, ◌>>◌, >>=-eq-some, some-injective, length, subst, Bool-cases, inl,
  inr, arith, assert, replicate, length-replicate, if◌then◌else◌, ◌⊎◌, is_empty, ◌&&◌,
}
use seec.Common.Slices.{read, write, length-read, length-write, read-write}
use seec.Interval.{word, MemoryArea, memory_area, address, area_length, contains, contains_interval}
use seec.Interval.Bounds.{length-with_start_length, contains_interval_bounds}
use seec.StdMap.{Map, floor, find, assign, Above}
use seec.StdMap.Floor.{floor-find, floor-assign}
use seec.StdMap.Related.{Related-Above_back}
use seec.Allocation
use seec.Allocation.{
  MemoryAllocation, add_area, clear_area, get_area_data, get_area_initialization, is_inside,
  own_area, mapped_memory_block, full,
}
use seec.Allocation.Log.{Log}
use seec.Allocation.Refine.Inversion.{Cleared, clear_area-Cleared}
use package.seec.Memory.{
  MemoryState, with_allocation, get_allocation, find_allocation, find_inside, add_block, add_copy,
  region_byte_values, region_byte_initialization,
}
use package.seec.Memory.View.{Shows, MemoryLog, ShowsMemory}
use package.seec.Memory.Lookup.{Below, get_allocation-Below, get_allocation_inv, floor-nonempty}
use package.seec.Memory.Reversible.Copying.{ref, Copied, add_copy-Copied}

find_allocation_of_floor :
    (m : MemoryState) (a k : ℕ) (v : MemoryAllocation)
    → floor a m.allocations ≡ some (k, v)
    → contains (own_area v).range a ≡ true
    → find_allocation m a ≡ some v
unfolding find_allocation
find_allocation_of_floor m a k v e c = rw (floor-nonempty a m.allocations k v e, e, c)

contains_start :
    (x size a n : ℕ)
    → x + size < word
    → a + n < word
    → 0 < n
    → contains_interval (memory_area x size).range (memory_area a n).range ≡ true
    → contains (memory_area x size).range a ≡ true
contains_start x size a n fits w positive i =
    let (lo, hi) = contains_interval_bounds x size a n fits w i in ground arith

-- The region where an allocation that contains it stands in the map.
module _ (m : MemoryState) (a n k : ℕ) (v : MemoryAllocation)
    (at_floor : floor a m.allocations ≡ some (k, v)) (inside : is_inside v (memory_area a n) ≡ true)
    (fits : v.address + v.size < word) (w : a + n < word) (positive : 0 < n) where
  region_values_of : region_byte_values m (memory_area a n) ≡ some (read (a - v.address) n v.bytes)
  unfolding region_byte_values get_area_data
  region_values_of = rw (
    region_byte_values,
    find_allocation_of_floor m a k v at_floor
        (contains_start v.address v.size a n fits w positive inside),
    inside,
    length-with_start_length a n w,
  )

  pub region_initialization_of :
      region_byte_initialization m (memory_area a n) ≡ some (read (a - v.address) n v.init)
  unfolding region_byte_initialization get_area_initialization
  region_initialization_of = rw (
    region_byte_initialization,
    find_allocation_of_floor m a k v at_floor
        (contains_start v.address v.size a n fits w positive inside),
    inside,
    length-with_start_length a n w,
  )

module _ (m : MemoryState) (s : MemoryLog) (sh : ShowsMemory m s) (a n k : ℕ) (w : a + n < word)
    (positive : 0 < n) where
  -- Before a change, and after the allocation at the key was replaced by another of its place.
  pub found_region :
      (u : MemoryAllocation)
      → get_allocation m (memory_area a n) ≡ some (k, u)
      → (region_byte_values m (memory_area a n) ≡ some (read (a - u.address) n u.bytes))
        × (region_byte_initialization m (memory_area a n) ≡ some (read (a - u.address) n u.init))
  found_region u g =
      let (e, inside) = get_allocation_inv m a n k u g in
      let (l, (_, _, r), _, _) = get_allocation-Below m s sh a n k u w g in
      let fits : u.address + u.size < word = omega (arith, r.here, r.fits) in
      (
        region_values_of m a n k u e inside fits w positive,
        region_initialization_of m a n k u e inside fits w positive,
      )

  pub replaced_region :
      (u v : MemoryAllocation)
      → get_allocation m (memory_area a n) ≡ some (k, u)
      → v.address ≡ u.address
      → v.size ≡ u.size
      → (region_byte_values (record m { allocations = assign k v m.allocations }) (memory_area a n)
          ≡ some (read (a - v.address) n v.bytes))
        × (region_byte_initialization
              (record m { allocations = assign k v m.allocations })
              (memory_area a n)
            ≡ some (read (a - v.address) n v.init))
  replaced_region u v g va vs =
      let (e, inside) = get_allocation_inv m a n k u g in
      let (l, (_, _, r), _, _) = get_allocation-Below m s sh a n k u w g in
      let fits : v.address + v.size < word = omega (arith, r.here, r.fits, va, vs) in
      let sorted = memory_sorted in
      let after = floor-assign a k 0 u v m.allocations sorted e in
      let inside' : is_inside v (memory_area a n) ≡ true =
        subst (λ x. contains_interval (memory_area x v.size).range (memory_area a n).range ≡ true)
          (sym va)
          (subst
            (λ x. contains_interval (memory_area u.address x).range (memory_area a n).range ≡ true)
            (sym vs) inside) in
      (
        region_values_of (record m { allocations = assign k v m.allocations }) a n k v after inside'
            fits w positive,
        region_initialization_of (record m { allocations = assign k v m.allocations }) a n k v after
            inside' fits w positive,
      )
    where
      memory_sorted : Above 0 m.allocations
      memory_sorted = Related-Above_back Shows 0 m.allocations s.blocks sh.current sh.sorted

block_written :
    (a : ℕ) (ds : List ℕ)
    → a + length ds < word
    → (k : ℕ) (u v : MemoryAllocation) (l : Log) → Shows k u l
    → k ≤ a
    → a + length ds ≤ k + length l.cells
    → Allocation.add_block u (mapped_memory_block a ds) ≡ some v
    → (0 < length ds)
      × (v.address ≡ u.address)
      × (v.size ≡ u.size)
      × (read (a - v.address) (length ds) v.bytes ≡ ds)
      × (read (a - v.address) (length ds) v.init ≡ replicate (length ds) full)
unfolding Allocation.add_block
block_written a ds w k u v l r lo hi ve =
    let (c, ce, e2) = >>=-eq-some (clear_area u (memory_area a (length ds))) _ ve in
    let (_, positive, cl) = clear_area-Cleared u a (length ds) c w ce in
    let long = length-with_start_length a (length ds) w in
    let is_v = some-injective _ _ e2 in
    subst
      (λ x.
        (0 < length ds)
        × (x.address ≡ u.address)
        × (x.size ≡ u.size)
        × (read (a - x.address) (length ds) x.bytes ≡ ds)
        × (read (a - x.address) (length ds) x.init ≡ replicate (length ds) full))
      is_v
      (
        positive,
        cl.same_address,
        cl.same_size,
        read-write (a - c.address) (length ds) ds c.bytes refl (
            rw cl.same_bytes (omega (arith, r.here, r.sized, r.shown.bytes_fill, cl.same_address))),
        rw long (
            read-write (a - c.address) (length ds) (replicate (length ds) full) c.init
              (length-replicate (length ds) full)
              (omega (arith, r.here, r.sized, r.shown.init_fill, cl.same_address, cl.same_length))),
      )

-- The block that was added is what the region then gives, all of it initialized.
pub add_block-region :
    (m : MemoryState) (s : MemoryLog) (a : ℕ) (ds : List ℕ) (m' : MemoryState)
    → ShowsMemory m s
    → a + length ds < word
    → add_block m (mapped_memory_block a ds) ≡ some m'
    → (region_byte_values m' (memory_area a (length ds)) ≡ some ds)
      × (region_byte_initialization m' (memory_area a (length ds))
          ≡ some (replicate (length ds) full))
unfolding add_block
add_block-region m s a ds m' sh w e =
    let ((k, u), g, e1) = >>=-eq-some (get_allocation m (memory_area a (length ds))) _ e in
    let (v, ve, e2) = >>=-eq-some (Allocation.add_block u (mapped_memory_block a ds)) _ e1 in
    let (l, (_, _, r), lo, hi) = get_allocation-Below m s sh a (length ds) k u w g in
    let (positive, va, vs, vb, vi) = block_written a ds w k u v l r lo hi ve in
    let (values, inits) = replaced_region m s sh a (length ds) k w positive u v g va vs in
    subst
      (λ x.
        (region_byte_values x (memory_area a (length ds)) ≡ some ds)
        × (region_byte_initialization x (memory_area a (length ds))
            ≡ some (replicate (length ds) full)))
      (some-injective _ _ e2) (values ∙ ap some vb, inits ∙ ap some vi)
