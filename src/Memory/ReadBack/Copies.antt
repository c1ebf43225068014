-- ===== src/Memory/ReadBack/Copies.antt =====
-- What the destination's region gives after a copy.
use seec.Common.{
  ℕ, ◌+◌, ◌-◌, ◌≤◌, ◌<◌, ◌≡◌, refl, sym, ap, ap₂, ◌∙◌, Bool, true, false, some, List, ◌==◌,
  >>=-eq-some, some-injective, length, subst, inl, inr, arith, assert, if◌then◌else◌, ◌⊎◌,
}
use seec.Common.Slices.{read, write, length-read, read-write}
use seec.Interval.{word, memory_area}
use seec.StdMap.{floor, find}
use seec.StdMap.Floor.{floor-find}
use seec.StdMap.Related.{Related-Above_back}
use seec.Allocation.{MemoryAllocation, ArrayRef, copy_data, add_area, clear_area, is_inside}
use seec.Allocation.Refine.Inversion.{Cleared, clear_area-Cleared}
use package.seec.Memory.{
  MemoryState, get_allocation, add_copy, region_byte_values, region_byte_initialization,
}
use package.seec.Memory.View.{Shows, MemoryLog, ShowsMemory}
use package.seec.Memory.Lookup.{get_allocation-Below, get_allocation_inv}
use package.seec.Memory.ReadBack.{found_region, replaced_region}
use package.seec.Memory.Reversible.Copying.{add_copy-Copied}

-- What a successful `addArea` with references of `n` elements puts in the range.
copy_written :
    (da v : MemoryAllocation) (d n : ℕ) (data_at init_at : MemoryAllocation → List ℕ)
    (data_apart init_apart : ℕ → Bool)
    → d + n < word
    → add_area da d
        (record { count = n; view = data_at; apart = data_apart })
        (record { count = n; view = init_at; apart = init_apart })
      ≡ some v
    → (c : MemoryAllocation) × (is_inside da (memory_area d n) ≡ true)
      × (0 < n)
      × Cleared da c (d - da.address) n
      × (v.address ≡ da.address)
      × (v.size ≡ da.size)
      × (v.bytes ≡ write (d - da.address) (data_at c) da.bytes)
      × (v.init
          ≡ write
              (d - da.address)
              (init_at (record c { bytes = write (d - c.address) (data_at c) c.bytes }))
              c.init)
unfolding add_area
copy_written da v d n data_at init_at data_apart init_apart w e =
    let (_, _, e1) = >>=-eq-some (assert (n == n)) _ e in
    let (c, ce, e2) = >>=-eq-some (clear_area da (memory_area d n)) _ e1 in
    let (inside, positive, cl) = clear_area-Cleared da d n c w ce in
    let data_ref : ArrayRef = record { count = n; view = data_at; apart = data_apart } in
    let (b, eb, e3) = >>=-eq-some (copy_data d data_ref c) _ e2 in
    let (_, _, made) = >>=-eq-some (assert (data_apart d)) _ eb in
    let (_, _, e4) = >>=-eq-some (assert (init_apart d)) _ e3 in
    let copied : MemoryAllocation = record c {
      bytes = write (d - c.address) (data_at c) c.bytes;
    } in
    let is_v : record copied { init = write (d - c.address) (init_at copied) c.init } ≡ v =
      ap (λ (x : MemoryAllocation). record x { init = write (d - x.address) (init_at x) x.init })
        (some-injective _ _ made)
      ∙ some-injective _ _ e4 in
    (
      c,
      inside,
      positive,
      cl,
      sym (ap (λ x. x.address) is_v) ∙ cl.same_address,
      sym (ap (λ x. x.size) is_v) ∙ cl.same_size,
      sym (ap (λ x. x.bytes) is_v)
          ∙ ap₂ (λ x y. write (d - x) (data_at c) y) cl.same_address cl.same_bytes,
      sym (ap (λ x. x.init) is_v)
          ∙ ap
              (λ x.
                write (d - x)
                  (init_at (record c { bytes = write (d - c.address) (data_at c) c.bytes })) c.init)
              cl.same_address,
    )

-- The data that a copy reads is the source's, also in the allocation that it clears.
copied_bytes :
    (same : Bool) (sa da c : MemoryAllocation) (o n : ℕ)
    → (same ≡ true → da ≡ sa)
    → c.bytes ≡ da.bytes
    → read o n (if same then c else sa).bytes ≡ read o n sa.bytes
copied_bytes false sa da c o n one e = refl
copied_bytes true sa da c o n one e = ap (read o n) (e ∙ ap (λ x. x.bytes) (one refl))

-- The initialization that it reads is the source's where the areas are apart.
copied_init :
    (same : Bool) (sa da c : MemoryAllocation) (bs : List ℕ) (off o n : ℕ)
    → (same ≡ true → da ≡ sa)
    → Cleared da c off n
    → (same ≡ true → (o + n ≤ off) ⊎ (off + n ≤ o))
    → read o n (if same then record c { bytes = bs } else sa).init ≡ read o n sa.init
copied_init false sa da c bs off o n one cl apart = refl
copied_init true sa da c bs off o n one cl apart =
    cl.elsewhere o n (apart refl) ∙ ap (λ x. read o n x.init) (one refl)

one_allocation :
    (m : MemoryState) (s : MemoryLog) (a b ks kd : ℕ) (sa da : MemoryAllocation)
    → ShowsMemory m s
    → floor a m.allocations ≡ some (ks, sa)
    → floor b m.allocations ≡ some (kd, da)
    → (ks == kd) ≡ true
    → da ≡ sa
one_allocation m s a b ks kd sa da sh ea eb same =
    let sorted = Related-Above_back Shows 0 m.allocations s.blocks sh.current sh.sorted in
    let (fa, _, _) = floor-find a 0 m.allocations ks sa sorted ea in
    let (fb, _, _) = floor-find b 0 m.allocations kd da sorted eb in
    let keys : ks ≡ kd = ground arith in
    some-injective _ _ (sym fb ∙ subst (λ k. find k m.allocations ≡ some sa) keys fa)

-- The references lead to as many elements as they say.
source_long :
    (m : MemoryState) (s : MemoryLog) (a n k : ℕ) (v : MemoryAllocation)
    → ShowsMemory m s
    → a + n < word
    → get_allocation m (memory_area a n) ≡ some (k, v)
    → (length (read (a - v.address) n v.bytes) ≡ n)
      × (length (read (a - v.address) n v.init) ≡ n)
      × (a - v.address + n ≤ length v.bytes)
      × (a - v.address + n ≤ length v.init)
      × (v.address ≤ a)
source_long m s a n k v sh w g =
    let (l, (_, _, r), lo, hi) = get_allocation-Below m s sh a n k v w g in
    let b : a - v.address + n ≤ length v.bytes =
      omega (arith, r.here, r.sized, r.shown.bytes_fill) in
    let i : a - v.address + n ≤ length v.init = omega (arith, r.here, r.sized, r.shown.init_fill) in
    (
      length-read (a - v.address) n v.bytes b,
      length-read (a - v.address) n v.init i,
      b,
      i,
      omega (arith, r.here),
    )

-- After a copy between areas that are apart, the destination's region gives what the source's gave
-- before it.
pub add_copy-region :
    (m : MemoryState) (s : MemoryLog) (source d n : ℕ) (m' : MemoryState)
    → ShowsMemory m s
    → source + n < word
    → d + n < word
    → (source + n ≤ d) ⊎ (d + n ≤ source)
    → add_copy m source d n ≡ some m'
    → (region_byte_values m' (memory_area d n) ≡ region_byte_values m (memory_area source n))
      × (region_byte_initialization m' (memory_area d n)
          ≡ region_byte_initialization m (memory_area source n))
add_copy-region m s source d n m' sh w w' apart e =
    let (ks, sa, kd, da, v, gs, gd, ae, me) = add_copy-Copied m source d n m' w e in
    let (c, _, positive, cl, va, vs, vb, vi) = copy_written da v d n _ _ _ _ w' ae in
    let (es, _) = get_allocation_inv m source n ks sa gs in
    let (ed, _) = get_allocation_inv m d n kd da gd in
    let one = one_allocation m s source d ks kd sa da sh es ed in
    let (lb, li, _, _, s_from) = source_long m s source n ks sa sh w gs in
    let (_, _, db, di, d_from) = source_long m s d n kd da sh w' gd in
    let (sv, si) = found_region m s sh source n ks w positive sa gs in
    let (dv, dinit) = replaced_region m s sh d n kd w' positive da v gd va vs in
    let bytes_read = copied_bytes (ks == kd) sa da c (source - sa.address) n one cl.same_bytes in
    let inits =
      copied_init (ks == kd) sa da c
        (write (d - c.address) (read (source - sa.address) n (if ks == kd then c else sa).bytes)
          c.bytes)
        (d - da.address) (source - sa.address) n one cl
        (λ same.
          let place : da.address ≡ sa.address = ap (λ x. x.address) (one same) in
          elim apart [ inl before ↦ inl (omega arith) | inr behind ↦ inr (omega arith) ]) in
    subst
      (λ x.
        (region_byte_values x (memory_area d n) ≡ region_byte_values m (memory_area source n))
        × (region_byte_initialization x (memory_area d n)
            ≡ region_byte_initialization m (memory_area source n)))
      me
      (
        dv
            ∙ ap some (
                ap₂ (λ x y. read (d - x) n y) va vb
                ∙ read-write (d - da.address) n _ da.bytes (ap length bytes_read ∙ lb) db
                ∙ bytes_read)
            ∙ sym sv,
        dinit
            ∙ ap some (
                ap₂ (λ x y. read (d - x) n y) va vi
                ∙ read-write (d - da.address) n _ c.init (ap length inits ∙ li)
                    (omega (arith, cl.same_length))
                ∙ inits)
            ∙ sym si,
      )
