-- ===== src/TraceMemory/Agreement.antt =====
-- The relation of the writer's shadow memory to the reader's memory.
use seec.Common.{
  ℕ, zero, suc, ◌+◌, ◌-◌, ◌<◌, ◌≡◌, refl, sym, ap, ap₂, ◌∙◌, true, Option, none, some, List, [],
  ◌∷◌, ◌==◌, >>=-eq-some, some-injective, length, subst, Bool-cases, inl, inr, arith, assert, leb,
  ltb, replicate, length-replicate, if◌then◌else◌,
}
use seec.Common.Slices.{write, length-write}
use seec.Interval.{word, memory_area, contains_interval}
use seec.Interval.Bounds.{length-with_start_length}
use seec.StdMap.{floor, assign}
use seec.StdMap.Related.{Related, RelatedEntry, Related-floor, Related-assign}
use seec.Allocation
use seec.Allocation.{MemoryAllocation, full, clear_area, mapped_memory_block}
use seec.Allocation.Refine.Inversion.{clear_area-Cleared}
use seec.Memory.{MemoryState, get_allocation, add_block}
use seec.Memory.Lookup.{get_allocation_inv, entry_inv}
use package.seec.TraceMemory.{
  TraceMemoryState, TraceMemoryAllocation, add, get_allocation_containing, check_containing,
  get_shadow_at, get_area, get_allocation_at_or_preceding,
}

-- The reader's initialization of the writer's shadow bytes.
abbrev pub initialization : List ℕ → List ℕ
initialization [] = []
initialization (c ∷ cs) = (if c == 0 then full else 0) ∷ initialization cs

-- An allocation of the writer and one of the reader, both at address `k`, that agree.
pub record Mirrors (k : ℕ) (t : TraceMemoryAllocation) (v : MemoryAllocation) : Type 0 where
  pub writer_here : t.address ≡ k
  pub reader_here : v.address ≡ k
  pub same_length : length t.shadow ≡ v.size
  pub fits : k + v.size < word
  pub same_init : v.init ≡ initialization t.shadow

pub initialization-write :
    (off : ℕ) (ys xs : List ℕ)
    → initialization (write off ys xs) ≡ write off (initialization ys) (initialization xs)
initialization-write off ys [] = refl
initialization-write zero [] (x ∷ xs) = refl
initialization-write zero (y ∷ ys) (x ∷ xs) =
    ap (◌∷◌ (if y == 0 then full else 0)) (initialization-write zero ys xs)
initialization-write (suc off) ys (x ∷ xs) =
    ap (◌∷◌ (if x == 0 then full else 0)) (initialization-write off ys xs)

pub initialization-replicate : (n : ℕ) → initialization (replicate n 0) ≡ replicate n full
initialization-replicate zero = refl
initialization-replicate (suc n) = ap (◌∷◌ full) (initialization-replicate n)

-- What `addBlock` makes of the initialization.
add_block-init :
    (v w : MemoryAllocation) (a : ℕ) (ds : List ℕ)
    → a + length ds < word
    → Allocation.add_block v (mapped_memory_block a ds) ≡ some w
    → (w.address ≡ v.address)
      × (w.size ≡ v.size)
      × (w.init ≡ write (a - v.address) (replicate (length ds) full) v.init)
unfolding Allocation.add_block
add_block-init v w a ds fits e =
    let (c, ce, e1) = >>=-eq-some (clear_area v (memory_area a (length ds))) _ e in
    let (_, _, cl) = clear_area-Cleared v a (length ds) c fits ce in
    let same = some-injective _ _ e1 in
    let long = length-with_start_length a (length ds) fits in
    (
      sym (ap (λ x. x.address) same) ∙ cl.same_address,
      sym (ap (λ x. x.size) same) ∙ cl.same_size,
      sym (ap (λ x. x.init) same)
          ∙ ap₂ (λ x k. write (a - x) (replicate k full) c.init) cl.same_address long
          ∙ cl.covered (replicate (length ds) full) (length-replicate (length ds) full),
    )

write_mirrored :
    (k a n : ℕ) (t : TraceMemoryAllocation) (v w : MemoryAllocation)
    → Mirrors k t v
    → (w.address ≡ v.address)
      × (w.size ≡ v.size)
      × (w.init ≡ write (a - v.address) (replicate n full) v.init)
    → Mirrors k (record t { shadow = write (a - t.address) (replicate n 0) t.shadow }) w
write_mirrored k a n t v w r (wa, ws, wi) = record {
  writer_here = r.writer_here;
  reader_here = wa ∙ r.reader_here;
  same_length = length-write (a - t.address) (replicate n 0) t.shadow ∙ r.same_length ∙ sym ws;
  fits = omega (arith, ws, r.fits);
  same_init =
      wi
      ∙ ap₂ (λ x i. write (a - x) (replicate n full) i) (r.reader_here ∙ sym r.writer_here)
          r.same_init
      ∙ ap (λ x. write (a - t.address) x (initialization t.shadow))
          (sym (initialization-replicate n))
      ∙ sym (initialization-write (a - t.address) (replicate n 0) t.shadow);
}

pub get_shadow_at-inv :
    (u : TraceMemoryAllocation) (a i : ℕ)
    → get_shadow_at u a ≡ some i
    → (i ≡ a - u.address) × (i < length u.shadow)
unfolding get_shadow_at
get_shadow_at-inv u a i e =
    let (_, _, e1) = >>=-eq-some (assert (leb u.address a)) _ e in
    elim (Bool-cases (ltb (a - u.address) (length u.shadow))) [
      | inl inside ↦
          let same : a - u.address ≡ i = some-injective _ _ (rw inside at e1) in
          (sym same, ground (arith, inside, same))
      | inr outside ↦ absurd (cc (rw outside at e1))
    ]

pub check_containing-inv :
    (a n : ℕ) (o : Option (ℕ × TraceMemoryAllocation)) (k : ℕ) (u : TraceMemoryAllocation)
    → check_containing a n o ≡ some (k, u)
    → (o ≡ some (k, u)) × (contains_interval (get_area u).range (memory_area a n).range ≡ true)
check_containing-inv a n none k u e = absurd (cc e)
check_containing-inv a n (some (j, v)) k u e =
    elim (Bool-cases (contains_interval (get_area v).range (memory_area a n).range)) [
      | inl inside ↦
          let (ej, eu) = entry_inv (rw inside at e) in
          (
            rw inside at e,
            subst (λ x. contains_interval (get_area x).range (memory_area a n).range ≡ true) eu
                inside,
          )
      | inr outside ↦ absurd (cc (rw outside at e))
    ]

-- What a successful `add` found and did.
add-inv :
    (t t' : TraceMemoryState) (a n : ℕ)
    → add t a n ≡ some t'
    → (k : ℕ) × (u : TraceMemoryAllocation) × (floor a t ≡ some (k, u))
      × (assign k (record u { shadow = write (a - u.address) (replicate n 0) u.shadow }) t ≡ t')
unfolding add get_allocation_containing get_allocation_at_or_preceding
add-inv t t' a n e =
    let ((k, u), found, e1) = >>=-eq-some (get_allocation_containing t a n) _ e in
    let (i, at_i, e2) = >>=-eq-some (get_shadow_at u a) _ e1 in
    let (index, _) = get_shadow_at-inv u a i at_i in
    (
      k,
      u,
      (check_containing-inv a n (floor a t) k u found).0,
      ap (λ x. assign k (record u { shadow = write x (replicate n 0) u.shadow }) t) (sym index)
          ∙ some-injective _ _ e2,
    )

mirrored_entry :
    (o : Option (ℕ × TraceMemoryAllocation)) (q : Option (ℕ × MemoryAllocation)) (j k : ℕ)
    (u : TraceMemoryAllocation) (v : MemoryAllocation)
    → o ≡ some (j, u)
    → q ≡ some (k, v)
    → RelatedEntry Mirrors o q
    → (j ≡ k) × Mirrors k u v
mirrored_entry none q j k u v e e' r = absurd (cc e)
mirrored_entry (some d) none j k u v e e' r = absurd r
mirrored_entry (some (x, y)) (some (x', y')) j k u v e e' (same, r) =
    let (ex, ey) = entry_inv e in
    let (ex', ey') = entry_inv e' in
    (
      sym ex ∙ same ∙ ex',
      subst (λ z. Mirrors z u v) (same ∙ ex')
          (subst (λ z. Mirrors x u z) ey' (subst (λ z. Mirrors x z y') ey r)),
    )

-- The writer's `add` and the reader's `addBlock` of the same area, where both succeed, keep the
-- shadow memory and the recreated memory in agreement on which bytes are initialized.
pub add-add_block-Mirrors :
    (t t' : TraceMemoryState) (m m' : MemoryState) (a : ℕ) (ds : List ℕ)
    → Related Mirrors t m.allocations
    → a + length ds < word
    → add t a (length ds) ≡ some t'
    → add_block m (mapped_memory_block a ds) ≡ some m'
    → Related Mirrors t' m'.allocations
unfolding add_block
add-add_block-Mirrors t t' m m' a ds r fits et em =
    let (j, u, found, same_t) = add-inv t t' a (length ds) et in
    let ((k, v), g, e1) = >>=-eq-some (get_allocation m (memory_area a (length ds))) _ em in
    let (w, ew, e2) = >>=-eq-some (Allocation.add_block v (mapped_memory_block a ds)) _ e1 in
    let (found', _) = get_allocation_inv m a (length ds) k v g in
    let (keys, mirror) =
      mirrored_entry (floor a t) (floor a m.allocations) j k u v found found'
        (Related-floor Mirrors a t m.allocations r) in
    let after = write_mirrored k a (length ds) u v w mirror (add_block-init v w a ds fits ew) in
    let same_m : assign k w m.allocations ≡ m'.allocations =
      ap (λ x. x.allocations) (some-injective _ _ e2) in
    subst (λ x. Related Mirrors t' x) same_m
      (subst (λ x. Related Mirrors x (assign k w m.allocations)) same_t
        (rw keys (
          Related-assign Mirrors k
            (record u { shadow = write (a - u.address) (replicate (length ds) 0) u.shadow }) w t
            m.allocations after r)))
