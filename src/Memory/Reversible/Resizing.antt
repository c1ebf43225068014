-- ===== src/Memory/Reversible/Resizing.antt =====
-- `allocationResize` with `allocationUnresize`.
use seec.Common.{
  ℕ, ◌+◌, ◌-◌, ◌%◌, ◌≤◌, ◌<◌, ◌≡◌, refl, sym, ap, ◌∙◌, Bool, true, false, Option, some, ◌==◌, ◌>>◌,
  >>=-eq-some, some-injective, length, subst, Bool-cases, inl, inr, assert, arith, ltb,
}
use seec.Common.Slices.{length-read}
use seec.Interval.{word, memory_area}
use seec.Allocation.{MemoryAllocation, clear_area, rewind_area, resize}
use seec.Allocation.Log.{Log, erase_range, undo_range, resize_log, length-resize_cells}
use seec.Allocation.Log.Sizes.{shrink_grow, grow_shrink}
use seec.Allocation.Refine.{Represents}
use seec.Allocation.Refine.Change.{
  Inside, clear_area-Represents, rewind_area-Represents, resize-Represents,
}
use package.seec.Memory.{
  MemoryState, resize_forward, resize_backward, allocation_resize, allocation_unresize,
}
use package.seec.Memory.View.{Shows, MemoryLog, ShowsMemory}
use package.seec.Memory.Reversible.{Reverses, UndoesAt, Reverses-ext}
use package.seec.Memory.Reversible.Locally.{with_allocation-Reverses}
use package.seec.Memory.Reversible.Allocating.{allocation_add-Reverses, allocation_remove-Reverses}

-- A resized allocation shows the resized log.
resize-Shows :
    (k n : ℕ) (v : MemoryAllocation) (l : Log)
    → k + n < word
    → v.address ≡ k
    → Represents v l
    → Shows k (resize v n) (resize_log n l)
unfolding resize
resize-Shows k n v l w here r = record {
  here = here;
  sized = length-resize_cells n l.cells;
  fits = w;
  shown = resize-Represents v n l r;
}

assert_eq :
    (b : Bool) {k : Option MemoryAllocation} {x : MemoryAllocation}
    → (assert b >> k) ≡ some x
    → (b ≡ true) × (k ≡ some x)
assert_eq true e = (refl, e)
assert_eq false e = absurd (cc e)

module _ (a current new k : ℕ) (l : Log) (w : a + current < word) (w' : a + new < word) (lo : k ≤ a)
    (hi : a + current ≤ k + length l.cells) where
  -- A resize to a size that is not smaller only adds blank cells, which the way back cuts off.
  grown :
      (v : MemoryAllocation)
      → Shows k v l
      → v.size ≡ current
      → ltb new current ≡ false
      → (l' : Log) × Shows k (resize v new) l'
        × (a + new ≤ k + length l'.cells)
        × UndoesAt k l l' (resize_backward a new current)
  unfolding resize_backward resize
  grown v r same larger = (
    resize_log new l,
    resize-Shows k new v l (omega arith) r.here r.shown,
    omega (arith, length-resize_cells new l.cells, r.sized),
    λ u ru.
        let fits : (u.size == new) ≡ true =
          ground (arith, ru.sized, length-resize_cells new l.cells) in
        (
          resize u current,
          rw (fits, larger) refl,
          subst (Shows k (resize u current)) (same_log (omega (arith, r.sized)) (ground arith))
              (resize-Shows k current u (resize_log new l) (omega arith) ru.here ru.shown),
        ),
  )
    where
      same_log :
          length l.cells ≡ current → current ≤ new → resize_log current (resize_log new l) ≡ l
      same_log e h = ap (λ cs. record l { cells = cs }) (grow_shrink new current l.cells e h)

  -- The way back from a smaller size: the cells that were cut off are saved in the log.
  regrown :
      length l.cells ≡ current
      → a ≡ k
      → new < current
      → UndoesAt k l
          (resize_log new (erase_range new (current - new) l))
          (resize_backward a new current)
  unfolding resize_backward resize
  regrown full_size at_k lt u ru =
      let fits : (u.size == new) ≡ true =
        ground
          (arith, ru.sized, length-resize_cells new (erase_range new (current - new) l).cells) in
      let smaller : ltb new current ≡ true = ground arith in
      let wrapped : (a + new) % word ≡ a + new = omega arith in
      let there : Inside (resize u current) (a + new) (current - new) = record {
        nonempty = omega arith;
        from = omega (arith, ru.here);
        until = omega (arith, ru.here);
        no_wrap = omega (arith, ru.here);
      } in
      let off : a + new - u.address ≡ new = omega (arith, ru.here) in
      let (z, ez, rz, za, zs) =
        rewind_area-Represents (resize u current) (a + new) (current - new) there
          (resize_log current (resize_log new (erase_range new (current - new) l))) l
          (resize-Represents u current (resize_log new (erase_range new (current - new) l))
            ru.shown)
          (rw off restored) in
      (
        z,
        rw (fits, smaller)
            (subst (λ x. rewind_area (resize u current) (memory_area x (current - new)) ≡ some z)
              (sym wrapped) ez),
        record {
          here = za ∙ ru.here;
          sized = full_size ∙ sym zs;
          fits = omega (arith, zs);
          shown = rz;
        },
      )
    where
      restored :
          undo_range new
            (current - new)
            (resize_log current (resize_log new (erase_range new (current - new) l)))
          ≡ some l
      restored = ground (
        arith,
        length-read new (current - new) l.cells (omega arith),
        shrink_grow new current l.cells full_size (omega arith),
      )

  -- A resize to a smaller size saves the cells that it cuts off, and the way back restores them.
  shrunk :
      (v : MemoryAllocation)
      → Shows k v l
      → v.size ≡ current
      → ltb new current ≡ true
      → 0 < new
      → (c : MemoryAllocation)
      → clear_area v (memory_area ((a + new) % word) (current - new)) ≡ some c
      → (l' : Log) × Shows k (resize c new) l'
        × (a + new ≤ k + length l'.cells)
        × UndoesAt k l l' (resize_backward a new current)
  shrunk v r same smaller positive c ce =
      let lt : new < current = ground arith in
      let at_k : a ≡ k = omega (arith, r.sized) in
      let wrapped : (a + new) % word ≡ a + new = omega arith in
      let there : Inside v (a + new) (current - new) = record {
        nonempty = omega arith;
        from = omega (arith, r.here);
        until = omega (arith, r.here);
        no_wrap = omega (arith, r.here);
      } in
      let (d, de, dr, da, ds) = clear_area-Represents v (a + new) (current - new) there l r.shown in
      let cd : d ≡ c =
        some-injective _ _ (
          sym de ∙ subst (λ x. clear_area v (memory_area x (current - new)) ≡ some c) wrapped ce) in
      let off : a + new - v.address ≡ new = omega (arith, r.here) in
      (
        resize_log new (erase_range new (current - new) l),
        resize-Shows k new c (erase_range new (current - new) l) (omega arith)
            (subst (λ x. x.address ≡ k) cd (da ∙ r.here))
            (subst (λ x. Represents x (erase_range new (current - new) l)) cd
              (subst (λ x. Represents d (erase_range x (current - new) l)) off dr)),
        omega (arith, length-resize_cells new (erase_range new (current - new) l).cells),
        regrown (omega arith) at_k lt,
      )

  -- Either way, `allocationResize` at the allocation is undone.
  resized :
      (v : MemoryAllocation)
      → Shows k v l
      → 0 < new
      → (v' : MemoryAllocation) → resize_forward a current new v ≡ some v'
      → (l' : Log) × Shows k v' l'
        × (a + new ≤ k + length l'.cells)
        × UndoesAt k l l' (resize_backward a new current)
  unfolding resize_forward
  resized v r positive v' e = elim (Bool-cases (ltb new current)) [
    | inl smaller ↦
        let (same, e1) = assert_eq (v.size == current) e in
        let (c, ce, e2) =
          >>=-eq-some (clear_area v (memory_area ((a + new) % word) (current - new))) _
            (rw smaller at e1) in
        subst
          (λ x.
            (l' : Log) × Shows k x l'
            × (a + new ≤ k + length l'.cells)
            × UndoesAt k l l' (resize_backward a new current))
          (some-injective _ _ e2) (shrunk v r (ground arith) smaller positive c ce)
    | inr larger ↦
        let (same, e1) = assert_eq (v.size == current) e in
        subst
          (λ x.
            (l' : Log) × Shows k x l'
            × (a + new ≤ k + length l'.cells)
            × UndoesAt k l l' (resize_backward a new current))
          (some-injective _ _ (rw larger at e1)) (grown v r (ground arith) larger)
  ]

-- `allocationResize`, in all its cases, is undone by `allocationUnresize` with the sizes exchanged.
pub allocation_resize-Reverses :
    (m : MemoryState) (s : MemoryLog) (sh : ShowsMemory m s) (a current new : ℕ)
    → a + current < word
    → a + new < word
    → Reverses s (allocation_resize m a current new) (λ x. allocation_unresize x a new current)
unfolding allocation_resize allocation_unresize
allocation_resize-Reverses m s sh a current new w w' = elim (Bool-cases (current == 0)) [
  | inl none_yet ↦ elim (Bool-cases (new == 0)) [
    | inl none_then ↦
        Reverses-ext s (rw none_yet refl) (λ x. rw (none_then, none_yet) refl)
          (allocation_add-Reverses m s sh a new w')
    | inr some_then ↦
        Reverses-ext s (rw none_yet refl) (λ x. rw (some_then, none_yet) refl)
          (allocation_add-Reverses m s sh a new w')
  ]
  | inr some_yet ↦ elim (Bool-cases (new == 0)) [
    | inl none_then ↦
        Reverses-ext s (rw (some_yet, none_then) refl) (λ x. rw none_then refl)
          (allocation_remove-Reverses m s sh a current)
    | inr some_then ↦
        Reverses-ext s (rw (some_yet, some_then) refl) (λ x. rw (some_then, some_yet) refl)
          (with_allocation-Reverses m s sh a current new (resize_forward a current new)
            (resize_backward a new current) w w'
            (λ k v l r lo hi v' e. resized a current new k l w w' lo hi v r (ground arith) v' e))
  ]
]
