-- ===== src/Memory/Reversible/Clearing.antt =====
-- `addClear` with `removeClear`.
use seec.Common.{
  ℕ, ◌+◌, ◌-◌, ◌≤◌, ◌<◌, ◌≡◌, refl, sym, ◌∙◌, true, some, >>=-eq-some, some-injective, length,
  subst, Bool-cases, Option-cases, inl, inr, is_empty,
}
use seec.Interval.{word, memory_area}
use seec.StdMap.{floor}
use seec.Allocation.{MemoryAllocation, clear_area, rewind_area, is_inside}
use seec.Allocation.Log.{Log, erase_range}
use seec.Allocation.Refine.Change.{clear_area-Represents, clear_area-nonempty}
use package.seec.Memory.{
  MemoryState, with_allocation, add_clear, remove_clear, where_allocated, get_allocation,
}
use package.seec.Memory.View.{MemoryLog, ShowsMemory}
use package.seec.Memory.Lookup.{
  floor-Below, floor-Below_back, Shows-is_inside, Shows-is_inside_of, get_allocation_inv,
  floor-nonempty, entry_inv,
}
use package.seec.Memory.Reversible.{Undoes, Reverses}
use package.seec.Memory.Reversible.Locally.{changed_at}
use package.seec.Memory.Reversible.Writing.{Shows-Inside, erase-UndoesAt}

-- The test for an empty map is covered by the lookup, which finds nothing there.
add_clear_lem :
    (m : MemoryState) (a n : ℕ)
    → add_clear m (memory_area a n)
      ≡ where_allocated m
          (memory_area a n)
          (λ v. clear_area v (memory_area a n))
          (floor a m.allocations)
unfolding add_clear
add_clear_lem m a n = elim (Option-cases (floor a m.allocations)) [
  | inl e ↦ elim (Bool-cases (is_empty m.allocations)) [
    | inl nothing ↦ rw (nothing, e) refl
    | inr more ↦ rw more refl
  ]
  | inr ((k, v), e) ↦ rw (floor-nonempty a m.allocations k v e) refl
]

remove_clear_lem :
    (m : MemoryState) (a n : ℕ)
    → remove_clear m (memory_area a n)
      ≡ where_allocated m
          (memory_area a n)
          (λ v. rewind_area v (memory_area a n))
          (floor a m.allocations)
unfolding remove_clear
remove_clear_lem m a n = elim (Option-cases (floor a m.allocations)) [
  | inl e ↦ elim (Bool-cases (is_empty m.allocations)) [
    | inl nothing ↦ rw (nothing, e) refl
    | inr more ↦ rw more refl
  ]
  | inr ((k, v), e) ↦ rw (floor-nonempty a m.allocations k v e) refl
]

module _ (m : MemoryState) (s : MemoryLog) (sh : ShowsMemory m s) (a n : ℕ) (w : a + n < word) where
  -- Where the log has no allocation around the area, `removeClear` does nothing.
  remove_nothing :
      ((k : ℕ) (l : Log)
        → floor a s.blocks ≡ some (k, l)
        → ¬ ((k ≤ a) × (a + n ≤ k + length l.cells)))
      → Undoes s s (λ x. remove_clear x (memory_area a n))
  remove_nothing out x shx = (x, remove_clear_lem x a n ∙ unchanged, shx)
    where
      unchanged :
          where_allocated x
            (memory_area a n)
            (λ v. rewind_area v (memory_area a n))
            (floor a x.allocations)
          ≡ some x
      unchanged = elim (Option-cases (floor a x.allocations)) [
        | inl e ↦ rw e refl
        | inr ((k, v), e) ↦
            let (l, b) = floor-Below x s shx a k v e in
            elim (Bool-cases (is_inside v (memory_area a n))) [
              | inl inside ↦ absurd (out k l b.1 (Shows-is_inside k v l b.2 a n w inside))
              | inr outside ↦ rw (e, outside) refl
            ]
      ]

  -- Where `getAllocation` finds the area, `removeClear` rewinds it there.
  remove_clear_of :
      (x z : MemoryState)
      → with_allocation x (memory_area a n) (λ v. rewind_area v (memory_area a n)) ≡ some z
      → remove_clear x (memory_area a n) ≡ some z
  remove_clear_of x z e =
      let ((k, v), ge, e1) = >>=-eq-some (get_allocation x (memory_area a n)) _ e in
      let (found, inside) = get_allocation_inv x a n k v ge in
      remove_clear_lem x a n ∙ rw (found, inside) e1

  -- An area that no allocation contains is left alone.
  left_alone :
      (m' : MemoryState)
      → add_clear m (memory_area a n) ≡ some m
      → ((k : ℕ) (l : Log)
          → floor a s.blocks ≡ some (k, l)
          → ¬ ((k ≤ a) × (a + n ≤ k + length l.cells)))
      → add_clear m (memory_area a n) ≡ some m'
      → (s' : MemoryLog) × ShowsMemory m' s' × Undoes s s' (λ x. remove_clear x (memory_area a n))
  left_alone m' same out e =
      (s, subst (λ x. ShowsMemory x s) (some-injective _ _ (sym same ∙ e)) sh, remove_nothing out)

  cleared :
      (k : ℕ) (v : MemoryAllocation)
      → floor a m.allocations ≡ some (k, v)
      → is_inside v (memory_area a n) ≡ true
      → Reverses s (add_clear m (memory_area a n)) (λ x. remove_clear x (memory_area a n))
  cleared k v found inside m' e =
      let (l, b) = floor-Below m s sh a k v found in
      let (lo, hi) = Shows-is_inside k v l b.2 a n w inside in
      let step = rw (found, inside) at (sym (add_clear_lem m a n) ∙ e) in
      let (c, ce, e1) = >>=-eq-some (clear_area v (memory_area a n)) _ step in
      let positive = clear_area-nonempty v a n c w ce in
      let (r, hi', undo) =
        erase-UndoesAt k a n v l b.2 lo hi positive (clear_area v (memory_area a n))
          (clear_area-Represents v a n (Shows-Inside k a n v l b.2 lo hi positive) l b.2.shown) c
          ce in
      let (s', sh', back) =
        changed_at m s sh a n k l (erase_range (a - k) n l) c (λ x. rewind_area x (memory_area a n))
          w b.1 lo hi' r undo in
      (
        s',
        subst (λ x. ShowsMemory x s') (some-injective _ _ e1) sh',
        λ x shx. let (z, ez, shz) = back x shx in (z, remove_clear_of x z ez, shz),
      )

  -- `addClear` is undone by `removeClear`.
  pub add_clear-Reverses :
      Reverses s (add_clear m (memory_area a n)) (λ x. remove_clear x (memory_area a n))
  add_clear-Reverses m' e = elim (Option-cases (floor a m.allocations)) [
    | inl nothing ↦
        left_alone m' (add_clear_lem m a n ∙ rw nothing refl)
          (λ k l fl _.
            let (v, b) = floor-Below_back m s sh a k l fl in absurd (cc (sym nothing ∙ b.0)))
          e
    | inr ((k, v), found) ↦ elim (Bool-cases (is_inside v (memory_area a n))) [
      | inl inside ↦ cleared k v found inside m' e
      | inr outside ↦
          left_alone m' (add_clear_lem m a n ∙ rw (found, outside) refl)
            (λ j l fl (lo, hi).
              let (u, b) = floor-Below_back m s sh a j l fl in
              let (_, same) = entry_inv (sym b.0 ∙ found) in
              absurd (
                cc (
                  sym outside
                  ∙ subst (λ x. is_inside x (memory_area a n) ≡ true) same
                      (Shows-is_inside_of j u l b.2 a n w lo hi))))
            e
    ]
  ]
