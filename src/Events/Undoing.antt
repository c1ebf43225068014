-- ===== src/Events/Undoing.antt =====
-- Moving forward and then backward over each kind of event.
use seec.Common.{
  ℕ, ◌+◌, ◌<◌, ◌≡◌, refl, ap, true, false, Option, some, List, ◌∷◌, ◌==◌, arith, >>=-eq-some,
  some-injective, subst, length, ◌>>=◌, ◌>>◌, assert,
}
use seec.Interval.{word, memory_area}
use seec.StdMap.{find, has, insert, erase}
use seec.StdMap.Laws.{
  assign-assign, assign-find, find-assign_self, insert-erase, has-eq_true, find-insert_self,
  erase-insert,
}
use seec.Allocation.{mapped_memory_block}
use seec.Memory.{
  MemoryState, allocation_add, allocation_unadd, allocation_remove, allocation_unremove, add_block,
  remove_block, add_copy, remove_copy, add_clear, remove_clear,
}
use seec.Memory.View.{MemoryLog, ShowsMemory}
use seec.Memory.Reversible.{Reverses}
use seec.Memory.RoundTrips.{Restored, restored}
use seec.Memory.Edits.Observed.{SameRegions}
use seec.Memory.Reversible.Allocating.{allocation_add-Reverses, allocation_remove-Reverses}
use seec.Memory.Reversible.Writing.{add_block-Reverses}
use seec.Memory.Reversible.Clearing.{add_clear-Reverses}
use seec.Memory.Reversible.Copying.{add_copy-Reverses}
use seec.Streams.{StreamState, no_standard_stream, stream_state, write, unwrite}
use seec.Streams.Writes
use seec.Streams.Writes.{unwrite-write}
use seec.Process.{
  ProcessState, MallocState, malloc_state, add_malloc, unadd_malloc, remove_malloc, unremove_malloc,
  get_stream, remove_stream, restore_stream, remove_dir,
}
use seec.Process.Undoing.{
  IsWellFormed, restore_stream-close_stream, remove_stream-add_stream, remove_dir-add_dir,
}
use package.seec.Events.{
  malloc, free, state_untyped, state_memmove, state_clear, file_open, file_write, file_close,
  dir_open, forward_parent, backward_parent, with_memory, write_to,
}

-- The state is `p` again, except that its memory, which shows the log `s` as `p`'s does, may differ
-- in bytes that are not initialized.
abbrev pub Back : ProcessState → MemoryLog → Option ProcessState → Type 0
Back p s result =
    (n : MemoryState) × (result ≡ some (record p { memory = n }))
    × ShowsMemory n s
    × SameRegions n p.memory

module _ (p : ProcessState) (s : MemoryLog) (sh : ShowsMemory p.memory s) (p' : ProcessState) where
  -- An event that changes the memory, after a change `q` of the rest.
  with_memory_back :
      (q : ProcessState) (o : Option MemoryState) (g : MemoryState → Option MemoryState)
      → Reverses s o g
      → with_memory q o ≡ some p'
      → (m : MemoryState) × (record q { memory = m } ≡ p') × Restored p.memory s (g m)
  with_memory_back q o g r e =
      let (m, em, e1) = >>=-eq-some o _ e in
      (m, some-injective _ _ e1, restored p.memory s sh m o g r em)

  -- A malloc of an address that has no allocation.
  pub malloc-Back :
      (a n i t : ℕ)
      → has a p.mallocs ≡ false
      → a + n < word
      → forward_parent (malloc a n i t) p ≡ some p'
      → Back p s (backward_parent (malloc a n i t) p')
  unfolding forward_parent backward_parent add_malloc unadd_malloc
  malloc-Back a n i t fresh w e =
      let (m, same, (k, ek, shk, seen)) =
        with_memory_back (add_malloc p a n i) (allocation_add p.memory a n)
          (λ x. allocation_unadd x a n) (allocation_add-Reverses p.memory s sh a n w) e in
      (
        k,
        subst (λ x. backward_parent (malloc a n i t) x ≡ some (record p { memory = k })) same
            (rw (
              has-eq_true a (malloc_state a n i) (insert a (malloc_state a n i) p.mallocs)
                  (find-insert_self a (malloc_state a n i) p.mallocs fresh),
              erase-insert a (malloc_state a n i) p.mallocs fresh,
              ek,
            )),
        shk,
        seen,
      )

  -- A write of a block.
  pub state_untyped-Back :
      (a : ℕ) (ds : List ℕ) (t : ℕ)
      → a + length ds < word
      → forward_parent (state_untyped a ds t) p ≡ some p'
      → Back p s (backward_parent (state_untyped a ds t) p')
  unfolding forward_parent backward_parent
  state_untyped-Back a ds t w e =
      let (m, same, (k, ek, shk, seen)) =
        with_memory_back p (add_block p.memory (mapped_memory_block a ds))
          (λ x. remove_block x (memory_area a (length ds)))
          (add_block-Reverses p.memory s sh a ds w) e in
      (
        k,
        subst (λ x. backward_parent (state_untyped a ds t) x ≡ some (record p { memory = k })) same
            (rw ek),
        shk,
        seen,
      )

  pub state_memmove-Back :
      (source d n t : ℕ)
      → source + n < word
      → d + n < word
      → forward_parent (state_memmove source d n t) p ≡ some p'
      → Back p s (backward_parent (state_memmove source d n t) p')
  unfolding forward_parent backward_parent
  state_memmove-Back source d n t w w' e =
      let (m, same, (k, ek, shk, seen)) =
        with_memory_back p (add_copy p.memory source d n) (λ x. remove_copy x source d n)
          (add_copy-Reverses p.memory s sh source d n w w') e in
      (
        k,
        subst (λ x. backward_parent (state_memmove source d n t) x ≡ some (record p { memory = k }))
            same (rw ek),
        shk,
        seen,
      )

  pub state_clear-Back :
      (a n t : ℕ)
      → a + n < word
      → forward_parent (state_clear a n t) p ≡ some p'
      → Back p s (backward_parent (state_clear a n t) p')
  unfolding forward_parent backward_parent
  state_clear-Back a n t w e =
      let (m, same, (k, ek, shk, seen)) =
        with_memory_back p (add_clear p.memory (memory_area a n))
          (λ x. remove_clear x (memory_area a n)) (add_clear-Reverses p.memory s sh a n w) e in
      (
        k,
        subst (λ x. backward_parent (state_clear a n t) x ≡ some (record p { memory = k })) same
            (rw ek),
        shk,
        seen,
      )

  -- A free brings back the allocation, with the size that it had.
  pub free-Back :
      (a t : ℕ)
      → IsWellFormed p
      → forward_parent (free a t) p ≡ some p'
      → Back p s (backward_parent (free a t) p')
  unfolding forward_parent backward_parent remove_malloc unremove_malloc
  free-Back a t h e =
      let (v, found, e1) = >>=-eq-some (find a p.mallocs) _ e in
      let back = insert-erase a v 0 p.mallocs h.mallocs_sorted found in
      let (m, same, (k, ek, shk, seen)) =
        with_memory_back
          (record p { previous_mallocs = v ∷ p.previous_mallocs; mallocs = erase a p.mallocs })
          (allocation_remove p.memory a v.size) (λ x. allocation_unremove x a v.size)
          (allocation_remove-Reverses p.memory s sh a v.size) (rw found at e1) in
      (
        k,
        subst (λ x. backward_parent (free a t) x ≡ some (record p { memory = k })) same
            (rw (keyed v found, back, found, ek)),
        shk,
        seen,
      )
    where
      same_eq : (x y : ℕ) → x ≡ y → (x == y) ≡ true
      same_eq x y q = ground (arith, q)

      keyed : (v : MallocState) → find a p.mallocs ≡ some v → (v.address == a) ≡ true
      keyed v found = same_eq v.address a (h.mallocs_keyed a v found)

  -- An event that does not touch the memory.
  unmoved : (o : Option ProcessState) → o ≡ some p → Back p s o
  unmoved o e = (p.memory, e, sh, λ area. (refl, refl))

  pub file_open-Back :
      (file : ℕ) (filename mode : List ℕ) (t : ℕ)
      → has file p.streams ≡ false
      → forward_parent (file_open file filename mode t) p ≡ some p'
      → Back p s (backward_parent (file_open file filename mode t) p')
  unfolding forward_parent backward_parent
  file_open-Back file filename mode t fresh e =
      let opened = stream_state file no_standard_stream filename mode in
      let (_, back) = remove_stream-add_stream p opened fresh in
      unmoved (backward_parent (file_open file filename mode t) p') (
        subst (λ x. some (remove_stream x file).1 ≡ some p) (some-injective _ _ e)
          (ap (λ x. some x.1) back))

  pub file_close-Back :
      (file t : ℕ)
      → IsWellFormed p
      → has file p.streams ≡ true
      → forward_parent (file_close file t) p ≡ some p'
      → Back p s (backward_parent (file_close file t) p')
  unfolding forward_parent backward_parent
  file_close-Back file t h is_open e =
      let (_, back) = restore_stream-close_stream p file h is_open in
      unmoved (backward_parent (file_close file t) p') (
        subst
          (λ x. (let (restored, q) = restore_stream x file in assert restored >> some q) ≡ some p)
          (some-injective _ _ e) (ap (λ x. assert x.0 >> some x.1) back))

  pub dir_open-Back :
      (dir : ℕ) (name : List ℕ) (t : ℕ)
      → has dir p.dirs ≡ false
      → forward_parent (dir_open dir name t) p ≡ some p'
      → Back p s (backward_parent (dir_open dir name t) p')
  unfolding forward_parent backward_parent
  dir_open-Back dir name t fresh e =
      let (_, back) = remove_dir-add_dir p (record { dir_address = dir; dirname = name }) fresh in
      unmoved (backward_parent (dir_open dir name t) p') (
        subst (λ x. some (remove_dir x dir).1 ≡ some p) (some-injective _ _ e)
          (ap (λ x. some x.1) back))

  pub file_write-Back :
      (file : ℕ) (ds : List ℕ) (t : ℕ) (v : StreamState)
      → get_stream p file ≡ some v
      → Writes.IsWellFormed v
      → forward_parent (file_write file ds t) p ≡ some p'
      → Back p s (backward_parent (file_write file ds t) p')
  unfolding forward_parent backward_parent get_stream
  file_write-Back file ds t v found h e = unmoved (backward_parent (file_write file ds t) p') (
      subst
        (λ x.
          (find file x.streams >>= λ y. unwrite y (length ds) >>= λ u. some (write_to x file u))
          ≡ some p)
        (some-injective _ _ (rw found at e))
        (rw (
          find-assign_self file (write v ds) v p.streams found,
          unwrite-write v ds h,
          assign-assign file v (write v ds) p.streams,
          assign-find file v p.streams found,
        )))
