-- ===== src/Memory/Edits.antt =====
-- Sequences of the changes that the events of a trace make to memory, and moving backward through
-- them.
pub mod Observed
use seec.Common.{
  ℕ, ◌+◌, ◌<◌, ◌≡◌, refl, Option, none, some, List, [], ◌∷◌, ◌>>=◌, >>=-eq-some, some-injective,
  length, subst,
}
use seec.Interval.{word, memory_area}
use seec.Allocation.{mapped_memory_block}
use package.seec.Memory.{
  MemoryState, allocation_add, allocation_unadd, allocation_remove, allocation_unremove,
  allocation_resize, allocation_unresize, add_block, remove_block, add_copy, remove_copy, add_clear,
  remove_clear,
}
use package.seec.Memory.View.{MemoryLog, ShowsMemory}
use package.seec.Memory.Reversible.{Undoes, Reverses}
use package.seec.Memory.Reversible.Allocating.{allocation_add-Reverses, allocation_remove-Reverses}
use package.seec.Memory.Reversible.Resizing.{allocation_resize-Reverses}
use package.seec.Memory.Reversible.Writing.{add_block-Reverses}
use package.seec.Memory.Reversible.Clearing.{add_clear-Reverses}
use package.seec.Memory.Reversible.Copying.{add_copy-Reverses}

-- One constructor for each forward mutator, with its arguments.
pub data Edit : Type 0 where
  adds removes clears : ℕ → ℕ → Edit
  resizes copies : ℕ → ℕ → ℕ → Edit
  blocks : ℕ → List ℕ → Edit

abbrev pub forward : Edit → MemoryState → Option MemoryState
forward (adds a n) m = allocation_add m a n
forward (removes a n) m = allocation_remove m a n
forward (clears a n) m = add_clear m (memory_area a n)
forward (resizes a current new) m = allocation_resize m a current new
forward (copies source d n) m = add_copy m source d n
forward (blocks a ds) m = add_block m (mapped_memory_block a ds)

abbrev pub backward : Edit → MemoryState → Option MemoryState
backward (adds a n) m = allocation_unadd m a n
backward (removes a n) m = allocation_unremove m a n
backward (clears a n) m = remove_clear m (memory_area a n)
backward (resizes a current new) m = allocation_unresize m a new current
backward (copies source d n) m = remove_copy m source d n
backward (blocks a ds) m = remove_block m (memory_area a (length ds))

-- The areas that the change names end before the end of the address space.
abbrev pub InRange : Edit → Type 0
InRange (adds a n) = a + n < word
InRange (removes a n) = Unit {0}
InRange (clears a n) = a + n < word
InRange (resizes a current new) = (a + current < word) × (a + new < word)
InRange (copies source d n) = (source + n < word) × (d + n < word)
InRange (blocks a ds) = a + length ds < word

abbrev pub AllInRange : List Edit → Type 0
AllInRange [] = Unit {0}
AllInRange (e ∷ es) = InRange e × AllInRange es

abbrev pub run_forward : List Edit → MemoryState → Option MemoryState
run_forward [] m = some m
run_forward (e ∷ es) m = forward e m >>= run_forward es

-- The last change is undone first.
abbrev pub run_backward : List Edit → MemoryState → Option MemoryState
run_backward [] m = some m
run_backward (e ∷ es) m = run_backward es m >>= backward e

-- Each change that succeeds is undone by its backward mutator.
pub forward-Reverses :
    (e : Edit) (m : MemoryState) (s : MemoryLog)
    → ShowsMemory m s
    → InRange e
    → Reverses s (forward e m) (backward e)
forward-Reverses (adds a n) m s sh w = allocation_add-Reverses m s sh a n w
forward-Reverses (removes a n) m s sh w = allocation_remove-Reverses m s sh a n
forward-Reverses (clears a n) m s sh w = add_clear-Reverses m s sh a n w
forward-Reverses (resizes a current new) m s sh (w, w') =
    allocation_resize-Reverses m s sh a current new w w'
forward-Reverses (copies source d n) m s sh (w, w') = add_copy-Reverses m s sh source d n w w'
forward-Reverses (blocks a ds) m s sh w = add_block-Reverses m s sh a ds w

-- Any sequence of changes that succeeds is undone by going back through it.
pub run_forward-Reverses :
    (es : List Edit) (m : MemoryState) (s : MemoryLog)
    → ShowsMemory m s
    → AllInRange es
    → Reverses s (run_forward es m) (run_backward es)
run_forward-Reverses [] m s sh w m' e =
    (s, subst (λ x. ShowsMemory x s) (some-injective _ _ e) sh, λ n shn. (n, refl, shn))
run_forward-Reverses (d ∷ es) m s sh (w, ws) m' e =
    let (m1, e1, e2) = >>=-eq-some (forward d m) _ e in
    let (s1, sh1, back1) = forward-Reverses d m s sh w m1 e1 in
    let (s2, sh2, back2) = run_forward-Reverses es m1 s1 sh1 ws m' e2 in
    (
      s2,
      sh2,
      λ n shn.
          let (n1, en1, shn1) = back2 n shn in
          let (n2, en2, shn2) = back1 n1 shn1 in (n2, rw en1 en2, shn2),
    )
