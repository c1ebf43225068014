-- ===== src/Process/Undoing.antt =====
-- Each change of the process state, and the method that undoes it.
use seec.Common.{
  ℕ, ◌≡◌, refl, sym, ap, ◌∙◌, Bool, true, false, not, none, some, [], ◌∷◌, ◌==◌, arith, >>=-eq-some,
  some-injective, Option-cases, inl, inr, subst,
}
use seec.StdMap.{Map, find, has, insert, Above}
use seec.StdMap.Laws.{erase-insert, insert-erase, has-eq_true, find-insert_self}
use seec.Streams.{StreamState, DirState}
use package.seec.Process.{
  MallocState, ProcessState, malloc_state, add_malloc, unadd_malloc, remove_malloc, unremove_malloc,
  add_stream, remove_stream, close_stream, restore_stream, add_dir, remove_dir,
}

-- The maps are in order, and each entry stands at its own address.
pub record IsWellFormed (p : ProcessState) : Type 0 where
  pub mallocs_sorted : Above 0 p.mallocs
  pub mallocs_keyed : (a : ℕ) (s : MallocState) → find a p.mallocs ≡ some s → s.address ≡ a
  pub streams_sorted : Above 0 p.streams
  pub streams_keyed : (a : ℕ) (s : StreamState) → find a p.streams ≡ some s → s.address ≡ a

same_eq : (a b : ℕ) → a ≡ b → (a == b) ≡ true
same_eq a b e = ground (arith, e)

-- An allocation that was added at a free address is unadded to the same state.
pub unadd_malloc-add_malloc :
    (p : ProcessState) (a n i : ℕ)
    → has a p.mallocs ≡ false
    → unadd_malloc (add_malloc p a n i) a ≡ some p
unfolding unadd_malloc add_malloc
unadd_malloc-add_malloc p a n i h = rw (
  has-eq_true a (malloc_state a n i) (insert a (malloc_state a n i) p.mallocs)
      (find-insert_self a (malloc_state a n i) p.mallocs h),
  erase-insert a (malloc_state a n i) p.mallocs h,
)

-- In a well-formed state, an allocation that was removed is unremoved to the same state.
unremove_malloc-remove_malloc :
    (p : ProcessState) (a : ℕ) (p' : ProcessState)
    → IsWellFormed p
    → remove_malloc p a ≡ some p'
    → unremove_malloc p' a ≡ some p
unfolding remove_malloc unremove_malloc
unremove_malloc-remove_malloc p a p' h e =
    let (s, found, e1) = >>=-eq-some (find a p.mallocs) _ e in
    subst (λ x. unremove_malloc x a ≡ some p) (some-injective _ _ e1)
      (rw (
        same_eq s.address a (h.mallocs_keyed a s found),
        insert-erase a s 0 p.mallocs h.mallocs_sorted found,
      ))

-- In a well-formed state, closing a stream that is open reports success, and restoring it does
-- too and gives back the state.
pub restore_stream-close_stream :
    (p : ProcessState) (a : ℕ)
    → IsWellFormed p
    → has a p.streams ≡ true
    → ((close_stream p a).0 ≡ true) × (restore_stream (close_stream p a).1 a ≡ (true, p))
unfolding close_stream restore_stream
restore_stream-close_stream p a h is_open = elim (Option-cases (find a p.streams)) [
  | inl missing ↦ absurd (clash (sym is_open ∙ has_none p.streams missing))
  | inr (s, found) ↦ rw found (
    refl,
    rw (
      same_eq s.address a (h.streams_keyed a s found),
      insert-erase a s 0 p.streams h.streams_sorted found,
    ),
  )
]
  where
    clash : ◌≡◌ {A = Bool} true false → ⊥
    clash e = cc e

    has_none : (m : Map StreamState) → find a m ≡ none → has a m ≡ false
    has_none [] e = refl
    has_none ((j, w) ∷ m) e = ground (arith, has_none m)

-- A stream whose address is free is added with success, and removing it gives back the state.
pub remove_stream-add_stream :
    (p : ProcessState) (s : StreamState)
    → has s.address p.streams ≡ false
    → ((add_stream p s).0 ≡ true) × (remove_stream (add_stream p s).1 s.address ≡ (true, p))
unfolding add_stream remove_stream
remove_stream-add_stream p s h = (
  ap not h,
  rw (
    has-eq_true s.address s (insert s.address s p.streams)
        (find-insert_self s.address s p.streams h),
    erase-insert s.address s p.streams h,
  ),
)

-- A directory whose address is free is added with success, and removing it gives back the state.
pub remove_dir-add_dir :
    (p : ProcessState) (d : DirState)
    → has d.dir_address p.dirs ≡ false
    → ((add_dir p d).0 ≡ true) × (remove_dir (add_dir p d).1 d.dir_address ≡ (true, p))
unfolding add_dir remove_dir
remove_dir-add_dir p d h = (
  ap not h,
  rw (
    has-eq_true d.dir_address d (insert d.dir_address d p.dirs)
        (find-insert_self d.dir_address d p.dirs h),
    erase-insert d.dir_address d p.dirs h,
  ),
)
