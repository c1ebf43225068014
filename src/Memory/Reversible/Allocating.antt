-- ===== src/Memory/Reversible/Allocating.antt =====
-- `allocationAdd` with `allocationUnadd`, and `allocationRemove` with `allocationUnremove`.
use seec.Common.{
  ℕ, zero, ◌+◌, ◌<◌, ◌≡◌, refl, sym, ◌∙◌, Bool, true, false, not, Option, none, some, List, [], ◌∷◌,
  ◌==◌, ◌>>◌, >>=-eq-some, some-injective, subst, Bool-cases, inl, inr, assert, arith,
  length-replicate,
}
use seec.Common.Slices.{replicate-zip_with}
use seec.Interval.{word}
use seec.StdMap.{has, find, insert, erase}
use seec.StdMap.Laws.{
  insert-Above, erase-Above, find-insert_self, find-erase_self, erase-insert, insert-erase,
}
use seec.StdMap.Related.{
  Related, RelatedOption, Related-find, Related-has, Related-insert, Related-erase,
}
use seec.Allocation.{MemoryAllocation, allocation}
use seec.Allocation.Log.{Log, blank, cell, empty_log}
use package.seec.Memory.{
  MemoryState, allocation_add, allocation_unadd, allocation_remove, allocation_unremove,
  unremove_top,
}
use package.seec.Memory.View.{Shows, MemoryLog, ShowsMemory, ShowsRemoved}
use package.seec.Memory.Reversible.{Reverses}

-- A new allocation shows a log of blank cells, with nothing to undo.
pub allocation-Shows : (a n : ℕ) → a + n < word → Shows a (allocation a n) (empty_log n)
allocation-Shows a n w = record {
  here = refl;
  sized = length-replicate n blank;
  fits = w;
  shown = record {
    bytes_fill = length-replicate n zero;
    init_fill = length-replicate n zero;
    cells_shown = sym (replicate-zip_with cell n 0 0);
    undo_shown = (refl, refl, refl);
  };
}

-- The option is a value that shows the log, where the other one is a log.
pub RelatedOption-log :
    (k : ℕ) (o : Option MemoryAllocation) (p : Option Log) (l : Log)
    → p ≡ some l
    → RelatedOption Shows k o p
    → (v : MemoryAllocation) × (o ≡ some v) × Shows k v l
RelatedOption-log k none none l e r = absurd (cc e)
RelatedOption-log k none (some d) l e r = absurd r
RelatedOption-log k (some u) none l e r = absurd r
RelatedOption-log k (some u) (some d) l e r = (u, refl, subst (Shows k u) (some-injective _ _ e) r)

pub RelatedOption-value :
    (k : ℕ) (o : Option MemoryAllocation) (p : Option Log) (v : MemoryAllocation)
    → o ≡ some v
    → RelatedOption Shows k o p
    → (l : Log) × (p ≡ some l) × Shows k v l
RelatedOption-value k none none v e r = absurd (cc e)
RelatedOption-value k none (some d) v e r = absurd r
RelatedOption-value k (some u) none v e r = absurd r
RelatedOption-value k (some u) (some d) v e r =
    (d, refl, subst (λ x. Shows k x d) (some-injective _ _ e) r)

module _ (m : MemoryState) (s : MemoryLog) (sh : ShowsMemory m s) (a n : ℕ) where
  -- An operation of size 0 does nothing, and neither does what undoes it.
  nothing_done :
      (o : Option MemoryState) (g : MemoryState → Option MemoryState)
      → o ≡ some m
      → ((x : MemoryState) → g x ≡ some x)
      → Reverses s o g
  nothing_done o g oe ge m' e = (
    s,
    subst (λ x. ShowsMemory x s) (some-injective _ _ (sym oe ∙ e)) sh,
    λ x shx. (x, ge x, shx),
  )

  pub allocation_add-Reverses :
      a + n < word → Reverses s (allocation_add m a n) (λ x. allocation_unadd x a n)
  unfolding allocation_add allocation_unadd
  allocation_add-Reverses w = elim (Bool-cases (n == 0)) [
    | inl empty ↦
        nothing_done (allocation_add m a n) (λ x. allocation_unadd x a n) (rw empty refl)
          (λ x. rw empty refl)
    | inr sized ↦ added sized
  ]
    where
      s_new : MemoryLog
      s_new = record s { blocks = insert a (empty_log n) s.blocks }

      fresh_or_fail :
          (b : Bool) {k : Option MemoryState} {x : MemoryState}
          → (assert (not b) >> k) ≡ some x
          → (b ≡ false) × (k ≡ some x)
      fresh_or_fail true e = absurd (cc e)
      fresh_or_fail false e = (refl, e)

      added : (n == 0) ≡ false → Reverses s (allocation_add m a n) (λ x. allocation_unadd x a n)
      added sized m' e =
          let (fresh, e1) = fresh_or_fail (has a m.allocations) (rw sized at e) in
          let fresh_s = sym (Related-has Shows a m.allocations s.blocks sh.current) ∙ fresh in
          (
            s_new,
            subst (λ x. ShowsMemory x s_new) (some-injective _ _ e1)
                (record {
                  sorted = insert-Above a (empty_log n) 0 s.blocks (omega arith) sh.sorted;
                  current =
                      Related-insert Shows a (allocation a n) (empty_log n) m.allocations s.blocks
                        (allocation-Shows a n w) sh.current;
                  past = sh.past;
                }),
            λ x shx.
                let (u, eu, _) =
                  RelatedOption-log a (find a x.allocations) (find a s_new.blocks) (empty_log n)
                    (find-insert_self a (empty_log n) s.blocks fresh_s)
                    (Related-find Shows a x.allocations s_new.blocks shx.current) in
                (
                  record x { allocations = erase a x.allocations },
                  rw (sized, eu) refl,
                  record {
                    sorted = sh.sorted;
                    current =
                        subst (Related Shows (erase a x.allocations))
                          (erase-insert a (empty_log n) s.blocks fresh_s)
                          (Related-erase Shows a x.allocations s_new.blocks shx.current);
                    past = shx.past;
                  },
                ),
          )

  pub allocation_remove-Reverses :
      Reverses s (allocation_remove m a n) (λ x. allocation_unremove x a n)
  unfolding allocation_remove allocation_unremove
  allocation_remove-Reverses = elim (Bool-cases (n == 0)) [
    | inl empty ↦
        nothing_done (allocation_remove m a n) (λ x. allocation_unremove x a n) (rw empty refl)
          (λ x. rw empty refl)
    | inr sized ↦ removed sized
  ]
    where
      back_on_top :
          (l : Log) (x : MemoryState) (prev : List MemoryAllocation)
          → find a s.blocks ≡ some l
          → Related Shows x.allocations (erase a s.blocks)
          → ShowsRemoved prev ((a, l) ∷ s.removed)
          → (y : MemoryState) × (unremove_top x a prev ≡ some y) × ShowsMemory y s
      back_on_top l x [] fl cur past = absurd past
      back_on_top l x (top ∷ rest) fl cur (r, past) =
          let gone : has a x.allocations ≡ false =
            Related-has Shows a x.allocations (erase a s.blocks) cur
            ∙ find-erase_self a 0 s.blocks sh.sorted in
          (
            record { allocations = insert a top x.allocations; previous_allocations = rest },
            rw (r.here, gone) (ground arith),
            record {
              sorted = sh.sorted;
              current =
                  subst (Related Shows (insert a top x.allocations))
                    (insert-erase a l 0 s.blocks sh.sorted fl)
                    (Related-insert Shows a top l x.allocations (erase a s.blocks) r cur);
              past = past;
            },
          )

      removed :
          (n == 0) ≡ false → Reverses s (allocation_remove m a n) (λ x. allocation_unremove x a n)
      removed sized m' e =
          let (v, fv, e1) = >>=-eq-some (find a m.allocations) _ (rw sized at e) in
          let (l, fl, r) =
            RelatedOption-value a (find a m.allocations) (find a s.blocks) v fv
              (Related-find Shows a m.allocations s.blocks sh.current) in
          let s' : MemoryLog = record { blocks = erase a s.blocks; removed = (a, l) ∷ s.removed } in
          (
            s',
            subst (λ x. ShowsMemory x s') (some-injective _ _ e1)
                (record {
                  sorted = erase-Above a 0 s.blocks sh.sorted;
                  current = Related-erase Shows a m.allocations s.blocks sh.current;
                  past = (r, sh.past);
                }),
            λ x shx. rw sized (back_on_top l x x.previous_allocations fl shx.current shx.past),
          )
