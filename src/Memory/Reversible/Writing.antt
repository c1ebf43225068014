-- ===== src/Memory/Reversible/Writing.antt =====
-- `addBlock`, `addClear` and their undoing.
use seec.Common.{
  ℕ, ◌+◌, ◌-◌, ◌≤◌, ◌<◌, ◌≡◌, refl, sym, ◌∙◌, Option, some, List, >>=-eq-some, some-injective,
  length, subst, arith, replicate, length-replicate,
}
use seec.Common.Slices.{length-write, zip_with, length-zip_with}
use seec.Interval.{word, memory_area}
use seec.Allocation
use seec.Allocation.{
  MemoryAllocation, clear_area, rewind_area, mapped_memory_block, full, is_inside,
}
use seec.Allocation.Log.{
  Log, Cell, cell, blanks, erase_range, put_range, undo_range, undo_range-put_range,
  undo_range-erase_range,
}
use seec.Allocation.Refine.{Represents}
use seec.Allocation.Refine.Change.{
  Inside, Becomes, add_block-Represents, rewind_area-Represents, clear_area-nonempty,
}
use package.seec.Memory.{MemoryState, add_block, remove_block}
use package.seec.Memory.View.{Shows, MemoryLog, ShowsMemory}
use package.seec.Memory.Reversible.{Reverses, UndoesAt}
use package.seec.Memory.Reversible.Locally.{with_allocation-Reverses}

module _ (k b n : ℕ) (v : MemoryAllocation) (l : Log) (r : Shows k v l) (lo : k ≤ b)
    (hi : b + n ≤ k + length l.cells) (positive : 0 < n) where
  pub Shows-Inside : Inside v b n
  Shows-Inside = record {
    nonempty = positive;
    from = omega (arith, r.here);
    until = omega (arith, r.here, r.sized);
    no_wrap = omega (arith, r.here, r.fits);
  }

-- Where the log can undo a range, `rewindArea` does so in every allocation that shows the log.
rewind-UndoesAt :
    (k b n : ℕ) (l l' : Log)
    → k ≤ b
    → b + n ≤ k + length l'.cells
    → 0 < n
    → length l.cells ≡ length l'.cells
    → undo_range (b - k) n l' ≡ some l
    → UndoesAt k l l' (λ v. rewind_area v (memory_area b n))
rewind-UndoesAt k b n l l' lo hi positive same undo v r =
    let (w, we, wr, wa, ws) =
      rewind_area-Represents v b n (Shows-Inside k b n v l' r lo hi positive) l' l r.shown
        (rw r.here undo) in
    (
      w,
      we,
      record {
        here = wa ∙ r.here;
        sized = same ∙ r.sized ∙ sym ws;
        fits = omega (arith, ws, r.fits);
        shown = wr;
      },
    )

module _ (k b n : ℕ) (v : MemoryAllocation) (l : Log) (r : Shows k v l) (lo : k ≤ b)
    (hi : b + n ≤ k + length l.cells) (positive : 0 < n) where
  -- A range that got new cells, in an allocation that shows the log.
  pub put-UndoesAt :
      (ys : List Cell) (result : Option MemoryAllocation)
      → length ys ≡ n
      → Becomes v result (put_range (b - v.address) ys l)
      → (v' : MemoryAllocation) → result ≡ some v'
      → Shows k v' (put_range (b - k) ys l)
        × (b + n ≤ k + length (put_range (b - k) ys l).cells)
        × UndoesAt k l (put_range (b - k) ys l) (λ x. rewind_area x (memory_area b n))
  put-UndoesAt ys result yn (c, ce, cr, ca, cs) v' e =
      let same : c ≡ v' = some-injective _ _ (sym ce ∙ e) in
      let long = length-write (b - k) ys l.cells in
      (
        subst (λ x. Shows k x (put_range (b - k) ys l)) same
            (record {
              here = ca ∙ r.here;
              sized = long ∙ r.sized ∙ sym cs;
              fits = omega (arith, cs, r.fits);
              shown = subst (λ x. Represents c (put_range (b - x) ys l)) r.here cr;
            }),
        omega (arith, long),
        rewind-UndoesAt k b n l (put_range (b - k) ys l) lo (omega (arith, long)) positive
            (sym long)
            (subst (λ x. undo_range (b - k) x (put_range (b - k) ys l) ≡ some l) yn
              (undo_range-put_range (b - k) ys l (omega arith))),
      )

  pub erase-UndoesAt :
      (result : Option MemoryAllocation)
      → Becomes v result (erase_range (b - v.address) n l)
      → (v' : MemoryAllocation) → result ≡ some v'
      → Shows k v' (erase_range (b - k) n l)
        × (b + n ≤ k + length (erase_range (b - k) n l).cells)
        × UndoesAt k l (erase_range (b - k) n l) (λ x. rewind_area x (memory_area b n))
  erase-UndoesAt result (c, ce, cr, ca, cs) v' e =
      let same : c ≡ v' = some-injective _ _ (sym ce ∙ e) in
      let long = length-write (b - k) (blanks n) l.cells in
      (
        subst (λ x. Shows k x (erase_range (b - k) n l)) same
            (record {
              here = ca ∙ r.here;
              sized = long ∙ r.sized ∙ sym cs;
              fits = omega (arith, cs, r.fits);
              shown = subst (λ x. Represents c (erase_range (b - x) n l)) r.here cr;
            }),
        omega (arith, long),
        rewind-UndoesAt k b n l (erase_range (b - k) n l) lo (omega (arith, long)) positive
            (sym long) (undo_range-erase_range (b - k) n l (omega arith)),
      )

-- The cells of a block: its bytes, all of them completely initialized.
abbrev pub block_cells : List ℕ → List Cell
block_cells ds = zip_with cell ds (replicate (length ds) full)

pub length-block_cells : (ds : List ℕ) → length (block_cells ds) ≡ length ds
length-block_cells ds =
    length-zip_with cell ds (replicate (length ds) full) (sym (length-replicate (length ds) full))

add_block-nonempty :
    (v : MemoryAllocation) (b : ℕ) (ds : List ℕ) (v' : MemoryAllocation)
    → b + length ds < word
    → Allocation.add_block v (mapped_memory_block b ds) ≡ some v'
    → 0 < length ds
unfolding Allocation.add_block
add_block-nonempty v b ds v' w e =
    let (c, ce, _) = >>=-eq-some (clear_area v (memory_area b (length ds))) _ e in
    clear_area-nonempty v b (length ds) c w ce

module _ (m : MemoryState) (s : MemoryLog) (sh : ShowsMemory m s) (a : ℕ) where
  -- `addBlock` is undone by `removeBlock` of its area.
  pub add_block-Reverses :
      (ds : List ℕ)
      → a + length ds < word
      → Reverses s
          (add_block m (mapped_memory_block a ds))
          (λ x. remove_block x (memory_area a (length ds)))
  unfolding add_block remove_block
  add_block-Reverses ds w =
      with_allocation-Reverses m s sh a (length ds) (length ds)
        (λ v. Allocation.add_block v (mapped_memory_block a ds))
        (λ v. rewind_area v (memory_area a (length ds))) w w
        (λ k v l r lo hi v' e.
          let positive = add_block-nonempty v a ds v' w e in
          let (shows, inside, undo) =
            put-UndoesAt k a (length ds) v l r lo hi positive (block_cells ds)
              (Allocation.add_block v (mapped_memory_block a ds)) (length-block_cells ds)
              (add_block-Represents v a (length ds)
                (Shows-Inside k a (length ds) v l r lo hi positive) l ds refl r.shown)
              v' e in
          (put_range (a - k) (block_cells ds) l, shows, inside, undo))
