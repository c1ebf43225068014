-- ===== src/Allocation/Refine/Clear.antt =====
-- `clearArea` and the log, by the type of the area.
use seec.Common.{
  ℕ, ◌+◌, ◌≤◌, ◌≡◌, refl, sym, ap, ◌∙◌, true, [], arith, length, replicate, length-replicate,
  Bool-cases, inl, inr, append-nil,
}
use seec.Common.Slices.{
  read, write, zip_with, length-read, length-write, write-read, read-zip_with, write-zip_with,
  length-zip_with,
}
use seec.Allocation.{
  MemoryAllocation, uninitialized, partial, complete, full, all_clear, all_complete, area_type,
  clear_as,
}
use seec.Allocation.Log.{Log, cell, blanks, erase_range}
use package.seec.Allocation.Refine.{Represents}
use package.seec.Allocation.Refine.Stacks.{zip_with-all_clear, all_clear-replicate, all_complete-eq}

module _ (a : MemoryAllocation) (l : Log) (r : Represents a l) (off n : ℕ)
    (h : off + n ≤ a.size) where
  pub read-cells : read off n l.cells ≡ zip_with cell (read off n a.bytes) (read off n a.init)
  read-cells = rw r.cells_shown (read-zip_with cell off n a.bytes a.init)

  pub length-read_bytes : length (read off n a.bytes) ≡ n
  length-read_bytes = length-read off n a.bytes (omega (arith, r.bytes_fill))

  pub length-read_init : length (read off n a.init) ≡ n
  length-read_init = length-read off n a.init (omega (arith, r.init_fill))

  pub length-read_cells : length (read off n l.cells) ≡ n
  length-read_cells = rw read-cells (
      omega (
        arith,
        length-zip_with cell (read off n a.bytes) (read off n a.init),
        length-read_bytes,
        length-read_init,
      ))

  zip_with-zeros : zip_with cell (read off n a.bytes) (replicate n 0) ≡ blanks n
  zip_with-zeros =
      zip_with-all_clear (read off n a.bytes) (replicate n 0)
        (length-read_bytes ∙ sym (length-replicate n 0)) (all_clear-replicate n)
      ∙ ap blanks (length-replicate n 0)

  -- The cells once the initialization of the range is set to zero.
  pub cleared_cells :
      write off (blanks n) l.cells ≡ zip_with cell a.bytes (write off (replicate n 0) a.init)
  cleared_cells =
      rw (r.cells_shown, ← zip_with-zeros)
        (sym (
            write-zip_with cell off (read off n a.bytes) a.bytes (replicate n 0) a.init
              (length-read_bytes ∙ sym (length-replicate n 0)) (r.bytes_fill ∙ sym r.init_fill))
          ∙ ap (λ bs. zip_with cell bs (write off (replicate n 0) a.init))
              (write-read off n a.bytes))

  uninitialized_entry :
      all_clear (read off n a.init) ≡ true
      → Represents (clear_as uninitialized off n a) (erase_range off n l)
  unfolding clear_as
  uninitialized_entry e = record {
    bytes_fill = r.bytes_fill;
    init_fill = r.init_fill;
    cells_shown =
        ap (λ cs. write off cs l.cells) (sym read_blank) ∙ write-read off n l.cells ∙ r.cells_shown;
    undo_shown = (
      uninitialized,
      a.previous_type,
      [],
      a.previous_data,
      [],
      a.previous_init,
      refl,
      sym (append-nil a.previous_data),
      sym (append-nil a.previous_init),
      (refl, refl, read_blank ∙ ap blanks (sym length-read_cells)),
      r.undo_shown,
    );
  }
    where
      read_blank : read off n l.cells ≡ blanks n
      read_blank =
          read-cells
          ∙ zip_with-all_clear (read off n a.bytes) (read off n a.init)
              (length-read_bytes ∙ sym length-read_init) e
          ∙ ap blanks length-read_init

  partial_entry : Represents (clear_as partial off n a) (erase_range off n l)
  unfolding clear_as
  partial_entry = record {
    bytes_fill = r.bytes_fill;
    init_fill = length-write off (replicate n 0) a.init ∙ r.init_fill;
    cells_shown = cleared_cells;
    undo_shown = (
      partial,
      a.previous_type,
      read off n a.bytes,
      a.previous_data,
      read off n a.init,
      a.previous_init,
      refl,
      refl,
      refl,
      (
        length-read_bytes ∙ sym length-read_cells,
        length-read_init ∙ sym length-read_cells,
        read-cells,
      ),
      r.undo_shown,
    );
  }

  complete_entry :
      all_complete (read off n a.init) ≡ true
      → Represents (clear_as complete off n a) (erase_range off n l)
  unfolding clear_as
  complete_entry e = record {
    bytes_fill = r.bytes_fill;
    init_fill = length-write off (replicate n 0) a.init ∙ r.init_fill;
    cells_shown = cleared_cells;
    undo_shown = (
      complete,
      a.previous_type,
      read off n a.bytes,
      a.previous_data,
      [],
      a.previous_init,
      refl,
      refl,
      sym (append-nil a.previous_init),
      (length-read_bytes ∙ sym length-read_cells, refl, read_full),
      r.undo_shown,
    );
  }
    where
      read_full :
          read off n l.cells
          ≡ zip_with cell (read off n a.bytes) (replicate (length (read off n l.cells)) full)
      read_full = rw length-read_cells (
          read-cells
          ∙ ap (zip_with cell (read off n a.bytes))
              (all_complete-eq (read off n a.init) e ∙ ap (λ k. replicate k full) length-read_init))

  -- Whatever type the code gives to the range, clearing it is `erase_range` on the log.
  pub clear_as-Represents :
      Represents (clear_as (area_type (read off n a.init)) off n a) (erase_range off n l)
  unfolding area_type
  clear_as-Represents = elim (Bool-cases (all_clear (read off n a.init))) [
    | inl none_set ↦ rw none_set (uninitialized_entry none_set)
    | inr some_set ↦ elim (Bool-cases (all_complete (read off n a.init))) [
      | inl all_set ↦ rw (some_set, all_set) (complete_entry all_set)
      | inr mixed ↦ rw (some_set, mixed) partial_entry
    ]
  ]
