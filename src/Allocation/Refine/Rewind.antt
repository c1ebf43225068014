-- ===== src/Allocation/Refine/Rewind.antt =====
-- `rewindArea` and the cells that the log saved last.
use seec.Common.{
  ℕ, ◌+◌, ◌≤◌, ◌≡◌, refl, sym, ap, ◌∙◌, true, some, List, [], ◌∷◌, ◌++◌, arith, length, replicate,
  length-replicate, length-append, append-nil, leb,
}
use seec.Common.Slices.{write, zip_with, length-write, write-zip_with}
use seec.Allocation.{
  MemoryAllocation, PreviousAreaType, uninitialized, partial, complete, full, back, pop_back,
  last_n, erase_last_n, rewind_as,
}
use seec.Allocation.Log.{Cell, cell, blanks}
use package.seec.Allocation.Refine.{Represents}
use package.seec.Allocation.Refine.Clear.{cleared_cells}
use package.seec.Allocation.Refine.Stacks.{
  Entry, Saved, back-append, pop_back-append, last_n-append, erase_last_n-append,
}

Saved-eq :
    (h : List (ℕ × List Cell)) {ts ts' : List PreviousAreaType} {ds ds' is is' : List ℕ}
    → ts ≡ ts'
    → ds ≡ ds'
    → is ≡ is'
    → Saved h ts' ds' is'
    → Saved h ts ds is
Saved-eq h p q r s = rw (p, q, r) s

enough_saved :
    (n : ℕ) (xs ys zs : List ℕ) → zs ≡ xs ++ ys → length ys ≡ n → leb n (length zs) ≡ true
enough_saved n xs ys zs e h = ground (arith, ap length e, length-append xs ys)

-- What a rewind of the range leaves: the allocation, where it is, and what it represents.
abbrev pub Rewound :
    MemoryAllocation
    → ℕ
    → ℕ
    → List Cell
    → List (ℕ × List Cell)
    → List Cell
    → PreviousAreaType
    → Type 0
Rewound a off n cs h old t =
    (b : MemoryAllocation) × (rewind_as t off n
        (record a { previous_type = pop_back a.previous_type })
      ≡ some b)
    × Represents b (record { cells = write off old cs; history = h })
    × (b.address ≡ a.address)
    × (b.size ≡ a.size)

module _ (a : MemoryAllocation) (off n : ℕ) (cs old : List Cell) (h : List (ℕ × List Cell))
    (r : Represents a (record { cells = cs; history = (off, old) ∷ h })) (fits : off + n ≤ a.size)
    (old_n : length old ≡ n) where
  rewound :
      (t : PreviousAreaType) (ts : List PreviousAreaType) (d ds i is : List ℕ)
      → a.previous_type ≡ ts ++ (t ∷ [])
      → a.previous_data ≡ ds ++ d
      → a.previous_init ≡ is ++ i
      → Entry t d i old
      → Saved h ts ds is
      → Rewound a off n cs h old t
  unfolding rewind_as
  rewound uninitialized ts d ds i is et ed ei (d0, i0, e) s = (
    record a { previous_type = pop_back a.previous_type; init = write off (replicate n 0) a.init },
    refl,
    record {
      bytes_fill = r.bytes_fill;
      init_fill = length-write off (replicate n 0) a.init ∙ r.init_fill;
      cells_shown =
          ap (λ ys. write off ys cs) (e ∙ ap blanks old_n)
          ∙ cleared_cells a (record { cells = cs; history = (off, old) ∷ h }) r off n fits;
      undo_shown =
          Saved-eq h (ap pop_back et ∙ pop_back-append ts uninitialized)
            (ed ∙ ap (◌++◌ ds) d0 ∙ append-nil ds) (ei ∙ ap (◌++◌ is) i0 ∙ append-nil is) s;
    },
    refl,
    refl,
  )
  rewound partial ts d ds i is et ed ei (dn, in', e) s =
      rw
        (
          enough_saved n is i a.previous_init ei (in' ∙ old_n),
          enough_saved n ds d a.previous_data ed (dn ∙ old_n),
        )
        (
          record a {
            previous_type = pop_back a.previous_type;
            init = write off (last_n n a.previous_init) a.init;
            previous_init = erase_last_n n a.previous_init;
            bytes = write off (last_n n a.previous_data) a.bytes;
            previous_data = erase_last_n n a.previous_data;
          },
          refl,
          record {
            bytes_fill = length-write off (last_n n a.previous_data) a.bytes ∙ r.bytes_fill;
            init_fill = length-write off (last_n n a.previous_init) a.init ∙ r.init_fill;
            cells_shown =
                rw (ed, ei, last_n-append n ds d (dn ∙ old_n), last_n-append n is i (in' ∙ old_n))
                  (rw (e, r.cells_shown)
                    (sym (
                      write-zip_with cell off d a.bytes i a.init (dn ∙ sym in')
                        (r.bytes_fill ∙ sym r.init_fill))));
            undo_shown =
                Saved-eq h (ap pop_back et ∙ pop_back-append ts partial)
                  (ap (erase_last_n n) ed ∙ erase_last_n-append n ds d (dn ∙ old_n))
                  (ap (erase_last_n n) ei ∙ erase_last_n-append n is i (in' ∙ old_n)) s;
          },
          refl,
          refl,
        )
  rewound complete ts d ds i is et ed ei (dn, i0, e) s =
      rw (enough_saved n ds d a.previous_data ed (dn ∙ old_n)) (
        record a {
          previous_type = pop_back a.previous_type;
          init = write off (replicate n full) a.init;
          bytes = write off (last_n n a.previous_data) a.bytes;
          previous_data = erase_last_n n a.previous_data;
        },
        refl,
        record {
          bytes_fill = length-write off (last_n n a.previous_data) a.bytes ∙ r.bytes_fill;
          init_fill = length-write off (replicate n full) a.init ∙ r.init_fill;
          cells_shown =
              rw (ed, last_n-append n ds d (dn ∙ old_n))
                (ap (λ ys. write off ys cs) (e ∙ ap (λ k. zip_with cell d (replicate k full)) old_n)
                  ∙ ap (write off (zip_with cell d (replicate n full))) r.cells_shown
                  ∙ sym (
                      write-zip_with cell off d a.bytes (replicate n full) a.init
                        (dn ∙ old_n ∙ sym (length-replicate n full))
                        (r.bytes_fill ∙ sym r.init_fill)));
          undo_shown =
              Saved-eq h (ap pop_back et ∙ pop_back-append ts complete)
                (ap (erase_last_n n) ed ∙ erase_last_n-append n ds d (dn ∙ old_n))
                (ei ∙ ap (◌++◌ is) i0 ∙ append-nil is) s;
        },
        refl,
        refl,
      )

  -- The type stack is not empty, and rewinding as its top says restores the saved cells.
  pub rewind_as-Represents :
      (t : PreviousAreaType) × (back a.previous_type ≡ some t) × Rewound a off n cs h old t
  rewind_as-Represents =
      let (t, ts, d, ds, i, is, et, ed, ei, en, s) = r.undo_shown in
      (t, ap back et ∙ back-append ts t, rewound t ts d ds i is et ed ei en s)
