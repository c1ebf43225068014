-- ===== src/Allocation/Refine/Change.antt =====
-- The operations of an allocation on areas inside it, with their abstract counterparts.
use seec.Common.{
  Bool, ℕ, zero, subst, some-injective, ◌+◌, ◌-◌, ◌≤◌, ◌<◌, ◌≡◌, refl, sym, ap, ap₂, ◌∙◌, true,
  Option, some, List, [], ◌∷◌, ◌++◌, ◌==◌, not, arith, length, replicate, take, min,
  length-replicate, length-take, length-append, Bool-cases, inl, inr,
}
use seec.Common.Slices.{
  read, write, zip_with, length-write, write-zip_with, length-zip_with, write-write, take-zip_with,
  append-zip_with, replicate-zip_with,
}
use seec.Interval.{word, memory_area, area_length}
use seec.Interval.Bounds.{length-with_start_length, contains_interval_of_bounds}
use seec.Allocation.{
  MemoryAllocation, PreviousAreaType, uninitialized, partial, complete, full, is_inside, clear_area,
  clear_as, area_type, add_block, mapped_memory_block, add_area, rewind_area, resize, resize_vector,
}
use seec.Allocation.Log.{
  Log, Cell, blank, cell, blanks, erase_range, put_range, undo_range, undo_top, resize_cells,
  resize_log,
}
use package.seec.Allocation.Refine.{Represents}
use package.seec.Allocation.Refine.Clear.{clear_as-Represents}
use package.seec.Allocation.Refine.Rewind.{rewind_as-Represents}

-- The area of `n` bytes from address `b` on is not empty and lies inside the allocation, which
-- does not reach the end of the address space.
pub record Inside (a : MemoryAllocation) (b n : ℕ) : Type 0 where
  pub nonempty : 0 < n
  pub from : a.address ≤ b
  pub until : b + n ≤ a.address + a.size
  pub no_wrap : a.address + a.size < word

-- An operation succeeds, leaves the allocation where it is, and leaves it representing `l`.
abbrev pub Becomes : MemoryAllocation → Option MemoryAllocation → Log → Type 0
Becomes a result l =
    (b : MemoryAllocation) × (result ≡ some b)
    × Represents b l
    × (b.address ≡ a.address)
    × (b.size ≡ a.size)

clear_as_place :
    (a : MemoryAllocation) (off n : ℕ) (t : PreviousAreaType)
    → ((clear_as t off n a).address ≡ a.address) × ((clear_as t off n a).size ≡ a.size)
unfolding clear_as
clear_as_place a off n uninitialized = (refl, refl)
clear_as_place a off n partial = (refl, refl)
clear_as_place a off n complete = (refl, refl)

undo_top_inv :
    (off n o : ℕ) (cs old : List Cell) (h : List (ℕ × List Cell)) (l' : Log)
    → undo_top off n cs ((o, old) ∷ h) ≡ some l'
    → (o ≡ off) × (length old ≡ n) × (record { cells = write off old cs; history = h } ≡ l')
undo_top_inv off n o cs old h l' u = (ground arith, ground arith, ground arith)

-- `clearArea` asserts that the area is not empty.
pub clear_area-nonempty :
    (a : MemoryAllocation) (b n : ℕ) (c : MemoryAllocation)
    → b + n < word
    → clear_area a (memory_area b n) ≡ some c
    → 0 < n
unfolding clear_area
clear_area-nonempty a b n c w e = elim (Bool-cases (is_inside a (memory_area b n))) [
  | inr outside ↦ absurd (cc (rw outside at e))
  | inl inside ↦ elim (Bool-cases (area_length (memory_area b n) == 0)) [
    | inl empty ↦ absurd (cc (rw (inside, empty) at e))
    | inr sized ↦
        let long : area_length (memory_area b n) ≡ n = length-with_start_length b n w in
        ground arith
  ]
]

length-resize_vector : (n : ℕ) (xs : List ℕ) → length (resize_vector n xs) ≡ n
length-resize_vector n xs = omega (
  arith,
  length-append (take n xs) (replicate (n - length xs) 0),
  length-take n xs,
  length-replicate (n - length xs) zero,
)

module _ (a : MemoryAllocation) (b n : ℕ) (h : Inside a b n) where
  pub Inside-is_inside : is_inside a (memory_area b n) ≡ true
  Inside-is_inside =
      contains_interval_of_bounds a.address a.size b n h.no_wrap (omega arith) h.from h.until

  pub Inside-area_length : area_length (memory_area b n) ≡ n
  Inside-area_length = length-with_start_length b n (omega arith)

  pub Inside-nonempty : not (n == 0) ≡ true
  Inside-nonempty = ground arith

  -- `clearArea` of a nonempty area inside an allocation that represents a log succeeds, and the
  -- result represents the log with the range saved and blanked.
  pub clear_area-Represents :
      (l : Log)
      → Represents a l
      → Becomes a (clear_area a (memory_area b n)) (erase_range (b - a.address) n l)
  unfolding clear_area
  clear_area-Represents l r =
      rw (Inside-area_length, Inside-is_inside, Inside-nonempty)
        (
          clear_as (area_type (read (b - a.address) n a.init)) (b - a.address) n a,
          refl,
          clear_as-Represents a l r (b - a.address) n (omega arith),
          (clear_as_place a (b - a.address) n (area_type (read (b - a.address) n a.init))).0,
          (clear_as_place a (b - a.address) n (area_type (read (b - a.address) n a.init))).1,
        )

  -- New bytes and initialization on top of a cleared range make it a range with new cells.
  put-Represents :
      (c : MemoryAllocation) (l : Log) (ds is : List ℕ) (off : ℕ)
      → off ≡ b - a.address
      → Represents c (erase_range (b - a.address) n l)
      → length ds ≡ n
      → length is ≡ n
      → Represents
          (record c { bytes = write off ds c.bytes; init = write off is c.init })
          (put_range (b - a.address) (zip_with cell ds is) l)
  put-Represents c l ds is off e r dn in' = record {
    bytes_fill = length-write off ds c.bytes ∙ r.bytes_fill;
    init_fill = length-write off is c.init ∙ r.init_fill;
    cells_shown = rw e (
        sym (
          write-write (b - a.address) (zip_with cell ds is) (blanks n) l.cells
            (put_n ∙ sym (length-replicate n blank)))
        ∙ ap (write (b - a.address) (zip_with cell ds is)) r.cells_shown
        ∙ sym (
            write-zip_with cell (b - a.address) ds c.bytes is c.init (dn ∙ sym in')
              (r.bytes_fill ∙ sym r.init_fill)));
    undo_shown = rw put_n r.undo_shown;
  }
    where
      put_n : length (zip_with cell ds is) ≡ n
      put_n = length-zip_with cell ds is (dn ∙ sym in') ∙ dn

  -- `addBlock` of a nonempty block inside an allocation that represents a log succeeds, and the
  -- result represents the log with the range saved and the block's bytes there, all initialized.
  pub add_block-Represents :
      (l : Log) (ds : List ℕ)
      → length ds ≡ n
      → Represents a l
      → Becomes a
          (add_block a (mapped_memory_block b ds))
          (put_range (b - a.address) (zip_with cell ds (replicate n full)) l)
  unfolding add_block
  add_block-Represents l ds dn r =
      let (c, ce, cr, ca, cs) = clear_area-Represents l r in
      rw (dn, ce, Inside-area_length)
        (
          record c {
            bytes = write (b - c.address) ds c.bytes;
            init = write (b - c.address) (replicate n full) c.init;
          },
          refl,
          put-Represents c l ds (replicate n full) (b - c.address) (ap (◌-◌ b) ca) cr dn
              (length-replicate n full),
          ca,
          cs,
        )

  -- `addArea` of references that lead elsewhere succeeds: it saves the range, and makes it what the references lead to once the
  -- range is cleared (the second one also once the bytes are copied).
  pub add_area-Represents :
      (l : Log) (data_view init_view : MemoryAllocation → List ℕ) (data_apart init_apart : ℕ → Bool)
      (c : MemoryAllocation)
      → Represents a l
      → data_apart b ≡ true
      → init_apart b ≡ true
      → clear_area a (memory_area b n) ≡ some c
      → length (data_view c) ≡ n
      → length (init_view (record c { bytes = write (b - c.address) (data_view c) c.bytes })) ≡ n
      → Becomes a
          (add_area a b
            (record { count = n; view = data_view; apart = data_apart })
            (record { count = n; view = init_view; apart = init_apart }))
          (put_range
            (b - a.address)
            (zip_with cell
              (data_view c)
              (init_view (record c { bytes = write (b - c.address) (data_view c) c.bytes })))
            l)
  unfolding add_area
  add_area-Represents l dv iv da' ia' c r apart_d apart_i ce dn in' =
      let (d, de, dr, da, ds) = clear_area-Represents l r in
      let same : d ≡ c = some-injective _ _ (sym de ∙ ce) in
      let copied : MemoryAllocation = record c { bytes = write (b - c.address) (dv c) c.bytes } in
      rw (ce, apart_d, apart_i)
        (
          record copied { init = write (b - c.address) (iv copied) c.init },
          ground arith,
          put-Represents c l (dv c) (iv (record c { bytes = write (b - c.address) (dv c) c.bytes }))
              (b - c.address) (ap (◌-◌ b) (ap (λ x. x.address) (sym same) ∙ da))
              (subst (λ x. Represents x (erase_range (b - a.address) n l)) same dr) dn in',
          ap (λ x. x.address) (sym same) ∙ da,
          ap (λ x. x.size) (sym same) ∙ ds,
        )

  rewind_history :
      (cs : List Cell) (hist : List (ℕ × List Cell)) (l' : Log)
      → Represents a (record { cells = cs; history = hist })
      → undo_top (b - a.address) n cs hist ≡ some l'
      → Becomes a (rewind_area a (memory_area b n)) l'
  unfolding rewind_area
  rewind_history cs [] l' r u = absurd (cc u)
  rewind_history cs ((o, old) ∷ hist) l' r u =
      let (eo, en, el) = undo_top_inv (b - a.address) n o cs old hist l' u in
      let (t, et, out) =
        rewind_as-Represents a (b - a.address) n cs old hist
          (subst (λ k. Represents a (record { cells = cs; history = (k, old) ∷ hist })) eo r)
          (omega arith) en in
      let (c, ec, rc, ca, cs') = out in
      rw (Inside-area_length, Inside-is_inside, Inside-nonempty, et)
        (c, ec, subst (Represents c) el rc, ca, cs')

  -- `rewindArea` succeeds where the log can undo the range, and undoes it.
  pub rewind_area-Represents :
      (l l' : Log)
      → Represents a l
      → undo_range (b - a.address) n l ≡ some l'
      → Becomes a (rewind_area a (memory_area b n)) l'
  rewind_area-Represents l l' r u = rewind_history l.cells l.history l' r u

resize-cells :
    (n : ℕ) (ds is : List ℕ)
    → length ds ≡ length is
    → resize_cells n (zip_with cell ds is) ≡ zip_with cell (resize_vector n ds) (resize_vector n is)
resize-cells n ds is h =
    rw (length-zip_with cell ds is h, ← h)
      (sym (
        append-zip_with cell (take n ds) (replicate (n - length ds) 0) (take n is)
          (replicate (n - length ds) 0) (length-take n ds ∙ ap (min n) h ∙ sym (length-take n is))
        ∙ ap₂ ◌++◌ (sym (take-zip_with cell n ds is))
            (replicate-zip_with cell (n - length ds) 0 0)))

-- The `resize` of an allocation that represents a log represents the log with its cells cut, or
-- extended by blank ones.
pub resize-Represents :
    (a : MemoryAllocation) (n : ℕ) (l : Log)
    → Represents a l
    → Represents (resize a n) (resize_log n l)
unfolding resize
resize-Represents a n l r = record {
  bytes_fill = length-resize_vector n a.bytes;
  init_fill = length-resize_vector n a.init;
  cells_shown =
      ap (resize_cells n) r.cells_shown
      ∙ resize-cells n a.bytes a.init (r.bytes_fill ∙ sym r.init_fill);
  undo_shown = r.undo_shown;
}
