-- ===== src/Allocation/Log.antt =====
-- The abstract allocation: what each byte holds, and a log of the ranges that were saved.
pub mod Sizes
use seec.Common.{
  ℕ, ◌+◌, ◌-◌, ◌≤◌, ◌≡◌, Option, none, some, List, [], ◌∷◌, ◌++◌, ◌==◌, ◌&&◌, if◌then◌else◌, length,
  take, replicate, arith, length-replicate, length-append, length-take,
}
use seec.Common.Slices.{read, write, length-read, write-write, write-read}

-- A byte with no initialized bit, or a byte with its value and its initialization.
pub data Cell : Type 0 where
  blank : Cell
  known : ℕ → ℕ → Cell

abbrev pub cell : ℕ → ℕ → Cell
cell d i = if i == 0 then blank else known d i

pub record Log : Type 0 where
  pub cells : List Cell
  pub history : List (ℕ × List Cell)

abbrev pub blanks : ℕ → List Cell
blanks n = replicate n blank

abbrev pub empty_log : ℕ → Log
empty_log n = record { cells = blanks n; history = [] }

-- Save the `n` cells from `off` on, and blank them.
abbrev pub erase_range : ℕ → ℕ → Log → Log
erase_range off n l = record {
  cells = write off (blanks n) l.cells;
  history = (off, read off n l.cells) ∷ l.history;
}

-- Save a range, and put new cells there.
abbrev pub put_range : ℕ → List Cell → Log → Log
put_range off ys l = record {
  cells = write off ys l.cells;
  history = (off, read off (length ys) l.cells) ∷ l.history;
}

-- Put back the cells that were saved last, which must be those of this range.
abbrev pub undo_top : ℕ → ℕ → List Cell → List (ℕ × List Cell) → Option Log
undo_top off n cs [] = none
undo_top off n cs ((o, ys) ∷ h) =
    if (o == off) && (length ys == n)
    then some (record { cells = write off ys cs; history = h })
    else none

abbrev pub undo_range : ℕ → ℕ → Log → Option Log
undo_range off n l = undo_top off n l.cells l.history

-- Cut the cells, or extend them by blank ones.
abbrev pub resize_cells : ℕ → List Cell → List Cell
resize_cells n cs = take n cs ++ blanks (n - length cs)

abbrev pub resize_log : ℕ → Log → Log
resize_log n l = record l { cells = resize_cells n l.cells }

-- Undoing the last change of a range gives back the whole log.
pub undo_range-put_range :
    (off : ℕ) (ys : List Cell) (l : Log)
    → off + length ys ≤ length l.cells
    → undo_range off (length ys) (put_range off ys l) ≡ some l
undo_range-put_range off ys l h = ground (
  arith,
  length-read off (length ys) l.cells h,
  write-write off (read off (length ys) l.cells) ys l.cells,
  write-read off (length ys) l.cells,
)

pub undo_range-erase_range :
    (off n : ℕ) (l : Log)
    → off + n ≤ length l.cells
    → undo_range off n (erase_range off n l) ≡ some l
undo_range-erase_range off n l h = ground (
  arith,
  length-read off n l.cells h,
  length-replicate n blank,
  write-write off (read off n l.cells) (blanks n) l.cells,
  write-read off n l.cells,
)

pub length-resize_cells : (n : ℕ) (cs : List Cell) → length (resize_cells n cs) ≡ n
length-resize_cells n cs = omega (
  arith,
  length-append (take n cs) (blanks (n - length cs)),
  length-take n cs,
  length-replicate (n - length cs) blank,
)
