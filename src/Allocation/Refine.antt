-- ===== src/Allocation/Refine.antt =====
-- When an allocation, with its three undo stacks, represents a log of cells.
pub mod Stacks
pub mod Clear
pub mod Rewind
pub mod Change
pub mod Inversion
use seec.Common.{ℕ, ◌+◌, ◌<◌, ◌≡◌, List, length}
use seec.Common.Slices.{zip_with}
use seec.Interval.{word}
use seec.Allocation.{MemoryAllocation}
use seec.Allocation.Log.{Log, cell}
use Stacks.{Saved}

pub record Represents (a : MemoryAllocation) (l : Log) : Type 0 where
  pub bytes_fill : length a.bytes ≡ a.size
  pub init_fill : length a.init ≡ a.size
  pub cells_shown : l.cells ≡ zip_with cell a.bytes a.init
  pub undo_shown : Saved l.history a.previous_type a.previous_data a.previous_init
