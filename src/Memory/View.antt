-- ===== src/Memory/View.antt =====
-- The abstract memory: a log of cells for each allocation, and the logs of the removed ones.
use seec.Common.{ℕ, ◌+◌, ◌<◌, ◌≡◌, List, [], ◌∷◌, length}
use seec.Interval.{word}
use seec.StdMap.{Map, Above}
use seec.StdMap.Related.{Related}
use seec.Allocation.{MemoryAllocation}
use seec.Allocation.Log.{Log}
use seec.Allocation.Refine.{Represents}
use package.seec.Memory.{MemoryState}

-- The allocation stands at address `k`, does not reach the end of the address space, and
-- represents the log.
pub record Shows (k : ℕ) (a : MemoryAllocation) (l : Log) : Type 0 where
  pub here : a.address ≡ k
  pub sized : length l.cells ≡ a.size
  pub fits : k + a.size < word
  pub shown : Represents a l

pub record MemoryLog : Type 0 where
  pub blocks : Map Log
  pub removed : List (ℕ × Log)

-- The stack of removed allocations, entry by entry.
abbrev pub ShowsRemoved : List MemoryAllocation → List (ℕ × Log) → Type 0
ShowsRemoved [] [] = Unit
ShowsRemoved [] (e ∷ s) = ⊥
ShowsRemoved (a ∷ m) [] = ⊥
ShowsRemoved (a ∷ m) ((k, l) ∷ s) = Shows k a l × ShowsRemoved m s

pub record ShowsMemory (m : MemoryState) (s : MemoryLog) : Type 0 where
  pub sorted : Above 0 s.blocks
  pub current : Related Shows m.allocations s.blocks
  pub past : ShowsRemoved m.previous_allocations s.removed
