-- ===== src/Memory/Reversible.antt =====
-- When an operation on a memory is undone by another, as far as the log of cells goes.
pub mod Locally
pub mod Allocating
pub mod Resizing
pub mod Writing
pub mod Clearing
pub mod Copying
use seec.Common.{◌≡◌, sym, ◌∙◌, Option, some}
use seec.Allocation.{MemoryAllocation}
use seec.Allocation.Log.{Log}
use seec.Common.{ℕ}
use package.seec.Memory.{MemoryState}
use package.seec.Memory.View.{Shows, MemoryLog, ShowsMemory}

-- From any memory that shows the later log, `backward` succeeds and gives one that shows the
-- earlier log.
abbrev pub Undoes : MemoryLog → MemoryLog → (MemoryState → Option MemoryState) → Type 0
Undoes s s' backward =
    (n : MemoryState)
    → ShowsMemory n s'
    → (n' : MemoryState) × (backward n ≡ some n') × ShowsMemory n' s

-- If the operation succeeds, its result shows some log, from which `backward` leads back.
abbrev pub Reverses : MemoryLog → Option MemoryState → (MemoryState → Option MemoryState) → Type 0
Reverses s result backward =
    (m' : MemoryState)
    → result ≡ some m'
    → (s' : MemoryLog) × ShowsMemory m' s' × Undoes s s' backward

-- The same for the mutation of one allocation.
abbrev pub UndoesAt : ℕ → Log → Log → (MemoryAllocation → Option MemoryAllocation) → Type 0
UndoesAt k l l' backward =
    (v : MemoryAllocation)
    → Shows k v l'
    → (w : MemoryAllocation) × (backward v ≡ some w) × Shows k w l

-- Reversal depends on what the two operations return.
pub Reverses-ext :
    (s : MemoryLog) {o o' : Option MemoryState} {g g' : MemoryState → Option MemoryState}
    → o' ≡ o
    → ((x : MemoryState) → g' x ≡ g x)
    → Reverses s o g
    → Reverses s o' g'
Reverses-ext s oe ge r m' e =
    let (s', sh, back) = r m' (sym oe ∙ e) in
    (s', sh, λ n shn. let (n', en, shn') = back n shn in (n', ge n ∙ en, shn'))
