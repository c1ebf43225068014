-- ===== src/Memory/Reversible/Copying.antt =====
-- `addCopy` with `removeCopy`.
use seec.Common.{
  ℕ, ◌+◌, ◌-◌, ◌≤◌, ◌<◌, ◌≡◌, refl, sym, ap, ◌∙◌, Bool, true, false, some, List, ◌==◌, >>=-eq-some,
  some-injective, length, leb, ◌||◌, assert, subst, Bool-cases, inl, inr, arith, if◌then◌else◌,
}
use seec.Common.Slices.{read, write, length-read, zip_with, length-zip_with}
use seec.Interval.{word, memory_area}
use seec.Interval.Bounds.{length-with_start_length}
use seec.StdMap.{find, assign}
use seec.StdMap.Floor.{floor-find}
use seec.Allocation.{
  MemoryAllocation, ArrayRef, copy_data, add_area, clear_area, rewind_area, get_area_data,
  get_area_initialization,
}
use seec.Allocation.Log.{Log, cell, put_range}
use seec.Allocation.Refine.Change.{
  Inside, clear_area-Represents, add_area-Represents, clear_area-nonempty,
}
use package.seec.Memory.{MemoryState, get_allocation, add_copy, remove_copy, source_ref}
use package.seec.Memory.View.{Shows, MemoryLog, ShowsMemory}
use package.seec.Memory.Lookup.{Below, get_allocation-Below}
use package.seec.Memory.Reversible.{Reverses, UndoesAt}
use package.seec.Memory.Reversible.Locally.{changed_at}
use package.seec.Memory.Reversible.Writing.{Shows-Inside, put-UndoesAt}

-- A reference to `n` elements of the source, with the length written out.
abbrev pub ref : (MemoryAllocation → List ℕ) → Bool → MemoryAllocation → ℕ → ℕ → ArrayRef
ref vector same sa source n = record {
  count = n;
  view = λ changed. read (source - sa.address) n (vector (if same then changed else sa));
  apart = λ to. if same then leb (source + n) to || leb (to + n) source else true;
}

add_area-clear :
    (da v : MemoryAllocation) (d : ℕ) (r q : ArrayRef)
    → add_area da d r q ≡ some v
    → (c : MemoryAllocation) × (clear_area da (memory_area d r.count) ≡ some c)
unfolding add_area
add_area-clear da v d r q e = elim (Bool-cases (r.count == q.count)) [
  | inl same ↦
      let (c, ce, _) = >>=-eq-some (clear_area da (memory_area d r.count)) _ (rw same at e) in
      (c, ce)
  | inr other ↦ absurd (cc (rw other at e))
]

asserted : (b : Bool) {u : Unit {0}} → assert b ≡ some u → b ≡ true
asserted true e = refl
asserted false e = absurd (cc e)

-- The references of an `addArea` that succeeds lead elsewhere.
pub add_area-apart :
    (da v : MemoryAllocation) (d : ℕ) (r q : ArrayRef)
    → add_area da d r q ≡ some v
    → (r.apart d ≡ true) × (q.apart d ≡ true)
unfolding add_area
add_area-apart da v d r q e =
    let (_, _, e1) = >>=-eq-some (assert (r.count == q.count)) _ e in
    let (c, _, e2) = >>=-eq-some (clear_area da (memory_area d r.count)) _ e1 in
    let (b, eb, e3) = >>=-eq-some (copy_data d r c) _ e2 in
    let (_, first, _) = >>=-eq-some (assert (r.apart d)) _ eb in
    let (_, second, _) = >>=-eq-some (assert (q.apart d)) _ e3 in
    (asserted (r.apart d) first, asserted (q.apart d) second)

-- What a successful `addCopy` found and did.
abbrev pub Copied : MemoryState → ℕ → ℕ → ℕ → MemoryState → Type 0
Copied m source d n m' =
    (ks : ℕ) × (sa : MemoryAllocation) × (kd : ℕ) × (da : MemoryAllocation) × (v : MemoryAllocation)
    × (get_allocation m (memory_area source n) ≡ some (ks, sa))
    × (get_allocation m (memory_area d n) ≡ some (kd, da))
    × (add_area da d (ref (λ c. c.bytes) (ks == kd) sa source n)
          (ref (λ c. c.init) (ks == kd) sa source n)
        ≡ some v)
    × (record m { allocations = assign kd v m.allocations } ≡ m')

pub add_copy-Copied :
    (m : MemoryState) (source d n : ℕ) (m' : MemoryState)
    → source + n < word
    → add_copy m source d n ≡ some m'
    → Copied m source d n m'
unfolding add_copy
add_copy-Copied m source d n m' w e =
    let ((ks, sa), gs, e1) = >>=-eq-some (get_allocation m (memory_area source n)) _ e in
    let ((kd, da), gd, e2) = >>=-eq-some (get_allocation m (memory_area d n)) _ e1 in
    let (_, _, e3) = >>=-eq-some (get_area_data sa (memory_area source n)) _ e2 in
    let (_, _, e4) = >>=-eq-some (get_area_initialization sa (memory_area source n)) _ e3 in
    let (v, ae, e5) =
      >>=-eq-some
        (add_area da d (source_ref (λ c. c.bytes) (ks == kd) sa (memory_area source n))
          (source_ref (λ c. c.init) (ks == kd) sa (memory_area source n)))
        _ e4 in
    (
      ks,
      sa,
      kd,
      da,
      v,
      gs,
      gd,
      subst
          (λ k.
            add_area da d (ref (λ c. c.bytes) (ks == kd) sa source k)
              (ref (λ c. c.init) (ks == kd) sa source k)
            ≡ some v)
          (length-with_start_length source n w) ae,
      some-injective _ _ e5,
    )

vector_long :
    (same : Bool) (vector : MemoryAllocation → List ℕ) (k : ℕ) (sa c : MemoryAllocation)
    → k ≤ (if same then c else sa).size
    → length (vector c) ≡ c.size
    → length (vector sa) ≡ sa.size
    → k ≤ length (vector (if same then c else sa))
vector_long true vector k sa c h p q = omega arith
vector_long false vector k sa c h p q = omega arith

same_size :
    (same : Bool) (sa c c' : MemoryAllocation) {k : ℕ}
    → c.size ≡ c'.size
    → k ≤ (if same then c else sa).size
    → k ≤ (if same then c' else sa).size
same_size true sa c c' e h = omega arith
same_size false sa c c' e h = h

-- A cleared allocation has its vectors filled, at its old size.
cleared_fill :
    (da c : MemoryAllocation) (l : Log) {d n k : ℕ}
    → Inside da d n
    → Shows k da l
    → clear_area da (memory_area d n) ≡ some c
    → (length c.bytes ≡ c.size) × (length c.init ≡ c.size) × (c.size ≡ da.size)
cleared_fill da c l {d} {n} there r ce =
    let (x, xe, xr, xa, xs) = clear_area-Represents da d n there l r.shown in
    let same : x ≡ c = some-injective _ _ (sym xe ∙ ce) in
    (
      subst (λ y. length y.bytes ≡ y.size) same xr.bytes_fill,
      subst (λ y. length y.init ≡ y.size) same xr.init_fill,
      subst (λ y. y.size ≡ da.size) same xs,
    )

module _ (m : MemoryState) (s : MemoryLog) (sh : ShowsMemory m s) (source d n : ℕ)
    (w : source + n < word) (w' : d + n < word) where
  -- The source range lies inside the vector that the reference leads to.
  source_inside :
      (ks kd : ℕ) (sa da c : MemoryAllocation) (ls ld : Log)
      → Below m s source ks sa ls
      → Below m s d kd da ld
      → ks ≤ source
      → source + n ≤ ks + length ls.cells
      → c.size ≡ da.size
      → source - sa.address + n ≤ (if ks == kd then c else sa).size
  source_inside ks kd sa da c ls ld bs bd lo hi cs = elim (Bool-cases (ks == kd)) [
    | inr other ↦ rw other (omega (arith, bs.2.here, bs.2.sized))
    | inl same ↦
        let ls_found = (floor-find source 0 s.blocks ks ls sh.sorted bs.1).0 in
        let ld_found = (floor-find d 0 s.blocks kd ld sh.sorted bd.1).0 in
        let keys : ks ≡ kd = ground arith in
        let logs : ls ≡ ld =
          some-injective _ _
            (sym ls_found ∙ subst (λ k. find k s.blocks ≡ some ld) (sym keys) ld_found) in
        let sizes : length ls.cells ≡ length ld.cells = ap (λ l. length l.cells) logs in
        rw same (omega (arith, sizes, cs, bs.2.here, bs.2.sized, bd.2.sized))
  ]

  -- The destination after the copy, and its way back.
  copied_at :
      (same : Bool) (sa da c v : MemoryAllocation) (kd : ℕ) (ld : Log)
      → Shows kd da ld
      → kd ≤ d
      → d + n ≤ kd + length ld.cells
      → clear_area da (memory_area d n) ≡ some c
      → (c.size ≡ da.size → source - sa.address + n ≤ (if same then c else sa).size)
      → length sa.bytes ≡ sa.size
      → length sa.init ≡ sa.size
      → add_area da d (ref (λ x. x.bytes) same sa source n) (ref (λ x. x.init) same sa source n)
        ≡ some v
      → (l' : Log) × Shows kd v l'
        × (d + n ≤ kd + length l'.cells)
        × UndoesAt kd ld l' (λ x. rewind_area x (memory_area d n))
  copied_at same sa da c v kd ld r lo hi ce inside sb si ae =
      let (apart_d, apart_i) =
        add_area-apart da v d (ref (λ x. x.bytes) same sa source n)
          (ref (λ x. x.init) same sa source n) ae in
      let positive = clear_area-nonempty da d n c w' ce in
      let there = Shows-Inside kd d n da ld r lo hi positive in
      let (cb, ci, cs) = cleared_fill da c ld there r ce in
      let copied : MemoryAllocation = record c {
        bytes = write (d - c.address) (data_at c) c.bytes;
      } in
      let bytes_n =
        length-read (source - sa.address) n (if same then c else sa).bytes
          (vector_long same (λ x. x.bytes) (source - sa.address + n) sa c (inside cs) cb sb) in
      let init_n = length-read (source - sa.address) n (if same then copied else sa).init (
        vector_long same (λ x. x.init) (source - sa.address + n) sa copied
          (same_size same sa c copied refl (inside cs)) ci si) in
      let (shows, inside', undo) =
        put-UndoesAt kd d n da ld r lo hi positive (zip_with cell (data_at c) (init_at copied))
          (add_area da d (ref (λ x. x.bytes) same sa source n) (ref (λ x. x.init) same sa source n))
          (length-zip_with cell (data_at c) (init_at copied) (bytes_n ∙ sym init_n) ∙ bytes_n)
          (add_area-Represents da d n there ld data_at init_at
            (ref (λ x. x.bytes) same sa source n).apart (ref (λ x. x.init) same sa source n).apart c
            r.shown apart_d apart_i ce bytes_n init_n)
          v ae in
      (put_range (d - kd) (zip_with cell (data_at c) (init_at copied)) ld, shows, inside', undo)
    where
      data_at : MemoryAllocation → List ℕ
      data_at x = read (source - sa.address) n (if same then x else sa).bytes

      init_at : MemoryAllocation → List ℕ
      init_at x = read (source - sa.address) n (if same then x else sa).init

  -- `addCopy` is undone by `removeCopy`.
  pub add_copy-Reverses : Reverses s (add_copy m source d n) (λ x. remove_copy x source d n)
  unfolding remove_copy
  add_copy-Reverses m' e =
      let (ks, sa, kd, da, v, gs, gd, ae, me) = add_copy-Copied m source d n m' w e in
      let (ls, bs, lo_s, hi_s) = get_allocation-Below m s sh source n ks sa w gs in
      let (ld, bd, lo, hi) = get_allocation-Below m s sh d n kd da w' gd in
      let (c, ce) =
        add_area-clear da v d (ref (λ x. x.bytes) (ks == kd) sa source n)
          (ref (λ x. x.init) (ks == kd) sa source n) ae in
      let (l', r, hi', undo) =
        copied_at (ks == kd) sa da c v kd ld bd.2 lo hi ce
          (source_inside ks kd sa da c ls ld bs bd lo_s hi_s) bs.2.shown.bytes_fill
          bs.2.shown.init_fill ae in
      let (s', sh', back) =
        changed_at m s sh d n kd ld l' v (λ x. rewind_area x (memory_area d n)) w' bd.1 lo hi' r
          undo in
      (s', subst (λ x. ShowsMemory x s') me sh', back)
