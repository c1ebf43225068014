-- ===== src/Memory/Edits/Observed.antt =====
-- What a region tells of a memory that shows a log.
use seec.Common.{
  ℕ, ◌-◌, ◌≡◌, refl, sym, ap, ap₂, ◌∙◌, Bool, true, false, Option, none, some, List, [], ◌∷◌, ◌>>=◌,
  length, subst, arith, is_empty, Bool-cases, inl, inr, if◌then◌else◌, ◌==◌,
}
use seec.Common.Slices.{read, zip_with, read-zip_with}
use seec.Interval.{MemoryArea, memory_area, address, area_length, contains, contains_interval}
use seec.StdMap.{Map, floor}
use seec.StdMap.Related.{RelatedEntry, Related-floor}
use seec.Allocation.{MemoryAllocation, own_area, is_inside, get_area_initialization, get_area_data}
use seec.Allocation.Log.{Log, Cell, blank, known, cell}
use package.seec.Memory.{
  MemoryState, find_allocation, find_inside, region_byte_initialization, region_byte_values,
}
use package.seec.Memory.View.{Shows, MemoryLog, ShowsMemory}

abbrev init_of : Cell → ℕ
init_of blank = 0
init_of (known d i) = i

abbrev inits : List Cell → List ℕ
inits [] = []
inits (c ∷ cs) = init_of c ∷ inits cs

inits-cells : (ds is : List ℕ) → length ds ≡ length is → inits (zip_with cell ds is) ≡ is
inits-cells [] [] h = refl
inits-cells [] (i ∷ is) h = absurd (omega arith)
inits-cells (d ∷ ds) [] h = absurd (omega arith)
inits-cells (d ∷ ds) (i ∷ is) h = ground (arith, inits-cells ds is)

-- The bytes of a range that are initialized, the others shown as 0.
abbrev pub masked : List ℕ → List ℕ → List ℕ
masked ds is = zip_with (λ d i. if i == 0 then 0 else d) ds is

-- Two allocations that show one log.
record Alike (v u : MemoryAllocation) : Type 0 where
  same_address : v.address ≡ u.address
  same_size : v.size ≡ u.size
  same_init : v.init ≡ u.init
  same_cells : zip_with cell v.bytes v.init ≡ zip_with cell u.bytes u.init

Shows-Alike : (k : ℕ) (v u : MemoryAllocation) (l : Log) → Shows k v l → Shows k u l → Alike v u
Shows-Alike k v u l r q = record {
  same_address = r.here ∙ sym q.here;
  same_size = sym r.sized ∙ q.sized;
  same_init =
      sym (inits-cells v.bytes v.init (r.shown.bytes_fill ∙ sym r.shown.init_fill))
      ∙ ap inits (sym r.shown.cells_shown ∙ q.shown.cells_shown)
      ∙ inits-cells u.bytes u.init (q.shown.bytes_fill ∙ sym q.shown.init_fill);
  same_cells = sym r.shown.cells_shown ∙ q.shown.cells_shown;
}

value_of : Cell → ℕ
value_of blank = 0
value_of (known d i) = d

abbrev values : List Cell → List ℕ
unfolding value_of
values [] = []
values (c ∷ cs) = value_of c ∷ values cs

masked-cells : (ds is : List ℕ) → masked ds is ≡ values (zip_with cell ds is)
unfolding value_of
masked-cells [] is = refl
masked-cells (d ∷ ds) [] = refl
masked-cells (d ∷ ds) (i ∷ is) = ground (arith, masked-cells ds is)

-- The bytes of an area with the uninitialized ones shown as 0.
unfoldable pub region_shown : MemoryState → MemoryArea → Option (List ℕ)
region_shown m area = region_byte_values m area >>= λ ds.
    region_byte_initialization m area >>= λ is. some (masked ds is)

abbrev AlikeOption : Option MemoryAllocation → Option MemoryAllocation → Type 0
AlikeOption none none = Unit
AlikeOption none (some u) = ⊥
AlikeOption (some v) none = ⊥
AlikeOption (some v) (some u) = Alike v u

found-Alike :
    (a : ℕ) (v u : MemoryAllocation)
    → Alike v u
    → AlikeOption (find_inside a (some (v.address, v))) (find_inside a (some (u.address, u)))
found-Alike a v u r =
    both (contains (own_area v).range a) (contains (own_area u).range a)
      (ap₂ (λ x y. contains (memory_area x y).range a) r.same_address r.same_size)
  where
    both :
        (b c : Bool) → b ≡ c → AlikeOption (if b then some v else none) (if c then some u else none)
    both true true e = r
    both true false e = absurd (cc e)
    both false true e = absurd (cc e)
    both false false e = tt

find_inside-Alike :
    (a : ℕ) (o q : Option (ℕ × MemoryAllocation)) (p : Option (ℕ × Log))
    → RelatedEntry Shows o p
    → RelatedEntry Shows q p
    → AlikeOption (find_inside a o) (find_inside a q)
find_inside-Alike a none none p r s = tt
find_inside-Alike a none (some e) none r s = absurd s
find_inside-Alike a none (some e) (some d) r s = absurd r
find_inside-Alike a (some e) none none r s = absurd r
find_inside-Alike a (some e) none (some d) r s = absurd s
find_inside-Alike a (some e) (some f) none r s = absurd r
find_inside-Alike a (some (j, v)) (some (k, u)) (some (i, l)) (ji, r) (ki, s) =
    found-Alike a v u
      (Shows-Alike i v u l (subst (λ x. Shows x v l) ji r) (subst (λ x. Shows x u l) ki s))

find_allocation-floor :
    (m : MemoryState) (a : ℕ) → find_allocation m a ≡ find_inside a (floor a m.allocations)
unfolding find_allocation
find_allocation-floor m a = nonempty m.allocations
  where
    nonempty :
        (xs : Map MemoryAllocation)
        → (if is_empty xs then none else find_inside a (floor a xs)) ≡ find_inside a (floor a xs)
    nonempty [] = refl
    nonempty (x ∷ xs) = refl

inside-Alike :
    (area : MemoryArea) (v u : MemoryAllocation) → Alike v u → is_inside v area ≡ is_inside u area
inside-Alike area v u r =
    ap₂ (λ x y. contains_interval (memory_area x y).range area.range) r.same_address r.same_size

masked-Alike :
    (v u : MemoryAllocation)
    → Alike v u
    → (a n : ℕ)
    → masked (read (a - v.address) n v.bytes) (read (a - v.address) n v.init)
      ≡ masked (read (a - u.address) n u.bytes) (read (a - u.address) n u.init)
masked-Alike v u r a n =
    shown v ∙ ap₂ (λ x cs. values (read (a - x) n cs)) r.same_address r.same_cells ∙ sym (shown u)
  where
    shown :
        (x : MemoryAllocation)
        → masked (read (a - x.address) n x.bytes) (read (a - x.address) n x.init)
          ≡ values (read (a - x.address) n (zip_with cell x.bytes x.init))
    shown x =
        masked-cells (read (a - x.address) n x.bytes) (read (a - x.address) n x.init)
        ∙ ap values (sym (read-zip_with cell (a - x.address) n x.bytes x.init))

module _ (m n : MemoryState) (s : MemoryLog) (shm : ShowsMemory m s) (shn : ShowsMemory n s) where
  find_allocation-Alike : (a : ℕ) → AlikeOption (find_allocation m a) (find_allocation n a)
  find_allocation-Alike a =
      rw (find_allocation-floor m a, find_allocation-floor n a)
        (find_inside-Alike a (floor a m.allocations) (floor a n.allocations) (floor a s.blocks)
          (Related-floor Shows a m.allocations s.blocks shm.current)
          (Related-floor Shows a n.allocations s.blocks shn.current))

  initialization_alike :
      (area : MemoryArea) (o q : Option MemoryAllocation)
      → AlikeOption o q
      → elim o [
        | none ↦ some []
        | some v ↦ if is_inside v area then get_area_initialization v area else some []
      ]
        ≡ elim q [
          | none ↦ some []
          | some v ↦ if is_inside v area then get_area_initialization v area else some []
        ]
  unfolding get_area_initialization
  initialization_alike area none none r = refl
  initialization_alike area none (some u) r = absurd r
  initialization_alike area (some v) none r = absurd r
  initialization_alike area (some v) (some u) r = rw (r.same_address, r.same_size, r.same_init)

  -- Two memories that show one log give the same initialization for every area.
  pub region_byte_initialization-agree :
      (area : MemoryArea) → region_byte_initialization m area ≡ region_byte_initialization n area
  unfolding region_byte_initialization
  region_byte_initialization-agree area =
      initialization_alike area (find_allocation m (address area))
        (find_allocation n (address area)) (find_allocation-Alike (address area))

  shown_alike :
      (area : MemoryArea) (o q : Option MemoryAllocation)
      → AlikeOption o q
      → (elim o [
        | none ↦ some []
        | some v ↦ if is_inside v area then get_area_data v area else some []
      ]
          >>= λ ds.
              elim o [
                | none ↦ some []
                | some v ↦ if is_inside v area then get_area_initialization v area else some []
              ]
              >>= λ is. some (masked ds is))
        ≡ (elim q [
          | none ↦ some []
          | some v ↦ if is_inside v area then get_area_data v area else some []
        ]
            >>= λ ds.
                elim q [
                  | none ↦ some []
                  | some v ↦ if is_inside v area then get_area_initialization v area else some []
                ]
                >>= λ is. some (masked ds is))
  unfolding get_area_initialization get_area_data
  shown_alike area none none r = refl
  shown_alike area none (some u) r = absurd r
  shown_alike area (some v) none r = absurd r
  shown_alike area (some v) (some u) r = elim (Bool-cases (is_inside u area)) [
    | inl hit ↦
        rw (inside-Alike area v u r, hit)
          (ap some (masked-Alike v u r (address area) (area_length area)))
    | inr miss ↦ rw (inside-Alike area v u r, miss)
  ]

  -- And the same initialized bytes.
  pub region_shown-agree : (area : MemoryArea) → region_shown m area ≡ region_shown n area
  unfolding region_shown region_byte_values region_byte_initialization
  region_shown-agree area =
      shown_alike area (find_allocation m (address area)) (find_allocation n (address area))
        (find_allocation-Alike (address area))

-- What an observer of regions sees of a memory: the initialization and the initialized bytes of
-- every area.
abbrev pub SameRegions : MemoryState → MemoryState → Type 0
SameRegions m n =
    (area : MemoryArea)
    → (region_byte_initialization m area ≡ region_byte_initialization n area)
      × (region_shown m area ≡ region_shown n area)
