-- ===== src/Streams/Writes.antt =====
-- The ends of a stream's writes, and what was written to it.
use seec.Common.{
  ℕ, zero, suc, ◌-◌, ◌≤◌, ◌<◌, ◌≡◌, refl, ◌∙◌, true, false, Option, none, some, List, [], ◌∷◌, ◌++◌,
  ltb, leb, arith, length, length-append, get_elem?, ◌>>=◌, take-append_exact, is_empty, Bool-cases,
  inl, inr,
}
use seec.Allocation.Refine.Stacks.{pop_back-append}
use package.seec.Streams.{
  StreamState, StreamWrite, write_covering, get_write_at, get_write, write, unwrite, ends_at,
}

-- The ends of the writes increase, from `previous` to `total`.
abbrev pub EndsFrom : ℕ → List ℕ → ℕ → Type 0
EndsFrom previous [] total = previous ≡ total
EndsFrom previous (w ∷ ws) total = (previous ≤ w) × EndsFrom w ws total

-- The last write ends where the text ends.
abbrev pub IsWellFormed : StreamState → Type 0
IsWellFormed s = EndsFrom 0 s.writes (length s.written)

EndsFrom-append :
    (previous : ℕ) (ws : List ℕ) (n m : ℕ)
    → EndsFrom previous ws n
    → n ≤ m
    → EndsFrom previous (ws ++ (m ∷ [])) m
EndsFrom-append previous [] n m e h = (omega (arith, e), refl)
EndsFrom-append previous (w ∷ ws) n m e h = (e.0, EndsFrom-append w ws n m e.1 h)

ends_at-EndsFrom : (ws : List ℕ) (n : ℕ) → EndsFrom 0 ws n → ends_at ws n ≡ true
ends_at-EndsFrom ws n e = from 0 ws n e
  where
    from : (previous : ℕ) (ws : List ℕ) (n : ℕ) → EndsFrom previous ws n → ends_at ws n ≡ true
    from previous [] n e = refl
    from previous (w ∷ []) n (h, e) = ground (arith, e)
    from previous (w ∷ x ∷ ws) n (h, e) = from w (x ∷ ws) n e

-- A write leaves the stream well-formed.
pub write-IsWellFormed :
    (s : StreamState) (ds : List ℕ) → IsWellFormed s → IsWellFormed (write s ds)
unfolding write
write-IsWellFormed s ds h =
    EndsFrom-append 0 s.writes (length s.written) (length (s.written ++ ds)) h
      (omega (arith, length-append s.written ds))

nonempty-append : (ws : List ℕ) (w : ℕ) → is_empty (ws ++ (w ∷ [])) ≡ false
nonempty-append [] w = refl
nonempty-append (x ∷ ws) w = refl

-- From a well-formed stream, a write is undone by `unwrite` of as many characters.
pub unwrite-write :
    (s : StreamState) (ds : List ℕ) → IsWellFormed s → unwrite (write s ds) (length ds) ≡ some s
unfolding unwrite write
unwrite-write s ds h =
    let long = length-append s.written ds in
    let cut : length (s.written ++ ds) - length ds ≡ length s.written = omega (arith, long) in
    let enough : leb (length ds) (length (s.written ++ ds)) ≡ true = ground (arith, long) in
    rw (
      enough,
      nonempty-append s.writes (length (s.written ++ ds)),
      pop_back-append s.writes (length (s.written ++ ds)),
      cut,
      take-append_exact s.written ds,
      ends_at-EndsFrom s.writes (length s.written) h,
    )

-- The write that covers a position below the end of the stream.
write_covering-found :
    (previous position total : ℕ) (ws : List ℕ)
    → EndsFrom previous ws total
    → previous ≤ position
    → position < total
    → (r : StreamWrite) × (write_covering previous position ws ≡ some r)
      × (previous ≤ r.begin)
      × (r.begin ≤ position)
      × (position < r.end)
      × (r.end ≤ total)
unfolding write_covering
write_covering-found previous position total [] e lo hi = absurd (omega (arith, e))
write_covering-found previous position total (w ∷ ws) (p, e) lo hi =
    elim (Bool-cases (ltb position w)) [
      | inl here ↦ rw here (
        record { begin = previous; end = w },
        refl,
        omega arith,
        lo,
        ground arith,
        ends-le w ws total e,
      )
      | inr later ↦
          let (r, f, a, b, c, d) = write_covering-found w position total ws e (ground arith) hi in
          rw later (r, f, omega (arith, a), b, c, d)
    ]
  where
    ends-le : (w : ℕ) (ws : List ℕ) (total : ℕ) → EndsFrom w ws total → w ≤ total
    ends-le w [] total e = omega (arith, e)
    ends-le w (x ∷ ws) total (p, e) = omega (arith, ends-le x ws total e)

-- The write of an index among those that are left behind one that ended at `previous`.
nth_write : ℕ → ℕ → List ℕ → Option StreamWrite
nth_write previous i [] = none
nth_write previous zero (w ∷ ws) = some (record { begin = previous; end = w })
nth_write previous (suc i) (w ∷ ws) = nth_write w i ws

nth_write-get_elem? :
    (previous i : ℕ) (ws : List ℕ)
    → (get_elem? ws i >>= λ b. get_elem? ws (suc i) >>= λ e. some (record { begin = b; end = e }))
      ≡ nth_write previous (suc i) ws
unfolding nth_write
nth_write-get_elem? previous i [] = refl
nth_write-get_elem? previous zero (w ∷ []) = refl
nth_write-get_elem? previous zero (w ∷ x ∷ ws) = refl
nth_write-get_elem? previous (suc i) (w ∷ ws) = nth_write-get_elem? w i ws

get_write-nth_write : (s : StreamState) (i : ℕ) → get_write s i ≡ nth_write 0 i s.writes
unfolding get_write nth_write
get_write-nth_write s zero = first s.writes
  where
    first :
        (ws : List ℕ)
        → (get_elem? ws 0 >>= λ e. some (record { begin = 0; end = e })) ≡ nth_write 0 0 ws
    first [] = refl
    first (w ∷ ws) = refl
get_write-nth_write s (suc i) = nth_write-get_elem? 0 i s.writes

write_covering-is_write :
    (previous position : ℕ) (ws : List ℕ) (r : StreamWrite)
    → write_covering previous position ws ≡ some r
    → (i : ℕ) × (nth_write previous i ws ≡ some r)
unfolding write_covering nth_write
write_covering-is_write previous position [] r e = absurd (cc e)
write_covering-is_write previous position (w ∷ ws) r e = elim (Bool-cases (ltb position w)) [
  | inl here ↦ (0, rw here at e)
  | inr later ↦
      let (i, found) = write_covering-is_write w position ws r (rw later at e) in (suc i, found)
]

-- In a well-formed stream, `getWriteAt` of a position in the text finds a write of the stream, as
-- `getWrite` gives it, that covers the position and ends in the text.
pub get_write_at-covers :
    (s : StreamState) (position : ℕ)
    → IsWellFormed s
    → position < length s.written
    → (r : StreamWrite) × (get_write_at s position ≡ some r)
      × (r.begin ≤ position)
      × (position < r.end)
      × (r.end ≤ length s.written)
      × (i : ℕ) × (get_write s i ≡ some r)
unfolding get_write_at
get_write_at-covers s position h hi =
    let (r, f, _, b, c, d) =
      write_covering-found 0 position (length s.written) s.writes h (omega arith) hi in
    let (i, is_write) = write_covering-is_write 0 position s.writes r f in
    (r, f, b, c, d, i, get_write-nth_write s i ∙ is_write)
