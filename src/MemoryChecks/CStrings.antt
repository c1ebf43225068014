-- ===== src/MemoryChecks/CStrings.antt =====
-- The C strings that RuntimeErrorChecker finds in an area.
use seec.Common.{
  ℕ, zero, suc, ◌+◌, ◌-◌, ◌%◌, ◌≤◌, ◌<◌, ◌≡◌, ◌≢◌, refl, sym, ap, ◌∙◌, ◌⊎◌, inl, inr, Bool-cases,
  true, none, some, arith, ◌==◌, leb,
}
use seec.Interval.{word, MemoryArea, memory_area, with_start, with_start_end}
use package.seec.MemoryChecks.{find_terminator, get_c_string_in_area}

-- The first NUL of the `left` characters from `a + index` on is at `a + i`.
pub record FirstTerminator (chars : ℕ → ℕ) (a index left i : ℕ) : Type 0 where
  pub low : index ≤ i
  pub high : i < index + left
  pub is_nul : chars (a + i) ≡ 0
  pub none_before : (j : ℕ) → index ≤ j → j < i → chars (a + j) ≢ 0

step-FirstTerminator :
    (chars : ℕ → ℕ) (a index left i : ℕ)
    → chars (a + index) ≢ 0
    → FirstTerminator chars a (suc index) left i
    → FirstTerminator chars a index (suc left) i
step-FirstTerminator chars a index left i other first = record {
  low = omega (arith, first.low);
  high = omega (arith, first.high);
  is_nul = first.is_nul;
  none_before = λ j h k. elim (Bool-cases (j == index)) [
    | inl same ↦
        let here : j ≡ index = ground arith in λ e. other (sym (ap (λ x. chars (a + x)) here) ∙ e)
    | inr later ↦ first.none_before j (ground arith) k
  ];
}

find_terminator-cases :
    (chars : ℕ → ℕ) (a index left : ℕ)
    → ((i : ℕ) × (find_terminator chars a index left ≡ some (memory_area a (i + 1)))
        × FirstTerminator chars a index left i)
      ⊎ ((find_terminator chars a index left ≡ none)
          × ((j : ℕ) → index ≤ j → j < index + left → chars (a + j) ≢ 0))
find_terminator-cases chars a index zero = inr (refl, λ j h k. absurd (omega arith))
find_terminator-cases chars a index (suc left) = elim (Bool-cases (chars (a + index) == 0)) [
  | inl nul ↦ inl (
    index,
    rw nul refl,
    record {
      low = omega arith;
      high = omega arith;
      is_nul = ground arith;
      none_before = λ j h k. absurd (omega arith);
    },
  )
  | inr other ↦
      let distinct : chars (a + index) ≢ 0 = λ e. absurd (ground arith) in
      elim (find_terminator-cases chars a (suc index) left) [
        | inl (i, found, first) ↦
            inl (i, rw other found, step-FirstTerminator chars a index left i distinct first)
        | inr (nothing, all) ↦ inr (
          rw other nothing,
          λ j h k. elim (Bool-cases (j == index)) [
            | inl same ↦
                let here : j ≡ index = ground arith in
                λ e. distinct (sym (ap (λ x. chars (a + x)) here) ∙ e)
            | inr later ↦ all j (ground arith) (omega arith)
          ],
        )
      ]
]

-- In an area that contains the start of a string, `getCStringInArea` gives the area from there up
-- to and with the first NUL before the area's end, or nothing where there is none.
pub get_c_string_in_area-cases :
    (chars : ℕ → ℕ) (a : ℕ) (area : MemoryArea)
    → area.range.end < word
    → a ≤ area.range.end
    → ((i : ℕ) × (get_c_string_in_area chars a area ≡ some (some (memory_area a (i + 1))))
        × FirstTerminator chars a 0 (area.range.end - a) i)
      ⊎ ((get_c_string_in_area chars a area ≡ some none)
          × ((j : ℕ) → j < area.range.end - a → chars (a + j) ≢ 0))
unfolding get_c_string_in_area with_start with_start_end
get_c_string_in_area-cases chars a area small inside =
    let starts : leb a area.range.end ≡ true = ground arith in
    let left : (area.range.end + word - a) % word ≡ area.range.end - a = omega arith in
    elim (find_terminator-cases chars a 0 (area.range.end - a)) [
      | inl (i, found, first) ↦ inl (i, rw (starts, left, found) refl, first)
      | inr (nothing, all) ↦
          inr (rw (starts, left, nothing) refl, λ j k. all j (omega arith) (omega arith))
    ]
