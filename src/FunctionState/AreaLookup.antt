-- ===== src/FunctionState/AreaLookup.antt =====
-- Which area of a function contains an address, and the areas of by-value parameters.
use seec.Common.{
  ℕ, zero, suc, ◌+◌, ◌*◌, ◌%◌, ◌≤◌, ◌<◌, ◌≡◌, refl, sym, ap, subst, ◌⊎◌, inl, inr, ltb, Bool-cases,
  true, false, none, some, List, [], ◌∷◌, ◌++◌, assert, some-injective, >>=-eq-some, arith,
  get_elem?,
}
use seec.Interval.{word, memory_area, contains}
use package.seec.FunctionState.{FunctionState, AllocaState, ParamByValState}
use package.seec.FunctionState.Areas.{
  alloca_area, alloca_containing, param_containing, erase_containing, get_alloca_containing,
  get_containing_memory_area, add_by_val_area, remove_by_val_area,
}

-- The first element of a list with the property.
abbrev pub First : {X : Type 0} → (X → Type 0) → List X → X → Type 0
First P xs x =
    (i : ℕ) × (get_elem? xs i ≡ some x)
    × P x
    × ((j : ℕ) → j < i → (y : _) → get_elem? xs j ≡ some y → ¬ (P y))

abbrev pub NoneOf : {X : Type 0} → (X → Type 0) → List X → Type 0
NoneOf P xs = (j : ℕ) (y : _) → get_elem? xs j ≡ some y → ¬ (P y)

-- The bytes of an alloca, and those of a by-value parameter.
abbrev pub InAlloca : ℕ → AllocaState → Type 0
InAlloca at a = (a.address ≤ at) × (at < a.address + a.element_size * a.element_count)

abbrev pub InParam : ℕ → ParamByValState → Type 0
InParam at p = (p.area.range.start ≤ at) × (at < p.area.range.end)

-- Every alloca ends before the end of the address space.
abbrev pub AllFit : List AllocaState → Type 0
AllFit [] = Unit {0}
AllFit (a ∷ rest) = (a.address + a.element_size * a.element_count < word) × AllFit rest

First-later :
    {X : Type 0} (P : X → Type 0) (x : X) (xs : List X) (z : X)
    → ¬ (P x)
    → First P xs z
    → First P (x ∷ xs) z
First-later {X} P x xs z other (i, found, holds, before) = (suc i, found, holds, earlier)
  where
    earlier : (j : ℕ) → j < suc i → (y : X) → get_elem? (x ∷ xs) j ≡ some y → ¬ (P y)
    earlier zero h y e = λ p. other (subst P (sym (some-injective _ _ e)) p)
    earlier (suc j) h y e = before j (omega (arith, h)) y e

NoneOf-cons :
    {X : Type 0} (P : X → Type 0) (x : X) (xs : List X) → ¬ (P x) → NoneOf P xs → NoneOf P (x ∷ xs)
NoneOf-cons P x xs other none_after zero y e = λ p. other (subst P (sym (some-injective _ _ e)) p)
NoneOf-cons P x xs other none_after (suc j) y e = none_after j y e

contains-memory_area :
    (start n at : ℕ)
    → start + n < word
    → ((contains (memory_area start (n % word)).range at ≡ true) × (start ≤ at) × (at < start + n))
      ⊎ ((contains (memory_area start (n % word)).range at ≡ false)
          × ¬ ((start ≤ at) × (at < start + n)))
contains-memory_area start n at w =
    let small : n % word ≡ n = omega arith in
    elim (Bool-cases (contains (memory_area start n).range at)) [
      | inl here ↦ rw small (inl (here, ground arith, ground arith))
      | inr there ↦ rw small (inr (there, λ (lo, hi). absurd (ground arith)))
    ]

alloca_containing-First :
    (at : ℕ) (xs : List AllocaState)
    → AllFit xs
    → ((a : AllocaState) × (alloca_containing at xs ≡ some a)
        × First (InAlloca at) xs a
        × (alloca_area a ≡ memory_area a.address (a.element_size * a.element_count)))
      ⊎ ((alloca_containing at xs ≡ none) × NoneOf (InAlloca at) xs)
alloca_containing-First at [] w = inr (refl, λ j y e. absurd (cc e))
alloca_containing-First at (a ∷ xs) (w, ws) =
    let size : ℕ = a.element_size * a.element_count in
    let fits : a.address + size < word = w in
    let whole : size % word ≡ size = omega (arith, fits) in
    elim (contains-memory_area a.address size at fits) [
      | inl (here, lo, hi) ↦ inl (
        a,
        rw here refl,
        (0, refl, (lo, hi), λ j h. absurd (omega (arith, h))),
        ap (memory_area a.address) whole,
      )
      | inr (there, other) ↦ elim (alloca_containing-First at xs ws) [
        | inl (b, found, first, area) ↦
            inl (b, rw there found, First-later (InAlloca at) a xs b other first, area)
        | inr (nothing, all) ↦ inr (rw there nothing, NoneOf-cons (InAlloca at) a xs other all)
      ]
    ]

param_containing-First :
    (at : ℕ) (ps : List ParamByValState)
    → ((p : ParamByValState) × (param_containing at ps ≡ some p.area) × First (InParam at) ps p)
      ⊎ ((param_containing at ps ≡ none) × NoneOf (InParam at) ps)
param_containing-First at [] = inr (refl, λ j y e. absurd (cc e))
param_containing-First at (p ∷ ps) = elim (Bool-cases (contains p.area.range at)) [
  | inl here ↦
      inl
        (p, rw here refl, (0, refl, (ground arith, ground arith), λ j h. absurd (omega (arith, h))))
  | inr there ↦
      let other : ¬ (InParam at p) = λ (lo, hi). absurd (ground arith) in
      elim (param_containing-First at ps) [
        | inl (q, found, first) ↦
            inl (q, rw there found, First-later (InParam at) p ps q other first)
        | inr (nothing, all) ↦ inr (rw there nothing, NoneOf-cons (InParam at) p ps other all)
      ]
]

erase_containing-append :
    (address : ℕ) (ps : List ParamByValState) (p : ParamByValState)
    → param_containing address ps ≡ none
    → contains p.area.range address ≡ true
    → erase_containing address (ps ++ (p ∷ [])) ≡ ps
erase_containing-append address [] p e here = rw here refl
erase_containing-append address (q ∷ ps) p e here =
    elim (Bool-cases (contains q.area.range address)) [
      | inl found ↦ absurd (cc (e, found))
      | inr other ↦
          rw other (ap (◌∷◌ q) (erase_containing-append address ps p (rw other at e) here))
    ]

module _ {A E : Type 0} where
  -- Where every alloca of a function ends before the end of the address space, the area that it
  -- answers for an address is that of the first alloca whose bytes, as many as its element size times
  -- its element count, have the address among them; or, where there is no such alloca, the area of
  -- the first by-value parameter with the address in it; or none where there is neither.
  pub get_containing_memory_area_lem :
      (at : ℕ) (fs : FunctionState A E)
      → AllFit fs.allocas
      → ((a : AllocaState) × First (InAlloca at) fs.allocas a
          × (get_containing_memory_area at fs
              ≡ some (memory_area a.address (a.element_size * a.element_count))))
        ⊎ (NoneOf (InAlloca at) fs.allocas
            × (((p : ParamByValState) × First (InParam at) fs.param_by_vals p
                  × (get_containing_memory_area at fs ≡ some p.area))
                ⊎ (NoneOf (InParam at) fs.param_by_vals
                    × (get_containing_memory_area at fs ≡ none))))
  unfolding get_containing_memory_area get_alloca_containing
  get_containing_memory_area_lem at fs w = elim (alloca_containing-First at fs.allocas w) [
    | inl (a, found, first, area) ↦ inl (a, first, rw found (ap some area))
    | inr (nothing, all) ↦ inr (
      all,
      elim (param_containing-First at fs.param_by_vals) [
        | inl (p, found, first) ↦ inl (p, first, rw nothing found)
        | inr (neither, none_there) ↦ inr (none_there, rw nothing neither)
      ],
    )
  ]

  -- Removing the by-value area at an address undoes adding it, where the area is not empty there and
  -- no area of the parameters before it contains the address.
  pub remove_by_val_area-add_by_val_area :
      (argument address size : ℕ) (fs after : FunctionState A E)
      → param_containing address fs.param_by_vals ≡ none
      → contains (memory_area address size).range address ≡ true
      → add_by_val_area argument address size fs ≡ some after
      → remove_by_val_area address after ≡ fs
  unfolding add_by_val_area remove_by_val_area
  remove_by_val_area-add_by_val_area argument address size fs after apart holds e =
      let (_, _, made) = >>=-eq-some (assert (ltb argument fs.function_lookup.arg_count)) _ e in
      let erased = erase_containing-append address fs.param_by_vals _ apart holds in
      subst (λ (s : FunctionState A E). remove_by_val_area address s ≡ fs) (some-injective _ _ made)
        (ap (λ (ps : List ParamByValState). record fs { param_by_vals = ps }) erased)
