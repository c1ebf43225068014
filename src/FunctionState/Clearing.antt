-- ===== src/FunctionState/Clearing.antt =====
-- The blocks that a jump back clears, and that rewinding over it restores.
use seec.Common.{
  ℕ, zero, suc, ◌+◌, ◌≤◌, ◌<◌, ◌≡◌, refl, sym, ap, subst, ◌∙◌, ◌⊎◌, inl, inr, ◌==◌, Bool-cases,
  Option, none, some, List, [], ◌∷◌, arith, some-injective,
}
use seec.ValueStore.Store.{BasicBlockStore}
use package.seec.FunctionState.Blocks.{
  BlockMap, Clearing, put, remove, clear_found, clear_from, uncleared,
}

module _ {A : Type 0} where
  -- One block: clearing `m` left `gone`, and restoring into `later` gives `back`.
  abbrev pub Cell : BlockMap A → BlockMap A → BlockMap A → BlockMap A → ℕ → Type 0
  Cell m gone later back c =
      ((gone c ≡ m c) × (back c ≡ later c))
      ⊎ ((st : BasicBlockStore A) × (m c ≡ some st) × (gone c ≡ none) × (back c ≡ some st))

  -- What was cleared between `x` and `y` comes back over whatever is active later.
  pub record Undone (x y : Clearing A) : Type 0 where
    pub steps : ℕ
    pub counted : y.clear_count ≡ x.clear_count + steps
    pub restored :
        (later : BlockMap A)
        → (back : BlockMap A) × (uncleared steps later y.cleared ≡ some (back, x.cleared))
          × ((c : ℕ) → Cell x.active y.active later back c)

  refl-Undone : (x : Clearing A) → Undone x x
  refl-Undone x = record {
    steps = 0;
    counted = omega arith;
    restored = λ later. (later, refl, λ c. inl (refl, refl));
  }

  cell_found :
      (b : ℕ) (st : BasicBlockStore A) (m later : BlockMap A)
      → m b ≡ some st
      → (c : ℕ) → Cell m (remove b m) later (put b st later) c
  cell_found b st m later found c = elim (Bool-cases (c == b)) [
    | inl same ↦
        let here : c ≡ b = ground arith in inr (st, ap m here ∙ found, rw same refl, rw same refl)
    | inr other ↦ inl (rw other refl, rw other refl)
  ]

  clear_found-Undone :
      (b : ℕ) (x : Clearing A) (o : Option (BasicBlockStore A))
      → x.active b ≡ o
      → Undone x (clear_found b o x)
  clear_found-Undone b x none e = refl-Undone x
  clear_found-Undone b x (some st) e = record {
    steps = 1;
    counted = omega arith;
    restored = λ later. (put b st later, refl, cell_found b st x.active later e);
  }

  uncleared_add :
      (n k : ℕ) (m back : BlockMap A) (cleared rest : List (ℕ × BasicBlockStore A))
      → uncleared n m cleared ≡ some (back, rest)
      → uncleared (n + k) m cleared ≡ uncleared k back rest
  uncleared_add zero k m back cleared rest e =
      let nothing : 0 + k ≡ k = omega arith in
      let same = some-injective _ _ e in rw nothing (ap (λ p. uncleared k p.0 p.1) same)
  uncleared_add (suc n) k m back [] rest e = absurd (cc e)
  uncleared_add (suc n) k m back ((b, st) ∷ cleared) rest e =
      let more : suc n + k ≡ suc (n + k) = omega arith in
      rw more (uncleared_add n k (put b st m) back cleared rest e)

  cell_trans :
      (m mid gone later back1 back : BlockMap A) (c : ℕ)
      → Cell m mid back1 back c
      → Cell mid gone later back1 c
      → Cell m gone later back c
  cell_trans m mid gone later back1 back c (inl (a, b)) (inl (d, e)) = inl (d ∙ a, b ∙ e)
  cell_trans m mid gone later back1 back c (inl (a, b)) (inr (st, d, e, f)) =
      inr (st, sym a ∙ d, e, b ∙ f)
  cell_trans m mid gone later back1 back c (inr (st, a, b, d)) (inl (e, f)) = inr (st, a, e ∙ b, d)
  cell_trans m mid gone later back1 back c (inr (st, a, b, d)) (inr (su, e, f, g)) =
      absurd (cc (b, e))

  trans-Undone : (x y z : Clearing A) → Undone x y → Undone y z → Undone x z
  trans-Undone x y z u v = record {
    steps = v.steps + u.steps;
    counted = omega (arith, u.counted, v.counted);
    restored = λ later.
        let (back1, e1, cells1) = v.restored later in
        let (back, e, cells) = u.restored back1 in
        (
          back,
          uncleared_add v.steps u.steps later back1 z.cleared y.cleared e1 ∙ e,
          λ c. cell_trans x.active y.active z.active later back1 back c (cells c) (cells1 c),
        );
  }

  pub clear_from-Undone :
      (fuel b last : ℕ) (x y : Clearing A) → clear_from fuel b last x ≡ some y → Undone x y
  clear_from-Undone zero b last x y e = absurd (cc e)
  clear_from-Undone (suc fuel) b last x y e =
      let next = clear_found b (x.active b) x in
      let step = clear_found-Undone b x (x.active b) refl in
      elim (Bool-cases (b == last)) [
        | inl stop ↦ subst (Undone x) (some-injective _ _ (rw stop at e)) step
        | inr more ↦
            trans-Undone x next y step (clear_from-Undone fuel (suc b) last next y (rw more at e))
      ]

  pub clear_from-total :
      (fuel b last : ℕ) (x : Clearing A)
      → b ≤ last
      → last < b + fuel
      → (y : Clearing A) × (clear_from fuel b last x ≡ some y)
  clear_from-total zero b last x low high = absurd (omega arith)
  clear_from-total (suc fuel) b last x low high =
      let next = clear_found b (x.active b) x in
      elim (Bool-cases (b == last)) [
        | inl stop ↦ (next, rw stop refl)
        | inr more ↦
            let (y, e) = clear_from-total fuel (suc b) last next (ground arith) (omega arith) in
            (y, rw more e)
      ]
