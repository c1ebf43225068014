-- ===== src/FunctionState/Numbering.antt =====
-- The numbering that FunctionIndex's constructor gives the instructions of a function.
use seec.Common.{
  ℕ, zero, suc, ◌+◌, ◌≤◌, ◌<◌, ◌≡◌, refl, ap, subst, ◌⊎◌, inl, inr, some, some-injective, List, [],
  ◌∷◌, ◌++◌, arith, length, get_elem?,
}
use package.seec.FunctionState.{
  Instruction, Placement, LlvmFunction, FunctionIndex, index_block, index_blocks, function_index,
}

get_elem?-append_one {ℓ} :
    {A : Type ℓ} (xs : List A) (x : A) (i : ℕ) {y : A}
    → get_elem? (xs ++ (x ∷ [])) i ≡ some y
    → (get_elem? xs i ≡ some y) ⊎ ((i ≡ length xs) × (x ≡ y))
get_elem?-append_one [] x zero e = inr (refl, some-injective _ _ e)
get_elem?-append_one [] x (suc i) e = absurd (cc e)
get_elem?-append_one (a ∷ xs) x zero e = inl e
get_elem?-append_one (a ∷ xs) x (suc i) e = elim (get_elem?-append_one xs x i e) [
  | inl old ↦ inl old
  | inr (last, same) ↦ inr (ap suc last, same)
]

get_elem?-in_range {ℓ} :
    {A : Type ℓ} (xs : List A) (i : ℕ) {y : A} → get_elem? xs i ≡ some y → i < length xs
get_elem?-in_range [] i e = absurd (cc e)
get_elem?-in_range (a ∷ xs) zero e = omega arith
get_elem?-in_range (a ∷ xs) (suc i) e = omega (arith, get_elem?-in_range xs i e)

-- The blocks follow each other in the numbering, and none has the number `n` or a higher one.
pub record FollowsBlocks (n : ℕ) (ptrs : List Placement) : Type 0 where
  pub below : (i : ℕ) (p : Placement) → get_elem? ptrs i ≡ some p → p.parent < n
  pub ordered :
      (i j : ℕ) (p q : Placement)
      → i ≤ j
      → get_elem? ptrs i ≡ some p
      → get_elem? ptrs j ≡ some q
      → p.parent ≤ q.parent

append-FollowsBlocks :
    (b : ℕ) (ptrs : List Placement) (ins : Instruction)
    → FollowsBlocks (suc b) ptrs
    → FollowsBlocks (suc b) (ptrs ++ (record { parent = b; instruction = ins } ∷ []))
append-FollowsBlocks b ptrs ins f =
    let new : Placement = record { parent = b; instruction = ins } in
    record {
      below = λ i p e. elim (get_elem?-append_one ptrs new i e) [
        | inl old ↦ f.below i p old
        | inr (last, same) ↦ omega (arith, ap (λ x. x.parent) same)
      ];
      ordered = λ i j p q h e k. elim (get_elem?-append_one ptrs new j k) [
        | inl old_q ↦ elim (get_elem?-append_one ptrs new i e) [
          | inl old_p ↦ f.ordered i j p q h old_p old_q
          | inr (last, _) ↦ absurd (omega (arith, get_elem?-in_range ptrs j old_q))
        ]
        | inr (last_q, same_q) ↦ elim (get_elem?-append_one ptrs new i e) [
          | inl old_p ↦ omega (arith, f.below i p old_p, ap (λ x. x.parent) same_q)
          | inr (_, same_p) ↦ omega (arith, ap (λ x. x.parent) same_q, ap (λ x. x.parent) same_p)
        ]
      ];
    }

index_block-FollowsBlocks :
    (b : ℕ) (block : List Instruction) (x : FunctionIndex)
    → FollowsBlocks (suc b) x.instruction_ptr_by_idx
    → FollowsBlocks (suc b) ((index_block b block x).instruction_ptr_by_idx)
index_block-FollowsBlocks b [] x f = f
index_block-FollowsBlocks b (ins ∷ rest) x f =
    index_block-FollowsBlocks b rest _ (append-FollowsBlocks b x.instruction_ptr_by_idx ins f)

index_block-block_count :
    (b : ℕ) (block : List Instruction) (x : FunctionIndex)
    → (index_block b block x).block_count ≡ x.block_count
index_block-block_count b [] x = refl
index_block-block_count b (ins ∷ rest) x = index_block-block_count b rest _

weaken-FollowsBlocks :
    (b : ℕ) (ptrs : List Placement) → FollowsBlocks b ptrs → FollowsBlocks (suc b) ptrs
weaken-FollowsBlocks b ptrs f = record {
  below = λ i p e. omega (arith, f.below i p e);
  ordered = f.ordered;
}

index_blocks-FollowsBlocks :
    (blocks : List (List Instruction)) (x : FunctionIndex)
    → FollowsBlocks x.block_count x.instruction_ptr_by_idx
    → FollowsBlocks
        ((index_blocks blocks x).block_count)
        ((index_blocks blocks x).instruction_ptr_by_idx)
      × ((index_blocks blocks x).block_count ≡ x.block_count + length blocks)
index_blocks-FollowsBlocks [] x f = (f, omega arith)
index_blocks-FollowsBlocks (block ∷ rest) x f =
    let next = record (index_block x.block_count block x) { block_count = suc x.block_count } in
    let (g, count) =
      index_blocks-FollowsBlocks rest next (
        index_block-FollowsBlocks x.block_count block x (weaken-FollowsBlocks x.block_count _ f)) in
    (g, omega (arith, count))

-- Instructions are numbered block after block: a later instruction's block is not before that of an
-- earlier one, and every block's number is one of the function's.
pub function_index-FollowsBlocks :
    (f : LlvmFunction)
    → FollowsBlocks (length f.blocks) (function_index f).instruction_ptr_by_idx
      × ((function_index f).block_count ≡ length f.blocks)
unfolding function_index
function_index-FollowsBlocks f =
    let (g, count) =
      index_blocks-FollowsBlocks f.blocks _
        (record { below = λ i p e. absurd (cc e); ordered = λ i j p q h e. absurd (cc e) }) in
    let same : (function_index f).block_count ≡ length f.blocks = omega (arith, count) in
    (subst (λ n. FollowsBlocks n (function_index f).instruction_ptr_by_idx) same g, same)
