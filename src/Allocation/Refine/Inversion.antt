-- ===== src/Allocation/Refine/Inversion.antt =====
-- What a successful `clearArea` leaves of the bytes and of the initialization.
use seec.Common.{
  ℕ, zero, ◌+◌, ◌-◌, ◌≤◌, ◌<◌, ◌≡◌, refl, sym, ap, ◌∙◌, true, some, List, [], ◌∷◌, ◌==◌, arith,
  length, replicate, length-replicate, Bool-cases, inl, inr, some-injective, ◌⊎◌, if◌then◌else◌,
  subst,
}
use seec.Common.Slices.{
  read, write, length-read, length-write, read-write, write-write, write-read, read-write_before,
  read-write_behind,
}
use seec.Interval.{word, memory_area, area_length}
use seec.Interval.Bounds.{length-with_start_length}
use seec.Allocation.{
  MemoryAllocation, PreviousAreaType, uninitialized, partial, complete, is_inside, clear_area,
  clear_as, area_type, all_clear, all_complete,
}
use package.seec.Allocation.Refine.Change.{clear_area-nonempty}

all_clear-replicate : (is : List ℕ) → all_clear is ≡ true → is ≡ replicate (length is) 0
all_clear-replicate [] h = refl
all_clear-replicate (i ∷ is) h = ground (arith, all_clear-replicate is)

-- The allocation after the range from `off` on was cleared.
pub record Cleared (a c : MemoryAllocation) (off n : ℕ) : Type 0 where
  pub same_address : c.address ≡ a.address
  pub same_size : c.size ≡ a.size
  pub same_bytes : c.bytes ≡ a.bytes
  pub same_length : length c.init ≡ length a.init
  pub covered : (ys : List ℕ) → length ys ≡ n → write off ys c.init ≡ write off ys a.init
  pub zeroed : off + n ≤ length a.init → read off n c.init ≡ replicate n 0
  pub cleared_init : off + n ≤ length a.init → c.init ≡ write off (replicate n 0) a.init
  pub elsewhere : (i k : ℕ) → (i + k ≤ off) ⊎ (off + n ≤ i) → read i k c.init ≡ read i k a.init

zeros-Cleared :
    (a : MemoryAllocation) (off n : ℕ) (t : List PreviousAreaType) (pd pi : List ℕ)
    → Cleared a
        (record a {
          previous_type = t;
          previous_data = pd;
          previous_init = pi;
          init = write off (replicate n 0) a.init;
        })
        off
        n
zeros-Cleared a off n t pd pi = record {
  same_address = refl;
  same_size = refl;
  same_bytes = refl;
  same_length = length-write off (replicate n 0) a.init;
  covered = λ ys h. write-write off ys (replicate n 0) a.init (h ∙ sym (length-replicate n zero));
  zeroed = λ h. read-write off n (replicate n 0) a.init (length-replicate n zero) h;
  cleared_init = λ h. refl;
  elsewhere = λ i k side. elim side [
    | inl before ↦ read-write_before i k off (replicate n 0) a.init before
    | inr behind ↦
        read-write_behind i k off (replicate n 0) a.init (omega (arith, length-replicate n zero))
  ];
}

clear_as-Cleared :
    (a : MemoryAllocation) (off n : ℕ) (t : PreviousAreaType)
    → area_type (read off n a.init) ≡ t
    → Cleared a (clear_as t off n a) off n
unfolding clear_as area_type
clear_as-Cleared a off n uninitialized e = record {
  same_address = refl;
  same_size = refl;
  same_bytes = refl;
  same_length = refl;
  covered = λ ys h. refl;
  zeroed = λ h.
      all_clear-replicate (read off n a.init) (clear_type (read off n a.init) e)
      ∙ ap (λ k. replicate k 0) (length-read off n a.init h);
  cleared_init = λ h.
      sym (write-read off n a.init)
      ∙ ap (λ x. write off x a.init)
          (all_clear-replicate (read off n a.init) (clear_type (read off n a.init) e)
            ∙ ap (λ k. replicate k 0) (length-read off n a.init h));
  elsewhere = λ i k side. refl;
}
  where
    clear_type :
        (is : List ℕ)
        → (if all_clear is then uninitialized else (if all_complete is then complete else partial))
          ≡ uninitialized
        → all_clear is ≡ true
    clear_type is h = elim (Bool-cases (all_clear is)) [
      | inl clear ↦ clear
      | inr some_set ↦ elim (Bool-cases (all_complete is)) [
        | inl all ↦ absurd (cc (rw (some_set, all) at h))
        | inr part ↦ absurd (cc (rw (some_set, part) at h))
      ]
    ]
clear_as-Cleared a off n partial e = zeros-Cleared a off n _ _ _
clear_as-Cleared a off n complete e = zeros-Cleared a off n _ _ _

-- A `clearArea` that succeeds was given an area inside the allocation, and not an empty one.
pub clear_area-Cleared :
    (a : MemoryAllocation) (b n : ℕ) (c : MemoryAllocation)
    → b + n < word
    → clear_area a (memory_area b n) ≡ some c
    → (is_inside a (memory_area b n) ≡ true) × (0 < n) × Cleared a c (b - a.address) n
unfolding clear_area
clear_area-Cleared a b n c w e =
    let positive = clear_area-nonempty a b n c w e in
    let long : area_length (memory_area b n) ≡ n = length-with_start_length b n w in
    elim (Bool-cases (is_inside a (memory_area b n))) [
      | inr outside ↦ absurd (cc (rw outside at e))
      | inl inside ↦ elim (Bool-cases (n == 0)) [
        | inl empty ↦ absurd (ground (arith, positive))
        | inr sized ↦
            let same : clear_as (area_type (read (b - a.address) n a.init)) (b - a.address) n a
                ≡ c =
              some-injective _ _ (rw (inside, long, sized) at e) in
            (
              inside,
              positive,
              subst (λ x. Cleared a x (b - a.address) n) same
                  (clear_as-Cleared a (b - a.address) n _ refl),
            )
      ]
    ]
