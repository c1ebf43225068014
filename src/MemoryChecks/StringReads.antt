-- ===== src/MemoryChecks/StringReads.antt =====
-- What a function of the C library may rely on after the check of a C string.
use seec.Common.{
  ℕ, ◌+◌, ◌-◌, ◌≤◌, ◌<◌, ◌≡◌, refl, sym, ap, ◌∙◌, inl, inr, Bool, Bool-cases, true, false, Option,
  none, some, List, [], ◌∷◌, ◌++◌, arith, >>=-eq-some, some-injective, if◌then◌else◌,
}
use seec.Interval.{
  word, MemoryArea, memory_area, area_length, contains_interval, with_start, with_start_length,
}
use seec.StdMap.Related.{Related}
use seec.Memory.{MemoryState, region_is_completely_initialized}
use seec.TraceMemory.{has_known_state}
use seec.TraceMemory.Agreement.{Mirrors}
use seec.TraceMemory.Known.{has_known_state-region_is_completely_initialized}
use package.seec.MemoryChecks.{
  Process, PointerTarget, reads, RunError, Check, passes, fails, get_c_string_in_area,
  check_c_string_is_valid,
}
use package.seec.MemoryChecks.Parameters.{
  memory_exists_for_parameter, check_memory_access_for_parameter, guarded, read_found, read_in_area,
  check_c_string_read,
}
use package.seec.MemoryChecks.CStrings.{FirstTerminator, get_c_string_in_area-cases}

++-is_empty : (es fs : List RunError) → es ++ fs ≡ [] → fs ≡ []
++-is_empty [] fs e = e
++-is_empty (x ∷ es) fs e = absurd (cc e)

guarded-inverts :
    (check : Check Bool) (next : Option (Check ℕ)) (n : ℕ)
    → 0 < n
    → guarded check next ≡ some (n, [])
    → next ≡ some (n, [])
guarded-inverts (false, errors) next n positive e =
    let nothing : 0 ≡ n = ap (λ (c : Check ℕ). c.0) (some-injective _ _ e) in absurd (omega arith)
guarded-inverts (true, errors) next n positive e =
    let (rest, at_rest, answer) = >>=-eq-some next _ e in
    let both = some-injective _ _ answer in
    let same : rest.0 ≡ n = ap (λ (c : Check ℕ). c.0) both in
    let clean : rest.1 ≡ [] = ++-is_empty errors rest.1 (ap (λ (c : Check ℕ). c.1) both) in
    at_rest ∙ ap (λ k. some (k, rest.1)) same ∙ ap (λ (es : List RunError). some (n, es)) clean

no_error-is_true :
    (b : Bool) (error : RunError) → (if b then passes else fails error).1 ≡ [] → b ≡ true
no_error-is_true true error e = refl
no_error-is_true false error e = absurd (cc e)

check_memory_access_for_parameter-known :
    (p : Process) (parameter a n : ℕ) (area : MemoryArea) (check : Check Bool)
    → check_memory_access_for_parameter p parameter a n reads area ≡ some check
    → check.1 ≡ []
    → has_known_state p.memory a n ≡ some true
unfolding check_memory_access_for_parameter
check_memory_access_for_parameter-known p parameter a n area check e clean =
    elim (Bool-cases (contains_interval area.range (with_start_length a n))) [
      | inl inside ↦
          let (known, at_known, answer) =
            >>=-eq-some (has_known_state p.memory a n) _ (rw inside at e) in
          let same = some-injective _ _ answer in
          at_known ∙ ap some (no_error-is_true known _ (ap (λ (c : Check Bool). c.1) same ∙ clean))
      | inr outside ↦
          let (rest, at_rest, answer) = >>=-eq-some (with_start area.range a) _ (rw outside at e) in
          let same = some-injective _ _ answer in
          absurd (cc (ap (λ (c : Check Bool). c.1) same ∙ clean))
    ]

read_found-inverts :
    (p : Process) (parameter a n : ℕ) (found : Option MemoryArea)
    → read_found p parameter a found ≡ some (n, [])
    → (string : MemoryArea) × (found ≡ some string)
      × (area_length string ≡ n)
      × (has_known_state p.memory a (area_length string) ≡ some true)
read_found-inverts p parameter a n none e = absurd (cc e)
read_found-inverts p parameter a n (some string) e =
    let (check, at_check, answer) =
      >>=-eq-some
        (check_memory_access_for_parameter p parameter a (area_length string) reads string) _ e in
    let both = some-injective _ _ answer in
    (
      string,
      refl,
      ap (λ (c : Check ℕ). c.0) both,
      check_memory_access_for_parameter-known p parameter a (area_length string) string check
          at_check (ap (λ (c : Check ℕ). c.1) both),
    )

read_in_area-inverts :
    (p : Process) (chars : ℕ → ℕ) (parameter a n : ℕ) (area : Option MemoryArea)
    → 0 < n
    → read_in_area p chars parameter a area ≡ some (n, [])
    → (outer string : MemoryArea) × (area ≡ some outer)
      × (get_c_string_in_area chars a outer ≡ some (some string))
      × (area_length string ≡ n)
      × (has_known_state p.memory a (area_length string) ≡ some true)
read_in_area-inverts p chars parameter a n none positive e = absurd (cc e)
read_in_area-inverts p chars parameter a n (some area) positive e =
    let (found, at_found, after) = >>=-eq-some (get_c_string_in_area chars a area) _ e in
    let (valid, at_valid, guarded_read) =
      >>=-eq-some (check_c_string_is_valid p a parameter found) _ after in
    let (string, is_string, size, known) =
      read_found-inverts p parameter a n found (guarded-inverts valid _ n positive guarded_read) in
    (area, string, refl, at_found ∙ ap some is_string, size, known)

-- The bytes of a string that was found are the area up to its terminator.
string_within :
    (chars : ℕ → ℕ) (a : ℕ) (area string : MemoryArea)
    → area.range.end < word
    → a ≤ area.range.end
    → get_c_string_in_area chars a area ≡ some (some string)
    → (i : ℕ) × FirstTerminator chars a 0 (area.range.end - a) i × (area_length string ≡ i + 1)
string_within chars a area string small inside e =
    elim (get_c_string_in_area-cases chars a area small inside) [
      | inl (i, found, first) ↦
          let same : memory_area a (i + 1) ≡ string =
            some-injective _ _ (some-injective _ _ (sym found ∙ e)) in
          let low : i < 0 + (area.range.end - a) = first.high in
          let size : area_length (memory_area a (i + 1)) ≡ i + 1 = omega (arith, low) in
          (i, first, ap area_length (sym same) ∙ size)
      | inr (nothing, all) ↦ absurd (cc (some-injective _ _ (sym nothing ∙ e)))
    ]

-- Where `checkCStringRead` gives a positive length and raises no error, and the area that the
-- process has at the string's address contains that address and ends before the end of the address
-- space, the length is that of the string with its terminator, which is the first NUL from the
-- address on and stands in the area; and where the shadow memory agrees with a recreated memory, all
-- bytes of the string are initialized in that memory.
pub check_c_string_read-reads :
    (p : Process) (m : MemoryState) (chars : ℕ → ℕ) (is_call : Bool) (parameter a n : ℕ)
    (target : Option PointerTarget)
    → Related Mirrors p.memory m.allocations
    → ((area : MemoryArea)
        → p.containing_area a ≡ some area
        → (area.range.end < word) × (a ≤ area.range.end))
    → 0 < n
    → check_c_string_read p chars is_call parameter a target ≡ some (n, [])
    → (area : MemoryArea) × (p.containing_area a ≡ some area)
      × (i : ℕ) × FirstTerminator chars a 0 (area.range.end - a) i
      × (n ≡ i + 1)
      × (region_is_completely_initialized m (memory_area a n) ≡ some true)
unfolding check_c_string_read
check_c_string_read-reads p m chars is_call parameter a n target agree areas positive e =
    let checked = memory_exists_for_parameter p is_call parameter a (p.containing_area a) target in
    let read = guarded-inverts checked _ n positive e in
    let (area, string, at_area, found, size, known) =
      read_in_area-inverts p chars parameter a n (p.containing_area a) positive read in
    let (small, inside) = areas area at_area in
    let (i, first, long) = string_within chars a area string small inside found in
    let whole : n ≡ i + 1 = sym size ∙ long in
    let below : i < 0 + (area.range.end - a) = first.high in
    let fits : a + n < word = omega (arith, below, whole, small, inside) in
    let sure : has_known_state p.memory a n ≡ some true =
      ap (has_known_state p.memory a) (sym size) ∙ known in
    (
      area,
      at_area,
      i,
      first,
      whole,
      has_known_state-region_is_completely_initialized p.memory m a n true agree fits positive sure,
    )
