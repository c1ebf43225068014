-- ===== src/Events/Moving.antt =====
-- Moving a thread backward over the event that it was moved forward over.
use seec.Common.{
  ℕ, ◌+◌, ◌-◌, ◌%◌, ◌<◌, ◌≡◌, refl, ap, ◌∙◌, false, true, Option, none, some, List, >>=-eq-some,
  some-injective, subst, length, ◌>>=◌, ◌>>◌, assert, [], ◌∷◌, inl, inr, arith, Bool-cases,
}
use seec.Interval.{word}
use seec.StdMap.{has, find, erase}
use seec.Memory.{MemoryState, allocation_unremove}
use seec.Memory.View.{MemoryLog, ShowsMemory}
use seec.Memory.Edits.Observed.{SameRegions}
use seec.Streams.{StreamState, unwrite}
use seec.Streams.Writes
use seec.Process.{
  ProcessState, MallocState, get_stream, unadd_malloc, unremove_malloc, unremove_malloc_top,
  remove_stream, restore_stream, restore_top, remove_dir,
}
use seec.Process.Undoing.{IsWellFormed}
use package.seec.Events.{
  Event, ThreadView, malloc, free, state_untyped, state_memmove, state_clear, file_open, file_write,
  file_close, dir_open, forward_parent, backward_parent, process_time_of, add_event, remove_event,
  after_add, after_remove, previous_view_of_process_time, with_memory,
}
use package.seec.Events.Undoing.{
  Back, malloc-Back, free-Back, state_untyped-Back, state_memmove-Back, state_clear-Back,
  file_open-Back, file_close-Back, file_write-Back, dir_open-Back,
}

-- What a trace of a real execution gives for an event: a new allocation, stream or directory stands
-- at a free address, what is used is there, and areas end before the end of the address space.
pub data Applies (p : ProcessState) : Event → Type 0 where
  mallocs_fresh :
      (a n i t : ℕ) → has a p.mallocs ≡ false → a + n < word → Applies p (malloc a n i t)
  frees_known : (a t : ℕ) → IsWellFormed p → Applies p (free a t)
  writes_block :
      (a : ℕ) (ds : List ℕ) (t : ℕ) → a + length ds < word → Applies p (state_untyped a ds t)
  moves_bytes :
      (source d n t : ℕ) → source + n < word → d + n < word → Applies p (state_memmove source d n t)
  clears_bytes : (a n t : ℕ) → a + n < word → Applies p (state_clear a n t)
  opens_fresh :
      (file : ℕ) (filename mode : List ℕ) (t : ℕ)
      → has file p.streams ≡ false
      → Applies p (file_open file filename mode t)
  closes_known :
      (file t : ℕ) → IsWellFormed p → has file p.streams ≡ true → Applies p (file_close file t)
  writes_known :
      (file : ℕ) (ds : List ℕ) (t : ℕ) (v : StreamState)
      → get_stream p file ≡ some v
      → Writes.IsWellFormed v
      → Applies p (file_write file ds t)
  opens_fresh_dir :
      (dir : ℕ) (name : List ℕ) (t : ℕ) → has dir p.dirs ≡ false → Applies p (dir_open dir name t)

backward_parent-forward_parent :
    (p : ProcessState) (s : MemoryLog) (p' : ProcessState) (e : Event)
    → ShowsMemory p.memory s
    → Applies p e
    → forward_parent e p ≡ some p'
    → Back p s (backward_parent e p')
backward_parent-forward_parent p s p' e sh (mallocs_fresh a n i t f w) h =
    malloc-Back p s sh p' a n i t f w h
backward_parent-forward_parent p s p' e sh (frees_known a t f) h = free-Back p s sh p' a t f h
backward_parent-forward_parent p s p' e sh (writes_block a ds t w) h =
    state_untyped-Back p s sh p' a ds t w h
backward_parent-forward_parent p s p' e sh (moves_bytes source d n t w w') h =
    state_memmove-Back p s sh p' source d n t w w' h
backward_parent-forward_parent p s p' e sh (clears_bytes a n t w) h =
    state_clear-Back p s sh p' a n t w h
backward_parent-forward_parent p s p' e sh (opens_fresh file filename mode t f) h =
    file_open-Back p s sh p' file filename mode t f h
backward_parent-forward_parent p s p' e sh (closes_known file t f o) h =
    file_close-Back p s sh p' file t f o h
backward_parent-forward_parent p s p' e sh (writes_known file ds t v found f) h =
    file_write-Back p s sh p' file ds t v found f h
backward_parent-forward_parent p s p' e sh (opens_fresh_dir dir name t f) h =
    dir_open-Back p s sh p' dir name t f h

-- The process time that `removeEvent` leaves.
abbrev pub time_before : Option ℕ → ℕ → ℕ
time_before none now = now
time_before (some t) now = (t + word - 1) % word

-- The view `v` with another memory, and with the process time that `removeEvent` leaves.
abbrev pub view_before : ThreadView → MemoryState → Option ℕ → ThreadView
view_before v n t = record {
  parent = record v.parent { memory = n; process_time = time_before t v.parent.process_time };
  time = v.time;
}

abbrev timed : ℕ → ProcessState → ProcessState
timed t p = record p { process_time = t }

with_memory-timed :
    (t : ℕ) (p : ProcessState) (o : Option MemoryState)
    → with_memory (timed t p) o ≡ (with_memory p o >>= λ x. some (timed t x))
with_memory-timed t p none = refl
with_memory-timed t p (some m) = refl

unremove_timed :
    (t a : ℕ) (p : ProcessState) (xs : List MallocState)
    → unremove_malloc_top (timed t p) a xs ≡ (unremove_malloc_top p a xs >>= λ x. some (timed t x))
unremove_timed t a p [] = refl
unremove_timed t a p (x ∷ xs) = ground arith

restore_timed :
    (t a : ℕ) (p : ProcessState) (xs : List StreamState)
    → (assert (restore_top (timed t p) a xs).0 >> some (restore_top (timed t p) a xs).1)
      ≡ (assert (restore_top p a xs).0 >> some (restore_top p a xs).1 >>= λ x. some (timed t x))
restore_timed t a p [] = refl
restore_timed t a p (x ∷ xs) = ground arith

bind_timed :
    (t : ℕ) (o : Option ProcessState) (g : ProcessState → Option ProcessState)
    → ((x : ProcessState) → g (timed t x) ≡ (g x >>= λ y. some (timed t y)))
    → ((o >>= λ x. some (timed t x)) >>= g) ≡ ((o >>= g) >>= λ y. some (timed t y))
bind_timed t none g h = refl
bind_timed t (some x) g h = h x

found_timed {ℓ} :
    {A : Type ℓ} (t : ℕ) (o : Option A) (g h : A → Option ProcessState)
    → ((x : A) → g x ≡ (h x >>= λ y. some (timed t y)))
    → (o >>= g) ≡ ((o >>= h) >>= λ y. some (timed t y))
found_timed t none g h e = refl
found_timed t (some x) g h e = e x

-- Moving backward over an event does not look at the process time.
backward_parent-timed :
    (t : ℕ) (p q : ProcessState) (e : Event)
    → Applies p e
    → backward_parent e (timed t q) ≡ (backward_parent e q >>= λ x. some (timed t x))
unfolding backward_parent unadd_malloc unremove_malloc remove_stream restore_stream remove_dir
    get_stream
backward_parent-timed t p q e (mallocs_fresh a n i t' f w) = elim (Bool-cases (has a q.mallocs)) [
  | inl there ↦ rw there (with_memory-timed t (record q { mallocs = erase a q.mallocs }) _)
  | inr missing ↦ rw missing refl
]
backward_parent-timed t p q e (frees_known a t' f) =
    ap
      (λ o.
        o >>= λ x. find a x.mallocs >>= λ y. with_memory x (allocation_unremove x.memory a y.size))
      (unremove_timed t a q q.previous_mallocs)
    ∙ bind_timed t (unremove_malloc_top q a q.previous_mallocs)
        (λ x. find a x.mallocs >>= λ y. with_memory x (allocation_unremove x.memory a y.size))
        (λ x.
          found_timed t (find a x.mallocs)
            (λ y. with_memory (timed t x) (allocation_unremove x.memory a y.size))
            (λ y. with_memory x (allocation_unremove x.memory a y.size))
            (λ y. with_memory-timed t x _))
backward_parent-timed t p q e (writes_block a ds t' w) = with_memory-timed t q _
backward_parent-timed t p q e (moves_bytes source d n t' w w') = with_memory-timed t q _
backward_parent-timed t p q e (clears_bytes a n t' w) = with_memory-timed t q _
backward_parent-timed t p q e (opens_fresh file filename mode t' f) = refl
backward_parent-timed t p q e (closes_known file t' f o) = restore_timed t file q q.streams_closed
backward_parent-timed t p q e (writes_known file ds t' v found f) =
    found_timed t (find file q.streams) _ _
      (λ y. found_timed t (unwrite y (length ds)) _ _ (λ u. refl))
backward_parent-timed t p q e (opens_fresh_dir dir name t' f) = refl

-- A thread whose view of the process time is that of its earlier events, in a process whose memory
-- shows a log: moving it forward over an event that applies, with success, and backward again
-- succeeds. The view is then as before except for the memory and, where the event carries a process
-- time, the shared process time, which is one before the event's. The memory shows the same log, and
-- every region has the initialization and the initialized bytes that it had; bytes that are not
-- initialized may differ.
pub remove_event-add_event :
    (v v' : ThreadView) (s : MemoryLog) (earlier : List (Option ℕ)) (e : Event)
    → ShowsMemory v.parent.memory s
    → Applies v.parent e
    → v.time ≡ previous_view_of_process_time earlier
    → add_event e v ≡ some v'
    → (n : MemoryState) × (remove_event earlier e v' ≡ some (view_before v n (process_time_of e)))
      × ShowsMemory n s
      × SameRegions n v.parent.memory
unfolding add_event remove_event
remove_event-add_event v v' s earlier e sh ap_e viewed h =
    let (p', fwd, last) = >>=-eq-some (forward_parent e v.parent) _ h in
    let (n, back, shn, seen) = backward_parent-forward_parent v.parent s p' e sh ap_e fwd in
    (n, moved (process_time_of e) p' n back (some-injective _ _ last), shn, seen)
  where
    moved :
        (o : Option ℕ) (p' : ProcessState) (n : MemoryState)
        → backward_parent e p' ≡ some (record v.parent { memory = n })
        → after_add o v p' ≡ v'
        → (backward_parent e v'.parent >>= λ p. some (after_remove o earlier v' p))
          ≡ some (view_before v n o)
    moved none p' n back e' =
        subst
          (λ x.
            (backward_parent e x.parent >>= λ p. some (after_remove none earlier x p))
            ≡ some (view_before v n none))
          e' (rw back refl)
    moved (some t) p' n back e' =
        subst
          (λ x.
            (backward_parent e x.parent >>= λ p. some (after_remove (some t) earlier x p))
            ≡ some (view_before v n (some t)))
          e' (rw (backward_parent-timed t v.parent p' e ap_e, back, ← viewed) refl)
