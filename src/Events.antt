-- ===== src/Events.antt =====
-- `ThreadState::addEvent` and `removeEvent` of lib/Trace/ThreadState.cpp, for the events that
-- change the shared process state. An event carries what the code looks up for it in the trace: a
-- string or a block in place of an offset, the address that the preceding InstructionWithPtr
-- returned, the active instruction. A failed assertion, a write through `nullptr` or through
-- `end()` is `none`.
pub mod Undoing
pub mod Moving
mod Tests
use seec.Common.{
  ℕ, ◌+◌, ◌-◌, ◌%◌, Bool, true, false, not, ◌&&◌, Option, none, some, List, [], ◌∷◌, ◌==◌, assert,
  ◌>>=◌, ◌>>◌, if◌then◌else◌, length,
}
use seec.Interval.{
  word, MemoryPermission, none_access, read_only, write_only, read_write, memory_area,
}
use seec.StdMap.{find, assign}
use seec.Allocation.{mapped_memory_block}
use seec.Memory.{
  MemoryState, allocation_add, allocation_unadd, allocation_remove, allocation_unremove,
  allocation_resize, allocation_unresize, add_block, remove_block, add_copy, remove_copy, add_clear,
  remove_clear, region_is_completely_initialized, region_byte_values,
}
use seec.Streams.{StreamState, no_standard_stream, stream_state, write, unwrite, DirState}
use seec.Process.{
  ProcessState, push_allocator, set_size, add_malloc, unadd_malloc, remove_malloc, unremove_malloc,
  add_known_memory, remove_known_memory, add_stream, remove_stream, close_stream, restore_stream,
  get_stream, add_dir, remove_dir,
}

-- A thread's view: the process state that it shares, and its own process time.
pub record ThreadView : Type 0 where
  pub parent : ProcessState
  pub time : ℕ

pub data Event : Type 0 where
  -- Address, size, allocator, process time.
  malloc : ℕ → ℕ → ℕ → ℕ → Event
  -- Address, process time.
  free file_close : ℕ → ℕ → Event
  -- Address, old size, new size, active instruction, process time.
  realloc : ℕ → ℕ → ℕ → ℕ → ℕ → Event
  -- Address, bytes, process time: StateUntypedSmall and StateUntyped. FILE, bytes, process time.
  state_untyped file_write : ℕ → List ℕ → ℕ → Event
  -- Source, destination, size, process time.
  state_memmove : ℕ → ℕ → ℕ → ℕ → Event
  -- Address, size, process time.
  state_clear : ℕ → ℕ → ℕ → Event
  -- Address, size, readable, writable.
  known_region_add known_region_remove : ℕ → ℕ → Bool → Bool → Event
  -- FILE, file name, mode, process time.
  file_open : ℕ → List ℕ → List ℕ → ℕ → Event
  -- FILE, address, size, process time.
  file_write_from_memory : ℕ → ℕ → ℕ → ℕ → Event
  -- DIR, name, process time.
  dir_open dir_close : ℕ → List ℕ → ℕ → Event

abbrev pub region_access : Bool → Bool → MemoryPermission
region_access readable writable =
    if readable
    then (if writable then read_write else read_only)
    else (if writable then write_only else none_access)

-- `Parent.ProcessTime = ProcessTime = Ev.getProcessTime()`.
abbrev pub at_time : ℕ → ProcessState → ThreadView
at_time t p = record { parent = record p { process_time = t }; time = t }

abbrev pub with_memory : ProcessState → Option MemoryState → Option ProcessState
with_memory p o = o >>= λ m. some (record p { memory = m })

abbrev pub write_to : ProcessState → ℕ → StreamState → ProcessState
write_to p file s = record p { streams = assign file s p.streams }

-- `addEvent` of each event, its times aside.
abbrev pub malloc_forward : ℕ → ℕ → ℕ → ProcessState → Option ProcessState
malloc_forward a n i p = with_memory (add_malloc p a n i) (allocation_add p.memory a n)

abbrev pub free_forward : ℕ → ProcessState → Option ProcessState
free_forward a p = do
  s ← find a p.mallocs
  q ← remove_malloc p a
  with_memory q (allocation_remove q.memory a s.size)

abbrev pub realloc_forward : ℕ → ℕ → ℕ → ℕ → ProcessState → Option ProcessState
realloc_forward a current new i p = do
  s ← find a p.mallocs
  let q = record p { mallocs = assign a (set_size new (push_allocator i s)) p.mallocs }
  with_memory q (allocation_resize q.memory a current new)

abbrev pub state_untyped_forward : ℕ → List ℕ → ProcessState → Option ProcessState
state_untyped_forward a ds p = with_memory p (add_block p.memory (mapped_memory_block a ds))

abbrev pub state_memmove_forward : ℕ → ℕ → ℕ → ProcessState → Option ProcessState
state_memmove_forward source d n p = with_memory p (add_copy p.memory source d n)

abbrev pub state_clear_forward : ℕ → ℕ → ProcessState → Option ProcessState
state_clear_forward a n p = with_memory p (add_clear p.memory (memory_area a n))

abbrev pub known_region_add_forward : ℕ → ℕ → Bool → Bool → ProcessState → Option ProcessState
known_region_add_forward a n r w p =
    with_memory (add_known_memory p a n (region_access r w)) (allocation_add p.memory a n)

abbrev pub known_region_remove_forward : ℕ → ℕ → ProcessState → Option ProcessState
known_region_remove_forward a n p =
    with_memory (remove_known_memory p a).1 (allocation_remove p.memory a n)

abbrev pub file_open_forward : ℕ → List ℕ → List ℕ → ProcessState → Option ProcessState
file_open_forward file filename mode p =
    some (add_stream p (stream_state file no_standard_stream filename mode)).1

abbrev pub file_write_forward : ℕ → List ℕ → ProcessState → Option ProcessState
file_write_forward file ds p = get_stream p file >>= λ s. some (write_to p file (write s ds))

abbrev pub file_write_from_memory_forward : ℕ → ℕ → ℕ → ProcessState → Option ProcessState
file_write_from_memory_forward file a n p = do
  s ← get_stream p file
  complete ← region_is_completely_initialized p.memory (memory_area a n)
  assert (if n == 0 then true else complete)
  ds ← region_byte_values p.memory (memory_area a n)
  some (write_to p file (write s ds))

abbrev pub file_close_forward : ℕ → ProcessState → Option ProcessState
file_close_forward file p = some (close_stream p file).1

abbrev pub dir_open_forward : ℕ → List ℕ → ProcessState → Option ProcessState
dir_open_forward dir name p = some (add_dir p (record { dir_address = dir; dirname = name })).1

abbrev pub dir_close_forward : ℕ → ProcessState → Option ProcessState
dir_close_forward dir p = some (remove_dir p dir).1

unfoldable pub forward_parent : Event → ProcessState → Option ProcessState
forward_parent (malloc a n i t) p = malloc_forward a n i p
forward_parent (free a t) p = free_forward a p
forward_parent (realloc a current new i t) p = realloc_forward a current new i p
forward_parent (state_untyped a ds t) p = state_untyped_forward a ds p
forward_parent (state_memmove source d n t) p = state_memmove_forward source d n p
forward_parent (state_clear a n t) p = state_clear_forward a n p
forward_parent (known_region_add a n r w) p = known_region_add_forward a n r w p
forward_parent (known_region_remove a n r w) p = known_region_remove_forward a n p
forward_parent (file_open file filename mode t) p = file_open_forward file filename mode p
forward_parent (file_write file ds t) p = file_write_forward file ds p
forward_parent (file_write_from_memory file a n t) p = file_write_from_memory_forward file a n p
forward_parent (file_close file t) p = file_close_forward file p
forward_parent (dir_open dir name t) p = dir_open_forward dir name p
forward_parent (dir_close dir name t) p = dir_close_forward dir p

-- `getProcessTime()` of an event; the known regions have none.
abbrev pub process_time_of : Event → Option ℕ
process_time_of (malloc a n i t) = some t
process_time_of (free a t) = some t
process_time_of (realloc a current new i t) = some t
process_time_of (state_untyped a ds t) = some t
process_time_of (state_memmove source d n t) = some t
process_time_of (state_clear a n t) = some t
process_time_of (known_region_add a n r w) = none
process_time_of (known_region_remove a n r w) = none
process_time_of (file_open file filename mode t) = some t
process_time_of (file_write file ds t) = some t
process_time_of (file_write_from_memory file a n t) = some t
process_time_of (file_close file t) = some t
process_time_of (dir_open dir name t) = some t
process_time_of (dir_close dir name t) = some t

abbrev pub after_add : Option ℕ → ThreadView → ProcessState → ThreadView
after_add none v p = record v { parent = p }
after_add (some t) v p = at_time t p

unfoldable pub add_event : Event → ThreadView → Option ThreadView
unfolding forward_parent
add_event e v = forward_parent e v.parent >>= λ p. some (after_add (process_time_of e) v p)

-- `removeEvent` of each event, its times aside.
abbrev pub malloc_backward : ℕ → ℕ → ProcessState → Option ProcessState
malloc_backward a n p = unadd_malloc p a >>= λ q. with_memory q (allocation_unadd q.memory a n)

abbrev pub free_backward : ℕ → ProcessState → Option ProcessState
free_backward a p = do
  q ← unremove_malloc p a
  s ← find a q.mallocs
  with_memory q (allocation_unremove q.memory a s.size)

abbrev pub realloc_backward : ℕ → ℕ → ℕ → ProcessState → Option ProcessState
realloc_backward a current new p = do
  s ← find a p.mallocs
  let q = record p { mallocs = assign a (set_size current s) p.mallocs }
  with_memory q (allocation_unresize q.memory a new current)

abbrev pub state_untyped_backward : ℕ → List ℕ → ProcessState → Option ProcessState
state_untyped_backward a ds p = with_memory p (remove_block p.memory (memory_area a (length ds)))

abbrev pub state_memmove_backward : ℕ → ℕ → ℕ → ProcessState → Option ProcessState
state_memmove_backward source d n p = with_memory p (remove_copy p.memory source d n)

abbrev pub state_clear_backward : ℕ → ℕ → ProcessState → Option ProcessState
state_clear_backward a n p = with_memory p (remove_clear p.memory (memory_area a n))

abbrev pub known_region_add_backward : ℕ → ℕ → ProcessState → Option ProcessState
known_region_add_backward a n p =
    with_memory (remove_known_memory p a).1 (allocation_unadd p.memory a n)

abbrev pub known_region_remove_backward : ℕ → ℕ → Bool → Bool → ProcessState → Option ProcessState
known_region_remove_backward a n r w p =
    with_memory (add_known_memory p a n (region_access r w)) (allocation_unremove p.memory a n)

abbrev pub file_open_backward : ℕ → ProcessState → Option ProcessState
file_open_backward file p = some (remove_stream p file).1

abbrev pub file_write_backward : ℕ → List ℕ → ProcessState → Option ProcessState
file_write_backward file ds p =
    get_stream p file >>= λ s. unwrite s (length ds) >>= λ u. some (write_to p file u)

abbrev pub file_write_from_memory_backward : ℕ → ℕ → ProcessState → Option ProcessState
file_write_from_memory_backward file n p =
    get_stream p file >>= λ s. unwrite s n >>= λ u. some (write_to p file u)

abbrev pub file_close_backward : ℕ → ProcessState → Option ProcessState
file_close_backward file p = let (restored, q) = restore_stream p file in assert restored >> some q

abbrev pub dir_open_backward : ℕ → ProcessState → Option ProcessState
dir_open_backward dir p = some (remove_dir p dir).1

abbrev pub dir_close_backward : ℕ → List ℕ → ProcessState → Option ProcessState
dir_close_backward dir name p = some (add_dir p (record { dir_address = dir; dirname = name })).1

unfoldable pub backward_parent : Event → ProcessState → Option ProcessState
backward_parent (malloc a n i t) p = malloc_backward a n p
backward_parent (free a t) p = free_backward a p
backward_parent (realloc a current new i t) p = realloc_backward a current new p
backward_parent (state_untyped a ds t) p = state_untyped_backward a ds p
backward_parent (state_memmove source d n t) p = state_memmove_backward source d n p
backward_parent (state_clear a n t) p = state_clear_backward a n p
backward_parent (known_region_add a n r w) p = known_region_add_backward a n p
backward_parent (known_region_remove a n r w) p = known_region_remove_backward a n r w p
backward_parent (file_open file filename mode t) p = file_open_backward file p
backward_parent (file_write file ds t) p = file_write_backward file ds p
backward_parent (file_write_from_memory file a n t) p = file_write_from_memory_backward file n p
backward_parent (file_close file t) p = file_close_backward file p
backward_parent (dir_open dir name t) p = dir_open_backward dir p
backward_parent (dir_close dir name t) p = dir_close_backward dir name p

-- `setPreviousViewOfProcessTime`: the process times of the thread's earlier events, the last
-- first.
unfoldable pub previous_view_of_process_time : List (Option ℕ) → ℕ
previous_view_of_process_time [] = 0
previous_view_of_process_time (none ∷ ts) = previous_view_of_process_time ts
previous_view_of_process_time (some t ∷ ts) = t

abbrev pub after_remove : Option ℕ → List (Option ℕ) → ThreadView → ProcessState → ThreadView
after_remove none earlier v p = record v { parent = p }
after_remove (some t) earlier v p = record {
  parent = record p { process_time = (t + word - 1) % word };
  time = previous_view_of_process_time earlier;
}

unfoldable pub remove_event : List (Option ℕ) → Event → ThreadView → Option ThreadView
unfolding backward_parent previous_view_of_process_time
remove_event earlier e v =
    backward_parent e v.parent >>= λ p. some (after_remove (process_time_of e) earlier v p)
