-- ===== src/Process.antt =====
-- class MallocState and class ProcessState of include/seec/Trace/ProcessState.hpp and
-- lib/Trace/ProcessState.cpp: the dynamic allocations, the open streams and directories and the
-- known regions, with the stacks of what was removed (their backs at the heads of the lists). The
-- instruction that allocated is a number. A method that asserts returns an option; one that
-- returns a flag returns it with the state.
pub mod Undoing
mod Tests
use seec.Common.{
  ℕ, ◌+◌, ◌-◌, ◌%◌, Bool, true, false, not, ◌||◌, Option, none, some, List, [], ◌∷◌, ◌==◌, assert,
  ◌>>=◌, ◌>>◌, is_empty, if◌then◌else◌, get_elem?,
}
use seec.Interval.{MemoryPermission, MemoryArea, memory_area, memory_area_with, contains, word}
use seec.StdMap.{Map, find, has, insert, erase, assign, floor}
use seec.IntervalMap
use seec.IntervalMap.{IntervalMapItem}
use seec.Memory.{MemoryState, empty_memory}
use seec.Streams.{StreamState, DirState}

pub record MallocState : Type 0 where
  pub address : ℕ
  pub size : ℕ
  pub allocators : List ℕ

-- The constructor, and the mutators; the current allocator is at the head of the list.
abbrev pub malloc_state : ℕ → ℕ → ℕ → MallocState
malloc_state a n i = record { address = a; size = n; allocators = i ∷ [] }

abbrev pub push_allocator : ℕ → MallocState → MallocState
push_allocator i s = record s { allocators = i ∷ s.allocators }

abbrev pub pop_list : List ℕ → Option (List ℕ)
pop_list [] = none
pop_list (x ∷ []) = none
pop_list (x ∷ y ∷ ys) = some (y ∷ ys)

unfoldable pub pop_allocator : MallocState → Option MallocState
pop_allocator s = pop_list s.allocators >>= λ is. some (record s { allocators = is })

abbrev pub set_size : ℕ → MallocState → MallocState
set_size n s = record s { size = n }

pub record ProcessState : Type 0 where
  pub process_time : ℕ
  pub mallocs : Map MallocState
  pub previous_mallocs : List MallocState
  pub memory : MemoryState
  pub known_memory : List (IntervalMapItem MemoryPermission)
  pub streams : Map StreamState
  pub streams_closed : List StreamState
  pub dirs : Map DirState

unfoldable pub add_malloc : ProcessState → ℕ → ℕ → ℕ → ProcessState
add_malloc p a n i = record p { mallocs = insert a (malloc_state a n i) p.mallocs }

unfoldable pub unadd_malloc : ProcessState → ℕ → Option ProcessState
unadd_malloc p a = assert (has a p.mallocs) >> some (record p { mallocs = erase a p.mallocs })

unfoldable pub remove_malloc : ProcessState → ℕ → Option ProcessState
remove_malloc p a = find a p.mallocs >>= λ s.
    some (record p { previous_mallocs = s ∷ p.previous_mallocs; mallocs = erase a p.mallocs })

abbrev pub unremove_malloc_top : ProcessState → ℕ → List MallocState → Option ProcessState
unremove_malloc_top p a [] = none
unremove_malloc_top p a (s ∷ rest) =
    assert (s.address == a)
    >> some (record p { mallocs = insert a s p.mallocs; previous_mallocs = rest })

unfoldable pub unremove_malloc : ProcessState → ℕ → Option ProcessState
unremove_malloc p a = unremove_malloc_top p a p.previous_mallocs

-- The sum of `Address` and `Length - 1` wraps.
unfoldable pub add_known_memory : ProcessState → ℕ → ℕ → MemoryPermission → ProcessState
unfolding IntervalMap.insert
add_known_memory p a n access = record p {
  known_memory = (IntervalMap.insert a ((a + (n + word - 1)) % word) access p.known_memory).2;
}

unfoldable pub remove_known_memory : ProcessState → ℕ → Bool × ProcessState
unfolding IntervalMap.erase
remove_known_memory p a =
    let (n, rest) = IntervalMap.erase a p.known_memory in
    (not (n == 0), record p { known_memory = rest })

unfoldable pub add_stream : ProcessState → StreamState → Bool × ProcessState
add_stream p s =
    (not (has s.address p.streams), record p { streams = insert s.address s p.streams })

unfoldable pub remove_stream : ProcessState → ℕ → Bool × ProcessState
remove_stream p a = (has a p.streams, record p { streams = erase a p.streams })

abbrev pub close_found : ProcessState → ℕ → Option StreamState → Bool × ProcessState
close_found p a none = (false, p)
close_found p a (some s) =
    (true, record p { streams_closed = s ∷ p.streams_closed; streams = erase a p.streams })

unfoldable pub close_stream : ProcessState → ℕ → Bool × ProcessState
close_stream p a = close_found p a (find a p.streams)

abbrev pub restore_top : ProcessState → ℕ → List StreamState → Bool × ProcessState
restore_top p a [] = (false, p)
restore_top p a (s ∷ rest) =
    if s.address == a
    then (true, record p { streams = insert a s p.streams; streams_closed = rest })
    else (false, p)

unfoldable pub restore_stream : ProcessState → ℕ → Bool × ProcessState
restore_stream p a = restore_top p a p.streams_closed

unfoldable pub get_stream : ProcessState → ℕ → Option StreamState
get_stream p a = find a p.streams

-- `StreamsInitial` is the trace's list of initial streams.
unfoldable pub get_stream_stdout : List ℕ → ProcessState → Option StreamState
unfolding get_stream
get_stream_stdout streams_initial p = get_elem? streams_initial 1 >>= get_stream p

unfoldable pub add_dir : ProcessState → DirState → Bool × ProcessState
add_dir p d = (not (has d.dir_address p.dirs), record p { dirs = insert d.dir_address d p.dirs })

unfoldable pub remove_dir : ProcessState → ℕ → Bool × ProcessState
remove_dir p a = (has a p.dirs, record p { dirs = erase a p.dirs })

unfoldable pub get_dir : ProcessState → ℕ → Option DirState
get_dir p a = find a p.dirs
