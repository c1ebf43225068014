-- ===== src/Process/Tests.antt =====
-- The theorems on the process state at concrete inputs.
use seec.Common.{◌≡◌, refl, true, some, [], ◌∷◌, arith}
use seec.Interval.{read_only}
use seec.Memory.{empty_memory}
use seec.Streams.{StreamState, DirState, stream_state, no_standard_stream}
use package.seec.Process.{
  ProcessState, malloc_state, unremove_malloc, close_stream, restore_stream, add_known_memory,
  remove_known_memory, pop_allocator, push_allocator,
}
use package.seec.Process.Undoing.{IsWellFormed, restore_stream-close_stream}

abbrev opened : StreamState
opened = stream_state 96 no_standard_stream [] []

abbrev started : ProcessState
started = record {
  process_time = 0;
  mallocs = (64, malloc_state 64 4 1) ∷ [];
  previous_mallocs = [];
  memory = empty_memory;
  known_memory = [];
  streams = (96, opened) ∷ [];
  streams_closed = [];
  dirs = [];
}

started-IsWellFormed : IsWellFormed started
started-IsWellFormed = record {
  mallocs_sorted = (omega arith, tt);
  mallocs_keyed = λ a s e. ground (arith, e);
  streams_sorted = (omega arith, tt);
  streams_keyed = λ a s e. ground (arith, e);
}

abbrev freed : ProcessState
freed = record started { mallocs = []; previous_mallocs = malloc_state 64 4 1 ∷ [] }

malloc_restored : unremove_malloc freed 64 ≡ some started
unfolding unremove_malloc
malloc_restored = refl

restore_stream-close_stream_example :
    ((close_stream started 96).0 ≡ true)
    × (restore_stream (close_stream started 96).1 96 ≡ (true, started))
restore_stream-close_stream_example =
    restore_stream-close_stream started 96 started-IsWellFormed refl

abbrev other : StreamState
other = stream_state 112 no_standard_stream [] []

abbrev dir : DirState
dir = record { dir_address = 128; dirname = 46 ∷ [] }

known_memory_runs :
    remove_known_memory (add_known_memory started 8 4 read_only) 10 ≡ (true, started)
unfolding remove_known_memory add_known_memory
known_memory_runs = refl

pop_allocator_runs :
    pop_allocator (push_allocator 3 (malloc_state 64 4 1)) ≡ some (malloc_state 64 4 1)
unfolding pop_allocator
pop_allocator_runs = refl
