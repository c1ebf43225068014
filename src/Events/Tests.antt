-- ===== src/Events/Tests.antt =====
-- The theorems on events at concrete inputs.
use seec.Common.{◌≡◌, refl, Option, none, some, [], ◌∷◌, arith}
use seec.Allocation.{allocation}
use seec.Allocation.Log.{empty_log}
use seec.Memory.{MemoryState}
use seec.Memory.View.{MemoryLog, ShowsMemory}
use seec.Memory.Edits.Observed.{SameRegions}
use seec.Process.{ProcessState, malloc_state}
use package.seec.Events.{Event, ThreadView, malloc, add_event, remove_event}
use package.seec.Events.Moving.{view_before, mallocs_fresh, remove_event-add_event}

abbrev memory_log : MemoryLog
memory_log = record { blocks = (64, empty_log 4) ∷ []; removed = [] }

abbrev view : ThreadView
view = record {
  parent = record {
    process_time = 6;
    mallocs = (64, malloc_state 64 4 1) ∷ [];
    previous_mallocs = [];
    memory = record { allocations = (64, allocation 64 4) ∷ []; previous_allocations = [] };
    known_memory = [];
    streams = [];
    streams_closed = [];
    dirs = [];
  };
  time = 5;
}

view-ShowsMemory : ShowsMemory view.parent.memory memory_log
view-ShowsMemory = record {
  sorted = (omega arith, tt);
  current = (
    refl,
    record {
      here = refl;
      sized = refl;
      fits = omega arith;
      shown = record {
        bytes_fill = refl;
        init_fill = refl;
        cells_shown = refl;
        undo_shown = (refl, refl, refl);
      };
    },
    tt,
  );
  past = tt;
}

abbrev the : Option ThreadView → ThreadView
the none = view
the (some v) = v

remove_event-add_event_example :
    (n : MemoryState) × (remove_event
        (some 5 ∷ [])
        (malloc 80 2 3 7)
        (the (add_event (malloc 80 2 3 7) view))
      ≡ some (view_before view n (some 7)))
    × ShowsMemory n memory_log
    × SameRegions n view.parent.memory
unfolding add_event seec.Events.previous_view_of_process_time seec.Memory.allocation_add
remove_event-add_event_example =
    remove_event-add_event view (the (add_event (malloc 80 2 3 7) view)) memory_log (some 5 ∷ [])
      (malloc 80 2 3 7) view-ShowsMemory (mallocs_fresh 80 2 3 7 refl (omega arith)) refl refl

abbrev the_parent : Option ProcessState → ProcessState
the_parent none = view.parent
the_parent (some p) = p
