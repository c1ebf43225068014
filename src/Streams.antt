-- ===== src/Streams.antt =====
-- class StreamState of include/seec/Trace/StreamState.hpp and lib/Trace/StreamState.cpp: what was
-- written to an open FILE, with the length after each write. A string is its list of characters.
-- A query or a mutator that asserts, or that pops an empty vector, returns an option.
pub mod Writes
mod Tests
use seec.Common.{
  ℕ, zero, suc, ◌-◌, Bool, true, false, not, ◌||◌, Option, none, some, List, [], ◌∷◌, ◌++◌, ◌==◌,
  ltb, leb, if◌then◌else◌, assert, ◌>>=◌, ◌>>◌, length, take, get_elem?, is_empty,
}
use seec.StdMap.{Map, find, has, insert, erase}
use seec.Allocation.{back, pop_back}

pub data StandardStreamKind : Type 0 where
  no_standard_stream standard_in standard_out standard_err : StandardStreamKind

pub record StreamState : Type 0 where
  pub address : ℕ
  pub kind : StandardStreamKind
  pub filename : List ℕ
  pub mode : List ℕ
  pub written : List ℕ
  pub writes : List ℕ

-- The constructor.
abbrev pub stream_state : ℕ → StandardStreamKind → List ℕ → List ℕ → StreamState
stream_state a k f m = record {
  address = a;
  kind = k;
  filename = f;
  mode = m;
  written = [];
  writes = [];
}

-- struct StreamWrite: the length of the stream before and after a write.
pub record StreamWrite : Type 0 where
  pub begin : ℕ
  pub end : ℕ

-- `find_if` from an iterator on, whose predecessor holds `previous`, or which is the first and
-- `previous` is 0.
unfoldable pub write_covering : ℕ → ℕ → List ℕ → Option StreamWrite
write_covering previous position [] = none
write_covering previous position (w ∷ ws) =
    let rest = write_covering w position ws in
    if ltb position w then some (record { begin = previous; end = w }) else rest

unfoldable pub get_write_at : StreamState → ℕ → Option StreamWrite
unfolding write_covering
get_write_at s position = write_covering 0 position s.writes

-- `getWrite`, where an index past the end is undefined behaviour.
unfoldable pub get_write : StreamState → ℕ → Option StreamWrite
get_write s zero = get_elem? s.writes 0 >>= λ e. some (record { begin = 0; end = e })
get_write s (suc i) = get_elem? s.writes i >>= λ b.
    get_elem? s.writes (suc i) >>= λ e. some (record { begin = b; end = e })

unfoldable pub write : StreamState → List ℕ → StreamState
write s ds = record s {
  written = s.written ++ ds;
  writes = s.writes ++ (length (s.written ++ ds) ∷ []);
}

abbrev pub is_length : Option ℕ → ℕ → Bool
is_length none n = false
is_length (some w) n = w == n

-- The last assertion of `unwrite`.
abbrev pub ends_at : List ℕ → ℕ → Bool
ends_at ws n = is_empty ws || is_length (back ws) n

unfoldable pub unwrite : StreamState → ℕ → Option StreamState
unwrite s size = do
  assert (leb size (length s.written))
  let kept = take (length s.written - size) s.written
  assert (not (is_empty s.writes))
  let ws = pop_back s.writes
  assert (ends_at ws (length kept))
  some (record s { written = kept; writes = ws })

-- class DIRState.
pub record DirState : Type 0 where
  pub dir_address : ℕ
  pub dirname : List ℕ

-- class TraceStreams of lib/Trace/TraceStreams.cpp: the writer's record of the open streams, each
-- with the offsets of its file name and of its mode in the trace's data.
pub record TraceStream : Type 0 where
  pub filename_offset : ℕ
  pub mode_offset : ℕ

unfoldable pub stream_opened : Map TraceStream → ℕ → ℕ → ℕ → Map TraceStream
stream_opened m a f o = insert a (record { filename_offset = f; mode_offset = o }) m

unfoldable pub stream_will_close : Map TraceStream → ℕ → Bool
stream_will_close m a = has a m

unfoldable pub stream_info : Map TraceStream → ℕ → Option TraceStream
stream_info m a = find a m

unfoldable pub stream_closed : Map TraceStream → ℕ → Option (Map TraceStream)
stream_closed m a = assert (has a m) >> some (erase a m)

-- class TraceDirs: the open directories, each with the offset of its name.
unfoldable pub dir_opened : Map ℕ → ℕ → ℕ → Map ℕ
dir_opened m a o = insert a o m

unfoldable pub dir_will_close : Map ℕ → ℕ → Bool
dir_will_close m a = has a m

unfoldable pub dir_info : Map ℕ → ℕ → Option ℕ
dir_info m a = find a m

unfoldable pub dir_closed : Map ℕ → ℕ → Option (Map ℕ)
dir_closed m a = assert (has a m) >> some (erase a m)
