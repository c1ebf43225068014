-- ===== src/Streams/Tests.antt =====
-- Runs of the streams, and the theorems at concrete inputs.
use seec.Common.{ℕ, ◌≤◌, ◌<◌, ◌≡◌, refl, some, [], ◌∷◌, length, arith}
use package.seec.Streams.{
  StreamState, StreamWrite, no_standard_stream, stream_state, write, unwrite, get_write,
  get_write_at,
}
use package.seec.Streams.Writes.{IsWellFormed, unwrite-write, get_write_at-covers}

abbrev opened : StreamState
opened = stream_state 64 no_standard_stream [] []

abbrev twice : StreamState
twice = write (write opened (1 ∷ 2 ∷ [])) (3 ∷ 4 ∷ 5 ∷ [])

twice-IsWellFormed : IsWellFormed twice
unfolding write
twice-IsWellFormed = (omega arith, (omega arith, refl))

unwrite-write_example : unwrite (write twice (6 ∷ [])) 1 ≡ some twice
unwrite-write_example = unwrite-write twice (6 ∷ []) twice-IsWellFormed

get_write_at-covers_example :
    (r : StreamWrite) × (get_write_at twice 3 ≡ some r)
    × (r.begin ≤ 3)
    × (3 < r.end)
    × (r.end ≤ length twice.written)
    × (i : ℕ) × (get_write twice i ≡ some r)
unfolding write
get_write_at-covers_example = get_write_at-covers twice 3 twice-IsWellFormed (omega arith)

get_write_runs : get_write twice 1 ≡ some (record { begin = 2; end = 5 })
unfolding write get_write
get_write_runs = refl
