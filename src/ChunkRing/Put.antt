-- ===== src/ChunkRing/Put.antt =====
-- `_put_assembled_chunk` of assembled_chunk_ringbuf.cpp. Step 1 plans what each level gives up and
-- takes in, and makes the longer chunks; step 2 changes the levels under the lock.
use ch_frb_io.Base.{
  ℕ, zero, suc, ◌+◌, ◌-◌, ◌%◌, ◌^◌, Bool, true, false, not, ◌&&◌, ◌||◌, Option, none, some, List,
  [], ◌∷◌, if◌then◌else◌, ltb, set, length,
}
use ch_frb_io.Outcome.{
  Error, Result, returns, fails, Outcome, done, throws, rfi_mask_already_set, rfi_mask_not_ready,
  null_dereference, called_after_end_stream, assertion_failed, buffer_drop,
}
use ch_frb_io.Chunk.{Chunk}
use ch_frb_io.Chunk.Downsample.{downsample}
use ch_frb_io.ChunkRing.{Env, Ring, Level, Counts, entry, make_assembled_chunk}
use ch_frb_io.ChunkRing.Check.{check_invariants}

-- `pushlist[ids]` with `poplist[2*ids]` and `poplist[2*ids+1]`.
pub record Move : Type 0 where
  pub push : Option Chunk
  pub pops : List Chunk

abbrev pub idle : Move
idle = record { push = none; pops = [] }

unfoldable pub idle_moves : List Level → List Move
idle_moves [] = []
idle_moves (l ∷ ls) = idle ∷ idle_moves ls

-- A chunk may not leave a level before its RFI mask is filled, if masks are kept.
unfoldable pub mask_missing : Ring → Chunk → Bool
mask_missing r c = ltb 0 r.nrfifreq && not c.has_rfi_mask

-- The bottom level gives up its oldest chunk.
unfoldable pub pop_last : Ring → Chunk → Option Chunk → Result (List Move)
unfolding mask_missing
pop_last r c none =
    if ltb 0 r.nrfifreq
    then fails null_dereference
    else returns (record { push = some c; pops = [] } ∷ [])
pop_last r c (some a) =
    if mask_missing r a
    then fails rfi_mask_not_ready
    else returns (record { push = some c; pops = a ∷ [] } ∷ [])

-- Another level gives up its two oldest chunks, for one of twice their length.
unfoldable pub join_chunks : Env → Ring → ℕ → Chunk → Chunk → Result Chunk → Result Chunk
join_chunks env r ids a b (fails e) = fails e
join_chunks env r ids a b (returns blank) = downsample env.kernel blank a b

unfoldable pub merge : Env → Ring → ℕ → Option Chunk → Option Chunk → Result (Chunk × Chunk × Chunk)
unfolding mask_missing
merge env r ids none b = fails null_dereference
merge env r ids (some a) none = fails null_dereference
merge env r ids (some a) (some b) =
    if mask_missing r a || mask_missing r b
    then fails rfi_mask_not_ready
    else elim (join_chunks env r ids a b (make_assembled_chunk env r a.ichunk (2 ^ (ids + 1)))) [
      | fails e ↦ fails e
      | returns c ↦ returns (a, b, c)
    ]

abbrev pub prepend : Move → Result (List Move) → Result (List Move)
prepend m (fails e) = fails e
prepend m (returns ms) = returns (m ∷ ms)

-- The loop of step 1, at level `ids` with the chunk that is to be pushed there.
unfoldable pub plan : Env → Ring → ℕ → Chunk → List Level → Result (List Move)
plan env r ids c [] = returns []
plan env r ids c (l ∷ []) =
    if ltb l.ringbuf_size l.ringbuf_capacity
    then returns (record { push = some c; pops = [] } ∷ [])
    else pop_last r c (entry l l.ringbuf_pos)
plan env r ids c (l ∷ (m ∷ ls)) =
    if ltb l.ringbuf_size l.ringbuf_capacity
    then returns (record { push = some c; pops = [] } ∷ idle_moves (m ∷ ls))
    else elim (merge env r ids (entry l l.ringbuf_pos) (entry l (l.ringbuf_pos + 1))) [
      | fails e ↦ fails e
      | returns (a, b, c') ↦
          prepend (record { push = some c; pops = a ∷ b ∷ [] }) (plan env r (ids + 1) c' (m ∷ ls))
    ]

-- The loop of step 2 that resets the pointers of the popped chunks, `n` of them from `ipos` on.
unfoldable pub clear : ℕ → ℕ → ℕ → List (Option Chunk) → List (Option Chunk)
clear capacity ipos zero slots = slots
clear capacity ipos (suc n) slots = clear capacity (ipos + 1) n (set slots (ipos % capacity) none)

unfoldable pub pop_level : ℕ → Level → Level
unfolding clear
pop_level n l = record l {
  ringbuf = clear l.ringbuf_capacity l.ringbuf_pos n l.ringbuf;
  ringbuf_pos = l.ringbuf_pos + n;
  ringbuf_size = l.ringbuf_size - n;
}

unfoldable pub push_level : Option Chunk → Level → Level
push_level none l = l
push_level (some c) l = record l {
  ringbuf = set l.ringbuf ((l.ringbuf_pos + l.ringbuf_size) % l.ringbuf_capacity) (some c);
  ringbuf_size = l.ringbuf_size + 1;
}

-- The outer loop of step 2.
unfoldable pub commit : List Move → List Level → List Level
commit [] ls = ls
commit (m ∷ ms) [] = []
commit (m ∷ ms) (l ∷ ls) = push_level m.push (pop_level (length m.pops) l) ∷ commit ms ls

-- Chunks that the downstream thread is too slow for: how many are dropped, and where it goes on.
abbrev pub level0_end : List Level → ℕ
level0_end [] = 0
level0_end (l ∷ ls) = l.ringbuf_pos + l.ringbuf_size

unfoldable pub num_dropped : Ring → List Level → ℕ
num_dropped r ls = level0_end ls - r.downstream_bufsize - r.downstream_pos

unfoldable pub advance_downstream : Ring → List Level → Ring
unfolding num_dropped
advance_downstream r ls = record r {
  levels = ls;
  downstream_pos = r.downstream_pos + num_dropped r ls;
}

-- The ring buffer and the event counts.
abbrev pub State : Type 0
State = Ring × Counts

abbrev pub count_queued : Bool → ℕ → Counts → Counts
count_queued false dropped n = n
count_queued true dropped n = record n {
  assembled_chunk_queued = n.assembled_chunk_queued + 1;
  assembled_chunk_dropped = n.assembled_chunk_dropped + dropped;
}

-- The end of the function, after the check of the invariants: counts, the flush mark, and the flag
-- that makes a drop an error.
unfoldable pub finish_put : ℕ → ℕ → Bool → State → Outcome State Bool
finish_put chunk_fpga_end dropped counting (r, n) =
    let n' = count_queued counting dropped n in
    let r' = record r { max_fpga_flushed = chunk_fpga_end } in
    if not (ltb r.max_fpga_flushed chunk_fpga_end)
    then throws assertion_failed (r, n')
    else if r.throw_exception_on_buffer_drop && ltb 0 dropped
    then throws buffer_drop (r', n')
    else done true (r', n')

-- The enqueueing of the write request, without the lock: what it throws, if anything.
unfoldable pub write_request : Env → Chunk → Ring → Option Error
write_request env c r =
    if r.streaming then env.enqueue c r.stream_priority r.stream_rfi_mask else none

-- From the enqueueing of the write request on.
unfoldable pub requested : ℕ → ℕ → Bool → State → Option Error → Outcome State Bool
requested chunk_fpga_end dropped counting (r, n) (some e) = throws e (r, n)
requested chunk_fpga_end dropped counting (r, n) none =
    if not (check_invariants r)
    then throws assertion_failed (r, n)
    else finish_put chunk_fpga_end dropped counting (r, n)

unfoldable pub after_commit : Env → Chunk → ℕ → Bool → State → Outcome State Bool
after_commit env c dropped counting (r, n) =
    requested c.fpga_end dropped counting (r, n) (write_request env c r)

-- From the lock that ends step 1 on, with what step 1 gave.
unfoldable pub put_planned : Env → Chunk → Bool → State → Result (List Move) → Outcome State Bool
put_planned env c counting (r, n) (fails e) = throws e (r, n)
put_planned env c counting (r, n) (returns moves) =
    if r.doneflag
    then throws called_after_end_stream (r, n)
    else let ls = commit moves r.levels in
      after_commit env c (num_dropped r ls) counting (advance_downstream r ls, n)

-- _put_assembled_chunk(), for a pointer that is not null; `counting` says that `event_counts` is not
-- null. The caller resets its pointer, unless the first test throws.
unfoldable pub put_assembled_chunk : Env → Chunk → Bool → State → Outcome State Bool
put_assembled_chunk env c counting (r, n) =
    if c.has_rfi_mask
    then throws rfi_mask_already_set (r, n)
    else put_planned env c counting (r, n) (plan env r 0 c r.levels)
