-- ===== src/ChunkRing/Returns.antt =====
-- A call of `_put_assembled_chunk` that has nothing to object to returns.
use ch_frb_io.Base.{
  ℕ, ◌+◌, ◌^◌, ◌<◌, ◌≡◌, refl, ◌∙◌, true, false, ◌&&◌, none, List, arith, ltb, lt→ltb,
}
use ch_frb_io.Outcome.{Result, returns, fails, done}
use ch_frb_io.Chunk.{Chunk}
use ch_frb_io.ChunkRing.{Env, Ring, Counts}
use ch_frb_io.ChunkRing.Check.{check_invariants}
use ch_frb_io.ChunkRing.Put.{
  Move, plan, commit, num_dropped, advance_downstream, finish_put, write_request, requested,
  after_commit, put_planned, put_assembled_chunk,
}
use ch_frb_io.ChunkRing.Part.{IsPart}
use ch_frb_io.ChunkRing.Checked.{check_invariants-true}
use ch_frb_io.ChunkRing.Preserve.{committed, commit-IsValid}
use ch_frb_io.ChunkRing.Invariant.{ValidUpTo}

-- What a call that returns leaves behind: the levels of the plan, the counts, and the flush mark.
pub record IsPut (r : Ring) (n : Counts) (c : Chunk) (moves : List Move) (r' : Ring) (n' : Counts)
    : Type 0 where
  pub new_levels : r'.levels ≡ commit moves r.levels
  pub flushed : r'.max_fpga_flushed ≡ c.fpga_end
  pub moved_on : r'.downstream_pos ≡ r.downstream_pos + num_dropped r (commit moves r.levels)
  pub queued : n'.assembled_chunk_queued ≡ n.assembled_chunk_queued + 1
  pub dropped :
      n'.assembled_chunk_dropped ≡ n.assembled_chunk_dropped + num_dropped r (commit moves r.levels)

abbrev queue_one : ℕ → Counts → Counts
queue_one dropped n = record n {
  assembled_chunk_queued = n.assembled_chunk_queued + 1;
  assembled_chunk_dropped = n.assembled_chunk_dropped + dropped;
}

finish_put_returns :
    (fin dropped : ℕ) (r : Ring) (n : Counts)
    → r.max_fpga_flushed < fin
    → (r.throw_exception_on_buffer_drop && ltb 0 dropped) ≡ false
    → finish_put fin dropped true (r, n)
      ≡ done true (record r { max_fpga_flushed = fin }, queue_one dropped n)
unfolding finish_put
finish_put_returns fin dropped r n f d = simp (lt→ltb r.max_fpga_flushed fin f, d)

after_commit_returns :
    (env : Env) (c : Chunk) (dropped : ℕ) (r : Ring) (n : Counts)
    → write_request env c r ≡ none
    → check_invariants r ≡ true
    → after_commit env c dropped true (r, n) ≡ finish_put c.fpga_end dropped true (r, n)
unfolding after_commit requested
after_commit_returns env c dropped r n w ok = simp (w, ok)

put_planned_returns :
    (env : Env) (c : Chunk) (r : Ring) (n : Counts) (moves : List Move) (q : Result (List Move))
    → q ≡ returns moves
    → r.doneflag ≡ false
    → put_planned env c true (r, n) q
      ≡ after_commit env c (num_dropped r (commit moves r.levels)) true (committed r moves, n)
unfolding put_planned
put_planned_returns env c r n moves (fails e) q d = cc
put_planned_returns env c r n moves (returns ms) q d = ground arith

-- `_put_assembled_chunk` returns, without a failed assertion, if the ring buffer is valid, the chunk
-- follows its last one and has no RFI mask yet, step 1 has a plan, the stream is not at its end, a
-- write request is not due or is accepted, the chunk ends after all that was flushed before, and
-- chunks are not dropped or may be. The levels are then those of the plan, the chunk is counted as
-- queued, and the chunks that the downstream thread is too late for are counted as dropped.
pub put_assembled_chunk_returns :
    (env : Env) (c : Chunk) (r : Ring) (n : Counts) (next : ℕ) (moves : List Move)
    → ValidUpTo r next
    → IsPart r.config r.beam_id 0 c
    → c.ichunk ≡ next
    → next + 1 < 2 ^ 64
    → c.has_rfi_mask ≡ false
    → plan env r 0 c r.levels ≡ returns moves
    → r.doneflag ≡ false
    → write_request env c r ≡ none
    → r.max_fpga_flushed < c.fpga_end
    → (r.throw_exception_on_buffer_drop && ltb 0 (num_dropped r (commit moves r.levels))) ≡ false
    → (r' : Ring) × (n' : Counts) × (put_assembled_chunk env c true (r, n) ≡ done true (r', n'))
      × IsPut r n c moves r' n'
unfolding put_assembled_chunk advance_downstream write_request
put_assembled_chunk_returns env c r n next moves (css, v) p e small m q d w f drop =
    let (css', v', grown) = commit-IsValid env r c css next moves v p e small q in
    let ls = commit moves r.levels in
    (
      record (committed r moves) { max_fpga_flushed = c.fpga_end },
      queue_one (num_dropped r ls) n,
      simp m (put_planned_returns env c r n moves (plan env r 0 c r.levels) q d)
          ∙ after_commit_returns env c (num_dropped r ls) (committed r moves) n w
              (check_invariants-true (committed r moves) css' (next + 1) v')
          ∙ finish_put_returns c.fpga_end (num_dropped r ls) (committed r moves) n f drop,
      record { new_levels = refl; flushed = refl; moved_on = refl; queued = refl; dropped = refl },
    )
