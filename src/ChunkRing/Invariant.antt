-- ===== src/ChunkRing/Invariant.antt =====
-- `_put_assembled_chunk` as a whole, however the call ends.
use ch_frb_io.Base.{
  ℕ, ◌+◌, ◌^◌, ◌<◌, ◌≡◌, refl, sym, subst, Bool, true, false, ◌&&◌, Option, none, some, List, [],
  ◌∷◌, ltb, Bool-cases, ◌⊎◌, inl, inr,
}
use ch_frb_io.Outcome.{Error, Result, returns, fails, Outcome, done, throws, waits}
use ch_frb_io.Chunk.{Chunk}
use ch_frb_io.ChunkRing.{Env, Ring, Level, Counts}
use ch_frb_io.ChunkRing.Put.{
  Move, State, plan, commit, count_queued, num_dropped, advance_downstream, finish_put,
  write_request, requested, after_commit, put_planned, put_assembled_chunk,
}
use ch_frb_io.ChunkRing.Part.{IsPart}
use ch_frb_io.ChunkRing.Place.{Grown}
use ch_frb_io.ChunkRing.Timeline.{HoldsAll}
use ch_frb_io.ChunkRing.Checked.{Behind, IsValid, check_invariants-true}
use ch_frb_io.ChunkRing.Preserve.{committed, commit-IsValid}

-- The chunks that the levels hold, and the number of the chunk that comes next.
abbrev pub ValidUpTo : Ring → ℕ → Type 0
ValidUpTo r next = (css : List (List Chunk)) × IsValid r css next

Behind-same :
    (r s : Ring) (ls : List Level)
    → s.downstream_pos ≡ r.downstream_pos
    → s.downstream_bufsize ≡ r.downstream_bufsize
    → Behind r ls
    → Behind s ls
Behind-same r s [] e4 e5 b = b
Behind-same r s (l ∷ ls) e4 e5 b = rw (e4, e5) b

-- The parts of a ring buffer that its validity depends on.
pub IsValid-same :
    (r s : Ring) (css : List (List Chunk)) (next : ℕ)
    → s.config ≡ r.config
    → s.beam_id ≡ r.beam_id
    → s.levels ≡ r.levels
    → s.downstream_pos ≡ r.downstream_pos
    → s.downstream_bufsize ≡ r.downstream_bufsize
    → IsValid r css next
    → IsValid s css next
IsValid-same r s css next e1 e2 e3 e4 e5 v = record {
  holds = rw e3 v.holds;
  telescope = rw (e1, e2) v.telescope;
  behind = subst (Behind s) (sym e3) (Behind-same r s r.levels e4 e5 v.behind);
  small = v.small;
}

-- What the call keeps: the parameters, the active chunks, and the counts of hits and misses.
pub record Kept (s t : State) : Type 0 where
  pub config_same : t.0.config ≡ s.0.config
  pub beam_same : t.0.beam_id ≡ s.0.beam_id
  pub active0_same : t.0.active_chunk0 ≡ s.0.active_chunk0
  pub active1_same : t.0.active_chunk1 ≡ s.0.active_chunk1
  pub received_same : t.0.first_packet_received ≡ s.0.first_packet_received
  pub done_same : t.0.doneflag ≡ s.0.doneflag
  pub hits_same : t.1.assembler_hit ≡ s.1.assembler_hit
  pub misses_same : t.1.assembler_miss ≡ s.1.assembler_miss

-- What one put of chunk `c` does to the levels: they held some chunks, and hold them with `c` now.
abbrev pub HasPut : Env → Ring → Chunk → Ring → Type 0
HasPut env r c t =
    (css : List (List Chunk)) × (css' : List (List Chunk)) × HoldsAll r.levels css
    × HoldsAll t.levels css'
    × Grown env r 0 c r.levels css css'

-- How a call that puts chunk `c`, whose number is `next`, may end: it returns with the chunk in, or it
-- throws, with the levels as they were or with the chunk in.
abbrev pub EndsWell : Env → State → Chunk → ℕ → Outcome State Bool → Type 0
EndsWell env s c next (done b t) = Kept s t × ValidUpTo t.0 (next + 1) × HasPut env s.0 c t.0
EndsWell env s c next (throws e t) =
    Kept s t
    × ((ValidUpTo t.0 next × (t.0.levels ≡ s.0.levels))
        ⊎ (ValidUpTo t.0 (next + 1) × HasPut env s.0 c t.0))
EndsWell env s c next (waits t) = ⊥

Kept-queued :
    (s : State) (r : Ring) (n : Counts) (counting : Bool) (dropped : ℕ)
    → Kept s (r, n)
    → Kept s (r, count_queued counting dropped n)
Kept-queued s r n false dropped k = k
Kept-queued s r n true dropped k = record {
  config_same = k.config_same;
  beam_same = k.beam_same;
  active0_same = k.active0_same;
  active1_same = k.active1_same;
  received_same = k.received_same;
  done_same = k.done_same;
  hits_same = k.hits_same;
  misses_same = k.misses_same;
}

Kept-flushed :
    (s : State) (r : Ring) (n : Counts) (fin : ℕ)
    → Kept s (r, n)
    → Kept s (record r { max_fpga_flushed = fin }, n)
Kept-flushed s r n fin k = record {
  config_same = k.config_same;
  beam_same = k.beam_same;
  active0_same = k.active0_same;
  active1_same = k.active1_same;
  received_same = k.received_same;
  done_same = k.done_same;
  hits_same = k.hits_same;
  misses_same = k.misses_same;
}

finish_put-EndsWell :
    (env : Env) (s : State) (c : Chunk) (fin dropped : ℕ) (counting : Bool) (r : Ring) (n : Counts)
    (css : List (List Chunk)) (next : ℕ)
    → IsValid r css (next + 1)
    → HasPut env s.0 c r
    → Kept s (r, n)
    → EndsWell env s c next (finish_put fin dropped counting (r, n))
unfolding finish_put
finish_put-EndsWell env s c fin dropped counting r n css next v put k =
    let k' = Kept-queued s r n counting dropped k in
    let k'' = Kept-flushed s r (count_queued counting dropped n) fin k' in
    let v' : ValidUpTo (record r { max_fpga_flushed = fin }) (next + 1) =
      (css, IsValid-same r _ css (next + 1) refl refl refl refl refl v) in
    elim (Bool-cases (ltb r.max_fpga_flushed fin)) [
      | inr t ↦ simp t (k', inr ((css, v), put))
      | inl t ↦ elim (Bool-cases (r.throw_exception_on_buffer_drop && ltb 0 dropped)) [
        | inl d ↦ simp (t, d) (k'', inr (v', put))
        | inr d ↦ simp (t, d) (k'', v', put)
      ]
    ]

requested-EndsWell :
    (env : Env) (s : State) (c : Chunk) (fin dropped : ℕ) (counting : Bool) (r : Ring) (n : Counts)
    (e : Option Error) (css : List (List Chunk)) (next : ℕ)
    → IsValid r css (next + 1)
    → HasPut env s.0 c r
    → Kept s (r, n)
    → EndsWell env s c next (requested fin dropped counting (r, n) e)
unfolding requested
requested-EndsWell env s c fin dropped counting r n (some e) css next v put k =
    (k, inr ((css, v), put))
requested-EndsWell env s c fin dropped counting r n none css next v put k =
    simp (check_invariants-true r css (next + 1) v)
      (finish_put-EndsWell env s c fin dropped counting r n css next v put k)

Kept-refl : (s : State) → Kept s s
Kept-refl s = record {
  config_same = refl;
  beam_same = refl;
  active0_same = refl;
  active1_same = refl;
  received_same = refl;
  done_same = refl;
  hits_same = refl;
  misses_same = refl;
}

Kept-committed : (r : Ring) (n : Counts) (moves : List Move) → Kept (r, n) (committed r moves, n)
unfolding advance_downstream
Kept-committed r n moves = record {
  config_same = refl;
  beam_same = refl;
  active0_same = refl;
  active1_same = refl;
  received_same = refl;
  done_same = refl;
  hits_same = refl;
  misses_same = refl;
}

put_planned-EndsWell :
    (env : Env) (c : Chunk) (counting : Bool) (r : Ring) (n : Counts) (next : ℕ)
    (q : Result (List Move))
    → ValidUpTo r next
    → IsPart r.config r.beam_id 0 c
    → c.ichunk ≡ next
    → next + 1 < 2 ^ 64
    → plan env r 0 c r.levels ≡ q
    → EndsWell env (r, n) c next (put_planned env c counting (r, n) q)
unfolding put_planned after_commit
put_planned-EndsWell env c counting r n next (fails err) v p e small q =
    (Kept-refl (r, n), inl (v, refl))
put_planned-EndsWell env c counting r n next (returns moves) (css, v) p e small q =
    let (css', v', grown) = commit-IsValid env r c css next moves v p e small q in
    let ls = commit moves r.levels in
    elim (Bool-cases r.doneflag) [
      | inl d ↦ simp d (Kept-refl (r, n), inl ((css, v), refl))
      | inr d ↦ simp d (
          requested-EndsWell env (r, n) c c.fpga_end (num_dropped r ls) counting
            (advance_downstream r ls) n (write_request env c (advance_downstream r ls)) css' next v'
            (css, css', v.holds, v'.holds, grown) (Kept-committed r n moves))
    ]

-- A chunk of the beam that follows the chunks of a valid ring buffer is put. If the call returns, the
-- ring buffer is valid again and has grown by exactly this chunk: it is the newest chunk of level 0 and
-- all others are where they were, but in a full level the oldest chunk goes, or the two oldest go and
-- the chunk made of them is put on the next level. If it throws, the ring buffer is valid, and has
-- grown by the chunk or has its levels unchanged. Either way the call keeps the parameters, the active
-- chunks, the end flag and the counts of hits and misses.
pub put_assembled_chunk-EndsWell :
    (env : Env) (c : Chunk) (counting : Bool) (r : Ring) (n : Counts) (next : ℕ)
    → ValidUpTo r next
    → IsPart r.config r.beam_id 0 c
    → c.ichunk ≡ next
    → next + 1 < 2 ^ 64
    → EndsWell env (r, n) c next (put_assembled_chunk env c counting (r, n))
unfolding put_assembled_chunk
put_assembled_chunk-EndsWell env c counting r n next v p e small =
    elim (Bool-cases c.has_rfi_mask) [
      | inl m ↦ simp m (Kept-refl (r, n), inl (v, refl))
      | inr m ↦
          simp m (
            put_planned-EndsWell env c counting r n next (plan env r 0 c r.levels) v p e small refl)
    ]
