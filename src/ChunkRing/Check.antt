-- ===== src/ChunkRing/Check.antt =====
-- `_check_invariants` of assembled_chunk_ringbuf.cpp, which runs after each chunk that is put.
use ch_frb_io.Base.{
  ℕ, zero, suc, ◌+◌, ◌*◌, ◌%◌, ◌^◌, Bool, true, false, not, ◌&&◌, ◌||◌, Option, none, some, List,
  [], ◌∷◌, if◌then◌else◌, ltb, leb, ◌==◌, length,
}
use ch_frb_io.Constants.{nt_per_assembled_chunk}
use ch_frb_io.Chunk.{Chunk}
use ch_frb_io.ChunkRing.{Ring, Level, entry}

-- `next` follows `c`, and is not null.
unfoldable pub is_next : Chunk → Option Chunk → Bool
is_next c none = false
is_next c (some next) = next.ichunk == (c.ichunk + c.binning) % 2 ^ 64

-- The fields of a chunk at level `ids`.
unfoldable pub check_fields : Ring → ℕ → Chunk → Bool
check_fields r ids c =
    c.beam_id == r.beam_id
    && c.nupfreq == r.nupfreq
    && c.nt_per_packet == r.nt_per_packet
    && c.fpga_counts_per_sample == r.fpga_counts_per_sample
    && c.binning == 2 ^ ids
    && c.isample == c.ichunk * nt_per_assembled_chunk % 2 ^ 64
    && (not (ltb 0 r.nrfifreq && ltb 0 ids) || c.has_rfi_mask)

-- The chunk after the last one of a level: the first of the level before, if there is one.
unfoldable pub follows_level : Chunk → Option Level → Bool
follows_level c none = true
follows_level c (some before) =
    ltb 0 before.ringbuf_size && is_next c (entry before before.ringbuf_pos)

unfoldable pub check_chunk : Ring → ℕ → Option Level → Level → ℕ → Option Chunk → Bool
check_chunk r ids before l k none = false
check_chunk r ids before l k (some c) =
    check_fields r ids c
    && (if ltb (k + 1) l.ringbuf_size
        then is_next c (entry l (l.ringbuf_pos + (k + 1)))
        else follows_level c before)

abbrev pub is_none : Option Chunk → Bool
is_none none = true
is_none (some c) = false

-- The entry at distance `k` from the level's position.
unfoldable pub check_entry : Ring → ℕ → Option Level → Level → ℕ → Bool
check_entry r ids before l k =
    let e = entry l (l.ringbuf_pos + k) in
    if leb l.ringbuf_size k then is_none e else check_chunk r ids before l k e

-- The inner loop, over `n` entries from distance `k` on.
unfoldable pub check_entries : Ring → ℕ → Option Level → Level → ℕ → ℕ → Bool
check_entries r ids before l zero k = true
check_entries r ids before l (suc n) k =
    check_entry r ids before l k && check_entries r ids before l n (k + 1)

unfoldable pub check_level : Ring → ℕ → Option Level → Level → Bool
check_level r ids before l =
    leb 2 l.ringbuf_capacity
    && leb l.ringbuf_size l.ringbuf_capacity
    && length l.ringbuf == l.ringbuf_capacity
    && check_entries r ids before l l.ringbuf_capacity 0

-- The outer loop.
unfoldable pub check_levels : Ring → ℕ → Option Level → List Level → Bool
check_levels r ids before [] = true
check_levels r ids before (l ∷ ls) =
    check_level r ids before l && check_levels r (ids + 1) (some l) ls

-- The position of the downstream thread, in terms of level 0.
unfoldable pub check_downstream : Ring → Level → Bool
check_downstream r l =
    ltb 0 r.downstream_bufsize
    && leb r.downstream_bufsize l.ringbuf_capacity
    && leb l.ringbuf_pos r.downstream_pos
    && leb r.downstream_pos (l.ringbuf_pos + l.ringbuf_size)
    && leb (l.ringbuf_pos + l.ringbuf_size) (r.downstream_pos + r.downstream_bufsize)

unfoldable pub check_first : Ring → List Level → Bool
check_first r [] = false
check_first r (l ∷ ls) = check_downstream r l

unfoldable pub check_invariants : Ring → Bool
unfolding check_first
check_invariants r = check_levels r 0 none r.levels && check_first r r.levels
