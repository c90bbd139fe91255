-- ===== src/ChunkRing/Get.antt =====
-- The calls of `assembled_chunk_ringbuf` that read: `get_assembled_chunk`, `find_assembled_chunk`,
-- `get_ringbuf_snapshot` and `get_ringbuf_size`.
use ch_frb_io.Base.{
  ℕ, zero, suc, ◌+◌, ◌^◌, Bool, not, ◌&&◌, ◌||◌, Option, none, some, List, [], ◌∷◌, ◌++◌,
  if◌then◌else◌, ltb, leb, ◌==◌,
}
use ch_frb_io.Outcome.{
  Result, returns, fails, Outcome, done, throws, waits, assertion_failed, chunk_not_found,
}
use ch_frb_io.Chunk.{Chunk}
use ch_frb_io.ChunkRing.{Ring, Level, entry}

abbrev pub first_end : List Level → ℕ
first_end [] = 0
first_end (l ∷ ls) = l.ringbuf_pos + l.ringbuf_size

-- ringbuf_entry(0, ipos)
abbrev pub first_entry : List Level → ℕ → Option Chunk
first_entry [] ipos = none
first_entry (l ∷ ls) ipos = entry l ipos

-- The end of the call, without the lock.
unfoldable pub retrieve : Option Chunk → Ring → Outcome Ring (Option Chunk)
retrieve none r = done none r
retrieve (some c) r =
    if not (ltb r.max_fpga_retrieved c.fpga_end)
    then throws assertion_failed r
    else done (some c) (record r { max_fpga_retrieved = c.fpga_end })

-- get_assembled_chunk()
unfoldable pub get_assembled_chunk : Bool → Ring → Outcome Ring (Option Chunk)
unfolding retrieve
get_assembled_chunk wait r =
    if ltb r.downstream_pos (first_end r.levels)
    then retrieve (first_entry r.levels r.downstream_pos)
        (record r { downstream_pos = r.downstream_pos + 1 })
    else if not wait || r.doneflag
    then retrieve none r
    else waits r

-- The loop over the entries of a level, `n` of them from `ipos` on.
unfoldable pub find_in_level : ℕ → Level → ℕ → ℕ → Option Chunk
find_in_level fpga l zero ipos = none
find_in_level fpga l (suc n) ipos =
    let rest = find_in_level fpga l n (ipos + 1) in
    elim (entry l ipos) [ none ↦ rest | some c ↦ if c.fpga_begin == fpga then some c else rest ]

-- The loop over the levels, from the last one to level 0.
unfoldable pub find_in_levels : ℕ → List Level → Option Chunk
unfolding find_in_level
find_in_levels fpga [] = none
find_in_levels fpga (l ∷ ls) = elim (find_in_levels fpga ls) [
  | some c ↦ some c
  | none ↦ find_in_level fpga l l.ringbuf_size l.ringbuf_pos
]

abbrev pub top_level : List Level → List Level
top_level [] = []
top_level (l ∷ ls) = l ∷ []

unfoldable pub found : Option Chunk → Result (Option Chunk)
found none = fails chunk_not_found
found (some c) = returns (some c)

-- find_assembled_chunk()
unfoldable pub find_assembled_chunk : ℕ → Bool → Ring → Result (Option Chunk)
unfolding found
find_assembled_chunk fpga top_level_only r =
    if r.doneflag && leb r.final_fpga fpga
    then returns none
    else found (find_in_levels fpga (if top_level_only then top_level r.levels else r.levels))

-- Whether the snapshot leaves a chunk out; 0 stands for no bound.
unfoldable pub no_overlap : ℕ → ℕ → Chunk → Bool
no_overlap min_fpga max_fpga c =
    (not (min_fpga == 0) && leb c.fpga_end min_fpga)
    || (not (max_fpga == 0) && ltb max_fpga c.fpga_begin)

-- Where a chunk is: L1RB_DOWNSTREAM is 1, and level `ids` is 2 ^ (ids + 1).
unfoldable pub where_is : Ring → ℕ → ℕ → ℕ
where_is r ids ipos = if ids == 0 && leb r.downstream_pos ipos then 1 else 2 ^ (ids + 1)

unfoldable pub snapshot_level : Ring → ℕ → ℕ → ℕ → Level → ℕ → ℕ → List (Chunk × ℕ)
unfolding no_overlap where_is
snapshot_level r min_fpga max_fpga ids l zero ipos = []
snapshot_level r min_fpga max_fpga ids l (suc n) ipos =
    let rest = snapshot_level r min_fpga max_fpga ids l n (ipos + 1) in
    elim (entry l ipos) [
      | none ↦ rest
      | some c ↦ if no_overlap min_fpga max_fpga c then rest else (c, where_is r ids ipos) ∷ rest
    ]

unfoldable pub snapshot_levels : Ring → ℕ → ℕ → ℕ → List Level → List (Chunk × ℕ)
unfolding snapshot_level
snapshot_levels r min_fpga max_fpga ids [] = []
snapshot_levels r min_fpga max_fpga ids (l ∷ ls) =
    snapshot_levels r min_fpga max_fpga (ids + 1) ls
    ++ snapshot_level r min_fpga max_fpga ids l l.ringbuf_size l.ringbuf_pos

-- get_ringbuf_snapshot()
unfoldable pub get_ringbuf_snapshot : ℕ → ℕ → Ring → List (Chunk × ℕ)
unfolding snapshot_levels
get_ringbuf_snapshot min_fpga max_fpga r = snapshot_levels r min_fpga max_fpga 0 r.levels
