-- ===== src/ChunkRing/Sizes.antt =====
-- `get_ringbuf_size` of assembled_chunk_ringbuf.cpp: the statistics of the ring buffer.
use ch_frb_io.Base.{ℕ, zero, suc, ◌+◌, ◌-◌, Option, none, some, List, [], ◌∷◌, if◌then◌else◌, ltb}
use ch_frb_io.Chunk.{Chunk}
use ch_frb_io.ChunkRing.{Ring, Level, entry}
use ch_frb_io.ChunkRing.Get.{first_end, first_entry}

-- What the call writes through its pointers, if none is null. The first two are written for level 0
-- only.
pub record Sizes : Type 0 where
  pub ringbuf_fpga_next : Option ℕ
  pub ringbuf_n_ready : Option ℕ
  pub ringbuf_total_capacity : ℕ
  pub ringbuf_nelements : ℕ
  pub ringbuf_fpga_min : ℕ
  pub ringbuf_fpga_max : ℕ

-- `chunk->fpga_begin` and `chunk->fpga_end`; a slot that is read holds a chunk.
abbrev pub begin_of : Option Chunk → ℕ
begin_of none = 0
begin_of (some c) = c.fpga_begin

abbrev pub end_of : Option Chunk → ℕ
end_of none = 0
end_of (some c) = c.fpga_end

abbrev pub first_size : List Level → ℕ
first_size [] = 0
first_size (l ∷ ls) = l.ringbuf_size

unfoldable pub fpga_next : Ring → ℕ
fpga_next r =
    if ltb r.downstream_pos (first_end r.levels)
    then begin_of (first_entry r.levels r.downstream_pos)
    else if ltb 0 (first_size r.levels)
    then end_of (first_entry r.levels (first_end r.levels - 1))
    else 0

-- sum(ringbuf_capacity) and sum(ringbuf_size)
unfoldable pub sum_capacity : List Level → ℕ
sum_capacity [] = 0
sum_capacity (l ∷ ls) = l.ringbuf_capacity + sum_capacity ls

unfoldable pub sum_size : List Level → ℕ
sum_size [] = 0
sum_size (l ∷ ls) = l.ringbuf_size + sum_size ls

abbrev pub level_at : List Level → ℕ → Option Level
level_at [] i = none
level_at (l ∷ ls) zero = some l
level_at (l ∷ ls) (suc i) = level_at ls i

abbrev pub capacity_at : Option Level → ℕ
capacity_at none = 0
capacity_at (some l) = l.ringbuf_capacity

abbrev pub size_at : Option Level → ℕ
size_at none = 0
size_at (some l) = l.ringbuf_size

-- The first entry of a level, if it has one.
abbrev pub oldest : Level → Option Chunk
oldest l = if ltb 0 l.ringbuf_size then entry l l.ringbuf_pos else none

abbrev pub newest : Level → Option Chunk
newest l = if ltb 0 l.ringbuf_size then entry l (l.ringbuf_pos + l.ringbuf_size - 1) else none

-- The scan from the last level to level 0, for the oldest chunk of all.
unfoldable pub fpga_min : List Level → ℕ
fpga_min [] = 0
fpga_min (l ∷ ls) =
    let rest = fpga_min ls in if ltb 0 (sum_size ls) then rest else begin_of (oldest l)

-- The scan from level 0 on, for the newest one.
unfoldable pub fpga_max : List Level → ℕ
fpga_max [] = 0
fpga_max (l ∷ ls) =
    let rest = fpga_max ls in if ltb 0 l.ringbuf_size then end_of (newest l) else rest

-- With a level given, the last statistic is that of the level's first chunk, as the source has it.
abbrev pub level_min : Option Level → ℕ
level_min none = 0
level_min (some l) = begin_of (oldest l)

abbrev pub level_max : Option Level → ℕ
level_max none = 0
level_max (some l) = end_of (oldest l)

-- get_ringbuf_size(), for a level that is not negative.
unfoldable pub get_ringbuf_size : ℕ → Ring → Sizes
unfolding fpga_next sum_capacity sum_size fpga_min fpga_max
get_ringbuf_size zero r = record {
  ringbuf_fpga_next = some (fpga_next r);
  ringbuf_n_ready = some (first_end r.levels - r.downstream_pos);
  ringbuf_total_capacity = sum_capacity r.levels;
  ringbuf_nelements = sum_size r.levels;
  ringbuf_fpga_min = fpga_min r.levels;
  ringbuf_fpga_max = fpga_max r.levels;
}
get_ringbuf_size (suc i) r = record {
  ringbuf_fpga_next = none;
  ringbuf_n_ready = none;
  ringbuf_total_capacity = capacity_at (level_at r.levels i);
  ringbuf_nelements = size_at (level_at r.levels i);
  ringbuf_fpga_min = level_min (level_at r.levels i);
  ringbuf_fpga_max = level_max (level_at r.levels i);
}
