-- ===== src/ChunkRing/Make.antt =====
-- The constructor of `assembled_chunk_ringbuf`: its checks, and that it sets up a valid ring buffer.
use ch_frb_io.Base.{
  ℕ, ◌+◌, ◌%◌, Bool, false, not, ◌&&◌, ◌||◌, Option, none, some, List, [], ◌∷◌, if◌then◌else◌, ◌==◌,
  replicate,
}
use ch_frb_io.Constants.{max_allowed_beam_id, nt_per_assembled_chunk}
use ch_frb_io.Outcome.{
  ℤ, pos, pos_part, leb_ℤ, ltb_ℤ, Error, Result, returns, fails, bad_beam_id, bad_ringbuf_capacity,
  bad_nt_align, bad_telescoping_capacity, bad_kernel_flags, assertion_failed,
}
use ch_frb_io.ChunkRing.{Config, Ring, Level}
use ch_frb_io.ChunkRing.Check.{check_invariants}

-- The arguments of the constructor, with the fields of `ini_params` that only it reads.
pub record Setup : Type 0 where
  pub beam_id : ℤ
  pub stream_id : ℕ
  pub nt_align : ℤ
  pub assembled_ringbuf_capacity : ℤ
  pub telescoping_ringbuf_capacity : List ℤ

-- The loop over the telescoping capacities.
unfoldable pub too_short : List ℤ → Bool
too_short [] = false
too_short (n ∷ ns) = ltb_ℤ n (pos 2) || too_short ns

-- The first check that throws; `avx2` says whether the machine has the instruction set.
unfoldable pub setup_error : Bool → Config → Setup → Option Error
setup_error avx2 cfg s =
    if ltb_ℤ s.beam_id (pos 0) || ltb_ℤ (pos max_allowed_beam_id) s.beam_id
    then some bad_beam_id
    else if leb_ℤ s.assembled_ringbuf_capacity (pos 0)
    then some bad_ringbuf_capacity
    else if ltb_ℤ s.nt_align (pos 0) || not (pos_part s.nt_align % nt_per_assembled_chunk == 0)
    then some bad_nt_align
    else if too_short s.telescoping_ringbuf_capacity
    then some bad_telescoping_capacity
    else if not avx2 && cfg.force_fast_kernels
    then some bad_kernel_flags
    else none

unfoldable pub telescoping : List ℤ → List ℕ
telescoping [] = []
telescoping (n ∷ ns) = pos_part n ∷ telescoping ns

-- `ringbuf_capacity`: level 0 also has the capacity for assembled chunks.
unfoldable pub capacities : ℕ → List ℤ → List ℕ
capacities assembled [] = assembled ∷ []
capacities assembled (t ∷ ts) = (assembled + pos_part t) ∷ telescoping ts

unfoldable pub empty_levels : List ℕ → List Level
empty_levels [] = []
empty_levels (n ∷ ns) =
    record { ringbuf_pos = 0; ringbuf_size = 0; ringbuf_capacity = n; ringbuf = replicate n none }
    ∷ empty_levels ns

unfoldable pub empty_ring : Config → Setup → Ring
unfolding capacities empty_levels
empty_ring cfg s = record {
  config = cfg;
  beam_id = pos_part s.beam_id;
  stream_id = s.stream_id;
  nt_align = pos_part s.nt_align;
  frame0_nano = 0;
  max_fpga_flushed = 0;
  max_fpga_retrieved = 0;
  first_fpgacount = 0;
  first_packet_received = false;
  active_chunk0 = none;
  active_chunk1 = none;
  levels =
      empty_levels
        (capacities (pos_part s.assembled_ringbuf_capacity) s.telescoping_ringbuf_capacity);
  downstream_pos = 0;
  downstream_bufsize = pos_part s.assembled_ringbuf_capacity;
  streaming = false;
  stream_priority = pos 0;
  stream_rfi_mask = false;
  stream_chunks_written = 0;
  stream_bytes_written = 0;
  doneflag = false;
  final_fpga = 0;
}

-- The last statement of the constructor.
unfoldable pub finish_construct : Ring → Option Error → Result Ring
finish_construct r (some e) = fails e
finish_construct r none = if check_invariants r then returns r else fails assertion_failed

unfoldable pub construct : Bool → Config → Setup → Result Ring
construct avx2 cfg s = finish_construct (empty_ring cfg s) (setup_error avx2 cfg s)
