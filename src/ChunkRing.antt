-- ===== src/ChunkRing.antt =====
-- assembled_chunk_ringbuf.cpp: the telescoping ring buffer of one beam. Level 0 holds chunks as they
-- are assembled; each further level holds chunks of twice the length, made from two chunks that the
-- level above had no more room for.
pub mod Put
pub mod Check
pub mod Make
pub mod Empty
pub mod Assemble
pub mod Get
pub mod Sizes
pub mod Slots
pub mod Part
pub mod Timeline
pub mod Place
pub mod Checked
pub mod Preserve
pub mod Invariant
pub mod Returns
pub mod Open
pub mod Assembling
pub mod PacketIn
pub mod Packets
pub mod Delivery
pub mod Ending
pub mod Tests
use ch_frb_io.Base.{
  ℕ, zero, suc, ◌+◌, ◌-◌, ◌%◌, ◌^◌, Bool, true, false, not, ◌&&◌, Option, none, some, List, [], ◌∷◌,
  if◌then◌else◌, get_or,
}
use ch_frb_io.Outcome.{ℤ, pos, Error, Result, fails, out_of_memory}
use ch_frb_io.Chunk.{Arrays, Chunk}
use ch_frb_io.Chunk

-- The stream's parameters that the ring buffer reads (intensity_network_stream::initializer), as the
-- constructor of the stream has checked them. `memory_pool` is the pool's `nbytes_per_slab`.
pub record Config : Type 0 where
  pub nupfreq : ℕ
  pub nrfifreq : ℕ
  pub nt_per_packet : ℕ
  pub fpga_counts_per_sample : ℕ
  pub force_reference_kernels : Bool
  pub force_fast_kernels : Bool
  pub throw_exception_on_buffer_drop : Bool
  pub throw_exception_on_assembler_miss : Bool
  pub memory_pool : Option ℕ

-- What the ring buffer gets from outside: the kernels that halve intensities, whether the memory
-- pool has a slab for the chunk of a given time and binning, what `enqueue_write_request` throws for
-- a chunk that is to be streamed to disk, and whether the machine has AVX2.
pub record Env : Type 0 where
  pub kernel : Chunk → Arrays → Arrays → Arrays
  pub slab_granted : ℕ → ℕ → Bool
  pub enqueue : Chunk → ℤ → Bool → Option Error
  pub avx2 : Bool

-- One level: `ringbuf_pos[i]`, `ringbuf_size[i]`, `ringbuf_capacity[i]` and `ringbuf[i]`.
pub record Level : Type 0 where
  pub ringbuf_pos : ℕ
  pub ringbuf_size : ℕ
  pub ringbuf_capacity : ℕ
  pub ringbuf : List (Option Chunk)

pub record Ring : Type 0 where
  pub config : Config
  pub open config use *
  pub beam_id : ℕ
  pub stream_id : ℕ
  pub nt_align : ℕ
  pub frame0_nano : ℕ
  pub max_fpga_flushed : ℕ
  pub max_fpga_retrieved : ℕ
  pub first_fpgacount : ℕ
  pub first_packet_received : Bool
  pub active_chunk0 : Option Chunk
  pub active_chunk1 : Option Chunk
  pub levels : List Level
  pub downstream_pos : ℕ
  pub downstream_bufsize : ℕ
  pub streaming : Bool
  pub stream_priority : ℤ
  pub stream_rfi_mask : Bool
  pub stream_chunks_written : ℕ
  pub stream_bytes_written : ℕ
  pub doneflag : Bool
  pub final_fpga : ℕ

-- The event counts that the assembler thread passes along.
pub record Counts : Type 0 where
  pub assembler_hit : ℕ
  pub assembler_miss : ℕ
  pub assembled_chunk_queued : ℕ
  pub assembled_chunk_dropped : ℕ

-- ringbuf_entry(). A null pointer is `none`.
unfoldable pub entry : Level → ℕ → Option Chunk
entry l ipos = get_or l.ringbuf (ipos % l.ringbuf_capacity) none

abbrev pub is_some : Option ℕ → Bool
is_some none = false
is_some (some x) = true

unfoldable pub chunk_params : Ring → ℕ → ℕ → Chunk.Initializer
chunk_params r ichunk binning = record {
  beam_id = pos r.beam_id;
  nupfreq = pos r.nupfreq;
  nrfifreq = pos r.nrfifreq;
  nt_per_packet = pos r.nt_per_packet;
  fpga_counts_per_sample = pos r.fpga_counts_per_sample;
  binning = pos binning;
  stream_id = pos r.stream_id;
  ichunk = ichunk;
  frame0_nano = r.frame0_nano;
  force_reference = r.force_reference_kernels;
  force_fast = r.force_fast_kernels;
  pool = r.memory_pool;
  slab = is_some r.memory_pool;
}

-- _make_assembled_chunk()
unfoldable pub make_assembled_chunk : Env → Ring → ℕ → ℕ → Result Chunk
make_assembled_chunk env r ichunk binning =
    if is_some r.memory_pool && not (env.slab_granted ichunk binning)
    then fails out_of_memory
    else Chunk.make env.avx2 (chunk_params r ichunk binning)

-- set_frame0() and stream_to_files(); `streaming` says that the file name pattern is not empty.
unfoldable pub set_frame0 : ℕ → Ring → Ring
set_frame0 f0 r = record r { frame0_nano = f0 }

unfoldable pub stream_to_files : Bool → ℤ → Bool → Ring → Ring
stream_to_files pattern priority need_rfi r = record r {
  streaming = pattern;
  stream_priority = priority;
  stream_rfi_mask = need_rfi;
  stream_chunks_written = 0;
  stream_bytes_written = 0;
}

-- chunk_streamed(), with the size of the file that `stat` gives, or none.
unfoldable pub chunk_streamed : Option ℕ → Ring → Ring
chunk_streamed none r = r
chunk_streamed (some len) r = record r {
  stream_chunks_written = r.stream_chunks_written + 1;
  stream_bytes_written = (r.stream_bytes_written + len) % 2 ^ 64;
}
