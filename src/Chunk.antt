-- ===== src/Chunk.antt =====
-- assembled_chunk.cpp: the constructor of `assembled_chunk`, with its memory layout, and `downsample`.
-- An `int` argument whose sign is tested is an integer; `uint64_t` arithmetic wraps.
pub mod Layout
pub mod Downsample
pub mod RfiMask
pub mod Fill
pub mod Tests
use ch_frb_io.Base.{
  ℕ, suc, zero, ◌+◌, ◌-◌, ◌*◌, ◌/◌, ◌%◌, ◌^◌, Bool, true, false, not, ◌||◌, ◌&&◌, Option, none,
  some, List, [], ltb, leb, ◌==◌, if◌then◌else◌, bit_and, replicate,
}
use ch_frb_io.Constants.{
  nfreq_coarse_tot, nt_per_assembled_chunk, max_allowed_beam_id, max_allowed_nupfreq,
  max_allowed_fpga_counts_per_sample,
}
use ch_frb_io.Outcome.{
  ℤ, pos, pos_part, leb_ℤ, ltb_ℤ, Error, Result, returns, fails, bad_beam_id, bad_nupfreq,
  bad_nrfifreq, bad_nt_per_packet, bad_fpga_counts_per_sample, bad_binning, bad_stream_id,
  bad_ichunk, bad_kernel_flags, slab_mismatch,
}
use Layout.{slab_size, nt_c}

-- The encoded arrays, with `scales` and `offsets` as bit patterns of floats, and the RFI mask.
pub record Arrays : Type 0 where
  pub intensities : List ℕ
  pub scales : List ℕ
  pub offsets : List ℕ

pub record Chunk : Type 0 where
  pub beam_id : ℕ
  pub nupfreq : ℕ
  pub nrfifreq : ℕ
  pub nt_per_packet : ℕ
  pub fpga_counts_per_sample : ℕ
  pub binning : ℕ
  pub stream_id : ℕ
  pub ichunk : ℕ
  pub frame0_nano : ℕ
  pub isample : ℕ
  pub fpga_begin : ℕ
  pub fpga_end : ℕ
  pub has_rfi_mask : Bool
  pub packets_received : ℕ
  pub arrays : Arrays
  pub rfi_mask : List ℕ

-- assembled_chunk::initializer. `pool` is the pool's `nbytes_per_slab`, and `slab` says whether a slab
-- comes with it.
pub record Initializer : Type 0 where
  pub beam_id : ℤ
  pub nupfreq : ℤ
  pub nrfifreq : ℤ
  pub nt_per_packet : ℤ
  pub fpga_counts_per_sample : ℤ
  pub binning : ℤ
  pub stream_id : ℤ
  pub ichunk : ℕ
  pub frame0_nano : ℕ
  pub force_reference : Bool
  pub force_fast : Bool
  pub pool : Option ℕ
  pub slab : Bool

-- is_power_of_two(), for arguments above 0.
abbrev pub is_power_of_two : ℕ → Bool
is_power_of_two n = bit_and n (n - 1) == 0

-- The first check of the constructor that fails. `_nt_c` runs first, in the list of initialisers.
unfoldable pub first_bad : Initializer → Option Error
first_bad i =
    if leb_ℤ i.nt_per_packet (pos 0) || not (nt_per_assembled_chunk % pos_part i.nt_per_packet == 0)
    then some bad_nt_per_packet
    else if ltb_ℤ i.beam_id (pos 0) || ltb_ℤ (pos max_allowed_beam_id) i.beam_id
    then some bad_beam_id
    else if leb_ℤ i.nupfreq (pos 0) || ltb_ℤ (pos max_allowed_nupfreq) i.nupfreq
    then some bad_nupfreq
    else if ltb_ℤ i.nrfifreq (pos 0)
    then some bad_nrfifreq
    else if ltb_ℤ (pos 0) i.nrfifreq
        && not (nfreq_coarse_tot * pos_part i.nupfreq % pos_part i.nrfifreq == 0)
    then some bad_nrfifreq
    else if not (is_power_of_two (pos_part i.nt_per_packet))
        || ltb nt_per_assembled_chunk (pos_part i.nt_per_packet)
    then some bad_nt_per_packet
    else if leb_ℤ i.fpga_counts_per_sample (pos 0)
        || ltb_ℤ (pos max_allowed_fpga_counts_per_sample) i.fpga_counts_per_sample
    then some bad_fpga_counts_per_sample
    else if leb_ℤ i.binning (pos 0)
        || not (is_power_of_two (pos_part i.binning))
        || ltb_ℤ (pos 8) i.binning
    then some bad_binning
    else if ltb_ℤ i.stream_id (pos 0) || ltb_ℤ (pos 9) i.stream_id
    then some bad_stream_id
    else if ltb ((2 ^ 64 - 1) / (nt_per_assembled_chunk * pos_part i.fpga_counts_per_sample))
        i.ichunk
    then some bad_ichunk
    else none

-- A pool comes with a slab that is large enough, and no pool with no slab.
unfoldable pub slab_ok : Initializer → Option ℕ → Bool
slab_ok i none = not i.slab
slab_ok i (some nbytes_per_slab) =
    i.slab
    && leb (slab_size (pos_part i.nupfreq) (pos_part i.nt_per_packet) (pos_part i.nrfifreq))
        nbytes_per_slab

-- The chunk that the constructor sets up. Its slab is zeroed memory.
unfoldable pub fresh : Initializer → Chunk
fresh i =
    let nt = nt_per_assembled_chunk in
    let fpga = pos_part i.fpga_counts_per_sample in
    let nscales = nfreq_coarse_tot * nt_c (pos_part i.nt_per_packet) in
    record {
      beam_id = pos_part i.beam_id;
      nupfreq = pos_part i.nupfreq;
      nrfifreq = pos_part i.nrfifreq;
      nt_per_packet = pos_part i.nt_per_packet;
      fpga_counts_per_sample = fpga;
      binning = pos_part i.binning;
      stream_id = pos_part i.stream_id;
      ichunk = i.ichunk;
      frame0_nano = i.frame0_nano;
      isample = i.ichunk * nt % 2 ^ 64;
      fpga_begin = i.ichunk * nt * fpga % 2 ^ 64;
      fpga_end = (i.ichunk + pos_part i.binning) * nt * fpga % 2 ^ 64;
      has_rfi_mask = false;
      packets_received = 0;
      arrays = record {
        intensities = replicate (nfreq_coarse_tot * pos_part i.nupfreq * nt) 0;
        scales = replicate nscales 0;
        offsets = replicate nscales 0;
      };
      rfi_mask = replicate (pos_part i.nrfifreq * nt / 8) 0;
    }

unfoldable pub construct : Initializer → Result Chunk
construct i = elim (first_bad i) [
  | some e ↦ fails e
  | none ↦ if slab_ok i i.pool then returns (fresh i) else fails slab_mismatch
]

-- assembled_chunk::make(), on a machine with AVX2 or without. The class that it picks differs in the
-- speed of its kernels only.
unfoldable pub make : Bool → Initializer → Result Chunk
make avx2 i =
    let fast_kernel_exists = pos_part i.nt_per_packet == 16 && pos_part i.nupfreq % 2 == 0 in
    if i.force_reference && i.force_fast
    then fails bad_kernel_flags
    else if i.force_fast && not fast_kernel_exists
    then fails bad_kernel_flags
    else if i.force_fast && not avx2
    then fails bad_kernel_flags
    else construct i
