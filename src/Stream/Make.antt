-- ===== src/Stream/Make.antt =====
-- The constructor of `intensity_network_stream`: its checks, and what it makes.
use ch_frb_io.Base.{
  ◌*◌, ◌%◌, Bool, true, false, not, ◌&&◌, ◌||◌, Option, none, some, List, [], ◌∷◌, if◌then◌else◌,
  ◌==◌,
}
use ch_frb_io.Constants.{
  max_allowed_beam_id, max_allowed_nupfreq, max_allowed_nt_per_packet,
  max_allowed_fpga_counts_per_sample, nfreq_coarse_tot, nt_per_assembled_chunk,
}
use ch_frb_io.Outcome.{
  ℤ, pos, pos_part, leb_ℤ, ltb_ℤ, eq_ℤ, Error, Result, returns, fails, no_beams, bad_beam_id,
  duplicate_beam_ids, bad_nupfreq, bad_nrfifreq, bad_nt_per_packet, bad_fpga_counts_per_sample,
  bad_stream_id, bad_nt_align, bad_udp_port, bad_kernel_flags, bad_ringbuf_capacity,
  bad_telescoping_capacity,
}
use ch_frb_io.ChunkRing.{Config}
use ch_frb_io.ChunkRing.Make.{Setup, too_short}
use ch_frb_io.ChunkRing.Make
use ch_frb_io.ChunkRing
use ch_frb_io.UdpList.{PacketList}
use ch_frb_io.UdpList
use ch_frb_io.UdpRing
use ch_frb_io.Stream.{Initializer, Stream, no_events}
use ch_frb_io.Stream.Control.{initial}

-- `vcontains`, and the inner loop over the beams before one.
unfoldable pub vcontains : List ℤ → ℤ → Bool
vcontains [] x = false
vcontains (v ∷ vs) x = eq_ℤ v x || vcontains vs x

-- The loop over the beams: `before` are those that came already.
unfoldable pub beams_error : List ℤ → List ℤ → Option Error
unfolding vcontains
beams_error before [] = none
beams_error before (b ∷ bs) =
    let rest = beams_error (b ∷ before) bs in
    if ltb_ℤ b (pos 0) || ltb_ℤ (pos max_allowed_beam_id) b
    then some bad_beam_id
    else if vcontains before b
    then some duplicate_beam_ids
    else rest

abbrev pub is_empty : List ℤ → Bool
is_empty [] = true
is_empty (x ∷ xs) = false

-- The checks behind the one of the beams, in order; a divisor that is not positive is not used.
unfoldable pub params_error : Bool → Initializer → Option Error
params_error avx2 x =
    if leb_ℤ x.nupfreq (pos 0) || ltb_ℤ (pos max_allowed_nupfreq) x.nupfreq
    then some bad_nupfreq
    else if ltb_ℤ x.nrfifreq (pos 0)
    then some bad_nrfifreq
    else if ltb_ℤ (pos 0) x.nrfifreq
        && not (nfreq_coarse_tot * pos_part x.nupfreq % pos_part x.nrfifreq == 0)
    then some bad_nrfifreq
    else if leb_ℤ x.nt_per_packet (pos 0) || ltb_ℤ (pos max_allowed_nt_per_packet) x.nt_per_packet
    then some bad_nt_per_packet
    else if leb_ℤ x.fpga_counts_per_sample (pos 0)
        || ltb_ℤ (pos max_allowed_fpga_counts_per_sample) x.fpga_counts_per_sample
    then some bad_fpga_counts_per_sample
    else if ltb_ℤ x.stream_id (pos 0) || ltb_ℤ (pos 9) x.stream_id
    then some bad_stream_id
    else if ltb_ℤ x.nt_align (pos 0) || not (pos_part x.nt_align % nt_per_assembled_chunk == 0)
    then some bad_nt_align
    else if leb_ℤ x.udp_port (pos 0) || leb_ℤ (pos 65536) x.udp_port
    then some bad_udp_port
    else if x.force_fast_kernels && x.force_reference_kernels
    then some bad_kernel_flags
    else if not avx2 && x.force_fast_kernels
    then some bad_kernel_flags
    else if leb_ℤ x.assembled_ringbuf_capacity (pos 0)
    then some bad_ringbuf_capacity
    else if too_short x.telescoping_ringbuf_capacity
    then some bad_telescoping_capacity
    else none

-- The first check that throws.
abbrev pub or_else : Option Error → Option Error → Option Error
or_else none o = o
or_else (some e) o = some e

unfoldable pub ini_error : Bool → Initializer → Option Error
unfolding beams_error params_error
ini_error avx2 x =
    if is_empty x.beam_ids
    then some no_beams
    else or_else (beams_error [] x.beam_ids) (params_error avx2 x)

-- The part of the parameters that an assembler reads.
unfoldable pub config_of : Initializer → Config
config_of x = record {
  nupfreq = pos_part x.nupfreq;
  nrfifreq = pos_part x.nrfifreq;
  nt_per_packet = pos_part x.nt_per_packet;
  fpga_counts_per_sample = pos_part x.fpga_counts_per_sample;
  force_reference_kernels = x.force_reference_kernels;
  force_fast_kernels = x.force_fast_kernels;
  throw_exception_on_buffer_drop = x.throw_exception_on_buffer_drop;
  throw_exception_on_assembler_miss = x.throw_exception_on_assembler_miss;
  memory_pool = x.memory_pool;
}

unfoldable pub setup_of : Initializer → ℤ → Setup
setup_of x b = record {
  beam_id = b;
  stream_id = pos_part x.stream_id;
  nt_align = x.nt_align;
  assembled_ringbuf_capacity = x.assembled_ringbuf_capacity;
  telescoping_ringbuf_capacity = x.telescoping_ringbuf_capacity;
}

-- The loop that makes the assemblers.
abbrev pub cons_result :
    Result ChunkRing.Ring → Result (List ChunkRing.Ring) → Result (List ChunkRing.Ring)
cons_result (fails e) rs = fails e
cons_result (returns r) (fails e) = fails e
cons_result (returns r) (returns rs) = returns (r ∷ rs)

unfoldable pub make_assemblers : Bool → Initializer → List ℤ → Result (List ChunkRing.Ring)
unfolding config_of setup_of
make_assemblers avx2 x [] = returns []
make_assemblers avx2 x (b ∷ bs) =
    cons_result (Make.construct avx2 (config_of x) (setup_of x b)) (make_assemblers avx2 x bs)

unfoldable pub new_stream :
    Initializer
    → Result (List ChunkRing.Ring)
    → Result UdpRing.Ring
    → Result PacketList
    → Result Stream
new_stream x (fails e) u l = fails e
new_stream x (returns rs) (fails e) l = fails e
new_stream x (returns rs) (returns u) (fails e) = fails e
new_stream x (returns rs) (returns u) (returns l) = returns (record {
  ini_params = x;
  assemblers = rs;
  unassembled_ringbuf = u;
  incoming_packet_list = some l;
  cumulative_event_counts = no_events;
  network_thread_event_subcounts = no_events;
  assembler_thread_event_subcounts = no_events;
  network_thread_perhost_packets = [];
  perhost_packets = [];
  packet_history = [];
  packet_max_fpga_seen = 0;
  frame0_nano = 0;
  flags = initial;
  streaming = record {
    stream_filename_pattern = [];
    stream_beam_ids = [];
    stream_priority = pos 0;
    stream_rfi_mask = false;
    stream_chunks_written = 0;
    stream_bytes_written = 0;
  };
  socket_open = false;
})

unfoldable pub checked_stream : Bool → Initializer → Option Error → Result Stream
unfolding make_assemblers new_stream
checked_stream avx2 x (some e) = fails e
checked_stream avx2 x none =
    new_stream x (make_assemblers avx2 x x.beam_ids)
      (UdpRing.make x.unassembled_ringbuf_capacity x.max_unassembled_packets_per_list
        x.max_unassembled_nbytes_per_list)
      (UdpList.make x.max_unassembled_packets_per_list x.max_unassembled_nbytes_per_list)

-- The constructor; `avx2` says whether the machine has the instruction set.
unfoldable pub construct : Bool → Initializer → Result Stream
unfolding ini_error checked_stream
construct avx2 x = checked_stream avx2 x (ini_error avx2 x)
