-- ===== src/Stream.antt =====
-- intensity_network_stream.cpp: one stream of UDP packets, from the socket to the assemblers of its
-- beams. The network thread fills packet lists and hands them to the assembler thread, which decodes
-- the packets and hands each beam of a packet to the assembler of the beam. A thread's function is
-- cut into the passes of its loop. Timers and the time that the threads report are not modelled.
pub mod Control
pub mod Shutdown
pub mod Make
pub mod Constructed
pub mod Perhost
pub mod Beams
pub mod Network
pub mod Reception
pub mod Assembler
pub mod Query
pub mod Routing
pub mod Ready
pub mod Delivery
pub mod Exit
pub mod Status
pub mod Tests
use ch_frb_io.Base.{ℕ, ◌+◌, Bool, Option, List}
use ch_frb_io.Outcome.{ℤ}
use ch_frb_io.ChunkRing.{Counts}
use ch_frb_io.ChunkRing
use ch_frb_io.UdpList.{PacketList}
use ch_frb_io.UdpRing

-- intensity_network_stream::initializer, but for the parameters of the operating system.
-- `has_frame0_url` says that `frame0_url` is not empty; `memory_pool` is the pool's `nbytes_per_slab`.
pub record Initializer : Type 0 where
  pub beam_ids : List ℤ
  pub memory_pool : Option ℕ
  pub nupfreq : ℤ
  pub nrfifreq : ℤ
  pub nt_per_packet : ℤ
  pub fpga_counts_per_sample : ℤ
  pub stream_id : ℤ
  pub nt_align : ℤ
  pub has_frame0_url : Bool
  pub udp_port : ℤ
  pub force_reference_kernels : Bool
  pub force_fast_kernels : Bool
  pub throw_exception_on_beam_id_mismatch : Bool
  pub throw_exception_on_packet_mismatch : Bool
  pub throw_exception_on_buffer_drop : Bool
  pub throw_exception_on_assembler_miss : Bool
  pub accept_end_of_stream_packets : Bool
  pub deliberately_crash : Bool
  pub unassembled_ringbuf_capacity : ℤ
  pub max_unassembled_packets_per_list : ℤ
  pub max_unassembled_nbytes_per_list : ℤ
  pub assembled_ringbuf_capacity : ℤ
  pub telescoping_ringbuf_capacity : List ℤ
  pub max_packet_history_size : ℕ

-- A vector of event counts, one field for each `event_type`; `assembler` has the four that the
-- assemblers count. Counts do not reach 2 ^ 63.
pub record Events : Type 0 where
  pub byte_received : ℕ
  pub packet_received : ℕ
  pub packet_good : ℕ
  pub packet_bad : ℕ
  pub packet_dropped : ℕ
  pub packet_end_of_stream : ℕ
  pub beam_id_mismatch : ℕ
  pub stream_mismatch : ℕ
  pub assembler : Counts

abbrev pub no_counts : Counts
no_counts = record {
  assembler_hit = 0;
  assembler_miss = 0;
  assembled_chunk_queued = 0;
  assembled_chunk_dropped = 0;
}

-- `vector<int64_t>(event_type::num_types, 0)`.
abbrev pub no_events : Events
no_events = record {
  byte_received = 0;
  packet_received = 0;
  packet_good = 0;
  packet_bad = 0;
  packet_dropped = 0;
  packet_end_of_stream = 0;
  beam_id_mismatch = 0;
  stream_mismatch = 0;
  assembler = no_counts;
}

unfoldable pub sum_counts : Counts → Counts → Counts
sum_counts a b = record {
  assembler_hit = a.assembler_hit + b.assembler_hit;
  assembler_miss = a.assembler_miss + b.assembler_miss;
  assembled_chunk_queued = a.assembled_chunk_queued + b.assembled_chunk_queued;
  assembled_chunk_dropped = a.assembled_chunk_dropped + b.assembled_chunk_dropped;
}

-- The loop of `_add_event_counts`.
unfoldable pub sum_events : Events → Events → Events
unfolding sum_counts
sum_events a b = record {
  byte_received = a.byte_received + b.byte_received;
  packet_received = a.packet_received + b.packet_received;
  packet_good = a.packet_good + b.packet_good;
  packet_bad = a.packet_bad + b.packet_bad;
  packet_dropped = a.packet_dropped + b.packet_dropped;
  packet_end_of_stream = a.packet_end_of_stream + b.packet_end_of_stream;
  beam_id_mismatch = a.beam_id_mismatch + b.beam_id_mismatch;
  stream_mismatch = a.stream_mismatch + b.stream_mismatch;
  assembler = sum_counts a.assembler b.assembler;
}

-- The flags that `state_lock` protects.
pub record Flags : Type 0 where
  pub stream_started : Bool
  pub stream_end_requested : Bool
  pub join_called : Bool
  pub threads_joined : Bool

-- What `stream_lock` protects; the file name pattern is a string.
pub record Streaming : Type 0 where
  pub stream_filename_pattern : List ℕ
  pub stream_beam_ids : List ℤ
  pub stream_priority : ℤ
  pub stream_rfi_mask : Bool
  pub stream_chunks_written : ℕ
  pub stream_bytes_written : ℕ

-- `packet_history` has its keys, the times of its entries, in ascending order, and for each the map
-- `counts`. `socket_open` says that `sockfd` is not negative.
pub record Stream : Type 0 where
  pub ini_params : Initializer
  pub assemblers : List ChunkRing.Ring
  pub unassembled_ringbuf : UdpRing.Ring
  pub incoming_packet_list : Option PacketList
  pub cumulative_event_counts : Events
  pub network_thread_event_subcounts : Events
  pub assembler_thread_event_subcounts : Events
  pub network_thread_perhost_packets : List (ℕ × ℕ)
  pub perhost_packets : List (ℕ × ℕ)
  pub packet_history : List (ℕ × List (ℕ × ℕ))
  pub packet_max_fpga_seen : ℕ
  pub frame0_nano : ℕ
  pub flags : Flags
  pub streaming : Streaming
  pub socket_open : Bool

-- _add_event_counts(), from each of the threads. All vectors have length `num_types`, so that its
-- test of the lengths passes.
unfoldable pub add_network_events : Stream → Stream
unfolding sum_events
add_network_events s = record s {
  cumulative_event_counts = sum_events s.cumulative_event_counts s.network_thread_event_subcounts;
  network_thread_event_subcounts = no_events;
}

unfoldable pub add_assembler_events : Stream → Stream
unfolding sum_events
add_assembler_events s = record s {
  cumulative_event_counts = sum_events s.cumulative_event_counts s.assembler_thread_event_subcounts;
  assembler_thread_event_subcounts = no_events;
}

-- get_event_counts()
unfoldable pub get_event_counts : Stream → Events
get_event_counts s = s.cumulative_event_counts
