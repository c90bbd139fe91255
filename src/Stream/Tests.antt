-- ===== src/Stream/Tests.antt =====
-- Runs of the stream, and the theorems at concrete streams.
use ch_frb_io.Base.{
  ℕ, zero, suc, ◌+◌, ◌*◌, ◌≡◌, ◌≤◌, ◌<◌, refl, true, false, none, some, List, [], ◌∷◌, ◌++◌, length,
  inl, arith,
}
use ch_frb_io.Base.Bytes.{to_le}
use ch_frb_io.Outcome.{pos, done, returns, Ends, duplicate_beam_ids}
use ch_frb_io.Packet.{Packet, beam_id, packet_size, header_size, coarse_freq_id}
use ch_frb_io.Packet.Checks.{IsChecked}
use ch_frb_io.UdpList.{PacketList}
use ch_frb_io.ChunkRing.Make.{too_short}
use ch_frb_io.ChunkRing.Tests.{env, new_ring, busy_ring}
use ch_frb_io.Stream.{Initializer, Stream}
use ch_frb_io.Stream.Control.{end_stream, initial, start_stream, join_pass}
use ch_frb_io.Stream.Make.{construct, ini_error, params_error, beams_error, vcontains}
use ch_frb_io.Stream.Constructed.{IsNew, HasRoom, construct-IsNew}
use ch_frb_io.Stream.Perhost.{increment, lookup, assign, sender_of, update}
use ch_frb_io.Stream.Beams.{find_assembler, found, no_match, first_beam}
use ch_frb_io.Stream.Routing.{
  FirstFrom, find_assembler-ends, beam_after, by_index, beam_after-inside, handle_beams-by_index,
}
use ch_frb_io.Stream.Beams.{handle_beams}
use ch_frb_io.Stream.Assembler.{handle_list}
use ch_frb_io.Stream.Delivery.{Accounted, AllSound, handle_list-Ends}
use ch_frb_io.Stream.Exit
use ch_frb_io.Stream.Network.{Due, Received, no_packet, packet_from, network_loop, update_perhost}
use ch_frb_io.Stream.Reception.{IsBalanced, IsNear, network_loop-IsBalanced}
use ch_frb_io.Stream.Reception
use ch_frb_io.Stream.Shutdown.{
  World, at_first, Steps, here, then_step, starts, joins, IsConsistent, reachable-IsConsistent,
}
use ch_frb_io.Stream.Query.{stream_to_files, get_streaming_status, all_known}
use ch_frb_io.Stream.Status.{Streams, get_streaming_status-stream_to_files}

-- Two beams, 7 and 9, and a queue of two short packet lists.
abbrev pub two_beams : Initializer
two_beams = record {
  beam_ids = pos 7 ∷ pos 9 ∷ [];
  memory_pool = none;
  nupfreq = pos 1;
  nrfifreq = pos 0;
  nt_per_packet = pos 16;
  fpga_counts_per_sample = pos 1;
  stream_id = pos 0;
  nt_align = pos 0;
  has_frame0_url = false;
  udp_port = pos 6677;
  force_reference_kernels = false;
  force_fast_kernels = false;
  throw_exception_on_beam_id_mismatch = false;
  throw_exception_on_packet_mismatch = false;
  throw_exception_on_buffer_drop = false;
  throw_exception_on_assembler_miss = false;
  accept_end_of_stream_packets = true;
  deliberately_crash = false;
  unassembled_ringbuf_capacity = pos 2;
  max_unassembled_packets_per_list = pos 2;
  max_unassembled_nbytes_per_list = pos 100;
  assembled_ringbuf_capacity = pos 2;
  telescoping_ringbuf_capacity = pos 2 ∷ pos 3 ∷ [];
  max_packet_history_size = 2;
}

two_beams-HasRoom : HasRoom two_beams
two_beams-HasRoom = inl (omega arith)

two_beams-ok : ini_error false two_beams ≡ none
unfolding ini_error params_error beams_error vcontains too_short
two_beams-ok = refl

twice :
    ini_error false (record two_beams { beam_ids = pos 7 ∷ pos 7 ∷ [] }) ≡ some duplicate_beam_ids
unfolding ini_error params_error beams_error vcontains too_short
twice = refl

-- The stream that the constructor returns for the two beams.
made : (s : Stream) × (construct false two_beams ≡ returns s) × IsNew two_beams s
made = construct-IsNew false two_beams two_beams-HasRoom (refl, refl, refl) two_beams-ok

abbrev fresh : Stream
fresh = made.0

second_beam : find_assembler 3 two_beams.beam_ids 9 0 ≡ found 1
unfolding find_assembler
second_beam = refl

unknown_beam_id : find_assembler 3 two_beams.beam_ids 8 0 ≡ no_match
unfolding find_assembler
unknown_beam_id = refl

find_assembler-ends_example :
    FirstFrom two_beams.beam_ids 9 0
      (find_assembler (length two_beams.beam_ids + 1) two_beams.beam_ids 9 0)
find_assembler-ends_example = find_assembler-ends two_beams.beam_ids 9

-- A packet of both beams, with one coarse channel and 16 samples.
abbrev both : Packet
both = record {
  header = record {
    protocol_version = 1;
    data_nbytes = 32;
    fpga_counts_per_sample = 1;
    fpga_count = 1024;
    nbeams = 2;
    nfreq_coarse = 1;
    nupfreq = 1;
    ntsamp = 16;
  };
  src =
      to_le 4 1
      ++ (to_le 2 32
          ++ (to_le 2 1
              ++ (to_le 8 1024
                  ++ (to_le 2 2
                      ++ (to_le 2 1
                          ++ (to_le 2 1
                              ++ (to_le 2 16 ++ (to_le 2 7 ++ (to_le 2 9 ++ to_le 2 3)))))))));
  beam_ids = 24;
  coarse_freq_ids = 28;
  scales = 30;
  offsets = 38;
  bytes = 46;
}

both-id : (i : ℕ) → i < 1 → coarse_freq_id both i < 1024
unfolding coarse_freq_id
both-id zero l = omega arith
both-id (suc i) l = absurd (omega arith)

both-IsChecked : IsChecked both 78
unfolding packet_size header_size
both-IsChecked = record {
  version = refl;
  some_samples = omega arith;
  samples_bounded = omega arith;
  samples_power = (4, refl);
  some_counts = omega arith;
  aligned = refl;
  size = refl;
  data_size = refl;
  ids = both-id;
  beams_at = refl;
  freqs_at = refl;
  scales_at = refl;
  offsets_at = refl;
  data_at = refl;
}

beam_after-inside_example :
    (beam_id (beam_after both 1) 0 ≡ beam_id both 1)
    × ((beam_after both 1).nbeams ≡ 1)
    × ((beam_after both 1).data_nbytes ≡ 1 * 1 * 16)
    × ((beam_after both 1).beam_ids + 2 ≤ 28)
    × ((beam_after both 1).scales + 4 * 1 ≤ 38)
    × ((beam_after both 1).offsets + 4 * 1 ≤ 46)
    × ((beam_after both 1).bytes + (beam_after both 1).data_nbytes ≤ 78)
beam_after-inside_example = beam_after-inside both 78 1 both-IsChecked (omega arith) (omega arith)

handle_beams-by_index_example :
    handle_beams env 2 (first_beam both) fresh ≡ by_index env (first_beam both) 0 2 fresh
handle_beams-by_index_example = handle_beams-by_index env both 2 fresh

-- The packet in a packet list.
abbrev one_packet : PacketList
one_packet = record {
  max_npackets = 2;
  max_nbytes = 100;
  curr_npackets = 1;
  curr_nbytes = 78;
  is_full = false;
  buf = both.src ++ (both.src ++ both.src);
  data_end = 78;
  packet_offsets = 0 ∷ 78 ∷ 0 ∷ [];
}

handle_list-Ends_example : Ends (Accounted fresh 1) AllSound (handle_list env one_packet fresh)
handle_list-Ends_example = handle_list-Ends env one_packet fresh made.2.ready

-- Nothing is due; a packet from 10.0.0.1, a timeout, and an end-of-stream packet.
abbrev not_due : Due
not_due = record { cancellation_check = false; flush = false; packet_count = false; time = 0 }

abbrev rounds : List (Due × Received)
rounds =
    (not_due, packet_from 167772161 6677 both.src)
    ∷ (not_due, no_packet)
    ∷ (not_due, packet_from 167772161 6677 (to_le 8 0 ++ (to_le 8 0 ++ to_le 8 0)))
    ∷ []

network_loop-IsBalanced_example : Ends (IsBalanced 0) (IsNear 0) (network_loop rounds fresh)
network_loop-IsBalanced_example = network_loop-IsBalanced 0 rounds fresh made.2.balanced

-- A stream with one assembler that has had a packet.
abbrev busy : Stream
busy = record fresh { assemblers = busy_ring ∷ [] }

-- Two packets from one sender and one from another.
senders : increment 1 5 (increment 1 6 (increment 1 5 [])) ≡ (4294967301, 2) ∷ (4294967302, 1) ∷ []
unfolding increment lookup assign sender_of
senders = refl

-- A stream that has counted one packet, at time 30, with a full history.
abbrev counted : Stream
counted = record fresh {
  network_thread_perhost_packets = (1, 4) ∷ [];
  perhost_packets = (1, 3) ∷ [];
  packet_history = (10, (1, 2) ∷ []) ∷ (20, (1, 3) ∷ []) ∷ [];
}

updated : (update_perhost counted).perhost_packets ≡ (1, 4) ∷ []
unfolding update assign
updated = refl

-- A stream that was started, and one thread that called `join_threads`.
abbrev running : World
running = record at_first { flags = record initial { stream_started = true } }

abbrev joined_once : World
joined_once = record running {
  flags = record initial { stream_started = true; join_called = true };
  joining = true;
}

to_joined_once : Steps at_first joined_once
unfolding start_stream join_pass
to_joined_once =
    then_step at_first running joined_once
      (then_step at_first at_first running (here at_first)
        (starts at_first (record initial { stream_started = true }) refl))
      (joins running (record initial { stream_started = true; join_called = true }) refl)

reachable-IsConsistent_example : IsConsistent joined_once
reachable-IsConsistent_example = reachable-IsConsistent joined_once to_joined_once

-- The same after a call of `end_stream`.
abbrev ending : World
ending = record joined_once { flags = end_stream joined_once.flags }

-- Beam 9 is to be streamed to files of pattern "c".
abbrev two_rings : Stream
two_rings = record fresh { ini_params = two_beams; assemblers = new_ring ∷ busy_ring ∷ [] }

beam_nine_known : all_known two_rings.ini_params.beam_ids (pos 9 ∷ []) ≡ true
unfolding all_known vcontains
beam_nine_known = refl

get_streaming_status-stream_to_files_example :
    (t : Stream) × (stream_to_files (99 ∷ []) (pos 9 ∷ []) (pos 1) false two_rings ≡ done tt t)
    × Streams (99 ∷ []) (pos 9 ∷ []) t.ini_params.beam_ids t.assemblers
    × (get_streaming_status t ≡ (99 ∷ [], pos 9 ∷ [], pos 1, 0, 0))
get_streaming_status-stream_to_files_example =
    get_streaming_status-stream_to_files (99 ∷ []) (pos 9 ∷ []) (pos 1) false two_rings
      beam_nine_known
