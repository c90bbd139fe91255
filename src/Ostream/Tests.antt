-- ===== src/Ostream/Tests.antt =====
-- Runs of the sender, and the theorems at concrete senders.
use ch_frb_io.Base.{
  ℕ, zero, suc, ◌+◌, ◌*◌, ◌^◌, ◌≡◌, ◌<◌, ◌≤◌, refl, true, false, Option, none, some, List, [], ◌∷◌,
  replicate, get_or, length, arith,
}
use ch_frb_io.Outcome.{ℤ, done, pos, returns, fails, division_by_zero}
use ch_frb_io.Packet.{good, decode, packet_size, header_size}
use ch_frb_io.Packet.Checks.{laid_out}
use ch_frb_io.Packet.Encode.{encode}
use ch_frb_io.Packet.EncodeTests.{whole}
use ch_frb_io.Packet.RoundTrip.{read_ids}
use ch_frb_io.Stream.Make.{beams_error, vcontains}
use ch_frb_io.Stream.Beams.{is_mismatch}
use ch_frb_io.Stream.Tests.{two_beams}
use ch_frb_io.UdpList.{PacketList, first_packets, get_packet_data, get_packet_nbytes}
use ch_frb_io.UdpRing
use ch_frb_io.UdpRing.Refine.{IsValid, contents, blank}
use ch_frb_io.Ostream.Sending.{Writer, end_of_stream_packet, network_pthread_main}
use ch_frb_io.Ostream.Drained.{all_packets, npackets_of, network_pthread_main-Drained}
use ch_frb_io.Ostream.Fills.{IsPacketAt, IsEmptyFor, encode_chunk-fills}
use ch_frb_io.Ostream.{
  encode_chunk, nt_outer, Sender, ChunkData, packet_of, samples_of, nbytes_per_packet, nf_outer,
}
use ch_frb_io.Ostream.Make.{
  overflows, Initializer, construct, ini_error, sizes_error, packet_error, freqs_error, split_name,
  port_of,
}
use ch_frb_io.Ostream.Accepted.{IsSender, packet_of-accepted}
use ch_frb_io.Ostream.Constructed.{construct-IsSender}

-- Beams 7 and 9, coarse channels 5 and 3, a packet for each channel and each 16 samples.
abbrev small : Initializer whole
small = record {
  dstname = b'h' ∷ b':' ∷ b'1' ∷ [];
  beam_ids = pos 7 ∷ pos 9 ∷ [];
  coarse_freq_ids = pos 5 ∷ pos 3 ∷ [];
  nupfreq = pos 1;
  nt_per_chunk = pos 32;
  nfreq_coarse_per_packet = pos 1;
  nt_per_packet = pos 16;
  fpga_counts_per_sample = pos 1;
  wt_cutoff = 1;
  target_gbps_bad = false;
  inferred_gbps_bad = false;
  is_blocking = true;
  throw_exception_on_buffer_drop = false;
}

abbrev one_digit : List ℕ → Option ℕ
one_digit [] = none
one_digit (c ∷ cs) = some 1

small-ok : ini_error whole small ≡ none
unfolding ini_error overflows sizes_error packet_error freqs_error beams_error vcontains packet_size
    header_size
small-ok = refl

small-port : port_of one_digit (split_name small.dstname).1 ≡ some 1
unfolding port_of split_name
small-port = refl

-- A sender that is left with the default of `nfreq_coarse_per_packet`.
unset :
    construct whole (record small { nfreq_coarse_per_packet = pos 0 }) one_digit
    ≡ fails division_by_zero
unfolding construct ini_error
unset = refl

-- The sender that the constructor makes.
made : (o : Sender whole) × (construct whole small one_digit ≡ returns o) × IsSender whole o
made = construct-IsSender whole small one_digit 1 small-ok small-port

abbrev sender : Sender whole
sender = record made.0 {
  nbeams = 2;
  nfreq_coarse_per_packet = 1;
  nfreq_coarse_per_chunk = 2;
  nupfreq = 1;
  nt_per_packet = 16;
  nt_per_chunk = 32;
  fpga_counts_per_sample = 1;
  beam_ids_16bit = 7 ∷ 9 ∷ [];
  coarse_freq_ids_16bit = 5 ∷ 3 ∷ [];
}

sender-beams : (i : ℕ) → get_or (7 ∷ 9 ∷ []) i 0 < 65536
sender-beams zero = omega arith
sender-beams (suc zero) = omega arith
sender-beams (suc (suc i)) = omega arith

sender-freqs : (i : ℕ) → get_or (5 ∷ 3 ∷ []) i 0 < 1024
sender-freqs zero = omega arith
sender-freqs (suc zero) = omega arith
sender-freqs (suc (suc i)) = omega arith

sender-IsSender : IsSender whole sender
unfolding nbytes_per_packet packet_size header_size nf_outer nt_outer
sender-IsSender = record {
  beams = refl;
  beams_fit = omega arith;
  beams_16bit = sender-beams;
  freqs = refl;
  freqs_16bit = sender-freqs;
  per_packet_fit = omega arith;
  upfreqs_fit = omega arith;
  samples = (4, omega arith, refl);
  samples_fit = omega arith;
  some_counts = omega arith;
  counts_fit = omega arith;
  small = omega arith;
  chunk_fits = omega arith;
  chunk_bytes_fit = omega arith;
}

abbrev ramp : ChunkData whole
ramp = record { intensity = λ i. i; istride = 32; weights = λ i. 1; wstride = 32 }

abbrev zeros : List ℕ
zeros = replicate 100 0

zeros-room : nbytes_per_packet whole sender ≤ length zeros
unfolding nbytes_per_packet packet_size header_size
zeros-room = omega arith

last_row : 1 < nt_outer whole sender
unfolding nt_outer
last_row = omega arith

last_block : 1 < nf_outer whole sender
unfolding nf_outer
last_block = omega arith

abbrev sent : List ℕ × ℕ
sent = encode whole (samples_of whole sender ramp 1 1) (packet_of whole sender 64 1 1) zeros

packet_of-accepted_example :
    (1 * sender.nt_per_packet < 2 ^ 31)
    × (sent.1 ≡ nbytes_per_packet whole sender)
    × (decode sent.0 sent.1 ≡ good (laid_out sent.0 (packet_of whole sender 64 1 1).header))
    × (is_mismatch two_beams (laid_out sent.0 (packet_of whole sender 64 1 1).header) ≡ false)
    × (read_ids sent.0 24 (packet_of whole sender 64 1 1).nbeams ≡ 7 ∷ 9 ∷ [])
    × (read_ids sent.0
          (24 + 2 * (packet_of whole sender 64 1 1).nbeams)
          (packet_of whole sender 64 1 1).nfreq_coarse
        ≡ 3 ∷ [])
packet_of-accepted_example =
    packet_of-accepted whole sender two_beams ramp 64 1 1 zeros sender-IsSender
      (refl, refl, refl, refl) refl (omega arith) last_row last_block zeros-room

-- An empty list with room for the four packets of a chunk.
abbrev empty_list : PacketList
empty_list = record {
  max_npackets = 5;
  max_nbytes = 500;
  curr_npackets = 0;
  curr_nbytes = 0;
  is_full = false;
  buf = replicate 600 0;
  data_end = 0;
  packet_offsets = replicate 6 0;
}

empty_list-IsEmptyFor :
    IsEmptyFor
      (nbytes_per_packet whole sender)
      (nt_outer whole sender * nf_outer whole sender)
      empty_list
unfolding nbytes_per_packet packet_size header_size nt_outer nf_outer
empty_list-IsEmptyFor = record {
  no_packets = refl;
  no_bytes = refl;
  fullness = refl;
  room_packets = omega arith;
  room_bytes = omega arith;
  room_buf = omega arith;
  at_start = refl;
}

times_fit : 64 + nt_outer whole sender * 16 * 1 < 2 ^ 64
unfolding nt_outer
times_fit = omega arith

encode_chunk-fills_example :
    (m : PacketList) × (encode_chunk whole sender ramp 64 empty_list ≡ done tt m)
    × (m.curr_npackets ≡ nt_outer whole sender * nf_outer whole sender)
    × (m.curr_nbytes
        ≡ nt_outer whole sender * nf_outer whole sender * nbytes_per_packet whole sender)
    × ((it jf : ℕ)
        → it < nt_outer whole sender
        → jf < nf_outer whole sender
        → IsPacketAt whole sender ramp 64 m it jf)
encode_chunk-fills_example =
    encode_chunk-fills whole sender ramp 64 empty_list sender-IsSender refl times_fit (omega arith)
      (omega arith) empty_list-IsEmptyFor

-- Two packets in one list.
abbrev two_packets : PacketList
two_packets = record blank {
  curr_npackets = 2;
  curr_nbytes = 5;
  buf = 1 ∷ 2 ∷ 3 ∷ 4 ∷ 5 ∷ 0 ∷ [];
  packet_offsets = 0 ∷ 3 ∷ 5 ∷ [];
}

abbrev closed_ring : UdpRing.Ring
closed_ring = record {
  ringbuf_capacity = 2;
  max_npackets_per_list = pos 2;
  max_nbytes_per_list = pos 5;
  stream_ended = true;
  ringbuf_size = 1;
  ringbuf_pos = 3;
  ringbuf = blank ∷ two_packets ∷ [];
}

abbrev writer : Writer
writer = record {
  ringbuf = closed_ring;
  packet_list = some blank;
  npackets_sent = 0;
  nbytes_sent = 0;
  send_end_of_stream_packets = true;
  sent = [];
}

abbrev takes_all : ℕ → List ℕ → ℕ → ℤ
takes_all i bytes n = pos n

closed_ring-IsValid : IsValid closed_ring
closed_ring-IsValid = omega arith

network_pthread_main-Drained_example :
    (w' : Writer) × (network_pthread_main takes_all 2 writer ≡ done false w')
    × (w'.sent ≡ (1 ∷ 2 ∷ 3 ∷ []) ∷ (4 ∷ 5 ∷ []) ∷ replicate 5 end_of_stream_packet)
    × (w'.npackets_sent ≡ 0 + 2)
    × (contents w'.ringbuf ≡ [])
    × (w'.ringbuf.stream_ended ≡ true)
unfolding all_packets npackets_of first_packets get_packet_data get_packet_nbytes
network_pthread_main-Drained_example =
    network_pthread_main-Drained takes_all (λ i bytes n. refl) blank writer refl closed_ring-IsValid
      refl refl
