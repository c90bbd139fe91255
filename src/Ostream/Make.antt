-- ===== src/Ostream/Make.antt =====
-- The constructor of `intensity_network_ostream`.
use ch_frb_io.Base.{
  ◌+◌, ℕ, ◌*◌, ◌/◌, ◌%◌, ◌^◌, Bool, false, not, ◌||◌, Option, none, some, List, [], ◌∷◌, length,
  ltb, leb, if◌then◌else◌, ◌==◌,
}
use ch_frb_io.Constants.{
  nfreq_coarse_tot, max_allowed_nupfreq, max_allowed_nt_per_packet,
  max_allowed_fpga_counts_per_sample, max_output_udp_packet_size, default_udp_port,
  output_ringbuf_capacity,
}
use ch_frb_io.Outcome.{
  ℤ, pos, negsuc, pos_part, neg_part, int_overflow, leb_ℤ, ltb_ℤ, Error, Result, returns, fails,
  division_by_zero, bad_beams, bad_coarse_freq_id, duplicate_coarse_freq_ids, bad_coarse_freqs,
  bad_nfreq_coarse_per_packet, bad_nt_per_chunk, bad_nt_per_packet, bad_nupfreq,
  bad_fpga_counts_per_sample, bad_wt_cutoff, bad_target_gbps, bad_packet_nbytes, bad_udp_port,
}
use ch_frb_io.Chunk.{is_power_of_two}
use ch_frb_io.Packet.{packet_size}
use ch_frb_io.Packet.Encode.{Floats}
use ch_frb_io.UdpList.{PacketList}
use ch_frb_io.UdpList
use ch_frb_io.UdpRing
use ch_frb_io.Stream.Make.{vcontains, beams_error, or_else}
use ch_frb_io.Ostream.{Sender}

-- intensity_network_ostream::initializer. `target_gbps_bad` and `inferred_gbps_bad` say that one of the
-- three checks on `target_gbps`, or the check on the rate that is inferred, fails.
pub record Initializer (fl : Floats) : Type 0 where
  pub dstname : List ℕ
  pub beam_ids : List ℤ
  pub coarse_freq_ids : List ℤ
  pub nupfreq : ℤ
  pub nt_per_chunk : ℤ
  pub nfreq_coarse_per_packet : ℤ
  pub nt_per_packet : ℤ
  pub fpga_counts_per_sample : ℤ
  pub wt_cutoff : fl.Single
  pub target_gbps_bad : Bool
  pub inferred_gbps_bad : Bool
  pub is_blocking : Bool
  pub throw_exception_on_buffer_drop : Bool

-- The loop over the coarse channels: `before` are those that came already.
unfoldable pub freqs_error : List ℤ → List ℤ → Option Error
unfolding vcontains
freqs_error before [] = none
freqs_error before (f ∷ fs) =
    let rest = freqs_error (f ∷ before) fs in
    if ltb_ℤ f (pos 0) || leb_ℤ (pos nfreq_coarse_tot) f
    then some bad_coarse_freq_id
    else if vcontains before f
    then some duplicate_coarse_freq_ids
    else rest

-- `dstname.find(":")` and the two `substr`: the host name, and the text of the port if there is one.
unfoldable pub split_name : List ℕ → List ℕ × Option (List ℕ)
split_name [] = ([], none)
split_name (c ∷ cs) =
    let rest = split_name cs in if c == b':' then ([], some cs) else (c ∷ rest.0, rest.1)

-- The port; `to_port` is `lexical_cast`, with `none` for a text that it does not take.
unfoldable pub port_of : (List ℕ → Option ℕ) → Option (List ℕ) → Option ℕ
port_of to_port none = some default_udp_port
port_of to_port (some text) = to_port text

-- `uint16_t(id)` for each id.
unfoldable pub to_16bit : List ℤ → List ℕ
to_16bit [] = []
to_16bit (i ∷ is) = pos_part i % 2 ^ 16 ∷ to_16bit is

abbrev pub eq_zero : ℤ → Bool
eq_zero (pos n) = n == 0
eq_zero (negsuc n) = false

abbrev pub magnitude : ℤ → ℕ
magnitude i = pos_part i + neg_part i

module _ (fl : Floats) (x : Initializer fl) where
  -- The checks on the sizes, in order.
  unfoldable pub sizes_error : Option Error
  sizes_error =
      if length x.beam_ids == 0 || leb 65536 (length x.beam_ids)
      then some bad_beams
      else if length x.coarse_freq_ids == 0 || leb 65536 (length x.coarse_freq_ids)
      then some bad_coarse_freqs
      else if leb_ℤ x.nfreq_coarse_per_packet (pos 0)
      then some bad_nfreq_coarse_per_packet
      else if not (length x.coarse_freq_ids % pos_part x.nfreq_coarse_per_packet == 0)
      then some bad_nfreq_coarse_per_packet
      else if leb_ℤ x.nt_per_chunk (pos 0)
      then some bad_nt_per_chunk
      else if leb_ℤ x.nt_per_packet (pos 0) || ltb_ℤ (pos max_allowed_nt_per_packet) x.nt_per_packet
      then some bad_nt_per_packet
      else if not (is_power_of_two (pos_part x.nt_per_packet))
      then some bad_nt_per_packet
      else if not (pos_part x.nt_per_chunk % pos_part x.nt_per_packet == 0)
      then some bad_nt_per_chunk
      else if leb_ℤ x.nupfreq (pos 0) || ltb_ℤ (pos max_allowed_nupfreq) x.nupfreq
      then some bad_nupfreq
      else if leb_ℤ x.fpga_counts_per_sample (pos 0)
          || ltb_ℤ (pos max_allowed_fpga_counts_per_sample) x.fpga_counts_per_sample
      then some bad_fpga_counts_per_sample
      else none

  -- The checks on the weight cutoff, the rate and the size of a packet.
  unfoldable pub packet_error : Option Error
  packet_error =
      if fl.le_zero x.wt_cutoff
      then some bad_wt_cutoff
      else if x.target_gbps_bad
      then some bad_target_gbps
      else if ltb max_output_udp_packet_size (
          packet_size (length x.beam_ids) (pos_part x.nfreq_coarse_per_packet) (pos_part x.nupfreq)
            (pos_part x.nt_per_packet))
      then some bad_packet_nbytes
      else none

  abbrev gbps_error : Option Error
  gbps_error = if x.inferred_gbps_bad then some bad_target_gbps else none

  -- The products of `int`s in the list of initialisers: the size of a packet, the packets and the bytes of
  -- a chunk, and its elements. An overflow is undefined, and comes before any check. The check of a
  -- negative parameter comes later, so its magnitude counts here.
  unfoldable pub overflows : Bool
  overflows =
      let nbeams = length x.beam_ids in
      let nfreq = length x.coarse_freq_ids in
      let nfreq_packet = magnitude x.nfreq_coarse_per_packet in
      let nupfreq = magnitude x.nupfreq in
      let nt_packet = magnitude x.nt_per_packet in
      let nt_chunk = magnitude x.nt_per_chunk in
      let npackets = nfreq / nfreq_packet * (nt_chunk / nt_packet) in
      let nbytes = packet_size nbeams nfreq_packet nupfreq nt_packet in
      leb (2 ^ 31) nbytes
      || leb (2 ^ 31) npackets
      || leb (2 ^ 31) (nbytes * npackets)
      || leb (2 ^ 31) (nbeams * nfreq * nupfreq * nt_chunk)
      || leb (2 ^ 31) nt_chunk

  -- The list of initialisers divides by two parameters before any check.
  unfoldable pub ini_error : Option Error
  unfolding sizes_error packet_error freqs_error overflows
  ini_error =
      if eq_zero x.nfreq_coarse_per_packet || eq_zero x.nt_per_packet
      then some division_by_zero
      else if overflows
      then some int_overflow
      else or_else sizes_error (
          or_else packet_error (
            or_else (beams_error [] x.beam_ids)
              (or_else (freqs_error [] x.coarse_freq_ids) gbps_error)))

  unfoldable pub npackets_per_chunk : ℕ
  npackets_per_chunk =
      length x.coarse_freq_ids
      / pos_part x.nfreq_coarse_per_packet
      * (pos_part x.nt_per_chunk / pos_part x.nt_per_packet)

  unfoldable pub nbytes_per_chunk : ℕ
  unfolding npackets_per_chunk
  nbytes_per_chunk =
      packet_size (length x.beam_ids) (pos_part x.nfreq_coarse_per_packet) (pos_part x.nupfreq)
        (pos_part x.nt_per_packet)
      * npackets_per_chunk

  unfoldable pub new_sender :
      List ℕ → ℕ → Result UdpRing.Ring → Result PacketList → Result (Sender fl)
  new_sender hostname port (fails e) l = fails e
  new_sender hostname port (returns u) (fails e) = fails e
  new_sender hostname port (returns u) (returns l) = returns (record {
    nbeams = length x.beam_ids;
    nfreq_coarse_per_packet = pos_part x.nfreq_coarse_per_packet;
    nfreq_coarse_per_chunk = length x.coarse_freq_ids;
    nupfreq = pos_part x.nupfreq;
    nt_per_packet = pos_part x.nt_per_packet;
    nt_per_chunk = pos_part x.nt_per_chunk;
    fpga_counts_per_sample = pos_part x.fpga_counts_per_sample;
    wt_cutoff = x.wt_cutoff;
    is_blocking = x.is_blocking;
    throw_exception_on_buffer_drop = x.throw_exception_on_buffer_drop;
    hostname = hostname;
    udp_port = port;
    beam_ids_16bit = to_16bit x.beam_ids;
    coarse_freq_ids_16bit = to_16bit x.coarse_freq_ids;
    ringbuf = u;
    tmp_packet_list = some l;
    network_thread_joined = false;
  })

  unfoldable pub named_sender : List ℕ → Option ℕ → Result (Sender fl)
  unfolding new_sender nbytes_per_chunk npackets_per_chunk
  named_sender hostname none = fails bad_udp_port
  named_sender hostname (some port) =
      new_sender hostname port
        (UdpRing.make (pos output_ringbuf_capacity) (pos npackets_per_chunk) (pos nbytes_per_chunk))
        (UdpList.make (pos npackets_per_chunk) (pos nbytes_per_chunk))

  unfoldable pub checked_sender : (List ℕ → Option ℕ) → Option Error → Result (Sender fl)
  unfolding named_sender split_name port_of
  checked_sender to_port (some e) = fails e
  checked_sender to_port none =
      let (hostname, port) = split_name x.dstname in named_sender hostname (port_of to_port port)

  -- The constructor.
  unfoldable pub construct : (List ℕ → Option ℕ) → Result (Sender fl)
  unfolding ini_error checked_sender
  construct to_port = checked_sender to_port ini_error
