-- ===== src/Ostream.antt =====
-- intensity_network_ostream.cpp: the sender of packets. A chunk of intensities is cut into packets, which
-- go through a ring buffer to the network thread. The rate of the packets is not modelled: the checks
-- on it are Booleans of the initializer.
pub mod Make
pub mod Accepted
pub mod Constructed
pub mod Sending
pub mod Passes
pub mod Drained
pub mod Holds
pub mod Fills
pub mod Tests
use ch_frb_io.Base.{
  ℕ, zero, suc, ◌+◌, ◌*◌, ◌/◌, ◌%◌, ◌^◌, Bool, true, false, not, Option, none, some, List, [], ◌∷◌,
  ◌++◌, length, take, drop, if◌then◌else◌, ltb, ◌==◌,
}
use ch_frb_io.Outcome.{
  ℤ, pos, Outcome, done, throws, waits, and_then, bad_fpga_count, list_not_empty, list_too_small,
  bad_encoded_size, null_dereference, buffer_drop, join_twice,
}
use ch_frb_io.Packet.{packet_size}
use ch_frb_io.Packet.Encode.{Floats, Samples, Outgoing, encode}
use ch_frb_io.UdpList.{PacketList, add_packet}
use ch_frb_io.UdpRing.{Shared, put_packet_list}
use ch_frb_io.UdpRing

-- The object, with its parameters as the constructor has checked them.
pub record Sender (fl : Floats) : Type 0 where
  pub nbeams : ℕ
  pub nfreq_coarse_per_packet : ℕ
  pub nfreq_coarse_per_chunk : ℕ
  pub nupfreq : ℕ
  pub nt_per_packet : ℕ
  pub nt_per_chunk : ℕ
  pub fpga_counts_per_sample : ℕ
  pub wt_cutoff : fl.Single
  pub is_blocking : Bool
  pub throw_exception_on_buffer_drop : Bool
  pub hostname : List ℕ
  pub udp_port : ℕ
  pub beam_ids_16bit : List ℕ
  pub coarse_freq_ids_16bit : List ℕ
  pub ringbuf : UdpRing.Ring
  pub tmp_packet_list : Option PacketList
  pub network_thread_joined : Bool

-- The arguments of `send_chunk`: two arrays and the distances between their time series.
pub record ChunkData (fl : Floats) : Type 0 where
  pub intensity : ℕ → fl.Single
  pub istride : ℕ
  pub weights : ℕ → fl.Single
  pub wstride : ℕ

module _ (fl : Floats) (o : Sender fl) where
  unfoldable pub nbytes_per_packet : ℕ
  nbytes_per_packet = packet_size o.nbeams o.nfreq_coarse_per_packet o.nupfreq o.nt_per_packet

  unfoldable pub nf_outer : ℕ
  nf_outer = o.nfreq_coarse_per_chunk / o.nfreq_coarse_per_packet

  unfoldable pub nt_outer : ℕ
  nt_outer = o.nt_per_chunk / o.nt_per_packet

  -- The packet object of one turn: time block `it`, frequency block `jf`. `data_nbytes` is stored in 16
  -- bits, `fpga_count` in 64. The member `fpga_counts_per_sample` has 64 bits, so that only `it *
  -- nt_per_packet` is a product of `int`s.
  unfoldable pub packet_of : ℕ → ℕ → ℕ → Outgoing
  packet_of fpga_count it jf = record {
    header = record {
      protocol_version = 1;
      data_nbytes = o.nbeams * o.nfreq_coarse_per_packet * o.nupfreq * o.nt_per_packet % 2 ^ 16;
      fpga_counts_per_sample = o.fpga_counts_per_sample % 2 ^ 16;
      fpga_count = (fpga_count + it * o.nt_per_packet * o.fpga_counts_per_sample) % 2 ^ 64;
      nbeams = o.nbeams % 2 ^ 16;
      nfreq_coarse = o.nfreq_coarse_per_packet % 2 ^ 16;
      nupfreq = o.nupfreq % 2 ^ 16;
      ntsamp = o.nt_per_packet % 2 ^ 16;
    };
    beam_ids = o.beam_ids_16bit;
    coarse_freq_ids =
        take o.nfreq_coarse_per_packet
          (drop (jf * o.nfreq_coarse_per_packet) o.coarse_freq_ids_16bit);
  }

  -- The arguments of `encode` in one turn.
  unfoldable pub samples_of : ChunkData fl → ℕ → ℕ → Samples fl
  samples_of c it jf =
      let ioffset = jf * o.nfreq_coarse_per_packet * o.nupfreq * c.istride + it * o.nt_per_packet in
      let woffset = jf * o.nfreq_coarse_per_packet * o.nupfreq * c.wstride + it * o.nt_per_packet in
      record {
        intensity = λ i. c.intensity (ioffset + i);
        beam_istride = o.nfreq_coarse_per_chunk * o.nupfreq * c.istride;
        freq_istride = c.istride;
        weights = λ i. c.weights (woffset + i);
        beam_wstride = o.nfreq_coarse_per_chunk * o.nupfreq * c.wstride;
        freq_wstride = c.wstride;
        wt_cutoff = o.wt_cutoff;
      }

  -- What follows `packet.encode(out->data_end, ...)`: the buffer is written from `data_end` on.
  unfoldable pub after_encode : PacketList → List ℕ × ℕ → Outcome PacketList (Unit {0})
  unfolding nbytes_per_packet
  after_encode out (written, n) =
      let out' = record out { buf = take out.data_end out.buf ++ written } in
      if not (n == nbytes_per_packet)
      then throws bad_encoded_size out'
      else add_packet (pos nbytes_per_packet) out'

  unfoldable pub encode_packet :
      ChunkData fl → ℕ → ℕ → ℕ → PacketList → Outcome PacketList (Unit {0})
  unfolding after_encode packet_of samples_of
  encode_packet c fpga_count it jf out =
      after_encode out
        (encode fl (samples_of c it jf) (packet_of fpga_count it jf) (drop out.data_end out.buf))

  -- The loop over frequency blocks, `n` of them from `jf` on, and the one over time blocks.
  unfoldable pub encode_row :
      ChunkData fl → ℕ → ℕ → ℕ → ℕ → PacketList → Outcome PacketList (Unit {0})
  unfolding encode_packet
  encode_row c fpga_count it jf zero out = done tt out
  encode_row c fpga_count it jf (suc n) out =
      and_then (encode_packet c fpga_count it jf out)
        (λ t out'. encode_row c fpga_count it (jf + 1) n out')

  unfoldable pub encode_rows : ChunkData fl → ℕ → ℕ → ℕ → PacketList → Outcome PacketList (Unit {0})
  unfolding encode_row nf_outer
  encode_rows c fpga_count it zero out = done tt out
  encode_rows c fpga_count it (suc n) out =
      and_then (encode_row c fpga_count it 0 nf_outer out)
        (λ t out'. encode_rows c fpga_count (it + 1) n out')

  -- _encode_chunk()
  unfoldable pub encode_chunk : ChunkData fl → ℕ → PacketList → Outcome PacketList (Unit {0})
  unfolding encode_rows nf_outer nt_outer nbytes_per_packet
  encode_chunk c fpga_count out =
      if not (fpga_count % (o.fpga_counts_per_sample * o.nt_per_packet) == 0)
      then throws bad_fpga_count out
      else if ltb 0 out.curr_npackets
      then throws list_not_empty out
      else if ltb out.max_npackets (nt_outer * nf_outer)
      then throws list_too_small out
      else if ltb out.max_nbytes (nt_outer * nf_outer * nbytes_per_packet)
      then throws list_too_small out
      else encode_rows c fpga_count 0 nt_outer out

  abbrev pub with_list : Option PacketList → Sender fl
  with_list p = record o { tmp_packet_list = p }

  -- What follows `ringbuf->put_packet_list(tmp_packet_list, is_blocking)`.
  unfoldable pub after_send : Outcome Shared Bool → Outcome (Sender fl) (Unit {0})
  after_send (done success (u, p)) =
      let o' = record o { ringbuf = u; tmp_packet_list = p } in
      if success
      then done tt o'
      else if o.throw_exception_on_buffer_drop
      then throws buffer_drop o'
      else done tt o'
  after_send (throws e (u, p)) = throws e (record o { ringbuf = u; tmp_packet_list = p })
  after_send (waits (u, p)) = waits (record o { ringbuf = u; tmp_packet_list = p })

  unfoldable pub put_chunk : Outcome PacketList (Unit {0}) → Outcome (Sender fl) (Unit {0})
  unfolding after_send
  put_chunk (done t l) = after_send (put_packet_list (some l) o.is_blocking o.ringbuf)
  put_chunk (throws e l) = throws e (with_list (some l))
  put_chunk (waits l) = waits (with_list (some l))

  -- send_chunk()
  unfoldable pub send_from : ChunkData fl → ℕ → Option PacketList → Outcome (Sender fl) (Unit {0})
  unfolding put_chunk encode_chunk
  send_from c fpga_count none = throws null_dereference o
  send_from c fpga_count (some l) = put_chunk (encode_chunk c fpga_count l)

  unfoldable pub send_chunk : ChunkData fl → ℕ → Outcome (Sender fl) (Unit {0})
  unfolding send_from
  send_chunk c fpga_count = send_from c fpga_count o.tmp_packet_list

  -- end_stream(), up to the join of the network thread.
  unfoldable pub end_stream : Bool → Outcome (Sender fl) (Unit {0})
  end_stream join_network_thread =
      let o' = record o { ringbuf = UdpRing.end_stream o.ringbuf } in
      if not join_network_thread
      then done tt o'
      else if o.network_thread_joined
      then throws join_twice o'
      else done tt o'

  -- is_sending()
  unfoldable pub is_sending : Bool
  is_sending = ltb 0 (UdpRing.get_size o.ringbuf).0
