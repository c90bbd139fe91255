-- ===== src/Ostream/Sending.antt =====
-- The network thread of intensity_network_ostream: network_pthread_main, _network_thread_body and
-- _send_end_of_stream_packets. Clocks, and the sleep before a packet, are not modelled.
use ch_frb_io.Base.{
  ℕ, zero, suc, ◌+◌, Bool, true, false, not, Option, none, some, List, [], ◌∷◌, ◌++◌, slice,
  replicate, if◌then◌else◌,
}
use ch_frb_io.Outcome.{
  ℤ, pos, ltb_ℤ, eq_ℤ, Outcome, done, throws, waits, and_then, null_dereference, send_failed,
  short_send,
}
use ch_frb_io.UdpList.{PacketList, get_packet_data, get_packet_nbytes}
use ch_frb_io.UdpRing.{Shared, get_packet_list}
use ch_frb_io.UdpRing

-- What the network thread reads and changes: the ring buffer, its packet list, and the statistics.
-- `sent` are the datagrams that the socket took whole, in order.
pub record Writer : Type 0 where
  pub ringbuf : UdpRing.Ring
  pub packet_list : Option PacketList
  pub npackets_sent : ℕ
  pub nbytes_sent : ℕ
  pub send_end_of_stream_packets : Bool
  pub sent : List (List ℕ)

-- A datagram of 24 bytes: protocol version 1, and zeros.
abbrev pub end_of_stream_packet : List ℕ
end_of_stream_packet = 1 ∷ replicate 23 0

abbrev pub log_sent : List ℕ → Writer → Writer
log_sent bytes w = record w { sent = w.sent ++ (bytes ∷ []) }

abbrev pub with_shared : Shared → Writer → Writer
with_shared (u, p) w = record w { ringbuf = u; packet_list = p }

abbrev pub with_end : Writer → Writer
with_end w = record w { ringbuf = UdpRing.end_stream w.ringbuf }

-- `end_stream(false)` on all ways out of the body; an exception is thrown again.
unfoldable pub on_exit : Outcome Writer Bool → Outcome Writer Bool
on_exit (done more w) = done more (if more then w else with_end w)
on_exit (throws e w) = throws e (with_end w)
on_exit (waits w) = waits w

-- `answer i bytes n` is what the `i`-th call of `send` returns for `n` bytes from `bytes` on.
module _ (answer : ℕ → List ℕ → ℕ → ℤ) where
  -- One packet: `_send` and the checks of its result.
  unfoldable pub send_packet : PacketList → ℕ → Writer → Outcome Writer (Unit {0})
  send_packet l ipacket w =
      let packet_nbytes = get_packet_nbytes l ipacket in
      let packet = slice l.buf (get_packet_data l ipacket) packet_nbytes in
      let n = answer w.npackets_sent packet packet_nbytes in
      if ltb_ℤ n (pos 0)
      then throws send_failed w
      else if not (eq_ℤ n (pos packet_nbytes))
      then throws short_send w
      else done tt (
          log_sent packet (record w {
            npackets_sent = w.npackets_sent + 1;
            nbytes_sent = w.nbytes_sent + packet_nbytes;
          }))

  -- The loop over packets, `n` of them from `ipacket` on.
  unfoldable pub send_packets : PacketList → ℕ → ℕ → Writer → Outcome Writer (Unit {0})
  unfolding send_packet
  send_packets l ipacket zero w = done tt w
  send_packets l ipacket (suc n) w =
      and_then (send_packet l ipacket w) (λ t w'. send_packets l (ipacket + 1) n w')

  unfoldable pub send_list : Option PacketList → Writer → Outcome Writer Bool
  unfolding send_packets
  send_list none w = throws null_dereference w
  send_list (some l) w = and_then (send_packets l 0 l.curr_npackets w) (λ t w'. done true w')

  -- What follows `ringbuf->get_packet_list(packet_list)`: `false` leaves the loop.
  unfoldable pub after_get : Writer → Outcome Shared Bool → Outcome Writer Bool
  unfolding send_list
  after_get w (done got s) =
      if got then send_list s.1 (with_shared s w) else done false (with_shared s w)
  after_get w (throws e s) = throws e (with_shared s w)
  after_get w (waits s) = waits (with_shared s w)

  -- One pass of the loop over packet lists.
  unfoldable pub writer_pass : Writer → Outcome Writer Bool
  unfolding after_get
  writer_pass w = after_get w (get_packet_list w.packet_list w.ringbuf)

  -- At most `n` passes: `true` when the loop has not ended by then.
  unfoldable pub writer_loop : ℕ → Writer → Outcome Writer Bool
  unfolding writer_pass
  writer_loop zero w = done true w
  writer_loop (suc n) w =
      and_then (writer_pass w) (λ more w'. if more then writer_loop n w' else done false w')

  -- _send_end_of_stream_packets(): `n` packets from `ipacket` on, up to the first that is not taken.
  unfoldable pub send_ends : ℕ → ℕ → Writer → Writer
  send_ends ipacket zero w = w
  send_ends ipacket (suc n) w =
      let rest = send_ends (ipacket + 1) n (log_sent end_of_stream_packet w) in
      if eq_ℤ (answer (w.npackets_sent + ipacket) end_of_stream_packet 24) (pos 24) then rest else w

  unfoldable pub end_packets : Writer → Writer
  unfolding send_ends
  end_packets w = if w.send_end_of_stream_packets then send_ends 0 5 w else w

  -- _network_thread_body(), with at most `n` passes.
  unfoldable pub network_thread_body : ℕ → Writer → Outcome Writer Bool
  unfolding writer_loop end_packets
  network_thread_body n w =
      and_then (writer_loop n w) (λ more w'. done more (if more then w' else end_packets w'))

  -- network_pthread_main()
  unfoldable pub network_pthread_main : ℕ → Writer → Outcome Writer Bool
  unfolding network_thread_body on_exit
  network_pthread_main n w = on_exit (network_thread_body n w)
