-- ===== src/Ostream/Passes.antt =====
-- One pass of the network thread of intensity_network_ostream.
use native.Mathlib.Numerals.{add-one}
use ch_frb_io.Base.{
  ℕ, zero, suc, ◌+◌, ◌≡◌, refl, sym, ap, subst, ◌∙◌, true, false, some, List, [], ◌∷◌, ◌++◌, slice,
  arith, append_assoc, append-nil,
}
use ch_frb_io.Outcome.{ℤ, pos, done, and_then}
use ch_frb_io.UdpList.{
  PacketList, packets, first_packets, get_packet_data, get_packet_nbytes, reset,
}
use ch_frb_io.UdpRing.{get_packet_list}
use ch_frb_io.UdpRing
use ch_frb_io.UdpRing.Refine.{IsValid, contents}
use ch_frb_io.Ostream.Sending.{
  Writer, send_packet, send_packets, send_list, with_shared, after_get, writer_pass,
}
use ch_frb_io.UdpRing.Oldest.{get-oldest, get-ended}

-- The datagrams that follow `before` on the wire, and how many there were: what the thread changes while
-- it sends packets.
pub record Wrote (w : Writer) (sent : List (List ℕ)) (n : ℕ) (w' : Writer) : Type 0 where
  pub wire : w'.sent ≡ sent
  pub packets_counted : w'.npackets_sent ≡ w.npackets_sent + n
  pub same_ring : w'.ringbuf ≡ w.ringbuf
  pub same_list : w'.packet_list ≡ w.packet_list
  pub same_flag : w'.send_end_of_stream_packets ≡ w.send_end_of_stream_packets

-- What a pass that gets the list `x` changes.
pub record Passed (w : Writer) (x : PacketList) (rest : List PacketList) (w' : Writer)
    : Type 0 where
  pub wire : w'.sent ≡ w.sent ++ packets x
  pub packets_counted : w'.npackets_sent ≡ w.npackets_sent + x.curr_npackets
  pub left : contents w'.ringbuf ≡ rest
  pub ring_valid : IsValid w'.ringbuf
  pub same_ended : w'.ringbuf.stream_ended ≡ w.ringbuf.stream_ended
  pub list_there : w'.packet_list ≡ some x
  pub same_flag : w'.send_end_of_stream_packets ≡ w.send_end_of_stream_packets

module _ (answer : ℕ → List ℕ → ℕ → ℤ)
    (accepts : (i : ℕ) (bytes : List ℕ) (n : ℕ) → answer i bytes n ≡ pos n) where
  send_packet-Wrote :
      (l : PacketList) (i : ℕ) (before : List (List ℕ)) (w : Writer)
      → w.sent ≡ before ++ first_packets l i
      → (w' : Writer) × (send_packet answer l i w ≡ done tt w')
        × Wrote w (before ++ first_packets l (i + 1)) 1 w'
  unfolding send_packet first_packets
  send_packet-Wrote l i before w h =
      let nbytes = get_packet_nbytes l i in
      let packet = slice l.buf (get_packet_data l i) nbytes in
      (
        record w {
          npackets_sent = w.npackets_sent + 1;
          nbytes_sent = w.nbytes_sent + nbytes;
          sent = w.sent ++ (packet ∷ []);
        },
        rw (accepts w.npackets_sent packet nbytes) (ground arith),
        record {
          wire = rw (h, add-one i) (append_assoc before (first_packets l i) (packet ∷ []));
          packets_counted = refl;
          same_ring = refl;
          same_list = refl;
          same_flag = refl;
        },
      )

  send_packets-Wrote :
      (l : PacketList) (i n : ℕ) (before : List (List ℕ)) (w : Writer)
      → w.sent ≡ before ++ first_packets l i
      → (w' : Writer) × (send_packets answer l i n w ≡ done tt w')
        × Wrote w (before ++ first_packets l (i + n)) n w'
  unfolding send_packets
  send_packets-Wrote l i zero before w h = (
    w,
    refl,
    record {
      wire = h ∙ ap (λ q. before ++ first_packets l q) (omega arith);
      packets_counted = omega arith;
      same_ring = refl;
      same_list = refl;
      same_flag = refl;
    },
  )
  send_packets-Wrote l i (suc n) before w h =
      let (w', e, a) = send_packet-Wrote l i before w h in
      let (w₂, e₂, b) = send_packets-Wrote l (i + 1) n before w' a.wire in
      (
        w₂,
        ap (λ q. and_then q (λ t s. send_packets answer l (i + 1) n s)) e ∙ e₂,
        record {
          wire = b.wire ∙ ap (λ q. before ++ first_packets l q) (omega arith);
          packets_counted = omega (arith, a.packets_counted, b.packets_counted);
          same_ring = b.same_ring ∙ a.same_ring;
          same_list = b.same_list ∙ a.same_list;
          same_flag = b.same_flag ∙ a.same_flag;
        },
      )

  send_list-Passed :
      (x : PacketList) (rest : List PacketList) (u : UdpRing.Ring) (w : Writer)
      → contents u ≡ rest
      → IsValid u
      → u.stream_ended ≡ w.ringbuf.stream_ended
      → (w' : Writer) × (send_list answer (some x) (with_shared (u, some x) w) ≡ done true w')
        × Passed w x rest w'
  unfolding send_list first_packets
  send_list-Passed x rest u w left v ended =
      let (w', e, a) =
        send_packets-Wrote x 0 x.curr_npackets w.sent (with_shared (u, some x) w)
          (sym (append-nil w.sent)) in
      let whole : 0 + x.curr_npackets ≡ x.curr_npackets = omega arith in
      (
        w',
        ap (λ q. and_then q (λ t s. done true s)) e,
        record {
          wire = a.wire ∙ ap (λ q. w.sent ++ first_packets x q) whole;
          packets_counted = a.packets_counted;
          left = ap contents a.same_ring ∙ left;
          ring_valid = subst IsValid (sym a.same_ring) v;
          same_ended = ap (λ q. q.stream_ended) a.same_ring ∙ ended;
          list_there = a.same_list;
          same_flag = a.same_flag;
        },
      )

  pub writer_pass-Passed :
      (p x : PacketList) (rest : List PacketList) (w : Writer)
      → w.packet_list ≡ some p
      → IsValid w.ringbuf
      → contents w.ringbuf ≡ x ∷ rest
      → (w' : Writer) × (writer_pass answer w ≡ done true w') × Passed w x rest w'
  unfolding writer_pass after_get
  writer_pass-Passed p x rest w there v e =
      let (u, got, left, valid, ended) = get-oldest p x rest w.ringbuf v e in
      let (w', sent, a) = send_list-Passed x rest u w left valid ended in
      (
        w',
        ap (λ q. after_get answer w (get_packet_list q w.ringbuf)) there
            ∙ ap (after_get answer w) got
            ∙ sent,
        a,
      )

  pub writer_pass-ends :
      (p : PacketList) (w : Writer)
      → w.packet_list ≡ some p
      → IsValid w.ringbuf
      → contents w.ringbuf ≡ []
      → w.ringbuf.stream_ended ≡ true
      → writer_pass answer w ≡ done false (with_shared (w.ringbuf, some (reset p)) w)
  unfolding writer_pass after_get
  writer_pass-ends p w there v e h =
      ap (λ q. after_get answer w (get_packet_list q w.ringbuf)) there
      ∙ ap (after_get answer w) (get-ended p w.ringbuf v e h)
