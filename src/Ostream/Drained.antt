-- ===== src/Ostream/Drained.antt =====
-- The network thread of intensity_network_ostream sends all packets that were put.
use ch_frb_io.Base.{
  ℕ, zero, suc, ◌+◌, ◌≡◌, refl, sym, ap, subst, ◌∙◌, true, false, some, List, [], ◌∷◌, ◌++◌, length,
  replicate, if◌then◌else◌, arith, append_assoc, append-nil,
}
use ch_frb_io.Outcome.{ℤ, pos, done, and_then}
use ch_frb_io.UdpList.{PacketList, packets, reset}
use ch_frb_io.UdpRing.{get_packet_list}
use ch_frb_io.UdpRing
use ch_frb_io.UdpRing.Refine.{IsValid, contents}
use ch_frb_io.Ostream.Sending.{
  Writer, end_of_stream_packet, log_sent, with_end, with_shared, writer_loop, send_ends,
  end_packets, network_thread_body, on_exit, network_pthread_main,
}
use ch_frb_io.Ostream.Passes.{Wrote, writer_pass-Passed, writer_pass-ends}

-- All packets of some lists, and how many there are.
unfoldable pub all_packets : List PacketList → List (List ℕ)
all_packets [] = []
all_packets (l ∷ ls) = packets l ++ all_packets ls

unfoldable pub npackets_of : List PacketList → ℕ
npackets_of [] = 0
npackets_of (l ∷ ls) = l.curr_npackets + npackets_of ls

-- What the whole loop changes when the lists `ls` wait.
record Drained (w : Writer) (ls : List PacketList) (w' : Writer) : Type 0 where
  pub wire : w'.sent ≡ w.sent ++ all_packets ls
  pub packets_counted : w'.npackets_sent ≡ w.npackets_sent + npackets_of ls
  pub left : contents w'.ringbuf ≡ []
  pub same_flag : w'.send_end_of_stream_packets ≡ w.send_end_of_stream_packets

module _ (answer : ℕ → List ℕ → ℕ → ℤ)
    (accepts : (i : ℕ) (bytes : List ℕ) (n : ℕ) → answer i bytes n ≡ pos n) where
  writer_loop-Drained :
      (ls : List PacketList) (p : PacketList) (w : Writer)
      → w.packet_list ≡ some p
      → IsValid w.ringbuf
      → contents w.ringbuf ≡ ls
      → w.ringbuf.stream_ended ≡ true
      → (w' : Writer) × (writer_loop answer (suc (length ls)) w ≡ done false w') × Drained w ls w'
  unfolding writer_loop all_packets npackets_of
  writer_loop-Drained [] p w there v e h = (
    with_shared (w.ringbuf, some (reset p)) w,
    ap (λ q. and_then q (λ more s. if more then done true s else done false s))
        (writer_pass-ends answer accepts p w there v e h),
    record {
      wire = sym (append-nil w.sent);
      packets_counted = omega arith;
      left = e;
      same_flag = refl;
    },
  )
  writer_loop-Drained (x ∷ ls) p w there v e h =
      let (w', pass, a) = writer_pass-Passed answer accepts p x ls w there v e in
      let (w₂, loop, b) =
        writer_loop-Drained ls x w' a.list_there a.ring_valid a.left (a.same_ended ∙ h) in
      (
        w₂,
        ap
              (λ q.
                and_then q
                  (λ more s. if more then writer_loop answer (suc (length ls)) s else done false s))
              pass
            ∙ loop,
        record {
          wire = b.wire ∙ (rw a.wire (append_assoc w.sent (packets x) (all_packets ls)));
          packets_counted = omega (arith, a.packets_counted, b.packets_counted);
          left = b.left;
          same_flag = b.same_flag ∙ a.same_flag;
        },
      )

  send_ends-all :
      (i n : ℕ) (w : Writer)
      → (w' : Writer) × (send_ends answer i n w ≡ w')
        × Wrote w (w.sent ++ replicate n end_of_stream_packet) 0 w'
  unfolding send_ends
  send_ends-all i zero w = (
    w,
    refl,
    record {
      wire = sym (append-nil w.sent);
      packets_counted = omega arith;
      same_ring = refl;
      same_list = refl;
      same_flag = refl;
    },
  )
  send_ends-all i (suc n) w =
      let (w', e, a) = send_ends-all (i + 1) n (log_sent end_of_stream_packet w) in
      (
        w',
        rw (accepts (w.npackets_sent + i) end_of_stream_packet 24) e,
        record {
          wire =
              a.wire
              ∙ append_assoc w.sent (end_of_stream_packet ∷ []) (replicate n end_of_stream_packet);
          packets_counted = a.packets_counted;
          same_ring = a.same_ring;
          same_list = a.same_list;
          same_flag = a.same_flag;
        },
      )

  end_packets-all :
      (w : Writer)
      → w.send_end_of_stream_packets ≡ true
      → Wrote w (w.sent ++ replicate 5 end_of_stream_packet) 0 (end_packets answer w)
  unfolding end_packets
  end_packets-all w h =
      let (w', e, a) = send_ends-all 0 5 w in
      let target = Wrote w (w.sent ++ replicate 5 end_of_stream_packet) 0 in
      subst (λ q. target (if q then send_ends answer 0 5 w else w)) (sym h) (subst target (sym e) a)

  -- When the stream has ended and the socket takes every packet, the network thread of a sender ends,
  -- after one pass for each list that waits in the ring buffer and one more. It has then sent the packets of
  -- those lists, in the order in which the lists were put and the packets were encoded, and behind them
  -- five end-of-stream packets; it has counted each packet once, and the ring buffer is empty and closed.
  pub network_pthread_main-Drained :
      (p : PacketList) (w : Writer)
      → w.packet_list ≡ some p
      → IsValid w.ringbuf
      → w.ringbuf.stream_ended ≡ true
      → w.send_end_of_stream_packets ≡ true
      → let ls = contents w.ringbuf in
        (w' : Writer) × (network_pthread_main answer (suc (length ls)) w ≡ done false w')
        × (w'.sent ≡ w.sent ++ all_packets ls ++ replicate 5 end_of_stream_packet)
        × (w'.npackets_sent ≡ w.npackets_sent + npackets_of ls)
        × (contents w'.ringbuf ≡ [])
        × (w'.ringbuf.stream_ended ≡ true)
  unfolding network_pthread_main network_thread_body on_exit UdpRing.end_stream
  network_pthread_main-Drained p w there v h flag =
      let ls = contents w.ringbuf in
      let (w', e, a) = writer_loop-Drained ls p w there v refl h in
      let b = end_packets-all w' (a.same_flag ∙ flag) in
      (
        with_end (end_packets answer w'),
        ap
            (λ q.
              on_exit (and_then q (λ more s. done more (if more then s else end_packets answer s))))
            e,
        b.wire ∙ ap (λ q. q ++ replicate 5 end_of_stream_packet) a.wire,
        omega (arith, a.packets_counted, b.packets_counted),
        ap contents b.same_ring ∙ a.left,
        refl,
      )
