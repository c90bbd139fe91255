-- ===== src/UdpList/Tests.antt =====
-- Runs of the packet list, and the theorems at concrete lists.
use ch_frb_io.Base.{◌+◌, ◌≡◌, refl, false, [], ◌∷◌, ◌++◌, arith, replicate}
use ch_frb_io.Constants.{max_input_udp_packet_size}
use ch_frb_io.Outcome.{pos, done}
use ch_frb_io.UdpList.{PacketList, make, receive, packets}
use ch_frb_io.UdpList.Valid.{IsValid, make-IsValid}
use ch_frb_io.UdpList.Packets.{packets-receive}

abbrev empty_list : PacketList
empty_list = record {
  max_npackets = 2;
  max_nbytes = 10;
  curr_npackets = 0;
  curr_nbytes = 0;
  is_full = false;
  buf = replicate (10 + max_input_udp_packet_size) 0;
  data_end = 0;
  packet_offsets = 0 ∷ 0 ∷ 0 ∷ [];
}

make-IsValid_example : IsValid empty_list
unfolding make
make-IsValid_example = make-IsValid (pos 2) (pos 10) refl

packets-receive_example :
    (t : PacketList) × (receive (7 ∷ 8 ∷ []) empty_list ≡ done tt t)
    × (packets t ≡ packets empty_list ++ ((7 ∷ 8 ∷ []) ∷ []))
    × IsValid t
packets-receive_example =
    packets-receive (7 ∷ 8 ∷ []) make-IsValid_example refl (omega arith) (omega arith)
