-- ===== src/UdpList.antt =====
-- udp_packet_list.cpp: packets one after the other in a buffer, with their offsets. A pointer into
-- the buffer is its distance from `data_start`.
pub mod Valid
pub mod Packets
pub mod Tests
use ch_frb_io.Base.{
  ℕ, suc, zero, ◌+◌, ◌-◌, Bool, true, false, ◌||◌, List, [], ◌∷◌, ◌++◌, ltb, leb, if◌then◌else◌,
  length, get_or, set, replicate, slice, copy_to,
}
use ch_frb_io.Constants.{max_input_udp_packet_size}
use ch_frb_io.Outcome.{
  ℤ, pos, pos_part, leb_ℤ, ltb_ℤ, Result, returns, fails, Outcome, done, throws, bad_max_npackets,
  bad_max_nbytes, bad_packet_nbytes, list_full,
}

pub record PacketList : Type 0 where
  pub max_npackets : ℕ
  pub max_nbytes : ℕ
  pub curr_npackets : ℕ
  pub curr_nbytes : ℕ
  pub is_full : Bool
  pub buf : List ℕ
  pub data_end : ℕ
  pub packet_offsets : List ℕ

-- The constructor. `new uint8_t[n]` leaves the bytes unset: they are zero here, and no theorem
-- reads a byte that was not written.
unfoldable pub make : ℤ → ℤ → Result PacketList
make max_npackets max_nbytes =
    if leb_ℤ max_npackets (pos 0)
    then fails bad_max_npackets
    else if leb_ℤ max_nbytes (pos 0)
    then fails bad_max_nbytes
    else returns (record {
      max_npackets = pos_part max_npackets;
      max_nbytes = pos_part max_nbytes;
      curr_npackets = 0;
      curr_nbytes = 0;
      is_full = false;
      buf = replicate (pos_part max_nbytes + max_input_udp_packet_size) 0;
      data_end = 0;
      packet_offsets = set (replicate (pos_part max_npackets + 1) 0) 0 0;
    })

unfoldable pub add_packet : ℤ → PacketList → Outcome PacketList (Unit {0})
add_packet packet_nbytes s =
    if leb_ℤ packet_nbytes (pos 0) || ltb_ℤ (pos max_input_udp_packet_size) packet_nbytes
    then throws bad_packet_nbytes s
    else if s.is_full
    then throws list_full s
    else let npackets = s.curr_npackets + 1 in
      let nbytes = s.curr_nbytes + pos_part packet_nbytes in
      done tt (record s {
        curr_npackets = npackets;
        curr_nbytes = nbytes;
        is_full = leb s.max_npackets npackets || leb s.max_nbytes nbytes;
        data_end = nbytes;
        packet_offsets = set s.packet_offsets npackets nbytes;
      })

unfoldable pub reset : PacketList → PacketList
reset s = record s {
  curr_npackets = 0;
  curr_nbytes = 0;
  is_full = false;
  data_end = 0;
  packet_offsets = set s.packet_offsets 0 0;
}

-- What a caller copies to `data_end` before it calls `add_packet`.
unfoldable pub fill : List ℕ → PacketList → PacketList
fill bytes s = record s { buf = copy_to s.buf s.data_end bytes }

unfoldable pub get_packet_data : PacketList → ℕ → ℕ
get_packet_data s i = get_or s.packet_offsets i 0

unfoldable pub get_packet_nbytes : PacketList → ℕ → ℕ
get_packet_nbytes s i = get_or s.packet_offsets (i + 1) 0 - get_or s.packet_offsets i 0

-- The first `n` packets, as the accessors give them.
unfoldable pub first_packets : PacketList → ℕ → List (List ℕ)
first_packets s zero = []
first_packets s (suc n) =
    first_packets s n ++ (slice s.buf (get_packet_data s n) (get_packet_nbytes s n) ∷ [])

abbrev pub packets : PacketList → List (List ℕ)
packets s = first_packets s s.curr_npackets

-- A caller's copy of one packet, with the call that follows it.
abbrev pub receive : List ℕ → PacketList → Outcome PacketList (Unit {0})
receive bytes s = add_packet (pos (length bytes)) (fill bytes s)
