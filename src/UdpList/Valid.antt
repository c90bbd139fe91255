-- ===== src/UdpList/Valid.antt =====
-- The representation invariant of `udp_packet_list`, and that its operations keep it.
use ch_frb_io.Base.{
  ℕ, zero, suc, ◌+◌, ◌≤◌, ◌<◌, ◌≡◌, ◌||◌, List, arith, leb, length, replicate, get_or, set,
  length-set, length-replicate, length-copy_to, get_or-set_self, get_or-set_ne,
}
use native.Mathlib.Numerals.{add-one}
use ch_frb_io.Constants.{max_input_udp_packet_size}
use ch_frb_io.Outcome.{ℤ, pos_part, returns, after}
use ch_frb_io.UdpList.{PacketList, make, add_packet, reset, fill}

-- Each packet ends after it starts.
abbrev pub Rising : List ℕ → ℕ → Type 0
Rising offs zero = Unit {0}
Rising offs (suc n) = Rising offs n × (get_or offs n 0 < get_or offs (suc n) 0)

pub record IsValid (s : PacketList) : Type 0 where
  pub some_packets : 0 < s.max_npackets
  pub some_bytes : 0 < s.max_nbytes
  pub buf_size : length s.buf ≡ s.max_nbytes + max_input_udp_packet_size
  pub offsets_size : length s.packet_offsets ≡ s.max_npackets + 1
  pub end_lem : s.data_end ≡ s.curr_nbytes
  pub count : s.curr_npackets ≤ s.max_npackets
  pub full : s.is_full ≡ (leb s.max_npackets s.curr_npackets || leb s.max_nbytes s.curr_nbytes)
  pub fits : s.curr_nbytes < s.max_nbytes + max_input_udp_packet_size
  pub sentinel : get_or s.packet_offsets s.curr_npackets 0 ≡ s.curr_nbytes
  pub rising : Rising s.packet_offsets s.curr_npackets

pub Rising-set : (offs : List ℕ) (n j v : ℕ) → n < j → Rising offs n → Rising (set offs j v) n
Rising-set offs zero j v h r = tt
Rising-set offs (suc n) j v h r = (
  Rising-set offs n j v (omega arith) r.0,
  rw (get_or-set_ne offs j n v 0 (omega arith), get_or-set_ne offs j (suc n) v 0 (omega arith)) r.1,
)

Rising-snoc :
    (offs : List ℕ) (n v : ℕ)
    → n + 1 < length offs
    → Rising offs n
    → get_or offs n 0 < v
    → Rising (set offs (n + 1) v) (n + 1)
Rising-snoc offs n v h r l = rw (add-one n) (
  Rising-set offs n (suc n) v (omega arith) r,
  rw
      (
        get_or-set_ne offs (suc n) n v 0 (omega arith),
        get_or-set_self offs (suc n) v 0 (omega arith),
      )
      l,
)

pub make-IsValid : (m n : ℤ) {s : PacketList} → make m n ≡ returns s → IsValid s
unfolding make
make-IsValid m n e = ground (
  arith,
  length-replicate {A = ℕ} (pos_part n + max_input_udp_packet_size) 0,
  length-replicate {A = ℕ} (pos_part m + 1) 0,
  length-set {A = ℕ} (replicate (pos_part m + 1) 0) 0 0,
  get_or-set_self {A = ℕ} (replicate (pos_part m + 1) 0) 0 0 0,
)

pub reset-IsValid : {s : PacketList} → IsValid s → IsValid (reset s)
unfolding reset
reset-IsValid {s} v =
    ground (arith, length-set s.packet_offsets 0 0, get_or-set_self s.packet_offsets 0 0 0)

pub fill-IsValid : (bytes : List ℕ) {s : PacketList} → IsValid s → IsValid (fill bytes s)
unfolding fill
fill-IsValid bytes {s} v = ground (arith, length-copy_to s.buf s.data_end bytes)

-- However `add_packet` ends, with an error or not, a valid list is valid afterwards.
pub add_packet-IsValid : (n : ℤ) {s : PacketList} → IsValid s → IsValid (after (add_packet n s))
unfolding add_packet
add_packet-IsValid n {s} v = ground (
  arith,
  length-set s.packet_offsets (s.curr_npackets + 1) (s.curr_nbytes + pos_part n),
  get_or-set_self s.packet_offsets (s.curr_npackets + 1) (s.curr_nbytes + pos_part n) 0,
  Rising-snoc s.packet_offsets s.curr_npackets (s.curr_nbytes + pos_part n),
)
