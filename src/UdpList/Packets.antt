-- ===== src/UdpList/Packets.antt =====
-- What `udp_packet_list` promises: a bounded list of packets, each byte as it was received.
use native.Mathlib.Decide.{dec_le}
use native.Mathlib.Numerals.{add-one}
use mathlib.Core.Path.{ap₂}
use ch_frb_io.Base.{
  ℕ, zero, suc, ◌+◌, ◌-◌, ◌≤◌, ◌<◌, ◌⊎◌, ◌≡◌, refl, sym, ap, subst, if◌then◌else◌, ◌∙◌, true, false,
  ◌||◌, List, [], ◌∷◌, ◌++◌, arith, leb, length, get_or, set, slice, copy_to, get_or-set_self,
  get_or-set_ne, slice-copy_to_self, slice-copy_to_before,
}
use ch_frb_io.Constants.{max_input_udp_packet_size}
use ch_frb_io.Outcome.{
  Error, ℤ, pos, pos_part, leb_ℤ, ltb_ℤ, done, throws, bad_packet_nbytes, list_full, after,
}
use ch_frb_io.UdpList.{
  PacketList, add_packet, reset, fill, get_packet_data, get_packet_nbytes, first_packets, packets,
  receive,
}
use ch_frb_io.UdpList.Valid.{IsValid, Rising, fill-IsValid, add_packet-IsValid}

Rising-le : (offs : List ℕ) (m n : ℕ) → n ≤ m → Rising offs m → get_or offs n 0 ≤ get_or offs m 0
Rising-le offs zero n h r = ap_le (omega arith)
  where
    ap_le : n ≡ 0 → get_or offs n 0 ≤ get_or offs 0 0
    ap_le e = rw e (omega arith)
Rising-le offs (suc m) n h r = elim (dec_le n m) [
  | yes l ↦ omega (arith, Rising-le offs m n l r.0, r.1)
  | no g ↦ at_top (omega arith)
]
  where
    at_top : n ≡ suc m → get_or offs n 0 ≤ get_or offs (suc m) 0
    at_top e = rw e (omega arith)

Rising-step :
    (offs : List ℕ) (m n : ℕ) → n < m → Rising offs m → get_or offs n 0 < get_or offs (suc n) 0
Rising-step offs zero n h r = absurd (omega arith)
Rising-step offs (suc m) n h r = elim (dec_le (suc n) m) [
  | yes l ↦ Rising-step offs m n l r.0
  | no g ↦ at_top (omega arith)
]
  where
    at_top : n ≡ m → get_or offs n 0 < get_or offs (suc n) 0
    at_top e = rw e r.1

module _ (s t : PacketList) (bytes : List ℕ) (v m : ℕ)
    (b : t.buf ≡ copy_to s.buf (get_or s.packet_offsets m 0) bytes)
    (o : t.packet_offsets ≡ set s.packet_offsets (suc m) v) (r : Rising s.packet_offsets m) where
  -- Packets before the end stay as they are when bytes are copied to the end and an offset is added.
  first_packets_kept : (n : ℕ) → n ≤ m → first_packets t n ≡ first_packets s n
  unfolding first_packets get_packet_data get_packet_nbytes
  first_packets_kept zero h = refl
  first_packets_kept (suc n) h = ap₂ ◌++◌ (first_packets_kept n (omega arith)) (
      rw
        (
          b,
          o,
          add-one n,
          get_or-set_ne s.packet_offsets (suc m) n v 0 (omega arith),
          get_or-set_ne s.packet_offsets (suc m) (suc n) v 0 (omega arith),
        )
        (ap (λ p. p ∷ [])
          (slice-copy_to_before s.buf (get_or s.packet_offsets m 0) bytes
            (get_or s.packet_offsets n 0)
            (get_or s.packet_offsets (suc n) 0 - get_or s.packet_offsets n 0)
            (omega (
              arith,
              Rising-step s.packet_offsets m n (omega arith) r,
              Rising-le s.packet_offsets m (suc n) (omega arith) r,
            )))))

  first_packets_new :
      suc m < length s.packet_offsets
      → v ≡ get_or s.packet_offsets m 0 + length bytes
      → v ≤ length s.buf
      → first_packets t (suc m) ≡ first_packets s m ++ (bytes ∷ [])
  unfolding first_packets get_packet_data get_packet_nbytes
  first_packets_new h e l = ap₂ ◌++◌ (first_packets_kept m (omega arith)) (
      rw
        (
          b,
          o,
          add-one m,
          get_or-set_ne s.packet_offsets (suc m) m v 0 (omega arith),
          get_or-set_self s.packet_offsets (suc m) v 0 h,
        )
        (ap (λ p. p ∷ [])
          (ap
              (slice (copy_to s.buf (get_or s.packet_offsets m 0) bytes)
                (get_or s.packet_offsets m 0))
              (omega arith)
            ∙ slice-copy_to_self s.buf (get_or s.packet_offsets m 0) bytes (omega arith))))

-- The list after one more packet.
abbrev appended : List ℕ → PacketList → PacketList
appended bytes s = record s {
  curr_npackets = s.curr_npackets + 1;
  curr_nbytes = s.curr_nbytes + length bytes;
  is_full =
      leb s.max_npackets (s.curr_npackets + 1) || leb s.max_nbytes (s.curr_nbytes + length bytes);
  buf = copy_to s.buf s.data_end bytes;
  data_end = s.curr_nbytes + length bytes;
  packet_offsets = set s.packet_offsets (s.curr_npackets + 1) (s.curr_nbytes + length bytes);
}

packets-appended :
    (bytes : List ℕ) {s : PacketList}
    → IsValid s
    → s.is_full ≡ false
    → length bytes ≤ max_input_udp_packet_size
    → packets (appended bytes s) ≡ packets s ++ (bytes ∷ [])
packets-appended bytes {s} v e u =
    ap (first_packets (appended bytes s)) (add-one s.curr_npackets)
    ∙ first_packets_new s (appended bytes s) bytes (s.curr_nbytes + length bytes) s.curr_npackets
        (ap (λ i. copy_to s.buf i bytes) (v.end_lem ∙ sym v.sentinel))
        (ap (λ i. set s.packet_offsets i (s.curr_nbytes + length bytes)) (add-one s.curr_npackets))
        v.rising (ground arith) (omega arith) (ground arith)

receive-eq :
    (bytes : List ℕ) (s : PacketList)
    → s.is_full ≡ false
    → 0 < length bytes
    → length bytes ≤ max_input_udp_packet_size
    → receive bytes s ≡ done tt (appended bytes s)
unfolding add_packet fill
receive-eq bytes s e l u = ground arith

-- A packet of an admissible size is appended to a list that is not full, byte for byte, the
-- earlier packets stay as they were, and the list is valid again.
pub packets-receive :
    (bytes : List ℕ) {s : PacketList}
    → IsValid s
    → s.is_full ≡ false
    → 0 < length bytes
    → length bytes ≤ max_input_udp_packet_size
    → (t : PacketList) × (receive bytes s ≡ done tt t)
      × (packets t ≡ packets s ++ (bytes ∷ []))
      × IsValid t
packets-receive bytes {s} v e l u = (
  appended bytes s,
  received,
  packets-appended bytes v e u,
  subst (λ o. IsValid (after o)) received
      (add_packet-IsValid (pos (length bytes)) (fill-IsValid bytes v)),
)
  where
    received : receive bytes s ≡ done tt (appended bytes s)
    received = receive-eq bytes s e l u

-- Which error a refused call throws.
abbrev refusal : ℤ → PacketList → Error
refusal n s =
    if leb_ℤ n (pos 0) || ltb_ℤ (pos max_input_udp_packet_size) n
    then bad_packet_nbytes
    else list_full

-- A full list, and a packet size out of range, are refused: the call throws and leaves the list as
-- it was.
pub add_packet_refused :
    (n : ℤ) (s : PacketList)
    → (s.is_full ≡ true) ⊎ (pos_part n ≡ 0) ⊎ (max_input_udp_packet_size < pos_part n)
    → (e : Error) × (add_packet n s ≡ throws e s)
unfolding add_packet
add_packet_refused n s h = (refusal n s, ground arith)

-- `reset` drops every packet, and makes room again.
pub packets-reset : (s : PacketList) → (packets (reset s) ≡ []) × ((reset s).is_full ≡ false)
unfolding reset first_packets
packets-reset s = (refl, refl)
