-- ===== src/Ostream/Holds.antt =====
-- Packet lists that hold packets of one size, and one more packet of a sender in them.
use ch_frb_io.Base.{
  length, ℕ, suc, ◌+◌, ◌*◌, ◌^◌, ◌≤◌, ◌<◌, ◌≡◌, refl, ap, ◌∙◌, false, ◌||◌, List, ◌++◌, take, set,
  leb, eq→==, ge→leb, arith,
}
use ch_frb_io.Constants.{max_input_udp_packet_size}
use ch_frb_io.Outcome.{pos, Outcome, done}
use ch_frb_io.Packet.{packet_size, header_size}
use ch_frb_io.Packet.Encode.{Floats, Samples, Outgoing, encode}
use ch_frb_io.UdpList.{PacketList, add_packet}
use ch_frb_io.Ostream.{Sender, nbytes_per_packet, packet_of, after_encode}
use ch_frb_io.Ostream.Accepted.{IsSender, packet_of-plain_packet}

-- A list with `k` packets of one size, which is full when it has its number of packets or of bytes.
pub record Holds (size : ℕ) (l : PacketList) (k : ℕ) (m : PacketList) : Type 0 where
  pub packets : m.curr_npackets ≡ k
  pub bytes : m.curr_nbytes ≡ k * size
  pub full : m.is_full ≡ (leb m.max_npackets m.curr_npackets || leb m.max_nbytes m.curr_nbytes)
  pub max_packets : m.max_npackets ≡ l.max_npackets
  pub max_bytes : m.max_nbytes ≡ l.max_nbytes
  pub end_lem : m.data_end ≡ k * size
  pub buf_size : length m.buf ≡ length l.buf

pub block_le : (k a w : ℕ) → k < a → k * w + w ≤ a * w
block_le k a w h = grind arith

pub next_block : (k n w : ℕ) → k + w + n * w ≡ k + suc n * w
next_block k n w = grind arith

pub row_le : (k n w total : ℕ) → k + suc n * w ≤ total → k + w ≤ total
row_le k n w total h = let step = next_block k n w in omega arith

pub encode-size :
    (fl : Floats) (o : Sender fl) (s : Samples fl) (fpga_count it jf : ℕ) (dst : List ℕ)
    → IsSender fl o
    → fpga_count + it * o.nt_per_packet * o.fpga_counts_per_sample < 2 ^ 64
    → (encode fl s (packet_of fl o fpga_count it jf) dst).1 ≡ nbytes_per_packet fl o
unfolding encode nbytes_per_packet packet_size header_size
encode-size fl o s fpga_count it jf dst v fits =
    ap (λ (p : Outgoing). (encode fl s p dst).1)
      (packet_of-plain_packet fl o fpga_count it jf v fits)

-- The list after one more packet.
abbrev grown : ℕ → List ℕ → PacketList → PacketList
grown size b m = record m {
  curr_npackets = m.curr_npackets + 1;
  curr_nbytes = m.curr_nbytes + size;
  is_full = leb m.max_npackets (m.curr_npackets + 1) || leb m.max_nbytes (m.curr_nbytes + size);
  buf = b;
  data_end = m.curr_nbytes + size;
  packet_offsets = set m.packet_offsets (m.curr_npackets + 1) (m.curr_nbytes + size);
}

add_packet-grown :
    (size : ℕ) (b : List ℕ) (m : PacketList)
    → 0 < size
    → size ≤ max_input_udp_packet_size
    → m.is_full ≡ false
    → add_packet (pos size) (record m { buf = b }) ≡ done tt (grown size b m)
unfolding add_packet
add_packet-grown size b m p q e = ground arith

not_full :
    (size k : ℕ) (l m : PacketList)
    → k < l.max_npackets
    → k * size < l.max_nbytes
    → Holds size l k m
    → m.is_full ≡ false
not_full size k l m p b h =
    let e₀ : leb m.max_npackets m.curr_npackets ≡ false =
      ge→leb m.max_npackets m.curr_npackets (omega (arith, h.packets, h.max_packets)) in
    let e₁ : leb m.max_nbytes m.curr_nbytes ≡ false =
      ge→leb m.max_nbytes m.curr_nbytes (omega (arith, h.bytes, h.max_bytes)) in
    h.full ∙ rw (e₀, e₁) refl

Holds-grown :
    (size k : ℕ) (b : List ℕ) (l m : PacketList)
    → length b ≡ length l.buf
    → Holds size l k m
    → Holds size l (k + 1) (grown size b m)
Holds-grown size k b l m same h = record {
  packets = omega (arith, h.packets);
  bytes = let step : (k + 1) * size ≡ k * size + size = grind arith in omega (arith, h.bytes);
  full = refl;
  max_packets = h.max_packets;
  max_bytes = h.max_bytes;
  end_lem = let step : (k + 1) * size ≡ k * size + size = grind arith in omega (arith, h.bytes);
  buf_size = same;
}

-- One packet more, by `encode_packet`: it is written behind the others.
abbrev pub Took :
    (fl : Floats) → Sender fl → PacketList → ℕ → List ℕ → Outcome PacketList (Unit {0}) → Type 0
Took fl o l k b out =
    (m : PacketList) × (out ≡ done tt m) × Holds (nbytes_per_packet fl o) l k m × (m.buf ≡ b)

pub after_encode-Took :
    (fl : Floats) (o : Sender fl) (l m : PacketList) (k : ℕ) (w : List ℕ × ℕ)
    → IsSender fl o
    → w.1 ≡ nbytes_per_packet fl o
    → length (take m.data_end m.buf ++ w.0) ≡ length l.buf
    → k < l.max_npackets
    → k * nbytes_per_packet fl o < l.max_nbytes
    → Holds (nbytes_per_packet fl o) l k m
    → Took fl o l (k + 1) (take m.data_end m.buf ++ w.0) (after_encode fl o m w)
unfolding after_encode
after_encode-Took fl o l m k (written, n) v size same packets bytes h =
    let nb = nbytes_per_packet fl o in
    let b = take m.data_end m.buf ++ written in
    let some : 0 < nb = unfold nbytes_per_packet packet_size header_size in omega arith in
    (
      grown nb b m,
      simp (eq→== n nb size) (
          add_packet-grown nb b m some (omega (arith, v.small))
            (not_full nb k l m packets bytes h)),
      Holds-grown nb k b l m same h,
      refl,
    )
