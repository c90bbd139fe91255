-- ===== src/Ostream/Fills.antt =====
-- `_encode_chunk` fills a packet list with all packets of a chunk.
use native.Mathlib.Nat.{mul-le-mul}
use ch_frb_io.Packet.Kept.{length-encode}
use native.Mathlib.Decide.{dec_lt}
use ch_frb_io.Base.{
  ◌⊎◌, inl, inr, slice, take, drop, ◌++◌, List, length, slice-splice_before, slice-splice_at,
  length-splice, length-drop, ℕ, zero, suc, ◌+◌, ◌*◌, ◌%◌, ◌^◌, ◌≤◌, ◌<◌, ◌≡◌, refl, sym, ap, subst,
  ◌∙◌, false, ◌||◌, ltb, leb, ge→ltb, arith,
}
use ch_frb_io.Outcome.{Outcome, done, and_then}
use ch_frb_io.Packet.{packet_size, header_size}
use ch_frb_io.Packet.Encode.{encode, Floats}
use ch_frb_io.UdpList.{PacketList}
use ch_frb_io.Ostream.{
  packet_of, Sender, ChunkData, nbytes_per_packet, nf_outer, nt_outer, samples_of, encode_packet,
  encode_row, encode_rows, encode_chunk,
}
use ch_frb_io.Ostream.Accepted.{IsSender}
use ch_frb_io.Ostream.Holds.{Holds, after_encode-Took, encode-size, block_le}

next_row : (it w : ℕ) → it * w + (0 + w) ≡ (it + 1) * w + 0
next_row it w = grind arith

whole_chunk : (a b : ℕ) → (0 + a) * b + 0 ≡ a * b
whole_chunk a b = grind arith

-- The sum of the `int`s that index an array of samples does not overflow.
abbrev pub Addressable : (fl : Floats) → Sender fl → ℕ → Type 0
Addressable fl o stride =
    o.nbeams * o.nfreq_coarse_per_chunk * o.nupfreq * stride + o.nt_per_chunk < 2 ^ 31

-- Packet number `it * nf_outer + jf` of the list is the packet of time block `it` and frequency block
-- `jf`, as `encode` writes it into some buffer that has room for it.
abbrev pub IsPacketAt :
    (fl : Floats) (o : Sender fl) → ChunkData fl → ℕ → PacketList → ℕ → ℕ → Type 0
IsPacketAt fl o c fpga_count m it jf =
    let nb = nbytes_per_packet fl o in
    (dst : List ℕ) × (nb ≤ length dst)
    × (slice m.buf ((it * nf_outer fl o + jf) * nb) nb
        ≡ take nb (encode fl (samples_of fl o c it jf) (packet_of fl o fpga_count it jf) dst).0)

-- A chunk: where it comes from, and the list that it is to fill.
module _ (fl : Floats) (o : Sender fl) (c : ChunkData fl) (fpga_count : ℕ) (l : PacketList)
    (v : IsSender fl o) where
  -- All packets before that of blocks `it` and `jf`.
  abbrev HasBefore : PacketList → ℕ → ℕ → Type 0
  HasBefore m it jf =
      (i j : ℕ)
      → j < nf_outer fl o
      → (i < it) ⊎ ((i ≡ it) × (j < jf))
      → IsPacketAt fl o c fpga_count m i j

  abbrev Progress : ℕ → ℕ → PacketList → Type 0
  Progress it jf m =
      Holds (nbytes_per_packet fl o) l (it * nf_outer fl o + jf) m × HasBefore m it jf

  abbrev Reaches : ℕ → ℕ → Outcome PacketList (Unit {0}) → Type 0
  Reaches it jf out = (m : PacketList) × (out ≡ done tt m) × Progress it jf m

  -- What has room: the packets, and times below 2 ^ 64, of the first `rows` time blocks.
  abbrev HasRoomFor : ℕ → Type 0
  HasRoomFor rows =
      (rows * nf_outer fl o ≤ l.max_npackets)
      × (rows * nf_outer fl o * nbytes_per_packet fl o ≤ l.max_nbytes)
      × (l.max_nbytes ≤ length l.buf)
      × (fpga_count + rows * o.nt_per_packet * o.fpga_counts_per_sample < 2 ^ 64)

  -- One more packet is written behind the others, and leaves them as they are.
  HasBefore-next :
      (it jf : ℕ) (m m' : PacketList)
      → let nb = nbytes_per_packet fl o in
        let n = (it * nf_outer fl o + jf) * nb in
        n + nb ≤ length m.buf
        → m'.buf
          ≡ take n m.buf
            ++ (encode fl
                (samples_of fl o c it jf)
                (packet_of fl o fpga_count it jf)
                (drop n m.buf)).0
        → HasBefore m it jf
        → HasBefore m' it (jf + 1)
  HasBefore-next it jf m m' room e h i j inside (inl a) =
      let nb = nbytes_per_packet fl o in
      let (dst, q, same) = h i j inside (inl a) in
      let first : i * nf_outer fl o + nf_outer fl o ≤ it * nf_outer fl o = block_le i it _ a in
      let earlier : (i * nf_outer fl o + j) * nb + nb ≤ (it * nf_outer fl o + jf) * nb =
        block_le (i * nf_outer fl o + j) (it * nf_outer fl o + jf) nb (omega arith) in
      (
        dst,
        q,
        ap (λ b. slice b ((i * nf_outer fl o + j) * nb) nb) e
            ∙ slice-splice_before m.buf _ ((it * nf_outer fl o + jf) * nb) _ nb earlier
                (omega arith)
            ∙ same,
      )
  HasBefore-next it jf m m' room e h i j inside (inr (a, b)) = elim (dec_lt j jf) [
    | yes lt ↦
        let nb = nbytes_per_packet fl o in
        let (dst, q, same) = h i j inside (inr (a, lt)) in
        let index : i * nf_outer fl o + j < it * nf_outer fl o + jf =
          subst (λ k. k * nf_outer fl o + j < it * nf_outer fl o + jf) (sym a) (omega arith) in
        let earlier : (i * nf_outer fl o + j) * nb + nb ≤ (it * nf_outer fl o + jf) * nb =
          block_le (i * nf_outer fl o + j) (it * nf_outer fl o + jf) nb index in
        (
          dst,
          q,
          ap (λ b. slice b ((i * nf_outer fl o + j) * nb) nb) e
              ∙ slice-splice_before m.buf _ ((it * nf_outer fl o + jf) * nb) _ nb earlier
                  (omega arith)
              ∙ same,
        )
    | no ge ↦
        let nb = nbytes_per_packet fl o in
        let n = (it * nf_outer fl o + jf) * nb in
        let last : jf ≡ j = omega arith in
        let split = length-drop n m.buf (omega arith) in
        let here : IsPacketAt fl o c fpga_count m' it jf = (
          drop n m.buf,
          omega arith,
          ap (λ b. slice b n nb) e ∙ slice-splice_at m.buf _ n nb (omega arith),
        ) in
        subst (λ k. IsPacketAt fl o c fpga_count m' k j) (sym a)
          (subst (λ k. IsPacketAt fl o c fpga_count m' it k) last here)
  ]

  HasBefore-none : (m : PacketList) → HasBefore m 0 0
  HasBefore-none m i j inside (inl a) = absurd (omega arith)
  HasBefore-none m i j inside (inr (a, b)) = absurd (omega arith)

  HasBefore-row :
      (it : ℕ) (m : PacketList) → HasBefore m it (nf_outer fl o) → HasBefore m (it + 1) 0
  HasBefore-row it m h i j inside (inr (a, b)) = absurd (omega arith)
  HasBefore-row it m h i j inside (inl a) = elim (dec_lt i it) [
    | yes lt ↦ h i j inside (inl lt)
    | no ge ↦ h i j inside (inr (omega arith, inside))
  ]

  encode_packet-Reaches :
      (it jf rows : ℕ) (m : PacketList)
      → HasRoomFor rows
      → it < rows
      → jf < nf_outer fl o
      → Progress it jf m
      → Reaches it (jf + 1) (encode_packet fl o c fpga_count it jf m)
  unfolding encode_packet
  encode_packet-Reaches it jf rows m (p, b, buf, f) i j (h, before) =
      let nb = nbytes_per_packet fl o in
      let k = it * nf_outer fl o + jf in
      let some : 0 < nb = unfold nbytes_per_packet packet_size header_size in omega arith in
      let row : it * nf_outer fl o + nf_outer fl o ≤ rows * nf_outer fl o =
        block_le it rows (nf_outer fl o) i in
      let bytes : k * nb + nb ≤ rows * nf_outer fl o * nb =
        block_le k (rows * nf_outer fl o) nb (omega arith) in
      let earlier : it * o.nt_per_packet * o.fpga_counts_per_sample
          ≤ rows * o.nt_per_packet * o.fpga_counts_per_sample =
        mul-le-mul (mul-le-mul (omega arith) (omega arith)) (omega arith) in
      let samples = samples_of fl o c it jf in
      let packet = packet_of fl o fpga_count it jf in
      let inside : m.data_end ≤ length m.buf = omega (arith, h.end_lem, h.buf_size) in
      let same =
        length-splice m.buf (encode fl samples packet (drop m.data_end m.buf)).0 m.data_end inside
        ∙ ap (λ q. m.data_end + q) (length-encode fl samples packet (drop m.data_end m.buf))
        ∙ length-drop m.data_end m.buf inside
        ∙ h.buf_size in
      let (m', e, h', written) =
        after_encode-Took fl o l m k _ v
          (encode-size fl o samples fpga_count it jf _ v (omega arith)) same (omega arith)
          (omega arith) h in
      (
        m',
        e,
        (
          subst (λ q. Holds nb l q m') (omega arith) h',
          HasBefore-next it jf m m' (omega (arith, h.buf_size))
              (written
                ∙ ap (λ q. take q m.buf ++ (encode fl samples packet (drop q m.buf)).0) h.end_lem)
              before,
        ),
      )

  encode_row-Reaches :
      (it jf n rows : ℕ) (m : PacketList)
      → HasRoomFor rows
      → it < rows
      → jf + n ≤ nf_outer fl o
      → Progress it jf m
      → Reaches it (jf + n) (encode_row fl o c fpga_count it jf n m)
  unfolding encode_row
  encode_row-Reaches it jf zero rows m r i j h =
      (m, refl, subst (λ q. Progress it q m) (omega arith) h)
  encode_row-Reaches it jf (suc n) rows m r i j h =
      let (m', e, h') = encode_packet-Reaches it jf rows m r i (omega arith) h in
      let (m₂, e₂, h₂) = encode_row-Reaches it (jf + 1) n rows m' r i (omega arith) h' in
      (
        m₂,
        ap (λ q. and_then q (λ t s. encode_row fl o c fpga_count it (jf + 1) n s)) e ∙ e₂,
        subst (λ q. Progress it q m₂) (omega arith) h₂,
      )

  encode_rows-Reaches :
      (it n rows : ℕ) (m : PacketList)
      → HasRoomFor rows
      → it + n ≤ rows
      → Progress it 0 m
      → Reaches (it + n) 0 (encode_rows fl o c fpga_count it n m)
  unfolding encode_rows
  encode_rows-Reaches it zero rows m r i h = (m, refl, subst (λ q. Progress q 0 m) (omega arith) h)
  encode_rows-Reaches it (suc n) rows m r i h =
      let w = nf_outer fl o in
      let (m', e, (h', before)) =
        encode_row-Reaches it 0 w rows m r (omega arith) (omega arith) h in
      let next : it * w + (0 + w) ≡ (it + 1) * w + 0 = next_row it w in
      let all : 0 + w ≡ w = omega arith in
      let (m₂, e₂, h₂) = encode_rows-Reaches (it + 1) n rows m' r (omega arith) (
        subst (λ q. Holds (nbytes_per_packet fl o) l q m') next h',
        HasBefore-row it m' (subst (HasBefore m' it) all before),
      ) in
      (
        m₂,
        ap (λ q. and_then q (λ t s. encode_rows fl o c fpga_count (it + 1) n s)) e ∙ e₂,
        subst (λ q. Progress q 0 m₂) (omega arith) h₂,
      )

-- A list with no packets, and room for `total` of them.
pub record IsEmptyFor (size total : ℕ) (l : PacketList) : Type 0 where
  pub no_packets : l.curr_npackets ≡ 0
  pub no_bytes : l.curr_nbytes ≡ 0
  pub fullness : l.is_full ≡ (leb l.max_npackets l.curr_npackets || leb l.max_nbytes l.curr_nbytes)
  pub room_packets : total ≤ l.max_npackets
  pub room_bytes : total * size ≤ l.max_nbytes
  pub room_buf : l.max_nbytes ≤ length l.buf
  pub at_start : l.data_end ≡ 0

Holds-empty : (size total : ℕ) (l : PacketList) → IsEmptyFor size total l → Holds size l 0 l
Holds-empty size total l e = record {
  packets = e.no_packets;
  bytes = omega (arith, e.no_bytes);
  full = e.fullness;
  max_packets = refl;
  max_bytes = refl;
  end_lem = omega (arith, e.at_start);
  buf_size = refl;
}

-- `_encode_chunk` returns, for a sender with parameters that its constructor accepts, when the time of
-- the chunk is a multiple of the length of a packet, the times of the chunk fit in 64 bits, the samples
-- are addressed by `int`s that do not overflow, and the list is empty and has room for the packets of a
-- chunk. The list then holds one packet for each time block and each frequency block, in that order: the
-- bytes of each are those that `encode` writes for the header, the ids and the samples of its blocks.
pub encode_chunk-fills :
    (fl : Floats) (o : Sender fl) (c : ChunkData fl) (fpga_count : ℕ) (l : PacketList)
    → IsSender fl o
    → fpga_count % (o.fpga_counts_per_sample * o.nt_per_packet) ≡ 0
    → fpga_count + nt_outer fl o * o.nt_per_packet * o.fpga_counts_per_sample < 2 ^ 64
    → Addressable fl o c.istride
    → Addressable fl o c.wstride
    → IsEmptyFor (nbytes_per_packet fl o) (nt_outer fl o * nf_outer fl o) l
    → (m : PacketList) × (encode_chunk fl o c fpga_count l ≡ done tt m)
      × (m.curr_npackets ≡ nt_outer fl o * nf_outer fl o)
      × (m.curr_nbytes ≡ nt_outer fl o * nf_outer fl o * nbytes_per_packet fl o)
      × ((it jf : ℕ)
          → it < nt_outer fl o
          → jf < nf_outer fl o
          → IsPacketAt fl o c fpga_count m it jf)
unfolding encode_chunk
encode_chunk-fills fl o c fpga_count l v al fits ints ints' e =
    let total = nt_outer fl o * nf_outer fl o in
    let e₀ : ltb 0 l.curr_npackets ≡ false = ap (ltb 0) e.no_packets in
    let e₁ : ltb l.max_npackets total ≡ false = ge→ltb l.max_npackets total e.room_packets in
    let e₂ : ltb l.max_nbytes (total * nbytes_per_packet fl o) ≡ false =
      ge→ltb l.max_nbytes (total * nbytes_per_packet fl o) e.room_bytes in
    let start : 0 * nf_outer fl o + 0 ≡ 0 = omega arith in
    let (m, r, (h, before)) =
      encode_rows-Reaches fl o c fpga_count l v 0 (nt_outer fl o) (nt_outer fl o) l
        (e.room_packets, e.room_bytes, e.room_buf, fits) (omega arith)
        (
          subst (λ q. Holds (nbytes_per_packet fl o) l q l) (sym start)
              (Holds-empty (nbytes_per_packet fl o) total l e),
          HasBefore-none fl o c fpga_count l v l,
        ) in
    let whole : (0 + nt_outer fl o) * nf_outer fl o + 0 ≡ total = whole_chunk _ _ in
    (
      m,
      rw (al, e₀, e₁, e₂) r,
      h.packets ∙ whole,
      h.bytes ∙ ap (λ q. q * nbytes_per_packet fl o) whole,
      λ it jf a b. before it jf b (inl (omega arith)),
    )
