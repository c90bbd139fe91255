-- ===== src/Ostream/Accepted.antt =====
-- Packets of a sender are what a receiver with the same parameters accepts.
use native.Mathlib.Nat.{add-mul-mod_self_right, div-mul-le_self, mod-eq_of_lt}
use ch_frb_io.Base.{
  ℕ, zero, suc, ◌+◌, ◌*◌, ◌/◌, ◌%◌, ◌^◌, ◌≤◌, ◌<◌, ◌≡◌, refl, sym, ap, subst, ◌∙◌, false, List, [],
  ◌∷◌, length, length-slice, get_or, take, drop, arith,
}
use ch_frb_io.Constants.{
  nfreq_coarse_tot, max_allowed_nupfreq, max_allowed_nt_per_packet,
  max_allowed_fpga_counts_per_sample, max_output_udp_packet_size,
}
use ch_frb_io.Outcome.{pos}
use ch_frb_io.Packet.{good, packet_size, header_size, decode}
use ch_frb_io.Packet.Checks.{laid_out}
use ch_frb_io.Packet.Encode.{Floats, Outgoing, encode}
use ch_frb_io.Packet.Sendable.{IsSendable}
use ch_frb_io.Packet.RoundTrip.{read_ids, decode-encode}
use ch_frb_io.Stream.{Initializer}
use ch_frb_io.Stream.Beams.{is_mismatch}
use ch_frb_io.Ostream.{
  nt_outer, Sender, ChunkData, packet_of, samples_of, nf_outer, nbytes_per_packet,
}

-- What the constructor of a sender guarantees of its parameters.
pub record IsSender (fl : Floats) (o : Sender fl) : Type 0 where
  pub beams : length o.beam_ids_16bit ≡ o.nbeams
  pub beams_fit : o.nbeams < 2 ^ 16
  pub beams_16bit : (i : ℕ) → get_or o.beam_ids_16bit i 0 < 2 ^ 16
  pub freqs : length o.coarse_freq_ids_16bit ≡ o.nfreq_coarse_per_chunk
  pub freqs_16bit : (i : ℕ) → get_or o.coarse_freq_ids_16bit i 0 < nfreq_coarse_tot
  pub per_packet_fit : o.nfreq_coarse_per_packet < 2 ^ 16
  pub upfreqs_fit : o.nupfreq ≤ max_allowed_nupfreq
  pub samples : (k : ℕ) × (k ≤ 10) × (o.nt_per_packet ≡ 2 ^ k)
  pub samples_fit : o.nt_per_packet ≤ max_allowed_nt_per_packet
  pub some_counts : 0 < o.fpga_counts_per_sample
  pub counts_fit : o.fpga_counts_per_sample ≤ max_allowed_fpga_counts_per_sample
  pub small : nbytes_per_packet fl o ≤ max_output_udp_packet_size
  pub chunk_fits : o.nt_per_chunk < 2 ^ 31
  pub chunk_bytes_fit : nbytes_per_packet fl o * (nf_outer fl o * nt_outer fl o) < 2 ^ 31

take-lt :
    (m n : ℕ) (xs : List ℕ)
    → 0 < m
    → ((i : ℕ) → get_or xs i 0 < m)
    → (i : ℕ) → get_or (take n xs) i 0 < m
take-lt m zero xs p h i = p
take-lt m (suc n) [] p h i = p
take-lt m (suc n) (x ∷ xs) p h zero = h 0
take-lt m (suc n) (x ∷ xs) p h (suc i) = take-lt m n xs p (λ j. h (suc j)) i

drop-lt :
    (m n : ℕ) (xs : List ℕ)
    → 0 < m
    → ((i : ℕ) → get_or xs i 0 < m)
    → (i : ℕ) → get_or (drop n xs) i 0 < m
drop-lt m zero xs p h i = h i
drop-lt m (suc n) [] p h i = p
drop-lt m (suc n) (x ∷ xs) p h i = drop-lt m n xs p (λ j. h (suc j)) i

block_in : (j q w n : ℕ) → j < q → q * w ≤ n → j * w + w ≤ n
block_in j q w n h l = let step : j * w + w ≤ q * w = grind arith in omega arith

-- The time of a packet is a multiple of its length when that of the chunk is.
aligned_later : (fpga it nt c : ℕ) → fpga % (c * nt) ≡ 0 → (fpga + it * nt * c) % (c * nt) ≡ 0
aligned_later fpga it nt c h =
    let shape : it * nt * c ≡ it * (c * nt) = grind arith in
    ap (λ k. (fpga + k) % (c * nt)) shape ∙ add-mul-mod_self_right fpga it (c * nt) ∙ h

-- The packet without the conversions to 16 and 64 bits, which change nothing.
abbrev pub plain_packet : (fl : Floats) (o : Sender fl) → ℕ → ℕ → ℕ → Outgoing
plain_packet fl o fpga_count it jf = record {
  header = record {
    protocol_version = 1;
    data_nbytes = o.nbeams * o.nfreq_coarse_per_packet * o.nupfreq * o.nt_per_packet;
    fpga_counts_per_sample = o.fpga_counts_per_sample;
    fpga_count = fpga_count + it * o.nt_per_packet * o.fpga_counts_per_sample;
    nbeams = o.nbeams;
    nfreq_coarse = o.nfreq_coarse_per_packet;
    nupfreq = o.nupfreq;
    ntsamp = o.nt_per_packet;
  };
  beam_ids = o.beam_ids_16bit;
  coarse_freq_ids =
      take o.nfreq_coarse_per_packet
        (drop (jf * o.nfreq_coarse_per_packet) o.coarse_freq_ids_16bit);
}

pub packet_of-plain_packet :
    (fl : Floats) (o : Sender fl) (fpga_count it jf : ℕ)
    → IsSender fl o
    → fpga_count + it * o.nt_per_packet * o.fpga_counts_per_sample < 2 ^ 64
    → packet_of fl o fpga_count it jf ≡ plain_packet fl o fpga_count it jf
unfolding packet_of nbytes_per_packet packet_size header_size
packet_of-plain_packet fl o fpga_count it jf v fits =
    let nd = o.nbeams * o.nfreq_coarse_per_packet * o.nupfreq * o.nt_per_packet in
    let e₀ : nd % 2 ^ 16 ≡ nd = omega (arith, v.small) in
    let e₁ : o.fpga_counts_per_sample % 2 ^ 16 ≡ o.fpga_counts_per_sample =
      omega (arith, v.counts_fit) in
    let e₂ = mod-eq_of_lt fits in
    let e₃ = mod-eq_of_lt v.beams_fit in
    let e₄ = mod-eq_of_lt v.per_packet_fit in
    let e₅ : o.nupfreq % 2 ^ 16 ≡ o.nupfreq = omega (arith, v.upfreqs_fit) in
    let e₆ : o.nt_per_packet % 2 ^ 16 ≡ o.nt_per_packet = omega (arith, v.samples_fit) in
    rw (e₀, e₁, e₂, e₃, e₄, e₅, e₆) refl

plain_packet-IsSendable :
    (fl : Floats) (o : Sender fl) (fpga_count it jf : ℕ)
    → IsSender fl o
    → fpga_count % (o.fpga_counts_per_sample * o.nt_per_packet) ≡ 0
    → fpga_count + it * o.nt_per_packet * o.fpga_counts_per_sample < 2 ^ 64
    → jf < nf_outer fl o
    → IsSendable (plain_packet fl o fpga_count it jf)
unfolding nf_outer nbytes_per_packet
plain_packet-IsSendable fl o fpga_count it jf v al fits inside =
    let w = o.nfreq_coarse_per_packet in
    let room =
      block_in jf (o.nfreq_coarse_per_chunk / w) w o.nfreq_coarse_per_chunk inside
        (div-mul-le_self o.nfreq_coarse_per_chunk w) in
    record {
      is_header = record {
        version = refl;
        beams_fit = v.beams_fit;
        freqs_fit = v.per_packet_fit;
        upfreqs_fit = omega (arith, v.upfreqs_fit);
        counts_fit = omega (arith, v.counts_fit);
        count_fits = fits;
        some_counts = v.some_counts;
        samples = v.samples;
        aligned = aligned_later fpga_count it o.nt_per_packet o.fpga_counts_per_sample al;
        data_size = refl;
        small = omega (arith, v.small);
      };
      beams = v.beams;
      freqs = length-slice o.coarse_freq_ids_16bit (jf * w) w (omega (arith, v.freqs));
      beams_in_range = v.beams_16bit;
      freqs_in_range =
          take-lt nfreq_coarse_tot w _ (omega arith)
            (drop-lt nfreq_coarse_tot (jf * w) _ (omega arith) v.freqs_16bit);
    }

packet_of-IsSendable :
    (fl : Floats) (o : Sender fl) (fpga_count it jf : ℕ)
    → IsSender fl o
    → fpga_count % (o.fpga_counts_per_sample * o.nt_per_packet) ≡ 0
    → fpga_count + it * o.nt_per_packet * o.fpga_counts_per_sample < 2 ^ 64
    → jf < nf_outer fl o
    → IsSendable (packet_of fl o fpga_count it jf)
packet_of-IsSendable fl o fpga_count it jf v al fits inside =
    subst IsSendable (sym (packet_of-plain_packet fl o fpga_count it jf v fits))
      (plain_packet-IsSendable fl o fpga_count it jf v al fits inside)

-- A receiver with the sender's parameters, whatever its beams are.
abbrev pub Matches : (fl : Floats) → Sender fl → Initializer → Type 0
Matches fl o y =
    (length y.beam_ids ≡ o.nbeams)
    × (y.nupfreq ≡ pos o.nupfreq)
    × (y.nt_per_packet ≡ pos o.nt_per_packet)
    × (y.fpga_counts_per_sample ≡ pos o.fpga_counts_per_sample)

plain_packet-Matches :
    (fl : Floats) (o : Sender fl) (y : Initializer) (src : List ℕ) (fpga_count it jf : ℕ)
    → Matches fl o y
    → is_mismatch y (laid_out src (plain_packet fl o fpga_count it jf).header) ≡ false
unfolding is_mismatch
plain_packet-Matches fl o y src fpga_count it jf (a, b, c, d) = rw (a, b, c, d) (ground arith)

-- Every packet of every chunk of a sender, encoded into a buffer that has room for it, is accepted by a
-- receiver with the same parameters: `decode` takes it for a good packet, the receiver finds no
-- mismatch, and it reads the sender's beams and the packet's part of the sender's coarse channels. The
-- packet is that of time block `it` and frequency block `jf` of the chunk. The chunk's time must be one
-- that `_encode_chunk` takes, and the packet's time must fit in 64 bits; the `int` product that the code
-- forms on the way, which it multiplies by the 64-bit `fpga_counts_per_sample`, does not overflow.
pub packet_of-accepted :
    (fl : Floats) (o : Sender fl) (y : Initializer) (c : ChunkData fl) (fpga_count it jf : ℕ)
    (dst : List ℕ)
    → IsSender fl o
    → Matches fl o y
    → fpga_count % (o.fpga_counts_per_sample * o.nt_per_packet) ≡ 0
    → fpga_count + it * o.nt_per_packet * o.fpga_counts_per_sample < 2 ^ 64
    → it < nt_outer fl o
    → jf < nf_outer fl o
    → nbytes_per_packet fl o ≤ length dst
    → let p = packet_of fl o fpga_count it jf in
      let (sent, n) = encode fl (samples_of fl o c it jf) p dst in
      let received = laid_out sent p.header in
      (it * o.nt_per_packet < 2 ^ 31)
      × (n ≡ nbytes_per_packet fl o)
      × (decode sent n ≡ good received)
      × (is_mismatch y received ≡ false)
      × (read_ids sent received.beam_ids received.nbeams ≡ o.beam_ids_16bit)
      × (read_ids sent received.coarse_freq_ids received.nfreq_coarse
          ≡ take o.nfreq_coarse_per_packet
              (drop (jf * o.nfreq_coarse_per_packet) o.coarse_freq_ids_16bit))
unfolding nbytes_per_packet nt_outer
packet_of-accepted fl o y c fpga_count it jf dst v m al fits block inside room =
    let time =
      block_in it (o.nt_per_chunk / o.nt_per_packet) o.nt_per_packet o.nt_per_chunk block
        (div-mul-le_self o.nt_per_chunk o.nt_per_packet) in
    let same = packet_of-plain_packet fl o fpga_count it jf v fits in
    let (size, ok, beams, freqs) =
      decode-encode fl (samples_of fl o c it jf) (plain_packet fl o fpga_count it jf) dst
        (plain_packet-IsSendable fl o fpga_count it jf v al fits inside) room in
    let sent = (encode fl (samples_of fl o c it jf) (plain_packet fl o fpga_count it jf) dst).0 in
    rw same (
      omega (arith, v.chunk_fits),
      size,
      ok,
      plain_packet-Matches fl o y sent fpga_count it jf m,
      beams,
      freqs,
    )
