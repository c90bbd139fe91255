-- ===== src/Packet/Sendable.antt =====
-- Which packets `intensity_packet::decode` accepts: the converse of Packet/Checks.
use ch_frb_io.Base.{
  ℕ, zero, suc, ◌+◌, ◌-◌, ◌*◌, ◌%◌, ◌^◌, ◌<◌, ◌≤◌, ◌≡◌, refl, sym, subst, Bool, true, ◌&&◌, List,
  length, get_or, ltb, leb, ◌==◌, ge→leb, bit_and, arith,
}
use ch_frb_io.Base.Bytes.{le_at}
use ch_frb_io.Packet.{
  Header, good, packet_size, read_header, freq_ids_in_range, decode_arrays, decode_fields, decode,
}
use ch_frb_io.Packet.Checks.{laid_out}
use ch_frb_io.Packet.Encode.{Outgoing}
use ch_frb_io.Constants.{max_input_udp_packet_size, max_allowed_nt_per_packet, nfreq_coarse_tot}

-- A header that the protocol allows.
pub record IsHeader (h : Header) : Type 0 where
  pub version : h.protocol_version ≡ 1
  pub beams_fit : h.nbeams < 2 ^ 16
  pub freqs_fit : h.nfreq_coarse < 2 ^ 16
  pub upfreqs_fit : h.nupfreq < 2 ^ 16
  pub counts_fit : h.fpga_counts_per_sample < 2 ^ 16
  pub count_fits : h.fpga_count < 2 ^ 64
  pub some_counts : 0 < h.fpga_counts_per_sample
  pub samples : (k : ℕ) × (k ≤ 10) × (h.ntsamp ≡ 2 ^ k)
  pub aligned : h.fpga_count % (h.fpga_counts_per_sample * h.ntsamp) ≡ 0
  pub data_size : h.data_nbytes ≡ h.nbeams * h.nfreq_coarse * h.nupfreq * h.ntsamp
  pub small : packet_size h.nbeams h.nfreq_coarse h.nupfreq h.ntsamp ≤ max_input_udp_packet_size

-- A packet that may be sent: its arrays have the lengths of the header, and hold `uint16_t`s and
-- numbers of coarse channels.
pub record IsSendable (p : Outgoing) : Type 0 where
  pub is_header : IsHeader p.header
  pub beams : length p.beam_ids ≡ p.nbeams
  pub freqs : length p.coarse_freq_ids ≡ p.nfreq_coarse
  pub beams_in_range : (i : ℕ) → get_or p.beam_ids i 0 < 2 ^ 16
  pub freqs_in_range : (i : ℕ) → get_or p.coarse_freq_ids i 0 < nfreq_coarse_tot

-- What is claimed of the power `2 ^ k`: it passes the bit trick, and is an allowed size.
power_passes : ℕ → Bool
power_passes k =
    bit_and (2 ^ k) (2 ^ k - 1) == 0 && leb (2 ^ k) max_allowed_nt_per_packet && ltb 0 (2 ^ k)

powers_pass : ℕ → Bool
powers_pass zero = true
powers_pass (suc m) = power_passes m && powers_pass m

powers_pass-at : (m k : ℕ) → k < m → powers_pass m ≡ true → power_passes k ≡ true
unfolding powers_pass
powers_pass-at zero k small all = absurd (omega arith)
powers_pass-at (suc m) k small all = ground (arith, powers_pass-at m k)

allowed_powers_pass : powers_pass 11 ≡ true
unfolding powers_pass power_passes
allowed_powers_pass = refl

power_mask :
    (k : ℕ)
    → k ≤ 10
    → ((bit_and (2 ^ k) (2 ^ k - 1) == 0) ≡ true)
      × (2 ^ k ≤ max_allowed_nt_per_packet)
      × (0 < 2 ^ k)
unfolding power_passes
power_mask k h = ground (arith, powers_pass-at 11 k (omega arith) allowed_powers_pass)

samples_mask :
    (n k : ℕ)
    → k ≤ 10
    → n ≡ 2 ^ k
    → ((bit_and n (n - 1) == 0) ≡ true) × (n ≤ max_allowed_nt_per_packet) × (0 < n)
samples_mask n k l e =
    subst (λ m. ((bit_and m (m - 1) == 0) ≡ true) × (m ≤ max_allowed_nt_per_packet) × (0 < m))
      (sym e) (power_mask k l)

pub samples_bounded : (h : Header) → IsHeader h → h.ntsamp ≤ max_allowed_nt_per_packet
samples_bounded h v =
    let (k, l, nt) = v.samples in let (mask, most, least) = samples_mask h.ntsamp k l nt in most

pub mul-pos : (a b : ℕ) → 0 < a → 0 < b → 0 < a * b
mul-pos a b h l = grind arith

freq_ids_complete :
    (src : List ℕ) (off n : ℕ)
    → ((i : ℕ) → i < n → le_at 2 src (off + 2 * i) < nfreq_coarse_tot)
    → freq_ids_in_range src off n ≡ true
unfolding freq_ids_in_range
freq_ids_complete src off zero h = refl
freq_ids_complete src off (suc n) h =
    let first : le_at 2 src off < nfreq_coarse_tot =
      subst (λ t. le_at 2 src t < nfreq_coarse_tot) {x = off + 2 * 0} (omega arith)
        (h 0 (omega arith)) in
    rw (ge→leb nfreq_coarse_tot (le_at 2 src off) first) (
      freq_ids_complete src (off + 2) n (λ i l.
        subst (λ t. le_at 2 src t < nfreq_coarse_tot) {x = off + 2 * suc i} (omega arith)
          (h (suc i) (omega arith))))

decode_arrays-good :
    (src : List ℕ) (h : Header)
    → h.data_nbytes ≡ h.nbeams * h.nfreq_coarse * h.nupfreq * h.ntsamp
    → packet_size h.nbeams h.nfreq_coarse h.nupfreq h.ntsamp ≤ max_input_udp_packet_size
    → freq_ids_in_range src (24 + 2 * h.nbeams) h.nfreq_coarse ≡ true
    → decode_arrays src (packet_size h.nbeams h.nfreq_coarse h.nupfreq h.ntsamp) h
      ≡ good (laid_out src h)
unfolding decode_arrays packet_size
decode_arrays-good src h d s f = ground arith

-- A buffer whose header the protocol allows, of the size that the header announces, with coarse
-- channels in range.
pub decode-good :
    (src : List ℕ) (h : Header)
    → read_header src ≡ h
    → IsHeader h
    → ((i : ℕ) → i < h.nfreq_coarse → le_at 2 src (24 + 2 * h.nbeams + 2 * i) < nfreq_coarse_tot)
    → decode src (packet_size h.nbeams h.nfreq_coarse h.nupfreq h.ntsamp) ≡ good (laid_out src h)
unfolding decode decode_fields
decode-good src h e v f =
    let (k, l, nt) = v.samples in
    let (mask, most, least) = samples_mask h.ntsamp k l nt in
    let last =
      decode_arrays-good src h v.data_size v.small
        (freq_ids_complete src (24 + 2 * h.nbeams) h.nfreq_coarse f) in
    let prod = mul-pos h.fpga_counts_per_sample h.ntsamp v.some_counts least in
    let big : 24 ≤ packet_size h.nbeams h.nfreq_coarse h.nupfreq h.ntsamp =
      unfold packet_size in omega arith in
    rw e (ground (arith, v.version, v.some_counts, v.aligned, v.small))
