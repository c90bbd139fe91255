-- ===== src/Ostream/Constructed.antt =====
-- What the constructor of `intensity_network_ostream` guarantees.
use native.Mathlib.Nat.{mod-add-div, pow-le-pow_right}
use mathlib.Core.Path.{ap₂}
use ch_frb_io.Stream.Make.{or_else}
use ch_frb_io.Base.{
  Bool, false, if◌then◌else◌, ◌||◌, ℕ, zero, suc, ◌+◌, ◌*◌, ◌/◌, ◌%◌, ◌^◌, ◌≤◌, ◌<◌, ◌≡◌, refl, sym,
  ap, ◌∙◌, true, Bool-cases, inl, inr, Option, none, some, List, [], ◌∷◌, length, get_or, leb,
  leb→le, leb→gt, arith,
}
use ch_frb_io.Constants.{
  nfreq_coarse_tot, max_allowed_nupfreq, max_allowed_nt_per_packet,
  max_allowed_fpga_counts_per_sample, max_output_udp_packet_size, output_ringbuf_capacity,
}
use ch_frb_io.Outcome.{Error, ℤ, pos, negsuc, pos_part, returns}
use ch_frb_io.Chunk.{is_power_of_two}
use ch_frb_io.Packet.{packet_size, header_size}
use ch_frb_io.Packet.Checks.{power_of_two}
use ch_frb_io.Packet.Encode.{Floats}
use ch_frb_io.Packet.Sendable.{mul-pos}
use ch_frb_io.UdpRing
use ch_frb_io.UdpList.{PacketList}
use ch_frb_io.UdpList
use ch_frb_io.Stream.Constructed.{makes_list, makes_ring}
use ch_frb_io.Ostream.{Sender, nbytes_per_packet, nf_outer, nt_outer}
use ch_frb_io.Ostream.Make.{
  eq_zero, magnitude, overflows, Initializer, to_16bit, freqs_error, sizes_error, packet_error,
  ini_error, split_name, port_of, npackets_per_chunk, nbytes_per_chunk, new_sender, named_sender,
  checked_sender, construct,
}
use ch_frb_io.Ostream.Accepted.{IsSender}

length-to_16bit : (xs : List ℤ) → length (to_16bit xs) ≡ length xs
unfolding to_16bit
length-to_16bit [] = refl
length-to_16bit (x ∷ xs) = ap suc (length-to_16bit xs)

to_16bit-lt : (xs : List ℤ) (i : ℕ) → get_or (to_16bit xs) i 0 < 2 ^ 16
unfolding to_16bit
to_16bit-lt [] i = omega arith
to_16bit-lt (x ∷ xs) zero = omega arith
to_16bit-lt (x ∷ xs) (suc i) = to_16bit-lt xs i

freqs_error-cons :
    (before : List ℤ) (f : ℤ) (fs : List ℤ)
    → freqs_error before (f ∷ fs) ≡ none
    → (pos_part f < nfreq_coarse_tot) × (freqs_error (f ∷ before) fs ≡ none)
unfolding freqs_error
freqs_error-cons before f fs h = ground arith

freqs_in_range :
    (before fs : List ℤ)
    → freqs_error before fs ≡ none
    → (i : ℕ) → get_or (to_16bit fs) i 0 < nfreq_coarse_tot
unfolding to_16bit
freqs_in_range before [] h i = omega arith
freqs_in_range before (f ∷ fs) h zero = omega (arith, (freqs_error-cons before f fs h).0)
freqs_in_range before (f ∷ fs) h (suc i) =
    freqs_in_range (f ∷ before) fs (freqs_error-cons before f fs h).1 i

div-pos : (n d : ℕ) → 0 < n → n % d ≡ 0 → 0 < n / d
div-pos n d p e = elim (Bool-cases (leb 1 (n / d))) [
  | inl l ↦ leb→le 1 (n / d) l
  | inr l ↦
      let nothing : n / d ≡ 0 = omega (arith, leb→gt 1 (n / d) l) in
      let whole : n % d + d * 0 ≡ n = ap (λ q. n % d + d * q) (sym nothing) ∙ mod-add-div n d in
      absurd (omega arith)
]

exponent_small : (k : ℕ) → 2 ^ k ≤ 1024 → k ≤ 10
exponent_small k h = elim (Bool-cases (leb k 10)) [
  | inl l ↦ leb→le k 10 l
  | inr l ↦
      let big : 2 ^ 11 ≤ 2 ^ k = pow-le-pow_right (omega arith) (leb→gt k 10 l) in
      absurd (omega arith)
]

past_guards :
    (a b : Bool) (d e : Error) (o : Option Error)
    → (if a then some d else if b then some e else o) ≡ none
    → (b ≡ false) × (o ≡ none)
past_guards a b d e o h = ground arith

or_else-none : (a b : Option Error) → or_else a b ≡ none → (a ≡ none) × (b ≡ none)
or_else-none none b h = (refl, h)
or_else-none (some e) b h = cc

module _ (fl : Floats) (x : Initializer fl) where
  -- What the checks on the sizes say.
  record AreSizes : Type 0 where
    some_beams : 0 < length x.beam_ids
    beams_fit : length x.beam_ids < 2 ^ 16
    some_freqs : 0 < length x.coarse_freq_ids
    freqs_fit : length x.coarse_freq_ids < 2 ^ 16
    some_per_packet : 0 < pos_part x.nfreq_coarse_per_packet
    whole_freqs : length x.coarse_freq_ids % pos_part x.nfreq_coarse_per_packet ≡ 0
    some_chunk : 0 < pos_part x.nt_per_chunk
    some_samples : 0 < pos_part x.nt_per_packet
    samples_fit : pos_part x.nt_per_packet ≤ max_allowed_nt_per_packet
    samples_power : is_power_of_two (pos_part x.nt_per_packet) ≡ true
    whole_samples : pos_part x.nt_per_chunk % pos_part x.nt_per_packet ≡ 0
    some_upfreqs : 0 < pos_part x.nupfreq
    upfreqs_fit : pos_part x.nupfreq ≤ max_allowed_nupfreq
    some_counts : 0 < pos_part x.fpga_counts_per_sample
    counts_fit : pos_part x.fpga_counts_per_sample ≤ max_allowed_fpga_counts_per_sample

  sizes_error-AreSizes : sizes_error fl x ≡ none → AreSizes
  unfolding sizes_error
  sizes_error-AreSizes h = ground arith

  -- A part of the coarse channels is not more than all of them.
  per_packet-fits : AreSizes → pos_part x.nfreq_coarse_per_packet < 2 ^ 16
  per_packet-fits v =
      let n = length x.coarse_freq_ids in
      let w = pos_part x.nfreq_coarse_per_packet in
      let part = div-pos n w v.some_freqs v.whole_freqs in
      let whole = mod-add-div n w in
      let least : w ≤ w * (n / w) = grind arith in omega (arith, v.freqs_fit)

  packet_error-none :
      packet_error fl x ≡ none
      → packet_size
          (length x.beam_ids)
          (pos_part x.nfreq_coarse_per_packet)
          (pos_part x.nupfreq)
          (pos_part x.nt_per_packet)
        ≤ max_output_udp_packet_size
  unfolding packet_error
  packet_error-none h = ground arith

  ini_error-none :
      ini_error fl x ≡ none
      → (sizes_error fl x ≡ none)
        × (packet_error fl x ≡ none)
        × (freqs_error [] x.coarse_freq_ids ≡ none)
  unfolding ini_error
  ini_error-none h =
      let (fits, checked) =
        past_guards (eq_zero x.nfreq_coarse_per_packet || eq_zero x.nt_per_packet) (overflows fl x)
          _ _ _ h in
      let (sizes, rest) = or_else-none _ _ checked in
      let (packet, rest') = or_else-none _ _ rest in
      let (beams, rest'') = or_else-none _ _ rest' in
      let (freqs, rate) = or_else-none _ _ rest'' in (sizes, packet, freqs)

  overflows-false : ini_error fl x ≡ none → overflows fl x ≡ false
  unfolding ini_error
  overflows-false h =
      (past_guards (eq_zero x.nfreq_coarse_per_packet || eq_zero x.nt_per_packet) (overflows fl x) _
        _ _ h).0

  magnitude-pos : (i : ℤ) → 0 < pos_part i → magnitude i ≡ pos_part i
  magnitude-pos (pos n) h = omega arith
  magnitude-pos (negsuc n) h = absurd (omega arith)

  -- No product of `int`s overflows when the constructor does not object.
  ini_error-fits :
      ini_error fl x ≡ none
      → AreSizes
      → (pos_part x.nt_per_chunk < 2 ^ 31)
        × (packet_size
                (length x.beam_ids)
                (pos_part x.nfreq_coarse_per_packet)
                (pos_part x.nupfreq)
                (pos_part x.nt_per_packet)
              * (length x.coarse_freq_ids
                  / pos_part x.nfreq_coarse_per_packet
                  * (pos_part x.nt_per_chunk / pos_part x.nt_per_packet))
            < 2 ^ 31)
  unfolding overflows
  ini_error-fits h v =
      let e = overflows-false h in
      let e₁ = magnitude-pos x.nfreq_coarse_per_packet v.some_per_packet in
      let e₂ = magnitude-pos x.nupfreq v.some_upfreqs in
      let e₃ = magnitude-pos x.nt_per_packet v.some_samples in
      let e₄ = magnitude-pos x.nt_per_chunk v.some_chunk in rw⁻¹ (e₁, e₂, e₃, e₄) (ground arith)

  -- The sizes of the lists in the ring buffer are positive.
  has_packets : AreSizes → (0 < npackets_per_chunk fl x) × (0 < nbytes_per_chunk fl x)
  unfolding npackets_per_chunk nbytes_per_chunk packet_size header_size
  has_packets v =
      let rows =
        div-pos (length x.coarse_freq_ids) (pos_part x.nfreq_coarse_per_packet) v.some_freqs
          v.whole_freqs in
      let columns =
        div-pos (pos_part x.nt_per_chunk) (pos_part x.nt_per_packet) v.some_chunk v.whole_samples in
      let packets = mul-pos _ _ rows columns in (packets, mul-pos _ _ (omega arith) packets)

  new_sender-IsSender :
      (hostname : List ℕ) (port : ℕ) (u : UdpRing.Ring) (l : PacketList)
      → ini_error fl x ≡ none
      → (o : Sender fl) × (new_sender fl x hostname port (returns u) (returns l) ≡ returns o)
        × IsSender fl o
  unfolding new_sender nbytes_per_packet nf_outer nt_outer
  new_sender-IsSender hostname port u l h =
      let (sizes, packet, freqs) = ini_error-none h in
      let v = sizes_error-AreSizes sizes in
      let (chunk, bytes) = ini_error-fits h v in
      let (k, power) =
        power_of_two (pos_part x.nt_per_packet) v.samples_fit v.some_samples v.samples_power in
      (
        _,
        refl,
        record {
          beams = length-to_16bit x.beam_ids;
          beams_fit = v.beams_fit;
          beams_16bit = to_16bit-lt x.beam_ids;
          freqs = length-to_16bit x.coarse_freq_ids;
          freqs_16bit = freqs_in_range [] x.coarse_freq_ids freqs;
          per_packet_fit = per_packet-fits v;
          upfreqs_fit = v.upfreqs_fit;
          samples = (k, exponent_small k (omega (arith, v.samples_fit)), power);
          samples_fit = v.samples_fit;
          some_counts = v.some_counts;
          counts_fit = v.counts_fit;
          small = packet_error-none packet;
          chunk_fits = chunk;
          chunk_bytes_fit = bytes;
        },
      )

  construct-new_sender :
      (to_port : List ℕ → Option ℕ) (port : ℕ) (u : UdpRing.Ring) (l : PacketList)
      → ini_error fl x ≡ none
      → port_of to_port (split_name x.dstname).1 ≡ some port
      → UdpRing.make
          (pos output_ringbuf_capacity)
          (pos (npackets_per_chunk fl x))
          (pos (nbytes_per_chunk fl x))
        ≡ returns u
      → UdpList.make (pos (npackets_per_chunk fl x)) (pos (nbytes_per_chunk fl x)) ≡ returns l
      → construct fl x to_port
        ≡ new_sender fl x (split_name x.dstname).0 port (returns u) (returns l)
  unfolding construct checked_sender named_sender
  construct-new_sender to_port port u l h p ring list =
      ap (checked_sender fl x to_port) h
      ∙ ap (named_sender fl x (split_name x.dstname).0) p
      ∙ ap₂ (new_sender fl x (split_name x.dstname).0 port) ring list

  pub construct-IsSender :
      (to_port : List ℕ → Option ℕ) (port : ℕ)
      → ini_error fl x ≡ none
      → port_of to_port (split_name x.dstname).1 ≡ some port
      → (o : Sender fl) × (construct fl x to_port ≡ returns o) × IsSender fl o
  construct-IsSender to_port port h p =
      let (sizes, packet, freqs) = ini_error-none h in
      let (a, b) = has_packets (sizes_error-AreSizes sizes) in
      let (u, ring) =
        makes_ring (pos output_ringbuf_capacity) (pos (npackets_per_chunk fl x))
          (pos (nbytes_per_chunk fl x)) refl (ground arith) (ground arith) in
      let (l, list) =
        makes_list (pos (npackets_per_chunk fl x)) (pos (nbytes_per_chunk fl x)) (ground arith)
          (ground arith) in
      let (o, made, v) = new_sender-IsSender (split_name x.dstname).0 port u l h in
      (o, construct-new_sender to_port port u l h p ring list ∙ made, v)
