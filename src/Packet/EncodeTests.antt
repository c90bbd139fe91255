-- ===== src/Packet/EncodeTests.antt =====
-- Runs of `intensity_packet::encode` on whole numbers in place of `float`, and the round trip at a
-- concrete packet.
use ch_frb_io.Base.{
  ℕ, zero, suc, ◌+◌, ◌-◌, ◌*◌, ◌/◌, ◌<◌, ◌≤◌, ◌≡◌, refl, min, max, List, [], ◌∷◌, leb, ◌==◌, get_or,
  drop, take, replicate, arith,
}
use ch_frb_io.Packet.{good, packet_size, header_size, decode}
use ch_frb_io.Packet.Checks.{laid_out}
use ch_frb_io.Packet.Encode.{
  Floats, Samples, Outgoing, encode, header_bytes, id_bytes, put_head, encode_channel, moments,
  sub_int, sub_mask, quantise, put_samples, put_scale_offset, scale_offset, scales_start,
  offsets_start, data_start,
}
use ch_frb_io.Packet.Sendable.{IsHeader, IsSendable}
use ch_frb_io.Packet.RoundTrip.{read_ids, decode-encode}

-- Whole numbers, with the operations of ℕ.
abbrev pub whole : Floats
whole = record {
  Single = ℕ;
  Double = ℕ;
  zero_f = 0;
  one_f = 1;
  max_f = max;
  min_f = min;
  add_f = λ a b. a + b;
  sub_f = λ a b. a - b;
  mul_f = λ a b. a * b;
  div_f = λ a b. a / b;
  sqrt_f = λ a. a;
  ge_f = λ a b. leb b a;
  le_zero = λ a. a == 0;
  regulator = 0;
  byte_max = 255;
  d_25 = 1;
  d_minus_128 = 0;
  d_half = 0;
  add_d = λ a b. a + b;
  mul_d = λ a b. a * b;
  div_d = λ a b. a / b;
  to_double = λ a. a;
  to_single = λ a. a;
  to_uint8 = λ a. a;
  bits = λ a. a;
}

-- Two samples, 10 and 20, both with enough weight.
abbrev two_samples : Samples whole
two_samples = record {
  intensity = λ i. 10 * (i + 1);
  beam_istride = 2;
  freq_istride = 2;
  weights = λ i. 1;
  beam_wstride = 2;
  freq_wstride = 2;
  wt_cutoff = 1;
}

abbrev one_channel : Outgoing
one_channel = record {
  header = record {
    protocol_version = 1;
    data_nbytes = 2;
    fpga_counts_per_sample = 3;
    fpga_count = 12;
    nbeams = 1;
    nfreq_coarse = 1;
    nupfreq = 1;
    ntsamp = 2;
  };
  beam_ids = 77 ∷ [];
  coarse_freq_ids = 1000 ∷ [];
}

abbrev blank : List ℕ
blank = replicate 40 0

-- The scale is the variance 25, the offset the mean 15; 10 is below the mean and clipped to 0.
encode-whole :
    drop 24 (take 38 (encode whole two_samples one_channel blank).0)
    ≡ 77 ∷ 0 ∷ 232 ∷ 3 ∷ 25 ∷ 0 ∷ 0 ∷ 0 ∷ 15 ∷ 0 ∷ 0 ∷ 0 ∷ 0 ∷ 0 ∷ []
unfolding encode put_head header_bytes id_bytes encode_channel moments sub_int sub_mask quantise
    put_samples put_scale_offset scale_offset scales_start offsets_start data_start
encode-whole = refl

one_channel-IsHeader : IsHeader one_channel.header
unfolding packet_size header_size
one_channel-IsHeader = record {
  version = refl;
  beams_fit = omega arith;
  freqs_fit = omega arith;
  upfreqs_fit = omega arith;
  counts_fit = omega arith;
  count_fits = omega arith;
  some_counts = omega arith;
  samples = (1, omega arith, refl);
  aligned = refl;
  data_size = refl;
  small = omega arith;
}

one_channel-IsSendable : IsSendable one_channel
one_channel-IsSendable = record {
  is_header = one_channel-IsHeader;
  beams = refl;
  freqs = refl;
  beams_in_range = small_beam;
  freqs_in_range = small_freq;
}
  where
    small_beam : (i : ℕ) → get_or (77 ∷ []) i 0 < 65536
    small_beam zero = omega arith
    small_beam (suc i) = omega arith

    small_freq : (i : ℕ) → get_or (1000 ∷ []) i 0 < 1024
    small_freq zero = omega arith
    small_freq (suc i) = omega arith

blank_room : packet_size 1 1 1 2 ≤ 40
unfolding packet_size header_size
blank_room = omega arith

decode-encode_example :
    ((encode whole two_samples one_channel blank).1 ≡ packet_size 1 1 1 2)
    × (decode
          (encode whole two_samples one_channel blank).0
          (encode whole two_samples one_channel blank).1
        ≡ good (laid_out (encode whole two_samples one_channel blank).0 one_channel.header))
    × (read_ids (encode whole two_samples one_channel blank).0 24 1 ≡ 77 ∷ [])
    × (read_ids (encode whole two_samples one_channel blank).0 26 1 ≡ 1000 ∷ [])
decode-encode_example =
    decode-encode whole two_samples one_channel blank one_channel-IsSendable blank_room
