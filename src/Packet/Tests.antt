-- ===== src/Packet/Tests.antt =====
-- Runs of `intensity_packet::decode`, and the theorems at concrete packets.
use ch_frb_io.Base.{ℕ, ◌≡◌, ◌≤◌, ◌<◌, ◌↔◌, refl, some, List, [], ◌∷◌, ◌++◌, arith}
use ch_frb_io.Base.Bytes.{to_le, IsBytes, AllBytes-IsBytes}
use ch_frb_io.Constants.{max_input_udp_packet_size}
use ch_frb_io.Packet.{
  Packet, good, bad, undefined, read_header, decode, decode_fields, decode_arrays,
  freq_ids_in_range, find_coarse_freq_id,
}
use ch_frb_io.Packet.Checks.{IsChecked, decode-IsChecked, decode-undefined}

-- Version 1, one beam, one coarse channel, one fine channel and two samples.
abbrev small : List ℕ
small =
    to_le 4 1
    ++ (to_le 2 2
        ++ (to_le 2 3
            ++ (to_le 8 12
                ++ (to_le 2 1
                    ++ (to_le 2 1
                        ++ (to_le 2 1
                            ++ (to_le 2 2
                                ++ (to_le 2 77
                                    ++ (to_le 2 1000
                                        ++ (to_le 4 5 ++ (to_le 4 6 ++ (8 ∷ 9 ∷ []))))))))))))

abbrev small_packet : Packet
small_packet = record {
  header = record {
    protocol_version = 1;
    data_nbytes = 2;
    fpga_counts_per_sample = 3;
    fpga_count = 12;
    nbeams = 1;
    nfreq_coarse = 1;
    nupfreq = 1;
    ntsamp = 2;
  };
  src = small;
  beam_ids = 24;
  coarse_freq_ids = 26;
  scales = 28;
  offsets = 32;
  bytes = 36;
}

decode_small : decode small 38 ≡ good small_packet
unfolding decode decode_fields decode_arrays read_header freq_ids_in_range
decode_small = refl

decode_short : decode small 37 ≡ bad
unfolding decode decode_fields decode_arrays read_header freq_ids_in_range
decode_short = refl

find_in_small : find_coarse_freq_id small_packet 1000 ≡ some 0
unfolding find_coarse_freq_id
find_in_small = refl

small-IsBytes : IsBytes small
small-IsBytes = AllBytes-IsBytes small (omega arith)

decode-IsChecked_example :
    IsChecked small_packet 38
    × (small_packet.header ≡ read_header small)
    × (small_packet.src ≡ small)
    × (38 ≤ max_input_udp_packet_size)
decode-IsChecked_example = decode-IsChecked small 38 small_packet small-IsBytes decode_small

-- The header of `small` with no samples.
abbrev no_samples : List ℕ
no_samples =
    to_le 4 1
    ++ (to_le 2 0
        ++ (to_le 2 3
            ++ (to_le 8 12
                ++ (to_le 2 1 ++ (to_le 2 1 ++ (to_le 2 1 ++ (to_le 2 0 ++ (0 ∷ []))))))))

decode-no_samples : decode no_samples 25 ≡ undefined
unfolding decode decode_fields read_header
decode-no_samples = refl

decode-undefined_example : (decode no_samples 25 ≡ undefined) ↔ (
    (24 ≤ 25)
    × (25 ≤ max_input_udp_packet_size)
    × ((read_header no_samples).protocol_version ≡ 1)
    × (0 < (read_header no_samples).fpga_counts_per_sample)
    × ((read_header no_samples).ntsamp ≡ 0))
decode-undefined_example = decode-undefined no_samples 25
