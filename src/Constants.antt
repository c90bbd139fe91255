-- ===== src/Constants.antt =====
-- namespace constants of ch_frb_io.hpp.
use ch_frb_io.Base.{ℕ}

abbrev pub nfreq_coarse_tot : ℕ
nfreq_coarse_tot = 1024

abbrev pub nt_per_assembled_chunk : ℕ
nt_per_assembled_chunk = 1024

abbrev pub max_input_udp_packet_size : ℕ
max_input_udp_packet_size = 9000

abbrev pub max_allowed_beam_id : ℕ
max_allowed_beam_id = 65535

abbrev pub max_allowed_nupfreq : ℕ
max_allowed_nupfreq = 64

abbrev pub max_allowed_nt_per_packet : ℕ
max_allowed_nt_per_packet = 1024

abbrev pub max_allowed_fpga_counts_per_sample : ℕ
max_allowed_fpga_counts_per_sample = 3200

abbrev pub max_output_udp_packet_size : ℕ
max_output_udp_packet_size = 8910

abbrev pub default_udp_port : ℕ
default_udp_port = 6677

abbrev pub output_ringbuf_capacity : ℕ
output_ringbuf_capacity = 8
