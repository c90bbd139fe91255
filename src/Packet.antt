-- ===== src/Packet.antt =====
-- intensity_packet.cpp and struct intensity_packet: UDP packets of intensities. A packet is its 24
-- header bytes and pointers into the receive buffer; a pointer is a distance from the buffer's start.
pub mod Checks
pub mod Encode
pub mod Sendable
pub mod Kept
pub mod RoundTrip
pub mod EncodeTests
pub mod Tests
use ch_frb_io.Base.{
  ℕ, zero, suc, ◌+◌, ◌-◌, ◌*◌, ◌%◌, ◌^◌, Bool, true, false, not, ◌||◌, Option, none, some, List,
  ltb, leb, ◌==◌, if◌then◌else◌, get_or, bit_and,
}
use ch_frb_io.Base.Bytes.{le_at}
use ch_frb_io.Constants.{max_input_udp_packet_size, max_allowed_nt_per_packet, nfreq_coarse_tot}

-- The header fields. `data_nbytes` is the bit pattern of an `int16_t`.
pub record Header : Type 0 where
  pub protocol_version : ℕ
  pub data_nbytes : ℕ
  pub fpga_counts_per_sample : ℕ
  pub fpga_count : ℕ
  pub nbeams : ℕ
  pub nfreq_coarse : ℕ
  pub nupfreq : ℕ
  pub ntsamp : ℕ

pub record Packet : Type 0 where
  pub header : Header
  pub open header use *
  pub src : List ℕ
  pub beam_ids : ℕ
  pub coarse_freq_ids : ℕ
  pub scales : ℕ
  pub offsets : ℕ
  pub bytes : ℕ

-- How `decode` ends: with a packet, with the answer that the packet is bad, or in undefined
-- behaviour (an integer division by zero).
pub data Decoded : Type 0 where
  good : Packet → Decoded
  bad : Decoded
  undefined : Decoded

-- header_size() and packet_size().
unfoldable pub header_size : ℕ → ℕ → ℕ
header_size nbeams nfreq_coarse = 24 + 2 * nbeams + 2 * nfreq_coarse + 8 * (nbeams * nfreq_coarse)

unfoldable pub packet_size : ℕ → ℕ → ℕ → ℕ → ℕ
unfolding header_size
packet_size nbeams nfreq_coarse nupfreq nt_per_packet =
    header_size nbeams nfreq_coarse + nbeams * nfreq_coarse * nupfreq * nt_per_packet

-- `memcpy(this, src, 24)` on a little-endian machine.
unfoldable pub read_header : List ℕ → Header
read_header src = record {
  protocol_version = le_at 4 src 0;
  data_nbytes = le_at 2 src 4;
  fpga_counts_per_sample = le_at 2 src 6;
  fpga_count = le_at 8 src 8;
  nbeams = le_at 2 src 16;
  nfreq_coarse = le_at 2 src 18;
  nupfreq = le_at 2 src 20;
  ntsamp = le_at 2 src 22;
}

-- `uint64_t(x)` for the bit pattern of an `int16_t`.
unfoldable pub sign_extend : ℕ → ℕ
sign_extend x = if ltb x (2 ^ 15) then x else x + (2 ^ 64 - 2 ^ 16)

-- The loop over `coarse_freq_ids`, with `n` ids left from offset `off` on.
unfoldable pub freq_ids_in_range : List ℕ → ℕ → ℕ → Bool
freq_ids_in_range src off zero = true
freq_ids_in_range src off (suc n) =
    if leb nfreq_coarse_tot (le_at 2 src off) then false else freq_ids_in_range src (off + 2) n

-- The part of `decode` behind the checks on single fields.
unfoldable pub decode_arrays : List ℕ → ℕ → Header → Decoded
unfolding sign_extend
decode_arrays src src_nbytes h =
    let n1 = h.nbeams in
    let n2 = h.nfreq_coarse in
    let nh = (24 + 2 * n1 + 2 * n2 + 8 * (n1 * n2)) % 2 ^ 64 in
    let nd = n1 * n2 * h.nupfreq * h.ntsamp % 2 ^ 64 in
    if not (src_nbytes == (nh + nd) % 2 ^ 64)
    then bad
    else if not (sign_extend h.data_nbytes == nd)
    then bad
    else if not (freq_ids_in_range src (24 + 2 * n1) n2)
    then bad
    else good (record {
      header = h;
      src = src;
      beam_ids = 24;
      coarse_freq_ids = 24 + 2 * n1;
      scales = 24 + 2 * n1 + 2 * n2;
      offsets = 24 + 2 * n1 + 2 * n2 + 4 * (n1 * n2);
      bytes = nh;
    })

-- `ntsamp & (ntsamp-1)` is computed in `int`; at 0 it is `0 & -1`, which is 0 as here.
unfoldable pub decode_fields : List ℕ → ℕ → Header → Decoded
decode_fields src src_nbytes h =
    if not (h.protocol_version == 1)
    then bad
    else if ltb max_allowed_nt_per_packet h.ntsamp || not (bit_and h.ntsamp (h.ntsamp - 1) == 0)
    then bad
    else if h.fpga_counts_per_sample == 0
    then bad
    else if h.fpga_counts_per_sample * h.ntsamp == 0
    then undefined
    else if not (h.fpga_count % (h.fpga_counts_per_sample * h.ntsamp) == 0)
    then bad
    else decode_arrays src src_nbytes h

unfoldable pub decode : List ℕ → ℕ → Decoded
decode src src_nbytes =
    if ltb src_nbytes 24
    then bad
    else if ltb max_input_udp_packet_size src_nbytes
    then bad
    else decode_fields src src_nbytes (read_header src)

-- Reads through the pointer fields.
unfoldable pub beam_id : Packet → ℕ → ℕ
beam_id p i = le_at 2 p.src (p.beam_ids + 2 * i)

unfoldable pub coarse_freq_id : Packet → ℕ → ℕ
coarse_freq_id p i = le_at 2 p.src (p.coarse_freq_ids + 2 * i)

-- The loop of `find_coarse_freq_id`, with `n` entries left from index `i` on; `none` is -1.
find_from : Packet → ℕ → ℕ → ℕ → Option ℕ
unfolding coarse_freq_id
find_from p id i zero = none
find_from p id i (suc n) =
    let rest = find_from p id (i + 1) n in if coarse_freq_id p i == id then some i else rest

unfoldable pub find_coarse_freq_id : Packet → ℕ → Option ℕ
unfolding find_from
find_coarse_freq_id p id = find_from p id 0 p.nfreq_coarse
