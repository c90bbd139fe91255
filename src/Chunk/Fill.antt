-- ===== src/Chunk/Fill.antt =====
-- `assembled_chunk::add_packet`: a packet's arrays go to their places in the chunk.
use ch_frb_io.Base.{
  ℕ, zero, suc, ◌+◌, ◌-◌, ◌*◌, ◌/◌, ◌%◌, ◌^◌, List, Bool, not, ◌||◌, ltb, ◌==◌, if◌then◌else◌, set,
  slice, copy_to,
}
use ch_frb_io.Base.Bytes.{le_at}
use ch_frb_io.Constants.{nt_per_assembled_chunk}
use ch_frb_io.Outcome.{Result, returns, fails, bad_packet}
use ch_frb_io.Packet.{Packet, beam_id, coarse_freq_id}
use ch_frb_io.Chunk.{Arrays, Chunk}
use ch_frb_io.Chunk.Layout.{nt_c}

-- The inner loop: the samples of fine channel `u` and its `n - 1` successors in coarse channel `f`.
unfoldable pub copy_rows : Packet → ℕ → ℕ → ℕ → ℕ → ℕ → List ℕ → List ℕ
copy_rows packet nupfreq nt f t0 zero rows = rows
copy_rows packet nupfreq nt f t0 (suc n) rows =
    let u = nupfreq - suc n in
    copy_rows packet nupfreq nt f t0 n (
      copy_to rows ((coarse_freq_id packet f * nupfreq + u) * nt_per_assembled_chunk + t0)
        (slice packet.src (packet.bytes + (f * nupfreq + u) * nt) nt))

-- The outer loop, over `n` coarse channels from `f` on.
unfoldable pub copy_channels : Packet → ℕ → ℕ → ℕ → ℕ → ℕ → Arrays → Arrays
copy_channels packet nupfreq nt t0 f zero a = a
copy_channels packet nupfreq nt t0 f (suc n) a =
    let i = coarse_freq_id packet f * nt_c nt + t0 / nt in
    copy_channels packet nupfreq nt t0 (f + 1) n (record {
      intensities = copy_rows packet nupfreq nt f t0 nupfreq a.intensities;
      scales = set a.scales i (le_at 4 packet.src (packet.scales + 4 * f));
      offsets = set a.offsets i (le_at 4 packet.src (packet.offsets + 4 * f));
    })

-- The test for a packet that does not belong to the chunk.
unfoldable pub is_foreign : Packet → Chunk → Bool
is_foreign packet c =
    let packet_t0 = packet.fpga_count / c.fpga_counts_per_sample in
    not (packet.nbeams == 1)
    || not (packet.nupfreq == c.nupfreq)
    || not (packet.ntsamp == c.nt_per_packet)
    || not (packet.fpga_counts_per_sample == c.fpga_counts_per_sample)
    || not (packet.fpga_count % (c.fpga_counts_per_sample * c.nt_per_packet) == 0)
    || not (beam_id packet 0 == c.beam_id)
    || ltb packet_t0 c.isample
    || ltb ((c.isample + nt_per_assembled_chunk) % 2 ^ 64) ((packet_t0 + c.nt_per_packet) % 2 ^ 64)

unfoldable pub add_packet : Packet → Chunk → Result Chunk
add_packet packet c =
    if is_foreign packet c
    then fails bad_packet
    else let t0 = packet.fpga_count / c.fpga_counts_per_sample - c.isample in
      returns (record c {
        arrays = copy_channels packet c.nupfreq c.nt_per_packet t0 0 packet.nfreq_coarse c.arrays;
        packets_received = c.packets_received + 1;
      })
