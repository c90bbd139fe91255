-- ===== src/Chunk/Downsample.antt =====
-- `assembled_chunk::downsample` and the checks that it makes first.
use ch_frb_io.Base.{
  ℕ, ◌+◌, ◌*◌, ◌%◌, ◌^◌, Bool, true, not, ◌||◌, ◌&&◌, Option, none, some, ltb, ◌==◌, if◌then◌else◌,
}
use ch_frb_io.Outcome.{
  Error, Result, returns, fails, rfi_mask_already_set, rfi_mask_not_ready, chunk_mismatch,
}
use ch_frb_io.Chunk.{Arrays, Chunk}
use ch_frb_io.Chunk.RfiMask.{halve_rows}

-- equal3()
abbrev pub equal3 : ℕ → ℕ → ℕ → Bool
equal3 x y z = x == y && y == z

-- _check_downsample(): the first check that fails. The pointers are not null here, nor are the mask
-- pointers of chunks with `nrfifreq` above 0.
unfoldable pub check_downsample : Chunk → Chunk → Chunk → Option Error
check_downsample dst src1 src2 =
    if dst.has_rfi_mask
    then some rfi_mask_already_set
    else if not (src1.binning == src2.binning)
    then some chunk_mismatch
    else if not (src2.ichunk == (src1.ichunk + src2.binning) % 2 ^ 64)
    then some chunk_mismatch
    else if not (dst.binning == 2 * src1.binning)
    then some chunk_mismatch
    else if not (dst.ichunk == src1.ichunk)
    then some chunk_mismatch
    else if not (equal3 dst.beam_id src1.beam_id src2.beam_id)
    then some chunk_mismatch
    else if not (equal3 dst.nupfreq src1.nupfreq src2.nupfreq)
    then some chunk_mismatch
    else if not (equal3 dst.nrfifreq src1.nrfifreq src2.nrfifreq)
    then some chunk_mismatch
    else if not (equal3 dst.nt_per_packet src1.nt_per_packet src2.nt_per_packet)
    then some chunk_mismatch
    else if ltb 0 dst.nrfifreq && (not src1.has_rfi_mask || not src2.has_rfi_mask)
    then some rfi_mask_not_ready
    else none

-- The target after `downsample`, where the checks pass. `kernel` stands for the floating-point
-- kernels that halve the intensities.
unfoldable pub downsampled : (Chunk → Arrays → Arrays → Arrays) → Chunk → Chunk → Chunk → Chunk
downsampled kernel dst src1 src2 =
    let merged = record dst { arrays = kernel dst src1.arrays src2.arrays } in
    if ltb 0 dst.nrfifreq
    then record merged {
      rfi_mask = halve_rows src1.rfi_mask src2.rfi_mask dst.nrfifreq 0 dst.rfi_mask;
      has_rfi_mask = true;
    }
    else merged

unfoldable pub downsample :
    (Chunk → Arrays → Arrays → Arrays) → Chunk → Chunk → Chunk → Result Chunk
downsample kernel dst src1 src2 = elim (check_downsample dst src1 src2) [
  | some e ↦ fails e
  | none ↦ returns (downsampled kernel dst src1 src2)
]
