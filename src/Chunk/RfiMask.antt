-- ===== src/Chunk/RfiMask.antt =====
-- `ds_slow_kernel_rfimask` of assembled_chunk.cpp: an RFI mask with half as many time samples.
use Prim.Native.Nat.{bit_or}
use ch_frb_io.Base.{
  Bool, ℕ, zero, suc, ◌+◌, ◌*◌, ◌/◌, ◌%◌, ◌^◌, List, ◌==◌, if◌then◌else◌, get_or, set, replicate,
  slice, copy_to, bit_and,
}
use ch_frb_io.Constants.{nt_per_assembled_chunk}

-- The two adjacent bits of the source that make one bit of the target are both set.
unfoldable pub both_set : List ℕ → ℕ → Bool
both_set src i =
    let bsrc = 2 * i % 8 in
    let y = bit_or (2 ^ bsrc) (2 ^ (bsrc + 1)) in bit_and (get_or src (2 * i / 8) 0) y == y

-- The loop over the target's bits, from bit `i` on with `n` to go.
unfoldable pub mask_from : List ℕ → ℕ → ℕ → List ℕ → List ℕ
unfolding both_set
mask_from src zero i dst = dst
mask_from src (suc n) i dst =
    mask_from src n (i + 1) (
      if both_set src i then set dst (i / 8) (bit_or (get_or dst (i / 8) 0) (2 ^ (i % 8))) else dst)

-- The kernel: reads `nbits_in` bits, gives half as many.
unfoldable pub halve_mask : List ℕ → ℕ → List ℕ
unfolding mask_from
halve_mask src nbits_in = mask_from src (nbits_in / 2) 0 (replicate (nbits_in / 16) 0)

-- The loop of `downsample` over the mask's rows: a row holds the halved rows of both sources.
unfoldable pub halve_rows : List ℕ → List ℕ → ℕ → ℕ → List ℕ → List ℕ
halve_rows src1 src2 zero ifreq dst = dst
halve_rows src1 src2 (suc n) ifreq dst =
    let nt_f = nt_per_assembled_chunk in
    let row = ifreq * (nt_f / 8) in
    let left = halve_mask (slice src1 row (nt_f / 8)) nt_f in
    let right = halve_mask (slice src2 row (nt_f / 8)) nt_f in
    halve_rows src1 src2 n (ifreq + 1) (copy_to (copy_to dst row left) (row + nt_f / 16) right)
