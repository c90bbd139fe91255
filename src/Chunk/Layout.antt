-- ===== src/Chunk/Layout.antt =====
-- `memory_slab_layout`: where the arrays of a chunk stand in its slab.
use ch_frb_io.Base.{ℕ, ◌+◌, ◌*◌, ◌/◌, ◌%◌, ◌≤◌, ◌≡◌, refl, arith}
use ch_frb_io.Constants.{nfreq_coarse_tot, nt_per_assembled_chunk}

-- align(): up to the next multiple of 64.
unfoldable pub align : ℕ → ℕ
align nbytes = (nbytes + 63) / 64 * 64

-- _nt_c(), where it does not throw.
abbrev pub nt_c : ℕ → ℕ
nt_c nt_per_packet = nt_per_assembled_chunk / nt_per_packet

-- Sizes in bytes (`nb_`) and offsets in bytes (`ib_`) of the arrays.
pub record SlabLayout : Type 0 where
  pub nb_data : ℕ
  pub nb_scales : ℕ
  pub nb_offsets : ℕ
  pub nb_rfimask : ℕ
  pub nb_ds_data : ℕ
  pub nb_ds_mask : ℕ
  pub nb_ds_w2 : ℕ
  pub ib_data : ℕ
  pub ib_scales : ℕ
  pub ib_offsets : ℕ
  pub ib_rfimask : ℕ
  pub ib_ds_data : ℕ
  pub ib_ds_mask : ℕ
  pub ib_ds_w2 : ℕ
  pub size : ℕ

-- The offsets, from the sizes.
unfoldable pub lay_out : ℕ → ℕ → ℕ → ℕ → ℕ → ℕ → ℕ → SlabLayout
lay_out d s o r dd dm w =
    let ib_scales = align (0 + d) in
    let ib_offsets = align (ib_scales + s) in
    let ib_rfimask = align (ib_offsets + o) in
    let ib_ds_data = align (ib_rfimask + r) in
    let ib_ds_mask = align (ib_ds_data + dd) in
    let ib_ds_w2 = align (ib_ds_mask + dm) in
    record {
      nb_data = d;
      nb_scales = s;
      nb_offsets = o;
      nb_rfimask = r;
      nb_ds_data = dd;
      nb_ds_mask = dm;
      nb_ds_w2 = w;
      ib_data = 0;
      ib_scales = ib_scales;
      ib_offsets = ib_offsets;
      ib_rfimask = ib_rfimask;
      ib_ds_data = ib_ds_data;
      ib_ds_mask = ib_ds_mask;
      ib_ds_w2 = ib_ds_w2;
      size = align (ib_ds_w2 + w);
    }

-- The constructor of `memory_slab_layout`; a float and an `int` have four bytes.
unfoldable pub slab_layout : ℕ → ℕ → ℕ → SlabLayout
slab_layout nupfreq nt_per_packet nrfifreq =
    let nt_f = nt_per_assembled_chunk in
    let nscales = nfreq_coarse_tot * nt_c nt_per_packet in
    lay_out (nfreq_coarse_tot * nupfreq * nt_f) (nscales * 4) (nscales * 4) (nrfifreq * nt_f / 8)
      (nupfreq * (nt_f / 2) * 4) (nupfreq * (nt_f / 2) * 4) (nt_c nt_per_packet / 2 * 4)

-- get_memory_slab_size(), where it does not throw.
unfoldable pub slab_size : ℕ → ℕ → ℕ → ℕ
slab_size nupfreq nt_per_packet nrfifreq = (slab_layout nupfreq nt_per_packet nrfifreq).size

-- The arrays follow one another without overlap, each starts on a cache line, and the slab holds them.
pub record IsPacked (l : SlabLayout) : Type 0 where
  pub scales_after : l.ib_data + l.nb_data ≤ l.ib_scales
  pub offsets_after : l.ib_scales + l.nb_scales ≤ l.ib_offsets
  pub rfimask_after : l.ib_offsets + l.nb_offsets ≤ l.ib_rfimask
  pub ds_data_after : l.ib_rfimask + l.nb_rfimask ≤ l.ib_ds_data
  pub ds_mask_after : l.ib_ds_data + l.nb_ds_data ≤ l.ib_ds_mask
  pub ds_w2_after : l.ib_ds_mask + l.nb_ds_mask ≤ l.ib_ds_w2
  pub end_after : l.ib_ds_w2 + l.nb_ds_w2 ≤ l.size
  pub scales_aligned : l.ib_scales % 64 ≡ 0
  pub offsets_aligned : l.ib_offsets % 64 ≡ 0
  pub rfimask_aligned : l.ib_rfimask % 64 ≡ 0
  pub ds_data_aligned : l.ib_ds_data % 64 ≡ 0
  pub ds_mask_aligned : l.ib_ds_mask % 64 ≡ 0
  pub ds_w2_aligned : l.ib_ds_w2 % 64 ≡ 0
  pub size_aligned : l.size % 64 ≡ 0

align_lem : (n : ℕ) → (n ≤ align n) × (align n % 64 ≡ 0)
unfolding align
align_lem n = omega arith

lay_out-IsPacked : (d s o r dd dm w : ℕ) → IsPacked (lay_out d s o r dd dm w)
unfolding lay_out
lay_out-IsPacked d s o r dd dm w = omega (arith, align_lem)

-- The room of each array is that of its elements: a byte for a sample, four bytes for a float or an
-- `int`, and a bit for an element of the RFI mask. There is a scale and an offset for each coarse channel
-- and packet, and the arrays for downsampling have half as many samples as the chunk.
pub record HasRoomForArrays (nupfreq nt_per_packet nrfifreq : ℕ) (l : SlabLayout) : Type 0 where
  pub data_room : l.nb_data ≡ nfreq_coarse_tot * nupfreq * nt_per_assembled_chunk
  pub scales_room : l.nb_scales ≡ 4 * (nfreq_coarse_tot * (nt_per_assembled_chunk / nt_per_packet))
  pub offsets_room :
      l.nb_offsets ≡ 4 * (nfreq_coarse_tot * (nt_per_assembled_chunk / nt_per_packet))
  pub rfimask_room : 8 * l.nb_rfimask ≡ nrfifreq * nt_per_assembled_chunk
  pub ds_data_room : 2 * l.nb_ds_data ≡ 4 * (nupfreq * nt_per_assembled_chunk)
  pub ds_mask_room : 2 * l.nb_ds_mask ≡ 4 * (nupfreq * nt_per_assembled_chunk)
  pub ds_w2_room : l.nb_ds_w2 ≡ 4 * (nt_per_assembled_chunk / nt_per_packet / 2)

-- For every geometry each array of a chunk has the room that its elements need, the arrays follow one
-- another in the slab without overlap, each from an offset that is a multiple of the cache line, and the
-- slab size that is asked for holds them all.
pub slab_layout-IsPacked :
    (nupfreq nt_per_packet nrfifreq : ℕ)
    → let l = slab_layout nupfreq nt_per_packet nrfifreq in
      IsPacked l × HasRoomForArrays nupfreq nt_per_packet nrfifreq l
unfolding slab_layout lay_out
slab_layout-IsPacked nupfreq nt_per_packet nrfifreq = (
  lay_out-IsPacked _ _ _ _ _ _ _,
  record {
    data_room = refl;
    scales_room = omega arith;
    offsets_room = omega arith;
    rfimask_room = omega arith;
    ds_data_room = omega arith;
    ds_mask_room = omega arith;
    ds_w2_room = omega arith;
  },
)
