-- ===== src/ChunkRing/Part.antt =====
-- The chunks of a level: their fields, and that a chunk which `_put_assembled_chunk` makes for the
-- next level has those of that level.
use ch_frb_io.Base.{
  ℕ, ◌+◌, ◌*◌, ◌%◌, ◌^◌, ◌<◌, ◌≡◌, refl, sym, ap, subst, ◌∙◌, Bool, true, false, none, some, arith,
}
use ch_frb_io.Constants.{nt_per_assembled_chunk}
use ch_frb_io.Outcome.{Result, returns, fails}
use ch_frb_io.Chunk.{Chunk, Arrays, Initializer, make, construct, fresh, first_bad}
use ch_frb_io.Chunk.Downsample.{downsample, downsampled}
use ch_frb_io.ChunkRing.{Config, Env, Ring, chunk_params, make_assembled_chunk}
use ch_frb_io.ChunkRing.Put.{merge, join_chunks}

-- A chunk of the beam at level `ids`. The bound keeps sample counts from wrapping.
pub record IsPart (cfg : Config) (beam ids : ℕ) (c : Chunk) : Type 0 where
  pub beam_lem : c.beam_id ≡ beam
  pub upfreq : c.nupfreq ≡ cfg.nupfreq
  pub rfi : c.nrfifreq ≡ cfg.nrfifreq
  pub samples : c.nt_per_packet ≡ cfg.nt_per_packet
  pub counts : c.fpga_counts_per_sample ≡ cfg.fpga_counts_per_sample
  pub bin : c.binning ≡ 2 ^ ids
  pub start : c.isample ≡ c.ichunk * nt_per_assembled_chunk % 2 ^ 64
  pub mask : 0 < cfg.nrfifreq → 0 < ids → c.has_rfi_mask ≡ true

-- What `assembled_chunk::make` returns is the chunk that the constructor sets up, from arguments that
-- pass the checks.
pub make-eq-fresh :
    (avx2 : Bool) (i : Initializer) (c : Chunk)
    → make avx2 i ≡ returns c
    → (c ≡ fresh i) × (first_bad i ≡ none)
unfolding make construct
make-eq-fresh avx2 i c e = ground arith

pub make_assembled_chunk-eq-fresh :
    (env : Env) (r : Ring) (ichunk binning : ℕ) (c : Chunk)
    → make_assembled_chunk env r ichunk binning ≡ returns c
    → (c ≡ fresh (chunk_params r ichunk binning))
      × (first_bad (chunk_params r ichunk binning) ≡ none)
unfolding make_assembled_chunk
make_assembled_chunk-eq-fresh env r ichunk binning c e =
    ground (arith, make-eq-fresh env.avx2 (chunk_params r ichunk binning) c)

-- A chunk that `_make_assembled_chunk` returns has the parameters of the ring buffer.
pub make_assembled_chunk-IsPart :
    (env : Env) (r : Ring) (ichunk ids : ℕ) (c : Chunk)
    → make_assembled_chunk env r ichunk (2 ^ ids) ≡ returns c
    → (c.beam_id ≡ r.beam_id)
      × (c.nupfreq ≡ r.nupfreq)
      × (c.nrfifreq ≡ r.nrfifreq)
      × (c.nt_per_packet ≡ r.nt_per_packet)
      × (c.fpga_counts_per_sample ≡ r.fpga_counts_per_sample)
      × (c.binning ≡ 2 ^ ids)
      × (c.isample ≡ ichunk * nt_per_assembled_chunk % 2 ^ 64)
      × (c.ichunk ≡ ichunk)
      × (c.has_rfi_mask ≡ false)
unfolding fresh chunk_params
make_assembled_chunk-IsPart env r ichunk ids c e =
    let (q, _) = make_assembled_chunk-eq-fresh env r ichunk (2 ^ ids) c e in ground arith

downsample-eq :
    (k : Chunk → Arrays → Arrays → Arrays) (dst a b c : Chunk)
    → downsample k dst a b ≡ returns c
    → c ≡ downsampled k dst a b
unfolding downsample
downsample-eq k dst a b c e = ground arith

downsampled-IsPart :
    (cfg : Config) (beam ids : ℕ) (k : Chunk → Arrays → Arrays → Arrays) (dst a b : Chunk)
    → dst.beam_id ≡ beam
    → dst.nupfreq ≡ cfg.nupfreq
    → dst.nrfifreq ≡ cfg.nrfifreq
    → dst.nt_per_packet ≡ cfg.nt_per_packet
    → dst.fpga_counts_per_sample ≡ cfg.fpga_counts_per_sample
    → dst.binning ≡ 2 ^ ids
    → dst.isample ≡ dst.ichunk * nt_per_assembled_chunk % 2 ^ 64
    → IsPart cfg beam ids (downsampled k dst a b) × ((downsampled k dst a b).ichunk ≡ dst.ichunk)
unfolding downsampled
downsampled-IsPart cfg beam ids k dst a b e1 e2 e3 e4 e5 e6 e7 = ground arith

join_chunks-eq :
    (env : Env) (r : Ring) (ids : ℕ) (x y : Chunk) (m : Result Chunk) (c : Chunk)
    → join_chunks env r ids x y m ≡ returns c
    → (blank : Chunk) × (m ≡ returns blank) × (c ≡ downsampled env.kernel blank x y)
unfolding join_chunks
join_chunks-eq env r ids x y (fails e) c q = cc
join_chunks-eq env r ids x y (returns blank) c q =
    (blank, refl, downsample-eq env.kernel blank x y c q)

merge-join :
    (env : Env) (r : Ring) (ids : ℕ) (x y a b c : Chunk)
    → merge env r ids (some x) (some y) ≡ returns (a, b, c)
    → (a ≡ x)
      × (b ≡ y)
      × (join_chunks env r ids x y (make_assembled_chunk env r x.ichunk (2 ^ (ids + 1)))
          ≡ returns c)
unfolding merge
merge-join env r ids x y a b c e = ground arith

-- The chunk for the next level, where `_put_assembled_chunk` makes one: it starts with the older of
-- the two chunks, is twice as long, and has the parameters of the ring buffer.
pub merge-IsPart :
    (env : Env) (r : Ring) (ids : ℕ) (x y a b c : Chunk)
    → merge env r ids (some x) (some y) ≡ returns (a, b, c)
    → (a ≡ x) × (b ≡ y) × IsPart r.config r.beam_id (ids + 1) c × (c.ichunk ≡ x.ichunk)
merge-IsPart env r ids x y a b c e =
    let (p, q, j) = merge-join env r ids x y a b c e in
    let (blank, m, d) =
      join_chunks-eq env r ids x y (make_assembled_chunk env r x.ichunk (2 ^ (ids + 1))) c j in
    let (f1, f2, f3, f4, f5, f6, f7, f8, f9) =
      make_assembled_chunk-IsPart env r x.ichunk (ids + 1) blank m in
    let (w, i) =
      downsampled-IsPart r.config r.beam_id (ids + 1) env.kernel blank x y f1 f2 f3 f4 f5 f6
        (f7 ∙ ap (λ t. t * nt_per_assembled_chunk % 2 ^ 64) (sym f8)) in
    (
      p,
      q,
      subst (IsPart r.config r.beam_id (ids + 1)) (sym d) w,
      ap (λ (t : Chunk). t.ichunk) d ∙ i ∙ f8,
    )
