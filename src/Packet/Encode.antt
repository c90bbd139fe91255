-- ===== src/Packet/Encode.antt =====
-- intensity_packet::encode: an array of intensities and weights, quantised into the bytes of a packet.
-- The floating-point arithmetic of the machine is a parameter. Strides are not negative, and the sizes
-- fit in an `int`.
use ch_frb_io.Base.{ℕ, ◌+◌, ◌*◌, Bool, List, [], ◌∷◌, ◌++◌, take, replicate, copy_to, if◌then◌else◌}
use ch_frb_io.Base.Bytes.{to_le}
use ch_frb_io.Base.Loops.{for_below}
use ch_frb_io.Packet.{Header}

-- `float` and `double`, with the operations that `encode` uses.
pub record Floats : Type 1 where
  pub Single : Type 0
  pub Double : Type 0
  pub zero_f : Single
  pub one_f : Single
  pub max_f : Single → Single → Single
  pub min_f : Single → Single → Single
  pub add_f : Single → Single → Single
  pub sub_f : Single → Single → Single
  pub mul_f : Single → Single → Single
  pub div_f : Single → Single → Single
  pub sqrt_f : Single → Single
  -- `a >= b`, and `a <= 0.0`.
  pub ge_f : Single → Single → Bool
  pub le_zero : Single → Bool
  -- The literals 1.0e-5 and 255. as `float`; 25., -128. and 0.5 as `double`.
  pub regulator : Single
  pub byte_max : Single
  pub d_25 : Double
  pub d_minus_128 : Double
  pub d_half : Double
  pub add_d : Double → Double → Double
  pub mul_d : Double → Double → Double
  pub div_d : Double → Double → Double
  pub to_double : Single → Double
  pub to_single : Double → Single
  -- The conversion `uint8_t(x)`, and the four bytes of a `float` as a number.
  pub to_uint8 : Double → ℕ
  pub bits : Single → ℕ

-- The arguments of `encode` but for the buffer; an array is a function from its indices.
pub record Samples (fl : Floats) : Type 0 where
  pub intensity : ℕ → fl.Single
  pub beam_istride : ℕ
  pub freq_istride : ℕ
  pub weights : ℕ → fl.Single
  pub beam_wstride : ℕ
  pub freq_wstride : ℕ
  pub wt_cutoff : fl.Single

-- The packet object that is sent: its header, and the arrays that two of its pointers name.
pub record Outgoing : Type 0 where
  pub header : Header
  pub open header use *
  pub beam_ids : List ℕ
  pub coarse_freq_ids : List ℕ

-- The 24 bytes that `memcpy(dst, this, 24)` copies.
unfoldable pub header_bytes : Header → List ℕ
header_bytes h =
    to_le 4 h.protocol_version
    ++ (to_le 2 h.data_nbytes
        ++ (to_le 2 h.fpga_counts_per_sample
            ++ (to_le 8 h.fpga_count
                ++ (to_le 2 h.nbeams
                    ++ (to_le 2 h.nfreq_coarse ++ (to_le 2 h.nupfreq ++ to_le 2 h.ntsamp))))))

-- An array of `uint16_t`, as bytes.
unfoldable pub id_bytes : List ℕ → List ℕ
id_bytes [] = []
id_bytes (x ∷ xs) = to_le 2 x ++ id_bytes xs

-- Where scales, offsets and data start.
unfoldable pub scales_start : Header → ℕ
scales_start h = 24 + 2 * h.nbeams + 2 * h.nfreq_coarse

unfoldable pub offsets_start : Header → ℕ
unfolding scales_start
offsets_start h = scales_start h + 4 * (h.nbeams * h.nfreq_coarse)

unfoldable pub data_start : Header → ℕ
unfolding scales_start
data_start h = scales_start h + 8 * (h.nbeams * h.nfreq_coarse)

-- The three calls of `memcpy`.
unfoldable pub put_head : Outgoing → List ℕ → List ℕ
unfolding header_bytes id_bytes
put_head p dst =
    copy_to
      (copy_to (copy_to dst 0 (header_bytes p.header)) 24 (id_bytes (take p.nbeams p.beam_ids)))
      (24 + 2 * p.nbeams) (id_bytes (take p.nfreq_coarse p.coarse_freq_ids))

module _ (fl : Floats) where
  -- `scale` and `offset`, from the moments of a channel that has samples.
  unfoldable pub scale_offset : fl.Single × fl.Single × fl.Single → fl.Single × fl.Single
  scale_offset (acc0, acc1, acc2) =
      let mean = fl.div_f acc1 acc0 in
      let var = fl.sub_f (fl.div_f acc2 acc0) (fl.mul_f mean mean) in
      let regulated = fl.max_f var (fl.mul_f (fl.mul_f fl.regulator mean) mean) in
      let scale = fl.to_single (fl.div_d (fl.to_double (fl.sqrt_f regulated)) fl.d_25) in
      let offset =
        fl.to_single
          (fl.add_d (fl.mul_d fl.d_minus_128 (fl.to_double scale)) (fl.to_double mean)) in
      (scale, offset)

  -- `this->scales[b*nf+f] = scale; this->offsets[b*nf+f] = offset`.
  unfoldable pub put_scale_offset : Header → ℕ → fl.Single × fl.Single → List ℕ → List ℕ
  unfolding scales_start offsets_start
  put_scale_offset h cell (scale, offset) dst =
      copy_to (copy_to dst (scales_start h + 4 * cell) (to_le 4 (fl.bits scale)))
        (offsets_start h + 4 * cell) (to_le 4 (fl.bits offset))

module _ (fl : Floats) (s : Samples fl) where
  unfoldable pub sub_int : Header → ℕ → ℕ → ℕ → ℕ → fl.Single
  sub_int h b f u t =
      s.intensity (b * s.beam_istride + f * h.nupfreq * s.freq_istride + (u * s.freq_istride + t))

  -- `(weight >= wt_cutoff) ? 1.0 : 0.0`.
  unfoldable pub sub_mask : Header → ℕ → ℕ → ℕ → ℕ → fl.Single
  sub_mask h b f u t =
      if fl.ge_f
        (s.weights (b * s.beam_wstride + f * h.nupfreq * s.freq_wstride + (u * s.freq_wstride + t)))
        s.wt_cutoff
      then fl.one_f
      else fl.zero_f

  -- acc0, acc1 and acc2.
  unfoldable pub moments : Header → ℕ → ℕ → fl.Single × fl.Single × fl.Single
  unfolding sub_int sub_mask
  moments h b f =
      for_below h.nupfreq
        (λ u. for_below h.ntsamp (λ t (acc0, acc1, acc2).
          let x = sub_int h b f u t in
          let w = sub_mask h b f u t in
          (
            fl.add_f acc0 w,
            fl.add_f acc1 (fl.mul_f w x),
            fl.add_f acc2 (fl.mul_f (fl.mul_f w x) x),
          )))
        (fl.zero_f, fl.zero_f, fl.zero_f)

  -- The byte of one sample.
  unfoldable pub quantise : Header → ℕ → ℕ → fl.Single × fl.Single → ℕ → ℕ → ℕ
  unfolding sub_int sub_mask
  quantise h b f (scale, offset) u t =
      let x = sub_int h b f u t in
      let w = sub_mask h b f u t in
      let scaled = fl.div_f (fl.mul_f w (fl.sub_f x offset)) scale in
      let clipped = fl.max_f (fl.min_f scaled fl.byte_max) fl.zero_f in
      fl.to_uint8 (fl.add_d (fl.to_double clipped) fl.d_half)

  -- The two loops that fill `sub_data`.
  unfoldable pub put_samples : Header → ℕ → ℕ → fl.Single × fl.Single → List ℕ → List ℕ
  unfolding quantise data_start
  put_samples h b f so dst =
      let sub_data = data_start h + (b * h.nfreq_coarse + f) * (h.nupfreq * h.ntsamp) in
      for_below h.nupfreq
        (λ u.
          for_below h.ntsamp
            (λ t dst'. copy_to dst' (sub_data + (u * h.ntsamp + t)) (quantise h b f so u t ∷ [])))
        dst

  -- One turn of the loop over coarse channels.
  unfoldable pub encode_channel : Header → ℕ → ℕ → List ℕ → List ℕ
  unfolding moments scale_offset put_scale_offset put_samples data_start
  encode_channel h b f dst =
      let cell = b * h.nfreq_coarse + f in
      let acc = moments h b f in
      if fl.le_zero acc.0
      then copy_to (put_scale_offset fl h cell (fl.one_f, fl.zero_f) dst)
          (data_start h + cell * (h.nupfreq * h.ntsamp)) (replicate (h.nupfreq * h.ntsamp) 0)
      else put_samples h b f (scale_offset fl acc)
          (put_scale_offset fl h cell (scale_offset fl acc) dst)

  -- The buffer after `encode`, and the size that it returns.
  unfoldable pub encode : Outgoing → List ℕ → List ℕ × ℕ
  unfolding put_head encode_channel
  encode p dst = (
    for_below p.nbeams (λ b. for_below p.nfreq_coarse (λ f. encode_channel p.header b f))
        (put_head p dst),
    24
        + 2 * p.nbeams
        + 2 * p.nfreq_coarse
        + 8 * (p.nbeams * p.nfreq_coarse)
        + p.nbeams * p.nfreq_coarse * p.nupfreq * p.ntsamp,
  )
