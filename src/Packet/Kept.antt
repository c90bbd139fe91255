-- ===== src/Packet/Kept.antt =====
-- What `intensity_packet::encode` does not overwrite: everything before the scales.
use ch_frb_io.Base.{
  take, ℕ, ◌+◌, ◌*◌, ◌<◌, ◌≤◌, ◌≡◌, refl, ◌∙◌, inl, inr, Bool-cases, List, length, get_or, copy_to,
  length-copy_to, arith,
}
use ch_frb_io.Base.Bytes.{get_or-copy_to_outside}
use ch_frb_io.Base.Loops.{for_from_keeps}
use ch_frb_io.Packet.{Header}
use ch_frb_io.Packet.Encode.{
  header_bytes, id_bytes, Floats, Samples, Outgoing, scales_start, offsets_start, data_start,
  put_scale_offset, put_samples, encode_channel, encode, scale_offset, moments, put_head,
}

-- The same length, and the same first `m` entries.
abbrev pub Kept : ℕ → List ℕ → List ℕ → Type 0
Kept m xs ys = (length ys ≡ length xs) × ((i : ℕ) → i < m → get_or ys i 0 ≡ get_or xs i 0)

pub Kept-copy_to :
    (m : ℕ) (d xs : List ℕ) (off : ℕ) (vs : List ℕ)
    → m ≤ off
    → Kept m d xs
    → Kept m d (copy_to xs off vs)
Kept-copy_to m d xs off vs h k = (
  length-copy_to xs off vs ∙ k.0,
  λ i l. get_or-copy_to_outside xs off vs i (inl (omega arith)) ∙ k.1 i l,
)

module _ (fl : Floats) (s : Samples fl) (h : Header) (d : List ℕ) where
  Kept-put_scale_offset :
      (cell : ℕ) (so : fl.Single × fl.Single) (xs : List ℕ)
      → Kept (scales_start h) d xs
      → Kept (scales_start h) d (put_scale_offset fl h cell so xs)
  unfolding put_scale_offset offsets_start
  Kept-put_scale_offset cell so xs k =
      Kept-copy_to (scales_start h) d _ _ _ (omega arith)
        (Kept-copy_to (scales_start h) d xs _ _ (omega arith) k)

  Kept-put_samples :
      (b f : ℕ) (so : fl.Single × fl.Single) (xs : List ℕ)
      → Kept (scales_start h) d xs
      → Kept (scales_start h) d (put_samples fl s h b f so xs)
  unfolding put_samples data_start
  Kept-put_samples b f so xs k =
      for_from_keeps (Kept (scales_start h) d) _ 0 h.nupfreq
        (λ u ys l q.
          for_from_keeps (Kept (scales_start h) d) _ 0 h.ntsamp
            (λ t zs l' r. Kept-copy_to (scales_start h) d zs _ _ (omega arith) r) ys q)
        xs k

  Kept-encode_channel :
      (b f : ℕ) (xs : List ℕ)
      → Kept (scales_start h) d xs
      → Kept (scales_start h) d (encode_channel fl s h b f xs)
  unfolding encode_channel data_start
  Kept-encode_channel b f xs k = elim (Bool-cases (fl.le_zero (moments fl s h b f).0)) [
    | inl e ↦ rw e (
        Kept-copy_to (scales_start h) d _ _ _ (omega arith)
          (Kept-put_scale_offset (b * h.nfreq_coarse + f) (fl.one_f, fl.zero_f) xs k))
    | inr e ↦ rw e (
        Kept-put_samples b f _ _ (
          Kept-put_scale_offset (b * h.nfreq_coarse + f) (scale_offset fl (moments fl s h b f)) xs
            k))
  ]

-- The loops of `encode` leave the head of the packet.
pub Kept-encode :
    (fl : Floats) (s : Samples fl) (p : Outgoing) (dst : List ℕ)
    → Kept (scales_start p.header) (put_head p dst) (encode fl s p dst).0
unfolding encode
Kept-encode fl s p dst =
    let head = put_head p dst in
    let m = scales_start p.header in
    for_from_keeps (Kept m head) _ 0 p.nbeams
      (λ b ys l q.
        for_from_keeps (Kept m head) _ 0 p.nfreq_coarse
          (λ f zs l' r. Kept-encode_channel fl s p.header head b f zs r) ys q)
      head (refl, λ i l. refl)

-- `encode` writes into its buffer, and does not lengthen it.
pub length-encode :
    (fl : Floats) (s : Samples fl) (p : Outgoing) (dst : List ℕ)
    → length (encode fl s p dst).0 ≡ length dst
unfolding put_head
length-encode fl s p dst =
    (Kept-encode fl s p dst).0
    ∙ length-copy_to
        (copy_to (copy_to dst 0 (header_bytes p.header)) 24 (id_bytes (take p.nbeams p.beam_ids)))
        (24 + 2 * p.nbeams) (id_bytes (take p.nfreq_coarse p.coarse_freq_ids))
    ∙ length-copy_to (copy_to dst 0 (header_bytes p.header)) 24
        (id_bytes (take p.nbeams p.beam_ids))
    ∙ length-copy_to dst 0 (header_bytes p.header)
