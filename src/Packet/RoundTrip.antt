-- ===== src/Packet/RoundTrip.antt =====
-- `intensity_packet::decode` reads back the packets that `intensity_packet::encode` writes.
use ch_frb_io.Base.{
  ℕ, zero, suc, ◌+◌, ◌*◌, ◌/◌, ◌%◌, ◌^◌, ◌<◌, ◌≤◌, ◌≡◌, refl, ap, ◌∙◌, inl, List, [], ◌∷◌, ◌++◌,
  length, get_or, take, take-length, copy_to, length-copy_to, arith,
}
use ch_frb_io.Base.Bytes.{
  le_at, to_le, le_at-to_le, le_at-eq, le_at-cons, le_at-copy_to_inside, le_at-copy_to_outside,
}
use ch_frb_io.Packet.{Header, good, packet_size, read_header, decode, header_size}
use ch_frb_io.Packet.Checks.{laid_out}
use ch_frb_io.Packet.Encode.{
  Floats, Samples, Outgoing, header_bytes, id_bytes, put_head, encode, scales_start,
}
use ch_frb_io.Packet.Kept.{Kept-encode}
use ch_frb_io.Packet.Sendable.{IsHeader, IsSendable, samples_bounded, decode-good}

length-id_bytes : (xs : List ℕ) → length (id_bytes xs) ≡ 2 * length xs
unfolding id_bytes
length-id_bytes [] = refl
length-id_bytes (x ∷ xs) = omega (arith, length-id_bytes xs)

le_at-id_bytes :
    (xs : List ℕ) (i : ℕ) → get_or xs i 0 < 2 ^ 16 → le_at 2 (id_bytes xs) (2 * i) ≡ get_or xs i 0
unfolding id_bytes
le_at-id_bytes [] i h = refl
le_at-id_bytes (x ∷ xs) zero h = le_at-to_le 2 x (id_bytes xs) h
le_at-id_bytes (x ∷ xs) (suc i) h =
    ap (λ t. le_at 2 (id_bytes (x ∷ xs)) t) {y = 2 * i + 1 + 1} (omega arith)
    ∙ le_at-cons 2 _ (x / 256 % 256 ∷ id_bytes xs) (2 * i + 1)
    ∙ le_at-cons 2 _ (id_bytes xs) (2 * i)
    ∙ le_at-id_bytes xs i h

length-header_bytes : (h : Header) → length (header_bytes h) ≡ 24
unfolding header_bytes
length-header_bytes h = refl

-- The header is read back from its bytes.
header-read :
    (src : List ℕ) (h : Header)
    → IsHeader h
    → ((n off : ℕ) → off + n ≤ 24 → le_at n src off ≡ le_at n (header_bytes h) off)
    → read_header src ≡ h
unfolding read_header header_bytes packet_size header_size
header-read src h v same =
    let t₆ = to_le 2 h.ntsamp in
    let t₅ = to_le 2 h.nupfreq ++ t₆ in
    let t₄ = to_le 2 h.nfreq_coarse ++ t₅ in
    let t₃ = to_le 2 h.nbeams ++ t₄ in
    let t₂ = to_le 8 h.fpga_count ++ t₃ in
    let t₁ = to_le 2 h.fpga_counts_per_sample ++ t₂ in
    let t₀ = to_le 2 h.data_nbytes ++ t₁ in
    let e₀ : le_at 4 src 0 ≡ h.protocol_version =
      same 4 0 (omega arith) ∙ le_at-to_le 4 h.protocol_version t₀ (omega (arith, v.version)) in
    let e₁ : le_at 2 src 4 ≡ h.data_nbytes =
      same 2 4 (omega arith)
      ∙ le_at-to_le 2 h.data_nbytes t₁ (omega (arith, v.data_size, v.small)) in
    let e₂ : le_at 2 src 6 ≡ h.fpga_counts_per_sample =
      same 2 6 (omega arith) ∙ le_at-to_le 2 h.fpga_counts_per_sample t₂ v.counts_fit in
    let e₃ : le_at 8 src 8 ≡ h.fpga_count =
      same 8 8 (omega arith) ∙ le_at-to_le 8 h.fpga_count t₃ v.count_fits in
    let e₄ : le_at 2 src 16 ≡ h.nbeams =
      same 2 16 (omega arith) ∙ le_at-to_le 2 h.nbeams t₄ v.beams_fit in
    let e₅ : le_at 2 src 18 ≡ h.nfreq_coarse =
      same 2 18 (omega arith) ∙ le_at-to_le 2 h.nfreq_coarse t₅ v.freqs_fit in
    let e₆ : le_at 2 src 20 ≡ h.nupfreq =
      same 2 20 (omega arith) ∙ le_at-to_le 2 h.nupfreq t₆ v.upfreqs_fit in
    let e₇ : le_at 2 src 22 ≡ h.ntsamp =
      same 2 22 (omega arith) ∙ le_at-to_le 2 h.ntsamp [] (omega (arith, samples_bounded h v)) in
    rw (e₀, e₁, e₂, e₃, e₄, e₅, e₆, e₇) refl

-- What the head of a packet holds, in a buffer that is large enough.
module _ (p : Outgoing) (v : IsSendable p) (dst : List ℕ) where
  put_head-header :
      (n off : ℕ)
      → 24 + 2 * p.nbeams + 2 * p.nfreq_coarse ≤ length dst
      → off + n ≤ 24
      → le_at n (put_head p dst) off ≡ le_at n (header_bytes p.header) off
  unfolding put_head
  put_head-header n off room l =
      le_at-copy_to_outside n _ _ _ off (inl (omega arith))
      ∙ le_at-copy_to_outside n _ _ _ off (inl (omega arith))
      ∙ ap (λ t. le_at n (copy_to dst 0 (header_bytes p.header)) t) {y = 0 + off} (omega arith)
      ∙ le_at-copy_to_inside n dst 0 (header_bytes p.header) off
          (omega (arith, length-header_bytes p.header)) (omega arith)

  put_head-beam :
      (i : ℕ)
      → 24 + 2 * p.nbeams + 2 * p.nfreq_coarse ≤ length dst
      → i < p.nbeams
      → le_at 2 (put_head p dst) (24 + 2 * i) ≡ get_or p.beam_ids i 0
  unfolding put_head
  put_head-beam i room l = rw (take-length p.nbeams p.beam_ids v.beams) (
      le_at-copy_to_outside 2 _ _ _ (24 + 2 * i) (inl (omega arith))
      ∙ le_at-copy_to_inside 2 _ 24 (id_bytes p.beam_ids) (2 * i)
          (omega (arith, length-id_bytes p.beam_ids, v.beams))
          (omega (arith, length-copy_to dst 0 (header_bytes p.header)))
      ∙ le_at-id_bytes p.beam_ids i (v.beams_in_range i))

  put_head-freq :
      (i : ℕ)
      → 24 + 2 * p.nbeams + 2 * p.nfreq_coarse ≤ length dst
      → i < p.nfreq_coarse
      → le_at 2 (put_head p dst) (24 + 2 * p.nbeams + 2 * i) ≡ get_or p.coarse_freq_ids i 0
  unfolding put_head
  put_head-freq i room l =
      let d₁ = copy_to dst 0 (header_bytes p.header) in
      let beams = id_bytes (take p.nbeams p.beam_ids) in
      rw (take-length p.nfreq_coarse p.coarse_freq_ids v.freqs) (
        le_at-copy_to_inside 2 (copy_to d₁ 24 beams) (24 + 2 * p.nbeams)
          (id_bytes p.coarse_freq_ids) (2 * i)
          (omega (arith, length-id_bytes p.coarse_freq_ids, v.freqs))
          (omega (arith, length-copy_to dst 0 (header_bytes p.header), length-copy_to d₁ 24 beams))
        ∙ le_at-id_bytes p.coarse_freq_ids i (omega (arith, v.freqs_in_range i)))

-- The array of `n` ids at an offset.
abbrev pub read_ids : List ℕ → ℕ → ℕ → List ℕ
read_ids src off zero = []
read_ids src off (suc n) = le_at 2 src off ∷ read_ids src (off + 2) n

read_ids-eq :
    (src : List ℕ) (off n : ℕ) (xs : List ℕ)
    → length xs ≡ n
    → ((i : ℕ) → i < n → le_at 2 src (off + 2 * i) ≡ get_or xs i 0)
    → read_ids src off n ≡ xs
read_ids-eq src off zero [] h e = refl
read_ids-eq src off zero (x ∷ xs) h e = absurd (omega arith)
read_ids-eq src off (suc n) [] h e = absurd (omega arith)
read_ids-eq src off (suc n) (x ∷ xs) h e =
    let first : le_at 2 src off ≡ x = ap (le_at 2 src) (omega arith) ∙ e 0 (omega arith) in
    ap (λ v. v ∷ read_ids src (off + 2) n) first
    ∙ ap (◌∷◌ x) (
        read_ids-eq src (off + 2) n xs (omega arith)
          (λ i l. ap (le_at 2 src) {y = off + 2 * suc i} (omega arith) ∙ e (suc i) (omega arith)))

-- A packet that may be sent is accepted by the receiver, whatever its samples are: `encode` returns
-- its size, and `decode` of the written bytes gives its header, its beams and its coarse channels.
pub decode-encode :
    (fl : Floats) (s : Samples fl) (p : Outgoing) (dst : List ℕ)
    → IsSendable p
    → packet_size p.nbeams p.nfreq_coarse p.nupfreq p.ntsamp ≤ length dst
    → let (sent, n) = encode fl s p dst in
      let received = laid_out sent p.header in
      (n ≡ packet_size p.nbeams p.nfreq_coarse p.nupfreq p.ntsamp)
      × (decode sent n ≡ good received)
      × (read_ids sent received.beam_ids received.nbeams ≡ p.beam_ids)
      × (read_ids sent received.coarse_freq_ids received.nfreq_coarse ≡ p.coarse_freq_ids)
unfolding packet_size header_size
decode-encode fl s p dst v room =
    let k = Kept-encode fl s p dst in
    let kept : (n off : ℕ)
        → off + n ≤ 24 + 2 * p.nbeams + 2 * p.nfreq_coarse
        → le_at n (encode fl s p dst).0 off ≡ le_at n (put_head p dst) off =
      λ n off l.
        unfold scales_start in le_at-eq n _ _ off off (λ i q. k.1 (off + i) (omega arith)) in
    let freqs : (i : ℕ)
        → i < p.nfreq_coarse
        → le_at 2 (encode fl s p dst).0 (24 + 2 * p.nbeams + 2 * i) ≡ get_or p.coarse_freq_ids i 0 =
      λ i l.
        kept 2 (24 + 2 * p.nbeams + 2 * i) (omega arith)
        ∙ put_head-freq p v dst i (omega arith) l in
    let head =
      header-read (encode fl s p dst).0 p.header v.is_header
        (λ n off l. kept n off (omega arith) ∙ put_head-header p v dst n off (omega arith) l) in
    (
      unfold encode in refl,
      unfold encode in
          decode-good _ p.header head v.is_header
            (λ i l. omega (arith, freqs i l, v.freqs_in_range i)),
      read_ids-eq _ 24 p.nbeams p.beam_ids v.beams
          (λ i l. kept 2 (24 + 2 * i) (omega arith) ∙ put_head-beam p v dst i (omega arith) l),
      read_ids-eq _ (24 + 2 * p.nbeams) p.nfreq_coarse p.coarse_freq_ids v.freqs freqs,
    )
