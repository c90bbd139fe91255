-- ===== src/Packet/Checks.antt =====
-- What `intensity_packet::decode` checks, against the list of checks in its comment.
use native.Mathlib.Nat.{mul-le-mul}
use ch_frb_io.Base.{
  ℕ, zero, suc, ◌+◌, ◌-◌, ◌*◌, ◌%◌, ◌^◌, ◌<◌, ◌≤◌, ◌≡◌, ◌↔◌, ◌≢◌, refl, sym, ap, subst, ltb→lt, ◌∙◌,
  Bool, true, false, not, ◌||◌, ◌&&◌, List, ltb, leb, ◌==◌, if◌then◌else◌, bit_and, arith,
}
use ch_frb_io.Base.Bytes.{le_at, IsBytes, le_at-lt}
use ch_frb_io.Constants.{max_input_udp_packet_size, max_allowed_nt_per_packet, nfreq_coarse_tot}
use ch_frb_io.Packet.{
  Header, Packet, good, undefined, packet_size, read_header, freq_ids_in_range, decode_arrays,
  decode_fields, decode, coarse_freq_id,
}

-- The first `k ≤ fuel` with `2 ^ k ≡ n`, or `fuel`.
log2_up : ℕ → ℕ → ℕ
log2_up zero n = 0
log2_up (suc f) n = let rest = log2_up f n in if n == 2 ^ suc f then suc f else rest

-- What is claimed of a size: the bit trick refuses it, or it is a power of two.
size_passes : ℕ → Bool
size_passes v = v == 0 || not (bit_and v (v - 1) == 0) || v == 2 ^ log2_up 10 v

sizes_pass : ℕ → Bool
sizes_pass zero = true
sizes_pass (suc m) = size_passes m && sizes_pass m

sizes_pass-at : (m : ℕ) {v : ℕ} → v < m → sizes_pass m ≡ true → size_passes v ≡ true
unfolding sizes_pass
sizes_pass-at zero small all = absurd (omega arith)
sizes_pass-at (suc m) {v} small all = ground (arith, sizes_pass-at m {v = v})

allowed_sizes_pass : sizes_pass 1025 ≡ true
unfolding sizes_pass size_passes log2_up
allowed_sizes_pass = refl

-- The bit trick of the source finds powers of two, among the sizes that it allows.
pub power_of_two :
    (n : ℕ) → n ≤ 1024 → 0 < n → (bit_and n (n - 1) == 0) ≡ true → (k : ℕ) × (n ≡ 2 ^ k)
unfolding size_passes
power_of_two n h l e =
    (log2_up 10 n, ground (arith, sizes_pass-at 1025 {v = n} (omega arith) allowed_sizes_pass))

freq_ids_head :
    (src : List ℕ) (off n : ℕ)
    → freq_ids_in_range src off (suc n) ≡ true
    → (ltb (le_at 2 src off) nfreq_coarse_tot ≡ true) × (freq_ids_in_range src (off + 2) n ≡ true)
unfolding freq_ids_in_range
freq_ids_head src off n h = head (le_at 2 src off) h
  where
    head :
        (v : ℕ)
        → (if leb nfreq_coarse_tot v then false else freq_ids_in_range src (off + 2) n) ≡ true
        → (ltb v nfreq_coarse_tot ≡ true) × (freq_ids_in_range src (off + 2) n ≡ true)
    head v e = ground arith

freq_ids_sound :
    (src : List ℕ) (off n i : ℕ)
    → freq_ids_in_range src off n ≡ true
    → i < n
    → le_at 2 src (off + 2 * i) < nfreq_coarse_tot
unfolding freq_ids_in_range
freq_ids_sound src off zero i h l = absurd (omega arith)
freq_ids_sound src off (suc n) zero h l =
    subst (λ t. le_at 2 src t < nfreq_coarse_tot) {x = off} (omega arith)
      (ltb→lt (le_at 2 src off) nfreq_coarse_tot (freq_ids_head src off n h).0)
freq_ids_sound src off (suc n) (suc i) h l =
    subst (λ t. le_at 2 src t < nfreq_coarse_tot) {x = off + 2 + 2 * i} (omega arith)
      (freq_ids_sound src (off + 2) n i (freq_ids_head src off n h).1 (omega arith))

-- The size computations of `decode` do not wrap.
sizes_no_wrap :
    (a b c d : ℕ)
    → a < 2 ^ 16
    → b < 2 ^ 16
    → c < 2 ^ 16
    → d ≤ 1024
    → (24 + 2 * a + 2 * b + 8 * (a * b) < 2 ^ 36) × (a * b * c * d < 2 ^ 59)
sizes_no_wrap a b c d p q r s =
    let ab : a * b ≤ 65535 * 65535 =
      mul-le-mul {n₂ = 65535} {m₂ = 65535} (omega arith) (omega arith) in
    let abc : a * b * c ≤ 65535 * 65535 * 65535 =
      mul-le-mul {n₂ = 65535 * 65535} {m₂ = 65535} ab (omega arith) in
    let abcd : a * b * c * d ≤ 65535 * 65535 * 65535 * 1024 =
      mul-le-mul {n₂ = 65535 * 65535 * 65535} {m₂ = 1024} abc s in
    (omega arith, omega arith)

-- The checks that the comment of `decode` lists, but for the positivity of `nbeams`, `nfreq_coarse`
-- and `nupfreq`, with the layout of the arrays.
pub record IsChecked (p : Packet) (nbytes : ℕ) : Type 0 where
  pub version : p.protocol_version ≡ 1
  pub some_samples : 0 < p.ntsamp
  pub samples_bounded : p.ntsamp ≤ max_allowed_nt_per_packet
  pub samples_power : (k : ℕ) × (p.ntsamp ≡ 2 ^ k)
  pub some_counts : 0 < p.fpga_counts_per_sample
  pub aligned : p.fpga_count % (p.fpga_counts_per_sample * p.ntsamp) ≡ 0
  pub size : nbytes ≡ packet_size p.nbeams p.nfreq_coarse p.nupfreq p.ntsamp
  pub data_size : p.data_nbytes ≡ p.nbeams * p.nfreq_coarse * p.nupfreq * p.ntsamp
  pub ids : (i : ℕ) → i < p.nfreq_coarse → coarse_freq_id p i < nfreq_coarse_tot
  pub beams_at : p.beam_ids ≡ 24
  pub freqs_at : p.coarse_freq_ids ≡ p.beam_ids + 2 * p.nbeams
  pub scales_at : p.scales ≡ p.coarse_freq_ids + 2 * p.nfreq_coarse
  pub offsets_at : p.offsets ≡ p.scales + 4 * (p.nbeams * p.nfreq_coarse)
  pub data_at : p.bytes ≡ p.offsets + 4 * (p.nbeams * p.nfreq_coarse)

abbrev pub laid_out : List ℕ → Header → Packet
laid_out src h = record {
  header = h;
  src = src;
  beam_ids = 24;
  coarse_freq_ids = 24 + 2 * h.nbeams;
  scales = 24 + 2 * h.nbeams + 2 * h.nfreq_coarse;
  offsets = 24 + 2 * h.nbeams + 2 * h.nfreq_coarse + 4 * (h.nbeams * h.nfreq_coarse);
  bytes = 24 + 2 * h.nbeams + 2 * h.nfreq_coarse + 8 * (h.nbeams * h.nfreq_coarse);
}

decode_header :
    (src : List ℕ) (n : ℕ) (p : Packet)
    → decode src n ≡ good p
    → (n ≤ max_input_udp_packet_size) × (decode_fields src n (read_header src) ≡ good p)
unfolding decode
decode_header src n p e = ground arith

-- The size tests of `decode`, on headers whose fields have the widths of the source.
decode_arrays-IsChecked :
    (src : List ℕ) (n : ℕ) (h : Header) (p : Packet)
    → h.nbeams < 2 ^ 16
    → h.nfreq_coarse < 2 ^ 16
    → h.nupfreq < 2 ^ 16
    → h.ntsamp ≤ 1024
    → h.data_nbytes < 2 ^ 16
    → n ≤ max_input_udp_packet_size
    → decode_arrays src n h ≡ good p
    → (n ≡ packet_size h.nbeams h.nfreq_coarse h.nupfreq h.ntsamp)
      × (h.data_nbytes ≡ h.nbeams * h.nfreq_coarse * h.nupfreq * h.ntsamp)
      × (freq_ids_in_range src (24 + 2 * h.nbeams) h.nfreq_coarse ≡ true)
      × (p ≡ laid_out src h)
unfolding decode_arrays packet_size
decode_arrays-IsChecked src n h p b1 b2 b3 b4 b5 u e =
    ground (arith, sizes_no_wrap h.nbeams h.nfreq_coarse h.nupfreq h.ntsamp b1 b2 b3 b4)

decode_fields_lem :
    (src : List ℕ) (n : ℕ) (h : Header) (p : Packet)
    → decode_fields src n h ≡ good p
    → (h.protocol_version ≡ 1)
      × (h.ntsamp ≤ max_allowed_nt_per_packet)
      × ((bit_and h.ntsamp (h.ntsamp - 1) == 0) ≡ true)
      × (0 < h.fpga_counts_per_sample)
      × (0 < h.fpga_counts_per_sample * h.ntsamp)
      × (h.fpga_count % (h.fpga_counts_per_sample * h.ntsamp) ≡ 0)
      × (decode_arrays src n h ≡ good p)
unfolding decode_fields
decode_fields_lem src n h p e = ground arith

pos_of_mul-pos : (a b : ℕ) → 0 < a * b → 0 < b
pos_of_mul-pos a zero h = absurd (omega arith)
pos_of_mul-pos a (suc b) h = omega arith

-- The checked header fields make the packet that `decode` lays out a checked one.
laid_out-IsChecked :
    (src : List ℕ) (n : ℕ) (h : Header)
    → decode_fields src n h ≡ good (laid_out src h)
    → n ≡ packet_size h.nbeams h.nfreq_coarse h.nupfreq h.ntsamp
    → h.data_nbytes ≡ h.nbeams * h.nfreq_coarse * h.nupfreq * h.ntsamp
    → freq_ids_in_range src (24 + 2 * h.nbeams) h.nfreq_coarse ≡ true
    → IsChecked (laid_out src h) n
unfolding coarse_freq_id
laid_out-IsChecked src n h e sz ds fr =
    let (ver, nt, pw, fc, prod, al, e₂) = decode_fields_lem src n h (laid_out src h) e in
    let some : 0 < h.ntsamp = pos_of_mul-pos h.fpga_counts_per_sample h.ntsamp prod in
    record {
      version = ver;
      some_samples = some;
      samples_bounded = nt;
      samples_power = power_of_two h.ntsamp nt some pw;
      some_counts = fc;
      aligned = al;
      size = sz;
      data_size = ds;
      ids = λ i l. freq_ids_sound src (24 + 2 * h.nbeams) h.nfreq_coarse i fr l;
      beams_at = refl;
      freqs_at = refl;
      scales_at = refl;
      offsets_at = refl;
      data_at = omega arith;
    }

field_widths :
    (src : List ℕ)
    → IsBytes src
    → ((read_header src).nbeams < 2 ^ 16)
      × ((read_header src).nfreq_coarse < 2 ^ 16)
      × ((read_header src).nupfreq < 2 ^ 16)
      × ((read_header src).data_nbytes < 2 ^ 16)
unfolding read_header
field_widths src b =
    (le_at-lt 2 src 16 b, le_at-lt 2 src 18 b, le_at-lt 2 src 20 b, le_at-lt 2 src 4 b)

-- `decode` accepts a packet only if its protocol version is 1; ntsamp is a power of two in range; its
-- fpga_counts_per_sample is positive and its fpga_count a multiple of the length of the packet; its size
-- and data size are those of its dimensions; and all coarse channel ids are in range. Then the pointers
-- cut the buffer into the arrays of the packet format, the last of which ends with the packet. That
-- nbeams, nfreq_coarse and nupfreq are positive, as the comment of `decode` says, is not checked by the
-- code and not stated here.
pub decode-IsChecked :
    (src : List ℕ) (n : ℕ) (p : Packet)
    → IsBytes src
    → decode src n ≡ good p
    → IsChecked p n × (p.header ≡ read_header src) × (p.src ≡ src) × (n ≤ max_input_udp_packet_size)
decode-IsChecked src n p b e =
    let h = read_header src in
    let (u, e₁) = decode_header src n p e in
    let (ver, nt, pw, fc, prod, al, e₂) = decode_fields_lem src n h p e₁ in
    let (b1, b2, b3, b5) = field_widths src b in
    let (sz, ds, fr, eq) = decode_arrays-IsChecked src n h p b1 b2 b3 nt b5 u e₂ in
    let checked = laid_out-IsChecked src n h (e₁ ∙ ap good eq) sz ds fr in
    (
      subst (λ q. IsChecked q n) (sym eq) checked,
      ap (λ (q : Packet). q.header) eq,
      ap (λ (q : Packet). q.src) eq,
      u,
    )

decode_arrays_defined : (src : List ℕ) (n : ℕ) (h : Header) → decode_arrays src n h ≢ undefined
unfolding decode_arrays
decode_arrays_defined src n h e = ground arith

zero_of_mul : (a b : ℕ) → 0 < a → a * b ≡ 0 → b ≡ 0
zero_of_mul a zero h e = refl
zero_of_mul a (suc b) h e = absurd (omega arith)

mask_of_zero : (a b : ℕ) → b ≡ 0 → ((bit_and b (b - 1) == 0) ≡ true) × (a * b ≡ 0)
mask_of_zero a b e = rw e (refl, omega arith)

-- With a sample count of zero, `decode` divides by zero: every packet of an acceptable size whose
-- version is 1, whose `fpga_counts_per_sample` is not zero and whose `ntsamp` is zero does so, and no
-- other packet does.
pub decode-undefined :
    (src : List ℕ) (n : ℕ)
    → (decode src n ≡ undefined) ↔ (
        (24 ≤ n)
        × (n ≤ max_input_udp_packet_size)
        × ((read_header src).protocol_version ≡ 1)
        × (0 < (read_header src).fpga_counts_per_sample)
        × ((read_header src).ntsamp ≡ 0))
unfolding decode decode_fields
decode-undefined src n = (
  λ e. ground (
    arith,
    decode_arrays_defined src n (read_header src),
    zero_of_mul (read_header src).fpga_counts_per_sample (read_header src).ntsamp,
  ),
  λ (a, b, c, d, e).
      let m = mask_of_zero (read_header src).fpga_counts_per_sample (read_header src).ntsamp e in
      ground arith,
)
