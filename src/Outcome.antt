-- ===== src/Outcome.antt =====
-- How a C++ call ends. `Result` is for constructors and functions that change no object; `Outcome`
-- is for methods: each constructor carries the object as the call leaves it, since an exception
-- does not undo what was written before it.
use ch_frb_io.Base.{ℕ, suc, ◌+◌, Bool, ltb, leb, ◌==◌}

-- The `runtime_error`s of the modelled files, one constructor for each `throw` or group of `throw`s
-- with one meaning. The last line is for what C++ leaves undefined.
pub data Error : Type 0 where
  bad_max_npackets bad_max_nbytes bad_packet_nbytes list_full : Error
  bad_ringbuf_capacity empty_pointer put_after_end_of_stream : Error
  bad_nbytes_per_slab bad_nslabs pool_too_large pool_size_mismatch : Error
  null_slab pool_full slot_not_empty : Error
  bad_beam_id bad_nupfreq bad_nrfifreq bad_nt_per_packet bad_fpga_counts_per_sample : Error
  bad_binning bad_stream_id bad_ichunk bad_kernel_flags slab_mismatch : Error
  bad_nt_align bad_telescoping_capacity : Error
  rfi_mask_already_set rfi_mask_not_ready chunk_mismatch bad_packet null_dereference : Error
  assembler_miss called_after_end_stream assertion_failed buffer_drop chunk_not_found : Error
  double_end_stream out_of_memory : Error
  null_request empty_filename device_mismatch no_rfi_mask_saved no_devices : Error
  join_before_end_stream prefix_clash : Error
  packet_mismatch beam_id_mismatch no_beams duplicate_beam_ids bad_udp_port : Error
  start_after_end join_before_start unknown_beam bad_assembler_index deliberate_crash : Error
  frame0_failed read_failed division_by_zero : Error
  bad_fpga_count list_not_empty list_too_small bad_encoded_size join_twice : Error
  send_failed short_send : Error
  undefined_behaviour int_overflow : Error
  bad_beams bad_coarse_freqs bad_coarse_freq_id duplicate_coarse_freq_ids : Error
  bad_nfreq_coarse_per_packet bad_nt_per_chunk bad_wt_cutoff bad_target_gbps : Error

pub data Result {ℓ} (A : Type ℓ) : Type ℓ where
  returns : A → Result A
  fails : Error → Result A

-- `waits`: the thread blocks on a condition variable, and runs the loop again when it wakes.
pub data Outcome {ℓ κ} (S : Type ℓ) (A : Type κ) : Type (ℓ ⊔ κ) where
  done : A → S → Outcome S A
  throws : Error → S → Outcome S A
  waits : S → Outcome S A

-- The object after the call, however it ended.
abbrev pub after {ℓ κ} : {S : Type ℓ} {A : Type κ} → Outcome S A → S
after (done a s) = s
after (throws e s) = s
after (waits s) = s

-- `int` where the code tests the sign: `negsuc n` is -(n + 1).
pub data ℤ : Type 0 where
  pos : ℕ → ℤ
  negsuc : ℕ → ℤ

abbrev pub pos_part : ℤ → ℕ
pos_part (pos n) = n
pos_part (negsuc n) = 0

abbrev pub neg_part : ℤ → ℕ
neg_part (pos n) = 0
neg_part (negsuc n) = suc n

abbrev pub leb_ℤ : ℤ → ℤ → Bool
leb_ℤ a b = leb (pos_part a + neg_part b) (pos_part b + neg_part a)

abbrev pub ltb_ℤ : ℤ → ℤ → Bool
ltb_ℤ a b = ltb (pos_part a + neg_part b) (pos_part b + neg_part a)

abbrev pub eq_ℤ : ℤ → ℤ → Bool
eq_ℤ a b = pos_part a + neg_part b == pos_part b + neg_part a

-- One call after another.
abbrev pub and_then {ℓ κ μ} :
    {S : Type ℓ} {A : Type κ} {B : Type μ} → Outcome S A → (A → S → Outcome S B) → Outcome S B
and_then (done a s) f = f a s
and_then (throws e s) f = throws e s
and_then (waits s) f = waits s

-- A property of the object after a call that returns, and one for a call that throws; the call does
-- not wait.
abbrev pub Ends {ℓ κ} :
    {S : Type ℓ} {A : Type κ} → (S → Type 0) → (S → Type 0) → Outcome S A → Type 0
Ends P Q (done a s) = P s
Ends P Q (throws e s) = Q s
Ends P Q (waits s) = ⊥

pub and_then-Ends {ℓ κ μ} :
    {S : Type ℓ} {A : Type κ} {B : Type μ} (P P' Q : S → Type 0) (o : Outcome S A)
    (f : A → S → Outcome S B)
    → Ends P Q o
    → ((a : A) (s : S) → P s → Ends P' Q (f a s))
    → Ends P' Q (and_then o f)
and_then-Ends P P' Q (done a s) f h g = g a s h
and_then-Ends P P' Q (throws e s) f h g = h
and_then-Ends P P' Q (waits s) f h g = absurd h

pub Ends-weaken {ℓ κ} :
    {S : Type ℓ} {A : Type κ} (P P' Q : S → Type 0) (o : Outcome S A)
    → ((s : S) → P s → P' s)
    → Ends P Q o
    → Ends P' Q o
Ends-weaken P P' Q (done a s) f h = f s h
Ends-weaken P P' Q (throws e s) f h = h
Ends-weaken P P' Q (waits s) f h = h
