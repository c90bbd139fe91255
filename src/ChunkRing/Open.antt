-- ===== src/ChunkRing/Open.antt =====
-- The chunks that are being assembled: what a new chunk is, and that a packet leaves it so.
use native.Mathlib.Nat.{div-mul-le_self, mul-le-mul_left}
use ch_frb_io.Base.{
  ℕ, ◌+◌, ◌-◌, ◌*◌, ◌/◌, ◌%◌, ◌^◌, ◌≤◌, ◌<◌, ◌≡◌, refl, sym, ap, ◌∙◌, true, false, none, some,
  arith, ltb, ltb→ge, leb→gt,
}
use ch_frb_io.Constants.{nt_per_assembled_chunk}
use ch_frb_io.Outcome.{pos, pos_part, neg_part, leb_ℤ, returns}
use ch_frb_io.Packet.{Packet}
use ch_frb_io.Chunk.{Chunk, Initializer, first_bad}
use ch_frb_io.Chunk.Fill.{add_packet}
use ch_frb_io.ChunkRing.{Env, Ring, make_assembled_chunk, chunk_params}
use ch_frb_io.ChunkRing.Part.{IsPart, make_assembled_chunk-IsPart, make_assembled_chunk-eq-fresh}
use ch_frb_io.ChunkRing.Invariant.{ValidUpTo}

-- A chunk that is being assembled.
pub record IsOpen (r : Ring) (i : ℕ) (c : Chunk) : Type 0 where
  pub part : IsPart r.config r.beam_id 0 c
  pub number : c.ichunk ≡ i
  pub no_mask : c.has_rfi_mask ≡ false
  pub small : i + 1 < 2 ^ 64

-- Chunk number `i` and the one after it are being assembled, and the ring buffer ends before them.
pub record IsAssembling (r : Ring) (i : ℕ) : Type 0 where
  pub chunk0 : Chunk
  pub chunk1 : Chunk
  pub is_chunk0 : r.active_chunk0 ≡ some chunk0
  pub is_chunk1 : r.active_chunk1 ≡ some chunk1
  pub open0 : IsOpen r i chunk0
  pub open1 : IsOpen r (i + 1) chunk1
  pub valid : ValidUpTo r i
  pub received : r.first_packet_received ≡ true

-- Chunk numbers that the constructor of a chunk accepts are far below 2 ^ 64.
small_quotient : (q m i : ℕ) → 1 ≤ m → q ≡ (2 ^ 64 - 1) / (1024 * m) → i ≤ q → i + 2 < 2 ^ 64
small_quotient q m i h e l = omega (
  arith,
  div-mul-le_self (2 ^ 64 - 1) (1024 * m),
  mul-le-mul_left {m = 1024} {n = 1024 * m} ((2 ^ 64 - 1) / (1024 * m)) (omega arith),
)

first_bad-facts :
    (i : Initializer)
    → first_bad i ≡ none
    → (leb_ℤ i.fpga_counts_per_sample (pos 0) ≡ false)
      × (ltb ((2 ^ 64 - 1) / (nt_per_assembled_chunk * pos_part i.fpga_counts_per_sample)) i.ichunk
          ≡ false)
unfolding first_bad
first_bad-facts i h = ground arith

first_bad-none : (i : Initializer) → first_bad i ≡ none → i.ichunk + 2 < 2 ^ 64
first_bad-none i h =
    let (f, l) = first_bad-facts i h in
    small_quotient _ (pos_part i.fpga_counts_per_sample) i.ichunk
      (omega (
        arith,
        leb→gt (pos_part i.fpga_counts_per_sample + 0) (0 + neg_part i.fpga_counts_per_sample) f,
      ))
      refl (ltb→ge _ i.ichunk l)

pub make-IsOpen :
    (env : Env) (r : Ring) (i : ℕ) (c : Chunk)
    → make_assembled_chunk env r i 1 ≡ returns c
    → IsOpen r i c
unfolding chunk_params
make-IsOpen env r i c e =
    let (f1, f2, f3, f4, f5, f6, f7, f8, f9) = make_assembled_chunk-IsPart env r i 0 c e in
    let (_, ok) = make_assembled_chunk-eq-fresh env r i 1 c e in
    record {
      part = record {
        beam_lem = f1;
        upfreq = f2;
        rfi = f3;
        samples = f4;
        counts = f5;
        bin = f6;
        start = f7 ∙ ap (λ t. t * nt_per_assembled_chunk % 2 ^ 64) (sym f8);
        mask = λ _ z. absurd (omega arith);
      };
      number = f8;
      no_mask = f9;
      small = omega (arith, first_bad-none (chunk_params r i 1) ok);
    }

pub add_packet-IsOpen :
    (packet : Packet) (r : Ring) (i : ℕ) (c d : Chunk)
    → IsOpen r i c
    → add_packet packet c ≡ returns d
    → IsOpen r i d
unfolding add_packet
add_packet-IsOpen packet r i c d h e = ground arith
