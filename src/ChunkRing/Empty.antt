-- ===== src/ChunkRing/Empty.antt =====
-- The ring buffer that the constructor sets up: it is valid, and the constructor returns.
use ch_frb_io.Base.{
  ℕ, zero, suc, ◌+◌, ◌%◌, ◌^◌, ◌≤◌, ◌<◌, ◌≡◌, refl, ap, Bool, false, Option, none, List, [], ◌∷◌,
  arith, length, length-replicate, replicate, get_or, ◌⊎◌, inl, inr, ltb→ge, or-false, leb→gt,
}
use ch_frb_io.Outcome.{ℤ, pos, pos_part, neg_part, leb_ℤ, ltb_ℤ, returns}
use ch_frb_io.Chunk.{Chunk}
use ch_frb_io.ChunkRing.{Config, Level, entry}
use ch_frb_io.ChunkRing.Slots.{Holds}
use ch_frb_io.ChunkRing.Timeline.{Telescope, HoldsAll}
use ch_frb_io.ChunkRing.Checked.{Behind, check_invariants-true}
use ch_frb_io.ChunkRing.Invariant.{ValidUpTo}
use ch_frb_io.ChunkRing.Make.{
  Setup, too_short, setup_error, telescoping, capacities, empty_levels, empty_ring,
  finish_construct, construct,
}

get_or-replicate : (n k : ℕ) → get_or {A = Option Chunk} (replicate n none) k none ≡ none
get_or-replicate zero k = refl
get_or-replicate (suc n) zero = refl
get_or-replicate (suc n) (suc k) = get_or-replicate n k

empty_level : ℕ → Level
empty_level n = record {
  ringbuf_pos = 0;
  ringbuf_size = 0;
  ringbuf_capacity = n;
  ringbuf = replicate n none;
}

empty_level-Holds : (n : ℕ) → 2 ≤ n → Holds (empty_level n) []
unfolding empty_level entry
empty_level-Holds n two = record {
  two_slots = two;
  slots = length-replicate n none;
  size = refl;
  fits = omega arith;
  at = λ k b. get_or-replicate n ((0 + k) % n);
}

empties : List ℕ → List (List Chunk)
empties [] = []
empties (n ∷ ns) = [] ∷ empties ns

abbrev AllLong : List ℕ → Type 0
AllLong [] = Unit {0}
AllLong (n ∷ ns) = (2 ≤ n) × AllLong ns

empties-HoldsAll : (ns : List ℕ) → AllLong ns → HoldsAll (empty_levels ns) (empties ns)
unfolding empties empty_levels empty_level
empties-HoldsAll [] h = tt
empties-HoldsAll (n ∷ ns) (h, hs) = (empty_level-Holds n h, empties-HoldsAll ns hs)

empties-Telescope :
    (cfg : Config) (beam ids b : ℕ) (ns : List ℕ) → Telescope cfg beam ids (empties ns) b
unfolding empties
empties-Telescope cfg beam ids b [] = tt
empties-Telescope cfg beam ids b (n ∷ []) = (b, refl, tt, tt)
empties-Telescope cfg beam ids b (n ∷ (m ∷ ns)) =
    (b, refl, refl, empties-Telescope cfg beam (ids + 1) b (m ∷ ns))

telescoping-AllLong : (ts : List ℤ) → too_short ts ≡ false → AllLong (telescoping ts)
unfolding too_short telescoping
telescoping-AllLong [] h = tt
telescoping-AllLong (t ∷ ts) h =
    let (a, b) = or-false (ltb_ℤ t (pos 2)) (too_short ts) h in
    (omega (arith, ltb→ge (pos_part t + 0) (2 + neg_part t) a), telescoping-AllLong ts b)

length-empty_levels : (ns : List ℕ) → length (empty_levels ns) ≡ length ns
unfolding empty_levels
length-empty_levels [] = refl
length-empty_levels (n ∷ ns) = ap suc (length-empty_levels ns)

-- Level 0 keeps at least two chunks: it has capacity for two assembled chunks, or there are
-- telescoping capacities.
abbrev pub HasRoom : Setup → Type 0
HasRoom s =
    (2 ≤ pos_part s.assembled_ringbuf_capacity) ⊎ (0 < length s.telescoping_ringbuf_capacity)

setup_error-none :
    (avx2 : Bool) (cfg : Config) (s : Setup)
    → setup_error avx2 cfg s ≡ none
    → (too_short s.telescoping_ringbuf_capacity ≡ false)
      × (leb_ℤ s.assembled_ringbuf_capacity (pos 0) ≡ false)
unfolding setup_error
setup_error-none avx2 cfg s h = ground arith

capacities-AllLong :
    (n : ℕ) (ts : List ℤ)
    → too_short ts ≡ false
    → (2 ≤ n) ⊎ (0 < length ts)
    → AllLong (capacities n ts)
unfolding capacities telescoping
capacities-AllLong n [] h (inl t) = (t, tt)
capacities-AllLong n [] h (inr t) = absurd (omega arith)
capacities-AllLong n (t ∷ ts) h room =
    let (a, rest) = telescoping-AllLong (t ∷ ts) h in (omega arith, rest)

empty-Behind :
    (cfg : Config) (s : Setup) (n : ℕ) (ts : List ℤ)
    → 0 < n
    → too_short ts ≡ false
    → n ≡ (empty_ring cfg s).downstream_bufsize
    → 0 ≡ (empty_ring cfg s).downstream_pos
    → Behind (empty_ring cfg s) (empty_levels (capacities n ts))
unfolding capacities empty_levels telescoping
empty-Behind cfg s n [] z h e f = (omega arith, omega arith, omega arith, omega arith, omega arith)
empty-Behind cfg s n (t ∷ ts) z h e f =
    let (a, rest) = telescoping-AllLong (t ∷ ts) h in
    (omega arith, omega arith, omega arith, omega arith, omega arith)

empty_ring-IsValid :
    (cfg : Config) (s : Setup) (next : ℕ)
    → next < 2 ^ 64
    → 0 < pos_part s.assembled_ringbuf_capacity
    → too_short s.telescoping_ringbuf_capacity ≡ false
    → HasRoom s
    → ValidUpTo (empty_ring cfg s) next
unfolding empty_ring
empty_ring-IsValid cfg s next small z h room =
    let ns = capacities (pos_part s.assembled_ringbuf_capacity) s.telescoping_ringbuf_capacity in
    (
      empties ns,
      record {
        holds = empties-HoldsAll ns (capacities-AllLong _ s.telescoping_ringbuf_capacity h room);
        telescope = empties-Telescope cfg (pos_part s.beam_id) 0 next ns;
        behind = empty-Behind cfg s _ s.telescoping_ringbuf_capacity z h refl refl;
        small = small;
      },
    )

pub construct-IsValid :
    (avx2 : Bool) (cfg : Config) (s : Setup)
    → setup_error avx2 cfg s ≡ none
    → HasRoom s
    → (construct avx2 cfg s ≡ returns (empty_ring cfg s))
      × ((next : ℕ) → next < 2 ^ 64 → ValidUpTo (empty_ring cfg s) next)
unfolding construct finish_construct
construct-IsValid avx2 cfg s ok room =
    let (h, a) = setup_error-none avx2 cfg s ok in
    let valid : (next : ℕ) → next < 2 ^ 64 → ValidUpTo (empty_ring cfg s) next = λ next small.
      empty_ring-IsValid cfg s next small
        (omega (
          arith,
          leb→gt (pos_part s.assembled_ringbuf_capacity + 0)
              (0 + neg_part s.assembled_ringbuf_capacity) a,
        ))
        h room in
    let (css, v) = valid 0 (omega arith) in
    (simp (ok, check_invariants-true (empty_ring cfg s) css 0 v), valid)
