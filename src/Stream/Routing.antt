-- ===== src/Stream/Routing.antt =====
-- Which part of a packet goes to which assembler.
use native.Mathlib.Numerals.{add-one}
use ch_frb_io.Base.{
  ℕ, zero, suc, ◌+◌, ◌*◌, ◌%◌, ◌^◌, ◌≤◌, ◌<◌, ◌≡◌, refl, sym, ap, subst, ◌∙◌, ◌⊎◌, inl, inr, Bool,
  true, false, Bool-cases, List, length, get_or, leb, leb→le, leb→gt, arith,
}
use ch_frb_io.Base.Bytes.{le_at}
use ch_frb_io.Outcome.{ℤ, pos, eq_ℤ, Outcome, done, and_then}
use ch_frb_io.Packet.{Packet, beam_id, packet_size, header_size}
use ch_frb_io.Packet.Checks.{IsChecked}
use ch_frb_io.Constants.{max_input_udp_packet_size}
use ch_frb_io.ChunkRing.{Env}
use ch_frb_io.Stream.{Stream}
use ch_frb_io.Stream.Beams.{
  Search, found, no_match, find_assembler, handle_beam, handle_beams, next_beam, new_data_nbytes,
  first_beam,
}

-- Whether beam `j` of the stream has a given id.
abbrev pub is_beam : List ℤ → ℕ → ℕ → Bool
is_beam beams packet_id j = eq_ℤ (get_or beams j (pos 0)) (pos packet_id)

-- The first beam with the id from `ix` on, or none.
abbrev pub FirstFrom : List ℤ → ℕ → ℕ → Search → Type 0
FirstFrom beams packet_id ix r =
    ((i : ℕ) × (r ≡ found i)
      × (ix ≤ i)
      × (i < length beams)
      × (is_beam beams packet_id i ≡ true)
      × ((j : ℕ) → ix ≤ j → j < i → is_beam beams packet_id j ≡ false))
    ⊎ ((r ≡ no_match) × ((j : ℕ) → ix ≤ j → j < length beams → is_beam beams packet_id j ≡ false))

split_first : (ix j : ℕ) → ix ≤ j → (ix ≡ j) ⊎ (ix + 1 ≤ j)
split_first ix j h = elim (Bool-cases (leb j ix)) [
  | inl e ↦ inl (omega (arith, leb→le j ix e))
  | inr e ↦ inr (omega (arith, leb→gt j ix e))
]

none_before :
    (beams : List ℤ) (packet_id ix top : ℕ)
    → is_beam beams packet_id ix ≡ false
    → ((j : ℕ) → ix + 1 ≤ j → j < top → is_beam beams packet_id j ≡ false)
    → (j : ℕ) → ix ≤ j
    → j < top
    → is_beam beams packet_id j ≡ false
none_before beams packet_id ix top e h j a b = elim (split_first ix j a) [
  | inl q ↦ subst (λ k. is_beam beams packet_id k ≡ false) q e
  | inr q ↦ h j q b
]

later-FirstFrom :
    (beams : List ℤ) (packet_id ix : ℕ) (r : Search)
    → is_beam beams packet_id ix ≡ false
    → FirstFrom beams packet_id (ix + 1) r
    → FirstFrom beams packet_id ix r
later-FirstFrom beams packet_id ix r e (inl (i, q, a, b, c, d)) =
    inl (i, q, omega arith, b, c, none_before beams packet_id ix i e d)
later-FirstFrom beams packet_id ix r e (inr (q, d)) =
    inr (q, none_before beams packet_id ix (length beams) e d)

find_assembler-FirstFrom :
    (fuel : ℕ) (beams : List ℤ) (packet_id ix : ℕ)
    → ix + fuel ≡ length beams + 1
    → ix ≤ length beams
    → FirstFrom beams packet_id ix (find_assembler fuel beams packet_id ix)
unfolding find_assembler
find_assembler-FirstFrom zero beams packet_id ix h l = absurd (omega arith)
find_assembler-FirstFrom (suc fuel) beams packet_id ix h l =
    elim (Bool-cases (leb (length beams) ix)) [
      | inl e ↦
          let full = leb→le (length beams) ix e in rw e (inr (refl, λ j a b. absurd (omega arith)))
      | inr e ↦ elim (Bool-cases (is_beam beams packet_id ix)) [
        | inl m ↦
            rw (e, m)
              (inl (
                ix,
                refl,
                omega arith,
                leb→gt (length beams) ix e,
                m,
                λ j a b. absurd (omega arith),
              ))
        | inr m ↦
            rw (e, m)
              (later-FirstFrom beams packet_id ix _ m (
                find_assembler-FirstFrom fuel beams packet_id (ix + 1) (omega arith)
                  (omega (arith, leb→gt (length beams) ix e))))
      ]
    ]

-- The search for the assembler of a beam ends within one pass more than there are assemblers: with the
-- first assembler whose beam has the id of the packet, or, when no beam has it, with no match.
pub find_assembler-ends :
    (beams : List ℤ) (packet_id : ℕ)
    → FirstFrom beams packet_id 0 (find_assembler (length beams + 1) beams packet_id 0)
find_assembler-ends beams packet_id =
    find_assembler-FirstFrom (length beams + 1) beams packet_id 0 (omega arith) (omega arith)

-- The packet of beam `k` alone, addressed from the start of each array.
abbrev pub beam_view : Packet → ℕ → Packet
beam_view p k = record p {
  beam_ids = p.beam_ids + 2 * k;
  scales = p.scales + 4 * (k * p.nfreq_coarse);
  offsets = p.offsets + 4 * (k * p.nfreq_coarse);
  bytes = p.bytes + k * new_data_nbytes p;
}

-- The loop over beams by index: each of `n` beams from `k` on in its turn.
abbrev pub by_index : Env → Packet → ℕ → ℕ → Stream → Outcome Stream (Unit {0})
by_index env p k zero s = done tt s
by_index env p k (suc n) s =
    and_then (handle_beam env (beam_view p k) s) (λ t s'. by_index env p (k + 1) n s')

next_beam-beam_view : (p : Packet) (k : ℕ) → next_beam (beam_view p k) ≡ beam_view p (k + 1)
unfolding next_beam
next_beam-beam_view p k =
    let e₀ : p.beam_ids + 2 * k + 2 ≡ p.beam_ids + 2 * (k + 1) = omega arith in
    let e₁ : p.scales + 4 * (k * p.nfreq_coarse) + 4 * p.nfreq_coarse
        ≡ p.scales + 4 * ((k + 1) * p.nfreq_coarse) =
      grind arith in
    let e₂ : p.offsets + 4 * (k * p.nfreq_coarse) + 4 * p.nfreq_coarse
        ≡ p.offsets + 4 * ((k + 1) * p.nfreq_coarse) =
      grind arith in
    let e₃ : p.bytes + k * new_data_nbytes p + new_data_nbytes p
        ≡ p.bytes + (k + 1) * new_data_nbytes p =
      grind arith in
    rw (e₀, e₁, e₂, e₃) refl

handle_beams-view :
    (env : Env) (p : Packet) (n k : ℕ) (s : Stream)
    → handle_beams env n (beam_view p k) s ≡ by_index env p k n s
unfolding handle_beams
handle_beams-view env p zero k s = refl
handle_beams-view env p (suc n) k s =
    let first = handle_beam env (beam_view p k) s in
    ap (λ q. and_then first (λ t s'. handle_beams env n q s')) (next_beam-beam_view p k)
    ∙ ap (and_then first) (λ i t s'. handle_beams-view env p n (k + 1) s' i)

beam_view-first : (p : Packet) → beam_view p 0 ≡ p
beam_view-first p =
    let e₀ : p.beam_ids + 2 * 0 ≡ p.beam_ids = omega arith in
    let e₁ : p.scales + 4 * (0 * p.nfreq_coarse) ≡ p.scales = omega arith in
    let e₂ : p.offsets + 4 * (0 * p.nfreq_coarse) ≡ p.offsets = omega arith in
    let e₃ : p.bytes + 0 * new_data_nbytes p ≡ p.bytes = omega arith in rw (e₀, e₁, e₂, e₃) refl

-- The loop that moves the pointers of one packet from beam to beam hands on what the loop by index
-- hands on: in turn `k` the packet of beam `k` alone.
pub handle_beams-by_index :
    (env : Env) (p : Packet) (n : ℕ) (s : Stream)
    → handle_beams env n (first_beam p) s ≡ by_index env (first_beam p) 0 n s
handle_beams-by_index env p n s =
    ap (λ q. handle_beams env n q s) (sym (beam_view-first (first_beam p)))
    ∙ handle_beams-view env (first_beam p) n 0 s

block_le : (k a w : ℕ) → k < a → k * w + w ≤ a * w
block_le k a w h = grind arith

mul_assoc4 : (a b c d : ℕ) → a * (b * c * d) ≡ a * b * c * d
mul_assoc4 a b c d = grind arith

-- The packet after `k` turns of the loop: its pointers were moved on `k` times.
abbrev pub beam_after : Packet → ℕ → Packet
beam_after p zero = first_beam p
beam_after p (suc k) = next_beam (beam_after p k)

beam_after-beam_view : (p : Packet) (k : ℕ) → beam_after p k ≡ beam_view (first_beam p) k
beam_after-beam_view p zero = sym (beam_view-first (first_beam p))
beam_after-beam_view p (suc k) =
    ap next_beam (beam_after-beam_view p k)
    ∙ next_beam-beam_view (first_beam p) k
    ∙ ap (beam_view (first_beam p)) (add-one k)

-- A packet of one beam, which lies inside a packet of `nbytes` bytes.
abbrev pub IsBeamOf : Packet → ℕ → ℕ → Packet → Type 0
IsBeamOf p nbytes k v =
    (beam_id v 0 ≡ beam_id p k)
    × (v.nbeams ≡ 1)
    × (v.data_nbytes ≡ p.nfreq_coarse * p.nupfreq * p.ntsamp)
    × (v.beam_ids + 2 ≤ p.coarse_freq_ids)
    × (v.scales + 4 * p.nfreq_coarse ≤ p.offsets)
    × (v.offsets + 4 * p.nfreq_coarse ≤ p.bytes)
    × (v.bytes + v.data_nbytes ≤ nbytes)

beam_view-inside :
    (p : Packet) (nbytes k : ℕ)
    → IsChecked p nbytes
    → nbytes ≤ max_input_udp_packet_size
    → k < p.nbeams
    → IsBeamOf p nbytes k (beam_view (first_beam p) k)
unfolding beam_id first_beam packet_size header_size
beam_view-inside p nbytes k c small h =
    let freq = block_le k p.nbeams p.nfreq_coarse h in
    let block = block_le k p.nbeams (new_data_nbytes p) h in
    let all = mul_assoc4 p.nbeams p.nfreq_coarse p.nupfreq p.ntsamp in
    let fits : new_data_nbytes p % 2 ^ 16 ≡ new_data_nbytes p =
      omega (arith, block, all, c.size, small) in
    (
      ap (le_at 2 p.src) (omega arith),
      refl,
      fits,
      omega (arith, c.freqs_at),
      omega (arith, c.offsets_at, freq),
      omega (arith, c.data_at, freq),
      omega (
        arith, c.data_at, c.offsets_at, c.scales_at, c.freqs_at, c.beams_at, c.size, fits, block,
        all,
      ),
    )

-- When the loop over the beams of a decoded packet has moved its pointers on `k` times, the packet that
-- it hands on has one beam, with the id that the packet has for beam `k`, the number of data bytes of one
-- beam, and arrays that lie inside those of the packet.
pub beam_after-inside :
    (p : Packet) (nbytes k : ℕ)
    → IsChecked p nbytes
    → nbytes ≤ max_input_udp_packet_size
    → k < p.nbeams
    → IsBeamOf p nbytes k (beam_after p k)
beam_after-inside p nbytes k c small h =
    subst (IsBeamOf p nbytes k) (sym (beam_after-beam_view p k))
      (beam_view-inside p nbytes k c small h)
