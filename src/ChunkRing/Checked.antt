-- ===== src/ChunkRing/Checked.antt =====
-- The invariants that `_check_invariants` asserts hold of a ring buffer that is one stretch of time.
use ch_frb_io.Base.{
  min, ℕ, zero, suc, ◌+◌, ◌^◌, ◌≤◌, ◌<◌, ◌≡◌, refl, sym, ap, ◌∙◌, true, Option, none, some, List,
  [], ◌∷◌, arith, ltb, if◌then◌else◌, length, get_elem?, and-true, eq→==, le→leb, lt→ltb, ge→ltb,
  ge→leb,
}
use native.Mathlib.Decide.{dec_lt}
use ch_frb_io.Chunk.{Chunk}
use ch_frb_io.ChunkRing.{Config, Ring, Level, entry}
use ch_frb_io.ChunkRing.Check.{
  is_next, check_fields, follows_level, check_chunk, check_entry, check_entries, check_level,
  check_levels, check_downstream, check_first, check_invariants,
}
use ch_frb_io.ChunkRing.Slots.{Holds, get_elem?-beyond}
use ch_frb_io.ChunkRing.Place.{entry_first}
use ch_frb_io.ChunkRing.Part.{IsPart}
use ch_frb_io.ChunkRing.Timeline.{Covers, Linked, Telescope, HoldsAll}

pub Covers-le :
    (cfg : Config) (beam ids a : ℕ) (cs : List Chunk) (b : ℕ) → Covers cfg beam ids a cs b → a ≤ b
Covers-le cfg beam ids a [] b h = omega arith
Covers-le cfg beam ids a (c ∷ cs) b (p, e, h) =
    omega (arith, Covers-le cfg beam ids (a + 2 ^ ids) cs b h)

-- The entry after the `k`th, seen from chunk `c`: one chunk length on, and at the end the interval's.
abbrev pub Follows : ℕ → Chunk → List Chunk → ℕ → ℕ → Type 0
Follows ids c cs k b =
    (k + 1 < length cs
      → (d : Chunk) × (get_elem? cs (k + 1) ≡ some d) × (d.ichunk ≡ c.ichunk + 2 ^ ids))
    × (k + 1 ≡ length cs → c.ichunk + 2 ^ ids ≡ b)

Covers-at :
    (cfg : Config) (beam ids a : ℕ) (cs : List Chunk) (b k : ℕ)
    → Covers cfg beam ids a cs b
    → k < length cs
    → (c : Chunk) × (get_elem? cs k ≡ some c)
      × IsPart cfg beam ids c
      × (c.ichunk + 2 ^ ids ≤ b)
      × Follows ids c cs k b
Covers-at cfg beam ids a [] b k h l = absurd (omega arith)
Covers-at cfg beam ids a (c ∷ []) b zero (p, e, h) l =
    (c, refl, p, omega arith, ((λ l'. absurd (omega arith)), λ e'. omega arith))
Covers-at cfg beam ids a (c ∷ (d ∷ cs)) b zero (p, e, (p', e', h)) l = (
  c,
  refl,
  p,
  omega (arith, Covers-le cfg beam ids (a + 2 ^ ids + 2 ^ ids) cs b h),
  ((λ l'. (d, refl, omega arith)), λ l'. absurd (omega arith)),
)
Covers-at cfg beam ids a (c ∷ cs) b (suc k) (p, e, h) l =
    let (d, g, q, u, f) = Covers-at cfg beam ids (a + 2 ^ ids) cs b k h (omega arith) in
    (d, g, q, u, ((λ l'. step d.ichunk (f.0 (omega arith))), λ l'. f.1 (omega arith)))
  where
    step :
        (n : ℕ)
        → (x : Chunk) × (get_elem? cs (k + 1) ≡ some x) × (x.ichunk ≡ n + 2 ^ ids)
        → (x : Chunk) × (get_elem? (c ∷ cs) (suc k + 1) ≡ some x) × (x.ichunk ≡ n + 2 ^ ids)
    step n (x, y, z) = (x, ap (get_elem? (c ∷ cs)) {y = suc (k + 1)} (omega arith) ∙ y, z)

check_fields-true :
    (r : Ring) (ids : ℕ) (c : Chunk) → IsPart r.config r.beam_id ids c → check_fields r ids c ≡ true
unfolding check_fields
check_fields-true r ids c p = ground (arith, p.mask)

is_next-true :
    (c d : Chunk) (e : Option Chunk) (ids : ℕ)
    → e ≡ some d
    → c.binning ≡ 2 ^ ids
    → d.ichunk ≡ c.ichunk + 2 ^ ids
    → c.ichunk + 2 ^ ids < 2 ^ 64
    → is_next c e ≡ true
unfolding is_next
is_next-true c d e ids h g n l = rw (h, is_next) (eq→== _ _ (omega arith))

-- What the level before, `before`, has to be for a level that holds `cs` and ends at `b`.
abbrev Meets : Option Level → List Chunk → ℕ → Type 0
Meets none cs b = Unit {0}
Meets (some l) cs b =
    0 < length cs
    → (0 < l.ringbuf_size) × (d : Chunk) × (entry l l.ringbuf_pos ≡ some d) × (d.ichunk ≡ b)

follows_level-true :
    (c : Chunk) (before : Option Level) (cs : List Chunk) (b ids : ℕ)
    → Meets before cs b
    → 0 < length cs
    → c.binning ≡ 2 ^ ids
    → c.ichunk + 2 ^ ids ≡ b
    → b < 2 ^ 64
    → follows_level c before ≡ true
unfolding follows_level
follows_level-true c none cs b ids m l g e u = refl
follows_level-true c (some lev) cs b ids m l g e u =
    let (s, d, en, i) = m l in
    and-true _ _ (lt→ltb 0 lev.ringbuf_size s)
      (is_next-true c d (entry lev lev.ringbuf_pos) ids en g (i ∙ sym e) (omega arith))

module _ (r : Ring) (ids a b : ℕ) (before : Option Level) (l : Level) (cs : List Chunk)
    (h : Holds l cs) (cov : Covers r.config r.beam_id ids a cs b) (m : Meets before cs b)
    (small : b < 2 ^ 64) where
  next-true :
      (k : ℕ) (c : Chunk)
      → k < length cs
      → c.binning ≡ 2 ^ ids
      → c.ichunk + 2 ^ ids ≤ b
      → Follows ids c cs k b
      → (if ltb (k + 1) l.ringbuf_size
          then is_next c (entry l (l.ringbuf_pos + (k + 1)))
          else follows_level c before)
        ≡ true
  next-true k c lt g u f = elim (dec_lt (k + 1) (length cs)) [
    | yes more ↦
        let (d, e, n) = f.0 more in
        rw (lt→ltb (k + 1) l.ringbuf_size (omega (arith, h.size))) (
          is_next-true c d (entry l (l.ringbuf_pos + (k + 1))) ids
            (h.at (k + 1) (omega (arith, h.fits)) ∙ e) g n (omega arith))
    | no last ↦
        rw (ge→ltb (k + 1) l.ringbuf_size (omega (arith, h.size)))
          (follows_level-true c before cs b ids m (omega arith) g (f.1 (omega arith)) small)
  ]

  check_entry-true : (k : ℕ) → k < l.ringbuf_capacity → check_entry r ids before l k ≡ true
  unfolding check_entry
  check_entry-true k lt = elim (dec_lt k (length cs)) [
    | yes inside ↦
        let (c, e, p, u, f) = Covers-at r.config r.beam_id ids a cs b k cov inside in
        rw (ge→leb l.ringbuf_size k (omega (arith, h.size)), h.at k lt ∙ e)
          (unfold check_chunk in
            and-true (check_fields r ids c) _ (check_fields-true r ids c p)
              (next-true k c inside p.bin u f))
    | no outside ↦ rw (
      le→leb l.ringbuf_size k (omega (arith, h.size)),
      h.at k lt ∙ get_elem?-beyond cs k (omega arith),
    )
  ]

  check_entries-true :
      (n k : ℕ) → k + n ≤ l.ringbuf_capacity → check_entries r ids before l n k ≡ true
  unfolding check_entries
  check_entries-true zero k le = refl
  check_entries-true (suc n) k le =
      and-true _ _ (check_entry-true k (omega arith)) (check_entries-true n (k + 1) (omega arith))

  check_level-true : check_level r ids before l ≡ true
  unfolding check_level
  check_level-true =
      rw
        (
          le→leb 2 l.ringbuf_capacity h.two_slots,
          le→leb l.ringbuf_size l.ringbuf_capacity (omega (arith, h.size, h.fits)),
          eq→== (length l.ringbuf) l.ringbuf_capacity h.slots,
        )
        (check_entries-true l.ringbuf_capacity 0 (omega arith))

abbrev MeetsFirst : Option Level → List (List Chunk) → ℕ → Type 0
MeetsFirst before [] b = Unit {0}
MeetsFirst before (cs ∷ css) b = Meets before cs b

meets_next :
    (cfg : Config) (beam ids a b : ℕ) (l : Level) (cs : List Chunk) (css : List (List Chunk))
    → Holds l cs
    → Covers cfg beam ids a cs b
    → Linked cfg beam cs css
    → MeetsFirst (some l) css a
meets_next cfg beam ids a b l cs [] h c k = tt
meets_next cfg beam ids a b l [] (ds ∷ rest) h c k = λ lt. absurd (omega (arith, ap length k))
meets_next cfg beam ids a b l (d ∷ cs) (ds ∷ rest) h c k =
    λ lt. (omega (arith, h.size), d, entry_first d cs h, c.1)

check_levels-true :
    (r : Ring) (ids b : ℕ) (before : Option Level) (ls : List Level) (css : List (List Chunk))
    → HoldsAll ls css
    → Telescope r.config r.beam_id ids css b
    → MeetsFirst before css b
    → b < 2 ^ 64
    → check_levels r ids before ls ≡ true
unfolding check_levels
check_levels-true r ids b before [] css h tele m small = refl
check_levels-true r ids b before (l ∷ ls) [] h tele m small = absurd h
check_levels-true r ids b before (l ∷ ls) (cs ∷ css) (h, hs) (a, cov, link, tele) m small =
    and-true _ _ (check_level-true r ids a b before l cs h cov m small) (
      check_levels-true r (ids + 1) a (some l) ls css hs tele
        (meets_next r.config r.beam_id ids a b l cs css h cov link)
        (omega (arith, Covers-le r.config r.beam_id ids a cs b cov)))

-- The downstream thread stands within level 0, no further behind than its buffer reaches. With more
-- than one level, level 0 has room beyond that buffer.
abbrev pub Behind : Ring → List Level → Type 0
Behind r [] = ⊥
Behind r (l ∷ ls) =
    (0 < r.downstream_bufsize)
    × (r.downstream_bufsize + min 1 (length ls) ≤ l.ringbuf_capacity)
    × (l.ringbuf_pos ≤ r.downstream_pos)
    × (r.downstream_pos ≤ l.ringbuf_pos + l.ringbuf_size)
    × (l.ringbuf_pos + l.ringbuf_size ≤ r.downstream_pos + r.downstream_bufsize)

check_first-true : (r : Ring) (ls : List Level) → Behind r ls → check_first r ls ≡ true
unfolding check_first check_downstream
check_first-true r [] h = absurd h
check_first-true r (l ∷ ls) h = ground arith

-- The ring buffer holds the chunks `css`, level by level, without gaps up to chunk number `next`.
pub record IsValid (r : Ring) (css : List (List Chunk)) (next : ℕ) : Type 0 where
  pub holds : HoldsAll r.levels css
  pub telescope : Telescope r.config r.beam_id 0 css next
  pub behind : Behind r r.levels
  pub small : next < 2 ^ 64

-- Each assertion of `_check_invariants` holds of a valid ring buffer, so the check passes.
pub check_invariants-true :
    (r : Ring) (css : List (List Chunk)) (next : ℕ) → IsValid r css next → check_invariants r ≡ true
unfolding check_invariants
check_invariants-true r css next v =
    and-true _ _
      (check_levels-true r 0 next none r.levels css v.holds v.telescope (meets_none css) v.small)
      (check_first-true r r.levels v.behind)
  where
    meets_none : (css : List (List Chunk)) → MeetsFirst none css next
    meets_none [] = tt
    meets_none (cs ∷ css) = tt
