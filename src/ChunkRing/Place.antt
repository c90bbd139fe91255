-- ===== src/ChunkRing/Place.antt =====
-- What a successful plan of `_put_assembled_chunk` makes of the levels: they hold one stretch of time
-- again, which now ends after the chunk that was put.
use mathlib.Core.Path.{subst₂}
use native.Mathlib.Numerals.{add-one}
use native.Mathlib.Nat.{two-pow-succ}
use ch_frb_io.Base.{
  ℕ, ◌+◌, ◌^◌, ◌<◌, ◌≡◌, refl, sym, ap, subst, ◌∙◌, true, false, some, List, [], ◌∷◌, ◌++◌, arith,
  ltb, length, ltb→lt, ltb→ge, Bool-cases, inl, inr,
}
use ch_frb_io.Outcome.{Result, returns, fails}
use ch_frb_io.Chunk.{Chunk}
use ch_frb_io.ChunkRing.{Env, Ring, Level, entry}
use ch_frb_io.ChunkRing.Put.{Move, idle_moves, plan, pop_last, merge, prepend, commit, pop_level}
use ch_frb_io.ChunkRing.Slots.{
  Holds, push_level-Holds, pop_level-Holds, pop_level_twice, pop_level_none,
}
use ch_frb_io.ChunkRing.Timeline.{
  Covers-snoc, Linked-snoc, Telescope, HoldsAll, commit_idle, IsFilled,
}
use ch_frb_io.ChunkRing.Part.{IsPart, merge-IsPart}

-- What a put of chunk `c` makes of the chunks that the levels `ls` hold, from level `ids` on: `c` is the
-- newest chunk of its level and every other chunk stays, but where the level is full its oldest chunk
-- goes, or, above the bottom, its two oldest go and the chunk made of them is put on the level below.
pub data Grown (env : Env) (r : Ring)
    : ℕ → Chunk → List Level → List (List Chunk) → List (List Chunk) → Type 0 where
  has_room :
      (ids : ℕ) (c : Chunk) (l : Level) (ls : List Level) (cs : List Chunk)
      (css : List (List Chunk))
      → ltb l.ringbuf_size l.ringbuf_capacity ≡ true
      → Grown env r ids c (l ∷ ls) (cs ∷ css) ((cs ++ (c ∷ [])) ∷ css)
  drops_oldest :
      (ids : ℕ) (c : Chunk) (l : Level) (x : Chunk) (xs : List Chunk)
      → ltb l.ringbuf_size l.ringbuf_capacity ≡ false
      → Grown env r ids c (l ∷ []) ((x ∷ xs) ∷ []) ((xs ++ (c ∷ [])) ∷ [])
  merges_oldest :
      (ids : ℕ) (c : Chunk) (l : Level) (ls : List Level) (x y : Chunk) (zs : List Chunk)
      (css css' : List (List Chunk)) (t : Chunk × Chunk × Chunk)
      → ltb l.ringbuf_size l.ringbuf_capacity ≡ false
      → merge env r ids (some x) (some y) ≡ returns t
      → Grown env r (ids + 1) t.2 ls css css'
      → Grown env r ids c (l ∷ ls) ((x ∷ (y ∷ zs)) ∷ css) ((zs ++ (c ∷ [])) ∷ css')

-- What the levels hold once the moves are made.
abbrev pub Placed :
    Env → Ring → ℕ → Chunk → List Level → List (List Chunk) → List Level → ℕ → Type 0
Placed env r ids c before css ls b =
    (css' : List (List Chunk)) × HoldsAll ls css'
    × Telescope r.config r.beam_id ids css' (b + 2 ^ ids)
    × IsFilled css'
    × Grown env r ids c before css css'

prepend-eq :
    (m : Move) (q : Result (List Move)) (moves : List Move)
    → prepend m q ≡ returns moves
    → (ms : List Move) × (q ≡ returns ms) × (moves ≡ m ∷ ms)
prepend-eq m (fails e) moves h = cc
prepend-eq m (returns ms) moves h = (ms, refl, cc)

pop_last-eq :
    (r : Ring) (c x : Chunk) (moves : List Move)
    → pop_last r c (some x) ≡ returns moves
    → moves ≡ record { push = some c; pops = x ∷ [] } ∷ []
unfolding pop_last
pop_last-eq r c x moves e = ground arith

pub plan_room :
    (env : Env) (r : Ring) (ids : ℕ) (c : Chunk) (l : Level) (ls : List Level)
    → ltb l.ringbuf_size l.ringbuf_capacity ≡ true
    → plan env r ids c (l ∷ ls) ≡ returns (record { push = some c; pops = [] } ∷ idle_moves ls)
unfolding plan idle_moves
plan_room env r ids c l [] h = rw h
plan_room env r ids c l (m ∷ ls) h = rw h

pub plan_last :
    (env : Env) (r : Ring) (ids : ℕ) (c : Chunk) (l : Level)
    → ltb l.ringbuf_size l.ringbuf_capacity ≡ false
    → plan env r ids c (l ∷ []) ≡ pop_last r c (entry l l.ringbuf_pos)
unfolding plan
plan_last env r ids c l h = rw h

module _ (env : Env) (r : Ring) (ids : ℕ) (c : Chunk) (l m : Level) (ls : List Level) where
  abbrev pub go_on : Result (Chunk × Chunk × Chunk) → Result (List Move)
  go_on w = elim w [
    | fails e ↦ fails e
    | returns (a, b, c') ↦
        prepend (record { push = some c; pops = a ∷ b ∷ [] }) (plan env r (ids + 1) c' (m ∷ ls))
  ]

  pub plan_full :
      ltb l.ringbuf_size l.ringbuf_capacity ≡ false
      → plan env r ids c (l ∷ (m ∷ ls))
        ≡ go_on (merge env r ids (entry l l.ringbuf_pos) (entry l (l.ringbuf_pos + 1)))
  unfolding plan
  plan_full h = rw h

  pub go_on-eq :
      (w : Result (Chunk × Chunk × Chunk)) (moves : List Move)
      → go_on w ≡ returns moves
      → (t : Chunk × Chunk × Chunk) × (w ≡ returns t)
        × (ms : List Move) × (plan env r (ids + 1) t.2 (m ∷ ls) ≡ returns ms)
        × (moves ≡ record { push = some c; pops = t.0 ∷ t.1 ∷ [] } ∷ ms)
  go_on-eq (fails e) moves h = cc
  go_on-eq (returns t) moves h =
      let (ms, p, q) =
        prepend-eq (record { push = some c; pops = t.0 ∷ t.1 ∷ [] })
          (plan env r (ids + 1) t.2 (m ∷ ls)) moves h in
      (t, refl, ms, p, q)

length_snoc : (cs : List Chunk) (c : Chunk) → 0 < length (cs ++ (c ∷ []))
length_snoc [] c = omega arith
length_snoc (x ∷ cs) c = omega arith

pub entry_first :
    {l : Level} (x : Chunk) (xs : List Chunk) → Holds l (x ∷ xs) → entry l l.ringbuf_pos ≡ some x
entry_first {l} x xs h =
    ap (entry l) {y = l.ringbuf_pos + 0} (omega arith) ∙ h.at 0 (omega (arith, h.two_slots))

entry_second :
    {l : Level} (x y : Chunk) (xs : List Chunk)
    → Holds l (x ∷ y ∷ xs)
    → entry l (l.ringbuf_pos + 1) ≡ some y
entry_second x y xs h = h.at 1 (omega (arith, h.two_slots))

twice_as_long : (a ids : ℕ) → a + 2 ^ (ids + 1) ≡ a + 2 ^ ids + 2 ^ ids
twice_as_long a ids = rw (add-one ids) (omega (arith, two-pow-succ ids))

-- A push where there is room.
place_room :
    (env : Env) (r : Ring) (ids : ℕ) (c : Chunk) (b : ℕ) (l : Level) (ls : List Level)
    (css : List (List Chunk))
    → IsPart r.config r.beam_id ids c
    → c.ichunk ≡ b
    → ltb l.ringbuf_size l.ringbuf_capacity ≡ true
    → HoldsAll (l ∷ ls) css
    → Telescope r.config r.beam_id ids css b
    → Placed env r ids c
        (l ∷ ls)
        css
        (commit (record { push = some c; pops = [] } ∷ idle_moves ls) (l ∷ ls))
        b
unfolding commit
place_room env r ids c b l ls [] p e t h tele = absurd h
place_room env r ids c b l ls (cs ∷ css) p e t (h, hs) (a, cov, link, tele) = (
  (cs ++ (c ∷ [])) ∷ css,
  (
    rw (pop_level_none l)
        (push_level-Holds c h (omega (arith, ltb→lt l.ringbuf_size l.ringbuf_capacity t, h.size))),
    rw (commit_idle ls) hs,
  ),
  (
    a,
    Covers-snoc r.config r.beam_id ids a cs c b cov p e,
    Linked-snoc r.config r.beam_id cs c css,
    tele,
  ),
  length_snoc cs c,
  has_room ids c l ls cs css t,
)

-- A push on the bottom level when it is full: its oldest chunk goes.
place_last :
    (env : Env) (r : Ring) (ids : ℕ) (c : Chunk) (b : ℕ) (l : Level) (css : List (List Chunk))
    (moves : List Move)
    → IsPart r.config r.beam_id ids c
    → c.ichunk ≡ b
    → ltb l.ringbuf_size l.ringbuf_capacity ≡ false
    → HoldsAll (l ∷ []) css
    → Telescope r.config r.beam_id ids css b
    → pop_last r c (entry l l.ringbuf_pos) ≡ returns moves
    → Placed env r ids c (l ∷ []) css (commit moves (l ∷ [])) b
unfolding commit pop_level
place_last env r ids c b l [] moves p e t h tele q = absurd h
place_last env r ids c b l (cs ∷ (ds ∷ rest)) moves p e t (h, hs) tele q = absurd hs
place_last env r ids c b l ([] ∷ []) moves p e t (h, hs) tele q =
    absurd (omega (arith, ltb→ge l.ringbuf_size l.ringbuf_capacity t, h.size, h.two_slots))
place_last env r ids c b l ((x ∷ xs) ∷ []) moves p e t (h, hs) (a, cov, link, tele) q =
    let moved : moves ≡ record { push = some c; pops = x ∷ [] } ∷ [] =
      pop_last-eq r c x moves (ap (pop_last r c) (sym (entry_first x xs h)) ∙ q) in
    rw moved (
      (xs ++ (c ∷ [])) ∷ [],
      (push_level-Holds c (pop_level-Holds x h) (omega (arith, h.fits)), tt),
      (
        a + 2 ^ ids,
        Covers-snoc r.config r.beam_id ids (a + 2 ^ ids) xs c b cov.2 p e,
        Linked-snoc r.config r.beam_id xs c [],
        tt,
      ),
      length_snoc xs c,
      drops_oldest ids c l x xs t,
    )

pub returns-injective : {ms ns : List Move} → returns ms ≡ returns ns → ms ≡ ns
returns-injective e = cc

-- A push on a full level above the bottom: its two oldest chunks go, and the chunk made of them is
-- placed on the level below by the same steps.
place_full :
    (env : Env) (r : Ring) (ids : ℕ) (c : Chunk) (l m : Level) (ls : List Level)
    (css : List (List Chunk)) (b : ℕ) (moves : List Move)
    → IsPart r.config r.beam_id ids c
    → c.ichunk ≡ b
    → ltb l.ringbuf_size l.ringbuf_capacity ≡ false
    → HoldsAll (l ∷ (m ∷ ls)) css
    → Telescope r.config r.beam_id ids css b
    → go_on env r ids c l m ls
        (merge env r ids (entry l l.ringbuf_pos) (entry l (l.ringbuf_pos + 1)))
      ≡ returns moves
    → ((c' : Chunk) (css' : List (List Chunk)) (b' : ℕ) (ms : List Move)
        → IsPart r.config r.beam_id (ids + 1) c'
        → c'.ichunk ≡ b'
        → HoldsAll (m ∷ ls) css'
        → Telescope r.config r.beam_id (ids + 1) css' b'
        → plan env r (ids + 1) c' (m ∷ ls) ≡ returns ms
        → Placed env r (ids + 1) c' (m ∷ ls) css' (commit ms (m ∷ ls)) b')
    → Placed env r ids c (l ∷ (m ∷ ls)) css (commit moves (l ∷ (m ∷ ls))) b
unfolding commit pop_level
place_full env r ids c l m ls [] b moves p e t h tele q rec = absurd h
place_full env r ids c l m ls ([] ∷ css) b moves p e t (h, hs) tele q rec =
    absurd (omega (arith, ltb→ge l.ringbuf_size l.ringbuf_capacity t, h.size, h.two_slots))
place_full env r ids c l m ls ((x ∷ []) ∷ css) b moves p e t (h, hs) tele q rec =
    absurd (omega (arith, ltb→ge l.ringbuf_size l.ringbuf_capacity t, h.size, h.two_slots))
place_full env r ids c l m ls ((x ∷ (y ∷ zs)) ∷ css) b moves p e t (h, hs) (a, cov, link, tele) q
      rec =
    let q' =
      subst₂ (λ u v. go_on env r ids c l m ls (merge env r ids u v) ≡ returns moves)
        (entry_first x (y ∷ zs) h) (entry_second x y zs h) q in
    let (tr, w, ms, pm, mm) =
      go_on-eq env r ids c l m ls (merge env r ids (some x) (some y)) moves q' in
    let (pa, pb, part, ich) = merge-IsPart env r ids x y tr.0 tr.1 tr.2 w in
    let (css', hs', tele', filled, grown) = rec tr.2 css a ms part (ich ∙ cov.1) hs tele pm in
    rw mm (
      (zs ++ (c ∷ [])) ∷ css',
      (
        rw (pop_level_twice l)
            (push_level-Holds c (pop_level-Holds y (pop_level-Holds x h)) (omega (arith, h.fits))),
        hs',
      ),
      (
        a + 2 ^ ids + 2 ^ ids,
        Covers-snoc r.config r.beam_id ids (a + 2 ^ ids + 2 ^ ids) zs c b cov.2.2 p e,
        Linked-snoc r.config r.beam_id zs c css',
        subst (Telescope r.config r.beam_id (ids + 1) css') {x = a + 2 ^ (ids + 1)}
            (twice_as_long a ids) tele',
      ),
      length_snoc zs c,
      merges_oldest ids c l (m ∷ ls) x y zs css css' tr t w grown,
    )

pub plan-Placed :
    (env : Env) (r : Ring) (ids : ℕ) (c : Chunk) (l : Level) (ls : List Level)
    (css : List (List Chunk)) (b : ℕ) (moves : List Move)
    → IsPart r.config r.beam_id ids c
    → c.ichunk ≡ b
    → HoldsAll (l ∷ ls) css
    → Telescope r.config r.beam_id ids css b
    → plan env r ids c (l ∷ ls) ≡ returns moves
    → Placed env r ids c (l ∷ ls) css (commit moves (l ∷ ls)) b
unfolding commit
plan-Placed env r ids c l [] css b moves p e h tele q =
    elim (Bool-cases (ltb l.ringbuf_size l.ringbuf_capacity)) [
      | inl t ↦
          subst (λ ms. Placed env r ids c (l ∷ []) css (commit ms (l ∷ [])) b)
            (returns-injective (sym (plan_room env r ids c l [] t) ∙ q))
            (place_room env r ids c b l [] css p e t h tele)
      | inr t ↦
          place_last env r ids c b l css moves p e t h tele (sym (plan_last env r ids c l t) ∙ q)
    ]
plan-Placed env r ids c l (m ∷ ls) css b moves p e h tele q =
    elim (Bool-cases (ltb l.ringbuf_size l.ringbuf_capacity)) [
      | inl t ↦
          subst (λ ms. Placed env r ids c (l ∷ (m ∷ ls)) css (commit ms (l ∷ (m ∷ ls))) b)
            (returns-injective (sym (plan_room env r ids c l (m ∷ ls) t) ∙ q))
            (place_room env r ids c b l (m ∷ ls) css p e t h tele)
      | inr t ↦
          place_full env r ids c l m ls css b moves p e t h tele
            (sym (plan_full env r ids c l m ls t) ∙ q)
            (λ c' css' b' ms. plan-Placed env r (ids + 1) c' m ls css' b' ms)
    ]
