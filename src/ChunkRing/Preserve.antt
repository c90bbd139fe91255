-- ===== src/ChunkRing/Preserve.antt =====
-- The moves that `_put_assembled_chunk` plans, once they are made: the ring buffer is valid again and
-- has grown by the chunk.
use ch_frb_io.Base.{
  min, ℕ, suc, ◌+◌, ◌-◌, ◌^◌, ◌≤◌, ◌<◌, ◌≡◌, refl, sym, ap, ◌∙◌, Option, none, some, List, [], ◌∷◌,
  arith, ltb, length, ltb→ge, Bool-cases, ◌⊎◌, inl, inr,
}
use ch_frb_io.Outcome.{returns}
use ch_frb_io.Chunk.{Chunk}
use ch_frb_io.ChunkRing.{Env, Ring, Level, entry}
use ch_frb_io.ChunkRing.Put.{
  Move, idle_moves, plan, pop_last, merge, commit, push_level, pop_level, num_dropped,
  advance_downstream,
}
use ch_frb_io.ChunkRing.Part.{IsPart}
use ch_frb_io.ChunkRing.Timeline.{Telescope, HoldsAll}
use ch_frb_io.ChunkRing.Place.{
  Grown, plan-Placed, plan_room, plan_last, plan_full, go_on-eq, returns-injective,
}
use ch_frb_io.ChunkRing.Checked.{Behind, IsValid}

-- The first move of a plan: the chunk is pushed, and a full level gives up at most two chunks, or one
-- if it is the only level.
abbrev FirstMove : Chunk → Level → List Level → List Move → Type 0
FirstMove c l ls moves =
    (pops : List Chunk) × (ms : List Move) × (moves ≡ record { push = some c; pops = pops } ∷ ms)
    × ((length pops ≡ 0)
        ⊎ ((length pops ≤ 1 + min 1 (length ls)) × (l.ringbuf_capacity ≤ l.ringbuf_size)))

pop_last_first :
    (r : Ring) (c : Chunk) (l : Level) (e : Option Chunk) (moves : List Move)
    → l.ringbuf_capacity ≤ l.ringbuf_size
    → pop_last r c e ≡ returns moves
    → FirstMove c l [] moves
unfolding pop_last
pop_last_first r c l none moves f q = ([], [], ground arith, inl refl)
pop_last_first r c l (some x) moves f q = (x ∷ [], [], ground arith, inr (omega arith, f))

plan_first :
    (env : Env) (r : Ring) (ids : ℕ) (c : Chunk) (l : Level) (ls : List Level) (moves : List Move)
    → plan env r ids c (l ∷ ls) ≡ returns moves
    → FirstMove c l ls moves
plan_first env r ids c l [] moves q = elim (Bool-cases (ltb l.ringbuf_size l.ringbuf_capacity)) [
  | inl t ↦ (
    [],
    idle_moves [],
    sym (returns-injective (sym (plan_room env r ids c l [] t) ∙ q)),
    inl refl,
  )
  | inr t ↦
      pop_last_first r c l (entry l l.ringbuf_pos) moves
        (ltb→ge l.ringbuf_size l.ringbuf_capacity t) (sym (plan_last env r ids c l t) ∙ q)
]
plan_first env r ids c l (m ∷ ls) moves q =
    elim (Bool-cases (ltb l.ringbuf_size l.ringbuf_capacity)) [
      | inl t ↦ (
        [],
        idle_moves (m ∷ ls),
        sym (returns-injective (sym (plan_room env r ids c l (m ∷ ls) t) ∙ q)),
        inl refl,
      )
      | inr t ↦
          let (tr, w, ms, pm, mm) =
            go_on-eq env r ids c l m ls
              (merge env r ids (entry l l.ringbuf_pos) (entry l (l.ringbuf_pos + 1))) moves
              (sym (plan_full env r ids c l m ls t) ∙ q) in
          (tr.0 ∷ tr.1 ∷ [], ms, mm, inr (omega arith, ltb→ge l.ringbuf_size l.ringbuf_capacity t))
    ]

length-commit : (ms : List Move) (ls : List Level) → length (commit ms ls) ≡ length ls
unfolding commit
length-commit [] ls = refl
length-commit (m ∷ ms) [] = refl
length-commit (m ∷ ms) (l ∷ ls) = ap suc (length-commit ms ls)

-- Where the downstream thread stands after a move of level 0 that pops `n` chunks, by numbers only.
Behind_moved :
    (pos size capacity buf dpos more n : ℕ)
    → 0 < buf
    → buf + more ≤ capacity
    → 2 ≤ capacity
    → pos ≤ dpos
    → dpos ≤ pos + size
    → pos + size ≤ dpos + buf
    → more ≤ 1
    → (n ≡ 0) ⊎ ((n ≤ 1 + more) × (capacity ≤ size))
    → let d = dpos + (pos + n + (size - n + 1) - buf - dpos) in
      (pos + n ≤ d) × (d ≤ pos + n + (size - n + 1)) × (pos + n + (size - n + 1) ≤ d + buf)
Behind_moved pos size capacity buf dpos more n z f t p q w m (inl e) =
    (omega arith, omega arith, omega arith)
Behind_moved pos size capacity buf dpos more n z f t p q w m (inr (a, b)) =
    (omega arith, omega arith, omega arith)

-- The downstream thread is moved on when it is too far behind, and only then.
Behind-advance :
    (r : Ring) (c : Chunk) (l : Level) (ls : List Level) (moves : List Move)
    → 2 ≤ l.ringbuf_capacity
    → Behind r (l ∷ ls)
    → FirstMove c l ls moves
    → Behind (advance_downstream r (commit moves (l ∷ ls))) (commit moves (l ∷ ls))
unfolding advance_downstream num_dropped commit push_level pop_level
Behind-advance r c l ls moves two (z, f, p, q, w) (pops, ms, e, k) =
    let (u, v, x) =
      Behind_moved l.ringbuf_pos l.ringbuf_size l.ringbuf_capacity r.downstream_bufsize
        r.downstream_pos (min 1 (length ls)) (length pops) z f two p q w (omega arith) k in
    rw e (z, rw (length-commit ms ls) f, u, v, x)

-- The ring buffer right after step 2.
abbrev pub committed : Ring → List Move → Ring
committed r moves = advance_downstream r (commit moves r.levels)

two_slots_first :
    (l : Level) (ls : List Level) (css : List (List Chunk))
    → HoldsAll (l ∷ ls) css
    → 2 ≤ l.ringbuf_capacity
two_slots_first l ls [] h = absurd h
two_slots_first l ls (cs ∷ css) (h, hs) = h.two_slots

advance-levels : (r : Ring) (ls : List Level) → (advance_downstream r ls).levels ≡ ls
unfolding advance_downstream
advance-levels r ls = refl

advance-config :
    (r : Ring) (ls : List Level)
    → ((advance_downstream r ls).config ≡ r.config)
      × ((advance_downstream r ls).beam_id ≡ r.beam_id)
unfolding advance_downstream
advance-config r ls = (refl, refl)

-- If the plan succeeds, the levels that it makes are a valid ring buffer again, which has grown by the
-- chunk.
pub commit-IsValid :
    (env : Env) (r : Ring) (c : Chunk) (css : List (List Chunk)) (next : ℕ) (moves : List Move)
    → IsValid r css next
    → IsPart r.config r.beam_id 0 c
    → c.ichunk ≡ next
    → next + 1 < 2 ^ 64
    → plan env r 0 c r.levels ≡ returns moves
    → (css' : List (List Chunk)) × IsValid (committed r moves) css' (next + 1)
      × Grown env r 0 c r.levels css css'
unfolding advance_downstream
commit-IsValid env r c css next moves v p e small q =
    placed r.levels refl v.holds v.telescope v.behind q
  where
    placed :
        (ls : List Level)
        → r.levels ≡ ls
        → HoldsAll ls css
        → Telescope r.config r.beam_id 0 css next
        → Behind r ls
        → plan env r 0 c ls ≡ returns moves
        → (css' : List (List Chunk)) × IsValid (committed r moves) css' (next + 1)
          × Grown env r 0 c ls css css'
    placed [] lv h tele b q = absurd b
    placed (l ∷ ls) lv h tele b q =
        let (css', hs, ts, filled, grown) =
          plan-Placed env r 0 c l ls css next moves p e h tele q in
        (
          css',
          rw lv record {
            holds = hs;
            telescope = ts;
            behind =
                Behind-advance r c l ls moves (two_slots_first l ls css h) b
                  (plan_first env r 0 c l ls moves q);
            small = small;
          },
          grown,
        )
