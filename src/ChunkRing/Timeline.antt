-- ===== src/ChunkRing/Timeline.antt =====
-- The telescoping ring buffer as a stretch of time without gaps: each level covers an interval of
-- chunk numbers, and starts where the next level ends.
use ch_frb_io.Base.{ℕ, ◌+◌, ◌^◌, ◌<◌, ◌≡◌, refl, sym, ap, ◌∙◌, List, [], ◌∷◌, ◌++◌, length}
use ch_frb_io.Chunk.{Chunk}
use ch_frb_io.ChunkRing.{Config, Level}
use ch_frb_io.ChunkRing.Put.{idle_moves, commit, push_level}
use ch_frb_io.ChunkRing.Slots.{Holds, pop_level_none}
use ch_frb_io.ChunkRing.Part.{IsPart}

module _ (cfg : Config) (beam : ℕ) where
  -- Chunks of level `ids` that cover the chunk numbers from `a` up to `b`.
  abbrev pub Covers : ℕ → ℕ → List Chunk → ℕ → Type 0
  Covers ids a [] b = a ≡ b
  Covers ids a (c ∷ cs) b = IsPart cfg beam ids c × (c.ichunk ≡ a) × Covers ids (a + 2 ^ ids) cs b

  -- A level is empty only if the ones below it are.
  abbrev pub Linked : List Chunk → List (List Chunk) → Type 0
  Linked cs [] = Unit {0}
  Linked (c ∷ cs) (ds ∷ rest) = Unit {0}
  Linked [] (ds ∷ rest) = ds ≡ []

  -- The levels from `ids` on, whose first one ends at `b`.
  abbrev pub Telescope : ℕ → List (List Chunk) → ℕ → Type 0
  Telescope ids [] b = Unit {0}
  Telescope ids (cs ∷ rest) b =
      (a : ℕ) × Covers ids a cs b × Linked cs rest × Telescope (ids + 1) rest a

  pub Covers-snoc :
      (ids a : ℕ) (cs : List Chunk) (c : Chunk) (b : ℕ)
      → Covers ids a cs b
      → IsPart cfg beam ids c
      → c.ichunk ≡ b
      → Covers ids a (cs ++ (c ∷ [])) (b + 2 ^ ids)
  Covers-snoc ids a [] c b h p e = (p, e ∙ sym h, ap (λ t. t + 2 ^ ids) h)
  Covers-snoc ids a (x ∷ cs) c b (q, i, h) p e = (q, i, Covers-snoc ids (a + 2 ^ ids) cs c b h p e)

  pub Linked-snoc :
      (cs : List Chunk) (c : Chunk) (rest : List (List Chunk)) → Linked (cs ++ (c ∷ [])) rest
  Linked-snoc cs c [] = tt
  Linked-snoc [] c (ds ∷ rest) = tt
  Linked-snoc (x ∷ cs) c (ds ∷ rest) = tt

-- Each level holds its list of chunks.
abbrev pub HoldsAll : List Level → List (List Chunk) → Type 0
HoldsAll [] [] = Unit {0}
HoldsAll [] (cs ∷ css) = ⊥
HoldsAll (l ∷ ls) [] = ⊥
HoldsAll (l ∷ ls) (cs ∷ css) = Holds l cs × HoldsAll ls css

pub commit_idle : (ls : List Level) → commit (idle_moves ls) ls ≡ ls
unfolding commit idle_moves push_level
commit_idle [] = refl
commit_idle (l ∷ ls) = rw (pop_level_none l, commit_idle ls)

-- The first level is not empty.
abbrev pub IsFilled : List (List Chunk) → Type 0
IsFilled [] = Unit {0}
IsFilled (cs ∷ css) = 0 < length cs
