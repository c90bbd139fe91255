-- ===== src/ChunkRing/Delivery.antt =====
-- `get_assembled_chunk`: the downstream thread gets the chunks one after the other.
use ch_frb_io.Base.{
  ℕ, zero, suc, ◌+◌, ◌-◌, ◌≤◌, ◌<◌, ◌≡◌, refl, ap, ◌∙◌, Bool, true, false, not, ◌&&◌, none, some,
  List, [], ◌∷◌, arith, length, get_elem?, lt→ltb, ge→ltb, Bool-cases, inl, inr, if◌then◌else◌,
}
use ch_frb_io.Outcome.{done, waits}
use ch_frb_io.Chunk.{Chunk}
use ch_frb_io.ChunkRing.{Config, Ring, Level, entry}
use ch_frb_io.ChunkRing.Timeline.{Covers, Telescope, HoldsAll}
use ch_frb_io.ChunkRing.Checked.{Behind, IsValid}
use ch_frb_io.ChunkRing.Get.{first_end, first_entry, retrieve, get_assembled_chunk}

-- The number of the `k`th chunk of level 0, counted back from the end.
Covers-number :
    (cfg : Config) (beam a : ℕ) (cs : List Chunk) (b k : ℕ)
    → Covers cfg beam 0 a cs b
    → k < length cs
    → (c : Chunk) × (get_elem? cs k ≡ some c) × (c.ichunk + (length cs - k) ≡ b)
Covers-number cfg beam a [] b k h l = absurd (omega arith)
Covers-number cfg beam a (c ∷ cs) b zero (p, e, h) l =
    (c, refl, omega (arith, Covers_length cfg beam (a + 1) cs b h))
  where
    Covers_length :
        (cfg : Config) (beam a : ℕ) (cs : List Chunk) (b : ℕ)
        → Covers cfg beam 0 a cs b
        → a + length cs ≡ b
    Covers_length cfg beam a [] b h = omega arith
    Covers_length cfg beam a (c ∷ cs) b (p, e, h) =
        omega (arith, Covers_length cfg beam (a + 1) cs b h)
Covers-number cfg beam a (c ∷ cs) b (suc k) (p, e, h) l =
    let (d, g, n) = Covers-number cfg beam (a + 1) cs b k h (omega arith) in (d, g, omega arith)

-- The chunk where the downstream thread stands.
next_chunk :
    (r : Ring) (css : List (List Chunk)) (next : ℕ) (ls : List Level)
    → HoldsAll ls css
    → Telescope r.config r.beam_id 0 css next
    → Behind r ls
    → r.downstream_pos < first_end ls
    → (c : Chunk) × (first_entry ls r.downstream_pos ≡ some c)
      × (c.ichunk + (first_end ls - r.downstream_pos) ≡ next)
next_chunk r css next [] h t b l = absurd b
next_chunk r [] next (lev ∷ ls) h t b l = absurd h
next_chunk r (cs ∷ css) next (lev ∷ ls) (h, hs) (a, cov, link, tele) (z, f, p, q, w) l =
    let k = r.downstream_pos - lev.ringbuf_pos in
    let (c, g, n) = Covers-number r.config r.beam_id a cs next k cov (omega (arith, h.size)) in
    (
      c,
      ap (entry lev) {y = lev.ringbuf_pos + k} (omega arith)
          ∙ h.at k (omega (arith, h.size, h.fits))
          ∙ g,
      omega (arith, h.size),
    )

Behind-got :
    (r s : Ring) (ls : List Level)
    → s.downstream_pos ≡ r.downstream_pos + 1
    → s.downstream_bufsize ≡ r.downstream_bufsize
    → r.downstream_pos < first_end ls
    → Behind r ls
    → Behind s ls
Behind-got r s [] e f l b = b
Behind-got r s (lev ∷ ls) e f l (z, g, p, q, w) =
    (omega arith, omega arith, omega arith, omega arith, omega arith)

-- A chunk is ready for the downstream thread, and ends after the chunks that were retrieved. The call
-- returns it, waiting or not: the chunk whose number is the number of the ready chunks before the
-- end of the ring buffer, so that the chunks come one after the other. The ring buffer is valid, with
-- the same chunks, and its downstream thread is one chunk further.
pub get_assembled_chunk_ready :
    (wait : Bool) (r : Ring) (css : List (List Chunk)) (next : ℕ)
    → IsValid r css next
    → r.downstream_pos < first_end r.levels
    → ((c : Chunk)
        → first_entry r.levels r.downstream_pos ≡ some c
        → r.max_fpga_retrieved < c.fpga_end)
    → (c : Chunk) × (r' : Ring) × (get_assembled_chunk wait r ≡ done (some c) r')
      × (c.ichunk + (first_end r.levels - r.downstream_pos) ≡ next)
      × IsValid r' css next
      × (r'.downstream_pos ≡ r.downstream_pos + 1)
      × (r'.max_fpga_retrieved ≡ c.fpga_end)
unfolding get_assembled_chunk retrieve
get_assembled_chunk_ready wait r css next v l fresh =
    let (c, e, n) = next_chunk r css next r.levels v.holds v.telescope v.behind l in
    let r' = record r { downstream_pos = r.downstream_pos + 1; max_fpga_retrieved = c.fpga_end } in
    (
      c,
      r',
      simp (
        lt→ltb r.downstream_pos (first_end r.levels) l,
        e,
        lt→ltb r.max_fpga_retrieved c.fpga_end (fresh c e),
      ),
      n,
      record {
        holds = v.holds;
        telescope = v.telescope;
        behind = Behind-got r r' r.levels refl refl l v.behind;
        small = v.small;
      },
      refl,
      refl,
    )

-- No chunk is ready: the call changes nothing, and waits exactly if it was asked to and the stream has
-- not ended.
pub get_assembled_chunk-none :
    (wait : Bool) (r : Ring)
    → first_end r.levels ≤ r.downstream_pos
    → get_assembled_chunk wait r ≡ (if wait && not r.doneflag then waits r else done none r)
unfolding get_assembled_chunk retrieve
get_assembled_chunk-none false r l = simp (ge→ltb r.downstream_pos (first_end r.levels) l)
get_assembled_chunk-none true r l = elim (Bool-cases r.doneflag) [
  | inl d ↦ simp (ge→ltb r.downstream_pos (first_end r.levels) l, d)
  | inr d ↦ simp (ge→ltb r.downstream_pos (first_end r.levels) l, d)
]
