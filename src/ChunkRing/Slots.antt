-- ===== src/ChunkRing/Slots.antt =====
-- The slots of one level of the telescoping ring buffer, against the list of chunks that it holds.
use native.Mathlib.Decide.{ℕ_discrete, dec_lt}
use native.Mathlib.Nat.{mod-lt, add-mod_right}
use ch_frb_io.Base.{
  ℕ, zero, suc, ◌+◌, ◌-◌, ◌%◌, ◌≤◌, ◌<◌, ◌≡◌, ◌≢◌, refl, sym, ap, ◌∙◌, none, some, List, [], ◌∷◌,
  ◌++◌, arith, length, get_or, get_elem?, set, length-set, get_or-set_self, get_or-set_ne,
  length-append,
}
use ch_frb_io.Base.Window.{mod-ne}
use ch_frb_io.Chunk.{Chunk}
use ch_frb_io.ChunkRing.{Level, entry}
use ch_frb_io.ChunkRing.Put.{pop_level, push_level}

-- The level holds the chunks `cs`, oldest first, and nothing else.
pub record Holds (l : Level) (cs : List Chunk) : Type 0 where
  pub two_slots : 2 ≤ l.ringbuf_capacity
  pub slots : length l.ringbuf ≡ l.ringbuf_capacity
  pub size : l.ringbuf_size ≡ length cs
  pub fits : length cs ≤ l.ringbuf_capacity
  pub at : (k : ℕ) → k < l.ringbuf_capacity → entry l (l.ringbuf_pos + k) ≡ get_elem? cs k

get_elem?-snoc_ne :
    (cs : List Chunk) (c : Chunk) (k : ℕ)
    → k ≢ length cs
    → get_elem? (cs ++ (c ∷ [])) k ≡ get_elem? cs k
get_elem?-snoc_ne [] c zero h = absurd (h refl)
get_elem?-snoc_ne [] c (suc k) h = refl
get_elem?-snoc_ne (x ∷ cs) c zero h = refl
get_elem?-snoc_ne (x ∷ cs) c (suc k) h = get_elem?-snoc_ne cs c k (λ e. h (ap suc e))

get_elem?-snoc_self :
    (cs : List Chunk) (c : Chunk) → get_elem? (cs ++ (c ∷ [])) (length cs) ≡ some c
get_elem?-snoc_self [] c = refl
get_elem?-snoc_self (x ∷ cs) c = get_elem?-snoc_self cs c

pub get_elem?-beyond : (cs : List Chunk) (k : ℕ) → length cs ≤ k → get_elem? cs k ≡ none
get_elem?-beyond [] k h = refl
get_elem?-beyond (c ∷ cs) zero h = absurd (omega arith)
get_elem?-beyond (c ∷ cs) (suc k) h = get_elem?-beyond cs k (omega arith)

-- Two positions less than a capacity apart, on either side.
mod-ne_of_ne : (p i j n : ℕ) → i ≢ j → i < n → j < n → (p + i) % n ≢ (p + j) % n
mod-ne_of_ne p i j n ne h l e = elim (dec_lt i j) [
  | yes lt ↦
      mod-ne (p + i) (j - i) n (omega arith) (omega arith)
        (ap (λ t. t % n) {y = p + j} (omega arith) ∙ sym e)
  | no ge ↦
      mod-ne (p + j) (i - j) n (omega arith) (omega arith)
        (ap (λ t. t % n) {y = p + i} (omega arith) ∙ e)
]

pub push_level-Holds :
    (c : Chunk) {l : Level} {cs : List Chunk}
    → Holds l cs
    → length cs < l.ringbuf_capacity
    → Holds (push_level (some c) l) (cs ++ (c ∷ []))
unfolding push_level entry
push_level-Holds c {l} {cs} h lt = record {
  two_slots = h.two_slots;
  slots =
      length-set l.ringbuf ((l.ringbuf_pos + l.ringbuf_size) % l.ringbuf_capacity) (some c)
      ∙ h.slots;
  size = omega (arith, length-append cs (c ∷ []), h.size);
  fits = omega (arith, length-append cs (c ∷ []));
  at = λ k b. elim (ℕ_discrete k (length cs)) [
    | yes e ↦
        rw (e, h.size)
          (get_or-set_self l.ringbuf ((l.ringbuf_pos + length cs) % l.ringbuf_capacity) (some c)
              none (rw h.slots (mod-lt _ (omega arith)))
            ∙ sym (get_elem?-snoc_self cs c))
    | no ne ↦
        get_or-set_ne l.ringbuf ((l.ringbuf_pos + l.ringbuf_size) % l.ringbuf_capacity)
          ((l.ringbuf_pos + k) % l.ringbuf_capacity) (some c) none
          (mod-ne_of_ne l.ringbuf_pos l.ringbuf_size k l.ringbuf_capacity (omega (arith, h.size))
            (omega (arith, h.size)) b)
        ∙ h.at k b
        ∙ sym (get_elem?-snoc_ne cs c k ne)
  ];
}

pub pop_level-Holds :
    (c : Chunk) {l : Level} {cs : List Chunk} → Holds l (c ∷ cs) → Holds (pop_level 1 l) cs
unfolding pop_level entry
pop_level-Holds c {l} {cs} h = record {
  two_slots = h.two_slots;
  slots = length-set l.ringbuf (l.ringbuf_pos % l.ringbuf_capacity) none ∙ h.slots;
  size = omega (arith, h.size);
  fits = omega (arith, h.fits);
  at = λ k b. elim (dec_lt (suc k) l.ringbuf_capacity) [
    | yes lt ↦
        get_or-set_ne l.ringbuf (l.ringbuf_pos % l.ringbuf_capacity)
          ((l.ringbuf_pos + 1 + k) % l.ringbuf_capacity) none none
          (λ e.
            mod-ne l.ringbuf_pos (suc k) l.ringbuf_capacity (omega arith) lt
              (ap (λ t. t % l.ringbuf_capacity) {y = l.ringbuf_pos + 1 + k} (omega arith) ∙ sym e))
        ∙ ap (λ t. get_or l.ringbuf (t % l.ringbuf_capacity) none) {y = l.ringbuf_pos + suc k}
            (omega arith)
        ∙ h.at (suc k) lt
    | no ge ↦
        ap (λ t. get_or (set l.ringbuf (l.ringbuf_pos % l.ringbuf_capacity) none) t none)
          (ap (λ t. t % l.ringbuf_capacity) {y = l.ringbuf_pos + l.ringbuf_capacity} (omega arith)
            ∙ add-mod_right l.ringbuf_pos l.ringbuf_capacity)
        ∙ get_or-set_self l.ringbuf (l.ringbuf_pos % l.ringbuf_capacity) none none
            (rw h.slots (mod-lt _ (omega (arith, h.two_slots))))
        ∙ sym (get_elem?-beyond cs k (omega (arith, h.fits)))
  ];
}

pub pop_level_twice : (l : Level) → pop_level 2 l ≡ pop_level 1 (pop_level 1 l)
unfolding pop_level
pop_level_twice l = ground arith

pub pop_level_none : (l : Level) → pop_level 0 l ≡ l
unfolding pop_level
pop_level_none l = ground arith
