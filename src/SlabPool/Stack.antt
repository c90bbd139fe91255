-- ===== src/SlabPool/Stack.antt =====
-- The memory slab pool is a stack that loses no slab.
use native.Mathlib.Decide.{ℕ_discrete}
use native.Mathlib.Nat.{mod-eq_of_lt}
use ch_frb_io.Base.{
  ℕ, zero, suc, ◌+◌, ◌-◌, ◌*◌, ◌%◌, ◌^◌, ◌≤◌, ◌<◌, ◌≡◌, ◌≢◌, refl, sym, ap, ◌∙◌, min, Bool, true,
  false, Option, none, some, arith, if◌then◌else◌, length, get_or, set, replicate, length-set,
  length-replicate, get_or-set_self, get_or-set_ne, lt→ltb, ge→ltb, ge→leb, eq→==,
}
use ch_frb_io.Outcome.{pos, returns, done}
use ch_frb_io.SlabPool.{
  to_int, Slab, Pool, hand_out, get_slab, put_slab, allocate_slabs, allocate, make_pool,
}

-- The slabs are at the bottom of the vector, each of the pool's size, and the rest is null.
pub record IsValid (p : Pool) : Type 0 where
  pub all_slots : length p.slabs ≡ p.nslabs
  pub in_range : p.curr_size ≤ p.nslabs
  pub mark : p.low_water_mark ≤ p.curr_size
  pub filled :
      (i : ℕ)
      → i < p.curr_size
      → (s : Slab) × (get_or p.slabs i none ≡ some s) × (length s ≡ p.nbytes_per_slab)
  pub empty : (i : ℕ) → p.curr_size ≤ i → get_or p.slabs i none ≡ none

hand_out-eq :
    (zeroed : Bool) (s : Slab) (o : Option Slab) (p : Pool)
    → o ≡ some s
    → hand_out zeroed o p ≡ done (some (if zeroed then replicate p.nbytes_per_slab 0 else s)) p
unfolding hand_out
hand_out-eq zeroed s none p e = cc
hand_out-eq zeroed s (some t) p e = ground arith

length-handed :
    (zeroed : Bool) (n : ℕ) (s : Slab)
    → length s ≡ n
    → length (if zeroed then replicate n 0 else s) ≡ n
length-handed true n s h = length-replicate n 0
length-handed false n s h = h

-- The pool after its topmost slab is taken.
abbrev taken : Pool → Pool
taken p = record p {
  slabs = set p.slabs (p.curr_size - 1) none;
  curr_size = p.curr_size - 1;
  low_water_mark = min p.low_water_mark (p.curr_size - 1);
}

taken-IsValid : (p : Pool) → IsValid p → 0 < p.curr_size → IsValid (taken p)
taken-IsValid p v l = record {
  all_slots = length-set p.slabs (p.curr_size - 1) none ∙ v.all_slots;
  in_range = omega (arith, v.in_range);
  mark = omega arith;
  filled = λ i h.
      let (s, e, n) = v.filled i (omega arith) in
      (s, get_or-set_ne p.slabs (p.curr_size - 1) i none none (λ q. absurd (omega arith)) ∙ e, n);
  empty = λ i h. elim (ℕ_discrete i (p.curr_size - 1)) [
    | yes q ↦
        ap (λ k. get_or (set p.slabs (p.curr_size - 1) none) k none) q
        ∙ get_or-set_self p.slabs (p.curr_size - 1) none none
            (omega (arith, v.all_slots, v.in_range))
    | no q ↦
        get_or-set_ne p.slabs (p.curr_size - 1) i none none (λ r. q (sym r))
        ∙ v.empty i (omega arith)
  ];
}

-- A pool that has a slab hands one out, waiting or not: the topmost one, or that one wiped if this was
-- asked for. The slab has the pool's size, and the pool is valid with one slab less; its mark is the
-- old one, or what is left if that is less.
pub get_slab_granted :
    (zeroed wait : Bool) (p : Pool)
    → IsValid p
    → 0 < p.curr_size
    → (s : Slab) × (p' : Pool) × (get_slab zeroed wait p ≡ done (some s) p')
      × (length s ≡ p.nbytes_per_slab)
      × IsValid p'
      × (p'.curr_size + 1 ≡ p.curr_size)
      × (p'.nslabs ≡ p.nslabs)
      × (p'.nbytes_per_slab ≡ p.nbytes_per_slab)
      × (p'.low_water_mark ≡ min p.low_water_mark p'.curr_size)
      × (t : Slab) × (get_or p.slabs (p.curr_size - 1) none ≡ some t)
      × (s ≡ (if zeroed then replicate p.nbytes_per_slab 0 else t))
unfolding get_slab
get_slab_granted zeroed wait p v l =
    let (s, e, n) = v.filled (p.curr_size - 1) (omega arith) in
    (
      if zeroed then replicate p.nbytes_per_slab 0 else s,
      taken p,
      simp (lt→ltb 0 p.curr_size l)
          (hand_out-eq zeroed s (get_or p.slabs (p.curr_size - 1) none) (taken p) e),
      length-handed zeroed p.nbytes_per_slab s n,
      taken-IsValid p v l,
      omega arith,
      refl,
      refl,
      refl,
      s,
      e,
      refl,
    )

-- The pool after a slab is given back.
abbrev given : Slab → Pool → Pool
given s p = record p { slabs = set p.slabs p.curr_size (some s); curr_size = p.curr_size + 1 }

given-IsValid :
    (s : Slab) (p : Pool)
    → IsValid p
    → p.curr_size < p.nslabs
    → length s ≡ p.nbytes_per_slab
    → IsValid (given s p)
given-IsValid s p v l n = record {
  all_slots = length-set p.slabs p.curr_size (some s) ∙ v.all_slots;
  in_range = omega arith;
  mark = omega (arith, v.mark);
  filled = λ i h. elim (ℕ_discrete i p.curr_size) [
    | yes q ↦ (
      s,
      ap (λ k. get_or (set p.slabs p.curr_size (some s)) k none) q
          ∙ get_or-set_self p.slabs p.curr_size (some s) none (omega (arith, v.all_slots)),
      n,
    )
    | no q ↦
        let (t, e, m) = v.filled i (omega (arith, below i h q)) in
        (t, get_or-set_ne p.slabs p.curr_size i (some s) none (λ r. q (sym r)) ∙ e, m)
  ];
  empty = λ i h.
      get_or-set_ne p.slabs p.curr_size i (some s) none (λ r. absurd (omega arith))
      ∙ v.empty i (omega arith);
}
  where
    below : (i : ℕ) → i < p.curr_size + 1 → i ≢ p.curr_size → i < p.curr_size
    below i h q = omega arith

to_int_small : (n : ℕ) → n < 2 ^ 31 → to_int n ≡ pos n
to_int_small n h =
    let e : n % 2 ^ 32 ≡ n = mod-eq_of_lt (omega arith) in simp (e, lt→ltb n (2 ^ 31) h)

-- A slab of the right size that is given back to a pool with a free slot is taken, and the pool is
-- valid with one slab more.
pub put_slab_taken :
    (s : Slab) (p : Pool)
    → IsValid p
    → p.nslabs < 2 ^ 31
    → p.curr_size < p.nslabs
    → length s ≡ p.nbytes_per_slab
    → (p' : Pool) × (put_slab (some s) p ≡ done none p')
      × IsValid p'
      × (p'.curr_size ≡ p.curr_size + 1)
      × (p'.nslabs ≡ p.nslabs)
      × (p'.nbytes_per_slab ≡ p.nbytes_per_slab)
unfolding put_slab
put_slab_taken s p v fits l n = (
  given s p,
  simp (
    to_int_small (length p.slabs) (omega (arith, v.all_slots)),
    ge→leb (length p.slabs + 0) (p.curr_size + 0) (omega (arith, v.all_slots)),
    v.empty p.curr_size (omega arith),
  ),
  given-IsValid s p v l n,
  refl,
  refl,
  refl,
)

length-allocate_slabs : (mem : ℕ → Slab) (i n : ℕ) → length (allocate_slabs mem i n) ≡ n
unfolding allocate_slabs
length-allocate_slabs mem i zero = refl
length-allocate_slabs mem i (suc n) = ap suc (length-allocate_slabs mem (i + 1) n)

allocate_slabs-filled :
    (mem : ℕ → Slab) (size i n k : ℕ)
    → ((j : ℕ) → length (mem j) ≡ size)
    → k < n
    → (s : Slab) × (get_or (allocate_slabs mem i n) k none ≡ some s) × (length s ≡ size)
unfolding allocate_slabs
allocate_slabs-filled mem size i zero k h l = absurd (omega arith)
allocate_slabs-filled mem size i (suc n) zero h l = (mem i, refl, h i)
allocate_slabs-filled mem size i (suc n) (suc k) h l =
    allocate_slabs-filled mem size (i + 1) n k h (omega arith)

allocate_slabs-empty :
    (mem : ℕ → Slab) (i n k : ℕ) → n ≤ k → get_or (allocate_slabs mem i n) k none ≡ none
unfolding allocate_slabs
allocate_slabs-empty mem i zero k l = refl
allocate_slabs-empty mem i (suc n) zero l = absurd (omega arith)
allocate_slabs-empty mem i (suc n) (suc k) l = allocate_slabs-empty mem (i + 1) n k (omega arith)

-- The constructor returns a valid pool with all its slabs, for positive sizes of at most 100 GB in
-- all, if the allocator gives slabs of the size that was asked for.
pub make_pool-IsValid :
    (mem : ℕ → Slab) (nbytes n : ℕ)
    → ((j : ℕ) → length (mem j) ≡ nbytes)
    → 0 < nbytes
    → 0 < n
    → nbytes * n ≤ 100 * 1073741824
    → (p : Pool) × (make_pool mem (pos nbytes) (pos n) ≡ returns p) × IsValid p × (p.curr_size ≡ n)
unfolding make_pool allocate
make_pool-IsValid mem nbytes n h z y small = (
  allocate mem nbytes n,
  simp (
    ge→leb (nbytes + 0) 0 (omega arith),
    ge→leb (n + 0) 0 (omega arith),
    ge→ltb (100 * 1073741824) (nbytes * n) small,
    eq→== n n refl,
  ),
  record {
    all_slots = length-allocate_slabs mem 0 n;
    in_range = omega arith;
    mark = omega arith;
    filled = λ i l. allocate_slabs-filled mem nbytes 0 n i h l;
    empty = λ i l. allocate_slabs-empty mem 0 n i l;
  },
  refl,
)
