-- ===== src/SlabPool.antt =====
-- memory_slab_pool.cpp: a stack of memory slabs that chunks are built in. A slab is its bytes; the
-- pool's lock makes each call one step.
pub mod Stack
pub mod Users
pub mod Tests
use ch_frb_io.Base.{
  ℕ, zero, suc, ◌+◌, ◌-◌, ◌*◌, ◌%◌, ◌^◌, ◌≤◌, ◌<◌, min, Bool, true, false, not, Option, none, some,
  List, [], ◌∷◌, if◌then◌else◌, ltb, leb, ◌==◌, length, get_or, set, replicate,
}
use ch_frb_io.Outcome.{
  ℤ, pos, negsuc, pos_part, leb_ℤ, Error, Result, returns, fails, Outcome, done, throws, waits,
  bad_nbytes_per_slab, bad_nslabs, pool_too_large, pool_size_mismatch, null_slab, pool_full,
  slot_not_empty, null_dereference,
}

-- A slab, and a pointer to one that may be null.
abbrev pub Slab : Type 0
Slab = List ℕ

abbrev pub is_null : Option Slab → Bool
is_null none = true
is_null (some s) = false

pub record Pool : Type 0 where
  pub nbytes_per_slab : ℕ
  pub nslabs : ℕ
  pub slabs : List (Option Slab)
  pub curr_size : ℕ
  pub low_water_mark : ℕ

-- allocate(), with the contents that aligned_alloc gives each slab.
unfoldable pub allocate_slabs : (ℕ → Slab) → ℕ → ℕ → List (Option Slab)
allocate_slabs mem i zero = []
allocate_slabs mem i (suc n) = some (mem i) ∷ allocate_slabs mem (i + 1) n

unfoldable pub allocate : (ℕ → Slab) → ℕ → ℕ → Pool
unfolding allocate_slabs
allocate mem nbytes n = record {
  nbytes_per_slab = nbytes;
  nslabs = n;
  slabs = allocate_slabs mem 0 n;
  curr_size = n;
  low_water_mark = n;
}

-- The constructor; 100 GB is 100 * 2^30 bytes, and double arithmetic is exact at the sizes compared.
unfoldable pub make_pool : (ℕ → Slab) → ℤ → ℤ → Result Pool
unfolding allocate
make_pool mem nbytes n =
    if leb_ℤ nbytes (pos 0)
    then fails bad_nbytes_per_slab
    else if leb_ℤ n (pos 0)
    then fails bad_nslabs
    else if ltb (100 * 1073741824) (pos_part nbytes * pos_part n)
    then fails pool_too_large
    else let p = allocate mem (pos_part nbytes) (pos_part n) in
      if not (p.curr_size == pos_part n) then fails pool_size_mismatch else returns p

-- The end of get_slab(), without the lock.
unfoldable pub hand_out : Bool → Option Slab → Pool → Outcome Pool (Option Slab)
hand_out zeroed none p = throws null_slab p
hand_out zeroed (some s) p = done (some (if zeroed then replicate p.nbytes_per_slab 0 else s)) p

-- get_slab(): the topmost slab, or none, or a wait.
unfoldable pub get_slab : Bool → Bool → Pool → Outcome Pool (Option Slab)
unfolding hand_out
get_slab zeroed wait p =
    if ltb 0 p.curr_size
    then hand_out zeroed (get_or p.slabs (p.curr_size - 1) none) (record p {
      slabs = set p.slabs (p.curr_size - 1) none;
      curr_size = p.curr_size - 1;
      low_water_mark = min p.low_water_mark (p.curr_size - 1);
    })
    else if wait
    then waits p
    else done none p

-- `(int) n`: the low 32 bits of `n`, read as a signed number.
abbrev pub to_int : ℕ → ℤ
to_int n = if ltb (n % 2 ^ 32) (2 ^ 31) then pos (n % 2 ^ 32) else negsuc (2 ^ 32 - 1 - n % 2 ^ 32)

-- put_slab(): the answer is the caller's pointer after the call.
unfoldable pub put_slab : Option Slab → Pool → Outcome Pool (Option Slab)
put_slab none p = throws null_slab p
put_slab (some s) p =
    if leb_ℤ (to_int (length p.slabs)) (pos p.curr_size)
    then throws pool_full p
    else if not (is_null (get_or p.slabs p.curr_size none))
    then throws slot_not_empty p
    else done none
        (record p { slabs = set p.slabs p.curr_size (some s); curr_size = p.curr_size + 1 })

-- count_slabs_available()
unfoldable pub count_slabs_available : Pool → ℕ
count_slabs_available p = p.curr_size
