-- ===== src/SlabPool/Tests.antt =====
-- Runs of the memory slab pool, and the theorems at a concrete pool.
use ch_frb_io.Base.{
  ℕ, ◌≡◌, refl, true, false, Option, none, some, List, [], ◌∷◌, arith, length, zero, suc, get_or,
  ◌≤◌, ◌<◌,
}
use ch_frb_io.Outcome.{pos, returns}
use ch_frb_io.SlabPool.{Slab, Pool, make_pool}
use ch_frb_io.SlabPool.Stack.{IsValid, make_pool-IsValid}
use ch_frb_io.SlabPool.Users.{Event, taking, giving, run, Balanced, run-Balanced}

-- Two slabs of one byte; one of them is out.
abbrev pool : Pool
pool = record {
  nbytes_per_slab = 1;
  nslabs = 2;
  slabs = some (9 ∷ []) ∷ none ∷ [];
  curr_size = 1;
  low_water_mark = 1;
}

pool_filled :
    (i : ℕ)
    → i < 1
    → (s : Slab) × (get_or {A = Option Slab} (some (9 ∷ []) ∷ none ∷ []) i none ≡ some s)
      × (length s ≡ 1)
pool_filled zero h = (9 ∷ [], refl, refl)
pool_filled (suc i) h = absurd (omega arith)

pool_empty : (i : ℕ) → 1 ≤ i → get_or {A = Option Slab} (some (9 ∷ []) ∷ none ∷ []) i none ≡ none
pool_empty zero h = absurd (omega arith)
pool_empty (suc zero) h = refl
pool_empty (suc (suc i)) h = refl

pool-IsValid : IsValid pool
pool-IsValid = record {
  all_slots = refl;
  in_range = omega arith;
  mark = omega arith;
  filled = pool_filled;
  empty = pool_empty;
}

abbrev script : List Event
script = taking false false ∷ taking true false ∷ giving 1 ∷ giving 0 ∷ []

run-Balanced_example :
    (u' : Pool × List Slab) × (run script (pool, (7 ∷ []) ∷ []) ≡ returns u') × Balanced 2 u'
run-Balanced_example =
    run-Balanced script 2 (pool, (7 ∷ []) ∷ []) (pool-IsValid, omega arith, refl, refl, (refl, tt))

make_pool-IsValid_example :
    (p : Pool) × (make_pool (λ i. 5 ∷ []) (pos 1) (pos 3) ≡ returns p)
    × IsValid p
    × (p.curr_size ≡ 3)
make_pool-IsValid_example =
    make_pool-IsValid (λ i. 5 ∷ []) 1 3 (λ j. refl) (omega arith) (omega arith) (omega arith)
