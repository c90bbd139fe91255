-- ===== src/Base/Lists.antt =====
-- Lists measured and indexed by native numbers, under the library's names: C++ arrays and vectors.
use Prim.Native.Nat.{ℕ, zero, suc, ◌+◌, ◌<◌, ◌≤◌}
use mathlib.Core.Path.{◌≡◌, refl, ap, ◌∙◌}
use mathlib.Core.Logic.{◌≢◌}
use mathlib.Core.List.{List, [], ◌∷◌, ◌++◌}
use mathlib.Core.Option.{Option, none, some}
use native.Mathlib.Omega.{arith}

module _ {ℓ} {A : Type ℓ} where
  abbrev pub length : List A → ℕ
  length [] = 0
  length (x ∷ xs) = suc (length xs)

  abbrev pub get_elem? : List A → ℕ → Option A
  get_elem? [] i = none
  get_elem? (x ∷ xs) zero = some x
  get_elem? (x ∷ xs) (suc i) = get_elem? xs i

  abbrev pub get_or : List A → ℕ → A → A
  get_or [] i d = d
  get_or (x ∷ xs) zero d = x
  get_or (x ∷ xs) (suc i) d = get_or xs i d

  -- A write out of bounds changes nothing.
  abbrev pub set : List A → ℕ → A → List A
  set [] i v = []
  set (x ∷ xs) zero v = v ∷ xs
  set (x ∷ xs) (suc i) v = x ∷ set xs i v

  abbrev pub take : ℕ → List A → List A
  take zero xs = []
  take (suc n) [] = []
  take (suc n) (x ∷ xs) = x ∷ take n xs

  abbrev pub drop : ℕ → List A → List A
  drop zero xs = xs
  drop (suc n) [] = []
  drop (suc n) (x ∷ xs) = drop n xs

  abbrev pub replicate : ℕ → A → List A
  replicate zero v = []
  replicate (suc n) v = v ∷ replicate n v

  -- The `n` elements from index `off` on.
  abbrev pub slice : List A → ℕ → ℕ → List A
  slice xs off n = take n (drop off xs)

  -- `memcpy` to index `off`; what would go past the end is dropped.
  abbrev pub copy_to : List A → ℕ → List A → List A
  copy_to [] off vs = []
  copy_to (x ∷ xs) zero [] = x ∷ xs
  copy_to (x ∷ xs) zero (v ∷ vs) = v ∷ copy_to xs zero vs
  copy_to (x ∷ xs) (suc off) vs = x ∷ copy_to xs off vs

module _ {ℓ} {A : Type ℓ} where
  pub length-append : (xs ys : List A) → length (xs ++ ys) ≡ length xs + length ys
  length-append [] ys = omega arith
  length-append (x ∷ xs) ys = omega (arith, length-append xs ys)

  pub length-set : (xs : List A) (i : ℕ) (v : A) → length (set xs i v) ≡ length xs
  length-set [] i v = refl
  length-set (x ∷ xs) zero v = refl
  length-set (x ∷ xs) (suc i) v = ap suc (length-set xs i v)

  pub length-replicate : (n : ℕ) (v : A) → length (replicate n v) ≡ n
  length-replicate zero v = refl
  length-replicate (suc n) v = ap suc (length-replicate n v)

  pub length-copy_to :
      (xs : List A) (off : ℕ) (vs : List A) → length (copy_to xs off vs) ≡ length xs
  length-copy_to [] off vs = refl
  length-copy_to (x ∷ xs) zero [] = refl
  length-copy_to (x ∷ xs) zero (v ∷ vs) = ap suc (length-copy_to xs zero vs)
  length-copy_to (x ∷ xs) (suc off) vs = ap suc (length-copy_to xs off vs)

  pub get_or-set_self :
      (xs : List A) (i : ℕ) (v d : A) → i < length xs → get_or (set xs i v) i d ≡ v
  get_or-set_self [] i v d h = absurd (omega arith)
  get_or-set_self (x ∷ xs) zero v d h = refl
  get_or-set_self (x ∷ xs) (suc i) v d h = get_or-set_self xs i v d (omega arith)

  pub get_or-set_ne :
      (xs : List A) (i j : ℕ) (v d : A) → i ≢ j → get_or (set xs i v) j d ≡ get_or xs j d
  get_or-set_ne [] i j v d h = refl
  get_or-set_ne (x ∷ xs) zero zero v d h = absurd (h refl)
  get_or-set_ne (x ∷ xs) zero (suc j) v d h = refl
  get_or-set_ne (x ∷ xs) (suc i) zero v d h = refl
  get_or-set_ne (x ∷ xs) (suc i) (suc j) v d h = get_or-set_ne xs i j v d (λ e. h (ap suc e))

  pub get_or-append_left :
      (xs ys : List A) (i : ℕ) (d : A) → i < length xs → get_or (xs ++ ys) i d ≡ get_or xs i d
  get_or-append_left [] ys i d h = absurd (omega arith)
  get_or-append_left (x ∷ xs) ys zero d h = refl
  get_or-append_left (x ∷ xs) ys (suc i) d h = get_or-append_left xs ys i d (omega arith)

  pub get_or-append_right :
      (xs ys : List A) (i : ℕ) (d : A) → get_or (xs ++ ys) (length xs + i) d ≡ get_or ys i d
  get_or-append_right [] ys i d = ap (λ k. get_or ys k d) (omega arith)
  get_or-append_right (x ∷ xs) ys i d =
      ap (λ k. get_or (x ∷ xs ++ ys) k d) {y = suc (length xs + i)} (omega arith)
      ∙ get_or-append_right xs ys i d

  -- What was copied is read back.
  pub slice-copy_to_self :
      (xs : List A) (off : ℕ) (vs : List A)
      → off + length vs ≤ length xs
      → slice (copy_to xs off vs) off (length vs) ≡ vs
  slice-copy_to_self xs zero [] h = refl
  slice-copy_to_self [] zero (v ∷ vs) h = absurd (omega arith)
  slice-copy_to_self (x ∷ xs) zero (v ∷ vs) h =
      ap (◌∷◌ v) (slice-copy_to_self xs zero vs (omega arith))
  slice-copy_to_self [] (suc off) vs h = absurd (omega arith)
  slice-copy_to_self (x ∷ xs) (suc off) vs h = slice-copy_to_self xs off vs (omega arith)

  -- A copy leaves what lies before it as it was.
  pub slice-copy_to_before :
      (xs : List A) (off : ℕ) (vs : List A) (i n : ℕ)
      → i + n ≤ off
      → slice (copy_to xs off vs) i n ≡ slice xs i n
  slice-copy_to_before [] off vs i n h = refl
  slice-copy_to_before (x ∷ xs) off vs zero zero h = refl
  slice-copy_to_before (x ∷ xs) zero vs zero (suc n) h = absurd (omega arith)
  slice-copy_to_before (x ∷ xs) (suc off) vs zero (suc n) h =
      ap (◌∷◌ x) (slice-copy_to_before xs off vs zero n (omega arith))
  slice-copy_to_before (x ∷ xs) zero vs (suc i) n h = absurd (omega arith)
  slice-copy_to_before (x ∷ xs) (suc off) vs (suc i) n h =
      slice-copy_to_before xs off vs i n (omega arith)

  pub length-slice : (xs : List A) (off n : ℕ) → off + n ≤ length xs → length (slice xs off n) ≡ n
  length-slice xs zero zero h = refl
  length-slice [] zero (suc n) h = absurd (omega arith)
  length-slice (x ∷ xs) zero (suc n) h = ap suc (length-slice xs zero n (omega arith))
  length-slice [] (suc off) n h = absurd (omega arith)
  length-slice (x ∷ xs) (suc off) n h = length-slice xs off n (omega arith)

  pub take-length : (n : ℕ) (xs : List A) → length xs ≡ n → take n xs ≡ xs
  take-length zero [] h = refl
  take-length zero (x ∷ xs) h = absurd (omega arith)
  take-length (suc n) [] h = refl
  take-length (suc n) (x ∷ xs) h = ap (◌∷◌ x) (take-length n xs (omega arith))

  -- In range the default does not matter.
  pub get_or_default :
      (xs : List A) (i : ℕ) (d e : A) → i < length xs → get_or xs i d ≡ get_or xs i e
  get_or_default [] i d e h = absurd (omega arith)
  get_or_default (x ∷ xs) zero d e h = refl
  get_or_default (x ∷ xs) (suc i) d e h = get_or_default xs i d e (omega arith)

  -- A list whose first `n` elements are kept, and the rest replaced.
  pub slice-splice_before :
      (xs ys : List A) (n i s : ℕ)
      → i + s ≤ n
      → n ≤ length xs
      → slice (take n xs ++ ys) i s ≡ slice xs i s
  slice-splice_before xs ys zero zero zero h l = refl
  slice-splice_before xs ys zero zero (suc s) h l = absurd (omega arith)
  slice-splice_before xs ys zero (suc i) s h l = absurd (omega arith)
  slice-splice_before [] ys (suc n) i s h l = absurd (omega arith)
  slice-splice_before (x ∷ xs) ys (suc n) zero zero h l = refl
  slice-splice_before (x ∷ xs) ys (suc n) zero (suc s) h l =
      ap (◌∷◌ x) (slice-splice_before xs ys n zero s (omega arith) (omega arith))
  slice-splice_before (x ∷ xs) ys (suc n) (suc i) s h l =
      slice-splice_before xs ys n i s (omega arith) (omega arith)

  pub slice-splice_at :
      (xs ys : List A) (n s : ℕ) → n ≤ length xs → slice (take n xs ++ ys) n s ≡ take s ys
  slice-splice_at xs ys zero s l = refl
  slice-splice_at [] ys (suc n) s l = absurd (omega arith)
  slice-splice_at (x ∷ xs) ys (suc n) s l = slice-splice_at xs ys n s (omega arith)

  pub length-splice :
      (xs ys : List A) (n : ℕ) → n ≤ length xs → length (take n xs ++ ys) ≡ n + length ys
  length-splice xs ys zero l = omega arith
  length-splice [] ys (suc n) l = absurd (omega arith)
  length-splice (x ∷ xs) ys (suc n) l = omega (arith, length-splice xs ys n (omega arith))

  pub length-drop : (n : ℕ) (xs : List A) → n ≤ length xs → n + length (drop n xs) ≡ length xs
  length-drop zero xs l = omega arith
  length-drop (suc n) [] l = absurd (omega arith)
  length-drop (suc n) (x ∷ xs) l = omega (arith, length-drop n xs (omega arith))
