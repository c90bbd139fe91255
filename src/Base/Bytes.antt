-- ===== src/Base/Bytes.antt =====
-- Little-endian numbers in byte arrays, as the CPU of the source reads and writes them.
use Prim.Native.Nat.{ℕ, zero, suc, ◌+◌, ◌*◌, ◌/◌, ◌%◌, ◌^◌, ◌<◌, ◌≤◌}
use mathlib.Core.Path.{◌≡◌, refl, ap, ap₂, sym, ◌∙◌}
use mathlib.Core.Logic.{◌⊎◌, inl, inr}
use mathlib.Core.List.{List, [], ◌∷◌, ◌++◌}
use native.Mathlib.Omega.{arith}
use native.Mathlib.Numerals.{add-one}
use native.Mathlib.Nat.{pow-suc, zero-add, suc-add}
use ch_frb_io.Base.Lists.{length, get_or, copy_to}

-- The `n` bytes at `off`, as a number.
abbrev pub le_at : ℕ → List ℕ → ℕ → ℕ
le_at zero xs off = 0
le_at (suc n) xs off = get_or xs off 0 + 256 * le_at n xs (off + 1)

-- The `n` low bytes of a number.
abbrev pub to_le : ℕ → ℕ → List ℕ
to_le zero v = []
to_le (suc n) v = (v % 256) ∷ to_le n (v / 256)

pub length-to_le : (n v : ℕ) → length (to_le n v) ≡ n
length-to_le zero v = refl
length-to_le (suc n) v = ap suc (length-to_le n (v / 256))

pub le_at-cons : (n x : ℕ) (xs : List ℕ) (off : ℕ) → le_at n (x ∷ xs) (off + 1) ≡ le_at n xs off
le_at-cons zero x xs off = refl
le_at-cons (suc n) x xs off =
    ap₂ (λ a b. a + 256 * b) (ap (λ i. get_or (x ∷ xs) i 0) (add-one off))
      (le_at-cons n x xs (off + 1))

-- A number that fits is read back.
pub le_at-to_le : (n v : ℕ) (post : List ℕ) → v < 256 ^ n → le_at n (to_le n v ++ post) 0 ≡ v
le_at-to_le zero v post h = omega arith
le_at-to_le (suc n) v post h =
    let small : v / 256 < 256 ^ n = omega (arith, pow-suc 256 n) in
    let ih : le_at n (to_le n (v / 256) ++ post) 0 ≡ v / 256 = le_at-to_le n (v / 256) post small in
    omega (arith, ih, le_at-cons n (v % 256) (to_le n (v / 256) ++ post) 0)

-- Two arrays that agree on the bytes in question hold the same number there.
pub le_at-eq :
    (n : ℕ) (xs ys : List ℕ) (i j : ℕ)
    → ((k : ℕ) → k < n → get_or xs (i + k) 0 ≡ get_or ys (j + k) 0)
    → le_at n xs i ≡ le_at n ys j
le_at-eq zero xs ys i j h = refl
le_at-eq (suc n) xs ys i j h =
    ap₂ (λ a b. a + 256 * b)
      (ap (λ t. get_or xs t 0) (omega arith)
        ∙ h 0 (omega arith)
        ∙ ap (λ t. get_or ys t 0) (omega arith))
      (le_at-eq n xs ys (i + 1) (j + 1) (λ k l.
        ap (λ t. get_or xs t 0) (omega arith)
        ∙ h (k + 1) (omega arith)
        ∙ ap (λ t. get_or ys t 0) (omega arith)))

-- A byte after `memcpy`: from the source where it was written, as before elsewhere.
pub get_or-copy_to_inside :
    (xs : List ℕ) (off : ℕ) (vs : List ℕ) (k : ℕ)
    → k < length vs
    → off + k < length xs
    → get_or (copy_to xs off vs) (off + k) 0 ≡ get_or vs k 0
get_or-copy_to_inside [] off vs k h l = absurd (omega arith)
get_or-copy_to_inside (x ∷ xs) zero [] k h l = absurd (omega arith)
get_or-copy_to_inside (x ∷ xs) zero (v ∷ vs) zero h l = refl
get_or-copy_to_inside (x ∷ xs) zero (v ∷ vs) (suc k) h l = rw zero-add (
    ap (λ t. get_or (copy_to xs 0 vs) t 0) (sym (zero-add k))
    ∙ get_or-copy_to_inside xs zero vs k (omega arith) (omega arith))
get_or-copy_to_inside (x ∷ xs) (suc off) vs k h l =
    rw suc-add (get_or-copy_to_inside xs off vs k h (omega arith))

pub get_or-copy_to_outside :
    (xs : List ℕ) (off : ℕ) (vs : List ℕ) (i : ℕ)
    → (i < off) ⊎ (off + length vs ≤ i)
    → get_or (copy_to xs off vs) i 0 ≡ get_or xs i 0
get_or-copy_to_outside [] off vs i h = refl
get_or-copy_to_outside (x ∷ xs) zero [] i h = refl
get_or-copy_to_outside (x ∷ xs) zero (v ∷ vs) zero h = absurd (omega arith)
get_or-copy_to_outside (x ∷ xs) zero (v ∷ vs) (suc i) h =
    get_or-copy_to_outside xs zero vs i (inr (omega arith))
get_or-copy_to_outside (x ∷ xs) (suc off) vs zero h = refl
get_or-copy_to_outside (x ∷ xs) (suc off) vs (suc i) h =
    get_or-copy_to_outside xs off vs i
      (elim h [ inl a ↦ inl (omega arith) | inr b ↦ inr (omega arith) ])

-- A number after `memcpy`.
pub le_at-copy_to_inside :
    (n : ℕ) (xs : List ℕ) (off : ℕ) (vs : List ℕ) (i : ℕ)
    → i + n ≤ length vs
    → off + i + n ≤ length xs
    → le_at n (copy_to xs off vs) (off + i) ≡ le_at n vs i
le_at-copy_to_inside n xs off vs i h l = le_at-eq n (copy_to xs off vs) vs (off + i) i (λ k q.
    ap (λ t. get_or (copy_to xs off vs) t 0) {y = off + (i + k)} (omega arith)
    ∙ get_or-copy_to_inside xs off vs (i + k) (omega arith) (omega arith))

pub le_at-copy_to_outside :
    (n : ℕ) (xs : List ℕ) (off : ℕ) (vs : List ℕ) (i : ℕ)
    → (i + n ≤ off) ⊎ (off + length vs ≤ i)
    → le_at n (copy_to xs off vs) i ≡ le_at n xs i
le_at-copy_to_outside n xs off vs i h = le_at-eq n (copy_to xs off vs) xs i i (λ k q.
    get_or-copy_to_outside xs off vs (i + k)
      (elim h [ inl a ↦ inl (omega arith) | inr b ↦ inr (omega arith) ]))

-- Every entry is a byte.
abbrev pub IsBytes : List ℕ → Type 0
IsBytes xs = (i : ℕ) → get_or xs i 0 < 256

pub le_at-lt : (n : ℕ) (xs : List ℕ) (off : ℕ) → IsBytes xs → le_at n xs off < 256 ^ n
le_at-lt zero xs off b = omega arith
le_at-lt (suc n) xs off b = omega (arith, pow-suc 256 n, le_at-lt n xs (off + 1) b, b off)

-- `IsBytes`, as a tuple for each entry.
abbrev pub AllBytes : List ℕ → Type 0
AllBytes [] = Unit {0}
AllBytes (x ∷ xs) = (x < 256) × AllBytes xs

pub AllBytes-IsBytes : (xs : List ℕ) → AllBytes xs → IsBytes xs
AllBytes-IsBytes [] a i = omega arith
AllBytes-IsBytes (x ∷ xs) a zero = a.0
AllBytes-IsBytes (x ∷ xs) a (suc i) = AllBytes-IsBytes xs a.1 i
