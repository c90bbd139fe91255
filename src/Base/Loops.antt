-- ===== src/Base/Loops.antt =====
-- `for` loops over a range of indices, with the state that their bodies change.
use Prim.Native.Nat.{ℕ, zero, suc, ◌+◌, ◌<◌, ◌≤◌}
use mathlib.Core.Path.{◌≡◌, refl, ◌∙◌, ap}
use mathlib.Core.Logic.{inl, inr, ◌≢◌}
use native.Mathlib.Omega.{arith}
use ch_frb_io.Base.Tests.{Bool-cases, ◌==◌, ==→eq}

module _ {ℓ} {S : Type ℓ} where
  -- `for (i = lo; i < lo + n; i++) s = body(i, s)`.
  abbrev pub for_from : ℕ → ℕ → (ℕ → S → S) → S → S
  for_from lo zero body s = s
  for_from lo (suc n) body s = for_from (lo + 1) n body (body lo s)

  abbrev pub for_below : ℕ → (ℕ → S → S) → S → S
  for_below n body s = for_from 0 n body s

module _ {ℓ ℓ'} {S : Type ℓ} (P : S → Type ℓ') (body : ℕ → S → S) where
  -- What every turn keeps, the loop keeps.
  pub for_from_keeps :
      (lo n : ℕ)
      → ((i : ℕ) (s : S) → i < lo + n → P s → P (body i s))
      → (s : S) → P s
      → P (for_from lo n body s)
  for_from_keeps lo zero k s p = p
  for_from_keeps lo (suc n) k s p =
      for_from_keeps (lo + 1) n (λ i t l. k i t (omega arith)) (body lo s) (k lo s (omega arith) p)

  module _ {ℓ₂} {A : Type ℓ₂} (view : S → A) where
    -- What no turn changes is as before.
    pub for_from_same :
        (lo n : ℕ)
        → ((i : ℕ) (s : S) → i < lo + n → P s → P (body i s))
        → ((i : ℕ) (s : S) → lo ≤ i → i < lo + n → P s → view (body i s) ≡ view s)
        → (s : S) → P s
        → view (for_from lo n body s) ≡ view s
    for_from_same lo zero k o s p = refl
    for_from_same lo (suc n) k o s p =
        for_from_same (lo + 1) n (λ i t l. k i t (omega arith))
          (λ i t a b. o i t (omega arith) (omega arith)) (body lo s) (k lo s (omega arith) p)
        ∙ o lo s (omega arith) (omega arith) p

    -- What turn `j` sets to `v` and the other turns leave is `v` after the loop.
    pub for_from_at :
        (v : A) (j lo n : ℕ)
        → lo ≤ j
        → j < lo + n
        → ((i : ℕ) (s : S) → i < lo + n → P s → P (body i s))
        → ((i : ℕ) (s : S) → i < lo + n → i ≢ j → P s → view (body i s) ≡ view s)
        → ((s : S) → P s → view (body j s) ≡ v)
        → (s : S) → P s
        → view (for_from lo n body s) ≡ v
    for_from_at v j lo zero a b k o w s p = absurd (omega arith)
    for_from_at v j lo (suc n) a b k o w s p = elim (Bool-cases (lo == j)) [
      | inl e ↦
          let same = ==→eq lo j e in
          for_from_same (lo + 1) n (λ i t l. k i t (omega arith))
            (λ i t c d. o i t (omega arith) (λ q. absurd (omega arith))) (body lo s)
            (k lo s (omega arith) p)
          ∙ ap (λ i. view (body i s)) same
          ∙ w s p
      | inr e ↦
          for_from_at v j (lo + 1) n (ground arith) (omega arith) (λ i t l. k i t (omega arith))
            (λ i t l. o i t (omega arith)) w (body lo s) (k lo s (omega arith) p)
    ]
