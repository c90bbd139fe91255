-- ===== src/Base/Window.antt =====
-- Ring buffers whose position only grows: entry `p` stands in slot `p % c`, `c` the capacity. The window of `n`
-- entries from a position on is the list that such a buffer holds.
use Prim.Native.Nat.{ℕ, zero, suc, ◌+◌, ◌-◌, ◌%◌, ◌≤◌, ◌<◌}
use mathlib.Core.Path.{◌≡◌, refl, sym, ap, ap₂, ◌∙◌}
use mathlib.Core.Logic.{◌≢◌}
use mathlib.Core.List.{List, [], ◌∷◌, ◌++◌}
use native.Mathlib.Omega.{arith}
use native.Mathlib.Numerals.{add-one}
use native.Mathlib.Decide.{dec_lt}
use native.Mathlib.Nat.{mod-lt, mod-add-mod, mod-eq_of_lt, mod-eq-sub-mod, add-mod_right}
use ch_frb_io.Base.Lists.{length, get_or, set, get_or-set_self, get_or-set_ne}

-- Positions less than a capacity apart share no slot.
pub mod-ne : (p k c : ℕ) → 0 < k → k < c → (p + k) % c ≢ p % c
mod-ne p k c h l e = wrapped (mod-add-mod p c k ∙ e)
  where
    small : p % c < c
    small = mod-lt p (omega arith)

    wrapped : (p % c + k) % c ≡ p % c → ⊥
    wrapped w = elim (dec_lt (p % c + k) c) [
      | yes lt ↦ omega (arith, mod-eq_of_lt lt)
      | no ge ↦ omega (
        arith,
        small,
        mod-eq-sub-mod {n = p % c + k} {m = c} (omega arith),
        mod-eq_of_lt {n = p % c + k - c} {m = c} (omega (arith, small)),
      )
    ]

module _ {ℓ} {A : Type ℓ} (c : ℕ) (d : A) where
  abbrev pub window : List A → ℕ → ℕ → List A
  window slots p zero = []
  window slots p (suc n) = get_or slots (p % c) d ∷ window slots (p + 1) n

  pub length-window : (slots : List A) (p n : ℕ) → length (window slots p n) ≡ n
  length-window slots p zero = refl
  length-window slots p (suc n) = ap suc (length-window slots (p + 1) n)

  -- A write beyond the window, less than a turn ahead, leaves it alone.
  pub window-set_ahead :
      (slots : List A) (v : A) (p n j : ℕ)
      → p + n ≤ j
      → j < p + c
      → window (set slots (j % c) v) p n ≡ window slots p n
  window-set_ahead slots v p zero j h l = refl
  window-set_ahead slots v p (suc n) j h l =
      ap₂ ◌∷◌
        (get_or-set_ne slots (j % c) (p % c) v d
          (λ e. mod-ne p (j - p) c (omega arith) (omega arith) (ap (λ t. t % c) (omega arith) ∙ e)))
        (window-set_ahead slots v (p + 1) n j (omega arith) (omega arith))

  window_snoc :
      (slots : List A) (p n : ℕ)
      → window slots p (suc n) ≡ window slots p n ++ (get_or slots ((p + n) % c) d ∷ [])
  window_snoc slots p zero = ap (λ t. get_or slots (t % c) d ∷ []) (omega arith)
  window_snoc slots p (suc n) = ap (◌∷◌ (get_or slots (p % c) d)) (
      window_snoc slots (p + 1) n
      ∙ ap (λ t. window slots (p + 1) n ++ (get_or slots (t % c) d ∷ [])) (omega arith))

  -- A write just past the window extends it.
  pub window-set_end :
      (slots : List A) (v : A) (p n : ℕ)
      → length slots ≡ c
      → n < c
      → window (set slots ((p + n) % c) v) p (suc n) ≡ window slots p n ++ (v ∷ [])
  window-set_end slots v p n s h =
      window_snoc (set slots ((p + n) % c) v) p n
      ∙ ap₂ (λ xs y. xs ++ (y ∷ []))
          (window-set_ahead slots v p n (p + n) (omega arith) (omega arith))
          (get_or-set_self slots ((p + n) % c) v d (rw s (mod-lt (p + n) (omega arith))))

  -- A write to the slot just left behind does not touch what follows.
  pub window-set_behind :
      (slots : List A) (v : A) (p n : ℕ)
      → n < c
      → window (set slots (p % c) v) (p + 1) n ≡ window slots (p + 1) n
  window-set_behind slots v p n h =
      ap (λ t. window (set slots t v) (p + 1) n) (sym (add-mod_right p c))
      ∙ window-set_ahead slots v (p + 1) n (p + c) (omega arith) (omega arith)

  pub get_or-window :
      (slots : List A) (p n i : ℕ)
      → i < n
      → get_or (window slots p n) i d ≡ get_or slots ((p + i) % c) d
  get_or-window slots p zero i h = absurd (omega arith)
  get_or-window slots p (suc n) zero h = ap (λ t. get_or slots (t % c) d) (omega arith)
  get_or-window slots p (suc n) (suc i) h =
      get_or-window slots (p + 1) n i (omega arith) ∙ ap (λ t. get_or slots (t % c) d) (omega arith)

  -- Pushing a value on a ring buffer that is not full appends it to the window.
  pub window_push :
      (slots : List A) (v : A) (p n : ℕ)
      → length slots ≡ c
      → n < c
      → window (set slots ((p + n) % c) v) p (n + 1) ≡ window slots p n ++ (v ∷ [])
  window_push slots v p n s h =
      ap (window (set slots ((p + n) % c) v) p) (add-one n) ∙ window-set_end slots v p n s h

  -- Popping the oldest entry, whatever its slot is overwritten with, leaves the rest.
  pub window_pop :
      (slots : List A) (v : A) (p n : ℕ)
      → 0 < n
      → n ≤ c
      → window slots p n ≡ get_or slots (p % c) d ∷ window (set slots (p % c) v) (p + 1) (n - 1)
  window_pop slots v p zero h l = absurd (omega arith)
  window_pop slots v p (suc n) h l = ap (◌∷◌ (get_or slots (p % c) d)) (
      sym (window-set_behind slots v p n (omega arith))
      ∙ ap (window (set slots (p % c) v) (p + 1)) (omega arith))
