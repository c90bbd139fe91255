-- ===== src/SlabPool/Users.antt =====
-- The users of the pool: whoever gives back only slabs that were taken never meets an error, and no
-- slab is lost.
use ch_frb_io.Base.{
  get_elem?, zero, suc, ◌^◌, ◌<◌, ℕ, ◌+◌, ◌≡◌, refl, ◌∙◌, ap, sym, subst, Bool, true, false, Option,
  none, some, List, [], ◌∷◌, arith, ltb, length, inl, inr, Bool-cases, ltb→lt,
}
use ch_frb_io.Outcome.{Result, returns, fails, Outcome, done, throws, waits}
use ch_frb_io.SlabPool.{Slab, Pool, get_slab, put_slab}
use ch_frb_io.SlabPool.Stack.{IsValid, get_slab_granted, put_slab_taken}

-- The pool, and the slabs that are out.
abbrev pub Users : Type 0
Users = Pool × List Slab

-- A call of get_slab, or a call of put_slab with any slab that is out, by its index.
pub data Event : Type 0 where
  taking : Bool → Bool → Event
  giving : ℕ → Event

abbrev pub without : ℕ → List Slab → List Slab
without i [] = []
without zero (s ∷ out) = out
without (suc i) (s ∷ out) = s ∷ without i out

abbrev pub keep : Outcome Pool (Option Slab) → List Slab → Result Users
keep (done none p) out = returns (p, out)
keep (done (some s) p) out = returns (p, s ∷ out)
keep (throws e p) out = fails e
keep (waits p) out = returns (p, out)

abbrev pub drop_slab : Outcome Pool (Option Slab) → List Slab → Result Users
drop_slab (done q p) out = returns (p, out)
drop_slab (throws e p) out = fails e
drop_slab (waits p) out = returns (p, out)

abbrev pub give : Option Slab → ℕ → Users → Result Users
give none i u = returns u
give (some s) i (p, out) = drop_slab (put_slab (some s) p) (without i out)

abbrev pub step : Event → Users → Result Users
step (taking zeroed wait) (p, out) = keep (get_slab zeroed wait p) out
step (giving i) (p, out) = give (get_elem? out i) i (p, out)

abbrev pub go_on_with : (Users → Result Users) → Result Users → Result Users
go_on_with f (fails e) = fails e
go_on_with f (returns u) = f u

abbrev pub run : List Event → Users → Result Users
run [] u = returns u
run (e ∷ es) u = go_on_with (run es) (step e u)

abbrev pub AllSized : ℕ → List Slab → Type 0
AllSized n [] = Unit {0}
AllSized n (s ∷ out) = (length s ≡ n) × AllSized n out

-- There are `n` slabs in the pool and out together, each of the pool's size.
abbrev pub Balanced : ℕ → Users → Type 0
Balanced n (p, out) =
    IsValid p
    × (n < 2 ^ 31)
    × (p.curr_size + length out ≡ n)
    × (p.nslabs ≡ n)
    × AllSized p.nbytes_per_slab out

none_left :
    (zeroed wait : Bool) (p : Pool) (out : List Slab)
    → ltb 0 p.curr_size ≡ false
    → keep (get_slab zeroed wait p) out ≡ returns (p, out)
unfolding get_slab
none_left zeroed false p out t = simp t
none_left zeroed true p out t = simp t

-- A slab that is out has the pool's size, and without it there is one less.
without-AllSized :
    (i size : ℕ) (out : List Slab) (s : Slab)
    → get_elem? out i ≡ some s
    → AllSized size out
    → (length s ≡ size)
      × AllSized size (without i out)
      × (suc (length (without i out)) ≡ length out)
without-AllSized i size [] s e a = cc
without-AllSized zero size (x ∷ out) s e (z, a) =
    let same : x ≡ s = cc in (subst (λ y. length y ≡ size) same z, a, refl)
without-AllSized (suc i) size (x ∷ out) s e (z, a) =
    let (y, b, l) = without-AllSized i size out s e a in (y, (z, b), ap suc l)

give-Balanced :
    (s : Option Slab) (i n : ℕ) (p : Pool) (out : List Slab)
    → get_elem? out i ≡ s
    → Balanced n (p, out)
    → (u' : Users) × (give s i (p, out) ≡ returns u') × Balanced n u'
give-Balanced none i n p out e b = ((p, out), refl, b)
give-Balanced (some s) i n p out e (v, f, c, m, a) =
    let (z, rest, l) = without-AllSized i p.nbytes_per_slab out s e a in
    let (p', done_, v', q, k, size) = put_slab_taken s p v (omega arith) (omega arith) z in
    (
      (p', without i out),
      ap (λ o. drop_slab o (without i out)) done_,
      (v', f, omega arith, k ∙ m, subst (λ k. AllSized k (without i out)) (sym size) rest),
    )

step-Balanced :
    (e : Event) (n : ℕ) (u : Users)
    → Balanced n u
    → (u' : Users) × (step e u ≡ returns u') × Balanced n u'
step-Balanced (giving i) n (p, out) b = give-Balanced (get_elem? out i) i n p out refl b
step-Balanced (taking zeroed wait) n (p, out) (v, f, c, m, a) =
    elim (Bool-cases (ltb 0 p.curr_size)) [
      | inl t ↦
          let (s, p', e, z, v', q, k, l, low, t, top, out_is) =
            get_slab_granted zeroed wait p v (ltb→lt 0 p.curr_size t) in
          (
            (p', s ∷ out),
            ap (λ o. keep o out) e,
            (v', f, omega arith, k ∙ m, (z ∙ sym l, subst (λ k. AllSized k out) (sym l) a)),
          )
      | inr t ↦ ((p, out), none_left zeroed wait p out t, (v, f, c, m, a))
    ]

-- A pool of fewer than 2 ^ 31 slabs. Whatever calls of get_slab and put_slab are made in whatever order,
-- by users who give back only slabs that are out: no call throws, the pool stays valid, all slabs have the
-- pool's size, and the number of slabs in the pool and out together stays the same.
pub run-Balanced :
    (es : List Event) (n : ℕ) (u : Users)
    → Balanced n u
    → (u' : Users) × (run es u ≡ returns u') × Balanced n u'
run-Balanced [] n u b = (u, refl, b)
run-Balanced (e ∷ es) n u b =
    let (v, q, c) = step-Balanced e n u b in
    let (w, q', d) = run-Balanced es n v c in (w, ap (go_on_with (run es)) q ∙ q', d)
