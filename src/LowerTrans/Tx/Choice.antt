-- ===== src/LowerTrans/Tx/Choice.antt =====
-- Updating a task in a list, and choosing a pending task.
use meshx.Base.{
  ℕ, suc, ◌+◌, ◌≡◌, refl, ◌∙◌, ap, sym, inl, inr, true, false, none, some, List, [], ◌∷◌, length,
  All, ◌==◌, arith, Bool-cases, Option-cases,
}
use meshx.LowerTrans.Tx.{TxTask, dst_active, put, find, pick}
use meshx.LowerTrans.Tx.Lists.{Apart, one_if, count}

module _ (t u : TxTask) (same : u.ctx.dst ≡ t.ctx.dst) where
  pub dst_active-put :
      (d : ℕ) (ts : List TxTask) → find u.id ts ≡ some t → dst_active d (put u ts) ≡ dst_active d ts
  unfolding dst_active find put
  dst_active-put d [] h = refl
  dst_active-put d (x ∷ ts) h = ground (arith, dst_active-put d ts)

  pub Apart-put : (ts : List TxTask) → find u.id ts ≡ some t → Apart ts → Apart (put u ts)
  unfolding find put
  Apart-put [] h a = tt
  Apart-put (x ∷ ts) h a = elim (Bool-cases (x.id == u.id)) [
    | inl e ↦ rw (e, put) (ground arith, a.1)
    | inr e ↦
        let h' : find u.id ts ≡ some t = ground arith in
        rw (e, put) (dst_active-put x.ctx.dst ts h' ∙ a.0, Apart-put ts h' a.1)
  ]

pub count-put : (i : ℕ) (u : TxTask) (ts : List TxTask) → count i (put u ts) ≡ count i ts
unfolding count put
count-put i u [] = refl
count-put i u (x ∷ ts) = ground (arith, count-put i u ts)

pub find-put :
    (t u : TxTask) (ts : List TxTask) → find u.id ts ≡ some t → find u.id (put u ts) ≡ some u
unfolding find put
find-put t u [] h = ground arith
find-put t u (x ∷ ts) h = ground (arith, find-put t u ts)

pub All-put {κ} :
    (P : TxTask → Type κ) (u : TxTask) (ts : List TxTask) → P u → All P ts → All P (put u ts)
unfolding put
All-put P u [] p a = tt
All-put P u (x ∷ ts) p a = elim (Bool-cases (x.id == u.id)) [
  | inl e ↦ rw (e, put) (p, a.1)
  | inr e ↦ rw (e, put) (a.0, All-put P u ts p a.1)
]

pub All-find {κ} :
    (P : TxTask → Type κ) (i : ℕ) (t : TxTask) (ts : List TxTask)
    → find i ts ≡ some t
    → All P ts
    → P t
unfolding find
All-find P i t [] h a = cc
All-find P i t (x ∷ ts) h a = elim (Bool-cases (x.id == i)) [
  | inl e ↦ let same : x ≡ t = ground arith in rw same at a.0
  | inr e ↦ let h' : find i ts ≡ some t = ground arith in All-find P i t ts h' a.1
]

-- What `pick` leaves, and what it takes.
pub record Picked {κ} (P : TxTask → Type κ) (active ts : List TxTask) (u : TxTask)
    (us : List TxTask) : Type κ where
  pub free : dst_active u.ctx.dst active ≡ false
  pub shorter : length ts ≡ suc (length us)
  pub taken : P u
  pub left : All P us
  pub counts : (i : ℕ) → count i ts ≡ count i us + one_if (u.id == i)

pub pick-Picked {κ} :
    (P : TxTask → Type κ) (active ts : List TxTask) (u : TxTask) (us : List TxTask)
    → pick active ts ≡ some (u, us)
    → All P ts
    → Picked P active ts u us
unfolding pick count
pick-Picked P active [] u us h a = absurd (cc h)
pick-Picked P active (t ∷ ts) u us h a = elim (Bool-cases (dst_active t.ctx.dst active)) [
  | inr idle ↦
      let same : t ≡ u = ground arith in
      let rest : ts ≡ us = ground arith in
      record {
        free = rw (sym same) idle;
        shorter = ap (λ l. suc (length l)) rest;
        taken = rw (sym same) a.0;
        left = rw (sym rest) a.1;
        counts = λ i. rw (same, rest) (omega arith);
      }
  | inl waits ↦ elim (Option-cases (pick active ts)) [
    | inl e ↦ absurd (ground arith)
    | inr ((v, vs), e) ↦
        let same : v ≡ u = ground arith in
        let rest : t ∷ vs ≡ us = ground arith in
        let ih = pick-Picked P active ts v vs e a.1 in
        record {
          free = rw (sym same) ih.free;
          shorter = ap suc (ih.shorter ∙ ap length rest);
          taken = rw (sym same) ih.taken;
          left = rw (sym rest) (a.0, ih.left);
          counts = λ i.
              let same_id : one_if (v.id == i) ≡ one_if (u.id == i) =
                ap (λ x. one_if (x.id == i)) same in
              let more : count i us ≡ one_if (t.id == i) + count i vs = ap (count i) (sym rest) in
              omega (arith, ih.counts i, same_id, more);
        }
  ]
]

-- If nothing is picked every pending task waits for an active one.
pub pick-none :
    (active ts : List TxTask)
    → pick active ts ≡ none
    → All (λ t. dst_active t.ctx.dst active ≡ true) ts
unfolding pick
pick-none active [] h = tt
pick-none active (t ∷ ts) h = elim (Option-cases (pick active ts)) [
  | inl e ↦ (ground arith, pick-none active ts e)
  | inr (p, e) ↦ absurd (ground arith)
]
