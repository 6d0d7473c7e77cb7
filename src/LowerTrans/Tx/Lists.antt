-- ===== src/LowerTrans/Tx/Lists.antt =====
-- The operations on lists of transmit tasks.
use meshx.Base.{
  ℕ, ◌+◌, ◌≡◌, refl, ◌⊎◌, inl, inr, Bool, true, false, ◌||◌, none, some, List, [], ◌∷◌, ◌++◌, All,
  ◌==◌, arith, Bool-cases,
}
use meshx.LowerTrans.Tx.{TxTask, dst_active, remove, find}

-- Different destinations.
abbrev pub Apart : List TxTask → Type 0
Apart [] = Unit
Apart (t ∷ ts) = (dst_active t.ctx.dst ts ≡ false) × Apart ts

-- How often an address stands in a list of tasks, and in a list of addresses.
abbrev pub one_if : Bool → ℕ
one_if true = 1
one_if false = 0

unfoldable pub count : ℕ → List TxTask → ℕ
count i [] = 0
count i (t ∷ ts) = one_if (t.id == i) + count i ts

unfoldable pub count_ids : ℕ → List ℕ → ℕ
count_ids i [] = 0
count_ids i (j ∷ js) = one_if (j == i) + count_ids i js

pub count-append :
    (i : ℕ) (t : TxTask) (ts : List TxTask)
    → count i (ts ++ (t ∷ [])) ≡ count i ts + one_if (t.id == i)
unfolding count
count-append i t [] = omega arith
count-append i t (x ∷ ts) = omega (arith, count-append i t ts)

pub count_ids-append :
    (i j : ℕ) (js : List ℕ) → count_ids i (js ++ (j ∷ [])) ≡ count_ids i js + one_if (j == i)
unfolding count_ids
count_ids-append i j [] = omega arith
count_ids-append i j (x ∷ js) = omega (arith, count_ids-append i j js)

pub dst_active-append :
    (d : ℕ) (t : TxTask) (ts : List TxTask)
    → dst_active d (ts ++ (t ∷ [])) ≡ (dst_active d ts || (t.ctx.dst == d))
unfolding dst_active
dst_active-append d t [] = ground arith
dst_active-append d t (x ∷ ts) = ground (arith, dst_active-append d t ts)

pub Apart-append :
    (t : TxTask) (ts : List TxTask)
    → Apart ts
    → dst_active t.ctx.dst ts ≡ false
    → Apart (ts ++ (t ∷ []))
unfolding dst_active
Apart-append t [] a h = (refl, tt)
Apart-append t (x ∷ ts) a h =
    (ground (arith, dst_active-append x.ctx.dst t ts), Apart-append t ts a.1 (ground arith))

pub find-none : (i : ℕ) (ts : List TxTask) → count i ts ≡ 0 → find i ts ≡ none
unfolding count find
find-none i [] h = refl
find-none i (t ∷ ts) h = ground (arith, find-none i ts)

pub find-last :
    (t : TxTask) (ts : List TxTask) → find t.id ts ≡ none → find t.id (ts ++ (t ∷ [])) ≡ some t
unfolding find
find-last t [] h = ground arith
find-last t (x ∷ ts) h = ground (arith, find-last t ts)

pub count-remove :
    (i j : ℕ) (t : TxTask) (ts : List TxTask)
    → find i ts ≡ some t
    → count j (remove i ts) + one_if (i == j) ≡ count j ts
unfolding count find remove
count-remove i j t [] h = ground arith
count-remove i j t (x ∷ ts) h = ground (arith, count-remove i j t ts)

-- Removing a task frees its destination, if the destinations differ, and no other.
pub dst_active-remove :
    (i d : ℕ) (t : TxTask) (ts : List TxTask)
    → find i ts ≡ some t
    → dst_active d ts ≡ true
    → (t.ctx.dst ≡ d) ⊎ (dst_active d (remove i ts) ≡ true)
unfolding dst_active find remove
dst_active-remove i d t [] h a = ground arith
dst_active-remove i d t (x ∷ ts) h a = ground (arith, dst_active-remove i d t ts)

pub dst_active-remove-false :
    (i d : ℕ) (ts : List TxTask) → dst_active d ts ≡ false → dst_active d (remove i ts) ≡ false
unfolding dst_active remove
dst_active-remove-false i d [] h = refl
dst_active-remove-false i d (x ∷ ts) h = ground (arith, dst_active-remove-false i d ts)

pub Apart-remove : (i : ℕ) (ts : List TxTask) → Apart ts → Apart (remove i ts)
unfolding remove dst_active
Apart-remove i [] a = tt
Apart-remove i (x ∷ ts) a = elim (Bool-cases (x.id == i)) [
  | inl e ↦ rw (e, remove) a.1
  | inr e ↦ rw (e, remove) (dst_active-remove-false i x.ctx.dst ts a.0, Apart-remove i ts a.1)
]

pub All-remove {κ} :
    (P : TxTask → Type κ) (i : ℕ) (ts : List TxTask) → All P ts → All P (remove i ts)
unfolding remove
All-remove P i [] a = tt
All-remove P i (x ∷ ts) a = elim (Bool-cases (x.id == i)) [
  | inl e ↦ rw (e, remove) a.1
  | inr e ↦ rw (e, remove) (a.0, All-remove P i ts a.1)
]

pub All-append {κ} :
    (P : TxTask → Type κ) (t : TxTask) (ts : List TxTask) → All P ts → P t → All P (ts ++ (t ∷ []))
All-append P t [] a p = (p, tt)
All-append P t (x ∷ ts) a p = (a.0, All-append P t ts a.1 p)

pub All-map {κ ℓ} :
    {P : TxTask → Type κ} {Q : TxTask → Type ℓ}
    → ((t : TxTask) → P t → Q t)
    → (ts : List TxTask) → All P ts
    → All Q ts
All-map f [] a = tt
All-map f (x ∷ ts) a = (f x a.0, All-map f ts a.1)
