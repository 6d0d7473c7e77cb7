-- ===== src/Seq/Inv.antt =====
-- What holds of the sequence numbers between two calls of mesh/node/meshx_seq.c.
use meshx.Base.{
  ℕ, suc, ◌+◌, ◌≤◌, ◌<◌, min, ◌≡◌, refl, ◌≢◌, Bool, Option, none, some, List, get_elem?, set,
  replicate, length, All, set?-in, get_elem?-in, get_elem?-set_self, get_elem?-set_ne, length-set,
  length-replicate, All-set, All-get_elem?, All-replicate, arith, ◌==◌, if◌then◌else◌,
}
use meshx.Seq.{Seqs, seq_max, seq_invalid, init, get, set as set_seq, use_seq}

abbrev ArrayFits : Option (List ℕ) → ℕ → Type 0
ArrayFits none n = n ≡ 0
ArrayFits (some xs) n = (length xs ≡ n) × All (λ x. x ≤ seq_max) xs

-- The array has one number for each element, none above 24 bits; with no array there is no element.
abbrev pub IsValid : Seqs → Type 0
IsValid s = ArrayFits s.seq_array s.element_num

pub zeros : (n : ℕ) → All (λ x. x ≤ seq_max) (replicate n 0)
zeros n = All-replicate (λ x. x ≤ seq_max) n 0 (omega arith)

-- meshx_seq_init leaves a valid state, whatever malloc answers.
pub init-IsValid : (a : Bool) (n : ℕ) (s : Seqs) → IsValid s → IsValid (init a n s).1
unfolding init
init-IsValid a n s v = ground (arith, length-replicate {A = ℕ} n 0, zeros n)

-- The array of a valid state that has an element in range.
pub array_of :
    (s : Seqs) (i : ℕ)
    → IsValid s
    → i < s.element_num
    → (xs : List ℕ) × (s.seq_array ≡ some xs)
      × (length xs ≡ s.element_num)
      × All (λ x. x ≤ seq_max) xs
array_of s i v h = go s.seq_array refl v
  where
    go :
        (o : Option (List ℕ))
        → s.seq_array ≡ o
        → ArrayFits o s.element_num
        → (xs : List ℕ) × (s.seq_array ≡ some xs)
          × (length xs ≡ s.element_num)
          × All (λ x. x ≤ seq_max) xs
    go none e f = absurd (omega arith)
    go (some xs) e f = (xs, e, f.0, f.1)

pub record Used (i : ℕ) (s : Seqs) : Type 0 where
  pub seq : ℕ
  pub after : Seqs
  pub was : get i s ≡ some seq
  pub fits : seq ≤ seq_max
  pub run : use_seq i s ≡ some (seq, after)
  pub is : get i after ≡ some (min (suc seq) seq_max)
  pub valid : IsValid after
  pub others : (j : ℕ) → j ≢ i → get j after ≡ get j s
  pub count : after.element_num ≡ s.element_num

module _ (s : Seqs) (i : ℕ) (xs : List ℕ) (seq : ℕ) (present : s.seq_array ≡ some xs)
    (size : length xs ≡ s.element_num) (bounded : All (λ x. x ≤ seq_max) xs)
    (inside : i < s.element_num) (here : get_elem? xs i ≡ some seq) where
  fits_lem : seq ≤ seq_max
  fits_lem = All-get_elem? (λ x. x ≤ seq_max) xs i seq bounded here

  bumped : Seqs
  bumped = if seq_max == seq then s else record s { seq_array = some (set xs i (seq + 1)) }

  run_lem : use_seq i s ≡ some (seq, bumped)
  unfolding use_seq bumped
  run_lem = ground (arith, set?-in xs i (seq + 1))

  is_lem : get i bumped ≡ some (min (suc seq) seq_max)
  unfolding get bumped
  is_lem = ground (arith, fits_lem, get_elem?-set_self xs i (seq + 1))

  valid_lem : IsValid bumped
  unfolding bumped
  valid_lem = ground (
    arith,
    fits_lem,
    length-set xs i (seq + 1),
    λ (h : seq + 1 ≤ seq_max). All-set (λ x. x ≤ seq_max) xs i (seq + 1) h bounded,
  )

  others_lem : (j : ℕ) → j ≢ i → get j bumped ≡ get j s
  unfolding get bumped
  others_lem j ne = ground (arith, get_elem?-set_ne xs i j (seq + 1))

-- Below the number of elements, meshx_seq_use on a valid state neither aborts nor reads out of
-- bounds: it returns the element's number, which is then one higher or stays at the 24-bit maximum,
-- leaves the numbers of the other elements, and keeps the invariant.
pub use_seq-Used : (s : Seqs) (i : ℕ) → IsValid s → i < s.element_num → Used i s
unfolding bumped
use_seq-Used s i v h =
    let (xs, present, size, bounded) = array_of s i v h in
    let (seq, here) = get_elem?-in xs i (omega arith) in
    record {
      seq = seq;
      after = bumped s i xs seq present size bounded h here;
      was = unfold get in ground arith;
      fits = fits_lem s i xs seq present size bounded h here;
      run = run_lem s i xs seq present size bounded h here;
      is = is_lem s i xs seq present size bounded h here;
      valid = valid_lem s i xs seq present size bounded h here;
      others = others_lem s i xs seq present size bounded h here;
      count = ground arith;
    }

-- meshx_seq_set stores the number, cut to 24 bits' maximum, so that meshx_seq_get returns it;
-- the other elements keep theirs and the state stays valid.
pub set_lem :
    (s : Seqs) (i seq : ℕ)
    → IsValid s
    → i < s.element_num
    → (t : Seqs) × (set_seq i seq s ≡ some (min seq seq_max, t))
      × (get i t ≡ some (min seq seq_max))
      × ((j : ℕ) → j ≢ i → get j t ≡ get j s)
      × IsValid t
unfolding set_seq get
set_lem s i seq v h =
    let (xs, present, size, bounded) = array_of s i v h in
    let low : min seq seq_max ≤ seq_max = omega arith in
    (
      record s { seq_array = some (set xs i (min seq seq_max)) },
      ground (arith, set?-in xs i (min seq seq_max)),
      ground (arith, length-set xs i (min seq seq_max), get_elem?-set_self xs i (min seq seq_max)),
      (λ j ne. ground (arith, get_elem?-set_ne xs i j (min seq seq_max))),
      ground (
        arith,
        length-set xs i (min seq seq_max),
        All-set (λ x. x ≤ seq_max) xs i (min seq seq_max) low bounded,
      ),
    )

-- Out of range every operation of an initialised module answers MESHX_SEQ_INVALID and changes nothing.
pub out_of_range :
    (s : Seqs) (i seq : ℕ) (xs : List ℕ)
    → s.seq_array ≡ some xs
    → s.element_num ≤ i
    → (get i s ≡ some seq_invalid)
      × (set_seq i seq s ≡ some (seq_invalid, s))
      × (use_seq i s ≡ some (seq_invalid, s))
unfolding get set_seq use_seq
out_of_range s i seq xs e h = ground arith
