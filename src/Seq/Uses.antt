-- ===== src/Seq/Uses.antt =====
-- Sequences of calls of meshx_seq_use, and meshx_seq_clear.
use meshx.Base.{
  ℕ, zero, suc, ◌+◌, ◌<◌, min, ◌≡◌, refl, ap, ◌∙◌, Option, some, List, [], ◌∷◌, ◌++◌, get_elem?,
  set?, replicate, length, length-replicate, arith, ◌>>=◌, length-append, append_assoc,
}
use meshx.Seq.{Seqs, seq_max, get, use_seq, clear, clear_from}
use meshx.Seq.Inv.{zeros, IsValid, use_seq-Used}

-- The numbers that `k` calls in a row return for element `i`.
pub use_times : ℕ → ℕ → Seqs → Option (List ℕ × Seqs)
use_times zero i s = some ([], s)
use_times (suc k) i s = use_seq i s >>= λ (q, t). use_times k i t >>= λ (qs, u). some (q ∷ qs, u)

-- `k` numbers counted up from `q`, the maximum repeated once it is reached.
abbrev pub count_up : ℕ → ℕ → List ℕ
count_up zero q = []
count_up (suc k) q = q ∷ count_up k (min (suc q) seq_max)

-- `k` calls of meshx_seq_use for one element return consecutive numbers from the current one, none
-- twice before the maximum 0xFFFFFF; the maximum, once reached, is returned by every later call.
pub use_times_lem :
    (k i : ℕ) (s : Seqs) (q : ℕ)
    → IsValid s
    → i < s.element_num
    → get i s ≡ some q
    → (t : Seqs) × (use_times k i s ≡ some (count_up k q, t))
      × (get i t ≡ some (min (q + k) seq_max))
      × IsValid t
unfolding use_times
use_times_lem zero i s q v h e =
    let u = use_seq-Used s i v h in (s, refl, ground (arith, u.was, u.fits), v)
use_times_lem (suc k) i s q v h e =
    let u = use_seq-Used s i v h in
    let same : u.seq ≡ q = ground (arith, u.was) in
    let next : get i u.after ≡ some (min (suc q) seq_max) = rw (← same) u.is in
    let inside : i < u.after.element_num = omega (arith, u.count) in
    let (t, run, last, ok) = use_times_lem k i u.after (min (suc q) seq_max) u.valid inside next in
    let start : use_seq i s ≡ some (q, u.after) = rw (← same) u.run in
    (t, ground (arith, start, run), last ∙ ap some (omega arith), ok)

set?-mid :
    (done : List ℕ) (x y : ℕ) (rest : List ℕ)
    → set? (done ++ (x ∷ rest)) (length done) y ≡ some (done ++ (y ∷ rest))
set?-mid [] x y rest = refl
set?-mid (d ∷ done) x y rest = rw (set?-mid done x y rest)

-- After a round for each element of `rest` the array holds zeros behind `done`.
clear_from_lem :
    (done rest : List ℕ)
    → clear_from (length rest) (length done) (done ++ rest)
      ≡ some (done ++ replicate (length rest) 0)
unfolding clear_from
clear_from_lem done [] = refl
clear_from_lem done (x ∷ rest) =
    let zeroed = done ++ (0 ∷ []) in
    let step : clear_from (suc (length rest)) (length done) (done ++ (x ∷ rest))
        ≡ clear_from (length rest) (suc (length done)) (done ++ (0 ∷ rest)) =
      rw (set?-mid done x 0 rest, clear_from) in
    let size : length zeroed ≡ suc (length done) = omega (arith, length-append done (0 ∷ [])) in
    let ih = clear_from_lem zeroed rest in
    step
    ∙ (rw
        (
          size,
          append_assoc done (0 ∷ []) rest,
          append_assoc done (0 ∷ []) (replicate (length rest) 0),
        )
        at ih)

-- meshx_seq_clear on a valid initialised state sets the number of every element to 0 and keeps the
-- number of elements.
pub clear_lem :
    (s : Seqs) (xs : List ℕ)
    → IsValid s
    → s.seq_array ≡ some xs
    → clear s ≡ some (record s { seq_array = some (replicate s.element_num 0) })
unfolding clear
clear_lem s xs v e = ground (arith, clear_from_lem [] xs)

pub clear-IsValid : (s : Seqs) → IsValid (record s { seq_array = some (replicate s.element_num 0) })
clear-IsValid s = (length-replicate s.element_num 0, zeros s.element_num)

get_elem?-replicate : (n i a : ℕ) → i < n → get_elem? (replicate n a) i ≡ some a
get_elem?-replicate zero i a h = absurd (omega arith)
get_elem?-replicate (suc n) zero a h = refl
get_elem?-replicate (suc n) (suc i) a h = get_elem?-replicate n i a (omega arith)

-- After meshx_seq_clear every element has the number 0.
pub get-cleared :
    (i : ℕ) (s : Seqs)
    → i < s.element_num
    → get i (record s { seq_array = some (replicate s.element_num 0) }) ≡ some 0
unfolding get
get-cleared i s h = ground (arith, get_elem?-replicate s.element_num i 0)
