-- ===== src/Iv/Nonce/Run.antt =====
-- The nonces of an element over any sequence of events.
use meshx.Base.{
  ℕ, ◌^◌, ◌<◌, ◌≡◌, refl, ◌⊎◌, inl, inr, some, List, [], ◌∷◌, All, if◌then◌else◌, ◌==◌, ◌&&◌, arith,
}
use meshx.Seq.Inv.{use_seq-Used, array_of}
use meshx.Iv.{State, transit, tx_get}
use meshx.Iv.Phase.{IsValid}
use meshx.Iv.Nonce.{
  next, NotAfter, Later, NotAfter-refl, NotAfter-trans, update-Onward, tick-Onward, transit-Onward,
}
use meshx.Iv.Trace.{Event, beacon, timer, acknowledge, send, finish, Nonce, step, run}

-- What one event does: the nonces that element `i` uses, and where they stand.
record Stepped (i : ℕ) (e : Event) (s : State) : Type 0 where
  out : List Nonce
  after : State
  run : step i e s ≡ some (out, after)
  valid : IsValid after
  count : after.seqs.element_num ≡ s.seqs.element_num
  later : NotAfter (next i s) (next i after)
  used : (out ≡ []) ⊎ ((out ≡ next i s ∷ []) × Later (next i s) (next i after))

-- The index in a beacon is 32 bits wide, and an element that sends is one of the node's.
abbrev pub Fits : ℕ → Event → Type 0
Fits k (beacon busy n u) = n < 2 ^ 32
Fits k (timer busy) = Unit
Fits k (acknowledge j) = j < k
Fits k (send j n) = j < k
Fits k finish = Unit

acknowledge-Stepped :
    (i j : ℕ) (s : State)
    → IsValid s
    → i < s.seqs.element_num
    → j < s.seqs.element_num
    → Stepped i (acknowledge j) s
unfolding step next tx_get
acknowledge-Stepped i j s v inside there =
    let u = use_seq-Used s.seqs j v.seqs there in
    let (xs, present, size, bounded) = array_of u.after j u.valid (omega (arith, u.count)) in
    record {
      out = if j == i then (tx_get s.iv, u.seq) ∷ [] else [];
      after = record s { seqs = u.after };
      run = rw u.run;
      valid = record {
        seqs = u.valid;
        array = xs;
        present = present;
        word = v.word;
        started = v.started;
      };
      count = u.count;
      later = ground (arith, u.was, u.is, u.fits, u.others i);
      used = ground (arith, u.was, u.is, u.fits, u.others i);
    }

send-Stepped :
    (i j n : ℕ) (s : State)
    → IsValid s
    → i < s.seqs.element_num
    → j < s.seqs.element_num
    → Stepped i (send j n) s
unfolding step next tx_get
send-Stepped i j n s v inside there =
    let u = use_seq-Used s.seqs j v.seqs there in
    let (xs, present, size, bounded) = array_of u.after j u.valid (omega (arith, u.count)) in
    record {
      out = if (j == i) && (n == tx_get s.iv) then (n, u.seq) ∷ [] else [];
      after = record s { seqs = u.after };
      run = rw u.run;
      valid = record {
        seqs = u.valid;
        array = xs;
        present = present;
        word = v.word;
        started = v.started;
      };
      count = u.count;
      later = ground (arith, u.was, u.is, u.fits, u.others i);
      used = ground (arith, u.was, u.is, u.fits, u.others i);
    }

step-Stepped :
    (i : ℕ) (e : Event) (s : State)
    → IsValid s
    → i < s.seqs.element_num
    → Fits s.seqs.element_num e
    → Stepped i e s
unfolding step
step-Stepped i (beacon busy n u) s v inside f =
    let (r, t, e, o) = update-Onward busy n u s i v f inside in
    record {
      out = [];
      after = t;
      run = rw e;
      valid = o.valid;
      count = o.count;
      later = o.later;
      used = inl refl;
    }
step-Stepped i (timer busy) s v inside f =
    let (t, e, o) = tick-Onward busy s i v inside in
    record {
      out = [];
      after = t;
      run = rw e;
      valid = o.valid;
      count = o.count;
      later = o.later;
      used = inl refl;
    }
step-Stepped i (acknowledge j) s v inside f = acknowledge-Stepped i j s v inside f
step-Stepped i (send j n) s v inside f = send-Stepped i j n s v inside f
step-Stepped i finish s v inside f =
    let o = transit-Onward s i v in
    record {
      out = [];
      after = record s { iv = transit s.iv };
      run = refl;
      valid = o.valid;
      count = o.count;
      later = o.later;
      used = inl refl;
    }

-- Each nonce of a list is later than all before it.
abbrev pub Ascending : List Nonce → Type 0
Ascending [] = Unit
Ascending (p ∷ ps) = All (Later p) ps × Ascending ps

All-weaken :
    {P Q : Nonce → Type 0} → ((p : Nonce) → P p → Q p) → (ps : List Nonce) → All P ps → All Q ps
All-weaken f [] h = tt
All-weaken f (p ∷ ps) h = (f p h.0, All-weaken f ps h.1)

Later-NotAfter : (p q r : Nonce) → Later p q → NotAfter q r → Later p r
Later-NotAfter p q r h k = ground arith

-- How a sequence of events ends, for element `i`.
pub record Ran (i : ℕ) (es : List Event) (s : State) : Type 0 where
  pub nonces : List Nonce
  pub after : State
  pub run_is : run i es s ≡ some (nonces, after)
  pub valid : IsValid after
  pub bound : All (NotAfter (next i s)) nonces
  pub ascending : Ascending nonces

-- From a valid state any sequence of beacons, timer ticks, acknowledgements, messages and ends of
-- transmissions runs without an abort. Of the nonces that an element uses in it, those of the
-- acknowledgements and of the messages whose context has the transmit IV index of the time ascend: each has
-- a higher IV index than all of these before it, or the same index and a higher sequence number, or it
-- repeats one whose sequence number is the last one, 0xFFFFFF. Messages with another IV index in their
-- context take sequence numbers too, but nothing is said of their nonces.
pub run-Ran :
    (i : ℕ) (es : List Event) (s : State)
    → IsValid s
    → i < s.seqs.element_num
    → All (Fits s.seqs.element_num) es
    → Ran i es s
unfolding run
run-Ran i [] s v inside f = record {
  nonces = [];
  after = s;
  run_is = refl;
  valid = v;
  bound = tt;
  ascending = tt;
}
run-Ran i (e ∷ es) s v inside f =
    let a = step-Stepped i e s v inside f.0 in
    let fits : All (Fits a.after.seqs.element_num) es = rw a.count f.1 in
    let b = run-Ran i es a.after a.valid (omega (arith, a.count)) fits in
    let here = next i s in
    let there = next i a.after in
    let below = All-weaken (λ p k. NotAfter-trans here there p a.later k) b.nonces b.bound in
    elim a.used [
      | inl none_out ↦ record {
        nonces = b.nonces;
        after = b.after;
        run_is = rw (a.run, none_out, b.run_is);
        valid = b.valid;
        bound = below;
        ascending = b.ascending;
      }
      | inr (one_out, above) ↦ record {
        nonces = here ∷ b.nonces;
        after = b.after;
        run_is = ground (arith, a.run, one_out, b.run_is);
        valid = b.valid;
        bound = (NotAfter-refl here, below);
        ascending =
            (All-weaken (λ p k. Later-NotAfter here there p above k) b.nonces b.bound, b.ascending);
      }
    ]
