-- ===== src/Iv/Nonce.antt =====
-- The pair of transmit IV index and sequence number under each operation.
pub mod Run
use meshx.Base.{
  ℕ, zero, suc, ◌+◌, ◌-◌, ◌*◌, ◌/◌, ◌%◌, ◌^◌, ◌≤◌, ◌<◌, min, ◌≡◌, refl, ◌∙◌, ap, ◌≢◌, ◌⊎◌, inl, inr,
  Bool, true, false, Option, none, some, List, [], ◌∷◌, ◌++◌, replicate, get_elem?, length, All,
  length-replicate, if◌then◌else◌, ◌==◌, ◌&&◌, ltb, leb, ◌>>=◌, arith, Bool-cases, Option-cases,
}
use meshx.Seq
use meshx.Seq.{Seqs, seq_max, get}
use meshx.Seq.Uses.{get-cleared}
use meshx.Base.Errno.{Ret, success}
use meshx.Seq.Inv.{use_seq-Used, array_of}
use meshx.Rpl
use meshx.Iv.{
  tick_144h, Iv, State, UpdateState, normal, in_progress, to_normal, pend, next_tick, tick, recover,
  update, apply, distance, steps, transit, update_state_set, tx_get, is_in_progress,
}
use meshx.Iv.Phase.{IsValid, cleared, clear_seqs}
use meshx.Iv.Branches.{IsValid-cleared, applied, apply_lem, applied-IsValid}
use meshx.Iv.Trace.{Event, beacon, timer, acknowledge, send, finish, Nonce, step, run}

abbrev pub seq_of : ℕ → Seqs → ℕ
seq_of i q = elim (get i q) [ none ↦ 0 | some n ↦ n ]

-- The nonce that element `i` would use next.
unfoldable pub next : ℕ → State → Nonce
next i s = (tx_get s.iv, seq_of i s.seqs)

-- In the order of the index, then of the sequence number.
abbrev pub NotAfter : Nonce → Nonce → Type 0
NotAfter p q = (p.0 < q.0) ⊎ ((p.0 ≡ q.0) × (p.1 ≤ q.1))

-- Later, or the nonce with the last sequence number over again.
abbrev pub Later : Nonce → Nonce → Type 0
Later p q = (p.0 < q.0) ⊎ ((p.0 ≡ q.0) × (p.1 < q.1)) ⊎ ((p.1 ≡ seq_max) × (q ≡ p))

pub NotAfter-trans : (p q r : Nonce) → NotAfter p q → NotAfter q r → NotAfter p r
NotAfter-trans p q r h k = ground arith

tx_get_lem :
    (s : State)
    → IsValid s
    → tx_get s.iv + (if is_in_progress s.iv.update_state then 1 else 0) ≡ s.iv.iv_index
unfolding tx_get
tx_get_lem s v = ground (arith, v.word, v.started)

-- Clearing sets the number of an element to 0.
seq_of-cleared : (i : ℕ) (q : Seqs) → i < q.element_num → seq_of i (cleared q) ≡ 0
seq_of-cleared i q h = rw (get-cleared i q h, seq_of)

-- The state stays valid, with as many elements, and the next nonce does not go back.
pub record Onward (i : ℕ) (s t : State) : Type 0 where
  pub valid : IsValid t
  pub count : t.seqs.element_num ≡ s.seqs.element_num
  pub later : NotAfter (next i s) (next i t)

update_cases :
    (busy : Bool) (n : ℕ) (u : UpdateState) (s : State)
    → IsValid s
    → ((r : Ret) × (update busy n u s ≡ some (r, s)))
      ⊎ ((s.iv.iv_index ≤ n)
          × (0 < steps n u s.iv)
          × (steps n u s.iv < 2 ^ 31)
          × (update busy n u s ≡ some (success, applied busy (steps n u s.iv) n u s)))
unfolding update
update_cases busy n u s v = ground (arith, apply_lem busy (steps n u s.iv) n u s v)

module _ (busy : Bool) (n : ℕ) (s : State) (i : ℕ) (v : IsValid s) (w : n < 2 ^ 32)
    (inside : i < s.seqs.element_num) (h : s.iv.iv_index ≤ n) where
  applied-later :
      (u : UpdateState)
      → 0 < steps n u s.iv
      → steps n u s.iv < 2 ^ 31
      → (0 < n) × NotAfter (next i s) (next i (applied busy (steps n u s.iv) n u s))
  unfolding next tx_get steps distance
  applied-later normal pos small = ground (arith, v.word, v.started, seq_of-cleared i s.seqs inside)
  applied-later in_progress pos small =
      ground (arith, v.word, v.started, seq_of-cleared i s.seqs inside)

  count-applied :
      (d : ℕ) (u : UpdateState) → (applied busy d n u s).seqs.element_num ≡ s.seqs.element_num
  count-applied d normal = ground arith
  count-applied d in_progress = ground arith

pub NotAfter-refl : (p : Nonce) → NotAfter p p
NotAfter-refl p = omega arith

pub update-Onward :
    (busy : Bool) (n : ℕ) (u : UpdateState) (s : State) (i : ℕ)
    → IsValid s
    → n < 2 ^ 32
    → i < s.seqs.element_num
    → (r : Ret) × (t : State) × (update busy n u s ≡ some (r, t)) × Onward i s t
update-Onward busy n u s i v w inside = elim (update_cases busy n u s v) [
  | inl (r, e) ↦ (r, s, e, record { valid = v; count = refl; later = NotAfter-refl (next i s) })
  | inr (h, pos, small, e) ↦
      let (nonzero, later) = applied-later busy n s i v w inside h u pos small in
      (
        success,
        applied busy (steps n u s.iv) n u s,
        e,
        record {
          valid = applied-IsValid busy (steps n u s.iv) n u s v w nonzero;
          count = count-applied busy n s i v w inside h (steps n u s.iv) u;
          later = later;
        },
      )
]

abbrev due : State → Bool
due s = leb tick_144h (next_tick s.iv.tick_time) && is_in_progress s.iv.update_state

-- A change of the other fields of the IV index.
same-Onward :
    (i : ℕ) (s t : State)
    → IsValid s
    → t.seqs ≡ s.seqs
    → t.iv.iv_index ≡ s.iv.iv_index
    → t.iv.update_state ≡ s.iv.update_state
    → Onward i s t
unfolding next tx_get
same-Onward i s t v q n u = record {
  valid = record {
    seqs = rw q v.seqs;
    array = v.array;
    present = rw q v.present;
    word = rw n v.word;
    started = λ e. omega (arith, v.started (cc (u, e)));
  };
  count = ap (λ (x : Seqs). x.element_num) q;
  later = ground arith;
}

-- The end of an update: the index goes on to the next nonces with cleared numbers.
closing-Onward :
    (i : ℕ) (s t : State)
    → IsValid s
    → i < s.seqs.element_num
    → s.iv.update_state ≡ in_progress
    → t.seqs ≡ cleared s.seqs
    → t.iv.iv_index ≡ s.iv.iv_index
    → t.iv.update_state ≡ normal
    → Onward i s t
unfolding next tx_get
closing-Onward i s t v inside p q n u = record {
  valid = IsValid-cleared s t v q (omega (arith, v.word)) (omega (arith, v.started p));
  count = ap (λ (x : Seqs). x.element_num) q;
  later = ground (arith, v.started p, v.word);
}

pub tick-Onward :
    (busy : Bool) (s : State) (i : ℕ)
    → IsValid s
    → i < s.seqs.element_num
    → (t : State) × (tick busy s ≡ some t) × Onward i s t
unfolding tick
tick-Onward busy s i v inside =
    let aged : State = record s { iv = record (s.iv) { tick_time = next_tick s.iv.tick_time } } in
    let pending : State = record s {
      iv = record (s.iv) { tick_time = next_tick s.iv.tick_time; transit_pending = true };
    } in
    let closed : State = record s {
      iv = record (s.iv) { update_state = normal; tick_time = 0 };
      seqs = cleared s.seqs;
      rpl = Rpl.clear s.rpl;
    } in
    elim (Bool-cases (due s)) [
      | inr e ↦ (aged, rw e, same-Onward i s aged v refl refl refl)
      | inl e ↦ elim (Bool-cases busy) [
        | inl b ↦ (pending, rw (e, b), same-Onward i s pending v refl refl refl)
        | inr b ↦ (
          closed,
          rw (e, b, clear_seqs s v),
          closing-Onward i s closed v inside (ground arith) refl refl refl,
        )
      ]
    ]

pub transit-Onward : (s : State) (i : ℕ) → IsValid s → Onward i s (record s { iv = transit s.iv })
unfolding transit next tx_get
transit-Onward s i v = record {
  valid = record {
    seqs = v.seqs;
    array = v.array;
    present = v.present;
    word = ground (arith, v.word);
    started = λ e. ground (arith, v.started);
  };
  count = refl;
  later = ground (arith, v.word, v.started);
}
