-- ===== src/Iv/Branches.antt =====
-- The branches of meshx_iv_index_update, in terms of phases.
use meshx.Base.{
  ℕ, ◌+◌, ◌-◌, ◌*◌, ◌%◌, ◌^◌, ◌≤◌, ◌<◌, ◌≡◌, refl, inl, inr, Bool, true, false, not, ◌&&◌, some,
  replicate, ltb, ◌==◌, if◌then◌else◌, ◌>>=◌, arith, Bool-cases, ap,
}
use meshx.Base.Errno.{success, inval, max, timing}
use meshx.Seq.{Seqs}
use meshx.Seq.Uses.{clear-IsValid}
use meshx.Rpl
use meshx.Iv.{
  State, UpdateState, normal, in_progress, is_normal, tick_96h, max_diff, update, apply, steps,
}
use meshx.Iv.Phase.{
  IsValid, cleared, clear_seqs, phase, steps_lem, not_above, above, steps_down, steps_up,
}

-- A request too far in the past or in the future, or for a phase that is not ahead.
module _ (busy : Bool) (n : ℕ) (u : UpdateState) (s : State) (w : n < 2 ^ 32) where
  pub update_past : n < s.iv.iv_index → update busy n u s ≡ some (inval, s)
  unfolding update
  update_past h = ground arith

  pub update_far :
      s.iv.iv_index ≤ n
      → n - s.iv.iv_index < 2 ^ 31
      → max_diff < n - s.iv.iv_index
      → update busy n u s ≡ some (max, s)
  unfolding update
  update_far h near far = ground (arith, above n s.iv h w near far)

  pub update_behind :
      s.iv.iv_index ≤ n
      → n - s.iv.iv_index ≤ max_diff
      → n * 2 + is_normal u ≤ phase s.iv
      → update busy n u s ≡ some (success, s)
  unfolding update
  update_behind h near down =
      rw (not_above n s.iv h w near, steps_down n u s.iv h w near down, update) (ground arith)

  abbrev pub ahead : ℕ
  ahead = n * 2 + is_normal u - phase s.iv

  abbrev pub early : Bool
  early = not s.iv.test_mode && ltb s.iv.tick_time (ahead * tick_96h)

  module _ (h : s.iv.iv_index ≤ n) (near : n - s.iv.iv_index ≤ max_diff)
      (up : phase s.iv < n * 2 + is_normal u) where
    time_lem :
        (not s.iv.test_mode && ltb s.iv.tick_time (steps n u s.iv * tick_96h % 2 ^ 32)) ≡ early
    time_lem = ground (arith, steps_lem n u s.iv h w near up)

    pub update-early : early ≡ true → update busy n u s ≡ some (timing, s)
    unfolding update
    update-early e =
        rw (not_above n s.iv h w near, steps_up n u s.iv h w near up, time_lem, e, update)
          (ground arith)

    pub update_on :
        early ≡ false
        → update busy n u s ≡ (
            apply busy ahead u (record s { iv = record (s.iv) { iv_index = n } }) >>= λ t.
            some (success, t))
    unfolding update
    update_on e =
        rw
          (
            not_above n s.iv h w near,
            steps_up n u s.iv h w near up,
            time_lem,
            e,
            steps_lem n u s.iv h w near up,
            update,
          )
          (ground arith)

abbrev pub at_index : ℕ → State → State
at_index n s = record s { iv = record (s.iv) { iv_index = n } }

-- What the accepted request leaves.
abbrev pub applied : Bool → ℕ → ℕ → UpdateState → State → State
applied busy d n normal s =
    if d == 1
    then (if busy
        then record s { iv = record (s.iv) { iv_index = n; transit_pending = true } }
        else record s {
          iv = record (s.iv) { iv_index = n; update_state = normal; tick_time = 0 };
          seqs = cleared s.seqs;
          rpl = Rpl.clear s.rpl;
        })
    else record s {
      iv = record (s.iv) { iv_index = n; update_state = normal; tick_time = tick_96h };
      seqs = cleared s.seqs;
      rpl = Rpl.clear s.rpl;
    }
applied busy d n in_progress s =
    if d == 1
    then record s { iv = record (s.iv) { iv_index = n; update_state = in_progress } }
    else record s {
      iv = record (s.iv) { iv_index = n; update_state = in_progress; tick_time = tick_96h };
      seqs = cleared s.seqs;
      rpl = Rpl.clear s.rpl;
    }

pub apply_lem :
    (busy : Bool) (d n : ℕ) (u : UpdateState) (s : State)
    → IsValid s
    → apply busy d u (at_index n s) ≡ some (applied busy d n u s)
unfolding apply
apply_lem busy d n normal s v = ground (arith, clear_seqs s v)
apply_lem busy d n in_progress s v = ground (arith, clear_seqs s v)

pub IsValid-kept :
    (s t : State)
    → IsValid s
    → t.seqs ≡ s.seqs
    → t.iv.iv_index < 2 ^ 32
    → 0 < t.iv.iv_index
    → IsValid t
IsValid-kept s t v e w pos = record {
  seqs = rw e v.seqs;
  array = v.array;
  present = rw e v.present;
  word = w;
  started = λ _. pos;
}

pub IsValid-cleared :
    (s t : State)
    → IsValid s
    → t.seqs ≡ cleared s.seqs
    → t.iv.iv_index < 2 ^ 32
    → 0 < t.iv.iv_index
    → IsValid t
IsValid-cleared s t v e w pos = record {
  seqs = rw e (clear-IsValid s.seqs);
  array = replicate s.seqs.element_num 0;
  present = ap (λ (q : Seqs). q.seq_array) e;
  word = w;
  started = λ _. pos;
}

pub applied-IsValid :
    (busy : Bool) (d n : ℕ) (u : UpdateState) (s : State)
    → IsValid s
    → n < 2 ^ 32
    → 0 < n
    → IsValid (applied busy d n u s)
applied-IsValid busy d n normal s v w pos = elim (Bool-cases (d == 1)) [
  | inr e ↦ rw e (IsValid-cleared s _ v refl w pos)
  | inl e ↦ elim (Bool-cases busy) [
    | inl b ↦ rw (e, b) (IsValid-kept s _ v refl w pos)
    | inr b ↦ rw (e, b) (IsValid-cleared s _ v refl w pos)
  ]
]
applied-IsValid busy d n in_progress s v w pos = elim (Bool-cases (d == 1)) [
  | inl e ↦ rw e (IsValid-kept s _ v refl w pos)
  | inr e ↦ rw e (IsValid-cleared s _ v refl w pos)
]
