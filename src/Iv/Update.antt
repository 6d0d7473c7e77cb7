-- ===== src/Iv/Update.antt =====
-- meshx_iv_index_update against the abstract procedure `advance`.
use meshx.Base.{
  ℕ, ◌+◌, ◌-◌, ◌*◌, ◌%◌, ◌^◌, ◌≤◌, ◌<◌, ◌≡◌, inl, inr, Bool, true, false, ◌&&◌, some, ◌==◌,
  if◌then◌else◌, arith, Bool-cases,
}
use native.Mathlib.Decide.{dec_lt}
use meshx.Base.Errno.{Ret, success, inval, max, timing}
use meshx.Iv.{
  State, UpdateState, normal, in_progress, is_normal, tick_96h, max_diff, update, distance, steps,
}
use meshx.Iv.Phase.{IsValid, phase, advance}
use meshx.Iv.Branches.{
  update_past, update_far, update_behind, update-early, update_on, ahead, early, applied, apply_lem,
  applied-IsValid,
}

phase-applied :
    (busy : Bool) (n : ℕ) (u : UpdateState) (s : State)
    → phase s.iv < n * 2 + is_normal u
    → s.iv.iv_index ≤ n
    → phase (applied busy (n * 2 + is_normal u - phase s.iv) n u s).iv ≡ (
        if (n * 2 + is_normal u == phase s.iv + 1) && ((n * 2 + is_normal u) % 2 == 1) && busy
        then phase s.iv
        else n * 2 + is_normal u)
phase-applied busy n normal s up h = ground arith
phase-applied busy n in_progress s up h = ground arith

-- How an update ended, seen in phases.
pub record Advanced (busy : Bool) (n : ℕ) (u : UpdateState) (s : State) : Type 0 where
  pub ret : Ret
  pub after : State
  pub run : update busy n u s ≡ some (ret, after)
  pub valid : IsValid after
  pub step :
      (ret, phase after.iv)
      ≡ advance s.iv.test_mode s.iv.tick_time busy (phase s.iv) (n * 2 + is_normal u)

-- In five cases: past, far, behind, too early, accepted.
module _ (busy : Bool) (n : ℕ) (u : UpdateState) (s : State) (v : IsValid s) (w : n < 2 ^ 32) where
  refines_past : n < s.iv.iv_index → Advanced busy n u s
  refines_past h = record {
    ret = inval;
    after = s;
    run = update_past busy n u s w h;
    valid = v;
    step = ground arith;
  }

  refines_far :
      s.iv.iv_index ≤ n
      → n - s.iv.iv_index < 2 ^ 31
      → max_diff < n - s.iv.iv_index
      → Advanced busy n u s
  refines_far h near far = record {
    ret = max;
    after = s;
    run = update_far busy n u s w h near far;
    valid = v;
    step = ground arith;
  }

  refines_behind :
      s.iv.iv_index ≤ n
      → n - s.iv.iv_index ≤ max_diff
      → n * 2 + is_normal u ≤ phase s.iv
      → Advanced busy n u s
  refines_behind h near down = record {
    ret = success;
    after = s;
    run = update_behind busy n u s w h near down;
    valid = v;
    step = ground arith;
  }

  module _ (h : s.iv.iv_index ≤ n) (near : n - s.iv.iv_index ≤ max_diff)
      (up : phase s.iv < n * 2 + is_normal u) where
    refines_early : early busy n u s w ≡ true → Advanced busy n u s
    refines_early e = record {
      ret = timing;
      after = s;
      run = update-early busy n u s w h near up e;
      valid = v;
      step = ground arith;
    }

    nonzero : 0 < n
    nonzero = ground (arith, v.started)

    refines_on : early busy n u s w ≡ false → Advanced busy n u s
    refines_on e = record {
      ret = success;
      after = applied busy (ahead busy n u s w) n u s;
      run = rw (update_on busy n u s w h near up e, apply_lem busy (ahead busy n u s w) n u s v);
      valid = applied-IsValid busy (ahead busy n u s w) n u s v w nonzero;
      step = rw (phase-applied busy n u s up h) (ground arith);
    }

  -- For an index less than 2^31 ahead, meshx_iv_index_update does what the abstract procedure does:
  -- it never aborts, returns the code and reaches the phase of `advance`, which refuses an older
  -- index, an index more than 42 ahead and a change that comes before 96 hours for each phase
  -- skipped, and never goes back; and the state stays valid.
  pub update_refines : n < s.iv.iv_index + 2 ^ 31 → Advanced busy n u s
  update_refines near = elim (dec_lt n s.iv.iv_index) [
    | yes h ↦ refines_past h
    | no h ↦ elim (dec_lt max_diff (n - s.iv.iv_index)) [
      | yes far ↦ refines_far (omega arith) (omega arith) far
      | no close ↦ elim (dec_lt (phase s.iv) (n * 2 + is_normal u)) [
        | no down ↦ refines_behind (omega arith) (omega arith) (omega arith)
        | yes up ↦ elim (Bool-cases (early busy n u s w)) [
          | inl e ↦ refines_early (omega arith) (omega arith) up e
          | inr e ↦ refines_on (omega arith) (omega arith) up e
        ]
      ]
    ]
  ]

-- An index at least 2^31 + 1 ahead passes the test for 42, since the distance is then negative as
-- an `int32_t`, and is taken over, if enough time has passed.
pub far_jump :
    (busy : Bool) (k : ℕ) (s : State)
    → IsValid s
    → s.iv.update_state ≡ normal
    → 0 < k
    → k ≤ 42
    → s.iv.iv_index + 2 ^ 31 + k < 2 ^ 32
    → 2 * k * tick_96h ≤ s.iv.tick_time
    → (t : State) × (update busy (s.iv.iv_index + 2 ^ 31 + k) normal s ≡ some (success, t))
      × (t.iv.iv_index ≡ s.iv.iv_index + 2 ^ 31 + k)
unfolding update steps distance
far_jump busy k s v norm pos small word time =
    let n = s.iv.iv_index + 2 ^ 31 + k in
    let moved : steps n normal s.iv ≡ 2 * k = ground arith in
    (
      applied busy (2 * k) n normal s,
      ground (arith, moved, apply_lem busy (2 * k) n normal s v),
      ground arith,
    )
