-- ===== src/Iv/Timing.antt =====
-- The tick timer of the IV update procedure.
use meshx.Base.{ℕ, zero, suc, ◌+◌, ◌<◌, ◌≡◌, false, Option, some, ◌>>=◌, arith}
use meshx.Rpl
use meshx.Iv.{State, normal, in_progress, tick_144h, tick}
use meshx.Iv.Phase.{IsValid, cleared, clear_seqs}

-- `k` ticks of the timer with an idle lower transport.
pub idle_ticks : ℕ → State → Option State
idle_ticks zero s = some s
idle_ticks (suc k) s = tick false s >>= λ t. idle_ticks k t

idle_tick_before :
    (s : State)
    → s.iv.update_state ≡ in_progress
    → s.iv.tick_time + 1 < tick_144h
    → tick false s ≡ some (record s { iv = record (s.iv) { tick_time = s.iv.tick_time + 1 } })
unfolding tick
idle_tick_before s p early = ground arith

idle_tick_due :
    (s : State)
    → IsValid s
    → s.iv.update_state ≡ in_progress
    → s.iv.tick_time + 1 ≡ tick_144h
    → tick false s
      ≡ some (record s {
        iv = record (s.iv) { update_state = normal; tick_time = 0 };
        seqs = cleared s.seqs;
        rpl = Rpl.clear s.rpl;
      })
unfolding tick
idle_tick_due s v p due = ground (arith, clear_seqs s v)

-- An IV update in progress that is `k` ticks short of 144 hours is over after exactly `k` ticks with
-- an idle lower transport: the state is then NORMAL with the same index, the tick counter is 0, and
-- the sequence numbers and the replay protection list are cleared.
pub returns_to_normal :
    (k : ℕ) (s : State)
    → IsValid s
    → s.iv.update_state ≡ in_progress
    → s.iv.tick_time + suc k ≡ tick_144h
    → idle_ticks (suc k) s
      ≡ some (record s {
        iv = record (s.iv) { update_state = normal; tick_time = 0 };
        seqs = cleared s.seqs;
        rpl = Rpl.clear s.rpl;
      })
unfolding idle_ticks
returns_to_normal zero s v p due = rw (idle_tick_due s v p (omega arith))
returns_to_normal (suc k) s v p due =
    let t : State = record s { iv = record (s.iv) { tick_time = s.iv.tick_time + 1 } } in
    let u : IsValid t = record {
      seqs = v.seqs;
      array = v.array;
      present = v.present;
      word = v.word;
      started = v.started;
    } in
    let ih = returns_to_normal k t u p (omega arith) in
    ground (arith, idle_tick_before s p (omega arith), ih)
