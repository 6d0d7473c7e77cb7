-- ===== src/LowerTrans/Tx/Run.antt =====
-- Starting and finishing transmit tasks keeps the invariant, and does not abort.
use meshx.Base.{
  ℕ, zero, suc, ◌≤◌, ◌<◌, ◌≡◌, refl, inl, inr, true, false, Option, some, List, [], ◌∷◌, ◌++◌,
  length, ◌==◌, arith, Bool-cases, Option-cases,
}
use meshx.Base.Errno.{Ret, is_success}
use meshx.Iv.{transit}
use meshx.LowerTrans.Segment.{Config, Sent}
use meshx.LowerTrans.Segment.Window.{send_seg_msg-Transmitted}
use meshx.LowerTrans.Tx.{TxTask, Tx, Env, dst_active, find, pick, release, finish_with, run}
use meshx.LowerTrans.Tx.Lists.{one_if, find-none, find-last}
use meshx.LowerTrans.Tx.Choice.{pick-Picked, pick-none}
use meshx.LowerTrans.Tx.Inv.{Own, Waits, IsSound, Ready, Released, start-IsSound, release-Released}

-- A result that keeps the invariant.
pub record Ran (cfg : Config) (k : ℕ) (ids : ℕ → ℕ) (r : Option (Ret × Tx × List Sent))
    : Type 0 where
  pub ret : Ret
  pub after : Tx
  pub out : List Sent
  pub eq : r ≡ some (ret, after, out)
  pub sound : IsSound cfg k ids after

pub record Finished (cfg : Config) (k : ℕ) (ids : ℕ → ℕ) (r : Option (Tx × List Sent))
    : Type 0 where
  pub after : Tx
  pub out : List Sent
  pub eq : r ≡ some (after, out)
  pub sound : IsSound cfg k ids after

-- The destination of the picked task is the one that has become free.
picked-dst :
    (d : ℕ) (active : List TxTask) (u : TxTask)
    → dst_active u.ctx.dst active ≡ false
    → Waits d active u
    → d ≡ u.ctx.dst
picked-dst d active u free (inl e) = e
picked-dst d active u free (inr e) = ground arith

module _ {cfg : Config} {k : ℕ} {ids : ℕ → ℕ} where
  picked-Ready :
      (t u : TxTask) (us : List TxTask) (s : Tx)
      → Released cfg k ids t s
      → pick s.active s.pending ≡ some (u, us)
      → Ready cfg k ids u (record s { pending = us }) × (length s.pending ≡ suc (length us))
  picked-Ready t u us s r e =
      let w = pick-Picked (Waits t.ctx.dst s.active) s.active s.pending u us e r.waits in
      let o = pick-Picked (Own cfg k) s.active s.pending u us e r.own_pending in
      let d = picked-dst t.ctx.dst s.active u w.free w.taken in
      (
        record {
          valid = r.valid;
          number = r.number;
          apart = r.apart;
          free = w.free;
          waits = rw d at w.left;
          mine = o.taken;
          own = r.own;
          own_pending = o.left;
          places = λ i. omega (arith, r.places i, w.counts i);
        },
        w.shorter,
      )

  -- The end of a task, for any way to start the next one.
  pub finish_with-Finished :
      (run_task : TxTask → Tx → Option (Ret × Tx × List Sent)) (i : ℕ) (t : TxTask) (s : Tx)
      → ((u : TxTask) (s' : Tx)
          → Ready cfg k ids u s'
          → length s'.pending < length s.pending
          → Ran cfg k ids (run_task u s'))
      → IsSound cfg k ids s
      → find i s.active ≡ some t
      → Finished cfg k ids (finish_with run_task i s)
  unfolding finish_with release
  finish_with-Finished run_task i t s runs v f =
      let s' : Tx = record (release i s) { iv = transit s.iv } in
      let r : Released cfg k ids t s' = release-Released i t s v f (transit s.iv) in
      elim (Option-cases (pick s'.active s'.pending)) [
        | inl e ↦ record {
          after = s';
          out = [];
          eq = rw (e, finish_with);
          sound = record {
            valid = r.valid;
            number = r.number;
            apart = r.apart;
            served = pick-none s'.active s'.pending e;
            own = r.own;
            own_pending = r.own_pending;
            places = r.places;
          };
        }
        | inr ((u, us), e) ↦
            let p = picked-Ready t u us s' r e in
            let next = runs u (record s' { pending = us }) p.0 (omega (arith, p.1)) in
            record {
              after = next.after;
              out = next.out;
              eq = rw (e, next.eq, finish_with);
              sound = next.sound;
            }
      ]

  -- With fuel for all pending tasks, starting a task gives a result.
  pub run-Ran :
      (env : Env) (fuel : ℕ) (t : TxTask) (s : Tx)
      → env.timer_created ≡ true
      → ((i : ℕ) → ids i ≤ 1)
      → length s.pending < fuel
      → Ready cfg k ids t s
      → Ran cfg k ids (run env cfg fuel t s)
  unfolding run
  run-Ran env zero t s timer unique enough r = absurd (omega (arith, enough))
  run-Ran env (suc fuel) t s timer unique enough r =
      let tr =
        send_seg_msg-Transmitted cfg t.pdu t.block_ack t.ctx s.seqs r.valid
          (omega (arith, r.mine, r.number)) in
      let u : TxTask = record t { ctx = tr.ctx' } in
      let s' : Tx = record s { active = s.active ++ (u ∷ []); seqs = tr.seqs' } in
      let v : IsSound cfg k ids s' =
        start-IsSound t u s tr.seqs' r refl tr.kept.0 (rw tr.kept.1 r.mine) tr.valid tr.count in
      elim (Bool-cases (is_success tr.ret)) [
        | inl good ↦ record {
          ret = tr.ret;
          after = s';
          out = tr.out;
          eq = rw (timer, tr.run, good, run);
          sound = v;
        }
        | inr late ↦
            let self : one_if (t.id == t.id) ≡ 1 = ground arith in
            let f : find t.id s'.active ≡ some u =
              find-last u s.active
                (find-none t.id s.active (omega (arith, r.places t.id, unique t.id, self))) in
            let w =
              finish_with-Finished (run env cfg fuel) t.id u s'
                (λ x y r' l. run-Ran env fuel x y timer unique (omega (arith, l, enough)) r') v f in
            record {
              ret = tr.ret;
              after = w.after;
              out = tr.out ++ w.out;
              eq = rw (timer, tr.run, late, w.eq, run);
              sound = w.sound;
            }
      ]
