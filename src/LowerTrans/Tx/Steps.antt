-- ===== src/LowerTrans/Tx/Steps.antt =====
-- A new message, a timeout and an acknowledgement keep the invariant, and do not abort.
use meshx.Base.{
  ℕ, suc, ◌+◌, ◌-◌, ◌/◌, ◌%◌, ◌≤◌, ◌<◌, ◌≡◌, refl, ◌∙◌, ap, inl, inr, true, ◌||◌, some, List, [],
  ◌∷◌, ◌++◌, length, ltb, ◌==◌, arith, Bool-cases, Option-cases, List-cases,
}
use meshx.Base.Errno.{success, length as bad_length, already, busy}
use meshx.Base.Bits.{ones}
use meshx.Seq
use meshx.Seq.{Seqs}
use meshx.Seq.Inv
use meshx.LowerTrans.Pdu.{MsgCtx, is_seq_auth_valid}
use meshx.LowerTrans.Segment.{Config, element_of}
use meshx.LowerTrans.Segment.Window.{send_seg_msg-Transmitted}
use meshx.LowerTrans.Tx.{
  TxTask, Tx, Env, dst_active, put, find, finish, task_run, task_try, is_tx_task_exist,
  process_seg_msg, retransmit, handle_tx_timeout, find_seq_zero, recv_block_ack,
}
use meshx.LowerTrans.Tx.Lists.{
  one_if, count, count_ids, count_ids-append, count-append, All-map, All-append,
}
use meshx.LowerTrans.Tx.Choice.{dst_active-put, Apart-put, count-put, find-put, All-put, All-find}
use meshx.LowerTrans.Tx.Inv.{Own, Served, IsSound, Ready}
use meshx.LowerTrans.Tx.Run.{Ran, Finished, finish_with-Finished, run-Ran}

put-Served :
    (t u : TxTask)
    → u.ctx.dst ≡ t.ctx.dst
    → (ts : List TxTask) → find u.id ts ≡ some t
    → (p : TxTask) → Served ts p
    → Served (put u ts) p
put-Served t u same ts f p h = dst_active-put t u same p.ctx.dst ts f ∙ h

-- A task with the acknowledged SeqZero is found again by its address.
count-found :
    (z : ℕ) (t : TxTask) (ts : List TxTask) → find_seq_zero z ts ≡ some t → 1 ≤ count t.id ts
unfolding find_seq_zero count
count-found z t [] h = absurd (cc h)
count-found z t (x ∷ ts) h = ground (arith, count-found z t ts)

found-find :
    (z : ℕ) (t : TxTask) (ts : List TxTask)
    → find_seq_zero z ts ≡ some t
    → count t.id ts ≤ 1
    → find t.id ts ≡ some t
unfolding find_seq_zero count find
found-find z t [] h u = absurd (cc h)
found-find z t (x ∷ ts) h u = ground (arith, found-find z t ts, count-found z t ts)

module _ {cfg : Config} {k : ℕ} {ids : ℕ → ℕ} where
  put-IsSound :
      (t u : TxTask) (s : Tx) (q : Seqs)
      → IsSound cfg k ids s
      → find u.id s.active ≡ some t
      → u.ctx.dst ≡ t.ctx.dst
      → Own cfg k u
      → Seq.Inv.IsValid q
      → q.element_num ≡ s.seqs.element_num
      → IsSound cfg k ids (record s { active = put u s.active; seqs = q })
  put-IsSound t u s q v f same mine w n = record {
    valid = w;
    number = n ∙ v.number;
    apart = Apart-put t u same s.active f v.apart;
    served = All-map (put-Served t u same s.active f) s.pending v.served;
    own = All-put (Own cfg k) u s.active mine v.own;
    own_pending = v.own_pending;
    places = λ i. omega (arith, v.places i, count-put i u s.active);
  }

  module _ (env : Env) (timer : env.timer_created ≡ true) (unique : (i : ℕ) → ids i ≤ 1) where
    finish-Finished :
        (t : TxTask) (s : Tx) (i : ℕ)
        → IsSound cfg k ids s
        → find i s.active ≡ some t
        → Finished cfg k ids (finish env cfg i s)
    unfolding finish
    finish-Finished t s i v f =
        finish_with-Finished _ i t s
          (λ u s' r l. run-Ran env (length s.pending) u s' timer unique l r) v f

    -- The last part of a retransmission.
    retransmit-Finished :
        (t : TxTask) (s : Tx)
        → IsSound cfg k ids s
        → find t.id s.active ≡ some t
        → Finished cfg k ids (retransmit env cfg t s)
    unfolding retransmit
    retransmit-Finished t s v f =
        let mine : Own cfg k t = All-find (Own cfg k) t.id t s.active f v.own in
        let tr =
          send_seg_msg-Transmitted cfg t.pdu t.block_ack t.ctx s.seqs v.valid
            (omega (arith, mine, v.number)) in
        let u : TxTask = record t { ctx = tr.ctx' } in
        let s' : Tx = record s { active = put u s.active; seqs = tr.seqs' } in
        let v' : IsSound cfg k ids s' =
          put-IsSound t u s tr.seqs' v f tr.kept.0 (rw tr.kept.1 mine) tr.valid tr.count in
        elim (Bool-cases (is_seq_auth_valid tr.ctx'.seq tr.ctx'.seq_auth)) [
          | inl good ↦ record {
            after = s';
            out = tr.out;
            eq = rw (tr.run, retransmit) (ground arith);
            sound = v';
          }
          | inr late ↦
              let w = finish-Finished u s' t.id v' (find-put t u s.active f) in
              record {
                after = w.after;
                out = tr.out ++ w.out;
                eq = rw (tr.run, late, w.eq, retransmit);
                sound = w.sound;
              }
        ]

    -- Storing a task that keeps its destination and source, with the sequence numbers untouched.
    store-IsSound :
        (t u : TxTask) (s : Tx)
        → IsSound cfg k ids s
        → find t.id s.active ≡ some t
        → u.id ≡ t.id
        → u.ctx ≡ t.ctx
        → IsSound cfg k ids (record s { active = put u s.active })
          × (find u.id (put u s.active) ≡ some u)
    store-IsSound t u s v f same_id same =
        let f' : find u.id s.active ≡ some t = rw same_id f in
        let mine : Own cfg k t = All-find (Own cfg k) t.id t s.active f v.own in
        (
          put-IsSound t u s s.seqs v f' (ap (λ c. c.dst) same) (rw same mine) v.valid refl,
          find-put t u s.active f',
        )

    pub handle_tx_timeout-Finished :
        (t : TxTask) (s : Tx)
        → IsSound cfg k ids s
        → find t.id s.active ≡ some t
        → Finished cfg k ids (handle_tx_timeout env cfg t s)
    unfolding handle_tx_timeout
    handle_tx_timeout-Finished t s v f =
        let t' : TxTask = record t { retry_times = (t.retry_times + 1) % 256 } in
        let s' : Tx = record s { active = put t' s.active } in
        let p = store-IsSound t t' s v f refl refl in
        elim (Bool-cases (ltb cfg.tx_retry_times ((t.retry_times + 1) % 256))) [
          | inl over ↦
              (let w = finish-Finished t' s' t.id p.0 p.1 in
                record {
                  after = w.after;
                  out = w.out;
                  eq = rw (over, handle_tx_timeout) w.eq;
                  sound = w.sound;
                })
          | inr again ↦
              let w = retransmit-Finished t' s' p.0 p.1 in
              record {
                after = w.after;
                out = w.out;
                eq = rw (again, handle_tx_timeout) w.eq;
                sound = w.sound;
              }
        ]

    pub recv_block_ack-Finished :
        (z block : ℕ) (s : Tx)
        → IsSound cfg k ids s
        → Finished cfg k ids (recv_block_ack env cfg z block s)
    unfolding recv_block_ack
    recv_block_ack-Finished z block s v = elim (Option-cases (find_seq_zero z s.active)) [
      | inl e ↦ record { after = s; out = []; eq = rw (e, recv_block_ack); sound = v }
      | inr (t, e) ↦
          let f = found-find z t s.active e (omega (arith, v.places t.id, unique t.id)) in
          let t' : TxTask = record t { retry_times = (t.retry_times + 1) % 256 } in
          let t'' : TxTask = record t' { block_ack = block } in
          elim (Bool-cases ((t.seg_bits == block) || (block == 0))) [
            | inl done ↦
                let w = finish-Finished t s t.id v f in
                record {
                  after = w.after;
                  out = w.out;
                  eq = rw (e, done, recv_block_ack) w.eq;
                  sound = w.sound;
                }
            | inr more ↦ elim (Bool-cases (ltb cfg.tx_retry_times ((t.retry_times + 1) % 256))) [
              | inl over ↦
                  let p = store-IsSound t t' s v f refl refl in
                  let w = finish-Finished t' (record s { active = put t' s.active }) t.id p.0 p.1 in
                  record {
                    after = w.after;
                    out = w.out;
                    eq = rw (e, more, over, recv_block_ack) w.eq;
                    sound = w.sound;
                  }
              | inr again ↦
                  let p = store-IsSound t t'' s v f refl refl in
                  let w =
                    retransmit-Finished t'' (record s { active = put t'' s.active }) p.0 p.1 in
                  record {
                    after = w.after;
                    out = w.out;
                    eq = rw (e, more, again, recv_block_ack) w.eq;
                    sound = w.sound;
                  }
            ]
          ]
    ]

    task_try-Ran :
        (t : TxTask) (i : ℕ) (rest : List ℕ) (s : Tx)
        → IsSound cfg k ids s
        → s.idle ≡ i ∷ rest
        → t.id ≡ i
        → Own cfg k t
        → Ran cfg k ids (task_try env cfg t (record s { idle = rest }))
    unfolding task_try task_run count_ids
    task_try-Ran t i rest s v e same mine =
        let same' : one_if (t.id == i) ≡ 1 = ground arith in
        let split : (j : ℕ) → count_ids j s.idle ≡ one_if (t.id == j) + count_ids j rest =
          λ j. rw (same, e) in
        elim (Bool-cases (dst_active t.ctx.dst s.active)) [
          | inl waits ↦ record {
            ret = success;
            after = record s { idle = rest; pending = s.pending ++ (t ∷ []) };
            out = [];
            eq = rw (waits, task_try);
            sound = record {
              valid = v.valid;
              number = v.number;
              apart = v.apart;
              served = All-append (Served s.active) t s.pending v.served waits;
              own = v.own;
              own_pending = All-append (Own cfg k) t s.pending v.own_pending mine;
              places = λ j. omega (arith, v.places j, split j, count-append j t s.pending);
            };
          }
          | inr free ↦
              let ready : Ready cfg k ids t (record s { idle = rest }) = record {
                valid = v.valid;
                number = v.number;
                apart = v.apart;
                free = free;
                waits = All-map (λ p h. inr h) s.pending v.served;
                mine = mine;
                own = v.own;
                own_pending = v.own_pending;
                places = λ j. omega (arith, v.places j, split j);
              } in
              let w =
                run-Ran env (suc (length s.pending)) t (record s { idle = rest }) timer unique
                  (omega arith) ready in
              record {
                ret = w.ret;
                after = w.after;
                out = w.out;
                eq = rw (free, task_try) w.eq;
                sound = w.sound;
              }
        ]

    -- A task that could not be set up goes back to the end of the idle list.
    idle-IsSound :
        (i : ℕ) (rest : List ℕ) (s : Tx)
        → IsSound cfg k ids s
        → s.idle ≡ i ∷ rest
        → IsSound cfg k ids (record s { idle = rest ++ (i ∷ []) })
    unfolding count_ids
    idle-IsSound i rest s v e = record {
      valid = v.valid;
      number = v.number;
      apart = v.apart;
      served = v.served;
      own = v.own;
      own_pending = v.own_pending;
      places = λ j.
          let split : count_ids j s.idle ≡ one_if (i == j) + count_ids j rest = rw e in
          omega (arith, v.places j, split, count_ids-append j i rest);
    }

    pub process_seg_msg-Ran :
        (pdu : List ℕ) (max_seg : ℕ) (ctx : MsgCtx) (s : Tx)
        → element_of cfg ctx < k
        → IsSound cfg k ids s
        → Ran cfg k ids (process_seg_msg env cfg pdu max_seg ctx s)
    unfolding process_seg_msg
    process_seg_msg-Ran pdu max_seg ctx s mine v =
        let seg_num = (length pdu + max_seg - 1) / max_seg % 256 in
        elim (Bool-cases (ltb 31 seg_num)) [
          | inl long ↦ record {
            ret = bad_length;
            after = s;
            out = [];
            eq = rw (long, process_seg_msg);
            sound = v;
          }
          | inr fits ↦ elim (Bool-cases (is_tx_task_exist ctx s.active)) [
            | inl twice ↦ record {
              ret = already;
              after = s;
              out = [];
              eq = rw (fits, twice, process_seg_msg);
              sound = v;
            }
            | inr new ↦ elim (List-cases s.idle) [
              | inl e ↦ record {
                ret = busy;
                after = s;
                out = [];
                eq = simp (fits, new, e, process_seg_msg);
                sound = v;
              }
              | inr (i, rest, e) ↦ elim (Bool-cases env.allocated) [
                | inr no_memory ↦ record {
                  ret = busy;
                  after = record s { idle = rest ++ (i ∷ []) };
                  out = [];
                  eq = rw (fits, new, e, no_memory, process_seg_msg);
                  sound = idle-IsSound i rest s v e;
                }
                | inl room ↦
                    let t : TxTask = record {
                      id = i;
                      ctx = ctx;
                      pdu = pdu;
                      seg_bits = ones seg_num;
                      block_ack = 0;
                      retry_times = 0;
                    } in
                    let w = task_try-Ran t i rest s v e refl mine in
                    record {
                      ret = w.ret;
                      after = w.after;
                      out = w.out;
                      eq = simp (fits, new, e, room, process_seg_msg) w.eq;
                      sound = w.sound;
                    }
              ]
            ]
          ]
        ]
