-- ===== src/LowerTrans/Tx/Trace.antt =====
-- Sequences of messages, timeouts and acknowledgements.
use meshx.Base.{
  ℕ, zero, suc, ◌≤◌, ◌<◌, ◌≡◌, refl, ap, ◌∙◌, Bool, true, Option, none, some, List, [], ◌∷◌, All,
  ◌>>=◌, arith, Option-cases, inl, inr,
}
use meshx.Seq
use meshx.Seq.{Seqs}
use meshx.Seq.Inv
use meshx.Iv.{Iv}
use meshx.LowerTrans.Pdu.{MsgCtx}
use meshx.LowerTrans.Segment.{Config, element_of}
use meshx.LowerTrans.Tx.{
  Tx, Env, TxTask, ids_from, init, find, process_seg_msg, handle_tx_timeout, recv_block_ack,
}
use meshx.LowerTrans.Tx.Lists.{count, count_ids}
use meshx.LowerTrans.Tx.Inv.{IsSound}
use meshx.LowerTrans.Tx.Steps.{
  process_seg_msg-Ran, handle_tx_timeout-Finished, recv_block_ack-Finished,
}

-- What can happen: a message with the size of its segments, whose task meshx_malloc may refuse; the
-- timer of a task, which is stopped unless the task is active; an acknowledgement.
pub data Event : Type 0 where
  message : Bool → List ℕ → ℕ → MsgCtx → Event
  timeout : ℕ → Event
  ack : ℕ → ℕ → Event

abbrev pub env_of : Bool → Env
env_of allocated = record { allocated = allocated; timer_created = true }

pub step : Config → Event → Tx → Option Tx
step cfg (message a pdu max_seg ctx) s =
    process_seg_msg (env_of a) cfg pdu max_seg ctx s >>= λ (r, s', out). some s'
step cfg (timeout i) s = elim (find i s.active) [
  | none ↦ some s
  | some t ↦ handle_tx_timeout (env_of true) cfg t s >>= λ (s', out). some s'
]
step cfg (ack z block) s = recv_block_ack (env_of true) cfg z block s >>= λ (s', out). some s'

pub steps : Config → List Event → Tx → Option Tx
steps cfg [] s = some s
steps cfg (e ∷ es) s = step cfg e s >>= λ s'. steps cfg es s'

-- Messages come from elements of this node.
abbrev pub FromNode : Config → ℕ → Event → Type 0
FromNode cfg k (message a pdu max_seg ctx) = element_of cfg ctx < k
FromNode cfg k (timeout i) = Unit
FromNode cfg k (ack z block) = Unit

-- Each of the `n` tasks is one task.
abbrev pub one_of : ℕ → ℕ → ℕ
one_of n i = count_ids i (ids_from 0 n)

count_ids-smaller : (i j n : ℕ) → i < j → count_ids i (ids_from j n) ≡ 0
unfolding count_ids ids_from
count_ids-smaller i j zero h = refl
count_ids-smaller i j (suc n) h = ground (arith, count_ids-smaller i (suc j) n (omega (arith, h)))

count_ids-ids_from : (i j n : ℕ) → count_ids i (ids_from j n) ≤ 1
unfolding count_ids ids_from
count_ids-ids_from i j zero = omega arith
count_ids-ids_from i j (suc n) =
    ground (arith, count_ids-smaller i (suc j) n, count_ids-ids_from i (suc j) n)

pub record Stepped (cfg : Config) (k : ℕ) (ids : ℕ → ℕ) (r : Option Tx) : Type 0 where
  pub after : Tx
  pub eq : r ≡ some after
  pub sound : IsSound cfg k ids after

find-key : (i : ℕ) (t : TxTask) (ts : List TxTask) → find i ts ≡ some t → t.id ≡ i
unfolding find
find-key i t [] h = absurd (cc h)
find-key i t (x ∷ ts) h = ground (arith, find-key i t ts)

module _ (cfg : Config) (k : ℕ) {ids : ℕ → ℕ} (unique : (i : ℕ) → ids i ≤ 1) where
  step-Stepped :
      (e : Event) (s : Tx)
      → FromNode cfg k e
      → IsSound cfg k ids s
      → Stepped cfg k ids (step cfg e s)
  unfolding step
  step-Stepped (message a pdu max_seg ctx) s own v =
      let w = process_seg_msg-Ran (env_of a) refl unique pdu max_seg ctx s own v in
      record { after = w.after; eq = rw (w.eq, step); sound = w.sound }
  step-Stepped (timeout i) s own v = elim (Option-cases (find i s.active)) [
    | inl e ↦ record { after = s; eq = rw (e, step); sound = v }
    | inr (t, e) ↦
        let w =
          handle_tx_timeout-Finished (env_of true) refl unique t s v
            (ap (λ x. find x s.active) (find-key i t s.active e) ∙ e) in
        record { after = w.after; eq = simp (e, w.eq, step); sound = w.sound }
  ]
  step-Stepped (ack z block) s own v =
      let w = recv_block_ack-Finished (env_of true) refl unique z block s v in
      record { after = w.after; eq = rw (w.eq, step); sound = w.sound }

  steps-Stepped :
      (es : List Event) (s : Tx)
      → All (FromNode cfg k) es
      → IsSound cfg k ids s
      → Stepped cfg k ids (steps cfg es s)
  unfolding steps
  steps-Stepped [] s own v = record { after = s; eq = refl; sound = v }
  steps-Stepped (e ∷ es) s own v =
      let w = step-Stepped e s own.0 v in
      let rest = steps-Stepped es w.after own.1 w.sound in
      record { after = rest.after; eq = rw (w.eq, steps) rest.eq; sound = rest.sound }

pub one_of-le : (n i : ℕ) → one_of n i ≤ 1
one_of-le n i = count_ids-ids_from i 0 n

pub init-IsSound :
    (cfg : Config) (n : ℕ) (seqs : Seqs) (iv : Iv)
    → Seq.Inv.IsValid seqs
    → IsSound cfg seqs.element_num (one_of n) (init n seqs iv)
unfolding count_ids count
init-IsSound cfg n seqs iv valid = record {
  valid = valid;
  number = refl;
  apart = tt;
  served = tt;
  own = tt;
  own_pending = tt;
  places = λ i. omega arith;
}

-- From the state that meshx_lower_trans_init leaves, with initialised sequence numbers, no sequence
-- of new messages of this node's elements, timeouts and acknowledgements aborts, timers being
-- created whenever asked for. After it, no two active tasks have the same destination, each pending
-- task waits for the destination of an active one, and each of the tasks is in one of the three lists.
pub steps-IsSound :
    (cfg : Config) (n : ℕ) (es : List Event) (seqs : Seqs) (iv : Iv)
    → Seq.Inv.IsValid seqs
    → All (FromNode cfg seqs.element_num) es
    → Stepped cfg seqs.element_num (one_of n) (steps cfg es (init n seqs iv))
steps-IsSound cfg n es seqs iv valid own =
    steps-Stepped cfg seqs.element_num (one_of-le n) es (init n seqs iv) own
      (init-IsSound cfg n seqs iv valid)
