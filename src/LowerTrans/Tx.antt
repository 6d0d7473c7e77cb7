-- ===== src/LowerTrans/Tx.antt =====
-- The transmit tasks of mesh/transport/meshx_lower_trans.c.
-- `none` in a result is an abort by MESHX_ASSERT, or fuel that has run out (Tx/Trace).
pub mod Lists
pub mod Choice
pub mod Inv
pub mod Run
pub mod Steps
pub mod Trace
use meshx.Base.{
  ℕ, zero, suc, ◌+◌, ◌-◌, ◌/◌, ◌%◌, Bool, true, false, not, ◌&&◌, ◌||◌, Option, none, some, List,
  [], ◌∷◌, ◌++◌, length, ltb, ◌==◌, if◌then◌else◌, ◌>>=◌,
}
use meshx.Base.Errno.{Ret, is_success, success, length as bad_length, already, busy}
use meshx.Base.Bits.{ones}
use meshx.Seq.{Seqs}
use meshx.Iv.{Iv, transit}
use meshx.LowerTrans.Pdu.{MsgCtx, seq_zero_of, is_seq_auth_valid}
use meshx.LowerTrans.Segment.{Config, Sent, send_seg_msg}

-- `meshx_lower_trans_tx_task_t`; `id` stands for its address. The retry timer is left out: a timeout
-- may come for any task in the active list.
pub record TxTask : Type 0 where
  pub id : ℕ
  pub ctx : MsgCtx
  pub pdu : List ℕ
  pub seg_bits : ℕ
  pub block_ack : ℕ
  pub retry_times : ℕ

-- The three lists of tasks, with the two modules that sending a message changes.
pub record Tx : Type 0 where
  pub idle : List ℕ
  pub active : List TxTask
  pub pending : List TxTask
  pub seqs : Seqs
  pub iv : Iv

-- Whether meshx_malloc and meshx_timer_create succeed.
pub record Env : Type 0 where
  pub allocated : Bool
  pub timer_created : Bool

-- meshx_lower_trans_init of the transmit tasks, which are at the addresses 0, 1, ...
pub ids_from : ℕ → ℕ → List ℕ
ids_from i zero = []
ids_from i (suc n) = i ∷ ids_from (suc i) n

abbrev pub init : ℕ → Seqs → Iv → Tx
init tx_task_num seqs iv = record {
  idle = ids_from 0 tx_task_num;
  active = [];
  pending = [];
  seqs = seqs;
  iv = iv;
}

-- Is a task for this destination in the list?
unfoldable pub dst_active : ℕ → List TxTask → Bool
dst_active d [] = false
dst_active d (t ∷ ts) = (t.ctx.dst == d) || dst_active d ts

-- meshx_list_remove of the task with this address.
unfoldable pub remove : ℕ → List TxTask → List TxTask
remove i [] = []
remove i (t ∷ ts) = if t.id == i then ts else t ∷ remove i ts

-- Assignments through the pointer to a task in the list.
pub put : TxTask → List TxTask → List TxTask
put u [] = []
put u (t ∷ ts) = if t.id == u.id then u ∷ ts else t ∷ put u ts

pub find : ℕ → List TxTask → Option TxTask
find i [] = none
find i (t ∷ ts) = if t.id == i then some t else find i ts

-- meshx_lower_trans_tx_task_release of a task in the active list.
unfoldable pub release : ℕ → Tx → Tx
release i s = record s { idle = s.idle ++ (i ∷ []); active = remove i s.active }

-- The loops of meshx_lower_trans_tx_task_finish: the first pending task whose destination is free,
-- and the pending tasks without it.
unfoldable pub pick : List TxTask → List TxTask → Option (TxTask × List TxTask)
pick active [] = none
pick active (t ∷ ts) = elim (dst_active t.ctx.dst active) [
  | false ↦ some (t, ts)
  | true ↦ elim (pick active ts) [ none ↦ none | some (u, us) ↦ some (u, t ∷ us) ]
]

-- meshx_lower_trans_tx_task_finish, given meshx_lower_trans_tx_task_run.
unfoldable pub finish_with :
    (TxTask → Tx → Option (Ret × Tx × List Sent)) → ℕ → Tx → Option (Tx × List Sent)
finish_with run i s =
    let s' : Tx = record (release i s) { iv = transit s.iv } in
    elim (pick s'.active s'.pending) [
      | none ↦ some (s', [])
      | some (t, rest) ↦ run t (record s' { pending = rest }) >>= λ (r, s'', out). some (s'', out)
    ]

-- meshx_lower_trans_tx_task_run. With no timer the task, which is in no list, is finished, and the
-- removal from a list aborts. The fuel bounds how many pending tasks are started in a row.
pub run : Env → Config → ℕ → TxTask → Tx → Option (Ret × Tx × List Sent)
run env cfg zero t s = none
run env cfg (suc fuel) t s = elim env.timer_created [
  | false ↦ none
  | true ↦ elim (send_seg_msg cfg t.pdu t.block_ack t.ctx s.seqs) [
    | none ↦ none
    | some (r, c, q, out) ↦
        let s' : Tx = record s { active = s.active ++ (record t { ctx = c } ∷ []); seqs = q } in
        elim (is_success r) [
          | true ↦ some (r, s', out)
          | false ↦
              finish_with (run env cfg fuel) t.id s' >>= λ (s'', more). some (r, s'', out ++ more)
        ]
  ]
]

-- With fuel for all pending tasks.
unfoldable pub finish : Env → Config → ℕ → Tx → Option (Tx × List Sent)
finish env cfg i s = finish_with (run env cfg (length s.pending)) i s

pub task_run : Env → Config → TxTask → Tx → Option (Ret × Tx × List Sent)
task_run env cfg t s = run env cfg (suc (length s.pending)) t s

-- meshx_lower_trans_tx_task_try
pub task_try : Env → Config → TxTask → Tx → Option (Ret × Tx × List Sent)
task_try env cfg t s = elim (dst_active t.ctx.dst s.active) [
  | true ↦ some (success, record s { pending = s.pending ++ (t ∷ []) }, [])
  | false ↦ task_run env cfg t s
]

-- meshx_lower_trans_is_tx_task_exist
pub is_tx_task_exist : MsgCtx → List TxTask → Bool
is_tx_task_exist ctx [] = false
is_tx_task_exist ctx (t ∷ ts) =
    ((t.ctx.dst == ctx.dst) && (t.ctx.seq_auth == ctx.seq_auth)) || is_tx_task_exist ctx ts

-- meshx_lower_trans_process_seg_msg, with meshx_lower_trans_tx_task_request.
pub process_seg_msg : Env → Config → List ℕ → ℕ → MsgCtx → Tx → Option (Ret × Tx × List Sent)
process_seg_msg env cfg pdu max_seg ctx s =
    let seg_num = (length pdu + max_seg - 1) / max_seg % 256 in
    if ltb 31 seg_num
    then some (bad_length, s, [])
    else if is_tx_task_exist ctx s.active
    then some (already, s, [])
    else elim (s.idle) [
      | [] ↦ some (busy, s, [])
      | i ∷ rest ↦
          if env.allocated
          then task_try env cfg
              (record {
                id = i;
                ctx = ctx;
                pdu = pdu;
                seg_bits = ones seg_num;
                block_ack = 0;
                retry_times = 0;
              })
              (record s { idle = rest })
          else some (busy, record s { idle = rest ++ (i ∷ []) }, [])
    ]

-- The common end of a retransmission: the task is finished if its window is over.
pub retransmit : Env → Config → TxTask → Tx → Option (Tx × List Sent)
retransmit env cfg t s = elim (send_seg_msg cfg t.pdu t.block_ack t.ctx s.seqs) [
  | none ↦ none
  | some (r, c, q, out) ↦
      let s' : Tx = record s { active = put (record t { ctx = c }) s.active; seqs = q } in
      if is_seq_auth_valid c.seq c.seq_auth
      then some (s', out)
      else (finish env cfg t.id s' >>= λ (s'', more). some (s'', out ++ more))
]

-- meshx_lower_trans_handle_tx_timeout for the active task `t`.
pub handle_tx_timeout : Env → Config → TxTask → Tx → Option (Tx × List Sent)
handle_tx_timeout env cfg t s =
    let t' : TxTask = record t { retry_times = (t.retry_times + 1) % 256 } in
    let s' : Tx = record s { active = put t' s.active } in
    if ltb cfg.tx_retry_times t'.retry_times
    then finish env cfg t.id s'
    else retransmit env cfg t' s'

-- The first active task with the SeqZero of an acknowledgement.
unfoldable pub find_seq_zero : ℕ → List TxTask → Option TxTask
find_seq_zero z [] = none
find_seq_zero z (t ∷ ts) = if seq_zero_of t.ctx.seq_auth == z then some t else find_seq_zero z ts

-- meshx_lower_trans_recv_block_ack, of the unpacked acknowledgement.
unfoldable pub recv_block_ack : Env → Config → ℕ → ℕ → Tx → Option (Tx × List Sent)
recv_block_ack env cfg seq_zero block s = elim (find_seq_zero seq_zero s.active) [
  | none ↦ some (s, [])
  | some t ↦
      if (t.seg_bits == block) || (block == 0)
      then finish env cfg t.id s
      else (let t' : TxTask = record t { retry_times = (t.retry_times + 1) % 256 } in
          if ltb cfg.tx_retry_times t'.retry_times
          then finish env cfg t.id (record s { active = put t' s.active })
          else retransmit env cfg (record t' { block_ack = block })
              (record s { active = put (record t' { block_ack = block }) s.active }))
]

-- meshx_is_lower_trans_busy
pub is_busy : Tx → Bool
is_busy s = elim (s.active) [ [] ↦ false | _ ↦ true ]
