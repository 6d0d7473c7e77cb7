-- ===== src/LowerTrans/Rx.antt =====
-- The reassembly of segmented messages in mesh/transport/meshx_lower_trans.c: the receive tasks.
-- `none` in a result is an abort by MESHX_ASSERT, an access out of bounds, or a loop that does not end.
pub mod Receive
use meshx.Base.{
  ℕ, zero, suc, ◌+◌, ◌-◌, ◌*◌, ◌/◌, ◌%◌, ◌^◌, Bool, true, false, not, ◌&&◌, Option, none, some,
  List, [], ◌∷◌, ◌++◌, length, take, drop, ltb, leb, ◌==◌, if◌then◌else◌, ◌>>=◌,
}
use meshx.Base.Bits.{set_bit}
use meshx.Seq
use meshx.Seq.{Seqs}
use meshx.Iv.{Iv, tx_get}
use meshx.Rpl
use meshx.Rpl.{Rpl, Entry}
use meshx.Base.Errno.{is_success}
use meshx.LowerTrans.Pdu.{MsgCtx, is_valid_address, seq_zero_of, ctl_header, pack_ack}
use meshx.LowerTrans.Segment.{Config, Sent, element_of, max_seg_size}

-- `meshx_lower_trans_rx_task_t`; `id` stands for its address, and `pdu` is the block behind `ppdu`
-- (empty for NULL). An idle task keeps the other fields of its last use. The timers are left out: a
-- timeout may come for any active task.
pub record RxTask : Type 0 where
  pub id : ℕ
  pub ctx : MsgCtx
  pub pdu : List ℕ
  pub pdu_len : ℕ
  pub max_pdu_len : ℕ
  pub not_received_seg : ℕ
  pub block_ack : ℕ

pub record Rx : Type 0 where
  pub idle : List RxTask
  pub active : List RxTask
  pub rpl : Rpl
  pub seqs : Seqs
  pub iv : Iv

-- Whether the two timers are created, and the block that meshx_malloc returns, with what it holds.
pub record Env : Type 0 where
  pub ack_timer : Bool
  pub incomplete_timer : Bool
  pub memory : Option (List ℕ)

-- meshx_lower_trans_seq_auth
abbrev pub full_seq_auth : MsgCtx → ℕ
full_seq_auth ctx = ctx.iv_index * 2 ^ 24 + ctx.seq_auth

-- The first active task for messages of this source.
pub find_src : ℕ → List RxTask → Option RxTask
find_src a [] = none
find_src a (t ∷ ts) = if t.ctx.src == a then some t else find_src a ts

pub remove : ℕ → List RxTask → List RxTask
remove i [] = []
remove i (t ∷ ts) = if t.id == i then ts else t ∷ remove i ts

-- Assignments through the pointer to a task in the list.
pub put : RxTask → List RxTask → List RxTask
put u [] = []
put u (t ∷ ts) = if t.id == u.id then u ∷ ts else t ∷ put u ts

-- meshx_lower_trans_rx_task_release of a task in the active list.
pub release : RxTask → Rx → Rx
release t s = record s {
  idle = s.idle ++ (record t { pdu = [] } ∷ []);
  active = remove t.id s.active;
}

-- `not_received_seg |= (1 << i)` for `i` from 0 to `n - 1`.
pub set_ones : ℕ → ℕ → ℕ
set_ones zero m = m
set_ones (suc n) m = set_bit (set_ones n m) n

-- The task that meshx_lower_trans_rx_task_request sets up in `t`.
pub set_up : ℕ → MsgCtx → List ℕ → RxTask → RxTask
set_up max_pdu_len ctx block t = record t {
  pdu = block;
  max_pdu_len = max_pdu_len;
  ctx = ctx;
  not_received_seg = set_ones (max_pdu_len / max_seg_size ctx.ctl % 256) t.not_received_seg;
  block_ack = 0;
}

-- meshx_lower_trans_rx_task_request from NEW_SEG_MSG on.
pub request_new : Env → ℕ → MsgCtx → Rx → Option RxTask × Rx
request_new env max_pdu_len ctx s = elim (s.idle) [
  | [] ↦ (none, s)
  | t ∷ rest ↦
      let refused : Option RxTask × Rx = (none, record s { idle = rest ++ (t ∷ []) }) in
      elim (env.ack_timer && env.incomplete_timer) [
        | false ↦ refused
        | true ↦ elim (env.memory) [
          | none ↦ refused
          | some block ↦
              let u = set_up max_pdu_len ctx block t in
              (some u, record s { idle = rest; active = s.active ++ (u ∷ []) })
        ]
      ]
]

pub request : Env → ℕ → MsgCtx → Rx → Option RxTask × Rx
request env max_pdu_len ctx s = elim (find_src ctx.src s.active) [
  | none ↦ request_new env max_pdu_len ctx s
  | some t ↦
      if ltb (full_seq_auth t.ctx) (full_seq_auth ctx)
      then request_new env max_pdu_len ctx (record s {
        idle = s.idle ++ (record t { pdu = [] } ∷ []);
        active = remove t.id s.active;
      })
      else if full_seq_auth ctx == full_seq_auth t.ctx
      then (some t, s)
      else (none, s)
]

-- meshx_lower_trans_seg_ack. meshx_lower_trans_send sends the six bytes as an unsegmented control
-- message, unless the source of the segment is not a valid destination.
pub seg_ack : Config → ℕ → MsgCtx → Rx → Option (Rx × List Sent)
seg_ack cfg block_ack ctx s =
    let reply : MsgCtx = record {
      src = ctx.dst;
      dst = ctx.src;
      ttl = cfg.default_ttl;
      ctl = true;
      seq = 0;
      iv_index = tx_get s.iv;
      seq_auth = 0;
      seg = false;
      net_key = ctx.net_key;
      akf = 0;
      szmic = 0;
      aid = 0;
      opcode = 0;
    } in
    Seq.use_seq (element_of cfg reply) s.seqs >>= λ (q, seqs').
    let out : Sent = record {
      pdu = ctl_header 0 0 ∷ pack_ack (seq_zero_of ctx.seq_auth) block_ack;
      ctx = record reply { seq = q % 2 ^ 24 };
    } in
    some (record s { seqs = seqs' }, if is_valid_address reply.dst then out ∷ [] else [])

-- meshx_lower_trans_async_handle_rx_ack_timeout and ..._incomplete_timeout for the active task `t`.
pub handle_rx_ack_timeout : Config → RxTask → Rx → Option (Rx × List Sent)
handle_rx_ack_timeout cfg t s = seg_ack cfg t.block_ack t.ctx s

pub handle_rx_incomplete_timeout : RxTask → Rx → Rx
handle_rx_incomplete_timeout t s = release t s

-- meshx_lower_trans_rpl_check
unfoldable pub rpl_check : Entry → Rpl → Option (Bool × Rpl)
rpl_check e rpl = Rpl.check e rpl >>= λ ok. elim ok [
  | false ↦ some (false, rpl)
  | true ↦ Rpl.update e rpl >>= λ (r, rpl'). some (is_success r, rpl')
]
