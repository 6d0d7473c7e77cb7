-- ===== src/LowerTrans/Rx/Receive.antt =====
-- meshx_lower_trans_receive_seg_msg.
pub mod Bits
pub mod Faults
pub mod Order
mod Tests
use meshx.Base.{
  ℕ, zero, suc, ◌+◌, ◌-◌, ◌*◌, ◌/◌, ◌%◌, ◌^◌, Bool, true, false, not, ◌&&◌, Option, none, some,
  List, [], ◌∷◌, ◌++◌, length, take, drop, ltb, leb, ◌==◌, if◌then◌else◌, ◌>>=◌,
}
use meshx.Base.Memory.{copy}
use meshx.Base.Bits.{bit, set_bit, clear_bit}
use meshx.Base.Errno.{Ret, success, fail, inval, busy, already, length as bad_length}
use meshx.Rpl
use meshx.Rpl.{Entry}
use meshx.LowerTrans.Pdu.{MsgCtx, seq_auth_of, word_of, szmic_of, misc_seq_zero, sego_of, segn_of}
use meshx.LowerTrans.Segment.{Config, Sent, max_seg_size}
use meshx.LowerTrans.Rx.{RxTask, Rx, Env, put, release, request, seg_ack, rpl_check}

-- A call of meshx_upper_trans_receive: the block, how much of it is the message, and the context.
pub record Delivered : Type 0 where
  pub pdu : List ℕ
  pub pdu_len : ℕ
  pub ctx : MsgCtx

abbrev pub Result : Type 0
Result = Option (Ret × Rx × List Sent × List Delivered)

-- A segment: what its header says, and the bytes from its data on, which run on behind its end.
pub record Segment : Type 0 where
  pub ctx : MsgCtx
  pub sego : ℕ
  pub segn : ℕ
  pub bytes : List ℕ

-- The header of a segment, `behind` being what stands in memory behind the PDU.
pub parse : List ℕ → List ℕ → MsgCtx → Option Segment
parse behind pdata ctx = elim (pdata ++ behind) [
  | h ∷ b ∷ c ∷ d ∷ bytes ↦
      let v = word_of b c d in
      let seq_auth = seq_auth_of (misc_seq_zero v) ctx.seq in
      let ctx' : MsgCtx = elim ctx.ctl [
        | true ↦ record ctx { seq_auth = seq_auth; opcode = h % 128 }
        | false ↦ record ctx {
          seq_auth = seq_auth;
          akf = h / 64 % 2;
          aid = h % 64;
          szmic = szmic_of v;
        }
      ] in
      some (record { ctx = ctx'; sego = sego_of v; segn = segn_of v; bytes = bytes })
  | _ ↦ none
]

-- Does the segment belong to the message of the task?
abbrev pub matches : MsgCtx → MsgCtx → Bool
matches t c = elim c.ctl [
  | true ↦ t.opcode == c.opcode
  | false ↦ (t.akf == c.akf) && ((t.aid == c.aid) && (t.szmic == c.szmic))
]

abbrev pub entry_of : MsgCtx → Entry
entry_of c = record { src = c.src; seq = c.seq; iv_index = c.iv_index }

-- The segment is refused and the task released.
pub refuse : Config → Ret → MsgCtx → RxTask → Rx → Result
refuse cfg r ctx t s = seg_ack cfg 0 ctx s >>= λ (s', out). some (r, release t s', out, [])

-- The message is complete in `t`: the replay check, the acknowledgement and the delivery.
pub complete : Config → MsgCtx → RxTask → Rx → Result
complete cfg ctx t s = rpl_check (entry_of ctx) s.rpl >>= λ (fresh, rpl').
    let s' : Rx = record s { rpl = rpl' } in
    elim fresh [
      | false ↦ refuse cfg fail ctx t s'
      | true ↦ seg_ack cfg t.block_ack ctx s' >>= λ (s'', out). some (
        success,
        s'',
        out,
        record { pdu = t.pdu; pdu_len = t.pdu_len; ctx = record ctx { seg = true } } ∷ [],
      )
    ]

-- The only segment of a message. The replay check comes before the task is written.
pub receive_single : Config → ℕ → Segment → RxTask → Rx → Result
receive_single cfg len g t s = rpl_check (entry_of g.ctx) s.rpl >>= λ (fresh, rpl').
    let s' : Rx = record s { rpl = rpl' } in
    elim fresh [
      | false ↦ refuse cfg fail g.ctx t s'
      | true ↦
          let n = (len + 2 ^ 16 - 4) % 2 ^ 16 in
          copy 0 n g.bytes t.pdu >>= λ block.
          let u : RxTask = record t {
            not_received_seg = 0;
            block_ack = 1;
            pdu_len = n;
            pdu = block;
          } in
          seg_ack cfg 1 g.ctx (record s' { active = put u s.active }) >>= λ (s'', out). some (
            success,
            s'',
            out,
            record { pdu = block; pdu_len = n; ctx = record (g.ctx) { seg = true } } ∷ [],
          )
    ]

-- A segment is stored in the task.
pub store_segment : ℕ → Segment → RxTask → Option RxTask
store_segment len g t =
    let size = max_seg_size g.ctx.ctl in
    let n = if g.sego == g.segn then (len + 2 ^ 8 - 4) % 2 ^ 8 else size in
    copy (g.sego * size) n g.bytes t.pdu >>= λ block. some (record t {
      pdu = block;
      not_received_seg = clear_bit t.not_received_seg g.sego;
      block_ack = set_bit t.block_ack g.sego;
      pdu_len = (t.pdu_len + n) % 2 ^ 16;
    })

-- One of several segments.
pub receive_multiple : Config → ℕ → Segment → RxTask → Rx → Result
receive_multiple cfg len g t s = store_segment len g t >>= λ u.
    let s' : Rx = record s { active = put u s.active } in
    elim (u.not_received_seg == 0) [
      | true ↦ complete cfg g.ctx u s'
      | false ↦ some (success, s', [], [])
    ]

-- The checks of a segment against its task.
pub receive_checked : Config → ℕ → Segment → RxTask → Rx → Result
receive_checked cfg len g t s =
    if not (matches t.ctx g.ctx)
    then refuse cfg inval g.ctx t s
    else if not (t.max_pdu_len == (g.segn + 1) * max_seg_size g.ctx.ctl)
    then refuse cfg bad_length g.ctx t s
    else if t.not_received_seg == 0
    then (Rpl.update (entry_of g.ctx) s.rpl >>= λ (r, rpl').
        seg_ack cfg t.block_ack g.ctx (record s { rpl = rpl' }) >>= λ (s', out).
        some (already, s', out, []))
    else if bit t.not_received_seg g.sego == 0
    then some (already, s, [], [])
    else if g.segn == 0
    then receive_single cfg len g t s
    else receive_multiple cfg len g t s

-- The part of meshx_lower_trans_receive_seg_msg after the header is read.
pub receive_parsed : Config → Env → ℕ → Rx → Segment → Result
receive_parsed cfg env len s g =
    let (o, s') = request env ((g.segn + 1) * max_seg_size g.ctx.ctl) g.ctx s in
    elim o [
      | none ↦ seg_ack cfg 0 g.ctx s' >>= λ (s'', out). some (busy, s'', out, [])
      | some t ↦ receive_checked cfg len g t s'
    ]

pub receive_seg_msg : Config → Env → List ℕ → List ℕ → MsgCtx → Rx → Result
receive_seg_msg cfg env behind pdata ctx s =
    parse behind pdata ctx >>= receive_parsed cfg env (length pdata) s
