-- ===== src/LowerTrans/Incoming.antt =====
-- meshx_lower_trans_receive, which tells received PDUs apart.
-- `none` in a result is what it is for the parts, or a read beyond the memory behind the PDU.
pub mod Acks
pub mod Control
pub mod Whole
mod Tests
use meshx.Base.{
  ℕ, ◌+◌, ◌-◌, ◌*◌, ◌/◌, ◌%◌, ◌^◌, Bool, true, false, Option, none, some, List, [], ◌∷◌, ◌++◌,
  length, ◌==◌, if◌then◌else◌, ◌>>=◌,
}
use meshx.Base.Errno.{Ret, success, fail}
use meshx.LowerTrans.Pdu.{MsgCtx, ack_seq_zero, ack_block}
use meshx.LowerTrans.Segment.{Config, Sent}
use meshx.LowerTrans.Tx as Tx
use meshx.LowerTrans.Tx.{Tx, recv_block_ack}
use meshx.LowerTrans.Rx as Rx
use meshx.LowerTrans.Rx.{Rx, rpl_check}
use meshx.LowerTrans.Rx.Receive.{Delivered, entry_of, receive_seg_msg}

-- The tasks of both directions. The sequence numbers and the IV index are one for both: those of `rx`.
pub record Lower : Type 0 where
  pub tx : Tx
  pub rx : Rx

-- What other code answers in each direction, and the memory behind the PDU.
pub record Env : Type 0 where
  pub tx_env : Tx.Env
  pub rx_env : Rx.Env
  pub behind : List ℕ

abbrev pub Result : Type 0
Result = Option (Ret × Lower × List Sent × List Delivered)

-- The transmit tasks with what they share, and the state after a step of theirs.
abbrev pub tx_of : Lower → Tx
tx_of s = record (s.tx) { seqs = s.rx.seqs; iv = s.rx.iv }

abbrev pub with_tx : Tx → Lower → Lower
with_tx t s = record s { tx = t; rx = record (s.rx) { seqs = t.seqs; iv = t.iv } }

-- The replay check that comes before all but segments.
abbrev pub if_fresh : MsgCtx → Lower → (Lower → Result) → Result
if_fresh ctx s f = rpl_check (entry_of ctx) s.rx.rpl >>= λ (fresh, rpl').
    let s' : Lower = record s { rx = record (s.rx) { rpl = rpl' } } in
    elim fresh [ true ↦ f s' | false ↦ some (fail, s', [], []) ]

-- An acknowledgement, after its first byte: two bytes with SeqZero in the middle, and the block.
unfoldable pub receive_ack : Config → Env → List ℕ → Lower → Result
receive_ack cfg env (a ∷ b ∷ c ∷ d ∷ e ∷ f ∷ _) s =
    recv_block_ack env.tx_env cfg (ack_seq_zero a b) (ack_block c d e f) (tx_of s) >>= λ (t, out).
    some (success, with_tx t s, out, [])
receive_ack cfg env _ s = none

unfoldable pub receive_segment : Config → Env → List ℕ → MsgCtx → Lower → Result
receive_segment cfg env pdata ctx s =
    receive_seg_msg cfg env.rx_env env.behind pdata ctx s.rx >>= λ (r, rx', out, calls).
    some (r, record s { rx = rx' }, out, calls)

-- A message in one PDU, whose length goes to the upper transport as a byte.
abbrev pub deliver_pdu : ℕ → List ℕ → MsgCtx → Lower → Result
deliver_pdu len bytes ctx s =
    some
      (success, s, [], record { pdu = bytes; pdu_len = (len + 2 ^ 8 - 1) % 2 ^ 8; ctx = ctx } ∷ [])

-- The control PDUs and the access PDUs with the first byte `h`. An acknowledgement has opcode 0.
unfoldable pub receive_ctl : Config → Env → List ℕ → ℕ → List ℕ → MsgCtx → Lower → Result
receive_ctl cfg env pdata h bytes ctx s =
    if h % 128 == 0
    then if_fresh ctx s (receive_ack cfg env bytes)
    else if h / 128 % 2 == 1
    then receive_segment cfg env pdata ctx s
    else if_fresh ctx s (
        deliver_pdu (length pdata) bytes
          (record ctx { seg = false; opcode = h % 128; seq_auth = ctx.seq }))

unfoldable pub receive_access : Config → Env → List ℕ → ℕ → List ℕ → MsgCtx → Lower → Result
receive_access cfg env pdata h bytes ctx s =
    if h / 128 % 2 == 1
    then receive_segment cfg env pdata ctx s
    else if_fresh ctx s (
        deliver_pdu (length pdata) bytes (record ctx {
          akf = h / 64 % 2;
          aid = h % 64;
          seg = false;
          szmic = 0;
          seq_auth = ctx.seq;
        }))

unfoldable pub lower_receive : Config → Env → List ℕ → MsgCtx → Lower → Result
lower_receive cfg env pdata ctx s = elim (pdata ++ env.behind) [
  | [] ↦ none
  | h ∷ bytes ↦ elim (ctx.ctl) [
    | true ↦ receive_ctl cfg env pdata h bytes ctx s
    | false ↦ receive_access cfg env pdata h bytes ctx s
  ]
]
