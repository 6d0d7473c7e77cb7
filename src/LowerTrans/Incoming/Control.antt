-- ===== src/LowerTrans/Incoming/Control.antt =====
-- A control message that is not segmented, from one node's lower transport to the other's.
use meshx.Base.{
  ℕ, suc, ◌+◌, ◌-◌, ◌/◌, ◌%◌, ◌^◌, ◌<◌, ◌≤◌, ◌≡◌, refl, ap, ◌∙◌, true, false, some, List, [], ◌∷◌,
  ◌++◌, ◌==◌, ◌||◌, length, take, take-append, if◌then◌else◌, ltb, arith,
}
use meshx.Base.Errno.{Ret, success}
use meshx.Rpl.{Rpl}
use meshx.LowerTrans.Pdu.{MsgCtx, is_valid_address, access_header, ctl_header}
use meshx.LowerTrans.Segment.{Config, Sent}
use meshx.LowerTrans.Tx as Tx
use meshx.LowerTrans.Tx.{Tx, process_seg_msg}
use meshx.LowerTrans.Rx.{rpl_check}
use meshx.LowerTrans.Rx.Receive.{Delivered, entry_of}
use meshx.LowerTrans.Send.{send, unseg_pdu}
use meshx.LowerTrans.Incoming.{Lower, Env, Result, receive_ctl, receive_access, lower_receive}

-- A control message that fits one PDU: opcode 0 is that of the acknowledgements.
pub record IsControl (ctx : MsgCtx) (pdu : List ℕ) : Type 0 where
  pub control : ctx.ctl ≡ true
  pub one_pdu : ctx.seg ≡ false
  pub no_ack : 0 < ctx.opcode
  pub opcode_bits : ctx.opcode < 128
  pub valid : is_valid_address ctx.dst ≡ true
  pub given : 0 < length pdu
  pub fits : length pdu ≤ 11

send-control :
    (sent : Ret) (env : Tx.Env) (cfg : Config) (pdu : List ℕ) (ctx : MsgCtx) (tx : Tx)
    → IsControl ctx pdu
    → send sent env cfg pdu ctx tx
      ≡ some (sent, tx, record { pdu = ctx.opcode ∷ pdu; ctx = ctx } ∷ [])
unfolding send
send-control sent env cfg pdu ctx tx c =
    let some_bytes : (length pdu == 0) ≡ false = ground (arith, c.given) in
    let one : (ctx.seg || ltb 11 (length pdu)) ≡ false = ground (arith, c.fits, c.one_pdu) in
    let header : ctl_header 0 ctx.opcode ≡ ctx.opcode = omega (arith, c.opcode_bits) in
    let made : unseg_pdu ctx pdu ≡ ctx.opcode ∷ pdu =
      ap
        (λ b. elim b as (λ x. List ℕ) [
          | true ↦ ctl_header 0 ctx.opcode ∷ pdu
          | false ↦ access_header 0 ctx.akf (if ctx.akf == 1 then ctx.aid else 0) ∷ pdu
        ])
        c.control
      ∙ ap (λ (h : ℕ). h ∷ pdu) header in
    simp (send, some_bytes, c.valid, c.control, one)
      (ap (λ bytes. some (sent, tx, record { pdu = bytes; ctx = ctx } ∷ [])) made)

send-control_long :
    (sent : Ret) (env : Tx.Env) (cfg : Config) (long pdu : List ℕ) (ctx : MsgCtx) (tx : Tx)
    → IsControl ctx pdu
    → 11 < length long
    → send sent env cfg long ctx tx ≡ process_seg_msg env cfg long 8 (record ctx { seg = true }) tx
unfolding send
send-control_long sent env cfg long pdu ctx tx c more =
    let some_bytes : (length long == 0) ≡ false = ground arith in
    let many : (ctx.seg || ltb 11 (length long)) ≡ true = ground (arith, c.one_pdu) in
    simp (send, some_bytes, c.valid, c.control, many) refl

lower_receive-control :
    (cfg : Config) (env : Env) (pdu : List ℕ) (opcode : ℕ) (ctx : MsgCtx) (s : Lower) (rpl' : Rpl)
    → ctx.ctl ≡ true
    → 0 < opcode
    → opcode < 128
    → length pdu ≤ 11
    → rpl_check (entry_of ctx) s.rx.rpl ≡ some (true, rpl')
    → lower_receive cfg env (opcode ∷ pdu) ctx s
      ≡ some (
        success,
        record s { rx = record (s.rx) { rpl = rpl' } },
        [],
        record {
          pdu = pdu ++ env.behind;
          pdu_len = length pdu;
          ctx = record ctx { seg = false; opcode = opcode; seq_auth = ctx.seq };
        }
            ∷ [],
      )
unfolding lower_receive receive_ctl
lower_receive-control cfg env pdu opcode ctx s rpl' control no_ack bits fits fresh =
    let code : opcode % 128 ≡ opcode = omega arith in
    let no_opcode : (opcode == 0) ≡ false = ground arith in
    let unsegmented : (opcode / 128 % 2 == 1) ≡ false = ground arith in
    let size : (suc (length pdu) + 2 ^ 8 - 1) % 2 ^ 8 ≡ length pdu = omega arith in
    ap
      (λ b. elim b as (λ x. Result) [
        | true ↦ receive_ctl cfg env (opcode ∷ pdu) opcode (pdu ++ env.behind) ctx s
        | false ↦ receive_access cfg env (opcode ∷ pdu) opcode (pdu ++ env.behind) ctx s
      ])
      control
    ∙ simp (receive_ctl, code, no_opcode, unsegmented, fresh, size) refl

-- A control message that is no acknowledgement and has at most 11 bytes, from node to node, the network layer
-- left out, when the receiver is told that it is one and it passes the replay check: the sender's lower
-- transport makes one PDU of it and starts no task, and the receiver's hands on exactly the message, with
-- its opcode and its sequence number as SeqAuth, and acknowledges nothing. What stands behind the PDU in
-- memory and in the other fields of the contexts does not matter. A message of more bytes in the same context
-- is segmented, with 8 bytes in a segment.
pub control_message :
    (sent : Ret) (tx_env : Tx.Env) (env : Env) (cfg cfg' : Config) (pdu long : List ℕ)
    (ctx ctx' : MsgCtx) (tx : Tx) (s : Lower) (rpl' : Rpl)
    → IsControl ctx pdu
    → 11 < length long
    → ctx'.ctl ≡ true
    → rpl_check (entry_of ctx') s.rx.rpl ≡ some (true, rpl')
    → (out : Sent) × (call : Delivered) × (send sent tx_env cfg pdu ctx tx
        ≡ some (sent, tx, out ∷ []))
      × (lower_receive cfg' env out.pdu ctx' s
          ≡ some (success, record s { rx = record (s.rx) { rpl = rpl' } }, [], call ∷ []))
      × (take call.pdu_len call.pdu ≡ pdu)
      × (call.ctx ≡ record ctx' { seg = false; opcode = ctx.opcode; seq_auth = ctx'.seq })
      × (send sent tx_env cfg long ctx tx
          ≡ process_seg_msg tx_env cfg long 8 (record ctx { seg = true }) tx)
control_message sent tx_env env cfg cfg' pdu long ctx ctx' tx s rpl' c more told fresh = (
  _,
  _,
  send-control sent tx_env cfg pdu ctx tx c,
  lower_receive-control cfg' env pdu ctx.opcode ctx' s rpl' told c.no_ack c.opcode_bits c.fits
      fresh,
  take-append (length pdu) pdu env.behind refl,
  refl,
  send-control_long sent tx_env cfg long pdu ctx tx c more,
)
