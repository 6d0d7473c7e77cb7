-- ===== src/LowerTrans/Incoming/Acks.antt =====
-- An acknowledgement reaches the message it is about, whoever sends it.
use meshx.Base.{
  ℕ, ◌/◌, ◌%◌, ◌^◌, ◌||◌, ◌<◌, ◌≡◌, refl, ap, ◌∙◌, true, some, List, [], ◌∷◌, ◌++◌, ◌==◌, ◌>>=◌,
  arith,
}
use meshx.Base.Errno.{success}
use meshx.Rpl.{Rpl}
use meshx.LowerTrans.Pdu.{MsgCtx, seq_zero_of, pack_ack, pack_ack_fields, ack_block}
use meshx.LowerTrans.Segment.{Config, Sent}
use meshx.LowerTrans.Tx.{Tx, TxTask, find_seq_zero, finish, recv_block_ack}
use meshx.LowerTrans.Rx.{rpl_check}
use meshx.LowerTrans.Rx.Receive.{entry_of}
use meshx.LowerTrans.Incoming.{Lower, Env, tx_of, with_tx, receive_ack, receive_ctl, lower_receive}

recv_block_ack-all :
    (cfg : Config) (env : Env) (s : Tx) (t : TxTask)
    → find_seq_zero (seq_zero_of t.ctx.seq_auth) s.active ≡ some t
    → recv_block_ack env.tx_env cfg (seq_zero_of t.ctx.seq_auth) t.seg_bits s
      ≡ finish env.tx_env cfg t.id s
unfolding recv_block_ack
recv_block_ack-all cfg env s t there =
    let all : ((t.seg_bits == t.seg_bits) || (t.seg_bits == 0)) ≡ true = ground arith in
    rw (recv_block_ack, there, all) refl

receive_ack-all :
    (cfg : Config) (env : Env) (s : Lower) (t : TxTask) (u : Tx) (out : List Sent)
    → find_seq_zero (seq_zero_of t.ctx.seq_auth) s.tx.active ≡ some t
    → t.seg_bits < 2 ^ 32
    → finish env.tx_env cfg t.id (tx_of s) ≡ some (u, out)
    → receive_ack cfg env (pack_ack (seq_zero_of t.ctx.seq_auth) t.seg_bits ++ env.behind) s
      ≡ some (success, with_tx u s, out, [])
unfolding receive_ack pack_ack
receive_ack-all cfg env s t u out there small done =
    let z = seq_zero_of t.ctx.seq_auth in
    let fields = pack_ack_fields z t.seg_bits _ _ _ _ _ _ (omega arith) small refl in
    ap
      (λ (n : ℕ).
        recv_block_ack env.tx_env cfg n
          (ack_block (t.seg_bits / 2 ^ 24) (t.seg_bits / 2 ^ 16 % 2 ^ 8)
            (t.seg_bits / 2 ^ 8 % 2 ^ 8) (t.seg_bits % 2 ^ 8))
          (tx_of s)
        >>= λ (t, out). some (success, with_tx t s, out, []))
      fields.0
    ∙ ap
        (λ (n : ℕ). recv_block_ack env.tx_env cfg z n (tx_of s) >>= λ (t, out).
          some (success, with_tx t s, out, []))
        fields.1
    ∙ ap (λ o. o >>= λ (t, out). some (success, with_tx t s, out, []))
        (recv_block_ack-all cfg env (tx_of s) t there ∙ done)

-- An acknowledgement of all segments of the first active message with its SeqZero ends that message, with the
-- transmit state that meshx_lower_trans_tx_task_finish gives, whatever node it comes from: it only has
-- to pass the replay check, and its source is not compared with the message's destination.
pub lower_receive-ack :
    (cfg : Config) (env : Env) (ctx : MsgCtx) (s : Lower) (t : TxTask) (rpl' : Rpl) (u : Tx)
    (out : List Sent)
    → ctx.ctl ≡ true
    → rpl_check (entry_of ctx) s.rx.rpl ≡ some (true, rpl')
    → find_seq_zero (seq_zero_of t.ctx.seq_auth) s.tx.active ≡ some t
    → t.seg_bits < 2 ^ 32
    → finish env.tx_env cfg t.id (tx_of s) ≡ some (u, out)
    → lower_receive cfg env (0 ∷ pack_ack (seq_zero_of t.ctx.seq_auth) t.seg_bits) ctx s
      ≡ some (success, with_tx u (record s { rx = record (s.rx) { rpl = rpl' } }), out, [])
unfolding lower_receive receive_ctl
lower_receive-ack cfg env ctx s t rpl' u out ctl fresh there small done =
    let s' : Lower = record s { rx = record (s.rx) { rpl = rpl' } } in
    simp
      (lower_receive, ctl, receive_ctl, fresh, receive_ack-all cfg env s' t u out there small done)
      refl
