-- ===== src/LowerTrans/Segment.antt =====
-- meshx_lower_trans_send_seg_msg: the segments of a message.
-- `none` in a result is an abort in meshx_seq_use.
pub mod Window
use meshx.Base.{
  ℕ, zero, suc, ◌+◌, ◌-◌, ◌/◌, ◌%◌, ◌^◌, Bool, true, false, Option, none, some, List, [], ◌∷◌, ◌++◌,
  length, take, drop, ◌==◌, if◌then◌else◌, ◌>>=◌,
}
use meshx.Base.Errno.{Ret, success, inval}
use meshx.Base.Bits.{bit}
use meshx.Seq
use meshx.Seq.{Seqs}
use meshx.LowerTrans.Pdu.{
  MsgCtx, is_seq_auth_valid, seq_zero_of, access_header, ctl_header, pack_misc,
}

-- What the lower transport reads of `meshx_node_params`.
pub record Config : Type 0 where
  pub node_addr : ℕ
  pub default_ttl : ℕ
  pub tx_retry_times : ℕ

-- A call of meshx_net_send; what it returns is not looked at.
pub record Sent : Type 0 where
  pub pdu : List ℕ
  pub ctx : MsgCtx

-- MESHX_LOWER_TRANS_SEG_CTL_MAX_PDU_SIZE and MESHX_LOWER_TRANS_SEG_ACCESS_MAX_PDU_SIZE.
abbrev pub max_seg_size : Bool → ℕ
max_seg_size true = 8
max_seg_size false = 12

-- `(pdu_len + max - 1) / max`, in a `uint8_t`.
abbrev pub seg_count : Bool → ℕ → ℕ
seg_count ctl pdu_len = (pdu_len + max_seg_size ctl - 1) / max_seg_size ctl % 256

-- The element of the source address, passed as a `uint8_t`.
abbrev pub element_of : Config → MsgCtx → ℕ
element_of cfg ctx = (ctx.src + 2 ^ 16 - cfg.node_addr) % 256

-- The PDU of segment `i`. SegO and SegN have five bits and SZMIC has one. The reserved bit of a control segment, which the code does not set, is 0.
unfoldable pub seg_pdu : MsgCtx → ℕ → ℕ → List ℕ → List ℕ
seg_pdu ctx i seg_num bytes =
    let zero_part = seq_zero_of ctx.seq_auth in
    elim ctx.ctl [
      | true ↦
          ctl_header 1 ctx.opcode ∷ (pack_misc 0 zero_part (i % 32) ((seg_num - 1) % 32) ++ bytes)
      | false ↦
          access_header 1 ctx.akf (if ctx.akf == 1 then ctx.aid else 0)
          ∷ (pack_misc (ctx.szmic % 2) zero_part (i % 32) ((seg_num - 1) % 32) ++ bytes)
    ]

abbrev pub SegResult : Type 0
SegResult = Ret × MsgCtx × Seqs × List Sent

-- The length of segment `i` at the head of the remaining data, in a `uint8_t`.
abbrev pub seg_len : MsgCtx → ℕ → ℕ → List ℕ → ℕ
seg_len ctx i seg_num rest = if seg_num == i + 1 then length rest % 256 else max_seg_size ctx.ctl

-- The loop, with `n` rounds left, at segment `i`; `rest` is the data from `data_offset` on. The
-- sequence number is stored in a 24-bit field.
pub send_from : Config → ℕ → ℕ → ℕ → ℕ → List ℕ → MsgCtx → Seqs → Option SegResult
send_from cfg zero i seg_num block_ack rest ctx seqs = some (success, ctx, seqs, [])
send_from cfg (suc n) i seg_num block_ack rest ctx seqs =
    let len = seg_len ctx i seg_num rest in
    elim (bit block_ack i == 1) [
      | true ↦ send_from cfg n (suc i) seg_num block_ack (drop len rest) ctx seqs
      | false ↦ elim (Seq.use_seq (element_of cfg ctx) seqs) [
        | none ↦ none
        | some (q, seqs') ↦
            let ctx' : MsgCtx = record ctx { seq = q % 2 ^ 24 } in
            elim (is_seq_auth_valid (q % 2 ^ 24) ctx.seq_auth) [
              | false ↦ some (inval, ctx', seqs', [])
              | true ↦
                  send_from cfg n (suc i) seg_num block_ack (drop len rest) ctx' seqs'
                  >>= λ (r, c, s, out). some (
                    r,
                    c,
                    s,
                    record { pdu = seg_pdu ctx' i seg_num (take len rest); ctx = ctx' } ∷ out,
                  )
            ]
      ]
    ]

pub send_seg_msg : Config → List ℕ → ℕ → MsgCtx → Seqs → Option SegResult
unfolding send_from
send_seg_msg cfg pdu block_ack ctx seqs =
    let seg_num = seg_count ctx.ctl (length pdu) in
    send_from cfg seg_num 0 seg_num block_ack pdu ctx seqs
