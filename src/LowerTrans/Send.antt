-- ===== src/LowerTrans/Send.antt =====
-- meshx_lower_trans_send: which messages are segmented.
use meshx.Base.{
  ℕ, ◌<◌, ◌≤◌, ◌≡◌, refl, Bool, true, false, not, ◌||◌, Option, some, List, [], ◌∷◌, length, ltb,
  ◌==◌, if◌then◌else◌, Bool-cases, inl, inr,
}
use meshx.Base.Errno.{Ret, inval, length as bad_length}
use meshx.LowerTrans.Pdu.{MsgCtx, is_valid_address, access_header, ctl_header}
use meshx.LowerTrans.Segment.{Config, Sent, max_seg_size, element_of}
use meshx.LowerTrans.Tx.{Tx, Env, process_seg_msg}
use meshx.LowerTrans.Tx.Inv.{IsSound}
use meshx.LowerTrans.Tx.Run.{Ran}
use meshx.LowerTrans.Tx.Steps.{process_seg_msg-Ran}

-- MESHX_LOWER_TRANS_UNSEG_CTL_MAX_PDU_SIZE and MESHX_LOWER_TRANS_UNSEG_ACCESS_MAX_PDU_SIZE.
abbrev pub max_unseg_size : Bool → ℕ
max_unseg_size true = 11
max_unseg_size false = 15

-- The unsegmented PDU.
abbrev pub unseg_pdu : MsgCtx → List ℕ → List ℕ
unseg_pdu ctx pdu = elim ctx.ctl [
  | true ↦ ctl_header 0 ctx.opcode ∷ pdu
  | false ↦ access_header 0 ctx.akf (if ctx.akf == 1 then ctx.aid else 0) ∷ pdu
]

-- `sent` is what meshx_net_send answers for an unsegmented message. The checks of
-- MESHX_REDUNDANCY_CHECK are included.
unfoldable pub send : Ret → Env → Config → List ℕ → MsgCtx → Tx → Option (Ret × Tx × List Sent)
send sent env cfg pdu ctx s =
    if length pdu == 0
    then some (bad_length, s, [])
    else if not (is_valid_address ctx.dst)
    then some (inval, s, [])
    else if ctx.seg || ltb (max_unseg_size ctx.ctl) (length pdu)
    then process_seg_msg env cfg pdu (max_seg_size ctx.ctl) (record ctx { seg = true }) s
    else some (sent, s, record { pdu = unseg_pdu ctx pdu; ctx = ctx } ∷ [])

-- A message of an element of this node, segmented or not, is sent, queued or refused without an
-- abort, timers being created whenever asked for, and keeps the invariant of the transmit tasks.
pub send-Ran :
    {cfg : Config} {k : ℕ} {ids : ℕ → ℕ} (sent : Ret) (env : Env) (pdu : List ℕ) (ctx : MsgCtx)
    (s : Tx)
    → env.timer_created ≡ true
    → ((i : ℕ) → ids i ≤ 1)
    → element_of cfg ctx < k
    → IsSound cfg k ids s
    → Ran cfg k ids (send sent env cfg pdu ctx s)
unfolding send
send-Ran sent env pdu ctx s timer unique mine v = elim (Bool-cases (length pdu == 0)) [
  | inl none_given ↦ record {
    ret = bad_length;
    after = s;
    out = [];
    eq = rw (none_given, send) refl;
    sound = v;
  }
  | inr given ↦ elim (Bool-cases (is_valid_address ctx.dst)) [
    | inr nowhere ↦ record {
      ret = inval;
      after = s;
      out = [];
      eq = rw (given, nowhere, send) refl;
      sound = v;
    }
    | inl there ↦ elim (Bool-cases (ctx.seg || ltb (max_unseg_size ctx.ctl) (length pdu))) [
      | inl cut ↦
          let c : MsgCtx = record ctx { seg = true } in
          let w = process_seg_msg-Ran env timer unique pdu (max_seg_size ctx.ctl) c s mine v in
          record {
            ret = w.ret;
            after = w.after;
            out = w.out;
            eq = rw (given, there, cut, send) w.eq;
            sound = w.sound;
          }
      | inr whole ↦ record {
        ret = sent;
        after = s;
        out = record { pdu = unseg_pdu ctx pdu; ctx = ctx } ∷ [];
        eq = rw (given, there, whole, send) refl;
        sound = v;
      }
    ]
  ]
]
