-- ===== src/LowerTrans/Tests.antt =====
-- Runs of the lower transport at concrete states.
use meshx.Base.{ℕ, refl, true, false, some, List, [], ◌∷◌, arith}
use meshx.Seq.{Seqs}
use meshx.Iv.{Iv, normal}
use meshx.LowerTrans.Pdu.{MsgCtx}
use meshx.LowerTrans.Segment.{Config, send_seg_msg}
use meshx.LowerTrans.Segment.Window.{Transmitted, send_seg_msg-Transmitted}
use meshx.LowerTrans.Tx.{init}
use meshx.LowerTrans.Tx.Trace.{Event, message, timeout, ack, steps, Stepped, steps-IsSound, one_of}

abbrev config : Config
config = record { node_addr = 1; default_ttl = 7; tx_retry_times = 3 }

abbrev seqs : Seqs
seqs = record { seq_array = some (0x2005 ∷ 9 ∷ []); element_num = 2 }

abbrev iv : Iv
iv = record {
  iv_index = 5;
  update_state = normal;
  test_mode = false;
  transit_pending = false;
  tick_time = 0;
  has_timer = true;
}

-- To the node 9, from the second element.
abbrev ctx : MsgCtx
ctx = record {
  src = 2;
  dst = 9;
  ttl = 7;
  ctl = false;
  seq = 8;
  iv_index = 5;
  seq_auth = 8;
  seg = true;
  net_key = 0;
  akf = 1;
  szmic = 0;
  aid = 3;
  opcode = 0;
}

abbrev ctx' : MsgCtx
ctx' = record ctx { seq_auth = 7 }

abbrev text : List ℕ
text = 1 ∷ 2 ∷ 3 ∷ 4 ∷ 5 ∷ 6 ∷ 7 ∷ 8 ∷ 9 ∷ 10 ∷ 11 ∷ 12 ∷ 13 ∷ []

abbrev events : List Event
events = message true text 12 ctx ∷ message true text 12 ctx' ∷ timeout 0 ∷ ack 8 3 ∷ []

steps-IsSound_example : Stepped config 2 (one_of 3) (steps config events (init 3 seqs iv))
steps-IsSound_example =
    steps-IsSound config 3 events seqs iv (refl, omega arith)
      (omega arith, (omega arith, (tt, (tt, tt))))

send_seg_msg-Transmitted_example : Transmitted config ctx seqs (send_seg_msg config text 1 ctx seqs)
send_seg_msg-Transmitted_example =
    send_seg_msg-Transmitted config text 1 ctx seqs (refl, omega arith) (omega arith)
