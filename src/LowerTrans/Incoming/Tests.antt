-- ===== src/LowerTrans/Incoming/Tests.antt =====
-- Received PDUs at concrete states.
use meshx.Base.{
  ℕ, ◌≡◌, refl, true, false, none, some, List, [], ◌∷◌, length-replicate, replicate, take, arith,
}
use meshx.Base.Errno.{success}
use meshx.Security.{Ciphers}
use meshx.Seq.{Seqs, use_seq}
use meshx.Iv.{Iv, normal, transit}
use meshx.Rpl
use meshx.Rpl.{Rpl, Entry, zero_entry}
use meshx.Net.Undone.{IsSound}
use meshx.Key.{normal as key_normal}
use meshx.Upper.{UpperMsg, upper_send}
use meshx.Upper.Plain.{numbered}
use meshx.Upper.Receive.{NodeKeys, upper_receive}
use meshx.LowerTrans.Pdu.{MsgCtx, seq_zero_of, pack_ack}
use meshx.LowerTrans.Segment.{Config, Sent}
use meshx.LowerTrans.Tx.{
  Tx, TxTask, find_seq_zero, finish, finish_with, release, remove, pick, process_seg_msg,
}
use meshx.LowerTrans.Rx.{rpl_check}
use meshx.LowerTrans.Rx.Receive.{Delivered, entry_of}
use meshx.LowerTrans.Send.{send}
use meshx.LowerTrans.Incoming.{Lower, Env, tx_of, with_tx, lower_receive}
use meshx.LowerTrans.Incoming.Acks.{lower_receive-ack}
use meshx.LowerTrans.Incoming.Control.{IsControl, control_message}
use meshx.LowerTrans.Incoming.Whole.{IsShort, to_lower, to_upper, arrived, short_message}

abbrev config : Config
config = record { node_addr = 1; default_ttl = 7; tx_retry_times = 3 }

abbrev seqs : Seqs
seqs = record { seq_array = some (5 ∷ []); element_num = 1 }

abbrev seqs_after : Seqs
seqs_after = record { seq_array = some (6 ∷ []); element_num = 1 }

abbrev iv : Iv
iv = record {
  iv_index = 5;
  update_state = normal;
  test_mode = false;
  transit_pending = false;
  tick_time = 0;
  has_timer = true;
}

abbrev ctx : MsgCtx
ctx = record {
  src = 1;
  dst = 9;
  ttl = 7;
  ctl = false;
  seq = 8;
  iv_index = 5;
  seq_auth = 8;
  seg = true;
  net_key = 0;
  akf = 1;
  szmic = 0;
  aid = 3;
  opcode = 0;
}

-- A message of two segments that has been sent to node 9.
abbrev task : TxTask
task = record {
  id = 0;
  ctx = ctx;
  pdu = replicate 20 1;
  seg_bits = 3;
  block_ack = 0;
  retry_times = 0;
}

abbrev empty_rpl : Rpl
empty_rpl = record { rpl_size = 2; rpl_index = 0; rpl_array = some (zero_entry ∷ zero_entry ∷ []) }

abbrev state : Lower
state = record {
  tx = record { idle = 1 ∷ []; active = task ∷ []; pending = []; seqs = seqs; iv = iv };
  rx = record { idle = []; active = []; rpl = empty_rpl; seqs = seqs; iv = iv };
}

abbrev env : Env
env = record {
  tx_env = record { allocated = true; timer_created = true };
  rx_env = record { ack_timer = true; incomplete_timer = true; memory = none };
  behind = 1 ∷ 2 ∷ [];
}

-- From the node 7, which the message was not sent to.
abbrev stranger : MsgCtx
stranger = record ctx { src = 7; dst = 1; ctl = true; seg = false }

abbrev known : Entry → Rpl
known e = record { rpl_size = 2; rpl_index = 1; rpl_array = some (e ∷ zero_entry ∷ []) }

stranger_fresh : rpl_check (entry_of stranger) state.rx.rpl ≡ some (true, known (entry_of stranger))
unfolding rpl_check Rpl.check Rpl.check_from Rpl.update Rpl.search Rpl.store
stranger_fresh = refl

abbrev finished : Tx
finished = record { idle = 1 ∷ 0 ∷ []; active = []; pending = []; seqs = seqs; iv = iv }

task_finished : finish env.tx_env config task.id (tx_of state) ≡ some (finished, [])
unfolding finish finish_with release remove pick transit
task_finished = refl

task_there : find_seq_zero (seq_zero_of task.ctx.seq_auth) state.tx.active ≡ some task
unfolding find_seq_zero
task_there = refl

lower_receive-ack_example :
    lower_receive config env
      (0 ∷ pack_ack (seq_zero_of task.ctx.seq_auth) task.seg_bits)
      stranger
      state
    ≡ some (
      success,
      with_tx finished
          (record state { rx = record (state.rx) { rpl = known (entry_of stranger) } }),
      [],
      [],
    )
lower_receive-ack_example =
    lower_receive-ack config env stranger state task (known (entry_of stranger)) finished [] refl
      stranger_fresh task_there (omega arith) task_finished

-- A cipher that changes nothing.
abbrev no_cipher : Ciphers
no_cipher = record {
  cmac = λ k text. text;
  aes128 = λ k text. text;
  ccm_encrypt = λ k nonce text n. (text, replicate n 0);
  ccm_decrypt = λ k nonce text mic. (true, text);
}

no_cipher-IsSound : IsSound no_cipher
no_cipher-IsSound = record {
  undone = λ k nonce text n. refl;
  text_length = λ k nonce text n. refl;
  mic_length = λ k nonce text n. length-replicate n 0;
}

abbrev greeting : UpperMsg
greeting = record {
  ctl = false;
  akf = true;
  aid = 3;
  seg = false;
  szmic = false;
  src = 1;
  dst = 9;
  seq = 0;
  seq_auth = 0;
  iv_index = 5;
  trans_key = 4 ∷ [];
}

abbrev greeted : UpperMsg
greeted = numbered greeting 5

abbrev keys : NodeKeys
keys = record {
  app_keys =
      record {
        addr = 1;
        key_state = key_normal;
        key_index = 0;
        value0 = record { app_key = 4 ∷ []; aid = 3 };
        value1 = record { app_key = []; aid = 3 };
        pnet_key_bind = 0;
      }
      ∷ [];
  dev_keys = [];
  node_addr = 9;
}

greeting-IsShort : IsShort greeting (1 ∷ 2 ∷ [])
greeting-IsShort = record {
  access = refl;
  one_pdu = refl;
  small_mic = refl;
  aid_bits = omega arith;
  no_aid = refl;
  valid = refl;
  fits = omega arith;
}

used_run : use_seq 0 seqs ≡ some (5, seqs_after)
unfolding use_seq
used_run = refl

greeted_fresh :
    rpl_check (entry_of (arrived ctx greeted)) state.rx.rpl
    ≡ some (true, known (entry_of (arrived ctx greeted)))
unfolding rpl_check Rpl.check Rpl.check_from Rpl.update Rpl.search Rpl.store
greeted_fresh = refl

short_message_example :
    (pdu : List ℕ) × (out : Sent) × (call : Delivered) × (upper_send no_cipher true true success 0
        (1 ∷ 2 ∷ [])
        greeting
        seqs
      ≡ some (success, some (greeted, pdu), seqs_after))
    × (send success env.tx_env config pdu (to_lower ctx greeted) state.tx
        ≡ some (success, state.tx, out ∷ []))
    × (lower_receive config env out.pdu (arrived ctx greeted) state
        ≡ some (
          success,
          record state { rx = record (state.rx) { rpl = known (entry_of (arrived ctx greeted)) } },
          [],
          call ∷ [],
        ))
    × (upper_receive no_cipher success success keys
          (to_upper [] call.ctx)
          (take call.pdu_len call.pdu)
        ≡ some (success, greeted, some (1 ∷ 2 ∷ [])))
short_message_example =
    short_message no_cipher success success success success 0 5 (1 ∷ 2 ∷ []) [] greeting keys seqs
      seqs_after env.tx_env env config config ctx ctx state.tx state
      (known (entry_of (arrived ctx greeted))) no_cipher-IsSound greeting-IsShort refl used_run
      greeted_fresh

-- A heartbeat of three bytes.
abbrev heartbeat : MsgCtx
heartbeat = record ctx { ctl = true; seg = false; opcode = 10 }

abbrev heard : MsgCtx
heard = record heartbeat { opcode = 0; seq = 9 }

heartbeat-IsControl : IsControl heartbeat (1 ∷ 2 ∷ 3 ∷ [])
heartbeat-IsControl = record {
  control = refl;
  one_pdu = refl;
  no_ack = omega arith;
  opcode_bits = omega arith;
  valid = refl;
  given = omega arith;
  fits = omega arith;
}

heard_fresh : rpl_check (entry_of heard) state.rx.rpl ≡ some (true, known (entry_of heard))
unfolding rpl_check Rpl.check Rpl.check_from Rpl.update Rpl.search Rpl.store
heard_fresh = refl

control_message_example :
    (out : Sent) × (call : Delivered) × (send success env.tx_env config
        (1 ∷ 2 ∷ 3 ∷ [])
        heartbeat
        state.tx
      ≡ some (success, state.tx, out ∷ []))
    × (lower_receive config env out.pdu heard state
        ≡ some (
          success,
          record state { rx = record (state.rx) { rpl = known (entry_of heard) } },
          [],
          call ∷ [],
        ))
    × (take call.pdu_len call.pdu ≡ 1 ∷ 2 ∷ 3 ∷ [])
    × (call.ctx ≡ record heard { seg = false; opcode = 10; seq_auth = 9 })
    × (send success env.tx_env config (replicate 12 1) heartbeat state.tx
        ≡ process_seg_msg env.tx_env config
            (replicate 12 1)
            8
            (record heartbeat { seg = true })
            state.tx)
control_message_example =
    control_message success env.tx_env env config config (1 ∷ 2 ∷ 3 ∷ []) (replicate 12 1) heartbeat
      heard state.tx state (known (entry_of heard)) heartbeat-IsControl (omega arith) refl
      heard_fresh
