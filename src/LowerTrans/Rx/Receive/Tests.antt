-- ===== src/LowerTrans/Rx/Receive/Tests.antt =====
-- Runs of the reassembly at concrete states.
use meshx.Base.{
  ℕ, ◌≡◌, refl, true, false, none, some, List, [], ◌∷◌, inl, inr, replicate, take, arith,
}
use meshx.Base.Memory.{copy}
use meshx.Base.Bits.{bit, set_bit, clear_bit}
use meshx.Iv.{normal}
use meshx.LowerTrans.Pdu.{MsgCtx}
use meshx.LowerTrans.Segment.{Config}
use meshx.LowerTrans.Rx.{RxTask, Rx, Env, set_ones, set_up, find_src}
use meshx.LowerTrans.Rx.Receive.{Segment, parse, store_segment, receive_seg_msg}
use meshx.LowerTrans.Rx.Receive.Bits.{Stored, store_all, all_received}
use meshx.LowerTrans.Rx.Receive.Faults.{stale_overflow}
use meshx.LowerTrans.Rx.Receive.Order.{cut, in_order}

abbrev config : Config
config = record { node_addr = 1; default_ttl = 7; tx_retry_times = 3 }

abbrev ctx : MsgCtx
ctx = record {
  src = 9;
  dst = 1;
  ttl = 7;
  ctl = false;
  seq = 8;
  iv_index = 5;
  seq_auth = 8;
  seg = false;
  net_key = 0;
  akf = 0;
  szmic = 0;
  aid = 0;
  opcode = 0;
}

abbrev block : List ℕ
block = replicate 24 0

abbrev zeros : List ℕ
zeros = replicate 12 0

-- A task that still misses segment 3 of an earlier message.
abbrev old_task : RxTask
old_task = record {
  id = 4;
  ctx = ctx;
  pdu = [];
  pdu_len = 24;
  max_pdu_len = 48;
  not_received_seg = 8;
  block_ack = 7;
}

abbrev new_task : RxTask
new_task = record old_task { pdu_len = 0; not_received_seg = 0 }

-- The two segments of a message of 13 bytes, the last one first.
abbrev segments : List (ℕ × Segment)
segments =
    (5, record { ctx = ctx; sego = 1; segn = 1; bytes = 13 ∷ [] })
    ∷ (
      16,
      record {
        ctx = ctx;
        sego = 0;
        segn = 1;
        bytes = 1 ∷ 2 ∷ 3 ∷ 4 ∷ 5 ∷ 6 ∷ 7 ∷ 8 ∷ 9 ∷ 10 ∷ 11 ∷ 12 ∷ [];
      },
    )
    ∷ []

abbrev full : List ℕ
full = 1 ∷ 2 ∷ 3 ∷ 4 ∷ 5 ∷ 6 ∷ 7 ∷ 8 ∷ 9 ∷ 10 ∷ 11 ∷ 12 ∷ 13 ∷ replicate 11 0

abbrev done : RxTask
done = record new_task {
  pdu = full;
  pdu_len = 13;
  max_pdu_len = 24;
  not_received_seg = 0;
  block_ack = 3;
}

abbrev late : RxTask
late = record done { pdu_len = 37; not_received_seg = 8 }

stores : store_all segments (set_up 24 ctx block new_task) ≡ some done
unfolding store_all store_segment copy set_up set_ones set_bit clear_bit
stores = refl

stores_late : store_all segments (set_up 24 ctx block old_task) ≡ some late
unfolding store_all store_segment copy set_up set_ones set_bit clear_bit
stores_late = refl

all_received_example : Stored 1 segments × (bit 3 1 ≡ 1)
all_received_example = all_received 24 ctx block new_task done segments stores refl 1 (omega arith)

abbrev text : List ℕ
text = 1 ∷ 2 ∷ 3 ∷ 4 ∷ 5 ∷ 6 ∷ 7 ∷ 8 ∷ 9 ∷ 10 ∷ 11 ∷ 12 ∷ 13 ∷ []

in_order_example :
    (u : RxTask) × (store_all (cut ctx 1 1 0 text) (set_up 24 ctx block new_task) ≡ some u)
    × (take 13 u.pdu ≡ text)
    × (u.pdu_len ≡ 13)
in_order_example =
    in_order ctx 1 text block new_task (omega arith) (omega arith) (omega arith) refl refl

absent : ¬ Stored 3 segments
absent (inl e) = absurd (omega (arith, e))
absent (inr (inl e)) = absurd (omega (arith, e))
absent (inr (inr b)) = absurd b

bit_three : bit 8 3 ≡ 1
unfolding bit
bit_three = refl

abbrev env : Env
env = record { ack_timer = true; incomplete_timer = true; memory = some block }

abbrev state : Rx
state = record {
  idle = old_task ∷ [];
  active = [];
  rpl = record { rpl_array = none; rpl_index = 0; rpl_size = 0 };
  seqs = record { seq_array = some (4 ∷ []); element_num = 1 };
  iv = record {
    iv_index = 5;
    update_state = normal;
    test_mode = false;
    transit_pending = false;
    tick_time = 0;
    has_timer = true;
  };
}

-- Segment 3 of two.
abbrev pdata : List ℕ
pdata = 0x80 ∷ 0 ∷ 0x20 ∷ 0x61 ∷ zeros

parsed : parse [] pdata ctx ≡ some (record { ctx = ctx; sego = 3; segn = 1; bytes = zeros })
unfolding parse
parsed = refl

nothing_active : find_src 9 [] ≡ none
unfolding find_src
nothing_active = refl

stale_overflow_example : receive_seg_msg config env [] pdata ctx state ≡ none
stale_overflow_example =
    stale_overflow config env [] pdata ctx state
      (record { ctx = ctx; sego = 3; segn = 1; bytes = zeros }) old_task [] block parsed
      nothing_active refl refl refl (omega arith) (omega arith) (omega arith) bit_three
