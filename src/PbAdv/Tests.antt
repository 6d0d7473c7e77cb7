-- ===== src/PbAdv/Tests.antt =====
-- Transactions and time-outs at concrete devices.
use meshx.Base.{ℕ, ◌≡◌, ◌≢◌, refl, true, none, some, List, [], ◌∷◌, ◌++◌, length, replicate, arith}
use meshx.Base.Bits.{bit, ones, clear_bit}
use meshx.Base.Bytes.{xor}
use meshx.Base.Memory.{copy}
use meshx.Base.Errno.{success, length as bad_length}
use meshx.Crc.{crc}
use meshx.PbAdv.{
  invite, link_opened, link_closing, provisioner, retry, delay, link_monitor, trans_ack, Device,
  Out, adv, link_closed, pdu_process, Env,
}
use meshx.PbAdv.Send.{pdu_of, send_trans, send_from, send_state_pdu, trans_ack_pdu}
use meshx.PbAdv.Timer.{handle_delay_ack, handle_device_timeout}
use meshx.PbAdv.Timer.Abort.{unexpected_number_aborts}
use meshx.PbAdv.Timer.GiveUp.{run_timeouts, retry-gives_up}
use meshx.PbAdv.Link.{zero_device}
use meshx.PbAdv.Trans.{
  Start, prepare, store_start, finish_segment, recv_start, recv_continue, recv_ack,
}
use meshx.PbAdv.Trans.Fit.{IsValid}
use meshx.PbAdv.Trans.Bounds.{receive_segments-IsValid}
use meshx.PbAdv.Trans.Faults.{Taken, first_overflow}
use meshx.PbAdv.Trans.Stuck.{
  Segment, start, continue, receive_segment, receive_segments, spoiled-IsStuck,
}
use meshx.PbAdv.Trans.Unmoved.{acked_once, ack_loses}
use meshx.PbAdv.Trans.Seen.{Ready}
use meshx.PbAdv.Trans.Sent.{accepted}
use meshx.PbAdv.Trans.Arrive.{receive_all, Received}
use meshx.PbAdv.Trans.RoundTrip.{send_trans-receive}

abbrev test_env : Env
test_env = record {
  adv_ok = accepted;
  rand = 7;
  node_uuid = [];
  allocated = true;
  new_addr = 9;
  timer_created = true;
  new_public_key = [];
  new_private_key = [];
  new_random = [];
}

-- A device in link 7 that waits for the number 0.
abbrev waiting : Device
waiting = record (zero_device 1) {
  state = link_opened;
  link_id = 7;
  acked_trans_num = 255;
  rx_pdu = replicate 65 0;
}

abbrev sample : List ℕ
sample = replicate 50 9

waiting-Ready : Ready 7 0 waiting
unfolding zero_device
waiting-Ready = record {
  same_link = refl;
  link_word = omega arith;
  opened = refl;
  running = refl;
  new = refl;
  fresh = refl;
  room = refl;
}

send_trans-receive_example :
    (out : List Out) × (u : Device) × (send_trans accepted 1 7 0 sample ≡ some (true, out))
    × (receive_all test_env success out (waiting ∷ []) ≡ some (u ∷ []))
    × Received 0 sample waiting u
send_trans-receive_example =
    send_trans-receive test_env success 1 7 0 sample waiting waiting-Ready (omega arith)
      (omega arith)

waiting-IsValid : IsValid waiting
unfolding zero_device
waiting-IsValid = record { room = refl; short = omega arith; segments = refl }

-- A first segment of 3 with too few bytes, and a single one.
abbrev short_start : Start
short_start = record { trans_num = 0; last_seg_num = 2; total_len = 50; fcs = 0; bytes = 1 ∷ [] }

abbrev single_start : Start
single_start = record {
  trans_num = 1;
  last_seg_num = 0;
  total_len = 2;
  fcs = 0;
  bytes = 1 ∷ 2 ∷ [];
}

abbrev some_segments : List Segment
some_segments = start short_start ∷ continue 0 1 (replicate 23 3) ∷ []

receive_segments-IsValid_example :
    (u : Device) × (receive_segments test_env some_segments waiting ≡ some u) × IsValid u
receive_segments-IsValid_example =
    receive_segments-IsValid test_env some_segments waiting waiting-IsValid (tt, (omega arith, tt))

short_start-Taken : Taken short_start waiting
unfolding zero_device
short_start-Taken = record { opened = refl; new = refl; total = refl; segments = refl }

single_start-Taken : Taken single_start waiting
unfolding zero_device
single_start-Taken = record { opened = refl; new = refl; total = refl; segments = refl }

waiting_fresh : waiting.trans_data_len ≡ 0
unfolding zero_device
waiting_fresh = refl

waiting_room : length waiting.rx_pdu ≡ 65
waiting_room = refl

first_overflow_example :
    (u : Device) × (recv_start test_env short_start waiting ≡ some (bad_length, u, []))
    × (recv_continue test_env 0 0 (replicate 23 3) u ≡ none)
first_overflow_example =
    first_overflow test_env short_start (replicate 23 3) waiting short_start-Taken waiting_fresh
      (omega arith) (λ e. absurd (omega (arith, e))) refl waiting_room

abbrev later_segments : List Segment
later_segments = continue 1 0 (5 ∷ []) ∷ start single_start ∷ []

abbrev spoiled_waiting : Device
spoiled_waiting = record waiting {
  recv_seg = 6;
  trans_data_len = 2;
  rx_trans_num = 1;
  last_seg_num = 0;
  fcs = 0;
  rx_pdu = 1 ∷ 2 ∷ replicate 63 0;
}

later_segments_run :
    receive_segments test_env (start short_start ∷ start single_start ∷ later_segments) waiting
    ≡ some spoiled_waiting
unfolding zero_device receive_segments receive_segment recv_start recv_continue prepare store_start
    finish_segment copy ones clear_bit bit
later_segments_run = refl

spoiled-IsStuck_example :
    (spoiled_waiting.trans_data_len ≢ 0)
    × (spoiled_waiting.recv_seg ≢ 0)
    × (spoiled_waiting.timer_state ≡ waiting.timer_state)
spoiled-IsStuck_example =
    spoiled-IsStuck test_env short_start single_start later_segments waiting spoiled_waiting
      short_start-Taken single_start-Taken waiting_fresh waiting_room (omega arith)
      (λ e. absurd (omega (arith, e))) refl refl later_segments_run

-- The device when the sample has been received, and when it has been acknowledged.
abbrev received : Device
received = record waiting {
  trans_data_len = 50;
  recv_seg = 0;
  rx_trans_num = 0;
  timer_state = delay;
  timer_delay_type = trans_ack;
}

abbrev acknowledged : Device
acknowledged = record received {
  acked_trans_num = 0;
  trans_data_len = 0;
  timer_state = link_monitor;
  timer = 600000;
}

acknowledged_run :
    handle_delay_ack test_env received
    ≡ some (acknowledged, adv 0 (trans_ack_pdu 7 0) ∷ pdu_process 1 (replicate 65 0) 50 ∷ [])
unfolding zero_device handle_delay_ack
acknowledged_run = refl

acked_once_example :
    receive_segments test_env (start short_start ∷ []) acknowledged ≡ some acknowledged
acked_once_example =
    acked_once test_env test_env (start short_start ∷ []) received acknowledged
      (adv 0 (trans_ack_pdu 7 0) ∷ pdu_process 1 (replicate 65 0) 50 ∷ []) refl refl
      acknowledged_run (refl, tt)

ack_loses_example :
    (u : Device) × (out : List Out) × (recv_ack received.tx_trans_num received
      ≡ some (success, u, out))
    × (u.timer_state ≡ link_monitor)
    × (receive_segments test_env some_segments u ≡ some u)
ack_loses_example = ack_loses test_env some_segments received (λ e. absurd (omega (arith, e))) refl

-- The same device with a number that only a device may use.
abbrev misnumbered : Device
misnumbered = record received { rx_trans_num = 128 }

unexpected_number_aborts_example :
    (w : Device) × (handle_delay_ack test_env misnumbered
      ≡ some (
        w,
        adv misnumbered.bearer (trans_ack_pdu misnumbered.link_id misnumbered.rx_trans_num) ∷ [],
      ))
    × (w.timer_state ≡ delay)
    × (handle_device_timeout test_env w ≡ none)
unfolding zero_device
unexpected_number_aborts_example = unexpected_number_aborts test_env test_env misnumbered refl refl

-- A provisioner that sends an invitation.
abbrev inviting : Device
inviting = record (zero_device 2) {
  state = invite;
  role = provisioner;
  link_id = 7;
  timer_state = retry;
  tx_trans_num = 0;
}

abbrev invitation : List Out
invitation = adv 0 (0 ∷ 0 ∷ 0 ∷ 7 ∷ 0 ∷ 0 ∷ 0 ∷ 2 ∷ 0x14 ∷ 0 ∷ 0 ∷ []) ∷ []

invitation_run : send_state_pdu test_env.adv_ok inviting ≡ some invitation
unfolding zero_device send_state_pdu pdu_of send_trans send_from crc xor
invitation_run = refl

retry-gives_up_example :
    (u : Device) × (calls : List Out) × (run_timeouts 106 test_env inviting
      ≡ some (u, calls ++ (link_closed inviting.addr 1 ∷ [])))
    × (u.state ≡ link_closing)
    × (u.timer ≡ 0)
unfolding zero_device
retry-gives_up_example = retry-gives_up test_env invitation inviting refl refl refl invitation_run
