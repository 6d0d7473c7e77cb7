-- ===== src/PbAdv/Timer.antt =====
-- Requests to send a PDU, and the timer that sends it.
pub mod Abort
pub mod GiveUp
use meshx.Base.{
  ℕ, ◌+◌, ◌%◌, ◌^◌, ◌<◌, Bool, true, false, not, ◌&&◌, Option, none, some, List, [], ◌∷◌, ◌++◌,
  take, ltb, leb, ◌==◌, if◌then◌else◌, ◌>>=◌,
}
use meshx.PbAdv.{
  State, link_opening, invite, complete, link_closing, rank, Role, device, provisioner, TimerState,
  delay, link_monitor, retry, DelayType, trans_ack, prov_pdu, Device, Out, adv, link_open_result,
  link_closed, pdu_process, Env, link_loss_time, link_open_retry_period, link_close_retry_period,
  link_close_time, trans_loss_time, trans_retry_period, is_valid_device_trans_num,
  is_valid_provisioner_trans_num, delay_period, timer_start, find, put,
}
use meshx.PbAdv.Send.{link_open_pdu, link_close_pdu, trans_ack_pdu, send_state_pdu}

abbrev pub Step : Type 0
Step = Option (Device × List Out)

-- meshx_prov_require_trans_num and meshx_dev_require_trans_num, with the counter in a `uint8_t`.
unfoldable pub prov_require_trans_num : Device → Device
prov_require_trans_num d =
    let n = (d.tx_trans_num + 1) % 256 in record d { tx_trans_num = if ltb 0x7f n then 0 else n }

unfoldable pub dev_require_trans_num : Device → Device
dev_require_trans_num d =
    let n = (d.tx_trans_num + 1) % 256 in record d { tx_trans_num = if n == 0 then 0x80 else n }

unfoldable pub role_require_trans_num : Device → Device
role_require_trans_num d = elim d.role [
  | device ↦ dev_require_trans_num d
  | provisioner ↦ prov_require_trans_num d
]

-- The common end of the requests below.
unfoldable pub start_delay : DelayType → ℕ → Device → Device
start_delay t rand d =
    timer_start (delay_period rand) (record d { timer_state = delay; timer_delay_type = t })

-- meshx_pb_adv_trans_ack, and meshx_pb_adv_invite to meshx_pb_adv_failed.
unfoldable pub request_trans_ack : ℕ → Device → Device
request_trans_ack rand d = start_delay trans_ack rand d

unfoldable pub request_invite : ℕ → Device → Device
request_invite rand d = start_delay prov_pdu rand (prov_require_trans_num d)

unfoldable pub request_capabilites : ℕ → Device → Device
request_capabilites rand d = start_delay prov_pdu rand (dev_require_trans_num d)

unfoldable pub request_start : ℕ → Device → Device
request_start rand d = start_delay prov_pdu rand (dev_require_trans_num d)

unfoldable pub request_public_key : ℕ → Device → Device
request_public_key rand d = start_delay prov_pdu rand (role_require_trans_num d)

unfoldable pub request_input_complete : ℕ → Device → Device
request_input_complete rand d = start_delay prov_pdu rand (dev_require_trans_num d)

unfoldable pub request_confirmation : ℕ → Device → Device
request_confirmation rand d = start_delay prov_pdu rand (role_require_trans_num d)

unfoldable pub request_random : ℕ → Device → Device
request_random rand d = start_delay prov_pdu rand (role_require_trans_num d)

unfoldable pub request_data : ℕ → Device → Device
request_data rand d = start_delay prov_pdu rand (dev_require_trans_num d)

unfoldable pub request_complete : ℕ → Device → Device
request_complete rand d = start_delay prov_pdu rand (dev_require_trans_num d)

unfoldable pub request_failed : ℕ → Device → Device
request_failed rand d = start_delay prov_pdu rand (dev_require_trans_num d)

-- May the peer of this role use the number?
abbrev pub is_valid_rx_trans_num : Role → ℕ → Bool
is_valid_rx_trans_num device n = is_valid_provisioner_trans_num n
is_valid_rx_trans_num provisioner n = is_valid_device_trans_num n

-- meshx_pb_adv_handle_delay. MESHX_PROV_FAILED_UNEXPECTED_ERROR is 7.
unfoldable pub handle_delay_ack : Env → Device → Step
handle_delay_ack env d =
    let ack = adv d.bearer (trans_ack_pdu d.link_id d.rx_trans_num) in
    let acked : Device = record d {
      acked_trans_num = if env.adv_ok 0 then d.rx_trans_num else d.acked_trans_num;
    } in
    let d' : Device = record (timer_start link_loss_time acked) {
      timer_state = link_monitor;
      trans_data_len = 0;
    } in
    elim (is_valid_rx_trans_num d.role d.rx_trans_num) [
      | false ↦ some (
        request_failed env.rand (record d' { contents = record (d.contents) { err_code = 7 } }),
        ack ∷ [],
      )
      | true ↦ some (d', ack ∷ pdu_process d.addr d.rx_pdu d.trans_data_len ∷ [])
    ]

unfoldable pub handle_delay_pdu : Env → Device → Step
handle_delay_pdu env d = send_state_pdu env.adv_ok d >>= λ out.
    some (timer_start trans_retry_period (record d { retry_time = 0; timer_state = retry }), out)

unfoldable pub handle_delay : Env → Device → Step
handle_delay env d = elim d.timer_delay_type [
  | trans_ack ↦ handle_delay_ack env d
  | prov_pdu ↦ handle_delay_pdu env d
]

-- meshx_pb_adv_link_close, whose answer is not looked at here. Its reason 3 is a lost link.
unfoldable pub link_close : ℕ → Device → Bool × Device × List Out
link_close reason d = if leb (rank d.state) 1 then (false, d, []) else (
  true,
  timer_start link_close_retry_period (record d {
    state = link_closing;
    link_close_reason = reason;
    retry_time = 0;
    timer_state = retry;
  }),
  adv d.bearer (link_close_pdu d.link_id (if reason == 3 then 1 else reason)) ∷ [],
)

-- meshx_pb_adv_handle_link_loss
unfoldable pub handle_link_loss : Device → Device × List Out
handle_link_loss d = let (done, d', out) = link_close 3 (timer_start 0 d) in (d', out)

-- The three parts of meshx_pb_adv_handle_retry.
unfoldable pub retry_opening : Device → Device × List Out
retry_opening d =
    let t = (d.retry_time + link_open_retry_period) % 2 ^ 32 in
    let opening = adv d.bearer (link_open_pdu d.link_id d.dev_uuid) in
    let d' : Device = record d { retry_time = t } in
    if ltb link_loss_time t
    then (timer_start 0 d', opening ∷ link_open_result d.addr false ∷ [])
    else (d', opening ∷ [])

unfoldable pub retry_closing : Device → Device × List Out
retry_closing d =
    let t = (d.retry_time + link_close_retry_period) % 2 ^ 32 in
    let close =
      adv d.bearer
        (link_close_pdu d.link_id (if d.link_close_reason == 3 then 1 else d.link_close_reason)) in
    let d' : Device = record d { retry_time = t } in
    if ltb link_close_time t
    then (timer_start 0 d', close ∷ link_closed d.addr d.link_close_reason ∷ [])
    else (d', close ∷ [])

unfoldable pub retry_pdu : Env → Device → Step
retry_pdu env d = send_state_pdu env.adv_ok d >>= λ out.
    let t = (d.retry_time + trans_retry_period) % 2 ^ 32 in
    let d' : Device = record d { retry_time = t } in
    if ltb trans_loss_time t
    then (let (done, d'', more) = link_close 1 (timer_start 0 d') in some (d'', out ++ more))
    else some (d', out)

-- A state in which nothing is sent again is only traced.
unfoldable pub handle_retry : Env → Device → Step
handle_retry env d =
    if rank d.state == 1
    then some (retry_opening d)
    else if rank d.state == 13
    then some (retry_closing d)
    else if leb 3 (rank d.state) && leb (rank d.state) 11
    then retry_pdu env d
    else some (d, [])

-- meshx_pb_adv_handle_timeout of a device in the list.
unfoldable pub handle_device_timeout : Env → Device → Step
handle_device_timeout env d = elim d.timer_state [
  | delay ↦ handle_delay env d
  | retry ↦ handle_retry env d
  | link_monitor ↦ some (handle_link_loss d)
]

unfoldable pub handle_timeout : Env → ℕ → List Device → Option (List Device × List Out)
handle_timeout env a ds = elim (find a ds) [
  | none ↦ some (ds, [])
  | some d ↦ handle_device_timeout env d >>= λ (d', out). some (put d' ds, out)
]
