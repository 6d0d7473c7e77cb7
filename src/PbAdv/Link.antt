-- ===== src/PbAdv/Link.antt =====
-- Opening and closing a link.
use meshx.Base.{
  ℕ, ◌%◌, true, false, not, ◌&&◌, Option, none, some, List, [], ◌∷◌, ◌++◌, take, replicate, ltb,
  ◌==◌, if◌then◌else◌,
}
use meshx.Base.Bytes.{bytes_eq}
use meshx.Base.Errno.{
  Ret, success, inval, busy, length as bad_length, diff, resource, already, state as bad_state,
}
use meshx.PbAdv.{
  idle, link_opening, link_opened, rank, Role, device, delay, link_monitor, retry, trans_ack,
  Device, Out, adv, link_open_result, link_closed, Env, Pkt, link_loss_time, link_open_retry_period,
  timer_start, find_by_link_id, find_device, put,
}
use meshx.PbAdv.Send.{link_open_pdu, link_ack_pdu}

-- meshx_pb_adv_link_open
unfoldable pub link_open : Env → Device → Ret × Device × List Out
link_open env d =
    if bytes_eq env.node_uuid d.dev_uuid
    then (inval, d, [])
    else if ltb 0 (rank d.state)
    then (busy, d, [])
    else (
      success,
      timer_start link_open_retry_period (record d {
        link_id = env.rand;
        tx_trans_num = 0xff;
        acked_trans_num = 0;
        state = link_opening;
        retry_time = 0;
        timer_state = retry;
      }),
      adv d.bearer (link_open_pdu env.rand d.dev_uuid) ∷ [],
    )

-- meshx_pb_adv_link_ack. `refused` is what meshx_bearer_adv_send answers when it does not send.
unfoldable pub link_ack : Env → Ret → Device → Ret × Device × List Out
link_ack env refused d =
    let ack = adv d.bearer (link_ack_pdu d.link_id) in
    if not (rank d.state == 1)
    then (bad_state, d, [])
    else if env.adv_ok 0
    then (
      success,
      timer_start link_loss_time (record d { state = link_opened; timer_state = link_monitor }),
      ack ∷ link_open_result d.addr true ∷ [],
    )
    else (refused, d, ack ∷ [])

-- meshx_pb_adv_create_device: the device is new and zero, or the one that is there.
unfoldable pub zero_device : ℕ → Device
zero_device a = record {
  addr = a;
  id = 0;
  role = device;
  dev_uuid = replicate 16 0;
  bearer = 0;
  state = idle;
  private_key = replicate 32 0;
  contents = record {
    invite_pdu = replicate 1 0;
    capabilites_pdu = replicate 11 0;
    start_pdu = replicate 5 0;
    public_key_pdu = replicate 64 0;
    confirmation_pdu = replicate 16 0;
    random_pdu = replicate 16 0;
    data_pdu = replicate 33 0;
    err_code = 0;
  };
  link_id = 0;
  tx_trans_num = 0;
  rx_trans_num = 0;
  acked_trans_num = 0;
  retry_time = 0;
  timer = 0;
  timer_state = delay;
  timer_delay_type = trans_ack;
  link_close_reason = 0;
  last_seg_num = 0;
  fcs = 0;
  recv_seg = 0;
  trans_data_len = 0;
  rx_pdu = replicate 65 0;
}

unfoldable pub pb_adv_create_device : Env → ℕ → List ℕ → List Device → Option Device × List Device
pb_adv_create_device env bearer uuid ds = elim (find_device bearer uuid ds) [
  | some d ↦ (some d, ds)
  | none ↦ elim (env.allocated && env.timer_created) [
    | false ↦ (none, ds)
    | true ↦ let d = zero_device env.new_addr in (some d, ds ++ (d ∷ []))
  ]
]

-- meshx_prov_create_device of meshx_prov.c, for this bearer and a valid role: also a device that is
-- there gets a new identifier, a new pair of keys and a new random number.
unfoldable pub create_device : Env → ℕ → List ℕ → Role → List Device → Option Device × List Device
create_device env bearer uuid role ds =
    let (o, ds') = pb_adv_create_device env bearer uuid ds in
    elim o [
      | none ↦ (none, ds')
      | some d ↦
          let d' : Device = record d {
            id = env.rand % 255;
            role = role;
            bearer = bearer;
            dev_uuid = uuid;
            private_key = env.new_private_key;
            contents = record (d.contents) {
              public_key_pdu = env.new_public_key;
              random_pdu = env.new_random;
            };
          } in
          (some d', put d' ds')
    ]

-- The result of receiving a PDU.
abbrev pub Result : Type 0
Result = Option (Ret × List Device × List Out)

-- meshx_pb_adv_recv_link_open, from the state of the created device on.
unfoldable pub recv_link_open_by :
    Env → Ret → ℕ → ℕ → Device → List Device → Ret × List Device × List Out
recv_link_open_by env refused bearer link d ds =
    if (rank d.state == 2) && not (d.link_id == link)
    then (diff, ds, [])
    else if rank d.state == 2
    then (success, ds, adv bearer (link_ack_pdu d.link_id) ∷ [])
    else if ltb 2 (rank d.state)
    then (already, ds, [])
    else (let d' : Device = record d {
      link_id = link;
      state = link_opening;
      tx_trans_num = 0x7f;
      acked_trans_num = 0xff;
      trans_data_len = 0;
    } in
        let (r, d'', out) = link_ack env refused d' in (r, put d'' ds, out))

unfoldable pub recv_link_open : Env → Ret → ℕ → ℕ → Pkt → List Device → Result
recv_link_open env refused bearer len p ds =
    if ltb len 22
    then some (bad_length, ds, [])
    else if not (bytes_eq env.node_uuid (take 16 p.rest))
    then some (diff, ds, [])
    else (let (o, ds') = create_device env bearer env.node_uuid device ds in
        elim o [
          | none ↦ some (resource, ds', [])
          | some d ↦ some (recv_link_open_by env refused bearer p.link_id d ds')
        ])

-- meshx_pb_adv_recv_link_ack
unfoldable pub recv_link_ack : ℕ → Pkt → List Device → Result
recv_link_ack len p ds =
    if ltb len 6 then some (bad_length, ds, []) else elim (find_by_link_id p.link_id ds) [
      | none ↦ some (resource, ds, [])
      | some d ↦
          if ltb 2 (rank d.state)
          then some (bad_state, ds, [])
          else some (
            success,
            put
                (timer_start link_loss_time
                  (record d { retry_time = 0; timer_state = link_monitor; state = link_opened }))
                ds,
            link_open_result d.addr true ∷ [],
          )
    ]

-- meshx_pb_adv_recv_link_close. The device is deleted, if at all, by the layer above.
unfoldable pub recv_link_close : ℕ → Pkt → List Device → Result
recv_link_close len p ds =
    if ltb len 7 then some (bad_length, ds, []) else elim (find_by_link_id p.link_id ds) [
      | none ↦ some (resource, ds, [])
      | some d ↦ elim p.rest [
        | [] ↦ none
        | reason ∷ _ ↦ some (success, put (timer_start 0 d) ds, link_closed d.addr reason ∷ [])
      ]
    ]

-- meshx_pb_adv_recv_bearer_ctl
unfoldable pub recv_bearer_ctl : Env → Ret → ℕ → ℕ → Pkt → List Device → Result
recv_bearer_ctl env refused bearer len p ds =
    if ltb len 6
    then some (bad_length, ds, [])
    else if not (p.trans_num == 0)
    then some (inval, ds, [])
    else if p.field == 0
    then recv_link_open env refused bearer len p ds
    else if p.field == 1
    then recv_link_ack len p ds
    else if p.field == 2
    then recv_link_close len p ds
    else some (inval, ds, [])
