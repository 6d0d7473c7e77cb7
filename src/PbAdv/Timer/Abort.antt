-- ===== src/PbAdv/Timer/Abort.antt =====
-- A request that is sent in a state that has no PDU.
use meshx.Base.{ℕ, ◌≡◌, refl, if◌then◌else◌, false, none, some, [], ◌∷◌}
use meshx.PbAdv.{link_opened, delay, link_monitor, link_loss_time, Device, adv, Env}
use meshx.PbAdv.Send.{pdu_of, send_state_pdu, trans_ack_pdu}
use meshx.PbAdv.Timer.{
  start_delay, request_failed, dev_require_trans_num, is_valid_rx_trans_num, handle_delay_ack,
  handle_delay_pdu, handle_delay, handle_device_timeout,
}

-- The delay of the report of a failure ends in a state that has no PDU.
request_failed-opened :
    (env : Env) (rand : ℕ) (d : Device)
    → d.state ≡ link_opened
    → handle_device_timeout env (request_failed rand d) ≡ none
unfolding handle_device_timeout handle_delay handle_delay_pdu request_failed start_delay
    dev_require_trans_num send_state_pdu pdu_of
request_failed-opened env rand d opened =
    rw (handle_device_timeout, handle_delay, handle_delay_pdu, send_state_pdu, opened) refl

-- In a link in which no provisioning PDU has been sent yet, the delay for the acknowledgement of a
-- transaction ends whose number the peer may not use. The device acknowledges it and asks for the
-- report of a failure without a change of its state, and the next delay ends in a failed assertion.
pub unexpected_number_aborts :
    (env env' : Env) (d : Device)
    → d.state ≡ link_opened
    → is_valid_rx_trans_num d.role d.rx_trans_num ≡ false
    → (w : Device) × (handle_delay_ack env d
        ≡ some (w, adv d.bearer (trans_ack_pdu d.link_id d.rx_trans_num) ∷ []))
      × (w.timer_state ≡ delay)
      × (handle_device_timeout env' w ≡ none)
unfolding handle_delay_ack request_failed start_delay
unexpected_number_aborts env env' d opened wrong =
    let acked : Device = record d {
      acked_trans_num = if env.adv_ok 0 then d.rx_trans_num else d.acked_trans_num;
      timer = link_loss_time;
      timer_state = link_monitor;
      trans_data_len = 0;
      contents = record (d.contents) { err_code = 7 };
    } in
    (
      request_failed env.rand acked,
      rw (handle_delay_ack, wrong) refl,
      refl,
      request_failed-opened env' env.rand acked opened,
    )
