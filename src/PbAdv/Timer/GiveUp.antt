-- ===== src/PbAdv/Timer/GiveUp.antt =====
-- Sending a PDU again until the peer is given up.
use meshx.Base.{
  ℕ, zero, suc, ◌+◌, ◌*◌, ◌%◌, ◌^◌, ◌≤◌, ◌≡◌, refl, sym, ap, ◌∙◌, true, false, ◌&&◌, some, List, [],
  ◌∷◌, ◌++◌, append_assoc, ltb, leb, ◌==◌, if◌then◌else◌, ◌>>=◌, arith,
}
use meshx.PbAdv.{
  State, idle, link_opening, link_opened, invite, capabilites, start, public_key, input_complete,
  confirmation, random, prov_data, complete, failed, link_closing, rank, delay, link_monitor, retry,
  Device, Out, adv, link_closed, Env, timer_start,
}
use meshx.PbAdv.Send.{pdu_of, send_trans, send_state_pdu, link_close_pdu}
use meshx.PbAdv.Timer.{
  Step, handle_delay, handle_link_loss, link_close, retry_closing, retry_pdu, handle_retry,
  handle_device_timeout,
}

-- The timer runs out `n` times.
pub run_timeouts : ℕ → Env → Device → Step
run_timeouts zero env d = some (d, [])
run_timeouts (suc n) env d = handle_device_timeout env d >>= λ (d', out).
    run_timeouts n env d' >>= λ (u, more). some (u, out ++ more)

-- `n` time-outs lead to `u`, and the last call is `e`.
abbrev Ends : ℕ → Env → Device → Out → Device → Type 0
Ends n env d e u = (out : List Out) × (run_timeouts n env d ≡ some (u, out ++ (e ∷ [])))

Ends-next :
    (n : ℕ) (env : Env) (d d' u : Device) (out : List Out) (e : Out)
    → handle_device_timeout env d ≡ some (d', out)
    → Ends n env d' e u
    → Ends (suc n) env d e u
unfolding run_timeouts
Ends-next n env d d' u out e h (more, k) = (
  out ++ more,
  ap (λ o. o >>= λ (d', out). run_timeouts n env d' >>= λ (u, more). some (u, out ++ more)) h
      ∙ ap (λ o. o >>= λ (u, more). some (u, out ++ more)) k
      ∙ ap (λ l. some (u, l)) (sym (append_assoc out more (e ∷ []))),
)

-- A device that sends its message again, for the time `t` so far.
abbrev at_time : ℕ → Device → Device
at_time t d = record d { retry_time = t }

abbrev close_again : Device → List Out
close_again d =
    adv d.bearer
      (link_close_pdu d.link_id (if d.link_close_reason == 3 then 1 else d.link_close_reason))
    ∷ []

handle_device_timeout-retry :
    (env : Env) (d : Device)
    → d.timer_state ≡ retry
    → handle_device_timeout env d ≡ handle_retry env d
unfolding handle_device_timeout
handle_device_timeout-retry env d state =
    ap
      (λ s. elim s [
        | delay ↦ handle_delay env d
        | retry ↦ handle_retry env d
        | link_monitor ↦ some (handle_link_loss d)
      ])
      state

handle-closing :
    (env : Env) (d : Device)
    → d.state ≡ link_closing
    → d.timer_state ≡ retry
    → handle_device_timeout env d ≡ some (retry_closing d)
unfolding handle_retry
handle-closing env d closing state =
    let not_opening : (rank d.state == 1) ≡ false = rw closing refl in
    let is_closing : (rank d.state == 13) ≡ true = rw closing refl in
    handle_device_timeout-retry env d state ∙ rw (handle_retry, not_opening, is_closing) refl

closing_next :
    (env : Env) (d : Device) (t : ℕ)
    → d.state ≡ link_closing
    → d.timer_state ≡ retry
    → t ≤ 70
    → handle_device_timeout env (at_time t d) ≡ some (at_time (t + 20) d, close_again d)
unfolding retry_closing
closing_next env d t closing state early =
    let wrap : (t + 20) % 2 ^ 32 ≡ t + 20 = omega (arith, early) in
    let before : ltb 90 (t + 20) ≡ false = ground arith in
    handle-closing env (at_time t d) closing state ∙ rw (retry_closing, wrap, before) refl

closing-Ends :
    (env : Env) (d : Device)
    → d.state ≡ link_closing
    → d.timer_state ≡ retry
    → Ends 5 env
        (at_time 0 d)
        (link_closed d.addr d.link_close_reason)
        (timer_start 0 (at_time 100 d))
unfolding retry_closing run_timeouts
closing-Ends env d closing state =
    let e = link_closed d.addr d.link_close_reason in
    let u = timer_start 0 (at_time 100 d) in
    let last : Ends 1 env (at_time 80 d) e u = (
      close_again d,
      ap (λ o. o >>= λ (d', out). some (d', out ++ []))
          (handle-closing env (at_time 80 d) closing state),
    ) in
    let step : (t : ℕ)
        → t ≤ 70
        → (n : ℕ) → Ends n env (at_time (t + 20) d) e u
        → Ends (suc n) env (at_time t d) e u =
      λ t h n k.
        Ends-next n env (at_time t d) (at_time (t + 20) d) u (close_again d) e
          (closing_next env d t closing state h) k in
    step 0 (omega arith) 4
      (step 20 (omega arith) 3 (step 40 (omega arith) 2 (step 60 (omega arith) 1 last)))

-- A device that sends its PDU again.
record Sending (env : Env) (out : List Out) (d : Device) : Type 0 where
  message : (leb 3 (rank d.state) && leb (rank d.state) 11) ≡ true
  state : d.timer_state ≡ retry
  sent : send_state_pdu env.adv_ok d ≡ some out

pdu_of-at_time : (t : ℕ) (d : Device) (s : State) → pdu_of (at_time t d) s ≡ pdu_of d s
unfolding pdu_of
pdu_of-at_time t d idle = refl
pdu_of-at_time t d link_opening = refl
pdu_of-at_time t d link_opened = refl
pdu_of-at_time t d invite = refl
pdu_of-at_time t d capabilites = refl
pdu_of-at_time t d start = refl
pdu_of-at_time t d public_key = refl
pdu_of-at_time t d input_complete = refl
pdu_of-at_time t d confirmation = refl
pdu_of-at_time t d random = refl
pdu_of-at_time t d prov_data = refl
pdu_of-at_time t d complete = refl
pdu_of-at_time t d failed = refl
pdu_of-at_time t d link_closing = refl

send_state_pdu-at_time :
    (env : Env) (t : ℕ) (d : Device)
    → send_state_pdu env.adv_ok (at_time t d) ≡ send_state_pdu env.adv_ok d
unfolding send_state_pdu
send_state_pdu-at_time env t d =
    ap
      (λ o. o >>= λ pdu.
        send_trans env.adv_ok d.bearer d.link_id d.tx_trans_num pdu >>= λ (done, out). some out)
      (pdu_of-at_time t d d.state)

handle-Sending :
    (env : Env) (out : List Out) (t : ℕ) (d : Device)
    → Sending env out d
    → handle_device_timeout env (at_time t d) ≡ retry_pdu env (at_time t d)
unfolding handle_retry
handle-Sending env out t d s =
    let message = s.message in
    let not_opening : (rank d.state == 1) ≡ false = ground arith in
    let not_closing : (rank d.state == 13) ≡ false = ground arith in
    handle_device_timeout-retry env (at_time t d) s.state
    ∙ rw (handle_retry, not_opening, not_closing, message) refl

Sending-next :
    (env : Env) (out : List Out) (t : ℕ) (d : Device)
    → Sending env out d
    → t ≤ 29700
    → handle_device_timeout env (at_time t d) ≡ some (at_time (t + 300) d, out)
unfolding retry_pdu
Sending-next env out t d s early =
    let wrap : (t + 300) % 2 ^ 32 ≡ t + 300 = omega (arith, early) in
    let before : ltb 30000 (t + 300) ≡ false = ground arith in
    let sent = send_state_pdu-at_time env t d ∙ s.sent in
    handle-Sending env out t d s ∙ rw (retry_pdu, sent, wrap, before) refl

abbrev gave_up : Device → Device
gave_up d =
    timer_start 20 (record d {
      state = link_closing;
      link_close_reason = 1;
      retry_time = 0;
      timer_state = retry;
    })

Sending-last :
    (env : Env) (out : List Out) (d : Device)
    → Sending env out d
    → handle_device_timeout env (at_time 30000 d)
      ≡ some (gave_up d, out ++ (adv d.bearer (link_close_pdu d.link_id 1) ∷ []))
unfolding retry_pdu link_close
Sending-last env out d s =
    let message = s.message in
    let linked : leb (rank d.state) 1 ≡ false = ground arith in
    let sent = send_state_pdu-at_time env 30000 d ∙ s.sent in
    handle-Sending env out 30000 d s ∙ rw (retry_pdu, sent, link_close, linked) refl

Sending-Ends :
    (k n m t : ℕ) (env : Env) (out : List Out) (d u : Device) (e : Out)
    → Sending env out d
    → m ≡ k + n
    → t + 300 * k ≡ 30000
    → Ends n env (at_time 30000 d) e u
    → Ends m env (at_time t d) e u
Sending-Ends zero n m t env out d u e s count time ends =
    let c : m ≡ n = omega (arith, count) in
    let t' : t ≡ 30000 = omega (arith, time) in rw (c, t') ends
Sending-Ends (suc k) n zero t env out d u e s count time ends = absurd (omega (arith, count))
Sending-Ends (suc k) n (suc m) t env out d u e s count time ends =
    Ends-next m env (at_time t d) (at_time (t + 300) d) u out e
      (Sending-next env out t d s (omega (arith, time)))
      (Sending-Ends k n m (t + 300) env out d u e s (omega (arith, count)) (omega (arith, time))
        ends)

-- A device whose provisioning PDU can be sent starts to send it again and gets no acknowledgement.
-- After 106 time-outs of the timer the layer above has been told, last of all, that the link is
-- closed for the reason 1, a time-out, and the timer is stopped.
pub retry-gives_up :
    (env : Env) (out : List Out) (d : Device)
    → (leb 3 (rank d.state) && leb (rank d.state) 11) ≡ true
    → d.timer_state ≡ retry
    → d.retry_time ≡ 0
    → send_state_pdu env.adv_ok d ≡ some out
    → (u : Device) × (calls : List Out) × (run_timeouts 106 env d
        ≡ some (u, calls ++ (link_closed d.addr 1 ∷ [])))
      × (u.state ≡ link_closing)
      × (u.timer ≡ 0)
retry-gives_up env out d message state begin sent =
    let s : Sending env out d = record { message = message; state = state; sent = sent } in
    let u = timer_start 0 (at_time 100 (gave_up d)) in
    let e = link_closed d.addr 1 in
    let ends =
      Ends-next 5 env (at_time 30000 d) (gave_up d) u
        (out ++ (adv d.bearer (link_close_pdu d.link_id 1) ∷ [])) e (Sending-last env out d s)
        (closing-Ends env (gave_up d) refl refl) in
    let (calls, h) = Sending-Ends 100 6 106 0 env out d u e s refl refl ends in
    (u, calls, ap (λ (t : ℕ). run_timeouts 106 env (at_time t d)) begin ∙ h, refl, refl)
