-- ===== src/PbAdv/Trans/Unmoved.antt =====
-- Segments that change nothing.
use meshx.Base.{
  ℕ, ◌≡◌, ◌≢◌, refl, sym, ap, ◌∙◌, inl, inr, true, false, Option, some, List, [], ◌∷◌, ltb, ◌==◌,
  All, ◌>>=◌, arith, Bool-cases, Option-cases,
}
use meshx.Base.Bits.{bit, bit-zero}
use meshx.Base.Errno.{success}
use meshx.PbAdv.{rank, Device, Out, trans_acked, link_monitor, Env, timer_start}
use meshx.PbAdv.Timer.{
  start_delay, request_failed, dev_require_trans_num, is_valid_rx_trans_num, handle_delay_ack,
}
use meshx.PbAdv.Trans.{DeviceResult, prepare, recv_start, recv_continue, recv_ack}
use meshx.PbAdv.Trans.Stuck.{Segment, start, continue, receive_segment, receive_segments}

device_of : DeviceResult → Option Device
device_of o = o >>= λ (r, u, out). some u

abbrev Unmoved : Env → Device → Segment → Type 0
Unmoved env d g = device_of (receive_segment env g d) ≡ some d

receive_segments-Unmoved :
    (env : Env) (gs : List Segment) (d : Device)
    → All (Unmoved env d) gs
    → receive_segments env gs d ≡ some d
unfolding receive_segments device_of
receive_segments-Unmoved env [] d h = refl
receive_segments-Unmoved env (g ∷ gs) d h = elim (Option-cases (receive_segment env g d)) [
  | inl e ↦ let u = h.0 in absurd (ground arith)
  | inr ((r, d', out), e) ↦
      let u = h.0 in
      let same : d' ≡ d = ground arith in
      ap (λ o. o >>= λ (r, d', out). receive_segments env gs d') e
      ∙ ap (receive_segments env gs) same
      ∙ receive_segments-Unmoved env gs d h.1
]

abbrev number_of : Segment → ℕ
number_of (start p) = p.trans_num
number_of (continue trans_num index bytes) = trans_num

acked-Unmoved :
    (env : Env) (d : Device) (g : Segment)
    → ltb (rank d.state) 2 ≡ false
    → number_of g ≡ d.acked_trans_num
    → Unmoved env d g
unfolding receive_segment device_of recv_start recv_continue
acked-Unmoved env d (start p) opened num =
    let same : (d.acked_trans_num == p.trans_num) ≡ true = ground arith in
    rw (device_of, receive_segment, recv_start, opened, same) refl
acked-Unmoved env d (continue trans_num index bytes) opened num =
    let same : (d.acked_trans_num == trans_num) ≡ true = ground arith in
    rw (device_of, receive_segment, recv_continue, opened, same) refl

complete-Unmoved :
    (env : Env) (d : Device) (g : Segment)
    → (d.trans_data_len == 0) ≡ false
    → d.recv_seg ≡ 0
    → Unmoved env d g
unfolding receive_segment device_of recv_start recv_continue prepare
complete-Unmoved env d (start p) some_data all =
    let first : (bit d.recv_seg 0 == 0) ≡ true = rw all (ground (arith, bit-zero 0)) in
    ground (arith, first)
complete-Unmoved env d (continue trans_num index bytes) some_data all =
    let got : (bit d.recv_seg index == 0) ≡ true = rw all (ground (arith, bit-zero index)) in
    ground (arith, got)

All-of :
    (P Q : Segment → Type 0) (gs : List Segment) → ((g : Segment) → P g → Q g) → All P gs → All Q gs
All-of P Q [] f h = tt
All-of P Q (g ∷ gs) f h = (f g h.0, All-of P Q gs f h.1)

All-every : (Q : Segment → Type 0) (gs : List Segment) → ((g : Segment) → Q g) → All Q gs
All-every Q [] f = tt
All-every Q (g ∷ gs) f = (f g, All-every Q gs f)

handle_delay_ack-acked :
    (env : Env) (d w : Device) (out : List Out)
    → env.adv_ok 0 ≡ true
    → handle_delay_ack env d ≡ some (w, out)
    → (w.acked_trans_num ≡ d.rx_trans_num) × (w.state ≡ d.state)
unfolding handle_delay_ack request_failed start_delay dev_require_trans_num
handle_delay_ack-acked env d w out sent h =
    elim (Bool-cases (is_valid_rx_trans_num d.role d.rx_trans_num)) [
      | inl e ↦
          let h' = rw (handle_delay_ack, e) at h in (ground (arith, h', sent), ground (arith, h'))
      | inr e ↦
          let h' = rw (handle_delay_ack, e) at h in (ground (arith, h', sent), ground (arith, h'))
    ]

-- When a device of an open link has acknowledged a transaction on a bearer that sends the
-- acknowledgement, no segment with the number of that transaction changes it any more: what is
-- sent again is not handed to the layer above a second time.
pub acked_once :
    (env env' : Env) (gs : List Segment) (d w : Device) (out : List Out)
    → ltb (rank d.state) 2 ≡ false
    → env.adv_ok 0 ≡ true
    → handle_delay_ack env d ≡ some (w, out)
    → All (λ g. number_of g ≡ d.rx_trans_num) gs
    → receive_segments env' gs w ≡ some w
acked_once env env' gs d w out opened sent h same =
    let (acked, state) = handle_delay_ack-acked env d w out sent h in
    receive_segments-Unmoved env' gs w (
      All-of (λ g. number_of g ≡ d.rx_trans_num) (Unmoved env' w) gs
        (λ g e. acked-Unmoved env' w g (ap (λ s. ltb (rank s) 2) state ∙ opened) (e ∙ sym acked))
        same)

-- A device has all segments of a transaction and waits to acknowledge it. An acknowledgement of
-- what it sent itself stops the wait: then no segments change it, so that the transaction is neither
-- acknowledged nor handed to the layer above, however often it is sent again.
pub ack_loses :
    (env : Env) (gs : List Segment) (d : Device)
    → d.trans_data_len ≢ 0
    → d.recv_seg ≡ 0
    → (u : Device) × (out : List Out) × (recv_ack d.tx_trans_num d ≡ some (success, u, out))
      × (u.timer_state ≡ link_monitor)
      × (receive_segments env gs u ≡ some u)
unfolding recv_ack
ack_loses env gs d some_data all =
    let same : (d.tx_trans_num == d.tx_trans_num) ≡ true = ground arith in
    let u = timer_start 600000 (record d { retry_time = 0; timer_state = link_monitor }) in
    let h : (d.trans_data_len == 0) ≡ false = ground arith in
    (
      u,
      trans_acked d.addr d.state ∷ [],
      rw (recv_ack, same) refl,
      refl,
      receive_segments-Unmoved env gs u
          (All-every (Unmoved env u) gs (λ g. complete-Unmoved env u g h all)),
    )
