-- ===== src/PbAdv/Trans/Arrive.antt =====
-- Receiving the segments of pb_adv_send_trans, one after the other.
use meshx.Base.{
  ℕ, ◌^◌, ◌<◌, ◌≡◌, refl, sym, ap, ◌∙◌, true, false, Option, some, List, [], ◌∷◌, length, take,
  ◌==◌, ◌>>=◌, arith,
}
use meshx.Base.Errno.{Ret, success}
use meshx.Crc.{crc}
use meshx.PbAdv.{Device, Out, adv, Env, delay, trans_ack}
use meshx.PbAdv.Timer.{start_delay, request_trans_ack}
use meshx.PbAdv.Trans.{recv_prov_pdu, finish_segment, recv_start, recv_continue, receive}
use meshx.PbAdv.Trans.Seen.{
  Ready, at, Seen, start_pdu, continue_pdu, receive-start_pdu, receive-continue_pdu,
}

-- Everything that was sent on the bearer is received, in order.
unfoldable pub receive_all : Env → Ret → List Out → List Device → Option (List Device)
receive_all env refused [] ds = some ds
receive_all env refused (o ∷ os) ds = elim o [
  | adv bearer bytes ↦
      receive env refused bearer bytes ds >>= λ (r, ds', out). receive_all env refused os ds'
  | _ ↦ receive_all env refused os ds
]

pub receive_all-next :
    (env : Env) (refused : Ret) (bearer : ℕ) (pdu : List ℕ) (os : List Out) (ds ds' : List Device)
    (r : Ret) (out : List Out)
    → receive env refused bearer pdu ds ≡ some (r, ds', out)
    → receive_all env refused (adv bearer pdu ∷ os) ds ≡ receive_all env refused os ds'
unfolding receive_all
receive_all-next env refused bearer pdu os ds ds' r out e =
    ap (λ o. o >>= λ (r, ds', out). receive_all env refused os ds') e

-- The device has the data and waits for the time to acknowledge them.
pub record Received (tn : ℕ) (bytes : List ℕ) (d u : Device) : Type 0 where
  pub all_bytes : take (length bytes) u.rx_pdu ≡ bytes
  pub total : u.trans_data_len ≡ length bytes
  pub number : u.rx_trans_num ≡ tn
  pub same_link : u.link_id ≡ d.link_id
  pub same_addr : u.addr ≡ d.addr
  pub waits : u.timer_state ≡ delay
  pub to_ack : u.timer_delay_type ≡ trans_ack

finish-more :
    (env : Env) (tn k n c m : ℕ) (block : List ℕ) (d : Device)
    → (m == 0) ≡ false
    → finish_segment env (at tn k n c m block d) ≡ at tn k n c m block d
unfolding finish_segment
finish-more env tn k n c m block d more = rw (finish_segment, more) refl

pub finish-all :
    (env : Env) (link tn k : ℕ) (block bytes : List ℕ) (d : Device)
    → Ready link tn d
    → take (length bytes) block ≡ bytes
    → let v = at tn k (length bytes) (crc bytes) 0 block d in
      finish_segment env v ≡ request_trans_ack env.rand v
unfolding finish_segment recv_prov_pdu
finish-all env link tn k block bytes d ready all =
    let running = ready.running in
    let good : (crc (take (length bytes) block) == crc bytes) ≡ true = rw all (ground arith) in
    rw (finish_segment, recv_prov_pdu, running, good) refl

pub request_trans_ack-Received :
    (rand link tn k : ℕ) (block bytes : List ℕ) (d : Device)
    → take (length bytes) block ≡ bytes
    → Received tn bytes d (request_trans_ack rand (at tn k (length bytes) (crc bytes) 0 block d))
unfolding request_trans_ack start_delay
request_trans_ack-Received rand link tn k block bytes d all = record {
  all_bytes = all;
  total = refl;
  number = refl;
  same_link = refl;
  same_addr = refl;
  waits = refl;
  to_ack = refl;
}

-- What receiving everything that was sent leads to.
abbrev pub Arrives : Env → Ret → ℕ → List ℕ → List Out → Device → Type 0
Arrives env refused tn bytes out d =
    (u : Device) × (receive_all env refused out (d ∷ []) ≡ some (u ∷ [])) × Received tn bytes d u

-- The first of several segments, a middle one and the last one.
pub first_arrives :
    (env : Env) (refused : Ret) (bearer link tn k n c m : ℕ) (part : List ℕ) (os : List Out)
    (d : Device)
    → Ready link tn d
    → n < 2 ^ 16
    → (m == 0) ≡ false
    → (s : Seen env tn k n c m part d (
        recv_start env
          (record { trans_num = tn; last_seg_num = k; total_len = n; fcs = c; bytes = part })
          d))
    → receive_all env refused (adv bearer (start_pdu link tn k n c part) ∷ os) (d ∷ [])
      ≡ receive_all env refused os (at tn k n c m s.block d ∷ [])
first_arrives env refused bearer link tn k n c m part os d ready word more s =
    let v = at tn k n c m s.block d in
    let eq = s.eq ∙ ap (λ x. some (success, x, [])) (finish-more env tn k n c m s.block d more) in
    receive_all-next env refused bearer (start_pdu link tn k n c part) os (d ∷ []) (v ∷ []) success
      []
      (receive-start_pdu env refused bearer link tn k n c part d v success [] ready.link_word word
        ready.same_link refl eq)

pub next_arrives :
    (env : Env) (refused : Ret) (bearer link tn k n c m m' index : ℕ) (block seen part : List ℕ)
    (os : List Out) (d : Device)
    → Ready link tn d
    → (m' == 0) ≡ false
    → (s : Seen env tn k n c m' seen d (recv_continue env tn index part (at tn k n c m block d)))
    → receive_all env refused
        (adv bearer (continue_pdu link tn index part) ∷ os)
        (at tn k n c m block d ∷ [])
      ≡ receive_all env refused os (at tn k n c m' s.block d ∷ [])
next_arrives env refused bearer link tn k n c m m' index block seen part os d ready more s =
    let w = at tn k n c m block d in
    let v = at tn k n c m' s.block d in
    let eq = s.eq ∙ ap (λ x. some (success, x, [])) (finish-more env tn k n c m' s.block d more) in
    receive_all-next env refused bearer (continue_pdu link tn index part) os (w ∷ []) (v ∷ [])
      success []
      (receive-continue_pdu env refused bearer link tn index part w v success [] ready.link_word
        ready.same_link refl eq)

pub last_arrives :
    (env : Env) (refused : Ret) (bearer link tn k m index : ℕ) (block seen part bytes : List ℕ)
    (d : Device)
    → Ready link tn d
    → seen ≡ bytes
    → Seen env tn k
        (length bytes)
        (crc bytes)
        0
        seen
        d
        (recv_continue env tn index part (at tn k (length bytes) (crc bytes) m block d))
    → (u : Device) × (receive_all env refused
          (adv bearer (continue_pdu link tn index part) ∷ [])
          (at tn k (length bytes) (crc bytes) m block d ∷ [])
        ≡ some (u ∷ []))
      × Received tn bytes d u
unfolding receive_all
last_arrives env refused bearer link tn k m index block seen part bytes d ready whole s =
    let w = at tn k (length bytes) (crc bytes) m block d in
    let u = request_trans_ack env.rand (at tn k (length bytes) (crc bytes) 0 s.block d) in
    let all : take (length bytes) s.block ≡ bytes =
      ap (λ l. take (length l) s.block) (sym whole) ∙ s.start ∙ whole in
    let received = request_trans_ack-Received env.rand link tn k s.block bytes d all in
    let eq =
      s.eq ∙ ap (λ x. some (success, x, [])) (finish-all env link tn k s.block bytes d ready all) in
    let e =
      receive-continue_pdu env refused bearer link tn index part w u success [] ready.link_word
        ready.same_link received.same_addr eq in
    (
      u,
      receive_all-next env refused bearer (continue_pdu link tn index part) [] (w ∷ []) (u ∷ [])
          success [] e,
      received,
    )
