-- ===== src/Prov/Events/Link.antt =====
-- Links that are opened and closed take the states in their order too.
use mathlib.Core.Path.{subst}
use meshx.Base.{
  ℕ, suc, ◌%◌, ◌≡◌, ◌⊎◌, inl, inr, refl, ap, ◌∙◌, true, false, Bool-cases, Option, Option-cases,
  none, some, List, [], ◌∷◌, ◌==◌, ◌&&◌, arith,
}
use meshx.Base.Bytes.{bytes_eq}
use meshx.Base.Errno.{Ret}
use meshx.PbAdv.{Env, Pkt, Device, Role, device, Out, put, find_by_link_id, find_device}
use meshx.PbAdv.Timer.{
  link_close, handle_device_timeout, handle_delay, handle_delay_ack, handle_delay_pdu, handle_retry,
  handle_link_loss, retry_opening, retry_closing, retry_pdu, request_failed, start_delay,
  dev_require_trans_num,
}
use meshx.PbAdv.Link.{
  link_open, link_ack, pb_adv_create_device, create_device, recv_link_open_by, recv_link_open,
  recv_link_ack, recv_link_close, recv_bearer_ctl, Result, zero_device,
}
use meshx.Prov.{ProvDev}
use meshx.Prov.Order.{Later}
use meshx.Prov.Events.{prov_link_open, receive_ctl}

pub prov_link_open-Later :
    (env : Env) (p : ProvDev) → Later p.dev.state (prov_link_open env p).1.dev.state
unfolding prov_link_open link_open
prov_link_open-Later env p = ground arith

-- The first device after a PDU.
abbrev Led : Device → Result → Type 0
Led d none = Unit
Led d (some (r, [], out)) = Unit
Led d (some (r, d' ∷ ds, out)) = Later d.state d'.state

-- A device that is the first one in its state, or another one.
abbrev IsOf : Device → Device → Type 0
IsOf d d' = (d'.state ≡ d.state) ⊎ ((d.addr == d'.addr) ≡ false)

recv_link_open_by-Led :
    (env : Env) (refused : Ret) (bearer link : ℕ) (d d' : Device) (ds : List Device)
    → IsOf d d'
    → Led d (some (recv_link_open_by env refused bearer link d' (d ∷ ds)))
unfolding recv_link_open_by link_ack put
recv_link_open_by-Led env refused bearer link d d' ds h = ground arith

-- The device that is answered.
abbrev keyed : Env → ℕ → List ℕ → Role → Device → Device
keyed env bearer uuid role d = record d {
  id = env.rand % 255;
  role = role;
  bearer = bearer;
  dev_uuid = uuid;
  private_key = env.new_private_key;
  contents = record (d.contents) {
    public_key_pdu = env.new_public_key;
    random_pdu = env.new_random;
  };
}

-- create_device after pb_adv_create_device.
abbrev after_created :
    Env → ℕ → List ℕ → Role → Option Device × List Device → Option Device × List Device
after_created env bearer uuid role (o, ds) = elim o [
  | none ↦ (none, ds)
  | some d ↦ (some (keyed env bearer uuid role d), put (keyed env bearer uuid role d) ds)
]

-- What create_device does with one device that is there: it is the one, or another device is put behind it.
create_device-one :
    (env : Env) (bearer : ℕ) (uuid : List ℕ) (role : Role) (d : Device)
    → env.new_addr ≡ suc d.addr
    → (create_device env bearer uuid role (d ∷ []) ≡ (none, d ∷ []))
      ⊎ ((d1 d' : Device) × (ds : List Device) × (create_device env bearer uuid role (d ∷ [])
            ≡ (some d', d1 ∷ ds))
          × (d1.state ≡ d.state)
          × IsOf d1 d')
unfolding create_device pb_adv_create_device find_device put zero_device
create_device-one env bearer uuid role d fresh =
    let here : (d.addr == d.addr) ≡ true = ground arith in
    let apart : (d.addr == env.new_addr) ≡ false = ground (arith, fresh) in
    let back : (env.new_addr == env.new_addr) ≡ true = ground arith in
    let u = keyed env bearer uuid role d in
    let v = keyed env bearer uuid role (zero_device env.new_addr) in
    let put_u : put u (d ∷ []) ≡ u ∷ [] = rw (put, here) refl in
    let put_v : put v (d ∷ zero_device env.new_addr ∷ []) ≡ d ∷ v ∷ [] =
      rw (put, apart, back) refl in
    elim (Bool-cases (bytes_eq d.dev_uuid uuid && (d.bearer == bearer))) [
      | inl found ↦
          let one : pb_adv_create_device env bearer uuid (d ∷ []) ≡ (some d, d ∷ []) =
            rw (pb_adv_create_device, find_device, found) refl in
          inr (
            u,
            u,
            [],
            ap (after_created env bearer uuid role) one ∙ ap (λ ds. (some u, ds)) put_u,
            refl,
            inl refl,
          )
      | inr missing ↦ elim (Bool-cases (env.allocated && env.timer_created)) [
        | inl made ↦
            let two : pb_adv_create_device env bearer uuid (d ∷ [])
                ≡ (some (zero_device env.new_addr), d ∷ zero_device env.new_addr ∷ []) =
              rw (pb_adv_create_device, find_device, missing, made) refl in
            inr (
              d,
              v,
              v ∷ [],
              ap (after_created env bearer uuid role) two ∙ ap (λ ds. (some v, ds)) put_v,
              refl,
              inr apart,
            )
        | inr refused ↦
            let same : pb_adv_create_device env bearer uuid (d ∷ []) ≡ (none, d ∷ []) =
              rw (pb_adv_create_device, find_device, missing, refused) refl in
            inl (ap (after_created env bearer uuid role) same)
      ]
    ]

recv_link_open-Led :
    (env : Env) (refused : Ret) (bearer len : ℕ) (p : Pkt) (d : Device)
    → env.new_addr ≡ suc d.addr
    → Led d (recv_link_open env refused bearer len p (d ∷ []))
unfolding recv_link_open
recv_link_open-Led env refused bearer len p d fresh =
    elim (create_device-one env bearer env.node_uuid device d fresh) [
      | inl e ↦ ground (arith, e)
      | inr (d1, d', ds, e, same, of) ↦
          ground (arith, e, same, recv_link_open_by-Led env refused bearer p.link_id d1 d' ds of)
    ]

recv_link_ack-Led : (len : ℕ) (p : Pkt) (d : Device) → Led d (recv_link_ack len p (d ∷ []))
unfolding recv_link_ack find_by_link_id put
recv_link_ack-Led len p d = ground arith

recv_link_close-Led : (len : ℕ) (p : Pkt) (d : Device) → Led d (recv_link_close len p (d ∷ []))
unfolding recv_link_close find_by_link_id put
recv_link_close-Led len p d = ground arith

recv_bearer_ctl-Led :
    (env : Env) (refused : Ret) (bearer len : ℕ) (p : Pkt) (d : Device)
    → env.new_addr ≡ suc d.addr
    → Led d (recv_bearer_ctl env refused bearer len p (d ∷ []))
unfolding recv_bearer_ctl
recv_bearer_ctl-Led env refused bearer len p d fresh = ground (
  arith,
  recv_link_open-Led env refused bearer len p d fresh,
  recv_link_ack-Led len p d,
  recv_link_close-Led len p d,
)

pub timeout-Later :
    (env : Env) (d d' : Device) (out : List Out)
    → handle_device_timeout env d ≡ some (d', out)
    → Later d.state d'.state
unfolding handle_device_timeout handle_delay handle_delay_ack handle_delay_pdu handle_retry
    handle_link_loss retry_opening retry_closing retry_pdu request_failed start_delay
    dev_require_trans_num link_close
timeout-Later env d d' out h = ground arith

pub receive_ctl-Later :
    (env : Env) (refused : Ret) (bearer len : ℕ) (pkt : Pkt) (p p' : ProvDev)
    → receive_ctl env refused bearer len pkt p ≡ some p'
    → Later p.dev.state p'.dev.state
unfolding receive_ctl
receive_ctl-Later env refused bearer len pkt p p' h =
    let env' : Env = record env { new_addr = suc p.dev.addr } in
    let led = recv_bearer_ctl-Led env' refused bearer len pkt p.dev refl in
    elim (Option-cases (recv_bearer_ctl env' refused bearer len pkt (p.dev ∷ []))) [
      | inl e ↦ ground (arith, e)
      | inr ((r, [], out), e) ↦ ground (arith, e)
      | inr ((r, d ∷ ds, out), e) ↦
          let first : Led p.dev (some (r, d ∷ ds, out)) = subst (Led p.dev) e led in
          ground (arith, e, first)
    ]
