-- ===== src/Prov/Events/Forward.antt =====
-- The states of a device are taken in their order.
use mathlib.Core.Path.{subst}
use meshx.Base.{
  ◌≡◌, sym, ap, ◌∙◌, Option, Option-cases, inl, inr, none, some, List, [], ◌∷◌, ◌>>=◌, arith,
}
use meshx.Security.{Ciphers}
use meshx.PbAdv.Timer.{
  link_close, handle_device_timeout, start_delay, request_invite, request_capabilites,
  request_start, request_public_key, request_input_complete, request_confirmation, request_random,
  request_data, request_complete, role_require_trans_num, dev_require_trans_num,
  prov_require_trans_num,
}
use meshx.Prov.{Ecc, ProvDev, ProvEnv}
use meshx.Prov.Auth.{
  AuthValue, no_oob, static_oob, output_oob, input_oob, other_method, set_auth_value,
}
use meshx.Prov.Confirm.{generate_confirmation, set_remote_public_key}
use meshx.Prov.Send.{
  prov_invite, prov_capabilites, prov_start, prov_public_key, prov_input_complete,
  prov_confirmation, prov_random, send_data, prov_complete,
}
use meshx.Prov.Process.{pdu_process}
use meshx.Prov.Ensures.{Ensures}
use meshx.Prov.Order.{Later, prov_failed-Later, pdu_process-Later}
use meshx.Prov.Events.Link.{prov_link_open-Later, receive_ctl-Later, timeout-Later}
use meshx.Prov.Events.{
  Event, invite, public_key, confirmation, random, remote_key, confirm, capabilites, start,
  prov_data, input_complete, complete, failed, close, auth, pdu, link, ctl, timeout, receive_ctl,
  happen, run_events,
}

-- After an event, if there is an after.
abbrev Forward : ProvDev → Option ProvDev → Type 0
Forward p none = Unit
Forward p (some p') = Later p.dev.state p'.dev.state

set_auth_value-Forward : (v : AuthValue) (p : ProvDev) → Forward p (set_auth_value v p)
unfolding set_auth_value
set_auth_value-Forward no_oob p = ground arith
set_auth_value-Forward (static_oob bytes) p = ground arith
set_auth_value-Forward (output_oob o) p = ground arith
set_auth_value-Forward (input_oob o) p = ground arith
set_auth_value-Forward other_method p = ground arith

happen-Forward :
    (c : Ciphers) (e : Ecc) (env : ProvEnv) (ev : Event) (p : ProvDev)
    → Forward p (happen c e env ev p)
unfolding prov_invite prov_capabilites prov_start prov_public_key prov_input_complete
    prov_confirmation prov_random send_data prov_complete link_close request_invite
    request_capabilites request_start request_public_key request_input_complete request_confirmation
    request_random request_data request_complete start_delay role_require_trans_num
    dev_require_trans_num prov_require_trans_num generate_confirmation set_remote_public_key
happen-Forward c e env (invite bytes) p = ground arith
happen-Forward c e env (public_key key) p = ground arith
happen-Forward c e env (confirmation cfm) p = ground arith
happen-Forward c e env (random rnd) p = ground arith
happen-Forward c e env (remote_key key) p = ground arith
happen-Forward c e env (confirm rnd) p = ground arith
happen-Forward c e env (capabilites caps) p = ground arith
happen-Forward c e env (start s) p = ground arith
happen-Forward c e env (prov_data d) p = ground arith
happen-Forward c e env input_complete p = ground arith
happen-Forward c e env complete p = ground arith
happen-Forward c e env (failed err) p = prov_failed-Later env p err
happen-Forward c e env (close reason) p = ground arith
happen-Forward c e env (auth v) p = set_auth_value-Forward v p
happen-Forward c e env (pdu bytes len) p = elim (Option-cases (pdu_process c e env p bytes len)) [
  | inl h ↦ rw h tt
  | inr ((r, p', out), h) ↦ rw h (
      subst (Ensures (λ r p' out. Later p.dev.state p'.dev.state)) h
        (pdu_process-Later c e env p bytes len))
]
happen-Forward c e env (link pb) p = prov_link_open-Later pb p
happen-Forward c e env (ctl pb refused bearer len pkt) p =
    elim (Option-cases (receive_ctl pb refused bearer len pkt p)) [
      | inl h ↦ rw h tt
      | inr (p', h) ↦ rw h (receive_ctl-Later pb refused bearer len pkt p p' h)
    ]
happen-Forward c e env (timeout pb) p = elim (Option-cases (handle_device_timeout pb p.dev)) [
  | inl h ↦ rw h tt
  | inr ((d, out), h) ↦ rw h (timeout-Later pb p.dev d out h)
]

Later-trans :
    (p q r : ProvDev)
    → Later p.dev.state q.dev.state
    → Later q.dev.state r.dev.state
    → Later p.dev.state r.dev.state
Later-trans p q r h k = omega (arith, h, k)

-- Whatever calls of meshx_prov.h are made for a device (those that open and close its link included),
-- whatever provisioning PDUs and PDUs about links it receives, as the only device there is, and whenever
-- its timer ends, in any order: the state is never one before the state at the start, but for FAILED
-- after LINK_CLOSING. In particular a provisioning that has failed or whose link is closed is not taken up
-- again with that device; one that is deleted and made anew is not spoken of.
pub run_events-Later :
    (c : Ciphers) (e : Ecc) (evs : List (ProvEnv × Event)) (p p' : ProvDev)
    → run_events c e evs p ≡ some p'
    → Later p.dev.state p'.dev.state
unfolding run_events
run_events-Later c e [] p p' h = let same : p ≡ p' = cc h in rw (sym same) (ground arith)
run_events-Later c e ((env, ev) ∷ evs) p p' h = elim (Option-cases (happen c e env ev p)) [
  | inl k ↦
      (let never : none ≡ some p' = sym (ap (λ o. o >>= run_events c e evs) k) ∙ h in
        absurd (cc never))
  | inr (q, k) ↦
      Later-trans p q p' (subst (Forward p) k (happen-Forward c e env ev p))
        (run_events-Later c e evs q p' (sym (ap (λ o. o >>= run_events c e evs) k) ∙ h))
]
