-- ===== src/Prov/Events.antt =====
-- Any sequence of calls and of received PDUs, for one device of this side.
pub mod Forward
pub mod Link
use meshx.Base.{ℕ, suc, Bool, Option, none, some, List, [], ◌∷◌, ◌>>=◌}
use meshx.Security.{Ciphers}
use meshx.Base.Errno.{Ret, inval}
use meshx.PbAdv.{Env, Pkt, Device, Out}
use meshx.PbAdv.Timer.{link_close, handle_device_timeout}
use meshx.PbAdv.Link.{link_open, recv_bearer_ctl}
use meshx.Prov.{adv_bearer, Ecc, ProvDev, Capabilites, ProvStart, ProvData, ProvEnv}
use meshx.Prov.Auth.{AuthValue, set_auth_value}
use meshx.Prov.Confirm.{generate_confirmation, set_remote_public_key}
use meshx.Prov.Send.{
  prov_invite, prov_capabilites, prov_start, prov_public_key, prov_input_complete,
  prov_confirmation, prov_random, send_data, prov_complete, prov_failed,
}
use meshx.Prov.Process.{pdu_process}

-- meshx_prov_link_open
unfoldable pub prov_link_open : Env → ProvDev → Ret × ProvDev × List Out
prov_link_open env p = elim p.bearer_type [
  | adv_bearer ↦ let (r, d, out) = link_open env p.dev in (r, record p { dev = d }, out)
  | _ ↦ (inval, p, [])
]

-- A bearer control PDU, when this device is the only one that there is; a device that is made for the PDU
-- stands at another address.
unfoldable pub receive_ctl : Env → Ret → ℕ → ℕ → Pkt → ProvDev → Option ProvDev
receive_ctl env refused bearer len pkt p =
    recv_bearer_ctl (record env { new_addr = suc p.dev.addr }) refused bearer len pkt (p.dev ∷ [])
    >>= λ (r, ds, out). elim ds [ [] ↦ none | d ∷ _ ↦ some (record p { dev = d }) ]

-- The functions of meshx_prov.h that change a device, with their arguments, a provisioning PDU with its
-- length, a PDU that opens, accepts or closes a link, and the end of the device's timer.
pub data Event : Type 0 where
  invite public_key confirmation random remote_key confirm : List ℕ → Event
  capabilites : Capabilites → Event
  start : ProvStart → Event
  prov_data : ProvData → Event
  input_complete complete : Event
  failed close : ℕ → Event
  auth : AuthValue → Event
  pdu : List ℕ → ℕ → Event
  link : Env → Event
  ctl : Env → Ret → ℕ → ℕ → Pkt → Event
  timeout : Env → Event

abbrev pub happen : Ciphers → Ecc → ProvEnv → Event → ProvDev → Option ProvDev
happen c e env (invite bytes) p = some (prov_invite env p bytes).1
happen c e env (public_key key) p = some (prov_public_key env p key).1
happen c e env (confirmation cfm) p = some (prov_confirmation env p cfm).1
happen c e env (random rnd) p = some (prov_random env p rnd).1
happen c e env (remote_key key) p = some (set_remote_public_key e key p).1
happen c e env (confirm rnd) p = some (generate_confirmation c env.allocated p rnd).1
happen c e env (capabilites caps) p = some (prov_capabilites env p caps).1
happen c e env (start s) p = some (prov_start env p s).1
happen c e env (prov_data d) p = some (send_data c env p d).1
happen c e env input_complete p = some (prov_input_complete env p).1
happen c e env complete p = some (prov_complete env p).1
happen c e env (failed err) p = some (prov_failed env p err).1
happen c e env (close reason) p = some (record p { dev = (link_close reason p.dev).1 })
happen c e env (auth v) p = set_auth_value v p
happen c e env (pdu bytes len) p = pdu_process c e env p bytes len >>= λ (r, p', out). some p'
happen c e env (link pb) p = some (prov_link_open pb p).1
happen c e env (ctl pb refused bearer len pkt) p = receive_ctl pb refused bearer len pkt p
happen c e env (timeout pb) p =
    handle_device_timeout pb p.dev >>= λ (d, out). some (record p { dev = d })

-- `none` when an event reads out of bounds.
unfoldable pub run_events : Ciphers → Ecc → List (ProvEnv × Event) → ProvDev → Option ProvDev
run_events c e [] p = some p
run_events c e ((env, ev) ∷ evs) p = happen c e env ev p >>= run_events c e evs
