-- ===== src/Prov/Send.antt =====
-- The calls by which messages are sent: each checks the state, moves it and hands over to the bearer.
use meshx.Base.{ℕ, Bool, ◌||◌, none, some, List, ◌++◌, drop, ltb, ◌==◌, if◌then◌else◌}
use meshx.Base.Errno.{Ret, success, inval, already, state as bad_state}
use meshx.Security.{Ciphers}
use meshx.PbAdv.{
  invite, capabilites, start, public_key, input_complete, confirmation, random, prov_data, complete,
  failed, rank, Device,
}
use meshx.PbAdv.Timer.{
  request_invite, request_capabilites, request_start, request_public_key, request_input_complete,
  request_confirmation, request_random, request_data, request_complete, request_failed,
}
use meshx.Prov.{
  adv_bearer, gatt_bearer, other_bearer, ProvDev, Capabilites, ProvStart, ProvData, ProvEnv,
  capabilites_bytes, start_bytes, data_text, moved,
}

-- The switch on the type of the bearer, with which each of the calls ends.
abbrev pub on_bearer : (Device → Device) → ProvDev → Ret × ProvDev
on_bearer request p = elim p.bearer_type [
  | adv_bearer ↦ (success, record p { dev = request p.dev })
  | gatt_bearer ↦ (success, p)
  | other_bearer ↦ (inval, p)
]

-- Is the state outside of the two bounds?
abbrev pub outside : ℕ → ℕ → ProvDev → Bool
outside first last p = ltb (rank p.dev.state) first || ltb last (rank p.dev.state)

-- meshx_prov_invite
unfoldable pub prov_invite : ProvEnv → ProvDev → List ℕ → Ret × ProvDev
prov_invite env p bytes =
    if outside 2 3 p
    then (bad_state, p)
    else if rank p.dev.state == 3
    then (already, p)
    else on_bearer (request_invite env.rand)
        (moved invite (record (p.dev.contents) { invite_pdu = bytes }) p)

-- meshx_prov_capabilites
unfoldable pub prov_capabilites : ProvEnv → ProvDev → Capabilites → Ret × ProvDev
prov_capabilites env p caps =
    let caps' : Capabilites = elim env.samples [ none ↦ caps | some s ↦ s.capabilites ] in
    if outside 3 4 p
    then (bad_state, p)
    else if rank p.dev.state == 4
    then (already, p)
    else on_bearer (request_capabilites env.rand) (
        moved capabilites (record (p.dev.contents) { capabilites_pdu = capabilites_bytes caps' }) p)

-- meshx_prov_start
unfoldable pub prov_start : ProvEnv → ProvDev → ProvStart → Ret × ProvDev
prov_start env p s =
    let s' : ProvStart = elim env.samples [ none ↦ s | some t ↦ t.start ] in
    if outside 4 5 p
    then (bad_state, p)
    else if rank p.dev.state == 5
    then (already, p)
    else on_bearer (request_start env.rand)
        (moved start (record (p.dev.contents) { start_pdu = start_bytes s' }) p)

-- meshx_prov_public_key
unfoldable pub prov_public_key : ProvEnv → ProvDev → List ℕ → Ret × ProvDev
prov_public_key env p key =
    if outside 5 6 p
    then (bad_state, p)
    else on_bearer (request_public_key env.rand)
        (moved public_key (record (p.dev.contents) { public_key_pdu = key }) p)

-- meshx_prov_input_complete
unfoldable pub prov_input_complete : ProvEnv → ProvDev → Ret × ProvDev
prov_input_complete env p =
    if outside 6 7 p
    then (bad_state, p)
    else on_bearer (request_input_complete env.rand) (moved input_complete p.dev.contents p)

-- meshx_prov_confirmation
unfoldable pub prov_confirmation : ProvEnv → ProvDev → List ℕ → Ret × ProvDev
prov_confirmation env p cfm =
    if outside 6 8 p
    then (bad_state, p)
    else on_bearer (request_confirmation env.rand)
        (moved confirmation (record (p.dev.contents) { confirmation_pdu = cfm }) p)

-- meshx_prov_random
unfoldable pub prov_random : ProvEnv → ProvDev → List ℕ → Ret × ProvDev
prov_random env p rnd =
    if outside 8 9 p
    then (bad_state, p)
    else on_bearer (request_random env.rand)
        (moved random (record (p.dev.contents) { random_pdu = rnd }) p)

-- The PDU of the data, encrypted under the session key with 13 bytes of the nonce.
abbrev pub sealed : Ciphers → ProvDev → ProvData → List ℕ
sealed c p d =
    let (text, mic) = c.ccm_encrypt p.session_key (drop 3 p.session_nonce) (data_text d) 8 in
    text ++ mic

-- meshx_prov_data
unfoldable pub send_data : Ciphers → ProvEnv → ProvDev → ProvData → Ret × ProvDev
send_data c env p d =
    let d' : ProvData = elim env.samples [ none ↦ d | some s ↦ s.prov_data ] in
    if outside 9 10 p
    then (bad_state, p)
    else if rank p.dev.state == 10
    then (already, p)
    else on_bearer (request_data env.rand)
        (moved prov_data (record (p.dev.contents) { data_pdu = sealed c p d' }) p)

-- meshx_prov_complete
unfoldable pub prov_complete : ProvEnv → ProvDev → Ret × ProvDev
prov_complete env p =
    if outside 10 11 p
    then (bad_state, p)
    else if rank p.dev.state == 11
    then (already, p)
    else on_bearer (request_complete env.rand) (moved complete p.dev.contents p)

-- meshx_prov_failed
unfoldable pub prov_failed : ProvEnv → ProvDev → ℕ → Ret × ProvDev
prov_failed env p err =
    if ltb (rank p.dev.state) 3
    then (bad_state, p)
    else if (rank p.dev.state == 11) || (rank p.dev.state == 12)
    then (already, p)
    else on_bearer (request_failed env.rand)
        (moved failed (record (p.dev.contents) { err_code = err }) p)
