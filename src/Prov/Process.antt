-- ===== src/Prov/Process.antt =====
-- meshx_prov_pdu_process: a received PDU, one function for each of its types.
use meshx.Base.{
  ℕ, ◌%◌, Bool, not, Option, none, some, List, [], ◌∷◌, ◌++◌, take, drop, ltb, ◌==◌, if◌then◌else◌,
  ◌>>=◌,
}
use meshx.Base.Errno.{Ret, success, fail, inval, length as bad_length, resource, state as bad_state}
use meshx.Security.{Ciphers}
use meshx.PbAdv.{
  invite, capabilites, start, public_key, input_complete, confirmation, random, prov_data, complete,
  failed, rank, device, provisioner,
}
use meshx.Prov.{
  Ecc, ProvDev, Capabilites, ProvStart, ProvData, ProvEnv, of_capabilites, of_start, of_data, slice,
  moved,
}
use meshx.Prov.Auth.{validate_capabilites, validate_start, is_start_supported}
use meshx.Prov.Confirm.{verify_confirmation, calculate_session_device_key}
use meshx.Prov.Send.{prov_confirmation, prov_random, prov_complete, prov_failed}

-- What the application is notified of: MESHX_PROV_NOTIFY_INVITE to MESHX_PROV_NOTIFY_FAILED.
pub data Notify : Type 0 where
  notify_invite notify_public_key notify_confirmation notify_random : List ℕ → Notify
  notify_capabilites : Capabilites → Notify
  notify_start : ProvStart → Notify
  notify_input_complete notify_complete : Notify
  notify_data : ProvData → Notify
  notify_failed : ℕ → Notify

abbrev pub ProcessResult : Type 0
ProcessResult = Option (Ret × ProvDev × List Notify)

-- MESHX_PROV_FAILED_*
abbrev pub invalid_pdu : ℕ
invalid_pdu = 1

abbrev pub invalid_format : ℕ
invalid_format = 2

abbrev pub unexpected_pdu : ℕ
unexpected_pdu = 3

abbrev pub confirmation_failed : ℕ
confirmation_failed = 4

abbrev pub out_of_resource : ℕ
out_of_resource = 5

abbrev pub decryption_failed : ℕ
decryption_failed = 6

-- The branches that end the provisioning, and answer with an error.
abbrev pub give_up : ProvEnv → ProvDev → ℕ → Ret → ProcessResult
give_up env p err r = let (s, p') = prov_failed env p err in some (r, p', [])

-- The two checks that all types but the last have: of the length, and that the state is not a later one.
abbrev pub checked : ProvEnv → ℕ → ℕ → ProvDev → ℕ → ProcessResult → ProcessResult
checked env size last p len rest =
    if ltb len size
    then give_up env p invalid_format bad_length
    else if ltb last (rank p.dev.state)
    then give_up env p unexpected_pdu bad_state
    else rest

unfoldable pub process_invite : ProvEnv → ProvDev → ℕ → List ℕ → ProcessResult
process_invite env p len bytes = checked env 2 3 p len (
    slice 1 bytes >>= λ b.
    some
      (success, moved invite (record (p.dev.contents) { invite_pdu = b }) p, notify_invite b ∷ []))

unfoldable pub process_capabilites : ProvEnv → ProvDev → ℕ → List ℕ → ProcessResult
process_capabilites env p len bytes = checked env 12 4 p len (
    slice 11 bytes >>= λ b. of_capabilites b >>= λ caps.
    if not (validate_capabilites caps)
    then give_up env p invalid_format inval
    else some (
      success,
      moved capabilites (record (p.dev.contents) { capabilites_pdu = b }) p,
      notify_capabilites caps ∷ [],
    ))

unfoldable pub process_start : ProvEnv → ProvDev → ℕ → List ℕ → ProcessResult
process_start env p len bytes = checked env 6 5 p len (
    slice 5 bytes >>= λ b. of_start b >>= λ s.
    if not (validate_start s)
    then give_up env p invalid_format inval
    else (of_capabilites p.dev.contents.capabilites_pdu >>= λ caps.
        if not (is_start_supported caps s)
        then give_up env p out_of_resource resource
        else some (
          success,
          moved start (record (p.dev.contents) { start_pdu = b }) p,
          notify_start s ∷ [],
        )))

unfoldable pub process_public_key : Ecc → ProvEnv → ProvDev → ℕ → List ℕ → ProcessResult
process_public_key e env p len bytes = checked env 65 6 p len (
    slice 64 bytes >>= λ key.
    if not (e.validate key)
    then give_up env p invalid_format inval
    else some (
      success,
      record (moved public_key p.dev.contents p) {
        share_secret = e.shared_secret key p.dev.private_key;
        public_key_remote = key;
      },
      notify_public_key key ∷ [],
    ))

unfoldable pub process_input_complete : ProvEnv → ProvDev → ℕ → ProcessResult
process_input_complete env p len =
    checked env 1 7 p len
      (some (success, moved input_complete p.dev.contents p, notify_input_complete ∷ []))

-- A device answers with its confirmation, a provisioner with its random number.
abbrev pub answer_confirmation : ProvEnv → ProvDev → ProvDev
answer_confirmation env p = elim p.dev.role [
  | device ↦ (let (r, p') = prov_confirmation env p p.dev.contents.confirmation_pdu in p')
  | provisioner ↦ (let (r, p') = prov_random env p p.dev.contents.random_pdu in p')
]

unfoldable pub process_confirmation : ProvEnv → ProvDev → ℕ → List ℕ → ProcessResult
process_confirmation env p len bytes = checked env 17 8 p len (
    slice 16 bytes >>= λ cfm. some (
      success,
      answer_confirmation env
          (record (moved confirmation p.dev.contents p) { confirmation_remote = cfm }),
      notify_confirmation cfm ∷ [],
    ))

-- Only a device answers.
abbrev pub answer_random : ProvEnv → ProvDev → ProvDev
answer_random env p = elim p.dev.role [
  | device ↦ (let (r, p') = prov_random env p p.dev.contents.random_pdu in p')
  | provisioner ↦ p
]

unfoldable pub process_random : Ciphers → ProvEnv → ProvDev → ℕ → List ℕ → ProcessResult
process_random c env p len bytes = checked env 17 9 p len (
    slice 16 bytes >>= λ rnd.
    let (ok, p') = verify_confirmation c env.allocated (record p { random_remote = rnd }) in
    if not ok
    then give_up env p' confirmation_failed fail
    else some (
      success,
      calculate_session_device_key c (answer_random env (moved random p'.dev.contents p')),
      notify_random rnd ∷ [],
    ))

-- The data are decrypted into the device's, whose check value stays as it was.
abbrev pub open_data : Ciphers → ProvDev → List ℕ → List ℕ → Bool × ProvDev
open_data c p text mic =
    let (ok, plain) = c.ccm_decrypt p.session_key (drop 3 p.session_nonce) text mic in
    (
      ok,
      moved p.dev.state
          (record (p.dev.contents) { data_pdu = plain ++ drop 25 p.dev.contents.data_pdu }) p,
    )

unfoldable pub process_data : Ciphers → ProvEnv → ProvDev → ℕ → List ℕ → ProcessResult
process_data c env p len bytes = checked env 34 10 p len (
    slice 33 bytes >>= λ b.
    let (ok, p') = open_data c p (take 25 b) (drop 25 b) in
    if not ok
    then give_up env p' decryption_failed bad_state
    else (let (r, p'') = prov_complete env (moved prov_data p'.dev.contents p') in
        of_data p''.dev.contents.data_pdu >>= λ d. some (success, p'', notify_data d ∷ [])))

unfoldable pub process_complete : ProvEnv → ProvDev → ℕ → ProcessResult
process_complete env p len =
    checked env 1 11 p len (some (success, moved complete p.dev.contents p, notify_complete ∷ []))

unfoldable pub process_failed : ProvDev → ℕ → List ℕ → ProcessResult
process_failed p len bytes = if ltb len 2 then some (bad_length, p, []) else elim bytes [
  | [] ↦ none
  | err ∷ _ ↦ some (success, moved failed p.dev.contents p, notify_failed err ∷ [])
]

-- The type is in the six lower bits of the first byte.
unfoldable pub pdu_process : Ciphers → Ecc → ProvEnv → ProvDev → List ℕ → ℕ → ProcessResult
pdu_process c e env p [] len = none
pdu_process c e env p (t ∷ bytes) len =
    if t % 64 == 0
    then process_invite env p len bytes
    else if t % 64 == 1
    then process_capabilites env p len bytes
    else if t % 64 == 2
    then process_start env p len bytes
    else if t % 64 == 3
    then process_public_key e env p len bytes
    else if t % 64 == 4
    then process_input_complete env p len
    else if t % 64 == 5
    then process_confirmation env p len bytes
    else if t % 64 == 6
    then process_random c env p len bytes
    else if t % 64 == 7
    then process_data c env p len bytes
    else if t % 64 == 8
    then process_complete env p len
    else if t % 64 == 9
    then process_failed p len bytes
    else give_up env p invalid_pdu success
