-- ===== src/Prov/Handshake.antt =====
-- A whole run: a provisioner and a device from the exchange of their public keys to the end.
pub mod Steps
pub mod RoundTrip
pub mod Run
use meshx.Base.{ℕ, ◌%◌, Bool, true, false, Option, none, some, List, [], ◌∷◌, ◌++◌, length, ◌>>=◌}
use meshx.Base.Errno.{Ret, is_success}
use meshx.Security.{Ciphers}
use meshx.PbAdv.{Device}
use meshx.PbAdv.Send.{pdu_of}
use meshx.Prov.{Ecc, ProvDev, ProvData, ProvEnv}
use meshx.Prov.Confirm.{generate_confirmation}
use meshx.Prov.Send.{prov_public_key, prov_confirmation, send_data}
use meshx.Prov.Process.{Notify, ProcessResult, pdu_process}

-- The application's calls when a step is due: it sends its own key, and its confirmation of its own
-- random number.
abbrev pub send_key : ProvEnv → ProvDev → ProvDev
send_key env p = (prov_public_key env p p.dev.contents.public_key_pdu).1

abbrev pub make_confirmation : Ciphers → ProvEnv → ProvDev → ProvDev
make_confirmation c env p = (generate_confirmation c env.allocated p p.dev.contents.random_pdu).1

abbrev pub send_confirmation : ProvEnv → ProvDev → ProvDev
send_confirmation env p = (prov_confirmation env p p.dev.contents.confirmation_pdu).1

-- Only what is processed with success.
abbrev pub succeeded : Ret × ProvDev × List Notify → Option (ProvDev × List Notify)
succeeded (r, p, out) = elim (is_success r) [ true ↦ some (p, out) | false ↦ none ]

-- The PDU of the sender's state reaches the receiver. In the buffer it is followed by what was there.
unfoldable pub deliver :
    Ciphers → Ecc → ProvEnv → List ℕ → ProvDev → ProvDev → Option (ProvDev × List Notify)
deliver c e env after p q = pdu_of p.dev p.dev.state >>= λ pdu.
    pdu_process c e env q (pdu ++ after) (length pdu % 256) >>= succeeded

-- The provisioner `a` and the device `b` at the end, and what the device's application is told last.
unfoldable pub provision :
    Ciphers
    → Ecc
    → ProvEnv
    → ProvEnv
    → List ℕ
    → ProvData
    → ProvDev
    → ProvDev
    → Option (ProvDev × ProvDev × List Notify)
provision c e env env' after d a b =
    let a1 = send_key env a in
    deliver c e env' after a1 b >>= λ (b1, _).
    let b2 = send_key env' b1 in
    deliver c e env after b2 a1 >>= λ (a2, _).
    let a3 = send_confirmation env (make_confirmation c env a2) in
    deliver c e env' after a3 (make_confirmation c env' b2) >>= λ (b3, _).
    deliver c e env after b3 a3 >>= λ (a4, _). deliver c e env' after a4 b3 >>= λ (b4, _).
    deliver c e env after b4 a4 >>= λ (a5, _).
    let a6 = (send_data c env a5 d).1 in
    deliver c e env' after a6 b4 >>= λ (b5, out).
    deliver c e env after b5 a6 >>= λ (a7, _). some (a7, b5, out)
