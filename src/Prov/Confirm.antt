-- ===== src/Prov/Confirm.antt =====
-- Confirmations, session keys and the device key.
use meshx.Base.{ℕ, Bool, not, List, [], ◌∷◌, ◌++◌, if◌then◌else◌}
use meshx.Base.Bytes.{bytes_eq}
use meshx.Base.Errno.{Ret, success, inval, mem}
use meshx.Security.{Ciphers, s1, k1}
use meshx.PbAdv.{Role, device, provisioner}
use meshx.Prov.{Ecc, ProvDev}

-- What a provisioner and a device have in the same order: the provisioner's first.
abbrev pub in_order : Role → List ℕ → List ℕ → List ℕ
in_order device own remote = remote ++ own
in_order provisioner own remote = own ++ remote

-- The inputs of the confirmation salt.
abbrev pub confirmation_inputs : ProvDev → List ℕ
confirmation_inputs p =
    p.dev.contents.invite_pdu
    ++ (p.dev.contents.capabilites_pdu
        ++ (p.dev.contents.start_pdu
            ++ in_order p.dev.role p.dev.contents.public_key_pdu p.public_key_remote))

-- 'p', 'r' and two letters.
abbrev pub label : ℕ → ℕ → List ℕ
label a b = 0x70 ∷ 0x72 ∷ a ∷ b ∷ []

-- The confirmation for a random number, under a salt.
abbrev pub confirmation_value : Ciphers → ProvDev → List ℕ → List ℕ → List ℕ
confirmation_value c p salt rnd =
    c.cmac (k1 c p.share_secret salt (label 0x63 0x6b)) (rnd ++ p.auth_value)

-- meshx_prov_generate_confirmation
unfoldable pub generate_confirmation : Ciphers → Bool → ProvDev → List ℕ → Ret × ProvDev
generate_confirmation c allocated p rnd =
    if not allocated
    then (mem, p)
    else (let salt = s1 c (confirmation_inputs p) in
        (
          success,
          record p {
            confirmation_salt = salt;
            dev = record (p.dev) {
              contents = record (p.dev.contents) {
                confirmation_pdu = confirmation_value c p salt rnd;
              };
            };
          },
        ))

-- meshx_prov_verify_confirmation. The answer of the function above is not looked at.
unfoldable pub verify_confirmation : Ciphers → Bool → ProvDev → Bool × ProvDev
verify_confirmation c allocated p =
    let (r, p') = generate_confirmation c allocated p p.random_remote in
    (bytes_eq p'.dev.contents.confirmation_pdu p'.confirmation_remote, p')

-- meshx_prov_calculate_session_device_key
unfoldable pub calculate_session_device_key : Ciphers → ProvDev → ProvDev
calculate_session_device_key c p =
    let salt =
      s1 c (p.confirmation_salt ++ in_order p.dev.role p.dev.contents.random_pdu p.random_remote) in
    record p {
      session_key = k1 c p.share_secret salt (label 0x73 0x6b);
      session_nonce = k1 c p.share_secret salt (label 0x73 0x6e);
      device_key = k1 c p.share_secret salt (label 0x64 0x6b);
    }

-- meshx_prov_set_remote_public_key
unfoldable pub set_remote_public_key : Ecc → List ℕ → ProvDev → Ret × ProvDev
set_remote_public_key e key p =
    if e.validate key then (success, record p { public_key_remote = key }) else (inval, p)
