-- ===== src/Prov/Handshake/Run.antt =====
-- The run, message by message, of two sides with what they have in common.
use meshx.Base.{ℕ, ◌≡◌, refl, sym, ap, ◌∙◌, true, none, some, List, [], ◌∷◌, ◌++◌, length, drop}
use meshx.Base.Bytes.{bytes_eq, bytes_eq_refl}
use meshx.Security.{Ciphers, s1, k1}
use meshx.Net.Undone.{IsSound}
use meshx.PbAdv.{start, public_key, confirmation, random, prov_data, complete, device, provisioner}
use meshx.PbAdv.Send.{pdu_of}
use meshx.PbAdv.Timer.{
  start_delay, request_public_key, request_confirmation, request_random, request_data,
  request_complete, role_require_trans_num, dev_require_trans_num, prov_require_trans_num,
}
use meshx.Prov.{Ecc, ProvDev, ProvData, ProvEnv, adv_bearer, moved, data_text}
use meshx.Prov.Confirm.{
  generate_confirmation, verify_confirmation, calculate_session_device_key, label,
  confirmation_value, confirmation_inputs,
}
use meshx.Prov.Send.{prov_public_key, prov_confirmation, prov_random, prov_complete, send_data}
use meshx.Prov.Process.{
  Notify, notify_data, notify_public_key, notify_confirmation, notify_random, notify_complete,
  answer_confirmation, answer_random,
}
use meshx.Prov.Data.{Sized, length-data_text, of_data-data_text}
use meshx.Prov.Handshake.{send_key, make_confirmation, send_confirmation, deliver, provision}
use meshx.Prov.Handshake.Steps.{
  deliver-public_key, deliver-confirmation, deliver-random, deliver-data, deliver-complete,
}

-- Memory is there, and no sample data are used.
abbrev pub running : ℕ → ProvEnv
running r = record { rand = r; allocated = true; samples = none }

-- What is relied on for the keys of both sides: they are valid, and the secret is the same.
pub record KeysAgree (e : Ecc) (a b : ProvDev) : Type 0 where
  pub valid_a : e.validate a.dev.contents.public_key_pdu ≡ true
  pub valid_b : e.validate b.dev.contents.public_key_pdu ≡ true
  pub same_secret :
      e.shared_secret b.dev.contents.public_key_pdu a.dev.private_key
      ≡ e.shared_secret a.dev.contents.public_key_pdu b.dev.private_key
  pub key_length_a : length a.dev.contents.public_key_pdu ≡ 64
  pub key_length_b : length b.dev.contents.public_key_pdu ≡ 64
  pub random_length_a : length a.dev.contents.random_pdu ≡ 16
  pub random_length_b : length b.dev.contents.random_pdu ≡ 16

-- The two sides with what they have in common.
abbrev pub as_provisioner : ProvDev → ProvDev
as_provisioner a = record a {
  bearer_type = adv_bearer;
  dev = record (a.dev) { role = provisioner; state = start };
}

abbrev pub as_device : ProvDev → ProvDev → ProvDev
as_device a b = record b {
  bearer_type = adv_bearer;
  auth_value = a.auth_value;
  dev = record (b.dev) {
    role = device;
    state = start;
    contents = record (b.dev.contents) {
      invite_pdu = a.dev.contents.invite_pdu;
      capabilites_pdu = a.dev.contents.capabilites_pdu;
      start_pdu = a.dev.contents.start_pdu;
    };
  };
}

-- Each state is complete, the keys are the same, and the device is told the data.
pub record Provisioned (d : ProvData) (mic : List ℕ) (a b : ProvDev) (out : List Notify)
    : Type 0 where
  pub complete_a : a.dev.state ≡ complete
  pub complete_b : b.dev.state ≡ complete
  pub same_device : a.device_key ≡ b.device_key
  pub same_session : a.session_key ≡ b.session_key
  pub same_nonce : a.session_nonce ≡ b.session_nonce
  pub told : out ≡ notify_data (record d { mic = mic }) ∷ []

bytes_eq_of : (xs ys : List ℕ) → xs ≡ ys → bytes_eq xs ys ≡ true
bytes_eq_of xs ys h = ap (bytes_eq xs) (sym h) ∙ bytes_eq_refl xs

module _ (c : Ciphers) (e : Ecc) (r r' : ℕ) (d : ProvData) (a0 b0 : ProvDev) where
  -- The sides after each message, by the order of the messages.
  abbrev a1 : ProvDev
  a1 = send_key (running r) (as_provisioner a0)

  abbrev keyed : ProvDev → List ℕ → ProvDev
  keyed p key = record (moved public_key p.dev.contents p) {
    share_secret = e.shared_secret key p.dev.private_key;
    public_key_remote = key;
  }

  abbrev b1 : ProvDev
  b1 = keyed (as_device a0 b0) a0.dev.contents.public_key_pdu

  abbrev b2 : ProvDev
  b2 = send_key (running r') b1

  abbrev a2 : ProvDev
  a2 = keyed a1 b0.dev.contents.public_key_pdu

  abbrev a3 : ProvDev
  a3 = send_confirmation (running r) (make_confirmation c (running r) a2)

  abbrev b2' : ProvDev
  b2' = make_confirmation c (running r') b2

  abbrev b3 : ProvDev
  b3 = answer_confirmation (running r') (record (moved confirmation b2'.dev.contents b2') {
    confirmation_remote = a3.dev.contents.confirmation_pdu;
  })

  abbrev a4 : ProvDev
  a4 = answer_confirmation (running r) (record (moved confirmation a3.dev.contents a3) {
    confirmation_remote = b3.dev.contents.confirmation_pdu;
  })

  abbrev verified : ℕ → ProvDev → List ℕ → ProvDev
  verified n p rnd =
      let v = (verify_confirmation c true (record p { random_remote = rnd })).1 in
      calculate_session_device_key c (answer_random (running n) (moved random v.dev.contents v))

  abbrev pub b4 : ProvDev
  b4 = verified r' b3 a4.dev.contents.random_pdu

  abbrev pub a5 : ProvDev
  a5 = verified r a4 b4.dev.contents.random_pdu

  abbrev pub a6 : ProvDev
  a6 = (send_data c (running r) a5 d).1

  abbrev pub b5 : ProvDev
  b5 =
      (prov_complete (running r') (
        moved prov_data
          (record (b4.dev.contents) { data_pdu = data_text d ++ drop 25 b4.dev.contents.data_pdu })
          b4)).1

  module _ (after : List ℕ) (sound : IsSound c)
      (mac : (key text : List ℕ) → length (c.cmac key text) ≡ 16) (agree : KeysAgree e a0 b0)
      (sized : Sized d) where
    same_confirmation :
        (salt rnd : List ℕ) → confirmation_value c b1 salt rnd ≡ confirmation_value c a2 salt rnd
    unfolding prov_public_key request_public_key start_delay role_require_trans_num
        prov_require_trans_num dev_require_trans_num
    same_confirmation salt rnd =
        ap (λ s. c.cmac (k1 c s salt (label 0x63 0x6b)) (rnd ++ a0.auth_value))
          (sym agree.same_secret)

    key_a :
        deliver c e (running r') after a1 (as_device a0 b0)
        ≡ some (b1, notify_public_key a0.dev.contents.public_key_pdu ∷ [])
    unfolding prov_public_key request_public_key prov_confirmation request_confirmation prov_random
        request_random start_delay role_require_trans_num dev_require_trans_num
        prov_require_trans_num pdu_of generate_confirmation verify_confirmation
        calculate_session_device_key
    key_a =
        deliver-public_key c e (running r') after a1 (as_device a0 b0)
          a0.dev.contents.public_key_pdu refl agree.key_length_a agree.valid_a refl

    key_b :
        deliver c e (running r) after (send_key (running r') b1) a1
        ≡ some (a2, notify_public_key b0.dev.contents.public_key_pdu ∷ [])
    unfolding prov_public_key request_public_key prov_confirmation request_confirmation prov_random
        request_random start_delay role_require_trans_num dev_require_trans_num
        prov_require_trans_num pdu_of generate_confirmation verify_confirmation
        calculate_session_device_key
    key_b =
        deliver-public_key c e (running r) after (send_key (running r') b1) a1
          b0.dev.contents.public_key_pdu refl agree.key_length_b agree.valid_b refl

    confirm_a :
        deliver c e (running r') after a3 b2'
        ≡ some (b3, notify_confirmation a3.dev.contents.confirmation_pdu ∷ [])
    unfolding prov_public_key request_public_key prov_confirmation request_confirmation prov_random
        request_random start_delay role_require_trans_num dev_require_trans_num
        prov_require_trans_num pdu_of generate_confirmation verify_confirmation
        calculate_session_device_key
    confirm_a =
        deliver-confirmation c e (running r') after a3 b2' a3.dev.contents.confirmation_pdu refl
          (mac _ _) refl

    confirm_b :
        deliver c e (running r) after b3 a3
        ≡ some (a4, notify_confirmation b3.dev.contents.confirmation_pdu ∷ [])
    unfolding prov_public_key request_public_key prov_confirmation request_confirmation prov_random
        request_random start_delay role_require_trans_num dev_require_trans_num
        prov_require_trans_num pdu_of generate_confirmation verify_confirmation
        calculate_session_device_key
    confirm_b =
        deliver-confirmation c e (running r) after b3 a3 b3.dev.contents.confirmation_pdu refl
          (mac _ _) refl

    random_a :
        deliver c e (running r') after a4 b3
        ≡ some (b4, notify_random a0.dev.contents.random_pdu ∷ [])
    unfolding prov_public_key request_public_key prov_confirmation request_confirmation prov_random
        request_random start_delay role_require_trans_num dev_require_trans_num
        prov_require_trans_num pdu_of generate_confirmation verify_confirmation
        calculate_session_device_key
    random_a =
        deliver-random c e (running r') after a4 b3 a0.dev.contents.random_pdu refl
          agree.random_length_a refl
          (bytes_eq_of _ _
            (same_confirmation (s1 c (confirmation_inputs a2)) a0.dev.contents.random_pdu))

    random_b :
        deliver c e (running r) after b4 a4
        ≡ some (a5, notify_random b0.dev.contents.random_pdu ∷ [])
    unfolding prov_public_key request_public_key prov_confirmation request_confirmation prov_random
        request_random start_delay role_require_trans_num dev_require_trans_num
        prov_require_trans_num pdu_of generate_confirmation verify_confirmation
        calculate_session_device_key
    random_b =
        deliver-random c e (running r) after b4 a4 b0.dev.contents.random_pdu refl
          agree.random_length_b refl
          (bytes_eq_of _ _
            (sym (same_confirmation (s1 c (confirmation_inputs a2)) b0.dev.contents.random_pdu)))

    abbrev session_salt : List ℕ
    session_salt = s1 c (
        s1 c (confirmation_inputs a2) ++ (a0.dev.contents.random_pdu ++ b0.dev.contents.random_pdu))

    pub same_session_key : b4.session_key ≡ a5.session_key
    unfolding prov_public_key request_public_key prov_confirmation request_confirmation prov_random
        request_random start_delay role_require_trans_num dev_require_trans_num
        prov_require_trans_num generate_confirmation verify_confirmation
        calculate_session_device_key
    same_session_key = ap (λ s. k1 c s session_salt (label 0x73 0x6b)) (sym agree.same_secret)

    pub same_session_nonce : b4.session_nonce ≡ a5.session_nonce
    unfolding prov_public_key request_public_key prov_confirmation request_confirmation prov_random
        request_random start_delay role_require_trans_num dev_require_trans_num
        prov_require_trans_num generate_confirmation verify_confirmation
        calculate_session_device_key
    same_session_nonce = ap (λ s. k1 c s session_salt (label 0x73 0x6e)) (sym agree.same_secret)

    pub same_device_key : b4.device_key ≡ a5.device_key
    unfolding prov_public_key request_public_key prov_confirmation request_confirmation prov_random
        request_random start_delay role_require_trans_num dev_require_trans_num
        prov_require_trans_num generate_confirmation verify_confirmation
        calculate_session_device_key
    same_device_key = ap (λ s. k1 c s session_salt (label 0x64 0x6b)) (sym agree.same_secret)

    data_a :
        deliver c e (running r') after a6 b4
        ≡ some (b5, notify_data (record d { mic = drop 25 b0.dev.contents.data_pdu }) ∷ [])
    unfolding prov_public_key request_public_key prov_confirmation request_confirmation prov_random
        request_random start_delay role_require_trans_num dev_require_trans_num
        prov_require_trans_num pdu_of generate_confirmation verify_confirmation
        calculate_session_device_key send_data request_data prov_complete request_complete
    data_a =
        let key = a5.session_key in
        let nonce = drop 3 a5.session_nonce in
        let cut : List ℕ × List ℕ = c.ccm_encrypt key nonce (data_text d) 8 in
        deliver-data c e (running r') after a6 b4 cut.0 cut.1 (data_text d) _ refl
          (sound.text_length key nonce (data_text d) 8 ∙ length-data_text d sized)
          (sound.mic_length key nonce (data_text d) 8) refl
          (ap (λ k. c.ccm_decrypt k (drop 3 b4.session_nonce) cut.0 cut.1) same_session_key
            ∙ ap (λ n. c.ccm_decrypt key (drop 3 n) cut.0 cut.1) same_session_nonce
            ∙ sound.undone key nonce (data_text d) 8)
          (of_data-data_text d (drop 25 b0.dev.contents.data_pdu) sized)

    complete_b :
        deliver c e (running r) after b5 a6
        ≡ some (moved complete a6.dev.contents a6, notify_complete ∷ [])
    unfolding prov_public_key request_public_key prov_confirmation request_confirmation prov_random
        request_random start_delay role_require_trans_num dev_require_trans_num
        prov_require_trans_num pdu_of generate_confirmation verify_confirmation
        calculate_session_device_key send_data request_data prov_complete request_complete
    complete_b = deliver-complete c e (running r) after b5 a6 refl refl

    pub run-Provisioned :
        Provisioned d
          (drop 25 b0.dev.contents.data_pdu)
          (moved complete a6.dev.contents a6)
          b5
          (notify_data (record d { mic = drop 25 b0.dev.contents.data_pdu }) ∷ [])
    unfolding prov_public_key request_public_key prov_confirmation request_confirmation prov_random
        request_random start_delay role_require_trans_num dev_require_trans_num
        prov_require_trans_num generate_confirmation verify_confirmation
        calculate_session_device_key send_data request_data prov_complete request_complete
    run-Provisioned = record {
      complete_a = refl;
      complete_b = refl;
      same_device = sym same_device_key;
      same_session = sym same_session_key;
      same_nonce = sym same_session_nonce;
      told = refl;
    }

    -- The run of the two sides with what they have in common.
    pub provision_run :
        provision c e (running r) (running r') after d (as_provisioner a0) (as_device a0 b0)
        ≡ some (
          moved complete a6.dev.contents a6,
          b5,
          notify_data (record d { mic = drop 25 b0.dev.contents.data_pdu }) ∷ [],
        )
    unfolding provision
    provision_run =
        rw (key_a, key_b, confirm_a, confirm_b, random_a, random_b, data_a, complete_b) refl
