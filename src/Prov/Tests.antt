-- ===== src/Prov/Tests.antt =====
-- Provisioning at concrete devices.
use meshx.Base.{
  ℕ, ◌+◌, ◌≡◌, refl, ap, ◌∙◌, true, some, List, [], ◌∷◌, ◌++◌, length, take, drop, replicate,
  length-replicate, arith,
}
use meshx.Base.Bytes.{bytes_eq, bytes_eq_refl, be32}
use meshx.Base.Errno.{success, length as bad_length}
use meshx.Security.{Ciphers, last_byte}
use meshx.Net.Undone.{IsSound}
use meshx.PbAdv.{start, complete, failed, link_opened, device, provisioner, link_closed}
use meshx.PbAdv.Link.{zero_device}
use meshx.PbAdv.Timer.{request_invite, start_delay, prov_require_trans_num}
use meshx.Prov.{Ecc, ProvDev, ProvData, ProvEnv, adv_bearer}
use meshx.Prov.Auth.{Oob, output_oob, input_oob, set_auth_value}
use meshx.Prov.Send.{prov_invite, prov_failed}
use meshx.Prov.Process.{Notify, notify_data, pdu_process, process_start, process_capabilites}
use meshx.Prov.Notify.{beacon_start, notify, handle_notify}
use meshx.Prov.Data.{Sized}
use meshx.Prov.Order.{Later, pdu_process-failed_state}
use meshx.Prov.Events.{Event, invite as invite_call, pdu, run_events}
use meshx.Prov.Events.Forward.{run_events-Later}
use meshx.Prov.Faults.{zero_sealed, zero_key-data}
use meshx.Prov.AuthValue.{set_auth_value-numeric}
use meshx.Prov.Handshake.Run.{running}

-- Values that depend on the last bytes of what they are made of.
abbrev check_byte : List ℕ → List ℕ → ℕ
check_byte k nonce = last_byte k + last_byte nonce

abbrev test_ciphers : Ciphers
test_ciphers = record {
  cmac = λ k text. replicate 16 (check_byte k text);
  aes128 = λ k text. text;
  ccm_encrypt = λ k nonce text n. (text, replicate n (check_byte k nonce));
  ccm_decrypt =
      λ k nonce text mic. (bytes_eq mic (replicate (length mic) (check_byte k nonce)), text);
}

test-IsSound : IsSound test_ciphers
test-IsSound = record {
  undone = λ k nonce text n.
      ap (λ b. (b, text))
        (ap
            (λ (l : ℕ).
              bytes_eq (replicate n (check_byte k nonce)) (replicate l (check_byte k nonce)))
            (length-replicate n (check_byte k nonce))
          ∙ bytes_eq_refl (replicate n (check_byte k nonce)));
  text_length = λ k nonce text n. refl;
  mic_length = λ k nonce text n. length-replicate n (check_byte k nonce);
}

-- The secret of two keys is the same in both orders.
abbrev test_ecc : Ecc
test_ecc = record { validate = λ k. true; shared_secret = λ k l. replicate 32 (check_byte k l) }

abbrev zero_prov : ProvDev
zero_prov = record {
  dev = zero_device 1;
  bearer_type = adv_bearer;
  share_secret = replicate 32 0;
  public_key_remote = replicate 64 0;
  confirmation_salt = replicate 16 0;
  session_key = replicate 16 0;
  session_nonce = replicate 16 0;
  device_key = replicate 16 0;
  auth_value = replicate 16 0;
  confirmation_remote = replicate 16 0;
  random_remote = replicate 16 0;
}

abbrev side_a : ProvDev
unfolding zero_device
side_a = record zero_prov {
  dev = record (zero_device 1) {
    role = provisioner;
    state = start;
    private_key = replicate 32 3;
    contents = record ((zero_device 1).contents) {
      public_key_pdu = replicate 64 3;
      random_pdu = replicate 16 7;
    };
  };
}

abbrev side_b : ProvDev
unfolding zero_device
side_b = record zero_prov {
  dev = record (zero_device 2) {
    role = device;
    state = start;
    private_key = replicate 32 5;
    contents = record ((zero_device 2).contents) {
      public_key_pdu = replicate 64 5;
      random_pdu = replicate 16 9;
    };
  };
}

abbrev test_data : ProvData
test_data = record {
  net_key = replicate 16 4;
  key_index = 0x567;
  key_refresh_flag = 0;
  iv_update_flag = 1;
  rfu = 0;
  iv_index = 0x1020304;
  unicast_address = 0xb0c;
  mic = replicate 8 0;
}

test-Sized : Sized test_data
test-Sized = record {
  key_length = refl;
  index_word = omega arith;
  refresh_bit = omega arith;
  update_bit = omega arith;
  rfu_bits = omega arith;
  iv_word = omega arith;
  address_word = omega arith;
}

-- A device whose link has just been opened.
abbrev opened : ProvDev
unfolding zero_device
opened = record zero_prov { dev = record (zero_device 1) { state = link_opened } }

zero_key-data_example :
    (p' : ProvDev) × (pdu_process test_ciphers test_ecc
        (running 1)
        opened
        (7 ∷ (zero_sealed test_ciphers test_data ++ []))
        34
      ≡ some (
        success,
        p',
        notify_data (record test_data { mic = drop 25 opened.dev.contents.data_pdu }) ∷ [],
      ))
    × (p'.dev.state ≡ complete)
unfolding zero_device
zero_key-data_example =
    zero_key-data test_ciphers test_ecc (running 1) [] test_data opened test-IsSound test-Sized refl
      refl (omega arith)

abbrev number : Oob
number = record {
  auth_action = 3;
  auth_value_numeric = 1234;
  auth_value_alpha = replicate 8 0x41;
  auth_value_alpha_len = 8;
}

set_auth_value-numeric_example :
    let q : ProvDev = record opened {
      auth_value = take 1 opened.auth_value ++ (replicate 11 0 ++ be32 1234);
    } in
    (set_auth_value (output_oob number) opened ≡ some q)
    × (set_auth_value (input_oob number) opened ≡ some q)
unfolding opened
set_auth_value-numeric_example =
    set_auth_value-numeric number opened (omega arith) (omega arith) refl

-- A start message that is too short.
abbrev refused : ProvDev
refused = (prov_failed (running 1) side_b 2).1

refused_run :
    pdu_process test_ciphers test_ecc (running 1) side_b (2 ∷ []) 1 ≡ some (bad_length, refused, [])
unfolding zero_device pdu_process process_start
refused_run = refl

pdu_process-failed_state_example : (refused.dev.state ≡ failed) × (◌≡◌ {A = List Notify} [] [])
unfolding zero_device
pdu_process-failed_state_example =
    pdu_process-failed_state test_ciphers test_ecc (running 1) side_b refused (2 ∷ []) 1 bad_length
      [] refused_run (λ e. absurd (cc e)) (λ e. absurd (omega (arith, e))) (omega arith)
      (λ e. absurd (omega (arith, e)))

-- An invitation that is sent, and answered with capabilites that are too short.
abbrev invited : ProvDev
invited = (prov_invite (running 1) opened (5 ∷ [])).1

abbrev events : List (ProvEnv × Event)
events = (running 1, invite_call (5 ∷ [])) ∷ (running 1, pdu (1 ∷ []) 2) ∷ []

abbrev given_up : ProvDev
given_up = (prov_failed (running 1) invited 2).1

events_run : run_events test_ciphers test_ecc events opened ≡ some given_up
unfolding run_events opened zero_device prov_invite request_invite start_delay
    prov_require_trans_num pdu_process process_capabilites
events_run = refl

run_events-Later_example : Later opened.dev.state given_up.dev.state
run_events-Later_example = run_events-Later test_ciphers test_ecc events opened given_up events_run

-- The beacon is started for a node that has an address, and for no other.
beacon_run :
    (handle_notify
      (record { node_addr = 1; udb_interval = 5 })
      adv_bearer
      (link_closed 1 0)
      opened).1
    ≡ beacon_start 5 ∷ notify (link_closed 1 0) ∷ []
unfolding handle_notify
beacon_run = refl

no_beacon_run :
    (handle_notify
      (record { node_addr = 0; udb_interval = 5 })
      adv_bearer
      (link_closed 1 0)
      opened).1
    ≡ notify (link_closed 1 0) ∷ []
unfolding handle_notify
no_beacon_run = refl
