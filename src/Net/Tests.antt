-- ===== src/Net/Tests.antt =====
-- Network PDUs with ciphers that can be run.
use meshx.Base.{
  ℕ, ◌+◌, ◌≤◌, ◌≡◌, refl, ap, ◌∙◌, inl, true, false, none, some, List, [], ◌∷◌, ◌++◌, length,
  replicate, length-replicate, take, arith,
}
use meshx.Base.Bytes.{bytes_eq, bytes_eq_refl, xor}
use meshx.Base.Errno.{success, key as wrong_key}
use meshx.Security.{Ciphers, last_byte}
use meshx.Key.{normal, NetKeyValue, NetKey}
use meshx.Nmc.{Nmc, check, add, zero_msg}
use meshx.NetIface.{
  Ifaces, Iface, adv, iface_ifilter, iface_ofilter, find_iface, find_bearer, put_iface, no_info,
}
use meshx.Net.{
  net_encrypt, net_obfuscation, xor_all, net_decrypt, try_value, try_values, try_keys, NetMsg,
  lower_trans_receive, bearer_adv_send, State, Node, receive_pdu, net_receive,
}
use meshx.Net.Send.{plain_pdu, net_pdu, net_send}
use meshx.Net.Undone.{IsSound}
use meshx.Net.Parts.{IsSendable, sent}
use meshx.Net.Transfer.{IsConnected, IsExpected, net_send-net_receive}
use meshx.Net.Short.{receive_pdu-short}

-- The check value is of the last byte of the key and the second one of the nonce, and a block is its
-- key and its text.
abbrev check_byte : List ℕ → List ℕ → ℕ
check_byte k nonce = last_byte k + last_byte (take 2 nonce)

abbrev keyed_ciphers : Ciphers
keyed_ciphers = record {
  cmac = λ k text. k ++ text;
  aes128 = λ k text. k ++ text;
  ccm_encrypt = λ k nonce text n. (text, replicate n (check_byte k nonce));
  ccm_decrypt =
      λ k nonce text mic. (bytes_eq mic (replicate (length mic) (check_byte k nonce)), text);
}

keyed-IsSound : IsSound keyed_ciphers
keyed-IsSound = record {
  undone = λ k nonce text n.
      ap (λ b. (b, text))
        (ap
            (λ (l : ℕ).
              bytes_eq (replicate n (check_byte k nonce)) (replicate l (check_byte k nonce)))
            (length-replicate n (check_byte k nonce))
          ∙ bytes_eq_refl (replicate n (check_byte k nonce)));
  text_length = λ k nonce text n. refl;
  mic_length = λ k nonce text n. length-replicate n (check_byte k nonce);
}

abbrev value_of : ℕ → NetKeyValue
value_of k = record {
  net_key = k ∷ [];
  identity_key = [];
  beacon_key = [];
  nid = 3;
  encryption_key = replicate 16 k;
  privacy_key = replicate 16 k;
  net_id = [];
}

abbrev key_of : ℕ → NetKey
key_of k = record {
  addr = k;
  key_state = normal;
  key_index = k;
  value0 = value_of k;
  value1 = value_of k;
}

abbrev message : NetMsg
message = record {
  ctl = false;
  ttl = 5;
  seq = 1;
  src = 1;
  dst = 2;
  iv_index = 0;
  net_key = value_of 7;
  net_iface = some 9;
  trans_pdu = 4 ∷ 5 ∷ 6 ∷ [];
}

message-IsSendable : IsSendable message
message-IsSendable = record {
  ttl_fits = omega arith;
  seq_fits = omega arith;
  src_fits = omega arith;
  dst_fits = omega arith;
  nid_fits = omega arith;
  least = omega arith;
  most = omega arith;
}

abbrev node_with : List NetKey → Node
node_with ks = record {
  node_iv_index = 0;
  node_addr = 2;
  net_keys = ks;
  lower = success;
  bearer_answer = λ b. success;
}

abbrev an_iface : Iface
an_iface = record {
  addr = 9;
  type = adv;
  bearer = none;
  ifilter = some true;
  ofilter = none;
  filter_info = no_info;
}

abbrev start_state : State
start_state = record {
  ifaces = record { net_iface_list = an_iface ∷ []; bearers = [] };
  nmc = record {
    nmc_array = some (zero_msg ∷ []);
    nmc_index = 0;
    nmc_circle = false;
    nmc_size = 1;
  };
}

-- The interfaces with the PDU counted, and the cache with the message.
abbrev counted : Ifaces
counted = record {
  net_iface_list =
      record an_iface {
        filter_info = record {
          total_send = 0;
          total_receive = 1;
          filtered_send = 0;
          filtered_receive = 0;
        };
      }
      ∷ [];
  bearers = [];
}

abbrev cached : Nmc
cached = record {
  nmc_array = some ((record { src = 1; seq = 1 }) ∷ []);
  nmc_index = 1;
  nmc_circle = false;
  nmc_size = 1;
}

counted_run : iface_ifilter 9 start_state.ifaces ≡ some (true, counted)
unfolding iface_ifilter find_iface put_iface
counted_run = refl

cached_check : check (record { src = 1; seq = 1 }) start_state.nmc ≡ some true
unfolding check
cached_check = refl

cached_run : add (record { src = 1; seq = 1 }) start_state.nmc ≡ some (success, cached)
unfolding add
cached_run = refl

message-IsExpected : IsExpected 9 message (node_with (key_of 7 ∷ [])) start_state
message-IsExpected = record {
  first_key = key_of 7;
  more_keys = [];
  keys = refl;
  state = refl;
  same_key = refl;
  near = inl refl;
  word = omega arith;
  src_valid = refl;
  dst_valid = refl;
  mine = refl;
  counted = counted;
  passes = counted_run;
  new = cached_check;
  cached = cached;
  answer = success;
  added = cached_run;
}

-- The sender's interface.
abbrev radio_iface : Iface
radio_iface = record {
  addr = 9;
  type = adv;
  bearer = some 4;
  ifilter = some true;
  ofilter = some (λ src dst. true);
  filter_info = no_info;
}

abbrev radio_state : State
radio_state = record start_state {
  ifaces = record {
    net_iface_list = radio_iface ∷ [];
    bearers = (record { addr = 4; is_adv = true; net_iface = some 9 }) ∷ [];
  };
}

abbrev radio_counted : Ifaces
radio_counted = record {
  net_iface_list =
      record radio_iface {
        filter_info = record {
          total_send = 1;
          total_receive = 0;
          filtered_send = 0;
          filtered_receive = 0;
        };
      }
      ∷ [];
  bearers = (record { addr = 4; is_adv = true; net_iface = some 9 }) ∷ [];
}

message-IsConnected : IsConnected 9 4 message radio_state
unfolding find_iface find_bearer iface_ofilter put_iface
message-IsConnected = record {
  named = refl;
  before = radio_iface;
  found = refl;
  radio = refl;
  counted = radio_counted;
  passes = refl;
  after = record radio_iface {
    filter_info = record {
      total_send = 1;
      total_receive = 0;
      filtered_send = 0;
      filtered_receive = 0;
    };
  };
  found_after = refl;
  linked = refl;
  the_bearer = record { addr = 4; is_adv = true; net_iface = some 9 };
  found_bearer = refl;
  advertises = refl;
}

net_send-net_receive_example :
    (bytes : List ℕ) × (net_send keyed_ciphers (node_with []) message radio_state
      ≡ some (
        success,
        record radio_state { ifaces = message-IsConnected.counted },
        bearer_adv_send 4 bytes ∷ [],
      ))
    × (13 ≤ length bytes)
    × (net_receive keyed_ciphers
          (node_with (key_of 7 ∷ []))
          (some 9)
          (length bytes)
          (bytes ++ replicate 16 0)
          start_state
        ≡ some (
          success,
          record { ifaces = message-IsExpected.counted; nmc = message-IsExpected.cached },
          lower_trans_receive (record message { net_iface = some 9 }) ∷ [],
        ))
net_send-net_receive_example =
    net_send-net_receive keyed_ciphers (node_with []) (node_with (key_of 7 ∷ [])) 9 4 9 message
      (replicate 16 0) radio_state start_state keyed-IsSound message-IsSendable message-IsConnected
      message-IsExpected (omega arith)

receive_pdu-short_example :
    receive_pdu keyed_ciphers (node_with (key_of 7 ∷ [])) 9 5 (3 ∷ replicate 28 0) start_state
    ≡ none
receive_pdu-short_example =
    receive_pdu-short keyed_ciphers (node_with (key_of 7 ∷ [])) 9 5 3 (replicate 28 0) (key_of 7) []
      start_state (omega arith) refl refl

-- The same PDU is refused when another key with the same identifier comes first: its obfuscation is
-- not taken back.
spoiled_by_first_key :
    receive_pdu keyed_ciphers
      (node_with (key_of 8 ∷ key_of 7 ∷ []))
      9
      16
      (sent keyed_ciphers message ++ replicate 13 0)
      start_state
    ≡ some (wrong_key, start_state, [])
unfolding receive_pdu try_keys try_values try_value net_decrypt net_obfuscation net_encrypt xor_all
    xor sent net_pdu plain_pdu last_byte
spoiled_by_first_key = refl
