-- ===== src/Beacon/Tests.antt =====
-- A beacon with the new value of a key, at a node that still refreshes it.
use meshx.Base.{
  ℕ, ◌+◌, ◌*◌, ◌/◌, ◌%◌, ◌≡◌, refl, true, false, none, some, List, [], ◌∷◌, replicate, ◌>>=◌,
}
use meshx.Security.{Ciphers}
use meshx.Key.{phase1, NetKeyValue, NetKey}
use meshx.Iv.{Iv, normal}
use meshx.Beacon.{Host, BeaconNode, snb_bytes, candidates, beacon_receive}
use meshx.Beacon.Secure.{first_value, Measured, refreshed, updated, snb_bytes-beacon_receive}

-- A cipher whose authentication value is that of sixteen bytes.
abbrev beacon_ciphers : Ciphers
beacon_ciphers = record {
  cmac = λ k text. replicate 16 7;
  aes128 = λ k text. text;
  ccm_encrypt = λ k nonce text n. (text, replicate n 0);
  ccm_decrypt = λ k nonce text mic. (true, text);
}

abbrev little_endian_word : List ℕ → ℕ
little_endian_word [] = 0
little_endian_word (b ∷ bs) = b + 256 * little_endian_word bs

abbrev little_endian : Host
little_endian = record {
  word_bytes = λ w. w % 256 ∷ w / 256 % 256 ∷ w / 65536 % 256 ∷ w / 16777216 % 256 ∷ [];
  word_of = little_endian_word;
}

abbrev value_of : ℕ → NetKeyValue
value_of x = record {
  net_key = replicate 16 x;
  identity_key = [];
  beacon_key = replicate 16 x;
  nid = 0;
  encryption_key = [];
  privacy_key = [];
  net_id = replicate 8 x;
}

abbrev refreshing : NetKey
refreshing = record {
  addr = 1;
  key_state = phase1;
  key_index = 0;
  value0 = value_of 3;
  value1 = value_of 4;
}

abbrev sender_iv : Iv
sender_iv = record {
  iv_index = 6;
  update_state = normal;
  test_mode = false;
  transit_pending = false;
  tick_time = 0;
  has_timer = true;
}

abbrev receiver : BeaconNode
receiver = record {
  net_keys = refreshing ∷ [];
  app_keys = [];
  iv_state = record {
    iv = sender_iv;
    seqs = record { seq_array = some (5 ∷ []); element_num = 1 };
    rpl = record { rpl_array = none; rpl_index = 0; rpl_size = 0 };
  };
}

sender-Measured : Measured beacon_ciphers little_endian sender_iv (value_of 4)
sender-Measured = record {
  id_length = refl;
  word_length = refl;
  word_back = refl;
  mac_length = λ text. refl;
}

second_is_found :
    first_value (replicate 8 4) (candidates (refreshing ∷ [])) ≡ some (refreshing, true, value_of 4)
second_is_found = refl

snb_bytes-beacon_receive_example :
    beacon_receive beacon_ciphers little_endian false
      (snb_bytes beacon_ciphers little_endian sender_iv (value_of 4))
      receiver
    ≡ (refreshed refreshing true receiver >>= updated false sender_iv)
snb_bytes-beacon_receive_example =
    snb_bytes-beacon_receive beacon_ciphers little_endian sender_iv (value_of 4) sender-Measured
      false receiver refreshing true (value_of 4) second_is_found refl
