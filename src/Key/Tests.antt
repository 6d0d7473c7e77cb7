-- ===== src/Key/Tests.antt =====
-- Keys at concrete lists.
use meshx.Base.{
  ℕ, ◌+◌, ◌-◌, ◌≡◌, refl, true, none, some, All, List, [], ◌∷◌, ◌++◌, replicate, arith,
}
use meshx.Base.Errno.{Ret, success}
use meshx.Security.{Ciphers}
use meshx.Key.{
  normal, phase1, phase2, NetKey, NetKeyValue, net_key_tx_get, net_key_update, net_key_delete,
  net_key_at,
}
use meshx.Key.App.{AppKey, app_key_get, app_key_tx_get, app_key_update, app_key_state_transit}
use meshx.Key.Dev.{DeviceKey, overlaps, dev_key_get, dev_key_add, dev_key_add-dev_key_get}
use meshx.Key.Refresh.{net_key_update-tx_get, app_key_update-stale, IsBound}

-- Ciphers that only tell keys apart.
abbrev plain_ciphers : Ciphers
plain_ciphers = record {
  cmac = λ key text. key ++ text;
  aes128 = λ key text. text;
  ccm_encrypt = λ key nonce text n. (text, replicate n 0);
  ccm_decrypt = λ key nonce text mic. (true, text);
}

abbrev no_value : NetKeyValue
no_value = record {
  net_key = [];
  identity_key = [];
  beacon_key = [];
  nid = 0;
  encryption_key = [];
  privacy_key = [];
  net_id = [];
}

abbrev a_net_key : NetKey
a_net_key = record {
  addr = 1;
  key_state = phase1;
  key_index = 0;
  value0 = no_value;
  value1 = no_value;
}

abbrev an_app_key : AppKey
an_app_key = record {
  addr = 2;
  key_state = normal;
  key_index = 5;
  value0 = record { app_key = 1 ∷ []; aid = 1 };
  value1 = record { app_key = []; aid = 0 };
  pnet_key_bind = 1;
}

net_key_update-tx_get_example :
    net_key_tx_get 0
      (net_key_update plain_ciphers true 0
        (7 ∷ [])
        (record a_net_key { key_state = normal } ∷ [])).1
    ≡ net_key_tx_get 0 (record a_net_key { key_state = normal } ∷ [])
net_key_update-tx_get_example =
    net_key_update-tx_get plain_ciphers true 0 0 (7 ∷ [])
      (record a_net_key { key_state = normal } ∷ [])

-- Behind another key of the same network key.
abbrev app_keys : List AppKey
app_keys = record an_app_key { addr = 3; key_index = 4 } ∷ an_app_key ∷ []

app_keys-IsBound : All (IsBound (a_net_key ∷ [])) app_keys
unfolding net_key_at
app_keys-IsBound = ((a_net_key, refl), ((a_net_key, refl), tt))

app_key_update-stale_example :
    (ks1 ks2 : List AppKey) × (r : Ret) × (app_key_update plain_ciphers 5
        (9 ∷ [])
        (a_net_key ∷ [])
        app_keys
      ≡ some (success, ks1))
    × (app_key_state_transit 0 phase2 (a_net_key ∷ []) ks1 ≡ some (r, ks2))
    × (app_key_tx_get 5 ks2 ≡ some (record { app_key = 9 ∷ []; aid = 0 }))
unfolding app_key_get net_key_at
app_key_update-stale_example =
    app_key_update-stale plain_ciphers (9 ∷ []) 5 (a_net_key ∷ []) app_keys a_net_key an_app_key
      refl app_keys-IsBound refl refl refl

-- A deleted network key is read through the application key that points to it.
deleted_key_read :
    app_key_update plain_ciphers 5 (9 ∷ []) (net_key_delete 0 (a_net_key ∷ [])).1 (an_app_key ∷ [])
    ≡ none
unfolding app_key_update net_key_delete net_key_at
deleted_key_read = refl

abbrev two_elements : DeviceKey
two_elements = record { primary_addr = 10; element_num = 2; dev_key = 1 ∷ [] }

abbrev four_elements : DeviceKey
four_elements = record { primary_addr = 20; element_num = 4; dev_key = 2 ∷ [] }

dev_key_add_run :
    dev_key_add true 5 20 4 (2 ∷ []) (two_elements ∷ [])
    ≡ (success, two_elements ∷ four_elements ∷ [])
unfolding dev_key_add overlaps
dev_key_add_run = refl

dev_key_add-dev_key_get_example :
    (dev_key_get 20 (two_elements ∷ four_elements ∷ []) ≡ some four_elements)
    × (dev_key_get (20 + 4 - 1) (two_elements ∷ four_elements ∷ []) ≡ some four_elements)
    × ((a : ℕ) (k : DeviceKey)
        → dev_key_get a (two_elements ∷ []) ≡ some k
        → dev_key_get a (two_elements ∷ four_elements ∷ []) ≡ some k)
dev_key_add-dev_key_get_example =
    dev_key_add-dev_key_get true 5 20 4 (2 ∷ []) (two_elements ∷ [])
      (two_elements ∷ four_elements ∷ []) ((omega arith, omega arith), tt) (omega arith)
      dev_key_add_run

-- A range that encloses that of a key is accepted, and the key inside is found for its addresses.
enclosing_run : dev_key_add true 5 8 8 (2 ∷ []) (two_elements ∷ []) ≡ (
  success,
  two_elements ∷ (record { primary_addr = 8; element_num = 8; dev_key = 2 ∷ [] }) ∷ [],
)
unfolding dev_key_add overlaps
enclosing_run = refl
